-- ===== src/Wire/Feedback.antt =====
-- src/wire/feedback.rs: feedback packets and the SACK bit vector. A loss rate is a float in the
-- source; a packet carries its byte `plr_raw`, which the float's encoding gives.
pub mod Total
pub mod RoundTrip
use delp.Prelude.{
  ℕ, zero, suc, ◌+◌, ◌-◌, ◌*◌, ◌/◌, ◌%◌, ◌^◌, bit_and, bit_or, Bool, true, false, Option, none,
  some, List, [], ◌∷◌, ◌++◌, ltb, leb, ◌==◌, if◌then◌else◌, length, replicate, get_or, set, u8, u32,
  to_be_bytes, max, not,
}
use delp.Error.{Result, ok, err, ◌>>=◌, ◌>>◌, ensure, buffer_too_short}
use delp.Wire.Common
use delp.Wire.Common.{CommonHeader, PacketType, CciLength}
use delp.Wire.Slice.{slice, byte_at, read_u32}
use delp.Wire.Layout.{is_some, tsi_bytes}

pub record FeedbackPacket : Type 0 where
  pub tsi : Option ℕ
  pub nb_missing_src : ℕ
  pub nb_not_used_coded : ℕ
  pub first_src_id : ℕ
  pub plr_raw : ℕ
  pub sack : List ℕ

-- `*acked_ids.iter().max()` on a list that is not empty.
unfoldable pub maximum : ℕ → List ℕ → ℕ
maximum m [] = m
maximum m (id ∷ ids) = maximum (max m id) ids

-- `sack[byte] |= 1 << bit` for one ID at or above the first.
unfoldable pub mark : ℕ → List ℕ → ℕ → List ℕ
mark first_src_id sack id =
    let offset = id - first_src_id in
    set sack (offset / 8) (bit_or (get_or sack (offset / 8) 0) (u8 (2 ^ (7 - offset % 8))))

unfoldable pub mark_all : ℕ → List ℕ → List ℕ → List ℕ
mark_all first_src_id [] sack = sack
mark_all first_src_id (id ∷ ids) sack =
    mark_all first_src_id ids (if ltb id first_src_id then sack else mark first_src_id sack id)

unfoldable pub build_sack : ℕ → List ℕ → List ℕ
build_sack first_src_id [] = []
build_sack first_src_id (id ∷ ids) =
    let last_id = maximum id ids in
    if ltb last_id first_src_id
    then []
    else mark_all first_src_id (id ∷ ids) (replicate ((last_id - first_src_id + 1 + 7) / 8) 0)

-- `build`, with the encoded loss rate in place of the float.
unfoldable pub build : ℕ → ℕ → ℕ → ℕ → List ℕ → FeedbackPacket
build first_src_id nb_missing_src nb_not_used_coded plr_raw acked_ids = record {
  tsi = none;
  nb_missing_src = nb_missing_src;
  nb_not_used_coded = nb_not_used_coded;
  first_src_id = first_src_id;
  plr_raw = plr_raw;
  sack = build_sack first_src_id acked_ids;
}

-- `(n + 3) & !3`, the next multiple of four.
unfoldable pub pad32 : ℕ → ℕ
pad32 n = (n + 3) / 4 * 4

unfoldable pub feedback_header : Option ℕ → CommonHeader
feedback_header tsi =
    Common.new PacketType.feedback CciLength.zero (is_some tsi)
      (u8 (u8 (1 + Common.flag (is_some tsi)) + 2) + 1)

-- What stands behind the header and the TSI.
unfoldable pub feedback_body : FeedbackPacket → List ℕ
unfolding pad32
feedback_body p =
    to_be_bytes p.nb_missing_src
    ++ (to_be_bytes p.nb_not_used_coded
        ++ (to_be_bytes p.first_src_id
            ++ (p.plr_raw
                ∷ u8 (length p.sack)
                ∷ 0
                ∷ 0
                ∷ (p.sack ++ replicate (pad32 (length p.sack) - length p.sack) 0))))

unfoldable pub serialise : FeedbackPacket → List ℕ
serialise p = Common.to_bytes (feedback_header p.tsi) ++ (tsi_bytes p.tsi ++ feedback_body p)

-- The TSI is read right behind the common header.
unfoldable pub read_tsi_at : List ℕ → Bool → Result (Option ℕ)
read_tsi_at buf true = do t ← read_u32 buf Common.header_size; ok (some t)
read_tsi_at buf false = ok none

unfoldable pub parse_body : List ℕ → CommonHeader → Result FeedbackPacket
parse_body buf header = do
  let off = Common.body_offset header
  ensure (not (ltb (length buf) (off + 16))) (buffer_too_short (off + 16) (length buf))
  tsi ← read_tsi_at buf (Common.has_tsi header)
  nb_missing_src ← read_u32 buf off
  nb_not_used_coded ← read_u32 buf (off + 4)
  first_src_id ← read_u32 buf (off + 8)
  plr_raw ← byte_at buf (off + 12)
  sack_size ← byte_at buf (off + 13)
  ensure (not (ltb (length buf) (off + 16 + sack_size)))
      (buffer_too_short (off + 16 + sack_size) (length buf))
  sack ← slice buf (off + 16) (off + 16 + sack_size)
  ok (record {
    tsi = tsi;
    nb_missing_src = nb_missing_src;
    nb_not_used_coded = nb_not_used_coded;
    first_src_id = first_src_id;
    plr_raw = plr_raw;
    sack = sack;
  })

unfoldable pub parse : List ℕ → Result FeedbackPacket
parse buf = do header ← Common.parse buf; parse_body buf header

unfoldable pub is_acked : FeedbackPacket → ℕ → Bool
is_acked p id =
    let offset = id - p.first_src_id in
    if ltb id p.first_src_id
    then false
    else if leb (length p.sack) (offset / 8)
    then false
    else bit_and (get_or p.sack (offset / 8) 0 / 2 ^ (7 - offset % 8)) 1 == 1

-- The bits of one byte, from `bit` on with `rounds` to go.
unfoldable pub byte_ids : ℕ → ℕ → ℕ → ℕ → ℕ → List ℕ
byte_ids base byte_idx byte zero bit = []
byte_ids base byte_idx byte (suc rounds) bit =
    let rest = byte_ids base byte_idx byte rounds (bit + 1) in
    if bit_and (byte / 2 ^ (7 - bit)) 1 == 1
    then u32 (u32 (base + u32 (u32 byte_idx * 8)) + bit) ∷ rest
    else rest

unfoldable pub sack_ids : ℕ → ℕ → List ℕ → List ℕ
sack_ids base byte_idx [] = []
sack_ids base byte_idx (byte ∷ sack) =
    byte_ids base byte_idx byte 8 0 ++ sack_ids base (byte_idx + 1) sack

unfoldable pub acked_ids : FeedbackPacket → List ℕ
acked_ids p = sack_ids p.first_src_id 0 p.sack
