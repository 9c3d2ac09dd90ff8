-- ===== src/Wire/Coded.antt =====
-- src/wire/coded.rs: coded packets.
pub mod RoundTrip
use delp.Prelude.{
  ℕ, ◌+◌, ◌-◌, ◌*◌, ◌/◌, ◌%◌, Bool, true, false, Option, none, some, List, [], ◌∷◌, ◌++◌, ◌&&◌,
  ◌==◌, leb, if◌then◌else◌, length, u8, to_be_bytes, ltb, not, replicate,
}
use delp.Error.{Result, ok, err, panic, ◌>>=◌, ◌>>◌, ensure, buffer_too_short, unknown_packet_type}
use delp.Wire.Common
use delp.Wire.Common.{CommonHeader, PacketType}
use delp.Wire.Slice.{slice, slice_from, byte_at, read_u32}
use delp.Wire.Layout.{read_tsi, is_some, tsi_bytes}
use delp.Wire.Ev
use delp.Wire.Ev.{EncodingVector}

pub record CodedPacket : Type 0 where
  pub header : CommonHeader
  pub cci : List ℕ
  pub tsi : Option ℕ
  pub coded_symbol_id : ℕ
  pub ev : EncodingVector
  pub payload : List ℕ

-- `header.packet_type()? != PacketType::Coded`.
abbrev is_coded : PacketType → Bool
is_coded PacketType.coded = true
is_coded _ = false

unfoldable pub check_type : List ℕ → PacketType → Result (Unit {0})
check_type buf t = if is_coded t then ok tt else (do b ← byte_at buf 3; err (unknown_packet_type b))

-- From the coded ID on.
unfoldable pub parse_after_tsi : List ℕ → CommonHeader → List ℕ → Option ℕ → ℕ → Result CodedPacket
parse_after_tsi buf header cci tsi after_tsi = do
  ensure (not (ltb (length buf) (after_tsi + 4))) (buffer_too_short (after_tsi + 4) (length buf))
  coded_symbol_id ← read_u32 buf after_tsi
  let ev_start = after_tsi + 4
  ensure (not (leb (length buf) ev_start)) (buffer_too_short (ev_start + 1) (length buf))
  ev_buf ← slice_from buf ev_start
  (ev, ev_consumed) ← Ev.parse ev_buf coded_symbol_id
  payload ← slice_from buf (ev_start + ev_consumed)
  ok (record {
    header = header;
    cci = cci;
    tsi = tsi;
    coded_symbol_id = coded_symbol_id;
    ev = ev;
    payload = payload;
  })

unfoldable pub parse : List ℕ → Result CodedPacket
parse buf = do
  header ← Common.parse buf
  t ← Common.packet_type header
  check_type buf t
  let cci_end = Common.header_size + Common.cci_words header * 4
  cci ← slice buf Common.header_size cci_end
  (tsi, after_tsi) ← read_tsi buf (Common.has_tsi header) cci_end
  parse_after_tsi buf header cci tsi after_tsi

-- The header of `serialise`, for an encoding vector of `ev_words` words.
unfoldable pub coded_header : List ℕ → Option ℕ → ℕ → CommonHeader
coded_header cci_bytes tsi ev_words =
    let words = u8 (length cci_bytes / 4) in
    Common.new PacketType.coded (Common.from_words words) (is_some tsi)
      (u8 (u8 (u8 (u8 (1 + words) + Common.flag (is_some tsi)) + 1) + ev_words))

unfoldable pub serialise : ℕ → EncodingVector → List ℕ → List ℕ → Option ℕ → Result (List ℕ)
serialise coded_symbol_id ev payload cci_bytes tsi =
    if length cci_bytes % 4 == 0 && leb (length cci_bytes) 12
    then (do
      ev_bytes ← Ev.serialise ev
      let ev_words = u8 ((length ev_bytes + 3) / 4)
      let ev_pad = (4 - length ev_bytes % 4) % 4
      ok (
          Common.to_bytes (coded_header cci_bytes tsi ev_words)
          ++ (cci_bytes
              ++ (tsi_bytes tsi
                  ++ (to_be_bytes coded_symbol_id
                      ++ (ev_bytes ++ (replicate ev_pad 0 ++ payload)))))))
    else panic
