-- ===== src/Wire/Source/RoundTrip.antt =====
-- A source packet is parsed back from its bytes.
use mathlib.Core.List.{append_assoc}
use delp.Prelude.{
  ℕ, ◌+◌, ◌*◌, ◌/◌, ◌^◌, ◌≤◌, ◌<◌, ◌≡◌, refl, sym, Option, none, some, List, ◌++◌, length, arith,
  length-append, to_be_bytes, u8, le→not-ltb,
}
use delp.Error.{ok}
use delp.Wire.Common
use delp.Wire.Common.{CommonHeader, PacketType, CciLength}
use delp.Wire.Common.Laws.{new_fields, parse-new}
use delp.Wire.Slice.{slice_from, read_u32, slice_from_part, u32_part}
use delp.Wire.Layout.{
  IsCci, IsWord, is_some, tsi_bytes, cci_value-from_words, packet, prefix, cci_part, tsi_part,
  packet-prefix, length-prefix, body_offset-prefix,
}
use delp.Wire.Source.{check_type, parse_body, parse, source_header, serialise}

-- The header that `serialise` writes announces the CCI and the TSI.
header_words :
    (cci : List ℕ) (tsi : Option ℕ)
    → IsCci cci
    → Common.cci_words (source_header cci tsi) * 4 ≡ length cci
unfolding source_header
header_words cci tsi (multiple, short) =
    let w = u8 (length cci / 4) in
    let e = cci_value-from_words w (omega arith) in
    let fields =
      new_fields PacketType.source (Common.from_words w) (is_some tsi)
        (u8 (u8 (u8 (1 + w) + Common.flag (is_some tsi)) + 1)) in
    omega (arith, fields.1, e)

header_tsi : (cci : List ℕ) (tsi : Option ℕ) → Common.has_tsi (source_header cci tsi) ≡ is_some tsi
unfolding source_header
header_tsi cci tsi =
    let w = u8 (length cci / 4) in
    (new_fields PacketType.source (Common.from_words w) (is_some tsi)
      (u8 (u8 (u8 (1 + w) + Common.flag (is_some tsi)) + 1))).2

module _ (h : CommonHeader) (id : ℕ) (payload cci : List ℕ) (tsi : Option ℕ)
    (words : Common.cci_words h * 4 ≡ length cci) (flagged : Common.has_tsi h ≡ is_some tsi)
    (id_word : id < 2 ^ 32) (tsi_word : IsWord tsi) where
  abbrev body : List ℕ
  body = to_be_bytes id ++ payload

  abbrev id_off : ℕ
  id_off = 4 + Common.cci_words h * 4 + length (tsi_bytes tsi)

  id_part : read_u32 (packet h cci tsi body) id_off ≡ ok id
  id_part = rw (packet-prefix h cci tsi body) (
      u32_part (prefix h cci tsi) id payload id_off id_word
        (sym (length-prefix h cci tsi words flagged)))

  payload_part : slice_from (packet h cci tsi body) (id_off + 4) ≡ ok payload
  payload_part =
      rw
        (
          packet-prefix h cci tsi body,
          sym (append_assoc (prefix h cci tsi) (to_be_bytes id) payload),
        )
        (slice_from_part (prefix h cci tsi ++ to_be_bytes id) payload (id_off + 4) (
          omega (
            arith,
            length-append (prefix h cci tsi) (to_be_bytes id),
            length-prefix h cci tsi words flagged,
          )))

  long_enough : Common.body_offset h + 4 ≤ length (packet h cci tsi body)
  long_enough =
      rw (packet-prefix h cci tsi body, body_offset-prefix h cci tsi words flagged)
        (omega (arith, length-append (prefix h cci tsi) body))

  parse_body-packet :
      parse_body (packet h cci tsi body) h
      ≡ ok (record { header = h; cci = cci; tsi = tsi; source_symbol_id = id; payload = payload })
  unfolding parse_body
  parse_body-packet =
      rw
        (
          le→not-ltb _ _ long_enough,
          cci_part h cci tsi words flagged body,
          tsi_part h cci tsi words flagged body tsi_word,
          id_part,
          payload_part,
        )
        refl

header_fits :
    (cci : List ℕ) (tsi : Option ℕ) (rest : List ℕ)
    → IsCci cci
    → 4 ≤ length rest
    → Common.parse (packet (source_header cci tsi) cci tsi rest) ≡ ok (source_header cci tsi)
unfolding source_header
header_fits cci tsi rest valid long =
    let w = u8 (length cci / 4) in
    parse-new PacketType.source (Common.from_words w) (is_some tsi)
      (u8 (u8 (u8 (1 + w) + Common.flag (is_some tsi)) + 1)) (cci ++ (tsi_bytes tsi ++ rest))
      (fits tsi)
  where
    fits :
        (t : Option ℕ)
        → u8 (u8 (u8 (1 + u8 (length cci / 4)) + Common.flag (is_some t)) + 1) * 4
          ≤ 4 + length (cci ++ (tsi_bytes t ++ rest))
    fits none = omega (arith, length-append cci rest)
    fits (some t) = omega (arith, length-append cci (to_be_bytes t ++ rest))

source_type :
    (cci : List ℕ) (tsi : Option ℕ)
    → Common.packet_type (source_header cci tsi) ≡ ok PacketType.source
unfolding source_header
source_type cci tsi =
    let w = u8 (length cci / 4) in
    (new_fields PacketType.source (Common.from_words w) (is_some tsi)
      (u8 (u8 (u8 (1 + w) + Common.flag (is_some tsi)) + 1))).3

-- For a CCI of 0, 4, 8 or 12 bytes and 32-bit IDs, `serialise` succeeds and `parse` gives back the
-- header that was written, the CCI, the TSI, the source ID and the payload, of any length.
pub parse_source-serialise :
    (id : ℕ) (payload cci : List ℕ) (tsi : Option ℕ)
    → IsCci cci
    → id < 2 ^ 32
    → IsWord tsi
    → (bytes : List ℕ) × (serialise id payload cci tsi ≡ ok bytes)
      × (parse bytes
          ≡ ok (record {
            header = source_header cci tsi;
            cci = cci;
            tsi = tsi;
            source_symbol_id = id;
            payload = payload;
          }))
unfolding serialise parse check_type
parse_source-serialise id payload cci tsi valid id_word tsi_word =
    let h = source_header cci tsi in
    let rest = to_be_bytes id ++ payload in
    (
      packet h cci tsi rest,
      ground arith,
      rw (header_fits cci tsi rest valid (omega arith), source_type cci tsi)
          (parse_body-packet h id payload cci tsi (header_words cci tsi valid) (header_tsi cci tsi)
            id_word tsi_word),
    )
