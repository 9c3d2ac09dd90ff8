-- ===== src/Wire/Coded/RoundTrip.antt =====
-- A coded packet is parsed back from its bytes.
use mathlib.Core.List.{append_assoc}
use delp.Prelude.{
  ℕ, suc, ◌+◌, ◌-◌, ◌*◌, ◌/◌, ◌%◌, ◌^◌, ◌≤◌, ◌<◌, ◌≡◌, refl, sym, ap, ◌∙◌, Option, none, some, List,
  ◌∷◌, ◌++◌, length, arith, length-append, to_be_bytes, u8, le→not-ltb, leb, not, true, ◌&&◌, ◌==◌,
}
use delp.Error.{ok}
use delp.Config.{Field}
use delp.Wire.Common
use delp.Wire.Common.{CommonHeader, PacketType}
use delp.Wire.Common.Laws.{new_fields, parse-new}
use delp.Wire.Slice.{slice_from, read_u32, slice_from_part, u32_part}
use delp.Wire.Layout.{
  IsCci, IsWord, is_some, tsi_bytes, cci_value-from_words, packet, prefix, cci_part, tsi_part,
  packet-prefix, length-prefix,
}
use delp.Wire.Ev
use delp.Wire.Ev.{EncodingVector}
use delp.Wire.Ev.IdStorage.RoundTrip.{SmallGaps}
use delp.Wire.Ev.Header.{FitField}
use delp.Wire.Ev.RoundTrip.{vector, Counted, parse_vector-serialise}
use delp.Wire.Coded
use delp.Wire.Coded.{CodedPacket, check_type, parse_after_tsi, coded_header}

-- What the header announces.
coded_header-fields :
    (cci : List ℕ) (tsi : Option ℕ) (n : ℕ)
    → IsCci cci
    → (Common.cci_words (coded_header cci tsi n) * 4 ≡ length cci)
      × (Common.has_tsi (coded_header cci tsi n) ≡ is_some tsi)
      × (Common.packet_type (coded_header cci tsi n) ≡ ok PacketType.coded)
unfolding coded_header
coded_header-fields cci tsi n (multiple, short) =
    let w = u8 (length cci / 4) in
    let e = cci_value-from_words w (omega arith) in
    let (_, words, flagged, kind) =
      new_fields PacketType.coded (Common.from_words w) (is_some tsi)
        (u8 (u8 (u8 (u8 (1 + w) + Common.flag (is_some tsi)) + 1) + n)) in
    (omega arith, flagged, kind)

parse-coded_header :
    (cci : List ℕ) (tsi : Option ℕ) (n : ℕ) (rest : List ℕ)
    → IsCci cci
    → n < 200
    → 4 + n * 4 ≤ length rest
    → Common.parse (packet (coded_header cci tsi n) cci tsi rest) ≡ ok (coded_header cci tsi n)
unfolding coded_header
parse-coded_header cci tsi n rest valid few long =
    let w = u8 (length cci / 4) in
    parse-new PacketType.coded (Common.from_words w) (is_some tsi)
      (u8 (u8 (u8 (u8 (1 + w) + Common.flag (is_some tsi)) + 1) + n))
      (cci ++ (tsi_bytes tsi ++ rest)) (fits tsi)
  where
    fits :
        (t : Option ℕ)
        → u8 (u8 (u8 (u8 (1 + u8 (length cci / 4)) + Common.flag (is_some t)) + 1) + n) * 4
          ≤ 4 + length (cci ++ (tsi_bytes t ++ rest))
    fits none = omega (arith, length-append cci rest)
    fits (some t) = omega (arith, length-append cci (to_be_bytes t ++ rest))

-- The parts behind the TSI.
module _ (h : CommonHeader) (id : ℕ) (ev_bytes payload cci : List ℕ) (tsi : Option ℕ)
    (ev : EncodingVector) (words : Common.cci_words h * 4 ≡ length cci)
    (flagged : Common.has_tsi h ≡ is_some tsi) (id_word : id < 2 ^ 32)
    (some_bytes : 0 < length ev_bytes)
    (read : Ev.parse (ev_bytes ++ payload) id ≡ ok (ev, length ev_bytes)) where
  abbrev body : List ℕ
  body = to_be_bytes id ++ (ev_bytes ++ payload)

  abbrev after_tsi : ℕ
  after_tsi = 4 + Common.cci_words h * 4 + length (tsi_bytes tsi)

  body_at :
      (part rest : List ℕ) (at : ℕ)
      → body ≡ part ++ rest
      → at ≡ after_tsi + length part
      → slice_from (packet h cci tsi body) at ≡ ok rest
  body_at part rest at e k =
      ap (λ (t : List ℕ). slice_from t at)
        (packet-prefix h cci tsi body
          ∙ ap (◌++◌ (prefix h cci tsi)) e
          ∙ sym (append_assoc (prefix h cci tsi) part rest))
      ∙ slice_from_part (prefix h cci tsi ++ part) rest at (
          omega
            (arith, length-append (prefix h cci tsi) part, length-prefix h cci tsi words flagged))

  parse_after_tsi-packet :
      parse_after_tsi (packet h cci tsi body) h cci tsi after_tsi
      ≡ ok (record {
        header = h;
        cci = cci;
        tsi = tsi;
        coded_symbol_id = id;
        ev = ev;
        payload = payload;
      })
  unfolding parse_after_tsi
  parse_after_tsi-packet =
      let buf = packet h cci tsi body in
      let total : length buf ≡ after_tsi + (4 + (length ev_bytes + length payload)) =
        ap (λ (t : List ℕ). length t) (packet-prefix h cci tsi body)
        ∙ omega (
          arith,
          length-append (prefix h cci tsi) body,
          length-append ev_bytes payload,
          length-prefix h cci tsi words flagged,
        ) in
      let four : after_tsi + 4 ≤ length buf = omega arith in
      let more : not (leb (length buf) (after_tsi + 4)) ≡ true = ground arith in
      let id_read : read_u32 buf after_tsi ≡ ok id =
        ap (λ (t : List ℕ). read_u32 t after_tsi) (packet-prefix h cci tsi body)
        ∙ u32_part (prefix h cci tsi) id (ev_bytes ++ payload) after_tsi id_word
            (sym (length-prefix h cci tsi words flagged)) in
      let ev_read = body_at (to_be_bytes id) (ev_bytes ++ payload) (after_tsi + 4) refl refl in
      let payload_read =
        body_at (to_be_bytes id ++ ev_bytes) payload (after_tsi + 4 + length ev_bytes)
          (sym (append_assoc (to_be_bytes id) ev_bytes payload)) (omega arith) in
      rw (le→not-ltb _ _ four, id_read, more, ev_read, read, payload_read) refl

-- A vector of whole words is written without padding.
serialise-packet :
    (id : ℕ) (ev : EncodingVector) (ev_bytes payload cci : List ℕ) (tsi : Option ℕ)
    → IsCci cci
    → Ev.serialise ev ≡ ok ev_bytes
    → length ev_bytes % 4 ≡ 0
    → Coded.serialise id ev payload cci tsi
      ≡ ok (
          packet
            (coded_header cci tsi (u8 ((length ev_bytes + 3) / 4)))
            cci
            tsi
            (to_be_bytes id ++ (ev_bytes ++ payload)))
unfolding Coded.serialise
serialise-packet id ev ev_bytes payload cci tsi valid written whole =
    let pad : (4 - length ev_bytes % 4) % 4 ≡ 0 = omega arith in
    let admitted : ((length cci % 4 == 0) && leb (length cci) 12) ≡ true = ground arith in
    rw (admitted, written, pad) refl

-- For a vector that `vandermonde` or `explicit` makes of at least one and at most 255 IDs, ascending
-- by less than 2 ^ 16, with coefficients that fit the field, if any, and with the packet's coded ID,
-- and for a CCI of 0, 4, 8 or 12 bytes: `serialise` succeeds, and `parse` gives back all parts of
-- the packet, with a payload of any length.
pub parse_coded-serialise :
    (f : Field) (coded_id generation id : ℕ) (ids coefs payload cci : List ℕ) (tsi : Option ℕ)
    → IsCci cci
    → IsWord tsi
    → coded_id < 2 ^ 32
    → id < 2 ^ 32
    → SmallGaps id ids
    → length ids < 255
    → Counted (suc (length ids)) coefs
    → FitField f coefs
    → (bytes : List ℕ) × (n : ℕ) × (Coded.serialise coded_id
          (vector f coded_id generation (id ∷ ids) coefs)
          payload
          cci
          tsi
        ≡ ok bytes)
      × (Coded.parse bytes
          ≡ ok (record {
            header = coded_header cci tsi n;
            cci = cci;
            tsi = tsi;
            coded_symbol_id = coded_id;
            ev = vector f coded_id generation (id ∷ ids) coefs;
            payload = payload;
          }))
unfolding Coded.parse check_type
parse_coded-serialise f coded_id generation id ids coefs payload cci tsi valid tsi_word coded_word
      word gaps few counted fit =
    let ev = vector f coded_id generation (id ∷ ids) coefs in
    let (ev_bytes, written, read, whole, eight, short) =
      parse_vector-serialise f coded_id generation id ids coefs payload word gaps few counted fit in
    let n = u8 ((length ev_bytes + 3) / 4) in
    let h = coded_header cci tsi n in
    let (words, flagged, kind) = coded_header-fields cci tsi n valid in
    let rest = to_be_bytes coded_id ++ (ev_bytes ++ payload) in
    let long : 4 + n * 4 ≤ length rest = omega (arith, length-append ev_bytes payload) in
    (
      packet h cci tsi rest,
      n,
      serialise-packet coded_id ev ev_bytes payload cci tsi valid written whole,
      rw
          (
            parse-coded_header cci tsi n rest valid (omega arith) long,
            kind,
            cci_part h cci tsi words flagged rest,
            tsi_part h cci tsi words flagged rest tsi_word,
          )
          (parse_after_tsi-packet h coded_id ev_bytes payload cci tsi ev words flagged coded_word
            (omega arith) read),
    )
