-- ===== src/Wire/Source/Total.antt =====
-- Parsing a source packet never reads out of range.
use delp.Prelude.{ℕ, ◌+◌, ◌*◌, ◌≤◌, List, length, arith, ltb, Bool-cases, inl, inr, le→not-ltb}
use delp.Error.{NoPanic, >>=-NoPanic}
use delp.Wire.Common
use delp.Wire.Common.{CommonHeader, PacketType}
use delp.Wire.Common.Laws.{parse-ok, packet_type-NoPanic}
use delp.Wire.Common.Laws
use delp.Wire.Slice.{slice_total, slice_from_total, byte_total, u32_total}
use delp.Wire.Layout.{read_tsi_total, cci-le-body_offset}
use delp.Wire.Source.{SourcePacket, check_type, parse_body}
use delp.Wire.Source

-- Past the length check, every read of the body is in range.
parse_body-total :
    (buf : List ℕ) (h : CommonHeader)
    → Common.body_offset h + 4 ≤ length buf
    → NoPanic (parse_body buf h)
unfolding parse_body
parse_body-total buf h fits =
    let cci =
      slice_total buf 4 (4 + Common.cci_words h * 4) (omega arith)
        (omega (arith, cci-le-body_offset h)) in
    let (tsi, e) = read_tsi_total buf h (omega arith) in
    let (id, i) = u32_total buf (Common.body_offset h) fits in
    let rest = slice_from_total buf (Common.body_offset h + 4) fits in
    rw (le→not-ltb _ _ fits, cci, e, i, rest) tt

parse_body-NoPanic : (buf : List ℕ) (h : CommonHeader) → NoPanic (parse_body buf h)
parse_body-NoPanic buf h = elim (Bool-cases (ltb (length buf) (Common.body_offset h + 4))) [
  | inl short ↦ unfold parse_body in rw short tt
  | inr long ↦ parse_body-total buf h (ground arith)
]

check_type-NoPanic : (buf : List ℕ) (t : PacketType) → 4 ≤ length buf → NoPanic (check_type buf t)
unfolding check_type
check_type-NoPanic buf PacketType.source h = tt
check_type-NoPanic buf PacketType.coded h = let (v, e) = byte_total buf 3 h in rw e tt
check_type-NoPanic buf PacketType.feedback h = let (v, e) = byte_total buf 3 h in rw e tt

-- On any buffer, `SourcePacket::parse` returns a packet or an error and never reads out of range.
pub parse_source-NoPanic : (buf : List ℕ) → NoPanic (Source.parse buf)
unfolding Source.parse
parse_source-NoPanic buf = >>=-NoPanic (Common.parse buf) _ (Laws.parse-NoPanic buf) λ h e.
    >>=-NoPanic (Common.packet_type h) _ (packet_type-NoPanic h) λ t _.
      >>=-NoPanic (check_type buf t) _ (check_type-NoPanic buf t (parse-ok buf h e).four)
        λ _ _. parse_body-NoPanic buf h
