-- ===== src/Wire/Feedback/Total.antt =====
-- Parsing a feedback packet never reads out of range.
use delp.Prelude.{
  ℕ, ◌+◌, ◌≤◌, ◌≡◌, refl, Bool, true, false, Option, none, some, List, length, arith, ltb,
  Bool-cases, inl, inr, le→not-ltb,
}
use delp.Error.{ok, NoPanic, >>=-NoPanic}
use delp.Wire.Common
use delp.Wire.Common.{CommonHeader}
use delp.Wire.Common.Laws
use delp.Wire.Slice.{slice_total, byte_total, u32_total}
use delp.Wire.Layout.{cci-le-body_offset}
use delp.Wire.Feedback.{FeedbackPacket, read_tsi_at, parse_body}
use delp.Wire.Feedback

read_tsi_at_total :
    (buf : List ℕ) (b : Bool) → 8 ≤ length buf → (tsi : Option ℕ) × (read_tsi_at buf b ≡ ok tsi)
unfolding read_tsi_at
read_tsi_at_total buf true h = let (v, e) = u32_total buf 4 h in (some v, rw e refl)
read_tsi_at_total buf false h = (none, refl)

-- Past the first length check, everything up to the bit vector is in range.
parse_body-total :
    (buf : List ℕ) (h : CommonHeader)
    → Common.body_offset h + 16 ≤ length buf
    → NoPanic (parse_body buf h)
unfolding parse_body
parse_body-total buf h fits =
    let off = Common.body_offset h in
    let (tsi, t) = read_tsi_at_total buf (Common.has_tsi h) (omega (arith, cci-le-body_offset h)) in
    let (a, ea) = u32_total buf off (omega arith) in
    let (b, eb) = u32_total buf (off + 4) (omega arith) in
    let (c, ec) = u32_total buf (off + 8) (omega arith) in
    let (plr, ep) = byte_total buf (off + 12) (omega arith) in
    let (size, es) = byte_total buf (off + 13) (omega arith) in
    rw (le→not-ltb _ _ fits, t, ea, eb, ec, ep, es)
      (elim (Bool-cases (ltb (length buf) (off + 16 + size))) [
        | inl short ↦ rw short tt
        | inr long ↦
            let room : off + 16 + size ≤ length buf = ground arith in
            rw (long, slice_total buf (off + 16) (off + 16 + size) (omega arith) room) tt
      ])

parse_body-NoPanic : (buf : List ℕ) (h : CommonHeader) → NoPanic (parse_body buf h)
parse_body-NoPanic buf h = elim (Bool-cases (ltb (length buf) (Common.body_offset h + 16))) [
  | inl short ↦ unfold parse_body in rw short tt
  | inr long ↦ parse_body-total buf h (ground arith)
]

-- On any buffer, `FeedbackPacket::parse` returns a packet or an error and never reads out of range.
pub parse_feedback-NoPanic : (buf : List ℕ) → NoPanic (Feedback.parse buf)
unfolding Feedback.parse
parse_feedback-NoPanic buf =
    >>=-NoPanic (Common.parse buf) _ (Laws.parse-NoPanic buf) λ h _. parse_body-NoPanic buf h
