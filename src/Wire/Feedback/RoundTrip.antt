-- ===== src/Wire/Feedback/RoundTrip.antt =====
-- A feedback packet is parsed back from its bytes.
use mathlib.Core.List.{append_assoc}
use delp.Prelude.{
  ℕ, zero, suc, ◌+◌, ◌-◌, ◌*◌, ◌≤◌, ◌<◌, ◌^◌, ◌≡◌, refl, sym, ap, ◌∙◌, Option, none, some, List, [],
  ◌∷◌, ◌++◌, get_elem?, length, drop, replicate, arith, length-append, to_be_bytes,
  from_be_bytes-to_be_bytes, u8, le→not-ltb,
}
use delp.Error.{expect, ok}
use delp.Wire.Common
use delp.Wire.Common.{CommonHeader, PacketType, CciLength}
use delp.Wire.Common.Laws.{new_fields, parse-new}
use delp.Wire.Slice.{slice, byte_at, read_u32, slice_part, u32_part, leading_u32}
use delp.Wire.Layout.{IsWord, is_some, tsi_bytes, prefix, packet-prefix, body_offset-prefix}
use delp.Wire.Feedback.{
  FeedbackPacket, pad32, feedback_header, feedback_body, read_tsi_at, parse_body, parse, serialise,
}

-- A read behind a prefix is a read of what follows it.
module _ {ℓ} {A : Type ℓ} where
  drop_behind : (xs ys : List A) (k n : ℕ) → n ≡ length xs + k → drop n (xs ++ ys) ≡ drop k ys
  drop_behind [] ys k n e = let same : n ≡ k = omega arith in ap (λ i. drop i ys) same
  drop_behind (x ∷ xs) ys k zero e = absurd (omega arith)
  drop_behind (x ∷ xs) ys k (suc n) e = drop_behind xs ys k n (omega arith)

  get_elem?_behind :
      (xs ys : List A) (k n : ℕ) → n ≡ length xs + k → get_elem? (xs ++ ys) n ≡ get_elem? ys k
  get_elem?_behind [] ys k n e = let same : n ≡ k = omega arith in ap (get_elem? ys) same
  get_elem?_behind (x ∷ xs) ys k zero e = absurd (omega arith)
  get_elem?_behind (x ∷ xs) ys k (suc n) e = get_elem?_behind xs ys k n (omega arith)

u32_behind : (xs ys : List ℕ) (k n : ℕ) → n ≡ length xs + k → read_u32 (xs ++ ys) n ≡ read_u32 ys k
unfolding read_u32
u32_behind xs ys k n e = ap leading_u32 (drop_behind xs ys k n e)

byte_behind : (xs ys : List ℕ) (k n : ℕ) → n ≡ length xs + k → byte_at (xs ++ ys) n ≡ byte_at ys k
unfolding byte_at
byte_behind xs ys k n e = ap expect (get_elem?_behind xs ys k n e)

-- What a packet must hold for its fields to fit in the wire format.
pub record Fits (p : FeedbackPacket) : Type 0 where
  pub tsi_word : IsWord p.tsi
  pub missing_word : p.nb_missing_src < 2 ^ 32
  pub unused_word : p.nb_not_used_coded < 2 ^ 32
  pub first_word : p.first_src_id < 2 ^ 32
  pub sack_byte : length p.sack < 256

-- The body up to the bit vector, and the padding behind it.
abbrev body_head : FeedbackPacket → List ℕ
body_head p =
    to_be_bytes p.nb_missing_src
    ++ (to_be_bytes p.nb_not_used_coded
        ++ (to_be_bytes p.first_src_id ++ p.plr_raw ∷ u8 (length p.sack) ∷ 0 ∷ 0 ∷ []))

abbrev padding : FeedbackPacket → List ℕ
padding p = replicate (pad32 (length p.sack) - length p.sack) 0

body-head : (p : FeedbackPacket) → feedback_body p ≡ body_head p ++ (p.sack ++ padding p)
unfolding feedback_body
body-head p = refl

read_tsi_at_part :
    (h : CommonHeader) (t : Option ℕ) (rest : List ℕ)
    → IsWord t
    → read_tsi_at (Common.to_bytes h ++ (tsi_bytes t ++ rest)) (is_some t) ≡ ok t
unfolding read_tsi_at Common.to_bytes
read_tsi_at_part h none rest small = refl
read_tsi_at_part h (some t) rest small =
    rw (u32_part (Common.to_bytes h) t rest Common.header_size small refl) refl

header_fits :
    (t : Option ℕ) (rest : List ℕ)
    → 16 ≤ length rest
    → Common.parse (Common.to_bytes (feedback_header t) ++ (tsi_bytes t ++ rest))
      ≡ ok (feedback_header t)
unfolding feedback_header
header_fits t rest long =
    parse-new PacketType.feedback CciLength.zero (is_some t)
      (u8 (u8 (1 + Common.flag (is_some t)) + 2) + 1) (tsi_bytes t ++ rest) (fits t)
  where
    fits :
        (t : Option ℕ)
        → (u8 (u8 (1 + Common.flag (is_some t)) + 2) + 1) * 4 ≤ 4 + length (tsi_bytes t ++ rest)
    fits none = omega arith
    fits (some t) = omega arith

body_long : (p : FeedbackPacket) → 16 ≤ length (feedback_body p)
unfolding feedback_body
body_long p = omega arith

module _ (p : FeedbackPacket) (valid : Fits p) where
  abbrev header : CommonHeader
  header = feedback_header p.tsi

  abbrev start : List ℕ
  start = prefix header [] p.tsi

  fields : (Common.cci_words header * 4 ≡ 0) × (Common.has_tsi header ≡ is_some p.tsi)
  unfolding feedback_header
  fields =
      let (v, words, tsi, t) =
        new_fields PacketType.feedback CciLength.zero (is_some p.tsi)
          (u8 (u8 (1 + Common.flag (is_some p.tsi)) + 2) + 1) in
      (omega (arith, words), tsi)

  off : Common.body_offset header ≡ length start
  off = body_offset-prefix header [] p.tsi fields.0 fields.1

  bytes : serialise p ≡ start ++ feedback_body p
  unfolding serialise
  bytes = packet-prefix header [] p.tsi (feedback_body p)

  sack_part :
      slice
        (start ++ feedback_body p)
        (Common.body_offset header + 16)
        (Common.body_offset header + 16 + length p.sack)
      ≡ ok p.sack
  sack_part =
      rw (body-head p, sym (append_assoc start (body_head p) (p.sack ++ padding p)))
        (slice_part (start ++ body_head p) p.sack (padding p) _ _
          (omega (arith, off, length-append start (body_head p))) refl)

  body_fields :
      (read_u32 (start ++ feedback_body p) (Common.body_offset header) ≡ ok p.nb_missing_src)
      × (read_u32 (start ++ feedback_body p) (Common.body_offset header + 4)
          ≡ ok p.nb_not_used_coded)
      × (read_u32 (start ++ feedback_body p) (Common.body_offset header + 8) ≡ ok p.first_src_id)
      × (byte_at (start ++ feedback_body p) (Common.body_offset header + 12) ≡ ok p.plr_raw)
      × (byte_at (start ++ feedback_body p) (Common.body_offset header + 13) ≡ ok (length p.sack))
  unfolding read_u32 byte_at feedback_body
  body_fields =
      let body = feedback_body p in
      (
        u32_behind start body 0 _ (omega (arith, off))
            ∙ ap ok (from_be_bytes-to_be_bytes _ valid.missing_word),
        u32_behind start body 4 _ (omega (arith, off))
            ∙ ap ok (from_be_bytes-to_be_bytes _ valid.unused_word),
        u32_behind start body 8 _ (omega (arith, off))
            ∙ ap ok (from_be_bytes-to_be_bytes _ valid.first_word),
        byte_behind start body 12 _ (omega (arith, off)),
        byte_behind start body 13 _ (omega (arith, off)) ∙ ap ok (omega (arith, valid.sack_byte)),
      )

  tsi_part : read_tsi_at (serialise p) (Common.has_tsi header) ≡ ok p.tsi
  unfolding serialise
  tsi_part = rw fields.1 (read_tsi_at_part header p.tsi (feedback_body p) valid.tsi_word)

  room : Common.body_offset header + 16 + length p.sack ≤ length (start ++ feedback_body p)
  room = rw (body-head p) (
      omega (
        arith,
        off,
        length-append start (body_head p ++ (p.sack ++ padding p)),
        length-append p.sack (padding p),
      ))

  parse_body-serialise : parse_body (start ++ feedback_body p) header ≡ ok p
  unfolding parse_body
  parse_body-serialise =
      let (a, b, c, d, e) = body_fields in
      rw
        (
          le→not-ltb (length (start ++ feedback_body p)) (Common.body_offset header + 16)
              (omega (arith, room)),
          ap (λ x. read_tsi_at x (Common.has_tsi header)) (sym bytes) ∙ tsi_part,
          a,
          b,
          c,
          d,
          e,
          le→not-ltb _ _ room,
          sack_part,
        )
        refl

-- A feedback packet with 32-bit fields and a bit vector of at most 255 bytes is parsed back from
-- its bytes.
pub parse_feedback-serialise : (p : FeedbackPacket) → Fits p → parse (serialise p) ≡ ok p
unfolding parse serialise
parse_feedback-serialise p valid = rw (header_fits p.tsi (feedback_body p) (body_long p)) (
    ap (λ buf. parse_body buf (feedback_header p.tsi)) (bytes p valid)
    ∙ parse_body-serialise p valid)
