-- ===== src/Wire/Common/Laws.antt =====
-- The header's fields survive packing, and parsing a header is total.
use delp.Prelude.{
  ℕ, ◌+◌, ◌*◌, ◌≤◌, ◌≡◌, refl, ap, ◌∙◌, Bool, true, false, List, [], ◌∷◌, ◌++◌, length, arith, ltb,
  ◌==◌, some, ◌↔◌, Bool-cases, inl, inr,
}
use mathlib.Core.Path.{subst, sym}
use mathlib.Core.Option.{some-injective}
use delp.Error.{ok, NoPanic}
use delp.Wire.Common.{
  CommonHeader, PacketType, source, coded, feedback, packet_type_from_u8, CciLength, cci_value, new,
  to_bytes, version, cci_words, has_tsi, hdr_len_bytes, packet_type, ref_from_bytes, check_header,
  parse,
}

module _ (t : PacketType) (w : ℕ) where
  flags_fields :
      (c : CciLength) (tsi : Bool)
      → (version (new t c tsi w) ≡ 1)
        × (cci_words (new t c tsi w) ≡ cci_value c)
        × (has_tsi (new t c tsi w) ≡ tsi)
  unfolding new version cci_words has_tsi
  flags_fields CciLength.zero true = (refl, refl, refl)
  flags_fields CciLength.zero false = (refl, refl, refl)
  flags_fields CciLength.one true = (refl, refl, refl)
  flags_fields CciLength.one false = (refl, refl, refl)
  flags_fields CciLength.two true = (refl, refl, refl)
  flags_fields CciLength.two false = (refl, refl, refl)
  flags_fields CciLength.three true = (refl, refl, refl)
  flags_fields CciLength.three false = (refl, refl, refl)

packet_type-new :
    (t : PacketType) (c : CciLength) (tsi : Bool) (w : ℕ) → packet_type (new t c tsi w) ≡ ok t
unfolding new packet_type packet_type_from_u8
packet_type-new source c tsi w = refl
packet_type-new coded c tsi w = refl
packet_type-new feedback c tsi w = refl

pub packet_type-NoPanic : (h : CommonHeader) → NoPanic (packet_type h)
unfolding packet_type packet_type_from_u8
packet_type-NoPanic h = elim (Bool-cases (h.pkt_type == 0)) [
  | inl a ↦ rw a tt
  | inr a ↦ elim (Bool-cases (h.pkt_type == 1)) [
    | inl b ↦ rw (a, b) tt
    | inr b ↦ elim (Bool-cases (h.pkt_type == 2)) [
      | inl c ↦ rw (a, b, c) tt
      | inr c ↦ rw (a, b, c) tt
    ]
  ]
]

-- A packed header reads back its version, CCI length, TSI flag and packet type.
pub new_fields :
    (t : PacketType) (c : CciLength) (tsi : Bool) (w : ℕ)
    → (version (new t c tsi w) ≡ 1)
      × (cci_words (new t c tsi w) ≡ cci_value c)
      × (has_tsi (new t c tsi w) ≡ tsi)
      × (packet_type (new t c tsi w) ≡ ok t)
new_fields t c tsi w =
    let (v, n, b) = flags_fields t w c tsi in (v, n, b, packet_type-new t c tsi w)

check_header-new :
    (t : PacketType) (c : CciLength) (tsi : Bool) (w : ℕ) (buf : List ℕ)
    → w * 4 ≤ length buf
    → check_header buf (new t c tsi w) ≡ ok (new t c tsi w)
unfolding check_header hdr_len_bytes
check_header-new t c tsi w buf h = rw ((flags_fields t w c tsi).0) (ground (arith, words))
  where
    words : (new t c tsi w).hdr_len_words ≡ w
    words = unfold new in refl

-- A header is parsed back from its bytes, whatever follows, if its length fits the buffer.
pub parse-new :
    (t : PacketType) (c : CciLength) (tsi : Bool) (w : ℕ) (rest : List ℕ)
    → w * 4 ≤ 4 + length rest
    → parse (to_bytes (new t c tsi w) ++ rest) ≡ ok (new t c tsi w)
unfolding parse to_bytes ref_from_bytes
parse-new t c tsi w rest h =
    ground (arith, check_header-new t c tsi w (to_bytes (new t c tsi w) ++ rest) (omega arith))

-- What a header that parses guarantees of its buffer.
pub record Fits (buf : List ℕ) (h : CommonHeader) : Type 0 where
  pub four : 4 ≤ length buf
  pub version_one : version h ≡ 1
  pub length_fits : hdr_len_bytes h ≤ length buf
  pub bytes : ref_from_bytes buf ≡ some h

check_header-NoPanic : (buf : List ℕ) (h : CommonHeader) → NoPanic (check_header buf h)
unfolding check_header
check_header-NoPanic buf h = elim (Bool-cases (version h == 1)) [
  | inl v ↦ elim (Bool-cases (ltb (length buf) (hdr_len_bytes h))) [
    | inl long ↦ rw (v, long) tt
    | inr fits ↦ rw (v, fits) tt
  ]
  | inr v ↦ rw v tt
]

check_header_iff :
    (buf : List ℕ) (h g : CommonHeader)
    → (check_header buf h ≡ ok g) ↔ ((version h ≡ 1) × (hdr_len_bytes h ≤ length buf) × (h ≡ g))
unfolding check_header
check_header_iff buf h g = (λ e. ground arith, λ e. ground arith)

parse-cons :
    (a b c d : ℕ) (rest : List ℕ)
    → parse (a ∷ b ∷ c ∷ d ∷ rest)
      ≡ check_header
          (a ∷ b ∷ c ∷ d ∷ rest)
          (record { flags = a; reserved = b; hdr_len_words = c; pkt_type = d })
unfolding parse ref_from_bytes
parse-cons a b c d rest = ground arith

pub parse-NoPanic : (buf : List ℕ) → NoPanic (parse buf)
unfolding parse
parse-NoPanic [] = tt
parse-NoPanic (a ∷ []) = tt
parse-NoPanic (a ∷ b ∷ []) = tt
parse-NoPanic (a ∷ b ∷ c ∷ []) = tt
parse-NoPanic (a ∷ b ∷ c ∷ d ∷ rest) =
    subst NoPanic (sym (parse-cons a b c d rest)) (check_header-NoPanic _ _)

pub parse-ok : (buf : List ℕ) (g : CommonHeader) → parse buf ≡ ok g → Fits buf g
unfolding parse ref_from_bytes
parse-ok [] g e = absurd (ground arith)
parse-ok (a ∷ []) g e = absurd (ground arith)
parse-ok (a ∷ b ∷ []) g e = absurd (ground arith)
parse-ok (a ∷ b ∷ c ∷ []) g e = absurd (ground arith)
parse-ok (a ∷ b ∷ c ∷ d ∷ rest) g e =
    let h : CommonHeader = record { flags = a; reserved = b; hdr_len_words = c; pkt_type = d } in
    let facts =
      (check_header_iff (a ∷ b ∷ c ∷ d ∷ rest) h g).0 (sym (parse-cons a b c d rest) ∙ e) in
    record {
      four = omega arith;
      version_one = ap version (sym facts.2) ∙ facts.0;
      length_fits = subst (λ k. hdr_len_bytes k ≤ length (a ∷ b ∷ c ∷ d ∷ rest)) facts.2 facts.1;
      bytes = ap some facts.2;
    }

parse_complete : (buf : List ℕ) (g : CommonHeader) → Fits buf g → parse buf ≡ ok g
unfolding ref_from_bytes
parse_complete [] g f = absurd (omega (arith, f.four))
parse_complete (a ∷ []) g f = absurd (omega (arith, f.four))
parse_complete (a ∷ b ∷ []) g f = absurd (omega (arith, f.four))
parse_complete (a ∷ b ∷ c ∷ []) g f = absurd (omega (arith, f.four))
parse_complete (a ∷ b ∷ c ∷ d ∷ rest) g f =
    let h : CommonHeader = record { flags = a; reserved = b; hdr_len_words = c; pkt_type = d } in
    let same : h ≡ g = some-injective h g f.bytes in
    parse-cons a b c d rest
    ∙ (check_header_iff (a ∷ b ∷ c ∷ d ∷ rest) h g).1 (
      ap version same ∙ f.version_one,
      subst (λ k. hdr_len_bytes k ≤ length (a ∷ b ∷ c ∷ d ∷ rest)) (sym same) f.length_fits,
      same,
    )

-- Parsing a header never panics; it succeeds exactly on a buffer of four bytes or more whose first
-- four bytes have version 1 and a length field that fits the buffer.
pub parse_iff :
    (buf : List ℕ) → NoPanic (parse buf) × ((h : CommonHeader) → (parse buf ≡ ok h) ↔ Fits buf h)
parse_iff buf = (parse-NoPanic buf, λ h. (parse-ok buf h, parse_complete buf h))
