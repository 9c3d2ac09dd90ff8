-- ===== src/Wire/Ev/Header.antt =====
-- The fields of an encoding vector's flags byte, the padding of its parts, and its coefficients.
use delp.Prelude.{
  ℕ, zero, ◌+◌, ◌-◌, ◌*◌, ◌/◌, ◌%◌, ◌≤◌, ◌<◌, ◌≡◌, refl, ap, ap₂, ◌∙◌, bit_and, bit_or, Bool, true,
  false, List, [], ◌∷◌, length, replicate, u8, arith, and_mask, or_fields, length-append,
  length-replicate,
}
use delp.Error.{ok}
use delp.Config.{Field}
use delp.Wire.Ev.{
  EncodingVector, has_explicit_coefs, has_generation, flags_byte, ccgi_bit, bit, pad32, padded,
  field_of, coef_bits, coef_bytes_needed, coefs_of,
}
use delp.Wire.Ev.IdStorage.{IdStorageFormat, wire_value, from_wire}
use delp.Wire.Ev.Nibbles.{pack_nibbles, push_nibbles, unpack_nibbles}

-- Fields that do not overlap are added.
flags_value :
    (a b c d : ℕ)
    → a < 2
    → b < 4
    → c < 2
    → d < 2
    → bit_or (bit_or (bit_or (u8 (a * 16)) (u8 (b * 4))) (u8 (c * 2))) d
      ≡ a * 16 + b * 4 + c * 2 + d
flags_value a b c d p q r s =
    let high : bit_or (a * 16) (b * 4) ≡ (a * 4 + b) * 4 =
      or_fields 4 a (b * 4) (omega arith) ∙ omega arith in
    let middle : bit_or ((a * 4 + b) * 4) (c * 2) ≡ (a * 8 + b * 2 + c) * 2 =
      or_fields 2 (a * 4 + b) (c * 2) (omega arith) ∙ omega arith in
    let a_fits : u8 (a * 16) ≡ a * 16 = omega arith in
    let b_fits : u8 (b * 4) ≡ b * 4 = omega arith in
    let c_fits : u8 (c * 2) ≡ c * 2 = omega arith in
    rw (a_fits, b_fits, c_fits, high, middle) (or_fields 1 (a * 8 + b * 2 + c) d s ∙ omega arith)

bit-lt : (b : Bool) → bit b < 2
bit-lt true = omega arith
bit-lt false = omega arith

ccgi_bit-lt : (f : Field) → ccgi_bit f < 2
ccgi_bit-lt Field.gf2_4 = omega arith
ccgi_bit-lt Field.gf2_8 = omega arith

wire_value-lt : (i : IdStorageFormat) → wire_value i < 4
unfolding wire_value
wire_value-lt IdStorageFormat.implicit = omega arith
wire_value-lt IdStorageFormat.uncompressed_edges = omega arith
wire_value-lt IdStorageFormat.compressed_list = omega arith
wire_value-lt IdStorageFormat.compressed_edges = omega arith

field_of-ccgi_bit : (f : Field) → field_of (ccgi_bit f) ≡ ok f
unfolding field_of
field_of-ccgi_bit Field.gf2_4 = refl
field_of-ccgi_bit Field.gf2_8 = refl

from_wire-wire_value : (i : IdStorageFormat) → from_wire (wire_value i) ≡ ok i
unfolding wire_value from_wire
from_wire-wire_value IdStorageFormat.implicit = refl
from_wire-wire_value IdStorageFormat.uncompressed_edges = refl
from_wire-wire_value IdStorageFormat.compressed_list = refl
from_wire-wire_value IdStorageFormat.compressed_edges = refl

-- The parser's reads of the flags byte.
pub flags_byte-fields :
    (ev : EncodingVector)
    → (field_of (bit_and (flags_byte ev / 16) 0xf) ≡ ok ev.field)
      × (from_wire (bit_and (flags_byte ev / 4) 0x3) ≡ ok ev.id_format)
      × (bit_and (flags_byte ev / 2) 0x1 ≡ bit (has_explicit_coefs ev))
      × (bit_and (flags_byte ev) 0x1 ≡ bit (has_generation ev))
unfolding flags_byte
flags_byte-fields ev =
    let a = ccgi_bit ev.field in
    let b = wire_value ev.id_format in
    let c = bit (has_explicit_coefs ev) in
    let d = bit (has_generation ev) in
    let p = ccgi_bit-lt ev.field in
    let q = wire_value-lt ev.id_format in
    let r = bit-lt (has_explicit_coefs ev) in
    let s = bit-lt (has_generation ev) in
    let value = flags_value a b c d p q r s in
    let first : bit_and (flags_byte ev / 16) 0xf ≡ a =
      and_mask 4 (flags_byte ev / 16) ∙ omega arith in
    let second : bit_and (flags_byte ev / 4) 0x3 ≡ b =
      and_mask 2 (flags_byte ev / 4) ∙ omega arith in
    (
      ap field_of first ∙ field_of-ccgi_bit ev.field,
      ap from_wire second ∙ from_wire-wire_value ev.id_format,
      and_mask 1 (flags_byte ev / 2) ∙ omega arith,
      and_mask 1 (flags_byte ev) ∙ omega arith,
    )

pub pad32_bounds : (n : ℕ) → (n ≤ pad32 n) × (pad32 n ≤ n + 3) × (pad32 n % 4 ≡ 0)
unfolding pad32
pad32_bounds n = (omega arith, omega arith, omega arith)

pub length-padded : (bs : List ℕ) → length (padded bs) ≡ pad32 (length bs)
unfolding padded
length-padded bs = omega (
  arith,
  length-append bs (replicate (pad32 (length bs) - length bs) 0),
  length-replicate (pad32 (length bs) - length bs) zero,
  (pad32_bounds (length bs)).0,
)

-- Coefficients that fit their field.
abbrev pub FitField : Field → List ℕ → Type 0
FitField f [] = Unit
FitField Field.gf2_8 (c ∷ coefs) = (c < 256) × FitField Field.gf2_8 coefs
FitField Field.gf2_4 (c ∷ coefs) = (c < 16) × FitField Field.gf2_4 coefs

length-pack_nibbles : (coefs : List ℕ) → length (pack_nibbles coefs) ≡ (length coefs + 1) / 2
unfolding pack_nibbles
length-pack_nibbles [] = omega arith
length-pack_nibbles (a ∷ []) = omega arith
length-pack_nibbles (a ∷ b ∷ coefs) = omega (arith, length-pack_nibbles coefs)

packed_nibbles :
    (a b : ℕ)
    → a < 16
    → b < 16
    → (bit_and (bit_or (u8 (bit_and a 0x0f * 16)) (bit_and b 0x0f) / 16) 0x0f ≡ a)
      × (bit_and (bit_or (u8 (bit_and a 0x0f * 16)) (bit_and b 0x0f)) 0x0f ≡ b)
packed_nibbles a b p q =
    let high : bit_and a 0x0f ≡ a = and_mask 4 a ∙ omega arith in
    let low : bit_and b 0x0f ≡ b = and_mask 4 b ∙ omega arith in
    let fits : u8 (a * 16) ≡ a * 16 = omega arith in
    let joined : bit_or (u8 (bit_and a 0x0f * 16)) (bit_and b 0x0f) ≡ a * 16 + b =
      rw (high, low, fits) (or_fields 4 a b q) in
    rw joined (and_mask 4 ((a * 16 + b) / 16) ∙ omega arith, and_mask 4 (a * 16 + b) ∙ omega arith)

unpack_nibbles-pack_nibbles :
    (coefs : List ℕ)
    → FitField Field.gf2_4 coefs
    → unpack_nibbles (pack_nibbles coefs) (length coefs) ≡ coefs
unfolding unpack_nibbles pack_nibbles push_nibbles
unpack_nibbles-pack_nibbles [] h = refl
unpack_nibbles-pack_nibbles (a ∷ []) (p, h) =
    ap (λ (x : ℕ). x ∷ []) (packed_nibbles a 0 p (omega arith)).0
unpack_nibbles-pack_nibbles (a ∷ b ∷ coefs) (p, (q, h)) =
    let (high, low) = packed_nibbles a b p q in
    ap₂ ◌∷◌ high (ap₂ ◌∷◌ low (unpack_nibbles-pack_nibbles coefs h))

pub length-coef_bits :
    (f : Field) (coefs : List ℕ) → length (coef_bits f coefs) ≡ coef_bytes_needed f (length coefs)
unfolding coef_bits
length-coef_bits Field.gf2_8 coefs = refl
length-coef_bits Field.gf2_4 coefs = length-pack_nibbles coefs

pub coefs_of-coef_bits :
    (f : Field) (coefs : List ℕ)
    → FitField f coefs
    → coefs_of f (coef_bits f coefs) (length coefs) ≡ coefs
unfolding coef_bits
coefs_of-coef_bits Field.gf2_8 coefs h = refl
coefs_of-coef_bits Field.gf2_4 coefs h = unpack_nibbles-pack_nibbles coefs h
