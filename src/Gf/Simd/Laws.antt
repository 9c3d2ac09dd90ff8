-- ===== src/Gf/Simd/Laws.antt =====
-- The split-nibble kernels compute what the reference routines compute.
use delp.Prelude.{
  ℕ, zero, suc, ◌+◌, ◌*◌, ◌/◌, ◌%◌, ◌<◌, ◌≡◌, refl, sym, ap, ap₂, ◌∙◌, bit_and, bit_or, bit_xor,
  ◌==◌, if◌then◌else◌, List, [], ◌∷◌, get_or, length, u8, arith, IsBytes, xor_fields, or_fields,
  and_mask, xor_comm, xor-zero,
}
use delp.Error.{ok, panic}
use delp.Gf.Gf2_4
use delp.Gf.Gf2_8
use delp.Gf.Gf2_4.{gf2_4}
use delp.Gf.Gf2_8.{gf2_8}
use delp.Gf.Laws.{gf2_4-IsField, gf2_8-IsField}
use delp.Gf.Simd.{
  fill_table, for_gf2_8, for_gf2_4, nibble_entry, scalar_mul_acc, scalar_mul_scale, scalar,
  mul_acc_gf2_8, mul_scale_gf2_8, mul_acc_gf2_4, mul_acc_gf2_8_reference, mul_scale_gf2_8_reference,
  mul_acc_gf2_4_reference, broadcast,
}

fill_table-get_or :
    (entry : ℕ → ℕ) (rounds x i : ℕ)
    → i < rounds
    → get_or (fill_table entry rounds x) i 0 ≡ entry (x + i)
unfolding fill_table
fill_table-get_or entry zero x i h = absurd (omega arith)
fill_table-get_or entry (suc rounds) x zero h = ap entry (omega arith)
fill_table-get_or entry (suc rounds) x (suc i) h =
    fill_table-get_or entry rounds (x + 1) i (omega arith) ∙ ap entry (omega arith)

-- The two halves of a byte.
xor_halves : (s : ℕ) → bit_xor (s % 16) (s / 16 * 16) ≡ s
xor_halves s =
    xor_comm (s % 16) (s / 16 * 16) ∙ omega (arith, xor_fields 4 (s / 16) (s % 16) (omega arith))

pub nibble_entry-mul_8 :
    (coef s : ℕ)
    → coef < 256
    → s < 256
    → nibble_entry (for_gf2_8 coef) s ≡ Gf2_8.gf2_8_mul_raw s coef
unfolding nibble_entry for_gf2_8 Gf2_8.add
nibble_entry-mul_8 coef s p q =
    ap₂ bit_xor
      (ap (λ (t : ℕ). get_or (for_gf2_8 coef).lo t 0) (and_mask 4 s)
        ∙ fill_table-get_or (λ x. Gf2_8.gf2_8_mul_raw x coef) 16 0 (s % 16) (omega arith)
        ∙ ap (λ (t : ℕ). Gf2_8.gf2_8_mul_raw t coef) (omega arith))
      (fill_table-get_or (λ x. Gf2_8.gf2_8_mul_raw (u8 (x * 16)) coef) 16 0 (s / 16) (omega arith)
        ∙ ap (λ (t : ℕ). Gf2_8.gf2_8_mul_raw t coef) (omega arith))
    ∙ sym (gf2_8-IsField.add-mul (s % 16) (s / 16 * 16) coef (omega arith) (omega arith) p)
    ∙ ap (λ (t : ℕ). Gf2_8.gf2_8_mul_raw t coef) (xor_halves s)

scalar_mul_acc-reference :
    (coef : ℕ) (dst src : List ℕ)
    → coef < 256
    → IsBytes src
    → scalar_mul_acc dst src (for_gf2_8 coef) ≡ mul_acc_gf2_8_reference dst src coef
unfolding scalar_mul_acc mul_acc_gf2_8_reference
scalar_mul_acc-reference coef [] src p q = refl
scalar_mul_acc-reference coef (d ∷ dst) [] p q = refl
scalar_mul_acc-reference coef (d ∷ dst) (s ∷ src) p q =
    ap₂ ◌∷◌ (ap (bit_xor d) (nibble_entry-mul_8 coef s p q.0))
      (scalar_mul_acc-reference coef dst src p q.1)

-- A zero coefficient adds nothing.
reference-zero : (dst src : List ℕ) → IsBytes src → mul_acc_gf2_8_reference dst src 0 ≡ dst
unfolding mul_acc_gf2_8_reference Gf2_8.add
reference-zero [] src q = refl
reference-zero (d ∷ dst) [] q = refl
reference-zero (d ∷ dst) (s ∷ src) q =
    ap₂ ◌∷◌ (ap (bit_xor d) (mul-zero-8 s q.0) ∙ xor-zero d) (reference-zero dst src q.1)
  where
    mul-zero-8 : (s : ℕ) → s < 256 → Gf2_8.gf2_8_mul_raw s 0 ≡ 0
    mul-zero-8 s q = gf2_8-IsField.mul_comm s 0 q (omega arith) ∙ gf2_8-IsField.zero-mul s

-- On buffers of bytes of one length, `mul_acc_gf2_8` with the scalar kernel succeeds and adds
-- `coef` times the source to the destination, byte by byte in GF(2^8); on buffers of different
-- lengths it panics.
pub mul_acc_gf2_8-reference :
    (dst src : List ℕ) (coef : ℕ)
    → coef < 256
    → IsBytes src
    → mul_acc_gf2_8 scalar dst src coef
      ≡ (if length dst == length src then ok (mul_acc_gf2_8_reference dst src coef) else panic)
unfolding mul_acc_gf2_8
mul_acc_gf2_8-reference dst src coef p q =
    ground (arith, reference-zero dst src q, scalar_mul_acc-reference coef dst src p q)

-- `mul_scale_gf2_8` with the scalar kernel multiplies every byte of the buffer by `coef`, also on
-- its shortcuts for 0 and 1.
pub mul_scale_gf2_8-reference :
    (buf : List ℕ) (coef : ℕ)
    → coef < 256
    → IsBytes buf
    → mul_scale_gf2_8 scalar buf coef ≡ mul_scale_gf2_8_reference buf coef
unfolding mul_scale_gf2_8 mul_scale_gf2_8_reference scalar_mul_scale
mul_scale_gf2_8-reference [] coef p q = ground arith
mul_scale_gf2_8-reference (b ∷ buf) coef p q = ground (
  arith,
  mul_scale_gf2_8-reference buf coef p q.1,
  gf2_8-IsField.mul_comm b 0 q.0,
  gf2_8-IsField.mul_comm b 1 q.0,
  gf2_8-IsField.zero-mul b,
  gf2_8-IsField.one-mul b q.0,
  nibble_entry-mul_8 coef b p q.0,
)

broadcast_fields : (c : ℕ) → c < 16 → broadcast c ≡ c * 16 + c
unfolding broadcast
broadcast_fields c h = ap (λ (t : ℕ). bit_or t c) (omega arith) ∙ or_fields 4 c c h

-- A byte holds two elements of GF(2^4), and the entry multiplies both by `c`.
pub nibble_entry-mul_4 :
    (c s : ℕ)
    → c < 16
    → s < 256
    → nibble_entry (for_gf2_4 (broadcast c)) s
      ≡ bit_or
          (u8 (Gf2_4.gf2_4_mul_raw (bit_and (s / 16) 0x0f) c * 16))
          (Gf2_4.gf2_4_mul_raw (bit_and s 0x0f) c)
unfolding nibble_entry for_gf2_4
nibble_entry-mul_4 c s p q =
    let low : bit_and (broadcast c) 0x0f ≡ c =
      and_mask 4 (broadcast c) ∙ omega (arith, broadcast_fields c p) in
    let high : broadcast c / 16 ≡ c = omega (arith, broadcast_fields c p) in
    let lo_lt : Gf2_4.gf2_4_mul_raw (s % 16) c < 16 =
      gf2_4-IsField.mul-lt (s % 16) c (omega arith) p in
    let hi_lt : Gf2_4.gf2_4_mul_raw (s / 16) c < 16 =
      gf2_4-IsField.mul-lt (s / 16) c (omega arith) p in
    let hi = Gf2_4.gf2_4_mul_raw (s / 16) c in
    let lo = Gf2_4.gf2_4_mul_raw (s % 16) c in
    let half : bit_and (s / 16) 0x0f ≡ s / 16 = and_mask 4 (s / 16) ∙ omega arith in
    ap₂ bit_xor
      (ap (λ (t : ℕ). get_or (for_gf2_4 (broadcast c)).lo t 0) (and_mask 4 s)
        ∙ fill_table-get_or (λ x. Gf2_4.gf2_4_mul_raw x (bit_and (broadcast c) 0x0f)) 16 0 (s % 16)
            (omega arith)
        ∙ ap₂ Gf2_4.gf2_4_mul_raw (omega arith) low)
      (fill_table-get_or (λ x. u8 (Gf2_4.gf2_4_mul_raw x (broadcast c / 16) * 16)) 16 0 (s / 16)
          (omega arith)
        ∙ ap (λ (t : ℕ). u8 (t * 16)) (ap₂ Gf2_4.gf2_4_mul_raw (omega arith) high))
    ∙ xor_comm lo (u8 (hi * 16))
    ∙ ap (λ (t : ℕ). bit_xor t lo) (omega arith)
    ∙ xor_fields 4 hi lo lo_lt
    ∙ sym (or_fields 4 hi lo lo_lt)
    ∙ ap₂ bit_or (omega arith) (ap (λ (t : ℕ). Gf2_4.gf2_4_mul_raw t c) (sym (and_mask 4 s)))
    ∙ ap
        (λ (t : ℕ).
          bit_or (u8 (Gf2_4.gf2_4_mul_raw t c * 16)) (Gf2_4.gf2_4_mul_raw (bit_and s 0x0f) c))
        (sym half)

scalar_mul_acc-reference_4 :
    (coef : ℕ) (dst src : List ℕ)
    → IsBytes src
    → scalar_mul_acc dst src (for_gf2_4 (broadcast (bit_and coef 0x0f)))
      ≡ mul_acc_gf2_4_reference dst src coef
unfolding scalar_mul_acc mul_acc_gf2_4_reference
scalar_mul_acc-reference_4 coef [] src q = refl
scalar_mul_acc-reference_4 coef (d ∷ dst) [] q = refl
scalar_mul_acc-reference_4 coef (d ∷ dst) (s ∷ src) q =
    ap₂ ◌∷◌
      (ap (bit_xor d)
        (nibble_entry-mul_4 (bit_and coef 0x0f) s (omega (arith, and_mask 4 coef)) q.0))
      (scalar_mul_acc-reference_4 coef dst src q.1)

mul-zero-4 : (x : ℕ) → Gf2_4.gf2_4_mul_raw x 0 ≡ 0
unfolding Gf2_4.gf2_4_mul_raw
mul-zero-4 x = ground arith

reference_4-zero :
    (coef : ℕ) (dst src : List ℕ)
    → bit_and coef 0x0f ≡ 0
    → mul_acc_gf2_4_reference dst src coef ≡ dst
unfolding mul_acc_gf2_4_reference
reference_4-zero coef [] src e = refl
reference_4-zero coef (d ∷ dst) [] e = refl
reference_4-zero coef (d ∷ dst) (s ∷ src) e =
    ap₂ ◌∷◌
      (rw e (rw (mul-zero-4 (bit_and (s / 16) 0x0f), mul-zero-4 (bit_and s 0x0f)) (xor-zero d)))
      (reference_4-zero coef dst src e)

-- `mul_acc_gf2_4` with the scalar kernel adds `coef & 0x0F` times both nibbles of every source
-- byte to the destination, for every `coef`; on buffers of different lengths it panics.
pub mul_acc_gf2_4-reference :
    (dst src : List ℕ) (coef : ℕ)
    → IsBytes src
    → mul_acc_gf2_4 scalar dst src coef
      ≡ (if length dst == length src then ok (mul_acc_gf2_4_reference dst src coef) else panic)
unfolding mul_acc_gf2_4
mul_acc_gf2_4-reference dst src coef q =
    ground (arith, reference_4-zero coef dst src, scalar_mul_acc-reference_4 coef dst src q)
