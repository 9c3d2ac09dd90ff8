-- ===== src/Tests/Gf.antt =====
-- The field arithmetic at concrete elements and buffers.
use delp.Prelude.{
  ℕ, ◌↔◌, ◌⊎◌, ◌+◌, ◌*◌, ◌%◌, ◌<◌, ◌≡◌, bit_xor, ◌==◌, ◌||◌, not, if◌then◌else◌, arith, List, [],
  ◌∷◌, length,
}
use delp.Error.{ok, panic}
use delp.Gf.Tables.{step_gf2_8}
use delp.Gf.Gf2_8
use delp.Gf.Gf2_8.{gf2_8}
use delp.Gf.Peasant.{peasant, gf2_8_mul-peasant}
use delp.Gf.Simd.{
  scalar, mul_acc_gf2_8, mul_scale_gf2_8, mul_acc_gf2_4, mul_acc_gf2_8_reference,
  mul_scale_gf2_8_reference, mul_acc_gf2_4_reference,
}
use delp.Gf.Simd.Laws.{mul_acc_gf2_8-reference, mul_scale_gf2_8-reference, mul_acc_gf2_4-reference}
use delp.Wire.Ev.CoefGen.{cauchy_coef_gf2_8, cauchy_batch_gf2_8, verify_cauchy_2x2_nonsingular}
use delp.Wire.Ev.CoefGen.Cauchy.{
  cauchy_coef_gf2_8-inverse, cauchy_batch_gf2_8-determinant, verify_cauchy_2x2_nonsingular_lem,
}

gf2_8_mul-peasant_example : Gf2_8.gf2_8_mul_raw 0x57 0x83 ≡ peasant step_gf2_8 8 0x57 0x83
gf2_8_mul-peasant_example = gf2_8_mul-peasant 0x57 0x83 (omega arith) (omega arith)

abbrev src : List ℕ
src = 0x12 ∷ 0xFF ∷ 0x00 ∷ []

abbrev dst : List ℕ
dst = 0xA0 ∷ 0x0B ∷ 0x33 ∷ []

mul_acc_gf2_8-reference_example :
    mul_acc_gf2_8 scalar dst src 0x1D
    ≡ (if length dst == length src then ok (mul_acc_gf2_8_reference dst src 0x1D) else panic)
mul_acc_gf2_8-reference_example =
    mul_acc_gf2_8-reference dst src 0x1D (omega arith)
      (omega arith, (omega arith, (omega arith, tt)))

mul_scale_gf2_8-reference_example :
    mul_scale_gf2_8 scalar src 0x1D ≡ mul_scale_gf2_8_reference src 0x1D
mul_scale_gf2_8-reference_example =
    mul_scale_gf2_8-reference src 0x1D (omega arith) (omega arith, (omega arith, (omega arith, tt)))

mul_acc_gf2_4-reference_example :
    mul_acc_gf2_4 scalar dst src 0x29
    ≡ (if length dst == length src then ok (mul_acc_gf2_4_reference dst src 0x29) else panic)
mul_acc_gf2_4-reference_example =
    mul_acc_gf2_4-reference dst src 0x29 (omega arith, (omega arith, (omega arith, tt)))

cauchy_coef_gf2_8-inverse_example :
    (a : ℕ) × (cauchy_coef_gf2_8 130 5 1 ≡ ok a)
    × (a < 256)
    × (gf2_8.mul (bit_xor (130 % 128) (128 + (5 + 1 * 7) % 128)) a ≡ 1)
cauchy_coef_gf2_8-inverse_example = cauchy_coef_gf2_8-inverse 130 5 1 (omega arith)

-- Coded ID 12 in generation 0 has the row of coded ID 5 in generation 1.
cauchy_batch_gf2_8-determinant_example :
    (a00 a01 a10 a11 : ℕ) × (cauchy_batch_gf2_8 (3 ∷ 4 ∷ []) 12 0 ≡ ok (a00 ∷ a10 ∷ []))
    × (cauchy_batch_gf2_8 (3 ∷ 4 ∷ []) 5 1 ≡ ok (a01 ∷ a11 ∷ []))
    × ((gf2_8.add (gf2_8.mul a00 a11) (gf2_8.mul a01 a10) ≡ 0)
        ↔ ((3 % 128 ≡ 4 % 128) ⊎ ((12 + 0 * 7) % 128 ≡ (5 + 1 * 7) % 128)))
cauchy_batch_gf2_8-determinant_example =
    cauchy_batch_gf2_8-determinant 3 4 12 5 0 1 (omega arith) (omega arith)

verify_cauchy_2x2_nonsingular_lem_example :
    verify_cauchy_2x2_nonsingular 0 1 2 3 ≡ ok (not (0 % 128 == 1 % 128 || 2 == 3))
verify_cauchy_2x2_nonsingular_lem_example =
    verify_cauchy_2x2_nonsingular_lem 0 1 2 3 (omega arith) (omega arith)
