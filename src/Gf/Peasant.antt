-- ===== src/Gf/Peasant.antt =====
-- What the table multiplication computes: the product of two polynomials over GF(2), modulo the
-- field's polynomial, by shifting and adding.
use native.Mathlib.Nat.{pow-suc}
use delp.Prelude.{
  ℕ, zero, suc, ◌*◌, ◌/◌, ◌%◌, ◌^◌, ◌<◌, ◌≡◌, refl, sym, ap, ap₂, ◌∙◌, bit_xor, ◌==◌, if◌then◌else◌,
  arith, ltb, ◌&&◌, true, all_below, all_below_lem, xor_fields, xor_comm,
}
use delp.Gf.Field.{GfField}
use delp.Gf.Tables.{step_gf2_4, step_gf2_8, gf2_4_exp, gf2_4_log, gf2_8_exp, gf2_8_log}
use delp.Gf.Gf2_4
use delp.Gf.Gf2_8
use delp.Gf.Gf2_4.{gf2_4}
use delp.Gf.Gf2_8.{gf2_8}
use delp.Gf.Laws.{IsField, gf2_4-IsField, gf2_8-IsField}

-- One step for each binary digit of `b`, the lowest first; `n` bounds the digits of `b`.
unfoldable pub peasant : (ℕ → ℕ) → ℕ → ℕ → ℕ → ℕ
peasant shift zero a b = 0
peasant shift (suc n) a b =
    bit_xor (if b % 2 == 0 then 0 else a) (peasant shift n (shift a) (b / 2))

module _ (f : GfField) (h : IsField f) (shift : ℕ → ℕ)
    (add-xor : (a b : ℕ) → f.add a b ≡ bit_xor a b) (ends : (f.zero ≡ 0) × (f.one ≡ 1))
    (two : 2 < f.order)
    (shifts : (a : ℕ) → a < f.order → (shift a < f.order) × (f.mul a 2 ≡ shift a))
    (doubles : (b : ℕ) → b * 2 < f.order → f.mul 2 b ≡ b * 2) where
  mul-xor :
      (a b c : ℕ)
      → a < f.order
      → b < f.order
      → c < f.order
      → f.mul a (bit_xor b c) ≡ bit_xor (f.mul a b) (f.mul a c)
  mul-xor a b c p q r =
      let closed : bit_xor b c < f.order = rw (← add-xor b c) (h.add-lt b c q r) in
      h.mul_comm a (bit_xor b c) p closed
      ∙ ap (λ (t : ℕ). f.mul t a) (sym (add-xor b c))
      ∙ h.add-mul b c a q r p
      ∙ add-xor (f.mul b a) (f.mul c a)
      ∙ ap₂ bit_xor (h.mul_comm b a q p) (h.mul_comm c a r p)

  mul_even : (a b : ℕ) → a < f.order → b * 2 < f.order → f.mul a (b * 2) ≡ f.mul (shift a) b
  mul_even a b p q =
      ap (f.mul a) (sym (doubles b q))
      ∙ sym (h.mul_assoc a 2 b p two (omega arith))
      ∙ ap (λ (t : ℕ). f.mul t b) (shifts a p).1

  mul_digit : (a d : ℕ) → a < f.order → d < 2 → f.mul a d ≡ (if d == 0 then 0 else a)
  mul_digit a zero p q =
      h.mul_comm a 0 p (omega arith)
      ∙ ap (λ (t : ℕ). f.mul t a) (sym ends.0)
      ∙ h.zero-mul a
      ∙ ends.0
  mul_digit a (suc zero) p q =
      h.mul_comm a 1 p (omega arith) ∙ ap (λ (t : ℕ). f.mul t a) (sym ends.1) ∙ h.one-mul a p
  mul_digit a (suc (suc d)) p q = absurd (omega arith)

  pub mul-peasant :
      (n a b : ℕ) → a < f.order → b < f.order → b < 2 ^ n → f.mul a b ≡ peasant shift n a b
  unfolding peasant
  mul-peasant zero a b p q r = let e : b ≡ 0 = omega arith in rw e (mul_digit a 0 p (omega arith))
  mul-peasant (suc n) a b p q r =
      let parts : bit_xor (b / 2 * 2) (b % 2) ≡ b = omega (arith, xor_fields 1 (b / 2) (b % 2)) in
      ap (f.mul a) (sym parts)
      ∙ mul-xor a (b / 2 * 2) (b % 2) p (omega arith) (omega arith)
      ∙ xor_comm (f.mul a (b / 2 * 2)) (f.mul a (b % 2))
      ∙ ap₂ bit_xor (mul_digit a (b % 2) p (omega arith)) (
          mul_even a (b / 2) p (omega arith)
          ∙ mul-peasant n (shift a) (b / 2) (shifts a p).0 (omega arith)
              (omega (arith, pow-suc 2 n)))

shift_table_8 :
    all_below 256 (λ a. ltb (step_gf2_8 a) 256 && (Gf2_8.gf2_8_mul_raw a 2 == step_gf2_8 a)) ≡ true
unfolding all_below step_gf2_8 Gf2_8.gf2_8_mul_raw Gf2_8.exp_at Gf2_8.log_at gf2_8_exp gf2_8_log
shift_table_8 = refl

double_table_8 : all_below 128 (λ b. Gf2_8.gf2_8_mul_raw 2 b == b * 2) ≡ true
unfolding all_below Gf2_8.gf2_8_mul_raw Gf2_8.exp_at Gf2_8.log_at gf2_8_exp gf2_8_log
double_table_8 = refl

shift_table_4 :
    all_below 16 (λ a. ltb (step_gf2_4 a) 16 && (Gf2_4.gf2_4_mul_raw a 2 == step_gf2_4 a)) ≡ true
unfolding all_below step_gf2_4 Gf2_4.gf2_4_mul_raw Gf2_4.exp_at Gf2_4.log_at gf2_4_exp gf2_4_log
shift_table_4 = refl

double_table_4 : all_below 8 (λ b. Gf2_4.gf2_4_mul_raw 2 b == b * 2) ≡ true
unfolding all_below Gf2_4.gf2_4_mul_raw Gf2_4.exp_at Gf2_4.log_at gf2_4_exp gf2_4_log
double_table_4 = refl

-- The table multiplication of two bytes is the shift-and-add product of the polynomials that the
-- bytes stand for, reduced by the polynomial 0x11d at each shift as the table loop does.
pub gf2_8_mul-peasant :
    (a b : ℕ) → a < 256 → b < 256 → Gf2_8.gf2_8_mul_raw a b ≡ peasant step_gf2_8 8 a b
unfolding Gf2_8.add
gf2_8_mul-peasant a b p q =
    mul-peasant gf2_8 gf2_8-IsField step_gf2_8 (λ x y. refl) (refl, refl) (omega arith)
      (λ x r. ground (arith, all_below_lem 256 _ x shift_table_8 r))
      (λ x r. ground (arith, all_below_lem 128 _ x double_table_8)) 8 a b p q q

-- The table multiplication of two numbers below 16 is their shift-and-add product, reduced by the
-- polynomial 0x13 at each shift as the table loop does.
pub gf2_4_mul-peasant :
    (a b : ℕ) → a < 16 → b < 16 → Gf2_4.gf2_4_mul_raw a b ≡ peasant step_gf2_4 4 a b
unfolding Gf2_4.add
gf2_4_mul-peasant a b p q =
    mul-peasant gf2_4 gf2_4-IsField step_gf2_4 (λ x y. refl) (refl, refl) (omega arith)
      (λ x r. ground (arith, all_below_lem 16 _ x shift_table_4 r))
      (λ x r. ground (arith, all_below_lem 8 _ x double_table_4)) 4 a b p q q
