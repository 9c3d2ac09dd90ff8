-- ===== src/Gf/LogExp.antt =====
-- Multiplication by logarithms, over any cyclic table of powers of an element `alpha`. The facts
-- on the tables are a hypothesis, which the tables of both fields meet.
pub mod Laws
use native.Mathlib.Nat.{mul-zero}
use delp.Prelude.{
  ℕ, zero, suc, ◌+◌, ◌*◌, ◌/◌, ◌≤◌, ◌<◌, ◌≡◌, refl, ap, bit_xor, ◌||◌, ◌⊎◌, inl, inr, ◌==◌,
  if◌then◌else◌, arith, xor_exchange, zero-xor, xor-zero, xor_self, xor-double,
}

-- Multiplication by `alpha`: a shift, and the polynomial if the top bit falls out.
unfoldable pub times_alpha : ℕ → ℕ → ℕ → ℕ
times_alpha half poly a = bit_xor (a * 2) (poly * (a / half))

unfoldable pub product : (ℕ → ℕ) → (ℕ → ℕ) → ℕ → ℕ → ℕ
product exp log a b = if a == 0 || b == 0 then 0 else exp (log a + log b)

-- `exp` starts at 1, moves by `times_alpha` and is back at 1 after `n` steps; `log` finds each
-- nonzero element below the bound.
pub record IsCyclic (bound n half poly : ℕ) (exp log : ℕ → ℕ) : Type 0 where
  pub start : exp 0 ≡ 1
  pub turn : exp n ≡ 1
  pub nonzero : (i : ℕ) → 0 < exp i
  pub below : (i : ℕ) → exp i < bound
  pub next : (i : ℕ) → exp (i + 1) ≡ times_alpha half poly (exp i)
  pub exp-log : (a : ℕ) → 0 < a → a < bound → exp (log a) ≡ a
  pub log-le : (a : ℕ) → 0 < a → a < bound → log a ≤ n

-- What is assumed of the shift: it keeps `^` on elements of the field.
pub Linear : ℕ → ℕ → ℕ → Type 0
Linear bound half poly =
    (a b : ℕ)
    → a < bound
    → b < bound
    → times_alpha half poly (bit_xor a b)
      ≡ bit_xor (times_alpha half poly a) (times_alpha half poly b)

digit_scale : (poly x y : ℕ) → x < 2 → y < 2 → poly * bit_xor x y ≡ bit_xor (poly * x) (poly * y)
digit_scale poly zero zero p q = omega (arith, xor_self (poly * 0))
digit_scale poly zero (suc zero) p q =
    omega (arith, zero-xor (poly * 1), ap (λ (t : ℕ). bit_xor t (poly * 1)) (mul-zero poly))
digit_scale poly (suc zero) zero p q =
    omega (arith, xor-zero (poly * 1), ap (bit_xor (poly * 1)) (mul-zero poly))
digit_scale poly (suc zero) (suc zero) p q = omega (arith, xor_self (poly * 1))
digit_scale poly (suc (suc x)) y p q = absurd (omega arith)
digit_scale poly x (suc (suc y)) p q = absurd (omega arith)

pub times_alpha-Linear :
    (bound half poly : ℕ)
    → ((a b : ℕ) → bit_xor a b / half ≡ bit_xor (a / half) (b / half))
    → ((a : ℕ) → a < bound → a / half < 2)
    → Linear bound half poly
unfolding Linear times_alpha
times_alpha-Linear bound half poly top digit a b p q =
    rw (← xor-double a b, top a b, digit_scale poly (a / half) (b / half) (digit a p) (digit b q))
      (xor_exchange (a * 2) (b * 2) (poly * (a / half)) (poly * (b / half)))
