-- ===== src/Prelude/Bits.antt =====
-- One equation for the lowest binary digit of `&`, `|` and `^`, and what follows for masks,
-- shifts and packed fields, at every width.
use Prim.Native.Nat.{ℕ, zero, suc, ◌+◌, ◌-◌, ◌*◌, ◌/◌, ◌%◌, ◌^◌, ◌≤◌, ◌<◌, min, max}
use Prim.Native.Nat.{bit_and, bit_or, bit_xor, digits, bitwise, differ}
use Prim.Native.Nat.{bit_and-bitwise, bit_or-bitwise, bit_xor-bitwise}
use mathlib.Core.Path.{◌≡◌, refl, ap, ◌∙◌}
use native.Mathlib.Decide.{dec_le}
use native.Mathlib.Nat.{pow-suc, one-le-pow}
use native.Mathlib.Omega.{arith}

-- The native operations stand for `bitwise`, a recursion on digits with fuel. One more unit of
-- fuel changes nothing, so any sufficient fuel gives the same number.
module _ (end : ℕ → ℕ) (digit : ℕ → ℕ → ℕ) where
  digits_more : (n x y : ℕ) → x ≤ n → digits end digit (suc n) x y ≡ digits end digit n x y
  digits_more zero zero y h = refl
  digits_more zero (suc x) y h = absurd (omega arith)
  digits_more (suc n) zero y h = refl
  digits_more (suc n) (suc x) y h =
      ap (λ (t : ℕ). t * 2 + digit (suc x % 2) (y % 2))
        (digits_more n (suc x / 2) (y / 2) (omega arith))

  digits-bitwise : (n x y : ℕ) → x ≤ n → digits end digit n x y ≡ bitwise end digit x y
  digits-bitwise zero zero y h = refl
  digits-bitwise zero (suc x) y h = absurd (omega arith)
  digits-bitwise (suc n) x y h = elim (dec_le x n) [
    | yes below ↦ digits_more n x y below ∙ digits-bitwise n x y below
    | no above ↦ let e : x ≡ suc n = omega arith in rw e
  ]

  bitwise_lowest :
      (x y : ℕ)
      → bitwise end digit (suc x) y
        ≡ bitwise end digit (suc x / 2) (y / 2) * 2 + digit (suc x % 2) (y % 2)
  bitwise_lowest x y = omega (arith, digits-bitwise x (suc x / 2) (y / 2) (omega arith))

pub bit_or_step : (x y : ℕ) → bit_or x y ≡ bit_or (x / 2) (y / 2) * 2 + max (x % 2) (y % 2)
bit_or_step zero y = simp bit_or-bitwise (omega arith)
bit_or_step (suc x) y = simp bit_or-bitwise (bitwise_lowest (λ t. t) max x y)

pub bit_and_step : (x y : ℕ) → bit_and x y ≡ bit_and (x / 2) (y / 2) * 2 + min (x % 2) (y % 2)
bit_and_step zero y = simp bit_and-bitwise (omega arith)
bit_and_step (suc x) y = simp bit_and-bitwise (bitwise_lowest (λ t. 0) min x y)

differ_digits : (x y : ℕ) → x < 2 → y < 2 → differ x y ≡ (x + y) % 2
differ_digits zero zero p q = refl
differ_digits zero (suc zero) p q = refl
differ_digits (suc zero) zero p q = refl
differ_digits (suc zero) (suc zero) p q = refl
differ_digits (suc (suc x)) y p q = absurd (omega arith)
differ_digits x (suc (suc y)) p q = absurd (omega arith)

pub bit_xor_step : (x y : ℕ) → bit_xor x y ≡ bit_xor (x / 2) (y / 2) * 2 + (x + y) % 2
bit_xor_step zero y = simp bit_xor-bitwise (omega arith)
bit_xor_step (suc x) y = simp bit_xor-bitwise (
    rw (bitwise_lowest (λ t. t) differ x y)
      (omega (arith, differ_digits (suc x % 2) (y % 2) (omega arith) (omega arith))))

-- Every number below a bound, so that each round halves both the number and the bound's task.
or-zero_upto : (k x : ℕ) → x ≤ k → bit_or x 0 ≡ x
or-zero_upto k zero h = refl
or-zero_upto zero (suc x) h = absurd (omega arith)
or-zero_upto (suc k) (suc x) h =
    omega (arith, bit_or_step (suc x) 0, or-zero_upto k (suc x / 2) (omega arith))

and-zero_upto : (k x : ℕ) → x ≤ k → bit_and x 0 ≡ 0
and-zero_upto k zero h = refl
and-zero_upto zero (suc x) h = absurd (omega arith)
and-zero_upto (suc k) (suc x) h =
    omega (arith, bit_and_step (suc x) 0, and-zero_upto k (suc x / 2) (omega arith))

shift_suc : (q k : ℕ) → q * 2 ^ suc k ≡ q * 2 ^ k * 2
shift_suc q k = omega (arith, ap (λ (t : ℕ). q * t) (pow-suc 2 k))

-- `(q << k) | r` is a sum when `r` fits in `k` bits.
pub or_fields : (k q r : ℕ) → r < 2 ^ k → bit_or (q * 2 ^ k) r ≡ q * 2 ^ k + r
or_fields zero q r fits =
    let e : r ≡ 0 = omega arith in rw e (omega (arith, or-zero_upto (q * 1) (q * 1) (omega arith)))
or_fields (suc k) q r fits =
    ground
      (arith, shift_suc q k, bit_or_step (q * 2 ^ suc k) r, or_fields k q (r / 2) (omega arith))

and_low : (k q r : ℕ) → r < 2 ^ k → bit_and (q * 2 ^ k + r) (2 ^ k - 1) ≡ r
and_low zero q r fits = rw (and-zero_upto (q * 1 + r) (q * 1 + r) (omega arith)) (omega arith)
and_low (suc k) q r fits = ground (
  arith,
  pow-suc 2 k,
  shift_suc q k,
  bit_and_step (q * 2 ^ suc k + r) (2 ^ suc k - 1),
  and_low k q (r / 2) (omega arith),
)

-- A mask of `k` ones is the remainder by `2 ^ k`.
pub and_mask : (k x : ℕ) → bit_and x (2 ^ k - 1) ≡ x % 2 ^ k
and_mask k x = ground (arith, one-le-pow k 2, and_low k (x / 2 ^ k) (x % 2 ^ k))
