-- ===== src/Prelude/Xor.antt =====
-- The laws of `^` on numbers of every width.
use Prim.Native.Nat.{ℕ, zero, suc, ◌+◌, ◌*◌, ◌/◌, ◌%◌, ◌^◌, ◌≤◌, ◌<◌, bit_xor}
use mathlib.Core.Path.{◌≡◌, refl, sym, ap, ◌∙◌}
use native.Mathlib.Nat.{pow-suc}
use native.Mathlib.Omega.{arith}
use delp.Prelude.Bits.{bit_xor_step}

zero-xor_upto : (k a : ℕ) → a ≤ k → bit_xor 0 a ≡ a
zero-xor_upto k zero h = refl
zero-xor_upto zero (suc a) h = absurd (omega arith)
zero-xor_upto (suc k) (suc a) h =
    omega (arith, bit_xor_step 0 (suc a), zero-xor_upto k (suc a / 2) (omega arith))

pub zero-xor : (a : ℕ) → bit_xor 0 a ≡ a
zero-xor a = zero-xor_upto a a (omega arith)

xor_self_upto : (k a : ℕ) → a ≤ k → bit_xor a a ≡ 0
xor_self_upto k zero h = refl
xor_self_upto zero (suc a) h = absurd (omega arith)
xor_self_upto (suc k) (suc a) h =
    omega (arith, bit_xor_step (suc a) (suc a), xor_self_upto k (suc a / 2) (omega arith))

pub xor_self : (a : ℕ) → bit_xor a a ≡ 0
xor_self a = xor_self_upto a a (omega arith)

xor_comm_upto : (k a b : ℕ) → a ≤ k → b ≤ k → bit_xor a b ≡ bit_xor b a
xor_comm_upto zero zero zero p q = refl
xor_comm_upto zero (suc a) b p q = absurd (omega arith)
xor_comm_upto zero zero (suc b) p q = absurd (omega arith)
xor_comm_upto (suc k) a b p q = omega (
  arith,
  bit_xor_step a b,
  bit_xor_step b a,
  xor_comm_upto k (a / 2) (b / 2) (omega arith) (omega arith),
)

pub xor_comm : (a b : ℕ) → bit_xor a b ≡ bit_xor b a
xor_comm a b = xor_comm_upto (a + b) a b (omega arith) (omega arith)

xor_assoc_upto :
    (k a b c : ℕ) → a ≤ k → b ≤ k → c ≤ k → bit_xor (bit_xor a b) c ≡ bit_xor a (bit_xor b c)
xor_assoc_upto zero zero zero zero p q r = refl
xor_assoc_upto zero (suc a) b c p q r = absurd (omega arith)
xor_assoc_upto zero zero (suc b) c p q r = absurd (omega arith)
xor_assoc_upto zero zero zero (suc c) p q r = absurd (omega arith)
xor_assoc_upto (suc k) a b c p q r =
    let left : bit_xor a b / 2 ≡ bit_xor (a / 2) (b / 2) = omega (arith, bit_xor_step a b) in
    let right : bit_xor b c / 2 ≡ bit_xor (b / 2) (c / 2) = omega (arith, bit_xor_step b c) in
    let low : bit_xor a b % 2 ≡ (a + b) % 2 = omega (arith, bit_xor_step a b) in
    let high : bit_xor b c % 2 ≡ (b + c) % 2 = omega (arith, bit_xor_step b c) in
    let ih = xor_assoc_upto k (a / 2) (b / 2) (c / 2) (omega arith) (omega arith) (omega arith) in
    let outer : bit_xor (bit_xor a b / 2) (c / 2) ≡ bit_xor (a / 2) (bit_xor b c / 2) =
      rw (left, right) ih in
    omega (arith, bit_xor_step (bit_xor a b) c, bit_xor_step a (bit_xor b c))

pub xor_assoc : (a b c : ℕ) → bit_xor (bit_xor a b) c ≡ bit_xor a (bit_xor b c)
xor_assoc a b c = xor_assoc_upto (a + b + c) a b c (omega arith) (omega arith) (omega arith)

pub xor-zero : (a : ℕ) → bit_xor a 0 ≡ a
xor-zero a = xor_comm a 0 ∙ zero-xor a

pub xor_cancel : (a b : ℕ) → bit_xor a (bit_xor a b) ≡ b
xor_cancel a b = sym (xor_assoc a a b) ∙ rw (xor_self a) (zero-xor b)

pub xor_left_comm : (a b c : ℕ) → bit_xor a (bit_xor b c) ≡ bit_xor b (bit_xor a c)
xor_left_comm a b c = sym (xor_assoc a b c) ∙ rw (xor_comm a b) (xor_assoc b a c)

-- Four terms regrouped by columns.
pub xor_exchange :
    (a b c d : ℕ) → bit_xor (bit_xor a b) (bit_xor c d) ≡ bit_xor (bit_xor a c) (bit_xor b d)
xor_exchange a b c d =
    xor_assoc a b (bit_xor c d)
    ∙ ap (bit_xor a) (xor_left_comm b c d)
    ∙ sym (xor_assoc a c (bit_xor b d))

pub xor-eq-zero : (a b : ℕ) → bit_xor a b ≡ 0 → a ≡ b
xor-eq-zero a b h = sym (xor-zero a) ∙ ap (bit_xor a) (sym h) ∙ xor_cancel a b

-- Shifts and widths.
pub xor-half : (a b : ℕ) → bit_xor a b / 2 ≡ bit_xor (a / 2) (b / 2)
xor-half a b = omega (arith, bit_xor_step a b)

pub xor-double : (a b : ℕ) → bit_xor (a * 2) (b * 2) ≡ bit_xor a b * 2
xor-double a b =
    let e : a * 2 / 2 ≡ a = omega arith in
    let f : b * 2 / 2 ≡ b = omega arith in
    let s : bit_xor (a * 2 / 2) (b * 2 / 2) ≡ bit_xor a b = rw (e, f) refl in
    omega (arith, bit_xor_step (a * 2) (b * 2))

pub xor-lt-pow : (k a b : ℕ) → a < 2 ^ k → b < 2 ^ k → bit_xor a b < 2 ^ k
xor-lt-pow zero zero zero p q = omega arith
xor-lt-pow zero (suc a) b p q = absurd (omega arith)
xor-lt-pow zero zero (suc b) p q = absurd (omega arith)
xor-lt-pow (suc k) a b p q =
    ground (arith, pow-suc 2 k, bit_xor_step a b, xor-lt-pow k (a / 2) (b / 2))

-- Disjoint fields: `(q << k) ^ r` is a sum when `r` fits in `k` bits.
pub xor_fields : (k q r : ℕ) → r < 2 ^ k → bit_xor (q * 2 ^ k) r ≡ q * 2 ^ k + r
xor_fields zero q r fits = let e : r ≡ 0 = omega arith in rw e (omega (arith, xor-zero (q * 1)))
xor_fields (suc k) q r fits =
    let e : q * 2 ^ suc k ≡ q * 2 ^ k * 2 = omega (arith, ap (λ (t : ℕ). q * t) (pow-suc 2 k)) in
    ground
      (arith, pow-suc 2 k, bit_xor_step (q * 2 ^ suc k) r, xor_fields k q (r / 2) (omega arith))
