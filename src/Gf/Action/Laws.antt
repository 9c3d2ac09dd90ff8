-- ===== src/Gf/Action/Laws.antt =====
-- The laws of scalars that act on bytes, the same for both fields.
use delp.Prelude.{
  ℕ, ◌+◌, ◌*◌, ◌/◌, ◌%◌, ◌<◌, ◌≡◌, sym, ap, ap₂, ◌∙◌, bit_xor, arith, xor_fields, xor_exchange,
  xor-double, xor-lt-pow,
}
use delp.Config.{Field}
use delp.Gf.Gf2_4
use delp.Gf.Gf2_8
use delp.Gf.Gf2_4.{gf2_4, gf2_4_mul_raw}
use delp.Gf.Gf2_8.{gf2_8}
use delp.Gf.Laws.{gf2_4-IsField, gf2_8-IsField}
use delp.Gf.Minor
use delp.Gf.Cyclic.{cycle_4-IsCyclic, cycle_8-IsCyclic}
use delp.Gf.Action.{order, act}

xor_high : (a c : ℕ) → bit_xor (a * 16) (c * 16) ≡ bit_xor a c * 16
xor_high a c =
    ap₂ bit_xor (twice a) (twice c)
    ∙ xor-double (a * 2 * 2 * 2) (c * 2 * 2 * 2)
    ∙ ap (λ (t : ℕ). t * 2)
        (xor-double (a * 2 * 2) (c * 2 * 2)
          ∙ ap (λ (t : ℕ). t * 2)
              (xor-double (a * 2) (c * 2) ∙ ap (λ (t : ℕ). t * 2) (xor-double a c)))
    ∙ sym (twice (bit_xor a c))
  where
    twice : (n : ℕ) → n * 16 ≡ n * 2 * 2 * 2 * 2
    twice n = omega arith

pub xor_halves :
    (a b c d : ℕ)
    → b < 16
    → d < 16
    → bit_xor (a * 16 + b) (c * 16 + d) ≡ bit_xor a c * 16 + bit_xor b d
xor_halves a b c d p q =
    ap₂ bit_xor (sym (xor_fields 4 a b p)) (sym (xor_fields 4 c d q))
    ∙ xor_exchange (a * 16) b (c * 16) d
    ∙ ap (λ (t : ℕ). bit_xor t (bit_xor b d)) (xor_high a c)
    ∙ xor_fields 4 (bit_xor a c) (bit_xor b d) (xor-lt-pow 4 b d p q)

-- The nibbles of a sum are the sums of the nibbles.
xor_nibbles :
    (a b : ℕ)
    → (bit_xor a b / 16 ≡ bit_xor (a / 16) (b / 16))
      × (bit_xor a b % 16 ≡ bit_xor (a % 16) (b % 16))
xor_nibbles a b =
    let joined : bit_xor a b ≡ bit_xor (a / 16) (b / 16) * 16 + bit_xor (a % 16) (b % 16) =
      ap₂ bit_xor (omega arith) (omega arith)
      ∙ xor_halves (a / 16) (a % 16) (b / 16) (b % 16) (omega arith) (omega arith) in
    let small = xor-lt-pow 4 (a % 16) (b % 16) (omega arith) (omega arith) in
    (omega arith, omega arith)

-- The products of a byte's nibbles with a scalar are the nibbles of the result.
act_nibbles :
    (c b : ℕ)
    → c < 16
    → b < 256
    → (act Field.gf2_4 c b / 16 ≡ gf2_4_mul_raw (b / 16) c)
      × (act Field.gf2_4 c b % 16 ≡ gf2_4_mul_raw (b % 16) c)
      × (act Field.gf2_4 c b < 256)
unfolding act
act_nibbles c b p q =
    let high = gf2_4-IsField.mul-lt (b / 16) c (omega arith) p in
    let low = gf2_4-IsField.mul-lt (b % 16) c (omega arith) p in
    (omega arith, omega arith, omega arith)

pub order-le-byte : (f : Field) (c : ℕ) → c < order f → c < 256
order-le-byte Field.gf2_8 c p = p
order-le-byte Field.gf2_4 c p = omega arith

pub xor-lt-order : (f : Field) (a b : ℕ) → a < order f → b < order f → bit_xor a b < order f
xor-lt-order Field.gf2_8 = xor-lt-pow 8
xor-lt-order Field.gf2_4 = xor-lt-pow 4

pub one-lt-order : (f : Field) → 1 < order f
one-lt-order Field.gf2_8 = omega arith
one-lt-order Field.gf2_4 = omega arith

pub act-lt : (f : Field) (c b : ℕ) → c < order f → b < 256 → act f c b < 256
unfolding act
act-lt Field.gf2_8 c b p q = gf2_8-IsField.mul-lt b c q p
act-lt Field.gf2_4 c b p q = (act_nibbles c b p q).2

pub zero-act : (f : Field) (b : ℕ) → b < 256 → act f 0 b ≡ 0
unfolding act
zero-act Field.gf2_8 b q = gf2_8-IsField.mul_comm b 0 q (omega arith) ∙ gf2_8-IsField.zero-mul b
zero-act Field.gf2_4 b q =
    ap₂ (λ (s t : ℕ). s * 16 + t)
      (gf2_4-IsField.mul_comm (b / 16) 0 (omega arith) (omega arith)
        ∙ gf2_4-IsField.zero-mul (b / 16))
      (gf2_4-IsField.mul_comm (b % 16) 0 (omega arith) (omega arith)
        ∙ gf2_4-IsField.zero-mul (b % 16))

pub act-zero : (f : Field) (c : ℕ) → act f c 0 ≡ 0
unfolding act
act-zero Field.gf2_8 c = gf2_8-IsField.zero-mul c
act-zero Field.gf2_4 c =
    ap₂ (λ (s t : ℕ). s * 16 + t) (gf2_4-IsField.zero-mul c) (gf2_4-IsField.zero-mul c)

pub one-act : (f : Field) (b : ℕ) → b < 256 → act f 1 b ≡ b
unfolding act
one-act Field.gf2_8 b q = gf2_8-IsField.mul_comm b 1 q (omega arith) ∙ gf2_8-IsField.one-mul b q
one-act Field.gf2_4 b q =
    ap₂ (λ (s t : ℕ). s * 16 + t)
      (gf2_4-IsField.mul_comm (b / 16) 1 (omega arith) (omega arith)
        ∙ gf2_4-IsField.one-mul (b / 16) (omega arith))
      (gf2_4-IsField.mul_comm (b % 16) 1 (omega arith) (omega arith)
        ∙ gf2_4-IsField.one-mul (b % 16) (omega arith))
    ∙ omega arith

-- A scalar acts on scalars as the field multiplies them.
pub scalar_act : (c d : ℕ) → c < 16 → d < 16 → act Field.gf2_4 c d ≡ gf2_4_mul_raw d c
unfolding act
scalar_act c d p q =
    ap₂ (λ (s t : ℕ). gf2_4_mul_raw s c * 16 + gf2_4_mul_raw t c) (omega arith) (omega arith)
    ∙ ap (λ (s : ℕ). s * 16 + gf2_4_mul_raw d c) (gf2_4-IsField.zero-mul c)
    ∙ omega arith

pub act-lt-order : (f : Field) (c d : ℕ) → c < order f → d < order f → act f c d < order f
unfolding act
act-lt-order Field.gf2_8 c d p q = gf2_8-IsField.mul-lt d c q p
act-lt-order Field.gf2_4 c d p q = rw (scalar_act c d p q) (gf2_4-IsField.mul-lt d c q p)

pub act-one : (f : Field) (c : ℕ) → c < order f → act f c 1 ≡ c
unfolding act
act-one Field.gf2_8 c p = gf2_8-IsField.one-mul c p
act-one Field.gf2_4 c p = scalar_act c 1 p (omega arith) ∙ gf2_4-IsField.one-mul c p

pub act-xor :
    (f : Field) (c a b : ℕ)
    → c < order f
    → a < 256
    → b < 256
    → act f c (bit_xor a b) ≡ bit_xor (act f c a) (act f c b)
unfolding act Gf2_8.add Gf2_4.add
act-xor Field.gf2_8 c a b p q r = gf2_8-IsField.add-mul a b c q r p
act-xor Field.gf2_4 c a b p q r =
    let (high, low) = xor_nibbles a b in
    let a_high = gf2_4-IsField.mul-lt (a % 16) c (omega arith) p in
    let b_high = gf2_4-IsField.mul-lt (b % 16) c (omega arith) p in
    ap₂ (λ (s t : ℕ). gf2_4_mul_raw s c * 16 + gf2_4_mul_raw t c) high low
    ∙ ap₂ (λ (s t : ℕ). s * 16 + t)
        (gf2_4-IsField.add-mul (a / 16) (b / 16) c (omega arith) (omega arith) p)
        (gf2_4-IsField.add-mul (a % 16) (b % 16) c (omega arith) (omega arith) p)
    ∙ sym (
        xor_halves (gf2_4_mul_raw (a / 16) c) (gf2_4_mul_raw (a % 16) c) (gf2_4_mul_raw (b / 16) c)
          (gf2_4_mul_raw (b % 16) c) a_high b_high)

pub xor-act :
    (f : Field) (c d b : ℕ)
    → c < order f
    → d < order f
    → b < 256
    → act f (bit_xor c d) b ≡ bit_xor (act f c b) (act f d b)
unfolding act Gf2_8.add Gf2_4.add
xor-act Field.gf2_8 c d b p q r = Minor.mul-add gf2_8 gf2_8-IsField b c d r p q
xor-act Field.gf2_4 c d b p q r =
    ap₂ (λ (s t : ℕ). s * 16 + t) (Minor.mul-add gf2_4 gf2_4-IsField (b / 16) c d (omega arith) p q)
      (Minor.mul-add gf2_4 gf2_4-IsField (b % 16) c d (omega arith) p q)
    ∙ sym (
        xor_halves (gf2_4_mul_raw (b / 16) c) (gf2_4_mul_raw (b % 16) c) (gf2_4_mul_raw (b / 16) d)
          (gf2_4_mul_raw (b % 16) d) (gf2_4-IsField.mul-lt (b % 16) c (omega arith) p)
          (gf2_4-IsField.mul-lt (b % 16) d (omega arith) q))

pub act-act :
    (f : Field) (c d b : ℕ)
    → c < order f
    → d < order f
    → b < 256
    → act f c (act f d b) ≡ act f (act f c d) b
act-act Field.gf2_8 c d b p q r = unfold act in gf2_8-IsField.mul_assoc b d c r q p
act-act Field.gf2_4 c d b p q r =
    let (high, low, small) = act_nibbles d b q r in
    let hi = nested (b / 16) (act Field.gf2_4 d b / 16) high (omega arith) in
    let lo = nested (b % 16) (act Field.gf2_4 d b % 16) low (omega arith) in
    unfold act in ap₂ (λ (s t : ℕ). s * 16 + t) hi lo
  where
    nested :
        (n m : ℕ)
        → m ≡ gf2_4_mul_raw n d
        → n < 16
        → gf2_4_mul_raw m c ≡ gf2_4_mul_raw n (act Field.gf2_4 c d)
    nested n m e k =
        ap (λ (t : ℕ). gf2_4_mul_raw t c) e
        ∙ gf2_4-IsField.mul_assoc n d c k q p
        ∙ ap (gf2_4_mul_raw n) (sym (scalar_act c d p q))

-- A power of the generator is an element.
pub alpha_pow_8-lt : (e : ℕ) → gf2_8.alpha_pow e < 256
unfolding Gf2_8.alpha_pow
alpha_pow_8-lt e = cycle_8-IsCyclic.below e

pub alpha_pow_4-lt : (e : ℕ) → gf2_4.alpha_pow e < 16
unfolding Gf2_4.alpha_pow
alpha_pow_4-lt e = cycle_4-IsCyclic.below e
