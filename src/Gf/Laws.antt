-- ===== src/Gf/Laws.antt =====
-- The field laws of the two implementations of the trait `Field`.
use delp.Prelude.{
  ℕ, ◌+◌, ◌-◌, ◌<◌, ◌≡◌, refl, sym, ap, ◌∙◌, bit_xor, arith, xor_comm, xor_assoc, xor_self,
  zero-xor, xor-lt-pow,
}
use delp.Error.{ok, panic}
use delp.Gf.Field.{GfField}
use delp.Gf.Gf2_4
use delp.Gf.Gf2_8
use delp.Gf.Gf2_4.{gf2_4}
use delp.Gf.Gf2_8.{gf2_8}
use delp.Gf.LogExp.{product, IsCyclic, Linear}
use delp.Gf.LogExp.Laws
use delp.Gf.Cyclic.{
  cycle_4, cycle_8, cycle_4-IsCyclic, cycle_8-IsCyclic, times_alpha_4-Linear, times_alpha_8-Linear,
  exp_at-cycle,
}

-- A field on the numbers below the order, in which every element is its own negative.
pub record IsField (f : GfField) : Type 0 where
  pub add-lt : (a b : ℕ) → a < f.order → b < f.order → f.add a b < f.order
  pub add_comm : (a b : ℕ) → f.add a b ≡ f.add b a
  pub add_assoc : (a b c : ℕ) → f.add (f.add a b) c ≡ f.add a (f.add b c)
  pub zero-add : (a : ℕ) → f.add f.zero a ≡ a
  pub add_self : (a : ℕ) → f.add a a ≡ f.zero
  pub mul-lt : (a b : ℕ) → a < f.order → b < f.order → f.mul a b < f.order
  pub mul_comm : (a b : ℕ) → a < f.order → b < f.order → f.mul a b ≡ f.mul b a
  pub mul_assoc :
      (a b c : ℕ)
      → a < f.order
      → b < f.order
      → c < f.order
      → f.mul (f.mul a b) c ≡ f.mul a (f.mul b c)
  pub one-mul : (a : ℕ) → a < f.order → f.mul f.one a ≡ a
  pub zero-mul : (a : ℕ) → f.mul f.zero a ≡ f.zero
  pub add-mul :
      (a b c : ℕ)
      → a < f.order
      → b < f.order
      → c < f.order
      → f.mul (f.add a b) c ≡ f.add (f.mul a c) (f.mul b c)
  pub mul-inv :
      (a : ℕ)
      → 0 < a
      → a < f.order
      → (b : ℕ) × (f.inv a ≡ ok b) × (b < f.order) × (f.mul a b ≡ f.one)
  pub inv-zero : f.inv f.zero ≡ panic

gf2_8_mul-product :
    (a b : ℕ) → a < 256 → b < 256 → Gf2_8.gf2_8_mul_raw a b ≡ product cycle_8 Gf2_8.log_at a b
unfolding Gf2_8.gf2_8_mul_raw product
gf2_8_mul-product a b p q = ground (
  arith,
  cycle_8-IsCyclic.log-le a,
  cycle_8-IsCyclic.log-le b,
  exp_at-cycle (Gf2_8.log_at a + Gf2_8.log_at b),
)

gf2_4_mul-product : (a b : ℕ) → Gf2_4.gf2_4_mul_raw a b ≡ product cycle_4 Gf2_4.log_at a b
unfolding Gf2_4.gf2_4_mul_raw product
gf2_4_mul-product a b = refl

-- What both fields' multiplications share.
record MulLaws (bound : ℕ) (mul : ℕ → ℕ → ℕ) : Type 0 where
  lt : (a b : ℕ) → a < bound → b < bound → mul a b < bound
  comm : (a b : ℕ) → a < bound → b < bound → mul a b ≡ mul b a
  assoc : (a b d : ℕ) → a < bound → b < bound → d < bound → mul (mul a b) d ≡ mul a (mul b d)
  one : (a : ℕ) → a < bound → mul 1 a ≡ a
  distrib :
      (a b d : ℕ)
      → a < bound
      → b < bound
      → d < bound
      → mul (bit_xor a b) d ≡ bit_xor (mul a d) (mul b d)

-- The laws of a multiplication that agrees with `product` on the elements.
module _ {bound n half poly : ℕ} {exp log : ℕ → ℕ} (c : IsCyclic bound n half poly exp log)
    (linear : Linear bound half poly)
    (closed : (a b : ℕ) → a < bound → b < bound → bit_xor a b < bound) (big : 1 < bound)
    (mul : ℕ → ℕ → ℕ)
    (agree : (a b : ℕ) → a < bound → b < bound → mul a b ≡ product exp log a b) where
  of_product-lt : (a b : ℕ) → a < bound → b < bound → mul a b < bound
  of_product-lt a b p q = rw (agree a b p q) (Laws.product-lt c a b (omega arith))

  of_product_comm : (a b : ℕ) → a < bound → b < bound → mul a b ≡ mul b a
  of_product_comm a b p q = rw (agree a b p q, agree b a q p) (Laws.product_comm c a b)

  of_product_assoc :
      (a b d : ℕ) → a < bound → b < bound → d < bound → mul (mul a b) d ≡ mul a (mul b d)
  of_product_assoc a b d p q r =
      agree (mul a b) d (of_product-lt a b p q) r
      ∙ ap (λ (t : ℕ). product exp log t d) (agree a b p q)
      ∙ Laws.product_assoc c a b d
      ∙ ap (product exp log a) (sym (agree b d q r))
      ∙ sym (agree a (mul b d) p (of_product-lt b d q r))

  of_one-product : (a : ℕ) → a < bound → mul 1 a ≡ a
  of_one-product a p = agree 1 a big p ∙ Laws.one-product c a big p

  of_xor_product :
      (a b d : ℕ)
      → a < bound
      → b < bound
      → d < bound
      → mul (bit_xor a b) d ≡ bit_xor (mul a d) (mul b d)
  of_xor_product a b d p q r =
      rw (agree (bit_xor a b) d (closed a b p q) r, agree a d p r, agree b d q r)
        (Laws.xor_product c linear closed a b d p q)

  of_product-MulLaws : MulLaws bound mul
  of_product-MulLaws = record {
    lt = of_product-lt;
    comm = of_product_comm;
    assoc = of_product_assoc;
    one = of_one-product;
    distrib = of_xor_product;
  }

  of_product-inverse : (a : ℕ) → 0 < a → a < bound → mul a (exp (n - log a)) ≡ 1
  of_product-inverse a p q = agree a (exp (n - log a)) q (c.below _) ∙ Laws.product-inverse c a p q

gf2_8_mul-inv :
    (a : ℕ)
    → 0 < a
    → a < 256
    → (b : ℕ) × (Gf2_8.inv a ≡ ok b) × (b < 256) × (Gf2_8.gf2_8_mul_raw a b ≡ 1)
unfolding Gf2_8.inv
gf2_8_mul-inv a p q =
    let e : Gf2_8.exp_at (255 - Gf2_8.log_at a) ≡ cycle_8 (255 - Gf2_8.log_at a) =
      exp_at-cycle (255 - Gf2_8.log_at a) (omega arith) in
    (
      cycle_8 (255 - Gf2_8.log_at a),
      ground arith,
      cycle_8-IsCyclic.below _,
      of_product-inverse cycle_8-IsCyclic times_alpha_8-Linear (xor-lt-pow 8) (omega arith) _
          gf2_8_mul-product a p q,
    )

gf2_4_mul-inv :
    (a : ℕ)
    → 0 < a
    → a < 16
    → (b : ℕ) × (Gf2_4.inv a ≡ ok b) × (b < 16) × (Gf2_4.gf2_4_mul_raw a b ≡ 1)
unfolding Gf2_4.inv
gf2_4_mul-inv a p q = (
  cycle_4 (15 - Gf2_4.log_at a),
  ground arith,
  cycle_4-IsCyclic.below _,
  of_product-inverse cycle_4-IsCyclic times_alpha_4-Linear (xor-lt-pow 4) (omega arith) _
      (λ x y _ _. gf2_4_mul-product x y) a p q,
)

mul_8-MulLaws : MulLaws 256 Gf2_8.gf2_8_mul_raw
mul_8-MulLaws =
    of_product-MulLaws cycle_8-IsCyclic times_alpha_8-Linear (xor-lt-pow 8) (omega arith) _
      gf2_8_mul-product

mul_4-MulLaws : MulLaws 16 Gf2_4.gf2_4_mul_raw
mul_4-MulLaws =
    of_product-MulLaws cycle_4-IsCyclic times_alpha_4-Linear (xor-lt-pow 4) (omega arith) _
      (λ a b _ _. gf2_4_mul-product a b)

-- GF(2^8) as implemented by log and exp tables is a field on the bytes: addition is `^`,
-- multiplication is commutative, associative and distributes over addition, 1 is neutral, every
-- nonzero byte has an inverse that `inv` returns, and `inv` panics at 0.
pub gf2_8-IsField : IsField gf2_8
gf2_8-IsField = record {
  add-lt = unfold Gf2_8.add in xor-lt-pow 8;
  add_comm = unfold Gf2_8.add in xor_comm;
  add_assoc = unfold Gf2_8.add in xor_assoc;
  zero-add = unfold Gf2_8.add in zero-xor;
  add_self = unfold Gf2_8.add in xor_self;
  mul-lt = mul_8-MulLaws.lt;
  mul_comm = mul_8-MulLaws.comm;
  mul_assoc = mul_8-MulLaws.assoc;
  one-mul = mul_8-MulLaws.one;
  zero-mul = λ a. unfold Gf2_8.gf2_8_mul_raw in ground arith;
  add-mul = unfold Gf2_8.add in mul_8-MulLaws.distrib;
  mul-inv = gf2_8_mul-inv;
  inv-zero = unfold Gf2_8.inv in refl;
}

-- GF(2^4), with its table read modulo 15, is a field on the numbers below 16: addition is `^`,
-- multiplication is commutative, associative and distributes over addition, 1 is neutral, every
-- nonzero element has an inverse that `inv` returns, and `inv` panics at 0.
pub gf2_4-IsField : IsField gf2_4
gf2_4-IsField = record {
  add-lt = unfold Gf2_4.add in xor-lt-pow 4;
  add_comm = unfold Gf2_4.add in xor_comm;
  add_assoc = unfold Gf2_4.add in xor_assoc;
  zero-add = unfold Gf2_4.add in zero-xor;
  add_self = unfold Gf2_4.add in xor_self;
  mul-lt = mul_4-MulLaws.lt;
  mul_comm = mul_4-MulLaws.comm;
  mul_assoc = mul_4-MulLaws.assoc;
  one-mul = mul_4-MulLaws.one;
  zero-mul = λ a. unfold Gf2_4.gf2_4_mul_raw in ground arith;
  add-mul = unfold Gf2_4.add in mul_4-MulLaws.distrib;
  mul-inv = gf2_4_mul-inv;
  inv-zero = unfold Gf2_4.inv in refl;
}
