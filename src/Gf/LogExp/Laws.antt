-- ===== src/Gf/LogExp/Laws.antt =====
-- The field laws of `product`, from a cyclic table and a linear shift.
use delp.Prelude.{
  ℕ, zero, suc, ◌+◌, ◌-◌, ◌<◌, ◌≡◌, refl, sym, ap, ◌∙◌, bit_xor, inl, inr, arith, xor_self,
  zero-or-pos,
}
use delp.Gf.LogExp.{times_alpha, product, IsCyclic, Linear}

-- `k` multiplications by `alpha`.
abbrev pub steps : (ℕ → ℕ) → ℕ → ℕ → ℕ
steps shift zero a = a
steps shift (suc k) a = shift (steps shift k a)

module _ {bound n half poly : ℕ} {exp log : ℕ → ℕ} (c : IsCyclic bound n half poly exp log) where
  abbrev shift : ℕ → ℕ
  shift = times_alpha half poly

  pub zero-product : (a : ℕ) → product exp log 0 a ≡ 0
  unfolding product
  zero-product a = ground arith

  pub product-zero : (a : ℕ) → product exp log a 0 ≡ 0
  unfolding product
  product-zero a = ground arith

  pub product_pos : (a b : ℕ) → 0 < a → 0 < b → product exp log a b ≡ exp (log a + log b)
  unfolding product
  product_pos a b p q = ground arith

  pub product_comm : (a b : ℕ) → product exp log a b ≡ product exp log b a
  unfolding product
  product_comm a b = ground (arith, ap exp (add_comm (log a) (log b)))
    where
      add_comm : (x y : ℕ) → x + y ≡ y + x
      add_comm x y = omega arith

  exp-add : (i k : ℕ) → exp (i + k) ≡ steps shift k (exp i)
  exp-add i zero = ap exp (omega arith)
  exp-add i (suc k) = ap exp (omega arith) ∙ c.next (i + k) ∙ ap shift (exp-add i k)

  -- A logarithm may be taken in the middle of an exponent.
  exp-log-add : (a k : ℕ) → 0 < a → a < bound → exp (log a + k) ≡ steps shift k a
  exp-log-add a k p q = exp-add (log a) k ∙ ap (steps shift k) (c.exp-log a p q)

  exp-log-exp : (i k : ℕ) → exp (log (exp i) + k) ≡ exp (i + k)
  exp-log-exp i k = exp-log-add (exp i) k (c.nonzero i) (c.below i) ∙ sym (exp-add i k)

  pub product-lt : (a b : ℕ) → 0 < bound → product exp log a b < bound
  unfolding product
  product-lt a b p = ground (arith, c.below (log a + log b))

  pub product_nonzero : (a b : ℕ) → 0 < a → 0 < b → 0 < product exp log a b
  product_nonzero a b p q = rw (product_pos a b p q) (c.nonzero (log a + log b))

  product_assoc_pos :
      (a b d : ℕ)
      → 0 < a
      → 0 < b
      → 0 < d
      → product exp log (product exp log a b) d ≡ product exp log a (product exp log b d)
  product_assoc_pos a b d p q r =
      rw
        (
          product_pos a b p q,
          product_pos b d q r,
          product_pos (exp (log a + log b)) d (c.nonzero _) r,
          product_pos a (exp (log b + log d)) p (c.nonzero _),
        )
        (exp-log-exp (log a + log b) (log d)
          ∙ ap exp (omega arith)
          ∙ sym (exp-log-exp (log b + log d) (log a))
          ∙ ap exp (omega arith))

  pub product_assoc :
      (a b d : ℕ)
      → product exp log (product exp log a b) d ≡ product exp log a (product exp log b d)
  product_assoc a b d = elim (zero-or-pos a) [
    | inl e ↦ rw (e, zero-product b, zero-product d, zero-product (product exp log b d)) refl
    | inr p ↦ elim (zero-or-pos b) [
      | inl e ↦ rw (e, product-zero a, zero-product d, product-zero a) refl
      | inr q ↦ elim (zero-or-pos d) [
        | inl e ↦ rw (e, product-zero b, product-zero a, product-zero (product exp log a b)) refl
        | inr r ↦ product_assoc_pos a b d p q r
      ]
    ]
  ]

  pub one-product : (a : ℕ) → 1 < bound → a < bound → product exp log 1 a ≡ a
  one-product a one p = elim (zero-or-pos a) [
    | inl e ↦ rw e (product-zero 1)
    | inr q ↦
        product_pos 1 a (omega arith) q
        ∙ ap exp (omega arith)
        ∙ exp-log-add a (log 1) q p
        ∙ one_steps a q p
  ]
    where
      one_steps : (b : ℕ) → 0 < b → b < bound → steps shift (log 1) b ≡ b
      one_steps b q p =
          sym (exp-log-add b (log 1) q p)
          ∙ ap exp (omega arith)
          ∙ ap (λ (t : ℕ). exp (log t + log b)) (sym c.start)
          ∙ exp-log-exp 0 (log b)
          ∙ ap exp (omega arith)
          ∙ c.exp-log b q p

  -- `exp (n - log a)` is the inverse of `a`.
  pub product-inverse : (a : ℕ) → 0 < a → a < bound → product exp log a (exp (n - log a)) ≡ 1
  product-inverse a p q =
      product_pos a (exp (n - log a)) p (c.nonzero _)
      ∙ ap exp (omega arith)
      ∙ exp-log-exp (n - log a) (log a)
      ∙ ap exp (omega (arith, c.log-le a p q))
      ∙ c.turn

  module _ (linear : Linear bound half poly)
      (closed : (a b : ℕ) → a < bound → b < bound → bit_xor a b < bound) where
    shift-zero : shift 0 ≡ 0
    unfolding Linear
    shift-zero =
        let pos : 0 < bound = omega (arith, c.below 0) in linear 0 0 pos pos ∙ xor_self (shift 0)

    steps_zero : (k : ℕ) → steps shift k 0 ≡ 0
    steps_zero zero = refl
    steps_zero (suc k) = rw (steps_zero k) shift-zero

    steps-lt : (k a : ℕ) → a < bound → steps shift k a < bound
    steps-lt k a p = elim (zero-or-pos a) [
      | inl e ↦ rw (e, steps_zero k) (omega arith)
      | inr q ↦ rw (← exp-log-add a k q p) (c.below _)
    ]

    steps-xor :
        (k a b : ℕ)
        → a < bound
        → b < bound
        → steps shift k (bit_xor a b) ≡ bit_xor (steps shift k a) (steps shift k b)
    unfolding Linear
    steps-xor zero a b p q = refl
    steps-xor (suc k) a b p q =
        ap shift (steps-xor k a b p q) ∙ linear _ _ (steps-lt k a p) (steps-lt k b q)

    product-steps : (a d : ℕ) → a < bound → 0 < d → product exp log a d ≡ steps shift (log d) a
    product-steps a d p r = elim (zero-or-pos a) [
      | inl e ↦ rw (e, zero-product d, steps_zero (log d)) refl
      | inr q ↦ product_pos a d q r ∙ exp-log-add a (log d) q p
    ]

    pub xor_product :
        (a b d : ℕ)
        → a < bound
        → b < bound
        → product exp log (bit_xor a b) d ≡ bit_xor (product exp log a d) (product exp log b d)
    xor_product a b d p q = elim (zero-or-pos d) [
      | inl e ↦ rw (e, product-zero a, product-zero b, product-zero (bit_xor a b)) refl
      | inr r ↦
          rw
            (
              product-steps a d p r,
              product-steps b d q r,
              product-steps (bit_xor a b) d (closed a b p q) r,
            )
            (steps-xor (log d) a b p q)
    ]
