-- ===== src/Gf/Minor.antt =====
-- The 2 by 2 minors of a Cauchy matrix, in any field whose addition is its own inverse.
use delp.Prelude.{ℕ, ◌<◌, ◌≡◌, ◌≢◌, sym, ap, ap₂, ◌∙◌, arith}
use delp.Gf.Field.{GfField}
use delp.Gf.Laws.{IsField}

module _ (f : GfField) (h : IsField f) where
  -- An element, and the notation of the field.
  abbrev Below : ℕ → Type 0
  Below a = a < f.order

  infixl 65 ◌⊕◌
  infixl 70 ◌⊗◌
  abbrev ◌⊕◌ : ℕ → ℕ → ℕ
  a ⊕ b = f.add a b

  abbrev ◌⊗◌ : ℕ → ℕ → ℕ
  a ⊗ b = f.mul a b

  pub add-zero : (a : ℕ) → a ⊕ f.zero ≡ a
  add-zero a = h.add_comm a f.zero ∙ h.zero-add a

  pub add_cancel : (a b : ℕ) → a ⊕ (a ⊕ b) ≡ b
  add_cancel a b = sym (h.add_assoc a a b) ∙ ap (λ (t : ℕ). t ⊕ b) (h.add_self a) ∙ h.zero-add b

  pub eq_of_add-eq-zero : (a b : ℕ) → a ⊕ b ≡ f.zero → a ≡ b
  eq_of_add-eq-zero a b e = sym (add-zero a) ∙ ap (f.add a) (sym e) ∙ add_cancel a b

  -- `(a + b) + (a + c)` is `b + c`.
  pub add_cancel_common : (a b c : ℕ) → (a ⊕ b) ⊕ (a ⊕ c) ≡ b ⊕ c
  add_cancel_common a b c =
      ap (λ (t : ℕ). t ⊕ (a ⊕ c)) (h.add_comm a b)
      ∙ h.add_assoc b a (a ⊕ c)
      ∙ ap (f.add b) (add_cancel a c)

  pub mul-add : (a b c : ℕ) → Below a → Below b → Below c → a ⊗ (b ⊕ c) ≡ (a ⊗ b) ⊕ (a ⊗ c)
  mul-add a b c p q r =
      h.mul_comm a (b ⊕ c) p (h.add-lt b c q r)
      ∙ h.add-mul b c a q r p
      ∙ ap₂ f.add (h.mul_comm b a q p) (h.mul_comm c a r p)

  -- The determinant of the four sums `d`, `d + e`, `d + k`, `d + e + k`.
  minor_sums :
      (d e k : ℕ) → Below d → Below e → Below k → (d ⊗ ((d ⊕ e) ⊕ k)) ⊕ ((d ⊕ k) ⊗ (d ⊕ e)) ≡ k ⊗ e
  minor_sums d e k p q r =
      let de = d ⊕ e in
      let pq : Below (d ⊕ e) = h.add-lt d e p q in
      ap₂ f.add (mul-add d de k p pq r) (h.add-mul d k de p r pq)
      ∙ add_cancel_common (d ⊗ de) (d ⊗ k) (k ⊗ de)
      ∙ ap (f.add (d ⊗ k)) (mul-add k d e r p q ∙ ap (λ (t : ℕ). t ⊕ (k ⊗ e)) (h.mul_comm k d r p))
      ∙ add_cancel (d ⊗ k) (k ⊗ e)

  -- Two nonzero elements have a nonzero product.
  pub mul_nonzero : (a b : ℕ) → Below a → Below b → 0 < a → f.zero ≡ 0 → a ⊗ b ≡ f.zero → b ≡ f.zero
  mul_nonzero a b p q pos z e =
      let (i, _, below, inverse) = h.mul-inv a pos p in
      sym (h.one-mul b q)
      ∙ ap (λ (t : ℕ). t ⊗ b) (sym inverse ∙ h.mul_comm a i p below)
      ∙ h.mul_assoc i a b below p q
      ∙ ap (f.mul i) e
      ∙ ap (f.mul i) z
      ∙ h.mul_comm i 0 below (omega arith)
      ∙ ap (λ (t : ℕ). t ⊗ i) (sym z)
      ∙ h.zero-mul i

  mul_exchange :
      (a b c d : ℕ) → Below a → Below b → Below c → Below d → (a ⊗ b) ⊗ (c ⊗ d) ≡ (a ⊗ c) ⊗ (b ⊗ d)
  mul_exchange a b c d p q r s =
      h.mul_assoc a b (c ⊗ d) p q (h.mul-lt c d r s)
      ∙ ap (f.mul a) (
          sym (h.mul_assoc b c d q r s)
          ∙ ap (λ (t : ℕ). t ⊗ d) (h.mul_comm b c q r)
          ∙ h.mul_assoc c b d r q s)
      ∙ sym (h.mul_assoc a c (b ⊗ d) p r (h.mul-lt b d q s))

  -- The product of two inverses is inverse to the product.
  inverse_product :
      (a b c d : ℕ)
      → Below a
      → Below b
      → Below c
      → Below d
      → a ⊗ c ≡ f.one
      → b ⊗ d ≡ f.one
      → Below f.one
      → (a ⊗ b) ⊗ (c ⊗ d) ≡ f.one
  inverse_product a b c d p q r s e k one =
      mul_exchange a b c d p q r s ∙ ap₂ f.mul e k ∙ h.one-mul f.one one

  -- Elements with a common inverse are equal.
  eq_of_common-inverse :
      (a b c : ℕ) → Below a → Below b → Below c → a ⊗ c ≡ f.one → b ⊗ c ≡ f.one → a ≡ b
  eq_of_common-inverse a b c p q r e k =
      sym (h.one-mul a p)
      ∙ ap (λ (t : ℕ). t ⊗ a) (sym k)
      ∙ h.mul_assoc b c a q r p
      ∙ ap (f.mul b) (h.mul_comm c a r p ∙ e)
      ∙ h.mul_comm b f.one q (one_below a c p r e)
      ∙ h.one-mul b q
    where
      one_below : (x y : ℕ) → Below x → Below y → x ⊗ y ≡ f.one → Below f.one
      one_below x y m n w = rw (← w) (h.mul-lt x y m n)

  -- The four coefficients of two rows `x` and two columns `y`.
  pub record IsCauchy (x0 x1 y0 y1 a00 a01 a10 a11 : ℕ) : Type 0 where
    pub points : Below x0 × Below x1 × Below y0 × Below y1
    pub entries : Below a00 × Below a01 × Below a10 × Below a11
    pub inverse00 : (x0 ⊕ y0) ⊗ a00 ≡ f.one
    pub inverse01 : (x0 ⊕ y1) ⊗ a01 ≡ f.one
    pub inverse10 : (x1 ⊕ y0) ⊗ a10 ≡ f.one
    pub inverse11 : (x1 ⊕ y1) ⊗ a11 ≡ f.one

  module _ {x0 x1 y0 y1 a00 a01 a10 a11 : ℕ} (c : IsCauchy x0 x1 y0 y1 a00 a01 a10 a11)
      (zero : f.zero ≡ 0) where
    equal_products :
        (a00 ⊗ a11) ⊕ (a01 ⊗ a10) ≡ f.zero → (x0 ⊕ y0) ⊗ (x1 ⊕ y1) ≡ (x0 ⊕ y1) ⊗ (x1 ⊕ y0)
    equal_products e =
        let (p, q, r, s) = c.points in
        let (i, j, k, l) = c.entries in
        let d00 = h.add-lt x0 y0 p r in
        let d01 = h.add-lt x0 y1 p s in
        let d10 = h.add-lt x1 y0 q r in
        let d11 = h.add-lt x1 y1 q s in
        let one : Below f.one = rw (← c.inverse00) (h.mul-lt (x0 ⊕ y0) a00 d00 i) in
        let same = eq_of_add-eq-zero (a00 ⊗ a11) (a01 ⊗ a10) e in
        eq_of_common-inverse ((x0 ⊕ y0) ⊗ (x1 ⊕ y1)) ((x0 ⊕ y1) ⊗ (x1 ⊕ y0)) (a00 ⊗ a11)
          (h.mul-lt _ _ d00 d11) (h.mul-lt _ _ d01 d10) (h.mul-lt _ _ i l)
          (inverse_product _ _ _ _ d00 d11 i l c.inverse00 c.inverse11 one)
          (ap (f.mul ((x0 ⊕ y1) ⊗ (x1 ⊕ y0))) same
            ∙ inverse_product _ _ _ _ d01 d10 j k c.inverse01 c.inverse10 one)

    -- The product of the two differences vanishes if the determinant does.
    pub determinant-zero : (a00 ⊗ a11) ⊕ (a01 ⊗ a10) ≡ f.zero → (y0 ⊕ y1) ⊗ (x0 ⊕ x1) ≡ f.zero
    determinant-zero e =
        let (p, q, r, s) = c.points in
        let d = x0 ⊕ y0 in
        let shift_x : d ⊕ (x0 ⊕ x1) ≡ x1 ⊕ y0 = add_cancel_common x0 y0 x1 ∙ h.add_comm y0 x1 in
        let shift_y : d ⊕ (y0 ⊕ y1) ≡ x0 ⊕ y1 =
          ap (λ (t : ℕ). t ⊕ (y0 ⊕ y1)) (h.add_comm x0 y0) ∙ add_cancel_common y0 x0 y1 in
        let both : (d ⊕ (x0 ⊕ x1)) ⊕ (y0 ⊕ y1) ≡ x1 ⊕ y1 =
          ap (λ (t : ℕ). t ⊕ (y0 ⊕ y1)) (shift_x ∙ h.add_comm x1 y0) ∙ add_cancel_common y0 x1 y1 in
        sym (
          minor_sums d (x0 ⊕ x1) (y0 ⊕ y1) (h.add-lt x0 y0 p r) (h.add-lt x0 x1 p q)
            (h.add-lt y0 y1 r s))
        ∙ ap₂ f.add (ap (f.mul d) both) (ap₂ f.mul shift_y shift_x)
        ∙ ap (λ (t : ℕ). f.add t ((x0 ⊕ y1) ⊗ (x1 ⊕ y0))) (equal_products e)
        ∙ h.add_self ((x0 ⊕ y1) ⊗ (x1 ⊕ y0))

    -- A minor of distinct rows and distinct columns is regular.
    pub minor-regular : x0 ≢ x1 → y0 ≢ y1 → (a00 ⊗ a11) ⊕ (a01 ⊗ a10) ≢ f.zero
    minor-regular x_ne y_ne e =
        let (p, q, r, s) = c.points in
        let pos : 0 < y0 ⊕ y1 =
          positive (y0 ⊕ y1) (λ z. y_ne (eq_of_add-eq-zero y0 y1 (z ∙ sym zero))) in
        x_ne (
          eq_of_add-eq-zero x0 x1 (
            mul_nonzero (y0 ⊕ y1) (x0 ⊕ x1) (h.add-lt y0 y1 r s) (h.add-lt x0 x1 p q) pos zero
              (determinant-zero e)))
      where
        positive : (n : ℕ) → n ≢ 0 → 0 < n
        positive n ne = omega arith
