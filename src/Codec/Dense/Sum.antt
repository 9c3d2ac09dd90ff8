-- ===== src/Codec/Dense/Sum.antt =====
-- A combination of symbols: the sum over the IDs below a bound, at one place of the symbols, of the
-- symbol's byte times its coefficient.
use delp.Prelude.{
  ℕ, zero, suc, ◌<◌, ◌≡◌, ◌≢◌, refl, sym, ap, ap₂, ◌∙◌, bit_xor, ◌==◌, if◌then◌else◌, Bool-cases,
  inl, inr, arith, zero-xor, xor-zero, xor_exchange, xor_self, xor-lt-pow,
}
use delp.Config.{Field}
use delp.Gf.Action.{order, act}
use delp.Gf.Action.Laws.{act-lt, act-zero, zero-act, act-xor, xor-act, act-act, act-lt-order}

abbrev pub sum_to : ℕ → (ℕ → ℕ) → ℕ
sum_to zero g = 0
sum_to (suc n) g = bit_xor (sum_to n g) (g n)

sum_to_congr : (n : ℕ) (g h : ℕ → ℕ) → ((x : ℕ) → g x ≡ h x) → sum_to n g ≡ sum_to n h
sum_to_congr zero g h e = refl
sum_to_congr (suc n) g h e = ap₂ bit_xor (sum_to_congr n g h e) (e n)

sum_to-xor :
    (n : ℕ) (g h : ℕ → ℕ) → sum_to n (λ x. bit_xor (g x) (h x)) ≡ bit_xor (sum_to n g) (sum_to n h)
sum_to-xor zero g h = refl
sum_to-xor (suc n) g h =
    ap (λ (t : ℕ). bit_xor t (bit_xor (g n) (h n))) (sum_to-xor n g h)
    ∙ xor_exchange (sum_to n g) (sum_to n h) (g n) (h n)

sum_to-lt : (n : ℕ) (g : ℕ → ℕ) → ((x : ℕ) → g x < 256) → sum_to n g < 256
sum_to-lt zero g h = omega arith
sum_to-lt (suc n) g h = xor-lt-pow 8 (sum_to n g) (g n) (sum_to-lt n g h) (h n)

act-sum_to :
    (f : Field) (c n : ℕ) (g : ℕ → ℕ)
    → c < order f
    → ((x : ℕ) → g x < 256)
    → act f c (sum_to n g) ≡ sum_to n (λ x. act f c (g x))
act-sum_to f c zero g p h = act-zero f c
act-sum_to f c (suc n) g p h =
    act-xor f c (sum_to n g) (g n) p (sum_to-lt n g h) (h n)
    ∙ ap (λ (t : ℕ). bit_xor t (act f c (g n))) (act-sum_to f c n g p h)

-- A sum of zeros, and of zeros but for one place.
sum_to-zeros : (n : ℕ) (g : ℕ → ℕ) → ((x : ℕ) → x < n → g x ≡ 0) → sum_to n g ≡ 0
sum_to-zeros zero g h = refl
sum_to-zeros (suc n) g h =
    ap₂ bit_xor (sum_to-zeros n g (λ x k. h x (omega arith))) (h n (omega arith))

sum_to-single : (n p : ℕ) (g : ℕ → ℕ) → p < n → ((x : ℕ) → x ≢ p → g x ≡ 0) → sum_to n g ≡ g p
sum_to-single zero p g k h = absurd (omega arith)
sum_to-single (suc n) p g k h = elim (Bool-cases (n == p)) [
  | inl e ↦
      let same : n ≡ p = ground arith in
      ap₂ bit_xor (sum_to-zeros n g (λ x l. h x (λ q. absurd (omega arith)))) (ap g same)
      ∙ zero-xor (g p)
  | inr e ↦
      let other : n ≢ p = λ q. absurd (ground arith) in
      ap₂ bit_xor (sum_to-single n p g (ground arith) h) (h n other) ∙ xor-zero (g p)
]

abbrev pub combination : Field → ℕ → (ℕ → ℕ) → (ℕ → ℕ) → ℕ
combination f n coef byte = sum_to n (λ x. act f (coef x) (byte x))

abbrev pub Scalars : Field → (ℕ → ℕ) → Type 0
Scalars f coef = (x : ℕ) → coef x < order f

abbrev pub Bytes : (ℕ → ℕ) → Type 0
Bytes byte = (x : ℕ) → byte x < 256

module _ (f : Field) (n : ℕ) (byte : ℕ → ℕ) (bytes : Bytes byte) where
  pub combination-lt : (coef : ℕ → ℕ) → Scalars f coef → combination f n coef byte < 256
  combination-lt coef s =
      sum_to-lt n (λ x. act f (coef x) (byte x)) (λ x. act-lt f (coef x) (byte x) (s x) (bytes x))

  pub combination-scaled :
      (coef scaled : ℕ → ℕ) (c : ℕ)
      → Scalars f coef
      → c < order f
      → ((x : ℕ) → scaled x ≡ act f c (coef x))
      → combination f n scaled byte ≡ act f c (combination f n coef byte)
  combination-scaled coef scaled c s p e =
      sum_to_congr n (λ x. act f (scaled x) (byte x)) (λ x. act f c (act f (coef x) (byte x)))
        (λ x.
          ap (λ (t : ℕ). act f t (byte x)) (e x)
          ∙ sym (act-act f c (coef x) (byte x) p (s x) (bytes x)))
      ∙ sym (
          act-sum_to f c n (λ x. act f (coef x) (byte x)) p
            (λ x. act-lt f (coef x) (byte x) (s x) (bytes x)))

  pub combination-acc :
      (left right both : ℕ → ℕ) (c : ℕ)
      → Scalars f left
      → Scalars f right
      → c < order f
      → ((x : ℕ) → both x ≡ bit_xor (left x) (act f c (right x)))
      → combination f n both byte
        ≡ bit_xor (combination f n left byte) (act f c (combination f n right byte))
  combination-acc left right both c s r p e =
      sum_to_congr n (λ x. act f (both x) (byte x))
        (λ x. bit_xor (act f (left x) (byte x)) (act f (act f c (right x)) (byte x)))
        (λ x.
          ap (λ (t : ℕ). act f t (byte x)) (e x)
          ∙ xor-act f (left x) (act f c (right x)) (byte x) (s x)
              (act-lt-order f c (right x) p (r x)) (bytes x))
      ∙ sum_to-xor n (λ x. act f (left x) (byte x)) (λ x. act f (act f c (right x)) (byte x))
      ∙ ap (bit_xor (combination f n left byte))
          (combination-scaled right (λ x. act f c (right x)) c r p (λ x. refl))

  pub combination_congr :
      (coef other : ℕ → ℕ)
      → ((x : ℕ) → coef x ≡ other x)
      → combination f n coef byte ≡ combination f n other byte
  combination_congr coef other e =
      sum_to_congr n (λ x. act f (coef x) (byte x)) (λ x. act f (other x) (byte x))
        (λ x. ap (λ (c : ℕ). act f c (byte x)) (e x))

  pub combination-zero : combination f n (λ x. 0) byte ≡ 0
  combination-zero = sum_to-zeros n (λ x. act f 0 (byte x)) (λ x k. zero-act f (byte x) (bytes x))

  pub combination-single :
      (coef : ℕ → ℕ) (p : ℕ)
      → p < n
      → ((x : ℕ) → x ≢ p → coef x ≡ 0)
      → combination f n coef byte ≡ act f (coef p) (byte p)
  combination-single coef p k e =
      sum_to-single n p (λ x. act f (coef x) (byte x)) k
        (λ x d. ap (λ (t : ℕ). act f t (byte x)) (e x d) ∙ zero-act f (byte x) (bytes x))

  -- The share of one ID goes to the other side.
  pub combination-without :
      (coef rest : ℕ → ℕ) (p : ℕ)
      → p < n
      → ((x : ℕ) → rest x ≡ (if x == p then 0 else coef x))
      → combination f n rest byte ≡ bit_xor (combination f n coef byte) (act f (coef p) (byte p))
  combination-without coef rest p k e =
      sum_to_congr n (λ x. act f (rest x) (byte x))
        (λ x. bit_xor (act f (coef x) (byte x)) (share x)) split
      ∙ sum_to-xor n (λ x. act f (coef x) (byte x)) share
      ∙ ap (bit_xor (combination f n coef byte)) (sum_to-single n p share k outside ∙ inside p refl)
    where
      share : ℕ → ℕ
      share x = if x == p then act f (coef p) (byte p) else 0

      outside : (x : ℕ) → x ≢ p → share x ≡ 0
      outside x d = ground arith

      inside : (x : ℕ) → x ≡ p → share x ≡ act f (coef p) (byte p)
      inside x d = ground arith

      split : (x : ℕ) → act f (rest x) (byte x) ≡ bit_xor (act f (coef x) (byte x)) (share x)
      split x = elim (Bool-cases (x == p)) [
        | inl t ↦
            let same : x ≡ p = ground arith in
            let gone : rest x ≡ 0 = e x ∙ rw t refl in
            ap (λ (c : ℕ). act f c (byte x)) gone
            ∙ zero-act f (byte x) (bytes x)
            ∙ sym (xor_self (act f (coef x) (byte x)))
            ∙ ap (bit_xor (act f (coef x) (byte x)))
                (ap (λ (y : ℕ). act f (coef y) (byte y)) same ∙ sym (inside x same))
        | inr t ↦
            let kept : rest x ≡ coef x = e x ∙ rw t refl in
            ap (λ (c : ℕ). act f c (byte x)) kept
            ∙ sym (xor-zero (act f (coef x) (byte x)))
            ∙ ap (bit_xor (act f (coef x) (byte x))) (rw t refl)
      ]
