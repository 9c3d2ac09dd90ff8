-- ===== src/Codec/Dense/Pivot.antt =====
-- Which coefficients of a row are zero, and what `is_solved`, `pivot_id` and `pivot_coef` find.
use delp.Prelude.{
  ℕ, zero, suc, ◌+◌, ◌-◌, ◌<◌, ◌≡◌, ◌≢◌, refl, ap, ◌∙◌, true, false, some, List, [], ◌∷◌, get_or,
  ltb, ◌==◌, Bool-cases, inl, inr, arith,
}
use mathlib.Core.Option
use delp.Codec.Dense.{
  DenseCoefs, get, all_zero, only_nonzero, first_nonzero, is_solved, is_zero, pivot_id, pivot_coef,
}

all_zero-entries : (xs : List ℕ) (j : ℕ) → all_zero xs ≡ true → get_or xs j 0 ≡ 0
unfolding all_zero
all_zero-entries [] j h = refl
all_zero-entries (x ∷ xs) zero h = ground arith
all_zero-entries (x ∷ xs) (suc j) h = all_zero-entries xs j (ground arith)

only_nonzero-entries :
    (xs : List ℕ) (base id j : ℕ)
    → only_nonzero base xs ≡ some id
    → base + j ≢ id
    → get_or xs j 0 ≡ 0
unfolding only_nonzero
only_nonzero-entries [] base id j h d = refl
only_nonzero-entries (x ∷ xs) base id zero h d = elim (Bool-cases (x == 0)) [
  | inl t ↦ ground arith
  | inr t ↦ absurd (d (ground arith))
]
only_nonzero-entries (x ∷ xs) base id (suc j) h d = elim (Bool-cases (x == 0)) [
  | inl t ↦ only_nonzero-entries xs (base + 1) id j (ground arith) (λ e. d (omega arith))
  | inr t ↦ all_zero-entries xs j (ground arith)
]

-- A solved row has at most one coefficient.
pub is_solved-get : (d : DenseCoefs) (id x : ℕ) → is_solved d ≡ some id → x ≢ id → get d x ≡ 0
unfolding is_solved get
is_solved-get d id x h ne = elim (Bool-cases (ltb x d.base_id)) [
  | inl t ↦ rw t refl
  | inr t ↦
      rw t (only_nonzero-entries d.coefs d.base_id id (x - d.base_id) h (λ e. ne (ground arith)))
]

-- So an ID with a coefficient is the one that it finds.
pub is_solved-pivot : (d : DenseCoefs) (id x : ℕ) → is_solved d ≡ some id → get d x ≢ 0 → x ≡ id
is_solved-pivot d id x h ne = elim (Bool-cases (x == id)) [
  | inl t ↦ ground arith
  | inr t ↦ absurd (ne (is_solved-get d id x h (λ e. absurd (ground arith))))
]

first_entry :
    (xs : List ℕ)
    → all_zero xs ≡ false
    → (i : ℕ) × (0 < get_or xs i 0) × ((j : ℕ) → j < i → get_or xs j 0 ≡ 0)
unfolding all_zero
first_entry [] h = absurd (cc)
first_entry (x ∷ xs) h = elim (Bool-cases (x == 0)) [
  | inl t ↦
      let (i, pos, before) = first_entry xs (ground arith) in
      (suc i, pos, go i (ground arith) before)
  | inr t ↦ (0, ground arith, λ j k. absurd (omega arith))
]
  where
    go :
        (i : ℕ)
        → x ≡ 0
        → ((j : ℕ) → j < i → get_or xs j 0 ≡ 0)
        → (j : ℕ) → j < suc i
        → get_or (x ∷ xs) j 0 ≡ 0
    go i z before zero k = z
    go i z before (suc j) k = before j (omega arith)

first_nonzero_at :
    (xs : List ℕ) (base i : ℕ)
    → 0 < get_or xs i 0
    → ((j : ℕ) → j < i → get_or xs j 0 ≡ 0)
    → first_nonzero base xs ≡ some (base + i, get_or xs i 0)
unfolding first_nonzero
first_nonzero_at [] base i pos before = absurd (omega arith)
first_nonzero_at (x ∷ xs) base zero pos before =
    let e : base + 0 ≡ base = omega arith in rw e (ground arith)
first_nonzero_at (x ∷ xs) base (suc i) pos before =
    let e : base + 1 + i ≡ base + suc i = omega arith in
    let z : x ≡ 0 = before 0 (omega arith) in
    rw z (
      first_nonzero_at xs (base + 1) i pos (λ j k. before (suc j) (omega arith))
      ∙ ap (λ (n : ℕ). some (n, get_or xs i 0)) e)

-- The first coefficient of a row: its ID, and that those before it are zero.
pub record IsPivot (d : DenseCoefs) (pid : ℕ) : Type 0 where
  pub covered : d.base_id < suc pid
  pub nonzero : 0 < get d pid
  pub before : (x : ℕ) → x < pid → get d x ≡ 0

pub is_zero-IsPivot : (d : DenseCoefs) → is_zero d ≡ false → (pid : ℕ) × IsPivot d pid
unfolding is_zero get
is_zero-IsPivot d h =
    let (i, pos, before) = first_entry d.coefs h in
    let place : d.base_id + i - d.base_id ≡ i = omega arith in
    (
      d.base_id + i,
      record {
        covered = omega arith;
        nonzero = ground arith;
        before = λ x k. ground (arith, before (x - d.base_id));
      },
    )

pub IsPivot-pivot :
    (d : DenseCoefs) (pid : ℕ)
    → IsPivot d pid
    → (pivot_id d ≡ some pid) × (pivot_coef d ≡ some (get d pid))
unfolding pivot_id pivot_coef get
IsPivot-pivot d pid p =
    let i = pid - d.base_id in
    let covered = p.covered in
    let whole : d.base_id + i ≡ pid = omega arith in
    let at : ltb pid d.base_id ≡ false = ground arith in
    let nonzero = p.nonzero in
    let e : first_nonzero d.base_id d.coefs ≡ some (d.base_id + i, get_or d.coefs i 0) =
      first_nonzero_at d.coefs d.base_id i (ground arith) (λ j k.
        let back : d.base_id + j - d.base_id ≡ j = omega arith in
        let zeroed = p.before (d.base_id + j) (omega arith) in ground arith) in
    (ap (Option.map (λ q. q.0)) e ∙ ap some whole, ap (Option.map (λ q. q.1)) e ∙ rw at refl)
