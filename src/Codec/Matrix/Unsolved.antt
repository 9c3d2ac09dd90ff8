-- ===== src/Codec/Matrix/Unsolved.antt =====
-- Which rows are solved: before and after a substitution, and when the solved ones are taken out.
use delp.Prelude.{
  ℕ, ◌≡◌, ◌≢◌, refl, sym, ap, ◌∙◌, Bool-cases, inl, inr, Option-cases, none, some, List, [], ◌∷◌,
  ◌++◌, contains, ◌==◌, arith, true, false, ◌⊎◌,
}
use mathlib.Core.Path.{subst}
use delp.Codec.Dense.{get, is_solved}
use delp.Codec.Dense.Pivot.{is_solved-pivot}
use delp.Codec.Matrix.{MatrixRow, Rows, remove_row}
use delp.Codec.Matrix.Recover.{solved_now, solved_keys, take_solved}
use delp.Codec.Matrix.Sound.{Session}
use delp.Codec.Matrix.Reduced.{ZeroOn, Reduced, remove_row-Reduced}

-- No row has the ID as its key.
abbrev pub NotKey : ℕ → Rows → Type 0
NotKey id [] = Unit
NotKey id ((key, row) ∷ rows) = (key ≢ id) × NotKey id rows

abbrev pub Unsolved : Rows → Type 0
Unsolved [] = Unit
Unsolved ((key, row) ∷ rows) = (is_solved row.coefs ≡ none) × Unsolved rows

pub Unsolved-nil : (rows : Rows) → solved_keys rows ≡ [] → Unsolved rows
unfolding solved_keys
Unsolved-nil [] e = tt
Unsolved-nil ((key, row) ∷ rows) e = elim (Option-cases (is_solved row.coefs)) [
  | inl t ↦ (t, Unsolved-nil rows (rw (t, solved_keys) at e))
  | inr (id, t) ↦ let clash : key ∷ solved_keys rows ≡ [] = rw (t, solved_keys) at e in absurd (cc)
]

pub solved_keys-Unsolved : (rows : Rows) → Unsolved rows → solved_keys rows ≡ []
unfolding solved_keys
solved_keys-Unsolved [] h = refl
solved_keys-Unsolved ((key, row) ∷ rows) (e, h) = rw (e, solved_keys) (solved_keys-Unsolved rows h)

-- Every row that is solved has its key in the list.
abbrev pub Listed : List ℕ → Rows → Type 0
Listed ids [] = Unit
Listed ids ((key, row) ∷ rows) =
    ((is_solved row.coefs ≡ none) ⊎ (contains ids key ≡ true)) × Listed ids rows

Listed-cons : (ids : List ℕ) (id : ℕ) (rows : Rows) → Listed ids rows → Listed (id ∷ ids) rows
Listed-cons ids id [] h = tt
Listed-cons ids id ((key, row) ∷ rows) (inl e, h) = (inl e, Listed-cons ids id rows h)
Listed-cons ids id ((key, row) ∷ rows) (inr e, h) = (inr (ground arith), Listed-cons ids id rows h)

Listed-nil : (rows : Rows) → Listed [] rows → Unsolved rows
Listed-nil [] h = tt
Listed-nil ((key, row) ∷ rows) (inl e, h) = (e, Listed-nil rows h)
Listed-nil ((key, row) ∷ rows) (inr e, h) = absurd (cc)

Listed-NotKey :
    (ids : List ℕ) (id : ℕ) (rows : Rows)
    → NotKey id rows
    → Listed (id ∷ ids) rows
    → Listed ids rows
Listed-NotKey ids id [] k h = tt
Listed-NotKey ids id ((key, row) ∷ rows) (ne, k) (inl e, h) = (inl e, Listed-NotKey ids id rows k h)
Listed-NotKey ids id ((key, row) ∷ rows) (ne, k) (inr e, h) =
    (inr (ground arith), Listed-NotKey ids id rows k h)

ZeroOn-NotKey : (c : ℕ → ℕ) (id : ℕ) (rows : Rows) → ZeroOn c rows → c id ≢ 0 → NotKey id rows
ZeroOn-NotKey c id [] h ne = tt
ZeroOn-NotKey c id ((key, row) ∷ rows) (e, h) ne =
    ((λ same. absurd (ne (ap c (sym same) ∙ e))), ZeroOn-NotKey c id rows h ne)

-- A row taken out strikes its key off the list.
remove_row-Listed :
    (s : Session) (ids : List ℕ) (id : ℕ) (rows : Rows)
    → Reduced s rows
    → Listed (id ∷ ids) rows
    → Listed ids (remove_row rows id).1
unfolding remove_row
remove_row-Listed s ids id [] h k = tt
remove_row-Listed s ids id ((key, row) ∷ rows) (live, at, on, h) (e, k) =
    elim (Bool-cases (key == id)) [
      | inl t ↦
          let same : key ≡ id = ground arith in
          let nonzero : get row.coefs id ≢ 0 =
            rw (← same) (λ z. absurd (omega (arith, live.pivot))) in
          rw t (Listed-NotKey ids id rows (ZeroOn-NotKey (get row.coefs) id rows on nonzero) k)
      | inr t ↦ rw t (strike e t, remove_row-Listed s ids id rows h k)
    ]
  where
    strike :
        (is_solved row.coefs ≡ none) ⊎ (contains (id ∷ ids) key ≡ true)
        → (key == id) ≡ false
        → (is_solved row.coefs ≡ none) ⊎ (contains ids key ≡ true)
    strike (inl u) t = inl u
    strike (inr u) t = inr (ground arith)

pub take_solved-Unsolved :
    (s : Session) (ids : List ℕ) (rows : Rows) (known : List ℕ)
    → Reduced s rows
    → Listed ids rows
    → Unsolved (take_solved ids rows known).2
unfolding take_solved
take_solved-Unsolved s [] rows known h k = Listed-nil rows k
take_solved-Unsolved s (id ∷ ids) rows known h k =
    let left =
      take_solved-Unsolved s ids (remove_row rows id).1 known (remove_row-Reduced s rows id h)
        (remove_row-Listed s ids id rows h k) in
    elim (Option-cases (remove_row rows id).0) [
      | inl e ↦ rw (e, take_solved) left
      | inr (row, e) ↦ rw (e, take_solved) left
    ]

solved_now_unchanged : (row : MatrixRow) → solved_now 0 row ≡ []
unfolding solved_now
solved_now_unchanged row = ground arith

solved_now-none : (c : ℕ) (row : MatrixRow) → is_solved row.coefs ≡ none → solved_now c row ≡ []
unfolding solved_now
solved_now-none c row e = rw (e, solved_now) (ground arith)

solved_now-some :
    (c id : ℕ) (row : MatrixRow)
    → (c == 0) ≡ false
    → is_solved row.coefs ≡ some id
    → solved_now c row ≡ id ∷ []
unfolding solved_now
solved_now-some c id row t e = rw (t, e, solved_now) refl

-- A row that the substitution changes is listed if it is solved now.
pub solved_now-Listed :
    (c key : ℕ) (row next : MatrixRow) (ids : List ℕ) (rows : Rows)
    → get next.coefs key ≡ 1
    → (c ≡ 0 → next ≡ row)
    → is_solved row.coefs ≡ none
    → Listed ids rows
    → Listed (solved_now c next ++ ids) ((key, next) ∷ rows)
solved_now-Listed c key row next ids rows one untouched unsolved h = elim (Bool-cases (c == 0)) [
  | inl t ↦
      let z : c ≡ 0 = ground arith in
      let same = untouched z in
      let pushed : solved_now c next ≡ [] =
        ap (λ (n : ℕ). solved_now n next) z ∙ solved_now_unchanged next in
      subst goal (sym pushed) (inl (ap (λ (r : MatrixRow). is_solved r.coefs) same ∙ unsolved), h)
  | inr t ↦ elim (Option-cases (is_solved next.coefs)) [
    | inl e ↦ subst goal (sym (solved_now-none c next e)) (inl e, h)
    | inr (id, e) ↦
        let live : get next.coefs key ≢ 0 = λ z. absurd (omega (arith, one)) in
        let same : key ≡ id = is_solved-pivot next.coefs id key e live in
        subst goal (sym (solved_now-some c id next t e))
          (inr (ground arith), Listed-cons ids id rows h)
  ]
]
  where
    goal : List ℕ → Type 0
    goal pushed = Listed (pushed ++ ids) ((key, next) ∷ rows)
