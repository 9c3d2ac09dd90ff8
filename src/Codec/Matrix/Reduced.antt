-- ===== src/Codec/Matrix/Reduced.antt =====
-- Rows in reduced form: every row is sound and has the coefficient 1 at its key, where all other
-- rows have none. Inserting and removing a row keep that.
use delp.Prelude.{
  ℕ, ◌+◌, ◌≤◌, ◌<◌, ◌≡◌, Bool-cases, inl, inr, some, [], ◌∷◌, ◌++◌, length, max, ltb, leb, ◌==◌,
  arith,
}
use delp.Error.{Result, ok}
use delp.Codec.Dense.{get}
use delp.Codec.Matrix.{MatrixRow, Rows, Symbols, DecodingMatrix, remove_row, insert_row, row_count}
use delp.Codec.Matrix.Recover.{make_room, solved_keys}
use delp.Codec.Matrix.Sound.{Session, Sound}

-- No row has a coefficient at the ID.
abbrev pub ZeroAt : ℕ → Rows → Type 0
ZeroAt x [] = Unit
ZeroAt x ((key, row) ∷ rows) = (get row.coefs x ≡ 0) × ZeroAt x rows

-- The coefficients are zero at every key.
abbrev pub ZeroOn : (ℕ → ℕ) → Rows → Type 0
ZeroOn c [] = Unit
ZeroOn c ((key, row) ∷ rows) = (c key ≡ 0) × ZeroOn c rows

pub record Live (s : Session) (key : ℕ) (row : MatrixRow) : Type 0 where
  pub sound : Sound s row
  pub pivot : get row.coefs key ≡ 1

abbrev pub Reduced : Session → Rows → Type 0
Reduced s [] = Unit
Reduced s ((key, row) ∷ rows) =
    Live s key row × ZeroAt key rows × ZeroOn (get row.coefs) rows × Reduced s rows

-- Every payload is the symbol of its ID.
abbrev pub AllTrue : Session → Symbols → Type 0
AllTrue s [] = Unit
AllTrue s ((id, payload) ∷ symbols) = (payload ≡ s.symbol id) × AllTrue s symbols

pub AllTrue-append :
    (s : Session) (xs ys : Symbols) → AllTrue s xs → AllTrue s ys → AllTrue s (xs ++ ys)
AllTrue-append s [] ys h k = k
AllTrue-append s ((id, payload) ∷ xs) ys (e, h) k = (e, AllTrue-append s xs ys h k)

pub ZeroOn-weaken :
    (c d : ℕ → ℕ) (rows : Rows) → ((x : ℕ) → c x ≡ 0 → d x ≡ 0) → ZeroOn c rows → ZeroOn d rows
ZeroOn-weaken c d [] w h = tt
ZeroOn-weaken c d ((key, row) ∷ rows) w (e, h) = (w key e, ZeroOn-weaken c d rows w h)

pub remove_row-ZeroAt : (rows : Rows) (pid x : ℕ) → ZeroAt x rows → ZeroAt x (remove_row rows pid).1
unfolding remove_row
remove_row-ZeroAt [] pid x h = tt
remove_row-ZeroAt ((key, row) ∷ rows) pid x (e, h) = elim (Bool-cases (key == pid)) [
  | inl t ↦ rw t h
  | inr t ↦ rw t (e, remove_row-ZeroAt rows pid x h)
]

pub remove_row-ZeroOn :
    (rows : Rows) (pid : ℕ) (c : ℕ → ℕ) → ZeroOn c rows → ZeroOn c (remove_row rows pid).1
unfolding remove_row
remove_row-ZeroOn [] pid c h = tt
remove_row-ZeroOn ((key, row) ∷ rows) pid c (e, h) = elim (Bool-cases (key == pid)) [
  | inl t ↦ rw t h
  | inr t ↦ rw t (e, remove_row-ZeroOn rows pid c h)
]

pub length-remove_row : (rows : Rows) (pid : ℕ) → length (remove_row rows pid).1 ≤ length rows
unfolding remove_row
length-remove_row [] pid = omega arith
length-remove_row ((key, row) ∷ rows) pid = elim (Bool-cases (key == pid)) [
  | inl t ↦ rw t (omega arith)
  | inr t ↦ rw t (omega (arith, length-remove_row rows pid))
]

-- What a found row's key and coefficients take over from the others.
pub remove_row-found_zeros :
    (rows : Rows) (pid : ℕ) (row : MatrixRow)
    → (remove_row rows pid).0 ≡ some row
    → ((c : ℕ → ℕ) → ZeroOn c rows → c pid ≡ 0)
      × ((x : ℕ) → ZeroAt x rows → get row.coefs x ≡ 0)
      × (length (remove_row rows pid).1 < length rows)
unfolding remove_row
remove_row-found_zeros [] pid row e = absurd (ground arith)
remove_row-found_zeros ((key, other) ∷ rows) pid row e = elim (Bool-cases (key == pid)) [
  | inl t ↦
      let here : some other ≡ some row = rw t at e in
      let same : key ≡ pid = ground arith in
      let found : other ≡ row = cc in
      (λ c (z, h). rw (← same) z, λ x (z, h). rw (← found) z, rw t (omega arith))
  | inr t ↦
      let there : (remove_row rows pid).0 ≡ some row = rw t at e in
      let (on, at, shorter) = remove_row-found_zeros rows pid row there in
      (λ c (z, h). on c h, λ x (z, h). at x h, rw t (omega arith))
]

pub length-remove_row-found :
    (rows : Rows) (pid : ℕ) (row : MatrixRow)
    → (remove_row rows pid).0 ≡ some row
    → length (remove_row rows pid).1 < length rows
length-remove_row-found rows pid row e = (remove_row-found_zeros rows pid row e).2

module _ (s : Session) where
  pub remove_row-Reduced :
      (rows : Rows) (pid : ℕ) → Reduced s rows → Reduced s (remove_row rows pid).1
  unfolding remove_row
  remove_row-Reduced [] pid h = tt
  remove_row-Reduced ((key, row) ∷ rows) pid (live, at, on, h) = elim (Bool-cases (key == pid)) [
    | inl t ↦ rw t h
    | inr t ↦ rw t (
      live,
      remove_row-ZeroAt rows pid key at,
      remove_row-ZeroOn rows pid (get row.coefs) on,
      remove_row-Reduced rows pid h,
    )
  ]

  -- A row that is taken out is apart from those left.
  pub remove_row-found :
      (rows : Rows) (pid : ℕ) (row : MatrixRow)
      → (remove_row rows pid).0 ≡ some row
      → Reduced s rows
      → Live s pid row
        × ZeroAt pid (remove_row rows pid).1
        × ZeroOn (get row.coefs) (remove_row rows pid).1
  unfolding remove_row
  remove_row-found [] pid row e h = absurd (ground arith)
  remove_row-found ((key, other) ∷ rows) pid row e (live, at, on, h) =
      elim (Bool-cases (key == pid)) [
        | inl t ↦
            let here : some other ≡ some row = rw t at e in
            let same : key ≡ pid = ground arith in
            let found : other ≡ row = cc in rw t (rw (← same, ← found) (live, at, on))
        | inr t ↦
            let there : (remove_row rows pid).0 ≡ some row = rw t at e in
            let (on_zero, at_zero, shorter) = remove_row-found_zeros rows pid row there in
            let (ih_live, ih_at, ih_on) = remove_row-found rows pid row there h in
            rw t (ih_live, (on_zero (get other.coefs) on, ih_at), (at_zero key at, ih_on))
      ]

  insert_row-ZeroAt :
      (rows : Rows) (pid x : ℕ) (row : MatrixRow)
      → get row.coefs x ≡ 0
      → ZeroAt x rows
      → ZeroAt x (insert_row rows pid row)
  unfolding insert_row
  insert_row-ZeroAt [] pid x row z h = (z, tt)
  insert_row-ZeroAt ((key, other) ∷ rows) pid x row z (e, h) = elim (Bool-cases (ltb pid key)) [
    | inl t ↦ rw t (z, (e, h))
    | inr t ↦ elim (Bool-cases (pid == key)) [
      | inl u ↦ rw (t, u) (z, h)
      | inr u ↦ rw (t, u) (e, insert_row-ZeroAt rows pid x row z h)
    ]
  ]

  insert_row-ZeroOn :
      (rows : Rows) (pid : ℕ) (c : ℕ → ℕ) (row : MatrixRow)
      → c pid ≡ 0
      → ZeroOn c rows
      → ZeroOn c (insert_row rows pid row)
  unfolding insert_row
  insert_row-ZeroOn [] pid c row z h = (z, tt)
  insert_row-ZeroOn ((key, other) ∷ rows) pid c row z (e, h) = elim (Bool-cases (ltb pid key)) [
    | inl t ↦ rw t (z, (e, h))
    | inr t ↦ elim (Bool-cases (pid == key)) [
      | inl u ↦ rw (t, u) (z, h)
      | inr u ↦ rw (t, u) (e, insert_row-ZeroOn rows pid c row z h)
    ]
  ]

  pub insert_row-Reduced :
      (rows : Rows) (pid : ℕ) (row : MatrixRow)
      → Live s pid row
      → ZeroAt pid rows
      → ZeroOn (get row.coefs) rows
      → Reduced s rows
      → Reduced s (insert_row rows pid row)
  unfolding insert_row
  insert_row-Reduced [] pid row live at on h = (live, tt, tt, tt)
  insert_row-Reduced ((key, other) ∷ rows) pid row live (z, at) (w, on) (old, old_at, old_on, h) =
      elim (Bool-cases (ltb pid key)) [
        | inl t ↦ rw t (live, (z, at), (w, on), (old, old_at, old_on, h))
        | inr t ↦ elim (Bool-cases (pid == key)) [
          | inl u ↦ rw (t, u) (live, at, on, h)
          | inr u ↦
              rw (t, u)
                (
                  old,
                  insert_row-ZeroAt rows pid key row w old_at,
                  insert_row-ZeroOn rows pid (get other.coefs) row z old_on,
                  insert_row-Reduced rows pid row live at on h,
                )
        ]
      ]

  -- Making room drops the first row or none.
  pub make_room-Reduced :
      (m : DecodingMatrix) (rows : Rows) (x : ℕ) (c : ℕ → ℕ)
      → Reduced s rows
      → ZeroAt x rows
      → ZeroOn c rows
      → Reduced s (make_room m rows) × ZeroAt x (make_room m rows) × ZeroOn c (make_room m rows)
  unfolding make_room
  make_room-Reduced m [] x c h at on = (tt, tt, tt)
  make_room-Reduced m ((key, row) ∷ rows) x c h at on =
      elim (Bool-cases (leb m.max_rows (length ((key, row) ∷ rows)))) [
        | inl t ↦ rw t (h.3, at.1, on.1)
        | inr t ↦ rw t (h, at, on)
      ]

  length-insert_row :
      (rows : Rows) (pid : ℕ) (row : MatrixRow) → length (insert_row rows pid row) ≤ length rows + 1
  unfolding insert_row
  length-insert_row [] pid row = omega arith
  length-insert_row ((key, other) ∷ rows) pid row =
      let ih = length-insert_row rows pid row in ground arith

  pub length-insert_row-make_room :
      (m : DecodingMatrix) (rows : Rows) (pid : ℕ) (row : MatrixRow)
      → length (insert_row (make_room m rows) pid row) ≤ max (length rows) (max m.max_rows 1)
  unfolding make_room
  length-insert_row-make_room m [] pid row = omega (arith, length-insert_row [] pid row)
  length-insert_row-make_room m ((key, other) ∷ rows) pid row =
      elim (Bool-cases (leb m.max_rows (length ((key, other) ∷ rows)))) [
        | inl t ↦ rw t (omega (arith, length-insert_row rows pid row))
        | inr t ↦
            let room : length ((key, other) ∷ rows) < m.max_rows = ground arith in
            rw t (omega (arith, length-insert_row ((key, other) ∷ rows) pid row))
      ]

  -- The result of a call: the true symbols that it returns, and rows in reduced form, none of which
  -- is solved, and not more of them than before or than the limit, or one.
  pub record Recovers (m : DecodingMatrix) (result : Result (Symbols × DecodingMatrix))
      : Type 0 where
    pub recovered : Symbols
    pub next : DecodingMatrix
    pub returns : result ≡ ok (recovered, next)
    pub all_true : AllTrue s recovered
    pub reduced : Reduced s next.rows
    pub complete : solved_keys next.rows ≡ []
    pub bounded : row_count next ≤ max (row_count m) (max m.max_rows 1)
