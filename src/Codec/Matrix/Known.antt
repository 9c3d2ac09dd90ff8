-- ===== src/Codec/Matrix/Known.antt =====
-- A source symbol becomes known: `add_known_source` on rows in reduced form.
use delp.Prelude.{
  ℕ, zero, suc, ◌≤◌, ◌≡◌, ◌≢◌, refl, sym, ap, ◌∙◌, Bool-cases, inl, inr, Option-cases, some, List,
  [], ◌∷◌, ◌++◌, length, map, contains, ◌==◌, if◌then◌else◌, arith,
}
use delp.Error.{ok}
use delp.Config.{Field}
use delp.Gf.Simd.{scalar}
use delp.Codec.Dense.{get, is_solved}
use delp.Codec.Dense.Pivot.{is_solved-pivot}
use delp.Codec.Matrix.{MatrixRow, Rows, Symbols, DecodingMatrix, remove_row, substitute, row_count}
use delp.Codec.Matrix.Recover.{
  solved_now, solved_keys, take_solved, substitute_rows, cascade, add_known_rows, add_known_source,
  with_rows,
}
use delp.Codec.Matrix.Sound.{Session, substitute-Sound, solved-symbol}
use delp.Codec.Matrix.Unsolved.{
  NotKey, Unsolved, Listed, Unsolved-nil, solved_keys-Unsolved, take_solved-Unsolved,
  solved_now-Listed,
}
use delp.Codec.Matrix.Reduced.{
  ZeroAt, ZeroOn, Reduced, AllTrue, Recovers, ZeroOn-weaken, remove_row-ZeroAt, remove_row-Reduced,
  length-remove_row, remove_row-found,
}

-- Every row with the ID as its key is solved.
abbrev SolvedAt : ℕ → Rows → Type 0
SolvedAt id [] = Unit
SolvedAt id ((key, row) ∷ rows) = (key ≡ id → is_solved row.coefs ≡ some id) × SolvedAt id rows

abbrev AllSolved : List ℕ → Rows → Type 0
AllSolved [] rows = Unit
AllSolved (id ∷ ids) rows = SolvedAt id rows × (¬ ZeroAt id rows) × AllSolved ids rows

-- Queued symbols that no row has a coefficient of.
abbrev Idle : Symbols → Rows → Type 0
Idle [] rows = Unit
Idle ((id, symbol) ∷ queue) rows = ZeroAt id rows × Idle queue rows

module _ (f : Field) where
  substitute_rows-Idle :
      (rows : Rows) (id : ℕ) (symbol : List ℕ)
      → ZeroAt id rows
      → substitute_rows scalar f rows id symbol ≡ ok ([], rows)
  unfolding substitute_rows substitute solved_now
  substitute_rows-Idle [] id symbol h = refl
  substitute_rows-Idle ((key, row) ∷ rows) id symbol (e, h) =
      rw e (rw (substitute_rows-Idle rows id symbol h) refl)

  -- Symbols that no row has a coefficient of change nothing.
  pub cascade-Idle :
      (fuel : ℕ) (rows : Rows) (known : List ℕ) (queue : Symbols)
      → Idle queue rows
      → cascade scalar f fuel rows known queue ≡ ok ([], rows)
  unfolding cascade take_solved
  cascade-Idle zero rows known queue h = refl
  cascade-Idle (suc fuel) rows known [] h = refl
  cascade-Idle (suc fuel) rows known ((id, symbol) ∷ queue) (e, h) =
      rw (substitute_rows-Idle rows id symbol e)
        (rw (cascade-Idle fuel rows (id ∷ known) (queue ++ []) (Idle-nil queue rows h)) refl)
    where
      Idle-nil : (queue : Symbols) (rows : Rows) → Idle queue rows → Idle (queue ++ []) rows
      Idle-nil [] rows h = tt
      Idle-nil ((id, symbol) ∷ queue) rows (e, h) = (e, Idle-nil queue rows h)

ZeroOn-SolvedAt : (c : ℕ → ℕ) (id : ℕ) (rows : Rows) → ZeroOn c rows → c id ≢ 0 → SolvedAt id rows
ZeroOn-SolvedAt c id [] h ne = tt
ZeroOn-SolvedAt c id ((key, row) ∷ rows) (e, h) ne =
    (λ same. absurd (ne (ap c (sym same) ∙ e)), ZeroOn-SolvedAt c id rows h ne)

remove_row-SolvedAt :
    (rows : Rows) (pid id : ℕ) → SolvedAt id rows → SolvedAt id (remove_row rows pid).1
unfolding remove_row
remove_row-SolvedAt [] pid id h = tt
remove_row-SolvedAt ((key, row) ∷ rows) pid id (e, h) = elim (Bool-cases (key == pid)) [
  | inl t ↦ rw t h
  | inr t ↦ rw t (e, remove_row-SolvedAt rows pid id h)
]

SolvedAt-found :
    (rows : Rows) (id : ℕ) (row : MatrixRow)
    → SolvedAt id rows
    → (remove_row rows id).0 ≡ some row
    → is_solved row.coefs ≡ some id
unfolding remove_row
SolvedAt-found [] id row h e = absurd (ground arith)
SolvedAt-found ((key, other) ∷ rows) id row (p, h) e = elim (Bool-cases (key == id)) [
  | inl t ↦
      let here : some other ≡ some row = rw t at e in
      let found : other ≡ row = cc in rw (← found) (p (ground arith))
  | inr t ↦
      let there : (remove_row rows id).0 ≡ some row = rw t at e in
      SolvedAt-found rows id row h there
]

abbrev SolvedIds : List ℕ → Rows → Type 0
SolvedIds [] rows = Unit
SolvedIds (id ∷ ids) rows = SolvedAt id rows × SolvedIds ids rows

remove_row-SolvedIds :
    (ids : List ℕ) (rows : Rows) (pid : ℕ)
    → SolvedIds ids rows
    → SolvedIds ids (remove_row rows pid).1
remove_row-SolvedIds [] rows pid h = tt
remove_row-SolvedIds (id ∷ ids) rows pid (e, h) =
    (remove_row-SolvedAt rows pid id e, remove_row-SolvedIds ids rows pid h)

-- What is left of the rows, and what came out of them.
record Taken (s : Session) (rows : Rows) (out : Symbols × Symbols × Rows) : Type 0 where
  recovered : AllTrue s out.0
  queue : Idle out.1 out.2
  reduced : Reduced s out.2
  zeros : (x : ℕ) → ZeroAt x rows → ZeroAt x out.2
  shorter : length out.2 ≤ length rows

module _ (s : Session) where
  -- Taking out rows that are solved recovers true symbols, which no row left has a coefficient of.
  take_solved-Taken :
      (ids : List ℕ) (rows : Rows) (known : List ℕ)
      → Reduced s rows
      → SolvedIds ids rows
      → Taken s rows (take_solved ids rows known)
  unfolding take_solved
  take_solved-Taken [] rows known h solved = record {
    recovered = tt;
    queue = tt;
    reduced = h;
    zeros = λ x z. z;
    shorter = omega arith;
  }
  take_solved-Taken (id ∷ ids) rows known h (at, solved) =
      let left = (remove_row rows id).1 in
      let ih =
        take_solved-Taken ids left known (remove_row-Reduced s rows id h)
          (remove_row-SolvedIds ids rows id solved) in
      elim (Option-cases (remove_row rows id).0) [
        | inl e ↦
            rw (e, take_solved)
              (record {
                recovered = ih.recovered;
                queue = ih.queue;
                reduced = ih.reduced;
                zeros = λ x z. ih.zeros x (remove_row-ZeroAt rows id x z);
                shorter = omega (arith, ih.shorter, length-remove_row rows id);
              })
        | inr (row, e) ↦
            let (live, zero_at, _) = remove_row-found s rows id row e h in
            let true_symbol =
              solved-symbol s row id live.sound (SolvedAt-found rows id row at e) live.pivot in
            rw (e, take_solved)
              (record {
                recovered = (true_symbol, ih.recovered);
                queue =
                    queued id row.payload known (take_solved ids left known).1
                      (take_solved ids left known).2 (ih.zeros id zero_at) ih.queue;
                reduced = ih.reduced;
                zeros = λ x z. ih.zeros x (remove_row-ZeroAt rows id x z);
                shorter = omega (arith, ih.shorter, length-remove_row rows id);
              })
      ]
    where
      queued :
          (id : ℕ) (payload known : List ℕ) (queue : Symbols) (rows : Rows)
          → ZeroAt id rows
          → Idle queue rows
          → Idle (if contains known id then queue else (id, payload) ∷ queue) rows
      queued id payload known queue rows z h = elim (Bool-cases (contains known id)) [
        | inl t ↦ rw t h
        | inr t ↦ rw t (z, h)
      ]

  -- A symbol that is no row's key: the rows lose its coefficient and stay in reduced form, and the
  -- rows that are solved by that are listed by their keys.
  record Substituted (rows : Rows) (id : ℕ) (solved : List ℕ) (next : Rows) : Type 0 where
    runs : substitute_rows scalar s.field rows id (s.symbol id) ≡ ok (solved, next)
    reduced : Reduced s next
    listed : AllSolved solved next
    zeros : (x : ℕ) → ZeroAt x rows → ZeroAt x next
    keys : (c : ℕ → ℕ) → ZeroOn c rows → ZeroOn c next
    cleared : ZeroAt id next
    left : Unsolved rows → Listed solved next
    same : length next ≡ length rows

  AllSolved-cons :
      (ids : List ℕ) (key : ℕ) (row : MatrixRow) (rows : Rows)
      → ZeroAt key rows
      → AllSolved ids rows
      → AllSolved ids ((key, row) ∷ rows)
  AllSolved-cons [] key row rows z h = tt
  AllSolved-cons (id ∷ ids) key row rows z (p, n, h) =
      ((λ same. absurd (n (moved same)), p), λ w. n w.1, AllSolved-cons ids key row rows z h)
    where
      moved : key ≡ id → ZeroAt id rows
      moved same = rw (← same) z

  AllSolved-SolvedIds : (ids : List ℕ) (rows : Rows) → AllSolved ids rows → SolvedIds ids rows
  AllSolved-SolvedIds [] rows h = tt
  AllSolved-SolvedIds (id ∷ ids) rows (p, n, h) = (p, AllSolved-SolvedIds ids rows h)

  solved_now-AllSolved :
      (c key : ℕ) (row : MatrixRow) (ids : List ℕ) (rows : Rows)
      → get row.coefs key ≡ 1
      → ZeroOn (get row.coefs) rows
      → AllSolved ids ((key, row) ∷ rows)
      → AllSolved (solved_now c row ++ ids) ((key, row) ∷ rows)
  unfolding solved_now
  solved_now-AllSolved c key row ids rows one on h = elim (Bool-cases (c == 0)) [
    | inl t ↦ rw t h
    | inr t ↦ elim (Option-cases (is_solved row.coefs)) [
      | inl e ↦ rw (t, e) h
      | inr (id, e) ↦
          let live : get row.coefs key ≢ 0 = λ z. absurd (omega arith) in
          let same : key ≡ id = is_solved-pivot row.coefs id key e live in
          let at : get row.coefs id ≢ 0 = rw (← same) live in
          rw (t, e) (((λ _. e), ZeroOn-SolvedAt (get row.coefs) id rows on at), λ z. at z.0, h)
    ]
  ]

  substitute_rows-Substituted :
      (rows : Rows) (id : ℕ)
      → Reduced s rows
      → NotKey id rows
      → (solved : List ℕ) × (next : Rows) × Substituted rows id solved next
  unfolding substitute_rows
  substitute_rows-Substituted [] id h k = (
    [],
    [],
    record {
      runs = refl;
      reduced = tt;
      listed = tt;
      zeros = λ x z. z;
      keys = λ c z. z;
      cleared = tt;
      left = λ u. tt;
      same = refl;
    },
  )
  substitute_rows-Substituted ((key, row) ∷ rows) id (live, at, on, h) (ne, k) =
      let (next, e, sound, entry, untouched) = substitute-Sound s row id live.sound in
      let (ids, rest, ih) = substitute_rows-Substituted rows id h k in
      let kept : (x : ℕ) → get row.coefs x ≡ 0 → get next.coefs x ≡ 0 =
        λ x z. entry x ∙ ground arith in
      let one : get next.coefs key ≡ 1 =
        entry key ∙ other key ne (get row.coefs key) ∙ live.pivot in
      let at_key = ih.zeros key at in
      let on_keys =
        ZeroOn-weaken (get row.coefs) (get next.coefs) rest kept (ih.keys (get row.coefs) on) in
      (
        solved_now (get row.coefs id) next ++ ids,
        (key, next) ∷ rest,
        record {
          runs = rw e (rw ih.runs refl);
          reduced = (record { sound = sound; pivot = one }, at_key, on_keys, ih.reduced);
          listed =
              solved_now-AllSolved (get row.coefs id) key next ids rest one on_keys
                (AllSolved-cons ids key next rest at_key ih.listed);
          zeros = λ x z. (kept x z.0, ih.zeros x z.1);
          keys = λ c z. (z.0, ih.keys c z.1);
          cleared = (entry id ∙ ground arith, ih.cleared);
          left = λ u.
              solved_now-Listed (get row.coefs id) key row next ids rest one untouched u.0
                (ih.left u.1);
          same = ap suc ih.same;
        },
      )
    where
      other : (x : ℕ) → x ≢ id → (v : ℕ) → (if x == id then 0 else v) ≡ v
      other x d v = elim (Bool-cases (x == id)) [
        | inl t ↦ absurd (d (ground arith))
        | inr t ↦ rw t refl
      ]

  record Settled (rows : Rows) (id : ℕ) (known : List ℕ) : Type 0 where
    recovered : Symbols
    next : Rows
    runs : add_known_rows scalar s.field rows id (s.symbol id) known ≡ ok (recovered, next)
    all_true : AllTrue s recovered
    reduced : Reduced s next
    complete : solved_keys next ≡ []
    cleared : ZeroAt id next
    shorter : length next ≤ length rows

  add_known_rows-Reduced :
      (rows : Rows) (id : ℕ) (known : List ℕ)
      → Reduced s rows
      → solved_keys rows ≡ []
      → NotKey id rows
      → Settled rows id known
  unfolding add_known_rows cascade
  add_known_rows-Reduced rows id known h z k =
      let (solved, next, sub) = substitute_rows-Substituted rows id h k in
      let out = take_solved solved next (id ∷ known) in
      let taken =
        take_solved-Taken solved next (id ∷ known) sub.reduced
          (AllSolved-SolvedIds solved next sub.listed) in
      let left =
        take_solved-Unsolved s solved next (id ∷ known) sub.reduced
          (sub.left (Unsolved-nil rows z)) in
      record {
        recovered = out.0 ++ [];
        next = out.2;
        runs =
            rw sub.runs
              (rw (cascade-Idle s.field (length rows) out.2 (id ∷ known) out.1 taken.queue) refl);
        all_true = AllTrue-nil out.0 taken.recovered;
        reduced = taken.reduced;
        complete = solved_keys-Unsolved out.2 left;
        cleared = taken.zeros id sub.cleared;
        shorter = omega (arith, taken.shorter, sub.same);
      }
    where
      AllTrue-nil : (xs : Symbols) → AllTrue s xs → AllTrue s (xs ++ [])
      AllTrue-nil [] h = tt
      AllTrue-nil ((id, payload) ∷ xs) (e, h) = (e, AllTrue-nil xs h)

  -- A true symbol whose ID is no row's pivot, on a matrix whose rows are in reduced form and of which
  -- none is solved: with the scalar kernels `add_known_source` succeeds, every symbol that it returns
  -- is the true one of its ID, the rows that it leaves are in reduced form, none of them is solved,
  -- none has a coefficient at the ID, and there are not more rows than there were, or than `max_rows`
  -- (than one, if `max_rows` is 0).
  pub add_known_source-Recovers :
      (m : DecodingMatrix) (id : ℕ) (known_sources : Symbols)
      → m.field ≡ s.field
      → Reduced s m.rows
      → solved_keys m.rows ≡ []
      → NotKey id m.rows
      → (r : Recovers s m (add_known_source scalar m id (s.symbol id) known_sources)) × ZeroAt id
          r.next.rows
  unfolding add_known_source with_rows
  add_known_source-Recovers m id known_sources e h z k =
      let out = add_known_rows-Reduced m.rows id (map (λ q. q.0) known_sources) h z k in
      (
        record {
          recovered = out.recovered;
          next = record m { rows = out.next };
          returns = rw e (rw out.runs refl);
          all_true = out.all_true;
          reduced = out.reduced;
          complete = out.complete;
          bounded = unfold row_count in omega (arith, out.shorter);
        },
        out.cleared,
      )
