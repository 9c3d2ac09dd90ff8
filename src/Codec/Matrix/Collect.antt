-- ===== src/Codec/Matrix/Collect.antt =====
-- The loop of `add_coded` that collects the solved rows: it returns true symbols, and it ends.
use delp.Prelude.{
  ℕ, zero, suc, ◌≤◌, ◌<◌, ◌≡◌, ◌≢◌, refl, sym, ap, ◌∙◌, Bool-cases, inl, inr, Option-cases, none,
  some, List, [], ◌∷◌, ◌++◌, length, ◌==◌, arith, true, false, ◌⊎◌,
}
use delp.Error.{ok}
use delp.Gf.Simd.{scalar}
use delp.Codec.Dense.{get, is_solved}
use delp.Codec.Dense.Pivot.{is_solved-pivot}
use delp.Codec.Matrix.{MatrixRow, Rows, Symbols, remove_row}
use delp.Codec.Matrix.Recover.{solved_keys, recover_keys, recover_all, add_known_rows}
use delp.Codec.Matrix.Sound.{Session, solved-symbol}
use delp.Codec.Matrix.Known.{cascade-Idle}
use delp.Codec.Matrix.Reduced.{
  Reduced, AllTrue, AllTrue-append, remove_row-Reduced, remove_row-found, remove_row-found_zeros,
  length-remove_row, length-remove_row-found,
}

List-cases {ℓ} :
    {A : Type ℓ} (xs : List A) → (xs ≡ []) ⊎ ((x : A) × (rest : List A) × (xs ≡ x ∷ rest))
List-cases [] = inl refl
List-cases (x ∷ xs) = inr (x, xs, refl)

-- The first solved key is found, with a row that is solved.
solved_keys-found :
    (s : Session) (rows : Rows) (pid : ℕ) (pids : List ℕ)
    → Reduced s rows
    → solved_keys rows ≡ pid ∷ pids
    → (row : MatrixRow) × ((remove_row rows pid).0 ≡ some row)
      × (id : ℕ) × (is_solved row.coefs ≡ some id)
unfolding solved_keys remove_row
solved_keys-found s [] pid pids h e = absurd (ground arith)
solved_keys-found s ((key, row) ∷ rows) pid pids (live, at, on, h) e =
    elim (Option-cases (is_solved row.coefs)) [
      | inl u ↦
          let later : solved_keys rows ≡ pid ∷ pids = rw (u, solved_keys) at e in
          let (found, there, id, solved) = solved_keys-found s rows pid pids h later in
          let none_at : get row.coefs pid ≡ 0 =
            (remove_row-found_zeros rows pid found there).0 (get row.coefs) on in
          let other : (key == pid) ≡ false = apart row key pid live.pivot none_at in
          (found, rw other there, id, solved)
      | inr (id, u) ↦
          let first : key ∷ solved_keys rows ≡ pid ∷ pids = rw (u, solved_keys) at e in
          let same : (key == pid) ≡ true = ground arith in (row, rw same refl, id, u)
    ]
  where
    apart :
        (row : MatrixRow) (key pid : ℕ)
        → get row.coefs key ≡ 1
        → get row.coefs pid ≡ 0
        → (key == pid) ≡ false
    apart row key pid one none_at = elim (Bool-cases (key == pid)) [
      | inl t ↦
          let same : key ≡ pid = ground arith in
          let clash : 1 ≡ get row.coefs pid = sym one ∙ ap (get row.coefs) same in
          absurd (omega arith)
      | inr t ↦ t
    ]

module _ (s : Session) where
  -- A solved row is taken out: its payload is the symbol of its key, and substituting it changes
  -- nothing.
  solved_row :
      (rows : Rows) (pid id : ℕ) (row : MatrixRow) (known : List ℕ)
      → Reduced s rows
      → (remove_row rows pid).0 ≡ some row
      → is_solved row.coefs ≡ some id
      → (row.payload ≡ s.symbol id)
        × (add_known_rows scalar s.field (remove_row rows pid).1 id row.payload known
            ≡ ok ([], (remove_row rows pid).1))
  unfolding add_known_rows
  solved_row rows pid id row known h e solved =
      let (live, at, on) = remove_row-found s rows pid row e h in
      let nonzero : get row.coefs pid ≢ 0 = λ z. absurd (omega (arith, live.pivot)) in
      let same : pid ≡ id = is_solved-pivot row.coefs id pid solved nonzero in
      (
        solved-symbol s row id live.sound solved (rw (← same) live.pivot),
        cascade-Idle s.field (suc (length (remove_row rows pid).1)) (remove_row rows pid).1 known
            ((id, row.payload) ∷ []) (rw (← same) (at, tt)),
      )

  -- The first key is found.
  abbrev FirstFound : List ℕ → Rows → Type 0
  FirstFound [] rows = ⊥
  FirstFound (pid ∷ pids) rows = (row : MatrixRow) × ((remove_row rows pid).0 ≡ some row)

  none-found :
      (rows : Rows) (pid : ℕ) (pids : List ℕ)
      → (remove_row rows pid).0 ≡ none
      → ¬ FirstFound (pid ∷ pids) rows
  none-found rows pid pids e (row, f) = absurd (ground arith)

  record Collected (pids : List ℕ) (rows : Rows) (recovered : Symbols) (next : Rows) : Type 0 where
    all_true : AllTrue s recovered
    reduced : Reduced s next
    shorter : length next ≤ length rows
    progress : FirstFound pids rows → length next < length rows

  recover_keys-Collected :
      (pids : List ℕ) (rows : Rows) (known : List ℕ)
      → Reduced s rows
      → (recovered : Symbols) × (all_known : List ℕ) × (next : Rows) × (recover_keys scalar s.field
            pids rows known
          ≡ ok (recovered, all_known, next))
        × Collected pids rows recovered next
  unfolding recover_keys
  recover_keys-Collected [] rows known h = (
    [],
    known,
    rows,
    refl,
    record { all_true = tt; reduced = h; shorter = omega arith; progress = λ q. absurd q },
  )
  recover_keys-Collected (pid ∷ pids) rows known h =
      let left = (remove_row rows pid).1 in
      let reduced = remove_row-Reduced s rows pid h in
      let le = length-remove_row rows pid in
      let skip = recover_keys-Collected pids left known reduced in
      let again = recover_keys-Collected pids left in
      elim (Option-cases (remove_row rows pid).0) [
        | inl e ↦ (
          skip.0,
          skip.1,
          skip.2,
          rw (e, recover_keys) skip.3,
          record {
            all_true = skip.4.all_true;
            reduced = skip.4.reduced;
            shorter = omega (arith, skip.4.shorter);
            progress = λ q. absurd (none-found rows pid pids e q);
          },
        )
        | inr (row, e) ↦ elim (Option-cases (is_solved row.coefs)) [
          | inl u ↦ (
            skip.0,
            skip.1,
            skip.2,
            rw (e, u, recover_keys) skip.3,
            record {
              all_true = skip.4.all_true;
              reduced = skip.4.reduced;
              shorter = omega (arith, skip.4.shorter);
              progress = λ q. omega (arith, skip.4.shorter, length-remove_row-found rows pid row e);
            },
          )
          | inr (id, u) ↦
              let (payload, runs) = solved_row rows pid id row (id ∷ known) h e u in
              let (rest, all_known, last, goes, out) = again (id ∷ known) reduced in
              (
                (id, row.payload) ∷ rest,
                all_known,
                last,
                rw (e, u, recover_keys) (rw runs (rw goes refl)),
                record {
                  all_true = (payload, out.all_true);
                  reduced = out.reduced;
                  shorter = omega (arith, out.shorter);
                  progress =
                      λ q. omega (arith, out.shorter, length-remove_row-found rows pid row e);
                },
              )
        ]
      ]

  -- On rows in reduced form, with more fuel than rows, the loop of `add_coded` with the scalar kernels
  -- succeeds and ends with no solved row left: it returns true symbols only, and it leaves rows in
  -- reduced form, not more than there were.
  pub recover_all-AllTrue :
      (fuel : ℕ) (rows : Rows) (known : List ℕ)
      → length rows < fuel
      → Reduced s rows
      → (recovered : Symbols) × (next : Rows) × (recover_all scalar s.field fuel rows known
          ≡ ok (recovered, next))
        × AllTrue s recovered
        × Reduced s next
        × (solved_keys next ≡ [])
        × (length next ≤ length rows)
  unfolding recover_all
  recover_all-AllTrue zero rows known lt h = absurd (omega arith)
  recover_all-AllTrue (suc fuel) rows known lt h =
      let again = recover_all-AllTrue fuel in
      elim (List-cases (solved_keys rows)) [
        | inl e ↦ ([], rows, rw (e, recover_all) refl, tt, h, e, omega arith)
        | inr (pid, pids, e) ↦
            let (row, found, _, _) = solved_keys-found s rows pid pids h e in
            let (first, all_known, left, runs, out) =
              recover_keys-Collected (pid ∷ pids) rows known h in
            let (rest, last, goes, all_true, reduced, done, le) =
              again left all_known (omega (arith, out.progress (row, found))) out.reduced in
            (
              first ++ rest,
              last,
              rw (e, recover_all) (rw runs (rw goes refl)),
              AllTrue-append s first rest out.all_true all_true,
              reduced,
              done,
              omega (arith, out.shorter),
            )
      ]
