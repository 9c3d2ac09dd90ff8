-- ===== src/Codec/Matrix/Recover.antt =====
-- src/codec/decoder/matrix.rs: `add_known_source` and `add_coded`. Of the maps `local_known` and
-- `extra_known` the source reads only which IDs they hold, so they are lists of IDs here.
use delp.Prelude.{
  ℕ, zero, suc, none, some, List, [], ◌∷◌, ◌++◌, ltb, leb, ◌==◌, if◌then◌else◌, length, map,
  contains,
}
use delp.Error.{
  Result, ok, err, panic, ◌>>=◌, malformed_encoding_vector, no_pivot_after_elimination,
}
use delp.Config.{Field}
use delp.Gf.Simd.{Kernels}
use delp.Codec.Dense
use delp.Codec.Dense.{DenseCoefs, from_map, mul_acc, is_solved, is_zero}
use delp.Codec.Matrix.{
  MatrixRow, Rows, Symbols, DecodingMatrix, remove_row, insert_row, substitute, forward_eliminate,
  back_substitute, normalize,
}
use delp.Wire.Ev.{EncodingVector, has_explicit_coefs}
use delp.Wire.Ev.CoefGen.{vandermonde_coef}

-- What the loop over the rows pushes to `newly_solved` for one row.
unfoldable pub solved_now : ℕ → MatrixRow → List ℕ
solved_now c row =
    if c == 0 then [] else elim (is_solved row.coefs) [ none ↦ [] | some id ↦ id ∷ [] ]

-- The rows whose keys are in the list are removed, one after the other: what is recovered, and what
-- of it goes into the queue.
unfoldable pub take_solved : List ℕ → Rows → List ℕ → Symbols × Symbols × Rows
take_solved [] rows known = ([], [], rows)
take_solved (id ∷ ids) rows known =
    let (found, left) = remove_row rows id in
    let (recovered, queued, last) = take_solved ids left known in
    elim found [
      | none ↦ (recovered, queued, last)
      | some row ↦ (
        (id, row.payload) ∷ recovered,
        (if contains known id then queued else (id, row.payload) ∷ queued),
        last,
      )
    ]

-- The keys of the rows with one coefficient.
unfoldable pub solved_keys : Rows → List ℕ
solved_keys [] = []
solved_keys ((pid, row) ∷ rows) = elim (is_solved row.coefs) [
  | none ↦ solved_keys rows
  | some id ↦ pid ∷ solved_keys rows
]

-- `coef_map.insert`, which replaces a coefficient of the same ID.
unfoldable pub insert_coef : List (ℕ × ℕ) → ℕ → ℕ → List (ℕ × ℕ)
insert_coef [] id c = (id, c) ∷ []
insert_coef ((key, d) ∷ coefs) id c =
    let rest = insert_coef coefs id c in
    if ltb id key
    then (id, c) ∷ (key, d) ∷ coefs
    else if id == key
    then (id, c) ∷ coefs
    else (key, d) ∷ rest

-- The loop over `ev.source_ids`, with the explicit coefficients that are left. Indexing past them
-- panics.
unfoldable pub coef_map : EncodingVector → List ℕ → List ℕ → List (ℕ × ℕ) → Result (List (ℕ × ℕ))
coef_map ev [] coefs m = ok m
coef_map ev (id ∷ ids) [] m =
    let c = vandermonde_coef ev.field id ev.coded_id in
    if has_explicit_coefs ev
    then panic
    else coef_map ev ids [] (if c == 0 then m else insert_coef m id c)
coef_map ev (id ∷ ids) (c ∷ coefs) m =
    coef_map ev ids coefs (if c == 0 then m else insert_coef m id c)

module _ (k : Kernels) (field : Field) where
  unfoldable pub substitute_rows : Rows → ℕ → List ℕ → Result (List ℕ × Rows)
  substitute_rows [] id symbol = ok ([], [])
  substitute_rows ((pid, row) ∷ rows) id symbol = do
    next ← substitute k field row id symbol
    (solved, rest) ← substitute_rows rows id symbol
    ok (solved_now (Dense.get row.coefs id) next ++ solved, (pid, next) ∷ rest)

  -- The work queue on fuel. A round takes one symbol from the queue and a row from the matrix for
  -- each symbol that it puts there.
  unfoldable pub cascade : ℕ → Rows → List ℕ → Symbols → Result (Symbols × Rows)
  cascade zero rows known queue = ok ([], rows)
  cascade (suc fuel) rows known [] = ok ([], rows)
  cascade (suc fuel) rows known ((id, symbol) ∷ queue) = do
    (solved, substituted) ← substitute_rows rows id symbol
    let (recovered, queued, left) = take_solved solved substituted (id ∷ known)
    (more, last) ← cascade fuel left (id ∷ known) (queue ++ queued)
    ok (recovered ++ more, last)

  unfoldable pub add_known_rows : Rows → ℕ → List ℕ → List ℕ → Result (Symbols × Rows)
  add_known_rows rows id symbol known = cascade (suc (length rows)) rows known ((id, symbol) ∷ [])

  -- The loop over `known_sources`.
  unfoldable pub substitute_known : Symbols → MatrixRow → Result MatrixRow
  substitute_known [] row = ok row
  substitute_known ((id, symbol) ∷ known) row = do
    next ← substitute k field row id symbol
    substitute_known known next

  -- One pass over the keys of the solved rows.
  unfoldable pub recover_keys : List ℕ → Rows → List ℕ → Result (Symbols × List ℕ × Rows)
  recover_keys [] rows known = ok ([], known, rows)
  recover_keys (pid ∷ pids) rows known =
      let (found, left) = remove_row rows pid in
      elim found [
        | none ↦ recover_keys pids left known
        | some row ↦ elim (is_solved row.coefs) [
          | none ↦ recover_keys pids left known
          | some id ↦ do
            (more, last) ← add_known_rows left id row.payload (id ∷ known)
            (rest, all_known, end_rows) ←
                recover_keys pids last (map (λ e. e.0) more ++ (id ∷ known))
            ok ((id, row.payload) ∷ (more ++ rest), all_known, end_rows)
        ]
      ]

  -- The outer loop on fuel; each round but the last removes a row.
  unfoldable pub recover_all : ℕ → Rows → List ℕ → Result (Symbols × Rows)
  recover_all zero rows known = ok ([], rows)
  recover_all (suc fuel) rows known = elim (solved_keys rows) [
    | [] ↦ ok ([], rows)
    | pid ∷ pids ↦ do
      (recovered, all_known, left) ← recover_keys (pid ∷ pids) rows known
      (more, last) ← recover_all fuel left all_known
      ok (recovered ++ more, last)
  ]

-- `if self.rows.len() >= self.max_rows`, the oldest key is removed.
unfoldable pub make_room : DecodingMatrix → Rows → Rows
make_room m [] = []
make_room m ((pid, row) ∷ rows) =
    if leb m.max_rows (length ((pid, row) ∷ rows)) then rows else (pid, row) ∷ rows

unfoldable pub with_rows : DecodingMatrix → Symbols × Rows → Symbols × DecodingMatrix
with_rows m (recovered, rows) = (recovered, record m { rows = rows })

unfoldable pub add_known_source :
    Kernels → DecodingMatrix → ℕ → List ℕ → Symbols → Result (Symbols × DecodingMatrix)
add_known_source k m id symbol known_sources = do
  done ← add_known_rows k m.field m.rows id symbol (map (λ e. e.0) known_sources)
  ok (with_rows m done)

-- From the normalised row on.
unfoldable pub insert_solved :
    Kernels → DecodingMatrix → MatrixRow → List ℕ → Result (Symbols × DecodingMatrix)
insert_solved k m row known = elim (Dense.pivot_id row.coefs) [
  | none ↦ err (malformed_encoding_vector no_pivot_after_elimination)
  | some pid ↦ do
    reduced ← back_substitute k m.field m.rows pid row
    let rows = insert_row (make_room m reduced) pid row
    done ← recover_all k m.field (suc (length rows)) rows known
    ok (with_rows m done)
]

unfoldable pub add_coded :
    Kernels → DecodingMatrix → EncodingVector → List ℕ → Symbols → Result (Symbols × DecodingMatrix)
add_coded k m ev payload known_sources = do
  coefs ← coef_map ev ev.source_ids ev.coefficients []
  row ←
      substitute_known k m.field known_sources
        (record { coefs = from_map coefs; payload = payload })
  (if is_zero row.coefs then ok ([], m) else (do
    reduced ← forward_eliminate k m.field m.rows row
    (if is_zero reduced.coefs then ok ([], m) else (do
      normal ← normalize k m.field reduced
      insert_solved k m normal (map (λ e. e.0) known_sources)))))
