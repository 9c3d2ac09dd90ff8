-- ===== src/Codec/Matrix.antt =====
-- src/codec/decoder/matrix.rs: `MatrixRow` and `DecodingMatrix`, incremental Gaussian elimination.
-- The rows are in ascending order of their keys, the pivots' IDs.
pub mod Recover
pub mod Sound
pub mod Reduced
pub mod Unsolved
pub mod Known
pub mod Eliminate
pub mod Collect
pub mod Packet
pub mod Coded
use delp.Prelude.{
  ℕ, zero, suc, ◌+◌, ◌-◌, Bool, true, false, Option, none, some, List, [], ◌∷◌, ◌++◌, ltb, leb,
  ◌==◌, if◌then◌else◌, length, get_or, map,
}
use delp.Error.{
  Result, ok, err, panic, ◌>>=◌, ◌>>◌, malformed_encoding_vector, zero_pivot,
  no_pivot_after_elimination,
}
use delp.Config.{Field}
use delp.Gf.Simd.{Kernels}
use delp.Codec.Dense
use delp.Codec.Dense.{DenseCoefs, mul_acc, mul_scale, gf_inv}
use delp.Codec.Buffer.{lookup, or_insert}

pub record MatrixRow : Type 0 where
  pub coefs : DenseCoefs
  pub payload : List ℕ

abbrev pub Rows : Type 0
Rows = List (ℕ × MatrixRow)

abbrev pub Symbols : Type 0
Symbols = List (ℕ × List ℕ)

pub record DecodingMatrix : Type 0 where
  pub rows : Rows
  pub field : Field
  pub symbol_size : ℕ
  pub max_rows : ℕ

unfoldable pub new : Field → ℕ → ℕ → DecodingMatrix
new field symbol_size max_rows = record {
  rows = [];
  field = field;
  symbol_size = symbol_size;
  max_rows = max_rows;
}

unfoldable pub row_count : DecodingMatrix → ℕ
row_count m = length m.rows

-- `rows.remove(&pid)`: the row, if there is one, and the rows without it.
unfoldable pub remove_row : Rows → ℕ → Option MatrixRow × Rows
remove_row [] pid = (none, [])
remove_row ((key, row) ∷ rows) pid =
    let (found, rest) = remove_row rows pid in
    if key == pid then (some row, rows) else (found, (key, row) ∷ rest)

-- `rows.insert(pid, row)`, which replaces a row of the same key.
unfoldable pub insert_row : Rows → ℕ → MatrixRow → Rows
insert_row [] pid row = (pid, row) ∷ []
insert_row ((key, other) ∷ rows) pid row =
    let rest = insert_row rows pid row in
    if ltb pid key
    then (pid, row) ∷ (key, other) ∷ rows
    else if pid == key
    then (pid, row) ∷ rows
    else (key, other) ∷ rest

module _ (k : Kernels) (field : Field) where
  unfoldable pub subtract_scaled : MatrixRow → MatrixRow → ℕ → Result MatrixRow
  subtract_scaled row other factor = do
    coefs ← Dense.subtract_scaled k field row.coefs other.coefs factor
    payload ← mul_acc k field row.payload other.payload factor
    ok (record { coefs = coefs; payload = payload })

  -- Past the pivot's test.
  unfoldable pub normalize_by : MatrixRow → ℕ → Result MatrixRow
  normalize_by row pivot_c = if pivot_c == 1 then ok row else (do
    inv ← gf_inv field pivot_c
    ok (record {
      coefs = Dense.scale k field row.coefs inv;
      payload = mul_scale k field row.payload inv;
    }))

  unfoldable pub normalize : MatrixRow → Result MatrixRow
  normalize row = elim (Dense.pivot_coef row.coefs) [
    | none ↦ err (malformed_encoding_vector zero_pivot)
    | some pivot_c ↦ normalize_by row pivot_c
  ]

  -- `row.coefs.remove(id)`, and the payload without the symbol's share.
  unfoldable pub substitute : MatrixRow → ℕ → List ℕ → Result MatrixRow
  substitute row id symbol =
      let c = Dense.get row.coefs id in
      if c == 0 then ok row else (do
        payload ← mul_acc k field row.payload symbol c
        ok (record { coefs = Dense.remove row.coefs id; payload = payload }))

  -- The rows in the order of their keys.
  unfoldable pub forward_eliminate : Rows → MatrixRow → Result MatrixRow
  forward_eliminate [] row = ok row
  forward_eliminate ((pid, existing) ∷ rows) row =
      let c = Dense.get row.coefs pid in
      do
        next ← (if c == 0 then ok row else subtract_scaled row existing c)
        forward_eliminate rows next

  unfoldable pub back_substitute : Rows → ℕ → MatrixRow → Result Rows
  back_substitute [] new_pivot new_row = ok []
  back_substitute ((pid, row) ∷ rows) new_pivot new_row =
      let c = Dense.get row.coefs new_pivot in
      do
        next ← (if c == 0 then ok row else subtract_scaled row new_row c)
        rest ← back_substitute rows new_pivot new_row
        ok ((pid, next) ∷ rest)
