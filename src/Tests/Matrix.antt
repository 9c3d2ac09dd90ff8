-- ===== src/Tests/Matrix.antt =====
-- The decoding matrix at a concrete session.
use delp.Prelude.{
  ℕ, zero, suc, ◌-◌, ◌*◌, ◌%◌, ◌<◌, ◌≡◌, refl, List, [], ◌∷◌, get_or, length, ◌≤◌, arith, some,
}
use delp.Error.{ok, ◌>>=◌}
use delp.Config.{Field}
use delp.Gf.Simd.{scalar}
use delp.Gf.Simd
use delp.Gf.Action.{act}
use delp.Gf.Gf2_8
use delp.Codec.Dense
use delp.Codec.Dense.{DenseCoefs, get}
use delp.Codec.Matrix
use delp.Codec.Matrix.{MatrixRow, Rows, DecodingMatrix, normalize, forward_eliminate}
use delp.Codec.Matrix.Eliminate.{
  BackSubstituted, forward_eliminate-Sound, back_substitute-BackSubstituted,
}
use delp.Codec.Matrix.Collect.{recover_all-AllTrue}
use delp.Codec.Dense.Pivot.{IsPivot}
use delp.Codec.Matrix.Recover
use delp.Codec.Matrix.Recover.{add_coded, add_known_source, solved_keys, recover_all}
use delp.Codec.Matrix.Sound.{Session, Sound, column, normalize-Sound}
use delp.Codec.Matrix.Reduced.{Reduced, Recovers, ZeroAt, ZeroOn, AllTrue}
use delp.Codec.Matrix.Coded.{IsPacket, add_coded-Recovers}
use delp.Codec.Matrix.Known.{add_known_source-Recovers}
use delp.Wire.Ev.{EncodingVector, has_explicit_coefs}
use delp.Codec.Matrix.Packet.{coded_byte}
use delp.Codec.Dense.Sum.{combination}
use delp.Gf.Tables.{gf2_8_log, gf2_8_exp}
use delp.Wire.Ev.IdStorage.{IdStorageFormat}

abbrev symbols : ℕ → List ℕ
symbols id = (id * 7 % 256) ∷ (id % 256) ∷ []

symbols_bytes : (id j : ℕ) → get_or (symbols id) j 0 < 256
symbols_bytes id zero = omega arith
symbols_bytes id (suc zero) = omega arith
symbols_bytes id (suc (suc j)) = omega arith

abbrev session : Session
session = record {
  field = Field.gf2_8;
  bound = 9;
  size = 2;
  symbol = symbols;
  bound_word = omega arith;
  symbol-size = λ id. refl;
  symbol-bytes = symbols_bytes;
}

abbrev pair : EncodingVector
pair = record {
  field = Field.gf2_8;
  coded_id = 4;
  generation = 0;
  id_format = IdStorageFormat.implicit;
  source_ids = 5 ∷ 6 ∷ [];
  coefficients = 1 ∷ 3 ∷ [];
}

-- `35 + 3 * 42` and `5 + 3 * 6`.
abbrev pair_payload : List ℕ
pair_payload = 93 ∷ 15 ∷ []

abbrev row : MatrixRow
row = record { coefs = record { base_id = 5; coefs = 1 ∷ 3 ∷ [] }; payload = pair_payload }

abbrev matrix : DecodingMatrix
matrix = record { rows = (5, row) ∷ []; field = Field.gf2_8; symbol_size = 2; max_rows = 4 }

abbrev late : EncodingVector
late = record {
  field = Field.gf2_8;
  coded_id = 5;
  generation = 0;
  id_format = IdStorageFormat.implicit;
  source_ids = 7 ∷ 8 ∷ [];
  coefficients = 1 ∷ 1 ∷ [];
}

-- A late source symbol that is the pivot of a row, then another packet: the row is delivered as
-- symbol 6 with its payload still multiplied by 3.
stale_row :
    (do
      (a, m) ← add_known_source scalar matrix 5 (symbols 5) []
      (b, m') ← add_coded scalar m late (9 ∷ 15 ∷ []) []
      ok b)
    ≡ ok ((6, 126 ∷ 10 ∷ []) ∷ [])
unfolding add_known_source add_coded Recover.add_known_rows Recover.cascade Recover.substitute_rows
    Matrix.substitute Recover.solved_now Recover.take_solved Matrix.remove_row Recover.with_rows
    Recover.coef_map Recover.insert_coef Recover.substitute_known Recover.insert_solved
    Recover.make_room Matrix.insert_row recover_all solved_keys Recover.recover_keys
    forward_eliminate Matrix.back_substitute normalize Matrix.normalize_by Dense.get Dense.remove
    Dense.is_solved Dense.only_nonzero Dense.all_zero Dense.is_zero Dense.first_nonzero
    Dense.pivot_id Dense.pivot_coef Dense.from_map Dense.fill Dense.max_key Dense.new Dense.mul_acc
    Simd.mul_acc_gf2_8 Simd.scalar_mul_acc Simd.for_gf2_8 Simd.fill_table Simd.nibble_entry
    Gf2_8.gf2_8_mul_raw Gf2_8.log_at Gf2_8.exp_at gf2_8_log gf2_8_exp has_explicit_coefs
stale_row = refl

row_scalars : (x : ℕ) → get row.coefs x < 256
unfolding get
row_scalars x = ground (arith, entry (x - 5))
  where
    entry : (j : ℕ) → get_or (1 ∷ 3 ∷ []) j 0 < 256
    entry zero = omega arith
    entry (suc zero) = omega arith
    entry (suc (suc j)) = omega arith

row-Sound : Sound session row
unfolding get act Gf2_8.gf2_8_mul_raw Gf2_8.log_at Gf2_8.exp_at gf2_8_log gf2_8_exp
row-Sound = record { ends = omega arith; scalars = row_scalars; size = refl; equation = equal }
  where
    equal :
        (j : ℕ)
        → combination Field.gf2_8 9 (get row.coefs) (column session j) ≡ get_or pair_payload j 0
    equal zero = refl
    equal (suc zero) = refl
    equal (suc (suc j)) = refl

matrix-Reduced : Reduced session matrix.rows
unfolding get
matrix-Reduced = (record { sound = row-Sound; pivot = refl }, tt, tt, tt)

matrix_unsolved : solved_keys matrix.rows ≡ []
unfolding solved_keys Dense.is_solved Dense.only_nonzero Dense.all_zero
matrix_unsolved = refl

late-IsPacket : IsPacket session late (9 ∷ 15 ∷ [])
unfolding act Gf2_8.gf2_8_mul_raw Gf2_8.log_at Gf2_8.exp_at gf2_8_log gf2_8_exp has_explicit_coefs
late-IsPacket = record {
  field = refl;
  ids = (omega arith, (omega arith, tt), (omega arith, tt, tt));
  lengths = refl;
  scalars = (omega arith, (omega arith, tt));
  size = refl;
  bytes = equal;
}
  where
    equal :
        (j : ℕ)
        → coded_byte Field.gf2_8 late.source_ids late.coefficients (column session j)
          ≡ get_or (9 ∷ 15 ∷ []) j 0
    equal zero = refl
    equal (suc zero) = refl
    equal (suc (suc j)) = refl

add_coded-Recovers_example :
    Recovers session matrix (add_coded scalar matrix late (9 ∷ 15 ∷ []) ((7, symbols 7) ∷ []))
add_coded-Recovers_example =
    add_coded-Recovers session matrix late (9 ∷ 15 ∷ []) ((7, symbols 7) ∷ []) refl matrix-Reduced
      matrix_unsolved late-IsPacket (refl, tt)

add_known_source-Recovers_example :
    (r : Recovers session matrix (add_known_source scalar matrix 6 (symbols 6) [])) × ZeroAt 6
      r.next.rows
add_known_source-Recovers_example =
    add_known_source-Recovers session matrix 6 [] refl matrix-Reduced matrix_unsolved
      ((λ e. absurd (omega arith)), tt)

abbrev single : MatrixRow
single = record { coefs = record { base_id = 6; coefs = 1 ∷ [] }; payload = symbols 6 }

single-Sound : Sound session single
unfolding get act Gf2_8.gf2_8_mul_raw Gf2_8.log_at Gf2_8.exp_at gf2_8_log gf2_8_exp
single-Sound = record {
  ends = omega arith;
  scalars = λ x. ground (arith, entry (x - 6));
  size = refl;
  equation = equal;
}
  where
    entry : (j : ℕ) → get_or (1 ∷ []) j 0 < 256
    entry zero = omega arith
    entry (suc j) = omega arith

    equal :
        (j : ℕ)
        → combination Field.gf2_8 9 (get single.coefs) (column session j) ≡ get_or (symbols 6) j 0
    equal zero = refl
    equal (suc zero) = refl
    equal (suc (suc j)) = refl

abbrev singles : Rows
singles = (6, single) ∷ []

singles-Reduced : Reduced session singles
unfolding get
singles-Reduced = (record { sound = single-Sound; pivot = refl }, tt, tt, tt)

abbrev doubled : MatrixRow
doubled = record { coefs = record { base_id = 5; coefs = 2 ∷ 6 ∷ [] }; payload = 186 ∷ 30 ∷ [] }

doubled-Sound : Sound session doubled
unfolding get act Gf2_8.gf2_8_mul_raw Gf2_8.log_at Gf2_8.exp_at gf2_8_log gf2_8_exp
doubled-Sound = record {
  ends = omega arith;
  scalars = λ x. ground (arith, entry (x - 5));
  size = refl;
  equation = equal;
}
  where
    entry : (j : ℕ) → get_or (2 ∷ 6 ∷ []) j 0 < 256
    entry zero = omega arith
    entry (suc zero) = omega arith
    entry (suc (suc j)) = omega arith

    equal :
        (j : ℕ)
        → combination Field.gf2_8 9 (get doubled.coefs) (column session j)
          ≡ get_or (186 ∷ 30 ∷ []) j 0
    equal zero = refl
    equal (suc zero) = refl
    equal (suc (suc j)) = refl

doubled-IsPivot : IsPivot doubled.coefs 5
unfolding get
doubled-IsPivot = record {
  covered = omega arith;
  nonzero = omega arith;
  before = λ x h. ground arith;
}

normalize-Sound_example :
    (r : MatrixRow) × (normalize scalar Field.gf2_8 doubled ≡ ok r)
    × Sound session r
    × (Dense.pivot_id r.coefs ≡ some 5)
    × (get r.coefs 5 ≡ 1)
    × ((x : ℕ) → get doubled.coefs x ≡ 0 → get r.coefs x ≡ 0)
normalize-Sound_example = normalize-Sound session doubled 5 doubled-Sound doubled-IsPivot

forward_eliminate-Sound_example :
    (r : MatrixRow) × (forward_eliminate scalar Field.gf2_8 matrix.rows doubled ≡ ok r)
    × Sound session r
    × ZeroOn (get r.coefs) matrix.rows
    × ((x : ℕ) → ZeroAt x matrix.rows → get doubled.coefs x ≡ 0 → get r.coefs x ≡ 0)
forward_eliminate-Sound_example =
    forward_eliminate-Sound session matrix.rows doubled matrix-Reduced doubled-Sound

single_pivot : get single.coefs 6 ≡ 1
unfolding get
single_pivot = refl

single_apart : ZeroOn (get single.coefs) matrix.rows
unfolding get
single_apart = (refl, tt)

back_substitute-BackSubstituted_example :
    (next : Rows) × BackSubstituted session matrix.rows 6 single next
back_substitute-BackSubstituted_example =
    back_substitute-BackSubstituted session matrix.rows 6 single matrix-Reduced single-Sound
      single_pivot single_apart

recover_all-AllTrue_example :
    (recovered : Matrix.Symbols) × (next : Rows) × (recover_all scalar Field.gf2_8 2 singles []
      ≡ ok (recovered, next))
    × AllTrue session recovered
    × Reduced session next
    × (solved_keys next ≡ [])
    × (length next ≤ 1)
recover_all-AllTrue_example = recover_all-AllTrue session 2 singles [] (omega arith) singles-Reduced
