-- ===== src/Tests/Ids.antt =====
-- The ID storage formats at concrete IDs.
use delp.Prelude.{ℕ, ◌≡◌, ◌≤◌, ◌<◌, ◌/◌, ◌%◌, refl, arith, List, [], ◌∷◌, ◌++◌, length}
use delp.Error.{ok}
use delp.Config.{Field}
use delp.Wire.Ev
use delp.Wire.Ev.RoundTrip.{vector, parse_vector-serialise}
use delp.Wire.Ev.IdStorage.{IdStorageFormat, best_for, encode, decode}
use delp.Wire.Ev.IdStorage.RoundTrip.{SmallGaps, decode-encode, decode-best_for}

abbrev gapped : List ℕ
gapped = 11 ∷ 13 ∷ 300 ∷ []

gapped-SmallGaps : SmallGaps 10 gapped
unfolding SmallGaps
gapped-SmallGaps = (
  omega arith,
  omega arith,
  omega arith,
  (omega arith, omega arith, omega arith, (omega arith, omega arith, omega arith, tt)),
)

decode-encode_example :
    (bytes : List ℕ) × (encode (10 ∷ gapped) IdStorageFormat.compressed_list ≡ ok bytes)
    × (decode (bytes ++ 0 ∷ 0 ∷ []) 4 10 IdStorageFormat.compressed_list
        ≡ ok (10 ∷ gapped, length bytes))
decode-encode_example =
    decode-encode 10 gapped (0 ∷ 0 ∷ []) (omega arith) gapped-SmallGaps (omega arith)

decode-best_for_example :
    (bytes : List ℕ) × (encode (10 ∷ gapped) (best_for (10 ∷ gapped)) ≡ ok bytes)
    × (decode (bytes ++ 0 ∷ 0 ∷ []) 4 10 (best_for (10 ∷ gapped)) ≡ ok (10 ∷ gapped, length bytes))
decode-best_for_example =
    decode-best_for 10 gapped (0 ∷ 0 ∷ []) (omega arith) gapped-SmallGaps (omega arith)

parse_vector-serialise_example :
    (bytes : List ℕ) × (Ev.serialise (vector Field.gf2_4 77 3 (10 ∷ gapped) (1 ∷ 15 ∷ 0 ∷ 7 ∷ []))
      ≡ ok bytes)
    × (Ev.parse (bytes ++ 9 ∷ 9 ∷ []) 77
        ≡ ok (vector Field.gf2_4 77 3 (10 ∷ gapped) (1 ∷ 15 ∷ 0 ∷ 7 ∷ []), length bytes))
    × (length bytes % 4 ≡ 0)
    × (8 ≤ length bytes)
    × (length bytes / 4 < 196)
parse_vector-serialise_example =
    parse_vector-serialise Field.gf2_4 77 3 10 gapped (1 ∷ 15 ∷ 0 ∷ 7 ∷ []) (9 ∷ 9 ∷ [])
      (omega arith) gapped-SmallGaps (omega arith) refl
      (omega arith, (omega arith, (omega arith, (omega arith, tt))))
