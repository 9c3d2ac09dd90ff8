-- ===== src/Codec/Encoder/Cycle.antt =====
-- The coded IDs and generations of a whole session.
use delp.Prelude.{ℕ, suc, ◌+◌, ◌/◌, ◌%◌, ◌^◌, ◌≡◌, refl, arith}
use delp.Config.{Field, gf2_8, gf2_4, MatrixStrategy, vandermonde, cauchy}
use delp.Codec.Encoder.{
  CodedIds, first_id, new_ids, coded_id_cycle, order_minus_1, wrap_id, next_ids,
}

-- The generation after that many coded packets: the Cauchy strategy counts its cycles in a byte.
unfoldable pub generation_after : MatrixStrategy → Field → ℕ → ℕ
generation_after cauchy field n = n / coded_id_cycle cauchy field % 2 ^ 8
generation_after vandermonde field n = 0

-- The counters that hold after `n` coded packets, written out.
unfoldable pub IsAfter : MatrixStrategy → Field → ℕ → CodedIds → Type 0
IsAfter strategy field n ids =
    (ids.next_coded_id ≡ first_id strategy + n % coded_id_cycle strategy field)
    × (ids.coded_ids_used ≡ n % 2 ^ 64)
    × (ids.generation ≡ generation_after strategy field n)

pub next_ids-IsAfter :
    (strategy : MatrixStrategy) (field : Field) (n : ℕ) (ids : CodedIds)
    → IsAfter strategy field n ids
    → IsAfter strategy field (suc n) (next_ids strategy field ids)
unfolding IsAfter next_ids wrap_id first_id coded_id_cycle order_minus_1 generation_after
next_ids-IsAfter vandermonde gf2_8 n ids (a, b, c) = (ground arith, ground arith, ground arith)
next_ids-IsAfter vandermonde gf2_4 n ids (a, b, c) = (ground arith, ground arith, ground arith)
next_ids-IsAfter cauchy gf2_8 n ids (a, b, c) = (ground arith, ground arith, ground arith)
next_ids-IsAfter cauchy gf2_4 n ids (a, b, c) = (ground arith, ground arith, ground arith)

pub new_ids-IsAfter :
    (strategy : MatrixStrategy) (field : Field) → IsAfter strategy field 0 (new_ids strategy)
unfolding IsAfter new_ids first_id coded_id_cycle generation_after
new_ids-IsAfter vandermonde gf2_8 = (refl, refl, refl)
new_ids-IsAfter vandermonde gf2_4 = (refl, refl, refl)
new_ids-IsAfter cauchy gf2_8 = (refl, refl, refl)
new_ids-IsAfter cauchy gf2_4 = (refl, refl, refl)
