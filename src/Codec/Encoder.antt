-- ===== src/Codec/Encoder.antt =====
-- src/codec/encoder/mod.rs: the coded IDs that the encoder gives out.
pub mod Cycle
pub mod Policies
pub mod State
pub mod Session
pub mod Reachable
pub mod Feedback
use delp.Prelude.{ℕ, ◌+◌, ◌%◌, ◌^◌, leb, if◌then◌else◌, u32}
use delp.Config.{Field, gf2_8, gf2_4, MatrixStrategy, vandermonde, cauchy}

-- The three counters of `Encoder`. Its configuration does not change and is passed along.
pub record CodedIds : Type 0 where
  pub next_coded_id : ℕ
  pub coded_ids_used : ℕ
  pub generation : ℕ

unfoldable pub first_id : MatrixStrategy → ℕ
first_id cauchy = 0
first_id vandermonde = 1

-- The counters that `Encoder::new` starts with.
unfoldable pub new_ids : MatrixStrategy → CodedIds
new_ids strategy = record { next_coded_id = first_id strategy; coded_ids_used = 0; generation = 0 }

unfoldable pub coded_id_cycle : MatrixStrategy → Field → ℕ
coded_id_cycle cauchy gf2_8 = 128
coded_id_cycle cauchy gf2_4 = 7
coded_id_cycle vandermonde gf2_8 = 254
coded_id_cycle vandermonde gf2_4 = 14

unfoldable pub order_minus_1 : Field → ℕ
order_minus_1 gf2_8 = 255
order_minus_1 gf2_4 = 15

-- The test for a wrap, on the next ID that was counted up, by strategy.
unfoldable pub wrap_id : MatrixStrategy → Field → CodedIds → CodedIds
wrap_id vandermonde field ids =
    if leb (order_minus_1 field) ids.next_coded_id then record ids { next_coded_id = 1 } else ids
wrap_id cauchy field ids =
    if leb (coded_id_cycle cauchy field) ids.next_coded_id
    then record ids { next_coded_id = 0; generation = (ids.generation + 1) % 2 ^ 8 }
    else ids

-- What one call of `generate_coded_inner` does to the counters.
unfoldable pub next_ids : MatrixStrategy → Field → CodedIds → CodedIds
next_ids strategy field ids = wrap_id strategy field (record ids {
  next_coded_id = u32 (ids.next_coded_id + 1);
  coded_ids_used = (ids.coded_ids_used + 1) % 2 ^ 64;
})
