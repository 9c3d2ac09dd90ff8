-- ===== src/Wire/Ev/CoefGen.antt =====
-- src/wire/ev/coef_gen.rs: Vandermonde and Cauchy coefficients.
pub mod Cauchy
use delp.Prelude.{
  ℕ, ◌+◌, ◌*◌, ◌%◌, ◌^◌, bit_and, bit_or, bit_xor, Bool, List, [], ◌∷◌, map, ◌==◌, if◌then◌else◌,
  u8, u32, not,
}
use delp.Error.{Result, ok, ◌>>=◌}
use delp.Config.{Field}
use delp.Gf.Field.{vandermonde}
use delp.Gf.Gf2_4.{gf2_4}
use delp.Gf.Gf2_8.{gf2_8}

unfoldable pub vandermonde_coef : Field → ℕ → ℕ → ℕ
vandermonde_coef Field.gf2_8 src_id coded_id = vandermonde gf2_8 src_id coded_id
vandermonde_coef Field.gf2_4 src_id coded_id = vandermonde gf2_4 src_id coded_id

unfoldable pub vandermonde_packed_gf2_4 : ℕ → ℕ → ℕ → ℕ
vandermonde_packed_gf2_4 src_id_hi src_id_lo coded_id =
    let hi = bit_and (vandermonde gf2_4 src_id_hi coded_id) 0x0f in
    let lo = bit_and (vandermonde gf2_4 src_id_lo coded_id) 0x0f in bit_or (u8 (hi * 16)) lo

unfoldable pub vandermonde_batch : Field → List ℕ → ℕ → List ℕ
vandermonde_batch Field.gf2_8 source_ids coded_id =
    map (λ sid. vandermonde gf2_8 sid coded_id) source_ids
vandermonde_batch Field.gf2_4 source_ids coded_id =
    map (λ sid. bit_and (vandermonde gf2_4 sid coded_id) 0x0f) source_ids

-- The two points; `inv` of their sum panics only if they meet.
unfoldable pub cauchy_x_gf2_8 : ℕ → ℕ
cauchy_x_gf2_8 src_id = u8 (bit_and src_id 0x7f)

unfoldable pub cauchy_y_gf2_8 : ℕ → ℕ → ℕ
cauchy_y_gf2_8 coded_id generation =
    u8 (128 + u8 (bit_and (u32 (coded_id + u32 (generation * 7))) 0x7f))

unfoldable pub cauchy_coef_gf2_8 : ℕ → ℕ → ℕ → Result ℕ
unfolding cauchy_x_gf2_8 cauchy_y_gf2_8
cauchy_coef_gf2_8 src_id coded_id generation =
    gf2_8.inv (bit_xor (cauchy_x_gf2_8 src_id) (cauchy_y_gf2_8 coded_id generation))

unfoldable pub cauchy_x_gf2_4 : ℕ → ℕ
cauchy_x_gf2_4 src_id = u8 (src_id % 7)

unfoldable pub cauchy_y_gf2_4 : ℕ → ℕ → ℕ
cauchy_y_gf2_4 coded_id generation = u8 (8 + u8 (u32 (coded_id + u32 (generation * 3)) % 7))

unfoldable pub cauchy_coef_gf2_4 : ℕ → ℕ → ℕ → Result ℕ
unfolding cauchy_x_gf2_4 cauchy_y_gf2_4
cauchy_coef_gf2_4 src_id coded_id generation =
    gf2_4.inv (gf2_4.from_u8 (bit_xor (cauchy_x_gf2_4 src_id) (cauchy_y_gf2_4 coded_id generation)))

-- `iter().map(...).collect()` with a body that may panic.
unfoldable pub collect : (ℕ → Result ℕ) → List ℕ → Result (List ℕ)
collect coef [] = ok []
collect coef (sid ∷ source_ids) = do c ← coef sid; cs ← collect coef source_ids; ok (c ∷ cs)

unfoldable pub cauchy_batch_gf2_8 : List ℕ → ℕ → ℕ → Result (List ℕ)
unfolding cauchy_coef_gf2_8 collect
cauchy_batch_gf2_8 source_ids coded_id generation =
    collect (λ sid. cauchy_coef_gf2_8 sid coded_id generation) source_ids

unfoldable pub cauchy_batch_gf2_4 : List ℕ → ℕ → ℕ → Result (List ℕ)
unfolding cauchy_coef_gf2_4 collect
cauchy_batch_gf2_4 source_ids coded_id generation =
    collect (λ sid. cauchy_coef_gf2_4 sid coded_id generation) source_ids

unfoldable pub verify_cauchy_2x2_nonsingular : ℕ → ℕ → ℕ → ℕ → Result Bool
verify_cauchy_2x2_nonsingular s0 s1 c0 c1 = do
  a00 ← cauchy_coef_gf2_8 s0 c0 0
  a01 ← cauchy_coef_gf2_8 s0 c1 0
  a10 ← cauchy_coef_gf2_8 s1 c0 0
  a11 ← cauchy_coef_gf2_8 s1 c1 0
  ok (not (gf2_8.add (gf2_8.mul a00 a11) (gf2_8.mul a01 a10) == gf2_8.zero))

unfoldable pub verify_cauchy_gf2_4_2x2_nonsingular : ℕ → ℕ → ℕ → ℕ → Result Bool
verify_cauchy_gf2_4_2x2_nonsingular s0 s1 c0 c1 = do
  a00 ← cauchy_coef_gf2_4 s0 c0 0
  a01 ← cauchy_coef_gf2_4 s0 c1 0
  a10 ← cauchy_coef_gf2_4 s1 c0 0
  a11 ← cauchy_coef_gf2_4 s1 c1 0
  let a00' = gf2_4.from_u8 a00
  let a01' = gf2_4.from_u8 a01
  let a10' = gf2_4.from_u8 a10
  let a11' = gf2_4.from_u8 a11
  ok (not (gf2_4.add (gf2_4.mul a00' a11') (gf2_4.mul a01' a10') == gf2_4.zero))
