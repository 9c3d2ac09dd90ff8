-- ===== src/Gf/Action.antt =====
-- src/gf/simd.rs: what the bulk routines do to one byte. A scalar of GF(2^8) multiplies the byte, a
-- scalar of GF(2^4) both of its nibbles.
pub mod Laws
use delp.Prelude.{ℕ, ◌+◌, ◌*◌, ◌/◌, ◌%◌}
use delp.Config.{Field}
use delp.Gf.Gf2_4
use delp.Gf.Gf2_8

abbrev pub order : Field → ℕ
order Field.gf2_8 = 256
order Field.gf2_4 = 16

unfoldable pub act : Field → ℕ → ℕ → ℕ
act Field.gf2_8 c b = Gf2_8.gf2_8_mul_raw b c
act Field.gf2_4 c b = Gf2_4.gf2_4_mul_raw (b / 16) c * 16 + Gf2_4.gf2_4_mul_raw (b % 16) c
