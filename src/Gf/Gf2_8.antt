-- ===== src/Gf/Gf2_8.antt =====
-- src/gf/gf2_8.rs: the field of 256 elements.
use delp.Prelude.{ℕ, ◌+◌, ◌-◌, ◌%◌, bit_xor, ◌||◌, ◌==◌, if◌then◌else◌, get_or}
use delp.Error.{Result, ok, panic}
use delp.Gf.Tables.{gf2_8_exp, gf2_8_log, gf2_8_order}
use delp.Gf.Field.{GfField}

-- `GF2_8_LOG[a]` and `GF2_8_EXP[i]`.
unfoldable pub log_at : ℕ → ℕ
log_at a = get_or gf2_8_log a 0

unfoldable pub exp_at : ℕ → ℕ
exp_at i = get_or gf2_8_exp i 0

unfoldable pub gf2_8_mul_raw : ℕ → ℕ → ℕ
gf2_8_mul_raw a b = if a == 0 || b == 0 then 0 else exp_at (log_at a + log_at b)

unfoldable pub add : ℕ → ℕ → ℕ
add a b = bit_xor a b

unfoldable pub inv : ℕ → Result ℕ
inv a = if a == 0 then panic else ok (exp_at (255 - log_at a))

unfoldable pub alpha_pow : ℕ → ℕ
alpha_pow e = exp_at (e % 255)

abbrev pub gf2_8 : GfField
gf2_8 = record {
  order = gf2_8_order;
  coef_bits = 8;
  zero = 0;
  one = 1;
  add = add;
  mul = gf2_8_mul_raw;
  inv = inv;
  alpha_pow = alpha_pow;
  from_u8 = λ v. v;
  to_u8 = λ v. v;
}
