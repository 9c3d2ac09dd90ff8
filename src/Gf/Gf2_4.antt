-- ===== src/Gf/Gf2_4.antt =====
-- src/gf/gf2_4.rs: the field of 16 elements, two to a byte of a payload.
use delp.Prelude.{
  ℕ, ◌+◌, ◌-◌, ◌*◌, ◌/◌, ◌%◌, bit_and, bit_or, bit_xor, ◌||◌, ◌==◌, if◌then◌else◌, get_or, u8,
}
use delp.Error.{Result, ok, panic}
use delp.Gf.Tables.{gf2_4_exp, gf2_4_log, gf2_4_order}
use delp.Gf.Field.{GfField}

unfoldable pub log_at : ℕ → ℕ
log_at a = get_or gf2_4_log a 0

unfoldable pub exp_at : ℕ → ℕ
exp_at i = get_or gf2_4_exp i 0

-- `Gf2_4::new`.
unfoldable pub new : ℕ → ℕ
new v = bit_and v 0x0f

unfoldable pub gf2_4_mul_raw : ℕ → ℕ → ℕ
gf2_4_mul_raw a b =
    if a == 0 || b == 0 then 0 else exp_at ((log_at a + log_at b) % (gf2_4_order - 1))

unfoldable pub mul_packed_byte : ℕ → ℕ → ℕ
mul_packed_byte byte coef =
    let hi_out = gf2_4_mul_raw (bit_and (byte / 16) 0x0f) (bit_and (coef / 16) 0x0f) in
    let lo_out = gf2_4_mul_raw (bit_and byte 0x0f) (bit_and coef 0x0f) in
    bit_or (u8 (hi_out * 16)) lo_out

unfoldable pub mul_acc_byte : ℕ → ℕ → ℕ → ℕ
mul_acc_byte dst src coef = bit_xor dst (mul_packed_byte src coef)

unfoldable pub add : ℕ → ℕ → ℕ
add a b = bit_xor a b

unfoldable pub inv : ℕ → Result ℕ
inv a = if a == 0 then panic else ok (exp_at ((gf2_4_order - 1 - log_at a) % (gf2_4_order - 1)))

unfoldable pub alpha_pow : ℕ → ℕ
alpha_pow e = exp_at (e % (gf2_4_order - 1))

abbrev pub gf2_4 : GfField
gf2_4 = record {
  order = gf2_4_order;
  coef_bits = 4;
  zero = 0;
  one = 1;
  add = add;
  mul = gf2_4_mul_raw;
  inv = inv;
  alpha_pow = alpha_pow;
  from_u8 = λ v. bit_and v 0x0f;
  to_u8 = λ v. v;
}
