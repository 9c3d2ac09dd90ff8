-- ===== src/Gf/Field.antt =====
-- src/gf/mod.rs: the trait `Field`, as a record of its required items, with its provided methods
-- as functions over it. An element is the number that its byte holds; `inv` may panic.
use delp.Prelude.{ℕ, ◌-◌, ◌*◌, ◌%◌}
use delp.Error.{Result, ok, ◌>>=◌}

pub record GfField : Type 0 where
  pub order : ℕ
  pub coef_bits : ℕ
  pub zero : ℕ
  pub one : ℕ
  pub add : ℕ → ℕ → ℕ
  pub mul : ℕ → ℕ → ℕ
  pub inv : ℕ → Result ℕ
  pub alpha_pow : ℕ → ℕ
  pub from_u8 : ℕ → ℕ
  pub to_u8 : ℕ → ℕ

unfoldable pub sub : GfField → ℕ → ℕ → ℕ
sub f a b = f.add a b

unfoldable pub div : GfField → ℕ → ℕ → Result ℕ
div f a b = do c ← f.inv b; ok (f.mul a c)

-- The product of two `u32` fits the `u64` it is computed in.
unfoldable pub vandermonde : GfField → ℕ → ℕ → ℕ
vandermonde f src_id coded_id = f.alpha_pow ((src_id * coded_id) % (f.order - 1))
