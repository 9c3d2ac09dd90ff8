-- ===== src/Codec/Dense.antt =====
-- src/codec/decoder/matrix.rs: `DenseCoefs`, a row of coefficients from a first source ID on, and
-- the field operations of the decoding matrix. The kernels of the bulk routines are a parameter.
pub mod Places
pub mod Bulk
pub mod Entries
pub mod Pivot
pub mod FromMap
pub mod Sum
use delp.Prelude.{
  ℕ, zero, suc, ◌+◌, ◌-◌, Bool, true, false, ◌&&◌, not, Option, none, some, List, [], ◌∷◌, ◌++◌,
  ltb, leb, ◌==◌, if◌then◌else◌, length, get_or, set, take, drop, replicate, u32, wrapping_sub,
  bit_and,
}
use mathlib.Core.Option
use delp.Error.{Result, ok, err, panic, ◌>>=◌, ◌>>◌, division_by_zero}
use delp.Config.{Field}
use delp.Gf.Gf2_4
use delp.Gf.Gf2_4.{gf2_4}
use delp.Gf.Gf2_8.{gf2_8}
use delp.Gf.Simd.{Kernels, mul_acc_gf2_8, mul_acc_gf2_4, mul_scale_gf2_8, mul_scale_gf2_4}
use delp.Wire.Slice.{slice}

-- `match field { Gf2_8 => mul_acc_gf2_8(...), Gf2_4 => mul_acc_gf2_4(...) }`, and the same for scaling.
unfoldable pub mul_acc : Kernels → Field → List ℕ → List ℕ → ℕ → Result (List ℕ)
mul_acc k Field.gf2_8 dst src c = mul_acc_gf2_8 k dst src c
mul_acc k Field.gf2_4 dst src c = mul_acc_gf2_4 k dst src c

unfoldable pub mul_scale : Kernels → Field → List ℕ → ℕ → List ℕ
mul_scale k Field.gf2_8 buf c = mul_scale_gf2_8 k buf c
mul_scale k Field.gf2_4 buf c = mul_scale_gf2_4 k buf c

unfoldable pub gf_inv : Field → ℕ → Result ℕ
gf_inv Field.gf2_8 v = if v == 0 then err division_by_zero else gf2_8.inv v
gf_inv Field.gf2_4 v =
    if v == 0 then err division_by_zero else gf2_4.inv (Gf2_4.new (bit_and v 0x0f))

unfoldable pub gf_mul : Field → ℕ → ℕ → ℕ
gf_mul Field.gf2_8 a b = gf2_8.mul a b
gf_mul Field.gf2_4 a b = gf2_4.mul (Gf2_4.new (bit_and a 0x0f)) (Gf2_4.new (bit_and b 0x0f))

pub record DenseCoefs : Type 0 where
  pub base_id : ℕ
  pub coefs : List ℕ

unfoldable pub new : ℕ → ℕ → DenseCoefs
new base_id len = record { base_id = base_id; coefs = replicate len 0 }

-- The last key of a map that is not empty.
unfoldable pub max_key : ℕ → List (ℕ × ℕ) → ℕ
max_key id [] = id
max_key id ((next, c) ∷ map) = max_key next map

unfoldable pub fill : ℕ → List (ℕ × ℕ) → List ℕ → List ℕ
fill min [] coefs = coefs
fill min ((id, c) ∷ map) coefs = fill min map (set coefs (id - min) c)

-- The map is in ascending order of its keys.
unfoldable pub from_map : List (ℕ × ℕ) → DenseCoefs
from_map [] = record { base_id = 0; coefs = [] }
from_map ((min, c) ∷ map) =
    let len = max_key min map - min + 1 in
    record { base_id = min; coefs = fill min ((min, c) ∷ map) (new min len).coefs }

unfoldable pub get : DenseCoefs → ℕ → ℕ
get d id = if ltb id d.base_id then 0 else get_or d.coefs (id - d.base_id) 0

-- The coefficients with IDs below the first one, or with IDs behind the last one.
unfoldable pub ensure_covers : DenseCoefs → ℕ → DenseCoefs
ensure_covers d id =
    if length d.coefs == 0
    then (record { base_id = id; coefs = 0 ∷ [] })
    else if ltb id d.base_id
    then (record { base_id = id; coefs = replicate (d.base_id - id) 0 ++ d.coefs })
    else (record {
      base_id = d.base_id;
      coefs = d.coefs ++ replicate (id - d.base_id + 1 - length d.coefs) 0;
    })

unfoldable pub set_coef : DenseCoefs → ℕ → ℕ → DenseCoefs
set_coef d id val =
    let c = ensure_covers d id in
    record { base_id = c.base_id; coefs = set c.coefs (id - c.base_id) val }

-- `&mut self.coefs[off..off + len]` accumulates `factor * other`.
unfoldable pub acc_slice : Kernels → Field → List ℕ → ℕ → List ℕ → ℕ → Result (List ℕ)
acc_slice k field coefs off other factor = do
  dst ← slice coefs off (off + length other)
  done ← mul_acc k field dst other factor
  ok (take off coefs ++ (done ++ drop (off + length other) coefs))

unfoldable pub subtract_scaled : Kernels → Field → DenseCoefs → DenseCoefs → ℕ → Result DenseCoefs
subtract_scaled k field d other factor =
    let other_end = u32 (other.base_id + length other.coefs) in
    let covered = ensure_covers (ensure_covers d other.base_id) (other_end - 1) in
    if length other.coefs == 0 then ok d else if factor == 0 then ok d else (do
      coefs ← acc_slice k field covered.coefs (other.base_id - covered.base_id) other.coefs factor
      ok (record { base_id = covered.base_id; coefs = coefs }))

unfoldable pub scale : Kernels → Field → DenseCoefs → ℕ → DenseCoefs
scale k field d factor = record { base_id = d.base_id; coefs = mul_scale k field d.coefs factor }

-- The first nonzero coefficient with its ID. The IDs of a row are `u32`, so that adding to the first
-- one does not wrap.
unfoldable pub first_nonzero : ℕ → List ℕ → Option (ℕ × ℕ)
first_nonzero id [] = none
first_nonzero id (c ∷ coefs) =
    let rest = first_nonzero (id + 1) coefs in if c == 0 then rest else some (id, c)

unfoldable pub all_zero : List ℕ → Bool
all_zero [] = true
all_zero (c ∷ coefs) = (c == 0) && all_zero coefs

-- A second nonzero coefficient makes the loop return `None`.
unfoldable pub only_nonzero : ℕ → List ℕ → Option ℕ
only_nonzero id [] = none
only_nonzero id (c ∷ coefs) =
    let rest = only_nonzero (id + 1) coefs in
    if c == 0 then rest else if all_zero coefs then some id else none

unfoldable pub is_solved : DenseCoefs → Option ℕ
is_solved d = only_nonzero d.base_id d.coefs

unfoldable pub pivot_id : DenseCoefs → Option ℕ
pivot_id d = Option.map (λ e. e.0) (first_nonzero d.base_id d.coefs)

unfoldable pub pivot_coef : DenseCoefs → Option ℕ
pivot_coef d = Option.map (λ e. e.1) (first_nonzero d.base_id d.coefs)

-- `remove`: an ID outside the row changes nothing.
unfoldable pub remove : DenseCoefs → ℕ → DenseCoefs
remove d id =
    if ltb id d.base_id
    then d
    else (record { base_id = d.base_id; coefs = set d.coefs (id - d.base_id) 0 })

unfoldable pub is_zero : DenseCoefs → Bool
is_zero d = all_zero d.coefs

unfoldable pub nonzero_from : ℕ → List ℕ → List ℕ
nonzero_from id [] = []
nonzero_from id (c ∷ coefs) =
    let rest = nonzero_from (id + 1) coefs in if c == 0 then rest else id ∷ rest

unfoldable pub nonzero_ids : DenseCoefs → List ℕ
nonzero_ids d = nonzero_from d.base_id d.coefs
