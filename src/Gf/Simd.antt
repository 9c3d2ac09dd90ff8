-- ===== src/Gf/Simd.antt =====
-- src/gf/simd.rs: bulk arithmetic by split-nibble tables, the scalar kernels and the reference
-- routines. A buffer is a list of bytes, and an in-place routine returns the new buffer. The
-- kernels that `match dispatch()` chooses are a record, which the scalar fallback fills here.
pub mod Laws
use delp.Prelude.{
  ℕ, zero, suc, ◌+◌, ◌*◌, ◌/◌, ◌%◌, ◌≡◌, bit_and, bit_or, bit_xor, ◌==◌, if◌then◌else◌, Bool, List,
  [], ◌∷◌, map, get_or, length, u8, replicate,
}
use delp.Error.{Result, ok, panic}
use delp.Gf.Gf2_4
use delp.Gf.Gf2_8

pub record NibbleTables : Type 0 where
  pub lo : List ℕ
  pub hi : List ℕ

-- `for x in 0..16 { table[x] = entry(x) }`, from `x` on with `rounds` to go.
unfoldable pub fill_table : (ℕ → ℕ) → ℕ → ℕ → List ℕ
fill_table entry zero x = []
fill_table entry (suc rounds) x = entry x ∷ fill_table entry rounds (x + 1)

unfoldable pub for_gf2_8 : ℕ → NibbleTables
for_gf2_8 coef = record {
  lo = fill_table (λ x. Gf2_8.gf2_8_mul_raw x coef) 16 0;
  hi = fill_table (λ x. Gf2_8.gf2_8_mul_raw (u8 (x * 16)) coef) 16 0;
}

unfoldable pub for_gf2_4 : ℕ → NibbleTables
for_gf2_4 coef = record {
  lo = fill_table (λ x. Gf2_4.gf2_4_mul_raw x (bit_and coef 0x0f)) 16 0;
  hi = fill_table (λ x. u8 (Gf2_4.gf2_4_mul_raw x (coef / 16) * 16)) 16 0;
}

-- The entry of a byte: `t.lo[s & 0x0F] ^ t.hi[s >> 4]`.
unfoldable pub nibble_entry : NibbleTables → ℕ → ℕ
nibble_entry t s = bit_xor (get_or t.lo (bit_and s 0x0f) 0) (get_or t.hi (s / 16) 0)

unfoldable pub scalar_mul_acc : List ℕ → List ℕ → NibbleTables → List ℕ
scalar_mul_acc [] src t = []
scalar_mul_acc (d ∷ dst) [] t = d ∷ dst
scalar_mul_acc (d ∷ dst) (s ∷ src) t = bit_xor d (nibble_entry t s) ∷ scalar_mul_acc dst src t

unfoldable pub scalar_mul_scale : List ℕ → NibbleTables → List ℕ
scalar_mul_scale dst t = map (nibble_entry t) dst

pub record Kernels : Type 0 where
  pub mul_acc : List ℕ → List ℕ → NibbleTables → List ℕ
  pub mul_scale : List ℕ → NibbleTables → List ℕ

-- `Dispatch::Scalar`.
abbrev pub scalar : Kernels
scalar = record { mul_acc = scalar_mul_acc; mul_scale = scalar_mul_scale }

-- `gf2_8_tbl()[c]` is `for_gf2_8 c`, and `gf2_4_tbl()[c]` is `for_gf2_4 c`.
unfoldable pub mul_acc_gf2_8 : Kernels → List ℕ → List ℕ → ℕ → Result (List ℕ)
mul_acc_gf2_8 k dst src coef =
    if length dst == length src
    then (if coef == 0 then ok dst else ok (k.mul_acc dst src (for_gf2_8 coef)))
    else panic

unfoldable pub mul_scale_gf2_8 : Kernels → List ℕ → ℕ → List ℕ
mul_scale_gf2_8 k buf coef =
    if coef == 0
    then replicate (length buf) 0
    else if coef == 1
    then buf
    else k.mul_scale buf (for_gf2_8 coef)

-- The scalar in both nibbles.
unfoldable pub broadcast : ℕ → ℕ
broadcast c = bit_or (u8 (c * 16)) c

unfoldable pub mul_acc_gf2_4 : Kernels → List ℕ → List ℕ → ℕ → Result (List ℕ)
mul_acc_gf2_4 k dst src coef =
    let c = bit_and coef 0x0f in
    if length dst == length src
    then (if c == 0 then ok dst else ok (k.mul_acc dst src (for_gf2_4 (broadcast c))))
    else panic

unfoldable pub mul_scale_gf2_4 : Kernels → List ℕ → ℕ → List ℕ
mul_scale_gf2_4 k buf coef =
    let c = bit_and coef 0x0f in
    if c == 0 then replicate (length buf) 0 else k.mul_scale buf (for_gf2_4 (broadcast c))

unfoldable pub mul_acc_gf2_8_reference : List ℕ → List ℕ → ℕ → List ℕ
mul_acc_gf2_8_reference [] src coef = []
mul_acc_gf2_8_reference (d ∷ dst) [] coef = d ∷ dst
mul_acc_gf2_8_reference (d ∷ dst) (s ∷ src) coef =
    bit_xor d (Gf2_8.gf2_8_mul_raw s coef) ∷ mul_acc_gf2_8_reference dst src coef

unfoldable pub mul_scale_gf2_8_reference : List ℕ → ℕ → List ℕ
mul_scale_gf2_8_reference buf coef = map (λ b. Gf2_8.gf2_8_mul_raw b coef) buf

unfoldable pub mul_acc_gf2_4_reference : List ℕ → List ℕ → ℕ → List ℕ
mul_acc_gf2_4_reference [] src coef = []
mul_acc_gf2_4_reference (d ∷ dst) [] coef = d ∷ dst
mul_acc_gf2_4_reference (d ∷ dst) (s ∷ src) coef =
    let c = bit_and coef 0x0f in
    let hi = u8 (Gf2_4.gf2_4_mul_raw (bit_and (s / 16) 0x0f) c * 16) in
    let lo = Gf2_4.gf2_4_mul_raw (bit_and s 0x0f) c in
    bit_xor d (bit_or hi lo) ∷ mul_acc_gf2_4_reference dst src coef
