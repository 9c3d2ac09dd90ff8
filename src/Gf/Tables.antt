-- ===== src/Gf/Tables.antt =====
-- src/gf/tables.rs: the log and exp tables, built by the loops of the source. An array is a list.
use delp.Prelude.{
  ℕ, zero, suc, ◌+◌, ◌-◌, ◌*◌, bit_and, bit_xor, List, u8, ◌==◌, if◌then◌else◌, get_or, set,
  replicate,
}

abbrev pub gf2_4_order : ℕ
gf2_4_order = 16

abbrev pub gf2_4_poly : ℕ
gf2_4_poly = 0b0001_0011

-- `x <<= 1` on a `u8`, then the reduction.
unfoldable pub step_gf2_4 : ℕ → ℕ
step_gf2_4 x =
    let y : ℕ = u8 (x * 2) in
    if bit_and y 0x10 == 0
    then y
    else bit_and (bit_xor (bit_xor y (bit_and gf2_4_poly 0x0f)) 0x10) 0x0f

-- The loop at index `i` with `rounds` to go.
unfoldable pub fill_exp_gf2_4 : ℕ → ℕ → ℕ → List ℕ → List ℕ
fill_exp_gf2_4 zero i x exp = exp
fill_exp_gf2_4 (suc rounds) i x exp = fill_exp_gf2_4 rounds (i + 1) (step_gf2_4 x) (set exp i x)

unfoldable pub gf2_4_exp : List ℕ
unfolding fill_exp_gf2_4 step_gf2_4
gf2_4_exp = set (fill_exp_gf2_4 (gf2_4_order - 1) 0 1 (replicate gf2_4_order 0)) (gf2_4_order - 1) 1

-- The loop of both log tables: `log[exp[i]] = i`.
unfoldable pub fill_log : List ℕ → ℕ → ℕ → List ℕ → List ℕ
fill_log exp zero i log = log
fill_log exp (suc rounds) i log = fill_log exp rounds (i + 1) (set log (get_or exp i 0) (u8 i))

unfoldable pub gf2_4_log : List ℕ
unfolding gf2_4_exp fill_log
gf2_4_log = fill_log gf2_4_exp (gf2_4_order - 1) 0 (replicate gf2_4_order 0xff)

abbrev pub gf2_8_order : ℕ
gf2_8_order = 256

abbrev pub gf2_8_poly : ℕ
gf2_8_poly = 0x11d

-- `x <<= 1` on a `u16`, which the values stay far below, then the reduction.
unfoldable pub step_gf2_8 : ℕ → ℕ
step_gf2_8 x = let y : ℕ = x * 2 in if bit_and y 0x100 == 0 then y else bit_xor y gf2_8_poly

unfoldable pub fill_exp_gf2_8 : ℕ → ℕ → ℕ → List ℕ → List ℕ
fill_exp_gf2_8 zero i x exp = exp
fill_exp_gf2_8 (suc rounds) i x exp =
    fill_exp_gf2_8 rounds (i + 1) (step_gf2_8 x) (set exp i (u8 x))

-- `exp[255 + j] = exp[j]`.
unfoldable pub mirror_exp : ℕ → ℕ → List ℕ → List ℕ
mirror_exp zero j exp = exp
mirror_exp (suc rounds) j exp = mirror_exp rounds (j + 1) (set exp (255 + j) (get_or exp j 0))

unfoldable pub gf2_8_exp : List ℕ
unfolding fill_exp_gf2_8 step_gf2_8 mirror_exp
gf2_8_exp =
    let exp = mirror_exp 255 0 (fill_exp_gf2_8 255 0 1 (replicate 512 0)) in
    set exp 510 (get_or exp 0 0)

unfoldable pub gf2_8_log : List ℕ
unfolding gf2_8_exp fill_log
gf2_8_log = fill_log gf2_8_exp 255 0 (replicate gf2_8_order 0xff)
