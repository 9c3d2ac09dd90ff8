-- ===== src/Gf/Cyclic.antt =====
-- The tables of src/gf/tables.rs are cyclic tables of powers of 2; each fact is checked at every
-- index.
use native.Mathlib.Nat.{mod_self, mod-add-mod}
use delp.Prelude.{
  ℕ, ◌+◌, ◌/◌, ◌%◌, ◌<◌, ◌≡◌, refl, sym, ap, ◌∙◌, bit_xor, ◌==◌, arith, ltb, ◌&&◌, ◌||◌, Bool, true,
  all_below, all_below_lem, xor-half,
}
use delp.Gf.Tables.{gf2_4_exp, gf2_4_log, gf2_8_exp, gf2_8_log}
use delp.Gf.Gf2_4
use delp.Gf.Gf2_8
use delp.Gf.LogExp.{times_alpha, IsCyclic, Linear, times_alpha-Linear}

-- One test of all that is needed at the index `i` and at the element `i`.
power_test : (exp log : ℕ → ℕ) (bound n half poly i : ℕ) → Bool
power_test exp log bound n half poly i =
    ltb 0 (exp i) && ltb (exp i) bound && (exp ((i + 1) % n) == times_alpha half poly (exp i))

element_test : (exp log : ℕ → ℕ) (n a : ℕ) → Bool
element_test exp log n a = (a == 0) || ((exp (log a % n) == a) && ltb (log a) n)

power_table_8 : all_below 255 (power_test Gf2_8.exp_at Gf2_8.log_at 256 255 128 0x11d) ≡ true
unfolding all_below power_test times_alpha Gf2_8.exp_at Gf2_8.log_at gf2_8_exp gf2_8_log
power_table_8 = refl

element_table_8 : all_below 256 (element_test Gf2_8.exp_at Gf2_8.log_at 255) ≡ true
unfolding all_below element_test Gf2_8.exp_at Gf2_8.log_at gf2_8_exp gf2_8_log
element_table_8 = refl

power_table_4 : all_below 15 (power_test Gf2_4.exp_at Gf2_4.log_at 16 15 8 0x13) ≡ true
unfolding all_below power_test times_alpha Gf2_4.exp_at Gf2_4.log_at gf2_4_exp gf2_4_log
power_table_4 = refl

element_table_4 : all_below 16 (element_test Gf2_4.exp_at Gf2_4.log_at 15) ≡ true
unfolding all_below element_test Gf2_4.exp_at Gf2_4.log_at gf2_4_exp gf2_4_log
element_table_4 = refl

-- What the tests say, at an index below the period and at an element.
module _ (exp log : ℕ → ℕ) (bound n half poly : ℕ)
    (powers : all_below n (power_test exp log bound n half poly) ≡ true)
    (elements : all_below bound (element_test exp log n) ≡ true) (positive : 0 < n)
    (start : exp 0 ≡ 1) where
  -- `exp`, read round the cycle.
  abbrev cycle : ℕ → ℕ
  cycle i = exp (i % n)

  power_facts :
      (i : ℕ)
      → i < n
      → (0 < exp i) × (exp i < bound) × (exp ((i + 1) % n) ≡ times_alpha half poly (exp i))
  unfolding power_test
  power_facts i h = ground (arith, all_below_lem n _ i powers h)

  element_facts : (a : ℕ) → 0 < a → a < bound → (exp (log a % n) ≡ a) × (log a < n)
  unfolding element_test
  element_facts a p h = ground (arith, all_below_lem bound _ a elements h)

  cycle-IsCyclic : IsCyclic bound n half poly cycle log
  cycle-IsCyclic = record {
    start = ap exp (omega arith) ∙ start;
    turn = ap exp (mod_self n) ∙ start;
    nonzero = λ i. (power_facts (i % n) (omega arith)).0;
    below = λ i. (power_facts (i % n) (omega arith)).1;
    next = λ i. ap exp (sym (mod-add-mod i n 1)) ∙ (power_facts (i % n) (omega arith)).2;
    exp-log = λ a p h. (element_facts a p h).0;
    log-le = λ a p h. omega (arith, (element_facts a p h).1);
  }

abbrev pub cycle_8 : ℕ → ℕ
cycle_8 i = Gf2_8.exp_at (i % 255)

abbrev pub cycle_4 : ℕ → ℕ
cycle_4 i = Gf2_4.exp_at (i % 15)

pub cycle_8-IsCyclic : IsCyclic 256 255 128 0x11d cycle_8 Gf2_8.log_at
unfolding Gf2_8.exp_at gf2_8_exp
cycle_8-IsCyclic =
    cycle-IsCyclic Gf2_8.exp_at Gf2_8.log_at 256 255 128 0x11d power_table_8 element_table_8
      (omega arith) refl

pub cycle_4-IsCyclic : IsCyclic 16 15 8 0x13 cycle_4 Gf2_4.log_at
unfolding Gf2_4.exp_at gf2_4_exp
cycle_4-IsCyclic =
    cycle-IsCyclic Gf2_4.exp_at Gf2_4.log_at 16 15 8 0x13 power_table_4 element_table_4
      (omega arith) refl

-- The top bit of `a ^ b`, one halving at a time.
xor-eighth : (a b : ℕ) → bit_xor a b / 8 ≡ bit_xor (a / 8) (b / 8)
xor-eighth a b =
    let p : a / 2 / 2 / 2 ≡ a / 8 = omega arith in
    let q : b / 2 / 2 / 2 ≡ b / 8 = omega arith in
    let e : bit_xor a b / 8 ≡ bit_xor (a / 2 / 2 / 2) (b / 2 / 2 / 2) =
      omega (arith, xor-half a b, xor-half (a / 2) (b / 2), xor-half (a / 2 / 2) (b / 2 / 2)) in
    rw (p, q) at e

xor-top : (a b : ℕ) → bit_xor a b / 128 ≡ bit_xor (a / 128) (b / 128)
xor-top a b =
    let p : a / 8 / 8 / 2 ≡ a / 128 = omega arith in
    let q : b / 8 / 8 / 2 ≡ b / 128 = omega arith in
    let e : bit_xor a b / 128 ≡ bit_xor (a / 8 / 8 / 2) (b / 8 / 8 / 2) =
      omega (arith, xor-eighth a b, xor-eighth (a / 8) (b / 8), xor-half (a / 8 / 8) (b / 8 / 8)) in
    rw (p, q) at e

pub times_alpha_8-Linear : Linear 256 128 0x11d
times_alpha_8-Linear = times_alpha-Linear 256 128 0x11d xor-top (λ a p. omega arith)

pub times_alpha_4-Linear : Linear 16 8 0x13
times_alpha_4-Linear = times_alpha-Linear 16 8 0x13 xor-eighth (λ a p. omega arith)

-- The doubled table is read inside its first two cycles, and there it goes round.
wrap_table : all_below 511 (λ i. Gf2_8.exp_at i == Gf2_8.exp_at (i % 255)) ≡ true
unfolding all_below Gf2_8.exp_at gf2_8_exp
wrap_table = refl

pub exp_at-cycle : (i : ℕ) → i < 511 → Gf2_8.exp_at i ≡ cycle_8 i
exp_at-cycle i h = ground (arith, all_below_lem 511 _ i wrap_table h)
