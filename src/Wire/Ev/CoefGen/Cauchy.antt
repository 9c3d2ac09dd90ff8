-- ===== src/Wire/Ev/CoefGen/Cauchy.antt =====
-- The GF(2^8) Cauchy coefficients: their inverses, and exactly which 2 by 2 minors are regular.
use delp.Prelude.{
  ℕ, [], ◌∷◌, Bool-cases, ◌↔◌, ◌+◌, ◌*◌, ◌%◌, ◌<◌, ◌≡◌, ◌≢◌, refl, sym, ap, ap₂, ◌∙◌, bit_xor,
  arith, and_mask, xor-lt-pow, xor-eq-zero, xor_self, u32, not, ◌||◌, ◌==◌, ◌⊎◌, inl, inr,
}
use delp.Error.{ok}
use delp.Gf.Laws.{gf2_8-IsField}
use delp.Gf.Minor.{IsCauchy, minor-regular}
use delp.Gf.Gf2_8
use delp.Gf.Gf2_8.{gf2_8}
use delp.Wire.Ev.CoefGen.{
  cauchy_x_gf2_8, cauchy_y_gf2_8, cauchy_coef_gf2_8, collect, cauchy_batch_gf2_8,
  verify_cauchy_2x2_nonsingular,
}

x_8 : (s : ℕ) → cauchy_x_gf2_8 s ≡ s % 128
unfolding cauchy_x_gf2_8
x_8 s = omega (arith, and_mask 7 s)

y_8 : (c g : ℕ) → cauchy_y_gf2_8 c g ≡ 128 + (c + g * 7) % 128
unfolding cauchy_y_gf2_8
y_8 c g = omega (arith, and_mask 7 (u32 (c + u32 (g * 7))))

-- The coefficient at the two points, also for the coded IDs that the source's assertion excludes.
coef_at :
    (s c g : ℕ)
    → (a : ℕ) × (cauchy_coef_gf2_8 s c g ≡ ok a)
      × (a < 256)
      × (gf2_8.mul (bit_xor (s % 128) (128 + (c + g * 7) % 128)) a ≡ 1)
unfolding cauchy_coef_gf2_8
coef_at s c g =
    let x = s % 128 in
    let y = 128 + (c + g * 7) % 128 in
    let below : bit_xor x y < 256 = xor-lt-pow 8 x y (omega arith) (omega arith) in
    let apart : x ≢ y = omega arith in
    let pos : 0 < bit_xor x y = positive (bit_xor x y) (λ e. apart (xor-eq-zero x y e)) in
    let (a, e, lt, inverse) = gf2_8-IsField.mul-inv (bit_xor x y) pos below in
    (a, ap gf2_8.inv (ap₂ bit_xor (x_8 s) (y_8 c g)) ∙ e, lt, inverse)
  where
    positive : (n : ℕ) → n ≢ 0 → 0 < n
    positive n ne = omega arith

-- For a coded ID below 128, as the source asserts, the GF(2^8) Cauchy coefficient of any source ID
-- and generation is computed without a panic: it is the byte whose product with
-- `src_id % 128 ^ (128 + (coded_id + 7 * generation) % 128)` is 1.
pub cauchy_coef_gf2_8-inverse :
    (s c g : ℕ)
    → c < 128
    → (a : ℕ) × (cauchy_coef_gf2_8 s c g ≡ ok a)
      × (a < 256)
      × (gf2_8.mul (bit_xor (s % 128) (128 + (c + g * 7) % 128)) a ≡ 1)
cauchy_coef_gf2_8-inverse s c g asserted = coef_at s c g

-- The coefficient depends on its points alone.
coef_at-eq :
    (s t c d g h : ℕ)
    → s % 128 ≡ t % 128
    → (c + g * 7) % 128 ≡ (d + h * 7) % 128
    → (coef_at s c g).0 ≡ (coef_at t d h).0
unfolding cauchy_coef_gf2_8
coef_at-eq s t c d g h rows columns =
    let (a, e, _, _) = coef_at s c g in
    let (b, f, _, _) = coef_at t d h in
    let x = x_8 s ∙ rows ∙ sym (x_8 t) in
    let y = y_8 c g ∙ ap (λ (v : ℕ). 128 + v) columns ∙ sym (y_8 d h) in
    let same = sym e ∙ ap gf2_8.inv (ap₂ bit_xor x y) ∙ f in ground arith

-- The determinant, as the source's check computes it.
abbrev determinant : (a00 a01 a10 a11 : ℕ) → ℕ
determinant a00 a01 a10 a11 = gf2_8.add (gf2_8.mul a00 a11) (gf2_8.mul a01 a10)

-- The minor of two source IDs and two coded packets, each with its ID and its generation.
module _ (s0 s1 c0 c1 g0 g1 : ℕ) where
  minor-IsCauchy :
      IsCauchy gf2_8 gf2_8-IsField
        (s0 % 128)
        (s1 % 128)
        (128 + (c0 + g0 * 7) % 128)
        (128 + (c1 + g1 * 7) % 128)
        (coef_at s0 c0 g0).0
        (coef_at s0 c1 g1).0
        (coef_at s1 c0 g0).0
        (coef_at s1 c1 g1).0
  unfolding Gf2_8.add
  minor-IsCauchy =
      let (a00, e00, l00, i00) = coef_at s0 c0 g0 in
      let (a01, e01, l01, i01) = coef_at s0 c1 g1 in
      let (a10, e10, l10, i10) = coef_at s1 c0 g0 in
      let (a11, e11, l11, i11) = coef_at s1 c1 g1 in
      record {
        points = (omega arith, omega arith, omega arith, omega arith);
        entries = (l00, l01, l10, l11);
        inverse00 = i00;
        inverse01 = i01;
        inverse10 = i10;
        inverse11 = i11;
      }

  abbrev minor : ℕ
  minor =
      determinant (coef_at s0 c0 g0).0 (coef_at s0 c1 g1).0 (coef_at s1 c0 g0).0
        (coef_at s1 c1 g1).0

  -- The two rows or the two columns are those of one point.
  abbrev Meet : Type 0
  Meet = (s0 % 128 ≡ s1 % 128) ⊎ ((c0 + g0 * 7) % 128 ≡ (c1 + g1 * 7) % 128)

  minor-regular_lem : s0 % 128 ≢ s1 % 128 → (c0 + g0 * 7) % 128 ≢ (c1 + g1 * 7) % 128 → minor ≢ 0
  minor-regular_lem rows columns =
      minor-regular gf2_8 gf2_8-IsField minor-IsCauchy refl rows (omega arith)

  minor-singular : Meet → minor ≡ 0
  unfolding Gf2_8.add
  minor-singular (inl rows) =
      let (a00, _, l00, _) = coef_at s0 c0 g0 in
      let (a01, _, l01, _) = coef_at s0 c1 g1 in
      let left : (coef_at s0 c0 g0).0 ≡ (coef_at s1 c0 g0).0 =
        coef_at-eq s0 s1 c0 c0 g0 g0 rows refl in
      let right : (coef_at s0 c1 g1).0 ≡ (coef_at s1 c1 g1).0 =
        coef_at-eq s0 s1 c1 c1 g1 g1 rows refl in
      rw (← left, ← right, gf2_8-IsField.mul_comm a00 a01 l00 l01) (xor_self (gf2_8.mul a01 a00))
  minor-singular (inr columns) =
      let upper : (coef_at s0 c0 g0).0 ≡ (coef_at s0 c1 g1).0 =
        coef_at-eq s0 s0 c0 c1 g0 g1 refl columns in
      let lower : (coef_at s1 c0 g0).0 ≡ (coef_at s1 c1 g1).0 =
        coef_at-eq s1 s1 c0 c1 g0 g1 refl columns in
      rw (← upper, ← lower) (xor_self (gf2_8.mul (coef_at s0 c0 g0).0 (coef_at s1 c0 g0).0))

  minor-zero_iff : (minor ≡ 0) ↔ Meet
  minor-zero_iff = (
    λ z. elim (Bool-cases (s0 % 128 == s1 % 128)) [
      | inl t ↦ inl (ground arith)
      | inr f ↦ elim (Bool-cases ((c0 + g0 * 7) % 128 == (c1 + g1 * 7) % 128)) [
        | inl t ↦ inr (ground arith)
        | inr d ↦ absurd (minor-regular_lem (ground arith) (ground arith) z)
      ]
    ],
    minor-singular,
  )

batch_of_two :
    (s0 s1 c g : ℕ)
    → cauchy_batch_gf2_8 (s0 ∷ s1 ∷ []) c g ≡ ok ((coef_at s0 c g).0 ∷ (coef_at s1 c g).0 ∷ [])
unfolding cauchy_batch_gf2_8 collect
batch_of_two s0 s1 c g = rw ((coef_at s0 c g).1, (coef_at s1 c g).1) refl

-- Two coded packets with IDs below 128, in any generations, have their GF(2^8) Cauchy coefficients
-- for two source IDs computed without a panic. The 2 by 2 determinant of the coefficients is 0
-- exactly when the source IDs are equal modulo 128 or `coded_id + 7 * generation` is equal modulo 128
-- for the two packets.
pub cauchy_batch_gf2_8-determinant :
    (s0 s1 c0 c1 g0 g1 : ℕ)
    → c0 < 128
    → c1 < 128
    → (a00 a01 a10 a11 : ℕ) × (cauchy_batch_gf2_8 (s0 ∷ s1 ∷ []) c0 g0 ≡ ok (a00 ∷ a10 ∷ []))
      × (cauchy_batch_gf2_8 (s0 ∷ s1 ∷ []) c1 g1 ≡ ok (a01 ∷ a11 ∷ []))
      × ((gf2_8.add (gf2_8.mul a00 a11) (gf2_8.mul a01 a10) ≡ 0)
          ↔ ((s0 % 128 ≡ s1 % 128) ⊎ ((c0 + g0 * 7) % 128 ≡ (c1 + g1 * 7) % 128)))
cauchy_batch_gf2_8-determinant s0 s1 c0 c1 g0 g1 _ _ = (
  (coef_at s0 c0 g0).0,
  (coef_at s0 c1 g1).0,
  (coef_at s1 c0 g0).0,
  (coef_at s1 c1 g1).0,
  batch_of_two s0 s1 c0 g0,
  batch_of_two s0 s1 c1 g1,
  minor-zero_iff s0 s1 c0 c1 g0 g1,
)

-- For coded IDs below 128, as the source asserts, the GF(2^8) check at generation 0 returns without a
-- panic, and answers that the 2 by 2 minor is regular exactly when the source IDs differ modulo 128
-- and the coded IDs differ.
pub verify_cauchy_2x2_nonsingular_lem :
    (s0 s1 c0 c1 : ℕ)
    → c0 < 128
    → c1 < 128
    → verify_cauchy_2x2_nonsingular s0 s1 c0 c1 ≡ ok (not (s0 % 128 == s1 % 128 || c0 == c1))
unfolding verify_cauchy_2x2_nonsingular
verify_cauchy_2x2_nonsingular_lem s0 s1 c0 c1 p q =
    let (a00, e00, _, _) = coef_at s0 c0 0 in
    let (a01, e01, _, _) = coef_at s0 c1 0 in
    let (a10, e10, _, _) = coef_at s1 c0 0 in
    let (a11, e11, _, _) = coef_at s1 c1 0 in
    let regular = minor-regular_lem s0 s1 c0 c1 0 0 in
    let singular = minor-singular s0 s1 c0 c1 0 0 in rw (e00, e01, e10, e11) (ground arith)
