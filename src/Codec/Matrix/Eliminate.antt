-- ===== src/Codec/Matrix/Eliminate.antt =====
-- Forward elimination and back substitution on rows in reduced form.
use delp.Prelude.{
  ℕ, ◌≡◌, refl, ap, ◌∙◌, bit_xor, Bool-cases, inl, inr, [], ◌∷◌, length, suc, ◌==◌, if◌then◌else◌,
  arith, xor_self, xor-zero,
}
use delp.Error.{ok}
use delp.Gf.Simd.{scalar}
use delp.Gf.Action.{act}
use delp.Gf.Action.Laws.{act-zero, act-one}
use delp.Codec.Dense.{get}
use delp.Codec.Matrix.{MatrixRow, Rows, subtract_scaled, forward_eliminate, back_substitute}
use delp.Codec.Matrix.Sound.{Session, Sound, subtract_scaled-Sound}
use delp.Codec.Matrix.Reduced.{ZeroAt, ZeroOn, Reduced}

module _ (s : Session) where
  -- One round of either loop: `row` with its coefficient at `pid` cancelled by a row that has 1
  -- there.
  cancel :
      (row other : MatrixRow) (pid : ℕ)
      → Sound s row
      → Sound s other
      → get other.coefs pid ≡ 1
      → (r : MatrixRow) × ((if get row.coefs pid == 0
            then ok row
            else subtract_scaled scalar s.field row other (get row.coefs pid))
          ≡ ok r)
        × Sound s r
        × (get r.coefs pid ≡ 0)
        × ((x : ℕ) → get other.coefs x ≡ 0 → get r.coefs x ≡ get row.coefs x)
  cancel row other pid h k one = elim (Bool-cases (get row.coefs pid == 0)) [
    | inl t ↦ (row, rw t refl, h, ground arith, λ x z. refl)
    | inr t ↦
        let c = get row.coefs pid in
        let (r, e, sound, entry) = subtract_scaled-Sound s row other c h k (h.scalars pid) in
        (
          r,
          rw t e,
          sound,
          entry pid
              ∙ ap (bit_xor c) (ap (act s.field c) one ∙ act-one s.field c (h.scalars pid))
              ∙ xor_self c,
          λ x z.
              entry x
              ∙ ap (bit_xor (get row.coefs x)) (ap (act s.field c) z ∙ act-zero s.field c)
              ∙ xor-zero (get row.coefs x),
        )
  ]

  -- On rows in reduced form and a sound row, forward elimination with the scalar kernels succeeds:
  -- the row stays sound, loses its coefficients at all keys, and gains none at an ID where it and
  -- all rows have none.
  pub forward_eliminate-Sound :
      (rows : Rows) (row : MatrixRow)
      → Reduced s rows
      → Sound s row
      → (r : MatrixRow) × (forward_eliminate scalar s.field rows row ≡ ok r)
        × Sound s r
        × ZeroOn (get r.coefs) rows
        × ((x : ℕ) → ZeroAt x rows → get row.coefs x ≡ 0 → get r.coefs x ≡ 0)
  unfolding forward_eliminate
  forward_eliminate-Sound [] row h k = (row, refl, k, tt, λ x z e. e)
  forward_eliminate-Sound ((key, existing) ∷ rows) row (live, at, on, h) k =
      let (next, e, sound, gone, same) = cancel row existing key k live.sound live.pivot in
      let (r, runs, last, zeros, keep) = forward_eliminate-Sound rows next h sound in
      (r, rw e runs, last, (keep key at gone, zeros), λ x z w. keep x z.1 (same x z.0 ∙ w))

  -- The rows lose their coefficients at the new pivot and stay in reduced form.
  pub record BackSubstituted (rows : Rows) (pid : ℕ) (row : MatrixRow) (next : Rows) : Type 0 where
    pub runs : back_substitute scalar s.field rows pid row ≡ ok next
    pub reduced : Reduced s next
    pub cleared : ZeroAt pid next
    pub same : length next ≡ length rows
    pub keys : (c : ℕ → ℕ) → ZeroOn c rows → ZeroOn c next
    pub zeros : (x : ℕ) → get row.coefs x ≡ 0 → ZeroAt x rows → ZeroAt x next

  substituted-ZeroOn :
      (old new : ℕ → ℕ) (row : MatrixRow) (rows : Rows)
      → ((x : ℕ) → get row.coefs x ≡ 0 → new x ≡ old x)
      → ZeroOn (get row.coefs) rows
      → ZeroOn old rows
      → ZeroOn new rows
  substituted-ZeroOn old new row [] same h k = tt
  substituted-ZeroOn old new row ((key, other) ∷ rows) same (z, h) (e, k) =
      (same key z ∙ e, substituted-ZeroOn old new row rows same h k)

  -- On rows in reduced form and a sound row with the coefficient 1 at a new pivot and none at the rows'
  -- keys, back substitution with the scalar kernels succeeds: as many rows are left, in reduced form,
  -- without a coefficient at the new pivot, and zeros at all keys or at an ID stay.
  pub back_substitute-BackSubstituted :
      (rows : Rows) (pid : ℕ) (row : MatrixRow)
      → Reduced s rows
      → Sound s row
      → get row.coefs pid ≡ 1
      → ZeroOn (get row.coefs) rows
      → (next : Rows) × BackSubstituted rows pid row next
  unfolding back_substitute
  back_substitute-BackSubstituted [] pid row h k one on = (
    [],
    record {
      runs = refl;
      reduced = tt;
      cleared = tt;
      same = refl;
      keys = λ c z. z;
      zeros = λ x e z. z;
    },
  )
  back_substitute-BackSubstituted ((key, old) ∷ rows) pid row (live, at, apart, h) k one (z, on) =
      let (next, e, sound, gone, same) = cancel old row pid live.sound k one in
      let (rest, ih) = back_substitute-BackSubstituted rows pid row h k one on in
      (
        (key, next) ∷ rest,
        record {
          runs = rw e (rw ih.runs refl);
          reduced = (
            record { sound = sound; pivot = same key z ∙ live.pivot },
            ih.zeros key z at,
            ih.keys (get next.coefs)
                (substituted-ZeroOn (get old.coefs) (get next.coefs) row rows same on apart),
            ih.reduced,
          );
          cleared = (gone, ih.cleared);
          same = ap suc ih.same;
          keys = λ c w. (w.0, ih.keys c w.1);
          zeros = λ x w v. (same x w ∙ v.0, ih.zeros x w v.1);
        },
      )
