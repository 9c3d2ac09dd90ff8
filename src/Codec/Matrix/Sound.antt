-- ===== src/Codec/Matrix/Sound.antt =====
-- A row is sound for the source symbols of a session if its payload is the combination of the
-- symbols by its coefficients. The operations on rows keep that.
use delp.Prelude.{
  ℕ, suc, ◌<◌, ◌^◌, ◌≡◌, refl, sym, ap, ap₂, ◌∙◌, bit_and, bit_xor, false, Bool-cases, inl, inr,
  List, [], ◌∷◌, get_or, length, ◌==◌, if◌then◌else◌, some, arith, and_mask,
}
use delp.Error.{ok}
use delp.Config.{Field}
use delp.Gf.Simd.{scalar}
use delp.Gf.Gf2_4
use delp.Gf.Laws.{gf2_4-IsField, gf2_8-IsField}
use delp.Gf.Action.{order, act}
use delp.Gf.Action.Laws.{scalar_act, act-zero, act-lt-order, xor-lt-order, one-act}
use delp.Codec.Dense
use delp.Codec.Dense.{DenseCoefs, get, mul_acc, mul_scale, gf_inv}
use delp.Codec.Dense.Bulk.{Below, mul_acc-entries, mul_scale-entries}
use delp.Codec.Dense.Entries.{
  EndsBy, get-remove, get-scale, get-bytes, get-lt, remove-EndsBy, subtract_scaled-entries,
}
use delp.Codec.Dense.Pivot.{IsPivot, IsPivot-pivot, is_solved-get}
use delp.Codec.Dense.Sum.{
  combination, combination-lt, combination-acc, combination-scaled, combination-without,
  combination-single,
}
use delp.Codec.Matrix.{MatrixRow, subtract_scaled, normalize, normalize_by, substitute}

-- What is sent: a field, and symbols of one size whose IDs lie below a bound.
pub record Session : Type 0 where
  pub field : Field
  pub bound : ℕ
  pub size : ℕ
  pub symbol : ℕ → List ℕ
  pub bound_word : bound < 2 ^ 32
  pub symbol-size : (id : ℕ) → length (symbol id) ≡ size
  pub symbol-bytes : (id : ℕ) → Below 256 (symbol id)

-- The byte of every symbol at one place.
abbrev pub column : Session → ℕ → ℕ → ℕ
column s j x = get_or (s.symbol x) j 0

pub record Sound (s : Session) (row : MatrixRow) : Type 0 where
  pub ends : EndsBy s.bound row.coefs
  pub scalars : (x : ℕ) → get row.coefs x < order s.field
  pub size : length row.payload ≡ s.size
  pub equation :
      (j : ℕ) → combination s.field s.bound (get row.coefs) (column s j) ≡ get_or row.payload j 0

gf_inv-act :
    (f : Field) (c : ℕ)
    → 0 < c
    → c < order f
    → (inv : ℕ) × (gf_inv f c ≡ ok inv) × (inv < order f) × (act f inv c ≡ 1)
unfolding gf_inv
gf_inv-act Field.gf2_8 c pos lt =
    let (inv, e, below, one) = gf2_8-IsField.mul-inv c pos lt in
    let nonzero : (c == 0) ≡ false = ground arith in (inv, rw nonzero e, below, unfold act in one)
gf_inv-act Field.gf2_4 c pos lt =
    let (inv, e, below, one) = gf2_4-IsField.mul-inv c pos lt in
    let nonzero : (c == 0) ≡ false = ground arith in
    let masked : bit_and c 0x0f ≡ c = and_mask 4 c ∙ omega arith in
    let twice : Gf2_4.new (bit_and c 0x0f) ≡ c =
      unfold Gf2_4.new in ap (λ (t : ℕ). bit_and t 0x0f) masked ∙ masked in
    (inv, rw nonzero (rw twice e), below, scalar_act inv c below lt ∙ one)

-- The two lists are equal at every place.
pub eq_of_places :
    (xs ys : List ℕ) → length xs ≡ length ys → ((j : ℕ) → get_or xs j 0 ≡ get_or ys j 0) → xs ≡ ys
eq_of_places [] [] e h = refl
eq_of_places [] (y ∷ ys) e h = absurd (omega arith)
eq_of_places (x ∷ xs) [] e h = absurd (omega arith)
eq_of_places (x ∷ xs) (y ∷ ys) e h =
    ap₂ ◌∷◌ (h 0) (eq_of_places xs ys (omega arith) (λ j. h (suc j)))

module _ (s : Session) where
  bytes_at : (j x : ℕ) → column s j x < 256
  bytes_at j x = s.symbol-bytes x j

  payload-bytes : (row : MatrixRow) → Sound s row → Below 256 row.payload
  payload-bytes row h j =
      rw (← h.equation j)
        (combination-lt s.field s.bound (column s j) (bytes_at j) (get row.coefs) h.scalars)

  -- `row + c * other` combines the same symbols.
  pub subtract_scaled-Sound :
      (row other : MatrixRow) (c : ℕ)
      → Sound s row
      → Sound s other
      → c < order s.field
      → (r : MatrixRow) × (subtract_scaled scalar s.field row other c ≡ ok r)
        × Sound s r
        × ((x : ℕ) → get r.coefs x ≡ bit_xor (get row.coefs x) (act s.field c (get other.coefs x)))
  unfolding subtract_scaled
  subtract_scaled-Sound row other c h k lt =
      let (coefs, e, ends, entry) =
        subtract_scaled-entries s.field c lt s.bound row.coefs other.coefs s.bound_word h.ends
          k.ends (get-bytes s.field other.coefs k.scalars) in
      let (payload, p, same, byte) =
        mul_acc-entries s.field row.payload other.payload c lt (payload-bytes other k)
          (h.size ∙ sym k.size) in
      (
        record { coefs = coefs; payload = payload },
        rw e (rw p refl),
        record {
          ends = ends;
          scalars = λ x. rw (entry x) (
              xor-lt-order s.field (get row.coefs x) (act s.field c (get other.coefs x))
                (h.scalars x) (act-lt-order s.field c (get other.coefs x) lt (k.scalars x)));
          size = same ∙ h.size;
          equation = λ j.
              combination-acc s.field s.bound (column s j) (bytes_at j) (get row.coefs)
                (get other.coefs) (get coefs) c h.scalars k.scalars lt entry
              ∙ ap₂ (λ (a b : ℕ). bit_xor a (act s.field c b)) (h.equation j) (k.equation j)
              ∙ sym (byte j);
        },
        entry,
      )

  -- With a true symbol the row loses the symbol's coefficient.
  pub substitute-Sound :
      (row : MatrixRow) (id : ℕ)
      → Sound s row
      → (r : MatrixRow) × (substitute scalar s.field row id (s.symbol id) ≡ ok r)
        × Sound s r
        × ((x : ℕ) → get r.coefs x ≡ (if x == id then 0 else get row.coefs x))
        × (get row.coefs id ≡ 0 → r ≡ row)
  unfolding substitute
  substitute-Sound row id h = elim (Bool-cases (get row.coefs id == 0)) [
    | inl t ↦ (row, rw t refl, h, (λ x. none_there x (ground arith)), λ z. refl)
    | inr t ↦
        let c = get row.coefs id in
        let (payload, p, same, byte) =
          mul_acc-entries s.field row.payload (s.symbol id) c (h.scalars id) (s.symbol-bytes id)
            (h.size ∙ sym (s.symbol-size id)) in
        (
          record { coefs = Dense.remove row.coefs id; payload = payload },
          rw t (rw p refl),
          record {
            ends = remove-EndsBy s.bound row.coefs id h.ends;
            scalars = λ x. ground (arith, get-remove row.coefs id x, h.scalars x);
            size = same ∙ h.size;
            equation = λ j.
                combination-without s.field s.bound (column s j) (bytes_at j) (get row.coefs)
                  (get (Dense.remove row.coefs id)) id
                  (get-lt s.bound row.coefs id h.ends (ground arith)) (get-remove row.coefs id)
                ∙ ap (λ (a : ℕ). bit_xor a (act s.field c (get_or (s.symbol id) j 0)))
                    (h.equation j)
                ∙ sym (byte j);
          },
          get-remove row.coefs id,
          λ z. absurd (ground arith),
        )
  ]
    where
      none_there :
          (x : ℕ)
          → get row.coefs id ≡ 0
          → get row.coefs x ≡ (if x == id then 0 else get row.coefs x)
      none_there x z = elim (Bool-cases (x == id)) [
        | inl t ↦ let same : x ≡ id = ground arith in rw t (ap (get row.coefs) same ∙ z)
        | inr t ↦ rw t refl
      ]

  normalize_at :
      (row : MatrixRow) (c : ℕ)
      → Dense.pivot_coef row.coefs ≡ some c
      → normalize scalar s.field row ≡ normalize_by scalar s.field row c
  unfolding normalize
  normalize_at row c e = rw (e, normalize) refl

  -- A sound row with its first nonzero coefficient at an ID: `normalize` with the scalar kernels
  -- succeeds, the row stays sound, its pivot stays at the ID and gets the coefficient 1, and it gains
  -- no coefficient.
  pub normalize-Sound :
      (row : MatrixRow) (pid : ℕ)
      → Sound s row
      → IsPivot row.coefs pid
      → (r : MatrixRow) × (normalize scalar s.field row ≡ ok r)
        × Sound s r
        × (Dense.pivot_id r.coefs ≡ some pid)
        × (get r.coefs pid ≡ 1)
        × ((x : ℕ) → get row.coefs x ≡ 0 → get r.coefs x ≡ 0)
  unfolding normalize_by
  normalize-Sound row pid h p =
      let c = get row.coefs pid in
      let (at, coef) = IsPivot-pivot row.coefs pid p in
      elim (Bool-cases (c == 1)) [
        | inl t ↦ (row, normalize_at row c coef ∙ rw t refl, h, at, ground arith, λ x z. z)
        | inr t ↦
            let (inv, e, below, one) = gf_inv-act s.field c p.nonzero (h.scalars pid) in
            let (ends, entry) =
              get-scale s.field s.bound row.coefs inv below (get-bytes s.field row.coefs h.scalars)
                h.ends in
            let (same, byte) =
              mul_scale-entries s.field row.payload inv below (payload-bytes row h) in
            let scaled = Dense.scale scalar s.field row.coefs inv in
            let pivot : IsPivot scaled pid = record {
              covered = unfold Dense.scale in p.covered;
              nonzero = rw (entry pid, one) (omega arith);
              before = λ x k. entry x ∙ ap (act s.field inv) (p.before x k) ∙ act-zero s.field inv;
            } in
            (
              record { coefs = scaled; payload = mul_scale scalar s.field row.payload inv },
              normalize_at row c coef ∙ rw t (rw e refl),
              record {
                ends = ends;
                scalars = λ x.
                    rw (entry x) (act-lt-order s.field inv (get row.coefs x) below (h.scalars x));
                size = same ∙ h.size;
                equation = λ j.
                    combination-scaled s.field s.bound (column s j) (bytes_at j) (get row.coefs)
                      (get scaled) inv h.scalars below entry
                    ∙ ap (act s.field inv) (h.equation j)
                    ∙ sym (byte j);
              },
              (IsPivot-pivot scaled pid pivot).0,
              entry pid ∙ one,
              λ x z. entry x ∙ ap (act s.field inv) z ∙ act-zero s.field inv,
            )
      ]

  -- A row with the coefficient 1 at one ID and no other holds that ID's symbol.
  pub solved-symbol :
      (row : MatrixRow) (id : ℕ)
      → Sound s row
      → Dense.is_solved row.coefs ≡ some id
      → get row.coefs id ≡ 1
      → row.payload ≡ s.symbol id
  solved-symbol row id h solved one =
      let below = get-lt s.bound row.coefs id h.ends (omega arith) in
      eq_of_places row.payload (s.symbol id) (h.size ∙ sym (s.symbol-size id)) (λ j.
        sym (h.equation j)
        ∙ combination-single s.field s.bound (column s j) (bytes_at j) (get row.coefs) id below
            (λ x d. is_solved-get row.coefs id x solved d)
        ∙ ap (λ (c : ℕ). act s.field c (column s j id)) one
        ∙ one-act s.field (column s j id) (bytes_at j id))
