-- ===== src/Codec/Dense/Entries.antt =====
-- The coefficient that a row has at an ID after each of the operations on rows.
use delp.Prelude.{
  ℕ, zero, ◌+◌, ◌-◌, ◌^◌, ◌≤◌, ◌<◌, ◌≡◌, refl, sym, ap, ◌∙◌, bit_xor, true, false, List, [], ◌∷◌,
  ◌++◌, get_or, length, take, drop, replicate, ltb, ◌==◌, if◌then◌else◌, Bool-cases, inl, inr,
  arith, u32, length-append, length-take, length-drop, length-replicate, length-set, xor-zero,
}
use delp.Error.{ok}
use delp.Config.{Field}
use delp.Gf.Simd.{scalar}
use delp.Gf.Action.{order, act}
use delp.Gf.Action.Laws.{act-zero, zero-act, order-le-byte}
use delp.Wire.Slice.{slice_total}
use delp.Codec.Dense.{DenseCoefs, get, ensure_covers, remove, scale, acc_slice, subtract_scaled}
use delp.Codec.Dense.Bulk.{Below, mul_acc-entries, mul_scale-entries}
use delp.Codec.Dense.Places.{
  get_or-beyond, get_or-clear, get_or-zeros_behind, get_or-zeros_before, get_or-take, get_or-drop,
  get_or-splice,
}

pub get-remove :
    (d : DenseCoefs) (id x : ℕ) → get (remove d id) x ≡ (if x == id then 0 else get d x)
unfolding get remove
get-remove d id x = ground (arith, get_or-clear d.coefs (id - d.base_id) (x - d.base_id))

pub get-ensure_covers : (d : DenseCoefs) (id x : ℕ) → get (ensure_covers d id) x ≡ get d x
unfolding get ensure_covers
get-ensure_covers d id x = ground (
  arith,
  get_or-beyond d.coefs (x - d.base_id),
  get_or-beyond (0 ∷ []) (x - id),
  get_or-zeros_before (d.base_id - id) d.coefs (x - id),
  get_or-zeros_behind d.coefs (id - d.base_id + 1 - length d.coefs) (x - d.base_id),
)

-- The IDs that a row covers lie below the bound.
abbrev pub EndsBy : ℕ → DenseCoefs → Type 0
EndsBy n d = d.base_id + length d.coefs ≤ n

record Covers (n id : ℕ) (d c : DenseCoefs) : Type 0 where
  ends : EndsBy n c
  first : c.base_id ≤ id
  last : id < c.base_id + length c.coefs
  old_first : 0 < length d.coefs → c.base_id ≤ d.base_id
  old_last : 0 < length d.coefs → d.base_id + length d.coefs ≤ c.base_id + length c.coefs

ensure_covers-Covers :
    (n id : ℕ) (d : DenseCoefs) → id < n → EndsBy n d → Covers n id d (ensure_covers d id)
unfolding ensure_covers
ensure_covers-Covers n id d h k =
    let before = length-append (replicate (d.base_id - id) 0) d.coefs in
    let gap = length-replicate (d.base_id - id) (zero) in
    let behind = length-append d.coefs (replicate (id - d.base_id + 1 - length d.coefs) 0) in
    let rest = length-replicate (id - d.base_id + 1 - length d.coefs) (zero) in
    record {
      ends = ground arith;
      first = ground arith;
      last = ground arith;
      old_first = ground arith;
      old_last = ground arith;
    }

-- The entry of `other` that lies over the place `j` of the row.
shifted : List ℕ → ℕ → ℕ → ℕ
shifted other off j = if ltb j off then 0 else get_or other (j - off) 0

module _ (f : Field) (c : ℕ) (c_lt : c < order f) where
  acc_slice-entries :
      (coefs : List ℕ) (off : ℕ) (other : List ℕ)
      → off + length other ≤ length coefs
      → Below 256 other
      → (r : List ℕ) × (acc_slice scalar f coefs off other c ≡ ok r)
        × (length r ≡ length coefs)
        × ((j : ℕ) → get_or r j 0 ≡ bit_xor (get_or coefs j 0) (act f c (shifted other off j)))
  unfolding acc_slice shifted
  acc_slice-entries coefs off other fits small =
      let end = off + length other in
      let dst = take (end - off) (drop off coefs) in
      let whole : length dst ≡ length other =
        omega (arith, length-take (end - off) (drop off coefs), length-drop off coefs) in
      let (done, e, same, entry) = mul_acc-entries f dst other c c_lt small whole in
      let r = take off coefs ++ (done ++ drop end coefs) in
      let sliced = slice_total coefs off end (omega arith) fits in
      let total : length r ≡ length coefs = omega (
        arith,
        length-append (take off coefs) (done ++ drop end coefs),
        length-append done (drop end coefs),
        length-take off coefs,
        length-drop end coefs,
      ) in
      (
        r,
        rw sliced (rw e refl),
        total,
        λ j. get_or-splice off coefs done j end (omega arith) fits ∙ pick j done same entry,
      )
    where
      pick :
          (j : ℕ) (done : List ℕ)
          → length done ≡ length (take (off + length other - off) (drop off coefs))
          → ((i : ℕ)
              → get_or done i 0
                ≡ bit_xor
                    (get_or (take (off + length other - off) (drop off coefs)) i 0)
                    (act f c (get_or other i 0)))
          → (if ltb j off
              then get_or coefs j 0
              else if ltb j (off + length other)
              then get_or done (j - off) 0
              else get_or coefs j 0)
            ≡ bit_xor
                (get_or coefs j 0)
                (act f c (if ltb j off then 0 else get_or other (j - off) 0))
      pick j done same entry = elim (Bool-cases (ltb j off)) [
        | inl t ↦
            rw t
              (sym (ap (bit_xor (get_or coefs j 0)) (act-zero f c) ∙ xor-zero (get_or coefs j 0)))
        | inr t ↦ elim (Bool-cases (ltb j (off + length other))) [
          | inl u ↦
              rw (t, u)
                (entry (j - off)
                  ∙ ap (λ (v : ℕ). bit_xor v (act f c (get_or other (j - off) 0)))
                      (get_or-take (off + length other - off) (drop off coefs) (j - off)
                          (ground arith)
                        ∙ get_or-drop off coefs (j - off) j (ground arith)))
          | inr u ↦
              rw (t, u)
                (sym (
                  ap (bit_xor (get_or coefs j 0))
                    (ap (act f c) (get_or-beyond other (j - off) (ground arith)) ∙ act-zero f c)
                  ∙ xor-zero (get_or coefs j 0)))
        ]
      ]

  over :
      (other r d : DenseCoefs) (x : ℕ)
      → d.base_id ≤ other.base_id
      → r.base_id ≡ d.base_id
      → get_or r.coefs (x - d.base_id) 0
        ≡ bit_xor
            (get_or d.coefs (x - d.base_id) 0)
            (act f c (shifted other.coefs (other.base_id - d.base_id) (x - d.base_id)))
      → get r x ≡ bit_xor (get d x) (act f c (get other x))
  unfolding get shifted
  over other r d x k e h = elim (Bool-cases (ltb x d.base_id)) [
    | inl t ↦ ground (arith, act-zero f c)
    | inr t ↦
        let place : x - d.base_id - (other.base_id - d.base_id) ≡ x - other.base_id =
          ground arith in
        ground arith
  ]

  subtract_scaled_covered :
      (d other : DenseCoefs) (last : ℕ) (coefs : List ℕ)
      → u32 (other.base_id + length other.coefs) - 1 ≡ last
      → (length other.coefs == 0) ≡ false
      → (c == 0) ≡ false
      → acc_slice scalar f
          (ensure_covers (ensure_covers d other.base_id) last).coefs
          (other.base_id - (ensure_covers (ensure_covers d other.base_id) last).base_id)
          other.coefs
          c
        ≡ ok coefs
      → subtract_scaled scalar f d other c
        ≡ ok (record {
          base_id = (ensure_covers (ensure_covers d other.base_id) last).base_id;
          coefs = coefs;
        })
  unfolding subtract_scaled
  subtract_scaled_covered d other last coefs end t u e = rw (end, t, u, e) refl

  -- A row with `c` times another added, where the IDs of both lie below a bound in 32 bits.
  pub subtract_scaled-entries :
      (n : ℕ) (d other : DenseCoefs)
      → n < 2 ^ 32
      → EndsBy n d
      → EndsBy n other
      → Below 256 other.coefs
      → (r : DenseCoefs) × (subtract_scaled scalar f d other c ≡ ok r)
        × EndsBy n r
        × ((x : ℕ) → get r x ≡ bit_xor (get d x) (act f c (get other x)))
  unfolding subtract_scaled
  subtract_scaled-entries n d other word k l small = elim (Bool-cases (length other.coefs == 0)) [
    | inl t ↦ (
      d,
      rw t refl,
      k,
      λ x.
          sym
            (ap (bit_xor (get d x)) (ap (act f c) (empty x t) ∙ act-zero f c) ∙ xor-zero (get d x)),
    )
    | inr t ↦ elim (Bool-cases (c == 0)) [
      | inl u ↦ (
        d,
        rw (t, u) refl,
        k,
        λ x.
            let z : c ≡ 0 = ground arith in
            sym (
              ap (bit_xor (get d x))
                (ap (λ (v : ℕ). act f v (get other x)) z ∙ zero-act f (get other x) (small_get x))
              ∙ xor-zero (get d x)),
      )
      | inr u ↦
          let end : u32 (other.base_id + length other.coefs) ≡ other.base_id + length other.coefs =
            omega arith in
          let last = other.base_id + length other.coefs - 1 in
          let d1 = ensure_covers d other.base_id in
          let d2 = ensure_covers d1 last in
          let c1 = ensure_covers-Covers n other.base_id d (ground arith) k in
          let c2 = ensure_covers-Covers n last d1 (ground arith) c1.ends in
          let lo = c1.first in
          let hi = c1.last in
          let first = c2.old_first (omega arith) in
          let behind = c2.last in
          let (coefs, e, same, entry) =
            acc_slice-entries d2.coefs (other.base_id - d2.base_id) other.coefs (ground arith)
              small in
          let r : DenseCoefs = record { base_id = d2.base_id; coefs = coefs } in
          let ends = c2.ends in
          (
            r,
            subtract_scaled_covered d other last coefs (ap (λ (v : ℕ). v - 1) end) t u e,
            omega arith,
            λ x.
                over other r d2 x (omega arith) refl (entry (x - d2.base_id))
                ∙ ap (λ (v : ℕ). bit_xor v (act f c (get other x)))
                    (get-ensure_covers d1 last x ∙ get-ensure_covers d other.base_id x),
          )
    ]
  ]
    where
      small_get : (x : ℕ) → get other x < 256
      small_get x = unfold get in ground (arith, small (x - other.base_id))

      empty : (x : ℕ) → (length other.coefs == 0) ≡ true → get other x ≡ 0
      empty x t = unfold get in ground (arith, get_or-beyond other.coefs (x - other.base_id))

get-Below : (n : ℕ) (d : DenseCoefs) → ((x : ℕ) → get d x < n) → Below n d.coefs
unfolding get
get-Below n d h j =
    let place : d.base_id + j - d.base_id ≡ j = omega arith in
    let above : ltb (d.base_id + j) d.base_id ≡ false = ground arith in
    let entry = h (d.base_id + j) in ground arith

-- A row's entries as bytes.
pub get-bytes : (f : Field) (d : DenseCoefs) → ((x : ℕ) → get d x < order f) → Below 256 d.coefs
get-bytes f d h = get-Below 256 d (λ x. order-le-byte f (get d x) (h x))

pub get-scale :
    (f : Field) (n : ℕ) (d : DenseCoefs) (c : ℕ)
    → c < order f
    → Below 256 d.coefs
    → EndsBy n d
    → EndsBy n (scale scalar f d c) × ((x : ℕ) → get (scale scalar f d c) x ≡ act f c (get d x))
unfolding get scale
get-scale f n d c p small k =
    let (same, entry) = mul_scale-entries f d.coefs c p small in
    (omega arith, λ x. ground (arith, entry (x - d.base_id), act-zero f c))

pub remove-EndsBy : (n : ℕ) (d : DenseCoefs) (id : ℕ) → EndsBy n d → EndsBy n (remove d id)
unfolding remove
remove-EndsBy n d id k = ground (arith, length-set d.coefs (id - d.base_id) 0)

-- An ID with a coefficient lies below the bound.
pub get-lt : (n : ℕ) (d : DenseCoefs) (x : ℕ) → EndsBy n d → 0 < get d x → x < n
unfolding get
get-lt n d x k h = ground (arith, get_or-beyond d.coefs (x - d.base_id))
