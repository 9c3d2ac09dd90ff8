-- ===== src/Codec/Matrix/Packet.antt =====
-- The map of coefficients that `add_coded` makes of an encoding vector.
use delp.Prelude.{
  ℕ, suc, ◌*◌, ◌≤◌, ◌<◌, ◌%◌, ◌≡◌, ◌≢◌, refl, sym, ap, ◌∙◌, bit_xor, false, Bool-cases, inl, inr,
  List, [], ◌∷◌, length, map, ltb, ◌==◌, if◌then◌else◌, arith, xor_assoc, xor_self, xor-zero,
}
use delp.Error.{ok}
use delp.Config.{Field}
use delp.Gf.Field.{vandermonde}
use delp.Gf.Action.{order, act}
use delp.Gf.Action.Laws.{alpha_pow_8-lt, alpha_pow_4-lt}
use delp.Codec.Dense.FromMap.{CoefMap, coef_at, Keys}
use delp.Codec.Dense.Sum.{combination, combination-without, Scalars, Bytes}
use delp.Codec.Matrix.Recover.{insert_coef, coef_map}
use delp.Wire.Ev.{EncodingVector, has_explicit_coefs}
use delp.Wire.Ev.CoefGen.{vandermonde_coef}

-- The coefficients of a vector's IDs: its own, or those that its coded ID gives.
abbrev pub row_coefs : EncodingVector → List ℕ
row_coefs ev =
    if has_explicit_coefs ev
    then ev.coefficients
    else map (λ id. vandermonde_coef ev.field id ev.coded_id) ev.source_ids

pub vandermonde_coef-lt : (f : Field) (x y : ℕ) → vandermonde_coef f x y < order f
unfolding vandermonde_coef vandermonde
vandermonde_coef-lt Field.gf2_8 x y = alpha_pow_8-lt ((x * y) % 255)
vandermonde_coef-lt Field.gf2_4 x y = alpha_pow_4-lt ((x * y) % 15)

-- One byte of a coded symbol: the bytes of the IDs' symbols, times their coefficients, added up.
abbrev pub coded_byte : Field → List ℕ → List ℕ → (ℕ → ℕ) → ℕ
coded_byte f [] coefs byte = 0
coded_byte f (id ∷ ids) [] byte = 0
coded_byte f (id ∷ ids) (c ∷ coefs) byte = bit_xor (act f c (byte id)) (coded_byte f ids coefs byte)

-- The IDs are different from one another and lie below the bound.
abbrev pub Fresh : ℕ → List ℕ → Type 0
Fresh id [] = Unit
Fresh id (other ∷ ids) = (id ≢ other) × Fresh id ids

abbrev pub DistinctIds : ℕ → List ℕ → Type 0
DistinctIds n [] = Unit
DistinctIds n (id ∷ ids) = (id < n) × Fresh id ids × DistinctIds n ids

abbrev pub AllBelow : ℕ → List ℕ → Type 0
AllBelow n [] = Unit
AllBelow n (c ∷ coefs) = (c < n) × AllBelow n coefs

-- No key of the map is among the IDs.
abbrev pub Absent : CoefMap → List ℕ → Type 0
Absent m [] = Unit
Absent m (id ∷ ids) = (coef_at m id ≡ 0) × Absent m ids

insert_coef-Keys :
    (low n : ℕ) (m : CoefMap) (id c : ℕ)
    → Keys low n m
    → low ≤ id
    → id < n
    → Keys low n (insert_coef m id c)
unfolding insert_coef
insert_coef-Keys low n [] id c k p q = (p, q, tt)
insert_coef-Keys low n ((key, d) ∷ m) id c (l, u, k) p q = elim (Bool-cases (ltb id key)) [
  | inl t ↦ rw t (p, q, (ground arith, u, k))
  | inr t ↦ elim (Bool-cases (id == key)) [
    | inl e ↦ let same : id ≡ key = ground arith in rw (t, e) (p, q, rw same k)
    | inr e ↦ rw (t, e) (l, u, insert_coef-Keys (suc key) n m id c k (ground arith) q)
  ]
]

coef_at-insert_coef :
    (low n : ℕ) (m : CoefMap) (id c x : ℕ)
    → Keys low n m
    → coef_at (insert_coef m id c) x ≡ (if x == id then c else coef_at m x)
unfolding insert_coef
coef_at-insert_coef low n [] id c x k = refl
coef_at-insert_coef low n ((key, d) ∷ m) id c x (l, u, k) =
    ground (arith, coef_at-insert_coef (suc key) n m id c x k)

module _ (f : Field) (n : ℕ) where
  -- A map of the row that is being built.
  pub record Mapped (m : CoefMap) : Type 0 where
    pub keys : Keys 0 n m
    pub scalars : Scalars f (coef_at m)

  with_coef : CoefMap → ℕ → ℕ → CoefMap
  with_coef m id c = if c == 0 then m else insert_coef m id c

  coef_at-with_coef :
      (m : CoefMap) (id c x : ℕ)
      → Keys 0 n m
      → coef_at m id ≡ 0
      → coef_at (with_coef m id c) x ≡ (if x == id then c else coef_at m x)
  unfolding with_coef
  coef_at-with_coef m id c x k z = elim (Bool-cases (c == 0)) [
    | inl t ↦ elim (Bool-cases (x == id)) [
      | inl e ↦
          let same : x ≡ id = ground arith in rw (t, e) (ap (coef_at m) same ∙ z ∙ ground arith)
      | inr e ↦ rw (t, e) refl
    ]
    | inr t ↦ rw t (coef_at-insert_coef 0 n m id c x k)
  ]

  with_coef-Mapped :
      (m : CoefMap) (id c : ℕ)
      → Mapped m
      → id < n
      → c < order f
      → coef_at m id ≡ 0
      → Mapped (with_coef m id c)
  with_coef-Mapped m id c h p q z = record {
    keys =
        unfold with_coef in
        elim (Bool-cases (c == 0)) [
          | inl t ↦ rw t h.keys
          | inr t ↦ rw t (insert_coef-Keys 0 n m id c h.keys (omega arith) p)
        ];
    scalars = λ x. ground (arith, coef_at-with_coef m id c x h.keys z, h.scalars x);
  }

  with_coef-Absent :
      (m : CoefMap) (id c : ℕ) (ids : List ℕ)
      → Keys 0 n m
      → coef_at m id ≡ 0
      → Fresh id ids
      → Absent m ids
      → Absent (with_coef m id c) ids
  with_coef-Absent m id c [] k z fresh h = tt
  with_coef-Absent m id c (other ∷ ids) k z (ne, fresh) (e, h) =
      (coef_at-with_coef m id c other k z ∙ ground arith, with_coef-Absent m id c ids k z fresh h)

  -- The map's combination gains the share of the ID.
  combination-with_coef :
      (m : CoefMap) (id c : ℕ) (byte : ℕ → ℕ)
      → Bytes byte
      → Keys 0 n m
      → id < n
      → coef_at m id ≡ 0
      → combination f n (coef_at (with_coef m id c)) byte
        ≡ bit_xor (combination f n (coef_at m) byte) (act f c (byte id))
  combination-with_coef m id c byte bytes k p z =
      let after = coef_at (with_coef m id c) in
      let entry = λ (x : ℕ). coef_at-with_coef m id c x k z in
      let at : after id ≡ c = entry id ∙ ground arith in
      let lost : combination f n (coef_at m) byte
          ≡ bit_xor (combination f n after byte) (act f (after id) (byte id)) =
        combination-without f n byte bytes after (coef_at m) id p (λ x. cleared x (entry x)) in
      let share = act f c (byte id) in
      sym (xor-zero (combination f n after byte))
      ∙ ap (bit_xor (combination f n after byte)) (sym (xor_self share))
      ∙ sym (xor_assoc (combination f n after byte) share share)
      ∙ ap (λ (t : ℕ). bit_xor t share)
          (ap (λ (v : ℕ). bit_xor (combination f n after byte) (act f v (byte id))) (sym at)
            ∙ sym lost)
    where
      cleared :
          (x : ℕ)
          → coef_at (with_coef m id c) x ≡ (if x == id then c else coef_at m x)
          → coef_at m x ≡ (if x == id then 0 else coef_at (with_coef m id c) x)
      cleared x e = elim (Bool-cases (x == id)) [
        | inl t ↦ let same : x ≡ id = ground arith in rw t (ap (coef_at m) same ∙ z)
        | inr t ↦
            let kept : coef_at (with_coef m id c) x ≡ coef_at m x = e ∙ rw t refl in rw t (sym kept)
      ]

  pub record Built (m : CoefMap) (ids coefs : List ℕ) (next : CoefMap) : Type 0 where
    pub mapped : Mapped next
    pub sums :
        (byte : ℕ → ℕ)
        → Bytes byte
        → combination f n (coef_at next) byte
          ≡ bit_xor (combination f n (coef_at m) byte) (coded_byte f ids coefs byte)

  Built-cons :
      (m next : CoefMap) (id c : ℕ) (ids coefs : List ℕ)
      → Mapped m
      → id < n
      → coef_at m id ≡ 0
      → Built (with_coef m id c) ids coefs next
      → Built m (id ∷ ids) (c ∷ coefs) next
  Built-cons m next id c ids coefs h p z b = record {
    mapped = b.mapped;
    sums = λ byte bytes.
        b.sums byte bytes
        ∙ ap (λ (t : ℕ). bit_xor t (coded_byte f ids coefs byte))
            (combination-with_coef m id c byte bytes h.keys p z)
        ∙ xor_assoc (combination f n (coef_at m) byte) (act f c (byte id))
            (coded_byte f ids coefs byte);
  }

  pub coef_map-explicit :
      (ev : EncodingVector) (ids coefs : List ℕ) (m : CoefMap)
      → length ids ≡ length coefs
      → DistinctIds n ids
      → AllBelow (order f) coefs
      → Absent m ids
      → Mapped m
      → (next : CoefMap) × (coef_map ev ids coefs m ≡ ok next) × Built m ids coefs next
  unfolding coef_map with_coef
  coef_map-explicit ev [] coefs m e d below absent h =
      (m, refl, record { mapped = h; sums = λ byte bytes. sym (xor-zero _) })
  coef_map-explicit ev (id ∷ ids) [] m e d below absent h = absurd (omega arith)
  coef_map-explicit ev (id ∷ ids) (c ∷ coefs) m e (p, fresh, d) (q, below) (z, absent) h =
      let (next, runs, built) =
        coef_map-explicit ev ids coefs (with_coef m id c) (omega arith) d below
          (with_coef-Absent m id c ids h.keys z fresh absent) (with_coef-Mapped m id c h p q z) in
      (next, runs, Built-cons m next id c ids coefs h p z built)

  pub coef_map-vandermonde :
      (ev : EncodingVector) (ids : List ℕ) (m : CoefMap)
      → has_explicit_coefs ev ≡ false
      → ((id : ℕ) → vandermonde_coef ev.field id ev.coded_id < order f)
      → DistinctIds n ids
      → Absent m ids
      → Mapped m
      → (next : CoefMap) × (coef_map ev ids [] m ≡ ok next)
        × Built m ids (map (λ id. vandermonde_coef ev.field id ev.coded_id) ids) next
  unfolding coef_map with_coef
  coef_map-vandermonde ev [] m e below d absent h =
      (m, refl, record { mapped = h; sums = λ byte bytes. sym (xor-zero _) })
  coef_map-vandermonde ev (id ∷ ids) m e below (p, fresh, d) (z, absent) h =
      let c = vandermonde_coef ev.field id ev.coded_id in
      let (next, runs, built) =
        coef_map-vandermonde ev ids (with_coef m id c) e below d
          (with_coef-Absent m id c ids h.keys z fresh absent)
          (with_coef-Mapped m id c h p (below id) z) in
      (
        next,
        rw e runs,
        Built-cons m next id c ids (map (λ x. vandermonde_coef ev.field x ev.coded_id) ids) h p z
            built,
      )
