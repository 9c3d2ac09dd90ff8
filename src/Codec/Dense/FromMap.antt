-- ===== src/Codec/Dense/FromMap.antt =====
-- The row that `from_map` makes of a map: a map in ascending order of its keys is read at an ID.
use delp.Prelude.{
  ℕ, zero, suc, ◌+◌, ◌-◌, ◌≤◌, ◌<◌, ◌≡◌, refl, ap, ◌∙◌, List, [], ◌∷◌, get_or, set, length,
  replicate, ltb, ◌==◌, if◌then◌else◌, arith, length-set, length-replicate,
}
use delp.Codec.Dense.{new, max_key, fill, from_map, get}
use delp.Codec.Dense.Entries.{EndsBy}
use delp.Codec.Dense.Places.{get_or-replicate}

abbrev pub CoefMap : Type 0
CoefMap = List (ℕ × ℕ)

-- The value of a key, or 0.
abbrev pub coef_at : CoefMap → ℕ → ℕ
coef_at [] x = 0
coef_at ((id, c) ∷ m) x = let rest = coef_at m x in if x == id then c else rest

-- The keys ascend from `low` on, and lie below `n`.
abbrev pub Keys : ℕ → ℕ → CoefMap → Type 0
Keys low n [] = Unit
Keys low n ((id, c) ∷ m) = (low ≤ id) × (id < n) × Keys (suc id) n m

pub coef_at-below : (low n : ℕ) (m : CoefMap) (x : ℕ) → Keys low n m → x < low → coef_at m x ≡ 0
coef_at-below low n [] x k h = refl
coef_at-below low n ((id, c) ∷ m) x (p, q, k) h =
    ground (arith, coef_at-below (suc id) n m x k (omega arith))

le-max_key : (id n : ℕ) (m : CoefMap) → Keys (suc id) n m → id ≤ max_key id m
unfolding max_key
le-max_key id n [] k = omega arith
le-max_key id n ((next, c) ∷ m) (p, q, k) = omega (arith, le-max_key next n m k)

max_key-lt : (id n : ℕ) (m : CoefMap) → id < n → Keys (suc id) n m → max_key id m < n
unfolding max_key
max_key-lt id n [] h k = h
max_key-lt id n ((next, c) ∷ m) h (p, q, k) = max_key-lt next n m q k

get_or-set :
    (xs : List ℕ) (i v j : ℕ)
    → i < length xs
    → get_or (set xs i v) j 0 ≡ (if j == i then v else get_or xs j 0)
get_or-set [] i v j h = absurd (omega arith)
get_or-set (x ∷ xs) zero v zero h = refl
get_or-set (x ∷ xs) zero v (suc j) h = ground arith
get_or-set (x ∷ xs) (suc i) v zero h = ground arith
get_or-set (x ∷ xs) (suc i) v (suc j) h = get_or-set xs i v j (omega arith) ∙ ground arith

-- Writing the map's values over entries that are zero from the first key on.
fill-entries :
    (min low n last : ℕ) (m : CoefMap) (xs : List ℕ)
    → Keys low n m
    → min ≤ low
    → max_key last m < min + length xs
    → ((j : ℕ) → low ≤ min + j → get_or xs j 0 ≡ 0)
    → (length (fill min m xs) ≡ length xs)
      × ((j : ℕ) → get_or (fill min m xs) j 0 ≡ get_or xs j 0 + coef_at m (min + j))
unfolding fill max_key
fill-entries min low n last [] xs k le fits zeros = (refl, λ j. omega arith)
fill-entries min low n last ((id, c) ∷ m) xs (p, q, k) le fits zeros =
    let place : id - min < length xs = omega (arith, le-max_key id n m k) in
    let written : (j : ℕ)
        → get_or (set xs (id - min) c) j 0 ≡ (if j == (id - min) then c else get_or xs j 0) =
      λ j. get_or-set xs (id - min) c j place in
    let (same, entry) =
      fill-entries min (suc id) n id m (set xs (id - min) c) k (omega arith)
        (omega (arith, length-set xs (id - min) c)) (λ j h. ground (arith, written j, zeros j)) in
    (
      same ∙ length-set xs (id - min) c,
      λ j. ground (arith, entry j, written j, zeros j, coef_at-below (suc id) n m (min + j) k),
    )

-- The row of a map has the map's values as its coefficients.
pub get-from_map :
    (n : ℕ) (m : CoefMap)
    → Keys 0 n m
    → EndsBy n (from_map m) × ((x : ℕ) → get (from_map m) x ≡ coef_at m x)
unfolding from_map get new
get-from_map n [] k = (omega arith, λ x. ground arith)
get-from_map n ((min, c) ∷ m) (p, q, k) =
    let len = max_key min m - min + 1 in
    let blank : length (replicate len zero) ≡ len = length-replicate len zero in
    let low = le-max_key min n m k in
    let high = max_key-lt min n m q k in
    let (same, entry) =
      fill-entries min min n min ((min, c) ∷ m) (replicate len zero) (omega arith, q, k)
        (omega arith) (unfold max_key in omega arith) (λ j h. get_or-replicate len j) in
    (
      omega arith,
      λ x. ground (
        arith,
        entry (x - min),
        get_or-replicate len (x - min),
        coef_at-below (suc min) n m x k,
        ap (λ (t : ℕ). coef_at m t) (place x),
      ),
    )
  where
    place : (x : ℕ) → min + (x - min) ≡ (if ltb x min then min else x)
    place x = ground arith
