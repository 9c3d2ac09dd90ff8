-- ===== src/Codec/Dense/Places.antt =====
-- What stands at a place of a list that is written, extended or cut, with 0 beyond the end.
use delp.Prelude.{
  ℕ, zero, suc, ◌+◌, ◌-◌, ◌≤◌, ◌<◌, ◌≡◌, refl, ap, ap₂, ◌∙◌, List, [], ◌∷◌, ◌++◌, get_or, set,
  length, take, drop, replicate, ltb, ◌==◌, if◌then◌else◌, arith,
}

pub get_or-beyond : (xs : List ℕ) (j : ℕ) → length xs ≤ j → get_or xs j 0 ≡ 0
get_or-beyond [] j h = refl
get_or-beyond (x ∷ xs) zero h = absurd (omega arith)
get_or-beyond (x ∷ xs) (suc j) h = get_or-beyond xs j (omega arith)

pub get_or-clear :
    (xs : List ℕ) (i j : ℕ) → get_or (set xs i 0) j 0 ≡ (if j == i then 0 else get_or xs j 0)
get_or-clear [] i j = ground arith
get_or-clear (x ∷ xs) zero zero = refl
get_or-clear (x ∷ xs) zero (suc j) = ground arith
get_or-clear (x ∷ xs) (suc i) zero = ground arith
get_or-clear (x ∷ xs) (suc i) (suc j) = get_or-clear xs i j ∙ ground arith

pub get_or-replicate : (n j : ℕ) → get_or {A = ℕ} (replicate n 0) j 0 ≡ 0
get_or-replicate zero j = refl
get_or-replicate (suc n) zero = refl
get_or-replicate (suc n) (suc j) = get_or-replicate n j

pub get_or-zeros_behind : (xs : List ℕ) (n j : ℕ) → get_or (xs ++ replicate n 0) j 0 ≡ get_or xs j 0
get_or-zeros_behind [] n j = get_or-replicate n j
get_or-zeros_behind (x ∷ xs) n zero = refl
get_or-zeros_behind (x ∷ xs) n (suc j) = get_or-zeros_behind xs n j

pub get_or-zeros_before :
    (n : ℕ) (xs : List ℕ) (j : ℕ)
    → get_or (replicate n 0 ++ xs) j 0 ≡ (if ltb j n then 0 else get_or xs (j - n) 0)
get_or-zeros_before zero xs j =
    let same : j ≡ j - 0 = omega arith in ap (λ (i : ℕ). get_or xs i 0) same ∙ ground arith
get_or-zeros_before (suc n) xs zero = ground arith
get_or-zeros_before (suc n) xs (suc j) = get_or-zeros_before n xs j ∙ ground arith

pub get_or-take : (n : ℕ) (xs : List ℕ) (j : ℕ) → j < n → get_or (take n xs) j 0 ≡ get_or xs j 0
get_or-take zero xs j h = absurd (omega arith)
get_or-take (suc n) [] j h = refl
get_or-take (suc n) (x ∷ xs) zero h = refl
get_or-take (suc n) (x ∷ xs) (suc j) h = get_or-take n xs j (omega arith)

pub get_or-drop :
    (n : ℕ) (xs : List ℕ) (j k : ℕ) → k ≡ n + j → get_or (drop n xs) j 0 ≡ get_or xs k 0
get_or-drop zero xs j k e = ap (λ (i : ℕ). get_or xs i 0) (omega arith)
get_or-drop (suc n) [] j k e = refl
get_or-drop (suc n) (x ∷ xs) j zero e = absurd (omega arith)
get_or-drop (suc n) (x ∷ xs) j (suc k) e = get_or-drop n xs j k (omega arith)

-- `done` in place of the first entries.
get_or-front :
    (done xs : List ℕ) (j n : ℕ)
    → n ≡ length done
    → n ≤ length xs
    → get_or (done ++ drop n xs) j 0
      ≡ (if ltb j (length done) then get_or done j 0 else get_or xs j 0)
get_or-front [] xs j zero e h = ground arith
get_or-front [] xs j (suc n) e h = absurd (omega arith)
get_or-front (d ∷ done) xs j zero e h = absurd (omega arith)
get_or-front (d ∷ done) [] j (suc n) e h = absurd (omega arith)
get_or-front (d ∷ done) (x ∷ xs) zero (suc n) e h = ground arith
get_or-front (d ∷ done) (x ∷ xs) (suc j) (suc n) e h =
    get_or-front done xs j n (omega arith) (omega arith) ∙ ground arith

-- `done` in place of the entries from `off` on.
pub get_or-splice :
    (off : ℕ) (xs done : List ℕ) (j end : ℕ)
    → end ≡ off + length done
    → end ≤ length xs
    → get_or (take off xs ++ (done ++ drop end xs)) j 0 ≡ (
        if ltb j off
        then get_or xs j 0
        else if ltb j end
        then get_or done (j - off) 0
        else get_or xs j 0)
get_or-splice zero xs done j end e h =
    let same : j ≡ j - 0 = omega arith in
    let whole : length done ≡ end = omega arith in
    get_or-front done xs j end (omega arith) h
    ∙ ap₂ (λ (n i : ℕ). if ltb j n then get_or done i 0 else get_or xs j 0) whole same
    ∙ ground arith
get_or-splice (suc off) [] done j end e h = absurd (omega arith)
get_or-splice (suc off) (x ∷ xs) done j zero e h = absurd (omega arith)
get_or-splice (suc off) (x ∷ xs) done zero (suc end) e h = ground arith
get_or-splice (suc off) (x ∷ xs) done (suc j) (suc end) e h =
    get_or-splice off xs done j end (omega arith) (omega arith) ∙ ground arith
