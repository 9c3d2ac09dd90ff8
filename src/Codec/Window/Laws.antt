-- ===== src/Codec/Window/Laws.antt =====
-- The invariant of the encoding window, and that the indexed lookup finds what a scan finds.
use mathlib.Core.Path.{subst}
use delp.Prelude.{
  ℕ, suc, ◌+◌, ◌-◌, ◌^◌, ◌≤◌, ◌<◌, ◌≡◌, refl, Bool, true, false, not, none, some, List, [], ◌∷◌,
  ◌++◌, inl, inr, length, retain, contains, arith, ltb, get_elem?, Bool-cases, zero-or-pos,
  length-append, length-retain, retain_same, u32, if◌then◌else◌,
}
use mathlib.Core.Option
use delp.Codec.Window.{
  WindowSymbol, EncodingWindow, new, last_of, last_id, still_contiguous, push, pop_front,
  evict_oldest, check_from, check_contiguous, remove_ids, find_data, get_in, get,
}

-- The IDs ascend from `low` on and stay below `high`.
unfoldable pub Within : ℕ → ℕ → List WindowSymbol → Type 0
Within low high [] = Unit
Within low high (s ∷ ss) = (low ≤ s.id) × (s.id < high) × Within (s.id + 1) high ss

-- Each ID is the one before it and one more.
unfoldable pub Follows : ℕ → List WindowSymbol → Type 0
Follows previous [] = Unit
Follows previous (s ∷ ss) = (s.id ≡ previous + 1) × Follows s.id ss

unfoldable pub Consecutive : List WindowSymbol → Type 0
Consecutive [] = Unit
Consecutive (s ∷ ss) = Follows s.id ss

pub record IsValid (w : EncodingWindow) : Type 0 where
  pub bounded : length w.symbols ≤ w.capacity
  pub within : Within 0 w.next_id w.symbols
  pub word : w.next_id < 2 ^ 32
  pub consecutive : w.is_contiguous ≡ true → Consecutive w.symbols

Within-weaken : (a b c : ℕ) (ss : List WindowSymbol) → b ≤ a → Within a c ss → Within b c ss
unfolding Within
Within-weaken a b c [] h v = tt
Within-weaken a b c (s ∷ ss) h (l, m, r) = (omega arith, m, r)

Within-retain :
    (p : WindowSymbol → Bool) (a c : ℕ) (ss : List WindowSymbol)
    → Within a c ss
    → Within a c (retain p ss)
unfolding Within
Within-retain p a c [] v = tt
Within-retain p a c (s ∷ ss) (l, m, r) = elim (Bool-cases (p s)) [
  | inl t ↦ rw t (l, m, Within-retain p (s.id + 1) c ss r)
  | inr f ↦
      rw f (
        Within-weaken (s.id + 1) a c (retain p ss) (omega arith)
          (Within-retain p (s.id + 1) c ss r))
]

Within-snoc :
    (s : WindowSymbol) (a : ℕ) (ss : List WindowSymbol)
    → a ≤ s.id
    → Within a s.id ss
    → Within a (s.id + 1) (ss ++ s ∷ [])
unfolding Within
Within-snoc s a [] h v = (h, omega arith, tt)
Within-snoc s a (t ∷ ss) h (l, m, r) = (l, omega arith, Within-snoc s (t.id + 1) ss (omega arith) r)

last_of-below :
    (a c : ℕ) (t : WindowSymbol) (ss : List WindowSymbol)
    → Within a c (t ∷ ss)
    → (l : ℕ) × (last_of (t ∷ ss) ≡ some l) × (l < c)
unfolding Within last_of
last_of-below a c t [] (l, m, r) = (t.id, refl, m)
last_of-below a c t (u ∷ ss) (l, m, r) = last_of-below (t.id + 1) c u ss r

Follows-snoc :
    (s t : WindowSymbol) (l : ℕ) (ss : List WindowSymbol)
    → last_of (t ∷ ss) ≡ some l
    → s.id ≡ l + 1
    → Follows t.id ss
    → Follows t.id (ss ++ s ∷ [])
unfolding Follows last_of
Follows-snoc s t l [] e k f = (grind arith, tt)
Follows-snoc s t l (u ∷ ss) e k (h, f) = (h, Follows-snoc s u l ss e k f)

-- A scan behind consecutive IDs.
find-Follows :
    (p id : ℕ) (ss : List WindowSymbol)
    → Follows p ss
    → p < id
    → find_data ss id ≡ Option.map WindowSymbol.payload (get_elem? ss (id - p - 1))
unfolding Follows find_data
find-Follows p id [] f h = refl
find-Follows p id (s ∷ ss) (e, f) h = elim (zero-or-pos (id - p - 1)) [
  | inl z ↦ rw z (ground arith)
  | inr z ↦
      let ih = find-Follows s.id id ss f (omega arith) in
      let k : id - p - 1 ≡ suc (id - s.id - 1) = omega arith in rw k (ground arith)
]

find-below : (a c id : ℕ) (ss : List WindowSymbol) → Within a c ss → id < a → find_data ss id ≡ none
unfolding Within find_data
find-below a c id [] v h = refl
find-below a c id (s ∷ ss) (l, m, r) h =
    let ih = find-below (s.id + 1) c id ss r (omega arith) in ground arith

check_from-Follows :
    (p c : ℕ) (ss : List WindowSymbol)
    → c < 2 ^ 32
    → Within (p + 1) c ss
    → check_from p ss ≡ true
    → Follows p ss
unfolding Within Follows check_from
check_from-Follows p c [] h v e = tt
check_from-Follows p c (s ∷ ss) h (l, m, r) e =
    let (first, rest) : (s.id ≡ u32 (p + 1)) × (check_from s.id ss ≡ true) = ground arith in
    (omega arith, check_from-Follows s.id c ss h r rest)

get_in-find :
    (flag : Bool) (a c id : ℕ) (ss : List WindowSymbol)
    → Within a c ss
    → (flag ≡ true → Consecutive ss)
    → get_in flag ss id ≡ find_data ss id
unfolding get_in find_data Within Consecutive
get_in-find true a c id [] v k = refl
get_in-find false a c id [] v k = refl
get_in-find false a c id (s ∷ ss) v k = refl
get_in-find true a c id (s ∷ ss) (l, m, r) k = elim (zero-or-pos (id - s.id)) [
  | inl z ↦ let below = find-below (s.id + 1) c id ss r (omega arith) in rw z (ground arith)
  | inr z ↦
      let scan = find-Follows s.id id ss (k refl) (omega arith) in
      let e : id - s.id ≡ suc (id - s.id - 1) = omega arith in rw e (ground arith)
]

-- In a valid window the lookup returns the payload that a scan of the symbols for the ID finds.
pub get-find : (w : EncodingWindow) (id : ℕ) → IsValid w → get w id ≡ find_data w.symbols id
unfolding get
get-find w id v = get_in-find w.is_contiguous 0 w.next_id id w.symbols v.within v.consecutive

pub new-IsValid : (capacity : ℕ) → IsValid (new capacity)
unfolding new Within Consecutive
new-IsValid capacity = record {
  bounded = omega arith;
  within = tt;
  word = omega arith;
  consecutive = λ _. tt;
}

still_contiguous-Consecutive :
    (flag : Bool) (s : WindowSymbol) (ss : List WindowSymbol)
    → s.id < 2 ^ 32
    → Within 0 s.id ss
    → (flag ≡ true → Consecutive ss)
    → still_contiguous flag (last_of ss) s.id ≡ true
    → Consecutive (ss ++ s ∷ [])
unfolding still_contiguous last_of Consecutive Follows
still_contiguous-Consecutive flag s [] h v k e = tt
still_contiguous-Consecutive flag s (t ∷ ss) h v k e =
    let (l, last, below) = last_of-below 0 s.id t ss v in
    let flags : still_contiguous flag (some l) s.id ≡ true =
      subst (λ o. still_contiguous flag o s.id ≡ true) last e in
    Follows-snoc s t l ss last (ground arith) (k (ground arith))

pub push-IsValid :
    (w : EncodingWindow) (payload : List ℕ)
    → IsValid w
    → length w.symbols < w.capacity
    → w.next_id + 1 < 2 ^ 32
    → IsValid (push w payload).1
unfolding push last_id
push-IsValid w payload v room h =
    let s : WindowSymbol = record { id = w.next_id; payload = payload } in
    let next : u32 (w.next_id + 1) ≡ w.next_id + 1 = omega arith in
    record {
      bounded = omega (arith, length-append w.symbols (s ∷ []));
      within = rw next (Within-snoc s 0 w.symbols (omega arith) v.within);
      word = omega arith;
      consecutive =
          still_contiguous-Consecutive w.is_contiguous s w.symbols v.word v.within v.consecutive;
    }

pop_front-Within : (a c : ℕ) (ss : List WindowSymbol) → Within a c ss → Within a c (pop_front ss)
unfolding pop_front Within
pop_front-Within a c [] v = tt
pop_front-Within a c (s ∷ ss) (l, m, r) = Within-weaken (s.id + 1) a c ss (omega arith) r

pop_front-Consecutive : (ss : List WindowSymbol) → Consecutive ss → Consecutive (pop_front ss)
unfolding pop_front Consecutive Follows
pop_front-Consecutive [] k = tt
pop_front-Consecutive (s ∷ []) k = tt
pop_front-Consecutive (s ∷ t ∷ ss) (e, k) = k

length-pop_front : (ss : List WindowSymbol) → length (pop_front ss) ≤ length ss
unfolding pop_front
length-pop_front [] = omega arith
length-pop_front (s ∷ ss) = omega arith

pub evict_oldest-IsValid : (w : EncodingWindow) → IsValid w → IsValid (evict_oldest w)
unfolding evict_oldest
evict_oldest-IsValid w v = record {
  bounded = omega (arith, v.bounded, length-pop_front w.symbols);
  within = pop_front-Within 0 w.next_id w.symbols v.within;
  word = v.word;
  consecutive = λ e. pop_front-Consecutive w.symbols (v.consecutive e);
}

check_contiguous-Consecutive :
    (a c : ℕ) (ss : List WindowSymbol)
    → c < 2 ^ 32
    → Within a c ss
    → check_contiguous ss ≡ true
    → Consecutive ss
unfolding check_contiguous Consecutive Within
check_contiguous-Consecutive a c [] h v e = tt
check_contiguous-Consecutive a c (s ∷ ss) h (l, m, r) e = check_from-Follows s.id c ss h r e

-- The flag is computed again when a symbol was removed, and kept when the symbols are the same.
retain-Consecutive :
    (p : WindowSymbol → Bool) (w : EncodingWindow)
    → IsValid w
    → (if ltb 0 (length w.symbols - length (retain p w.symbols))
        then check_contiguous (retain p w.symbols)
        else w.is_contiguous)
      ≡ true
    → Consecutive (retain p w.symbols)
retain-Consecutive p w v e =
    let kept = retain p w.symbols in
    let le = length-retain p w.symbols in
    elim (Bool-cases (ltb 0 (length w.symbols - length kept))) [
      | inl t ↦
          check_contiguous-Consecutive 0 w.next_id kept v.word
            (Within-retain p 0 w.next_id w.symbols v.within) (ground arith)
      | inr f ↦
          let same = retain_same p w.symbols (ground arith) in
          rw same (v.consecutive (ground arith))
    ]

pub remove_ids-IsValid :
    (w : EncodingWindow) (ids : List ℕ) → IsValid w → IsValid (remove_ids w ids)
unfolding remove_ids
remove_ids-IsValid w [] v = v
remove_ids-IsValid w (i ∷ ids) v =
    let p : WindowSymbol → Bool = λ s. not (contains (i ∷ ids) s.id) in
    record {
      bounded = omega (arith, v.bounded, length-retain p w.symbols);
      within = Within-retain p 0 w.next_id w.symbols v.within;
      word = v.word;
      consecutive = retain-Consecutive p w v;
    }
