-- ===== src/Codec/Buffer/Laws.antt =====
-- Lookups in the delivery buffer after its operations.
use delp.Prelude.{
  ℕ, ◌+◌, ◌≤◌, ◌<◌, ◌≡◌, refl, ap, Bool, ◌&&◌, Option, none, some, List, [], ◌∷◌, inl, inr, ltb,
  leb, ◌==◌, if◌then◌else◌, retain, arith, Bool-cases, ==_iff, ltb→lt, leb→le,
}
use delp.Codec.Buffer.{SymbolBuffer, lookup, or_insert, insert, get, prune_below}

pub lookup-retain :
    (p : ℕ → Bool) (m : List (ℕ × List ℕ)) (id : ℕ)
    → lookup (retain (λ e. p e.0) m) id ≡ (if p id then lookup m id else none)
unfolding lookup
lookup-retain p [] id = ground arith
lookup-retain p ((k, v) ∷ m) id =
    let ih = lookup-retain p m id in
    elim (Bool-cases (k == id)) [
      | inl e ↦
          let same = ap p ((==_iff k id).0 e) in
          elim (Bool-cases (p k)) [ inl t ↦ rw t (ground arith) | inr f ↦ rw f (ground arith) ]
      | inr d ↦ elim (Bool-cases (p k)) [
        | inl t ↦ rw t (ground arith)
        | inr f ↦ rw f (ground arith)
      ]
    ]

-- The IDs ascend from `low` on.
unfoldable pub Ascends : ℕ → List (ℕ × List ℕ) → Type 0
Ascends low [] = Unit
Ascends low ((k, v) ∷ m) = (low ≤ k) × Ascends (k + 1) m

pub Ascends-weaken : (a b : ℕ) (m : List (ℕ × List ℕ)) → b ≤ a → Ascends a m → Ascends b m
unfolding Ascends
Ascends-weaken a b [] h v = tt
Ascends-weaken a b (e ∷ m) h (l, r) = (omega arith, r)

lookup-below : (low id : ℕ) (m : List (ℕ × List ℕ)) → Ascends low m → id < low → lookup m id ≡ none
unfolding Ascends lookup
lookup-below low id [] v h = refl
lookup-below low id ((k, v) ∷ m) (l, r) h =
    let ih = lookup-below (k + 1) id m r (omega arith) in ground arith

-- The symbol that stands after an insertion: the one that was there, or else the new one.
abbrev pub kept : Option (List ℕ) → List ℕ → List ℕ
kept none payload = payload
kept (some v) payload = v

lookup-or_insert :
    (low id i : ℕ) (payload : List ℕ) (m : List (ℕ × List ℕ))
    → Ascends low m
    → lookup (or_insert m id payload) i
      ≡ (if id == i then some (kept (lookup m id) payload) else lookup m i)
unfolding Ascends lookup or_insert
lookup-or_insert low id i payload [] v = ground arith
lookup-or_insert low id i payload ((k, v) ∷ m) (l, r) =
    let ih = lookup-or_insert (k + 1) id i payload m r in
    elim (Bool-cases (ltb id k)) [
      | inl t ↦ let fresh = lookup-below (k + 1) id m r (ground arith) in rw t (ground arith)
      | inr f ↦ elim (Bool-cases (id == k)) [
        | inl e ↦ rw (f, e) (ground arith)
        | inr d ↦ rw (f, d) (ground arith)
      ]
    ]

pub Ascends-retain :
    (p : ℕ → Bool) (low : ℕ) (m : List (ℕ × List ℕ))
    → Ascends low m
    → Ascends low (retain (λ e. p e.0) m)
unfolding Ascends
Ascends-retain p low [] v = tt
Ascends-retain p low ((k, v) ∷ m) (l, r) = elim (Bool-cases (p k)) [
  | inl t ↦ rw t (l, Ascends-retain p (k + 1) m r)
  | inr f ↦ rw f (
      Ascends-weaken (k + 1) low (retain (λ e. p e.0) m) (omega arith)
        (Ascends-retain p (k + 1) m r))
]

Ascends-or_insert :
    (low id : ℕ) (payload : List ℕ) (m : List (ℕ × List ℕ))
    → low ≤ id
    → Ascends low m
    → Ascends low (or_insert m id payload)
unfolding Ascends or_insert
Ascends-or_insert low id payload [] h v = (h, tt)
Ascends-or_insert low id payload ((k, v) ∷ m) h (l, r) = elim (Bool-cases (ltb id k)) [
  | inl t ↦ rw t (h, (omega (arith, ltb→lt id k t), r))
  | inr f ↦ elim (Bool-cases (id == k)) [
    | inl e ↦ rw (f, e) (l, r)
    | inr d ↦ rw (f, d) (l, Ascends-or_insert (k + 1) id payload m (ground arith) r)
  ]
]

-- The buffer is ordered and holds nothing below the next ID to deliver.
pub record IsValid (b : SymbolBuffer) : Type 0 where
  pub ascends : Ascends b.next_delivery_id b.symbols

pub insert-IsValid :
    (b : SymbolBuffer) (id : ℕ) (payload : List ℕ) → IsValid b → IsValid (insert b id payload)
unfolding insert
insert-IsValid b id payload v = elim (Bool-cases (leb b.next_delivery_id id)) [
  | inl t ↦ rw t (record {
    ascends = Ascends-or_insert b.next_delivery_id id payload b.symbols (ground arith) v.ascends;
  })
  | inr f ↦ rw f v
]

-- After an insertion into a valid buffer the inserted ID, if it is not below the next one to deliver,
-- looks up the symbol it had, or else the inserted one; all other IDs look up what they did before.
pub get-insert :
    (b : SymbolBuffer) (id i : ℕ) (payload : List ℕ)
    → IsValid b
    → get (insert b id payload) i
      ≡ (if (id == i) && leb b.next_delivery_id id then some (kept (get b id) payload) else get b i)
unfolding insert get
get-insert b id i payload v = elim (Bool-cases (leb b.next_delivery_id id)) [
  | inl t ↦
      rw (t, lookup-or_insert b.next_delivery_id id i payload b.symbols v.ascends) (ground arith)
  | inr f ↦ rw f (ground arith)
]

Ascends-floor :
    (low floor : ℕ) (m : List (ℕ × List ℕ))
    → Ascends low m
    → Ascends floor (retain (λ e. leb floor e.0) m)
unfolding Ascends
Ascends-floor low floor [] v = tt
Ascends-floor low floor ((k, v) ∷ m) (l, r) = elim (Bool-cases (leb floor k)) [
  | inl t ↦ rw t (leb→le floor k t, Ascends-retain (leb floor) (k + 1) m r)
  | inr f ↦ rw f (Ascends-floor (k + 1) floor m r)
]

pub prune_below-IsValid : (b : SymbolBuffer) (floor : ℕ) → IsValid b → IsValid (prune_below b floor)
unfolding prune_below
prune_below-IsValid b floor v = elim (Bool-cases (ltb b.next_delivery_id floor)) [
  | inl t ↦ record { ascends = rw t (Ascends-floor b.next_delivery_id floor b.symbols v.ascends) }
  | inr f ↦ record {
    ascends = rw f (Ascends-retain (leb floor) b.next_delivery_id b.symbols v.ascends);
  }
]

-- Pruning forgets exactly the symbols below the floor.
pub get-prune_below :
    (b : SymbolBuffer) (floor id : ℕ)
    → get (prune_below b floor) id ≡ (if leb floor id then get b id else none)
unfolding prune_below get
get-prune_below b floor id = lookup-retain (leb floor) b.symbols id
