-- ===== src/Codec/Buffer/Drain.antt =====
-- What `drain_deliverable` delivers, and what it leaves.
use delp.Prelude.{
  Bool, ℕ, zero, suc, ◌+◌, ◌≤◌, ◌<◌, ◌^◌, ◌≡◌, refl, ◌∙◌, not, ◌&&◌, Option, none, some, List, [],
  ◌∷◌, inl, inr, ltb, leb, ◌==◌, if◌then◌else◌, length, length-retain, arith, Bool-cases, ==_iff,
  retain, Option-cases, u32,
}
use delp.Codec.Buffer.{
  insert, prune_below, SymbolBuffer, lookup, remove, get, drain, drain_round, drain_deliverable,
}
use delp.Codec.Buffer.Laws.{
  lookup-retain, IsValid, Ascends, Ascends-weaken, Ascends-retain, insert-IsValid,
  prune_below-IsValid,
}

-- The output is a run of IDs from `id` on, each with the symbol the map holds for it.
unfoldable pub Delivers : List (ℕ × List ℕ) → ℕ → List (ℕ × List ℕ) → Type 0
Delivers m id [] = Unit
Delivers m id ((k, v) ∷ out) = (k ≡ id) × (lookup m id ≡ some v) × Delivers m (id + 1) out

lookup-remove :
    (m : List (ℕ × List ℕ)) (k id : ℕ)
    → lookup (remove m k) id ≡ (if id == k then none else lookup m id)
unfolding remove
lookup-remove m k id = lookup-retain (λ i. not (i == k)) m id ∙ ground arith

Delivers-remove :
    (m : List (ℕ × List ℕ)) (k id : ℕ) (out : List (ℕ × List ℕ))
    → k < id
    → Delivers (remove m k) id out
    → Delivers m id out
unfolding Delivers
Delivers-remove m k id [] h d = tt
Delivers-remove m k id ((i, v) ∷ out) h (e, found, d) =
    let same = lookup-remove m k id in
    (e, ground arith, Delivers-remove m k (id + 1) out (omega arith) d)

-- A found symbol is an entry, so a removal shortens the map.
remove-shorter :
    (m : List (ℕ × List ℕ)) (id : ℕ) (v : List ℕ)
    → lookup m id ≡ some v
    → length (remove m id) < length m
unfolding lookup remove
remove-shorter [] id v h = absurd (ground arith)
remove-shorter ((k, u) ∷ m) id v h = elim (Bool-cases (k == id)) [
  | inl e ↦ let le = length-retain (λ e. not (e.0 == id)) m in rw e (ground arith)
  | inr d ↦ let ih = remove-shorter m id v (ground arith) in rw d (ground arith)
]

-- What a drain guarantees of its output and of the buffer it leaves.
pub record Drained (b : SymbolBuffer) (out : List (ℕ × List ℕ)) (after : SymbolBuffer)
    : Type 0 where
  pub delivers : Delivers b.symbols b.next_delivery_id out
  pub next_id : after.next_delivery_id ≡ b.next_delivery_id + length out
  pub stopped : get after after.next_delivery_id ≡ none
  pub others :
      (i : ℕ)
      → get after i
        ≡ (if leb b.next_delivery_id i && ltb i after.next_delivery_id then none else get b i)

-- No buffered symbol has the last 32-bit ID.
unfoldable pub BelowMax : SymbolBuffer → Type 0
BelowMax b = (i : ℕ) (v : List ℕ) → get b i ≡ some v → i + 1 < 2 ^ 32

empty-lookup : (m : List (ℕ × List ℕ)) (id : ℕ) → length m ≤ 0 → lookup m id ≡ none
unfolding lookup
empty-lookup [] id h = refl
empty-lookup (e ∷ m) id h = absurd (omega arith)

-- A round removes `n`, and those after it remove the IDs from `n + 1` to `k`.
others-step :
    (n k i : ℕ) (final between first : Option (List ℕ))
    → n + 1 ≤ k
    → final ≡ (if leb (n + 1) i && ltb i k then none else between)
    → between ≡ (if i == n then none else first)
    → final ≡ (if leb n i && ltb i k then none else first)
others-step n k i final between first h e d = ground arith

drain-Drained :
    (fuel : ℕ) (b : SymbolBuffer)
    → length b.symbols ≤ fuel
    → BelowMax b
    → Drained b (drain fuel b).0 (drain fuel b).1
unfolding drain drain_round Delivers get BelowMax
drain-Drained zero b h small = record {
  delivers = tt;
  next_id = omega arith;
  stopped = empty-lookup b.symbols b.next_delivery_id h;
  others = λ i. ground arith;
}
drain-Drained (suc fuel) b h small = elim (Option-cases (lookup b.symbols b.next_delivery_id)) [
  | inl none_left ↦ rw none_left (record {
    delivers = tt;
    next_id = omega arith;
    stopped = none_left;
    others = λ i. ground arith;
  })
  | inr (v, found) ↦
      let after : SymbolBuffer = record {
        symbols = remove b.symbols b.next_delivery_id;
        next_delivery_id = b.next_delivery_id + 1;
      } in
      let wrap : u32 (b.next_delivery_id + 1) ≡ b.next_delivery_id + 1 =
        let below = small b.next_delivery_id v found in omega arith in
      let shorter = remove-shorter b.symbols b.next_delivery_id v found in
      let ih = drain-Drained fuel after (omega arith) λ i w e.
        let same = lookup-remove b.symbols b.next_delivery_id i in small i w (ground arith) in
      rw (found, wrap)
        (record {
          delivers = (
            refl,
            found,
            Delivers-remove b.symbols b.next_delivery_id (b.next_delivery_id + 1) _ (omega arith)
                ih.delivers,
          );
          next_id = omega (arith, ih.next_id);
          stopped = ih.stopped;
          others = λ i.
              others-step b.next_delivery_id _ i _ (lookup after.symbols i) (get b i)
                (omega (arith, ih.next_id)) (ih.others i)
                (lookup-remove b.symbols b.next_delivery_id i);
        })
]

-- `drain_deliverable` on a buffer with no symbol at the last 32-bit ID returns the buffered symbols
-- of consecutive IDs from the next one to deliver, moves that ID past them, stops at an ID that is
-- not buffered, and leaves the symbols of all other IDs as they are.
pub drain_deliverable-Drained :
    (b : SymbolBuffer) → BelowMax b → Drained b (drain_deliverable b).0 (drain_deliverable b).1
unfolding drain_deliverable
drain_deliverable-Drained b small = drain-Drained (length b.symbols) b (omega arith) small

-- Without the ID `low` the map starts above it.
Ascends-remove :
    (low : ℕ) (m : List (ℕ × List ℕ)) → Ascends low m → Ascends (low + 1) (remove m low)
unfolding Ascends remove
Ascends-remove low [] v = tt
Ascends-remove low ((k, v) ∷ m) (l, r) =
    let others : ℕ → Bool = λ i. not (i == low) in
    elim (Bool-cases (k == low)) [
      | inl e ↦
          let same = (==_iff k low).0 e in
          rw e (
            Ascends-weaken (k + 1) (low + 1) (retain (λ x. others x.0) m) (omega arith)
              (Ascends-retain others (k + 1) m r))
      | inr d ↦ rw d (ground arith, Ascends-retain others (k + 1) m r)
    ]

drain-IsValid : (fuel : ℕ) (b : SymbolBuffer) → BelowMax b → IsValid b → IsValid (drain fuel b).1
unfolding drain drain_round BelowMax get
drain-IsValid zero b small v = v
drain-IsValid (suc fuel) b small v = elim (Option-cases (lookup b.symbols b.next_delivery_id)) [
  | inl none_left ↦ rw none_left v
  | inr (w, found) ↦
      let after : SymbolBuffer = record {
        symbols = remove b.symbols b.next_delivery_id;
        next_delivery_id = b.next_delivery_id + 1;
      } in
      let wrap : u32 (b.next_delivery_id + 1) ≡ b.next_delivery_id + 1 =
        let below = small b.next_delivery_id w found in omega arith in
      let ascends = Ascends-remove b.next_delivery_id b.symbols v.ascends in
      rw (found, wrap)
        (drain-IsValid fuel after
          (λ i u e.
            let same = lookup-remove b.symbols b.next_delivery_id i in small i u (ground arith))
          (record { ascends = ascends }))
]

-- Insertions, prunings and drains of a buffer with no symbol at the last 32-bit ID keep it ordered,
-- with no symbol below the next ID to deliver.
pub operations-IsValid :
    (b : SymbolBuffer) (id floor : ℕ) (payload : List ℕ)
    → BelowMax b
    → IsValid b
    → IsValid (insert b id payload)
      × IsValid (prune_below b floor)
      × IsValid (drain_deliverable b).1
unfolding drain_deliverable
operations-IsValid b id floor payload small v = (
  insert-IsValid b id payload v,
  prune_below-IsValid b floor v,
  drain-IsValid (length b.symbols) b small v,
)
