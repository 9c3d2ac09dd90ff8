-- ===== src/Codec/Buffer.antt =====
-- src/codec/decoder/buffer.rs: the decoder's delivery buffer. The `BTreeMap` is an association list
-- that its insertion keeps in ascending order of the IDs.
pub mod Laws
pub mod Drain
use delp.Prelude.{
  ℕ, zero, suc, ◌+◌, Bool, true, false, not, Option, none, some, List, [], ◌∷◌, map, ltb, leb, ◌==◌,
  if◌then◌else◌, length, retain, u32,
}

pub record SymbolBuffer : Type 0 where
  pub symbols : List (ℕ × List ℕ)
  pub next_delivery_id : ℕ

unfoldable pub new : ℕ → SymbolBuffer
new start_id = record { symbols = []; next_delivery_id = start_id }

unfoldable pub lookup : List (ℕ × List ℕ) → ℕ → Option (List ℕ)
lookup [] id = none
lookup ((k, v) ∷ m) id = let rest = lookup m id in if k == id then some v else rest

-- `entry(id).or_insert(data)`.
unfoldable pub or_insert : List (ℕ × List ℕ) → ℕ → List ℕ → List (ℕ × List ℕ)
or_insert [] id payload = (id, payload) ∷ []
or_insert ((k, v) ∷ m) id payload =
    let rest = or_insert m id payload in
    if ltb id k then (id, payload) ∷ (k, v) ∷ m else if id == k then (k, v) ∷ m else (k, v) ∷ rest

unfoldable pub remove : List (ℕ × List ℕ) → ℕ → List (ℕ × List ℕ)
remove m id = retain (λ e. not (e.0 == id)) m

unfoldable pub insert : SymbolBuffer → ℕ → List ℕ → SymbolBuffer
insert b id payload =
    if leb b.next_delivery_id id
    then (record {
      symbols = or_insert b.symbols id payload;
      next_delivery_id = b.next_delivery_id;
    })
    else b

unfoldable pub contains_key : SymbolBuffer → ℕ → Bool
contains_key b id = elim (lookup b.symbols id) [ none ↦ false | some v ↦ true ]

unfoldable pub get : SymbolBuffer → ℕ → Option (List ℕ)
get b id = lookup b.symbols id

-- The last key.
unfoldable pub last_key : List (ℕ × List ℕ) → Option ℕ
last_key [] = none
last_key ((k, v) ∷ []) = some k
last_key ((k, v) ∷ e ∷ m) = last_key (e ∷ m)

unfoldable pub highest_id : SymbolBuffer → Option ℕ
highest_id b = last_key b.symbols

-- One round of the loop, with the symbol that it finds and the outcome of the rounds after it.
unfoldable pub drain_round :
    SymbolBuffer
    → Option (List ℕ)
    → List (ℕ × List ℕ) × SymbolBuffer
    → List (ℕ × List ℕ) × SymbolBuffer
drain_round b none rest = ([], b)
drain_round b (some v) (out, after) = ((b.next_delivery_id, v) ∷ out, after)

-- The loop of `drain_deliverable` on fuel: what it pushes to `out`, and the buffer it leaves. Each
-- round takes a symbol out of the map.
unfoldable pub drain : ℕ → SymbolBuffer → List (ℕ × List ℕ) × SymbolBuffer
drain zero b = ([], b)
drain (suc fuel) b = drain_round b (lookup b.symbols b.next_delivery_id) (
    drain fuel (record {
      symbols = remove b.symbols b.next_delivery_id;
      next_delivery_id = u32 (b.next_delivery_id + 1);
    }))

unfoldable pub drain_deliverable : SymbolBuffer → List (ℕ × List ℕ) × SymbolBuffer
drain_deliverable b = drain (length b.symbols) b

unfoldable pub prune_below : SymbolBuffer → ℕ → SymbolBuffer
prune_below b floor = record {
  symbols = retain (λ e. leb floor e.0) b.symbols;
  next_delivery_id = if ltb b.next_delivery_id floor then floor else b.next_delivery_id;
}

unfoldable pub ids_from : SymbolBuffer → ℕ → List ℕ
ids_from b start = map (λ e. e.0) (retain (λ e. leb start e.0) b.symbols)
