-- ===== src/Codec/Window/History.antt =====
-- What the lookups of a window return after its operations, and the windows that are reachable.
use mathlib.Core.Path.{subst}
use delp.Prelude.{
  ℕ, ◌+◌, ◌^◌, ◌<◌, ◌≡◌, refl, ◌∙◌, true, false, not, none, some, List, [], ◌∷◌, ◌++◌, inl, inr,
  length, retain, contains, arith, Bool-cases, ==_iff, if◌then◌else◌, ◌==◌,
}
use delp.Codec.Window.{
  WindowSymbol, EncodingWindow, new, push, evict_oldest, remove_ids, find_data, get,
}
use delp.Codec.Window.Laws.{
  IsValid, Within, get-find, new-IsValid, push-IsValid, evict_oldest-IsValid, remove_ids-IsValid,
}

find-snoc :
    (s : WindowSymbol) (a id : ℕ) (ss : List WindowSymbol)
    → Within a s.id ss
    → find_data (ss ++ s ∷ []) id ≡ (if id == s.id then some s.payload else find_data ss id)
unfolding find_data Within
find-snoc s a id [] v = ground arith
find-snoc s a id (t ∷ ss) (l, m, r) = let ih = find-snoc s (t.id + 1) id ss r in ground arith

-- After a push into a valid window with room and IDs left, the new ID looks up its payload and every
-- other ID what it did before.
pub get-push :
    (w : EncodingWindow) (payload : List ℕ) (id : ℕ)
    → IsValid w
    → length w.symbols < w.capacity
    → w.next_id + 1 < 2 ^ 32
    → get (push w payload).1 id ≡ (if id == w.next_id then some payload else get w id)
unfolding push
get-push w payload id v room h =
    get-find (push w payload).1 id (push-IsValid w payload v room h)
    ∙ rw (get-find w id v)
        (find-snoc (record { id = w.next_id; payload = payload }) 0 id w.symbols v.within)

find-retain :
    (ids : List ℕ) (id : ℕ) (ss : List WindowSymbol)
    → find_data (retain (λ s. not (contains ids s.id)) ss) id
      ≡ (if contains ids id then none else find_data ss id)
unfolding find_data
find-retain ids id [] = ground arith
find-retain ids id (s ∷ ss) =
    let ih = find-retain ids id ss in
    elim (Bool-cases (contains ids s.id)) [
      | inl t ↦ elim (Bool-cases (s.id == id)) [
        | inl e ↦
            let gone = subst (λ i. contains ids i ≡ true) ((==_iff s.id id).0 e) t in
            rw t (ih ∙ rw gone refl)
        | inr e ↦ rw t (ground arith)
      ]
      | inr f ↦ elim (Bool-cases (s.id == id)) [
        | inl e ↦
            let kept = subst (λ i. contains ids i ≡ false) ((==_iff s.id id).0 e) f in
            rw f (rw kept (ground arith))
        | inr e ↦ rw f (ground arith)
      ]
    ]

-- After a removal from a valid window the listed IDs are gone and every other ID looks up what it did
-- before.
pub get-remove_ids :
    (w : EncodingWindow) (ids : List ℕ) (id : ℕ)
    → IsValid w
    → get (remove_ids w ids) id ≡ (if contains ids id then none else get w id)
unfolding remove_ids
get-remove_ids w [] id v = refl
get-remove_ids w (i ∷ ids) id v =
    get-find (remove_ids w (i ∷ ids)) id (remove_ids-IsValid w (i ∷ ids) v)
    ∙ rw (get-find w id v) (find-retain (i ∷ ids) id w.symbols)

-- One call that changes the window, made as the encoder makes it: a push needs room, and the IDs
-- have not run out.
pub data Step : EncodingWindow → EncodingWindow → Type 0 where
  pushed :
      {w : EncodingWindow} (payload : List ℕ)
      → length w.symbols < w.capacity
      → w.next_id + 1 < 2 ^ 32
      → Step w (push w payload).1
  evicted : {w : EncodingWindow} → Step w (evict_oldest w)
  removed : {w : EncodingWindow} (ids : List ℕ) → Step w (remove_ids w ids)

pub data Reachable (capacity : ℕ) : EncodingWindow → Type 0 where
  start : Reachable capacity (new capacity)
  next : {w u : EncodingWindow} → Reachable capacity w → Step w u → Reachable capacity u

Step-IsValid : {w u : EncodingWindow} → Step w u → IsValid w → IsValid u
Step-IsValid {w = w} (Step.pushed payload room h) v = push-IsValid w payload v room h
Step-IsValid {w = w} Step.evicted v = evict_oldest-IsValid w v
Step-IsValid {w = w} (Step.removed ids) v = remove_ids-IsValid w ids v

-- Every window that pushes with room and IDs left, evictions and removals reach from an empty one
-- is valid: at most `capacity` symbols, IDs ascending below `next_id`, and consecutive IDs whenever
-- the window calls itself contiguous.
pub Reachable-IsValid : (capacity : ℕ) (w : EncodingWindow) → Reachable capacity w → IsValid w
Reachable-IsValid capacity w Reachable.start = new-IsValid capacity
Reachable-IsValid capacity w (Reachable.next r s) = Step-IsValid s (Reachable-IsValid capacity _ r)
