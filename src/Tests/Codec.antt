-- ===== src/Tests/Codec.antt =====
-- The window and the delivery buffer at concrete states.
use delp.Prelude.{◌≡◌, ◌==◌, ◌&&◌, leb, if◌then◌else◌, contains, arith, [], ◌∷◌, none, some}
use delp.Codec.Window.{EncodingWindow, new, push, remove_ids, get, find_data}
use delp.Codec.Window.Laws.{IsValid, get-find}
use delp.Codec.Window.History.{Step, Reachable, Reachable-IsValid, get-push, get-remove_ids}
use delp.Codec.Buffer.{SymbolBuffer, drain_deliverable}
use delp.Codec.Buffer
use delp.Codec.Buffer.Laws
use delp.Codec.Buffer.Laws.{kept, get-insert, get-prune_below}
use delp.Codec.Buffer.Drain.{BelowMax, Drained, drain_deliverable-Drained, operations-IsValid}

-- Two symbols, the IDs 0 and 1.
abbrev one_symbol : EncodingWindow
one_symbol = (push (new 3) (10 ∷ [])).1

abbrev two_symbols : EncodingWindow
two_symbols = (push one_symbol (11 ∷ [])).1

two_symbols-Reachable : Reachable 3 two_symbols
unfolding new push
two_symbols-Reachable =
    Reachable.next
      (Reachable.next Reachable.start (Step.pushed (10 ∷ []) (omega arith) (omega arith)))
      (Step.pushed (11 ∷ []) (omega arith) (omega arith))

Reachable-IsValid_example : IsValid (remove_ids two_symbols (0 ∷ []))
Reachable-IsValid_example =
    Reachable-IsValid 3 (remove_ids two_symbols (0 ∷ []))
      (Reachable.next two_symbols-Reachable (Step.removed (0 ∷ [])))

two_symbols-IsValid : IsValid two_symbols
two_symbols-IsValid = Reachable-IsValid 3 two_symbols two_symbols-Reachable

get-find_example : get two_symbols 1 ≡ find_data two_symbols.symbols 1
get-find_example = get-find two_symbols 1 two_symbols-IsValid

get-push_example :
    get (push two_symbols (12 ∷ [])).1 1
    ≡ (if 1 == two_symbols.next_id then some (12 ∷ []) else get two_symbols 1)
unfolding new push
get-push_example = get-push two_symbols (12 ∷ []) 1 two_symbols-IsValid (omega arith) (omega arith)

get-remove_ids_example :
    get (remove_ids two_symbols (0 ∷ [])) 1
    ≡ (if contains (0 ∷ []) 1 then none else get two_symbols 1)
get-remove_ids_example = get-remove_ids two_symbols (0 ∷ []) 1 two_symbols-IsValid

-- Waiting for 5, with 5, 6 and 8 buffered.
abbrev buffer : SymbolBuffer
buffer = record { symbols = (5, 50 ∷ []) ∷ (6, 60 ∷ []) ∷ (8, 80 ∷ []) ∷ []; next_delivery_id = 5 }

buffer-IsValid : Laws.IsValid buffer
unfolding Laws.Ascends
buffer-IsValid = record { ascends = (omega arith, (omega arith, (omega arith, tt))) }

buffer-BelowMax : BelowMax buffer
unfolding BelowMax Buffer.get Buffer.lookup
buffer-BelowMax i v e = ground arith

drain_deliverable-Drained_example :
    Drained buffer (drain_deliverable buffer).0 (drain_deliverable buffer).1
drain_deliverable-Drained_example = drain_deliverable-Drained buffer buffer-BelowMax

get-insert_example : Buffer.get (Buffer.insert buffer 7 (70 ∷ [])) 7 ≡ (
    if (7 == 7) && leb buffer.next_delivery_id 7
    then some (kept (Buffer.get buffer 7) (70 ∷ []))
    else Buffer.get buffer 7)
get-insert_example = get-insert buffer 7 7 (70 ∷ []) buffer-IsValid

operations-IsValid_example :
    Laws.IsValid (Buffer.insert buffer 7 (70 ∷ []))
    × Laws.IsValid (Buffer.prune_below buffer 6)
    × Laws.IsValid (drain_deliverable buffer).1
operations-IsValid_example = operations-IsValid buffer 7 6 (70 ∷ []) buffer-BelowMax buffer-IsValid
