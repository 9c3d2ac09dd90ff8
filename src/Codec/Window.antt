-- ===== src/Codec/Window.antt =====
-- src/codec/encoder/window.rs: the encoder's elastic sliding window. The `VecDeque` is a list whose
-- head is the front; the set of IDs to remove is the list the caller gives.
pub mod Laws
pub mod History
use delp.Prelude.{
  ℕ, zero, suc, ◌+◌, ◌-◌, Bool, true, false, not, ◌&&◌, Option, none, some, List, [], ◌∷◌, ◌++◌,
  map, ltb, leb, ◌==◌, if◌then◌else◌, length, get_elem?, retain, contains, u32,
}
use mathlib.Core.Option
use delp.Error.{Result, ok, panic}

pub record WindowSymbol : Type 0 where
  pub id : ℕ
  pub payload : List ℕ

pub record EncodingWindow : Type 0 where
  pub symbols : List WindowSymbol
  pub capacity : ℕ
  pub next_id : ℕ
  pub is_contiguous : Bool

unfoldable pub new : ℕ → EncodingWindow
new capacity = record { symbols = []; capacity = capacity; next_id = 0; is_contiguous = true }

unfoldable pub is_full : EncodingWindow → Bool
is_full w = leb w.capacity (length w.symbols)

unfoldable pub first_id : EncodingWindow → Option ℕ
first_id w = Option.map WindowSymbol.id (get_elem? w.symbols 0)

-- `symbols.back().map(|s| s.id)`.
unfoldable pub last_of : List WindowSymbol → Option ℕ
last_of [] = none
last_of (s ∷ []) = some s.id
last_of (s ∷ t ∷ ss) = last_of (t ∷ ss)

unfoldable pub last_id : EncodingWindow → Option ℕ
last_id w = last_of w.symbols

unfoldable pub id_slice : EncodingWindow → List ℕ
id_slice w = map WindowSymbol.id w.symbols

-- The new value of `is_contiguous` when `id` is pushed behind the symbol `last`.
unfoldable pub still_contiguous : Bool → Option ℕ → ℕ → Bool
still_contiguous flag none id = flag
still_contiguous flag (some last) id = if id == u32 (last + 1) then flag else false

-- The ID and the window after it.
unfoldable pub push : EncodingWindow → List ℕ → ℕ × EncodingWindow
push w payload =
    let id = w.next_id in
    (
      id,
      record {
        symbols = w.symbols ++ (record { id = id; payload = payload }) ∷ [];
        capacity = w.capacity;
        next_id = u32 (id + 1);
        is_contiguous = still_contiguous w.is_contiguous (last_id w) id;
      },
    )

-- `pop_front`.
unfoldable pub pop_front : List WindowSymbol → List WindowSymbol
pop_front [] = []
pop_front (s ∷ ss) = ss

unfoldable pub evict_oldest : EncodingWindow → EncodingWindow
evict_oldest w = record {
  symbols = pop_front w.symbols;
  capacity = w.capacity;
  next_id = w.next_id;
  is_contiguous = w.is_contiguous;
}

-- The pairs of neighbours behind a symbol whose ID is `previous`.
unfoldable pub check_from : ℕ → List WindowSymbol → Bool
check_from previous [] = true
check_from previous (s ∷ ss) = (s.id == u32 (previous + 1)) && check_from s.id ss

unfoldable pub check_contiguous : List WindowSymbol → Bool
check_contiguous [] = true
check_contiguous (s ∷ ss) = check_from s.id ss

unfoldable pub remove_ids : EncodingWindow → List ℕ → EncodingWindow
remove_ids w [] = w
remove_ids w (i ∷ ids) =
    let kept = retain (λ s. not (contains (i ∷ ids) s.id)) w.symbols in
    record {
      symbols = kept;
      capacity = w.capacity;
      next_id = w.next_id;
      is_contiguous =
          if ltb 0 (length w.symbols - length kept) then check_contiguous kept else w.is_contiguous;
    }

-- `symbols.iter().find(|s| s.id == id).map(|s| &s.data)`.
unfoldable pub find_data : List WindowSymbol → ℕ → Option (List ℕ)
find_data [] id = none
find_data (s ∷ ss) id = let rest = find_data ss id in if s.id == id then some s.payload else rest

unfoldable pub get_in : Bool → List WindowSymbol → ℕ → Option (List ℕ)
get_in contiguous [] id = none
get_in true (s ∷ ss) id =
    if ltb id s.id then none else Option.map WindowSymbol.payload (get_elem? (s ∷ ss) (id - s.id))
get_in false (s ∷ ss) id = find_data (s ∷ ss) id

unfoldable pub get : EncodingWindow → ℕ → Option (List ℕ)
get w id = get_in w.is_contiguous w.symbols id
