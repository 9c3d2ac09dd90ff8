-- ===== src/Codec/Encoder/Feedback.antt =====
-- A feedback packet handled under `AnyAckPolicy`: the acknowledged symbols leave the window.
use delp.Prelude.{
  ℕ, ◌≡◌, refl, ◌∙◌, Bool, false, none, List, [], ◌∷◌, map, contains, contains-retain, retain,
  if◌then◌else◌, arith,
}
use delp.Gf.Simd.{Kernels}
use delp.Wire.Feedback.{FeedbackPacket}
use delp.Policy.AckState.{ReceiverAckState, is_acked, receiver_ids, update}
use delp.Policy.Defaults.{any_of, any_ack_removes}
use delp.Codec.Window
use delp.Codec.Window.{WindowSymbol, EncodingWindow, find_data}
use delp.Codec.Window.Laws.{IsValid, get-find}
use delp.Codec.Window.History.{get-remove_ids}
use delp.Codec.Encoder.Policies.{WindowPolicy, CongestionControl, FecRateController}
use delp.Codec.Encoder.State.{Encoder, handle_feedback}

-- `AnyAckPolicy`, which has no state.
abbrev pub any_ack_policy : WindowPolicy (Unit {0})
any_ack_policy = record {
  symbols_to_remove = λ w st window_ids. (any_ack_removes st window_ids, w);
}

-- Some receiver has acknowledged the ID.
abbrev pub acked_by_any : ReceiverAckState → ℕ → Bool
acked_by_any st id = any_of (λ rid. is_acked st rid id) (receiver_ids st)

find_data-missing :
    (ss : List WindowSymbol) (id : ℕ)
    → contains (map WindowSymbol.id ss) id ≡ false
    → find_data ss id ≡ none
unfolding find_data
find_data-missing [] id h = refl
find_data-missing (s ∷ ss) id h = let ih = find_data-missing ss id in ground arith

-- Removing those of the window's IDs that pass a test.
get-remove_tested :
    (p : ℕ → Bool) (w : EncodingWindow) (id : ℕ)
    → IsValid w
    → Window.get (Window.remove_ids w (retain p (Window.id_slice w))) id
      ≡ (if p id then none else Window.get w id)
unfolding Window.id_slice
get-remove_tested p w id v =
    let removed = contains-retain p (map WindowSymbol.id w.symbols) id in
    let found = get-find w id v in
    let missing = find_data-missing w.symbols id in
    get-remove_ids w (retain p (map WindowSymbol.id w.symbols)) id v ∙ rw removed (ground arith)

module _ {C F : Type 0} (k : Kernels) (ccp : CongestionControl C) (fp : FecRateController F) where
  -- Under `AnyAckPolicy`, when the window is valid, `handle_feedback` leaves in the window exactly the
  -- symbols that no receiver has acknowledged once the packet is counted: an acknowledged ID looks up
  -- nothing, and every other ID what it did before.
  pub handle_feedback-any_ack :
      (e : Encoder (Unit {0}) C F) (receiver_id : ℕ) (pkt : FeedbackPacket) (id : ℕ)
      → IsValid e.window
      → let after = handle_feedback k any_ack_policy ccp fp e receiver_id pkt in
        Window.get after.window id ≡ (
          if acked_by_any (update e.ack_state receiver_id pkt) id
          then none
          else Window.get e.window id)
  unfolding handle_feedback any_ack_removes
  handle_feedback-any_ack e receiver_id pkt id v =
      get-remove_tested (acked_by_any (update e.ack_state receiver_id pkt)) e.window id v
