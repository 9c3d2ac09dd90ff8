-- ===== src/Tests/Policy.antt =====
-- The policies at concrete states.
use delp.Prelude.{
  ℕ, List, ◌*◌, ◌/◌, ◌≡◌, refl, ◌==◌, ◌||◌, ◌&&◌, contains, false, arith, [], ◌∷◌, none,
}
use delp.Wire.Feedback.{FeedbackPacket, acked_ids, sack_ids, byte_ids}
use delp.Policy.AckState.{
  ReceiverEntry, ReceiverAckState, is_acked, update, update_entry, num_receivers,
}
use delp.Policy.AckState.Laws.{BelowMax, acks, update_entry-settled}
use delp.Policy.AckState.Update.{
  AllBelowMax, IsValid, update-is_acked, updates, acked_by, AllSmall, is_acked-updates,
}
use delp.Policy.Defaults.{new_rate, all_ack_removes, quorum_ack_removes}
use delp.Policy.Defaults.Laws.{emitted, emitted-new_rate, quorum_ack_removes-all}

abbrev entry : ReceiverEntry
entry = record { cumulative_ack = 4; sack = 6 ∷ [] }

abbrev acked : ReceiverAckState
acked = record { receivers = (1, entry) ∷ [] }

abbrev packet : FeedbackPacket
packet = record {
  tsi = none;
  nb_missing_src = 0;
  nb_not_used_coded = 0;
  first_src_id = 5;
  plr_raw = 0;
  sack = 0xC0 ∷ [];
}

acked-IsValid : IsValid acked
unfolding AllBelowMax BelowMax
acked-IsValid = record { below_max = ((λ i h. ground arith), tt) }

packet-BelowMax : BelowMax (acked_ids packet)
unfolding BelowMax acked_ids sack_ids byte_ids
packet-BelowMax i h = ground arith

update-is_acked_example :
    is_acked (update acked 1 packet) 1 6 ≡ (is_acked acked 1 6 || ((1 == 1) && acks packet 6))
update-is_acked_example = update-is_acked acked packet 1 1 6 acked-IsValid packet-BelowMax

-- Receiver 1 acknowledges 5, 6 and what is below, then receiver 2 sends the same packet.
abbrev feedbacks : List (ℕ × FeedbackPacket)
feedbacks = (1, packet) ∷ (2, packet) ∷ []

is_acked-updates_example :
    is_acked (updates feedbacks (record { receivers = [] })) 2 6 ≡ acked_by feedbacks 2 6
unfolding AllSmall
is_acked-updates_example = is_acked-updates feedbacks 2 6 (packet-BelowMax, (packet-BelowMax, tt))

update_entry-settled_example :
    contains
      (update_entry entry 5 (5 ∷ 7 ∷ [])).sack
      (update_entry entry 5 (5 ∷ 7 ∷ [])).cumulative_ack
    ≡ false
update_entry-settled_example = update_entry-settled entry 5 (5 ∷ 7 ∷ [])

emitted-new_rate_example : emitted (record { numer = 3; denom = 4; acc = 0 }) 10 ≡ 10 * 3 / 4
unfolding new_rate
emitted-new_rate_example =
    emitted-new_rate 3 4 10 (record { numer = 3; denom = 4; acc = 0 }) (omega arith) refl

quorum_ack_removes-all_example :
    quorum_ack_removes (num_receivers acked) acked (3 ∷ 5 ∷ 6 ∷ [])
    ≡ all_ack_removes acked (3 ∷ 5 ∷ 6 ∷ [])
unfolding num_receivers
quorum_ack_removes-all_example = quorum_ack_removes-all acked (3 ∷ 5 ∷ 6 ∷ []) (omega arith)
