-- ===== src/Policy/AckState.antt =====
-- src/policy/mod.rs: `ReceiverAckState`. The hash map is an association list with one entry for a
-- receiver, in the order in which the receivers came; the set of selectively acknowledged IDs is a
-- list, of which the source observes the membership only.
pub mod Laws
pub mod Update
use delp.Prelude.{
  ℕ, zero, suc, ◌+◌, Bool, true, false, not, ◌||◌, Option, none, some, List, [], ◌∷◌, map, ltb,
  ◌==◌, if◌then◌else◌, length, retain, contains, u32,
}
use delp.Wire.Feedback.{FeedbackPacket, acked_ids}

pub record ReceiverEntry : Type 0 where
  pub cumulative_ack : ℕ
  pub sack : List ℕ

pub record ReceiverAckState : Type 0 where
  pub receivers : List (ℕ × ReceiverEntry)

-- `ReceiverEntry::default()`, which `or_default` takes for an unknown receiver.
abbrev pub default_entry : ReceiverEntry
default_entry = record { cumulative_ack = 0; sack = [] }

-- `if pkt.first_src_id > entry.cumulative_ack`.
unfoldable pub raise : ReceiverEntry → ℕ → ReceiverEntry
raise e first_src_id =
    if ltb e.cumulative_ack first_src_id
    then (record {
      cumulative_ack = first_src_id;
      sack = retain (λ id. not (ltb id first_src_id)) e.sack;
    })
    else e

-- The loop over `pkt.acked_ids()`, each inserted into the set.
unfoldable pub insert_all : List ℕ → List ℕ → List ℕ
insert_all sack [] = sack
insert_all sack (id ∷ ids) = insert_all (if contains sack id then sack else id ∷ sack) ids

-- The loop that moves the cumulative ACK through the contiguous entries, on fuel.
unfoldable pub advance : ℕ → ReceiverEntry → ReceiverEntry
advance zero e = e
advance (suc fuel) e =
    let rest = advance fuel (record {
      cumulative_ack = u32 (e.cumulative_ack + 1);
      sack = retain (λ id. not (id == e.cumulative_ack)) e.sack;
    }) in
    if contains e.sack e.cumulative_ack then rest else e

-- Each round of the loop takes an entry out of the set, so its size is enough fuel.
unfoldable pub update_entry : ReceiverEntry → ℕ → List ℕ → ReceiverEntry
update_entry e first_src_id acked =
    let raised = raise e first_src_id in
    let sack = insert_all raised.sack acked in
    advance (length sack) (record { cumulative_ack = raised.cumulative_ack; sack = sack })

-- `receivers.entry(receiver_id).or_default()`, and the update of that entry in place.
unfoldable pub update_receivers :
    List (ℕ × ReceiverEntry) → ℕ → (ReceiverEntry → ReceiverEntry) → List (ℕ × ReceiverEntry)
update_receivers [] rid f = (rid, f default_entry) ∷ []
update_receivers ((k, e) ∷ rs) rid f =
    let rest = update_receivers rs rid f in if k == rid then (k, f e) ∷ rs else (k, e) ∷ rest

unfoldable pub update : ReceiverAckState → ℕ → FeedbackPacket → ReceiverAckState
update st rid pkt = record {
  receivers =
      update_receivers st.receivers rid λ e. update_entry e pkt.first_src_id (acked_ids pkt);
}

unfoldable pub entry_acked : ReceiverEntry → ℕ → Bool
entry_acked e id = ltb id e.cumulative_ack || contains e.sack id

unfoldable pub acked_in : List (ℕ × ReceiverEntry) → ℕ → ℕ → Bool
acked_in [] rid id = false
acked_in ((k, e) ∷ rs) rid id =
    let rest = acked_in rs rid id in if k == rid then entry_acked e id else rest

unfoldable pub is_acked : ReceiverAckState → ℕ → ℕ → Bool
is_acked st rid id = acked_in st.receivers rid id

unfoldable pub receiver_ids : ReceiverAckState → List ℕ
receiver_ids st = map (λ r. r.0) st.receivers

unfoldable pub num_receivers : ReceiverAckState → ℕ
num_receivers st = length st.receivers
