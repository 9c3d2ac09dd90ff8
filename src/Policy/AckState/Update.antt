-- ===== src/Policy/AckState/Update.antt =====
-- `update` on the whole state, whose receivers do not share entries, and what all updates since the
-- start have acknowledged.
use delp.Prelude.{
  ℕ, ◌≡◌, ◌∙◌, Bool, false, ◌||◌, ◌&&◌, List, [], ◌∷◌, inl, inr, ◌==◌, arith, Bool-cases,
}
use delp.Wire.Feedback.{FeedbackPacket, acked_ids}
use delp.Policy.AckState.{
  ReceiverEntry, ReceiverAckState, default_entry, update_entry, update_receivers, update,
  entry_acked, acked_in, is_acked,
}
use delp.Policy.AckState.Laws.{BelowMax, acks, update_entry-acked, BelowMax-update_entry}

unfoldable pub AllBelowMax : List (ℕ × ReceiverEntry) → Type 0
AllBelowMax [] = Unit
AllBelowMax ((k, e) ∷ rs) = BelowMax e.sack × AllBelowMax rs

-- The selectively acknowledged IDs are below the last 32-bit one.
pub record IsValid (st : ReceiverAckState) : Type 0 where
  pub below_max : AllBelowMax st.receivers

default-BelowMax : BelowMax default_entry.sack
unfolding BelowMax
default-BelowMax i h = absurd (ground arith)

module _ (pkt : FeedbackPacket) (small : BelowMax (acked_ids pkt)) where
  AllBelowMax-update :
      (rs : List (ℕ × ReceiverEntry)) (rid : ℕ)
      → AllBelowMax rs
      → AllBelowMax (update_receivers rs rid λ e. update_entry e pkt.first_src_id (acked_ids pkt))
  unfolding AllBelowMax update_receivers
  AllBelowMax-update [] rid v = (
    BelowMax-update_entry default_entry pkt.first_src_id (acked_ids pkt) default-BelowMax small,
    tt,
  )
  AllBelowMax-update ((k, e) ∷ rs) rid (first, rest) = elim (Bool-cases (k == rid)) [
    | inl t ↦ rw t (BelowMax-update_entry e pkt.first_src_id (acked_ids pkt) first small, rest)
    | inr f ↦ rw f (first, AllBelowMax-update rs rid rest)
  ]

  acked_in-update :
      (rs : List (ℕ × ReceiverEntry)) (rid r id : ℕ)
      → AllBelowMax rs
      → acked_in (update_receivers rs rid λ e. update_entry e pkt.first_src_id (acked_ids pkt)) r id
        ≡ (acked_in rs r id || ((rid == r) && acks pkt id))
  unfolding AllBelowMax update_receivers acked_in acks
  acked_in-update [] rid r id v =
      let e =
        update_entry-acked default_entry pkt.first_src_id id (acked_ids pkt) default-BelowMax
          small in
      rw e (unfold entry_acked in ground arith)
  acked_in-update ((k, e) ∷ rs) rid r id (first, rest) =
      let here = update_entry-acked e pkt.first_src_id id (acked_ids pkt) first small in
      let ih = acked_in-update rs rid r id rest in
      elim (Bool-cases (k == rid)) [ inl t ↦ rw t (ground arith) | inr f ↦ rw f (ground arith) ]

-- After an update of `rid` a receiver has acknowledged what it had before and, if it is `rid`, the
-- IDs below the packet's first one and those of the packet's bit vector. The receivers' entries and
-- the bit vector are to stay below the last 32-bit ID.
pub update-is_acked :
    (st : ReceiverAckState) (pkt : FeedbackPacket) (rid r id : ℕ)
    → IsValid st
    → BelowMax (acked_ids pkt)
    → is_acked (update st rid pkt) r id ≡ (is_acked st r id || ((rid == r) && acks pkt id))
unfolding update is_acked
update-is_acked st pkt rid r id v small =
    acked_in-update pkt small st.receivers rid r id v.below_max

-- The entries stay below the last 32-bit ID under updates whose bit vectors do.
pub update-IsValid :
    (st : ReceiverAckState) (pkt : FeedbackPacket) (rid : ℕ)
    → IsValid st
    → BelowMax (acked_ids pkt)
    → IsValid (update st rid pkt)
unfolding update
update-IsValid st pkt rid v small = record {
  below_max = AllBelowMax-update pkt small st.receivers rid v.below_max;
}

-- The state after the updates of a list, the first of them made first.
unfoldable pub updates : List (ℕ × FeedbackPacket) → ReceiverAckState → ReceiverAckState
updates [] st = st
updates ((rid, pkt) ∷ fs) st = updates fs (update st rid pkt)

-- Some packet of the receiver `r` acknowledges the ID.
unfoldable pub acked_by : List (ℕ × FeedbackPacket) → ℕ → ℕ → Bool
acked_by [] r id = false
acked_by ((rid, pkt) ∷ fs) r id = ((rid == r) && acks pkt id) || acked_by fs r id

-- The bit vectors stay below the last 32-bit ID.
unfoldable pub AllSmall : List (ℕ × FeedbackPacket) → Type 0
AllSmall [] = Unit
AllSmall ((rid, pkt) ∷ fs) = BelowMax (acked_ids pkt) × AllSmall fs

is_acked-updates_from :
    (fs : List (ℕ × FeedbackPacket)) (st : ReceiverAckState) (r id : ℕ)
    → IsValid st
    → AllSmall fs
    → is_acked (updates fs st) r id ≡ (is_acked st r id || acked_by fs r id)
unfolding updates acked_by AllSmall
is_acked-updates_from [] st r id v small = ground arith
is_acked-updates_from ((rid, pkt) ∷ fs) st r id v (one, small) =
    let here = update-is_acked st pkt rid r id v one in
    let ih =
      is_acked-updates_from fs (update st rid pkt) r id (update-IsValid st pkt rid v one) small in
    ih ∙ rw here (ground arith)

-- A state that starts empty and is updated from any sequence of feedback packets, whose bit vectors
-- stay below the last 32-bit ID, answers that a receiver has acknowledged an ID exactly when one of
-- the packets from that receiver does: the ID is below the packet's first source ID or in its bit
-- vector.
pub is_acked-updates :
    (fs : List (ℕ × FeedbackPacket)) (r id : ℕ)
    → AllSmall fs
    → is_acked (updates fs (record { receivers = [] })) r id ≡ acked_by fs r id
unfolding is_acked acked_in AllBelowMax
is_acked-updates fs r id small =
    is_acked-updates_from fs (record { receivers = [] }) r id (record { below_max = tt }) small
