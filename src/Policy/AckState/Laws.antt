-- ===== src/Policy/AckState/Laws.antt =====
-- What `ReceiverAckState::is_acked` answers after an update.
use mathlib.Core.Path.{subst, subst⁻¹}
use delp.Prelude.{
  ℕ, zero, suc, ◌+◌, ◌^◌, ◌≤◌, ◌<◌, ◌≡◌, refl, ◌∙◌, Bool, true, false, not, ◌||◌, ◌&&◌, List, [],
  ◌∷◌, inl, inr, ltb, ◌==◌, if◌then◌else◌, length, retain, contains, contains-retain, length-retain,
  arith, Bool-cases, ==_iff, u32,
}
use delp.Wire.Feedback.{FeedbackPacket, acked_ids}
use delp.Policy.AckState.{ReceiverEntry, raise, insert_all, advance, update_entry, entry_acked}

raise-acked :
    (e : ReceiverEntry) (first id : ℕ)
    → entry_acked (raise e first) id ≡ (ltb id first || entry_acked e id)
unfolding raise entry_acked
raise-acked e first id =
    let kept = contains-retain (λ id. not (ltb id first)) e.sack id in ground (arith, kept)

insert-one :
    (sack : List ℕ) (i id : ℕ)
    → contains (if contains sack i then sack else i ∷ sack) id ≡ ((i == id) || contains sack id)
insert-one sack i id = elim (Bool-cases (contains sack i)) [
  | inr f ↦ rw f (ground arith)
  | inl t ↦ elim (Bool-cases (i == id)) [
    | inr d ↦ rw t (ground arith)
    | inl e ↦
        let found = subst (λ j. contains sack j ≡ true) ((==_iff i id).0 e) t in
        rw t (rw found (ground arith))
  ]
]

contains-insert_all :
    (ids sack : List ℕ) (id : ℕ)
    → contains (insert_all sack ids) id ≡ (contains ids id || contains sack id)
unfolding insert_all
contains-insert_all [] sack id = refl
contains-insert_all (i ∷ ids) sack id =
    let one = insert-one sack i id in
    contains-insert_all ids (if contains sack i then sack else i ∷ sack) id ∙ rw one (ground arith)

-- No entry is the last 32-bit ID, on which the cumulative ACK would wrap.
unfoldable pub BelowMax : List ℕ → Type 0
BelowMax sack = (i : ℕ) → contains sack i ≡ true → i + 1 < 2 ^ 32

BelowMax-retain : (p : ℕ → Bool) (sack : List ℕ) → BelowMax sack → BelowMax (retain p sack)
unfolding BelowMax
BelowMax-retain p sack small i h = let kept = contains-retain p sack i in small i (ground arith)

advance-step :
    (cumulative id : ℕ) (b : Bool)
    → (id ≡ cumulative → b ≡ true)
    → cumulative + 1 < 2 ^ 32
    → (ltb id (u32 (cumulative + 1)) || (not (id == cumulative) && b)) ≡ (ltb id cumulative || b)
advance-step cumulative id b h small =
    let same : u32 (cumulative + 1) ≡ cumulative + 1 = omega arith in
    rw same (elim (Bool-cases (id == cumulative)) [
      | inl e ↦ let t = h ((==_iff id cumulative).0 e) in ground arith
      | inr d ↦ ground arith
    ])

-- A round of the loop acknowledges no other ID.
advance-acked :
    (fuel id : ℕ) (e : ReceiverEntry)
    → BelowMax e.sack
    → entry_acked (advance fuel e) id ≡ entry_acked e id
unfolding advance BelowMax
advance-acked zero id e small = refl
advance-acked (suc fuel) id e small = elim (Bool-cases (contains e.sack e.cumulative_ack)) [
  | inr f ↦ rw f refl
  | inl t ↦
      let others : ℕ → Bool = λ i. not (i == e.cumulative_ack) in
      let after : ReceiverEntry = record {
        cumulative_ack = u32 (e.cumulative_ack + 1);
        sack = retain others e.sack;
      } in
      let found : id ≡ e.cumulative_ack → contains e.sack id ≡ true =
        λ k. subst⁻¹ (λ j. contains e.sack j ≡ true) k t in
      let wrap : e.cumulative_ack + 1 < 2 ^ 32 = small e.cumulative_ack t in
      rw (t, advance-acked fuel id after (BelowMax-retain others e.sack small))
        (unfold entry_acked in
          rw (contains-retain others e.sack id)
            (advance-step e.cumulative_ack id (contains e.sack id) found wrap))
]

BelowMax-insert_all :
    (ids sack : List ℕ) → BelowMax ids → BelowMax sack → BelowMax (insert_all sack ids)
unfolding BelowMax
BelowMax-insert_all ids sack h k i found =
    let e = contains-insert_all ids sack i in
    elim (Bool-cases (contains ids i)) [ inl t ↦ h i t | inr f ↦ k i (ground arith) ]

BelowMax-raise : (e : ReceiverEntry) (first : ℕ) → BelowMax e.sack → BelowMax (raise e first).sack
unfolding raise
BelowMax-raise e first small = elim (Bool-cases (ltb e.cumulative_ack first)) [
  | inl t ↦ rw t (BelowMax-retain (λ id. not (ltb id first)) e.sack small)
  | inr f ↦ rw f small
]

BelowMax-advance : (fuel : ℕ) (e : ReceiverEntry) → BelowMax e.sack → BelowMax (advance fuel e).sack
unfolding advance
BelowMax-advance zero e small = small
BelowMax-advance (suc fuel) e small =
    let others : ℕ → Bool = λ i. not (i == e.cumulative_ack) in
    let after : ReceiverEntry = record {
      cumulative_ack = u32 (e.cumulative_ack + 1);
      sack = retain others e.sack;
    } in
    elim (Bool-cases (contains e.sack e.cumulative_ack)) [
      | inl t ↦ rw t (BelowMax-advance fuel after (BelowMax-retain others e.sack small))
      | inr f ↦ rw f small
    ]

-- What an update adds: IDs below the packet's first one, and its acknowledged ones.
unfoldable pub acks : FeedbackPacket → ℕ → Bool
acks pkt id = ltb id pkt.first_src_id || contains (acked_ids pkt) id

pub update_entry-acked :
    (e : ReceiverEntry) (first id : ℕ) (ids : List ℕ)
    → BelowMax e.sack
    → BelowMax ids
    → entry_acked (update_entry e first ids) id
      ≡ (entry_acked e id || (ltb id first || contains ids id))
unfolding update_entry entry_acked
update_entry-acked e first id ids small h =
    let raised = raise e first in
    let sack = insert_all raised.sack ids in
    let before = raise-acked e first id in
    let inserted = contains-insert_all ids raised.sack id in
    advance-acked (length sack) id (record { cumulative_ack = raised.cumulative_ack; sack = sack })
      (BelowMax-insert_all ids raised.sack h (BelowMax-raise e first small))
    ∙ ground arith

pub BelowMax-update_entry :
    (e : ReceiverEntry) (first : ℕ) (ids : List ℕ)
    → BelowMax e.sack
    → BelowMax ids
    → BelowMax (update_entry e first ids).sack
unfolding update_entry
BelowMax-update_entry e first ids small h =
    let raised = raise e first in
    let sack = insert_all raised.sack ids in
    BelowMax-advance (length sack) (record { cumulative_ack = raised.cumulative_ack; sack = sack })
      (BelowMax-insert_all ids raised.sack h (BelowMax-raise e first small))

remove-shorter :
    (sack : List ℕ) (i : ℕ)
    → contains sack i ≡ true
    → length (retain (λ j. not (j == i)) sack) < length sack
remove-shorter [] i h = absurd (ground arith)
remove-shorter (x ∷ xs) i h = elim (Bool-cases (x == i)) [
  | inl e ↦ let le = length-retain (λ j. not (j == i)) xs in rw e (ground arith)
  | inr d ↦ let ih = remove-shorter xs i (ground arith) in rw d (ground arith)
]

empty-contains : (sack : List ℕ) (i : ℕ) → length sack ≤ 0 → contains sack i ≡ false
empty-contains [] i h = refl
empty-contains (x ∷ xs) i h = absurd (omega arith)

advance-settled :
    (fuel : ℕ) (e : ReceiverEntry)
    → length e.sack ≤ fuel
    → contains (advance fuel e).sack (advance fuel e).cumulative_ack ≡ false
unfolding advance
advance-settled zero e h = empty-contains e.sack e.cumulative_ack h
advance-settled (suc fuel) e h = elim (Bool-cases (contains e.sack e.cumulative_ack)) [
  | inr f ↦ rw f f
  | inl t ↦
      let less = remove-shorter e.sack e.cumulative_ack t in
      rw t (
        advance-settled fuel
          (record {
            cumulative_ack = u32 (e.cumulative_ack + 1);
            sack = retain (λ j. not (j == e.cumulative_ack)) e.sack;
          })
          (omega arith))
]

-- The loop of an update ends: with the size of the set as fuel, the ID at the cumulative ACK that it
-- returns is not in the set that it returns.
pub update_entry-settled :
    (e : ReceiverEntry) (first : ℕ) (ids : List ℕ)
    → contains (update_entry e first ids).sack (update_entry e first ids).cumulative_ack ≡ false
unfolding update_entry
update_entry-settled e first ids = advance-settled _ _ (omega arith)
