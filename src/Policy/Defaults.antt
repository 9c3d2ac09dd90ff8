-- ===== src/Policy/Defaults.antt =====
-- src/policy/defaults.rs: the default policies. The adaptive rate is a float and is not modelled.
pub mod Laws
use delp.Prelude.{
  ℕ, zero, suc, ◌+◌, ◌/◌, ◌%◌, Bool, true, false, ◌&&◌, ◌||◌, List, [], ◌∷◌, ltb, leb, ◌==◌,
  if◌then◌else◌, length, retain, u32, usize,
}
use delp.Error.{Result, ok, panic}
use delp.Policy.AckState.{ReceiverAckState, is_acked, receiver_ids, num_receivers}

-- `any` and `all` on the receiver IDs.
unfoldable pub any_of : (ℕ → Bool) → List ℕ → Bool
any_of p [] = false
any_of p (x ∷ xs) = p x || any_of p xs

unfoldable pub all_of : (ℕ → Bool) → List ℕ → Bool
all_of p [] = true
all_of p (x ∷ xs) = p x && all_of p xs

-- `symbols_to_remove` of `AnyAckPolicy`, `AllAckPolicy` and `QuorumAckPolicy`.
unfoldable pub any_ack_removes : ReceiverAckState → List ℕ → List ℕ
any_ack_removes st window_ids =
    retain (λ id. any_of (λ rid. is_acked st rid id) (receiver_ids st)) window_ids

unfoldable pub all_ack_removes : ReceiverAckState → List ℕ → List ℕ
all_ack_removes st window_ids =
    if num_receivers st == 0
    then []
    else retain (λ id. all_of (λ rid. is_acked st rid id) (receiver_ids st)) window_ids

unfoldable pub quorum_ack_removes : ℕ → ReceiverAckState → List ℕ → List ℕ
quorum_ack_removes quorum st window_ids =
    retain (λ id. leb quorum (length (retain (λ rid. is_acked st rid id) (receiver_ids st))))
      window_ids

pub record ConstantFecRate : Type 0 where
  pub numer : ℕ
  pub denom : ℕ
  pub acc : ℕ

unfoldable pub new_rate : ℕ → ℕ → Result ConstantFecRate
new_rate numer denom =
    if ltb 0 denom then ok (record { numer = numer; denom = denom; acc = 0 }) else panic

unfoldable pub coded_packets_to_generate : ConstantFecRate → ℕ × ConstantFecRate
coded_packets_to_generate r =
    let acc = usize (r.acc + r.numer) in
    (acc / r.denom, record { numer = r.numer; denom = r.denom; acc = acc % r.denom })

pub record ConstantFeedbackPolicy : Type 0 where
  pub period : ℕ
  pub counter : ℕ

unfoldable pub new_feedback : ℕ → Result ConstantFeedbackPolicy
new_feedback period = if ltb 0 period then ok (record { period = period; counter = 0 }) else panic

unfoldable pub should_send_feedback : ConstantFeedbackPolicy → Bool × ConstantFeedbackPolicy
should_send_feedback p =
    let counter = u32 (p.counter + 1) in
    if leb p.period counter
    then (true, (record { period = p.period; counter = 0 }))
    else (false, (record { period = p.period; counter = counter }))
