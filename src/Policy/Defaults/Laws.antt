-- ===== src/Policy/Defaults/Laws.antt =====
-- The default rates over a run of calls, and how the window policies compare.
use native.Mathlib.Nat.{mul-add-div_right, div-add-mod', mod-lt, add-div_left, div-eq_of_lt}
use mathlib.Core.Path.{fun_ext, subst⁻¹}
use delp.Prelude.{
  ℕ, zero, suc, ◌+◌, ◌*◌, ◌/◌, ◌%◌, ◌^◌, ◌≤◌, ◌<◌, ◌≡◌, refl, sym, ap, ◌∙◌, Bool, List, [], ◌∷◌,
  inl, inr, leb, if◌then◌else◌, length, retain, length-retain, arith, Bool-cases, u32, usize,
  length-map,
}
use delp.Error.{ok}
use delp.Policy.AckState.{ReceiverAckState, is_acked, receiver_ids, num_receivers}
use delp.Policy.Defaults.{
  any_of, all_of, any_ack_removes, all_ack_removes, quorum_ack_removes, ConstantFecRate, new_rate,
  coded_packets_to_generate, ConstantFeedbackPolicy, new_feedback, should_send_feedback,
}

-- How many coded packets `calls` calls in a row ask for.
unfoldable pub emitted : ConstantFecRate → ℕ → ℕ
emitted r zero = 0
emitted r (suc calls) =
    let (count, after) = coded_packets_to_generate r in count + emitted after calls

emitted-from :
    (r : ConstantFecRate) (calls : ℕ)
    → 0 < r.denom
    → r.acc < r.denom
    → r.denom + r.numer ≤ 2 ^ 64
    → emitted r calls ≡ (r.acc + calls * r.numer) / r.denom
unfolding emitted coded_packets_to_generate
emitted-from r zero pos below room = sym (div-eq_of_lt (omega arith))
emitted-from r (suc calls) pos below room =
    let sum = r.acc + r.numer in
    let same : usize (r.acc + r.numer) ≡ sum = omega arith in
    let ih =
      emitted-from (record { numer = r.numer; denom = r.denom; acc = sum % r.denom }) calls pos
        (mod-lt sum pos) room in
    let whole : sum / r.denom * r.denom + (sum % r.denom + calls * r.numer)
        ≡ r.acc + suc calls * r.numer =
      omega (arith, div-add-mod' sum r.denom) in
    rw (same, ih, sym (mul-add-div_right pos (sum / r.denom) (sum % r.denom + calls * r.numer)))
      (ap (λ x. x / r.denom) whole)

-- How often `calls` calls in a row say to send feedback.
unfoldable pub feedbacks : ConstantFeedbackPolicy → ℕ → ℕ
feedbacks p zero = 0
feedbacks p (suc calls) =
    let (send, after) = should_send_feedback p in (if send then 1 else 0) + feedbacks after calls

feedbacks-from :
    (p : ConstantFeedbackPolicy) (calls : ℕ)
    → p.counter < p.period
    → p.period < 2 ^ 32
    → feedbacks p calls ≡ (p.counter + calls) / p.period
unfolding feedbacks should_send_feedback
feedbacks-from p zero below word = sym (div-eq_of_lt (omega arith))
feedbacks-from p (suc calls) below word = elim (Bool-cases (leb p.period (u32 (p.counter + 1)))) [
  | inl t ↦
      let start : ConstantFeedbackPolicy = record { period = p.period; counter = 0 } in
      let ih : feedbacks start calls ≡ calls / p.period =
        feedbacks-from start calls (omega arith) word ∙ ap (λ x. x / p.period) (omega arith) in
      let whole : p.period + calls ≡ p.counter + suc calls = ground arith in
      rw (t, ih, sym whole, add-div_left calls {k = p.period} (omega arith)) (omega arith)
  | inr f ↦
      let ih =
        feedbacks-from (record { period = p.period; counter = u32 (p.counter + 1) }) calls
          (ground arith) word in
      let same : u32 (p.counter + 1) + calls ≡ p.counter + suc calls = omega arith in
      rw (f, ih, same) (omega arith)
]

-- A rate that `ConstantFecRate::new` returns, with `denom + numer` at most 2 ^ 64, asks in the first
-- `calls` calls for `calls * numer / denom` coded packets in all, rounded down.
pub emitted-new_rate :
    (numer denom calls : ℕ) (r : ConstantFecRate)
    → denom + numer ≤ 2 ^ 64
    → new_rate numer denom ≡ ok r
    → emitted r calls ≡ calls * numer / denom
unfolding new_rate
emitted-new_rate numer denom calls r room h =
    let start : ConstantFecRate = record { numer = numer; denom = denom; acc = 0 } in
    let same : r ≡ start = ground arith in
    let pos : 0 < denom = ground arith in
    subst⁻¹ (λ r. emitted r calls ≡ calls * numer / denom) same
      (emitted-from start calls pos pos room ∙ ap (λ x. x / denom) (omega arith))

-- A policy that `ConstantFeedbackPolicy::new` returns for a `u32` period sends feedback in the first
-- `calls` calls `calls / period` times, rounded down.
pub feedbacks-new_feedback :
    (period calls : ℕ) (p : ConstantFeedbackPolicy)
    → period < 2 ^ 32
    → new_feedback period ≡ ok p
    → feedbacks p calls ≡ calls / period
unfolding new_feedback
feedbacks-new_feedback period calls p word h =
    let start : ConstantFeedbackPolicy = record { period = period; counter = 0 } in
    let same : p ≡ start = ground arith in
    let pos : 0 < period = ground arith in
    subst⁻¹ (λ p. feedbacks p calls ≡ calls / period) same
      (feedbacks-from start calls pos word ∙ ap (λ x. x / period) (omega arith))

-- Counting the receivers that acknowledge.
quorum-any : (p : ℕ → Bool) (xs : List ℕ) → leb 1 (length (retain p xs)) ≡ any_of p xs
unfolding any_of
quorum-any p [] = refl
quorum-any p (x ∷ xs) = let ih = quorum-any p xs in ground arith

quorum-all : (p : ℕ → Bool) (xs : List ℕ) → leb (length xs) (length (retain p xs)) ≡ all_of p xs
unfolding all_of
quorum-all p [] = refl
quorum-all p (x ∷ xs) = let ih = quorum-all p xs in let le = length-retain p xs in ground arith

-- A quorum of one removes what `AnyAckPolicy` removes.
pub quorum_ack_removes-one :
    (st : ReceiverAckState) (window_ids : List ℕ)
    → quorum_ack_removes 1 st window_ids ≡ any_ack_removes st window_ids
unfolding quorum_ack_removes any_ack_removes
quorum_ack_removes-one st window_ids =
    ap (λ p. retain p window_ids)
      (fun_ext λ id. quorum-any (λ rid. is_acked st rid id) (receiver_ids st))

-- With some receiver known, a quorum of all of them removes what `AllAckPolicy` removes.
pub quorum_ack_removes-all :
    (st : ReceiverAckState) (window_ids : List ℕ)
    → 0 < num_receivers st
    → quorum_ack_removes (num_receivers st) st window_ids ≡ all_ack_removes st window_ids
unfolding quorum_ack_removes all_ack_removes num_receivers receiver_ids
quorum_ack_removes-all st window_ids some_known =
    let count = length-map st.receivers (λ r. r.0) in
    let same = fun_ext λ id. quorum-all (λ rid. is_acked st rid id) (receiver_ids st) in
    rw (sym count, same) (ground arith)
