-- ===== src/Codec/Encoder/Policies.antt =====
-- src/policy/mod.rs: the traits of the encoder's policies, as records over the policy's state. A
-- policy that returns its state changed takes `&mut self`. The loss rate that the feedback handlers
-- get is a function of the packet's `plr_raw`, which is what they take here, and the one in
-- `EncoderState` is always 0.
use delp.Prelude.{ℕ, List}
use delp.Policy.AckState.{ReceiverAckState}

pub record EncoderState : Type 0 where
  pub window_size : ℕ
  pub window_capacity : ℕ
  pub next_source_id : ℕ
  pub next_coded_id : ℕ
  pub window_ids : List ℕ

pub record WindowPolicy (W : Type 0) : Type 0 where
  pub symbols_to_remove : W → ReceiverAckState → List ℕ → List ℕ × W

pub record CongestionControl (C : Type 0) : Type 0 where
  pub generate_cci : C → List ℕ
  pub on_feedback : C → EncoderState → ℕ → ℕ → ℕ → C
  pub on_send : C → ℕ → C

pub record FecRateController (F : Type 0) : Type 0 where
  pub coded_packets_to_generate : F → EncoderState → ℕ × F
  pub on_feedback : F → EncoderState → ℕ → ℕ → ℕ → F
