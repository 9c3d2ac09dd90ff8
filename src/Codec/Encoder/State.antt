-- ===== src/Codec/Encoder/State.antt =====
-- src/codec/encoder/mod.rs: the encoder and its operations, over the policies and the bulk kernels.
-- The scratch buffer is a value of each call. The debug assertions are not modelled.
use delp.Prelude.{
  ℕ, zero, suc, ◌-◌, bit_and, not, ◌||◌, Option, none, some, List, [], ◌∷◌, min, ◌==◌,
  if◌then◌else◌, length, drop, retain, contains, replicate,
}
use delp.Error.{Result, ok, err, ◌>>=◌, expect, symbol_size_mismatch, window_full}
use delp.Config.{
  EncoderConfig, Field, MatrixStrategy, vandermonde, cauchy, BackpressureMode, reject, evict_oldest,
}
use delp.Policy.AckState.{ReceiverAckState, is_acked}
use delp.Policy.AckState
use delp.Gf.Simd.{Kernels, for_gf2_8, for_gf2_4, broadcast}
use delp.Wire.Feedback.{FeedbackPacket}
use delp.Wire.Source
use delp.Wire.Coded
use delp.Wire.Ev
use delp.Wire.Ev.{EncodingVector}
use delp.Wire.Ev.CoefGen.{vandermonde_batch, cauchy_batch_gf2_8, cauchy_batch_gf2_4}
use delp.Codec.Window
use delp.Codec.Window.{EncodingWindow, WindowSymbol}
use delp.Codec.Encoder.{CodedIds, new_ids, next_ids}
use delp.Codec.Encoder.Policies.{EncoderState, WindowPolicy, CongestionControl, FecRateController}

pub data EncoderOutput : Type 0 where
  source coded : List ℕ → EncoderOutput

pub record Encoder (W C F : Type 0) : Type 0 where
  pub config : EncoderConfig
  pub window : EncodingWindow
  pub ids : CodedIds
  pub ack_state : ReceiverAckState
  pub window_policy : W
  pub cc : C
  pub fec : F

unfoldable pub new : {W C F : Type 0} → EncoderConfig → W → C → F → Encoder W C F
new config window_policy cc fec = record {
  config = config;
  window = Window.new config.window_capacity;
  ids = new_ids config.matrix_strategy;
  ack_state = record { receivers = [] };
  window_policy = window_policy;
  cc = cc;
  fec = fec;
}

unfoldable pub make_encoder_state : EncodingWindow → ℕ → EncoderState
make_encoder_state w capacity = record {
  window_size = length w.symbols;
  window_capacity = capacity;
  next_source_id = w.next_id;
  next_coded_id = 0;
  window_ids = [];
}

-- One turn of the loop over the cover and the coefficients.
unfoldable pub add_term : Kernels → Field → EncodingWindow → List ℕ → ℕ → ℕ → Result (List ℕ)
add_term k Field.gf2_8 w scratch id coef =
    if coef == 0
    then ok scratch
    else (do data_of ← expect (Window.get w id); ok (k.mul_acc scratch data_of (for_gf2_8 coef)))
add_term k Field.gf2_4 w scratch id coef =
    let c = bit_and coef 0x0f in
    if c == 0 then ok scratch else (do
      data_of ← expect (Window.get w id)
      ok (k.mul_acc scratch data_of (for_gf2_4 (broadcast c))))

unfoldable pub add_terms :
    Kernels → Field → EncodingWindow → List ℕ → List ℕ → List ℕ → Result (List ℕ)
add_terms k field w scratch [] coefs = ok scratch
add_terms k field w scratch (id ∷ cover) [] = ok scratch
add_terms k field w scratch (id ∷ cover) (coef ∷ coefs) =
    add_term k field w scratch id coef >>= λ next. add_terms k field w next cover coefs

unfoldable pub cauchy_coefs : Field → List ℕ → ℕ → ℕ → Result (List ℕ)
cauchy_coefs Field.gf2_8 cover coded_id generation = cauchy_batch_gf2_8 cover coded_id generation
cauchy_coefs Field.gf2_4 cover coded_id generation = cauchy_batch_gf2_4 cover coded_id generation

-- The coefficients and the encoding vector.
unfoldable pub coefs_and_ev :
    MatrixStrategy → Field → List ℕ → ℕ → ℕ → Result (List ℕ × EncodingVector)
coefs_and_ev vandermonde field cover coded_id generation =
    ok (vandermonde_batch field cover coded_id, Ev.vandermonde field coded_id cover)
coefs_and_ev cauchy field cover coded_id generation = do
  c ← cauchy_coefs field cover coded_id generation
  e ← Ev.explicit field coded_id cover c
  ok (c, Ev.with_generation e generation)

-- The result and the encoder after the call. Only `submit_source` has errors, and both leave the
-- encoder as it is.
abbrev pub Outcome : (A W C F : Type 0) → Type 0
Outcome A W C F = Result (A × Encoder W C F)

module _ {W C F : Type 0} (k : Kernels) (wp : WindowPolicy W) (ccp : CongestionControl C)
    (fp : FecRateController F) where
  unfoldable pub compute_coded_payload_targeted : Encoder W C F → List ℕ → List ℕ → Result (List ℕ)
  compute_coded_payload_targeted e cover coefs =
      add_terms k e.config.field e.window (replicate e.config.symbol_size 0) cover coefs

  unfoldable pub generate_coded_inner :
      Encoder W C F → List ℕ → Outcome (Option EncoderOutput) W C F
  generate_coded_inner e cover = do
    let coded_id = e.ids.next_coded_id
    let generation = e.ids.generation
    (coefs, ev) ← coefs_and_ev e.config.matrix_strategy e.config.field cover coded_id generation
    payload ← compute_coded_payload_targeted e cover coefs
    pkt ← Coded.serialise coded_id ev payload (ccp.generate_cci e.cc) none
    ok (
      some (EncoderOutput.coded pkt),
      record e {
        ids = next_ids e.config.matrix_strategy e.config.field e.ids;
        cc = ccp.on_send e.cc (length pkt);
      },
    )

  -- The early returns of `Ok(None)`, on an empty window and on an empty cover.
  abbrev pub if_window :
      Encoder W C F → Outcome (Option EncoderOutput) W C F → Outcome (Option EncoderOutput) W C F
  if_window e rest = if length e.window.symbols == 0 then ok (none, e) else rest

  abbrev pub if_cover : Encoder W C F → List ℕ → Outcome (Option EncoderOutput) W C F
  if_cover e cover = if length cover == 0 then ok (none, e) else generate_coded_inner e cover

  unfoldable pub generate_coded : Encoder W C F → Outcome (Option EncoderOutput) W C F
  generate_coded e = if_window e (generate_coded_inner e (Window.id_slice e.window))

  unfoldable pub generate_coded_targeted :
      Encoder W C F → List ℕ → Outcome (Option EncoderOutput) W C F
  generate_coded_targeted e cover_ids =
      if_window e (if_cover e (retain (contains (Window.id_slice e.window)) cover_ids))

  unfoldable pub generate_coded_recent : Encoder W C F → ℕ → Outcome (Option EncoderOutput) W C F
  generate_coded_recent e n =
      if (length e.window.symbols == 0) || (n == 0)
      then ok (none, e)
      else generate_coded_inner e (
          drop (length e.window.symbols - min n (length e.window.symbols))
            (Window.id_slice e.window))

  unfoldable pub generate_coded_for_receiver :
      Encoder W C F → ℕ → Outcome (Option EncoderOutput) W C F
  generate_coded_for_receiver e receiver_id = if_window e (
      if_cover e
        (retain (λ id. not (is_acked e.ack_state receiver_id id)) (Window.id_slice e.window)))

  -- The end of one turn: `break` on nothing, and else the packet and the turns that are left.
  abbrev pub push_coded :
      Option EncoderOutput
      → Outcome (List EncoderOutput) W C F
      → Encoder W C F
      → Outcome (List EncoderOutput) W C F
  push_coded none rest e = ok ([], e)
  push_coded (some pkt) rest e = rest >>= λ r. ok (pkt ∷ r.0, r.1)

  -- The loop over `n_coded`.
  unfoldable pub generate_many : ℕ → Encoder W C F → Outcome (List EncoderOutput) W C F
  generate_many zero e = ok ([], e)
  generate_many (suc n) e = generate_coded e >>= λ r. push_coded r.0 (generate_many n r.1) r.1

  -- `submit_source` once there is room.
  unfoldable pub submit_with_room : Encoder W C F → List ℕ → Outcome (List EncoderOutput) W C F
  submit_with_room e payload = do
    let (source_id, window) = Window.push e.window payload
    src_pkt ← Source.serialise source_id payload (ccp.generate_cci e.cc) none
    let cc = ccp.on_send e.cc (length src_pkt)
    let state = make_encoder_state window e.config.window_capacity
    let (n_coded, fec) = fp.coded_packets_to_generate e.fec state
    (out, e) ← generate_many n_coded (record e { window = window; cc = cc; fec = fec })
    ok (EncoderOutput.source src_pkt ∷ out, e)

  -- The window is full.
  unfoldable pub submit_full :
      BackpressureMode → Encoder W C F → List ℕ → Outcome (List EncoderOutput) W C F
  submit_full reject e payload = err (window_full e.config.window_capacity)
  submit_full evict_oldest e payload =
      submit_with_room (record e { window = Window.evict_oldest e.window }) payload

  unfoldable pub submit_source : Encoder W C F → List ℕ → Outcome (List EncoderOutput) W C F
  submit_source e payload =
      if length payload == e.config.symbol_size
      then (if Window.is_full e.window
          then submit_full e.config.backpressure e payload
          else submit_with_room e payload)
      else err (symbol_size_mismatch e.config.symbol_size (length payload))

  unfoldable pub handle_feedback : Encoder W C F → ℕ → FeedbackPacket → Encoder W C F
  handle_feedback e receiver_id pkt =
      let ack_state = AckState.update e.ack_state receiver_id pkt in
      let (to_rm, window_policy) =
        wp.symbols_to_remove e.window_policy ack_state (Window.id_slice e.window) in
      let window = Window.remove_ids e.window to_rm in
      let state = make_encoder_state window e.config.window_capacity in
      record {
        config = e.config;
        window = window;
        ids = e.ids;
        ack_state = ack_state;
        window_policy = window_policy;
        cc = ccp.on_feedback e.cc state pkt.plr_raw pkt.nb_missing_src pkt.nb_not_used_coded;
        fec = fp.on_feedback e.fec state pkt.plr_raw pkt.nb_missing_src pkt.nb_not_used_coded;
      }
