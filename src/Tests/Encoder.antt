-- ===== src/Tests/Encoder.antt =====
-- A short session of the encoder.
use delp.Prelude.{arith, if◌then◌else◌, none, ◌+◌, true, ◌≡◌, refl, List, [], ◌∷◌}
use delp.Error.{ok}
use delp.Config.{EncoderConfig, gf2_8, vandermonde, reject}
use delp.Gf.Simd.{scalar}
use delp.Codec.Window
use delp.Codec.Window.Laws.{IsValid, Within, Consecutive, Follows}
use delp.Policy.AckState.{update}
use delp.Wire.Feedback.{FeedbackPacket}
use delp.Codec.Encoder
use delp.Codec.Encoder.State
use delp.Wire.Source
use delp.Wire.Coded
use delp.Wire.Common
use delp.Wire.Ev
use delp.Wire.Ev.IdStorage
use delp.Wire.Ev.CoefGen
use delp.Gf.Field
use delp.Gf.Gf2_8
use delp.Gf.Simd
use delp.Gf.Tables.{gf2_8_exp, gf2_8_log}
use delp.Codec.Encoder.Policies.{CongestionControl, FecRateController}
use delp.Codec.Encoder.State.{Encoder, EncoderOutput, new, submit_source}
use delp.Codec.Encoder.Cycle.{IsAfter}
use delp.Codec.Encoder.Session.{coded_count}
use delp.Codec.Encoder.Feedback.{any_ack_policy, acked_by_any, handle_feedback-any_ack}
use delp.Codec.Encoder.Reachable.{Reachable, Reachable-IsAfter}

abbrev tiny : EncoderConfig
tiny = record {
  symbol_size = 2;
  window_capacity = 4;
  field = gf2_8;
  fec_numer = 1;
  fec_denom = 1;
  backpressure = reject;
  matrix_strategy = vandermonde;
}

abbrev no_congestion_control : CongestionControl (Unit {0})
no_congestion_control = record {
  generate_cci = λ c. [];
  on_feedback = λ c st plr missing unused. c;
  on_send = λ c size. c;
}

-- One coded packet for each symbol.
abbrev one_for_one : FecRateController (Unit {0})
one_for_one = record {
  coded_packets_to_generate = λ f st. (1, f);
  on_feedback = λ f st plr missing unused. f;
}

abbrev first_encoder : Encoder (Unit {0}) (Unit {0}) (Unit {0})
first_encoder = new tiny tt tt tt

-- The source packet of the first symbol, and a coded packet over it with ID 1.
abbrev first_output : List EncoderOutput
first_output =
    EncoderOutput.source (16 ∷ 0 ∷ 2 ∷ 0 ∷ 0 ∷ 0 ∷ 0 ∷ 0 ∷ 5 ∷ 6 ∷ [])
    ∷ EncoderOutput.coded
        (16 ∷ 0 ∷ 4 ∷ 1 ∷ 0 ∷ 0 ∷ 0 ∷ 1 ∷ 2 ∷ 16 ∷ 1 ∷ 0 ∷ 0 ∷ 0 ∷ 0 ∷ 0 ∷ 5 ∷ 6 ∷ [])
    ∷ []

abbrev second_encoder : Encoder (Unit {0}) (Unit {0}) (Unit {0})
second_encoder = record {
  config = tiny;
  window = record {
    symbols = record { id = 0; payload = 5 ∷ 6 ∷ [] } ∷ [];
    capacity = 4;
    next_id = 1;
    is_contiguous = true;
  };
  ids = record { next_coded_id = 2; coded_ids_used = 1; generation = 0 };
  ack_state = record { receivers = [] };
  window_policy = tt;
  cc = tt;
  fec = tt;
}

submit_source_run :
    submit_source scalar any_ack_policy no_congestion_control one_for_one first_encoder (5 ∷ 6 ∷ [])
    ≡ ok (first_output, second_encoder)
unfolding submit_source State.new State.make_encoder_state State.submit_with_room
    State.generate_many State.generate_coded State.generate_coded_inner State.coefs_and_ev
    State.compute_coded_payload_targeted State.add_terms State.add_term Window.new Window.is_full
    Window.push Window.last_id Window.last_of Window.still_contiguous Window.id_slice Window.get
    Window.get_in Encoder.new_ids Encoder.first_id Encoder.next_ids Encoder.wrap_id
    Encoder.order_minus_1 Source.serialise Source.source_header Coded.serialise Coded.coded_header
    Ev.vandermonde Ev.serialise Ev.vector_bytes Ev.flags_byte Ev.nb_ids Ev.nb_coefs
    Ev.generation_block Ev.coef_bytes Ev.coef_bits Ev.padded Ev.pad32 Ev.has_explicit_coefs
    Ev.has_generation IdStorage.best_for IdStorage.is_contiguous IdStorage.encode
    IdStorage.wire_value Common.new Common.to_bytes Common.from_words CoefGen.vandermonde_batch
    Field.vandermonde Gf2_8.alpha_pow Gf2_8.exp_at Gf2_8.log_at Gf2_8.gf2_8_mul_raw gf2_8_exp
    gf2_8_log Simd.scalar_mul_acc Simd.for_gf2_8 Simd.fill_table Simd.nibble_entry
submit_source_run = refl

second_encoder-Reachable :
    Reachable scalar any_ack_policy no_congestion_control one_for_one tiny second_encoder
      (coded_count first_output + 0)
second_encoder-Reachable =
    Reachable.submitted first_encoder second_encoder 0 (5 ∷ 6 ∷ []) first_output
      (Reachable.started tt tt tt) submit_source_run

Reachable-IsAfter_example :
    (tiny ≡ tiny) × IsAfter vandermonde gf2_8 (coded_count first_output + 0) second_encoder.ids
Reachable-IsAfter_example =
    Reachable-IsAfter scalar any_ack_policy no_congestion_control one_for_one tiny second_encoder
      (coded_count first_output + 0) second_encoder-Reachable

second_window-IsValid : IsValid second_encoder.window
unfolding Within Consecutive Follows
second_window-IsValid = record {
  bounded = omega arith;
  within = (omega arith, omega arith, tt);
  word = omega arith;
  consecutive = λ _. tt;
}

-- All IDs below 1 are acknowledged.
abbrev first_ack : FeedbackPacket
first_ack = record {
  tsi = none;
  nb_missing_src = 0;
  nb_not_used_coded = 0;
  first_src_id = 1;
  plr_raw = 0;
  sack = [];
}

handle_feedback-any_ack_example :
    Window.get
      (State.handle_feedback scalar any_ack_policy no_congestion_control one_for_one second_encoder
        7 first_ack).window
      0
    ≡ (if acked_by_any (update second_encoder.ack_state 7 first_ack) 0
        then none
        else Window.get second_encoder.window 0)
handle_feedback-any_ack_example =
    handle_feedback-any_ack scalar no_congestion_control one_for_one second_encoder 7 first_ack 0
      second_window-IsValid
