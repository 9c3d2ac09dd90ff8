-- ===== src/Codec/Encoder/Reachable.antt =====
-- The encoders that a session reaches by any calls, and how many coded packets it has sent.
use delp.Prelude.{ℕ, ◌+◌, ◌≡◌, refl, sym, ◌∙◌, Option, List}
use mathlib.Core.Path.{subst}
use delp.Error.{ok, OnOk}
use delp.Config.{EncoderConfig}
use delp.Gf.Simd.{Kernels}
use delp.Wire.Feedback.{FeedbackPacket}
use delp.Codec.Encoder.Policies.{WindowPolicy, CongestionControl, FecRateController}
use delp.Codec.Encoder.Cycle.{IsAfter, new_ids-IsAfter}
use delp.Codec.Encoder.State.{
  EncoderOutput, Encoder, new, Outcome, generate_coded, generate_coded_targeted,
  generate_coded_recent, generate_coded_for_receiver, submit_source, handle_feedback,
}
use delp.Codec.Encoder.Session.{
  coded_count, listed, Advanced, AdvancedOne, AdvancedAll, generate_coded-Advanced,
  generate_coded_targeted-Advanced, generate_coded_recent-Advanced,
  generate_coded_for_receiver-Advanced, submit_source-Advanced,
}

-- The calls that generate one coded packet.
pub data Generate : Type 0 where
  over_window : Generate
  targeted : List ℕ → Generate
  recent for_receiver : ℕ → Generate

module _ {W C F : Type 0} (k : Kernels) (wp : WindowPolicy W) (ccp : CongestionControl C)
    (fp : FecRateController F) where
  abbrev pub generate : Generate → Encoder W C F → Outcome (Option EncoderOutput) W C F
  generate over_window e = generate_coded k wp ccp fp e
  generate (targeted ids) e = generate_coded_targeted k wp ccp fp e ids
  generate (recent n) e = generate_coded_recent k wp ccp fp e n
  generate (for_receiver rid) e = generate_coded_for_receiver k wp ccp fp e rid

  -- From a new encoder of the configuration, with the number of coded packets returned so far.
  pub data Reachable (config : EncoderConfig) : Encoder W C F → ℕ → Type 0 where
    started : (w : W) (c : C) (f : F) → Reachable config (new config w c f) 0
    submitted :
        (e after : Encoder W C F) (n : ℕ) (payload : List ℕ) (out : List EncoderOutput)
        → Reachable config e n
        → submit_source k wp ccp fp e payload ≡ ok (out, after)
        → Reachable config after (coded_count out + n)
    generated :
        (e after : Encoder W C F) (n : ℕ) (call : Generate) (out : Option EncoderOutput)
        → Reachable config e n
        → generate call e ≡ ok (out, after)
        → Reachable config after (coded_count (listed out) + n)
    fed :
        (e : Encoder W C F) (n rid : ℕ) (pkt : FeedbackPacket)
        → Reachable config e n
        → Reachable config (handle_feedback k wp ccp fp e rid pkt) n

  generate-Advanced : (call : Generate) (e : Encoder W C F) → OnOk (AdvancedOne e) (generate call e)
  generate-Advanced over_window e = generate_coded-Advanced k wp ccp fp e
  generate-Advanced (targeted ids) e = generate_coded_targeted-Advanced k wp ccp fp e ids
  generate-Advanced (recent n) e = generate_coded_recent-Advanced k wp ccp fp e n
  generate-Advanced (for_receiver rid) e = generate_coded_for_receiver-Advanced k wp ccp fp e rid

  -- The configuration is the first one, and the counters are those of that many packets.
  abbrev Counted : EncoderConfig → Encoder W C F → ℕ → Type 0
  Counted config e n = (e.config ≡ config) × IsAfter config.matrix_strategy config.field n e.ids

  Counted-step :
      (config : EncoderConfig) (e after : Encoder W C F) (m n : ℕ)
      → Counted config e n
      → Advanced m e after
      → Counted config after (m + n)
  Counted-step config e after m n (same, h) a = (
    a.config ∙ same,
    subst (λ c. IsAfter c.matrix_strategy c.field (m + n) after.ids) same
        (a.ids n (m + n) refl
          (subst (λ c. IsAfter c.matrix_strategy c.field n e.ids) (sym same) h)),
  )

  -- An encoder that a session reaches with `n` coded packets returned has its first configuration;
  -- its `next_coded_id` is the strategy's first ID plus `n % coded_id_cycle`, its `coded_ids_used` is
  -- `n` modulo 2 ^ 64, and its `generation` is the number of whole cycles modulo 256 for the Cauchy
  -- strategy and 0 for the Vandermonde strategy.
  pub Reachable-IsAfter :
      (config : EncoderConfig) (e : Encoder W C F) (n : ℕ)
      → Reachable config e n
      → (e.config ≡ config) × IsAfter config.matrix_strategy config.field n e.ids
  unfolding new handle_feedback
  Reachable-IsAfter config _ _ (started w c f) =
      (refl, new_ids-IsAfter config.matrix_strategy config.field)
  Reachable-IsAfter config _ _ (submitted e after n payload out r h) =
      Counted-step config e after (coded_count out) n (Reachable-IsAfter config e n r)
        (subst (OnOk (AdvancedAll e)) h (submit_source-Advanced k wp ccp fp e payload))
  Reachable-IsAfter config _ _ (generated e after n call out r h) =
      Counted-step config e after (coded_count (listed out)) n (Reachable-IsAfter config e n r)
        (subst (OnOk (AdvancedOne e)) h (generate-Advanced call e))
  Reachable-IsAfter config _ _ (fed e n rid pkt r) = Reachable-IsAfter config e n r
