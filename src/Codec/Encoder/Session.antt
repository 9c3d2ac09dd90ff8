-- ===== src/Codec/Encoder/Session.antt =====
-- A session of the encoder: whatever is called, the coded IDs follow the cycle.
use delp.Prelude.{
  ℕ, zero, suc, ◌+◌, ◌≡◌, refl, sym, ◌∙◌, Bool, true, false, Bool-cases, inl, inr, Option, none,
  some, List, [], ◌∷◌, length, ◌==◌, if◌then◌else◌, arith,
}
use mathlib.Core.Path.{subst}
use delp.Error.{ok, >>=-OnOk, >>=-OnOk_any, OnOk, OnOk-map}
use delp.Config.{BackpressureMode, reject, evict_oldest}
use delp.Gf.Simd.{Kernels}
use delp.Codec.Window
use delp.Wire.Source
use delp.Wire.Coded
use delp.Codec.Encoder.{next_ids}
use delp.Codec.Encoder.Policies.{WindowPolicy, CongestionControl, FecRateController}
use delp.Codec.Encoder.Cycle.{IsAfter, next_ids-IsAfter}
use delp.Codec.Encoder.State.{
  EncoderOutput, Encoder, Outcome, coefs_and_ev, compute_coded_payload_targeted,
  generate_coded_inner, if_cover, generate_coded, generate_coded_targeted, generate_coded_recent,
  generate_coded_for_receiver, push_coded, generate_many, make_encoder_state, submit_with_room,
  submit_full, submit_source,
}

-- The coded packets among the outputs.
unfoldable pub coded_count : List EncoderOutput → ℕ
coded_count [] = 0
coded_count (EncoderOutput.source bytes ∷ out) = coded_count out
coded_count (EncoderOutput.coded bytes ∷ out) = suc (coded_count out)

abbrev pub listed : Option EncoderOutput → List EncoderOutput
listed none = []
listed (some pkt) = pkt ∷ []

-- The second encoder comes from the first by `n` coded packets.
pub record Advanced {W C F : Type 0} (n : ℕ) (e after : Encoder W C F) : Type 0 where
  pub config : after.config ≡ e.config
  pub ids :
      (m total : ℕ)
      → total ≡ n + m
      → IsAfter e.config.matrix_strategy e.config.field m e.ids
      → IsAfter e.config.matrix_strategy e.config.field total after.ids

-- What a call that returns does: as many steps as it returns coded packets.
abbrev pub AdvancedOne :
    {W C F : Type 0} → Encoder W C F → Option EncoderOutput × Encoder W C F → Type 0
AdvancedOne e r = Advanced (coded_count (listed r.0)) e r.1

abbrev pub AdvancedAll :
    {W C F : Type 0} → Encoder W C F → List EncoderOutput × Encoder W C F → Type 0
AdvancedAll e r = Advanced (coded_count r.0) e r.1

-- A call that leaves the counters as they are.
Advanced-zero :
    {W C F : Type 0} (e after : Encoder W C F)
    → after.config ≡ e.config
    → after.ids ≡ e.ids
    → Advanced 0 e after
Advanced-zero e after same kept = record {
  config = same;
  ids = λ m total t h.
      let eq : m ≡ total = omega arith in
      subst (IsAfter e.config.matrix_strategy e.config.field total) (sym kept)
        (subst (λ (x : ℕ). IsAfter e.config.matrix_strategy e.config.field x e.ids) eq h);
}

Advanced-trans :
    {W C F : Type 0} (a b c : ℕ) (e f g : Encoder W C F)
    → c ≡ a + b
    → Advanced a e f
    → Advanced b f g
    → Advanced c e g
Advanced-trans a b c e f g sum p q = record {
  config = q.config ∙ p.config;
  ids = λ m total t h.
      subst (λ d. IsAfter d.matrix_strategy d.field total g.ids) p.config
        (q.ids (a + m) total (omega arith) (
          subst (λ d. IsAfter d.matrix_strategy d.field (a + m) f.ids) (sym p.config)
            (p.ids m (a + m) refl h)));
}

-- The counters after a coded packet.
sent-Advanced :
    {W C F : Type 0} (e : Encoder W C F) (pkt : List ℕ) (cc : C)
    → AdvancedOne e (
      some (EncoderOutput.coded pkt),
      record e { ids = next_ids e.config.matrix_strategy e.config.field e.ids; cc = cc },
    )
unfolding coded_count
sent-Advanced e pkt cc = record {
  config = refl;
  ids = λ m total t h.
      let eq : suc m ≡ total = omega arith in
      subst
        (λ (x : ℕ).
          IsAfter e.config.matrix_strategy e.config.field x
            (next_ids e.config.matrix_strategy e.config.field e.ids))
        eq (next_ids-IsAfter e.config.matrix_strategy e.config.field m e.ids h);
}

module _ {W C F : Type 0} (k : Kernels) (wp : WindowPolicy W) (ccp : CongestionControl C)
    (fp : FecRateController F) where
  pub generate_coded_inner-Advanced :
      (e : Encoder W C F) (cover : List ℕ)
      → OnOk (AdvancedOne e) (generate_coded_inner k wp ccp fp e cover)
  unfolding generate_coded_inner coded_count
  generate_coded_inner-Advanced e cover =
      let ids = e.ids in
      >>=-OnOk_any (AdvancedOne e)
        (coefs_and_ev e.config.matrix_strategy e.config.field cover ids.next_coded_id
          ids.generation)
        _
        λ ce.
          >>=-OnOk_any (AdvancedOne e) (compute_coded_payload_targeted k wp ccp fp e cover ce.0) _
            λ payload.
              >>=-OnOk_any (AdvancedOne e)
                (Coded.serialise ids.next_coded_id ce.1 payload (ccp.generate_cci e.cc) none) _
                λ pkt. sent-Advanced e pkt (ccp.on_send e.cc (length pkt))

  -- An early return, or the rest.
  either-Advanced :
      (e : Encoder W C F) (b : Bool) (rest : Outcome (Option EncoderOutput) W C F)
      → OnOk (AdvancedOne e) rest
      → OnOk (AdvancedOne e) (if b then ok (none, e) else rest)
  unfolding coded_count
  either-Advanced e true rest h = Advanced-zero e e refl refl
  either-Advanced e false rest h = h

  if_cover-Advanced :
      (e : Encoder W C F) (cover : List ℕ) → OnOk (AdvancedOne e) (if_cover k wp ccp fp e cover)
  if_cover-Advanced e cover =
      either-Advanced e (length cover == 0) _ (generate_coded_inner-Advanced e cover)

  pub generate_coded-Advanced :
      (e : Encoder W C F) → OnOk (AdvancedOne e) (generate_coded k wp ccp fp e)
  unfolding generate_coded
  generate_coded-Advanced e = either-Advanced e _ _ (generate_coded_inner-Advanced e _)

  pub generate_coded_targeted-Advanced :
      (e : Encoder W C F) (ids : List ℕ)
      → OnOk (AdvancedOne e) (generate_coded_targeted k wp ccp fp e ids)
  unfolding generate_coded_targeted
  generate_coded_targeted-Advanced e ids =
      either-Advanced e (length e.window.symbols == 0) _ (if_cover-Advanced e _)

  pub generate_coded_recent-Advanced :
      (e : Encoder W C F) (n : ℕ) → OnOk (AdvancedOne e) (generate_coded_recent k wp ccp fp e n)
  unfolding generate_coded_recent
  generate_coded_recent-Advanced e n = either-Advanced e _ _ (generate_coded_inner-Advanced e _)

  pub generate_coded_for_receiver-Advanced :
      (e : Encoder W C F) (rid : ℕ)
      → OnOk (AdvancedOne e) (generate_coded_for_receiver k wp ccp fp e rid)
  unfolding generate_coded_for_receiver
  generate_coded_for_receiver-Advanced e rid =
      either-Advanced e (length e.window.symbols == 0) _ (if_cover-Advanced e _)

  push_coded-Advanced :
      (e f : Encoder W C F) (pkt : Option EncoderOutput) (rest : Outcome (List EncoderOutput) W C F)
      → AdvancedOne e (pkt, f)
      → OnOk (AdvancedAll f) rest
      → OnOk (AdvancedAll e) (push_coded k wp ccp fp pkt rest f)
  unfolding coded_count
  push_coded-Advanced e f none rest h next = h
  push_coded-Advanced e f (some (EncoderOutput.source bytes)) rest h next =
      >>=-OnOk (AdvancedAll f) (AdvancedAll e) rest _ next
        λ r q. Advanced-trans 0 (coded_count r.0) _ e f r.1 (omega arith) h q
  push_coded-Advanced e f (some (EncoderOutput.coded bytes)) rest h next =
      >>=-OnOk (AdvancedAll f) (AdvancedAll e) rest _ next
        λ r q. Advanced-trans 1 (coded_count r.0) _ e f r.1 (omega arith) h q

  generate_many-Advanced :
      (n : ℕ) (e : Encoder W C F) → OnOk (AdvancedAll e) (generate_many k wp ccp fp n e)
  unfolding generate_many coded_count
  generate_many-Advanced zero e = Advanced-zero e e refl refl
  generate_many-Advanced (suc n) e =
      >>=-OnOk (AdvancedOne e) (AdvancedAll e) (generate_coded k wp ccp fp e) _
        (generate_coded-Advanced e)
        λ r h. push_coded-Advanced e r.1 r.0 _ h (generate_many-Advanced n r.1)

  submit_with_room-Advanced :
      (e : Encoder W C F) (payload : List ℕ)
      → OnOk (AdvancedAll e) (submit_with_room k wp ccp fp e payload)
  unfolding submit_with_room coded_count
  submit_with_room-Advanced e payload =
      let (source_id, window) = Window.push e.window payload in
      >>=-OnOk_any (AdvancedAll e) (Source.serialise source_id payload (ccp.generate_cci e.cc) none)
        _
        λ src_pkt.
          let state = make_encoder_state window e.config.window_capacity in
          let (n_coded, fec) = fp.coded_packets_to_generate e.fec state in
          let cc = ccp.on_send e.cc (length src_pkt) in
          let next : Encoder W C F = record e { window = window; cc = cc; fec = fec } in
          >>=-OnOk (AdvancedAll next) (AdvancedAll e) (generate_many k wp ccp fp n_coded next) _
            (generate_many-Advanced n_coded next)
            λ r q.
              Advanced-trans 0 (coded_count r.0) _ e next r.1 (omega arith)
                (Advanced-zero e next refl refl) q

  submit_full-Advanced :
      (mode : BackpressureMode) (e : Encoder W C F) (payload : List ℕ)
      → OnOk (AdvancedAll e) (submit_full k wp ccp fp mode e payload)
  unfolding submit_full
  submit_full-Advanced reject e payload = tt
  submit_full-Advanced evict_oldest e payload =
      let next : Encoder W C F = record e { window = Window.evict_oldest e.window } in
      OnOk-map (AdvancedAll next) (AdvancedAll e) (submit_with_room k wp ccp fp next payload)
        (submit_with_room-Advanced next payload) λ r q. record { config = q.config; ids = q.ids }

  pub submit_source-Advanced :
      (e : Encoder W C F) (payload : List ℕ)
      → OnOk (AdvancedAll e) (submit_source k wp ccp fp e payload)
  unfolding submit_source
  submit_source-Advanced e payload = elim (Bool-cases (length payload == e.config.symbol_size)) [
    | inl t ↦ rw t (elim (Bool-cases (Window.is_full e.window)) [
      | inl t ↦ rw t (submit_full-Advanced e.config.backpressure e payload)
      | inr f ↦ rw f (submit_with_room-Advanced e payload)
    ])
    | inr f ↦ rw f tt
  ]
