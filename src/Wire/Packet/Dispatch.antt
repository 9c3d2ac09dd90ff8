-- ===== src/Wire/Packet/Dispatch.antt =====
-- A buffer is parsed as the one packet whose parser its header names.
use delp.Prelude.{ℕ, ◌≤◌, ◌≡◌, ◌↔◌, refl, ap, ◌∙◌, List, length, ltb, not, arith, le→not-ltb}
use delp.Error.{Result, ok, err, ◌>>=◌, >>=-ok, ensure, buffer_too_short, unknown_packet_type}
use delp.Wire.Slice.{byte_at}
use delp.Wire.Common
use delp.Wire.Common.{CommonHeader, PacketType}
use delp.Wire.Common.Laws.{parse-ok}
use delp.Wire.Source
use delp.Wire.Source.{SourcePacket}
use delp.Wire.Coded
use delp.Wire.Coded.{CodedPacket}
use delp.Wire.Feedback
use delp.Wire.Feedback.{FeedbackPacket}
use delp.Wire.Packet.{DelpPacket, parse_as, parse_packet}

-- The header and the packet type of a buffer.
abbrev pub Announces : List ℕ → PacketType → Type 0
Announces buf t = (h : CommonHeader) × (Common.parse buf ≡ ok h) × (Common.packet_type h ≡ ok t)

parse_packet-Announces :
    (buf : List ℕ) (t : PacketType) → Announces buf t → parse_packet buf ≡ parse_as buf t
unfolding parse_packet
parse_packet-Announces buf t (h, parsed, kind) =
    let four : 4 ≤ length buf = (parse-ok buf h parsed).four in
    rw (le→not-ltb _ _ four, parsed, kind) refl

Announces-parse_packet :
    (buf : List ℕ) (p : DelpPacket)
    → parse_packet buf ≡ ok p
    → (t : PacketType) × Announces buf t × (parse_as buf t ≡ ok p)
unfolding parse_packet
Announces-parse_packet buf p e =
    let (u, long, rest) =
      >>=-ok (ensure (not (ltb (length buf) 4)) (buffer_too_short 4 (length buf))) _ p e in
    let (h, parsed, more) = >>=-ok (Common.parse buf) _ p rest in
    let (t, kind, last) = >>=-ok (Common.packet_type h) _ p more in (t, (h, parsed, kind), last)

-- What a parser answers to a packet of another type.
abbrev refusal : ℕ → Result (Unit {0})
refusal b = err (unknown_packet_type b)

abbrev byte_refused : List ℕ → Result (Unit {0})
byte_refused buf = byte_at buf 3 >>= refusal

byte_refused-ok : (buf : List ℕ) → ¬ (byte_refused buf ≡ ok tt)
byte_refused-ok buf c =
    let (b, _, clash) = >>=-ok (byte_at buf 3) refusal tt c in absurd (ground arith)

-- Its parser accepts only what is announced as a source packet.
Announces-parse_source :
    (buf : List ℕ) (p : SourcePacket) → Source.parse buf ≡ ok p → Announces buf PacketType.source
unfolding Source.parse Source.check_type
Announces-parse_source buf p e =
    let (h, parsed, more) = >>=-ok (Common.parse buf) _ p e in
    let (t, kind, last) = >>=-ok (Common.packet_type h) _ p more in
    let (u, checked, _) = >>=-ok (Source.check_type buf t) _ p last in
    (h, parsed, kind ∙ ap ok (only t checked))
  where
    only : (t : PacketType) → Source.check_type buf t ≡ ok tt → t ≡ PacketType.source
    only PacketType.source c = refl
    only PacketType.coded c = absurd (byte_refused-ok buf c)
    only PacketType.feedback c = absurd (byte_refused-ok buf c)

-- Its parser accepts only what is announced as a coded packet.
Announces-parse_coded :
    (buf : List ℕ) (p : CodedPacket) → Coded.parse buf ≡ ok p → Announces buf PacketType.coded
unfolding Coded.parse Coded.check_type
Announces-parse_coded buf p e =
    let (h, parsed, more) = >>=-ok (Common.parse buf) _ p e in
    let (t, kind, last) = >>=-ok (Common.packet_type h) _ p more in
    let (u, checked, _) = >>=-ok (Coded.check_type buf t) _ p last in
    (h, parsed, kind ∙ ap ok (only t checked))
  where
    only : (t : PacketType) → Coded.check_type buf t ≡ ok tt → t ≡ PacketType.coded
    only PacketType.source c = absurd (byte_refused-ok buf c)
    only PacketType.coded c = refl
    only PacketType.feedback c = absurd (byte_refused-ok buf c)

parse_as-source :
    (buf : List ℕ) (t : PacketType) (p : SourcePacket)
    → parse_as buf t ≡ ok (DelpPacket.source p)
    → Source.parse buf ≡ ok p
unfolding parse_as
parse_as-source buf PacketType.source p e =
    let (q, parsed, same) = >>=-ok (Source.parse buf) _ (DelpPacket.source p) e in
    let equal : q ≡ p = cc in parsed ∙ ap ok equal
parse_as-source buf PacketType.coded p e =
    let (q, parsed, clash) = >>=-ok (Coded.parse buf) _ (DelpPacket.source p) e in absurd (cc)
parse_as-source buf PacketType.feedback p e =
    let (q, parsed, clash) = >>=-ok (Feedback.parse buf) _ (DelpPacket.source p) e in absurd (cc)

parse_as-coded :
    (buf : List ℕ) (t : PacketType) (p : CodedPacket)
    → parse_as buf t ≡ ok (DelpPacket.coded p)
    → Coded.parse buf ≡ ok p
unfolding parse_as
parse_as-coded buf PacketType.coded p e =
    let (q, parsed, same) = >>=-ok (Coded.parse buf) _ (DelpPacket.coded p) e in
    let equal : q ≡ p = cc in parsed ∙ ap ok equal
parse_as-coded buf PacketType.source p e =
    let (q, parsed, clash) = >>=-ok (Source.parse buf) _ (DelpPacket.coded p) e in absurd (cc)
parse_as-coded buf PacketType.feedback p e =
    let (q, parsed, clash) = >>=-ok (Feedback.parse buf) _ (DelpPacket.coded p) e in absurd (cc)

parse_as-feedback :
    (buf : List ℕ) (t : PacketType) (p : FeedbackPacket)
    → parse_as buf t ≡ ok (DelpPacket.feedback p)
    → (t ≡ PacketType.feedback) × (Feedback.parse buf ≡ ok p)
unfolding parse_as
parse_as-feedback buf PacketType.feedback p e =
    let (q, parsed, same) = >>=-ok (Feedback.parse buf) _ (DelpPacket.feedback p) e in
    let equal : q ≡ p = cc in (refl, parsed ∙ ap ok equal)
parse_as-feedback buf PacketType.source p e =
    let (q, parsed, clash) = >>=-ok (Source.parse buf) _ (DelpPacket.feedback p) e in absurd (cc)
parse_as-feedback buf PacketType.coded p e =
    let (q, parsed, clash) = >>=-ok (Coded.parse buf) _ (DelpPacket.feedback p) e in absurd (cc)

-- On any buffer, `DelpPacket::parse` returns a source packet exactly when `SourcePacket::parse`
-- returns it, a coded packet exactly when `CodedPacket::parse` returns it, and a feedback packet
-- exactly when the header announces one and `FeedbackPacket::parse` returns it.
pub parse_packet_iff :
    (buf : List ℕ)
    → ((p : SourcePacket)
        → (parse_packet buf ≡ ok (DelpPacket.source p)) ↔ (Source.parse buf ≡ ok p))
      × ((p : CodedPacket)
          → (parse_packet buf ≡ ok (DelpPacket.coded p)) ↔ (Coded.parse buf ≡ ok p))
      × ((p : FeedbackPacket)
          → (parse_packet buf ≡ ok (DelpPacket.feedback p))
            ↔ (Announces buf PacketType.feedback × (Feedback.parse buf ≡ ok p)))
unfolding parse_as
parse_packet_iff buf = (
  λ p. (
    λ e.
        let (t, _, last) = Announces-parse_packet buf (DelpPacket.source p) e in
        parse_as-source buf t p last,
    λ e. parse_packet-Announces buf PacketType.source (Announces-parse_source buf p e) ∙ rw e refl,
  ),
  λ p. (
    λ e.
        let (t, _, last) = Announces-parse_packet buf (DelpPacket.coded p) e in
        parse_as-coded buf t p last,
    λ e. parse_packet-Announces buf PacketType.coded (Announces-parse_coded buf p e) ∙ rw e refl,
  ),
  λ p. (
    λ e.
        let (t, announced, last) = Announces-parse_packet buf (DelpPacket.feedback p) e in
        let (same, parsed) = parse_as-feedback buf t p last in (rw (← same) announced, parsed),
    λ q. parse_packet-Announces buf PacketType.feedback q.0 ∙ rw q.1 refl,
  ),
)
