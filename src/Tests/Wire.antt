-- ===== src/Tests/Wire.antt =====
-- The packet formats at concrete packets.
use delp.Prelude.{ℕ, ◌≡◌, refl, ◌↔◌, arith, List, [], ◌∷◌, some}
use delp.Error.{ok, NoPanic}
use delp.Wire.Common
use delp.Wire.Common.{CommonHeader, PacketType}
use delp.Wire.Common.Laws.{parse_iff}
use delp.Wire.Common.Laws
use delp.Wire.Source.{source_header}
use delp.Wire.Source
use delp.Wire.Source.RoundTrip.{parse_source-serialise}
use delp.Wire.Source.Total.{parse_source-NoPanic}
use delp.Config.{Field}
use delp.Wire.Ev.RoundTrip.{vector}
use delp.Wire.Ev.IdStorage.RoundTrip.{SmallGaps}
use delp.Wire.Coded
use delp.Wire.Coded.{CodedPacket, coded_header}
use delp.Wire.Coded.RoundTrip.{parse_coded-serialise}
use delp.Wire.Source.{SourcePacket}
use delp.Wire.Packet.{DelpPacket, parse_packet}
use delp.Wire.Packet.Dispatch.{Announces, parse_packet_iff}
use delp.Wire.Feedback.{FeedbackPacket}
use delp.Wire.Feedback
use delp.Wire.Feedback.RoundTrip.{parse_feedback-serialise}
use delp.Wire.Feedback.Total.{parse_feedback-NoPanic}

abbrev header_bytes : List ℕ
header_bytes = 0x12 ∷ 0 ∷ 2 ∷ 0 ∷ 0 ∷ 0 ∷ 0 ∷ 9 ∷ []

parse_iff_example :
    NoPanic (Common.parse header_bytes)
    × ((h : CommonHeader) → (Common.parse header_bytes ≡ ok h) ↔ Laws.Fits header_bytes h)
parse_iff_example = parse_iff header_bytes

abbrev cci : List ℕ
cci = 1 ∷ 2 ∷ 3 ∷ 4 ∷ []

abbrev payload : List ℕ
payload = 0xDE ∷ 0xAD ∷ []

parse_source-serialise_example :
    (bytes : List ℕ) × (Source.serialise 77 payload cci (some 1234) ≡ ok bytes)
    × (Source.parse bytes
        ≡ ok (record {
          header = source_header cci (some 1234);
          cci = cci;
          tsi = some 1234;
          source_symbol_id = 77;
          payload = payload;
        }))
parse_source-serialise_example =
    parse_source-serialise 77 payload cci (some 1234) (refl, omega arith) (omega arith)
      (omega arith)

parse_source-NoPanic_example : NoPanic (Source.parse header_bytes)
parse_source-NoPanic_example = parse_source-NoPanic header_bytes

abbrev feedback : FeedbackPacket
feedback = record {
  tsi = some 7;
  nb_missing_src = 2;
  nb_not_used_coded = 1;
  first_src_id = 100;
  plr_raw = 12;
  sack = 0xA0 ∷ 0x01 ∷ [];
}

parse_feedback-serialise_example : Feedback.parse (Feedback.serialise feedback) ≡ ok feedback
parse_feedback-serialise_example = parse_feedback-serialise feedback (record {
  tsi_word = omega arith;
  missing_word = omega arith;
  unused_word = omega arith;
  first_word = omega arith;
  sack_byte = omega arith;
})

parse_feedback-NoPanic_example : NoPanic (Feedback.parse header_bytes)
parse_feedback-NoPanic_example = parse_feedback-NoPanic header_bytes

pair-SmallGaps : SmallGaps 5 (6 ∷ [])
unfolding SmallGaps
pair-SmallGaps = (omega arith, omega arith, omega arith, tt)

parse_coded-serialise_example :
    (bytes : List ℕ) × (n : ℕ) × (Coded.serialise 9
        (vector Field.gf2_8 9 0 (5 ∷ 6 ∷ []) [])
        payload
        cci
        (some 1234)
      ≡ ok bytes)
    × (Coded.parse bytes
        ≡ ok (record {
          header = coded_header cci (some 1234) n;
          cci = cci;
          tsi = some 1234;
          coded_symbol_id = 9;
          ev = vector Field.gf2_8 9 0 (5 ∷ 6 ∷ []) [];
          payload = payload;
        }))
parse_coded-serialise_example =
    parse_coded-serialise Field.gf2_8 9 0 5 (6 ∷ []) [] payload cci (some 1234) (refl, omega arith)
      (omega arith) (omega arith) (omega arith) pair-SmallGaps (omega arith) tt tt

parse_packet_iff_example :
    ((p : SourcePacket)
      → (parse_packet header_bytes ≡ ok (DelpPacket.source p)) ↔ (Source.parse header_bytes ≡ ok p))
    × ((p : CodedPacket)
        → (parse_packet header_bytes ≡ ok (DelpPacket.coded p)) ↔ (Coded.parse header_bytes ≡ ok p))
    × ((p : FeedbackPacket)
        → (parse_packet header_bytes ≡ ok (DelpPacket.feedback p))
          ↔ (Announces header_bytes PacketType.feedback × (Feedback.parse header_bytes ≡ ok p)))
parse_packet_iff_example = parse_packet_iff header_bytes
