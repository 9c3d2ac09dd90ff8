-- ===== src/Wire/Packet.antt =====
-- src/wire/mod.rs: any packet, by the type that its header announces.
pub mod Dispatch
use delp.Prelude.{ℕ, List, length, ltb, not}
use delp.Error.{Result, ok, ◌>>=◌, ◌>>◌, ensure, buffer_too_short}
use delp.Wire.Common
use delp.Wire.Common.{PacketType}
use delp.Wire.Source
use delp.Wire.Source.{SourcePacket}
use delp.Wire.Coded
use delp.Wire.Coded.{CodedPacket}
use delp.Wire.Feedback
use delp.Wire.Feedback.{FeedbackPacket}

pub data DelpPacket : Type 0 where
  source : SourcePacket → DelpPacket
  coded : CodedPacket → DelpPacket
  feedback : FeedbackPacket → DelpPacket

-- `match hdr.packet_type()?`.
unfoldable pub parse_as : List ℕ → PacketType → Result DelpPacket
parse_as buf PacketType.source = do p ← Source.parse buf; ok (source p)
parse_as buf PacketType.coded = do p ← Coded.parse buf; ok (coded p)
parse_as buf PacketType.feedback = do p ← Feedback.parse buf; ok (feedback p)

unfoldable pub parse_packet : List ℕ → Result DelpPacket
parse_packet buf = do
  ensure (not (ltb (length buf) Common.header_size))
      (buffer_too_short Common.header_size (length buf))
  hdr ← Common.parse buf
  t ← Common.packet_type hdr
  parse_as buf t
