-- ===== src/Wire/Source.antt =====
-- src/wire/source.rs: source packets.
pub mod RoundTrip
pub mod Total
use delp.Prelude.{
  ℕ, ◌+◌, ◌*◌, ◌/◌, ◌%◌, Bool, true, false, Option, none, some, List, [], ◌∷◌, ◌++◌, ◌&&◌, ◌==◌,
  leb, if◌then◌else◌, length, u8, to_be_bytes, ltb, not,
}
use delp.Error.{Result, ok, err, panic, ◌>>=◌, ◌>>◌, ensure, buffer_too_short, unknown_packet_type}
use delp.Wire.Common
use delp.Wire.Common.{CommonHeader, PacketType}
use delp.Wire.Slice.{slice, slice_from, byte_at, read_u32}
use delp.Wire.Layout.{read_tsi, is_some, tsi_bytes}

pub record SourcePacket : Type 0 where
  pub header : CommonHeader
  pub cci : List ℕ
  pub tsi : Option ℕ
  pub source_symbol_id : ℕ
  pub payload : List ℕ

abbrev pub body_min : ℕ
body_min = 4

-- `header.packet_type()? != PacketType::Source`.
abbrev is_source : PacketType → Bool
is_source PacketType.source = true
is_source _ = false

-- The body, after the header has been checked.
unfoldable pub parse_body : List ℕ → CommonHeader → Result SourcePacket
parse_body buf header = do
  ensure (not (ltb (length buf) (Common.body_offset header + body_min)))
      (buffer_too_short (Common.body_offset header + body_min) (length buf))
  let cci_end = Common.header_size + Common.cci_words header * 4
  cci ← slice buf Common.header_size cci_end
  (tsi, id_off) ← read_tsi buf (Common.has_tsi header) cci_end
  source_symbol_id ← read_u32 buf id_off
  payload ← slice_from buf (id_off + 4)
  ok (record {
    header = header;
    cci = cci;
    tsi = tsi;
    source_symbol_id = source_symbol_id;
    payload = payload;
  })

unfoldable pub check_type : List ℕ → PacketType → Result (Unit {0})
check_type buf t =
    if is_source t then ok tt else (do b ← byte_at buf 3; err (unknown_packet_type b))

unfoldable pub parse : List ℕ → Result SourcePacket
parse buf = do
  header ← Common.parse buf
  t ← Common.packet_type header
  check_type buf t
  parse_body buf header

-- The header of `serialise`.
unfoldable pub source_header : List ℕ → Option ℕ → CommonHeader
source_header cci_bytes tsi =
    let words = u8 (length cci_bytes / 4) in
    Common.new PacketType.source (Common.from_words words) (is_some tsi)
      (u8 (u8 (u8 (1 + words) + Common.flag (is_some tsi)) + 1))

unfoldable pub serialise : ℕ → List ℕ → List ℕ → Option ℕ → Result (List ℕ)
serialise source_symbol_id payload cci_bytes tsi =
    if length cci_bytes % 4 == 0 && leb (length cci_bytes) 12
    then ok (
        Common.to_bytes (source_header cci_bytes tsi)
        ++ (cci_bytes ++ (tsi_bytes tsi ++ (to_be_bytes source_symbol_id ++ payload))))
    else panic
