-- ===== src/Wire/Common.antt =====
-- src/wire/common.rs: the common header.
pub mod Laws
use delp.Prelude.{
  ℕ, ◌+◌, ◌*◌, ◌/◌, ◌%◌, bit_and, bit_or, Bool, true, false, Option, none, some, List, [], ◌∷◌, ltb,
  ◌==◌, if◌then◌else◌, length, u8, not,
}
use delp.Error.{
  Result, ok, err, ◌>>=◌, ◌>>◌, ensure, expect, buffer_too_short, unsupported_version,
  unknown_packet_type, invalid_header_length,
}

pub record CommonHeader : Type 0 where
  pub flags : ℕ
  pub reserved : ℕ
  pub hdr_len_words : ℕ
  pub pkt_type : ℕ

abbrev pub header_size : ℕ
header_size = 4

abbrev pub header_version : ℕ
header_version = 1

pub data PacketType : Type 0 where
  source coded feedback : PacketType

-- `pkt_type as u8`.
abbrev pub packet_type_value : PacketType → ℕ
packet_type_value source = 0x00
packet_type_value coded = 0x01
packet_type_value feedback = 0x02

unfoldable pub packet_type_from_u8 : ℕ → Result PacketType
packet_type_from_u8 v =
    if v == 0x00
    then ok source
    else if v == 0x01
    then ok coded
    else if v == 0x02
    then ok feedback
    else err (unknown_packet_type v)

pub data CciLength : Type 0 where
  zero one two three : CciLength

-- `self as u8`, which `words` returns too.
abbrev pub cci_value : CciLength → ℕ
cci_value zero = 0
cci_value one = 1
cci_value two = 2
cci_value three = 3

unfoldable pub from_words : ℕ → CciLength
from_words w =
    let v = bit_and w 0x3 in
    if v == 0 then zero else if v == 1 then one else if v == 2 then two else three

abbrev pub flag : Bool → ℕ
flag true = 1
flag false = 0

unfoldable pub new : PacketType → CciLength → Bool → ℕ → CommonHeader
new pkt_type cci has_tsi hdr_len_words = record {
  flags =
      bit_or (bit_or (u8 (header_version * 16)) (u8 (cci_value cci * 4))) (u8 (flag has_tsi * 2));
  reserved = 0;
  hdr_len_words = hdr_len_words;
  pkt_type = packet_type_value pkt_type;
}

unfoldable pub to_bytes : CommonHeader → List ℕ
to_bytes h = h.flags ∷ h.reserved ∷ h.hdr_len_words ∷ h.pkt_type ∷ []

unfoldable pub version : CommonHeader → ℕ
version h = h.flags / 16

unfoldable pub cci_words : CommonHeader → ℕ
cci_words h = bit_and (h.flags / 4) 0x3

unfoldable pub has_tsi : CommonHeader → Bool
has_tsi h = bit_and (h.flags / 2) 0x1 == 1

unfoldable pub hdr_len_bytes : CommonHeader → ℕ
hdr_len_bytes h = h.hdr_len_words * 4

unfoldable pub packet_type : CommonHeader → Result PacketType
packet_type h = packet_type_from_u8 h.pkt_type

unfoldable pub cci_length : CommonHeader → CciLength
cci_length h = from_words (cci_words h)

unfoldable pub body_offset : CommonHeader → ℕ
body_offset h = header_size + cci_words h * 4 + (if has_tsi h then 4 else 0)

-- `ref_from_bytes` on the first four bytes: a `repr(C)` struct of four bytes, read in order.
unfoldable pub ref_from_bytes : List ℕ → Option CommonHeader
ref_from_bytes (a ∷ b ∷ c ∷ d ∷ rest) =
    some (record { flags = a; reserved = b; hdr_len_words = c; pkt_type = d })
ref_from_bytes _ = none

-- The checks after the cast.
unfoldable pub check_header : List ℕ → CommonHeader → Result CommonHeader
check_header buf hdr = do
  ensure (version hdr == header_version) (unsupported_version (version hdr))
  ensure (not (ltb (length buf) (hdr_len_bytes hdr)))
      (invalid_header_length hdr.hdr_len_words (length buf))
  ok hdr

unfoldable pub parse : List ℕ → Result CommonHeader
unfolding ref_from_bytes
parse buf =
    if ltb (length buf) header_size
    then err (buffer_too_short header_size (length buf))
    else (do hdr ← expect (ref_from_bytes buf); check_header buf hdr)
