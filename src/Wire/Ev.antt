-- ===== src/Wire/Ev.antt =====
-- src/wire/ev/mod.rs: the encoding vector, which says of a coded packet which source symbols it
-- combines and with which coefficients.
pub mod CoefGen
pub mod BitField
pub mod IdStorage
pub mod Nibbles
pub mod Header
pub mod RoundTrip
use delp.Prelude.{
  ℕ, ◌+◌, ◌-◌, ◌*◌, ◌/◌, bit_and, bit_or, Bool, true, false, not, ◌&&◌, List, [], ◌∷◌, ◌++◌, length,
  replicate, ltb, ◌==◌, if◌then◌else◌, u8, to_be_bytes, get_or, Option, none, some, drop,
}
use delp.Error.{
  Result, ok, err, panic, ◌>>=◌, ◌>>◌, ensure, buffer_too_short, encoding_vector_overflow,
  malformed_encoding_vector, invalid_ccgi, coefficient_field_inconsistency,
}
use delp.Config.{Field}
use delp.Wire.Slice.{slice, byte_at, read_u32}
use delp.Wire.Ev.IdStorage.{IdStorageFormat, best_for, wire_value, from_wire, encode, decode}
use delp.Wire.Ev.Nibbles.{pack_nibbles, unpack_nibbles}

pub record EncodingVector : Type 0 where
  pub field : Field
  pub coded_id : ℕ
  pub generation : ℕ
  pub id_format : IdStorageFormat
  pub source_ids : List ℕ
  pub coefficients : List ℕ

unfoldable pub vandermonde : Field → ℕ → List ℕ → EncodingVector
vandermonde field coded_id source_ids = record {
  field = field;
  coded_id = coded_id;
  generation = 0;
  id_format = best_for source_ids;
  source_ids = source_ids;
  coefficients = [];
}

unfoldable pub explicit : Field → ℕ → List ℕ → List ℕ → Result EncodingVector
explicit field coded_id source_ids coefficients =
    if length source_ids == length coefficients
    then ok (record {
      field = field;
      coded_id = coded_id;
      generation = 0;
      id_format = best_for source_ids;
      source_ids = source_ids;
      coefficients = coefficients;
    })
    else panic

unfoldable pub with_generation : EncodingVector → ℕ → EncodingVector
with_generation ev generation = record ev { generation = generation }

-- `!is_empty()`.
abbrev pub is_not_empty : List ℕ → Bool
is_not_empty [] = false
is_not_empty (c ∷ cs) = true

unfoldable pub has_explicit_coefs : EncodingVector → Bool
has_explicit_coefs ev = is_not_empty ev.coefficients

unfoldable pub has_generation : EncodingVector → Bool
has_generation ev = not (ev.generation == 0)

unfoldable pub nb_ids : EncodingVector → ℕ
nb_ids ev = u8 (length ev.source_ids)

unfoldable pub nb_coefs : EncodingVector → ℕ
nb_coefs ev = u8 (length ev.coefficients)

-- `(len + 3) & !3`, the next multiple of four.
unfoldable pub pad32 : ℕ → ℕ
pad32 n = (n + 3) / 4 * 4

-- `resize(pad32(len), 0)`.
unfoldable pub padded : List ℕ → List ℕ
padded bytes = bytes ++ replicate (pad32 (length bytes) - length bytes) 0

unfoldable pub coef_bits : Field → List ℕ → List ℕ
coef_bits Field.gf2_8 coefs = coefs
coef_bits Field.gf2_4 coefs = pack_nibbles coefs

unfoldable pub coef_bytes : EncodingVector → List ℕ
coef_bytes ev = if has_explicit_coefs ev then padded (coef_bits ev.field ev.coefficients) else []

abbrev pub ccgi_bit : Field → ℕ
ccgi_bit Field.gf2_4 = 0
ccgi_bit Field.gf2_8 = 1

abbrev pub bit : Bool → ℕ
bit true = 1
bit false = 0

unfoldable pub flags_byte : EncodingVector → ℕ
flags_byte ev =
    bit_or
      (bit_or (bit_or (u8 (ccgi_bit ev.field * 16)) (u8 (wire_value ev.id_format * 4)))
        (u8 (bit (has_explicit_coefs ev) * 2)))
      (bit (has_generation ev))

abbrev pub first_or_zero : List ℕ → ℕ
first_or_zero [] = 0
first_or_zero (id ∷ ids) = id

unfoldable pub generation_block : EncodingVector → List ℕ
generation_block ev = if has_generation ev then ev.generation ∷ 0 ∷ 0 ∷ 0 ∷ [] else []

-- The vector with its encoded IDs.
unfoldable pub vector_bytes : EncodingVector → List ℕ → List ℕ
vector_bytes ev id_bits =
    let block = if has_generation ev then 4 else 0 in
    let body_len = 8 + block + length id_bits + length (coef_bytes ev) in
    u8 ((body_len + 3) / 4)
    ∷ flags_byte ev
    ∷ nb_ids ev
    ∷ nb_coefs ev
    ∷ (to_be_bytes (first_or_zero ev.source_ids)
        ++ (generation_block ev ++ (id_bits ++ coef_bytes ev)))

unfoldable pub serialise : EncodingVector → Result (List ℕ)
serialise ev = do id_bits ← encode ev.source_ids ev.id_format; ok (vector_bytes ev (padded id_bits))

-- `match ccgi_bit`.
unfoldable pub field_of : ℕ → Result Field
field_of ccgi =
    if ccgi == 0
    then ok Field.gf2_4
    else if ccgi == 1
    then ok Field.gf2_8
    else err (malformed_encoding_vector invalid_ccgi)

-- The generation, and the offset of what follows it.
unfoldable pub read_generation : List ℕ → ℕ → Result (ℕ × ℕ)
read_generation buf g_bit =
    if g_bit == 1
    then (do
      ensure (not (ltb (length buf) 12)) (buffer_too_short 12 (length buf))
      g ← byte_at buf 8
      ok (g, 12))
    else ok (0, 8)

abbrev pub coef_bytes_needed : Field → ℕ → ℕ
coef_bytes_needed Field.gf2_8 nb_coefs = nb_coefs
coef_bytes_needed Field.gf2_4 nb_coefs = (nb_coefs + 1) / 2

abbrev pub coefs_of : Field → List ℕ → ℕ → List ℕ
coefs_of Field.gf2_8 raw nb_coefs = raw
coefs_of Field.gf2_4 raw nb_coefs = unpack_nibbles raw nb_coefs

unfoldable pub read_coefs : List ℕ → Field → ℕ → ℕ → ℕ → Result (List ℕ)
read_coefs buf field c_bit nb_coefs coef_offset =
    let end = coef_offset + coef_bytes_needed field nb_coefs in
    if c_bit == 1
    then (do
      ensure (not (ltb (length buf) end)) (buffer_too_short end (length buf))
      raw ← slice buf coef_offset end
      ok (coefs_of field raw nb_coefs))
    else ok []

unfoldable pub check_coefs : ℕ → ℕ → ℕ → Result (Unit {0})
check_coefs c_bit nb_ids nb_coefs = do
  ensure (not ((c_bit == 0) && not (nb_coefs == 0))) coefficient_field_inconsistency
  ensure (not ((c_bit == 1) && not (nb_coefs == nb_ids))) coefficient_field_inconsistency

unfoldable pub parse : List ℕ → ℕ → Result (EncodingVector × ℕ)
parse buf coded_id = do
  ensure (not (ltb (length buf) 8)) (buffer_too_short 8 (length buf))
  ev_len_words ← byte_at buf 0
  ensure (not (ltb (length buf) (ev_len_words * 4))) (encoding_vector_overflow ev_len_words)
  byte1 ← byte_at buf 1
  field ← field_of (bit_and (byte1 / 16) 0xf)
  nb_ids ← byte_at buf 2
  nb_coefs ← byte_at buf 3
  let c_bit = bit_and (byte1 / 2) 0x1
  check_coefs c_bit nb_ids nb_coefs
  first_src_id ← read_u32 buf 4
  (generation, body_off) ← read_generation buf (bit_and byte1 0x1)
  id_format ← from_wire (bit_and (byte1 / 4) 0x3)
  id_bits ← slice buf body_off (ev_len_words * 4)
  (source_ids, consumed) ← decode id_bits nb_ids first_src_id id_format
  coefficients ← read_coefs buf field c_bit nb_coefs (body_off + pad32 consumed)
  ok (
    record {
      field = field;
      coded_id = coded_id;
      generation = generation;
      id_format = id_format;
      source_ids = source_ids;
      coefficients = coefficients;
    },
    ev_len_words * 4,
  )
