-- ===== src/Wire/Ev/IdStorage.antt =====
-- src/wire/ev/id_storage.rs: the four formats of the source IDs in an encoding vector. The format
-- `None` is `implicit` here.
pub mod RoundTrip
use delp.Prelude.{
  ℕ, zero, suc, ◌+◌, ◌-◌, ◌*◌, ◌%◌, ◌^◌, bit_and, Bool, true, false, ◌&&◌, List, [], ◌∷◌, ◌++◌, ltb,
  leb, ◌==◌, if◌then◌else◌, length, take, u32, usize, wrapping_sub, to_be_bytes,
}
use delp.Error.{
  Result, ok, err, panic, ◌>>=◌, ◌>>◌, malformed_encoding_vector, compressed_list_too_short,
  uncompressed_edges_truncated, compressed_edges_truncated,
}
use delp.Wire.Slice.{read_u32}
use delp.Wire.Ev.BitField.{
  BitWriter, new_writer, write_bits, finish, BitReader, new_reader, read_bits, bytes_consumed,
  remaining_bits,
}

pub data IdStorageFormat : Type 0 where
  implicit uncompressed_edges compressed_list compressed_edges : IdStorageFormat

-- The mask leaves four values, so the source's last arm is not reached.
unfoldable pub from_wire : ℕ → Result IdStorageFormat
from_wire v =
    let masked = bit_and v 0x3 in
    if masked == 0
    then ok implicit
    else if masked == 1
    then ok uncompressed_edges
    else if masked == 2
    then ok compressed_list
    else if masked == 3
    then ok compressed_edges
    else panic

unfoldable pub wire_value : IdStorageFormat → ℕ
wire_value implicit = 0
wire_value uncompressed_edges = 1
wire_value compressed_list = 2
wire_value compressed_edges = 3

unfoldable pub is_contiguous : List ℕ → Bool
is_contiguous [] = true
is_contiguous (a ∷ []) = true
is_contiguous (a ∷ b ∷ ids) = (b == u32 (a + 1)) && is_contiguous (b ∷ ids)

unfoldable pub best_for : List ℕ → IdStorageFormat
best_for [] = implicit
best_for (id ∷ ids) = if is_contiguous (id ∷ ids) then implicit else compressed_list

-- The loop of `to_blocks` with the open block's start and the previous ID.
unfoldable pub blocks_from : ℕ → ℕ → List ℕ → List (ℕ × ℕ)
blocks_from start prev [] = (start, u32 (prev + 1)) ∷ []
blocks_from start prev (id ∷ ids) =
    if id == u32 (prev + 1)
    then blocks_from start id ids
    else (start, u32 (prev + 1)) ∷ blocks_from id id ids

unfoldable pub to_blocks : List ℕ → List (ℕ × ℕ)
to_blocks [] = []
to_blocks (id ∷ ids) = blocks_from id id ids

unfoldable pub write_deltas : BitWriter → ℕ → List ℕ → BitWriter
write_deltas w prev [] = w
write_deltas w prev (id ∷ ids) = write_deltas (write_bits w (wrapping_sub id prev) 16) id ids

unfoldable pub encode_compressed_list : List ℕ → Result (List ℕ)
encode_compressed_list [] = panic
encode_compressed_list (id ∷ ids) = ok (finish (write_deltas new_writer id ids))

unfoldable pub edges : ℕ → List (ℕ × ℕ) → List ℕ
edges base [] = []
edges base ((start, end) ∷ blocks) =
    to_be_bytes (wrapping_sub start base)
    ++ (to_be_bytes (wrapping_sub end base) ++ edges base blocks)

unfoldable pub encode_uncompressed_edges : List ℕ → Result (List ℕ)
encode_uncompressed_edges [] = panic
encode_uncompressed_edges (id ∷ ids) = ok (edges id (to_blocks (id ∷ ids)))

unfoldable pub write_edges : BitWriter → ℕ → ℕ → List (ℕ × ℕ) → BitWriter
write_edges w base prev [] = w
write_edges w base prev ((start, end) ∷ blocks) =
    let d_start = wrapping_sub (wrapping_sub start base) prev in
    let d_len = wrapping_sub end start in
    write_edges (write_bits (write_bits w d_start 16) d_len 16) base (wrapping_sub end base) blocks

unfoldable pub encode_compressed_edges : List ℕ → Result (List ℕ)
encode_compressed_edges [] = panic
encode_compressed_edges (id ∷ ids) =
    ok (finish (write_edges new_writer id 0 (to_blocks (id ∷ ids))))

unfoldable pub encode : List ℕ → IdStorageFormat → Result (List ℕ)
encode ids implicit = ok []
encode ids compressed_list = encode_compressed_list ids
encode ids uncompressed_edges = encode_uncompressed_edges ids
encode ids compressed_edges = encode_compressed_edges ids

-- `start..end`, with `count` IDs.
unfoldable pub range : ℕ → ℕ → List ℕ
range start zero = []
range start (suc count) = start ∷ range (start + 1) count

unfoldable pub implicit_ids : ℕ → ℕ → ℕ → List ℕ
implicit_ids first_src_id i zero = []
implicit_ids first_src_id i (suc count) =
    u32 (first_src_id + i) ∷ implicit_ids first_src_id (i + 1) count

unfoldable pub read_deltas : ℕ → ℕ → BitReader → List ℕ × BitReader
read_deltas prev zero r = ([], r)
read_deltas prev (suc rounds) r =
    let (delta, after) = read_bits r 16 in
    let id = u32 (prev + delta) in let (ids, last) = read_deltas id rounds after in (id ∷ ids, last)

unfoldable pub decode_compressed_list : List ℕ → ℕ → ℕ → Result (List ℕ × ℕ)
decode_compressed_list buf nb_ids first_src_id =
    let needed = usize (usize (nb_ids + 2 ^ 64 - 1) * 2) in
    let (ids, last) = read_deltas first_src_id (nb_ids - 1) (new_reader buf) in
    if nb_ids == 1
    then ok (first_src_id ∷ [], 0)
    else if ltb (length buf) needed
    then err (malformed_encoding_vector compressed_list_too_short)
    else ok (first_src_id ∷ ids, bytes_consumed last)

-- The loop on fuel; each round reads 8 bytes.
unfoldable pub read_edges : ℕ → List ℕ → ℕ → ℕ → List ℕ → ℕ → Result (List ℕ × ℕ)
read_edges zero buf nb_ids first_src_id ids off =
    err (malformed_encoding_vector uncompressed_edges_truncated)
read_edges (suc fuel) buf nb_ids first_src_id ids off =
    if leb nb_ids (length ids)
    then ok (take nb_ids ids, off)
    else if ltb (length buf) (off + 8)
    then err (malformed_encoding_vector uncompressed_edges_truncated)
    else do
      start_delta ← read_u32 buf off
      end_delta ← read_u32 buf (off + 4)
      let start = u32 (first_src_id + start_delta)
      let end = u32 (first_src_id + end_delta)
      read_edges fuel buf nb_ids first_src_id (ids ++ range start (end - start)) (off + 8)

unfoldable pub decode_uncompressed_edges : List ℕ → ℕ → ℕ → Result (List ℕ × ℕ)
decode_uncompressed_edges buf nb_ids first_src_id =
    read_edges (suc (length buf)) buf nb_ids first_src_id [] 0

-- The loop on fuel; each round reads 32 bits.
unfoldable pub read_blocks : ℕ → BitReader → ℕ → ℕ → ℕ → List ℕ → Result (List ℕ × ℕ)
read_blocks zero r nb_ids first_src_id position ids =
    err (malformed_encoding_vector compressed_edges_truncated)
read_blocks (suc fuel) r nb_ids first_src_id position ids =
    let (d_start, r1) = read_bits r 16 in
    let (d_len, r2) = read_bits r1 16 in
    let start = u32 (u32 (first_src_id + position) + d_start) in
    let rest =
      read_blocks fuel r2 nb_ids first_src_id (u32 (wrapping_sub start first_src_id + d_len))
        (ids ++ range start (u32 (start + d_len) - start)) in
    if leb nb_ids (length ids)
    then ok (take nb_ids ids, bytes_consumed r)
    else if ltb (remaining_bits r) 32
    then err (malformed_encoding_vector compressed_edges_truncated)
    else rest

unfoldable pub decode_compressed_edges : List ℕ → ℕ → ℕ → Result (List ℕ × ℕ)
decode_compressed_edges buf nb_ids first_src_id =
    read_blocks (suc (length buf)) (new_reader buf) nb_ids first_src_id 0 []

unfoldable pub decode : List ℕ → ℕ → ℕ → IdStorageFormat → Result (List ℕ × ℕ)
decode buf nb_ids first_src_id implicit = ok (implicit_ids first_src_id 0 (u32 nb_ids), 0)
decode buf nb_ids first_src_id compressed_list = decode_compressed_list buf nb_ids first_src_id
decode buf nb_ids first_src_id uncompressed_edges =
    decode_uncompressed_edges buf nb_ids first_src_id
decode buf nb_ids first_src_id compressed_edges = decode_compressed_edges buf nb_ids first_src_id
