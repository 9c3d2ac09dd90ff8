-- ===== src/Wire/Ev/BitField.antt =====
-- src/wire/ev/id_storage.rs: `BitWriter` and `BitReader`, most significant bit first.
pub mod Words
use delp.Prelude.{
  ℕ, zero, suc, ◌+◌, ◌-◌, ◌*◌, ◌/◌, ◌^◌, bit_and, bit_or, List, [], ◌∷◌, ◌++◌, ltb, leb, ◌==◌,
  if◌then◌else◌, length, get_or, u8, u32, usize,
}

pub record BitWriter : Type 0 where
  pub buf : List ℕ
  pub cur_byte : ℕ
  pub bit_pos : ℕ

abbrev pub new_writer : BitWriter
new_writer = record { buf = []; cur_byte = 0; bit_pos = 0 }

-- One round of `write_bits`.
unfoldable pub write_bit : BitWriter → ℕ → BitWriter
write_bit w bit =
    let cur_byte = bit_or (u8 (w.cur_byte * 2)) bit in
    if w.bit_pos + 1 == 8
    then (record { buf = w.buf ++ cur_byte ∷ []; cur_byte = 0; bit_pos = 0 })
    else (record { buf = w.buf; cur_byte = cur_byte; bit_pos = w.bit_pos + 1 })

-- The bits `nbits - 1` to 0 of the value.
unfoldable pub write_bits : BitWriter → ℕ → ℕ → BitWriter
write_bits w value zero = w
write_bits w value (suc i) = write_bits (write_bit w (bit_and (value / 2 ^ i) 1)) value i

unfoldable pub finish : BitWriter → List ℕ
finish w = if ltb 0 w.bit_pos then w.buf ++ u8 (w.cur_byte * 2 ^ (8 - w.bit_pos)) ∷ [] else w.buf

pub record BitReader : Type 0 where
  pub buf : List ℕ
  pub byte_i : ℕ
  pub bit_pos : ℕ

abbrev pub new_reader : List ℕ → BitReader
new_reader buf = record { buf = buf; byte_i = 0; bit_pos = 0 }

-- `bit_pos += 1`, and to the next byte at 8.
unfoldable pub next_bit : BitReader → BitReader
next_bit r =
    if r.bit_pos + 1 == 8
    then (record { buf = r.buf; byte_i = r.byte_i + 1; bit_pos = 0 })
    else (record { buf = r.buf; byte_i = r.byte_i; bit_pos = r.bit_pos + 1 })

-- The loop of `read_bits` with the value read so far; it breaks at the end of the buffer.
unfoldable pub read_from : ℕ → ℕ → BitReader → ℕ × BitReader
read_from val zero r = (val, r)
read_from val (suc rounds) r =
    let bit = bit_and (get_or r.buf r.byte_i 0 / 2 ^ (7 - r.bit_pos)) 1 in
    let rest = read_from (bit_or (u32 (val * 2)) bit) rounds (next_bit r) in
    if leb (length r.buf) r.byte_i then (val, r) else rest

unfoldable pub read_bits : BitReader → ℕ → ℕ × BitReader
read_bits r nbits = read_from 0 nbits r

unfoldable pub bytes_consumed : BitReader → ℕ
bytes_consumed r = if ltb 0 r.bit_pos then r.byte_i + 1 else r.byte_i

unfoldable pub remaining_bits : BitReader → ℕ
remaining_bits r = usize ((length r.buf - r.byte_i) * 8 + 2 ^ 64 - r.bit_pos)
