-- ===== src/Wire/Ev/BitField/Words.antt =====
-- A 16-bit value written at a byte boundary is two bytes, and is read back from them.
use mathlib.Core.List.{append_assoc}
use delp.Prelude.{
  ℕ, suc, ◌+◌, ◌-◌, ◌*◌, ◌/◌, ◌%◌, ◌^◌, ◌<◌, ◌≡◌, refl, ap, ap₂, ◌∙◌, bit_or, List, [], ◌∷◌, ◌++◌,
  length, get_or, u8, u32, arith, and_mask, or_fields,
}
use delp.Wire.Ev.BitField.{
  BitWriter, write_bit, write_bits, BitReader, next_bit, read_from, read_bits,
}

abbrev pub writer : List ℕ → ℕ → ℕ → BitWriter
writer buf cur_byte bit_pos = record { buf = buf; cur_byte = cur_byte; bit_pos = bit_pos }

abbrev pub reader : List ℕ → ℕ → ℕ → BitReader
reader buf byte_i bit_pos = record { buf = buf; byte_i = byte_i; bit_pos = bit_pos }

or_bit : (c bit : ℕ) → bit < 2 → bit_or (c * 2) bit ≡ c * 2 + bit
or_bit c bit h = or_fields 1 c bit h

-- One bit into a byte that stays open, and the bit that completes one.
write_round :
    (buf : List ℕ) (c next k v i : ℕ)
    → c < 128
    → k < 7
    → c * 2 + v / 2 ^ i % 2 ≡ next
    → write_bits (writer buf c k) v (suc i) ≡ write_bits (writer buf next (suc k)) v i
unfolding write_bits write_bit
write_round buf c next k v i h open_byte e =
    let small : u8 (c * 2) ≡ c * 2 = omega arith in
    let bit = and_mask 1 (v / 2 ^ i) in
    let joined = or_bit c (v / 2 ^ i % 2) (omega arith) in rw (bit, small, joined, e) (ground arith)

write_last :
    (buf : List ℕ) (c next v i : ℕ)
    → c < 128
    → c * 2 + v / 2 ^ i % 2 ≡ next
    → write_bits (writer buf c 7) v (suc i) ≡ write_bits (writer (buf ++ next ∷ []) 0 0) v i
unfolding write_bits write_bit
write_last buf c next v i h e =
    let small : u8 (c * 2) ≡ c * 2 = omega arith in
    let bit = and_mask 1 (v / 2 ^ i) in
    let joined = or_bit c (v / 2 ^ i % 2) (omega arith) in rw (bit, small, joined, e) refl

next_bit-reader :
    (buf : List ℕ) (at k : ℕ) → k < 7 → next_bit (reader buf at k) ≡ reader buf at (suc k)
unfolding next_bit
next_bit-reader buf at k h = let same : k + 1 ≡ suc k = omega arith in rw same (ground arith)

read_round :
    (buf : List ℕ) (at k val next n : ℕ)
    → at < length buf
    → k < 7
    → val < 2 ^ 31
    → val * 2 + get_or buf at 0 / 2 ^ (7 - k) % 2 ≡ next
    → read_from val (suc n) (reader buf at k) ≡ read_from next n (reader buf at (suc k))
unfolding read_from
read_round buf at k val next n inside open_byte h e =
    let small : u32 (val * 2) ≡ val * 2 = omega arith in
    let bit = and_mask 1 (get_or buf at 0 / 2 ^ (7 - k)) in
    let joined = or_bit val (get_or buf at 0 / 2 ^ (7 - k) % 2) (omega arith) in
    rw (bit, small, joined, e, next_bit-reader buf at k open_byte) (ground arith)

read_last :
    (buf : List ℕ) (at val next n : ℕ)
    → at < length buf
    → val < 2 ^ 31
    → val * 2 + get_or buf at 0 / 1 % 2 ≡ next
    → read_from val (suc n) (reader buf at 7) ≡ read_from next n (reader buf (at + 1) 0)
unfolding read_from next_bit
read_last buf at val next n inside h e =
    let small : u32 (val * 2) ≡ val * 2 = omega arith in
    let bit = and_mask 1 (get_or buf at 0 / 1) in
    let joined = or_bit val (get_or buf at 0 / 1 % 2) (omega arith) in
    rw (bit, small, joined, e) (ground arith)

-- The eight bits from bit 15 on, and those from bit 7 on.
write_high :
    (buf : List ℕ) (v : ℕ)
    → write_bits (writer buf 0 0) v 16
      ≡ write_bits (writer (buf ++ (v / 2 ^ 8 % 2 ^ 8) ∷ []) 0 0) v 8
write_high buf v =
    write_round buf 0 (v / 2 ^ 15 % 2 ^ 1) 0 v 15 (omega arith) (omega arith) (omega arith)
    ∙ write_round buf (v / 2 ^ 15 % 2 ^ 1) (v / 2 ^ 14 % 2 ^ 2) 1 v 14 (omega arith) (omega arith)
        (omega arith)
    ∙ write_round buf (v / 2 ^ 14 % 2 ^ 2) (v / 2 ^ 13 % 2 ^ 3) 2 v 13 (omega arith) (omega arith)
        (omega arith)
    ∙ write_round buf (v / 2 ^ 13 % 2 ^ 3) (v / 2 ^ 12 % 2 ^ 4) 3 v 12 (omega arith) (omega arith)
        (omega arith)
    ∙ write_round buf (v / 2 ^ 12 % 2 ^ 4) (v / 2 ^ 11 % 2 ^ 5) 4 v 11 (omega arith) (omega arith)
        (omega arith)
    ∙ write_round buf (v / 2 ^ 11 % 2 ^ 5) (v / 2 ^ 10 % 2 ^ 6) 5 v 10 (omega arith) (omega arith)
        (omega arith)
    ∙ write_round buf (v / 2 ^ 10 % 2 ^ 6) (v / 2 ^ 9 % 2 ^ 7) 6 v 9 (omega arith) (omega arith)
        (omega arith)
    ∙ write_last buf (v / 2 ^ 9 % 2 ^ 7) (v / 2 ^ 8 % 2 ^ 8) v 8 (omega arith) (omega arith)

write_low :
    (buf : List ℕ) (v : ℕ)
    → write_bits (writer buf 0 0) v 8
      ≡ write_bits (writer (buf ++ (v / 2 ^ 0 % 2 ^ 8) ∷ []) 0 0) v 0
write_low buf v =
    write_round buf 0 (v / 2 ^ 7 % 2 ^ 1) 0 v 7 (omega arith) (omega arith) (omega arith)
    ∙ write_round buf (v / 2 ^ 7 % 2 ^ 1) (v / 2 ^ 6 % 2 ^ 2) 1 v 6 (omega arith) (omega arith)
        (omega arith)
    ∙ write_round buf (v / 2 ^ 6 % 2 ^ 2) (v / 2 ^ 5 % 2 ^ 3) 2 v 5 (omega arith) (omega arith)
        (omega arith)
    ∙ write_round buf (v / 2 ^ 5 % 2 ^ 3) (v / 2 ^ 4 % 2 ^ 4) 3 v 4 (omega arith) (omega arith)
        (omega arith)
    ∙ write_round buf (v / 2 ^ 4 % 2 ^ 4) (v / 2 ^ 3 % 2 ^ 5) 4 v 3 (omega arith) (omega arith)
        (omega arith)
    ∙ write_round buf (v / 2 ^ 3 % 2 ^ 5) (v / 2 ^ 2 % 2 ^ 6) 5 v 2 (omega arith) (omega arith)
        (omega arith)
    ∙ write_round buf (v / 2 ^ 2 % 2 ^ 6) (v / 2 ^ 1 % 2 ^ 7) 6 v 1 (omega arith) (omega arith)
        (omega arith)
    ∙ write_last buf (v / 2 ^ 1 % 2 ^ 7) (v / 2 ^ 0 % 2 ^ 8) v 0 (omega arith) (omega arith)

read_byte :
    (buf : List ℕ) (at val n : ℕ)
    → at < length buf
    → get_or buf at 0 < 256
    → val < 2 ^ 16
    → read_from val (suc (suc (suc (suc (suc (suc (suc (suc n)))))))) (reader buf at 0)
      ≡ read_from (val * 2 ^ 8 + get_or buf at 0) n (reader buf (at + 1) 0)
read_byte buf at val n inside byte small =
    read_round buf at 0 val (val * 2 ^ 1 + get_or buf at 0 / 2 ^ 7)
      (suc (suc (suc (suc (suc (suc (suc n))))))) inside (omega arith) (omega arith) (omega arith)
    ∙ read_round buf at 1 (val * 2 ^ 1 + get_or buf at 0 / 2 ^ 7)
        (val * 2 ^ 2 + get_or buf at 0 / 2 ^ 6) (suc (suc (suc (suc (suc (suc n)))))) inside
        (omega arith) (omega arith) (omega arith)
    ∙ read_round buf at 2 (val * 2 ^ 2 + get_or buf at 0 / 2 ^ 6)
        (val * 2 ^ 3 + get_or buf at 0 / 2 ^ 5) (suc (suc (suc (suc (suc n))))) inside (omega arith)
        (omega arith) (omega arith)
    ∙ read_round buf at 3 (val * 2 ^ 3 + get_or buf at 0 / 2 ^ 5)
        (val * 2 ^ 4 + get_or buf at 0 / 2 ^ 4) (suc (suc (suc (suc n)))) inside (omega arith)
        (omega arith) (omega arith)
    ∙ read_round buf at 4 (val * 2 ^ 4 + get_or buf at 0 / 2 ^ 4)
        (val * 2 ^ 5 + get_or buf at 0 / 2 ^ 3) (suc (suc (suc n))) inside (omega arith)
        (omega arith) (omega arith)
    ∙ read_round buf at 5 (val * 2 ^ 5 + get_or buf at 0 / 2 ^ 3)
        (val * 2 ^ 6 + get_or buf at 0 / 2 ^ 2) (suc (suc n)) inside (omega arith) (omega arith)
        (omega arith)
    ∙ read_round buf at 6 (val * 2 ^ 6 + get_or buf at 0 / 2 ^ 2)
        (val * 2 ^ 7 + get_or buf at 0 / 2 ^ 1) (suc n) inside (omega arith) (omega arith)
        (omega arith)
    ∙ read_last buf at (val * 2 ^ 7 + get_or buf at 0 / 2 ^ 1) (val * 2 ^ 8 + get_or buf at 0) n
        inside (omega arith) (omega arith)

-- Writing a value of 16 bits at a byte boundary appends its two bytes, high byte first.
pub write_bits_word :
    (buf : List ℕ) (v : ℕ)
    → write_bits (writer buf 0 0) v 16 ≡ writer (buf ++ (v / 256 % 256) ∷ (v % 256) ∷ []) 0 0
unfolding write_bits
write_bits_word buf v =
    write_high buf v
    ∙ write_low (buf ++ (v / 256 % 256) ∷ []) v
    ∙ ap (λ b. writer b 0 0)
        (append_assoc buf _ _ ∙ ap (λ x. buf ++ (v / 256 % 256) ∷ x ∷ []) whole)
  where
    whole : v / 1 % 256 ≡ v % 256
    whole = omega arith

-- Reading 16 bits at a byte boundary inside the buffer gives its two bytes as a big-endian number.
pub read_bits_word :
    (buf : List ℕ) (at : ℕ)
    → at + 1 < length buf
    → get_or buf at 0 < 256
    → get_or buf (at + 1) 0 < 256
    → read_bits (reader buf at 0) 16
      ≡ (get_or buf at 0 * 256 + get_or buf (at + 1) 0, reader buf (at + 2) 0)
unfolding read_bits read_from
read_bits_word buf at inside high low =
    read_byte buf at 0 8 (omega arith) high (omega arith)
    ∙ read_byte buf (at + 1) (0 * 2 ^ 8 + get_or buf at 0) 0 inside low (omega arith)
    ∙ ap₂ (λ a b. (a, reader buf b 0)) (omega arith) (omega arith)
