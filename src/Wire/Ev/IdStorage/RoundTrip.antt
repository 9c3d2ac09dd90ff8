-- ===== src/Wire/Ev/IdStorage/RoundTrip.antt =====
-- The delta-encoded list of source IDs is decoded from its bytes.
use mathlib.Core.List.{append_assoc, append-nil}
use delp.Prelude.{
  ℕ, zero, suc, ◌+◌, ◌-◌, ◌*◌, ◌/◌, ◌%◌, ◌^◌, ◌≤◌, ◌<◌, ◌≡◌, refl, sym, ap, ◌∙◌, List, [], ◌∷◌,
  ◌++◌, Bool-cases, true, inl, inr, length, drop, get_or, arith, length-append, wrapping_sub, u32,
  usize,
}
use delp.Error.{ok}
use delp.Wire.Ev.BitField.{finish, bytes_consumed}
use delp.Wire.Ev.BitField.Words.{writer, reader, write_bits_word, read_bits_word}
use delp.Wire.Ev.IdStorage.{
  IdStorageFormat, best_for, is_contiguous, implicit_ids, encode, decode, write_deltas,
  encode_compressed_list, read_deltas, decode_compressed_list,
}

-- Each ID is at or above the one before it, by less than 2 ^ 16, and is a 32-bit word.
unfoldable pub SmallGaps : ℕ → List ℕ → Type 0
SmallGaps prev [] = Unit
SmallGaps prev (id ∷ ids) = (prev ≤ id) × (id - prev < 65_536) × (id < 2 ^ 32) × SmallGaps id ids

delta_bytes : ℕ → List ℕ → List ℕ
delta_bytes prev [] = []
delta_bytes prev (id ∷ ids) =
    (wrapping_sub id prev / 256 % 256) ∷ (wrapping_sub id prev % 256) ∷ delta_bytes id ids

write_deltas-bytes :
    (buf : List ℕ) (prev : ℕ) (ids : List ℕ)
    → write_deltas (writer buf 0 0) prev ids ≡ writer (buf ++ delta_bytes prev ids) 0 0
unfolding write_deltas delta_bytes
write_deltas-bytes buf prev [] = ap (λ b. writer b 0 0) (sym (append-nil buf))
write_deltas-bytes buf prev (id ∷ ids) =
    let d = wrapping_sub id prev in
    let pair = (d / 256 % 256) ∷ (d % 256) ∷ [] in
    rw (write_bits_word buf d) (
      write_deltas-bytes (buf ++ pair) id ids
      ∙ ap (λ b. writer b 0 0) (append_assoc buf pair (delta_bytes id ids)))

length-delta_bytes : (prev : ℕ) (ids : List ℕ) → length (delta_bytes prev ids) ≡ 2 * length ids
unfolding delta_bytes
length-delta_bytes prev [] = refl
length-delta_bytes prev (id ∷ ids) = omega (arith, length-delta_bytes id ids)

-- What a buffer holds at a place, by what is left of it there.
drop-head :
    (buf : List ℕ) (at x : ℕ) (xs : List ℕ)
    → drop at buf ≡ x ∷ xs
    → (at < length buf) × (get_or buf at 0 ≡ x) × (drop (at + 1) buf ≡ xs)
drop-head [] zero x xs e = absurd (ground arith)
drop-head [] (suc at) x xs e = absurd (ground arith)
drop-head (b ∷ buf) zero x xs e = (omega arith, ground arith, ground arith)
drop-head (b ∷ buf) (suc at) x xs e =
    let (inside, here, rest) = drop-head buf at x xs e in
    let same : suc at + 1 ≡ suc (at + 1) = omega arith in (omega arith, here, rw same rest)

read_deltas-bytes :
    (buf pad : List ℕ) (at prev : ℕ) (ids : List ℕ)
    → prev < 2 ^ 32
    → SmallGaps prev ids
    → drop at buf ≡ delta_bytes prev ids ++ pad
    → read_deltas prev (length ids) (reader buf at 0) ≡ (ids, reader buf (at + 2 * length ids) 0)
unfolding read_deltas delta_bytes SmallGaps
read_deltas-bytes buf pad at prev [] word gaps e = ap (λ i. ([], reader buf i 0)) (omega arith)
read_deltas-bytes buf pad at prev (id ∷ ids) word (above, gap, small, gaps) e =
    let d = wrapping_sub id prev in
    let (inside, high, rest) = drop-head buf at (d / 256 % 256) _ e in
    let (inside_low, low, after) = drop-head buf (at + 1) (d % 256) _ rest in
    let word_read = read_bits_word buf at inside_low (omega arith) (omega arith) in
    let next : at + 1 + 1 ≡ at + 2 = omega arith in
    let sum : u32 (prev + (get_or buf at 0 * 256 + get_or buf (at + 1) 0)) ≡ id = omega arith in
    let ih =
      read_deltas-bytes buf pad (at + 2) id ids small gaps
        (ap (λ i. drop i buf) (sym next) ∙ after) in
    let end_at : at + 2 + 2 * length ids ≡ at + 2 * suc (length ids) = omega arith in
    rw (word_read, sum, ih) (ap (λ i. (id ∷ ids, reader buf i 0)) end_at)

decode-bytes :
    (id : ℕ) (ids pad : List ℕ)
    → id < 2 ^ 32
    → SmallGaps id ids
    → length ids < 2 ^ 62
    → decode_compressed_list (delta_bytes id ids ++ pad) (suc (length ids)) id
      ≡ ok (id ∷ ids, 2 * length ids)
unfolding decode_compressed_list bytes_consumed
decode-bytes id [] pad word gaps short = refl
decode-bytes id (next ∷ ids) pad word gaps short =
    let all = next ∷ ids in
    let bytes = delta_bytes id all in
    let rounds : suc (length all) - 1 ≡ length all = omega arith in
    let needed : usize (usize (suc (length all) + 2 ^ 64 - 1) * 2) ≡ 2 * length all = omega arith in
    let room : 2 * length all ≤ length (bytes ++ pad) =
      omega (arith, length-append bytes pad, length-delta_bytes id all) in
    let read = read_deltas-bytes (bytes ++ pad) pad 0 id all word gaps refl in
    rw (rounds, needed, read) (ground arith)

-- IDs that ascend by less than 2 ^ 16 are decoded from their delta-encoded list, with any padding
-- behind it, and the decoder consumes the bytes that were written.
pub decode-encode :
    (id : ℕ) (ids pad : List ℕ)
    → id < 2 ^ 32
    → SmallGaps id ids
    → length ids < 2 ^ 62
    → (bytes : List ℕ) × (encode (id ∷ ids) IdStorageFormat.compressed_list ≡ ok bytes)
      × (decode (bytes ++ pad) (suc (length ids)) id IdStorageFormat.compressed_list
          ≡ ok (id ∷ ids, length bytes))
unfolding encode encode_compressed_list decode decode_compressed_list finish bytes_consumed
decode-encode id ids pad word gaps short =
    let bytes = delta_bytes id ids in
    (
      bytes,
      ap ok (rw (write_deltas-bytes [] id ids) refl),
      rw (length-delta_bytes id ids) (decode-bytes id ids pad word gaps short),
    )

implicit_ids-contiguous :
    (first i id : ℕ) (ids : List ℕ)
    → id ≡ u32 (first + i)
    → is_contiguous (id ∷ ids) ≡ true
    → implicit_ids first i (suc (length ids)) ≡ id ∷ ids
unfolding implicit_ids is_contiguous
implicit_ids-contiguous first i id [] e h = ap (λ x. x ∷ []) (sym e)
implicit_ids-contiguous first i id (next ∷ ids) e h =
    let (one, rest) : (next ≡ u32 (id + 1)) × (is_contiguous (next ∷ ids) ≡ true) = ground arith in
    rw (sym e) (ap (◌∷◌ id) (implicit_ids-contiguous first (i + 1) next ids (omega arith) rest))

-- The format that `best_for` chooses for IDs that ascend by less than 2 ^ 16 is lossless: `decode`
-- gives back the IDs from the bytes of `encode`, with any padding behind them, and consumes exactly
-- those bytes.
pub decode-best_for :
    (id : ℕ) (ids pad : List ℕ)
    → id < 2 ^ 32
    → SmallGaps id ids
    → length ids + 1 < 2 ^ 32
    → (bytes : List ℕ) × (encode (id ∷ ids) (best_for (id ∷ ids)) ≡ ok bytes)
      × (decode (bytes ++ pad) (suc (length ids)) id (best_for (id ∷ ids))
          ≡ ok (id ∷ ids, length bytes))
unfolding best_for
decode-best_for id ids pad word gaps short = elim (Bool-cases (is_contiguous (id ∷ ids))) [
  | inl t ↦ rw t (
      unfold encode decode in
      (
        [],
        refl,
        rw n_word (ap (λ x. ok (x, 0)) (implicit_ids-contiguous id 0 id ids (omega arith) t)),
      ))
  | inr f ↦
      let (bytes, written, read) = decode-encode id ids pad word gaps (omega arith) in
      rw f (bytes, written, read)
]
  where
    n_word : u32 (suc (length ids)) ≡ suc (length ids)
    n_word = omega arith

-- At most two bytes for each ID but the first one.
pub length-encode-best_for :
    (id : ℕ) (ids bytes : List ℕ)
    → encode (id ∷ ids) (best_for (id ∷ ids)) ≡ ok bytes
    → length bytes ≤ 2 * length ids
unfolding best_for encode encode_compressed_list finish
length-encode-best_for id ids bytes e = elim (Bool-cases (is_contiguous (id ∷ ids))) [
  | inl t ↦
      let chosen : best_for (id ∷ ids) ≡ IdStorageFormat.implicit = rw t refl in
      let none_written : ok [] ≡ ok bytes = sym (ap (encode (id ∷ ids)) chosen) ∙ e in
      let same : [] ≡ bytes = cc in rw (← same) (omega arith)
  | inr f ↦
      let chosen : best_for (id ∷ ids) ≡ IdStorageFormat.compressed_list = rw f refl in
      let deltas : ok (delta_bytes id ids) ≡ ok bytes =
        sym (ap ok (rw (write_deltas-bytes [] id ids) refl))
        ∙ sym (ap (encode (id ∷ ids)) chosen)
        ∙ e in
      let same : delta_bytes id ids ≡ bytes = cc in
      rw (← same) (omega (arith, length-delta_bytes id ids))
]
