-- ===== src/Wire/Ev/RoundTrip.antt =====
-- An encoding vector is parsed back from its bytes.
use mathlib.Core.List.{append_assoc}
use delp.Prelude.{
  ℕ, suc, ◌+◌, ◌-◌, ◌*◌, ◌/◌, ◌%◌, ◌^◌, ◌≤◌, ◌<◌, ◌≡◌, refl, sym, ap, ap₂, ◌∙◌, Bool, true, false,
  Bool-cases, ◌⊎◌, inl, inr, List, [], ◌∷◌, ◌++◌, length, replicate, u8, arith, length-append,
  to_be_bytes, le→not-ltb, ◌==◌, if◌then◌else◌,
}
use delp.Error.{ok}
use delp.Config.{Field}
use delp.Wire.Slice.{slice, byte_at, slice_part, u32_part}
use delp.Wire.Ev.{
  EncodingVector, has_explicit_coefs, has_generation, nb_ids, nb_coefs, flags_byte, bit, pad32,
  padded, coef_bits, coef_bytes, coef_bytes_needed, generation_block, vector_bytes, serialise,
  read_generation, read_coefs, check_coefs, parse,
}
use delp.Wire.Ev.IdStorage.{best_for, encode, decode}
use delp.Wire.Ev.IdStorage.RoundTrip.{SmallGaps, decode-best_for, length-encode-best_for}
use delp.Wire.Ev.Header.{
  flags_byte-fields, pad32_bounds, length-padded, FitField, length-coef_bits, coefs_of-coef_bits,
}

-- The vector that `vandermonde` (without coefficients) or `explicit` makes, with its generation.
abbrev pub vector : Field → ℕ → ℕ → List ℕ → List ℕ → EncodingVector
vector field coded_id generation source_ids coefficients = record {
  field = field;
  coded_id = coded_id;
  generation = generation;
  id_format = best_for source_ids;
  source_ids = source_ids;
  coefficients = coefficients;
}

-- No coefficients, or one for each ID.
abbrev pub Counted : ℕ → List ℕ → Type 0
Counted n [] = Unit
Counted n (c ∷ coefs) = length (c ∷ coefs) ≡ n

block-length :
    (ev : EncodingVector) → length (generation_block ev) ≡ (if has_generation ev then 4 else 0)
unfolding generation_block
block-length ev = ground arith

-- The coefficients where a buffer holds them.
read_coefs_part :
    (f : Field) (xs : List ℕ) (coefs zs : List ℕ) (at : ℕ)
    → at ≡ length xs
    → FitField f coefs
    → read_coefs (xs ++ (coef_bits f coefs ++ zs)) f 1 (length coefs) at ≡ ok coefs
unfolding read_coefs
read_coefs_part f xs coefs zs at e fit =
    let bits = coef_bits f coefs in
    let end = at + coef_bytes_needed f (length coefs) in
    let room : end ≤ length (xs ++ (bits ++ zs)) =
      omega
        (arith, length-append xs (bits ++ zs), length-append bits zs, length-coef_bits f coefs) in
    let part =
      slice_part xs bits zs at end e (ap (λ (n : ℕ). at + n) (sym (length-coef_bits f coefs))) in
    rw (le→not-ltb _ _ room, part) (ap ok (coefs_of-coef_bits f coefs fit))

regroup :
    (a b c d e p : List ℕ) → a ++ (b ++ (c ++ ((d ++ e) ++ p))) ≡ ((a ++ b) ++ c) ++ (d ++ (e ++ p))
regroup a b c d e p =
    ap (λ (t : List ℕ). a ++ (b ++ (c ++ t))) (append_assoc d e p)
    ∙ sym (append_assoc a b (c ++ (d ++ (e ++ p))))
    ∙ sym (append_assoc (a ++ b) c (d ++ (e ++ p)))

-- The coefficients behind three parts of a buffer.
read_coefs-coef_bytes :
    (v : EncodingVector) (coefs a b c p : List ℕ) (at : ℕ)
    → v.coefficients ≡ coefs
    → at ≡ length a + length b + length c
    → FitField v.field coefs
    → read_coefs
        (a ++ (b ++ (c ++ (coef_bytes v ++ p))))
        v.field
        (bit (has_explicit_coefs v))
        (length coefs)
        at
      ≡ ok coefs
unfolding has_explicit_coefs coef_bytes padded
read_coefs-coef_bytes v [] a b c p at e k fit = rw e (unfold read_coefs in refl)
read_coefs-coef_bytes v (x ∷ xs) a b c p at e k fit =
    let bits = coef_bits v.field (x ∷ xs) in
    let zeros : List ℕ = replicate (pad32 (length bits) - length bits) 0 in
    let grouped = regroup a b c bits zeros p in
    let place : at ≡ length ((a ++ b) ++ c) =
      omega (arith, length-append (a ++ b) c, length-append a b) in
    rw e (rw grouped (read_coefs_part v.field ((a ++ b) ++ c) (x ∷ xs) (zeros ++ p) at place fit))

check_coefs-Counted :
    (v : EncodingVector) (coefs : List ℕ) (n : ℕ)
    → v.coefficients ≡ coefs
    → Counted n coefs
    → check_coefs (bit (has_explicit_coefs v)) n (length coefs) ≡ ok tt
unfolding check_coefs has_explicit_coefs
check_coefs-Counted v [] n e h = rw e refl
check_coefs-Counted v (x ∷ xs) n e h = rw e (ground arith)

block_bounds : (b : Bool) → ((if b then 4 else 0) % 4 ≡ 0) × ((if b then 4 else 0) ≤ 4)
block_bounds true = (refl, omega arith)
block_bounds false = (refl, omega arith)

coef_bits-short : (f : Field) (coefs : List ℕ) → length (coef_bits f coefs) ≤ length coefs + 1
coef_bits-short Field.gf2_8 coefs = omega (arith, length-coef_bits Field.gf2_8 coefs)
coef_bits-short Field.gf2_4 coefs = omega (arith, length-coef_bits Field.gf2_4 coefs)

coef_bytes-words :
    (v : EncodingVector) (coefs : List ℕ) (n : ℕ)
    → v.coefficients ≡ coefs
    → Counted n coefs
    → (length (coef_bytes v) % 4 ≡ 0) × (length (coef_bytes v) ≤ n + 4)
unfolding coef_bytes has_explicit_coefs
coef_bytes-words v [] n e h = rw e (refl, omega arith)
coef_bytes-words v (x ∷ xs) n e h =
    let bits = coef_bits v.field (x ∷ xs) in
    let (low, high, whole) = pad32_bounds (length bits) in
    let short = coef_bits-short v.field (x ∷ xs) in
    let same = length-padded bits in rw e (omega arith, omega arith)

module _ (f : Field) (coded_id generation id : ℕ) (ids coefs payload : List ℕ) where
  abbrev ev : EncodingVector
  ev = vector f coded_id generation (id ∷ ids) coefs

  -- The first eight bytes, whatever the length byte is.
  abbrev front : ℕ → List ℕ
  front w = w ∷ flags_byte ev ∷ nb_ids ev ∷ nb_coefs ev ∷ to_be_bytes id

  abbrev buffer : ℕ → List ℕ → List ℕ
  buffer w id_bits = front w ++ (generation_block ev ++ (id_bits ++ (coef_bytes ev ++ payload)))

  generation_block-cases :
      ((has_generation ev ≡ false) × (generation_block ev ≡ []) × (generation ≡ 0))
      ⊎ ((has_generation ev ≡ true) × (generation_block ev ≡ generation ∷ 0 ∷ 0 ∷ 0 ∷ []))
  unfolding generation_block has_generation
  generation_block-cases = elim (Bool-cases (generation == 0)) [
    | inl t ↦ inl (ground arith, rw t refl, ground arith)
    | inr t ↦ inr (ground arith, rw t refl)
  ]

  generation_there :
      (w : ℕ) (rest : List ℕ)
      → read_generation (front w ++ (generation ∷ 0 ∷ 0 ∷ 0 ∷ rest)) 1 ≡ ok (generation, 12)
  unfolding read_generation byte_at
  generation_there w rest =
      let long : 12 ≤ length (front w ++ (generation ∷ 0 ∷ 0 ∷ 0 ∷ rest)) = omega arith in
      rw (le→not-ltb _ _ long) refl

  generation_part :
      (w : ℕ) (rest : List ℕ)
      → read_generation (front w ++ (generation_block ev ++ rest)) (bit (has_generation ev))
        ≡ ok (generation, 8 + length (generation_block ev))
  generation_part w rest = elim generation_block-cases [
    | inl (none_set, block, zeroed) ↦
        rw (none_set, block) (unfold read_generation in ap (λ (g : ℕ). ok (g, 8)) (sym zeroed))
    | inr (is_set, block) ↦ rw (is_set, block) (generation_there w rest)
  ]

  body_length :
      (w : ℕ) (id_bits : List ℕ)
      → length (buffer w id_bits)
        ≡ 8
          + (length (generation_block ev)
              + (length id_bits + (length (coef_bytes ev) + length payload)))
  body_length w id_bits = omega (
    arith,
    length-append (front w) (generation_block ev ++ (id_bits ++ (coef_bytes ev ++ payload))),
    length-append (generation_block ev) (id_bits ++ (coef_bytes ev ++ payload)),
    length-append id_bits (coef_bytes ev ++ payload),
    length-append (coef_bytes ev) payload,
  )

  -- The parts of the vector are whole words, and there are fewer than 256 of them.
  words :
      (raw : List ℕ)
      → length raw ≤ 2 * length ids
      → length ids < 255
      → Counted (suc (length ids)) coefs
      → (w : ℕ) × (w * 4
          ≡ 8 + length (generation_block ev) + length (padded raw) + length (coef_bytes ev))
        × (w < 196)
        × (u8 (
              (8
                + (if has_generation ev then 4 else 0)
                + length (padded raw)
                + length (coef_bytes ev)
                + 3)
              / 4)
            ≡ w)
  words raw short few counted =
      let total = 8 + length (generation_block ev) + length (padded raw) + length (coef_bytes ev) in
      let raw_padded = length-padded raw in
      let raw_bounds = pad32_bounds (length raw) in
      let (coef_words, coef_short) = coef_bytes-words ev coefs (suc (length ids)) refl counted in
      let block = block-length ev in
      let (block_words, block_short) = block_bounds (has_generation ev) in
      (total / 4, omega arith, omega arith, rw (sym block) (omega arith))

  coefs_word :
      (cs : List ℕ) → length ids < 255 → Counted (suc (length ids)) cs → u8 (length cs) ≡ length cs
  coefs_word [] few h = refl
  coefs_word (c ∷ cs) few h = omega arith

  body_slice :
      (raw : List ℕ) (w : ℕ)
      → w * 4 ≡ 8 + length (generation_block ev) + length (padded raw) + length (coef_bytes ev)
      → slice (buffer w (padded raw)) (8 + length (generation_block ev)) (w * 4)
        ≡ ok (padded raw ++ coef_bytes ev)
  body_slice raw w total =
      let xs = front w ++ generation_block ev in
      let ys = padded raw ++ coef_bytes ev in
      let grouped : buffer w (padded raw) ≡ xs ++ (ys ++ payload) =
        ap (λ (t : List ℕ). front w ++ (generation_block ev ++ t))
          (sym (append_assoc (padded raw) (coef_bytes ev) payload))
        ∙ sym (append_assoc (front w) (generation_block ev) (ys ++ payload)) in
      ap (λ (t : List ℕ). slice t (8 + length (generation_block ev)) (w * 4)) grouped
      ∙ slice_part xs ys payload (8 + length (generation_block ev)) (w * 4)
          (omega (arith, length-append (front w) (generation_block ev)))
          (omega (arith, length-append (padded raw) (coef_bytes ev)))

  parse-buffer :
      (raw : List ℕ) (w : ℕ)
      → encode (id ∷ ids) (best_for (id ∷ ids)) ≡ ok raw
      → ((pad : List ℕ)
          → decode (raw ++ pad) (suc (length ids)) id (best_for (id ∷ ids))
            ≡ ok (id ∷ ids, length raw))
      → w * 4 ≡ 8 + length (generation_block ev) + length (padded raw) + length (coef_bytes ev)
      → w < 196
      → id < 2 ^ 32
      → length ids < 255
      → Counted (suc (length ids)) coefs
      → FitField f coefs
      → parse (buffer w (padded raw)) coded_id ≡ ok (ev, w * 4)
  unfolding parse byte_at
  parse-buffer raw w written read total small word few counted fit =
      let buf = buffer w (padded raw) in
      let long = body_length w (padded raw) in
      let eight : 8 ≤ length buf = omega arith in
      let whole : w * 4 ≤ length buf = omega arith in
      let (field_read, format_read, coef_bit, generation_bit) = flags_byte-fields ev in
      let ids_counted : nb_ids ev ≡ suc (length ids) = unfold nb_ids in omega arith in
      let coefs_counted : nb_coefs ev ≡ length coefs =
        unfold nb_coefs in coefs_word coefs few counted in
      let id_read =
        u32_part (w ∷ flags_byte ev ∷ nb_ids ev ∷ nb_coefs ev ∷ []) id
          (generation_block ev ++ (padded raw ++ (coef_bytes ev ++ payload))) 4 word refl in
      let generation_read = generation_part w (padded raw ++ (coef_bytes ev ++ payload)) in
      let body_off = 8 + length (generation_block ev) in
      let sliced : slice buf body_off (w * 4) ≡ ok (padded raw ++ coef_bytes ev) =
        body_slice raw w total in
      let zeros : List ℕ = replicate (pad32 (length raw) - length raw) 0 in
      let decoded : decode (padded raw ++ coef_bytes ev) (nb_ids ev) id (best_for (id ∷ ids))
          ≡ ok (id ∷ ids, length raw) =
        ap (λ (n : ℕ). decode (padded raw ++ coef_bytes ev) n id (best_for (id ∷ ids))) ids_counted
        ∙ unfold padded in
          ap (λ (t : List ℕ). decode t (suc (length ids)) id (best_for (id ∷ ids)))
            (append_assoc raw zeros (coef_bytes ev))
          ∙ read (zeros ++ coef_bytes ev) in
      let coefs_read =
        ap
          (λ (n : ℕ).
            read_coefs buf f (bit (has_explicit_coefs ev)) n (body_off + pad32 (length raw)))
          coefs_counted
        ∙ read_coefs-coef_bytes ev coefs (front w) (generation_block ev) (padded raw) payload
            (body_off + pad32 (length raw)) refl (omega (arith, length-padded raw)) fit in
      let checked =
        ap₂ (check_coefs (bit (has_explicit_coefs ev))) ids_counted coefs_counted
        ∙ check_coefs-Counted ev coefs (suc (length ids)) refl counted in
      rw
        (
          le→not-ltb _ _ eight,
          le→not-ltb _ _ whole,
          field_read,
          coef_bit,
          checked,
          id_read,
          generation_bit,
          generation_read,
          format_read,
          sliced,
          decoded,
          coefs_read,
        )
        refl

  read_any :
      (raw pad : List ℕ)
      → encode (id ∷ ids) (best_for (id ∷ ids)) ≡ ok raw
      → id < 2 ^ 32
      → SmallGaps id ids
      → length ids < 255
      → decode (raw ++ pad) (suc (length ids)) id (best_for (id ∷ ids)) ≡ ok (id ∷ ids, length raw)
  read_any raw pad written word gaps few =
      let (bytes, same_written, read) = decode-best_for id ids pad word gaps (omega arith) in
      let both : ok bytes ≡ ok raw = sym same_written ∙ written in
      let same : bytes ≡ raw = cc in rw (← same) read

  -- A vector that `vandermonde` or `explicit` makes of at least one and at most 255 IDs, ascending by
  -- less than 2 ^ 16, with any generation and with coefficients that fit the field, if any:
  -- `serialise` succeeds, and `parse` gives back the vector and the number of its bytes from them,
  -- whatever follows. The bytes are whole words, at least 2 and fewer than 196.
  pub parse_vector-serialise :
      id < 2 ^ 32
      → SmallGaps id ids
      → length ids < 255
      → Counted (suc (length ids)) coefs
      → FitField f coefs
      → (bytes : List ℕ) × (serialise ev ≡ ok bytes)
        × (parse (bytes ++ payload) coded_id ≡ ok (ev, length bytes))
        × (length bytes % 4 ≡ 0)
        × (8 ≤ length bytes)
        × (length bytes / 4 < 196)
  unfolding serialise vector_bytes
  parse_vector-serialise word gaps few counted fit =
      let (raw, written, read) = decode-best_for id ids [] word gaps (omega arith) in
      let reads : (pad : List ℕ)
          → decode (raw ++ pad) (suc (length ids)) id (best_for (id ∷ ids))
            ≡ ok (id ∷ ids, length raw) =
        λ pad. read_any raw pad written word gaps few in
      let short = length-encode-best_for id ids raw written in
      let (w, total, small, written_len) = words raw short few counted in
      let bytes = front w ++ (generation_block ev ++ (padded raw ++ coef_bytes ev)) in
      let whole : length bytes ≡ w * 4 = omega (
        arith,
        length-append (front w) (generation_block ev ++ (padded raw ++ coef_bytes ev)),
        length-append (generation_block ev) (padded raw ++ coef_bytes ev),
        length-append (padded raw) (coef_bytes ev),
      ) in
      let grouped : bytes ++ payload ≡ buffer w (padded raw) =
        ap (λ (t : List ℕ). front w ++ t)
          (append_assoc (generation_block ev) (padded raw ++ coef_bytes ev) payload
            ∙ ap (◌++◌ (generation_block ev))
                (append_assoc (padded raw) (coef_bytes ev) payload)) in
      (
        bytes,
        rw written (rw written_len refl),
        ap (λ (t : List ℕ). parse t coded_id) grouped
            ∙ parse-buffer raw w written reads total small word few counted fit
            ∙ ap (λ (n : ℕ). ok (ev, n)) (sym whole),
        omega arith,
        omega arith,
        omega arith,
      )
