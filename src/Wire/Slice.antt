-- ===== src/Wire/Slice.antt =====
-- Reads of a byte buffer. A slice, an index or a word out of range panics.
use delp.Prelude.{
  ℕ, zero, suc, ◌+◌, ◌-◌, ◌≤◌, ◌<◌, ◌^◌, ◌≡◌, refl, ap, ◌∙◌, List, [], ◌∷◌, ◌++◌, ◌&&◌, leb, length,
  take, drop, get_elem?, some, if◌then◌else◌, arith, length-append, to_be_bytes, from_be_bytes,
  from_be_bytes-to_be_bytes,
}
use delp.Error.{Result, ok, panic, expect}

-- `buf[a..b]`.
unfoldable pub slice : List ℕ → ℕ → ℕ → Result (List ℕ)
slice buf a b = if leb a b && leb b (length buf) then ok (take (b - a) (drop a buf)) else panic

-- `buf[a..]`.
unfoldable pub slice_from : List ℕ → ℕ → Result (List ℕ)
slice_from buf a = if leb a (length buf) then ok (drop a buf) else panic

-- `buf[i]`.
unfoldable pub byte_at : List ℕ → ℕ → Result ℕ
byte_at buf i = expect (get_elem? buf i)

-- `u32::from_be_bytes` of the first four bytes.
unfoldable pub leading_u32 : List ℕ → Result ℕ
leading_u32 (a ∷ b ∷ c ∷ d ∷ rest) = ok (from_be_bytes a b c d)
leading_u32 _ = panic

-- `u32::from_be_bytes(buf[a..a + 4].try_into().unwrap())`.
unfoldable pub read_u32 : List ℕ → ℕ → Result ℕ
unfolding leading_u32
read_u32 buf a = leading_u32 (drop a buf)

module _ {ℓ} {A : Type ℓ} where
  pub drop-append : (xs ys : List A) (n : ℕ) → n ≡ length xs → drop n (xs ++ ys) ≡ ys
  drop-append [] ys zero e = refl
  drop-append [] ys (suc n) e = absurd (omega arith)
  drop-append (x ∷ xs) ys zero e = absurd (omega arith)
  drop-append (x ∷ xs) ys (suc n) e = drop-append xs ys n (omega arith)

  pub take-append : (xs ys : List A) (n : ℕ) → n ≡ length xs → take n (xs ++ ys) ≡ xs
  take-append [] ys zero e = refl
  take-append [] ys (suc n) e = absurd (omega arith)
  take-append (x ∷ xs) ys zero e = absurd (omega arith)
  take-append (x ∷ xs) ys (suc n) e = ap (◌∷◌ x) (take-append xs ys n (omega arith))

  pub get_elem?-append :
      (xs ys : List A) (y : A) (n : ℕ) → n ≡ length xs → get_elem? (xs ++ y ∷ ys) n ≡ some y
  get_elem?-append [] ys y zero e = refl
  get_elem?-append [] ys y (suc n) e = absurd (omega arith)
  get_elem?-append (x ∷ xs) ys y zero e = absurd (omega arith)
  get_elem?-append (x ∷ xs) ys y (suc n) e = get_elem?-append xs ys y n (omega arith)

-- Reads at the place where a part of a known buffer stands.
module _ (xs : List ℕ) where
  pub slice_part :
      (ys zs : List ℕ) (a b : ℕ)
      → a ≡ length xs
      → b ≡ a + length ys
      → slice (xs ++ (ys ++ zs)) a b ≡ ok ys
  unfolding slice
  slice_part ys zs a b e k =
      let whole : length (xs ++ (ys ++ zs)) ≡ length xs + (length ys + length zs) =
        length-append xs (ys ++ zs) ∙ ap (◌+◌ (length xs)) (length-append ys zs) in
      rw (drop-append xs (ys ++ zs) a e, take-append ys zs (b - a) (omega arith)) (ground arith)

  pub slice_from_part : (ys : List ℕ) (a : ℕ) → a ≡ length xs → slice_from (xs ++ ys) a ≡ ok ys
  unfolding slice_from
  slice_from_part ys a e = rw (drop-append xs ys a e) (ground (arith, length-append xs ys))

  pub byte_part : (y : ℕ) (ys : List ℕ) (a : ℕ) → a ≡ length xs → byte_at (xs ++ y ∷ ys) a ≡ ok y
  unfolding byte_at
  byte_part y ys a e = rw (get_elem?-append xs ys y a e) refl

  pub u32_part :
      (v : ℕ) (zs : List ℕ) (a : ℕ)
      → v < 2 ^ 32
      → a ≡ length xs
      → read_u32 (xs ++ (to_be_bytes v ++ zs)) a ≡ ok v
  unfolding read_u32
  u32_part v zs a h e =
      rw (drop-append xs (to_be_bytes v ++ zs) a e) (ap ok (from_be_bytes-to_be_bytes v h))

-- Reads in range do not panic.
pub slice_total :
    (buf : List ℕ) (a b : ℕ)
    → a ≤ b
    → b ≤ length buf
    → slice buf a b ≡ ok (take (b - a) (drop a buf))
unfolding slice
slice_total buf a b p q = ground arith

pub slice_from_total : (buf : List ℕ) (a : ℕ) → a ≤ length buf → slice_from buf a ≡ ok (drop a buf)
unfolding slice_from
slice_from_total buf a p = ground arith

pub byte_total : (buf : List ℕ) (i : ℕ) → i < length buf → (v : ℕ) × (byte_at buf i ≡ ok v)
unfolding byte_at
byte_total [] i h = absurd (omega arith)
byte_total (b ∷ buf) zero h = (b, refl)
byte_total (b ∷ buf) (suc i) h = byte_total buf i (omega arith)

pub u32_total : (buf : List ℕ) (a : ℕ) → a + 4 ≤ length buf → (v : ℕ) × (read_u32 buf a ≡ ok v)
unfolding read_u32
u32_total [] a h = absurd (omega arith)
u32_total (w ∷ x ∷ y ∷ z ∷ buf) zero h = (from_be_bytes w x y z, refl)
u32_total (w ∷ x ∷ y ∷ []) zero h = absurd (omega arith)
u32_total (w ∷ x ∷ []) zero h = absurd (omega arith)
u32_total (w ∷ []) zero h = absurd (omega arith)
u32_total (b ∷ buf) (suc a) h = u32_total buf a (omega arith)
