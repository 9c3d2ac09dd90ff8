-- ===== src/Wire/Layout.antt =====
-- What source and coded packets share: the CCI and the optional TSI behind the common header, read
-- and written by the same lines of src/wire/source.rs and src/wire/coded.rs.
use mathlib.Core.List.{append_assoc}
use delp.Prelude.{
  ℕ, zero, suc, ◌+◌, ◌*◌, ◌%◌, ◌^◌, ◌≤◌, ◌<◌, ◌≡◌, refl, sym, ap, ◌∙◌, Bool, true, false, Option,
  none, some, List, [], ◌++◌, length, arith, length-append, to_be_bytes, if◌then◌else◌,
}
use delp.Error.{Result, ok, ◌>>=◌}
use delp.Wire.Common
use delp.Wire.Common.{CommonHeader}
use delp.Wire.Slice.{slice, read_u32, slice_part, u32_part, u32_total}

-- The optional word at `at`, and the offset after it.
unfoldable pub read_tsi : List ℕ → Bool → ℕ → Result (Option ℕ × ℕ)
read_tsi buf true at = do v ← read_u32 buf at; ok (some v, at + 4)
read_tsi buf false at = ok (none, at)

abbrev pub is_some : Option ℕ → Bool
is_some none = false
is_some (some t) = true

abbrev pub tsi_bytes : Option ℕ → List ℕ
tsi_bytes none = []
tsi_bytes (some t) = to_be_bytes t

-- The CCI lengths that a header can announce.
abbrev pub IsCci : List ℕ → Type 0
IsCci cci = (length cci % 4 ≡ 0) × (length cci ≤ 12)

pub cci_value-from_words : (w : ℕ) → w < 4 → Common.cci_value (Common.from_words w) ≡ w
unfolding Common.from_words
cci_value-from_words zero h = refl
cci_value-from_words (suc zero) h = refl
cci_value-from_words (suc (suc zero)) h = refl
cci_value-from_words (suc (suc (suc zero))) h = refl
cci_value-from_words (suc (suc (suc (suc w)))) h = absurd (omega arith)

abbrev pub IsWord : Option ℕ → Type 0
IsWord none = Unit
IsWord (some t) = t < 2 ^ 32

-- `read_tsi` behind any prefix.
pub read_tsi_part :
    (xs : List ℕ) (tsi : Option ℕ) (zs : List ℕ) (at : ℕ)
    → IsWord tsi
    → at ≡ length xs
    → read_tsi (xs ++ (tsi_bytes tsi ++ zs)) (is_some tsi) at
      ≡ ok (tsi, at + length (tsi_bytes tsi))
unfolding read_tsi
read_tsi_part xs none zs at h e = ap (λ (n : ℕ). ok (none, n)) (omega arith)
read_tsi_part xs (some t) zs at h e = rw (u32_part xs t zs at h e) refl

-- A packet with the body `rest`, and the part of it before the body.
abbrev pub packet : CommonHeader → List ℕ → Option ℕ → List ℕ → List ℕ
packet h cci tsi rest = Common.to_bytes h ++ (cci ++ (tsi_bytes tsi ++ rest))

abbrev pub prefix : CommonHeader → List ℕ → Option ℕ → List ℕ
prefix h cci tsi = (Common.to_bytes h ++ cci) ++ tsi_bytes tsi

pub header_length : (h : CommonHeader) → length (Common.to_bytes h) ≡ 4
unfolding Common.to_bytes
header_length h = refl

pub packet-prefix :
    (h : CommonHeader) (cci : List ℕ) (tsi : Option ℕ) (rest : List ℕ)
    → packet h cci tsi rest ≡ prefix h cci tsi ++ rest
packet-prefix h cci tsi rest =
    sym (append_assoc (Common.to_bytes h) cci (tsi_bytes tsi ++ rest))
    ∙ sym (append_assoc (Common.to_bytes h ++ cci) (tsi_bytes tsi) rest)

-- Where the parts stand, for a header that announces them.
module _ (h : CommonHeader) (cci : List ℕ) (tsi : Option ℕ)
    (words : Common.cci_words h * 4 ≡ length cci) (flagged : Common.has_tsi h ≡ is_some tsi) where
  pub cci_part :
      (rest : List ℕ) → slice (packet h cci tsi rest) 4 (4 + Common.cci_words h * 4) ≡ ok cci
  cci_part rest =
      slice_part (Common.to_bytes h) cci (tsi_bytes tsi ++ rest) 4 _ (sym (header_length h))
        (omega arith)

  pub tsi_part :
      (rest : List ℕ)
      → IsWord tsi
      → read_tsi (packet h cci tsi rest) (Common.has_tsi h) (4 + Common.cci_words h * 4)
        ≡ ok (tsi, 4 + Common.cci_words h * 4 + length (tsi_bytes tsi))
  tsi_part rest small =
      rw (flagged, sym (append_assoc (Common.to_bytes h) cci (tsi_bytes tsi ++ rest)))
        (read_tsi_part (Common.to_bytes h ++ cci) tsi rest (4 + Common.cci_words h * 4) small
          (omega (arith, length-append (Common.to_bytes h) cci, header_length h)))

  pub length-prefix :
      length (prefix h cci tsi) ≡ 4 + Common.cci_words h * 4 + length (tsi_bytes tsi)
  length-prefix = omega (
    arith,
    length-append (Common.to_bytes h ++ cci) (tsi_bytes tsi),
    length-append (Common.to_bytes h) cci,
    header_length h,
  )

  pub body_offset-prefix : Common.body_offset h ≡ length (prefix h cci tsi)
  unfolding Common.body_offset
  body_offset-prefix = rw (flagged, length-prefix) (tsi_words tsi)
    where
      tsi_words :
          (t : Option ℕ)
          → 4 + Common.cci_words h * 4 + (if is_some t then 4 else 0)
            ≡ 4 + Common.cci_words h * 4 + length (tsi_bytes t)
      tsi_words none = refl
      tsi_words (some t) = refl

-- Reading the TSI does not panic where the body's offset leaves room, and ends at that offset.
pub read_tsi_total :
    (buf : List ℕ) (h : CommonHeader)
    → Common.body_offset h ≤ length buf
    → (tsi : Option ℕ) × (read_tsi buf (Common.has_tsi h) (4 + Common.cci_words h * 4)
        ≡ ok (tsi, Common.body_offset h))
unfolding Common.body_offset read_tsi
read_tsi_total buf h fits = go (Common.has_tsi h) fits
  where
    go :
        (b : Bool)
        → 4 + Common.cci_words h * 4 + (if b then 4 else 0) ≤ length buf
        → (tsi : Option ℕ) × (read_tsi buf b (4 + Common.cci_words h * 4)
            ≡ ok (tsi, 4 + Common.cci_words h * 4 + (if b then 4 else 0)))
    go true room =
        let (v, e) = u32_total buf (4 + Common.cci_words h * 4) room in (some v, rw e refl)
    go false room = (none, ap (λ (n : ℕ). ok (none, n)) (omega arith))

pub cci-le-body_offset : (h : CommonHeader) → 4 + Common.cci_words h * 4 ≤ Common.body_offset h
unfolding Common.body_offset
cci-le-body_offset h = ground arith
