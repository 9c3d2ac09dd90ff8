-- ===== src/Codec/Dense/Bulk.antt =====
-- The bulk routines with the scalar kernel, byte by byte, the same for both fields.
use delp.Prelude.{
  ℕ, zero, suc, ◌*◌, ◌/◌, ◌%◌, ◌<◌, ◌≡◌, refl, sym, ap, ap₂, ◌∙◌, bit_and, bit_or, bit_xor, List,
  [], ◌∷◌, map, get_or, length, u8, replicate, arith, IsBytes, or_fields, and_mask, ◌==◌,
  Bool-cases, inl, inr,
}
use delp.Error.{ok}
use delp.Config.{Field}
use delp.Gf.Gf2_4
use delp.Gf.Gf2_8
use delp.Gf.Laws.{gf2_4-IsField}
use delp.Gf.Simd.{
  scalar, scalar_mul_scale, nibble_entry, for_gf2_4, broadcast, mul_acc_gf2_8_reference,
  mul_acc_gf2_4_reference, mul_scale_gf2_4, mul_scale_gf2_8_reference,
}
use delp.Gf.Simd.Laws.{
  mul_acc_gf2_8-reference, mul_acc_gf2_4-reference, mul_scale_gf2_8-reference, nibble_entry-mul_4,
}
use delp.Gf.Action.{order, act}
use delp.Gf.Action.Laws.{act-zero, zero-act}
use delp.Codec.Dense.{mul_acc, mul_scale}

-- Every entry, also the zeros beyond the end.
abbrev pub Below : ℕ → List ℕ → Type 0
Below n bs = (j : ℕ) → get_or bs j 0 < n

pub Below-IsBytes : (bs : List ℕ) → Below 256 bs → IsBytes bs
Below-IsBytes [] h = tt
Below-IsBytes (b ∷ bs) h = (h 0, Below-IsBytes bs (λ j. h (suc j)))

-- `dst` with `c` times `src` added.
abbrev acc : Field → List ℕ → List ℕ → ℕ → List ℕ
acc f [] src c = []
acc f (d ∷ dst) [] c = d ∷ dst
acc f (d ∷ dst) (s ∷ src) c = bit_xor d (act f c s) ∷ acc f dst src c

length-acc : (f : Field) (dst src : List ℕ) (c : ℕ) → length (acc f dst src c) ≡ length dst
length-acc f [] src c = refl
length-acc f (d ∷ dst) [] c = refl
length-acc f (d ∷ dst) (s ∷ src) c = ap suc (length-acc f dst src c)

get_or-acc :
    (f : Field) (dst src : List ℕ) (c j : ℕ)
    → length dst ≡ length src
    → get_or (acc f dst src c) j 0 ≡ bit_xor (get_or dst j 0) (act f c (get_or src j 0))
get_or-acc f [] [] c j e = sym (ap (bit_xor 0) (act-zero f c))
get_or-acc f [] (s ∷ src) c j e = absurd (omega arith)
get_or-acc f (d ∷ dst) [] c j e = absurd (omega arith)
get_or-acc f (d ∷ dst) (s ∷ src) c zero e = refl
get_or-acc f (d ∷ dst) (s ∷ src) c (suc j) e = get_or-acc f dst src c j (omega arith)

-- The two nibbles of a byte, as the reference writes them.
packed_act :
    (c s : ℕ)
    → c < 16
    → s < 256
    → bit_or
        (u8 (Gf2_4.gf2_4_mul_raw (bit_and (s / 16) 0x0f) c * 16))
        (Gf2_4.gf2_4_mul_raw (bit_and s 0x0f) c)
      ≡ act Field.gf2_4 c s
unfolding act
packed_act c s p q =
    let high = gf2_4-IsField.mul-lt (s / 16) c (omega arith) p in
    let low = gf2_4-IsField.mul-lt (s % 16) c (omega arith) p in
    let half : bit_and (s / 16) 0x0f ≡ s / 16 = and_mask 4 (s / 16) ∙ omega arith in
    let fits : u8 (Gf2_4.gf2_4_mul_raw (s / 16) c * 16) ≡ Gf2_4.gf2_4_mul_raw (s / 16) c * 16 =
      omega arith in
    ap₂ (λ (a b : ℕ). bit_or (u8 (Gf2_4.gf2_4_mul_raw a c * 16)) (Gf2_4.gf2_4_mul_raw b c)) half
      (and_mask 4 s)
    ∙ ap (λ (a : ℕ). bit_or a (Gf2_4.gf2_4_mul_raw (s % 16) c)) fits
    ∙ or_fields 4 (Gf2_4.gf2_4_mul_raw (s / 16) c) (Gf2_4.gf2_4_mul_raw (s % 16) c) low

reference_8-acc :
    (dst src : List ℕ) (c : ℕ) → mul_acc_gf2_8_reference dst src c ≡ acc Field.gf2_8 dst src c
unfolding mul_acc_gf2_8_reference act
reference_8-acc [] src c = refl
reference_8-acc (d ∷ dst) [] c = refl
reference_8-acc (d ∷ dst) (s ∷ src) c =
    ap (◌∷◌ (bit_xor d (Gf2_8.gf2_8_mul_raw s c))) (reference_8-acc dst src c)

reference_4-acc :
    (dst src : List ℕ) (c : ℕ)
    → c < 16
    → IsBytes src
    → mul_acc_gf2_4_reference dst src c ≡ acc Field.gf2_4 dst src c
unfolding mul_acc_gf2_4_reference
reference_4-acc [] src c p q = refl
reference_4-acc (d ∷ dst) [] c p q = refl
reference_4-acc (d ∷ dst) (s ∷ src) c p q =
    let masked : bit_and c 0x0f ≡ c = and_mask 4 c ∙ omega arith in
    ap₂ ◌∷◌
      (ap (bit_xor d) (
        ap
          (λ (t : ℕ).
            bit_or (u8 (Gf2_4.gf2_4_mul_raw (bit_and (s / 16) 0x0f) t * 16))
              (Gf2_4.gf2_4_mul_raw (bit_and s 0x0f) t))
          masked
        ∙ packed_act c s p q.0))
      (reference_4-acc dst src c p q.1)

mul_acc-acc :
    (f : Field) (dst src : List ℕ) (c : ℕ)
    → c < order f
    → IsBytes src
    → length dst ≡ length src
    → mul_acc scalar f dst src c ≡ ok (acc f dst src c)
unfolding mul_acc
mul_acc-acc Field.gf2_8 dst src c p q e =
    mul_acc_gf2_8-reference dst src c p q ∙ ground (arith, reference_8-acc dst src c)
mul_acc-acc Field.gf2_4 dst src c p q e =
    mul_acc_gf2_4-reference dst src c q ∙ ground (arith, reference_4-acc dst src c p q)

-- On buffers of one length `mul_acc` adds the product at every place.
pub mul_acc-entries :
    (f : Field) (dst src : List ℕ) (c : ℕ)
    → c < order f
    → Below 256 src
    → length dst ≡ length src
    → (r : List ℕ) × (mul_acc scalar f dst src c ≡ ok r)
      × (length r ≡ length dst)
      × ((j : ℕ) → get_or r j 0 ≡ bit_xor (get_or dst j 0) (act f c (get_or src j 0)))
mul_acc-entries f dst src c p q e = (
  acc f dst src c,
  mul_acc-acc f dst src c p (Below-IsBytes src q) e,
  length-acc f dst src c,
  λ j. get_or-acc f dst src c j e,
)

get_or-map : (g : ℕ → ℕ) (bs : List ℕ) (j : ℕ) → g 0 ≡ 0 → get_or (map g bs) j 0 ≡ g (get_or bs j 0)
get_or-map g [] j e = sym e
get_or-map g (b ∷ bs) zero e = refl
get_or-map g (b ∷ bs) (suc j) e = get_or-map g bs j e

length-map_act : (g : ℕ → ℕ) (bs : List ℕ) → length (map g bs) ≡ length bs
length-map_act g [] = refl
length-map_act g (b ∷ bs) = ap suc (length-map_act g bs)

-- `map` over equal functions on the bytes.
map-bytes :
    (g h : ℕ → ℕ) (bs : List ℕ) → IsBytes bs → ((b : ℕ) → b < 256 → g b ≡ h b) → map g bs ≡ map h bs
map-bytes g h [] q e = refl
map-bytes g h (b ∷ bs) q e = ap₂ ◌∷◌ (e b q.0) (map-bytes g h bs q.1 e)

zeros-map : (f : Field) (bs : List ℕ) → IsBytes bs → replicate (length bs) 0 ≡ map (act f 0) bs
zeros-map f [] q = refl
zeros-map f (b ∷ bs) q = ap₂ ◌∷◌ (sym (zero-act f b q.0)) (zeros-map f bs q.1)

mul_scale_4-map :
    (bs : List ℕ) (c : ℕ)
    → c < 16
    → IsBytes bs
    → mul_scale_gf2_4 scalar bs c ≡ map (act Field.gf2_4 c) bs
unfolding mul_scale_gf2_4 scalar_mul_scale
mul_scale_4-map bs c p q =
    let masked : bit_and c 0x0f ≡ c = and_mask 4 c ∙ omega arith in
    let scaled : map (nibble_entry (for_gf2_4 (broadcast c))) bs ≡ map (act Field.gf2_4 c) bs =
      map-bytes (nibble_entry (for_gf2_4 (broadcast c))) (act Field.gf2_4 c) bs q
        (λ b k. nibble_entry-mul_4 c b p k ∙ packed_act c b p k) in
    let none_left : c ≡ 0 → replicate (length bs) 0 ≡ map (act Field.gf2_4 c) bs =
      λ z. zeros-map Field.gf2_4 bs q ∙ ap (λ (t : ℕ). map (act Field.gf2_4 t) bs) (sym z) in
    rw masked
      (elim (Bool-cases (c == 0)) [ inl z ↦ rw z (none_left (ground arith)) | inr z ↦ rw z scaled ])

mul_scale-map :
    (f : Field) (bs : List ℕ) (c : ℕ)
    → c < order f
    → IsBytes bs
    → mul_scale scalar f bs c ≡ map (act f c) bs
unfolding mul_scale
mul_scale-map Field.gf2_8 bs c p q =
    mul_scale_gf2_8-reference bs c p q ∙ unfold mul_scale_gf2_8_reference act in refl
mul_scale-map Field.gf2_4 bs c p q = mul_scale_4-map bs c p q

-- `mul_scale` multiplies every place.
pub mul_scale-entries :
    (f : Field) (bs : List ℕ) (c : ℕ)
    → c < order f
    → Below 256 bs
    → (length (mul_scale scalar f bs c) ≡ length bs)
      × ((j : ℕ) → get_or (mul_scale scalar f bs c) j 0 ≡ act f c (get_or bs j 0))
mul_scale-entries f bs c p q =
    let e = mul_scale-map f bs c p (Below-IsBytes bs q) in
    (
      ap length e ∙ length-map_act (act f c) bs,
      λ j. ap (λ (r : List ℕ). get_or r j 0) e ∙ get_or-map (act f c) bs j (act-zero f c),
    )
