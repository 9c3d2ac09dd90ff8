-- ===== src/Error.antt =====
-- src/error.rs: `DelpError`, and the result of a fallible operation. `panic` is the outcome of a
-- failed `assert!`, of an index or a slice out of range, and of `unwrap` or `expect` on nothing.
-- The `&'static str` of `MalformedEncodingVector` is one constructor for each text of the source.
use delp.Prelude.{ℕ, ◌≡◌, refl, arith, Bool, true, false, Option, none, some}

pub data Reason : Type 0 where
  invalid_ccgi compressed_list_too_short uncompressed_edges_truncated : Reason
  compressed_edges_truncated zero_pivot no_pivot_after_elimination : Reason

pub data DelpError : Type 0 where
  invalid_symbol_size : ℕ → DelpError
  invalid_window_capacity invalid_fec_denom : DelpError
  symbol_size_mismatch : ℕ → ℕ → DelpError
  window_full : ℕ → DelpError
  source_id_exhausted : DelpError
  coded_id_exhausted unrecoverable_gap : ℕ → DelpError
  buffer_too_short : ℕ → ℕ → DelpError
  unsupported_version unknown_packet_type : ℕ → DelpError
  invalid_header_length : ℕ → ℕ → DelpError
  encoding_vector_overflow : ℕ → DelpError
  malformed_encoding_vector : Reason → DelpError
  coefficient_field_inconsistency division_by_zero : DelpError

pub data Result {ℓ} (A : Type ℓ) : Type ℓ where
  ok : A → Result A
  err : DelpError → Result A
  panic : Result A

infixl 5 ◌>>=◌ ◌>>◌
abbrev pub ◌>>=◌ {ℓ κ} : {A : Type ℓ} {B : Type κ} → Result A → (A → Result B) → Result B
ok a >>= f = f a
err e >>= f = err e
panic >>= f = panic

abbrev pub ◌>>◌ {ℓ} : {B : Type ℓ} → Result (Unit {0}) → Result B → Result B
m >> k = m >>= λ _. k

-- `if !test { return Err(e) }`.
abbrev pub ensure : Bool → DelpError → Result (Unit {0})
ensure true e = ok tt
ensure false e = err e

-- `expect` and `unwrap` on an option, and an index into a slice.
abbrev pub expect {ℓ} : {A : Type ℓ} → Option A → Result A
expect none = panic
expect (some a) = ok a

-- The result is a value or an error, not a panic.
abbrev pub NoPanic {ℓ} : {A : Type ℓ} → Result A → Type 0
NoPanic (ok a) = Unit
NoPanic (err e) = Unit
NoPanic panic = ⊥

pub >>=-NoPanic {ℓ κ} :
    {A : Type ℓ} {B : Type κ} (m : Result A) (f : A → Result B)
    → NoPanic m
    → ((a : A) → m ≡ ok a → NoPanic (f a))
    → NoPanic (m >>= f)
>>=-NoPanic (ok a) f h k = k a refl
>>=-NoPanic (err e) f h k = tt
>>=-NoPanic panic f h k = h

-- A result of two steps is that of the second on the value of the first.
pub >>=-ok {ℓ κ} :
    {A : Type ℓ} {B : Type κ} (m : Result A) (f : A → Result B) (b : B)
    → (m >>= f) ≡ ok b
    → (a : A) × (m ≡ ok a) × (f a ≡ ok b)
>>=-ok (ok a) f b e = (a, refl, e)
>>=-ok (err x) f b e = absurd (ground arith)
>>=-ok panic f b e = absurd (ground arith)

-- What is stated of the value of a result, if it has one.
abbrev pub OnOk {ℓ} : {A : Type ℓ} → (A → Type 0) → Result A → Type 0
OnOk P (ok a) = P a
OnOk P (err e) = Unit
OnOk P panic = Unit

pub >>=-OnOk {ℓ κ} :
    {A : Type ℓ} {B : Type κ} (Q : A → Type 0) (P : B → Type 0) (m : Result A) (f : A → Result B)
    → OnOk Q m
    → ((a : A) → Q a → OnOk P (f a))
    → OnOk P (m >>= f)
>>=-OnOk Q P (ok a) f h next = next a h
>>=-OnOk Q P (err e) f h next = tt
>>=-OnOk Q P panic f h next = tt

pub >>=-OnOk_any {ℓ κ} :
    {A : Type ℓ} {B : Type κ} (P : B → Type 0) (m : Result A) (f : A → Result B)
    → ((a : A) → OnOk P (f a))
    → OnOk P (m >>= f)
>>=-OnOk_any P (ok a) f next = next a
>>=-OnOk_any P (err e) f next = tt
>>=-OnOk_any P panic f next = tt

pub OnOk-map {ℓ} :
    {A : Type ℓ} (P Q : A → Type 0) (m : Result A) → OnOk P m → ((a : A) → P a → Q a) → OnOk Q m
OnOk-map P Q (ok a) h next = next a h
OnOk-map P Q (err e) h next = tt
OnOk-map P Q panic h next = tt
