-- ===== src/Wire/Ev/Nibbles.antt =====
-- src/wire/ev/mod.rs: GF(2^4) coefficients, two to a byte.
use delp.Prelude.{ℕ, zero, suc, ◌*◌, ◌/◌, bit_and, bit_or, List, [], ◌∷◌, take, u8}

-- `chunks(2)`, with 0 for the partner of a last one.
unfoldable pub pack_nibbles : List ℕ → List ℕ
pack_nibbles [] = []
pack_nibbles (a ∷ []) = bit_or (u8 (bit_and a 0x0f * 16)) (bit_and 0 0x0f) ∷ []
pack_nibbles (a ∷ b ∷ coefs) =
    bit_or (u8 (bit_and a 0x0f * 16)) (bit_and b 0x0f) ∷ pack_nibbles coefs

-- The nibbles of the bytes from the front, as long as `room` of them are asked for.
unfoldable pub push_nibbles : List ℕ → ℕ → List ℕ
push_nibbles [] room = []
push_nibbles (byte ∷ bytes) zero = bit_and (byte / 16) 0x0f ∷ push_nibbles bytes zero
push_nibbles (byte ∷ bytes) (suc zero) = bit_and (byte / 16) 0x0f ∷ push_nibbles bytes zero
push_nibbles (byte ∷ bytes) (suc (suc room)) =
    bit_and (byte / 16) 0x0f ∷ bit_and byte 0x0f ∷ push_nibbles bytes room

unfoldable pub unpack_nibbles : List ℕ → ℕ → List ℕ
unpack_nibbles bytes count = take count (push_nibbles bytes count)
