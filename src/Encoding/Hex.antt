-- ===== src/Encoding/Hex.antt =====
-- src/encoding.c: `key_to_hex`, `key_from_hex`, `key_is_zero`.
pub mod Nibble
pub mod RoundTrip
pub mod Zero
use wireguard_tools.Encoding.Flag.{is_zero_flag}
use wireguard_tools.Prelude.{
  ℕ, zero, suc, ◌+◌, ◌*◌, bit_and, bit_or, bit_xor, Bool, true, false, not, List, [], ◌∷◌, ◌==◌,
  if◌then◌else◌, length, Bytes, u8, add32, sub32, shr, sar32, not32,
}

-- `WG_KEY_LEN_HEX - 1`
abbrev pub key_len_hex : ℕ
key_len_hex = 64

-- The character of four bits; the arithmetic is on `unsigned int`.
unfoldable pub encode_nibble : ℕ → ℕ
encode_nibble v = u8 (add32 (add32 87 v) (bit_and (shr (sub32 v 10) 8) (not32 38)))

unfoldable pub key_to_hex : Bytes → Bytes
key_to_hex [] = []
key_to_hex (k ∷ key) = encode_nibble (shr k 4) ∷ encode_nibble (bit_and k 0xf) ∷ key_to_hex key

-- `c_num`, `c_num0`, `c_alpha` and `c_alpha0` of one character.
abbrev c_num : ℕ → ℕ
c_num c = bit_xor c 48

abbrev c_num0 : ℕ → ℕ
c_num0 c = u8 (shr (sub32 (c_num c) 10) 8)

abbrev c_alpha : ℕ → ℕ
c_alpha c = u8 (sub32 (bit_and c (not32 32)) 55)

abbrev c_alpha0 : ℕ → ℕ
c_alpha0 c = u8 (shr (bit_xor (sub32 (c_alpha c) 10) (sub32 (c_alpha c) 16)) 8)

-- What one character adds to the error flag, and its four bits.
unfoldable pub nibble_flag : ℕ → ℕ
nibble_flag c = u8 (sar32 (sub32 (bit_or (c_num0 c) (c_alpha0 c)) 1) 8)

unfoldable pub decode_nibble : ℕ → ℕ
decode_nibble c = bit_or (bit_and (c_num0 c) (c_num c)) (bit_and (c_alpha0 c) (c_alpha c))

-- The loop over pairs of characters, with the error flag so far.
unfoldable pub decode_pairs : ℕ → Bytes → Bool × Bytes
decode_pairs ret (c ∷ d ∷ text) =
    let (good, key) =
      decode_pairs (u8 (bit_or (u8 (bit_or ret (nibble_flag c))) (nibble_flag d))) text in
    (good, bit_or (u8 (decode_nibble c * 16)) (decode_nibble d) ∷ key)
decode_pairs ret _ = (is_zero_flag ret, [])

-- `key_from_hex(key, hex)`, with the bytes that `key` holds before.
unfoldable pub key_from_hex : Bytes → Bytes → Bool × Bytes
key_from_hex key hex = if not (length hex == key_len_hex) then (false, key) else decode_pairs 0 hex

-- `key_is_zero(key)`: the loop over the bytes with `acc` so far.
unfoldable pub is_zero_from : ℕ → Bytes → Bool
is_zero_from acc [] = is_zero_flag acc
is_zero_from acc (k ∷ key) = is_zero_from (u8 (bit_or acc k)) key

unfoldable pub key_is_zero : Bytes → Bool
key_is_zero key = is_zero_from 0 key
