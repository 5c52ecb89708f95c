-- ===== src/Encoding/Base64.antt =====
-- src/encoding.c: `encode_base64`, `key_to_base64`, `decode_base64`, `key_from_base64`.
-- `int` arithmetic is on 32-bit patterns and `char` is signed. Pointers into the texts are the
-- lists that remain behind them.
pub mod Sextet
pub mod Block
pub mod RoundTrip
pub mod Canonical
use wireguard_tools.Encoding.Flag.{is_zero_flag}
use wireguard_tools.Prelude.{
  ℕ, zero, suc, ◌+◌, ◌-◌, ◌<◌, bit_and, bit_or, Bool, true, false, not, ◌||◌, ◌≡◌, List, [], ◌∷◌,
  ◌==◌, if◌then◌else◌, length, get_or, Bytes, IsBytes, u8, add32, sub32, shr, shl32, sar32,
  char_int,
}

abbrev pub key_len : ℕ
key_len = 32

-- `WG_KEY_LEN_BASE64 - 1`, the characters without the terminating NUL.
abbrev pub key_len_base64 : ℕ
key_len_base64 = 44

abbrev pub IsKey : Bytes → Type 0
IsKey k = (length k ≡ key_len) × IsBytes k

-- The character of one sextet.
unfoldable pub encode_sextet : ℕ → ℕ
encode_sextet v = u8 (
    add32
      (sub32
        (sub32 (add32 (add32 v b'A') (bit_and (sar32 (sub32 25 v) 8) 6))
          (bit_and (sar32 (sub32 51 v) 8) 75))
        (bit_and (sar32 (sub32 61 v) 8) 15))
      (bit_and (sar32 (sub32 62 v) 8) 3))

-- The four sextets of three bytes.
unfoldable pub sextets : ℕ → ℕ → ℕ → ℕ × ℕ × ℕ × ℕ
sextets x y z = (
  bit_and (shr x 2) 63,
  bit_and (bit_or (shl32 x 4) (shr y 4)) 63,
  bit_and (bit_or (shl32 y 2) (shr z 6)) 63,
  bit_and z 63,
)

-- `encode_base64(dest, src)`
unfoldable pub encode_base64 : ℕ → ℕ → ℕ → ℕ × ℕ × ℕ × ℕ
encode_base64 x y z =
    let (p, q, r, s) = sextets x y z in
    (encode_sextet p, encode_sextet q, encode_sextet r, encode_sextet s)

-- The rounds of the loop that are left, then the tail whose last character becomes `=`.
unfoldable pub encode_from : ℕ → Bytes → Bytes
encode_from (suc n) (x ∷ y ∷ z ∷ key) =
    let (a, b, c, d) = encode_base64 x y z in a ∷ b ∷ c ∷ d ∷ encode_from n key
encode_from zero (x ∷ y ∷ key) = let (a, b, c, d) = encode_base64 x y 0 in a ∷ b ∷ c ∷ b'=' ∷ []
encode_from _ _ = []

unfoldable pub key_to_base64 : Bytes → Bytes
key_to_base64 key = encode_from 10 key

-- One term of the sum in `decode_base64`: all ones where `c` lies strictly between `lo` and `hi`.
abbrev between : ℕ → ℕ → ℕ → ℕ
between lo hi c = sar32 (bit_and (sub32 lo c) (sub32 c hi)) 8

-- What one character stands for: its sextet, or -1.
unfoldable pub decode_sextet : ℕ → ℕ
decode_sextet b =
    let c = char_int b in
    add32
      (add32
        (add32
          (add32 (add32 (sub32 0 1) (bit_and (between (b'A' - 1) (b'Z' + 1) c) (sub32 c 64)))
            (bit_and (between (b'a' - 1) (b'z' + 1) c) (sub32 c 70)))
          (bit_and (between (b'0' - 1) (b'9' + 1) c) (add32 c 5)))
        (bit_and (between (b'+' - 1) (b'+' + 1) c) 63))
      (bit_and (between (b'/' - 1) (b'/' + 1) c) 64)

-- `decode_base64(src)`
unfoldable pub decode_base64 : ℕ → ℕ → ℕ → ℕ → ℕ
decode_base64 a b c d =
    bit_or
      (bit_or (bit_or (bit_or 0 (shl32 (decode_sextet a) 18)) (shl32 (decode_sextet b) 12))
        (shl32 (decode_sextet c) 6))
      (shl32 (decode_sextet d) 0)

-- The bytes that a block's value is written back as.
abbrev pub high_byte : ℕ → ℕ
high_byte val = bit_and (sar32 val 16) 0xff

abbrev pub mid_byte : ℕ → ℕ
mid_byte val = bit_and (sar32 val 8) 0xff

abbrev pub low_byte : ℕ → ℕ
low_byte val = bit_and val 0xff

-- The loop over whole blocks and the tail, with the error flag so far. The result is the answer
-- and the key bytes that are written, right or wrong.
unfoldable pub decode_from : ℕ → ℕ → Bytes → Bool × Bytes
decode_from (suc n) ret (a ∷ b ∷ c ∷ d ∷ text) =
    let val = decode_base64 a b c d in
    let (good, key) = decode_from n (u8 (bit_or ret (shr val 31))) text in
    (good, high_byte val ∷ mid_byte val ∷ low_byte val ∷ key)
decode_from zero ret (a ∷ b ∷ c ∷ text) =
    let val = decode_base64 a b c b'A' in
    (
      is_zero_flag (u8 (bit_or ret (bit_or (shr val 31) (low_byte val)))),
      high_byte val ∷ mid_byte val ∷ [],
    )
decode_from _ _ _ = (false, [])

-- `key_from_base64(key, base64)`, with the bytes that `key` holds before. A text of another form
-- leaves them as they are.
unfoldable pub key_from_base64 : Bytes → Bytes → Bool × Bytes
key_from_base64 key text =
    if not (length text == key_len_base64) || not (get_or text (key_len_base64 - 1) 0 == b'=')
    then (false, key)
    else decode_from 10 0 text
