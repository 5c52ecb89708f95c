-- ===== src/Encoding/Base64/RoundTrip.antt =====
-- src/encoding.c: `key_from_base64` after `key_to_base64`.
use wireguard_tools.Encoding.Base64.Block.{decode-encode_sextet, bytes_of_val}
use wireguard_tools.Encoding.Base64.Sextet.{sextets_lem}
use wireguard_tools.Encoding.Base64.{
  encode_sextet, encode_base64, decode_base64, low_byte, encode_from, decode_from, key_to_base64,
  key_from_base64, IsKey,
}
use wireguard_tools.Encoding.Flag.{is_zero_flag}
use wireguard_tools.Prelude.{
  ℕ, zero, suc, ◌+◌, ◌*◌, ◌/◌, ◌%◌, ◌^◌, ◌<◌, bit_or, true, ◌≡◌, refl, arith, shr, u8, [], ◌∷◌,
  Bytes, IsBytes, length, get_or,
}

pub decode-encode_base64 :
    (x y z : ℕ)
    → x < 256
    → y < 256
    → z < 256
    → decode_base64
        (encode_base64 x y z).0
        (encode_base64 x y z).1
        (encode_base64 x y z).2
        (encode_base64 x y z).3
      ≡ (x * 256 + y) * 256 + z
unfolding encode_base64
decode-encode_base64 x y z hx hy hz = rw (sextets_lem x y z hx hy hz) (
    omega (
      arith,
      decode-encode_sextet (x / 4) (x % 4 * 16 + y / 16) (y % 16 * 4 + z / 64) (z % 64)
          (omega arith) (omega arith) (omega arith) (omega arith),
    ))

flag_kept : (v : ℕ) → v < 2 ^ 24 → u8 (bit_or 0 (shr v 31)) ≡ 0
flag_kept v h = let e : shr v 31 ≡ 0 = omega arith in rw e refl

-- The tail is decoded with an `A` in place of the padding, which is what a zero byte encodes to.
decode-encode_tail :
    (x y : ℕ)
    → x < 256
    → y < 256
    → decode_base64 (encode_base64 x y 0).0 (encode_base64 x y 0).1 (encode_base64 x y 0).2 b'A'
      ≡ (x * 256 + y) * 256 + 0
decode-encode_tail x y hx hy =
    let last : (encode_base64 x y 0).3 ≡ b'A' =
      unfold encode_base64 in
      rw (sextets_lem x y 0 hx hy (omega arith)) (unfold encode_sextet in refl) in
    rw last at (decode-encode_base64 x y 0 hx hy (omega arith))

tail_flag :
    (v : ℕ)
    → v < 2 ^ 24
    → low_byte v ≡ 0
    → is_zero_flag (u8 (bit_or 0 (bit_or (shr v 31) (low_byte v)))) ≡ true
unfolding is_zero_flag
tail_flag v h low = let e : shr v 31 ≡ 0 = omega arith in rw (e, low) refl

decode_from-encode_from :
    (n : ℕ) (key : Bytes)
    → length key ≡ 3 * n + 2
    → IsBytes key
    → decode_from n 0 (encode_from n key) ≡ (true, key)
unfolding decode_from encode_from
decode_from-encode_from zero (x ∷ y ∷ []) l (hx, (hy, h)) =
    let (hi, mid, low) = bytes_of_val x y 0 hx hy (omega arith) in
    rw
      (decode-encode_tail x y hx hy, hi, mid, tail_flag ((x * 256 + y) * 256 + 0) (omega arith) low)
      refl
decode_from-encode_from zero [] l h = absurd (omega arith)
decode_from-encode_from zero (x ∷ []) l h = absurd (omega arith)
decode_from-encode_from zero (x ∷ y ∷ z ∷ key) l h = absurd (omega arith)
decode_from-encode_from (suc n) (x ∷ y ∷ z ∷ key) l (hx, (hy, (hz, h))) =
    let (hi, mid, low) = bytes_of_val x y z hx hy hz in
    rw
      (
        decode-encode_base64 x y z hx hy hz,
        hi,
        mid,
        low,
        flag_kept ((x * 256 + y) * 256 + z) (omega arith),
        decode_from-encode_from n key (omega arith) h,
      )
      refl
decode_from-encode_from (suc n) [] l h = absurd (omega arith)
decode_from-encode_from (suc n) (x ∷ []) l h = absurd (omega arith)
decode_from-encode_from (suc n) (x ∷ y ∷ []) l h = absurd (omega arith)

-- The text has four characters for each block and ends in the padding.
pub encode_from_shape :
    (n : ℕ) (key : Bytes)
    → length key ≡ 3 * n + 2
    → (length (encode_from n key) ≡ 4 * n + 4) × (get_or (encode_from n key) (4 * n + 3) 0 ≡ b'=')
unfolding encode_from
encode_from_shape zero (x ∷ y ∷ []) l = (refl, refl)
encode_from_shape zero [] l = absurd (omega arith)
encode_from_shape zero (x ∷ []) l = absurd (omega arith)
encode_from_shape zero (x ∷ y ∷ z ∷ key) l = absurd (omega arith)
encode_from_shape (suc n) (x ∷ y ∷ z ∷ key) l =
    let (len, pad) = encode_from_shape n key (omega arith) in
    let e : 4 * suc n + 3 ≡ suc (suc (suc (suc (4 * n + 3)))) = omega arith in
    (omega (arith, len), rw e pad)
encode_from_shape (suc n) [] l = absurd (omega arith)
encode_from_shape (suc n) (x ∷ []) l = absurd (omega arith)
encode_from_shape (suc n) (x ∷ y ∷ []) l = absurd (omega arith)

-- Every key of 32 bytes is written as 44 characters that `key_from_base64` accepts and reads back
-- as the same key, whatever the destination held before.
pub key_from_base64-key_to_base64 :
    (old key : Bytes) → IsKey key → key_from_base64 old (key_to_base64 key) ≡ (true, key)
unfolding key_from_base64 key_to_base64
key_from_base64-key_to_base64 old key (l, h) =
    let (len, pad) = encode_from_shape 10 key (omega (arith, l)) in
    rw (len, pad) (decode_from-encode_from 10 key (omega (arith, l)) h)
