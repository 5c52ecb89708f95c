-- ===== src/Encoding/Hex/RoundTrip.antt =====
-- src/encoding.c: `key_from_hex` against `key_to_hex`, both ways.
use wireguard_tools.Bits.{bit_or_shifted, bit_and_ones}
use wireguard_tools.Encoding.Base64.{IsKey}
use wireguard_tools.Encoding.Flag.{is_zero_flag, flag_zero, or_zero}
use wireguard_tools.Encoding.Hex.Nibble.{encode_nibble_lem, decode_nibble_cases}
use wireguard_tools.Encoding.Hex.{
  encode_nibble, key_to_hex, nibble_flag, decode_nibble, decode_pairs, key_from_hex, key_len_hex,
}
use wireguard_tools.Prelude.{
  ℕ, zero, suc, ◌+◌, ◌*◌, ◌/◌, ◌%◌, ◌<◌, bit_or, true, ◌≡◌, inl, inr, refl, arith, u8, [], ◌∷◌, map,
  Bytes, IsBytes, length, ◌==◌, ==_iff, Bool-cases, to_lower,
}

pub length-key_to_hex : (key : Bytes) → length (key_to_hex key) ≡ 2 * length key
unfolding key_to_hex
length-key_to_hex [] = refl
length-key_to_hex (k ∷ key) = omega (arith, length-key_to_hex key)

joined_nibbles : (v w : ℕ) → v < 16 → w < 16 → bit_or (u8 (v * 16)) w ≡ v * 16 + w
joined_nibbles v w hv hw = ground (arith, bit_or_shifted 4 v w)

decode_pairs-key_to_hex :
    (key : Bytes) → IsBytes key → decode_pairs 0 (key_to_hex key) ≡ (true, key)
unfolding key_to_hex decode_pairs is_zero_flag
decode_pairs-key_to_hex [] h = refl
decode_pairs-key_to_hex (k ∷ key) (hk, h) =
    let (_, flag, high) = encode_nibble_lem (k / 16) (omega arith) in
    let (_, flag', low) = encode_nibble_lem (k % 16) (omega arith) in
    let whole : k / 16 * 16 + k % 16 ≡ k = omega arith in
    rw
      (
        bit_and_ones 4 k,
        flag,
        flag',
        high,
        low,
        joined_nibbles (k / 16) (k % 16) (omega arith) (omega arith),
        whole,
        decode_pairs-key_to_hex key h,
      )
      refl

-- Every key is written as 64 hexadecimal characters that `key_from_hex` reads back as the key.
pub key_from_hex-key_to_hex :
    (old key : Bytes) → IsKey key → key_from_hex old (key_to_hex key) ≡ (true, key)
unfolding key_from_hex
key_from_hex-key_to_hex old key (l, h) =
    rw (length-key_to_hex key, l) (decode_pairs-key_to_hex key h)

-- What a successful run over `n` pairs shows.
record Spelled (n ret : ℕ) (text : Bytes) : Type 0 where
  flag : ret ≡ 0
  len : length (decode_pairs ret text).1 ≡ n
  bytes : IsBytes (decode_pairs ret text).1
  spelled : key_to_hex (decode_pairs ret text).1 ≡ map to_lower text

nibble_flag-lt : (c : ℕ) → c < 256 → nibble_flag c < 256
nibble_flag-lt c h = elim (decode_nibble_cases c h) [
  | inl x ↦ omega arith
  | inr x ↦ omega (arith, x.0)
]

nibble_good :
    (c : ℕ)
    → c < 256
    → nibble_flag c ≡ 0
    → (decode_nibble c < 16) × (encode_nibble (decode_nibble c) ≡ to_lower c)
nibble_good c h e = elim (decode_nibble_cases c h) [
  | inl bad ↦ absurd (omega arith)
  | inr x ↦ (x.1, x.2)
]

pair-Spelled :
    (n ret c d : ℕ) (text : Bytes)
    → ret < 256
    → c < 256
    → d < 256
    → Spelled n (u8 (bit_or (u8 (bit_or ret (nibble_flag c))) (nibble_flag d))) text
    → Spelled (suc n) ret (c ∷ d ∷ text)
unfolding decode_pairs key_to_hex
pair-Spelled n ret c d text hr hc hd k =
    let (inner, d0) =
      or_zero (u8 (bit_or ret (nibble_flag c))) (nibble_flag d) (omega arith) (nibble_flag-lt d hd)
        k.flag in
    let (r0, c0) = or_zero ret (nibble_flag c) hr (nibble_flag-lt c hc) inner in
    let (c_lt, c_char) = nibble_good c hc c0 in
    let (d_lt, d_char) = nibble_good d hd d0 in
    let v = decode_nibble c in
    let w = decode_nibble d in
    let byte = joined_nibbles v w c_lt d_lt in
    let high : (v * 16 + w) / 16 ≡ v = omega arith in
    let low : (v * 16 + w) % 16 ≡ w = omega arith in
    record {
      flag = r0;
      len = omega (arith, k.len);
      bytes = (rw byte (omega arith), k.bytes);
      spelled = rw (byte, bit_and_ones 4 (v * 16 + w), high, low, c_char, d_char, k.spelled) refl;
    }

decode_pairs-Spelled :
    (n ret : ℕ) (text : Bytes)
    → ret < 256
    → IsBytes text
    → length text ≡ 2 * n
    → (decode_pairs ret text).0 ≡ true
    → Spelled n ret text
decode_pairs-Spelled zero ret [] hr h l good = record {
  flag = flag_zero ret hr (unfold decode_pairs in good);
  len = unfold decode_pairs in refl;
  bytes = unfold decode_pairs in tt;
  spelled = unfold decode_pairs key_to_hex in refl;
}
decode_pairs-Spelled (suc n) ret (c ∷ d ∷ text) hr (hc, (hd, h)) l good =
    pair-Spelled n ret c d text hr hc hd
      (decode_pairs-Spelled n _ text (omega arith) h (omega arith) (unfold decode_pairs in good))
decode_pairs-Spelled n ret _ hr h l good = absurd (omega arith)

-- For texts of bytes: a text is accepted only if it has 64 characters and is, but for the case of
-- its letters, the spelling by `key_to_hex` of the 32 bytes that are read from it.
pub key_from_hex_canonical :
    (old text : Bytes)
    → IsBytes text
    → (key_from_hex old text).0 ≡ true
    → IsKey (key_from_hex old text).1 × (key_to_hex (key_from_hex old text).1 ≡ map to_lower text)
unfolding key_from_hex
key_from_hex_canonical old text h good = elim (Bool-cases (length text == key_len_hex)) [
  | inr bad ↦ absurd (ground arith)
  | inl len ↦
      let k =
        decode_pairs-Spelled 32 0 text (omega arith) h ((==_iff _ _).0 len) (rw len at good) in
      rw len ((k.len, k.bytes), k.spelled)
]
