-- ===== src/Encoding/Base64/Canonical.antt =====
-- src/encoding.c: `key_from_base64` accepts no second spelling of a key.
use wireguard_tools.Bits.{bit_or-lt, bit_and_ones}
use wireguard_tools.Encoding.Base64.Block.{IsBlock, decode_base64_cases, bytes_of_val}
use wireguard_tools.Encoding.Base64.RoundTrip.{key_from_base64-key_to_base64}
use wireguard_tools.Encoding.Base64.Sextet.{sextets_lem}
use wireguard_tools.Encoding.Base64.{
  encode_sextet, encode_base64, decode_base64, high_byte, mid_byte, low_byte, encode_from,
  decode_from, key_to_base64, key_from_base64, IsKey, key_len_base64,
}
use wireguard_tools.Encoding.Flag.{flag_zero, or_zero}
use wireguard_tools.Prelude.{
  ℕ, zero, suc, ◌+◌, ◌-◌, ◌*◌, ◌/◌, ◌%◌, ◌^◌, ◌<◌, bit_or, true, ◌≡◌, ◌∙◌, ◌↔◌, inl, inr, refl,
  arith, shr, u8, [], ◌∷◌, Bytes, IsBytes, length, get_or, ◌==◌, ==_iff, Bool-cases,
}

byte_lt : (v : ℕ) → (high_byte v < 256) × (mid_byte v < 256) × (low_byte v < 256)
byte_lt v = omega (arith, bit_and_ones 8)

sign_lt : (v : ℕ) → v < 2 ^ 32 → shr v 31 < 256
sign_lt v h = omega arith

-- The value of four sextets, cut into three bytes, encodes to their characters.
encode_base64-val :
    (p q r s val : ℕ)
    → p < 64
    → q < 64
    → r < 64
    → s < 64
    → val ≡ ((p * 64 + q) * 64 + r) * 64 + s
    → encode_base64 (high_byte val) (mid_byte val) (low_byte val)
      ≡ (encode_sextet p, encode_sextet q, encode_sextet r, encode_sextet s)
unfolding encode_base64
encode_base64-val p q r s val hp hq hr hs e =
    let x = p * 4 + q / 16 in
    let y = q % 16 * 16 + r / 4 in
    let z = r % 4 * 64 + s in
    let v : val ≡ (x * 256 + y) * 256 + z = omega arith in
    let (hi, mid, low) = bytes_of_val x y z (omega arith) (omega arith) (omega arith) in
    let px : x / 4 ≡ p = omega arith in
    let qx : x % 4 * 16 + y / 16 ≡ q = omega arith in
    let rx : y % 16 * 4 + z / 64 ≡ r = omega arith in
    let sx : z % 64 ≡ s = omega arith in
    rw
      (v, hi, mid, low, sextets_lem x y z (omega arith) (omega arith) (omega arith), px, qx, rx, sx)
      refl

encode_base64-IsBlock :
    (a b c d : ℕ)
    → IsBlock a b c d
    → encode_base64
        (high_byte (decode_base64 a b c d))
        (mid_byte (decode_base64 a b c d))
        (low_byte (decode_base64 a b c d))
      ≡ (a, b, c, d)
encode_base64-IsBlock a b c d k =
    encode_base64-val k.p k.q k.r k.s _ k.p_lt k.q_lt k.r_lt k.s_lt k.val_eq
    ∙ rw (k.a_eq, k.b_eq, k.c_eq, k.d_eq) refl

-- What a successful run over a text of `n` blocks and a tail shows.
record Canonical (n ret : ℕ) (text : Bytes) : Type 0 where
  flag : ret ≡ 0
  len : length (decode_from n ret text).1 ≡ 3 * n + 2
  bytes : IsBytes (decode_from n ret text).1
  spelled : encode_from n (decode_from n ret text).1 ≡ text

decode_base64_sign :
    (a b c d : ℕ)
    → a < 256
    → b < 256
    → c < 256
    → d < 256
    → shr (decode_base64 a b c d) 31 ≡ 0
    → IsBlock a b c d
decode_base64_sign a b c d ha hb hc hd e = elim (decode_base64_cases a b c d ha hb hc hd) [
  | inl k ↦ k
  | inr bad ↦ absurd (omega arith)
]

decode_base64-lt :
    (a b c d : ℕ) → a < 256 → b < 256 → c < 256 → d < 256 → shr (decode_base64 a b c d) 31 < 256
decode_base64-lt a b c d ha hb hc hd = elim (decode_base64_cases a b c d ha hb hc hd) [
  | inl k ↦ omega (arith, k.val_eq, k.p_lt, k.q_lt, k.r_lt, k.s_lt)
  | inr bad ↦ omega arith
]

tail-Canonical :
    (ret a b c : ℕ)
    → ret < 256
    → a < 256
    → b < 256
    → c < 256
    → (decode_from zero ret (a ∷ b ∷ c ∷ b'=' ∷ [])).0 ≡ true
    → Canonical zero ret (a ∷ b ∷ c ∷ b'=' ∷ [])
unfolding decode_from encode_from
tail-Canonical ret a b c hr ha hb hc good =
    let val = decode_base64 a b c b'A' in
    let small = decode_base64-lt a b c b'A' ha hb hc (omega arith) in
    let bounds = byte_lt val in
    let (r0, rest0) =
      or_zero ret (bit_or (shr val 31) (low_byte val)) hr (bit_or-lt 8 _ _ small bounds.2)
        (flag_zero _ (omega arith) good) in
    let (sign0, low0) = or_zero (shr val 31) (low_byte val) small bounds.2 (rw rest0 refl) in
    let enc =
      encode_base64-IsBlock a b c b'A'
        (decode_base64_sign a b c b'A' ha hb hc (omega arith) sign0) in
    record {
      flag = r0;
      len = refl;
      bytes = (bounds.0, (bounds.1, tt));
      spelled = rw (rw low0 at enc) refl;
    }

-- One block in front of a canonical text.
step-Canonical :
    (n ret a b c d : ℕ) (text : Bytes)
    → ret < 256
    → a < 256
    → b < 256
    → c < 256
    → d < 256
    → Canonical n (u8 (bit_or ret (shr (decode_base64 a b c d) 31))) text
    → Canonical (suc n) ret (a ∷ b ∷ c ∷ d ∷ text)
unfolding decode_from encode_from
step-Canonical n ret a b c d text hr ha hb hc hd k =
    let val = decode_base64 a b c d in
    let bounds = byte_lt val in
    let (r0, sign0) = or_zero ret (shr val 31) hr (decode_base64-lt a b c d ha hb hc hd) k.flag in
    let enc = encode_base64-IsBlock a b c d (decode_base64_sign a b c d ha hb hc hd sign0) in
    record {
      flag = r0;
      len = omega (arith, k.len);
      bytes = (bounds.0, (bounds.1, (bounds.2, k.bytes)));
      spelled = rw (enc, k.spelled) refl;
    }

decode_from-Canonical :
    (n ret : ℕ) (text : Bytes)
    → ret < 256
    → IsBytes text
    → length text ≡ 4 * n + 4
    → get_or text (4 * n + 3) 0 ≡ b'='
    → (decode_from n ret text).0 ≡ true
    → Canonical n ret text
decode_from-Canonical zero ret (a ∷ b ∷ c ∷ d ∷ []) hr (ha, (hb, (hc, h))) l pad good =
    rw pad (tail-Canonical ret a b c hr ha hb hc (rw pad at good))
decode_from-Canonical (suc n) ret (a ∷ b ∷ c ∷ d ∷ text) hr (ha, (hb, (hc, (hd, h)))) l pad good =
    let e : 4 * suc n + 3 ≡ suc (suc (suc (suc (4 * n + 3)))) = omega arith in
    step-Canonical n ret a b c d text hr ha hb hc hd (
      decode_from-Canonical n _ text (omega arith) h (omega arith) (rw e at pad)
        (unfold decode_from in good))
decode_from-Canonical n ret _ hr h l pad good = absurd (omega arith)

-- For texts of bytes: a text is accepted only if it is the one spelling, by `key_to_base64`, of
-- the 32 bytes that are read from it: 44 characters, padding last, no stray bits in the last
-- sextet.
pub key_from_base64_canonical :
    (old text : Bytes)
    → IsBytes text
    → (key_from_base64 old text).0 ≡ true
    → IsKey (key_from_base64 old text).1 × (key_to_base64 (key_from_base64 old text).1 ≡ text)
unfolding key_from_base64 key_to_base64
key_from_base64_canonical old text h good = elim (Bool-cases (length text == key_len_base64)) [
  | inr bad ↦ absurd (ground arith)
  | inl len ↦ elim (Bool-cases (get_or text (key_len_base64 - 1) 0 == b'=')) [
    | inr bad ↦ absurd (ground arith)
    | inl pad ↦
        let k =
          decode_from-Canonical 10 0 text (omega arith) h ((==_iff _ _).0 len) ((==_iff _ _).0 pad)
            (rw (len, pad) at good) in
        rw (len, pad) ((k.len, k.bytes), k.spelled)
  ]
]

-- Among texts of bytes, the texts that `key_from_base64` accepts are exactly the encodings of
-- keys.
pub key_from_base64_iff :
    (old text : Bytes)
    → IsBytes text
    → ((key_from_base64 old text).0 ≡ true)
      ↔ ((key : Bytes) × IsKey key × (key_to_base64 key ≡ text))
key_from_base64_iff old text h = (
  λ good.
      let (k, e) = key_from_base64_canonical old text h good in
      ((key_from_base64 old text).1, k, e),
  λ (key, k, e). rw (← e, key_from_base64-key_to_base64 old key k) refl,
)
