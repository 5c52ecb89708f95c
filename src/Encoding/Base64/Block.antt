-- ===== src/Encoding/Base64/Block.antt =====
-- A block of four characters of src/encoding.c's base64: `decode_base64` as a number, and as the
-- inverse of `encode_base64`.
use wireguard_tools.Bits.{bit_or_shifted, bit_or-lt, le-bit_or, bit_and_ones}
use wireguard_tools.Encoding.Base64.Sextet.{invalid, encode_sextet_lem, decode_sextet_cases}
use wireguard_tools.Encoding.Base64.{
  encode_sextet, decode_sextet, decode_base64, high_byte, mid_byte, low_byte,
}
use wireguard_tools.Prelude.{
  ℕ, ◌+◌, ◌*◌, ◌/◌, ◌^◌, ◌<◌, ◌≤◌, bit_or, ◌≡◌, ◌⊎◌, inl, inr, arith, shr, shl32,
}

-- The or of the four shifted words.
abbrev joined : ℕ → ℕ → ℕ → ℕ → ℕ
joined p q r s =
    bit_or (bit_or (bit_or (bit_or 0 (shl32 p 18)) (shl32 q 12)) (shl32 r 6)) (shl32 s 0)

joined_fields :
    (p q r s : ℕ)
    → p < 64
    → q < 64
    → r < 64
    → s < 64
    → joined p q r s ≡ ((p * 64 + q) * 64 + r) * 64 + s
joined_fields p q r s hp hq hr hs = ground (
  arith,
  bit_or_shifted 24 0 (p * 2 ^ 18),
  bit_or_shifted 18 p (q * 2 ^ 12),
  bit_or_shifted 12 (p * 64 + q) (r * 2 ^ 6),
  bit_or_shifted 6 ((p * 64 + q) * 64 + r) s,
)

joined-lt : (p q r s : ℕ) → joined p q r s < 2 ^ 32
joined-lt p q r s =
    bit_or-lt 32 _ _
      (bit_or-lt 32 _ _
        (bit_or-lt 32 _ _ (bit_or-lt 32 _ _ (omega arith) (omega arith)) (omega arith))
        (omega arith))
      (omega arith)

abbrev High : ℕ → Type 0
High w = 2 ^ 31 ≤ w

-- One word of -1 sets the sign bit of the whole.
joined-High :
    (p q r s : ℕ)
    → (p ≡ invalid) ⊎ (q ≡ invalid) ⊎ (r ≡ invalid) ⊎ (s ≡ invalid)
    → High (joined p q r s)
joined-High p q r s h = omega (
  arith,
  le-bit_or 0 (shl32 p 18),
  le-bit_or (bit_or 0 (shl32 p 18)) (shl32 q 12),
  le-bit_or (bit_or (bit_or 0 (shl32 p 18)) (shl32 q 12)) (shl32 r 6),
  le-bit_or (bit_or (bit_or (bit_or 0 (shl32 p 18)) (shl32 q 12)) (shl32 r 6)) (shl32 s 0),
)

-- The block is a number of 24 bits made of sextets, and its characters encode those sextets.
pub record IsBlock (a b c d : ℕ) : Type 0 where
  pub p : ℕ
  pub q : ℕ
  pub r : ℕ
  pub s : ℕ
  pub p_lt : p < 64
  pub q_lt : q < 64
  pub r_lt : r < 64
  pub s_lt : s < 64
  pub a_eq : encode_sextet p ≡ a
  pub b_eq : encode_sextet q ≡ b
  pub c_eq : encode_sextet r ≡ c
  pub d_eq : encode_sextet s ≡ d
  pub val_eq : decode_base64 a b c d ≡ ((p * 64 + q) * 64 + r) * 64 + s

-- Four characters are a block, or the decoder's sign bit is set.
pub decode_base64_cases :
    (a b c d : ℕ)
    → a < 256
    → b < 256
    → c < 256
    → d < 256
    → IsBlock a b c d ⊎ (shr (decode_base64 a b c d) 31 ≡ 1)
unfolding decode_base64
decode_base64_cases a b c d ha hb hc hd =
    go (decode_sextet_cases a ha) (decode_sextet_cases b hb) (decode_sextet_cases c hc)
      (decode_sextet_cases d hd)
  where
    Valid : ℕ → Type 0
    Valid x =
        (decode_sextet x ≡ invalid)
        ⊎ ((decode_sextet x < 64) × (encode_sextet (decode_sextet x) ≡ x))

    high :
        (decode_sextet a ≡ invalid)
          ⊎ (decode_sextet b ≡ invalid)
          ⊎ (decode_sextet c ≡ invalid)
          ⊎ (decode_sextet d ≡ invalid)
        → shr (joined (decode_sextet a) (decode_sextet b) (decode_sextet c) (decode_sextet d)) 31
          ≡ 1
    high h = omega (
      arith,
      joined-High _ _ _ _ h,
      joined-lt (decode_sextet a) (decode_sextet b) (decode_sextet c) (decode_sextet d),
    )

    go :
        Valid a
        → Valid b
        → Valid c
        → Valid d
        → IsBlock a b c d
          ⊎ (shr (joined (decode_sextet a) (decode_sextet b) (decode_sextet c) (decode_sextet d)) 31
              ≡ 1)
    go (inl x) _ _ _ = inr (high (inl x))
    go (inr _) (inl x) _ _ = inr (high (inr (inl x)))
    go (inr _) (inr _) (inl x) _ = inr (high (inr (inr (inl x))))
    go (inr _) (inr _) (inr _) (inl x) = inr (high (inr (inr (inr x))))
    go (inr w) (inr x) (inr y) (inr z) = inl (record {
      p = decode_sextet a;
      q = decode_sextet b;
      r = decode_sextet c;
      s = decode_sextet d;
      p_lt = w.0;
      q_lt = x.0;
      r_lt = y.0;
      s_lt = z.0;
      a_eq = w.1;
      b_eq = x.1;
      c_eq = y.1;
      d_eq = z.1;
      val_eq = joined_fields _ _ _ _ w.0 x.0 y.0 z.0;
    })

-- Decoding encoded sextets.
pub decode-encode_sextet :
    (p q r s : ℕ)
    → p < 64
    → q < 64
    → r < 64
    → s < 64
    → decode_base64 (encode_sextet p) (encode_sextet q) (encode_sextet r) (encode_sextet s)
      ≡ ((p * 64 + q) * 64 + r) * 64 + s
unfolding decode_base64
decode-encode_sextet p q r s hp hq hr hs =
    rw
      (
        (encode_sextet_lem p hp).1,
        (encode_sextet_lem q hq).1,
        (encode_sextet_lem r hr).1,
        (encode_sextet_lem s hs).1,
      )
      (joined_fields p q r s hp hq hr hs)

-- The three bytes of a 24-bit value.
pub bytes_of_val :
    (x y z : ℕ)
    → x < 256
    → y < 256
    → z < 256
    → (high_byte ((x * 256 + y) * 256 + z) ≡ x)
      × (mid_byte ((x * 256 + y) * 256 + z) ≡ y)
      × (low_byte ((x * 256 + y) * 256 + z) ≡ z)
bytes_of_val x y z hx hy hz = (
  ground (arith, bit_and_ones 8 (((x * 256 + y) * 256 + z) / 2 ^ 16)),
  ground (arith, bit_and_ones 8 (((x * 256 + y) * 256 + z) / 2 ^ 8)),
  ground (arith, bit_and_ones 8 ((x * 256 + y) * 256 + z)),
)
