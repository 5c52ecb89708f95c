-- ===== src/Encoding/Hex/Nibble.antt =====
-- src/encoding.c: one hexadecimal character and four bits, by tables over all values.
use wireguard_tools.Encoding.Hex.{encode_nibble, nibble_flag, decode_nibble}
use wireguard_tools.Prelude.{
  ℕ, ◌<◌, Bool, true, ◌&&◌, ◌||◌, ◌≡◌, refl, ◌⊎◌, arith, ◌==◌, ==_iff, ltb, codes, get_or, Bytes,
  all_below, all_below_sound, and-true, to_lower,
}

abbrev pub hex_digits : Bytes
hex_digits = codes "0123456789abcdef"

abbrev encode_row : ℕ → Bool
encode_row v =
    encode_nibble v == get_or hex_digits v 0
    && (nibble_flag (encode_nibble v) == 0 && decode_nibble (encode_nibble v) == v)

encode_table : all_below 16 encode_row ≡ true
unfolding all_below encode_nibble nibble_flag decode_nibble
encode_table = refl

abbrev decode_row : ℕ → Bool
decode_row c =
    nibble_flag c == 255
    || (nibble_flag c == 0
        && (ltb (decode_nibble c) 16 && encode_nibble (decode_nibble c) == to_lower c))

decode_table : all_below 256 decode_row ≡ true
unfolding all_below encode_nibble nibble_flag decode_nibble to_lower
decode_table = refl

-- Below 16 the formula picks the lower-case digit, which is read back without an error.
pub encode_nibble_lem :
    (v : ℕ)
    → v < 16
    → (encode_nibble v ≡ get_or hex_digits v 0)
      × (nibble_flag (encode_nibble v) ≡ 0)
      × (decode_nibble (encode_nibble v) ≡ v)
encode_nibble_lem v h =
    let row = all_below_sound 16 encode_row v encode_table h in
    let (digit, row2) = and-true _ _ row in
    let (flag, back) = and-true _ _ row2 in
    ((==_iff _ _).0 digit, (==_iff _ _).0 flag, (==_iff _ _).0 back)

row_cases :
    (c : ℕ)
    → decode_row c ≡ true
    → (nibble_flag c ≡ 255)
      ⊎ ((nibble_flag c ≡ 0)
          × (decode_nibble c < 16)
          × (encode_nibble (decode_nibble c) ≡ to_lower c))
row_cases c h = ground arith

-- A character is refused with all bits of the flag, or is a digit in either case.
pub decode_nibble_cases :
    (c : ℕ)
    → c < 256
    → (nibble_flag c ≡ 255)
      ⊎ ((nibble_flag c ≡ 0)
          × (decode_nibble c < 16)
          × (encode_nibble (decode_nibble c) ≡ to_lower c))
decode_nibble_cases c h = row_cases c (all_below_sound 256 decode_row c decode_table h)
