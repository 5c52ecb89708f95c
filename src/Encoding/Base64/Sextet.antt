-- ===== src/Encoding/Base64/Sextet.antt =====
-- The characters of src/encoding.c's base64 one at a time: the branch-free formulas against the
-- alphabet of RFC 4648, and the split of three bytes into sextets.
use wireguard_tools.Bits.{bit_or_shifted, bit_and_ones}
use wireguard_tools.Encoding.Base64.{encode_sextet, decode_sextet, sextets}
use wireguard_tools.Prelude.{
  ℕ, ◌+◌, ◌-◌, ◌*◌, ◌/◌, ◌%◌, ◌^◌, ◌<◌, Bool, true, ◌&&◌, ◌≡◌, refl, ◌⊎◌, arith, ◌==◌, ==_iff, ltb,
  ltb→lt, if◌then◌else◌, Bytes, codes, get_or, all_below, all_below_sound, and-true,
}

abbrev pub alphabet : Bytes
alphabet = codes "ABCDEFGHIJKLMNOPQRSTUVWXYZabcdefghijklmnopqrstuvwxyz0123456789+/"

-- The code of -1, which `decode_sextet` gives for a character outside the alphabet.
abbrev pub invalid : ℕ
invalid = 2 ^ 32 - 1

abbrev encode_row : ℕ → Bool
encode_row v =
    encode_sextet v == get_or alphabet v 0
    && (decode_sextet (encode_sextet v) == v
        && (ltb (encode_sextet v) 128 && ltb 0 (encode_sextet v)))

encode_table : all_below 64 encode_row ≡ true
unfolding all_below encode_sextet decode_sextet
encode_table = refl

abbrev decode_row : ℕ → Bool
decode_row c =
    if decode_sextet c == invalid
    then true
    else (ltb (decode_sextet c) 64 && encode_sextet (decode_sextet c) == c)

decode_table : all_below 256 decode_row ≡ true
unfolding all_below encode_sextet decode_sextet
decode_table = refl

-- Below 64 the formula picks the character of the alphabet, and decoding gives the sextet back.
pub encode_sextet_lem :
    (v : ℕ)
    → v < 64
    → (encode_sextet v ≡ get_or alphabet v 0)
      × (decode_sextet (encode_sextet v) ≡ v)
      × (encode_sextet v < 128)
      × (0 < encode_sextet v)
encode_sextet_lem v h =
    let row = all_below_sound 64 encode_row v encode_table h in
    let (alpha, row2) = and-true _ _ row in
    let (back, row3) = and-true _ _ row2 in
    let (ascii, pos) = and-true _ _ row3 in
    ((==_iff _ _).0 alpha, (==_iff _ _).0 back, ltb→lt _ _ ascii, ltb→lt _ _ pos)

decode_row_cases :
    (c : ℕ)
    → decode_row c ≡ true
    → (decode_sextet c ≡ invalid) ⊎ ((decode_sextet c < 64) × (encode_sextet (decode_sextet c) ≡ c))
decode_row_cases c h = ground arith

-- A character is either refused or the one that its sextet is written as.
pub decode_sextet_cases :
    (c : ℕ)
    → c < 256
    → (decode_sextet c ≡ invalid) ⊎ ((decode_sextet c < 64) × (encode_sextet (decode_sextet c) ≡ c))
decode_sextet_cases c h = decode_row_cases c (all_below_sound 256 decode_row c decode_table h)

-- The sextets of three bytes, as digits.
pub sextets_lem :
    (x y z : ℕ)
    → x < 256
    → y < 256
    → z < 256
    → sextets x y z ≡ (x / 4, x % 4 * 16 + y / 16, y % 16 * 4 + z / 64, z % 64)
unfolding sextets
sextets_lem x y z hx hy hz = ground (
  arith,
  bit_and_ones 6 (x / 4),
  bit_or_shifted 4 x (y / 16),
  bit_and_ones 6 (x * 16 + y / 16),
  bit_or_shifted 2 y (z / 64),
  bit_and_ones 6 (y * 4 + z / 64),
  bit_and_ones 6 z,
)
