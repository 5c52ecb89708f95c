-- ===== src/Tests/Encoding.antt =====
-- src/encoding.c and src/ctype.h on concrete keys and characters.
use wireguard_tools.Ctype.{
  char_is_space, char_is_digit, char_is_alpha, is_space, is_digit, is_alpha, ctype_classes,
}
use wireguard_tools.Encoding.Base64.Canonical.{key_from_base64_iff}
use wireguard_tools.Encoding.Base64.RoundTrip.{key_from_base64-key_to_base64}
use wireguard_tools.Encoding.Base64.{
  IsKey, key_to_base64, key_from_base64, encode_sextet, decode_sextet, encode_from, decode_from,
  decode_base64, encode_base64, sextets,
}
use wireguard_tools.Encoding.Hex.RoundTrip.{key_from_hex-key_to_hex}
use wireguard_tools.Encoding.Hex.{key_to_hex, key_from_hex, decode_pairs, nibble_flag}
use wireguard_tools.Encoding.Flag.{is_zero_flag}
use wireguard_tools.Prelude.{◌≡◌, ◌↔◌, refl, arith, true, false, [], Bytes, codes, char_int}
use wireguard_tools.Tests.Setup.{test_key, test_key_base64, small-IsBytes}

test_key-IsKey : IsKey test_key
test_key-IsKey = (refl, small-IsBytes test_key refl)

key_to_base64_test : key_to_base64 test_key ≡ test_key_base64
unfolding key_to_base64 encode_from encode_base64 encode_sextet sextets
key_to_base64_test = refl

key_from_base64_test : (key_from_base64 [] test_key_base64).0 ≡ true
unfolding key_from_base64 decode_from is_zero_flag decode_base64 decode_sextet
key_from_base64_test = refl

-- Stray bits in the last sextet are refused.
key_from_base64_stray :
    (key_from_base64 [] (codes "AQIDBAUGBwgJCgsMDQ4PEBESExQVFhcYGRobHB0eHyB=")).0 ≡ false
unfolding key_from_base64 decode_from is_zero_flag decode_base64 decode_sextet
key_from_base64_stray = refl

key_from_base64-key_to_base64_example :
    key_from_base64 [] (key_to_base64 test_key) ≡ (true, test_key)
key_from_base64-key_to_base64_example = key_from_base64-key_to_base64 [] test_key test_key-IsKey

key_from_base64_iff_example :
    ((key_from_base64 [] test_key_base64).0 ≡ true)
    ↔ ((key : Bytes) × IsKey key × (key_to_base64 key ≡ test_key_base64))
key_from_base64_iff_example =
    key_from_base64_iff [] test_key_base64 (small-IsBytes test_key_base64 refl)

key_from_hex-key_to_hex_example : key_from_hex [] (key_to_hex test_key) ≡ (true, test_key)
key_from_hex-key_to_hex_example = key_from_hex-key_to_hex [] test_key test_key-IsKey

abbrev test_key_hex : Bytes
test_key_hex = codes "0102030405060708090A0b0c0D0e0f101112131415161718191a1b1c1d1e1f20"

key_from_hex_test : (key_from_hex [] test_key_hex).0 ≡ true
unfolding key_from_hex decode_pairs is_zero_flag nibble_flag
key_from_hex_test = refl

ctype_classes_example :
    (char_is_space (char_int b'\t') ≡ is_space b'\t')
    × (char_is_digit (char_int b'\t') ≡ is_digit b'\t')
    × (char_is_alpha (char_int b'\t') ≡ is_alpha b'\t')
ctype_classes_example = ctype_classes b'\t' (omega arith)
