-- ===== src/Tests/Highlighter.antt =====
-- contrib/highlighter/highlighter.c on concrete texts.
use wireguard_tools.Libc.Text.{split_first, split_last}
use wireguard_tools.Encoding.Base64.{key_from_base64}
use wireguard_tools.Highlighter.Hostname.{host_char, is_letter, is_valid_hostname_lem}
use wireguard_tools.Highlighter.Key.{is_valid_key_iff}
use wireguard_tools.Highlighter.Order.Whole.{highlight_config-Fits}
use wireguard_tools.Highlighter.Order.{Fits}
use wireguard_tools.Highlighter.Text.{
  config_from, config_step, field_in, finish_part, highlight_config, section_for_field,
}
use wireguard_tools.Highlighter.Validate.{
  bracket_from, digits_of, first_or, hex_value, hostname_from, ipv4_from, ipv6_from, is_alphabet,
  is_caseless_same, is_decimal, is_hexadecimal, is_valid_endpoint, is_valid_hostname, is_valid_ipv4,
  is_valid_ipv6, is_valid_key, is_valid_network, is_valid_scope, is_valid_uint, key_char, last_or,
  one_of, upper,
}
use wireguard_tools.Highlighter.Value
use wireguard_tools.Highlighter.Value.{
  HighlightSpan, append_highlight_span, highlight_endpoint, highlight_multivalue,
  highlight_multivalue_value, highlight_network, highlight_value, mark_error, multi_from,
  multi_step,
}
use wireguard_tools.Prelude.{
  Bytes, List, [], all, any, codes, equal, false, length, ltb, not, refl, true, ◌&&◌, ◌++◌, ◌-◌,
  ◌==◌, ◌^◌, ◌||◌, ◌↔◌, ◌∷◌, ◌≡◌,
}
use wireguard_tools.Tests.Setup.{test_key_base64, small-IsBytes}

abbrev small_text : Bytes
small_text = codes "[Peer]" ++ b'\n' ∷ codes "AllowedIPs = 10.0.0.0/8, ::/0 # all"

highlight_config-Fits_example :
    (body : List HighlightSpan) × (highlight_config small_text
      ≡ body ++ record { kind = Value.end; start = 0; len = 2 ^ 64 - 1 } ∷ [])
    × Fits 0 body (length small_text)
highlight_config-Fits_example = highlight_config-Fits small_text

is_valid_key_iff_example :
    (is_valid_key test_key_base64 ≡ true) ↔ ((key_from_base64 [] test_key_base64).0 ≡ true)
is_valid_key_iff_example = is_valid_key_iff [] test_key_base64 (small-IsBytes test_key_base64 refl)

abbrev dotted : Bytes
dotted = codes "vpn..example"

is_valid_hostname_lem_example : is_valid_hostname dotted ≡ (
    not (ltb 63 (length dotted) || length dotted == 0)
    && (not (first_or dotted 0 == b'-' || last_or dotted 0 == b'-')
        && (not (first_or dotted 0 == b'.' || last_or dotted 0 == b'.')
            && (all host_char dotted && any is_letter dotted))))
is_valid_hostname_lem_example = is_valid_hostname_lem dotted

two_dots : is_valid_hostname dotted ≡ true
unfolding is_valid_hostname hostname_from is_decimal is_alphabet
two_dots = refl

v4 : is_valid_ipv4 0 (codes "192.168.0.255") ≡ true
unfolding is_valid_ipv4 ipv4_from digits_of is_decimal
v4 = refl

v4_zero : is_valid_ipv4 0 (codes "192.168.01.1") ≡ false
unfolding is_valid_ipv4 ipv4_from digits_of is_decimal
v4_zero = refl

v6 : is_valid_ipv6 0 (codes "fe80::1:2") ≡ true
unfolding is_valid_ipv6 ipv6_from digits_of is_hexadecimal is_decimal
v6 = refl

v6_mapped : is_valid_ipv6 0 (codes "::ffff:10.0.0.1") ≡ true
unfolding is_valid_ipv6 ipv6_from digits_of is_hexadecimal is_decimal is_valid_ipv4 ipv4_from
v6_mapped = refl

v6_long : is_valid_ipv6 0 (codes "1:2:3:4:5:6:7:8:9") ≡ false
unfolding is_valid_ipv6 ipv6_from digits_of is_hexadecimal is_decimal
v6_long = refl

host_and_port : is_valid_endpoint (codes "[fe80::1%wg0]:51820") ≡ true
unfolding is_valid_endpoint bracket_from is_valid_ipv6 ipv6_from digits_of is_hexadecimal is_decimal
    is_valid_scope is_alphabet is_valid_uint
host_and_port = refl

marks : is_valid_uint (codes "0xfF") true 0 255 ≡ true
unfolding is_valid_uint hex_value
marks = refl

coloured :
    highlight_config small_text
    ≡ record { kind = Value.section; start = 0; len = 6 }
      ∷ record { kind = Value.field; start = 7; len = 10 }
      ∷ record { kind = Value.delimiter; start = 18; len = 1 }
      ∷ record { kind = Value.ip; start = 20; len = 8 }
      ∷ record { kind = Value.delimiter; start = 28; len = 1 }
      ∷ record { kind = Value.cidr; start = 29; len = 1 }
      ∷ record { kind = Value.delimiter; start = 30; len = 1 }
      ∷ record { kind = Value.ip; start = 32; len = 2 }
      ∷ record { kind = Value.delimiter; start = 34; len = 1 }
      ∷ record { kind = Value.cidr; start = 35; len = 1 }
      ∷ record { kind = Value.comment; start = 37; len = 5 }
      ∷ record { kind = Value.end; start = 0; len = 2 ^ 64 - 1 }
      ∷ []
unfolding is_decimal is_hexadecimal is_alphabet upper is_caseless_same key_char one_of is_valid_key
    hostname_from is_valid_hostname digits_of ipv4_from is_valid_ipv4 ipv6_from is_valid_ipv6
    hex_value is_valid_uint is_valid_scope bracket_from is_valid_endpoint is_valid_network
    append_highlight_span highlight_network highlight_multivalue_value multi_step multi_from
    mark_error highlight_multivalue highlight_endpoint highlight_value section_for_field field_in
    finish_part config_step config_from highlight_config split_first split_last equal
coloured = refl
