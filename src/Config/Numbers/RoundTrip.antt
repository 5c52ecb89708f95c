-- ===== src/Config/Numbers/RoundTrip.antt =====
-- src/config.c reads back the numbers that src/showconf.c prints, and a count that wraps.
use wireguard_tools.Config.Numbers.{
  first_byte, number_to, parse_fwmark, parse_persistent_keepalive, parse_ws_millis, is_empty,
}
use wireguard_tools.Config.Outcome.{done}
use wireguard_tools.Ctype.{char_is_digit, ctype_classes}
use wireguard_tools.Libc.Print.{
  digit_char, strtoul-minus-print_dec, print_dec, print_hex, Digits, print_base-Digits,
  strtoul-print_dec, strtoul-print_hex,
}
use wireguard_tools.Prelude.{
  ℕ, ◌-◌, ◌^◌, ◌<◌, ◌≤◌, ◌≡◌, ◌∙◌, refl, arith, true, false, ◌∷◌, Bytes, codes, length, ltb,
  char_int, equal_nocase,
}

-- A text that starts with a decimal digit passes the first two tests of the parsers.
pub Digits-char_is_digit :
    (s : Bytes) → Digits 10 s → char_is_digit (char_int (first_byte s)) ≡ true
Digits-char_is_digit s g = rw g.cons (
    (ctype_classes (digit_char g.head) (unfold digit_char in ground arith)).1
    ∙ unfold digit_char in ground arith)

Digits-ne-off : (s : Bytes) → Digits 10 s → equal_nocase s (codes "off") ≡ false
Digits-ne-off s g = rw g.cons (unfold digit_char equal_nocase in ground arith)

number_to-print_dec :
    (limit n : ℕ) → n ≤ limit → n < 2 ^ 64 → number_to 10 limit (print_dec n) ≡ done n
unfolding number_to
number_to-print_dec limit n h k =
    let fits : ltb limit n ≡ false = ground arith in rw (strtoul-print_dec n k, fits) refl

-- The interval that `showconf` prints as `%u` is read back, for every interval that the field holds.
pub parse_persistent_keepalive-print_dec :
    (n : ℕ) → n < 65536 → parse_persistent_keepalive (print_dec n) ≡ done n
unfolding parse_persistent_keepalive
parse_persistent_keepalive-print_dec n h =
    let g = print_base-Digits 10 n (omega arith) in
    rw
      (
        Digits-ne-off _ g,
        Digits-char_is_digit _ g,
        number_to-print_dec 65535 n (omega arith) (omega arith),
      )
      refl

-- The mark that `showconf` prints as `0x%x` is read back, for every mark that the field holds.
pub parse_fwmark-print_hex :
    (n : ℕ) → n < 2 ^ 32 → parse_fwmark (b'0' ∷ b'x' ∷ print_hex n) ≡ done n
unfolding parse_fwmark
parse_fwmark-print_hex n h =
    let g = print_base-Digits 16 n (omega arith) in
    let fits : ltb (2 ^ 32 - 1) n ≡ false = ground arith in
    let long : ltb 2 (length (b'0' ∷ b'x' ∷ print_hex n)) ≡ true = rw g.cons (ground arith) in
    rw (long, strtoul-print_hex n (omega arith), fits) (unfold equal_nocase char_is_digit in refl)

-- `WSPingInterval` and its like have no test for a sign, and `strtoull` negates modulo 2^64: for
-- every nonzero count, a minus sign and the decimal 2^64 - n are accepted as n.
pub parse_ws_millis_wraps :
    (n : ℕ) → 0 < n → n < 2 ^ 32 → parse_ws_millis (b'-' ∷ print_dec (2 ^ 64 - n)) ≡ done n
unfolding parse_ws_millis
parse_ws_millis_wraps n lo hi =
    let fits : ltb 0xffffffff n ≡ false = ground arith in
    rw (strtoul-minus-print_dec n lo (omega arith), fits) refl

-- The count that `showconf` prints as `%u` is read back.
pub parse_ws_millis-print_dec : (n : ℕ) → n < 2 ^ 32 → parse_ws_millis (print_dec n) ≡ done n
unfolding parse_ws_millis
parse_ws_millis-print_dec n h =
    let fits : ltb 0xffffffff n ≡ false = ground arith in
    let g = print_base-Digits 10 n (omega arith) in
    let nonempty : is_empty (print_dec n) ≡ false = rw g.cons refl in
    rw (strtoul-print_dec n (omega arith), fits, nonempty) refl
