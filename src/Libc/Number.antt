-- ===== src/Libc/Number.antt =====
-- `strtoul` and `strtoull` of a 64-bit `unsigned long`: white space, a sign, `0x` in base 16, the
-- longest run of digits. A value that does not fit becomes ULONG_MAX, a negative one is taken
-- modulo 2^64, and without digits nothing is consumed.
use wireguard_tools.Ctype.{is_space, is_digit}
use wireguard_tools.Prelude.{
  ℕ, ◌+◌, ◌-◌, ◌*◌, ◌%◌, ◌^◌, Bool, true, false, ◌&&◌, ◌||◌, Option, none, some, [], ◌∷◌, ltb, leb,
  ◌==◌, if◌then◌else◌, Bytes,
}

-- The value of a digit, if it is one in this base.
unfoldable pub digit_value : ℕ → ℕ → Option ℕ
digit_value base c =
    if is_digit c
    then (if ltb (c - b'0') base then some (c - b'0') else none)
    else if leb b'a' c && leb c b'z'
    then (if ltb (c - 87) base then some (c - 87) else none)
    else if leb b'A' c && leb c b'Z'
    then (if ltb (c - 55) base then some (c - 55) else none)
    else none

-- The digits in front, added to what is read so far, and the text behind them.
unfoldable pub read_digits : ℕ → ℕ → Bytes → ℕ × Bytes
read_digits base acc [] = (acc, [])
read_digits base acc (c ∷ s) = elim (digit_value base c) [
  | some d ↦ read_digits base (acc * base + d) s
  | none ↦ (acc, c ∷ s)
]

unfoldable pub skip_spaces : Bytes → Bytes
skip_spaces [] = []
skip_spaces (c ∷ s) = if is_space c then skip_spaces s else c ∷ s

-- The optional sign.
unfoldable pub read_sign : Bytes → Bool × Bytes
read_sign [] = (false, [])
read_sign (c ∷ s) =
    if c == b'-' then (true, s) else if c == b'+' then (false, s) else (false, c ∷ s)

abbrev pub starts_digit : ℕ → Bytes → Bool
starts_digit base [] = false
starts_digit base (c ∷ s) = elim (digit_value base c) [ some _ ↦ true | none ↦ false ]

-- `0x` is skipped in base 16 if a digit follows it.
unfoldable pub skip_0x : ℕ → Bytes → Bytes
skip_0x base (z ∷ x ∷ s) =
    if base == 16 && (z == b'0' && ((x == b'x' || x == b'X') && starts_digit 16 s))
    then s
    else z ∷ x ∷ s
skip_0x base s = s

abbrev pub ulong_max : ℕ
ulong_max = 2 ^ 64 - 1

abbrev pub clamp : Bool → ℕ → ℕ
clamp negative n =
    if ltb ulong_max n then ulong_max else if negative then (2 ^ 64 - n) % 2 ^ 64 else n

-- `strtoul(s, &end, base)`: the value and the text at `end`.
unfoldable pub strtoul : ℕ → Bytes → ℕ × Bytes
strtoul base s =
    let (negative, unsigned) = read_sign (skip_spaces s) in
    let digits = skip_0x base unsigned in
    let (n, rest) = read_digits base 0 digits in
    if starts_digit base digits then (clamp negative n, rest) else (0, s)
