-- ===== src/Highlighter/Validate.antt =====
-- contrib/highlighter/highlighter.c: the predicates on a `string_span_t`, as the characters of the
-- span. `is_valid_ipv4` and `is_valid_ipv6` may read the character behind the span, their first
-- argument. A negative `char` is a byte above 127, in none of the ranges that are compared with.
use wireguard_tools.Libc.Text.{split_first}
use wireguard_tools.Prelude.{
  ℕ, zero, suc, ◌+◌, ◌-◌, ◌*◌, ◌^◌, ◌%◌, bit_and, bit_or, Bool, true, false, not, ◌&&◌, ◌||◌,
  Option, none, some, [], ◌∷◌, ◌++◌, ltb, leb, ◌==◌, if◌then◌else◌, Bytes, codes, equal, length,
  get_or, take, drop, all, sub32, char_int,
}

unfoldable pub is_decimal : ℕ → Bool
is_decimal c = leb b'0' c && leb c b'9'

unfoldable pub is_hexadecimal : ℕ → Bool
is_hexadecimal c = is_decimal c || leb b'a' (bit_or c 32) && leb (bit_or c 32) b'f'

unfoldable pub is_alphabet : ℕ → Bool
is_alphabet c = leb b'a' (bit_or c 32) && leb (bit_or c 32) b'z'

-- One side of the comparison in `is_caseless_same`.
unfoldable pub upper : ℕ → ℕ
upper c = if ltb (sub32 (char_int c) b'a') 26 then bit_and c 95 else c

unfoldable pub is_caseless_same : Bytes → Bytes → Bool
is_caseless_same [] [] = true
is_caseless_same (b ∷ s) (a ∷ c) = upper a == upper b && is_caseless_same s c
is_caseless_same _ _ = false

unfoldable pub key_char : ℕ → Bool
key_char c =
    not (not (is_decimal c) && (not (is_alphabet c) && (not (c == b'/') && not (c == b'+'))))

-- The labels of the `switch`.
abbrev pub last_chars : Bytes
last_chars = codes "AEIMQUYcgkosw480"

unfoldable pub one_of : Bytes → ℕ → Bool
one_of [] c = false
one_of (x ∷ xs) c = x == c || one_of xs c

unfoldable pub is_valid_key : Bytes → Bool
is_valid_key s =
    if not (length s == 44) || not (get_or s 43 0 == b'=')
    then false
    else if not (all key_char (take 42 s))
    then false
    else one_of last_chars (get_or s 42 0)

abbrev pub first_or : Bytes → ℕ → ℕ
first_or [] d = d
first_or (c ∷ s) d = c

abbrev pub last_or : Bytes → ℕ → ℕ
last_or [] d = d
last_or (c ∷ s) d = last_or s c

-- The loop, with the character in front of the rest.
unfoldable pub hostname_from : ℕ → ℕ → Option ℕ → Bytes → Bool
hostname_from num_digit num_entity prev [] = not (num_digit == num_entity)
hostname_from num_digit num_entity prev (c ∷ s) =
    let digits = (if is_decimal c then suc num_digit else num_digit) in
    let entities = (if not (is_decimal c) && c == b'.' then num_entity - 1 else num_entity) in
    let rest = hostname_from digits entities (some c) s in
    if is_decimal c
    then rest
    else if c == b'.'
    then rest
    else if not (is_alphabet c) && not (c == b'-')
    then false
    else if c == b'.' && (elim prev [ none ↦ false | some p ↦ p == b'.' ])
    then false
    else rest

unfoldable pub is_valid_hostname : Bytes → Bool
is_valid_hostname s =
    if ltb 63 (length s) || length s == 0
    then false
    else if first_or s 0 == b'-' || last_or s 0 == b'-'
    then false
    else if first_or s 0 == b'.' || last_or s 0 == b'.'
    then false
    else hostname_from 0 (length s) none s

-- At most `n` leading characters of a class, and what is behind them.
unfoldable pub digits_of : (ℕ → Bool) → ℕ → Bytes → Bytes × Bytes
digits_of good zero s = ([], s)
digits_of good (suc n) [] = ([], [])
digits_of good (suc n) (c ∷ s) =
    let (front, rest) = digits_of good n s in if good c then (c ∷ front, rest) else ([], c ∷ s)

-- `val` in 32, 64 or 16 bits.
abbrev pub decimal : ℕ → ℕ → Bytes → ℕ
decimal width val [] = val
decimal width val (c ∷ s) = decimal width ((10 * val + c - b'0') % 2 ^ width) s

-- The rounds `i`, counted down from 4.
unfoldable pub ipv4_from : ℕ → ℕ → Bytes → Bool
ipv4_from next zero s = false
ipv4_from next (suc left) [] = false
ipv4_from next (suc left) (c ∷ s) =
    let (front, rest) = digits_of is_decimal 3 (c ∷ s) in
    let more = ipv4_from next left (drop 1 rest) in
    if length front == 0 || ltb 1 (length front) && c == b'0' || ltb 255 (decimal 32 0 front)
    then false
    else if length rest == 0 && left == 0
    then true
    else if not (first_or rest next == b'.')
    then false
    else more

unfoldable pub is_valid_ipv4 : ℕ → Bytes → Bool
is_valid_ipv4 next s = ipv4_from next 4 s

-- What a round of the loop does behind the hexadecimal digits; `left` is `7 - i`, `whole` is the rest
-- from `pos` on.
abbrev pub ipv6_group : ℕ → ℕ → Bool → Bytes → Bytes × Bytes → Bool → Bool
ipv6_group next left seen whole (front, rest) more =
    if length front == 0
    then false
    else if length rest == 0 && (seen || left == 0)
    then true
    else if left == 0
    then false
    else if not (first_or rest next == b':')
    then (if not (first_or rest next == b'.') || ltb 1 left && not seen
        then false
        else is_valid_ipv4 next whole)
    else more

unfoldable pub ipv6_from : ℕ → ℕ → Bool → Bytes → Bool
ipv6_from next left seen [] = true
ipv6_from next zero seen (c ∷ s) =
    if c == b':' && not seen
    then length s == 0
    else ipv6_group next 0 seen (c ∷ s) (digits_of is_hexadecimal 4 (c ∷ s)) false
ipv6_from next (suc left) seen (c ∷ s) =
    let split = digits_of is_hexadecimal 4 (c ∷ s) in
    let colon = c == b':' && not seen in
    let more = ipv6_from next left (seen || colon) (if colon then s else drop 1 split.1) in
    if colon then more else ipv6_group next (suc left) seen (c ∷ s) split more

unfoldable pub is_valid_ipv6 : ℕ → Bytes → Bool
is_valid_ipv6 next s =
    if ltb (length s) 2
    then false
    else if first_or s 0 == b':' && not (get_or s 1 0 == b':')
    then false
    else if get_or s (length s - 1) 0 == b':' && not (get_or s (length s - 2) 0 == b':')
    then false
    else ipv6_from next 7 false (if first_or s 0 == b':' then drop 1 s else s)

abbrev pub hex_digit : ℕ → ℕ → Option ℕ
hex_digit val c =
    if ltb (sub32 (char_int c) b'0') 10
    then some ((16 * val + (c - b'0')) % 2 ^ 64)
    else if ltb (sub32 (bit_or (char_int c) 32) b'a') 6
    then some ((16 * val + bit_or c 32 - b'a' + 10) % 2 ^ 64)
    else none

unfoldable pub hex_value : ℕ → Bytes → Option ℕ
hex_value val [] = some val
hex_value val (c ∷ s) = elim (hex_digit val c) [ none ↦ none | some v ↦ hex_value v s ]

unfoldable pub is_valid_uint : Bytes → Bool → ℕ → ℕ → Bool
is_valid_uint s support_hex min max =
    if ltb 10 (length s) || length s == 0
    then false
    else if support_hex && (ltb 2 (length s) && (get_or s 0 0 == b'0' && get_or s 1 0 == b'x'))
    then (elim (hex_value 0 (drop 2 s)) [ none ↦ false | some val ↦ leb val max && leb min val ])
    else if not (all is_decimal s)
    then false
    else leb (decimal 64 0 s) max && leb min (decimal 64 0 s)

abbrev pub is_valid_port : Bytes → Bool
is_valid_port s = is_valid_uint s false 0 65535

abbrev pub is_valid_mtu : Bytes → Bool
is_valid_mtu s = is_valid_uint s false 576 65535

abbrev pub is_valid_persistentkeepalive : Bytes → Bool
is_valid_persistentkeepalive s = equal s (codes "off") || is_valid_uint s false 0 65535

abbrev pub is_valid_fwmark : Bytes → Bool
is_valid_fwmark s = equal s (codes "off") || is_valid_uint s true 0 4294967295

abbrev pub is_valid_table : Bytes → Bool
is_valid_table s =
    equal s (codes "auto")
    || (equal s (codes "off") || (ltb (length s) 512 || is_valid_uint s false 0 4294967295))

abbrev pub is_valid_saveconfig : Bytes → Bool
is_valid_saveconfig s = equal s (codes "true") || equal s (codes "false")

abbrev pub is_valid_prepostupdown : Bytes → Bool
is_valid_prepostupdown s = not (length s == 0)

abbrev pub scope_char : ℕ → Bool
scope_char c = is_alphabet c || is_decimal c || one_of (codes "_=+.-") c

unfoldable pub is_valid_scope : Bytes → Bool
is_valid_scope s = if ltb 64 (length s) || length s == 0 then false else all scope_char s

-- The loop behind the bracket: whether a scope was seen, and `hostspan`.
unfoldable pub bracket_from : Bool → Bytes → Bytes → Bool
bracket_from seen host [] = false
bracket_from seen host (c ∷ s) =
    let rest = bracket_from (seen || c == b'%') (if c == b'%' then [] else host ++ c ∷ []) s in
    if c == b'%'
    then (if seen then false else if not (is_valid_ipv6 c host) then false else rest)
    else if c == b']'
    then (if not (if seen then is_valid_scope host else is_valid_ipv6 c host)
        then false
        else if not (first_or s 0 == b':')
        then false
        else is_valid_port (drop 1 s))
    else rest

unfoldable pub is_valid_endpoint : Bytes → Bool
is_valid_endpoint [] = false
is_valid_endpoint (c ∷ s) =
    if c == b'[' then bracket_from false [] s else elim (split_first b':' (c ∷ s)) [
      | none ↦ false
      | some (host, port) ↦
          is_valid_port port && (is_valid_ipv4 b':' host || is_valid_hostname host)
    ]

unfoldable pub is_valid_network : ℕ → Bytes → Bool
is_valid_network next s = elim (split_first b'/' s) [
  | none ↦ is_valid_ipv4 next s || is_valid_ipv6 next s
  | some (ip, cidr) ↦
      if ltb 3 (length cidr) || length cidr == 0
      then false
      else if not (all is_decimal cidr)
      then false
      else if is_valid_ipv4 b'/' ip
      then leb (decimal 16 0 cidr) 32
      else if is_valid_ipv6 b'/' ip
      then leb (decimal 16 0 cidr) 128
      else false
]
