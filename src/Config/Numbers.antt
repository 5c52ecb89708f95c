-- ===== src/Config/Numbers.antt =====
-- src/config.c: `parse_port`, `parse_fwmark`, `parse_persistent_keepalive`, `parse_ws_millis`,
-- `parse_dns_retries`.
pub mod Bounds
pub mod RoundTrip
use wireguard_tools.Config.Outcome.{Outcome, done, fail, exited}
use wireguard_tools.Config.System.{System, resolved}
use wireguard_tools.Containers.{Family, inet, inet6}
use wireguard_tools.Ctype.{char_is_digit}
use wireguard_tools.Libc.Number.{strtoul}
use wireguard_tools.Prelude.{
  ℕ, ◌-◌, ◌^◌, Bool, true, false, not, ◌&&◌, ◌||◌, Option, none, some, [], ◌∷◌, ltb, ◌==◌,
  if◌then◌else◌, Bytes, codes, char_int, equal, equal_nocase, length, get_or,
}

abbrev pub sizeof_sockaddr_in : ℕ
sizeof_sockaddr_in = 16

abbrev pub sizeof_sockaddr_in6 : ℕ
sizeof_sockaddr_in6 = 28

abbrev pub is_empty : Bytes → Bool
is_empty [] = true
is_empty (c ∷ s) = false

-- Is the address of the family and size that the program knows?
unfoldable pub is_known : Family → ℕ → Bool
is_known inet n = n == sizeof_sockaddr_in
is_known inet6 n = n == sizeof_sockaddr_in6
is_known _ n = false

-- The port that goes into `listen_port`.
unfoldable pub parse_port : System → Bytes → Outcome ℕ
unfolding is_known
parse_port sys value = if is_empty value then fail else elim (sys.lookup_port value) [
  | resolved r ↦ if is_known r.ai_family r.ai_addrlen then done r.ai_addr.port else fail
  | _ ↦ fail
]

-- The first byte of a text, or the terminating NUL.
abbrev pub first_byte : Bytes → ℕ
first_byte s = get_or s 0 0

-- `strtoul` to the end of the text and not above `limit`.
unfoldable pub number_to : ℕ → ℕ → Bytes → Outcome ℕ
number_to base limit value =
    let (n, rest) = strtoul base value in
    if not (is_empty rest) || ltb limit n then fail else done n

-- The mark that goes into `fwmark`.
unfoldable pub parse_fwmark : Bytes → Outcome ℕ
unfolding number_to
parse_fwmark value =
    if equal_nocase value (codes "off")
    then done 0
    else if not (char_is_digit (char_int (first_byte value)))
    then fail
    else number_to
        (if ltb 2 (length value) && (first_byte value == b'0' && get_or value 1 0 == b'x')
          then 16
          else 10)
        (2 ^ 32 - 1) value

-- The interval that goes into `persistent_keepalive_interval`.
unfoldable pub parse_persistent_keepalive : Bytes → Outcome ℕ
unfolding number_to
parse_persistent_keepalive value =
    if equal_nocase value (codes "off")
    then done 0
    else if not (char_is_digit (char_int (first_byte value)))
    then fail
    else number_to 10 65535 value

-- A millisecond count of a WebSocket key.
unfoldable pub parse_ws_millis : Bytes → Outcome ℕ
parse_ws_millis value =
    let (n, rest) = strtoul 10 value in
    if is_empty value || (not (is_empty rest) || ltb 0xffffffff n) then fail else done n

-- `none` is the -1 of `infinity`; the default is 15.
unfoldable pub parse_dns_retries : System → Outcome (Option ℕ)
parse_dns_retries sys = elim sys.retries [
  | none ↦ done (some 15)
  | some text ↦
      if equal text (codes "infinity")
      then done none
      else (let (n, rest) = strtoul 10 text in
          if not (is_empty rest) || ltb (2 ^ 31 - 1) n then exited else done (some n))
]
