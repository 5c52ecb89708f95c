-- ===== src/Config/Endpoint.antt =====
-- src/config.c: `parse_endpoint`, the split into host and port and the retried lookup.
pub mod Retry
use wireguard_tools.Config.Numbers.{is_empty, first_byte, is_known, parse_dns_retries}
use wireguard_tools.Config.Outcome.{Outcome, done, fail, waiting, ◌>>=◌}
use wireguard_tools.Config.System.{
  System, Answer, AddrInfo, resolved, eai_noname, eai_fail, eai_nodata, eai_other,
}
use wireguard_tools.Containers.{Sockaddr}
use wireguard_tools.Libc.Text.{split_first, split_last}
use wireguard_tools.Prelude.{
  ℕ, zero, suc, ◌+◌, ◌-◌, ◌*◌, ◌/◌, Bool, true, false, Option, none, some, List, [], ◌∷◌, ltb, ◌==◌,
  if◌then◌else◌, Bytes,
}

-- Behind the closing bracket stand a colon and a port.
unfoldable pub port_of : Bytes → Option Bytes
port_of [] = none
port_of (c ∷ port) = if c == b':' then (if is_empty port then none else some port) else none

-- `&mutable[1]`
unfoldable pub behind_first : Bytes → Bytes
behind_first [] = []
behind_first (c ∷ s) = s

-- `begin` and `end`: the host and the port.
unfoldable pub endpoint_parts : Bytes → Option (Bytes × Bytes)
unfolding port_of behind_first
endpoint_parts value =
    if first_byte value == b'['
    then elim (split_first b']' value) [
      | none ↦ none
      | some (before, after) ↦ elim (port_of after) [
        | none ↦ none
        | some port ↦ some (behind_first before, port)
      ]
    ]
    else elim (split_last b':' value) [
      | none ↦ none
      | some (host, port) ↦ if is_empty port then none else some (host, port)
    ]

-- `timeout = min(20000000, timeout * 6 / 5)`, in microseconds; the product fits 32 bits.
unfoldable pub next_timeout : ℕ → ℕ
next_timeout t = if ltb 20000000 (t * 6 / 5) then 20000000 else t * 6 / 5

-- How the lookup ends, and the pauses made between attempts.
pub record Lookup : Type 0 where
  pub answer : Outcome AddrInfo
  pub pauses : List ℕ

abbrev pub pause : ℕ → Lookup → Lookup
pause t l = record { answer = l.answer; pauses = t ∷ l.pauses }

abbrev pub stop : Outcome AddrInfo → Lookup
stop o = record { answer = o; pauses = [] }

-- `last_try`, and `retries` after `if (retries >= 0) --retries`; -1 retries for ever.
abbrev pub last_try : Option ℕ → Bool
last_try (some zero) = true
last_try _ = false

abbrev pub less_retries : Option ℕ → Option ℕ
less_retries (some (suc r)) = some r
less_retries (some zero) = none
less_retries none = none

-- The loop, with the number of attempts that are followed, the attempt's number, `retries` and
-- `timeout`.
unfoldable pub lookup_from : System → Bytes → Bytes → ℕ → ℕ → Option ℕ → ℕ → Lookup
lookup_from sys host port zero k retries timeout = stop waiting
lookup_from sys host port (suc more) k retries timeout =
    let again =
      pause timeout
        (lookup_from sys host port more (k + 1) (less_retries retries) (next_timeout timeout)) in
    elim (sys.lookup k host port) [
      | resolved r ↦ stop (done r)
      | eai_noname ↦ stop fail
      | eai_fail ↦ stop fail
      | eai_nodata ↦ stop fail
      | eai_other ↦ if last_try retries then stop fail else again
    ]

abbrev pub first_timeout : ℕ
first_timeout = 1000000

abbrev store_address : AddrInfo → Outcome Sockaddr
store_address r = if is_known r.ai_family r.ai_addrlen then done r.ai_addr else fail

-- The address that is copied into the endpoint, once the number of retries is known.
unfoldable pub lookup_endpoint : System → Option ℕ → Bytes → Outcome Sockaddr
unfolding is_known
lookup_endpoint sys retries value = if is_empty value then fail else elim (endpoint_parts value) [
  | none ↦ fail
  | some (host, port) ↦
      (lookup_from sys host port sys.attempts 0 retries first_timeout).answer >>= store_address
]

unfoldable pub parse_endpoint : System → Bytes → Outcome Sockaddr
parse_endpoint sys value = do retries ← parse_dns_retries sys; lookup_endpoint sys retries value
