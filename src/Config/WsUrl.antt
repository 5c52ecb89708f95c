-- ===== src/Config/WsUrl.antt =====
-- src/config.c: `is_ws_url`, `ws_url_split` and `parse_ws_endpoint`.
pub mod Spelled
pub mod Scheme
pub mod Split
pub mod Whole
pub mod HostPort
use wireguard_tools.Config.Endpoint.{parse_endpoint}
use wireguard_tools.Config.Numbers.{is_empty}
use wireguard_tools.Config.Outcome.{Outcome, done, fail, ◌>>=◌}
use wireguard_tools.Config.System.{System}
use wireguard_tools.Containers.{Sockaddr, Peer}
use wireguard_tools.Libc.Text.{split_first, split_last, strip_prefix, span_until, contains}
use wireguard_tools.Prelude.{
  ℕ, ◌-◌, Bool, true, false, ◌||◌, Option, none, some, List, [], ◌∷◌, ◌++◌, ltb, leb, ◌==◌,
  if◌then◌else◌, Bytes, codes, length, take, bind_option,
}

abbrev pub is_some {ℓ} : {A : Type ℓ} → Option A → Bool
is_some none = false
is_some (some a) = true

unfoldable pub is_ws_url : Bytes → Bool
is_ws_url v = is_some (strip_prefix (codes "ws://") v) || is_some (strip_prefix (codes "wss://") v)

-- `p`: the text behind the scheme.
unfoldable pub behind_scheme : Bytes → Option Bytes
behind_scheme url = elim (strip_prefix (codes "wss://") url) [
  | some p ↦ some p
  | none ↦ strip_prefix (codes "ws://") url
]

-- `pstart`, behind the colon that must follow a closing bracket.
unfoldable pub behind_colon : Bytes → Option Bytes
behind_colon [] = none
behind_colon (c ∷ s) = if c == b':' then some s else none

-- The text from `hstart` to `hend`, and the text at `pstart`.
unfoldable pub host_split : Bytes → Option (Bytes × Bytes)
unfolding behind_colon
host_split [] = none
host_split (c ∷ s) =
    if c == b'['
    then bind_option (split_first b']' s)
        (λ x. bind_option (behind_colon x.1) (λ pstart. some (x.0, pstart)))
    else (let (authority, path) = span_until b'/' (c ∷ s) in
        bind_option (split_last b':' authority) (λ x. some (x.0, x.1 ++ path)))

-- The checks on the two pieces, with the sizes of the buffers.
unfoldable pub checked : ℕ → ℕ → Bytes → Bytes → Option (Bytes × Bytes)
checked hostsz portsz host port =
    if is_empty host || is_empty port
    then none
    else if leb hostsz (length host) || leb portsz (length port)
    then none
    else some (host, port)

unfoldable pub ws_url_split : Bytes → ℕ → ℕ → Option (Bytes × Bytes)
unfolding behind_scheme host_split checked
ws_url_split url hostsz portsz =
    bind_option (behind_scheme url)
      (λ p. bind_option (host_split p) (λ x. checked hostsz portsz x.0 (span_until b'/' x.1).0))

-- What `snprintf` is given to print, and what fits its buffer.
unfoldable pub host_port : Bytes → Bytes → Bytes
host_port host port =
    if contains b':' host then b'[' ∷ (host ++ (b']' ∷ b':' ∷ port)) else host ++ (b':' ∷ port)

abbrev pub snprintf : ℕ → Bytes → Bytes
snprintf size s = take (size - 1) s

-- The peer with its endpoint resolved and the whole URL kept.
unfoldable pub parse_ws_endpoint : System → Peer → Bytes → Outcome Peer
unfolding host_port
parse_ws_endpoint sys peer url = elim (ws_url_split url 256 16) [
  | none ↦ fail
  | some (host, port) ↦ parse_endpoint sys (snprintf 300 (host_port host port)) >>= λ addr.
      done (record peer { endpoint = addr; ws_url = some url })
]
