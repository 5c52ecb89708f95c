-- ===== src/Config/Line/Peers.antt =====
-- src/config.c: what every accepted line of a `[Peer]` section keeps true of the peer.
use mathlib.Core.Path.{subst}
use wireguard_tools.Config.AllowedIps.Entries.{IsAllowedIp, parse_allowedips-Extends}
use wireguard_tools.Config.AllowedIps.{parse_allowedips}
use wireguard_tools.Config.Keys.{parse_key}
use wireguard_tools.Config.Line.Keys.{
  PeerKey, endpoint, public_key, allowed_ips, persistent_keepalive, preshared_key, ws_mode,
  wstunnel_target, ws_bearer, ws_mask, ws_tls_ca, ws_tls_cert, ws_tls_key, ws_tls_insecure,
  ws_ping_interval, ws_backoff_min, ws_backoff_max, set_peer_key,
}
use wireguard_tools.Config.Numbers.Bounds.{parse_persistent_keepalive-lt, parse_ws_millis-lt}
use wireguard_tools.Config.Outcome.{done, returned, done-injective}
use wireguard_tools.Config.System.{System, IsSystem}
use wireguard_tools.Containers.{Peer}
use wireguard_tools.Encoding.Base64.Canonical.{key_from_base64_canonical}
use wireguard_tools.Encoding.Base64.{IsKey, key_from_base64}
use wireguard_tools.Config.WsUrl.{is_ws_url, ws_url_split, host_port, snprintf, parse_ws_endpoint}
use wireguard_tools.Config.Endpoint.{parse_endpoint}
use wireguard_tools.Prelude.{
  Bool, Option-cases, All-append, sym, ◌^◌, ◌<◌, ◌≡◌, arith, true, false, none, some, Bytes,
  IsBytes, All, Bool-cases, inl, inr,
}

-- None of the settings that WGPEER_HAS_WS_SETTINGS announces.
abbrev pub NoSettings : Peer → Type 0
NoSettings p =
    (p.wstunnel_target ≡ none)
    × (p.ws_bearer ≡ none)
    × (p.ws_mask ≡ false)
    × (p.ws_tls_ca ≡ none)
    × (p.ws_tls_cert ≡ none)
    × (p.ws_tls_key ≡ none)
    × (p.ws_tls_insecure ≡ false)
    × (p.ws_ping_interval_ms ≡ 0)
    × (p.ws_backoff_min_ms ≡ 0)
    × (p.ws_backoff_max_ms ≡ 0)

-- Keys are 32 bytes, numbers fit their fields, allowed IPs are well formed, the peer of a
-- file declares its transport, that of a command has its key,
-- and a setting is there only if its flag says so.
pub record IsPeer (file : Bool) (p : Peer) : Type 0 where
  pub public_key : IsKey p.public_key
  pub preshared_key : IsKey p.preshared_key
  pub keepalive : p.persistent_keepalive_interval < 65536
  pub ping : p.ws_ping_interval_ms < 2 ^ 32
  pub backoff_min : p.ws_backoff_min_ms < 2 ^ 32
  pub backoff_max : p.ws_backoff_max_ms < 2 ^ 32
  pub allowedips : All IsAllowedIp p.allowedips
  pub declared : file ≡ true → p.flags.has_transport ≡ true
  pub keyed : file ≡ false → p.flags.has_public_key ≡ true
  pub settings : p.flags.has_ws_settings ≡ false → NoSettings p

pub parse_key-IsKey : (old v : Bytes) → IsBytes v → (k : Bytes) → parse_key old v ≡ done k → IsKey k
unfolding parse_key
parse_key-IsKey old v h k e = elim (Bool-cases (key_from_base64 old v).0) [
  | inl good ↦
      subst IsKey (done-injective (rw good at e)) (key_from_base64_canonical old v h good).0
  | inr bad ↦ absurd cc (rw bad at e)
]

parse_ws_endpoint-IsPeer :
    {file : Bool} (sys : System) (v : Bytes) (p : Peer) {q : Peer}
    → IsPeer file p
    → parse_ws_endpoint sys p v ≡ done q
    → IsPeer file q
unfolding parse_ws_endpoint
parse_ws_endpoint-IsPeer {file} sys v p k e = elim (Option-cases (ws_url_split v 256 16)) [
  | inl out ↦ absurd cc (rw (out, parse_ws_endpoint) at e)
  | inr ((host, port), parts) ↦
      returned (IsPeer file) (parse_endpoint sys (snprintf 300 (host_port host port)))
        (λ addr. record p { endpoint = addr; ws_url = some v }) (rw (parts, parse_ws_endpoint) at e)
        (λ addr m. ground arith)
]

pub parse_allowedips-IsPeer :
    {file : Bool} (sys : System)
    → IsSystem sys
    → (v : Bytes) (p : Peer) {q : Peer} → IsPeer file p
    → parse_allowedips sys p v ≡ done q
    → IsPeer file q
parse_allowedips-IsPeer {file} sys ok v p k e =
    let x = parse_allowedips-Extends sys ok p v e in
    let both = All-append IsAllowedIp p.allowedips x.added k.allowedips x.valid in
    subst (IsPeer file) (sym x.result) (record {
      public_key = k.public_key;
      preshared_key = k.preshared_key;
      keepalive = k.keepalive;
      ping = k.ping;
      backoff_min = k.backoff_min;
      backoff_max = k.backoff_max;
      allowedips = both;
      declared = k.declared;
      keyed = k.keyed;
      settings = k.settings;
    })

-- On a system that keeps `IsSystem`, for a value of bytes and a well-formed peer, every accepted
-- `[Peer]` line keeps the fields of its peer well formed: keys of 32 bytes, numbers in their
-- widths, allowed IPs of their family's length and prefix, the flag that declares a file's
-- transport, the flag of a command's public key, and WebSocket settings only with the flag that
-- announces them.
pub set_peer_key-IsPeer :
    {file : Bool} (sys : System)
    → IsSystem sys
    → (key : PeerKey) (v : Bytes) (p : Peer) {q : Peer} → IsBytes v
    → IsPeer file p
    → set_peer_key sys key v p ≡ done q
    → IsPeer file q
unfolding set_peer_key
set_peer_key-IsPeer {file} sys ok endpoint v p h k e = elim (Bool-cases (is_ws_url v)) [
  | inl url ↦ parse_ws_endpoint-IsPeer sys v p k (rw url at e)
  | inr plain ↦
      returned (IsPeer file) (parse_endpoint sys v) (λ addr. record p { endpoint = addr })
        (rw plain at e) (λ addr m. ground arith)
]
set_peer_key-IsPeer {file} sys ok public_key v p h k e =
    returned (IsPeer file) _ _ e (λ b m. ground (arith, parse_key-IsKey p.public_key v h b m))
set_peer_key-IsPeer {file} sys ok allowed_ips v p h k e = parse_allowedips-IsPeer sys ok v p k e
set_peer_key-IsPeer {file} sys ok persistent_keepalive v p h k e =
    returned (IsPeer file) _ _ e (λ n m. ground (arith, parse_persistent_keepalive-lt v m))
set_peer_key-IsPeer {file} sys ok preshared_key v p h k e =
    returned (IsPeer file) _ _ e (λ b m. ground (arith, parse_key-IsKey p.preshared_key v h b m))
set_peer_key-IsPeer {file} sys ok ws_ping_interval v p h k e =
    returned (IsPeer file) _ _ e (λ n m. ground (arith, parse_ws_millis-lt v m))
set_peer_key-IsPeer {file} sys ok ws_backoff_min v p h k e =
    returned (IsPeer file) _ _ e (λ n m. ground (arith, parse_ws_millis-lt v m))
set_peer_key-IsPeer {file} sys ok ws_backoff_max v p h k e =
    returned (IsPeer file) _ _ e (λ n m. ground (arith, parse_ws_millis-lt v m))
set_peer_key-IsPeer {file} sys ok ws_mode v p h k e =
    returned (IsPeer file) _ _ e (λ a m. ground arith)
set_peer_key-IsPeer {file} sys ok wstunnel_target v p h k e =
    returned (IsPeer file) _ _ e (λ a m. ground arith)
set_peer_key-IsPeer {file} sys ok ws_bearer v p h k e =
    returned (IsPeer file) _ _ e (λ a m. ground arith)
set_peer_key-IsPeer {file} sys ok ws_mask v p h k e =
    returned (IsPeer file) _ _ e (λ a m. ground arith)
set_peer_key-IsPeer {file} sys ok ws_tls_ca v p h k e =
    returned (IsPeer file) _ _ e (λ a m. ground arith)
set_peer_key-IsPeer {file} sys ok ws_tls_cert v p h k e =
    returned (IsPeer file) _ _ e (λ a m. ground arith)
set_peer_key-IsPeer {file} sys ok ws_tls_key v p h k e =
    returned (IsPeer file) _ _ e (λ a m. ground arith)
set_peer_key-IsPeer {file} sys ok ws_tls_insecure v p h k e =
    returned (IsPeer file) _ _ e (λ a m. ground arith)
