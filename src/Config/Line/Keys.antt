-- ===== src/Config/Line/Keys.antt =====
-- src/config.c: the keys of `process_line` in the order in which the source tries them, and what
-- each of them does with its value.
use wireguard_tools.Config.AllowedIps.{parse_allowedips}
use wireguard_tools.Config.Endpoint.{parse_endpoint}
use wireguard_tools.Config.Keys.{parse_key}
use wireguard_tools.Config.Numbers.{
  parse_port, parse_fwmark, parse_persistent_keepalive, parse_ws_millis,
}
use wireguard_tools.Config.Outcome.{Outcome, done, ◌>>=◌}
use wireguard_tools.Config.System.{System}
use wireguard_tools.Config.WsUrl.{is_ws_url, parse_ws_endpoint}
use wireguard_tools.Config.WsValues.{
  parse_ws_mode, parse_ws_target, parse_ws_bool, parse_ws_str, parse_ws_device_str, parse_ws_listen,
}
use wireguard_tools.Containers.{Peer, Device}
use wireguard_tools.Libc.Text.{strip_prefix}
use wireguard_tools.Prelude.{
  Bool, true, false, Option, none, some, List, [], ◌∷◌, leb, if◌then◌else◌, Bytes, codes, length,
}

pub data DeviceKey : Type 0 where
  listen_port fwmark private_key ws_listen ws_server_tls_cert ws_server_tls_key : DeviceKey
  ws_server_bearer ws_trusted_proxies : DeviceKey

pub data PeerKey : Type 0 where
  endpoint public_key allowed_ips persistent_keepalive preshared_key ws_mode : PeerKey
  wstunnel_target ws_bearer ws_mask ws_tls_ca ws_tls_cert ws_tls_key ws_tls_insecure : PeerKey
  ws_ping_interval ws_backoff_min ws_backoff_max : PeerKey

-- A key as it is written, whether its value may be empty, and what it stands for.
abbrev pub device_keys : List (Bytes × Bool × DeviceKey)
device_keys =
    (codes "ListenPort=", false, listen_port)
    ∷ (codes "FwMark=", false, fwmark)
    ∷ (codes "PrivateKey=", false, private_key)
    ∷ (codes "WSListen=", true, ws_listen)
    ∷ (codes "WSServerTLSCert=", true, ws_server_tls_cert)
    ∷ (codes "WSServerTLSKey=", true, ws_server_tls_key)
    ∷ (codes "WSServerBearer=", true, ws_server_bearer)
    ∷ (codes "WSTrustedProxies=", true, ws_trusted_proxies)
    ∷ []

abbrev pub peer_keys : List (Bytes × Bool × PeerKey)
peer_keys =
    (codes "Endpoint=", false, endpoint)
    ∷ (codes "PublicKey=", false, public_key)
    ∷ (codes "AllowedIPs=", false, allowed_ips)
    ∷ (codes "PersistentKeepalive=", false, persistent_keepalive)
    ∷ (codes "PresharedKey=", false, preshared_key)
    ∷ (codes "WSMode=", false, ws_mode)
    ∷ (codes "WSTunnelTarget=", false, wstunnel_target)
    ∷ (codes "WSBearer=", false, ws_bearer)
    ∷ (codes "WSMask=", false, ws_mask)
    ∷ (codes "WSTLSCA=", false, ws_tls_ca)
    ∷ (codes "WSTLSCert=", false, ws_tls_cert)
    ∷ (codes "WSTLSKey=", false, ws_tls_key)
    ∷ (codes "WSTLSInsecure=", false, ws_tls_insecure)
    ∷ (codes "WSPingInterval=", false, ws_ping_interval)
    ∷ (codes "WSBackoffMin=", false, ws_backoff_min)
    ∷ (codes "WSBackoffMax=", false, ws_backoff_max)
    ∷ []

-- `get_value`: a line that ends behind the key has no value.
unfoldable pub get_value : Bytes → Bytes → Option Bytes
get_value line key = if leb (length line) (length key) then none else strip_prefix key line

-- The first key that the line begins with, in any case, and the text behind it.
unfoldable pub find_key : {K : Type 0} → List (Bytes × Bool × K) → Bytes → Option (K × Bytes)
unfolding get_value
find_key [] line = none
find_key ((name, may_be_empty, key) ∷ table) line =
    elim (if may_be_empty then strip_prefix name line else get_value line name) [
      | some value ↦ some (key, value)
      | none ↦ find_key table line
    ]

unfoldable pub set_device_key : System → DeviceKey → Bytes → Device → Outcome Device
set_device_key sys listen_port v d = do
  n ← parse_port sys v
  done (record d { listen_port = n; flags = record (d.flags) { has_listen_port = true } })
set_device_key sys fwmark v d = do
  n ← parse_fwmark v
  done (record d { fwmark = n; flags = record (d.flags) { has_fwmark = true } })
set_device_key sys private_key v d = do
  k ← parse_key d.private_key v
  done (record d { private_key = k; flags = record (d.flags) { has_private_key = true } })
set_device_key sys ws_listen v d = do
  s ← parse_ws_listen v
  done (record d { ws_listen = s; flags = record (d.flags) { has_ws_listen = true } })
set_device_key sys ws_server_tls_cert v d = done (record d {
  ws_server_tls_cert = parse_ws_device_str v;
  flags = record (d.flags) { has_ws_server_tls_cert = true };
})
set_device_key sys ws_server_tls_key v d = done (record d {
  ws_server_tls_key = parse_ws_device_str v;
  flags = record (d.flags) { has_ws_server_tls_key = true };
})
set_device_key sys ws_server_bearer v d = done (record d {
  ws_server_bearer = parse_ws_device_str v;
  flags = record (d.flags) { has_ws_server_bearer = true };
})
set_device_key sys ws_trusted_proxies v d = done (record d {
  ws_trusted_proxies = parse_ws_device_str v;
  flags = record (d.flags) { has_ws_trusted_proxies = true };
})

-- `flags |= WGPEER_HAS_WS_SETTINGS`
abbrev pub with_settings : Peer → Peer
with_settings p = record p { flags = record (p.flags) { has_ws_settings = true } }

unfoldable pub set_peer_key : System → PeerKey → Bytes → Peer → Outcome Peer
set_peer_key sys endpoint v p =
    if is_ws_url v
    then parse_ws_endpoint sys p v
    else parse_endpoint sys v >>= λ addr. done (record p { endpoint = addr })
set_peer_key sys public_key v p = do
  k ← parse_key p.public_key v
  done (record p { public_key = k; flags = record (p.flags) { has_public_key = true } })
set_peer_key sys allowed_ips v p = parse_allowedips sys p v
set_peer_key sys persistent_keepalive v p = do
  n ← parse_persistent_keepalive v
  done (record p {
    persistent_keepalive_interval = n;
    flags = record (p.flags) { has_keepalive = true };
  })
set_peer_key sys preshared_key v p = do
  k ← parse_key p.preshared_key v
  done (record p { preshared_key = k; flags = record (p.flags) { has_preshared_key = true } })
set_peer_key sys ws_mode v p = do t ← parse_ws_mode v; done (record p { transport = t })
set_peer_key sys wstunnel_target v p = do
  s ← parse_ws_target v
  done (with_settings (record p { wstunnel_target = some s }))
set_peer_key sys ws_bearer v p = do
  s ← parse_ws_str v
  done (with_settings (record p { ws_bearer = some s }))
set_peer_key sys ws_mask v p = do
  b ← parse_ws_bool v
  done (with_settings (record p { ws_mask = b }))
set_peer_key sys ws_tls_ca v p = do
  s ← parse_ws_str v
  done (with_settings (record p { ws_tls_ca = some s }))
set_peer_key sys ws_tls_cert v p = do
  s ← parse_ws_str v
  done (with_settings (record p { ws_tls_cert = some s }))
set_peer_key sys ws_tls_key v p = do
  s ← parse_ws_str v
  done (with_settings (record p { ws_tls_key = some s }))
set_peer_key sys ws_tls_insecure v p = do
  b ← parse_ws_bool v
  done (with_settings (record p { ws_tls_insecure = b }))
set_peer_key sys ws_ping_interval v p = do
  n ← parse_ws_millis v
  done (with_settings (record p { ws_ping_interval_ms = n }))
set_peer_key sys ws_backoff_min v p = do
  n ← parse_ws_millis v
  done (with_settings (record p { ws_backoff_min_ms = n }))
set_peer_key sys ws_backoff_max v p = do
  n ← parse_ws_millis v
  done (with_settings (record p { ws_backoff_max_ms = n }))
