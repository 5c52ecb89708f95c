-- ===== src/Config/Command.antt =====
-- src/config.c: `config_read_cmd`, the arguments of `wg set`. The pointer `peer` is NULL exactly while
-- the device has no peer, and is the last peer otherwise; `allowedip` is that peer's last entry.
pub mod Step
pub mod Read
pub mod NoFault
use wireguard_tools.Config.AllowedIps.{parse_allowedips}
use wireguard_tools.Config.Keys.{parse_key, parse_keyfile, parse_ws_secret_file}
use wireguard_tools.Config.Line.Keys.{
  DeviceKey, PeerKey, set_device_key, set_peer_key, with_settings,
}
use wireguard_tools.Config.Line.Keys
use wireguard_tools.Config.Line.{update_last, strip_spaces}
use wireguard_tools.Config.Numbers.{is_empty}
use wireguard_tools.Config.Outcome.{Outcome, done, fail, ◌>>=◌}
use wireguard_tools.Config.System.{System}
use wireguard_tools.Config.WsPeer.{validate_ws_peer}
use wireguard_tools.Containers.{
  Peer, PeerFlags, Device, DeviceFlags, zero_peer, zero_key, zero_device,
}
use wireguard_tools.Prelude.{
  Bool, true, false, not, ◌&&◌, Option, none, some, List, [], ◌∷◌, ◌++◌, if◌then◌else◌, Bytes,
  codes, equal, all,
}

abbrev pub device_words : List (Bytes × DeviceKey)
device_words =
    (codes "listen-port", Keys.listen_port)
    ∷ (codes "fwmark", Keys.fwmark)
    ∷ (codes "private-key", Keys.private_key)
    ∷ (codes "ws-listen", Keys.ws_listen)
    ∷ (codes "ws-server-tls-cert", Keys.ws_server_tls_cert)
    ∷ (codes "ws-server-tls-key", Keys.ws_server_tls_key)
    ∷ (codes "ws-server-bearer", Keys.ws_server_bearer)
    ∷ (codes "ws-trusted-proxies", Keys.ws_trusted_proxies)
    ∷ []

abbrev pub peer_words : List (Bytes × PeerKey)
peer_words =
    (codes "endpoint", Keys.endpoint)
    ∷ (codes "ws-mode", Keys.ws_mode)
    ∷ (codes "wstunnel-target", Keys.wstunnel_target)
    ∷ (codes "ws-bearer", Keys.ws_bearer)
    ∷ (codes "ws-mask", Keys.ws_mask)
    ∷ (codes "ws-tls-ca", Keys.ws_tls_ca)
    ∷ (codes "ws-tls-cert", Keys.ws_tls_cert)
    ∷ (codes "ws-tls-key", Keys.ws_tls_key)
    ∷ (codes "ws-tls-insecure", Keys.ws_tls_insecure)
    ∷ (codes "ws-ping-interval", Keys.ws_ping_interval)
    ∷ (codes "ws-backoff-min", Keys.ws_backoff_min)
    ∷ (codes "ws-backoff-max", Keys.ws_backoff_max)
    ∷ (codes "allowed-ips", Keys.allowed_ips)
    ∷ (codes "persistent-keepalive", Keys.persistent_keepalive)
    ∷ (codes "preshared-key", Keys.preshared_key)
    ∷ []

-- The branch that an argument selects by its exact spelling.
unfoldable pub find_word : {K : Type 0} → List (Bytes × K) → Bytes → Option K
find_word [] word = none
find_word ((name, key) ∷ table) word = if equal word name then some key else find_word table word

abbrev pub with_transport : Peer → Peer
with_transport p = record p { flags = record (p.flags) { has_transport = true } }

-- The keys whose branch is not the one of `process_line` read a file.
unfoldable pub command_device_key : System → DeviceKey → Bytes → Device → Outcome Device
command_device_key sys Keys.private_key v d = do
  k ← parse_keyfile sys d.private_key v
  done (record d { private_key = k; flags = record (d.flags) { has_private_key = true } })
command_device_key sys Keys.ws_server_bearer v d = do
  s ← parse_ws_secret_file sys v
  done (record d {
    ws_server_bearer = some s;
    flags = record (d.flags) { has_ws_server_bearer = true };
  })
command_device_key sys key v d = set_device_key sys key v d

-- `endpoint` and `ws-mode` declare the transport.
unfoldable pub command_peer_key : System → PeerKey → Bytes → Peer → Outcome Peer
command_peer_key sys Keys.endpoint v p = set_peer_key sys Keys.endpoint v (with_transport p)
command_peer_key sys Keys.ws_mode v p = set_peer_key sys Keys.ws_mode v (with_transport p)
command_peer_key sys Keys.ws_bearer v p = do
  s ← parse_ws_secret_file sys v
  done (with_settings (record p { ws_bearer = some s }))
command_peer_key sys Keys.allowed_ips v p = parse_allowedips sys p (strip_spaces v)
command_peer_key sys Keys.preshared_key v p = do
  k ← parse_keyfile sys p.preshared_key v
  done (record p { preshared_key = k; flags = record (p.flags) { has_preshared_key = true } })
command_peer_key sys key v p = set_peer_key sys key v p

abbrev pub no_peer : Device → Bool
no_peer d = elim d.peers [ [] ↦ true | ◌∷◌ p ps ↦ false ]

-- The peer that `peer` starts.
abbrev pub keyed_peer : Bytes → Peer
keyed_peer k = record zero_peer {
  public_key = k;
  flags = record (zero_peer.flags) { has_public_key = true };
}

abbrev pub add_peer : Bytes → Device → Outcome Device
add_peer v d = do k ← parse_key zero_key v; done (record d { peers = d.peers ++ keyed_peer k ∷ [] })

abbrev pub change_last : (Peer → Outcome Peer) → Device → Outcome Device
change_last f d = do ps ← update_last f d.peers; done (record d { peers = ps })

abbrev pub device_word : System → Bytes → Bytes → Device → Outcome Device
device_word sys word v d = elim (find_word device_words word) [
  | none ↦ fail
  | some key ↦ command_device_key sys key v d
]

abbrev pub peer_word : System → Bytes → Bytes → Device → Outcome Device
peer_word sys word v d = elim (find_word peer_words word) [
  | none ↦ fail
  | some key ↦ change_last (command_peer_key sys key v) d
]

-- An argument with its value.
unfoldable pub pair_step : System → Bytes → Bytes → Device → Outcome Device
pair_step sys word v d =
    if equal word (codes "peer")
    then add_peer v d
    else if no_peer d
    then device_word sys word v d
    else peer_word sys word v d

abbrev pub removed : Peer → Outcome Peer
removed p = done (record p { flags = record (p.flags) { remove_me = true } })

unfoldable pub is_remove : Bytes → Device → Bool
is_remove word d = equal word (codes "remove") && not (no_peer d)

-- The loop over the arguments.
unfoldable pub read_args : System → List Bytes → Device → Outcome Device
read_args sys [] d = done d
read_args sys (word ∷ []) d = if is_remove word d then change_last removed d else fail
read_args sys (word ∷ v ∷ args) d =
    if is_remove word d
    then change_last removed d >>= read_args sys (v ∷ args)
    else pair_step sys word v d >>= read_args sys args

unfoldable pub config_read_cmd : System → List Bytes → Outcome Device
config_read_cmd sys args = do
  d ← read_args sys args zero_device
  if all validate_ws_peer d.peers then done d else fail
