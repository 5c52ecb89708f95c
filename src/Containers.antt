-- ===== src/Containers.antt =====
-- src/containers.h: the device, its peers and their allowed IPs. A flag word is a record with a
-- Boolean for each bit of its enumeration; a `next` chain with its `first` pointer is a list, and
-- a `char *` that may be NULL is an option.
use wireguard_tools.Prelude.{ℕ, Bool, true, false, Option, none, List, [], Bytes, replicate}

-- `sa_family` and `family`: AF_UNSPEC, AF_INET, AF_INET6 or any other number.
pub data Family : Type 0 where
  unspec inet inet6 other : Family

-- `struct wgallowedip`; the address is its bytes in network order, 4 or 16 of them.
pub record AllowedIp : Type 0 where
  pub family : Family
  pub ip : Bytes
  pub cidr : ℕ
  pub remove_me : Bool

-- `enum wgpeer_transport`
pub data Transport : Type 0 where
  udp websocket wstunnel : Transport

-- The `endpoint` union: family, address bytes and port. Zeroed memory has family AF_UNSPEC.
pub record Sockaddr : Type 0 where
  pub family : Family
  pub addr : Bytes
  pub port : ℕ

-- The bits WGPEER_*.
pub record PeerFlags : Type 0 where
  pub remove_me : Bool
  pub replace_allowedips : Bool
  pub has_public_key : Bool
  pub has_preshared_key : Bool
  pub has_keepalive : Bool
  pub has_transport : Bool
  pub has_ws_settings : Bool

-- `struct wgpeer`
pub record Peer : Type 0 where
  pub flags : PeerFlags
  pub public_key : Bytes
  pub preshared_key : Bytes
  pub endpoint : Sockaddr
  pub last_handshake_sec : ℕ
  pub last_handshake_nsec : ℕ
  pub rx_bytes : ℕ
  pub tx_bytes : ℕ
  pub persistent_keepalive_interval : ℕ
  pub transport : Transport
  pub ws_url : Option Bytes
  pub wstunnel_target : Option Bytes
  pub ws_bearer : Option Bytes
  pub ws_tls_ca : Option Bytes
  pub ws_tls_cert : Option Bytes
  pub ws_tls_key : Option Bytes
  pub ws_ping_interval_ms : ℕ
  pub ws_backoff_min_ms : ℕ
  pub ws_backoff_max_ms : ℕ
  pub ws_mask : Bool
  pub ws_tls_insecure : Bool
  pub allowedips : List AllowedIp

-- The bits WGDEVICE_*.
pub record DeviceFlags : Type 0 where
  pub replace_peers : Bool
  pub has_private_key : Bool
  pub has_public_key : Bool
  pub has_listen_port : Bool
  pub has_fwmark : Bool
  pub has_ws_listen : Bool
  pub has_ws_server_tls_cert : Bool
  pub has_ws_server_tls_key : Bool
  pub has_ws_server_bearer : Bool
  pub has_ws_trusted_proxies : Bool

-- `struct wgdevice`
pub record Device : Type 0 where
  pub name : Bytes
  pub flags : DeviceFlags
  pub public_key : Bytes
  pub private_key : Bytes
  pub fwmark : ℕ
  pub listen_port : ℕ
  pub ws_listen : Option Bytes
  pub ws_server_tls_cert : Option Bytes
  pub ws_server_tls_key : Option Bytes
  pub ws_server_bearer : Option Bytes
  pub ws_trusted_proxies : Option Bytes
  pub peers : List Peer

abbrev pub is_udp : Transport → Bool
is_udp udp = true
is_udp _ = false

abbrev pub zero_key : Bytes
zero_key = replicate 32 0

abbrev pub zero_sockaddr : Sockaddr
zero_sockaddr = record { family = unspec; addr = []; port = 0 }

abbrev pub zero_peer_flags : PeerFlags
zero_peer_flags = record {
  remove_me = false;
  replace_allowedips = false;
  has_public_key = false;
  has_preshared_key = false;
  has_keepalive = false;
  has_transport = false;
  has_ws_settings = false;
}

-- `calloc(1, sizeof(struct wgpeer))`
abbrev pub zero_peer : Peer
zero_peer = record {
  flags = zero_peer_flags;
  public_key = zero_key;
  preshared_key = zero_key;
  endpoint = zero_sockaddr;
  last_handshake_sec = 0;
  last_handshake_nsec = 0;
  rx_bytes = 0;
  tx_bytes = 0;
  persistent_keepalive_interval = 0;
  transport = udp;
  ws_url = none;
  wstunnel_target = none;
  ws_bearer = none;
  ws_tls_ca = none;
  ws_tls_cert = none;
  ws_tls_key = none;
  ws_ping_interval_ms = 0;
  ws_backoff_min_ms = 0;
  ws_backoff_max_ms = 0;
  ws_mask = false;
  ws_tls_insecure = false;
  allowedips = [];
}

abbrev pub zero_device_flags : DeviceFlags
zero_device_flags = record {
  replace_peers = false;
  has_private_key = false;
  has_public_key = false;
  has_listen_port = false;
  has_fwmark = false;
  has_ws_listen = false;
  has_ws_server_tls_cert = false;
  has_ws_server_tls_key = false;
  has_ws_server_bearer = false;
  has_ws_trusted_proxies = false;
}

-- `calloc(1, sizeof(struct wgdevice))`
abbrev pub zero_device : Device
zero_device = record {
  name = [];
  flags = zero_device_flags;
  public_key = zero_key;
  private_key = zero_key;
  fwmark = 0;
  listen_port = 0;
  ws_listen = none;
  ws_server_tls_cert = none;
  ws_server_tls_key = none;
  ws_server_bearer = none;
  ws_trusted_proxies = none;
  peers = [];
}

-- `family == AF_INET || family == AF_INET6`
abbrev pub is_inet : Family → Bool
is_inet inet = true
is_inet inet6 = true
is_inet _ = false

-- An allowed IP without its flag.
abbrev pub carried_ip : AllowedIp → AllowedIp
carried_ip a = record a { remove_me = false }
