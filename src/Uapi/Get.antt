-- ===== src/Uapi/Get.antt =====
-- src/ipc-uapi.h: `userspace_get_device`, the reader of the daemon's answer to a get request, as the
-- lines that `getline` yields up to the end of the stream. No line has a NUL byte.
-- The pointer `peer` is NULL exactly while the device has no peer, and is the last peer otherwise.
use wireguard_tools.Config.Endpoint.{endpoint_parts}
use wireguard_tools.Config.Line.Keys.{DeviceKey}
use wireguard_tools.Config.Line.Keys
use wireguard_tools.Config.Numbers.{first_byte, is_empty, is_known}
use wireguard_tools.Config.Outcome.{Outcome, done, fail, unreachable, ◌>>=◌}
use wireguard_tools.Config.System.{System, resolved}
use wireguard_tools.Containers.{
  Family, unspec, inet, inet6, other, AllowedIp, Transport, udp, websocket, wstunnel, Sockaddr,
  Device,
}
use wireguard_tools.Ctype.{char_is_digit}
use wireguard_tools.Encoding.Hex.{key_from_hex}
use wireguard_tools.Libc.Number.{strtoul}
use wireguard_tools.Libc.Text.{contains, split_first}
use wireguard_tools.Prelude.{
  ℕ, Bool, true, false, not, ◌&&◌, ◌||◌, none, some, List, [], ◌∷◌, ltb, if◌then◌else◌, Bytes,
  codes, equal, char_int, u8,
}

-- The keys of a peer's lines.
pub data Field : Type 0 where
  preshared_key endpoint transport ws_url wstunnel_target ws_bearer ws_tls_ca ws_tls_cert : Field
  ws_tls_key ws_mask ws_tls_insecure ws_ping_interval ws_backoff_min ws_backoff_max : Field
  persistent_keepalive_interval allowed_ip last_handshake_time_sec last_handshake_time_nsec : Field
  rx_bytes tx_bytes : Field

abbrev pub device_fields : List (Bytes × DeviceKey)
device_fields =
    (codes "private_key", Keys.private_key)
    ∷ (codes "listen_port", Keys.listen_port)
    ∷ (codes "fwmark", Keys.fwmark)
    ∷ (codes "ws_listen", Keys.ws_listen)
    ∷ (codes "ws_server_tls_cert", Keys.ws_server_tls_cert)
    ∷ (codes "ws_server_tls_key", Keys.ws_server_tls_key)
    ∷ (codes "ws_server_bearer", Keys.ws_server_bearer)
    ∷ (codes "ws_trusted_proxies", Keys.ws_trusted_proxies)
    ∷ []

abbrev pub peer_fields : List (Bytes × Field)
peer_fields =
    (codes "preshared_key", preshared_key)
    ∷ (codes "endpoint", endpoint)
    ∷ (codes "transport", transport)
    ∷ (codes "ws_url", ws_url)
    ∷ (codes "wstunnel_target", wstunnel_target)
    ∷ (codes "ws_bearer", ws_bearer)
    ∷ (codes "ws_tls_ca", ws_tls_ca)
    ∷ (codes "ws_tls_cert", ws_tls_cert)
    ∷ (codes "ws_tls_key", ws_tls_key)
    ∷ (codes "ws_mask", ws_mask)
    ∷ (codes "ws_tls_insecure", ws_tls_insecure)
    ∷ (codes "ws_ping_interval", ws_ping_interval)
    ∷ (codes "ws_backoff_min", ws_backoff_min)
    ∷ (codes "ws_backoff_max", ws_backoff_max)
    ∷ (codes "persistent_keepalive_interval", persistent_keepalive_interval)
    ∷ (codes "allowed_ip", allowed_ip)
    ∷ (codes "last_handshake_time_sec", last_handshake_time_sec)
    ∷ (codes "last_handshake_time_nsec", last_handshake_time_nsec)
    ∷ (codes "rx_bytes", rx_bytes)
    ∷ (codes "tx_bytes", tx_bytes)
    ∷ []

-- `NUM`
unfoldable pub num : ℕ → Bytes → Outcome ℕ
num max value =
    let (n, rest) = strtoul 10 value in
    if not (char_is_digit (char_int (first_byte value)))
    then fail
    else if not (is_empty rest) || ltb max n
    then fail
    else done n

-- A key that is read over zero bytes.
unfoldable pub hex_key : Bytes → Bytes → Outcome Bytes
hex_key key value = let (good, key') = key_from_hex key value in if good then done key' else fail

-- The parameter is `curve25519_generate_public`.
unfoldable pub get_device_key : (Bytes → Bytes) → DeviceKey → Bytes → Device → Outcome Device
unfolding num hex_key
get_device_key derive Keys.private_key v d = do
  k ← hex_key d.private_key v
  done (record d {
    private_key = k;
    public_key = derive k;
    flags = record (d.flags) { has_private_key = true; has_public_key = true };
  })
get_device_key derive Keys.listen_port v d = do
  n ← num 0xffff v
  done (record d { listen_port = n; flags = record (d.flags) { has_listen_port = true } })
get_device_key derive Keys.fwmark v d = do
  n ← num 0xffffffff v
  done (record d { fwmark = n; flags = record (d.flags) { has_fwmark = true } })
get_device_key derive Keys.ws_listen v d =
    done (record d { ws_listen = some v; flags = record (d.flags) { has_ws_listen = true } })
get_device_key derive Keys.ws_server_tls_cert v d = done (record d {
  ws_server_tls_cert = some v;
  flags = record (d.flags) { has_ws_server_tls_cert = true };
})
get_device_key derive Keys.ws_server_tls_key v d = done (record d {
  ws_server_tls_key = some v;
  flags = record (d.flags) { has_ws_server_tls_key = true };
})
get_device_key derive Keys.ws_server_bearer v d = done (record d {
  ws_server_bearer = some v;
  flags = record (d.flags) { has_ws_server_bearer = true };
})
get_device_key derive Keys.ws_trusted_proxies v d = done (record d {
  ws_trusted_proxies = some v;
  flags = record (d.flags) { has_ws_trusted_proxies = true };
})

unfoldable pub get_endpoint : System → Bytes → Outcome Sockaddr
get_endpoint sys v = if is_empty v then fail else elim (endpoint_parts v) [
  | none ↦ fail
  | some (host, port) ↦ elim (sys.lookup 0 host port) [
    | resolved r ↦ if is_known r.ai_family r.ai_addrlen then done r.ai_addr else fail
    | _ ↦ unreachable
  ]
]

unfoldable pub get_transport : Bytes → Transport
get_transport v =
    if equal v (codes "wstunnel")
    then wstunnel
    else if equal v (codes "websocket")
    then websocket
    else udp

-- The family and bytes of an address; AF_UNSPEC for a text that is none.
unfoldable pub get_address : System → Bytes → Family × Bytes
get_address sys ip =
    if contains b':' ip
    then elim (sys.pton6 ip) [ some a ↦ (inet6, a) | none ↦ (unspec, []) ]
    else elim (sys.pton4 ip) [ some a ↦ (inet, a) | none ↦ (unspec, []) ]

-- The last test, on the prefix length as it is stored.
unfoldable pub fits_family : Family → ℕ → Bool
fits_family inet6 cidr = not (ltb 128 cidr)
fits_family inet cidr = not (ltb 32 cidr)
fits_family unspec cidr = false
fits_family other cidr = true

-- `cidr` is a `uint8_t`.
unfoldable pub get_allowedip : System → Bytes → Outcome AllowedIp
get_allowedip sys v = elim (split_first b'/' v) [
  | none ↦ fail
  | some (ip, mask) ↦
      if not (char_is_digit (char_int (first_byte mask)))
      then fail
      else (let (n, rest) = strtoul 10 mask in
          let (family, a) = get_address sys ip in
          if is_empty rest && fits_family family (u8 n)
          then done (record { family = family; ip = a; cidr = u8 n; remove_me = false })
          else fail)
]
