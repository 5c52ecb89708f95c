-- ===== src/Showconf.antt =====
-- src/showconf.c: `showconf_main` on the device that it has read. The output is these texts one after
-- the other, each of them a line with its newline. `inet_ntop` and `getnameinfo` are parameters.
pub mod Lines
pub mod Plain
pub mod Section
pub mod KeyLines
pub mod Interface
pub mod Cut
pub mod Addresses
use wireguard_tools.Config.Numbers.{is_empty}
use wireguard_tools.Containers.{
  Family, unspec, inet, inet6, other, AllowedIp, Transport, udp, websocket, wstunnel, Sockaddr,
  Peer, PeerFlags, Device, DeviceFlags, is_udp,
}
use wireguard_tools.Encoding.Base64.{key_to_base64}
use wireguard_tools.Libc.Print.{print_dec, print_hex}
use wireguard_tools.Libc.Text.{contains}
use wireguard_tools.Prelude.{
  ℕ, Bool, true, false, not, ◌&&◌, Option, none, some, List, [], ◌∷◌, ◌++◌, ◌==◌, if◌then◌else◌,
  Bytes, codes,
}

pub record AddressNames : Type 0 where
  -- `inet_ntop` for AF_INET and AF_INET6
  pub ntop4 : Bytes → Option Bytes
  pub ntop6 : Bytes → Option Bytes
  -- `getnameinfo` with numeric host and service
  pub nameinfo : Sockaddr → Option (Bytes × Bytes)

-- `printf("<name> = <value>\n")`
abbrev pub key_line : Bytes → Bytes → Bytes
key_line name value = name ++ (b' ' ∷ b'=' ∷ b' ' ∷ (value ++ b'\n' ∷ []))

abbrev pub printed_if : Bool → Bytes → List Bytes
printed_if asked line = if asked then line ∷ [] else []

abbrev pub line_of : Bytes → Option Bytes → List Bytes
line_of name none = []
line_of name (some value) = key_line name value ∷ []

-- A text that is there and not empty.
abbrev pub filled : Option Bytes → Option Bytes
filled none = none
filled (some value) = if is_empty value then none else some value

unfoldable pub interface_lines : Device → List Bytes
interface_lines d =
    (codes "[Interface]" ++ b'\n' ∷ [])
    ∷ (printed_if (not (d.listen_port == 0))
          (key_line (codes "ListenPort") (print_dec d.listen_port))
        ++ (printed_if (not (d.fwmark == 0))
              (key_line (codes "FwMark") (b'0' ∷ b'x' ∷ print_hex d.fwmark))
            ++ (printed_if d.flags.has_private_key
                  (key_line (codes "PrivateKey") (key_to_base64 d.private_key))
                ++ (line_of (codes "WSListen") (filled d.ws_listen)
                    ++ (line_of (codes "WSServerTLSCert") (filled d.ws_server_tls_cert)
                        ++ (line_of (codes "WSServerTLSKey") (filled d.ws_server_tls_key)
                            ++ (line_of (codes "WSServerBearer") (filled d.ws_server_bearer)
                                ++ (line_of (codes "WSTrustedProxies") (filled d.ws_trusted_proxies)
                                    ++ (b'\n' ∷ []) ∷ []))))))))

unfoldable pub ip_text : AddressNames → AllowedIp → Option Bytes
ip_text names a = elim a.family [ inet ↦ names.ntop4 a.ip | inet6 ↦ names.ntop6 a.ip | _ ↦ none ]

-- The loop over the allowed IPs; where one has no text, the comma behind it is left out too.
unfoldable pub ips_text : AddressNames → List AllowedIp → Bytes
ips_text names [] = []
ips_text names (a ∷ left) = elim (ip_text names a) [
  | none ↦ ips_text names left
  | some ip ↦
      let comma : Bytes = elim left [ [] ↦ [] | ◌∷◌ b more ↦ b',' ∷ b' ' ∷ [] ] in
      ip ++ (b'/' ∷ (print_dec a.cidr ++ (comma ++ ips_text names left)))
]

abbrev pub allowedips_lines : AddressNames → List AllowedIp → List Bytes
allowedips_lines names [] = []
allowedips_lines names (a ∷ left) = key_line (codes "AllowedIPs") (ips_text names (a ∷ left)) ∷ []

abbrev pub is_ipv6 : Family → Bool
is_ipv6 inet6 = true
is_ipv6 _ = false

abbrev pub is_ipv4 : Family → Bool
is_ipv4 inet = true
is_ipv4 _ = false

unfoldable pub endpoint_line : AddressNames → Sockaddr → List Bytes
endpoint_line names addr =
    if is_ipv4 addr.family
    then elim (names.nameinfo addr) [
      | none ↦ []
      | some (host, service) ↦ key_line (codes "Endpoint") (host ++ b':' ∷ service) ∷ []
    ]
    else if is_ipv6 addr.family
    then elim (names.nameinfo addr) [
      | none ↦ []
      | some (host, service) ↦
          key_line (codes "Endpoint") (
            if contains b':' host
            then b'[' ∷ (host ++ (b']' ∷ b':' ∷ service))
            else host ++ b':' ∷ service)
          ∷ []
    ]
    else []

abbrev pub mode_text : Transport → Bytes
mode_text wstunnel = codes "wstunnel"
mode_text _ = codes "websocket"

unfoldable pub ws_section : Peer → List Bytes
ws_section p =
    key_line (codes "WSMode") (mode_text p.transport)
    ∷ (line_of (codes "Endpoint") p.ws_url
        ++ (line_of (codes "WSTunnelTarget") p.wstunnel_target
            ++ (line_of (codes "WSBearer") p.ws_bearer
                ++ (printed_if p.ws_mask (key_line (codes "WSMask") (codes "true"))
                    ++ (line_of (codes "WSTLSCA") p.ws_tls_ca
                        ++ (line_of (codes "WSTLSCert") p.ws_tls_cert
                            ++ (line_of (codes "WSTLSKey") p.ws_tls_key
                                ++ (printed_if p.ws_tls_insecure
                                      (key_line (codes "WSTLSInsecure") (codes "true"))
                                    ++ (printed_if (not (p.ws_ping_interval_ms == 0)) (
                                          key_line (codes "WSPingInterval")
                                            (print_dec p.ws_ping_interval_ms))
                                        ++ (printed_if (not (p.ws_backoff_min_ms == 0)) (
                                              key_line (codes "WSBackoffMin")
                                                (print_dec p.ws_backoff_min_ms))
                                            ++ printed_if (not (p.ws_backoff_max_ms == 0)) (
                                                key_line (codes "WSBackoffMax")
                                                  (print_dec p.ws_backoff_max_ms))))))))))))

unfoldable pub peer_section : AddressNames → Peer → List Bytes
peer_section names p =
    (codes "[Peer]" ++ b'\n' ∷ [])
    ∷ key_line (codes "PublicKey") (key_to_base64 p.public_key)
    ∷ (printed_if p.flags.has_preshared_key
          (key_line (codes "PresharedKey") (key_to_base64 p.preshared_key))
        ++ (allowedips_lines names p.allowedips
            ++ ((if is_udp p.transport then endpoint_line names p.endpoint else ws_section p)
                ++ printed_if (not (p.persistent_keepalive_interval == 0)) (
                    key_line (codes "PersistentKeepalive")
                      (print_dec p.persistent_keepalive_interval)))))

unfoldable pub peers_lines : AddressNames → List Peer → List Bytes
peers_lines names [] = []
peers_lines names (p ∷ ps) =
    let gap : List Bytes = elim ps [ [] ↦ [] | ◌∷◌ q qs ↦ (b'\n' ∷ []) ∷ [] ] in
    peer_section names p ++ (gap ++ peers_lines names ps)

unfoldable pub showconf : AddressNames → Device → List Bytes
showconf names d = interface_lines d ++ peers_lines names d.peers
