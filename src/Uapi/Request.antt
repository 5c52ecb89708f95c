-- ===== src/Uapi/Request.antt =====
-- src/ipc-uapi.h: the request that `userspace_set_device` writes, as its lines without their newlines
-- and without the empty line at the end.
use wireguard_tools.Containers.{
  is_udp, Family, inet, inet6, AllowedIp, Transport, udp, websocket, wstunnel, Sockaddr, Peer,
  Device, is_inet,
}
use wireguard_tools.Encoding.Hex.{key_to_hex}
use wireguard_tools.Libc.Print.{print_dec}
use wireguard_tools.Libc.Text.{contains}
use wireguard_tools.Prelude.{
  ℕ, Bool, true, false, not, ◌&&◌, ◌||◌, Option, none, some, List, [], ◌∷◌, ◌++◌, ◌==◌,
  if◌then◌else◌, Bytes, codes,
}

-- `getnameinfo` with NI_NUMERICHOST and NI_NUMERICSERV, and `inet_ntop`.
pub record Names : Type 0 where
  pub name_info : Sockaddr → Option (Bytes × Bytes)
  pub ntop4 : Bytes → Option Bytes
  pub ntop6 : Bytes → Option Bytes

-- A line that is written under a condition.
abbrev pub line_if : Bool → Bytes → List Bytes
line_if b line = if b then line ∷ [] else []

-- A string with its key, where there is one.
abbrev pub some_line : Bytes → Option Bytes → List Bytes
some_line key none = []
some_line key (some v) = (key ++ v) ∷ []

-- A NULL string is printed as the empty one.
abbrev pub or_empty : Option Bytes → Bytes
or_empty none = []
or_empty (some v) = v

abbrev pub number_line : Bytes → ℕ → List Bytes
number_line key n = line_if (not (n == 0)) (key ++ print_dec n)

abbrev pub transport_name : Transport → Bytes
transport_name wstunnel = codes "wstunnel"
transport_name websocket = codes "websocket"
transport_name udp = codes "udp"

abbrev pub is_six : Family → Bool
is_six inet6 = true
is_six _ = false

-- `endpoint=`
unfoldable pub endpoint_lines : Names → Peer → List Bytes
endpoint_lines names p =
    if is_inet p.endpoint.family
    then elim (names.name_info p.endpoint) [
      | none ↦ []
      | some (host, service) ↦
          (if is_six p.endpoint.family && contains b':' host
            then codes "endpoint=[" ++ (host ++ (codes "]:" ++ service))
            else codes "endpoint=" ++ (host ++ (b':' ∷ service)))
          ∷ []
    ]
    else []

-- The settings of a WebSocket peer.
unfoldable pub ws_settings : Peer → List Bytes
ws_settings p =
    some_line (codes "ws_url=") p.ws_url
    ++ (some_line (codes "wstunnel_target=") p.wstunnel_target
        ++ (some_line (codes "ws_bearer=") p.ws_bearer
            ++ (line_if p.ws_mask (codes "ws_mask=true")
                ++ (some_line (codes "ws_tls_ca=") p.ws_tls_ca
                    ++ (some_line (codes "ws_tls_cert=") p.ws_tls_cert
                        ++ (some_line (codes "ws_tls_key=") p.ws_tls_key
                            ++ (line_if p.ws_tls_insecure (codes "ws_tls_insecure=true")
                                ++ (number_line (codes "ws_ping_interval=") p.ws_ping_interval_ms
                                    ++ (number_line (codes "ws_backoff_min=") p.ws_backoff_min_ms
                                        ++ number_line (codes "ws_backoff_max=")
                                            p.ws_backoff_max_ms)))))))))

unfoldable pub ws_lines : Peer → List Bytes
ws_lines p =
    if not (is_udp p.transport) || p.flags.has_ws_settings && not p.flags.has_transport
    then ws_settings p
    else []

abbrev pub ntop : Names → AllowedIp → Option Bytes
ntop names a = elim a.family [ inet ↦ names.ntop4 a.ip | inet6 ↦ names.ntop6 a.ip | _ ↦ none ]

-- `allowed_ip=`; an address that is not printed is skipped.
unfoldable pub allowedip_lines : Names → List AllowedIp → List Bytes
allowedip_lines names [] = []
allowedip_lines names (a ∷ as') = elim (ntop names a) [
  | none ↦ allowedip_lines names as'
  | some ip ↦
      (codes "allowed_ip="
        ++ ((if a.remove_me then codes "-" else []) ++ (ip ++ (b'/' ∷ print_dec a.cidr))))
      ∷ allowedip_lines names as'
]

-- What is written of a peer between its transport and its WebSocket settings, and after them.
unfoldable pub peer_lines : Names → Peer → List Bytes
unfolding endpoint_lines ws_lines
peer_lines names p =
    (codes "public_key=" ++ key_to_hex p.public_key)
    ∷ (if p.flags.remove_me
        then codes "remove=true" ∷ []
        else line_if p.flags.has_preshared_key
            (codes "preshared_key=" ++ key_to_hex p.preshared_key)
          ++ (line_if p.flags.has_transport (codes "transport=" ++ transport_name p.transport)
              ++ (endpoint_lines names p
                  ++ (ws_lines p
                      ++ (line_if p.flags.has_keepalive (
                            codes "persistent_keepalive_interval="
                            ++ print_dec p.persistent_keepalive_interval)
                          ++ (line_if p.flags.replace_allowedips (codes "replace_allowed_ips=true")
                              ++ allowedip_lines names p.allowedips))))))

unfoldable pub all_peer_lines : Names → List Peer → List Bytes
all_peer_lines names [] = []
all_peer_lines names (p ∷ ps) = peer_lines names p ++ all_peer_lines names ps

abbrev pub device_lines : Device → List Bytes
device_lines d =
    line_if d.flags.has_private_key (codes "private_key=" ++ key_to_hex d.private_key)
    ++ (line_if d.flags.has_listen_port (codes "listen_port=" ++ print_dec d.listen_port)
        ++ (line_if d.flags.has_fwmark (codes "fwmark=" ++ print_dec d.fwmark)
            ++ (line_if d.flags.has_ws_listen (codes "ws_listen=" ++ or_empty d.ws_listen)
                ++ (line_if d.flags.has_ws_server_tls_cert
                      (codes "ws_server_tls_cert=" ++ or_empty d.ws_server_tls_cert)
                    ++ (line_if d.flags.has_ws_server_tls_key
                          (codes "ws_server_tls_key=" ++ or_empty d.ws_server_tls_key)
                        ++ (line_if d.flags.has_ws_server_bearer
                              (codes "ws_server_bearer=" ++ or_empty d.ws_server_bearer)
                            ++ (line_if d.flags.has_ws_trusted_proxies
                                  (codes "ws_trusted_proxies=" ++ or_empty d.ws_trusted_proxies)
                                ++ line_if d.flags.replace_peers (codes "replace_peers=true"))))))))

unfoldable pub set_request : Names → Device → List Bytes
set_request names d = codes "set=1" ∷ (device_lines d ++ all_peer_lines names d.peers)
