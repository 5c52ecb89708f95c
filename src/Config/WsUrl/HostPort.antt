-- ===== src/Config/WsUrl/HostPort.antt =====
-- src/config.c: what `parse_ws_endpoint` hands on to `parse_endpoint`.
use wireguard_tools.Config.Endpoint.{parse_endpoint, endpoint_parts}
use wireguard_tools.Config.Numbers.{is_empty, first_byte}
use wireguard_tools.Config.Outcome.{done, ◌>>=◌}
use wireguard_tools.Config.System.{System}
use wireguard_tools.Config.WsUrl.Spelled.{authority, Readable, IsWsUrl}
use wireguard_tools.Config.WsUrl.Whole.{ws_url_split_iff}
use wireguard_tools.Config.WsUrl.{host_port, snprintf, parse_ws_endpoint}
use wireguard_tools.Containers.{Peer}
use wireguard_tools.Libc.Text.{split_first-append, split_last-append, contains}
use wireguard_tools.Prelude.{
  ◌+◌, ◌≤◌, ◌<◌, ◌≡◌, ◌∙◌, ap, inl, inr, refl, arith, Bool, true, false, some, [], ◌∷◌, ◌++◌, ◌==◌,
  Bool-cases, Bytes, length, length-append, take_all,
}

host_port-authority :
    (host port : Bytes) → host_port host port ≡ authority (contains b':' host) host port
unfolding host_port
host_port-authority host port = elim (Bool-cases (contains b':' host)) [
  | inl six ↦ rw six refl
  | inr four ↦ rw four refl
]

length-authority :
    (brackets : Bool) (host port : Bytes)
    → length (authority brackets host port) ≤ length host + length port + 3
length-authority true host port = omega (arith, length-append host (b']' ∷ b':' ∷ port))
length-authority false host port = omega (arith, length-append host (b':' ∷ port))

-- The 300 bytes of `hostport` hold every host and port that fit their own buffers.
host_port_fits :
    (host port : Bytes)
    → length host < 256
    → length port < 16
    → snprintf 300 (host_port host port) ≡ authority (contains b':' host) host port
host_port_fits host port h p =
    ap (λ (s : Bytes). snprintf 300 s) (host_port-authority host port)
    ∙ take_all 299 (authority (contains b':' host) host port)
        (omega (arith, length-authority (contains b':' host) host port))

first_plain :
    (host rest : Bytes)
    → (first_byte host == b'[') ≡ false
    → is_empty host ≡ false
    → (first_byte (host ++ rest) == b'[') ≡ false
first_plain [] rest h k = cc
first_plain (c ∷ host) rest h k = h

endpoint_parts-authority :
    (brackets : Bool) (host port : Bytes)
    → Readable brackets host port
    → is_empty host ≡ false
    → is_empty port ≡ false
    → endpoint_parts (authority brackets host port) ≡ some (host, port)
unfolding endpoint_parts contains
endpoint_parts-authority true host port closed h p =
    rw (split_first-append b']' (b'[' ∷ host) (b':' ∷ port) closed, p) refl
endpoint_parts-authority false host port (first, slash, last) h p =
    rw (first_plain host (b':' ∷ port) first h, split_last-append b':' host port last, p) refl

-- For a URL that `ws_url_split` takes apart with the buffers of `parse_ws_endpoint`, and that has
-- brackets around its host exactly if the host holds a colon: `parse_ws_endpoint` hands the host and
-- the port to `parse_endpoint` the way the URL writes them, with its brackets and with nothing cut
-- off, and keeps the address that is found and the whole URL; and what it hands over is split into
-- the same host and port again.
pub parse_ws_endpoint-authority :
    (sys : System) (peer : Peer) (url host port : Bytes)
    → IsWsUrl 256 16 (contains b':' host) url host port
    → (parse_ws_endpoint sys peer url ≡ (
        parse_endpoint sys (authority (contains b':' host) host port) >>= λ addr.
        done (record peer { endpoint = addr; ws_url = some url })))
      × (endpoint_parts (authority (contains b':' host) host port) ≡ some (host, port))
unfolding parse_ws_endpoint
parse_ws_endpoint-authority sys peer url host port w = (
  rw
      (
        parse_ws_endpoint,
        (ws_url_split_iff url 256 16 host port).1 (contains b':' host, w),
        host_port_fits host port w.host_fits w.port_fits,
      )
      refl,
  endpoint_parts-authority (contains b':' host) host port w.readable w.host_nonempty
      w.port_nonempty,
)
