-- ===== src/Netlink/Get.antt =====
-- src/ipc-linux.h: `kernel_get_device`, its callbacks and `coalesce_peers`. The parameter `walk` is
-- `mnl_attr_parse`, `mnl_attr_parse_nested` and `mnlg_socket_recv_run`: the calls of a callback on the
-- items of a list. Allocation does not fail, and interface indices are left out. A union of addresses
-- is the bytes that were stored last.
pub mod Calls
pub mod Lost
pub mod Null
use wireguard_tools.Containers.{
  Family, unspec, inet, inet6, other, AllowedIp, Sockaddr, Peer, PeerFlags, Device, DeviceFlags,
  zero_peer, zero_device,
}
use wireguard_tools.Encoding.Hex.{key_is_zero}
use wireguard_tools.Netlink.Attr
use wireguard_tools.Netlink.Attr.{IpAttr, PeerAttr, DeviceAttr, Message, Cb, error, stop, ok}
use wireguard_tools.Prelude.{
  ℕ, zero, suc, Bool, true, false, not, ◌&&◌, ◌||◌, Option, none, some, List, [], ◌∷◌, ◌++◌, ltb,
  leb, ◌==◌, if◌then◌else◌, Bytes, equal, length, take,
}

abbrev pub Walk : Type 1
Walk = (A S : Type 0) → (A → S → Cb × S) → List A → S → Cb × S

-- `calloc(1, sizeof(struct wgallowedip))`
abbrev pub zero_allowedip : AllowedIp
zero_allowedip = record { family = unspec; ip = []; cidr = 0; remove_me = false }

unfoldable pub parse_allowedip : IpAttr → AllowedIp → Cb × AllowedIp
parse_allowedip (Attr.family (some f)) a = (ok, record a { family = f })
parse_allowedip (Attr.ipaddr b) a = (
  ok,
  if length b == 4 then record a { ip = b } else if length b == 16 then record a { ip = b } else a,
)
parse_allowedip (Attr.cidr_mask (some n)) a = (ok, record a { cidr = n })
parse_allowedip _ a = (ok, a)

abbrev pub valid_cidr : AllowedIp → Bool
valid_cidr a = elim a.family [ inet ↦ leb a.cidr 32 | inet6 ↦ leb a.cidr 128 | _ ↦ false ]

unfoldable pub parse_allowedips : Walk → List IpAttr → Peer → Cb × Peer
parse_allowedips walk attrs p =
    let (ret, a) = walk IpAttr AllowedIp parse_allowedip attrs zero_allowedip in
    let q = record p { allowedips = p.allowedips ++ a ∷ [] } in
    elim ret [ stop ↦ (stop, q) | _ ↦ if valid_cidr a then (ok, q) else (error, q) ]

-- The sizes of `struct sockaddr`, `struct sockaddr_in` and `struct sockaddr_in6` are 16, 16 and 28.
unfoldable pub read_endpoint : ℕ → Sockaddr → Peer → Peer
read_endpoint len addr p = if ltb len 16 then p else elim addr.family [
  | inet ↦ if len == 16 then record p { endpoint = addr } else p
  | inet6 ↦ if len == 28 then record p { endpoint = addr } else p
  | _ ↦ p
]

unfoldable pub parse_peer : Walk → PeerAttr → Peer → Cb × Peer
parse_peer walk (Attr.public_key k) p = (
  ok,
  if length k == 32
      then record p { public_key = k; flags = record (p.flags) { has_public_key = true } }
      else p,
)
parse_peer walk (Attr.preshared_key k) p = (
  ok,
  if length k == 32
      then record p {
        preshared_key = k;
        flags = record (p.flags) {
          has_preshared_key = if not (key_is_zero k) then true else p.flags.has_preshared_key;
        };
      }
      else p,
)
parse_peer walk (Attr.endpoint len addr) p = (ok, read_endpoint len addr p)
parse_peer walk (Attr.keepalive (some n)) p = (ok, record p { persistent_keepalive_interval = n })
parse_peer walk (Attr.last_handshake (some (sec, nsec))) p =
    (ok, record p { last_handshake_sec = sec; last_handshake_nsec = nsec })
parse_peer walk (Attr.rx_bytes (some n)) p = (ok, record p { rx_bytes = n })
parse_peer walk (Attr.tx_bytes (some n)) p = (ok, record p { tx_bytes = n })
parse_peer walk (Attr.allowedips ips) p = walk (List IpAttr) Peer (parse_allowedips walk) ips p
parse_peer walk _ p = (ok, p)

unfoldable pub parse_peers : Walk → List PeerAttr → Device → Cb × Device
parse_peers walk attrs d =
    let (ret, p) = walk PeerAttr Peer (parse_peer walk) attrs zero_peer in
    let e = record d { peers = d.peers ++ p ∷ [] } in
    elim ret [ stop ↦ (stop, e) | _ ↦ if not p.flags.has_public_key then (error, e) else (ok, e) ]

-- IFNAMSIZ is 16.
unfoldable pub parse_device : Walk → DeviceAttr → Device → Cb × Device
parse_device walk (Attr.ifname (some s)) d = (ok, record d { name = take 15 s })
parse_device walk (Attr.private_key k) d = (
  ok,
  if length k == 32
      then record d { private_key = k; flags = record (d.flags) { has_private_key = true } }
      else d,
)
parse_device walk (Attr.device_key k) d = (
  ok,
  if length k == 32
      then record d { public_key = k; flags = record (d.flags) { has_public_key = true } }
      else d,
)
parse_device walk (Attr.listen_port (some n)) d = (ok, record d { listen_port = n })
parse_device walk (Attr.fwmark (some n)) d = (ok, record d { fwmark = n })
parse_device walk (Attr.peers ps) d = walk (List PeerAttr) Device (parse_peers walk) ps d
parse_device walk _ d = (ok, d)

abbrev pub read_device_cb : Walk → Message → Device → Cb × Device
read_device_cb walk message d = walk DeviceAttr Device (parse_device walk) message d

-- A peer with its `last_allowedip`: is the pointer to the last allowed IP there?
pub record Linked : Type 0 where
  pub peer : Peer
  pub has_last : Bool

abbrev pub is_nil {ℓ} : {A : Type ℓ} → List A → Bool
is_nil [] = true
is_nil (x ∷ xs) = false

abbrev pub linked : Peer → Linked
linked p = record { peer = p; has_last = not (is_nil p.allowedips) }

-- The peer with the allowed IPs of the next one; none where `last_allowedip` is NULL and is followed.
unfoldable pub take_over : Linked → Linked → Option Linked
take_over l next =
    if is_nil l.peer.allowedips
    then some (record {
      peer = record (l.peer) { allowedips = next.peer.allowedips };
      has_last = next.has_last;
    })
    else if l.has_last
    then some (record {
      peer = record (l.peer) { allowedips = l.peer.allowedips ++ next.peer.allowedips };
      has_last = next.has_last;
    })
    else none

-- The loop from a peer on.
unfoldable pub coalesce_from : Linked → List Peer → Option (List Peer)
coalesce_from l [] = some (l.peer ∷ [])
coalesce_from l (p ∷ ps) = elim (equal l.peer.public_key p.public_key) [
  | false ↦ elim (coalesce_from (linked p) ps) [ none ↦ none | some rest ↦ some (l.peer ∷ rest) ]
  | true ↦ elim (take_over l (linked p)) [ none ↦ none | some next ↦ coalesce_from next ps ]
]

abbrev pub coalesce_peers : List Peer → Option (List Peer)
coalesce_peers [] = some []
coalesce_peers (p ∷ ps) = coalesce_from (linked p) ps

-- What one attempt meets: no socket, a request that is not sent, or messages and an errno behind them.
pub data Dump : Type 0 where
  unopened unsent : ℕ → Dump
  answered : List Message → Option ℕ → Dump

-- A device, minus an errno, a run that follows NULL, and attempts without an end.
pub data Found : Type 0 where
  found : Device → Found
  failed : ℕ → Found
  crashed waiting : Found

abbrev pub eintr : ℕ
eintr = 4

abbrev pub einval : ℕ
einval = 22

abbrev pub enametoolong : ℕ
enametoolong = 36

unfoldable pub read_answer : Walk → List Message → Option ℕ → Found
read_answer walk messages broken =
    let (ret, d) = walk Message Device (read_device_cb walk) messages zero_device in
    elim ret [
      | error ↦ failed einval
      | _ ↦ elim broken [
        | some e ↦ failed (if e == 0 then einval else e)
        | none ↦ elim (coalesce_peers d.peers) [
          | none ↦ crashed
          | some ps ↦ found (record d { peers = ps })
        ]
      ]
    ]

-- One attempt: whether it is made again, and what it returns otherwise.
unfoldable pub attempt : Walk → Dump → Bool × Found
attempt walk (unopened e) = (false, failed e)
attempt walk (unsent e) = (e == eintr, failed e)
attempt walk (answered messages broken) =
    let r = read_answer walk messages broken in (elim r [ failed e ↦ e == eintr | _ ↦ false ], r)

unfoldable pub try_again : Walk → (ℕ → Dump) → ℕ → ℕ → Found
try_again walk dump k zero = waiting
try_again walk dump k (suc attempts) =
    let (again, r) = attempt walk (dump k) in
    elim again [ true ↦ try_again walk dump (suc k) attempts | false ↦ r ]

unfoldable pub kernel_get_device : Walk → (ℕ → Dump) → ℕ → Bytes → Found
kernel_get_device walk dump attempts iface =
    if leb 16 (length iface) then failed enametoolong else try_again walk dump 0 attempts
