-- ===== src/Netlink/Set.antt =====
-- src/ipc-linux.h: `kernel_set_device`. The parameter `fits` says whether the attributes of a message
-- still fit the buffer of SOCKET_BUFFER_SIZE: a checked `mnl_attr_put` or start of a nest adds its
-- attribute if they do then, and leaves the message as it is otherwise. `mnlg_socket_open` succeeds: the
-- return of its error before the first message is left out.
pub mod Attrs
pub mod Pieces
pub mod Resumed
pub mod Takes
pub mod Begins
pub mod Rounds
pub mod Fits
use wireguard_tools.Containers.{
  Family, unspec, inet, inet6, other, AllowedIp, Sockaddr, Peer, PeerFlags, Device, DeviceFlags,
}
use wireguard_tools.Netlink.Attr
use wireguard_tools.Netlink.Attr.{IpAttr, PeerAttr, DeviceAttr, Message}
use wireguard_tools.Prelude.{
  ℕ, zero, suc, Bool, true, false, not, ◌&&◌, ◌||◌, Option, none, some, List, [], ◌∷◌, ◌++◌,
  if◌then◌else◌, Bytes, bind_option,
}

-- The checked calls: the attributes of a nest, and whether the message fits with them.
abbrev pub put_check {ℓ} : {A : Type ℓ} → (List A → Bool) → A → List A → Option (List A)
put_check fits a attrs = if fits (attrs ++ a ∷ []) then some (attrs ++ a ∷ []) else none

abbrev pub put_check_if {ℓ} : {A : Type ℓ} → Bool → (List A → Bool) → A → List A → Option (List A)
put_check_if asked fits a attrs = if asked then put_check fits a attrs else some attrs

abbrev pub nest_start {ℓ} : {A : Type ℓ} → (List A → Bool) → Option (List A)
nest_start fits = if fits [] then some [] else none

abbrev pub has_address : Family → Bool
has_address inet = true
has_address inet6 = true
has_address _ = false

unfoldable pub put_allowedip : (List IpAttr → Bool) → AllowedIp → Option (List IpAttr)
put_allowedip fits a = bind_option (nest_start fits) λ nest.
    bind_option (put_check fits (Attr.family (some a.family)) nest) λ named.
      bind_option (put_check_if (has_address a.family) fits (Attr.ipaddr a.ip) named) λ addressed.
        bind_option (put_check fits (Attr.cidr_mask (some a.cidr)) addressed)
          λ masked. put_check_if a.remove_me fits (Attr.ip_flags true) masked

-- The loop over the allowed IPs: those that are in the message, and those that are left.
unfoldable pub put_allowedips :
    (List (List IpAttr) → Bool)
    → List (List IpAttr)
    → List AllowedIp
    → List (List IpAttr) × List AllowedIp
put_allowedips fits nests [] = (nests, [])
put_allowedips fits nests (a ∷ left) = elim (put_allowedip (λ nest. fits (nests ++ nest ∷ [])) a) [
  | none ↦ (nests, a ∷ left)
  | some nest ↦ put_allowedips fits (nests ++ nest ∷ []) left
]

-- The lengths of the two addresses.
abbrev pub sockaddr_len : Family → ℕ
sockaddr_len inet = 16
sockaddr_len inet6 = 28
sockaddr_len _ = 0

-- `allowedip`: NULL, or the allowed IPs from it on.
abbrev pub is_null {ℓ} : {A : Type ℓ} → Option A → Bool
is_null none = true
is_null (some a) = false

-- The attributes of a peer in front of its allowed IPs; only its first part has all of them.
unfoldable pub put_peer_head : (List PeerAttr → Bool) → Bool → Peer → Option (List PeerAttr)
put_peer_head fits first p =
    let replace = first && p.flags.replace_allowedips in
    bind_option (nest_start fits) λ nest.
      bind_option (put_check fits (Attr.public_key p.public_key) nest) λ keyed.
        bind_option
          (put_check_if (first && p.flags.has_preshared_key) fits
            (Attr.preshared_key p.preshared_key) keyed)
          λ shared.
            bind_option
              (put_check_if (first && has_address p.endpoint.family) fits
                (Attr.endpoint (sockaddr_len p.endpoint.family) p.endpoint) shared)
              λ placed.
                bind_option
                  (put_check_if (first && p.flags.has_keepalive) fits
                    (Attr.keepalive (some p.persistent_keepalive_interval)) placed)
                  λ kept.
                    put_check_if (p.flags.remove_me || replace) fits
                      (Attr.peer_flags p.flags.remove_me replace) kept

-- `toobig_peers`; `toobig_allowedips` with the attributes and what is left; the whole peer.
pub data Part : Type 0 where
  too_big : Part
  cut : List PeerAttr → List AllowedIp → Part
  whole : List PeerAttr → Part

abbrev pub part_of : List PeerAttr → List (List IpAttr) × List AllowedIp → Part
part_of head (nests, []) = whole (head ++ Attr.allowedips nests ∷ [])
part_of head (nests, a ∷ left) = cut (head ++ Attr.allowedips nests ∷ []) (a ∷ left)

-- The allowed IPs of a peer behind its other attributes.
unfoldable pub put_left : (List PeerAttr → Bool) → List PeerAttr → List AllowedIp → Part
put_left fits head [] = whole head
put_left fits head (a ∷ left) =
    let nested = λ (nests : List (List IpAttr)). fits (head ++ Attr.allowedips nests ∷ []) in
    if nested [] then part_of head (put_allowedips nested [] (a ∷ left)) else cut head (a ∷ left)

abbrev pub left_of : Option (List AllowedIp) → Peer → List AllowedIp
left_of none p = p.allowedips
left_of (some left) p = left

unfoldable pub put_peer : (List PeerAttr → Bool) → Option (List AllowedIp) → Peer → Part
put_peer fits allowedip p = elim (put_peer_head fits (is_null allowedip) p) [
  | none ↦ too_big
  | some head ↦ put_left fits head (left_of allowedip p)
]

-- What one message takes: its peers, and the `peer` and `allowedip` that the next one begins at.
pub record Taken : Type 0 where
  pub nests : List (List PeerAttr)
  pub peer : List Peer
  pub allowedip : Option (List AllowedIp)

unfoldable pub put_peers :
    (List (List PeerAttr) → Bool)
    → List (List PeerAttr)
    → Option (List AllowedIp)
    → List Peer
    → Taken
put_peers fits nests allowedip [] = record { nests = nests; peer = []; allowedip = none }
put_peers fits nests allowedip (p ∷ ps) =
    elim (put_peer (λ nest. fits (nests ++ nest ∷ [])) allowedip p) [
      | too_big ↦ record { nests = nests; peer = p ∷ ps; allowedip = allowedip }
      | cut nest left ↦ record { nests = nests ++ nest ∷ []; peer = p ∷ ps; allowedip = some left }
      | whole nest ↦ put_peers fits (nests ++ nest ∷ []) none ps
    ]

abbrev pub one_if : Bool → DeviceAttr → Message
one_if asked a = if asked then a ∷ [] else []

-- The attributes in front of the peers; behind the first message only the name.
unfoldable pub put_device : Bool → Device → Message
put_device first dev =
    Attr.ifname (some dev.name)
    ∷ (if first
        then one_if dev.flags.has_private_key (Attr.private_key dev.private_key)
          ++ (one_if dev.flags.has_listen_port (Attr.listen_port (some dev.listen_port))
              ++ (one_if dev.flags.has_fwmark (Attr.fwmark (some dev.fwmark))
                  ++ one_if dev.flags.replace_peers Attr.replace_peers))
        else [])

-- One message, from `peer` and `allowedip` on; `head` is what `put_device` put.
unfoldable pub take_peers : (Message → Bool) → Message → Option (List AllowedIp) → List Peer → Taken
take_peers fits head allowedip ps =
    put_peers (λ nests. fits (head ++ Attr.peers nests ∷ [])) [] allowedip ps

-- The messages that are sent, and how it ends: with 0, minus an errno, or not in as many messages.
pub data End : Type 0 where
  done waiting : End
  failed : ℕ → End

pub record Sent : Type 0 where
  pub messages : List Message
  pub end : End

-- `goto again`; the parameter `reply` is the errno of the exchange of one message, if it fails.
unfoldable pub send_from :
    ℕ
    → (Message → Bool)
    → (Message → Option ℕ)
    → Device
    → Bool
    → Option (List AllowedIp)
    → List Peer
    → Sent
send_from zero fits reply dev first allowedip ps = record { messages = []; end = waiting }
send_from (suc rounds) fits reply dev first allowedip ps =
    let head = put_device first dev in
    let t = take_peers fits head allowedip ps in
    let m = head ++ Attr.peers t.nests ∷ [] in
    elim (reply m) [
      | some e ↦ record { messages = m ∷ []; end = failed e }
      | none ↦ elim t.peer [
        | [] ↦ record { messages = m ∷ []; end = done }
        | ◌∷◌ q qs ↦
            let rest = send_from rounds fits reply dev false t.allowedip (q ∷ qs) in
            record { messages = m ∷ rest.messages; end = rest.end }
      ]
    ]

-- `rounds` bounds the messages.
unfoldable pub kernel_set_device : ℕ → (Message → Bool) → (Message → Option ℕ) → Device → Sent
kernel_set_device rounds fits reply dev = elim dev.peers [
  | [] ↦
      let m = put_device true dev in
      record { messages = m ∷ []; end = elim (reply m) [ none ↦ done | some e ↦ failed e ] }
  | ◌∷◌ p ps ↦ send_from rounds fits reply dev true none (p ∷ ps)
]
