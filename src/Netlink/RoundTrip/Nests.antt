-- ===== src/Netlink/RoundTrip/Nests.antt =====
-- src/ipc-linux.h: the nests of `kernel_set_device` under `parse_allowedips` and `parse_peers`.
use mathlib.Core.List.{append-nil, append_assoc}
use wireguard_tools.Config.AllowedIps.Entries.{IsAllowedIp, FitsFamily}
use wireguard_tools.Containers.{
  carried_ip, Family, unspec, inet, inet6, other, AllowedIp, Peer, Device, zero_peer,
}
use wireguard_tools.Netlink.Attr
use wireguard_tools.Netlink.Attr.{IpAttr, PeerAttr, Cb, ok}
use wireguard_tools.Netlink.Get.Calls.{
  each, each_on, each-append, parse_allowedips-each, parse_peers-each,
}
use wireguard_tools.Netlink.Get.{
  zero_allowedip, parse_allowedip, valid_cidr, parse_allowedips, parse_peer, parse_peers,
}
use wireguard_tools.Netlink.RoundTrip.View.{view, head_seen}
use wireguard_tools.Netlink.Set.Attrs.{allowedip_attrs, peer_attrs}
use wireguard_tools.Netlink.Set.Pieces.{TailOf, Carries}
use wireguard_tools.Prelude.{
  ℕ, ◌≡◌, ◌∙◌, refl, sym, ap, Bool, true, false, List, [], ◌∷◌, ◌++◌, map, All, Bytes, length,
  arith,
}

allowedip_seen :
    (f : Family) (ip : Bytes) (cidr : ℕ) (remove : Bool)
    → FitsFamily f ip cidr
    → (let a : AllowedIp = record { family = f; ip = ip; cidr = cidr; remove_me = remove } in
        (each IpAttr AllowedIp parse_allowedip (allowedip_attrs a) zero_allowedip
          ≡ (ok, carried_ip a))
        × (valid_cidr (carried_ip a) ≡ true))
unfolding parse_allowedip
allowedip_seen inet ip cidr true h = (rw h.0 refl, ground arith)
allowedip_seen inet ip cidr false h = (rw h.0 refl, ground arith)
allowedip_seen inet6 ip cidr true h = (rw h.0 refl, ground arith)
allowedip_seen inet6 ip cidr false h = (rw h.0 refl, ground arith)
allowedip_seen unspec ip cidr remove h = absurd h
allowedip_seen other ip cidr remove h = absurd h

allowedips_seen :
    (ips : List AllowedIp) (s : Peer)
    → All IsAllowedIp ips
    → each (List IpAttr) Peer (parse_allowedips each) (map allowedip_attrs ips) s
      ≡ (ok, record s { allowedips = s.allowedips ++ map carried_ip ips })
allowedips_seen [] s h = ap (λ l. (ok, record s { allowedips = l })) (sym (append-nil s.allowedips))
allowedips_seen (a ∷ ips) s h =
    let (read, valid) = allowedip_seen a.family a.ip a.cidr a.remove_me h.0 in
    let one = record s { allowedips = s.allowedips ++ carried_ip a ∷ [] } in
    each_on (List IpAttr) Peer (parse_allowedips each) (allowedip_attrs a) (map allowedip_attrs ips)
      s one (parse_allowedips-each (allowedip_attrs a) s read ∙ rw valid refl)
    ∙ (allowedips_seen ips one h.1
        ∙ ap (λ l. (ok, record s { allowedips = l }))
            (append_assoc s.allowedips (carried_ip a ∷ []) (map carried_ip ips)))

-- What the callbacks rely on of a peer.
pub record IsSendable (p : Peer) : Type 0 where
  pub key : length p.public_key ≡ 32
  pub shared_key : length p.preshared_key ≡ 32
  pub allowedips : All IsAllowedIp p.allowedips

tail_seen :
    (first : Bool) (p : Peer) (ips : List AllowedIp) (tail : List PeerAttr)
    → All IsAllowedIp ips
    → TailOf ips tail
    → each PeerAttr Peer (parse_peer each) tail (view first p []) ≡ (ok, view first p ips)
unfolding parse_peer
tail_seen first p [] tail h TailOf.bare = refl
tail_seen first p ips tail h (TailOf.listed _) =
    each_on PeerAttr Peer (parse_peer each) (Attr.allowedips (map allowedip_attrs ips)) []
      (view first p []) (view first p ips) (allowedips_seen ips (view first p []) h)

-- A nest of a peer adds the peer that it carries.
pub nest_seen :
    (first : Bool) (p : Peer) (ips : List AllowedIp) (nest : List PeerAttr) (d : Device)
    → IsSendable p
    → All IsAllowedIp ips
    → Carries first p ips nest
    → parse_peers each nest d ≡ (ok, record d { peers = d.peers ++ view first p ips ∷ [] })
nest_seen first p ips nest d s h (tail, same, shape) = parse_peers-each nest d (
    ap (λ n. each PeerAttr Peer (parse_peer each) n zero_peer) same
    ∙ (each-append PeerAttr Peer (parse_peer each) (peer_attrs first p) tail zero_peer
          (view first p []) (head_seen p first s.key s.shared_key)
        ∙ tail_seen first p ips tail h shape))
