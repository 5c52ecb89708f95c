-- ===== src/Netlink/Get/Lost.antt =====
-- src/ipc-linux.h: what becomes of an allowed IP that `parse_allowedips` refuses.
use mathlib.Core.Path.{subst}
use wireguard_tools.Containers.{AllowedIp, Peer, Device, zero_peer, zero_peer_flags}
use wireguard_tools.Netlink.Attr
use wireguard_tools.Netlink.Attr.{IpAttr, PeerAttr, Cb, error, ok, stop}
use wireguard_tools.Netlink.Get.Calls.{
  IsWalk, each, each_on, each_halt, walk-each, parse_allowedips-each, parse_peers-each,
}
use wireguard_tools.Netlink.Get.{
  Walk, zero_allowedip, parse_allowedip, valid_cidr, parse_allowedips, parse_peer, parse_peers,
}
use wireguard_tools.Prelude.{
  ◌≡◌, ◌∙◌, refl, sym, true, false, List, [], ◌∷◌, ◌++◌, ==_iff, Bytes, length,
}

-- The peer of that key and allowed IP, and nothing else.
abbrev pub peer_cut_short : Bytes → AllowedIp → Peer
peer_cut_short k a = record zero_peer {
  public_key = k;
  flags = record zero_peer_flags { has_public_key = true };
  allowedips = a ∷ [];
}

abbrev empty_peer : Bytes → Peer
empty_peer k = record zero_peer {
  public_key = k;
  flags = record zero_peer_flags { has_public_key = true };
}

each-refused :
    (k : Bytes) (bad : List IpAttr) (lost : List (List IpAttr)) (more : List PeerAttr)
    (a : AllowedIp)
    → each IpAttr AllowedIp parse_allowedip bad zero_allowedip ≡ (ok, a)
    → valid_cidr a ≡ false
    → each PeerAttr Peer (parse_peer each) (Attr.allowedips (bad ∷ lost) ∷ more) (empty_peer k)
      ≡ (error, peer_cut_short k a)
unfolding parse_allowedips parse_peer
each-refused k bad lost more a e v =
    let refused : parse_allowedips each bad (empty_peer k) ≡ (error, peer_cut_short k a) =
      parse_allowedips-each bad (empty_peer k) e ∙ rw v refl in
    let all : each (List IpAttr) Peer (parse_allowedips each) (bad ∷ lost) (empty_peer k)
        ≡ (error, peer_cut_short k a) =
      each_halt (List IpAttr) Peer (parse_allowedips each) bad lost (empty_peer k)
        (rw refused (λ f. cc))
      ∙ refused in
    each_halt PeerAttr Peer (parse_peer each) (Attr.allowedips (bad ∷ lost)) more (empty_peer k)
      (rw all (λ f. cc))
    ∙ all

-- For a walk with the laws of libmnl, a key of 32 bytes and an allowed IP whose attributes give no
-- valid prefix length for their family: `parse_allowedips` refuses it, but `parse_peers` goes on
-- with MNL_CB_OK, and the peer that it adds holds that allowed IP, and nothing of the allowed IPs
-- and attributes behind it, whatever they are.
pub parse_peers-drops_rest :
    (walk : Walk) (law : IsWalk walk) (k : Bytes) (bad : List IpAttr) (lost : List (List IpAttr))
    (more : List PeerAttr) (d : Device) (a : AllowedIp)
    → length k ≡ 32
    → walk IpAttr AllowedIp parse_allowedip bad zero_allowedip ≡ (ok, a)
    → valid_cidr a ≡ false
    → parse_peers walk (Attr.public_key k ∷ Attr.allowedips (bad ∷ lost) ∷ more) d
      ≡ (ok, record d { peers = d.peers ++ peer_cut_short k a ∷ [] })
unfolding parse_peer
parse_peers-drops_rest walk law k bad lost more d a size e v =
    subst
      (λ (w : Walk).
        w IpAttr AllowedIp parse_allowedip bad zero_allowedip ≡ (ok, a)
        → parse_peers w (Attr.public_key k ∷ Attr.allowedips (bad ∷ lost) ∷ more) d
          ≡ (ok, record d { peers = d.peers ++ peer_cut_short k a ∷ [] }))
      (sym (walk-each walk law))
      (λ f.
        let keyed : parse_peer each (Attr.public_key k) zero_peer ≡ (ok, empty_peer k) =
          rw (parse_peer, (==_iff (length k) 32).1 size) refl in
        parse_peers-each (Attr.public_key k ∷ Attr.allowedips (bad ∷ lost) ∷ more) d (
          each_on PeerAttr Peer (parse_peer each) (Attr.public_key k)
            (Attr.allowedips (bad ∷ lost) ∷ more) zero_peer (empty_peer k) keyed
          ∙ each-refused k bad lost more a f v))
      e
