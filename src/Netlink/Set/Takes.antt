-- ===== src/Netlink/Set/Takes.antt =====
-- src/ipc-linux.h: one message of `kernel_set_device`, as a step over the peers that are left.
use mathlib.Core.Path.{subst}
use mathlib.Core.List.{append-nil, append_assoc}
use wireguard_tools.Containers.{AllowedIp, Peer}
use wireguard_tools.Netlink.Attr.{PeerAttr}
use wireguard_tools.Netlink.Get.{is_nil}
use wireguard_tools.Netlink.Set.Pieces.{Carries, Outcome, put_peer-Outcome}
use wireguard_tools.Netlink.Set.{
  put_peer, put_peers, left_of, is_null, Part, too_big, cut, whole, Taken,
}
use wireguard_tools.Prelude.{
  ◌≡◌, ◌∙◌, refl, sym, ap, Bool, false, Option, none, some, List, [], ◌∷◌, ◌++◌,
}

-- A message that begins at these peers and allowed IPs, its peers, and where the next one begins.
pub data Takes
    : Option (List AllowedIp)
      → List Peer
      → List (List PeerAttr)
      → Option (List AllowedIp)
      → List Peer
      → Type 0 where
  finished : (al : Option (List AllowedIp)) → Takes al [] [] none []
  full :
      (al : Option (List AllowedIp)) (p : Peer) (ps : List Peer) → Takes al (p ∷ ps) [] al (p ∷ ps)
  split :
      (al : Option (List AllowedIp)) (p : Peer) (ps : List Peer) (taken left : List AllowedIp)
      (nest : List PeerAttr)
      → left_of al p ≡ taken ++ left
      → is_nil left ≡ false
      → Carries (is_null al) p taken nest
      → Takes al (p ∷ ps) (nest ∷ []) (some left) (p ∷ ps)
  on :
      (al al' : Option (List AllowedIp)) (p : Peer) (ps ps' : List Peer) (nest : List PeerAttr)
      (nests : List (List PeerAttr))
      → Carries (is_null al) p (left_of al p) nest
      → Takes none ps nests al' ps'
      → Takes al (p ∷ ps) (nest ∷ nests) al' ps'

-- Behind these nests, the result of the loop over the peers is such a step.
abbrev pub Adds : List (List PeerAttr) → Option (List AllowedIp) → List Peer → Taken → Type 0
Adds nests al ps t =
    (new : List (List PeerAttr)) × (t.nests ≡ nests ++ new) × Takes al ps new t.allowedip t.peer

-- The loop, by what it puts of its first peer.
abbrev pub after_part :
    (List (List PeerAttr) → Bool)
    → List (List PeerAttr)
    → Option (List AllowedIp)
    → Peer
    → List Peer
    → Part
    → Taken
after_part fits nests al p ps part = elim part [
  | too_big ↦ record { nests = nests; peer = p ∷ ps; allowedip = al }
  | cut nest left ↦ record { nests = nests ++ nest ∷ []; peer = p ∷ ps; allowedip = some left }
  | whole nest ↦ put_peers fits (nests ++ nest ∷ []) none ps
]

pub put_peers_step :
    (fits : List (List PeerAttr) → Bool) (nests : List (List PeerAttr))
    (al : Option (List AllowedIp)) (p : Peer) (ps : List Peer) {part : Part}
    → put_peer (λ nest. fits (nests ++ nest ∷ [])) al p ≡ part
    → put_peers fits nests al (p ∷ ps) ≡ after_part fits nests al p ps part
unfolding put_peers
put_peers_step fits nests al p ps e = ap (after_part fits nests al p ps) e

Adds-on :
    (nests : List (List PeerAttr)) (al : Option (List AllowedIp)) (p : Peer) (ps : List Peer)
    (nest : List PeerAttr) (t : Taken)
    → Carries (is_null al) p (left_of al p) nest
    → Adds (nests ++ nest ∷ []) none ps t
    → Adds nests al (p ∷ ps) t
Adds-on nests al p ps nest t carries (new, same, takes) = (
  nest ∷ new,
  same ∙ append_assoc nests (nest ∷ []) new,
  Takes.on al t.allowedip p ps t.peer nest new carries takes,
)

pub put_peers-Takes :
    (fits : List (List PeerAttr) → Bool) (nests : List (List PeerAttr))
    (al : Option (List AllowedIp)) (ps : List Peer)
    → Adds nests al ps (put_peers fits nests al ps)
unfolding put_peers
put_peers-Takes fits nests al [] = ([], sym (append-nil nests), Takes.finished al)
put_peers-Takes fits nests al (p ∷ ps) =
    by_part _ refl (put_peer-Outcome (λ nest. fits (nests ++ nest ∷ [])) al p)
      (λ nest. put_peers-Takes fits (nests ++ nest ∷ []) none ps)
  where
    added :
        (part : Part)
        → Outcome (is_null al) p (left_of al p) part
        → ((nest : List PeerAttr)
            → Adds (nests ++ nest ∷ []) none ps (put_peers fits (nests ++ nest ∷ []) none ps))
        → Adds nests al (p ∷ ps) (after_part fits nests al p ps part)
    added too_big o ih = ([], sym (append-nil nests), Takes.full al p ps)
    added (cut nest left) (taken, parts, more, carries) ih =
        (nest ∷ [], refl, Takes.split al p ps taken left nest parts more carries)
    added (whole nest) carries ih = Adds-on nests al p ps nest _ carries (ih nest)

    by_part :
        (part : Part)
        → put_peer (λ nest. fits (nests ++ nest ∷ [])) al p ≡ part
        → Outcome (is_null al) p (left_of al p) (put_peer (λ nest. fits (nests ++ nest ∷ [])) al p)
        → ((nest : List PeerAttr)
            → Adds (nests ++ nest ∷ []) none ps (put_peers fits (nests ++ nest ∷ []) none ps))
        → Adds nests al (p ∷ ps) (put_peers fits nests al (p ∷ ps))
    by_part part e o ih =
        subst (Adds nests al (p ∷ ps)) (sym (put_peers_step fits nests al p ps e))
          (added part (subst (Outcome (is_null al) p (left_of al p)) e o) ih)
