-- ===== src/Netlink/RoundTrip/Views.antt =====
-- src/ipc-linux.h: the peers of one message of `kernel_set_device` under `parse_peers`.
use mathlib.Core.Path.{subst}
use mathlib.Core.List.{append-nil, append_assoc}
use wireguard_tools.Config.AllowedIps.Entries.{IsAllowedIp}
use wireguard_tools.Containers.{AllowedIp, Peer, Device}
use wireguard_tools.Netlink.Attr.{PeerAttr, ok}
use wireguard_tools.Netlink.Get.Calls.{each, each_on}
use wireguard_tools.Netlink.Get.{parse_peers}
use wireguard_tools.Netlink.RoundTrip.Cuts.{Cuts}
use wireguard_tools.Netlink.RoundTrip.Nests.{IsSendable, nest_seen}
use wireguard_tools.Netlink.RoundTrip.View.{view}
use wireguard_tools.Netlink.Set.Begins.{Begins}
use wireguard_tools.Netlink.Set.Pieces.{Carries}
use wireguard_tools.Netlink.Set.Takes.{Takes}
use wireguard_tools.Prelude.{
  ◌≡◌, ◌∙◌, sym, ap, Bool, true, false, Option, none, some, List, [], ◌∷◌, ◌++◌, All,
}

abbrev pub AllLeft : Option (List AllowedIp) → Type 0
AllLeft none = Unit
AllLeft (some left) = All IsAllowedIp left

-- The nests add these peers.
abbrev pub Seen : List (List PeerAttr) → List Peer → Type 0
Seen nests vs =
    (d : Device)
    → each (List PeerAttr) Device (parse_peers each) nests d
      ≡ (ok, record d { peers = d.peers ++ vs })

Seen-none : Seen [] []
Seen-none d = ap (λ l. (ok, record d { peers = l })) (sym (append-nil d.peers))

Seen-one :
    (first : Bool) (p : Peer) (ips : List AllowedIp) (nest : List PeerAttr)
    (nests : List (List PeerAttr)) (vs : List Peer)
    → IsSendable p
    → All IsAllowedIp ips
    → Carries first p ips nest
    → Seen nests vs
    → Seen (nest ∷ nests) (view first p ips ∷ vs)
Seen-one first p ips nest nests vs s h carries rest d =
    each_on (List PeerAttr) Device (parse_peers each) nest nests d _
      (nest_seen first p ips nest d s h carries)
    ∙ (rest (record d { peers = d.peers ++ view first p ips ∷ [] })
        ∙ ap (λ l. (ok, record d { peers = l })) (append_assoc d.peers (view first p ips ∷ []) vs))

All-halves :
    {A : Type 0} (P : A → Type 0) (xs ys : List A) {zs : List A}
    → zs ≡ xs ++ ys
    → All P zs
    → All P xs × All P ys
All-halves {A} P xs ys e h = halves xs (subst (All P) e h)
  where
    halves : (xs : List A) → All P (xs ++ ys) → All P xs × All P ys
    halves [] h = (tt, h)
    halves (x ∷ xs) h = let (front, back) = halves xs h.1 in ((h.0, front), back)

-- What a message carries, and what it leaves.
abbrev pub Views :
    Option (List AllowedIp)
    → List Peer
    → List (List PeerAttr)
    → Option (List AllowedIp)
    → List Peer
    → Type 0
Views al ps nests al' ps' =
    (vs : List Peer) × Seen nests vs
    × ((ws : List Peer) → Cuts al' ps' ws → Cuts al ps (vs ++ ws))
    × All IsSendable ps'
    × AllLeft al'

pub Takes-Views :
    {al' : Option (List AllowedIp)} {ps ps' : List Peer} {nests : List (List PeerAttr)}
    → Takes none ps nests al' ps'
    → All IsSendable ps
    → Views none ps nests al' ps'
Takes-Views (Takes.finished _) h = ([], Seen-none, λ ws c. c, tt, tt)
Takes-Views (Takes.full _ p ps) h = ([], Seen-none, λ ws c. c, h, tt)
Takes-Views (Takes.split _ p ps taken left nest parts more carries) h =
    let (front, back) = All-halves IsAllowedIp taken left parts h.0.allowedips in
    (
      view true p taken ∷ [],
      Seen-one true p taken nest [] [] h.0 front carries Seen-none,
      λ ws c. Cuts.fresh_cut p ps ws taken left parts c,
      h,
      back,
    )
Takes-Views (Takes.on _ al' p ps ps' nest nests carries takes) h =
    let (vs, seen, cuts, sendable, left) = Takes-Views takes h.1 in
    (
      view true p p.allowedips ∷ vs,
      Seen-one true p p.allowedips nest nests vs h.0 h.0.allowedips carries seen,
      λ ws c. Cuts.fresh p ps (vs ++ ws) (cuts ws c),
      sendable,
      left,
    )

pub Begins-Views :
    {al al' : Option (List AllowedIp)} {ps ps' : List Peer} {nests : List (List PeerAttr)}
    → Begins al ps nests al' ps'
    → All IsSendable ps
    → AllLeft al
    → Views al ps nests al' ps'
Begins-Views (Begins.fresh_split p ps taken left nest parts more carries) h l =
    Takes-Views (Takes.split none p ps taken left nest parts more carries) h
Begins-Views (Begins.fresh_on al' p ps ps' nest nests carries takes) h l =
    Takes-Views (Takes.on none al' p ps ps' nest nests carries takes) h
Begins-Views (Begins.again_split p ps a rest taken left nest parts more carries) h l =
    let (front, back) = All-halves IsAllowedIp taken left parts l.1 in
    (
      view false p (a ∷ taken) ∷ [],
      Seen-one false p (a ∷ taken) nest [] [] h.0 (l.0, front) carries Seen-none,
      λ ws c. Cuts.again_cut p ps ws a rest taken left parts c,
      h,
      back,
    )
Begins-Views (Begins.again_on al' p ps ps' a rest nest nests carries takes) h l =
    let (vs, seen, cuts, sendable, left) = Takes-Views takes h.1 in
    (
      view false p (a ∷ rest) ∷ vs,
      Seen-one false p (a ∷ rest) nest nests vs h.0 l carries seen,
      λ ws c. Cuts.last p ps (vs ++ ws) a rest (cuts ws c),
      sendable,
      left,
    )
