-- ===== src/Netlink/Set/Rounds.antt =====
-- src/ipc-linux.h: the number of messages that `kernel_set_device` sends.
use mathlib.Core.Path.{subst}
use wireguard_tools.Containers.{AllowedIp, Peer, Device}
use wireguard_tools.Netlink.Attr
use wireguard_tools.Netlink.Attr.{PeerAttr, Message}
use wireguard_tools.Netlink.Set.Begins.{Ready, Begins, peer_room, Takes-Ready, put_peers-Begins}
use wireguard_tools.Netlink.Set.Takes.{Takes, put_peers-Takes}
use wireguard_tools.Netlink.Set.{
  put_device, put_peers, take_peers, End, done, waiting, failed, Sent, send_from, kernel_set_device,
}
use wireguard_tools.Prelude.{
  ℕ, zero, suc, ◌+◌, ◌≤◌, ◌<◌, ◌≡◌, ◌≢◌, refl, ap, Bool, true, false, Option, none, some, List, [],
  ◌∷◌, ◌++◌, all, length, length-append, arith,
}

-- How much is left: two for a peer and one for each of its allowed IPs.
abbrev pub weight : List Peer → ℕ
weight [] = 0
weight (p ∷ ps) = 2 + length p.allowedips + weight ps

abbrev pub weight_from : Option (List AllowedIp) → List Peer → ℕ
weight_from none ps = weight ps
weight_from (some left) [] = 0
weight_from (some left) (p ∷ ps) = 1 + length left + weight ps

pub Takes-weight :
    {al al' : Option (List AllowedIp)} {ps ps' : List Peer} {nests : List (List PeerAttr)}
    → Takes al ps nests al' ps'
    → weight_from al' ps' ≤ weight_from al ps
Takes-weight (Takes.finished none) = omega arith
Takes-weight (Takes.finished (some left)) = omega arith
Takes-weight (Takes.full al p ps) = omega arith
Takes-weight (Takes.split none p ps taken left nest parts more carries) =
    omega (arith, ap (length {A = AllowedIp}) parts, length-append taken left)
Takes-weight (Takes.split (some rest) p ps taken left nest parts more carries) =
    omega (arith, ap (length {A = AllowedIp}) parts, length-append taken left)
Takes-weight (Takes.on none al' p ps ps' nest nests carries takes) =
    omega (arith, Takes-weight takes)
Takes-weight (Takes.on (some rest) al' p ps ps' nest nests carries takes) =
    omega (arith, Takes-weight takes)

pub Begins-weight :
    {al al' : Option (List AllowedIp)} {ps ps' : List Peer} {nests : List (List PeerAttr)}
    → Begins al ps nests al' ps'
    → weight_from al' ps' < weight_from al ps
Begins-weight (Begins.fresh_split p ps taken left nest parts more carries) =
    omega (arith, ap (length {A = AllowedIp}) parts, length-append taken left)
Begins-weight (Begins.fresh_on al' p ps ps' nest nests carries takes) =
    omega (arith, Takes-weight takes)
Begins-weight (Begins.again_split p ps a rest taken left nest parts more carries) =
    omega (arith, ap (length {A = AllowedIp}) parts, length-append taken left)
Begins-weight (Begins.again_on al' p ps ps' a rest nest nests carries takes) =
    omega (arith, Takes-weight takes)

-- The room of a message behind the first, with one peer in it.
abbrev pub alone : (Message → Bool) → Device → List PeerAttr → Bool
alone fits dev nest = fits (put_device false dev ++ Attr.peers (nest ∷ []) ∷ [])

abbrev pub has_room : (Message → Bool) → Device → Bool
has_room fits dev = all (peer_room (alone fits dev)) dev.peers

-- What follows the exchange of a message.
abbrev pub go_on :
    ℕ
    → (Message → Bool)
    → (Message → Option ℕ)
    → Device
    → Message
    → Option ℕ
    → Option (List AllowedIp)
    → List Peer
    → Sent
go_on rounds fits reply dev m o al peer = elim o [
  | some e ↦ record { messages = m ∷ []; end = failed e }
  | none ↦ elim peer [
    | [] ↦ record { messages = m ∷ []; end = done }
    | ◌∷◌ q qs ↦
        let rest = send_from rounds fits reply dev false al (q ∷ qs) in
        record { messages = m ∷ rest.messages; end = rest.end }
  ]
]

module _ (fits : Message → Bool) (reply : Message → Option ℕ) (dev : Device) where
  more_rounds :
      (rounds : ℕ) (m : Message) (o : Option ℕ) (al : Option (List AllowedIp)) (peer : List Peer)
      → ((q : Peer) (qs : List Peer)
          → peer ≡ q ∷ qs
          → (send_from rounds fits reply dev false al (q ∷ qs)).end ≢ waiting)
      → (go_on rounds fits reply dev m o al peer).end ≢ waiting
  more_rounds rounds m (some e) al peer ih = cc
  more_rounds rounds m none al [] ih = cc
  more_rounds rounds m none al (q ∷ qs) ih = ih q qs refl

  send_from-ends :
      (rounds : ℕ) (al : Option (List AllowedIp)) (p : Peer) (ps : List Peer)
      → Ready (alone fits dev) al (p ∷ ps)
      → weight_from al (p ∷ ps) < rounds
      → (send_from rounds fits reply dev false al (p ∷ ps)).end ≢ waiting
  unfolding send_from take_peers
  send_from-ends zero al p ps r h = absurd (omega arith)
  send_from-ends (suc rounds) al p ps r h =
      let taken =
        λ (nests : List (List PeerAttr)). fits (put_device false dev ++ Attr.peers nests ∷ []) in
      let t = put_peers taken [] al (p ∷ ps) in
      let begins = put_peers-Begins taken p ps al r in
      let (new, same, takes) = put_peers-Takes taken [] al (p ∷ ps) in
      let left = Takes-Ready (alone fits dev) takes r in
      more_rounds rounds _ _ t.allowedip t.peer (λ q qs e.
        let w = Begins-weight begins in
        send_from-ends rounds t.allowedip q qs (subst (Ready (alone fits dev) t.allowedip) e left)
          (subst (λ (l : List Peer). weight_from t.allowedip l < rounds) e (omega arith)))

  first_message-ends :
      (rounds : ℕ) (p : Peer) (ps : List Peer)
      → all (peer_room (alone fits dev)) (p ∷ ps) ≡ true
      → 1 + weight (p ∷ ps) < rounds
      → (send_from rounds fits reply dev true none (p ∷ ps)).end ≢ waiting
  unfolding send_from take_peers
  first_message-ends zero p ps r h = absurd (omega arith)
  first_message-ends (suc rounds) p ps r h =
      let taken =
        λ (nests : List (List PeerAttr)). fits (put_device true dev ++ Attr.peers nests ∷ []) in
      let t = put_peers taken [] none (p ∷ ps) in
      let (new, same, takes) = put_peers-Takes taken [] none (p ∷ ps) in
      more_rounds rounds _ _ t.allowedip t.peer (λ q qs e.
        let w = Takes-weight takes in
        send_from-ends rounds t.allowedip q qs
          (subst (Ready (alone fits dev) t.allowedip) e (Takes-Ready (alone fits dev) takes r))
          (subst (λ (l : List Peer). weight_from t.allowedip l < rounds) e (omega arith)))

-- The device by its peers.
abbrev pub set_peers : ℕ → (Message → Bool) → (Message → Option ℕ) → Device → List Peer → Sent
set_peers rounds fits reply dev ps = elim ps [
  | [] ↦
      let m = put_device true dev in
      record { messages = m ∷ []; end = elim (reply m) [ none ↦ done | some e ↦ failed e ] }
  | ◌∷◌ p ps ↦ send_from rounds fits reply dev true none (p ∷ ps)
]

-- Let a message behind the first have room for one peer's attributes, and for its key with any one
-- of its allowed IPs, for each peer. Then more rounds than one plus two for each peer and one for
-- each of its allowed IPs are enough: `kernel_set_device` ends, with success or with an error,
-- whatever the kernel answers to the messages.
pub kernel_set_device-ends :
    (rounds : ℕ) (fits : Message → Bool) (reply : Message → Option ℕ) (dev : Device)
    → has_room fits dev ≡ true
    → 1 + weight dev.peers < rounds
    → (kernel_set_device rounds fits reply dev).end ≢ waiting
unfolding kernel_set_device
kernel_set_device-ends rounds fits reply dev room enough = by_peers dev.peers room enough
  where
    answered :
        (o : Option ℕ) → (let r : End = elim o [ none ↦ done | some e ↦ failed e ] in r) ≢ waiting
    answered none = cc
    answered (some e) = cc

    by_peers :
        (ps : List Peer)
        → all (peer_room (alone fits dev)) ps ≡ true
        → 1 + weight ps < rounds
        → (set_peers rounds fits reply dev ps).end ≢ waiting
    by_peers [] r h = answered (reply (put_device true dev))
    by_peers (p ∷ ps) r h = first_message-ends fits reply dev rounds p ps r h
