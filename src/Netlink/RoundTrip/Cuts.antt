-- ===== src/Netlink/RoundTrip/Cuts.antt =====
-- src/ipc-linux.h: `coalesce_peers` on peers that were cut.
use mathlib.Core.List.{append_assoc, map-append}
use wireguard_tools.Containers.{carried_ip, AllowedIp, Peer}
use wireguard_tools.Netlink.Get.Null.{coalesce_from-same, coalesce_from-other}
use wireguard_tools.Netlink.Get.{Linked, linked, take_over, coalesce_from, coalesce_peers}
use wireguard_tools.Netlink.RoundTrip.View.{view}
use wireguard_tools.Prelude.{
  ◌≡◌, ◌∙◌, refl, sym, ap, Bool, true, false, not, Bytes, ◌&&◌, and-true, Option, none, some, List,
  [], ◌∷◌, ◌++◌, map, equal, arith,
}

-- Peers from an allowed IP on, and the peers that carry them in pieces.
pub data Cuts : Option (List AllowedIp) → List Peer → List Peer → Type 0 where
  none_left : Cuts none [] []
  fresh :
      (p : Peer) (ps vs : List Peer)
      → Cuts none ps vs
      → Cuts none (p ∷ ps) (view true p p.allowedips ∷ vs)
  fresh_cut :
      (p : Peer) (ps vs : List Peer) (taken left : List AllowedIp)
      → p.allowedips ≡ taken ++ left
      → Cuts (some left) (p ∷ ps) vs
      → Cuts none (p ∷ ps) (view true p taken ∷ vs)
  last :
      (p : Peer) (ps vs : List Peer) (a : AllowedIp) (rest : List AllowedIp)
      → Cuts none ps vs
      → Cuts (some (a ∷ rest)) (p ∷ ps) (view false p (a ∷ rest) ∷ vs)
  again_cut :
      (p : Peer) (ps vs : List Peer) (a : AllowedIp) (rest taken left : List AllowedIp)
      → rest ≡ taken ++ left
      → Cuts (some left) (p ∷ ps) vs
      → Cuts (some (a ∷ rest)) (p ∷ ps) (view false p (a ∷ taken) ∷ vs)

-- Does the key of the first of these peers differ, and that of each from the next?
abbrev pub differs : Bytes → List Peer → Bool
differs key [] = true
differs key (q ∷ qs) = not (equal key q.public_key)

abbrev pub apart : List Peer → Bool
apart [] = true
apart (p ∷ ps) = differs p.public_key ps && apart ps

-- A peer as it is carried.
abbrev pub carried_peer : Peer → Peer
carried_peer p = view true p p.allowedips

take_over-view :
    (p : Peer) (taken : List AllowedIp) (a : AllowedIp) (more : List AllowedIp)
    → take_over (linked (view true p taken)) (linked (view false p (a ∷ more)))
      ≡ some (linked (view true p (taken ++ a ∷ more)))
unfolding take_over
take_over-view p [] a more = refl
take_over-view p (x ∷ taken) a more =
    ap
      (λ ips.
        some (record { peer = record (view true p []) { allowedips = ips }; has_last = true }))
      (sym (map-append carried_ip (x ∷ taken) (a ∷ more)))

-- What is claimed of a cut: behind the pieces so far, or behind a peer of another key.
abbrev Joins : Option (List AllowedIp) → List Peer → List Peer → Type 0
Joins none ps vs =
    (l : Linked)
    → differs l.peer.public_key ps ≡ true
    → apart ps ≡ true
    → coalesce_from l vs ≡ some (l.peer ∷ map carried_peer ps)
Joins (some left) [] vs = Unit
Joins (some left) (p ∷ ps) vs =
    (taken : List AllowedIp)
    → differs p.public_key ps ≡ true
    → apart ps ≡ true
    → coalesce_from (linked (view true p taken)) vs
      ≡ some (view true p (taken ++ left) ∷ map carried_peer ps)

not-false : (b : Bool) → not b ≡ true → b ≡ false
not-false b h = ground arith

Cuts-Joins : {al : Option (List AllowedIp)} {ps vs : List Peer} → Cuts al ps vs → Joins al ps vs
unfolding coalesce_from
Cuts-Joins Cuts.none_left = λ l d h. refl
Cuts-Joins (Cuts.fresh p ps vs c) = λ l d h.
    coalesce_from-other l (view true p p.allowedips) vs (not-false _ d) (
      Cuts-Joins c (linked (view true p p.allowedips))
        (and-true (differs p.public_key ps) (apart ps) h).0
        (and-true (differs p.public_key ps) (apart ps) h).1)
Cuts-Joins (Cuts.fresh_cut p ps vs taken left same c) = λ l d h.
    coalesce_from-other l (view true p taken) vs (not-false _ d) (
      Cuts-Joins c taken (and-true (differs p.public_key ps) (apart ps) h).0
        (and-true (differs p.public_key ps) (apart ps) h).1
      ∙ ap (λ ips. some (view true p ips ∷ map carried_peer ps)) (sym same))
Cuts-Joins (Cuts.last p ps vs a rest c) = λ taken d h.
    coalesce_from-same (linked (view true p taken)) (view false p (a ∷ rest)) vs refl
      (take_over-view p taken a rest)
    ∙ Cuts-Joins c (linked (view true p (taken ++ a ∷ rest))) d h
Cuts-Joins (Cuts.again_cut p ps vs a rest more left same c) = λ taken d h.
    coalesce_from-same (linked (view true p taken)) (view false p (a ∷ more)) vs refl
      (take_over-view p taken a more)
    ∙ (Cuts-Joins c (taken ++ a ∷ more) d h
        ∙ ap (λ ips. some (view true p ips ∷ map carried_peer ps))
            (append_assoc taken (a ∷ more) left ∙ ap (λ ips. taken ++ a ∷ ips) (sym same)))

pub Cuts-coalesce_peers :
    {ps vs : List Peer}
    → Cuts none ps vs
    → apart ps ≡ true
    → coalesce_peers vs ≡ some (map carried_peer ps)
Cuts-coalesce_peers Cuts.none_left h = refl
Cuts-coalesce_peers (Cuts.fresh p ps vs c) h =
    Cuts-Joins c (linked (view true p p.allowedips))
      (and-true (differs p.public_key ps) (apart ps) h).0
      (and-true (differs p.public_key ps) (apart ps) h).1
Cuts-coalesce_peers (Cuts.fresh_cut p ps vs taken left same c) h =
    Cuts-Joins c taken (and-true (differs p.public_key ps) (apart ps) h).0
      (and-true (differs p.public_key ps) (apart ps) h).1
    ∙ ap (λ ips. some (view true p ips ∷ map carried_peer ps)) (sym same)
