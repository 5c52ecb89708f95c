-- ===== src/Netlink/Set/Begins.antt =====
-- src/ipc-linux.h: a message of `kernel_set_device` that has room for its first peer.
use mathlib.Core.Path.{subst}
use wireguard_tools.Containers.{AllowedIp, Peer}
use wireguard_tools.Netlink.Attr.{PeerAttr}
use wireguard_tools.Netlink.Get.{is_nil}
use wireguard_tools.Netlink.Set.Pieces.{Carries, Outcome, put_peer-Outcome}
use wireguard_tools.Netlink.Set.Resumed.{is_whole, Resumed, put_peer-Resumed}
use wireguard_tools.Netlink.Set.Takes.{Takes, after_part, put_peers_step, put_peers-Takes}
use wireguard_tools.Netlink.Set.{put_peer, put_peers, Part, too_big, cut, whole, Taken}
use wireguard_tools.Prelude.{
  ◌≡◌, refl, sym, Bool, true, false, not, ◌&&◌, Option, none, some, List, [], ◌∷◌, ◌++◌, all,
  and-true, arith,
}

abbrev pub is_too_big : Part → Bool
is_too_big too_big = true
is_too_big _ = false

-- Do the attributes of a peer fit, and each of its allowed IPs alone behind its key?
abbrev pub ip_room : (List PeerAttr → Bool) → Peer → AllowedIp → Bool
ip_room fits p a = is_whole (put_peer fits (some (a ∷ [])) p)

abbrev pub peer_room : (List PeerAttr → Bool) → Peer → Bool
peer_room fits p = not (is_too_big (put_peer fits none p)) && all (ip_room fits p) p.allowedips

-- There is room for what is left.
abbrev pub Ready : (List PeerAttr → Bool) → Option (List AllowedIp) → List Peer → Type 0
Ready fits none ps = all (peer_room fits) ps ≡ true
Ready fits (some left) [] = ⊥
Ready fits (some left) (p ∷ ps) =
    (is_nil left ≡ false) × (all (ip_room fits p) left ≡ true) × (all (peer_room fits) ps ≡ true)

not-true : (b : Bool) → not b ≡ true → b ≡ false
not-true b h = ground arith

all-suffix :
    {A : Type 0} (test : A → Bool) (xs ys : List A)
    → all test (xs ++ ys) ≡ true
    → all test ys ≡ true
all-suffix test [] ys h = h
all-suffix test (x ∷ xs) ys h = all-suffix test xs ys (and-true _ _ h).1

-- A step leaves room for what it leaves.
pub Takes-Ready :
    {al al' : Option (List AllowedIp)} {ps ps' : List Peer} {nests : List (List PeerAttr)}
    (fits : List PeerAttr → Bool)
    → Takes al ps nests al' ps'
    → Ready fits al ps
    → Ready fits al' ps'
Takes-Ready fits (Takes.finished al) r = refl
Takes-Ready fits (Takes.full al p ps) r = r
Takes-Ready fits (Takes.split none p ps taken left nest parts more carries) r = (
  more,
  all-suffix (ip_room fits p) taken left
      (subst (λ l. all (ip_room fits p) l ≡ true) parts (and-true _ _ (and-true _ _ r).0).1),
  (and-true _ _ r).1,
)
Takes-Ready fits (Takes.split (some rest) p ps taken left nest parts more carries) r = (
  more,
  all-suffix (ip_room fits p) taken left (subst (λ l. all (ip_room fits p) l ≡ true) parts r.1),
  r.2,
)
Takes-Ready fits (Takes.on none al' p ps ps' nest nests carries takes) r =
    Takes-Ready fits takes (and-true _ _ r).1
Takes-Ready fits (Takes.on (some rest) al' p ps ps' nest nests carries takes) r =
    Takes-Ready fits takes r.2

-- A step that takes an allowed IP, or a peer that is new.
pub data Begins
    : Option (List AllowedIp)
      → List Peer
      → List (List PeerAttr)
      → Option (List AllowedIp)
      → List Peer
      → Type 0 where
  fresh_split :
      (p : Peer) (ps : List Peer) (taken left : List AllowedIp) (nest : List PeerAttr)
      → p.allowedips ≡ taken ++ left
      → is_nil left ≡ false
      → Carries true p taken nest
      → Begins none (p ∷ ps) (nest ∷ []) (some left) (p ∷ ps)
  fresh_on :
      (al' : Option (List AllowedIp)) (p : Peer) (ps ps' : List Peer) (nest : List PeerAttr)
      (nests : List (List PeerAttr))
      → Carries true p p.allowedips nest
      → Takes none ps nests al' ps'
      → Begins none (p ∷ ps) (nest ∷ nests) al' ps'
  again_split :
      (p : Peer) (ps : List Peer) (a : AllowedIp) (rest taken left : List AllowedIp)
      (nest : List PeerAttr)
      → rest ≡ taken ++ left
      → is_nil left ≡ false
      → Carries false p (a ∷ taken) nest
      → Begins (some (a ∷ rest)) (p ∷ ps) (nest ∷ []) (some left) (p ∷ ps)
  again_on :
      (al' : Option (List AllowedIp)) (p : Peer) (ps ps' : List Peer) (a : AllowedIp)
      (rest : List AllowedIp) (nest : List PeerAttr) (nests : List (List PeerAttr))
      → Carries false p (a ∷ rest) nest
      → Takes none ps nests al' ps'
      → Begins (some (a ∷ rest)) (p ∷ ps) (nest ∷ nests) al' ps'

abbrev BeginsWith : Option (List AllowedIp) → List Peer → Taken → Type 0
BeginsWith al ps t = Begins al ps t.nests t.allowedip t.peer

module _ (fits : List (List PeerAttr) → Bool) (p : Peer) (ps : List Peer) where
  abbrev alone : List PeerAttr → Bool
  alone nest = fits (nest ∷ [])

  fresh :
      (part : Part)
      → is_too_big part ≡ false
      → Outcome true p p.allowedips part
      → BeginsWith none (p ∷ ps) (after_part fits [] none p ps part)
  fresh too_big small o = cc
  fresh (cut nest left) small (taken, parts, more, carries) =
      Begins.fresh_split p ps taken left nest parts more carries
  fresh (whole nest) small carries =
      let (new, same, takes) = put_peers-Takes fits (nest ∷ []) none ps in
      subst
        (λ n.
          Begins none (p ∷ ps) n (put_peers fits (nest ∷ []) none ps).allowedip
            (put_peers fits (nest ∷ []) none ps).peer)
        (sym same) (Begins.fresh_on _ p ps _ nest new carries takes)

  again :
      (a : AllowedIp) (rest : List AllowedIp) (part : Part)
      → Resumed p a rest part
      → BeginsWith (some (a ∷ rest)) (p ∷ ps) (after_part fits [] (some (a ∷ rest)) p ps part)
  again a rest too_big r = absurd r
  again a rest (cut nest left) (taken, parts, more, carries) =
      Begins.again_split p ps a rest taken left nest parts more carries
  again a rest (whole nest) carries =
      let (new, same, takes) = put_peers-Takes fits (nest ∷ []) none ps in
      subst
        (λ n.
          Begins (some (a ∷ rest)) (p ∷ ps) n (put_peers fits (nest ∷ []) none ps).allowedip
            (put_peers fits (nest ∷ []) none ps).peer)
        (sym same) (Begins.again_on _ p ps _ a rest nest new carries takes)

  pub put_peers-Begins :
      (al : Option (List AllowedIp))
      → Ready (λ nest. fits (nest ∷ [])) al (p ∷ ps)
      → Begins al
          (p ∷ ps)
          (put_peers fits [] al (p ∷ ps)).nests
          (put_peers fits [] al (p ∷ ps)).allowedip
          (put_peers fits [] al (p ∷ ps)).peer
  put_peers-Begins none r =
      subst (BeginsWith none (p ∷ ps)) (sym (put_peers_step fits [] none p ps refl)) (
        fresh (put_peer alone none p) (not-true _ (and-true _ _ (and-true _ _ r).0).0)
          (put_peer-Outcome alone none p))
  put_peers-Begins (some []) r = cc
  put_peers-Begins (some (a ∷ rest)) r =
      subst (BeginsWith (some (a ∷ rest)) (p ∷ ps))
        (sym (put_peers_step fits [] (some (a ∷ rest)) p ps refl))
        (again a rest (put_peer alone (some (a ∷ rest)) p)
          (put_peer-Resumed alone p a rest (and-true _ _ r.1).0))
