-- ===== src/Netlink/Set/Pieces.antt =====
-- src/ipc-linux.h: what `put_peer` puts of a peer, on each of its ways out.
use mathlib.Core.Path.{subst}
use mathlib.Core.List.{append-nil, append_assoc}
use wireguard_tools.Containers.{AllowedIp, Peer}
use wireguard_tools.Netlink.Attr
use wireguard_tools.Netlink.Attr.{IpAttr, PeerAttr}
use wireguard_tools.Netlink.Get.{is_nil}
use wireguard_tools.Netlink.Set.Attrs.{
  allowedip_attrs, peer_attrs, put_allowedip_lem, put_peer_head_lem,
}
use wireguard_tools.Netlink.Set.{
  put_allowedip, put_allowedips, put_peer_head, put_left, put_peer, left_of, is_null, part_of, Part,
  too_big, cut, whole,
}
use wireguard_tools.Prelude.{
  ◌≡◌, ◌∙◌, refl, sym, ap, inl, inr, Bool, false, Option, none, some, List, [], ◌∷◌, ◌++◌, map,
  Bool-cases, Option-cases,
}

-- The attributes behind those of the peer that carry these allowed IPs.
pub data TailOf : List AllowedIp → List PeerAttr → Type 0 where
  bare : TailOf [] []
  listed : (ips : List AllowedIp) → TailOf ips (Attr.allowedips (map allowedip_attrs ips) ∷ [])

abbrev pub Carries : Bool → Peer → List AllowedIp → List PeerAttr → Type 0
Carries first p ips nest =
    (tail : List PeerAttr) × (nest ≡ peer_attrs first p ++ tail) × TailOf ips tail

abbrev pub Outcome : Bool → Peer → List AllowedIp → Part → Type 0
Outcome first p ips too_big = Unit
Outcome first p ips (whole nest) = Carries first p ips nest
Outcome first p ips (cut nest left) =
    (taken : List AllowedIp) × (ips ≡ taken ++ left)
    × (is_nil left ≡ false)
    × Carries first p taken nest

-- One step of the loop.
abbrev pub after_one :
    (List (List IpAttr) → Bool)
    → List (List IpAttr)
    → AllowedIp
    → List AllowedIp
    → Option (List IpAttr)
    → List (List IpAttr) × List AllowedIp
after_one fits nests a left o = elim o [
  | none ↦ (nests, a ∷ left)
  | some nest ↦ put_allowedips fits (nests ++ nest ∷ []) left
]

pub put_allowedips_step :
    (fits : List (List IpAttr) → Bool) (nests : List (List IpAttr)) (a : AllowedIp)
    (left : List AllowedIp) {o : Option (List IpAttr)}
    → put_allowedip (λ nest. fits (nests ++ nest ∷ [])) a ≡ o
    → put_allowedips fits nests (a ∷ left) ≡ after_one fits nests a left o
unfolding put_allowedips
put_allowedips_step fits nests a left e = ap (after_one fits nests a left) e

-- What the loop has put is a front part of what was left.
abbrev pub Split :
    List (List IpAttr) → List AllowedIp → List (List IpAttr) × List AllowedIp → Type 0
Split nests ips r =
    (taken : List AllowedIp) × (ips ≡ taken ++ r.1) × (r.0 ≡ nests ++ map allowedip_attrs taken)

pub Split-none : (nests : List (List IpAttr)) (ips : List AllowedIp) → Split nests ips (nests, ips)
Split-none nests ips = ([], refl, sym (append-nil nests))

pub Split-one :
    (nests : List (List IpAttr)) (a : AllowedIp) (left : List AllowedIp)
    (r : List (List IpAttr) × List AllowedIp) {nest : List IpAttr}
    → nest ≡ allowedip_attrs a
    → Split (nests ++ nest ∷ []) left r
    → (taken : List AllowedIp) × (left ≡ taken ++ r.1)
      × (r.0 ≡ nests ++ map allowedip_attrs (a ∷ taken))
Split-one nests a left r {nest} e (taken, split, same) = (
  taken,
  split,
  same
      ∙ (append_assoc nests (nest ∷ []) (map allowedip_attrs taken)
          ∙ ap (λ n. nests ++ n ∷ map allowedip_attrs taken) e),
)

pub put_allowedips-Split :
    (fits : List (List IpAttr) → Bool) (nests : List (List IpAttr)) (ips : List AllowedIp)
    → Split nests ips (put_allowedips fits nests ips)
unfolding put_allowedips
put_allowedips-Split fits nests [] = Split-none nests []
put_allowedips-Split fits nests (a ∷ left) =
    elim (Option-cases (put_allowedip (λ nest. fits (nests ++ nest ∷ [])) a)) [
      | inl e ↦
          subst (Split nests (a ∷ left)) (sym (put_allowedips_step fits nests a left e))
            (Split-none nests (a ∷ left))
      | inr (nest, e) ↦
          let (taken, split, same) =
            Split-one nests a left _ (put_allowedip_lem (λ n. fits (nests ++ n ∷ [])) a e)
              (put_allowedips-Split fits (nests ++ nest ∷ []) left) in
          subst (Split nests (a ∷ left)) (sym (put_allowedips_step fits nests a left e))
            (a ∷ taken, ap (λ l. a ∷ l) split, same)
    ]

-- The parts: with what was left empty or not.
part-Outcome :
    (first : Bool) (p : Peer) (ips : List AllowedIp) (head : List PeerAttr)
    (r : List (List IpAttr) × List AllowedIp)
    → head ≡ peer_attrs first p
    → Split [] ips r
    → Outcome first p ips (part_of head r)
part-Outcome first p ips head (nests, []) e (taken, split, same) =
    let all : ips ≡ taken = split ∙ append-nil taken in
    (
      Attr.allowedips nests ∷ [],
      ap (λ h. h ++ Attr.allowedips nests ∷ []) e,
      subst (λ n. TailOf ips (Attr.allowedips n ∷ [])) (ap (map allowedip_attrs) all ∙ sym same)
          (listed ips),
    )
part-Outcome first p ips head (nests, a ∷ left) e (taken, split, same) = (
  taken,
  split,
  refl,
  (
    Attr.allowedips nests ∷ [],
    ap (λ h. h ++ Attr.allowedips nests ∷ []) e,
    subst (λ n. TailOf taken (Attr.allowedips n ∷ [])) (sym same) (listed taken),
  ),
)

put_left-Outcome :
    (fits : List PeerAttr → Bool) (first : Bool) (p : Peer) (ips : List AllowedIp)
    (head : List PeerAttr)
    → head ≡ peer_attrs first p
    → Outcome first p ips (put_left fits head ips)
unfolding put_left
put_left-Outcome fits first p [] head e = ([], e ∙ sym (append-nil (peer_attrs first p)), bare)
put_left-Outcome fits first p (a ∷ left) head e =
    elim (Bool-cases (fits (head ++ Attr.allowedips [] ∷ []))) [
      | inl more ↦
          rw (put_left, more)
            (part-Outcome first p (a ∷ left) head _ e (put_allowedips-Split _ [] (a ∷ left)))
      | inr full ↦
          rw (put_left, full)
            ([], refl, refl, ([], e ∙ sym (append-nil (peer_attrs first p)), bare))
    ]

abbrev pub after_head : (List PeerAttr → Bool) → List AllowedIp → Option (List PeerAttr) → Part
after_head fits ips o = elim o [ none ↦ too_big | some head ↦ put_left fits head ips ]

pub put_peer_step :
    (fits : List PeerAttr → Bool) (al : Option (List AllowedIp)) (p : Peer)
    {o : Option (List PeerAttr)}
    → put_peer_head fits (is_null al) p ≡ o
    → put_peer fits al p ≡ after_head fits (left_of al p) o
unfolding put_peer
put_peer_step fits al p e = ap (after_head fits (left_of al p)) e

pub put_peer-Outcome :
    (fits : List PeerAttr → Bool) (al : Option (List AllowedIp)) (p : Peer)
    → Outcome (is_null al) p (left_of al p) (put_peer fits al p)
put_peer-Outcome fits al p = elim (Option-cases (put_peer_head fits (is_null al) p)) [
  | inl e ↦ subst (Outcome (is_null al) p (left_of al p)) (sym (put_peer_step fits al p e)) tt
  | inr (head, e) ↦
      subst (Outcome (is_null al) p (left_of al p)) (sym (put_peer_step fits al p e)) (
        put_left-Outcome fits (is_null al) p (left_of al p) head
          (put_peer_head_lem fits (is_null al) p e))
]
