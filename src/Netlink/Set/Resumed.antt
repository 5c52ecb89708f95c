-- ===== src/Netlink/Set/Resumed.antt =====
-- src/ipc-linux.h: a message that begins inside of a peer.
use mathlib.Core.Path.{subst}
use mathlib.Core.List.{append-nil}
use wireguard_tools.Containers.{AllowedIp, Peer}
use wireguard_tools.Netlink.Attr
use wireguard_tools.Netlink.Attr.{IpAttr, PeerAttr}
use wireguard_tools.Netlink.Get.{is_nil}
use wireguard_tools.Netlink.Set.Attrs.{
  allowedip_attrs, peer_attrs, put_allowedip_lem, put_peer_head_lem,
}
use wireguard_tools.Netlink.Set.Pieces.{
  TailOf, listed, Carries, Split-one, put_allowedips_step, put_allowedips-Split, put_peer_step,
}
use wireguard_tools.Netlink.Set.{
  put_allowedip, put_allowedips, put_peer_head, put_left, put_peer, part_of, Part, too_big, cut,
  whole,
}
use wireguard_tools.Prelude.{
  ◌≡◌, ◌∙◌, refl, sym, ap, ◌⊎◌, inl, inr, Bool, true, false, none, some, List, [], ◌∷◌, ◌++◌, map,
  Bool-cases, Option-cases,
}

abbrev pub is_whole : Part → Bool
is_whole (whole nest) = true
is_whole _ = false

-- At least one allowed IP is put.
abbrev pub Resumed : Peer → AllowedIp → List AllowedIp → Part → Type 0
Resumed p a left too_big = ⊥
Resumed p a left (whole nest) = Carries false p (a ∷ left) nest
Resumed p a left (cut nest rest) =
    (taken : List AllowedIp) × (left ≡ taken ++ rest)
    × (is_nil rest ≡ false)
    × Carries false p (a ∷ taken) nest

part-Resumed :
    (p : Peer) (a : AllowedIp) (left : List AllowedIp) (head : List PeerAttr)
    (r : List (List IpAttr) × List AllowedIp) (taken : List AllowedIp)
    → head ≡ peer_attrs false p
    → left ≡ taken ++ r.1
    → r.0 ≡ map allowedip_attrs (a ∷ taken)
    → Resumed p a left (part_of head r)
part-Resumed p a left head (nests, []) taken e split same =
    let all : left ≡ taken = split ∙ append-nil taken in
    (
      Attr.allowedips nests ∷ [],
      ap (λ h. h ++ Attr.allowedips nests ∷ []) e,
      subst (λ n. TailOf (a ∷ left) (Attr.allowedips n ∷ []))
          (ap (λ l. map allowedip_attrs (a ∷ l)) all ∙ sym same) (listed (a ∷ left)),
    )
part-Resumed p a left head (nests, b ∷ rest) taken e split same = (
  taken,
  split,
  refl,
  (
    Attr.allowedips nests ∷ [],
    ap (λ h. h ++ Attr.allowedips nests ∷ []) e,
    subst (λ n. TailOf (a ∷ taken) (Attr.allowedips n ∷ [])) (sym same) (listed (a ∷ taken)),
  ),
)

put_left-Resumed :
    (fits : List PeerAttr → Bool) (p : Peer) (a : AllowedIp) (left : List AllowedIp)
    (head : List PeerAttr)
    → head ≡ peer_attrs false p
    → is_whole (put_left fits head (a ∷ [])) ≡ true
    → Resumed p a left (put_left fits head (a ∷ left))
unfolding put_left
put_left-Resumed fits p a left head e one =
    elim (Bool-cases (fits (head ++ Attr.allowedips [] ∷ []))) [
      | inr full ↦ absurd (let never : false ≡ true = rw (put_left, full) at one in cc)
      | inl more ↦
          rw (put_left, more)
            (room (Option-cases (put_allowedip (λ nest. nested (nest ∷ [])) a))
              (rw (put_left, more) at one))
    ]
  where
    nested : List (List IpAttr) → Bool
    nested nests = fits (head ++ Attr.allowedips nests ∷ [])

    room :
        (put_allowedip (λ nest. nested (nest ∷ [])) a ≡ none)
          ⊎ ((nest : List IpAttr) × (put_allowedip (λ nest. nested (nest ∷ [])) a ≡ some nest))
        → is_whole (part_of head (put_allowedips nested [] (a ∷ []))) ≡ true
        → Resumed p a left (part_of head (put_allowedips nested [] (a ∷ left)))
    room (inl none_put) whole_one = absurd (
        let never : ◌≡◌ {A = Bool} false true =
          sym (ap (λ r. is_whole (part_of head r)) (put_allowedips_step nested [] a [] none_put))
          ∙ whole_one in
        cc)
    room (inr (nest, put_one)) whole_one =
        let (taken, split, same) =
          Split-one [] a left _ (put_allowedip_lem (λ n. nested (n ∷ [])) a put_one)
            (put_allowedips-Split nested (nest ∷ []) left) in
        subst (λ r. Resumed p a left (part_of head r))
          (sym (put_allowedips_step nested [] a left put_one))
          (part-Resumed p a left head _ taken e split same)

pub put_peer-Resumed :
    (fits : List PeerAttr → Bool) (p : Peer) (a : AllowedIp) (left : List AllowedIp)
    → is_whole (put_peer fits (some (a ∷ [])) p) ≡ true
    → Resumed p a left (put_peer fits (some (a ∷ left)) p)
put_peer-Resumed fits p a left one = elim (Option-cases (put_peer_head fits false p)) [
  | inl e ↦ absurd (
      let never : ◌≡◌ {A = Bool} false true =
        sym (ap is_whole (put_peer_step fits (some (a ∷ [])) p e)) ∙ one in
      cc)
  | inr (head, e) ↦ subst (Resumed p a left) (sym (put_peer_step fits (some (a ∷ left)) p e)) (
      put_left-Resumed fits p a left head (put_peer_head_lem fits false p e)
        (sym (ap is_whole (put_peer_step fits (some (a ∷ [])) p e)) ∙ one))
]
