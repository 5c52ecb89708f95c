-- ===== src/Netlink/Set/Attrs.antt =====
-- src/ipc-linux.h: the attributes that the checked calls of `kernel_set_device` put.
use mathlib.Core.List.{append-nil}
use mathlib.Core.Option.{some-injective}
use wireguard_tools.Containers.{AllowedIp, Peer}
use wireguard_tools.Netlink.Attr
use wireguard_tools.Netlink.Attr.{IpAttr, PeerAttr}
use wireguard_tools.Netlink.Set.{
  put_check, put_check_if, nest_start, has_address, put_allowedip, sockaddr_len, put_peer_head,
}
use wireguard_tools.Prelude.{
  ◌≡◌, ◌∙◌, refl, sym, arith, Bool, true, false, ◌&&◌, ◌||◌, some, List, [], ◌∷◌, ◌++◌,
  if◌then◌else◌, bind_option-eq-some,
}

abbrev pub only_if {ℓ} : {A : Type ℓ} → Bool → A → List A
only_if asked a = if asked then a ∷ [] else []

-- The attributes of an allowed IP, and those of a peer in front of its allowed IPs.
abbrev pub allowedip_attrs : AllowedIp → List IpAttr
allowedip_attrs a =
    ((([] ++ Attr.family (some a.family) ∷ []) ++ only_if (has_address a.family) (Attr.ipaddr a.ip))
      ++ Attr.cidr_mask (some a.cidr) ∷ [])
    ++ only_if a.remove_me (Attr.ip_flags true)

abbrev pub peer_attrs : Bool → Peer → List PeerAttr
peer_attrs first p =
    let replace = first && p.flags.replace_allowedips in
    ((((([] ++ Attr.public_key p.public_key ∷ [])
            ++ only_if (first && p.flags.has_preshared_key) (Attr.preshared_key p.preshared_key))
          ++ only_if (first && has_address p.endpoint.family)
              (Attr.endpoint (sockaddr_len p.endpoint.family) p.endpoint))
        ++ only_if (first && p.flags.has_keepalive)
            (Attr.keepalive (some p.persistent_keepalive_interval)))
      ++ only_if (p.flags.remove_me || replace) (Attr.peer_flags p.flags.remove_me replace))

module _ {ℓ} {A : Type ℓ} where
  pub put_check_lem :
      (fits : List A → Bool) (a : A) (xs : List A) {r : List A}
      → put_check fits a xs ≡ some r
      → r ≡ xs ++ a ∷ []
  put_check_lem fits a xs e = ground arith

  pub put_check_if_lem :
      (asked : Bool) (fits : List A → Bool) (a : A) (xs : List A) {r : List A}
      → put_check_if asked fits a xs ≡ some r
      → r ≡ xs ++ only_if asked a
  put_check_if_lem true fits a xs e = put_check_lem fits a xs e
  put_check_if_lem false fits a xs e = sym (append-nil xs ∙ some-injective _ _ e)

  nest_start_lem : (fits : List A → Bool) {r : List A} → nest_start fits ≡ some r → r ≡ []
  nest_start_lem fits e = ground arith

pub put_allowedip_lem :
    (fits : List IpAttr → Bool) (a : AllowedIp) {r : List IpAttr}
    → put_allowedip fits a ≡ some r
    → r ≡ allowedip_attrs a
unfolding put_allowedip
put_allowedip_lem fits a e =
    let (nest, e0, f0) = bind_option-eq-some _ _ e in
    let (named, e1, f1) = bind_option-eq-some _ _ f0 in
    let (addressed, e2, f2) = bind_option-eq-some _ _ f1 in
    let (masked, e3, f3) = bind_option-eq-some _ _ f2 in
    rw
      (
        put_check_if_lem a.remove_me fits (Attr.ip_flags true) masked f3,
        put_check_lem fits (Attr.cidr_mask (some a.cidr)) addressed e3,
        put_check_if_lem (has_address a.family) fits (Attr.ipaddr a.ip) named e2,
        put_check_lem fits (Attr.family (some a.family)) nest e1,
        nest_start_lem fits e0,
      )
      refl

pub put_peer_head_lem :
    (fits : List PeerAttr → Bool) (first : Bool) (p : Peer) {r : List PeerAttr}
    → put_peer_head fits first p ≡ some r
    → r ≡ peer_attrs first p
unfolding put_peer_head
put_peer_head_lem fits first p e =
    let replace = first && p.flags.replace_allowedips in
    let (nest, e0, f0) = bind_option-eq-some _ _ e in
    let (keyed, e1, f1) = bind_option-eq-some _ _ f0 in
    let (shared, e2, f2) = bind_option-eq-some _ _ f1 in
    let (placed, e3, f3) = bind_option-eq-some _ _ f2 in
    let (kept, e4, f4) = bind_option-eq-some _ _ f3 in
    rw
      (
        put_check_if_lem (p.flags.remove_me || replace) fits
            (Attr.peer_flags p.flags.remove_me replace) kept f4,
        put_check_if_lem (first && p.flags.has_keepalive) fits
            (Attr.keepalive (some p.persistent_keepalive_interval)) placed e4,
        put_check_if_lem (first && has_address p.endpoint.family) fits
            (Attr.endpoint (sockaddr_len p.endpoint.family) p.endpoint) shared e3,
        put_check_if_lem (first && p.flags.has_preshared_key) fits
            (Attr.preshared_key p.preshared_key) keyed e2,
        put_check_lem fits (Attr.public_key p.public_key) nest e1,
        nest_start_lem fits e0,
      )
      refl
