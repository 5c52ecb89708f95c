-- ===== src/Netlink/Set/Fits.antt =====
-- src/ipc-linux.h: the size of the messages of `kernel_set_device`.
use mathlib.Core.Path.{subst}
use wireguard_tools.Containers.{AllowedIp, Peer, Device}
use wireguard_tools.Netlink.Attr
use wireguard_tools.Netlink.Attr.{IpAttr, PeerAttr, Message}
use wireguard_tools.Netlink.Set.Pieces.{put_allowedips_step, put_peer_step}
use wireguard_tools.Netlink.Set.Rounds.{go_on, set_peers}
use wireguard_tools.Netlink.Set.Takes.{put_peers_step}
use wireguard_tools.Netlink.Set.{
  put_check, put_check_if, nest_start, has_address, put_allowedip, put_allowedips, sockaddr_len,
  is_null, put_peer_head, Part, too_big, cut, whole, part_of, put_left, left_of, put_peer,
  put_peers, put_device, take_peers, send_from, kernel_set_device,
}
use wireguard_tools.Prelude.{
  ℕ, zero, suc, ◌≡◌, refl, sym, inl, inr, Bool, true, false, ◌&&◌, Option, none, some, List, [],
  ◌∷◌, ◌++◌, all, bind_option, Bool-cases, Option-cases,
}

-- The attributes fit, where there are any.
abbrev Fit {ℓ} : {A : Type ℓ} → (List A → Bool) → Option (List A) → Type 0
Fit fits none = Unit
Fit fits (some xs) = fits xs ≡ true

module _ {ℓ} {A : Type ℓ} (fits : List A → Bool) where
  nest-Fit : Fit fits (nest_start fits)
  nest-Fit = elim (Bool-cases (fits [])) [ inl e ↦ rw e e | inr e ↦ rw e tt ]

  put_check-Fit : (a : A) (xs : List A) → Fit fits (put_check fits a xs)
  put_check-Fit a xs = elim (Bool-cases (fits (xs ++ a ∷ []))) [ inl e ↦ rw e e | inr e ↦ rw e tt ]

  put_check_if-Fit :
      (asked : Bool) (a : A) (xs : List A)
      → fits xs ≡ true
      → Fit fits (put_check_if asked fits a xs)
  put_check_if-Fit true a xs h = put_check-Fit a xs
  put_check_if-Fit false a xs h = h

  bind_option-Fit :
      (m : Option (List A)) (f : List A → Option (List A))
      → Fit fits m
      → ((xs : List A) → fits xs ≡ true → Fit fits (f xs))
      → Fit fits (bind_option m f)
  bind_option-Fit none f h k = tt
  bind_option-Fit (some xs) f h k = k xs h

put_allowedip-Fit : (fits : List IpAttr → Bool) (a : AllowedIp) → Fit fits (put_allowedip fits a)
unfolding put_allowedip
put_allowedip-Fit fits a = bind_option-Fit fits (nest_start fits) _ (nest-Fit fits) λ nest h0.
    bind_option-Fit fits (put_check fits (Attr.family (some a.family)) nest) _
      (put_check-Fit fits _ nest)
      λ named h1.
        bind_option-Fit fits (put_check_if (has_address a.family) fits (Attr.ipaddr a.ip) named) _
          (put_check_if-Fit fits _ _ named h1)
          λ addressed h2.
            bind_option-Fit fits (put_check fits (Attr.cidr_mask (some a.cidr)) addressed) _
              (put_check-Fit fits _ addressed)
              λ masked h3. put_check_if-Fit fits a.remove_me (Attr.ip_flags true) masked h3

put_peer_head-Fit :
    (fits : List PeerAttr → Bool) (first : Bool) (p : Peer) → Fit fits (put_peer_head fits first p)
unfolding put_peer_head
put_peer_head-Fit fits first p = bind_option-Fit fits (nest_start fits) _ (nest-Fit fits) λ nest h0.
    bind_option-Fit fits (put_check fits (Attr.public_key p.public_key) nest) _
      (put_check-Fit fits _ nest)
      λ keyed h1.
        bind_option-Fit fits
          (put_check_if (first && p.flags.has_preshared_key) fits
            (Attr.preshared_key p.preshared_key) keyed)
          _ (put_check_if-Fit fits _ _ keyed h1)
          λ shared h2.
            bind_option-Fit fits
              (put_check_if (first && has_address p.endpoint.family) fits
                (Attr.endpoint (sockaddr_len p.endpoint.family) p.endpoint) shared)
              _ (put_check_if-Fit fits _ _ shared h2)
              λ placed h3.
                bind_option-Fit fits
                  (put_check_if (first && p.flags.has_keepalive) fits
                    (Attr.keepalive (some p.persistent_keepalive_interval)) placed)
                  _ (put_check_if-Fit fits _ _ placed h3)
                  λ kept h4. put_check_if-Fit fits _ _ kept h4

put_allowedips-fits :
    (fits : List (List IpAttr) → Bool) (nests : List (List IpAttr)) (ips : List AllowedIp)
    → fits nests ≡ true
    → fits (put_allowedips fits nests ips).0 ≡ true
unfolding put_allowedips
put_allowedips-fits fits nests [] h = h
put_allowedips-fits fits nests (a ∷ left) h =
    elim (Option-cases (put_allowedip (λ nest. fits (nests ++ nest ∷ [])) a)) [
      | inl e ↦
          subst (λ (r : List (List IpAttr) × List AllowedIp). fits r.0 ≡ true)
            (sym (put_allowedips_step fits nests a left e)) h
      | inr (nest, e) ↦
          subst (λ (r : List (List IpAttr) × List AllowedIp). fits r.0 ≡ true)
            (sym (put_allowedips_step fits nests a left e))
            (put_allowedips-fits fits (nests ++ nest ∷ []) left (
              subst (Fit (λ n. fits (nests ++ n ∷ []))) e
                (put_allowedip-Fit (λ n. fits (nests ++ n ∷ [])) a)))
    ]

-- The attributes of a part fit.
abbrev PartFits : (List PeerAttr → Bool) → Part → Type 0
PartFits fits too_big = Unit
PartFits fits (cut nest left) = fits nest ≡ true
PartFits fits (whole nest) = fits nest ≡ true

part_fits :
    (fits : List PeerAttr → Bool) (head : List PeerAttr) (r : List (List IpAttr) × List AllowedIp)
    → fits (head ++ Attr.allowedips r.0 ∷ []) ≡ true
    → PartFits fits (part_of head r)
part_fits fits head (nests, []) h = h
part_fits fits head (nests, a ∷ left) h = h

put_left-PartFits :
    (fits : List PeerAttr → Bool) (head : List PeerAttr) (ips : List AllowedIp)
    → fits head ≡ true
    → PartFits fits (put_left fits head ips)
unfolding put_left
put_left-PartFits fits head [] h = h
put_left-PartFits fits head (a ∷ left) h =
    elim (Bool-cases (fits (head ++ Attr.allowedips [] ∷ []))) [
      | inl more ↦
          rw (put_left, more)
            (part_fits fits head _ (
              put_allowedips-fits (λ nests. fits (head ++ Attr.allowedips nests ∷ [])) [] (a ∷ left)
                more))
      | inr full ↦ rw (put_left, full) h
    ]

put_peer-PartFits :
    (fits : List PeerAttr → Bool) (al : Option (List AllowedIp)) (p : Peer)
    → PartFits fits (put_peer fits al p)
put_peer-PartFits fits al p = elim (Option-cases (put_peer_head fits (is_null al) p)) [
  | inl e ↦ subst (PartFits fits) (sym (put_peer_step fits al p e)) tt
  | inr (head, e) ↦ subst (PartFits fits) (sym (put_peer_step fits al p e)) (
      put_left-PartFits fits head (left_of al p)
        (subst (Fit fits) e (put_peer_head-Fit fits (is_null al) p)))
]

put_peers-fits :
    (fits : List (List PeerAttr) → Bool) (nests : List (List PeerAttr))
    (al : Option (List AllowedIp)) (ps : List Peer)
    → fits nests ≡ true
    → fits (put_peers fits nests al ps).nests ≡ true
unfolding put_peers
put_peers-fits fits nests al [] h = h
put_peers-fits fits nests al (p ∷ ps) h =
    by_part (put_peer part al p) refl (put_peer-PartFits part al p)
      (λ nest. put_peers-fits fits (nests ++ nest ∷ []) none ps)
  where
    part : List PeerAttr → Bool
    part nest = fits (nests ++ nest ∷ [])

    by_part :
        (r : Part)
        → put_peer part al p ≡ r
        → PartFits part r
        → ((nest : List PeerAttr)
            → part nest ≡ true
            → fits (put_peers fits (nests ++ nest ∷ []) none ps).nests ≡ true)
        → fits (put_peers fits nests al (p ∷ ps)).nests ≡ true
    by_part too_big e f ih = rw (put_peers_step fits nests al p ps e) h
    by_part (cut nest left) e f ih = rw (put_peers_step fits nests al p ps e) f
    by_part (whole nest) e f ih = rw (put_peers_step fits nests al p ps e) (ih nest f)

module _ (fits : Message → Bool) (reply : Message → Option ℕ) (dev : Device) where
  go_on-fits :
      (rounds : ℕ) (m : Message) (o : Option ℕ) (al : Option (List AllowedIp)) (peer : List Peer)
      → fits m ≡ true
      → ((q : Peer) (qs : List Peer)
          → all fits (send_from rounds fits reply dev false al (q ∷ qs)).messages ≡ true)
      → all fits (go_on rounds fits reply dev m o al peer).messages ≡ true
  go_on-fits rounds m (some e) al peer h ih = rw h refl
  go_on-fits rounds m none al [] h ih = rw h refl
  go_on-fits rounds m none al (q ∷ qs) h ih = rw h (ih q qs)

  send_from-fits :
      (rounds : ℕ) (first : Bool) (al : Option (List AllowedIp)) (ps : List Peer)
      → fits (put_device first dev ++ Attr.peers [] ∷ []) ≡ true
      → fits (put_device false dev ++ Attr.peers [] ∷ []) ≡ true
      → all fits (send_from rounds fits reply dev first al ps).messages ≡ true
  unfolding send_from take_peers
  send_from-fits zero first al ps h later = refl
  send_from-fits (suc rounds) first al ps h later =
      let room =
        λ (nests : List (List PeerAttr)). fits (put_device first dev ++ Attr.peers nests ∷ []) in
      let t = put_peers room [] al ps in
      let m = put_device first dev ++ Attr.peers t.nests ∷ [] in
      go_on-fits rounds m (reply m) t.allowedip t.peer (put_peers-fits room [] al ps h)
        (λ q qs. send_from-fits rounds false t.allowedip (q ∷ qs) later later)

-- If the attributes in front of the peers fit a message, alone and with an empty nest of peers, and
-- those of a later message with an empty nest too, then every message that `kernel_set_device`
-- sends fits, whatever the peers are, whatever the kernel answers and however many messages there
-- are.
pub kernel_set_device-fits :
    (rounds : ℕ) (fits : Message → Bool) (reply : Message → Option ℕ) (dev : Device)
    → fits (put_device true dev) ≡ true
    → fits (put_device true dev ++ Attr.peers [] ∷ []) ≡ true
    → fits (put_device false dev ++ Attr.peers [] ∷ []) ≡ true
    → all fits (kernel_set_device rounds fits reply dev).messages ≡ true
unfolding kernel_set_device
kernel_set_device-fits rounds fits reply dev alone first later = by_peers dev.peers
  where
    by_peers : (ps : List Peer) → all fits (set_peers rounds fits reply dev ps).messages ≡ true
    by_peers [] = rw alone refl
    by_peers (p ∷ ps) = send_from-fits fits reply dev rounds true none (p ∷ ps) first later
