-- ===== src/Netlink/RoundTrip/View.antt =====
-- src/ipc-linux.h: the attributes of `kernel_set_device` under `parse_peers`.
use wireguard_tools.Containers.{
  carried_ip, Family, unspec, inet, inet6, other, AllowedIp, Sockaddr, Peer, zero_peer,
  zero_peer_flags, zero_key, zero_sockaddr,
}
use wireguard_tools.Encoding.Hex.{key_is_zero}
use wireguard_tools.Netlink.Attr
use wireguard_tools.Netlink.Attr.{IpAttr, PeerAttr, Cb, ok, error, stop}
use wireguard_tools.Netlink.Get.Calls.{each, each_on, each-append}
use wireguard_tools.Netlink.Get.{read_endpoint, parse_peer}
use wireguard_tools.Netlink.Set.Attrs.{only_if, peer_attrs}
use wireguard_tools.Netlink.Set.{has_address, sockaddr_len}
use wireguard_tools.Prelude.{
  ℕ, ◌≡◌, ◌∙◌, refl, ap, Bool, true, false, not, ◌&&◌, ◌||◌, some, List, [], ◌∷◌, ◌++◌, map,
  if◌then◌else◌, length, ◌==◌, ==_iff, ltb, and-true,
}

-- Of a peer what the three tests let through.
abbrev pub seen : Bool → Bool → Bool → Peer → Peer
seen shared placed kept p = record zero_peer {
  public_key = p.public_key;
  flags = record zero_peer_flags {
    has_public_key = true;
    has_preshared_key = shared && not (key_is_zero p.preshared_key);
  };
  preshared_key = if shared then p.preshared_key else zero_key;
  endpoint = if placed then p.endpoint else zero_sockaddr;
  persistent_keepalive_interval = if kept then p.persistent_keepalive_interval else 0;
}

abbrev pub view : Bool → Peer → List AllowedIp → Peer
view first p ips =
    record (seen (first && p.flags.has_preshared_key) (first && has_address p.endpoint.family)
      (first && p.flags.has_keepalive) p) { allowedips = map carried_ip ips }

-- An attribute behind others that is put under a condition.
each-only_if :
    {A S : Type 0} (cb : A → S → Cb × S) (xs : List A) (b : Bool) (a : A) (s : S) (f : Bool → S)
    → each A S cb xs s ≡ (ok, f false)
    → (b ≡ true → cb a (f false) ≡ (ok, f true))
    → each A S cb (xs ++ only_if b a) s ≡ (ok, f b)
each-only_if {A} {S} cb xs true a s f e h =
    each-append A S cb xs (a ∷ []) s (f false) e ∙ each_on A S cb a [] (f false) (f true) (h refl)
each-only_if {A} {S} cb xs false a s f e h = each-append A S cb xs [] s (f false) e

-- The endpoint of a family with an address is read.
abbrev read_as : Family → ℕ → Sockaddr → Peer → Peer
read_as f len addr p = if ltb len 16 then p else elim f [
  | inet ↦ if len == 16 then record p { endpoint = addr } else p
  | inet6 ↦ if len == 28 then record p { endpoint = addr } else p
  | _ ↦ p
]

read_as_lem :
    (f : Family) (addr : Sockaddr) (p : Peer)
    → has_address f ≡ true
    → read_as f (sockaddr_len f) addr p ≡ record p { endpoint = addr }
read_as_lem inet addr p h = refl
read_as_lem inet6 addr p h = refl
read_as_lem unspec addr p h = cc
read_as_lem other addr p h = cc

module _ (p : Peer) where
  keyed :
      length p.public_key ≡ 32
      → parse_peer each (Attr.public_key p.public_key) zero_peer ≡ (ok, seen false false false p)
  unfolding parse_peer
  keyed size = rw (parse_peer, (==_iff (length p.public_key) 32).1 size) refl

  shared :
      length p.preshared_key ≡ 32
      → parse_peer each (Attr.preshared_key p.preshared_key) (seen false false false p)
        ≡ (ok, seen true false false p)
  unfolding parse_peer
  shared size =
      rw (parse_peer, (==_iff (length p.preshared_key) 32).1 size)
        (by_zero (key_is_zero p.preshared_key))
    where
      by_zero :
          (z : Bool)
          → (let q = seen true false false p in
              ◌≡◌ {A = Cb × Peer}
                (
                  ok,
                  record q {
                    flags = record (q.flags) { has_preshared_key = if not z then true else false };
                  },
                )
                (ok, record q { flags = record (q.flags) { has_preshared_key = not z } }))
      by_zero true = refl
      by_zero false = refl

  placed :
      (b : Bool)
      → has_address p.endpoint.family ≡ true
      → parse_peer each
          (Attr.endpoint (sockaddr_len p.endpoint.family) p.endpoint)
          (seen b false false p)
        ≡ (ok, seen b true false p)
  unfolding parse_peer read_endpoint
  placed b h = ap (λ q. (ok, q)) (read_as_lem p.endpoint.family p.endpoint (seen b false false p) h)

  kept :
      (b c : Bool)
      → parse_peer each (Attr.keepalive (some p.persistent_keepalive_interval)) (seen b c false p)
        ≡ (ok, seen b c true p)
  unfolding parse_peer
  kept b c = refl

  pub head_seen :
      (first : Bool)
      → length p.public_key ≡ 32
      → length p.preshared_key ≡ 32
      → each PeerAttr Peer (parse_peer each) (peer_attrs first p) zero_peer ≡ (ok, view first p [])
  unfolding parse_peer
  head_seen first size size' =
      let shares = first && p.flags.has_preshared_key in
      let places = first && has_address p.endpoint.family in
      let keeps = first && p.flags.has_keepalive in
      let replace = first && p.flags.replace_allowedips in
      let cb = parse_peer each in
      let shared_attrs =
        (Attr.public_key p.public_key ∷ [])
        ++ only_if shares (Attr.preshared_key p.preshared_key) in
      let placed_attrs =
        shared_attrs
        ++ only_if places (Attr.endpoint (sockaddr_len p.endpoint.family) p.endpoint) in
      let kept_attrs =
        placed_attrs ++ only_if keeps (Attr.keepalive (some p.persistent_keepalive_interval)) in
      each-only_if cb kept_attrs (p.flags.remove_me || replace)
        (Attr.peer_flags p.flags.remove_me replace) zero_peer (λ b. view first p [])
        (each-only_if cb placed_attrs keeps (Attr.keepalive (some p.persistent_keepalive_interval))
          zero_peer (λ b. seen shares places b p)
          (each-only_if cb shared_attrs places
            (Attr.endpoint (sockaddr_len p.endpoint.family) p.endpoint) zero_peer
            (λ b. seen shares b false p)
            (each-only_if cb (Attr.public_key p.public_key ∷ []) shares
              (Attr.preshared_key p.preshared_key) zero_peer (λ b. seen b false false p)
              (each_on PeerAttr Peer cb (Attr.public_key p.public_key) [] zero_peer
                (seen false false false p) (keyed size))
              (λ h. shared size'))
            (λ h. placed shares (and-true first (has_address p.endpoint.family) h).1))
          (λ h. kept shares places))
        (λ h. refl)
