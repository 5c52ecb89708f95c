-- ===== src/Netlink/Get/Null.antt =====
-- src/ipc-linux.h: the pointer `last_allowedip` in `coalesce_peers`.
use wireguard_tools.Containers.{AllowedIp, Peer}
use wireguard_tools.Netlink.Get.{Linked, is_nil, linked, take_over, coalesce_from, coalesce_peers}
use wireguard_tools.Prelude.{
  ◌≡◌, ◌∙◌, refl, ap, false, not, Option, none, some, List, [], ◌∷◌, ◌++◌, equal, equal_iff,
}

-- The steps of the loop, at a peer of the same key and at another.
abbrev pub on_from : Option Linked → List Peer → Option (List Peer)
on_from r ps = elim r [ none ↦ none | some l ↦ coalesce_from l ps ]

abbrev pub behind : Peer → Option (List Peer) → Option (List Peer)
behind p r = elim r [ none ↦ none | some rest ↦ some (p ∷ rest) ]

pub coalesce_from-same :
    (l : Linked) (p : Peer) (ps : List Peer) {r : Option Linked}
    → l.peer.public_key ≡ p.public_key
    → take_over l (linked p) ≡ r
    → coalesce_from l (p ∷ ps) ≡ on_from r ps
unfolding coalesce_from
coalesce_from-same l p ps e t =
    rw (coalesce_from, (equal_iff l.peer.public_key p.public_key).1 e) (ap (λ r. on_from r ps) t)

pub coalesce_from-other :
    (l : Linked) (p : Peer) (ps : List Peer) {r : Option (List Peer)}
    → equal l.peer.public_key p.public_key ≡ false
    → coalesce_from (linked p) ps ≡ r
    → coalesce_from l (p ∷ ps) ≡ behind l.peer r
unfolding coalesce_from
coalesce_from-other l p ps e t = rw (coalesce_from, e) (ap (behind l.peer) t)

-- On three peers of the same public key, the first with allowed IPs and the second without, in
-- front of any others, `coalesce_peers` follows the NULL `last_allowedip` that it has copied from
-- the second.
pub coalesce_peers-follows_null :
    (a b c : Peer) (x : AllowedIp) (xs : List AllowedIp) (ps : List Peer)
    → a.public_key ≡ b.public_key
    → a.public_key ≡ c.public_key
    → a.allowedips ≡ x ∷ xs
    → b.allowedips ≡ []
    → coalesce_peers (a ∷ b ∷ c ∷ ps) ≡ none
unfolding take_over
coalesce_peers-follows_null a b c x xs ps same_b same_c has empty =
    let joined : Linked = record {
      peer = record a { allowedips = a.allowedips ++ b.allowedips };
      has_last = not (is_nil b.allowedips);
    } in
    let first : take_over (linked a) (linked b) ≡ some joined = rw has refl in
    let second : take_over joined (linked c) ≡ none = rw (has, empty) refl in
    coalesce_from-same (linked a) b (c ∷ ps) same_b first
    ∙ coalesce_from-same joined c ps same_c second
