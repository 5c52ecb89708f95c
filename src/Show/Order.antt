-- ===== src/Show/Order.antt =====
-- src/show.c: `peer_cmp`, the order of the peers. The times are not negative.
use wireguard_tools.Containers.{Peer, Device}
use wireguard_tools.Libc.Compare.{Sign, before, same, after}
use wireguard_tools.Prelude.{
  ℕ, ◌+◌, ◌*◌, ◌<◌, ◌≡◌, ◌↔◌, arith, Bool, not, ◌&&◌, ltb, ◌==◌, List, [], ◌∷◌, if◌then◌else◌,
}

abbrev pub compare_down : ℕ → ℕ → Sign
compare_down x y = if ltb x y then after else if ltb y x then before else same

-- No handshake so far.
abbrev pub never : Peer → Bool
never p = p.last_handshake_sec == 0 && p.last_handshake_nsec == 0

unfoldable pub peer_cmp : Peer → Peer → Sign
peer_cmp a b =
    if never a && not (never b)
    then after
    else if never b && not (never a)
    then before
    else if a.last_handshake_sec == b.last_handshake_sec
    then compare_down a.last_handshake_nsec b.last_handshake_nsec
    else compare_down a.last_handshake_sec b.last_handshake_sec

-- The parameter is `qsort` with `peer_cmp`.
abbrev pub sort_peers : (List Peer → List Peer) → Device → Device
sort_peers qsort device = elim device.peers [
  | [] ↦ device
  | ◌∷◌ p ps ↦ record device { peers = qsort device.peers }
]

-- The time of the last handshake in nanoseconds.
abbrev pub handshake : Peer → ℕ
handshake p = p.last_handshake_sec * 1000000000 + p.last_handshake_nsec

-- For times whose nanoseconds are under a second, `peer_cmp` orders the peers by the time of the last
-- handshake, the latest first; peers without a handshake, whose time is 0, stand last.
pub peer_cmp_lem :
    (a b : Peer)
    → a.last_handshake_nsec < 1000000000
    → b.last_handshake_nsec < 1000000000
    → ((peer_cmp a b ≡ before) ↔ (handshake b < handshake a))
      × ((peer_cmp a b ≡ after) ↔ (handshake a < handshake b))
unfolding peer_cmp
peer_cmp_lem a b h k =
    ((λ e. ground arith, λ e. ground arith), (λ e. ground arith, λ e. ground arith))
