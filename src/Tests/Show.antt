-- ===== src/Tests/Show.antt =====
-- src/show.c on concrete peers and times.
use wireguard_tools.Containers.{Peer, zero_peer}
use wireguard_tools.Prelude.{◌+◌, ◌*◌, ◌<◌, ◌≡◌, ◌↔◌, arith}
use wireguard_tools.Libc.Compare.{before, after}
use wireguard_tools.Show.Order.{peer_cmp, handshake, peer_cmp_lem}
use wireguard_tools.Show.Time.{Span, pretty_time, commas_between, items, units, pretty_time_lem}

abbrev recent : Peer
recent = record zero_peer { last_handshake_sec = 1700000000; last_handshake_nsec = 5 }

peer_cmp_lem_example :
    ((peer_cmp recent zero_peer ≡ before) ↔ (handshake zero_peer < handshake recent))
    × ((peer_cmp recent zero_peer ≡ after) ↔ (handshake recent < handshake zero_peer))
peer_cmp_lem_example = peer_cmp_lem recent zero_peer (omega arith) (omega arith)

pretty_time_lem_example :
    (t : Span) × (pretty_time 100000 ≡ commas_between (items (units t)))
    × (t.years * 31536000 + t.days * 86400 + t.hours * 3600 + t.minutes * 60 + t.seconds ≡ 100000)
    × (t.days < 365)
    × (t.hours < 24)
    × (t.minutes < 60)
    × (t.seconds < 60)
pretty_time_lem_example = pretty_time_lem 100000
