-- ===== src/Tests/Sync.antt =====
-- src/setconf.c: `sync_conf` on a file with two peers, one of which runs beside a peer that goes.
use mathlib.Core.List.{Permᴰ}
use mathlib.Core.List.Permᴰ
use wireguard_tools.Config.Numbers.{first_byte}
use wireguard_tools.Containers.{Peer, Device, zero_peer, zero_device}
use wireguard_tools.Libc.Compare.{Sign, after, before, same, memcmp}
use wireguard_tools.Prelude.{
  ℕ, ◌≡◌, ◌∙◌, refl, sym, ap, arith, true, List, [], ◌∷◌, Bytes, any, Bool-cases, inl, inr, equal,
  equal_iff, replicate, count, ◌≤◌, map,
}
use wireguard_tools.Sync.Refine.{IsSortedEntries, keys_after, sync_conf-keys_after}
use wireguard_tools.Sync.Sorted.{has_key, IsSorted}
use wireguard_tools.Sync.Untouched.{erased, reconcile-erased}
use wireguard_tools.Sync.{
  PeerOrigin, peer_cmp, entries, origins, stays, removals, removal, reconciled, reconcile_next,
  update_slot, reconcile, sync_conf,
}

abbrev key_of : ℕ → Bytes
key_of n = replicate 32 n

abbrev listed : ℕ → Peer
listed n = record zero_peer {
  public_key = key_of n;
  flags = record (zero_peer.flags) { has_public_key = true };
}

abbrev file : Device
file = record zero_device {
  flags = record (zero_device.flags) { replace_peers = true };
  peers = listed 1 ∷ listed 3 ∷ [];
}

abbrev guarded : Peer
guarded = record (listed 1) {
  preshared_key = key_of 9;
  persistent_keepalive_interval = 25;
  flags = record (zero_peer.flags) { has_public_key = true; has_preshared_key = true };
}

abbrev runtime : Device
runtime = record zero_device { peers = listed 2 ∷ guarded ∷ [] }

abbrev insert : PeerOrigin → List PeerOrigin → List PeerOrigin
insert a [] = a ∷ []
insert a (b ∷ s) = let rest = insert a s in elim (peer_cmp a b) [ after ↦ b ∷ rest | _ ↦ a ∷ b ∷ s ]

abbrev sort : List PeerOrigin → List PeerOrigin
sort [] = []
sort (a ∷ s) = insert a (sort s)

insert-permuted : (a : PeerOrigin) (s : List PeerOrigin) → Permᴰ (insert a s) (a ∷ s)
insert-permuted a [] = Permᴰ.refl (a ∷ [])
insert-permuted a (b ∷ s) = placed (peer_cmp a b) (insert-permuted a s)
  where
    placed :
        (x : Sign)
        → Permᴰ (insert a s) (a ∷ s)
        → Permᴰ (elim x [ after ↦ b ∷ insert a s | _ ↦ a ∷ b ∷ s ]) (a ∷ b ∷ s)
    placed after h = Permᴰ.trans (Permᴰ.cons refl h) (Permᴰ.swap refl refl)
    placed before h = Permᴰ.refl (a ∷ b ∷ s)
    placed same h = Permᴰ.refl (a ∷ b ∷ s)

sort-permuted : (s : List PeerOrigin) → Permᴰ (sort s) s
sort-permuted [] = Permᴰ.nil
sort-permuted (a ∷ s) = Permᴰ.trans (insert-permuted a (sort s)) (Permᴰ.cons refl (sort-permuted s))

ordered : IsSorted (sort (entries file runtime))
unfolding peer_cmp origins memcmp
ordered = (
  (λ e. absurd cc, (λ e. absurd cc, (λ e. absurd cc, tt))),
  ((λ e. absurd cc, (λ e. absurd cc, tt)), ((λ e. absurd cc, tt), (tt, tt))),
)

one_each : (k : Bytes) → count (has_key k) runtime.peers ≤ 1
one_each k = elim (Bool-cases (equal (key_of 1) k)) [
  | inr other ↦ ground arith
  | inl first ↦ elim (Bool-cases (equal (key_of 2) k)) [
    | inr other ↦ ground arith
    | inl second ↦
        let same_key = (equal_iff (key_of 1) k).0 first ∙ sym ((equal_iff (key_of 2) k).0 second) in
        absurd (ground (arith, ap first_byte same_key))
  ]
]

test_sorted : IsSortedEntries (sort (entries file runtime)) file runtime
test_sorted = record {
  permuted = ∣ sort-permuted (entries file runtime) ∣₁;
  in_order = ordered;
  distinct = one_each;
}

sync_conf-keys_after_example :
    keys_after (key_of 2) (sync_conf sort file runtime) (any (has_key (key_of 2)) runtime.peers)
    ≡ any (has_key (key_of 2)) file.peers
sync_conf-keys_after_example =
    sync_conf-keys_after sort file runtime test_sorted refl refl (key_of 2)

reconcile-erased_example :
    map erased (reconcile (sort (entries file runtime)) file.peers) ≡ map erased file.peers
reconcile-erased_example = reconcile-erased (sort (entries file runtime)) file.peers

-- The preshared key and the interval of the running peer are turned off in the file's.
kept :
    reconcile (sort (entries file runtime)) file.peers
    ≡ record guarded {
      preshared_key = replicate 32 0;
      persistent_keepalive_interval = 0;
      flags = record (guarded.flags) { has_keepalive = true };
    }
      ∷ listed 3
      ∷ []
unfolding reconcile peer_cmp origins memcmp stays equal reconcile_next update_slot reconciled
kept = refl

-- The other running peer is removed.
gone : removals (sort (entries file runtime)) [] ≡ removal (key_of 2) ∷ []
unfolding removals peer_cmp origins memcmp stays equal
gone = refl
