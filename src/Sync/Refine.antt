-- ===== src/Sync/Refine.antt =====
-- src/setconf.c: `sync_conf` against the set of keys that the device ends up with.
use mathlib.Core.List.{Perm}
use wireguard_tools.Containers.{Peer, Device}
use wireguard_tools.Prelude.{
  ℕ, suc, ◌≤◌, ◌≡◌, ◌∙◌, ◌⊎◌, refl, arith, Bool, true, false, not, ◌&&◌, ◌||◌, List, [], ◌∷◌, ◌++◌,
  if◌then◌else◌, Bytes, All, any, any_count, count, count-perm, count-append, Bool-cases, inl, inr,
}
use wireguard_tools.Sync.Sorted.{running, filed, has_key, IsSorted, removals_lem}
use wireguard_tools.Sync.Untouched.{none_removed, reconcile-has_key, reconcile-none_removed}
use wireguard_tools.Sync.{
  PeerOrigin, origins, removal, stays, removals, reconcile, entries, sync_conf,
}

-- Whether a device has a key after the changes of a list of peers, one after another: an entry that
-- asks for removal takes its key away, and any other puts it in.
abbrev pub present : Bytes → List Peer → Bool → Bool
present k [] now = now
present k (p ∷ ps) now = present k ps (if has_key k p then not p.flags.remove_me else now)

present-append :
    (k : Bytes) (xs ys : List Peer) (now : Bool)
    → present k (xs ++ ys) now ≡ present k ys (present k xs now)
present-append k [] ys now = refl
present-append k (p ∷ xs) ys now = present-append k xs ys _

present_file :
    (k : Bytes) (ps : List Peer) (now : Bool)
    → none_removed ps ≡ true
    → present k ps now ≡ (now || any (has_key k) ps)
present_file k [] now h = ground arith
present_file k (p ∷ ps) now h = present_file k ps _ (ground arith) ∙ ground arith

abbrev AllRemovals : List Peer → Type 0
AllRemovals = All (λ p. p.flags.remove_me ≡ true)

removals-AllRemovals :
    (s : List PeerOrigin) (front : List Peer) → AllRemovals front → AllRemovals (removals s front)
unfolding removals
removals-AllRemovals [] front h = h
removals-AllRemovals (a ∷ rest) front h = elim (Bool-cases (a.from_file || stays a rest)) [
  | inl keep ↦ rw keep (removals-AllRemovals rest front h)
  | inr gone ↦ rw gone (removals-AllRemovals rest (removal a.peer.public_key ∷ front) (refl, h))
]

present_removals :
    (k : Bytes) (ps : List Peer) (now : Bool)
    → AllRemovals ps
    → present k ps now ≡ (now && not (any (has_key k) ps))
present_removals k [] now h = ground arith
present_removals k (p ∷ ps) now h = present_removals k ps _ h.1 ∙ ground arith

running_file : (k : Bytes) (i : ℕ) (ps : List Peer) → count (running k) (origins true i ps) ≡ 0
unfolding origins
running_file k i [] = refl
running_file k i (p ∷ ps) = omega (arith, running_file k (suc i) ps)

running_runtime :
    (k : Bytes) (i : ℕ) (ps : List Peer)
    → count (running k) (origins false i ps) ≡ count (has_key k) ps
unfolding origins
running_runtime k i [] = refl
running_runtime k i (p ∷ ps) = omega (arith, running_runtime k (suc i) ps)

filed_file :
    (k : Bytes) (i : ℕ) (ps : List Peer)
    → count (filed k) (origins true i ps) ≡ count (has_key k) ps
unfolding origins
filed_file k i [] = refl
filed_file k i (p ∷ ps) = omega (arith, filed_file k (suc i) ps)

filed_runtime : (k : Bytes) (i : ℕ) (ps : List Peer) → count (filed k) (origins false i ps) ≡ 0
unfolding origins
filed_runtime k i [] = refl
filed_runtime k i (p ∷ ps) = omega (arith, filed_runtime k (suc i) ps)

-- `qsort` did its work on the entries, and the running device has each key once.
pub record IsSortedEntries (sorted : List PeerOrigin) (file runtime : Device) : Type 0 where
  pub permuted : Perm sorted (entries file runtime)
  pub in_order : IsSorted sorted
  pub distinct : (k : Bytes) → count (has_key k) runtime.peers ≤ 1

module _ (sorted : List PeerOrigin) (file runtime : Device)
    (h : IsSortedEntries sorted file runtime) where
  running_count : (k : Bytes) → count (running k) sorted ≡ count (has_key k) runtime.peers
  running_count k =
      count-perm (running k) sorted (entries file runtime) h.permuted
      ∙ count-append (running k) (origins true 0 file.peers) (origins false 0 runtime.peers)
      ∙ omega (arith, running_file k 0 file.peers, running_runtime k 0 runtime.peers)

  filed_count : (k : Bytes) → count (filed k) sorted ≡ count (has_key k) file.peers
  filed_count k =
      count-perm (filed k) sorted (entries file runtime) h.permuted
      ∙ count-append (filed k) (origins true 0 file.peers) (origins false 0 runtime.peers)
      ∙ omega (arith, filed_file k 0 file.peers, filed_runtime k 0 runtime.peers)

  -- What is removed is what runs and is not in the file.
  removed_keys :
      (k : Bytes)
      → any (has_key k) (removals sorted [])
        ≡ (any (has_key k) runtime.peers && not (any (has_key k) file.peers))
  removed_keys k =
      removals_lem k sorted [] h.in_order (λ j. omega (arith, running_count j, h.distinct j))
      ∙ rw
          (
            any_count (running k) sorted,
            any_count (filed k) sorted,
            running_count k,
            filed_count k,
            any_count (has_key k) runtime.peers,
            any_count (has_key k) file.peers,
          )
          refl

  -- The changes take the running keys to the keys of the file.
  changed_keys :
      (k : Bytes)
      → none_removed file.peers ≡ true
      → present k
          (removals sorted [] ++ reconcile sorted file.peers)
          (any (has_key k) runtime.peers)
        ≡ any (has_key k) file.peers
  changed_keys k plain =
      rw
        (
          present-append k (removals sorted []) (reconcile sorted file.peers)
              (any (has_key k) runtime.peers),
          present_removals k (removals sorted []) (any (has_key k) runtime.peers)
              (removals-AllRemovals sorted [] tt),
          present_file k (reconcile sorted file.peers)
              (any (has_key k) runtime.peers && not (any (has_key k) (removals sorted [])))
              (reconcile-none_removed sorted file.peers ∙ plain),
          reconcile-has_key k sorted file.peers,
          removed_keys k,
        )
        (ground arith)

-- The keys that a device has after a change, from those that it has now.
abbrev pub keys_after : Bytes → Device → Bool → Bool
keys_after k change now = present k change.peers (not change.flags.replace_peers && now)

-- The device as it is, or the changed one: `sync_conf` does one of the two.
changed : (List PeerOrigin → List PeerOrigin) → Device → Device → Device
changed qsort file runtime =
    let sorted = qsort (entries file runtime) in
    record file {
      flags = record (file.flags) { replace_peers = false };
      peers = removals sorted [] ++ reconcile sorted file.peers;
    }

sync_conf-cases :
    (qsort : List PeerOrigin → List PeerOrigin) (file runtime : Device)
    → (sync_conf qsort file runtime ≡ file)
      ⊎ (sync_conf qsort file runtime ≡ changed qsort file runtime)
unfolding sync_conf changed
sync_conf-cases qsort file runtime = shaped file.peers refl runtime.peers refl
  where
    shaped :
        (fs : List Peer)
        → file.peers ≡ fs
        → (rs : List Peer) → runtime.peers ≡ rs
        → (sync_conf qsort file runtime ≡ file)
          ⊎ (sync_conf qsort file runtime ≡ changed qsort file runtime)
    shaped [] e rs f = inl (simp (sync_conf, e))
    shaped (p ∷ fs) e [] f = inl (simp (sync_conf, e, f))
    shaped (p ∷ fs) e (r ∷ rs) f = inr (simp (sync_conf, e, f))

-- For a file that names no removal and replaces all peers, a `qsort` that orders the entries by
-- `peer_cmp`, and a running device with each key at most once: after the change that `sync_conf` makes, the
-- device has exactly the keys of the file.
pub sync_conf-keys_after :
    (qsort : List PeerOrigin → List PeerOrigin) (file runtime : Device)
    → IsSortedEntries (qsort (entries file runtime)) file runtime
    → none_removed file.peers ≡ true
    → file.flags.replace_peers ≡ true
    → (k : Bytes)
    → keys_after k (sync_conf qsort file runtime) (any (has_key k) runtime.peers)
      ≡ any (has_key k) file.peers
unfolding changed
sync_conf-keys_after qsort file runtime h plain replace k =
    elim (sync_conf-cases qsort file runtime) [
      | inl e ↦ rw (e, replace) (present_file k file.peers false plain)
      | inr e ↦ rw e (changed_keys (qsort (entries file runtime)) file runtime h k plain)
    ]
