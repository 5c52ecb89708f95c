-- ===== src/Sync.antt =====
-- src/setconf.c: `sync_conf`, which turns the configuration of a file into a change of the running one.
-- Allocation and `ipc_get_device` do not fail here.
pub mod Sorted
pub mod Refine
pub mod Untouched
use wireguard_tools.Containers.{Peer, PeerFlags, Device, DeviceFlags, zero_peer, zero_key}
use wireguard_tools.Libc.Compare.{Sign, before, same, after, memcmp}
use wireguard_tools.Prelude.{
  ℕ, zero, suc, Bool, true, false, not, ◌&&◌, ◌||◌, List, [], ◌∷◌, ◌++◌, ◌==◌, if◌then◌else◌, Bytes,
  equal,
}

-- `struct peer_origin`; the pointer to a peer of the file is its position in the file's list.
pub record PeerOrigin : Type 0 where
  pub peer : Peer
  pub from_file : Bool
  pub slot : ℕ

abbrev pub minus : Bool → Bool → Sign
minus false true = before
minus true false = after
minus _ _ = same

unfoldable pub peer_cmp : PeerOrigin → PeerOrigin → Sign
peer_cmp a b = elim (memcmp a.peer.public_key b.peer.public_key) [
  | same ↦ minus a.from_file b.from_file
  | before ↦ before
  | after ↦ after
]

-- The entries of `peers` before they are sorted.
unfoldable pub origins : Bool → ℕ → List Peer → List PeerOrigin
origins file i [] = []
origins file i (p ∷ ps) = record { peer = p; from_file = file; slot = i } ∷ origins file (suc i) ps

abbrev pub removal : Bytes → Peer
removal k = record zero_peer {
  public_key = k;
  flags = record (zero_peer.flags) { remove_me = true };
}

-- What becomes of the file's peer that stands behind a running one with the same key: a preshared key
-- and an interval that the file does not name are turned off.
unfoldable pub reconciled : Peer → Peer → Peer
reconciled running p =
    let q =
      (if running.flags.has_preshared_key && not p.flags.has_preshared_key
        then record p {
          preshared_key = zero_key;
          flags = record (p.flags) { has_preshared_key = true };
        }
        else p) in
    if not (running.persistent_keepalive_interval == 0) && not q.flags.has_keepalive
    then record q {
      persistent_keepalive_interval = 0;
      flags = record (q.flags) { has_keepalive = true };
    }
    else q

unfoldable pub update_slot : ℕ → (Peer → Peer) → List Peer → List Peer
update_slot i f [] = []
update_slot zero f (p ∷ ps) = f p ∷ ps
update_slot (suc i) f (p ∷ ps) = p ∷ update_slot i f ps

-- Is the entry behind `a` the file's peer with the key of `a`?
unfoldable pub stays : PeerOrigin → List PeerOrigin → Bool
stays a [] = false
stays a (b ∷ rest) = b.from_file && equal a.peer.public_key b.peer.public_key

unfoldable pub reconcile_next : PeerOrigin → List PeerOrigin → List Peer → List Peer
reconcile_next a [] ps = ps
reconcile_next a (b ∷ rest) ps = update_slot b.slot (reconciled a.peer) ps

-- The new peers at the front of the list; each is put in front of those before it.
unfoldable pub removals : List PeerOrigin → List Peer → List Peer
removals [] front = front
removals (a ∷ rest) front =
    removals rest (if a.from_file || stays a rest then front else removal a.peer.public_key ∷ front)

-- The file's own peers.
unfoldable pub reconcile : List PeerOrigin → List Peer → List Peer
reconcile [] ps = ps
reconcile (a ∷ rest) ps =
    reconcile rest (if not a.from_file && stays a rest then reconcile_next a rest ps else ps)

abbrev pub entries : Device → Device → List PeerOrigin
entries file runtime = origins true 0 file.peers ++ origins false 0 runtime.peers

-- The parameter is `qsort` with `peer_cmp`.
unfoldable pub sync_conf : (List PeerOrigin → List PeerOrigin) → Device → Device → Device
sync_conf qsort file runtime = elim file.peers [
  | [] ↦ file
  | ◌∷◌ p ps ↦ elim runtime.peers [
    | [] ↦ file
    | ◌∷◌ r rs ↦
        let sorted = qsort (entries file runtime) in
        record file {
          flags = record (file.flags) { replace_peers = false };
          peers = removals sorted [] ++ reconcile sorted file.peers;
        }
  ]
]
