-- ===== src/Sync/Untouched.antt =====
-- src/setconf.c: what `sync_conf` changes of the file's own peers.
use wireguard_tools.Containers.{Peer, zero_key}
use wireguard_tools.Prelude.{
  ℕ, zero, suc, ◌≡◌, ◌∙◌, refl, sym, ap, arith, Bool, false, not, ◌&&◌, List, [], ◌∷◌, Bytes, any,
  Bool-cases, inl, inr, map,
}
use wireguard_tools.Sync.Sorted.{has_key}
use wireguard_tools.Sync.{PeerOrigin, reconciled, update_slot, stays, reconcile_next, reconcile}

-- A peer without its preshared key, its interval and their flags.
abbrev pub erased : Peer → Peer
erased p = record p {
  preshared_key = zero_key;
  persistent_keepalive_interval = 0;
  flags = record (p.flags) { has_preshared_key = false; has_keepalive = false };
}

erased-reconciled : (running p : Peer) → erased (reconciled running p) ≡ erased p
unfolding reconciled
erased-reconciled running p = ground arith

update_slot-erased :
    (i : ℕ) (running : Peer) (ps : List Peer)
    → map erased (update_slot i (reconciled running) ps) ≡ map erased ps
unfolding update_slot
update_slot-erased i running [] = refl
update_slot-erased zero running (p ∷ ps) = rw (erased-reconciled running p) refl
update_slot-erased (suc i) running (p ∷ ps) = rw (update_slot-erased i running ps) refl

reconcile_next-erased :
    (a : PeerOrigin) (rest : List PeerOrigin) (ps : List Peer)
    → map erased (reconcile_next a rest ps) ≡ map erased ps
unfolding reconcile_next
reconcile_next-erased a [] ps = refl
reconcile_next-erased a (b ∷ rest) ps = update_slot-erased b.slot a.peer ps

-- Of the file's peers, `sync_conf` changes nothing but preshared keys, keepalive intervals and the two
-- flags that announce them, and leaves their order.
pub reconcile-erased :
    (s : List PeerOrigin) (ps : List Peer) → map erased (reconcile s ps) ≡ map erased ps
unfolding reconcile
reconcile-erased [] ps = refl
reconcile-erased (a ∷ rest) ps = elim (Bool-cases (not a.from_file && stays a rest)) [
  | inr skip ↦ rw (skip, reconcile) (reconcile-erased rest ps)
  | inl next ↦
      rw (next, reconcile)
        (reconcile-erased rest (reconcile_next a rest ps) ∙ reconcile_next-erased a rest ps)
]

has_key-erased : (k : Bytes) (ps : List Peer) → any (has_key k) (map erased ps) ≡ any (has_key k) ps
has_key-erased k [] = refl
has_key-erased k (p ∷ ps) = rw (has_key-erased k ps) refl

pub reconcile-has_key :
    (k : Bytes) (s : List PeerOrigin) (ps : List Peer)
    → any (has_key k) (reconcile s ps) ≡ any (has_key k) ps
reconcile-has_key k s ps =
    sym (has_key-erased k (reconcile s ps))
    ∙ ap (any (has_key k)) (reconcile-erased s ps)
    ∙ has_key-erased k ps

-- The file asks for no removal.
abbrev pub none_removed : List Peer → Bool
none_removed ps = not (any (λ p. p.flags.remove_me) ps)

removed-erased : (ps : List Peer) → none_removed (map erased ps) ≡ none_removed ps
removed-erased [] = refl
removed-erased (p ∷ ps) = ground (arith, removed-erased ps)

pub reconcile-none_removed :
    (s : List PeerOrigin) (ps : List Peer) → none_removed (reconcile s ps) ≡ none_removed ps
reconcile-none_removed s ps =
    sym (removed-erased (reconcile s ps))
    ∙ ap none_removed (reconcile-erased s ps)
    ∙ removed-erased ps
