-- ===== src/Sync/Sorted.antt =====
-- src/setconf.c: the walk of `sync_conf` over the sorted entries.
use wireguard_tools.Containers.{Peer}
use wireguard_tools.Libc.Compare.{
  Sign, before, same, after, memcmp, memcmp-eq-same, memcmp_self, memcmp_swap,
}
use mathlib.Core.Path.{subst}
use wireguard_tools.Prelude.{
  and-true, ◌≤◌, ◌≡◌, ◌≢◌, ◌∙◌, refl, sym, arith, Bool, true, false, not, ◌&&◌, ◌||◌, List, [], ◌∷◌,
  if◌then◌else◌, Bytes, equal, equal_iff, All, any, count, any-false, Bool-cases, inl, inr,
}
use wireguard_tools.Sync.{PeerOrigin, peer_cmp, removal, stays, removals}

-- Entries of the running device and of the file with a key.
abbrev pub running : Bytes → PeerOrigin → Bool
running k o = not o.from_file && equal o.peer.public_key k

abbrev pub filed : Bytes → PeerOrigin → Bool
filed k o = o.from_file && equal o.peer.public_key k

abbrev pub has_key : Bytes → Peer → Bool
has_key k p = equal p.public_key k

-- What `qsort` leaves: no entry stands behind one that is after it.
abbrev pub IsSorted : List PeerOrigin → Type 0
IsSorted [] = Unit
IsSorted (a ∷ rest) = All (λ b. peer_cmp a b ≢ after) rest × IsSorted rest

-- The running device has no two peers with one key.
abbrev pub AtMostOne : List PeerOrigin → Type 0
AtMostOne s = (k : Bytes) → count (running k) s ≤ 1

equal_self : (a : Bytes) → equal a a ≡ true
equal_self a = (equal_iff a a).1 refl

file_after :
    (a b : PeerOrigin)
    → a.from_file ≡ true
    → running a.peer.public_key b ≡ true
    → peer_cmp a b ≡ after
unfolding peer_cmp
file_after a b file e =
    let (runs, key) = and-true (not b.from_file) (equal b.peer.public_key a.peer.public_key) e in
    let same_key : memcmp a.peer.public_key b.peer.public_key ≡ same =
      subst (λ k. memcmp a.peer.public_key k ≡ same)
        (sym ((equal_iff b.peer.public_key a.peer.public_key).0 key))
        (memcmp_self a.peer.public_key) in
    let not_file : b.from_file ≡ false = ground arith in
    rw (same_key, peer_cmp, file, not_file) refl

equal_swap : (a b : Bytes) → equal a b ≡ equal b a
unfolding equal
equal_swap [] [] = refl
equal_swap [] (y ∷ b) = refl
equal_swap (x ∷ a) [] = refl
equal_swap (x ∷ a) (y ∷ b) = ground (arith, equal_swap a b)

-- An entry of the file does not stand in front of one of the running device with its key.
no_running_behind :
    (a : PeerOrigin) (rest : List PeerOrigin)
    → a.from_file ≡ true
    → All (λ b. peer_cmp a b ≢ after) rest
    → any (running a.peer.public_key) rest ≡ false
no_running_behind a [] file h = refl
no_running_behind a (b ∷ rest) file h = elim (Bool-cases (running a.peer.public_key b)) [
  | inl runs ↦ absurd (h.0 (file_after a b file runs))
  | inr other ↦ rw (other, no_running_behind a rest file h.1) refl
]

larger_after :
    (k : Bytes) (b c : PeerOrigin)
    → memcmp k b.peer.public_key ≡ before
    → filed k c ≡ true
    → peer_cmp b c ≡ after
unfolding peer_cmp
larger_after k b c less e =
    let (file, key) = and-true c.from_file (equal c.peer.public_key k) e in
    let more : memcmp b.peer.public_key c.peer.public_key ≡ after =
      subst (λ t. memcmp b.peer.public_key t ≡ after) (sym ((equal_iff c.peer.public_key k).0 key))
        (memcmp_swap k b.peer.public_key less) in
    rw (more, peer_cmp) refl

-- Behind an entry with a larger key no entry of the file has the key.
no_key_behind :
    (k : Bytes) (b : PeerOrigin) (rest : List PeerOrigin)
    → memcmp k b.peer.public_key ≡ before
    → All (λ c. peer_cmp b c ≢ after) rest
    → any (filed k) rest ≡ false
no_key_behind k b [] less h = refl
no_key_behind k b (c ∷ rest) less h = elim (Bool-cases (filed k c)) [
  | inl file ↦ absurd (h.0 (larger_after k b c less file))
  | inr other ↦ rw (other, no_key_behind k b rest less h.1) refl
]

-- Of two entries in order with different keys, the second has the larger one.
next_larger :
    (a b : PeerOrigin)
    → peer_cmp a b ≢ after
    → equal a.peer.public_key b.peer.public_key ≡ false
    → memcmp a.peer.public_key b.peer.public_key ≡ before
unfolding peer_cmp
next_larger a b h e = ordered (memcmp a.peer.public_key b.peer.public_key) refl
  where
    ordered :
        (s : Sign)
        → memcmp a.peer.public_key b.peer.public_key ≡ s
        → memcmp a.peer.public_key b.peer.public_key ≡ before
    ordered before m = m
    ordered after m = absurd (h (rw (m, peer_cmp) refl))
    ordered same m =
        let key =
          (equal_iff a.peer.public_key b.peer.public_key).1
            (memcmp-eq-same a.peer.public_key b.peer.public_key m) in
        absurd cc

-- A running entry whose next one is not the file's peer with its key has no such peer behind it.
no_file_behind :
    (a : PeerOrigin) (rest : List PeerOrigin)
    → a.from_file ≡ false
    → IsSorted (a ∷ rest)
    → count (running a.peer.public_key) rest ≡ 0
    → stays a rest ≡ false
    → any (filed a.peer.public_key) rest ≡ false
unfolding stays
no_file_behind a [] runs h none_else e = refl
no_file_behind a (b ∷ rest) runs h none_else e =
    elim (Bool-cases (equal a.peer.public_key b.peer.public_key)) [
      | inr differ ↦
          let less = next_larger a b h.0.0 differ in
          rw (not_filed differ, no_key_behind a.peer.public_key b rest less h.1.0) refl
      | inl key ↦ absurd (grind (arith, same_key key))
    ]
  where
    not_filed :
        equal a.peer.public_key b.peer.public_key ≡ false → filed a.peer.public_key b ≡ false
    not_filed differ = ground (arith, equal_swap a.peer.public_key b.peer.public_key)

    same_key :
        equal a.peer.public_key b.peer.public_key ≡ true
        → equal b.peer.public_key a.peer.public_key ≡ true
    same_key key = equal_swap b.peer.public_key a.peer.public_key ∙ key

alone :
    (a : PeerOrigin) (rest : List PeerOrigin)
    → a.from_file ≡ false
    → AtMostOne (a ∷ rest)
    → count (running a.peer.public_key) rest ≡ 0
alone a rest runs one = ground (arith, one a.peer.public_key, equal_self a.peer.public_key)

stays-filed :
    (a : PeerOrigin) (rest : List PeerOrigin)
    → stays a rest ≡ true
    → any (filed a.peer.public_key) rest ≡ true
unfolding stays
stays-filed a [] e = absurd cc
stays-filed a (b ∷ rest) e = ground (arith, equal_swap a.peer.public_key b.peer.public_key)

-- What the head of the entries adds to the answer for its own key.
own_key :
    (a : PeerOrigin) (rest : List PeerOrigin)
    → IsSorted (a ∷ rest)
    → AtMostOne (a ∷ rest)
    → (any (running a.peer.public_key) rest ≡ false)
      × (a.from_file ≡ false → any (filed a.peer.public_key) rest ≡ stays a rest)
own_key a rest h one = elim (Bool-cases a.from_file) [
  | inl file ↦ (no_running_behind a rest file h.0, λ runs. absurd cc)
  | inr runs ↦
      let none_else = alone a rest runs one in
      (
        any-false (running a.peer.public_key) rest none_else,
        λ _. elim (Bool-cases (stays a rest)) [
          | inl next ↦ stays-filed a rest next ∙ sym next
          | inr gone ↦ no_file_behind a rest runs h none_else gone ∙ sym gone
        ],
      )
]

one_step :
    (k : Bytes) (a : PeerOrigin) (rest : List PeerOrigin) (front : List Peer)
    → IsSorted (a ∷ rest)
    → AtMostOne (a ∷ rest)
    → (any
          (has_key k)
          (if a.from_file || stays a rest then front else removal a.peer.public_key ∷ front)
        || any (running k) rest && not (any (filed k) rest))
      ≡ (any (has_key k) front || any (running k) (a ∷ rest) && not (any (filed k) (a ∷ rest)))
one_step k a rest front h one = elim (Bool-cases (equal a.peer.public_key k)) [
  | inr other ↦ ground arith
  | inl key ↦
      let own =
        subst
          (λ j.
            (any (running j) rest ≡ false)
            × (a.from_file ≡ false → any (filed j) rest ≡ stays a rest))
          ((equal_iff a.peer.public_key k).0 key) (own_key a rest h one) in
      ground arith
]

rest-AtMostOne : (a : PeerOrigin) (rest : List PeerOrigin) → AtMostOne (a ∷ rest) → AtMostOne rest
rest-AtMostOne a rest one k = omega (arith, one k)

-- The walk removes a key if and only if a running entry has it and no entry of the file.
pub removals_lem :
    (k : Bytes) (s : List PeerOrigin) (front : List Peer)
    → IsSorted s
    → AtMostOne s
    → any (has_key k) (removals s front)
      ≡ (any (has_key k) front || any (running k) s && not (any (filed k) s))
unfolding removals
removals_lem k [] front h one = ground arith
removals_lem k (a ∷ rest) front h one =
    removals_lem k rest
      (if a.from_file || stays a rest then front else removal a.peer.public_key ∷ front) h.1
      (rest-AtMostOne a rest one)
    ∙ one_step k a rest front h one
