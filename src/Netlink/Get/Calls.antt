-- ===== src/Netlink/Get/Calls.antt =====
-- src/ipc-linux.h: what the callbacks rely on of the walks over attributes and messages.
use mathlib.Core.Path.{ap, subst, fun_ext}
use wireguard_tools.Containers.{AllowedIp, Peer, Device, zero_peer}
use wireguard_tools.Netlink.Attr.{IpAttr, PeerAttr, Cb, error, stop, ok}
use wireguard_tools.Netlink.Get.{
  Walk, zero_allowedip, parse_allowedip, valid_cidr, parse_allowedips, parse_peer, parse_peers,
}
use wireguard_tools.Prelude.{◌≡◌, ◌≢◌, ◌∙◌, refl, sym, not, if◌then◌else◌, List, [], ◌∷◌, ◌++◌}

-- libmnl calls the callback on each item, up to the first answer other than MNL_CB_OK, and gives the
-- last answer.
pub record IsWalk (walk : Walk) : Type 1 where
  pub none_left : (A S : Type 0) (cb : A → S → Cb × S) (s : S) → walk A S cb [] s ≡ (ok, s)
  pub goes_on :
      (A S : Type 0) (cb : A → S → Cb × S) (x : A) (xs : List A) (s t : S)
      → cb x s ≡ (ok, t)
      → walk A S cb (x ∷ xs) s ≡ walk A S cb xs t
  pub halts :
      (A S : Type 0) (cb : A → S → Cb × S) (x : A) (xs : List A) (s : S)
      → (cb x s).0 ≢ ok
      → walk A S cb (x ∷ xs) s ≡ cb x s

-- The walk that does so, to compute with.
abbrev pub each : Walk
each A S cb [] s = (ok, s)
each A S cb (x ∷ xs) s = elim (cb x s).0 [
  | ok ↦ each A S cb xs (cb x s).1
  | error ↦ cb x s
  | stop ↦ cb x s
]

abbrev after : {S : Type 0} → (S → Cb × S) → Cb × S → Cb × S
after next r = elim r.0 [ ok ↦ next r.1 | error ↦ r | stop ↦ r ]

pub each_on :
    (A S : Type 0) (cb : A → S → Cb × S) (x : A) (xs : List A) (s t : S)
    → cb x s ≡ (ok, t)
    → each A S cb (x ∷ xs) s ≡ each A S cb xs t
each_on A S cb x xs s t e = ap (after (each A S cb xs)) e

pub each_halt :
    (A S : Type 0) (cb : A → S → Cb × S) (x : A) (xs : List A) (s : S)
    → (cb x s).0 ≢ ok
    → each A S cb (x ∷ xs) s ≡ cb x s
each_halt A S cb x xs s = halt (cb x s)
  where
    halt : (r : Cb × S) → r.0 ≢ ok → after (each A S cb xs) r ≡ r
    halt (ok, t) n = absurd (n refl)
    halt (error, t) n = refl
    halt (stop, t) n = refl

pub each-IsWalk : IsWalk each
each-IsWalk = record { none_left = λ A S cb s. refl; goes_on = each_on; halts = each_halt }

module _ (walk : Walk) (law : IsWalk walk) where
  walk-each_at :
      (A S : Type 0) (cb : A → S → Cb × S) (xs : List A) (s : S)
      → walk A S cb xs s ≡ each A S cb xs s
  walk-each_at A S cb [] s = law.none_left A S cb s
  walk-each_at A S cb (x ∷ xs) s = answered (cb x s) refl (walk-each_at A S cb xs)
    where
      answered :
          (r : Cb × S)
          → cb x s ≡ r
          → ((t : S) → walk A S cb xs t ≡ each A S cb xs t)
          → walk A S cb (x ∷ xs) s ≡ each A S cb (x ∷ xs) s
      answered (ok, t) e ih =
          law.goes_on A S cb x xs s t e ∙ (ih t ∙ sym (each_on A S cb x xs s t e))
      answered (error, t) e ih =
          let n : (cb x s).0 ≢ ok = rw e (λ f. cc) in
          law.halts A S cb x xs s n ∙ sym (each_halt A S cb x xs s n)
      answered (stop, t) e ih =
          let n : (cb x s).0 ≢ ok = rw e (λ f. cc) in
          law.halts A S cb x xs s n ∙ sym (each_halt A S cb x xs s n)

  -- There is no other.
  pub walk-each : walk ≡ each
  walk-each =
      fun_ext (λ A.
        fun_ext (λ S. fun_ext (λ cb. fun_ext (λ xs. fun_ext (λ s. walk-each_at A S cb xs s)))))

-- The walk over two lists, where the first raises no error.
pub each-append :
    (A S : Type 0) (cb : A → S → Cb × S) (xs ys : List A) (s t : S)
    → each A S cb xs s ≡ (ok, t)
    → each A S cb (xs ++ ys) s ≡ each A S cb ys t
each-append A S cb [] ys s t e =
    subst (λ r. each A S cb ys s ≡ each A S cb ys r) (λ i. (e i).1) refl
each-append A S cb (x ∷ xs) ys s t e =
    answered (cb x s) refl (λ u f. each-append A S cb xs ys u t f)
  where
    answered :
        (r : Cb × S)
        → cb x s ≡ r
        → ((u : S) → each A S cb xs u ≡ (ok, t) → each A S cb (xs ++ ys) u ≡ each A S cb ys t)
        → each A S cb ((x ∷ xs) ++ ys) s ≡ each A S cb ys t
    answered (ok, u) f ih =
        each_on A S cb x (xs ++ ys) s u f ∙ ih u (sym (each_on A S cb x xs s u f) ∙ e)
    answered (error, u) f ih = absurd (
        let g : ◌≡◌ {A = Cb × S} (error, u) (ok, t) = sym (ap (after (each A S cb xs)) f) ∙ e in cc)
    answered (stop, u) f ih =
        absurd (
          let g : ◌≡◌ {A = Cb × S} (stop, u) (ok, t) = sym (ap (after (each A S cb xs)) f) ∙ e in
          cc)

-- The two callbacks that walk on, by what the walk below answers.
abbrev pub after_allowedip : Peer → Cb × AllowedIp → Cb × Peer
after_allowedip p r =
    let q = record p { allowedips = p.allowedips ++ r.1 ∷ [] } in
    elim r.0 [ stop ↦ (stop, q) | _ ↦ if valid_cidr r.1 then (ok, q) else (error, q) ]

pub parse_allowedips-each :
    (attrs : List IpAttr) (p : Peer) {r : Cb × AllowedIp}
    → each IpAttr AllowedIp parse_allowedip attrs zero_allowedip ≡ r
    → parse_allowedips each attrs p ≡ after_allowedip p r
unfolding parse_allowedips
parse_allowedips-each attrs p e = ap (after_allowedip p) e

abbrev pub after_peer : Device → Cb × Peer → Cb × Device
after_peer d r =
    let e = record d { peers = d.peers ++ r.1 ∷ [] } in
    elim r.0 [ stop ↦ (stop, e) | _ ↦ if not r.1.flags.has_public_key then (error, e) else (ok, e) ]

pub parse_peers-each :
    (attrs : List PeerAttr) (d : Device) {r : Cb × Peer}
    → each PeerAttr Peer (parse_peer each) attrs zero_peer ≡ r
    → parse_peers each attrs d ≡ after_peer d r
unfolding parse_peers
parse_peers-each attrs d e = ap (after_peer d) e
