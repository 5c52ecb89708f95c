-- ===== src/Config/Line/File.antt =====
-- src/config.c: what the lines of a whole file keep true of the device.
use mathlib.Core.Path.{subst}
use wireguard_tools.Config.Line.Keys.{
  DeviceKey, listen_port, fwmark, private_key, ws_listen, get_value, find_key, set_device_key,
}
use wireguard_tools.Config.Line.Peers.{IsPeer, parse_key-IsKey}
use wireguard_tools.Config.Line.{update_last, strip_spaces, cleaned}
use wireguard_tools.Config.Numbers.Bounds.{parse_port-lt, parse_fwmark-lt}
use wireguard_tools.Config.Outcome.{Outcome, done, returned, done-injective}
use wireguard_tools.Config.System.{System, IsSystem}
use wireguard_tools.Containers.{Peer, Device}
use wireguard_tools.Ctype.{char_is_space}
use wireguard_tools.Encoding.Base64.{IsKey}
use wireguard_tools.Libc.Text.{strip_prefix, span_until}
use wireguard_tools.Prelude.{
  ◌≢◌, leb, length, ℕ, ◌^◌, ◌<◌, ◌≡◌, refl, arith, Bool, true, false, some, List, [], ◌∷◌, Bytes,
  char_int, IsBytes, All, Bool-cases, Option-cases, inl, inr, if◌then◌else◌,
}

-- Numbers fit their fields, the key is 32 bytes, and so on for every peer.
pub record IsDevice (file : Bool) (d : Device) : Type 0 where
  pub listen_port : d.listen_port < 65536
  pub fwmark : d.fwmark < 2 ^ 32
  pub private_key : IsKey d.private_key
  pub peers : All (IsPeer file) d.peers

the-some {ℓ} : {A : Type ℓ} {s v : A} → some s ≡ some v → s ≡ v
the-some e = cc

strip_prefix-IsBytes :
    (key s : Bytes) {v : Bytes} → IsBytes s → strip_prefix key s ≡ some v → IsBytes v
unfolding strip_prefix
strip_prefix-IsBytes [] s h e = subst IsBytes (the-some e) h
strip_prefix-IsBytes (k ∷ key) [] h e = absurd cc
strip_prefix-IsBytes (k ∷ key) (x ∷ s) {v} h e =
    ground (arith, strip_prefix-IsBytes key s {v = v} h.1)

span_until-IsBytes : (c : ℕ) (s : Bytes) → IsBytes s → IsBytes (span_until c s).0
unfolding span_until
span_until-IsBytes c [] h = h
span_until-IsBytes c (x ∷ s) h = ground (arith, span_until-IsBytes c s h.1)

pub strip_spaces-IsBytes : (s : Bytes) → IsBytes s → IsBytes (strip_spaces s)
unfolding strip_spaces
strip_spaces-IsBytes [] h = h
strip_spaces-IsBytes (c ∷ s) h = elim (Bool-cases (char_is_space (char_int c))) [
  | inl space ↦ rw space (strip_spaces-IsBytes s h.1)
  | inr text ↦ rw text (h.0, strip_spaces-IsBytes s h.1)
]

pub cleaned-IsBytes : (s : Bytes) → IsBytes s → IsBytes (cleaned s)
unfolding cleaned
cleaned-IsBytes s h = strip_spaces-IsBytes (span_until b'#' s).0 (span_until-IsBytes b'#' s h)

value_of-IsBytes :
    (may_be_empty : Bool) (name line : Bytes) {v : Bytes}
    → IsBytes line
    → (if may_be_empty then strip_prefix name line else get_value line name) ≡ some v
    → IsBytes v
unfolding get_value
value_of-IsBytes true name line h e = strip_prefix-IsBytes name line h e
value_of-IsBytes false name line h e = elim (Bool-cases (leb (length line) (length name))) [
  | inl short ↦ absurd cc (rw short at e)
  | inr long ↦ strip_prefix-IsBytes name line h (rw long at e)
]

pub find_key-IsBytes :
    {K : Type 0} (table : List (Bytes × Bool × K)) (line : Bytes) {r : K × Bytes}
    → IsBytes line
    → find_key table line ≡ some r
    → IsBytes r.1
unfolding find_key
find_key-IsBytes [] line h e = absurd cc
find_key-IsBytes ((name, may_be_empty, key) ∷ table) line h e =
    elim (Option-cases (if may_be_empty then strip_prefix name line else get_value line name)) [
      | inl out ↦ find_key-IsBytes table line h (rw (out, find_key) at e)
      | inr (v, found) ↦
          subst (λ r. IsBytes r.1) (the-some (rw (found, find_key) at e))
            (value_of-IsBytes may_be_empty name line h found)
    ]

pub update_last-All :
    (P : Peer → Type 0) (f : Peer → Outcome Peer) (ps : List Peer) {qs : List Peer}
    → All P ps
    → ((p q : Peer) → P p → f p ≡ done q → P q)
    → update_last f ps ≡ done qs
    → All P qs
unfolding update_last
update_last-All P f [] h k e = absurd cc
update_last-All P f (p ∷ []) h k e =
    returned (All P) (f p) (λ q. q ∷ []) e (λ q m. (k p q h.0 m, tt))
update_last-All P f (p ∷ q ∷ ps) h k e =
    returned (All P) (update_last f (q ∷ ps)) (λ qs. p ∷ qs) e
      (λ qs m. (h.0, update_last-All P f (q ∷ ps) h.1 k m))

pub set_device_key-IsDevice :
    {file : Bool} (sys : System)
    → IsSystem sys
    → (key : DeviceKey) (v : Bytes) (d : Device) {d' : Device} → IsBytes v
    → IsDevice file d
    → set_device_key sys key v d ≡ done d'
    → IsDevice file d'
unfolding set_device_key
set_device_key-IsDevice {file} sys ok listen_port v d h k e =
    returned (IsDevice file) _ _ e (λ n m. ground (arith, parse_port-lt sys ok v m))
set_device_key-IsDevice {file} sys ok fwmark v d h k e =
    returned (IsDevice file) _ _ e (λ n m. ground (arith, parse_fwmark-lt v m))
set_device_key-IsDevice {file} sys ok private_key v d h k e =
    returned (IsDevice file) _ _ e (λ b m. ground (arith, parse_key-IsKey d.private_key v h b m))
set_device_key-IsDevice {file} sys ok ws_listen v d h k e =
    returned (IsDevice file) _ _ e (λ s m. ground arith)
set_device_key-IsDevice {file} sys ok _ v d h k e =
    subst (IsDevice file) (done-injective e) (ground arith)

pub set_device_key-peers :
    (sys : System) (key : DeviceKey) (v : Bytes) (d : Device) {d' : Device}
    → set_device_key sys key v d ≡ done d'
    → d'.peers ≡ d.peers
unfolding set_device_key
set_device_key-peers sys listen_port v d e = returned (λ r. r.peers ≡ d.peers) _ _ e (λ n m. refl)
set_device_key-peers sys fwmark v d e = returned (λ r. r.peers ≡ d.peers) _ _ e (λ n m. refl)
set_device_key-peers sys private_key v d e = returned (λ r. r.peers ≡ d.peers) _ _ e (λ n m. refl)
set_device_key-peers sys ws_listen v d e = returned (λ r. r.peers ≡ d.peers) _ _ e (λ n m. refl)
set_device_key-peers sys _ v d e = subst (λ r. r.peers ≡ d.peers) (done-injective e) refl

pub update_last-not_empty :
    (f : Peer → Outcome Peer) (ps : List Peer) {qs : List Peer}
    → update_last f ps ≡ done qs
    → qs ≢ []
unfolding update_last
update_last-not_empty f [] e = absurd cc
update_last-not_empty f (p ∷ []) e = returned (λ qs. qs ≢ []) (f p) (λ q. q ∷ []) e (λ q m. cc)
update_last-not_empty f (p ∷ q ∷ ps) e =
    returned (λ qs. qs ≢ []) (update_last f (q ∷ ps)) (λ qs. p ∷ qs) e (λ qs m. cc)
