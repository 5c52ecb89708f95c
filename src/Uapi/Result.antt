-- ===== src/Uapi/Result.antt =====
-- src/ipc-uapi.h: what `userspace_get_device` returns.
use mathlib.Core.Path.{subst}
use wireguard_tools.Config.Command.{find_word, no_peer}
use wireguard_tools.Config.Keys.{ends_newline, drop_last}
use wireguard_tools.Config.Line.File.{update_last-All}
use wireguard_tools.Config.Line.Keys.{DeviceKey}
use wireguard_tools.Config.Line.Keys
use wireguard_tools.Config.Line.{update_last}
use wireguard_tools.Config.Outcome.{done, returned, done-injective}
use wireguard_tools.Config.System.{System, IsSystem}
use wireguard_tools.Containers.{Peer, Device, zero_key}
use wireguard_tools.Encoding.Base64.{IsKey}
use wireguard_tools.Libc.Text.{split_first, FirstAt, split_first-FirstAt}
use wireguard_tools.Prelude.{
  ℕ, ◌<◌, ◌≡◌, arith, some, List, [], ◌∷◌, ◌++◌, Bytes, codes, IsBytes, All, All-append, equal,
  Bool-cases, Option-cases, inl, inr,
}
use wireguard_tools.Uapi.Get.{device_fields, peer_fields, num, hex_key, get_device_key}
use wireguard_tools.Uapi.Runtime.{
  IsRuntimePeer, IsRuntime, num-le, hex_key-IsKey, get_field-IsRuntimePeer,
}
use wireguard_tools.Uapi.Read.{
  get_field, listed_peer, State, set_device, set_peers, errno_line, device_field, peer_field,
  key_value, get_line,
}

All-suffix {ℓ κ} : {A : Type ℓ} (P : A → Type κ) (xs ys : List A) → All P (xs ++ ys) → All P ys
All-suffix P [] ys h = h
All-suffix P (x ∷ xs) ys h = All-suffix P xs ys h.1

split_first-IsBytes :
    (c : ℕ) (s a b : Bytes) → IsBytes s → split_first c s ≡ some (a, b) → IsBytes b
split_first-IsBytes c s a b h e =
    let found : FirstAt c s (some (a, b)) = rw e at (split_first-FirstAt c s) in
    (All-suffix (λ x. x < 256) a (c ∷ b) (subst IsBytes found.0 h)).1

drop_last-IsBytes : (s : Bytes) → IsBytes s → IsBytes (drop_last s)
unfolding drop_last
drop_last-IsBytes [] h = tt
drop_last-IsBytes (c ∷ []) h = tt
drop_last-IsBytes (c ∷ d ∷ s) h = (h.0, drop_last-IsBytes (d ∷ s) h.1)

get_device_key-IsRuntime :
    (derive : Bytes → Bytes) (key : DeviceKey) (v : Bytes) (d : Device) {d' : Device}
    → IsBytes v
    → IsRuntime d
    → get_device_key derive key v d ≡ done d'
    → IsRuntime d'
unfolding get_device_key
get_device_key-IsRuntime derive Keys.private_key v d h k e =
    returned IsRuntime (hex_key d.private_key v) _ e
      (λ b m. ground (arith, hex_key-IsKey d.private_key v b h m))
get_device_key-IsRuntime derive Keys.listen_port v d h k e =
    returned IsRuntime (num 0xffff v) _ e (λ n m. ground (arith, num-le 0xffff v m))
get_device_key-IsRuntime derive Keys.fwmark v d h k e =
    returned IsRuntime (num 0xffffffff v) _ e (λ n m. ground (arith, num-le 0xffffffff v m))
get_device_key-IsRuntime derive _ v d h k e = subst IsRuntime (done-injective e) (ground arith)

abbrev pub IsState : State → Type 0
IsState st = IsRuntime st.device

errno_line-IsState :
    (key v : Bytes) (st : State) {st' : State}
    → IsState st
    → errno_line key v st ≡ done st'
    → IsState st'
errno_line-IsState key v st k e = elim (Bool-cases (equal key (codes "errno"))) [
  | inl errno ↦
      returned IsState (num 0x7fffffff v) (λ n. record st { errno = some n }) (rw errno at e)
        (λ n m. k)
  | inr more ↦ subst IsState (done-injective (rw more at e)) k
]

device_field-IsState :
    (derive : Bytes → Bytes) (key v : Bytes) (st : State) {st' : State}
    → IsBytes v
    → IsState st
    → device_field derive key v st ≡ done st'
    → IsState st'
unfolding device_field
device_field-IsState derive key v st h k e = elim (Option-cases (find_word device_fields key)) [
  | inl out ↦ errno_line-IsState key v st k (rw (out, device_field) at e)
  | inr (f, found) ↦
      returned IsState (get_device_key derive f v st.device) (λ d. set_device st d)
        (rw (found, device_field) at e) (λ d m. get_device_key-IsRuntime derive f v st.device h k m)
]

with_peers :
    (st : State) (ps : List Peer) → IsState st → All IsRuntimePeer ps → IsState (set_peers st ps)
with_peers st ps k h = record {
  listen_port = k.listen_port;
  fwmark = k.fwmark;
  private_key = k.private_key;
  peers = h;
}

peer_field-IsState :
    (sys : System)
    → IsSystem sys
    → (key v : Bytes) (st : State) {st' : State} → IsBytes v
    → IsState st
    → peer_field sys key v st ≡ done st'
    → IsState st'
unfolding peer_field
peer_field-IsState sys ok key v st h k e = elim (Option-cases (find_word peer_fields key)) [
  | inl out ↦ errno_line-IsState key v st k (rw (out, peer_field) at e)
  | inr (f, found) ↦
      returned IsState (update_last (get_field sys f v) st.device.peers) (λ ps. set_peers st ps)
        (rw (found, peer_field) at e)
        (λ ps m. with_peers st ps k (
          update_last-All IsRuntimePeer (get_field sys f v) st.device.peers k.peers
            (λ p q good set. get_field-IsRuntimePeer sys ok f v p h good set) m))
]

listed_peer-IsRuntimePeer : (k : Bytes) → IsKey k → IsRuntimePeer (listed_peer k)
listed_peer-IsRuntimePeer k good = ground arith

key_value-IsState :
    (sys : System)
    → IsSystem sys
    → (derive : Bytes → Bytes) (key v : Bytes) (st : State) {st' : State} → IsBytes v
    → IsState st
    → key_value sys derive key v st ≡ done st'
    → IsState st'
unfolding key_value
key_value-IsState sys ok derive key v st h k e =
    elim (Bool-cases (equal key (codes "public_key"))) [
      | inl peer ↦
          returned IsState (hex_key zero_key v)
            (λ b. set_peers st (st.device.peers ++ listed_peer b ∷ [])) (rw (peer, key_value) at e)
            (λ b m. with_peers st (st.device.peers ++ listed_peer b ∷ []) k (
              All-append IsRuntimePeer st.device.peers (listed_peer b ∷ []) k.peers
                (listed_peer-IsRuntimePeer b (hex_key-IsKey zero_key v b h m), tt)))
      | inr more ↦ elim (Bool-cases (no_peer st.device)) [
        | inl first ↦ device_field-IsState derive key v st h k (rw (more, first, key_value) at e)
        | inr later ↦ peer_field-IsState sys ok key v st h k (rw (more, later, key_value) at e)
      ]
    ]

pub get_line-IsState :
    (sys : System)
    → IsSystem sys
    → (derive : Bytes → Bytes) (line : Bytes) (st : State) {st' : State} → IsBytes line
    → IsState st
    → get_line sys derive line st ≡ done st'
    → IsState st'
unfolding get_line
get_line-IsState sys ok derive line st h k e = elim (Option-cases (split_first b'=' line)) [
  | inl out ↦ absurd cc (rw (out, get_line) at e)
  | inr ((key, value), parts) ↦ elim (Bool-cases (ends_newline value)) [
    | inr cut ↦ absurd cc (rw (parts, cut, get_line) at e)
    | inl whole ↦
        key_value-IsState sys ok derive key (drop_last value) st
          (drop_last-IsBytes value (split_first-IsBytes b'=' line key value h parts)) k
          (rw (parts, whole, get_line) at e)
  ]
]
