-- ===== src/Config/Command/Step.antt =====
-- src/config.c: what one argument of `wg set` keeps true of the device.
use mathlib.Core.Path.{subst}
use wireguard_tools.Config.Command.{
  device_words, peer_words, find_word, with_transport, command_device_key, command_peer_key,
  no_peer, keyed_peer, add_peer, change_last, device_word, peer_word, pair_step, removed,
}
use wireguard_tools.Config.Keys.{parse_key, parse_keyfile, parse_ws_secret_file}
use wireguard_tools.Config.Line.File.{IsDevice, set_device_key-IsDevice, update_last-All}
use wireguard_tools.Config.Line.Keys.{
  DeviceKey, PeerKey, set_device_key, set_peer_key, with_settings,
}
use wireguard_tools.Config.Line.Keys
use wireguard_tools.Config.Line.Peers.{
  IsPeer, parse_key-IsKey, parse_allowedips-IsPeer, set_peer_key-IsPeer,
}
use wireguard_tools.Config.Line.{update_last, strip_spaces}
use wireguard_tools.Config.Numbers.{is_empty}
use wireguard_tools.Config.Outcome.{Outcome, done, fail, returned, done-injective}
use wireguard_tools.Config.System.{System, IsSystem, File}
use wireguard_tools.Containers.{Peer, Device, zero_key}
use wireguard_tools.Encoding.Base64.{IsKey, key_len_base64}
use wireguard_tools.Ctype.{char_is_space}
use wireguard_tools.Prelude.{
  ℕ, zero, suc, ◌≡◌, refl, arith, false, not, ◌&&◌, [], ◌∷◌, ◌++◌, Bytes, codes, IsBytes,
  All-append, all, ltb, drop, length, equal, take, Bool-cases, Option-cases, inl, inr,
  if◌then◌else◌,
}

take-IsBytes : (n : ℕ) (s : Bytes) → IsBytes s → IsBytes (take n s)
take-IsBytes zero s h = tt
take-IsBytes (suc n) [] h = tt
take-IsBytes (suc n) (c ∷ s) h = (h.0, take-IsBytes n s h.1)

pub zero_key-IsKey : IsKey zero_key
zero_key-IsKey = (refl, ground arith)

parse_keyfile-IsKey :
    (sys : System)
    → IsSystem sys
    → (old path k : Bytes) → parse_keyfile sys old path ≡ done k
    → IsKey k
unfolding parse_keyfile
parse_keyfile-IsKey sys ok old path k e = elim (Option-cases (sys.open_file path)) [
  | inl out ↦ absurd cc (rw (out, parse_keyfile) at e)
  | inr (f, opened) ↦ go f (ok.file_bytes path f opened) (rw (opened, parse_keyfile) at e)
]
  where
    go :
        (f : File)
        → IsBytes f.content
        → (if ltb (length f.content) key_len_base64
            then (if not f.read_error && is_empty f.content then done zero_key else fail)
            else if not (all char_is_space (drop key_len_base64 f.content))
            then fail
            else if f.read_error
            then fail
            else parse_key old (take key_len_base64 f.content))
          ≡ done k
        → IsKey k
    go f h e = ground (
      arith,
      zero_key-IsKey,
      parse_key-IsKey old (take key_len_base64 f.content) (take-IsBytes key_len_base64 f.content h)
          k,
    )

command_device_key-IsDevice :
    (sys : System)
    → IsSystem sys
    → (key : DeviceKey) (v : Bytes) (d : Device) {d' : Device} → IsBytes v
    → IsDevice false d
    → command_device_key sys key v d ≡ done d'
    → IsDevice false d'
unfolding command_device_key
command_device_key-IsDevice sys ok Keys.private_key v d h k e =
    returned (IsDevice false) _ _ e
      (λ b m. ground (arith, parse_keyfile-IsKey sys ok d.private_key v b m))
command_device_key-IsDevice sys ok Keys.ws_server_bearer v d h k e =
    returned (IsDevice false) (parse_ws_secret_file sys v) _ e (λ s m. ground arith)
command_device_key-IsDevice sys ok key v d h k e = set_device_key-IsDevice sys ok key v d h k e

with_transport-IsPeer : (p : Peer) → IsPeer false p → IsPeer false (with_transport p)
with_transport-IsPeer p k = ground arith

command_peer_key-IsPeer :
    (sys : System)
    → IsSystem sys
    → (key : PeerKey) (v : Bytes) (p : Peer) {q : Peer} → IsBytes v
    → IsPeer false p
    → command_peer_key sys key v p ≡ done q
    → IsPeer false q
unfolding command_peer_key
command_peer_key-IsPeer sys ok Keys.endpoint v p h k e =
    set_peer_key-IsPeer sys ok Keys.endpoint v (with_transport p) h (with_transport-IsPeer p k) e
command_peer_key-IsPeer sys ok Keys.ws_mode v p h k e =
    set_peer_key-IsPeer sys ok Keys.ws_mode v (with_transport p) h (with_transport-IsPeer p k) e
command_peer_key-IsPeer sys ok Keys.ws_bearer v p h k e =
    returned (IsPeer false) (parse_ws_secret_file sys v) _ e (λ s m. ground arith)
command_peer_key-IsPeer sys ok Keys.allowed_ips v p h k e =
    parse_allowedips-IsPeer sys ok (strip_spaces v) p k e
command_peer_key-IsPeer sys ok Keys.preshared_key v p h k e =
    returned (IsPeer false) _ _ e
      (λ b m. ground (arith, parse_keyfile-IsKey sys ok p.preshared_key v b m))
command_peer_key-IsPeer sys ok key v p h k e = set_peer_key-IsPeer sys ok key v p h k e

pub change_last-IsDevice :
    (f : Peer → Outcome Peer) (d : Device) {d' : Device}
    → IsDevice false d
    → ((p q : Peer) → IsPeer false p → f p ≡ done q → IsPeer false q)
    → change_last f d ≡ done d'
    → IsDevice false d'
change_last-IsDevice f d k step e =
    returned (IsDevice false) (update_last f d.peers) (λ ps. record d { peers = ps }) e
      (λ ps m. record {
        listen_port = k.listen_port;
        fwmark = k.fwmark;
        private_key = k.private_key;
        peers = update_last-All (IsPeer false) f d.peers k.peers step m;
      })

pub removed-IsPeer : (p q : Peer) → IsPeer false p → removed p ≡ done q → IsPeer false q
removed-IsPeer p q k e = subst (IsPeer false) (done-injective e) (ground arith)

add_peer-IsDevice :
    (v : Bytes) (d : Device) {d' : Device}
    → IsBytes v
    → IsDevice false d
    → add_peer v d ≡ done d'
    → IsDevice false d'
add_peer-IsDevice v d h k e =
    returned (IsDevice false) (parse_key zero_key v)
      (λ b. record d { peers = d.peers ++ keyed_peer b ∷ [] }) e
      (λ b m. record {
        listen_port = k.listen_port;
        fwmark = k.fwmark;
        private_key = k.private_key;
        peers =
            All-append (IsPeer false) d.peers (keyed_peer b ∷ []) k.peers
              (keyed_peer-IsPeer b (parse_key-IsKey zero_key v h b m), tt);
      })
  where
    keyed_peer-IsPeer : (b : Bytes) → IsKey b → IsPeer false (keyed_peer b)
    keyed_peer-IsPeer b good = record {
      public_key = good;
      preshared_key = zero_key-IsKey;
      keepalive = omega arith;
      ping = omega arith;
      backoff_min = omega arith;
      backoff_max = omega arith;
      allowedips = tt;
      declared = λ e. absurd cc;
      keyed = λ e. refl;
      settings = λ e. (refl, refl, refl, refl, refl, refl, refl, refl, refl, refl);
    }

device_word-IsDevice :
    (sys : System)
    → IsSystem sys
    → (word v : Bytes) (d : Device) {d' : Device} → IsBytes v
    → IsDevice false d
    → device_word sys word v d ≡ done d'
    → IsDevice false d'
device_word-IsDevice sys ok word v d h k e = elim (Option-cases (find_word device_words word)) [
  | inl out ↦ absurd cc (rw (out, device_word) at e)
  | inr (key, found) ↦ command_device_key-IsDevice sys ok key v d h k (rw (found, device_word) at e)
]

peer_word-IsDevice :
    (sys : System)
    → IsSystem sys
    → (word v : Bytes) (d : Device) {d' : Device} → IsBytes v
    → IsDevice false d
    → peer_word sys word v d ≡ done d'
    → IsDevice false d'
peer_word-IsDevice sys ok word v d h k e = elim (Option-cases (find_word peer_words word)) [
  | inl out ↦ absurd cc (rw (out, peer_word) at e)
  | inr (key, found) ↦
      change_last-IsDevice (command_peer_key sys key v) d k
        (λ p q good set. command_peer_key-IsPeer sys ok key v p h good set)
        (rw (found, peer_word) at e)
]

pub pair_step-IsDevice :
    (sys : System)
    → IsSystem sys
    → (word v : Bytes) (d : Device) {d' : Device} → IsBytes v
    → IsDevice false d
    → pair_step sys word v d ≡ done d'
    → IsDevice false d'
unfolding pair_step
pair_step-IsDevice sys ok word v d h k e = elim (Bool-cases (equal word (codes "peer"))) [
  | inl peer ↦ add_peer-IsDevice v d h k (rw (peer, pair_step) at e)
  | inr other ↦ elim (Bool-cases (no_peer d)) [
    | inl first ↦ device_word-IsDevice sys ok word v d h k (rw (other, first, pair_step) at e)
    | inr later ↦ peer_word-IsDevice sys ok word v d h k (rw (other, later, pair_step) at e)
  ]
]
