-- ===== src/Uapi/Runtime.antt =====
-- src/ipc-uapi.h: what every line of an answer keeps true of the device.
use mathlib.Core.Path.{subst}
use wireguard_tools.Config.AllowedIps.Entries.{IsAllowedIp, FitsFamily}
use wireguard_tools.Config.Outcome.{done, returned, done-injective}
use wireguard_tools.Config.System.{System, IsSystem}
use wireguard_tools.Containers.{Family, unspec, inet, inet6, other, AllowedIp, Peer, Device}
use wireguard_tools.Config.Numbers.{first_byte, is_empty}
use wireguard_tools.Ctype.{char_is_digit}
use wireguard_tools.Encoding.Base64.{IsKey}
use wireguard_tools.Encoding.Hex.RoundTrip.{key_from_hex_canonical}
use wireguard_tools.Encoding.Hex.{key_from_hex}
use wireguard_tools.Libc.Number.{strtoul}
use wireguard_tools.Libc.Text.{split_first}
use wireguard_tools.Prelude.{
  ℕ, ◌^◌, ◌<◌, ◌≤◌, ◌≡◌, refl, arith, true, ◌&&◌, [], ◌∷◌, ◌++◌, Bytes, IsBytes, All, All-append,
  char_int, u8, Bool-cases, Option-cases, inl, inr, and-true,
}
use wireguard_tools.Uapi.Get
use wireguard_tools.Uapi.Get.{
  Field, device_fields, peer_fields, num, hex_key, get_device_key, get_endpoint, get_address,
  fits_family, get_allowedip,
}
use wireguard_tools.Uapi.Read.{get_field}

-- A peer with a public key whose fields fit their types, with well-formed allowed IPs.
pub record IsRuntimePeer (p : Peer) : Type 0 where
  pub keyed : p.flags.has_public_key ≡ true
  pub public_key : IsKey p.public_key
  pub preshared_key : IsKey p.preshared_key
  pub keepalive : p.persistent_keepalive_interval < 65536
  pub ping : p.ws_ping_interval_ms < 2 ^ 32
  pub backoff_min : p.ws_backoff_min_ms < 2 ^ 32
  pub backoff_max : p.ws_backoff_max_ms < 2 ^ 32
  pub handshake_sec : p.last_handshake_sec < 2 ^ 63
  pub handshake_nsec : p.last_handshake_nsec < 2 ^ 63
  pub rx : p.rx_bytes < 2 ^ 64
  pub tx : p.tx_bytes < 2 ^ 64
  pub allowedips : All IsAllowedIp p.allowedips

pub record IsRuntime (d : Device) : Type 0 where
  pub listen_port : d.listen_port < 65536
  pub fwmark : d.fwmark < 2 ^ 32
  pub private_key : IsKey d.private_key
  pub peers : All IsRuntimePeer d.peers

pub num-le : (max : ℕ) (v : Bytes) {n : ℕ} → num max v ≡ done n → n ≤ max
unfolding num
num-le max v e = ground arith

pub hex_key-IsKey : (old v k : Bytes) → IsBytes v → hex_key old v ≡ done k → IsKey k
unfolding hex_key
hex_key-IsKey old v k h e = elim (Bool-cases (key_from_hex old v).0) [
  | inl good ↦ subst IsKey (done-injective (rw good at e)) (key_from_hex_canonical old v h good).0
  | inr bad ↦ absurd cc (rw bad at e)
]

get_address-FitsFamily :
    (sys : System)
    → IsSystem sys
    → (ip : Bytes) (n : ℕ) (x : Family × Bytes) → get_address sys ip ≡ x
    → fits_family x.0 n ≡ true
    → FitsFamily x.0 x.1 n
unfolding get_address fits_family
get_address-FitsFamily sys ok ip n (inet, a) e fits = grind (arith, ok.pton4_len ip a)
get_address-FitsFamily sys ok ip n (inet6, a) e fits = grind (arith, ok.pton6_len ip a)
get_address-FitsFamily sys ok ip n (unspec, a) e fits = absurd cc
get_address-FitsFamily sys ok ip n (other, a) e fits = absurd (ground arith)

get_allowedip-IsAllowedIp :
    (sys : System)
    → IsSystem sys
    → (v : Bytes) {a : AllowedIp} → get_allowedip sys v ≡ done a
    → IsAllowedIp a
unfolding get_allowedip
get_allowedip-IsAllowedIp sys ok v e = elim (Option-cases (split_first b'/' v)) [
  | inl out ↦ absurd cc (rw (out, get_allowedip) at e)
  | inr ((ip, mask), parts) ↦ elim (Bool-cases (char_is_digit (char_int (first_byte mask)))) [
    | inr bad ↦ absurd cc (rw (parts, bad, get_allowedip) at e)
    | inl digit ↦
        let n = u8 (strtoul 10 mask).0 in
        elim (Bool-cases (is_empty (strtoul 10 mask).1 && fits_family (get_address sys ip).0 n)) [
          | inr bad ↦ absurd cc (rw (parts, digit, bad, get_allowedip) at e)
          | inl good ↦
              subst IsAllowedIp (done-injective (rw (parts, digit, good, get_allowedip) at e)) (
                get_address-FitsFamily sys ok ip n (get_address sys ip) refl
                  (and-true (is_empty (strtoul 10 mask).1) (fits_family (get_address sys ip).0 n)
                    good).1)
        ]
  ]
]

pub get_field-IsRuntimePeer :
    (sys : System)
    → IsSystem sys
    → (f : Field) (v : Bytes) (p : Peer) {q : Peer} → IsBytes v
    → IsRuntimePeer p
    → get_field sys f v p ≡ done q
    → IsRuntimePeer q
unfolding get_field
get_field-IsRuntimePeer sys ok Get.preshared_key v p h k e =
    returned IsRuntimePeer _ _ e (λ b m. ground (arith, hex_key-IsKey p.preshared_key v b h m))
get_field-IsRuntimePeer sys ok Get.endpoint v p h k e =
    returned IsRuntimePeer _ _ e (λ a m. ground arith)
get_field-IsRuntimePeer sys ok Get.allowed_ip v p h k e =
    returned IsRuntimePeer (get_allowedip sys v)
      (λ a. record p { allowedips = p.allowedips ++ a ∷ [] }) e
      (λ a m.
        let both =
          All-append IsAllowedIp p.allowedips (a ∷ []) k.allowedips
            (get_allowedip-IsAllowedIp sys ok v m, tt) in
        ground arith)
get_field-IsRuntimePeer sys ok Get.ws_ping_interval v p h k e =
    returned IsRuntimePeer _ _ e (λ n m. ground (arith, num-le 0xffffffff v m))
get_field-IsRuntimePeer sys ok Get.ws_backoff_min v p h k e =
    returned IsRuntimePeer _ _ e (λ n m. ground (arith, num-le 0xffffffff v m))
get_field-IsRuntimePeer sys ok Get.ws_backoff_max v p h k e =
    returned IsRuntimePeer _ _ e (λ n m. ground (arith, num-le 0xffffffff v m))
get_field-IsRuntimePeer sys ok Get.persistent_keepalive_interval v p h k e =
    returned IsRuntimePeer _ _ e (λ n m. ground (arith, num-le 0xffff v m))
get_field-IsRuntimePeer sys ok Get.last_handshake_time_sec v p h k e =
    returned IsRuntimePeer _ _ e (λ n m. ground (arith, num-le 0x7fffffffffffffff v m))
get_field-IsRuntimePeer sys ok Get.last_handshake_time_nsec v p h k e =
    returned IsRuntimePeer _ _ e (λ n m. ground (arith, num-le 0x7fffffffffffffff v m))
get_field-IsRuntimePeer sys ok Get.rx_bytes v p h k e =
    returned IsRuntimePeer _ _ e (λ n m. ground (arith, num-le 0xffffffffffffffff v m))
get_field-IsRuntimePeer sys ok Get.tx_bytes v p h k e =
    returned IsRuntimePeer _ _ e (λ n m. ground (arith, num-le 0xffffffffffffffff v m))
get_field-IsRuntimePeer sys ok _ v p h k e = subst IsRuntimePeer (done-injective e) (ground arith)
