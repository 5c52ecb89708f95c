-- ===== src/Uapi/NoCrash.antt =====
-- src/ipc-uapi.h: the pointer `peer` in `userspace_get_device`.
use wireguard_tools.Config.Command.NoFault.{some_peer}
use wireguard_tools.Config.Command.{find_word, no_peer}
use wireguard_tools.Config.Keys.{ends_newline, drop_last}
use wireguard_tools.Config.Line.Keys.{DeviceKey}
use wireguard_tools.Config.Line.Keys
use wireguard_tools.Config.Line.{update_last}
use wireguard_tools.Config.Outcome.{Outcome, done, fail, exited, waiting, unreachable, fault, ◌>>=◌}
use wireguard_tools.Config.System.{System}
use wireguard_tools.Containers.{Peer, Device, zero_key}
use wireguard_tools.Libc.Text.{split_first}
use wireguard_tools.Config.Line.NoFault.{update_last-IsSafe, if-IsSafe}
use wireguard_tools.Config.Line.Safe.{IsSafe, bind-IsSafe}
use wireguard_tools.Prelude.{
  ◌≢◌, ℕ, ◌≡◌, arith, false, not, Option, none, some, List, [], ◌∷◌, Bytes, codes, equal,
  Bool-cases, inl, inr, if◌then◌else◌,
}
use wireguard_tools.Uapi.Get
use wireguard_tools.Uapi.Get.{
  Field, device_fields, peer_fields, num, hex_key, get_device_key, get_endpoint, get_address,
  fits_family, get_allowedip,
}
use wireguard_tools.Uapi.Read.{
  proceed, crashed, get_field, State, set_device, set_peers, errno_line, device_field, peer_field,
  key_value, get_line, Got, finish, get_lines, userspace_get_device,
}

num-IsSafe : (max : ℕ) (v : Bytes) → IsSafe (num max v)
unfolding num
num-IsSafe max v = ground arith

hex_key-IsSafe : (old v : Bytes) → IsSafe (hex_key old v)
unfolding hex_key
hex_key-IsSafe old v = ground arith

get_endpoint-IsSafe : (sys : System) (v : Bytes) → IsSafe (get_endpoint sys v)
unfolding get_endpoint
get_endpoint-IsSafe sys v = ground arith

get_allowedip-IsSafe : (sys : System) (v : Bytes) → IsSafe (get_allowedip sys v)
unfolding get_allowedip
get_allowedip-IsSafe sys v = ground arith

get_field-IsSafe : (sys : System) (f : Field) (v : Bytes) (p : Peer) → IsSafe (get_field sys f v p)
unfolding get_field
get_field-IsSafe sys Get.preshared_key v p =
    bind-IsSafe _ _ (hex_key-IsSafe p.preshared_key v) (λ k. tt)
get_field-IsSafe sys Get.endpoint v p = bind-IsSafe _ _ (get_endpoint-IsSafe sys v) (λ k. tt)
get_field-IsSafe sys Get.allowed_ip v p = bind-IsSafe _ _ (get_allowedip-IsSafe sys v) (λ k. tt)
get_field-IsSafe sys Get.ws_ping_interval v p = bind-IsSafe _ _ (num-IsSafe _ v) (λ n. tt)
get_field-IsSafe sys Get.ws_backoff_min v p = bind-IsSafe _ _ (num-IsSafe _ v) (λ n. tt)
get_field-IsSafe sys Get.ws_backoff_max v p = bind-IsSafe _ _ (num-IsSafe _ v) (λ n. tt)
get_field-IsSafe sys Get.persistent_keepalive_interval v p =
    bind-IsSafe _ _ (num-IsSafe _ v) (λ n. tt)
get_field-IsSafe sys Get.last_handshake_time_sec v p = bind-IsSafe _ _ (num-IsSafe _ v) (λ n. tt)
get_field-IsSafe sys Get.last_handshake_time_nsec v p = bind-IsSafe _ _ (num-IsSafe _ v) (λ n. tt)
get_field-IsSafe sys Get.rx_bytes v p = bind-IsSafe _ _ (num-IsSafe _ v) (λ n. tt)
get_field-IsSafe sys Get.tx_bytes v p = bind-IsSafe _ _ (num-IsSafe _ v) (λ n. tt)
get_field-IsSafe sys _ v p = tt

get_device_key-IsSafe :
    (derive : Bytes → Bytes) (key : DeviceKey) (v : Bytes) (d : Device)
    → IsSafe (get_device_key derive key v d)
unfolding get_device_key
get_device_key-IsSafe derive Keys.private_key v d =
    bind-IsSafe _ _ (hex_key-IsSafe d.private_key v) (λ k. tt)
get_device_key-IsSafe derive Keys.listen_port v d = bind-IsSafe _ _ (num-IsSafe _ v) (λ n. tt)
get_device_key-IsSafe derive Keys.fwmark v d = bind-IsSafe _ _ (num-IsSafe _ v) (λ n. tt)
get_device_key-IsSafe derive _ v d = tt

errno_line-IsSafe : (key v : Bytes) (st : State) → IsSafe (errno_line key v st)
errno_line-IsSafe key v st =
    if-IsSafe (equal key (codes "errno")) _ _
      (λ e. bind-IsSafe _ _ (num-IsSafe 0x7fffffff v) (λ n. tt)) (λ e. tt)

key_value-IsSafe :
    (sys : System) (derive : Bytes → Bytes) (key v : Bytes) (st : State)
    → IsSafe (key_value sys derive key v st)
unfolding key_value device_field peer_field
key_value-IsSafe sys derive key v st =
    if-IsSafe (equal key (codes "public_key")) _ _
      (λ e. bind-IsSafe _ _ (hex_key-IsSafe zero_key v) (λ k. tt))
      (λ e.
        if-IsSafe (no_peer st.device) _ _ (λ e. device (find_word device_fields key))
          (λ e. peer e (find_word peer_fields key)))
  where
    device :
        (o : Option DeviceKey)
        → IsSafe (elim o [
          | some k ↦ get_device_key derive k v st.device >>= λ d. done (set_device st d)
          | none ↦ errno_line key v st
        ])
    device none = errno_line-IsSafe key v st
    device (some k) = bind-IsSafe _ _ (get_device_key-IsSafe derive k v st.device) (λ d. tt)

    peer :
        no_peer st.device ≡ false
        → (o : Option Field)
        → IsSafe (elim o [
          | some k ↦
              update_last (get_field sys k v) st.device.peers >>= λ ps. done (set_peers st ps)
          | none ↦ errno_line key v st
        ])
    peer e none = errno_line-IsSafe key v st
    peer e (some k) =
        bind-IsSafe _ _
          (update_last-IsSafe (get_field sys k v) st.device.peers (get_field-IsSafe sys k v)
            (some_peer st.device.peers e))
          (λ ps. tt)

get_line-IsSafe :
    (sys : System) (derive : Bytes → Bytes) (line : Bytes) (st : State)
    → IsSafe (get_line sys derive line st)
unfolding get_line
get_line-IsSafe sys derive line st = go (split_first b'=' line)
  where
    go :
        (o : Option (Bytes × Bytes))
        → IsSafe (elim o [
          | none ↦ fail
          | some (key, value) ↦
              if not (ends_newline value)
              then fail
              else key_value sys derive key (drop_last value) st
        ])
    go none = tt
    go (some (key, value)) =
        if-IsSafe (not (ends_newline value)) _ _ (λ e. tt)
          (λ e. key_value-IsSafe sys derive key (drop_last value) st)

proceed-not_crashed :
    (m : Outcome State) (go : State → Got)
    → IsSafe m
    → ((st : State) → go st ≢ crashed)
    → proceed m go ≢ crashed
proceed-not_crashed (done st) go h k e = k st e
proceed-not_crashed fail go h k e = absurd cc
proceed-not_crashed exited go h k e = absurd cc
proceed-not_crashed waiting go h k e = absurd cc
proceed-not_crashed unreachable go h k e = absurd cc
proceed-not_crashed fault go h k e = h

finish-not_crashed :
    (o : Option ℕ) (d : Device) → finish (record { device = d; errno = o }) ≢ crashed
finish-not_crashed none d e = absurd cc
finish-not_crashed (some n) d e = absurd (ground arith)

get_lines-not_crashed :
    (sys : System) (derive : Bytes → Bytes) (ls : List Bytes) (st : State)
    → get_lines sys derive ls st ≢ crashed
unfolding get_lines
get_lines-not_crashed sys derive [] st e = absurd cc
get_lines-not_crashed sys derive (line ∷ ls) st e = elim (Bool-cases (equal line (b'\n' ∷ []))) [
  | inl end ↦ finish-not_crashed st.errno st.device (rw (end, get_lines) at e)
  | inr more ↦
      proceed-not_crashed (get_line sys derive line st) (get_lines sys derive ls)
        (get_line-IsSafe sys derive line st) (get_lines-not_crashed sys derive ls)
        (rw (more, get_lines) at e)
]

-- Whatever the daemon answers, `userspace_get_device` never follows the NULL that `peer` is before the
-- first public_key line.
pub userspace_get_device-not_crashed :
    (sys : System) (derive : Bytes → Bytes) (iface : Bytes) (ls : List Bytes)
    → userspace_get_device sys derive iface ls ≢ crashed
unfolding userspace_get_device
userspace_get_device-not_crashed sys derive iface ls = get_lines-not_crashed sys derive ls _
