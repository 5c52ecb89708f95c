-- ===== src/Uapi/Read.antt =====
-- src/ipc-uapi.h: the loop of `userspace_get_device` over the lines, and what each of them changes.
use wireguard_tools.Config.Command.{find_word, no_peer}
use wireguard_tools.Config.Keys.{ends_newline, drop_last}
use wireguard_tools.Config.Line.{update_last}
use wireguard_tools.Config.Outcome.{Outcome, done, fail, exited, waiting, unreachable, fault, ◌>>=◌}
use wireguard_tools.Config.System.{System}
use wireguard_tools.Containers.{Peer, Device, zero_peer, zero_key, zero_device}
use wireguard_tools.Encoding.Hex.{key_is_zero}
use wireguard_tools.Libc.Text.{split_first}
use wireguard_tools.Prelude.{
  ℕ, true, not, Option, none, some, List, [], ◌∷◌, ◌++◌, ◌==◌, if◌then◌else◌, Bytes, codes, equal,
  take,
}
use wireguard_tools.Uapi.Get
use wireguard_tools.Uapi.Get.{
  Field, device_fields, peer_fields, num, hex_key, get_device_key, get_endpoint, get_transport,
  get_allowedip,
}

-- `NUM` into a field.
abbrev pub set_num : ℕ → Bytes → (ℕ → Peer) → Outcome Peer
set_num max v f = num max v >>= λ n. done (f n)

unfoldable pub get_field : System → Field → Bytes → Peer → Outcome Peer
get_field sys Get.preshared_key v p = do
  k ← hex_key p.preshared_key v
  done (record p {
    preshared_key = k;
    flags = record (p.flags) {
      has_preshared_key = if not (key_is_zero k) then true else p.flags.has_preshared_key;
    };
  })
get_field sys Get.endpoint v p = do a ← get_endpoint sys v; done (record p { endpoint = a })
get_field sys Get.transport v p =
    done
      (record p { transport = get_transport v; flags = record (p.flags) { has_transport = true } })
get_field sys Get.ws_url v p = done (record p { ws_url = some v })
get_field sys Get.wstunnel_target v p = done (record p { wstunnel_target = some v })
get_field sys Get.ws_bearer v p = done (record p { ws_bearer = some v })
get_field sys Get.ws_tls_ca v p = done (record p { ws_tls_ca = some v })
get_field sys Get.ws_tls_cert v p = done (record p { ws_tls_cert = some v })
get_field sys Get.ws_tls_key v p = done (record p { ws_tls_key = some v })
get_field sys Get.ws_mask v p = done (record p { ws_mask = equal v (codes "true") })
get_field sys Get.ws_tls_insecure v p = done (record p { ws_tls_insecure = equal v (codes "true") })
get_field sys Get.ws_ping_interval v p =
    set_num 0xffffffff v (λ n. record p { ws_ping_interval_ms = n })
get_field sys Get.ws_backoff_min v p =
    set_num 0xffffffff v (λ n. record p { ws_backoff_min_ms = n })
get_field sys Get.ws_backoff_max v p =
    set_num 0xffffffff v (λ n. record p { ws_backoff_max_ms = n })
get_field sys Get.persistent_keepalive_interval v p = set_num 0xffff v (λ n. record p {
  persistent_keepalive_interval = n;
  flags = record (p.flags) { has_keepalive = true };
})
get_field sys Get.allowed_ip v p = do
  a ← get_allowedip sys v
  done (record p { allowedips = p.allowedips ++ a ∷ [] })
get_field sys Get.last_handshake_time_sec v p =
    set_num 0x7fffffffffffffff v (λ n. record p { last_handshake_sec = n })
get_field sys Get.last_handshake_time_nsec v p =
    set_num 0x7fffffffffffffff v (λ n. record p { last_handshake_nsec = n })
get_field sys Get.rx_bytes v p = set_num 0xffffffffffffffff v (λ n. record p { rx_bytes = n })
get_field sys Get.tx_bytes v p = set_num 0xffffffffffffffff v (λ n. record p { tx_bytes = n })

abbrev pub listed_peer : Bytes → Peer
listed_peer k = record zero_peer {
  public_key = k;
  flags = record (zero_peer.flags) { has_public_key = true };
}

-- `ret`: -EPROTO, or minus the number of the last errno line.
pub record State : Type 0 where
  pub device : Device
  pub errno : Option ℕ

abbrev pub set_device : State → Device → State
set_device st d = record st { device = d }

abbrev pub set_peers : State → List Peer → State
set_peers st ps = record st { device = record (st.device) { peers = ps } }

-- The branches for the keys of the device and of the last peer, and the one for errno behind them. A
-- key that no branch takes is passed over.
abbrev pub errno_line : Bytes → Bytes → State → Outcome State
errno_line key value st =
    if equal key (codes "errno")
    then (num 0x7fffffff value >>= λ n. done (record st { errno = some n }))
    else done st

unfoldable pub device_field : (Bytes → Bytes) → Bytes → Bytes → State → Outcome State
device_field derive key value st = elim (find_word device_fields key) [
  | some k ↦ get_device_key derive k value st.device >>= λ d. done (set_device st d)
  | none ↦ errno_line key value st
]

unfoldable pub peer_field : System → Bytes → Bytes → State → Outcome State
peer_field sys key value st = elim (find_word peer_fields key) [
  | some k ↦ update_last (get_field sys k value) st.device.peers >>= λ ps. done (set_peers st ps)
  | none ↦ errno_line key value st
]

unfoldable pub key_value : System → (Bytes → Bytes) → Bytes → Bytes → State → Outcome State
key_value sys derive key value st =
    if equal key (codes "public_key")
    then (hex_key zero_key value >>= λ k.
        done (set_peers st (st.device.peers ++ listed_peer k ∷ [])))
    else if no_peer st.device
    then device_field derive key value st
    else peer_field sys key value st

-- A line of the form key=value with its newline.
unfoldable pub get_line : System → (Bytes → Bytes) → Bytes → State → Outcome State
get_line sys derive line st = elim (split_first b'=' line) [
  | none ↦ fail
  | some (key, value) ↦
      if not (ends_newline value) then fail else key_value sys derive key (drop_last value) st
]

-- What is returned: 0 with the device; minus the daemon's errno; -EPROTO; ENETUNREACH, without a
-- sign; and a run that follows NULL.
pub data Got : Type 0 where
  got : Device → Got
  refused : ℕ → Got
  eproto enetunreach crashed : Got

-- `goto err` at the empty line.
abbrev pub finish : State → Got
finish st = elim st.errno [ none ↦ eproto | some n ↦ if n == 0 then got st.device else refused n ]

-- What a line leads to; `fail` leaves the loop by `break`.
abbrev pub proceed : Outcome State → (State → Got) → Got
proceed (done next) go = go next
proceed unreachable go = enetunreach
proceed fault go = crashed
proceed fail go = eproto
proceed exited go = eproto
proceed waiting go = eproto

unfoldable pub get_lines : System → (Bytes → Bytes) → List Bytes → State → Got
get_lines sys derive [] st = eproto
get_lines sys derive (line ∷ lines) st =
    if equal line (b'\n' ∷ [])
    then finish st
    else proceed (get_line sys derive line st) (get_lines sys derive lines)

-- IFNAMSIZ is 16.
unfoldable pub userspace_get_device : System → (Bytes → Bytes) → Bytes → List Bytes → Got
userspace_get_device sys derive iface lines =
    get_lines sys derive lines
      (record { device = record zero_device { name = take 15 iface }; errno = none })
