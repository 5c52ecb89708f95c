-- ===== src/Ipc.antt =====
-- src/ipc.c: the list of interface names and the choice of a back end, where the kernel has an
-- interface. A buffer is its bytes up to its capacity; a write behind them is none. `realloc` does
-- not fail, and the bytes that it adds are those of the parameter `fresh`.
pub mod Buffer
pub mod Names
pub mod Kernel
use wireguard_tools.Containers.{is_udp, Device, DeviceFlags, Peer, Transport, udp}
use wireguard_tools.Prelude.{
  ℕ, zero, suc, ◌+◌, ◌-◌, ◌*◌, ◌^◌, ◌%◌, Bool, true, false, not, ◌&&◌, ◌||◌, Option, none, some,
  List, [], ◌∷◌, ◌++◌, ltb, leb, ◌==◌, if◌then◌else◌, Bytes, length, take, drop, any,
}

pub record StringList : Type 0 where
  pub buffer : Bytes
  pub len : ℕ
  pub cap : ℕ

-- `memcpy(buffer + at, bytes)`
unfoldable pub write : ℕ → Bytes → Bytes → Option Bytes
write at bytes buffer =
    if leb (at + length bytes) (length buffer)
    then some (take at buffer ++ (bytes ++ drop (at + length bytes) buffer))
    else none

-- The buffer with a capacity of at least `need`.
unfoldable pub grown : (ℕ → Bytes) → ℕ → StringList → StringList
grown fresh need list =
    let double = list.cap * 2 % 2 ^ 64 in
    let new_cap = (if ltb double need then need else double) in
    record list { buffer = take new_cap (list.buffer ++ fresh (new_cap - list.cap)); cap = new_cap }

-- The list with room for `len` more bytes and one behind them. The `size_t` difference wraps.
unfoldable pub room_for : (ℕ → Bytes) → ℕ → StringList → StringList
room_for fresh len list =
    if leb ((list.cap + 2 ^ 64 - list.len) % 2 ^ 64) len
    then grown fresh ((list.len + len + 1) % 2 ^ 64) list
    else list

-- The name with its NUL, and a NUL behind it.
unfoldable pub put : Bytes → StringList → Option StringList
put str list = elim (write list.len (str ++ 0 ∷ []) list.buffer) [
  | none ↦ none
  | some copied ↦ elim (write (list.len + (length str + 1)) (0 ∷ []) copied) [
    | none ↦ none
    | some ended ↦ some (record list { buffer = ended; len = list.len + (length str + 1) })
  ]
]

unfoldable pub string_list_add : (ℕ → Bytes) → StringList → Bytes → Option StringList
string_list_add fresh list str =
    let len = length str + 1 in if len == 1 then some list else put str (room_for fresh len list)

abbrev pub add_all : (ℕ → Bytes) → StringList → List Bytes → Option StringList
add_all fresh list [] = some list
add_all fresh list (s ∷ names) = elim (string_list_add fresh list s) [
  | none ↦ none
  | some next ↦ add_all fresh next names
]

-- What a back end's search adds to the list, and whether it then fails.
pub record Search : Type 0 where
  pub names : List Bytes
  pub failed : Bool

-- The names, NULL, or a write behind the buffer.
pub data Devices : Type 0 where
  listed : Bytes → Devices
  null overrun : Devices

unfoldable pub ipc_list_devices : (ℕ → Bytes) → Search → Search → Devices
ipc_list_devices fresh kernel userspace =
    elim (add_all fresh (record { buffer = []; len = 0; cap = 0 }) kernel.names) [
      | none ↦ overrun
      | some list ↦ if kernel.failed then null else elim (add_all fresh list userspace.names) [
        | none ↦ overrun
        | some all ↦
            if userspace.failed then null else listed (if all.cap == 0 then 0 ∷ [] else all.buffer)
      ]
    ]

-- The loops of src/show.c over the result: a name ends at its NUL, and the list at an empty name.
unfoldable pub names_in : Bytes → Bytes → List Bytes
names_in name [] = []
names_in name (c ∷ s) =
    let more = names_in [] s in
    let longer = names_in (name ++ c ∷ []) s in
    if c == 0 then (if length name == 0 then [] else name ∷ more) else longer

abbrev pub not_empty : Option Bytes → Bool
not_empty none = false
not_empty (some []) = false
not_empty (some (c ∷ s)) = true

abbrev pub is_set : Option Bytes → Bool
is_set none = false
is_set (some s) = true

unfoldable pub device_has_ws_settings : Device → Bool
device_has_ws_settings dev =
    not_empty dev.ws_listen
    || (is_set dev.ws_server_tls_cert
        || (is_set dev.ws_server_tls_key
            || (is_set dev.ws_server_bearer
                || (is_set dev.ws_trusted_proxies
                    || any (λ p. not (is_udp p.transport)) dev.peers))))

-- `ipc_set_device`: the back end that is called, or -EOPNOTSUPP.
pub data BackEnd : Type 0 where
  userspace kernel unsupported : BackEnd

abbrev pub ipc_set_device : Bool → Device → BackEnd
ipc_set_device has_userspace dev =
    if has_userspace then userspace else if device_has_ws_settings dev then unsupported else kernel

abbrev pub ipc_get_device : Bool → BackEnd
ipc_get_device has_userspace = if has_userspace then userspace else kernel
