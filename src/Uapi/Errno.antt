-- ===== src/Uapi/Errno.antt =====
-- src/ipc-uapi.h: the errno lines of an answer.
use mathlib.Core.Path.{subst}
use wireguard_tools.Config.Command.{find_word, no_peer}
use wireguard_tools.Config.Keys.{ends_newline, drop_last}
use wireguard_tools.Config.Line.{update_last}
use wireguard_tools.Config.Outcome.{
  Outcome, done, fail, exited, waiting, unreachable, fault, returned, done-injective,
}
use wireguard_tools.Config.System.{System}
use wireguard_tools.Containers.{Device, zero_key}
use wireguard_tools.Libc.Text.{split_first}
use wireguard_tools.Prelude.{
  ◌∙◌, equal_iff, ap, ◌==◌, ==_iff, ◌≢◌, ℕ, ◌≡◌, refl, sym, arith, false, Option, none, some, List,
  [], ◌∷◌, ◌++◌, Bytes, codes, equal, Bool-cases, Option-cases, inl, inr, if◌then◌else◌,
}
use wireguard_tools.Uapi.Get.{device_fields, peer_fields, num, hex_key, get_device_key}
use wireguard_tools.Uapi.Read.{
  proceed, refused, get_field, listed_peer, State, set_device, set_peers, errno_line, device_field,
  peer_field, key_value, get_line, Got, got, finish, get_lines, userspace_get_device,
}

-- The number that an errno line sets, and the one before it elsewhere.
abbrev errno_after : Bytes → Bytes → Option ℕ → Option ℕ
errno_after key value now =
    if equal key (codes "errno")
    then (elim (num 0x7fffffff value) [ done n ↦ some n | _ ↦ now ])
    else now

unfoldable pub line_errno : Bytes → Option ℕ → Option ℕ
unfolding num
line_errno line now = elim (split_first b'=' line) [
  | none ↦ now
  | some (key, value) ↦ errno_after key (drop_last value) now
]

-- The last number that the lines in front of the empty line set.
unfoldable pub last_errno : List Bytes → Option ℕ → Option ℕ
last_errno [] now = now
last_errno (line ∷ ls) now =
    let rest = last_errno ls (line_errno line now) in if equal line (b'\n' ∷ []) then now else rest

errno_line-errno :
    (key v : Bytes) (st : State) {st' : State}
    → errno_line key v st ≡ done st'
    → st'.errno ≡ errno_after key v st.errno
errno_line-errno key v st e = elim (Bool-cases (equal key (codes "errno"))) [
  | inl errno ↦
      returned (λ r. r.errno ≡ errno_after key v st.errno) (num 0x7fffffff v)
        (λ n. record st { errno = some n }) (rw errno at e) (λ n m. rw (errno, m) refl)
  | inr more ↦
      subst (λ r. r.errno ≡ errno_after key v st.errno) (done-injective (rw more at e))
        (rw more refl)
]

-- No other branch takes the key errno.
key_value-errno_line :
    (sys : System) (derive : Bytes → Bytes) (v : Bytes) (st : State)
    → key_value sys derive (codes "errno") v st ≡ errno_line (codes "errno") v st
unfolding key_value device_field peer_field find_word equal
key_value-errno_line sys derive v st = elim (Bool-cases (no_peer st.device)) [
  | inl first ↦ rw (first, key_value) refl
  | inr later ↦ rw (later, key_value) refl
]

device_field-keeps :
    (derive : Bytes → Bytes) (key v : Bytes) (st : State) {st' : State}
    → equal key (codes "errno") ≡ false
    → device_field derive key v st ≡ done st'
    → st'.errno ≡ st.errno
unfolding device_field
device_field-keeps derive key v st other_key e = elim (Option-cases (find_word device_fields key)) [
  | inl out ↦ errno_line-errno key v st (rw (out, device_field) at e) ∙ rw other_key refl
  | inr (f, found) ↦
      returned (λ r. r.errno ≡ st.errno) (get_device_key derive f v st.device)
        (λ d. set_device st d) (rw (found, device_field) at e) (λ d m. refl)
]

peer_field-keeps :
    (sys : System) (key v : Bytes) (st : State) {st' : State}
    → equal key (codes "errno") ≡ false
    → peer_field sys key v st ≡ done st'
    → st'.errno ≡ st.errno
unfolding peer_field
peer_field-keeps sys key v st other_key e = elim (Option-cases (find_word peer_fields key)) [
  | inl out ↦ errno_line-errno key v st (rw (out, peer_field) at e) ∙ rw other_key refl
  | inr (f, found) ↦
      returned (λ r. r.errno ≡ st.errno) (update_last (get_field sys f v) st.device.peers)
        (λ ps. set_peers st ps) (rw (found, peer_field) at e) (λ ps m. refl)
]

key_value-keeps :
    (sys : System) (derive : Bytes → Bytes) (key v : Bytes) (st : State) {st' : State}
    → equal key (codes "errno") ≡ false
    → key_value sys derive key v st ≡ done st'
    → st'.errno ≡ st.errno
unfolding key_value
key_value-keeps sys derive key v st other_key e =
    elim (Bool-cases (equal key (codes "public_key"))) [
      | inl peer ↦
          returned (λ r. r.errno ≡ st.errno) (hex_key zero_key v)
            (λ b. set_peers st (st.device.peers ++ listed_peer b ∷ [])) (rw (peer, key_value) at e)
            (λ b m. refl)
      | inr more ↦ elim (Bool-cases (no_peer st.device)) [
        | inl first ↦
            device_field-keeps derive key v st other_key (rw (more, first, key_value) at e)
        | inr later ↦ peer_field-keeps sys key v st other_key (rw (more, later, key_value) at e)
      ]
    ]

key_value-errno :
    (sys : System) (derive : Bytes → Bytes) (key v : Bytes) (st : State) {st' : State}
    → key_value sys derive key v st ≡ done st'
    → st'.errno ≡ errno_after key v st.errno
key_value-errno sys derive key v st {st'} e = elim (Bool-cases (equal key (codes "errno"))) [
  | inl errno ↦
      let same = (equal_iff key (codes "errno")).0 errno in
      errno_line-errno key v st (
        subst (λ k. errno_line k v st ≡ done st') (sym same)
          (sym (key_value-errno_line sys derive v st)
            ∙ subst (λ k. key_value sys derive k v st ≡ done st') same e))
  | inr more ↦ key_value-keeps sys derive key v st more e ∙ rw more refl
]

get_line-errno :
    (sys : System) (derive : Bytes → Bytes) (line : Bytes) (st : State) {st' : State}
    → get_line sys derive line st ≡ done st'
    → st'.errno ≡ line_errno line st.errno
unfolding get_line line_errno
get_line-errno sys derive line st e = elim (Option-cases (split_first b'=' line)) [
  | inl out ↦ absurd cc (rw (out, get_line) at e)
  | inr ((key, value), parts) ↦ elim (Bool-cases (ends_newline value)) [
    | inr cut ↦ absurd cc (rw (parts, cut, get_line) at e)
    | inl whole ↦
        rw (parts, line_errno)
          (key_value-errno sys derive key (drop_last value) st (rw (parts, whole, get_line) at e))
  ]
]

-- A device comes with errno 0, and a refusal with the number that it names.
abbrev pub Announced : Option ℕ → Got → Type 0
Announced now (got d) = now ≡ some 0
Announced now (refused n) = (now ≡ some n) × (n ≢ 0)
Announced now _ = Unit

finish-Announced :
    (d : Device) (o : Option ℕ) → Announced o (finish (record { device = d; errno = o }))
finish-Announced d none = tt
finish-Announced d (some n) = elim (Bool-cases (n == 0)) [
  | inl null ↦ rw null (ap some ((==_iff n 0).0 null))
  | inr set ↦ rw set (refl, ground arith)
]

proceed-Announced :
    (now : Option ℕ) (m : Outcome State) (go : State → Got)
    → ((st : State) → m ≡ done st → Announced now (go st))
    → Announced now (proceed m go)
proceed-Announced now (done st) go h = h st refl
proceed-Announced now fail go h = tt
proceed-Announced now exited go h = tt
proceed-Announced now waiting go h = tt
proceed-Announced now unreachable go h = tt
proceed-Announced now fault go h = tt

get_lines-Announced :
    (sys : System) (derive : Bytes → Bytes) (ls : List Bytes) (st : State)
    → Announced (last_errno ls st.errno) (get_lines sys derive ls st)
unfolding get_lines last_errno
get_lines-Announced sys derive [] st = tt
get_lines-Announced sys derive (line ∷ ls) st = elim (Bool-cases (equal line (b'\n' ∷ []))) [
  | inl end ↦ rw end (finish-Announced st.device st.errno)
  | inr more ↦ rw more (
      proceed-Announced (last_errno ls (line_errno line st.errno)) (get_line sys derive line st)
        (get_lines sys derive ls)
        (λ next m.
          subst (λ o. Announced (last_errno ls o) (get_lines sys derive ls next))
            (get_line-errno sys derive line st m) (get_lines-Announced sys derive ls next)))
]

-- `userspace_get_device` returns a device only if the last errno line in front of the empty line says
-- 0, and minus a number only if it is the nonzero number that this line says.
pub userspace_get_device-Announced :
    (sys : System) (derive : Bytes → Bytes) (iface : Bytes) (ls : List Bytes)
    → Announced (last_errno ls none) (userspace_get_device sys derive iface ls)
unfolding userspace_get_device
userspace_get_device-Announced sys derive iface ls = get_lines-Announced sys derive ls _
