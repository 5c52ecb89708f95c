-- ===== src/Uapi/Returned.antt =====
-- src/ipc-uapi.h: the answers for which `userspace_get_device` returns a device, and those for which it
-- follows a NULL pointer.
use wireguard_tools.Uapi.Result.{IsState, get_line-IsState}
use mathlib.Core.Path.{subst}
use wireguard_tools.Config.Outcome.{Outcome, done, fail, exited, waiting, unreachable, fault}
use wireguard_tools.Config.System.{System, IsSystem}
use wireguard_tools.Containers.{Device}
use wireguard_tools.Containers.{zero_device}
use wireguard_tools.Prelude.{
  ap, ◌==◌, ==_iff, take, ℕ, ◌≡◌, refl, arith, Option, none, some, List, [], ◌∷◌, Bytes, IsBytes,
  All, equal, Bool-cases, inl, inr, if◌then◌else◌,
}
use wireguard_tools.Uapi.Runtime.{IsRuntime}
use wireguard_tools.Uapi.Read.{
  proceed, eproto, refused, State, get_line, Got, got, finish, get_lines, userspace_get_device,
}

pub proceed-eq-got :
    (m : Outcome State) (go : State → Got) {d : Device}
    → proceed m go ≡ got d
    → (next : State) × (m ≡ done next) × (go next ≡ got d)
proceed-eq-got (done next) go e = (next, refl, e)
proceed-eq-got fail go e = cc
proceed-eq-got exited go e = cc
proceed-eq-got waiting go e = cc
proceed-eq-got unreachable go e = cc
proceed-eq-got fault go e = cc

got-injective : {d d' : Device} → got d ≡ got d' → d ≡ d'
got-injective e = cc

-- The device comes with errno 0.
pub finish-eq-got :
    (st : State) {d : Device} → finish st ≡ got d → (st.device ≡ d) × (st.errno ≡ some 0)
finish-eq-got st e = finished st.errno e
  where
    finished :
        (o : Option ℕ) {d : Device}
        → elim o [ none ↦ eproto | some n ↦ if n == 0 then got st.device else refused n ] ≡ got d
        → (st.device ≡ d) × (o ≡ some 0)
    finished none e = absurd cc
    finished (some n) e = elim (Bool-cases (n == 0)) [
      | inl null ↦ (got-injective (rw null at e), ap some ((==_iff n 0).0 null))
      | inr set ↦ absurd cc (rw set at e)
    ]

get_lines-IsRuntime :
    (sys : System)
    → IsSystem sys
    → (derive : Bytes → Bytes) (ls : List Bytes) (st : State) {d : Device} → All IsBytes ls
    → IsState st
    → get_lines sys derive ls st ≡ got d
    → IsRuntime d
unfolding get_lines
get_lines-IsRuntime sys ok derive [] st h k e = absurd cc
get_lines-IsRuntime sys ok derive (line ∷ ls) st h k e =
    elim (Bool-cases (equal line (b'\n' ∷ []))) [
      | inl end ↦ subst IsRuntime (finish-eq-got st (rw (end, get_lines) at e)).0 k
      | inr more ↦
          let (next, step, rest) =
            proceed-eq-got (get_line sys derive line st) (get_lines sys derive ls)
              (rw (more, get_lines) at e) in
          get_lines-IsRuntime sys ok derive ls next h.1
            (get_line-IsState sys ok derive line st h.0 k step) rest
    ]

zero_device-IsState :
    (iface : Bytes)
    → IsState (record { device = record zero_device { name = take 15 iface }; errno = none })
zero_device-IsState iface = record {
  listen_port = omega arith;
  fwmark = omega arith;
  private_key = (refl, ground arith);
  peers = tt;
}

-- On a system that keeps `IsSystem` and for lines of bytes, a device that `userspace_get_device`
-- returns has keys of 32 bytes, numbers in the widths of their fields, a public key for each peer and
-- well-formed allowed IPs.
pub userspace_get_device-IsRuntime :
    (sys : System)
    → IsSystem sys
    → (derive : Bytes → Bytes) (iface : Bytes) (ls : List Bytes) {d : Device} → All IsBytes ls
    → userspace_get_device sys derive iface ls ≡ got d
    → IsRuntime d
unfolding userspace_get_device
userspace_get_device-IsRuntime sys ok derive iface ls h e =
    get_lines-IsRuntime sys ok derive ls _ h (zero_device-IsState iface) e
