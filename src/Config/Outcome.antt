-- ===== src/Config/Outcome.antt =====
-- How a parser of src/config.c ends. `false` and NULL are `fail`: every caller up to
-- `config_read_line`, `config_read_finish` and `config_read_cmd` then frees the device, so no state
-- comes with it.

use mathlib.Core.Path.{subst}
use wireguard_tools.Prelude.{◌≡◌, refl}

pub data Outcome {ℓ} (A : Type ℓ) : Type ℓ where
  done : A → Outcome A
  fail : Outcome A
  -- `exit(1)` in `parse_dns_retries`
  exited : Outcome A
  -- the name resolver still asks for another attempt when the given number of them is used up
  waiting : Outcome A
  -- an endpoint of the daemon's answer is not resolved, in src/ipc-uapi.h
  unreachable : Outcome A
  -- a NULL pointer is followed
  fault : Outcome A

infixl 5 ◌>>=◌
abbrev pub ◌>>=◌ {ℓ κ} : {A : Type ℓ} {B : Type κ} → Outcome A → (A → Outcome B) → Outcome B
done a >>= f = f a
fail >>= f = fail
exited >>= f = exited
waiting >>= f = waiting
unreachable >>= f = unreachable
fault >>= f = fault

-- Inversion of a chain that returns.
pub >>=-eq-done {ℓ κ} :
    {A : Type ℓ} {B : Type κ} (m : Outcome A) (f : A → Outcome B) {b : B}
    → (m >>= f) ≡ done b
    → (a : A) × (m ≡ done a) × (f a ≡ done b)
>>=-eq-done (done a) f h = (a, refl, h)
>>=-eq-done fail f h = cc
>>=-eq-done exited f h = cc
>>=-eq-done waiting f h = cc
>>=-eq-done unreachable f h = cc
>>=-eq-done fault f h = cc

pub done-injective {ℓ} : {A : Type ℓ} {a b : A} → done a ≡ done b → a ≡ b
done-injective h = cc

-- What is returned has a property that every result of the last step has.
pub returned {ℓ κ μ} :
    {A : Type ℓ} {B : Type κ} (P : B → Type μ) (m : Outcome A) (f : A → B) {b : B}
    → (m >>= λ a. done (f a)) ≡ done b
    → ((a : A) → m ≡ done a → P (f a))
    → P b
returned P (done a) f e h = subst P (done-injective e) (h a refl)
returned P fail f e h = absurd cc
returned P exited f e h = absurd cc
returned P waiting f e h = absurd cc
returned P unreachable f e h = absurd cc
returned P fault f e h = absurd cc
