-- ===== src/Libc/Compare.antt =====
-- `memcmp` on two keys, and the signs that comparison functions return.
use wireguard_tools.Prelude.{◌≡◌, refl, arith, [], ◌∷◌, ltb, if◌then◌else◌, Bytes}

-- -1, 0 and 1
pub data Sign : Type 0 where
  before same after : Sign

unfoldable pub memcmp : Bytes → Bytes → Sign
memcmp [] [] = same
memcmp [] (y ∷ b) = before
memcmp (x ∷ a) [] = after
memcmp (x ∷ a) (y ∷ b) =
    let rest = memcmp a b in if ltb x y then before else if ltb y x then after else rest

pub memcmp-eq-same : (a b : Bytes) → memcmp a b ≡ same → a ≡ b
unfolding memcmp
memcmp-eq-same [] [] e = refl
memcmp-eq-same [] (y ∷ b) e = absurd cc
memcmp-eq-same (x ∷ a) [] e = absurd cc
memcmp-eq-same (x ∷ a) (y ∷ b) e = ground (arith, memcmp-eq-same a b)

pub memcmp_self : (a : Bytes) → memcmp a a ≡ same
unfolding memcmp
memcmp_self [] = refl
memcmp_self (x ∷ a) = ground (arith, memcmp_self a)

-- The other way round.
pub memcmp_swap : (a b : Bytes) → memcmp a b ≡ before → memcmp b a ≡ after
unfolding memcmp
memcmp_swap [] [] e = absurd cc
memcmp_swap [] (y ∷ b) e = refl
memcmp_swap (x ∷ a) [] e = absurd cc
memcmp_swap (x ∷ a) (y ∷ b) e = ground (arith, memcmp_swap a b)
