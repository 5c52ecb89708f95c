-- ===== src/Bits.antt =====
-- Laws of `&` and `|` on native numbers, at every width: what the masks, shifts and field
-- combinations of the encoders and of the netmask check amount to as arithmetic.
mod Digit
use Digit.{bit_or_digit, bit_and_digit}
use Prim.Native.Nat.{bit_or-bitwise}
use mathlib.Core.Path.{ap}
use native.Mathlib.Nat.{pow-suc, one-le-pow}
use wireguard_tools.Prelude.{
  ℕ, zero, suc, ◌+◌, ◌-◌, ◌*◌, ◌/◌, ◌%◌, ◌^◌, ◌≤◌, ◌<◌, bit_and, bit_or, ◌≡◌, refl, arith, ◌⊎◌,
}

-- Each law goes from the halves to the whole, with the first number below the fuel.
or_zero_fuel : (n a : ℕ) → a < n → bit_or a 0 ≡ a
or_zero_fuel zero a h = absurd (omega arith)
or_zero_fuel (suc n) zero h = refl
or_zero_fuel (suc n) (suc a) h =
    omega (arith, bit_or_digit (suc a) 0, or_zero_fuel n (suc a / 2) (omega arith))

pub bit_or-zero : (a : ℕ) → bit_or a 0 ≡ a
bit_or-zero a = or_zero_fuel (suc a) a (omega arith)

and_zero_fuel : (n a : ℕ) → a < n → bit_and a 0 ≡ 0
and_zero_fuel zero a h = absurd (omega arith)
and_zero_fuel (suc n) zero h = refl
and_zero_fuel (suc n) (suc a) h =
    omega (arith, bit_and_digit (suc a) 0, and_zero_fuel n (suc a / 2) (omega arith))

pub bit_and-zero : (a : ℕ) → bit_and a 0 ≡ 0
bit_and-zero a = and_zero_fuel (suc a) a (omega arith)

-- `|` only adds bits to either side.
left_le_fuel : (n a b : ℕ) → a < n → (a ≤ bit_or a b) × (b ≤ bit_or a b)
left_le_fuel zero a b h = absurd (omega arith)
left_le_fuel (suc n) zero b h = omega (arith, bit_or-bitwise 0 b)
left_le_fuel (suc n) (suc a) b h =
    omega (arith, bit_or_digit (suc a) b, left_le_fuel n (suc a / 2) (b / 2) (omega arith))

pub le-bit_or : (a b : ℕ) → (a ≤ bit_or a b) × (b ≤ bit_or a b)
le-bit_or a b = left_le_fuel (suc a) a b (omega arith)

double_pow : (q k : ℕ) → q * 2 ^ suc k ≡ 2 * (q * 2 ^ k)
double_pow q k = omega (arith, ap (λ (p : ℕ). q * p) (pow-suc 2 k))

-- `(q << k) | r` for an `r` of at most `k` bits.
pub bit_or_shifted : (k q r : ℕ) → r < 2 ^ k → bit_or (q * 2 ^ k) r ≡ q * 2 ^ k + r
bit_or_shifted zero q r h = ground (arith, bit_or-zero q)
bit_or_shifted (suc k) q r h = ground (
  arith,
  double_pow q k,
  bit_or_digit (q * 2 ^ suc k) r,
  bit_or_shifted k q (r / 2) (omega (arith, pow-suc 2 k)),
)

and_ones_parts : (k q r : ℕ) → r < 2 ^ k → bit_and (q * 2 ^ k + r) (2 ^ k - 1) ≡ r
and_ones_parts zero q r h = omega (arith, bit_and-zero (q * 1 + r))
and_ones_parts (suc k) q r h = ground (
  arith,
  double_pow q k,
  pow-suc 2 k,
  one-le-pow k 2,
  bit_and_digit (q * 2 ^ suc k + r) (2 ^ suc k - 1),
  and_ones_parts k q (r / 2) (omega (arith, pow-suc 2 k)),
)

-- `a & (2^k - 1)` keeps the `k` low bits.
pub bit_and_ones : (k a : ℕ) → bit_and a (2 ^ k - 1) ≡ a % 2 ^ k
bit_and_ones k a = ground (arith, one-le-pow k 2, and_ones_parts k (a / 2 ^ k) (a % 2 ^ k))

-- `|` stays within the width of its arguments.
pub bit_or-lt : (k a b : ℕ) → a < 2 ^ k → b < 2 ^ k → bit_or a b < 2 ^ k
bit_or-lt zero a b ha hb =
    let a0 : a ≡ 0 = omega arith in
    let b0 : b ≡ 0 = omega arith in rw (a0, b0) (omega (arith, bit_or-zero 0))
bit_or-lt (suc k) a b ha hb = omega (
  arith,
  pow-suc 2 k,
  bit_or_digit a b,
  bit_or-lt k (a / 2) (b / 2) (omega (arith, pow-suc 2 k)) (omega (arith, pow-suc 2 k)),
)
