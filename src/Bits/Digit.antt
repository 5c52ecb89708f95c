-- ===== src/Bits/Digit.antt =====
-- The equation of `&` and `|` for the lowest binary digit.
use Prim.Native.Nat.{min, max, digits, bit_and-bitwise, bit_or-bitwise}
use wireguard_tools.Prelude.{
  ℕ, zero, suc, ◌+◌, ◌*◌, ◌/◌, ◌%◌, ◌≤◌, bit_and, bit_or, ◌≡◌, refl, ap, arith,
}

-- Two counts of digits to go give the same result once both cover the first number.
counts_agree :
    (z : ℕ → ℕ) (f : ℕ → ℕ → ℕ) (k l a b : ℕ) → a ≤ k → a ≤ l → digits z f k a b ≡ digits z f l a b
counts_agree z f zero l (suc a) b hk hl = absurd (omega arith)
counts_agree z f (suc k) zero (suc a) b hk hl = absurd (omega arith)
counts_agree z f zero zero zero b hk hl = refl
counts_agree z f zero (suc l) zero b hk hl = refl
counts_agree z f (suc k) zero zero b hk hl = refl
counts_agree z f (suc k) (suc l) zero b hk hl = refl
counts_agree z f (suc k) (suc l) (suc a) b hk hl =
    ap (λ (t : ℕ). t * 2 + f (suc a % 2) (b % 2))
      (counts_agree z f k l (suc a / 2) (b / 2) (omega arith) (omega arith))

or_fuel : (a b : ℕ) → digits (λ y. y) max a (suc a / 2) (b / 2) ≡ bit_or (suc a / 2) (b / 2)
or_fuel a b = omega (
  arith,
  bit_or-bitwise (suc a / 2) (b / 2),
  counts_agree (λ y. y) max a (suc a / 2) (suc a / 2) (b / 2) (omega arith) (omega arith),
)

and_fuel : (a b : ℕ) → digits (λ y. 0) min a (suc a / 2) (b / 2) ≡ bit_and (suc a / 2) (b / 2)
and_fuel a b = omega (
  arith,
  bit_and-bitwise (suc a / 2) (b / 2),
  counts_agree (λ y. 0) min a (suc a / 2) (suc a / 2) (b / 2) (omega arith) (omega arith),
)

pub bit_or_digit : (a b : ℕ) → bit_or a b ≡ bit_or (a / 2) (b / 2) * 2 + max (a % 2) (b % 2)
bit_or_digit zero b = omega (arith, bit_or-bitwise 0 b, bit_or-bitwise 0 (b / 2))
bit_or_digit (suc a) b = omega (arith, bit_or-bitwise (suc a) b, or_fuel a b)

pub bit_and_digit : (a b : ℕ) → bit_and a b ≡ bit_and (a / 2) (b / 2) * 2 + min (a % 2) (b % 2)
bit_and_digit zero b = omega (arith, bit_and-bitwise 0 b, bit_and-bitwise 0 (b / 2))
bit_and_digit (suc a) b = omega (arith, bit_and-bitwise (suc a) b, and_fuel a b)
