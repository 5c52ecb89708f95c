-- ===== src/Libc/Print.antt =====
-- `printf` of an unsigned number by `%u` and `%x`, and `strtoul` of what it prints.
use native.Mathlib.Nat.{div-lt_self}
use wireguard_tools.Libc.Number.{
  digit_value, read_digits, skip_spaces, read_sign, skip_0x, strtoul, clamp, starts_digit,
}
use wireguard_tools.Prelude.{
  ℕ, zero, suc, ◌+◌, ◌-◌, ◌*◌, ◌/◌, ◌%◌, ◌^◌, ◌<◌, ◌≤◌, ◌≡◌, ◌∙◌, refl, ap, arith, Bool, true,
  false, some, [], ◌∷◌, ltb, if◌then◌else◌, Bytes, Bool-cases, inl, inr,
}

-- The character of a digit, lower case.
unfoldable pub digit_char : ℕ → ℕ
digit_char d = if ltb d 10 then b'0' + d else 87 + d

-- The digits of `n` in front of `acc`; `fuel` is more than `n`, hence enough.
unfoldable pub print_onto : ℕ → ℕ → ℕ → Bytes → Bytes
print_onto base zero n acc = acc
print_onto base (suc fuel) n acc =
    let rest = print_onto base fuel (n / base) (digit_char (n % base) ∷ acc) in
    if ltb n base then digit_char n ∷ acc else rest

unfoldable pub print_base : ℕ → ℕ → Bytes
print_base base n = print_onto base (suc n) n []

-- `%u` and `%x`
abbrev pub print_dec : ℕ → Bytes
print_dec = print_base 10

abbrev pub print_hex : ℕ → Bytes
print_hex = print_base 16

pub digit_value-digit_char :
    (base d : ℕ) → d < base → base ≤ 16 → digit_value base (digit_char d) ≡ some d
unfolding digit_value digit_char
digit_value-digit_char base d h k = ground arith

read_digits-digit_char :
    (base a d : ℕ) (s : Bytes)
    → d < base
    → base ≤ 16
    → read_digits base a (digit_char d ∷ s) ≡ read_digits base (a * base + d) s
unfolding read_digits
read_digits-digit_char base a d s h k = rw (digit_value-digit_char base d h k, read_digits)

div_lt : (base n : ℕ) → 2 ≤ base → base ≤ n → n / base < n
div_lt base n lo h = div-lt_self (omega arith) lo

read_digits-print_onto :
    (base fuel n : ℕ) (acc : Bytes)
    → 2 ≤ base
    → base ≤ 16
    → n < fuel
    → read_digits base 0 (print_onto base fuel n acc) ≡ read_digits base n acc
unfolding print_onto
read_digits-print_onto base zero n acc lo hi h = absurd (omega arith)
read_digits-print_onto base (suc fuel) n acc lo hi h = elim (Bool-cases (ltb n base)) [
  | inl small ↦
      rw small (read_digits-digit_char base 0 n acc (ground arith) hi ∙ rw zero_mul_add refl)
  | inr large ↦ rw large (
      read_digits-print_onto base fuel (n / base) (digit_char (n % base) ∷ acc) lo hi
        (ground (arith, div_lt base n))
      ∙ read_digits-digit_char base (n / base) (n % base) acc (ground arith) hi
      ∙ rw whole refl)
]
  where
    zero_mul_add : 0 * base + n ≡ n
    zero_mul_add = omega arith

    whole : n / base * base + n % base ≡ n
    whole = ground arith

-- What is printed starts with a digit.
pub record Digits (base : ℕ) (s : Bytes) : Type 0 where
  pub head : ℕ
  pub tail : Bytes
  pub head_lt : head < base
  pub cons : s ≡ digit_char head ∷ tail

print_onto-Digits :
    (base fuel n : ℕ) (acc : Bytes) → 2 ≤ base → n < fuel → Digits base (print_onto base fuel n acc)
unfolding print_onto
print_onto-Digits base zero n acc lo h = absurd (omega arith)
print_onto-Digits base (suc fuel) n acc lo h = elim (Bool-cases (ltb n base)) [
  | inl small ↦ rw small (record { head = n; tail = acc; head_lt = ground arith; cons = refl })
  | inr large ↦ rw large (
      print_onto-Digits base fuel (n / base) (digit_char (n % base) ∷ acc) lo
        (ground (arith, div_lt base n)))
]

-- The stages of `strtoul` one behind the other.
strtoul_stages :
    (base : ℕ) (s u v r : Bytes) (negative : Bool) (n : ℕ)
    → read_sign (skip_spaces s) ≡ (negative, u)
    → skip_0x base u ≡ v
    → starts_digit base v ≡ true
    → read_digits base 0 v ≡ (n, r)
    → strtoul base s ≡ (clamp negative n, r)
unfolding strtoul
strtoul_stages base s u v r negative n sign prefix starts digits =
    rw (sign, prefix, starts, digits) refl

clamp_small : (n : ℕ) → n < 2 ^ 64 → clamp false n ≡ n
clamp_small n h = ground arith

clamp_negative : (n : ℕ) → 0 < n → n < 2 ^ 64 → clamp true (2 ^ 64 - n) ≡ n
clamp_negative n lo h = ground arith

-- A decimal digit is no white space and no sign.
no_sign :
    (d : ℕ) (s : Bytes)
    → d < 10
    → read_sign (skip_spaces (digit_char d ∷ s)) ≡ (false, digit_char d ∷ s)
unfolding read_sign skip_spaces digit_char
no_sign d s h = ground arith

pub starts_digit-digit_char :
    (base d : ℕ) (s : Bytes) → d < base → base ≤ 16 → starts_digit base (digit_char d ∷ s) ≡ true
starts_digit-digit_char base d s h k = rw (digit_value-digit_char base d h k, starts_digit) refl

skip_0x_ten : (s : Bytes) → skip_0x 10 s ≡ s
unfolding skip_0x
skip_0x_ten [] = refl
skip_0x_ten (z ∷ []) = refl
skip_0x_ten (z ∷ x ∷ s) = refl

skip_0x_sixteen : (s : Bytes) → starts_digit 16 s ≡ true → skip_0x 16 (b'0' ∷ b'x' ∷ s) ≡ s
unfolding skip_0x
skip_0x_sixteen s h = rw h refl

pub print_base_digits :
    (base n : ℕ) → 2 ≤ base → base ≤ 16 → read_digits base 0 (print_base base n) ≡ (n, [])
unfolding print_base read_digits
print_base_digits base n lo hi = read_digits-print_onto base (suc n) n [] lo hi (omega arith)

pub print_base-Digits : (base n : ℕ) → 2 ≤ base → Digits base (print_base base n)
unfolding print_base
print_base-Digits base n lo = print_onto-Digits base (suc n) n [] lo (omega arith)

-- `strtoul` in base 10 reads back what `%u` prints, to the end of the text.
pub strtoul-print_dec : (n : ℕ) → n < 2 ^ 64 → strtoul 10 (print_dec n) ≡ (n, [])
strtoul-print_dec n h =
    let g = print_base-Digits 10 n (omega arith) in
    let text = print_dec n in
    strtoul_stages 10 text text text [] false n (rw g.cons (no_sign g.head g.tail g.head_lt))
      (skip_0x_ten text)
      (rw g.cons (starts_digit-digit_char 10 g.head g.tail g.head_lt (omega arith)))
      (print_base_digits 10 n (omega arith) (omega arith))
    ∙ ap (λ (m : ℕ). (m, [])) (clamp_small n h)

-- In base 16, behind the prefix `0x`, `strtoul` reads back what `%x` prints.
pub strtoul-print_hex : (n : ℕ) → n < 2 ^ 64 → strtoul 16 (b'0' ∷ b'x' ∷ print_hex n) ≡ (n, [])
strtoul-print_hex n h =
    let g = print_base-Digits 16 n (omega arith) in
    let text = print_hex n in
    let starts : starts_digit 16 text ≡ true =
      rw g.cons (starts_digit-digit_char 16 g.head g.tail g.head_lt (omega arith)) in
    strtoul_stages 16 (b'0' ∷ b'x' ∷ text) (b'0' ∷ b'x' ∷ text) text [] false n
      (unfold read_sign skip_spaces in refl) (skip_0x_sixteen text starts) starts
      (print_base_digits 16 n (omega arith) (omega arith))
    ∙ ap (λ (m : ℕ). (m, [])) (clamp_small n h)

-- Behind a minus sign, `strtoul` takes the decimal 2^64 - n for n.
pub strtoul-minus-print_dec :
    (n : ℕ) → 0 < n → n < 2 ^ 64 → strtoul 10 (b'-' ∷ print_dec (2 ^ 64 - n)) ≡ (n, [])
strtoul-minus-print_dec n lo h =
    let text = print_dec (2 ^ 64 - n) in
    let g = print_base-Digits 10 (2 ^ 64 - n) (omega arith) in
    strtoul_stages 10 (b'-' ∷ text) text text [] true (2 ^ 64 - n)
      (unfold read_sign skip_spaces in refl) (skip_0x_ten text)
      (rw g.cons (starts_digit-digit_char 10 g.head g.tail g.head_lt (omega arith)))
      (print_base_digits 10 (2 ^ 64 - n) (omega arith) (omega arith))
    ∙ ap (λ (m : ℕ). (m, [])) (clamp_negative n lo h)
