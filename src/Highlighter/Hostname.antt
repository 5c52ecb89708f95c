-- ===== src/Highlighter/Hostname.antt =====
-- contrib/highlighter/highlighter.c: what `is_valid_hostname` asks of a name.
use wireguard_tools.Highlighter.Validate.{
  is_decimal, is_alphabet, first_or, last_or, hostname_from, is_valid_hostname,
}
use wireguard_tools.Prelude.{
  ℕ, suc, ◌+◌, ◌-◌, Bool, false, not, ◌&&◌, ◌||◌, ◌≡◌, ◌∙◌, refl, ap, any_count, arith, Option,
  none, some, [], ◌∷◌, ltb, ◌==◌, if◌then◌else◌, all, any, count, length, Bytes, Bool-cases, inl,
  inr,
}

abbrev pub host_char : ℕ → Bool
host_char c = is_decimal c || (c == b'.' || (is_alphabet c || c == b'-'))

abbrev dot : ℕ → Bool
dot c = not (is_decimal c) && c == b'.'

-- A letter or a hyphen, in a name.
abbrev pub is_letter : ℕ → Bool
is_letter c = not (is_decimal c) && not (c == b'.')

parts : (s : Bytes) → length s ≡ count is_decimal s + count dot s + count is_letter s
parts [] = refl
parts (c ∷ s) = ground (arith, parts s)

-- The loop, the test for two dots in a row included.
hostname_from_lem :
    (num_digit num_entity : ℕ) (prev : Option ℕ) (s : Bytes)
    → hostname_from num_digit num_entity prev s
      ≡ (all host_char s && not (num_digit + count is_decimal s == num_entity - count dot s))
unfolding hostname_from
hostname_from_lem num_digit num_entity prev [] = ground arith
hostname_from_lem num_digit num_entity prev (c ∷ s) = elim (Bool-cases (is_decimal c)) [
  | inl digit ↦ ground (arith, hostname_from_lem (suc num_digit) num_entity (some c) s)
  | inr other ↦ elim (Bool-cases (c == b'.')) [
    | inl point ↦ ground (arith, hostname_from_lem num_digit (num_entity - 1) (some c) s)
    | inr letter ↦ ground (arith, hostname_from_lem num_digit num_entity (some c) s)
  ]
]

guards :
    (a b c r : Bool)
    → (if a then false else if b then false else if c then false else r)
      ≡ (not a && (not b && (not c && r)))
guards a b c r = ground arith

letters : (s : Bytes) → hostname_from 0 (length s) none s ≡ (all host_char s && any is_letter s)
letters s =
    let some_letter : not (0 + count is_decimal s == length s - count dot s) ≡ any is_letter s =
      ground (arith, any_count is_letter s, parts s) in
    hostname_from_lem 0 (length s) none s ∙ ap (λ b. all host_char s && b) some_letter

-- A name is valid exactly if it has 1 to 63 characters, does not begin or end with a hyphen or a dot,
-- consists of decimal digits, letters, hyphens and dots, and is not made of digits and dots only; dots
-- may stand side by side.
pub is_valid_hostname_lem :
    (s : Bytes)
    → is_valid_hostname s ≡ (
        not (ltb 63 (length s) || length s == 0)
        && (not (first_or s 0 == b'-' || last_or s 0 == b'-')
            && (not (first_or s 0 == b'.' || last_or s 0 == b'.')
                && (all host_char s && any is_letter s))))
unfolding is_valid_hostname
is_valid_hostname_lem s =
    guards (ltb 63 (length s) || length s == 0) (first_or s 0 == b'-' || last_or s 0 == b'-')
      (first_or s 0 == b'.' || last_or s 0 == b'.') (hostname_from 0 (length s) none s)
    ∙ rw (letters s) refl
