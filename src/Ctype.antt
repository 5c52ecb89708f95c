-- ===== src/Ctype.antt =====
-- src/ctype.h: the branch-free character classes. Their argument is an `int`, here its 32-bit
-- pattern; the callers pass a `char`, that is `char_int b` for a byte `b`, or EOF.
use wireguard_tools.Prelude.{
  ℕ, ◌+◌, ◌-◌, ◌<◌, bit_and, bit_or, ◌≡◌, refl, Bool, true, false, not, ◌&&◌, ◌||◌, leb, ◌==◌, u8,
  sub32, shr, char_int, all_below, all_below_sound,
}

unfoldable pub char_is_space : ℕ → Bool
char_is_space c =
    let d = u8 (sub32 c 9) in not (bit_and (shr 0x80001F (bit_and d 31)) (shr 1 (shr d 5)) == 0)

unfoldable pub char_is_digit : ℕ → Bool
char_is_digit c = not (shr (bit_and (sub32 (b'0' - 1) c) (sub32 c (b'9' + 1))) 31 == 0)

unfoldable pub char_is_alpha : ℕ → Bool
char_is_alpha c =
    not (shr (bit_and (sub32 (b'a' - 1) (bit_or c 32)) (sub32 (bit_or c 32) (b'z' + 1))) 31 == 0)

-- The classes as `isspace`, `isdigit` and `isalpha` define them in the C locale.
abbrev pub is_space : ℕ → Bool
is_space b = leb 9 b && leb b 13 || b == b' '

abbrev pub is_digit : ℕ → Bool
is_digit b = leb b'0' b && leb b b'9'

abbrev pub is_alpha : ℕ → Bool
is_alpha b = leb b'a' b && leb b b'z' || leb b'A' b && leb b b'Z'

-- Boolean equality, for tables.
abbrev same : Bool → Bool → Bool
same true b = b
same false b = not b

same_eq : (a b : Bool) → same a b ≡ true → a ≡ b
same_eq true true h = refl
same_eq true false h = cc
same_eq false true h = cc
same_eq false false h = refl

abbrev agree : (ℕ → Bool) → (ℕ → Bool) → ℕ → Bool
agree f g b = same (f (char_int b)) (g b)

space_table : all_below 256 (agree char_is_space is_space) ≡ true
unfolding all_below char_is_space
space_table = refl

digit_table : all_below 256 (agree char_is_digit is_digit) ≡ true
unfolding all_below char_is_digit
digit_table = refl

alpha_table : all_below 256 (agree char_is_alpha is_alpha) ≡ true
unfolding all_below char_is_alpha
alpha_table = refl

-- On every `char`, negative ones included, the three branch-free tests give the C locale's answer.
pub ctype_classes :
    (b : ℕ)
    → b < 256
    → (char_is_space (char_int b) ≡ is_space b)
      × (char_is_digit (char_int b) ≡ is_digit b)
      × (char_is_alpha (char_int b) ≡ is_alpha b)
ctype_classes b h = (
  same_eq _ _ (all_below_sound 256 (agree char_is_space is_space) b space_table h),
  same_eq _ _ (all_below_sound 256 (agree char_is_digit is_digit) b digit_table h),
  same_eq _ _ (all_below_sound 256 (agree char_is_alpha is_alpha) b alpha_table h),
)
