-- ===== src/Encoding/Flag.antt =====
-- src/encoding.c: the error flag that the key readers gather by `|=`, and its branch-free test.
use wireguard_tools.Bits.{le-bit_or, bit_or-lt}
use wireguard_tools.Prelude.{
  ℕ, ◌<◌, bit_and, bit_or, Bool, true, ◌≡◌, refl, arith, ◌==◌, if◌then◌else◌, all_below,
  all_below_sound, u8, sub32, sar32,
}

-- `1 & ((ret - 1) >> 8)`
unfoldable pub is_zero_flag : ℕ → Bool
is_zero_flag ret = bit_and 1 (sar32 (sub32 ret 1) 8) == 1

-- The answer is yes exactly at a flag of 0.
flag_row : ℕ → Bool
flag_row r = if is_zero_flag r then r == 0 else true

flag_table : all_below 256 flag_row ≡ true
unfolding all_below flag_row is_zero_flag
flag_table = refl

pub flag_zero : (r : ℕ) → r < 256 → is_zero_flag r ≡ true → r ≡ 0
unfolding flag_row
flag_zero r h e = let row = all_below_sound 256 flag_row r flag_table h in ground arith

-- A flag of 0 after an or was 0 before, and so was what it was joined with.
pub or_zero : (a b : ℕ) → a < 256 → b < 256 → u8 (bit_or a b) ≡ 0 → (a ≡ 0) × (b ≡ 0)
or_zero a b ha hb e = omega (arith, le-bit_or a b, bit_or-lt 8 a b ha hb)
