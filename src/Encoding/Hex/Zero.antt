-- ===== src/Encoding/Hex/Zero.antt =====
-- src/encoding.c: `key_is_zero`.
use wireguard_tools.Encoding.Flag.{is_zero_flag, flag_zero, or_zero}
use wireguard_tools.Encoding.Hex.{is_zero_from, key_is_zero}
use wireguard_tools.Prelude.{
  ℕ, ◌<◌, bit_or, true, ◌≡◌, ◌↔◌, refl, arith, u8, [], ◌∷◌, Bytes, IsBytes, All,
}

is_zero_from_sound :
    (acc : ℕ) (key : Bytes)
    → acc < 256
    → IsBytes key
    → is_zero_from acc key ≡ true
    → (acc ≡ 0) × All (λ b. b ≡ 0) key
unfolding is_zero_from
is_zero_from_sound acc [] ha h e = (flag_zero acc ha e, tt)
is_zero_from_sound acc (k ∷ key) ha (hk, h) e =
    let (joined, rest) = is_zero_from_sound (u8 (bit_or acc k)) key (omega arith) h e in
    let (a0, k0) = or_zero acc k ha hk joined in (a0, (k0, rest))

is_zero_from_zeros : (key : Bytes) → All (λ b. b ≡ 0) key → is_zero_from 0 key ≡ true
unfolding is_zero_from is_zero_flag
is_zero_from_zeros [] h = refl
is_zero_from_zeros (k ∷ key) (e, h) = rw e (is_zero_from_zeros key h)

-- `key_is_zero` answers yes exactly for the keys whose bytes are all 0.
pub key_is_zero_iff : (key : Bytes) → IsBytes key → (key_is_zero key ≡ true) ↔ All (λ b. b ≡ 0) key
unfolding key_is_zero
key_is_zero_iff key h =
    (λ e. (is_zero_from_sound 0 key (omega arith) h e).1, is_zero_from_zeros key)
