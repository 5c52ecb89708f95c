-- ===== src/Uapi/Prefix.antt =====
-- src/ipc-uapi.h: the prefix length of an allowed_ip line in its eight bits.
use wireguard_tools.Config.Numbers.RoundTrip.{Digits-char_is_digit}
use wireguard_tools.Config.Numbers.{first_byte}
use wireguard_tools.Config.Outcome.{done}
use wireguard_tools.Config.System.{System}
use wireguard_tools.Containers.{inet}
use wireguard_tools.Ctype.{char_is_digit}
use wireguard_tools.Libc.Print.{print_dec, print_base-Digits, strtoul-print_dec}
use wireguard_tools.Libc.Text.{contains, split_first-append}
use wireguard_tools.Prelude.{
  ℕ, ◌%◌, ◌^◌, ◌<◌, ◌≤◌, ◌≡◌, refl, arith, true, false, some, ◌∷◌, ◌++◌, ltb, Bytes, char_int,
}
use wireguard_tools.Uapi.Get.{get_allowedip, get_address, fits_family}

-- An address that `inet_pton` reads as IPv4, without a slash or a colon in its text, and a prefix
-- length below 2^64 whose remainder by 256 is at most 32 are taken with this remainder, 288 as 32 for
-- one.
pub get_allowedip_wraps :
    (sys : System) (ip a : Bytes) (n : ℕ)
    → contains b'/' ip ≡ false
    → contains b':' ip ≡ false
    → sys.pton4 ip ≡ some a
    → n < 2 ^ 64
    → n % 256 ≤ 32
    → get_allowedip sys (ip ++ b'/' ∷ print_dec n)
      ≡ done (record { family = inet; ip = a; cidr = n % 256; remove_me = false })
unfolding get_allowedip get_address fits_family
get_allowedip_wraps sys ip a n plain four found small fits =
    let digit : char_is_digit (char_int (first_byte (print_dec n))) ≡ true =
      Digits-char_is_digit (print_dec n) (print_base-Digits 10 n (omega arith)) in
    let low : ltb 32 (n % 256) ≡ false = ground arith in
    let address : get_address sys ip ≡ (inet, a) =
      rw (four, get_address) (rw (found, get_address) refl) in
    rw
      (
        split_first-append b'/' ip (print_dec n) plain,
        get_allowedip,
        digit,
        strtoul-print_dec n small,
        address,
        low,
      )
      refl
