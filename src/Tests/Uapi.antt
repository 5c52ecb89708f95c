-- ===== src/Tests/Uapi.antt =====
-- src/ipc-uapi.h on a concrete device and answer.
use wireguard_tools.Uapi.Read.{get_lines, get_line, key_value, device_field, peer_field, get_field}
use wireguard_tools.Libc.Text.{split_first, contains}
use wireguard_tools.Config.Keys.{ends_newline, drop_last}
use wireguard_tools.Config.Command.{find_word}
use wireguard_tools.Uapi.Get.{get_device_key, fits_family, get_address, hex_key, num}
use wireguard_tools.Encoding.Hex.{key_from_hex, decode_pairs, nibble_flag, decode_nibble}
use wireguard_tools.Encoding.Flag.{is_zero_flag}
use wireguard_tools.Config.Line.{update_last}
use wireguard_tools.Ctype.{char_is_digit}
use wireguard_tools.Libc.Number.{skip_0x, digit_value, read_digits, read_sign, skip_spaces, strtoul}
use wireguard_tools.Config.Outcome.{done}
use wireguard_tools.Containers.{Device, zero_device, inet}
use wireguard_tools.Libc.Print.{print_dec}
use wireguard_tools.Prelude.{
  equal, List, Bytes, IsBytes, refl, ◌≢◌, ◌≡◌, arith, true, false, none, [], ◌∷◌, ◌++◌, codes, All,
}
use wireguard_tools.Tests.Setup.{test_key, lines-IsBytes, test_system, test_system-IsSystem}
use wireguard_tools.Uapi.Errno.{Announced, last_errno, userspace_get_device-Announced}
use wireguard_tools.Uapi.Get.{get_allowedip}
use wireguard_tools.Uapi.NoCrash.{userspace_get_device-not_crashed}
use wireguard_tools.Uapi.Prefix.{get_allowedip_wraps}
use wireguard_tools.Uapi.Read.{listed_peer, got, crashed, userspace_get_device}
use wireguard_tools.Uapi.Returned.{userspace_get_device-IsRuntime}
use wireguard_tools.Uapi.Runtime.{IsRuntime}
use wireguard_tools.Uapi.Request.{Names}

abbrev plain_names : Names
plain_names = record { name_info = λ a. none; ntop4 = λ ip. none; ntop6 = λ ip. none }

abbrev told : List Bytes
told =
    (codes "private_key=0102030405060708090a0b0c0d0e0f101112131415161718191a1b1c1d1e1f20"
      ++ b'\n' ∷ [])
    ∷ (codes "public_key=0102030405060708090a0b0c0d0e0f101112131415161718191a1b1c1d1e1f20"
        ++ b'\n' ∷ [])
    ∷ (codes "allowed_ip=10.0.0.0/8" ++ b'\n' ∷ [])
    ∷ (codes "rx_bytes=1500" ++ b'\n' ∷ [])
    ∷ (codes "errno=0" ++ b'\n' ∷ [])
    ∷ (b'\n' ∷ [])
    ∷ []

told-IsBytes : All IsBytes told
told-IsBytes = lines-IsBytes told refl

abbrev told_device : Device
told_device = record zero_device {
  name = codes "wg0";
  private_key = test_key;
  public_key = test_key;
  flags = record (zero_device.flags) { has_private_key = true; has_public_key = true };
  peers =
      record (listed_peer test_key) {
        rx_bytes = 1500;
        allowedips =
            record { family = inet; ip = 10 ∷ 0 ∷ 0 ∷ 0 ∷ []; cidr = 8; remove_me = false } ∷ [];
      }
      ∷ [];
}

got_told : userspace_get_device test_system (λ k. k) (codes "wg0") told ≡ got told_device
unfolding userspace_get_device get_lines equal get_line split_first ends_newline key_value
    device_field find_word get_device_key key_from_hex drop_last decode_pairs is_zero_flag
    nibble_flag peer_field update_last char_is_digit decode_nibble digit_value read_digits read_sign
    skip_spaces strtoul contains fits_family get_address get_allowedip hex_key num get_field skip_0x
got_told = refl

userspace_get_device-IsRuntime_example : IsRuntime told_device
userspace_get_device-IsRuntime_example =
    userspace_get_device-IsRuntime test_system test_system-IsSystem (λ k. k) (codes "wg0") told
      {d = told_device} told-IsBytes got_told

userspace_get_device-not_crashed_example :
    userspace_get_device test_system
      (λ k. k)
      (codes "wg0")
      ((codes "rx_bytes=1" ++ b'\n' ∷ []) ∷ told)
    ≢ crashed
userspace_get_device-not_crashed_example =
    userspace_get_device-not_crashed test_system (λ k. k) (codes "wg0")
      ((codes "rx_bytes=1" ++ b'\n' ∷ []) ∷ told)

userspace_get_device-Announced_example :
    Announced (last_errno told none) (userspace_get_device test_system (λ k. k) (codes "wg0") told)
userspace_get_device-Announced_example =
    userspace_get_device-Announced test_system (λ k. k) (codes "wg0") told

get_allowedip_wraps_example :
    get_allowedip test_system (codes "10.0.0.0" ++ b'/' ∷ print_dec 288)
    ≡ done (record { family = inet; ip = 10 ∷ 0 ∷ 0 ∷ 0 ∷ []; cidr = 32; remove_me = false })
unfolding contains
get_allowedip_wraps_example =
    get_allowedip_wraps test_system (codes "10.0.0.0") (10 ∷ 0 ∷ 0 ∷ 0 ∷ []) 288 refl refl refl
      (omega arith) (omega arith)
