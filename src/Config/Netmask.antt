-- ===== src/Config/Netmask.antt =====
-- src/config.c: `validate_netmask`, the check that an allowed IP has no host bits.
pub mod HostBits
use wireguard_tools.Containers.{Family, inet, inet6, AllowedIp}
use wireguard_tools.Prelude.{
  ℕ, zero, suc, ◌+◌, ◌-◌, ◌*◌, ◌^◌, bit_and, Bool, true, false, not, ltb, leb, ◌==◌, if◌then◌else◌,
  Bytes, get_or, shr,
}

-- `ntohl(ip[i])`
unfoldable pub word : Bytes → ℕ → ℕ
word ip i =
    ((get_or ip (4 * i) 0 * 256 + get_or ip (4 * i + 1) 0) * 256 + get_or ip (4 * i + 2) 0) * 256
    + get_or ip (4 * i + 3) 0

-- The mask of the bits of word `i` that lie behind the prefix.
unfoldable pub host_mask : ℕ → ℕ → ℕ
host_mask cidr i = if ltb (32 * i) cidr then shr (2 ^ 32 - 1) (cidr - 32 * i) else 2 ^ 32 - 1

-- The loop over the words from the last one down; its argument is one more than `i`.
unfoldable pub masked_words : Bytes → ℕ → ℕ → Bool
masked_words ip cidr zero = true
masked_words ip cidr (suc i) =
    if leb (32 * (i + 1)) cidr
    then true
    else if not (bit_and (word ip i) (host_mask cidr i) == 0)
    then false
    else masked_words ip cidr i

unfoldable pub validate_words : Family → Bytes → ℕ → Bool
validate_words inet ip cidr = masked_words ip cidr 1
validate_words inet6 ip cidr = masked_words ip cidr 4
validate_words _ ip cidr = true

unfoldable pub validate_netmask : AllowedIp → Bool
unfolding validate_words
validate_netmask a = validate_words a.family a.ip a.cidr
