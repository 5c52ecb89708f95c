-- ===== src/Config/AllowedIps.antt =====
-- src/config.c: `parse_ip`, `parse_ip_prefix` and `parse_allowedips`. The warning about host bits
-- that follows `validate_netmask` goes to stderr and changes nothing.
pub mod Entries
use wireguard_tools.Config.Numbers.{is_empty, first_byte}
use wireguard_tools.Config.Outcome.{Outcome, done, fail, ◌>>=◌}
use wireguard_tools.Config.System.{System}
use wireguard_tools.Containers.{Family, unspec, inet, inet6, other, AllowedIp, Peer}
use wireguard_tools.Ctype.{char_is_digit}
use wireguard_tools.Libc.Number.{strtoul}
use wireguard_tools.Libc.Text.{contains, split_first, split_all}
use wireguard_tools.Prelude.{
  ℕ, Bool, true, false, not, ◌&&◌, ◌||◌, Option, none, some, List, [], ◌∷◌, ◌++◌, ltb, ◌==◌,
  if◌then◌else◌, Bytes, char_int, u8,
}

-- The family and the address bytes.
unfoldable pub parse_ip : System → Bytes → Outcome (Family × Bytes)
parse_ip sys value =
    if contains b':' value
    then elim (sys.pton6 value) [ some a ↦ done (inet6, a) | none ↦ fail ]
    else elim (sys.pton4 value) [ some a ↦ done (inet, a) | none ↦ fail ]

abbrev is_v4 : Family → Bool
is_v4 inet = true
is_v4 _ = false

abbrev is_v6 : Family → Bool
is_v6 inet6 = true
is_v6 _ = false

-- The prefix length: the text behind the slash, or the full width where there is none.
unfoldable pub parse_cidr : Family → Option Bytes → Outcome ℕ
parse_cidr family (some mask) =
    let (cidr, rest) = strtoul 10 mask in
    if not (char_is_digit (char_int (first_byte mask)))
    then fail
    else if not (is_empty rest) || (ltb 32 cidr && is_v4 family || ltb 128 cidr && is_v6 family)
    then fail
    else done (u8 cidr)
parse_cidr inet none = done 32
parse_cidr inet6 none = done 128
parse_cidr unspec none = fail
parse_cidr other none = fail

-- A token without its sign, and whether the sign asks to remove the entry.
unfoldable pub unsigned : Bytes → Bytes × Bool
unsigned [] = ([], false)
unsigned (c ∷ s) = if c == b'-' then (s, true) else if c == b'+' then (s, false) else (c ∷ s, false)

-- An incremental change, which disables the replacement of all entries.
unfoldable pub is_incremental : Bytes → Bool
is_incremental s = first_byte s == b'-' || first_byte s == b'+'

-- `strsep(&mask, "/")`
unfoldable pub split_mask : Bytes → Bytes × Option Bytes
split_mask s = elim (split_first b'/' s) [ none ↦ (s, none) | some (ip, mask) ↦ (ip, some mask) ]

unfoldable pub parse_entry : System → Bytes → Outcome AllowedIp
unfolding unsigned split_mask
parse_entry sys token = do
  let (entry, remove) = unsigned token
  let (ip, mask) = split_mask entry
  x ← parse_ip sys ip
  cidr ← parse_cidr x.0 mask
  done (record { family = x.0; ip = x.1; cidr = cidr; remove_me = remove })

abbrev pub set_replace : Bool → Peer → Peer
set_replace r p = record p { flags = record (p.flags) { replace_allowedips = r } }

abbrev pub add_allowedip : AllowedIp → Peer → Peer
add_allowedip a p = record p { allowedips = p.allowedips ++ a ∷ [] }

-- The loop over the tokens.
unfoldable pub parse_entries : System → List Bytes → Peer → Outcome Peer
parse_entries sys [] p = done p
parse_entries sys (token ∷ tokens) p = do
  let q = if is_incremental token then set_replace false p else p
  a ← parse_entry sys token
  parse_entries sys tokens (add_allowedip a q)

unfoldable pub parse_allowedips : System → Peer → Bytes → Outcome Peer
unfolding parse_entries
parse_allowedips sys p value =
    if is_empty value
    then done (set_replace true p)
    else parse_entries sys (split_all b',' value) (set_replace true p)
