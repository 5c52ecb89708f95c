-- ===== src/Showconf/Addresses.antt =====
-- src/showconf.c: the printed allowed IPs under `parse_allowedips` of src/config.c.
use mathlib.Core.List.{append-nil, append_assoc}
use wireguard_tools.Config.AllowedIps.Entries.{IsAllowedIp, FitsFamily}
use wireguard_tools.Config.AllowedIps.{
  parse_ip, parse_cidr, unsigned, is_incremental, split_mask, parse_entry, set_replace,
  add_allowedip, parse_entries, parse_allowedips,
}
use wireguard_tools.Config.Line.{strip_spaces, cleaned}
use wireguard_tools.Config.Numbers.{is_empty}
use wireguard_tools.Config.Numbers.RoundTrip.{Digits-char_is_digit}
use wireguard_tools.Config.Outcome.{done}
use wireguard_tools.Config.System.{System}
use wireguard_tools.Containers.{carried_ip, Family, unspec, inet, inet6, other, AllowedIp, Peer}
use wireguard_tools.Ctype.{char_is_space}
use wireguard_tools.Libc.Print.{print_dec, strtoul-print_dec, print_base-Digits}
use wireguard_tools.Libc.Text.{contains, split_first-append, split_all, span_until}
use wireguard_tools.Prelude.{
  ℕ, ◌≡◌, ◌∙◌, refl, sym, ap, arith, Bool, true, false, some, List, [], ◌∷◌, ◌++◌, map, All, ltb,
  Bytes,
}
use wireguard_tools.Showconf.Lines.{is_plain, cleaned-plain, append-ne-empty}
use wireguard_tools.Showconf.Plain.{print_base-plain, contains-print_base}
use wireguard_tools.Showconf.{AddressNames, ip_text, ips_text}

-- The text of an address: no white space, and none of the signs that the parser looks for.
pub record IsAddressText (t : Bytes) : Type 0 where
  pub plain : is_plain t ≡ true
  pub no_comma : contains b',' t ≡ false
  pub no_slash : contains b'/' t ≡ false
  pub no_sign : is_incremental t ≡ false
  pub nonempty : is_empty t ≡ false

-- `inet_ntop` writes a text of the address that `inet_pton` reads; a colon is in those of IPv6 alone.
abbrev pub ReadsAddress : System → AddressNames → Family → Bytes → Type 0
ReadsAddress sys names inet ip =
    (t : Bytes) × (names.ntop4 ip ≡ some t)
    × (sys.pton4 t ≡ some ip)
    × (contains b':' t ≡ false)
    × IsAddressText t
ReadsAddress sys names inet6 ip =
    (t : Bytes) × (names.ntop6 ip ≡ some t)
    × (sys.pton6 t ≡ some ip)
    × (contains b':' t ≡ true)
    × IsAddressText t
ReadsAddress sys names unspec ip = ⊥
ReadsAddress sys names other ip = ⊥

abbrev pub IsPrinted : System → AddressNames → AllowedIp → Type 0
IsPrinted sys names a = IsAllowedIp a × ReadsAddress sys names a.family a.ip

split_all_whole : (c : ℕ) (a : Bytes) → contains c a ≡ false → split_all c a ≡ a ∷ []
unfolding split_all contains
split_all_whole c [] h = refl
split_all_whole c (x ∷ a) h = ground (arith, split_all_whole c a)

split_all_at :
    (c : ℕ) (a b : Bytes) → contains c a ≡ false → split_all c (a ++ c ∷ b) ≡ a ∷ split_all c b
unfolding split_all contains
split_all_at c [] b h = ground arith
split_all_at c (x ∷ a) b h = ground (arith, split_all_at c a b)

contains-append :
    (c : ℕ) (a b : Bytes)
    → contains c a ≡ false
    → contains c b ≡ false
    → contains c (a ++ b) ≡ false
unfolding contains
contains-append c [] b h k = k
contains-append c (x ∷ a) b h k = ground (arith, contains-append c a b)

-- The prefix length that is printed is read back.
prefix_read :
    (f : Family) (ip : Bytes) (n : ℕ)
    → FitsFamily f ip n
    → parse_cidr f (some (print_dec n)) ≡ done n
unfolding parse_cidr
prefix_read inet ip n h =
    let large : ltb 32 n ≡ false = ground arith in
    rw
      (
        parse_cidr,
        strtoul-print_dec n (omega arith),
        Digits-char_is_digit (print_dec n) (print_base-Digits 10 n (omega arith)),
        large,
      )
      (ground arith)
prefix_read inet6 ip n h =
    let large : ltb 128 n ≡ false = ground arith in
    rw
      (
        parse_cidr,
        strtoul-print_dec n (omega arith),
        Digits-char_is_digit (print_dec n) (print_base-Digits 10 n (omega arith)),
        large,
      )
      (ground arith)
prefix_read unspec ip n h = absurd h
prefix_read other ip n h = absurd h

abbrev pub token : Bytes → ℕ → Bytes
token t cidr = t ++ b'/' ∷ print_dec cidr

unsigned_token : (t : Bytes) (s : Bytes) → IsAddressText t → unsigned (t ++ s) ≡ (t ++ s, false)
unfolding unsigned is_incremental
unsigned_token [] s h = absurd (let e = h.nonempty in cc)
unsigned_token (c ∷ t) s h = let e = h.no_sign in ground arith

first_token : (t : Bytes) (s : Bytes) → IsAddressText t → is_incremental (t ++ s) ≡ false
unfolding is_incremental
first_token [] s h = absurd (let e = h.nonempty in cc)
first_token (c ∷ t) s h = h.no_sign

module _ (sys : System) where
  entry_read :
      (f : Family) (t ip : Bytes) (cidr : ℕ)
      → IsAddressText t
      → parse_ip sys t ≡ done (f, ip)
      → FitsFamily f ip cidr
      → parse_entry sys (token t cidr)
        ≡ done (record { family = f; ip = ip; cidr = cidr; remove_me = false })
  unfolding parse_entry
  entry_read f t ip cidr h read fits =
      rw
        (
          parse_entry,
          unsigned_token t (b'/' ∷ print_dec cidr) h,
          split_mask,
          split_first-append b'/' t (print_dec cidr) h.no_slash,
          read,
          prefix_read f ip cidr fits,
        )
        refl

  -- The text of an entry.
  address_read :
      (names : AddressNames) (f : Family) (ip : Bytes) (cidr : ℕ) (remove : Bool)
      → ReadsAddress sys names f ip
      → (t : Bytes) × (ip_text names
            (record { family = f; ip = ip; cidr = cidr; remove_me = remove })
          ≡ some t)
        × (parse_ip sys t ≡ done (f, ip))
        × IsAddressText t
  unfolding ip_text parse_ip
  address_read names inet ip cidr remove (t, printed, read, colon, text) =
      (t, printed, rw (parse_ip, colon, read) refl, text)
  address_read names inet6 ip cidr remove (t, printed, read, colon, text) =
      (t, printed, rw (parse_ip, colon, read) refl, text)
  address_read names unspec ip cidr remove h = absurd h
  address_read names other ip cidr remove h = absurd h

abbrev comma : List AllowedIp → Bytes
comma left = let c : Bytes = elim left [ [] ↦ [] | ◌∷◌ b more ↦ b',' ∷ b' ' ∷ [] ] in c

ips_text_step :
    (names : AddressNames) (a : AllowedIp) (left : List AllowedIp) {t : Bytes}
    → ip_text names a ≡ some t
    → ips_text names (a ∷ left)
      ≡ t ++ (b'/' ∷ (print_dec a.cidr ++ (comma left ++ ips_text names left)))
unfolding ips_text
ips_text_step names a left e = rw (ips_text, e) refl

plain_slash : (s : Bytes) → is_plain s ≡ true → is_plain (b'/' ∷ s) ≡ true
unfolding char_is_space
plain_slash s h = h

cleaned-token :
    (t : Bytes) (cidr : ℕ) (s : Bytes)
    → IsAddressText t
    → cleaned (t ++ (b'/' ∷ (print_dec cidr ++ s))) ≡ token t cidr ++ cleaned s
cleaned-token t cidr s h =
    cleaned-plain t (b'/' ∷ (print_dec cidr ++ s)) h.plain
    ∙ (ap (λ u. t ++ u)
          (cleaned-plain (b'/' ∷ print_dec cidr) s
            (plain_slash (print_dec cidr) (print_base-plain 10 cidr (omega arith) (omega arith))))
        ∙ sym (append_assoc t (b'/' ∷ print_dec cidr) (cleaned s)))

cleaned-comma : (s : Bytes) → cleaned (b',' ∷ b' ' ∷ s) ≡ b',' ∷ cleaned s
unfolding cleaned strip_spaces span_until char_is_space
cleaned-comma s = refl

token_no_comma : (t : Bytes) (cidr : ℕ) → IsAddressText t → contains b',' (token t cidr) ≡ false
unfolding contains
token_no_comma t cidr h =
    contains-append b',' t (b'/' ∷ print_dec cidr) h.no_comma
      (contains-print_base 10 cidr (omega arith) (omega arith))

parse_entries_next :
    (sys : System) (t : Bytes) (ts : List Bytes) (a : AllowedIp) (p : Peer)
    → parse_entry sys t ≡ done a
    → is_incremental t ≡ false
    → parse_entries sys (t ∷ ts) p ≡ parse_entries sys ts (add_allowedip a p)
unfolding parse_entries
parse_entries_next sys t ts a p e f = rw (parse_entries, f, e) refl

module _ (sys : System) (names : AddressNames) where
  -- The first entry of the text, and what stands behind it.
  abbrev EntryOf : AllowedIp → List AllowedIp → Bytes → Type 0
  EntryOf a left t =
      (cleaned (ips_text names (a ∷ left)) ≡ t ++ cleaned (comma left ++ ips_text names left))
      × (parse_entry sys t ≡ done (carried_ip a))
      × (is_incremental t ≡ false)
      × (contains b',' t ≡ false)
      × (is_empty t ≡ false)

  first_entry :
      (a : AllowedIp) (left : List AllowedIp)
      → IsPrinted sys names a
      → (t : Bytes) × EntryOf a left t
  first_entry a left h =
      let (t, printed, read, text) = address_read sys names a.family a.ip a.cidr a.remove_me h.1 in
      (
        token t a.cidr,
        (
          ap cleaned (ips_text_step names a left printed)
              ∙ cleaned-token t a.cidr (comma left ++ ips_text names left) text,
          entry_read sys a.family t a.ip a.cidr text read h.0,
          first_token t (b'/' ∷ print_dec a.cidr) text,
          token_no_comma t a.cidr text,
          append-ne-empty t (print_dec a.cidr) b'/',
        ),
      )

  nothing_left : cleaned (comma [] ++ ips_text names []) ≡ []
  unfolding cleaned strip_spaces span_until ips_text
  nothing_left = refl

  no_tokens : (p : Peer) → parse_entries sys [] p ≡ done p
  unfolding parse_entries
  no_tokens p = refl

  pub entries_read :
      (a : AllowedIp) (left : List AllowedIp) (p : Peer)
      → All (IsPrinted sys names) (a ∷ left)
      → parse_entries sys (split_all b',' (cleaned (ips_text names (a ∷ left)))) p
        ≡ done (record p { allowedips = p.allowedips ++ map carried_ip (a ∷ left) })
  entries_read a [] p h =
      let (t, (text, entry, plus, comma, some_text)) = first_entry a [] h.0 in
      ap (λ s. parse_entries sys (split_all b',' s) p)
        (text ∙ (ap (λ s. t ++ s) nothing_left ∙ append-nil t))
      ∙ (ap (λ ts. parse_entries sys ts p) (split_all_whole b',' t comma)
          ∙ (parse_entries_next sys t [] (carried_ip a) p entry plus
              ∙ no_tokens (add_allowedip (carried_ip a) p)))
  entries_read a (b ∷ more) p h =
      let (t, (text, entry, plus, no_comma, some_text)) = first_entry a (b ∷ more) h.0 in
      let rest = cleaned (ips_text names (b ∷ more)) in
      let q = add_allowedip (carried_ip a) p in
      ap (λ s. parse_entries sys (split_all b',' s) p)
        (text ∙ ap (λ s. t ++ s) (cleaned-comma (ips_text names (b ∷ more))))
      ∙ (ap (λ ts. parse_entries sys ts p) (split_all_at b',' t rest no_comma)
          ∙ (parse_entries_next sys t (split_all b',' rest) (carried_ip a) p entry plus
              ∙ (entries_read b more q h.1
                  ∙ ap (λ l. done (record p { allowedips = l }))
                      (append_assoc p.allowedips (carried_ip a ∷ []) (map carried_ip (b ∷ more))))))

longer_text : (t s : Bytes) → is_empty t ≡ false → is_empty (t ++ s) ≡ false
longer_text [] s h = cc
longer_text (c ∷ t) s h = refl

-- Let each of some well-formed allowed IPs, at least one, have an address that `inet_ntop` writes
-- and `inet_pton` reads, with a colon exactly if it is IPv6, and without white space, number sign,
-- comma, slash and a leading sign. Then `parse_allowedips` reads the value of the AllowedIPs line
-- that `showconf` prints for them, as the line reader cleans it, as the same allowed IPs in their
-- order, without marks for removal, behind those that the peer has; and they are to replace what
-- the peer has in the kernel.
pub parse_allowedips-ips_text :
    (sys : System) (names : AddressNames) (a : AllowedIp) (left : List AllowedIp) (p : Peer)
    → All (IsPrinted sys names) (a ∷ left)
    → parse_allowedips sys p (cleaned (ips_text names (a ∷ left)))
      ≡ done
          (record (set_replace true p) { allowedips = p.allowedips ++ map carried_ip (a ∷ left) })
unfolding parse_allowedips
parse_allowedips-ips_text sys names a left p h =
    let (t, (text, entry, plus, no_comma, some_text)) = first_entry sys names a left h.0 in
    let not_empty : is_empty (cleaned (ips_text names (a ∷ left))) ≡ false =
      ap is_empty text ∙ longer_text t (cleaned (comma left ++ ips_text names left)) some_text in
    rw (parse_allowedips, not_empty) (entries_read sys names a left (set_replace true p) h)
