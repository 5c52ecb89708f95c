-- ===== src/Config/AllowedIps/Entries.antt =====
-- src/config.c: what `parse_allowedips` does to a peer.
use mathlib.Core.Path.{subst}
use mathlib.Core.List.{append-nil, append_assoc}
use wireguard_tools.Config.AllowedIps.{
  parse_ip, parse_cidr, is_incremental, unsigned, split_mask, parse_entry, set_replace,
  add_allowedip, parse_entries, parse_allowedips,
}
use wireguard_tools.Config.Numbers.{is_empty}
use wireguard_tools.Config.Outcome.{done, ◌>>=◌, >>=-eq-done, done-injective}
use wireguard_tools.Config.System.{System, IsSystem}
use wireguard_tools.Containers.{Family, unspec, inet, inet6, other, AllowedIp, Peer}
use wireguard_tools.Libc.Text.{split_all}
use wireguard_tools.Prelude.{
  ℕ, suc, ◌≤◌, ◌≡◌, ◌∙◌, refl, ap, sym, arith, Bool, true, false, not, ◌&&◌, ◌||◌, Option, none,
  some, List, [], ◌∷◌, ◌++◌, if◌then◌else◌, Bool-cases, inl, inr, Bytes, IsBytes, length, All, any,
}

-- An IPv4 address of 4 bytes with a prefix up to 32, or an IPv6 address of 16 with one up to 128.
abbrev pub FitsFamily : Family → Bytes → ℕ → Type 0
FitsFamily inet ip cidr = (length ip ≡ 4) × IsBytes ip × (cidr ≤ 32)
FitsFamily inet6 ip cidr = (length ip ≡ 16) × IsBytes ip × (cidr ≤ 128)
FitsFamily unspec ip cidr = ⊥
FitsFamily other ip cidr = ⊥

abbrev pub IsAllowedIp : AllowedIp → Type 0
IsAllowedIp a = FitsFamily a.family a.ip a.cidr

abbrev FitsAddress : Family × Bytes → Type 0
FitsAddress (inet, ip) = (length ip ≡ 4) × IsBytes ip
FitsAddress (inet6, ip) = (length ip ≡ 16) × IsBytes ip
FitsAddress (_, ip) = ⊥

parse_ip-FitsAddress :
    (sys : System)
    → IsSystem sys
    → (s : Bytes) (x : Family × Bytes) → parse_ip sys s ≡ done x
    → FitsAddress x
unfolding parse_ip
parse_ip-FitsAddress sys ok s (inet, ip) e = grind (arith, ok.pton4_len s ip)
parse_ip-FitsAddress sys ok s (inet6, ip) e = grind (arith, ok.pton6_len s ip)
parse_ip-FitsAddress sys ok s (_, ip) e = ground arith

parse_cidr-FitsFamily :
    (f : Family) (ip : Bytes) (mask : Option Bytes) {cidr : ℕ}
    → FitsAddress (f, ip)
    → parse_cidr f mask ≡ done cidr
    → FitsFamily f ip cidr
unfolding parse_cidr
parse_cidr-FitsFamily inet ip (some mask) h e = (h.0, h.1, ground arith)
parse_cidr-FitsFamily inet6 ip (some mask) h e = (h.0, h.1, ground arith)
parse_cidr-FitsFamily inet ip none h e = (h.0, h.1, ground arith)
parse_cidr-FitsFamily inet6 ip none h e = (h.0, h.1, ground arith)
parse_cidr-FitsFamily unspec ip mask h e = h
parse_cidr-FitsFamily other ip mask h e = h

pub parse_entry-IsAllowedIp :
    (sys : System)
    → IsSystem sys
    → (token : Bytes) {a : AllowedIp} → parse_entry sys token ≡ done a
    → IsAllowedIp a
unfolding parse_entry
parse_entry-IsAllowedIp sys ok token e =
    let entry = unsigned token in
    let parts = split_mask entry.0 in
    let (x, address, rest) =
      >>=-eq-done (parse_ip sys parts.0)
        (λ x. parse_cidr x.0 parts.1 >>= λ cidr.
          done (record { family = x.0; ip = x.1; cidr = cidr; remove_me = entry.1 }))
        e in
    let (cidr, prefix, made) =
      >>=-eq-done (parse_cidr x.0 parts.1)
        (λ cidr. done (record { family = x.0; ip = x.1; cidr = cidr; remove_me = entry.1 })) rest in
    subst IsAllowedIp (done-injective made)
      (parse_cidr-FitsFamily x.0 x.1 parts.1 (parse_ip-FitsAddress sys ok parts.0 x address) prefix)

-- The peer with entries appended, and with the replacement off after an incremental change.
abbrev pub extended : Peer → Bool → List AllowedIp → Peer
extended p incremental added = record p {
  allowedips = p.allowedips ++ added;
  flags = record (p.flags) { replace_allowedips = not incremental && p.flags.replace_allowedips };
}

-- `q` is `p` with one valid entry for each token, and nothing else is changed.
pub record Extends (p : Peer) (tokens : List Bytes) (q : Peer) : Type 0 where
  pub added : List AllowedIp
  pub valid : All IsAllowedIp added
  pub count : length added ≡ length tokens
  pub result : q ≡ extended p (any is_incremental tokens) added

one_step :
    (p : Peer) (inc rest : Bool) (a : AllowedIp) (added : List AllowedIp)
    → extended (add_allowedip a (if inc then set_replace false p else p)) rest added
      ≡ extended p (inc || rest) (a ∷ added)
one_step p true true a added = rw append_assoc refl
one_step p true false a added = rw append_assoc refl
one_step p false rest a added = rw append_assoc refl

parse_entries-Extends :
    (sys : System)
    → IsSystem sys
    → (tokens : List Bytes) (p : Peer) {q : Peer} → parse_entries sys tokens p ≡ done q
    → Extends p tokens q
unfolding parse_entries
parse_entries-Extends sys ok [] p e = record {
  added = [];
  valid = tt;
  count = refl;
  result = sym (done-injective e) ∙ rw append-nil refl;
}
parse_entries-Extends sys ok (t ∷ tokens) p {q} e =
    let p' = if is_incremental t then set_replace false p else p in
    let (a, entry, rest) =
      >>=-eq-done (parse_entry sys t) (λ b. parse_entries sys tokens (add_allowedip b p')) e in
    let ih = parse_entries-Extends sys ok tokens (add_allowedip a p') {q = q} rest in
    record {
      added = a ∷ ih.added;
      valid = (parse_entry-IsAllowedIp sys ok t entry, ih.valid);
      count = ap suc ih.count;
      result = ih.result ∙ one_step p (is_incremental t) (any is_incremental tokens) a ih.added;
    }

-- The tokens of a value; an empty value has none.
abbrev pub tokens_of : Bytes → List Bytes
tokens_of v = if is_empty v then [] else split_all b',' v

-- On a system that keeps `IsSystem`, an accepted AllowedIPs value appends one well-formed entry
-- for each of its tokens, behind the entries that are there. It asks for the replacement of all
-- entries exactly if no token starts with a plus or minus sign, and changes nothing else of the
-- peer.
pub parse_allowedips-Extends :
    (sys : System)
    → IsSystem sys
    → (p : Peer) (v : Bytes) {q : Peer} → parse_allowedips sys p v ≡ done q
    → Extends (set_replace true p) (tokens_of v) q
unfolding parse_allowedips
parse_allowedips-Extends sys ok p v e = elim (Bool-cases (is_empty v)) [
  | inl empty ↦ rw empty (record {
    added = [];
    valid = tt;
    count = refl;
    result = sym (done-injective (rw empty at e)) ∙ rw append-nil refl;
  })
  | inr more ↦
      rw more (parse_entries-Extends sys ok (split_all b',' v) (set_replace true p) (rw more at e))
]
