-- ===== src/Config/WsUrl/Split.antt =====
-- src/config.c: what `ws_url_split` finds in a URL, and that nothing of it is cut off.
use mathlib.Core.List.{append_assoc}
use mathlib.Core.Path.{subst}
use wireguard_tools.Config.Numbers.{is_empty, first_byte}
use wireguard_tools.Config.WsUrl.Spelled.{authority, Readable, IsWsUrl}
use wireguard_tools.Config.WsUrl.Scheme.{behind_scheme-some}
use wireguard_tools.Config.WsUrl.{behind_colon, host_split, checked, ws_url_split}
use wireguard_tools.Libc.Text.{
  split_first, split_first-FirstAt, FirstAt, split_last, split_last-LastAt, LastAt, span_until,
  span_until_append, span_until-StartsAt, contains-span_until, contains, span_until-append,
  contains-append,
}
use wireguard_tools.Prelude.{
  ℕ, ◌<◌, ◌≡◌, ◌∙◌, Bool, ◌||◌, inl, inr, refl, ap, sym, arith, true, false, Option, none, some, [],
  ◌∷◌, ◌++◌, ◌==◌, ==_iff, Bool-cases, Bytes, bind_option, bind_option-eq-some, some_pair, length,
}

behind_colon-some :
    (h after : Bytes) {host pstart : Bytes}
    → bind_option {B = Bytes × Bytes} (behind_colon after) (λ t. some (h, t)) ≡ some (host, pstart)
    → (h ≡ host) × (after ≡ b':' ∷ pstart)
unfolding behind_colon
behind_colon-some h [] e = cc
behind_colon-some h (c ∷ s) e = ground arith

-- The text behind the scheme, with the port up to the slash.
abbrev HostSplit : Bytes → Bytes → Bytes → Bytes → Type 0
HostSplit p host port path =
    (brackets : Bool) × (p ≡ authority brackets host port ++ path) × Readable brackets host port

bracketed :
    (s host pstart : Bytes)
    → bind_option {B = Bytes × Bytes}
        (split_first b']' s)
        (λ x. bind_option (behind_colon x.1) (λ t. some (x.0, t)))
      ≡ some (host, pstart)
    → (s ≡ host ++ (b']' ∷ b':' ∷ pstart)) × (contains b']' host ≡ false)
bracketed s host pstart e = go (split_first b']' s) (split_first-FirstAt b']' s) e
  where
    go :
        (o : Option (Bytes × Bytes))
        → FirstAt b']' s o
        → bind_option {B = Bytes × Bytes} o
            (λ x. bind_option (behind_colon x.1) (λ t. some (x.0, t)))
          ≡ some (host, pstart)
        → (s ≡ host ++ (b']' ∷ b':' ∷ pstart)) × (contains b']' host ≡ false)
    go none f e = cc
    go (some (h, after)) f e =
        let (same_host, colon) = behind_colon-some h after e in
        (f.0 ∙ rw (same_host, colon) refl, rw same_host at f.1)

or-false : (a b : Bool) → (a || b) ≡ false → (a ≡ false) × (b ≡ false)
or-false false b e = (refl, e)
or-false true b e = absurd cc

no_slash :
    (h after : Bytes)
    → contains b'/' (h ++ (b':' ∷ after)) ≡ false
    → (contains b'/' h ≡ false) × (contains b'/' after ≡ false)
unfolding contains
no_slash h after k =
    or-false (contains b'/' h) (contains b'/' after)
      (sym (contains-append b'/' h (b':' ∷ after)) ∙ k)

-- The text before the path, split at its last colon.
unbracketed :
    (front path host pstart : Bytes)
    → contains b'/' front ≡ false
    → bind_option {B = Bytes × Bytes} (split_last b':' front) (λ x. some (x.0, x.1 ++ path))
      ≡ some (host, pstart)
    → (port : Bytes) × (front ≡ host ++ (b':' ∷ port))
      × (pstart ≡ port ++ path)
      × (contains b'/' host ≡ false)
      × (contains b'/' port ≡ false)
      × (contains b':' port ≡ false)
unbracketed front path host pstart slash e =
    go (split_last b':' front) (split_last-LastAt b':' front) e
  where
    go :
        (o : Option (Bytes × Bytes))
        → LastAt b':' front o
        → bind_option {B = Bytes × Bytes} o (λ x. some (x.0, x.1 ++ path)) ≡ some (host, pstart)
        → (port : Bytes) × (front ≡ host ++ (b':' ∷ port))
          × (pstart ≡ port ++ path)
          × (contains b'/' host ≡ false)
          × (contains b'/' port ≡ false)
          × (contains b':' port ≡ false)
    go none f e = cc
    go (some (h, after)) f e =
        let (same_host, same_start) = some_pair {x = (h, after ++ path)} {y = (host, pstart)} e in
        let (plain_host, plain_port) = no_slash h after (rw f.0 at slash) in
        (
          after,
          f.0 ∙ rw same_host refl,
          sym same_start,
          rw same_host at plain_host,
          plain_port,
          f.1,
        )

first_plain :
    (host rest : Bytes)
    → (first_byte (host ++ rest) == b'[') ≡ false
    → (first_byte host == b'[') ≡ false
first_plain [] rest h = refl
first_plain (c ∷ host) rest h = h

host_split-some :
    (p host pstart port path : Bytes)
    → host_split p ≡ some (host, pstart)
    → span_until b'/' pstart ≡ (port, path)
    → HostSplit p host port path
unfolding host_split
host_split-some [] host pstart port path e u = cc
host_split-some (c ∷ s) host pstart port path e u = elim (Bool-cases (c == b'[')) [
  | inl bracket ↦
      let (split, closed) = bracketed s host pstart (rw bracket at e) in
      (
        true,
        rw ((==_iff c b'[').0 bracket, split, append_assoc host (b']' ∷ b':' ∷ port) path, start)
            refl,
        closed,
      )
  | inr plain ↦
      let front = (span_until b'/' (c ∷ s)).0 in
      let rest = (span_until b'/' (c ∷ s)).1 in
      let (port', split, begins, no_slash, no_slash', last) =
        unbracketed front rest host pstart (contains-span_until b'/' (c ∷ s)) (rw plain at e) in
      let same : (port, path) ≡ (port', rest) =
        sym u
        ∙ ap (span_until b'/') begins
        ∙ span_until-append b'/' port' rest no_slash' (span_until-StartsAt b'/' (c ∷ s)) in
      let whole : c ∷ s ≡ (host ++ (b':' ∷ port')) ++ rest =
        sym (span_until_append b'/' (c ∷ s)) ∙ ap (λ (y : Bytes). y ++ rest) split in
      let same_port : port' ≡ port = sym (ap (λ (z : Bytes × Bytes). z.0) same) in
      (
        false,
        whole ∙ ap (λ (z : Bytes × Bytes). (host ++ (b':' ∷ z.0)) ++ z.1) (sym same),
        (
          first_plain host (b':' ∷ (port' ++ rest)) (
              subst (λ t. (first_byte t == b'[') ≡ false)
                (whole ∙ append_assoc host (b':' ∷ port') rest) plain),
          no_slash,
          rw same_port at last,
        ),
      )
]
  where
    start : pstart ≡ port ++ path
    start = sym (span_until_append b'/' pstart) ∙ ap (λ (z : Bytes × Bytes). z.0 ++ z.1) u

checked-some :
    (hostsz portsz : ℕ) (h q : Bytes) {host port : Bytes}
    → checked hostsz portsz h q ≡ some (host, port)
    → (h ≡ host)
      × (q ≡ port)
      × (is_empty host ≡ false)
      × (is_empty port ≡ false)
      × (length host < hostsz)
      × (length port < portsz)
unfolding checked
checked-some hostsz portsz h q e = ground arith

-- Whatever is returned is what the URL spells, nonempty and within the buffers.
pub ws_url_split-IsWsUrl :
    (url : Bytes) (hostsz portsz : ℕ) {host port : Bytes}
    → ws_url_split url hostsz portsz ≡ some (host, port)
    → (brackets : Bool) × IsWsUrl hostsz portsz brackets url host port
unfolding ws_url_split
ws_url_split-IsWsUrl url hostsz portsz {host} {port} e =
    let (p, scheme_found, rest) = bind_option-eq-some _ _ e in
    let (x, host_found, ok) =
      bind_option-eq-some (host_split p)
        (λ (x : Bytes × Bytes). checked hostsz portsz x.0 (span_until b'/' x.1).0) rest in
    let (scheme, url_eq, scheme_is) = behind_scheme-some url scheme_found in
    let (same_host, same_port, host_ne, port_ne, host_lt, port_lt) =
      checked-some hostsz portsz _ _ ok in
    let path = (span_until b'/' x.1).1 in
    let (brackets, spelled, readable) =
      host_split-some p host x.1 port path
        (host_found ∙ ap (λ (h : Bytes). some (h, x.1)) same_host)
        (ap (λ (q : Bytes). (q, path)) same_port) in
    (
      brackets,
      record {
        scheme = scheme;
        scheme_is = scheme_is;
        path = path;
        path_start = span_until-StartsAt b'/' x.1;
        spelled = url_eq ∙ ap (λ (y : Bytes). scheme ++ y) spelled;
        readable = readable;
        port_plain = rw same_port at (contains-span_until b'/' x.1);
        host_nonempty = host_ne;
        port_nonempty = port_ne;
        host_fits = host_lt;
        port_fits = port_lt;
      },
    )
