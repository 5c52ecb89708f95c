-- ===== src/Config/WsUrl/Whole.antt =====
-- src/config.c: which URLs `ws_url_split` takes apart, and into what.
use mathlib.Core.List.{append_assoc}
use wireguard_tools.Config.Numbers.{is_empty}
use wireguard_tools.Config.WsUrl.Scheme.{behind_scheme-append}
use wireguard_tools.Config.WsUrl.Spelled.{authority, Readable, IsWsUrl}
use wireguard_tools.Config.WsUrl.Split.{ws_url_split-IsWsUrl}
use wireguard_tools.Config.WsUrl.{behind_colon, host_split, checked, ws_url_split}
use wireguard_tools.Libc.Text.{
  split_first-append, split_last-append, span_until-append, StartsAt, contains, contains-append,
}
use wireguard_tools.Prelude.{
  ℕ, ◌<◌, ◌≡◌, ◌↔◌, refl, arith, Bool, true, false, some, [], ◌∷◌, ◌++◌, ◌∙◌, Bytes, length,
}

host_split-authority :
    (brackets : Bool) (host port path : Bytes)
    → Readable brackets host port
    → contains b'/' port ≡ false
    → is_empty host ≡ false
    → StartsAt b'/' path
    → host_split (authority brackets host port ++ path) ≡ some (host, port ++ path)
unfolding host_split behind_colon contains
host_split-authority true host port path closed plain ne start =
    rw
      (
        append_assoc host (b']' ∷ b':' ∷ port) path,
        split_first-append b']' host (b':' ∷ (port ++ path)) closed,
      )
      refl
host_split-authority false [] port path r plain ne start = cc
host_split-authority false (c ∷ host) port path (first, slash, last) plain ne start =
    rw
      (
        first,
        span_until-append b'/' (c ∷ (host ++ (b':' ∷ port))) path (no_slash (c ∷ host) slash) start,
        split_last-append b':' (c ∷ host) port last,
      )
      refl
  where
    no_slash : (h : Bytes) → contains b'/' h ≡ false → contains b'/' (h ++ (b':' ∷ port)) ≡ false
    no_slash h k = contains-append b'/' h (b':' ∷ port) ∙ rw k plain

checked-fits :
    (hostsz portsz : ℕ) (host port : Bytes)
    → is_empty host ≡ false
    → is_empty port ≡ false
    → length host < hostsz
    → length port < portsz
    → checked hostsz portsz host port ≡ some (host, port)
unfolding checked
checked-fits hostsz portsz host port h p hf pf = rw (h, p) (ground arith)

IsWsUrl-ws_url_split :
    (url : Bytes) (hostsz portsz : ℕ) (host port : Bytes) (brackets : Bool)
    → IsWsUrl hostsz portsz brackets url host port
    → ws_url_split url hostsz portsz ≡ some (host, port)
unfolding ws_url_split
IsWsUrl-ws_url_split url hostsz portsz host port brackets w =
    rw
      (
        w.spelled,
        behind_scheme-append w.scheme (authority brackets host port ++ w.path) w.scheme_is,
        host_split-authority brackets host port w.path w.readable w.port_plain w.host_nonempty
            w.path_start,
        span_until-append b'/' port w.path w.port_plain w.path_start,
      )
      (checked-fits hostsz portsz host port w.host_nonempty w.port_nonempty w.host_fits w.port_fits)

-- `ws_url_split` takes a URL apart into a host and a port exactly if the URL is a scheme, ws:// or
-- wss:// in any case, then the host, a colon and the port, then nothing or a path that starts with a
-- slash, and this is readable: either the host stands in brackets and holds no closing bracket, or it
-- stands without, does not begin with an opening bracket and holds no slash, and then the port holds no
-- colon. In both cases the port holds no slash, neither of the two is empty, and each fits its buffer
-- with a NUL.
pub ws_url_split_iff :
    (url : Bytes) (hostsz portsz : ℕ) (host port : Bytes)
    → (ws_url_split url hostsz portsz ≡ some (host, port))
      ↔ ((brackets : Bool) × IsWsUrl hostsz portsz brackets url host port)
ws_url_split_iff url hostsz portsz host port = (
  λ e. ws_url_split-IsWsUrl url hostsz portsz e,
  λ w. IsWsUrl-ws_url_split url hostsz portsz host port w.0 w.1,
)
