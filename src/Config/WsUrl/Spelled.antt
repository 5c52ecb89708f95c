-- ===== src/Config/WsUrl/Spelled.antt =====
-- src/config.c: how a URL spells its scheme, its host and its port, for `ws_url_split`.
use wireguard_tools.Config.Numbers.{is_empty, first_byte}
use wireguard_tools.Libc.Text.{StartsAt, contains}
use wireguard_tools.Prelude.{
  ℕ, ◌<◌, ◌≡◌, ◌⊎◌, Bool, true, false, ◌∷◌, ◌++◌, ◌==◌, Bytes, codes, length, equal_nocase,
}

-- A host and a port as a URL writes them, with the host in brackets or plain.
abbrev pub authority : Bool → Bytes → Bytes → Bytes
authority true host port = b'[' ∷ (host ++ (b']' ∷ b':' ∷ port))
authority false host port = host ++ (b':' ∷ port)

-- What makes the two readable: the first closing bracket ends the host, and without brackets, the
-- last colon before the path does.
abbrev pub Readable : Bool → Bytes → Bytes → Type 0
Readable true host port = contains b']' host ≡ false
Readable false host port =
    ((first_byte host == b'[') ≡ false)
    × (contains b'/' host ≡ false)
    × (contains b':' port ≡ false)

-- A URL of the form ws(s)://host:port or ws(s)://[host]:port, with a path or nothing behind, whose
-- host and port are not empty and fit their buffers.
pub record IsWsUrl (hostsz portsz : ℕ) (brackets : Bool) (url host port : Bytes) : Type 0 where
  pub scheme : Bytes
  pub scheme_is :
      (equal_nocase scheme (codes "ws://") ≡ true) ⊎ (equal_nocase scheme (codes "wss://") ≡ true)
  pub path : Bytes
  pub path_start : StartsAt b'/' path
  pub spelled : url ≡ scheme ++ (authority brackets host port ++ path)
  pub readable : Readable brackets host port
  pub port_plain : contains b'/' port ≡ false
  pub host_nonempty : is_empty host ≡ false
  pub port_nonempty : is_empty port ≡ false
  pub host_fits : length host < hostsz
  pub port_fits : length port < portsz
