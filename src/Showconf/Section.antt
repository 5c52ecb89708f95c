-- ===== src/Showconf/Section.antt =====
-- src/showconf.c: the [Interface] section under the reader of src/config.c.
use mathlib.Core.List.{append-nil}
use wireguard_tools.Config.Line.{
  Ctx, strip_spaces, cleaned, config_read_line, process_line, device_line, config_read_init,
}
use wireguard_tools.Config.Line.Keys.{
  DeviceKey, listen_port, fwmark, private_key, device_keys, set_device_key,
}
use wireguard_tools.Config.Keys.{parse_key}
use wireguard_tools.Config.Numbers.{is_empty, parse_port}
use wireguard_tools.Config.Numbers.RoundTrip.{parse_fwmark-print_hex}
use wireguard_tools.Config.Outcome.{done}
use wireguard_tools.Config.System.{System}
use wireguard_tools.Config.WsUrl.{is_ws_url}
use wireguard_tools.Containers.{Device, zero_device, zero_key}
use wireguard_tools.Ctype.{char_is_space}
use wireguard_tools.Encoding.Base64.{IsKey, key_to_base64}
use wireguard_tools.Encoding.Base64.RoundTrip.{key_from_base64-key_to_base64}
use wireguard_tools.Libc.Print.{print_dec, print_hex}
use wireguard_tools.Libc.Text.{span_until}
use wireguard_tools.Prelude.{
  ℕ, ◌^◌, ◌<◌, ◌≡◌, ◌∙◌, refl, sym, ap, Bool, true, false, Option, none, some, [], ◌∷◌, ◌++◌,
  if◌then◌else◌, Bytes, codes, equal_nocase,
}
use wireguard_tools.Showconf.Lines.{
  is_plain, cleaned-plain, IsKeyLine, read-key_line, first_of, find_key-first_of,
}
use wireguard_tools.Showconf.{key_line}

-- The reader inside of the section.
abbrev pub in_device : Device → Ctx
in_device d = record { device = d; is_peer_section = false; is_device_section = true }

-- A value without white space and number sign is read as it is.
pub plain-cleaned : (v : Bytes) → is_plain v ≡ true → cleaned v ≡ v
unfolding cleaned strip_spaces span_until
plain-cleaned v h = ap cleaned (sym (append-nil v)) ∙ (cleaned-plain v [] h ∙ append-nil v)

module _ (sys : System) where
  -- A printed line of the section sets its key to what is left of the value.
  pub device-key_line-cleaned :
      (name v w : Bytes) (key : DeviceKey) (d d' : Device)
      → is_plain name ≡ true
      → IsKeyLine (name ++ b'=' ∷ w)
      → first_of device_keys (name ++ b'=' ∷ w) ≡ some (key, w)
      → cleaned v ≡ w
      → is_empty w ≡ false
      → set_device_key sys key w d ≡ done d'
      → config_read_line sys (in_device d) (key_line name v) ≡ done (in_device d')
  unfolding device_line
  device-key_line-cleaned name v w key d d' named header found same some_value set =
      read-key_line sys (in_device d) name v named (rw same header)
      ∙ rw
          (
            same,
            device_line,
            find_key-first_of device_keys (name ++ b'=' ∷ w) key w found some_value,
            set,
          )
          refl

  pub device-key_line :
      (name v : Bytes) (key : DeviceKey) (d d' : Device)
      → is_plain name ≡ true
      → IsKeyLine (name ++ b'=' ∷ v)
      → first_of device_keys (name ++ b'=' ∷ v) ≡ some (key, v)
      → is_plain v ≡ true
      → is_empty v ≡ false
      → set_device_key sys key v d ≡ done d'
      → config_read_line sys (in_device d) (key_line name v) ≡ done (in_device d')
  device-key_line name v key d d' named header found plain some_value set =
      device-key_line-cleaned name v v key d d' named header found (plain-cleaned v plain)
        some_value set

  pub port_set :
      (n : ℕ) (d : Device)
      → parse_port sys (print_dec n) ≡ done n
      → set_device_key sys listen_port (print_dec n) d
        ≡ done (record d { listen_port = n; flags = record (d.flags) { has_listen_port = true } })
  unfolding set_device_key
  port_set n d e = rw (set_device_key, e) refl

  pub mark_set :
      (n : ℕ) (d : Device)
      → n < 2 ^ 32
      → set_device_key sys fwmark (b'0' ∷ b'x' ∷ print_hex n) d
        ≡ done (record d { fwmark = n; flags = record (d.flags) { has_fwmark = true } })
  unfolding set_device_key
  mark_set n d h = rw (set_device_key, parse_fwmark-print_hex n h) refl

  pub private_key_set :
      (k : Bytes) (d : Device)
      → IsKey k
      → set_device_key sys private_key (key_to_base64 k) d
        ≡ done (record d { private_key = k; flags = record (d.flags) { has_private_key = true } })
  unfolding set_device_key parse_key
  private_key_set k d h =
      rw (set_device_key, parse_key, key_from_base64-key_to_base64 d.private_key k h) refl

-- The texts of the section.
abbrev pub IsText : Option Bytes → Type 0
IsText none = Unit
IsText (some v) = is_plain v ≡ true

abbrev pub IsUrl : Option Bytes → Type 0
IsUrl none = Unit
IsUrl (some v) = is_ws_url v ≡ true

abbrev pub is_given : Option Bytes → Bool
is_given none = false
is_given (some v) = true

-- What the reader has of a device, as far as the lines went.
abbrev pub shown :
    Bool
    → Bool
    → Bool
    → Option Bytes
    → Option Bytes
    → Option Bytes
    → Option Bytes
    → Option Bytes
    → Device
    → Device
shown bound marked keyed listen cert key bearer proxies d = record zero_device {
  listen_port = if bound then d.listen_port else 0;
  fwmark = if marked then d.fwmark else 0;
  private_key = if keyed then d.private_key else zero_key;
  ws_listen = listen;
  ws_server_tls_cert = cert;
  ws_server_tls_key = key;
  ws_server_bearer = bearer;
  ws_trusted_proxies = proxies;
  flags = record {
    replace_peers = true;
    has_private_key = true;
    has_public_key = false;
    has_listen_port = true;
    has_fwmark = true;
    has_ws_listen = is_given listen;
    has_ws_server_tls_cert = is_given cert;
    has_ws_server_tls_key = is_given key;
    has_ws_server_bearer = is_given bearer;
    has_ws_trusted_proxies = is_given proxies;
  };
}

-- The header of the section, and the empty line behind it.
pub header_line :
    (sys : System) (d : Device)
    → config_read_line sys (config_read_init false) (codes "[Interface]" ++ b'\n' ∷ [])
      ≡ done (in_device (shown false false false none none none none none d))
unfolding config_read_line cleaned strip_spaces span_until char_is_space process_line equal_nocase
    config_read_init
header_line sys d = refl

pub empty_line : (sys : System) (ctx : Ctx) → config_read_line sys ctx (b'\n' ∷ []) ≡ done ctx
unfolding config_read_line cleaned strip_spaces span_until char_is_space
empty_line sys ctx = refl
