-- ===== src/Showconf/Cut.antt =====
-- src/showconf.c and src/config.c: a printed bearer token with a number sign.
use mathlib.Core.List.{append-nil}
use wireguard_tools.Config.Line.{strip_spaces, cleaned, config_read_line}
use wireguard_tools.Config.Line.Keys.{ws_server_bearer, set_device_key}
use wireguard_tools.Config.Numbers.{is_empty}
use wireguard_tools.Config.Outcome.{done}
use wireguard_tools.Config.System.{System}
use wireguard_tools.Config.WsValues.{parse_ws_device_str}
use wireguard_tools.Containers.{Device}
use wireguard_tools.Ctype.{char_is_space}
use wireguard_tools.Libc.Text.{span_until, strip_prefix}
use wireguard_tools.Prelude.{
  ◌≡◌, ◌∙◌, refl, true, false, some, ◌∷◌, ◌++◌, Bytes, codes, equal_nocase, to_lower,
}
use wireguard_tools.Showconf.Lines.{is_plain, cleaned-plain}
use wireguard_tools.Showconf.Section.{in_device, device-key_line-cleaned}
use wireguard_tools.Showconf.{key_line}

abbrev pub with_bearer : Bytes → Device → Device
with_bearer v d = record d {
  ws_server_bearer = some v;
  flags = record (d.flags) { has_ws_server_bearer = true };
}

cleaned-comment : (a b : Bytes) → is_plain a ≡ true → cleaned (a ++ b'#' ∷ b) ≡ a
unfolding cleaned strip_spaces span_until
cleaned-comment a b h = cleaned-plain a (b'#' ∷ b) h ∙ append-nil a

-- In the section of a device, the line that `showconf` prints for a token with a number sign behind a
-- part that is not empty and has no white space and no number sign sets the token to that part alone.
pub server_bearer_cut :
    (sys : System) (d : Device) (a b : Bytes)
    → is_plain a ≡ true
    → is_empty a ≡ false
    → config_read_line sys (in_device d) (key_line (codes "WSServerBearer") (a ++ b'#' ∷ b))
      ≡ done (in_device (with_bearer a d))
unfolding equal_nocase strip_prefix to_lower char_is_space set_device_key parse_ws_device_str
server_bearer_cut sys d a b plain given =
    device-key_line-cleaned sys (codes "WSServerBearer") (a ++ b'#' ∷ b) a ws_server_bearer d
      (with_bearer a d) refl (refl, refl) refl (cleaned-comment a b plain) given (rw given refl)
