-- ===== src/Tests/Showconf.antt =====
-- src/showconf.c on a concrete device.
use wireguard_tools.Config.AllowedIps.{parse_allowedips, set_replace}
use wireguard_tools.Showconf.Addresses.{IsAddressText, parse_allowedips-ips_text}
use wireguard_tools.Tests.Config.{net}
use wireguard_tools.Config.Line.{cleaned, config_read_line, read_lines, config_read_init}
use wireguard_tools.Config.Numbers.{is_known}
use wireguard_tools.Config.Outcome.{done}
use wireguard_tools.Config.System.{System, resolved}
use wireguard_tools.Config.WsUrl.{is_ws_url}
use wireguard_tools.Containers.{carried_ip, zero_peer, Device, zero_device}
use wireguard_tools.Ctype.{char_is_space}
use wireguard_tools.Libc.Number.{strtoul}
use wireguard_tools.Libc.Print.{strtoul-print_dec}
use wireguard_tools.Prelude.{
  map, ℕ, ◌<◌, ◌≡◌, refl, arith, true, false, none, some, codes, List, [], ◌∷◌, Bytes,
}
use wireguard_tools.Showconf.Interface.{ReadsPorts, said, interface_lines-read}
use wireguard_tools.Showconf.Cut.{with_bearer, server_bearer_cut}
use wireguard_tools.Showconf.Section.{in_device}
use wireguard_tools.Showconf.{AddressNames, ips_text, interface_lines, key_line}
use wireguard_tools.Tests.Setup.{listen, test_key, test_system, small-IsBytes}

-- The resolver that reads a number and takes it for the port.
abbrev port_system : System
port_system = record test_system {
  lookup_port = λ s.
      resolved (record listen { ai_addr = record (listen.ai_addr) { port = (strtoul 10 s).0 } });
}

port_system-ReadsPorts : ReadsPorts port_system
unfolding is_known
port_system-ReadsPorts n h = (
  record listen { ai_addr = record (listen.ai_addr) { port = n } },
  rw (strtoul-print_dec n (omega arith)) refl,
  refl,
  refl,
)

abbrev shown_device : Device
shown_device = record zero_device {
  listen_port = 51820;
  fwmark = 42;
  private_key = test_key;
  ws_listen = some (codes "wss://vpn.example.com/tunnel");
  ws_server_bearer = some (codes "s3cret");
  ws_trusted_proxies = some [];
  flags = record (zero_device.flags) { has_private_key = true };
}

interface_lines-read_example :
    read_lines port_system (config_read_init false) (interface_lines shown_device)
    ≡ done (in_device (said shown_device))
unfolding char_is_space is_ws_url wireguard_tools.Libc.Text.strip_prefix
    wireguard_tools.Prelude.to_lower
interface_lines-read_example =
    interface_lines-read port_system shown_device port_system-ReadsPorts (record {
      listen_port = omega arith;
      fwmark = omega arith;
      private_key = (refl, small-IsBytes test_key refl);
      ws_listen = refl;
      ws_listen_url = refl;
      ws_server_tls_cert = tt;
      ws_server_tls_key = tt;
      ws_server_bearer = refl;
      ws_trusted_proxies = tt;
    })

server_bearer_cut_example :
    config_read_line port_system
      (in_device shown_device)
      (key_line (codes "WSServerBearer") (codes "s3c#ret"))
    ≡ done (in_device (with_bearer (codes "s3c") shown_device))
unfolding char_is_space
server_bearer_cut_example =
    server_bearer_cut port_system shown_device (codes "s3c") (codes "ret") refl refl

abbrev ten_names : AddressNames
ten_names = record { ntop4 = λ b. some (codes "10.0.0.0"); ntop6 = λ b. none; nameinfo = λ a. none }

ten_text : IsAddressText (codes "10.0.0.0")
unfolding char_is_space wireguard_tools.Libc.Text.contains
    wireguard_tools.Config.AllowedIps.is_incremental
ten_text = record {
  plain = refl;
  no_comma = refl;
  no_slash = refl;
  no_sign = refl;
  nonempty = refl;
}

parse_allowedips-ips_text_example :
    parse_allowedips test_system zero_peer (cleaned (ips_text ten_names (net 8 ∷ net 32 ∷ [])))
    ≡ done
        (record (set_replace true zero_peer) { allowedips = map carried_ip (net 8 ∷ net 32 ∷ []) })
unfolding wireguard_tools.Libc.Text.contains
parse_allowedips-ips_text_example =
    parse_allowedips-ips_text test_system ten_names (net 8) (net 32 ∷ []) zero_peer (
      ((refl, omega arith, omega arith), (codes "10.0.0.0", refl, refl, refl, ten_text)),
      (((refl, omega arith, omega arith), (codes "10.0.0.0", refl, refl, refl, ten_text)), tt),
    )
