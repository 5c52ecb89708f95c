-- ===== src/Tests/Command.antt =====
-- src/config.c: `config_read_cmd` on concrete arguments.
use wireguard_tools.Config.Command.NoFault.{config_read_cmd-not_fault}
use wireguard_tools.Config.Command.Read.{IsCommanded, config_read_cmd-IsDevice}
use wireguard_tools.Config.Command.{config_read_cmd, keyed_peer, with_transport}
use wireguard_tools.Config.Line.File.{IsDevice}
use wireguard_tools.Config.Outcome.{done, fail, fault}
use wireguard_tools.Containers.{inet, Peer, Device, zero_device}
use wireguard_tools.Prelude.{◌≡◌, ◌≢◌, refl, true, false, List, [], ◌∷◌, Bytes, codes, All, IsBytes}
use wireguard_tools.Tests.Setup.{remote, test_system, test_system-IsSystem, lines-IsBytes, test_key}

abbrev args : List Bytes
args =
    codes "fwmark"
    ∷ codes "7"
    ∷ codes "peer"
    ∷ codes "AQIDBAUGBwgJCgsMDQ4PEBESExQVFhcYGRobHB0eHyA="
    ∷ codes "endpoint"
    ∷ codes "vpn.example.com:51820"
    ∷ codes "allowed-ips"
    ∷ codes "10.0.0.0/8, +10.0.0.0/32"
    ∷ codes "remove"
    ∷ []

abbrev args_peer : Peer
args_peer = record (keyed_peer test_key) {
  endpoint = remote.ai_addr;
  allowedips =
      record { family = inet; ip = 10 ∷ 0 ∷ 0 ∷ 0 ∷ []; cidr = 8; remove_me = false }
      ∷ record { family = inet; ip = 10 ∷ 0 ∷ 0 ∷ 0 ∷ []; cidr = 32; remove_me = false }
      ∷ [];
  flags = record ((with_transport (keyed_peer test_key)).flags) { remove_me = true };
}

abbrev args_device : Device
args_device = record zero_device {
  fwmark = 7;
  flags = record (zero_device.flags) { has_fwmark = true };
  peers = args_peer ∷ [];
}

config_read_cmd_test : config_read_cmd test_system args ≡ done args_device
unfolding wireguard_tools.Config.Command.config_read_cmd wireguard_tools.Config.Command.read_args
    wireguard_tools.Config.Command.pair_step wireguard_tools.Config.Command.is_remove
    wireguard_tools.Config.Command.find_word wireguard_tools.Config.Command.command_device_key
    wireguard_tools.Config.Command.command_peer_key wireguard_tools.Config.Line.read_config
    wireguard_tools.Config.Line.read_lines wireguard_tools.Config.Line.config_read_line
    wireguard_tools.Config.Line.cleaned wireguard_tools.Config.Line.strip_spaces
    wireguard_tools.Config.Line.process_line wireguard_tools.Config.Line.device_line
    wireguard_tools.Config.Line.peer_line wireguard_tools.Config.Line.update_last
    wireguard_tools.Config.Line.config_read_finish wireguard_tools.Config.Line.config_read_init
    wireguard_tools.Config.Line.Keys.find_key wireguard_tools.Config.Line.Keys.set_device_key
    wireguard_tools.Config.Line.Keys.set_peer_key wireguard_tools.Config.Line.Keys.get_value
    wireguard_tools.Config.Numbers.parse_port wireguard_tools.Config.Numbers.parse_fwmark
    wireguard_tools.Ctype.char_is_space wireguard_tools.Ctype.char_is_digit
    wireguard_tools.Libc.Text.span_until wireguard_tools.Libc.Text.strip_prefix
    wireguard_tools.Libc.Text.split_all wireguard_tools.Libc.Text.contains
    wireguard_tools.Libc.Text.split_first wireguard_tools.Libc.Text.split_last
    wireguard_tools.Prelude.equal_nocase wireguard_tools.Prelude.equal
    wireguard_tools.Prelude.to_lower wireguard_tools.Libc.Number.strtoul
    wireguard_tools.Libc.Number.skip_0x wireguard_tools.Libc.Number.read_sign
    wireguard_tools.Libc.Number.skip_spaces wireguard_tools.Libc.Number.digit_value
    wireguard_tools.Libc.Number.read_digits wireguard_tools.Config.Keys.parse_key
    wireguard_tools.Encoding.Base64.key_from_base64 wireguard_tools.Encoding.Base64.decode_from
    wireguard_tools.Encoding.Flag.is_zero_flag wireguard_tools.Encoding.Base64.decode_base64
    wireguard_tools.Encoding.Base64.decode_sextet wireguard_tools.Config.AllowedIps.parse_allowedips
    wireguard_tools.Config.AllowedIps.is_incremental wireguard_tools.Config.AllowedIps.parse_cidr
    wireguard_tools.Config.AllowedIps.parse_entries wireguard_tools.Config.AllowedIps.parse_entry
    wireguard_tools.Config.AllowedIps.parse_ip wireguard_tools.Config.AllowedIps.split_mask
    wireguard_tools.Config.AllowedIps.unsigned wireguard_tools.Config.Endpoint.behind_first
    wireguard_tools.Config.Endpoint.endpoint_parts wireguard_tools.Config.Endpoint.lookup_endpoint
    wireguard_tools.Config.Endpoint.lookup_from wireguard_tools.Config.Endpoint.next_timeout
    wireguard_tools.Config.Endpoint.parse_endpoint wireguard_tools.Config.Endpoint.port_of
    wireguard_tools.Config.Numbers.is_known wireguard_tools.Config.Numbers.number_to
    wireguard_tools.Config.Numbers.parse_dns_retries
    wireguard_tools.Config.Numbers.parse_persistent_keepalive
    wireguard_tools.Config.WsPeer.validate_ws_peer wireguard_tools.Config.WsPeer.ws_checks
    wireguard_tools.Config.WsUrl.is_ws_url
config_read_cmd_test = refl

-- A key of a peer before any peer is refused.
config_read_cmd_no_peer :
    config_read_cmd test_system (codes "persistent-keepalive" ∷ codes "25" ∷ []) ≡ fail
unfolding wireguard_tools.Config.Command.config_read_cmd wireguard_tools.Config.Command.read_args
    wireguard_tools.Config.Command.pair_step wireguard_tools.Config.Command.is_remove
    wireguard_tools.Config.Command.find_word wireguard_tools.Config.Command.command_device_key
    wireguard_tools.Config.Command.command_peer_key wireguard_tools.Config.Line.read_config
    wireguard_tools.Config.Line.read_lines wireguard_tools.Config.Line.config_read_line
    wireguard_tools.Config.Line.cleaned wireguard_tools.Config.Line.strip_spaces
    wireguard_tools.Config.Line.process_line wireguard_tools.Config.Line.device_line
    wireguard_tools.Config.Line.peer_line wireguard_tools.Config.Line.update_last
    wireguard_tools.Config.Line.config_read_finish wireguard_tools.Config.Line.config_read_init
    wireguard_tools.Config.Line.Keys.find_key wireguard_tools.Config.Line.Keys.set_device_key
    wireguard_tools.Config.Line.Keys.set_peer_key wireguard_tools.Config.Line.Keys.get_value
    wireguard_tools.Config.Numbers.parse_port wireguard_tools.Config.Numbers.parse_fwmark
    wireguard_tools.Ctype.char_is_space wireguard_tools.Ctype.char_is_digit
    wireguard_tools.Libc.Text.span_until wireguard_tools.Libc.Text.strip_prefix
    wireguard_tools.Libc.Text.split_all wireguard_tools.Libc.Text.contains
    wireguard_tools.Libc.Text.split_first wireguard_tools.Libc.Text.split_last
    wireguard_tools.Prelude.equal_nocase wireguard_tools.Prelude.equal
    wireguard_tools.Prelude.to_lower wireguard_tools.Libc.Number.strtoul
    wireguard_tools.Libc.Number.skip_0x wireguard_tools.Libc.Number.read_sign
    wireguard_tools.Libc.Number.skip_spaces wireguard_tools.Libc.Number.digit_value
    wireguard_tools.Libc.Number.read_digits wireguard_tools.Config.Keys.parse_key
    wireguard_tools.Encoding.Base64.key_from_base64 wireguard_tools.Encoding.Base64.decode_from
    wireguard_tools.Encoding.Flag.is_zero_flag wireguard_tools.Encoding.Base64.decode_base64
    wireguard_tools.Encoding.Base64.decode_sextet wireguard_tools.Config.AllowedIps.parse_allowedips
    wireguard_tools.Config.AllowedIps.is_incremental wireguard_tools.Config.AllowedIps.parse_cidr
    wireguard_tools.Config.AllowedIps.parse_entries wireguard_tools.Config.AllowedIps.parse_entry
    wireguard_tools.Config.AllowedIps.parse_ip wireguard_tools.Config.AllowedIps.split_mask
    wireguard_tools.Config.AllowedIps.unsigned wireguard_tools.Config.Endpoint.behind_first
    wireguard_tools.Config.Endpoint.endpoint_parts wireguard_tools.Config.Endpoint.lookup_endpoint
    wireguard_tools.Config.Endpoint.lookup_from wireguard_tools.Config.Endpoint.next_timeout
    wireguard_tools.Config.Endpoint.parse_endpoint wireguard_tools.Config.Endpoint.port_of
    wireguard_tools.Config.Numbers.is_known wireguard_tools.Config.Numbers.number_to
    wireguard_tools.Config.Numbers.parse_dns_retries
    wireguard_tools.Config.Numbers.parse_persistent_keepalive
    wireguard_tools.Config.WsPeer.validate_ws_peer wireguard_tools.Config.WsPeer.ws_checks
    wireguard_tools.Config.WsUrl.is_ws_url
config_read_cmd_no_peer = refl

config_read_cmd-IsDevice_example : IsDevice false args_device × All IsCommanded args_device.peers
config_read_cmd-IsDevice_example =
    config_read_cmd-IsDevice test_system test_system-IsSystem args {d = args_device}
      (lines-IsBytes args refl) config_read_cmd_test

config_read_cmd-not_fault_example : config_read_cmd test_system args ≢ fault
config_read_cmd-not_fault_example = config_read_cmd-not_fault test_system args
