-- ===== src/Tests/Config.antt =====
-- src/config.c on concrete values, peers and files.
use wireguard_tools.Config.AllowedIps.Entries.{Extends, tokens_of, parse_allowedips-Extends}
use wireguard_tools.Config.AllowedIps.{parse_allowedips, set_replace}
use wireguard_tools.Config.Endpoint.Retry.{lookup_from_ends}
use wireguard_tools.Config.Endpoint.{lookup_from, first_timeout, parse_endpoint, endpoint_parts}
use wireguard_tools.Config.Line.Keys.{set_peer_key, set_device_key, find_key}
use wireguard_tools.Config.Line.Keys
use wireguard_tools.Config.Line.File.{IsDevice}
use wireguard_tools.Config.Line.NoFault.{read_config-not_fault}
use wireguard_tools.Config.Line.Whole.{
  IsFinished, IsPlain, read_config-IsFinished, read_config-IsPlain,
}
use wireguard_tools.Config.Line.{
  config_read_init, config_read_line, read_config, read_lines, cleaned, process_line, device_line,
  peer_line, update_last, config_read_finish, strip_spaces, file_peer,
}
use wireguard_tools.Config.Netmask.HostBits.{validate_netmask_iff, address}
use wireguard_tools.Config.Netmask.{validate_netmask}
use wireguard_tools.Config.Numbers.RoundTrip.{parse_ws_millis_wraps}
use wireguard_tools.Config.Numbers.{
  parse_port, parse_fwmark, parse_persistent_keepalive, parse_ws_millis,
}
use wireguard_tools.Config.Outcome.{◌>>=◌, done, waiting, fault}
use wireguard_tools.Config.WsPeer.Rules.{IsConsistentPeer, validate_ws_peer_iff}
use wireguard_tools.Config.WsPeer.{validate_ws_peer}
use wireguard_tools.Config.WsUrl.HostPort.{parse_ws_endpoint-authority}
use wireguard_tools.Config.WsUrl.Spelled.{IsWsUrl, authority}
use wireguard_tools.Config.WsUrl.Whole.{ws_url_split_iff}
use wireguard_tools.Config.WsUrl.{ws_url_split, parse_ws_endpoint}
use wireguard_tools.Containers.{inet, AllowedIp, Peer, Device, zero_device, zero_device_flags}
use wireguard_tools.Libc.Print.{print_dec}
use wireguard_tools.Ctype.{char_is_space}
use wireguard_tools.Libc.Text.{contains, span_until, strip_prefix}
use wireguard_tools.Prelude.{
  equal_nocase, ℕ, ◌+◌, ◌*◌, ◌%◌, ◌-◌, ◌^◌, ◌<◌, ◌≤◌, ◌≡◌, ◌≢◌, ◌↔◌, inr, refl, arith, Bool, true,
  false, some, none, [], ◌∷◌, Bytes, codes, IsBytes, All, length,
}
use wireguard_tools.Tests.Setup.{
  remote, test_system, test_system-IsSystem, small-IsBytes, lines-IsBytes, test_key, test_lines,
}

abbrev pub net : ℕ → AllowedIp
net cidr = record { family = inet; ip = 10 ∷ 0 ∷ 0 ∷ 0 ∷ []; cidr = cidr; remove_me = false }

abbrev pub test_peer : Peer
test_peer = record file_peer {
  public_key = test_key;
  endpoint = remote.ai_addr;
  persistent_keepalive_interval = 25;
  allowedips = net 8 ∷ net 32 ∷ [];
  flags = record (file_peer.flags) { has_public_key = true; has_keepalive = true };
}

abbrev pub test_device : Device
test_device = record zero_device {
  listen_port = 51820;
  fwmark = 42;
  flags = record zero_device_flags {
    replace_peers = true;
    has_private_key = true;
    has_fwmark = true;
    has_listen_port = true;
  };
  peers = test_peer ∷ [];
}

pub read_config_test : read_config test_system false test_lines ≡ done test_device
unfolding read_config read_lines config_read_line cleaned strip_spaces process_line device_line
    peer_line update_last config_read_finish config_read_init
    wireguard_tools.Config.Line.Keys.find_key wireguard_tools.Config.Line.Keys.set_device_key
    wireguard_tools.Config.Line.Keys.set_peer_key wireguard_tools.Config.Line.Keys.get_value
    wireguard_tools.Config.Numbers.parse_port wireguard_tools.Config.Numbers.parse_fwmark
    wireguard_tools.Ctype.char_is_space wireguard_tools.Ctype.char_is_digit
    wireguard_tools.Libc.Text.span_until wireguard_tools.Libc.Text.strip_prefix
    wireguard_tools.Libc.Text.split_all wireguard_tools.Libc.Text.contains
    wireguard_tools.Libc.Text.split_first wireguard_tools.Libc.Text.split_last
    wireguard_tools.Prelude.equal_nocase wireguard_tools.Prelude.equal
    wireguard_tools.Prelude.to_lower wireguard_tools.Libc.Number.strtoul
    wireguard_tools.Libc.Number.skip_0x wireguard_tools.Libc.Number.read_sign
    wireguard_tools.Libc.Number.skip_spaces wireguard_tools.Libc.Number.digit_value
    wireguard_tools.Libc.Number.read_digits wireguard_tools.Config.Keys.parse_key
    wireguard_tools.Encoding.Base64.key_from_base64 wireguard_tools.Encoding.Base64.decode_from
    wireguard_tools.Encoding.Flag.is_zero_flag wireguard_tools.Encoding.Base64.decode_base64
    wireguard_tools.Encoding.Base64.decode_sextet wireguard_tools.Config.AllowedIps.parse_allowedips
    wireguard_tools.Config.AllowedIps.is_incremental wireguard_tools.Config.AllowedIps.parse_cidr
    wireguard_tools.Config.AllowedIps.parse_entries wireguard_tools.Config.AllowedIps.parse_entry
    wireguard_tools.Config.AllowedIps.parse_ip wireguard_tools.Config.AllowedIps.split_mask
    wireguard_tools.Config.AllowedIps.unsigned wireguard_tools.Config.Endpoint.behind_first
    wireguard_tools.Config.Endpoint.endpoint_parts wireguard_tools.Config.Endpoint.lookup_endpoint
    wireguard_tools.Config.Endpoint.lookup_from wireguard_tools.Config.Endpoint.next_timeout
    wireguard_tools.Config.Endpoint.parse_endpoint wireguard_tools.Config.Endpoint.port_of
    wireguard_tools.Config.Numbers.is_known wireguard_tools.Config.Numbers.number_to
    wireguard_tools.Config.Numbers.parse_dns_retries
    wireguard_tools.Config.Numbers.parse_persistent_keepalive
    wireguard_tools.Config.WsPeer.validate_ws_peer wireguard_tools.Config.WsPeer.ws_checks
    wireguard_tools.Config.WsUrl.is_ws_url
read_config_test = refl

pub test_lines-IsBytes : All IsBytes test_lines
test_lines-IsBytes = lines-IsBytes test_lines refl

read_config-IsFinished_example : IsDevice true test_device × All IsFinished test_device.peers
read_config-IsFinished_example =
    read_config-IsFinished test_system test_system-IsSystem false test_lines {d = test_device}
      test_lines-IsBytes read_config_test

read_config-IsPlain_example : All IsPlain test_device.peers
read_config-IsPlain_example =
    read_config-IsPlain test_system test_system-IsSystem false test_lines {d = test_device}
      test_lines-IsBytes read_config_test

read_config-not_fault_example : read_config test_system false test_lines ≢ fault
read_config-not_fault_example =
    read_config-not_fault test_system test_system-IsSystem false test_lines test_lines-IsBytes

abbrev busy_peer : Peer
busy_peer = record file_peer {
  persistent_keepalive_interval = 25;
  flags = record (file_peer.flags) { has_keepalive = true };
}

keepalive_test :
    set_peer_key test_system Keys.persistent_keepalive (codes "25") file_peer ≡ done busy_peer
unfolding wireguard_tools.Config.Line.Keys.set_peer_key
    wireguard_tools.Config.Numbers.parse_persistent_keepalive
    wireguard_tools.Config.Numbers.number_to equal_nocase wireguard_tools.Ctype.char_is_digit
    wireguard_tools.Libc.Number.strtoul wireguard_tools.Libc.Number.skip_0x
    wireguard_tools.Libc.Number.read_sign wireguard_tools.Libc.Number.skip_spaces
    wireguard_tools.Libc.Number.digit_value wireguard_tools.Libc.Number.read_digits
keepalive_test = refl

abbrev two_entries : Peer
two_entries = record (set_replace true file_peer) { allowedips = net 8 ∷ net 32 ∷ [] }

allowedips_test :
    parse_allowedips test_system file_peer (codes "10.0.0.0/8,10.0.0.0") ≡ done two_entries
unfolding parse_allowedips wireguard_tools.Libc.Text.split_all
    wireguard_tools.Config.AllowedIps.parse_entry wireguard_tools.Config.AllowedIps.parse_ip
    contains wireguard_tools.Libc.Text.split_first wireguard_tools.Config.AllowedIps.parse_cidr
    wireguard_tools.Ctype.char_is_digit wireguard_tools.Libc.Number.strtoul
    wireguard_tools.Libc.Number.skip_0x wireguard_tools.Libc.Number.read_sign
    wireguard_tools.Libc.Number.skip_spaces wireguard_tools.Libc.Number.digit_value
    wireguard_tools.Libc.Number.read_digits wireguard_tools.Config.AllowedIps.is_incremental
allowedips_test = refl

parse_allowedips-Extends_example :
    Extends (set_replace true file_peer) (tokens_of (codes "10.0.0.0/8,10.0.0.0")) two_entries
parse_allowedips-Extends_example =
    parse_allowedips-Extends test_system test_system-IsSystem file_peer
      (codes "10.0.0.0/8,10.0.0.0") {q = two_entries} allowedips_test

validate_ws_peer_iff_example :
    (validate_ws_peer test_peer ≡ true)
    ↔ (test_peer.flags.has_transport ≡ true → IsConsistentPeer test_peer)
validate_ws_peer_iff_example = validate_ws_peer_iff test_peer

validate_netmask_iff_example :
    (validate_netmask (net 8) ≡ true) ↔ (address (net 8).ip 1 % 2 ^ (32 * 1 - 8) ≡ 0)
validate_netmask_iff_example = validate_netmask_iff (net 8) (small-IsBytes (net 8).ip refl)

lookup_from_ends_example :
    ((lookup_from test_system (codes "vpn") (codes "1") 16 0 (some 15) first_timeout).answer
      ≢ waiting)
    × (length
          (lookup_from test_system (codes "vpn") (codes "1") 16 0 (some 15) first_timeout).pauses
        ≤ 15)
lookup_from_ends_example =
    lookup_from_ends test_system (codes "vpn") (codes "1") 16 0 15 first_timeout (omega arith)

abbrev url : Bytes
url = codes "wss://[fd00::1]:443/path"

abbrev url-IsWsUrl : IsWsUrl 256 16 true url (codes "fd00::1") (codes "443")
unfolding contains
url-IsWsUrl = record {
  scheme = codes "wss://";
  scheme_is = inr (unfold equal_nocase in refl);
  path = codes "/path";
  path_start = refl;
  spelled = refl;
  readable = refl;
  port_plain = refl;
  host_nonempty = refl;
  port_nonempty = refl;
  host_fits = omega arith;
  port_fits = omega arith;
}

ws_url_split_iff_example :
    (ws_url_split url 256 16 ≡ some (codes "fd00::1", codes "443"))
    ↔ ((brackets : Bool) × IsWsUrl 256 16 brackets url (codes "fd00::1") (codes "443"))
ws_url_split_iff_example = ws_url_split_iff url 256 16 (codes "fd00::1") (codes "443")

url_test : ws_url_split url 256 16 ≡ some (codes "fd00::1", codes "443")
unfolding ws_url_split strip_prefix wireguard_tools.Prelude.to_lower
    wireguard_tools.Libc.Text.split_first span_until
url_test = refl

parse_ws_endpoint-authority_example :
    (parse_ws_endpoint test_system file_peer url ≡ (
      parse_endpoint test_system
        (authority (contains b':' (codes "fd00::1")) (codes "fd00::1") (codes "443"))
      >>= λ addr. done (record file_peer { endpoint = addr; ws_url = some url })))
    × (endpoint_parts (authority (contains b':' (codes "fd00::1")) (codes "fd00::1") (codes "443"))
        ≡ some (codes "fd00::1", codes "443"))
unfolding contains
parse_ws_endpoint-authority_example =
    parse_ws_endpoint-authority test_system file_peer url (codes "fd00::1") (codes "443")
      url-IsWsUrl

parse_ws_millis_wraps_example : parse_ws_millis (b'-' ∷ print_dec (2 ^ 64 - 7)) ≡ done 7
parse_ws_millis_wraps_example = parse_ws_millis_wraps 7 (omega arith) (omega arith)
