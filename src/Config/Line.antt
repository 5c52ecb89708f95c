-- ===== src/Config/Line.antt =====
-- src/config.c: `get_value`, `process_line`, `config_read_line`, `config_read_init`,
-- `config_read_finish`, and the loop over the lines of src/setconf.c's `setconf_main`.
-- `last_peer` is the last of the device's peers and `last_allowedip` the last entry of that peer.
pub mod Keys
pub mod Peers
pub mod File
pub mod Whole
pub mod Safe
pub mod NoFault
pub mod Spaces
use Keys.{DeviceKey, PeerKey, device_keys, peer_keys, find_key, set_device_key, set_peer_key}
use wireguard_tools.Config.Numbers.{is_empty}
use wireguard_tools.Config.Outcome.{Outcome, done, fail, fault, ◌>>=◌}
use wireguard_tools.Config.System.{System}
use wireguard_tools.Config.WsPeer.{validate_ws_peer}
use wireguard_tools.Containers.{
  Peer, PeerFlags, Device, DeviceFlags, zero_peer, zero_peer_flags, zero_device, zero_device_flags,
}
use wireguard_tools.Ctype.{char_is_space}
use wireguard_tools.Libc.Text.{span_until}
use wireguard_tools.Prelude.{
  Bool, true, false, not, ◌&&◌, Option, none, some, List, [], ◌∷◌, ◌++◌, if◌then◌else◌, Bytes,
  codes, char_int, equal_nocase, all,
}

-- `struct config_ctx`
pub record Ctx : Type 0 where
  pub device : Device
  pub is_peer_section : Bool
  pub is_device_section : Bool

-- A change through `ctx->last_peer`; the pointer is NULL while there is no peer.
unfoldable pub update_last : (Peer → Outcome Peer) → List Peer → Outcome (List Peer)
update_last f [] = fault
update_last f (p ∷ []) = f p >>= λ q. done (q ∷ [])
update_last f (p ∷ q ∷ ps) = update_last f (q ∷ ps) >>= λ qs. done (p ∷ qs)

abbrev pub set_peers : Ctx → List Peer → Ctx
set_peers ctx ps = record ctx { device = record (ctx.device) { peers = ps } }

-- The peer that a `[Peer]` line starts.
abbrev pub file_peer : Peer
file_peer = record zero_peer {
  flags = record zero_peer_flags { replace_allowedips = true; has_transport = true };
}

unfoldable pub device_line : System → Ctx → Bytes → Outcome Ctx
device_line sys ctx line = elim (find_key device_keys line) [
  | none ↦ fail
  | some (key, value) ↦
      set_device_key sys key value ctx.device >>= λ d. done (record ctx { device = d })
]

unfoldable pub peer_line : System → Ctx → Bytes → Outcome Ctx
peer_line sys ctx line = elim (find_key peer_keys line) [
  | none ↦ fail
  | some (key, value) ↦
      update_last (set_peer_key sys key value) ctx.device.peers >>= λ ps. done (set_peers ctx ps)
]

unfoldable pub process_line : System → Ctx → Bytes → Outcome Ctx
process_line sys ctx line =
    if equal_nocase line (codes "[Interface]")
    then done (record ctx { is_peer_section = false; is_device_section = true })
    else if equal_nocase line (codes "[Peer]")
    then done (record (set_peers ctx (ctx.device.peers ++ file_peer ∷ [])) {
      is_peer_section = true;
      is_device_section = false;
    })
    else if ctx.is_device_section
    then device_line sys ctx line
    else if ctx.is_peer_section
    then peer_line sys ctx line
    else fail

-- Also `strip_spaces` of the command line.
unfoldable pub strip_spaces : Bytes → Bytes
strip_spaces [] = []
strip_spaces (c ∷ s) =
    if not (char_is_space (char_int c)) then c ∷ strip_spaces s else strip_spaces s

-- The text before the comment without white space.
unfoldable pub cleaned : Bytes → Bytes
cleaned input = strip_spaces (span_until b'#' input).0

unfoldable pub config_read_line : System → Ctx → Bytes → Outcome Ctx
config_read_line sys ctx input =
    if is_empty (cleaned input) then done ctx else process_line sys ctx (cleaned input)

unfoldable pub config_read_init : Bool → Ctx
config_read_init append = record {
  device = record zero_device {
    flags = if append then zero_device_flags else (record zero_device_flags {
      replace_peers = true;
      has_private_key = true;
      has_fwmark = true;
      has_listen_port = true;
    });
  };
  is_peer_section = false;
  is_device_section = false;
}

abbrev pub is_complete : Peer → Bool
is_complete p = p.flags.has_public_key && validate_ws_peer p

unfoldable pub config_read_finish : Ctx → Outcome Device
config_read_finish ctx = if all is_complete ctx.device.peers then done ctx.device else fail

unfoldable pub read_lines : System → Ctx → List Bytes → Outcome Ctx
read_lines sys ctx [] = done ctx
read_lines sys ctx (l ∷ ls) = do ctx' ← config_read_line sys ctx l; read_lines sys ctx' ls

-- What `setconf` and `addconf` read out of a file.
unfoldable pub read_config : System → Bool → List Bytes → Outcome Device
read_config sys append ls = do
  ctx ← read_lines sys (config_read_init append) ls
  config_read_finish ctx
