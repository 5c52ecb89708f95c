-- ===== src/Config/WsValues.antt =====
-- src/config.c: the values of the other WebSocket keys. `strdup` does not fail here, and a stored
-- string is a copy of the value.
pub mod Target
use wireguard_tools.Config.Numbers.{is_empty}
use wireguard_tools.Config.Outcome.{Outcome, done, fail}
use wireguard_tools.Config.WsUrl.{is_ws_url}
use wireguard_tools.Containers.{Transport, websocket, wstunnel}
use wireguard_tools.Libc.Text.{split_last}
use wireguard_tools.Prelude.{
  Bool, true, false, not, ◌&&◌, ◌||◌, Option, none, some, if◌then◌else◌, leb, Bytes, codes, equal,
  all,
}

unfoldable pub parse_ws_mode : Bytes → Outcome Transport
parse_ws_mode value =
    if not (equal value (codes "websocket")) && not (equal value (codes "wstunnel"))
    then fail
    else done (if equal value (codes "wstunnel") then wstunnel else websocket)

-- The port is any run of digits, even of one that is no port number.
unfoldable pub parse_ws_target : Bytes → Outcome Bytes
parse_ws_target value = elim (split_last b':' value) [
  | none ↦ fail
  | some (host, port) ↦
      if is_empty host || (is_empty port || not (all (λ c. leb b'0' c && leb c b'9') port))
      then fail
      else done value
]

unfoldable pub parse_ws_bool : Bytes → Outcome Bool
parse_ws_bool value =
    if equal value (codes "true")
    then done true
    else if equal value (codes "false")
    then done false
    else fail

-- `parse_ws_str` and `parse_ws_secret`
unfoldable pub parse_ws_str : Bytes → Outcome Bytes
parse_ws_str value = if is_empty value then fail else done value

-- `parse_ws_device_str`: an empty value clears the field.
unfoldable pub parse_ws_device_str : Bytes → Option Bytes
parse_ws_device_str value = if is_empty value then none else some value

-- `parse_ws_listen`: empty, or a URL.
unfoldable pub parse_ws_listen : Bytes → Outcome (Option Bytes)
unfolding parse_ws_device_str
parse_ws_listen value =
    if not (is_empty value) && not (is_ws_url value) then fail else done (parse_ws_device_str value)
