-- ===== src/Config/WsPeer.antt =====
-- src/config.c: `validate_ws_peer`.
pub mod Rules
use wireguard_tools.Config.WsUrl.{is_some}
use wireguard_tools.Containers.{is_udp, Peer, Transport, udp, websocket, wstunnel, is_inet}
use wireguard_tools.Prelude.{Bool, true, false, not, ◌&&◌, if◌then◌else◌, Option}

abbrev is_wstunnel : Transport → Bool
is_wstunnel wstunnel = true
is_wstunnel _ = false

abbrev is_websocket : Transport → Bool
is_websocket websocket = true
is_websocket _ = false

-- The checks in the order of the source, on what the peer says: whether the transport is declared,
-- the transport, and whether an endpoint, a URL, a target and any WebSocket setting are there.
unfoldable pub ws_checks : Bool → Transport → Bool → Bool → Bool → Bool → Bool
ws_checks declared transport has_ep has_url has_target has_settings =
    if not declared
    then true
    else if is_udp transport
    then (if has_url then false else if has_settings then false else true)
    else if has_url && not has_ep
    then false
    else if has_url && (is_wstunnel transport && not has_target)
    then false
    else if not has_url && has_ep
    then false
    else if not has_url && is_wstunnel transport
    then false
    else if not has_url && has_target
    then false
    else if is_websocket transport && has_target
    then false
    else true

unfoldable pub validate_ws_peer : Peer → Bool
unfolding ws_checks
validate_ws_peer p =
    ws_checks p.flags.has_transport p.transport (is_inet p.endpoint.family) (is_some p.ws_url)
      (is_some p.wstunnel_target) p.flags.has_ws_settings
