-- ===== src/Config/WsPeer/Rules.antt =====
-- The peers that src/config.c's `validate_ws_peer` lets through.
use wireguard_tools.Config.WsPeer.{ws_checks, validate_ws_peer}
use wireguard_tools.Config.WsUrl.{is_some}
use wireguard_tools.Containers.{Peer, Transport, udp, websocket, wstunnel, is_inet}
use wireguard_tools.Prelude.{Bool, true, false, ◌≡◌, ◌↔◌, refl, arith}

-- What each transport asks for: UDP no URL and no WebSocket setting; websocket an endpoint exactly
-- with a URL, and no tunnel target; wstunnel an endpoint, a URL and a target.
abbrev pub IsConsistent : Transport → Bool → Bool → Bool → Bool → Type 0
IsConsistent udp ep url target settings = (url ≡ false) × (settings ≡ false)
IsConsistent websocket ep url target settings = (ep ≡ url) × (target ≡ false)
IsConsistent wstunnel ep url target settings = (ep ≡ true) × (url ≡ true) × (target ≡ true)

abbrev pub IsConsistentPeer : Peer → Type 0
IsConsistentPeer p =
    IsConsistent p.transport (is_inet p.endpoint.family) (is_some p.ws_url)
      (is_some p.wstunnel_target) p.flags.has_ws_settings

ws_checks_iff :
    (t : Transport) (ep url target settings : Bool)
    → (ws_checks true t ep url target settings ≡ true) ↔ IsConsistent t ep url target settings
unfolding ws_checks
ws_checks_iff udp ep url target settings = (λ e. ground arith, λ h. ground arith)
ws_checks_iff websocket ep url target settings = (λ e. ground arith, λ h. ground arith)
ws_checks_iff wstunnel ep url target settings = (λ e. ground arith, λ h. ground arith)

declared_iff :
    (declared : Bool) (t : Transport) (ep url target settings : Bool)
    → (ws_checks declared t ep url target settings ≡ true)
      ↔ (declared ≡ true → IsConsistent t ep url target settings)
declared_iff true t ep url target settings =
    let rule = ws_checks_iff t ep url target settings in (λ e _. rule.0 e, λ h. rule.1 (h refl))
declared_iff false t ep url target settings = (λ e f. cc, λ h. unfold ws_checks in refl)

-- `validate_ws_peer` answers yes exactly for a peer that, where the command declares its transport,
-- has what the transport asks for and nothing that it forbids.
pub validate_ws_peer_iff :
    (p : Peer) → (validate_ws_peer p ≡ true) ↔ (p.flags.has_transport ≡ true → IsConsistentPeer p)
unfolding validate_ws_peer
validate_ws_peer_iff p =
    declared_iff p.flags.has_transport p.transport (is_inet p.endpoint.family) (is_some p.ws_url)
      (is_some p.wstunnel_target) p.flags.has_ws_settings
