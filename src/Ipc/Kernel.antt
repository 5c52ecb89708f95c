-- ===== src/Ipc/Kernel.antt =====
-- src/ipc.c: what the kernel's back end is given of a configuration file.
use wireguard_tools.Config.Line.Whole.{IsPlain, read_config-IsPlain}
use wireguard_tools.Config.Line.Peers.{NoSettings}
use wireguard_tools.Config.Line.{read_config}
use wireguard_tools.Config.Outcome.{done}
use wireguard_tools.Config.System.{System, IsSystem}
use wireguard_tools.Containers.{is_udp, Transport, udp, websocket, wstunnel, Peer, Device}
use wireguard_tools.Ipc.{kernel, not_empty, is_set, device_has_ws_settings, ipc_set_device}
use wireguard_tools.Prelude.{
  ◌≡◌, refl, arith, Bool, true, false, not, Option, none, some, List, [], ◌∷◌, Bytes, IsBytes, All,
  any, Bool-cases, inl, inr,
}

-- A peer that the kernel's interface can carry whole.
abbrev pub IsCarried : Peer → Type 0
IsCarried p = (p.transport ≡ udp) × (p.ws_url ≡ none) × NoSettings p

udp_transport : (t : Transport) → is_udp t ≡ true → t ≡ udp
udp_transport udp e = refl
udp_transport websocket e = absurd cc
udp_transport wstunnel e = absurd cc

All-IsCarried :
    (ps : List Peer)
    → any (λ p. not (is_udp p.transport)) ps ≡ false
    → All IsPlain ps
    → All IsCarried ps
All-IsCarried [] e h = tt
All-IsCarried (p ∷ ps) e h =
    let plain = udp_transport p.transport (ground arith) in
    ((plain, (h.0 plain).0, (h.0 plain).1), All-IsCarried ps (ground arith) h.1)

kernel_without_ws :
    (here : Bool) (d : Device) → ipc_set_device here d ≡ kernel → device_has_ws_settings d ≡ false
kernel_without_ws true d e = absurd cc
kernel_without_ws false d e = elim (Bool-cases (device_has_ws_settings d)) [
  | inl some_ws ↦ absurd cc (rw some_ws at e)
  | inr no_ws ↦ no_ws
]

unset : (o : Option Bytes) → is_set o ≡ false → o ≡ none
unset none e = refl
unset (some s) e = absurd cc

-- On a system that keeps `IsSystem` and for texts of bytes, a configuration that `setconf` or
-- `addconf` reads from a file, and that `ipc_set_device` hands to the kernel, loses nothing there
-- that belongs to WebSocket: the device has no listener but an empty
-- one, no certificate, key, token or list of proxies, and every peer is a UDP peer without a URL and
-- without a WebSocket setting.
pub ipc_set_device-IsCarried :
    (sys : System)
    → IsSystem sys
    → (append here : Bool) (ls : List Bytes) {d : Device} → All IsBytes ls
    → read_config sys append ls ≡ done d
    → ipc_set_device here d ≡ kernel
    → All IsCarried d.peers
      × (not_empty d.ws_listen ≡ false)
      × (d.ws_server_tls_cert ≡ none)
      × (d.ws_server_tls_key ≡ none)
      × (d.ws_server_bearer ≡ none)
      × (d.ws_trusted_proxies ≡ none)
unfolding device_has_ws_settings
ipc_set_device-IsCarried sys ok append here ls {d} h e chosen =
    let no_ws = kernel_without_ws here d chosen in
    (
      All-IsCarried d.peers (ground arith) (read_config-IsPlain sys ok append ls h e),
      ground arith,
      unset d.ws_server_tls_cert (ground arith),
      unset d.ws_server_tls_key (ground arith),
      unset d.ws_server_bearer (ground arith),
      unset d.ws_trusted_proxies (ground arith),
    )
