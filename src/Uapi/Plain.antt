-- ===== src/Uapi/Plain.antt =====
-- src/ipc-uapi.h: what a configuration without WebSocket makes of the request.
use wireguard_tools.Config.System.{System}
use wireguard_tools.Prelude.{◌≡◌, Bool, true, false, ◌&&◌, List, [], ◌∷◌, ◌==◌, Bytes, codes, any}

-- Does the line start with the key?
abbrev pub is_front : Bytes → Bytes → Bool
is_front [] line = true
is_front (k ∷ key) [] = false
is_front (k ∷ key) (x ∷ line) = x == k && is_front key line

-- The keys of a peer's WebSocket settings in the protocol.
abbrev pub ws_keys : List Bytes
ws_keys =
    codes "ws_url="
    ∷ codes "wstunnel_target="
    ∷ codes "ws_bearer="
    ∷ codes "ws_mask="
    ∷ codes "ws_tls_ca="
    ∷ codes "ws_tls_cert="
    ∷ codes "ws_tls_key="
    ∷ codes "ws_tls_insecure="
    ∷ codes "ws_ping_interval="
    ∷ codes "ws_backoff_min="
    ∷ codes "ws_backoff_max="
    ∷ []

abbrev pub is_ws_setting : Bytes → Bool
is_ws_setting line = any (λ key. is_front key line) ws_keys

-- None of the lines is a WebSocket setting.
record Silent (ls : List Bytes) : Type 0 where
  pub none_set : any is_ws_setting ls ≡ false
