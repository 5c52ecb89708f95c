-- ===== src/Config/Numbers/Bounds.antt =====
-- src/config.c: the numbers that the parsers accept fit the fields they are stored in.
use wireguard_tools.Config.Numbers.{
  parse_port, number_to, parse_fwmark, parse_persistent_keepalive, parse_ws_millis,
}
use wireguard_tools.Config.Outcome.{done}
use wireguard_tools.Config.System.{System, IsSystem}
use wireguard_tools.Prelude.{ℕ, ◌^◌, ◌<◌, ◌≤◌, ◌≡◌, arith, Bytes}

number_to-le : (base limit : ℕ) (s : Bytes) {n : ℕ} → number_to base limit s ≡ done n → n ≤ limit
unfolding number_to
number_to-le base limit s h = ground arith

-- A port fits 16 bits, given a resolver whose ports do.
pub parse_port-lt :
    (sys : System) → IsSystem sys → (s : Bytes) {n : ℕ} → parse_port sys s ≡ done n → n < 65536
unfolding parse_port
parse_port-lt sys ok s h = grind (arith, ok.port_lt s)

-- A firewall mark fits 32 bits.
pub parse_fwmark-lt : (s : Bytes) {n : ℕ} → parse_fwmark s ≡ done n → n < 2 ^ 32
unfolding parse_fwmark
parse_fwmark-lt s h = ground arith

-- A keepalive interval fits 16 bits.
pub parse_persistent_keepalive-lt :
    (s : Bytes) {n : ℕ} → parse_persistent_keepalive s ≡ done n → n < 65536
unfolding parse_persistent_keepalive
parse_persistent_keepalive-lt s h = ground arith

-- A millisecond count fits 32 bits.
pub parse_ws_millis-lt : (s : Bytes) {n : ℕ} → parse_ws_millis s ≡ done n → n < 2 ^ 32
unfolding parse_ws_millis
parse_ws_millis-lt s h = ground arith
