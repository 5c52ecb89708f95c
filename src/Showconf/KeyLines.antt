-- ===== src/Showconf/KeyLines.antt =====
-- src/showconf.c: each line of the [Interface] section under the reader of src/config.c.
use wireguard_tools.Config.Line.{Ctx, config_read_line}
use wireguard_tools.Config.Line.Keys.{
  listen_port, fwmark, private_key, ws_listen, ws_server_tls_cert, ws_server_tls_key,
  ws_server_bearer, ws_trusted_proxies, set_device_key,
}
use wireguard_tools.Config.Numbers.{is_empty, parse_port}
use wireguard_tools.Config.Outcome.{done}
use wireguard_tools.Config.System.{System}
use wireguard_tools.Config.WsUrl.{is_ws_url}
use wireguard_tools.Config.WsValues.{parse_ws_listen, parse_ws_device_str}
use wireguard_tools.Containers.{Device}
use wireguard_tools.Ctype.{char_is_space}
use wireguard_tools.Encoding.Base64.{IsKey, key_to_base64, encode_from}
use wireguard_tools.Libc.Print.{print_dec, print_hex}
use wireguard_tools.Libc.Text.{strip_prefix}
use wireguard_tools.Prelude.{
  ◌^◌, ◌<◌, ◌≡◌, refl, arith, Bool, true, false, Option, none, some, [], ◌∷◌, Bytes, codes,
  equal_nocase, to_lower,
}
use wireguard_tools.Showconf.Lines.{is_plain}
use wireguard_tools.Showconf.Plain.{print_base-plain, key_to_base64-plain}
use wireguard_tools.Showconf.{key_line}
use wireguard_tools.Showconf.Section.{
  in_device, shown, device-key_line, port_set, mark_set, private_key_set,
}

module _ (sys : System) (d : Device) where
  abbrev pub at :
      Bool
      → Bool
      → Bool
      → Option Bytes
      → Option Bytes
      → Option Bytes
      → Option Bytes
      → Option Bytes
      → Ctx
  at bound marked keyed listen cert key bearer proxies =
      in_device (shown bound marked keyed listen cert key bearer proxies d)

  pub port_line :
      parse_port sys (print_dec d.listen_port) ≡ done d.listen_port
      → is_empty (print_dec d.listen_port) ≡ false
      → config_read_line sys
          (at false false false none none none none none)
          (key_line (codes "ListenPort") (print_dec d.listen_port))
        ≡ done (at true false false none none none none none)
  unfolding equal_nocase strip_prefix to_lower char_is_space
  port_line e n =
      device-key_line sys (codes "ListenPort") (print_dec d.listen_port) listen_port _ _ refl
        (refl, refl) refl (print_base-plain 10 d.listen_port (omega arith) (omega arith)) n
        (port_set sys d.listen_port _ e)

  pub mark_line :
      (bound : Bool)
      → d.fwmark < 2 ^ 32
      → config_read_line sys
          (at bound false false none none none none none)
          (key_line (codes "FwMark") (b'0' ∷ b'x' ∷ print_hex d.fwmark))
        ≡ done (at bound true false none none none none none)
  unfolding equal_nocase strip_prefix to_lower char_is_space
  mark_line bound h =
      device-key_line sys (codes "FwMark") (b'0' ∷ b'x' ∷ print_hex d.fwmark) fwmark _ _ refl
        (refl, refl) refl (print_base-plain 16 d.fwmark (omega arith) (omega arith)) refl
        (mark_set sys d.fwmark _ h)

  key_nonempty : (k : Bytes) → IsKey k → is_empty (key_to_base64 k) ≡ false
  unfolding key_to_base64 encode_from
  key_nonempty (x ∷ y ∷ z ∷ k) h = refl
  key_nonempty [] h = absurd (omega (arith, h.0))
  key_nonempty (x ∷ []) h = absurd (omega (arith, h.0))
  key_nonempty (x ∷ y ∷ []) h = absurd (omega (arith, h.0))

  pub private_key_line :
      (bound marked : Bool)
      → IsKey d.private_key
      → config_read_line sys
          (at bound marked false none none none none none)
          (key_line (codes "PrivateKey") (key_to_base64 d.private_key))
        ≡ done (at bound marked true none none none none none)
  unfolding equal_nocase strip_prefix to_lower char_is_space
  private_key_line bound marked h =
      device-key_line sys (codes "PrivateKey") (key_to_base64 d.private_key) private_key _ _ refl
        (refl, refl) refl (key_to_base64-plain d.private_key h.1) (key_nonempty d.private_key h)
        (private_key_set sys d.private_key _ h)

  module _ (bound marked keyed : Bool) (v : Bytes) (plain : is_plain v ≡ true)
      (given : is_empty v ≡ false) where
    pub listen_line :
        is_ws_url v ≡ true
        → config_read_line sys
            (at bound marked keyed none none none none none)
            (key_line (codes "WSListen") v)
          ≡ done (at bound marked keyed (some v) none none none none)
    unfolding equal_nocase strip_prefix to_lower char_is_space set_device_key parse_ws_listen
        parse_ws_device_str
    listen_line url =
        device-key_line sys (codes "WSListen") v ws_listen _ _ refl (refl, refl) refl plain given
          (rw (given, url) refl)

    pub cert_line :
        (a : Option Bytes)
        → config_read_line sys
            (at bound marked keyed a none none none none)
            (key_line (codes "WSServerTLSCert") v)
          ≡ done (at bound marked keyed a (some v) none none none)
    unfolding equal_nocase strip_prefix to_lower char_is_space set_device_key parse_ws_device_str
    cert_line a =
        device-key_line sys (codes "WSServerTLSCert") v ws_server_tls_cert _ _ refl (refl, refl)
          refl plain given (rw given refl)

    pub tls_key_line :
        (a b : Option Bytes)
        → config_read_line sys
            (at bound marked keyed a b none none none)
            (key_line (codes "WSServerTLSKey") v)
          ≡ done (at bound marked keyed a b (some v) none none)
    unfolding equal_nocase strip_prefix to_lower char_is_space set_device_key parse_ws_device_str
    tls_key_line a b =
        device-key_line sys (codes "WSServerTLSKey") v ws_server_tls_key _ _ refl (refl, refl) refl
          plain given (rw given refl)

    pub bearer_line :
        (a b c : Option Bytes)
        → config_read_line sys
            (at bound marked keyed a b c none none)
            (key_line (codes "WSServerBearer") v)
          ≡ done (at bound marked keyed a b c (some v) none)
    unfolding equal_nocase strip_prefix to_lower char_is_space set_device_key parse_ws_device_str
    bearer_line a b c =
        device-key_line sys (codes "WSServerBearer") v ws_server_bearer _ _ refl (refl, refl) refl
          plain given (rw given refl)

    pub proxies_line :
        (a b c e : Option Bytes)
        → config_read_line sys
            (at bound marked keyed a b c e none)
            (key_line (codes "WSTrustedProxies") v)
          ≡ done (at bound marked keyed a b c e (some v))
    unfolding equal_nocase strip_prefix to_lower char_is_space set_device_key parse_ws_device_str
    proxies_line a b c e =
        device-key_line sys (codes "WSTrustedProxies") v ws_trusted_proxies _ _ refl (refl, refl)
          refl plain given (rw given refl)
