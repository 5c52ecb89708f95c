-- ===== src/Showconf/Interface.antt =====
-- src/showconf.c: all lines of the [Interface] section under the reader of src/config.c.
use mathlib.Core.Path.{subst}
use mathlib.Core.Option.{some-injective}
use wireguard_tools.Config.Line.{read_lines, config_read_init}
use wireguard_tools.Config.Numbers.{is_empty, is_known, parse_port}
use wireguard_tools.Config.Outcome.{done}
use wireguard_tools.Config.System.{System, AddrInfo, resolved}
use wireguard_tools.Containers.{Device}
use wireguard_tools.Encoding.Base64.{IsKey}
use wireguard_tools.Libc.Print.{print_dec, print_base-Digits}
use wireguard_tools.Prelude.{
  ℕ, ◌^◌, ◌<◌, ◌≡◌, ◌∙◌, refl, arith, Bool, true, false, not, Option, none, some, [], ◌∷◌, ◌++◌,
  ◌==◌, if◌then◌else◌, Bytes, codes,
}
use wireguard_tools.Showconf.Lines.{
  is_plain, read_lines-next, read_lines_asked_append, read_lines_named_append,
}
use wireguard_tools.Showconf.KeyLines.{
  at, port_line, mark_line, private_key_line, listen_line, cert_line, tls_key_line, bearer_line,
  proxies_line,
}
use wireguard_tools.Showconf.Section.{in_device, IsText, IsUrl, shown, header_line, empty_line}
use wireguard_tools.Showconf.{line_of, filled, interface_lines}

-- What the section needs of a device: field widths, a key, and texts that a file can hold.
pub record IsShowable (d : Device) : Type 0 where
  pub listen_port : d.listen_port < 65536
  pub fwmark : d.fwmark < 2 ^ 32
  pub private_key : IsKey d.private_key
  pub ws_listen : IsText (filled d.ws_listen)
  pub ws_listen_url : IsUrl (filled d.ws_listen)
  pub ws_server_tls_cert : IsText (filled d.ws_server_tls_cert)
  pub ws_server_tls_key : IsText (filled d.ws_server_tls_key)
  pub ws_server_bearer : IsText (filled d.ws_server_bearer)
  pub ws_trusted_proxies : IsText (filled d.ws_trusted_proxies)

-- `getaddrinfo` reads the decimal text of a port.
abbrev pub ReadsPorts : System → Type 0
ReadsPorts sys =
    (n : ℕ)
    → n < 65536
    → (r : AddrInfo) × (sys.lookup_port (print_dec n) ≡ resolved r)
      × (is_known r.ai_family r.ai_addrlen ≡ true)
      × (r.ai_addr.port ≡ n)

-- The device that the section says.
abbrev pub said : Device → Device
said d =
    record (shown true true d.flags.has_private_key (filled d.ws_listen)
      (filled d.ws_server_tls_cert) (filled d.ws_server_tls_key) (filled d.ws_server_bearer)
      (filled d.ws_trusted_proxies) d) { peers = [] }

filled-some : (o : Option Bytes) (v : Bytes) → filled o ≡ some v → is_empty v ≡ false
filled-some none v e = cc
filled-some (some []) v e = cc
filled-some (some (c ∷ w)) v e =
    subst (λ (u : Bytes). is_empty u ≡ false) (some-injective _ _ e) refl

IsText-some : (o : Option Bytes) (v : Bytes) → o ≡ some v → IsText o → is_plain v ≡ true
IsText-some o v e h = subst IsText e h

number_nonempty : (n : ℕ) → is_empty (print_dec n) ≡ false
number_nonempty n = let g = print_base-Digits 10 n (omega arith) in rw g.cons refl

if_number : (n : ℕ) → (if not (n == 0) then n else 0) ≡ n
if_number n = ground arith

parse_port-print_dec :
    (sys : System) → ReadsPorts sys → (n : ℕ) → n < 65536 → parse_port sys (print_dec n) ≡ done n
unfolding parse_port
parse_port-print_dec sys ports n h =
    let (r, answer, known, port) = ports n h in
    rw (parse_port, number_nonempty n, answer, known, port) refl

module _ (sys : System) (d : Device) (ports : ReadsPorts sys) (ok : IsShowable d) where
  text :
      (o : Option Bytes) (v : Bytes)
      → filled o ≡ some v
      → IsText (filled o)
      → (is_plain v ≡ true) × (is_empty v ≡ false)
  text o v e h = (IsText-some (filled o) v e h, filled-some o v e)

  -- The lines of the texts.
  texts_read :
      (bound marked keyed : Bool)
      → read_lines sys (at sys d bound marked keyed none none none none none) (
          line_of (codes "WSListen") (filled d.ws_listen)
          ++ (line_of (codes "WSServerTLSCert") (filled d.ws_server_tls_cert)
              ++ (line_of (codes "WSServerTLSKey") (filled d.ws_server_tls_key)
                  ++ (line_of (codes "WSServerBearer") (filled d.ws_server_bearer)
                      ++ (line_of (codes "WSTrustedProxies") (filled d.ws_trusted_proxies)
                          ++ (b'\n' ∷ []) ∷ [])))))
        ≡ done (
            at sys d bound marked keyed
              (filled d.ws_listen)
              (filled d.ws_server_tls_cert)
              (filled d.ws_server_tls_key)
              (filled d.ws_server_bearer)
              (filled d.ws_trusted_proxies))
  unfolding read_lines
  texts_read bound marked keyed =
      let listen = filled d.ws_listen in
      let cert = filled d.ws_server_tls_cert in
      let key = filled d.ws_server_tls_key in
      let bearer = filled d.ws_server_bearer in
      let proxies = filled d.ws_trusted_proxies in
      let to = at sys d bound marked keyed in
      read_lines_named_append sys (codes "WSListen") listen _ (λ o. to o none none none none)
        (λ v f.
          let h = text d.ws_listen v f ok.ws_listen in
          listen_line sys d bound marked keyed v h.0 h.1 (subst IsUrl f ok.ws_listen_url))
        (read_lines_named_append sys (codes "WSServerTLSCert") cert _
          (λ o. to listen o none none none)
          (λ v f.
            let h = text d.ws_server_tls_cert v f ok.ws_server_tls_cert in
            cert_line sys d bound marked keyed v h.0 h.1 listen)
          (read_lines_named_append sys (codes "WSServerTLSKey") key _
            (λ o. to listen cert o none none)
            (λ v f.
              let h = text d.ws_server_tls_key v f ok.ws_server_tls_key in
              tls_key_line sys d bound marked keyed v h.0 h.1 listen cert)
            (read_lines_named_append sys (codes "WSServerBearer") bearer _
              (λ o. to listen cert key o none)
              (λ v f.
                let h = text d.ws_server_bearer v f ok.ws_server_bearer in
                bearer_line sys d bound marked keyed v h.0 h.1 listen cert key)
              (read_lines_named_append sys (codes "WSTrustedProxies") proxies _
                (λ o. to listen cert key bearer o)
                (λ v f.
                  let h = text d.ws_trusted_proxies v f ok.ws_trusted_proxies in
                  proxies_line sys d bound marked keyed v h.0 h.1 listen cert key bearer)
                (read_lines-next sys (b'\n' ∷ []) [] _ _ (empty_line sys _))))))

-- Let the resolver read decimal ports, the port and the mark be within 16 and 32 bits, the private
-- key 32 bytes, the WSListen text a WebSocket URL, and the texts that are not empty have neither
-- white space nor a number sign. Then the reader of `setconf` takes all lines of the [Interface]
-- section that `showconf` prints, and is left with the port, the mark, the private key where the
-- device has one, and exactly the texts that are not empty, each with its flag.
pub interface_lines-read :
    (sys : System) (d : Device)
    → ReadsPorts sys
    → IsShowable d
    → read_lines sys (config_read_init false) (interface_lines d) ≡ done (in_device (said d))
unfolding interface_lines
interface_lines-read sys d ports ok =
    let bound = not (d.listen_port == 0) in
    let marked = not (d.fwmark == 0) in
    let keyed = d.flags.has_private_key in
    let to = λ (b c e : Bool). at sys d b c e none none none none none in
    read_lines-next sys (codes "[Interface]" ++ b'\n' ∷ []) _ _ _ (header_line sys d)
    ∙ (read_lines_asked_append sys bound _ _ (λ b. to b false false)
          (λ h.
            port_line sys d (parse_port-print_dec sys ports d.listen_port ok.listen_port)
              (number_nonempty d.listen_port))
          (read_lines_asked_append sys marked _ _ (λ b. to bound b false)
            (λ h. mark_line sys d bound ok.fwmark)
            (read_lines_asked_append sys keyed _ _ (λ b. to bound marked b)
              (λ h. private_key_line sys d bound marked ok.private_key)
              (texts_read sys d ports ok bound marked keyed)))
        ∙ λ i. done (
            in_device (record (said d) {
              listen_port = if_number d.listen_port i;
              fwmark = if_number d.fwmark i;
            })))
