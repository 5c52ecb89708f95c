-- ===== src/Config/Command/NoFault.antt =====
-- src/config.c: the pointer `peer` of `config_read_cmd` wherever an argument goes through it.
use wireguard_tools.Config.Command.{
  device_words, peer_words, find_word, with_transport, command_device_key, command_peer_key,
  no_peer, change_last, pair_step, removed, is_remove, read_args, config_read_cmd,
}
use wireguard_tools.Config.Keys.{parse_key, parse_keyfile, parse_ws_secret_file}
use wireguard_tools.Config.Line.Keys.{DeviceKey, PeerKey}
use wireguard_tools.Config.Line.Keys
use wireguard_tools.Config.Line.NoFault.{update_last-IsSafe, if-IsSafe, not_fault}
use wireguard_tools.Config.Line.Safe.{
  IsSafe, bind-IsSafe, parse_key-IsSafe, parse_allowedips-IsSafe, set_device_key-IsSafe,
  set_peer_key-IsSafe,
}
use wireguard_tools.Config.Line.{update_last, strip_spaces}
use wireguard_tools.Config.Outcome.{Outcome, fail, fault}
use wireguard_tools.Config.System.{System}
use wireguard_tools.Config.WsPeer.{validate_ws_peer}
use wireguard_tools.Containers.{Peer, Device, zero_device, zero_key}
use wireguard_tools.Prelude.{
  ◌≡◌, ◌≢◌, arith, true, false, not, Option, none, some, List, [], ◌∷◌, Bytes, codes, equal, all,
  take, and-true, Option-cases, inl, inr,
}

parse_keyfile-IsSafe : (sys : System) (old path : Bytes) → IsSafe (parse_keyfile sys old path)
unfolding parse_keyfile
parse_keyfile-IsSafe sys old path = elim (Option-cases (sys.open_file path)) [
  | inl out ↦ rw (out, parse_keyfile) tt
  | inr (f, opened) ↦
      rw (opened, parse_keyfile) (ground (arith, parse_key-IsSafe old (take 44 f.content)))
]

secret_file-IsSafe : (sys : System) (path : Bytes) → IsSafe (parse_ws_secret_file sys path)
unfolding parse_ws_secret_file
secret_file-IsSafe sys path = ground arith

command_device_key-IsSafe :
    (sys : System) (key : DeviceKey) (v : Bytes) (d : Device)
    → IsSafe (command_device_key sys key v d)
unfolding command_device_key
command_device_key-IsSafe sys Keys.private_key v d =
    bind-IsSafe _ _ (parse_keyfile-IsSafe sys d.private_key v) (λ k. tt)
command_device_key-IsSafe sys Keys.ws_server_bearer v d =
    bind-IsSafe _ _ (secret_file-IsSafe sys v) (λ s. tt)
command_device_key-IsSafe sys key v d = set_device_key-IsSafe sys key v d

command_peer_key-IsSafe :
    (sys : System) (key : PeerKey) (v : Bytes) (p : Peer) → IsSafe (command_peer_key sys key v p)
unfolding command_peer_key
command_peer_key-IsSafe sys Keys.endpoint v p =
    set_peer_key-IsSafe sys Keys.endpoint v (with_transport p)
command_peer_key-IsSafe sys Keys.ws_mode v p =
    set_peer_key-IsSafe sys Keys.ws_mode v (with_transport p)
command_peer_key-IsSafe sys Keys.ws_bearer v p =
    bind-IsSafe _ _ (secret_file-IsSafe sys v) (λ s. tt)
command_peer_key-IsSafe sys Keys.allowed_ips v p = parse_allowedips-IsSafe sys p (strip_spaces v)
command_peer_key-IsSafe sys Keys.preshared_key v p =
    bind-IsSafe _ _ (parse_keyfile-IsSafe sys p.preshared_key v) (λ k. tt)
command_peer_key-IsSafe sys key v p = set_peer_key-IsSafe sys key v p

pub some_peer : (ps : List Peer) → elim ps [ [] ↦ true | ◌∷◌ p qs ↦ false ] ≡ false → ps ≢ []
some_peer [] h e = absurd cc
some_peer (p ∷ ps) h e = absurd cc

change_last-IsSafe :
    (f : Peer → Outcome Peer) (d : Device)
    → ((p : Peer) → IsSafe (f p))
    → no_peer d ≡ false
    → IsSafe (change_last f d)
change_last-IsSafe f d h k =
    bind-IsSafe (update_last f d.peers) _ (update_last-IsSafe f d.peers h (some_peer d.peers k))
      (λ ps. tt)

pair_step-IsSafe : (sys : System) (word v : Bytes) (d : Device) → IsSafe (pair_step sys word v d)
unfolding pair_step
pair_step-IsSafe sys word v d =
    if-IsSafe (equal word (codes "peer")) _ _
      (λ e. bind-IsSafe (parse_key zero_key v) _ (parse_key-IsSafe zero_key v) (λ k. tt))
      (λ e.
        if-IsSafe (no_peer d) _ _ (λ e. device (find_word device_words word))
          (λ e. peer e (find_word peer_words word)))
  where
    device :
        (o : Option DeviceKey)
        → IsSafe (elim o [ none ↦ fail | some key ↦ command_device_key sys key v d ])
    device none = tt
    device (some key) = command_device_key-IsSafe sys key v d

    peer :
        no_peer d ≡ false
        → (o : Option PeerKey)
        → IsSafe (elim o [ none ↦ fail | some key ↦ change_last (command_peer_key sys key v) d ])
    peer e none = tt
    peer e (some key) =
        change_last-IsSafe (command_peer_key sys key v) d (command_peer_key-IsSafe sys key v) e

is_remove-peer : (word : Bytes) (d : Device) → is_remove word d ≡ true → no_peer d ≡ false
unfolding is_remove
is_remove-peer word d e =
    let (this, other) = and-true (equal word (codes "remove")) (not (no_peer d)) e in ground arith

read_args-IsSafe : (sys : System) (args : List Bytes) (d : Device) → IsSafe (read_args sys args d)
unfolding read_args
read_args-IsSafe sys [] d = tt
read_args-IsSafe sys (word ∷ []) d =
    if-IsSafe (is_remove word d) _ _
      (λ e. change_last-IsSafe removed d (λ p. tt) (is_remove-peer word d e)) (λ e. tt)
read_args-IsSafe sys (word ∷ v ∷ args) d =
    if-IsSafe (is_remove word d) _ _
      (λ e.
        bind-IsSafe (change_last removed d) _
          (change_last-IsSafe removed d (λ p. tt) (is_remove-peer word d e))
          (λ next. read_args-IsSafe sys (v ∷ args) next))
      (λ e.
        bind-IsSafe (pair_step sys word v d) _ (pair_step-IsSafe sys word v d)
          (λ next. read_args-IsSafe sys args next))

-- `wg set` never follows the NULL that `peer` is before the first `peer` argument, whatever the
-- arguments are.
pub config_read_cmd-not_fault :
    (sys : System) (args : List Bytes) → config_read_cmd sys args ≢ fault
unfolding config_read_cmd
config_read_cmd-not_fault sys args = not_fault _ (
    bind-IsSafe (read_args sys args zero_device) _ (read_args-IsSafe sys args zero_device)
      (λ d. if-IsSafe (all validate_ws_peer d.peers) _ _ (λ e. tt) (λ e. tt)))
