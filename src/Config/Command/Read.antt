-- ===== src/Config/Command/Read.antt =====
-- src/config.c: what `wg set` gets out of its arguments.
use mathlib.Core.Path.{subst}
use wireguard_tools.Config.Command.Step.{
  change_last-IsDevice, removed-IsPeer, pair_step-IsDevice, zero_key-IsKey,
}
use wireguard_tools.Config.Command.{
  change_last, removed, is_remove, pair_step, read_args, config_read_cmd,
}
use wireguard_tools.Config.Line.File.{IsDevice}
use wireguard_tools.Config.Line.Peers.{IsPeer}
use wireguard_tools.Config.Outcome.{done, fail, >>=-eq-done, done-injective}
use wireguard_tools.Config.System.{System, IsSystem}
use wireguard_tools.Config.WsPeer.Rules.{IsConsistentPeer, validate_ws_peer_iff}
use wireguard_tools.Config.WsPeer.{validate_ws_peer}
use wireguard_tools.Containers.{Peer, Device, zero_device}
use wireguard_tools.Prelude.{
  ◌≡◌, refl, arith, true, false, List, [], ◌∷◌, Bytes, IsBytes, All, all, and-true, Bool-cases, inl,
  inr, if◌then◌else◌,
}

read_args-IsDevice :
    (sys : System)
    → IsSystem sys
    → (args : List Bytes) (d : Device) {d' : Device} → All IsBytes args
    → IsDevice false d
    → read_args sys args d ≡ done d'
    → IsDevice false d'
unfolding read_args
read_args-IsDevice sys ok [] d h k e = subst (IsDevice false) (done-injective e) k
read_args-IsDevice sys ok (word ∷ []) d h k e = elim (Bool-cases (is_remove word d)) [
  | inl removes ↦ change_last-IsDevice removed d k removed-IsPeer (rw (removes, read_args) at e)
  | inr other ↦ absurd cc (rw (other, read_args) at e)
]
read_args-IsDevice sys ok (word ∷ v ∷ args) d h k e = elim (Bool-cases (is_remove word d)) [
  | inl removes ↦
      let (next, step, rest) =
        >>=-eq-done (change_last removed d) (read_args sys (v ∷ args))
          (rw (removes, read_args) at e) in
      read_args-IsDevice sys ok (v ∷ args) next h.1
        (change_last-IsDevice removed d k removed-IsPeer step) rest
  | inr other ↦
      let (next, step, rest) =
        >>=-eq-done (pair_step sys word v d) (read_args sys args) (rw (other, read_args) at e) in
      read_args-IsDevice sys ok args next h.1.1 (pair_step-IsDevice sys ok word v d h.1.0 k step)
        rest
]

zero_device-IsDevice : IsDevice false zero_device
zero_device-IsDevice = record {
  listen_port = omega arith;
  fwmark = omega arith;
  private_key = zero_key-IsKey;
  peers = tt;
}

-- A peer that `config_read_cmd` lets through.
abbrev pub IsCommanded : Peer → Type 0
IsCommanded p =
    IsPeer false p
    × (p.flags.has_public_key ≡ true)
    × (p.flags.has_transport ≡ true → IsConsistentPeer p)

commanded :
    (ps : List Peer) → All (IsPeer false) ps → all validate_ws_peer ps ≡ true → All IsCommanded ps
commanded [] h e = tt
commanded (p ∷ ps) h e =
    let (this, others) = and-true (validate_ws_peer p) (all validate_ws_peer ps) e in
    ((h.0, h.0.keyed refl, (validate_ws_peer_iff p).0 this), commanded ps h.1 others)

-- On a system that keeps `IsSystem` and for texts of bytes, whatever arguments `wg set` accepts,
-- the device they make is well formed: the listen port fits 16 bits and the mark 32, keys are 32
-- bytes, and each peer has a public key, well-formed fields and, where the arguments declare its
-- transport, what that transport asks for.
pub config_read_cmd-IsDevice :
    (sys : System)
    → IsSystem sys
    → (args : List Bytes) {d : Device} → All IsBytes args
    → config_read_cmd sys args ≡ done d
    → IsDevice false d × All IsCommanded d.peers
unfolding config_read_cmd
config_read_cmd-IsDevice sys ok args h e =
    let (d, read, finish) =
      >>=-eq-done (read_args sys args zero_device)
        (λ d. if all validate_ws_peer d.peers then done d else fail) e in
    let k = read_args-IsDevice sys ok args zero_device h zero_device-IsDevice read in
    elim (Bool-cases (all validate_ws_peer d.peers)) [
      | inl valid ↦
          subst (λ d. IsDevice false d × All IsCommanded d.peers)
            (done-injective (rw valid at finish)) (k, commanded d.peers k.peers valid)
      | inr invalid ↦ absurd cc (rw invalid at finish)
    ]
