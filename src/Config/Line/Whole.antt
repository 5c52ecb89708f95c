-- ===== src/Config/Line/Whole.antt =====
-- src/config.c: what `setconf` and `addconf` get out of a whole file.
use mathlib.Core.Path.{subst}
use wireguard_tools.Config.Line.Keys.{
  device_keys, peer_keys, find_key, set_device_key, set_peer_key,
}
use wireguard_tools.Config.Line.File.{
  IsDevice, find_key-IsBytes, cleaned-IsBytes, update_last-All, set_device_key-IsDevice,
  set_device_key-peers, update_last-not_empty,
}
use wireguard_tools.Config.Line.Peers.{IsPeer, NoSettings, set_peer_key-IsPeer}
use wireguard_tools.Config.Line.{
  Ctx, file_peer, set_peers, update_last, device_line, peer_line, process_line, cleaned,
  config_read_line, config_read_init, config_read_finish, is_complete, read_lines, read_config,
}
use wireguard_tools.Config.Numbers.{is_empty}
use wireguard_tools.Config.Outcome.{Outcome, done, fail, returned, >>=-eq-done, done-injective}
use wireguard_tools.Config.System.{System, IsSystem}
use wireguard_tools.Config.WsPeer.Rules.{IsConsistent, IsConsistentPeer, validate_ws_peer_iff}
use wireguard_tools.Config.WsPeer.{validate_ws_peer}
use wireguard_tools.Containers.{Peer, Device, udp, is_inet}
use wireguard_tools.Config.WsUrl.{is_some}
use wireguard_tools.Prelude.{
  ◌⊎◌, ◌≢◌, ◌≡◌, refl, arith, Bool, true, false, Option, none, some, List, [], ◌∷◌, ◌++◌, Bytes,
  codes, IsBytes, All, All-append, all, equal_nocase, Bool-cases, Option-cases, and-true, inl, inr,
  if◌then◌else◌,
}

-- The device of a context, and a peer wherever a line may be about the last one.
pub record IsCtx (ctx : Ctx) : Type 0 where
  pub device : IsDevice true ctx.device
  pub started : ctx.is_peer_section ≡ true → ctx.device.peers ≢ []

pub file_peer-IsPeer : IsPeer true file_peer
file_peer-IsPeer = record {
  public_key = (refl, ground arith);
  preshared_key = (refl, ground arith);
  keepalive = omega arith;
  ping = omega arith;
  backoff_min = omega arith;
  backoff_max = omega arith;
  allowedips = tt;
  declared = λ e. refl;
  keyed = λ e. absurd cc;
  settings = λ e. (refl, refl, refl, refl, refl, refl, refl, refl, refl, refl);
}

append-not_empty : (ps : List Peer) (p : Peer) → (ps ++ p ∷ []) ≢ []
append-not_empty [] p = cc
append-not_empty (q ∷ ps) p = cc

new_peer-IsCtx :
    (ctx : Ctx)
    → IsCtx ctx
    → IsCtx (record (set_peers ctx (ctx.device.peers ++ file_peer ∷ [])) {
      is_peer_section = true;
      is_device_section = false;
    })
new_peer-IsCtx ctx k = record {
  device = record {
    listen_port = k.device.listen_port;
    fwmark = k.device.fwmark;
    private_key = k.device.private_key;
    peers =
        All-append (IsPeer true) ctx.device.peers (file_peer ∷ []) k.device.peers
          (file_peer-IsPeer, tt);
  };
  started = λ e. append-not_empty ctx.device.peers file_peer;
}

device_line-IsCtx :
    (sys : System)
    → IsSystem sys
    → (line : Bytes) (ctx : Ctx) {ctx' : Ctx} → IsBytes line
    → IsCtx ctx
    → device_line sys ctx line ≡ done ctx'
    → IsCtx ctx'
unfolding device_line
device_line-IsCtx sys ok line ctx h k e = elim (Option-cases (find_key device_keys line)) [
  | inl out ↦ absurd cc (rw (out, device_line) at e)
  | inr ((key, value), found) ↦
      returned IsCtx (set_device_key sys key value ctx.device) (λ d. record ctx { device = d })
        (rw (found, device_line) at e)
        (λ d m. record {
          device =
              set_device_key-IsDevice sys ok key value ctx.device
                (find_key-IsBytes device_keys line h found) k.device m;
          started = λ on. rw (set_device_key-peers sys key value ctx.device m) (k.started on);
        })
]

peer_line-IsCtx :
    (sys : System)
    → IsSystem sys
    → (line : Bytes) (ctx : Ctx) {ctx' : Ctx} → IsBytes line
    → IsCtx ctx
    → peer_line sys ctx line ≡ done ctx'
    → IsCtx ctx'
unfolding peer_line
peer_line-IsCtx sys ok line ctx h k e = elim (Option-cases (find_key peer_keys line)) [
  | inl out ↦ absurd cc (rw (out, peer_line) at e)
  | inr ((key, value), found) ↦
      let bytes = find_key-IsBytes peer_keys line h found in
      returned IsCtx (update_last (set_peer_key sys key value) ctx.device.peers)
        (λ ps. set_peers ctx ps) (rw (found, peer_line) at e)
        (λ ps m. record {
          device = record {
            listen_port = k.device.listen_port;
            fwmark = k.device.fwmark;
            private_key = k.device.private_key;
            peers =
                update_last-All (IsPeer true) (set_peer_key sys key value) ctx.device.peers
                  k.device.peers
                  (λ p q good set. set_peer_key-IsPeer sys ok key value p bytes good set) m;
          };
          started = λ on. update_last-not_empty (set_peer_key sys key value) ctx.device.peers m;
        })
]

-- One of two steps was taken.
either :
    (a b : Bool) (x y : Outcome Ctx) {r : Ctx}
    → (if a then x else if b then y else fail) ≡ done r
    → (x ≡ done r) ⊎ (y ≡ done r)
either true b x y e = inl e
either false true x y e = inr e
either false false x y e = absurd cc

pub process_line-IsCtx :
    (sys : System)
    → IsSystem sys
    → (line : Bytes) (ctx : Ctx) {ctx' : Ctx} → IsBytes line
    → IsCtx ctx
    → process_line sys ctx line ≡ done ctx'
    → IsCtx ctx'
unfolding process_line
process_line-IsCtx sys ok line ctx h k e =
    elim (Bool-cases (equal_nocase line (codes "[Interface]"))) [
      | inl interface ↦
          subst IsCtx (done-injective (rw (interface, process_line) at e))
            (record { device = k.device; started = λ on. absurd cc })
      | inr i ↦ elim (Bool-cases (equal_nocase line (codes "[Peer]"))) [
        | inl peer ↦
            subst IsCtx (done-injective (rw (i, peer, process_line) at e)) (new_peer-IsCtx ctx k)
        | inr p ↦
            elim (either ctx.is_device_section ctx.is_peer_section _ _
              (rw (i, p, process_line) at e)) [
                | inl d ↦ device_line-IsCtx sys ok line ctx h k d
                | inr q ↦ peer_line-IsCtx sys ok line ctx h k q
              ]
      ]
    ]

pub config_read_line-IsCtx :
    (sys : System)
    → IsSystem sys
    → (line : Bytes) (ctx : Ctx) {ctx' : Ctx} → IsBytes line
    → IsCtx ctx
    → config_read_line sys ctx line ≡ done ctx'
    → IsCtx ctx'
unfolding config_read_line
config_read_line-IsCtx sys ok line ctx h k e = elim (Bool-cases (is_empty (cleaned line))) [
  | inl blank ↦ subst IsCtx (done-injective (rw (blank, config_read_line) at e)) k
  | inr text ↦
      process_line-IsCtx sys ok (cleaned line) ctx (cleaned-IsBytes line h) k
        (rw (text, config_read_line) at e)
]

pub read_lines-IsCtx :
    (sys : System)
    → IsSystem sys
    → (ls : List Bytes) (ctx : Ctx) {ctx' : Ctx} → All IsBytes ls
    → IsCtx ctx
    → read_lines sys ctx ls ≡ done ctx'
    → IsCtx ctx'
unfolding read_lines
read_lines-IsCtx sys ok [] ctx h k e = subst IsCtx (done-injective e) k
read_lines-IsCtx sys ok (l ∷ ls) ctx h k e =
    let (next, step, rest) =
      >>=-eq-done (config_read_line sys ctx l) (λ next. read_lines sys next ls) e in
    read_lines-IsCtx sys ok ls next h.1 (config_read_line-IsCtx sys ok l ctx h.0 k step) rest

pub config_read_init-IsCtx : (append : Bool) → IsCtx (config_read_init append)
unfolding config_read_init
config_read_init-IsCtx append = record {
  device = record {
    listen_port = omega arith;
    fwmark = omega arith;
    private_key = (refl, ground arith);
    peers = tt;
  };
  started = λ e. absurd cc;
}

-- A peer that `config_read_finish` lets through.
abbrev pub IsFinished : Peer → Type 0
IsFinished p = IsPeer true p × (p.flags.has_public_key ≡ true) × IsConsistentPeer p

finished : (ps : List Peer) → All (IsPeer true) ps → all is_complete ps ≡ true → All IsFinished ps
finished [] h e = tt
finished (p ∷ ps) h e =
    let (this, others) = and-true (is_complete p) (all is_complete ps) e in
    let (key, valid) = and-true p.flags.has_public_key (validate_ws_peer p) this in
    ((h.0, key, (validate_ws_peer_iff p).0 valid (h.0.declared refl)), finished ps h.1 others)

-- On a system that keeps `IsSystem` and for texts of bytes, whatever configuration `setconf` or
-- `addconf` reads to its end is well formed: the listen port fits 16 bits and the mark 32, keys
-- are 32 bytes, and each peer has a public key, well-formed fields and what its transport asks
-- for.
pub read_config-IsFinished :
    (sys : System)
    → IsSystem sys
    → (append : Bool) (ls : List Bytes) {d : Device} → All IsBytes ls
    → read_config sys append ls ≡ done d
    → IsDevice true d × All IsFinished d.peers
unfolding read_config config_read_finish
read_config-IsFinished sys ok append ls h e =
    let (ctx, read, finish) =
      >>=-eq-done (read_lines sys (config_read_init append) ls) config_read_finish e in
    let k =
      read_lines-IsCtx sys ok ls (config_read_init append) h (config_read_init-IsCtx append) read in
    elim (Bool-cases (all is_complete ctx.device.peers)) [
      | inl complete ↦
          subst (λ d. IsDevice true d × All IsFinished d.peers)
            (done-injective (rw (complete, config_read_finish) at finish))
            (k.device, finished ctx.device.peers k.device.peers complete)
      | inr partial ↦ absurd cc (rw (partial, config_read_finish) at finish)
    ]

no_url : (url : Option Bytes) → is_some url ≡ false → url ≡ none
no_url none e = refl
no_url (some u) e = absurd cc

-- A peer without a WebSocket transport has nothing that belongs to one.
abbrev pub IsPlain : Peer → Type 0
IsPlain p = p.transport ≡ udp → (p.ws_url ≡ none) × NoSettings p

udp_only : (p : Peer) → IsFinished p → IsPlain p
udp_only p k e =
    let plain =
      subst
        (λ t.
          IsConsistent t (is_inet p.endpoint.family) (is_some p.ws_url) (is_some p.wstunnel_target)
            p.flags.has_ws_settings)
        e k.2 in
    (no_url p.ws_url plain.0, k.0.settings plain.1)

All-IsPlain : (ps : List Peer) → All IsFinished ps → All IsPlain ps
All-IsPlain [] h = tt
All-IsPlain (p ∷ ps) h = (λ e. udp_only p h.0 e, All-IsPlain ps h.1)

-- On a system that keeps `IsSystem` and for texts of bytes, a peer of an accepted configuration
-- whose transport is UDP has no WebSocket URL, tunnel target, token or TLS file, and all its
-- WebSocket switches and times are zero.
pub read_config-IsPlain :
    (sys : System)
    → IsSystem sys
    → (append : Bool) (ls : List Bytes) {d : Device} → All IsBytes ls
    → read_config sys append ls ≡ done d
    → All IsPlain d.peers
read_config-IsPlain sys ok append ls {d} h e =
    All-IsPlain d.peers (read_config-IsFinished sys ok append ls h e).1
