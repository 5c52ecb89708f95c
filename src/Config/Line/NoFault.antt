-- ===== src/Config/Line/NoFault.antt =====
-- src/config.c: `ctx->last_peer` wherever a line goes through it.
use wireguard_tools.Config.Line.Safe.{
  IsSafe, bind-IsSafe, bind-IsSafe_eq, set_device_key-IsSafe, set_peer_key-IsSafe,
}
use wireguard_tools.Config.Line.Keys.{
  device_keys, peer_keys, find_key, set_device_key, set_peer_key,
}
use wireguard_tools.Config.Line.Whole.{IsCtx, config_read_init-IsCtx, config_read_line-IsCtx}
use wireguard_tools.Config.Line.{
  Ctx, update_last, device_line, peer_line, process_line, cleaned, config_read_line,
  config_read_init, config_read_finish, is_complete, read_lines, read_config,
}
use wireguard_tools.Config.Numbers.{is_empty}
use wireguard_tools.Config.Outcome.{Outcome, done, fail, exited, waiting, unreachable, fault}
use wireguard_tools.Config.System.{System, IsSystem}
use wireguard_tools.Containers.{Peer}
use wireguard_tools.Prelude.{
  ◌≡◌, ◌≢◌, refl, Bool, true, false, List, [], ◌∷◌, Bytes, codes, IsBytes, All, all, equal_nocase,
  Option-cases, inl, inr, if◌then◌else◌,
}

pub update_last-IsSafe :
    (f : Peer → Outcome Peer) (ps : List Peer)
    → ((p : Peer) → IsSafe (f p))
    → ps ≢ []
    → IsSafe (update_last f ps)
unfolding update_last
update_last-IsSafe f [] h k = absurd (k refl)
update_last-IsSafe f (p ∷ []) h k = bind-IsSafe (f p) _ (h p) (λ q. tt)
update_last-IsSafe f (p ∷ q ∷ ps) h k =
    bind-IsSafe (update_last f (q ∷ ps)) _ (update_last-IsSafe f (q ∷ ps) h (λ e. absurd cc))
      (λ qs. tt)

device_line-IsSafe : (sys : System) (ctx : Ctx) (line : Bytes) → IsSafe (device_line sys ctx line)
unfolding device_line
device_line-IsSafe sys ctx line = elim (Option-cases (find_key device_keys line)) [
  | inl out ↦ rw (out, device_line) tt
  | inr ((key, value), found) ↦
      rw (found, device_line)
        (bind-IsSafe (set_device_key sys key value ctx.device) _
          (set_device_key-IsSafe sys key value ctx.device) (λ d. tt))
]

peer_line-IsSafe :
    (sys : System) (ctx : Ctx) (line : Bytes)
    → ctx.device.peers ≢ []
    → IsSafe (peer_line sys ctx line)
unfolding peer_line
peer_line-IsSafe sys ctx line k = elim (Option-cases (find_key peer_keys line)) [
  | inl out ↦ rw (out, peer_line) tt
  | inr ((key, value), found) ↦
      rw (found, peer_line)
        (bind-IsSafe (update_last (set_peer_key sys key value) ctx.device.peers) _
          (update_last-IsSafe (set_peer_key sys key value) ctx.device.peers
            (set_peer_key-IsSafe sys key value) k)
          (λ ps. tt))
]

pub if-IsSafe {ℓ} :
    {A : Type ℓ} (b : Bool) (x y : Outcome A)
    → (b ≡ true → IsSafe x)
    → (b ≡ false → IsSafe y)
    → IsSafe (if b then x else y)
if-IsSafe true x y h k = h refl
if-IsSafe false x y h k = k refl

process_line-IsSafe :
    (sys : System) (ctx : Ctx) (line : Bytes) → IsCtx ctx → IsSafe (process_line sys ctx line)
unfolding process_line
process_line-IsSafe sys ctx line k =
    if-IsSafe (equal_nocase line (codes "[Interface]")) _ _ (λ e. tt)
      (λ e.
        if-IsSafe (equal_nocase line (codes "[Peer]")) _ _ (λ e. tt)
          (λ e.
            if-IsSafe ctx.is_device_section _ _ (λ e. device_line-IsSafe sys ctx line)
              (λ e.
                if-IsSafe ctx.is_peer_section _ _
                  (λ on. peer_line-IsSafe sys ctx line (k.started on)) (λ e. tt))))

config_read_line-IsSafe :
    (sys : System) (ctx : Ctx) (line : Bytes) → IsCtx ctx → IsSafe (config_read_line sys ctx line)
unfolding config_read_line
config_read_line-IsSafe sys ctx line k =
    if-IsSafe (is_empty (cleaned line)) _ _ (λ e. tt)
      (λ e. process_line-IsSafe sys ctx (cleaned line) k)

read_lines-IsSafe :
    (sys : System)
    → IsSystem sys
    → (ls : List Bytes) (ctx : Ctx) → All IsBytes ls
    → IsCtx ctx
    → IsSafe (read_lines sys ctx ls)
unfolding read_lines
read_lines-IsSafe sys ok [] ctx h k = tt
read_lines-IsSafe sys ok (l ∷ ls) ctx h k =
    bind-IsSafe_eq (config_read_line sys ctx l) (λ next. read_lines sys next ls)
      (config_read_line-IsSafe sys ctx l k)
      (λ next e. read_lines-IsSafe sys ok ls next h.1 (config_read_line-IsCtx sys ok l ctx h.0 k e))

pub not_fault {ℓ} : {A : Type ℓ} (m : Outcome A) → IsSafe m → m ≢ fault
not_fault (done a) h e = absurd cc
not_fault fail h e = absurd cc
not_fault exited h e = absurd cc
not_fault waiting h e = absurd cc
not_fault unreachable h e = absurd cc
not_fault fault h e = h

-- On a system that keeps `IsSystem` and for texts of bytes, reading a configuration never follows
-- the NULL that `last_peer` is before the first `[Peer]` line, whatever the lines are.
pub read_config-not_fault :
    (sys : System)
    → IsSystem sys
    → (append : Bool) (ls : List Bytes) → All IsBytes ls
    → read_config sys append ls ≢ fault
unfolding read_config config_read_finish
read_config-not_fault sys ok append ls h = not_fault _ (
    bind-IsSafe (read_lines sys (config_read_init append) ls) config_read_finish
      (read_lines-IsSafe sys ok ls (config_read_init append) h (config_read_init-IsCtx append))
      (λ ctx. if-IsSafe (all is_complete ctx.device.peers) _ _ (λ e. tt) (λ e. tt)))
