-- ===== src/Config/WsValues/Target.antt =====
-- src/config.c: what `parse_ws_target` accepts.
use wireguard_tools.Config.Numbers.{is_empty}
use wireguard_tools.Config.Outcome.{done, fail}
use wireguard_tools.Config.WsValues.{parse_ws_target}
use wireguard_tools.Libc.Text.{split_last, split_last-LastAt, LastAt, split_last-append, contains}
use wireguard_tools.Prelude.{
  ℕ, ◌≤◌, ◌≡◌, ◌↔◌, refl, arith, true, false, not, ◌&&◌, ◌||◌, Option, none, some, [], ◌∷◌, ◌++◌,
  if◌then◌else◌, leb, Bytes, All, all, and-true,
}

abbrev pub IsDecimal : Bytes → Type 0
IsDecimal = All (λ c. (b'0' ≤ c) × (c ≤ b'9'))

-- A host that is not empty, a colon, and at least one decimal digit.
pub record IsTarget (value : Bytes) : Type 0 where
  pub host : Bytes
  pub port : Bytes
  pub spelled : value ≡ host ++ (b':' ∷ port)
  pub host_nonempty : is_empty host ≡ false
  pub port_nonempty : is_empty port ≡ false
  pub port_decimal : IsDecimal port

digit_range : (c : ℕ) → (leb b'0' c && leb c b'9') ≡ true → (b'0' ≤ c) × (c ≤ b'9')
digit_range c e = ground arith

IsDecimal-iff : (s : Bytes) → (all (λ c. leb b'0' c && leb c b'9') s ≡ true) ↔ IsDecimal s
IsDecimal-iff [] = (λ e. tt, λ h. refl)
IsDecimal-iff (c ∷ s) = (
  λ e. let (digit, rest) = and-true _ _ e in (digit_range c digit, (IsDecimal-iff s).0 rest),
  λ h. let rest = (IsDecimal-iff s).1 h.1 in rw rest (ground arith),
)

decimal_plain : (s : Bytes) → IsDecimal s → contains b':' s ≡ false
unfolding contains
decimal_plain [] h = refl
decimal_plain (c ∷ s) h = ground (arith, decimal_plain s h.1)

target_accepted : (value : Bytes) → IsTarget value → parse_ws_target value ≡ done value
unfolding parse_ws_target
target_accepted value t =
    let found : split_last b':' value ≡ some (t.host, t.port) =
      rw t.spelled (split_last-append b':' t.host t.port (decimal_plain t.port t.port_decimal)) in
    rw
      (
        found,
        parse_ws_target,
        t.host_nonempty,
        t.port_nonempty,
        (IsDecimal-iff t.port).1 t.port_decimal,
      )
      refl

-- `parse_ws_target` accepts exactly the texts of the form host:port with a decimal port, and keeps
-- them as they are.
pub parse_ws_target_iff : (value : Bytes) → (parse_ws_target value ≡ done value) ↔ IsTarget value
unfolding parse_ws_target
parse_ws_target_iff value = (
  λ e. forth (split_last b':' value) (split_last-LastAt b':' value) e,
  λ t. target_accepted value t,
)
  where
    forth :
        (o : Option (Bytes × Bytes))
        → LastAt b':' value o
        → (elim o [
          | none ↦ fail
          | some (host, port) ↦
              if is_empty host || (is_empty port || not (all (λ c. leb b'0' c && leb c b'9') port))
              then fail
              else done value
        ])
          ≡ done value
        → IsTarget value
    forth none f e = cc
    forth (some (h, p)) f e = record {
      host = h;
      port = p;
      spelled = f.0;
      host_nonempty = ground arith;
      port_nonempty = ground arith;
      port_decimal = (IsDecimal-iff p).0 (ground arith);
    }
