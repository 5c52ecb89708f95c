-- ===== src/Highlighter/Text.antt =====
-- contrib/highlighter/highlighter.c: `highlight_config`.
use wireguard_tools.Highlighter.Validate.{is_caseless_same}
use wireguard_tools.Highlighter.Value
use wireguard_tools.Highlighter.Value.{
  Span, chars, Field, HighlightType, HighlightSpan, append_highlight_span, highlight_value, invalid,
}
use wireguard_tools.Prelude.{
  ℕ, suc, ◌+◌, ◌-◌, ◌^◌, Bool, true, false, not, ◌&&◌, ◌||◌, List, [], ◌∷◌, ◌==◌, if◌then◌else◌,
  Bytes, codes,
}

unfoldable pub section_for_field : Field → Field
section_for_field Value.interface_section = invalid
section_for_field Value.peer_section = invalid
section_for_field Value.public_key = Value.peer_section
section_for_field Value.preshared_key = Value.peer_section
section_for_field Value.allowed_ips = Value.peer_section
section_for_field Value.endpoint = Value.peer_section
section_for_field Value.persistent_keepalive = Value.peer_section
section_for_field Value.invalid = invalid
section_for_field _ = Value.interface_section

abbrev pub field_names : List (Bytes × Field)
field_names =
    (codes "PrivateKey", Value.private_key)
    ∷ (codes "ListenPort", Value.listen_port)
    ∷ (codes "Address", Value.address)
    ∷ (codes "DNS", Value.dns)
    ∷ (codes "MTU", Value.mtu)
    ∷ (codes "PublicKey", Value.public_key)
    ∷ (codes "PresharedKey", Value.preshared_key)
    ∷ (codes "AllowedIPs", Value.allowed_ips)
    ∷ (codes "Endpoint", Value.endpoint)
    ∷ (codes "PersistentKeepalive", Value.persistent_keepalive)
    ∷ (codes "FwMark", Value.fw_mark)
    ∷ (codes "Table", Value.table)
    ∷ (codes "PreUp", Value.pre_up)
    ∷ (codes "PostUp", Value.post_up)
    ∷ (codes "PreDown", Value.pre_down)
    ∷ (codes "PostDown", Value.post_down)
    ∷ (codes "SaveConfig", Value.save_config)
    ∷ []

unfoldable pub field_in : List (Bytes × Field) → Bytes → Field
field_in [] s = invalid
field_in ((name, t) ∷ names) s = if is_caseless_same s name then t else field_in names s

abbrev pub get_field : Bytes → Field
get_field s = field_in field_names s

abbrev pub get_sectiontype : Bytes → Field
get_sectiontype s =
    if is_caseless_same s (codes "[Peer]")
    then Value.peer_section
    else if is_caseless_same s (codes "[Interface]")
    then Value.interface_section
    else invalid

pub data State : Type 0 where
  on_none on_key on_value on_comment on_section : State

-- The locals of `highlight_config`.
pub record Locals : Type 0 where
  pub ret : List HighlightSpan
  pub current_span : Span
  pub current_section : Field
  pub current_field : Field
  pub state : State
  pub len_at_last_space : ℕ
  pub equals_location : ℕ

abbrev pub is_invalid : Field → Bool
is_invalid Value.invalid = true
is_invalid _ = false

-- `==` on sections; no other field is compared.
abbrev pub same_section : Field → Field → Bool
same_section Value.interface_section Value.interface_section = true
same_section Value.peer_section Value.peer_section = true
same_section _ _ = false

abbrev pub trimmed : Locals → Span
trimmed l = record (l.current_span) { len = l.len_at_last_space }

-- What ends at a newline, at the text's end or in front of a comment.
unfoldable pub finish_part : Bytes → Locals → Locals
finish_part text l = elim l.state [
  | on_none ↦ l
  | on_key ↦ record l { ret = append_highlight_span l.ret (trimmed l) Value.error }
  | on_value ↦
      if not (l.current_span.len == 0)
      then (let marked =
            append_highlight_span l.ret (record { s = l.equals_location; len = 1 })
              Value.delimiter in
          record l { ret = highlight_value text marked (trimmed l) l.current_field })
      else record l {
        ret = append_highlight_span l.ret (record { s = l.equals_location; len = 1 }) Value.error;
      }
  | on_section ↦
      let found = get_sectiontype (chars text (trimmed l)) in
      record l {
        current_section = found;
        ret =
            append_highlight_span l.ret (trimmed l)
              (if is_invalid found then Value.error else Value.section);
      }
  | on_comment ↦ record l { ret = append_highlight_span l.ret l.current_span Value.comment }
]

abbrev pub is_comment : State → Bool
is_comment on_comment = true
is_comment _ = false

abbrev pub is_key : State → Bool
is_key on_key = true
is_key _ = false

abbrev pub start_part : ℕ → ℕ → Locals → Locals
start_part i c l =
    if c == b'#'
    then record l {
      len_at_last_space = 0;
      current_field = invalid;
      current_span = record { s = i; len = 1 };
      state = on_comment;
    }
    else record l {
      len_at_last_space = 0;
      current_field = invalid;
      current_span = record { s = i + 1; len = 0 };
      state = on_none;
    }

abbrev pub longer : Span → Span
longer span = record span { len = suc span.len }

abbrev pub at_equals : Bytes → ℕ → Locals → Locals
at_equals text i l =
    let found = get_field (chars text (trimmed l)) in
    let home = section_for_field found in
    let bad = is_invalid home || (is_invalid found || not (same_section home l.current_section)) in
    record l {
      ret = append_highlight_span l.ret (trimmed l) (if bad then Value.error else Value.field);
      current_field = found;
      equals_location = i;
      current_span = record { s = i + 1; len = 0 };
      state = on_value;
    }

unfoldable pub config_step : Bytes → ℕ → ℕ → Locals → Locals
config_step text i c l =
    if c == b'\n' || not (is_comment l.state) && c == b'#'
    then start_part i c (finish_part text l)
    else if is_comment l.state
    then record l { current_span = longer l.current_span }
    else if c == b' ' || c == b'\t'
    then (if i == l.current_span.s && l.current_span.len == 0
        then record l { current_span = record (l.current_span) { s = suc l.current_span.s } }
        else record l { current_span = longer l.current_span })
    else if c == b'=' && is_key l.state
    then at_equals text i l
    else record l {
      state = elim l.state [ on_none ↦ if c == b'[' then on_section else on_key | other ↦ other ];
      current_span = longer l.current_span;
      len_at_last_space = suc l.current_span.len;
    }

unfoldable pub config_from : Bytes → ℕ → Bytes → Locals → Locals
config_from text i [] l = finish_part text l
config_from text i (c ∷ s) l = config_from text (i + 1) s (config_step text i c l)

-- The last span has the length -1 of a `size_t`.
unfoldable pub highlight_config : Bytes → List HighlightSpan
highlight_config text =
    append_highlight_span
      (config_from text 0 text (record {
        ret = [];
        current_span = record { s = 0; len = 0 };
        current_section = invalid;
        current_field = invalid;
        state = on_none;
        len_at_last_space = 0;
        equals_location = 0;
      })).ret
      (record { s = 0; len = 2 ^ 64 - 1 }) Value.end
