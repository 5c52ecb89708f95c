-- ===== src/Highlighter/Order/Parts.antt =====
-- contrib/highlighter/highlighter.c: the part of a line that `highlight_config` is in.
use wireguard_tools.Highlighter.Order.{Fits, longer-Fits}
use wireguard_tools.Highlighter.Text
use wireguard_tools.Highlighter.Text.{
  State, Locals, is_comment, is_key, trimmed, finish_part, start_part, longer, at_equals,
  config_step, config_from, highlight_config,
}
use wireguard_tools.Highlighter.Value.{Span, HighlightSpan}
use wireguard_tools.Prelude.{
  ℕ, suc, ◌+◌, ◌≤◌, ◌<◌, ◌≡◌, ◌⊎◌, arith, List, ◌==◌, Bool-cases, inl, inr, if◌then◌else◌,
}

-- Where the spans end, and how much of the part is text: a value has its equals sign still to come.
abbrev pub Inside : State → ℕ → Span → ℕ → List HighlightSpan → Type 0
Inside Text.on_value equals span last ret =
    Fits 0 ret equals × (equals < span.s) × ((span.len ≡ 0) ⊎ (last ≤ span.len))
Inside _ equals span last ret = Fits 0 ret span.s × (last ≤ span.len)

-- What holds of the locals in front of the character at an offset.
pub record IsLocals (i : ℕ) (l : Locals) : Type 0 where
  pub inside : Inside l.state l.equals_location l.current_span l.len_at_last_space l.ret
  pub whole : l.current_span.s + l.current_span.len ≡ i

-- A space in front of the part moves its start.
pub lead-Inside :
    (state : State) (equals : ℕ) (span : Span) (last : ℕ) (ret : List HighlightSpan)
    → Inside state equals span last ret
    → Inside state equals (record span { s = suc span.s }) last ret
lead-Inside Text.on_value equals span last ret h = (h.0, omega (arith, h.1), h.2)
lead-Inside Text.on_none equals span last ret h =
    (longer-Fits 0 ret span.s _ h.0 (omega arith), h.1)
lead-Inside Text.on_key equals span last ret h = (longer-Fits 0 ret span.s _ h.0 (omega arith), h.1)
lead-Inside Text.on_section equals span last ret h =
    (longer-Fits 0 ret span.s _ h.0 (omega arith), h.1)
lead-Inside Text.on_comment equals span last ret h =
    (longer-Fits 0 ret span.s _ h.0 (omega arith), h.1)

-- A space behind the first character makes it longer.
pub space-Inside :
    (state : State) (equals : ℕ) (span : Span) (last : ℕ) (ret : List HighlightSpan)
    → Inside state equals span last ret
    → 0 < span.len
    → Inside state equals (longer span) last ret
space-Inside Text.on_value equals span last ret h k = (h.0, h.1, inr (ground (arith, h.2)))
space-Inside Text.on_none equals span last ret h k = (h.0, omega (arith, h.1))
space-Inside Text.on_key equals span last ret h k = (h.0, omega (arith, h.1))
space-Inside Text.on_section equals span last ret h k = (h.0, omega (arith, h.1))
space-Inside Text.on_comment equals span last ret h k = (h.0, omega (arith, h.1))

-- So does any other character, up to which the part is text.
pub char-Inside :
    (state : State) (c equals : ℕ) (span : Span) (last : ℕ) (ret : List HighlightSpan)
    → Inside state equals span last ret
    → Inside
        (elim state [
          | Text.on_none ↦ if c == b'[' then Text.on_section else Text.on_key
          | other ↦ other
        ])
        equals
        (longer span)
        (suc span.len)
        ret
char-Inside Text.on_value c equals span last ret h = (h.0, h.1, inr (omega arith))
char-Inside Text.on_none c equals span last ret h = elim (Bool-cases (c == b'[')) [
  | inl section ↦ rw section (h.0, omega arith)
  | inr key ↦ rw key (h.0, omega arith)
]
char-Inside Text.on_key c equals span last ret h = (h.0, omega arith)
char-Inside Text.on_section c equals span last ret h = (h.0, omega arith)
char-Inside Text.on_comment c equals span last ret h = (h.0, omega arith)
