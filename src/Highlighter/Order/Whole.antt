-- ===== src/Highlighter/Order/Whole.antt =====
-- contrib/highlighter/highlighter.c: the spans of a whole text.
use mathlib.Core.Path.{subst}
use wireguard_tools.Highlighter.Order.Parts.{
  Inside, IsLocals, lead-Inside, space-Inside, char-Inside,
}
use wireguard_tools.Highlighter.Order.Values.{highlight_value-Fits}
use wireguard_tools.Highlighter.Order.{Fits, longer-Fits, append_highlight_span-Fits}
use wireguard_tools.Highlighter.Text
use wireguard_tools.Highlighter.Text.{
  State, Locals, is_comment, is_key, trimmed, finish_part, start_part, longer, at_equals,
  config_step, config_from, highlight_config,
}
use wireguard_tools.Highlighter.Value
use wireguard_tools.Highlighter.Value.{Span, HighlightSpan, append_highlight_span}
use wireguard_tools.Prelude.{
  ℕ, suc, ◌+◌, ◌-◌, ◌^◌, ◌<◌, ◌≡◌, refl, arith, true, not, ◌&&◌, ◌||◌, List, [], ◌∷◌, ◌++◌, ◌==◌,
  Bytes, length, Bool-cases, inl, inr, if◌then◌else◌,
}

value-Fits :
    (text : Bytes) (i : ℕ) (l : Locals)
    → l.state ≡ Text.on_value
    → Inside Text.on_value l.equals_location l.current_span l.len_at_last_space l.ret
    → l.current_span.s + l.current_span.len ≡ i
    → Fits 0 (finish_part text l).ret i
unfolding finish_part
value-Fits text i l e h whole = elim (Bool-cases (l.current_span.len == 0)) [
  | inl empty ↦
      rw (finish_part, e, empty)
        (append_highlight_span-Fits l.ret _ Value.error i h.0 (omega (arith, h.1)))
  | inr some_char ↦
      rw (finish_part, e, some_char)
        (longer-Fits 0 _ (l.current_span.s + l.len_at_last_space) i
          (highlight_value-Fits text _ (trimmed l) l.current_field
            (append_highlight_span-Fits l.ret _ Value.delimiter _ h.0 (omega (arith, h.1))))
          (ground arith))
]

finish_part-Fits :
    (text : Bytes) (i : ℕ) (l : Locals) → IsLocals i l → Fits 0 (finish_part text l).ret i
unfolding finish_part
finish_part-Fits text i l h = finished l.state refl h.inside
  where
    finished :
        (state : State)
        → l.state ≡ state
        → Inside state l.equals_location l.current_span l.len_at_last_space l.ret
        → Fits 0 (finish_part text l).ret i
    finished Text.on_none e k =
        rw (finish_part, e) (longer-Fits 0 l.ret l.current_span.s i k.0 (omega (arith, h.whole)))
    finished Text.on_key e k =
        rw (finish_part, e)
          (append_highlight_span-Fits l.ret _ Value.error i k.0 (omega (arith, h.whole, k.1)))
    finished Text.on_section e k =
        rw (finish_part, e)
          (append_highlight_span-Fits l.ret _ _ i k.0 (omega (arith, h.whole, k.1)))
    finished Text.on_comment e k =
        rw (finish_part, e)
          (append_highlight_span-Fits l.ret _ Value.comment i k.0 (omega (arith, h.whole)))
    finished Text.on_value e k = value-Fits text i l e k h.whole

start_part-IsLocals : (i c : ℕ) (l : Locals) → Fits 0 l.ret i → IsLocals (i + 1) (start_part i c l)
start_part-IsLocals i c l h = elim (Bool-cases (c == b'#')) [
  | inl comment ↦ rw comment (record { inside = (h, omega arith); whole = omega arith })
  | inr newline ↦ rw newline (record {
    inside = (longer-Fits 0 l.ret i (i + 1) h (omega arith), omega arith);
    whole = omega arith;
  })
]

comment-IsLocals :
    (i : ℕ) (l : Locals)
    → is_comment l.state ≡ true
    → IsLocals i l
    → IsLocals (i + 1) (record l { current_span = longer l.current_span })
comment-IsLocals i l e h = record {
  inside = within l.state e h.inside;
  whole = omega (arith, h.whole);
}
  where
    within :
        (state : State)
        → is_comment state ≡ true
        → Inside state l.equals_location l.current_span l.len_at_last_space l.ret
        → Inside state l.equals_location (longer l.current_span) l.len_at_last_space l.ret
    within Text.on_comment e k = (k.0, omega (arith, k.1))
    within Text.on_none e k = absurd cc
    within Text.on_key e k = absurd cc
    within Text.on_value e k = absurd cc
    within Text.on_section e k = absurd cc

at_equals-IsLocals :
    (text : Bytes) (i : ℕ) (l : Locals)
    → is_key l.state ≡ true
    → IsLocals i l
    → IsLocals (i + 1) (at_equals text i l)
at_equals-IsLocals text i l e h = record { inside = within l.state e h.inside; whole = omega arith }
  where
    within :
        (state : State)
        → is_key state ≡ true
        → Inside state l.equals_location l.current_span l.len_at_last_space l.ret
        → Inside Text.on_value i
            (record { s = i + 1; len = 0 })
            l.len_at_last_space
            (at_equals text i l).ret
    within Text.on_key e k = (
      append_highlight_span-Fits l.ret (trimmed l) _ i k.0 (omega (arith, k.1, h.whole)),
      omega arith,
      inl refl,
    )
    within Text.on_none e k = absurd cc
    within Text.on_comment e k = absurd cc
    within Text.on_value e k = absurd cc
    within Text.on_section e k = absurd cc

space-IsLocals :
    (i : ℕ) (l : Locals)
    → IsLocals i l
    → IsLocals (i + 1) (
        if i == l.current_span.s && l.current_span.len == 0
        then record l { current_span = record (l.current_span) { s = suc l.current_span.s } }
        else record l { current_span = longer l.current_span })
space-IsLocals i l h = elim (Bool-cases (i == l.current_span.s && l.current_span.len == 0)) [
  | inl lead ↦ rw lead (record {
    inside =
        lead-Inside l.state l.equals_location l.current_span l.len_at_last_space l.ret h.inside;
    whole = omega (arith, h.whole);
  })
  | inr later ↦
      let some_char : 0 < l.current_span.len = ground (arith, h.whole) in
      rw later (record {
        inside =
            space-Inside l.state l.equals_location l.current_span l.len_at_last_space l.ret h.inside
              some_char;
        whole = omega (arith, h.whole);
      })
]

config_step-IsLocals :
    (text : Bytes) (i c : ℕ) (l : Locals) → IsLocals i l → IsLocals (i + 1) (config_step text i c l)
unfolding config_step
config_step-IsLocals text i c l h =
    elim (Bool-cases (c == b'\n' || not (is_comment l.state) && c == b'#')) [
      | inl ends ↦
          rw (ends, config_step)
            (start_part-IsLocals i c (finish_part text l) (finish_part-Fits text i l h))
      | inr goes_on ↦ elim (Bool-cases (is_comment l.state)) [
        | inl comment ↦ rw (goes_on, comment, config_step) (comment-IsLocals i l comment h)
        | inr text_char ↦ elim (Bool-cases (c == b' ' || c == b'\t')) [
          | inl space ↦ rw (goes_on, text_char, space, config_step) (space-IsLocals i l h)
          | inr char ↦ elim (Bool-cases (c == b'=' && is_key l.state)) [
            | inl equals ↦
                rw (goes_on, text_char, char, equals, config_step)
                  (at_equals-IsLocals text i l (ground arith) h)
            | inr plain ↦
                rw (goes_on, text_char, char, plain, config_step)
                  (record {
                    inside =
                        char-Inside l.state c l.equals_location l.current_span l.len_at_last_space
                          l.ret h.inside;
                    whole = omega (arith, h.whole);
                  })
          ]
        ]
      ]
    ]

config_from-Fits :
    (text : Bytes) (i : ℕ) (s : Bytes) (l : Locals)
    → IsLocals i l
    → Fits 0 (config_from text i s l).ret (i + length s)
unfolding config_from
config_from-Fits text i [] l h =
    subst (λ j. Fits 0 (finish_part text l).ret j) (omega arith) (finish_part-Fits text i l h)
config_from-Fits text i (c ∷ s) l h =
    subst (λ j. Fits 0 (config_from text (i + 1) s (config_step text i c l)).ret j) (omega arith)
      (config_from-Fits text (i + 1) s (config_step text i c l) (config_step-IsLocals text i c l h))

-- The spans that `highlight_config` returns in front of the
-- end marker are not empty, come in the order of the text without an overlap, and lie within the text.
pub highlight_config-Fits :
    (text : Bytes)
    → (body : List HighlightSpan) × (highlight_config text
        ≡ body ++ record { kind = Value.end; start = 0; len = 2 ^ 64 - 1 } ∷ [])
      × Fits 0 body (length text)
unfolding highlight_config append_highlight_span
highlight_config-Fits text = (
  _,
  refl,
  longer-Fits 0 _ (0 + length text) (length text)
      (config_from-Fits text 0 text _
        (record { inside = (omega arith, omega arith); whole = refl }))
      (omega arith),
)
