-- ===== src/Highlighter/Order/Values.antt =====
-- contrib/highlighter/highlighter.c: the spans of one value lie inside it.
use mathlib.Core.Path.{subst}
use wireguard_tools.Highlighter.Order.Colon.{
  length-take, split_first-length, is_valid_endpoint-last_colon,
}
use wireguard_tools.Highlighter.Order.{
  Fits, longer-Fits, append_highlight_span-Fits, mark_error-Fits,
}
use wireguard_tools.Highlighter.Validate.{is_valid_endpoint, is_valid_network}
use wireguard_tools.Highlighter.Value
use wireguard_tools.Highlighter.Value.{
  Span, chars, next, Field, HighlightType, HighlightSpan, append_highlight_span, highlight_network,
  highlight_multivalue_value, Multi, multi_step, multi_from, mark_error, highlight_multivalue,
  last_colon, highlight_endpoint, highlight_value,
}
use wireguard_tools.Libc.Text.{split_first}
use wireguard_tools.Prelude.{
  ℕ, ◌+◌, ◌-◌, ◌≤◌, ◌<◌, ◌≡◌, arith, ◌&&◌, ◌||◌, List, [], ◌∷◌, ◌==◌, Bytes, length, drop,
  Bool-cases, Option-cases, inl, inr,
}

-- Three spans that a character inside the value cuts it into.
three-Fits :
    (a : List HighlightSpan) (span : Span) (at : ℕ) (t u v : HighlightType)
    → Fits 0 a span.s
    → at < span.len
    → Fits 0
        (append_highlight_span
          (append_highlight_span
            (append_highlight_span a (record { s = span.s; len = at }) t)
            (record { s = span.s + at; len = 1 })
            u)
          (record { s = span.s + at + 1; len = span.len - at - 1 })
          v)
        (span.s + span.len)
three-Fits a span at t u v h k =
    append_highlight_span-Fits _ _ v _
      (append_highlight_span-Fits _ _ u _ (append_highlight_span-Fits a _ t _ h (omega arith))
        (omega arith))
      (omega arith)

one-Fits :
    (a : List HighlightSpan) (span : Span) (t : HighlightType)
    → Fits 0 a span.s
    → Fits 0 (append_highlight_span a span t) (span.s + span.len)
one-Fits a span t h = append_highlight_span-Fits a span t (span.s + span.len) h (omega arith)

highlight_network-Fits :
    (text : Bytes) (ret : List HighlightSpan) (s : Span)
    → Fits 0 ret s.s
    → Fits 0 (highlight_network text ret s) (s.s + s.len)
unfolding highlight_network
highlight_network-Fits text ret s h =
    elim (Bool-cases (is_valid_network (next text s) (chars text s))) [
      | inr bad ↦ rw (bad, highlight_network) (one-Fits ret s Value.error h)
      | inl good ↦ elim (Option-cases (split_first b'/' (chars text s))) [
        | inl out ↦ rw (good, out, highlight_network) (one-Fits ret s Value.ip h)
        | inr ((a, b), found) ↦
            rw (good, found, highlight_network)
              (three-Fits ret s (length a) Value.ip Value.delimiter Value.cidr h (
                omega (
                  arith,
                  split_first-length b'/' (chars text s) found,
                  length-take s.len (drop s.s text),
                )))
      ]
    ]

highlight_multivalue_value-Fits :
    (text : Bytes) (ret : List HighlightSpan) (s : Span) (key : Field)
    → Fits 0 ret s.s
    → Fits 0 (highlight_multivalue_value text ret s key) (s.s + s.len)
unfolding highlight_multivalue_value
highlight_multivalue_value-Fits text ret s Value.dns h = one-Fits ret s _ h
highlight_multivalue_value-Fits text ret s Value.address h = highlight_network-Fits text ret s h
highlight_multivalue_value-Fits text ret s Value.allowed_ips h = highlight_network-Fits text ret s h
highlight_multivalue_value-Fits text ret s _ h = one-Fits ret s _ h

-- What holds of the locals in front of the character at an offset.
record IsMulti (i : ℕ) (m : Multi) : Type 0 where
  placed : Fits 0 m.ret m.current_span.s
  whole : m.current_span.s + m.current_span.len ≡ i
  inside : m.len_at_last_space ≤ m.current_span.len

part-Fits :
    (text : Bytes) (key : Field) (i : ℕ) (m : Multi)
    → IsMulti i m
    → Fits 0
        (highlight_multivalue_value text m.ret
          (record (m.current_span) { len = m.len_at_last_space })
          key)
        i
part-Fits text key i m h =
    longer-Fits 0 _ (m.current_span.s + m.len_at_last_space) i
      (highlight_multivalue_value-Fits text m.ret _ key h.placed) (omega (arith, h.whole, h.inside))

multi_step-IsMulti :
    (text : Bytes) (key : Field) (i c : ℕ) (m : Multi)
    → IsMulti i m
    → IsMulti (i + 1) (multi_step text key i c m)
unfolding multi_step
multi_step-IsMulti text key i c m h = elim (Bool-cases (c == b',')) [
  | inl comma ↦
      rw (comma, multi_step)
        (record {
          placed =
              append_highlight_span-Fits _ _ Value.delimiter _ (part-Fits text key i m h)
                (omega arith);
          whole = omega arith;
          inside = omega arith;
        })
  | inr more ↦ elim (Bool-cases (c == b' ' || c == b'\t')) [
    | inr char ↦
        rw (more, char, multi_step)
          (record { placed = h.placed; whole = omega (arith, h.whole); inside = omega arith })
    | inl space ↦ elim (Bool-cases (i == m.current_span.s && m.current_span.len == 0)) [
      | inl lead ↦
          rw (more, space, lead, multi_step)
            (record {
              placed = longer-Fits 0 m.ret m.current_span.s _ h.placed (omega arith);
              whole = omega (arith, h.whole);
              inside = h.inside;
            })
      | inr later ↦
          rw (more, space, later, multi_step)
            (record {
              placed = h.placed;
              whole = omega (arith, h.whole);
              inside = omega (arith, h.inside);
            })
    ]
  ]
]

multi_from-IsMulti :
    (text : Bytes) (key : Field) (i : ℕ) (s : Bytes) (m : Multi)
    → IsMulti i m
    → IsMulti (i + length s) (multi_from text key i s m)
unfolding multi_from
multi_from-IsMulti text key i [] m h = subst (λ j. IsMulti j m) (omega arith) h
multi_from-IsMulti text key i (c ∷ s) m h =
    subst (λ j. IsMulti j (multi_from text key (i + 1) s (multi_step text key i c m))) (omega arith)
      (multi_from-IsMulti text key (i + 1) s (multi_step text key i c m)
        (multi_step-IsMulti text key i c m h))

highlight_multivalue-Fits :
    (text : Bytes) (ret : List HighlightSpan) (s : Span) (key : Field)
    → Fits 0 ret s.s
    → Fits 0 (highlight_multivalue text ret s key) (s.s + s.len)
unfolding highlight_multivalue
highlight_multivalue-Fits text ret s key h =
    let first : Multi = record {
      ret = ret;
      current_span = record { s = s.s; len = 0 };
      len_at_last_space = 0;
    } in
    let m = multi_from text key s.s (chars text s) first in
    let ok : IsMulti (s.s + length (chars text s)) m =
      multi_from-IsMulti text key s.s (chars text s) first
        (record { placed = h; whole = omega arith; inside = omega arith }) in
    let short = length-take s.len (drop s.s text) in
    elim (Bool-cases (m.len_at_last_space == 0)) [
      | inl done ↦
          rw (done, highlight_multivalue)
            (mark_error-Fits 0 m.ret _ (
              longer-Fits 0 m.ret m.current_span.s _ ok.placed
                (omega (arith, ok.whole, ok.inside, short))))
      | inr more ↦
          rw (more, highlight_multivalue)
            (longer-Fits 0 _ (s.s + length (chars text s)) _ (part-Fits text key _ m ok)
              (omega (arith, short)))
    ]

highlight_endpoint-Fits :
    (text : Bytes) (ret : List HighlightSpan) (s : Span)
    → Fits 0 ret s.s
    → Fits 0 (highlight_endpoint text ret s) (s.s + s.len)
unfolding highlight_endpoint
highlight_endpoint-Fits text ret s h = elim (Bool-cases (is_valid_endpoint (chars text s))) [
  | inr bad ↦ rw (bad, highlight_endpoint) (one-Fits ret s Value.error h)
  | inl good ↦
      rw (good, highlight_endpoint)
        (three-Fits ret s (last_colon (chars text s)) Value.host Value.delimiter Value.port h (
          omega (
            arith,
            is_valid_endpoint-last_colon (chars text s) good,
            length-take s.len (drop s.s text),
          )))
]

-- The spans of a value stay inside the value.
pub highlight_value-Fits :
    (text : Bytes) (ret : List HighlightSpan) (s : Span) (key : Field)
    → Fits 0 ret s.s
    → Fits 0 (highlight_value text ret s key) (s.s + s.len)
unfolding highlight_value
highlight_value-Fits text ret s Value.endpoint h = highlight_endpoint-Fits text ret s h
highlight_value-Fits text ret s Value.address h =
    highlight_multivalue-Fits text ret s Value.address h
highlight_value-Fits text ret s Value.dns h = highlight_multivalue-Fits text ret s Value.dns h
highlight_value-Fits text ret s Value.allowed_ips h =
    highlight_multivalue-Fits text ret s Value.allowed_ips h
highlight_value-Fits text ret s _ h = one-Fits ret s _ h
