-- ===== src/Highlighter/Order.antt =====
-- contrib/highlighter/highlighter.c: where the spans of a text lie.
pub mod Colon
pub mod Values
pub mod Parts
pub mod Whole
use wireguard_tools.Highlighter.Value.{
  Span, HighlightType, HighlightSpan, append_highlight_span, mark_error,
}
use wireguard_tools.Prelude.{
  ℕ, zero, suc, ◌+◌, ◌≤◌, ◌<◌, ◌≡◌, refl, arith, Bool, true, false, List, [], ◌∷◌, ◌++◌, ◌==◌,
  ==_iff, Bool-cases, inl, inr,
}

-- The spans are not empty, stand in order without an overlap, and lie from one offset to another.
abbrev pub Fits : ℕ → List HighlightSpan → ℕ → Type 0
Fits from [] to = from ≤ to
Fits from (a ∷ rest) to = (from ≤ a.start) × (0 < a.len) × Fits (a.start + a.len) rest to

pub longer-Fits :
    (from : ℕ) (a : List HighlightSpan) (to more : ℕ)
    → Fits from a to
    → to ≤ more
    → Fits from a more
longer-Fits from [] to more h k = omega arith
longer-Fits from (x ∷ a) to more h k = (h.0, h.1, longer-Fits (x.start + x.len) a to more h.2 k)

behind-Fits :
    (from : ℕ) (a : List HighlightSpan) (t : HighlightType) (span : Span) (to : ℕ)
    → Fits from a span.s
    → 0 < span.len
    → span.s + span.len ≤ to
    → Fits from (a ++ record { kind = t; start = span.s; len = span.len } ∷ []) to
behind-Fits from [] t span to h pos k = (h, pos, k)
behind-Fits from (x ∷ a) t span to h pos k =
    (h.0, h.1, behind-Fits (x.start + x.len) a t span to h.2 pos k)

pub append_highlight_span-Fits :
    (a : List HighlightSpan) (span : Span) (t : HighlightType) (to : ℕ)
    → Fits 0 a span.s
    → span.s + span.len ≤ to
    → Fits 0 (append_highlight_span a span t) to
unfolding append_highlight_span
append_highlight_span-Fits a span t to h k = elim (Bool-cases (span.len == 0)) [
  | inl empty ↦ rw (empty, append_highlight_span) (longer-Fits 0 a span.s to h (omega arith))
  | inr some_char ↦
      rw (some_char, append_highlight_span) (behind-Fits 0 a t span to h (ground arith) k)
]

pub mark_error-Fits :
    (from : ℕ) (a : List HighlightSpan) (to : ℕ) → Fits from a to → Fits from (mark_error a) to
unfolding mark_error
mark_error-Fits from [] to h = h
mark_error-Fits from (a ∷ []) to h = ground arith
mark_error-Fits from (a ∷ b ∷ rest) to h =
    (h.0, h.1, mark_error-Fits (a.start + a.len) (b ∷ rest) to h.2)
