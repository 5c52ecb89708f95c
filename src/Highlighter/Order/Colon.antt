-- ===== src/Highlighter/Order/Colon.antt =====
-- contrib/highlighter/highlighter.c: the colon of an endpoint, and the slash of a network.
use wireguard_tools.Highlighter.Validate.{bracket_from, is_valid_endpoint}
use wireguard_tools.Highlighter.Value.{last_colon}
use mathlib.Core.Path.{subst}
use wireguard_tools.Libc.Text.{
  split_first, split_last, contains, FirstAt, split_first-FirstAt, LastAt, split_last-LastAt,
}
use wireguard_tools.Prelude.{
  ℕ, zero, suc, ◌≤◌, ◌<◌, ◌≡◌, refl, ap, arith, Bool, true, false, ◌||◌, none, some, [], ◌∷◌, ◌++◌,
  ◌==◌, Bytes, length, length-append, take, Bool-cases, Option-cases, inl, inr, if◌then◌else◌,
}

pub length-take : (n : ℕ) (s : Bytes) → length (take n s) ≤ n
length-take zero s = omega arith
length-take (suc n) [] = omega arith
length-take (suc n) (c ∷ s) = omega (arith, length-take n s)

-- The part in front of a character is shorter than the text.
length_before : (a b : Bytes) (c : ℕ) (s : Bytes) → s ≡ a ++ c ∷ b → length a < length s
length_before a b c s e = omega (arith, ap length e, length-append a (c ∷ b))

pub split_first-length :
    (c : ℕ) (s : Bytes) {a b : Bytes} → split_first c s ≡ some (a, b) → length a < length s
split_first-length c s {a} {b} e =
    length_before a b c s (subst (FirstAt c s) e (split_first-FirstAt c s)).0

last_colon-length : (s : Bytes) → contains b':' s ≡ true → last_colon s < length s
last_colon-length s h = elim (Option-cases (split_last b':' s)) [
  | inl out ↦ let missing = subst (LastAt b':' s) out (split_last-LastAt b':' s) in absurd cc
  | inr ((a, b), found) ↦
      rw (found, last_colon)
        (length_before a b b':' s (subst (LastAt b':' s) found (split_last-LastAt b':' s)).0)
]

bracket_from-contains :
    (seen : Bool) (host s : Bytes) → bracket_from seen host s ≡ true → contains b':' s ≡ true
unfolding bracket_from contains
bracket_from-contains seen host [] e = absurd cc
bracket_from-contains seen host (c ∷ s) e = elim (Bool-cases (c == b'%')) [
  | inl scope ↦ ground (
    arith,
    bracket_from-contains (seen || c == b'%') (if c == b'%' then [] else host ++ c ∷ []) s,
  )
  | inr other ↦ elim (Bool-cases (c == b']')) [
    | inl close ↦ elim s [ [] ↦ ground arith | ◌∷◌ d s ↦ ground arith ]
    | inr more ↦ ground (
      arith,
      bracket_from-contains (seen || c == b'%') (if c == b'%' then [] else host ++ c ∷ []) s,
    )
  ]
]

split_first_plain : (c : ℕ) (s : Bytes) → contains c s ≡ false → split_first c s ≡ none
unfolding split_first contains
split_first_plain c [] h = refl
split_first_plain c (x ∷ s) h = elim (Bool-cases (x == c)) [
  | inl e ↦ absurd cc (rw e at h)
  | inr e ↦ rw (e, split_first_plain c s (rw e at h)) refl
]

is_valid_endpoint-contains : (s : Bytes) → is_valid_endpoint s ≡ true → contains b':' s ≡ true
unfolding is_valid_endpoint contains
is_valid_endpoint-contains [] e = absurd cc
is_valid_endpoint-contains (c ∷ s) e = elim (Bool-cases (c == b'[')) [
  | inl bracket ↦
      ground (arith, bracket_from-contains false [] s (rw (bracket, is_valid_endpoint) at e))
  | inr plain ↦ elim (Bool-cases (contains b':' (c ∷ s))) [
    | inl found ↦ found
    | inr missing ↦
        absurd cc (rw (plain, split_first_plain b':' (c ∷ s) missing, is_valid_endpoint) at e)
  ]
]

-- A valid endpoint has its last colon inside.
pub is_valid_endpoint-last_colon :
    (s : Bytes) → is_valid_endpoint s ≡ true → last_colon s < length s
is_valid_endpoint-last_colon s e = last_colon-length s (is_valid_endpoint-contains s e)
