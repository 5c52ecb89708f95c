-- ===== src/Libc/Text.antt =====
-- `strchr`, `strrchr`, `strsep`, `strncasecmp` and relatives, on texts as lists. A pointer into a
-- text becomes the parts before and behind it.
use wireguard_tools.Prelude.{
  ℕ, Bool, false, ◌||◌, ◌≡◌, inl, inr, refl, ap, arith, Option, none, some, List, [], ◌∷◌, ◌++◌,
  ◌==◌, ==_iff, if◌then◌else◌, Bool-cases, Bytes, to_lower, equal_nocase, true,
}

-- `strchr(s, c)`: the text before the first `c` and the text behind it.
unfoldable pub split_first : ℕ → Bytes → Option (Bytes × Bytes)
split_first c [] = none
split_first c (x ∷ s) =
    if x == c
    then some ([], s)
    else elim (split_first c s) [ none ↦ none | some (before, after) ↦ some (x ∷ before, after) ]

-- `strrchr(s, c)`: the text before the last `c` and the text behind it.
unfoldable pub split_last : ℕ → Bytes → Option (Bytes × Bytes)
split_last c [] = none
split_last c (x ∷ s) = elim (split_last c s) [
  | some (before, after) ↦ some (x ∷ before, after)
  | none ↦ if x == c then some ([], s) else none
]

-- `strchr(s, c) != NULL`
unfoldable pub contains : ℕ → Bytes → Bool
contains c [] = false
contains c (x ∷ s) = x == c || contains c s

-- The tokens that repeated `strsep(&s, ",")` yields.
unfoldable pub split_all : ℕ → Bytes → List Bytes
split_all c [] = [] ∷ []
split_all c (x ∷ s) =
    if x == c
    then [] ∷ split_all c s
    else elim (split_all c s) [ [] ↦ (x ∷ []) ∷ [] | t ∷ ts ↦ (x ∷ t) ∷ ts ]

-- `strncasecmp(s, key, strlen(key)) == 0`, with the text behind the key.
unfoldable pub strip_prefix : Bytes → Bytes → Option Bytes
strip_prefix [] s = some s
strip_prefix (k ∷ key) [] = none
strip_prefix (k ∷ key) (x ∷ s) = if to_lower x == to_lower k then strip_prefix key s else none

-- The longest front without `c`, and the rest, which is empty or starts at `c`.
unfoldable pub span_until : ℕ → Bytes → Bytes × Bytes
span_until c [] = ([], [])
span_until c (x ∷ s) =
    if x == c then ([], x ∷ s) else (let (front, rest) = span_until c s in (x ∷ front, rest))

pub span_until_append : (c : ℕ) (s : Bytes) → (span_until c s).0 ++ (span_until c s).1 ≡ s
unfolding span_until
span_until_append c [] = refl
span_until_append c (x ∷ s) = ground (arith, span_until_append c s)

-- The rest starts at the byte that was looked for.
abbrev pub StartsAt : ℕ → Bytes → Type 0
StartsAt c [] = Unit
StartsAt c (x ∷ s) = x ≡ c

pub span_until-StartsAt : (c : ℕ) (s : Bytes) → StartsAt c (span_until c s).1
unfolding span_until
span_until-StartsAt c [] = tt
span_until-StartsAt c (x ∷ s) = ground (arith, span_until-StartsAt c s)

pub contains-span_until : (c : ℕ) (s : Bytes) → contains c (span_until c s).0 ≡ false
unfolding span_until contains
contains-span_until c [] = refl
contains-span_until c (x ∷ s) = ground (arith, contains-span_until c s)

-- What `strchr` finds: nothing where there is no `c`, and otherwise the first one.
abbrev pub FirstAt : ℕ → Bytes → Option (Bytes × Bytes) → Type 0
FirstAt c s none = contains c s ≡ false
FirstAt c s (some (a, b)) = (s ≡ a ++ c ∷ b) × (contains c a ≡ false)

pub split_first-FirstAt : (c : ℕ) (s : Bytes) → FirstAt c s (split_first c s)
unfolding split_first contains
split_first-FirstAt c [] = refl
split_first-FirstAt c (x ∷ s) = first_step c x s (split_first c s) (split_first-FirstAt c s)
  where
    first_step :
        (c x : ℕ) (s : Bytes) (o : Option (Bytes × Bytes))
        → FirstAt c s o
        → FirstAt c (x ∷ s) (
            if x == c
            then some ([], s)
            else elim o [ none ↦ none | some (before, after) ↦ some (x ∷ before, after) ])
    first_step c x s none h = elim (Bool-cases (x == c)) [
      | inl e ↦ rw e (ap (λ (y : ℕ). y ∷ s) ((==_iff x c).0 e), refl)
      | inr e ↦ rw e (ground arith)
    ]
    first_step c x s (some (a, b)) h = elim (Bool-cases (x == c)) [
      | inl e ↦ rw e (ap (λ (y : ℕ). y ∷ s) ((==_iff x c).0 e), refl)
      | inr e ↦ rw e (ap (λ (t : Bytes). x ∷ t) h.0, ground arith)
    ]

-- What `strrchr` finds.
abbrev pub LastAt : ℕ → Bytes → Option (Bytes × Bytes) → Type 0
LastAt c s none = contains c s ≡ false
LastAt c s (some (a, b)) = (s ≡ a ++ c ∷ b) × (contains c b ≡ false)

pub split_last-LastAt : (c : ℕ) (s : Bytes) → LastAt c s (split_last c s)
unfolding split_last contains
split_last-LastAt c [] = refl
split_last-LastAt c (x ∷ s) = last_step c x s (split_last c s) (split_last-LastAt c s)
  where
    last_step :
        (c x : ℕ) (s : Bytes) (o : Option (Bytes × Bytes))
        → LastAt c s o
        → LastAt c (x ∷ s) (elim o [
          | some (before, after) ↦ some (x ∷ before, after)
          | none ↦ if x == c then some ([], s) else none
        ])
    last_step c x s none h = elim (Bool-cases (x == c)) [
      | inl e ↦ rw e (ap (λ (y : ℕ). y ∷ s) ((==_iff x c).0 e), h)
      | inr e ↦ rw e (ground arith)
    ]
    last_step c x s (some (a, b)) h = (ap (λ (t : Bytes). x ∷ t) h.0, h.1)

-- The first and the last occurrence, from the other side.
pub split_first-append :
    (c : ℕ) (a b : Bytes) → contains c a ≡ false → split_first c (a ++ c ∷ b) ≡ some (a, b)
unfolding split_first contains
split_first-append c [] b h = ground arith
split_first-append c (x ∷ a) b h = elim (Bool-cases (x == c)) [
  | inl e ↦ cc (rw e at h)
  | inr e ↦ rw (e, split_first-append c a b (rw e at h)) refl
]

split_last_plain : (c : ℕ) (s : Bytes) → contains c s ≡ false → split_last c s ≡ none
unfolding split_last contains
split_last_plain c [] h = refl
split_last_plain c (x ∷ s) h = elim (Bool-cases (x == c)) [
  | inl e ↦ cc (rw e at h)
  | inr e ↦ rw (split_last_plain c s (rw e at h)) (rw e refl)
]

pub split_last-append :
    (c : ℕ) (a b : Bytes) → contains c b ≡ false → split_last c (a ++ c ∷ b) ≡ some (a, b)
unfolding split_last
split_last-append c [] b h = rw (split_last_plain c b h) (ground arith)
split_last-append c (x ∷ a) b h = rw (split_last-append c a b h) refl

-- A front without the byte is what is spanned, and what a comparison without case takes is stripped.
pub contains-append : (c : ℕ) (a b : Bytes) → contains c (a ++ b) ≡ (contains c a || contains c b)
unfolding contains
contains-append c [] b = refl
contains-append c (x ∷ a) b =
    rw (contains-append c a b) (or_assoc (x == c) (contains c a) (contains c b))
  where
    or_assoc : (p q r : Bool) → (p || (q || r)) ≡ ((p || q) || r)
    or_assoc true q r = refl
    or_assoc false q r = refl

pub span_until-append :
    (c : ℕ) (a b : Bytes) → contains c a ≡ false → StartsAt c b → span_until c (a ++ b) ≡ (a, b)
unfolding contains span_until
span_until-append c [] [] h k = refl
span_until-append c [] (x ∷ b) h k = rw k (ground arith)
span_until-append c (x ∷ a) b h k = elim (Bool-cases (x == c)) [
  | inl e ↦ cc (rw e at h)
  | inr e ↦ rw (e, span_until-append c a b (rw e at h) k) refl
]

pub strip_prefix-append :
    (key front rest : Bytes)
    → equal_nocase front key ≡ true
    → strip_prefix key (front ++ rest) ≡ some rest
unfolding strip_prefix equal_nocase to_lower
strip_prefix-append [] [] rest e = refl
strip_prefix-append [] (x ∷ front) rest e = cc
strip_prefix-append (k ∷ key) [] rest e = cc
strip_prefix-append (k ∷ key) (x ∷ front) rest e = elim (Bool-cases (to_lower x == to_lower k)) [
  | inl same ↦ rw same (strip_prefix-append key front rest (rw same at e))
  | inr other ↦ cc (rw other at e)
]
