-- ===== src/Config/WsUrl/Scheme.antt =====
-- src/config.c: the schemes that `ws_url_split` takes, ws:// and wss:// in any case.
use wireguard_tools.Config.WsUrl.{behind_scheme}
use wireguard_tools.Libc.Text.{strip_prefix, strip_prefix-append}
use wireguard_tools.Prelude.{
  ℕ, ◌≡◌, ◌∙◌, ◌⊎◌, inl, inr, refl, ap, arith, Bool, true, false, Option, none, some, [], ◌∷◌, ◌++◌,
  ◌==◌, if◌then◌else◌, Bool-cases, Option-cases, Bytes, codes, equal_nocase, to_lower, and-true,
}

-- What `strncasecmp` accepts is the key in some case.
strip_prefix-some :
    (key s : Bytes) {rest : Bytes}
    → strip_prefix key s ≡ some rest
    → (front : Bytes) × (s ≡ front ++ rest) × (equal_nocase front key ≡ true)
unfolding strip_prefix equal_nocase to_lower
strip_prefix-some [] s e = ([], cc, refl)
strip_prefix-some (k ∷ key) [] e = cc
strip_prefix-some (k ∷ key) (x ∷ s) e = elim (Bool-cases (to_lower x == to_lower k)) [
  | inr ne ↦ cc (rw ne at e)
  | inl eq ↦
      let (front, split, same) = strip_prefix-some key s (rw eq at e) in
      (x ∷ front, ap (λ (t : Bytes). x ∷ t) split, rw eq same)
]

pub behind_scheme-some :
    (url : Bytes) {p : Bytes}
    → behind_scheme url ≡ some p
    → (scheme : Bytes) × (url ≡ scheme ++ p)
      × ((equal_nocase scheme (codes "ws://") ≡ true)
          ⊎ (equal_nocase scheme (codes "wss://") ≡ true))
unfolding behind_scheme
behind_scheme-some url e = elim (Option-cases (strip_prefix (codes "wss://") url)) [
  | inl absent ↦
      let (front, split, same) =
        strip_prefix-some (codes "ws://") url (rw (absent, behind_scheme) at e) in
      (front, split, inl same)
  | inr found ↦
      let (front, split, same) =
        strip_prefix-some (codes "wss://") url (found.1 ∙ rw (found.1, behind_scheme) at e) in
      (front, split, inr same)
]

-- A text is not in both schemes: the third byte differs.
one_scheme :
    (scheme rest : Bytes)
    → equal_nocase scheme (codes "ws://") ≡ true
    → strip_prefix (codes "wss://") (scheme ++ rest) ≡ none
unfolding strip_prefix equal_nocase to_lower
one_scheme [] rest e = cc
one_scheme (x ∷ []) rest e =
    let (w, behind_w) = and-true (to_lower x == to_lower b'w') false e in absurd cc
one_scheme (x ∷ y ∷ []) rest e =
    let (w, behind_w) = and-true (to_lower x == to_lower b'w') _ e in
    let (s, behind_s) = and-true (to_lower y == to_lower b's') false behind_w in absurd cc
one_scheme (x ∷ y ∷ z ∷ s) rest e =
    let (w, behind_w) = and-true (to_lower x == to_lower b'w') _ e in
    let (ss, behind_s) = and-true (to_lower y == to_lower b's') _ behind_w in
    let (colon, behind_colon) = and-true (to_lower z == to_lower b':') _ behind_s in
    third (to_lower x == to_lower b'w') (to_lower y == to_lower b's') (to_lower z == to_lower b's')
      (strip_prefix (codes "://") (s ++ rest)) (other (to_lower z) colon)
  where
    other : (n : ℕ) → (n == 58) ≡ true → (n == 115) ≡ false
    other n h = ground arith

    third :
        (a b c : Bool) (o : Option Bytes)
        → c ≡ false
        → (if a then (if b then (if c then o else none) else none) else none) ≡ none
    third false b c o h = refl
    third true false c o h = refl
    third true true c o h = rw h refl

pub behind_scheme-append :
    (scheme rest : Bytes)
    → (equal_nocase scheme (codes "ws://") ≡ true) ⊎ (equal_nocase scheme (codes "wss://") ≡ true)
    → behind_scheme (scheme ++ rest) ≡ some rest
unfolding behind_scheme
behind_scheme-append scheme rest (inl ws) =
    rw (behind_scheme, one_scheme scheme rest ws)
      (strip_prefix-append (codes "ws://") scheme rest ws)
behind_scheme-append scheme rest (inr wss) =
    rw (behind_scheme, strip_prefix-append (codes "wss://") scheme rest wss) refl
