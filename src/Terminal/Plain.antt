-- ===== src/Terminal/Plain.antt =====
-- src/terminal.c: output without colours.
use wireguard_tools.Ctype.{char_is_alpha}
use wireguard_tools.Prelude.{
  ℕ, zero, suc, ◌+◌, ◌-◌, ◌≤◌, ◌<◌, ◌≡◌, ◌∙◌, refl, sym, ap, arith, true, false, List, [], ◌∷◌,
  ◌++◌, ltb, ◌==◌, Bytes, length, length-append, char_int, All, Bool-cases, inl, inr, replicate,
}
use wireguard_tools.Terminal.{erase, filter_from, put_parts, filter_ansi}

-- Text, and a control sequence with its parameters and its letter.
pub data Piece : Type 0 where
  words : Bytes → Piece
  control : Bytes → ℕ → Piece

abbrev pub IsPiece : Piece → Type 0
IsPiece (words s) = All (λ c. ((c == 27) ≡ false) × ((c == 0) ≡ false)) s
IsPiece (control s letter) =
    All (λ c. char_is_alpha (char_int c) ≡ false) s × (char_is_alpha (char_int letter) ≡ true)

abbrev pub text : List Piece → Bytes
text [] = []
text (words s ∷ ps) = s ++ text ps
text (control s letter ∷ ps) = 27 ∷ b'[' ∷ s ++ letter ∷ text ps

abbrev pub shown : List Piece → Bytes
shown [] = []
shown (words s ∷ ps) = s ++ shown ps
shown (control s letter ∷ ps) = shown ps

-- What is put out of a rest of the text.
abbrev out : Bytes → Bytes
out s = put_parts (filter_from (length s - 2) s)

erase-append :
    (s : Bytes) (letter : ℕ) (rest : Bytes)
    → All (λ c. char_is_alpha (char_int c) ≡ false) s
    → char_is_alpha (char_int letter) ≡ true
    → erase (s ++ letter ∷ rest) ≡ replicate (suc (length s)) 0 ++ rest
unfolding erase
erase-append [] letter rest h k = rw k refl
erase-append (c ∷ s) letter rest h k =
    rw h.0 (ap (λ (t : Bytes). 0 ∷ t) (erase-append s letter rest h.1 k))

-- The loop leaves a text alone in which no sequence can begin.
out-short : (s : Bytes) → length s ≤ 2 → out s ≡ put_parts s
unfolding filter_from
out-short s h = let none_left : length s - 2 ≡ 0 = omega arith in rw none_left refl

out_step :
    (c : ℕ) (s : Bytes)
    → 2 < length (c ∷ s)
    → (c == 27) ≡ false
    → out (c ∷ s) ≡ put_parts (c ∷ filter_from (length s - 2) s)
unfolding filter_from
out_step c s h e =
    let more : length (c ∷ s) - 2 ≡ suc (length s - 2) = omega arith in
    rw (more, filter_from) (rw e refl)

out_nul : (s : Bytes) → out (0 ∷ s) ≡ out s
unfolding put_parts
out_nul s = elim (Bool-cases (ltb 2 (length (0 ∷ s)))) [
  | inl long ↦ out_step 0 s (ground arith) refl
  | inr short ↦ out-short (0 ∷ s) (ground arith) ∙ sym (out-short s (ground arith))
]

out_char : (c : ℕ) (s : Bytes) → (c == 27) ≡ false → (c == 0) ≡ false → out (c ∷ s) ≡ c ∷ out s
unfolding put_parts
out_char c s e k = elim (Bool-cases (ltb 2 (length (c ∷ s)))) [
  | inl long ↦ out_step c s (ground arith) e ∙ rw k refl
  | inr short ↦
      out-short (c ∷ s) (ground arith)
      ∙ rw k (ap (λ (t : Bytes). c ∷ t) (sym (out-short s (ground arith))))
]

out_nuls : (n : ℕ) (s : Bytes) → out (replicate n 0 ++ s) ≡ out s
out_nuls zero s = refl
out_nuls (suc n) s = out_nul (replicate n 0 ++ s) ∙ out_nuls n s

out_words : (s rest : Bytes) → IsPiece (words s) → out (s ++ rest) ≡ s ++ out rest
out_words [] rest h = refl
out_words (c ∷ s) rest h =
    out_char c (s ++ rest) h.0.0 h.0.1 ∙ ap (λ (t : Bytes). c ∷ t) (out_words s rest h.1)

length-nuls : (n : ℕ) (s : Bytes) → length (replicate n 0 ++ s) ≡ n + length s
length-nuls zero s = omega arith
length-nuls (suc n) s = omega (arith, length-nuls n s)

out_control :
    (s : Bytes) (letter : ℕ) (rest : Bytes)
    → IsPiece (control s letter)
    → out (27 ∷ b'[' ∷ s ++ letter ∷ rest) ≡ out rest
unfolding filter_from put_parts
out_control s letter rest h =
    let nuls : Bytes = replicate (suc (suc (length s))) 0 ++ rest in
    let rounds : length (27 ∷ b'[' ∷ s ++ letter ∷ rest) - 2 ≡ suc (length nuls - 2) =
      omega (arith, length-append s (letter ∷ rest), length-nuls (suc (suc (length s))) rest) in
    rw (rounds, filter_from)
      (rw (erase-append s letter rest h.0 h.1) (out_nuls (suc (suc (length s))) rest))

out-text : (ps : List Piece) → All IsPiece ps → out (text ps) ≡ shown ps
unfolding filter_from put_parts
out-text [] h = refl
out-text (words s ∷ ps) h = out_words s (text ps) h.0 ∙ ap (λ (t : Bytes). s ++ t) (out-text ps h.1)
out-text (control s letter ∷ ps) h = out_control s letter (text ps) h.0 ∙ out-text ps h.1

-- Without colours, of a text that is made of words without escape and NUL characters and of control
-- sequences (an escape character, a bracket, other characters than letters, and a letter) exactly the
-- words are printed.
pub filter_ansi-text : (ps : List Piece) → All IsPiece ps → filter_ansi false (text ps) ≡ shown ps
unfolding filter_ansi
filter_ansi-text ps h = elim (Bool-cases (ltb (length (text ps)) 2)) [
  | inl short ↦ rw short (sym (out-short (text ps) (ground arith)) ∙ out-text ps h)
  | inr long ↦ rw long (out-text ps h)
]
