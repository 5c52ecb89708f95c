-- ===== src/Showconf/Plain.antt =====
-- src/showconf.c: the printed numbers and keys have neither white space nor a number sign.
use wireguard_tools.Ctype.{char_is_space}
use wireguard_tools.Encoding.Base64.{key_to_base64, encode_from, encode_base64, encode_sextet}
use wireguard_tools.Encoding.Base64.Sextet.{sextets_lem}
use wireguard_tools.Libc.Text.{contains}
use wireguard_tools.Libc.Print.{digit_char, print_onto, print_base}
use wireguard_tools.Prelude.{
  ℕ, zero, suc, ◌<◌, ◌≤◌, ◌/◌, ◌%◌, ◌≡◌, refl, arith, Bool, true, false, not, ◌&&◌, [], ◌∷◌, ◌==◌,
  Bytes, char_int, all_below, all_below_sound, ltb, Bool-cases, inl, inr, ◌+◌, ◌*◌, IsBytes,
}
use wireguard_tools.Showconf.Lines.{is_plain}

abbrev plain_char : ℕ → Bool
plain_char c = not (c == b'#') && not (char_is_space (char_int c))

digits_plain : all_below 16 (λ d. plain_char (digit_char d)) ≡ true
unfolding all_below digit_char char_is_space
digits_plain = refl

sextets_plain : all_below 64 (λ v. plain_char (encode_sextet v)) ≡ true
unfolding all_below encode_sextet char_is_space
sextets_plain = refl

plain_on : (c : ℕ) (s : Bytes) → plain_char c ≡ true → is_plain s ≡ true → is_plain (c ∷ s) ≡ true
plain_on c s e f = ground arith

equals_plain : is_plain (b'=' ∷ []) ≡ true
unfolding char_is_space
equals_plain = refl

print_onto-plain :
    (base fuel n : ℕ) (acc : Bytes)
    → 2 ≤ base
    → base ≤ 16
    → is_plain acc ≡ true
    → is_plain (print_onto base fuel n acc) ≡ true
unfolding print_onto
print_onto-plain base zero n acc lo hi h = h
print_onto-plain base (suc fuel) n acc lo hi h = elim (Bool-cases (ltb n base)) [
  | inl small ↦
      rw small (plain_on (digit_char n) acc (all_below_sound 16 _ n digits_plain (ground arith)) h)
  | inr large ↦ rw large (
      print_onto-plain base fuel (n / base) (digit_char (n % base) ∷ acc) lo hi (
        plain_on (digit_char (n % base)) acc
          (all_below_sound 16 _ (n % base) digits_plain (grind arith)) h))
]

pub print_base-plain : (base n : ℕ) → 2 ≤ base → base ≤ 16 → is_plain (print_base base n) ≡ true
unfolding print_base
print_base-plain base n lo hi = print_onto-plain base (suc n) n [] lo hi refl

sextet-plain : (v : ℕ) → v < 64 → plain_char (encode_sextet v) ≡ true
sextet-plain v h = all_below_sound 64 _ v sextets_plain h

block-plain :
    (x y z : ℕ) (s : Bytes)
    → x < 256
    → y < 256
    → z < 256
    → is_plain s ≡ true
    → (is_plain (
          (encode_base64 x y z).0
          ∷ (encode_base64 x y z).1
          ∷ (encode_base64 x y z).2
          ∷ (encode_base64 x y z).3
          ∷ s)
        ≡ true)
      × (is_plain (
            (encode_base64 x y z).0 ∷ (encode_base64 x y z).1 ∷ (encode_base64 x y z).2 ∷ b'=' ∷ [])
          ≡ true)
unfolding encode_base64
block-plain x y z s hx hy hz h = rw (sextets_lem x y z hx hy hz) (
    all_plain _ _ _ _ s (sextet-plain (x / 4) (omega arith))
      (sextet-plain (x % 4 * 16 + y / 16) (omega arith))
      (sextet-plain (y % 16 * 4 + z / 64) (omega arith)) (sextet-plain (z % 64) (omega arith)) h)
  where
    all_plain :
        (a b c d : ℕ) (s : Bytes)
        → plain_char a ≡ true
        → plain_char b ≡ true
        → plain_char c ≡ true
        → plain_char d ≡ true
        → is_plain s ≡ true
        → (is_plain (a ∷ b ∷ c ∷ d ∷ s) ≡ true) × (is_plain (a ∷ b ∷ c ∷ b'=' ∷ []) ≡ true)
    all_plain a b c d s ha hb hc hd h = (
      plain_on a (b ∷ c ∷ d ∷ s) ha
          (plain_on b (c ∷ d ∷ s) hb (plain_on c (d ∷ s) hc (plain_on d s hd h))),
      plain_on a (b ∷ c ∷ b'=' ∷ []) ha
          (plain_on b (c ∷ b'=' ∷ []) hb (plain_on c (b'=' ∷ []) hc equals_plain)),
    )

encode_from-plain : (n : ℕ) (key : Bytes) → IsBytes key → is_plain (encode_from n key) ≡ true
unfolding encode_from
encode_from-plain (suc n) (x ∷ y ∷ z ∷ key) h =
    (block-plain x y z (encode_from n key) h.0 h.1.0 h.1.1.0 (encode_from-plain n key h.1.1.1)).0
encode_from-plain zero (x ∷ y ∷ []) h = (block-plain x y 0 [] h.0 h.1.0 (omega arith) refl).1
encode_from-plain zero (x ∷ y ∷ z ∷ key) h = (block-plain x y 0 [] h.0 h.1.0 (omega arith) refl).1
encode_from-plain zero [] h = refl
encode_from-plain zero (x ∷ []) h = refl
encode_from-plain (suc n) [] h = refl
encode_from-plain (suc n) (x ∷ []) h = refl
encode_from-plain (suc n) (x ∷ y ∷ []) h = refl

pub key_to_base64-plain : (key : Bytes) → IsBytes key → is_plain (key_to_base64 key) ≡ true
unfolding key_to_base64
key_to_base64-plain key h = encode_from-plain 10 key h

commas : all_below 16 (λ d. not (digit_char d == b',')) ≡ true
unfolding all_below digit_char
commas = refl

comma_on :
    (c : ℕ) (s : Bytes)
    → not (c == b',') ≡ true
    → contains b',' s ≡ false
    → contains b',' (c ∷ s) ≡ false
unfolding contains
comma_on c s e f = ground arith

contains-print_onto :
    (base fuel n : ℕ) (acc : Bytes)
    → 2 ≤ base
    → base ≤ 16
    → contains b',' acc ≡ false
    → contains b',' (print_onto base fuel n acc) ≡ false
unfolding print_onto
contains-print_onto base zero n acc lo hi h = h
contains-print_onto base (suc fuel) n acc lo hi h = elim (Bool-cases (ltb n base)) [
  | inl small ↦
      rw small (comma_on (digit_char n) acc (all_below_sound 16 _ n commas (ground arith)) h)
  | inr large ↦ rw large (
      contains-print_onto base fuel (n / base) (digit_char (n % base) ∷ acc) lo hi (
        comma_on (digit_char (n % base)) acc (all_below_sound 16 _ (n % base) commas (grind arith))
          h))
]

pub contains-print_base :
    (base n : ℕ) → 2 ≤ base → base ≤ 16 → contains b',' (print_base base n) ≡ false
unfolding print_base contains
contains-print_base base n lo hi = contains-print_onto base (suc n) n [] lo hi refl
