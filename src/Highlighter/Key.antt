-- ===== src/Highlighter/Key.antt =====
-- contrib/highlighter/highlighter.c: `is_valid_key` beside src/encoding.c's `key_from_base64`.
use mathlib.Core.Path.{subst}
use wireguard_tools.Bits.{bit_and_ones}
use wireguard_tools.Encoding.Base64.Block.{decode-encode_sextet}
use wireguard_tools.Encoding.Base64.Canonical.{key_from_base64_iff}
use wireguard_tools.Encoding.Base64.Sextet.{sextets_lem}
use wireguard_tools.Encoding.Base64.{
  encode_sextet, decode_sextet, encode_base64, encode_from, decode_base64, decode_from,
  key_to_base64, key_from_base64, low_byte,
}
use wireguard_tools.Encoding.Flag.{is_zero_flag}
use wireguard_tools.Highlighter.Validate.{
  key_char, last_chars, one_of, is_valid_key, is_decimal, is_alphabet,
}
use wireguard_tools.Prelude.{
  ℕ, zero, suc, ◌+◌, ◌*◌, ◌/◌, ◌%◌, ◌<◌, Bool, true, false, not, ◌&&◌, ◌||◌, ◌≡◌, ◌∙◌, ◌↔◌, refl,
  sym, arith, [], ◌∷◌, ltb, ◌==◌, ==_iff, if◌then◌else◌, all_below, all_below_sound, and-true, all,
  take, get_or, length, Bytes, IsBytes, shr, Bool-cases, inl, inr,
}

-- `is_valid_key` by blocks of four characters, with the tail.
unfoldable shaped : ℕ → Bytes → Bool
shaped (suc n) (a ∷ b ∷ c ∷ d ∷ s) =
    key_char a && (key_char b && (key_char c && (key_char d && shaped n s)))
shaped zero (a ∷ b ∷ c ∷ e ∷ []) = key_char a && (key_char b && (one_of last_chars c && e == b'='))
shaped _ _ = false

regrouped :
    (e a b c d t o r : Bool)
    → (e && (t && o)) ≡ r
    → (e && ((a && (b && (c && (d && t)))) && o)) ≡ (a && (b && (c && (d && r))))
regrouped false a b c d t o r h = ground arith
regrouped true false b c d t o r h = refl
regrouped true true false c d t o r h = refl
regrouped true true true false d t o r h = refl
regrouped true true true true false t o r h = refl
regrouped true true true true true t o r h = h

by_blocks :
    (n : ℕ) (s : Bytes)
    → length s ≡ 4 * n + 4
    → (get_or s (4 * n + 3) 0 == b'='
        && (all key_char (take (4 * n + 2) s) && one_of last_chars (get_or s (4 * n + 2) 0)))
      ≡ shaped n s
unfolding shaped
by_blocks zero (a ∷ b ∷ c ∷ e ∷ []) l =
    tail (key_char a) (key_char b) (one_of last_chars c) (e == b'=')
  where
    tail : (a b c e : Bool) → (e && ((a && (b && true)) && c)) ≡ (a && (b && (c && e)))
    tail a b c e = ground arith
by_blocks (suc n) (a ∷ b ∷ c ∷ d ∷ s) l =
    let more : 4 * suc n + 2 ≡ suc (suc (suc (suc (4 * n + 2)))) = omega arith in
    let last : 4 * suc n + 3 ≡ suc (suc (suc (suc (4 * n + 3)))) = omega arith in
    rw (more, last)
      (regrouped _ (key_char a) (key_char b) (key_char c) (key_char d) _ _ _
        (by_blocks n s (omega arith)))
by_blocks n _ l = absurd (omega arith)

is_valid_key-shaped : (s : Bytes) → length s ≡ 44 → is_valid_key s ≡ shaped 10 s
unfolding is_valid_key
is_valid_key-shaped s l =
    tests (get_or s 43 0 == b'=') (all key_char (take 42 s)) (one_of last_chars (get_or s 42 0))
    ∙ by_blocks 10 s l
  where
    tests :
        (e t o : Bool)
        → (if not (length s == 44) || not e then false else if not t then false else o)
          ≡ (e && (t && o))
    tests e t o = rw l (ground arith)

-- What the characters stand for.
abbrev char_row : ℕ → Bool
char_row c =
    if key_char c then ltb (decode_sextet c) 64 && encode_sextet (decode_sextet c) == c else true

char_table : all_below 256 char_row ≡ true
unfolding all_below decode_sextet encode_sextet key_char is_decimal is_alphabet
char_table = refl

abbrev last_row : ℕ → Bool
last_row c = if one_of last_chars c then decode_sextet c % 4 == 0 && key_char c else true

last_table : all_below 256 last_row ≡ true
unfolding all_below decode_sextet one_of key_char is_decimal is_alphabet
last_table = refl

sextet_table : all_below 64 (λ v. key_char (encode_sextet v)) ≡ true
unfolding all_below encode_sextet key_char is_decimal is_alphabet
sextet_table = refl

quarter_table : all_below 16 (λ v. one_of last_chars (encode_sextet (v * 4))) ≡ true
unfolding all_below encode_sextet one_of
quarter_table = refl

key_char-sextet :
    (c : ℕ)
    → c < 256
    → key_char c ≡ true
    → (decode_sextet c < 64) × (encode_sextet (decode_sextet c) ≡ c)
key_char-sextet c h e = let row = all_below_sound 256 char_row c char_table h in ground arith

last-sextet :
    (c : ℕ) → c < 256 → one_of last_chars c ≡ true → (decode_sextet c % 4 ≡ 0) × (key_char c ≡ true)
last-sextet c h e = let row = all_below_sound 256 last_row c last_table h in ground arith

sextet-key_char : (v : ℕ) → v < 64 → key_char (encode_sextet v) ≡ true
sextet-key_char v h = all_below_sound 64 (λ v. key_char (encode_sextet v)) v sextet_table h

-- What `key_to_base64` writes has the shape.
encode_from-shaped :
    (n : ℕ) (key : Bytes)
    → length key ≡ 3 * n + 2
    → IsBytes key
    → shaped n (encode_from n key) ≡ true
unfolding shaped encode_from encode_base64
encode_from-shaped zero (x ∷ y ∷ []) l (hx, (hy, h)) = rw (sextets_lem x y 0 hx hy (omega arith)) (
    ground (
      arith,
      sextet-key_char (x / 4) (omega arith),
      sextet-key_char (x % 4 * 16 + y / 16) (omega arith),
      all_below_sound 16 (λ v. one_of last_chars (encode_sextet (v * 4))) (y % 16) quarter_table
          (omega arith),
    ))
encode_from-shaped (suc n) (x ∷ y ∷ z ∷ key) l (hx, (hy, (hz, h))) =
    rw (sextets_lem x y z hx hy hz) (
      rw
        (
          sextet-key_char (x / 4) (omega arith),
          sextet-key_char (x % 4 * 16 + y / 16) (omega arith),
          sextet-key_char (y % 16 * 4 + z / 64) (omega arith),
          sextet-key_char (z % 64) (omega arith),
        )
        (encode_from-shaped n key (omega arith) h))
encode_from-shaped n _ l h = absurd (omega arith)

-- Four characters of the alphabet are a number of 24 bits.
block_value :
    (a b c d : ℕ)
    → a < 256
    → b < 256
    → c < 256
    → d < 256
    → key_char a ≡ true
    → key_char b ≡ true
    → key_char c ≡ true
    → key_char d ≡ true
    → decode_base64 a b c d
      ≡ ((decode_sextet a * 64 + decode_sextet b) * 64 + decode_sextet c) * 64 + decode_sextet d
block_value a b c d ha hb hc hd ka kb kc kd =
    let (la, ea) = key_char-sextet a ha ka in
    let (lb, eb) = key_char-sextet b hb kb in
    let (lc, ec) = key_char-sextet c hc kc in
    let (ld, ed) = key_char-sextet d hd kd in
    rw (ea, eb, ec, ed) at
      (decode-encode_sextet (decode_sextet a) (decode_sextet b) (decode_sextet c) (decode_sextet d)
        la lb lc ld)

no_sign :
    (a b c d : ℕ)
    → a < 256
    → b < 256
    → c < 256
    → d < 256
    → key_char a ≡ true
    → key_char b ≡ true
    → key_char c ≡ true
    → key_char d ≡ true
    → shr (decode_base64 a b c d) 31 ≡ 0
no_sign a b c d ha hb hc hd ka kb kc kd = omega (
  arith,
  block_value a b c d ha hb hc hd ka kb kc kd,
  (key_char-sextet a ha ka).0,
  (key_char-sextet b hb kb).0,
  (key_char-sextet c hc kc).0,
  (key_char-sextet d hd kd).0,
)

first-key_char : key_char b'A' ≡ true
unfolding encode_sextet
first-key_char = sextet-key_char 0 (omega arith)

first-zero : decode_sextet b'A' ≡ 0
unfolding decode_sextet
first-zero = refl

zero_flag : is_zero_flag 0 ≡ true
unfolding is_zero_flag
zero_flag = refl

-- A text of the shape raises no flag.
decode_from-shaped :
    (n : ℕ) (s : Bytes) → IsBytes s → shaped n s ≡ true → (decode_from n 0 s).0 ≡ true
unfolding shaped decode_from
decode_from-shaped zero (a ∷ b ∷ c ∷ e ∷ []) (ha, (hb, (hc, h))) good =
    let (ka, good_b) = and-true (key_char a) _ good in
    let (kb, good_c) = and-true (key_char b) _ good_b in
    let (kc, pad) = and-true (one_of last_chars c) _ good_c in
    let (quarter, known) = last-sextet c hc kc in
    let small = block_value a b c b'A' ha hb hc (omega arith) ka kb known first-key_char in
    let sign : shr (decode_base64 a b c b'A') 31 ≡ 0 =
      no_sign a b c b'A' ha hb hc (omega arith) ka kb known first-key_char in
    let low : low_byte (decode_base64 a b c b'A') ≡ 0 =
      omega (arith, small, quarter, first-zero, bit_and_ones 8 (decode_base64 a b c b'A')) in
    rw (sign, low) zero_flag
decode_from-shaped (suc n) (a ∷ b ∷ c ∷ d ∷ s) (ha, (hb, (hc, (hd, h)))) good =
    let (ka, good_b) = and-true (key_char a) _ good in
    let (kb, good_c) = and-true (key_char b) _ good_b in
    let (kc, good_d) = and-true (key_char c) _ good_c in
    let (kd, rest) = and-true (key_char d) _ good_d in
    rw (no_sign a b c d ha hb hc hd ka kb kc kd) (decode_from-shaped n s h rest)
decode_from-shaped n _ h good = absurd cc

-- For texts of bytes: the highlighter takes a text for a key exactly if `key_from_base64` reads it.
pub is_valid_key_iff :
    (old text : Bytes)
    → IsBytes text
    → (is_valid_key text ≡ true) ↔ ((key_from_base64 old text).0 ≡ true)
unfolding is_valid_key key_from_base64 key_to_base64
is_valid_key_iff old text h = elim (Bool-cases (length text == 44)) [
  | inr other ↦ ground arith
  | inl len ↦
      let whole = (==_iff (length text) 44).0 len in
      let blocks = is_valid_key-shaped text whole in
      (
        λ valid. elim (Bool-cases (get_or text 43 0 == b'=')) [
          | inr cut ↦ absurd cc (rw (len, cut, is_valid_key) at valid)
          | inl pad ↦
              rw (len, pad, key_from_base64) (decode_from-shaped 10 text h (sym blocks ∙ valid))
        ],
        λ good.
            let (key, k, e) = (key_from_base64_iff old text h).0 good in
            blocks ∙ subst (λ t. shaped 10 t ≡ true) e (encode_from-shaped 10 key k.0 k.1),
      )
]
