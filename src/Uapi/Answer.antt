-- ===== src/Uapi/Answer.antt =====
-- src/ipc-uapi.h: the answer that `userspace_set_device` waits for, as the lines that `getline` yields
-- up to the end of the stream. No line has a NUL byte.
use wireguard_tools.Config.Keys.{ends_newline, drop_last}
use wireguard_tools.Config.Numbers.{is_empty}
use wireguard_tools.Config.Numbers.RoundTrip.{Digits-char_is_digit}
use wireguard_tools.Ctype.{char_is_digit}
use wireguard_tools.Libc.Number.{read_digits, starts_digit}
use wireguard_tools.Libc.Print.{
  print_dec, print_base_digits, print_base-Digits, starts_digit-digit_char, digit_char,
}
use wireguard_tools.Libc.Text.{split_first}
use wireguard_tools.Prelude.{
  ℕ, ◌-◌, ◌^◌, ◌<◌, ◌≡◌, refl, ap, arith, Bool, true, false, not, ◌||◌, Option, none, some, List,
  [], ◌∷◌, ◌++◌, ltb, ◌==◌, if◌then◌else◌, Bytes, codes, equal, char_int,
}

-- A negative or positive number.
abbrev pub Signed : Type 0
Signed = Bool × ℕ

-- `set_errno` after the empty line, where `none` is its first value -EPROTO; or a broken answer.
pub data Reply : Type 0 where
  replied : Option Signed → Reply
  broken : Reply

-- `strtoll` to the end of the text and within an int.
unfoldable pub int_from : Bool → Bytes → Option Signed
int_from negative digits =
    let (n, rest) = read_digits 10 0 digits in
    if not (starts_digit 10 digits) || not (is_empty rest)
    then none
    else if ltb (if negative then 2 ^ 31 else 2 ^ 31 - 1) n
    then none
    else some (negative, n)

unfoldable pub parse_errno : Bytes → Option Signed
unfolding int_from
parse_errno [] = none
parse_errno (c ∷ s) =
    if c == b'-'
    then int_from true s
    else if char_is_digit (char_int c)
    then int_from false (c ∷ s)
    else none

-- The line's effect on `set_errno`.
unfoldable pub answer_line : Bytes → Option Signed → Option (Option Signed)
unfolding parse_errno
answer_line line now = elim (split_first b'=' line) [
  | none ↦ none
  | some (key, value) ↦
      if not (ends_newline value)
      then none
      else if equal key (codes "errno")
      then elim (parse_errno (drop_last value)) [ none ↦ none | some n ↦ some (some n) ]
      else some now
]

unfoldable pub read_answer : List Bytes → Option Signed → Reply
read_answer [] now = broken
read_answer (line ∷ lines) now =
    if equal line (b'\n' ∷ [])
    then replied now
    else elim (answer_line line now) [ none ↦ broken | some next ↦ read_answer lines next ]

ends_newline-append : (s : Bytes) → ends_newline (s ++ b'\n' ∷ []) ≡ true
unfolding ends_newline
ends_newline-append [] = refl
ends_newline-append (c ∷ []) = refl
ends_newline-append (c ∷ d ∷ s) = ends_newline-append (d ∷ s)

drop_last-append : (s : Bytes) → drop_last (s ++ b'\n' ∷ []) ≡ s
unfolding drop_last
drop_last-append [] = refl
drop_last-append (c ∷ []) = refl
drop_last-append (c ∷ d ∷ s) = ap (λ (t : Bytes). c ∷ t) (drop_last-append (d ∷ s))

int_from-print_dec :
    (negative : Bool) (n : ℕ)
    → ltb (if negative then 2 ^ 31 else 2 ^ 31 - 1) n ≡ false
    → int_from negative (print_dec n) ≡ some (negative, n)
unfolding int_from
int_from-print_dec negative n h =
    let g = print_base-Digits 10 n (omega arith) in
    let starts : starts_digit 10 (print_dec n) ≡ true =
      rw g.cons (starts_digit-digit_char 10 g.head g.tail g.head_lt (omega arith)) in
    rw (print_base_digits 10 n (omega arith) (omega arith), starts, h) refl

no_minus : (d : ℕ) → d < 10 → (digit_char d == b'-') ≡ false
unfolding digit_char
no_minus d k = ground arith

parse_errno-print_dec : (n : ℕ) → n < 2 ^ 31 → parse_errno (print_dec n) ≡ some (false, n)
unfolding parse_errno
parse_errno-print_dec n h =
    let g = print_base-Digits 10 n (omega arith) in
    let digit : char_is_digit (char_int (digit_char g.head)) ≡ true =
      Digits-char_is_digit (digit_char g.head ∷ g.tail)
        (record { head = g.head; tail = g.tail; head_lt = g.head_lt; cons = refl }) in
    let whole : int_from false (digit_char g.head ∷ g.tail) ≡ some (false, n) =
      rw (← g.cons) (int_from-print_dec false n (ground arith)) in
    rw g.cons (rw (no_minus g.head g.head_lt, digit) whole)

-- For every n below 2^31, an answer of the decimal line errno=n and an empty line is taken as n, and
-- one of the line errno=-n as -n, whatever errno was before.
pub read_answer-print_dec :
    (now : Option Signed) (n : ℕ)
    → n < 2 ^ 31
    → (read_answer ((codes "errno=" ++ (print_dec n ++ b'\n' ∷ [])) ∷ (b'\n' ∷ []) ∷ []) now
        ≡ replied (some (false, n)))
      × (read_answer ((codes "errno=-" ++ (print_dec n ++ b'\n' ∷ [])) ∷ (b'\n' ∷ []) ∷ []) now
          ≡ replied (some (true, n)))
unfolding read_answer answer_line split_first equal
read_answer-print_dec now n h = (
  rw (ends_newline-append (print_dec n), drop_last-append (print_dec n), parse_errno-print_dec n h)
      refl,
  rw
      (
        ends_newline-append (b'-' ∷ print_dec n),
        drop_last-append (b'-' ∷ print_dec n),
        int_from-print_dec true n (ground arith),
      )
      refl,
)
