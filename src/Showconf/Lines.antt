-- ===== src/Showconf/Lines.antt =====
-- src/showconf.c and src/config.c: a printed line under `config_read_line`.
use wireguard_tools.Config.Line.{
  Ctx, strip_spaces, cleaned, config_read_line, process_line, device_line, peer_line, read_lines,
}
use wireguard_tools.Config.Line.Keys.{find_key, get_value}
use wireguard_tools.Config.Numbers.{is_empty}
use wireguard_tools.Config.Outcome.{Outcome, done, fail, done-injective, >>=-eq-done}
use wireguard_tools.Config.System.{System}
use wireguard_tools.Ctype.{char_is_space}
use wireguard_tools.Libc.Text.{span_until, strip_prefix}
use wireguard_tools.Prelude.{
  ℕ, ◌≡◌, ◌∙◌, refl, ap, arith, Bool, true, false, not, ◌&&◌, Option, none, some, List, [], ◌∷◌,
  ◌++◌, ◌==◌, leb, if◌then◌else◌, Bytes, codes, length, char_int, equal_nocase, some_pair, ◌+◌,
}
use wireguard_tools.Showconf.{key_line, printed_if, line_of}

-- The newline is taken out, as all white space.
pub cleaned-newline : (v : Bytes) → cleaned (v ++ b'\n' ∷ []) ≡ cleaned v
unfolding cleaned strip_spaces span_until
cleaned-newline [] = unfold char_is_space in refl
cleaned-newline (x ∷ v) = ground (arith, cleaned-newline v)

-- A name has neither white space nor a number sign.
abbrev pub is_plain : Bytes → Bool
is_plain [] = true
is_plain (c ∷ s) = not (c == b'#') && (not (char_is_space (char_int c)) && is_plain s)

pub cleaned-plain :
    (name s : Bytes) → is_plain name ≡ true → cleaned (name ++ s) ≡ name ++ cleaned s
unfolding cleaned strip_spaces span_until
cleaned-plain [] s h = refl
cleaned-plain (c ∷ name) s h = ground (arith, cleaned-plain name s)

pub cleaned-key_line :
    (name v : Bytes) → is_plain name ≡ true → cleaned (key_line name v) ≡ name ++ b'=' ∷ cleaned v
unfolding cleaned strip_spaces span_until char_is_space
cleaned-key_line name v h =
    cleaned-plain name (b' ' ∷ b'=' ∷ b' ' ∷ (v ++ b'\n' ∷ [])) h ∙ ap (λ s. name ++ s) equals
  where
    equals : cleaned (b' ' ∷ b'=' ∷ b' ' ∷ (v ++ b'\n' ∷ [])) ≡ b'=' ∷ cleaned v
    equals = ap (λ s. b'=' ∷ s) (cleaned-newline v)

abbrev or_else : {K : Type 0} → K → Option (K × Bytes) → Option Bytes → Option (K × Bytes)
or_else key rest o = elim o [ none ↦ rest | some v ↦ some (key, v) ]

-- The first key of the table that the line begins with.
abbrev pub first_of : {K : Type 0} → List (Bytes × Bool × K) → Bytes → Option (K × Bytes)
first_of [] line = none
first_of ((name, may_be_empty, key) ∷ table) line =
    or_else key (first_of table line) (strip_prefix name line)

length-strip_prefix :
    (name line v : Bytes) → strip_prefix name line ≡ some v → length line ≡ length name + length v
unfolding strip_prefix
length-strip_prefix [] line v e = ground arith
length-strip_prefix (k ∷ name) [] v e = cc
length-strip_prefix (k ∷ name) (x ∷ line) v e = ground (arith, length-strip_prefix name line v)

get_value-some :
    (name line v : Bytes)
    → strip_prefix name line ≡ some v
    → is_empty v ≡ false
    → get_value line name ≡ some v
unfolding get_value
get_value-some name line (c ∷ v) e h =
    let longer : leb (length line) (length name) ≡ false =
      ground (arith, length-strip_prefix name line (c ∷ v)) in
    rw (longer, get_value) e
get_value-some name line [] e h = cc

get_value-none : (name line : Bytes) → strip_prefix name line ≡ none → get_value line name ≡ none
unfolding get_value
get_value-none name line e = ground arith

or_else-some :
    {K : Type 0} (key : K) (rest rest' : Option (K × Bytes)) (o o' : Option Bytes) (k : K)
    (v : Bytes)
    → (o ≡ none → o' ≡ none)
    → ((w : Bytes) → o ≡ some w → is_empty w ≡ false → o' ≡ some w)
    → (rest ≡ some (k, v) → rest' ≡ some (k, v))
    → or_else key rest o ≡ some (k, v)
    → is_empty v ≡ false
    → or_else key rest' o' ≡ some (k, v)
or_else-some key rest rest' none o' k v f g r e h = rw (f refl) (r e)
or_else-some key rest rest' (some w) o' k v f g r e h = rw (g w refl (rw (some_pair e).1 h)) e

-- A value that is not empty is found behind it.
pub find_key-first_of :
    {K : Type 0} (table : List (Bytes × Bool × K)) (line : Bytes) (k : K) (v : Bytes)
    → first_of table line ≡ some (k, v)
    → is_empty v ≡ false
    → find_key table line ≡ some (k, v)
unfolding find_key
find_key-first_of [] line k v e h = cc
find_key-first_of ((name, true, key) ∷ table) line k v e h =
    or_else-some key (first_of table line) (find_key table line) (strip_prefix name line)
      (strip_prefix name line) k v (λ f. f) (λ w f n. f) (λ f. find_key-first_of table line k v f h)
      e h
find_key-first_of ((name, false, key) ∷ table) line k v e h =
    or_else-some key (first_of table line) (find_key table line) (strip_prefix name line)
      (get_value line name) k v (get_value-none name line) (get_value-some name line)
      (λ f. find_key-first_of table line k v f h) e h

pub append-ne-empty : (name s : Bytes) (c : ℕ) → is_empty (name ++ c ∷ s) ≡ false
append-ne-empty [] s c = refl
append-ne-empty (x ∷ name) s c = refl

-- A line of a key is no header.
abbrev pub IsKeyLine : Bytes → Type 0
IsKeyLine line =
    (equal_nocase line (codes "[Interface]") ≡ false) × (equal_nocase line (codes "[Peer]") ≡ false)

pub read-key_line :
    (sys : System) (ctx : Ctx) (name v : Bytes)
    → is_plain name ≡ true
    → IsKeyLine (name ++ b'=' ∷ cleaned v)
    → config_read_line sys ctx (key_line name v) ≡ (
        if ctx.is_device_section
        then device_line sys ctx (name ++ b'=' ∷ cleaned v)
        else if ctx.is_peer_section
        then peer_line sys ctx (name ++ b'=' ∷ cleaned v)
        else fail)
unfolding config_read_line process_line
read-key_line sys ctx name v plain header =
    rw
      (
        config_read_line,
        cleaned-key_line name v plain,
        append-ne-empty name (cleaned v) b'=',
        header.0,
        header.1,
      )
      refl

-- The lines of a section one after the other.
pub read_lines-append :
    (sys : System) (xs ys : List Bytes) (c c' : Ctx)
    → read_lines sys c xs ≡ done c'
    → read_lines sys c (xs ++ ys) ≡ read_lines sys c' ys
unfolding read_lines
read_lines-append sys [] ys c c' e = rw (done-injective e) refl
read_lines-append sys (x ∷ xs) ys c c' e =
    let (d, first, rest) = >>=-eq-done (config_read_line sys c x) (λ d. read_lines sys d xs) e in
    rw first (read_lines-append sys xs ys d c' rest)

pub read_lines-next :
    (sys : System) (l : Bytes) (ls : List Bytes) (c c' : Ctx)
    → config_read_line sys c l ≡ done c'
    → read_lines sys c (l ∷ ls) ≡ read_lines sys c' ls
unfolding read_lines
read_lines-next sys l ls c c' e = rw e refl

pub read_lines_asked :
    (sys : System) (b : Bool) (l : Bytes) (f : Bool → Ctx)
    → (b ≡ true → config_read_line sys (f false) l ≡ done (f true))
    → read_lines sys (f false) (printed_if b l) ≡ done (f b)
unfolding read_lines
read_lines_asked sys true l f h = rw (h refl) refl
read_lines_asked sys false l f h = refl

pub read_lines_named :
    (sys : System) (name : Bytes) (o : Option Bytes) (f : Option Bytes → Ctx)
    → ((v : Bytes)
        → o ≡ some v
        → config_read_line sys (f none) (key_line name v) ≡ done (f (some v)))
    → read_lines sys (f none) (line_of name o) ≡ done (f o)
unfolding read_lines
read_lines_named sys name none f h = refl
read_lines_named sys name (some v) f h = rw (h v refl) refl

-- A line under a condition, or of a text that may be there, in front of others.
pub read_lines_asked_append :
    (sys : System) (b : Bool) (l : Bytes) (ls : List Bytes) (f : Bool → Ctx) {r : Outcome Ctx}
    → (b ≡ true → config_read_line sys (f false) l ≡ done (f true))
    → read_lines sys (f b) ls ≡ r
    → read_lines sys (f false) (printed_if b l ++ ls) ≡ r
read_lines_asked_append sys b l ls f h rest =
    read_lines-append sys (printed_if b l) ls (f false) (f b) (read_lines_asked sys b l f h) ∙ rest

pub read_lines_named_append :
    (sys : System) (name : Bytes) (o : Option Bytes) (ls : List Bytes) (f : Option Bytes → Ctx)
    {r : Outcome Ctx}
    → ((v : Bytes)
        → o ≡ some v
        → config_read_line sys (f none) (key_line name v) ≡ done (f (some v)))
    → read_lines sys (f o) ls ≡ r
    → read_lines sys (f none) (line_of name o ++ ls) ≡ r
read_lines_named_append sys name o ls f h rest =
    read_lines-append sys (line_of name o) ls (f none) (f o) (read_lines_named sys name o f h)
    ∙ rest
