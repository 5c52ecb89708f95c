-- ===== src/Terminal.antt =====
-- src/terminal.c: the output of `terminal_printf`, from what `vasprintf` makes of its arguments.
pub mod Plain
use wireguard_tools.Ctype.{char_is_alpha}
use wireguard_tools.Prelude.{
  ℕ, zero, suc, ◌-◌, Bool, true, false, not, ◌&&◌, Option, none, some, [], ◌∷◌, ltb, ◌==◌,
  if◌then◌else◌, Bytes, codes, equal, length, drop, get_or, char_int,
}

-- The first call; WG_COLOR_MODE and `isatty` of the output are its arguments.
abbrev pub color_mode : Option Bytes → Bool → Bool
color_mode none tty = tty
color_mode (some v) tty =
    if equal v (codes "always") then true else if equal v (codes "never") then false else tty

-- The inner loop: NULs up to the first letter, and for it.
unfoldable pub erase : Bytes → Bytes
erase [] = []
erase (c ∷ s) = let rest = erase s in if char_is_alpha (char_int c) then 0 ∷ s else 0 ∷ rest

-- The outer loop, with the number of its rounds that are left.
unfoldable pub filter_from : ℕ → Bytes → Bytes
filter_from zero s = s
filter_from (suc n) [] = []
filter_from (suc n) (c ∷ s) =
    let escape = c == 27 && get_or s 0 0 == b'[' in
    (if escape then 0 else c) ∷ filter_from n (if escape then 0 ∷ erase (drop 1 s) else s)

-- The parts between the NULs.
unfoldable pub put_parts : Bytes → Bytes
put_parts [] = []
put_parts (c ∷ s) = let rest = put_parts s in if c == 0 then rest else c ∷ rest

unfoldable pub filter_ansi : Bool → Bytes → Bytes
filter_ansi color str =
    if color
    then str
    else put_parts (if ltb (length str) 2 then str else filter_from (length str - 2) str)
