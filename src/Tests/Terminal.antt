-- ===== src/Tests/Terminal.antt =====
-- src/terminal.c on a coloured line.
use wireguard_tools.Ctype.{char_is_alpha}
use wireguard_tools.Prelude.{◌≡◌, refl, false, List, [], ◌∷◌, codes, All}
use wireguard_tools.Terminal.Plain.{Piece, words, control, IsPiece, text, shown, filter_ansi-text}
use wireguard_tools.Terminal.{erase, filter_from, put_parts, filter_ansi}

abbrev line : List Piece
line =
    words (codes "peer: ")
    ∷ control (codes "1;33") b'm'
    ∷ words (codes "wg")
    ∷ control (codes "0") b'm'
    ∷ []

line-IsPiece : All IsPiece line
unfolding char_is_alpha
line-IsPiece = (
  (
    (refl, refl),
    ((refl, refl), ((refl, refl), ((refl, refl), ((refl, refl), ((refl, refl), tt))))),
  ),
  (
    ((refl, (refl, (refl, (refl, tt)))), refl),
    (((refl, refl), ((refl, refl), tt)), (((refl, tt), refl), tt)),
  ),
)

filter_ansi-text_example : filter_ansi false (text line) ≡ shown line
filter_ansi-text_example = filter_ansi-text line line-IsPiece

-- A sequence inside another one leaves a sequence.
nested : filter_ansi false (27 ∷ 27 ∷ codes "[0m[31mred") ≡ 27 ∷ codes "[31mred"
unfolding filter_ansi filter_from erase put_parts char_is_alpha
nested = refl
