-- ===== src/Show/Time.antt =====
-- src/show.c: `pretty_time`. The buffers of 1024 bytes hold every text, so that nothing is cut off.
use mathlib.Core.List.{append_assoc, append-nil}
use wireguard_tools.Libc.Print.{print_dec}
use wireguard_tools.Prelude.{
  ℕ, ◌+◌, ◌*◌, ◌/◌, ◌%◌, ◌-◌, ltb, ◌<◌, ◌≡◌, ◌∙◌, sym, refl, arith, inl, inr, List, [], ◌∷◌, ◌++◌,
  ◌==◌, if◌then◌else◌, Bytes, codes, Bool-cases,
}

-- The five numbers of a span of seconds.
pub record Span : Type 0 where
  pub years : ℕ
  pub days : ℕ
  pub hours : ℕ
  pub minutes : ℕ
  pub seconds : ℕ

unfoldable pub split_time : ℕ → Span
split_time left =
    let after_years = left % (365 * 24 * 60 * 60) in
    let after_days = after_years % (24 * 60 * 60) in
    let after_hours = after_days % (60 * 60) in
    record {
      years = left / (365 * 24 * 60 * 60);
      days = after_years / (24 * 60 * 60);
      hours = after_days / (60 * 60);
      minutes = after_hours / 60;
      seconds = after_hours % 60;
    }

-- One number with its unit behind the text so far.
unfoldable pub with_unit : Bytes → ℕ → Bytes → Bytes
with_unit text n unit =
    if n == 0
    then text
    else text
      ++ ((elim text [ [] ↦ [] | ◌∷◌ c s ↦ codes ", " ])
          ++ (print_dec n
              ++ (b' '
                  ∷ 27
                  ∷ (codes "[36m"
                      ++ (unit ++ ((if n == 1 then [] else codes "s") ++ (27 ∷ codes "[0m")))))))

unfoldable pub pretty_time : ℕ → Bytes
unfolding split_time with_unit
pretty_time left =
    let t = split_time left in
    with_unit
      (with_unit
        (with_unit (with_unit (with_unit [] t.years (codes "year")) t.days (codes "day")) t.hours
          (codes "hour"))
        t.minutes (codes "minute"))
      t.seconds (codes "second")

-- How a span is to be read: numbers with their units, largest first.
abbrev pub units : Span → List (ℕ × Bytes)
units t =
    (t.years, codes "year")
    ∷ (t.days, codes "day")
    ∷ (t.hours, codes "hour")
    ∷ (t.minutes, codes "minute")
    ∷ (t.seconds, codes "second")
    ∷ []

-- One number and its unit in cyan, in the plural unless the number is one.
abbrev pub item : ℕ → Bytes → Bytes
item n unit =
    print_dec n
    ++ (b' '
        ∷ 27
        ∷ (codes "[36m" ++ (unit ++ ((if n == 1 then [] else codes "s") ++ (27 ∷ codes "[0m")))))

-- The numbers that are not zero.
abbrev pub items : List (ℕ × Bytes) → List Bytes
items [] = []
items ((n, unit) ∷ xs) = if n == 0 then items xs else item n unit ∷ items xs

abbrev pub with_commas : List Bytes → Bytes
with_commas [] = []
with_commas (t ∷ ts) = codes ", " ++ (t ++ with_commas ts)

abbrev pub commas_between : List Bytes → Bytes
commas_between [] = []
commas_between (t ∷ ts) = t ++ with_commas ts

abbrev with_units : Bytes → List (ℕ × Bytes) → Bytes
with_units text [] = text
with_units text ((n, unit) ∷ xs) = with_units (with_unit text n unit) xs

with_units_behind :
    (c : ℕ) (s : Bytes) (xs : List (ℕ × Bytes))
    → with_units (c ∷ s) xs ≡ (c ∷ s) ++ with_commas (items xs)
unfolding with_unit
with_units_behind c s [] = sym (append-nil (c ∷ s))
with_units_behind c s ((n, unit) ∷ xs) = elim (Bool-cases (n == 0)) [
  | inl none_of ↦ rw none_of (with_units_behind c s xs)
  | inr some_of ↦ rw some_of (
      with_units_behind c (s ++ (codes ", " ++ item n unit)) xs
      ∙ append_assoc (c ∷ s) (codes ", " ++ item n unit) (with_commas (items xs)))
]

with_units_first :
    (text : Bytes) (c : ℕ) (s : Bytes) (xs : List (ℕ × Bytes))
    → with_units (text ++ (c ∷ s)) xs ≡ (text ++ (c ∷ s)) ++ with_commas (items xs)
with_units_first [] c s xs = with_units_behind c s xs
with_units_first (x ∷ text) c s xs = with_units_behind x (text ++ (c ∷ s)) xs

with_units_all : (xs : List (ℕ × Bytes)) → with_units [] xs ≡ commas_between (items xs)
unfolding with_unit
with_units_all [] = refl
with_units_all ((n, unit) ∷ xs) = elim (Bool-cases (n == 0)) [
  | inl none_of ↦ rw none_of (with_units_all xs)
  | inr some_of ↦ rw some_of (with_units_first (print_dec n) (b' ') _ xs)
]

-- `pretty_time` shows numbers of years, days, hours, minutes and seconds that make up the whole span,
-- with less than 365 days, 24 hours, 60 minutes and 60 seconds: those that are not zero, the largest
-- unit first and with a comma between them, each before its unit, in the plural unless it is one.
pub pretty_time_lem :
    (left : ℕ)
    → (t : Span) × (pretty_time left ≡ commas_between (items (units t)))
      × (t.years * 31536000 + t.days * 86400 + t.hours * 3600 + t.minutes * 60 + t.seconds ≡ left)
      × (t.days < 365)
      × (t.hours < 24)
      × (t.minutes < 60)
      × (t.seconds < 60)
unfolding pretty_time split_time
pretty_time_lem left = (
  split_time left,
  with_units_all (units (split_time left)),
  omega arith,
  omega arith,
  omega arith,
  omega arith,
  omega arith,
)

-- `ago`, with the clock's time and that of the handshake in seconds.
unfoldable pub ago : ℕ → ℕ → Bytes
ago now sec =
    if now == sec
    then codes "Now"
    else if ltb now sec
    then b'('
      ∷ 27
      ∷ (codes "[31mSystem clock wound backward; connection problems may ensue."
          ++ (27 ∷ codes "[0m)"))
    else pretty_time (now - sec) ++ codes " ago"

unfoldable pub every : ℕ → Bytes
every seconds = codes "every " ++ pretty_time seconds
