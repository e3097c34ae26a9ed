-- ===== src/Prune/Report.antt =====
-- scripts/image_prune.py: what a prune reads out of Docker's reports, and how it writes sizes and
-- spans. Texts are ASCII where the patterns have `\d` or `[A-Za-z]`.
use nas_platform.Common.{
  ℕ, ◌+◌, ◌/◌, ◌%◌, ◌^◌, Bool, true, false, ◌&&◌, ◌||◌, Option, none, some, List, [], ◌∷◌, ◌++◌,
  leb, ltb, ◌==◌, if◌then◌else◌, length, any, select, map,
}
use nas_platform.Common.Text.{Text, codes, text_eq, is_digit, decimal_text}
use nas_platform.Common.Words.{after_prefix, span, is_space, split_lines, strip}

-- What Python's floats give: `int(float(amount) * multiplier)`, and `f"{size:.1f} {unit}"` of a count
-- of at least 1000.
pub record Floats : Type 0 where
  pub scaled : Text → ℕ → ℕ
  pub size_text : ℕ → Text

-- What a match of RECLAIMED_PATTERN holds.
abbrev pub Amount : Type 0
Amount = Text × Text

abbrev is_letter : ℕ → Bool
is_letter c = (leb b'a' c && leb c b'z') || (leb b'A' c && leb c b'Z')

-- `\s*$` under MULTILINE: the white space reaches the end or has a line feed in it
abbrev ends_line : Text → Bool
ends_line s =
    let (spaces, rest) = span is_space s in any (λ c. c == 0x0a) spaces || length rest == 0

-- The unit, of one to three letters, and the end of the line.
unfoldable pub unit_at : Text → Text → Option Amount
unfolding span is_space any
unit_at number s =
    let (letters, rest) = span is_letter (span is_space s).1 in
    if leb 1 (length letters) && leb (length letters) 3 && ends_line rest
    then some (number, letters)
    else none

-- The optional fraction; without a digit behind the dot there is no unit there either.
abbrev fraction_at : Text → Text → Option Amount
fraction_at whole [] = none
fraction_at whole (c ∷ s) =
    if c == b'.'
    then (let (digits, rest) = span is_digit s in
        if leb 1 (length digits) then unit_at (whole ++ b'.' ∷ digits) rest else none)
    else unit_at whole (c ∷ s)

-- RECLAIMED_PATTERN at the beginning of a line
unfoldable pub reclaimed_at : Text → Option Amount
unfolding after_prefix span is_space is_digit unit_at
reclaimed_at s = elim (after_prefix s (codes "Total reclaimed space:")) [
  | none ↦ none
  | some rest ↦
      let (whole, after) = span is_digit (span is_space rest).1 in
      if leb 1 (length whole) then fraction_at whole after else none
]

abbrev onto : {A : Type 0} → Option A → List A → List A
onto none xs = xs
onto (some x) xs = x ∷ xs

-- The matches of a pattern at the beginnings of lines; `begins` tells whether one is here. No match
-- of the two patterns holds the beginning of another.
module _ {A : Type 0} (matches : Text → Option A) where
  unfoldable pub find_all : Bool → Text → List A
  find_all true [] = onto (matches []) []
  find_all false [] = []
  find_all begins (c ∷ s) =
      let rest = find_all (c == 0x0a) s in if begins then onto (matches (c ∷ s)) rest else rest

-- BYTE_UNITS.get(unit.lower())
abbrev pub byte_units : List (Text × ℕ)
byte_units =
    (codes "b", 1)
    ∷ (codes "kb", 1000)
    ∷ (codes "mb", 1000 ^ 2)
    ∷ (codes "gb", 1000 ^ 3)
    ∷ (codes "tb", 1000 ^ 4)
    ∷ (codes "pb", 1000 ^ 5)
    ∷ (codes "kib", 1024)
    ∷ (codes "mib", 1024 ^ 2)
    ∷ (codes "gib", 1024 ^ 3)
    ∷ (codes "tib", 1024 ^ 4)
    ∷ (codes "pib", 1024 ^ 5)
    ∷ []

unfoldable pub unit_of : List (Text × ℕ) → Text → Option ℕ
unfolding text_eq
unit_of [] name = none
unit_of ((unit, multiplier) ∷ more) name =
    if text_eq unit name then some multiplier else unit_of more name

abbrev lower : ℕ → ℕ
lower c = if ltb b'@' c && ltb c b'[' then c + 32 else c

module _ (floats : Floats) where
  -- The bytes of one match; a unit that is not known counts for nothing.
  unfoldable pub amount_bytes : Amount → ℕ
  unfolding unit_of
  amount_bytes (number, unit) = elim (unit_of byte_units (map lower unit)) [
    | none ↦ 0
    | some multiplier ↦ floats.scaled number multiplier
  ]

  unfoldable pub sum_bytes : List Amount → ℕ
  unfolding amount_bytes
  sum_bytes [] = 0
  sum_bytes (a ∷ more) = amount_bytes a + sum_bytes more

  unfoldable pub parse_reclaimed : Text → ℕ
  unfolding find_all reclaimed_at sum_bytes
  parse_reclaimed output = sum_bytes (find_all reclaimed_at true output)

  unfoldable pub format_bytes : ℕ → Text
  unfolding decimal_text
  format_bytes count =
      if ltb count 1000 then decimal_text count ++ codes " B" else floats.size_text count

abbrev is_hex : ℕ → Bool
is_hex c = is_digit c || (leb b'a' c && leb c b'f')

-- DELETED_PATTERN at the beginning of a line
unfoldable pub deleted_at : Text → Option (Unit {0})
unfolding after_prefix span is_space is_digit any
deleted_at s = elim (after_prefix s (codes "deleted:")) [
  | none ↦ none
  | some rest ↦ elim (after_prefix (span is_space rest).1 (codes "sha256:")) [
    | none ↦ none
    | some digest ↦
        let (digits, after) = span is_hex digest in
        if length digits == 64 && ends_line after then some tt else none
  ]
]

unfoldable pub count_removed : Text → ℕ
unfolding find_all deleted_at
count_removed output = length (find_all deleted_at true output)

-- A span of whole seconds that is not negative.
unfoldable pub format_duration : ℕ → Text
unfolding decimal_text
format_duration seconds =
    let minutes = seconds / 60 in
    let hours = minutes / 60 in
    let shown_seconds = decimal_text (seconds % 60) ++ codes "s" in
    if leb 1 hours
    then decimal_text hours
      ++ (codes "h " ++ (decimal_text (minutes % 60) ++ (codes "m " ++ shown_seconds)))
    else if leb 1 minutes
    then decimal_text minutes ++ (codes "m " ++ shown_seconds)
    else shown_seconds

abbrev contains_line : List Text → Text → Bool
contains_line lines line = any (text_eq line) lines

-- The size of the set of the lines.
unfoldable pub distinct : List Text → ℕ
unfolding any text_eq
distinct [] = 0
distinct (line ∷ lines) =
    let rest = distinct lines in if contains_line lines line then rest else 1 + rest

-- count_images, of what `docker image ls` printed
unfoldable pub count_lines : Text → ℕ
unfolding distinct split_lines strip select
count_lines output =
    distinct (select (λ line. leb 1 (length line)) (map strip (split_lines output)))
