-- ===== src/Common/Words.antt =====
-- Python's splitting of texts: str.splitlines, str.split and str.strip, and searches in a text.
use mathlib.Core.Bool.{Bool, true, false, ◌&&◌, ◌||◌}
use mathlib.Core.Option.{Option, none, some}
use mathlib.Core.List.{List, [], ◌∷◌}
use Prim.Native.Nat.{ℕ}
use nas_platform.Common.Tests.{leb, ◌==◌, if◌then◌else◌}
use nas_platform.Common.Lists.{length}
use nas_platform.Common.Text.{Text, text_eq, starts_with}

-- t in s
unfoldable pub contains : Text → Text → Bool
unfolding starts_with
contains [] t = text_eq [] t
contains (c ∷ s) t = starts_with (c ∷ s) t || contains s t

-- A line boundary of str.splitlines.
unfoldable pub is_line_break : ℕ → Bool
is_line_break c =
    leb 0x0a c && leb c 0x0d
    || leb 0x1c c && leb c 0x1e
    || c == 0x85
    || leb 0x2028 c && leb c 0x2029

-- str.isspace of one character
unfoldable pub is_space : ℕ → Bool
is_space c =
    leb 0x09 c && leb c 0x0d
    || leb 0x1c c && leb c 0x20
    || c == 0x85
    || c == 0xa0
    || c == 0x1680
    || leb 0x2000 c && leb c 0x200a
    || leb 0x2028 c && leb c 0x2029
    || c == 0x202f
    || c == 0x205f
    || c == 0x3000

-- A character in front of the first of some parts.
unfoldable pub onto_first : ℕ → List Text → List Text
onto_first c [] = (c ∷ []) ∷ []
onto_first c (part ∷ parts) = (c ∷ part) ∷ parts

-- s.splitlines(): "\r\n" is one boundary
unfoldable pub split_lines : Text → List Text
unfolding is_line_break onto_first
split_lines [] = []
split_lines (c ∷ []) = if is_line_break c then [] ∷ [] else (c ∷ []) ∷ []
split_lines (c ∷ d ∷ s) =
    let below = split_lines s in
    let rest = split_lines (d ∷ s) in
    if c == 0x0d && d == 0x0a
    then [] ∷ below
    else if is_line_break c
    then [] ∷ rest
    else onto_first c rest

-- The word that a text begins with, and the others: the flag tells whether a word has begun.
unfoldable pub words_from : Text → Bool × List Text
unfolding is_space onto_first
words_from [] = (false, [])
words_from (c ∷ s) =
    let (begun, parts) = words_from s in
    if is_space c
    then (false, parts)
    else (true, if begun then onto_first c parts else (c ∷ []) ∷ parts)

-- s.split()
unfoldable pub split_words : Text → List Text
unfolding words_from
split_words s = (words_from s).1

-- s.split(c): the parts between the occurrences of one character
unfoldable pub split_at : ℕ → Text → List Text
unfolding onto_first
split_at c [] = [] ∷ []
split_at c (d ∷ s) = let rest = split_at c s in if d == c then [] ∷ rest else onto_first d rest

-- s.lstrip(), s.strip()
unfoldable pub strip_left : Text → Text
unfolding is_space
strip_left [] = []
strip_left (c ∷ s) = let rest = strip_left s in if is_space c then rest else c ∷ s

unfoldable pub strip_right : Text → Text
unfolding is_space
strip_right [] = []
strip_right (c ∷ s) =
    let rest = strip_right s in if is_space c && length rest == 0 then [] else c ∷ rest

unfoldable pub strip : Text → Text
unfolding strip_left strip_right
strip s = strip_left (strip_right s)

-- s.removeprefix(t) where it is one, `none` where it is not.
unfoldable pub after_prefix : Text → Text → Option Text
after_prefix s [] = some s
after_prefix [] (d ∷ t) = none
after_prefix (c ∷ s) (d ∷ t) = let rest = after_prefix s t in if c == d then rest else none

-- The longest front of characters that pass, and the rest.
unfoldable pub span : (ℕ → Bool) → Text → Text × Text
span p [] = ([], [])
span p (c ∷ s) = let (front, rest) = span p s in if p c then (c ∷ front, rest) else ([], c ∷ s)
