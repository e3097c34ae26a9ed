-- ===== src/Deploy/Attempts/Format.antt =====
-- scripts/production_auto_deploy.py: the attempted record is read as it was written.
use nas_platform.Common.{
  ℕ, ◌≡◌, refl, ◌∙◌, ap, Bool, true, false, not, none, some, List, [], ◌∷◌, ◌++◌, arith, all,
  Bool-cases, Option-cases, inl, inr,
}
use mathlib.Core.Path.{subst}
use mathlib.Core.Option.{some-injective}
use nas_platform.Common.Sort.{All}
use nas_platform.Common.Text.{Text, is_digit}
use nas_platform.Common.Words.{
  is_line_break, is_space, onto_first, split_lines, words_from, split_words,
}
use nas_platform.Relay.Clock.{fits_mask}
use nas_platform.Deploy.Ci.{is_sha, is_hex, member}
use nas_platform.Deploy.Attempts.{
  Attempt, stamp_mask, read_stamp, entry_of, read_line, read_lines, read_attempts, attempt_line,
  attempts_text,
}

-- No character is a space; a line break is a space too.
is_solid : Text → Bool
unfolding all
is_solid s = all (λ c. not (is_space c)) s

space-line_break : (c : ℕ) → is_space c ≡ false → is_line_break c ≡ false
unfolding is_space is_line_break
space-line_break c h = ground arith

-- No character is a line boundary.
has_no_break : Text → Bool
unfolding all
has_no_break s = all (λ c. not (is_line_break c)) s

space-alone : (rest : Text) → words_from (0x20 ∷ rest) ≡ (false, (words_from rest).1)
unfolding words_from is_space
space-alone rest = refl

split_lines-step :
    (c d : ℕ) (s : Text)
    → is_line_break c ≡ false
    → split_lines (c ∷ d ∷ s) ≡ onto_first c (split_lines (d ∷ s))
unfolding split_lines is_line_break
split_lines-step c d s h = ground arith

split_lines-line :
    (line rest : Text)
    → has_no_break line ≡ true
    → split_lines (line ++ 0x0a ∷ rest) ≡ line ∷ split_lines rest
unfolding split_lines has_no_break
split_lines-line [] [] h = unfold is_line_break in refl
split_lines-line [] (c ∷ rest) h = unfold is_line_break in ground arith
split_lines-line (c ∷ []) rest h =
    split_lines-step c 0x0a rest (ground arith) ∙ ap (onto_first c) (split_lines-line [] rest refl)
split_lines-line (c ∷ d ∷ line) rest h =
    split_lines-step c d (line ++ 0x0a ∷ rest) (ground arith)
    ∙ ap (onto_first c) (split_lines-line (d ∷ line) rest (ground arith))

words_from-space :
    (c : ℕ) (w rest : Text)
    → is_solid (c ∷ w) ≡ true
    → words_from ((c ∷ w) ++ 0x20 ∷ rest) ≡ (true, (c ∷ w) ∷ (words_from rest).1)
unfolding words_from is_solid onto_first
words_from-space c [] rest h = rw (space-alone rest) (ground arith)
words_from-space c (d ∷ w) rest h = rw (words_from-space d w rest (ground arith)) (ground arith)

words_from-end :
    (c : ℕ) (w : Text) → is_solid (c ∷ w) ≡ true → words_from (c ∷ w) ≡ (true, (c ∷ w) ∷ [])
unfolding words_from is_solid onto_first
words_from-end c [] h = ground arith
words_from-end c (d ∷ w) h = rw (words_from-end d w (ground arith)) (ground arith)

is_solid-has_no_break : (s : Text) → is_solid s ≡ true → has_no_break s ≡ true
unfolding is_solid has_no_break
is_solid-has_no_break [] h = refl
is_solid-has_no_break (c ∷ s) h =
    ground (arith, space-line_break c, is_solid-has_no_break s (ground arith))

has_no_break-space :
    (s t : Text) → is_solid s ≡ true → is_solid t ≡ true → has_no_break (s ++ 0x20 ∷ t) ≡ true
unfolding is_solid has_no_break
has_no_break-space [] t h k = let e = is_solid-has_no_break t k in unfold is_line_break in e
has_no_break-space (c ∷ s) t h k =
    ground (arith, space-line_break c, has_no_break-space s t (ground arith) k)

hex-solid : (c : ℕ) → is_hex c ≡ true → is_space c ≡ false
unfolding is_digit is_space
hex-solid c h = ground arith

all_hex-solid : (s : Text) → all is_hex s ≡ true → is_solid s ≡ true
unfolding is_solid
all_hex-solid [] h = refl
all_hex-solid (c ∷ s) h = ground (arith, hex-solid c, all_hex-solid s)

is_sha-solid : (s : Text) → is_sha s ≡ true → is_solid s ≡ true
unfolding is_sha
is_sha-solid s h = all_hex-solid s (ground arith)

digit-solid : (c : ℕ) → is_digit c ≡ true → is_space c ≡ false
unfolding is_digit is_space
digit-solid c h = ground arith

solid_mask : is_solid stamp_mask ≡ true
unfolding is_solid is_space
solid_mask = refl

mask-solid : (m s : Text) → is_solid m ≡ true → fits_mask m s ≡ true → is_solid s ≡ true
unfolding is_solid fits_mask
mask-solid [] [] h f = refl
mask-solid [] (c ∷ s) h f = absurd (cc)
mask-solid (d ∷ m) [] h f = absurd (cc)
mask-solid (d ∷ m) (c ∷ s) h f = ground (arith, digit-solid c, mask-solid m s)

-- An entry that a record can hold.
abbrev pub IsEntry : Attempt → Type 0
IsEntry (sha, none) = is_sha sha ≡ true
IsEntry (sha, some stamp) = (is_sha sha ≡ true) × (fits_mask stamp_mask stamp ≡ true)

-- The revisions of a list are new, each at its place.
abbrev pub IsFresh : List Text → List Attempt → Type 0
IsFresh seen [] = Unit
IsFresh seen (a ∷ more) = (member a.0 seen ≡ false) × IsFresh (a.0 ∷ seen) more

split_words-one : (s : Text) → is_sha s ≡ true → split_words s ≡ s ∷ []
unfolding split_words
split_words-one [] h = absurd (unfold is_sha in ground arith)
split_words-one (c ∷ s) h = ap (λ w. w.1) (words_from-end c s (is_sha-solid (c ∷ s) h))

split_words-two :
    (s t : Text)
    → is_sha s ≡ true
    → fits_mask stamp_mask t ≡ true
    → split_words (s ++ 0x20 ∷ t) ≡ s ∷ t ∷ []
unfolding split_words
split_words-two [] t h f = absurd (unfold is_sha in ground arith)
split_words-two (c ∷ s) [] h f = absurd (unfold fits_mask in cc f)
split_words-two (c ∷ s) (d ∷ t) h f =
    ap (λ w. w.1) (words_from-space c s (d ∷ t) (is_sha-solid (c ∷ s) h))
    ∙ ap (λ w. (c ∷ s) ∷ w.1) (words_from-end d t (mask-solid stamp_mask (d ∷ t) solid_mask f))

read_line-attempt_line : (a : Attempt) → IsEntry a → read_line (attempt_line a) ≡ some a
unfolding read_line entry_of
read_line-attempt_line (sha, none) h = rw (split_words-one sha h, entry_of) (rw h refl)
read_line-attempt_line (sha, some stamp) h =
    rw (split_words-two sha stamp h.0 h.1, entry_of) (rw (h.0) (rw (h.1) refl))

attempt_line-has_no_break : (a : Attempt) → IsEntry a → has_no_break (attempt_line a) ≡ true
attempt_line-has_no_break (sha, none) h = is_solid-has_no_break sha (is_sha-solid sha h)
attempt_line-has_no_break (sha, some stamp) h =
    has_no_break-space sha stamp (is_sha-solid sha h.0) (mask-solid stamp_mask stamp solid_mask h.1)

split_lines-attempts_text :
    (a : Attempt) (more : List Attempt)
    → IsEntry a
    → split_lines (attempts_text (a ∷ more)) ≡ attempt_line a ∷ split_lines (attempts_text more)
unfolding attempts_text
split_lines-attempts_text a more h =
    split_lines-line (attempt_line a) (attempts_text more) (attempt_line-has_no_break a h)

read_lines-attempts_text :
    (seen : List Text) (xs : List Attempt)
    → All IsEntry xs
    → IsFresh seen xs
    → read_lines seen (split_lines (attempts_text xs)) ≡ xs
unfolding read_lines
read_lines-attempts_text seen [] h f = unfold attempts_text split_lines in refl
read_lines-attempts_text seen (a ∷ more) h f = rw (split_lines-attempts_text a more h.0) (
    rw (read_line-attempt_line a h.0, read_lines)
      (rw (f.0) (ap (λ xs. a ∷ xs) (read_lines-attempts_text (a.0 ∷ seen) more h.1 f.1))))

-- What was written is read back: every list of entries with distinct revisions is what the poller
-- reads from the text that it stores for it.
pub read_attempts-attempts_text :
    (xs : List Attempt)
    → All IsEntry xs
    → IsFresh [] xs
    → read_attempts (some (attempts_text xs)) ≡ xs
unfolding read_attempts
read_attempts-attempts_text xs h f = read_lines-attempts_text [] xs h f

read_stamp-IsEntry :
    (sha : Text) (more : List Text) → is_sha sha ≡ true → IsEntry (sha, read_stamp more)
read_stamp-IsEntry sha [] h = h
read_stamp-IsEntry sha (part ∷ more) h = elim (Bool-cases (fits_mask stamp_mask part)) [
  | inl fits ↦ rw fits (h, fits)
  | inr other ↦ rw other h
]

entry_of-IsEntry : (words : List Text) (a : Attempt) → entry_of words ≡ some a → IsEntry a
unfolding entry_of
entry_of-IsEntry [] a e = absurd (cc)
entry_of-IsEntry (sha ∷ more) a e = elim (Bool-cases (is_sha sha)) [
  | inl named ↦
      subst IsEntry (some-injective (sha, read_stamp more) a (rw named at e))
        (read_stamp-IsEntry sha more named)
  | inr other ↦ absurd (ground arith)
]

read_line-IsEntry : (line : Text) (a : Attempt) → read_line line ≡ some a → IsEntry a
unfolding read_line
read_line-IsEntry line a e = entry_of-IsEntry (split_words line) a e

-- What is read from any file has only entries, with distinct revisions.
pub read_lines-IsRecord :
    (seen lines : List Text)
    → All IsEntry (read_lines seen lines) × IsFresh seen (read_lines seen lines)
unfolding read_lines
read_lines-IsRecord seen [] = (tt, tt)
read_lines-IsRecord seen (line ∷ lines) = elim (Option-cases (read_line line)) [
  | inl skipped ↦ rw (skipped, read_lines) (read_lines-IsRecord seen lines)
  | inr (a, given) ↦
      rw (given, read_lines)
        (elim (Bool-cases (member a.0 seen)) [
          | inl known ↦ rw known (read_lines-IsRecord seen lines)
          | inr new ↦ rw new (
            (read_line-IsEntry line a given, (read_lines-IsRecord (a.0 ∷ seen) lines).0),
            (new, (read_lines-IsRecord (a.0 ∷ seen) lines).1),
          )
        ])
]
