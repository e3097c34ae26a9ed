-- ===== src/Message/Length.antt =====
-- The bounds that the message functions of services/dozzle/alert_relay.py keep, so that Pushover
-- takes what they build.
use nas_platform.Common.{
  ℕ, zero, suc, ◌-◌, ◌≤◌, ◌≡◌, refl, ap, sym, ◌∙◌, inl, inr, List, [], ◌∷◌, arith, ltb, ltb→le,
  length, take, length-append, length-take-le, Bool-cases, without_last, Option-cases,
}
use nas_platform.Common.Text.{Text}
use nas_platform.Message.{
  max_message_characters, escape, escape_within, html_escape_to, joined, fit_lines,
  without_open_tag, without_open_entity, opening_at, before_unclosed, shortened, fit_message,
  message_lines, compose_from, compose_message,
}

length-without_open_tag : (s : Text) → length (without_open_tag s) ≤ length s
unfolding without_open_tag
length-without_open_tag [] = omega arith
length-without_open_tag (c ∷ s) = ground (arith, length-without_open_tag s)

length-without_open_entity : (s : Text) → length (without_open_entity s) ≤ length s
unfolding without_open_entity
length-without_open_entity [] = omega arith
length-without_open_entity (c ∷ s) = ground (arith, length-without_open_entity s)

length-before_unclosed : (skip : ℕ) (s : Text) → length (before_unclosed skip s) ≤ length s
unfolding before_unclosed
length-before_unclosed zero [] = omega arith
length-before_unclosed (suc skip) [] = omega arith
length-before_unclosed (suc skip) (c ∷ s) = omega (arith, length-before_unclosed skip s)
length-before_unclosed zero (c ∷ s) = elim (Option-cases (opening_at c s)) [
  | inl nothing ↦ rw (nothing, before_unclosed) (omega (arith, length-before_unclosed zero s))
  | inr ((tag, rest), opens) ↦ ground (arith, length-before_unclosed (length s - length rest) s)
]

length-shortened : (size : ℕ) (message : Text) → length (shortened size message) ≤ suc size
unfolding shortened
length-shortened size message =
    let cut = take size message in
    omega (
      arith,
      length-append (before_unclosed 0 (without_open_entity (without_open_tag cut))) (0x2026 ∷ []),
      length-before_unclosed 0 (without_open_entity (without_open_tag cut)),
      length-without_open_entity (without_open_tag cut),
      length-without_open_tag cut,
      length-take-le size message,
    )

-- Whatever the lines, the message is within Pushover's limit.
pub length-fit_message : (lines : List Text) → length (fit_message lines) ≤ max_message_characters
unfolding fit_message
length-fit_message lines =
    ground (
      arith,
      length-shortened (max_message_characters - 1) (joined (fit_lines (length lines) lines)),
    )

length-compose_from :
    (k : ℕ) (lead : Text) (details : List Text) (closing : Text)
    → length (compose_from k lead details closing) ≤ max_message_characters
unfolding compose_from
length-compose_from zero lead details closing =
    length-fit_message (message_lines lead details closing)
length-compose_from (suc k) lead details closing = ground (
  arith,
  length-compose_from k lead (without_last details) closing,
  length-fit_message (message_lines lead details closing),
)

-- The message of a lead, details and a closing is within Pushover's limit, whatever they are.
pub length-compose_message :
    (lead : Text) (details : List Text) (closing : Text)
    → length (compose_message lead details closing) ≤ max_message_characters
unfolding compose_message
length-compose_message lead details closing =
    length-compose_from (length details) lead details closing

take-length {ℓ} : {A : Type ℓ} (xs : List A) → take (length xs) xs ≡ xs
take-length [] = refl
take-length (x ∷ xs) = rw (take-length xs)

take-take {ℓ} : {A : Type ℓ} (j k : ℕ) (xs : List A) → j ≤ k → take j (take k xs) ≡ take j xs
take-take zero k xs h = refl
take-take (suc j) zero xs h = absurd (omega arith)
take-take (suc j) (suc k) [] h = refl
take-take (suc j) (suc k) (x ∷ xs) h = rw (take-take j k xs (omega arith))

-- What the loop of `html_escape` returns fits, and is a whole prefix of the text, escaped.
escape_within_prefix :
    (k maximum : ℕ) (s : Text)
    → length s ≤ k
    → (j : ℕ) × (j ≤ k)
      × (escape_within k maximum s ≡ escape (take j s))
      × (length (escape_within k maximum s) ≤ maximum)
unfolding escape_within
escape_within_prefix zero maximum [] h = (0, omega arith, refl, unfold escape in omega arith)
escape_within_prefix zero maximum (c ∷ s) h = absurd (omega arith)
escape_within_prefix (suc k) maximum s h = elim (Bool-cases (ltb maximum (length (escape s)))) [
  | inl over ↦
      let (j, small, same, fits) = escape_within_prefix k maximum (take k s) (length-take-le k s) in
      rw over (j, omega arith, same ∙ ap escape (take-take j k s small), fits)
  | inr room ↦
      rw room
        (length s, h, ap escape (sym (take-length s)), ltb→le maximum (length (escape s)) room)
]

-- An escaped field is at most `escaped_maximum` long and is the escape of a prefix of at most
-- `maximum` characters: no entity is cut.
html_escape_to-prefix :
    (maximum escaped_maximum : ℕ) (value : Text)
    → (j : ℕ) × (j ≤ maximum)
      × (html_escape_to maximum escaped_maximum value ≡ escape (take j value))
      × (length (html_escape_to maximum escaped_maximum value) ≤ escaped_maximum)
unfolding html_escape_to
html_escape_to-prefix maximum escaped_maximum value =
    let bounded = take maximum value in
    let (j, small, same, fits) =
      escape_within_prefix (length bounded) escaped_maximum bounded (omega arith) in
    (
      j,
      omega (arith, length-take-le maximum value),
      same ∙ ap escape (take-take j maximum value (omega (arith, length-take-le maximum value))),
      fits,
    )
