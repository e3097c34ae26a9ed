-- ===== src/Message.antt =====
-- The message shape that the programs share: `html_escape`, `fit_message` and `compose_message` of
-- services/dozzle/alert_relay.py. scripts/image_prune.py and scripts/production_auto_deploy.py hold
-- copies of the same text.
pub mod Length
use nas_platform.Common.{
  ℕ, zero, suc, ◌+◌, ◌-◌, Bool, true, false, not, ◌&&◌, ◌||◌, Option, none, some, List, [], ◌∷◌,
  ◌++◌, ltb, leb, ◌==◌, if◌then◌else◌, length, take, drop, any, without_last,
}
use nas_platform.Common.Text.{Text, codes, text_eq, starts_with, is_digit}
use nas_platform.Common.Json.{join}

abbrev pub max_escaped_field_characters : ℕ
max_escaped_field_characters = 384

abbrev pub max_message_characters : ℕ
max_message_characters = 1024

-- html.escape(…, quote=True), one character
unfoldable pub escape_character : ℕ → Text
escape_character c =
    if c == b'&'
    then codes "&amp;"
    else if c == b'<'
    then codes "&lt;"
    else if c == b'>'
    then codes "&gt;"
    else if c == 0x22
    then codes "&quot;"
    else if c == 0x27
    then codes "&#x27;"
    else c ∷ []

unfoldable pub escape : Text → Text
unfolding escape_character
escape [] = []
escape (c ∷ s) = escape_character c ++ escape s

-- The loop of `html_escape`: characters go from the end until the escaped text fits. It ends with
-- the text empty; `k` is the length that is left.
unfoldable pub escape_within : ℕ → ℕ → Text → Text
escape_within zero maximum bounded = escape bounded
escape_within (suc k) maximum bounded =
    let shorter = escape_within k maximum (take k bounded) in
    if ltb maximum (length (escape bounded)) then shorter else escape bounded

unfoldable pub html_escape_to : ℕ → ℕ → Text → Text
html_escape_to maximum escaped_maximum value =
    let bounded = take maximum value in escape_within (length bounded) escaped_maximum bounded

abbrev pub html_escape : Text → Text
html_escape = html_escape_to 128 max_escaped_field_characters

abbrev newline : Text
newline = codes "\n"

-- "\n".join(lines)
abbrev pub joined : List Text → Text
joined = join newline

-- The loop of `fit_message` over `kept`, with `k` lines at most left to drop.
unfoldable pub fit_lines : ℕ → List Text → List Text
fit_lines zero kept = kept
fit_lines (suc k) kept =
    let fewer = fit_lines k (without_last kept) in
    if ltb 1 (length kept) && ltb max_message_characters (length (joined kept)) then fewer else kept

-- c in s
unfoldable pub holds : ℕ → Text → Bool
unfolding any
holds c s = any (λ x. x == c) s

-- re.sub(r"<[^>]*\Z", "", cut)
unfoldable pub without_open_tag : Text → Text
unfolding holds
without_open_tag [] = []
without_open_tag (c ∷ s) =
    let rest = c ∷ without_open_tag s in if c == b'<' && not (holds b'>' s) then [] else rest

-- \s of a `str` pattern
unfoldable pub is_space : ℕ → Bool
is_space c =
    (leb 0x09 c && leb c 0x0d)
    || (leb 0x1c c && leb c 0x20)
    || c == 0x85
    || c == 0xa0
    || c == 0x1680
    || (leb 0x2000 c && leb c 0x200a)
    || c == 0x2028
    || c == 0x2029
    || c == 0x202f
    || c == 0x205f
    || c == 0x3000

unfoldable pub ends_entity : ℕ → Bool
unfolding is_space
ends_entity c = c == b';' || c == b'<' || c == b'>' || is_space c

-- re.sub(r"&[^;<>\s]*\Z", "", cut)
unfoldable pub without_open_entity : Text → Text
unfolding any ends_entity
without_open_entity [] = []
without_open_entity (c ∷ s) =
    let rest = c ∷ without_open_entity s in
    if c == b'&' && not (any ends_entity s) then [] else rest

-- Behind the first `>`; `none` where there is none.
unfoldable pub behind_tag : Text → Option Text
behind_tag [] = none
behind_tag (c ∷ s) = if c == b'>' then some s else behind_tag s

-- \w of a `str` pattern, over ASCII, where the messages put their tags
unfoldable pub is_word : ℕ → Bool
unfolding is_digit
is_word c = is_digit c || (leb b'a' c && leb c b'z') || (leb b'A' c && leb c b'Z') || c == b'_'

unfoldable pub at_boundary : Text → Bool
unfolding is_word
at_boundary [] = true
at_boundary (c ∷ s) = not (is_word c)

-- The tags of the pattern, in its order.
abbrev tags : List Text
tags = codes "b" ∷ codes "i" ∷ codes "u" ∷ codes "a" ∷ codes "font" ∷ []

unfoldable pub tag_at : List Text → Text → Option Text
unfolding starts_with at_boundary
tag_at [] s = none
tag_at (t ∷ ts) s =
    if starts_with s t && at_boundary (drop (length t) s) then some t else tag_at ts s

-- needle in s
unfoldable pub contains : Text → Text → Bool
unfolding starts_with
contains needle [] = text_eq needle []
contains needle (c ∷ s) = starts_with (c ∷ s) needle || contains needle s

-- What becomes of the text from one `<`: the tag that opens there and what stands behind it.
unfoldable pub opening_at : ℕ → Text → Option (Text × Text)
unfolding tag_at behind_tag
opening_at c s =
    if c == b'<'
    then elim (tag_at tags s) [
      | none ↦ none
      | some tag ↦ elim (behind_tag (drop (length tag) s)) [
        | none ↦ none
        | some rest ↦ some (tag, rest)
      ]
    ]
    else none

-- cut[: unclosed[0].start()]: up to the first tag that nothing behind it closes. A match is passed
-- over whole, `skip` characters of it are left.
unfoldable pub before_unclosed : ℕ → Text → Text
before_unclosed skip [] = []
before_unclosed (suc skip) (c ∷ s) = c ∷ before_unclosed skip s
before_unclosed zero (c ∷ s) = elim (opening_at c s) [
  | none ↦ c ∷ before_unclosed zero s
  | some (tag, rest) ↦
      let further = c ∷ before_unclosed (length s - length rest) s in
      if contains (codes "</" ++ (tag ++ codes ">")) rest then further else []
]

-- What is sent of a message that does not fit: the first `size` characters, back past what the cut
-- left open, and a marker.
unfoldable pub shortened : ℕ → Text → Text
shortened size message =
    before_unclosed 0 (without_open_entity (without_open_tag (take size message))) ++ 0x2026 ∷ []

unfoldable pub fit_message : List Text → Text
fit_message lines =
    let message = joined (fit_lines (length lines) lines) in
    if leb (length message) max_message_characters
    then message
    else shortened (max_message_characters - 1) message

abbrev pub message_lines : Text → List Text → Text → List Text
message_lines lead details closing =
    lead ∷ (if length details == 0 then [] else [] ∷ details)
    ++ (if length closing == 0 then [] else [] ∷ closing ∷ [])

-- The loop of `compose_message`, with `k` details at most left to drop.
unfoldable pub compose_from : ℕ → Text → List Text → Text → Text
compose_from zero lead details closing = fit_message (message_lines lead details closing)
compose_from (suc k) lead details closing =
    let lines = message_lines lead details closing in
    let fewer = compose_from k lead (without_last details) closing in
    if length details == 0 || leb (length (joined lines)) max_message_characters
    then fit_message lines
    else fewer

unfoldable pub compose_message : Text → List Text → Text → Text
compose_message lead details closing = compose_from (length details) lead details closing
