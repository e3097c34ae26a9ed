-- ===== src/Relay/Beszel/Render.antt =====
-- services/dozzle/alert_relay.py: `render_beszel`.
use nas_platform.Common.{
  ℕ, Bool, true, false, ◌&&◌, ◌||◌, Option, none, some, List, [], ◌∷◌, ◌++◌, leb, ◌==◌,
  if◌then◌else◌, length, take,
}
use nas_platform.Common.Text.{Text, codes, text_eq, is_digit}
use nas_platform.Common.Words.{contains, after_prefix, span, split_at, strip}
use nas_platform.Message.{
  html_escape, html_escape_to, max_message_characters, fit_message, compose_message,
}
use nas_platform.Relay.Clock.{DateTime, datetime_nanoseconds}
use nas_platform.Relay.Envelope.{Alert}
use nas_platform.Relay.Beszel.{
  Direction, above, below, Kind, status, threshold, unrecognised, Parsed, classify_beszel,
  beszel_link,
}
use nas_platform.Relay.Render.{
  Notification, color_green, color_red, lowest_priority, high_priority,
  max_title_container_characters, host_label, coloured, human_time, golem_fallback_line,
}

abbrev pub max_title_characters : ℕ
max_title_characters = 250

-- The groups of BESZEL_AVERAGE_BODY; `value` is the number with its unit.
pub record Average : Type 0 where
  pub descriptor : Text
  pub value : Text
  pub minutes : Text

abbrev is_end : Text → Bool
is_end s = text_eq s (codes " minute.") || text_eq s (codes " minutes.")

-- The number of minutes, where the text behind "for the previous" is one and the end of the pattern.
unfoldable pub minutes_at : Text → Option Text
unfolding span is_digit text_eq
minutes_at s =
    let (digits, rest) = span is_digit s in
    if leb 1 (length digits) && is_end rest then some digits else none

-- The unit, as long as it can be, and the minutes.
unfoldable pub unit_at : Text → Option (Text × Text)
unfolding after_prefix minutes_at
unit_at s = elim (after_prefix s (codes " for the previous ")) [
  | none ↦ none
  | some rest ↦ elim (minutes_at rest) [ none ↦ none | some minutes ↦ some ([], minutes) ]
]

unfoldable pub unit_from : Text → Option (Text × Text)
unfolding unit_at
unit_from [] = none
unit_from (c ∷ s) = elim (unit_from s) [
  | some (unit, minutes) ↦ some (c ∷ unit, minutes)
  | none ↦ unit_at (c ∷ s)
]

abbrev with_value : Text → Option (Text × Text) → Option Average
with_value value none = none
with_value value (some (unit, minutes)) =
    some (record { descriptor = []; value = value ++ unit; minutes = minutes })

-- What follows the whole part and its dot: two digits and the unit.
abbrev fraction_at : Text → Text → Option Average
fraction_at whole (a ∷ b ∷ s) =
    if is_digit a && is_digit b then with_value (whole ++ b'.' ∷ a ∷ b ∷ []) (unit_from s) else none
fraction_at whole _ = none

abbrev dot_at : Text → Text → Option Average
dot_at whole (c ∷ s) = if c == b'.' then fraction_at whole s else none
dot_at whole [] = none

abbrev digits_at : Text → Text → Option Average
digits_at sign s =
    let (whole, rest) = span is_digit s in
    if leb 1 (length whole) then dot_at (sign ++ whole) rest else none

-- The value, its unit and the minutes.
unfoldable pub value_at : Text → Option Average
unfolding span is_digit unit_from
value_at [] = none
value_at (c ∷ s) = if c == b'-' then digits_at (b'-' ∷ []) s else digits_at [] (c ∷ s)

-- The descriptor, as long as it can be, and what follows it.
unfoldable pub descriptor_from : Text → Option Average
unfolding after_prefix value_at
descriptor_from [] = none
descriptor_from (c ∷ s) = elim (descriptor_from s) [
  | some a ↦ some (record a { descriptor = c ∷ a.descriptor })
  | none ↦ elim (after_prefix s (codes " averaged ")) [
    | none ↦ none
    | some rest ↦ elim (value_at rest) [
      | none ↦ none
      | some a ↦ some (record a { descriptor = c ∷ [] })
    ]
  ]
]

-- BESZEL_AVERAGE_BODY.fullmatch, whose `.` matches no line feed
unfoldable pub average_body : Text → Option Average
unfolding contains descriptor_from
average_body body = if contains body (codes "\n") then none else descriptor_from body

abbrev average_emoji : Text → Text
average_emoji metric =
    if text_eq metric (codes "temperature") then codes "🌡" ++ 0xfe0f ∷ [] else codes "📈"

-- The line of the average, where the body has one.
unfoldable pub average_lines : Text → Text → List Text
unfolding average_body text_eq
average_lines metric body = elim (average_body body) [
  | none ↦ []
  | some a ↦
      (average_emoji metric
        ++ (codes " <b>Average</b> "
            ++ (html_escape a.value
                ++ (codes " over "
                    ++ (a.minutes
                        ++ (codes " "
                            ++ ((if text_eq a.minutes (codes "1")
                                  then codes "minute"
                                  else codes "minutes")
                                ++ (codes " · " ++ html_escape a.descriptor))))))))
      ∷ []
]

abbrev direction_text : Direction → Text
direction_text above = codes "above"
direction_text below = codes "below"

-- The title, the lead and the details between the host and the time.
abbrev status_shape : Bool → Text → Text → Text × Text
status_shape true name shown = (
  codes "🔴 " ++ (name ++ codes " unreachable"),
  codes "<b>" ++ (shown ++ (codes "</b> is " ++ coloured color_red (codes "unreachable"))),
)
status_shape false name shown = (
  codes "🟢 " ++ (name ++ codes " reachable again"),
  codes "<b>"
      ++ (shown
          ++ (codes "</b> is " ++ (coloured color_green (codes "reachable") ++ codes " again"))),
)

abbrev threshold_lead : Text → Text → Text → Text
threshold_lead shown metric state =
    codes "<b>"
    ++ (shown ++ (codes "</b> " ++ (metric ++ (codes " is " ++ (state ++ codes " its threshold")))))

abbrev threshold_shape : Bool → Text → Text → Text → Text → Text × Text
threshold_shape true name shown metric direction = (
  codes "🔴 "
      ++ (name ++ (codes " " ++ (metric ++ (codes " " ++ (direction ++ codes " threshold"))))),
  threshold_lead shown metric (coloured color_red direction),
)
threshold_shape false name shown metric direction = (
  codes "🟢 "
      ++ (name ++ (codes " " ++ (metric ++ (codes " back " ++ (direction ++ codes " threshold"))))),
  threshold_lead shown metric (coloured color_green (codes "back " ++ direction)),
)

abbrev beszel_priority : Bool → ℕ
beszel_priority problem = if problem then high_priority else lowest_priority

abbrev url_of : Option Text → Option (Text × Text)
url_of none = none
url_of (some link) = some (link, codes "Open in Beszel")

abbrev fallback_lines : Bool → List Text
fallback_lines fallback = if fallback then golem_fallback_line (codes "Alerts") ∷ [] else []

-- An alert whose title is not recognised: its body, or its title where the body is blank.
unfoldable pub unparsed_message : Alert → Text → Bool → Text
unfolding strip split_at golem_fallback_line
unparsed_message a body fallback =
    let text = if leb 1 (length (strip body)) then strip body else a.title in
    let lines =
      split_at b'\n' (html_escape_to max_message_characters max_message_characters text) in
    fit_message (if fallback then golem_fallback_line (codes "Alerts") ∷ [] ∷ lines else lines)

abbrev recognised_message : Text → Text → List Text → Bool → DateTime → Text
recognised_message lead shown lines fallback now =
    compose_message lead
      ((host_label ++ shown) ∷ lines
        ++ (fallback_lines fallback
            ++ (codes "🕒 <b>When</b> " ++ human_time (datetime_nanoseconds now)) ∷ []))
      []

-- The title and the message of each kind.
unfoldable pub beszel_text : Alert → Parsed → Kind → DateTime → Bool → Text × Text
unfolding unparsed_message coloured golem_fallback_line human_time average_lines
beszel_text a parsed unrecognised now fallback =
    (take max_title_characters a.title, unparsed_message a parsed.body fallback)
beszel_text a parsed (status system) now fallback =
    let shown = html_escape system in
    let (title, lead) =
      status_shape parsed.problem (take max_title_container_characters system) shown in
    (take max_title_characters title, recognised_message lead shown [] fallback now)
beszel_text a parsed (threshold system metric direction) now fallback =
    let shown = html_escape system in
    let (title, lead) =
      threshold_shape parsed.problem (take max_title_container_characters system) shown metric
        (direction_text direction) in
    (
      take max_title_characters title,
      recognised_message lead shown (average_lines metric parsed.body) fallback now,
    )

unfoldable pub render_beszel : Alert → Option Text → DateTime → Bool → Notification
unfolding classify_beszel beszel_text beszel_link
render_beszel a link_base now fallback =
    let parsed = classify_beszel a in
    let (title, message) = beszel_text a parsed parsed.kind now fallback in
    record {
      title = title;
      message = message;
      priority = beszel_priority parsed.problem;
      url = url_of (beszel_link parsed.link link_base);
      timestamp = none;
      emergency = none;
    }
