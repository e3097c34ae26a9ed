-- ===== src/Relay/Beszel.antt =====
-- services/dozzle/alert_relay.py: what an alert of Beszel is. The titles and messages are those that
-- `validate_beszel_envelope` takes, so that a title holds no line feed, which `.` would not match.
pub mod Render
pub mod Process
use nas_platform.Common.{
  ℕ, ◌-◌, Bool, true, false, not, ◌&&◌, ◌||◌, Option, none, some, List, [], ◌∷◌, ◌++◌, leb, ltb,
  ◌==◌, if◌then◌else◌, length, take, drop, all,
}
use nas_platform.Common.Text.{Text, codes, text_eq, starts_with, ends_with, is_digit}
use nas_platform.Common.Words.{contains, after_prefix}
use nas_platform.Relay.Process.{golem_dozzle_host, golem_former_name}
use nas_platform.Relay.Envelope.{Alert}

-- s.rpartition(separator): the last occurrence parts the text
unfoldable pub rpartition : Text → Text → Option (Text × Text)
unfolding starts_with
rpartition separator [] = none
rpartition separator (c ∷ s) =
    let rest = rpartition separator s in
    elim rest [
      | some (before, after) ↦ some (c ∷ before, after)
      | none ↦
          if starts_with (c ∷ s) separator then some ([], drop (length separator) (c ∷ s)) else none
    ]

-- The body and the link of a message: the link is one line behind the last blank one.
unfoldable pub split_message : Text → Text × Text
unfolding rpartition contains
split_message message = elim (rpartition (codes "\n\n") message) [
  | none ↦ (message, [])
  | some (body, trailing) ↦
      if contains trailing (codes "\n") then (message, []) else (body, trailing)
]

-- (?P<x>.+) in front of a fixed end of the text
unfoldable pub before_end : Text → Text → Option Text
unfolding ends_with
before_end end s =
    if ends_with s end && ltb (length end) (length s)
    then some (take (length s - length end) s)
    else none

abbrev pub beszel_metrics : List Text
beszel_metrics =
    codes "CPU Steal Time"
    ∷ codes "CPU I/O Wait"
    ∷ codes "temperature"
    ∷ codes "disk usage"
    ∷ codes "bandwidth"
    ∷ codes "15m load"
    ∷ codes "battery"
    ∷ codes "5m load"
    ∷ codes "1m load"
    ∷ codes "memory"
    ∷ codes "CPU"
    ∷ codes "GPU"
    ∷ []

pub data Direction : Type 0 where
  above below : Direction

pub data Kind : Type 0 where
  status : Text → Kind
  threshold : Text → Text → Direction → Kind
  unrecognised : Kind

pub record Parsed : Type 0 where
  pub kind : Kind
  pub problem : Bool
  pub body : Text
  pub link : Text

-- BESZEL_STATUS_TITLE: the system, and whether it is down
unfoldable pub status_title : Text → Option (Text × Bool)
unfolding after_prefix before_end
status_title title = elim (after_prefix title (codes "Connection to ")) [
  | none ↦ none
  | some rest ↦ elim (before_end (codes " is down 🔴") rest) [
    | some system ↦ some (system, true)
    | none ↦ elim (before_end (codes " is up ✅") rest) [
      | some system ↦ some (system, false)
      | none ↦ none
    ]
  ]
]

-- BESZEL_THRESHOLD_TITLE
unfoldable pub threshold_title : Text → Option (Text × Direction)
unfolding before_end
threshold_title title = elim (before_end (codes " above threshold") title) [
  | some rest ↦ some (rest, above)
  | none ↦ elim (before_end (codes " below threshold") title) [
    | some rest ↦ some (rest, below)
    | none ↦ none
  ]
]

-- The system and the first metric that a text ends in.
unfoldable pub find_metric : List Text → Text → Option (Text × Text)
unfolding before_end
find_metric [] rest = none
find_metric (metric ∷ metrics) rest =
    let later = find_metric metrics rest in
    elim (before_end (0x20 ∷ metric) rest) [ some system ↦ some (system, metric) | none ↦ later ]

abbrev is_above : Direction → Bool
is_above above = true
is_above below = false

-- direction == "above", but for the battery, whose problem is the low side
unfoldable pub is_problem : Direction → Text → Bool
unfolding text_eq
is_problem direction metric =
    if text_eq metric (codes "battery") then not (is_above direction) else is_above direction

abbrev unrecognised_kind : Text → Kind × Bool
unrecognised_kind title = (unrecognised, not (ends_with title (codes "✅")))

abbrev threshold_kind : Text → Kind × Bool
threshold_kind title = elim (threshold_title title) [
  | none ↦ unrecognised_kind title
  | some (rest, direction) ↦ elim (find_metric beszel_metrics rest) [
    | none ↦ unrecognised_kind title
    | some (system, metric) ↦ (threshold system metric direction, is_problem direction metric)
  ]
]

-- The kind of a title, and whether it is a problem.
unfoldable pub title_kind : Text → Kind × Bool
unfolding status_title threshold_title find_metric is_problem ends_with
title_kind title = elim (status_title title) [
  | some (system, down) ↦ (status system, down)
  | none ↦ threshold_kind title
]

unfoldable pub classify_beszel : Alert → Parsed
unfolding title_kind split_message
classify_beszel a =
    let (kind, problem) = title_kind a.title in
    let (body, link) = split_message a.message in
    record { kind = kind; problem = problem; body = body; link = link }

abbrev is_boundary : Text → Bool
is_boundary [] = true
is_boundary (c ∷ s) = c == b':' || c == 0x20

abbrev begins_with_name : Text → Text → Bool
begins_with_name s name = elim (after_prefix s name) [ none ↦ false | some rest ↦ is_boundary rest ]

abbrev begins_with_golem : Text → Bool
begins_with_golem s = begins_with_name s golem_dozzle_host || begins_with_name s golem_former_name

unfoldable pub on_golem : Text → Bool
unfolding after_prefix
on_golem [] = false
on_golem (c ∷ s) =
    (elim (after_prefix (c ∷ s) (codes " on ")) [
      | none ↦ false
      | some rest ↦ begins_with_golem rest
    ])
    || on_golem s

-- GOLEM_IN_UNPARSED_TITLE.search
unfoldable pub golem_in_unparsed_title : Text → Bool
unfolding after_prefix on_golem
golem_in_unparsed_title title = begins_with_golem title || on_golem title

abbrev is_golem_system : Text → Bool
is_golem_system system = text_eq system golem_dozzle_host || text_eq system golem_former_name

abbrev kind_is_golem : Text → Kind → Bool
kind_is_golem title (status system) = is_golem_system system
kind_is_golem title (threshold system metric direction) = is_golem_system system
kind_is_golem title unrecognised = golem_in_unparsed_title title

unfoldable pub beszel_is_golem : Alert → Bool
unfolding classify_beszel text_eq golem_in_unparsed_title
beszel_is_golem a = kind_is_golem a.title (classify_beszel a).kind

abbrev is_alphanumeric : ℕ → Bool
is_alphanumeric c = is_digit c || leb b'A' c && leb c b'Z' || leb b'a' c && leb c b'z'

-- BESZEL_SYSTEM_ID_PATTERN.fullmatch
unfoldable pub is_system_id : Text → Bool
unfolding is_digit all
is_system_id s = leb 1 (length s) && leb (length s) 64 && all is_alphanumeric s

unfoldable pub beszel_link : Text → Option Text → Option Text
unfolding after_prefix is_system_id
beszel_link link none = none
beszel_link link (some base) = elim (after_prefix link (base ++ codes "/system/")) [
  | none ↦ none
  | some id ↦ if is_system_id id then some link else none
]
