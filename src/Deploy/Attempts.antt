-- ===== src/Deploy/Attempts.antt =====
-- scripts/production_auto_deploy.py: the attempted record, a file of the state root.
pub mod Stamp
pub mod Format
pub mod Record
use nas_platform.Common.{
  ℕ, ◌+◌, ◌-◌, ◌*◌, ◌/◌, ◌%◌, Bool, true, false, not, Option, none, some, List, [], ◌∷◌, ◌++◌, map,
  leb, if◌then◌else◌, length, drop, select,
}
use nas_platform.Common.Text.{Text, codes, text_eq}
use nas_platform.Common.Words.{split_lines, split_words}
use nas_platform.Relay.Clock.{DateTime, fits_mask, field, is_calendar, ordinal, whole_seconds}
use nas_platform.Deploy.Ci.{is_sha, member}

-- A revision with the time of its attempt; `none` for a bare SHA of an older poller.
abbrev pub Attempt : Type 0
Attempt = Text × Option Text

abbrev pub attempted_retention_count : ℕ
attempted_retention_count = 50

-- ATTEMPTED_RETENTION_DAYS in microseconds
abbrev pub attempted_retention : ℕ
attempted_retention = 90 * 86400 * 1000000

abbrev pub stamp_mask : Text
stamp_mask = codes "9999-99-99T99:99:99Z"

abbrev pub read_stamp : List Text → Option Text
read_stamp [] = none
read_stamp (part ∷ more) = if fits_mask stamp_mask part then some part else none

-- The parts of one line: `none` where it is skipped.
unfoldable pub entry_of : List Text → Option Attempt
unfolding is_sha fits_mask
entry_of [] = none
entry_of (sha ∷ more) = if is_sha sha then some (sha, read_stamp more) else none

unfoldable pub read_line : Text → Option Attempt
unfolding split_words entry_of
read_line line = entry_of (split_words line)

-- The loop of `_read_attempts`, with the revisions it has seen.
unfoldable pub read_lines : List Text → List Text → List Attempt
unfolding read_line member
read_lines seen [] = []
read_lines seen (line ∷ lines) = elim (read_line line) [
  | none ↦ read_lines seen lines
  | some (sha, stamp) ↦
      if member sha seen
      then read_lines seen lines
      else (sha, stamp) ∷ read_lines (sha ∷ seen) lines
]

-- `_read_attempts`: the file is `none` where it cannot be read as ASCII.
unfoldable pub read_attempts : Option Text → List Attempt
unfolding read_lines split_lines
read_attempts none = []
read_attempts (some payload) = read_lines [] (split_lines payload)

-- The `datetime` of six fields in microseconds since the first instant of the year 1, `none` where
-- the calendar has none.
unfoldable pub instant_from : ℕ → ℕ → ℕ → ℕ → ℕ → ℕ → Option ℕ
unfolding is_calendar ordinal
instant_from y mo d h mi s =
    if is_calendar y mo d h mi s
    then some (whole_seconds (ordinal y mo d) h mi s * 1000000)
    else none

-- datetime.strptime(stamp, "%Y-%m-%dT%H:%M:%SZ") of a stamp that fits the pattern
unfoldable pub stamp_instant : Text → Option ℕ
unfolding field instant_from
stamp_instant s =
    instant_from (field 0 4 s) (field 5 2 s) (field 8 2 s) (field 11 2 s) (field 14 2 s)
      (field 17 2 s)

-- The clock reading in microseconds.
unfoldable pub instant_of : DateTime → ℕ
unfolding ordinal
instant_of t =
    whole_seconds (ordinal t.year t.month t.day) t.hour t.minute t.second * 1000000 + t.microsecond

-- stamped >= now - timedelta(days=90)
unfoldable pub is_recent : DateTime → Option Text → Bool
unfolding stamp_instant instant_of
is_recent now none = false
is_recent now (some stamp) = elim (stamp_instant stamp) [
  | none ↦ false
  | some stamped ↦ leb (instant_of now) (stamped + attempted_retention)
]

-- _prune_attempts
unfoldable pub kept_attempts : DateTime → List Attempt → List Attempt
unfolding is_recent select
kept_attempts now attempts =
    select (λ a. is_recent now a.1) (drop (length attempts - attempted_retention_count) attempts)

abbrev pub attempt_line : Attempt → Text
attempt_line (sha, none) = sha
attempt_line (sha, some stamp) = sha ++ 0x20 ∷ stamp

-- The payload of `_store_attempts`.
unfoldable pub attempts_text : List Attempt → Text
attempts_text [] = []
attempts_text (a ∷ more) = attempt_line a ++ 0x0a ∷ attempts_text more

-- The decimal digits of a number below a hundred, and of one below ten thousand.
abbrev pub two_digits : ℕ → Text
two_digits n = (b'0' + n / 10 % 10) ∷ (b'0' + n % 10) ∷ []

abbrev pub four_digits : ℕ → Text
four_digits n =
    (b'0' + n / 1000 % 10) ∷ (b'0' + n / 100 % 10) ∷ (b'0' + n / 10 % 10) ∷ (b'0' + n % 10) ∷ []

-- _timestamp, for a year of four digits
unfoldable pub timestamp : DateTime → Text
timestamp t =
    four_digits t.year
    ++ (b'-'
        ∷ (two_digits t.month
            ++ (b'-'
                ∷ (two_digits t.day
                    ++ (b'T'
                        ∷ (two_digits t.hour
                            ++ (b':'
                                ∷ (two_digits t.minute
                                    ++ (b':' ∷ (two_digits t.second ++ (b'Z' ∷ [])))))))))))

unfoldable pub attempted_shas : Option Text → List Text
unfolding read_attempts
attempted_shas file = map (λ a. a.0) (read_attempts file)

abbrev pub others : Text → List Attempt → List Attempt
others sha attempts = select (λ a. not (text_eq a.0 sha)) attempts

-- record_attempt: the text that the file has then
unfoldable pub record_attempt : Option Text → Text → DateTime → Text
unfolding read_attempts kept_attempts attempts_text timestamp select
record_attempt file sha now =
    attempts_text
      (kept_attempts now (others sha (read_attempts file) ++ (sha, some (timestamp now)) ∷ []))

unfoldable pub forget_attempt : Option Text → Text → Text
unfolding read_attempts attempts_text select
forget_attempt file sha = attempts_text (others sha (read_attempts file))

-- prune_attempts: `none` where nothing was removed and the file is left alone. What is kept is a part
-- of what was read, so the two differ exactly where it is shorter.
unfoldable pub prune_attempts : Option Text → DateTime → Option Text
unfolding read_attempts kept_attempts attempts_text
prune_attempts file now =
    let attempts = read_attempts file in
    let kept = kept_attempts now attempts in
    if leb (length attempts) (length kept) then none else some (attempts_text kept)
