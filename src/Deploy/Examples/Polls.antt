-- ===== src/Deploy/Examples/Polls.antt =====
-- scripts/production_auto_deploy.py: the record of attempts, the notices and a poll on concrete files.
use nas_platform.Common.{
  ◌≤◌, ◌≡◌, ◌≢◌, ◌-◌, ◌&&◌, not, refl, Bool, true, false, Option, none, some, List, [], ◌∷◌, ◌++◌,
  arith, length, any, drop, if◌then◌else◌,
}
use nas_platform.Common.Text.{Text, codes, text_eq, is_digit, decimal}
use nas_platform.Relay.Clock.{DateTime, fits_mask, is_calendar}
use nas_platform.Deploy.Ci.{is_sha, member, gates, next_candidates, candidates_from}
use nas_platform.Deploy.Attempts.{
  Attempt, read_attempts, attempts_text, attempted_shas, record_attempt, forget_attempt,
  attempted_retention_count,
}
use nas_platform.Deploy.Attempts.Stamp.{IsReading}
use nas_platform.Deploy.Attempts.Format.{read_attempts-attempts_text}
use nas_platform.Deploy.Attempts.Record.{
  record_attempt-attempted_shas, forget_attempt-attempted_shas,
}
use nas_platform.Deploy.Notices.{Files, may_retry_after_transient_failure}
use nas_platform.Deploy.Notices.Forgiveness.{all_forgiven, all_forgiven-le}
use nas_platform.Deploy.Notices.Blindness.{blind_stretch, blind_stretch-once}
use nas_platform.Deploy.Poll.{deployed, Surroundings, attempted, pruned, poll}
use nas_platform.Deploy.Poll.Attempted.{IsAccounted, IsAnswer, IsChosen, poll-IsAccounted}
use nas_platform.Deploy.Examples.{newest, second, third, last, settings, page, no_web}

abbrev noon : DateTime
noon = record {
  year = 2026;
  month = 9;
  day = 14;
  hour = 12;
  minute = 0;
  second = 0;
  microsecond = 5;
}

noon-IsReading : IsReading noon
unfolding is_calendar
noon-IsReading = record { on_calendar = refl; four = omega arith; micro = omega arith }

abbrev two_attempts : List Attempt
two_attempts = (last, none) ∷ (second, some (codes "2026-09-01T10:00:00Z")) ∷ []

read_attempts-attempts_text_example :
    read_attempts (some (attempts_text two_attempts)) ≡ two_attempts
unfolding is_sha fits_mask member is_digit text_eq
read_attempts-attempts_text_example =
    read_attempts-attempts_text two_attempts (refl, ((refl, refl), tt)) (refl, (refl, tt))

abbrev record_file : Option Text
record_file = some (codes "junk\n")

record_attempt-attempted_shas_example :
    (member third (attempted_shas (some (record_attempt record_file third noon))) ≡ true)
    × (length (read_attempts (some (record_attempt record_file third noon)))
        ≤ attempted_retention_count)
unfolding is_sha is_digit
record_attempt-attempted_shas_example =
    record_attempt-attempted_shas record_file third noon refl noon-IsReading

forget_attempt-attempted_shas_example :
    (member third (attempted_shas (some (forget_attempt record_file third))) ≡ false)
    × ((k : Text)
        → k ≢ third
        → member k (attempted_shas (some (forget_attempt record_file third)))
          ≡ member k (attempted_shas record_file))
forget_attempt-attempted_shas_example = forget_attempt-attempted_shas record_file third

abbrev fresh_files : Files
fresh_files = record {
  attempted = none;
  last_successful = some last;
  transient = none;
  blind_polls = 0;
  blind_alarm = false;
  ci_refusal = [];
}

abbrev three_failures : List (Bool × Bool)
three_failures = (true, true) ∷ (true, true) ∷ (true, false) ∷ []

forgiven : all_forgiven third three_failures fresh_files ≡ true
unfolding may_retry_after_transient_failure text_eq
forgiven = refl

all_forgiven-le_example : length three_failures ≤ 3
all_forgiven-le_example = all_forgiven-le third three_failures fresh_files forgiven

abbrev blind_polls : List Bool
blind_polls = true ∷ true ∷ false ∷ true ∷ true ∷ []

blind_stretch-once_example : length (blind_stretch blind_polls fresh_files).0 ≡ (
    if not fresh_files.blind_alarm && any (λ p. p) (drop (2 - fresh_files.blind_polls) blind_polls)
    then 1
    else 0)
blind_stretch-once_example = blind_stretch-once blind_polls fresh_files

abbrev morning_run : Surroundings
morning_run = record {
  config = settings;
  is_web = no_web;
  is_ancestor = λ a b. some true;
  acquired = true;
  now = noon;
  attempted_at = noon;
  view = some (record { head = newest; runs = page });
  deployment = λ sha. deployed;
  counter_writable = true;
  counter_removable = true;
  publishes = true;
}

abbrev after_morning : Files
after_morning = record fresh_files {
  attempted = some (third ++ (codes " 2026-09-14T12:00:00Z\n"));
  last_successful = some third;
}

morning_poll : poll morning_run none fresh_files ≡ (attempted third true, [], after_morning)
unfolding poll is_digit decimal candidates_from next_candidates gates text_eq
morning_poll = refl

poll-IsAccounted_example :
    IsAccounted deployed third after_morning
    × IsAnswer deployed third true after_morning
    × IsChosen morning_run third none (pruned morning_run fresh_files)
unfolding is_sha is_digit
poll-IsAccounted_example =
    poll-IsAccounted morning_run third none fresh_files true [] after_morning refl noon-IsReading
      morning_poll
