-- ===== src/Prune/Run.antt =====
-- scripts/image_prune.py: one run, `run_passes`, `render_notification` and `prune`. What Docker
-- answers, the clock and whether the state can be recorded are the surroundings of the run; the lock
-- and the log can be opened and written, and the lines on stderr are left out.
pub mod Told
pub mod Safe
use nas_platform.Common.{
  ℕ, ◌+◌, ◌*◌, Bool, true, false, not, ◌&&◌, ◌||◌, Option, none, some, List, [], ◌∷◌, ◌++◌, ltb,
  leb, ◌==◌, if◌then◌else◌, select,
}
use nas_platform.Common.Text.{Text, codes, decimal_text}
use nas_platform.Message.{html_escape, compose_message}
use nas_platform.Deploy.Attempts.{timestamp, instant_from, instant_of}
use nas_platform.Relay.Clock.{DateTime, fits_mask, field}
use nas_platform.Relay.Render.{color_green, color_red, coloured}
use nas_platform.Prune.Settings.{Config, prune_commands}
use nas_platform.Prune.Lock.{Attempts, Wait, acquired, refused, out_of_rounds, wait_for_lock}
use nas_platform.Prune.Report.{
  Floats, parse_reclaimed, count_removed, format_bytes, format_duration, count_lines,
}

-- How one command of Docker ends, with what it printed. A code below zero is that of a signal.
pub data Ran : Type 0 where
  timed_out : Ran
  unable : Ran
  exited : ℕ → Text → Ran
  killed : ℕ → Text → Ran

pub record Surroundings : Type 0 where
  pub lock : Attempts
  -- the answer to each command
  pub docker : List Text → Ran
  pub now : DateTime
  pub seconds : ℕ
  pub log_name : Text
  pub logs : List Text
  pub state_writable : Bool

-- The bytes and the images of the passes, or the PruneError.
pub data Passes : Type 0 where
  finished : ℕ → ℕ → Passes
  broke : Text → Text → Passes

abbrev pub label_error : Text → Text → Passes
label_error label what = broke label (label ++ codes " pass " ++ what)

abbrev pub add : ℕ → ℕ → Passes → Passes
add bytes images (finished b n) = finished (bytes + b) (images + n)
add bytes images (broke label reason) = broke label reason

-- The body of the loop of `run_passes`, before what follows it: the commands that were run from this
-- one on, and how the passes ended.
unfoldable pub after_pass :
    Floats → Text → List Text → List (List Text) × Passes → Ran → List (List Text) × Passes
unfolding decimal_text parse_reclaimed count_removed
after_pass floats label words rest timed_out = (words ∷ [], label_error label (codes "timed out"))
after_pass floats label words rest unable = (words ∷ [], label_error label (codes "could not run"))
after_pass floats label words rest (killed signal output) =
    (words ∷ [], label_error label (codes "exited -" ++ decimal_text signal))
after_pass floats label words (ran, passes) (exited code output) =
    if code == 0
    then (words ∷ ran, add (parse_reclaimed floats output) (count_removed output) passes)
    else (words ∷ [], label_error label (codes "exited " ++ decimal_text code))

module _ (floats : Floats) (s : Surroundings) where
  unfoldable pub run_passes : List (Text × List Text) → List (List Text) × Passes
  unfolding after_pass
  run_passes [] = ([], finished 0 0)
  run_passes ((label, words) ∷ more) =
      after_pass floats label words (run_passes more) (s.docker words)

-- What `record_state` writes. `reclaimed` and `nothing` share the constructor `done`.
pub data Record : Type 0 where
  skipped : Text → Record
  failed : Text → Text → Text → ℕ → Text → Record
  done : Text → ℕ → ℕ → Option ℕ → ℕ → Text → Record

-- The application, and the fields of a message; `priority` is Pushover's number plus 2.
pub record Notification : Type 0 where
  pub application : Text
  pub title : Text
  pub message : Text
  pub priority : ℕ
  pub ttl : Option ℕ

abbrev color_grey : Text
color_grey = codes "#9e9e9e"

abbrev reclaimed_ttl_seconds : ℕ
reclaimed_ttl_seconds = 7 * 24 * 60 * 60

-- _images
unfoldable pub images : ℕ → Text
unfolding decimal_text
images count =
    if count == 1
    then decimal_text count ++ codes " image"
    else decimal_text count ++ codes " images"

abbrev took_line : ℕ → Text
took_line seconds = codes "⏱" ++ (0xfe0f ∷ codes " <b>Took</b> ") ++ format_duration seconds

abbrev log_line : Text → Text
log_line log = codes "📄 <b>Log</b> " ++ coloured color_grey (html_escape log)

abbrev window_line : Config → Text
window_line config =
    codes "🗓"
    ++ (0xfe0f ∷ codes " <b>Window</b> ")
    ++ coloured color_grey (
        codes "unused older than "
        ++ (decimal_text config.retention_hours
            ++ (codes "h · dangling older than "
                ++ (decimal_text config.dangling_retention_hours ++ codes "h"))))

-- render_notification of a failure
unfoldable pub render_failed : Config → Text → Text → ℕ → Text → Notification
unfolding decimal_text format_duration coloured
render_failed config label reason seconds log = record {
  application = codes "alerts";
  title = codes "🔴 Image prune failed";
  message =
      compose_message (codes "<b>Image prune</b> " ++ coloured color_red (codes "failed"))
        ((codes "❓ <b>Reason</b> " ++ coloured color_red (html_escape reason))
          ∷ (codes "🧹 <b>Pass</b> " ++ html_escape label)
          ∷ took_line seconds
          ∷ log_line log
          ∷ window_line config
          ∷ [])
        (codes "<i>The next scheduled prune tries again.</i>");
  priority = 3;
  ttl = none;
}

abbrev remaining_lines : Option ℕ → List Text
remaining_lines none = []
remaining_lines (some n) = (codes "📚 <b>Remaining</b> " ++ images n) ∷ []

-- render_notification of a prune that reclaimed something
unfoldable pub render_reclaimed : Floats → Config → ℕ → ℕ → Option ℕ → ℕ → Text → Notification
unfolding decimal_text format_duration format_bytes coloured images
render_reclaimed floats config bytes count remaining seconds log = record {
  application = codes "containers";
  title = codes "🧹 Images pruned · " ++ format_bytes floats bytes;
  message =
      compose_message (codes "<b>Unused images</b> " ++ coloured color_green (codes "pruned"))
        ((codes "💾 <b>Reclaimed</b> " ++ coloured color_green (format_bytes floats bytes))
          ∷ (codes "🗑" ++ (0xfe0f ∷ codes " <b>Removed</b> ") ++ images count)
          ∷ (remaining_lines remaining
              ++ took_line seconds ∷ window_line config ∷ log_line log ∷ []))
        [];
  priority = 1;
  ttl = some reclaimed_ttl_seconds;
}

-- The stamp of a log, in microseconds; `none` is no log of a prune, or of no time.
unfoldable pub log_instant : Text → Option ℕ
unfolding fits_mask instant_from
log_instant name =
    if fits_mask (codes "99999999T999999Z-prune") name
    then instant_from (field 0 4 name) (field 4 2 name) (field 6 2 name) (field 9 2 name)
        (field 11 2 name) (field 13 2 name)
    else none

-- stamped < now - timedelta(days=log_retention_days)
unfoldable pub is_expired : Config → DateTime → Text → Bool
unfolding log_instant instant_of
is_expired config now name = elim (log_instant name) [
  | none ↦ false
  | some stamped ↦ ltb (stamped + config.log_retention_days * (86400 * 1000000)) (instant_of now)
]

-- rotate_logs: the logs that it deletes
unfoldable pub rotate_logs : Config → DateTime → List Text → List Text
unfolding is_expired select
rotate_logs config now names = select (is_expired config now) names

-- What one run did: the logs it deleted, the commands it gave to Docker, what it recorded, the
-- messages it tried to send, and how it ended.
pub data End : Type 0 where
  returned : Bool → End
  os_error : End

pub record Done : Type 0 where
  pub deleted : List Text
  pub ran : List (List Text)
  pub recorded : Option Record
  pub sent : List Notification
  pub end : End

abbrev pub nothing_done : Done
nothing_done = record { deleted = []; ran = []; recorded = none; sent = []; end = os_error }

-- The command of `count_images`.
abbrev pub inventory_command : Config → List Text
inventory_command config =
    config.docker_path
    ∷ codes "image"
    ∷ codes "ls"
    ∷ codes "--all"
    ∷ codes "--format"
    ∷ codes "{{.ID}}"
    ∷ []

-- The output of a command that ended with the code 0.
abbrev pub output_of : Ran → Option Text
output_of timed_out = none
output_of unable = none
output_of (killed signal output) = none
output_of (exited code output) = if code == 0 then some output else none

-- `record_state`, and what follows it where the file can be written.
abbrev pub recording : Surroundings → Record → List Notification → Bool → Done → Done
recording s r sent answer d =
    if s.state_writable
    then record d { recorded = some r; sent = sent; end = returned answer }
    else d

abbrev pub counted : Option Text → Option ℕ
counted none = none
counted (some output) = some (count_lines output)

abbrev pub is_something : ℕ → ℕ → Bool
is_something bytes count = not (bytes == 0) || not (count == 0)

-- What follows the passes.
unfoldable pub conclude : Floats → Config → Surroundings → Passes → Done → Done
unfolding render_failed render_reclaimed timestamp count_lines
conclude floats config s (broke label reason) d =
    recording s (failed (timestamp s.now) reason label s.seconds s.log_name)
      (render_failed config label reason s.seconds s.log_name ∷ []) false d
conclude floats config s (finished bytes count) d =
    let inventory = inventory_command config in
    let remaining = counted (output_of (s.docker inventory)) in
    recording s (done (timestamp s.now) bytes count remaining s.seconds s.log_name)
      (if is_something bytes count
        then render_reclaimed floats config bytes count remaining s.seconds s.log_name ∷ []
        else [])
      true (record d { ran = d.ran ++ inventory ∷ [] })

-- prune, behind the lock
unfoldable pub prune_locked : Floats → Config → Surroundings → Done
unfolding run_passes conclude rotate_logs prune_commands
prune_locked floats config s =
    let (ran, passes) = run_passes floats s (prune_commands config) in
    conclude floats config s passes
      (record nothing_done { deleted = rotate_logs config s.now s.logs; ran = ran })

-- What follows the wait for the lock.
unfoldable pub after_wait : Floats → Config → Surroundings → Wait → Done
unfolding prune_locked timestamp
after_wait floats config s (acquired n) = prune_locked floats config s
after_wait floats config s (refused n) =
    recording s (skipped (timestamp s.now)) [] true nothing_done
after_wait floats config s out_of_rounds = nothing_done

unfoldable pub prune : Floats → Config → Surroundings → Done
unfolding after_wait wait_for_lock
prune floats config s =
    after_wait floats config s (wait_for_lock s.lock config.deployment_lock_wait_seconds)
