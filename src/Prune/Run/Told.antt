-- ===== src/Prune/Run/Told.antt =====
-- scripts/image_prune.py: what a run records and sends is what Docker answered.
use nas_platform.Common.{
  ℕ, ◌+◌, ◌≡◌, ◌∙◌, refl, ap, inl, inr, true, false, Option, none, some, List, [], ◌∷◌, ◌++◌, zero,
  suc, ◌==◌, if◌then◌else◌, arith, map, Bool-cases, ==→eq,
}
use nas_platform.Common.Text.{Text, codes, decimal_text}
use nas_platform.Common.Sort.{All}
use mathlib.Core.Path.{subst}
use nas_platform.Deploy.Attempts.{timestamp}
use nas_platform.Prune.Settings.{Config, prune_commands}
use nas_platform.Prune.Lock.{Wait, acquired, refused, out_of_rounds, wait_for_lock}
use nas_platform.Prune.Report.{Floats, parse_reclaimed, count_removed}
use nas_platform.Prune.Run.{
  Ran, timed_out, unable, exited, killed, Surroundings, Passes, finished, broke, add, after_pass,
  run_passes, Record, skipped, failed, done, returned, os_error, Done, Notification, is_something,
  render_failed, render_reclaimed, counted, output_of, inventory_command, conclude, prune_locked,
  after_wait, prune,
}

-- What a pass that did not end with the code 0 is reported as.
abbrev pub failure_of : Ran → Text
failure_of timed_out = codes "timed out"
failure_of unable = codes "could not run"
failure_of (killed signal output) = codes "exited -" ++ decimal_text signal
failure_of (exited code output) = codes "exited " ++ decimal_text code

module _ (floats : Floats) where
  abbrev pub bytes_of : Ran → ℕ
  bytes_of ran = elim (output_of ran) [ none ↦ 0 | some output ↦ parse_reclaimed floats output ]

  -- What the reports of the commands add up to.
  abbrev pub total_bytes : (List Text → Ran) → List (List Text) → ℕ
  total_bytes docker [] = 0
  total_bytes docker (words ∷ more) = bytes_of (docker words) + total_bytes docker more

abbrev pub images_of : Ran → ℕ
images_of ran = elim (output_of ran) [ none ↦ 0 | some output ↦ count_removed output ]

abbrev pub total_images : (List Text → Ran) → List (List Text) → ℕ
total_images docker [] = 0
total_images docker (words ∷ more) = images_of (docker words) + total_images docker more

abbrev pub Succeeds : Ran → Type 0
Succeeds ran = (output : Text) × (output_of ran ≡ some output)

abbrev pub words_of : List (Text × List Text) → List (List Text)
words_of commands = map (λ p. p.1) commands

-- The commands that were run, where the pass of a label was the first that did not succeed, for a
-- reason.
abbrev pub IsBroken :
    (List Text → Ran) → List (Text × List Text) → List (List Text) → Text → Text → Type 0
IsBroken docker commands ran label reason =
    (before : List (Text × List Text)) × (words : List Text) × (after : List (Text × List Text))
    × (commands ≡ before ++ (label, words) ∷ after)
    × (ran ≡ words_of before ++ words ∷ [])
    × All (λ p. Succeeds (docker (p.1))) before
    × (output_of (docker words) ≡ none)
    × (reason ≡ label ++ codes " pass " ++ failure_of (docker words))

-- The commands that were run, and how the passes ended.
abbrev pub IsPasses :
    Floats → (List Text → Ran) → List (Text × List Text) → List (List Text) → Passes → Type 0
IsPasses floats docker commands ran (finished bytes images) =
    (ran ≡ words_of commands)
    × All (λ words. Succeeds (docker words)) ran
    × (bytes ≡ total_bytes floats docker ran)
    × (images ≡ total_images docker ran)
IsPasses floats docker commands ran (broke label reason) = IsBroken docker commands ran label reason

module _ (floats : Floats) (s : Surroundings) (label : Text) (words : List Text) where
  add-IsPasses :
      (output : Text) (commands : List (Text × List Text)) (ran : List (List Text))
      (passes : Passes)
      → s.docker words ≡ exited 0 output
      → IsPasses floats s.docker commands ran passes
      → IsPasses floats s.docker
          ((label, words) ∷ commands)
          (words ∷ ran)
          (add (parse_reclaimed floats output) (count_removed output) passes)
  add-IsPasses output commands ran (finished bytes images) e (same, good, b, n) =
      (ap (λ r. words ∷ r) same, (rw e (output, refl), good), rw (e, b), rw (e, n))
  add-IsPasses output commands ran (broke l reason) e (before, w, after, c, r, good, bad, why) = (
    (label, words) ∷ before,
    w,
    after,
    ap (λ r. (label, words) ∷ r) c,
    ap (λ r. words ∷ r) r,
    (rw e (output, refl), good),
    bad,
    why,
  )

  failed-IsBroken :
      (commands : List (Text × List Text))
      → output_of (s.docker words) ≡ none
      → IsBroken s.docker
          ((label, words) ∷ commands)
          (words ∷ [])
          label
          (label ++ codes " pass " ++ failure_of (s.docker words))
  failed-IsBroken commands bad = ([], words, commands, refl, refl, tt, bad, refl)

  told_by :
      (commands : List (Text × List Text)) (r : Ran)
      → s.docker words ≡ r
      → output_of r ≡ none
      → IsBroken s.docker
          ((label, words) ∷ commands)
          (words ∷ [])
          label
          (label ++ codes " pass " ++ failure_of r)
  told_by commands r e bad =
      subst
        (λ x.
          IsBroken s.docker ((label, words) ∷ commands) (words ∷ []) label
            (label ++ codes " pass " ++ failure_of x))
        e (failed-IsBroken commands (ap output_of e ∙ bad))

  after_pass-IsPasses :
      (commands : List (Text × List Text)) (rest : List (List Text) × Passes) (r : Ran)
      → s.docker words ≡ r
      → IsPasses floats s.docker commands (rest.0) (rest.1)
      → IsPasses floats s.docker
          ((label, words) ∷ commands)
          (after_pass floats label words rest r).0
          (after_pass floats label words rest r).1
  unfolding after_pass
  after_pass-IsPasses commands rest timed_out e h = told_by commands timed_out e refl
  after_pass-IsPasses commands rest unable e h = told_by commands unable e refl
  after_pass-IsPasses commands rest (killed signal output) e h =
      told_by commands (killed signal output) e refl
  after_pass-IsPasses commands (ran, passes) (exited code output) e h =
      elim (Bool-cases (code == 0)) [
        | inl good ↦ rw good (
            add-IsPasses output commands ran passes
              (e ∙ ap (λ n. exited n output) (==→eq code 0 good)) h)
        | inr bad ↦ rw bad (told_by commands (exited code output) e (rw bad))
      ]

module _ (floats : Floats) (s : Surroundings) where
  pub run_passes-IsPasses :
      (commands : List (Text × List Text))
      → IsPasses floats s.docker commands
          (run_passes floats s commands).0
          (run_passes floats s commands).1
  unfolding run_passes
  run_passes-IsPasses [] = (refl, tt, refl, refl)
  run_passes-IsPasses ((label, words) ∷ more) =
      after_pass-IsPasses floats s label words more (run_passes floats s more) (s.docker words) refl
        (run_passes-IsPasses more)

-- The messages of a run whose passes went well: that of what was reclaimed, or none.
abbrev pub messages_of : Floats → Config → ℕ → ℕ → Option ℕ → ℕ → Text → List Notification
messages_of floats config zero zero remaining seconds log = []
messages_of floats config bytes images remaining seconds log =
    render_reclaimed floats config bytes images remaining seconds log ∷ []

-- What is recorded of the time and of the log.
abbrev pub IsStamped : Surroundings → Text → ℕ → Text → Type 0
IsStamped s ended seconds log =
    (ended ≡ timestamp s.now) × (seconds ≡ s.seconds) × (log ≡ s.log_name)

-- What is recorded and sent is what happened.
abbrev pub IsTold : Floats → Config → Surroundings → Done → Option Record → Type 0
IsTold floats config s d none = (d.sent ≡ []) × (d.end ≡ os_error)
IsTold floats config s d (some (skipped ended)) =
    (d.ran ≡ [])
    × (ended ≡ timestamp s.now)
    × (d.sent ≡ [])
    × (d.end ≡ returned true)
    × ((n : ℕ) × (wait_for_lock s.lock config.deployment_lock_wait_seconds ≡ refused n))
IsTold floats config s d (some (failed ended reason label seconds log)) =
    IsPasses floats s.docker (prune_commands config) d.ran (broke label reason)
    × (d.sent ≡ render_failed config label reason seconds log ∷ [])
    × (d.end ≡ returned false)
    × IsStamped s ended seconds log
IsTold floats config s d (some (done ended bytes images remaining seconds log)) =
    ((passed : List (List Text)) × (d.ran ≡ passed ++ inventory_command config ∷ [])
      × IsPasses floats s.docker (prune_commands config) passed (finished bytes images))
    × (d.sent ≡ messages_of floats config bytes images remaining seconds log)
    × (d.end ≡ returned true)
    × (remaining ≡ counted (output_of (s.docker (inventory_command config))))
    × IsStamped s ended seconds log

module _ (floats : Floats) (config : Config) (s : Surroundings) where
  messages :
      (bytes images : ℕ) (remaining : Option ℕ) (seconds : ℕ) (log : Text)
      → (if is_something bytes images
          then render_reclaimed floats config bytes images remaining seconds log ∷ []
          else [])
        ≡ messages_of floats config bytes images remaining seconds log
  messages zero zero remaining seconds log = refl
  messages zero (suc n) remaining seconds log = ground arith
  messages (suc b) images remaining seconds log = ground arith

  conclude-IsTold :
      (passes : Passes) (d : Done)
      → d.recorded ≡ none
      → (d.sent ≡ []) × (d.end ≡ os_error)
      → IsPasses floats s.docker (prune_commands config) d.ran passes
      → IsTold floats config s
          (conclude floats config s passes d)
          (conclude floats config s passes d).recorded
  unfolding conclude
  conclude-IsTold (broke label reason) d r quiet h = elim (Bool-cases s.state_writable) [
    | inl works ↦ rw works (h, refl, refl, (refl, refl, refl))
    | inr full ↦ rw full (rw r quiet)
  ]
  conclude-IsTold (finished bytes images) d r quiet h = elim (Bool-cases s.state_writable) [
    | inl works ↦ rw works (
      (d.ran, refl, h),
      messages bytes images _ s.seconds s.log_name,
      refl,
      refl,
      (refl, refl, refl),
    )
    | inr full ↦ rw full (rw r quiet)
  ]

  prune_locked-IsTold :
      IsTold floats config s (prune_locked floats config s) (prune_locked floats config s).recorded
  unfolding prune_locked
  prune_locked-IsTold =
      conclude-IsTold (run_passes floats s (prune_commands config)).1 _ refl (refl, refl)
        (run_passes-IsPasses floats s (prune_commands config))

  after_wait-IsTold :
      (w : Wait)
      → wait_for_lock s.lock config.deployment_lock_wait_seconds ≡ w
      → IsTold floats config s
          (after_wait floats config s w)
          (after_wait floats config s w).recorded
  unfolding after_wait
  after_wait-IsTold (acquired n) e = prune_locked-IsTold
  after_wait-IsTold (refused n) e = elim (Bool-cases s.state_writable) [
    | inl works ↦ rw works (refl, refl, refl, refl, (n, e))
    | inr full ↦ rw full (refl, refl)
  ]
  after_wait-IsTold out_of_rounds e = (refl, refl)

  -- What a run records is what happened. A skipped run waited for the
  -- lock in vain and gave Docker no command. A failed one gave it
  -- the commands up to the first that did not end with the code 0, records its label and how it
  -- ended, sent the page of a failure and returns False. Any other gave it every command, all of
  -- which ended with the code 0, and then the listing of the images; it records the sums of the
  -- reports and the number of images that were listed, sends the message of what was reclaimed and
  -- nothing where that is nothing, and returns True. Each record has the clock, and but for a skipped
  -- run the seconds and the name of the log. Without a record nothing is sent and an OSError is
  -- raised.
  pub prune-IsTold : IsTold floats config s (prune floats config s) (prune floats config s).recorded
  unfolding prune
  prune-IsTold = after_wait-IsTold (wait_for_lock s.lock config.deployment_lock_wait_seconds) refl
