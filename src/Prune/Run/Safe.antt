-- ===== src/Prune/Run/Safe.antt =====
-- scripts/image_prune.py: which commands a run gives to Docker, and when.
use nas_platform.Common.{
  ℕ, ◌≡◌, refl, sym, ◌⊎◌, ◌++◌, inl, inr, Bool, true, false, Option, some, List, [], ◌∷◌, ◌==◌,
  arith, Bool-cases,
}
use mathlib.Core.Path.{subst}
use nas_platform.Common.Text.{Text}
use nas_platform.Common.Value.{Value}
use nas_platform.Common.Sort.{All}
use nas_platform.Prune.Settings.{Config, load_config, prune_commands}
use nas_platform.Prune.Settings.Valid.{
  load_config-IsConfig, IsPruneCommand, prune_commands-IsPruneCommand,
}
use nas_platform.Prune.Lock.{
  Wait, acquired, refused, out_of_rounds, Advances, IsEnd, wait_for_lock, wait_for_lock-IsEnd,
}
use nas_platform.Prune.Report.{Floats}
use nas_platform.Prune.Run.{
  Ran, timed_out, unable, exited, killed, Surroundings, Passes, finished, broke, after_pass,
  run_passes, Record, Done, Notification, nothing_done, recording, conclude, prune_locked,
  after_wait, prune, inventory_command, rotate_logs,
}

module _ (floats : Floats) (P : List Text → Type 0) where
  after_pass-All :
      (label : Text) (words : List Text) (rest : List (List Text) × Passes) (r : Ran)
      → P words
      → All P (rest.0)
      → All P ((after_pass floats label words rest r).0)
  unfolding after_pass
  after_pass-All label words rest timed_out p h = (p, tt)
  after_pass-All label words rest unable p h = (p, tt)
  after_pass-All label words rest (killed signal output) p h = (p, tt)
  after_pass-All label words (ran, passes) (exited code output) p h =
      elim (Bool-cases (code == 0)) [ inl good ↦ rw good (p, h) | inr bad ↦ rw bad (p, tt) ]

  run_passes-All :
      (s : Surroundings) (commands : List (Text × List Text))
      → All (λ c. P (c.1)) commands
      → All P ((run_passes floats s commands).0)
  unfolding run_passes
  run_passes-All s [] h = tt
  run_passes-All s ((label, words) ∷ more) h =
      after_pass-All label words (run_passes floats s more) (s.docker words) h.0
        (run_passes-All s more h.1)

module _ (floats : Floats) (config : Config) (s : Surroundings) where
  ran-recording :
      (r : Record) (sent : List Notification) (answer : Bool) (d : Done)
      → (recording s r sent answer d).ran ≡ d.ran
  ran-recording r sent answer d = ground arith

  All-append_one :
      (P : List Text → Type 0) (xs : List (List Text)) (x : List Text)
      → All P xs
      → P x
      → All P (xs ++ x ∷ [])
  All-append_one P [] x h p = (p, tt)
  All-append_one P (y ∷ xs) x h p = (h.0, All-append_one P xs x h.1 p)

  conclude-All :
      (P : List Text → Type 0) (passes : Passes) (d : Done)
      → P (inventory_command config)
      → All P d.ran
      → All P (conclude floats config s passes d).ran
  unfolding conclude
  conclude-All P (finished bytes images) d p h =
      subst (All P)
        (sym (ran-recording _ _ true (record d { ran = d.ran ++ inventory_command config ∷ [] })))
        (All-append_one P d.ran (inventory_command config) h p)
  conclude-All P (broke label reason) d p h = subst (All P) (sym (ran-recording _ _ false d)) h

-- A command that prunes images only, or the one that lists them.
abbrev pub IsHarmless : Config → List Text → Type 0
IsHarmless config words = IsPruneCommand words ⊎ (words ≡ inventory_command config)

-- The lock is got by the first attempt that can, before the commands that are run; each of these
-- prunes images only, or lists them.
abbrev pub IsSafe : Config → Surroundings → List (List Text) → Type 0
IsSafe config s [] = Unit
IsSafe config s (words ∷ more) =
    ((n : ℕ) × (s.lock.locks n ≡ true)) × All (IsHarmless config) (words ∷ more)

harmless :
    (config : Config) (commands : List (Text × List Text))
    → All (λ c. IsPruneCommand (c.1)) commands
    → All (λ c. IsHarmless config (c.1)) commands
harmless config [] h = tt
harmless config (c ∷ more) h = (inl h.0, harmless config more h.1)

module _ (loaded : Option Value) (floats : Floats) (config : Config) (s : Surroundings) where
  IsSafe-intro :
      (ran : List (List Text))
      → ((n : ℕ) × (s.lock.locks n ≡ true))
      → All (IsHarmless config) ran
      → IsSafe config s ran
  IsSafe-intro [] got h = tt
  IsSafe-intro (words ∷ more) got h = (got, h)

  after_wait-IsSafe :
      (w : Wait)
      → IsEnd s.lock config.deployment_lock_wait_seconds w
      → All (λ c. IsPruneCommand (c.1)) (prune_commands config)
      → IsSafe config s (after_wait floats config s w).ran
  unfolding after_wait prune_locked
  after_wait-IsSafe (acquired n) got h =
      let (ran, passes) = run_passes floats s (prune_commands config) in
      IsSafe-intro _ (n, got.0)
        (conclude-All floats config s (IsHarmless config) passes
          (record nothing_done { deleted = rotate_logs config s.now s.logs; ran = ran }) (inr refl)
          (run_passes-All floats (IsHarmless config) s (prune_commands config)
            (harmless config (prune_commands config) h)))
  after_wait-IsSafe (refused n) late h =
      subst (IsSafe config s) (sym (ran-recording floats config s _ [] true nothing_done)) tt
  after_wait-IsSafe out_of_rounds never h = tt

  -- With any configuration that is taken, whatever Docker answers, a run gives Docker commands only
  -- after it got the deployment lock, and only ones that prune images, with --all those that are at
  -- least 24 hours old, else the untagged ones that are at least one hour old, and the one that lists
  -- the ids of the images. The clock of the wait advances.
  pub prune-IsSafe :
      load_config loaded ≡ some config
      → Advances s.lock config.deployment_lock_wait_seconds
      → IsSafe config s (prune floats config s).ran
  unfolding prune
  prune-IsSafe taken ticks =
      after_wait-IsSafe (wait_for_lock s.lock config.deployment_lock_wait_seconds)
        (wait_for_lock-IsEnd s.lock config.deployment_lock_wait_seconds ticks)
        (prune_commands-IsPruneCommand config (load_config-IsConfig loaded config taken))
