-- ===== src/Gate/Verdict.antt =====
-- services/downloaders/clamav_gate.py: what the exit code and the page of `main` say.
use nas_platform.Common.{
  true, false, none, List, [], ◌∷◌, ◌++◌, ◌≡◌, ◌≢◌, refl, ◌↔◌, ◌⊎◌, inl, inr, arith, any, all,
  select, Bool, ◌&&◌, length, ◌==◌, Bool-cases, if◌then◌else◌, ◌∙◌,
}
use nas_platform.Common.Selected.{select-any}
use nas_platform.Common.Text.{Text, codes}
use nas_platform.Gate.{
  Scan, scanned, raised, Settings, Job, Waited, ready, gave_up, out_of_rounds, await_clamd,
  reply_lines, alert, unavailable, is_found, is_errored, clean, not_infected, infected_outcome,
  judge, infected_lines, after_lines, scan_job, enough_rounds, after_wait, wait_and_scan, job_name,
  main,
}

-- Whether stdout takes the lines that refuse a job.
abbrev pub is_told : Settings → Text → List Text → Bool
is_told settings name lines = all settings.printable (infected_lines name (select is_found lines))

judge-exit_code :
    (settings : Settings) (name : Text) (lines : List Text)
    → (judge settings name lines).exit_code
      ≡ (if any is_found lines && is_told settings name lines then 1 else 0)
unfolding judge not_infected infected_outcome unavailable clean after_lines
judge-exit_code settings name lines = ground (arith, select-any is_found lines)

-- The scan went through, a line of the reply names a signature, and stdout takes the lines that say
-- so.
abbrev pub ReplyNamesSignature : Settings → Text → Scan → Type 0
ReplyNamesSignature settings name scan =
    (reply : Text) × (scan ≡ scanned reply)
    × (any is_found (reply_lines reply) ≡ true)
    × (is_told settings name (reply_lines reply) ≡ true)

-- The scan was made, clamd named a signature, and stdout takes the lines that say so.
abbrev pub NamedSignature : Settings → Job → Type 0
NamedSignature settings job =
    (job.complete_dir ≢ [])
    × (job.is_directory ≡ true)
    × (await_clamd settings job (enough_rounds settings) ≡ ready)
    × ReplyNamesSignature settings (job_name job) job.scan

unavailable-exit_code :
    (settings : Settings) (name detail : Text) (lines : List Text)
    → (unavailable settings name detail lines).exit_code ≡ 0
unfolding unavailable after_lines
unavailable-exit_code settings name detail lines = ground arith

unavailable-imports :
    (settings : Settings) (name detail : Text) (lines : List Text)
    → (unavailable settings name detail lines).exit_code ≢ 1
unavailable-imports settings name detail lines e =
    let none_refused = unavailable-exit_code settings name detail lines in
    omega (arith, e, none_refused)

scan_job-exit_code :
    (settings : Settings) (name : Text) (scan : Scan)
    → ((scan_job settings name scan).exit_code ≡ 1) ↔ ReplyNamesSignature settings name scan
unfolding scan_job
scan_job-exit_code settings name (raised error) =
    (λ e. absurd (unavailable-imports settings name error [] e), λ h. absurd (cc (h.1)))
scan_job-exit_code settings name (scanned reply) =
    let j = judge-exit_code settings name (reply_lines reply) in
    (
      λ e. (reply, refl, ground (arith, j), ground (arith, j)),
      λ h. ground (arith, j, h.1, h.2, h.3),
    )

scan_job-exits :
    (settings : Settings) (name : Text) (scan : Scan)
    → ((scan_job settings name scan).exit_code ≡ 0) ⊎ ((scan_job settings name scan).exit_code ≡ 1)
unfolding scan_job
scan_job-exits settings name (raised error) = inl (unavailable-exit_code settings name error [])
scan_job-exits settings name (scanned reply) =
    elim (Bool-cases
      (any is_found (reply_lines reply) && is_told settings name (reply_lines reply))) [
        | inl named ↦ inr (judge-exit_code settings name (reply_lines reply) ∙ rw named refl)
        | inr fine ↦ inl (judge-exit_code settings name (reply_lines reply) ∙ rw fine refl)
      ]

after_wait-exit_code :
    (settings : Settings) (job : Job) (w : Waited)
    → ((after_wait settings job w).exit_code ≡ 1)
      ↔ ((w ≡ ready) × ReplyNamesSignature settings (job_name job) job.scan)
unfolding after_wait
after_wait-exit_code settings job ready =
    let f = scan_job-exit_code settings (job_name job) job.scan in
    (λ e. (refl, f.0 e), λ h. f.1 h.1)
after_wait-exit_code settings job (gave_up error) =
    (λ e. absurd (unavailable-imports settings (job_name job) _ [] e), λ h. absurd (cc (h.0)))
after_wait-exit_code settings job out_of_rounds =
    (λ e. absurd (unavailable-imports settings (job_name job) [] [] e), λ h. absurd (cc (h.0)))

after_wait-exits :
    (settings : Settings) (job : Job) (w : Waited)
    → ((after_wait settings job w).exit_code ≡ 0) ⊎ ((after_wait settings job w).exit_code ≡ 1)
unfolding after_wait
after_wait-exits settings job ready = scan_job-exits settings (job_name job) job.scan
after_wait-exits settings job (gave_up error) =
    inl (unavailable-exit_code settings (job_name job) _ [])
after_wait-exits settings job out_of_rounds =
    inl (unavailable-exit_code settings (job_name job) [] [])

is_empty_iff : (s : Text) → ((length s == 0) ≡ false) ↔ (s ≢ [])
is_empty_iff [] = (λ h. cc, λ h. absurd (h refl))
is_empty_iff (c ∷ s) = (λ h e. cc, λ h. ground arith)

is_empty_lines : (lines : List Text) → (length lines == 0) ≡ false → lines ≢ []
is_empty_lines [] h e = cc
is_empty_lines (line ∷ lines) h e = cc

-- Both credentials are set, so that `alert` posts.
abbrev pub HasCredentials : Settings → Type 0
HasCredentials settings = (settings.alerts_token ≢ []) × (settings.user_key ≢ [])

alert-some :
    (settings : Settings) (name detail : Text)
    → HasCredentials settings
    → alert settings name detail ≢ none
unfolding alert
alert-some settings name detail h e =
    ground
      (arith, (is_empty_iff settings.alerts_token).1 h.0, (is_empty_iff settings.user_key).1 h.1)

judge-silent :
    (settings : Settings) (name : Text) (lines : List Text)
    → HasCredentials settings
    → (judge settings name lines).raised ≡ false
    → (judge settings name lines).exit_code ≡ 0
    → (judge settings name lines).page ≡ none
    → ((length lines == 0) ≡ false) × (any is_found lines ≡ false) × (any is_errored lines ≡ false)
unfolding judge not_infected infected_outcome unavailable clean after_lines
judge-silent settings name lines c f e q =
    let no_alert = alert-some settings name (codes "ClamAV could not complete the scan.") c in
    (
      ground (arith, select-any is_found lines, select-any is_errored lines, no_alert),
      ground (arith, select-any is_found lines, select-any is_errored lines, no_alert),
      ground (arith, select-any is_found lines, select-any is_errored lines, no_alert),
    )

unavailable-silent :
    (settings : Settings) (name detail : Text) (lines : List Text)
    → HasCredentials settings
    → (unavailable settings name detail lines).raised ≡ false
    → (unavailable settings name detail lines).page ≢ none
unfolding unavailable after_lines
unavailable-silent settings name detail lines c f e =
    ground (arith, alert-some settings name detail c)

-- The scan is over, clamd said something, and no line of it names a signature or an error.
abbrev pub WasClean : Job → Type 0
WasClean job =
    (reply : Text) × (job.scan ≡ scanned reply)
    × (reply_lines reply ≢ [])
    × (any is_found (reply_lines reply) ≡ false)
    × (any is_errored (reply_lines reply) ≡ false)

scan_cases :
    (scan : Scan)
    → ((reply : Text) × (scan ≡ scanned reply)) ⊎ ((error : Text) × (scan ≡ raised error))
scan_cases (scanned reply) = inl (reply, refl)
scan_cases (raised error) = inr (error, refl)

scan_job-WasClean :
    (settings : Settings) (name : Text) (job : Job)
    → HasCredentials settings
    → (scan_job settings name job.scan).raised ≡ false
    → (scan_job settings name job.scan).exit_code ≡ 0
    → (scan_job settings name job.scan).page ≡ none
    → WasClean job
unfolding scan_job
scan_job-WasClean settings name job c f e q = elim (scan_cases job.scan) [
  | inl (reply, given) ↦
      let (some_lines, unnamed, fine) =
        judge-silent settings name (reply_lines reply) c (simp given at f) (simp given at e)
          (simp given at q) in
      (reply, given, (is_empty_lines (reply_lines reply)) some_lines, unnamed, fine)
  | inr (error, given) ↦
      absurd (unavailable-silent settings name error [] c (simp given at f) (simp given at q))
]

after_wait-WasClean :
    (settings : Settings) (job : Job) (w : Waited)
    → HasCredentials settings
    → (after_wait settings job w).raised ≡ false
    → (after_wait settings job w).exit_code ≡ 0
    → (after_wait settings job w).page ≡ none
    → WasClean job
unfolding after_wait
after_wait-WasClean settings job ready c f e q =
    scan_job-WasClean settings (job_name job) job c f e q
after_wait-WasClean settings job (gave_up error) c f e q =
    absurd (unavailable-silent settings (job_name job) _ [] c f q)
after_wait-WasClean settings job out_of_rounds c f e q =
    absurd (unavailable-silent settings (job_name job) _ [] c f q)

module _ (settings : Settings) (job : Job) where
  -- The exit code is 1 exactly when clamd answered, scanned the directory of the job and named a
  -- signature in some line of its reply, and stdout takes the lines that say so; else it is 0.
  pub main-exit_code :
      (((main settings job).exit_code ≡ 1) ↔ NamedSignature settings job)
      × ((((main settings job).exit_code ≡ 0)) ⊎ ((main settings job).exit_code ≡ 1))
  unfolding main wait_and_scan
  main-exit_code =
      let waited = await_clamd settings job (enough_rounds settings) in
      let through = after_wait-exit_code settings job waited in
      let no_target = codes "SABnzbd passed no SAB_COMPLETE_DIR to scan." in
      let not_seen = job.complete_dir ++ codes " is not a directory this container can see." in
      elim (Bool-cases (length job.complete_dir == 0)) [
        | inl nothing ↦
            rw (nothing, main)
              (
                (
                  λ e. absurd (unavailable-imports settings (job_name job) no_target [] e),
                  λ h. absurd (cc ((is_empty_iff job.complete_dir).1 h.0)),
                ),
                inl (unavailable-exit_code settings (job_name job) no_target []),
              )
        | inr something ↦
            rw (something, main)
              (elim (Bool-cases job.is_directory) [
                | inr lost ↦ simp (lost) (
                  (
                    λ e. absurd (unavailable-imports settings (job_name job) not_seen [] e),
                    λ h. absurd (cc (h.1)),
                  ),
                  inl (unavailable-exit_code settings (job_name job) not_seen []),
                )
                | inl seen ↦ simp (seen) (
                  (
                    λ e.
                        let (w, named) = through.0 e in
                        ((is_empty_iff job.complete_dir).0 something, refl, w, named),
                    λ h. through.1 (h.2, h.3),
                  ),
                  after_wait-exits settings job waited,
                )
              ])
      ]

  -- With both credentials set, where `main` does not raise, a job that is imported without a call for
  -- a page to the operator was scanned, and clamd named neither a signature nor an error in a reply
  -- that is not empty.
  pub main-WasClean :
      HasCredentials settings
      → (main settings job).raised ≡ false
      → (main settings job).exit_code ≡ 0
      → (main settings job).page ≡ none
      → WasClean job
  unfolding main wait_and_scan
  main-WasClean c f e q =
      let waited = await_clamd settings job (enough_rounds settings) in
      elim (Bool-cases (length job.complete_dir == 0)) [
        | inl nothing ↦ absurd (
            unavailable-silent settings (job_name job) _ [] c (rw (nothing, main) at f)
              (rw (nothing, main) at q))
        | inr something ↦ elim (Bool-cases job.is_directory) [
          | inr lost ↦ absurd (
              unavailable-silent settings (job_name job)
                (job.complete_dir ++ codes " is not a directory this container can see.") [] c
                (ground arith) (ground arith))
          | inl seen ↦
              after_wait-WasClean settings job waited c (ground arith) (ground arith) (ground arith)
        ]
      ]
