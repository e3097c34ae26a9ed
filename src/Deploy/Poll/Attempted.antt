-- ===== src/Deploy/Poll/Attempted.antt =====
-- scripts/production_auto_deploy.py: what a poll that attempts a revision leaves behind.
use nas_platform.Common.{
  ℕ, ◌≤◌, ◌≡◌, refl, sym, ap, ◌∙◌, ◌⊎◌, ◌↔◌, inl, inr, Bool, true, false, Option, none, some, List,
  arith, Bool-cases, Option-cases, if◌then◌else◌,
}
use mathlib.Core.Path.{subst}
use nas_platform.Common.Text.{Text, text_eq_iff}
use nas_platform.Deploy.Ci.{is_sha, is_text, member, candidate_revisions}
use nas_platform.Deploy.Select.{Selection, select_revision}
use nas_platform.Deploy.Select.Walk.{IsReleased, select_revision-releases}
use nas_platform.Deploy.Attempts.{attempted_shas, record_attempt}
use nas_platform.Deploy.Attempts.Stamp.{IsReading}
use nas_platform.Deploy.Attempts.Record.{record_attempt-attempted_shas}
use nas_platform.Deploy.Notices.{
  Files, Notice, next_count, may_retry_after_transient_failure, transient_forgiveness_limit,
}
use nas_platform.Deploy.Notices.Forgiveness.{may_retry-transient}
use nas_platform.Deploy.Poll.{
  Deployment, deployed, broke, transient, View, Surroundings, poll_of, allowed, eligible_revision,
  poll_selection, deploy_once, attempt, attempted, pruned, prepared, attempt_candidate, act, poll,
}

-- What an attempt leaves: the revision is among the attempted ones, or the deployment ended with a
-- TransientDeploymentError, which was counted and forgiven.
abbrev pub IsAccounted : Deployment → Text → Files → Type 0
IsAccounted d sha files =
    (member sha (attempted_shas files.attempted) ≡ true)
    ⊎ ((d ≡ transient)
        × (count : ℕ) × (files.transient ≡ some (sha, count))
        × (count ≤ transient_forgiveness_limit))

-- The answer of an attempt, and what it leaves of the last success.
abbrev pub IsAnswer : Deployment → Text → Bool → Files → Type 0
IsAnswer d sha succeeded files =
    ((succeeded ≡ true) ↔ (d ≡ deployed)) × (succeeded ≡ true → files.last_successful ≡ some sha)

deployment_cases : (d : Deployment) → (d ≡ deployed) ⊎ ((d ≡ broke) ⊎ (d ≡ transient))
deployment_cases deployed = inl refl
deployment_cases broke = inr (inl refl)
deployment_cases transient = inr (inr refl)

may_retry-attempted :
    (writable removable : Bool) (sha : Text) (files : Files)
    → (may_retry_after_transient_failure writable removable sha files).1.attempted ≡ files.attempted
unfolding may_retry_after_transient_failure
may_retry-attempted writable removable sha files = ground arith

deploy_once-IsAccounted :
    (s : Surroundings) (sha : Text) (files : Files)
    → member sha (attempted_shas files.attempted) ≡ true
    → IsAccounted (s.deployment sha) sha (deploy_once s sha files).1
unfolding deploy_once
deploy_once-IsAccounted s sha files h = elim (deployment_cases (s.deployment sha)) [
  | inl e ↦ rw (e, deploy_once) (inl h)
  | inr (inl e) ↦ rw (e, deploy_once) (inl h)
  | inr (inr e) ↦
      let step =
        may_retry_after_transient_failure s.counter_writable s.counter_removable sha files in
      let same = may_retry-attempted s.counter_writable s.counter_removable sha files in
      rw (e, deploy_once)
        (elim (Bool-cases step.0) [
          | inl forgiven ↦
              let (kept, small) =
                may_retry-transient sha s.counter_writable s.counter_removable files forgiven in
              rw forgiven (inr (refl, next_count files.transient sha, kept, small))
          | inr refused ↦ rw refused (inl (rw same h))
        ])
]

deploy_once-answer :
    (s : Surroundings) (sha : Text) (files : Files)
    → ((deploy_once s sha files).0 ≡ true) ↔ (s.deployment sha ≡ deployed)
unfolding deploy_once
deploy_once-answer s sha files = elim (deployment_cases (s.deployment sha)) [
  | inl e ↦ rw (e, deploy_once) ((λ h. refl), (λ h. refl))
  | inr (inl e) ↦ rw (e, deploy_once) ((λ h. absurd (cc)), (λ h. absurd (cc)))
  | inr (inr e) ↦ rw (e, deploy_once) ((λ h. absurd (cc)), (λ h. absurd (cc)))
]

with_success :
    (d : Deployment) (sha : Text) (succeeded : Bool) (files : Files)
    → IsAccounted d sha files
    → (succeeded ≡ true) ↔ (d ≡ deployed)
    → let files' = if succeeded then record files { last_successful = some sha } else files in
      IsAccounted d sha files' × IsAnswer d sha succeeded files'
with_success d sha true files h k = (h, (k, λ e. refl))
with_success d sha false files h k = (h, (k, λ e. absurd (cc)))

pair_path : {b b' : Bool} {f f' : Files} → b ≡ b' → f ≡ f' → ◌≡◌ {A = Bool × Files} (b, f) (b', f')
pair_path e e' = cc (e, e')

module _ (s : Surroundings) (sha : Text) where
  attempt-IsAccounted :
      (files : Files)
      → is_sha sha ≡ true
      → IsReading s.attempted_at
      → IsAccounted (s.deployment sha) sha (attempt s sha files).1
        × IsAnswer (s.deployment sha) sha (attempt s sha files).0 (attempt s sha files).1
  unfolding attempt
  attempt-IsAccounted files named reading =
      let recorded = record files {
        attempted = some (record_attempt files.attempted sha s.attempted_at);
      } in
      let (h, _) = record_attempt-attempted_shas files.attempted sha s.attempted_at named reading in
      let once = deploy_once-IsAccounted s sha recorded h in
      with_success (s.deployment sha) sha (deploy_once s sha recorded).0
        (deploy_once s sha recorded).1 once (deploy_once-answer s sha recorded)

  -- A selection without a retry is the walk's.
  eligible-IsReleased :
      (files : Files) (selection : Selection)
      → eligible_revision s none files ≡ some selection
      → selection.candidate ≡ some sha
      → (view : View) × (s.view ≡ some view)
        × IsReleased
            (poll_of s none files view)
            sha
            (candidate_revisions s.config view.head view.runs)
  unfolding eligible_revision allowed
  eligible-IsReleased files selection e c = elim (Option-cases s.view) [
    | inl unseen ↦ absurd (ground arith)
    | inr (view, seen) ↦
        let poll = poll_of s none files view in
        elim (Option-cases (select_revision poll)) [
          | inl raised ↦ absurd (ground arith)
          | inr (chosen, walked) ↦
              let same : chosen ≡ selection = ground arith in
              (
                view,
                seen,
                (select_revision-releases poll sha).0
                    (chosen, walked, ap (λ (x : Selection). x.candidate) same ∙ c),
              )
        ]
  ]

  -- What an attempt of a poll comes from.
  abbrev IsAttempt : Option Text → Files → Bool → Files → Type 0
  IsAttempt retry files ok files' =
      (selection : Selection) × (eligible_revision s retry (pruned s files) ≡ some selection)
      × (selection.candidate ≡ some sha)
      × (before : Files) × ((attempt s sha before).0 ≡ ok)
      × ((attempt s sha before).1 ≡ files')

  candidate-attempt :
      (retry chosen : Option Text) (files : Files) (ok : Bool) (files' : Files)
      → attempt_candidate s retry chosen files ≡ (attempted sha ok, files')
      → (chosen ≡ some sha)
        × (before : Files) × ((attempt s sha before).0 ≡ ok)
        × ((attempt s sha before).1 ≡ files')
  unfolding attempt_candidate
  candidate-attempt retry none files ok files' e = absurd (cc)
  candidate-attempt retry (some candidate) files ok files' e =
      let same : candidate ≡ sha = cc e in
      let whole =
        subst (λ (x : Text). attempt_candidate s retry (some x) files ≡ (attempted sha ok, files'))
          same e in
      (cc same, prepared s retry files, cc whole, cc whole)

  selection-eligible :
      (retry : Option Text) (files : Files) (selection : Selection)
      → (poll_selection s retry files).0 ≡ some selection
      → eligible_revision s retry files ≡ some selection
  unfolding poll_selection
  selection-eligible retry files selection e = ground arith

  act-IsAttempt :
      (retry : Option Text) (files : Files) (ok : Bool) (notices : List Notice) (files' : Files)
      (o : Option Selection) (sent : List Notice) (seen : Files)
      → o ≡ (poll_selection s retry (pruned s files)).0
      → act s retry (o, sent, seen) ≡ (attempted sha ok, notices, files')
      → IsAttempt retry files ok files'
  unfolding act
  act-IsAttempt retry files ok notices files' none sent seen p e = absurd (cc)
  act-IsAttempt retry files ok notices files' (some chosen) sent seen p e =
      let (named, before, done, left) =
        candidate-attempt retry chosen.candidate seen ok files' (cc e) in
      (chosen, selection-eligible retry (pruned s files) chosen (sym p), named, before, done, left)

  poll-IsAttempt :
      (retry : Option Text) (files : Files) (ok : Bool) (notices : List Notice) (files' : Files)
      → poll s retry files ≡ (attempted sha ok, notices, files')
      → IsAttempt retry files ok files'
  unfolding poll
  poll-IsAttempt retry files ok notices files' e =
      let seen = poll_selection s retry (pruned s files) in
      act-IsAttempt retry files ok notices files' seen.0 seen.1 seen.2 refl (ground arith)

  -- What an explicit retry must be: an attempted revision that is not the last success.
  eligible-IsRetry :
      (wanted : Text) (files : Files) (selection : Selection)
      → eligible_revision s (some wanted) files ≡ some selection
      → selection.candidate ≡ some sha
      → (wanted ≡ sha)
        × (member wanted (attempted_shas files.attempted) ≡ true)
        × (is_text files.last_successful wanted ≡ false)
  unfolding eligible_revision allowed
  eligible-IsRetry wanted files selection e c = elim (Option-cases s.view) [
    | inl unseen ↦ absurd (ground arith)
    | inr (view, seen) ↦
        elim (Option-cases (select_revision (poll_of s (some wanted) files view))) [
          | inl raised ↦ absurd (ground arith)
          | inr (chosen, walked) ↦
              let same : allowed (some wanted) files chosen ≡ selection = ground arith in
              allowed-IsRetry wanted files chosen (ap (λ (x : Selection). x.candidate) same ∙ c)
        ]
  ]
    where
      allowed-IsRetry :
          (wanted : Text) (files : Files) (chosen : Selection)
          → (allowed (some wanted) files chosen).candidate ≡ some sha
          → (wanted ≡ sha)
            × (member wanted (attempted_shas files.attempted) ≡ true)
            × (is_text files.last_successful wanted ≡ false)
      allowed-IsRetry wanted files chosen c =
          (ground (arith, text_eq_iff sha wanted), ground arith, ground arith)

  -- Why a poll attempts the revision, from the files as they are pruned.
  abbrev pub IsChosen : Option Text → Files → Type 0
  IsChosen none files =
      (view : View) × (s.view ≡ some view)
      × IsReleased (poll_of s none files view) sha
          (candidate_revisions s.config view.head view.runs)
  IsChosen (some wanted) files =
      (wanted ≡ sha)
      × (member wanted (attempted_shas files.attempted) ≡ true)
      × (is_text files.last_successful wanted ≡ false)

  eligible-IsChosen :
      (retry : Option Text) (files : Files) (selection : Selection)
      → eligible_revision s retry files ≡ some selection
      → selection.candidate ≡ some sha
      → IsChosen retry files
  eligible-IsChosen none files selection e c = eligible-IsReleased files selection e c
  eligible-IsChosen (some wanted) files selection e c = eligible-IsRetry wanted files selection e c

  -- An attempt of a poll without a retry is of the revision that the walk releases, from the files as
  -- they are pruned; one of a retry is of the revision that is to be tried again, which is among the
  -- attempted ones and not the last success. The attempt succeeds exactly where the deployment does,
  -- and then is the last success. It leaves the revision among the attempted ones, unless the
  -- deployment ended with a TransientDeploymentError: then it was counted, and the count is at most
  -- the limit of forgiveness. The revision is a SHA, and the clock can be written.
  pub poll-IsAccounted :
      (retry : Option Text) (files : Files) (ok : Bool) (notices : List Notice) (files' : Files)
      → is_sha sha ≡ true
      → IsReading s.attempted_at
      → poll s retry files ≡ (attempted sha ok, notices, files')
      → IsAccounted (s.deployment sha) sha files'
        × IsAnswer (s.deployment sha) sha ok files'
        × IsChosen retry (pruned s files)
  poll-IsAccounted retry files ok notices files' named reading e =
      let (selection, eligible, candidate, before, done, left) =
        poll-IsAttempt retry files ok notices files' e in
      let (accounted, answer) =
        subst
          (λ (x : Bool × Files).
            IsAccounted (s.deployment sha) sha x.1 × IsAnswer (s.deployment sha) sha x.0 x.1)
          (pair_path done left) (attempt-IsAccounted before named reading) in
      (accounted, answer, eligible-IsChosen retry (pruned s files) selection eligible candidate)
