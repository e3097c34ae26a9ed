-- ===== src/Deploy/Poll.antt =====
-- scripts/production_auto_deploy.py: one poll, under the lock of the deployments, as a step on the
-- files of the state root. Writing them succeeds but for the counter of forgiven failures, where the
-- code goes on; where another write raises, the run ends there.
pub mod Attempted
use nas_platform.Common.{
  ℕ, Bool, true, false, ◌&&◌, ◌||◌, not, Option, none, some, List, [], ◌∷◌, ◌++◌, if◌then◌else◌,
}
use nas_platform.Common.Text.{Text, text_eq}
use nas_platform.Relay.Clock.{DateTime}
use nas_platform.Deploy.Ci.{Config, Run, is_sha, is_text, member, Judgement}
use nas_platform.Deploy.Select.{Selection, Poll, select_revision}
use nas_platform.Deploy.Attempts.{attempted_shas, record_attempt, forget_attempt, prune_attempts}
use nas_platform.Deploy.Notices.{
  Files, Notice, clear_transient_failures, may_retry_after_transient_failure, note_blind_poll,
  note_seeing_poll, note_ci_refusal,
}

-- How `deploy` of a candidate ends: True, False, or TransientDeploymentError.
pub data Deployment : Type 0 where
  deployed broke transient : Deployment

-- What GitHub shows: the head of main and the page of runs.
pub record View : Type 0 where
  pub head : Text
  pub runs : List Run

-- What one poll meets. `view` is `none` where reading the network or fetching the head raises
-- EligibilityError; `attempted_at` is the clock when the attempt is recorded.
pub record Surroundings : Type 0 where
  pub config : Config
  pub is_web : Text → Bool
  pub is_ancestor : Text → Text → Option Bool
  pub acquired : Bool
  pub now : DateTime
  pub attempted_at : DateTime
  pub view : Option View
  pub deployment : Text → Deployment
  pub counter_writable : Bool
  pub counter_removable : Bool
  pub publishes : Bool

abbrev pub poll_of : Surroundings → Option Text → Files → View → Poll
poll_of s retry files view = record {
  config = s.config;
  is_web = s.is_web;
  is_ancestor = s.is_ancestor;
  attempted_shas = attempted_shas files.attempted;
  last_successful = files.last_successful;
  retry_sha = retry;
  head = view.head;
  runs = view.runs;
}

-- What `_eligible_revision` makes of a selection: a retry must be the candidate, an attempted
-- revision, and not the last success.
unfoldable pub allowed : Option Text → Files → Selection → Selection
unfolding attempted_shas member
allowed none files selection = selection
allowed (some sha) files selection =
    if not (is_text selection.candidate sha)
      || not (member sha (attempted_shas files.attempted))
      || is_text files.last_successful sha
    then record selection { candidate = none }
    else selection

-- _eligible_revision, where `none` is an EligibilityError
unfoldable pub eligible_revision : Surroundings → Option Text → Files → Option Selection
unfolding select_revision allowed
eligible_revision s retry files = elim s.view [
  | none ↦ none
  | some view ↦ elim (select_revision (poll_of s retry files view)) [
    | none ↦ none
    | some selection ↦ some (allowed retry files selection)
  ]
]

abbrev announce_verdict : Surroundings → Selection → Files → List Notice × Files
announce_verdict s selection files = elim selection.verdict [
  | none ↦ ([], files)
  | some j ↦ elim selection.judged [
    | none ↦ ([], files)
    | some sha ↦ note_ci_refusal s.publishes sha j files
  ]
]

-- `_poll_selection`: the selection with the messages that went out.
unfoldable pub poll_selection :
    Surroundings → Option Text → Files → Option Selection × List Notice × Files
unfolding eligible_revision note_blind_poll note_seeing_poll note_ci_refusal
poll_selection s retry files = elim (eligible_revision s retry files) [
  | none ↦ let (notices, files') = note_blind_poll s.publishes files in (none, notices, files')
  | some selection ↦
      let (notices, files') = note_seeing_poll s.publishes files in
      let (more, files'') = announce_verdict s selection files' in
      (some selection, notices ++ more, files'')
]

-- `_deploy_once`: whether the candidate was deployed.
unfoldable pub deploy_once : Surroundings → Text → Files → Bool × Files
unfolding may_retry_after_transient_failure forget_attempt
deploy_once s candidate files = elim (s.deployment candidate) [
  | deployed ↦ (true, files)
  | broke ↦ (false, files)
  | transient ↦
      let (forgiven, files') =
        may_retry_after_transient_failure s.counter_writable s.counter_removable candidate files in
      (
        false,
        if forgiven
            then record files' { attempted = some (forget_attempt files'.attempted candidate) }
            else files',
      )
]

-- `_attempt`, whose messages on the outcome change no file
unfoldable pub attempt : Surroundings → Text → Files → Bool × Files
unfolding record_attempt deploy_once
attempt s candidate files =
    let recorded = record files {
      attempted = some (record_attempt files.attempted candidate s.attempted_at);
    } in
    let (succeeded, files') = deploy_once s candidate recorded in
    (succeeded, if succeeded then record files' { last_successful = some candidate } else files')

-- How a poll ends: nothing was attempted, an EligibilityError, or an attempt of a revision.
pub data Polled : Type 0 where
  idle : Polled
  ineligible : Polled
  attempted : Text → Bool → Polled

unfoldable pub pruned : Surroundings → Files → Files
unfolding prune_attempts
pruned s files = elim (prune_attempts files.attempted s.now) [
  | none ↦ files
  | some text ↦ record files { attempted = some text }
]

-- An explicit retry forgets the attempt, and the failures that were forgiven.
abbrev pub prepared : Surroundings → Option Text → Files → Files
prepared s none files = files
prepared s (some sha) files =
    clear_transient_failures s.counter_removable
      (record files { attempted = some (forget_attempt files.attempted sha) })

abbrev pub is_malformed : Option Text → Bool
is_malformed none = false
is_malformed (some sha) = not (is_sha sha)

-- What `poll` does with the candidate of its selection.
unfoldable pub attempt_candidate : Surroundings → Option Text → Option Text → Files → Polled × Files
unfolding attempt clear_transient_failures forget_attempt
attempt_candidate s retry none files = (idle, files)
attempt_candidate s retry (some candidate) files =
    let (succeeded, files') = attempt s candidate (prepared s retry files) in
    (attempted candidate succeeded, files')

-- `poll` behind `_poll_selection`.
unfoldable pub act :
    Surroundings
    → Option Text
    → Option Selection × List Notice × Files
    → Polled × List Notice × Files
unfolding attempt_candidate
act s retry (none, notices, files) = (ineligible, notices, files)
act s retry (some chosen, notices, files) =
    let (polled, files') = attempt_candidate s retry chosen.candidate files in
    (polled, notices, files')

unfoldable pub poll : Surroundings → Option Text → Files → Polled × List Notice × Files
unfolding pruned poll_selection act is_sha
poll s retry files =
    if is_malformed retry
    then (ineligible, [], files)
    else if not s.acquired
    then (idle, [], files)
    else act s retry (poll_selection s retry (pruned s files))
