-- ===== src/Deploy/Select.antt =====
-- scripts/production_auto_deploy.py: `select_revision`, the walk from the head of main backwards.
pub mod Walk
use nas_platform.Common.{
  Bool, true, false, ◌&&◌, not, Option, none, some, List, [], ◌∷◌, if◌then◌else◌,
}
use nas_platform.Common.Text.{Text, text_eq}
use nas_platform.Deploy.Ci.{
  Config, Run, is_text, member, Verdict, green, pending, superseded, failed, ambiguous, Judgement,
  ci_verdict, candidate_revisions,
}

pub record Selection : Type 0 where
  pub candidate : Option Text
  pub judged : Option Text
  pub verdict : Option Judgement
  pub attempted : Option Text

-- Selection()
abbrev pub no_selection : Selection
no_selection = record { candidate = none; judged = none; verdict = none; attempted = none }

-- What one poll reads besides of the runs: the attempted record, the last success, the revision
-- that an operator retries, and git's ancestry of the checkout, where `none` is the
-- EligibilityError of a git that cannot be run.
pub record Poll : Type 0 where
  pub config : Config
  pub is_web : Text → Bool
  pub is_ancestor : Text → Text → Option Bool
  pub attempted_shas : List Text
  pub last_successful : Option Text
  pub retry_sha : Option Text
  pub head : Text
  pub runs : List Run

unfoldable pub newer_than_deployed : Poll → Text → Text → Option Bool
newer_than_deployed poll sha deployed =
    if text_eq sha deployed then some false else elim (poll.is_ancestor deployed sha) [
      | none ↦ none
      | some false ↦ some false
      | some true ↦ if text_eq sha poll.head then some true else poll.is_ancestor sha poll.head
    ]

-- Whether the walk may look at a revision: no success so far, or newer than the last one.
unfoldable pub in_reach : Poll → Text → Option Bool
unfolding newer_than_deployed
in_reach poll sha = elim poll.last_successful [
  | none ↦ some true
  | some deployed ↦ newer_than_deployed poll sha deployed
]

unfoldable pub is_spent : Poll → Text → Bool
unfolding member
is_spent poll sha = member sha poll.attempted_shas && not (is_text poll.retry_sha sha)

unfoldable pub verdict_at : Poll → Text → Judgement
unfolding ci_verdict
verdict_at poll sha = ci_verdict poll.is_web poll.config sha poll.runs

abbrev pub selection_or : Option Selection → Selection → Selection
selection_or none s = s
selection_or (some s) _ = s

abbrev pub judged_as : Text → Judgement → Selection
judged_as sha j = record { candidate = none; judged = some sha; verdict = some j; attempted = none }

abbrev pub released_as : Text → Judgement → Selection
released_as sha j = record {
  candidate = some sha;
  judged = some sha;
  verdict = some j;
  attempted = none;
}

-- The verdict on a revision in reach; `later` is what the walk comes to behind it.
unfoldable pub by_verdict : Text → Judgement → Option Selection → Option Selection
by_verdict sha j later = elim j.verdict [
  | green ↦ some (released_as sha j)
  | pending ↦ later
  | superseded ↦ later
  | failed ↦ some (judged_as sha j)
  | ambiguous ↦ some (judged_as sha j)
]

-- The loop of `select_revision`, where `none` is an EligibilityError.
unfoldable pub walk : Poll → Option Selection → List Text → Option Selection
unfolding is_spent in_reach verdict_at by_verdict
walk poll unjudged [] = some (selection_or unjudged no_selection)
walk poll unjudged (sha ∷ rest) =
    let later =
      walk poll (some (selection_or unjudged (judged_as sha (verdict_at poll sha)))) rest in
    if is_spent poll sha
    then some (record no_selection { attempted = some sha })
    else elim (in_reach poll sha) [
      | none ↦ none
      | some false ↦ some (selection_or unjudged no_selection)
      | some true ↦ by_verdict sha (verdict_at poll sha) later
    ]

unfoldable pub select_revision : Poll → Option Selection
unfolding walk candidate_revisions
select_revision poll = walk poll none (candidate_revisions poll.config poll.head poll.runs)
