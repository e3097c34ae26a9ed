-- ===== src/Deploy/Ci.antt =====
-- scripts/production_auto_deploy.py: the runs of the gating workflow, `ci_verdict` and
-- `candidate_revisions`. The runs are what `fetch_ci_runs` gives, newest first.
pub mod Runs
pub mod Judging
pub mod Candidates
use nas_platform.Common.{
  ℕ, Bool, true, false, ◌&&◌, ◌||◌, not, Option, none, some, List, [], ◌∷◌, ◌++◌, ltb, leb, ◌==◌,
  if◌then◌else◌, length, select, all, any,
}
use nas_platform.Common.Text.{Text, codes, text_eq, is_digit, decimal_text}

-- The two settings that name the gating workflow.
pub record Config : Type 0 where
  pub branch : Text
  pub workflow_name : Text

-- A run of the page, a JSON object: `none` is a field that is missing or not a text.
pub record Run : Type 0 where
  pub head_sha : Option Text
  pub status : Option Text
  pub event : Option Text
  pub head_branch : Option Text
  pub name : Option Text
  pub conclusion : Option Text
  pub html_url : Option Text

-- run.get(…) == text
abbrev pub is_text : Option Text → Text → Bool
is_text none t = false
is_text (some s) t = text_eq s t

abbrev pub is_hex : ℕ → Bool
is_hex c = is_digit c || leb b'a' c && leb c b'f'

-- SHA_PATTERN.fullmatch
unfoldable pub is_sha : Text → Bool
unfolding all
is_sha sha = length sha == 40 && all is_hex sha

-- sha in ordered
unfoldable pub member : Text → List Text → Bool
unfolding any
member sha shas = any (text_eq sha) shas

-- A completed push run of the gating workflow on the branch.
unfoldable pub gates : Config → Run → Bool
gates config run =
    is_text run.status (codes "completed")
    && is_text run.event (codes "push")
    && is_text run.head_branch config.branch
    && is_text run.name config.workflow_name

unfoldable pub gating_ci_runs : Config → Text → List Run → List Run
unfolding select
gating_ci_runs config sha runs = select (λ run. is_text run.head_sha sha && gates config run) runs

-- One round of the loop of `candidate_revisions`.
unfoldable pub next_candidates : Config → List Text → Run → List Text
next_candidates config ordered run = elim run.head_sha [
  | none ↦ ordered
  | some sha ↦
      if is_sha sha && not (member sha ordered) && gates config run
      then ordered ++ sha ∷ []
      else ordered
]

unfoldable pub candidates_from : Config → List Text → List Run → List Text
candidates_from config ordered [] = ordered
candidates_from config ordered (run ∷ runs) =
    candidates_from config (next_candidates config ordered run) runs

unfoldable pub candidate_revisions : Config → Text → List Run → List Text
candidate_revisions config head runs = candidates_from config (head ∷ []) runs

-- The CI_ constants.
pub data Verdict : Type 0 where
  green pending superseded failed ambiguous : Verdict

-- UNJUDGED_CONCLUSIONS
abbrev pub unjudged_conclusions : List Text
unjudged_conclusions =
    codes "cancelled"
    ∷ codes "skipped"
    ∷ codes "stale"
    ∷ codes "neutral"
    ∷ codes "action_required"
    ∷ []

unfoldable pub conclusion_of : Run → Text
conclusion_of run = elim run.conclusion [
  | none ↦ codes "unknown"
  | some [] ↦ codes "unknown"
  | some (c ∷ rest) ↦ c ∷ rest
]

-- The tuple that `ci_verdict` returns.
pub record Judgement : Type 0 where
  pub verdict : Verdict
  pub detail : Text
  pub url : Text

-- `is_web` is what `urlsplit` of the library finds in a text: the scheme https and a host.
module _ (is_web : Text → Bool) where
  unfoldable pub run_url : Run → Text
  run_url run = elim run.html_url [ none ↦ [] | some url ↦ if is_web url then url else [] ]

  unfoldable pub judgement_of : Verdict → Run → Judgement
  judgement_of verdict run = record {
    verdict = verdict;
    detail = conclusion_of run;
    url = run_url run;
  }

  -- The part of `ci_verdict` for a revision without a successful run.
  unfoldable pub unsuccessful : List Run → List Run → Judgement
  unfolding judgement_of
  unsuccessful (run ∷ judged) gating = judgement_of failed run
  unsuccessful [] (run ∷ gating) = judgement_of superseded run
  unsuccessful [] [] = record { verdict = pending; detail = codes "no completed run yet"; url = [] }

  -- The cases of `ci_verdict` by its successful runs.
  unfoldable pub verdict_of : List Run → List Run → List Run → Judgement
  unfolding run_url unsuccessful decimal_text
  verdict_of [] judged gating = unsuccessful judged gating
  verdict_of (run ∷ []) judged gating = record {
    verdict = green;
    detail = codes "success";
    url = run_url run;
  }
  verdict_of (run ∷ other ∷ more) judged gating = record {
    verdict = ambiguous;
    detail =
        decimal_text (length (run ∷ other ∷ more))
        ++ codes " successful push runs exist, and exactly one is required";
    url = run_url run;
  }

  unfoldable pub ci_verdict : Config → Text → List Run → Judgement
  unfolding verdict_of gating_ci_runs select conclusion_of member
  ci_verdict config sha runs =
      let gating = gating_ci_runs config sha runs in
      verdict_of (select (λ run. is_text run.conclusion (codes "success")) gating)
        (select (λ run. not (member (conclusion_of run) unjudged_conclusions)) gating) gating
