-- ===== src/Deploy/Examples.antt =====
-- scripts/production_auto_deploy.py on a page of four revisions: the head has no run, the run of
-- the next was cancelled, that of the third succeeded, and that of the last failed.
mod Polls
use nas_platform.Common.{◌≡◌, ◌↔◌, ◌⊎◌, refl, Bool, true, false, none, some, List, [], ◌∷◌, ◌++◌}
use nas_platform.Common.Sort.{All}
use nas_platform.Common.Text.{Text, codes, text_eq, is_digit}
use nas_platform.Deploy.Ci.{
  Config, Run, is_sha, member, gates, next_candidates, candidates_from, candidate_revisions, green,
  failed, conclusion_of, ci_verdict,
}
use nas_platform.Deploy.Ci.Runs.{IsSuccess, IsJudged}
use nas_platform.Deploy.Ci.Candidates.{IsDistinct, HasRun, candidate_revisions-member}
use nas_platform.Deploy.Ci.Judging.{ci_verdict-green, ci_verdict-failed}
use nas_platform.Deploy.Select.{Selection, Poll, select_revision}
use nas_platform.Deploy.Select.Walk.{IsReleased, select_revision-releases}

abbrev pub newest : Text
newest = codes "aaaaaaaaaaaaaaaaaaaaaaaaaaaaaaaaaaaaaaaa"

abbrev pub second : Text
second = codes "b1b1b1b1b1b1b1b1b1b1b1b1b1b1b1b1b1b1b1b1"

abbrev pub third : Text
third = codes "c2c2c2c2c2c2c2c2c2c2c2c2c2c2c2c2c2c2c2c2"

abbrev pub last : Text
last = codes "d3d3d3d3d3d3d3d3d3d3d3d3d3d3d3d3d3d3d3d3"

abbrev pub settings : Config
settings = record { branch = codes "main"; workflow_name = codes "ci" }

abbrev run_of : Text → Text → Run
run_of sha conclusion = record {
  head_sha = some sha;
  status = some (codes "completed");
  event = some (codes "push");
  head_branch = some (codes "main");
  name = some (codes "ci");
  conclusion = some conclusion;
  html_url = none;
}

abbrev pub page : List Run
page =
    run_of second (codes "cancelled")
    ∷ run_of third (codes "success")
    ∷ run_of last (codes "failure")
    ∷ []

abbrev pub no_web : Text → Bool
no_web url = false

-- The checkout has every revision, and the last one is deployed.
abbrev morning : Poll
morning = record {
  config = settings;
  is_web = no_web;
  is_ancestor = λ a b. some true;
  attempted_shas = last ∷ [];
  last_successful = some last;
  retry_sha = none;
  head = newest;
  runs = page;
}

candidates_of_page : candidate_revisions settings newest page ≡ newest ∷ second ∷ third ∷ last ∷ []
unfolding candidate_revisions candidates_from next_candidates is_sha is_digit member text_eq gates
candidates_of_page = refl

released_third : (s : Selection) × (select_revision morning ≡ some s) × (s.candidate ≡ some third)
unfolding select_revision candidates_from next_candidates is_sha is_digit member text_eq gates
released_third = (_, refl, refl)

-- Where the third was attempted already, nothing is released.
stopped_at_third :
    (s : Selection) × (select_revision (record morning { attempted_shas = third ∷ [] }) ≡ some s)
    × (s.candidate ≡ none)
    × (s.attempted ≡ some third)
unfolding select_revision candidates_from next_candidates is_sha is_digit member text_eq gates
stopped_at_third = (_, refl, refl, refl)

select_revision-releases_example :
    ((s : Selection) × (select_revision morning ≡ some s) × (s.candidate ≡ some third))
    ↔ IsReleased morning third (candidate_revisions settings newest page)
select_revision-releases_example = select_revision-releases morning third

ci_verdict-green_example : ((ci_verdict no_web settings third page).verdict ≡ green) ↔ (
    (before : List Run) × (run : Run) × (after : List Run) × (page ≡ before ++ run ∷ after)
    × IsSuccess settings third run
    × All (λ other. ¬ IsSuccess settings third other) before
    × All (λ other. ¬ IsSuccess settings third other) after)
ci_verdict-green_example = ci_verdict-green no_web settings third page

ci_verdict-failed_example : ((ci_verdict no_web settings last page).verdict ≡ failed) ↔ (
    (before : List Run) × (run : Run) × (after : List Run) × (page ≡ before ++ run ∷ after)
    × IsJudged settings last run
    × All (λ other. ¬ IsJudged settings last other) before
    × All (λ other. ¬ IsSuccess settings last other) page
    × ((ci_verdict no_web settings last page).detail ≡ conclusion_of run))
ci_verdict-failed_example = ci_verdict-failed no_web settings last page

candidate_revisions-member_example :
    IsDistinct (candidate_revisions settings newest page)
    × ((sha : Text)
        → (member sha (candidate_revisions settings newest page) ≡ true)
          ↔ ((sha ≡ newest) ⊎ ((is_sha sha ≡ true) × HasRun settings sha page)))
candidate_revisions-member_example = candidate_revisions-member settings newest page
