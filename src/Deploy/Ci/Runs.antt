-- ===== src/Deploy/Ci/Runs.antt =====
-- scripts/production_auto_deploy.py: which runs of the page gate, release or judge a revision.
use nas_platform.Common.{
  ◌≡◌, ◌↔◌, inl, inr, ap, Bool, true, false, ◌&&◌, not, Option, none, some, List, arith, Bool-cases,
}
use nas_platform.Common.Sort.{All}
use nas_platform.Common.Selected.{All-map}
use nas_platform.Common.Text.{Text, codes, text_eq_iff}
use nas_platform.Deploy.Ci.{
  Config, Run, is_text, gates, conclusion_of, unjudged_conclusions, member,
}

-- A completed push run of the gating workflow for the revision.
abbrev pub IsGating : Config → Text → Run → Type 0
IsGating config sha run =
    (run.head_sha ≡ some sha)
    × (run.status ≡ some (codes "completed"))
    × (run.event ≡ some (codes "push"))
    × (run.head_branch ≡ some config.branch)
    × (run.name ≡ some config.workflow_name)

abbrev pub is_gating : Config → Text → Run → Bool
is_gating config sha run = is_text run.head_sha sha && gates config run

abbrev pub has_succeeded : Config → Text → Run → Bool
has_succeeded config sha run = is_gating config sha run && is_text run.conclusion (codes "success")

pub is_text_iff : (o : Option Text) (t : Text) → (is_text o t ≡ true) ↔ (o ≡ some t)
is_text_iff none t = (λ h. absurd (ground arith), λ h. absurd (ground arith))
is_text_iff (some s) t =
    (λ h. ap some ((text_eq_iff s t).0 h), λ h. (text_eq_iff s t).1 (ground arith))

pub is_gating_iff :
    (config : Config) (sha : Text) (run : Run)
    → (is_gating config sha run ≡ true) ↔ IsGating config sha run
unfolding gates
is_gating_iff config sha run = ground (
  arith,
  is_text_iff run.head_sha sha,
  is_text_iff run.status (codes "completed"),
  is_text_iff run.event (codes "push"),
  is_text_iff run.head_branch config.branch,
  is_text_iff run.name config.workflow_name,
)

-- A successful one of these runs.
abbrev pub IsSuccess : Config → Text → Run → Type 0
IsSuccess config sha run = IsGating config sha run × (run.conclusion ≡ some (codes "success"))

-- One of these runs whose conclusion judges the revision.
abbrev pub IsJudged : Config → Text → Run → Type 0
IsJudged config sha run =
    IsGating config sha run × (member (conclusion_of run) unjudged_conclusions ≡ false)

abbrev pub is_judged : Config → Text → Run → Bool
is_judged config sha run =
    is_gating config sha run && not (member (conclusion_of run) unjudged_conclusions)

pub has_succeeded_iff :
    (config : Config) (sha : Text) (run : Run)
    → (has_succeeded config sha run ≡ true) ↔ IsSuccess config sha run
has_succeeded_iff config sha run =
    let g = is_gating_iff config sha run in
    let c = is_text_iff run.conclusion (codes "success") in
    (λ h. (g.0 (ground arith), c.0 (ground arith)), λ h. rw (g.1 h.0) (c.1 h.1))

pub is_judged_iff :
    (config : Config) (sha : Text) (run : Run)
    → (is_judged config sha run ≡ true) ↔ IsJudged config sha run
is_judged_iff config sha run =
    let g = is_gating_iff config sha run in
    (λ h. (g.0 (ground arith), ground arith), λ h. rw (g.1 h.0) (ground arith))

-- The elements that fail a test do not have what it tests.
pub refuted :
    (P : Run → Type 0) (p : Run → Bool)
    → ((run : Run) → (p run ≡ true) ↔ P run)
    → (runs : List Run) → (All (λ run. p run ≡ false) runs) ↔ (All (λ run. ¬ P run) runs)
refuted P p iff runs = (
  All-map _ _ (λ run h t. absurd (ground (arith, (iff run).1 t))) runs,
  All-map _ _
      (λ run h. elim (Bool-cases (p run)) [
        | inl hit ↦ absurd (h ((iff run).0 hit))
        | inr miss ↦ miss
      ])
      runs,
)
