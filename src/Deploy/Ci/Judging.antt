-- ===== src/Deploy/Ci/Judging.antt =====
-- scripts/production_auto_deploy.py: what the verdicts of `ci_verdict` say of the page of runs.
use nas_platform.Common.{
  ◌≡◌, ◌↔◌, refl, sym, ap, ◌∙◌, Bool, not, List, [], ◌∷◌, ◌++◌, arith, select,
}
use nas_platform.Common.Sort.{All}
use nas_platform.Common.Selected.{
  select-select, select_none, none-select, select_first, first-select,
}
use nas_platform.Common.Text.{Text, codes}
use nas_platform.Deploy.Ci.Runs.{
  IsSuccess, IsJudged, is_gating, has_succeeded, is_judged, has_succeeded_iff, is_judged_iff,
  refuted,
}
use nas_platform.Deploy.Ci.{
  member, Config, Run, is_text, gating_ci_runs, Verdict, green, failed, conclusion_of,
  unjudged_conclusions, Judgement, judgement_of, verdict_of, unsuccessful, ci_verdict,
}

module _ (is_web : Text → Bool) where
  verdict_of-green :
      (successful judged gating : List Run)
      → (verdict_of is_web successful judged gating).verdict ≡ green
      → (run : Run) × (successful ≡ run ∷ [])
  unfolding verdict_of
  verdict_of-green [] [] [] e = absurd (ground arith)
  verdict_of-green [] [] (run ∷ gating) e = absurd (ground arith)
  verdict_of-green [] (run ∷ judged) gating e = absurd (ground arith)
  verdict_of-green (run ∷ []) judged gating e = (run, refl)
  verdict_of-green (run ∷ other ∷ more) judged gating e = absurd (ground arith)

  verdict_of-failed :
      (successful judged gating : List Run)
      → (verdict_of is_web successful judged gating).verdict ≡ failed
      → (run : Run) × (rest : List Run) × (successful ≡ []) × (judged ≡ run ∷ rest)
  unfolding verdict_of
  verdict_of-failed [] [] [] e = absurd (ground arith)
  verdict_of-failed [] [] (run ∷ gating) e = absurd (ground arith)
  verdict_of-failed [] (run ∷ judged) gating e = (run, judged, refl, refl)
  verdict_of-failed (run ∷ []) judged gating e = absurd (ground arith)
  verdict_of-failed (run ∷ other ∷ more) judged gating e = absurd (ground arith)

  verdict_of-once :
      (successful judged gating : List Run) (run : Run)
      → successful ≡ run ∷ []
      → (verdict_of is_web successful judged gating).verdict ≡ green
  unfolding verdict_of
  verdict_of-once successful judged gating run e = rw e refl

  verdict_of-refused :
      (successful judged gating : List Run) (run : Run) (rest : List Run)
      → successful ≡ []
      → judged ≡ run ∷ rest
      → verdict_of is_web successful judged gating ≡ judgement_of is_web failed run
  unfolding verdict_of unsuccessful
  verdict_of-refused successful judged gating run rest e e' = rw (e, e') refl

  abbrev verdict_on : Judgement → Verdict
  verdict_on j = j.verdict

  abbrev detail_on : Judgement → Text
  detail_on j = j.detail

  module _ (config : Config) (sha : Text) (runs : List Run) where
    ci_verdict-verdict_of :
        ci_verdict is_web config sha runs
        ≡ verdict_of is_web
            (select (has_succeeded config sha) runs)
            (select (is_judged config sha) runs)
            (gating_ci_runs config sha runs)
    unfolding ci_verdict
    ci_verdict-verdict_of =
        rw
          (select-select (λ run. is_text run.conclusion (codes "success")) (is_gating config sha)
            runs)
          (rw (
            select-select (λ run. not (member (conclusion_of run) unjudged_conclusions))
              (is_gating config sha) runs))

    -- The verdict is green exactly when one run of the page, and no other, is a completed push run
    -- of the gating workflow on the branch for this revision that concluded with success.
    pub ci_verdict-green : ((ci_verdict is_web config sha runs).verdict ≡ green) ↔ (
        (before : List Run) × (run : Run) × (after : List Run) × (runs ≡ before ++ run ∷ after)
        × IsSuccess config sha run
        × All (λ other. ¬ IsSuccess config sha other) before
        × All (λ other. ¬ IsSuccess config sha other) after)
    ci_verdict-green =
        let p = has_succeeded config sha in
        let iff = refuted (IsSuccess config sha) p (has_succeeded_iff config sha) in
        (
          λ e.
              let (run, once) =
                verdict_of-green (select p runs) (select (is_judged config sha) runs)
                  (gating_ci_runs config sha runs)
                  (sym (ap verdict_on ci_verdict-verdict_of) ∙ e) in
              let (after, (before, split, none_before, here), more) =
                select_first p runs run [] once in
              (
                before,
                run,
                after,
                split,
                (has_succeeded_iff config sha run).0 here,
                (iff before).0 none_before,
                (iff after).0 (select_none p after more),
              ),
          λ h.
              let (before, run, after, split, here, none_before, none_after) = h in
              ap verdict_on ci_verdict-verdict_of
              ∙ verdict_of-once (select p runs) (select (is_judged config sha) runs)
                  (gating_ci_runs config sha runs) run
                  (ap (select p) split
                    ∙ first-select p before after run ((iff before).1 none_before)
                        ((has_succeeded_iff config sha run).1 here)
                    ∙ ap (λ rest. run ∷ rest) (none-select p after ((iff after).1 none_after))),
        )

    -- The verdict is failed exactly when no run of the page is a successful one for this revision
    -- and some run for it was judged; the newest such run is the one whose conclusion it names.
    pub ci_verdict-failed : ((ci_verdict is_web config sha runs).verdict ≡ failed) ↔ (
        (before : List Run) × (run : Run) × (after : List Run) × (runs ≡ before ++ run ∷ after)
        × IsJudged config sha run
        × All (λ other. ¬ IsJudged config sha other) before
        × All (λ other. ¬ IsSuccess config sha other) runs
        × ((ci_verdict is_web config sha runs).detail ≡ conclusion_of run))
    unfolding conclusion_of judgement_of
    ci_verdict-failed =
        let p = has_succeeded config sha in
        let q = is_judged config sha in
        let refuse = refuted (IsSuccess config sha) p (has_succeeded_iff config sha) in
        let pass = refuted (IsJudged config sha) q (is_judged_iff config sha) in
        (
          λ e.
              let (run, rest, none_of, first) =
                verdict_of-failed (select p runs) (select q runs) (gating_ci_runs config sha runs)
                  (sym (ap verdict_on ci_verdict-verdict_of) ∙ e) in
              let (after, (before, split, none_before, here), more) =
                select_first q runs run rest first in
              (
                before,
                run,
                after,
                split,
                (is_judged_iff config sha run).0 here,
                (pass before).0 none_before,
                (refuse runs).0 (select_none p runs none_of),
                ap detail_on ci_verdict-verdict_of
                    ∙ ap detail_on (
                        verdict_of-refused (select p runs) (select q runs)
                          (gating_ci_runs config sha runs) run rest none_of first),
              ),
          λ h.
              let (before, run, after, split, here, none_before, none_of, _) = h in
              ap verdict_on ci_verdict-verdict_of
              ∙ ap verdict_on (
                  verdict_of-refused (select p runs) (select q runs)
                    (gating_ci_runs config sha runs) run (select q after)
                    (none-select p runs ((refuse runs).1 none_of))
                    (ap (select q) split
                      ∙ first-select q before after run ((pass before).1 none_before)
                          ((is_judged_iff config sha run).1 here))),
        )
