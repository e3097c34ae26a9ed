-- ===== src/Deploy/Ci/Candidates.antt =====
-- scripts/production_auto_deploy.py: what `candidate_revisions` lists.
use nas_platform.Common.{
  ◌≡◌, ◌↔◌, ◌⊎◌, inl, inr, refl, ap, ◌∙◌, true, false, ◌&&◌, ◌||◌, not, none, some, List, [], ◌∷◌,
  ◌++◌, arith, any, Bool-cases, Option-cases, if◌then◌else◌,
}
use nas_platform.Common.Selected.{any_at, at-any}
use nas_platform.Common.Text.{Text, text_eq, text_eq_iff, text_eq_refl}
use nas_platform.Deploy.Ci.{
  Config, Run, is_text, gates, is_sha, member, next_candidates, candidates_from,
  candidate_revisions,
}
use nas_platform.Deploy.Ci.Runs.{IsGating, is_gating, is_gating_iff}

member-append_last :
    (sha other : Text) (shas : List Text)
    → member sha (shas ++ other ∷ []) ≡ (member sha shas || text_eq sha other)
unfolding member any
member-append_last sha other [] = ground arith
member-append_last sha other (x ∷ shas) = ground (arith, member-append_last sha other shas)

text_cases : (s t : Text) → (s ≡ t) ⊎ ((text_eq s t ≡ false) × (text_eq t s ≡ false))
text_cases s t = elim (Bool-cases (text_eq s t)) [
  | inl same ↦ inl ((text_eq_iff s t).0 same)
  | inr apart ↦ inr (apart, ground (arith, text_eq_iff s t, text_eq_iff t s))
]

-- Each text stands in the list once.
abbrev pub IsDistinct : List Text → Type 0
IsDistinct [] = Unit
IsDistinct (x ∷ xs) = (member x xs ≡ false) × IsDistinct xs

IsDistinct-append_last :
    (other : Text) (shas : List Text)
    → member other shas ≡ false
    → IsDistinct shas
    → IsDistinct (shas ++ other ∷ [])
unfolding member any
IsDistinct-append_last other [] fresh h = (refl, tt)
IsDistinct-append_last other (x ∷ shas) fresh h = (
  ground (arith, member-append_last x other shas, text_eq_iff x other, text_eq_iff other x),
  IsDistinct-append_last other shas (ground arith) h.1,
)

-- Some run of the page is a completed push run of the gating workflow for the revision.
abbrev pub HasRun : Config → Text → List Run → Type 0
HasRun config sha runs =
    (before : List Run) × (run : Run) × (after : List Run) × (runs ≡ before ++ run ∷ after)
    × IsGating config sha run

module _ (config : Config) where
  next_none :
      (shas : List Text) (run : Run) → run.head_sha ≡ none → next_candidates config shas run ≡ shas
  unfolding next_candidates
  next_none shas run e = ground arith

  next_some :
      (shas : List Text) (run : Run) (sha : Text)
      → run.head_sha ≡ some sha
      → next_candidates config shas run ≡ (
          if is_sha sha && not (member sha shas) && gates config run
          then shas ++ sha ∷ []
          else shas)
  unfolding next_candidates
  next_some shas run sha e = ground arith

  next_candidates-IsDistinct :
      (shas : List Text) (run : Run)
      → IsDistinct shas
      → IsDistinct (next_candidates config shas run)
  next_candidates-IsDistinct shas run h = elim (Option-cases run.head_sha) [
    | inl missing ↦ rw (next_none shas run missing) h
    | inr (sha, given) ↦
        rw (next_some shas run sha given)
          (elim (Bool-cases (is_sha sha && not (member sha shas) && gates config run)) [
            | inl taken ↦ rw taken (IsDistinct-append_last sha shas (ground arith) h)
            | inr left ↦ rw left h
          ])
  ]

  is_text-given :
      (sha other : Text) (run : Run)
      → run.head_sha ≡ some other
      → is_text run.head_sha sha ≡ text_eq other sha
  is_text-given sha other run e = ap (λ o. is_text o sha) e

  -- A run's own revision is listed after its round if it was, or if the run passes.
  member-next_same :
      (sha : Text) (shas : List Text) (run : Run)
      → run.head_sha ≡ some sha
      → member sha (
          if is_sha sha && not (member sha shas) && gates config run
          then shas ++ sha ∷ []
          else shas)
        ≡ (member sha shas || (is_sha sha && is_gating config sha run))
  member-next_same sha shas run given =
      ground
        (arith, member-append_last sha sha shas, is_text-given sha sha run given, text_eq_refl sha)

  member-next_candidates :
      (sha : Text) (shas : List Text) (run : Run)
      → member sha (next_candidates config shas run)
        ≡ (member sha shas || (is_sha sha && is_gating config sha run))
  member-next_candidates sha shas run = elim (Option-cases run.head_sha) [
    | inl missing ↦ rw (next_none shas run missing) (ground arith)
    | inr (other, given) ↦ rw (next_some shas run other given) (elim (text_cases sha other) [
      | inl same ↦ rw same (member-next_same other shas run given)
      | inr (apart, apart') ↦
          ground (arith, member-append_last sha other shas, is_text-given sha other run given)
    ])
  ]

  candidates_from-IsDistinct :
      (shas : List Text) (runs : List Run)
      → IsDistinct shas
      → IsDistinct (candidates_from config shas runs)
  unfolding candidates_from
  candidates_from-IsDistinct shas [] h = h
  candidates_from-IsDistinct shas (run ∷ runs) h =
      candidates_from-IsDistinct (next_candidates config shas run) runs
        (next_candidates-IsDistinct shas run h)

  member-candidates_from :
      (sha : Text) (shas : List Text) (runs : List Run)
      → member sha (candidates_from config shas runs)
        ≡ (member sha shas || (is_sha sha && any (is_gating config sha) runs))
  unfolding candidates_from any
  member-candidates_from sha shas [] = ground arith
  member-candidates_from sha shas (run ∷ runs) = ground (
    arith,
    member-candidates_from sha (next_candidates config shas run) runs,
    member-next_candidates sha shas run,
  )

  any_iff :
      (sha : Text) (runs : List Run)
      → (any (is_gating config sha) runs ≡ true) ↔ HasRun config sha runs
  any_iff sha runs = (
    λ h.
        let (before, run, after, split, here) = any_at (is_gating config sha) runs h in
        (before, run, after, split, (is_gating_iff config sha run).0 here),
    λ h.
        let (before, run, after, split, here) = h in
        rw split
          (at-any (is_gating config sha) before after run ((is_gating_iff config sha run).1 here)),
  )

  -- The candidates are distinct, and they are the head and the well-formed revisions for which the
  -- page has a completed push run of the gating workflow on the branch.
  pub candidate_revisions-member :
      (head : Text) (runs : List Run)
      → IsDistinct (candidate_revisions config head runs)
        × ((sha : Text)
            → (member sha (candidate_revisions config head runs) ≡ true)
              ↔ ((sha ≡ head) ⊎ ((is_sha sha ≡ true) × HasRun config sha runs)))
  unfolding candidate_revisions member any
  candidate_revisions-member head runs = (
    candidates_from-IsDistinct (head ∷ []) runs (refl, tt),
    λ sha.
        let listed = member-candidates_from sha (head ∷ []) runs in
        let found = any_iff sha runs in
        let is_head = text_eq_iff sha head in
        (
          λ h. elim (Bool-cases (text_eq sha head)) [
            | inl same ↦ inl (is_head.0 same)
            | inr apart ↦ inr (ground (arith, listed), found.0 (ground (arith, listed)))
          ],
          λ h. elim h [
            | inl same ↦ listed ∙ rw (is_head.1 same)
            | inr here ↦ listed ∙ rw (here.0, found.1 here.1) (ground arith)
          ],
        ),
  )
