-- ===== src/Deploy/Select/Walk.antt =====
-- scripts/production_auto_deploy.py: what `select_revision` releases, in the words of the walk.
use nas_platform.Common.{
  ◌≡◌, ◌↔◌, ◌⊎◌, inl, inr, refl, sym, ap, ◌∙◌, true, false, Option, none, some, List, [], ◌∷◌, ◌++◌,
  arith,
}
use nas_platform.Common.Sort.{All}
use nas_platform.Common.Text.{Text}
use nas_platform.Deploy.Ci.{
  Verdict, green, pending, superseded, failed, ambiguous, Judgement, candidate_revisions,
}
use nas_platform.Deploy.Select.{
  Selection, no_selection, Poll, in_reach, is_spent, verdict_at, selection_or, judged_as,
  released_as, by_verdict, walk, select_revision,
}

-- A revision that the walk looks at: not attempted, or retried; and newer than the last success.
abbrev pub IsOpen : Poll → Text → Type 0
IsOpen poll sha = (is_spent poll sha ≡ false) × (in_reach poll sha ≡ some true)

-- A revision that CI has not judged.
abbrev pub IsUnjudged : Poll → Text → Type 0
IsUnjudged poll sha =
    ((verdict_at poll sha).verdict ≡ pending) ⊎ ((verdict_at poll sha).verdict ≡ superseded)

-- The first open revision of the list that CI has judged, with only unjudged ones before it.
abbrev pub IsReleased : Poll → Text → List Text → Type 0
IsReleased poll sha shas =
    (before : List Text) × (after : List Text) × (shas ≡ before ++ sha ∷ after)
    × All (λ other. IsOpen poll other × IsUnjudged poll other) before
    × IsOpen poll sha
    × ((verdict_at poll sha).verdict ≡ green)

abbrev Releases : Option Selection → Text → Type 0
Releases o sha = (s : Selection) × (o ≡ some s) × (s.candidate ≡ some sha)

-- The selection that the walk keeps for its end names no candidate.
abbrev NoCandidate : Option Selection → Type 0
NoCandidate u = (selection_or u no_selection).candidate ≡ none

NoCandidate-judged :
    (u : Option Selection) (x : Text) (j : Judgement)
    → NoCandidate u
    → NoCandidate (some (selection_or u (judged_as x j)))
NoCandidate-judged none x j n = refl
NoCandidate-judged (some s) x j n = n

verdict-cases :
    (v : Verdict)
    → (v ≡ green) ⊎ ((v ≡ pending) ⊎ (v ≡ superseded)) ⊎ ((v ≡ failed) ⊎ (v ≡ ambiguous))
verdict-cases green = inl refl
verdict-cases pending = inr (inl (inl refl))
verdict-cases superseded = inr (inl (inr refl))
verdict-cases failed = inr (inr (inl refl))
verdict-cases ambiguous = inr (inr (inr refl))

by_verdict-cases :
    (x sha : Text) (j : Judgement) (later : Option Selection)
    → Releases (by_verdict x j later) sha
    → ((j.verdict ≡ green) × (sha ≡ x))
      ⊎ (((j.verdict ≡ pending) ⊎ (j.verdict ≡ superseded)) × Releases later sha)
unfolding by_verdict
by_verdict-cases x sha j later (s, e, c) = elim (verdict-cases j.verdict) [
  | inl g ↦ inl (g, ground arith)
  | inr (inl (inl p)) ↦ inr (inl p, (s, ground arith, c))
  | inr (inl (inr p)) ↦ inr (inr p, (s, ground arith, c))
  | inr (inr r) ↦ absurd (ground arith)
]

by_verdict-unjudged :
    (x : Text) (j : Judgement) (later : Option Selection)
    → ((j.verdict ≡ pending) ⊎ (j.verdict ≡ superseded))
    → by_verdict x j later ≡ later
unfolding by_verdict
by_verdict-unjudged x j later h = ground arith

by_verdict-green :
    (x : Text) (j : Judgement) (later : Option Selection)
    → j.verdict ≡ green
    → by_verdict x j later ≡ some (released_as x j)
unfolding by_verdict
by_verdict-green x j later h = ground arith

module _ (poll : Poll) where
  walk-open :
      (u : Option Selection) (x : Text) (rest : List Text)
      → IsOpen poll x
      → walk poll u (x ∷ rest)
        ≡ by_verdict x
            (verdict_at poll x)
            (walk poll (some (selection_or u (judged_as x (verdict_at poll x)))) rest)
  unfolding walk
  walk-open u x rest h = rw (h.0, h.1)

  walk-closed :
      (u : Option Selection) (x sha : Text) (rest : List Text)
      → NoCandidate u
      → Releases (walk poll u (x ∷ rest)) sha
      → IsOpen poll x
  unfolding walk
  walk-closed u x sha rest n (s, e, c) = (ground arith, ground arith)

  walk-IsReleased :
      (u : Option Selection) (shas : List Text) (sha : Text)
      → NoCandidate u
      → Releases (walk poll u shas) sha
      → IsReleased poll sha shas
  unfolding walk
  walk-IsReleased u [] sha n (s, e, c) = absurd (ground arith)
  walk-IsReleased u (x ∷ rest) sha n (s, e, c) =
      let o = walk-closed u x sha rest n (s, e, c) in
      let j = verdict_at poll x in
      let later = walk poll (some (selection_or u (judged_as x j))) rest in
      elim (by_verdict-cases x sha j later (s, sym (walk-open u x rest o) ∙ e, c)) [
        | inl (g, same) ↦ ([], rest, ap (λ y. y ∷ rest) (sym same), tt, rw same o, rw same g)
        | inr (unjudged, released) ↦
            let (before, after, split, passed, here, judged) =
              walk-IsReleased (some (selection_or u (judged_as x j))) rest sha
                (NoCandidate-judged u x j n) released in
            (x ∷ before, after, ap (λ xs. x ∷ xs) split, ((o, unjudged), passed), here, judged)
      ]

  IsReleased-walk :
      (u : Option Selection) (before after : List Text) (sha : Text)
      → All (λ other. IsOpen poll other × IsUnjudged poll other) before
      → IsOpen poll sha
      → (verdict_at poll sha).verdict ≡ green
      → Releases (walk poll u (before ++ sha ∷ after)) sha
  IsReleased-walk u [] after sha p o g = (
    released_as sha (verdict_at poll sha),
    walk-open u sha after o ∙ by_verdict-green sha (verdict_at poll sha) _ g,
    refl,
  )
  IsReleased-walk u (x ∷ before) after sha ((o', v), p) o g =
      let j = verdict_at poll x in
      let u' = some (selection_or u (judged_as x j)) in
      let (s, e, c) = IsReleased-walk u' before after sha p o g in
      (s, walk-open u x (before ++ sha ∷ after) o' ∙ by_verdict-unjudged x j _ v ∙ e, c)

  -- A revision is released exactly when it is a candidate that is open and whose verdict is
  -- green, and every candidate before it, from the head on, is open and pending or superseded. So
  -- a refused, an ambiguous, an attempted or an older revision ends the walk.
  pub select_revision-releases :
      (sha : Text)
      → ((s : Selection) × (select_revision poll ≡ some s) × (s.candidate ≡ some sha))
        ↔ IsReleased poll sha (candidate_revisions poll.config poll.head poll.runs)
  unfolding select_revision
  select_revision-releases sha = (
    walk-IsReleased none (candidate_revisions poll.config poll.head poll.runs) sha refl,
    λ h.
        let (before, after, split, passed, o, g) = h in
        rw split (IsReleased-walk none before after sha passed o g),
  )
