-- ===== src/Deploy/Notices/Forgiveness.antt =====
-- scripts/production_auto_deploy.py: a revision is forgiven three failures in a row at most.
use nas_platform.Common.{
  ℕ, ◌+◌, ◌≤◌, ◌≡◌, refl, Bool, true, ◌&&◌, Option, none, some, List, [], ◌∷◌, arith, length,
  and_true,
}
use nas_platform.Common.Text.{Text, text_eq_refl}
use nas_platform.Deploy.Notices.{
  Files, transient_forgiveness_limit, next_count, may_retry_after_transient_failure,
}

-- Failures of one revision, one after the other: whether the file could be written and removed at
-- each, and whether all of them were forgiven.
abbrev pub all_forgiven : Text → List (Bool × Bool) → Files → Bool
all_forgiven sha [] files = true
all_forgiven sha ((writable, removable) ∷ more) files =
    let (forgiven, files') = may_retry_after_transient_failure writable removable sha files in
    forgiven && all_forgiven sha more files'

pub may_retry-transient :
    (sha : Text) (writable removable : Bool) (files : Files)
    → (may_retry_after_transient_failure writable removable sha files).0 ≡ true
    → ((may_retry_after_transient_failure writable removable sha files).1.transient
        ≡ some (sha, next_count files.transient sha))
      × (next_count files.transient sha ≤ transient_forgiveness_limit)
unfolding may_retry_after_transient_failure
may_retry-transient sha writable removable files h = (ground arith, ground arith)

next_count-same :
    (sha : Text) (count : ℕ) (o : Option (Text × ℕ))
    → o ≡ some (sha, count)
    → next_count o sha ≡ count + 1
unfolding next_count
next_count-same sha count o e = rw e (rw (text_eq_refl sha) refl)

next_count_pos : (o : Option (Text × ℕ)) (sha : Text) → 1 ≤ next_count o sha
unfolding next_count
next_count_pos none sha = omega arith
next_count_pos (some (recorded, count)) sha = ground arith

counted :
    (sha : Text) (more : List (Bool × Bool)) (count : ℕ) (files : Files)
    → files.transient ≡ some (sha, count)
    → count ≤ transient_forgiveness_limit
    → all_forgiven sha more files ≡ true
    → count + length more ≤ transient_forgiveness_limit
counted sha [] count files e small h = omega arith
counted sha ((writable, removable) ∷ more) count files e small h =
    let (here, later) = and_true _ _ h in
    let (kept, low) = may_retry-transient sha writable removable files here in
    let rest = counted sha more (next_count files.transient sha) _ kept low later in
    omega (arith, rest, next_count-same sha count files.transient e)

-- However many failures of one revision came before, no four in a row are forgiven.
pub all_forgiven-le :
    (sha : Text) (failures : List (Bool × Bool)) (files : Files)
    → all_forgiven sha failures files ≡ true
    → length failures ≤ transient_forgiveness_limit
all_forgiven-le sha [] files h = omega arith
all_forgiven-le sha ((writable, removable) ∷ more) files h =
    let (here, later) = and_true _ _ h in
    let (kept, low) = may_retry-transient sha writable removable files here in
    let rest = counted sha more (next_count files.transient sha) _ kept low later in
    omega (arith, rest, next_count_pos files.transient sha)
