-- ===== src/Restore/Backup/Newest.antt =====
-- services/immich/classify_restore.py: which dump `select_backup` chooses.
use nas_platform.Common.{
  ℕ, ◌≤◌, ◌<◌, true, false, some, List, [], ◌∷◌, ◌++◌, ◌≡◌, inl, inr, arith, select, ◌==◌,
  Option-cases, ==→eq,
}
use mathlib.Core.Path.{subst}
use nas_platform.Common.Sort.{All}
use nas_platform.Common.Selected.{select_first, select_none, All-map, All-split, All-both}
use nas_platform.Common.Text.{Text}
use nas_platform.Restore.Refusal.{ok, >>=-eq-ok, require}
use nas_platform.Restore.Tree.{opened}
use nas_platform.Restore.Backup.{
  Metadata, Dump, Expected, parse_backup_metadata, candidates, newest_timestamp, only_newest,
  newest_of, is_compatible, validate_backup, select_backup,
}

abbrev Candidate : Type 0
Candidate = Metadata × Text

newest_timestamp-le :
    (cs : List Candidate) (n : ℕ) → newest_timestamp cs ≤ n → All (λ c. c.0.timestamp ≤ n) cs
unfolding newest_timestamp
newest_timestamp-le [] n h = tt
newest_timestamp-le ((m, name) ∷ cs) n h = (omega arith, newest_timestamp-le cs n (omega arith))

only_newest-ok : (cs : List Candidate) (c : Candidate) → only_newest cs ≡ ok c → cs ≡ c ∷ []
unfolding only_newest
only_newest-ok [] c e = cc
only_newest-ok (one ∷ []) c e = cc
only_newest-ok (one ∷ other ∷ more) c e = cc

-- One candidate stands in a list, and all others are older.
abbrev pub IsNewest : Candidate → List Candidate → Type 0
IsNewest c cs =
    (before : List Candidate) × (after : List Candidate) × (cs ≡ before ++ c ∷ after)
    × All (λ other. other.0.timestamp < c.0.timestamp) before
    × All (λ other. other.0.timestamp < c.0.timestamp) after

older :
    (n : ℕ) (cs : List Candidate) (m : ℕ)
    → m ≡ n
    → All (λ c. c.0.timestamp ≤ n) cs
    → All (λ c. (c.0.timestamp == n) ≡ false) cs
    → All (λ c. c.0.timestamp < m) cs
older n cs m e le ne = All-map _ _ (λ c h. ground (arith, h.0, h.1)) cs (All-both _ _ cs le ne)

newest_of-IsNewest : (cs : List Candidate) (c : Candidate) → newest_of cs ≡ ok c → IsNewest c cs
unfolding newest_of
newest_of-IsNewest [] c e = absurd (cc)
newest_of-IsNewest (one ∷ more) c e =
    let cs = one ∷ more in
    let n = newest_timestamp cs in
    let p = λ (d : Candidate). d.0.timestamp == n in
    let (after, (before, split, none_before, here), rest) =
      select_first p cs c [] (only_newest-ok (select p cs) c e) in
    let bound = newest_timestamp-le cs n (omega arith) in
    let (b, _, a) =
      All-split (λ d. d.0.timestamp ≤ n) before after c
        (subst (All (λ d. d.0.timestamp ≤ n)) split bound) in
    let same = ==→eq c.0.timestamp n here in
    (
      before,
      after,
      split,
      older n before c.0.timestamp same b none_before,
      older n after c.0.timestamp same a (select_none p after rest),
    )

candidates-parse :
    (names : List Text) → All (λ c. parse_backup_metadata c.1 ≡ some c.0) (candidates names)
unfolding candidates
candidates-parse [] = tt
candidates-parse (name ∷ names) = elim (Option-cases (parse_backup_metadata name)) [
  | inl other_name ↦ rw (other_name, candidates) (candidates-parse names)
  | inr (m, parsed) ↦ rw (parsed, candidates) (parsed, candidates-parse names)
]

Chosen : Expected → List Text → (Text → Dump) → Text × ℕ → Type 0
Chosen expected names dump_of (name, mtime) =
    (m : Metadata) × (parse_backup_metadata name ≡ some m)
    × IsNewest (m, name) (candidates names)
    × (is_compatible expected m ≡ true)
    × (validate_backup expected.uid expected.gid (dump_of name) ≡ ok mtime)

-- A dump that is chosen is a well-named one that is newer than every other well-named one, is for
-- the expected version of Immich and of no newer major of Postgres, and passed the validation that
-- gives the time it was written.
pub select_backup-IsNewest :
    (expected : Expected) (names : List Text) (dump_of : Text → Dump) (name : Text) (mtime : ℕ)
    → select_backup expected (opened (some names)) dump_of ≡ ok (name, mtime)
    → (m : Metadata) × (parse_backup_metadata name ≡ some m)
      × IsNewest (m, name) (candidates names)
      × (is_compatible expected m ≡ true)
      × (validate_backup expected.uid expected.gid (dump_of name) ≡ ok mtime)
unfolding select_backup Chosen
select_backup-IsNewest expected names dump_of name mtime e =
    let (c, chosen, e') = >>=-eq-ok (newest_of (candidates names)) _ (name, mtime) e in
    let (_, fits, e'') = >>=-eq-ok (require (is_compatible expected c.0) _) _ (name, mtime) e' in
    let (t, valid, e3) =
      >>=-eq-ok (validate_backup expected.uid expected.gid (dump_of c.1)) _ (name, mtime) e'' in
    let newest = newest_of-IsNewest (candidates names) c chosen in
    let (_, named, _) =
      All-split (λ d. parse_backup_metadata d.1 ≡ some d.0) newest.0 newest.1 c
        (subst (All (λ d. parse_backup_metadata d.1 ≡ some d.0)) newest.2
          (candidates-parse names)) in
    subst (Chosen expected names dump_of) (cc e3) (c.0, named, newest, ground arith, valid)
