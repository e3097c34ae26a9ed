-- ===== src/Restore/Classify/Decision.antt =====
-- services/immich/classify_restore.py: when `classify` asks for a restore.
use nas_platform.Common.{
  ℕ, Bool, true, false, not, ◌&&◌, if◌then◌else◌, Option, none, some, List, ◌∷◌, ◌≡◌, refl, ◌⊎◌,
  inl, inr, arith,
}
use nas_platform.Common.Text.{Text}
use nas_platform.Restore.Refusal.{Result, ok, >>=-eq-ok, require}
use nas_platform.Restore.Tree.{opened, originals_present, originals_changed_since}
use nas_platform.Restore.Backup.{select_backup}
use nas_platform.Restore.Classify.{
  Marker, absent, unreachable, no_stat, irregular, present, marker_present, read_postgres_major,
  Database, fresh, existing, classify_database, Site, Document, restore_from, classify, is_fresh,
}

marker-absent : (m : Marker) → marker_present m ≡ ok false → m ≡ absent
unfolding marker_present
marker-absent absent e = refl
marker-absent unreachable e = cc
marker-absent no_stat e = cc
marker-absent irregular e = cc
marker-absent present e = cc

restore_from-ok :
    (site : Site) (backup : Option Text)
    → restore_from site ≡ ok backup
    → (name : Text) × (mtime : ℕ) × (backup ≡ some name)
      × (select_backup site.expected site.backups site.dump_of ≡ ok (name, mtime))
      × (originals_changed_since site.entry_cap site.originals mtime ≡ ok false)
unfolding restore_from
restore_from-ok site backup e =
    let (c, selected, e1) =
      >>=-eq-ok (select_backup site.expected site.backups site.dump_of) _ backup e in
    let (changed, scanned, e2) =
      >>=-eq-ok (originals_changed_since site.entry_cap site.originals c.1) _ backup e1 in
    let (_, unchanged, e3) = >>=-eq-ok (require (not changed) _) _ backup e2 in
    (c.0, c.1, ground arith, selected, ground arith)

abbrev backup_for : Site → Database → Bool → Result (Option Text)
backup_for site database found = if is_fresh database && found then restore_from site else ok none

backup_for-ok :
    (site : Site) (database : Database) (found : Bool) (backup : Option Text)
    → backup_for site database found ≡ ok backup
    → (((is_fresh database && found) ≡ false) × (backup ≡ none))
      ⊎ ((database ≡ fresh)
          × (found ≡ true)
          × ((name : Text) × (mtime : ℕ) × (backup ≡ some name)
              × (select_backup site.expected site.backups site.dump_of ≡ ok (name, mtime))
              × (originals_changed_since site.entry_cap site.originals mtime ≡ ok false)))
backup_for-ok site fresh true backup e = inr (refl, refl, restore_from-ok site backup e)
backup_for-ok site fresh false backup e = inl (refl, ground arith)
backup_for-ok site existing found backup e = inl (refl, ground arith)

module _ (site : Site) where
  -- A restore is asked for exactly together with a dump, and only where there is no failure marker,
  -- the database is fresh, originals were found, the dump is the one that is selected, and no
  -- originals were found to have changed after it.
  pub classify-restore :
      (d : Document)
      → classify site ≡ ok d
      → ((d.restore_required ≡ false) × (d.backup_filename ≡ none))
        ⊎ ((d.restore_required ≡ true)
            × (site.marker ≡ absent)
            × (d.database ≡ fresh)
            × (originals_present site.originals ≡ ok true)
            × (name : Text) × (mtime : ℕ) × (d.backup_filename ≡ some name)
            × (select_backup site.expected site.backups site.dump_of ≡ ok (name, mtime))
            × (originals_changed_since site.entry_cap site.originals mtime ≡ ok false))
  unfolding classify
  classify-restore d e =
      let (marked, at_marker, e1) = >>=-eq-ok (marker_present site.marker) _ d e in
      let (_, unmarked, e2) = >>=-eq-ok (require (not marked) _) _ d e1 in
      let (seen, at_database, e3) =
        >>=-eq-ok (classify_database site.postgres site.version site.expected.postgres_major) _ d
          e2 in
      let (found, at_originals, e4) = >>=-eq-ok (originals_present site.originals) _ d e3 in
      let (backup, at_backup, e5) = >>=-eq-ok (backup_for site seen.0 found) _ d e4 in
      elim (backup_for-ok site seen.0 found backup at_backup) [
        | inl (idle, nothing) ↦ inl (ground arith, ground arith)
        | inr (is_new, some_found, (name, mtime, named, selected, unchanged)) ↦ inr (
          ground arith,
          marker-absent site.marker (ground arith),
          ground arith,
          ground arith,
          name,
          mtime,
          ground arith,
          selected,
          unchanged,
        )
      ]

  -- A data directory that is not empty is never restored over, and it is accepted without a warning
  -- only where its recorded major is the expected one.
  pub classify-existing :
      (name : Text) (names : List Text) (d : Document)
      → site.postgres ≡ opened (some (name ∷ names))
      → classify site ≡ ok d
      → (d.restore_required ≡ false)
        × (d.backup_filename ≡ none)
        × (d.database ≡ existing)
        × (d.unverified ≡ false
            → read_postgres_major site.version ≡ ok (some site.expected.postgres_major))
  unfolding classify classify_database
  classify-existing name names d p e = (ground arith, ground arith, ground arith, λ q. ground arith)
