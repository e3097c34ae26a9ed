-- ===== src/Restore/Examples.antt =====
-- services/immich/classify_restore.py on a site with an empty data directory, some originals and
-- two dumps.
use nas_platform.Common.{ℕ, true, false, none, some, List, [], ◌∷◌, ◌≡◌, ◌↔◌, ◌⊎◌, refl, arith}
use nas_platform.Common.Text.{Text, codes}
use nas_platform.Restore.Refusal.{ok}
use nas_platform.Restore.Tree.{
  regular, folder, end, entry, opened, missing, Branch, Originals, originals_present,
  originals_changed_since,
}
use nas_platform.Restore.Tree.Present.{HasFile, HasNoFile, originals_present-HasFile}
use nas_platform.Restore.Tree.Unchanged.{
  size, BranchIsUnchanged, originals_changed_since-IsUnchanged,
}
use nas_platform.Restore.Backup.{
  Metadata, Stat, decompressed, Dump, Expected, parse_backup_metadata, candidates, is_compatible,
  validate_backup, select_backup,
}
use nas_platform.Restore.Backup.Newest.{IsNewest, select_backup-IsNewest}
use nas_platform.Restore.Classify.{
  absent, denied, content, read_postgres_major, fresh, existing, Site, Document, classify,
}
use nas_platform.Restore.Classify.Decision.{classify-restore, classify-existing}

abbrev uploads : Branch
uploads = record {
  mtime = some 40;
  listing = entry (codes "a") (folder 50 (entry (codes "b.jpg") regular end)) end;
}

abbrev originals : Originals
originals = record { upload = opened uploads; library = missing }

abbrev stat : Stat
stat = record {
  is_regular = true;
  uid = 999;
  gid = 999;
  mode = 384;
  size = 20;
  device = 1;
  inode = 7;
  mtime = 60;
}

abbrev dump : Dump
dump = record { before = some stat; after = some stat; stream = decompressed 100 }

abbrev older_name : Text
older_name = codes "immich-db-backup-20260101T020000-v2.1.0-pg14.10.sql.gz"

abbrev newer_name : Text
newer_name = codes "immich-db-backup-20260102T020000-v2.1.0-pg14.10.sql.gz"

abbrev expected : Expected
expected = record { uid = 999; gid = 999; immich_version = codes "2.1.0"; postgres_major = 14 }

abbrev names : List Text
names = older_name ∷ codes "notes.txt" ∷ newer_name ∷ []

abbrev dumps : Text → Dump
dumps name = dump

abbrev site : Site
site = record {
  marker = absent;
  postgres = opened (some []);
  version = denied;
  originals = opened originals;
  backups = opened (some names);
  dump_of = dumps;
  expected = expected;
  entry_cap = 1000;
}

abbrev required : Document
required = record {
  database = fresh;
  originals_present = true;
  restore_required = true;
  backup_filename = some newer_name;
  unverified = false;
}

restored : classify site ≡ ok required
unfolding classify
restored = refl

chosen : select_backup expected (opened (some names)) dumps ≡ ok (newer_name, 60)
unfolding select_backup
chosen = refl

unchanged : originals_changed_since 1000 (opened originals) 60 ≡ ok false
unfolding originals_changed_since
unchanged = refl

-- A data directory with a cluster of the expected major.
abbrev running : Site
running = record site {
  postgres = opened (some (codes "PG_VERSION" ∷ []));
  version = content (codes "14\n");
}

abbrev kept : Document
kept = record {
  database = existing;
  originals_present = true;
  restore_required = false;
  backup_filename = none;
  unverified = false;
}

left_alone : classify running ≡ ok kept
unfolding classify
left_alone = refl

originals_present-HasFile_example :
    ((originals_present (opened originals) ≡ ok false)
      ↔ (HasNoFile originals.upload × HasNoFile originals.library))
    × (originals_present (opened originals) ≡ ok true
        → HasFile originals.upload ⊎ (HasNoFile originals.upload × HasFile originals.library))
originals_present-HasFile_example = originals_present-HasFile originals

originals_changed_since-IsUnchanged_example :
    BranchIsUnchanged 60 originals.upload × BranchIsUnchanged 60 originals.library
originals_changed_since-IsUnchanged_example =
    originals_changed_since-IsUnchanged 1000 60 originals (unfold size in omega arith) unchanged

select_backup-IsNewest_example :
    (m : Metadata) × (parse_backup_metadata newer_name ≡ some m)
    × IsNewest (m, newer_name) (candidates names)
    × (is_compatible expected m ≡ true)
    × (validate_backup expected.uid expected.gid (dumps newer_name) ≡ ok 60)
select_backup-IsNewest_example = select_backup-IsNewest expected names dumps newer_name 60 chosen

classify-restore_example :
    ((required.restore_required ≡ false) × (required.backup_filename ≡ none))
    ⊎ ((required.restore_required ≡ true)
        × (site.marker ≡ absent)
        × (required.database ≡ fresh)
        × (originals_present site.originals ≡ ok true)
        × (name : Text) × (mtime : ℕ) × (required.backup_filename ≡ some name)
        × (select_backup site.expected site.backups site.dump_of ≡ ok (name, mtime))
        × (originals_changed_since site.entry_cap site.originals mtime ≡ ok false))
classify-restore_example = classify-restore site required restored

classify-existing_example :
    (kept.restore_required ≡ false)
    × (kept.backup_filename ≡ none)
    × (kept.database ≡ existing)
    × (kept.unverified ≡ false
        → read_postgres_major running.version ≡ ok (some running.expected.postgres_major))
classify-existing_example = classify-existing running (codes "PG_VERSION") [] kept refl left_alone
