-- ===== src/Restore/Classify.antt =====
-- services/immich/classify_restore.py: `classify`, from what the calls of the operating system find.
pub mod Decision
use nas_platform.Common.{
  ℕ, Bool, true, false, ◌&&◌, not, Option, none, some, List, [], ◌∷◌, ltb, leb, ◌==◌, if◌then◌else◌,
  length, all,
}
use nas_platform.Common.Text.{Text, is_digit, decimal}
use nas_platform.Restore.Refusal.{
  Result, ok, refuse, ◌>>=◌, ◌>>◌, require, unsafe_storage, unreadable_postgres_version,
  postgres_major_mismatch, previous_failed_restore, stale_newest_backup,
}
use nas_platform.Restore.Tree.{
  Opened, opened, missing, failed, Originals, originals_present, originals_changed_since,
}
use nas_platform.Restore.Backup.{Dump, Expected, select_backup}

-- The failure marker, by its `stat` in its own directory. `unreachable` is a path that is not
-- absolute or has "..", and a directory that cannot be opened.
pub data Marker : Type 0 where
  absent unreachable no_stat irregular present : Marker

unfoldable pub marker_present : Marker → Result Bool
marker_present absent = ok false
marker_present unreachable = refuse unsafe_storage
marker_present no_stat = refuse unsafe_storage
marker_present irregular = refuse unsafe_storage
marker_present present = ok true

-- PG_VERSION: opening it is denied or fails otherwise; it is no regular file; reading it fails; or
-- its first 64 bytes.
pub data VersionFile : Type 0 where
  denied unopened odd unread : VersionFile
  content : Text → VersionFile

-- content without the one "\n" that may end it
unfoldable pub without_newline : Text → Text
without_newline [] = []
without_newline (c ∷ []) = if c == 0x0a then [] else c ∷ []
without_newline (c ∷ d ∷ s) = c ∷ without_newline (d ∷ s)

-- `none` stands for a version that could not be verified.
unfoldable pub read_postgres_major : VersionFile → Result (Option ℕ)
unfolding without_newline all is_digit decimal
read_postgres_major denied = ok none
read_postgres_major unopened = refuse unreadable_postgres_version
read_postgres_major odd = refuse unreadable_postgres_version
read_postgres_major unread = refuse unreadable_postgres_version
read_postgres_major (content s) =
    let digits = without_newline s in
    if leb 1 (length digits) && all is_digit digits
    then ok (some (decimal 0 digits))
    else refuse unreadable_postgres_version

pub data Database : Type 0 where
  fresh existing : Database

-- The result with whether the warning "postgres-version-unverified" was appended.
unfoldable pub classify_database :
    Opened (Option (List Text)) → VersionFile → ℕ → Result (Database × Bool)
unfolding read_postgres_major
classify_database missing version expected = ok (fresh, false)
classify_database failed version expected = refuse unsafe_storage
classify_database (opened none) version expected = refuse unsafe_storage
classify_database (opened (some [])) version expected = ok (fresh, false)
classify_database (opened (some (name ∷ names))) version expected =
    elim (read_postgres_major version) [
      | refuse e ↦ refuse e
      | ok none ↦ ok (existing, true)
      | ok (some major) ↦
          if major == expected then ok (existing, false) else refuse postgres_major_mismatch
    ]

-- Everything that one run finds.
pub record Site : Type 0 where
  pub marker : Marker
  pub postgres : Opened (Option (List Text))
  pub version : VersionFile
  pub originals : Opened Originals
  pub backups : Opened (Option (List Text))
  pub dump_of : Text → Dump
  pub expected : Expected
  pub entry_cap : ℕ

-- The JSON document that a run prints, with the warning.
pub record Document : Type 0 where
  pub database : Database
  pub originals_present : Bool
  pub restore_required : Bool
  pub backup_filename : Option Text
  pub unverified : Bool

abbrev pub is_fresh : Database → Bool
is_fresh fresh = true
is_fresh existing = false

-- The dump of a required restore: chosen, safe, and not older than the originals.
unfoldable pub restore_from : Site → Result (Option Text)
unfolding select_backup originals_changed_since
restore_from site = do
  (name, mtime) ← select_backup site.expected site.backups site.dump_of
  changed ← originals_changed_since site.entry_cap site.originals mtime
  require (not changed) stale_newest_backup
  ok (some name)

unfoldable pub classify : Site → Result Document
unfolding marker_present classify_database originals_present restore_from
classify site = do
  marked ← marker_present site.marker
  require (not marked) previous_failed_restore
  (database, unverified) ← classify_database site.postgres site.version site.expected.postgres_major
  found ← originals_present site.originals
  backup ← (if is_fresh database && found then restore_from site else ok none)
  ok (record {
    database = database;
    originals_present = found;
    restore_required = is_fresh database && found;
    backup_filename = backup;
    unverified = unverified;
  })
