-- ===== src/Restore/Backup.antt =====
-- services/immich/classify_restore.py: `parse_backup_metadata`, `validate_backup`, `select_backup`.
-- The names of the backup directory are ASCII, where `\d` is a digit from 0 to 9.
pub mod Newest
use Prim.Native.Nat.{max}
use nas_platform.Common.{
  ℕ, ◌+◌, ◌-◌, ◌*◌, ◌/◌, ◌%◌, Bool, true, false, ◌&&◌, ◌||◌, not, Option, none, some, List, [], ◌∷◌,
  ◌++◌, ltb, leb, ◌==◌, if◌then◌else◌, length, all, select, take, drop,
}
use nas_platform.Common.Text.{Text, codes, text_eq, is_digit, decimal}
use nas_platform.Common.Words.{split_at, after_prefix, span}
use nas_platform.Relay.Clock.{is_calendar, field, fits_mask}
use nas_platform.Restore.Refusal.{
  Result, ok, refuse, ◌>>=◌, ◌>>◌, require, missing_safe_backup, ambiguous_newest_backup,
  incompatible_newest_backup, unsafe_newest_backup, crashed,
}
use nas_platform.Restore.Tree.{Opened, opened, missing, failed}

-- A match of the pattern; a `datetime` is the number of its fourteen digits, which orders alike.
pub record Metadata : Type 0 where
  pub timestamp : ℕ
  pub immich_version : Text
  pub postgres_version : Text

-- [0-9]+(?:\.[0-9]+)*
unfoldable pub is_version : Text → Bool
unfolding split_at all is_digit
is_version s = all (λ part. leb 1 (length part) && all is_digit part) (split_at b'.' s)

abbrev is_version_character : ℕ → Bool
is_version_character c = is_digit c || c == b'.'

-- datetime.strptime(…, "%Y%m%dT%H%M%S")
unfoldable pub parse_compact : Text → Option ℕ
unfolding is_calendar field decimal
parse_compact s =
    if is_calendar (field 0 4 s) (field 4 2 s) (field 6 2 s) (field 9 2 s) (field 11 2 s)
      (field 13 2 s)
    then some (field 0 8 s * 1000000 + field 9 6 s)
    else none

abbrev or_none : Bool → Option Metadata → Option Metadata
or_none b o = if b then o else none

-- What follows "-pg" in the name: the version and the suffix.
unfoldable pub with_postgres : ℕ → Text → Text → Option Metadata
unfolding is_version text_eq
with_postgres timestamp immich s =
    let n = length s - 7 in
    or_none (leb 7 (length s) && text_eq (drop n s) (codes ".sql.gz") && is_version (take n s)) (
      some (record { timestamp = timestamp; immich_version = immich; postgres_version = take n s }))

-- What follows the time.
unfoldable pub with_versions : ℕ → Text → Option Metadata
unfolding is_version after_prefix span with_postgres is_digit
with_versions timestamp s = elim (after_prefix s (codes "-v")) [
  | none ↦ none
  | some t ↦
      let (immich, rest) = span is_version_character t in
      elim (after_prefix rest (codes "-pg")) [
        | none ↦ none
        | some u ↦ or_none (is_version immich) (with_postgres timestamp immich u)
      ]
]

unfoldable pub parse_backup_metadata : Text → Option Metadata
unfolding after_prefix fits_mask parse_compact with_versions
parse_backup_metadata name = elim (after_prefix name (codes "immich-db-backup-")) [
  | none ↦ none
  | some s ↦
      if fits_mask (codes "99999999T999999") (take 15 s)
      then elim (parse_compact (take 15 s)) [
        | none ↦ none
        | some timestamp ↦ with_versions timestamp (drop 15 s)
      ]
      else none
]

-- The fields of `os.stat` that the code reads.
pub record Stat : Type 0 where
  pub is_regular : Bool
  pub uid : ℕ
  pub gid : ℕ
  pub mode : ℕ
  pub size : ℕ
  pub device : ℕ
  pub inode : ℕ
  pub mtime : ℕ

-- What reading the stream to its end gives: its decompressed size, an EOFError, an OSError or a
-- BadGzipFile, or another exception.
pub data Stream : Type 0 where
  decompressed : ℕ → Stream
  bad_stream : Stream
  other_error : Stream

-- A dump: its `stat` by name, the `fstat` of the descriptor (`none` where a call fails), and the
-- stream.
pub record Dump : Type 0 where
  pub before : Option Stat
  pub after : Option Stat
  pub stream : Stream

-- mode & 0o022
abbrev is_writable_by_others : ℕ → Bool
is_writable_by_others mode = mode / 16 % 2 == 1 || mode / 2 % 2 == 1

unfoldable pub is_safe : ℕ → ℕ → Stat → Bool
is_safe expected_uid expected_gid stat =
    stat.is_regular
    && stat.uid == expected_uid
    && stat.gid == expected_gid
    && not (is_writable_by_others stat.mode)
    && not (stat.size == 0)

abbrev is_same_file : Stat → Stat → Bool
is_same_file a b = a.device == b.device && a.inode == b.inode

-- The part of `validate_backup` with the descriptor open; the result is the time of the dump.
unfoldable pub read_dump : Stat → Stat → Stream → Result ℕ
read_dump before after stream =
    if is_same_file before after
    then elim stream [
      | decompressed n ↦ if n == 0 then refuse unsafe_newest_backup else ok after.mtime
      | bad_stream ↦ refuse unsafe_newest_backup
      | other_error ↦ refuse crashed
    ]
    else refuse unsafe_newest_backup

unfoldable pub validate_backup : ℕ → ℕ → Dump → Result ℕ
unfolding is_safe read_dump
validate_backup expected_uid expected_gid dump = elim dump.before [
  | none ↦ refuse unsafe_newest_backup
  | some before ↦
      if is_safe expected_uid expected_gid before
      then elim dump.after [
        | none ↦ refuse unsafe_newest_backup
        | some after ↦ read_dump before after dump.stream
      ]
      else refuse unsafe_newest_backup
]

-- The candidates of a listing, in its order.
unfoldable pub candidates : List Text → List (Metadata × Text)
unfolding parse_backup_metadata
candidates [] = []
candidates (name ∷ names) =
    let rest = candidates names in
    elim (parse_backup_metadata name) [ none ↦ rest | some m ↦ (m, name) ∷ rest ]

-- max(metadata[0] for metadata, _ in candidates)
unfoldable pub newest_timestamp : List (Metadata × Text) → ℕ
newest_timestamp [] = 0
newest_timestamp ((m, name) ∷ rest) = max m.timestamp (newest_timestamp rest)

-- What the role expects of the dump.
pub record Expected : Type 0 where
  pub uid : ℕ
  pub gid : ℕ
  pub immich_version : Text
  pub postgres_major : ℕ

-- int(postgres_version.split(".", 1)[0])
abbrev major_of : List Text → ℕ
major_of [] = 0
major_of (part ∷ parts) = decimal 0 part

unfoldable pub is_compatible : Expected → Metadata → Bool
unfolding split_at decimal text_eq
is_compatible expected m =
    text_eq m.immich_version expected.immich_version
    && leb (major_of (split_at b'.' m.postgres_version)) expected.postgres_major

-- The newest candidates, of which there may be one only.
unfoldable pub only_newest : List (Metadata × Text) → Result (Metadata × Text)
only_newest [] = refuse ambiguous_newest_backup
only_newest (one ∷ []) = ok one
only_newest (one ∷ other ∷ more) = refuse ambiguous_newest_backup

unfoldable pub newest_of : List (Metadata × Text) → Result (Metadata × Text)
unfolding newest_timestamp only_newest select
newest_of [] = refuse missing_safe_backup
newest_of (one ∷ more) =
    only_newest (select (λ c. c.0.timestamp == newest_timestamp (one ∷ more)) (one ∷ more))

-- select_backup; the listing is `none` where os.listdir fails, `dump_of` what stands under a name.
unfoldable pub select_backup :
    Expected → Opened (Option (List Text)) → (Text → Dump) → Result (Text × ℕ)
unfolding candidates newest_of is_compatible validate_backup
select_backup expected missing dump_of = refuse missing_safe_backup
select_backup expected failed dump_of = refuse missing_safe_backup
select_backup expected (opened none) dump_of = refuse missing_safe_backup
select_backup expected (opened (some names)) dump_of = do
  (m, name) ← newest_of (candidates names)
  require (is_compatible expected m) incompatible_newest_backup
  mtime ← validate_backup expected.uid expected.gid (dump_of name)
  ok (name, mtime)
