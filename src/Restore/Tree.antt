-- ===== src/Restore/Tree.antt =====
-- services/immich/classify_restore.py: the scans of the originals, on a tree of what the calls of
-- the operating system find. Descriptors are opened and closed in pairs and are left out.
pub mod Present
pub mod Unchanged
use nas_platform.Common.{ℕ, suc, Bool, true, false, Option, none, some, ltb, if◌then◌else◌}
use nas_platform.Common.Text.{Text}
use nas_platform.Restore.Refusal.{Result, ok, refuse, ◌>>=◌, unsafe_originals, crashed}

mutual
  -- An entry as `stat` without following links finds it. A folder has its modification time.
  pub data Node : Type 0 where
    regular : Node
    folder : ℕ → Listing → Node
    -- a symbolic link or a special file
    special : Node
    -- `stat` fails; the flag is what `is_dir` says all the same
    no_stat : Bool → Node

  -- What opening and scanning a directory gives.
  pub data Listing : Type 0 where
    -- the directory cannot be opened, or not be scanned
    unreadable : Listing
    -- the scan fails on its way
    broken : Listing
    end : Listing
    entry : Text → Node → Listing → Listing

-- directory_has_regular_file
unfoldable mutual
  pub directory_has_regular_file : Listing → Result Bool
  directory_has_regular_file unreadable = refuse unsafe_originals
  directory_has_regular_file broken = refuse crashed
  directory_has_regular_file end = ok false
  directory_has_regular_file (entry name node rest) = elim (node_has_regular_file node) [
    | refuse e ↦ refuse e
    | ok true ↦ ok true
    | ok false ↦ directory_has_regular_file rest
  ]

  pub node_has_regular_file : Node → Result Bool
  node_has_regular_file regular = ok true
  node_has_regular_file (folder mtime listing) = directory_has_regular_file listing
  node_has_regular_file special = refuse unsafe_originals
  node_has_regular_file (no_stat is_dir) = refuse unsafe_originals

-- What opening a directory by its name gives.
pub data Opened (A : Type 0) : Type 0 where
  opened : A → Opened A
  missing : Opened A
  failed : Opened A

-- `upload` or `library`, with the modification time of its descriptor (`none` where fstat fails).
pub record Branch : Type 0 where
  pub mtime : Option ℕ
  pub listing : Listing

pub record Originals : Type 0 where
  pub upload : Opened Branch
  pub library : Opened Branch

-- One round of the loop over the two trees; `later` is what the rest of the loop gives.
unfoldable pub branch_present : Opened Branch → Result Bool → Result Bool
unfolding directory_has_regular_file
branch_present missing later = later
branch_present failed later = refuse unsafe_originals
branch_present (opened branch) later = elim (directory_has_regular_file branch.listing) [
  | refuse e ↦ refuse e
  | ok true ↦ ok true
  | ok false ↦ later
]

unfoldable pub originals_present : Opened Originals → Result Bool
unfolding branch_present
originals_present missing = ok false
originals_present failed = refuse unsafe_originals
originals_present (opened root) =
    branch_present root.upload (branch_present root.library (ok false))

-- What the loop over one directory's own entries comes to: a folder that changed, more entries
-- than the cap, or the number of entries scanned so far.
pub data Level : Type 0 where
  changed : Level
  capped : ℕ → Level
  scanned : ℕ → Level
  stopped : Level

-- The first loop of `changed_below`, on `scanned` entries so far.
unfoldable pub scan_level : ℕ → ℕ → Listing → ℕ → Level
scan_level cap dump_mtime unreadable n = stopped
scan_level cap dump_mtime broken n = stopped
scan_level cap dump_mtime end n = scanned n
scan_level cap dump_mtime (entry name node rest) n =
    let later = scan_level cap dump_mtime rest (suc n) in
    if ltb cap (suc n) then capped (suc n) else elim node [
      | regular ↦ later
      | special ↦ later
      | no_stat true ↦ stopped
      | no_stat false ↦ later
      | folder mtime listing ↦ if ltb dump_mtime mtime then changed else later
    ]

-- The second loop of `changed_below`: the folders of a directory, each scanned before it is entered.
-- The number is `scanned` when the call is over.
unfoldable mutual
  unfolding scan_level

  pub folders_changed : ℕ → ℕ → Listing → ℕ → Result (Bool × ℕ)
  folders_changed cap dump_mtime unreadable n = ok (false, n)
  folders_changed cap dump_mtime broken n = ok (false, n)
  folders_changed cap dump_mtime end n = ok (false, n)
  folders_changed cap dump_mtime (entry name node rest) n =
      elim (node_changed cap dump_mtime node n) [
        | refuse e ↦ refuse e
        | ok (true, m) ↦ ok (true, m)
        | ok (false, m) ↦ folders_changed cap dump_mtime rest m
      ]

  pub node_changed : ℕ → ℕ → Node → ℕ → Result (Bool × ℕ)
  node_changed cap dump_mtime regular n = ok (false, n)
  node_changed cap dump_mtime special n = ok (false, n)
  node_changed cap dump_mtime (no_stat is_dir) n = ok (false, n)
  node_changed cap dump_mtime (folder mtime listing) n =
      if ltb cap n then ok (false, n) else elim (scan_level cap dump_mtime listing n) [
        | changed ↦ ok (true, n)
        | capped m ↦ ok (false, m)
        | stopped ↦ refuse unsafe_originals
        | scanned m ↦ folders_changed cap dump_mtime listing m
      ]

-- changed_below
unfoldable pub changed_below : ℕ → ℕ → Listing → ℕ → Result (Bool × ℕ)
unfolding scan_level folders_changed
changed_below cap dump_mtime listing n = elim (scan_level cap dump_mtime listing n) [
  | changed ↦ ok (true, n)
  | capped m ↦ ok (false, m)
  | stopped ↦ refuse unsafe_originals
  | scanned m ↦ folders_changed cap dump_mtime listing m
]

-- The loop of `originals_changed_since` that opens a tree and reads its own time.
unfoldable pub branch_changed : ℕ → Opened Branch → Result Bool → Result Bool
branch_changed dump_mtime missing later = later
branch_changed dump_mtime failed later = refuse unsafe_originals
branch_changed dump_mtime (opened branch) later = elim branch.mtime [
  | none ↦ refuse unsafe_originals
  | some mtime ↦ if ltb dump_mtime mtime then ok true else later
]

abbrev pub listing_of : Opened Branch → Listing
listing_of missing = end
listing_of failed = end
listing_of (opened branch) = branch.listing

-- any(changed_below(tree_fd) for tree_fd in trees): a tree that is not there has no entry
unfoldable pub trees_changed : ℕ → ℕ → Originals → Result Bool
unfolding changed_below
trees_changed cap dump_mtime root = elim (changed_below cap dump_mtime (listing_of root.upload) 0) [
  | refuse e ↦ refuse e
  | ok (true, n) ↦ ok true
  | ok (false, n) ↦ elim (changed_below cap dump_mtime (listing_of root.library) n) [
    | refuse e ↦ refuse e
    | ok (found, m) ↦ ok found
  ]
]

-- originals_changed_since, on the root as the presence scan opened it
unfoldable pub originals_changed_since : ℕ → Opened Originals → ℕ → Result Bool
unfolding branch_changed trees_changed
originals_changed_since cap missing dump_mtime = refuse unsafe_originals
originals_changed_since cap failed dump_mtime = refuse unsafe_originals
originals_changed_since cap (opened root) dump_mtime =
    elim (branch_changed dump_mtime root.upload
      (branch_changed dump_mtime root.library (ok false))) [
        | refuse e ↦ refuse e
        | ok true ↦ ok true
        | ok false ↦ trees_changed cap dump_mtime root
      ]

-- STALE_SCAN_ENTRY_CAP
abbrev pub stale_scan_entry_cap : ℕ
stale_scan_entry_cap = 1000000
