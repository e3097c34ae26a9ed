-- ===== src/Restore/Tree/Present.antt =====
-- services/immich/classify_restore.py: what `originals_present` says of the trees.
use nas_platform.Common.{Bool, true, false, ◌≡◌, refl, ◌↔◌, ◌⊎◌, inl, inr, arith}
use nas_platform.Restore.Refusal.{Result, ok, refuse}
use nas_platform.Restore.Tree.{
  Node, regular, folder, special, no_stat, Listing, unreadable, broken, end, entry,
  directory_has_regular_file, node_has_regular_file, Opened, opened, missing, failed, Branch,
  Originals, branch_present, originals_present,
}

unfoldable mutual
  -- Some regular file stands in the tree.
  pub HasRegular : Listing → Type 0
  HasRegular unreadable = ⊥
  HasRegular broken = ⊥
  HasRegular end = ⊥
  HasRegular (entry name node rest) = NodeHasRegular node ⊎ HasRegular rest

  pub NodeHasRegular : Node → Type 0
  NodeHasRegular regular = Unit
  NodeHasRegular (folder mtime listing) = HasRegular listing
  NodeHasRegular special = ⊥
  NodeHasRegular (no_stat is_dir) = ⊥

unfoldable mutual
  -- The tree was read to its end and has nothing but folders in it.
  pub OnlyFolders : Listing → Type 0
  OnlyFolders unreadable = ⊥
  OnlyFolders broken = ⊥
  OnlyFolders end = Unit
  OnlyFolders (entry name node rest) = NodeOnlyFolders node × OnlyFolders rest

  pub NodeOnlyFolders : Node → Type 0
  NodeOnlyFolders regular = ⊥
  NodeOnlyFolders (folder mtime listing) = OnlyFolders listing
  NodeOnlyFolders special = ⊥
  NodeOnlyFolders (no_stat is_dir) = ⊥

pub result_cases : (r : Result Bool) → (r ≡ ok true) ⊎ ((r ≡ ok false) ⊎ ((e : _) × (r ≡ refuse e)))
result_cases (ok true) = inl refl
result_cases (ok false) = inr (inl refl)
result_cases (refuse e) = inr (inr (e, refl))

mutual
  unfolding directory_has_regular_file HasRegular

  has-true : (l : Listing) → directory_has_regular_file l ≡ ok true → HasRegular l
  has-true unreadable e = cc
  has-true broken e = cc
  has-true end e = cc
  has-true (entry name node rest) e = elim (result_cases (node_has_regular_file node)) [
    | inl found ↦ inl (node-true node found)
    | inr (inl none_here) ↦ inr (has-true rest (ground arith))
    | inr (inr (r, refused)) ↦ absurd (ground arith)
  ]

  node-true : (n : Node) → node_has_regular_file n ≡ ok true → NodeHasRegular n
  node-true regular e = tt
  node-true (folder mtime listing) e = has-true listing e
  node-true special e = cc
  node-true (no_stat is_dir) e = cc

mutual
  unfolding directory_has_regular_file OnlyFolders

  has-false : (l : Listing) → directory_has_regular_file l ≡ ok false → OnlyFolders l
  has-false unreadable e = cc
  has-false broken e = cc
  has-false end e = tt
  has-false (entry name node rest) e = elim (result_cases (node_has_regular_file node)) [
    | inl found ↦ absurd (ground arith)
    | inr (inl none_here) ↦ (node-false node none_here, has-false rest (ground arith))
    | inr (inr (r, refused)) ↦ absurd (ground arith)
  ]

  node-false : (n : Node) → node_has_regular_file n ≡ ok false → NodeOnlyFolders n
  node-false regular e = cc
  node-false (folder mtime listing) e = has-false listing e
  node-false special e = cc
  node-false (no_stat is_dir) e = cc

mutual
  unfolding directory_has_regular_file OnlyFolders

  OnlyFolders-false : (l : Listing) → OnlyFolders l → directory_has_regular_file l ≡ ok false
  OnlyFolders-false unreadable h = absurd h
  OnlyFolders-false broken h = absurd h
  OnlyFolders-false end h = refl
  OnlyFolders-false (entry name node rest) h =
      rw (NodeOnlyFolders-false node h.0) (OnlyFolders-false rest h.1)

  NodeOnlyFolders-false : (n : Node) → NodeOnlyFolders n → node_has_regular_file n ≡ ok false
  NodeOnlyFolders-false regular h = absurd h
  NodeOnlyFolders-false (folder mtime listing) h = OnlyFolders-false listing h
  NodeOnlyFolders-false special h = absurd h
  NodeOnlyFolders-false (no_stat is_dir) h = absurd h

-- A tree of the originals that is missing, or that is read to its end and has only folders.
abbrev pub HasNoFile : Opened Branch → Type 0
HasNoFile missing = Unit
HasNoFile failed = ⊥
HasNoFile (opened branch) = OnlyFolders branch.listing

abbrev pub HasFile : Opened Branch → Type 0
HasFile missing = ⊥
HasFile failed = ⊥
HasFile (opened branch) = HasRegular branch.listing

branch-false :
    (b : Opened Branch) (later : Result Bool)
    → (branch_present b later ≡ ok false) ↔ (HasNoFile b × (later ≡ ok false))
unfolding branch_present
branch-false missing later = (λ e. (tt, e), λ h. h.1)
branch-false failed later = (λ e. absurd (ground arith), λ h. absurd (h.0))
branch-false (opened branch) later = (
  λ e. elim (result_cases (directory_has_regular_file branch.listing)) [
    | inl found ↦ absurd (ground arith)
    | inr (inl none_here) ↦ (has-false branch.listing none_here, ground arith)
    | inr (inr (r, refused)) ↦ absurd (ground arith)
  ],
  λ h. rw (OnlyFolders-false branch.listing h.0, branch_present) h.1,
)

branch-true :
    (b : Opened Branch) (later : Result Bool)
    → branch_present b later ≡ ok true
    → HasFile b ⊎ (HasNoFile b × (later ≡ ok true))
unfolding branch_present
branch-true missing later e = inr (tt, e)
branch-true failed later e = absurd (ground arith)
branch-true (opened branch) later e =
    elim (result_cases (directory_has_regular_file branch.listing)) [
      | inl found ↦ inl (has-true branch.listing found)
      | inr (inl none_here) ↦ inr (has-false branch.listing none_here, ground arith)
      | inr (inr (r, refused)) ↦ absurd (ground arith)
    ]

module _ (root : Originals) where
  -- No originals are reported exactly when each of the two trees is missing, or was read to its end
  -- and has nothing but folders in it; and originals are reported only where one of the trees has a
  -- regular file. A link, a special file or an entry that cannot be read is never passed over.
  pub originals_present-HasFile :
      ((originals_present (opened root) ≡ ok false)
        ↔ (HasNoFile root.upload × HasNoFile root.library))
      × (originals_present (opened root) ≡ ok true
          → HasFile root.upload ⊎ (HasNoFile root.upload × HasFile root.library))
  unfolding originals_present
  originals_present-HasFile =
      let up = branch-false root.upload (branch_present root.library (ok false)) in
      let lib = branch-false root.library (ok false) in
      (
        (λ e. ((up.0 e).0, (lib.0 (up.0 e).1).0), λ h. up.1 (h.0, lib.1 (h.1, refl))),
        λ e. elim (branch-true root.upload (branch_present root.library (ok false)) e) [
          | inl found ↦ inl found
          | inr (none_here, rest) ↦ inr (
            none_here,
            elim (branch-true root.library (ok false) rest) [
              | inl found ↦ found
              | inr (nothing, e') ↦ absurd (ground arith)
            ],
          )
        ],
      )
