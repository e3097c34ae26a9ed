-- ===== src/Restore/Tree/Unchanged.antt =====
-- services/immich/classify_restore.py: what `originals_changed_since` says of the folders' times.
use nas_platform.Common.{
  ℕ, suc, ◌+◌, ◌≤◌, Bool, true, false, some, ◌≡◌, refl, ◌⊎◌, inl, inr, arith, Option-cases,
}
use nas_platform.Restore.Refusal.{Result, ok, refuse}
use nas_platform.Restore.Tree.Present.{result_cases}
use nas_platform.Restore.Tree.{
  Node, regular, folder, special, no_stat, Listing, unreadable, broken, end, entry, Opened, opened,
  missing, failed, Branch, Originals, Level, changed, capped, scanned, stopped, scan_level,
  folders_changed, node_changed, changed_below, branch_changed, listing_of, trees_changed,
  originals_changed_since,
}

unfoldable mutual
  -- The entries of a tree.
  pub size : Listing → ℕ
  size unreadable = 0
  size broken = 0
  size end = 0
  size (entry name node rest) = suc (node_size node + size rest)

  pub node_size : Node → ℕ
  node_size regular = 0
  node_size (folder mtime listing) = size listing
  node_size special = 0
  node_size (no_stat is_dir) = 0

-- The entries of one directory.
width : Listing → ℕ
width unreadable = 0
width broken = 0
width end = 0
width (entry name node rest) = suc (width rest)

-- The entries below the folders of a directory.
below : Listing → ℕ
below unreadable = 0
below broken = 0
below end = 0
below (entry name node rest) = node_size node + below rest

size-width : (l : Listing) → size l ≡ width l + below l
unfolding size width below
size-width unreadable = refl
size-width broken = refl
size-width end = refl
size-width (entry name node rest) = omega (arith, size-width rest)

unfoldable mutual
  -- No folder of a tree was modified after a time.
  pub IsUnchanged : ℕ → Listing → Type 0
  IsUnchanged time unreadable = ⊥
  IsUnchanged time broken = ⊥
  IsUnchanged time end = Unit
  IsUnchanged time (entry name node rest) = NodeIsUnchanged time node × IsUnchanged time rest

  pub NodeIsUnchanged : ℕ → Node → Type 0
  NodeIsUnchanged time regular = Unit
  NodeIsUnchanged time (folder mtime listing) = (mtime ≤ time) × IsUnchanged time listing
  NodeIsUnchanged time special = Unit
  NodeIsUnchanged time (no_stat is_dir) = is_dir ≡ false

-- The same of a directory's own folders only.
LevelIsUnchanged : ℕ → Listing → Type 0
LevelIsUnchanged time unreadable = ⊥
LevelIsUnchanged time broken = ⊥
LevelIsUnchanged time end = Unit
LevelIsUnchanged time (entry name (folder mtime listing) rest) =
    (mtime ≤ time) × LevelIsUnchanged time rest
LevelIsUnchanged time (entry name regular rest) = LevelIsUnchanged time rest
LevelIsUnchanged time (entry name special rest) = LevelIsUnchanged time rest
LevelIsUnchanged time (entry name (no_stat is_dir) rest) =
    (is_dir ≡ false) × LevelIsUnchanged time rest

module _ (cap time : ℕ) where
  -- With room below the cap, the first loop goes to the end or tells that it found something.
  scan_level-capped :
      (l : Listing) (n m : ℕ) → n + width l ≤ cap → scan_level cap time l n ≡ capped m → ⊥
  unfolding scan_level width
  scan_level-capped unreadable n m room e = cc
  scan_level-capped broken n m room e = cc
  scan_level-capped end n m room e = cc
  scan_level-capped (entry name regular rest) n m room e =
      ground (arith, scan_level-capped rest (suc n) m)
  scan_level-capped (entry name special rest) n m room e =
      ground (arith, scan_level-capped rest (suc n) m)
  scan_level-capped (entry name (no_stat true) rest) n m room e = ground arith
  scan_level-capped (entry name (no_stat false) rest) n m room e =
      ground (arith, scan_level-capped rest (suc n) m)
  scan_level-capped (entry name (folder mtime listing) rest) n m room e =
      ground (arith, scan_level-capped rest (suc n) m)

  scan_level-scanned :
      (l : Listing) (n m : ℕ)
      → scan_level cap time l n ≡ scanned m
      → LevelIsUnchanged time l × (m ≡ n + width l)
  unfolding scan_level width LevelIsUnchanged
  scan_level-scanned unreadable n m e = absurd (cc)
  scan_level-scanned broken n m e = absurd (cc)
  scan_level-scanned end n m e = (tt, ground arith)
  scan_level-scanned (entry name regular rest) n m e =
      let (h, k) = scan_level-scanned rest (suc n) m (ground arith) in (h, omega (arith, k))
  scan_level-scanned (entry name special rest) n m e =
      let (h, k) = scan_level-scanned rest (suc n) m (ground arith) in (h, omega (arith, k))
  scan_level-scanned (entry name (no_stat true) rest) n m e = absurd (ground arith)
  scan_level-scanned (entry name (no_stat false) rest) n m e =
      let (h, k) = scan_level-scanned rest (suc n) m (ground arith) in ((refl, h), omega (arith, k))
  scan_level-scanned (entry name (folder mtime listing) rest) n m e =
      let (h, k) = scan_level-scanned rest (suc n) m (ground arith) in
      ((ground arith, h), omega (arith, k))

scan_cases :
    (r : Result (Bool × ℕ))
    → ((m : ℕ) × (r ≡ ok (true, m)))
      ⊎ (((m : ℕ) × (r ≡ ok (false, m))) ⊎ ((e : _) × (r ≡ refuse e)))
scan_cases (ok (true, m)) = inl (m, refl)
scan_cases (ok (false, m)) = inr (inl (m, refl))
scan_cases (refuse e) = inr (inr (e, refl))

level_cases :
    (l : Level)
    → (l ≡ changed) ⊎ (((m : ℕ) × (l ≡ capped m)) ⊎ ((l ≡ stopped) ⊎ ((m : ℕ) × (l ≡ scanned m))))
level_cases changed = inl refl
level_cases (capped m) = inr (inl (m, refl))
level_cases stopped = inr (inr (inl refl))
level_cases (scanned m) = inr (inr (inr (m, refl)))

-- What is below a node.
InnerIsUnchanged : ℕ → Node → Type 0
InnerIsUnchanged time regular = Unit
InnerIsUnchanged time (folder mtime listing) = IsUnchanged time listing
InnerIsUnchanged time special = Unit
InnerIsUnchanged time (no_stat is_dir) = Unit

join_level :
    (time : ℕ) (name : _) (node : Node) (rest : Listing)
    → LevelIsUnchanged time (entry name node rest)
    → InnerIsUnchanged time node
    → NodeIsUnchanged time node × LevelIsUnchanged time rest
unfolding LevelIsUnchanged InnerIsUnchanged IsUnchanged
join_level time name regular rest h i = (tt, h)
join_level time name (folder mtime listing) rest h i = ((h.0, i), h.1)
join_level time name special rest h i = (tt, h)
join_level time name (no_stat is_dir) rest h i = (h.0, h.1)

rest_level :
    (time : ℕ) (name : _) (node : Node) (rest : Listing)
    → LevelIsUnchanged time (entry name node rest)
    → LevelIsUnchanged time rest
unfolding LevelIsUnchanged
rest_level time name regular rest h = h
rest_level time name (folder mtime listing) rest h = h.1
rest_level time name special rest h = h
rest_level time name (no_stat is_dir) rest h = h.1

module _ (cap time : ℕ) where
  mutual
    unfolding folders_changed below size IsUnchanged InnerIsUnchanged LevelIsUnchanged

    folders_changed-IsUnchanged :
        (l : Listing) (n m : ℕ)
        → LevelIsUnchanged time l
        → n + below l ≤ cap
        → folders_changed cap time l n ≡ ok (false, m)
        → IsUnchanged time l × (m ≤ n + below l)
    folders_changed-IsUnchanged unreadable n m h room e = absurd h
    folders_changed-IsUnchanged broken n m h room e = absurd h
    folders_changed-IsUnchanged end n m h room e = (tt, ground arith)
    folders_changed-IsUnchanged (entry name node rest) n m h room e =
        elim (scan_cases (node_changed cap time node n)) [
          | inl (k, found) ↦ absurd (ground arith)
          | inr (inl (k, none_here)) ↦
              let (inner, small) = node_changed-IsUnchanged node n k (omega arith) none_here in
              let (outer, small') =
                folders_changed-IsUnchanged rest k m (rest_level time name node rest h)
                  (omega arith) (ground arith) in
              (((join_level time name node rest h inner).0, outer), omega arith)
          | inr (inr (r, refused)) ↦ absurd (ground arith)
        ]

    node_changed-IsUnchanged :
        (node : Node) (n m : ℕ)
        → n + node_size node ≤ cap
        → node_changed cap time node n ≡ ok (false, m)
        → InnerIsUnchanged time node × (m ≤ n + node_size node)
    node_changed-IsUnchanged regular n m room e = (tt, ground arith)
    node_changed-IsUnchanged special n m room e = (tt, ground arith)
    node_changed-IsUnchanged (no_stat is_dir) n m room e = (tt, ground arith)
    node_changed-IsUnchanged (folder mtime listing) n m room e =
        elim (level_cases (scan_level cap time listing n)) [
          | inl found ↦ absurd (ground arith)
          | inr (inl (k, over)) ↦
              absurd
                (scan_level-capped cap time listing n k (omega (arith, size-width listing)) over)
          | inr (inr (inl gone)) ↦ absurd (ground arith)
          | inr (inr (inr (k, all_read))) ↦
              let (level, count) = scan_level-scanned cap time listing n k all_read in
              let (inner, small) =
                folders_changed-IsUnchanged listing k m level (omega (arith, size-width listing))
                  (ground arith) in
              (inner, omega (arith, size-width listing))
        ]

  changed_below-IsUnchanged :
      (l : Listing) (n m : ℕ)
      → n + size l ≤ cap
      → changed_below cap time l n ≡ ok (false, m)
      → IsUnchanged time l × (m ≤ n + size l)
  unfolding changed_below
  changed_below-IsUnchanged l n m room e = elim (level_cases (scan_level cap time l n)) [
    | inl found ↦ absurd (ground arith)
    | inr (inl (k, over)) ↦
        absurd (scan_level-capped cap time l n k (omega (arith, size-width l)) over)
    | inr (inr (inl gone)) ↦ absurd (ground arith)
    | inr (inr (inr (k, all_read))) ↦
        let (level, count) = scan_level-scanned cap time l n k all_read in
        let (inner, small) =
          folders_changed-IsUnchanged l k m level (omega (arith, size-width l)) (ground arith) in
        (inner, omega (arith, size-width l))
  ]

-- A tree of the originals that is missing, or in which no folder, itself included, was modified
-- after the time.
abbrev pub BranchIsUnchanged : ℕ → Opened Branch → Type 0
BranchIsUnchanged time missing = Unit
BranchIsUnchanged time failed = ⊥
BranchIsUnchanged time (opened branch) =
    ((mtime : ℕ) × (branch.mtime ≡ some mtime) × (mtime ≤ time)) × IsUnchanged time branch.listing

branch_changed-false :
    (time : ℕ) (b : Opened Branch) (later : Result Bool)
    → branch_changed time b later ≡ ok false
    → (IsUnchanged time (listing_of b) → BranchIsUnchanged time b) × (later ≡ ok false)
unfolding branch_changed
branch_changed-false time missing later e = (λ _. tt, e)
branch_changed-false time failed later e = absurd (ground arith)
branch_changed-false time (opened branch) later e = elim (Option-cases branch.mtime) [
  | inl unknown ↦ absurd (ground arith)
  | inr (mtime, known) ↦ (λ h. ((mtime, known, ground arith), h), ground arith)
]

trees_changed-IsUnchanged :
    (cap time : ℕ) (root : Originals)
    → size (listing_of root.upload) + size (listing_of root.library) ≤ cap
    → trees_changed cap time root ≡ ok false
    → IsUnchanged time (listing_of root.upload) × IsUnchanged time (listing_of root.library)
unfolding trees_changed
trees_changed-IsUnchanged cap time root room e =
    elim (scan_cases (changed_below cap time (listing_of root.upload) 0)) [
      | inl (k, found) ↦ absurd (ground arith)
      | inr (inr (r, refused)) ↦ absurd (ground arith)
      | inr (inl (k, here)) ↦
          let (a, small) =
            changed_below-IsUnchanged cap time (listing_of root.upload) 0 k (omega arith) here in
          elim (scan_cases (changed_below cap time (listing_of root.library) k)) [
            | inl (j, found) ↦ absurd (ground arith)
            | inr (inr (r, refused)) ↦ absurd (ground arith)
            | inr (inl (j, there)) ↦ (
              a,
              (changed_below-IsUnchanged cap time (listing_of root.library) k j (omega arith)
                  there).0,
            )
          ]
    ]

-- Where the trees hold at most as many entries as the cap, the dump is found current only if no
-- folder of either tree, the tree itself included, was modified after it.
pub originals_changed_since-IsUnchanged :
    (cap time : ℕ) (root : Originals)
    → size (listing_of root.upload) + size (listing_of root.library) ≤ cap
    → originals_changed_since cap (opened root) time ≡ ok false
    → BranchIsUnchanged time root.upload × BranchIsUnchanged time root.library
unfolding originals_changed_since trees_changed
originals_changed_since-IsUnchanged cap time root room e =
    elim (result_cases
      (branch_changed time root.upload (branch_changed time root.library (ok false)))) [
        | inl found ↦ absurd (ground arith)
        | inr (inr (r, refused)) ↦ absurd (ground arith)
        | inr (inl here) ↦
            let (up, later) = branch_changed-false time root.upload _ here in
            let (lib, _) = branch_changed-false time root.library (ok false) later in
            let trees : trees_changed cap time root ≡ ok false = ground arith in
            let (a, b) = trees_changed-IsUnchanged cap time root room trees in (up a, lib b)
      ]
