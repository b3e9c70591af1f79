-- ===== src/Folders/Cleanup.antt =====
-- internal/tasks/vm_management.go: what cleanupEmptyDir removes.
use open_v_center_agent_hype.Base.{
  ◌≡◌, ◌⊎◌, inl, inr, ◌≤◌, ◌<◌, true, some, arith, refl, String, ◌==◌, ◌≢◌, eq_iff, eq_refl,
  if◌then◌else◌, ◌&&◌, not, nat_eq, Bool, false, ap, ◌∙◌,
}
use open_v_center_agent_hype.Folders.{
  Node, Nodes, Disk, walk, goes_on, finds_file, cleanup_empty_dir, readable, files, files_left,
  file, folder, closed_folder, nil, cons, readable_all, walk_all, files_all, is_dir,
}

-- The walk of a readable tree finds a file if there is one.
mutual
  unfolding walk readable files

  walk-files :
      (n : Node)
      → readable n ≡ true
      → (walk n ≡ goes_on × files n ≡ 0) ⊎ (walk n ≡ finds_file × 0 < files n)
  walk-files file h = inr (refl, omega arith)
  walk-files closed_folder h = ground arith
  walk-files (folder ns) h = walk_all-files_all ns h

  walk_all-files_all :
      (ns : Nodes)
      → readable_all ns ≡ true
      → (walk_all ns ≡ goes_on × files_all ns ≡ 0) ⊎ (walk_all ns ≡ finds_file × 0 < files_all ns)
  walk_all-files_all nil h = inl (refl, refl)
  walk_all-files_all (cons n ns) h =
      let head = walk-files n (ground arith) in
      let tail = walk_all-files_all ns (ground arith) in ground (arith, head, tail)

-- What the cleaning of a path does to a disk, with the files counted.
abbrev pub cleaned_by_count :
    (String → String → Bool) → (String → Disk → Disk) → String → Node → Disk → Disk
cleaned_by_count under remove_all dir n disk path =
    if not (dir == "") && is_dir n && nat_eq (files n) 0 && under dir path
    then remove_all dir disk path
    else disk path

module _ (under : String → String → Bool) (remove_all : String → Disk → Disk) (dir : String)
    (disk : Disk) (n : Node)
    (inside : (path : String) → under dir path ≡ false → remove_all dir disk path ≡ disk path) where
  cleanup_empty_dir-cleaned_by_count :
      disk dir ≡ some n
      → readable n ≡ true
      → (path : String)
      → cleanup_empty_dir remove_all dir disk path
        ≡ cleaned_by_count under remove_all dir n disk path
  unfolding cleanup_empty_dir
  cleanup_empty_dir-cleaned_by_count e r path =
      let found = walk-files n r in
      let outside = inside path in rw e (ground (arith, found, outside))

  -- If the tree under a path can be read whole, and os.RemoveAll changes only what stands under its path, the
  -- cleaning changes a path exactly as os.RemoveAll does if it is this path or stands under it, and the tree
  -- is a folder without a file; it changes no other path, and none at all of another tree. If
  -- os.RemoveAll adds no file, and what stands under the path has only files of its tree, every path keeps
  -- all its files.
  pub cleanup_empty_dir-files :
      ((path : String) → files_left (remove_all dir disk path) ≤ files_left (disk path))
      → ((path : String) → under dir path ≡ true → files_left (disk path) ≤ files n)
      → disk dir ≡ some n
      → readable n ≡ true
      → (path : String)
      → (cleanup_empty_dir remove_all dir disk path
          ≡ cleaned_by_count under remove_all dir n disk path)
        × (files_left (cleanup_empty_dir remove_all dir disk path) ≡ files_left (disk path))
  cleanup_empty_dir-files adds within e r path =
      let same = cleanup_empty_dir-cleaned_by_count e r path in
      let fewer = adds path in
      let some_of = within path in (same, ap files_left same ∙ ground (arith, fewer, some_of))

-- A folder that cannot be read, before any file in the order of the walk, lets the whole tree be taken,
-- with the files that come after it.
cleanup_empty_dir-loses :
    (remove_all : String → Disk → Disk) (dir : String) (disk : Disk) (ns : Nodes)
    → dir ≢ ""
    → disk dir ≡ some (folder (cons closed_folder ns))
    → cleanup_empty_dir remove_all dir disk dir ≡ remove_all dir disk dir
unfolding cleanup_empty_dir walk
cleanup_empty_dir-loses remove_all dir disk ns d e = ground (arith, e, eq_iff dir "", eq_refl dir)
