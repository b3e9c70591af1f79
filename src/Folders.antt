-- ===== src/Folders.antt =====
-- internal/tasks/vm_management.go: cleanupEmptyDir, over trees of files as filepath.Walk visits them.
pub mod Cleanup
use open_v_center_agent_hype.Base.{
  ◌+◌, ℕ, ◌&&◌, String, ◌≡◌, ◌⊎◌, inl, inr, Bool, true, false, Option, none, some, refl, arith,
  eq_iff, ◌==◌, if◌then◌else◌, text_cases,
}

-- What stands under a path, in the order of the names. The names in a closed folder cannot be read.
mutual
  pub data Node : Type 0 where
    file : Node
    closed_folder : Node
    folder : Nodes → Node

  pub data Nodes : Type 0 where
    nil : Nodes
    cons : Node → Nodes → Nodes

-- How the walk leaves a node: it goes on, it is stopped at a file, or an error ends it.
pub data Walked : Type 0 where
  goes_on finds_file aborts : Walked

abbrev and_then : Walked → Walked → Walked
and_then goes_on next = next
and_then finds_file next = finds_file
and_then aborts next = aborts

unfoldable mutual
  pub walk : Node → Walked
  walk file = finds_file
  walk closed_folder = aborts
  walk (folder ns) = walk_all ns

  pub walk_all : Nodes → Walked
  walk_all nil = goes_on
  walk_all (cons n ns) = and_then (walk n) (walk_all ns)

abbrev pub is_dir : Node → Bool
is_dir file = false
is_dir closed_folder = true
is_dir (folder ns) = true

abbrev has_files : Walked → Bool
has_files finds_file = true
has_files goes_on = false
has_files aborts = false

-- What stands under a path, if anything.
abbrev pub Disk : Type 0
Disk = String → Option Node

-- `remove_all` is os.RemoveAll, which changes the paths under its own too.
abbrev cleaned : (String → Disk → Disk) → String → Disk → Option Node → Disk
cleaned remove_all dir disk none = disk
cleaned remove_all dir disk (some n) =
    if is_dir n then (if has_files (walk n) then disk else remove_all dir disk) else disk

unfoldable pub cleanup_empty_dir : (String → Disk → Disk) → String → Disk → Disk
cleanup_empty_dir remove_all dir disk =
    if dir == "" then disk else cleaned remove_all dir disk (disk dir)

-- A tree without a closed folder.
unfoldable mutual
  pub readable : Node → Bool
  readable file = true
  readable closed_folder = false
  readable (folder ns) = readable_all ns

  pub readable_all : Nodes → Bool
  readable_all nil = true
  readable_all (cons n ns) = readable n && readable_all ns

unfoldable mutual
  pub files : Node → ℕ
  files file = 1
  files closed_folder = 0
  files (folder ns) = files_all ns

  pub files_all : Nodes → ℕ
  files_all nil = 0
  files_all (cons n ns) = files n + files_all ns

abbrev pub files_left : Option Node → ℕ
files_left none = 0
files_left (some n) = files n
