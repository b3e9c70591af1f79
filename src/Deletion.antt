-- ===== src/Deletion.antt =====
-- internal/tasks/vm_management.go: handleVMDelete, on one machine, its role in the cluster and the files of
-- the host. `Answers` says which scripts work.
pub mod Files
use open_v_center_agent_hype.Base.{
  String, Bool, true, false, not, ◌&&◌, Option, none, some, List, [], ◌∷◌, if◌then◌else◌, Text,
  text_eq,
}
use open_v_center_agent_hype.Scripts.{kept}

pub record Host : Type 0 where
  pub has_vm : Bool
  pub has_role : Bool
  pub has_file : Text → Bool

-- Whether a path is another one or stands in it, the folder of a path, whether the name of a folder is
-- "Virtual Hard Disks", and whether a folder has nothing in it.
pub record Paths : Type 0 where
  pub under : Text → Text → Bool
  pub parent : Text → Text
  pub is_disks_folder : Text → Bool
  pub is_empty : (Text → Bool) → Text → Bool

-- `path` is the folder of the machine, `disk_lines` what the host prints of its disks, if the script works;
-- `removes_file` is false also of a path at which the removal is stopped for want of time.
pub record Answers : Type 0 where
  pub is_off : Bool
  pub checks : Bool
  pub path : Text
  pub disk_lines : Option (List Text)
  pub removes_role : Bool
  pub removes_vm : Bool
  pub removes_file : Text → Bool
  pub prunes : Text → Bool
  pub prunes_in_time : Bool

pub data DeleteError : Type 0 where
  invalid_params vm_not_found vm_not_off check_failed remove_failed : DeleteError

-- `deleted` says whether the files were removed, where it was asked for.
pub data Outcome : Type 0 where
  refuses : DeleteError → Outcome
  deleted : Option Bool → Outcome

abbrev pub Handled : Type 0
Handled = Host × Outcome

module _ (os : Paths) (a : Answers) where
  abbrev pub remove_item : Text → (Text → Bool) → Text → Bool
  remove_item t files p = files p && not (os.under t p)

  -- The targets in their order, up to the first that cannot be removed.
  unfoldable pub remove_files : List Text → (Text → Bool) → (Text → Bool) × Bool
  remove_files [] files = (files, true)
  remove_files (t ∷ ts) files =
      let absent = remove_files ts files in
      let removed = remove_files ts (remove_item t files) in
      if not (files t) then absent else if a.removes_file t then removed else (files, false)

  abbrev pub disk_paths : Option (List Text) → List Text
  disk_paths none = []
  disk_paths (some lines) = kept lines

  -- What psStringArray keeps of the folder and the disks.
  abbrev pub targets : List Text
  targets = kept (a.path ∷ disk_paths a.disk_lines)

  abbrev without_role : Bool → Host → Host
  without_role is_cluster_node h =
      if is_cluster_node && a.removes_role then record h { has_role = false } else h

  -- The folder of a target goes if it is one for disks and nothing is left in it.
  abbrev pub prune : Text → (Text → Bool) → Text → Bool
  prune dir files p =
      if os.is_disks_folder dir && files dir && os.is_empty files dir && a.prunes dir
      then files p && not (text_eq dir p)
      else files p

  unfoldable pub prune_folders : List Text → (Text → Bool) → Text → Bool
  prune_folders [] files = files
  prune_folders (t ∷ ts) files = prune_folders ts (prune (os.parent t) files)

  -- The folders are pruned once every target is gone.
  abbrev pub pruned : (Text → Bool) × Bool → (Text → Bool) × Bool
  pruned r = if r.1 then (prune_folders targets r.0, a.prunes_in_time) else (r.0, false)

  abbrev pub clean_files : (Text → Bool) → (Text → Bool) × Bool
  clean_files files = pruned (remove_files targets files)

  abbrev with_files : Bool → Host → Handled
  with_files wanted h =
      if wanted
      then (
        record h { has_file = (clean_files h.has_file).0 },
        deleted (some (clean_files h.has_file).1),
      )
      else (h, deleted none)

  abbrev remove_vm : Bool → Host → Handled
  remove_vm wanted h =
      if a.removes_vm
      then with_files wanted (record h { has_vm = false })
      else (h, refuses remove_failed)

  -- The parameter is whether the files are to go, and `none` where it does not decode.
  unfoldable pub handle_vm_delete : Bool → Option Bool → Host → Handled
  handle_vm_delete is_cluster_node none h = (h, refuses invalid_params)
  handle_vm_delete is_cluster_node (some wanted) h =
      if not h.has_vm
      then (h, refuses vm_not_found)
      else if not a.is_off
      then (h, refuses vm_not_off)
      else if not a.checks
      then (h, refuses check_failed)
      else remove_vm wanted (without_role is_cluster_node h)
