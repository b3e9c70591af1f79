-- ===== src/Examples/Relocations.antt =====
-- A machine called web, which is off, in C:\HyperV\web on a host without a cluster; the same machine in a
-- cluster of two nodes, of a workgroup.
use open_v_center_agent_hype.Base.{
  ◌≤◌, ◌≡◌, ◌≢◌, refl, String, true, false, ◌==◌, none, some, [], ◌∷◌, arith, if◌then◌else◌, eq_iff,
  Bool, ◌||◌,
}
use open_v_center_agent_hype.Management.{VmManagementPayload}
use open_v_center_agent_hype.Folders.{
  readable, Node, Disk, folder, nil, cons, files, files_left, cleanup_empty_dir,
}
use open_v_center_agent_hype.Folders.Cleanup.{cleanup_empty_dir-files, cleaned_by_count}
use open_v_center_agent_hype.Relocate.{
  Site, Answers, Paths, RelocateError, refuses, move_failed, percent, other_line, handle_vm_rename,
}
use open_v_center_agent_hype.Relocate.Destinations.{Host, handle_vm_move}
use open_v_center_agent_hype.Relocate.Moves.{MoveEnds, handle_vm_move-MoveEnds}
use open_v_center_agent_hype.Relocate.Renames.{handle_vm_rename-stuck}

abbrev empty_tree : Node
empty_tree = folder (cons (folder nil) nil)

abbrev disk : Disk
disk path =
    if path == "C:\\HyperV\\web"
    then some empty_tree
    else if path == "C:\\HyperV\\web\\Snapshots"
    then some (folder nil)
    else none

-- The folder of the machine, and what stands in it.
abbrev inside_web : String → String → Bool
inside_web dir path = (path == "C:\\HyperV\\web") || (path == "C:\\HyperV\\web\\Snapshots")

abbrev takes_all : String → Disk → Disk
takes_all dir d path = if inside_web dir path then none else d path

takes_inside :
    (path : String)
    → inside_web "C:\\HyperV\\web" path ≡ false
    → takes_all "C:\\HyperV\\web" disk path ≡ disk path
takes_inside path h = ground (arith, h)

adds_none :
    (path : String) → files_left (takes_all "C:\\HyperV\\web" disk path) ≤ files_left (disk path)
adds_none path = ground arith

holds_none :
    (path : String)
    → inside_web "C:\\HyperV\\web" path ≡ true
    → files_left (disk path) ≤ files empty_tree
unfolding files
holds_none path h = ground (arith, h)

cleanup_empty_dir-files_example :
    (cleanup_empty_dir takes_all "C:\\HyperV\\web" disk "C:\\HyperV\\web\\Snapshots"
      ≡ cleaned_by_count inside_web takes_all "C:\\HyperV\\web" empty_tree disk
          "C:\\HyperV\\web\\Snapshots")
    × (files_left (cleanup_empty_dir takes_all "C:\\HyperV\\web" disk "C:\\HyperV\\web\\Snapshots")
        ≡ files_left (disk "C:\\HyperV\\web\\Snapshots"))
unfolding readable
cleanup_empty_dir-files_example =
    cleanup_empty_dir-files inside_web takes_all "C:\\HyperV\\web" disk empty_tree takes_inside
      adds_none holds_none refl refl "C:\\HyperV\\web\\Snapshots"

abbrev site : Site
site = record {
  vm = record { id = "7"; name = "web"; path = "C:\\HyperV\\web"; is_off = true };
  disk = disk;
}

-- The paths of the example; E: is a volume.
abbrev windows : Paths
windows = record {
  trim = λ p. p;
  equal_fold = λ p q. p == q;
  clean = λ p. p;
  base_name = λ p. if p == "E:\\HyperV" then "HyperV" else p;
  dir = λ p. "C:\\HyperV";
  join = λ p q.
      if q == "HyperV"
      then "E:\\HyperV"
      else if q == "web"
      then "E:\\HyperV\\web"
      else "C:\\HyperV\\site";
  volume = λ p. if p == "E:\\HyperV" then "E:" else "C:";
  contains_hyper = λ p. p == "E:\\HyperV";
}

abbrev host : Host
host = record {
  is_cluster_node = false;
  default_path = "C:\\HyperV";
  additional_storage = "D:\\HyperV" ∷ "E:\\HyperV" ∷ [];
}

abbrev works : Answers
works = record {
  checks = true;
  renames = true;
  is_role = false;
  moves = some "E:\\HyperV\\web";
  leaves = λ d. d;
  remove_all = takes_all;
  lines = percent 0 ∷ other_line ∷ percent 50 ∷ percent 50 ∷ percent 100 ∷ [];
}

abbrev stuck : Answers
stuck = record works { moves = none }

abbrev move_payload : VmManagementPayload
move_payload = record { action = "vm_move"; vm_id = "7"; vm_name = "web" }

handle_vm_move-MoveEnds_example :
    MoveEnds windows works move_payload host "E:" site
      (handle_vm_move windows works move_payload host (some "E:") site)
handle_vm_move-MoveEnds_example =
    handle_vm_move-MoveEnds windows works move_payload host "E:" site refl

abbrev rename_payload : VmManagementPayload
rename_payload = record { action = "vm_rename"; vm_id = "7"; vm_name = "web" }

new_name_differs : ◌≢◌ {A = String} "site" "web"
new_name_differs e = ground (arith, eq_iff "site" "web", e)

fails_to_move :
    (handle_vm_rename windows stuck rename_payload (some "site") site).outcome ≡ refuses move_failed
unfolding handle_vm_rename
fails_to_move = refl

handle_vm_rename-stuck_example :
    ((handle_vm_rename windows stuck rename_payload (some "site") site).site.vm
      ≡ record site.vm { name = "site" })
    × ((handle_vm_rename windows works rename_payload
          (some "site")
          (handle_vm_rename windows stuck rename_payload (some "site") site).site).site
        ≡ (handle_vm_rename windows stuck rename_payload (some "site") site).site)
    × ((e : RelocateError) × ((handle_vm_rename windows works rename_payload
            (some "site")
            (handle_vm_rename windows stuck rename_payload (some "site") site).site).outcome
          ≡ refuses e))
handle_vm_rename-stuck_example =
    handle_vm_rename-stuck windows stuck works rename_payload "site" site new_name_differs
      fails_to_move
