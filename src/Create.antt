-- ===== src/Create.antt =====
-- internal/tasks/vm_create.go, vm_clone.go and disk_space_check.go: the time a creation or a clone is given,
-- and a creation up to its disks. Sizes are tenths of a gigabyte and times are seconds. What PowerShell
-- and the file system answer is in `World`; the folder is the machine's own.
pub mod Limits
use open_v_center_agent_hype.Base.{
  ℕ, zero, suc, ◌+◌, ◌*◌, String, Bool, true, false, not, ◌&&◌, ◌||◌, ◌==◌, Option, none, some,
  List, [], ◌∷◌, ltb, nat_eq, if◌then◌else◌,
}

pub record VmCreateDisk : Type 0 where
  pub disk_type : String
  pub size : ℕ

pub record VmCreatePayload : Type 0 where
  pub name : String
  pub cpu_count : ℕ
  pub memory_mb : ℕ
  pub disks : List VmCreateDisk

unfoldable pub disk_timeout : VmCreateDisk → ℕ
disk_timeout d = if d.disk_type == "Fixed" then if ltb d.size 120 then 120 else d.size else 60

abbrev pub disks_timeout : List VmCreateDisk → ℕ
disks_timeout [] = 0
disks_timeout (d ∷ ds) = disk_timeout d + disks_timeout ds

unfoldable pub vm_create_timeout : VmCreatePayload → ℕ
vm_create_timeout p = 120 + disks_timeout p.disks

unfoldable pub vm_clone_timeout : ℕ
vm_clone_timeout = 1800

pub data CreateError : Type 0 where
  name_required cpu_count_required memory_required disks_required no_folder space_unknown no_space :
      CreateError
  pre_check_failed vm_exists folder_exists : CreateError
  size_required disk_failed : ℕ → CreateError

-- What the host holds under the machine's name: the machine, its folder, and how many disks in it.
pub record Site : Type 0 where
  pub has_vm : Bool
  pub has_folder : Bool
  pub vhds : ℕ

pub record World : Type 0 where
  pub finds_folder : Bool
  pub free_space : Option ℕ
  pub runs_scripts : Bool
  pub makes_disk : ℕ → Bool

abbrev pub total_size : List VmCreateDisk → ℕ
total_size [] = 0
total_size (d ∷ ds) = d.size + total_size ds

-- checkDiskSpace: three times the requested size is to be free.
unfoldable pub check_disk_space : Option ℕ → ℕ → Option CreateError
check_disk_space none total = some space_unknown
check_disk_space (some free) total = if ltb free (3 * total) then some no_space else none

-- The first disk without a size, from an index on.
unfoldable pub check_sizes : ℕ → List VmCreateDisk → Option CreateError
check_sizes i [] = none
check_sizes i (d ∷ ds) =
    let rest = check_sizes (suc i) ds in if nat_eq d.size 0 then some (size_required i) else rest

abbrev pub or_else : Option CreateError → Option CreateError → Option CreateError
or_else (some e) rest = some e
or_else none rest = rest

abbrev no_disks : List VmCreateDisk → Bool
no_disks [] = true
no_disks (d ∷ ds) = false

-- Everything that is checked before the first script.
unfoldable pub check_payload : World → VmCreatePayload → Option CreateError
unfolding check_disk_space
check_payload w p =
    if p.name == ""
    then some name_required
    else if nat_eq p.cpu_count 0
    then some cpu_count_required
    else if nat_eq p.memory_mb 0
    then some memory_required
    else if no_disks p.disks
    then some disks_required
    else if not w.finds_folder
    then some no_folder
    else or_else (check_sizes 0 p.disks) (check_disk_space w.free_space (total_size p.disks))

-- Step 2, from an index on; a failure leaves what was made.
unfoldable pub create_disks : (ℕ → Bool) → ℕ → List VmCreateDisk → Site → Site × Option CreateError
create_disks makes i [] site = (site, none)
create_disks makes i (d ∷ ds) site =
    let rest = create_disks makes (suc i) ds (record site { vhds = suc site.vhds }) in
    if makes i then rest else (site, some (disk_failed i))

-- Step 1, then step 2; a script of step 1 that fails makes no folder.
unfoldable pub run_scripts : World → VmCreatePayload → Site → Site × Option CreateError
run_scripts w p site =
    if not w.runs_scripts
    then (site, some pre_check_failed)
    else if site.has_vm
    then (site, some vm_exists)
    else if site.has_folder
    then (site, some folder_exists)
    else create_disks w.makes_disk 0 p.disks (record site { has_folder = true })

abbrev pub unless :
    Option CreateError → Site → Site × Option CreateError → Site × Option CreateError
unless (some e) site run = (site, some e)
unless none site run = run

-- handleVMCreate, up to its disks: what is there then, and the error that ends it.
unfoldable pub prepare_vm : World → VmCreatePayload → Site → Site × Option CreateError
prepare_vm w p site = unless (check_payload w p) site (run_scripts w p site)
