-- ===== src/Edit/Devices.antt =====
-- internal/tasks/vm_edit.go: the blocks of handleVMEdit on disks and on network adapters.
use open_v_center_agent_hype.Base.{
  ℕ, String, Bool, true, false, ◌||◌, ◌==◌, Option, none, some, List, [], ◌∷◌, ◌++◌, map,
  if◌then◌else◌, nat_eq, ◌+◌,
}
use open_v_center_agent_hype.Create.{check_disk_space}
use open_v_center_agent_hype.Edit.{
  VmEditDisk, VmEditDiskResize, VmRemoveDisk, VmAddNic, VmEditNic, VmEditPayload, Request, absent,
  invalid, given, Step, refuse, run, try, applies, change, when, is_given, check_disk_operations,
  check_absent, new_disk, resize_disk, detach_disk, delete_disk, add_adapter, set_adapter_vlan,
  connect_adapter, rename_adapter, set_vlan_of, remove_adapter, invalid_list, path_required,
  size_required, no_space, name_required, nic_id_required, nothing_to_edit,
}

abbrev pub is_asked {ℓ} : {A : Type ℓ} → Request A → Bool
is_asked absent = false
is_asked invalid = true
is_asked (given xs) = true

abbrev pub of_request {ℓ} : {A : Type ℓ} → (List A → List Step) → Request A → List Step
of_request f absent = []
of_request f invalid = refuse invalid_list ∷ []
of_request f (given xs) = f xs

-- The steps of each element, in order.
abbrev pub for_each {ℓ} : {A : Type ℓ} → (A → List Step) → List A → List Step
for_each f [] = []
for_each f (x ∷ xs) = f x ++ for_each f xs

abbrev pub required : String → Step → List Step → List Step
required s step rest = if s == "" then step ∷ [] else rest

-- A path and a size are asked for.
abbrev pub check_disk : String → ℕ → List Step
check_disk path size =
    if path == ""
    then refuse path_required ∷ []
    else if nat_eq size 0
    then refuse size_required ∷ []
    else []

abbrev pub total_size : List VmEditDisk → ℕ
total_size [] = 0
total_size (d ∷ ds) = d.size + total_size ds

module _ (free : Option ℕ) where
  abbrev pub space_steps : List VmEditDisk → List Step
  space_steps [] = []
  space_steps (d ∷ ds) =
      if is_given (check_disk_space free (total_size (d ∷ ds))) then refuse no_space ∷ [] else []

  abbrev pub new_disk_of : VmEditDisk → List Step
  new_disk_of d = change (new_disk d.path (d.disk_type == "Fixed") d.size)

  unfoldable pub add_disk_steps : List VmEditDisk → List Step
  add_disk_steps ds =
      for_each (λ d. check_disk d.path d.size) ds
      ++ space_steps ds
      ++ (run (check_absent (map (λ d. d.path) ds)) ∷ for_each new_disk_of ds)

  unfoldable pub edit_disk_steps : List VmEditDiskResize → List Step
  edit_disk_steps = for_each λ d. check_disk d.path d.size ++ change (resize_disk d.path d.size)

  abbrev pub detached : VmRemoveDisk → List Step
  detached d =
      run (detach_disk d.path)
      ∷ ((if d.delete_from_disk then try (delete_disk d.path) ∷ [] else [])
          ++ (applies (detach_disk d.path) ∷ []))

  unfoldable pub remove_disk_steps : List VmRemoveDisk → List Step
  remove_disk_steps = for_each λ d. required d.path (refuse path_required) (detached d)

  -- The snapshots and the generation are checked once, before the disks.
  unfoldable pub disk_steps : VmEditPayload → List Step
  disk_steps p =
      (if is_asked p.add_disk || is_asked p.edit_disk || is_asked p.remove_disk
        then run check_disk_operations ∷ []
        else [])
      ++ of_request add_disk_steps p.add_disk
      ++ of_request edit_disk_steps p.edit_disk
      ++ of_request remove_disk_steps p.remove_disk

abbrev pub add_nic_of : VmAddNic → List Step
add_nic_of n = required n.name (refuse name_required) (
    run (add_adapter n.name n.switch_name)
    ∷ (when n.vlan_id (λ v. run (set_adapter_vlan n.name v) ∷ [])
        ++ (applies (add_adapter n.name n.switch_name) ∷ [])))

-- The switch that is asked for, if it has a name.
abbrev pub switch_of : Option String → Option String
switch_of none = none
switch_of (some s) = if s == "" then none else some s

abbrev pub edits_nic : VmEditNic → List Step
edits_nic n =
    when (switch_of n.switch_name) (λ s. change (connect_adapter n.nic_id s))
    ++ when n.name (λ s. change (rename_adapter n.nic_id s))
    ++ when n.vlan_id (λ v. change (set_vlan_of n.nic_id v))

abbrev pub edit_nic_of : VmEditNic → List Step
edit_nic_of n = required n.nic_id (refuse nic_id_required) (
    if is_given n.name || is_given n.vlan_id || is_given (switch_of n.switch_name)
    then edits_nic n
    else refuse nothing_to_edit ∷ [])

abbrev pub remove_nic_of : String → List Step
remove_nic_of id = required id (refuse nic_id_required) (change (remove_adapter id))

unfoldable pub nic_steps : VmEditPayload → List Step
nic_steps p =
    of_request (for_each add_nic_of) p.add_nic
    ++ of_request (for_each edit_nic_of) p.edit_nic
    ++ of_request (for_each remove_nic_of) p.remove_nic
