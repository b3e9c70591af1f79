-- ===== src/Edit/Changes.antt =====
-- internal/tasks/vm_edit.go: the steps of handleVMEdit make the changes that it was asked for.
use open_v_center_agent_hype.Create.{check_disk_space}
use open_v_center_agent_hype.Edit.Run.{steps_of}
use open_v_center_agent_hype.Edit.Devices.{
  space_steps, total_size, add_disk_steps, edit_disk_steps, detached, remove_disk_steps, disk_steps,
  is_asked, add_nic_of, switch_of, edit_nic_of, remove_nic_of, nic_steps,
}
use open_v_center_agent_hype.Base.{
  ℕ, ◌≡◌, refl, String, Bool, true, false, not, ◌||◌, ◌==◌, Option, none, some, List, [], ◌∷◌, ◌++◌,
  if_elim, nat_eq, arith, if◌then◌else◌,
}
use open_v_center_agent_hype.Edit.{
  VmEditPayload, Command, Step, memory_steps, delay_steps, settings_steps, needs_off, sets_memory,
  set_memory, change, when, set_processor, set_secure_boot_template, set_automatic_start,
  set_automatic_stop, Delay, negative, seconds, invalid_value, VmEditDisk, VmEditDiskResize,
  VmRemoveDisk, VmAddNic, VmEditNic, is_given, no_space, new_disk, resize_disk, detach_disk,
  delete_disk, try, run, path_required, check_disk_operations, set_adapter_vlan, add_adapter,
  connect_adapter, rename_adapter, set_vlan_of, remove_adapter, name_required, nic_id_required,
  nothing_to_edit,
}
use open_v_center_agent_hype.Edit.Requests.{
  requires_off, Does, Does-append, nothing, refused, checked, changed, scripts, change-Does,
  when-Does, of_request-Does, for_each-Does, for_each-checks, required-Does, one_of-Does,
  check_disk-Does, asked, asked_settings, asked_disks, asked_nics, asked_delay, of_each, of_option,
}

-- A script may be run with the edit: the machine was checked to be off, if the script needs that.
abbrev pub fits : VmEditPayload → Command → Bool
fits p c = not (requires_off c) || needs_off p

module _ (p : VmEditPayload) where
  memory-Does : Does (fits p) (memory_steps p) (
      if sets_memory p
      then set_memory p.memory_mb p.memory_dynamic p.memory_min_mb p.memory_max_mb ∷ []
      else [])
  memory-Does = by_test (sets_memory p) refl
    where
      by_test :
          (b : Bool)
          → sets_memory p ≡ b
          → Does
              (fits p)
              (if b
                then change
                    (set_memory p.memory_mb p.memory_dynamic p.memory_min_mb p.memory_max_mb)
                else [])
              (if b
                then set_memory p.memory_mb p.memory_dynamic p.memory_min_mb p.memory_max_mb ∷ []
                else [])
      by_test true h = change-Does (fits p) _ (ground (arith, h))
      by_test false h = nothing

  processor-Does :
      (n : ℕ)
      → p.cpu_count ≡ some n
      → Does
          (fits p)
          (if nat_eq n 0 then [] else change (set_processor n))
          (if nat_eq n 0 then [] else set_processor n ∷ [])
  processor-Does n h = by_test (nat_eq n 0)
    where
      by_test :
          (b : Bool)
          → Does
              (fits p)
              (if b then [] else change (set_processor n))
              (if b then [] else set_processor n ∷ [])
      by_test true = nothing
      by_test false = change-Does (fits p) _ (ground (arith, h))

  delay-Does : (d : Delay) → Does (fits p) (delay_steps p d) (asked_delay d)
  delay-Does negative = refused invalid_value [] []
  delay-Does (seconds n) = change-Does (fits p) _ refl

  settings-Does : Does (fits p) (settings_steps p) (asked_settings p)
  unfolding settings_steps
  settings-Does =
      add
        (add
          (add
            (add
              (add
                (add
                  (add
                    (add (add (when-Does q p.cpu_count _ _ processor-Does) memory-Does)
                      (when-Does q p.notes _ _ λ s h. change-Does q _ refl))
                    (when-Does q p.vlan_id _ _ λ n h. change-Does q _ refl))
                  (when-Does q p.nested_virtualization _ _
                    λ b h. change-Does q _ (ground (arith, h))))
                (when-Does q p.secure_boot _ _ λ b h. change-Does q _ (ground (arith, h))))
              (when-Does q p.secure_boot_template _ _ λ s h.
                one_of-Does q ("Windows" ∷ "Linux" ∷ "Others" ∷ []) set_secure_boot_template s
                  (ground (arith, h))))
            (when-Does q p.automatic_start _ _ λ s h.
              one_of-Does q ("Nothing" ∷ "StartIfRunning" ∷ "Start" ∷ []) set_automatic_start s
                refl))
          (when-Does q p.automatic_start_delay _ _ λ d h. delay-Does d))
        (when-Does q p.automatic_stop _ _
          λ s h. one_of-Does q ("TurnOff" ∷ "ShutDown" ∷ "Save" ∷ []) set_automatic_stop s refl)
    where
      q : Command → Bool
      q = fits p

      add :
          {a b : List Step} {x y : List Command}
          → Does (fits p) a x
          → Does (fits p) b y
          → Does (fits p) (a ++ b) (x ++ y)
      add = Does-append (fits p)

  space-Does : (free : Option ℕ) (ds : List VmEditDisk) → Does (fits p) (space_steps free ds) []
  space-Does free [] = nothing
  space-Does free (d ∷ ds) =
      if_elim (λ l. Does (fits p) l []) (is_given (check_disk_space free (total_size (d ∷ ds))))
        (λ _. refused no_space [] []) (λ _. nothing)

  add_disk-Does :
      (free : Option ℕ) (ds : List VmEditDisk)
      → Does
          (fits p)
          (add_disk_steps free ds)
          (of_each (λ d. new_disk d.path (d.disk_type == "Fixed") d.size ∷ []) ds)
  unfolding add_disk_steps
  add_disk-Does free ds =
      Does-append (fits p)
        (Does-append (fits p)
          (for_each-checks (fits p) _ (λ d. check_disk-Does (fits p) d.path d.size) ds)
          (space-Does free ds))
        (checked _ refl (for_each-Does (fits p) _ _ (λ d. change-Does (fits p) _ refl) ds))

  edit_disk-Does :
      (free : Option ℕ) (ds : List VmEditDiskResize)
      → Does (fits p) (edit_disk_steps free ds) (of_each (λ d. resize_disk d.path d.size ∷ []) ds)
  unfolding edit_disk_steps
  edit_disk-Does free = for_each-Does (fits p) _ _ λ d.
      Does-append (fits p) (check_disk-Does (fits p) d.path d.size)
        (change-Does (fits p) (resize_disk d.path d.size) refl)

  detached-Does :
      (free : Option ℕ) (d : VmRemoveDisk)
      → Does (fits p) (detached free d) (detach_disk d.path ∷ [])
  detached-Does free d =
      changed (detach_disk d.path)
        (if d.delete_from_disk then try (delete_disk d.path) ∷ [] else []) refl
        (if_elim (λ l. scripts (fits p) l ≡ true) d.delete_from_disk (λ _. refl) (λ _. refl))
        nothing

  remove_disk-Does :
      (free : Option ℕ) (ds : List VmRemoveDisk)
      → Does (fits p) (remove_disk_steps free ds) (of_each (λ d. detach_disk d.path ∷ []) ds)
  unfolding remove_disk_steps
  remove_disk-Does free =
      for_each-Does (fits p) _ _
        λ d. required-Does (fits p) d.path path_required (detached-Does free d)

  disks-Does : (free : Option ℕ) → Does (fits p) (disk_steps free p) (asked_disks p)
  unfolding disk_steps
  disks-Does free =
      Does-append (fits p)
        (Does-append (fits p)
          (Does-append (fits p)
            (if_elim (λ l. Does (fits p) l [])
              (is_asked p.add_disk || is_asked p.edit_disk || is_asked p.remove_disk)
              (λ _. checked check_disk_operations refl nothing) (λ _. nothing))
            (of_request-Does (fits p) _ _ (add_disk-Does free) p.add_disk))
          (of_request-Does (fits p) _ _ (edit_disk-Does free) p.edit_disk))
        (of_request-Does (fits p) _ _ (remove_disk-Does free) p.remove_disk)

  vlan_scripts :
      (name : String) (o : Option ℕ)
      → scripts (fits p) (when o (λ v. run (set_adapter_vlan name v) ∷ [])) ≡ true
  vlan_scripts name none = refl
  vlan_scripts name (some v) = refl

  add_nic-Does :
      (n : VmAddNic) → Does (fits p) (add_nic_of n) (add_adapter n.name n.switch_name ∷ [])
  add_nic-Does n = required-Does (fits p) n.name name_required (
      changed (add_adapter n.name n.switch_name)
        (when n.vlan_id (λ v. run (set_adapter_vlan n.name v) ∷ [])) refl
        (vlan_scripts n.name n.vlan_id) nothing)

  abbrev asked_nic : VmEditNic → List Command
  asked_nic n =
      of_option (switch_of n.switch_name) (λ s. connect_adapter n.nic_id s ∷ [])
      ++ of_option n.name (λ s. rename_adapter n.nic_id s ∷ [])
      ++ of_option n.vlan_id (λ v. set_vlan_of n.nic_id v ∷ [])

  edit_nic-Does : (n : VmEditNic) → Does (fits p) (edit_nic_of n) (asked_nic n)
  edit_nic-Does n = required-Does (fits p) n.nic_id nic_id_required (
      if_elim (λ l. Does (fits p) l (asked_nic n))
        (is_given n.name || is_given n.vlan_id || is_given (switch_of n.switch_name))
        (λ _.
          Does-append (fits p)
            (Does-append (fits p)
              (when-Does (fits p) (switch_of n.switch_name) _ _ λ s h. change-Does (fits p) _ refl)
              (when-Does (fits p) n.name _ _ λ s h. change-Does (fits p) _ refl))
            (when-Does (fits p) n.vlan_id _ _ λ v h. change-Does (fits p) _ refl))
        (λ _. refused nothing_to_edit [] (asked_nic n)))

  remove_nic-Does : (id : String) → Does (fits p) (remove_nic_of id) (remove_adapter id ∷ [])
  remove_nic-Does id =
      required-Does (fits p) id nic_id_required (change-Does (fits p) (remove_adapter id) refl)

  nics-Does : Does (fits p) (nic_steps p) (asked_nics p)
  unfolding nic_steps
  nics-Does =
      Does-append (fits p)
        (Does-append (fits p)
          (of_request-Does (fits p) _ _ (for_each-Does (fits p) _ _ add_nic-Does) p.add_nic)
          (of_request-Does (fits p) _ _ (for_each-Does (fits p) _ _ edit_nic-Does) p.edit_nic))
        (of_request-Does (fits p) _ _ (for_each-Does (fits p) _ _ remove_nic-Does) p.remove_nic)

  -- The steps of an edit make what it asks for, and run what its check of the state allows.
  pub steps_of-Does : (free : Option ℕ) → Does (fits p) (steps_of free p) (asked p)
  unfolding steps_of
  steps_of-Does free =
      Does-append (fits p) (Does-append (fits p) settings-Does (disks-Does free)) nics-Does
