-- ===== src/Edit.antt =====
-- internal/tasks/vm_edit.go: handleVMEdit. Each block of the code is a list of steps, which are taken in
-- order up to the first that fails. A number of zero also stands for a negative one where the code treats
-- them alike; the size of a disk is in tenths of a gigabyte. The parameters are decoded.
pub mod Devices
pub mod Run
pub mod Requests
pub mod Changes
pub mod Passing
pub mod Outcomes
use open_v_center_agent_hype.Base.{
  ℕ, String, Bool, true, false, ◌||◌, Option, none, some, List, [], ◌∷◌, ◌++◌, if◌then◌else◌,
  nat_eq,
}
use open_v_center_agent_hype.Queue.Classifier.{among}

pub data Delay : Type 0 where
  negative : Delay
  seconds : ℕ → Delay

-- A parameter that is one object or an array of them: missing, not decodable, or decoded.
pub data Request {ℓ} (A : Type ℓ) : Type ℓ where
  absent invalid : Request A
  given : List A → Request A

pub record VmEditDisk : Type 0 where
  pub path : String
  pub disk_type : String
  pub size : ℕ

pub record VmEditDiskResize : Type 0 where
  pub path : String
  pub size : ℕ

pub record VmRemoveDisk : Type 0 where
  pub path : String
  pub delete_from_disk : Bool

pub record VmAddNic : Type 0 where
  pub name : String
  pub vlan_id : Option ℕ
  pub switch_name : Option String

pub record VmEditNic : Type 0 where
  pub nic_id : String
  pub name : Option String
  pub vlan_id : Option ℕ
  pub switch_name : Option String

pub record VmEditPayload : Type 0 where
  pub vm_id : String
  pub cpu_count : Option ℕ
  pub memory_mb : Option ℕ
  pub memory_dynamic : Option Bool
  pub memory_min_mb : Option ℕ
  pub memory_max_mb : Option ℕ
  pub notes : Option String
  pub vlan_id : Option ℕ
  pub nested_virtualization : Option Bool
  pub secure_boot : Option Bool
  pub secure_boot_template : Option String
  pub automatic_start : Option String
  pub automatic_start_delay : Option Delay
  pub automatic_stop : Option String
  pub add_disk : Request VmEditDisk
  pub edit_disk : Request VmEditDiskResize
  pub remove_disk : Request VmRemoveDisk
  pub add_nic : Request VmAddNic
  pub edit_nic : Request VmEditNic
  pub remove_nic : Request String

-- The scripts, each named by the block that runs it.
pub data Command : Type 0 where
  set_processor : ℕ → Command
  set_memory : Option ℕ → Option Bool → Option ℕ → Option ℕ → Command
  set_notes set_secure_boot_template set_automatic_start set_automatic_stop : String → Command
  set_vlan set_automatic_start_delay : ℕ → Command
  set_nested set_secure_boot : Bool → Command
  check_disk_operations : Command
  check_absent : List String → Command
  new_disk : String → Bool → ℕ → Command
  resize_disk : String → ℕ → Command
  detach_disk delete_disk : String → Command
  add_adapter : String → Option String → Command
  set_adapter_vlan : String → ℕ → Command
  connect_adapter rename_adapter : String → String → Command
  set_vlan_of : String → ℕ → Command
  remove_adapter : String → Command

pub data EditError : Type 0 where
  payload_required id_required vm_refused invalid_value invalid_list path_required size_required
        no_space name_required nic_id_required nothing_to_edit no_changes :
      EditError
  script_failed : Command → EditError

-- An entry of the list of what was applied: the command that it is about.
pub data Step : Type 0 where
  refuse : EditError → Step
  run : Command → Step
  try : Command → Step
  applies : Command → Step

abbrev pub when {ℓ} : {A : Type ℓ} → Option A → (A → List Step) → List Step
when none f = []
when (some a) f = f a

abbrev pub change : Command → List Step
change c = run c ∷ applies c ∷ []

abbrev pub is_given {ℓ} : {A : Type ℓ} → Option A → Bool
is_given none = false
is_given (some a) = true

abbrev pub one_of : List String → (String → Command) → String → List Step
one_of valid c s = if among valid s then change (c s) else refuse invalid_value ∷ []

module _ (p : VmEditPayload) where
  abbrev pub sets_memory : Bool
  sets_memory =
      is_given p.memory_mb
      || is_given p.memory_dynamic
      || is_given p.memory_min_mb
      || is_given p.memory_max_mb

  abbrev pub needs_off : Bool
  needs_off =
      is_given p.cpu_count
      || sets_memory
      || is_given p.nested_virtualization
      || is_given p.secure_boot
      || is_given p.secure_boot_template

  abbrev pub memory_steps : List Step
  memory_steps =
      if sets_memory
      then change (set_memory p.memory_mb p.memory_dynamic p.memory_min_mb p.memory_max_mb)
      else []

  abbrev pub delay_steps : Delay → List Step
  delay_steps negative = refuse invalid_value ∷ []
  delay_steps (seconds n) = change (set_automatic_start_delay n)

  -- From the number of processors to the automatic stop.
  unfoldable pub settings_steps : List Step
  settings_steps =
      when p.cpu_count (λ n. if nat_eq n 0 then [] else change (set_processor n))
      ++ memory_steps
      ++ when p.notes (λ s. change (set_notes s))
      ++ when p.vlan_id (λ n. change (set_vlan n))
      ++ when p.nested_virtualization (λ b. change (set_nested b))
      ++ when p.secure_boot (λ b. change (set_secure_boot b))
      ++ when p.secure_boot_template
          (one_of ("Windows" ∷ "Linux" ∷ "Others" ∷ []) set_secure_boot_template)
      ++ when p.automatic_start
          (one_of ("Nothing" ∷ "StartIfRunning" ∷ "Start" ∷ []) set_automatic_start)
      ++ when p.automatic_start_delay delay_steps
      ++ when p.automatic_stop (one_of ("TurnOff" ∷ "ShutDown" ∷ "Save" ∷ []) set_automatic_stop)
