-- ===== src/Relocate.antt =====
-- internal/tasks/vm_management.go: handleVMRename and handleVMMove, on one machine of a host and the
-- folders of its disks. A cmdlet finds the machine by its name or its id; `Answers` says what the host
-- answers, and what Move-VMStorage leaves on the disks. The paths of Windows are a parameter.
pub mod Destinations
pub mod Reports
pub mod Moves
pub mod Renames
pub mod Resolution
use open_v_center_agent_hype.Base.{
  ℕ, String, Bool, true, false, not, ◌&&◌, ◌||◌, ◌==◌, Option, none, some, List, [], ◌∷◌,
  if◌then◌else◌, ltb,
}
use open_v_center_agent_hype.Folders.{Node, Disk, cleanup_empty_dir}
use open_v_center_agent_hype.Management.{VmManagementPayload}

pub record PlacedVm : Type 0 where
  pub id : String
  pub name : String
  pub path : String
  pub is_off : Bool

pub record Site : Type 0 where
  pub vm : PlacedVm
  pub disk : Disk

-- A line of a script that streams its progress.
pub data Line : Type 0 where
  percent : ℕ → Line
  other_line : Line

-- `checks` is whether the script of the first step works and prints what decodes; `moves` is the path
-- of the machine after Move-VMStorage, or `none` where the job fails.
pub record Answers : Type 0 where
  pub checks : Bool
  pub renames : Bool
  pub is_role : Bool
  pub moves : Option String
  pub leaves : Disk → Disk
  pub remove_all : String → Disk → Disk
  pub lines : List Line

-- strings.TrimSpace, strings.EqualFold, the functions of filepath, strings.ToUpper of a volume, whether
-- the text in small letters contains "hyper", and the default path of the host.
pub record Paths : Type 0 where
  pub trim : String → String
  pub equal_fold : String → String → Bool
  pub clean : String → String
  pub base_name : String → String
  pub dir : String → String
  pub join : String → String → String
  pub volume : String → String
  pub contains_hyper : String → Bool

pub data RelocateError : Type 0 where
  name_required invalid_params param_required vm_not_found vm_not_off check_failed folder_exists
        rename_failed move_failed not_allowed :
      RelocateError

pub data Outcome : Type 0 where
  refuses : RelocateError → Outcome
  completes : String → String → Outcome

-- The site after the task, the percentages reported, and the outcome with the id and the name.
pub record Handled : Type 0 where
  pub site : Site
  pub reports : List ℕ
  pub outcome : Outcome

abbrev pub stops : Site → List ℕ → RelocateError → Handled
stops s reports e = record { site = s; reports = reports; outcome = refuses e }

abbrev pub is_there : Option Node → Bool
is_there none = false
is_there (some n) = true

-- The percentages above the last one are reported.
unfoldable pub stream_reports : (ℕ → ℕ) → ℕ → List Line → List ℕ
stream_reports scale last [] = []
stream_reports scale last (other_line ∷ ls) = stream_reports scale last ls
stream_reports scale last (percent n ∷ ls) =
    let reported = stream_reports scale (scale n) ls in
    let silent = stream_reports scale last ls in
    if ltb last (scale n) then scale n ∷ reported else silent

module _ (os : Paths) (a : Answers) (p : VmManagementPayload) where
  abbrev pub result_id : PlacedVm → String
  result_id vm = if p.vm_id == "" then vm.id else p.vm_id

  -- Step 1 of both handlers.
  abbrev pub found_vm : PlacedVm → Bool
  found_vm vm = (vm.name == p.vm_name) || (vm.id == p.vm_id)

  abbrev pub rename_destination : String → PlacedVm → String
  rename_destination new_name vm = os.join (os.dir vm.path) new_name

  -- Steps 4 and 5 of a rename.
  abbrev pub move_renamed : String → Site → Option String → Handled
  move_renamed new_name s none =
      stops
        (record {
          vm = record s.vm { name = new_name };
          disk =
              cleanup_empty_dir a.remove_all (rename_destination new_name s.vm) (a.leaves s.disk);
        })
        (5 ∷ 10 ∷ 15 ∷ 25 ∷ []) move_failed
  move_renamed new_name s (some path) = record {
    site = record {
      vm = record s.vm { name = new_name; path = path };
      disk = cleanup_empty_dir a.remove_all s.vm.path (a.leaves s.disk);
    };
    reports = 5 ∷ 10 ∷ 15 ∷ 25 ∷ 95 ∷ 100 ∷ [];
    outcome = completes (result_id s.vm) new_name;
  }

  -- From step 1 on.
  abbrev pub rename_vm : String → Site → Handled
  rename_vm new_name s =
      if not (found_vm s.vm)
      then stops s (5 ∷ []) vm_not_found
      else if not s.vm.is_off
      then stops s (5 ∷ []) vm_not_off
      else if not a.checks
      then stops s (5 ∷ []) check_failed
      else if is_there (s.disk (rename_destination new_name s.vm))
      then stops s (5 ∷ 10 ∷ []) folder_exists
      else if (s.vm.name == p.vm_name) && a.renames
      then move_renamed new_name s a.moves
      else stops s (5 ∷ 10 ∷ 15 ∷ []) rename_failed

  unfoldable pub handle_vm_rename : Option String → Site → Handled
  handle_vm_rename none s =
      if p.vm_name == "" then stops s [] name_required else stops s [] invalid_params
  handle_vm_rename (some new_name) s =
      if p.vm_name == ""
      then stops s [] name_required
      else if new_name == ""
      then stops s [] param_required
      else rename_vm new_name s
