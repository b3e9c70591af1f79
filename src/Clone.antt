-- ===== src/Clone.antt =====
-- internal/tasks/vm_clone.go: handleVMClone. The host is its machines, its folders and whether an export may
-- be left; the scripts answer, and the folder of resolveVMFolder is an answer too. The disks of a machine that
-- is expanded are those of Conversion; the percentages of the export are not modelled.
pub mod Retries
use open_v_center_agent_hype.Base.{
  ◌≡◌, String, Bool, true, false, not, ◌&&◌, ◌||◌, ◌==◌, Option, none, some, List, [], ◌∷◌, ◌++◌,
  if◌then◌else◌, ℕ, ltb, nat_eq,
}
use open_v_center_agent_hype.Queue.Classifier.{among}

-- VMClonePayload. A number that is not positive is 0.
pub record VmClonePayload : Type 0 where
  pub clone_type : String
  pub name : String
  pub path : String
  pub source_vm_name : String
  pub source_export_path : String
  pub expand_disks : Option Bool
  pub cpu_count : ℕ
  pub memory_mb : ℕ
  pub notes : String
  pub vlan_id : Option ℕ
  pub nested_virtualization : Option Bool
  pub ha_enabled : Option Bool
  pub start_now : Option Bool

pub record Host : Type 0 where
  pub machines : List String
  pub folders : List String
  pub has_export : Bool

-- What the second check finds of a source that is imported.
pub data Source : Type 0 where
  missing running with_snapshots ready : Source

-- What the script of the import does: it may fail before it makes the folder, after it without a machine
-- of the new name, or with one; or it ends with an id.
pub data Import : Type 0 where
  no_folder no_machine half_done : Import
  imported : String → Import

pub record Answers : Type 0 where
  pub resolved : Option String
  pub finds_disks : Bool
  pub source_bytes : ℕ
  pub has_space : Bool
  pub checks : Bool
  pub source : Source
  pub exports : Bool
  pub imports : Import
  pub removes_export : Bool
  pub starts : Bool

pub data CloneError : Type 0 where
  type_required invalid_type name_required no_destination source_required export_required
        disks_unknown no_space check_failed name_taken folder_exists source_refused export_failed
        import_failed :
      CloneError

-- The scripts that follow the import.
pub data Setting : Type 0 where
  expand set_memory set_cpu set_notes set_vlan nest cluster start : Setting

pub record Cloned : Type 0 where
  pub vm_name : String
  pub vm_id : String
  pub is_started : Bool
  pub ran : List Setting

pub data Outcome : Type 0 where
  refuses : CloneError → Outcome
  clones : Cloned → Outcome

abbrev pub Run : Type 0
Run = Host × Outcome

abbrev or_no : Option Bool → Bool
or_no none = false
or_no (some b) = b

abbrev or_yes : Option Bool → Bool
or_yes none = true
or_yes (some b) = b

abbrev is_some_number : Option ℕ → Bool
is_some_number none = false
is_some_number (some n) = true

abbrev step : Bool → Setting → List Setting
step b s = if b then s ∷ [] else []

-- Each is run if it is asked for, and its failure is only logged.
abbrev settings : VmClonePayload → List Setting
settings p =
    step ((p.clone_type == "exported") && or_yes p.expand_disks) expand
    ++ step (ltb 0 p.cpu_count) set_cpu
    ++ step (ltb 0 p.memory_mb) set_memory
    ++ step (not (p.notes == "")) set_notes
    ++ step (is_some_number p.vlan_id) set_vlan
    ++ step (or_no p.nested_virtualization) nest
    ++ step (or_no p.ha_enabled) cluster
    ++ step (or_no p.start_now) start

abbrev refuse : CloneError → Host → Run
refuse e h = (h, refuses e)

module _ (a : Answers) (p : VmClonePayload) where
  abbrev is_import : Bool
  is_import = p.clone_type == "imported"

  -- The folder of the export is removed if it can be.
  abbrev clean_export : Host → Host
  clean_export h = if is_import && a.removes_export then record h { has_export = false } else h

  abbrev with_folder : String → Host → Host
  with_folder dir h = record h { folders = dir ∷ h.folders }

  abbrev with_machine : String → Host → Host
  with_machine dir h = record h { machines = p.name ∷ h.machines; folders = dir ∷ h.folders }

  abbrev pub import_vm : String → Import → Host → Run
  import_vm dir no_folder h = refuse import_failed (clean_export h)
  import_vm dir no_machine h = refuse import_failed (clean_export (with_folder dir h))
  import_vm dir half_done h = refuse import_failed (clean_export (with_machine dir h))
  import_vm dir (imported id) h = (
    clean_export (with_machine dir h),
    clones (record {
      vm_name = p.name;
      vm_id = id;
      is_started = or_no p.start_now && a.starts;
      ran = settings p;
    }),
  )

  abbrev pub export_source : String → Source → Host → Run
  export_source dir ready h =
      if a.exports
      then import_vm dir a.imports (record h { has_export = true })
      else refuse export_failed (record h { has_export = true })
  export_source dir missing h = refuse source_refused h
  export_source dir running h = refuse source_refused h
  export_source dir with_snapshots h = refuse source_refused h

  -- The check of the name and of the folder, then the export of a machine, and the import.
  unfoldable pub precheck : String → Host → Run
  precheck dir h =
      if not a.checks
      then refuse check_failed h
      else if among h.machines p.name
      then refuse name_taken h
      else if among h.folders dir
      then refuse folder_exists h
      else if is_import
      then export_source dir a.source h
      else import_vm dir a.imports h

  -- The space is checked if the source has a size.
  abbrev check_space : String → Host → Run
  check_space dir h =
      if is_import && not a.finds_disks
      then refuse disks_unknown h
      else if ltb 0 a.source_bytes && not a.has_space
      then refuse no_space h
      else precheck dir h

  abbrev check_source : String → Host → Run
  check_source dir h =
      if is_import && (p.source_vm_name == "")
      then refuse source_required h
      else if (p.clone_type == "exported") && (p.source_export_path == "")
      then refuse export_required h
      else check_space dir h

  abbrev or_resolved : Option String → Host → Run
  or_resolved none h = refuse no_destination h
  or_resolved (some dir) h = check_source dir h

  unfoldable pub handle_vm_clone : Host → Run
  handle_vm_clone h =
      if p.clone_type == ""
      then refuse type_required h
      else if not (is_import || (p.clone_type == "exported"))
      then refuse invalid_type h
      else if p.name == ""
      then refuse name_required h
      else if p.path == ""
      then or_resolved a.resolved h
      else check_source p.path h
