-- ===== src/Management/Actions.antt =====
-- internal/tasks/vm_management.go: the handlers of the power states and of the snapshots of one machine.
-- Scripts are named by what they do; PowerShell answers a script through `shell`. Texts of errors keep
-- their constant part.
use open_v_center_agent_hype.Base.{String, ◌==◌, Option, none, some, List, [], ◌∷◌, if◌then◌else◌}
use open_v_center_agent_hype.Management.{VmManagementPayload}

-- `create_snapshot` and the next ones take the id of the machine, the others its name.
pub data Script : Type 0 where
  start_vm turn_off_vm suspend_vm resume_vm restart_vm read_state : String → Script
  create_snapshot remove_snapshot restore_snapshot : String → String → Script
  remove_all_snapshots : String → Script

-- What the text of an error contains.
pub data Failure : Type 0 where
  vm_not_found snapshot_not_found other_failure : Failure

pub data Reply : Type 0 where
  fails : Failure → Reply
  prints : String → Reply

pub record VmManagementResult : Type 0 where
  pub vm_id : String
  pub vm_name : String
  pub action : String
  pub status : String

pub data Outcome : Type 0 where
  refuses : String → Outcome
  gives : VmManagementResult → Outcome

-- The scripts that were run, in order, and the outcome.
abbrev pub Handled : Type 0
Handled = List Script × Outcome

-- SnapshotCreateParams and SnapshotIDParams; `none` where they do not decode.
pub record SnapshotParams : Type 0 where
  pub name : Option String
  pub snapshot_id : Option String

abbrev explain : Failure → String → String
explain vm_not_found other = "VM not found"
explain snapshot_not_found other = "snapshot not found"
explain other_failure other = other

-- The script of snapshot_create never says that a snapshot is missing.
abbrev explain_create : Failure → String → String
explain_create vm_not_found other = "VM not found"
explain_create snapshot_not_found other = other
explain_create other_failure other = other

abbrev pub or_state : Reply → String → String
or_state (fails f) state = state
or_state (prints s) state = s

module _ (shell : Script → Reply) (p : VmManagementPayload) where
  abbrev pub result : String → String → VmManagementResult
  result action status = record {
    vm_id = p.vm_id;
    vm_name = p.vm_name;
    action = action;
    status = status;
  }

  -- The result of a script that changes the state, which is then read.
  abbrev pub then_state : String → Script → String → Reply → Handled
  then_state action script state (fails f) =
      (script ∷ [], refuses "failed to change the state of the VM")
  then_state action script state (prints out) = (
    script ∷ read_state p.vm_name ∷ [],
    gives (result action (or_state (shell (read_state p.vm_name)) state)),
  )

  abbrev pub change_state : String → Script → String → Handled
  change_state action script state =
      if p.vm_name == ""
      then ([], refuses "vm_name is required")
      else then_state action script state (shell script)

  unfoldable pub handle_vm_start_action : Handled
  handle_vm_start_action = change_state "vm_start" (start_vm p.vm_name) "Running"

  unfoldable pub handle_vm_pause_action : Handled
  handle_vm_pause_action = change_state "vm_pause" (suspend_vm p.vm_name) "Paused"

  unfoldable pub handle_vm_resume_action : Handled
  handle_vm_resume_action = change_state "vm_resume" (resume_vm p.vm_name) "Running"

  unfoldable pub handle_vm_restart_action : Handled
  handle_vm_restart_action = change_state "vm_restart" (restart_vm p.vm_name) "Running"

  abbrev pub new_vm_stop_result : String → VmManagementResult
  new_vm_stop_result state = result "vm_stop" (if state == "" then "Off" else state)

  -- The error of the script is dropped, and its output is then empty.
  unfoldable pub handle_vm_stop_action : Handled
  handle_vm_stop_action = if p.vm_name == "" then ([], refuses "vm_name is required") else (
    turn_off_vm p.vm_name ∷ [],
    gives (new_vm_stop_result (or_state (shell (turn_off_vm p.vm_name)) "")),
  )

  abbrev pub completed_by : String → Script → (Failure → String) → Reply → Handled
  completed_by action script why (fails f) = (script ∷ [], refuses (why f))
  completed_by action script why (prints out) = (script ∷ [], gives (result action "completed"))

  abbrev pub with_param : Option String → (String → Handled) → Handled
  with_param none f = ([], refuses "invalid params")
  with_param (some v) f = if v == "" then ([], refuses "a parameter is required") else f v

  unfoldable pub handle_snapshot_create : SnapshotParams → Handled
  handle_snapshot_create params = with_param params.name λ name.
      completed_by "snapshot_create" (create_snapshot p.vm_id name)
        (λ f. explain_create f "failed to create snapshot") (shell (create_snapshot p.vm_id name))

  abbrev pub removal : String → Script
  removal id = if id == "all" then remove_all_snapshots p.vm_id else remove_snapshot p.vm_id id

  unfoldable pub handle_snapshot_remove : SnapshotParams → Handled
  handle_snapshot_remove params = with_param params.snapshot_id λ id.
      completed_by "snapshot_remove" (removal id) (λ f. explain f "failed to remove snapshot")
        (shell (removal id))

  unfoldable pub handle_snapshot_restore : SnapshotParams → Handled
  handle_snapshot_restore params = with_param params.snapshot_id λ id.
      completed_by "snapshot_restore" (restore_snapshot p.vm_id id)
        (λ f. explain f "failed to restore snapshot") (shell (restore_snapshot p.vm_id id))
