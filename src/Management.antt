-- ===== src/Management.antt =====
-- internal/tasks/vm_management.go: handleVMManagement, the routing of an action on machines. The
-- handlers are not run here; the resolution of a name is an argument.
pub mod Routing
pub mod Actions
pub mod Outcomes
pub mod Drives
pub mod Settings
use open_v_center_agent_hype.Base.{
  String, Bool, true, false, not, ◌&&◌, ◌||◌, ◌==◌, Option, none, some, List, [], ◌∷◌,
  if◌then◌else◌,
}
use open_v_center_agent_hype.Queue.Classifier.{among}

-- The parameters that route a task; the rest is the handler's.
pub record VmManagementPayload : Type 0 where
  pub action : String
  pub vm_id : String
  pub vm_name : String

-- The cases of the switch.
unfoldable pub handled_actions : List String
handled_actions =
    "vm_start" ∷ "vm_stop" ∷ "vm_shutdown" ∷ "vm_restart" ∷ "vm_pause" ∷ "vm_resume" ∷ "vm_delete"
    ∷ "eject_dvd" ∷ "mount_dvd" ∷ "enable_ha" ∷ "disable_ha" ∷ "vm_migrate" ∷ "snapshot_create"
    ∷ "snapshot_remove" ∷ "snapshot_restore" ∷ "refresh_status" ∷ "notes_edit"
    ∷ "vm_export_template" ∷ "vm_rename" ∷ "vm_move" ∷ "vm_startup_change" ∷ "vm_enable_metrics"
    ∷ "vm_disable_metrics" ∷ []

unfoldable pub batch_actions : List String
batch_actions = "vm_batch_start" ∷ "vm_batch_stop" ∷ []

-- What becomes of a task: an error, the batch handler, or the action's handler with a name.
pub data Routed : Type 0 where
  fails : String → Routed
  to_batch : Routed
  to_handler : String → VmManagementPayload → Routed

-- The name, resolved by the id where none was given.
abbrev pub with_name : (String → Option String) → VmManagementPayload → VmManagementPayload
with_name resolve p =
    if p.vm_name == ""
    then elim (resolve p.vm_id) [ none ↦ p | some name ↦ record p { vm_name = name } ]
    else p

-- `payload` is `none` where it is missing or does not decode.
unfoldable pub handle_vm_management : (String → Option String) → Option VmManagementPayload → Routed
handle_vm_management resolve none = fails "payload is required for vm_management"
handle_vm_management resolve (some p) =
    if p.action == ""
    then fails "action is required for vm_management"
    else if among batch_actions p.action
    then to_batch
    else if p.vm_id == ""
    then fails "vm_id is required for vm_management"
    else if among handled_actions p.action
    then to_handler p.action (with_name resolve p)
    else fails "unknown vm_management action"
