-- ===== src/Tasks/Dispatch.antt =====
-- Dispatch of dispatcher.go: the routing of a task and the response to it. What the handlers do on
-- the host (PowerShell) is the parameter `Handlers`; deadlines are in Timeouts.antt.
pub mod Routing
use Prim.Native.String.{◌++◌}
use open_v_center_agent_hype.Base.{
  String, Bool, not, ◌&&◌, ◌||◌, Option, none, some, List, [], ◌∷◌, ◌==◌, if◌then◌else◌,
}
use open_v_center_agent_hype.Queue.Classifier.{among}
use open_v_center_agent_hype.Tasks.Functions.{wire_function, vm_management, artifact_download}
use open_v_center_agent_hype.Tasks.Params.{Params, with_action, action_of, text_of}
use open_v_center_agent_hype.Tasks.Response.{TaskResponse}

pub record TaskMessage : Type 0 where
  pub task_id : String
  pub task_type : String
  pub action : String
  pub payload : Params

pub data Outcome (R : Type 0) : Type 0 where
  returned : R → Outcome R
  failed_with panicked : String → Outcome R

-- What a status query and an inventory report of a machine.
pub record Vm : Type 0 where
  pub id : String
  pub state : String

pub data Ident : Type 0 where
  by_id by_name : String → Ident

-- `created_name` is the name in a VMCreateResult, `vms` the list of a VMInventoryResult; both are
-- empty for results of another type. `vm_status` is `none` where the query fails.
pub record Handlers (R : Type 0) : Type 0 where
  pub run : String → Params → Outcome R
  pub vm_status : Ident → Option (List Vm)
  pub created_name : R → String
  pub vms : R → List Vm
  pub finished_at : String

-- The goroutines that Dispatch starts.
pub data Background : Type 0 where
  upgrades refreshes_inventory : Background

-- The cases of the `switch`, but for the agent upgrade.
abbrev pub handled_types : List String
handled_types =
    "agent_status" ∷ "hardware_inventory" ∷ "vm_inventory" ∷ "vm_status" ∷ "vm_create" ∷ "vm_clone"
    ∷ "vm_edit" ∷ "vm_management" ∷ "host_management" ∷ "template_inventory" ∷ "iso_inventory"
    ∷ "host_metrics" ∷ "vm_metrics" ∷ []

abbrev pub is_vm_state_changing_task : String → Bool
is_vm_state_changing_task = among ("vm_create" ∷ "vm_clone" ∷ "vm_edit" ∷ "vm_management" ∷ [])

abbrev pub is_action : String → String → Params → Bool
is_action name task_type p = task_type == vm_management && action_of p == name

abbrev pub is_delete_action : String → Params → Bool
is_delete_action = is_action "vm_delete"

abbrev pub is_refresh_status_action : String → Params → Bool
is_refresh_status_action = is_action "refresh_status"

abbrev pub is_notes_edit_action : String → Params → Bool
is_notes_edit_action = is_action "notes_edit"

module _ {R : Type 0} (h : Handlers R) where
  -- extractVMIdentifier.
  unfoldable pub extract_vm_identifier : String → Params → R → Option Ident
  extract_vm_identifier task_type p result =
      if (task_type == vm_management || task_type == "vm_edit") && not (text_of "vm_id" p == "")
      then some (by_id (text_of "vm_id" p))
      else if (task_type == vm_management || task_type == "vm_edit")
          && not (text_of "vm_name" p == "")
      then some (by_name (text_of "vm_name" p))
      else if (task_type == "vm_create" || task_type == "vm_clone")
          && not (h.created_name result == "")
      then some (by_name (h.created_name result))
      else none

  attach : Option (List Vm) → TaskResponse R → TaskResponse R
  attach none r = r
  attach (some []) r = r
  attach (some (vm ∷ _)) r = record r { vm_id = vm.id; vm_state = vm.state }

  query : Option Ident → Option (List Vm)
  query none = none
  query (some ident) = h.vm_status ident

  -- The fresh state of the machine that a task changed.
  after_change : String → Params → R → TaskResponse R → TaskResponse R
  after_change task_type p result r =
      if is_refresh_status_action task_type p || is_notes_edit_action task_type p
      then attach (some (h.vms result)) r
      else if is_delete_action task_type p
      then r
      else attach (query (extract_vm_identifier task_type p result)) r

  base : TaskMessage → TaskResponse R
  base m = record {
    task_id = m.task_id;
    task_type = m.task_type;
    function = wire_function m.task_type m.action;
    status = "";
    result = none;
    progress = none;
    error = none;
    vm_id = "";
    vm_state = "";
    finished_at = h.finished_at;
    internal_status = "";
  }

  fail : TaskMessage → String → TaskResponse R × List Background
  fail m e = (record (base m) { status = "failed"; error = some e }, [])

  respond : TaskMessage → Params → Outcome R → TaskResponse R × List Background
  respond m p (failed_with e) = fail m e
  respond m p (panicked e) = fail m ("internal panic: " ++ e)
  respond m p (returned result) =
      let done : TaskResponse R = record (base m) { status = "completed"; result = some result } in
      if is_vm_state_changing_task m.task_type
      then (
        after_change m.task_type p result done,
        if is_refresh_status_action m.task_type p then [] else refreshes_inventory ∷ [],
      )
      else (done, [])

  accepted : TaskMessage → TaskResponse R
  accepted m = record (base m) {
    status = "in_progress";
    progress = some (record { percent = 0; message = "Task accepted, starting agent upgrade..." });
    finished_at = "";
  }

  unfoldable pub outcome : String → Params → Outcome R
  outcome task_type p =
      if among handled_types task_type
      then h.run task_type p
      else failed_with ("unknown task type: " ++ task_type)

  unfoldable pub dispatch : TaskMessage → TaskResponse R × List Background
  unfolding accepted respond outcome fail base after_change attach query extract_vm_identifier
  dispatch m =
      let p = with_action m.payload m.action in
      if m.task_type == artifact_download
      then (accepted m, upgrades ∷ [])
      else respond m p (outcome m.task_type p)
