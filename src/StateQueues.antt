-- ===== src/StateQueues.antt =====
-- internal/tasks/state_payload.go, the queues that cmd/agent/main.go declares at the start, and the one
-- that a worker declares before it publishes (internal/worker/worker.go).
pub mod Agreement
use Prim.Native.String.{len, slice}
use open_v_center_agent_hype.Base.{
  String, ◌-◌, Bool, true, false, ◌&&◌, ◌==◌, Option, none, some, List, [], ◌∷◌, leb, if◌then◌else◌,
}

-- The arguments of a declaration: none, or a length of one whose overflow drops the oldest message.
pub data QueueArgs : Type 0 where
  plain last_value : QueueArgs

-- Where the items of a payload come from.
pub data Payload : Type 0 where
  from_result empty_list : Payload

abbrev or_empty : Bool → Payload
or_empty true = from_result
or_empty false = empty_list

abbrev only_if : Bool → String → Option (String × Payload)
only_if true kind = some (kind, from_result)
only_if false kind = none

-- The kind of the queue and the payload; `has_type` says that the result is one of the task's own type.
unfoldable pub state_payload : String → Bool → Option (String × Payload)
state_payload task_type has_type =
    if task_type == "agent_status"
    then only_if has_type "agent_status"
    else if task_type == "vm_inventory"
    then some ("vm_inventory", or_empty has_type)
    else if task_type == "hardware_inventory"
    then some ("host_inventory", from_result)
    else if task_type == "template_inventory"
    then some ("template_inventory", or_empty has_type)
    else if task_type == "iso_inventory"
    then some ("iso_inventory", or_empty has_type)
    else if task_type == "host_metrics"
    then only_if has_type "host_metrics"
    else if task_type == "vm_metrics"
    then some ("vm_metrics", or_empty has_type)
    else none

-- strings.HasSuffix.
abbrev has_suffix : String → String → Bool
has_suffix s t = leb (len t) (len s) && slice s (len s - len t) (len s) == t

unfoldable pub declare_state_queue : String → QueueArgs
declare_state_queue kind = if has_suffix kind "_metrics" then plain else last_value

-- The kinds that the agent declares at its start.
abbrev pub agent_declares : List (String × QueueArgs)
agent_declares =
    ("agent_status", last_value)
    ∷ ("vm_inventory", last_value)
    ∷ ("host_inventory", last_value)
    ∷ ("template_inventory", last_value)
    ∷ ("iso_inventory", last_value)
    ∷ ("vm_metrics", plain)
    ∷ ("host_metrics", plain)
    ∷ []
