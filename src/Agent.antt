-- ===== src/Agent.antt =====
-- cmd/agent/main.go: what runAgent does with one delivery from the request queue. JSON decoding is
-- the parameter `parse_params`; a body that does not decode to a request is `none`.
pub mod Delivery
pub mod Duplicates
use open_v_center_agent_hype.Base.{
  String, Bool, true, false, not, Option, none, some, List, [], ◌∷◌, ◌==◌, ◌||◌, if◌then◌else◌,
}
use open_v_center_agent_hype.JobStore.{JobRecord, Result, ok, err, queued, create, has_conflict}
use open_v_center_agent_hype.Queue.Classifier.{among}
use open_v_center_agent_hype.Tasks.Functions.{resolve_function}
use open_v_center_agent_hype.Tasks.Params.{Params, text_of}

pub record AgentRequest : Type 0 where
  pub id : String
  pub function : String
  pub params : String

-- What the handling of one delivery meets: whether the agent is shutting down, the database's
-- refusals, and what it draws for a new job.
pub record Env : Type 0 where
  pub parse_params : String → Params
  pub cancelled : Bool
  pub conflict_fault : Bool
  pub create_fault : Bool
  pub job_id : String
  pub now_text : String

-- `nack true` puts the message back into the queue.
pub data Effect : Type 0 where
  ack triggers : Effect
  nack : Bool → Effect
  publishes_conflict : AgentRequest → String → Effect

unfoldable pub extract_vm_identifier : String → Params → String
extract_vm_identifier task_type p =
    if among ("vm_management" ∷ "vm_edit" ∷ "vm_status" ∷ []) task_type
    then text_of "vm_id" p
    else if task_type == "vm_create"
    then text_of "name" p
    else if task_type == "vm_clone"
    then text_of "new_name" p
    else ""

abbrev pub is_write_task : String → Bool
is_write_task = among ("vm_edit" ∷ "vm_create" ∷ "vm_clone" ∷ "vm_management" ∷ [])

-- An error of the query counts as no conflict.
abbrev pub conflict_of : Result Bool → Bool
conflict_of (err e) = false
conflict_of (ok b) = b

module _ (env : Env) where
  abbrev pub vm_of : AgentRequest → String
  vm_of req = extract_vm_identifier (resolve_function req.function).0 (env.parse_params req.params)

  abbrev pub job_of : AgentRequest → JobRecord
  job_of req = record {
    job_id = env.job_id;
    task_id = req.id;
    task_type = (resolve_function req.function).0;
    action = (resolve_function req.function).1;
    vm_identifier = vm_of req;
    payload = req.params;
    status = queued;
    worker_pid = 0;
    created_at = env.now_text;
    started_at = none;
    completed_at = none;
    error_message = "";
  }

  stored : List JobRecord → Result (List JobRecord) → List JobRecord × List Effect
  stored rows (err e) = (rows, nack false ∷ [])
  stored rows (ok new) = (new, ack ∷ triggers ∷ [])

  unfoldable pub conflicting : List JobRecord → AgentRequest → Bool
  conflicting rows req =
      if is_write_task (resolve_function req.function).0
      then conflict_of (
          has_conflict env.conflict_fault rows (resolve_function req.function).0
            (resolve_function req.function).1 (vm_of req))
      else false

  unfoldable pub handle_request : List JobRecord → AgentRequest → List JobRecord × List Effect
  unfolding stored
  handle_request rows req =
      if req.id == "" || req.function == ""
      then (rows, nack false ∷ [])
      else if env.cancelled
      then (rows, nack true ∷ [])
      else if conflicting rows req
      then (rows, publishes_conflict req (resolve_function req.function).0 ∷ ack ∷ [])
      else stored rows (create env.create_fault rows (job_of req))

  unfoldable pub handle_delivery :
      List JobRecord → Option AgentRequest → List JobRecord × List Effect
  handle_delivery rows none = (rows, nack false ∷ [])
  handle_delivery rows (some req) = handle_request rows req
