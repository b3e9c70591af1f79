-- ===== src/Examples/Messages.antt =====
-- Requests, from the queue to the response.
use open_v_center_agent_hype.Base.{
  arith, refl, ◌≤◌, ◌≢◌, ◌∷◌, [], some, false, String, tally, eq_iff,
}
use open_v_center_agent_hype.JobStore.{conflicts}
use open_v_center_agent_hype.Tasks.Params.{text, object}
use open_v_center_agent_hype.Tasks.Dispatch.{dispatch, TaskMessage, returned, Handlers}
use open_v_center_agent_hype.Tasks.Dispatch.Routing.{Answers, dispatch-Answers}
use open_v_center_agent_hype.Agent.{AgentRequest, Env, handle_delivery}
use open_v_center_agent_hype.Agent.Delivery.{Settled, handle_delivery-Settled}
use open_v_center_agent_hype.Agent.Duplicates.{NoDuplicates, handle_delivery-NoDuplicates}
use open_v_center_agent_hype.Examples.Fixtures.{edit}

-- The backend asks for a start of the machine that an edit waits for.
abbrev request : AgentRequest
request = record { id = "t-9"; function = "vm_start"; params = "{\"vm_id\": \"vm1\"}" }

abbrev agent : Env
agent = record {
  parse_params = λ body. object (("vm_id", text "vm1") ∷ []);
  cancelled = false;
  conflict_fault = false;
  create_fault = false;
  job_id = "j9";
  now_text = "now";
}

one-NoDuplicates : NoDuplicates (edit ∷ [])
unfolding conflicts
one-NoDuplicates task_type action vm w n = ground arith

handle_delivery-NoDuplicates_example :
    tally (conflicts "vm_edit" "" "vm1") (handle_delivery agent (edit ∷ []) (some request)).0 ≤ 1
handle_delivery-NoDuplicates_example =
    handle_delivery-NoDuplicates agent (edit ∷ []) (some request) refl one-NoDuplicates "vm_edit" ""
      "vm1" refl named
  where
    named : ◌≢◌ {A = String} "vm1" ""
    named e = ground (arith, eq_iff "vm1" "", e)

handle_delivery-Settled_example :
    Settled agent (edit ∷ []) (some request) (handle_delivery agent (edit ∷ []) (some request))
handle_delivery-Settled_example = handle_delivery-Settled agent (edit ∷ []) (some request)

abbrev start : TaskMessage
start = record {
  task_id = "t-9";
  task_type = "vm_management";
  action = "vm_start";
  payload = object (("vm_id", text "vm1") ∷ []);
}

abbrev handlers : Handlers Unit
handlers = record {
  run = λ task_type p. returned tt;
  vm_status = λ ident. some ((record { id = "vm1"; state = "Running" }) ∷ []);
  created_name = λ r. "";
  vms = λ r. [];
  finished_at = "now";
}

no_upgrade : start.task_type ≢ "artifact_download"
no_upgrade e = ground (arith, eq_iff "vm_management" "artifact_download", e)

dispatch-Answers_example : Answers handlers start (dispatch handlers start)
dispatch-Answers_example = dispatch-Answers handlers start no_upgrade
