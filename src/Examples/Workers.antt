-- ===== src/Examples/Workers.antt =====
-- Runs of a worker.
use open_v_center_agent_hype.Base.{refl, ◌∷◌, [], some, none, true, false, List}
use open_v_center_agent_hype.JobStore.{JobRecord}
use open_v_center_agent_hype.Tasks.Response.{TaskResponse}
use open_v_center_agent_hype.Worker.{WorkerEnv, run_job}
use open_v_center_agent_hype.Worker.Settles.{Settled, run_job-Settled}
use open_v_center_agent_hype.Examples.Fixtures.{running_edit}
use open_v_center_agent_hype.Examples.Jobs.{marked, find-running_edit}

-- What a worker meets when everything works: the handler completed.
abbrev response : TaskResponse Unit
response = record {
  task_id = "t-1";
  task_type = "vm_edit";
  function = "vm_edit";
  status = "completed";
  result = some tt;
  progress = none;
  error = none;
  vm_id = "";
  vm_state = "";
  finished_at = "now";
  internal_status = "";
}

abbrev pub good : WorkerEnv Unit
good = record {
  config_loads = true;
  read_fault = false;
  update_fault = false;
  connect_error = none;
  declare_error = none;
  response = response;
  publish_error = none;
  state_kind = none;
  state_declare_error = none;
  now_text = "now";
}

run_job-Settled_example :
    Settled good refl marked "j1" running_edit find-running_edit refl running_edit
      (run_job good marked marked "j1")
run_job-Settled_example =
    run_job-Settled good refl marked "j1" running_edit find-running_edit refl running_edit marked
      refl refl find-running_edit refl

-- A refresh that runs.
abbrev refresh : List JobRecord
refresh = record running_edit { task_id = "refresh-vm_inventory-1767261600" } ∷ []
