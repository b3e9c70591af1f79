-- ===== src/Worker.antt =====
-- internal/worker: the process that runs one job (worker.go), and the end of an agent upgrade in
-- it (executor.go). The broker's answers are parameters; `R` is the type of the handlers' results.
pub mod Reports
pub mod Settles
pub mod Race
pub mod Moves
use Prim.Native.String.{◌++◌}
use open_v_center_agent_hype.Base.{
  ℕ, String, Bool, true, false, not, Option, none, some, List, [], ◌∷◌, ◌==◌, ◌||◌, if◌then◌else◌,
}
use open_v_center_agent_hype.JobStore.{
  JobRecord, Fields, Result, ok, err, running, completed, failed, get_by_id, update_status,
}
use open_v_center_agent_hype.Queue.Scheduler.{is_periodic_refresh_task_id}
use open_v_center_agent_hype.Tasks.Response.{TaskResponse, terminal_status}

-- What one run meets. An error text is `none` where the step succeeds. `state_kind` is the queue
-- kind that StatePayload gives for the task, if it has one.
pub record WorkerEnv (R : Type 0) : Type 0 where
  pub config_loads : Bool
  pub read_fault : Bool
  pub update_fault : Bool
  pub connect_error : Option String
  pub declare_error : Option String
  pub response : TaskResponse R
  pub publish_error : Option String
  pub state_kind : Option String
  pub state_declare_error : Option String
  pub now_text : String

pub data Effect : Type 0 where
  executes publishes_response : Effect
  publishes_state : String → Effect

pub record Run : Type 0 where
  pub store : List JobRecord
  pub effects : List Effect
  pub exit_code : ℕ

abbrev pub end_fields : String → Option String → Fields
end_fields now message = record {
  started_at = none;
  completed_at = some now;
  worker_pid = none;
  error_message = message;
}

abbrev or_same : Result (List JobRecord) → List JobRecord → List JobRecord
or_same (ok new) rows = new
or_same (err e) rows = rows

abbrev or_empty : Option String → String
or_empty none = ""
or_empty (some s) = s

module _ {R : Type 0} (env : WorkerEnv R) where
  -- updateJobStatus and updateJobStatusWithFields, whose errors are logged.
  move : List JobRecord → String → String → Option String → List JobRecord
  move rows id to message =
      or_same (update_status env.update_fault rows id running to (end_fields env.now_text message))
        rows

  stop : List JobRecord → List Effect → Run
  stop rows effects = record { store = rows; effects = effects; exit_code = 1 }

  fail_job : List JobRecord → String → String → List Effect → Run
  fail_job rows id message effects = stop (move rows id failed (some message)) effects

  queue_declared : Option String → String → List Effect
  queue_declared none kind = publishes_state kind ∷ []
  queue_declared (some e) kind = []

  for_kind : Option String → List Effect
  for_kind none = []
  for_kind (some kind) = queue_declared env.state_declare_error kind

  -- publishToStateQueues; an error of the publication itself is logged.
  state_effects : List Effect
  state_effects =
      if terminal_status env.response == "completed" then for_kind env.state_kind else []

  finish : List JobRecord → String → List Effect → Run
  finish rows id effects = record {
    store =
        if terminal_status env.response == "completed"
        then move rows id completed none
        else move rows id failed (some (or_empty env.response.error));
    effects = effects;
    exit_code = if env.response.status == "failed" then 1 else 0;
  }

  published : Option String → List JobRecord → String → Run
  published none rows id = finish rows id (executes ∷ publishes_response ∷ state_effects)
  published (some e) rows id =
      fail_job rows id ("failed to publish response: " ++ e) (executes ∷ [])

  report : JobRecord → List JobRecord → String → Run
  report job rows id =
      if is_periodic_refresh_task_id job.task_id
      then finish rows id (executes ∷ state_effects)
      else published env.publish_error rows id

  declared : Option String → JobRecord → List JobRecord → String → Run
  declared none job rows id = report job rows id
  declared (some e) job rows id = fail_job rows id ("failed to declare response queue: " ++ e) []

  connected : Option String → JobRecord → List JobRecord → String → Run
  connected none job rows id = declared env.declare_error job rows id
  connected (some e) job rows id = fail_job rows id ("failed to connect to RabbitMQ: " ++ e) []

  loaded : Result JobRecord → List JobRecord → String → Run
  loaded (err e) rows id = stop rows []
  loaded (ok job) rows id =
      if job.status == running then connected env.connect_error job rows id else stop rows []

  -- RunJob: `early` is the store when the job is read, `rows` the store when its status is set.
  unfoldable pub run_job : List JobRecord → List JobRecord → String → Run
  unfolding loaded connected declared report published finish for_kind queue_declared state_effects
      fail_job stop move
  run_job early rows id =
      if env.config_loads then loaded (get_by_id env.read_fault early id) rows id else stop rows []

-- executeArtifactDownload: the first terminal response that the upgrade publishes, of those that
-- come before the time-out; without one, a failure of the worker's own.
unfoldable pub execute_artifact_download :
    {R : Type 0} → TaskResponse R → List (TaskResponse R) → TaskResponse R
execute_artifact_download timed_out [] = timed_out
execute_artifact_download timed_out (r ∷ rs) =
    if terminal_status r == "completed" || terminal_status r == "failed"
    then r
    else execute_artifact_download timed_out rs
