-- ===== src/Queue/Scheduler.antt =====
-- scheduler.go: the periodic refresh jobs. Durations are seconds and not negative, as the
-- configuration gives them; `stamp` is the Unix time as a text.
use Prim.Native.String.{◌++◌}
use text.Mathlib.Text.{starts_with}
use open_v_center_agent_hype.Base.{
  ℕ, String, Bool, true, false, not, none, List, [], ◌∷◌, ◌==◌, if◌then◌else◌, any, select, nat_eq,
}
use open_v_center_agent_hype.JobStore.{
  JobRecord, Result, ok, err, queued, running, create, list_by_status,
}

abbrev pub periodic_refresh_prefix : String
periodic_refresh_prefix = "refresh-"

unfoldable pub periodic_refresh_task_id : String → String → String
periodic_refresh_task_id task_type stamp = periodic_refresh_prefix ++ (task_type ++ ("-" ++ stamp))

unfoldable pub is_periodic_refresh_task_id : String → Bool
is_periodic_refresh_task_id task_id = starts_with task_id periodic_refresh_prefix

abbrev pub default_heartbeat_interval : ℕ
default_heartbeat_interval = 60

pub record SchedulerConfig : Type 0 where
  pub refresh_interval_vms : ℕ
  pub refresh_interval_host : ℕ
  pub metrics_interval : ℕ
  pub heartbeat_interval : ℕ

pub record RefreshSpec : Type 0 where
  pub task_type : String
  pub interval : ℕ
  pub delay : ℕ

abbrev spec : String → ℕ → ℕ → RefreshSpec
spec task_type interval delay = record { task_type = task_type; interval = interval; delay = delay }

unfoldable pub build_specs : SchedulerConfig → List RefreshSpec
build_specs c =
    let heartbeat =
      if nat_eq c.heartbeat_interval 0 then default_heartbeat_interval else c.heartbeat_interval in
    spec "vm_inventory" c.refresh_interval_vms 0
    ∷ spec "hardware_inventory" c.refresh_interval_host 30
    ∷ spec "template_inventory" c.refresh_interval_host 60
    ∷ spec "iso_inventory" c.refresh_interval_host 90
    ∷ spec "agent_status" heartbeat 15
    ∷ spec "vm_metrics" c.metrics_interval 20
    ∷ spec "host_metrics" c.metrics_interval 45
    ∷ []

-- The loops that Run starts.
unfoldable pub enabled_specs : SchedulerConfig → List RefreshSpec
unfolding build_specs
enabled_specs c = select (λ s. not (nat_eq s.interval 0)) (build_specs c)

-- What one tick meets: the context, the database's refusals, and what it draws for the new job.
pub record Tick : Type 0 where
  pub cancelled : Bool
  pub list_fault : String → Bool
  pub create_fault : Bool
  pub job_id : String
  pub stamp : String
  pub now_text : String

abbrev pub of_type : String → JobRecord → Bool
of_type task_type job = job.task_type == task_type

-- A list that fails is logged and skipped.
found : String → Result (List JobRecord) → Bool
found task_type (err e) = false
found task_type (ok jobs) = any (of_type task_type) jobs

unfoldable pub has_existing_refresh : (String → Bool) → List JobRecord → String → Bool
unfolding found
has_existing_refresh list_fault rows task_type =
    any (λ status. found task_type (list_by_status (list_fault status) rows status))
      (queued ∷ running ∷ [])

abbrev pub refresh_job : Tick → String → JobRecord
refresh_job t task_type = record {
  job_id = t.job_id;
  task_id = periodic_refresh_task_id task_type t.stamp;
  task_type = task_type;
  action = "";
  vm_identifier = "";
  payload = "";
  status = queued;
  worker_pid = 0;
  created_at = t.now_text;
  started_at = none;
  completed_at = none;
  error_message = "";
}

-- The rows after, and whether the dispatcher is signalled.
created : List JobRecord → Result (List JobRecord) → List JobRecord × Bool
created rows (err e) = (rows, false)
created rows (ok new) = (new, true)

unfoldable pub maybe_create_refresh_job : Tick → List JobRecord → String → List JobRecord × Bool
unfolding created
maybe_create_refresh_job t rows task_type =
    if t.cancelled
    then (rows, false)
    else if has_existing_refresh t.list_fault rows task_type
    then (rows, false)
    else created rows (create t.create_fault rows (refresh_job t task_type))
