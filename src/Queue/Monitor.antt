-- ===== src/Queue/Monitor.antt =====
-- monitor.go: the registry of running workers, what happens when one ends, and the time-outs.
-- The map keyed by job id is a list of entries; the program never depends on its order.
use open_v_center_agent_hype.Base.{
  ℕ, ◌-◌, String, Bool, not, ◌&&◌, ◌||◌, Option, none, some, List, [], ◌∷◌, ◌==◌, if◌then◌else◌,
  any, select, length, ltb,
}
use open_v_center_agent_hype.JobStore.{
  JobRecord, Fields, Result, ok, err, get_by_id, update_status, running, completed, failed,
}
use open_v_center_agent_hype.Queue.Classifier.{JobClass, is_write, is_host_write}

-- `started_at` counts seconds of the service's clock.
pub record WorkerEntry : Type 0 where
  pub job_id : String
  pub task_id : String
  pub pid : ℕ
  pub started_at : ℕ
  pub task_type : String
  pub action : String
  pub vm_identifier : String
  pub job_class : JobClass

pub record Monitor : Type 0 where
  pub workers : List WorkerEntry
  pub default_timeout : ℕ

abbrev pub is_worker : String → WorkerEntry → Bool
is_worker id e = e.job_id == id

-- delete(m.workers, id)
abbrev pub unregister : String → Monitor → Monitor
unregister id m = record m { workers = select (λ e. not (is_worker id e)) m.workers }

-- m.workers[entry.JobID] = entry
unfoldable pub register : WorkerEntry → Monitor → Monitor
register e m = record m { workers = e ∷ (unregister e.job_id m).workers }

abbrev pub running_count : Monitor → ℕ
running_count m = length m.workers

abbrev pub host_writes : WorkerEntry → Bool
host_writes e = is_host_write e.job_class

abbrev pub any_writes : WorkerEntry → Bool
any_writes e = is_write e.job_class || is_host_write e.job_class

abbrev pub writes_vm : String → WorkerEntry → Bool
writes_vm vm e = is_write e.job_class && e.vm_identifier == vm

abbrev pub has_running_host_write : Monitor → Bool
has_running_host_write m = any host_writes m.workers

abbrev pub has_running_write : Monitor → Bool
has_running_write m = any any_writes m.workers

abbrev pub has_running_write_for_vm : Monitor → String → Bool
has_running_write_for_vm m vm = any (writes_vm vm) m.workers

-- The callbacks that handleTermination makes, in order.
pub data Callback : Type 0 where
  on_finish : Callback
  on_worker_failed : WorkerEntry → String → Callback
  on_job_completed : WorkerEntry → Callback

pub record Termination : Type 0 where
  pub store : List JobRecord
  pub monitor : Monitor
  pub callbacks : List Callback

abbrev pub crash_message : String
crash_message = "unexpected worker termination"

abbrev pub crash_fields : String → Fields
crash_fields now = record {
  started_at = none;
  completed_at = some now;
  worker_pid = none;
  error_message = some crash_message;
}

abbrev pub or_store : Result (List JobRecord) → List JobRecord → List JobRecord
or_store (ok new) rows = new
or_store (err e) rows = rows

-- The callbacks follow the status that was read before the update.
unfoldable pub ended :
    Bool → String → WorkerEntry → List JobRecord → Monitor → Result JobRecord → Termination
ended fault now e rows m (err x) = record {
  store = rows;
  monitor = unregister e.job_id m;
  callbacks = on_finish ∷ [];
}
ended fault now e rows m (ok job) =
    if job.status == running
    then record {
      store = or_store (update_status fault rows e.job_id running failed (crash_fields now)) rows;
      monitor = unregister e.job_id m;
      callbacks = on_finish ∷ on_worker_failed e crash_message ∷ [];
    }
    else record {
      store = rows;
      monitor = unregister e.job_id m;
      callbacks = on_finish ∷ (if job.status == completed then on_job_completed e ∷ [] else []);
    }

-- The faults are those of the read and of the update.
unfoldable pub handle_termination :
    Bool → Bool → String → WorkerEntry → List JobRecord → Monitor → Termination
unfolding ended
handle_termination read_fault fault now e rows m =
    ended fault now e rows m (get_by_id read_fault rows e.job_id)

abbrev pub lookup : String → List (String × ℕ) → Option ℕ
lookup k [] = none
lookup k ((j, v) ∷ m) = if k == j then some v else lookup k m

-- Seconds.
abbrev pub task_timeouts : List (String × ℕ)
task_timeouts =
    ("vm_clone", 1800)
    ∷ ("vm_edit", 1800)
    ∷ ("vm_create", 1800)
    ∷ ("vm_inventory", 600)
    ∷ ("hardware_inventory", 600)
    ∷ ("template_inventory", 600)
    ∷ ("iso_inventory", 300)
    ∷ ("artifact_download", 3600)
    ∷ []

abbrev pub action_timeouts : List (String × ℕ)
action_timeouts =
    ("vm_batch_start", 1800)
    ∷ ("vm_batch_stop", 1800)
    ∷ ("vm_move", 1800)
    ∷ ("vm_rename", 1800)
    ∷ ("vm_export_template", 1800)
    ∷ ("suspend_drain", 600)
    ∷ ("vm_shutdown", 600)
    ∷ []

abbrev or_default : Option ℕ → ℕ → ℕ
or_default none t = t
or_default (some t') t = t'

unfoldable pub get_timeout_for_task : ℕ → String → String → ℕ
get_timeout_for_task default_timeout task_type action =
    let by_type = or_default (lookup task_type task_timeouts) default_timeout in
    if not (action == "") then or_default (lookup action action_timeouts) by_type else by_type

abbrev pub is_overdue : ℕ → ℕ → WorkerEntry → Bool
is_overdue default_timeout now e =
    ltb (get_timeout_for_task default_timeout e.task_type e.action) (now - e.started_at)

-- The processes that checkTimeouts kills. Their end is handled later, by handleTermination.
unfoldable pub check_timeouts : ℕ → Monitor → List WorkerEntry
check_timeouts now m = select (is_overdue m.default_timeout now) m.workers
