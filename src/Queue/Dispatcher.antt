-- ===== src/Queue/Dispatcher.antt =====
-- dispatcher.go: one evaluation of the queue. Its state holds the store and the monitor that it
-- works on. The hook that replaces the spawn is set by the tests alone and is not modelled.
use open_v_center_agent_hype.Base.{
  ℕ, ◌-◌, suc, String, Bool, true, false, not, ◌&&◌, Option, none, some, List, [], ◌∷◌, leb,
  if◌then◌else◌,
}
use open_v_center_agent_hype.JobStore.{
  JobRecord, Fields, Result, ok, err, list_by_status, update_status, queued, running,
}
use open_v_center_agent_hype.Queue.Classifier.{
  JobClass, read, write, host_write, download, is_read, classify,
}
use open_v_center_agent_hype.Queue.Monitor.{
  WorkerEntry, Monitor, register, running_count, has_running_host_write, has_running_write,
  has_running_write_for_vm,
}

-- What one evaluation meets: the process that a spawn starts, if it does, the database's refusals,
-- and the clock, as a number for the monitor and as a text for the store.
pub record Env : Type 0 where
  pub spawn : String → Option ℕ
  pub list_fault : Bool
  pub update_fault : String → Bool
  pub now : ℕ
  pub now_text : String

pub record Dispatcher : Type 0 where
  pub store : List JobRecord
  pub monitor : Monitor
  pub max_concurrent_jobs : ℕ
  pub drain_mode : Bool

-- The variables of the loop: the dispatcher, `runningCount` and `hasRunningWrite`.
pub record Pass : Type 0 where
  pub state : Dispatcher
  pub count : ℕ
  pub has_write : Bool

module _ (env : Env) where
  abbrev pub start_fields : ℕ → Fields
  start_fields pid = record {
    started_at = some env.now_text;
    completed_at = none;
    worker_pid = some pid;
    error_message = none;
  }

  abbrev pub entry_of : JobRecord → ℕ → WorkerEntry
  entry_of job pid = record {
    job_id = job.job_id;
    task_id = job.task_id;
    pid = pid;
    started_at = env.now;
    task_type = job.task_type;
    action = job.action;
    vm_identifier = job.vm_identifier;
    job_class = classify job;
  }

  -- A process whose job cannot be marked as running is killed, and is not registered.
  track : JobRecord → ℕ → Dispatcher → Result (List JobRecord) → Dispatcher
  track job pid d (err e) = d
  track job pid d (ok store) = record d {
    store = store;
    monitor = register (entry_of job pid) d.monitor;
  }

  started : JobRecord → Dispatcher → Option ℕ → Dispatcher
  started job d none = d
  started job d (some pid) = track job pid d (
      update_status (env.update_fault job.job_id) d.store job.job_id queued running
        (start_fields pid))

  unfoldable pub dispatch : JobRecord → Dispatcher → Dispatcher
  unfolding started track
  dispatch job d = started job d (env.spawn job.job_id)

  by_class : JobClass → JobRecord → Pass → Pass
  by_class read job p = record p { state = dispatch job p.state; count = suc p.count }
  by_class write job p =
      if not (has_running_write_for_vm p.state.monitor job.vm_identifier)
      then record p { state = dispatch job p.state; count = suc p.count }
      else p
  by_class host_write job p =
      if not p.has_write && not (has_running_host_write p.state.monitor)
      then record p { state = dispatch job p.state; count = suc p.count; has_write = true }
      else p
  by_class download job p = record p { state = dispatch job p.state; count = suc p.count }

  unfoldable pub consider : JobRecord → Pass → Pass
  unfolding by_class
  consider job p = by_class (classify job) job p

  unfoldable pub dispatch_loop : List JobRecord → Pass → Dispatcher
  dispatch_loop [] p = p.state
  dispatch_loop (job ∷ jobs) p =
      let rest = dispatch_loop jobs (consider job p) in
      if leb p.state.max_concurrent_jobs p.count then p.state else rest

  unfoldable pub read_loop : ℕ → ℕ → List JobRecord → Dispatcher → Dispatcher
  read_loop slots dispatched [] d = d
  read_loop slots dispatched (job ∷ jobs) d =
      let with_job = read_loop slots (suc dispatched) jobs (dispatch job d) in
      let without = read_loop slots dispatched jobs d in
      if leb slots dispatched then d else if is_read (classify job) then with_job else without

  unfoldable pub read_listed : ℕ → Dispatcher → Result (List JobRecord) → Dispatcher
  read_listed slots d (err e) = d
  read_listed slots d (ok jobs) = read_loop slots 0 jobs d

  unfoldable pub dispatch_eligible_reads : ℕ → Dispatcher → Dispatcher
  unfolding read_listed
  dispatch_eligible_reads slots d =
      if leb slots 0 then d else read_listed slots d (list_by_status env.list_fault d.store queued)

  unfoldable pub listed : Dispatcher → Result (List JobRecord) → Dispatcher
  listed d (err e) = d
  listed d (ok jobs) = dispatch_loop jobs (record {
    state = d;
    count = running_count d.monitor;
    has_write = has_running_write d.monitor;
  })

  unfoldable pub evaluate_and_dispatch : Dispatcher → Dispatcher
  unfolding listed
  evaluate_and_dispatch d =
      if d.drain_mode
      then d
      else if leb d.max_concurrent_jobs (running_count d.monitor)
      then d
      else if has_running_host_write d.monitor
      then dispatch_eligible_reads (d.max_concurrent_jobs - running_count d.monitor) d
      else listed d (list_by_status env.list_fault d.store queued)

unfoldable pub enter_drain_mode : Dispatcher → Dispatcher
enter_drain_mode d = record d { drain_mode = true }

unfoldable pub exit_drain_mode : Dispatcher → Dispatcher
exit_drain_mode d = record d { drain_mode = false }
