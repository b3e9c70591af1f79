-- ===== src/Worker/Moves.antt =====
-- worker.go: what a run of RunJob does to the table of jobs.
use open_v_center_agent_hype.Base.{String, refl, Option, none, some, List, ◌==◌, if_elim}
use open_v_center_agent_hype.JobStore.{
  JobRecord, Result, ok, err, running, completed, failed, get_by_id,
}
use open_v_center_agent_hype.JobStore.Life.Steps.{attempt-Evolves}
use open_v_center_agent_hype.JobStore.Life.{
  Evolves, Evolves-refl, UniqueIds, Life, phase, succeeds, worker, fails,
}
use open_v_center_agent_hype.Queue.Scheduler.{is_periodic_refresh_task_id}
use open_v_center_agent_hype.Tasks.Response.{terminal_status}
use open_v_center_agent_hype.Worker.{
  WorkerEnv, Effect, Run, run_job, move, end_fields, or_same, fail_job, finish, published, report,
  declared, connected, loaded, stop,
}

module _ {R : Type 0} (env : WorkerEnv R) (rows : List JobRecord) (u : UniqueIds rows)
    (id : String) where
  abbrev Kept : Run → Type 0
  Kept run = Evolves worker rows run.store

  move-Evolves :
      (to : String) (message : Option String)
      → Life worker (phase running) (phase to)
      → Evolves worker rows (move env rows id to message)
  unfolding move
  move-Evolves to message step =
      attempt-Evolves env.update_fault rows id running to (end_fields env.now_text message)
        (λ r. or_same r rows) (λ new. refl) (λ e. refl) step u

  fail_job-Kept :
      (message : String) (effects : List Effect) → Kept (fail_job env rows id message effects)
  unfolding fail_job stop
  fail_job-Kept message effects = move-Evolves failed (some message) fails

  finish-Kept : (effects : List Effect) → Kept (finish env rows id effects)
  unfolding finish
  finish-Kept effects =
      if_elim (Evolves worker rows) (terminal_status env.response == "completed")
        (λ _. move-Evolves completed none succeeds) λ _. move-Evolves failed _ fails

  published-Kept : (o : Option String) → Kept (published env o rows id)
  unfolding published
  published-Kept none = finish-Kept _
  published-Kept (some e) = fail_job-Kept _ _

  report-Kept : (job : JobRecord) → Kept (report env job rows id)
  unfolding report
  report-Kept job =
      if_elim Kept (is_periodic_refresh_task_id job.task_id) (λ _. finish-Kept _)
        λ _. published-Kept env.publish_error

  declared-Kept : (o : Option String) (job : JobRecord) → Kept (declared env o job rows id)
  unfolding declared
  declared-Kept none job = report-Kept job
  declared-Kept (some e) job = fail_job-Kept _ _

  connected-Kept : (o : Option String) (job : JobRecord) → Kept (connected env o job rows id)
  unfolding connected
  connected-Kept none job = declared-Kept env.declare_error job
  connected-Kept (some e) job = fail_job-Kept _ _

  loaded-Kept : (r : Result JobRecord) → Kept (loaded env r rows id)
  unfolding loaded stop
  loaded-Kept (err e) = Evolves-refl u
  loaded-Kept (ok job) =
      if_elim Kept (job.status == running) (λ _. connected-Kept env.connect_error job)
        λ _. Evolves-refl u

  -- Whatever fails, a run takes each job along its life.
  pub run_job-Evolves :
      (early : List JobRecord) → Evolves worker rows (run_job env early rows id).store
  unfolding run_job stop
  run_job-Evolves early =
      if_elim Kept env.config_loads (λ _. loaded-Kept (get_by_id env.read_fault early id))
        λ _. Evolves-refl u
