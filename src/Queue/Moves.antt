-- ===== src/Queue/Moves.antt =====
-- dispatcher.go, monitor.go, scheduler.go, retention.go: what each does to the table of jobs.
use open_v_center_agent_hype.Base.{ℕ, String, ◌≡◌, refl, inl, inr, Bool, List, ◌==◌, if_elim}
use open_v_center_agent_hype.JobStore.{
  JobRecord, Result, ok, err, queued, running, failed, get_by_id, delete_older_than,
}
use open_v_center_agent_hype.JobStore.Life.Steps.{
  create-Evolves, update_status-Evolves, attempt-Evolves, delete_older_than-Evolves,
}
use open_v_center_agent_hype.JobStore.Life.{
  Evolves, Evolves-refl, Evolves-trans, UniqueIds, starts, breaks, submitter, purger, watcher,
  dispatcher,
}
use open_v_center_agent_hype.Queue.Monitor.{
  ended, Termination, WorkerEntry, Monitor, handle_termination, crash_fields, or_store,
}
use open_v_center_agent_hype.Queue.Dispatcher.{
  Env, Dispatcher, evaluate_and_dispatch, dispatch, start_fields,
}
use open_v_center_agent_hype.Queue.Rules.{evaluate_keeps, dispatch_cases}
use open_v_center_agent_hype.Queue.Scheduler.{Tick, refresh_job, maybe_create_refresh_job}
use open_v_center_agent_hype.Queue.Refresh.{refresh_cases}
use open_v_center_agent_hype.Queue.Retention.{purge, after, purged_statuses}

module _ {rows : List JobRecord} (u : UniqueIds rows) where
  pub refresh-Evolves :
      (t : Tick) (task_type : String)
      → Evolves submitter rows (maybe_create_refresh_job t rows task_type).0
  refresh-Evolves t task_type = elim (refresh_cases t rows task_type) [
    | inl e ↦ rw e (Evolves-refl u)
    | inr (c, _) ↦ create-Evolves t.create_fault rows (refresh_job t task_type) refl u c
  ]

  pub purge-Evolves :
      (fault : Bool) (cutoff : String) → Evolves purger rows (purge fault cutoff rows).0
  unfolding purge after
  purge-Evolves fault cutoff = by_result (delete_older_than fault rows cutoff purged_statuses) refl
    where
      by_result :
          (r : Result (List JobRecord × ℕ))
          → delete_older_than fault rows cutoff purged_statuses ≡ r
          → Evolves purger rows (after rows r).0
      by_result (err e) h = Evolves-refl u
      by_result (ok (new, n)) h = delete_older_than-Evolves fault rows cutoff u h

  ended-Evolves :
      (fault : Bool) (now : String) (e : WorkerEntry) (m : Monitor) (r : Result JobRecord)
      → Evolves watcher rows (ended fault now e rows m r).store
  unfolding ended
  ended-Evolves fault now e m (err x) = Evolves-refl u
  ended-Evolves fault now e m (ok job) =
      if_elim (λ (t : Termination). Evolves watcher rows t.store) (job.status == running)
        (λ _.
          attempt-Evolves fault rows e.job_id running failed (crash_fields now)
            (λ r. or_store r rows) (λ new. refl) (λ x. refl) breaks u)
        λ _. Evolves-refl u

  pub handle_termination-Evolves :
      (read_fault fault : Bool) (now : String) (e : WorkerEntry) (m : Monitor)
      → Evolves watcher rows (handle_termination read_fault fault now e rows m).store
  unfolding handle_termination
  handle_termination-Evolves read_fault fault now e m =
      ended-Evolves fault now e m (get_by_id read_fault rows e.job_id)

dispatch-Evolves :
    (env : Env) (job : JobRecord) (d : Dispatcher)
    → UniqueIds d.store
    → Evolves dispatcher d.store (dispatch env job d).store
dispatch-Evolves env job d u = elim (dispatch_cases env job d) [
  | inl e ↦ rw e (Evolves-refl u)
  | inr s ↦ rw s.result (
      update_status-Evolves _ d.store job.job_id queued running (start_fields env s.pid) starts u
        s.swapped)
]

pub evaluate-Evolves :
    (env : Env) (d : Dispatcher)
    → UniqueIds d.store
    → Evolves dispatcher d.store (evaluate_and_dispatch env d).store
evaluate-Evolves env d u =
    evaluate_keeps env (λ e. Evolves dispatcher d.store e.store)
      (λ job e _ h. Evolves-trans h (dispatch-Evolves env job e h.keeps_ids)) d (Evolves-refl u)
