-- ===== src/JobStore/Recovery.antt =====
-- queries.go: recovery at start-up. `is_process_alive` is the operating system's answer.
use open_v_center_agent_hype.Base.{
  ℕ, String, Bool, none, some, List, [], ◌∷◌, nat_eq, if◌then◌else◌,
}
use open_v_center_agent_hype.JobStore.Rows.{
  JobRecord, Result, ok, err, running, failed, update_status,
}
use open_v_center_agent_hype.JobStore.Query.{list_by_status}

unfoldable pub mark_job_failed :
    Bool → List JobRecord → String → String → String → Result (List JobRecord)
mark_job_failed fault rows now id message = update_status fault rows id running failed (record {
  started_at = none;
  completed_at = some now;
  worker_pid = none;
  error_message = some message;
})

-- An error of one row is logged, and the loop goes on with the rows as they were.
abbrev pub or_rows : Result (List JobRecord) → List JobRecord → List JobRecord
or_rows (ok new) rows = new
or_rows (err e) rows = rows

module _ (is_process_alive : ℕ → Bool) (dead_message : ℕ → String) (fault : String → Bool)
    (now : String) where
  unfoldable pub recover_job : JobRecord → List JobRecord → List JobRecord
  recover_job job rows =
      if nat_eq job.worker_pid 0
      then or_rows
          (mark_job_failed (fault job.job_id) rows now job.job_id
            "orphaned job: no worker PID recorded")
          rows
      else if is_process_alive job.worker_pid
      then rows
      else or_rows
          (mark_job_failed (fault job.job_id) rows now job.job_id (dead_message job.worker_pid))
          rows

  unfoldable pub recover_loop : List JobRecord → List JobRecord → List JobRecord
  recover_loop [] rows = rows
  recover_loop (job ∷ jobs) rows = recover_loop jobs (recover_job job rows)

  unfoldable pub recover_listed : Result (List JobRecord) → List JobRecord → Result (List JobRecord)
  recover_listed (err e) rows = err e
  recover_listed (ok jobs) rows = ok (recover_loop jobs rows)

  unfoldable pub recover_orphaned_jobs : Bool → List JobRecord → Result (List JobRecord)
  unfolding recover_listed recover_loop recover_job
  recover_orphaned_jobs list_fault rows =
      recover_listed (list_by_status list_fault rows running) rows
