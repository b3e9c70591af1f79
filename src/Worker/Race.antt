-- ===== src/Worker/Race.antt =====
-- worker.go and jobqueue/dispatcher.go: the order of the spawn and of the update that follows it.
use open_v_center_agent_hype.Base.{String, ◌≡◌, ◌≢◌, refl, false, some, [], ◌∷◌, arith, eq_iff}
use open_v_center_agent_hype.JobStore.{JobRecord, find, queued, running, failed}
use open_v_center_agent_hype.JobStore.Swap.{swapped, update_status-swaps}
use open_v_center_agent_hype.Queue.Monitor.{
  handle_termination, crash_fields, crash_message, on_finish, on_worker_failed,
}
use open_v_center_agent_hype.Queue.Dispatcher.{Env, Dispatcher, dispatch, entry_of, start_fields}
use open_v_center_agent_hype.Queue.Rules.{Spawned}
use open_v_center_agent_hype.Queue.Termination.{handle_termination_crashed}
use open_v_center_agent_hype.Worker.{WorkerEnv, run_job}
use open_v_center_agent_hype.Worker.Reports.{run_job-not_running}

-- If a dispatch spawns a worker and marks the job as running, but the worker reads the store
-- before the mark is written, the worker executes nothing, and when its end is handled the job is
-- marked as failed by a crash and the backend is told so, although nothing went wrong.
pub run_job_too_early :
    {R : Type 0} (worker : WorkerEnv R) (env : Env) (d : Dispatcher) (job : JobRecord)
    (now : String) (s : Spawned env job d (dispatch env job d))
    → (run_job worker d.store s.store job.job_id
        ≡ record { store = s.store; effects = []; exit_code = 1 })
      × ((r : JobRecord) × (r.status ≡ failed)
          × (find job.job_id
                (handle_termination false false now
                  (entry_of env job s.pid)
                  s.store
                  (dispatch env job d).monitor).store
              ≡ some r)
          × ((handle_termination false false now
                (entry_of env job s.pid)
                s.store
                (dispatch env job d).monitor).callbacks
              ≡ on_finish ∷ on_worker_failed (entry_of env job s.pid) crash_message ∷ []))
unfolding swapped
run_job_too_early worker env d job now s =
    let (row, waits, was, marked, _) =
      update_status-swaps _ d.store job.job_id queued running (start_fields env s.pid) s.swapped in
    (
      run_job-not_running worker d.store s.store job.job_id
          (λ other e. still_queued other row e waits was),
      (
        swapped (swapped row running (start_fields env s.pid)) failed (crash_fields now),
        refl,
        (over row marked).0,
        (over row marked).1,
      ),
    )
  where
    still_queued :
        (other row : JobRecord)
        → find job.job_id d.store ≡ some other
        → find job.job_id d.store ≡ some row
        → row.status ≡ queued
        → other.status ≢ running
    still_queued other row e f was r = ground (arith, eq_iff queued running)

    over :
        (row : JobRecord)
        → find job.job_id s.store ≡ some (swapped row running (start_fields env s.pid))
        → (find job.job_id
              (handle_termination false false now
                (entry_of env job s.pid)
                s.store
                (dispatch env job d).monitor).store
            ≡ some
                (swapped (swapped row running (start_fields env s.pid)) failed (crash_fields now)))
          × ((handle_termination false false now
                (entry_of env job s.pid)
                s.store
                (dispatch env job d).monitor).callbacks
              ≡ on_finish ∷ on_worker_failed (entry_of env job s.pid) crash_message ∷ [])
    over row marked =
        handle_termination_crashed now (entry_of env job s.pid) s.store (dispatch env job d).monitor
          marked refl
