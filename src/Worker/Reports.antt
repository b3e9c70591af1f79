-- ===== src/Worker/Reports.antt =====
-- worker.go: the effects of a run of RunJob.
use open_v_center_agent_hype.Base.{
  ◌≤◌, String, ◌≡◌, ◌≢◌, refl, Bool, true, false, some, List, [], ◌==◌, if_elim, arith, tally,
  eq_iff,
}
use open_v_center_agent_hype.JobStore.{JobRecord, Result, ok, err, find, running, get_by_id}
use open_v_center_agent_hype.Queue.Scheduler.{is_periodic_refresh_task_id}
use open_v_center_agent_hype.Worker.{
  WorkerEnv, Effect, executes, publishes_response, Run, run_job, loaded,
}

abbrev pub is_execution : Effect → Bool
is_execution executes = true
is_execution _ = false

abbrev pub is_response : Effect → Bool
is_response publishes_response = true
is_response _ = false

get_by_id-found :
    (fault : Bool) (rows : List JobRecord) (id : String) {job : JobRecord}
    → get_by_id fault rows id ≡ ok job
    → find id rows ≡ some job
unfolding get_by_id
get_by_id-found fault rows id h = ground arith

module _ {R : Type 0} (env : WorkerEnv R) where
  -- A worker whose job it cannot read, or whose job is not marked as running when it reads it, ends
  -- with exit code 1, executes nothing, publishes nothing and leaves the store alone.
  pub run_job-not_running :
      (early rows : List JobRecord) (id : String)
      → ((job : JobRecord) → find id early ≡ some job → job.status ≢ running)
      → run_job env early rows id ≡ record { store = rows; effects = []; exit_code = 1 }
  unfolding run_job
  run_job-not_running early rows id h =
      if_elim Stopped env.config_loads (λ _. not_loaded (get_by_id env.read_fault early id) refl)
        λ _. refl
    where
      Stopped : Run → Type 0
      Stopped r = r ≡ record { store = rows; effects = []; exit_code = 1 }

      not_loaded :
          (r : Result JobRecord)
          → get_by_id env.read_fault early id ≡ r
          → Stopped (loaded env r rows id)
      not_loaded (err e) g = refl
      not_loaded (ok job) g =
          if_elim Stopped (job.status == running)
            (λ e.
              absurd (
                h job (get_by_id-found env.read_fault early id g)
                  ((eq_iff job.status running).0 e)))
            λ _. refl

  -- A job is executed at most once in a run, and a response is published only after the execution,
  -- at most once. Here the job is found when it is read.
  run_job-reports :
      (early rows : List JobRecord) (id : String) {job : JobRecord}
      → find id early ≡ some job
      → (tally is_execution (run_job env early rows id).effects ≤ 1)
        × (tally is_response (run_job env early rows id).effects
            ≤ tally is_execution (run_job env early rows id).effects)
  unfolding run_job get_by_id
  run_job-reports early rows id {job} found = rw (found, run_job) (ground arith)

  -- No response is published for a job that the scheduler created. Here the job is found when it
  -- is read.
  run_job_periodic :
      (early rows : List JobRecord) (id : String) {job : JobRecord}
      → find id early ≡ some job
      → is_periodic_refresh_task_id job.task_id ≡ true
      → tally is_response (run_job env early rows id).effects ≡ 0
  unfolding run_job get_by_id
  run_job_periodic early rows id {job} found periodic =
      rw (found, run_job) (ground (arith, periodic))
