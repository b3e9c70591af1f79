-- ===== src/Worker/Settles.antt =====
-- worker.go: the status of the job after a run of RunJob.
use mathlib.Core.Path.{subst, sym}
use open_v_center_agent_hype.Base.{
  Bool-cases, String, ◌≡◌, refl, ◌⊎◌, inl, inr, true, false, Option, none, some, List, [], ◌∷◌,
  ◌==◌, if_elim, arith, any, eq_iff,
}
use open_v_center_agent_hype.JobStore.{JobRecord, ok, find, running, completed, failed, get_by_id}
use open_v_center_agent_hype.JobStore.Swap.{swapped, update_status_found, find-rewrite, find_id}
use open_v_center_agent_hype.Queue.Scheduler.{is_periodic_refresh_task_id}
use open_v_center_agent_hype.Tasks.Response.{terminal_status}
use open_v_center_agent_hype.Worker.{
  WorkerEnv, Effect, executes, publishes_response, Run, run_job, move, end_fields, fail_job, finish,
  published, report, declared, connected, loaded, stop, state_effects, or_empty,
}
use open_v_center_agent_hype.Worker.Reports.{is_response}

module _ {R : Type 0} (env : WorkerEnv R) (fine : env.update_fault ≡ false) (rows : List JobRecord)
    (id : String) (r : JobRecord) (found : find id rows ≡ some r) (was : r.status ≡ running)
    (job : JobRecord) where
  -- The job is completed, and was reported or is periodic; or it has failed.
  pub data Settled (run : Run) : Type 0 where
    done :
        find id run.store ≡ some (swapped r completed (end_fields env.now_text none))
        → terminal_status env.response ≡ "completed"
        → (any is_response run.effects ≡ true) ⊎ (is_periodic_refresh_task_id job.task_id ≡ true)
        → Settled run
    broken :
        (message : String)
        → find id run.store ≡ some (swapped r failed (end_fields env.now_text (some message)))
        → Settled run

  find-move :
      (to : String) (message : Option String)
      → find id (move env rows id to message)
        ≡ some (swapped r to (end_fields env.now_text message))
  unfolding move swapped
  find-move to message =
      rw (fine, move)
        (rw (update_status_found rows id running to (end_fields env.now_text message) found was) (
          find-rewrite id (swapped r to (end_fields env.now_text message)) rows
            (find_id id rows found) found))

  fail_job-Settled :
      (message : String) (effects : List Effect) → Settled (fail_job env rows id message effects)
  unfolding fail_job stop
  fail_job-Settled message effects = broken message (find-move failed (some message))

  finish-Settled :
      (effects : List Effect)
      → (any is_response effects ≡ true) ⊎ (is_periodic_refresh_task_id job.task_id ≡ true)
      → Settled (finish env rows id effects)
  unfolding finish
  finish-Settled effects told = elim (Bool-cases (terminal_status env.response == "completed")) [
    | inl e ↦
        done (rw e (find-move completed none))
          ((eq_iff (terminal_status env.response) "completed").0 e) told
    | inr n ↦
        broken (or_empty env.response.error)
          (rw n (find-move failed (some (or_empty env.response.error))))
  ]

  published-Settled : (o : Option String) → Settled (published env o rows id)
  unfolding published
  published-Settled none =
      finish-Settled (executes ∷ publishes_response ∷ state_effects env) (inl refl)
  published-Settled (some e) = fail_job-Settled _ (executes ∷ [])

  report-Settled : Settled (report env job rows id)
  unfolding report
  report-Settled =
      if_elim Settled (is_periodic_refresh_task_id job.task_id)
        (λ p. finish-Settled (executes ∷ state_effects env) (inr p))
        λ _. published-Settled env.publish_error

  declared-Settled : (o : Option String) → Settled (declared env o job rows id)
  unfolding declared
  declared-Settled none = report-Settled
  declared-Settled (some e) = fail_job-Settled _ []

  connected-Settled : (o : Option String) → Settled (connected env o job rows id)
  unfolding connected
  connected-Settled none = declared-Settled env.declare_error
  connected-Settled (some e) = fail_job-Settled _ []

  get_by_id-ok :
      (early : List JobRecord)
      → env.read_fault ≡ false
      → find id early ≡ some job
      → get_by_id env.read_fault early id ≡ ok job
  unfolding get_by_id
  get_by_id-ok early f e = rw (f, e, get_by_id)

  -- A worker that loads its configuration and reads its job as running always settles it, while
  -- the database answers and the job is still running when its status is set: the job ends
  -- completed, with the task completed and the result reported or the job periodic, or it ends
  -- failed with a message.
  pub run_job-Settled :
      (early : List JobRecord)
      → env.config_loads ≡ true
      → env.read_fault ≡ false
      → find id early ≡ some job
      → job.status ≡ running
      → Settled (run_job env early rows id)
  unfolding run_job loaded
  run_job-Settled early c f read_found running_lem =
      if_elim Settled env.config_loads
        (λ _.
          subst (λ x. Settled (loaded env x rows id)) (sym (get_by_id-ok early f read_found))
            (if_elim Settled (job.status == running) (λ _. connected-Settled env.connect_error)
              λ n. absurd (ground (arith, n, running_lem, eq_iff job.status running))))
        λ n. absurd (ground (arith, c, n))
