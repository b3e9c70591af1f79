-- ===== src/Queue/Termination.antt =====
-- monitor.go: what the store and the callers learn at the end of a worker.
use mathlib.Core.List.{head?}
use open_v_center_agent_hype.Base.{
  ◌≡◌, refl, ◌≢◌, String, Bool, false, not, some, List, [], ◌∷◌, arith, any, select, ◌==◌, eq_iff,
  if◌then◌else◌,
}
use open_v_center_agent_hype.JobStore.{JobRecord, find, running, failed, completed, get_by_id}
use open_v_center_agent_hype.JobStore.Swap.{swapped, update_status_found, find-rewrite, find_id}
use open_v_center_agent_hype.Queue.Monitor.{
  Monitor, WorkerEntry, on_finish, on_worker_failed, on_job_completed, handle_termination,
  is_worker, crash_fields, crash_message,
}

any-unregister :
    (id : String) (ws : List WorkerEntry)
    → any (is_worker id) (select (λ e. not (is_worker id e)) ws) ≡ false
any-unregister id [] = refl
any-unregister id (w ∷ ws) = ground (arith, any-unregister id ws)

any-unregister_other :
    (id other : String) (ws : List WorkerEntry)
    → (id == other) ≡ false
    → any (is_worker other) (select (λ e. not (is_worker id e)) ws) ≡ any (is_worker other) ws
any-unregister_other id other [] n = refl
any-unregister_other id other (w ∷ ws) n = ground (
  arith,
  eq_iff w.job_id id,
  eq_iff w.job_id other,
  eq_iff id other,
  any-unregister_other id other ws n,
)

-- Whatever the database answers, the worker that ended is no longer watched, every other worker is
-- watched as before, and the dispatcher is signalled first.
handle_termination-forgets :
    (read_fault fault : Bool) (now : String) (e : WorkerEntry) (rows : List JobRecord) (m : Monitor)
    → (any (is_worker e.job_id) (handle_termination read_fault fault now e rows m).monitor.workers
        ≡ false)
      × ((other : String)
          → (e.job_id == other) ≡ false
          → any (is_worker other) (handle_termination read_fault fault now e rows m).monitor.workers
            ≡ any (is_worker other) m.workers)
      × (head? (handle_termination read_fault fault now e rows m).callbacks ≡ some on_finish)
unfolding handle_termination
handle_termination-forgets read_fault fault now e rows m = (
  ground (arith, any-unregister e.job_id m.workers),
  λ other n. ground (arith, any-unregister_other e.job_id other m.workers n),
  ground arith,
)

-- A worker that ends while its job is running leaves the job failed, with the crash message, and
-- its failure is reported to the backend. Here the database answers and has the job.
pub handle_termination_crashed :
    (now : String) (e : WorkerEntry) (rows : List JobRecord) (m : Monitor) {r : JobRecord}
    → find e.job_id rows ≡ some r
    → r.status ≡ running
    → (find e.job_id (handle_termination false false now e rows m).store
        ≡ some (swapped r failed (crash_fields now)))
      × ((handle_termination false false now e rows m).callbacks
          ≡ on_finish ∷ on_worker_failed e crash_message ∷ [])
unfolding handle_termination get_by_id swapped
handle_termination_crashed now e rows m {r} found was =
    rw (found, handle_termination)
      (rw (was, update_status_found rows e.job_id running failed (crash_fields now) found was)
        (
          find-rewrite e.job_id (swapped r failed (crash_fields now)) rows
              (find_id e.job_id rows found) found,
          refl,
        ))

-- A worker that ends after its job was settled changes nothing in the store, and the completion is
-- announced exactly if the job's status is completed. Here the database answers and has the job.
handle_termination_settled :
    (now : String) (e : WorkerEntry) (rows : List JobRecord) (m : Monitor) {r : JobRecord}
    → find e.job_id rows ≡ some r
    → r.status ≢ running
    → ((handle_termination false false now e rows m).store ≡ rows)
      × ((handle_termination false false now e rows m).callbacks
          ≡ on_finish ∷ (if r.status == completed then on_job_completed e ∷ [] else []))
unfolding handle_termination get_by_id
handle_termination_settled now e rows m {r} found n =
    rw (found, handle_termination)
      (ground (arith, eq_iff r.status running), ground (arith, eq_iff r.status running))
