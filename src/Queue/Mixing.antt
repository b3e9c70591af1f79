-- ===== src/Queue/Mixing.antt =====
-- dispatcher.go: an evaluation of a queue that holds a host-wide write and a write to a machine.
use open_v_center_agent_hype.Base.{
  refl, inr, ap, inl, leb, if_elim, any, ◌⊎◌, ◌≤◌, ℕ, suc, ◌≡◌, ◌≢◌, ◌∙◌, Bool, true, false, [],
  ◌∷◌, arith, eq_iff, some,
}
use open_v_center_agent_hype.JobStore.{
  ok, list_by_status, JobRecord, find, queued, running, rewrite,
}
use open_v_center_agent_hype.JobStore.Swap.{swapped, update_status-swaps, update_status_found}
use open_v_center_agent_hype.Queue.Classifier.{write, host_write, classify, is_write}
use open_v_center_agent_hype.Queue.Monitor.{
  WorkerEntry, register, has_running_host_write, has_running_write_for_vm, running_count,
  has_running_write,
}
use open_v_center_agent_hype.Queue.Dispatcher.{
  listed, dispatch_loop, evaluate_and_dispatch, Env, Dispatcher, Pass, start_fields, dispatch,
  entry_of, consider,
}
use open_v_center_agent_hype.Queue.Rules.{max-dispatch}
use open_v_center_agent_hype.Queue.Progress.{dispatch_starts}

abbrev pub vm_writes : WorkerEntry → Bool
vm_writes e = is_write e.job_class

-- A job that waits in the store, whose process will start and whose update will be accepted.
pub record IsReady (env : Env) (d : Dispatcher) (job : JobRecord) : Type 0 where
  pub pid : ℕ
  pub waits : find job.job_id d.store ≡ some job
  pub queued_lem : job.status ≡ queued
  pub spawns : env.spawn job.job_id ≡ some pid
  pub accepted : env.update_fault job.job_id ≡ false

consider-write :
    (env : Env) (job : JobRecord) (p : Pass)
    → classify job ≡ write
    → has_running_write_for_vm p.state.monitor job.vm_identifier ≡ false
    → consider env job p ≡ record p { state = dispatch env job p.state; count = suc p.count }
unfolding consider
consider-write env job p e free = rw (e, consider) (rw free)

consider_host_write :
    (env : Env) (job : JobRecord) (p : Pass)
    → classify job ≡ host_write
    → p.has_write ≡ false
    → has_running_host_write p.state.monitor ≡ false
    → consider env job p
      ≡ record p { state = dispatch env job p.state; count = suc p.count; has_write = true }
unfolding consider
consider_host_write env job p e calm free = rw (e, consider) (rw (calm, free))

-- A host-wide write and a write to a machine both run.
abbrev pub Mixed : Dispatcher → Type 0
Mixed d = (has_running_host_write d.monitor ≡ true) × (any vm_writes d.monitor.workers ≡ true)

module _ (env : Env) (d : Dispatcher) (a b : JobRecord) (idle : d.monitor.workers ≡ [])
    (apart : b.job_id ≢ a.job_id) (ready : IsReady env d a) (ready' : IsReady env d b) where
  first : Dispatcher
  first = record d {
    store = rewrite a.job_id (swapped a running (start_fields env ready.pid)) d.store;
    monitor = register (entry_of env a ready.pid) d.monitor;
  }

  start_one : dispatch env a d ≡ first
  unfolding first
  start_one = dispatch_starts env a d ready.waits ready.queued_lem ready.spawns ready.accepted

  still_waits : find b.job_id first.store ≡ some b
  unfolding first
  still_waits =
      let (r, _, _, _, others) =
        update_status-swaps false d.store a.job_id queued running (start_fields env ready.pid) (
          update_status_found d.store a.job_id queued running (start_fields env ready.pid)
            ready.waits ready.queued_lem) in
      others b.job_id apart ∙ ready'.waits

  start_two :
      (dispatch env b (dispatch env a d)).monitor.workers
      ≡ entry_of env b ready'.pid ∷ entry_of env a ready.pid ∷ []
  unfolding register first
  start_two = rw start_one (
      rw (dispatch_starts env b first still_waits ready'.queued_lem ready'.spawns ready'.accepted)
        (rw idle (ground (arith, eq_iff a.job_id b.job_id))))

  alone : (dispatch env a d).monitor.workers ≡ entry_of env a ready.pid ∷ []
  unfolding register first
  alone = rw (start_one, idle)

  start : Pass
  start = record {
    state = d;
    count = running_count d.monitor;
    has_write = has_running_write d.monitor;
  }

  Mixed-both :
      ((classify a ≡ write) × (classify b ≡ host_write))
        ⊎ ((classify a ≡ host_write) × (classify b ≡ write))
      → Mixed (dispatch env b (dispatch env a d))
  Mixed-both kinds = rw start_two (ground arith)

  no_room :
      2 ≤ d.max_concurrent_jobs → leb d.max_concurrent_jobs (running_count d.monitor) ≡ true → ⊥
  no_room two e = ground (arith, idle)

  -- The loop over the two jobs, given how it considers each of them.
  loop_two :
      (p : Pass)
      → 2 ≤ d.max_concurrent_jobs
      → consider env a start ≡ p
      → p.count ≡ 1
      → p.state ≡ dispatch env a d
      → (consider env b p).state ≡ dispatch env b (dispatch env a d)
      → Mixed (dispatch env b (dispatch env a d))
      → Mixed (dispatch_loop env (a ∷ b ∷ []) start)
  unfolding dispatch_loop start
  loop_two p two e one same last h =
      if_elim Mixed (leb d.max_concurrent_jobs (running_count d.monitor))
        (λ full. absurd (no_room two full))
        λ _. rw e (
          if_elim Mixed (leb p.state.max_concurrent_jobs p.count)
            (λ full. absurd (ground (arith, max-dispatch env a d))) λ _. rw last h)

  loop-Mixed :
      2 ≤ d.max_concurrent_jobs
      → ((classify a ≡ write) × (classify b ≡ host_write))
        ⊎ ((classify a ≡ host_write) × (classify b ≡ write))
      → Mixed (dispatch_loop env (a ∷ b ∷ []) start)
  unfolding start
  loop-Mixed two (inl (ka, kb)) =
      loop_two (record start { state = dispatch env a d; count = suc (running_count d.monitor) })
        two (consider-write env a start ka (rw idle)) (rw idle) refl
        (ap (λ (p : Pass). p.state) (consider_host_write env b _ kb (rw idle) (rw (alone, ka))))
        (Mixed-both (inl (ka, kb)))
  loop-Mixed two (inr (ka, kb)) =
      loop_two
        (record start {
          state = dispatch env a d;
          count = suc (running_count d.monitor);
          has_write = true;
        })
        two (consider_host_write env a start ka (rw idle) (rw idle)) (rw idle) refl
        (ap (λ (p : Pass). p.state) (consider-write env b _ kb (rw (alone, ka))))
        (Mixed-both (inr (ka, kb)))

  -- A write to a machine and a host-wide write that are alone in the queue, in either order, both
  -- run after one evaluation of an awake dispatcher with no workers and two slots, where both jobs
  -- are in the store under different ids, their processes start and the database does not refuse.
  pub evaluate-mixes_writes :
      d.drain_mode ≡ false
      → 2 ≤ d.max_concurrent_jobs
      → list_by_status env.list_fault d.store queued ≡ ok (a ∷ b ∷ [])
      → ((classify a ≡ write) × (classify b ≡ host_write))
        ⊎ ((classify a ≡ host_write) × (classify b ≡ write))
      → Mixed (evaluate_and_dispatch env d)
  unfolding evaluate_and_dispatch start
  evaluate-mixes_writes awake two queue kinds =
      if_elim Mixed d.drain_mode (λ e. cc)
        λ _.
          if_elim Mixed (leb d.max_concurrent_jobs (running_count d.monitor))
            (λ e. absurd (no_room two e))
            λ _.
              if_elim Mixed (has_running_host_write d.monitor)
                (λ e. absurd (ground (arith, idle, e)))
                λ _. rw (queue, listed) (loop-Mixed two kinds)
