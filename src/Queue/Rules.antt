-- ===== src/Queue/Rules.antt =====
-- How an evaluation changes the registry: what each dispatch adds, and a rule for the loops.
use open_v_center_agent_hype.Base.{
  ◌∙◌, if_elim, ℕ, suc, ◌≤◌, ◌≡◌, refl, ◌⊎◌, inl, inr, Bool, true, false, not, some, List, [], ◌∷◌,
  leb, ◌==◌, tally, length, arith, Bool-cases, Option-cases, tally-select-le, length-select-le,
}
use open_v_center_agent_hype.JobStore.{
  JobRecord, Result, ok, err, update_status, list_by_status, queued, running,
}
use open_v_center_agent_hype.Queue.Classifier.{
  JobClass, read, write, host_write, download, classify, is_read,
}
use open_v_center_agent_hype.Queue.Monitor.{
  WorkerEntry, Monitor, register, has_running_host_write, has_running_write_for_vm, running_count,
}
use open_v_center_agent_hype.Queue.Dispatcher.{
  Env, Dispatcher, Pass, start_fields, entry_of, dispatch, consider, dispatch_loop, read_loop,
  dispatch_eligible_reads, evaluate_and_dispatch, read_listed, listed,
}

module _ (p : WorkerEntry → Bool) (e : WorkerEntry) (m : Monitor) where
  pub tally-register-le : tally p (register e m).workers ≤ suc (tally p m.workers)
  unfolding register
  tally-register-le = ground (arith, tally-select-le p (λ w. not (w.job_id == e.job_id)) m.workers)

  pub tally-register-le_other : p e ≡ false → tally p (register e m).workers ≤ tally p m.workers
  unfolding register
  tally-register-le_other h =
      ground (arith, tally-select-le p (λ w. not (w.job_id == e.job_id)) m.workers)

pub length-register-le :
    (e : WorkerEntry) (m : Monitor) → length (register e m).workers ≤ suc (length m.workers)
unfolding register
length-register-le e m =
    ground (arith, length-select-le (λ w. not (w.job_id == e.job_id)) m.workers)

module _ (env : Env) where
  -- What a dispatch that spawned a process left behind.
  pub record Spawned (job : JobRecord) (d new : Dispatcher) : Type 0 where
    pub pid : ℕ
    pub store : List JobRecord
    pub spawned : env.spawn job.job_id ≡ some pid
    pub swapped :
        update_status
          (env.update_fault job.job_id)
          d.store
          job.job_id
          queued
          running
          (start_fields env pid)
        ≡ ok store
    pub result :
        new ≡ record d { store = store; monitor = register (entry_of env job pid) d.monitor }

  -- A dispatch changes nothing, or marks the job as running and registers its process.
  pub dispatch_cases :
      (job : JobRecord) (d : Dispatcher)
      → (dispatch env job d ≡ d) ⊎ Spawned job d (dispatch env job d)
  unfolding dispatch
  dispatch_cases job d = elim (Option-cases (env.spawn job.job_id)) [
    | inl e ↦ inl (ground arith)
    | inr (pid, e) ↦
        attempt pid e
          (update_status (env.update_fault job.job_id) d.store job.job_id queued running
            (start_fields env pid))
          refl
  ]
    where
      attempt :
          (pid : ℕ)
          → env.spawn job.job_id ≡ some pid
          → (r : Result (List JobRecord))
          → update_status
              (env.update_fault job.job_id)
              d.store
              job.job_id
              queued
              running
              (start_fields env pid)
            ≡ r
          → (dispatch env job d ≡ d) ⊎ Spawned job d (dispatch env job d)
      attempt pid e (err x) u = inl (rw (e, dispatch) (rw (u, dispatch)))
      attempt pid e (ok rows) u = inr (record {
        pid = pid;
        store = rows;
        spawned = e;
        swapped = u;
        result = rw (e, dispatch) (rw (u, dispatch));
      })

  pub tally-dispatch-le :
      (p : WorkerEntry → Bool) (job : JobRecord) (d : Dispatcher)
      → tally p (dispatch env job d).monitor.workers ≤ suc (tally p d.monitor.workers)
  tally-dispatch-le p job d = elim (dispatch_cases job d) [
    | inl e ↦ rw e (omega arith)
    | inr s ↦ rw s.result (tally-register-le p (entry_of env job s.pid) d.monitor)
  ]

  pub tally-dispatch-le_other :
      (p : WorkerEntry → Bool) (job : JobRecord) (d : Dispatcher)
      → ((pid : ℕ) → p (entry_of env job pid) ≡ false)
      → tally p (dispatch env job d).monitor.workers ≤ tally p d.monitor.workers
  tally-dispatch-le_other p job d h = elim (dispatch_cases job d) [
    | inl e ↦ rw e (omega arith)
    | inr s ↦ rw s.result (tally-register-le_other p (entry_of env job s.pid) d.monitor (h s.pid))
  ]

  pub length-dispatch-le :
      (job : JobRecord) (d : Dispatcher)
      → length (dispatch env job d).monitor.workers ≤ suc (length d.monitor.workers)
  length-dispatch-le job d = elim (dispatch_cases job d) [
    | inl e ↦ rw e (omega arith)
    | inr s ↦ rw s.result (length-register-le (entry_of env job s.pid) d.monitor)
  ]

  pub max-dispatch :
      (job : JobRecord) (d : Dispatcher)
      → (dispatch env job d).max_concurrent_jobs ≡ d.max_concurrent_jobs
  max-dispatch job d = elim (dispatch_cases job d) [ inl e ↦ rw e | inr s ↦ rw s.result ]

-- What holds of a job of a class when the evaluation dispatches it.
abbrev pub Allowed : JobClass → JobRecord → Dispatcher → Type 0
Allowed read job d = Unit
Allowed download job d = Unit
Allowed write job d = has_running_write_for_vm d.monitor job.vm_identifier ≡ false
Allowed host_write job d = has_running_host_write d.monitor ≡ false

is_read-eq : (c : JobClass) → is_read c ≡ true → c ≡ read
is_read-eq read h = refl
is_read-eq write h = cc
is_read-eq host_write h = cc
is_read-eq download h = cc

-- A property that every dispatch of a read keeps, the evaluation beside a host write keeps.
module _ (env : Env) (P : Dispatcher → Type 0)
    (keep : (job : JobRecord) (d : Dispatcher)
      → classify job ≡ read
      → P d
      → P (dispatch env job d)) where
  read_keeps :
      (slots n : ℕ) (jobs : List JobRecord) (d : Dispatcher)
      → P d
      → P (read_loop env slots n jobs d)
  unfolding read_loop
  read_keeps slots n [] d h = h
  read_keeps slots n (job ∷ jobs) d h = elim (Bool-cases (leb slots n)) [
    | inl full ↦ rw full h
    | inr room ↦ elim (Bool-cases (is_read (classify job))) [
      | inl r ↦
          rw (room, r)
            (read_keeps slots (suc n) jobs (dispatch env job d)
              (keep job d (is_read-eq (classify job) r) h))
      | inr r ↦ rw (room, r) (read_keeps slots n jobs d h)
    ]
  ]

  pub reads_keeps : (slots : ℕ) (d : Dispatcher) → P d → P (dispatch_eligible_reads env slots d)
  unfolding dispatch_eligible_reads list_by_status
  reads_keeps slots d h =
      if_elim P (leb slots 0) (λ _. h)
        λ _.
          if_elim (λ r. P (read_listed env slots d r)) env.list_fault (λ _. h)
            λ _. read_keeps slots 0 _ d h

-- A property that every allowed dispatch keeps, the whole evaluation keeps.
module _ (env : Env) (P : Dispatcher → Type 0)
    (keep : (job : JobRecord) (d : Dispatcher)
      → Allowed (classify job) job d
      → P d
      → P (dispatch env job d)) where
  consider_keeps :
      (job : JobRecord) (c : JobClass)
      → classify job ≡ c
      → (p : Pass) → P p.state
      → P (consider env job p).state
  unfolding consider
  consider_keeps job read e p h = rw (e, consider) (keep job p.state (rw e tt) h)
  consider_keeps job download e p h = rw (e, consider) (keep job p.state (rw e tt) h)
  consider_keeps job write e p h =
      elim (Bool-cases (has_running_write_for_vm p.state.monitor job.vm_identifier)) [
        | inl busy ↦ rw (e, consider) (rw busy h)
        | inr free ↦ rw (e, consider) (rw free (keep job p.state (rw e free) h))
      ]
  consider_keeps job host_write e p h = elim (Bool-cases p.has_write) [
    | inl busy ↦ rw (e, consider) (rw busy h)
    | inr calm ↦ elim (Bool-cases (has_running_host_write p.state.monitor)) [
      | inl busy ↦ rw (e, consider) (rw (calm, busy) h)
      | inr free ↦ rw (e, consider) (rw (calm, free) (keep job p.state (rw e free) h))
    ]
  ]

  pub loop_keeps : (jobs : List JobRecord) (p : Pass) → P p.state → P (dispatch_loop env jobs p)
  unfolding dispatch_loop
  loop_keeps [] p h = h
  loop_keeps (job ∷ jobs) p h = elim (Bool-cases (leb p.state.max_concurrent_jobs p.count)) [
    | inl e ↦ rw e h
    | inr e ↦
        rw e (loop_keeps jobs (consider env job p) (consider_keeps job (classify job) refl p h))
  ]

  pub evaluate_keeps : (d : Dispatcher) → P d → P (evaluate_and_dispatch env d)
  unfolding evaluate_and_dispatch list_by_status
  evaluate_keeps d h =
      if_elim P d.drain_mode (λ _. h)
        λ _.
          if_elim P (leb d.max_concurrent_jobs (running_count d.monitor)) (λ _. h)
            λ _.
              if_elim P (has_running_host_write d.monitor)
                (λ _. reads_keeps env P (λ job d r h. keep job d (rw r tt) h) _ d h)
                λ _. if_elim (λ r. P (listed env d r)) env.list_fault (λ _. h) λ _. loop_keeps _ _ h

pub max-evaluate :
    (env : Env) (d : Dispatcher)
    → (evaluate_and_dispatch env d).max_concurrent_jobs ≡ d.max_concurrent_jobs
max-evaluate env d =
    evaluate_keeps env (λ e. e.max_concurrent_jobs ≡ d.max_concurrent_jobs)
      (λ job e _ h. max-dispatch env job e ∙ h) d refl
