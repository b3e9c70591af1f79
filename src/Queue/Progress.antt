-- ===== src/Queue/Progress.antt =====
-- dispatcher.go: the job at the head of the queue, and the workers that are watched.
use open_v_center_agent_hype.Base.{
  ℕ, ◌≡◌, ◌≢◌, refl, inl, inr, String, true, false, not, List, [], ◌∷◌, ◌==◌, any, if_elim, arith,
  text_cases, eq_iff, leb, select, some, eq_refl, Bool, ◌∙◌, Option, none, ap, sym,
}
use open_v_center_agent_hype.JobStore.{
  JobRecord, find, queued, running, list_by_status, ok, rewrite, Fields, update_status,
}
use open_v_center_agent_hype.JobStore.Swap.{
  swapped, update_status_found, update_status-swaps, find-rewrite, find_id,
}
use open_v_center_agent_hype.Queue.Classifier.{
  JobClass, read, write, host_write, download, classify,
}
use open_v_center_agent_hype.Queue.Monitor.{
  has_running_write, Monitor, WorkerEntry, is_worker, register, has_running_host_write,
  running_count,
}
use open_v_center_agent_hype.Queue.Dispatcher.{
  Env, Dispatcher, Pass, start_fields, dispatch, evaluate_and_dispatch, entry_of, consider,
  dispatch_loop, listed,
}
use open_v_center_agent_hype.Queue.Rules.{Allowed, dispatch_cases, evaluate_keeps, loop_keeps}

any-select_other :
    (id other : String) (ws : List WorkerEntry)
    → (other == id) ≡ false
    → any (is_worker id) ws ≡ true
    → any (is_worker id) (select (λ e. not (is_worker other e)) ws) ≡ true
any-select_other id other [] n h = h
any-select_other id other (w ∷ ws) n h = ground (
  arith,
  eq_iff w.job_id id,
  eq_iff w.job_id other,
  eq_iff other id,
  any-select_other id other ws n,
)

abbrev pub IsWatched : String → Dispatcher → Type 0
IsWatched id d = any (is_worker id) d.monitor.workers ≡ true

-- The row of a job says that it runs, in a process.
abbrev pub IsMarked : String → ℕ → List JobRecord → Type 0
IsMarked id pid rows =
    (row : JobRecord) × (find id rows ≡ some row) × (row.status ≡ running) × (row.worker_pid ≡ pid)

-- A job that runs: its process is watched, and its row says so.
abbrev pub IsRunning : String → ℕ → Dispatcher → Type 0
IsRunning id pid d = IsWatched id d × IsMarked id pid d.store

abbrev status_of : Option JobRecord → String
status_of none = ""
status_of (some r) = r.status

not_both : queued ≢ running
not_both e = ground (arith, eq_iff queued running, e)

-- An update from the queue leaves a job that runs.
IsMarked-update_status :
    (fault : Bool) (rows : List JobRecord) (id other : String) (pid : ℕ) (fields : Fields)
    {new : List JobRecord}
    → update_status fault rows other queued running fields ≡ ok new
    → IsMarked id pid rows
    → IsMarked id pid new
IsMarked-update_status fault rows id other pid fields h (row, found, was, p) =
    let (r, f, q, _, others) = update_status-swaps fault rows other queued running fields h in
    elim (text_cases id other) [
      | inl same ↦
          absurd (
            not_both
              (sym q ∙ ap status_of (sym f ∙ ap (λ i. find i rows) (sym same) ∙ found) ∙ was))
      | inr apart ↦
          (row, others id (λ e. ground (arith, eq_iff id other, apart, e)) ∙ found, was, p)
    ]

IsMarked-rewrite :
    (env : Env) (job row : JobRecord) (pid : ℕ) (rows : List JobRecord)
    → find job.job_id rows ≡ some row
    → IsMarked job.job_id pid (rewrite job.job_id (swapped row running (start_fields env pid)) rows)
unfolding swapped
IsMarked-rewrite env job row pid rows found = (
  swapped row running (start_fields env pid),
  find-rewrite job.job_id (swapped row running (start_fields env pid)) rows
      (find_id job.job_id rows found) found,
  refl,
  refl,
)

any-register :
    (id : String) (e : WorkerEntry) (m : Monitor)
    → any (is_worker id) m.workers ≡ true
    → any (is_worker id) (register e m).workers ≡ true
unfolding register
any-register id e m h = elim (text_cases e.job_id id) [
  | inl same ↦ rw (same, eq_refl id) refl
  | inr apart ↦ rw apart (any-select_other id e.job_id m.workers apart h)
]

any-register_self :
    (e : WorkerEntry) (m : Monitor) → any (is_worker e.job_id) (register e m).workers ≡ true
unfolding register
any-register_self e m = rw (eq_refl e.job_id) refl

module _ (env : Env) where
  dispatch-IsWatched :
      (id : String) (job : JobRecord) (d : Dispatcher)
      → IsWatched id d
      → IsWatched id (dispatch env job d)
  dispatch-IsWatched id job d h = elim (dispatch_cases env job d) [
    | inl e ↦ rw e h
    | inr s ↦ rw s.result (any-register id (entry_of env job s.pid) d.monitor h)
  ]

  dispatch-IsRunning :
      (id : String) (pid : ℕ) (job : JobRecord) (d : Dispatcher)
      → IsRunning id pid d
      → IsRunning id pid (dispatch env job d)
  dispatch-IsRunning id pid job d h = (
    dispatch-IsWatched id job d h.0,
    elim (dispatch_cases env job d) [
      | inl e ↦ rw e h.1
      | inr s ↦ rw s.result (
          IsMarked-update_status (env.update_fault job.job_id) d.store id job.job_id pid
            (start_fields env s.pid) s.swapped h.1)
    ],
  )

  -- The dispatch of a queued job, when the process starts and the database does not refuse.
  pub dispatch_starts :
      (job : JobRecord) (d : Dispatcher) {row : JobRecord} {pid : ℕ}
      → find job.job_id d.store ≡ some row
      → row.status ≡ queued
      → env.spawn job.job_id ≡ some pid
      → env.update_fault job.job_id ≡ false
      → dispatch env job d ≡ record d {
        store = rewrite job.job_id (swapped row running (start_fields env pid)) d.store;
        monitor = register (entry_of env job pid) d.monitor;
      }
  unfolding dispatch
  dispatch_starts job d {row} {pid} found was spawned fine =
      rw (spawned, dispatch)
        (rw
          (
            fine,
            update_status_found d.store job.job_id queued running (start_fields env pid) found was,
          )
          refl)

  consider_head :
      (job : JobRecord) (c : JobClass) (p : Pass)
      → classify job ≡ c
      → Allowed c job p.state
      → c ≢ host_write
      → (consider env job p).state ≡ dispatch env job p.state
  unfolding consider
  consider_head job read p e a n = rw (e, consider)
  consider_head job download p e a n = rw (e, consider)
  consider_head job write p e a n = rw (e, consider) (rw a)
  consider_head job host_write p e a n = absurd (n refl)

  -- When the dispatcher is awake, has a free slot and no host-wide write runs, the job at the head
  -- of the queue, unless it is a host-wide write itself or a write to a machine that is being
  -- written, is running after the evaluation: a worker of it is watched, and the row of the job has the status
  -- running and the number of the process that was started for it, provided its process
  -- starts, the database does not refuse, and the job is queued in the store.
  pub evaluate-starts_head :
      (d : Dispatcher) (job : JobRecord) (jobs : List JobRecord) {row : JobRecord} {pid : ℕ}
      → d.drain_mode ≡ false
      → leb d.max_concurrent_jobs (running_count d.monitor) ≡ false
      → has_running_host_write d.monitor ≡ false
      → list_by_status env.list_fault d.store queued ≡ ok (job ∷ jobs)
      → classify job ≢ host_write
      → Allowed (classify job) job d
      → find job.job_id d.store ≡ some row
      → row.status ≡ queued
      → env.spawn job.job_id ≡ some pid
      → env.update_fault job.job_id ≡ false
      → IsRunning job.job_id pid (evaluate_and_dispatch env d)
  unfolding evaluate_and_dispatch dispatch_loop
  evaluate-starts_head d job jobs {row} {pid} awake room calm queue n a found was spawned fine =
      if_elim (IsRunning job.job_id pid) d.drain_mode (λ e. cc)
        λ _.
          if_elim (IsRunning job.job_id pid) (leb d.max_concurrent_jobs (running_count d.monitor))
            (λ e. cc)
            λ _.
              if_elim (IsRunning job.job_id pid) (has_running_host_write d.monitor) (λ e. cc)
                λ _.
                  rw (queue, listed)
                    (if_elim (IsRunning job.job_id pid)
                      (leb d.max_concurrent_jobs (running_count d.monitor)) (λ e. cc)
                      λ _.
                        loop_keeps env (IsRunning job.job_id pid)
                          (λ other d' _. dispatch-IsRunning job.job_id pid other d') jobs
                          (consider env job start)
                          (rw
                            (
                              consider_head job (classify job) start refl a n,
                              dispatch_starts job d found was spawned fine,
                            )
                            (
                              any-register_self (entry_of env job pid) d.monitor,
                              IsMarked-rewrite env job row pid d.store found,
                            )))
    where
      start : Pass
      start = record {
        state = d;
        count = running_count d.monitor;
        has_write = has_running_write d.monitor;
      }

  -- A worker that is watched before an evaluation is watched after it.
  evaluate-IsWatched :
      (id : String) (d : Dispatcher) → IsWatched id d → IsWatched id (evaluate_and_dispatch env d)
  evaluate-IsWatched id = evaluate_keeps env (IsWatched id) (λ job d _. dispatch-IsWatched id job d)
