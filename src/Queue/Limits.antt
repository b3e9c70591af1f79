-- ===== src/Queue/Limits.antt =====
-- dispatcher.go: the limit on concurrent workers, and the drain mode.
use open_v_center_agent_hype.Base.{
  if_elim, ℕ, suc, ◌+◌, ◌-◌, ◌≤◌, ◌<◌, max, ◌≡◌, refl, inl, inr, List, [], ◌∷◌, leb, length, arith,
  Bool-cases, leb→gt,
}
use open_v_center_agent_hype.JobStore.{JobRecord, list_by_status}
use open_v_center_agent_hype.Queue.Classifier.{classify, is_read}
use open_v_center_agent_hype.Queue.Monitor.{
  has_running_write, has_running_host_write, running_count,
}
use open_v_center_agent_hype.Queue.Dispatcher.{
  Env, Dispatcher, Pass, dispatch, consider, dispatch_loop, read_loop, dispatch_eligible_reads,
  evaluate_and_dispatch, enter_drain_mode, read_listed, listed, exit_drain_mode,
}
use open_v_center_agent_hype.Queue.Rules.{length-dispatch-le, max-dispatch}

abbrev Within : Dispatcher → Dispatcher → Type 0
Within d new = running_count new.monitor ≤ max (running_count d.monitor) d.max_concurrent_jobs

abbrev Uses : ℕ → Dispatcher → Type 0
Uses n new = length new.monitor.workers ≤ n

module _ (env : Env) where
  -- The counter of the loop is at least the number of workers, and grows by one at most.
  record Counted (p new : Pass) : Type 0 where
    covers : length new.state.monitor.workers ≤ new.count
    grows : new.count ≤ suc p.count
    same : new.state.max_concurrent_jobs ≡ p.state.max_concurrent_jobs

  consider-Counted :
      (job : JobRecord) (p : Pass)
      → length p.state.monitor.workers ≤ p.count
      → Counted p (consider env job p)
  unfolding consider
  consider-Counted job p h =
      ground (arith, length-dispatch-le env job p.state, max-dispatch env job p.state)

  loop-le :
      (jobs : List JobRecord) (p : Pass)
      → length p.state.monitor.workers ≤ p.count
      → p.count ≤ p.state.max_concurrent_jobs
      → length (dispatch_loop env jobs p).monitor.workers ≤ p.state.max_concurrent_jobs
  unfolding dispatch_loop
  loop-le [] p h k = omega arith
  loop-le (job ∷ jobs) p h k = elim (Bool-cases (leb p.state.max_concurrent_jobs p.count)) [
    | inl full ↦ rw full (omega arith)
    | inr room ↦
        let c : Counted p (consider env job p) = consider-Counted job p h in
        let less : p.count < p.state.max_concurrent_jobs = leb→gt _ _ room in
        rw room (
          omega (
            arith,
            c.same,
            loop-le jobs (consider env job p) c.covers (omega (arith, c.grows, c.same)),
          ))
  ]

  read-le :
      (base slots n : ℕ) (jobs : List JobRecord) (d : Dispatcher)
      → n ≤ slots
      → length d.monitor.workers ≤ base + n
      → length (read_loop env slots n jobs d).monitor.workers ≤ base + slots
  unfolding read_loop
  read-le base slots n [] d k h = omega arith
  read-le base slots n (job ∷ jobs) d k h = elim (Bool-cases (leb slots n)) [
    | inl full ↦ rw full (omega arith)
    | inr room ↦ elim (Bool-cases (is_read (classify job))) [
      | inl r ↦
          rw (room, r)
            (read-le base slots (suc n) jobs (dispatch env job d) (leb→gt _ _ room)
              (omega (arith, length-dispatch-le env job d)))
      | inr r ↦ rw (room, r) (read-le base slots n jobs d k h)
    ]
  ]

  reads-le :
      (slots : ℕ) (d : Dispatcher)
      → length (dispatch_eligible_reads env slots d).monitor.workers
        ≤ length d.monitor.workers + slots
  unfolding dispatch_eligible_reads list_by_status
  reads-le slots d =
      if_elim (Uses (length d.monitor.workers + slots)) (leb slots 0) (λ _. omega arith)
        λ _.
          if_elim (λ r. Uses (length d.monitor.workers + slots) (read_listed env slots d r))
            env.list_fault (λ _. omega arith)
            λ _. read-le (length d.monitor.workers) slots 0 _ d (omega arith) (omega arith)

  -- An evaluation never takes the number of running workers above the configured limit: it ends
  -- at or below the larger of the limit and the number that ran before.
  pub running_count-evaluate-le :
      (d : Dispatcher)
      → running_count (evaluate_and_dispatch env d).monitor
        ≤ max (running_count d.monitor) d.max_concurrent_jobs
  unfolding evaluate_and_dispatch list_by_status
  running_count-evaluate-le d =
      if_elim (Within d) d.drain_mode (λ _. omega arith)
        λ _.
          if_elim (Within d) (leb d.max_concurrent_jobs (running_count d.monitor))
            (λ _. omega arith)
            λ room.
              if_elim (Within d) (has_running_host_write d.monitor)
                (λ _. omega (
                  arith,
                  leb→gt _ _ room,
                  reads-le (d.max_concurrent_jobs - running_count d.monitor) d,
                ))
                λ _.
                  if_elim (λ r. Within d (listed env d r)) env.list_fault (λ _. omega arith)
                    λ _. omega (
                      arith,
                      leb→gt _ _ room,
                      loop-le _
                          (record {
                            state = d;
                            count = running_count d.monitor;
                            has_write = has_running_write d.monitor;
                          })
                          (omega arith) (omega (arith, leb→gt _ _ room)),
                    )

  -- After the dispatcher enters drain mode an evaluation changes nothing, neither the registry nor
  -- the store, and after it leaves drain mode an evaluation acts as on a dispatcher that never was
  -- in it.
  pub drain_mode_stops :
      (d : Dispatcher)
      → (evaluate_and_dispatch env (enter_drain_mode d) ≡ enter_drain_mode d)
        × (evaluate_and_dispatch env (exit_drain_mode (enter_drain_mode d))
            ≡ evaluate_and_dispatch env (exit_drain_mode d))
  unfolding evaluate_and_dispatch enter_drain_mode exit_drain_mode
  drain_mode_stops d = (refl, refl)
