-- ===== src/Queue/Separation.antt =====
-- dispatcher.go: evaluations beside writes that already run.
use open_v_center_agent_hype.Base.{
  if_elim, refl, ◌≤◌, ◌≡◌, true, inl, inr, List, [], ◌∷◌, leb, tally, arith, Bool-cases, ℕ,
}
use open_v_center_agent_hype.JobStore.{JobRecord, list_by_status}
use open_v_center_agent_hype.Queue.Classifier.{
  JobClass, read, write, host_write, download, classify,
}
use open_v_center_agent_hype.Queue.Monitor.{
  any_writes, host_writes, has_running_write, has_running_host_write, has_running_write_for_vm,
  running_count,
}
use open_v_center_agent_hype.Queue.Dispatcher.{
  Env, Dispatcher, Pass, dispatch, consider, dispatch_loop, evaluate_and_dispatch, listed,
}
use open_v_center_agent_hype.Queue.Rules.{tally-dispatch-le_other, reads_keeps}

module _ (env : Env) (most : ℕ) where
  abbrev FewWrites : Dispatcher → Type 0
  FewWrites d = tally any_writes d.monitor.workers ≤ most

  abbrev FewHostWrites : Dispatcher → Type 0
  FewHostWrites d = tally host_writes d.monitor.workers ≤ most

  read-FewWrites :
      (job : JobRecord) (d : Dispatcher)
      → classify job ≡ read
      → FewWrites d
      → FewWrites (dispatch env job d)
  read-FewWrites job d e h =
      omega (arith, h, tally-dispatch-le_other env any_writes job d (λ pid. rw e))

  -- The loop's flag is up, and few host-wide writes run.
  abbrev Held : Pass → Type 0
  Held p = (p.has_write ≡ true) × FewHostWrites p.state

  consider-Held :
      (job : JobRecord) (c : JobClass)
      → classify job ≡ c
      → (p : Pass) → Held p
      → Held (consider env job p)
  unfolding consider
  consider-Held job read e p (w, h) =
      rw (e, consider)
        (w, omega (arith, h, tally-dispatch-le_other env host_writes job p.state (λ pid. rw e)))
  consider-Held job download e p (w, h) =
      rw (e, consider)
        (w, omega (arith, h, tally-dispatch-le_other env host_writes job p.state (λ pid. rw e)))
  consider-Held job write e p (w, h) =
      elim (Bool-cases (has_running_write_for_vm p.state.monitor job.vm_identifier)) [
        | inl busy ↦ rw (e, consider) (rw busy (w, h))
        | inr free ↦
            rw (e, consider)
              (rw free (
                w,
                omega (arith, h, tally-dispatch-le_other env host_writes job p.state (λ pid. rw e)),
              ))
      ]
  consider-Held job host_write e p (w, h) = rw (e, consider) (rw w (refl, h))

  loop-FewHostWrites :
      (jobs : List JobRecord) (p : Pass) → Held p → FewHostWrites (dispatch_loop env jobs p)
  unfolding dispatch_loop
  loop-FewHostWrites [] p h = h.1
  loop-FewHostWrites (job ∷ jobs) p h =
      if_elim FewHostWrites (leb p.state.max_concurrent_jobs p.count) (λ _. h.1)
        λ _.
          loop-FewHostWrites jobs (consider env job p) (consider-Held job (classify job) refl p h)

  FewWrites-evaluate :
      (d : Dispatcher)
      → has_running_host_write d.monitor ≡ true
      → FewWrites d
      → FewWrites (evaluate_and_dispatch env d)
  unfolding evaluate_and_dispatch
  FewWrites-evaluate d host h =
      if_elim FewWrites d.drain_mode (λ _. h)
        λ _.
          if_elim FewWrites (leb d.max_concurrent_jobs (running_count d.monitor)) (λ _. h)
            λ _. rw host (reads_keeps env FewWrites read-FewWrites _ d h)

  FewHostWrites-evaluate :
      (d : Dispatcher)
      → has_running_write d.monitor ≡ true
      → FewHostWrites d
      → FewHostWrites (evaluate_and_dispatch env d)
  unfolding evaluate_and_dispatch list_by_status
  FewHostWrites-evaluate d w h =
      if_elim FewHostWrites d.drain_mode (λ _. h)
        λ _.
          if_elim FewHostWrites (leb d.max_concurrent_jobs (running_count d.monitor)) (λ _. h)
            λ _.
              if_elim FewHostWrites (has_running_host_write d.monitor)
                (λ _.
                  reads_keeps env FewHostWrites
                    (λ job d' e k.
                      omega
                        (arith, k, tally-dispatch-le_other env host_writes job d' (λ pid. rw e)))
                    _ d h)
                λ _.
                  if_elim (λ r. FewHostWrites (listed env d r)) env.list_fault (λ _. h)
                    λ _.
                      loop-FewHostWrites _
                        (record {
                          state = d;
                          count = running_count d.monitor;
                          has_write = has_running_write d.monitor;
                        })
                        (w, h)

-- If a host-wide write runs when an evaluation begins, no more writes of either kind run after it
-- than before.
evaluate-beside_host_write :
    (env : Env) (d : Dispatcher)
    → has_running_host_write d.monitor ≡ true
    → tally any_writes (evaluate_and_dispatch env d).monitor.workers
      ≤ tally any_writes d.monitor.workers
evaluate-beside_host_write env d h = FewWrites-evaluate env _ d h (omega arith)

-- If any write runs when an evaluation begins, no more host-wide writes run after it than before.
evaluate-beside_write :
    (env : Env) (d : Dispatcher)
    → has_running_write d.monitor ≡ true
    → tally host_writes (evaluate_and_dispatch env d).monitor.workers
      ≤ tally host_writes d.monitor.workers
evaluate-beside_write env d w = FewHostWrites-evaluate env _ d w (omega arith)
