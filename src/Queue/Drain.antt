-- ===== src/Queue/Drain.antt =====
-- dispatcher.go: the drain before an upgrade. One tick of the goroutine that EnterDrainMode starts,
-- and what it does between the ticks of the others: evaluations and ends of workers.
use mathlib.Core.Path.{subst}
use open_v_center_agent_hype.Base.{
  sym, arith, ◌≡◌, refl, Bool, true, false, not, ◌||◌, Option, none, some, List, [], ◌∷◌, nat_eq,
  if◌then◌else◌, any, select, All, eq_refl,
}
use open_v_center_agent_hype.Queue.Monitor.{
  WorkerEntry, handle_termination, is_worker, running_count,
}
use open_v_center_agent_hype.Queue.Dispatcher.{
  Env, Dispatcher, evaluate_and_dispatch, enter_drain_mode, exit_drain_mode,
}
use open_v_center_agent_hype.Queue.System.{monitor-handle_termination}

-- `launches` is whether the process of the new binary starts.
unfoldable pub launch_upgrade : Bool → Dispatcher → Dispatcher
unfolding exit_drain_mode
launch_upgrade launches d = if launches then d else exit_drain_mode d

-- `timed_out` is whether 30 minutes have passed; `none` goes on waiting.
unfoldable pub drain_tick : Bool → Bool → Dispatcher → Option Dispatcher
unfolding launch_upgrade
drain_tick timed_out launches d =
    if timed_out || nat_eq (running_count d.monitor) 0
    then some (launch_upgrade launches d)
    else none

module _ (env : Env) (read_fault fault : Bool) where
  -- The end of a worker, as the monitor handles it, followed by the evaluation that it signals.
  unfoldable pub end_and_evaluate : WorkerEntry → Dispatcher → Dispatcher
  end_and_evaluate e d =
      let t = handle_termination read_fault fault env.now_text e d.store d.monitor in
      evaluate_and_dispatch env (record d { store = t.store; monitor = t.monitor })

  unfoldable pub end_all : List WorkerEntry → Dispatcher → Dispatcher
  end_all [] d = d
  end_all (e ∷ es) d = end_all es (end_and_evaluate e d)

  abbrev EndsOf : List WorkerEntry → WorkerEntry → Type 0
  EndsOf es w = any (λ e. is_worker e.job_id w) es ≡ true

  All-unregister :
      (e : WorkerEntry) (es ws : List WorkerEntry)
      → All (EndsOf (e ∷ es)) ws
      → All (EndsOf es) (select (λ w. not (is_worker e.job_id w)) ws)
  All-unregister e es [] h = tt
  All-unregister e es (w ∷ ws) h = ground (arith, h, All-unregister e es ws)

  no_ends : (ws : List WorkerEntry) → All (EndsOf []) ws → ws ≡ []
  no_ends [] h = refl
  no_ends (w ∷ ws) h = absurd (ground (arith, h.0))

  drain-evaluate : (d : Dispatcher) → d.drain_mode ≡ true → evaluate_and_dispatch env d ≡ d
  unfolding evaluate_and_dispatch
  drain-evaluate d h = rw h

  drained :
      (es : List WorkerEntry) (d : Dispatcher)
      → d.drain_mode ≡ true
      → All (EndsOf es) d.monitor.workers
      → ((end_all es d).monitor.workers ≡ []) × ((end_all es d).drain_mode ≡ true)
  unfolding end_all end_and_evaluate
  drained [] d h a = (no_ends d.monitor.workers a, h)
  drained (e ∷ es) d h a =
      subst (λ x. ((end_all es x).monitor.workers ≡ []) × ((end_all es x).drain_mode ≡ true))
        (sym (drain-evaluate after_end h))
        (drained es after_end h (
          rw (monitor-handle_termination read_fault fault env.now_text e d.store d.monitor)
            (All-unregister e es d.monitor.workers a)))
    where
      after_end : Dispatcher
      after_end = record d {
        store = (handle_termination read_fault fault env.now_text e d.store d.monitor).store;
        monitor = (handle_termination read_fault fault env.now_text e d.store d.monitor).monitor;
      }

  All-weaken :
      (e : WorkerEntry) (es ws : List WorkerEntry) → All (EndsOf es) ws → All (EndsOf (e ∷ es)) ws
  All-weaken e es [] h = tt
  All-weaken e es (w ∷ ws) h = ground (arith, h, All-weaken e es ws)

  everyone_ends : (ws : List WorkerEntry) → All (EndsOf ws) ws
  everyone_ends [] = tt
  everyone_ends (w ∷ ws) = (rw (eq_refl w.job_id), All-weaken w ws ws (everyone_ends ws))

  -- Once every worker that ran when drain mode was entered has ended, whatever the database answers
  -- and with an evaluation after each end, no worker runs, the next tick launches the upgrade, and
  -- the dispatcher is in drain mode afterwards exactly if the launch succeeded.
  end_all-launches :
      (launches : Bool) (d : Dispatcher)
      → ((end_all d.monitor.workers (enter_drain_mode d)).monitor.workers ≡ [])
        × (drain_tick false launches (end_all d.monitor.workers (enter_drain_mode d))
            ≡ some (launch_upgrade launches (end_all d.monitor.workers (enter_drain_mode d))))
        × ((launch_upgrade launches (end_all d.monitor.workers (enter_drain_mode d))).drain_mode
            ≡ launches)
  unfolding enter_drain_mode drain_tick launch_upgrade
  end_all-launches launches d =
      let (none_left, draining) =
        drained d.monitor.workers (enter_drain_mode d) refl (everyone_ends d.monitor.workers) in
      (none_left, rw none_left, still launches draining)
    where
      still :
          (b : Bool)
          → (end_all d.monitor.workers (enter_drain_mode d)).drain_mode ≡ true
          → (launch_upgrade b (end_all d.monitor.workers (enter_drain_mode d))).drain_mode ≡ b
      still true h = h
      still false h = refl
