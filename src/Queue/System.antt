-- ===== src/Queue/System.antt =====
-- The service over time: any sequence of evaluations, ends of workers, changes of drain mode and
-- writes to the store by anyone (workers, the consumer, the scheduler, retention).
use open_v_center_agent_hype.Base.{
  ◌∙◌, ℕ, ◌≤◌, ◌≡◌, String, Bool, List, arith, not, tally-select-le, length-select-le,
}
use open_v_center_agent_hype.JobStore.{JobRecord}
use open_v_center_agent_hype.Queue.Monitor.{
  Monitor, WorkerEntry, handle_termination, running_count, host_writes, writes_vm, unregister,
  is_worker,
}
use open_v_center_agent_hype.Queue.Dispatcher.{
  Env, Dispatcher, evaluate_and_dispatch, enter_drain_mode, exit_drain_mode,
}
use open_v_center_agent_hype.Queue.Limits.{running_count-evaluate-le}
use open_v_center_agent_hype.Queue.Exclusion.{
  OneWritePerVm, OneHostWrite, evaluate-OneWritePerVm, evaluate-OneHostWrite,
}
use open_v_center_agent_hype.Queue.Rules.{max-evaluate}

pub data Step : Dispatcher → Dispatcher → Type 0 where
  evaluates : (env : Env) (d : Dispatcher) → Step d (evaluate_and_dispatch env d)
  ends :
      (read_fault fault : Bool) (now : String) (e : WorkerEntry) (d : Dispatcher)
      → Step d (record d {
        store = (handle_termination read_fault fault now e d.store d.monitor).store;
        monitor = (handle_termination read_fault fault now e d.store d.monitor).monitor;
      })
  stores : (rows : List JobRecord) (d : Dispatcher) → Step d (record d { store = rows })
  enters_drain : (d : Dispatcher) → Step d (enter_drain_mode d)
  exits_drain : (d : Dispatcher) → Step d (exit_drain_mode d)

pub data Reach (d : Dispatcher) : Dispatcher → Type 0 where
  here : Reach d d
  next : {e f : Dispatcher} → Reach d e → Step e f → Reach d f

pub record IsSafe (limit : ℕ) (d : Dispatcher) : Type 0 where
  pub configured : d.max_concurrent_jobs ≡ limit
  pub bounded : running_count d.monitor ≤ limit
  pub one_write_per_vm : OneWritePerVm d
  pub one_host_write : OneHostWrite d

pub monitor-handle_termination :
    (read_fault fault : Bool) (now : String) (e : WorkerEntry) (rows : List JobRecord) (m : Monitor)
    → (handle_termination read_fault fault now e rows m).monitor ≡ unregister e.job_id m
unfolding handle_termination
monitor-handle_termination read_fault fault now e rows m = ground arith

unregister-IsSafe :
    (limit : ℕ) (rows : List JobRecord) (id : String) (d : Dispatcher)
    → IsSafe limit d
    → IsSafe limit (record d { store = rows; monitor = unregister id d.monitor })
unregister-IsSafe limit rows id d s = record {
  configured = s.configured;
  bounded =
      omega (arith, s.bounded, length-select-le (λ w. not (is_worker id w)) d.monitor.workers);
  one_write_per_vm = λ vm. omega (
    arith,
    s.one_write_per_vm vm,
    tally-select-le (writes_vm vm) (λ w. not (is_worker id w)) d.monitor.workers,
  );
  one_host_write = omega (
    arith,
    s.one_host_write,
    tally-select-le host_writes (λ w. not (is_worker id w)) d.monitor.workers,
  );
}

Step-IsSafe : (limit : ℕ) {d e : Dispatcher} → Step d e → IsSafe limit d → IsSafe limit e
unfolding enter_drain_mode exit_drain_mode
Step-IsSafe limit (evaluates env d) s = record {
  configured = max-evaluate env d ∙ s.configured;
  bounded = omega (arith, running_count-evaluate-le env d, s.bounded, s.configured);
  one_write_per_vm = evaluate-OneWritePerVm env d s.one_write_per_vm;
  one_host_write = evaluate-OneHostWrite env d s.one_host_write;
}
Step-IsSafe limit (ends rf f now e d) s =
    rw (monitor-handle_termination rf f now e d.store d.monitor)
      (unregister-IsSafe limit _ e.job_id d s)
Step-IsSafe limit (stores rows d) s = record {
  configured = s.configured;
  bounded = s.bounded;
  one_write_per_vm = s.one_write_per_vm;
  one_host_write = s.one_host_write;
}
Step-IsSafe limit (enters_drain d) s = record {
  configured = s.configured;
  bounded = s.bounded;
  one_write_per_vm = s.one_write_per_vm;
  one_host_write = s.one_host_write;
}
Step-IsSafe limit (exits_drain d) s = record {
  configured = s.configured;
  bounded = s.bounded;
  one_write_per_vm = s.one_write_per_vm;
  one_host_write = s.one_host_write;
}

-- In every state that the service reaches from a safe one, no more workers run than the limit
-- allows, each machine has at most one write job, and there is at most one host-wide write.
pub Reach-IsSafe : (limit : ℕ) {d e : Dispatcher} → Reach d e → IsSafe limit d → IsSafe limit e
Reach-IsSafe limit here s = s
Reach-IsSafe limit (next r st) s = Step-IsSafe limit st (Reach-IsSafe limit r s)
