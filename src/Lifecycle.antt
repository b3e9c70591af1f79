-- ===== src/Lifecycle.antt =====
-- The table of jobs over time: what main.go, the scheduler, the dispatcher, the monitor, the
-- workers, the recovery and the retention make of it, in any order.
use open_v_center_agent_hype.Base.{ℕ, String, ◌≡◌, refl, Bool, Option, List, [], ◌∷◌}
use open_v_center_agent_hype.JobStore.{JobRecord, ok, recover_orphaned_jobs}
use open_v_center_agent_hype.JobStore.Life.{
  Evolves, Evolves-refl, UniqueIds, Author, submitter, dispatcher, worker, watcher, purger, Refines,
  begins, lives_on,
}
use open_v_center_agent_hype.JobStore.Life.Steps.{create-Evolves, recover_orphaned_jobs-Evolves}
use open_v_center_agent_hype.Queue.Moves.{
  refresh-Evolves, purge-Evolves, handle_termination-Evolves, evaluate-Evolves,
}
use open_v_center_agent_hype.Queue.Monitor.{WorkerEntry, Monitor, handle_termination}
use open_v_center_agent_hype.Queue.Dispatcher.{Env, evaluate_and_dispatch}
use open_v_center_agent_hype.Queue.Scheduler.{Tick, maybe_create_refresh_job}
use open_v_center_agent_hype.Queue.Retention.{purge}
use open_v_center_agent_hype.Agent.{AgentRequest, job_of, handle_delivery}
use open_v_center_agent_hype.Agent as Agent
use open_v_center_agent_hype.Agent.Delivery.{
  Handled, refused, duplicate, persisted, handle_delivery-Handled,
}
use open_v_center_agent_hype.Worker.{WorkerEnv, run_job}
use open_v_center_agent_hype.Worker.Moves.{run_job-Evolves}

-- One change of the table, with what its author meets chosen freely. `R` is the type of the
-- results of the workers' handlers.
pub data Change (R : Type 0) (rows : List JobRecord) : Author → List JobRecord → Type 0 where
  delivers :
      (env : Agent.Env) (d : Option AgentRequest)
      → Change R rows submitter (handle_delivery env rows d).0
  refreshes :
      (t : Tick) (task_type : String)
      → Change R rows submitter (maybe_create_refresh_job t rows task_type).0
  evaluates :
      (env : Env) (m : Monitor) (max_jobs : ℕ) (drain : Bool)
      → Change R rows dispatcher
          (evaluate_and_dispatch env (record {
            store = rows;
            monitor = m;
            max_concurrent_jobs = max_jobs;
            drain_mode = drain;
          })).store
  ends :
      (read_fault fault : Bool) (now : String) (e : WorkerEntry) (m : Monitor)
      → Change R rows watcher (handle_termination read_fault fault now e rows m).store
  works :
      (w : WorkerEnv R) (early : List JobRecord) (id : String)
      → Change R rows worker (run_job w early rows id).store
  recovers :
      (alive : ℕ → Bool) (message : ℕ → String) (fault : String → Bool) (now : String)
      (list_fault : Bool) {new : List JobRecord}
      → recover_orphaned_jobs alive message fault now list_fault rows ≡ ok new
      → Change R rows watcher new
  purges : (fault : Bool) (cutoff : String) → Change R rows purger (purge fault cutoff rows).0

-- Changes in a row, with their authors, the last of them first.
pub data Changes (R : Type 0) (rows : List JobRecord) : List Author → List JobRecord → Type 0 where
  unchanged : Changes R rows [] rows
  and_then :
      {x : Author} {authors : List Author} {a b : List JobRecord}
      → Changes R rows authors a
      → Change R a x b
      → Changes R rows (x ∷ authors) b

Handled-Evolves :
    {rows : List JobRecord} {env : Agent.Env} {d : Option AgentRequest}
    {r : List JobRecord × List Agent.Effect}
    → UniqueIds rows
    → Handled env rows d r
    → Evolves submitter rows r.0
Handled-Evolves u (refused requeue why) = Evolves-refl u
Handled-Evolves u (duplicate req t c) = Evolves-refl u
Handled-Evolves {rows} {env} u (persisted req new calm c) =
    create-Evolves env.create_fault rows (job_of env req) refl u c

module _ {R : Type 0} where
  Change-Evolves :
      {rows new : List JobRecord} {x : Author}
      → Change R rows x new
      → UniqueIds rows
      → Evolves x rows new
  Change-Evolves {rows} (delivers env d) u = Handled-Evolves u (handle_delivery-Handled env rows d)
  Change-Evolves (refreshes t task_type) u = refresh-Evolves u t task_type
  Change-Evolves (evaluates env m max_jobs drain) u = evaluate-Evolves env _ u
  Change-Evolves (ends read_fault fault now e m) u =
      handle_termination-Evolves u read_fault fault now e m
  Change-Evolves {rows} (works w early id) u = run_job-Evolves w rows u id early
  Change-Evolves {rows} (recovers alive message fault now list_fault h) u =
      recover_orphaned_jobs-Evolves alive message fault now list_fault rows u h
  Change-Evolves (purges fault cutoff) u = purge-Evolves u fault cutoff

  -- However deliveries, refreshes, evaluations, ends and runs of workers, recoveries and purges
  -- follow each other on a table with unique ids, the ids stay unique, and the life of each job is
  -- made of steps that the authors of the changes may take, in the order of the changes: only a delivery or a
  -- refresh submits a job, only an evaluation starts one, and only one that waits; only the run of a
  -- worker lets a job succeed, and only one that runs; a job that runs is broken by the run of its worker,
  -- by its end or by the recovery only; and a purge takes only jobs that have ended.
  pub Changes-Refines :
      {rows new : List JobRecord} {authors : List Author}
      → Changes R rows authors new
      → UniqueIds rows
      → Refines authors rows new
  Changes-Refines unchanged u = record { keeps_ids = u; lived = λ id. begins }
  Changes-Refines (and_then cs c) u =
      let before = Changes-Refines cs u in
      let e = Change-Evolves c before.keeps_ids in
      record { keeps_ids = e.keeps_ids; lived = λ id. lives_on (before.lived id) (e.lives id) }
