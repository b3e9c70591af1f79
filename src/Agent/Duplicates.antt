-- ===== src/Agent/Duplicates.antt =====
-- cmd/agent/main.go: the conflict check before a job is stored.
use mathlib.Core.Path.{subst₂, ◌∙◌}
use open_v_center_agent_hype.Base.{
  tally-single-le, tally-single_false, ap, ◌≤◌, String, ◌≡◌, ◌≢◌, refl, ◌⊎◌, inl, inr, true, false,
  Option, List, [], ◌∷◌, ◌==◌, arith, tally, eq_iff, Bool-cases,
}
use open_v_center_agent_hype.JobStore.{JobRecord, ok, create, conflicts, has_conflict}
use open_v_center_agent_hype.Queue.Refresh.{tally-create-le}
use open_v_center_agent_hype.Agent.{
  AgentRequest, Env, Effect, job_of, vm_of, is_write_task, conflicting, handle_delivery,
}
use open_v_center_agent_hype.Agent.Delivery.{
  Handled, refused, duplicate, persisted, handle_delivery-Handled,
}

-- For every machine and kind of job (and every action, for the management of a machine) at most
-- one job is queued or running.
abbrev pub NoDuplicates : List JobRecord → Type 0
NoDuplicates rows =
    (task_type action vm : String)
    → is_write_task task_type ≡ true
    → vm ≢ ""
    → tally (conflicts task_type action vm) rows ≤ 1

-- Outside the management of a machine the action plays no part.
tally-conflicts_action :
    (task_type a b vm : String) (rows : List JobRecord)
    → ((task_type == "vm_management") ≡ false) ⊎ (a ≡ b)
    → tally (conflicts task_type a vm) rows ≡ tally (conflicts task_type b vm) rows
unfolding conflicts
tally-conflicts_action t a b vm [] h = refl
tally-conflicts_action t a b vm (r ∷ rows) (inr e) = ap (λ x. tally (conflicts t x vm) (r ∷ rows)) e
tally-conflicts_action t a b vm (r ∷ rows) (inl n) =
    ground (arith, n, tally-conflicts_action t a b vm rows (inl n))

-- A job conflicts only with a key that is its own.
module _ (job : JobRecord) (task_type action vm : String)
    (c : conflicts task_type action vm job ≡ true) where
  own_vm : job.vm_identifier ≡ vm
  unfolding conflicts
  own_vm = ground (arith, c, eq_iff job.vm_identifier vm)

  own_type : job.task_type ≡ task_type
  unfolding conflicts
  own_type = ground (arith, c, eq_iff job.task_type task_type)

  own_action : ((task_type == "vm_management") ≡ false) ⊎ (action ≡ job.action)
  unfolding conflicts
  own_action = elim (Bool-cases (task_type == "vm_management")) [
    | inr n ↦ inl n
    | inl m ↦ inr (ground (arith, c, m, eq_iff job.action action))
  ]

-- What the handler asked before it created a job.
asked :
    (env : Env) (rows : List JobRecord) (req : AgentRequest)
    → env.conflict_fault ≡ false
    → is_write_task (job_of env req).task_type ≡ true
    → vm_of env req ≢ ""
    → conflicting env rows req ≡ false
    → tally (conflicts (job_of env req).task_type (job_of env req).action (vm_of env req)) rows ≡ 0
unfolding conflicting has_conflict
asked env rows req fine w named calm = ground (arith, calm, eq_iff (vm_of env req) "")

persisted_le :
    (env : Env) (rows : List JobRecord) (req : AgentRequest) {new : List JobRecord}
    → env.conflict_fault ≡ false
    → NoDuplicates rows
    → conflicting env rows req ≡ false
    → create env.create_fault rows (job_of env req) ≡ ok new
    → NoDuplicates new
persisted_le env rows req fine h calm c t a vm w n =
    let p = conflicts t a vm in
    let job = job_of env req in
    elim (Bool-cases (conflicts t a vm job)) [
      | inr other ↦ omega (
        arith,
        h t a vm w n,
        tally-create-le env.create_fault rows job p c,
        tally-single_false p job other,
      )
      | inl own ↦ omega (
        arith,
        tally-create-le env.create_fault rows job p c,
        tally-single-le p job,
        was_free own,
      )
    ]
  where
    was_free : conflicts t a vm (job_of env req) ≡ true → tally (conflicts t a vm) rows ≡ 0
    was_free own =
        tally-conflicts_action t a (job_of env req).action vm rows
          (own_action (job_of env req) t a vm own)
        ∙ subst₂ (λ t' vm'. tally (conflicts t' (job_of env req).action vm') rows ≡ 0)
            (own_type (job_of env req) t a vm own) (own_vm (job_of env req) t a vm own)
            (asked env rows req fine (rw (own_type (job_of env req) t a vm own) w)
              (rw (own_vm (job_of env req) t a vm own) n) calm)

-- While the database answers the conflict query, no delivery leaves two write jobs of one type
-- (and, for the management of a machine, of one action) waiting or running for one named machine,
-- if there were none before.
pub handle_delivery-NoDuplicates :
    (env : Env) (rows : List JobRecord) (d : Option AgentRequest)
    → env.conflict_fault ≡ false
    → NoDuplicates rows
    → NoDuplicates (handle_delivery env rows d).0
handle_delivery-NoDuplicates env rows d fine h = kept (handle_delivery-Handled env rows d)
  where
    kept :
        {o : Option AgentRequest} {r : List JobRecord × List Effect}
        → Handled env rows o r
        → NoDuplicates r.0
    kept (refused requeue why) = h
    kept (duplicate req t c) = h
    kept (persisted req new calm c) =
        λ task_type action vm w n. persisted_le env rows req fine h calm c task_type action vm w n
