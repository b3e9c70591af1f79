-- ===== src/Agent/Delivery.antt =====
-- cmd/agent/main.go: the settlement of one delivery.
use open_v_center_agent_hype.Tasks.Functions.{resolve_function}
use open_v_center_agent_hype.Base.{
  String, ◌≡◌, refl, ◌⊎◌, inl, inr, Bool, true, false, Option, none, some, List, [], ◌∷◌, ◌++◌,
  ◌==◌, ◌||◌, if_elim, arith, tally, any, eq_iff, eq_refl, ◌&&◌,
}
use open_v_center_agent_hype.JobStore.{JobRecord, Result, ok, err, create, find, has_id, Error}
use open_v_center_agent_hype.Agent.{
  AgentRequest, Env, Effect, ack, nack, triggers, publishes_conflict, job_of, conflicting,
  handle_request, handle_delivery, stored, extract_vm_identifier,
}

abbrev pub is_settlement : Effect → Bool
is_settlement ack = true
is_settlement (nack requeue) = true
is_settlement _ = false

abbrev pub is_ack : Effect → Bool
is_ack ack = true
is_ack _ = false

abbrev pub is_conflict : Effect → Bool
is_conflict (publishes_conflict req t) = true
is_conflict _ = false

-- The conflict that is published is that of a request.
abbrev reports : AgentRequest → Effect → Bool
reports req (publishes_conflict r t) = (r.id == req.id) && (r.function == req.function)
reports req _ = false

reports_itself :
    (req : AgentRequest) (t : String)
    → any (reports req) (publishes_conflict req t ∷ ack ∷ []) ≡ true
reports_itself req t = rw (eq_refl req.id, eq_refl req.function) refl

find-append :
    (id : String) (rows : List JobRecord) (job : JobRecord)
    → any (has_id id) rows ≡ false
    → job.job_id ≡ id
    → find id (rows ++ job ∷ []) ≡ some job
unfolding find
find-append id [] job h e = ground (arith, eq_iff job.job_id id)
find-append id (r ∷ rows) job h e = ground (arith, find-append id rows job)

-- A job that was created is found under its id.
pub find-create :
    (fault : Bool) (rows : List JobRecord) (job : JobRecord) {new : List JobRecord}
    → create fault rows job ≡ ok new
    → find job.job_id new ≡ some job
unfolding create
find-create fault rows job h = ground (arith, find-append job.job_id rows job)

new-append :
    (fault : Bool) (rows : List JobRecord) (job : JobRecord) {new : List JobRecord}
    → create fault rows job ≡ ok new
    → new ≡ rows ++ job ∷ []
unfolding create
new-append fault rows job h = ground arith

-- Why a delivery is not acknowledged.
pub data Unfit (env : Env) (rows : List JobRecord) : Option AgentRequest → Type 0 where
  no_request : Unfit env rows none
  incomplete :
      (req : AgentRequest) → (req.id == "" || req.function == "") ≡ true → Unfit env rows (some req)
  shutting_down : (req : AgentRequest) → env.cancelled ≡ true → Unfit env rows (some req)
  database_refuses :
      (req : AgentRequest) (e : Error)
      → create env.create_fault rows (job_of env req) ≡ err e
      → Unfit env rows (some req)

-- What a delivery leaves: it is settled once, and what is not persisted is reported or refused.
pub data Handled (env : Env) (rows : List JobRecord)
    : Option AgentRequest → List JobRecord × List Effect → Type 0 where
  refused :
      {d : Option AgentRequest} (requeue : Bool)
      → Unfit env rows d
      → Handled env rows d (rows, nack requeue ∷ [])
  duplicate :
      (req : AgentRequest) (t : String)
      → conflicting env rows req ≡ true
      → Handled env rows (some req) (rows, publishes_conflict req t ∷ ack ∷ [])
  persisted :
      (req : AgentRequest) (new : List JobRecord)
      → conflicting env rows req ≡ false
      → create env.create_fault rows (job_of env req) ≡ ok new
      → Handled env rows (some req) (new, ack ∷ triggers ∷ [])

-- The job that stands for a request: queued, with the request's own text, and not started.
pub record IsJobOf (env : Env) (req : AgentRequest) (job : JobRecord) : Type 0 where
  pub same_id : job.job_id ≡ env.job_id
  pub same_task : job.task_id ≡ req.id
  pub same_type : job.task_type ≡ (resolve_function req.function).0
  pub same_action : job.action ≡ (resolve_function req.function).1
  pub same_payload : job.payload ≡ req.params
  pub same_vm :
      job.vm_identifier
      ≡ extract_vm_identifier (resolve_function req.function).0 (env.parse_params req.params)
  pub is_queued : job.status ≡ "queued"
  pub is_new : (job.created_at ≡ env.now_text) × (job.started_at ≡ none) × (job.completed_at ≡ none)
  pub has_no_worker : job.worker_pid ≡ 0

-- The delivery is the request that is stored, or of which the backend is told.
abbrev pub Settled :
    Env → List JobRecord → Option AgentRequest → List JobRecord × List Effect → Type 0
Settled env rows d r =
    (tally is_settlement r.1 ≡ 1)
    × (((any is_ack r.1 ≡ false) × (r.0 ≡ rows) × Unfit env rows d)
        ⊎ (((req : AgentRequest) × (d ≡ some req)
              × (conflicting env rows req ≡ true)
              × (any (reports req) r.1 ≡ true)
              × (r.0 ≡ rows))
            ⊎ ((req : AgentRequest) × (job : JobRecord) × (d ≡ some req)
                × IsJobOf env req job
                × (r.0 ≡ rows ++ job ∷ [])
                × (find env.job_id r.0 ≡ some job)
                × (any is_conflict r.1 ≡ false))))

module _ (env : Env) (rows : List JobRecord) where
  stored-Handled :
      (req : AgentRequest)
      → conflicting env rows req ≡ false
      → (r : Result (List JobRecord)) → create env.create_fault rows (job_of env req) ≡ r
      → Handled env rows (some req) (stored env rows r)
  unfolding stored
  stored-Handled req calm (err e) h = refused false (database_refuses req e h)
  stored-Handled req calm (ok new) h = persisted req new calm h

  handle_request-Handled :
      (req : AgentRequest) → Handled env rows (some req) (handle_request env rows req)
  unfolding handle_request
  handle_request-Handled req =
      if_elim (Handled env rows (some req)) (req.id == "" || req.function == "")
        (λ t. refused false (incomplete req t))
        λ _.
          if_elim (Handled env rows (some req)) env.cancelled
            (λ t. refused true (shutting_down req t))
            λ _.
              if_elim (Handled env rows (some req)) (conflicting env rows req)
                (λ c. duplicate req _ c) λ calm. stored-Handled req calm _ refl

  pub handle_delivery-Handled :
      (d : Option AgentRequest) → Handled env rows d (handle_delivery env rows d)
  unfolding handle_delivery
  handle_delivery-Handled none = refused false no_request
  handle_delivery-Handled (some req) = handle_request-Handled req

  job_of-IsJobOf : (req : AgentRequest) → IsJobOf env req (job_of env req)
  job_of-IsJobOf req = record {
    same_id = refl;
    same_task = refl;
    same_type = refl;
    same_action = refl;
    same_payload = refl;
    same_vm = refl;
    is_queued = refl;
    is_new = (refl, refl, refl);
    has_no_worker = refl;
  }

  Handled-Settled :
      {d : Option AgentRequest} {r : List JobRecord × List Effect}
      → Handled env rows d r
      → Settled env rows d r
  Handled-Settled (refused requeue why) = (refl, inl (refl, refl, why))
  Handled-Settled (duplicate req t c) = (refl, inr (inl (req, refl, c, reports_itself req t, refl)))
  Handled-Settled (persisted req new calm h) = (
    refl,
    inr (
        inr (
          req,
          job_of env req,
          refl,
          job_of-IsJobOf req,
          new-append env.create_fault rows (job_of env req) h,
          find-create env.create_fault rows (job_of env req) h,
          refl,
        )),
  )

  -- Every delivery is acknowledged or rejected exactly once. Without an acknowledgement the store
  -- is as it was, and the delivery is no request, or an incomplete one, or the agent shuts down, or
  -- the database refuses the job; with one, the delivery was a request, and either the backend is told that this
  -- request is a duplicate and the store is as it was, or a job that was not there is added to the
  -- store, and found under its id: queued, new, without a worker, and with the task, the type, the
  -- action, the machine and the payload of this request.
  pub handle_delivery-Settled :
      (d : Option AgentRequest) → Settled env rows d (handle_delivery env rows d)
  handle_delivery-Settled d = Handled-Settled (handle_delivery-Handled d)
