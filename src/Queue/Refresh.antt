-- ===== src/Queue/Refresh.antt =====
-- scheduler.go: how many refreshes of one type wait or run.
use text.Mathlib.TextPositions.{starts_with-append}
use open_v_center_agent_hype.Base.{
  ◌+◌, ◌≤◌, ◌≡◌, refl, ◌⊎◌, inl, inr, String, Bool, true, false, List, [], ◌∷◌, arith, tally, any,
  select, tally-any, tally-select, Bool-cases, tally-append, ◌==◌, ◌||◌, ◌&&◌, ◌≢◌, eq_iff,
}
use open_v_center_agent_hype.JobStore.{
  JobRecord, Result, ok, err, queued, running, create, list_by_status, sort_by_created,
}
use open_v_center_agent_hype.JobStore.Listing.{tally-sort_by_created}
use open_v_center_agent_hype.Queue.Scheduler.{
  Tick, of_type, has_existing_refresh, refresh_job, maybe_create_refresh_job,
  periodic_refresh_task_id, is_periodic_refresh_task_id,
}

abbrev pub is_active : String → JobRecord → Bool
is_active task_type r = (r.status == queued || r.status == running) && of_type task_type r

-- The task id of every job that the scheduler creates is recognised as periodic, so that its
-- worker publishes no response for it.
pub is_periodic-refresh_job :
    (t : Tick) (task_type : String)
    → is_periodic_refresh_task_id (refresh_job t task_type).task_id ≡ true
unfolding is_periodic_refresh_task_id periodic_refresh_task_id
is_periodic-refresh_job t task_type = starts_with-append _ _

tally-active-le :
    (task_type : String) (rows : List JobRecord)
    → tally (is_active task_type) rows
      ≤ tally (λ r. r.status == queued && of_type task_type r) rows
        + tally (λ r. r.status == running && of_type task_type r) rows
tally-active-le task_type [] = omega arith
tally-active-le task_type (r ∷ rows) = ground (arith, tally-active-le task_type rows)

none_listed :
    (task_type status : String) (rows : List JobRecord)
    → any (of_type task_type) (sort_by_created (select (λ r. r.status == status) rows)) ≡ false
    → tally (λ r. r.status == status && of_type task_type r) rows ≡ 0
none_listed task_type status rows h = omega (
  arith,
  tally-any (of_type task_type) (sort_by_created (select (λ r. r.status == status) rows)) h,
  tally-sort_by_created (of_type task_type) (select (λ r. r.status == status) rows),
  tally-select (of_type task_type) (λ r. r.status == status) rows,
)

no_active :
    (list_fault : String → Bool) (rows : List JobRecord) (task_type : String)
    → list_fault queued ≡ false
    → list_fault running ≡ false
    → has_existing_refresh list_fault rows task_type ≡ false
    → tally (is_active task_type) rows ≡ 0
unfolding has_existing_refresh list_by_status
no_active list_fault rows task_type q r h = omega (
  arith,
  tally-active-le task_type rows,
  none_listed task_type queued rows (ground (arith, h, q, r)),
  none_listed task_type running rows (ground (arith, h, q, r)),
)

-- A created row is the only change.
pub tally-create-le :
    (fault : Bool) (rows : List JobRecord) (job : JobRecord) {new : List JobRecord}
    (p : JobRecord → Bool)
    → create fault rows job ≡ ok new
    → tally p new ≡ tally p rows + tally p (job ∷ [])
unfolding create
tally-create-le fault rows job p h = ground (arith, tally-append p rows (job ∷ []))

pub refresh_cases :
    (t : Tick) (rows : List JobRecord) (task_type : String)
    → ((maybe_create_refresh_job t rows task_type).0 ≡ rows)
      ⊎ ((create t.create_fault rows (refresh_job t task_type)
            ≡ ok (maybe_create_refresh_job t rows task_type).0)
          × (has_existing_refresh t.list_fault rows task_type ≡ false))
unfolding maybe_create_refresh_job
refresh_cases t rows task_type = elim (Bool-cases t.cancelled) [
  | inl e ↦ inl (ground arith)
  | inr live ↦ elim (Bool-cases (has_existing_refresh t.list_fault rows task_type)) [
    | inl e ↦ inl (ground arith)
    | inr new ↦ attempt live new (create t.create_fault rows (refresh_job t task_type)) refl
  ]
]
  where
    attempt :
        t.cancelled ≡ false
        → has_existing_refresh t.list_fault rows task_type ≡ false
        → (c : Result (List JobRecord)) → create t.create_fault rows (refresh_job t task_type) ≡ c
        → ((maybe_create_refresh_job t rows task_type).0 ≡ rows)
          ⊎ ((create t.create_fault rows (refresh_job t task_type)
                ≡ ok (maybe_create_refresh_job t rows task_type).0)
              × (has_existing_refresh t.list_fault rows task_type ≡ false))
    attempt live new (err e) c = inl (ground arith)
    attempt live new (ok rows') c = inr (ground arith, new)

-- While the database answers the two listings, a tick never makes a second active job of its type:
-- if at most one is queued or running before, at most one is after. Jobs of every other type stay
-- as many as they were.
maybe_create_refresh_job-no_pile :
    (t : Tick) (rows : List JobRecord) (task_type : String)
    → t.list_fault queued ≡ false
    → t.list_fault running ≡ false
    → tally (is_active task_type) rows ≤ 1
    → (tally (is_active task_type) (maybe_create_refresh_job t rows task_type).0 ≤ 1)
      × ((other : String)
          → other ≢ task_type
          → tally (is_active other) (maybe_create_refresh_job t rows task_type).0
            ≡ tally (is_active other) rows)
maybe_create_refresh_job-no_pile t rows task_type q r h = elim (refresh_cases t rows task_type) [
  | inl e ↦ rw e (h, λ other n. refl)
  | inr (c, e) ↦ (
    omega (
      arith,
      tally-create-le t.create_fault rows (refresh_job t task_type) (is_active task_type) c,
      no_active t.list_fault rows task_type q r e,
      tally_one task_type,
    ),
    λ other n. omega (
      arith,
      tally-create-le t.create_fault rows (refresh_job t task_type) (is_active other) c,
      tally_other other n,
    ),
  )
]
  where
    tally_one :
        (task_type : String) → tally (is_active task_type) (refresh_job t task_type ∷ []) ≤ 1
    tally_one task_type = ground arith

    tally_other :
        (other : String)
        → other ≢ task_type
        → tally (is_active other) (refresh_job t task_type ∷ []) ≡ 0
    tally_other other n = ground (arith, eq_iff task_type other)
