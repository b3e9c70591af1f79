-- ===== src/JobStore/Swap.antt =====
-- sqlite.go: UpdateStatus on one row and beside the others.
use open_v_center_agent_hype.Base.{
  String, ◌≡◌, refl, ◌∙◌, Bool, false, some, List, [], ◌∷◌, arith, inl, inr, eq_iff, Option-cases,
  ◌≢◌,
}
use open_v_center_agent_hype.JobStore.Rows.{
  JobRecord, Fields, ok, err, status_mismatch, find, apply_fields, set_columns, rewrite,
  update_status,
}

pub find_id :
    (id : String) (rows : List JobRecord) {r : JobRecord} → find id rows ≡ some r → r.job_id ≡ id
unfolding find
find_id id [] h = cc
find_id id (s ∷ rows) {r} h = ground (arith, eq_iff s.job_id id, find_id id rows {r = r})

pub find-rewrite :
    (id : String) (new : JobRecord) (rows : List JobRecord) {r : JobRecord}
    → new.job_id ≡ id
    → find id rows ≡ some r
    → find id (rewrite id new rows) ≡ some new
unfolding find rewrite
find-rewrite id new [] e h = cc
find-rewrite id new (s ∷ rows) {r} e h =
    ground (arith, eq_iff s.job_id id, eq_iff new.job_id id, find-rewrite id new rows {r = r} e)

pub find-rewrite_ne :
    (id j : String) (new : JobRecord) (rows : List JobRecord)
    → new.job_id ≡ id
    → j ≢ id
    → find j (rewrite id new rows) ≡ find j rows
unfolding find rewrite
find-rewrite_ne id j new [] e n = refl
find-rewrite_ne id j new (s ∷ rows) e n = ground (
  arith,
  eq_iff s.job_id id,
  eq_iff s.job_id j,
  eq_iff new.job_id j,
  find-rewrite_ne id j new rows e n,
)

-- The row that a swap writes.
unfoldable pub swapped : JobRecord → String → Fields → JobRecord
unfolding set_columns apply_fields
swapped r to fields = set_columns r (apply_fields (record r { status = to }) fields)

pub update_status_cases :
    (fault : Bool) (rows : List JobRecord) (id from to : String) (fields : Fields)
    {new : List JobRecord}
    → update_status fault rows id from to fields ≡ ok new
    → (r : JobRecord) × (find id rows ≡ some r)
      × (r.status ≡ from)
      × (new ≡ rewrite id (swapped r to fields) rows)
unfolding update_status swapped
update_status_cases fault rows id from to fields h = elim (Option-cases (find id rows)) [
  | inl e ↦ absurd (ground arith)
  | inr (r, e) ↦ (r, e, ground (arith, eq_iff r.status from), ground arith)
]

-- A status update that succeeds found the job in the expected status, gives it the new one, and
-- leaves every other job as it was.
pub update_status-swaps :
    (fault : Bool) (rows : List JobRecord) (id from to : String) (fields : Fields)
    {new : List JobRecord}
    → update_status fault rows id from to fields ≡ ok new
    → (r : JobRecord) × (find id rows ≡ some r)
      × (r.status ≡ from)
      × (find id new ≡ some (swapped r to fields))
      × ((j : String) → j ≢ id → find j new ≡ find j rows)
update_status-swaps fault rows id from to fields h =
    let (r, found, was, e) = update_status_cases fault rows id from to fields h in
    (
      r,
      found,
      was,
      rw e (
          find-rewrite id (swapped r to fields) rows
            (job_id-swapped r to fields ∙ find_id id rows found) found),
      λ j n. rw e (
          find-rewrite_ne id j (swapped r to fields) rows
            (job_id-swapped r to fields ∙ find_id id rows found) n),
    )
  where
    job_id-swapped :
        (r : JobRecord) (to : String) (fields : Fields) → (swapped r to fields).job_id ≡ r.job_id
    job_id-swapped r to fields = unfold swapped in refl

-- An update of a job in another status is refused with the status that the job has.
pub update_status_mismatch :
    (rows : List JobRecord) (id from to : String) (fields : Fields) {r : JobRecord}
    → find id rows ≡ some r
    → r.status ≢ from
    → update_status false rows id from to fields ≡ err (status_mismatch r.status from)
unfolding update_status
update_status_mismatch rows id from to fields {r} e n = ground (arith, eq_iff r.status from)

-- Of two updates from the same status, of which the first changes it, the one that comes second
-- fails and reports the status that the first one set, whatever its target and fields, where the
-- database does not refuse it.
update_status_once :
    (fault : Bool) (rows : List JobRecord) (id from to to' : String) (fields fields' : Fields)
    {new : List JobRecord}
    → update_status fault rows id from to fields ≡ ok new
    → to ≢ from
    → update_status false new id from to' fields' ≡ err (status_mismatch to from)
update_status_once fault rows id from to to' fields fields' {new} h n =
    let (r, _, _, now, _) = update_status-swaps fault rows id from to fields h in
    unfold swapped in update_status_mismatch new id from to' fields' now n

-- A job in the expected status is updated.
pub update_status_found :
    (rows : List JobRecord) (id from to : String) (fields : Fields) {r : JobRecord}
    → find id rows ≡ some r
    → r.status ≡ from
    → update_status false rows id from to fields ≡ ok (rewrite id (swapped r to fields) rows)
unfolding update_status swapped
update_status_found rows id from to fields {r} e was = ground (arith, eq_iff r.status from)
