-- ===== src/JobStore/Rows.antt =====
-- record.go, store.go and the single-row statements of sqlite.go.
use open_v_center_agent_hype.Base.{
  ℕ, String, Bool, Option, none, some, List, [], ◌∷◌, ◌++◌, ◌==◌, if◌then◌else◌, any,
}

abbrev pub queued : String
queued = "queued"

abbrev pub running : String
running = "running"

abbrev pub completed : String
completed = "completed"

abbrev pub failed : String
failed = "failed"

abbrev pub timeout : String
timeout = "timeout"

pub record JobRecord : Type 0 where
  pub job_id : String
  pub task_id : String
  pub task_type : String
  pub action : String
  pub vm_identifier : String
  pub payload : String
  pub status : String
  pub worker_pid : ℕ
  pub created_at : String
  pub started_at : Option String
  pub completed_at : Option String
  pub error_message : String

-- The `fields` map of UpdateStatus: a key that is absent is `none`.
pub record Fields : Type 0 where
  pub started_at : Option String
  pub completed_at : Option String
  pub worker_pid : Option ℕ
  pub error_message : Option String

abbrev pub no_fields : Fields
no_fields = record {
  started_at = none;
  completed_at = none;
  worker_pid = none;
  error_message = none;
}

pub data Error : Type 0 where
  id_required status_required unavailable : Error
  already_exists not_found : String → Error
  status_mismatch : String → String → Error

pub data Result {ℓ} (A : Type ℓ) : Type ℓ where
  ok : A → Result A
  err : Error → Result A

abbrev or_value {ℓ} : {A : Type ℓ} → Option A → A → A
or_value none a = a
or_value (some b) a = b

abbrev or_old {ℓ} : {A : Type ℓ} → Option A → Option A → Option A
or_old none a = a
or_old (some b) a = some b

unfoldable pub apply_fields : JobRecord → Fields → JobRecord
apply_fields r f = record r {
  started_at = or_old f.started_at r.started_at;
  completed_at = or_old f.completed_at r.completed_at;
  worker_pid = or_value f.worker_pid r.worker_pid;
  error_message = or_value f.error_message r.error_message;
}

abbrev pub has_id : String → JobRecord → Bool
has_id id r = r.job_id == id

-- SELECT … WHERE job_id = ?
unfoldable pub find : String → List JobRecord → Option JobRecord
find id [] = none
find id (r ∷ rows) = if has_id id r then some r else find id rows

-- UPDATE … WHERE job_id = ?
unfoldable pub rewrite : String → JobRecord → List JobRecord → List JobRecord
rewrite id new [] = []
rewrite id new (r ∷ rows) =
    let rest = rewrite id new rows in if has_id id r then new ∷ rest else r ∷ rest

-- The columns that the UPDATE statement sets; the others keep what the row had.
unfoldable pub set_columns : JobRecord → JobRecord → JobRecord
set_columns old new = record old {
  status = new.status;
  worker_pid = new.worker_pid;
  started_at = new.started_at;
  completed_at = new.completed_at;
  error_message = new.error_message;
}

-- Create: `job_id` is the table's primary key.
unfoldable pub create : Bool → List JobRecord → JobRecord → Result (List JobRecord)
create fault rows job =
    if job.job_id == ""
    then err id_required
    else if job.status == ""
    then err status_required
    else if fault
    then err unavailable
    else if any (has_id job.job_id) rows
    then err (already_exists job.job_id)
    else ok (rows ++ job ∷ [])

or_not_found : String → Option JobRecord → Result JobRecord
or_not_found id none = err (not_found id)
or_not_found id (some r) = ok r

unfoldable pub get_by_id : Bool → List JobRecord → String → Result JobRecord
unfolding or_not_found find
get_by_id fault rows id = if fault then err unavailable else or_not_found id (find id rows)

-- Compare and swap on the row that was read.
swap_status :
    List JobRecord → String → String → String → Fields → Option JobRecord → Result (List JobRecord)
swap_status rows id from to fields none = err (not_found id)
swap_status rows id from to fields (some r) =
    if r.status == from
    then ok (rewrite id (set_columns r (apply_fields (record r { status = to }) fields)) rows)
    else err (status_mismatch r.status from)

unfoldable pub update_status :
    Bool → List JobRecord → String → String → String → Fields → Result (List JobRecord)
unfolding swap_status apply_fields set_columns
update_status fault rows id from to fields =
    if fault then err unavailable else swap_status rows id from to fields (find id rows)
