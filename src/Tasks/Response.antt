-- ===== src/Tasks/Response.antt =====
-- TaskResponse of dispatcher.go, its wire form, and the status vocabularies of dispatcher.go and
-- internal/protocol. `R` is the type of the results that the handlers return; an empty text stands
-- for an absent one, as in the source. Fields that reach no decision (host id, timestamp, vm_status
-- and template objects) are left out.
use open_v_center_agent_hype.Base.{
  ℕ, String, Option, none, some, List, [], ◌∷◌, ◌==◌, if◌then◌else◌,
}
use open_v_center_agent_hype.Queue.Classifier.{among}

pub record Progress : Type 0 where
  pub percent : ℕ
  pub message : String

pub record TaskResponse (R : Type 0) : Type 0 where
  pub task_id : String
  pub task_type : String
  pub function : String
  pub status : String
  pub result : Option R
  pub progress : Option Progress
  pub error : Option String
  pub vm_id : String
  pub vm_state : String
  pub finished_at : String
  pub internal_status : String

-- The object that MarshalJSON writes.
pub record Wire (R : Type 0) : Type 0 where
  pub id : String
  pub function : String
  pub status : String
  pub progress : Option ℕ
  pub progress_message : String
  pub result : Option R
  pub error : Option String
  pub vm_id : Option String
  pub vm_state : Option String
  pub finished_at : Option String

abbrev pub succeeded_words : List String
succeeded_words = "completed" ∷ "succeeded" ∷ "success" ∷ "ok" ∷ []

abbrev pub failed_words : List String
failed_words = "failed" ∷ "error" ∷ []

abbrev pub running_words : List String
running_words = "in_progress" ∷ "running" ∷ "pending" ∷ "queued" ∷ []

-- protocol.NormalizeStatus.
unfoldable pub protocol_normalize_status : String → String
protocol_normalize_status s =
    if among succeeded_words s
    then "succeeded"
    else if among failed_words s
    then "failed"
    else if among running_words s
    then "running"
    else s

-- normalizeStatus of dispatcher.go, which takes the empty text for running.
unfoldable pub normalize_status : String → String
normalize_status s =
    if among succeeded_words s
    then "succeeded"
    else if among failed_words s
    then "failed"
    else if among ("in_progress" ∷ "running" ∷ "pending" ∷ "queued" ∷ "" ∷ []) s
    then "running"
    else s

abbrev or_null : String → Option String
or_null s = if s == "" then none else some s

percent_of : Option Progress → Option ℕ
percent_of none = none
percent_of (some p) = some p.percent

message_of : Option Progress → String
message_of none = ""
message_of (some p) = p.message

module _ {R : Type 0} where
  unfoldable pub terminal_status : TaskResponse R → String
  terminal_status r = if r.internal_status == "" then r.status else r.internal_status

  -- MarshalJSON, up to the text of the object.
  unfoldable pub to_wire : TaskResponse R → Wire R
  unfolding percent_of message_of
  to_wire r = record {
    id = r.task_id;
    function = if r.function == "" then r.task_type else r.function;
    status = normalize_status r.status;
    progress = percent_of r.progress;
    progress_message = message_of r.progress;
    result = r.result;
    error = r.error;
    vm_id = or_null r.vm_id;
    vm_state = or_null r.vm_state;
    finished_at = or_null r.finished_at;
  }
