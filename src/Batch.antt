-- ===== src/Batch.antt =====
-- internal/tasks/vm_management.go: the batches vm_batch_start and vm_batch_stop. Ids and names are
-- lists of code points. PowerShell, the status query and the clock answer through `World`, by the
-- machine's place; texts of errors and messages keep their constant part. The parameters are decoded.
pub mod Validation
pub mod Summary
pub mod Items
use open_v_center_agent_hype.Base.{
  ℕ, zero, suc, ◌+◌, ◌-◌, ◌*◌, ◌/◌, String, Bool, true, false, not, ◌&&◌, ◌||◌, ◌==◌, Option, none,
  some, List, [], ◌∷◌, ◌++◌, map, ltb, leb, nat_eq, any, length, if◌then◌else◌, Text, blank,
  trim_space, text_eq, to_lower,
}

pub record VmBatchTarget : Type 0 where
  pub vm_id : Text
  pub vm_name : Text

abbrev pub is_hex : ℕ → Bool
is_hex c = (leb 48 c && leb c 57) || (leb 97 c && leb c 102) || (leb 65 c && leb c 70)

abbrev dash_at : ℕ → Bool
dash_at i = nat_eq i 8 || nat_eq i 13 || nat_eq i 18 || nat_eq i 23

abbrev guid_from : ℕ → Text → Bool
guid_from i [] = true
guid_from i (c ∷ cs) = (if dash_at i then nat_eq c 45 else is_hex c) && guid_from (suc i) cs

unfoldable pub is_canonical_guid : Text → Bool
is_canonical_guid value = nat_eq (length value) 36 && guid_from 0 value

pub data Refused : Type 0 where
  no_machines : Refused
  id_required not_canonical name_required duplicated : ℕ → Refused

pub data Checked : Type 0 where
  refused : Refused → Checked
  accepted : List VmBatchTarget → Checked

abbrev pub trimmed : VmBatchTarget → VmBatchTarget
trimmed t = record { vm_id = trim_space t.vm_id; vm_name = trim_space t.vm_name }

abbrev pub add_target : VmBatchTarget → Checked → Checked
add_target t (refused e) = refused e
add_target t (accepted ts) = accepted (t ∷ ts)

-- The loop over the machines; `seen` are the lower-case ids before them.
unfoldable pub validate : ℕ → List Text → List VmBatchTarget → Checked
validate i seen [] = accepted []
validate i seen (t ∷ ts) =
    let id = trim_space t.vm_id in
    let rest = validate (suc i) (to_lower id ∷ seen) ts in
    if blank id
    then refused (id_required i)
    else if not (is_canonical_guid id)
    then refused (not_canonical i)
    else if blank (trim_space t.vm_name)
    then refused (name_required i)
    else if any (text_eq (to_lower id)) seen
    then refused (duplicated i)
    else add_target (trimmed t) rest

pub record VmBatchItemResult : Type 0 where
  pub vm_id : Text
  pub vm_name : Text
  pub action : String
  pub status : String
  pub previous_state : String
  pub state : String
  pub changed : Bool
  pub error : String

-- What the combined script prints.
pub record VmBatchStateOp : Type 0 where
  pub name : Text
  pub previous_state : String
  pub changed : Bool
  pub op_error : String
  pub mismatch : Bool

pub data Answer : Type 0 where
  script_fails unparsable : Answer
  prints : VmBatchStateOp → Answer

pub record BatchStatusFollowup : Type 0 where
  pub fetch : Bool
  pub apply_state : Bool
  pub default_state : String

unfoldable pub batch_item_from_state_op :
    VmBatchTarget → String → String → VmBatchStateOp → VmBatchItemResult × BatchStatusFollowup
batch_item_from_state_op target item_action desired_state combined =
    let item : VmBatchItemResult = record {
      vm_id = target.vm_id;
      vm_name = target.vm_name;
      action = item_action;
      status = "failed";
      previous_state = combined.previous_state;
      state = combined.previous_state;
      changed = false;
      error = "";
    } in
    let found : VmBatchItemResult = record item { vm_name = combined.name } in
    if combined.mismatch
    then (
      record item { error = "VM name mismatch" },
      record { fetch = false; apply_state = false; default_state = "" },
    )
    else if not (combined.op_error == "")
    then (
      record found { error = "failed to start or stop VM" },
      record { fetch = true; apply_state = true; default_state = "" },
    )
    else if not combined.changed
    then (
      record found { status = "ok" },
      record { fetch = true; apply_state = false; default_state = "" },
    )
    else (
      record found { status = "ok"; changed = true },
      record { fetch = true; apply_state = true; default_state = desired_state },
    )

-- The state of the fetched status, over the item.
abbrev pub reconcile : BatchStatusFollowup → Option String → VmBatchItemResult → VmBatchItemResult
reconcile f (some state) item = if f.apply_state then record item { state = state } else item
reconcile f none item =
    if f.apply_state && not (f.default_state == "")
    then record item { state = f.default_state }
    else item

abbrev pub state_unknown : VmBatchTarget → String → VmBatchItemResult
state_unknown target item_action = record {
  vm_id = target.vm_id;
  vm_name = target.vm_name;
  action = item_action;
  status = "failed";
  previous_state = "";
  state = "Unknown";
  changed = false;
  error = "failed to get current state";
}

-- The item, and the state that the progress report carries.
unfoldable pub process_vm_batch_vm :
    String → Answer → Option String → VmBatchTarget → VmBatchItemResult × Option String
process_vm_batch_vm batch_action script_fails fetched target =
    (state_unknown target (if batch_action == "vm_batch_stop" then "vm_stop" else "vm_start"), none)
process_vm_batch_vm batch_action unparsable fetched target =
    (state_unknown target (if batch_action == "vm_batch_stop" then "vm_stop" else "vm_start"), none)
process_vm_batch_vm batch_action (prints combined) fetched target =
    let r =
      if batch_action == "vm_batch_stop"
      then batch_item_from_state_op target "vm_stop" "Off" combined
      else batch_item_from_state_op target "vm_start" "Running" combined in
    if r.1.fetch then (reconcile r.1 fetched r.0, fetched) else (r.0, none)

unfoldable pub derive_vm_batch_status : ℕ → ℕ → String
derive_vm_batch_status succeeded zero = "completed"
derive_vm_batch_status zero (suc failed) = "failed"
derive_vm_batch_status (suc succeeded) (suc failed) = "partial"

pub record VmBatchResult : Type 0 where
  pub action : String
  pub status : String
  pub total : ℕ
  pub succeeded : ℕ
  pub failed : ℕ
  pub vms : List VmBatchItemResult

-- A progress report of the batch, after a machine; the one of 0 percent before them is left out.
pub record Report : Type 0 where
  pub percent : ℕ
  pub message : String
  pub item : VmBatchItemResult
  pub vm_state : Option String

abbrev pub message_of : VmBatchItemResult → String
message_of item =
    if not (item.error == "")
    then "VM failed"
    else if not item.changed
    then "VM was already in the state"
    else "VM processed successfully"

-- What the machines answer, and whether the context ends in the delay after one.
pub record World : Type 0 where
  pub answers : ℕ → Answer
  pub fetched : ℕ → Option String
  pub interrupts : ℕ → Bool

pub data Batch : Type 0 where
  refuses : Refused → Batch
  interrupted : ℕ → List Report → Batch
  finishes : VmBatchResult → List Report → Batch

abbrev pub with_report : Report → Batch → Batch
with_report r (refuses e) = refuses e
with_report r (interrupted n rs) = interrupted n (r ∷ rs)
with_report r (finishes result rs) = finishes result (r ∷ rs)

module _ (w : World) where
  abbrev pub process_at : String → ℕ → VmBatchTarget → VmBatchItemResult × Option String
  process_at action i t = process_vm_batch_vm action (w.answers i) (w.fetched i) t

  abbrev pub counted : VmBatchItemResult → VmBatchResult → VmBatchResult
  counted item result =
      if item.status == "ok"
      then record result { vms = result.vms ++ item ∷ []; succeeded = suc result.succeeded }
      else record result { vms = result.vms ++ item ∷ []; failed = suc result.failed }

  abbrev pub is_last : List VmBatchTarget → Bool
  is_last [] = true
  is_last (t ∷ ts) = false

  unfoldable pub batch_loop : ℕ → VmBatchResult → List VmBatchTarget → Batch
  batch_loop i result [] =
      finishes (record result { status = derive_vm_batch_status result.succeeded result.failed }) []
  batch_loop i result (t ∷ ts) =
      let done = process_at result.action i t in
      let rest = batch_loop (suc i) (counted done.0 result) ts in
      with_report
        (record {
          percent = suc i * 100 / result.total;
          message = message_of done.0;
          item = done.0;
          vm_state = done.1;
        })
        (if not (is_last ts) && w.interrupts i then interrupted (suc i) [] else rest)

  abbrev pub run_checked : String → Checked → Batch
  run_checked action (refused e) = refuses e
  run_checked action (accepted ts) =
      batch_loop 0
        (record {
          action = action;
          status = "";
          total = length ts;
          succeeded = 0;
          failed = 0;
          vms = [];
        })
        ts

  unfoldable pub handle_vm_batch_action : String → List VmBatchTarget → Batch
  handle_vm_batch_action action [] = refuses no_machines
  handle_vm_batch_action action (t ∷ ts) = run_checked action (validate 0 [] (t ∷ ts))

-- mapVMMoveProgress and mapVMExportProgress, of a job's percentage.
unfoldable pub map_vm_move_progress : ℕ → ℕ
map_vm_move_progress job_percent = 5 + job_percent * 90 / 100

unfoldable pub map_vm_export_progress : ℕ → ℕ
map_vm_export_progress job_percent = 20 + job_percent * 65 / 100
