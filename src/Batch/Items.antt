-- ===== src/Batch/Items.antt =====
-- vm_management.go: the result of one machine of a batch, over every answer of PowerShell.
use open_v_center_agent_hype.Base.{
  ◌≡◌, ◌↔◌, refl, String, Bool, true, false, not, ◌&&◌, ◌==◌, Option, none, some, arith, eq_iff,
  if_elim, if◌then◌else◌, ◌≢◌, ◌⊎◌, inl, inr, Bool-cases,
}
use open_v_center_agent_hype.Batch.{
  VmBatchTarget, VmBatchItemResult, Answer, script_fails, unparsable, prints,
  batch_item_from_state_op, process_vm_batch_vm,
}

-- The script ran, on the machine of that name, and its command did not fail.
abbrev pub Succeeds : Answer → Type 0
Succeeds (prints op) = (op.mismatch ≡ false) × (op.op_error ≡ "")
Succeeds script_fails = ⊥
Succeeds unparsable = ⊥

abbrev pub changes : Answer → Bool
changes (prints op) = not op.mismatch && op.op_error == "" && op.changed
changes script_fails = false
changes unparsable = false

abbrev pub desired : String → String
desired batch_action = if batch_action == "vm_batch_stop" then "Off" else "Running"

-- The state after a machine was started or stopped: the fetched one, or the desired one.
abbrev pub state_or : Option String → String → String
state_or none s = s
state_or (some t) s = t

pub record IsHonest (batch_action : String) (answer : Answer) (fetched : Option String)
    (target : VmBatchTarget) (item : VmBatchItemResult) : Type 0 where
  pub same_id : item.vm_id ≡ target.vm_id
  pub ok_iff : (item.status ≡ "ok") ↔ Succeeds answer
  pub error_iff : (item.error ≡ "") ↔ (item.status ≡ "ok")
  pub changed_is : item.changed ≡ changes answer
  pub final_state : (item.changed ≡ false) ⊎ (item.state ≡ state_or fetched (desired batch_action))

failed_not_ok : ◌≢◌ {A = String} "failed" "ok"
failed_not_ok e = ground (arith, eq_iff "failed" "ok", e)

no_state : ◌≢◌ {A = String} "failed to get current state" ""
no_state e = ground (arith, eq_iff "failed to get current state" "", e)

no_start : ◌≢◌ {A = String} "failed to start or stop VM" ""
no_start e = ground (arith, eq_iff "failed to start or stop VM" "", e)

no_match : ◌≢◌ {A = String} "VM name mismatch" ""
no_match e = ground (arith, eq_iff "VM name mismatch" "", e)

desired_given : (action : String) → (desired action == "") ≡ false
desired_given action =
    if_elim (λ s. (s == "") ≡ false) (action == "vm_batch_stop") (λ e. refl) (λ e. refl)

-- The result of a machine names the machine's id. It is ok exactly when the script ran, on a machine of
-- the target's name, and its command did not fail; it has an error exactly when it is not ok; it is
-- changed exactly when the command succeeded on a machine in another state, and its state is then the
-- fetched one, or the desired one if none could be fetched.
process_vm_batch_vm-IsHonest :
    (batch_action : String) (answer : Answer) (fetched : Option String) (target : VmBatchTarget)
    → IsHonest batch_action answer fetched target
        (process_vm_batch_vm batch_action answer fetched target).0
unfolding process_vm_batch_vm batch_item_from_state_op
process_vm_batch_vm-IsHonest action script_fails fetched target =
    ground (arith, failed_not_ok, no_state)
process_vm_batch_vm-IsHonest action unparsable fetched target =
    ground (arith, failed_not_ok, no_state)
process_vm_batch_vm-IsHonest action (prints op) fetched target =
    printed fetched (Bool-cases (action == "vm_batch_stop")) (Bool-cases op.mismatch)
  where
    printed :
        (fetched : Option String)
        → ((action == "vm_batch_stop") ≡ true) ⊎ ((action == "vm_batch_stop") ≡ false)
        → (op.mismatch ≡ true) ⊎ (op.mismatch ≡ false)
        → IsHonest action
            (prints op)
            fetched
            target
            (process_vm_batch_vm action (prints op) fetched target).0
    printed none a (inl m) = ground (arith, failed_not_ok, no_match)
    printed (some s) a (inl m) = ground (arith, failed_not_ok, no_match)
    printed none a (inr m) =
        ground (arith, failed_not_ok, no_start, desired_given action, eq_iff op.op_error "")
    printed (some s) a (inr m) = ground (arith, failed_not_ok, no_start, eq_iff op.op_error "")
