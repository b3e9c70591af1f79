-- ===== src/Examples/Batches.antt =====
-- A batch that starts two machines, and the routing of a single start.
use open_v_center_agent_hype.Base.{
  ℕ, zero, suc, ◌≡◌, ◌↔◌, true, false, none, List, [], ◌∷◌, ◌++◌, map, Text,
}
use open_v_center_agent_hype.Batch.{
  VmBatchTarget, World, Answer, prints, unparsable, validate, accepted, trimmed,
  handle_vm_batch_action, VmBatchStateOp,
}
use open_v_center_agent_hype.Batch.Validation.{IsValid, validate-iff-IsValid}
use open_v_center_agent_hype.Batch.Summary.{BatchEnds, handle_vm_batch_action-BatchEnds}
use open_v_center_agent_hype.Management.{VmManagementPayload}

-- 00000000-0000-0000-0000-00000000000x, with a blank after it.
abbrev four : Text
four = 48 ∷ 48 ∷ 48 ∷ 48 ∷ []

abbrev guid : ℕ → Text
guid x =
    four
    ++ four
    ++ 45 ∷ four
    ++ 45 ∷ four
    ++ 45 ∷ four
    ++ 45 ∷ four
    ++ four
    ++ 48 ∷ 48 ∷ 48 ∷ x ∷ 32 ∷ []

abbrev target : ℕ → VmBatchTarget
target x = record { vm_id = guid x; vm_name = 118 ∷ 109 ∷ x ∷ [] }

abbrev targets : List VmBatchTarget
targets = target 65 ∷ target 98 ∷ []

abbrev op : VmBatchStateOp
op = record {
  name = 118 ∷ 109 ∷ 65 ∷ [];
  previous_state = "Off";
  changed = true;
  op_error = "";
  mismatch = false;
}

-- The first machine starts, the second cannot be read.
abbrev answers : ℕ → Answer
answers zero = prints op
answers (suc n) = unparsable

abbrev world : World
world = record { answers = answers; fetched = λ n. none; interrupts = λ n. false }

validate-iff-IsValid_example :
    (validate 0 [] targets ≡ accepted (map trimmed targets))
    ↔ ((map trimmed targets ≡ map trimmed targets) × IsValid [] (map trimmed targets))
validate-iff-IsValid_example = validate-iff-IsValid targets (map trimmed targets)

handle_vm_batch_action-BatchEnds_example :
    BatchEnds world "vm_batch_start" targets (handle_vm_batch_action world "vm_batch_start" targets)
handle_vm_batch_action-BatchEnds_example =
    handle_vm_batch_action-BatchEnds world "vm_batch_start" targets

abbrev payload : VmManagementPayload
payload = record { action = "vm_start"; vm_id = "g-1"; vm_name = "" }
