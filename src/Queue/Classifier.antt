-- ===== src/Queue/Classifier.antt =====
-- classifier.go.
use open_v_center_agent_hype.Base.{
  String, Bool, true, false, List, [], ◌∷◌, ◌==◌, if◌then◌else◌, any,
}
use open_v_center_agent_hype.JobStore.{JobRecord}

pub data JobClass : Type 0 where
  read write host_write download : JobClass

abbrev pub is_write : JobClass → Bool
is_write write = true
is_write _ = false

abbrev pub is_host_write : JobClass → Bool
is_host_write host_write = true
is_host_write _ = false

abbrev pub is_read : JobClass → Bool
is_read read = true
is_read _ = false

-- The cases of a `switch` on a text.
abbrev pub among : List String → String → Bool
among names s = any (λ name. s == name) names

abbrev pub read_types : List String
read_types =
    "vm_inventory" ∷ "hardware_inventory" ∷ "vm_status" ∷ "template_inventory" ∷ "iso_inventory"
    ∷ "agent_status" ∷ []

abbrev pub read_actions : List String
read_actions = "refresh_hardware" ∷ "refresh_inventory" ∷ []

unfoldable pub classify_task : String → String → JobClass
classify_task task_type action =
    if among read_types task_type
    then read
    else if task_type == "host_management"
    then (if among read_actions action then read else host_write)
    else if task_type == "artifact_download"
    then download
    else write

unfoldable pub classify : JobRecord → JobClass
unfolding classify_task
classify job = classify_task job.task_type job.action
