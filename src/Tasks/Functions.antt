-- ===== src/Tasks/Functions.antt =====
-- functions.go, and the task types of dispatcher.go.
use open_v_center_agent_hype.Base.{String, not, List, [], ◌∷◌, ◌==◌, if◌then◌else◌}
use open_v_center_agent_hype.Queue.Classifier.{among}

abbrev pub vm_management : String
vm_management = "vm_management"

abbrev pub host_management : String
host_management = "host_management"

-- TaskAgentUpgrade.
abbrev pub artifact_download : String
artifact_download = "artifact_download"

abbrev pub hardware_inventory : String
hardware_inventory = "hardware_inventory"

abbrev pub vm_management_actions : List String
vm_management_actions =
    "vm_start" ∷ "vm_stop" ∷ "vm_shutdown" ∷ "vm_restart" ∷ "vm_pause" ∷ "vm_resume" ∷ "vm_delete"
    ∷ "vm_migrate" ∷ "snapshot_create" ∷ "snapshot_remove" ∷ "snapshot_restore" ∷ "mount_dvd"
    ∷ "eject_dvd" ∷ "enable_ha" ∷ "disable_ha" ∷ "vm_rename" ∷ "vm_move" ∷ "vm_export_template"
    ∷ "notes_edit" ∷ "refresh_status" ∷ "vm_startup_change" ∷ "vm_batch_start" ∷ "vm_batch_stop"
    ∷ "vm_enable_metrics" ∷ "vm_disable_metrics" ∷ []

abbrev pub host_management_actions : List String
host_management_actions =
    "host_restart_agent" ∷ "suspend" ∷ "suspend_drain" ∷ "resume" ∷ "resume_fallback" ∷ "restart"
    ∷ "refresh_hardware" ∷ "refresh_inventory" ∷ []

-- The wire functions that name their task type.
abbrev pub own_types : List String
own_types =
    "vm_create" ∷ "vm_edit" ∷ "vm_clone" ∷ "vm_inventory" ∷ "vm_status" ∷ "agent_status"
    ∷ "template_inventory" ∷ "iso_inventory" ∷ "host_metrics" ∷ "vm_metrics" ∷ []

-- The task type and the action. The last two branches of the `switch`, the functions that name
-- their own type and the default, return the same pair.
unfoldable pub resolve_function : String → String × String
resolve_function fn =
    if among vm_management_actions fn
    then (vm_management, fn)
    else if among host_management_actions fn
    then (host_management, fn)
    else if fn == "host_update_agent"
    then (artifact_download, fn)
    else if fn == "host_hwinventory"
    then (hardware_inventory, "")
    else if among own_types fn
    then (fn, "")
    else (fn, "")

unfoldable pub wire_function : String → String → String
wire_function task_type action =
    if not (action == "")
    then action
    else if task_type == hardware_inventory
    then "host_hwinventory"
    else task_type
