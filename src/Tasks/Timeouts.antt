-- ===== src/Tasks/Timeouts.antt =====
-- The time that Dispatch grants a handler, beside the time after which the monitor kills the
-- worker. Seconds.
use open_v_center_agent_hype.Base.{
  ℕ, ◌≤◌, String, ◌||◌, List, [], ◌∷◌, ◌==◌, eq_iff, if◌then◌else◌, if_elim, ltb, arith, text_cases,
  inl, inr,
}
use open_v_center_agent_hype.Queue.Classifier.{among}
use open_v_center_agent_hype.Queue.Monitor.{get_timeout_for_task}
use open_v_center_agent_hype.Tasks.Functions.{
  resolve_function, vm_management, host_management, artifact_download, hardware_inventory,
  vm_management_actions, host_management_actions, own_types,
}

abbrev pub long_actions : List String
long_actions =
    "vm_batch_start" ∷ "vm_batch_stop" ∷ "vm_move" ∷ "vm_rename" ∷ "vm_export_template" ∷ []

abbrev at_least : ℕ → ℕ → ℕ
at_least least t = if ltb t least then least else t

unfoldable pub management_timeout : ℕ → String → ℕ
management_timeout t action =
    if among long_actions action
    then at_least 1800 t
    else if action == "vm_shutdown"
    then at_least 540 t
    else t

-- `taskTimeout` of Dispatch.
unfoldable pub dispatch_timeout : ℕ → String → String → ℕ
unfolding management_timeout
dispatch_timeout t task_type action =
    let t' = if task_type == vm_management then management_timeout t action else t in
    if task_type == "vm_edit" || task_type == "vm_create" then at_least 1800 t' else t'

-- The time that the handler itself has: an inventory of the machines has its own.
unfoldable pub handler_timeout : ℕ → String → String → ℕ
unfolding dispatch_timeout
handler_timeout t task_type action =
    if task_type == "vm_inventory" then 600 else dispatch_timeout t task_type action

action_margin :
    (t : ℕ) (action : String)
    → t ≤ 300
    → handler_timeout t vm_management action ≤ get_timeout_for_task t vm_management action
unfolding handler_timeout get_timeout_for_task
action_margin t action h = elim (text_cases action "") [
  | inl e ↦ rw e (omega arith)
  | inr n ↦ ground (arith, n)
]

host_margin :
    (t : ℕ) (action : String)
    → t ≤ 300
    → handler_timeout t host_management action ≤ get_timeout_for_task t host_management action
unfolding handler_timeout get_timeout_for_task
host_margin t action h = ground arith

type_margin :
    (t : ℕ) (task_type : String)
    → t ≤ 300
    → handler_timeout t task_type "" ≤ get_timeout_for_task t task_type ""
unfolding handler_timeout get_timeout_for_task
type_margin t task_type h = ground arith

upgrade_margin :
    (t : ℕ)
    → t ≤ 300
    → handler_timeout t artifact_download "host_update_agent"
      ≤ get_timeout_for_task t artifact_download "host_update_agent"
unfolding handler_timeout get_timeout_for_task
upgrade_margin t h = ground arith

abbrev Margin : ℕ → String × String → Type 0
Margin t r = handler_timeout t r.0 r.1 ≤ get_timeout_for_task t r.0 r.1

-- With a configured task timeout of five minutes or less, the deadline that a handler is given is
-- never later than the time at which the monitor kills its worker, for every wire function.
handler_timeout-le-kill :
    (t : ℕ) (fn : String)
    → t ≤ 300
    → handler_timeout t (resolve_function fn).0 (resolve_function fn).1
      ≤ get_timeout_for_task t (resolve_function fn).0 (resolve_function fn).1
unfolding resolve_function
handler_timeout-le-kill t fn h =
    if_elim (Margin t) (among vm_management_actions fn) (λ _. action_margin t fn h)
      λ _.
        if_elim (Margin t) (among host_management_actions fn) (λ _. host_margin t fn h)
          λ _.
            if_elim (Margin t) (fn == "host_update_agent")
              (λ e. rw ((eq_iff fn "host_update_agent").0 e) (upgrade_margin t h))
              λ _.
                if_elim (Margin t) (fn == "host_hwinventory")
                  (λ _. type_margin t hardware_inventory h)
                  λ _.
                    if_elim (Margin t) (among own_types fn) (λ _. type_margin t fn h)
                      λ _. type_margin t fn h
