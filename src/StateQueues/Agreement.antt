-- ===== src/StateQueues/Agreement.antt =====
-- state_payload.go, main.go, worker.go and scheduler.go: the queues they name.
use open_v_center_agent_hype.Base.{
  String, ◌≡◌, ◌==◌, refl, Bool, true, false, Option, none, some, List, [], ◌∷◌, All, if_elim,
  if◌then◌else◌,
}
use open_v_center_agent_hype.Queue.Scheduler.{SchedulerConfig, RefreshSpec, build_specs}
use open_v_center_agent_hype.StateQueues.{
  Payload, QueueArgs, state_payload, declare_state_queue, agent_declares, only_if,
}

abbrev pub args_of : String → List (String × QueueArgs) → Option QueueArgs
args_of kind [] = none
args_of kind ((k, args) ∷ rest) = if kind == k then some args else args_of kind rest

-- The queue was declared at the start, as the worker declares it.
abbrev pub IsDeclared : Option (String × Payload) → Type 0
IsDeclared none = Unit
IsDeclared (some (kind, payload)) = args_of kind agent_declares ≡ some (declare_state_queue kind)

-- The task type has a queue, with its own result.
abbrev pub HasQueue : RefreshSpec → Type 0
HasQueue s =
    (kind : String) × (payload : Payload) × (state_payload s.task_type true ≡ some (kind, payload))

only_if-IsDeclared :
    (b : Bool) (kind : String)
    → args_of kind agent_declares ≡ some (declare_state_queue kind)
    → IsDeclared (only_if b kind)
only_if-IsDeclared true kind h = h
only_if-IsDeclared false kind h = tt

state_payload-IsDeclared : (task_type : String) (b : Bool) → IsDeclared (state_payload task_type b)
unfolding state_payload declare_state_queue
state_payload-IsDeclared t b =
    if_elim IsDeclared (t == "agent_status") (λ _. only_if-IsDeclared b "agent_status" refl)
      λ _.
        if_elim IsDeclared (t == "vm_inventory") (λ _. refl)
          λ _.
            if_elim IsDeclared (t == "hardware_inventory") (λ _. refl)
              λ _.
                if_elim IsDeclared (t == "template_inventory") (λ _. refl)
                  λ _.
                    if_elim IsDeclared (t == "iso_inventory") (λ _. refl)
                      λ _.
                        if_elim IsDeclared (t == "host_metrics")
                          (λ _. only_if-IsDeclared b "host_metrics" refl)
                          λ _. if_elim IsDeclared (t == "vm_metrics") (λ _. refl) (λ _. tt)

build_specs-HasQueue : (c : SchedulerConfig) → All HasQueue (build_specs c)
unfolding build_specs state_payload
build_specs-HasQueue c = (
  (_, _, refl),
  (
    (_, _, refl),
    ((_, _, refl), ((_, _, refl), ((_, _, refl), ((_, _, refl), ((_, _, refl), tt))))),
  ),
)

-- A result that a worker publishes for a task type goes to a queue that the agent declared at its start
-- with the arguments that the worker declares it with, and each type that the scheduler refreshes has
-- such a queue.
pub queues-agree :
    (task_type : String) (has_type : Bool) (c : SchedulerConfig)
    → IsDeclared (state_payload task_type has_type) × All HasQueue (build_specs c)
queues-agree task_type has_type c =
    (state_payload-IsDeclared task_type has_type, build_specs-HasQueue c)
