-- ===== src/Service.antt =====
-- internal/service/windows.go: Execute, the handler of the Windows service. The agent runs beside it and
-- ends by an event; what ends the wait after a stop changes nothing.
pub mod Runs
use open_v_center_agent_hype.Base.{ℕ, String, Bool, true, false, Option, none, some, List, [], ◌∷◌}

pub data Status : Type 0 where
  start_pending running stop_pending : Status
  current : String → Status

-- What the loop selects: the end of the agent, with its error, or a request of the service manager.
pub data Event : Type 0 where
  agent_ends : Option String → Event
  interrogate : String → Event
  stop shutdown other_command : Event

pub data Effect : Type 0 where
  reports : Status → Effect
  starts_agent cancels_agent : Effect

-- The effects, in order, and what is returned: whether the exit code is the service's own, and the code.
-- `none` is a service that still runs.
pub record Executed : Type 0 where
  pub effects : List Effect
  pub returned : Option (Bool × ℕ)

abbrev pub after : Effect → Executed → Executed
after e r = record r { effects = e ∷ r.effects }

-- The loop. The context is cancelled again when the function returns.
unfoldable pub serve : List Event → Executed
serve [] = record { effects = []; returned = none }
serve (agent_ends none ∷ es) = record { effects = cancels_agent ∷ []; returned = some (false, 0) }
serve (agent_ends (some e) ∷ es) = record {
  effects = cancels_agent ∷ [];
  returned = some (true, 1);
}
serve (interrogate s ∷ es) = after (reports (current s)) (serve es)
serve (stop ∷ es) = record {
  effects = reports stop_pending ∷ cancels_agent ∷ cancels_agent ∷ [];
  returned = some (false, 0);
}
serve (shutdown ∷ es) = record {
  effects = reports stop_pending ∷ cancels_agent ∷ cancels_agent ∷ [];
  returned = some (false, 0);
}
serve (other_command ∷ es) = serve es

unfoldable pub execute : List Event → Executed
execute es = after (reports start_pending) (after starts_agent (after (reports running) (serve es)))
