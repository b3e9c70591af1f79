-- ===== src/Service/Runs.antt =====
-- windows.go: how a run of the service ends.
use open_v_center_agent_hype.Base.{true, false, String, none, some, List, [], ◌∷◌, ◌++◌}
use open_v_center_agent_hype.Service.{
  start_pending, running, stop_pending, current, Event, agent_ends, interrogate, stop, shutdown,
  other_command, Effect, reports, starts_agent, cancels_agent, Executed, after, serve, execute,
}

-- Requests that do not end the service: each is answered by these reports.
pub data IsQuiet : List Event → List Effect → Type 0 where
  at_first : IsQuiet [] []
  asks :
      {es : List Event} {rs : List Effect} (s : String)
      → IsQuiet es rs
      → IsQuiet (interrogate s ∷ es) (reports (current s) ∷ rs)
  sends : {es : List Event} {rs : List Effect} → IsQuiet es rs → IsQuiet (other_command ∷ es) rs

-- An event that stops the service.
pub data IsStop : Event → Type 0 where
  by_stop : IsStop stop
  by_shutdown : IsStop shutdown

-- The run after the reports `before`: it goes on, its agent ended first, or it was stopped first.
pub data Ends (before : List Effect) : List Event → Executed → Type 0 where
  goes_on :
      {es : List Event} {rs : List Effect}
      → IsQuiet es rs
      → Ends before es (record { effects = before ++ rs; returned = none })
  agent_done :
      {es : List Event} {rs : List Effect} (rest : List Event)
      → IsQuiet es rs
      → Ends before
          (es ++ agent_ends none ∷ rest)
          (record { effects = before ++ rs ++ cancels_agent ∷ []; returned = some (false, 0) })
  agent_failed :
      {es : List Event} {rs : List Effect} (e : String) (rest : List Event)
      → IsQuiet es rs
      → Ends before
          (es ++ agent_ends (some e) ∷ rest)
          (record { effects = before ++ rs ++ cancels_agent ∷ []; returned = some (true, 1) })
  stopped :
      {es : List Event} {rs : List Effect} {ev : Event} (rest : List Event)
      → IsQuiet es rs
      → IsStop ev
      → Ends before (es ++ ev ∷ rest) (record {
        effects = before ++ rs ++ reports stop_pending ∷ cancels_agent ∷ cancels_agent ∷ [];
        returned = some (false, 0);
      })

ask-Ends :
    (s : String) {es : List Event} {r : Executed}
    → Ends [] es r
    → Ends [] (interrogate s ∷ es) (after (reports (current s)) r)
ask-Ends s (goes_on q) = goes_on (asks s q)
ask-Ends s (agent_done rest q) = agent_done rest (asks s q)
ask-Ends s (agent_failed e rest q) = agent_failed e rest (asks s q)
ask-Ends s (stopped rest q i) = stopped rest (asks s q) i

send-Ends : {es : List Event} {r : Executed} → Ends [] es r → Ends [] (other_command ∷ es) r
send-Ends (goes_on q) = goes_on (sends q)
send-Ends (agent_done rest q) = agent_done rest (sends q)
send-Ends (agent_failed e rest q) = agent_failed e rest (sends q)
send-Ends (stopped rest q i) = stopped rest (sends q) i

serve-Ends : (es : List Event) → Ends [] es (serve es)
unfolding serve
serve-Ends [] = goes_on at_first
serve-Ends (agent_ends none ∷ es) = agent_done es at_first
serve-Ends (agent_ends (some e) ∷ es) = agent_failed e es at_first
serve-Ends (interrogate s ∷ es) = ask-Ends s (serve-Ends es)
serve-Ends (stop ∷ es) = stopped es at_first by_stop
serve-Ends (shutdown ∷ es) = stopped es at_first by_shutdown
serve-Ends (other_command ∷ es) = send-Ends (serve-Ends es)

-- What every run begins with.
abbrev pub opening : List Effect
opening = reports start_pending ∷ starts_agent ∷ reports running ∷ []

open-Ends :
    {es : List Event} {r : Executed}
    → Ends [] es r
    → Ends opening es
        (after (reports start_pending) (after starts_agent (after (reports running) r)))
open-Ends (goes_on q) = goes_on q
open-Ends (agent_done rest q) = agent_done rest q
open-Ends (agent_failed e rest q) = agent_failed e rest q
open-Ends (stopped rest q i) = stopped rest q i

-- The service reports that it starts, starts the agent and reports that it runs, and answers each
-- interrogation with the status that came with it. It goes on until the agent ends or a stop or a
-- shutdown is requested, whichever is first. It then returns code 1, as its own, if the agent failed,
-- and 0 otherwise; the agent is always told to end, and a stop is reported before that.
pub execute-Ends : (es : List Event) → Ends opening es (execute es)
unfolding execute
execute-Ends es = open-Ends (serve-Ends es)
