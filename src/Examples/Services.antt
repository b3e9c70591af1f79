-- ===== src/Examples/Services.antt =====
-- A service that is asked for its status and stopped, and the queues of a refresh.
use open_v_center_agent_hype.Base.{true, List, [], ◌∷◌, All}
use open_v_center_agent_hype.Service.{Event, interrogate, other_command, stop, execute}
use open_v_center_agent_hype.Service.Runs.{Ends, opening, execute-Ends}
use open_v_center_agent_hype.Queue.Scheduler.{SchedulerConfig, build_specs}
use open_v_center_agent_hype.StateQueues.{state_payload}
use open_v_center_agent_hype.StateQueues.Agreement.{IsDeclared, HasQueue, queues-agree}

abbrev requests : List Event
requests = interrogate "running" ∷ other_command ∷ stop ∷ interrogate "running" ∷ []

execute-Ends_example : Ends opening requests (execute requests)
execute-Ends_example = execute-Ends requests

abbrev intervals : SchedulerConfig
intervals = record {
  refresh_interval_vms = 300;
  refresh_interval_host = 600;
  metrics_interval = 300;
  heartbeat_interval = 60;
}

queues-agree_example :
    IsDeclared (state_payload "host_metrics" true) × All HasQueue (build_specs intervals)
queues-agree_example = queues-agree "host_metrics" true intervals
