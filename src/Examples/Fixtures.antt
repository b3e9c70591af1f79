-- ===== src/Examples/Fixtures.antt =====
-- The data of the runs.
use open_v_center_agent_hype.Base.{String, false, none, some, List, [], ◌∷◌}
use open_v_center_agent_hype.JobStore.{JobRecord, queued, running}
use open_v_center_agent_hype.Queue.Monitor.{WorkerEntry, Monitor}
use open_v_center_agent_hype.Queue.Classifier.{write}
use open_v_center_agent_hype.Queue.Dispatcher.{Env, Dispatcher}

abbrev pub row : String → String → String → String → String → JobRecord
row id task_type action vm status = record {
  job_id = id;
  task_id = "t-1";
  task_type = task_type;
  action = action;
  vm_identifier = vm;
  payload = "";
  status = status;
  worker_pid = 0;
  created_at = "2026-01-01T10:00:00Z";
  started_at = none;
  completed_at = none;
  error_message = "";
}

-- Two edits of one machine, and one that suspends the host.
abbrev pub edit : JobRecord
edit = row "j1" "vm_edit" "" "vm1" queued

abbrev pub second_edit : JobRecord
second_edit = row "j2" "vm_edit" "" "vm1" queued

abbrev pub drain : JobRecord
drain = row "j3" "host_management" "suspend_drain" "" queued

abbrev pub edits : List JobRecord
edits = edit ∷ second_edit ∷ []

abbrev pub edit_and_drain : List JobRecord
edit_and_drain = edit ∷ drain ∷ []

-- An edit that already runs.
abbrev pub running_edit : JobRecord
running_edit = row "j1" "vm_edit" "" "vm1" running

abbrev pub worker : WorkerEntry
worker = record {
  job_id = "j1";
  task_id = "t-1";
  pid = 7;
  started_at = 100;
  task_type = "vm_edit";
  action = "";
  vm_identifier = "vm1";
  job_class = write;
}

abbrev pub idle : Monitor
idle = record { workers = []; default_timeout = 300 }

abbrev pub busy : Monitor
busy = record { workers = worker ∷ []; default_timeout = 300 }

abbrev pub dispatcher : List JobRecord → Monitor → Dispatcher
dispatcher rows m = record {
  store = rows;
  monitor = m;
  max_concurrent_jobs = 2;
  drain_mode = false;
}

-- An evaluation in which everything works.
abbrev pub env : Env
env = record {
  spawn = λ id. some 7;
  list_fault = false;
  update_fault = λ id. false;
  now = 200;
  now_text = "2026-01-01T10:00:05Z";
}
