-- ===== src/Examples/Settings.antt =====
-- A configuration with two storage paths on one volume.
use open_v_center_agent_hype.Base.{◌≡◌, ◌↔◌, true, false, some, [], ◌∷◌, ◌++◌, Text}
use open_v_center_agent_hype.Config.{
  Host, AgentSection, unreadable, number, load, load_from_ini, load_for_messaging,
}
use open_v_center_agent_hype.Config.Validity.{IsUsable, InRange, load-iff-IsUsable}

abbrev first_two : Text → Text
first_two [] = []
first_two (a ∷ []) = a ∷ []
first_two (a ∷ b ∷ rest) = a ∷ b ∷ []

abbrev host : Host
host = record {
  default_log_level = 105 ∷ [];
  default_log_file = 108 ∷ [];
  to_lower = λ t. t;
  to_upper = λ t. t;
  clean = λ t. t;
  dir = λ t. t;
  volume_name = first_two;
  ends_with_leaf = λ t. false;
  join_leaf = λ t. t ++ 72 ∷ [];
  dir_exists = λ t. true;
}

-- E:A;E:B;F:
abbrev storage : Text
storage = 69 ∷ 58 ∷ 65 ∷ 59 ∷ 69 ∷ 58 ∷ 66 ∷ 59 ∷ 70 ∷ 58 ∷ []

abbrev section : AgentSection
section = record {
  host_id = 104 ∷ [];
  rabbitmq_url = 97 ∷ [];
  log_level = [];
  log_file = [];
  task_timeout = number 0;
  refresh_interval_vms = unreadable;
  refresh_interval_host = unreadable;
  metrics_interval = unreadable;
  heartbeat_interval = unreadable;
  template_path = 67 ∷ [];
  local_iso_path = 68 ∷ [];
  aditional_vm_storage = storage;
  max_concurrent_jobs = number 65;
}

load-iff-IsUsable_example : (load host (some section) ≡ some (load_from_ini host section)) ↔ (
    (load_from_ini host section ≡ load_from_ini host section)
    × IsUsable host (load_from_ini host section)
    × InRange (load_from_ini host section)
    × (load_for_messaging host (some section) ≡ some (load_from_ini host section)))
load-iff-IsUsable_example = load-iff-IsUsable host section (load_from_ini host section)
