-- ===== src/Config.antt =====
-- internal/config: config.ini (config.go) and the additional storage paths (storage.go). Texts are
-- lists of code points. The file, the file system, the paths of Windows and the case of letters
-- answer through `Host`.
pub mod Validity
pub mod Storage
use open_v_center_agent_hype.Base.{
  ℕ, zero, suc, Bool, true, false, not, ◌&&◌, ◌||◌, Option, none, some, List, [], ◌∷◌, ltb, leb,
  nat_eq, any, if◌then◌else◌, Text, blank, text_eq, trim_space,
}

-- The answer of section.Key(…).Int(); `negative n` is -(n + 1).
pub data IniInt : Type 0 where
  unreadable : IniInt
  negative number : ℕ → IniInt

-- The section [agent]; a missing key is empty or unreadable.
pub record AgentSection : Type 0 where
  pub host_id : Text
  pub rabbitmq_url : Text
  pub log_level : Text
  pub log_file : Text
  pub task_timeout : IniInt
  pub refresh_interval_vms : IniInt
  pub refresh_interval_host : IniInt
  pub metrics_interval : IniInt
  pub heartbeat_interval : IniInt
  pub template_path : Text
  pub local_iso_path : Text
  pub aditional_vm_storage : Text
  pub max_concurrent_jobs : IniInt

pub record Host : Type 0 where
  pub default_log_level : Text
  pub default_log_file : Text
  pub to_lower : Text → Text
  pub to_upper : Text → Text
  pub clean : Text → Text
  pub dir : Text → Text
  pub volume_name : Text → Text
  pub ends_with_leaf : Text → Bool
  pub join_leaf : Text → Text
  pub dir_exists : Text → Bool

pub record Config : Type 0 where
  pub host_id : Text
  pub rabbitmq_url : Text
  pub log_level : Text
  pub log_file : Text
  pub task_timeout : ℕ
  pub max_concurrent_jobs : ℕ
  pub refresh_interval_vms : ℕ
  pub refresh_interval_host : ℕ
  pub metrics_interval : ℕ
  pub heartbeat_interval : ℕ
  pub template_path : Text
  pub local_iso_path : Text
  pub additional_vm_storage : List Text

abbrev or_text : Text → Text → Text
or_text v old = if blank v then old else v

abbrev or_positive : IniInt → ℕ → ℕ
or_positive unreadable old = old
or_positive (negative n) old = old
or_positive (number v) old = if ltb 0 v then v else old

abbrev or_number : IniInt → ℕ → ℕ
or_number unreadable old = old
or_number (negative n) old = old
or_number (number v) old = v

abbrev or_jobs : IniInt → ℕ → ℕ
or_jobs unreadable old = old
or_jobs (negative n) old = old
or_jobs (number v) old = if leb 1 v && leb v 64 then v else old

-- strings.Split, at semicolons.
abbrev add_to_first : ℕ → List Text → List Text
add_to_first c [] = (c ∷ []) ∷ []
add_to_first c (part ∷ parts) = (c ∷ part) ∷ parts

abbrev pub split : Text → List Text
split [] = [] ∷ []
split (c ∷ cs) = let rest = split cs in if nat_eq c 59 then [] ∷ rest else add_to_first c rest

module _ (os : Host) where
  new_config : Config
  new_config = record {
    host_id = [];
    rabbitmq_url = [];
    log_level = os.default_log_level;
    log_file = os.default_log_file;
    task_timeout = 60;
    max_concurrent_jobs = 4;
    refresh_interval_vms = 300;
    refresh_interval_host = 600;
    metrics_interval = 300;
    heartbeat_interval = 60;
    template_path = [];
    local_iso_path = [];
    additional_vm_storage = [];
  }

  unfoldable pub normalize_storage_path : Text → Text
  normalize_storage_path raw =
      let p = os.clean (trim_space raw) in
      if blank (trim_space raw) then [] else if os.ends_with_leaf p then p else os.join_leaf p

  abbrev pub storage_volume : Text → Text
  storage_volume p = os.to_upper (os.volume_name p)

  -- The loop over the parts, with the volumes seen.
  unfoldable pub keep_storage : List Text → List Text → List Text
  keep_storage seen [] = []
  keep_storage seen (part ∷ parts) =
      let norm = normalize_storage_path part in
      let vol = storage_volume norm in
      let same = keep_storage seen parts in
      let more = keep_storage (vol ∷ seen) parts in
      if blank norm
      then same
      else if blank vol
      then norm ∷ same
      else if any (text_eq vol) seen
      then same
      else norm ∷ more

  unfoldable pub parse_additional_storage : Text → List Text
  parse_additional_storage raw =
      let parts = split (trim_space raw) in
      if blank (trim_space raw) then [] else keep_storage [] parts

  unfoldable pub load_from_ini : AgentSection → Config
  unfolding new_config
  load_from_ini s = record {
    host_id = or_text s.host_id [];
    rabbitmq_url = or_text s.rabbitmq_url [];
    log_level = if blank s.log_level then new_config.log_level else os.to_lower s.log_level;
    log_file = or_text s.log_file new_config.log_file;
    task_timeout = or_positive s.task_timeout new_config.task_timeout;
    max_concurrent_jobs = or_jobs s.max_concurrent_jobs new_config.max_concurrent_jobs;
    refresh_interval_vms = or_number s.refresh_interval_vms new_config.refresh_interval_vms;
    refresh_interval_host = or_number s.refresh_interval_host new_config.refresh_interval_host;
    metrics_interval = or_number s.metrics_interval new_config.metrics_interval;
    heartbeat_interval = or_positive s.heartbeat_interval new_config.heartbeat_interval;
    template_path = or_text s.template_path [];
    local_iso_path = or_text s.local_iso_path [];
    additional_vm_storage =
        if blank s.aditional_vm_storage
        then []
        else parse_additional_storage s.aditional_vm_storage;
  }

  abbrev pub storage_missing : Text → Bool
  storage_missing p = not (os.dir_exists p) && not (os.dir_exists (os.dir p))

  unfoldable pub validate_paths : Config → Bool
  validate_paths c =
      if not (os.dir_exists c.template_path)
      then false
      else if not (os.dir_exists c.local_iso_path)
      then false
      else not (any storage_missing c.additional_vm_storage)

  -- Load; `none` is a file that cannot be read, or an error.
  unfoldable pub load : Option AgentSection → Option Config
  load none = none
  load (some s) =
      let c = load_from_ini s in
      if blank c.host_id
      then none
      else if blank c.rabbitmq_url
      then none
      else if blank c.template_path
      then none
      else if blank c.local_iso_path
      then none
      else if validate_paths c
      then some c
      else none

  unfoldable pub load_for_messaging : Option AgentSection → Option Config
  load_for_messaging none = none
  load_for_messaging (some s) =
      let c = load_from_ini s in
      if blank c.host_id then none else if blank c.rabbitmq_url then none else some c
