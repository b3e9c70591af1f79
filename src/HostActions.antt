-- ===== src/HostActions.antt =====
-- internal/tasks/host_management.go: handleHostManagement. The refreshes and the restart of the agent only
-- pass a task on. The host answers through `World`.
pub mod Guards
use text.Mathlib.Text.{find?}
use open_v_center_agent_hype.Base.{
  String, Bool, true, false, not, ◌==◌, Option, none, some, List, [], ◌∷◌, if◌then◌else◌, ◌||◌,
}

-- The scripts that change the host: with or without the draining of its roles, or their failback.
pub data Command : Type 0 where
  suspend_node resume_node : Bool → Command
  restart_computer : Command

-- What a script answers: a text, or an error with its text.
pub data Reply : Type 0 where
  prints fails : String → Reply

-- `node_state` and `running` are what the checks before a restart print, and `none` where they fail.
pub record World : Type 0 where
  pub is_cluster_node : Bool
  pub node_state : Option String
  pub running : Option String
  pub hostname : Option String
  pub shell : Command → Reply

pub data HostError : Type 0 where
  payload_required action_required not_clustered script_failed state_unknown not_paused
        running_unknown vms_running unknown_action :
      HostError

-- The host's name, and the status.
pub data Outcome : Type 0 where
  refuses : HostError → Outcome
  gives : String → String → Outcome
  passes_on : String → Outcome

-- The scripts that were run, in order.
abbrev pub Handled : Type 0
Handled = List Command × Outcome

abbrev is_found {ℓ} : {A : Type ℓ} → Option A → Bool
is_found none = false
is_found (some a) = true

module _ (w : World) where
  abbrev pub get_hostname : Option String → String
  get_hostname none = "unknown"
  get_hostname (some name) = name

  abbrev replied : Command → Reply → Handled
  replied c (prints s) = (c ∷ [], gives (get_hostname w.hostname) s)
  replied c (fails e) = (c ∷ [], refuses script_failed)

  abbrev on_node : Command → Handled
  on_node c = if w.is_cluster_node then replied c (w.shell c) else ([], refuses not_clustered)

  unfoldable pub handle_host_suspend : Handled
  handle_host_suspend = on_node (suspend_node false)

  unfoldable pub handle_host_suspend_drain : Handled
  handle_host_suspend_drain = on_node (suspend_node true)

  unfoldable pub handle_host_resume : Handled
  handle_host_resume = on_node (resume_node false)

  unfoldable pub handle_host_resume_fallback : Handled
  handle_host_resume_fallback = on_node (resume_node true)

  -- strings.Contains.
  abbrev contains : String → String → Bool
  contains s t = is_found (find? s t)

  -- The texts of an error that the loss of the host may have.
  abbrev pub is_lost : String → Bool
  is_lost e = contains e "broken pipe" || contains e "connection reset" || contains e "exit status"

  -- An error with one of these texts counts as a success.
  abbrev restarting : Reply → Handled
  restarting (prints s) = (restart_computer ∷ [], gives (get_hostname w.hostname) "restarting")
  restarting (fails e) =
      if is_lost e
      then (restart_computer ∷ [], gives (get_hostname w.hostname) "restarting")
      else (restart_computer ∷ [], refuses script_failed)

  abbrev check_running : Option String → Handled
  check_running none = ([], refuses running_unknown)
  check_running (some n) =
      if n == "0" then restarting (w.shell restart_computer) else ([], refuses vms_running)

  abbrev check_paused : Option String → Handled
  check_paused none = ([], refuses state_unknown)
  check_paused (some s) =
      if s == "Paused" then check_running w.running else ([], refuses not_paused)

  unfoldable pub handle_host_restart : Handled
  handle_host_restart =
      if w.is_cluster_node then check_paused w.node_state else check_running w.running

  -- The action of the payload, `none` where the payload is missing or does not decode.
  unfoldable pub handle_host_management : Option String → Handled
  handle_host_management none = ([], refuses payload_required)
  handle_host_management (some action) =
      if action == ""
      then ([], refuses action_required)
      else if action == "suspend"
      then handle_host_suspend
      else if action == "suspend_drain"
      then handle_host_suspend_drain
      else if action == "resume"
      then handle_host_resume
      else if action == "resume_fallback"
      then handle_host_resume_fallback
      else if action == "restart"
      then handle_host_restart
      else if action == "host_restart_agent"
      then ([], passes_on action)
      else if action == "refresh_hardware"
      then ([], passes_on action)
      else if action == "refresh_inventory"
      then ([], passes_on action)
      else ([], refuses unknown_action)
