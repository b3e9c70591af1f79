-- ===== src/Management/Settings.antt =====
-- internal/tasks/vm_management.go: handleNotesEdit, handleVMStartupChange, handleVMResourceMetering and
-- handleRefreshStatus, with what their scripts set; vm_shutdown.go: handleVMShutdownAction. The Boolean
-- says whether the script works. The parameters are decoded.
use open_v_center_agent_hype.Base.{
  ℕ, ◌≡◌, refl, String, Bool, true, false, not, ◌&&◌, ◌||◌, ◌==◌, Option, none, some, List, [], ◌∷◌,
  ◌++◌, if◌then◌else◌, arith, any, ◌⊎◌, inl, inr, if_elim,
}
use open_v_center_agent_hype.Management.{VmManagementPayload}
use open_v_center_agent_hype.Queue.Classifier.{among}

pub record Settings : Type 0 where
  pub notes : String
  pub automatic_start : String
  pub automatic_start_delay : ℕ
  pub is_metered : Bool

pub data SettingError : Type 0 where
  name_required invalid_params nothing_given invalid_start invalid_delay script_failed
        identity_required :
      SettingError

-- The machine whose status a handler replies with, or the status of its own.
pub data Outcome : Type 0 where
  refuses : SettingError → Outcome
  status_of_id status_of_name gives : String → Outcome

abbrev pub Handled : Type 0
Handled = Settings × Outcome

pub data Delay : Type 0 where
  negative : Delay
  seconds : ℕ → Delay

-- VMStartupChangeParams.
pub record VmStartupChangeParams : Type 0 where
  pub automatic_start : Option String
  pub automatic_start_delay : Option Delay

abbrev is_given {ℓ} : {A : Type ℓ} → Option A → Bool
is_given none = false
is_given (some a) = true

abbrev start_is_valid : Option String → Bool
start_is_valid none = true
start_is_valid (some s) = among ("Nothing" ∷ "StartIfRunning" ∷ "Start" ∷ []) s

abbrev delay_is_valid : Option Delay → Bool
delay_is_valid none = true
delay_is_valid (some negative) = false
delay_is_valid (some (seconds n)) = true

abbrev or_start : Option String → String → String
or_start none old = old
or_start (some s) old = s

abbrev or_delay : Option Delay → ℕ → ℕ
or_delay none old = old
or_delay (some negative) old = old
or_delay (some (seconds n)) old = n

abbrev changed : VmStartupChangeParams → Settings → Settings
changed d s = record s {
  automatic_start = or_start d.automatic_start s.automatic_start;
  automatic_start_delay = or_delay d.automatic_start_delay s.automatic_start_delay;
}

module _ (works : Bool) (p : VmManagementPayload) where
  abbrev status : Outcome
  status = if p.vm_id == "" then status_of_name p.vm_name else status_of_id p.vm_id

  -- A script that sets something, then the reply.
  abbrev set_to : Settings → Settings → Outcome → Handled
  set_to new old reply = if works then (new, reply) else (old, refuses script_failed)

  unfoldable pub handle_refresh_status : Outcome
  handle_refresh_status =
      if (p.vm_id == "") && (p.vm_name == "") then refuses identity_required else status

  unfoldable pub handle_notes_edit : Option String → Settings → Handled
  handle_notes_edit none s =
      (s, if p.vm_name == "" then refuses name_required else refuses invalid_params)
  handle_notes_edit (some notes) s =
      if p.vm_name == ""
      then (s, refuses name_required)
      else set_to (record s { notes = notes }) s status

  unfoldable pub handle_vm_startup_change : Option VmStartupChangeParams → Settings → Handled
  handle_vm_startup_change none s =
      (s, if p.vm_name == "" then refuses name_required else refuses invalid_params)
  handle_vm_startup_change (some d) s =
      if p.vm_name == ""
      then (s, refuses name_required)
      else if not (is_given d.automatic_start) && not (is_given d.automatic_start_delay)
      then (s, refuses nothing_given)
      else if not (start_is_valid d.automatic_start)
      then (s, refuses invalid_start)
      else if not (delay_is_valid d.automatic_start_delay)
      then (s, refuses invalid_delay)
      else set_to (changed d s) s status

  unfoldable pub handle_vm_resource_metering : Bool → Settings → Handled
  handle_vm_resource_metering enable s =
      if p.vm_name == ""
      then (s, refuses name_required)
      else set_to (record s { is_metered = enable }) s
          (gives (if enable then "enabled" else "disabled"))

-- What the script of a shutdown sees at each poll before its deadline.
pub data Poll : Type 0 where
  off : Poll
  on job_failed : Poll

unfoldable pub await_off : List Poll → Bool
await_off [] = false
await_off (off ∷ ps) = true
await_off (job_failed ∷ ps) = false
await_off (on ∷ ps) = await_off ps

-- The flag says whether the machine is off at first.
unfoldable pub handle_vm_shutdown_action : Bool → List Poll → VmManagementPayload → Outcome
handle_vm_shutdown_action is_off polls p =
    if p.vm_name == ""
    then refuses name_required
    else if is_off || await_off polls
    then gives "Off"
    else refuses script_failed

abbrev Sets : Bool → VmManagementPayload → VmStartupChangeParams → Settings → Handled → Type 0
Sets works p d s h =
    (h ≡ (changed d s, status works p)) ⊎ ((e : SettingError) × (h ≡ (s, refuses e)))

-- A change of the start-up that is not an error sets what it was asked to, and keeps the rest; an error
-- keeps all.
handle_vm_startup_change-Sets :
    (works : Bool) (p : VmManagementPayload) (d : VmStartupChangeParams) (s : Settings)
    → Sets works p d s (handle_vm_startup_change works p (some d) s)
unfolding handle_vm_startup_change
handle_vm_startup_change-Sets works p d s =
    if_elim (Sets works p d s) (p.vm_name == "") (λ _. inr (name_required, refl))
      λ _.
        if_elim (Sets works p d s)
          (not (is_given d.automatic_start) && not (is_given d.automatic_start_delay))
          (λ _. inr (nothing_given, refl))
          λ _.
            if_elim (Sets works p d s) (not (start_is_valid d.automatic_start))
              (λ _. inr (invalid_start, refl))
              λ _.
                if_elim (Sets works p d s) (not (delay_is_valid d.automatic_start_delay))
                  (λ _. inr (invalid_delay, refl))
                  λ _.
                    if_elim (Sets works p d s) works (λ _. inl refl) λ _. inr (script_failed, refl)

abbrev is_failed : Poll → Bool
is_failed job_failed = true
is_failed off = false
is_failed on = false

-- A machine that is seen off at a poll before which its job had not failed is shut down.
await_off-on :
    (before after : List Poll)
    → any is_failed before ≡ false
    → await_off (before ++ off ∷ after) ≡ true
unfolding await_off
await_off-on [] after h = refl
await_off-on (off ∷ before) after h = refl
await_off-on (on ∷ before) after h = await_off-on before after h
await_off-on (job_failed ∷ before) after h = ground (arith, h)
