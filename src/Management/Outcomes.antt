-- ===== src/Management/Outcomes.antt =====
-- vm_management.go: what the handlers of one machine run and return.
use mathlib.Core.Path.{subst}
use open_v_center_agent_hype.Base.{
  String, Bool, true, false, ◌==◌, Option, none, some, List, [], ◌∷◌, ◌≡◌, inl, inr, refl,
  if◌then◌else◌, if_elim, ◌∙◌, sym, ◌≢◌, text_cases,
}
use open_v_center_agent_hype.Management.{VmManagementPayload}
use open_v_center_agent_hype.Management.Actions.{
  Script, start_vm, suspend_vm, resume_vm, restart_vm, turn_off_vm, read_state, create_snapshot,
  remove_snapshot, remove_all_snapshots, restore_snapshot, Failure, Reply, fails, prints, refuses,
  gives, Handled, SnapshotParams, handle_vm_start_action, handle_vm_pause_action,
  handle_vm_resume_action, handle_vm_restart_action, handle_vm_stop_action, handle_snapshot_create,
  handle_snapshot_remove, handle_snapshot_restore, result, then_state, change_state, completed_by,
  with_param, or_state, new_vm_stop_result,
}

pub data Action : Type 0 where
  start pause resume restart create remove restore : Action

abbrev pub action_name : Action → String
action_name start = "vm_start"
action_name pause = "vm_pause"
action_name resume = "vm_resume"
action_name restart = "vm_restart"
action_name create = "snapshot_create"
action_name remove = "snapshot_remove"
action_name restore = "snapshot_restore"

abbrev given : Option String → Bool
given none = false
given (some v) = if v == "" then false else true

-- What the action needs is there: the name of the machine, or the parameter of a snapshot.
abbrev pub has_all : Action → SnapshotParams → VmManagementPayload → Bool
has_all create s p = given s.name
has_all remove s p = given s.snapshot_id
has_all restore s p = given s.snapshot_id
has_all _ s p = given (some p.vm_name)

abbrev text_of : Option String → String
text_of none = ""
text_of (some v) = v

-- The script that does the action.
abbrev pub script_of : Action → SnapshotParams → VmManagementPayload → Script
script_of start s p = start_vm p.vm_name
script_of pause s p = suspend_vm p.vm_name
script_of resume s p = resume_vm p.vm_name
script_of restart s p = restart_vm p.vm_name
script_of create s p = create_snapshot p.vm_id (text_of s.name)
script_of remove s p =
    if text_of s.snapshot_id == "all"
    then remove_all_snapshots p.vm_id
    else remove_snapshot p.vm_id (text_of s.snapshot_id)
script_of restore s p = restore_snapshot p.vm_id (text_of s.snapshot_id)

-- What is read after it.
abbrev pub reads_after : Action → VmManagementPayload → List Script
reads_after create p = []
reads_after remove p = []
reads_after restore p = []
reads_after _ p = read_state p.vm_name ∷ []

-- The status after a machine was to be turned off.
abbrev pub reported_as : Reply → String
reported_as (fails f) = "Off"
reported_as (prints out) = if out == "" then "Off" else out

module _ (shell : Script → Reply) (s : SnapshotParams) (p : VmManagementPayload) where
  -- The case of the switch.
  abbrev pub handler : Action → Handled
  handler start = handle_vm_start_action shell p
  handler pause = handle_vm_pause_action shell p
  handler resume = handle_vm_resume_action shell p
  handler restart = handle_vm_restart_action shell p
  handler create = handle_snapshot_create shell p s
  handler remove = handle_snapshot_remove shell p s
  handler restore = handle_snapshot_restore shell p s

  -- The state that is read, or the usual one if it cannot be read.
  abbrev pub status_of : Action → String
  status_of start = or_state (shell (read_state p.vm_name)) "Running"
  status_of pause = or_state (shell (read_state p.vm_name)) "Paused"
  status_of resume = or_state (shell (read_state p.vm_name)) "Running"
  status_of restart = or_state (shell (read_state p.vm_name)) "Running"
  status_of _ = "completed"

  pub data Ran (a : Action) : Handled → Type 0 where
    runs_nothing : (e : String) → has_all a s p ≡ false → Ran a ([], refuses e)
    script_fails :
        (f : Failure) (e : String)
        → has_all a s p ≡ true
        → shell (script_of a s p) ≡ fails f
        → Ran a (script_of a s p ∷ [], refuses e)
    script_works :
        (out : String)
        → has_all a s p ≡ true
        → shell (script_of a s p) ≡ prints out
        → Ran a (
          script_of a s p ∷ reads_after a p,
          gives (result shell p (action_name a) (status_of a)),
        )

  change_state-Ran :
      (a : Action) (state : String)
      → has_all a s p ≡ given (some p.vm_name)
      → read_state p.vm_name ∷ [] ≡ reads_after a p
      → or_state (shell (read_state p.vm_name)) state ≡ status_of a
      → Ran a (change_state shell p (action_name a) (script_of a s p) state)
  change_state-Ran a state has reads status =
      if_elim (Ran a) (p.vm_name == "") (λ e. runs_nothing _ (has ∙ rw e refl))
        (λ e. changed (has ∙ rw e refl) (shell (script_of a s p)) refl)
    where
      changed :
          has_all a s p ≡ true
          → (r : Reply) → shell (script_of a s p) ≡ r
          → Ran a (then_state shell p (action_name a) (script_of a s p) state r)
      changed h (fails f) e = script_fails f _ h e
      changed h (prints out) e = rw (reads, status) (script_works out h e)

  completed_by-Ran :
      (a : Action) (why : Failure → String)
      → has_all a s p ≡ true
      → [] ≡ reads_after a p
      → "completed" ≡ status_of a
      → (r : Reply) → shell (script_of a s p) ≡ r
      → Ran a (completed_by shell p (action_name a) (script_of a s p) why r)
  completed_by-Ran a why has reads status (fails f) e = script_fails f _ has e
  completed_by-Ran a why has reads status (prints out) e =
      subst (λ w. Ran a (script_of a s p ∷ [], gives (result shell p (action_name a) w)))
        (sym status)
        (subst
          (λ x. Ran a (script_of a s p ∷ x, gives (result shell p (action_name a) (status_of a))))
          (sym reads) (script_works out has e))

  param-Ran :
      (a : Action) (o : Option String) (k : String → Handled)
      → has_all a s p ≡ given o
      → (has_all a s p ≡ true → Ran a (k (text_of o)))
      → Ran a (with_param shell p o k)
  param-Ran a none k has h = runs_nothing _ has
  param-Ran a (some v) k has h =
      if_elim (Ran a) (v == "") (λ e. runs_nothing _ (has ∙ rw e refl)) (λ e. h (has ∙ rw e refl))

  -- A handler of a power state or of a snapshot ends in one of three ways. A name or a parameter is
  -- missing, and it runs nothing and fails. Or it runs the action's script, on the machine of the task,
  -- which fails, and it fails without another script. Or the script works, and the result names the
  -- machine, the action and its status: for a power state the state that is then read, or the usual one
  -- if it cannot be read.
  handler-Ran : (a : Action) → Ran a (handler a)
  unfolding handle_vm_start_action handle_vm_pause_action handle_vm_resume_action
      handle_vm_restart_action handle_snapshot_create handle_snapshot_remove handle_snapshot_restore
  handler-Ran start = change_state-Ran start "Running" refl refl refl
  handler-Ran pause = change_state-Ran pause "Paused" refl refl refl
  handler-Ran resume = change_state-Ran resume "Running" refl refl refl
  handler-Ran restart = change_state-Ran restart "Running" refl refl refl
  handler-Ran create =
      param-Ran create s.name _ refl
        (λ h. completed_by-Ran create _ h refl refl (shell (script_of create s p)) refl)
  handler-Ran remove =
      param-Ran remove s.snapshot_id _ refl
        (λ h. completed_by-Ran remove _ h refl refl (shell (script_of remove s p)) refl)
  handler-Ran restore =
      param-Ran restore s.snapshot_id _ refl
        (λ h. completed_by-Ran restore _ h refl refl (shell (script_of restore s p)) refl)

  -- Turning off a machine with a name is answered with success whatever PowerShell does: a script that
  -- fails is reported as a machine that is off, and one that works by what it prints, or as off if it
  -- prints nothing.
  handle_vm_stop_action-succeeds :
      p.vm_name ≢ ""
      → handle_vm_stop_action shell p ≡ (
        turn_off_vm p.vm_name ∷ [],
        gives (result shell p "vm_stop" (reported_as (shell (turn_off_vm p.vm_name)))),
      )
  unfolding handle_vm_stop_action
  handle_vm_stop_action-succeeds n =
      let named : (p.vm_name == "") ≡ false = elim (text_cases p.vm_name "") [
        | inl e ↦ absurd (n e)
        | inr e ↦ e
      ] in
      rw named (reported (shell (turn_off_vm p.vm_name)))
    where
      reported :
          (r : Reply)
          → Path Handled
              (turn_off_vm p.vm_name ∷ [], gives (new_vm_stop_result shell p (or_state r "")))
              (turn_off_vm p.vm_name ∷ [], gives (result shell p "vm_stop" (reported_as r)))
      reported (fails f) = refl
      reported (prints out) = refl
