-- ===== src/Edit/Run.antt =====
-- internal/tasks/vm_edit.go: handleVMEdit, over the steps of its blocks.
use open_v_center_agent_hype.Base.{
  suc, ℕ, Bool, true, false, not, ◌&&◌, ◌==◌, Option, none, some, List, [], ◌∷◌, ◌++◌,
  if◌then◌else◌, ◌||◌,
}
use open_v_center_agent_hype.Edit.{
  VmEditPayload, Command, EditError, Step, refuse, run, try, applies, needs_off, settings_steps,
  payload_required, id_required, vm_refused, no_changes, script_failed,
}
use open_v_center_agent_hype.Edit.Devices.{disk_steps, nic_steps}

-- The machine of the id, if any, the free space at the first disk, and whether a script works, after a number
-- of others.
pub record World : Type 0 where
  pub finds_vm : Bool
  pub is_off : Bool
  pub free_space : Option ℕ
  pub works : ℕ → Command → Bool

-- What was run and what was applied, in order, and the error, if any.
pub record Edited : Type 0 where
  pub commands : List Command
  pub applied : List Command
  pub error : Option EditError

abbrev pub nothing_done : Option EditError → Edited
nothing_done e = record { commands = []; applied = []; error = e }

abbrev pub ran : Command → Edited → Edited
ran c e = record e { commands = c ∷ e.commands }

unfoldable pub run_steps : (ℕ → Command → Bool) → ℕ → List Step → Edited
run_steps works n [] = nothing_done none
run_steps works n (refuse e ∷ ss) = nothing_done (some e)
run_steps works n (run c ∷ ss) =
    let rest = run_steps works (suc n) ss in
    if works n c then ran c rest else ran c (nothing_done (some (script_failed c)))
run_steps works n (try c ∷ ss) = let rest = run_steps works (suc n) ss in ran c rest
run_steps works n (applies c ∷ ss) =
    let rest = run_steps works n ss in record rest { applied = c ∷ rest.applied }

unfoldable pub steps_of : Option ℕ → VmEditPayload → List Step
steps_of free p = settings_steps p ++ disk_steps free p ++ nic_steps p

abbrev pub is_empty : List Command → Bool
is_empty [] = true
is_empty (c ∷ cs) = false

-- An edit that changes nothing is an error.
abbrev pub or_no_changes : Edited → Option EditError → Edited
or_no_changes e none = if is_empty e.applied then record e { error = some no_changes } else e
or_no_changes e (some err) = e

abbrev pub edited : Edited → Edited
edited e = or_no_changes e e.error

-- The reply lists `applied` where there is no error.
unfoldable pub handle_vm_edit : World → Option VmEditPayload → Edited
handle_vm_edit w none = nothing_done (some payload_required)
handle_vm_edit w (some p) =
    if p.vm_id == ""
    then nothing_done (some id_required)
    else if w.finds_vm && (not (needs_off p) || w.is_off)
    then edited (run_steps w.works 0 (steps_of w.free_space p))
    else nothing_done (some vm_refused)
