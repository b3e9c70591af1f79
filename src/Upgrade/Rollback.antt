-- ===== src/Upgrade/Rollback.antt =====
-- internal/upgrade/upgrade.go: what a run leaves of the old binary and of the service.
use open_v_center_agent_hype.Base.{arith, String, ◌≡◌, some, none, Option, true, false, Bool, ◌⊎◌}
use open_v_center_agent_hype.Upgrade.{
  awaits_again, stops_again, drops_pending, restarts, stopped, restores, step_6, sets_aside,
  takes_back, step_5, step_8, step_7, Step, failed_at, succeeded, running, run, Machine, Call,
  Binary, old, new, cleans,
}

-- The machine on which the backend asks for an upgrade: the old agent runs, the new binary has
-- been downloaded beside it.
unfoldable pub ready : Option Binary → Option Binary → Option String → Machine
ready backup failed pending = record {
  target = some old;
  backup = backup;
  self = some new;
  failed = failed;
  pending = pending;
  service = running old;
}

unfoldable pub IsRecoverable : Machine → Type 0
IsRecoverable m = (m.target ≡ some old) ⊎ (m.backup ≡ some old)

unfoldable pub IsRestored : Machine → Type 0
IsRestored m = (m.target ≡ some old) × (m.pending ≡ none) × (m.service ≡ running old)

unfoldable pub IsUpgraded : Option String → Machine → Type 0
IsUpgraded pending m =
    (m.target ≡ some new) × (m.self ≡ none) × (m.service ≡ running new) × (m.pending ≡ pending)

module _ (allows : Call → Bool) (backup failed : Option Binary) (pending : Option String) where
  -- From a machine on which the old agent runs and the new binary lies beside it, whatever calls
  -- of the operating system fail, the old binary is in the target or in the backup afterwards, if
  -- the new agent does not delete the backup before it is confirmed.
  pub run-IsRecoverable :
      allows cleans ≡ false → IsRecoverable (run allows (ready backup failed pending)).0
  unfolding run IsRecoverable ready
  run-IsRecoverable h = ground arith

  -- A run that succeeds leaves the new binary as the target, its service running and the pending
  -- response untouched.
  run-IsUpgraded :
      (run allows (ready backup failed pending)).1 ≡ succeeded
      → IsUpgraded pending (run allows (ready backup failed pending)).0
  unfolding run IsUpgraded ready
  run-IsUpgraded h = ground arith

  -- Where every call of the rollback is granted and the new agent has not deleted the backup, a run
  -- that fails at step 7 or 8 leaves the old binary as the target, running, and no pending response.
  pub run-IsRestored :
      (step : Step)
      → (step ≡ step_7) ⊎ (step ≡ step_8)
      → (run allows (ready backup failed pending)).1 ≡ failed_at step
      → allows cleans ≡ false
      → allows takes_back ≡ true
      → allows sets_aside ≡ true
      → allows restores ≡ true
      → allows stops_again ≡ true
      → allows awaits_again ≡ true
      → allows restarts ≡ true
      → allows drops_pending ≡ true
      → IsRestored (run allows (ready backup failed pending)).0
  unfolding run IsRestored ready
  run-IsRestored step or h c t a r g w s d = ground arith

  -- A run that fails at step 5 or 6 leaves the service stopped: no agent runs.
  run-stopped :
      (step : Step)
      → (step ≡ step_5) ⊎ (step ≡ step_6)
      → (run allows (ready backup failed pending)).1 ≡ failed_at step
      → ((run allows (ready backup failed pending)).0).service ≡ stopped
  unfolding run ready
  run-stopped step or h = ground arith

  -- If the new agent has deleted the backup before its version is confirmed, and the calls of the
  -- rollback are granted, a run that fails at step 8 leaves no file with the old binary.
  run-loses_old :
      (run allows (ready backup failed pending)).1 ≡ failed_at step_8
      → allows cleans ≡ true
      → allows sets_aside ≡ true
      → (((run allows (ready backup failed pending)).0).target ≡ none)
        × (((run allows (ready backup failed pending)).0).backup ≡ none)
        × (((run allows (ready backup failed pending)).0).failed ≡ some new)
  unfolding run ready
  run-loses_old h c a = ground arith
