-- ===== src/Upgrade/Reports.antt =====
-- cmd/agent/main.go: what the backend is told of an upgrade, by the upgrading process and by the
-- agent that starts next.
use open_v_center_agent_hype.Base.{eq_iff, ◌∷◌, ◌≢◌, [], ◌≡◌, some, String, Option, Bool, arith}
use open_v_center_agent_hype.Upgrade.{
  reports_failed, step_8, step_7, step_6, reports_upgraded, succeeded, failed_at, Step, Binary, run,
  upgrade_command, agent_starts, Call,
}
use open_v_center_agent_hype.Upgrade.Rollback.{ready}

module _ (allows : Call → Bool) (backup failed : Option Binary) (task : String) where
  -- A run that succeeds reports nothing itself, and the agent that starts next reports the task as
  -- upgraded.
  upgrade_command-reports :
      (run allows (ready backup failed (some task))).1 ≡ succeeded
      → ((upgrade_command allows (ready backup failed (some task))).1 ≡ [])
        × ((agent_starts (upgrade_command allows (ready backup failed (some task))).0).1
            ≡ reports_upgraded task ∷ [])
  unfolding upgrade_command agent_starts run ready
  upgrade_command-reports h = ground arith

  -- A run that fails before step 6 with a task pending reports the task as failed, and the agent
  -- that starts next reports the same task as upgraded.
  upgrade_command_contradicts :
      (step : Step)
      → (run allows (ready backup failed (some task))).1 ≡ failed_at step
      → step ≢ step_6
      → step ≢ step_7
      → step ≢ step_8
      → task ≢ ""
      → ((upgrade_command allows (ready backup failed (some task))).1 ≡ reports_failed task ∷ [])
        × ((agent_starts (upgrade_command allows (ready backup failed (some task))).0).1
            ≡ reports_upgraded task ∷ [])
  unfolding upgrade_command agent_starts run ready
  upgrade_command_contradicts step h n6 n7 n8 nonempty = ground (arith, eq_iff task "")
