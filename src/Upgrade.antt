-- ===== src/Upgrade.antt =====
-- internal/upgrade: the replacement of the agent's binary by the process of the new one, the
-- pending response, and what main.go does before and after it. The files of the agent's directory
-- and the service manager are a `Machine`; each call of the operating system asks `allows` whether
-- it is granted, and a rename also needs its source.
pub mod Rollback
pub mod Reports
use open_v_center_agent_hype.Base.{
  String, Bool, true, false, not, ◌&&◌, Option, none, some, List, [], ◌∷◌, ◌==◌, if◌then◌else◌,
}

-- `stale` is a backup that an earlier upgrade left.
pub data Binary : Type 0 where
  old new stale : Binary

pub data Service : Type 0 where
  running stopping : Binary → Service
  stopped : Service

-- `self` is ovc-agent-<version>.exe, `target` ovc-agent.exe, `backup` and `failed` the same name
-- with .bak and .failed; `pending` is the task id in upgrade-pending.json.
pub record Machine : Type 0 where
  pub target : Option Binary
  pub backup : Option Binary
  pub self : Option Binary
  pub failed : Option Binary
  pub pending : Option String
  pub service : Service

-- The calls, in the order of the source; `cleans` says whether the new agent gets as far as its
-- own Cleanup before the new version is confirmed, and `confirms` whether its log line is seen.
pub data Call : Type 0 where
  resolves_path validates probes_dir sends_stop awaits_stop removes_backup keeps_target : Call
  installs starts cleans confirms : Call
  restores takes_back restarts stops_again awaits_again sets_aside drops_pending : Call

pub data Step : Type 0 where
  step_0 step_1 step_2 step_3 step_4 step_5 step_6 step_7 step_8 : Step

-- The error of Run carries the step.
pub data Outcome : Type 0 where
  succeeded : Outcome
  failed_at : Step → Outcome

abbrev is_running : Service → Bool
is_running (running b) = true
is_running _ = false

abbrev is_stopped : Service → Bool
is_stopped stopped = true
is_stopped _ = false

stop : Service → Service
stop (running b) = stopping b
stop s = s

abbrev exists : Option Binary → Bool
exists none = false
exists (some b) = true

-- Cleanup, where every removal is granted.
unfoldable pub cleanup : Machine → Machine
cleanup m = record m { backup = none; self = none; failed = none }

module _ (allows : Call → Bool) where
  -- os.Rename; the Boolean says that it succeeded.
  rename_restore : Machine → Machine
  rename_restore m = elim m.backup [
    | none ↦ m
    | some b ↦ if allows restores then record m { target = some b; backup = none } else m
  ]

  rename_back : Machine → Machine
  rename_back m = elim m.target [
    | none ↦ m
    | some b ↦ if allows takes_back then record m { self = some b; target = none } else m
  ]

  rename_aside : Machine → Machine
  rename_aside m = elim m.target [
    | none ↦ m
    | some b ↦ if allows sets_aside then record m { failed = some b; target = none } else m
  ]

  -- startService as a best effort: it refuses a service that is not stopped.
  restart : Machine → Machine
  restart m = elim m.target [
    | none ↦ m
    | some b ↦
        if allows restarts && is_stopped m.service then record m { service = running b } else m
  ]

  -- invalidatePendingResponse.
  unfoldable pub invalidate_pending_response : Machine → Machine
  invalidate_pending_response m = if allows drops_pending then record m { pending = none } else m

  -- stopService and waitForServiceStopped, whose errors the rollback of step 8 ignores.
  stop_again : Machine → Machine
  stop_again m =
      if allows stops_again && allows awaits_again
      then record m { service = stopped }
      else if allows stops_again
      then record m { service = stop m.service }
      else m

  step8 : Machine → Machine × Outcome
  step8 m = if allows confirms then (m, succeeded) else (
    invalidate_pending_response (restart (rename_restore (rename_aside (stop_again m)))),
    failed_at step_8,
  )

  roll_back_7 : Machine → Machine × Outcome
  roll_back_7 m =
      (invalidate_pending_response (restart (rename_restore (rename_back m))), failed_at step_7)

  step7 : Machine → Machine × Outcome
  step7 m = elim m.target [
    | none ↦ roll_back_7 m
    | some b ↦
        if allows starts
        then step8 (
            let m' : Machine = record m { service = running b } in
            if allows cleans then cleanup m' else m')
        else roll_back_7 m
  ]

  roll_back_6 : Machine → Machine × Outcome
  roll_back_6 m = (invalidate_pending_response (rename_restore m), failed_at step_6)

  step6 : Machine → Machine × Outcome
  step6 m = elim m.self [
    | none ↦ roll_back_6 m
    | some b ↦
        if allows installs then step7 (record m { target = some b; self = none }) else roll_back_6 m
  ]

  keep_target : Machine → Machine × Outcome
  keep_target m = elim m.target [
    | none ↦ (m, failed_at step_5)
    | some b ↦
        if allows keeps_target
        then step6 (record m { backup = some b; target = none })
        else (m, failed_at step_5)
  ]

  step5 : Machine → Machine × Outcome
  step5 m =
      if exists m.backup
      then (if allows removes_backup
          then keep_target (record m { backup = none })
          else (m, failed_at step_5))
      else keep_target m

  step4 : Machine → Machine × Outcome
  step4 m =
      if allows awaits_stop then step5 (record m { service = stopped }) else (m, failed_at step_4)

  step3 : Machine → Machine × Outcome
  step3 m =
      if allows sends_stop
      then step4 (record m { service = stop m.service })
      else (m, failed_at step_3)

  unfoldable pub run : Machine → Machine × Outcome
  unfolding step3 step4 step5 keep_target step6 step7 step8 roll_back_6 roll_back_7 rename_restore
      rename_back rename_aside restart stop_again stop invalidate_pending_response cleanup
  run m =
      if not (allows resolves_path)
      then (m, failed_at step_0)
      else if not (allows validates && is_running m.service)
      then (m, failed_at step_1)
      else if not (allows probes_dir)
      then (m, failed_at step_2)
      else step3 m

-- What the backend is told of the task.
pub data Report : Type 0 where
  reports_failed reports_upgraded : String → Report

abbrev failure_report : Option String → Outcome → List Report
failure_report pending succeeded = []
failure_report none (failed_at s) = []
failure_report (some task) (failed_at s) = if task == "" then [] else reports_failed task ∷ []

-- The `upgrade` command of main.go: the pending response is read before Run, and used if Run fails.
unfoldable pub upgrade_command : (Call → Bool) → Machine → Machine × List Report
unfolding run
upgrade_command allows m = ((run allows m).0, failure_report m.pending (run allows m).1)

abbrev success_report : Option String → List Report
success_report none = []
success_report (some task) = reports_upgraded task ∷ []

-- The start of an agent, old or new: Cleanup, then ReadPendingResponse and its publication.
unfoldable pub agent_starts : Machine → Machine × List Report
unfolding cleanup
agent_starts m = (record (cleanup m) { pending = none }, success_report m.pending)
