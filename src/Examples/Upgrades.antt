-- ===== src/Examples/Upgrades.antt =====
-- Upgrades of the agent, and the log of a new one.
use open_v_center_agent_hype.Base.{
  refl, ◌≡◌, inl, some, none, true, false, Bool, Text, [], ◌∷◌, ◌++◌, arith,
}
use open_v_center_agent_hype.StartupLog.{startup_message, wait_for_startup_log}
use open_v_center_agent_hype.StartupLog.Confirms.{log_line, wait_for_startup_log-confirms}
use open_v_center_agent_hype.Upgrade.{Call, run, failed_at, step_7, cleans, starts}
use open_v_center_agent_hype.Upgrade.Rollback.{
  ready, IsRecoverable, IsRestored, run-IsRecoverable, run-IsRestored,
}

-- The new agent does not start.
abbrev no_start : Call → Bool
no_start starts = false
no_start cleans = false
no_start _ = true

run-IsRecoverable_example : IsRecoverable (run no_start (ready none none (some "t-1"))).0
run-IsRecoverable_example = run-IsRecoverable no_start none none (some "t-1") refl

no_start-failed : (run no_start (ready none none (some "t-1"))).1 ≡ failed_at step_7
unfolding run ready
no_start-failed = refl

run-IsRestored_example : IsRestored (run no_start (ready none none (some "t-1"))).0
run-IsRestored_example =
    run-IsRestored no_start none none (some "t-1") step_7 (inl refl) no_start-failed refl refl refl
      refl refl refl refl refl

-- A line of the log, at the second 50, after a poll that could not read it.
abbrev message_rest : Text
message_rest = 44 ∷ startup_message ++ (34 ∷ 125 ∷ [])

wait_for_startup_log-confirms_example :
    wait_for_startup_log
      (λ t. some 50)
      40
      (none
        ∷ some ((123 ∷ 125 ∷ []) ++ (10 ∷ (log_line (53 ∷ 48 ∷ []) message_rest ++ (10 ∷ []))))
        ∷ [])
    ≡ true
wait_for_startup_log-confirms_example =
    wait_for_startup_log-confirms (λ t. some 50) 40 (none ∷ []) [] (123 ∷ 125 ∷ []) (53 ∷ 48 ∷ [])
      message_rest [] 50 refl refl refl refl (omega arith) (omega arith)
