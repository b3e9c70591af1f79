-- ===== src/Examples/Race.antt =====
-- A worker that reads its job before the dispatcher marks it: worker.go and dispatcher.go.
use open_v_center_agent_hype.Base.{refl, ◌≡◌, ◌∷◌, [], some, false, List}
use open_v_center_agent_hype.JobStore.{
  JobRecord, find, running, failed, update_status, rewrite, set_columns, apply_fields,
}
use open_v_center_agent_hype.Queue.Monitor.{
  handle_termination, crash_message, on_finish, on_worker_failed,
}
use open_v_center_agent_hype.Queue.Dispatcher.{Dispatcher, dispatch, entry_of}
use open_v_center_agent_hype.Queue.Rules.{Spawned}
use open_v_center_agent_hype.Worker.{run_job}
use open_v_center_agent_hype.Worker.Race.{run_job_too_early}
use open_v_center_agent_hype.Examples.Fixtures.{env, dispatcher, edit, second_edit, edits, idle}
use open_v_center_agent_hype.Examples.Workers.{good}

abbrev waiting : Dispatcher
waiting = dispatcher edits idle

-- The store after the dispatch.
abbrev after : List JobRecord
after =
    record edit { status = running; started_at = some "2026-01-01T10:00:05Z"; worker_pid = 7 }
    ∷ second_edit
    ∷ []

edit-Spawned : Spawned env edit waiting (dispatch env edit waiting)
unfolding dispatch update_status find rewrite set_columns apply_fields
edit-Spawned = record { pid = 7; store = after; spawned = refl; swapped = refl; result = refl }

run_job_too_early_example :
    (run_job good edits edit-Spawned.store "j1"
      ≡ record { store = edit-Spawned.store; effects = []; exit_code = 1 })
    × ((r : JobRecord) × (r.status ≡ failed)
        × (find "j1"
              (handle_termination false false "now"
                (entry_of env edit edit-Spawned.pid)
                edit-Spawned.store
                (dispatch env edit waiting).monitor).store
            ≡ some r)
        × ((handle_termination false false "now"
              (entry_of env edit edit-Spawned.pid)
              edit-Spawned.store
              (dispatch env edit waiting).monitor).callbacks
            ≡ on_finish ∷ on_worker_failed (entry_of env edit edit-Spawned.pid) crash_message ∷ []))
run_job_too_early_example = run_job_too_early good env waiting edit "now" edit-Spawned
