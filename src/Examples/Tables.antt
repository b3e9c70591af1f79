-- ===== src/Examples/Tables.antt =====
-- The table of jobs while one job is dispatched and run, and the staging of an upgrade.
use open_v_center_agent_hype.Base.{
  true, false, none, some, List, [], ◌∷◌, ◌≡◌, arith, ◌==◌, text_cases, inl, inr, sym,
  tally-single-le,
}
use open_v_center_agent_hype.Tasks.Response.{terminal_status}
use open_v_center_agent_hype.Worker.{execute_artifact_download}
use open_v_center_agent_hype.JobStore.Life.{UniqueIds, Refines, worker, dispatcher as by_dispatcher}
use open_v_center_agent_hype.Lifecycle.{unchanged, and_then, evaluates, works, Changes-Refines}
use open_v_center_agent_hype.Queue.Dispatcher.{evaluate_and_dispatch}
use open_v_center_agent_hype.Worker.{run_job}
use open_v_center_agent_hype.Download.{answers, missing}
use open_v_center_agent_hype.Staging.{World, Disk, handle_agent_upgrade, progress_response}
use open_v_center_agent_hype.Staging.Outcomes.{Told, execute-handle_agent_upgrade}
use open_v_center_agent_hype.Examples.Fixtures.{edits, idle, env, dispatcher, edit, second_edit}
use open_v_center_agent_hype.Examples.Workers.{good}
use open_v_center_agent_hype.JobStore.{JobRecord, has_id}

edits-UniqueIds : UniqueIds edits
edits-UniqueIds id = elim (text_cases "j1" id) [
  | inl e ↦ rw (sym e) (omega arith)
  | inr e ↦
      let other : (edit.job_id == id) ≡ false = e in
      ground (arith, tally-single-le (has_id id) second_edit)
]

abbrev dispatched : List JobRecord
dispatched = (evaluate_and_dispatch env (dispatcher edits idle)).store

Changes-Refines_example :
    Refines (worker ∷ by_dispatcher ∷ []) edits (run_job good dispatched dispatched "j1").store
Changes-Refines_example =
    Changes-Refines
      (and_then (and_then unchanged (evaluates env idle 2 false)) (works good dispatched "j1"))
      edits-UniqueIds

-- The new binary is three bytes in two reads.
abbrev world : World
world = record {
  payload =
      some (record {
        download_url = "https://ovc/agent";
        checksum_sha256 = "ab12";
        version = "2.0.0";
      });
  agent_version = "1.0.0";
  knows_dir = true;
  head = some (200, some 3);
  free_space = some 4096;
  creates_tmp = true;
  reply =
      answers 200
        (record { bytes = 77 ∷ 90 ∷ []; at = 1 } ∷ record { bytes = 1 ∷ []; at = 31 } ∷ []) true;
  stats = true;
  reads_tmp = true;
  sha256 = λ b. "AB12";
  equal_fold = λ s t. true;
  placing = record { makes_dirs = true; removes = true; renames = true };
  removes_tmp = true;
  writes_pending = true;
  now_text = "now";
}

abbrev disk : Disk
disk = record { tmp = none; binary = missing; pending = none }

execute-handle_agent_upgrade_example :
    Told world "t-1" disk
      (terminal_status (
        execute_artifact_download
          (progress_response world "t-1" 0 "")
          (handle_agent_upgrade world "t-1" disk).responses))
      (handle_agent_upgrade world "t-1" disk).disk
execute-handle_agent_upgrade_example =
    execute-handle_agent_upgrade world "t-1" disk (progress_response world "t-1" 0 "")
