-- ===== src/Examples/Queue.antt =====
-- Evaluations of the queue.
use open_v_center_agent_hype.Base.{
  eq_iff, some, [], false, inl, ◌≢◌, ◌∷◌, arith, refl, ◌≤◌, ◌≡◌, tally,
}
use open_v_center_agent_hype.JobStore.{sort_by_created, ok, list_by_status, find, queued}
use open_v_center_agent_hype.Queue.Classifier.{classify, write, host_write}
use open_v_center_agent_hype.Queue.Rules.{Allowed}
use open_v_center_agent_hype.Queue.Monitor.{WorkerEntry, writes_vm}
use open_v_center_agent_hype.Queue.Dispatcher.{Dispatcher, evaluate_and_dispatch}
use open_v_center_agent_hype.Queue.Exclusion.{OneWritePerVm, evaluate-OneWritePerVm}
use open_v_center_agent_hype.Queue.Progress.{IsRunning, evaluate-starts_head}
use open_v_center_agent_hype.Queue.Mixing.{IsReady, Mixed, evaluate-mixes_writes}
use open_v_center_agent_hype.Queue.System.{IsSafe, Reach-IsSafe, next, here, evaluates}
use open_v_center_agent_hype.Examples.Fixtures.{
  worker, env, dispatcher, edits, edit_and_drain, busy, idle, edit, second_edit, drain,
}

busy-OneWritePerVm : OneWritePerVm (dispatcher edits busy)
busy-OneWritePerVm vm = ground arith

busy-IsSafe : IsSafe 2 (dispatcher edits busy)
busy-IsSafe = record {
  configured = refl;
  bounded = omega arith;
  one_write_per_vm = busy-OneWritePerVm;
  one_host_write = omega arith;
}

-- An evaluation, then the end of the worker.
Reach-IsSafe_example : IsSafe 2 (evaluate_and_dispatch env (dispatcher edits busy))
Reach-IsSafe_example =
    Reach-IsSafe 2 (next here (evaluates env (dispatcher edits busy))) busy-IsSafe

evaluate-OneWritePerVm_example :
    tally (writes_vm "vm1") (evaluate_and_dispatch env (dispatcher edits busy)).monitor.workers ≤ 1
evaluate-OneWritePerVm_example =
    evaluate-OneWritePerVm env (dispatcher edits busy) busy-OneWritePerVm "vm1"

list-edits : list_by_status false edits queued ≡ ok edits
unfolding list_by_status sort_by_created
list-edits = refl

list-edit_and_drain : list_by_status false edit_and_drain queued ≡ ok edit_and_drain
unfolding list_by_status sort_by_created
list-edit_and_drain = refl

classify-edit : classify edit ≡ write
unfolding classify
classify-edit = refl

classify-drain : classify drain ≡ host_write
unfolding classify
classify-drain = refl

edit_not_host : classify edit ≢ host_write
edit_not_host e = ground (arith, classify-edit, e)

edit-Allowed : Allowed (classify edit) edit (dispatcher edits idle)
edit-Allowed = rw classify-edit

find-edit : find "j1" edits ≡ some edit
unfolding find
find-edit = refl

evaluate-starts_head_example : IsRunning "j1" 7 (evaluate_and_dispatch env (dispatcher edits idle))
evaluate-starts_head_example =
    evaluate-starts_head env (dispatcher edits idle) edit (second_edit ∷ []) {row = edit} {pid = 7}
      refl refl refl list-edits edit_not_host edit-Allowed find-edit refl refl refl

edit-IsReady : IsReady env (dispatcher edit_and_drain idle) edit
unfolding find
edit-IsReady = record { pid = 7; waits = refl; queued_lem = refl; spawns = refl; accepted = refl }

drain-IsReady : IsReady env (dispatcher edit_and_drain idle) drain
unfolding find
drain-IsReady = record { pid = 7; waits = refl; queued_lem = refl; spawns = refl; accepted = refl }

drain_not_edit : drain.job_id ≢ edit.job_id
drain_not_edit e = ground (arith, eq_iff "j3" "j1", e)

evaluate-mixes_writes_example : Mixed (evaluate_and_dispatch env (dispatcher edit_and_drain idle))
evaluate-mixes_writes_example =
    evaluate-mixes_writes env (dispatcher edit_and_drain idle) edit drain refl drain_not_edit
      edit-IsReady drain-IsReady refl (omega arith) list-edit_and_drain
      (inl (classify-edit, classify-drain))

-- The edit waits while the host is suspended, and the host waits while the edit runs.
abbrev suspending : WorkerEntry
suspending = record worker {
  job_id = "j3";
  task_type = "host_management";
  action = "suspend_drain";
  vm_identifier = "";
  job_class = host_write;
}

abbrev suspended : Dispatcher
suspended = dispatcher edits (record { workers = suspending ∷ []; default_timeout = 300 })
