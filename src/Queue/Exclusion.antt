-- ===== src/Queue/Exclusion.antt =====
-- dispatcher.go: mutual exclusion between the jobs that run at once.
use open_v_center_agent_hype.Base.{
  ◌≤◌, ◌≡◌, refl, ◌⊎◌, inl, inr, String, false, tally, any, arith, tally-any, text_cases,
}
use open_v_center_agent_hype.JobStore.{JobRecord}
use open_v_center_agent_hype.Queue.Classifier.{
  JobClass, read, write, host_write, download, classify, is_write, is_host_write,
}
use open_v_center_agent_hype.Queue.Monitor.{host_writes, writes_vm}
use open_v_center_agent_hype.Queue.Dispatcher.{Env, Dispatcher, dispatch, evaluate_and_dispatch}
use open_v_center_agent_hype.Queue.Rules.{
  Allowed, tally-dispatch-le, tally-dispatch-le_other, evaluate_keeps,
}

-- At most one write job runs on each machine.
abbrev pub OneWritePerVm : Dispatcher → Type 0
OneWritePerVm d = (vm : String) → tally (writes_vm vm) d.monitor.workers ≤ 1

abbrev pub OneHostWrite : Dispatcher → Type 0
OneHostWrite d = tally host_writes d.monitor.workers ≤ 1

module _ (env : Env) where
  write_free :
      (job : JobRecord) (d : Dispatcher) (c : JobClass)
      → classify job ≡ c
      → Allowed c job d
      → (is_write c ≡ false) ⊎ (any (writes_vm job.vm_identifier) d.monitor.workers ≡ false)
  write_free job d read e a = inl refl
  write_free job d write e a = inr a
  write_free job d host_write e a = inl refl
  write_free job d download e a = inl refl

  host_free :
      (job : JobRecord) (d : Dispatcher) (c : JobClass)
      → classify job ≡ c
      → Allowed c job d
      → (is_host_write c ≡ false) ⊎ (any host_writes d.monitor.workers ≡ false)
  host_free job d read e a = inl refl
  host_free job d write e a = inl refl
  host_free job d host_write e a = inr a
  host_free job d download e a = inl refl

  dispatch-OneWritePerVm :
      (job : JobRecord) (d : Dispatcher)
      → Allowed (classify job) job d
      → OneWritePerVm d
      → OneWritePerVm (dispatch env job d)
  dispatch-OneWritePerVm job d a h vm = elim (write_free job d (classify job) refl a) [
    | inl other ↦
        omega (arith, h vm, tally-dispatch-le_other env (writes_vm vm) job d (λ pid. rw other refl))
    | inr free ↦ elim (text_cases job.vm_identifier vm) [
      | inl same ↦ omega (
        arith,
        tally-dispatch-le env (writes_vm vm) job d,
        tally-any (writes_vm vm) d.monitor.workers (rw same at free),
      )
      | inr apart ↦ omega (
        arith,
        h vm,
        tally-dispatch-le_other env (writes_vm vm) job d (λ pid. ground (arith, apart)),
      )
    ]
  ]

  dispatch-OneHostWrite :
      (job : JobRecord) (d : Dispatcher)
      → Allowed (classify job) job d
      → OneHostWrite d
      → OneHostWrite (dispatch env job d)
  dispatch-OneHostWrite job d a h = elim (host_free job d (classify job) refl a) [
    | inl other ↦ omega (arith, tally-dispatch-le_other env host_writes job d (λ pid. other))
    | inr free ↦ omega (
      arith,
      tally-dispatch-le env host_writes job d,
      tally-any host_writes d.monitor.workers free,
    )
  ]

  -- If at most one write job runs on each machine before an evaluation, so it is after it, however
  -- many jobs the evaluation dispatches.
  pub evaluate-OneWritePerVm :
      (d : Dispatcher) → OneWritePerVm d → OneWritePerVm (evaluate_and_dispatch env d)
  evaluate-OneWritePerVm = evaluate_keeps env OneWritePerVm dispatch-OneWritePerVm

  -- If at most one host-wide write runs before an evaluation, so it is after it.
  pub evaluate-OneHostWrite :
      (d : Dispatcher) → OneHostWrite d → OneHostWrite (evaluate_and_dispatch env d)
  evaluate-OneHostWrite = evaluate_keeps env OneHostWrite dispatch-OneHostWrite
