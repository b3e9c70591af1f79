-- ===== src/Batch/Summary.antt =====
-- vm_management.go: what a batch's loop returns and reports.
use mathlib.Core.List.{append_assoc, append-nil}
use mathlib.Core.Path.{subst}
use open_v_center_agent_hype.Base.{
  ℕ, zero, suc, ◌+◌, ◌*◌, ◌/◌, ◌≤◌, ◌<◌, ◌≡◌, ◌↔◌, ◌⊎◌, inl, inr, refl, ap, String, Bool, true,
  false, not, ◌&&◌, ◌==◌, List, [], ◌∷◌, ◌++◌, map, length, tally, arith, if_elim, eq_iff, ◌∙◌, sym,
}
use open_v_center_agent_hype.Batch.{
  VmBatchTarget, VmBatchItemResult, VmBatchResult, Report, World, Batch, refuses, interrupted,
  finishes, with_report, process_at, counted, is_last, batch_loop, derive_vm_batch_status, Refused,
  Checked, refused, accepted, validate, handle_vm_batch_action, run_checked, no_machines,
  message_of,
}

abbrev pub is_ok : VmBatchItemResult → Bool
is_ok item = item.status == "ok"

le_cases : (i k : ℕ) → i ≤ k → (i ≡ k) ⊎ (suc i ≤ k)
le_cases i k h = ground arith

module _ (w : World) (action : String) where
  -- The items of the machines, in their order, from a place on.
  unfoldable pub items : ℕ → List VmBatchTarget → List VmBatchItemResult
  items i [] = []
  items i (t ∷ ts) = (process_at w action i t).0 ∷ items (suc i) ts

  -- The percentages of a batch of so many machines, from a place on.
  unfoldable pub percents : ℕ → ℕ → List VmBatchTarget → List ℕ
  percents total i [] = []
  percents total i (t ∷ ts) = suc i * 100 / total ∷ percents total (suc i) ts

  -- The rest of the loop, from a place and the result so far.
  pub record Completes (i : ℕ) (so_far : VmBatchResult) (ts : List VmBatchTarget)
      (result : VmBatchResult) (reports : List Report) : Type 0 where
    pub same_action : result.action ≡ so_far.action
    pub same_total : result.total ≡ so_far.total
    pub in_order : result.vms ≡ so_far.vms ++ items i ts
    pub counts_ok : result.succeeded ≡ so_far.succeeded + tally is_ok (items i ts)
    pub counts_all : result.succeeded + result.failed ≡ so_far.succeeded + so_far.failed + length ts
    pub aggregate : result.status ≡ derive_vm_batch_status result.succeeded result.failed
    pub reported : map (λ r. r.item) reports ≡ items i ts
    pub percentages : map (λ r. r.percent) reports ≡ percents so_far.total i ts

  pub data LoopEnds (i : ℕ) (so_far : VmBatchResult) (ts : List VmBatchTarget)
      : Batch → Type 0 where
    cuts :
        (k : ℕ) (reports : List Report)
        → i ≤ k
        → suc k < i + length ts
        → w.interrupts k ≡ true
        → length reports + i ≡ suc k
        → LoopEnds i so_far ts (interrupted (suc k) reports)
    completes :
        (result : VmBatchResult) (reports : List Report)
        → ((k : ℕ) → i ≤ k → suc k < i + length ts → w.interrupts k ≡ false)
        → Completes i so_far ts result reports
        → LoopEnds i so_far ts (finishes result reports)

  -- What counting an item does, whatever its status.
  pub record Counts (item : VmBatchItemResult) (so_far result : VmBatchResult) : Type 0 where
    pub action_kept : result.action ≡ so_far.action
    pub total_kept : result.total ≡ so_far.total
    pub appended : result.vms ≡ so_far.vms ++ item ∷ []
    pub ok_counted : result.succeeded ≡ so_far.succeeded + tally is_ok (item ∷ [])
    pub all_counted : result.succeeded + result.failed ≡ suc (so_far.succeeded + so_far.failed)

  counted-Counts :
      (item : VmBatchItemResult) (so_far : VmBatchResult)
      → Counts item so_far (counted w item so_far)
  counted-Counts item so_far = ground arith

  tally-cons :
      (item : VmBatchItemResult) (rest : List VmBatchItemResult)
      → tally is_ok (item ∷ rest) ≡ tally is_ok (item ∷ []) + tally is_ok rest
  tally-cons item rest = ground arith

  Completes-add :
      (i : ℕ) (so_far so_far' : VmBatchResult) (t : VmBatchTarget) (ts : List VmBatchTarget)
      (result : VmBatchResult) (reports : List Report) (r : Report)
      → so_far.action ≡ action
      → r.item ≡ (process_at w action i t).0
      → r.percent ≡ suc i * 100 / so_far.total
      → Counts (process_at w action i t).0 so_far so_far'
      → Completes (suc i) so_far' ts result reports
      → Completes i so_far (t ∷ ts) result (r ∷ reports)
  unfolding items percents
  Completes-add i so_far so_far' t ts result reports r same item percent n c = record {
    same_action = c.same_action ∙ n.action_kept;
    same_total = c.same_total ∙ n.total_kept;
    in_order =
        c.in_order
        ∙ ap (λ v. v ++ items (suc i) ts) n.appended
        ∙ append_assoc so_far.vms ((process_at w action i t).0 ∷ []) (items (suc i) ts);
    counts_ok =
        let split = tally-cons (process_at w action i t).0 (items (suc i) ts) in
        let ok = c.counts_ok in let one = n.ok_counted in omega arith;
    counts_all = let all = c.counts_all in let one = n.all_counted in omega arith;
    aggregate = c.aggregate;
    reported = rw (item, c.reported) refl;
    percentages = rw (percent, c.percentages, n.total_kept) refl;
  }

  add-LoopEnds :
      (i : ℕ) (so_far so_far' : VmBatchResult) (t : VmBatchTarget) (ts : List VmBatchTarget)
      (r : Report) {b : Batch}
      → so_far.action ≡ action
      → r.item ≡ (process_at w action i t).0
      → r.percent ≡ suc i * 100 / so_far.total
      → (not (is_last w ts) && w.interrupts i) ≡ false
      → Counts (process_at w action i t).0 so_far so_far'
      → LoopEnds (suc i) so_far' ts b
      → LoopEnds i so_far (t ∷ ts) (with_report r b)
  add-LoopEnds i so_far so_far' t ts r same item percent go n (cuts k reports a b c d) =
      cuts k (r ∷ reports) (omega arith) (ground arith) c (ground arith)
  add-LoopEnds i so_far so_far' t ts r same item percent go n (completes result reports h c) =
      completes result (r ∷ reports) (uncut ts go h)
        (Completes-add i so_far so_far' t ts result reports r same item percent n c)
    where
      uncut :
          (ts : List VmBatchTarget)
          → (not (is_last w ts) && w.interrupts i) ≡ false
          → ((k : ℕ) → suc i ≤ k → suc k < suc i + length ts → w.interrupts k ≡ false)
          → (k : ℕ) → i ≤ k
          → suc k < i + suc (length ts)
          → w.interrupts k ≡ false
      uncut [] go h k a b = ground arith
      uncut (t ∷ ts) go h k a b = elim (le_cases i k a) [
        | inl e ↦ rw (sym e) go
        | inr l ↦ h k l (omega arith)
      ]

  batch_loop-LoopEnds :
      (i : ℕ) (so_far : VmBatchResult) (ts : List VmBatchTarget)
      → so_far.action ≡ action
      → LoopEnds i so_far ts (batch_loop w i so_far ts)
  unfolding batch_loop items percents
  batch_loop-LoopEnds i so_far [] same =
      completes _ [] (λ k a b. ground arith)
        (record {
          same_action = refl;
          same_total = refl;
          in_order = sym (append-nil so_far.vms);
          counts_ok = omega arith;
          counts_all = omega arith;
          aggregate = refl;
          reported = refl;
          percentages = refl;
        })
  batch_loop-LoopEnds i so_far (t ∷ ts) same =
      let item = (process_at w so_far.action i t).0 in
      let next = counted w item so_far in
      let n = counted-Counts item so_far in
      let n' = subst (λ a. Counts (process_at w a i t).0 so_far next) same n in
      let report : Report = record {
        percent = suc i * 100 / so_far.total;
        message = message_of item;
        item = item;
        vm_state = (process_at w so_far.action i t).1;
      } in
      if_elim (λ b. LoopEnds i so_far (t ∷ ts) (with_report report b))
        (not (is_last w ts) && w.interrupts i) (λ e. cut_here ts e)
        (λ e.
          add-LoopEnds i so_far next t ts report same (ap (λ a. (process_at w a i t).0) same) refl e
            n' (batch_loop-LoopEnds (suc i) next ts (n.action_kept ∙ same)))
    where
      cut_here :
          {report : Report} (ts : List VmBatchTarget)
          → (not (is_last w ts) && w.interrupts i) ≡ true
          → LoopEnds i so_far (t ∷ ts) (interrupted (suc i) (report ∷ []))
      cut_here [] e = ground arith
      cut_here (u ∷ us) e = cuts i _ (omega arith) (ground arith) e (ground arith)

  -- The first result of an accepted batch.
  abbrev first_result : List VmBatchTarget → VmBatchResult
  first_result ts = record {
    action = action;
    status = "";
    total = length ts;
    succeeded = 0;
    failed = 0;
    vms = [];
  }

  -- What a batch is to return and to report, of the machines it accepted.
  pub record Summarises (ts : List VmBatchTarget) (result : VmBatchResult) (reports : List Report)
      : Type 0 where
    pub results_in_order : result.vms ≡ items 0 ts
    pub total_is : result.total ≡ length ts
    pub succeeded_is : result.succeeded ≡ tally is_ok (items 0 ts)
    pub adds_up : result.succeeded + result.failed ≡ length ts
    pub completed_iff : (result.status ≡ "completed") ↔ (result.succeeded ≡ length ts)
    pub failed_iff : (result.status ≡ "failed") ↔ ((result.succeeded ≡ 0) × (1 ≤ length ts))
    pub items_reported : map (λ r. r.item) reports ≡ items 0 ts
    pub percents_reported : map (λ r. r.percent) reports ≡ percents (length ts) 0 ts

  pub data BatchEnds (vms : List VmBatchTarget) : Batch → Type 0 where
    is_empty : vms ≡ [] → BatchEnds vms (refuses no_machines)
    is_refused : (e : Refused) → validate 0 [] vms ≡ refused e → BatchEnds vms (refuses e)
    is_cut :
        (ts : List VmBatchTarget) (k : ℕ) (reports : List Report)
        → validate 0 [] vms ≡ accepted ts
        → suc k < length ts
        → w.interrupts k ≡ true
        → length reports ≡ suc k
        → BatchEnds vms (interrupted (suc k) reports)
    is_done :
        (ts : List VmBatchTarget) (result : VmBatchResult) (reports : List Report)
        → validate 0 [] vms ≡ accepted ts
        → ((k : ℕ) → suc k < length ts → w.interrupts k ≡ false)
        → Summarises ts result reports
        → BatchEnds vms (finishes result reports)

  derive_lem :
      (s f : ℕ)
      → ((derive_vm_batch_status s f ≡ "completed") ↔ (f ≡ 0))
        × ((derive_vm_batch_status s f ≡ "failed") ↔ ((s ≡ 0) × (1 ≤ f)))
  unfolding derive_vm_batch_status
  derive_lem s zero = ground (arith, eq_iff "completed" "failed")
  derive_lem zero (suc f) = ground (arith, eq_iff "failed" "completed")
  derive_lem (suc s) (suc f) =
      ground (arith, eq_iff "partial" "completed", eq_iff "partial" "failed")

  Completes-Summarises :
      (ts : List VmBatchTarget) (result : VmBatchResult) (reports : List Report)
      → Completes 0 (first_result ts) ts result reports
      → Summarises ts result reports
  Completes-Summarises ts result reports c =
      let d = derive_lem result.succeeded result.failed in
      let a : result.succeeded + result.failed ≡ length ts = let h = c.counts_all in omega arith in
      let s = c.aggregate in
      record {
        results_in_order = c.in_order;
        total_is = c.same_total;
        succeeded_is = let h = c.counts_ok in omega arith;
        adds_up = a;
        completed_iff = rw s (ground arith);
        failed_iff = rw s (ground arith);
        items_reported = c.reported;
        percents_reported = c.percentages;
      }

  -- A batch ends in one of four ways. It is refused as empty, or by the validation; or the context ends in
  -- a delay after k + 1 machines that are not all, each of them reported, and no result is returned; or it
  -- finishes, where the results and the reports are the machines' in their order, the percentages are those
  -- of the places, the successes are counted exactly and make up the total with the failures, and the status
  -- is completed when all succeeded and failed when none did.
  pub handle_vm_batch_action-BatchEnds :
      (vms : List VmBatchTarget) → BatchEnds vms (handle_vm_batch_action w action vms)
  unfolding handle_vm_batch_action
  handle_vm_batch_action-BatchEnds [] = is_empty refl
  handle_vm_batch_action-BatchEnds (t ∷ ts) = checked (validate 0 [] (t ∷ ts)) refl
    where
      ended :
          (out : List VmBatchTarget) {b : Batch}
          → validate 0 [] (t ∷ ts) ≡ accepted out
          → LoopEnds 0 (first_result out) out b
          → BatchEnds (t ∷ ts) b
      ended out e (cuts k reports a b c d) = is_cut out k reports e (omega arith) c (omega arith)
      ended out e (completes result reports h c) =
          is_done out result reports e (λ k l. h k (omega arith) (omega arith))
            (Completes-Summarises out result reports c)

      checked :
          (c : Checked) → validate 0 [] (t ∷ ts) ≡ c → BatchEnds (t ∷ ts) (run_checked w action c)
      checked (refused e) h = is_refused e h
      checked (accepted out) h = ended out h (batch_loop-LoopEnds 0 (first_result out) out refl)
