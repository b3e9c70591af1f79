-- ===== src/JobStore/Orphans.antt =====
-- queries.go: what the recovery at start-up makes of one job among the others.
use open_v_center_agent_hype.Base.{
  All-select, sym, ◌∙◌, ℕ, String, ◌≡◌, ◌≢◌, refl, ◌⊎◌, inl, inr, Bool, true, false, Option, none,
  some, List, [], ◌∷◌, ◌==◌, nat_eq, if◌then◌else◌, if_elim, text_cases, any, select, All, arith,
  eq_iff, Option-cases,
}
use open_v_center_agent_hype.JobStore.Rows.{
  JobRecord, Fields, Result, ok, err, find, has_id, running, failed, update_status,
}
use open_v_center_agent_hype.JobStore.Query.{sort_by_created, list_by_status}
use open_v_center_agent_hype.JobStore.Recovery.{
  recover_job, recover_loop, recover_orphaned_jobs, mark_job_failed, or_rows,
}
use open_v_center_agent_hype.JobStore.Swap.{
  swapped, update_status_found, update_status_cases, update_status-swaps, find-rewrite, find_id,
}
use open_v_center_agent_hype.JobStore.Listing.{any-sort_by_created, All-sort_by_created}

listed :
    (r : JobRecord) (rows : List JobRecord)
    → find r.job_id rows ≡ some r
    → r.status ≡ running
    → any (has_id r.job_id) (select (λ s. s.status == running) rows) ≡ true
unfolding find
listed r [] h e = cc
listed r (s ∷ rows) h e =
    ground (arith, eq_iff r.status running, eq_iff s.job_id r.job_id, listed r rows)

module _ (is_process_alive : ℕ → Bool) (dead_message : ℕ → String) (fault : String → Bool)
    (now : String) where
  -- Why a running job is orphaned, if it is.
  unfoldable pub verdict : JobRecord → Option String
  verdict r =
      if nat_eq r.worker_pid 0
      then some "orphaned job: no worker PID recorded"
      else if is_process_alive r.worker_pid
      then none
      else some (dead_message r.worker_pid)

  abbrev pub lost_fields : String → Fields
  lost_fields message = record {
    started_at = none;
    completed_at = some now;
    worker_pid = none;
    error_message = some message;
  }

  abbrev act : Option String → JobRecord → List JobRecord → List JobRecord
  act none job rows = rows
  act (some message) job rows =
      or_rows (mark_job_failed (fault job.job_id) rows now job.job_id message) rows

  abbrev recovery : JobRecord → List JobRecord → List JobRecord
  recovery = recover_job is_process_alive dead_message fault now

  recover_job-eq :
      (job : JobRecord) (rows : List JobRecord) → recovery job rows ≡ act (verdict job) job rows
  unfolding recover_job verdict
  recover_job-eq job rows = ground arith

  -- A job of another id is left alone, whatever the attempt on this one gives.
  act_other :
      (o : Option String) (job : JobRecord) (rows : List JobRecord) (id : String)
      → id ≢ job.job_id
      → find id (act o job rows) ≡ find id rows
  unfolding mark_job_failed
  act_other none job rows id n = refl
  act_other (some message) job rows id n =
      attempt
        (update_status (fault job.job_id) rows job.job_id running failed (lost_fields message)) refl
    where
      attempt :
          (x : Result (List JobRecord))
          → update_status (fault job.job_id) rows job.job_id running failed (lost_fields message)
            ≡ x
          → find id (or_rows x rows) ≡ find id rows
      attempt (err e) u = refl
      attempt (ok new) u =
          let (_, _, _, _, others) =
            update_status-swaps _ rows job.job_id running failed (lost_fields message) u in
          others id n

  -- So is a job that no longer runs.
  act_settled :
      (o : Option String) (job : JobRecord) (rows : List JobRecord) {r : JobRecord}
      → find job.job_id rows ≡ some r
      → r.status ≢ running
      → act o job rows ≡ rows
  unfolding mark_job_failed
  act_settled none job rows h n = refl
  act_settled (some message) job rows {r} h n =
      attempt
        (update_status (fault job.job_id) rows job.job_id running failed (lost_fields message)) refl
    where
      attempt :
          (x : Result (List JobRecord))
          → update_status (fault job.job_id) rows job.job_id running failed (lost_fields message)
            ≡ x
          → or_rows x rows ≡ rows
      attempt (err e) u = refl
      attempt (ok new) u =
          let (s, e, was, _) =
            update_status_cases _ rows job.job_id running failed (lost_fields message) u in
          absurd (ground (arith, h, e, was, n))

  act_hits :
      (message : String) (job : JobRecord) (rows : List JobRecord) {r : JobRecord}
      → fault job.job_id ≡ false
      → find job.job_id rows ≡ some r
      → r.status ≡ running
      → find job.job_id (act (some message) job rows)
        ≡ some (swapped r failed (lost_fields message))
  unfolding mark_job_failed swapped
  act_hits message job rows {r} fine h was = rw fine (
      rw (update_status_found rows job.job_id running failed (lost_fields message) h was) (
        find-rewrite job.job_id (swapped r failed (lost_fields message)) rows
          (find_id job.job_id rows h) h))

  module _ (r : JobRecord) where
    abbrev IsCopy : JobRecord → Type 0
    IsCopy s = s.job_id ≡ r.job_id → s ≡ r

    -- A row that recovery has nothing to do with stays through the loop.
    loop_keeps :
        (jobs rows : List JobRecord) (now_is : JobRecord)
        → All IsCopy jobs
        → find r.job_id rows ≡ some now_is
        → (now_is.status ≢ running) ⊎ (verdict r ≡ none)
        → find r.job_id (recover_loop is_process_alive dead_message fault now jobs rows)
          ≡ some now_is
    unfolding recover_loop
    loop_keeps [] rows s c h why = h
    loop_keeps (job ∷ jobs) rows s (copy, c) h why =
        loop_keeps jobs (recovery job rows) s c (rw (recover_job-eq job rows) (kept why)) why
      where
        kept :
            (s.status ≢ running) ⊎ (verdict r ≡ none)
            → find r.job_id (act (verdict job) job rows) ≡ some s
        kept why = elim (text_cases r.job_id job.job_id) [
          | inr apart ↦
              act_other (verdict job) job rows r.job_id
                (λ e. ground (arith, eq_iff r.job_id job.job_id, apart, e))
              ∙ h
          | inl same ↦ elim why [
            | inl n ↦ rw (act_settled (verdict job) job rows (rw same at h) n) h
            | inr v ↦ rw (copy (sym same), v) h
          ]
        ]

    loop_hits :
        (message : String) (jobs rows : List JobRecord)
        → fault r.job_id ≡ false
        → verdict r ≡ some message
        → r.status ≡ running
        → All IsCopy jobs
        → any (has_id r.job_id) jobs ≡ true
        → find r.job_id rows ≡ some r
        → find r.job_id (recover_loop is_process_alive dead_message fault now jobs rows)
          ≡ some (swapped r failed (lost_fields message))
    unfolding recover_loop
    loop_hits message [] rows fine v was c a h = cc
    loop_hits message (job ∷ jobs) rows fine v was (copy, c) a h =
        elim (text_cases job.job_id r.job_id) [
          | inr apart ↦
              loop_hits message jobs (recovery job rows) fine v was c (ground (arith, a, apart)) (
                rw (recover_job-eq job rows) (
                  act_other (verdict job) job rows r.job_id
                    (λ e. ground (arith, eq_iff job.job_id r.job_id, apart, e))
                  ∙ h))
          | inl same ↦
              loop_keeps jobs (recovery job rows) (swapped r failed (lost_fields message)) c
                (rw (recover_job-eq job rows, copy same, v) (act_hits message r rows fine h was))
                (inl now_failed)
        ]
      where
        now_failed : (swapped r failed (lost_fields message)).status ≢ running
        now_failed e = unfold swapped in ground (arith, eq_iff "failed" "running", e)

  judged : JobRecord → Option String → JobRecord
  judged r none = r
  judged r (some message) = swapped r failed (lost_fields message)

  -- What recovery is to make of a job.
  unfoldable pub recovered : JobRecord → JobRecord
  unfolding judged
  recovered r = if r.status == running then judged r (verdict r) else r

  -- Where the database answers the listing and does not refuse the job's update, and no other row
  -- has the job's id, recovery succeeds and leaves the job as it should be: failed with the reason,
  -- if it runs and its process is not recorded or is dead, and otherwise as it was. What happens
  -- to the other jobs plays no part.
  pub recover_orphaned_jobs-recovers :
      (rows : List JobRecord) (r : JobRecord)
      → fault r.job_id ≡ false
      → find r.job_id rows ≡ some r
      → All (λ s. s.job_id ≡ r.job_id → s ≡ r) rows
      → (new : List JobRecord) × (recover_orphaned_jobs is_process_alive dead_message fault now
            false rows
          ≡ ok new)
        × (find r.job_id new ≡ some (recovered r))
  unfolding recover_orphaned_jobs list_by_status recovered
  recover_orphaned_jobs-recovers rows r fine found unique = (
    recover_loop is_process_alive dead_message fault now jobs rows,
    refl,
    if_elim Recovered (r.status == running)
        (λ e. elim (Option-cases (verdict r)) [
          | inl v ↦ rw v (loop_keeps r jobs rows r copies found (inr v))
          | inr (message, v) ↦ rw v (
              loop_hits r message jobs rows fine v ((eq_iff r.status running).0 e) copies
                (any-sort_by_created (has_id r.job_id) (select (λ s. s.status == running) rows)
                  (listed r rows found ((eq_iff r.status running).0 e)))
                found)
        ])
        λ n.
          loop_keeps r jobs rows r copies found
            (inl (λ e. ground (arith, eq_iff r.status running, n, e))),
  )
    where
      jobs : List JobRecord
      jobs = sort_by_created (select (λ s. s.status == running) rows)

      copies : All (λ s. s.job_id ≡ r.job_id → s ≡ r) jobs
      copies = All-sort_by_created _ _ (All-select _ (λ s. s.status == running) rows unique)

      Recovered : JobRecord → Type 0
      Recovered s =
          find r.job_id (recover_loop is_process_alive dead_message fault now jobs rows) ≡ some s
