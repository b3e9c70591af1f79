-- ===== src/JobStore/Life/Steps.antt =====
-- sqlite.go, queries.go: the operations of the store as steps of the jobs' lives.
use open_v_center_agent_hype.Base.{
  nat_eq, if_elim, eq_refl, ℕ, ◌≤◌, String, ◌≡◌, refl, inl, inr, Bool, true, false, not, none, some,
  List, [], ◌∷◌, ◌++◌, ◌==◌, if◌then◌else◌, text_cases, any, select, tally, arith, eq_iff,
  Option-cases, tally-any, tally-append, tally-select-le,
}
use open_v_center_agent_hype.JobStore.Rows.{
  err, Error, Result, JobRecord, Fields, ok, find, has_id, queued, running, completed, failed,
  timeout, update_status, rewrite, create,
}
use open_v_center_agent_hype.JobStore.Query.{list_by_status, delete_older_than, is_expired}
use open_v_center_agent_hype.JobStore.Swap.{
  swapped, update_status_cases, update_status-swaps, find_id,
}
use open_v_center_agent_hype.JobStore.Life.{
  absent, Life, submits, breaks, purges_succeeded, purges_broken, Lives, still, then_also, phase,
  phase_of, UniqueIds, Evolves, Evolves-refl, Evolves-trans, Author, submitter, watcher, purger,
}
use open_v_center_agent_hype.JobStore.Recovery.{
  recover_job, recover_loop, recover_listed, recover_orphaned_jobs, mark_job_failed, or_rows,
}

tally-rewrite :
    (id j : String) (new : JobRecord) (rows : List JobRecord)
    → new.job_id ≡ j
    → tally (has_id id) (rewrite j new rows) ≡ tally (has_id id) rows
unfolding rewrite
tally-rewrite id j new [] e = refl
tally-rewrite id j new (r ∷ rows) e = ground (
  arith,
  eq_iff r.job_id j,
  eq_iff r.job_id id,
  eq_iff new.job_id id,
  tally-rewrite id j new rows e,
)

-- An update that succeeds is one step of the job's life, if its two statuses are.
pub update_status-Evolves :
    {a : Author} (fault : Bool) (rows : List JobRecord) (id from to : String) (fields : Fields)
    {new : List JobRecord}
    → Life a (phase from) (phase to)
    → UniqueIds rows
    → update_status fault rows id from to fields ≡ ok new
    → Evolves a rows new
update_status-Evolves fault rows id from to fields {new} step u h =
    let (r, found, was, e) = update_status_cases fault rows id from to fields h in
    let (s, found', was', now, others) = update_status-swaps fault rows id from to fields h in
    record {
      keeps_ids = λ j.
          rw e
            (omega (arith, u j, tally-rewrite j id (swapped r to fields) rows (kept_id r found)));
      lives = λ j. elim (text_cases j id) [
        | inl same ↦ rw (same, found', now) (unfold swapped in rw was' (then_also still step))
        | inr apart ↦ rw (others j (λ e'. ground (arith, eq_iff j id, apart, e'))) still
      ];
    }
  where
    kept_id : (r : JobRecord) → find id rows ≡ some r → (swapped r to fields).job_id ≡ id
    kept_id r found = unfold swapped in find_id id rows found

find-absent :
    (id : String) (rows : List JobRecord) → any (has_id id) rows ≡ false → find id rows ≡ none
unfolding find
find-absent id [] h = refl
find-absent id (r ∷ rows) h = ground (arith, find-absent id rows)

find-append :
    (id : String) (rows : List JobRecord) (job : JobRecord)
    → find id (rows ++ job ∷ [])
      ≡ (if any (has_id id) rows then find id rows else if has_id id job then some job else none)
unfolding find
find-append id [] job = refl
find-append id (r ∷ rows) job = ground (arith, find-append id rows job)

created :
    (fault : Bool) (rows : List JobRecord) (job : JobRecord) {new : List JobRecord}
    → create fault rows job ≡ ok new
    → (new ≡ rows ++ job ∷ []) × (any (has_id job.job_id) rows ≡ false)
unfolding create
created fault rows job h = (ground arith, ground arith)

find-append_ne :
    (id : String) (rows : List JobRecord) (job : JobRecord)
    → (id == job.job_id) ≡ false
    → find id (rows ++ job ∷ []) ≡ find id rows
find-append_ne id rows job n = ground (
  arith,
  find-append id rows job,
  find-absent id rows,
  eq_iff id job.job_id,
  eq_iff job.job_id id,
)

-- A job that is created is submitted.
pub create-Evolves :
    (fault : Bool) (rows : List JobRecord) (job : JobRecord) {new : List JobRecord}
    → job.status ≡ queued
    → UniqueIds rows
    → create fault rows job ≡ ok new
    → Evolves submitter rows new
create-Evolves fault rows job s u h =
    let (e, fresh) = created fault rows job h in
    rw e (record {
      keeps_ids = λ j. elim (text_cases j job.job_id) [
        | inl same ↦ rw same (
            ground (
              arith,
              tally-append (has_id job.job_id) rows (job ∷ []),
              tally-any (has_id job.job_id) rows fresh,
            ))
        | inr apart ↦ ground (
          arith,
          u j,
          tally-append (has_id j) rows (job ∷ []),
          apart,
          eq_iff j job.job_id,
          eq_iff job.job_id j,
        )
      ];
      lives = λ j. elim (text_cases j job.job_id) [
        | inl same ↦
            rw
              (
                same,
                find-absent job.job_id rows fresh,
                find-append job.job_id rows job,
                fresh,
                eq_refl job.job_id,
                s,
              )
              (then_also still submits)
        | inr apart ↦ rw (find-append_ne j rows job apart) still
      ];
    })

find-select-none :
    (id : String) (q : JobRecord → Bool) (rows : List JobRecord)
    → tally (has_id id) rows ≡ 0
    → find id (select q rows) ≡ none
unfolding find
find-select-none id q [] u = refl
find-select-none id q (r ∷ rows) u = ground (arith, u, find-select-none id q rows)

find-absent_tally :
    (id : String) (rows : List JobRecord) → find id rows ≡ none → tally (has_id id) rows ≡ 0
unfolding find
find-absent_tally id [] h = refl
find-absent_tally id (r ∷ rows) h = ground (arith, h, find-absent_tally id rows)

-- A select over unique keys finds what it keeps.
find-select :
    (id : String) (q : JobRecord → Bool) (rows : List JobRecord) {r : JobRecord}
    → find id rows ≡ some r
    → tally (has_id id) rows ≤ 1
    → find id (select q rows) ≡ (if q r then some r else none)
unfolding find
find-select id q [] h u = cc
find-select id q (s ∷ rows) {r} h u =
    ground (arith, h, u, find-select id q rows {r = r}, find-select-none id q rows)

abbrev ended_statuses : List String
ended_statuses = completed ∷ failed ∷ timeout ∷ []

-- The ended jobs are those that a purge may take.
purged-Lives :
    (r : JobRecord)
    → any (λ s. r.status == s) ended_statuses ≡ true
    → Lives purger (phase r.status) absent
purged-Lives r h = elim (text_cases r.status completed) [
  | inl e ↦ rw e (then_also still purges_succeeded)
  | inr n ↦ elim (text_cases r.status failed) [
    | inl e ↦ rw e (then_also still purges_broken)
    | inr n' ↦ elim (text_cases r.status timeout) [
      | inl e ↦ rw e (then_also still purges_broken)
      | inr n'' ↦ absurd (ground (arith, h, n, n', n''))
    ]
  ]
]

select-Evolves :
    (cutoff : String) (rows : List JobRecord)
    → UniqueIds rows
    → Evolves purger rows (select (λ r. not (is_expired cutoff ended_statuses r)) rows)
select-Evolves cutoff rows u = record {
  keeps_ids = λ j.
      omega (
        arith,
        u j,
        tally-select-le (has_id j) (λ r. not (is_expired cutoff ended_statuses r)) rows,
      );
  lives = λ j. elim (Option-cases (find j rows)) [
    | inl gone ↦
        rw
          (
            gone,
            find-select-none j (λ r. not (is_expired cutoff ended_statuses r)) rows
                (find-absent_tally j rows gone),
          )
          still
    | inr (r, found) ↦
        rw (found, find-select j (λ s. not (is_expired cutoff ended_statuses s)) rows found (u j))
          (left r (is_expired cutoff ended_statuses r) refl)
  ];
}
  where
    left :
        (r : JobRecord) (b : Bool)
        → is_expired cutoff ended_statuses r ≡ b
        → Lives purger (phase r.status) (phase_of (if not b then some r else none))
    left r true e = purged-Lives r (ground (arith, e))
    left r false e = still

-- A purge of ended jobs takes each of them to its end.
pub delete_older_than-Evolves :
    (fault : Bool) (rows : List JobRecord) (cutoff : String) {new : List JobRecord} {n : ℕ}
    → UniqueIds rows
    → delete_older_than fault rows cutoff ended_statuses ≡ ok (new, n)
    → Evolves purger rows new
unfolding delete_older_than
delete_older_than-Evolves fault rows cutoff {new} {n} u h =
    let e : new ≡ select (λ r. not (is_expired cutoff ended_statuses r)) rows = ground (arith, h) in
    rw e (select-Evolves cutoff rows u)

-- An update whose failure is only logged.
pub attempt-Evolves :
    {a : Author} (fault : Bool) (rows : List JobRecord) (id from to : String) (fields : Fields)
    (or : Result (List JobRecord) → List JobRecord)
    → ((new : List JobRecord) → or (ok new) ≡ new)
    → ((e : Error) → or (err e) ≡ rows)
    → Life a (phase from) (phase to)
    → UniqueIds rows
    → Evolves a rows (or (update_status fault rows id from to fields))
attempt-Evolves {a = a} fault rows id from to fields or on_ok on_err step u =
    by_result (update_status fault rows id from to fields) refl
  where
    by_result :
        (r : Result (List JobRecord))
        → update_status fault rows id from to fields ≡ r
        → Evolves a rows (or r)
    by_result (ok new) e =
        rw (on_ok new) (update_status-Evolves fault rows id from to fields step u e)
    by_result (err x) e = rw (on_err x) (Evolves-refl u)

module _ (alive : ℕ → Bool) (message : ℕ → String) (fault : String → Bool) (now : String) where
  recover_job-Evolves :
      (job : JobRecord) {rows : List JobRecord}
      → UniqueIds rows
      → Evolves watcher rows (recover_job alive message fault now job rows)
  unfolding recover_job mark_job_failed
  recover_job-Evolves job {rows} u =
      if_elim (Evolves watcher rows) (nat_eq job.worker_pid 0)
        (λ _. lost "orphaned job: no worker PID recorded")
        λ _.
          if_elim (Evolves watcher rows) (alive job.worker_pid) (λ _. Evolves-refl u)
            λ _. lost (message job.worker_pid)
    where
      lost :
          (text : String)
          → Evolves watcher rows
              (or_rows (mark_job_failed (fault job.job_id) rows now job.job_id text) rows)
      lost text =
          attempt-Evolves (fault job.job_id) rows job.job_id running failed _ (λ r. or_rows r rows)
            (λ new. refl) (λ e. refl) breaks u

  recover_loop-Evolves :
      (jobs : List JobRecord) {rows : List JobRecord}
      → UniqueIds rows
      → Evolves watcher rows (recover_loop alive message fault now jobs rows)
  unfolding recover_loop
  recover_loop-Evolves [] u = Evolves-refl u
  recover_loop-Evolves (job ∷ jobs) {rows} u =
      let one = recover_job-Evolves job u in
      Evolves-trans one (recover_loop-Evolves jobs one.keeps_ids)

  -- Recovery at start-up takes each job along its life.
  pub recover_orphaned_jobs-Evolves :
      (list_fault : Bool) (rows : List JobRecord) {new : List JobRecord}
      → UniqueIds rows
      → recover_orphaned_jobs alive message fault now list_fault rows ≡ ok new
      → Evolves watcher rows new
  unfolding recover_orphaned_jobs
  recover_orphaned_jobs-Evolves list_fault rows {new} u h =
      by_list (list_by_status list_fault rows running) h
    where
      by_list :
          (r : Result (List JobRecord))
          → recover_listed alive message fault now r rows ≡ ok new
          → Evolves watcher rows new
      by_list (err e) h = cc
      by_list (ok jobs) h =
          let e : new ≡ recover_loop alive message fault now jobs rows = ground arith in
          rw e (recover_loop-Evolves jobs u)
