-- ===== src/JobStore/Life.antt =====
-- record.go: the life of a job, as an abstract machine, and the tables that refine it.
pub mod Steps
use open_v_center_agent_hype.Base.{
  eq_refl, ℕ, ◌≤◌, String, ◌≡◌, refl, inl, inr, Bool, true, false, not, Option, none, some, List,
  [], ◌∷◌, ◌++◌, ◌==◌, if◌then◌else◌, text_cases, any, select, tally, arith, eq_iff, Option-cases,
  tally-any, tally-append, tally-select-le,
}
use open_v_center_agent_hype.JobStore.Rows.{
  err, Error, Result, JobRecord, Fields, ok, find, has_id, queued, running, completed, failed,
  timeout, update_status, rewrite, create,
}
use open_v_center_agent_hype.JobStore.Query.{delete_older_than, is_expired}
use open_v_center_agent_hype.JobStore.Swap.{
  swapped, update_status_cases, update_status-swaps, find_id,
}

pub data Phase : Type 0 where
  absent waiting active succeeded broken : Phase

-- Who changes the table: what hands in jobs, the dispatcher, the worker of a job, what finds that a worker is
-- gone (the monitor and the recovery), and the retention.
pub data Author : Type 0 where
  submitter dispatcher worker watcher purger : Author

-- What each of them may do to a job.
pub data Life : Author → Phase → Phase → Type 0 where
  submits : Life submitter absent waiting
  starts : Life dispatcher waiting active
  succeeds : Life worker active succeeded
  fails : Life worker active broken
  breaks : Life watcher active broken
  purges_succeeded : Life purger succeeded absent
  purges_broken : Life purger broken absent

-- Any number of steps of one author.
pub data Lives (a : Author) (p : Phase) : Phase → Type 0 where
  still : Lives a p p
  then_also : {q r : Phase} → Lives a p q → Life a q r → Lives a p r

Lives-append : {a : Author} {p q r : Phase} → Lives a p q → Lives a q r → Lives a p r
Lives-append l still = l
Lives-append l (then_also m s) = then_also (Lives-append l m) s

-- The life of a job under changes by given authors, the last of them first.
pub data Lived (p : Phase) : List Author → Phase → Type 0 where
  begins : Lived p [] p
  lives_on :
      {a : Author} {authors : List Author} {q r : Phase}
      → Lived p authors q
      → Lives a q r
      → Lived p (a ∷ authors) r

abbrev pub phase : String → Phase
phase s =
    if s == queued
    then waiting
    else if s == running
    then active
    else if s == completed
    then succeeded
    else broken

abbrev pub phase_of : Option JobRecord → Phase
phase_of none = absent
phase_of (some r) = phase r.status

-- The primary key of the table.
abbrev pub UniqueIds : List JobRecord → Type 0
UniqueIds rows = (id : String) → tally (has_id id) rows ≤ 1

-- A table that an author's change makes of another: its key stays unique, and each job takes only steps that
-- this author may take.
pub record Evolves (a : Author) (rows new : List JobRecord) : Type 0 where
  pub keeps_ids : UniqueIds new
  pub lives : (id : String) → Lives a (phase_of (find id rows)) (phase_of (find id new))

pub Evolves-refl : {a : Author} {rows : List JobRecord} → UniqueIds rows → Evolves a rows rows
Evolves-refl u = record { keeps_ids = u; lives = λ id. still }

pub Evolves-trans :
    {x : Author} {a b c : List JobRecord} → Evolves x a b → Evolves x b c → Evolves x a c
Evolves-trans e f = record {
  keeps_ids = f.keeps_ids;
  lives = λ id. Lives-append (e.lives id) (f.lives id);
}

-- A table that refines the abstract machine, after changes by given authors.
pub record Refines (authors : List Author) (rows new : List JobRecord) : Type 0 where
  pub keeps_ids : UniqueIds new
  pub lived : (id : String) → Lived (phase_of (find id rows)) authors (phase_of (find id new))
