-- ===== src/Examples/Recovery.antt =====
-- The recovery of a job whose worker is gone.
use open_v_center_agent_hype.Base.{
  refl, ◌≡◌, ◌∷◌, [], some, false, List, ℕ, Bool, String, All, arith, eq_iff,
}
use open_v_center_agent_hype.JobStore.{JobRecord, find, ok, recover_orphaned_jobs}
use open_v_center_agent_hype.JobStore.Orphans.{recovered, recover_orphaned_jobs-recovers}
use open_v_center_agent_hype.Examples.Fixtures.{running_edit, second_edit}

abbrev lost_edit : JobRecord
lost_edit = record running_edit { worker_pid = 7 }

abbrev rows : List JobRecord
rows = lost_edit ∷ second_edit ∷ []

abbrev dead : ℕ → Bool
dead pid = false

abbrev message : ℕ → String
message pid = "orphaned job: worker process is not alive"

abbrev fine : String → Bool
fine id = false

only_edit : All (λ s. s.job_id ≡ "j1" → s ≡ lost_edit) rows
only_edit = (λ e. refl, (λ e. absurd (ground (arith, eq_iff "j2" "j1", e)), tt))

find-lost_edit : find "j1" rows ≡ some lost_edit
unfolding find
find-lost_edit = refl

recover_orphaned_jobs-recovers_example :
    (new : List JobRecord) × (recover_orphaned_jobs dead message fine "now" false rows ≡ ok new)
    × (find "j1" new ≡ some (recovered dead message fine "now" lost_edit))
recover_orphaned_jobs-recovers_example =
    recover_orphaned_jobs-recovers dead message fine "now" rows lost_edit refl find-lost_edit
      only_edit
