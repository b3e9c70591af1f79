-- ===== src/Examples/Jobs.antt =====
-- The life of a job: its status, its worker, its end, and the jobs that the service makes itself.
use open_v_center_agent_hype.Base.{refl, ◌≡◌, ◌≢◌, ◌∷◌, [], some, false, List, String}
use open_v_center_agent_hype.JobStore.{
  JobRecord, find, queued, running, update_status, rewrite, set_columns, apply_fields, no_fields,
  ok,
}
use open_v_center_agent_hype.JobStore.Swap.{swapped, update_status-swaps}
use open_v_center_agent_hype.Examples.Fixtures.{edits, second_edit, running_edit}

-- The store after the first edit is marked as running.
abbrev pub marked : List JobRecord
marked = running_edit ∷ second_edit ∷ []

mark-edit : update_status false edits "j1" queued running no_fields ≡ ok marked
unfolding update_status find rewrite set_columns apply_fields
mark-edit = refl

update_status-swaps_example :
    (r : JobRecord) × (find "j1" edits ≡ some r)
    × (r.status ≡ queued)
    × (find "j1" marked ≡ some (swapped r running no_fields))
    × ((j : String) → j ≢ "j1" → find j marked ≡ find j edits)
update_status-swaps_example =
    update_status-swaps false edits "j1" queued running no_fields mark-edit

pub find-running_edit : find "j1" marked ≡ some running_edit
unfolding find
find-running_edit = refl
