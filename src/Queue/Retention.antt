-- ===== src/Queue/Retention.antt =====
-- retention.go: `cutoff` is the text of the time 24 hours ago.
use open_v_center_agent_hype.Base.{
  ℕ, ◌+◌, ◌≡◌, ◌⊎◌, inl, inr, String, Bool, true, List, [], ◌∷◌, arith, tally, length,
  length-select-tally, tally-select_keep, not,
}
use open_v_center_agent_hype.JobStore.{
  JobRecord, Result, ok, err, queued, running, completed, failed, timeout, delete_older_than,
  is_expired,
}

abbrev pub purged_statuses : List String
purged_statuses = completed ∷ failed ∷ timeout ∷ []

unfoldable pub after : List JobRecord → Result (List JobRecord × ℕ) → List JobRecord × ℕ
after rows (err e) = (rows, 0)
after rows (ok r) = r

-- The rows left, and how many were deleted.
unfoldable pub purge : Bool → String → List JobRecord → List JobRecord × ℕ
unfolding after
purge fault cutoff rows = after rows (delete_older_than fault rows cutoff purged_statuses)

not_expired :
    (cutoff : String) (r : JobRecord)
    → (r.status ≡ queued) ⊎ (r.status ≡ running)
    → not (is_expired cutoff purged_statuses r) ≡ true
not_expired cutoff r (inl e) = rw e
not_expired cutoff r (inr e) = rw e

-- A purge keeps every job that waits or runs, whatever its age, and the count that it reports is
-- exactly the number of rows that are gone.
purge-keeps_active :
    (fault : Bool) (cutoff : String) (rows : List JobRecord) (p : JobRecord → Bool)
    → ((r : JobRecord) → p r ≡ true → (r.status ≡ queued) ⊎ (r.status ≡ running))
    → (tally p (purge fault cutoff rows).0 ≡ tally p rows)
      × (length (purge fault cutoff rows).0 + (purge fault cutoff rows).1 ≡ length rows)
unfolding purge delete_older_than
purge-keeps_active fault cutoff rows p h = ground (
  arith,
  tally-select_keep p (λ r. not (is_expired cutoff purged_statuses r))
      (λ r q. not_expired cutoff r (h r q)) rows,
  length-select-tally (is_expired cutoff purged_statuses) rows,
)
