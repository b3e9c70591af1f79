-- ===== src/JobStore/Query.antt =====
-- The queries of sqlite.go over many rows. A text column is compared as text.
use Prim.Native.Nat.{Ordering}
use Prim.Native.String.{compare}
use open_v_center_agent_hype.Base.{
  ℕ, String, Bool, true, false, not, ◌&&◌, ◌||◌, List, [], ◌∷◌, ◌==◌, if◌then◌else◌, any, select,
  tally, ltb,
}
use open_v_center_agent_hype.JobStore.Rows.{
  JobRecord, Result, ok, err, unavailable, queued, running,
}

abbrev pub text_lt : String → String → Bool
text_lt a b = elim (compare a b) [ Ordering.lt ↦ true | _ ↦ false ]

-- Before the first row that was created later.
unfoldable pub insert_by_created : JobRecord → List JobRecord → List JobRecord
insert_by_created r [] = r ∷ []
insert_by_created r (s ∷ rows) =
    if text_lt s.created_at r.created_at then s ∷ insert_by_created r rows else r ∷ s ∷ rows

-- ORDER BY created_at ASC; rows of one text keep the table's order.
unfoldable pub sort_by_created : List JobRecord → List JobRecord
unfolding insert_by_created
sort_by_created [] = []
sort_by_created (r ∷ rows) = insert_by_created r (sort_by_created rows)

unfoldable pub list_by_status : Bool → List JobRecord → String → Result (List JobRecord)
list_by_status fault rows status =
    if fault then err unavailable else ok (sort_by_created (select (λ r. r.status == status) rows))

unfoldable pub list_running_by_vm : Bool → List JobRecord → String → Result (List JobRecord)
list_running_by_vm fault rows vm =
    if fault
    then err unavailable
    else ok (sort_by_created (select (λ r. r.vm_identifier == vm && r.status == running) rows))

-- The WHERE clause of HasConflict.
unfoldable pub conflicts : String → String → String → JobRecord → Bool
conflicts task_type action vm r =
    r.vm_identifier == vm
    && (r.status == queued || r.status == running)
    && r.task_type == task_type
    && (not (task_type == "vm_management") || r.action == action)

unfoldable pub has_conflict : Bool → List JobRecord → String → String → String → Result Bool
unfolding conflicts
has_conflict fault rows task_type action vm =
    if vm == ""
    then ok false
    else if fault
    then err unavailable
    else ok (ltb 0 (tally (conflicts task_type action vm) rows))

abbrev pub is_expired : String → List String → JobRecord → Bool
is_expired cutoff statuses r = any (λ s. r.status == s) statuses && text_lt r.created_at cutoff

-- DeleteOlderThan: the rows left and how many were deleted; `cutoff` is the text of now - age.
unfoldable pub delete_older_than :
    Bool → List JobRecord → String → List String → Result (List JobRecord × ℕ)
delete_older_than fault rows cutoff [] = ok (rows, 0)
delete_older_than fault rows cutoff (s ∷ statuses) =
    if fault
    then err unavailable
    else ok (
      select (λ r. not (is_expired cutoff (s ∷ statuses) r)) rows,
      tally (is_expired cutoff (s ∷ statuses)) rows,
    )
