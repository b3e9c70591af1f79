-- ===== src/JobStore/Listing.antt =====
-- sqlite.go: the rows that ORDER BY gives.
use open_v_center_agent_hype.Base.{
  any, tally-any, tally-any-true, Bool-cases, inl, inr, true, ◌≡◌, refl, Bool, List, [], ◌∷◌, arith,
  tally, All,
}
use open_v_center_agent_hype.JobStore.Rows.{JobRecord}
use open_v_center_agent_hype.JobStore.Query.{insert_by_created, sort_by_created}

tally-insert_by_created :
    (p : JobRecord → Bool) (r : JobRecord) (rows : List JobRecord)
    → tally p (insert_by_created r rows) ≡ tally p (r ∷ rows)
unfolding insert_by_created
tally-insert_by_created p r [] = refl
tally-insert_by_created p r (s ∷ rows) = ground (arith, tally-insert_by_created p r rows)

pub tally-sort_by_created :
    (p : JobRecord → Bool) (rows : List JobRecord) → tally p (sort_by_created rows) ≡ tally p rows
unfolding sort_by_created
tally-sort_by_created p [] = refl
tally-sort_by_created p (r ∷ rows) =
    ground (arith, tally-insert_by_created p r (sort_by_created rows), tally-sort_by_created p rows)

All-insert_by_created :
    (P : JobRecord → Type 0) (r : JobRecord) (rows : List JobRecord)
    → P r
    → All P rows
    → All P (insert_by_created r rows)
unfolding insert_by_created
All-insert_by_created P r [] h hs = (h, tt)
All-insert_by_created P r (s ∷ rows) h hs = ground (arith, All-insert_by_created P r rows)

pub All-sort_by_created :
    (P : JobRecord → Type 0) (rows : List JobRecord) → All P rows → All P (sort_by_created rows)
unfolding sort_by_created
All-sort_by_created P [] h = tt
All-sort_by_created P (r ∷ rows) h =
    All-insert_by_created P r (sort_by_created rows) h.0 (All-sort_by_created P rows h.1)

pub any-sort_by_created :
    (p : JobRecord → Bool) (rows : List JobRecord)
    → any p rows ≡ true
    → any p (sort_by_created rows) ≡ true
any-sort_by_created p rows h = elim (Bool-cases (any p (sort_by_created rows))) [
  | inl e ↦ e
  | inr e ↦ absurd (
      ground (
        arith,
        tally-any p (sort_by_created rows) e,
        tally-sort_by_created p rows,
        tally-any-true p rows h,
      ))
]
