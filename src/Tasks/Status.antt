-- ===== src/Tasks/Status.antt =====
-- dispatcher.go and internal/protocol: the two tables of status words.
use open_v_center_agent_hype.Base.{
  sym, ◌↔◌, String, ◌≡◌, ◌≢◌, refl, inl, inr, true, false, List, [], ◌∷◌, eq_iff, if_elim, arith,
  text_cases,
}
use open_v_center_agent_hype.Queue.Classifier.{among}
use open_v_center_agent_hype.Tasks.Response.{
  normalize_status, protocol_normalize_status, succeeded_words, failed_words,
}

-- The two copies of the status table, that of the tasks and that of the protocol package, agree on
-- every status but the empty one.
normalize_status-eq-protocol :
    (s : String) → s ≢ "" → normalize_status s ≡ protocol_normalize_status s
unfolding normalize_status protocol_normalize_status
normalize_status-eq-protocol s n = ground (arith, eq_iff s "")

-- A status that was normalised stays what it is.
normalize_status_idempotent :
    (s : String) → normalize_status (normalize_status s) ≡ normalize_status s
unfolding normalize_status
normalize_status_idempotent s =
    if_elim (λ r. normalize_status r ≡ r) (among succeeded_words s) (λ _. refl)
      λ a.
        if_elim (λ r. normalize_status r ≡ r) (among failed_words s) (λ _. refl)
          λ b.
            if_elim (λ r. normalize_status r ≡ r)
              (among ("in_progress" ∷ "running" ∷ "pending" ∷ "queued" ∷ "" ∷ []) s) (λ _. refl)
              λ c. rw (a, b, c)

abbrev running_or_empty : List String
running_or_empty = "in_progress" ∷ "running" ∷ "pending" ∷ "queued" ∷ "" ∷ []

failed_ne : ◌≡◌ {A = String} "failed" "succeeded" → ⊥
failed_ne e = ground (arith, eq_iff "failed" "succeeded")

running_ne : ◌≡◌ {A = String} "running" "succeeded" → ⊥
running_ne e = ground (arith, eq_iff "running" "succeeded")

running_ne_failed : ◌≡◌ {A = String} "running" "failed" → ⊥
running_ne_failed e = ground (arith, eq_iff "running" "failed")

-- The two lists share no word.
apart : (s : String) → among failed_words s ≡ true → among succeeded_words s ≡ false
apart s h = elim (text_cases s "failed") [
  | inl e ↦ rw e
  | inr n ↦ elim (text_cases s "error") [ inl e ↦ rw e | inr m ↦ absurd (ground (arith, h)) ]
]

-- The backend is told `succeeded` for exactly the four words of success, and `failed` for exactly
-- the two words of failure.
normalize_status-exact :
    (s : String)
    → ((normalize_status s ≡ "succeeded") ↔ (among succeeded_words s ≡ true))
      × ((normalize_status s ≡ "failed") ↔ (among failed_words s ≡ true))
unfolding normalize_status
normalize_status-exact s = (
  (
    if_elim (λ r. r ≡ "succeeded" → among succeeded_words s ≡ true) (among succeeded_words s)
        (λ a _. a)
        λ a.
          if_elim (λ r. r ≡ "succeeded" → among succeeded_words s ≡ true) (among failed_words s)
            (λ _ e. absurd (failed_ne e))
            λ b.
              if_elim (λ r. r ≡ "succeeded" → among succeeded_words s ≡ true)
                (among running_or_empty s) (λ _ e. absurd (running_ne e)) λ c e. rw e,
    λ a. rw a,
  ),
  (
    if_elim (λ r. r ≡ "failed" → among failed_words s ≡ true) (among succeeded_words s)
        (λ _ e. absurd (failed_ne (sym e)))
        λ a.
          if_elim (λ r. r ≡ "failed" → among failed_words s ≡ true) (among failed_words s)
            (λ b _. b)
            λ b.
              if_elim (λ r. r ≡ "failed" → among failed_words s ≡ true) (among running_or_empty s)
                (λ _ e. absurd (running_ne_failed e)) λ c e. rw e,
    λ b. rw (apart s b, b),
  ),
)
