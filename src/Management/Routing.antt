-- ===== src/Management/Routing.antt =====
-- vm_management.go and functions.go: which actions find a handler.
use open_v_center_agent_hype.Base.{
  String, ◌≡◌, ◌≢◌, ◌⊎◌, ◌↔◌, inl, inr, refl, Bool, true, false, ◌&&◌, ◌==◌, Option, some, List, [],
  ◌∷◌, arith, eq_iff, text_cases, ◌++◌,
}
use open_v_center_agent_hype.Queue.Classifier.{among}
use open_v_center_agent_hype.Tasks.Functions.{vm_management_actions}
use open_v_center_agent_hype.Management.{
  VmManagementPayload, handled_actions, batch_actions, to_batch, to_handler, with_name,
  handle_vm_management,
}

abbrev every : (String → Bool) → List String → Bool
every p [] = true
every p (n ∷ names) = p n && every p names

among-every :
    (names others : List String) (a : String)
    → every (among others) names ≡ true
    → among names a ≡ true
    → among others a ≡ true
among-every [] others a h m = ground arith
among-every (n ∷ names) others a h m = elim (text_cases a n) [
  | inl e ↦ rw e (ground arith)
  | inr e ↦ among-every names others a (ground arith) (ground (arith, e))
]

among-append :
    (xs ys : List String) (a : String)
    → among (xs ++ ys) a ≡ true
    → (among xs a ≡ true) ⊎ (among ys a ≡ true)
among-append [] ys a h = inr h
among-append (x ∷ xs) ys a h = ground (arith, among-append xs ys a)

switched : every (among (batch_actions ++ handled_actions)) vm_management_actions ≡ true
unfolding batch_actions handled_actions
switched = refl

listed : every (among vm_management_actions) handled_actions ≡ true
unfolding handled_actions
listed = refl

-- The table of functions and the switch name the same actions.
known :
    (a : String)
    → among vm_management_actions a ≡ true
    → (among batch_actions a ≡ true) ⊎ (among handled_actions a ≡ true)
known a h =
    among-append batch_actions handled_actions a
      (among-every vm_management_actions (batch_actions ++ handled_actions) a switched h)

-- No action on a list that the empty text is not on is empty.
given :
    (names : List String) (a : String)
    → among names "" ≡ false
    → among names a ≡ true
    → (a == "") ≡ false
given names a n h = ground (arith, eq_iff a "")

empty_unhandled : among handled_actions "" ≡ false
unfolding handled_actions
empty_unhandled = refl

empty_unbatched : among batch_actions "" ≡ false
unfolding batch_actions
empty_unbatched = refl

routed :
    (resolve : String → Option String) (p : VmManagementPayload) (table : Bool)
    → (table ≡ true
        → (among batch_actions p.action ≡ true) ⊎ (among handled_actions p.action ≡ true))
    → (among handled_actions p.action ≡ true → table ≡ true)
    → ((handle_vm_management resolve (some p) ≡ to_batch) ↔ (among batch_actions p.action ≡ true))
      × ((handle_vm_management resolve (some p) ≡ to_handler p.action (with_name resolve p))
          ↔ ((table ≡ true) × (among batch_actions p.action ≡ false) × (p.vm_id ≢ "")))
unfolding handle_vm_management
routed resolve p table k l = ground (
  arith,
  k,
  l,
  given batch_actions p.action empty_unbatched,
  given handled_actions p.action empty_unhandled,
  eq_iff p.vm_id "",
)

-- A task goes to the batch handler exactly for a batch action. It goes to the handler of its action, with
-- the name that was given or resolved, exactly for another action in the table of functions with an id.
handle_vm_management-routes :
    (resolve : String → Option String) (p : VmManagementPayload)
    → ((handle_vm_management resolve (some p) ≡ to_batch) ↔ (among batch_actions p.action ≡ true))
      × ((handle_vm_management resolve (some p) ≡ to_handler p.action (with_name resolve p)) ↔ (
          (among vm_management_actions p.action ≡ true)
          × (among batch_actions p.action ≡ false)
          × (p.vm_id ≢ "")))
handle_vm_management-routes resolve p =
    routed resolve p (among vm_management_actions p.action) (known p.action)
      (among-every handled_actions vm_management_actions p.action listed)
