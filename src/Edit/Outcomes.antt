-- ===== src/Edit/Outcomes.antt =====
-- internal/tasks/vm_edit.go: how an edit ends, and what it has changed by then.
use open_v_center_agent_hype.Edit.Passing.{
  passes, after_all, all_pass, commands_of, changes_of, error_of, Worked, Does-Sound, Does-changes,
}
use open_v_center_agent_hype.Edit.Changes.{fits, steps_of-Does}
use open_v_center_agent_hype.Edit.Requests.{asked, requires_off}
use mathlib.Core.Path.{subst}
use open_v_center_agent_hype.Base.{
  ◌≡◌, refl, ap, Bool, true, false, not, ◌&&◌, ◌||◌, ◌==◌, Option, none, some, List, [], ◌∷◌, ◌++◌,
  if_elim, arith, ℕ, suc, All, any, sym,
}
use open_v_center_agent_hype.Edit.{
  VmEditPayload, Command, EditError, Step, refuse, run, try, applies, needs_off, id_required,
  vm_refused, no_changes,
}
use open_v_center_agent_hype.Edit.Run.{
  World, Edited, nothing_done, ran, run_steps, steps_of, handle_vm_edit, edited, or_no_changes,
  is_empty,
}

-- How a list of steps ends, after a number of scripts: after all of them, or at the first that does not pass.
pub data Runs (works : ℕ → Command → Bool) (n : ℕ) (ss : List Step) : Edited → Type 0 where
  to_the_end :
      all_pass works n ss ≡ true
      → Runs works n ss
          (record { commands = commands_of ss; applied = changes_of ss; error = none })
  stopped_at :
      (before after : List Step) (s : Step)
      → ss ≡ before ++ s ∷ after
      → all_pass works n before ≡ true
      → passes works (after_all n before) s ≡ false
      → Runs works n ss (record {
        commands = commands_of (before ++ s ∷ []);
        applied = changes_of before;
        error = error_of s;
      })

module _ (works : ℕ → Command → Bool) where
  after_run :
      (n : ℕ) (c : Command) (ss : List Step) {e : Edited}
      → works n c ≡ true
      → Runs works (suc n) ss e
      → Runs works n (run c ∷ ss) (ran c e)
  after_run n c ss w (to_the_end h) = to_the_end (ground (arith, w, h))
  after_run n c ss w (stopped_at before after s e h f) =
      stopped_at (run c ∷ before) after s (ap (λ l. run c ∷ l) e) (ground (arith, w, h)) f

  after_try :
      (n : ℕ) (c : Command) (ss : List Step) {e : Edited}
      → Runs works (suc n) ss e
      → Runs works n (try c ∷ ss) (ran c e)
  after_try n c ss (to_the_end h) = to_the_end h
  after_try n c ss (stopped_at before after s e h f) =
      stopped_at (try c ∷ before) after s (ap (λ l. try c ∷ l) e) h f

  after_applies :
      (n : ℕ) (c : Command) (ss : List Step) {e : Edited}
      → Runs works n ss e
      → Runs works n (applies c ∷ ss) (record e { applied = c ∷ e.applied })
  after_applies n c ss (to_the_end h) = to_the_end h
  after_applies n c ss (stopped_at before after s e h f) =
      stopped_at (applies c ∷ before) after s (ap (λ l. applies c ∷ l) e) h f

  run_steps-Runs : (n : ℕ) (ss : List Step) → Runs works n ss (run_steps works n ss)
  unfolding run_steps
  run_steps-Runs n [] = to_the_end refl
  run_steps-Runs n (refuse e ∷ ss) = stopped_at [] ss (refuse e) refl refl refl
  run_steps-Runs n (run c ∷ ss) =
      if_elim (Runs works n (run c ∷ ss)) (works n c)
        (λ t. after_run n c ss t (run_steps-Runs (suc n) ss))
        (λ t. stopped_at [] ss (run c) refl refl t)
  run_steps-Runs n (try c ∷ ss) = after_try n c ss (run_steps-Runs (suc n) ss)
  run_steps-Runs n (applies c ∷ ss) = after_applies n c ss (run_steps-Runs n ss)

-- How an edit ends.
pub data EditEnds (w : World) (p : VmEditPayload) : Edited → Type 0 where
  not_started : (e : EditError) → EditEnds w p (nothing_done (some e))
  succeeded :
      (c : Command) (cs : List Command)
      → w.finds_vm ≡ true
      → all_pass w.works 0 (steps_of w.free_space p) ≡ true
      → asked p ≡ c ∷ cs
      → EditEnds w p (record {
        commands = commands_of (steps_of w.free_space p);
        applied = c ∷ cs;
        error = none;
      })
  no_change :
      all_pass w.works 0 (steps_of w.free_space p) ≡ true
      → asked p ≡ []
      → EditEnds w p (record {
        commands = commands_of (steps_of w.free_space p);
        applied = [];
        error = some no_changes;
      })
  failed_at :
      (before after : List Step) (s : Step)
      → steps_of w.free_space p ≡ before ++ s ∷ after
      → all_pass w.works 0 before ≡ true
      → passes w.works (after_all 0 before) s ≡ false
      → EditEnds w p (record {
        commands = commands_of (before ++ s ∷ []);
        applied = changes_of before;
        error = error_of s;
      })

-- What every edit keeps to: a change is listed only if its script worked, and a script that needs the machine
-- to be off is run only if it was.
pub record IsCareful (w : World) (e : Edited) : Type 0 where
  pub all_worked : All (Worked w.works) e.applied
  pub is_off_if_needed : (any requires_off e.commands && not w.is_off) ≡ false

module _ (w : World) (p : VmEditPayload) (found : w.finds_vm ≡ true) where
  whole :
      (cs : List Command)
      → all_pass w.works 0 (steps_of w.free_space p) ≡ true
      → asked p ≡ cs
      → EditEnds w p (
          edited (record {
            commands = commands_of (steps_of w.free_space p);
            applied = cs;
            error = none;
          }))
  whole [] h e = no_change h e
  whole (c ∷ cs) h e = succeeded c cs found h e

  part :
      (before after : List Step) (s : Step)
      → steps_of w.free_space p ≡ before ++ s ∷ after
      → all_pass w.works 0 before ≡ true
      → passes w.works (after_all 0 before) s ≡ false
      → EditEnds w p (
          edited (record {
            commands = commands_of (before ++ s ∷ []);
            applied = changes_of before;
            error = error_of s;
          }))
  part before after (refuse e) q h f = failed_at before after (refuse e) q h f
  part before after (run c) q h f = failed_at before after (run c) q h f
  part before after (try c) q h f = ground (arith, f)
  part before after (applies c) q h f = ground (arith, f)

  edited-EditEnds :
      {e : Edited} → Runs w.works 0 (steps_of w.free_space p) e → EditEnds w p (edited e)
  edited-EditEnds (to_the_end h) =
      let made = Does-changes w.works (fits p) (steps_of-Does p w.free_space) 0 h in
      subst
        (λ cs. EditEnds w p (
          edited (record {
            commands = commands_of (steps_of w.free_space p);
            applied = cs;
            error = none;
          })))
        (sym made) (whole (asked p) h refl)
  edited-EditEnds (stopped_at before after s q h f) = part before after s q h f

-- What an error leaves of the lists.
or_no_changes-same :
    (e : Edited) (o : Option EditError)
    → ((or_no_changes e o).commands ≡ e.commands) × ((or_no_changes e o).applied ≡ e.applied)
or_no_changes-same e none =
    if_elim {A = Edited} (λ x. (x.commands ≡ e.commands) × (x.applied ≡ e.applied))
      (is_empty e.applied) (λ _. (refl, refl)) (λ _. (refl, refl))
or_no_changes-same e (some x) = (refl, refl)

or_false : (a b : Bool) → (a || b) ≡ false → (a ≡ false) × (b ≡ false)
or_false a b h = (ground (arith, h), ground (arith, h))

script_off :
    (r n o x : Bool)
    → (not n || o) ≡ true
    → not (not r || n) ≡ false
    → (x && not o) ≡ false
    → ((r || x) && not o) ≡ false
script_off r n o x h k l = ground (arith, h, k, l)

-- The scripts fit the payload, and the payload fits the machine.
off_if_needed :
    (w : World) (p : VmEditPayload) (cs : List Command)
    → (not (needs_off p) || w.is_off) ≡ true
    → any (λ c. not (fits p c)) cs ≡ false
    → (any requires_off cs && not w.is_off) ≡ false
off_if_needed w p [] h k = refl
off_if_needed w p (c ∷ cs) h k =
    let (head, tail) = or_false (not (fits p c)) (any (λ d. not (fits p d)) cs) k in
    script_off (requires_off c) (needs_off p) w.is_off (any requires_off cs) h head
      (off_if_needed w p cs h tail)

run_steps-IsCareful :
    (w : World) (p : VmEditPayload)
    → (not (needs_off p) || w.is_off) ≡ true
    → IsCareful w (edited (run_steps w.works 0 (steps_of w.free_space p)))
run_steps-IsCareful w p h =
    let e = run_steps w.works 0 (steps_of w.free_space p) in
    let (cs, ds) = or_no_changes-same e e.error in
    let (worked, fit) = Does-Sound w.works (fits p) (steps_of-Does p w.free_space) 0 in
    record {
      all_worked = subst (All (Worked w.works)) (sym ds) worked;
      is_off_if_needed =
          subst (λ l. (any requires_off l && not w.is_off) ≡ false) (sym cs)
            (off_if_needed w p e.commands h fit);
    }

-- An edit ends in one of four ways. Not started: no script was run. Succeeded: of a machine that was found,
-- every step passed, and the changes that were applied are those that the payload asks for, in order. Without
-- a change, which is an error, where it asks for none. Or failed at a step: the steps before it passed and
-- what they apply stays, no step after it was run, and the error is that step's. In each, a change is listed
-- as applied only if its own script worked, and no script that needs the machine to be off, which are those
-- of the processors, the memory, nested virtualization and secure boot, was run on one that was not.
pub handle_vm_edit-EditEnds :
    (w : World) (p : VmEditPayload)
    → EditEnds w p (handle_vm_edit w (some p)) × IsCareful w (handle_vm_edit w (some p))
unfolding handle_vm_edit
handle_vm_edit-EditEnds w p =
    if_elim Ends (p.vm_id == "") (λ t. refuses_all id_required)
      (λ t.
        if_elim Ends (w.finds_vm && (not (needs_off p) || w.is_off))
          (λ u. (
            edited-EditEnds w p (ground (arith, u))
                (run_steps-Runs w.works 0 (steps_of w.free_space p)),
            run_steps-IsCareful w p (ground (arith, u)),
          ))
          (λ u. refuses_all vm_refused))
  where
    Ends : Edited → Type 0
    Ends e = EditEnds w p e × IsCareful w e

    refuses_all : (e : EditError) → Ends (nothing_done (some e))
    refuses_all e = (not_started e, record { all_worked = tt; is_off_if_needed = refl })
