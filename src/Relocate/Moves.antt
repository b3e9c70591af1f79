-- ===== src/Relocate/Moves.antt =====
-- internal/tasks/vm_management.go: how handleVMMove ends, and which destinations it takes.
use mathlib.Core.List.{append-nil}
use open_v_center_agent_hype.Base.{
  ℕ, ◌≡◌, Bool, true, false, not, ◌&&◌, List, [], ◌∷◌, ◌++◌, arith, ◌⊎◌, inl, inr, String, Option,
  none, some, eq_iff, refl, if_elim, sym, ◌==◌,
}
use open_v_center_agent_hype.Batch.{map_vm_move_progress}
use open_v_center_agent_hype.Management.{VmManagementPayload}
use open_v_center_agent_hype.Folders.{Node}
use open_v_center_agent_hype.Relocate.{
  stream_reports, Site, Answers, Paths, Handled, completes, stops, move_failed, RelocateError,
  result_id, folder_exists, rename_failed, name_required, found_vm, is_there, not_allowed,
  vm_not_found, check_failed, param_required,
}
use open_v_center_agent_hype.Relocate.Destinations.{
  Host, resolve, move_destination, handle_vm_move, after_move, move_to, run_move, is_reached,
}
use open_v_center_agent_hype.Relocate.Reports.{ascends, are_percentages, stream_reports-ascends}

-- The error of a script that may have changed the host.
abbrev pub is_late : RelocateError → Bool
is_late move_failed = true
is_late rename_failed = true
is_late _ = false

pub nothing : (o : Option Node) → is_there o ≡ false → o ≡ none
nothing none h = refl
nothing (some n) h = ground arith

module _ (os : Paths) where
  -- How a move ends: refused with nothing changed, failed after Move-VMStorage may have run, or completed
  -- with the machine at a destination that was free.
  pub data MoveEnds (a : Answers) (p : VmManagementPayload) (h : Host) (d : String) (s : Site)
      : Handled → Type 0 where
    refused :
        (ns : List ℕ) (e : RelocateError)
        → ascends 100 0 ns ≡ true
        → is_late e ≡ false
        → MoveEnds a p h d s (stops s ns e)
    failed :
        (t : Site) (ns : List ℕ)
        → ascends 100 0 ns ≡ true
        → (t.vm ≡ s.vm)
          ⊎ ((path : String) × (a.moves ≡ some path) × (t.vm ≡ record s.vm { path = path }))
        → MoveEnds a p h d s (stops t ns move_failed)
    arrived :
        (t : Site) (ns : List ℕ) (storage path : String)
        → ascends 100 0 ns ≡ true
        → resolve os h (os.trim d) ≡ some storage
        → s.disk (move_destination os storage s.vm) ≡ none
        → os.equal_fold path (move_destination os storage s.vm) ≡ true
        → t.vm ≡ record s.vm { path = path }
        → s.vm.name ≡ p.vm_name
        → MoveEnds a p h d s (record {
          site = t;
          reports = ns;
          outcome = completes (result_id os a p s.vm) p.vm_name;
        })

  module _ (a : Answers) (p : VmManagementPayload) (h : Host) (d : String) (s : Site)
      (m : are_percentages a.lines ≡ true) where
    streamed-ascends :
        (rest : List ℕ)
        → ascends 100 95 rest ≡ true
        → ascends 100 0 (1 ∷ 3 ∷ 5 ∷ (stream_reports map_vm_move_progress 5 a.lines ++ rest)) ≡ true
    unfolding ascends map_vm_move_progress
    streamed-ascends rest r =
        let tail =
          stream_reports-ascends map_vm_move_progress 100 95 5 a.lines rest (λ n l. omega arith) m
            (omega arith) (omega arith) r in
        tail

    alone : ascends 100 0 (1 ∷ 3 ∷ 5 ∷ stream_reports map_vm_move_progress 5 a.lines) ≡ true
    unfolding ascends
    alone =
        rw (sym (append-nil (stream_reports map_vm_move_progress 5 a.lines)))
          (streamed-ascends [] refl)

    after_move-ends :
        (storage : String) (answer : Option String)
        → a.moves ≡ answer
        → resolve os h (os.trim d) ≡ some storage
        → s.disk (move_destination os storage s.vm) ≡ none
        → MoveEnds a p h d s (after_move os a p (move_destination os storage s.vm) s answer)
    unfolding ascends
    after_move-ends storage none e r free = failed _ _ alone (inl refl)
    after_move-ends storage (some path) e r free =
        if_elim (MoveEnds a p h d s)
          ((s.vm.name == p.vm_name) && os.equal_fold path (move_destination os storage s.vm))
          (λ t.
            arrived _ _ storage path (streamed-ascends (100 ∷ []) refl) r free (ground (arith, t))
              refl ((eq_iff s.vm.name p.vm_name).0 (ground (arith, t))))
          (λ t. failed _ _ alone (inr (path, e, refl)))

    run_move-ends :
        (storage : String)
        → resolve os h (os.trim d) ≡ some storage
        → MoveEnds a p h d s (run_move os a p h (move_destination os storage s.vm) s)
    unfolding ascends
    run_move-ends storage r =
        if_elim (MoveEnds a p h d s) _ (λ t. refused _ folder_exists refl refl)
          (λ t.
            if_elim (MoveEnds a p h d s) (is_reached os a p h s.vm)
              (λ u. after_move-ends storage a.moves refl r (nothing _ t))
              (λ u. failed _ _ alone (inl refl)))

    move_to-ends :
        (o : Option String)
        → resolve os h (os.trim d) ≡ o
        → MoveEnds a p h d s (move_to os a p h s o)
    unfolding ascends
    move_to-ends none r = refused _ not_allowed refl refl
    move_to-ends (some storage) r =
        if_elim (MoveEnds a p h d s) (not (found_vm os a p s.vm))
          (λ t. refused (1 ∷ []) vm_not_found refl refl)
          (λ t.
            if_elim (MoveEnds a p h d s) (not a.checks)
              (λ u. refused (1 ∷ []) check_failed refl refl) (λ u. run_move-ends storage r))

    handle-ends : MoveEnds a p h d s (handle_vm_move os a p h (some d) s)
    unfolding handle_vm_move ascends
    handle-ends =
        if_elim (MoveEnds a p h d s) (p.vm_name == "") (λ t. refused _ name_required refl refl)
          (λ t.
            if_elim (MoveEnds a p h d s) (os.trim d == "") (λ u. refused _ param_required refl refl)
              (λ u. move_to-ends (resolve os h (os.trim d)) refl))

-- Where the percentages of Move-VMStorage are at most 100, a move reports ascending percentages up to 100,
-- and ends in one of three ways. Refused before Move-VMStorage, with nothing changed. Failed, with the
-- machine as it was, or at the path that Move-VMStorage left it at. Or completed: the storage is one that
-- the host may use, the folder in it was free, and the machine of the requested name, with no other
-- change, is at that path.
pub handle_vm_move-MoveEnds :
    (os : Paths) (a : Answers) (p : VmManagementPayload) (h : Host) (d : String) (s : Site)
    → are_percentages a.lines ≡ true
    → MoveEnds os a p h d s (handle_vm_move os a p h (some d) s)
handle_vm_move-MoveEnds os a p h d s m = handle-ends os a p h d s m
