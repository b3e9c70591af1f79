-- ===== src/Relocate/Renames.antt =====
-- internal/tasks/vm_management.go: how handleVMRename ends, and what its failure leaves.
use open_v_center_agent_hype.Base.{
  ℕ, ◌≡◌, ◌≢◌, true, false, not, ◌&&◌, List, [], ◌∷◌, arith, ◌⊎◌, inl, inr, String, Option, none,
  some, eq_iff, refl, if_elim, sym, ◌==◌, if◌then◌else◌, ◌∙◌, ap,
}
use open_v_center_agent_hype.Management.{VmManagementPayload}
use open_v_center_agent_hype.Relocate.{
  Site, Answers, Paths, Handled, refuses, completes, stops, move_failed, RelocateError, result_id,
  folder_exists, rename_failed, name_required, found_vm, is_there, vm_not_found, vm_not_off,
  check_failed, param_required, handle_vm_rename, rename_destination, rename_vm, move_renamed,
}
use open_v_center_agent_hype.Relocate.Reports.{ascends}
use open_v_center_agent_hype.Relocate.Moves.{is_late, nothing}

-- How a rename ends: refused with nothing changed, failed between the rename and the move, or completed.
pub data RenameEnds (os : Paths) (a : Answers) (p : VmManagementPayload) (new_name : String)
    (s : Site) : Handled → Type 0 where
  refused :
      (ns : List ℕ) (e : RelocateError)
      → ascends 100 0 ns ≡ true
      → (is_late e ≡ false) ⊎ (e ≡ rename_failed)
      → RenameEnds os a p new_name s (stops s ns e)
  renamed_only :
      (t : Site) (ns : List ℕ)
      → ascends 100 0 ns ≡ true
      → a.moves ≡ none
      → s.vm.name ≡ p.vm_name
      → t.vm ≡ record s.vm { name = new_name }
      → RenameEnds os a p new_name s (stops t ns move_failed)
  all_done :
      (t : Site) (ns : List ℕ) (path : String)
      → ascends 100 0 ns ≡ true
      → a.moves ≡ some path
      → s.vm.name ≡ p.vm_name
      → s.vm.is_off ≡ true
      → s.disk (rename_destination os a p new_name s.vm) ≡ none
      → t.vm ≡ record s.vm { name = new_name; path = path }
      → RenameEnds os a p new_name s
          (record { site = t; reports = ns; outcome = completes (result_id os a p s.vm) new_name })

module _ (os : Paths) (a : Answers) (p : VmManagementPayload) (new_name : String) (s : Site) where
  move_renamed-ends :
      (o : Option String)
      → a.moves ≡ o
      → s.vm.name ≡ p.vm_name
      → s.vm.is_off ≡ true
      → s.disk (rename_destination os a p new_name s.vm) ≡ none
      → RenameEnds os a p new_name s (move_renamed os a p new_name s o)
  unfolding ascends
  move_renamed-ends none e n f free = renamed_only _ _ refl e n refl
  move_renamed-ends (some path) e n f free = all_done _ _ path refl e n f free refl

  checked-ends :
      s.vm.is_off ≡ true
      → s.disk (rename_destination os a p new_name s.vm) ≡ none
      → RenameEnds os a p new_name s (
          if (s.vm.name == p.vm_name) && a.renames
          then move_renamed os a p new_name s a.moves
          else stops s (5 ∷ 10 ∷ 15 ∷ []) rename_failed)
  unfolding ascends
  checked-ends f free =
      if_elim (RenameEnds os a p new_name s) ((s.vm.name == p.vm_name) && a.renames)
        (λ t.
          move_renamed-ends a.moves refl ((eq_iff s.vm.name p.vm_name).0 (ground (arith, t))) f
            free)
        (λ t. refused (5 ∷ 10 ∷ 15 ∷ []) rename_failed refl (inr refl))

  rename_vm-ends : RenameEnds os a p new_name s (rename_vm os a p new_name s)
  unfolding ascends
  rename_vm-ends =
      if_elim (RenameEnds os a p new_name s) (not (found_vm os a p s.vm))
        (λ t. refused (5 ∷ []) vm_not_found refl (inl refl))
        (λ t.
          if_elim (RenameEnds os a p new_name s) (not s.vm.is_off)
            (λ u. refused (5 ∷ []) vm_not_off refl (inl refl))
            (λ u.
              if_elim (RenameEnds os a p new_name s) (not a.checks)
                (λ v. refused (5 ∷ []) check_failed refl (inl refl))
                (λ v.
                  if_elim (RenameEnds os a p new_name s)
                    (is_there (s.disk (rename_destination os a p new_name s.vm)))
                    (λ w. refused (5 ∷ 10 ∷ []) folder_exists refl (inl refl))
                    (λ w. checked-ends (ground (arith, u)) (nothing _ w)))))

-- A rename reports ascending percentages, and ends in one of three ways. Refused, with nothing changed.
-- Failed in Move-VMStorage, with the machine renamed and its path kept. Or completed: a machine that
-- was off has the new name, under a folder that was free.
handle_vm_rename-RenameEnds :
    (os : Paths) (a : Answers) (p : VmManagementPayload) (new_name : String) (s : Site)
    → RenameEnds os a p new_name s (handle_vm_rename os a p (some new_name) s)
unfolding handle_vm_rename ascends
handle_vm_rename-RenameEnds os a p new_name s =
    if_elim (RenameEnds os a p new_name s) (p.vm_name == "")
      (λ t. refused [] name_required refl (inl refl))
      (λ t.
        if_elim (RenameEnds os a p new_name s) (new_name == "")
          (λ u. refused [] param_required refl (inl refl)) (λ u. rename_vm-ends os a p new_name s))

-- No rename of a machine that has another name than the requested one completes, or changes the host.
other_name :
    (os : Paths) (b : Answers) (p : VmManagementPayload) (new_name : String) (t : Site)
    {x : Handled}
    → t.vm.name ≢ p.vm_name
    → RenameEnds os b p new_name t x
    → (x.site ≡ t) × ((e : RelocateError) × (x.outcome ≡ refuses e))
other_name os b p new_name t n (refused ns e o l) = (refl, (e, refl))
other_name os b p new_name t n (renamed_only u ns o m same v) = absurd (n same)
other_name os b p new_name t n (all_done u ns path o m same f d v) = absurd (n same)

half_renamed :
    (os : Paths) (a : Answers) (p : VmManagementPayload) (new_name : String) (s : Site)
    {x : Handled}
    → x.outcome ≡ refuses move_failed
    → RenameEnds os a p new_name s x
    → x.site.vm ≡ record s.vm { name = new_name }
half_renamed os a p new_name s h (refused ns e o l) = ground (arith, h, l)
half_renamed os a p new_name s h (renamed_only u ns o m same v) = v
half_renamed os a p new_name s h (all_done u ns path o m same f d v) = ground (arith, h)

-- After a rename that failed in its move, handleVMRename refuses every further call that names the machine by
-- its old name, as a request does that gives vm_name, whatever the host then answers, and the machine
-- keeps its new name and its old path, unless the two names are the same. A request without vm_name is
-- not of this kind: handleVMManagement looks its name up by the id.
pub handle_vm_rename-stuck :
    (os : Paths) (a b : Answers) (p : VmManagementPayload) (new_name : String) (s : Site)
    → new_name ≢ p.vm_name
    → (handle_vm_rename os a p (some new_name) s).outcome ≡ refuses move_failed
    → ((handle_vm_rename os a p (some new_name) s).site.vm ≡ record s.vm { name = new_name })
      × ((handle_vm_rename os b p
            (some new_name)
            (handle_vm_rename os a p (some new_name) s).site).site
          ≡ (handle_vm_rename os a p (some new_name) s).site)
      × ((e : RelocateError) × ((handle_vm_rename os b p
              (some new_name)
              (handle_vm_rename os a p (some new_name) s).site).outcome
            ≡ refuses e))
handle_vm_rename-stuck os a b p new_name s n h =
    let v = half_renamed os a p new_name s h (handle_vm_rename-RenameEnds os a p new_name s) in
    let t = (handle_vm_rename os a p (some new_name) s).site in
    let (same, o) =
      other_name os b p new_name t (λ e. n (ap (λ x. x.name) (sym v) ∙ e))
        (handle_vm_rename-RenameEnds os b p new_name t) in
    (v, same, o)
