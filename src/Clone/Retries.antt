-- ===== src/Clone/Retries.antt =====
-- internal/tasks/vm_clone.go: a clone whose import failed after it had made the folder, and the next one.
use mathlib.Core.Path.{subst}
use open_v_center_agent_hype.Base.{
  ◌≡◌, refl, String, true, not, ◌&&◌, ◌||◌, ◌==◌, Option, none, some, if_elim, arith, ◌∙◌, ap, ltb,
  if◌then◌else◌, List, ◌∷◌, eq_refl, sym, Bool, false,
}
use open_v_center_agent_hype.Queue.Classifier.{among}
use open_v_center_agent_hype.Clone.{
  VmClonePayload, Host, Answers, Run, CloneError, refuses, precheck, check_source, handle_vm_clone,
  check_failed, name_taken, folder_exists, disks_unknown, no_space, source_required,
  export_required, no_destination, type_required, invalid_type, name_required, or_resolved, Outcome,
  clones, import_failed, import_vm, export_source, no_machine, Source, missing, running,
  with_snapshots, ready,
}

abbrev clone_destination : Answers → VmClonePayload → Option String
clone_destination a p = if p.path == "" then a.resolved else some p.path

abbrev IsRefused : Host → Run → Type 0
IsRefused h r = (e : CloneError) × (r ≡ (h, refuses e))

precheck-IsRefused :
    (a : Answers) (p : VmClonePayload) (dir : String) (h : Host)
    → among h.folders dir ≡ true
    → IsRefused h (precheck a p dir h)
unfolding precheck
precheck-IsRefused a p dir h e =
    if_elim (IsRefused h) (not a.checks) (λ _. (check_failed, refl))
      λ _.
        if_elim (IsRefused h) (among h.machines p.name) (λ _. (name_taken, refl))
          λ _.
            if_elim (IsRefused h) (among h.folders dir) (λ _. (folder_exists, refl))
              λ f. ground (arith, e, f)

check_source-IsRefused :
    (a : Answers) (p : VmClonePayload) (dir : String) (h : Host)
    → among h.folders dir ≡ true
    → IsRefused h (check_source a p dir h)
check_source-IsRefused a p dir h e =
    if_elim (IsRefused h) ((p.clone_type == "imported") && (p.source_vm_name == ""))
      (λ _. (source_required, refl))
      λ _.
        if_elim (IsRefused h) ((p.clone_type == "exported") && (p.source_export_path == ""))
          (λ _. (export_required, refl))
          λ _.
            if_elim (IsRefused h) ((p.clone_type == "imported") && not a.finds_disks)
              (λ _. (disks_unknown, refl))
              λ _.
                if_elim (IsRefused h) (ltb 0 a.source_bytes && not a.has_space)
                  (λ _. (no_space, refl)) λ _. precheck-IsRefused a p dir h e

or_resolved-IsRefused :
    (a : Answers) (p : VmClonePayload) (o : Option String) (h : Host)
    → ((dir : String) → o ≡ some dir → among h.folders dir ≡ true)
    → IsRefused h (or_resolved a p o h)
or_resolved-IsRefused a p none h f = (no_destination, refl)
or_resolved-IsRefused a p (some dir) h f = check_source-IsRefused a p dir h (f dir refl)

-- A clone into a folder that exists is refused, and changes nothing.
handle_vm_clone-IsRefused :
    (a : Answers) (p : VmClonePayload) (h : Host)
    → ((dir : String) → clone_destination a p ≡ some dir → among h.folders dir ≡ true)
    → IsRefused h (handle_vm_clone a p h)
unfolding handle_vm_clone
handle_vm_clone-IsRefused a p h f =
    if_elim (IsRefused h) (p.clone_type == "") (λ _. (type_required, refl))
      λ _.
        if_elim (IsRefused h) (not ((p.clone_type == "imported") || (p.clone_type == "exported")))
          (λ _. (invalid_type, refl))
          λ _.
            if_elim (IsRefused h) (p.name == "") (λ _. (name_required, refl))
              λ _.
                if_elim (IsRefused h) (p.path == "")
                  (λ t.
                    or_resolved-IsRefused a p a.resolved h
                      λ dir d. f dir (ap (λ b. if b then a.resolved else some p.path) t ∙ d))
                  λ t.
                    check_source-IsRefused a p p.path h
                      (f p.path (ap (λ b. if b then a.resolved else some p.path) t))

abbrev or_empty : Option String → String
or_empty none = ""
or_empty (some s) = s

abbrev is_import_failed : Outcome → Bool
is_import_failed (refuses import_failed) = true
is_import_failed (refuses e) = false
is_import_failed (clones c) = false

-- A run whose import failed leaves the folder.
abbrev Leaves : String → Run → Type 0
Leaves dir r = is_import_failed r.1 ≡ true → among r.0.folders dir ≡ true

among-head : (dir : String) (dirs : List String) → among (dir ∷ dirs) dir ≡ true
among-head dir dirs = ground (arith, eq_refl dir)

import_vm-Leaves :
    (a : Answers) (p : VmClonePayload) (dir : String) (h : Host)
    → Leaves dir (import_vm a p dir no_machine h)
import_vm-Leaves a p dir h k = ground (arith, among-head dir h.folders)

export_source-Leaves :
    (a : Answers) (p : VmClonePayload) (dir : String) (s : Source) (h : Host)
    → a.imports ≡ no_machine
    → Leaves dir (export_source a p dir s h)
export_source-Leaves a p dir missing h m = λ k. ground (arith, k)
export_source-Leaves a p dir running h m = λ k. ground (arith, k)
export_source-Leaves a p dir with_snapshots h m = λ k. ground (arith, k)
export_source-Leaves a p dir ready h m =
    if_elim (Leaves dir) a.exports
      (λ _.
        subst (λ i. Leaves dir (import_vm a p dir i (record h { has_export = true }))) (sym m)
          (import_vm-Leaves a p dir (record h { has_export = true })))
      λ _ k. ground (arith, k)

precheck-Leaves :
    (a : Answers) (p : VmClonePayload) (dir : String) (h : Host)
    → a.imports ≡ no_machine
    → Leaves dir (precheck a p dir h)
unfolding precheck
precheck-Leaves a p dir h m =
    if_elim (Leaves dir) (not a.checks) (λ _ k. ground (arith, k))
      λ _.
        if_elim (Leaves dir) (among h.machines p.name) (λ _ k. ground (arith, k))
          λ _.
            if_elim (Leaves dir) (among h.folders dir) (λ _ k. ground (arith, k))
              λ _.
                if_elim (Leaves dir) (p.clone_type == "imported")
                  (λ _. export_source-Leaves a p dir a.source h m)
                  λ _.
                    subst (λ i. Leaves dir (import_vm a p dir i h)) (sym m)
                      (import_vm-Leaves a p dir h)

check_source-Leaves :
    (a : Answers) (p : VmClonePayload) (dir : String) (h : Host)
    → a.imports ≡ no_machine
    → Leaves dir (check_source a p dir h)
check_source-Leaves a p dir h m =
    if_elim (Leaves dir) ((p.clone_type == "imported") && (p.source_vm_name == ""))
      (λ _ k. ground (arith, k))
      λ _.
        if_elim (Leaves dir) ((p.clone_type == "exported") && (p.source_export_path == ""))
          (λ _ k. ground (arith, k))
          λ _.
            if_elim (Leaves dir) ((p.clone_type == "imported") && not a.finds_disks)
              (λ _ k. ground (arith, k))
              λ _.
                if_elim (Leaves dir) (ltb 0 a.source_bytes && not a.has_space)
                  (λ _ k. ground (arith, k)) λ _. precheck-Leaves a p dir h m

handle_vm_clone-Leaves :
    (a : Answers) (p : VmClonePayload) (dir : String) (h : Host)
    → clone_destination a p ≡ some dir
    → a.imports ≡ no_machine
    → Leaves dir (handle_vm_clone a p h)
unfolding handle_vm_clone
handle_vm_clone-Leaves a p dir h d m =
    if_elim (Leaves dir) (p.clone_type == "") (λ _ k. ground (arith, k))
      λ _.
        if_elim (Leaves dir) (not ((p.clone_type == "imported") || (p.clone_type == "exported")))
          (λ _ k. ground (arith, k))
          λ _.
            if_elim (Leaves dir) (p.name == "") (λ _ k. ground (arith, k))
              λ _.
                if_elim (Leaves dir) (p.path == "")
                  (λ t.
                    subst (λ o. Leaves dir (or_resolved a p o h))
                      (sym (sym (ap (λ b. if b then a.resolved else some p.path) t) ∙ d))
                      (check_source-Leaves a p dir h m))
                  λ t.
                    subst (λ x. Leaves dir (check_source a p x h))
                      (sym (
                        ap (or_empty)
                          (sym (ap (λ b. if b then a.resolved else some p.path) t) ∙ d)))
                      (check_source-Leaves a p dir h m)

-- A clone whose import made the folder and then failed without a machine: whatever the host answers
-- next, the same request is refused, if it goes to the same folder.
handle_vm_clone-stuck :
    (a b : Answers) (p : VmClonePayload) (dir : String) (h : Host)
    → clone_destination a p ≡ some dir
    → clone_destination b p ≡ some dir
    → a.imports ≡ no_machine
    → (handle_vm_clone a p h).1 ≡ refuses import_failed
    → IsRefused (handle_vm_clone a p h).0 (handle_vm_clone b p (handle_vm_clone a p h).0)
handle_vm_clone-stuck a b p dir h d e m f =
    handle_vm_clone-IsRefused b p (handle_vm_clone a p h).0 λ other o.
      subst (λ x. among (handle_vm_clone a p h).0.folders x ≡ true) (ap or_empty (sym e ∙ o))
        (handle_vm_clone-Leaves a p dir h d m (ap is_import_failed f))
