-- ===== src/Deletion/Files.antt =====
-- internal/tasks/vm_management.go: what handleVMDelete removes.
use open_v_center_agent_hype.Scripts.{kept}
use open_v_center_agent_hype.Base.{
  some, Option, ◌≡◌, refl, Bool, true, false, List, [], ◌∷◌, ◌++◌, Text, arith, any, none, sym, ap,
  ◌∙◌, text_eq, ◌&&◌,
}
use open_v_center_agent_hype.Deletion.{
  targets, refuses, DeleteError, deleted, Host, handle_vm_delete, Answers, remove_files,
  remove_item, remove_failed, Paths, prune_folders, prune, pruned, clean_files, disk_paths,
}

module _ (os : Paths) (a : Answers) where
  -- A path that stands in none of the targets is as it was.
  remove_files-keeps :
      (ts : List Text) (files : Text → Bool) (p : Text)
      → any (λ t. os.under t p) ts ≡ false
      → (remove_files os a ts files).0 p ≡ files p
  unfolding remove_files
  remove_files-keeps [] files p h = refl
  remove_files-keeps (t ∷ ts) files p h =
      let absent = remove_files-keeps ts files p (ground (arith, h)) in
      let removed = remove_files-keeps ts (remove_item os a t files) p (ground (arith, h)) in
      ground (arith, absent, removed, h)

  -- A path that is absent stays so.
  remove_files-absent :
      (ts : List Text) (files : Text → Bool) (p : Text)
      → files p ≡ false
      → (remove_files os a ts files).0 p ≡ false
  unfolding remove_files
  remove_files-absent [] files p h = h
  remove_files-absent (t ∷ ts) files p h =
      let absent = remove_files-absent ts files p h in
      let removed = remove_files-absent ts (remove_item os a t files) p (ground (arith, h)) in
      ground (arith, absent, removed, h)

  -- If the removal says that it worked, what stands in a target is absent.
  remove_files-removes :
      (before after : List Text) (t : Text) (files : Text → Bool)
      → os.under t t ≡ true
      → (remove_files os a (before ++ t ∷ after) files).1 ≡ true
      → (remove_files os a (before ++ t ∷ after) files).0 t ≡ false
  unfolding remove_files
  remove_files-removes [] after t files u h =
      let absent = remove_files-absent after files t in
      let removed = remove_files-absent after (remove_item os a t files) t (ground (arith, u)) in
      ground (arith, absent, removed, h)
  remove_files-removes (b ∷ before) after t files u h =
      let absent = remove_files-removes before after t files u in
      let removed = remove_files-removes before after t (remove_item os a b files) u in
      ground (arith, absent, removed, h)

  -- The pruning of folders keeps the other paths, and adds none.
  prune_folders-keeps :
      (ts : List Text) (files : Text → Bool) (p : Text)
      → any (λ t. os.is_disks_folder (os.parent t) && text_eq (os.parent t) p) ts ≡ false
      → prune_folders os a ts files p ≡ files p
  unfolding prune_folders
  prune_folders-keeps [] files p h = refl
  prune_folders-keeps (t ∷ ts) files p h =
      prune_folders-keeps ts (prune os a (os.parent t) files) p (ground (arith, h))
      ∙ ground (arith, h)

  prune_folders-absent :
      (ts : List Text) (files : Text → Bool) (p : Text)
      → files p ≡ false
      → prune_folders os a ts files p ≡ false
  unfolding prune_folders
  prune_folders-absent [] files p h = h
  prune_folders-absent (t ∷ ts) files p h =
      prune_folders-absent ts (prune os a (os.parent t) files) p (ground (arith, h))

  -- What a deletion that says that the files are gone did.
  deletes-targets :
      (c : Bool) (w : Option Bool) (h : Host) (b : Bool)
      → (handle_vm_delete os a c w h).1 ≡ deleted (some b)
      → ((handle_vm_delete os a c w h).0.has_vm ≡ false)
        × ((handle_vm_delete os a c w h).0.has_file ≡ (clean_files os a h.has_file).0)
        × ((clean_files os a h.has_file).1 ≡ b)
  unfolding handle_vm_delete
  deletes-targets c none h b e = ground (arith, e)
  deletes-targets c (some wanted) h b e = ground (arith, e)

  all_removed :
      (r : (Text → Bool) × Bool)
      → (pruned os a r).1 ≡ true
      → (r.1 ≡ true) × ((pruned os a r).0 ≡ prune_folders os a (targets os a) r.0)
  all_removed (files, true) h = (refl, refl)
  all_removed (files, false) h = ground (arith, h)

  -- An error leaves the machine and every file.
  refuses-keeps :
      (c : Bool) (w : Option Bool) (h : Host) (err : DeleteError)
      → (handle_vm_delete os a c w h).1 ≡ refuses err
      → ((handle_vm_delete os a c w h).0.has_vm ≡ h.has_vm)
        × ((handle_vm_delete os a c w h).0.has_file ≡ h.has_file)
  unfolding handle_vm_delete
  refuses-keeps c none h err e = ground (arith, e)
  refuses-keeps c (some wanted) h err e = ground (arith, e)

-- If a deletion says that the files are gone, the machine is gone, and nothing is left at any of the targets:
-- its folder, and its disks if they could be listed. A path that stands in none of these, and is not the
-- "Virtual Hard Disks" folder of one, is as it was.
pub handle_vm_delete-remove_files :
    (os : Paths) (a : Answers) (c : Bool) (w : Option Bool) (h : Host) (before after : List Text)
    (t p : Text)
    → os.under t t ≡ true
    → targets os a ≡ before ++ t ∷ after
    → any (λ target. os.under target p) (targets os a) ≡ false
    → any (λ t. os.is_disks_folder (os.parent t) && text_eq (os.parent t) p) (targets os a) ≡ false
    → (handle_vm_delete os a c w h).1 ≡ deleted (some true)
    → ((handle_vm_delete os a c w h).0.has_vm ≡ false)
      × ((handle_vm_delete os a c w h).0.has_file t ≡ false)
      × ((handle_vm_delete os a c w h).0.has_file p ≡ h.has_file p)
handle_vm_delete-remove_files os a c w h before after t p u e n q o =
    let (gone, files, all) = deletes-targets os a c w h true o in
    let (done, left) = all_removed os a (remove_files os a (targets os a) h.has_file) all in
    let done' : (remove_files os a (before ++ t ∷ after) h.has_file).1 ≡ true = rw (sym e) done in
    let absent = remove_files-removes os a before after t h.has_file u done' in
    (
      gone,
      ap (λ f. f t) (files ∙ left)
          ∙ prune_folders-absent os a (targets os a) (remove_files os a (targets os a) h.has_file).0
              t (ap (λ ts. (remove_files os a ts h.has_file).0 t) e ∙ absent),
      ap (λ f. f p) (files ∙ left)
          ∙ prune_folders-keeps os a (targets os a) (remove_files os a (targets os a) h.has_file).0
              p q
          ∙ remove_files-keeps os a (targets os a) h.has_file p n,
    )

-- Where the disks cannot be listed, a deletion says that the files are gone though a disk that stands outside
-- the folder is as it was.
handle_vm_delete-unlisted :
    (os : Paths) (a : Answers) (c : Bool) (w : Option Bool) (h : Host) (p : Text)
    → a.disk_lines ≡ none
    → any (λ target. os.under target p) (kept (a.path ∷ [])) ≡ false
    → any (λ t. os.is_disks_folder (os.parent t) && text_eq (os.parent t) p) (kept (a.path ∷ []))
      ≡ false
    → (handle_vm_delete os a c w h).1 ≡ deleted (some true)
    → (handle_vm_delete os a c w h).0.has_file p ≡ h.has_file p
handle_vm_delete-unlisted os a c w h p d n q o =
    let (gone, files, all) = deletes-targets os a c w h true o in
    let (done, left) = all_removed os a (remove_files os a (targets os a) h.has_file) all in
    let only : targets os a ≡ kept (a.path ∷ []) = ap (λ x. kept (a.path ∷ disk_paths os a x)) d in
    ap (λ f. f p) (files ∙ left)
    ∙ prune_folders-keeps os a (targets os a) (remove_files os a (targets os a) h.has_file).0 p
        (ap (any (λ t. os.is_disks_folder (os.parent t) && text_eq (os.parent t) p)) only ∙ q)
    ∙ remove_files-keeps os a (targets os a) h.has_file p
        (ap (any (λ target. os.under target p)) only ∙ n)

-- Where a machine with a role in a cluster cannot be removed, the deletion fails and the role is gone.
handle_vm_delete-unclustered :
    (os : Paths) (a : Answers) (wanted : Bool) (h : Host)
    → h.has_vm ≡ true
    → a.is_off ≡ true
    → a.checks ≡ true
    → a.removes_role ≡ true
    → a.removes_vm ≡ false
    → handle_vm_delete os a true (some wanted) h
      ≡ (record h { has_role = false }, refuses remove_failed)
unfolding handle_vm_delete
handle_vm_delete-unclustered os a wanted h v o k r f = ground (arith, v, o, k, r, f)
