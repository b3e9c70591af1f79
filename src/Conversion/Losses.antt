-- ===== src/Conversion/Losses.antt =====
-- internal/tasks/vm_clone.go, vm_management.go: which conversions keep the content of a disk.
use open_v_center_agent_hype.Base.{
  false, ℕ, ◌≡◌, Bool, not, ◌&&◌, ◌||◌, Option, none, some, if◌then◌else◌, arith, List, [], ◌∷◌,
  map, refl,
}
use open_v_center_agent_hype.Conversion.{
  Vhd, Place, Answers, expand_disk, is_there, is_fixed, Handled, shrink_disk,
  expand_cloned_disks_to_fixed, convert_exported_template_disks_to_dynamic,
}

abbrev pub content_at : Option Vhd → Option ℕ
content_at none = none
content_at (some v) = some v.content

-- The conversion came to the renaming of the copy, and that failed.
abbrev pub fails_to_rename : Answers → Place → Bool
fails_to_rename a s =
    a.reads && (not (is_there s.spare) || a.clears_copy) && a.converts && a.removes && not a.renames

-- The contents that the disks have before, less those whose conversion loses the disk.
abbrev pub kept_content : (Answers → Vhd → Bool) → Answers → Place → Option ℕ
kept_content asked a s = elim s.disk [
  | none ↦ none
  | some v ↦ if asked a v && fails_to_rename a s then none else some v.content
]

abbrev pub asks_fixed : Answers → Vhd → Bool
asks_fixed a v = not (is_fixed v.kind) && a.fits

abbrev pub asks_dynamic : Answers → Vhd → Bool
asks_dynamic a v = is_fixed v.kind

expand_disk-content :
    (a : Answers) (d c : Option Vhd)
    → content_at (expand_disk a d (record { disk = d; spare = c })).0.disk
      ≡ kept_content asks_fixed a (record { disk = d; spare = c })
unfolding expand_disk
expand_disk-content a none c = refl
expand_disk-content a (some v) c = ground arith

shrink_disk-content :
    (a : Answers) (d c : Option Vhd)
    → content_at (shrink_disk a d (record { disk = d; spare = c })).0.disk
      ≡ kept_content asks_dynamic a (record { disk = d; spare = c })
unfolding shrink_disk
shrink_disk-content a none c = refl
shrink_disk-content a (some v) c = ground arith

abbrev pub after : List Handled → List (Option ℕ)
after = map (λ h. content_at h.0.disk)

shrunk :
    (ds : List (Answers × Place))
    → after (convert_exported_template_disks_to_dynamic false ds)
      ≡ map (λ d. kept_content asks_dynamic d.0 d.1) ds
unfolding convert_exported_template_disks_to_dynamic
shrunk [] = refl
shrunk ((a, s) ∷ ds) = rw (shrink_disk-content a s.disk s.spare, shrunk ds) refl

expanded :
    (ds : List (Answers × Place))
    → after (expand_cloned_disks_to_fixed ds) ≡ map (λ d. kept_content asks_fixed d.0 d.1) ds
unfolding expand_cloned_disks_to_fixed
expanded [] = refl
expanded ((a, s) ∷ ds) = rw (expand_disk-content a s.disk s.spare, expanded ds) refl

-- After a pass over disks, of a machine that was deployed or of a template without checkpoints, each disk
-- has the content that it had, but for a disk that was to be converted and whose copy could not be
-- renamed after the disk was removed: nothing is left at its path.
pub expand_cloned_disks_to_fixed-content :
    (ds : List (Answers × Place))
    → (after (expand_cloned_disks_to_fixed ds) ≡ map (λ d. kept_content asks_fixed d.0 d.1) ds)
      × (after (convert_exported_template_disks_to_dynamic false ds)
          ≡ map (λ d. kept_content asks_dynamic d.0 d.1) ds)
expand_cloned_disks_to_fixed-content ds = (expanded ds, shrunk ds)
