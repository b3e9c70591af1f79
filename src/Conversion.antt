-- ===== src/Conversion.antt =====
-- internal/tasks/vm_clone.go: expandClonedDisksToFixed; vm_management.go:
-- convertExportedTemplateDisksToDynamic. Both scripts convert a disk beside itself and put the copy in its
-- place. `Answers` says which commands work on a disk; its content is a number.
pub mod Losses
use open_v_center_agent_hype.Base.{
  ℕ, Bool, true, false, not, ◌&&◌, ◌||◌, Option, none, some, List, [], ◌∷◌, if◌then◌else◌, any,
}

pub data Kind : Type 0 where
  fixed dynamic : Kind

pub record Vhd : Type 0 where
  pub kind : Kind
  pub content : ℕ

-- What stands at the path of a disk, and at that of its copy, "_ovc_conv_" before the name.
pub record Place : Type 0 where
  pub disk : Option Vhd
  pub spare : Option Vhd

pub record Answers : Type 0 where
  pub reads : Bool
  pub fits : Bool
  pub clears_copy : Bool
  pub converts : Bool
  pub removes : Bool
  pub renames : Bool
  pub drops_copy : Bool

-- The line that the script writes of a disk; nothing for a disk that needs no conversion.
pub data Line : Type 0 where
  silent converted convert_skipped convert_failed : Line

abbrev pub Handled : Type 0
Handled = Place × Line

abbrev is_fixed : Kind → Bool
is_fixed fixed = true
is_fixed dynamic = false

abbrev pub is_there : Option Vhd → Bool
is_there none = false
is_there (some v) = true

module _ (a : Answers) where
  -- The catch block removes the copy.
  abbrev pub caught : Place → Handled
  caught s = (if a.drops_copy then record s { spare = none } else s, convert_failed)

  -- The disk is removed, and the copy gets its name.
  abbrev pub replace : Kind → Vhd → Handled
  replace target v =
      let spare = record v { kind = target } in
      if not a.removes
      then caught (record { disk = some v; spare = some spare })
      else if a.renames
      then (record { disk = some spare; spare = none }, converted)
      else caught (record { disk = none; spare = some spare })

  abbrev pub convert : Kind → Vhd → Place → Handled
  convert target v s =
      if is_there s.spare && not a.clears_copy
      then caught s
      else if a.converts
      then replace target v
      else caught (record s { spare = none })

  -- A disk of a machine that was deployed.
  unfoldable pub expand_disk : Option Vhd → Place → Handled
  expand_disk none s = (s, convert_failed)
  expand_disk (some v) s =
      if not a.reads
      then (s, convert_failed)
      else if is_fixed v.kind
      then (s, silent)
      else if a.fits
      then convert fixed v s
      else (s, convert_skipped)

  -- A disk of a template that was exported.
  unfoldable pub shrink_disk : Option Vhd → Place → Handled
  shrink_disk none s = (s, convert_failed)
  shrink_disk (some v) s =
      if not a.reads
      then (s, convert_failed)
      else if is_fixed v.kind
      then convert dynamic v s
      else (s, silent)

-- Every disk with its answers, in order.
unfoldable pub expand_cloned_disks_to_fixed : List (Answers × Place) → List Handled
expand_cloned_disks_to_fixed [] = []
expand_cloned_disks_to_fixed ((a, s) ∷ ds) =
    expand_disk a s.disk s ∷ expand_cloned_disks_to_fixed ds

abbrev shrink_all : List (Answers × Place) → List Handled
shrink_all [] = []
shrink_all ((a, s) ∷ ds) = shrink_disk a s.disk s ∷ shrink_all ds

-- With a checkpoint among the files nothing is converted.
unfoldable pub convert_exported_template_disks_to_dynamic :
    Bool → List (Answers × Place) → List Handled
convert_exported_template_disks_to_dynamic has_checkpoint ds =
    if has_checkpoint then [] else shrink_all ds
