-- ===== src/Management/Drives.antt =====
-- internal/tasks/vm_management.go: the DVD drive and the high availability of a machine, with what their
-- scripts do; `Answers` says which of their commands work. The parameters are decoded.
use open_v_center_agent_hype.Base.{
  String, ◌≡◌, ◌≢◌, Bool, true, false, not, ◌&&◌, ◌==◌, Option, none, some, arith, eq_iff,
  if◌then◌else◌,
}

pub data Drive : Type 0 where
  no_drive empty : Drive
  holds : String → Drive

pub record Machine : Type 0 where
  pub first_generation : Bool
  pub is_off : Bool
  pub drive : Drive
  pub is_ha : Bool

pub data DriveError : Type 0 where
  name_required path_required has_no_drive already_mounted needs_off not_clustered command_failed :
      DriveError

pub record Answers : Type 0 where
  pub finds_vm : Bool
  pub sets_media : Bool
  pub adds_drive : Bool
  pub sets_boot : Bool
  pub changes_role : Bool

abbrev pub Handled : Type 0
Handled = Machine × Option DriveError

-- Answers under which every command works.
abbrev pub all_work : Answers
all_work = record {
  finds_vm = true;
  sets_media = true;
  adds_drive = true;
  sets_boot = true;
  changes_role = true;
}

module _ (a : Answers) (vm_name : String) where
  abbrev eject : Machine → Drive → Handled
  eject m no_drive = (m, some has_no_drive)
  eject m empty = (m, none)
  eject m (holds path) =
      if a.sets_media then (record m { drive = empty }, none) else (m, some command_failed)

  unfoldable pub handle_eject_dvd : Machine → Handled
  handle_eject_dvd m = if vm_name == "" then (m, some name_required) else eject m m.drive

  -- The machine with the medium, then the order of its boot devices.
  abbrev boots : Machine → Handled
  boots m = (m, if a.sets_boot then none else some command_failed)

  abbrev mount : String → Machine → Drive → Handled
  mount path m (holds old) = (m, some already_mounted)
  mount path m empty =
      if a.sets_media then boots (record m { drive = holds path }) else (m, some command_failed)
  mount path m no_drive =
      if m.first_generation && not m.is_off
      then (m, some needs_off)
      else if a.adds_drive
      then boots (record m { drive = holds path })
      else (m, some command_failed)

  unfoldable pub handle_mount_dvd : String → Machine → Handled
  handle_mount_dvd path m =
      if vm_name == ""
      then (m, some name_required)
      else if path == ""
      then (m, some path_required)
      else if a.finds_vm
      then mount path m m.drive
      else (m, some command_failed)

  -- A machine that already is, or is no longer, highly available is a success.
  unfoldable pub handle_enable_ha : Bool → Machine → Handled
  handle_enable_ha is_cluster_node m =
      if not is_cluster_node
      then (m, some not_clustered)
      else if vm_name == ""
      then (m, some name_required)
      else if m.is_ha
      then (m, none)
      else if a.changes_role
      then (record m { is_ha = true }, none)
      else (m, some command_failed)

  unfoldable pub handle_disable_ha : Bool → Machine → Handled
  handle_disable_ha is_cluster_node m =
      if not is_cluster_node
      then (m, some not_clustered)
      else if vm_name == ""
      then (m, some name_required)
      else if not m.is_ha
      then (m, none)
      else if a.changes_role
      then (record m { is_ha = false }, none)
      else (m, some command_failed)

  mount-drive :
      (path : String) (m : Machine) (d : Drive)
      → (mount path m d).1 ≡ none
      → (mount path m d).0 ≡ record m { drive = holds path }
  mount-drive path m no_drive h = ground arith
  mount-drive path m empty h = ground arith
  mount-drive path m (holds old) h = ground arith

  mounted :
      (path : String) (m : Machine)
      → (handle_mount_dvd path m).1 ≡ none
      → (vm_name ≢ "") × ((handle_mount_dvd path m).0 ≡ record m { drive = holds path })
  unfolding handle_mount_dvd
  mounted path m h = ground (arith, eq_iff vm_name "", mount-drive path m m.drive)

-- On a machine with a medium an eject works, and then a mount does.
eject-then :
    (vm_name path other : String) (m : Machine)
    → vm_name ≢ ""
    → other ≢ ""
    → (handle_eject_dvd all_work vm_name (record m { drive = holds path })
        ≡ (record m { drive = empty }, none))
      × (handle_mount_dvd all_work vm_name other (record m { drive = empty })
          ≡ (record m { drive = holds other }, none))
unfolding handle_eject_dvd handle_mount_dvd
eject-then vm_name path other m n o = ground (arith, eq_iff vm_name "", eq_iff other "")

-- A mount that succeeds leaves the medium in the drive. If commands work then, an eject empties the
-- drive and keeps it, and another medium can be mounted at once, whatever the generation of the machine
-- and whether it runs.
mount_dvd-eject_dvd :
    (a : Answers) (vm_name path other : String) (m : Machine)
    → other ≢ ""
    → (handle_mount_dvd a vm_name path m).1 ≡ none
    → ((handle_mount_dvd a vm_name path m).0 ≡ record m { drive = holds path })
      × (handle_eject_dvd all_work vm_name (handle_mount_dvd a vm_name path m).0
          ≡ (record m { drive = empty }, none))
      × (handle_mount_dvd all_work vm_name other
            (handle_eject_dvd all_work vm_name (handle_mount_dvd a vm_name path m).0).0
          ≡ (record m { drive = holds other }, none))
mount_dvd-eject_dvd a vm_name path other m o h =
    let (n, e) = mounted a vm_name path m h in
    let (ejects, mounts) = eject-then vm_name path other m n o in
    (e, rw e ejects, rw (e, ejects) mounts)

-- If only the boot order cannot be set, the mount fails with the medium in the drive, and every other
-- mount is refused until the medium is ejected.
mount_dvd-half :
    (a b : Answers) (vm_name path other : String) (m : Machine)
    → vm_name ≢ ""
    → path ≢ ""
    → m.drive ≡ empty
    → a.finds_vm ≡ true
    → a.sets_media ≡ true
    → a.sets_boot ≡ false
    → (handle_mount_dvd a vm_name path m ≡ (record m { drive = holds path }, some command_failed))
      × ((handle_mount_dvd b vm_name other (record m { drive = holds path })).1 ≢ none)
unfolding handle_mount_dvd
mount_dvd-half a b vm_name path other m n k d f s t =
    (ground (arith, eq_iff vm_name "", eq_iff path ""), λ e. ground (arith, e))

-- A machine that was made highly available stays so under every further request to, and the same for
-- one that no longer is.
enable_ha-settles :
    (a b : Answers) (vm_name : String) (c : Bool) (m : Machine)
    → (handle_enable_ha a vm_name c m).1 ≡ none
    → (handle_enable_ha a vm_name c m).0.is_ha ≡ true
      × (handle_enable_ha b vm_name c (handle_enable_ha a vm_name c m).0
          ≡ handle_enable_ha a vm_name c m)
unfolding handle_enable_ha
enable_ha-settles a b vm_name c m h = ground arith

disable_ha-settles :
    (a b : Answers) (vm_name : String) (c : Bool) (m : Machine)
    → (handle_disable_ha a vm_name c m).1 ≡ none
    → (handle_disable_ha a vm_name c m).0.is_ha ≡ false
      × (handle_disable_ha b vm_name c (handle_disable_ha a vm_name c m).0
          ≡ handle_disable_ha a vm_name c m)
unfolding handle_disable_ha
disable_ha-settles a b vm_name c m h = ground arith
