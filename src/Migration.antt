-- ===== src/Migration.antt =====
-- internal/tasks/vm_management.go: handleVMMigrate, with clusterMigrationType, requireLiveMigrationSupport
-- and migrateVMWithoutCluster. The cluster and the scripts answer through `Cluster`.
pub mod Guards
use open_v_center_agent_hype.Base.{
  ℕ, String, Bool, true, false, not, ◌==◌, Option, none, some, List, [], ◌∷◌, if◌then◌else◌, nat_eq,
}
use open_v_center_agent_hype.Management.{VmManagementPayload}

-- A node of the cluster; the state 0 is Up.
pub record ClusterNode : Type 0 where
  pub name : String
  pub state : ℕ

-- What Get-ClusterNode answers.
pub data Listing : Type 0 where
  query_fails unreadable : Listing
  lists : List ClusterNode → Listing

pub data Reply : Type 0 where
  works not_found fails : Reply

-- `access_point` is what the cluster prints of its access point, trimmed, and `none` where the script
-- fails; `says_cluster_vm` is whether the check of the role prints CLUSTER_VM.
pub record Cluster : Type 0 where
  pub is_cluster_node : Bool
  pub nodes : Listing
  pub access_point : Option String
  pub says_cluster_vm : Bool
  pub moves_role : Reply
  pub moves_vm : Reply

pub data MigrateError : Type 0 where
  name_required invalid_params target_required nodes_unknown nodes_unreadable not_up
        live_not_supported vm_not_found migrate_failed :
      MigrateError

pub data MigrationType : Type 0 where
  live quick : MigrationType

-- The scripts that move a machine: its role in the cluster, or the machine with its storage.
pub data Command : Type 0 where
  move_cluster_role : String → MigrationType → Command
  move_vm : String → Command

-- The scripts of this kind that were run, and the error, if any.
abbrev pub Handled : Type 0
Handled = List Command × Option MigrateError

abbrev pub refused : MigrateError → Handled
refused e = ([], some e)

-- strings.EqualFold.
module _ (equal_fold : String → String → Bool) (c : Cluster) where
  abbrev type_of : Option String → MigrationType
  type_of none = live
  type_of (some point) = if equal_fold point "ActiveDirectoryAndDns" then live else quick

  unfoldable pub cluster_migration_type : MigrationType
  cluster_migration_type = type_of c.access_point

  abbrev pub is_live : MigrationType → Bool
  is_live live = true
  is_live quick = false

  unfoldable pub require_live_migration_support : Option MigrateError
  require_live_migration_support =
      if is_live cluster_migration_type then none else some live_not_supported

  abbrev after_move_vm : String → Reply → Handled
  after_move_vm target works = (move_vm target ∷ [], none)
  after_move_vm target not_found = (move_vm target ∷ [], some vm_not_found)
  after_move_vm target fails = (move_vm target ∷ [], some migrate_failed)

  unfoldable pub migrate_vm_without_cluster : String → Handled
  migrate_vm_without_cluster target = after_move_vm target c.moves_vm

  abbrev guarded : String → Option MigrateError → Handled
  guarded target none = migrate_vm_without_cluster target
  guarded target (some e) = refused e

  -- The first node of the name, whatever the case of its letters.
  abbrev pub find_node : String → List ClusterNode → Option ClusterNode
  find_node target [] = none
  find_node target (n ∷ ns) =
      let rest = find_node target ns in if equal_fold n.name target then some n else rest

  abbrev after_move_role : String → Reply → Handled
  after_move_role target works = (move_cluster_role target cluster_migration_type ∷ [], none)
  after_move_role target _ =
      (move_cluster_role target cluster_migration_type ∷ [], some migrate_failed)

  abbrev to_node : String → Option ClusterNode → Handled
  to_node target none = guarded target require_live_migration_support
  to_node target (some n) =
      if not (nat_eq n.state 0)
      then refused not_up
      else if c.says_cluster_vm
      then after_move_role target c.moves_role
      else guarded target require_live_migration_support

  abbrev in_cluster : String → Listing → Handled
  in_cluster target query_fails = refused nodes_unknown
  in_cluster target unreadable = refused nodes_unreadable
  in_cluster target (lists ns) = to_node target (find_node target ns)

  abbrev to_target : String → Handled
  to_target target =
      if c.is_cluster_node then in_cluster target c.nodes else migrate_vm_without_cluster target

  unfoldable pub handle_vm_migrate : VmManagementPayload → Option String → Handled
  handle_vm_migrate p none =
      if p.vm_name == "" then refused name_required else refused invalid_params
  handle_vm_migrate p (some target) =
      if p.vm_name == ""
      then refused name_required
      else if target == ""
      then refused target_required
      else to_target target
