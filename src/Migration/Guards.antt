-- ===== src/Migration/Guards.antt =====
-- internal/tasks/vm_management.go: which migrations handleVMMigrate runs.
use open_v_center_agent_hype.Base.{
  ◌≡◌, ◌⊎◌, inl, inr, refl, String, Bool, true, false, not, ◌==◌, Option, none, some, List, [], ◌∷◌,
  nat_eq, if_elim, arith, if◌then◌else◌, any,
}
use open_v_center_agent_hype.Management.{VmManagementPayload}
use open_v_center_agent_hype.Migration.{
  Cluster, ClusterNode, Reply, Listing, lists, Command, move_vm, move_cluster_role, MigrationType,
  live, quick, Handled, MigrateError, refused, find_node, cluster_migration_type, handle_vm_migrate,
  require_live_migration_support, migrate_vm_without_cluster, live_not_supported, after_move_vm,
  after_move_role, to_node, in_cluster, guarded, is_live, works, not_found, fails, vm_not_found,
  migrate_failed, query_fails, unreadable, not_up, nodes_unknown, nodes_unreadable, name_required,
  target_required,
}

-- What a script that ran leaves as error.
abbrev role_error : Reply → Option MigrateError
role_error works = none
role_error not_found = some migrate_failed
role_error fails = some migrate_failed

abbrev vm_error : Reply → Option MigrateError
vm_error works = none
vm_error not_found = some vm_not_found
vm_error fails = some migrate_failed

module _ (equal_fold : String → String → Bool) (c : Cluster) (target : String) where
  -- Which migration is run, if any: of a role, to a node of the cluster that is up; or of the machine
  -- itself, which is live, where there is no cluster or it supports live migration.
  pub data Migrates : Handled → Type 0 where
    by_role :
        (ns : List ClusterNode) (n : ClusterNode)
        → c.is_cluster_node ≡ true
        → c.nodes ≡ lists ns
        → find_node equal_fold c target ns ≡ some n
        → n.state ≡ 0
        → c.says_cluster_vm ≡ true
        → Migrates (
          move_cluster_role target (cluster_migration_type equal_fold c) ∷ [],
          role_error c.moves_role,
        )
    whole :
        (c.is_cluster_node ≡ false) ⊎ (cluster_migration_type equal_fold c ≡ live)
        → Migrates (move_vm target ∷ [], vm_error c.moves_vm)
    none_run : (e : MigrateError) → Migrates (refused e)

  -- The error of each script, by its reply.
  role_ran :
      (r : Reply)
      → after_move_role equal_fold c target r
        ≡ (move_cluster_role target (cluster_migration_type equal_fold c) ∷ [], role_error r)
  role_ran works = refl
  role_ran not_found = refl
  role_ran fails = refl

  vm_ran : (r : Reply) → after_move_vm equal_fold c target r ≡ (move_vm target ∷ [], vm_error r)
  vm_ran works = refl
  vm_ran not_found = refl
  vm_ran fails = refl

  whole_ran :
      (c.is_cluster_node ≡ false) ⊎ (cluster_migration_type equal_fold c ≡ live)
      → Migrates (migrate_vm_without_cluster equal_fold c target)
  unfolding migrate_vm_without_cluster
  whole_ran s = rw (vm_ran c.moves_vm) (whole s)

  guarded_ran :
      (t : MigrationType)
      → cluster_migration_type equal_fold c ≡ t
      → Migrates (
          guarded equal_fold c target
            (if is_live equal_fold c t then none else some live_not_supported))
  guarded_ran live e = whole_ran (inr e)
  guarded_ran quick e = none_run live_not_supported

  supported_ran :
      Migrates (guarded equal_fold c target (require_live_migration_support equal_fold c))
  unfolding require_live_migration_support
  supported_ran = guarded_ran (cluster_migration_type equal_fold c) refl

  role_moved :
      (ns : List ClusterNode) (n : ClusterNode)
      → c.is_cluster_node ≡ true
      → c.nodes ≡ lists ns
      → find_node equal_fold c target ns ≡ some n
      → n.state ≡ 0
      → Migrates (
          if c.says_cluster_vm
          then after_move_role equal_fold c target c.moves_role
          else guarded equal_fold c target (require_live_migration_support equal_fold c))
  role_moved ns n k l f u =
      if_elim Migrates c.says_cluster_vm (λ t. rw (role_ran c.moves_role) (by_role ns n k l f u t))
        (λ t. supported_ran)

  to_node_ran :
      (ns : List ClusterNode) (o : Option ClusterNode)
      → c.is_cluster_node ≡ true
      → c.nodes ≡ lists ns
      → find_node equal_fold c target ns ≡ o
      → Migrates (to_node equal_fold c target o)
  to_node_ran ns none k l f = supported_ran
  to_node_ran ns (some n) k l f =
      if_elim Migrates (not (nat_eq n.state 0)) (λ t. none_run not_up)
        (λ t. role_moved ns n k l f (ground (arith, t)))

  in_cluster_ran :
      (l : Listing)
      → c.is_cluster_node ≡ true
      → c.nodes ≡ l
      → Migrates (in_cluster equal_fold c target l)
  in_cluster_ran query_fails k e = none_run nodes_unknown
  in_cluster_ran unreadable k e = none_run nodes_unreadable
  in_cluster_ran (lists ns) k e = to_node_ran ns (find_node equal_fold c target ns) k e refl

-- A migration runs at most one script that moves a machine. It moves the role, to the first node of that
-- name, which is up, of the cluster; or the machine with its storage, where there is no cluster or the
-- cluster supports live migration. Else it is an error and nothing was run.
pub handle_vm_migrate-Migrates :
    (equal_fold : String → String → Bool) (c : Cluster) (p : VmManagementPayload) (target : String)
    → Migrates equal_fold c target (handle_vm_migrate equal_fold c p (some target))
unfolding handle_vm_migrate
handle_vm_migrate-Migrates equal_fold c p target =
    if_elim (Migrates equal_fold c target) (p.vm_name == "") (λ t. none_run name_required)
      (λ t.
        if_elim (Migrates equal_fold c target) (target == "") (λ u. none_run target_required)
          (λ u.
            if_elim (Migrates equal_fold c target) c.is_cluster_node
              (λ k. in_cluster_ran equal_fold c target c.nodes k refl)
              (λ k. whole_ran equal_fold c target (inl k))))

abbrev pub goes_live : Command → Bool
goes_live (move_vm target) = true
goes_live (move_cluster_role target live) = true
goes_live (move_cluster_role target quick) = false

quick_type :
    (equal_fold : String → String → Bool) (c : Cluster) (point : String)
    → c.access_point ≡ some point
    → equal_fold point "ActiveDirectoryAndDns" ≡ false
    → cluster_migration_type equal_fold c ≡ quick
unfolding cluster_migration_type
quick_type equal_fold c point a f = rw (a, f) refl

only_quick :
    (equal_fold : String → String → Bool) (c : Cluster) (target : String) {x : Handled}
    → c.is_cluster_node ≡ true
    → cluster_migration_type equal_fold c ≡ quick
    → Migrates equal_fold c target x
    → any goes_live x.0 ≡ false
only_quick equal_fold c target k q (by_role ns n j l f u t) = rw q refl
only_quick equal_fold c target k q (whole (inl j)) = ground (arith, k, j)
only_quick equal_fold c target k q (whole (inr j)) = ground (arith, q, j)
only_quick equal_fold c target k q (none_run e) = refl

-- In a cluster whose access point is not that of an Active Directory, every migration that is run is a
-- quick migration of a role, whatever the request.
handle_vm_migrate-quick :
    (equal_fold : String → String → Bool) (c : Cluster) (p : VmManagementPayload)
    (target point : String)
    → c.is_cluster_node ≡ true
    → c.access_point ≡ some point
    → equal_fold point "ActiveDirectoryAndDns" ≡ false
    → any goes_live (handle_vm_migrate equal_fold c p (some target)).0 ≡ false
handle_vm_migrate-quick equal_fold c p target point k a f =
    only_quick equal_fold c target k (quick_type equal_fold c point a f)
      (handle_vm_migrate-Migrates equal_fold c p target)
