-- ===== src/Relocate/Destinations.antt =====
-- internal/tasks/vm_management.go: handleVMMove, and resolveStandaloneMoveDestination.
use open_v_center_agent_hype.Base.{
  ℕ, String, Bool, not, ◌&&◌, ◌||◌, ◌==◌, Option, none, some, List, [], ◌∷◌, ◌++◌, if◌then◌else◌,
}
use open_v_center_agent_hype.Batch.{map_vm_move_progress}
use open_v_center_agent_hype.Folders.{cleanup_empty_dir}
use open_v_center_agent_hype.Management.{VmManagementPayload}
use open_v_center_agent_hype.Relocate.{
  name_required, check_failed, param_required, vm_not_found, invalid_params, completes,
  folder_exists, not_allowed, move_failed, Site, PlacedVm, Answers, Paths, Handled, stops, is_there,
  stream_reports, result_id, found_vm,
}

-- What a host says of itself: its part in a cluster, its default path ("" where it cannot be read) and the
-- configured roots.
pub record Host : Type 0 where
  pub is_cluster_node : Bool
  pub default_path : String
  pub additional_storage : List String

module _ (os : Paths) where
  abbrev pub requested_path : String → String
  requested_path d =
      os.clean
        (if os.equal_fold (os.base_name (os.clean d)) "HyperV" then d else os.join d "HyperV")

  -- A path is the requested one, or on its volume.
  abbrev pub matches : String → String → Bool
  matches requested path =
      os.equal_fold (os.clean path) requested
      || (not (os.volume requested == "") && os.equal_fold (os.volume path) (os.volume requested))

  abbrev pub first_match : String → List String → Option String
  first_match requested [] = none
  first_match requested (root ∷ roots) =
      let rest = first_match requested roots in if matches requested root then some root else rest

  unfoldable pub resolve_standalone_move_destination : Host → String → Option String
  resolve_standalone_move_destination h d =
      if not (h.default_path == "") && matches (requested_path d) h.default_path
      then some (requested_path d)
      else first_match (requested_path d) h.additional_storage

  abbrev pub resolve : Host → String → Option String
  resolve h d = if h.is_cluster_node then some d else resolve_standalone_move_destination h d

  abbrev pub move_destination : String → PlacedVm → String
  move_destination storage vm =
      os.join (if os.contains_hyper storage then storage else os.join storage "HyperV") vm.name

  module _ (a : Answers) (p : VmManagementPayload) where
    abbrev streamed : List ℕ
    streamed = stream_reports map_vm_move_progress 5 a.lines

    abbrev pub move_fails : String → Site → Handled
    move_fails destination s =
        stops (record s { disk = cleanup_empty_dir a.remove_all destination s.disk })
          (1 ∷ 3 ∷ 5 ∷ streamed) move_failed

    -- The script finds a role of the cluster by the id, and any other machine by the name; it then reads
    -- the path of the machine by the name.
    abbrev pub after_move : String → Site → Option String → Handled
    after_move destination s none = move_fails destination (record s { disk = a.leaves s.disk })
    after_move destination s (some path) =
        let moved : Site = record { vm = record s.vm { path = path }; disk = a.leaves s.disk } in
        if (s.vm.name == p.vm_name) && os.equal_fold path destination
        then record {
          site = record moved { disk = cleanup_empty_dir a.remove_all s.vm.path moved.disk };
          reports = 1 ∷ 3 ∷ 5 ∷ (streamed ++ (100 ∷ []));
          outcome = completes (result_id os a p s.vm) p.vm_name;
        }
        else move_fails destination moved

    abbrev pub is_reached : Host → PlacedVm → Bool
    is_reached h vm =
        (vm.name == p.vm_name) || (h.is_cluster_node && a.is_role && (vm.id == p.vm_id))

    abbrev pub run_move : Host → String → Site → Handled
    run_move h destination s =
        if is_there (s.disk destination)
        then stops s (1 ∷ 3 ∷ []) folder_exists
        else if is_reached h s.vm
        then after_move destination s a.moves
        else move_fails destination s

    abbrev pub move_to : Host → Site → Option String → Handled
    move_to h s none = stops s [] not_allowed
    move_to h s (some storage) =
        if not (found_vm os a p s.vm)
        then stops s (1 ∷ []) vm_not_found
        else if not a.checks
        then stops s (1 ∷ []) check_failed
        else run_move h (move_destination storage s.vm) s

    unfoldable pub handle_vm_move : Host → Option String → Site → Handled
    unfolding resolve_standalone_move_destination
    handle_vm_move h none s =
        if p.vm_name == "" then stops s [] name_required else stops s [] invalid_params
    handle_vm_move h (some d) s =
        if p.vm_name == ""
        then stops s [] name_required
        else if os.trim d == ""
        then stops s [] param_required
        else move_to h s (resolve h (os.trim d))
