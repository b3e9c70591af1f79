-- ===== src/Examples/Edits.antt =====
-- An edit that sets the processors and then meets a value that is not valid, two disks that are converted, the
-- second of which is lost, and a host that is restarted.
use open_v_center_agent_hype.Base.{◌≡◌, true, false, none, some, List, [], ◌∷◌, map}
use open_v_center_agent_hype.Edit.{VmEditPayload, absent, given}
use open_v_center_agent_hype.Edit.Run.{World, handle_vm_edit}
use open_v_center_agent_hype.Edit.Outcomes.{EditEnds, IsCareful, handle_vm_edit-EditEnds}
use open_v_center_agent_hype.Conversion.{
  Answers, Place, dynamic, expand_cloned_disks_to_fixed, convert_exported_template_disks_to_dynamic,
}
use open_v_center_agent_hype.Conversion.Losses.{
  after, kept_content, asks_fixed, asks_dynamic, expand_cloned_disks_to_fixed-content,
}
use open_v_center_agent_hype.HostActions as Actions
use open_v_center_agent_hype.HostActions.{handle_host_management, prints}
use open_v_center_agent_hype.HostActions.Guards.{HostEnds, handle_host_management-HostEnds}

abbrev edit_payload : VmEditPayload
edit_payload = record {
  vm_id = "7";
  cpu_count = some 4;
  memory_mb = none;
  memory_dynamic = none;
  memory_min_mb = none;
  memory_max_mb = none;
  notes = none;
  vlan_id = none;
  nested_virtualization = none;
  secure_boot = none;
  secure_boot_template = none;
  automatic_start = none;
  automatic_start_delay = none;
  automatic_stop = some "Halt";
  add_disk = given (record { path = "C:\\a.vhdx"; disk_type = "Fixed"; size = 100 } ∷ []);
  edit_disk = absent;
  remove_disk = absent;
  add_nic = absent;
  edit_nic = absent;
  remove_nic = given ("n1" ∷ []);
}

abbrev edit_world : World
edit_world = record { finds_vm = true; is_off = true; free_space = some 900; works = λ n c. true }

handle_vm_edit-EditEnds_example :
    EditEnds edit_world edit_payload (handle_vm_edit edit_world (some edit_payload))
    × IsCareful edit_world (handle_vm_edit edit_world (some edit_payload))
handle_vm_edit-EditEnds_example = handle_vm_edit-EditEnds edit_world edit_payload

abbrev smooth : Answers
smooth = record {
  reads = true;
  fits = true;
  clears_copy = true;
  converts = true;
  removes = true;
  renames = true;
  drops_copy = true;
}

abbrev two_disks : List (Answers × Place)
two_disks =
    (smooth, record { disk = some (record { kind = dynamic; content = 1 }); spare = none })
    ∷ (
      record smooth { renames = false },
      record { disk = some (record { kind = dynamic; content = 2 }); spare = none },
    )
    ∷ []

expand_cloned_disks_to_fixed-content_example :
    (after (expand_cloned_disks_to_fixed two_disks)
      ≡ map (λ d. kept_content asks_fixed d.0 d.1) two_disks)
    × (after (convert_exported_template_disks_to_dynamic false two_disks)
        ≡ map (λ d. kept_content asks_dynamic d.0 d.1) two_disks)
expand_cloned_disks_to_fixed-content_example = expand_cloned_disks_to_fixed-content two_disks

abbrev paused_node : Actions.World
paused_node = record {
  is_cluster_node = true;
  node_state = some "Paused";
  running = some "0";
  hostname = some "h1";
  shell = λ c. prints "";
}

handle_host_management-HostEnds_example :
    HostEnds paused_node "restart" (handle_host_management paused_node (some "restart"))
handle_host_management-HostEnds_example = handle_host_management-HostEnds paused_node "restart"
