-- ===== src/Examples/Templates.antt =====
-- A template that is exported, a cluster of two nodes in a workgroup, the deletion of a machine, an
-- inventory of one machine, a thumbnail of one pixel, and texts in scripts.
use open_v_center_agent_hype.Base.{
  ℕ, ◌≡◌, ◌≢◌, refl, String, Bool, true, false, ◌==◌, Option, none, some, List, [], ◌∷◌, ◌++◌,
  arith, if◌then◌else◌, Text, any, text_eq, eq_iff, ◌+◌, ◌*◌, ◌-◌, length, map, trim_space,
  trim_left, trim_right, ◌&&◌,
}
use open_v_center_agent_hype.Management.{VmManagementPayload}
use open_v_center_agent_hype.Relocate.{percent}
use open_v_center_agent_hype.Migration.{Cluster, lists, works, handle_vm_migrate}
use open_v_center_agent_hype.Migration.Guards.{Migrates, handle_vm_migrate-Migrates}
use open_v_center_agent_hype.Scripts.{escape_ps, ps_string_array, kept}
use open_v_center_agent_hype.Scripts.Quoting.{
  inside, read_double_quoted, read_double_quoted-escape_ps,
}
use open_v_center_agent_hype.Scripts.Arrays.{read_array, read_array-ps_string_array, are_plain}
use open_v_center_agent_hype.Deletion.{
  Host, Answers, handle_vm_delete, deleted, remove_files, targets, Paths, prune_folders,
}
use open_v_center_agent_hype.Deletion.Files.{handle_vm_delete-remove_files}
use open_v_center_agent_hype.Inventory.{
  Facts, VmBasicInfo, VmEnrichmentInfo, with_thumbnail, handle_vm_inventory,
}
use open_v_center_agent_hype.Inventory.Assembly.{described, handle_vm_inventory-described}
use open_v_center_agent_hype.Thumbnails.{get_elem?, frame_of, pixel_at, expand}
use open_v_center_agent_hype.Thumbnails.Pixels.{to_565, are_bytes, pixel_at-frame_of}
use open_v_center_agent_hype.Export.{
  World, ExportParams, Readout, TemplateInfo, TemplateMetadata, handle_vm_export_template,
  inventory_entry, template_of, metadata_of, exported,
}
use open_v_center_agent_hype.Export.Templates.{handle_vm_export_template-inventory_entry}

abbrev same : String → String → Bool
same p q = p == q

abbrev workgroup : Cluster
workgroup = record {
  is_cluster_node = true;
  nodes = lists (record { name = "n1"; state = 0 } ∷ record { name = "n2"; state = 0 } ∷ []);
  access_point = some "Dns";
  says_cluster_vm = true;
  moves_role = works;
  moves_vm = works;
}

abbrev migrate_payload : VmManagementPayload
migrate_payload = record { action = "vm_migrate"; vm_id = "7"; vm_name = "web" }

handle_vm_migrate-Migrates_example :
    Migrates same workgroup "n2" (handle_vm_migrate same workgroup migrate_payload (some "n2"))
handle_vm_migrate-Migrates_example = handle_vm_migrate-Migrates same workgroup migrate_payload "n2"

-- A quote and a line feed.
abbrev label : Text
label = 97 ∷ 34 ∷ 10 ∷ []

read_double_quoted-escape_ps_example :
    read_double_quoted inside (escape_ps (97 ∷ 34 ∷ 10 ∷ []) ++ (34 ∷ 32 ∷ []))
    ≡ some (97 ∷ 34 ∷ 10 ∷ [], 32 ∷ [])
read_double_quoted-escape_ps_example = read_double_quoted-escape_ps label (32 ∷ []) refl refl

abbrev paths : List Text
paths = (32 ∷ 99 ∷ 39 ∷ []) ∷ (32 ∷ []) ∷ (100 ∷ []) ∷ []

quotes_plain : are_plain (kept paths) ≡ true
unfolding trim_space trim_left trim_right
quotes_plain = refl

read_array-ps_string_array_example : read_array (ps_string_array paths) ≡ some (kept paths)
read_array-ps_string_array_example = read_array-ps_string_array paths quotes_plain

abbrev under : Text → Text → Bool
under t p = text_eq t p

abbrev web_host : Host
web_host = record { has_vm = true; has_role = false; has_file = λ p. true }

abbrev deletes_all : Answers
deletes_all = record {
  is_off = true;
  checks = true;
  path = 119 ∷ [];
  disk_lines = some ((120 ∷ 13 ∷ []) ∷ [] ∷ []);
  removes_role = true;
  removes_vm = true;
  removes_file = λ p. true;
  prunes = λ t. true;
  prunes_in_time = true;
}

abbrev windows_paths : Paths
windows_paths = record {
  under = under;
  parent = λ t. 118 ∷ [];
  is_disks_folder = λ t. true;
  is_empty = λ files t. true;
}

gone :
    (handle_vm_delete windows_paths deletes_all false (some true) web_host).1 ≡ deleted (some true)
unfolding handle_vm_delete remove_files prune_folders trim_space trim_left trim_right
gone = refl

two_targets : targets windows_paths deletes_all ≡ (119 ∷ []) ∷ (120 ∷ []) ∷ []
unfolding trim_space trim_left trim_right
two_targets = refl

apart :
    any (λ target. windows_paths.under target (121 ∷ [])) (targets windows_paths deletes_all)
    ≡ false
unfolding trim_space trim_left trim_right
apart = refl

no_folder :
    any
      (λ t.
        windows_paths.is_disks_folder (windows_paths.parent t)
        && text_eq (windows_paths.parent t) (121 ∷ []))
      (targets windows_paths deletes_all)
    ≡ false
unfolding trim_space trim_left trim_right
no_folder = refl

handle_vm_delete-remove_files_example :
    ((handle_vm_delete windows_paths deletes_all false (some true) web_host).0.has_vm ≡ false)
    × ((handle_vm_delete windows_paths deletes_all false (some true) web_host).0.has_file (120 ∷ [])
        ≡ false)
    × ((handle_vm_delete windows_paths deletes_all false (some true) web_host).0.has_file (121 ∷ [])
        ≡ true)
handle_vm_delete-remove_files_example =
    handle_vm_delete-remove_files windows_paths deletes_all false (some true) web_host
      ((119 ∷ []) ∷ []) [] (120 ∷ []) (121 ∷ []) refl two_targets apart no_folder gone

abbrev facts : Facts
facts = record {
  power_state = "Running";
  firmware = "UEFI";
  cpu_count = 2;
  memory_mb = 4096;
  memory_min_bytes = 0;
  memory_max_bytes = 0;
  memory_dynamic = false;
  notes = "";
  uptime_seconds = 60;
  uptime = "00:01:00";
  cpu_usage_percent = 3;
  memory_consumed_mb = 1024;
  automatic_start = "Start";
  automatic_start_delay = 0;
  automatic_stop = "Save";
  path = "C:\\HyperV\\web";
  creation_time = "2026-01-01T00:00:00Z";
  metrics_enabled = false;
}

abbrev basic : VmBasicInfo
basic = record { id = "A7"; name = "web"; state = "Running"; facts = facts; guest_os = some "" }

abbrev enrichment : VmEnrichmentInfo
enrichment = record {
  vm_name = "web";
  vm_id = "A7";
  nics = [];
  vhds = [];
  dvd = some "C:\\iso\\a.iso";
  nested = true;
  snapshots = [];
  secure_boot = true;
  secure_boot_template = "Linux";
  ha = true;
}

abbrev is_blank : String → Bool
is_blank s = s == ""

abbrev lower_id : String → String
lower_id id = if id == "A7" then "a7" else id

abbrev thumbs : String → Option String
thumbs id = if id == "a7" then some "jpeg" else none

handle_vm_inventory-described_example :
    (handle_vm_inventory is_blank lower_id true (some (basic ∷ [])) (some (enrichment ∷ [])) thumbs
      ≡ some (
          map
            (λ b. with_thumbnail lower_id thumbs (described is_blank true (enrichment ∷ []) b))
            (basic ∷ [])))
    × (handle_vm_inventory is_blank lower_id true (some (basic ∷ [])) none thumbs
        ≡ some
            (map (λ b. with_thumbnail lower_id thumbs (described is_blank true [] b)) (basic ∷ [])))
handle_vm_inventory-described_example =
    handle_vm_inventory-described is_blank lower_id true (basic ∷ []) (enrichment ∷ []) thumbs

-- A header of four bytes, and one white pixel.
abbrev frame : List ℕ
frame = 0 ∷ 0 ∷ 0 ∷ 0 ∷ 255 ∷ 255 ∷ []

pixel_at-frame_of_example :
    (rest : List ℕ) × (low : ℕ) × (high : ℕ) × (frame_of 1 1 frame ≡ some rest)
    × (get_elem? frame ((0 * 1 + 0) * 2 + (length frame - 1 * 1 * 2)) ≡ some low)
    × (get_elem? frame ((0 * 1 + 0) * 2 + 1 + (length frame - 1 * 1 * 2)) ≡ some high)
    × (pixel_at rest 1 0 0 ≡ some (expand (low + 256 * high)))
    × (to_565 (expand (low + 256 * high)) ≡ low + 256 * high)
    × (are_bytes (expand (low + 256 * high)) ≡ true)
pixel_at-frame_of_example =
    pixel_at-frame_of frame 1 1 0 0 refl (omega arith) (omega arith) (omega arith)

abbrev readout : Readout
readout = record { name = "web"; cpu_count = 2; memory_mb = 4096; notes = "n"; size_bytes = 0 }

abbrev world : World
world = record {
  finds_vm = true;
  is_off = true;
  checks = true;
  vhd_sizes = some 40 ∷ none ∷ [];
  has_folder = false;
  has_space = λ n. true;
  exports = true;
  lines = percent 30 ∷ percent 20 ∷ percent 100 ∷ [];
  new_id = "1";
  hostname = "h";
  now = "2026-01-01T00:00:00Z";
  readout = some readout;
  folder_size = 20;
  writes_metadata = true;
}

abbrev params : ExportParams
params = record { template_name = "base"; notes = "" }

abbrev export_payload : VmManagementPayload
export_payload = record { action = "vm_export_template"; vm_id = "7"; vm_name = "web" }

abbrev template : TemplateInfo
template = template_of world "T:" export_payload params readout

abbrev metadata : TemplateMetadata
metadata = metadata_of world "T:" export_payload params (some readout)

writes : (handle_vm_export_template world "T:" export_payload params).metadata ≡ some metadata
unfolding handle_vm_export_template
writes = refl

replies :
    (handle_vm_export_template world "T:" export_payload params).outcome ≡ exported (some template)
unfolding handle_vm_export_template
replies = refl

id_given : world.new_id ≢ ""
id_given e = ground (arith, eq_iff "1" "", e)

time_given : world.now ≢ ""
time_given e = ground (arith, eq_iff "2026-01-01T00:00:00Z" "", e)

handle_vm_export_template-inventory_entry_example :
    (inventory_entry (some metadata) "guid" readout template.path 25
      ≡ record template { disk_size_bytes = 25 })
    × (inventory_entry (some metadata) "guid" readout template.path 25 ≢ template)
handle_vm_export_template-inventory_entry_example =
    handle_vm_export_template-inventory_entry world "T:" export_payload params readout metadata
      template "guid" 25 id_given time_given refl writes replies (omega arith)
