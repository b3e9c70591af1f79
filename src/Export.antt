-- ===== src/Export.antt =====
-- internal/tasks/vm_management.go: handleVMExportTemplate; template_inventory.go: the entry of a template in
-- handleTemplateInventory, and generateUUID. `World` says what the host answers. The conversion of the
-- disks changes nothing that the agent reports.
pub mod Templates
use Prim.Native.Nat.{◌%◌}
use Prim.Native.String.{◌++◌ as ◌<>◌}
use open_v_center_agent_hype.Base.{
  ℕ, ◌+◌, ◌/◌, String, Bool, not, ◌&&◌, ◌==◌, Option, none, some, List, [], ◌∷◌, ◌++◌,
  if◌then◌else◌, ltb, Text, nat_eq,
}
use open_v_center_agent_hype.Batch.{map_vm_export_progress}
use open_v_center_agent_hype.Management.{VmManagementPayload}
use open_v_center_agent_hype.Relocate.{Line, stream_reports}

-- The parameters of the action.
pub record ExportParams : Type 0 where
  pub template_name : String
  pub notes : String

-- What Compare-VM and the scan of the disks read of an exported template.
pub record Readout : Type 0 where
  pub name : String
  pub cpu_count : ℕ
  pub memory_mb : ℕ
  pub notes : String
  pub size_bytes : ℕ

pub record TemplateInfo : Type 0 where
  pub id : String
  pub name : String
  pub path : String
  pub cpu_count : ℕ
  pub memory_mb : ℕ
  pub notes : String
  pub size_bytes : ℕ
  pub disk_size_bytes : ℕ
  pub created_at : String

pub record TemplateMetadata : Type 0 where
  pub id : String
  pub name : String
  pub notes : String
  pub source_vm : String
  pub exported_at : String
  pub exported_by : String
  pub size : ℕ

-- `vhd_sizes` has `none` for a disk that cannot be looked at; `has_space` is checkDiskSpace, of bytes;
-- `readout` is `none` where the details cannot be read; `folder_size` is taken before the file of the
-- metadata is written into the folder.
pub record World : Type 0 where
  pub finds_vm : Bool
  pub is_off : Bool
  pub checks : Bool
  pub vhd_sizes : List (Option ℕ)
  pub has_folder : Bool
  pub has_space : ℕ → Bool
  pub exports : Bool
  pub lines : List Line
  pub new_id : String
  pub hostname : String
  pub now : String
  pub readout : Option Readout
  pub folder_size : ℕ
  pub writes_metadata : Bool

pub data ExportError : Type 0 where
  name_required template_name_required no_template_path vm_not_found vm_not_off check_failed
        folder_exists no_space export_failed :
      ExportError

pub data Outcome : Type 0 where
  refuses : ExportError → Outcome
  exported : Option TemplateInfo → Outcome

-- The percentages reported, the metadata file that was written, if any, and the outcome.
pub record Handled : Type 0 where
  pub reports : List ℕ
  pub metadata : Option TemplateMetadata
  pub outcome : Outcome

abbrev pub stops : List ℕ → ExportError → Handled
stops reports e = record { reports = reports; metadata = none; outcome = refuses e }

abbrev pub total_size : List (Option ℕ) → ℕ
total_size [] = 0
total_size (none ∷ sizes) = total_size sizes
total_size (some n ∷ sizes) = n + total_size sizes

module _ (w : World) (template_path : String) (p : VmManagementPayload) (d : ExportParams) where
  abbrev pub destination : String
  destination = template_path <> "\\" <> d.template_name

  abbrev pub template_of : Readout → TemplateInfo
  template_of r = record {
    id = w.new_id;
    name = d.template_name;
    path = destination;
    cpu_count = r.cpu_count;
    memory_mb = r.memory_mb;
    notes = if d.notes == "" then r.notes else d.notes;
    size_bytes = r.size_bytes;
    disk_size_bytes = w.folder_size;
    created_at = w.now;
  }

  abbrev template_info : Option Readout → Option TemplateInfo
  template_info none = none
  template_info (some r) = some (template_of r)

  abbrev size_of : Option Readout → ℕ
  size_of none = 0
  size_of (some r) = r.size_bytes

  abbrev pub metadata_of : Option Readout → TemplateMetadata
  metadata_of r = record {
    id = w.new_id;
    name = d.template_name;
    notes = d.notes;
    source_vm = p.vm_name;
    exported_at = w.now;
    exported_by = w.hostname;
    size = size_of r;
  }

  abbrev pub streamed : List ℕ
  streamed = stream_reports map_vm_export_progress 20 w.lines

  -- Step 5 and the next ones.
  abbrev pub run_export : Handled
  run_export =
      if w.exports
      then record {
        reports = 5 ∷ 10 ∷ 15 ∷ 20 ∷ (streamed ++ (87 ∷ 90 ∷ 100 ∷ []));
        metadata = if w.writes_metadata then some (metadata_of w.readout) else none;
        outcome = exported (template_info w.readout);
      }
      else stops (5 ∷ 10 ∷ 15 ∷ 20 ∷ streamed) export_failed

  -- The space is checked only if a size is known.
  abbrev lacks_space : ℕ → Bool
  lacks_space total = ltb 0 total && not (w.has_space total)

  unfoldable pub handle_vm_export_template : Handled
  handle_vm_export_template =
      if p.vm_name == ""
      then stops [] name_required
      else if d.template_name == ""
      then stops [] template_name_required
      else if template_path == ""
      then stops [] no_template_path
      else if not w.finds_vm
      then stops (5 ∷ []) vm_not_found
      else if not w.is_off
      then stops (5 ∷ []) vm_not_off
      else if not w.checks
      then stops (5 ∷ []) check_failed
      else if w.has_folder
      then stops (5 ∷ 10 ∷ []) folder_exists
      else if lacks_space (total_size w.vhd_sizes)
      then stops (5 ∷ 10 ∷ 15 ∷ []) no_space
      else run_export

-- What the file of the metadata gives an inventory; an empty text or a zero is not in the file.
abbrev said : Option TemplateMetadata → (TemplateMetadata → String) → String → String
said none f other = other
said (some m) f other = if f m == "" then other else f m

abbrev said_size : Option TemplateMetadata → ℕ → ℕ
said_size none other = other
said_size (some m) other = if nat_eq m.size 0 then other else m.size

-- The entry of a template, of its metadata, the name of its .vmcx file, what is read of it, and the bytes of
-- its folder.
unfoldable pub inventory_entry :
    Option TemplateMetadata → String → Readout → String → ℕ → TemplateInfo
inventory_entry m vmcx_name r folder bytes = record {
  id = said m (λ x. x.id) vmcx_name;
  name = said m (λ x. x.name) r.name;
  path = folder;
  cpu_count = r.cpu_count;
  memory_mb = r.memory_mb;
  notes = said m (λ x. x.notes) r.notes;
  size_bytes = said_size m r.size_bytes;
  disk_size_bytes = bytes;
  created_at = said m (λ x. x.exported_at) "";
}

abbrev pub hex_digit : ℕ → ℕ
hex_digit n = if ltb n 10 then 48 + n else 87 + n

abbrev pub hex_byte : ℕ → Text → Text
hex_byte b rest = hex_digit (b / 16) ∷ hex_digit (b % 16) ∷ rest

-- The random bytes with the bits of the version and of the variant, in hexadecimal.
unfoldable pub generate_uuid : (ℕ → ℕ) → Text
generate_uuid b = hex_byte (b 0) (
    hex_byte (b 1) (
      hex_byte (b 2) (
        hex_byte (b 3) (
          45
          ∷ hex_byte (b 4) (
              hex_byte (b 5) (
                45
                ∷ hex_byte (b 6 % 16 + 64) (
                    hex_byte (b 7) (
                      45
                      ∷ hex_byte (b 8 % 64 + 128) (
                          hex_byte (b 9) (
                            45
                            ∷ hex_byte (b 10) (
                                hex_byte (b 11) (
                                  hex_byte (b 12) (
                                    hex_byte (b 13)
                                      (hex_byte (b 14) (hex_byte (b 15) [])))))))))))))))
