-- ===== src/Export/Templates.antt =====
-- What handleVMExportTemplate replies, reports and leaves for the inventory, and the ids that it draws.
use Prim.Native.Nat.{◌%◌}
use mathlib.Core.List.{append-nil}
use open_v_center_agent_hype.Base.{
  ℕ, ◌≡◌, ◌≢◌, refl, ap, String, Bool, true, false, ◌&&◌, ◌==◌, some, List, [], ◌∷◌, ◌++◌, arith,
  eq_iff, if_elim, ◌<◌, sym, if◌then◌else◌, nat_eq, ◌+◌, ◌/◌, ◌∙◌,
}
use open_v_center_agent_hype.Batch.{map_vm_export_progress, is_canonical_guid, is_hex}
use open_v_center_agent_hype.Thumbnails.{get_elem?}
use open_v_center_agent_hype.Management.{VmManagementPayload}
use open_v_center_agent_hype.Relocate.Reports.{ascends, are_percentages, stream_reports-ascends}
use open_v_center_agent_hype.Export.{
  World, ExportParams, Readout, TemplateInfo, TemplateMetadata, exported, Handled,
  handle_vm_export_template, inventory_entry, generate_uuid, template_of, metadata_of, destination,
  run_export, streamed, hex_digit,
}

export_gives :
    (w : World) (template_path : String) (p : VmManagementPayload) (d : ExportParams) (r : Readout)
    (m : TemplateMetadata) (t : TemplateInfo)
    → w.readout ≡ some r
    → (handle_vm_export_template w template_path p d).metadata ≡ some m
    → (handle_vm_export_template w template_path p d).outcome ≡ exported (some t)
    → ((d.template_name == "") ≡ false)
      × (m ≡ metadata_of w template_path p d (some r))
      × (t ≡ template_of w template_path p d r)
unfolding handle_vm_export_template
export_gives w template_path p d r m t e f o = ground (arith, e, f, o)

either : (b : Bool) (n : ℕ) → (if b then n else n) ≡ n
either true n = refl
either false n = refl

entry-template_of :
    (w : World) (template_path : String) (p : VmManagementPayload) (d : ExportParams) (r : Readout)
    (vmcx_name : String) (bytes : ℕ)
    → (w.new_id == "") ≡ false
    → (w.now == "") ≡ false
    → (d.template_name == "") ≡ false
    → inventory_entry
        (some (metadata_of w template_path p d (some r)))
        vmcx_name
        r
        (destination w template_path p d)
        bytes
      ≡ record (template_of w template_path p d r) { disk_size_bytes = bytes }
unfolding inventory_entry
entry-template_of w template_path p d r vmcx_name bytes i n t =
    rw (i, n, t, either (nat_eq r.size_bytes 0) r.size_bytes) refl

-- The template of a reply is, but for the bytes of its folder, the entry that an inventory gives for it from
-- the file that the export wrote, whatever the name of its .vmcx file, if the id and the time that were
-- drawn are not empty and what is read of the template has not changed. The reply has the bytes of the
-- folder before that file, so if the folder has grown by the file, the two differ.
pub handle_vm_export_template-inventory_entry :
    (w : World) (template_path : String) (p : VmManagementPayload) (d : ExportParams) (r : Readout)
    (m : TemplateMetadata) (t : TemplateInfo) (vmcx_name : String) (bytes : ℕ)
    → w.new_id ≢ ""
    → w.now ≢ ""
    → w.readout ≡ some r
    → (handle_vm_export_template w template_path p d).metadata ≡ some m
    → (handle_vm_export_template w template_path p d).outcome ≡ exported (some t)
    → w.folder_size < bytes
    → (inventory_entry (some m) vmcx_name r t.path bytes ≡ record t { disk_size_bytes = bytes })
      × (inventory_entry (some m) vmcx_name r t.path bytes ≢ t)
handle_vm_export_template-inventory_entry w template_path p d r m t vmcx_name bytes i n e f o g =
    let (named, m_is, t_is) = export_gives w template_path p d r m t e f o in
    let entry : inventory_entry (some m) vmcx_name r t.path bytes
        ≡ record t { disk_size_bytes = bytes } =
      rw (m_is, t_is)
        (entry-template_of w template_path p d r vmcx_name bytes
          (ground (arith, eq_iff w.new_id "", i)) (ground (arith, eq_iff w.now "", n)) named) in
    (
      entry,
      λ same.
          let size : bytes ≡ t.disk_size_bytes = ap (λ x. x.disk_size_bytes) (sym entry ∙ same) in
          let before : t.disk_size_bytes ≡ w.folder_size = ap (λ x. x.disk_size_bytes) t_is in
          omega (arith, size, before, g),
    )

hex_digit-is_hex : (n : ℕ) → n < 16 → is_hex (hex_digit n) ≡ true
hex_digit-is_hex n h = ground arith

-- A byte in hexadecimal, before digits.
hex_pair :
    (n : ℕ) {rest : Bool}
    → n < 256
    → rest ≡ true
    → (is_hex (hex_digit (n / 16)) && (is_hex (hex_digit (n % 16)) && rest)) ≡ true
hex_pair n h r =
    rw (hex_digit-is_hex (n / 16) (omega arith), hex_digit-is_hex (n % 16) (omega arith)) r

version : (n : ℕ) → hex_digit ((n % 16 + 64) / 16) ≡ 52
version n = let four : (n % 16 + 64) / 16 ≡ 4 = omega arith in ap hex_digit four

-- Of any random bytes, the id that is made is canonical, as the batches ask of an id, and its version is 4.
generate_uuid-is_canonical_guid :
    (b : ℕ → ℕ)
    → ((i : ℕ) → b i < 256)
    → (is_canonical_guid (generate_uuid b) ≡ true) × (get_elem? (generate_uuid b) 14 ≡ some 52)
unfolding generate_uuid is_canonical_guid
generate_uuid-is_canonical_guid b h = (
  hex_pair (b 0) (h 0) (
      hex_pair (b 1) (h 1) (
        hex_pair (b 2) (h 2) (
          hex_pair (b 3) (h 3) (
            hex_pair (b 4) (h 4) (
              hex_pair (b 5) (h 5) (
                hex_pair (b 6 % 16 + 64) (omega arith) (
                  hex_pair (b 7) (h 7) (
                    hex_pair (b 8 % 64 + 128) (omega arith) (
                      hex_pair (b 9) (h 9) (
                        hex_pair (b 10) (h 10) (
                          hex_pair (b 11) (h 11) (
                            hex_pair (b 12) (h 12) (
                              hex_pair (b 13) (h 13)
                                (hex_pair (b 14) (h 14) (hex_pair (b 15) (h 15) refl))))))))))))))),
  ap some (version (b 6)),
)

module _ (w : World) (template_path : String) (p : VmManagementPayload) (d : ExportParams)
    (m : are_percentages w.lines ≡ true) where
  streamed-ascends :
      (rest : List ℕ)
      → ascends 100 85 rest ≡ true
      → ascends 100 20 (streamed w template_path p d ++ rest) ≡ true
  unfolding map_vm_export_progress
  streamed-ascends rest r =
      stream_reports-ascends map_vm_export_progress 100 85 20 w.lines rest (λ n l. omega arith) m
        (omega arith) (omega arith) r

  run_export-ascends : ascends 100 0 (run_export w template_path p d).reports ≡ true
  unfolding ascends
  run_export-ascends =
      let whole = streamed-ascends (87 ∷ 90 ∷ 100 ∷ []) refl in
      let part : ascends 100 20 (streamed w template_path p d) ≡ true =
        rw (sym (append-nil (streamed w template_path p d))) (streamed-ascends [] refl) in
      if_elim {A = Handled} (λ x. ascends 100 0 x.reports ≡ true) w.exports (λ t. whole) (λ t. part)

-- An export whose percentages are at most 100 reports ascending percentages, the last of them 100 or less.
handle_vm_export_template-ascends :
    (w : World) (template_path : String) (p : VmManagementPayload) (d : ExportParams)
    → are_percentages w.lines ≡ true
    → ascends 100 0 (handle_vm_export_template w template_path p d).reports ≡ true
unfolding handle_vm_export_template ascends
handle_vm_export_template-ascends w template_path p d m =
    let run = run_export-ascends w template_path p d m in ground (arith, run)
