-- ===== src/Inventory/Assembly.antt =====
-- internal/tasks/vm_inventory.go: the maps of handleVMInventory against a description without maps.
use open_v_center_agent_hype.Base.{
  ◌≡◌, refl, ap, String, Bool, false, ◌&&◌, ◌==◌, Option, none, some, List, [], ◌∷◌, map,
  if◌then◌else◌, arith, any, if_elim,
}
use open_v_center_agent_hype.Inventory.{
  VmBasicInfo, VmEnrichmentInfo, VmInfo, no_maps, nic_of, parse_enrichment_into_maps, known_os,
  assemble, assemble_vm_inventory, with_thumbnail, handle_vm_inventory,
}
use open_v_center_agent_hype.Inventory.Gathering.{
  gather, latest, latest_firmware, is_some, nics-gather, vhds-gather, snapshots-gather, dvd-latest,
  nested-latest, firmware-latest, ha-latest,
}

-- A machine of the inventory, from what is said of it.
abbrev pub described : (String → Bool) → Bool → List VmEnrichmentInfo → VmBasicInfo → VmInfo
described is_blank clustered es b = record {
  id = b.id;
  name = b.name;
  state = b.state;
  facts = b.facts;
  nics = gather (λ e. map nic_of e.nics) b.name es;
  vhds = gather (λ e. e.vhds) b.name es;
  dvd = latest (λ e. (b.name == e.vm_name) && is_some e.dvd) (λ e. e.dvd) none es;
  snapshots = gather (λ e. e.snapshots) b.name es;
  ha = latest (λ e. clustered && (b.id == e.vm_id)) (λ e. e.ha) false es;
  nested_virtualization = latest (λ e. b.name == e.vm_name) (λ e. e.nested) false es;
  secure_boot = (latest_firmware b.name es).0;
  secure_boot_template = (latest_firmware b.name es).1;
  guest_os = known_os is_blank b.guest_os;
  thumbnail = none;
}

assemble-described :
    (is_blank : String → Bool) (c : Bool) (es : List VmEnrichmentInfo) (b : VmBasicInfo)
    → assemble is_blank (parse_enrichment_into_maps c es no_maps) b ≡ described is_blank c es b
assemble-described is_blank c es b =
    rw
      (
        nics-gather c b.name es no_maps,
        vhds-gather c b.name es no_maps,
        snapshots-gather c b.name es no_maps,
        dvd-latest c b.name es no_maps,
        nested-latest c b.name es no_maps,
        firmware-latest c b.name es no_maps,
        ha-latest c b.id es no_maps,
      )
      refl

described_all :
    (is_blank : String → Bool) (c : Bool) (es : List VmEnrichmentInfo) (bs : List VmBasicInfo)
    → assemble_vm_inventory is_blank (parse_enrichment_into_maps c es no_maps) bs
      ≡ map (described is_blank c es) bs
unfolding assemble_vm_inventory
described_all is_blank c es [] = refl
described_all is_blank c es (b ∷ bs) =
    rw (assemble-described is_blank c es b, described_all is_blank c es bs) refl

described_none :
    (is_blank : String → Bool) (c : Bool) (bs : List VmBasicInfo)
    → assemble_vm_inventory is_blank no_maps bs ≡ map (described is_blank c []) bs
unfolding parse_enrichment_into_maps
described_none is_blank c bs = described_all is_blank c [] bs

twice :
    (is_blank : String → Bool) (to_lower : String → String) (c : Bool) (es : List VmEnrichmentInfo)
    (thumbs : String → Option String) (bs : List VmBasicInfo)
    → map (with_thumbnail to_lower thumbs) (map (described is_blank c es) bs)
      ≡ map (λ b. with_thumbnail to_lower thumbs (described is_blank c es b)) bs
twice is_blank to_lower c es thumbs [] = refl
twice is_blank to_lower c es thumbs (b ∷ bs) = rw (twice is_blank to_lower c es thumbs bs) refl

none_running :
    (is_blank : String → Bool) (to_lower : String → String) (c : Bool) (es : List VmEnrichmentInfo)
    (thumbs : String → Option String) (bs : List VmBasicInfo)
    → any (λ b. b.state == "Running") bs ≡ false
    → map (described is_blank c es) bs
      ≡ map (λ b. with_thumbnail to_lower thumbs (described is_blank c es b)) bs
none_running is_blank to_lower c es thumbs [] h = refl
none_running is_blank to_lower c es thumbs (b ∷ bs) h =
    let off : (b.state == "Running") ≡ false = ground (arith, h) in
    rw (none_running is_blank to_lower c es thumbs bs (ground (arith, h)), off) refl

thumbnails_all :
    (is_blank : String → Bool) (to_lower : String → String) (c : Bool) (es : List VmEnrichmentInfo)
    (thumbs : String → Option String) (bs : List VmBasicInfo)
    → (if any (λ b. b.state == "Running") bs
        then map (with_thumbnail to_lower thumbs) (map (described is_blank c es) bs)
        else map (described is_blank c es) bs)
      ≡ map (λ b. with_thumbnail to_lower thumbs (described is_blank c es b)) bs
thumbnails_all is_blank to_lower c es thumbs bs =
    if_elim (λ l. l ≡ map (λ b. with_thumbnail to_lower thumbs (described is_blank c es b)) bs)
      (any (λ b. b.state == "Running") bs) (λ t. twice is_blank to_lower c es thumbs bs)
      (λ t. none_running is_blank to_lower c es thumbs bs t)

-- Without an error of the first script, the inventory is the list of its machines, each with what the
-- second script says under its name, in order, or its last word; with its role by the id, on a cluster
-- only; and with the thumbnail of its id, if it runs. An error of the second script leaves the same
-- machines as an output without entries.
pub handle_vm_inventory-described :
    (is_blank : String → Bool) (to_lower : String → String) (c : Bool) (bs : List VmBasicInfo)
    (es : List VmEnrichmentInfo) (thumbs : String → Option String)
    → (handle_vm_inventory is_blank to_lower c (some bs) (some es) thumbs
        ≡ some (map (λ b. with_thumbnail to_lower thumbs (described is_blank c es b)) bs))
      × (handle_vm_inventory is_blank to_lower c (some bs) none thumbs
          ≡ some (map (λ b. with_thumbnail to_lower thumbs (described is_blank c [] b)) bs))
unfolding handle_vm_inventory
handle_vm_inventory-described is_blank to_lower c bs es thumbs = (
  rw (described_all is_blank c es bs) (ap some (thumbnails_all is_blank to_lower c es thumbs bs)),
  rw (described_none is_blank c bs) (ap some (thumbnails_all is_blank to_lower c [] thumbs bs)),
)
