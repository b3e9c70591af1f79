-- ===== src/Inventory.antt =====
-- internal/tasks/vm_inventory.go: handleVMInventory, with parseEnrichmentIntoMaps and assembleVMInventory. A
-- map of Go is a function from its keys; `none` is a missing key. The outputs of the scripts are decoded.
pub mod Gathering
pub mod Assembly
use open_v_center_agent_hype.Base.{
  ℕ, String, Bool, true, false, ◌&&◌, ◌==◌, Option, none, some, List, [], ◌∷◌, ◌++◌, map, any,
  if◌then◌else◌,
}

pub record VmNic : Type 0 where
  pub id : String
  pub name : String
  pub network_id : String
  pub mac_address : String
  pub primary : Bool
  pub connected : Bool
  pub ip_addresses : String
  pub vlan_id : ℕ

-- A disk; its size is in hundredths of a gigabyte.
pub record VmVhd : Type 0 where
  pub disk_id : String
  pub path : String
  pub controller : String
  pub format : String
  pub disk_type : String
  pub size : ℕ
  pub used_bytes : ℕ

pub record VmSnapshot : Type 0 where
  pub id : String
  pub name : String
  pub creation_time : String
  pub snapshot_type : String
  pub parent_snapshot_id : Option String
  pub parent_snapshot_name : Option String

-- What the first script prints of a machine and the inventory copies.
pub record Facts : Type 0 where
  pub power_state : String
  pub firmware : String
  pub cpu_count : ℕ
  pub memory_mb : ℕ
  pub memory_min_bytes : ℕ
  pub memory_max_bytes : ℕ
  pub memory_dynamic : Bool
  pub notes : String
  pub uptime_seconds : ℕ
  pub uptime : String
  pub cpu_usage_percent : ℕ
  pub memory_consumed_mb : ℕ
  pub automatic_start : String
  pub automatic_start_delay : ℕ
  pub automatic_stop : String
  pub path : String
  pub creation_time : String
  pub metrics_enabled : Bool

pub record VmBasicInfo : Type 0 where
  pub id : String
  pub name : String
  pub state : String
  pub facts : Facts
  pub guest_os : Option String

pub record VmEnrichmentNic : Type 0 where
  pub id : String
  pub name : String
  pub network_id : String
  pub mac_address : String
  pub connected : Bool
  pub ip_addresses : String
  pub vlan_id : ℕ

-- The disks and the snapshots have the fields of the inventory.
pub record VmEnrichmentInfo : Type 0 where
  pub vm_name : String
  pub vm_id : String
  pub nics : List VmEnrichmentNic
  pub vhds : List VmVhd
  pub dvd : Option String
  pub nested : Bool
  pub snapshots : List VmSnapshot
  pub secure_boot : Bool
  pub secure_boot_template : String
  pub ha : Bool

pub record VmInfo : Type 0 where
  pub id : String
  pub name : String
  pub state : String
  pub facts : Facts
  pub nics : List VmNic
  pub vhds : List VmVhd
  pub dvd : Option String
  pub snapshots : List VmSnapshot
  pub ha : Bool
  pub nested_virtualization : Bool
  pub secure_boot : Bool
  pub secure_boot_template : String
  pub guest_os : Option String
  pub thumbnail : Option String

-- The maps. A missing key of a map of slices is an empty slice, which is what the inventory makes of nil.
pub record Maps : Type 0 where
  pub nics : String → List VmNic
  pub vhds : String → List VmVhd
  pub dvd : String → Option String
  pub nested : String → Bool
  pub snapshots : String → List VmSnapshot
  pub firmware : String → Bool × String
  pub ha : String → Bool

abbrev pub no_maps : Maps
no_maps = record {
  nics = λ k. [];
  vhds = λ k. [];
  dvd = λ k. none;
  nested = λ k. false;
  snapshots = λ k. [];
  firmware = λ k. (false, "");
  ha = λ k. false;
}

abbrev pub put {ℓ} : {A : Type ℓ} → String → A → (String → A) → String → A
put key value m k = if k == key then value else m k

abbrev pub nic_of : VmEnrichmentNic → VmNic
nic_of n = record {
  id = n.id;
  name = n.name;
  network_id = n.network_id;
  mac_address = n.mac_address;
  primary = false;
  connected = n.connected;
  ip_addresses = n.ip_addresses;
  vlan_id = n.vlan_id;
}

abbrev pub put_dvd : String → Option String → (String → Option String) → String → Option String
put_dvd key none m = m
put_dvd key (some path) m = put key (some path) m

-- One round of the loop.
abbrev pub enrich : Bool → VmEnrichmentInfo → Maps → Maps
enrich clustered e m = record {
  nics = put e.vm_name (m.nics e.vm_name ++ map nic_of e.nics) m.nics;
  vhds = put e.vm_name (m.vhds e.vm_name ++ e.vhds) m.vhds;
  dvd = put_dvd e.vm_name e.dvd m.dvd;
  nested = put e.vm_name e.nested m.nested;
  snapshots = put e.vm_name (m.snapshots e.vm_name ++ e.snapshots) m.snapshots;
  firmware = put e.vm_name (e.secure_boot, e.secure_boot_template) m.firmware;
  ha = if clustered then put e.vm_id e.ha m.ha else m.ha;
}

unfoldable pub parse_enrichment_into_maps : Bool → List VmEnrichmentInfo → Maps → Maps
parse_enrichment_into_maps clustered [] m = m
parse_enrichment_into_maps clustered (e ∷ es) m =
    parse_enrichment_into_maps clustered es (enrich clustered e m)

-- `is_blank` is whether strings.TrimSpace leaves nothing.
abbrev pub known_os : (String → Bool) → Option String → Option String
known_os is_blank none = none
known_os is_blank (some os) = if is_blank os then none else some os

abbrev pub assemble : (String → Bool) → Maps → VmBasicInfo → VmInfo
assemble is_blank m b = record {
  id = b.id;
  name = b.name;
  state = b.state;
  facts = b.facts;
  nics = m.nics b.name;
  vhds = m.vhds b.name;
  dvd = m.dvd b.name;
  snapshots = m.snapshots b.name;
  ha = m.ha b.id;
  nested_virtualization = m.nested b.name;
  secure_boot = (m.firmware b.name).0;
  secure_boot_template = (m.firmware b.name).1;
  guest_os = known_os is_blank b.guest_os;
  thumbnail = none;
}

unfoldable pub assemble_vm_inventory : (String → Bool) → Maps → List VmBasicInfo → List VmInfo
assemble_vm_inventory is_blank m bs = map (assemble is_blank m) bs

-- The thumbnail of a running machine, by its id in small letters.
abbrev pub with_thumbnail : (String → String) → (String → Option String) → VmInfo → VmInfo
with_thumbnail to_lower thumbs vm =
    if vm.state == "Running" then record vm { thumbnail = thumbs (to_lower vm.id) } else vm

abbrev pub maps_of : Bool → Option (List VmEnrichmentInfo) → Maps
maps_of clustered none = no_maps
maps_of clustered (some es) = parse_enrichment_into_maps clustered es no_maps

-- The basic machines, `none` where the first script fails or prints what does not decode; what the second
-- script prints, `none` where it fails or does not decode; and the thumbnails.
unfoldable pub handle_vm_inventory :
    (String → Bool)
    → (String → String)
    → Bool
    → Option (List VmBasicInfo)
    → Option (List VmEnrichmentInfo)
    → (String → Option String)
    → Option (List VmInfo)
handle_vm_inventory is_blank to_lower clustered none es thumbs = none
handle_vm_inventory is_blank to_lower clustered (some bs) es thumbs =
    let vms = assemble_vm_inventory is_blank (maps_of clustered es) bs in
    some
      (if any (λ b. b.state == "Running") bs then map (with_thumbnail to_lower thumbs) vms else vms)
