-- ===== src/Inventory/Gathering.antt =====
-- internal/tasks/vm_inventory.go: what the maps of handleVMInventory hold, key by key.
use mathlib.Core.List.{append_assoc, append-nil}
use open_v_center_agent_hype.Base.{
  ◌≡◌, inl, inr, refl, sym, ap, ◌∙◌, String, Bool, true, false, ◌&&◌, ◌==◌, Option, none, some,
  List, [], ◌∷◌, ◌++◌, map, if◌then◌else◌, text_cases, eq_refl, arith,
}
use open_v_center_agent_hype.Inventory.{
  VmEnrichmentInfo, Maps, put, nic_of, enrich, parse_enrichment_into_maps, put_dvd,
}

-- What the entries of a name say, in their order.
abbrev pub gather {ℓ} :
    {A : Type ℓ} → (VmEnrichmentInfo → List A) → String → List VmEnrichmentInfo → List A
gather f name [] = []
gather f name (e ∷ es) = (if name == e.vm_name then f e else []) ++ gather f name es

-- What the last entry that passes a test says.
abbrev pub latest {ℓ} :
    {A : Type ℓ}
    → (VmEnrichmentInfo → Bool)
    → (VmEnrichmentInfo → A)
    → A
    → List VmEnrichmentInfo
    → A
latest test f d [] = d
latest test f d (e ∷ es) = latest test f (if test e then f e else d) es

abbrev pub is_some : Option String → Bool
is_some none = false
is_some (some s) = true

abbrev pub latest_firmware : String → List VmEnrichmentInfo → Bool × String
latest_firmware name =
    latest (λ e. name == e.vm_name) (λ e. (e.secure_boot, e.secure_boot_template)) (false, "")

put-append {ℓ} :
    {A : Type ℓ} (k key : String) (x : List A) (m : String → List A)
    → put key (m key ++ x) m k ≡ m k ++ (if k == key then x else [])
put-append k key x m = elim (text_cases k key) [
  | inl e ↦ rw (e, eq_refl key) refl
  | inr e ↦ rw e (sym (append-nil (m k)))
]

put_dvd-some :
    (k key : String) (d : Option String) (m : String → Option String)
    → put_dvd key d m k ≡ (if (k == key) && is_some d then d else m k)
put_dvd-some k key none m = ground arith
put_dvd-some k key (some d) m = ground arith

module _ (c : Bool) (k : String) where
  set_ha :
      (e : VmEnrichmentInfo) (m : String → Bool)
      → (if c then put e.vm_id e.ha m else m) k ≡ (if c && (k == e.vm_id) then e.ha else m k)
  set_ha e m = ground arith

  pub nics-gather :
      (es : List VmEnrichmentInfo) (m : Maps)
      → (parse_enrichment_into_maps c es m).nics k
        ≡ m.nics k ++ gather (λ e. map nic_of e.nics) k es
  unfolding parse_enrichment_into_maps
  nics-gather [] m = sym (append-nil (m.nics k))
  nics-gather (e ∷ es) m =
      nics-gather es (enrich c e m)
      ∙ ap (λ l. l ++ gather (λ e. map nic_of e.nics) k es)
          (put-append k e.vm_name (map nic_of e.nics) m.nics)
      ∙ append_assoc (m.nics k) _ _

  pub nested-latest :
      (es : List VmEnrichmentInfo) (m : Maps)
      → (parse_enrichment_into_maps c es m).nested k
        ≡ latest (λ e. k == e.vm_name) (λ e. e.nested) (m.nested k) es
  unfolding parse_enrichment_into_maps
  nested-latest [] m = refl
  nested-latest (e ∷ es) m = nested-latest es (enrich c e m)

  pub dvd-latest :
      (es : List VmEnrichmentInfo) (m : Maps)
      → (parse_enrichment_into_maps c es m).dvd k
        ≡ latest (λ e. (k == e.vm_name) && is_some e.dvd) (λ e. e.dvd) (m.dvd k) es
  unfolding parse_enrichment_into_maps
  dvd-latest [] m = refl
  dvd-latest (e ∷ es) m =
      dvd-latest es (enrich c e m)
      ∙ ap (λ d. latest (λ e. (k == e.vm_name) && is_some e.dvd) (λ e. e.dvd) d es)
          (put_dvd-some k e.vm_name e.dvd m.dvd)

  pub vhds-gather :
      (es : List VmEnrichmentInfo) (m : Maps)
      → (parse_enrichment_into_maps c es m).vhds k ≡ m.vhds k ++ gather (λ e. e.vhds) k es
  unfolding parse_enrichment_into_maps
  vhds-gather [] m = sym (append-nil (m.vhds k))
  vhds-gather (e ∷ es) m =
      vhds-gather es (enrich c e m)
      ∙ ap (λ l. l ++ gather (λ e. e.vhds) k es) (put-append k e.vm_name e.vhds m.vhds)
      ∙ append_assoc (m.vhds k) _ _

  pub snapshots-gather :
      (es : List VmEnrichmentInfo) (m : Maps)
      → (parse_enrichment_into_maps c es m).snapshots k
        ≡ m.snapshots k ++ gather (λ e. e.snapshots) k es
  unfolding parse_enrichment_into_maps
  snapshots-gather [] m = sym (append-nil (m.snapshots k))
  snapshots-gather (e ∷ es) m =
      snapshots-gather es (enrich c e m)
      ∙ ap (λ l. l ++ gather (λ e. e.snapshots) k es)
          (put-append k e.vm_name e.snapshots m.snapshots)
      ∙ append_assoc (m.snapshots k) _ _

  pub firmware-latest :
      (es : List VmEnrichmentInfo) (m : Maps)
      → (parse_enrichment_into_maps c es m).firmware k
        ≡ latest
            (λ e. k == e.vm_name)
            (λ e. (e.secure_boot, e.secure_boot_template))
            (m.firmware k)
            es
  unfolding parse_enrichment_into_maps
  firmware-latest [] m = refl
  firmware-latest (e ∷ es) m = firmware-latest es (enrich c e m)

  pub ha-latest :
      (es : List VmEnrichmentInfo) (m : Maps)
      → (parse_enrichment_into_maps c es m).ha k
        ≡ latest (λ e. c && (k == e.vm_id)) (λ e. e.ha) (m.ha k) es
  unfolding parse_enrichment_into_maps
  ha-latest [] m = refl
  ha-latest (e ∷ es) m =
      ha-latest es (enrich c e m)
      ∙ ap (λ d. latest (λ e. c && (k == e.vm_id)) (λ e. e.ha) d es) (set_ha e m.ha)
