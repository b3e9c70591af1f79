-- ===== src/Relocate/Resolution.antt =====
-- internal/tasks/vm_management.go: which destinations resolveStandaloneMoveDestination takes.
use open_v_center_agent_hype.Base.{
  ◌≡◌, ◌≢◌, true, false, List, ◌∷◌, ◌++◌, ◌⊎◌, any, String, Option, none, some,
}
use open_v_center_agent_hype.Relocate.{Paths}
use open_v_center_agent_hype.Relocate.Destinations.{Host, matches, requested_path}

module _ (os : Paths) where
  -- Which path a standalone host moves a machine to.
  pub data Resolves (h : Host) (d : String) : Option String → Type 0 where
    default_volume :
        h.default_path ≢ ""
        → matches os (requested_path os d) h.default_path ≡ true
        → Resolves h d (some (requested_path os d))
    first_root :
        (before after : List String) (root : String)
        → (h.default_path ≡ "") ⊎ (matches os (requested_path os d) h.default_path ≡ false)
        → h.additional_storage ≡ before ++ root ∷ after
        → any (matches os (requested_path os d)) before ≡ false
        → matches os (requested_path os d) root ≡ true
        → Resolves h d (some root)
    nowhere :
        (h.default_path ≡ "") ⊎ (matches os (requested_path os d) h.default_path ≡ false)
        → any (matches os (requested_path os d)) h.additional_storage ≡ false
        → Resolves h d none

  data FirstMatch (q : String) (roots : List String) : Option String → Type 0 where
    at :
        (before after : List String) (root : String)
        → roots ≡ before ++ root ∷ after
        → any (matches os q) before ≡ false
        → matches os q root ≡ true
        → FirstMatch q roots (some root)
    no_match : any (matches os q) roots ≡ false → FirstMatch q roots none

  found :
      (h : Host) (d : String) {o : Option String}
      → (h.default_path ≡ "") ⊎ (matches os (requested_path os d) h.default_path ≡ false)
      → FirstMatch (requested_path os d) h.additional_storage o
      → Resolves h d o
  found h d n (no_match m) = nowhere n m
  found h d n (at before after r e m t) = first_root before after r n e m t
