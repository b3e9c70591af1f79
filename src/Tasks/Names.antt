-- ===== src/Tasks/Names.antt =====
-- functions.go: ResolveFunction followed by wireFunction.
use open_v_center_agent_hype.Base.{
  String, ◌≡◌, ◌≢◌, refl, true, false, List, [], ◌∷◌, ◌==◌, eq_iff, if_elim, arith,
}
use open_v_center_agent_hype.Queue.Classifier.{among}
use open_v_center_agent_hype.Tasks.Functions.{
  resolve_function, wire_function, vm_management, vm_management_actions, host_management_actions,
  hardware_inventory, host_management, artifact_download, own_types,
}

wire_action : (task_type fn : String) → (fn == "") ≡ false → wire_function task_type fn ≡ fn
unfolding wire_function
wire_action task_type fn e = rw e

wire_type : (fn : String) → fn ≢ hardware_inventory → wire_function fn "" ≡ fn
unfolding wire_function
wire_type fn n = ground (arith, eq_iff fn hardware_inventory)

-- A name on a list that the empty text is not on.
not_empty :
    (names : List String) (fn : String)
    → among names "" ≡ false
    → among names fn ≡ true
    → (fn == "") ≡ false
not_empty names fn e h = ground (arith, eq_iff fn "")

-- Resolving a function and building the wire name back gives the function that was sent, for every
-- function but `hardware_inventory`, which the backend is to send as `host_hwinventory`.
wire_function-resolve_function :
    (fn : String)
    → fn ≢ hardware_inventory
    → wire_function (resolve_function fn).0 (resolve_function fn).1 ≡ fn
unfolding resolve_function
wire_function-resolve_function fn n =
    if_elim Echoes (among vm_management_actions fn)
      (λ h. wire_action vm_management fn (not_empty vm_management_actions fn refl h))
      λ _.
        if_elim Echoes (among host_management_actions fn)
          (λ h. wire_action host_management fn (not_empty host_management_actions fn refl h))
          λ _.
            if_elim Echoes (fn == "host_update_agent")
              (λ h.
                wire_action artifact_download fn
                  (not_empty ("host_update_agent" ∷ []) fn refl (rw h)))
              λ _.
                if_elim Echoes (fn == "host_hwinventory")
                  (λ h. unfold wire_function in rw ((eq_iff fn "host_hwinventory").0 h))
                  λ _. if_elim Echoes (among own_types fn) (λ _. wire_type fn n) λ _. wire_type fn n
  where
    Echoes : String × String → Type 0
    Echoes r = wire_function r.0 r.1 ≡ fn
