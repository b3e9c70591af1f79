-- ===== src/Edit/Requests.antt =====
-- internal/tasks/vm_edit.go: the changes that an edit asks for, and the steps that make them.
use open_v_center_agent_hype.Queue.Classifier.{among}
use open_v_center_agent_hype.Edit.Devices.{switch_of, of_request, for_each, required, check_disk}
use mathlib.Core.List.{append_assoc}
use mathlib.Core.Path.{subst}
use open_v_center_agent_hype.Base.{
  ℕ, ◌≡◌, refl, sym, String, Bool, true, false, ◌&&◌, ◌==◌, Option, none, some, List, [], ◌∷◌, ◌++◌,
  if◌then◌else◌, if_elim, nat_eq,
}
use open_v_center_agent_hype.Edit.{
  VmEditPayload, Command, EditError, Step, refuse, run, try, applies, when, change, Request, absent,
  invalid, given, Delay, negative, seconds, set_processor, set_memory, set_nested, set_secure_boot,
  set_secure_boot_template, set_automatic_start_delay, sets_memory, set_notes, set_vlan,
  set_automatic_start, set_automatic_stop, new_disk, resize_disk, detach_disk, add_adapter,
  connect_adapter, rename_adapter, set_vlan_of, remove_adapter, invalid_list, one_of, invalid_value,
  path_required, size_required,
}

-- The scripts that need the machine to be off.
abbrev pub requires_off : Command → Bool
requires_off (set_processor n) = true
requires_off (set_memory m d lo hi) = true
requires_off (set_nested b) = true
requires_off (set_secure_boot b) = true
requires_off (set_secure_boot_template s) = true
requires_off _ = false

-- The changes of a parameter, of a list of them, and of each of its elements.
abbrev pub of_option {ℓ} : {A : Type ℓ} → Option A → (A → List Command) → List Command
of_option none g = []
of_option (some a) g = g a

abbrev pub of_list {ℓ} : {A : Type ℓ} → Request A → (List A → List Command) → List Command
of_list absent g = []
of_list invalid g = []
of_list (given xs) g = g xs

abbrev pub of_each {ℓ} : {A : Type ℓ} → (A → List Command) → List A → List Command
of_each g [] = []
of_each g (x ∷ xs) = g x ++ of_each g xs

abbrev pub asked_delay : Delay → List Command
asked_delay negative = []
asked_delay (seconds n) = set_automatic_start_delay n ∷ []

module _ (p : VmEditPayload) where
  abbrev pub asked_settings : List Command
  asked_settings =
      of_option p.cpu_count (λ n. if nat_eq n 0 then [] else set_processor n ∷ [])
      ++ (if sets_memory p
          then set_memory p.memory_mb p.memory_dynamic p.memory_min_mb p.memory_max_mb ∷ []
          else [])
      ++ of_option p.notes (λ s. set_notes s ∷ [])
      ++ of_option p.vlan_id (λ n. set_vlan n ∷ [])
      ++ of_option p.nested_virtualization (λ b. set_nested b ∷ [])
      ++ of_option p.secure_boot (λ b. set_secure_boot b ∷ [])
      ++ of_option p.secure_boot_template (λ s. set_secure_boot_template s ∷ [])
      ++ of_option p.automatic_start (λ s. set_automatic_start s ∷ [])
      ++ of_option p.automatic_start_delay asked_delay
      ++ of_option p.automatic_stop (λ s. set_automatic_stop s ∷ [])

  abbrev pub asked_disks : List Command
  asked_disks =
      of_list p.add_disk (of_each λ d. new_disk d.path (d.disk_type == "Fixed") d.size ∷ [])
      ++ of_list p.edit_disk (of_each λ d. resize_disk d.path d.size ∷ [])
      ++ of_list p.remove_disk (of_each λ d. detach_disk d.path ∷ [])

  abbrev pub asked_nics : List Command
  asked_nics =
      of_list p.add_nic (of_each λ n. add_adapter n.name n.switch_name ∷ [])
      ++ of_list p.edit_nic (
          of_each λ n.
            of_option (switch_of n.switch_name) (λ s. connect_adapter n.nic_id s ∷ [])
            ++ of_option n.name (λ s. rename_adapter n.nic_id s ∷ [])
            ++ of_option n.vlan_id (λ v. set_vlan_of n.nic_id v ∷ []))
      ++ of_list p.remove_nic (of_each λ id. remove_adapter id ∷ [])

  -- What an edit asks for, in order.
  abbrev pub asked : List Command
  asked = asked_settings ++ asked_disks ++ asked_nics

module _ (q : Command → Bool) where
  -- Scripts, each of which passes a test.
  abbrev pub scripts : List Step → Bool
  scripts [] = true
  scripts (run c ∷ ss) = q c && scripts ss
  scripts (try c ∷ ss) = q c && scripts ss
  scripts (refuse e ∷ ss) = false
  scripts (applies c ∷ ss) = false

  -- Steps that make changes in order, if none of them refuses: each is applied after the script of the same
  -- command, and every script passes the test.
  pub data Does : List Step → List Command → Type 0 where
    nothing : Does [] []
    refused : (e : EditError) (ss : List Step) (cs : List Command) → Does (refuse e ∷ ss) cs
    checked :
        (c : Command) {ss : List Step} {cs : List Command}
        → q c ≡ true
        → Does ss cs
        → Does (run c ∷ ss) cs
    changed :
        (c : Command) (mid : List Step) {ss : List Step} {cs : List Command}
        → q c ≡ true
        → scripts mid ≡ true
        → Does ss cs
        → Does (run c ∷ (mid ++ applies c ∷ ss)) (c ∷ cs)

  pub Does-append :
      {a b : List Step} {x y : List Command} → Does a x → Does b y → Does (a ++ b) (x ++ y)
  Does-append nothing d = d
  Does-append {b = b} {y = y} (refused e ss cs) d = refused e (ss ++ b) (cs ++ y)
  Does-append (checked c t l) d = checked c t (Does-append l d)
  Does-append {b = b} {y = y} (changed c mid {ss = ss} {cs = cs} t k l) d =
      subst (λ l. Does (run c ∷ l) (c ∷ (cs ++ y))) (sym (append_assoc mid (applies c ∷ ss) b))
        (changed c mid t k (Does-append l d))

  pub change-Does : (c : Command) → q c ≡ true → Does (change c) (c ∷ [])
  change-Does c t = changed c [] t refl nothing

  module _ {ℓ} {A : Type ℓ} where
    pub when-Does :
        (o : Option A) (f : A → List Step) (g : A → List Command)
        → ((a : A) → o ≡ some a → Does (f a) (g a))
        → Does (when o f) (of_option o g)
    when-Does none f g h = nothing
    when-Does (some a) f g h = h a refl

    pub of_request-Does :
        (f : List A → List Step) (g : List A → List Command)
        → ((xs : List A) → Does (f xs) (g xs))
        → (r : Request A) → Does (of_request f r) (of_list r g)
    of_request-Does f g h absent = nothing
    of_request-Does f g h invalid = refused invalid_list [] []
    of_request-Does f g h (given xs) = h xs

    pub for_each-Does :
        (f : A → List Step) (g : A → List Command)
        → ((x : A) → Does (f x) (g x))
        → (xs : List A) → Does (for_each f xs) (of_each g xs)
    for_each-Does f g h [] = nothing
    for_each-Does f g h (x ∷ xs) = Does-append (h x) (for_each-Does f g h xs)

    pub for_each-checks :
        (f : A → List Step) → ((x : A) → Does (f x) []) → (xs : List A) → Does (for_each f xs) []
    for_each-checks f h [] = nothing
    for_each-checks f h (x ∷ xs) = Does-append (h x) (for_each-checks f h xs)

  pub required-Does :
      (s : String) (e : EditError) {ss : List Step} {cs : List Command}
      → Does ss cs
      → Does (required s (refuse e) ss) cs
  required-Does s e {cs = cs} d = if_elim (λ l. Does l cs) (s == "") (λ _. refused e [] cs) (λ _. d)

  pub one_of-Does :
      (valid : List String) (c : String → Command) (s : String)
      → q (c s) ≡ true
      → Does (one_of valid c s) (c s ∷ [])
  one_of-Does valid c s t =
      if_elim (λ l. Does l (c s ∷ [])) (among valid s) (λ _. change-Does (c s) t)
        (λ _. refused invalid_value [] (c s ∷ []))

  pub check_disk-Does : (path : String) (size : ℕ) → Does (check_disk path size) []
  check_disk-Does path size =
      if_elim (λ l. Does l []) (path == "") (λ _. refused path_required [] [])
        λ _.
          if_elim (λ l. Does l []) (nat_eq size 0) (λ _. refused size_required [] []) (λ _. nothing)
