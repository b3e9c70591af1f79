-- ===== src/HostActions/Guards.antt =====
-- internal/tasks/host_management.go: which scripts the actions on a host run.
use open_v_center_agent_hype.Base.{
  String, ◌≡◌, ◌⊎◌, inl, inr, refl, Bool, true, false, ◌==◌, Option, none, some, [], ◌∷◌, if_elim,
  eq_iff, ap, ◌∙◌, arith, ◌||◌, if◌then◌else◌,
}
use open_v_center_agent_hype.HostActions.{
  unknown_action, vms_running, not_paused, action_required, state_unknown, running_unknown,
  not_clustered, script_failed, Command, suspend_node, resume_node, restart_computer, Reply, prints,
  fails, World, refuses, gives, passes_on, Handled, handle_host_management, handle_host_restart,
  handle_host_suspend, handle_host_suspend_drain, handle_host_resume, handle_host_resume_fallback,
  replied, on_node, check_running, check_paused, restarting, is_lost, HostError, get_hostname,
}

-- What an action asks of a node of a cluster.
abbrev pub node_command : String → Option Command
node_command action =
    if action == "suspend"
    then some (suspend_node false)
    else if action == "suspend_drain"
    then some (suspend_node true)
    else if action == "resume"
    then some (resume_node false)
    else if action == "resume_fallback"
    then some (resume_node true)
    else none

abbrev pub name_of : World → String
name_of w = get_hostname w w.hostname

-- How the script of an action on a node ends: with what it prints, or with its error.
pub data NodeEnds (w : World) (c : Command) : Handled → Type 0 where
  printed : (s : String) → w.shell c ≡ prints s → NodeEnds w c (c ∷ [], gives (name_of w) s)
  broke : (e : String) → w.shell c ≡ fails e → NodeEnds w c (c ∷ [], refuses script_failed)

-- How a restart ends that the checks allow.
pub data RestartEnds (w : World) : Handled → Type 0 where
  restarted :
      (s : String)
      → w.shell restart_computer ≡ prints s
      → RestartEnds w (restart_computer ∷ [], gives (name_of w) "restarting")
  lost :
      (e : String)
      → w.shell restart_computer ≡ fails e
      → is_lost w e ≡ true
      → RestartEnds w (restart_computer ∷ [], gives (name_of w) "restarting")
  not_restarted :
      (e : String)
      → w.shell restart_computer ≡ fails e
      → is_lost w e ≡ false
      → RestartEnds w (restart_computer ∷ [], refuses script_failed)

-- The host may restart: its node, if it is one, is paused, and no machine runs.
abbrev pub MayRestart : World → Type 0
MayRestart w =
    ((w.is_cluster_node ≡ false) ⊎ (w.node_state ≡ some "Paused")) × (w.running ≡ some "0")

-- Why the host may not restart.
pub data Blocked (w : World) : HostError → Type 0 where
  no_state : w.is_cluster_node ≡ true → w.node_state ≡ none → Blocked w state_unknown
  other_state :
      (s : String)
      → w.is_cluster_node ≡ true
      → w.node_state ≡ some s
      → (s == "Paused") ≡ false
      → Blocked w not_paused
  no_count : w.running ≡ none → Blocked w running_unknown
  still_running : (n : String) → w.running ≡ some n → (n == "0") ≡ false → Blocked w vms_running

abbrev pub is_passed_on : String → Bool
is_passed_on action =
    (action == "host_restart_agent")
    || (action == "refresh_hardware")
    || (action == "refresh_inventory")

-- How an action ends.
pub data HostEnds (w : World) (action : String) : Handled → Type 0 where
  on_a_node :
      {h : Handled} (c : Command)
      → node_command action ≡ some c
      → w.is_cluster_node ≡ true
      → NodeEnds w c h
      → HostEnds w action h
  not_a_node :
      (c : Command)
      → node_command action ≡ some c
      → w.is_cluster_node ≡ false
      → HostEnds w action ([], refuses not_clustered)
  restarts :
      {h : Handled}
      → (action == "restart") ≡ true
      → MayRestart w
      → RestartEnds w h
      → HostEnds w action h
  may_not_restart :
      (e : HostError)
      → (action == "restart") ≡ true
      → Blocked w e
      → HostEnds w action ([], refuses e)
  passed_on : is_passed_on action ≡ true → HostEnds w action ([], passes_on action)
  no_action : action ≡ "" → HostEnds w action ([], refuses action_required)
  not_known :
      node_command action ≡ none
      → (action == "restart") ≡ false
      → is_passed_on action ≡ false
      → HostEnds w action ([], refuses unknown_action)

module _ (w : World) where
  replied-NodeEnds : (c : Command) (r : Reply) → w.shell c ≡ r → NodeEnds w c (replied w c r)
  replied-NodeEnds c (prints s) e = printed s e
  replied-NodeEnds c (fails x) e = broke x e

  on_node-HostEnds :
      (action : String) (c : Command)
      → node_command action ≡ some c
      → HostEnds w action (on_node w c)
  on_node-HostEnds action c n =
      if_elim (HostEnds w action) w.is_cluster_node
        (λ t. on_a_node c n t (replied-NodeEnds c (w.shell c) refl)) (λ t. not_a_node c n t)

  restarting-RestartEnds :
      (r : Reply) → w.shell restart_computer ≡ r → RestartEnds w (restarting w r)
  restarting-RestartEnds (prints s) e = restarted s e
  restarting-RestartEnds (fails x) e =
      if_elim (RestartEnds w) (is_lost w x) (λ t. lost x e t) (λ t. not_restarted x e t)

  module _ (action : String) (r : (action == "restart") ≡ true) where
    running-ends :
        (o : Option String)
        → (w.is_cluster_node ≡ false) ⊎ (w.node_state ≡ some "Paused")
        → w.running ≡ o
        → HostEnds w action (check_running w o)
    running-ends none k e = may_not_restart running_unknown r (no_count e)
    running-ends (some n) k e =
        if_elim (HostEnds w action) (n == "0")
          (λ t.
            restarts r (k, e ∙ ap some ((eq_iff n "0").0 t))
              (restarting-RestartEnds (w.shell restart_computer) refl))
          (λ t. may_not_restart vms_running r (still_running n e t))

    paused-ends :
        (o : Option String)
        → w.is_cluster_node ≡ true
        → w.node_state ≡ o
        → HostEnds w action (check_paused w o)
    paused-ends none c e = may_not_restart state_unknown r (no_state c e)
    paused-ends (some s) c e =
        if_elim (HostEnds w action) (s == "Paused")
          (λ t. running-ends w.running (inr (e ∙ ap some ((eq_iff s "Paused").0 t))) refl)
          (λ t. may_not_restart not_paused r (other_state s c e t))

    restart-ends : HostEnds w action (handle_host_restart w)
    unfolding handle_host_restart
    restart-ends =
        if_elim (HostEnds w action) w.is_cluster_node (λ t. paused-ends w.node_state t refl)
          (λ t. running-ends w.running (inl t) refl)

-- Each action ends in one way. One that asks for a suspension or a resumption, with or without a drain or a
-- failback, runs its own script on a node of a cluster, and gives what that prints or fails with it; on
-- another host it is refused. A restart is run only if no machine runs and the node, if it is one, is
-- paused, and succeeds if its script does or fails with one of three texts, one of which is "exit status";
-- a restart that is not run is refused for what the checks found. The refreshes and the restart of the
-- agent are passed on without a script.
pub handle_host_management-HostEnds :
    (w : World) (action : String) → HostEnds w action (handle_host_management w (some action))
unfolding handle_host_management handle_host_suspend handle_host_suspend_drain handle_host_resume
    handle_host_resume_fallback
handle_host_management-HostEnds w action =
    if_elim (HostEnds w action) (action == "") (λ t. no_action ((eq_iff action "").0 t))
      λ _.
        if_elim (HostEnds w action) (action == "suspend")
          (λ t. on_node-HostEnds w action (suspend_node false) (ground (arith, t)))
          λ a.
            if_elim (HostEnds w action) (action == "suspend_drain")
              (λ t. on_node-HostEnds w action (suspend_node true) (ground (arith, a, t)))
              λ b.
                if_elim (HostEnds w action) (action == "resume")
                  (λ t. on_node-HostEnds w action (resume_node false) (ground (arith, a, b, t)))
                  λ c.
                    if_elim (HostEnds w action) (action == "resume_fallback")
                      (λ t.
                        on_node-HostEnds w action (resume_node true) (ground (arith, a, b, c, t)))
                      λ d.
                        if_elim (HostEnds w action) (action == "restart")
                          (λ t. restart-ends w action t)
                          λ r.
                            if_elim (HostEnds w action) (action == "host_restart_agent")
                              (λ t. passed_on (ground (arith, t)))
                              λ e.
                                if_elim (HostEnds w action) (action == "refresh_hardware")
                                  (λ t. passed_on (ground (arith, t)))
                                  λ f.
                                    if_elim (HostEnds w action) (action == "refresh_inventory")
                                      (λ t. passed_on (ground (arith, t)))
                                      λ g.
                                        not_known (ground (arith, a, b, c, d)) r
                                          (ground (arith, e, f, g))
