-- ===== src/Tasks/Dispatch/Routing.antt =====
-- dispatcher.go: the answers of Dispatch and the inventories that it starts.
use open_v_center_agent_hype.Queue.Classifier.{among}
use Prim.Native.String.{◌++◌ as ◌<>◌}
use open_v_center_agent_hype.Base.{
  ◌∙◌, sym, String, ◌≡◌, ◌≢◌, refl, ◌↔◌, true, false, ◌||◌, Option, none, some, List, [], ◌∷◌, ◌==◌,
  eq_iff, if_elim, arith, Bool,
}
use open_v_center_agent_hype.Tasks.Functions.{wire_function, artifact_download}
use open_v_center_agent_hype.Tasks.Params.{Params, with_action}
use open_v_center_agent_hype.Tasks.Response.{TaskResponse, terminal_status}
use open_v_center_agent_hype.Tasks.Dispatch.{
  is_delete_action, is_notes_edit_action, TaskMessage, Outcome, returned, failed_with, panicked,
  Handlers, Background, refreshes_inventory, is_vm_state_changing_task, is_refresh_status_action,
  dispatch, respond, attach, after_change, query, extract_vm_identifier, Vm, outcome, base, fail,
  handled_types,
}

module _ {R : Type 0} (h : Handlers R) where
  -- What attaching a machine's state leaves alone.
  record Same (r s : TaskResponse R) : Type 0 where
    same_id : s.task_id ≡ r.task_id
    same_type : s.task_type ≡ r.task_type
    same_function : s.function ≡ r.function
    same_status : s.status ≡ r.status
    same_error : s.error ≡ r.error
    same_internal : s.internal_status ≡ r.internal_status
    same_result : s.result ≡ r.result

  Same-refl : (r : TaskResponse R) → Same r r
  Same-refl r = record {
    same_id = refl;
    same_type = refl;
    same_function = refl;
    same_status = refl;
    same_error = refl;
    same_internal = refl;
    same_result = refl;
  }

  attach-Same : (o : Option (List Vm)) (r : TaskResponse R) → Same r (attach h o r)
  unfolding attach
  attach-Same none r = Same-refl r
  attach-Same (some []) r = Same-refl r
  attach-Same (some (vm ∷ vms)) r = record {
    same_id = refl;
    same_type = refl;
    same_function = refl;
    same_status = refl;
    same_error = refl;
    same_internal = refl;
    same_result = refl;
  }

  after_change-Same :
      (task_type : String) (p : Params) (result : R) (r : TaskResponse R)
      → Same r (after_change h task_type p result r)
  unfolding after_change
  after_change-Same task_type p result r =
      if_elim (Same r) (is_refresh_status_action task_type p || is_notes_edit_action task_type p)
        (λ _. attach-Same (some (h.vms result)) r)
        λ _.
          if_elim (Same r) (is_delete_action task_type p) (λ _. Same-refl r)
            λ _. attach-Same (query h (extract_vm_identifier h task_type p result)) r

  terminal-Same : {r s : TaskResponse R} → Same r s → terminal_status s ≡ terminal_status r
  unfolding terminal_status
  terminal-Same k = rw (k.same_internal, k.same_status)

  -- How an answer reports a result, and how it reports an error.
  pub record Completes (result : R) (a : TaskResponse R × List Background) : Type 0 where
    pub completed_lem : terminal_status a.0 ≡ "completed"
    pub gives_result : a.0.result ≡ some result
    pub gives_no_error : a.0.error ≡ none

  pub record Fails (e : String) (a : TaskResponse R × List Background) : Type 0 where
    pub failed_lem : terminal_status a.0 ≡ "failed"
    pub gives_error : a.0.error ≡ some e
    pub gives_no_result : a.0.result ≡ none
    pub starts_nothing : a.1 ≡ []

  pub record IsAbout (m : TaskMessage) (r : TaskResponse R) : Type 0 where
    pub id_lem : r.task_id ≡ m.task_id
    pub type_lem : r.task_type ≡ m.task_type
    pub function_lem : r.function ≡ wire_function m.task_type m.action

  -- What the answer to a task says, by its type and by what the handler of a known type does with the
  -- parameters.
  pub data Says (known : Bool) (task_type : String) (o : Outcome R)
      (a : TaskResponse R × List Background) : Type 0 where
    unknown :
        known ≡ false → Fails ("unknown task type: " <> task_type) a → Says known task_type o a
    succeeds :
        (result : R)
        → known ≡ true
        → o ≡ returned result
        → Completes result a
        → Says known task_type o a
    errs : (e : String) → known ≡ true → o ≡ failed_with e → Fails e a → Says known task_type o a
    panics :
        (e : String)
        → known ≡ true
        → o ≡ panicked e
        → Fails ("internal panic: " <> e) a
        → Says known task_type o a

  abbrev pub Answers : TaskMessage → TaskResponse R × List Background → Type 0
  Answers m a =
      IsAbout m a.0
      × Says (among handled_types m.task_type) m.task_type
          (h.run m.task_type (with_action m.payload m.action)) a

  fail-Fails : (m : TaskMessage) (e : String) → Fails e (fail h m e)
  unfolding terminal_status base fail
  fail-Fails m e = record {
    failed_lem = refl;
    gives_error = refl;
    gives_no_result = refl;
    starts_nothing = refl;
  }

  base-IsAbout : (m : TaskMessage) (p : Params) (o : Outcome R) → IsAbout m (respond h m p o).0
  unfolding respond base fail
  base-IsAbout m p (failed_with e) = record { id_lem = refl; type_lem = refl; function_lem = refl }
  base-IsAbout m p (panicked e) = record { id_lem = refl; type_lem = refl; function_lem = refl }
  base-IsAbout m p (returned result) =
      if_elim {A = TaskResponse R × List Background} (λ a. IsAbout m a.0)
        (is_vm_state_changing_task m.task_type)
        (λ _.
          let s = after_change-Same m.task_type p result _ in
          record { id_lem = s.same_id; type_lem = s.same_type; function_lem = s.same_function })
        λ _. record { id_lem = refl; type_lem = refl; function_lem = refl }

  returned-Completes :
      (m : TaskMessage) (p : Params) (result : R)
      → Completes result (respond h m p (returned result))
  unfolding respond terminal_status base
  returned-Completes m p result =
      if_elim (Completes result) (is_vm_state_changing_task m.task_type)
        (λ _.
          let s = after_change-Same m.task_type p result _ in
          record {
            completed_lem = terminal-Same s;
            gives_result = s.same_result;
            gives_no_error = s.same_error;
          })
        λ _. record { completed_lem = refl; gives_result = refl; gives_no_error = refl }

  respond-Says :
      (m : TaskMessage) (p : Params) (o : Outcome R)
      → among handled_types m.task_type ≡ true
      → Says (among handled_types m.task_type) m.task_type o (respond h m p o)
  unfolding respond
  respond-Says m p (failed_with e) k = errs e k refl (fail-Fails m e)
  respond-Says m p (panicked e) k = panics e k refl (fail-Fails m _)
  respond-Says m p (returned result) k = succeeds result k refl (returned-Completes m p result)

  answered :
      (m : TaskMessage) (p : Params)
      → Says
          (among handled_types m.task_type)
          m.task_type
          (h.run m.task_type p)
          (respond h m p (outcome h m.task_type p))
  unfolding outcome
  answered m p =
      if_elim
        (λ o.
          Says (among handled_types m.task_type) m.task_type (h.run m.task_type p)
            (respond h m p o))
        (among handled_types m.task_type) (λ k. respond-Says m p (h.run m.task_type p) k)
        λ k. unknown k (unfold respond in fail-Fails m _)

  -- Every task but the agent's upgrade is answered at once, under its own id, type and function name. If
  -- its type is known and its handler returned a result, the answer is completed, with that result and
  -- without an error. Otherwise it is failed, without a result, with nothing started in the
  -- background, and with an error: that of the handler, its panic, or that the type is unknown.
  pub dispatch-Answers :
      (m : TaskMessage) → m.task_type ≢ artifact_download → Answers m (dispatch h m)
  unfolding dispatch
  dispatch-Answers m n =
      if_elim (Answers m) (m.task_type == artifact_download)
        (λ e. absurd (n ((eq_iff m.task_type artifact_download).0 e)))
        λ _. (base-IsAbout m _ _, answered m (with_action m.payload m.action))

  abbrev Refreshes : TaskMessage → Outcome R → Type 0
  Refreshes m o =
      (is_vm_state_changing_task m.task_type ≡ true)
      × (is_refresh_status_action m.task_type (with_action m.payload m.action) ≡ false)
      × ((result : R) × (o ≡ returned result))

  respond-Refreshes :
      (m : TaskMessage) (o : Outcome R)
      → ((respond h m (with_action m.payload m.action) o).1 ≡ refreshes_inventory ∷ [])
        ↔ Refreshes m o
  unfolding respond fail
  respond-Refreshes m (failed_with e) =
      (λ x. absurd (ground (arith, x)), λ w. absurd (ground (arith, w.2.1)))
  respond-Refreshes m (panicked e) =
      (λ x. absurd (ground (arith, x)), λ w. absurd (ground (arith, w.2.1)))
  respond-Refreshes m (returned result) =
      (λ x. (ground (arith, x), ground (arith, x), (result, refl)), λ w. rw (w.0, w.1))

  outcome-changing :
      (m : TaskMessage)
      → is_vm_state_changing_task m.task_type ≡ true
      → outcome h m.task_type (with_action m.payload m.action)
        ≡ h.run m.task_type (with_action m.payload m.action)
  unfolding outcome
  outcome-changing m c = ground (arith, c)

  -- A fresh inventory is collected after a task, other than the agent's upgrade, exactly if the
  -- task could change a machine, its handler returned a result, and it was no status query.
  dispatch_refreshes :
      (m : TaskMessage)
      → m.task_type ≢ artifact_download
      → ((dispatch h m).1 ≡ refreshes_inventory ∷ []) ↔ (
          (is_vm_state_changing_task m.task_type ≡ true)
          × (is_refresh_status_action m.task_type (with_action m.payload m.action) ≡ false)
          × ((result : R) × (h.run m.task_type (with_action m.payload m.action) ≡ returned result)))
  unfolding dispatch
  dispatch_refreshes m n =
      if_elim {A = TaskResponse R × List Background}
        (λ a.
          (a.1 ≡ refreshes_inventory ∷ [])
          ↔ Refreshes m (h.run m.task_type (with_action m.payload m.action)))
        (m.task_type == artifact_download)
        (λ e. absurd (n ((eq_iff m.task_type artifact_download).0 e)))
        λ _. both (respond-Refreshes m (outcome h m.task_type (with_action m.payload m.action)))
    where
      both :
          ((respond h m
                (with_action m.payload m.action)
                (outcome h m.task_type (with_action m.payload m.action))).1
              ≡ refreshes_inventory ∷ [])
            ↔ Refreshes m (outcome h m.task_type (with_action m.payload m.action))
          → ((respond h m
                (with_action m.payload m.action)
                (outcome h m.task_type (with_action m.payload m.action))).1
              ≡ refreshes_inventory ∷ [])
            ↔ Refreshes m (h.run m.task_type (with_action m.payload m.action))
      both (to, from) = (
        λ e. let w = to e in (w.0, w.1, (w.2.0, sym (outcome-changing m w.0) ∙ w.2.1)),
        λ w. from (w.0, w.1, (w.2.0, outcome-changing m w.0 ∙ w.2.1)),
      )
