-- ===== src/Workflows/Runner/History.antt =====
-- What holds in every state that a workflow can come to: its invariant, what it reports, and what is
-- left of it once it has failed or is stopped.
use mmids_core.Common.{
  ℕ, ◌+◌, String, ◌≡◌, refl, sym, ap, subst, inl, inr, Bool, true, false, Option, none, some, List,
  [], ◌∷◌, map, Option-cases, nat_eq, string_eq, get_elem?, All, All-append_left, All-append_right,
  lookup,
}
use mmids_core.Workflows.Definitions.{WorkflowStepId, WorkflowDefinition}
use mmids_core.Workflows.Requests.{
  WorkflowRequestOperation, WorkflowRequest, update_definition, get_state, media_notification,
}
use mmids_core.Workflows.Steps.{Env}
use mmids_core.Workflows.Runner.State.{Actor, is_running}
use mmids_core.Workflows.Runner.Caches.{
  update_inbound_media_cache, handle_executed_step_outputs, update_stream_details,
  update_media_cache_from_outputs,
}
use mmids_core.Workflows.Runner.Execute.{get_active_step_index}
use mmids_core.Workflows.Runner.Apply.{execute_steps}
use mmids_core.Workflows.Runner.Loop.{
  FutureResult, WorkflowState, step_states, state_of, all_consumers_gone, step_future_senders_gone,
  workflow_request_received, step_future_resolved, FuturesChannelInnerResult, generic, media, Round,
  goes_on, closes, panics, stopped, start_with, receive_media, handle_operation,
  handle_workflow_request, run_next, resolve_future, handle, start,
}
use mmids_core.Workflows.Runner.Invariant.{listed, HasNoInstance, IsDefined, Inv}
use mmids_core.Workflows.Runner.Invariant.Stop.{stopped_lem}
use mmids_core.Workflows.Runner.Invariant.Rounds.{RoundInv, handle-Inv, start-Inv}
use mmids_core.Workflows.Requests.{Sender}

module _ {I N : Type 0} (env : Env I N) where
  -- The states of a workflow: the one it starts with, and each that a round goes on with.
  pub data Reached (definition : WorkflowDefinition) : Actor I N → Type 0 where
    begun : Reached definition (start env definition)
    later :
        {s t : Actor I N} {response : Option (Sender × WorkflowState)}
        → Reached definition s
        → (e : FutureResult N) → handle env s e ≡ goes_on t response
        → Reached definition t

  -- In every state that a workflow comes to from its start, each active or pending step has a
  -- definition; in a running workflow each of them has been created; in a failed one none of them
  -- has its step object.
  pub Reached-Inv : {definition : WorkflowDefinition} (s : Actor I N) → Reached definition s → Inv s
  Reached-Inv {definition} _ begun = start-Inv env definition
  Reached-Inv t (later {s = s} r e q) =
      subst (RoundInv env) q (handle-Inv env s e (Reached-Inv s r))

  step_states-ids :
      (s : Actor I N) (ids : List WorkflowStepId)
      → All (IsDefined s) ids
      → map (λ x. x.step_id) (step_states s ids) ≡ ids
  unfolding step_states
  step_states-ids s [] h = refl
  step_states-ids s (id ∷ ids) h = elim (Option-cases (lookup id s.step_definitions)) [
    | inl e ↦ cc (e, h.0)
    | inr (definition, e) ↦ rw (e, step_states) (ap (λ xs. id ∷ xs) (step_states-ids s ids h.1))
  ]

  -- In every state that a workflow comes to, the state it reports on request lists all of its active
  -- and all of its pending steps, in their order.
  pub state_of-ids :
      {definition : WorkflowDefinition} (s : Actor I N)
      → Reached definition s
      → (map (λ x. x.step_id) (state_of s).active_steps ≡ s.active_steps)
        × (map (λ x. x.step_id) (state_of s).pending_steps ≡ s.pending_steps)
  unfolding state_of
  state_of-ids s r =
      let d = (Reached-Inv s r).defined in
      (
        step_states-ids s s.active_steps
            (All-append_left (IsDefined s) s.active_steps s.pending_steps d),
        step_states-ids s s.pending_steps
            (All-append_right (IsDefined s) s.active_steps s.pending_steps d),
      )

  abbrev pub is_update : FutureResult N → Bool
  is_update (workflow_request_received request) = elim request.operation [
    | update_definition definition ↦ true
    | _ ↦ false
  ]
  is_update _ = false

  -- Two actors with the same status, the same lists of steps and the same step objects.
  abbrev pub SameSteps : Actor I N → Actor I N → Type 0
  SameSteps s t =
      (t.status ≡ s.status)
      × (t.active_steps ≡ s.active_steps)
      × (t.pending_steps ≡ s.pending_steps)
      × (t.steps_by_definition_id ≡ s.steps_by_definition_id)

  execute_steps-failed :
      (s : Actor I N) (id : WorkflowStepId) (n : Option N) (preserve check : Bool)
      → is_running s.status ≡ false
      → execute_steps env s id n preserve check ≡ s
  unfolding execute_steps
  execute_steps-failed s id n preserve check h = rw h

  start_with-failed :
      (s : Actor I N) (ids : List WorkflowStepId)
      → is_running s.status ≡ false
      → start_with env s ids ≡ s
  unfolding start_with
  start_with-failed s [] h = refl
  start_with-failed s (id ∷ ids) h = execute_steps-failed s id none true true h

  run_next-failed :
      (s : Actor I N) (index : Option ℕ) → is_running s.status ≡ false → run_next env s index ≡ s
  unfolding run_next
  run_next-failed s none h = refl
  run_next-failed s (some index) h = elim (Option-cases (get_elem? s.active_steps (index + 1))) [
    | inl e ↦ rw (e, run_next)
    | inr (next, e) ↦ rw (e, run_next) (execute_steps-failed s next none true false h)
  ]

  -- The actor that a round goes on with, if it goes on, is as the other one in its steps.
  abbrev pub StaysAs : Actor I N → Round I N → Type 0
  StaysAs s (goes_on t response) = SameSteps s t
  StaysAs s (closes t) = Unit
  StaysAs s panics = Unit

  resolve_future-failed :
      (s : Actor I N) (id : WorkflowStepId) (result : FuturesChannelInnerResult N)
      → is_running s.status ≡ false
      → SameSteps s (resolve_future env s id result)
  unfolding resolve_future handle_executed_step_outputs update_stream_details
      update_media_cache_from_outputs
  resolve_future-failed s id (generic n) h =
      rw (execute_steps-failed s id (some n) false true h) (refl, refl, refl, refl)
  resolve_future-failed s id (media m) h =
      subst (SameSteps s) (sym (run_next-failed _ (get_active_step_index _ id) h))
        (refl, refl, refl, refl)

  operation-failed :
      (s : Actor I N) (request : WorkflowRequest)
      → is_running s.status ≡ false
      → is_update (workflow_request_received request) ≡ false
      → StaysAs s (handle env s (workflow_request_received request))
  unfolding handle handle_workflow_request handle_operation receive_media update_inbound_media_cache
  operation-failed s request h u = by_operation request.operation request.request_id u
    where
      by_operation :
          (operation : WorkflowRequestOperation) (id : String)
          → is_update
              (workflow_request_received (record { request_id = id; operation = operation }))
            ≡ false
          → StaysAs s (
              handle env s
                (workflow_request_received (record { request_id = id; operation = operation })))
      by_operation (update_definition definition) id u = cc u
      by_operation (get_state channel) id u = (refl, refl, refl, refl)
      by_operation WorkflowRequestOperation.stop_workflow id u = tt
      by_operation (media_notification m) id u =
          subst (SameSteps s) (sym (start_with-failed _ s.active_steps h)) (refl, refl, refl, refl)

  -- A workflow that has failed runs no step: until a new definition comes, a round that it goes on
  -- with leaves its status, its lists of steps and its step objects as they are.
  pub failed_lem :
      (s : Actor I N) (e : FutureResult N)
      → is_running s.status ≡ false
      → is_update e ≡ false
      → StaysAs s (handle env s e)
  unfolding handle
  failed_lem s all_consumers_gone h u = tt
  failed_lem s step_future_senders_gone h u = tt
  failed_lem s (workflow_request_received request) h u = operation-failed s request h u
  failed_lem s (step_future_resolved id result) h u = resolve_future-failed s id result h

  -- A request to stop ends the loop of a workflow, in any state, and after it no active and no
  -- pending step has its step object.
  pub stop_lem :
      (s : Actor I N) (id : String)
      → (t : Actor I N) × (handle env s (
            workflow_request_received
              (record { request_id = id; operation = WorkflowRequestOperation.stop_workflow }))
          ≡ closes t)
        × All (HasNoInstance t) (listed s)
  unfolding handle handle_workflow_request handle_operation
  stop_lem s id = (stopped s, refl, stopped_lem s)
