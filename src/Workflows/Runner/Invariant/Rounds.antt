-- ===== src/Workflows/Runner/Invariant/Rounds.antt =====
-- Every round of a workflow keeps the invariant, and a new workflow has it.
use mmids_core.Common.{
  ℕ, ◌+◌, inl, inr, true, false, Option, none, some, List, [], ◌∷◌, if◌then◌else◌, Bool-cases,
  Option-cases, nat_eq, string_eq, get_elem?,
}
use mmids_core.Workflows.Media.{MediaNotification}
use mmids_core.Workflows.Definitions.{WorkflowStepId, WorkflowDefinition}
use mmids_core.Workflows.Requests.{
  WorkflowRequestOperation, update_definition, get_state, media_notification,
}
use mmids_core.Workflows.Steps.{Env}
use mmids_core.Workflows.Runner.State
use mmids_core.Workflows.Runner.State.{
  Actor, TrackedWorkflowStep, Message, is_running, set_status_to_error,
}
use mmids_core.Workflows.Runner.Caches.{
  update_inbound_media_cache, handle_executed_step_outputs, update_stream_details,
  update_media_cache_from_outputs,
}
use mmids_core.Workflows.Runner.Execute.{get_active_step_index}
use mmids_core.Workflows.Runner.Loop.{
  FutureResult, all_consumers_gone, step_future_senders_gone, workflow_request_received,
  step_future_resolved, FuturesChannelInnerResult, generic, media, Handled, Round, goes_on, closes,
  panics, start_with, receive_media, handle_operation, handle_workflow_request, run_next,
  resolve_future, handle, start,
}
use mmids_core.Workflows.Runner.Invariant.{Inv}
use mmids_core.Workflows.Runner.State.{drop_instance}
use mmids_core.Workflows.Runner.Invariant.Checks.{execute_steps-Inv}
use mmids_core.Workflows.Runner.Invariant.Stop.{stopped-Inv}
use mmids_core.Workflows.Runner.Invariant.Apply.{apply_new_definition-Inv}

module _ {I N : Type 0} (env : Env I N) where
  -- The caches and the inputs are not what the invariant is about.
  inbound-Inv :
      (s : Actor I N) (m : MediaNotification) (received : List MediaNotification)
      → Inv s
      → Inv (record (update_inbound_media_cache s m) {
        step_inputs = record { media = received; notifications = [] };
      })
  unfolding update_inbound_media_cache
  inbound-Inv s m received v = record { quiet = v.quiet; defined = v.defined; tracked = v.tracked }

  start_with-Inv : (s : Actor I N) (ids : List WorkflowStepId) → Inv s → Inv (start_with env s ids)
  unfolding start_with
  start_with-Inv s [] v = v
  start_with-Inv s (id ∷ ids) v = execute_steps-Inv env s id none true true v

  operation-Inv :
      (s : Actor I N) (operation : WorkflowRequestOperation)
      → Inv s
      → Inv (handle_operation env s operation).actor
  unfolding handle_operation receive_media
  operation-Inv s (update_definition definition) v = apply_new_definition-Inv env s definition v
  operation-Inv s (get_state channel) v = v
  operation-Inv s WorkflowRequestOperation.stop_workflow v = stopped-Inv s v
  operation-Inv s (media_notification m) v = start_with-Inv _ _ (inbound-Inv s m (m ∷ []) v)

  run_next-Inv : (s : Actor I N) (index : Option ℕ) → Inv s → Inv (run_next env s index)
  unfolding run_next
  run_next-Inv s none v = v
  run_next-Inv s (some index) v = elim (Option-cases (get_elem? s.active_steps (index + 1))) [
    | inl e ↦ rw (e, run_next) v
    | inr (next, e) ↦ rw (e, run_next) (execute_steps-Inv env s next none true false v)
  ]

  outputs-Inv :
      (s : Actor I N) (id : WorkflowStepId) → Inv s → Inv (handle_executed_step_outputs s id)
  unfolding handle_executed_step_outputs update_stream_details update_media_cache_from_outputs
  outputs-Inv s id v = record { quiet = v.quiet; defined = v.defined; tracked = v.tracked }

  resolve_future-Inv :
      (s : Actor I N) (id : WorkflowStepId) (result : FuturesChannelInnerResult N)
      → Inv s
      → Inv (resolve_future env s id result)
  unfolding resolve_future
  resolve_future-Inv s id (generic n) v = execute_steps-Inv env s id (some n) false true v
  resolve_future-Inv s id (media m) v =
      run_next-Inv _ (get_active_step_index _ id)
        (outputs-Inv _ id (record { quiet = v.quiet; defined = v.defined; tracked = v.tracked }))

  -- The actor that a round leaves has the invariant, whether the loop goes on or ends.
  abbrev pub RoundInv : Round I N → Type 0
  RoundInv (goes_on t response) = Inv t
  RoundInv (closes t) = Inv t
  RoundInv panics = Unit

  after_request-Inv :
      (h : Handled I N)
      → Inv h.actor
      → RoundInv (if h.stop_workflow then closes h.actor else goes_on h.actor h.response)
  after_request-Inv h v = elim (Bool-cases h.stop_workflow) [ inl q ↦ rw q v | inr q ↦ rw q v ]

  pub handle-Inv :
      (s : Actor I N) (result : FutureResult N) → Inv s → RoundInv (handle env s result)
  unfolding handle handle_workflow_request
  handle-Inv s all_consumers_gone v = v
  handle-Inv s step_future_senders_gone v = tt
  handle-Inv s (workflow_request_received request) v =
      after_request-Inv (handle_operation env s request.operation)
        (operation-Inv s request.operation v)
  handle-Inv s (step_future_resolved id result) v = resolve_future-Inv s id result v

  pub start-Inv : (definition : WorkflowDefinition) → Inv (start env definition)
  unfolding start State.new
  start-Inv definition =
      apply_new_definition-Inv env State.new definition
        (record { quiet = λ h. tt; defined = tt; tracked = λ h. tt })
