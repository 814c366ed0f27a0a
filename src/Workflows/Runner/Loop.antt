-- ===== src/Workflows/Runner/Loop.antt =====
-- `handle_workflow_request` and the loop of `run`.
use mmids_core.Common.{
  ℕ, ◌+◌, Bool, true, false, Option, none, some, List, [], ◌∷◌, if◌then◌else◌, nat_eq, string_eq,
  get_elem?, fold_left, Map, lookup, insert,
}
use mmids_core.Workflows.Media.{MediaNotification}
use mmids_core.Workflows.Definitions.{WorkflowStepId, WorkflowStepDefinition, WorkflowDefinition}
use mmids_core.Workflows.Requests.{
  Sender, WorkflowRequestOperation, WorkflowRequest, update_definition, get_state,
  media_notification,
}
use mmids_core.Workflows.Steps.{StepStatus, Env}
use mmids_core.Workflows.Runner.State
use mmids_core.Workflows.Runner.State.{Actor, TrackedWorkflowStep, WorkflowStatus}
use mmids_core.Workflows.Runner.Caches.{update_inbound_media_cache, handle_executed_step_outputs}
use mmids_core.Workflows.Runner.Execute.{get_active_step_index}
use mmids_core.Workflows.Runner.Apply.{apply_new_definition, execute_steps}

pub record WorkflowStepState : Type 0 where
  pub step_id : WorkflowStepId
  pub definition : WorkflowStepDefinition
  pub status : StepStatus

pub record WorkflowState : Type 0 where
  pub status : WorkflowStatus
  pub active_steps : List WorkflowStepState
  pub pending_steps : List WorkflowStepState

-- `FuturesChannelInnerResult`.
pub data FuturesChannelInnerResult (N : Type 0) : Type 0 where
  generic : N → FuturesChannelInnerResult N
  media : MediaNotification → FuturesChannelInnerResult N

pub data FutureResult (N : Type 0) : Type 0 where
  all_consumers_gone step_future_senders_gone : FutureResult N
  workflow_request_received : WorkflowRequest → FutureResult N
  step_future_resolved : WorkflowStepId → FuturesChannelInnerResult N → FutureResult N

-- What a request comes to: the actor, whether it is to stop, and the state that was sent.
pub record Handled (I N : Type 0) : Type 0 where
  pub actor : Actor I N
  pub stop_workflow : Bool
  pub response : Option (Sender × WorkflowState)

pub data Round (I N : Type 0) : Type 0 where
  goes_on : Actor I N → Option (Sender × WorkflowState) → Round I N
  closes : Actor I N → Round I N
  panics : Round I N

abbrev pub status_of : {I : Type 0} → Option (TrackedWorkflowStep I) → StepStatus
status_of none = StepStatus.error "Step not instantiated"
status_of (some step) = step.status

abbrev pub is_error : StepStatus → Bool
is_error (StepStatus.error message) = true
is_error _ = false

-- The step of an id is dropped, and its status set, unless it is an error.
unfoldable pub shut_down :
    {I : Type 0}
    → Map WorkflowStepId (TrackedWorkflowStep I)
    → WorkflowStepId
    → Map WorkflowStepId (TrackedWorkflowStep I)
shut_down steps id = elim (lookup id steps) [
  | none ↦ steps
  | some step ↦
      insert id
        (record {
          step_instance = none;
          status = if is_error step.status then step.status else StepStatus.shutdown;
        })
        steps
]

module _ {I N : Type 0} where
  -- The states of the listed steps that have a definition.
  unfoldable pub step_states : Actor I N → List WorkflowStepId → List WorkflowStepState
  step_states s [] = []
  step_states s (id ∷ ids) = elim (lookup id s.step_definitions) [
    | none ↦ step_states s ids
    | some definition ↦
        record {
          step_id = id;
          definition = definition;
          status = status_of (lookup id s.steps_by_definition_id);
        }
        ∷ step_states s ids
  ]

  unfoldable pub state_of : Actor I N → WorkflowState
  state_of s = record {
    status = s.status;
    active_steps = step_states s s.active_steps;
    pending_steps = step_states s s.pending_steps;
  }

  unfoldable pub stopped : Actor I N → Actor I N
  stopped s = record s {
    steps_by_definition_id =
        fold_left shut_down (fold_left shut_down s.steps_by_definition_id s.active_steps)
          s.pending_steps;
  }

  -- The first active step is run with the media as its input.
  unfoldable pub start_with : Env I N → Actor I N → List WorkflowStepId → Actor I N
  start_with env s [] = s
  start_with env s (id ∷ later) = execute_steps env s id none true true

  unfoldable pub receive_media : Env I N → Actor I N → MediaNotification → Actor I N
  receive_media env s m =
      let t : Actor I N = record (update_inbound_media_cache s m) {
        step_inputs = record { media = m ∷ []; notifications = [] };
      } in
      start_with env t t.active_steps

  unfoldable pub handle_operation : Env I N → Actor I N → WorkflowRequestOperation → Handled I N
  handle_operation env s (update_definition definition) = record {
    actor = apply_new_definition env s definition;
    stop_workflow = false;
    response = none;
  }
  handle_operation env s (get_state channel) = record {
    actor = s;
    stop_workflow = false;
    response = some (channel, state_of s);
  }
  handle_operation env s WorkflowRequestOperation.stop_workflow = record {
    actor = stopped s;
    stop_workflow = true;
    response = none;
  }
  handle_operation env s (media_notification m) = record {
    actor = receive_media env s m;
    stop_workflow = false;
    response = none;
  }

  -- `handle_workflow_request`.
  unfoldable pub handle_workflow_request : Env I N → Actor I N → WorkflowRequest → Handled I N
  handle_workflow_request env s request = handle_operation env s request.operation

  -- The step behind the one that produced the media goes on with it.
  unfoldable pub run_next : Env I N → Actor I N → Option ℕ → Actor I N
  run_next env s none = s
  run_next env s (some index) = elim (get_elem? s.active_steps (index + 1)) [
    | none ↦ s
    | some next ↦ execute_steps env s next none true false
  ]

  unfoldable pub resolve_future :
      Env I N → Actor I N → WorkflowStepId → FuturesChannelInnerResult N → Actor I N
  resolve_future env s id (generic n) = execute_steps env s id (some n) false true
  resolve_future env s id (media m) =
      let t =
        handle_executed_step_outputs (record s { step_outputs = record { media = m ∷ [] } }) id in
      run_next env t (get_active_step_index t id)

  abbrev pub after_request : Handled I N → Round I N
  after_request h = if h.stop_workflow then closes h.actor else goes_on h.actor h.response

  -- One round of the loop of `run`.
  unfoldable pub handle : Env I N → Actor I N → FutureResult N → Round I N
  handle env s all_consumers_gone = closes s
  handle env s step_future_senders_gone = panics
  handle env s (workflow_request_received request) =
      after_request (handle_workflow_request env s request)
  handle env s (step_future_resolved id result) = goes_on (resolve_future env s id result) none

  -- What `run` does before its loop.
  unfoldable pub start : Env I N → WorkflowDefinition → Actor I N
  start env definition = apply_new_definition env State.new definition
