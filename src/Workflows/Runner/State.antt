-- ===== src/Workflows/Runner/State.antt =====
-- The state of a workflow actor, and `set_status_to_error`.
use mmids_core.Common.{
  String, Bool, true, false, Option, none, some, List, [], ◌++◌, nat_eq, string_eq, fold_left, Map,
  lookup, insert,
}
use mmids_core.Workflows.Media.{StreamId, MediaNotification}
use mmids_core.Workflows.Definitions.{WorkflowStepId, WorkflowStepDefinition}
use mmids_core.Workflows.Steps.{
  StepStatus, StepInputs, StepOutputs, FactoryCreateError, no_inputs, no_outputs,
}

-- The texts that the workflow's status can hold; those that are formatted keep their parts.
pub data Message : Type 0 where
  reported : String → Message
  step_not_defined : Message
  failed_to_generate_instance : FactoryCreateError → Message
  failed_to_generate : String → Message

pub data WorkflowStatus : Type 0 where
  running : WorkflowStatus
  error : WorkflowStepId → Message → WorkflowStatus

abbrev pub is_running : WorkflowStatus → Bool
is_running running = true
is_running (error id message) = false

pub record TrackedWorkflowStep (I : Type 0) : Type 0 where
  pub step_instance : Option I
  pub status : StepStatus

-- `StreamDetails`.
pub record StreamDetails : Type 0 where
  pub originating_step_id : WorkflowStepId

abbrev pub MediaCache : Type 0
MediaCache = Map StreamId (List MediaNotification)

-- `Actor`; its name and what it shares with its surroundings are left out.
pub record Actor (I N : Type 0) : Type 0 where
  pub steps_by_definition_id : Map WorkflowStepId (TrackedWorkflowStep I)
  pub active_steps : List WorkflowStepId
  pub pending_steps : List WorkflowStepId
  pub step_inputs : StepInputs N
  pub step_outputs : StepOutputs
  pub cached_step_media : Map WorkflowStepId MediaCache
  pub cached_inbound_media : MediaCache
  pub active_streams : Map StreamId StreamDetails
  pub step_definitions : Map WorkflowStepId WorkflowStepDefinition
  pub status : WorkflowStatus

-- `step.instance.take()` on the step of an id, if there is one.
unfoldable pub drop_instance :
    {I : Type 0}
    → Map WorkflowStepId (TrackedWorkflowStep I)
    → WorkflowStepId
    → Map WorkflowStepId (TrackedWorkflowStep I)
drop_instance steps id = elim (lookup id steps) [
  | none ↦ steps
  | some step ↦ insert id (record step { step_instance = none }) steps
]

module _ {I N : Type 0} where
  -- `Actor::new`.
  unfoldable pub new : Actor I N
  new = record {
    steps_by_definition_id = [];
    active_steps = [];
    pending_steps = [];
    step_inputs = no_inputs;
    step_outputs = no_outputs;
    cached_step_media = [];
    cached_inbound_media = [];
    active_streams = [];
    step_definitions = [];
    status = running;
  }

  unfoldable pub set_status_to_error : Actor I N → WorkflowStepId → Message → Actor I N
  set_status_to_error s id message = record s {
    status = error id message;
    steps_by_definition_id =
        fold_left drop_instance s.steps_by_definition_id (s.active_steps ++ s.pending_steps);
  }
