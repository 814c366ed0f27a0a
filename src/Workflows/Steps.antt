-- ===== src/Workflows/Steps.antt =====
-- Workflow steps and the step factory: mmids-core/src/workflows/steps/mod.rs and factory.rs. A step
-- object (`Box<dyn WorkflowStep>`) is a value of a type `I`, and a resolved future that is meant for
-- a step (`Box<dyn StepFutureResult>`) one of a type `N`.
use mmids_core.Common.{
  ℕ, String, none, some, List, [], if◌then◌else◌, nat_eq, string_eq, Map, lookup, insert,
  contains_key, Result, ok, err,
}
use mmids_core.Workflows.Media.{MediaNotification}
use mmids_core.Workflows.Definitions.{
  WorkflowStepType, WorkflowStepId, WorkflowStepDefinition, HashToken,
}

pub data StepStatus : Type 0 where
  created active : StepStatus
  error : String → StepStatus
  shutdown : StepStatus

pub record StepInputs (N : Type 0) : Type 0 where
  pub media : List MediaNotification
  pub notifications : List N

pub record StepOutputs : Type 0 where
  pub media : List MediaNotification

-- `StepInputs::new` and `clear`, `StepOutputs::new` and `clear`.
abbrev pub no_inputs : {N : Type 0} → StepInputs N
no_inputs = record { media = []; notifications = [] }

abbrev pub no_outputs : StepOutputs
no_outputs = record { media = [] }

-- What a call of `execute` leaves: the step, its inputs and outputs, and the status it returns.
pub record Executed (I N : Type 0) : Type 0 where
  pub step_instance : I
  pub inputs : StepInputs N
  pub outputs : StepOutputs
  pub status : StepStatus

pub data FactoryCreateError : Type 0 where
  no_registered_step : WorkflowStepType → FactoryCreateError

pub data FactoryRegistrationError : Type 0 where
  duplicate_name : WorkflowStepType → FactoryRegistrationError

-- `StepGenerator::generate`: a step and its first status, or an error, which is a text.
abbrev pub StepGenerator : Type 0 → Type 0
StepGenerator I = WorkflowStepDefinition → Result (I × StepStatus) String

pub record WorkflowStepFactory (I : Type 0) : Type 0 where
  pub generators : Map WorkflowStepType (StepGenerator I)

module _ {I : Type 0} where
  -- `WorkflowStepFactory::new`.
  unfoldable pub new_factory : WorkflowStepFactory I
  new_factory = record { generators = [] }

  unfoldable pub register :
      WorkflowStepFactory I
      → WorkflowStepType
      → StepGenerator I
      → Result (WorkflowStepFactory I) FactoryRegistrationError
  register f t g =
      if contains_key t f.generators
      then err (duplicate_name t)
      else ok (record { generators = insert t g f.generators })

  unfoldable pub create_step :
      WorkflowStepFactory I
      → WorkflowStepDefinition
      → Result (Result (I × StepStatus) String) FactoryCreateError
  create_step f d = elim (lookup d.step_type f.generators) [
    | some g ↦ ok (g d)
    | none ↦ err (no_registered_step d.step_type)
  ]

-- What a workflow runs in: the hasher behind step ids, the factory, and what a step's `execute` does.
pub record Env (I N : Type 0) : Type 0 where
  pub hasher : List HashToken → ℕ
  pub step_factory : WorkflowStepFactory I
  pub execute : I → WorkflowStepId → StepInputs N → StepOutputs → Executed I N
