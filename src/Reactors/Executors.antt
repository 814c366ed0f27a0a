-- ===== src/Reactors/Executors.antt =====
-- What an executor answers, and the factory of executors: mmids-core/src/reactors/executors/mod.rs.
-- An executor is of a type E.
use mmids_core.Common.{
  String, Bool, true, false, Option, none, some, List, [], if◌then◌else◌, nat_eq, string_eq, Map,
  lookup, insert, contains_key, Result, ok, err,
}
use mmids_core.Workflows.Definitions.{WorkflowDefinition}

pub record ReactorExecutionResult : Type 0 where
  pub stream_is_valid : Bool
  pub workflows_returned : List WorkflowDefinition

unfoldable pub invalid : ReactorExecutionResult
invalid = record { stream_is_valid = false; workflows_returned = [] }

unfoldable pub valid : List WorkflowDefinition → ReactorExecutionResult
valid workflows = record { stream_is_valid = true; workflows_returned = workflows }

pub data RegistrationError : Type 0 where
  duplicate_name : String → RegistrationError

pub data GenerationError : Type 0 where
  no_registered_generator : String → GenerationError

-- `ReactorExecutorGenerator::generate`; the error is a text.
abbrev pub ReactorExecutorGenerator : Type 0 → Type 0
ReactorExecutorGenerator E = Map String (Option String) → Result E String

pub record ReactorExecutorFactory (E : Type 0) : Type 0 where
  pub generators : Map String (ReactorExecutorGenerator E)

module _ {E : Type 0} where
  unfoldable pub new_executor_factory : ReactorExecutorFactory E
  new_executor_factory = record { generators = [] }

  unfoldable pub register_executor :
      ReactorExecutorFactory E
      → String
      → ReactorExecutorGenerator E
      → Result (ReactorExecutorFactory E) RegistrationError
  register_executor f name generator =
      if contains_key name f.generators
      then err (duplicate_name name)
      else ok (record { generators = insert name generator f.generators })

  unfoldable pub get_generator :
      ReactorExecutorFactory E → String → Result (ReactorExecutorGenerator E) GenerationError
  get_generator f name = elim (lookup name f.generators) [
    | some generator ↦ ok generator
    | none ↦ err (no_registered_generator name)
  ]
