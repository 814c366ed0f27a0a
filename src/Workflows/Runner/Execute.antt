-- ===== src/Workflows/Runner/Execute.antt =====
-- Running steps: `execute_step`, and `execute_steps` without its check of the pending steps.
use mmids_core.Common.{
  ℕ, suc, Bool, Option, none, some, List, [], ◌∷◌, ◌++◌, if◌then◌else◌, ◌==◌, nat_eq, string_eq,
  drop, fold_left, lookup, insert,
}
use mathlib.Core.Option
use mmids_core.Workflows.Definitions.{WorkflowStepId}
use mmids_core.Workflows.Steps.{StepStatus, StepInputs, Executed, Env, no_inputs, no_outputs}
use mmids_core.Workflows.Runner.State.{
  Actor, TrackedWorkflowStep, reported, is_running, set_status_to_error,
}
use mmids_core.Workflows.Runner.Caches.{handle_executed_step_outputs}

-- `get_active_step_index`.
unfoldable pub index_of : List WorkflowStepId → WorkflowStepId → Option ℕ
index_of [] id = none
index_of (x ∷ xs) id = if x == id then some 0 else Option.map suc (index_of xs id)

-- The inputs that `execute_steps` begins with.
abbrev pub inputs_with : {N : Type 0} → Option N → StepInputs N → StepInputs N
inputs_with none inputs = inputs
inputs_with (some n) inputs = record inputs { notifications = inputs.notifications ++ n ∷ [] }

module _ {I N : Type 0} where
  unfoldable pub get_active_step_index : Actor I N → WorkflowStepId → Option ℕ
  unfolding index_of
  get_active_step_index s id = index_of s.active_steps id

  -- What follows the call of a step's `execute`.
  unfoldable pub after_execute : Actor I N → WorkflowStepId → StepStatus → Actor I N
  after_execute s id (StepStatus.error message) = set_status_to_error s id (reported message)
  after_execute s id StepStatus.created = handle_executed_step_outputs s id
  after_execute s id StepStatus.active = handle_executed_step_outputs s id
  after_execute s id StepStatus.shutdown = handle_executed_step_outputs s id

  -- The actor with what the call of `execute` left.
  unfoldable pub executed : Actor I N → WorkflowStepId → Executed I N → Actor I N
  executed s id e = record s {
    step_inputs = e.inputs;
    step_outputs = e.outputs;
    steps_by_definition_id =
        insert id (record { step_instance = some e.step_instance; status = e.status })
          s.steps_by_definition_id;
  }

  unfoldable pub execute_instance : Env I N → Actor I N → WorkflowStepId → Option I → Actor I N
  execute_instance env s id none = s
  execute_instance env s id (some i) =
      let e = env.execute i id s.step_inputs s.step_outputs in
      after_execute (executed s id e) id e.status

  unfoldable pub execute_tracked :
      Env I N → Actor I N → WorkflowStepId → Option (TrackedWorkflowStep I) → Actor I N
  execute_tracked env s id none = s
  execute_tracked env s id (some step) = execute_instance env s id step.step_instance

  unfoldable pub execute_step : Env I N → Actor I N → WorkflowStepId → Actor I N
  execute_step env s id =
      if is_running s.status
      then execute_tracked env s id (lookup id s.steps_by_definition_id)
      else s

  abbrev pub prepared : Actor I N → Option N → Bool → Actor I N
  prepared s future_result preserve = record s {
    step_inputs = inputs_with future_result (if preserve then s.step_inputs else no_inputs);
    step_outputs = no_outputs;
  }

  -- An active step is run with all active steps behind it, any other alone.
  unfoldable pub run_from_index : Env I N → Actor I N → WorkflowStepId → Option ℕ → Actor I N
  run_from_index env s id (some start) = fold_left (execute_step env) s (drop start s.active_steps)
  run_from_index env s id none = execute_step env s id

  -- `execute_steps` with `perform_pending_check` false.
  unfoldable pub run_steps : Env I N → Actor I N → WorkflowStepId → Option N → Bool → Actor I N
  run_steps env s id future_result preserve =
      let t = prepared s future_result preserve in
      if is_running s.status then run_from_index env t id (get_active_step_index t id) else s
