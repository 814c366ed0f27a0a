-- ===== src/Workflows/Runner/Apply.antt =====
-- `apply_new_definition` and `execute_steps`.
use mmids_core.Common.{
  String, Bool, true, false, ◌&&◌, Option, some, List, [], ◌∷◌, ◌++◌, map, nat_beq, if◌then◌else◌,
  nat_eq, string_eq, length, is_empty, all_of, insert, contains_key, contains, to_set, Result, ok,
  err,
}
use mmids_core.Workflows.Definitions.{
  WorkflowStepId, WorkflowStepDefinition, WorkflowDefinition, get_id,
}
use mmids_core.Workflows.Steps.{StepStatus, Env, FactoryCreateError, create_step}
use mmids_core.Workflows.Runner.State.{
  Actor, running, failed_to_generate_instance, failed_to_generate, is_running, set_status_to_error,
}
use mmids_core.Workflows.Runner.Execute.{run_steps}
use mmids_core.Workflows.Runner.Swap.{check_pending}

-- The loop over the definition's steps: it comes to its end, or returns.
pub data Creation (I N : Type 0) : Type 0 where
  finished returned : Actor I N → Creation I N

module _ {I N : Type 0} where
  -- The new step, or the error that stops the workflow.
  unfoldable pub track :
      Actor I N
      → WorkflowStepId
      → Result (Result (I × StepStatus) String) FactoryCreateError
      → Creation I N
  track s id (err e) = returned (set_status_to_error s id (failed_to_generate_instance e))
  track s id (ok (err e)) = returned (set_status_to_error s id (failed_to_generate e))
  track s id (ok (ok (step, status))) = finished (record s {
    steps_by_definition_id =
        insert id (record { step_instance = some step; status = status }) s.steps_by_definition_id;
  })

  -- One round: the step becomes pending, and is created unless it exists.
  unfoldable pub add_pending : Env I N → Actor I N → WorkflowStepDefinition → Creation I N
  unfolding track
  add_pending env s d =
      let id = get_id env.hasher d in
      let t : Actor I N = record s {
        step_definitions = insert id d s.step_definitions;
        pending_steps = s.pending_steps ++ id ∷ [];
      } in
      if contains_key id s.steps_by_definition_id
      then finished t
      else track t id (create_step env.step_factory d)

  unfoldable pub add_all_pending : Env I N → Actor I N → List WorkflowStepDefinition → Creation I N
  add_all_pending env s [] = finished s
  add_all_pending env s (d ∷ ds) = elim (add_pending env s d) [
    | returned t ↦ returned t
    | finished t ↦ add_all_pending env t ds
  ]

  -- A workflow in error starts from nothing.
  unfoldable pub cleared : Actor I N → Actor I N
  cleared s =
      if is_running s.status
      then s
      else record s { active_steps = []; steps_by_definition_id = []; status = running }

  abbrev pub step_ids : Env I N → WorkflowDefinition → List WorkflowStepId
  step_ids env definition = map (get_id env.hasher) definition.steps

  -- The test for a definition that changes nothing.
  unfoldable pub is_unchanged : Env I N → Actor I N → WorkflowDefinition → Bool
  is_unchanged env s definition =
      let new_step_ids = to_set (step_ids env definition) in
      is_running s.status
      && is_empty s.pending_steps
      && nat_beq (length s.active_steps) (length new_step_ids)
      && all_of (contains new_step_ids) s.active_steps

  unfoldable pub after_creation : Env I N → Creation I N → Actor I N
  after_creation env (returned s) = s
  after_creation env (finished s) = check_pending env s true

  unfoldable pub apply_new_definition : Env I N → Actor I N → WorkflowDefinition → Actor I N
  apply_new_definition env s definition =
      let t = cleared s in
      let applied =
        after_creation env
          (add_all_pending env (record t { pending_steps = [] }) definition.steps) in
      if is_unchanged env s definition then s else applied

  -- `execute_steps`.
  unfoldable pub execute_steps :
      Env I N → Actor I N → WorkflowStepId → Option N → Bool → Bool → Actor I N
  execute_steps env s id future_result preserve perform_pending_check =
      let t = run_steps env s id future_result preserve in
      if is_running s.status
      then if perform_pending_check then check_pending env t false else t
      else s
