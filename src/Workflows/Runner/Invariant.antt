-- ===== src/Workflows/Runner/Invariant.antt =====
-- The invariant of a workflow actor, and that running steps and swapping them keeps it.
pub mod Swap
pub mod Checks
pub mod Apply
pub mod Stop
pub mod Rounds
use mmids_core.Common.{
  ◌≡◌, ◌∙◌, inl, inr, Bool, true, false, Option, none, some, List, [], ◌∷◌, ◌++◌, Bool-cases,
  Option-cases, Eq, nat_eq, string_eq, drop, All, All-map, fold_left, lookup, contains_key,
}
use mmids_core.Workflows.Definitions.{WorkflowStepId}
use mmids_core.Workflows.Steps.{StepStatus, Env}
use mmids_core.Workflows.Runner.State.{Actor, Message, is_running, set_status_to_error}
use mmids_core.Workflows.Runner.Caches.{
  handle_executed_step_outputs, update_stream_details, update_media_cache_from_outputs,
}
use mmids_core.Workflows.Runner.Execute.{
  get_active_step_index, after_execute, executed, execute_instance, execute_tracked, execute_step,
  run_from_index, run_steps, prepared,
}
use mmids_core.Workflows.Runner.Frame.{instance_at, drop_all_lem, Keeps}

module _ {I N : Type 0} where
  -- The steps that the workflow lists, active ones first.
  abbrev pub listed : Actor I N → List WorkflowStepId
  listed s = s.active_steps ++ s.pending_steps

  abbrev pub HasNoInstance : Actor I N → WorkflowStepId → Type 0
  HasNoInstance s k = instance_at s.steps_by_definition_id k ≡ none

  abbrev pub IsDefined : Actor I N → WorkflowStepId → Type 0
  IsDefined s k = contains_key k s.step_definitions ≡ true

  abbrev pub IsTracked : Actor I N → WorkflowStepId → Type 0
  IsTracked s k = contains_key k s.steps_by_definition_id ≡ true

  -- A workflow in error has no step object left that it could run.
  abbrev pub IsQuiet : Actor I N → Type 0
  IsQuiet s = is_running s.status ≡ false → All (HasNoInstance s) (listed s)

  -- What holds between two rounds: a workflow in error has dropped its steps; every listed step has
  -- its definition, and in a running workflow it has been created.
  pub record Inv (s : Actor I N) : Type 0 where
    pub quiet : is_running s.status ≡ false → All (HasNoInstance s) (listed s)
    pub defined : All (IsDefined s) (listed s)
    pub tracked : is_running s.status ≡ true → All (IsTracked s) (listed s)

  pub set_status_to_error-IsQuiet :
      (s : Actor I N) (id : WorkflowStepId) (m : Message) → IsQuiet (set_status_to_error s id m)
  unfolding set_status_to_error
  set_status_to_error-IsQuiet s id m h = drop_all_lem (listed s) s.steps_by_definition_id

  after_execute-IsQuiet :
      (s : Actor I N) (id : WorkflowStepId) (status : StepStatus)
      → is_running s.status ≡ true
      → IsQuiet (after_execute s id status)
  unfolding after_execute handle_executed_step_outputs update_stream_details
      update_media_cache_from_outputs
  after_execute-IsQuiet s id (StepStatus.error m) r h = set_status_to_error-IsQuiet s id _ h
  after_execute-IsQuiet s id StepStatus.created r h = cc
  after_execute-IsQuiet s id StepStatus.active r h = cc
  after_execute-IsQuiet s id StepStatus.shutdown r h = cc

  module _ (env : Env I N) where
    instance-IsQuiet :
        (s : Actor I N) (id : WorkflowStepId) (o : Option I)
        → is_running s.status ≡ true
        → IsQuiet (execute_instance env s id o)
    unfolding execute_instance executed
    instance-IsQuiet s id none r h = cc
    instance-IsQuiet s id (some i) r h =
        let e = env.execute i id s.step_inputs s.step_outputs in
        after_execute-IsQuiet (executed s id e) id e.status r h

    execute_step-IsQuiet :
        (s : Actor I N) (id : WorkflowStepId) → IsQuiet s → IsQuiet (execute_step env s id)
    unfolding execute_step execute_tracked
    execute_step-IsQuiet s id q = elim (Bool-cases (is_running s.status)) [
      | inl r ↦ rw r (elim (Option-cases (lookup id s.steps_by_definition_id)) [
        | inl e ↦ rw (e, execute_tracked) q
        | inr (step, e) ↦ rw (e, execute_tracked) (instance-IsQuiet s id step.step_instance r)
      ])
      | inr r ↦ rw r q
    ]

    execute_all-IsQuiet :
        (ids : List WorkflowStepId) (s : Actor I N)
        → IsQuiet s
        → IsQuiet (fold_left (execute_step env) s ids)
    execute_all-IsQuiet [] s q = q
    execute_all-IsQuiet (id ∷ ids) s q =
        execute_all-IsQuiet ids (execute_step env s id) (execute_step-IsQuiet s id q)

    pub run_steps-IsQuiet :
        (s : Actor I N) (id : WorkflowStepId) (future_result : Option N) (preserve : Bool)
        → IsQuiet s
        → IsQuiet (run_steps env s id future_result preserve)
    unfolding run_steps run_from_index
    run_steps-IsQuiet s id future_result preserve q = elim (Bool-cases (is_running s.status)) [
      | inl r ↦ rw r (
          let t = prepared s future_result preserve in
          elim (Option-cases (get_active_step_index t id)) [
            | inl e ↦ rw (e, run_from_index) (execute_step-IsQuiet t id q)
            | inr (start, e) ↦
                rw (e, run_from_index) (execute_all-IsQuiet (drop start t.active_steps) t q)
          ])
      | inr r ↦ rw r q
    ]

  -- Running steps keeps what is known of the listed ones.
  pub Keeps-Inv : (s t : Actor I N) → Keeps s t → IsQuiet t → Inv s → Inv t
  Keeps-Inv s t k q v = record {
    quiet = q;
    defined = rw (k.active, k.pending, k.definitions) v.defined;
    tracked = λ r.
        rw (k.active, k.pending)
          (All-map (λ a h. k.tracked a ∙ h) (listed s) (v.tracked (k.stops r)));
  }
