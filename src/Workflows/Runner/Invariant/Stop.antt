-- ===== src/Workflows/Runner/Invariant/Stop.antt =====
-- What stopping a workflow does to its steps.
use mmids_core.Common.{
  ◌≡◌, refl, ◌∙◌, inl, inr, none, List, [], ◌∷◌, arith, if◌then◌else◌, Bool-cases, Option-cases,
  ◌==◌, nat_eq, string_eq, ==_refl, ==_eq, All, All-append, All-map, fold_left, Map, lookup,
  contains_key, lookup-insert, contains_key-insert,
}
use mmids_core.Workflows.Definitions.{WorkflowStepId}
use mmids_core.Workflows.Steps.{StepStatus}
use mmids_core.Workflows.Runner.State.{Actor, TrackedWorkflowStep}
use mmids_core.Workflows.Runner.Loop.{is_error, shut_down, stopped}
use mmids_core.Workflows.Runner.Frame.{instance_at}
use mmids_core.Workflows.Runner.Invariant.{listed, HasNoInstance, Inv}

module _ {I : Type 0} where
  contains_key-shut_down :
      (steps : Map WorkflowStepId (TrackedWorkflowStep I)) (id k : WorkflowStepId)
      → contains_key k (shut_down steps id) ≡ contains_key k steps
  unfolding shut_down
  contains_key-shut_down steps id k = elim (Option-cases (lookup id steps)) [
    | inl e ↦ rw (e, shut_down)
    | inr (step, e) ↦
        rw (e, shut_down)
          (rw (contains_key-insert id k (down step) steps) (elim (Bool-cases (id == k)) [
            | inl q ↦ rw q (rw (← ==_eq id k q) (rw e))
            | inr q ↦ rw q
          ]))
  ]
    where
      down : TrackedWorkflowStep I → TrackedWorkflowStep I
      down step = record {
        step_instance = none;
        status = if is_error step.status then step.status else StepStatus.shutdown;
      }

  instance_at-shut_down :
      (steps : Map WorkflowStepId (TrackedWorkflowStep I)) (id k : WorkflowStepId)
      → instance_at (shut_down steps id) k ≡ (if id == k then none else instance_at steps k)
  unfolding shut_down
  instance_at-shut_down steps id k = elim (Option-cases (lookup id steps)) [
    | inl e ↦
        rw (e, shut_down)
          (elim (Bool-cases (id == k)) [ inl q ↦ rw q (rw (← ==_eq id k q) (rw e)) | inr q ↦ rw q ])
    | inr (step, e) ↦
        rw (e, shut_down)
          (rw (lookup-insert id k (down step) steps)
            (elim (Bool-cases (id == k)) [ inl q ↦ rw q | inr q ↦ rw q ]))
  ]
    where
      down : TrackedWorkflowStep I → TrackedWorkflowStep I
      down step = record {
        step_instance = none;
        status = if is_error step.status then step.status else StepStatus.shutdown;
      }

  contains_key-shut_down_all :
      (ids : List WorkflowStepId) (steps : Map WorkflowStepId (TrackedWorkflowStep I))
      (k : WorkflowStepId)
      → contains_key k (fold_left shut_down steps ids) ≡ contains_key k steps
  contains_key-shut_down_all [] steps k = refl
  contains_key-shut_down_all (id ∷ ids) steps k =
      contains_key-shut_down_all ids (shut_down steps id) k ∙ contains_key-shut_down steps id k

  stays_down :
      (ids : List WorkflowStepId) (steps : Map WorkflowStepId (TrackedWorkflowStep I))
      (k : WorkflowStepId)
      → instance_at steps k ≡ none
      → instance_at (fold_left shut_down steps ids) k ≡ none
  stays_down [] steps k h = h
  stays_down (id ∷ ids) steps k h =
      stays_down ids (shut_down steps id) k
        (rw (instance_at-shut_down steps id k) (rw h (ground arith)))

  shut_down_all_lem :
      (ids : List WorkflowStepId) (steps : Map WorkflowStepId (TrackedWorkflowStep I))
      → All (λ k. instance_at (fold_left shut_down steps ids) k ≡ none) ids
  shut_down_all_lem [] steps = tt
  shut_down_all_lem (id ∷ ids) steps = (
    stays_down ids (shut_down steps id) id
        (rw (instance_at-shut_down steps id id) (rw (==_refl id))),
    shut_down_all_lem ids (shut_down steps id),
  )

module _ {I N : Type 0} where
  -- A stopped workflow has no step object left under any of its listed ids.
  pub stopped_lem : (s : Actor I N) → All (HasNoInstance (stopped s)) (listed s)
  unfolding stopped
  stopped_lem s =
      All-append (HasNoInstance (stopped s)) s.active_steps s.pending_steps
        (All-map
          (λ k h.
            stays_down s.pending_steps (fold_left shut_down s.steps_by_definition_id s.active_steps)
              k h)
          s.active_steps (shut_down_all_lem s.active_steps s.steps_by_definition_id))
        (shut_down_all_lem s.pending_steps
          (fold_left shut_down s.steps_by_definition_id s.active_steps))

  pub stopped-Inv : (s : Actor I N) → Inv s → Inv (stopped s)
  unfolding stopped
  stopped-Inv s v = record {
    quiet = λ h. stopped_lem s;
    defined = v.defined;
    tracked = λ r.
        All-map
          (λ k h.
            contains_key-shut_down_all s.pending_steps
              (fold_left shut_down s.steps_by_definition_id s.active_steps) k
            ∙ contains_key-shut_down_all s.active_steps s.steps_by_definition_id k
            ∙ h)
          (listed s) (v.tracked r);
  }
