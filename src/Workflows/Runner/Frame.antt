-- ===== src/Workflows/Runner/Frame.antt =====
-- What running steps leaves alone, and what an error does to the steps.
use mmids_core.Common.{
  ℕ, ◌≡◌, refl, sym, ◌∙◌, inl, inr, Bool, true, Option, none, some, List, [], ◌∷◌, ◌++◌, arith,
  if◌then◌else◌, Bool-cases, Option-cases, ◌==◌, nat_eq, string_eq, ==_refl, ==_eq, drop, All,
  fold_left, Map, lookup, contains_key, lookup-insert, contains_key-insert,
}
use mmids_core.Workflows.Definitions.{WorkflowStepId}
use mmids_core.Workflows.Steps.{StepStatus, Env, Executed}
use mmids_core.Workflows.Runner.State.{
  Actor, TrackedWorkflowStep, Message, is_running, drop_instance, set_status_to_error,
}
use mmids_core.Workflows.Runner.Caches.{
  handle_executed_step_outputs, update_stream_details, update_media_cache_from_outputs,
}
use mmids_core.Workflows.Runner.Execute.{
  get_active_step_index, after_execute, executed, execute_instance, execute_tracked, execute_step,
  run_from_index, run_steps, prepared,
}

module _ {I : Type 0} where
  abbrev pub instance_of : Option (TrackedWorkflowStep I) → Option I
  instance_of none = none
  instance_of (some step) = step.step_instance

  -- The step object that an id has, if any.
  abbrev pub instance_at : Map WorkflowStepId (TrackedWorkflowStep I) → WorkflowStepId → Option I
  instance_at steps id = instance_of (lookup id steps)

  contains_key-drop_instance :
      (steps : Map WorkflowStepId (TrackedWorkflowStep I)) (id k : WorkflowStepId)
      → contains_key k (drop_instance steps id) ≡ contains_key k steps
  unfolding drop_instance
  contains_key-drop_instance steps id k = elim (Option-cases (lookup id steps)) [
    | inl e ↦ rw (e, drop_instance)
    | inr (step, e) ↦
        rw (e, drop_instance)
          (rw (contains_key-insert id k (record step { step_instance = none }) steps)
            (elim (Bool-cases (id == k)) [
              | inl q ↦ rw q (rw (← ==_eq id k q) (rw e))
              | inr q ↦ rw q
            ]))
  ]

  instance_at-drop_instance :
      (steps : Map WorkflowStepId (TrackedWorkflowStep I)) (id k : WorkflowStepId)
      → instance_at (drop_instance steps id) k ≡ (if id == k then none else instance_at steps k)
  unfolding drop_instance
  instance_at-drop_instance steps id k = elim (Option-cases (lookup id steps)) [
    | inl e ↦
        rw (e, drop_instance)
          (elim (Bool-cases (id == k)) [ inl q ↦ rw q (rw (← ==_eq id k q) (rw e)) | inr q ↦ rw q ])
    | inr (step, e) ↦
        rw (e, drop_instance)
          (rw (lookup-insert id k (record step { step_instance = none }) steps)
            (elim (Bool-cases (id == k)) [ inl q ↦ rw q | inr q ↦ rw q ]))
  ]

  contains_key-drop_all :
      (ids : List WorkflowStepId) (steps : Map WorkflowStepId (TrackedWorkflowStep I))
      (k : WorkflowStepId)
      → contains_key k (fold_left drop_instance steps ids) ≡ contains_key k steps
  contains_key-drop_all [] steps k = refl
  contains_key-drop_all (id ∷ ids) steps k =
      contains_key-drop_all ids (drop_instance steps id) k ∙ contains_key-drop_instance steps id k

  dropped_stays :
      (ids : List WorkflowStepId) (steps : Map WorkflowStepId (TrackedWorkflowStep I))
      (k : WorkflowStepId)
      → instance_at steps k ≡ none
      → instance_at (fold_left drop_instance steps ids) k ≡ none
  dropped_stays [] steps k h = h
  dropped_stays (id ∷ ids) steps k h =
      dropped_stays ids (drop_instance steps id) k
        (rw (instance_at-drop_instance steps id k) (rw h (ground arith)))

  -- After the drop no id of the list has a step object.
  pub drop_all_lem :
      (ids : List WorkflowStepId) (steps : Map WorkflowStepId (TrackedWorkflowStep I))
      → All (λ k. instance_at (fold_left drop_instance steps ids) k ≡ none) ids
  drop_all_lem [] steps = tt
  drop_all_lem (id ∷ ids) steps = (
    dropped_stays ids (drop_instance steps id) id
        (rw (instance_at-drop_instance steps id id) (rw (==_refl id))),
    drop_all_lem ids (drop_instance steps id),
  )

module _ {I N : Type 0} where
  -- Two actors with the same lists of steps, the same definitions and inbound cache, and step objects
  -- or their absence under the same ids.
  pub record Keeps (s t : Actor I N) : Type 0 where
    pub active : t.active_steps ≡ s.active_steps
    pub pending : t.pending_steps ≡ s.pending_steps
    pub definitions : t.step_definitions ≡ s.step_definitions
    pub stops : is_running t.status ≡ true → is_running s.status ≡ true
    pub inbound : t.cached_inbound_media ≡ s.cached_inbound_media
    pub tracked :
        (k : WorkflowStepId)
        → contains_key k t.steps_by_definition_id ≡ contains_key k s.steps_by_definition_id

  pub Keeps-refl : (s : Actor I N) → Keeps s s
  Keeps-refl s = record {
    active = refl;
    pending = refl;
    definitions = refl;
    stops = λ h. h;
    inbound = refl;
    tracked = λ k. refl;
  }

  pub Keeps-trans : {s t u : Actor I N} → Keeps s t → Keeps t u → Keeps s u
  Keeps-trans h g = record {
    active = g.active ∙ h.active;
    pending = g.pending ∙ h.pending;
    definitions = g.definitions ∙ h.definitions;
    stops = λ r. h.stops (g.stops r);
    inbound = g.inbound ∙ h.inbound;
    tracked = λ k. g.tracked k ∙ h.tracked k;
  }

  pub set_status_to_error-Keeps :
      (s : Actor I N) (id : WorkflowStepId) (m : Message) → Keeps s (set_status_to_error s id m)
  unfolding set_status_to_error
  set_status_to_error-Keeps s id m = record {
    active = refl;
    pending = refl;
    definitions = refl;
    stops = λ h. cc;
    inbound = refl;
    tracked = contains_key-drop_all (s.active_steps ++ s.pending_steps) s.steps_by_definition_id;
  }

  pub outputs-Keeps :
      (s : Actor I N) (id : WorkflowStepId) → Keeps s (handle_executed_step_outputs s id)
  unfolding handle_executed_step_outputs update_stream_details update_media_cache_from_outputs
  outputs-Keeps s id = record {
    active = refl;
    pending = refl;
    definitions = refl;
    stops = λ h. h;
    inbound = refl;
    tracked = λ k. refl;
  }

  executed-Keeps :
      (s : Actor I N) (id : WorkflowStepId) (e : Executed I N)
      → contains_key id s.steps_by_definition_id ≡ true
      → Keeps s (executed s id e)
  unfolding executed
  executed-Keeps s id e h = record {
    active = refl;
    pending = refl;
    definitions = refl;
    stops = λ h. h;
    inbound = refl;
    tracked = λ k.
        contains_key-insert id k
          (record { step_instance = some e.step_instance; status = e.status })
          s.steps_by_definition_id
        ∙ elim (Bool-cases (id == k)) [ inl q ↦ rw q (rw (← ==_eq id k q) (sym h)) | inr q ↦ rw q ];
  }

  after_execute-Keeps :
      (s : Actor I N) (id : WorkflowStepId) (status : StepStatus)
      → Keeps s (after_execute s id status)
  unfolding after_execute
  after_execute-Keeps s id (StepStatus.error m) = set_status_to_error-Keeps s id _
  after_execute-Keeps s id StepStatus.created = outputs-Keeps s id
  after_execute-Keeps s id StepStatus.active = outputs-Keeps s id
  after_execute-Keeps s id StepStatus.shutdown = outputs-Keeps s id

  module _ (env : Env I N) where
    instance-Keeps :
        (s : Actor I N) (id : WorkflowStepId) (o : Option I)
        → contains_key id s.steps_by_definition_id ≡ true
        → Keeps s (execute_instance env s id o)
    unfolding execute_instance
    instance-Keeps s id none h = Keeps-refl s
    instance-Keeps s id (some i) h =
        let e = env.execute i id s.step_inputs s.step_outputs in
        Keeps-trans (executed-Keeps s id e h) (after_execute-Keeps (executed s id e) id e.status)

    pub execute_step-Keeps : (s : Actor I N) (id : WorkflowStepId) → Keeps s (execute_step env s id)
    unfolding execute_step execute_tracked
    execute_step-Keeps s id = elim (Bool-cases (is_running s.status)) [
      | inl r ↦ rw r (elim (Option-cases (lookup id s.steps_by_definition_id)) [
        | inl e ↦ rw (e, execute_tracked) (Keeps-refl s)
        | inr (step, e) ↦ rw (e, execute_tracked) (instance-Keeps s id step.step_instance (rw e))
      ])
      | inr r ↦ rw r (Keeps-refl s)
    ]

    pub execute_all-Keeps :
        (ids : List WorkflowStepId) (s : Actor I N) → Keeps s (fold_left (execute_step env) s ids)
    execute_all-Keeps [] s = Keeps-refl s
    execute_all-Keeps (id ∷ ids) s =
        Keeps-trans (execute_step-Keeps s id) (execute_all-Keeps ids (execute_step env s id))

    pub run_from_index-Keeps :
        (s : Actor I N) (id : WorkflowStepId) (o : Option ℕ) → Keeps s (run_from_index env s id o)
    unfolding run_from_index
    run_from_index-Keeps s id none = execute_step-Keeps s id
    run_from_index-Keeps s id (some start) = execute_all-Keeps (drop start s.active_steps) s

    prepared-Keeps :
        (s : Actor I N) (future_result : Option N) (preserve : Bool)
        → Keeps s (prepared s future_result preserve)
    prepared-Keeps s future_result preserve = record {
      active = refl;
      pending = refl;
      definitions = refl;
      stops = λ h. h;
      inbound = refl;
      tracked = λ k. refl;
    }

    pub run_steps-Keeps :
        (s : Actor I N) (id : WorkflowStepId) (future_result : Option N) (preserve : Bool)
        → Keeps s (run_steps env s id future_result preserve)
    unfolding run_steps
    run_steps-Keeps s id future_result preserve = elim (Bool-cases (is_running s.status)) [
      | inl r ↦ rw r (
          let t = prepared s future_result preserve in
          Keeps-trans (prepared-Keeps s future_result preserve)
            (run_from_index-Keeps t id (get_active_step_index t id)))
      | inr r ↦ rw r (Keeps-refl s)
    ]
