-- ===== src/Workflows/Runner/Updates.antt =====
-- What a new definition does to the lists of steps.
use mmids_core.Common.{
  All-contains, to_set-Distinct, all_of-All, String, ◌≡◌, refl, sym, ap, ◌∙◌, subst, ◌⊎◌, inl, inr,
  Bool, true, false, not, ◌&&◌, ◌||◌, Option, none, some, List, [], ◌∷◌, ◌++◌, map, append-nil,
  append_assoc, arith, if◌then◌else◌, Bool-cases, nat_eq, string_eq, length, is_empty, All, lookup,
  insert, contains_key, contains, to_set, contains-to_set, Distinct, length-le_of_contains, Result,
  ok, err,
}
use mmids_core.Workflows.Definitions.{
  WorkflowStepId, WorkflowStepDefinition, WorkflowDefinition, get_id,
}
use mmids_core.Workflows.Steps.{StepStatus, Env, FactoryCreateError, create_step}
use mmids_core.Workflows.Runner.State.{Actor, TrackedWorkflowStep, is_running, set_status_to_error}
use mmids_core.Workflows.Runner.Swap.{
  Scan, scanned, returned, scan_step, scan_pending, after_scan, check_pending,
}
use mmids_core.Workflows.Runner.Apply
use mmids_core.Workflows.Runner.Apply.{
  Creation, finished, track, add_pending, add_all_pending, cleared, is_unchanged, after_creation,
  apply_new_definition, execute_steps,
}
use mmids_core.Workflows.Runner.Invariant.Swap.{swap_pending_lists}
use mmids_core.Workflows.Runner.Apply.{step_ids}

module _ {I N : Type 0} where
  -- All ids are pending behind the old active steps, or all are active and none is pending.
  abbrev pub Listed : List WorkflowStepId → List WorkflowStepId → Actor I N → Type 0
  Listed old ids t =
      ((t.active_steps ≡ old) × (t.pending_steps ≡ ids))
      ⊎ ((t.active_steps ≡ ids) × (t.pending_steps ≡ []))

  -- What the loop over the pending steps returns from its middle has the lists of the actor.
  abbrev ReturnsSame : Actor I N → Scan I N → Type 0
  ReturnsSame s (scanned all) = Unit
  ReturnsSame s (returned t) =
      (t.active_steps ≡ s.active_steps) × (t.pending_steps ≡ s.pending_steps)

  scan_step-same :
      (s : Actor I N) (id : WorkflowStepId) (all : Bool) (o : Option (TrackedWorkflowStep I))
      → ReturnsSame s (scan_step s id all o)
  unfolding scan_step set_status_to_error
  scan_step-same s id all none = (refl, refl)
  scan_step-same s id all (some step) = by_status step.status
    where
      by_status :
          (status : StepStatus)
          → ReturnsSame s (
              scan_step s id all
                (some (record { step_instance = step.step_instance; status = status })))
      by_status StepStatus.created = tt
      by_status StepStatus.active = tt
      by_status (StepStatus.error message) = (refl, refl)
      by_status StepStatus.shutdown = (refl, refl)

  scan_pending-same :
      (s : Actor I N) (ids : List WorkflowStepId) (all : Bool)
      → ReturnsSame s (scan_pending s ids all)
  unfolding scan_pending
  scan_pending-same s [] all = tt
  scan_pending-same s (id ∷ ids) all =
      go (scan_step s id all (lookup id s.steps_by_definition_id))
        (scan_step-same s id all (lookup id s.steps_by_definition_id))
        (λ b. scan_pending-same s ids b)
    where
      go :
          (r : Scan I N)
          → ReturnsSame s r
          → ((b : Bool) → ReturnsSame s (scan_pending s ids b))
          → ReturnsSame s
              (elim r [ returned t ↦ returned t | scanned all' ↦ scan_pending s ids all' ])
      go (scanned b) h later = later b
      go (returned t) h later = h

  module _ (env : Env I N) where
    check_pending-Listed :
        (s : Actor I N) (swap_if_empty : Bool)
        → Listed s.active_steps s.pending_steps (check_pending env s swap_if_empty)
    unfolding check_pending after_scan
    check_pending-Listed s swap_if_empty =
        go (scan_pending s s.pending_steps true) (scan_pending-same s s.pending_steps true)
      where
        go :
            (r : Scan I N)
            → ReturnsSame s r
            → Listed s.active_steps s.pending_steps (after_scan env s swap_if_empty r)
        go (returned t) h = inl h
        go (scanned all) h =
            elim (Bool-cases (
              (not (is_empty s.pending_steps) && all)
              || (is_empty s.pending_steps && swap_if_empty))) [
                | inl q ↦ rw q (inr (swap_pending_lists env s))
                | inr q ↦ rw q (inl (refl, refl))
              ]

    -- What the loop over a definition's steps has added to the pending ones.
    abbrev Adds : Actor I N → List WorkflowStepId → Creation I N → Type 0
    Adds s ids (finished t) =
        (t.active_steps ≡ s.active_steps) × (t.pending_steps ≡ s.pending_steps ++ ids)
    Adds s ids (Apply.returned t) = is_running t.status ≡ false

    add_pending-Adds :
        (s : Actor I N) (d : WorkflowStepDefinition)
        → Adds s (get_id env.hasher d ∷ []) (add_pending env s d)
    unfolding add_pending track set_status_to_error
    add_pending-Adds s d =
        let id = get_id env.hasher d in
        elim (Bool-cases (contains_key id s.steps_by_definition_id)) [
          | inl q ↦ rw q (refl, refl)
          | inr q ↦ rw q (by_result (create_step env.step_factory d))
        ]
      where
        with_pending : Actor I N
        with_pending = record s {
          step_definitions = insert (get_id env.hasher d) d s.step_definitions;
          pending_steps = s.pending_steps ++ get_id env.hasher d ∷ [];
        }

        by_result :
            (r : Result (Result (I × StepStatus) String) FactoryCreateError)
            → Adds s (get_id env.hasher d ∷ []) (track with_pending (get_id env.hasher d) r)
        by_result (err e) = refl
        by_result (ok (err e)) = refl
        by_result (ok (ok (step, status))) = (refl, refl)

    add_all_pending-Adds :
        (ds : List WorkflowStepDefinition) (s : Actor I N)
        → Adds s (map (get_id env.hasher) ds) (add_all_pending env s ds)
    unfolding add_all_pending
    add_all_pending-Adds [] s = (refl, sym (append-nil s.pending_steps))
    add_all_pending-Adds (d ∷ ds) s =
        go (add_pending env s d) (add_pending-Adds s d) (λ t. add_all_pending-Adds ds t)
      where
        more :
            (c : Creation I N) (t : Actor I N)
            → t.active_steps ≡ s.active_steps
            → t.pending_steps ≡ s.pending_steps ++ get_id env.hasher d ∷ []
            → Adds t (map (get_id env.hasher) ds) c
            → Adds s (map (get_id env.hasher) (d ∷ ds)) c
        more (Apply.returned u) t p q h = h
        more (finished u) t p q h = (
          h.0 ∙ p,
          h.1
              ∙ ap (λ xs. xs ++ map (get_id env.hasher) ds) q
              ∙ append_assoc s.pending_steps (get_id env.hasher d ∷ [])
                  (map (get_id env.hasher) ds),
        )

        go :
            (c : Creation I N)
            → Adds s (get_id env.hasher d ∷ []) c
            → ((t : Actor I N) → Adds t (map (get_id env.hasher) ds) (add_all_pending env t ds))
            → Adds s (map (get_id env.hasher) (d ∷ ds)) (elim c [
              | Apply.returned t ↦ Apply.returned t
              | finished t ↦ add_all_pending env t ds
            ])
        go (finished t) h later = more (add_all_pending env t ds) t h.0 h.1 (later t)
        go (Apply.returned t) h later = h

    after_creation-Listed :
        (s : Actor I N) (ids : List WorkflowStepId) (c : Creation I N)
        → s.pending_steps ≡ []
        → Adds s ids c
        → is_running (after_creation env c).status ≡ true
        → Listed s.active_steps ids (after_creation env c)
    unfolding after_creation
    after_creation-Listed s ids (Apply.returned t) p h r = cc
    after_creation-Listed s ids (finished t) p h r =
        subst (λ xs. Listed s.active_steps xs (check_pending env t true))
          (h.1 ∙ ap (λ xs. xs ++ ids) p)
          (subst (λ xs. Listed xs t.pending_steps (check_pending env t true)) h.0
            (check_pending-Listed t true))

    -- A definition that changes something and leaves the workflow running: the ids of its steps are
    -- in their order the active steps and nothing is pending, or they are the pending steps behind
    -- the active steps that there were (none, if the workflow had failed).
    pub apply_new_definition-Listed :
        (s : Actor I N) (definition : WorkflowDefinition)
        → is_unchanged env s definition ≡ false
        → is_running (apply_new_definition env s definition).status ≡ true
        → Listed
            (if is_running s.status then s.active_steps else [])
            (step_ids env definition)
            (apply_new_definition env s definition)
    unfolding apply_new_definition cleared
    apply_new_definition-Listed s definition u = rw u (λ r.
        subst (λ xs. Listed xs (step_ids env definition) applied) cleared_active
          (after_creation-Listed emptied (step_ids env definition)
            (add_all_pending env emptied definition.steps) refl
            (add_all_pending-Adds definition.steps emptied) r))
      where
        emptied : Actor I N
        emptied = record (cleared s) { pending_steps = [] }

        applied : Actor I N
        applied = after_creation env (add_all_pending env emptied definition.steps)

        cleared_active :
            (cleared s).active_steps ≡ (if is_running s.status then s.active_steps else [])
        cleared_active = ground arith

    -- A running workflow with no pending step that is told to run the same steps, each once, in
    -- another order stays as it is, with its steps in the old order.
    pub reordered_ignored :
        (s : Actor I N) (definition : WorkflowDefinition)
        → is_running s.status ≡ true
        → s.pending_steps ≡ []
        → Distinct s.active_steps
        → Distinct (step_ids env definition)
        → ((k : WorkflowStepId) → contains s.active_steps k ≡ contains (step_ids env definition) k)
        → apply_new_definition env s definition ≡ s
    unfolding apply_new_definition is_unchanged
    reordered_ignored s definition r p d e h =
        let ids = step_ids env definition in
        let active = s.active_steps in
        let there : All (λ k. contains (to_set ids) k ≡ true) active =
          All-contains active (to_set ids) (λ k m. contains-to_set ids k ∙ sym (h k) ∙ m) in
        let back : All (λ k. contains active k ≡ true) (to_set ids) =
          All-contains (to_set ids) active (λ k m. h k ∙ sym (contains-to_set ids k) ∙ m) in
        let same : length active ≡ length (to_set ids) = omega (
          arith,
          length-le_of_contains active (to_set ids) d there,
          length-le_of_contains (to_set ids) active (to_set-Distinct ids) back,
        ) in
        rw (r, p, all_of-All (contains (to_set ids)) active there) (rw same (ground arith))
