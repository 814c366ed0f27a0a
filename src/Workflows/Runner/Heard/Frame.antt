-- ===== src/Workflows/Runner/Heard/Frame.antt =====
-- What of a round leaves the remembered media alone.
use mmids_core.Common.{
  String, ◌≡◌, refl, ◌∙◌, inl, inr, Bool, true, false, not, ◌&&◌, ◌||◌, Option, none, some, List,
  [], ◌∷◌, ◌++◌, Bool-cases, nat_eq, string_eq, is_empty, lookup, insert, contains_key, Result, ok,
  err,
}
use mmids_core.Workflows.Definitions.{
  WorkflowStepId, WorkflowStepDefinition, WorkflowDefinition, get_id,
}
use mmids_core.Workflows.Steps.{StepStatus, Env, FactoryCreateError, create_step}
use mmids_core.Workflows.Runner.State.{Actor, TrackedWorkflowStep, is_running, set_status_to_error}
use mmids_core.Workflows.Runner.Execute.{run_steps}
use mmids_core.Workflows.Runner.Swap.{
  Scan, scanned, returned, scan_step, scan_pending, swap_pending, after_scan, check_pending,
}
use mmids_core.Workflows.Runner.Apply
use mmids_core.Workflows.Runner.Apply.{
  Creation, finished, track, add_pending, add_all_pending, cleared, is_unchanged, after_creation,
  apply_new_definition, execute_steps,
}
use mmids_core.Workflows.Runner.Frame.{run_steps-Keeps}
use mmids_core.Workflows.Runner.Invariant.Swap.{before_swap-KeepsPending}
use mmids_core.Workflows.Runner.Apply.{step_ids}

module _ {I N : Type 0} (env : Env I N) where
  -- Whether the actors remember the same of the received media.
  abbrev pub Same : Actor I N → Actor I N → Type 0
  Same s t = t.cached_inbound_media ≡ s.cached_inbound_media

  abbrev ReturnsRemembering : Actor I N → Scan I N → Type 0
  ReturnsRemembering s (scanned all) = Unit
  ReturnsRemembering s (returned t) = Same s t

  scan_step-Same :
      (s : Actor I N) (id : WorkflowStepId) (all : Bool) (o : Option (TrackedWorkflowStep I))
      → ReturnsRemembering s (scan_step s id all o)
  unfolding scan_step set_status_to_error
  scan_step-Same s id all none = refl
  scan_step-Same s id all (some step) = by_status step.status
    where
      by_status :
          (status : StepStatus)
          → ReturnsRemembering s (
              scan_step s id all
                (some (record { step_instance = step.step_instance; status = status })))
      by_status StepStatus.created = tt
      by_status StepStatus.active = tt
      by_status (StepStatus.error message) = refl
      by_status StepStatus.shutdown = refl

  scan_pending-Same :
      (s : Actor I N) (ids : List WorkflowStepId) (all : Bool)
      → ReturnsRemembering s (scan_pending s ids all)
  unfolding scan_pending
  scan_pending-Same s [] all = tt
  scan_pending-Same s (id ∷ ids) all =
      go (scan_step s id all (lookup id s.steps_by_definition_id))
        (scan_step-Same s id all (lookup id s.steps_by_definition_id))
        (λ b. scan_pending-Same s ids b)
    where
      go :
          (r : Scan I N)
          → ReturnsRemembering s r
          → ((b : Bool) → ReturnsRemembering s (scan_pending s ids b))
          → ReturnsRemembering s
              (elim r [ returned t ↦ returned t | scanned all' ↦ scan_pending s ids all' ])
      go (scanned b) h rest = rest b
      go (returned t) h rest = h

  swap_pending-Same : (s : Actor I N) → Same s (swap_pending env s)
  unfolding swap_pending
  swap_pending-Same s = (before_swap-KeepsPending env s).inbound

  check_pending-Same : (s : Actor I N) (b : Bool) → Same s (check_pending env s b)
  unfolding check_pending after_scan
  check_pending-Same s b =
      go (scan_pending s s.pending_steps true) (scan_pending-Same s s.pending_steps true)
    where
      go : (r : Scan I N) → ReturnsRemembering s r → Same s (after_scan env s b r)
      go (returned t) h = h
      go (scanned all) h =
          elim (Bool-cases
            ((not (is_empty s.pending_steps) && all) || (is_empty s.pending_steps && b))) [
              | inl q ↦ rw q (swap_pending-Same s)
              | inr q ↦ rw q
            ]

  pub execute_steps-Same :
      (s : Actor I N) (id : WorkflowStepId) (n : Option N) (preserve check : Bool)
      → Same s (execute_steps env s id n preserve check)
  unfolding execute_steps
  execute_steps-Same s id n preserve check =
      let t = run_steps env s id n preserve in
      let ran = (run_steps-Keeps env s id n preserve).inbound in
      elim (Bool-cases (is_running s.status)) [
        | inl r ↦ rw r (elim (Bool-cases check) [
          | inl c ↦ rw c (check_pending-Same t false ∙ ran)
          | inr c ↦ rw c ran
        ])
        | inr r ↦ rw r
      ]

  abbrev Created : Actor I N → Creation I N → Type 0
  Created s (finished t) = Same s t
  Created s (Apply.returned t) = Same s t

  add_pending-Same : (s : Actor I N) (d : WorkflowStepDefinition) → Created s (add_pending env s d)
  unfolding add_pending track set_status_to_error
  add_pending-Same s d =
      elim (Bool-cases (contains_key (get_id env.hasher d) s.steps_by_definition_id)) [
        | inl q ↦ rw q
        | inr q ↦ rw q (by_result (create_step env.step_factory d))
      ]
    where
      with_pending : Actor I N
      with_pending = record s {
        step_definitions = insert (get_id env.hasher d) d s.step_definitions;
        pending_steps = s.pending_steps ++ get_id env.hasher d ∷ [];
      }

      by_result :
          (r : Result (Result (I × StepStatus) String) FactoryCreateError)
          → Created s (track with_pending (get_id env.hasher d) r)
      by_result (err e) = refl
      by_result (ok (err e)) = refl
      by_result (ok (ok (step, status))) = refl

  add_all_pending-Same :
      (ds : List WorkflowStepDefinition) (s : Actor I N) → Created s (add_all_pending env s ds)
  unfolding add_all_pending
  add_all_pending-Same [] s = refl
  add_all_pending-Same (d ∷ ds) s =
      go (add_pending env s d) (add_pending-Same s d) (λ t. add_all_pending-Same ds t)
    where
      more : (t : Actor I N) (c : Creation I N) → Same s t → Created t c → Created s c
      more t (finished u) h k = k ∙ h
      more t (Apply.returned u) h k = k ∙ h

      go :
          (c : Creation I N)
          → Created s c
          → ((t : Actor I N) → Created t (add_all_pending env t ds))
          → Created s (elim c [
            | Apply.returned t ↦ Apply.returned t
            | finished t ↦ add_all_pending env t ds
          ])
      go (finished t) h rest = more t (add_all_pending env t ds) h (rest t)
      go (Apply.returned t) h rest = h

  cleared-Same : (s : Actor I N) → Same s (cleared s)
  unfolding cleared
  cleared-Same s = elim (Bool-cases (is_running s.status)) [ inl r ↦ rw r | inr r ↦ rw r ]

  pub apply_new_definition-Same :
      (s : Actor I N) (definition : WorkflowDefinition)
      → Same s (apply_new_definition env s definition)
  unfolding apply_new_definition after_creation
  apply_new_definition-Same s definition = elim (Bool-cases (is_unchanged env s definition)) [
    | inl q ↦ rw q
    | inr q ↦ rw q (
        created (add_all_pending env emptied definition.steps)
          (add_all_pending-Same definition.steps emptied)
        ∙ cleared-Same s)
  ]
    where
      emptied : Actor I N
      emptied = record (cleared s) { pending_steps = [] }

      created : (c : Creation I N) → Created emptied c → Same emptied (after_creation env c)
      created (finished t) h = check_pending-Same t true ∙ h
      created (Apply.returned t) h = h
