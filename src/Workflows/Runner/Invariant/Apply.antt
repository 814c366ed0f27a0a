-- ===== src/Workflows/Runner/Invariant/Apply.antt =====
-- `apply_new_definition` keeps the invariant.
use mmids_core.Common.{
  String, ◌≡◌, refl, ◌∙◌, inl, inr, true, some, List, [], ◌∷◌, ◌++◌, append-nil, append_assoc,
  arith, Bool-cases, nat_eq, string_eq, All, All-append, All-append_left, All-map, Map, insert,
  contains_key, lookup-insert_self, contains_key-insert, Result, ok, err,
}
use mmids_core.Workflows.Definitions.{
  WorkflowStepId, WorkflowStepDefinition, WorkflowDefinition, get_id,
}
use mmids_core.Workflows.Steps.{StepStatus, Env, FactoryCreateError, create_step}
use mmids_core.Workflows.Runner.State.{Actor, TrackedWorkflowStep, is_running}
use mmids_core.Workflows.Runner.Apply
use mmids_core.Workflows.Runner.Apply.{
  Creation, finished, track, add_pending, add_all_pending, cleared, is_unchanged, after_creation,
  apply_new_definition, execute_steps,
}
use mmids_core.Workflows.Runner.Invariant.{listed, IsDefined, IsTracked, Inv}
use mmids_core.Workflows.Runner.Invariant.Checks.{error-Inv, check_pending-Inv}

module _ {I N : Type 0} (env : Env I N) where
  -- What the loop over a definition's steps ends with.
  abbrev CreatesInv : Creation I N → Type 0
  CreatesInv (finished t) = (is_running t.status ≡ true) × Inv t
  CreatesInv (Apply.returned t) = Inv t

  -- With one more pending step, that has a definition.
  abbrev with_pending : Actor I N → WorkflowStepId → WorkflowStepDefinition → Actor I N
  with_pending s id d = record s {
    step_definitions = insert id d s.step_definitions;
    pending_steps = s.pending_steps ++ id ∷ [];
  }

  listed_more :
      (P : WorkflowStepId → Type 0) (s : Actor I N) (id : WorkflowStepId)
      → All P (listed s)
      → P id
      → All P (s.active_steps ++ (s.pending_steps ++ id ∷ []))
  listed_more P s id h p =
      rw (← append_assoc s.active_steps s.pending_steps (id ∷ []))
        (All-append P (listed s) (id ∷ []) h (p, tt))

  known-insert :
      {V : Type 0} (id k : WorkflowStepId) (x : V) (m : Map WorkflowStepId V)
      → contains_key k m ≡ true
      → contains_key k (insert id x m) ≡ true
  known-insert id k x m h = contains_key-insert id k x m ∙ (rw h (ground arith))

  with_pending-IsDefined :
      (s : Actor I N) (id : WorkflowStepId) (d : WorkflowStepDefinition)
      → Inv s
      → All (IsDefined (with_pending s id d)) (listed (with_pending s id d))
  with_pending-IsDefined s id d v =
      listed_more (IsDefined (with_pending s id d)) s id
        (All-map (λ k h. known-insert id k d s.step_definitions h) (listed s) v.defined)
        (rw (lookup-insert_self id d s.step_definitions))

  track-Inv :
      (s : Actor I N) (id : WorkflowStepId) (d : WorkflowStepDefinition)
      (r : Result (Result (I × StepStatus) String) FactoryCreateError)
      → is_running s.status ≡ true
      → Inv s
      → CreatesInv (track (with_pending s id d) id r)
  unfolding track
  track-Inv s id d (err e) run v =
      error-Inv (with_pending s id d) id _ (with_pending-IsDefined s id d v)
  track-Inv s id d (ok (err e)) run v =
      error-Inv (with_pending s id d) id _ (with_pending-IsDefined s id d v)
  track-Inv s id d (ok (ok (step, status))) run v = (
    run,
    record {
      quiet = λ r. cc;
      defined = with_pending-IsDefined s id d v;
      tracked = λ r.
          listed_more (λ k. contains_key k (insert id new_step s.steps_by_definition_id) ≡ true) s
            id
            (All-map (λ k h. known-insert id k new_step s.steps_by_definition_id h) (listed s)
              (v.tracked run))
            (rw (lookup-insert_self id new_step s.steps_by_definition_id));
    },
  )
    where
      new_step : TrackedWorkflowStep I
      new_step = record { step_instance = some step; status = status }

  add_pending-Inv :
      (s : Actor I N) (d : WorkflowStepDefinition)
      → is_running s.status ≡ true
      → Inv s
      → CreatesInv (add_pending env s d)
  unfolding add_pending
  add_pending-Inv s d run v =
      let id = get_id env.hasher d in
      elim (Bool-cases (contains_key id s.steps_by_definition_id)) [
        | inl q ↦ rw q (
          run,
          record {
            quiet = λ r. cc;
            defined = with_pending-IsDefined s id d v;
            tracked = λ r. listed_more (IsTracked s) s id (v.tracked run) q;
          },
        )
        | inr q ↦ rw q (track-Inv s id d (create_step env.step_factory d) run v)
      ]

  add_all_pending-Inv :
      (ds : List WorkflowStepDefinition) (s : Actor I N)
      → is_running s.status ≡ true
      → Inv s
      → CreatesInv (add_all_pending env s ds)
  unfolding add_all_pending
  add_all_pending-Inv [] s run v = (run, v)
  add_all_pending-Inv (d ∷ ds) s run v =
      go (add_pending env s d) (add_pending-Inv s d run v) (λ t r w. add_all_pending-Inv ds t r w)
    where
      go :
          (c : Creation I N)
          → CreatesInv c
          → ((t : Actor I N)
              → is_running t.status ≡ true
              → Inv t
              → CreatesInv (add_all_pending env t ds))
          → CreatesInv (elim c [
            | Apply.returned t ↦ Apply.returned t
            | finished t ↦ add_all_pending env t ds
          ])
      go (finished t) h later = later t h.0 h.1
      go (Apply.returned t) h later = h

  after_creation-Inv : (c : Creation I N) → CreatesInv c → Inv (after_creation env c)
  unfolding after_creation
  after_creation-Inv (Apply.returned t) h = h
  after_creation-Inv (finished t) h = check_pending-Inv env t true h.1

  -- A workflow in error begins anew; in both cases no step is pending.
  abbrev emptied : Actor I N → Actor I N
  emptied s = record (cleared s) { pending_steps = [] }

  emptied-Inv : (s : Actor I N) → Inv s → (is_running (emptied s).status ≡ true) × Inv (emptied s)
  unfolding cleared
  emptied-Inv s v = elim (Bool-cases (is_running s.status)) [
    | inl r ↦ rw r (
      r,
      record {
        quiet = λ h. cc;
        defined =
            rw (append-nil s.active_steps)
              (All-append_left (IsDefined s) s.active_steps s.pending_steps v.defined);
        tracked = λ h.
            rw (append-nil s.active_steps)
              (All-append_left (IsTracked s) s.active_steps s.pending_steps (v.tracked r));
      },
    )
    | inr r ↦ rw r (refl, record { quiet = λ h. tt; defined = tt; tracked = λ h. tt })
  ]

  pub apply_new_definition-Inv :
      (s : Actor I N) (definition : WorkflowDefinition)
      → Inv s
      → Inv (apply_new_definition env s definition)
  unfolding apply_new_definition
  apply_new_definition-Inv s definition v =
      let e = emptied-Inv s v in
      let w =
        after_creation-Inv (add_all_pending env (emptied s) definition.steps)
          (add_all_pending-Inv definition.steps (emptied s) e.0 e.1) in
      elim (Bool-cases (is_unchanged env s definition)) [ inl q ↦ rw q v | inr q ↦ rw q w ]
