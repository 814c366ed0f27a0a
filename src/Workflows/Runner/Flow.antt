-- ===== src/Workflows/Runner/Flow.antt =====
-- What becomes of media that a workflow receives: it goes through the active steps in their order.
use mmids_core.Common.{
  ◌≡◌, refl, sym, ap, ◌∙◌, subst, true, false, some, List, [], ◌∷◌, nat_eq, string_eq, ==_refl,
  fold_left, Map, lookup, insert,
}
use mmids_core.Workflows.Media.{MediaNotification}
use mmids_core.Workflows.Definitions.{WorkflowStepId}
use mmids_core.Workflows.Steps.{StepStatus, StepInputs, Env, Executed, no_outputs}
use mmids_core.Workflows.Runner.State.{Actor, TrackedWorkflowStep, is_running}
use mmids_core.Workflows.Runner.Caches.{
  update_inbound_media_cache, handle_executed_step_outputs, update_stream_details,
  update_media_cache_from_outputs,
}
use mmids_core.Workflows.Runner.Execute.{
  index_of, get_active_step_index, after_execute, executed, execute_instance, execute_tracked,
  execute_step, run_from_index, run_steps,
}
use mmids_core.Workflows.Runner.Swap.{scan_pending, after_scan, check_pending}
use mmids_core.Workflows.Runner.Apply.{execute_steps}
use mmids_core.Workflows.Runner.Loop.{is_error, start_with, receive_media}

-- Inputs with media and no notifications.
abbrev pub media_only : {N : Type 0} → List MediaNotification → StepInputs N
media_only ms = record { media = ms; notifications = [] }

module _ {I N : Type 0} where
  -- The step with what its `execute` has left.
  abbrev pub kept : Executed I N → TrackedWorkflowStep I
  kept e = record { step_instance = some e.step_instance; status = e.status }

  module _ (env : Env I N) where
    -- Media goes through steps, one after the other: each has its step object, is executed with the
    -- media that the one before put out and with nothing else, and does not end in an error.
    pub data Flows
        : List WorkflowStepId
          → Map WorkflowStepId (TrackedWorkflowStep I)
          → List MediaNotification
          → List MediaNotification
          → Map WorkflowStepId (TrackedWorkflowStep I)
          → Type 0 where
      at_end :
          {steps : Map WorkflowStepId (TrackedWorkflowStep I)} {ms : List MediaNotification}
          → Flows [] steps ms ms steps
      through :
          {id : WorkflowStepId} {ids : List WorkflowStepId}
          {steps after : Map WorkflowStepId (TrackedWorkflowStep I)}
          {ms out : List MediaNotification} (i : I) (status : StepStatus)
          → lookup id steps ≡ some (record { step_instance = some i; status = status })
          → is_error (env.execute i id (media_only ms) no_outputs).status ≡ false
          → Flows ids
              (insert id (kept (env.execute i id (media_only ms) no_outputs)) steps)
              (env.execute i id (media_only ms) no_outputs).outputs.media
              out
              after
          → Flows (id ∷ ids) steps ms out after

    -- A running workflow that is about to run a step on the media.
    pub record Ready (s : Actor I N) (steps : Map WorkflowStepId (TrackedWorkflowStep I))
        (ms : List MediaNotification) : Type 0 where
      pub runs : is_running s.status ≡ true
      pub inputs : s.step_inputs ≡ media_only ms
      pub outputs : s.step_outputs ≡ no_outputs
      pub tracked : s.steps_by_definition_id ≡ steps
      pub nothing_pending : s.pending_steps ≡ []

    -- What such a workflow comes to.
    pub record StartedAs (s : Actor I N) (steps : Map WorkflowStepId (TrackedWorkflowStep I))
        (ms : List MediaNotification) : Type 0 where
      pub runs : is_running s.status ≡ true
      pub inputs : s.step_inputs ≡ media_only ms
      pub tracked : s.steps_by_definition_id ≡ steps

    after_execute-Ready :
        (s : Actor I N) (id : WorkflowStepId) (e : Executed I N)
        → is_running s.status ≡ true
        → s.pending_steps ≡ []
        → is_error e.status ≡ false
        → Ready
            (after_execute (executed s id e) id e.status)
            (insert id (kept e) s.steps_by_definition_id)
            e.outputs.media
    unfolding after_execute executed handle_executed_step_outputs update_stream_details
        update_media_cache_from_outputs
    after_execute-Ready s id e r p ok_status = by_status e.status ok_status
      where
        by_status :
            (status : StepStatus)
            → is_error status ≡ false
            → Ready
                (after_execute (executed s id e) id status)
                (insert id (kept e) s.steps_by_definition_id)
                e.outputs.media
        by_status StepStatus.created h = record {
          runs = r;
          inputs = refl;
          outputs = refl;
          tracked = refl;
          nothing_pending = p;
        }
        by_status StepStatus.active h = record {
          runs = r;
          inputs = refl;
          outputs = refl;
          tracked = refl;
          nothing_pending = p;
        }
        by_status StepStatus.shutdown h = record {
          runs = r;
          inputs = refl;
          outputs = refl;
          tracked = refl;
          nothing_pending = p;
        }
        by_status (StepStatus.error m) h = cc

    execute_step-Ready :
        (s : Actor I N) (id : WorkflowStepId) (steps : Map WorkflowStepId (TrackedWorkflowStep I))
        (ms : List MediaNotification) (i : I) (status : StepStatus)
        → Ready s steps ms
        → lookup id steps ≡ some (record { step_instance = some i; status = status })
        → is_error (env.execute i id (media_only ms) no_outputs).status ≡ false
        → Ready
            (execute_step env s id)
            (insert id (kept (env.execute i id (media_only ms) no_outputs)) steps)
            (env.execute i id (media_only ms) no_outputs).outputs.media
    unfolding execute_step execute_tracked execute_instance
    execute_step-Ready s id steps ms i status ready e h =
        subst (λ t. Ready t (insert id (kept given) steps) given.outputs.media)
          (ap (λ x. after_execute (executed s id x) id x.status) (sym same_input) ∙ sym executes)
          (subst
            (λ m.
              Ready (after_execute (executed s id given) id given.status) (insert id (kept given) m)
                given.outputs.media)
            ready.tracked (after_execute-Ready s id given ready.runs ready.nothing_pending h))
      where
        given : Executed I N
        given = env.execute i id (media_only ms) no_outputs

        same_input : env.execute i id s.step_inputs s.step_outputs ≡ given
        same_input = rw (ready.inputs, ready.outputs)

        there :
            lookup id s.steps_by_definition_id
            ≡ some (record { step_instance = some i; status = status })
        there =
            subst (λ m. lookup id m ≡ some (record { step_instance = some i; status = status }))
              (sym ready.tracked) e

        executes :
            execute_step env s id
            ≡ after_execute
                (executed s id (env.execute i id s.step_inputs s.step_outputs))
                id
                (env.execute i id s.step_inputs s.step_outputs).status
        executes = rw ready.runs (rw there)

    execute_all-Ready :
        {steps after : Map WorkflowStepId (TrackedWorkflowStep I)} {ms out : List MediaNotification}
        {ids : List WorkflowStepId} (s : Actor I N)
        → Flows ids steps ms out after
        → Ready s steps ms
        → Ready (fold_left (execute_step env) s ids) after out
    execute_all-Ready s at_end ready = ready
    execute_all-Ready s (through {id = id} {steps = steps} {ms = ms} i status e h rest) ready =
        execute_all-Ready (execute_step env s id) rest
          (execute_step-Ready s id steps ms i status ready e h)

    -- With nothing pending the check of the pending steps does nothing.
    check_pending_nothing : (s : Actor I N) → s.pending_steps ≡ [] → check_pending env s false ≡ s
    unfolding check_pending scan_pending after_scan
    check_pending_nothing s p = checked s.pending_steps p
      where
        checked :
            (ids : List WorkflowStepId)
            → ids ≡ []
            → after_scan env
                (record s { pending_steps = ids })
                false
                (scan_pending (record s { pending_steps = ids }) ids true)
              ≡ record s { pending_steps = ids }
        checked [] q = refl
        checked (id ∷ ids) q = cc

    first_index :
        (s : Actor I N) (id : WorkflowStepId) (later : List WorkflowStepId)
        → s.active_steps ≡ id ∷ later
        → get_active_step_index s id ≡ some 0
    unfolding get_active_step_index index_of
    first_index s id later a = rw a (rw (==_refl id))

    started-Ready :
        {after : Map WorkflowStepId (TrackedWorkflowStep I)} {ms out : List MediaNotification}
        (s : Actor I N) (ids : List WorkflowStepId)
        → Flows ids s.steps_by_definition_id ms out after
        → s.active_steps ≡ ids
        → is_running s.status ≡ true
        → s.pending_steps ≡ []
        → s.step_inputs ≡ media_only ms
        → StartedAs (start_with env s ids) after out
    unfolding start_with execute_steps run_steps run_from_index
    started-Ready s [] at_end a r p i = record { runs = r; inputs = i; tracked = refl }
    started-Ready {after} {ms} {out} s (id ∷ later) flow a r p i = rw r (
        rw (first_index prepared_actor id later a, run_from_index)
          (rw
            (check_pending_nothing (fold_left (execute_step env) prepared_actor s.active_steps)
              ran.nothing_pending)
            (record { runs = ran.runs; inputs = ran.inputs; tracked = ran.tracked })))
      where
        prepared_actor : Actor I N
        prepared_actor = record s { step_outputs = no_outputs }

        ran : Ready (fold_left (execute_step env) prepared_actor s.active_steps) after out
        ran =
            execute_all-Ready prepared_actor
              (subst (λ ids. Flows ids s.steps_by_definition_id ms out after) (sym a) flow)
              (record { runs = r; inputs = i; outputs = refl; tracked = refl; nothing_pending = p })

    -- A running workflow with no pending step receives media, and the media goes through its active
    -- steps, each of which has its step object, is executed with the media that the one before put
    -- out and with nothing else, and does not end in an error: then it is running, its steps are as
    -- the executions have left them, and what the last one put out stands as its media.
    pub receive_media_lem :
        {after : Map WorkflowStepId (TrackedWorkflowStep I)} {out : List MediaNotification}
        (s : Actor I N) (m : MediaNotification)
        → is_running s.status ≡ true
        → s.pending_steps ≡ []
        → Flows s.active_steps s.steps_by_definition_id (m ∷ []) out after
        → let t = receive_media env s m in
          (is_running t.status ≡ true)
          × (t.steps_by_definition_id ≡ after)
          × (t.step_inputs.media ≡ out)
    unfolding receive_media update_inbound_media_cache
    receive_media_lem {after} {out} s m r p flow =
        let ready = started-Ready _ s.active_steps flow refl r p refl in
        (ready.runs, ready.tracked, ap (λ x. x.media) ready.inputs)
