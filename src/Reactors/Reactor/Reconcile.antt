-- ===== src/Reactors/Reactor/Reconcile.antt =====
-- What a reactor's requests to the workflow manager make of the workflows that run.
use mmids_core.Common.{
  ℕ, String, ◌≡◌, refl, subst, inl, inr, Bool, true, false, not, ◌&&◌, ◌||◌, none, some, List, [],
  ◌∷◌, ◌++◌, map, arith, nat_beq, if◌then◌else◌, Bool-cases, ◌==◌, nat_eq, string_eq, ==_eq,
  is_empty, keep_if, lookup, lookup-insert_self, lookup-remove_self, contains, add_to, remove_from,
  to_set, contains-add_to, contains-remove_from, contains-to_set,
}
use mmids_core.Workflows.Definitions.{WorkflowDefinition}
use mmids_core.Workflows.Requests.{
  Sender, WorkflowManagerRequestOperation, upsert_workflow, get_running_workflows,
  get_workflow_details,
}
use mmids_core.Reactors.Executors.{ReactorExecutionResult}
use mmids_core.Reactors.Reactor.{
  Actor, Effect, get_workflow, respond, manage, watch_client, watch_manager, remind,
  ReactorWorkflowUpdate, names_of, update_of, stop_each, upsert_each, definitions_of,
  apply_response, handle_executor_response, forget_stream, handle_response_channel_closed,
}

-- The workflows that run after the manager has handled a request.
abbrev pub after_request : List String → WorkflowManagerRequestOperation → List String
after_request names (upsert_workflow definition) = add_to definition.name names
after_request names (WorkflowManagerRequestOperation.stop_workflow name) = remove_from name names
after_request names (get_running_workflows channel) = names
after_request names (get_workflow_details name channel) = names

abbrev pub running_after : List String → List Effect → List String
running_after names [] = names
running_after names (manage channel operation ∷ effects) =
    running_after (after_request names operation) effects
running_after names (get_workflow stream ∷ effects) = running_after names effects
running_after names (respond channel update ∷ effects) = running_after names effects
running_after names (watch_client channel stream ∷ effects) = running_after names effects
running_after names (watch_manager channel ∷ effects) = running_after names effects
running_after names (remind stream ∷ effects) = running_after names effects

running_after-append :
    (names : List String) (xs ys : List Effect)
    → running_after names (xs ++ ys) ≡ running_after (running_after names xs) ys
running_after-append names [] ys = refl
running_after-append names (manage c operation ∷ xs) ys =
    running_after-append (after_request names operation) xs ys
running_after-append names (get_workflow stream ∷ xs) ys = running_after-append names xs ys
running_after-append names (respond c update ∷ xs) ys = running_after-append names xs ys
running_after-append names (watch_client c stream ∷ xs) ys = running_after-append names xs ys
running_after-append names (watch_manager c ∷ xs) ys = running_after-append names xs ys
running_after-append names (remind stream ∷ xs) ys = running_after-append names xs ys

pub running_after-upserts :
    (manager : Sender) (names : List String) (workflows : List WorkflowDefinition) (n : String)
    → contains (running_after names (upsert_each (some manager) workflows)) n
      ≡ (contains names n || contains (names_of workflows) n)
unfolding contains
running_after-upserts manager names [] n = ground arith
running_after-upserts manager names (w ∷ workflows) n =
    rw
      (
        running_after-upserts manager (add_to w.name names) workflows n,
        contains-add_to w.name n names,
      )
      (ground arith)

running_after-stops :
    (manager : Sender) (names : List String) (workflows : List WorkflowDefinition) (n : String)
    → contains (running_after names (stop_each (some manager) workflows)) n
      ≡ (contains names n && not (contains (names_of workflows) n))
unfolding contains
running_after-stops manager names [] n = ground arith
running_after-stops manager names (w ∷ workflows) n =
    rw
      (
        running_after-stops manager (remove_from w.name names) workflows n,
        contains-remove_from w.name n names,
      )
      (ground arith)

-- The requests to stop those workflows that a list does not name.
contains-dropped :
    (current : List String) (workflows : List WorkflowDefinition) (n : String)
    → contains (names_of (keep_if (λ w. not (contains current w.name)) workflows)) n
      ≡ (contains (names_of workflows) n && not (contains current n))
unfolding contains
contains-dropped current [] n = refl
contains-dropped current (w ∷ workflows) n = elim (Bool-cases (w.name == n)) [
  | inl q ↦
      let same : w.name ≡ n = ==_eq w.name n q in
      elim (Bool-cases (contains current w.name)) [
        | inl h ↦
            let h' : contains current n ≡ true = subst (λ k. contains current k ≡ true) same h in
            rw h (rw (contains-dropped current workflows n, h') (ground arith))
        | inr h ↦
            let h' : contains current n ≡ false = subst (λ k. contains current k ≡ false) same h in
            rw h (rw (q, h'))
      ]
  | inr q ↦ elim (Bool-cases (contains current w.name)) [
    | inl h ↦ rw h (rw (contains-dropped current workflows n, q))
    | inr h ↦ rw h (rw (q, contains-dropped current workflows n))
  ]
]

answers_only :
    (names : List String) (update : ReactorWorkflowUpdate) (channels : List Sender) (interval : ℕ)
    (stream : String)
    → running_after names (
        map (λ c. respond c update) channels
        ++ (if nat_beq interval 0 then [] else remind stream ∷ []))
      ≡ names
answers_only names update [] interval stream = elim (Bool-cases (nat_beq interval 0)) [
  | inl z ↦ rw z
  | inr z ↦ rw z
]
answers_only names update (c ∷ channels) interval stream =
    answers_only names update channels interval stream

module _ (s : Actor) (stream : String) (manager : Sender) where
  -- The workflows that the reactor holds for the stream.
  abbrev pub held : List String
  held = names_of (definitions_of (lookup stream s.cached_workflows_for_stream_name))

  apply_response_lem :
      (names : List String) (result : ReactorExecutionResult) (n : String)
      → s.workflow_manager ≡ some manager
      → contains (running_after names (apply_response s stream result).1) n ≡ (
          (result.stream_is_valid && contains (names_of result.workflows_returned) n)
          || (contains names n && not (contains held n)))
  unfolding apply_response
  apply_response_lem names result n m = elim (Bool-cases result.stream_is_valid) [
    | inr v ↦ rw v (
        rw m (
          running_after-stops manager names
            (definitions_of (lookup stream s.cached_workflows_for_stream_name)) n))
    | inl v ↦
        let old = definitions_of (lookup stream s.cached_workflows_for_stream_name) in
        let current = to_set (names_of result.workflows_returned) in
        rw v (
          rw m (
            rw
              (running_after-append names (upsert_each (some manager) result.workflows_returned)
                (stop_each (some manager) (keep_if (λ w. not (contains current w.name)) old)))
              (rw
                (
                  running_after-stops manager
                      (running_after names (upsert_each (some manager) result.workflows_returned))
                      (keep_if (λ w. not (contains current w.name)) old) n,
                  running_after-upserts manager names result.workflows_returned n,
                  contains-dropped current old n,
                  contains-to_set (names_of result.workflows_returned) n,
                )
                (ground arith))))
  ]

  cache_after :
      (result : ReactorExecutionResult)
      → lookup stream (apply_response s stream result).0.cached_workflows_for_stream_name ≡ (
          if result.stream_is_valid
          then some (record { definitions = result.workflows_returned })
          else none)
  unfolding apply_response
  cache_after result = elim (Bool-cases result.stream_is_valid) [
    | inl v ↦ rw v (
        lookup-insert_self stream (record { definitions = result.workflows_returned })
          s.cached_workflows_for_stream_name)
    | inr v ↦ rw v (lookup-remove_self stream s.cached_workflows_for_stream_name)
  ]

  -- An answer of the executor for a stream that has a client, with a workflow manager known: after
  -- the manager has handled the reactor's requests exactly these workflows run: those of a valid
  -- answer, and those that ran before and that the reactor did not hold for the stream; from then on
  -- the reactor holds the workflows of the answer, or nothing if the stream is not valid.
  pub handle_executor_response_lem :
      (names : List String) (result : ReactorExecutionResult) (channels : List Sender)
      → s.workflow_manager ≡ some manager
      → lookup stream s.stream_response_channels ≡ some channels
      → ((n : String)
          → contains (running_after names (handle_executor_response s stream result).1) n ≡ (
              (result.stream_is_valid && contains (names_of result.workflows_returned) n)
              || (contains names n && not (contains held n))))
        × (lookup stream
              (handle_executor_response s stream result).0.cached_workflows_for_stream_name
            ≡ (if result.stream_is_valid
                then some (record { definitions = result.workflows_returned })
                else none))
  unfolding handle_executor_response
  handle_executor_response_lem names result channels m c =
      rw (c, handle_executor_response)
        (
          λ n.
              rw
                (running_after-append names (apply_response s stream result).1 (
                  map (λ channel. respond channel (update_of result)) channels
                  ++ (if nat_beq s.update_interval 0 then [] else remind stream ∷ [])))
                (rw
                  (answers_only (running_after names (apply_response s stream result).1)
                    (update_of result) channels s.update_interval stream)
                  (apply_response_lem names result n m)),
          cache_after result,
        )

  forget_stream_lem :
      (names : List String) (n : String)
      → s.workflow_manager ≡ some manager
      → (contains (running_after names (forget_stream s stream).1) n
          ≡ (contains names n && not (contains held n)))
        × (lookup stream (forget_stream s stream).0.cached_workflows_for_stream_name ≡ none)
        × (lookup stream (forget_stream s stream).0.stream_response_channels ≡ none)
  unfolding forget_stream
  forget_stream_lem names n m =
      rw (m, forget_stream)
        (
          running_after-stops manager names
              (definitions_of (lookup stream s.cached_workflows_for_stream_name)) n,
          lookup-remove_self stream s.cached_workflows_for_stream_name,
          lookup-remove_self stream s.stream_response_channels,
        )

  -- A client's channel for a stream has closed, with a workflow manager known: if no channel of the
  -- stream is open any more, the workflows that the reactor held for the stream stop, and no other
  -- one, and the reactor forgets the stream; else the running workflows and what it holds are as
  -- before.
  pub handle_response_channel_closed_lem :
      (names : List String) (n : String) (is_closed : Sender → Bool) (channels : List Sender)
      → s.workflow_manager ≡ some manager
      → lookup stream s.stream_response_channels ≡ some channels
      → let (t, effects) = handle_response_channel_closed s is_closed stream in
        let all_gone = is_empty (keep_if (λ c. not (is_closed c)) channels) in
        (contains (running_after names effects) n
          ≡ (contains names n && not (all_gone && contains held n)))
        × (lookup stream t.cached_workflows_for_stream_name
            ≡ (if all_gone then none else lookup stream s.cached_workflows_for_stream_name))
        × (lookup stream t.stream_response_channels
            ≡ (if all_gone then none else some (keep_if (λ c. not (is_closed c)) channels)))
  unfolding handle_response_channel_closed
  handle_response_channel_closed_lem names n is_closed channels m c =
      rw (c, handle_response_channel_closed)
        (elim (Bool-cases (is_empty (keep_if (λ c. not (is_closed c)) channels))) [
          | inl q ↦ rw q (forget_stream_lem names n m)
          | inr q ↦ rw q (
            ground arith,
            refl,
            lookup-insert_self stream (keep_if (λ c. not (is_closed c)) channels)
                s.stream_response_channels,
          )
        ])
