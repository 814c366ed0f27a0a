-- ===== src/Workflows/Runner/Heard.antt =====
-- What a workflow remembers, in every state it comes to, of the media that it has received.
mod Frame
use mmids_core.Common.{
  ℕ, ◌+◌, String, ◌≡◌, refl, subst, inl, inr, true, false, Option, none, some, List, [], ◌∷◌, ◌++◌,
  Option-cases, Eq, nat_eq, string_eq, get_elem?, keep_if, All, fold_left, fold_left-append, lookup,
}
use mmids_core.Workflows.Media.{
  StreamId, MediaNotification, stream_disconnected, new_incoming_stream,
}
use mmids_core.Workflows.Runner.Caches.{
  update_stream_details, update_media_cache_from_outputs, inbound_after,
}
use mmids_core.Workflows.Runner.Loop.{resolve_future}
use mmids_core.Workflows.Runner.History.{Reached, begun, later}
use mmids_core.Workflows.Definitions.{WorkflowStepId, WorkflowDefinition}
use mmids_core.Workflows.Requests.{
  WorkflowRequestOperation, update_definition, get_state, media_notification,
}
use mmids_core.Workflows.Steps.{Env}
use mmids_core.Workflows.Runner.State
use mmids_core.Workflows.Runner.State.{Actor}
use mmids_core.Workflows.Runner.Caches.{update_inbound_media_cache, handle_executed_step_outputs}
use mmids_core.Workflows.Runner.Execute.{get_active_step_index}
use mmids_core.Workflows.Runner.Apply
use mmids_core.Workflows.Runner.Loop.{
  FutureResult, all_consumers_gone, step_future_senders_gone, workflow_request_received,
  step_future_resolved, FuturesChannelInnerResult, generic, media, Round, goes_on, closes, panics,
  start_with, receive_media, handle_operation, handle_workflow_request, run_next, resolve_future,
  handle, start,
}
use mmids_core.Workflows.Runner.Replay.{
  remembered, starts_or_ends, starts_stream, required_of, remembered-started, remembered-ended,
}
use mmids_core.Workflows.Runner.Heard.Frame.{Same, execute_steps-Same, apply_new_definition-Same}

-- The media that an event brings.
abbrev pub media_in : {N : Type 0} → FutureResult N → List MediaNotification
media_in (workflow_request_received request) = elim request.operation [
  | media_notification m ↦ m ∷ []
  | _ ↦ []
]
media_in _ = []

module _ {I N : Type 0} (env : Env I N) where
  -- All media that the workflow has received on the way to a state.
  unfoldable pub heard :
      {definition : WorkflowDefinition} {s : Actor I N}
      → Reached env definition s
      → List MediaNotification
  heard begun = []
  heard (later r e q) = heard r ++ media_in e

  start_with-Same : (s : Actor I N) (ids : List WorkflowStepId) → Same env s (start_with env s ids)
  unfolding start_with
  start_with-Same s [] = refl
  start_with-Same s (id ∷ ids) = execute_steps-Same env s id none true true

  run_next-Same : (s : Actor I N) (index : Option ℕ) → Same env s (run_next env s index)
  unfolding run_next
  run_next-Same s none = refl
  run_next-Same s (some index) = elim (Option-cases (get_elem? s.active_steps (index + 1))) [
    | inl e ↦ rw (e, run_next)
    | inr (next, e) ↦ rw (e, run_next) (execute_steps-Same env s next none true false)
  ]

  resolve_future-Same :
      (s : Actor I N) (id : WorkflowStepId) (result : FuturesChannelInnerResult N)
      → Same env s (resolve_future env s id result)
  unfolding resolve_future handle_executed_step_outputs update_stream_details
      update_media_cache_from_outputs
  resolve_future-Same s id (generic n) = execute_steps-Same env s id (some n) false true
  resolve_future-Same s id (media m) = run_next-Same _ (get_active_step_index _ id)

  -- The actor of a round, if it goes on, remembers the new media as well.
  abbrev Hears : Actor I N → List MediaNotification → Round I N → Type 0
  Hears s ms (goes_on t response) =
      t.cached_inbound_media ≡ fold_left inbound_after s.cached_inbound_media ms
  Hears s ms (closes t) = Unit
  Hears s ms panics = Unit

  request-Hears :
      (s : Actor I N) (operation : WorkflowRequestOperation) (id : String)
      → let e : FutureResult N =
          workflow_request_received (record { request_id = id; operation = operation }) in
        Hears s (media_in e) (handle env s e)
  unfolding handle handle_workflow_request handle_operation receive_media update_inbound_media_cache
  request-Hears s (update_definition definition) id = apply_new_definition-Same env s definition
  request-Hears s (get_state channel) id = refl
  request-Hears s WorkflowRequestOperation.stop_workflow id = tt
  request-Hears s (media_notification m) id = start_with-Same _ s.active_steps

  handle-Hears : (s : Actor I N) (e : FutureResult N) → Hears s (media_in e) (handle env s e)
  unfolding handle
  handle-Hears s all_consumers_gone = tt
  handle-Hears s step_future_senders_gone = tt
  handle-Hears s (workflow_request_received request) =
      request-Hears s request.operation request.request_id
  handle-Hears s (step_future_resolved id result) = resolve_future-Same s id result

  -- In every state that a workflow comes to, it remembers what the media received so far, one after the
  -- other, leave in the cache: no step, no new definition and no failure loses any of it.
  heard_lem :
      {definition : WorkflowDefinition} {s : Actor I N} (r : Reached env definition s)
      → s.cached_inbound_media ≡ remembered (heard r)
  unfolding heard start State.new
  heard_lem {definition} begun = apply_new_definition-Same env State.new definition
  heard_lem (later {s = s} r e q) =
      rw (fold_left-append inbound_after [] (heard r) (media_in e))
        (rw (← heard_lem r) (subst (Hears s (media_in e)) q (handle-Hears s e)))

  -- If a workflow has heard that a stream starts, and since then neither that it starts again nor
  -- that it ends, then whatever else happened it remembers exactly this start and, behind it, all
  -- media of the stream that has come since and is required for decoding, in order.
  pub running_stream_lem :
      {definition : WorkflowDefinition} {s : Actor I N} (r : Reached env definition s)
      (k : StreamId) (name : String) (before after : List MediaNotification)
      → heard r ≡ before ++ record { stream_id = k; content = new_incoming_stream name } ∷ after
      → All (λ m. starts_or_ends k m ≡ false) after
      → lookup k s.cached_inbound_media
        ≡ some (
            record { stream_id = k; content = new_incoming_stream name }
            ∷ keep_if (required_of k) after)
  running_stream_lem r k name before after h quiet =
      rw (heard_lem r, h) (remembered-started k name before after quiet)

  -- If a workflow has heard that a stream ends, and since then not that it starts, it remembers
  -- nothing of it.
  pub ended_stream_lem :
      {definition : WorkflowDefinition} {s : Actor I N} (r : Reached env definition s)
      (k : StreamId) (before after : List MediaNotification)
      → heard r ≡ before ++ record { stream_id = k; content = stream_disconnected } ∷ after
      → All (λ m. starts_stream k m ≡ false) after
      → lookup k s.cached_inbound_media ≡ none
  ended_stream_lem r k before after h quiet =
      rw (heard_lem r, h) (remembered-ended k before after quiet)
