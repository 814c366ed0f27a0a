-- ===== src/Workflows/Runner/Caches.antt =====
-- What a workflow remembers of the media that passes: `update_stream_details`,
-- `update_inbound_media_cache`, `update_media_cache_from_outputs` and `handle_executed_step_outputs`.
use mmids_core.Common.{
  none, some, [], ◌∷◌, ◌++◌, if◌then◌else◌, ◌==◌, nat_eq, string_eq, fold_left, Map, or_default,
  lookup, insert, remove, contains_key,
}
use mmids_core.Workflows.Media.{
  StreamId, MediaNotification, MediaNotificationContent, new_incoming_stream, stream_disconnected,
  metadata, media_payload,
}
use mmids_core.Workflows.Definitions.{WorkflowStepId}
use mmids_core.Workflows.Steps.{no_outputs}
use mmids_core.Workflows.Runner.State.{Actor, StreamDetails, MediaCache}

-- One round of the loop of `update_stream_details`.
unfoldable pub stream_details_step :
    WorkflowStepId
    → Map StreamId StreamDetails
    → MediaNotificationContent
    → StreamId
    → Map StreamId StreamDetails
stream_details_step id streams (metadata m) stream = streams
stream_details_step id streams (media_payload p) stream = streams
stream_details_step id streams (new_incoming_stream name) stream =
    if contains_key stream streams
    then streams
    else insert stream (record { originating_step_id = id }) streams
stream_details_step id streams stream_disconnected stream = elim (lookup stream streams) [
  | none ↦ streams
  | some details ↦ if details.originating_step_id == id then remove stream streams else streams
]

abbrev pub stream_details_after :
    WorkflowStepId → Map StreamId StreamDetails → MediaNotification → Map StreamId StreamDetails
stream_details_after id streams m = stream_details_step id streams m.content m.stream_id

-- The new value of `cached_inbound_media`.
unfoldable pub inbound_step : MediaCache → MediaNotificationContent → MediaNotification → MediaCache
inbound_step cache (new_incoming_stream name) m = insert m.stream_id (m ∷ []) cache
inbound_step cache stream_disconnected m = remove m.stream_id cache
inbound_step cache (metadata x) m = cache
inbound_step cache (media_payload p) m =
    if p.is_required_for_decoding
    then elim (lookup m.stream_id cache) [
      | none ↦ cache
      | some collection ↦ insert m.stream_id (collection ++ m ∷ []) cache
    ]
    else cache

abbrev pub inbound_after : MediaCache → MediaNotification → MediaCache
inbound_after cache m = inbound_step cache m.content m

-- `Operation` in `update_media_cache_from_outputs`.
pub data Operation : Type 0 where
  add take_away ignore : Operation

unfoldable pub operation_for : MediaNotificationContent → Operation
operation_for stream_disconnected = take_away
operation_for (new_incoming_stream name) = add
operation_for (metadata x) = ignore
operation_for (media_payload p) = if p.is_required_for_decoding then add else ignore

unfoldable pub apply_operation : MediaCache → Operation → MediaNotification → MediaCache
apply_operation cache ignore m = cache
apply_operation cache take_away m = remove m.stream_id cache
apply_operation cache add m =
    insert m.stream_id (or_default (lookup m.stream_id cache) [] ++ m ∷ []) cache

abbrev pub outputs_after : MediaCache → MediaNotification → MediaCache
outputs_after cache m = apply_operation cache (operation_for m.content) m

module _ {I N : Type 0} where
  unfoldable pub update_stream_details : Actor I N → WorkflowStepId → Actor I N
  update_stream_details s id = record s {
    active_streams = fold_left (stream_details_after id) s.active_streams s.step_outputs.media;
  }

  unfoldable pub update_inbound_media_cache : Actor I N → MediaNotification → Actor I N
  update_inbound_media_cache s m = record s {
    cached_inbound_media = inbound_after s.cached_inbound_media m;
  }

  unfoldable pub update_media_cache_from_outputs : Actor I N → WorkflowStepId → Actor I N
  update_media_cache_from_outputs s id = record s {
    cached_step_media =
        insert id
          (fold_left outputs_after (or_default (lookup id s.cached_step_media) [])
            s.step_outputs.media)
          s.cached_step_media;
  }

  unfoldable pub handle_executed_step_outputs : Actor I N → WorkflowStepId → Actor I N
  handle_executed_step_outputs s id =
      let t = update_media_cache_from_outputs (update_stream_details s id) id in
      record t {
        step_inputs = record { media = t.step_outputs.media; notifications = [] };
        step_outputs = no_outputs;
      }
