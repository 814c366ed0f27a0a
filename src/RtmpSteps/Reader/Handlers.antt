-- ===== src/RtmpSteps/Reader/Handlers.antt =====
-- The handlers of `ExternalStreamReader` of
-- mmids-rtmp/src/workflow_steps/external_stream_reader.rs: results of futures, and media.
use mmids_core.Common.{
  String, not, Option, none, some, List, [], ◌∷◌, ◌++◌, if◌then◌else◌, nat_eq, string_eq, lookup,
  insert, contains_key,
}
use mmids_core.Metadata.Buffer.{◌>>=◌}
use mmids_core.Workflows.Media.{
  StreamId, MediaNotification, MediaNotificationContent, new_incoming_stream, stream_disconnected,
  metadata, media_payload,
}
use mmids_core.Workflows.Steps.{StepStatus}
use mmids_core.RtmpServer.Types.{RtmpEndpointWatcherNotification}
use mmids_core.RtmpSteps.Conversion.{MetadataFormat}
use mmids_core.RtmpSteps.Reader.{
  ExternalStreamHandlers, success, stream_should_be_stopped, WatchRegistrationStatus, inactive,
  pending, active, ActiveStream, ExternalStreamReader, FutureResult, rtmp_endpoint_gone,
  watch_channel_gone, watch_notification_received, stream_handler_future, unknown_type, Effect,
  Fresh, note_watch, send_content, prepare_stream, stop_stream, stop_all_streams,
}

module _ {C M X F : Type 0} (handlers : ExternalStreamHandlers X F)
    (format : MetadataFormat M) where
  unfoldable pub handle_rtmp_watch_notification :
      ExternalStreamReader X
      → Fresh
      → StreamId
      → RtmpEndpointWatcherNotification
      → Option (ExternalStreamReader X × List (Effect C M X))
  unfolding prepare_stream
  handle_rtmp_watch_notification s fresh id notification = elim (lookup id s.active_streams) [
    | none ↦ prepare_stream handlers format s fresh id
    | some stream ↦ prepare_stream handlers format (note_watch s id stream notification) fresh id
  ]

  -- The result of a future of a stream's handler.
  unfoldable pub resolve_stream :
      ExternalStreamReader X
      → Fresh
      → StreamId
      → F
      → Option (ExternalStreamReader X × List (Effect C M X))
  unfolding prepare_stream stop_stream
  resolve_stream s fresh id future = elim (lookup id s.active_streams) [
    | none ↦ prepare_stream handlers format s fresh id
    | some stream ↦
        let (handler, result) =
          handlers.handle_resolved_future stream.external_stream_handler future in
        let t = record s {
          active_streams =
              insert id (record stream { external_stream_handler = handler }) s.active_streams;
        } in
        elim result [
          | success ↦ prepare_stream handlers format t fresh id
          | stream_should_be_stopped ↦ some (stop_stream handlers format t id)
        ]
  ]

  -- `handle_resolved_future`.
  unfoldable pub handle_resolved_future :
      ExternalStreamReader X
      → Fresh
      → FutureResult F
      → Option (ExternalStreamReader X × List (Effect C M X))
  unfolding handle_rtmp_watch_notification resolve_stream stop_all_streams
  handle_resolved_future s fresh (stream_handler_future id future) =
      resolve_stream s fresh id future
  handle_resolved_future s fresh unknown_type = some (s, [])
  handle_resolved_future s fresh rtmp_endpoint_gone = some (
      stop_all_streams handlers format
        (record s { status = StepStatus.error "RTMP endpoint is gone" }))
  handle_resolved_future s fresh (watch_channel_gone id) = some (stop_stream handlers format s id)
  handle_resolved_future s fresh (watch_notification_received id notification) =
      let handled = handle_rtmp_watch_notification s fresh id notification in
      if not (contains_key id s.active_streams) then some (s, []) else handled

  -- Media that a stream does not send on yet waits in it.
  unfoldable pub deliver :
      ExternalStreamReader X
      → StreamId
      → MediaNotificationContent
      → ActiveStream X
      → WatchRegistrationStatus
      → Option (ExternalStreamReader X × List (Effect C M X))
  deliver s id content stream (active media_channel) =
      send_content handlers format s stream.id media_channel content >>= λ effects.
      some (s, effects)
  deliver s id content stream inactive = some (
    record s {
      active_streams =
          insert id (record stream { pending_media = stream.pending_media ++ content ∷ [] })
            s.active_streams;
    },
    [],
  )
  deliver s id content stream (pending media_channel) = some (
    record s {
      active_streams =
          insert id (record stream { pending_media = stream.pending_media ++ content ∷ [] })
            s.active_streams;
    },
    [],
  )

  unfoldable pub pass_content :
      ExternalStreamReader X
      → StreamId
      → MediaNotificationContent
      → Option (ExternalStreamReader X × List (Effect C M X))
  unfolding deliver
  pass_content s id content = elim (lookup id s.active_streams) [
    | none ↦ some (s, [])
    | some stream ↦ deliver s id content stream stream.rtmp_output_status
  ]

  -- A new stream, unless there is one of its id: then nothing happens, and nothing is passed on.
  unfoldable pub start_stream :
      ExternalStreamReader X
      → Fresh
      → MediaNotification
      → String
      → Option ((ExternalStreamReader X × List (Effect C M X)) × List MediaNotification)
  start_stream s fresh media stream_name = elim (lookup media.stream_id s.active_streams) [
    | some stream ↦ some ((s, []), [])
    | none ↦
        prepare_stream handlers format
          (record s {
            active_streams =
                insert media.stream_id
                  (record {
                    id = media.stream_id;
                    stream_name = stream_name;
                    pending_media = [];
                    rtmp_output_status = inactive;
                    external_stream_handler = handlers.generate media.stream_id;
                  })
                  s.active_streams;
          })
          fresh media.stream_id
        >>= λ prepared. some (prepared, media ∷ [])
  ]

  -- `handle_media`: the step, what it did, and what it passes on.
  unfoldable pub handle_media :
      ExternalStreamReader X
      → Fresh
      → StreamId
      → MediaNotificationContent
      → Option ((ExternalStreamReader X × List (Effect C M X)) × List MediaNotification)
  unfolding start_stream pass_content stop_stream
  handle_media s fresh id (new_incoming_stream stream_name) =
      start_stream s fresh (record { stream_id = id; content = new_incoming_stream stream_name })
        stream_name
  handle_media s fresh id stream_disconnected = some (
    stop_stream handlers format s id,
    record { stream_id = id; content = stream_disconnected } ∷ [],
  )
  handle_media s fresh id (metadata pairs) = pass_content s id (metadata pairs) >>= λ handled.
      some (handled, record { stream_id = id; content = metadata pairs } ∷ [])
  handle_media s fresh id (media_payload m) = pass_content s id (media_payload m) >>= λ handled.
      some (handled, record { stream_id = id; content = media_payload m } ∷ [])
