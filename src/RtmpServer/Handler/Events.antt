-- ===== src/RtmpServer/Handler/Events.antt =====
-- What the handler of a connection does with the events of the RTMP session:
-- `handle_rtmp_results` of mmids-rtmp/src/rtmp_server/actor/connection_handler.rs and what it calls.
use mmids_core.Common.{
  ℕ, String, not, ◌||◌, Option, some, List, [], ◌∷◌, ◌++◌, if◌then◌else◌, ◌==◌, nat_eq, string_eq,
  Result, ok, err,
}
use mmids_core.Metadata.Buffer.{◌>>=◌}
use mmids_core.RtmpServer.Types.{
  RtmpEndpointPublisherMessage, new_video_data, new_audio_data, request_connect_to_app,
  request_publish, request_watch, publish_finished, playback_finished,
}
use mmids_core.RtmpServer.Handler.{
  requested_app_connection, connected_to_app, requested_publishing, publishing, requested_watch,
  watching, PublishMode, live_mode, other_mode, ServerSessionEvent, connection_requested,
  publish_stream_requested, stream_metadata_changed, video_data_received, audio_data_received,
  play_stream_requested, publish_stream_finished, play_stream_finished, other_event,
  ServerSessionResult, outbound_response, raised_event, unhandleable_message_received,
  RtmpServerConnectionHandler, Effect, send_packet, send_request, send_event, forced,
}
use mmids_core.RtmpServer.Handler.Flv.{
  Int24, UnwrappedVideo, FlvError, unwrap_video_from_flv, unwrap_audio_from_flv,
}

module _ {H S M : Type 0} where
  unfoldable pub handle_rtmp_event_play_finished :
      RtmpServerConnectionHandler H S
      → String
      → String
      → RtmpServerConnectionHandler H S × List (Effect M)
  handle_rtmp_event_play_finished s app_name stream_key = elim s.state [
    | watching active_app active_key stream_id ↦
        if not (active_app == app_name)
        then forced s
        else (if not (active_key == stream_key) then forced s else (
          record s { state = connected_to_app app_name },
          send_request playback_finished ∷ [],
        ))
    | _ ↦ forced s
  ]

  unfoldable pub handle_rtmp_event_publish_finished :
      RtmpServerConnectionHandler H S
      → String
      → String
      → RtmpServerConnectionHandler H S × List (Effect M)
  handle_rtmp_event_publish_finished s app_name stream_key = elim s.state [
    | publishing current_app current_key ↦
        if not (current_app == app_name)
        then forced s
        else (if not (current_key == stream_key) then forced s else (
          record s { state = connected_to_app app_name },
          send_request publish_finished ∷ [],
        ))
    | _ ↦ forced s
  ]

  unfoldable pub handle_rtmp_event_play_stream_requested :
      RtmpServerConnectionHandler H S
      → String
      → String
      → (stream_id request_id : ℕ) → RtmpServerConnectionHandler H S × List (Effect M)
  handle_rtmp_event_play_stream_requested s app_name stream_key stream_id request_id =
      elim s.state [
        | connected_to_app current_rtmp_app ↦
            if not (current_rtmp_app == app_name) then forced s else (
              record s { state = requested_watch app_name stream_key request_id stream_id },
              send_request (request_watch app_name stream_key) ∷ [],
            )
        | _ ↦ forced s
      ]

  unfoldable pub handle_rtmp_event_publish_stream_requested :
      RtmpServerConnectionHandler H S
      → ℕ
      → String
      → String
      → PublishMode
      → RtmpServerConnectionHandler H S × List (Effect M)
  handle_rtmp_event_publish_stream_requested s request_id app_name stream_key other_mode = forced s
  handle_rtmp_event_publish_stream_requested s request_id app_name stream_key live_mode =
      elim s.state [
        | connected_to_app connected_app ↦ if not (connected_app == app_name) then forced s else (
          record s { state = requested_publishing app_name stream_key request_id },
          send_request (request_publish app_name stream_key) ∷ [],
        )
        | _ ↦ forced s
      ]

  -- In whatever state the connection is.
  unfoldable pub handle_rtmp_event_connection_requested :
      RtmpServerConnectionHandler H S
      → ℕ
      → String
      → RtmpServerConnectionHandler H S × List (Effect M)
  handle_rtmp_event_connection_requested s request_id app_name = (
    record s { state = requested_app_connection app_name request_id },
    send_request (request_connect_to_app app_name) ∷ [],
  )

  -- `published_event_channel.as_ref().unwrap().send(…)`.
  abbrev pub send_published :
      RtmpServerConnectionHandler H S
      → RtmpEndpointPublisherMessage M
      → Option (RtmpServerConnectionHandler H S × List (Effect M))
  send_published s message =
      s.published_event_channel >>= λ channel. some (s, send_event channel message ∷ [])

  unfoldable pub handle_rtmp_event_audio_data_received :
      RtmpServerConnectionHandler H S
      → String
      → String
      → List ℕ
      → ℕ
      → Option (RtmpServerConnectionHandler H S × List (Effect M))
  handle_rtmp_event_audio_data_received s app_name stream_key data_bytes timestamp = elim s.state [
    | publishing current_rtmp_app current_stream_key ↦
        if not (current_rtmp_app == app_name) || not (current_stream_key == stream_key)
        then some (forced s)
        else elim (unwrap_audio_from_flv data_bytes) [
          | err e ↦ some (s, [])
          | ok audio ↦
              send_published s
                (new_audio_data s.id audio.is_sequence_header audio.data_bytes timestamp)
        ]
    | _ ↦ some (forced s)
  ]

  -- What is done with a video once its FLV tags are read.
  abbrev pub send_video :
      RtmpServerConnectionHandler H S
      → ℕ
      → Result UnwrappedVideo FlvError
      → Option (RtmpServerConnectionHandler H S × List (Effect M))
  send_video s timestamp (err e) = some (s, [])
  send_video s timestamp (ok video) = send_published s (
      new_video_data s.id video.is_keyframe video.is_sequence_header video.data_bytes timestamp
        video.composition_time_in_ms)

  unfoldable pub handle_rtmp_event_video_data_received :
      Int24
      → RtmpServerConnectionHandler H S
      → String
      → String
      → List ℕ
      → ℕ
      → Option (RtmpServerConnectionHandler H S × List (Effect M))
  handle_rtmp_event_video_data_received b s app_name stream_key data_bytes timestamp =
      elim s.state [
        | publishing current_rtmp_app current_stream_key ↦
            if not (current_rtmp_app == app_name) || not (current_stream_key == stream_key)
            then some (forced s)
            else (unwrap_video_from_flv b data_bytes >>= send_video s timestamp)
        | _ ↦ some (forced s)
      ]

  unfoldable pub handle_rtmp_event_stream_metadata_changed :
      RtmpServerConnectionHandler H S
      → String
      → String
      → M
      → Option (RtmpServerConnectionHandler H S × List (Effect M))
  handle_rtmp_event_stream_metadata_changed s app_name stream_key metadata = elim s.state [
    | publishing current_rtmp_app current_stream_key ↦
        if not (current_rtmp_app == app_name) || not (current_stream_key == stream_key)
        then some (forced s)
        else send_published s (RtmpEndpointPublisherMessage.stream_metadata_changed s.id metadata)
    | _ ↦ some (forced s)
  ]

module _ {H S M : Type 0} (b : Int24) where
  -- The cases of `handle_rtmp_results` for an event.
  unfoldable pub handle_event :
      RtmpServerConnectionHandler H S
      → ServerSessionEvent M
      → Option (RtmpServerConnectionHandler H S × List (Effect M))
  handle_event s (connection_requested request_id app_name) =
      some (handle_rtmp_event_connection_requested s request_id app_name)
  handle_event s (publish_stream_requested request_id app_name stream_key mode) =
      some (handle_rtmp_event_publish_stream_requested s request_id app_name stream_key mode)
  handle_event s (stream_metadata_changed app_name stream_key metadata) =
      handle_rtmp_event_stream_metadata_changed s app_name stream_key metadata
  handle_event s (video_data_received app_name stream_key data_bytes timestamp) =
      handle_rtmp_event_video_data_received b s app_name stream_key data_bytes timestamp
  handle_event s (audio_data_received app_name stream_key data_bytes timestamp) =
      handle_rtmp_event_audio_data_received s app_name stream_key data_bytes timestamp
  handle_event s (play_stream_requested app_name stream_key stream_id request_id) =
      some (handle_rtmp_event_play_stream_requested s app_name stream_key stream_id request_id)
  handle_event s (publish_stream_finished app_name stream_key) =
      some (handle_rtmp_event_publish_finished s app_name stream_key)
  handle_event s (play_stream_finished app_name stream_key) =
      some (handle_rtmp_event_play_finished s app_name stream_key)
  handle_event s other_event = some (s, [])

  unfoldable pub handle_result :
      RtmpServerConnectionHandler H S
      → ServerSessionResult M
      → Option (RtmpServerConnectionHandler H S × List (Effect M))
  handle_result s (outbound_response packet) = some (s, send_packet packet ∷ [])
  handle_result s (raised_event event) = handle_event s event
  handle_result s unhandleable_message_received = some (s, [])

  -- `handle_rtmp_results`: all results are handled, also after one that forces the disconnection.
  unfoldable pub handle_rtmp_results :
      RtmpServerConnectionHandler H S
      → List (ServerSessionResult M)
      → Option (RtmpServerConnectionHandler H S × List (Effect M))
  handle_rtmp_results s [] = some (s, [])
  handle_rtmp_results s (result ∷ results) = handle_result s result >>= λ handled.
      handle_rtmp_results handled.0 results >>= λ rest. some (rest.0, handled.1 ++ rest.1)
