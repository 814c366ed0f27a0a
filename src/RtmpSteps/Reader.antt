-- ===== src/RtmpSteps/Reader.antt =====
-- Streams that an external program reads over RTMP: `ExternalStreamReader` of
-- mmids-rtmp/src/workflow_steps/external_stream_reader.rs. The handlers of the external streams are a
-- parameter: a type X of theirs, of which nothing is assumed, and their calls.
pub mod Handlers
pub mod Delivery
pub mod Life
use mmids_core.Common.{
  String, false, Option, none, some, List, [], ◌∷◌, ◌++◌, Eq, nat_eq, string_eq, Map, keys, lookup,
  insert, remove, ok, err,
}
use mmids_core.Metadata.Buffer.{◌>>=◌}
use mmids_core.Metadata.Keys.{MetadataKey}
use mmids_core.Workflows.Media.{StreamId, MediaNotificationContent}
use mmids_core.Workflows.Requests.{Sender}
use mmids_core.Workflows.Steps.{StepStatus}
use mmids_core.RtmpServer.Types.{
  no_restriction, exact, RegistrationType, RtmpEndpointRequest, listen_for_watchers,
  remove_registration, RtmpEndpointMediaData, RtmpEndpointWatcherNotification,
  watcher_registration_failed, watcher_registration_successful, watcher_requiring_approval,
  stream_key_became_active, stream_key_became_inactive,
}
use mmids_core.RtmpSteps.Conversion.{MetadataFormat, from_media_notification_content}

pub data ResolvedFutureStatus : Type 0 where
  success stream_should_be_stopped : ResolvedFutureStatus

-- `ExternalStreamHandler` and its generator, with futures of a type F. `stop_stream` and
-- `prepare_stream` return the handler, the result of a future also what becomes of the stream.
pub record ExternalStreamHandlers (X F : Type 0) : Type 0 where
  pub generate : StreamId → X
  pub prepare_stream : X → String → X
  pub stop_stream : X → X
  pub handle_resolved_future : X → F → X × ResolvedFutureStatus

pub data WatchRegistrationStatus : Type 0 where
  inactive : WatchRegistrationStatus
  pending : Sender → WatchRegistrationStatus
  active : Sender → WatchRegistrationStatus

pub record ActiveStream (X : Type 0) : Type 0 where
  pub id : StreamId
  pub stream_name : String
  pub pending_media : List MediaNotificationContent
  pub rtmp_output_status : WatchRegistrationStatus
  pub external_stream_handler : X

pub record ExternalStreamReader (X : Type 0) : Type 0 where
  pub status : StepStatus
  pub watcher_app_name : String
  pub active_streams : Map StreamId (ActiveStream X)
  pub is_keyframe_metadata_key : MetadataKey
  pub pts_offset_metadata_key : MetadataKey

-- `new`; the generator of handlers is a parameter of what uses it.
unfoldable pub new_reader :
    {X : Type 0} → String → MetadataKey → MetadataKey → ExternalStreamReader X
new_reader watcher_rtmp_app_name is_keyframe_metadata_key pts_offset_metadata_key = record {
  status = StepStatus.active;
  watcher_app_name = watcher_rtmp_app_name;
  active_streams = [];
  is_keyframe_metadata_key = is_keyframe_metadata_key;
  pts_offset_metadata_key = pts_offset_metadata_key;
}

pub data FutureResult (F : Type 0) : Type 0 where
  rtmp_endpoint_gone : FutureResult F
  watch_channel_gone : StreamId → FutureResult F
  watch_notification_received : StreamId → RtmpEndpointWatcherNotification → FutureResult F
  stream_handler_future : StreamId → F → FutureResult F
  unknown_type : FutureResult F

pub data Effect (C M X : Type 0) : Type 0 where
  ask_endpoint : RtmpEndpointRequest C → Effect C M X
  wait_for_watchers : Sender → StreamId → Effect C M X
  send_media : Sender → String → RtmpEndpointMediaData M → Effect C M X
  stopped : X → Effect C M X

-- The channels that a call makes: for media and for notifications.
pub record Fresh : Type 0 where
  pub media_channel : Sender
  pub watch_channel : Sender

abbrev registered_status : WatchRegistrationStatus → WatchRegistrationStatus
registered_status (pending media_channel) = active media_channel
registered_status status = status

module _ {X : Type 0} where
  -- What a notification changes, before the stream is prepared.
  unfoldable pub note_watch :
      ExternalStreamReader X
      → StreamId
      → ActiveStream X
      → RtmpEndpointWatcherNotification
      → ExternalStreamReader X
  note_watch s id stream watcher_registration_successful = record s {
    active_streams =
        insert id
          (record stream { rtmp_output_status = registered_status stream.rtmp_output_status })
          s.active_streams;
  }
  note_watch s id stream watcher_registration_failed = record s {
    active_streams = insert id (record stream { rtmp_output_status = inactive }) s.active_streams;
  }
  note_watch s id stream (stream_key_became_active key updates) = s
  note_watch s id stream (stream_key_became_inactive key) = s
  note_watch s id stream (watcher_requiring_approval connection key channel) = record s {
    status = StepStatus.error "Received request for approval but requests should be auto-approved";
  }

module _ {C M X F : Type 0} (handlers : ExternalStreamHandlers X F)
    (format : MetadataFormat M) where
  -- Media that cannot be converted is left out; `none` is a panic.
  unfoldable pub send_content :
      ExternalStreamReader X
      → StreamId
      → Sender
      → MediaNotificationContent
      → Option (List (Effect C M X))
  send_content s id media_channel content =
      from_media_notification_content format s.is_keyframe_metadata_key s.pts_offset_metadata_key
        content
      >>= λ converted. elim converted [
        | err failure ↦ some []
        | ok d ↦ some (send_media media_channel id d ∷ [])
      ]

  unfoldable pub send_contents :
      ExternalStreamReader X
      → StreamId
      → Sender
      → List MediaNotificationContent
      → Option (List (Effect C M X))
  unfolding send_content
  send_contents s id media_channel [] = some []
  send_contents s id media_channel (content ∷ rest) = do
    effects ← send_content s id media_channel content
    further ← send_contents s id media_channel rest
    some (effects ++ further)

  -- `prepare_stream`, of a stream that is there.
  unfoldable pub prepare :
      ExternalStreamReader X
      → Fresh
      → ActiveStream X
      → WatchRegistrationStatus
      → Option (ActiveStream X × List (Effect C M X))
  unfolding send_contents
  prepare s fresh stream inactive = some (
    record stream { rtmp_output_status = pending fresh.media_channel },
    ask_endpoint (
          listen_for_watchers 1935 s.watcher_app_name (exact stream.id) fresh.media_channel
            fresh.watch_channel no_restriction false false)
        ∷ wait_for_watchers fresh.watch_channel stream.id
        ∷ [],
  )
  prepare s fresh stream (pending media_channel) = some (stream, [])
  prepare s fresh stream (active media_channel) =
      send_contents s stream.id media_channel stream.pending_media >>= λ effects. some (
        record stream {
          pending_media = [];
          external_stream_handler =
              handlers.prepare_stream stream.external_stream_handler stream.stream_name;
        },
        effects,
      )

  abbrev put_stream :
      ExternalStreamReader X
      → StreamId
      → ActiveStream X × List (Effect C M X)
      → ExternalStreamReader X × List (Effect C M X)
  put_stream s id (stream, effects) =
      (record s { active_streams = insert id stream s.active_streams }, effects)

  unfoldable pub prepare_stream :
      ExternalStreamReader X
      → Fresh
      → StreamId
      → Option (ExternalStreamReader X × List (Effect C M X))
  unfolding prepare
  prepare_stream s fresh id = elim (lookup id s.active_streams) [
    | none ↦ some (s, [])
    | some stream ↦ prepare s fresh stream stream.rtmp_output_status >>= λ prepared.
        some (put_stream s id prepared)
  ]

  unfoldable pub stop_stream :
      ExternalStreamReader X → StreamId → ExternalStreamReader X × List (Effect C M X)
  stop_stream s id = elim (lookup id s.active_streams) [
    | none ↦ (s, [])
    | some stream ↦ (
      record s { active_streams = remove id s.active_streams },
      stopped (handlers.stop_stream stream.external_stream_handler)
          ∷ ask_endpoint (
              remove_registration RegistrationType.watcher 1935 s.watcher_app_name
                (exact stream.id))
          ∷ [],
    )
  ]

  unfoldable pub stop_streams :
      ExternalStreamReader X → List StreamId → ExternalStreamReader X × List (Effect C M X)
  unfolding stop_stream
  stop_streams s [] = (s, [])
  stop_streams s (id ∷ ids) =
      let (t, effects) = stop_stream s id in
      let (u, further) = stop_streams t ids in (u, effects ++ further)

  -- `stop_all_streams`, which is all that `drop` does.
  unfoldable pub stop_all_streams :
      ExternalStreamReader X → ExternalStreamReader X × List (Effect C M X)
  unfolding stop_streams
  stop_all_streams s = stop_streams s (keys s.active_streams)
