-- ===== src/RtmpSteps/Watch.antt =====
-- The step that offers media to RTMP watchers: `RtmpWatchStep` of
-- mmids-rtmp/src/workflow_steps/rtmp_watch/mod.rs. Conventions are those of the
-- receiver; `none` is a panic while metadata is read.
pub mod Generator
pub mod OneKey
use mmids_core.Common.{
  ℕ, ◌+◌, String, Bool, true, false, Option, none, some, List, [], ◌∷◌, ◌++◌, if◌then◌else◌, Eq,
  ◌==◌, nat_eq, string_eq, Map, values, lookup, insert, remove,
}
use mmids_core.Metadata.Buffer.{◌>>=◌}
use mmids_core.Metadata.Keys.{MetadataKey}
use mmids_core.Workflows.Media.{
  StreamId, MediaPayload, MediaNotification, MediaNotificationContent, new_incoming_stream,
  stream_disconnected, metadata, media_payload,
}
use mmids_core.Workflows.Requests.{Sender}
use mmids_core.Workflows.Steps.{StepStatus}
use mmids_core.Reactors.Reactor.{ReactorWorkflowUpdate}
use mmids_core.Reactors.Manager.{ReactorManagerRequest, create_workflow_for_stream_name}
use mmids_core.RtmpServer.Types.{
  StreamKeyRegistration, any_key, exact, RegistrationType, RtmpEndpointRequest, remove_registration,
  RtmpEndpointMediaData, RtmpEndpointWatcherNotification, watcher_registration_failed,
  watcher_registration_successful, watcher_requiring_approval, stream_key_became_active,
  stream_key_became_inactive, ValidationResponse, approve, reject,
}
use mmids_core.RtmpSteps.Conversion.{
  MetadataFormat, video_codec_h264_avc, audio_codec_aac_raw, video_data, millis,
}

pub record StreamWatchers : Type 0 where
  pub cancellation_token : Option ℕ

pub record RtmpWatchStep : Type 0 where
  pub port : ℕ
  pub rtmp_app : String
  pub stream_key : StreamKeyRegistration
  pub reactor_name : Option String
  pub status : StepStatus
  pub media_channel : Sender
  pub stream_id_to_name_map : Map StreamId String
  pub stream_watchers : Map String StreamWatchers
  pub is_keyframe_metadata_key : MetadataKey
  pub pts_offset_metadata_key : MetadataKey

pub data RtmpWatchStepFutureResult : Type 0 where
  rtmp_endpoint_gone reactor_manager_gone reactor_gone : RtmpWatchStepFutureResult
  rtmp_watch_notification_received : RtmpEndpointWatcherNotification → RtmpWatchStepFutureResult
  reactor_workflow_response :
      (is_valid : Bool) (validation_channel reactor_update_channel : Sender)
      → RtmpWatchStepFutureResult
  reactor_update_received : String → ReactorWorkflowUpdate → RtmpWatchStepFutureResult
  reactor_receiver_canceled : String → RtmpWatchStepFutureResult
  unknown_type : RtmpWatchStepFutureResult

pub data Effect (C M : Type 0) : Type 0 where
  ask_endpoint : RtmpEndpointRequest C → Effect C M
  send_media : Sender → String → RtmpEndpointMediaData M → Effect C M
  ask_reactor_manager : ReactorManagerRequest → Effect C M
  respond : Sender → ValidationResponse → Effect C M
  wait_for_reactor : (reactor_receiver response_channel : Sender) → Effect C M
  forward_updates : Sender → ℕ → String → Effect C M
  cancel : ℕ → Effect C M

module _ {C M : Type 0} where
  -- `Drop for StreamWatchers`.
  abbrev drop_watchers : Option StreamWatchers → List (Effect C M)
  drop_watchers none = []
  drop_watchers (some w) = elim w.cancellation_token [ none ↦ [] | some token ↦ cancel token ∷ [] ]

  abbrev forward : Option Sender → ℕ → String → List (Effect C M)
  forward none token stream_key = []
  forward (some updates) token stream_key = forward_updates updates token stream_key ∷ []

  unfoldable pub ask_for_approval : RtmpWatchStep → Sender → String → Sender → List (Effect C M)
  ask_for_approval s channel stream_key response_channel = elim s.reactor_name [
    | none ↦ respond response_channel reject ∷ []
    | some name ↦
        ask_reactor_manager (create_workflow_for_stream_name name stream_key channel)
        ∷ wait_for_reactor channel response_channel
        ∷ []
  ]

abbrev token_for : Option Sender → ℕ → Option ℕ
token_for none token = none
token_for (some updates) token = some token

module _ {C M : Type 0} where
  -- `handle_endpoint_notification`; `fresh` is a new channel or token.
  unfoldable pub handle_endpoint_notification :
      RtmpWatchStep → ℕ → RtmpEndpointWatcherNotification → RtmpWatchStep × List (Effect C M)
  unfolding ask_for_approval
  handle_endpoint_notification s fresh watcher_registration_failed =
      (record s { status = StepStatus.error "Registration for watchers failed" }, [])
  handle_endpoint_notification s fresh watcher_registration_successful =
      (record s { status = StepStatus.active }, [])
  handle_endpoint_notification s fresh (stream_key_became_active stream_key updates) = (
    record s {
      stream_watchers =
          insert stream_key (record { cancellation_token = token_for updates fresh })
            s.stream_watchers;
    },
    forward updates fresh stream_key ++ drop_watchers (lookup stream_key s.stream_watchers),
  )
  handle_endpoint_notification s fresh (stream_key_became_inactive stream_key) = (
    record s { stream_watchers = remove stream_key s.stream_watchers },
    drop_watchers (lookup stream_key s.stream_watchers),
  )
  handle_endpoint_notification s fresh (watcher_requiring_approval id stream_key response_channel) =
      (s, ask_for_approval s fresh stream_key response_channel)

-- The name that a stream is offered under.
abbrev offered_name : StreamKeyRegistration → String → String
offered_name any_key stream_name = stream_name
offered_name (exact configured) stream_name = configured

abbrev is_active : StepStatus → Bool
is_active StepStatus.active = true
is_active _ = false

module _ {M : Type 0} where
  -- The data of a payload, if RTMP has its type.
  unfoldable pub payload_data :
      RtmpWatchStep → MediaPayload → Option (Option (RtmpEndpointMediaData M))
  payload_data s m =
      let video = video_data s.is_keyframe_metadata_key s.pts_offset_metadata_key m in
      if m.payload_type == audio_codec_aac_raw
      then some (
          some (
            RtmpEndpointMediaData.new_audio_data m.is_required_for_decoding m.payload
              (millis m.timestamp)))
      else (if m.payload_type == video_codec_h264_avc
          then (video >>= λ d. some (some d))
          else some none)

module _ {C M : Type 0} (format : MetadataFormat M) where
  -- Data for a stream goes out under its name, if it has one.
  unfoldable pub send_to_stream :
      RtmpWatchStep
      → StreamId
      → Option (Option (RtmpEndpointMediaData M))
      → Option (List (Effect C M))
  send_to_stream s id converted = elim (lookup id s.stream_id_to_name_map) [
    | none ↦ some []
    | some stream_key ↦ converted >>= λ media_data. elim media_data [
      | none ↦ some []
      | some d ↦ some (send_media s.media_channel stream_key d ∷ [])
    ]
  ]

  unfoldable pub offer_media :
      RtmpWatchStep
      → StreamId
      → MediaNotificationContent
      → Option (RtmpWatchStep × List (Effect C M))
  unfolding send_to_stream payload_data
  offer_media s id (new_incoming_stream stream_name) = some (
    record s {
      stream_id_to_name_map =
          insert id (offered_name s.stream_key stream_name) s.stream_id_to_name_map;
    },
    [],
  )
  offer_media s id stream_disconnected =
      some (record s { stream_id_to_name_map = remove id s.stream_id_to_name_map }, [])
  offer_media s id (metadata pairs) =
      send_to_stream s id (
        some (
          some
            (RtmpEndpointMediaData.new_stream_metadata (format.hash_map_to_stream_metadata pairs))))
      >>= λ effects. some (s, effects)
  offer_media s id (media_payload m) =
      send_to_stream s id (payload_data s m) >>= λ effects. some (s, effects)

  -- `handle_media`; the media itself goes to the outputs in any case.
  unfoldable pub handle_media :
      RtmpWatchStep → MediaNotification → Option (RtmpWatchStep × List (Effect C M))
  unfolding offer_media
  handle_media s media =
      let offered = offer_media s media.stream_id media.content in
      if is_active s.status then offered else some (s, [])

  unfoldable pub handle_all_media :
      RtmpWatchStep → List MediaNotification → Option (RtmpWatchStep × List (Effect C M))
  unfolding handle_media
  handle_all_media s [] = some (s, [])
  handle_all_media s (media ∷ rest) = do
    (t, effects) ← handle_media s media
    (u, further) ← handle_all_media t rest
    some (u, effects ++ further)

-- How the loop over the notifications goes on, or ends with an error.
pub data Turn (C M : Type 0) : Type 0 where
  goes_on : RtmpWatchStep → List (Effect C M) → Turn C M
  returns : String → Turn C M

module _ {C M : Type 0} where
  abbrev goes : RtmpWatchStep × List (Effect C M) → Turn C M
  goes (s, effects) = goes_on s effects

  unfoldable pub handle_notification : RtmpWatchStep → ℕ → RtmpWatchStepFutureResult → Turn C M
  handle_notification s fresh unknown_type = returns "Received invalid future result type"
  handle_notification s fresh rtmp_endpoint_gone = returns "Rtmp endpoint gone"
  handle_notification s fresh reactor_manager_gone = returns "Reactor manager gone"
  handle_notification s fresh reactor_gone = returns "Reactor gone"
  handle_notification s fresh (rtmp_watch_notification_received notification) =
      goes (handle_endpoint_notification s fresh notification)
  handle_notification s fresh (reactor_workflow_response is_valid channel updates) =
      goes_on s (respond channel (if is_valid then approve updates else reject) ∷ [])
  handle_notification s fresh (reactor_update_received stream_name update) = goes_on s []
  handle_notification s fresh (reactor_receiver_canceled stream_name) =
      goes_on (record s { stream_watchers = remove stream_name s.stream_watchers })
        (drop_watchers (lookup stream_name s.stream_watchers))

  unfoldable pub handle_notifications :
      RtmpWatchStep
      → ℕ
      → List RtmpWatchStepFutureResult
      → (RtmpWatchStep × List (Effect C M)) × Option String
  unfolding handle_notification
  handle_notifications s fresh [] = ((s, []), none)
  handle_notifications s fresh (n ∷ rest) = elim (handle_notification s fresh n) [
    | returns message ↦ ((s, []), some message)
    | goes_on t effects ↦
        let ((u, further), end) = handle_notifications t (fresh + 1) rest in
        ((u, effects ++ further), end)
  ]

-- What `execute` leaves; the outputs are the media of the inputs, or none after an error.
pub record Executed (C M : Type 0) : Type 0 where
  pub step : RtmpWatchStep
  pub outputs : List MediaNotification
  pub effects : List (Effect C M)
  pub status : StepStatus

module _ {C M : Type 0} (format : MetadataFormat M) where
  unfoldable pub execute :
      RtmpWatchStep
      → ℕ
      → List RtmpWatchStepFutureResult
      → List MediaNotification
      → Option (Executed C M)
  unfolding handle_notifications handle_all_media
  execute s fresh notifications media =
      let ((t, effects), end) = handle_notifications s fresh notifications in
      elim end [
        | some message ↦ some (record {
          step = t;
          outputs = [];
          effects = effects;
          status = StepStatus.error message;
        })
        | none ↦ handle_all_media format t media >>= λ handled. some (record {
          step = handled.0;
          outputs = media;
          effects = effects ++ handled.1;
          status = handled.0.status;
        })
      ]

module _ {C M : Type 0} where
  abbrev drop_all : List StreamWatchers → List (Effect C M)
  drop_all [] = []
  drop_all (w ∷ watchers) = drop_watchers (some w) ++ drop_all watchers

  -- `Drop for RtmpWatchStep`, and then for its watchers.
  unfoldable pub drop_step : RtmpWatchStep → List (Effect C M)
  drop_step s =
      ask_endpoint (remove_registration RegistrationType.watcher s.port s.rtmp_app s.stream_key)
      ∷ drop_all (values s.stream_watchers)
