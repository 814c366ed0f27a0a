-- ===== src/RtmpSteps/Receive.antt =====
-- The step that takes in RTMP publishers: `RtmpReceiverStep` of
-- mmids-rtmp/src/workflow_steps/rtmp_receive/mod.rs. A handler returns the step,
-- its outputs and what it did to the outside; `none` is a panic of `unwrap`. A cancellation token is a
-- number; of the messages of a channel that a future waits for, `ReactorWorkflowReturned` is an event.
pub mod Generator
use mmids_core.Common.{
  ℕ, ◌+◌, ◌*◌, String, Bool, Option, none, some, List, [], ◌∷◌, ◌++◌, if◌then◌else◌, nat_eq,
  string_eq, Map, values, lookup, insert, remove, Result, ok, err,
}
use mmids_core.Common.Int.{ℤ}
use mmids_core.Metadata.Buffer.{◌>>=◌}
use mmids_core.Metadata.Types.{MetadataValue}
use mmids_core.Metadata.Keys.{MetadataKey}
use mmids_core.Metadata.Entry.{MetadataEntry, MetadataEntryError, new_entry}
use mmids_core.Metadata.Collection.{new_collection}
use mmids_core.Workflows.Media.{
  StreamId, MediaType, MediaPayload, MediaNotification, new_incoming_stream, stream_disconnected,
  metadata, media_payload,
}
use mmids_core.Workflows.Requests.{Sender}
use mmids_core.Workflows.Steps.{StepStatus}
use mmids_core.Reactors.Reactor.{ReactorWorkflowUpdate}
use mmids_core.Reactors.Manager.{ReactorManagerRequest, create_workflow_for_stream_name}
use mmids_core.RtmpServer.Types.{
  ConnectionId, StreamKeyRegistration, RegistrationType, RtmpEndpointRequest, remove_registration,
  RtmpEndpointPublisherMessage, publisher_registration_failed, publisher_registration_successful,
  publisher_requiring_approval, new_publisher_connected, publishing_stopped,
  stream_metadata_changed, ValidationResponse, approve, reject,
}
use mmids_core.RtmpSteps.Conversion.{MetadataFormat, video_codec_h264_avc, audio_codec_aac_raw}

pub record ConnectionDetails : Type 0 where
  pub stream_id : StreamId
  pub cancellation_token : Option ℕ

pub record RtmpReceiverStep : Type 0 where
  pub port : ℕ
  pub rtmp_app : String
  pub stream_key : StreamKeyRegistration
  pub status : StepStatus
  pub connection_details : Map ConnectionId ConnectionDetails
  pub reactor_name : Option String
  pub is_keyframe_metadata_key : MetadataKey
  pub pts_offset_metadata_key : MetadataKey

-- `unknown_type` is a result that the downcast refuses.
pub data FutureResult (M : Type 0) : Type 0 where
  rtmp_endpoint_dropped_registration reactor_manager_gone reactor_gone : FutureResult M
  rtmp_endpoint_response_received : RtmpEndpointPublisherMessage M → FutureResult M
  reactor_workflow_returned :
      (is_valid : Bool) (reactor_receiver response_channel : Sender) → FutureResult M
  reactor_update_received : ConnectionId → ReactorWorkflowUpdate → FutureResult M
  reactor_cancellation_received unknown_type : FutureResult M

pub data Effect (C : Type 0) : Type 0 where
  ask_endpoint : RtmpEndpointRequest C → Effect C
  ask_reactor_manager : ReactorManagerRequest → Effect C
  respond : Sender → ValidationResponse → Effect C
  wait_for_reactor : (reactor_receiver response_channel : Sender) → Effect C
  forward_updates : Sender → ℕ → ConnectionId → Effect C
  cancel : ℕ → Effect C

pub record Handled (C : Type 0) : Type 0 where
  pub step : RtmpReceiverStep
  pub outputs : List MediaNotification
  pub effects : List (Effect C)

abbrev error_status : String → StepStatus
error_status message = StepStatus.error message

module _ {C : Type 0} where
  -- `Drop for ConnectionDetails`.
  abbrev drop_details : Option ConnectionDetails → List (Effect C)
  drop_details none = []
  drop_details (some d) = elim d.cancellation_token [ none ↦ [] | some token ↦ cancel token ∷ [] ]

  -- A new token, if the publisher comes with the updates of a reactor.
  abbrev forward : Option Sender → ℕ → ConnectionId → List (Effect C)
  forward none token id = []
  forward (some updates) token id = forward_updates updates token id ∷ []

abbrev token_for : Option Sender → ℕ → Option ℕ
token_for none token = none
token_for (some updates) token = some token

abbrev unwrapped : Result MetadataEntry MetadataEntryError → Option MetadataEntry
unwrapped (ok e) = some e
unwrapped (err e) = none

-- What a publisher's video carries into the workflow.
unfoldable pub video_payload : RtmpReceiverStep → Bool → Bool → List ℕ → ℕ → ℤ → Option MediaPayload
video_payload s is_keyframe is_sequence_header data_bytes timestamp offset = do
  is_keyframe_metadata ←
      unwrapped (new_entry s.is_keyframe_metadata_key (MetadataValue.bool is_keyframe))
  pts_offset_metadata ← unwrapped (new_entry s.pts_offset_metadata_key (MetadataValue.i32 offset))
  collection ← new_collection (is_keyframe_metadata ∷ pts_offset_metadata ∷ [])
  some (record {
    media_type = MediaType.video;
    payload_type = video_codec_h264_avc;
    timestamp = timestamp * 1000000;
    metadata = collection;
    payload = data_bytes;
    is_required_for_decoding = is_sequence_header;
  })

unfoldable pub audio_payload : Bool → List ℕ → ℕ → Option MediaPayload
audio_payload is_sequence_header data_bytes timestamp = do
  collection ← new_collection []
  some (record {
    media_type = MediaType.audio;
    payload_type = audio_codec_aac_raw;
    timestamp = timestamp * 1000000;
    metadata = collection;
    payload = data_bytes;
    is_required_for_decoding = is_sequence_header;
  })

module _ {C M : Type 0} (format : MetadataFormat M) where
  -- The arms for media of a publisher: media of a connection that is not known is dropped.
  unfoldable pub pass_media :
      RtmpReceiverStep → ConnectionId → Option MediaPayload → Option (Handled C)
  pass_media s publisher payload = elim (lookup publisher s.connection_details) [
    | none ↦ some (record { step = s; outputs = []; effects = [] })
    | some connection ↦ payload >>= λ p. some (record {
      step = s;
      outputs = record { stream_id = connection.stream_id; content = media_payload p } ∷ [];
      effects = [];
    })
  ]

  unfoldable pub publisher_stopped : RtmpReceiverStep → ConnectionId → Handled C
  publisher_stopped s id = elim (lookup id s.connection_details) [
    | none ↦ record { step = s; outputs = []; effects = [] }
    | some connection ↦ record {
      step = record s { connection_details = remove id s.connection_details };
      outputs = record { stream_id = connection.stream_id; content = stream_disconnected } ∷ [];
      effects = drop_details (some connection);
    }
  ]

  -- A connection's reactor is asked for a workflow; `channel` is new.
  unfoldable pub ask_for_approval : RtmpReceiverStep → Sender → String → Sender → Handled C
  ask_for_approval s channel stream_key response_channel = elim s.reactor_name [
    | none ↦ record { step = s; outputs = []; effects = respond response_channel reject ∷ [] }
    | some name ↦ record {
      step = s;
      outputs = [];
      effects =
          ask_reactor_manager (create_workflow_for_stream_name name stream_key channel)
          ∷ wait_for_reactor channel response_channel
          ∷ [];
    }
  ]

  unfoldable pub metadata_changed : RtmpReceiverStep → ConnectionId → M → Handled C
  metadata_changed s publisher m = elim (lookup publisher s.connection_details) [
    | none ↦ record { step = s; outputs = []; effects = [] }
    | some connection ↦ record {
      step = s;
      outputs =
          record {
            stream_id = connection.stream_id;
            content = metadata (format.stream_metadata_to_hash_map m);
          }
          ∷ [];
      effects = [];
    }
  ]

  -- `handle_rtmp_publisher_message`; `fresh` is a new channel or token.
  unfoldable pub handle_rtmp_publisher_message :
      RtmpReceiverStep → ℕ → RtmpEndpointPublisherMessage M → Option (Handled C)
  unfolding pass_media publisher_stopped ask_for_approval metadata_changed
  handle_rtmp_publisher_message s fresh publisher_registration_failed = some (record {
    step = record s {
      status = error_status "Rtmp receive step failed to register for publish registration";
    };
    outputs = [];
    effects = [];
  })
  handle_rtmp_publisher_message s fresh publisher_registration_successful =
      some (record { step = record s { status = StepStatus.active }; outputs = []; effects = [] })
  handle_rtmp_publisher_message s fresh (new_publisher_connected id stream_id stream_key updates) =
      some (record {
        step = record s {
          connection_details =
              insert id
                (record { stream_id = stream_id; cancellation_token = token_for updates fresh })
                s.connection_details;
        };
        outputs = record { stream_id = stream_id; content = new_incoming_stream stream_key } ∷ [];
        effects = forward updates fresh id ++ drop_details (lookup id s.connection_details);
      })
  handle_rtmp_publisher_message s fresh (publishing_stopped id) = some (publisher_stopped s id)
  handle_rtmp_publisher_message s fresh (stream_metadata_changed publisher m) =
      some (metadata_changed s publisher m)
  handle_rtmp_publisher_message s fresh
        (RtmpEndpointPublisherMessage.new_video_data publisher k h data_bytes timestamp offset) =
      pass_media s publisher (video_payload s k h data_bytes timestamp offset)
  handle_rtmp_publisher_message s fresh
        (RtmpEndpointPublisherMessage.new_audio_data publisher h data_bytes timestamp) =
      pass_media s publisher (audio_payload h data_bytes timestamp)
  handle_rtmp_publisher_message s fresh
        (publisher_requiring_approval id stream_key response_channel) =
      some (ask_for_approval s fresh stream_key response_channel)

-- How the loop of `execute` goes on after a notification, or ends with an error.
pub data Turn (C : Type 0) : Type 0 where
  goes_on : Handled C → Turn C
  returns : String → Turn C
  panics : Turn C

-- What `execute` leaves, the status it returns included.
pub record Executed (C : Type 0) : Type 0 where
  pub handled : Handled C
  pub status : StepStatus

module _ {C : Type 0} where
  abbrev goes : Option (Handled C) → Turn C
  goes none = panics
  goes (some h) = goes_on h

  -- What was done before comes first.
  abbrev first_then : Handled C → Option (Executed C) → Option (Executed C)
  first_then h none = none
  first_then h (some e) = some (record {
    handled = record {
      step = e.handled.step;
      outputs = h.outputs ++ e.handled.outputs;
      effects = h.effects ++ e.handled.effects;
    };
    status = e.status;
  })

module _ {C M : Type 0} (format : MetadataFormat M) where
  unfoldable pub handle_notification : RtmpReceiverStep → ℕ → FutureResult M → Turn C
  unfolding handle_rtmp_publisher_message
  handle_notification s fresh unknown_type =
      returns
        "Rtmp receive step received a notification that is not an 'RtmpReceiveFutureResult' type"
  handle_notification s fresh rtmp_endpoint_dropped_registration =
      returns "Rtmp receive step stopping as the rtmp endpoint dropped the registration"
  handle_notification s fresh reactor_manager_gone = returns "Reactor manager gone"
  handle_notification s fresh reactor_gone = returns "Reactor gone"
  handle_notification s fresh (rtmp_endpoint_response_received message) =
      goes (handle_rtmp_publisher_message format s fresh message)
  handle_notification s fresh (reactor_workflow_returned is_valid updates response_channel) =
      goes_on (record {
        step = s;
        outputs = [];
        effects = respond response_channel (if is_valid then approve updates else reject) ∷ [];
      })
  handle_notification s fresh (reactor_update_received id update) =
      goes_on (record { step = s; outputs = []; effects = [] })
  handle_notification s fresh reactor_cancellation_received =
      goes_on (record { step = s; outputs = []; effects = [] })

  -- `execute` without the media, which this step leaves alone; the numbers from `fresh` on are new.
  unfoldable pub execute : RtmpReceiverStep → ℕ → List (FutureResult M) → Option (Executed C)
  unfolding handle_notification
  execute s fresh [] =
      some (record { handled = record { step = s; outputs = []; effects = [] }; status = s.status })
  execute s fresh (notification ∷ rest) = elim (handle_notification s fresh notification) [
    | goes_on h ↦ first_then h (execute h.step (fresh + 1) rest)
    | returns message ↦ some (record {
      handled = record { step = s; outputs = []; effects = [] };
      status = error_status message;
    })
    | panics ↦ none
  ]

module _ {C : Type 0} where
  abbrev drop_all : List ConnectionDetails → List (Effect C)
  drop_all [] = []
  drop_all (d ∷ details) = drop_details (some d) ++ drop_all details

  -- `Drop for RtmpReceiverStep`, and then for its connections.
  unfoldable pub drop_step : RtmpReceiverStep → List (Effect C)
  drop_step s =
      ask_endpoint (remove_registration RegistrationType.publisher s.port s.rtmp_app s.stream_key)
      ∷ drop_all (values s.connection_details)
