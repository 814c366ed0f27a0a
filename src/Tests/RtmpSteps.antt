-- ===== src/Tests/RtmpSteps.antt =====
-- The theorems on the RTMP workflow steps at concrete inputs.
use mmids_core.Common.{
  ℕ, ◌+◌, String, ◌≡◌, refl, true, false, none, some, List, [], ◌∷◌, ◌++◌, map, arith, nat_eq,
  string_eq, All, Map, lookup, ok,
}
use mmids_core.Common.Int.{negsuc}
use mmids_core.Metadata.Types.{MetadataValueType}
use mmids_core.Metadata.Keys.{MetadataKey, value_type_from_klv_id, type_of_id}
use mmids_core.Workflows.Media.{
  MediaPayload, MediaNotification, MediaNotificationContent, new_incoming_stream, metadata,
  media_payload,
}
use mmids_core.Workflows.Steps.{StepStatus}
use mmids_core.RtmpServer.Types.{
  exact, RtmpEndpointMediaData, RtmpEndpointPublisherMessage, watcher_registration_successful,
}
use mmids_core.RtmpSteps.Conversion.{MetadataFormat, from_media_notification_content}
use mmids_core.RtmpSteps.Receive.{RtmpReceiverStep, handle_rtmp_publisher_message}
use mmids_core.RtmpSteps.RoundTrip.{IsKey, video_round_trip}
use mmids_core.RtmpSteps.Watch.{RtmpWatchStep, rtmp_watch_notification_received, Executed, execute}
use mmids_core.RtmpSteps.Watch.OneKey.{SendsTo, IsFor, Holds, execute-IsFor}
use mmids_core.RtmpSteps.Reader.{
  ExternalStreamHandlers, success, ExternalStreamReader, new_reader, Fresh,
}
use mmids_core.RtmpSteps.Reader.Delivery.{note}
use mmids_core.RtmpSteps.Reader.Life.{life_of_stream, passed, send_all, life_of_stream_lem}

abbrev format : MetadataFormat (Map String String)
format = record { stream_metadata_to_hash_map = λ m. m; hash_map_to_stream_metadata = λ m. m }

abbrev keyframe_key : MetadataKey
keyframe_key = record { klv_id = 36864; value_type = MetadataValueType.bool }

abbrev offset_key : MetadataKey
offset_key = record { klv_id = 28673; value_type = MetadataValueType.i32 }

keyframe_key-IsKey : IsKey keyframe_key MetadataValueType.bool
unfolding value_type_from_klv_id type_of_id
keyframe_key-IsKey = record { of_type = refl; fits = omega arith; tells = refl }

offset_key-IsKey : IsKey offset_key MetadataValueType.i32
unfolding value_type_from_klv_id type_of_id
offset_key-IsKey = record { of_type = refl; fits = omega arith; tells = refl }

abbrev receiver : RtmpReceiverStep
receiver = record {
  port = 1935;
  rtmp_app = "live";
  stream_key = exact "k";
  status = StepStatus.active;
  connection_details = ("c", record { stream_id = "s"; cancellation_token = none }) ∷ [];
  reactor_name = none;
  is_keyframe_metadata_key = keyframe_key;
  pts_offset_metadata_key = offset_key;
}

video_round_trip_example :
    (p : MediaPayload) × (handle_rtmp_publisher_message {C = Unit} format receiver 3
        (RtmpEndpointPublisherMessage.new_video_data "c" true false (1 ∷ 2 ∷ []) 40 (negsuc 9))
      ≡ some (record {
        step = receiver;
        outputs = record { stream_id = "s"; content = media_payload p } ∷ [];
        effects = [];
      }))
    × (from_media_notification_content format keyframe_key offset_key (media_payload p)
        ≡ some (ok (RtmpEndpointMediaData.new_video_data true false (1 ∷ 2 ∷ []) 40 (negsuc 9))))
unfolding lookup
video_round_trip_example =
    video_round_trip format receiver 3 "c" (record { stream_id = "s"; cancellation_token = none })
      true false (1 ∷ 2 ∷ []) 40 (negsuc 9) refl keyframe_key-IsKey offset_key-IsKey (omega arith)
      (omega arith, omega arith)

abbrev watch_step : RtmpWatchStep
watch_step = record {
  port = 1935;
  rtmp_app = "live";
  stream_key = exact "k";
  reactor_name = none;
  status = StepStatus.created;
  media_channel = 4;
  stream_id_to_name_map = [];
  stream_watchers = [];
  is_keyframe_metadata_key = keyframe_key;
  pts_offset_metadata_key = offset_key;
}

watch_step-IsFor : IsFor "k" watch_step
unfolding lookup
watch_step-IsFor = record { registered_for = refl; offers = λ id name e. cc }

abbrev watched_media : List MediaNotification
watched_media =
    record { stream_id = "s"; content = new_incoming_stream "other" }
    ∷ record { stream_id = "s"; content = metadata [] }
    ∷ []

execute-IsFor_example :
    Holds
      (λ (e : Executed Unit (Map String String)). IsFor "k" e.step × All (SendsTo "k") e.effects)
      (execute format watch_step 0
        (rtmp_watch_notification_received watcher_registration_successful ∷ [])
        watched_media)
execute-IsFor_example =
    execute-IsFor Unit format "k" watch_step 0
      (rtmp_watch_notification_received watcher_registration_successful ∷ []) watched_media
      watch_step-IsFor

-- A handler that counts how often its stream was prepared.
abbrev handlers : ExternalStreamHandlers ℕ Unit
handlers = record {
  generate = λ id. 0;
  prepare_stream = λ n name. n + 1;
  stop_stream = λ n. 0;
  handle_resolved_future = λ n f. (n, success);
}

abbrev reader : ExternalStreamReader ℕ
reader = new_reader "app" keyframe_key offset_key

abbrev channels : Fresh
channels = record { media_channel = 5; watch_channel = 6 }

abbrev before : List MediaNotificationContent
before = metadata [] ∷ []

abbrev after : List MediaNotificationContent
after = metadata (("width", "80") ∷ []) ∷ []

life_of_stream_lem_example :
    life_of_stream {C = Unit} handlers format reader channels "s" "name" before after
    ≡ passed handlers format reader channels "s" "name"
        (note "s" (new_incoming_stream "name") ∷ map (note "s") before ++ map (note "s") after)
        (send_all handlers format reader channels "s" "name" (before ++ after))
unfolding lookup new_reader
life_of_stream_lem_example =
    life_of_stream_lem handlers format reader channels "s" "name" before after (tt, tt) (tt, tt)
      refl
