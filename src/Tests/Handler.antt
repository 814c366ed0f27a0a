-- ===== src/Tests/Handler.antt =====
-- The theorems on the handler of an RTMP connection at concrete inputs.
use mmids_core.Common.{
  ℕ, zero, suc, ◌+◌, ◌*◌, ◌/◌, ◌%◌, ◌^◌, ◌≤◌, ◌≡◌, refl, ◌↔◌, true, false, ◌&&◌, none, some, List,
  [], ◌∷◌, arith, ltb, leb, if◌then◌else◌, nat_eq, string_eq, length, is_some, ok, All,
}
use mmids_core.Common.Int.{
  ℤ, pos, negsuc, pos_part, neg_part, to_word, of_word, of_word-to_word, to_word-lt,
}
use mmids_core.Metadata.Buffer.{◌>>=◌}
use mmids_core.RtmpServer.Types.{
  new_video_data, app_connect_request_accepted, publish_request_accepted, request_connect_to_app,
  request_publish, RtmpEndpointPublisherMessage,
}
use mmids_core.RtmpServer.Handler.{
  publishing, live_mode, OutboundPacket, connection_requested, publish_stream_requested,
  video_data_received, ServerSessionResult, raised_event, completed, RtmpLibrary,
  RtmpServerConnectionHandler, FutureResult, response_received, bytes_received,
  watched_media_received, disconnected, packet, Effect, send_packet, send_request, send_event,
}
use mmids_core.RtmpServer.Handler.Flv.{
  Int24, IsExact, unwrap_video_from_flv, wrap_video_into_flv, unwrap_audio_from_flv,
  wrap_audio_into_flv, unwrap-wrap,
}
use mmids_core.RtmpServer.Handler.Events.{
  handle_rtmp_results, handle_result, handle_event, handle_rtmp_event_connection_requested,
  handle_rtmp_event_publish_stream_requested, handle_rtmp_event_video_data_received,
}
use mmids_core.RtmpServer.Handler.Loop.{
  new_handler, run_async, go_on, start, run_loop, handle, handle_bytes, handle_endpoint_response,
  handle_endpoint_app_connect_request_accepted, handle_endpoint_publish_request_accepted,
  handle_media_from_endpoint,
}
use mmids_core.RtmpServer.Handler.Ready.{ResultIsReadable}
use mmids_core.RtmpServer.Handler.Raised.{raised, raised_in_run}
use mmids_core.RtmpServer.Handler.Turns.{outside}
use mmids_core.RtmpServer.Handler.InTurn.{InTurn, run_async-InTurn}
use mmids_core.RtmpServer.Handler.Panics.{video_panics, run_async-is_some}

-- Three bytes, the highest first.
abbrev word : ℤ → ℕ
word z = to_word (2 ^ 24) z

abbrev bytes_of : ℤ → List ℕ
bytes_of z = (word z / 65536) ∷ (word z / 256 % 256) ∷ (word z % 256) ∷ []

abbrev int24 : Int24
int24 = record {
  write_i24 = λ z.
      if ltb (pos_part z) (2 ^ 23) && leb (neg_part z) (2 ^ 23) then some (bytes_of z) else none;
  read_i24 = λ x y z. of_word (2 ^ 24) (x * 65536 + y * 256 + z);
}

int24-IsExact : IsExact int24
int24-IsExact = record {
  first = λ z. word z / 65536;
  second = λ z. word z / 256 % 256;
  third = λ z. word z % 256;
  writes = λ z fits. ground arith;
  reads = λ z fits.
      let small = to_word-lt (2 ^ 24) z (omega arith) in
      let joined : word z / 65536 * 65536 + word z / 256 % 256 * 256 + word z % 256 ≡ word z =
        omega arith in
      rw joined (of_word-to_word (2 ^ 24) z (omega arith) refl fits);
}

abbrev sound : List ℕ
sound = 5 ∷ 6 ∷ []

unwrap-wrap_example :
    ((wrap_video_into_flv int24 sound true false (negsuc 2) >>= unwrap_video_from_flv int24)
      ≡ some (
          ok (record {
            is_keyframe = true;
            is_sequence_header = false;
            data_bytes = sound;
            composition_time_in_ms = negsuc 2;
          })))
    × (unwrap_audio_from_flv (wrap_audio_into_flv sound false)
        ≡ ok (record { is_sequence_header = false; data_bytes = sound }))
unwrap-wrap_example =
    unwrap-wrap int24 sound true false (negsuc 2) int24-IsExact (omega arith, omega arith)

-- A session that raises a connection, a publisher and a video, one for each input, and from then on
-- videos of two bytes.
abbrev script : ℕ → List (ServerSessionResult ℕ)
script zero = raised_event (connection_requested 4 "live") ∷ []
script (suc zero) = raised_event (publish_stream_requested 5 "live" "k" live_mode) ∷ []
script (suc (suc zero)) =
    raised_event (video_data_received "live" "k" (0x17 ∷ 1 ∷ 0 ∷ 0 ∷ 3 ∷ 9 ∷ []) 40) ∷ []
script (suc (suc (suc n))) = raised_event (video_data_received "live" "k" (0x17 ∷ 1 ∷ []) 80) ∷ []

abbrev sent : OutboundPacket
sent = packet []

abbrev library : RtmpLibrary Unit ℕ ℕ
library = record {
  generate_outbound_p0_and_p1 = λ h. some (h, 3 ∷ []);
  process_bytes = λ h bytes. some (h, completed (4 ∷ []) bytes);
  new_session = some (0, []);
  handle_input = λ n bytes. some (suc n, script n);
  accept_request = λ n id. some (n, []);
  send_metadata = λ n id metadata. some (n, sent);
  send_video_data = λ n id data_bytes timestamp can_be_dropped. some (n, sent);
  send_audio_data = λ n id data_bytes timestamp can_be_dropped. some (n, sent);
}

abbrev inputs : List (FutureResult ℕ)
inputs =
    bytes_received (1 ∷ [])
    ∷ response_received app_connect_request_accepted
    ∷ bytes_received (2 ∷ [])
    ∷ response_received (publish_request_accepted 7)
    ∷ bytes_received (3 ∷ [])
    ∷ watched_media_received (new_video_data true false sound 0 (pos 40))
    ∷ disconnected
    ∷ []

-- The run ends before the first short video.
inputs_readable : All ResultIsReadable (raised_in_run library int24 (new_handler "c" tt) inputs)
unfolding raised_in_run raised new_handler start handle handle_bytes handle_endpoint_response
    handle_endpoint_app_connect_request_accepted handle_endpoint_publish_request_accepted
    handle_media_from_endpoint handle_rtmp_results handle_result handle_event
    handle_rtmp_event_connection_requested handle_rtmp_event_publish_stream_requested
    handle_rtmp_event_video_data_received unwrap_video_from_flv
inputs_readable = (tt, (tt, ((λ h. omega arith), tt)))

run_async-is_some_example : is_some (run_async library int24 (new_handler "c" tt) inputs) ≡ true
run_async-is_some_example =
    run_async-is_some library int24 "c" tt inputs int24-IsExact
      (tt, (tt, (tt, (tt, (tt, ((omega arith, omega arith), (tt, tt))))))) inputs_readable

abbrev publisher : RtmpServerConnectionHandler Unit ℕ
publisher = record {
  id = "c";
  state = publishing "live" "k";
  handshake = tt;
  rtmp_session = some 3;
  force_disconnect = false;
  published_event_channel = some 7;
}

abbrev short_video : List ℕ
short_video = 0x17 ∷ 0 ∷ []

video_panics_example :
    (handle_event {M = ℕ} int24 publisher (video_data_received "live" "k" short_video 40) ≡ none)
    ↔ ((2 ≤ length short_video) × (length short_video ≤ 4))
video_panics_example = video_panics int24 publisher "live" "k" short_video 40 refl refl

-- What the run of the inputs sends.
abbrev sent_effects : List (Effect ℕ)
sent_effects =
    send_packet (packet (3 ∷ []))
    ∷ send_packet (packet (4 ∷ []))
    ∷ send_request (request_connect_to_app "live")
    ∷ send_request (request_publish "live" "k")
    ∷ send_event 7 (RtmpEndpointPublisherMessage.new_video_data "c" true false (9 ∷ []) 40 (pos 3))
    ∷ []

inputs_sent : run_async library int24 (new_handler "c" tt) inputs ≡ some sent_effects
unfolding run_async new_handler go_on start run_loop handle handle_bytes handle_endpoint_response
    handle_endpoint_app_connect_request_accepted handle_endpoint_publish_request_accepted
    handle_media_from_endpoint handle_rtmp_results handle_result handle_event
    handle_rtmp_event_connection_requested handle_rtmp_event_publish_stream_requested
    handle_rtmp_event_video_data_received unwrap_video_from_flv
inputs_sent = refl

run_async-InTurn_example : InTurn outside sent_effects
run_async-InTurn_example = run_async-InTurn library int24 "c" tt inputs sent_effects inputs_sent

-- A session that raises another connection once its stream is published, and then a publisher of
-- another stream key.
abbrev restless_script : ℕ → List (ServerSessionResult ℕ)
restless_script zero = raised_event (connection_requested 4 "live") ∷ []
restless_script (suc zero) = raised_event (publish_stream_requested 5 "live" "k" live_mode) ∷ []
restless_script (suc (suc zero)) = raised_event (connection_requested 6 "live") ∷ []
restless_script (suc (suc (suc n))) =
    raised_event (publish_stream_requested 7 "live" "k2" live_mode) ∷ []

abbrev restless : RtmpLibrary Unit ℕ ℕ
restless = record library { handle_input = λ n bytes. some (suc n, restless_script n) }

-- It asks to publish twice, and does not say in between that it has finished.
publishes_twice :
    run_async restless int24 (new_handler "c" tt) (
      bytes_received (1 ∷ [])
      ∷ response_received app_connect_request_accepted
      ∷ bytes_received (2 ∷ [])
      ∷ response_received (publish_request_accepted 8)
      ∷ bytes_received (3 ∷ [])
      ∷ response_received app_connect_request_accepted
      ∷ bytes_received (4 ∷ [])
      ∷ [])
    ≡ some (
        send_packet (packet (3 ∷ []))
        ∷ send_packet (packet (4 ∷ []))
        ∷ send_request (request_connect_to_app "live")
        ∷ send_request (request_publish "live" "k")
        ∷ send_request (request_connect_to_app "live")
        ∷ send_request (request_publish "live" "k2")
        ∷ [])
unfolding run_async new_handler go_on start run_loop handle handle_bytes handle_endpoint_response
    handle_endpoint_app_connect_request_accepted handle_endpoint_publish_request_accepted
    handle_rtmp_results handle_result handle_event handle_rtmp_event_connection_requested
    handle_rtmp_event_publish_stream_requested
publishes_twice = refl
