-- ===== src/RtmpServer/Handler/InStep.antt =====
-- What a connection has asked for agrees with the state of its handler, whatever the session, the
-- endpoint and the media bring: mmids-rtmp/src/rtmp_server/actor/connection_handler.rs.
use mmids_core.Common.{ℕ, ◌≡◌, refl, Option, none, some, List, [], ◌∷◌, arith, nat_eq, string_eq}
use mmids_core.Metadata.Buffer.{◌>>=◌}
use mmids_core.Workflows.Requests.{Sender}
use mmids_core.RtmpServer.Types.{
  RtmpEndpointMediaData, ConnectionResponse, request_rejected, app_connect_request_accepted,
  publish_request_accepted, watch_request_accepted, disconnect,
}
use mmids_core.RtmpServer.Handler.{
  ConnectionState, handshaking, rtmp_session_active, requested_app_connection, connected_to_app,
  requested_publishing, publishing, requested_watch, watching, OutboundPacket, ServerSessionResult,
  outbound_response, raised_event, unhandleable_message_received, connection_requested, live_mode,
  other_mode, publish_stream_requested, stream_metadata_changed, video_data_received,
  audio_data_received, play_stream_requested, publish_stream_finished, play_stream_finished,
  other_event, RtmpLibrary, RtmpServerConnectionHandler, receive_media_of, forced, packet,
}
use mmids_core.RtmpServer.Handler.Flv.{Int24}
use mmids_core.RtmpServer.Handler.Events.{
  handle_rtmp_event_play_finished, handle_rtmp_event_publish_finished,
  handle_rtmp_event_play_stream_requested, handle_rtmp_event_publish_stream_requested,
  handle_rtmp_event_connection_requested, handle_rtmp_event_audio_data_received,
  handle_rtmp_event_video_data_received, handle_rtmp_event_stream_metadata_changed, handle_event,
  handle_result, handle_rtmp_results,
}
use mmids_core.RtmpServer.Handler.Loop.{
  accept_or_end, accepted, handle_endpoint_app_connect_request_accepted,
  handle_endpoint_publish_request_accepted, handle_endpoint_watch_request_accepted,
  handle_endpoint_response, packet_of, send_or_end, handle_media_from_endpoint,
}
use mmids_core.RtmpServer.Handler.Turns.{
  Turn, IsFree, follow, follow-Runs, Fits, InStep, handle_result-InStep,
}
use mmids_core.RtmpServer.Handler.Leaves.{Leaves, Leaves-bind, Leaves-any, Runs-value}

-- The connection is in no app, and has asked for one at most.
abbrev pub IsEarly : ConnectionState → Type 0
IsEarly handshaking = Unit
IsEarly (requested_app_connection app id) = Unit
IsEarly rtmp_session_active = ⊥
IsEarly (connected_to_app app) = ⊥
IsEarly (requested_publishing app key id) = ⊥
IsEarly (publishing app key) = ⊥
IsEarly (requested_watch app key id stream) = ⊥
IsEarly (watching app key stream) = ⊥

pub IsEarly-IsFree :
    (state : ConnectionState) (turn : Turn) → IsEarly state → Fits state turn → IsFree turn
IsEarly-IsFree handshaking turn early fits = fits
IsEarly-IsFree (requested_app_connection app id) turn early fits = rw fits tt
IsEarly-IsFree rtmp_session_active turn early fits = elim early [ ]
IsEarly-IsFree (connected_to_app app) turn early fits = elim early [ ]
IsEarly-IsFree (requested_publishing app key id) turn early fits = elim early [ ]
IsEarly-IsFree (publishing app key) turn early fits = elim early [ ]
IsEarly-IsFree (requested_watch app key id stream) turn early fits = elim early [ ]
IsEarly-IsFree (watching app key stream) turn early fits = elim early [ ]

module _ {H S M : Type 0} (b : Int24) where
  handle_result-IsEarly :
      (s : RtmpServerConnectionHandler H S) (result : ServerSessionResult M)
      → IsEarly s.state
      → Leaves (λ handled. IsEarly handled.0.state) (handle_result b s result)
  unfolding handle_result handle_event handle_rtmp_event_play_finished
      handle_rtmp_event_publish_finished handle_rtmp_event_play_stream_requested
      handle_rtmp_event_publish_stream_requested handle_rtmp_event_connection_requested
      handle_rtmp_event_audio_data_received handle_rtmp_event_video_data_received
      handle_rtmp_event_stream_metadata_changed
  handle_result-IsEarly s (outbound_response packet) early = early
  handle_result-IsEarly s unhandleable_message_received early = early
  handle_result-IsEarly s (raised_event (connection_requested id app)) early = tt
  handle_result-IsEarly s (raised_event (publish_stream_requested id app key live_mode)) early =
      ground arith
  handle_result-IsEarly s (raised_event (publish_stream_requested id app key other_mode)) early =
      early
  handle_result-IsEarly s (raised_event (stream_metadata_changed app key metadata)) early =
      ground arith
  handle_result-IsEarly s (raised_event (video_data_received app key data_bytes timestamp)) early =
      ground arith
  handle_result-IsEarly s (raised_event (audio_data_received app key data_bytes timestamp)) early =
      ground arith
  handle_result-IsEarly s (raised_event (play_stream_requested app key stream id)) early =
      ground arith
  handle_result-IsEarly s (raised_event (publish_stream_finished app key)) early = ground arith
  handle_result-IsEarly s (raised_event (play_stream_finished app key)) early = ground arith
  handle_result-IsEarly s (raised_event other_event) early = early

module _ {H S M : Type 0} (b : Int24) where
  pub handle_rtmp_results-InStep :
      (s : RtmpServerConnectionHandler H S) (results : List (ServerSessionResult M)) (turn : Turn)
      → Fits s.state turn
      → Leaves (InStep turn) (handle_rtmp_results b s results)
  unfolding handle_rtmp_results
  handle_rtmp_results-InStep s [] turn fits = fits
  handle_rtmp_results-InStep s (result ∷ results) turn fits =
      Leaves-bind (InStep turn) (InStep turn) (handle_result b s result) _
        (handle_result-InStep b turn s result fits)
        (λ handled step.
          let v = Runs-value (Fits handled.0.state) (follow turn handled.1) step in
          Leaves-bind (InStep v.0) (InStep turn) (handle_rtmp_results b handled.0 results) _
            (handle_rtmp_results-InStep handled.0 results v.0 v.2)
            (λ rest step'.
              follow-Runs (λ t. t ≡ v.0) (Fits rest.0.state) turn handled.1 rest.1 (rw v.1 refl)
                (λ t e. rw e step')))

  -- Before a connection is in an app.
  pub handle_rtmp_results-IsEarly :
      (s : RtmpServerConnectionHandler H S) (results : List (ServerSessionResult M))
      → IsEarly s.state
      → Leaves (λ handled. IsEarly handled.0.state) (handle_rtmp_results b s results)
  unfolding handle_rtmp_results
  handle_rtmp_results-IsEarly s [] early = early
  handle_rtmp_results-IsEarly s (result ∷ results) early =
      Leaves-bind (λ handled. IsEarly handled.0.state) (λ handled. IsEarly handled.0.state)
        (handle_result b s result) _ (handle_result-IsEarly b s result early)
        (λ handled early'.
          Leaves-bind (λ rest. IsEarly rest.0.state) (λ handled. IsEarly handled.0.state)
            (handle_rtmp_results b handled.0 results) _
            (handle_rtmp_results-IsEarly handled.0 results early') (λ rest early''. early''))

module _ {H S M : Type 0} (lib : RtmpLibrary H S M) (b : Int24) (turn : Turn) where
  accept_or_end-InStep :
      (s next : RtmpServerConnectionHandler H S) (o : Option (S × List (ServerSessionResult M)))
      → Fits s.state turn
      → Fits next.state turn
      → Leaves (InStep turn) (accept_or_end lib b s next o)
  accept_or_end-InStep s next none fits fits' = fits
  accept_or_end-InStep s next (some (session, results)) fits fits' =
      handle_rtmp_results-InStep b (record next { rtmp_session = some session }) results turn fits'

  accepted-InStep :
      (s : RtmpServerConnectionHandler H S) (id : ℕ) (next : RtmpServerConnectionHandler H S)
      → Fits s.state turn
      → Fits next.state turn
      → Leaves (InStep turn) (accepted lib b s id next)
  unfolding accepted
  accepted-InStep s id next fits fits' =
      Leaves-bind (λ session. Unit {0}) (InStep turn) s.rtmp_session
        (λ session. accept_or_end lib b s next (lib.accept_request session id))
        (Leaves-any s.rtmp_session)
        (λ session _. accept_or_end-InStep s next (lib.accept_request session id) fits fits')

  app_connect_accepted-InStep :
      (s : RtmpServerConnectionHandler H S)
      → Fits s.state turn
      → Leaves (InStep turn) (handle_endpoint_app_connect_request_accepted lib b s)
  unfolding handle_endpoint_app_connect_request_accepted
  app_connect_accepted-InStep s fits =
      elim s.state
          as (λ state.
            Fits state turn
            → Leaves (InStep {H = H} {S = S} {M = M} turn) (elim state [
              | requested_app_connection app id ↦
                  accepted lib b s id (record s { state = connected_to_app app })
              | _ ↦ some (s, [])
            ])) [
              | requested_app_connection app id ↦
                  accepted-InStep s id (record s { state = connected_to_app app }) fits
              | _ ↦ λ f. fits
            ]
        fits

  publish_accepted-InStep :
      (s : RtmpServerConnectionHandler H S) (channel : Sender)
      → Fits s.state turn
      → Leaves (InStep turn) (handle_endpoint_publish_request_accepted lib b s channel)
  unfolding handle_endpoint_publish_request_accepted
  publish_accepted-InStep s channel fits =
      elim s.state
          as (λ state.
            Fits state turn
            → Leaves (InStep {H = H} {S = S} {M = M} turn) (elim state [
              | requested_publishing app key id ↦
                  accepted lib b s id (record s {
                    published_event_channel = some channel;
                    state = publishing app key;
                  })
              | _ ↦ some (forced {M = M} s)
            ])) [
              | requested_publishing app key id ↦
                  accepted-InStep s id
                    (record s {
                      published_event_channel = some channel;
                      state = publishing app key;
                    })
                    fits
              | _ ↦ λ f. fits
            ]
        fits

  watch_accepted-InStep :
      (s : RtmpServerConnectionHandler H S) (channel : Sender)
      → Fits s.state turn
      → Leaves (InStep turn) (handle_endpoint_watch_request_accepted lib b s channel)
  unfolding handle_endpoint_watch_request_accepted
  watch_accepted-InStep s channel fits =
      elim s.state
          as (λ state.
            Fits state turn
            → Leaves (InStep turn) (
                elim state [
                  | requested_watch app key id stream ↦
                      accepted lib b s id (record s { state = watching app key stream })
                  | _ ↦ some (forced {M = M} s)
                ]
                >>= λ handled. some (handled.0, receive_media_of channel ∷ handled.1))) [
                  | requested_watch app key id stream ↦ λ f.
                      Leaves-bind (InStep turn) (InStep turn)
                        (accepted lib b s id (record s { state = watching app key stream }))
                        (λ handled. some (handled.0, receive_media_of channel ∷ handled.1))
                        (accepted-InStep s id (record s { state = watching app key stream }) fits f)
                        (λ handled step. step)
                  | _ ↦ λ f. fits
                ]
        fits

  pub response-InStep :
      (s : RtmpServerConnectionHandler H S) (response : ConnectionResponse)
      → Fits s.state turn
      → Leaves (InStep turn) (handle_endpoint_response lib b s response)
  unfolding handle_endpoint_response
  response-InStep s request_rejected fits = fits
  response-InStep s disconnect fits = fits
  response-InStep s app_connect_request_accepted fits = app_connect_accepted-InStep s fits
  response-InStep s (publish_request_accepted channel) fits = publish_accepted-InStep s channel fits
  response-InStep s (watch_request_accepted channel) fits = watch_accepted-InStep s channel fits

  send_or_end-InStep :
      (s : RtmpServerConnectionHandler H S) (sent : Option (S × OutboundPacket))
      → Fits s.state turn
      → InStep turn (send_or_end lib b s sent)
  send_or_end-InStep s none fits = fits
  send_or_end-InStep s (some (session, outbound)) fits = fits

  pub media-InStep :
      (s : RtmpServerConnectionHandler H S) (media : RtmpEndpointMediaData M)
      → Fits s.state turn
      → Leaves (InStep turn) (handle_media_from_endpoint lib b s media)
  unfolding handle_media_from_endpoint
  media-InStep s media fits =
      elim s.state
        as (λ state. Leaves (InStep {H = H} {S = S} {M = M} turn) (elim state [
          | watching app key stream ↦ s.rtmp_session >>= λ session.
              packet_of lib b session stream media >>= λ sent. some (send_or_end lib b s sent)
          | _ ↦ some (s, [])
        ])) [
          | watching app key stream ↦
              Leaves-bind (λ session. Unit {0}) (InStep turn) s.rtmp_session _
                (Leaves-any s.rtmp_session)
                (λ session _.
                  Leaves-bind (λ sent. Unit {0}) (InStep turn)
                    (packet_of lib b session stream media) _
                    (Leaves-any (packet_of lib b session stream media))
                    (λ sent _. send_or_end-InStep s sent fits))
          | _ ↦ fits
        ]
