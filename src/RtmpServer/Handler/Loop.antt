-- ===== src/RtmpServer/Handler/Loop.antt =====
-- The loop of the handler of a connection, and what it does with bytes, with the answers of the endpoint
-- and with media to watch: mmids-rtmp/src/rtmp_server/actor/connection_handler.rs.
use mmids_core.Common.{
  ℕ, false, not, Option, none, some, List, [], ◌∷◌, ◌++◌, if◌then◌else◌, nat_eq, string_eq,
}
use mmids_core.Metadata.Buffer.{◌>>=◌}
use mmids_core.Workflows.Requests.{Sender}
use mmids_core.RtmpServer.Types.{
  ConnectionId, RtmpEndpointMediaData, new_stream_metadata, new_video_data, new_audio_data,
  ConnectionResponse, request_rejected, app_connect_request_accepted, publish_request_accepted,
  watch_request_accepted, disconnect,
}
use mmids_core.RtmpServer.Handler.{
  handshaking, rtmp_session_active, requested_app_connection, connected_to_app,
  requested_publishing, publishing, requested_watch, watching, OutboundPacket, ServerSessionResult,
  HandshakeProcessResult, in_progress, completed, RtmpLibrary, RtmpServerConnectionHandler,
  FutureResult, response_received, bytes_received, watched_media_received, disconnected,
  rtmp_server_endpoint_gone, Effect, send_packet, receive_media_of, forced, packet,
}
use mmids_core.RtmpServer.Handler.Flv.{Int24, wrap_video_into_flv, wrap_audio_into_flv}
use mmids_core.RtmpServer.Handler.Events.{handle_rtmp_results}

-- A round of the loop: it goes on, or ends once this is sent.
pub data Round (H S M : Type 0) : Type 0 where
  goes_on : RtmpServerConnectionHandler H S → List (Effect M) → Round H S M
  ends : List (Effect M) → Round H S M

module _ {H S : Type 0} where
  -- `new`.
  unfoldable pub new_handler : ConnectionId → H → RtmpServerConnectionHandler H S
  new_handler id handshake = record {
    id = id;
    state = handshaking;
    handshake = handshake;
    rtmp_session = none;
    force_disconnect = false;
    published_event_channel = none;
  }

module _ {H S M : Type 0} where
  -- The test behind each round.
  unfoldable pub after_round : RtmpServerConnectionHandler H S × List (Effect M) → Round H S M
  after_round (s, effects) = if s.force_disconnect then ends effects else goes_on s effects

  -- What is sent from here on, by `next` if the loop goes on.
  unfoldable pub go_on :
      Round H S M
      → (RtmpServerConnectionHandler H S → Option (List (Effect M)))
      → Option (List (Effect M))
  go_on (ends effects) next = some effects
  go_on (goes_on s effects) next = next s >>= λ rest. some (effects ++ rest)

module _ {H S M : Type 0} (lib : RtmpLibrary H S M) (b : Int24) where
  -- What `run_async` does before its loop.
  unfoldable pub start : RtmpServerConnectionHandler H S → Round H S M
  start s = elim (lib.generate_outbound_p0_and_p1 s.handshake) [
    | none ↦ ends []
    | some (h, p0_and_p1) ↦
        goes_on (record s { handshake = h }) (send_packet (packet p0_and_p1) ∷ [])
  ]

  -- The session has accepted a request, and the connection is in its next state; or it has not.
  abbrev pub accept_or_end :
      RtmpServerConnectionHandler H S
      → RtmpServerConnectionHandler H S
      → Option (S × List (ServerSessionResult M))
      → Option (RtmpServerConnectionHandler H S × List (Effect M))
  accept_or_end s next none = some (forced s)
  accept_or_end s next (some (session, results)) =
      handle_rtmp_results b (record next { rtmp_session = some session }) results

  unfoldable pub accepted :
      RtmpServerConnectionHandler H S
      → ℕ
      → RtmpServerConnectionHandler H S
      → Option (RtmpServerConnectionHandler H S × List (Effect M))
  accepted s request_id next =
      s.rtmp_session >>= λ session. accept_or_end s next (lib.accept_request session request_id)

  unfoldable pub handle_endpoint_app_connect_request_accepted :
      RtmpServerConnectionHandler H S → Option (RtmpServerConnectionHandler H S × List (Effect M))
  unfolding accepted
  handle_endpoint_app_connect_request_accepted s = elim s.state [
    | requested_app_connection rtmp_app request_id ↦
        accepted s request_id (record s { state = connected_to_app rtmp_app })
    | _ ↦ some (s, [])
  ]

  unfoldable pub handle_endpoint_publish_request_accepted :
      RtmpServerConnectionHandler H S
      → Sender
      → Option (RtmpServerConnectionHandler H S × List (Effect M))
  unfolding accepted
  handle_endpoint_publish_request_accepted s channel = elim s.state [
    | requested_publishing rtmp_app stream_key request_id ↦ accepted s request_id (record s {
      published_event_channel = some channel;
      state = publishing rtmp_app stream_key;
    })
    | _ ↦ some (forced s)
  ]

  -- The media is waited for whatever the state.
  unfoldable pub handle_endpoint_watch_request_accepted :
      RtmpServerConnectionHandler H S
      → Sender
      → Option (RtmpServerConnectionHandler H S × List (Effect M))
  unfolding accepted
  handle_endpoint_watch_request_accepted s media_channel =
      elim s.state [
        | requested_watch rtmp_app stream_key request_id stream_id ↦
            accepted s request_id (record s { state = watching rtmp_app stream_key stream_id })
        | _ ↦ some (forced s)
      ]
      >>= λ handled. some (handled.0, receive_media_of media_channel ∷ handled.1)

  unfoldable pub handle_endpoint_response :
      RtmpServerConnectionHandler H S
      → ConnectionResponse
      → Option (RtmpServerConnectionHandler H S × List (Effect M))
  handle_endpoint_response s request_rejected = some (forced s)
  handle_endpoint_response s app_connect_request_accepted =
      handle_endpoint_app_connect_request_accepted s
  handle_endpoint_response s (publish_request_accepted channel) =
      handle_endpoint_publish_request_accepted s channel
  handle_endpoint_response s (watch_request_accepted channel) =
      handle_endpoint_watch_request_accepted s channel
  handle_endpoint_response s disconnect = some (forced s)

  -- What the session makes of media, in FLV tags; a panic if the offset does not fit into them.
  unfoldable pub packet_of : S → ℕ → RtmpEndpointMediaData M → Option (Option (S × OutboundPacket))
  packet_of session stream_id (new_stream_metadata metadata) =
      some (lib.send_metadata session stream_id metadata)
  packet_of session stream_id
        (new_video_data is_keyframe is_sequence_header data_bytes timestamp offset) =
      do
        flv_video ← wrap_video_into_flv b data_bytes is_keyframe is_sequence_header offset
        some (lib.send_video_data session stream_id flv_video timestamp (not is_keyframe))
  packet_of session stream_id (new_audio_data is_sequence_header data_bytes timestamp) = some (
      lib.send_audio_data session stream_id (wrap_audio_into_flv data_bytes is_sequence_header)
        timestamp is_sequence_header)

  abbrev pub send_or_end :
      RtmpServerConnectionHandler H S
      → Option (S × OutboundPacket)
      → RtmpServerConnectionHandler H S × List (Effect M)
  send_or_end s none = forced s
  send_or_end s (some (session, outbound)) =
      (record s { rtmp_session = some session }, send_packet outbound ∷ [])

  unfoldable pub handle_media_from_endpoint :
      RtmpServerConnectionHandler H S
      → RtmpEndpointMediaData M
      → Option (RtmpServerConnectionHandler H S × List (Effect M))
  unfolding packet_of
  handle_media_from_endpoint s media_data = elim s.state [
    | watching rtmp_app stream_key stream_id ↦ s.rtmp_session >>= λ session.
        packet_of session stream_id media_data >>= λ sent. some (send_or_end s sent)
    | _ ↦ some (s, [])
  ]

  -- The session has read bytes, behind what was sent before.
  abbrev pub read_or_end :
      RtmpServerConnectionHandler H S
      → List (Effect M)
      → Option (S × List (ServerSessionResult M))
      → Option (Round H S M)
  read_or_end s sent none = some (ends sent)
  read_or_end s sent (some (session, results)) =
      handle_rtmp_results b (record s { rtmp_session = some session }) results >>= λ handled.
      some (after_round (handled.0, sent ++ handled.1))

  unfoldable pub handle_input_of :
      RtmpServerConnectionHandler H S → List ℕ → List (Effect M) → Option (Round H S M)
  handle_input_of s bytes sent =
      s.rtmp_session >>= λ session. read_or_end s sent (lib.handle_input session bytes)

  -- The handshake is done: the events of the new session are handled before its state is set.
  unfoldable pub start_session :
      RtmpServerConnectionHandler H S
      → List ℕ
      → List (Effect M)
      → Option (S × List (ServerSessionResult M))
      → Option (Round H S M)
  unfolding handle_input_of
  start_session s remaining_bytes sent none = some (ends sent)
  start_session s remaining_bytes sent (some (session, results)) =
      handle_rtmp_results b (record s { rtmp_session = some session }) results >>= λ handled.
      handle_input_of (record handled.0 { state = rtmp_session_active }) remaining_bytes
        (sent ++ handled.1)

  unfoldable pub handle_handshake :
      RtmpServerConnectionHandler H S → Option (H × HandshakeProcessResult) → Option (Round H S M)
  unfolding start_session
  handle_handshake s none = some (ends [])
  handle_handshake s (some (h, in_progress response_bytes)) =
      some (after_round (record s { handshake = h }, send_packet (packet response_bytes) ∷ []))
  handle_handshake s (some (h, completed response_bytes remaining_bytes)) =
      start_session (record s { handshake = h }) remaining_bytes
        (send_packet (packet response_bytes) ∷ []) lib.new_session

  unfoldable pub handle_bytes : RtmpServerConnectionHandler H S → List ℕ → Option (Round H S M)
  unfolding handle_handshake handle_input_of
  handle_bytes s bytes = elim s.state [
    | handshaking ↦ handle_handshake s (lib.process_bytes s.handshake bytes)
    | _ ↦ handle_input_of s bytes []
  ]

  -- One round of the loop of `run_async`.
  unfoldable pub handle : RtmpServerConnectionHandler H S → FutureResult M → Option (Round H S M)
  unfolding after_round
  handle s disconnected = some (ends [])
  handle s rtmp_server_endpoint_gone = some (ends [])
  handle s (bytes_received bytes) = handle_bytes s bytes
  handle s (response_received response) =
      handle_endpoint_response s response >>= λ handled. some (after_round handled)
  handle s (watched_media_received media_data) =
      handle_media_from_endpoint s media_data >>= λ handled. some (after_round handled)

  -- The loop, while these inputs arrive, and what is sent in it.
  unfoldable pub run_loop :
      RtmpServerConnectionHandler H S → List (FutureResult M) → Option (List (Effect M))
  run_loop s [] = some []
  run_loop s (input ∷ inputs) = handle s input >>= λ round. go_on round (λ s'. run_loop s' inputs)

  unfoldable pub run_async :
      RtmpServerConnectionHandler H S → List (FutureResult M) → Option (List (Effect M))
  run_async s inputs = go_on (start s) (λ s'. run_loop s' inputs)
