-- ===== src/RtmpServer/Handler/Answers.antt =====
-- The answers of the endpoint and the media to watch leave a live handler live:
-- `handle_endpoint_response` and `handle_media_from_endpoint` of
-- mmids-rtmp/src/rtmp_server/actor/connection_handler.rs.
use mmids_core.Common.{
  ℕ, ◌^◌, ◌≡◌, refl, ◌⊎◌, true, Option, none, some, List, [], ◌∷◌, arith, nat_eq, string_eq, All,
  is_some,
}
use mmids_core.Common.Int.{Fits}
use mmids_core.Metadata.Buffer.{◌>>=◌}
use mmids_core.Workflows.Requests.{Sender}
use mmids_core.RtmpServer.Types.{
  RtmpEndpointMediaData, new_stream_metadata, new_video_data, new_audio_data, ConnectionResponse,
  request_rejected, app_connect_request_accepted, publish_request_accepted, watch_request_accepted,
  disconnect,
}
use mmids_core.RtmpServer.Handler.{
  handshaking, requested_app_connection, connected_to_app, requested_publishing, publishing,
  requested_watch, watching, OutboundPacket, ServerSessionResult, RtmpLibrary,
  RtmpServerConnectionHandler, FutureResult, watched_media_received, Effect, receive_media_of,
  forced,
}
use mmids_core.RtmpServer.Handler.Flv.{Int24, IsExact, wrap_video_into_flv}
use mmids_core.RtmpServer.Handler.Loop.{
  Round, goes_on, ends, after_round, accept_or_end, accepted,
  handle_endpoint_app_connect_request_accepted, handle_endpoint_publish_request_accepted,
  handle_endpoint_watch_request_accepted, handle_endpoint_response, packet_of, send_or_end,
  handle_media_from_endpoint,
}
use mmids_core.RtmpServer.Handler.Raised.{
  given, given_to, given_to-Runs, request_of, accept_results,
}
use mmids_core.RtmpServer.Handler.Ready.{
  Runs, Runs-bind, Runs-some, HasChannel, IsLive, ResultIsReadable, handle_rtmp_results-Runs,
}

module _ {H S : Type 0} where
  -- The handshake is not done, or the handler is live.
  abbrev pub IsReady : RtmpServerConnectionHandler H S → Type 0
  IsReady s = (s.state ≡ handshaking) ⊎ IsLive s

module _ {H S M : Type 0} where
  abbrev pub RoundIsReady : Round H S M → Type 0
  RoundIsReady (goes_on s effects) = IsReady s
  RoundIsReady (ends effects) = Unit

-- The offset of a video fits into 24 bits.
abbrev pub InputFits : {M : Type 0} → FutureResult M → Type 0
InputFits
      (watched_media_received
        (new_video_data is_keyframe is_sequence_header data_bytes time offset)) =
    Fits (2 ^ 24) offset
InputFits _ = Unit

module _ {H S : Type 0} where
  forced-IsLive :
      (M : Type 0) (s : RtmpServerConnectionHandler H S) → IsLive s → IsLive (forced {M = M} s).0
  forced-IsLive M s v = record { session = v.session; channel = v.channel }

module _ {H S M : Type 0} where
  pub after_round-IsReady :
      (handled : RtmpServerConnectionHandler H S × List (Effect M))
      → IsReady handled.0
      → RoundIsReady (after_round handled)
  unfolding after_round
  after_round-IsReady (s, effects) ready = ground arith

module _ {H S M : Type 0} (lib : RtmpLibrary H S M) (b : Int24) where
  pub accept_or_end-Runs :
      (s next : RtmpServerConnectionHandler H S) (o : Option (S × List (ServerSessionResult M)))
      → IsLive s
      → HasChannel next.state next.published_event_channel
      → All ResultIsReadable (given o)
      → Runs (λ handled. IsLive handled.0) (accept_or_end lib b s next o)
  accept_or_end-Runs s next none v c g = forced-IsLive M s v
  accept_or_end-Runs s next (some (session, results)) v c g =
      handle_rtmp_results-Runs b (record next { rtmp_session = some session }) results
        (record { session = refl; channel = c }) g

  pub accepted-Runs :
      (s : RtmpServerConnectionHandler H S) (id : ℕ) (next : RtmpServerConnectionHandler H S)
      → IsLive s
      → HasChannel next.state next.published_event_channel
      → All ResultIsReadable (given_to s.rtmp_session (λ session. lib.accept_request session id))
      → Runs (λ handled. IsLive handled.0) (accepted lib b s id next)
  unfolding accepted
  accepted-Runs s id next v c g =
      given_to-Runs (λ handled. IsLive handled.0) s.rtmp_session
        (λ session. lib.accept_request session id)
        (λ session. accept_or_end lib b s next (lib.accept_request session id)) v.session g
        (λ session g'. accept_or_end-Runs s next (lib.accept_request session id) v c g')

  app_connect_accepted-Runs :
      (s : RtmpServerConnectionHandler H S)
      → IsLive s
      → All ResultIsReadable
          (accept_results lib s.rtmp_session (request_of s.state app_connect_request_accepted))
      → Runs (λ handled. IsLive handled.0) (handle_endpoint_app_connect_request_accepted lib b s)
  unfolding handle_endpoint_app_connect_request_accepted
  app_connect_accepted-Runs s v g =
      elim s.state
          as (λ state.
            All ResultIsReadable
              (accept_results lib s.rtmp_session (request_of state app_connect_request_accepted))
            → Runs (λ handled. IsLive handled.0)
                (elim state [
                  | requested_app_connection app id ↦
                      accepted lib b s id (record s { state = connected_to_app app })
                  | _ ↦ some (s, [])
                ])) [
                  | requested_app_connection app id ↦
                      λ g. accepted-Runs s id (record s { state = connected_to_app app }) v tt g
                  | _ ↦ λ g. v
                ]
        g

  publish_accepted-Runs :
      (s : RtmpServerConnectionHandler H S) (channel : Sender)
      → IsLive s
      → All ResultIsReadable (
          accept_results lib s.rtmp_session (request_of s.state (publish_request_accepted channel)))
      → Runs
          (λ handled. IsLive handled.0)
          (handle_endpoint_publish_request_accepted lib b s channel)
  unfolding handle_endpoint_publish_request_accepted
  publish_accepted-Runs s channel v g =
      elim s.state
          as (λ state.
            All ResultIsReadable (
              accept_results lib s.rtmp_session
                (request_of state (publish_request_accepted channel)))
            → Runs (λ handled. IsLive handled.0)
                (elim state [
                  | requested_publishing app key id ↦ accepted lib b s id (record s {
                    published_event_channel = some channel;
                    state = publishing app key;
                  })
                  | _ ↦ some (forced s)
                ])) [
                  | requested_publishing app key id ↦ λ g.
                      accepted-Runs s id
                        (record s {
                          published_event_channel = some channel;
                          state = publishing app key;
                        })
                        v refl g
                  | _ ↦ λ g. forced-IsLive M s v
                ]
        g

  watch_accepted-Runs :
      (s : RtmpServerConnectionHandler H S) (channel : Sender)
      → IsLive s
      → All ResultIsReadable
          (accept_results lib s.rtmp_session (request_of s.state (watch_request_accepted channel)))
      → Runs (λ handled. IsLive handled.0) (handle_endpoint_watch_request_accepted lib b s channel)
  unfolding handle_endpoint_watch_request_accepted
  watch_accepted-Runs s channel v g =
      Runs-bind (λ handled. IsLive handled.0) (λ handled. IsLive handled.0) _
        (λ handled. some (handled.0, receive_media_of channel ∷ handled.1))
        (elim s.state
            as (λ state.
              All ResultIsReadable (
                accept_results lib s.rtmp_session
                  (request_of state (watch_request_accepted channel)))
              → Runs (λ handled. IsLive handled.0)
                  (elim state [
                    | requested_watch app key id stream ↦
                        accepted lib b s id (record s { state = watching app key stream })
                    | _ ↦ some (forced s)
                  ])) [
                    | requested_watch app key id stream ↦ λ g.
                        accepted-Runs s id (record s { state = watching app key stream }) v tt g
                    | _ ↦ λ g. forced-IsLive M s v
                  ]
          g)
        (λ handled v'. v')

  pub response-Runs :
      (s : RtmpServerConnectionHandler H S) (response : ConnectionResponse)
      → IsLive s
      → All ResultIsReadable (accept_results lib s.rtmp_session (request_of s.state response))
      → Runs (λ handled. IsLive handled.0) (handle_endpoint_response lib b s response)
  unfolding handle_endpoint_response
  response-Runs s request_rejected v g = forced-IsLive M s v
  response-Runs s disconnect v g = forced-IsLive M s v
  response-Runs s app_connect_request_accepted v g = app_connect_accepted-Runs s v g
  response-Runs s (publish_request_accepted channel) v g = publish_accepted-Runs s channel v g
  response-Runs s (watch_request_accepted channel) v g = watch_accepted-Runs s channel v g

  send_or_end-IsLive :
      (s : RtmpServerConnectionHandler H S) (sent : Option (S × OutboundPacket))
      → IsLive s
      → IsLive (send_or_end lib b s sent).0
  send_or_end-IsLive s none v = forced-IsLive M s v
  send_or_end-IsLive s (some (session, outbound)) v = record { session = refl; channel = v.channel }

  packet_of-is_some :
      (exact : IsExact b) (session : S) (stream : ℕ) (media : RtmpEndpointMediaData M)
      → InputFits (watched_media_received media)
      → is_some (packet_of lib b session stream media) ≡ true
  unfolding packet_of wrap_video_into_flv
  packet_of-is_some exact session stream (new_stream_metadata metadata) fits = refl
  packet_of-is_some exact session stream
        (new_video_data is_keyframe is_sequence_header data_bytes timestamp offset) fits =
      rw (exact.writes offset fits) refl
  packet_of-is_some exact session stream (new_audio_data is_sequence_header data_bytes timestamp)
        fits =
      refl

  pub media-Runs :
      (exact : IsExact b) (s : RtmpServerConnectionHandler H S) (media : RtmpEndpointMediaData M)
      → InputFits (watched_media_received media)
      → IsLive s
      → Runs (λ handled. IsLive handled.0) (handle_media_from_endpoint lib b s media)
  unfolding handle_media_from_endpoint
  media-Runs exact s media fits v =
      elim s.state
        as (λ state.
          Runs (λ handled. IsLive handled.0)
            (elim state [
              | watching app key stream ↦ s.rtmp_session >>= λ session.
                  packet_of lib b session stream media >>= λ sent. some (send_or_end lib b s sent)
              | _ ↦ some (s, [])
            ])) [
              | watching app key stream ↦
                  Runs-some (λ handled. IsLive handled.0) s.rtmp_session _ v.session
                    (λ session.
                      Runs-some (λ handled. IsLive handled.0) (packet_of lib b session stream media)
                        _ (packet_of-is_some exact session stream media fits)
                        (λ sent. send_or_end-IsLive s sent v))
              | _ ↦ v
            ]

  -- Until the handshake is done, an answer and media change nothing but `force_disconnect`.
  pub response-waits :
      (s : RtmpServerConnectionHandler H S) (response : ConnectionResponse)
      → s.state ≡ handshaking
      → Runs (λ handled. handled.0.state ≡ handshaking) (handle_endpoint_response lib b s response)
  unfolding handle_endpoint_response handle_endpoint_app_connect_request_accepted
      handle_endpoint_publish_request_accepted handle_endpoint_watch_request_accepted
  response-waits s request_rejected e = e
  response-waits s disconnect e = e
  response-waits s app_connect_request_accepted e = ground arith
  response-waits s (publish_request_accepted channel) e = ground arith
  response-waits s (watch_request_accepted channel) e = ground arith

  pub media-waits :
      (s : RtmpServerConnectionHandler H S) (media : RtmpEndpointMediaData M)
      → s.state ≡ handshaking
      → Runs (λ handled. handled.0.state ≡ handshaking) (handle_media_from_endpoint lib b s media)
  unfolding handle_media_from_endpoint
  media-waits s media e = ground arith
