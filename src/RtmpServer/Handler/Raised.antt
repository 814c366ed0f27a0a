-- ===== src/RtmpServer/Handler/Raised.antt =====
-- What the RTMP library raises while the loop of
-- mmids-rtmp/src/rtmp_server/actor/connection_handler.rs runs.
use mmids_core.Common.{
  ℕ, ◌≡◌, refl, ◌∙◌, true, Option, none, some, List, [], ◌∷◌, ◌++◌, arith, nat_eq, string_eq, All,
  is_some,
}
use mmids_core.Metadata.Buffer.{◌>>=◌}
use mmids_core.RtmpServer.Types.{
  ConnectionResponse, app_connect_request_accepted, publish_request_accepted,
  watch_request_accepted,
}
use mmids_core.RtmpServer.Handler.{
  ConnectionState, handshaking, requested_app_connection, requested_publishing, requested_watch,
  ServerSessionResult, outbound_response, raised_event, unhandleable_message_received,
  connection_requested, publish_stream_requested, stream_metadata_changed, video_data_received,
  audio_data_received, play_stream_requested, publish_stream_finished, play_stream_finished,
  other_event, live_mode, other_mode, HandshakeProcessResult, in_progress, completed, RtmpLibrary,
  RtmpServerConnectionHandler, FutureResult, response_received, bytes_received,
  watched_media_received, disconnected, rtmp_server_endpoint_gone,
}
use mmids_core.RtmpServer.Handler.Flv.{Int24}
use mmids_core.RtmpServer.Handler.Events.{
  handle_rtmp_event_play_finished, handle_rtmp_event_publish_finished,
  handle_rtmp_event_play_stream_requested, handle_rtmp_event_publish_stream_requested,
  handle_rtmp_event_connection_requested, handle_rtmp_event_audio_data_received,
  handle_rtmp_event_video_data_received, handle_rtmp_event_stream_metadata_changed, handle_event,
  handle_result, handle_rtmp_results,
}
use mmids_core.RtmpServer.Handler.Loop.{Round, goes_on, ends, handle, start}
use mmids_core.RtmpServer.Handler.Ready.{Runs, ResultIsReadable}
use mmids_core.RtmpServer.Handler.Leaves.{Leaves, Leaves-bind}

module _ {S M : Type 0} where
  -- The results of a step of the library.
  abbrev pub given : Option (S × List (ServerSessionResult M)) → List (ServerSessionResult M)
  given none = []
  given (some (session, results)) = results

  -- The results of a step of a session, if there is one.
  abbrev pub given_to :
      Option S → (S → Option (S × List (ServerSessionResult M))) → List (ServerSessionResult M)
  given_to none step = []
  given_to (some session) step = given (step session)

  pub given_to-Runs :
      {B : Type 0} (Q : B → Type 0) (o : Option S)
      (step : S → Option (S × List (ServerSessionResult M))) (f : S → Option B)
      → is_some o ≡ true
      → All ResultIsReadable (given_to o step)
      → ((session : S) → All ResultIsReadable (given (step session)) → Runs Q (f session))
      → Runs Q (o >>= f)
  given_to-Runs Q none step f h g next = absurd cc
  given_to-Runs Q (some session) step f h g next = next session g

-- The request that the session accepts when this answer comes.
abbrev pub request_of : ConnectionState → ConnectionResponse → Option ℕ
request_of (requested_app_connection app id) app_connect_request_accepted = some id
request_of (requested_publishing app key id) (publish_request_accepted channel) = some id
request_of (requested_watch app key id stream) (watch_request_accepted channel) = some id
request_of state response = none

module _ {H S M : Type 0} (lib : RtmpLibrary H S M) where
  abbrev pub accept_results : Option S → Option ℕ → List (ServerSessionResult M)
  accept_results session none = []
  accept_results session (some id) = given_to session (λ s. lib.accept_request s id)

  -- A new session, and what it makes of the bytes behind the handshake.
  abbrev pub new_results :
      List ℕ → Option (S × List (ServerSessionResult M)) → List (ServerSessionResult M)
  new_results remaining none = []
  new_results remaining (some (session, results)) =
      results ++ given (lib.handle_input session remaining)

  abbrev pub handshake_results : Option (H × HandshakeProcessResult) → List (ServerSessionResult M)
  handshake_results none = []
  handshake_results (some (h, in_progress bytes)) = []
  handshake_results (some (h, completed bytes remaining)) = new_results remaining lib.new_session

  abbrev pub bytes_results :
      RtmpServerConnectionHandler H S → ConnectionState → List ℕ → List (ServerSessionResult M)
  bytes_results s handshaking bytes = handshake_results (lib.process_bytes s.handshake bytes)
  bytes_results s state bytes = given_to s.rtmp_session (λ session. lib.handle_input session bytes)

  -- What the library raises in a round.
  abbrev pub raised_in :
      RtmpServerConnectionHandler H S → FutureResult M → List (ServerSessionResult M)
  raised_in s (bytes_received bytes) = bytes_results s s.state bytes
  raised_in s (response_received response) =
      accept_results s.rtmp_session (request_of s.state response)
  raised_in s (watched_media_received media) = []
  raised_in s disconnected = []
  raised_in s rtmp_server_endpoint_gone = []

module _ {H S M : Type 0} where
  -- What is raised once the loop goes on.
  abbrev pub raised_after :
      Option (Round H S M)
      → (RtmpServerConnectionHandler H S → List (ServerSessionResult M))
      → List (ServerSessionResult M)
  raised_after none next = []
  raised_after (some (ends effects)) next = []
  raised_after (some (goes_on s effects)) next = next s

module _ {H S M : Type 0} (lib : RtmpLibrary H S M) (b : Int24) where
  -- What the library raises in the loop while these inputs arrive.
  unfoldable pub raised :
      RtmpServerConnectionHandler H S → List (FutureResult M) → List (ServerSessionResult M)
  raised s [] = []
  raised s (input ∷ inputs) =
      raised_in lib s input ++ raised_after (handle lib b s input) (λ s'. raised s' inputs)

  -- The same from the start of `run_async`.
  unfoldable pub raised_in_run :
      RtmpServerConnectionHandler H S → List (FutureResult M) → List (ServerSessionResult M)
  raised_in_run s inputs = raised_after (some (start lib b s)) (λ s'. raised s' inputs)

module _ {H S M : Type 0} (b : Int24) where
  -- What is done with what is raised leaves the session as it is.
  handle_result-rtmp_session :
      (s : RtmpServerConnectionHandler H S) (result : ServerSessionResult M)
      → Leaves (λ handled. handled.0.rtmp_session ≡ s.rtmp_session) (handle_result b s result)
  unfolding handle_result handle_event handle_rtmp_event_play_finished
      handle_rtmp_event_publish_finished handle_rtmp_event_play_stream_requested
      handle_rtmp_event_publish_stream_requested handle_rtmp_event_connection_requested
      handle_rtmp_event_audio_data_received handle_rtmp_event_video_data_received
      handle_rtmp_event_stream_metadata_changed
  handle_result-rtmp_session s (outbound_response packet) = refl
  handle_result-rtmp_session s unhandleable_message_received = refl
  handle_result-rtmp_session s (raised_event (connection_requested id app)) = refl
  handle_result-rtmp_session s (raised_event (publish_stream_requested id app key live_mode)) =
      ground arith
  handle_result-rtmp_session s (raised_event (publish_stream_requested id app key other_mode)) =
      refl
  handle_result-rtmp_session s (raised_event (stream_metadata_changed app key metadata)) =
      ground arith
  handle_result-rtmp_session s (raised_event (video_data_received app key data_bytes timestamp)) =
      ground arith
  handle_result-rtmp_session s (raised_event (audio_data_received app key data_bytes timestamp)) =
      ground arith
  handle_result-rtmp_session s (raised_event (play_stream_requested app key stream id)) =
      ground arith
  handle_result-rtmp_session s (raised_event (publish_stream_finished app key)) = ground arith
  handle_result-rtmp_session s (raised_event (play_stream_finished app key)) = ground arith
  handle_result-rtmp_session s (raised_event other_event) = refl

  pub handle_rtmp_results-rtmp_session :
      (s : RtmpServerConnectionHandler H S) (results : List (ServerSessionResult M))
      → Leaves
          (λ handled. handled.0.rtmp_session ≡ s.rtmp_session)
          (handle_rtmp_results b s results)
  unfolding handle_rtmp_results
  handle_rtmp_results-rtmp_session s [] = refl
  handle_rtmp_results-rtmp_session s (result ∷ results) =
      Leaves-bind (λ handled. handled.0.rtmp_session ≡ s.rtmp_session)
        (λ handled. handled.0.rtmp_session ≡ s.rtmp_session) (handle_result b s result) _
        (handle_result-rtmp_session s result)
        (λ handled e.
          Leaves-bind (λ rest. rest.0.rtmp_session ≡ handled.0.rtmp_session)
            (λ all. all.0.rtmp_session ≡ s.rtmp_session) (handle_rtmp_results b handled.0 results) _
            (handle_rtmp_results-rtmp_session handled.0 results) (λ rest e'. e' ∙ e))
