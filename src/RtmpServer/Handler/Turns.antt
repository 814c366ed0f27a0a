-- ===== src/RtmpServer/Handler/Turns.antt =====
-- The order in which the handler of a connection sends its requests to the RTMP endpoint:
-- `request_sender` of mmids-rtmp/src/rtmp_server/actor/connection_handler.rs.
use mmids_core.Common.{
  ℕ, String, ◌≡◌, refl, Option, none, some, List, [], ◌∷◌, ◌++◌, arith, if◌then◌else◌, ◌==◌, nat_eq,
  string_eq, ==_eq,
}
use mmids_core.Metadata.Buffer.{◌>>=◌}
use mmids_core.RtmpServer.Types.{
  ConnectionRequest, request_connect_to_app, request_publish, request_watch, publish_finished,
  playback_finished,
}
use mmids_core.RtmpServer.Handler.{
  ConnectionState, handshaking, rtmp_session_active, requested_app_connection, connected_to_app,
  requested_publishing, publishing, requested_watch, watching, PublishMode, live_mode, other_mode,
  ServerSessionEvent, connection_requested, publish_stream_requested, stream_metadata_changed,
  video_data_received, audio_data_received, play_stream_requested, publish_stream_finished,
  play_stream_finished, other_event, ServerSessionResult, outbound_response, raised_event,
  unhandleable_message_received, RtmpServerConnectionHandler, Effect, send_packet, send_request,
  send_event, receive_media_of,
}
use mmids_core.RtmpServer.Handler.Flv.{Int24}
use mmids_core.RtmpServer.Handler.Events.{
  handle_rtmp_event_play_finished, handle_rtmp_event_publish_finished,
  handle_rtmp_event_play_stream_requested, handle_rtmp_event_publish_stream_requested,
  handle_rtmp_event_connection_requested, handle_rtmp_event_audio_data_received,
  handle_rtmp_event_video_data_received, handle_rtmp_event_stream_metadata_changed, handle_event,
  handle_result,
}
use mmids_core.RtmpServer.Handler.Ready.{Runs, Runs-bind}
use mmids_core.RtmpServer.Handler.Leaves.{Leaves, bind_cong}

-- What a connection has asked for: an app, and in it to publish or to watch.
pub data Turn : Type 0 where
  outside : Turn
  in_app publishes watches : (rtmp_app : String) → Turn

-- A request in its turn, and what the connection has asked for with it. To publish or to watch is
-- asked for in the app that was asked for last, by a connection that does neither; an app at any time.
abbrev pub take_turn : Turn → ConnectionRequest → Option Turn
take_turn turn (request_connect_to_app app) = some (in_app app)
take_turn (in_app app) (request_publish app' key) =
    if app == app' then some (publishes app) else none
take_turn (in_app app) (request_watch app' key) = if app == app' then some (watches app) else none
take_turn (publishes app) publish_finished = some (in_app app)
take_turn (watches app) playback_finished = some (in_app app)
take_turn turn request = none

-- `none` as soon as a request is out of turn.
abbrev pub follow : {M : Type 0} → Turn → List (Effect M) → Option Turn
follow turn [] = some turn
follow turn (send_request request ∷ effects) =
    take_turn turn request >>= λ next. follow next effects
follow turn (effect ∷ effects) = follow turn effects

pub follow-append :
    {M : Type 0} (turn : Turn) (sent rest : List (Effect M))
    → follow turn (sent ++ rest) ≡ (follow turn sent >>= λ next. follow next rest)
follow-append turn [] rest = refl
follow-append turn (send_packet p ∷ sent) rest = follow-append turn sent rest
follow-append turn (send_event c m ∷ sent) rest = follow-append turn sent rest
follow-append turn (receive_media_of c ∷ sent) rest = follow-append turn sent rest
follow-append turn (send_request request ∷ sent) rest =
    bind_cong (take_turn turn request) (λ next. follow next (sent ++ rest))
      (λ next. follow next sent) (λ next. follow next rest) (λ next. follow-append next sent rest)

-- What is sent first is in turn, and what is sent then is so from any turn that it comes to.
pub follow-Runs :
    {M : Type 0} (P Q : Turn → Type 0) (turn : Turn) (sent rest : List (Effect M))
    → Runs P (follow turn sent)
    → ((next : Turn) → P next → Runs Q (follow next rest))
    → Runs Q (follow turn (sent ++ rest))
follow-Runs P Q turn sent rest r next =
    rw (follow-append turn sent rest) (Runs-bind P Q (follow turn sent) (λ t. follow t rest) r next)

-- It neither publishes nor watches.
abbrev pub IsFree : Turn → Type 0
IsFree outside = Unit
IsFree (in_app app) = Unit
IsFree (publishes app) = ⊥
IsFree (watches app) = ⊥

-- What has been asked for agrees with the state of the handler.
abbrev pub Fits : ConnectionState → Turn → Type 0
Fits handshaking turn = IsFree turn
Fits rtmp_session_active turn = IsFree turn
Fits (requested_app_connection app id) turn = turn ≡ in_app app
Fits (connected_to_app app) turn = turn ≡ in_app app
Fits (requested_publishing app key id) turn = turn ≡ publishes app
Fits (publishing app key) turn = turn ≡ publishes app
Fits (requested_watch app key id stream) turn = turn ≡ watches app
Fits (watching app key stream) turn = turn ≡ watches app

module _ {H S M : Type 0} where
  -- All that is sent is in turn, and agrees with the state that the handler is then in.
  abbrev pub InStep : Turn → RtmpServerConnectionHandler H S × List (Effect M) → Type 0
  InStep turn handled = Runs (Fits handled.0.state) (follow turn handled.1)

-- The app that a state names.
abbrev app_of : ConnectionState → String
app_of handshaking = ""
app_of rtmp_session_active = ""
app_of (requested_app_connection app id) = app
app_of (connected_to_app app) = app
app_of (requested_publishing app key id) = app
app_of (publishing app key) = app
app_of (requested_watch app key id stream) = app
app_of (watching app key stream) = app

module _ {H S : Type 0} (M : Type 0) (turn : Turn) where
  play_finished-InStep :
      (s : RtmpServerConnectionHandler H S) (app key : String)
      → Fits s.state turn
      → InStep turn (handle_rtmp_event_play_finished {M = M} s app key)
  unfolding handle_rtmp_event_play_finished
  play_finished-InStep s app key fits = ground (arith, ==_eq (app_of s.state) app)

  publish_finished-InStep :
      (s : RtmpServerConnectionHandler H S) (app key : String)
      → Fits s.state turn
      → InStep turn (handle_rtmp_event_publish_finished {M = M} s app key)
  unfolding handle_rtmp_event_publish_finished
  publish_finished-InStep s app key fits = ground (arith, ==_eq (app_of s.state) app)

  play_stream_requested-InStep :
      (s : RtmpServerConnectionHandler H S) (app key : String) (stream id : ℕ)
      → Fits s.state turn
      → InStep turn (handle_rtmp_event_play_stream_requested {M = M} s app key stream id)
  unfolding handle_rtmp_event_play_stream_requested
  play_stream_requested-InStep s app key stream id fits = ground (arith, ==_eq (app_of s.state) app)

  publish_stream_requested-InStep :
      (s : RtmpServerConnectionHandler H S) (id : ℕ) (app key : String) (mode : PublishMode)
      → Fits s.state turn
      → InStep turn (handle_rtmp_event_publish_stream_requested {M = M} s id app key mode)
  unfolding handle_rtmp_event_publish_stream_requested
  publish_stream_requested-InStep s id app key live_mode fits =
      ground (arith, ==_eq (app_of s.state) app)
  publish_stream_requested-InStep s id app key other_mode fits = fits

  connection_requested-InStep :
      (s : RtmpServerConnectionHandler H S) (id : ℕ) (app : String)
      → InStep turn (handle_rtmp_event_connection_requested {M = M} s id app)
  unfolding handle_rtmp_event_connection_requested
  connection_requested-InStep s id app = refl

module _ {H S M : Type 0} (turn : Turn) where
  stream_metadata_changed-InStep :
      (s : RtmpServerConnectionHandler H S) (app key : String) (metadata : M)
      → Fits s.state turn
      → Leaves (InStep turn) (handle_rtmp_event_stream_metadata_changed s app key metadata)
  unfolding handle_rtmp_event_stream_metadata_changed
  stream_metadata_changed-InStep s app key metadata fits = ground arith

module _ {H S : Type 0} (M : Type 0) (turn : Turn) where
  audio_data_received-InStep :
      (s : RtmpServerConnectionHandler H S) (app key : String) (data_bytes : List ℕ) (timestamp : ℕ)
      → Fits s.state turn
      → Leaves
          (InStep turn)
          (handle_rtmp_event_audio_data_received {M = M} s app key data_bytes timestamp)
  unfolding handle_rtmp_event_audio_data_received
  audio_data_received-InStep s app key data_bytes timestamp fits = ground arith

  video_data_received-InStep :
      (b : Int24) (s : RtmpServerConnectionHandler H S) (app key : String) (data_bytes : List ℕ)
      (timestamp : ℕ)
      → Fits s.state turn
      → Leaves
          (InStep turn)
          (handle_rtmp_event_video_data_received {M = M} b s app key data_bytes timestamp)
  unfolding handle_rtmp_event_video_data_received
  video_data_received-InStep b s app key data_bytes timestamp fits = ground arith

module _ {H S M : Type 0} (b : Int24) (turn : Turn) where
  handle_event-InStep :
      (s : RtmpServerConnectionHandler H S) (event : ServerSessionEvent M)
      → Fits s.state turn
      → Leaves (InStep turn) (handle_event b s event)
  unfolding handle_event
  handle_event-InStep s (connection_requested id app) fits =
      connection_requested-InStep M turn s id app
  handle_event-InStep s (publish_stream_requested id app key mode) fits =
      publish_stream_requested-InStep M turn s id app key mode fits
  handle_event-InStep s (stream_metadata_changed app key metadata) fits =
      stream_metadata_changed-InStep turn s app key metadata fits
  handle_event-InStep s (video_data_received app key data_bytes timestamp) fits =
      video_data_received-InStep M turn b s app key data_bytes timestamp fits
  handle_event-InStep s (audio_data_received app key data_bytes timestamp) fits =
      audio_data_received-InStep M turn s app key data_bytes timestamp fits
  handle_event-InStep s (play_stream_requested app key stream id) fits =
      play_stream_requested-InStep M turn s app key stream id fits
  handle_event-InStep s (publish_stream_finished app key) fits =
      publish_finished-InStep M turn s app key fits
  handle_event-InStep s (play_stream_finished app key) fits =
      play_finished-InStep M turn s app key fits
  handle_event-InStep s other_event fits = fits

  pub handle_result-InStep :
      (s : RtmpServerConnectionHandler H S) (result : ServerSessionResult M)
      → Fits s.state turn
      → Leaves (InStep turn) (handle_result b s result)
  unfolding handle_result
  handle_result-InStep s (outbound_response packet) fits = fits
  handle_result-InStep s (raised_event event) fits = handle_event-InStep s event fits
  handle_result-InStep s unhandleable_message_received fits = fits
