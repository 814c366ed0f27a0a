-- ===== src/RtmpServer/Handler/Ready.antt =====
-- The handler of a connection does not panic: the invariant of
-- mmids-rtmp/src/rtmp_server/actor/connection_handler.rs behind each `unwrap`.
use mmids_core.Common.{
  ℕ, ◌≤◌, String, ◌≡◌, ap, inl, inr, true, Option, none, some, List, [], ◌∷◌, arith, Option-cases,
  nat_eq, string_eq, length, All, is_some,
}
use mmids_core.Metadata.Buffer.{◌>>=◌}
use mmids_core.Workflows.Requests.{Sender}
use mmids_core.RtmpServer.Handler.{
  ConnectionState, handshaking, rtmp_session_active, requested_app_connection, connected_to_app,
  requested_publishing, publishing, requested_watch, watching, PublishMode, live_mode, other_mode,
  ServerSessionEvent, connection_requested, publish_stream_requested, stream_metadata_changed,
  video_data_received, audio_data_received, play_stream_requested, publish_stream_finished,
  play_stream_finished, other_event, ServerSessionResult, outbound_response, raised_event,
  unhandleable_message_received, RtmpServerConnectionHandler,
}
use mmids_core.RtmpServer.Handler.Flv.{Int24, unwrap_video_from_flv, unwrap_video_panics}
use mmids_core.RtmpServer.Handler.Events.{
  handle_rtmp_event_play_finished, handle_rtmp_event_publish_finished,
  handle_rtmp_event_play_stream_requested, handle_rtmp_event_publish_stream_requested,
  handle_rtmp_event_connection_requested, handle_rtmp_event_audio_data_received,
  handle_rtmp_event_video_data_received, handle_rtmp_event_stream_metadata_changed, handle_event,
  handle_result, handle_rtmp_results,
}

-- Something is returned, and has a property.
abbrev pub Runs : {A : Type 0} → (A → Type 0) → Option A → Type 0
Runs P none = ⊥
Runs P (some a) = P a

pub Runs-bind :
    {A B : Type 0} (P : A → Type 0) (Q : B → Type 0) (m : Option A) (f : A → Option B)
    → Runs P m
    → ((a : A) → P a → Runs Q (f a))
    → Runs Q (m >>= f)
Runs-bind P Q none f r next = r
Runs-bind P Q (some a) f r next = next a r

pub Runs-is_some :
    {A B : Type 0} (P : A → Type 0) (m : Option A) (f : A → Option B)
    → Runs P m
    → ((a : A) → P a → is_some (f a) ≡ true)
    → is_some (m >>= f) ≡ true
Runs-is_some P none f r next = absurd r
Runs-is_some P (some a) f r next = next a r

pub Runs-some :
    {A B : Type 0} (Q : B → Type 0) (m : Option A) (f : A → Option B)
    → is_some m ≡ true
    → ((a : A) → Runs Q (f a))
    → Runs Q (m >>= f)
Runs-some Q none f h next = absurd cc
Runs-some Q (some a) f h next = next a

-- A connection that publishes has a channel for what it publishes.
abbrev pub HasChannel : ConnectionState → Option Sender → Type 0
HasChannel (publishing app key) channel = is_some channel ≡ true
HasChannel handshaking channel = Unit
HasChannel rtmp_session_active channel = Unit
HasChannel (requested_app_connection app id) channel = Unit
HasChannel (connected_to_app app) channel = Unit
HasChannel (requested_publishing app key id) channel = Unit
HasChannel (requested_watch app key id stream) channel = Unit
HasChannel (watching app key stream) channel = Unit

module _ {H S : Type 0} where
  -- There is a session, and such a channel.
  pub record IsLive (s : RtmpServerConnectionHandler H S) : Type 0 where
    pub session : is_some s.rtmp_session ≡ true
    pub channel : HasChannel s.state s.published_event_channel

-- A video that is not of two to four bytes.
abbrev pub IsReadable : {M : Type 0} → ServerSessionEvent M → Type 0
IsReadable (video_data_received app key data_bytes timestamp) =
    ¬ ((2 ≤ length data_bytes) × (length data_bytes ≤ 4))
IsReadable (connection_requested id app) = Unit
IsReadable (publish_stream_requested id app key mode) = Unit
IsReadable (stream_metadata_changed app key metadata) = Unit
IsReadable (audio_data_received app key data_bytes timestamp) = Unit
IsReadable (play_stream_requested app key stream id) = Unit
IsReadable (publish_stream_finished app key) = Unit
IsReadable (play_stream_finished app key) = Unit
IsReadable other_event = Unit

abbrev pub ResultIsReadable : {M : Type 0} → ServerSessionResult M → Type 0
ResultIsReadable (raised_event event) = IsReadable event
ResultIsReadable (outbound_response packet) = Unit
ResultIsReadable unhandleable_message_received = Unit

unwrap_video-reads :
    (b : Int24) (data_bytes : List ℕ)
    → ¬ ((2 ≤ length data_bytes) × (length data_bytes ≤ 4))
    → is_some (unwrap_video_from_flv b data_bytes) ≡ true
unwrap_video-reads b data_bytes fits = elim (Option-cases (unwrap_video_from_flv b data_bytes)) [
  | inl e ↦ absurd (fits ((unwrap_video_panics b data_bytes).0 e))
  | inr (video, e) ↦ ap is_some e
]

module _ {H S : Type 0} (M : Type 0) where
  play_finished-IsLive :
      (s : RtmpServerConnectionHandler H S) (app key : String)
      → IsLive s
      → IsLive (handle_rtmp_event_play_finished {M = M} s app key).0
  unfolding handle_rtmp_event_play_finished
  play_finished-IsLive s app key v = ground arith

  publish_finished-IsLive :
      (s : RtmpServerConnectionHandler H S) (app key : String)
      → IsLive s
      → IsLive (handle_rtmp_event_publish_finished {M = M} s app key).0
  unfolding handle_rtmp_event_publish_finished
  publish_finished-IsLive s app key v = ground arith

  play_stream_requested-IsLive :
      (s : RtmpServerConnectionHandler H S) (app key : String) (stream id : ℕ)
      → IsLive s
      → IsLive (handle_rtmp_event_play_stream_requested {M = M} s app key stream id).0
  unfolding handle_rtmp_event_play_stream_requested
  play_stream_requested-IsLive s app key stream id v = ground arith

  publish_stream_requested-IsLive :
      (s : RtmpServerConnectionHandler H S) (id : ℕ) (app key : String) (mode : PublishMode)
      → IsLive s
      → IsLive (handle_rtmp_event_publish_stream_requested {M = M} s id app key mode).0
  unfolding handle_rtmp_event_publish_stream_requested
  publish_stream_requested-IsLive s id app key live_mode v = ground arith
  publish_stream_requested-IsLive s id app key other_mode v = ground arith

  connection_requested-IsLive :
      (s : RtmpServerConnectionHandler H S) (id : ℕ) (app : String)
      → IsLive s
      → IsLive (handle_rtmp_event_connection_requested {M = M} s id app).0
  unfolding handle_rtmp_event_connection_requested
  connection_requested-IsLive s id app v = record { session = v.session; channel = tt }

module _ {H S M : Type 0} where
  stream_metadata_changed-Runs :
      (s : RtmpServerConnectionHandler H S) (app key : String) (metadata : M)
      → IsLive s
      → Runs
          (λ handled. IsLive handled.0)
          (handle_rtmp_event_stream_metadata_changed s app key metadata)
  unfolding handle_rtmp_event_stream_metadata_changed
  stream_metadata_changed-Runs s app key metadata v = ground arith

module _ {H S : Type 0} (M : Type 0) where
  audio_data_received-Runs :
      (s : RtmpServerConnectionHandler H S) (app key : String) (data_bytes : List ℕ) (timestamp : ℕ)
      → IsLive s
      → Runs
          (λ handled. IsLive handled.0)
          (handle_rtmp_event_audio_data_received {M = M} s app key data_bytes timestamp)
  unfolding handle_rtmp_event_audio_data_received
  audio_data_received-Runs s app key data_bytes timestamp v = ground arith

  video_data_received-Runs :
      (b : Int24) (s : RtmpServerConnectionHandler H S) (app key : String) (data_bytes : List ℕ)
      (timestamp : ℕ)
      → IsLive s
      → ¬ ((2 ≤ length data_bytes) × (length data_bytes ≤ 4))
      → Runs
          (λ handled. IsLive handled.0)
          (handle_rtmp_event_video_data_received {M = M} b s app key data_bytes timestamp)
  unfolding handle_rtmp_event_video_data_received
  video_data_received-Runs b s app key data_bytes timestamp v fits =
      let reads = unwrap_video-reads b data_bytes fits in ground arith

module _ {H S M : Type 0} (b : Int24) where
  handle_event-Runs :
      (s : RtmpServerConnectionHandler H S) (event : ServerSessionEvent M)
      → IsLive s
      → IsReadable event
      → Runs (λ handled. IsLive handled.0) (handle_event b s event)
  unfolding handle_event
  handle_event-Runs s (connection_requested id app) v r = connection_requested-IsLive M s id app v
  handle_event-Runs s (publish_stream_requested id app key mode) v r =
      publish_stream_requested-IsLive M s id app key mode v
  handle_event-Runs s (stream_metadata_changed app key metadata) v r =
      stream_metadata_changed-Runs s app key metadata v
  handle_event-Runs s (video_data_received app key data_bytes timestamp) v r =
      video_data_received-Runs M b s app key data_bytes timestamp v r
  handle_event-Runs s (audio_data_received app key data_bytes timestamp) v r =
      audio_data_received-Runs M s app key data_bytes timestamp v
  handle_event-Runs s (play_stream_requested app key stream id) v r =
      play_stream_requested-IsLive M s app key stream id v
  handle_event-Runs s (publish_stream_finished app key) v r = publish_finished-IsLive M s app key v
  handle_event-Runs s (play_stream_finished app key) v r = play_finished-IsLive M s app key v
  handle_event-Runs s other_event v r = v

  handle_result-Runs :
      (s : RtmpServerConnectionHandler H S) (result : ServerSessionResult M)
      → IsLive s
      → ResultIsReadable result
      → Runs (λ handled. IsLive handled.0) (handle_result b s result)
  unfolding handle_result
  handle_result-Runs s (outbound_response packet) v r = v
  handle_result-Runs s (raised_event event) v r = handle_event-Runs s event v r
  handle_result-Runs s unhandleable_message_received v r = v

  pub handle_rtmp_results-Runs :
      (s : RtmpServerConnectionHandler H S) (results : List (ServerSessionResult M))
      → IsLive s
      → All ResultIsReadable results
      → Runs (λ handled. IsLive handled.0) (handle_rtmp_results b s results)
  unfolding handle_rtmp_results
  handle_rtmp_results-Runs s [] v r = v
  handle_rtmp_results-Runs s (result ∷ results) v r =
      Runs-bind (λ handled. IsLive handled.0) (λ handled. IsLive handled.0) _ _
        (handle_result-Runs s result v (r.0))
        (λ handled v'.
          Runs-bind (λ rest. IsLive rest.0) (λ all. IsLive all.0) _ _
            (handle_rtmp_results-Runs handled.0 results v' (r.1)) (λ rest v''. v''))
