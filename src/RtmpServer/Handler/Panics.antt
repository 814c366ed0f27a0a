-- ===== src/RtmpServer/Handler/Panics.antt =====
-- No round of the loop of a connection's handler panics, in
-- mmids-rtmp/src/rtmp_server/actor/connection_handler.rs, but on a video of two to four bytes and on an
-- offset outside of 24 bits.
use mmids_core.Common.{
  ℕ, ◌≤◌, String, ◌≡◌, refl, ◌↔◌, inl, inr, true, Option, none, some, List, [], ◌∷◌, ◌++◌, arith,
  nat_eq, string_eq, ==_refl, length, All, All-append_left, All-append_right, is_some,
}
use mmids_core.RtmpServer.Types.{ConnectionId}
use mmids_core.RtmpServer.Handler.{
  handshaking, rtmp_session_active, publishing, video_data_received, ServerSessionResult,
  HandshakeProcessResult, in_progress, completed, RtmpLibrary, RtmpServerConnectionHandler,
  FutureResult, response_received, bytes_received, watched_media_received, disconnected,
  rtmp_server_endpoint_gone, Effect,
}
use mmids_core.RtmpServer.Handler.Flv.{Int24, IsExact, unwrap_video_panics}
use mmids_core.RtmpServer.Handler.Events.{handle_event, handle_rtmp_event_video_data_received}
use mmids_core.RtmpServer.Handler.Loop.{
  Round, goes_on, ends, new_handler, start, read_or_end, handle_input_of, start_session,
  handle_handshake, handle_bytes, handle, go_on, run_loop, run_async,
}
use mmids_core.RtmpServer.Handler.Ready.{
  Runs, Runs-bind, HasChannel, IsLive, ResultIsReadable, handle_rtmp_results-Runs,
}
use mmids_core.RtmpServer.Handler.Leaves.{Runs-value, Runs-Leaves}
use mmids_core.RtmpServer.Handler.Events.{handle_rtmp_results}
use mmids_core.RtmpServer.Handler.Raised.{
  given, given_to, given_to-Runs, new_results, handshake_results, bytes_results, raised_in,
  raised_after, raised, raised_in_run, handle_rtmp_results-rtmp_session,
}
use mmids_core.RtmpServer.Handler.Answers.{
  IsReady, RoundIsReady, InputFits, after_round-IsReady, response-Runs, media-Runs, response-waits,
  media-waits,
}

module _ {H S M : Type 0} (b : Int24) where
  -- A connection that publishes a stream key sends a video for it: its handler panics exactly if the
  -- video has two, three or four bytes.
  pub video_panics :
      (s : RtmpServerConnectionHandler H S) (app key : String) (data_bytes : List ℕ) (timestamp : ℕ)
      → s.state ≡ publishing app key
      → is_some s.published_event_channel ≡ true
      → (handle_event {M = M} b s (video_data_received app key data_bytes timestamp) ≡ none)
        ↔ ((2 ≤ length data_bytes) × (length data_bytes ≤ 4))
  unfolding handle_event handle_rtmp_event_video_data_received
  video_panics s app key data_bytes timestamp e channel =
      let same_app = ==_refl app in
      let same_key = ==_refl key in
      let panics = unwrap_video_panics b data_bytes in
      (λ h. panics.0 (ground arith), λ h. let p = panics.1 h in ground arith)

module _ {H S M : Type 0} (lib : RtmpLibrary H S M) (b : Int24) where
  read_or_end-Runs :
      (s : RtmpServerConnectionHandler H S) (sent : List (Effect M))
      (o : Option (S × List (ServerSessionResult M)))
      → HasChannel s.state s.published_event_channel
      → All ResultIsReadable (given o)
      → Runs RoundIsReady (read_or_end lib b s sent o)
  read_or_end-Runs s sent none c g = tt
  read_or_end-Runs s sent (some (session, results)) c g =
      Runs-bind (λ handled. IsLive handled.0) RoundIsReady _ _
        (handle_rtmp_results-Runs b (record s { rtmp_session = some session }) results
          (record { session = refl; channel = c }) g)
        (λ handled v. after_round-IsReady (handled.0, sent ++ handled.1) (inr v))

  handle_input_of-Runs :
      (s : RtmpServerConnectionHandler H S) (bytes : List ℕ) (sent : List (Effect M))
      → IsLive s
      → All ResultIsReadable (given_to s.rtmp_session (λ session. lib.handle_input session bytes))
      → Runs RoundIsReady (handle_input_of lib b s bytes sent)
  unfolding handle_input_of
  handle_input_of-Runs s bytes sent v g =
      given_to-Runs RoundIsReady s.rtmp_session (λ session. lib.handle_input session bytes)
        (λ session. read_or_end lib b s sent (lib.handle_input session bytes)) v.session g
        (λ session g'. read_or_end-Runs s sent (lib.handle_input session bytes) v.channel g')

  start_session-Runs :
      (s : RtmpServerConnectionHandler H S) (bytes : List ℕ) (sent : List (Effect M))
      (o : Option (S × List (ServerSessionResult M)))
      → s.state ≡ handshaking
      → All ResultIsReadable (new_results lib bytes o)
      → Runs RoundIsReady (start_session lib b s bytes sent o)
  unfolding start_session
  start_session-Runs s bytes sent none e g = tt
  start_session-Runs s bytes sent (some (session, results)) e g =
      let opened : RtmpServerConnectionHandler H S = record s { rtmp_session = some session } in
      Runs-bind (λ handled. IsLive handled.0 × (handled.0.rtmp_session ≡ some session)) RoundIsReady
        (handle_rtmp_results b opened results) _
        (Runs-Leaves (λ handled. IsLive handled.0)
          (λ handled. handled.0.rtmp_session ≡ some session) (handle_rtmp_results b opened results)
          (handle_rtmp_results-Runs b opened results (record { session = refl; channel = rw e tt })
            (All-append_left ResultIsReadable results (given (lib.handle_input session bytes)) g))
          (handle_rtmp_results-rtmp_session b opened results))
        (λ handled v.
          handle_input_of-Runs (record handled.0 { state = rtmp_session_active }) bytes
            (sent ++ handled.1) (record { session = v.0.session; channel = tt })
            (rw v.1 (
              All-append_right ResultIsReadable results (given (lib.handle_input session bytes))
                g)))

  handle_handshake-Runs :
      (s : RtmpServerConnectionHandler H S) (o : Option (H × HandshakeProcessResult))
      → s.state ≡ handshaking
      → All ResultIsReadable (handshake_results lib o)
      → Runs RoundIsReady (handle_handshake lib b s o)
  unfolding handle_handshake
  handle_handshake-Runs s none e g = tt
  handle_handshake-Runs s (some (h, in_progress bytes)) e g =
      after_round-IsReady {M = M} (record s { handshake = h }, _) (inl e)
  handle_handshake-Runs s (some (h, completed bytes remaining)) e g =
      start_session-Runs (record s { handshake = h }) remaining _ lib.new_session e g

  handle_bytes-Runs :
      (s : RtmpServerConnectionHandler H S) (bytes : List ℕ)
      → IsReady s
      → All ResultIsReadable (bytes_results lib s s.state bytes)
      → Runs RoundIsReady (handle_bytes lib b s bytes)
  unfolding handle_bytes
  handle_bytes-Runs s bytes ready g =
      elim s.state
          as (λ state.
            s.state ≡ state
            → All ResultIsReadable (bytes_results lib s state bytes)
            → Runs RoundIsReady (elim state [
              | handshaking ↦ handle_handshake lib b s (lib.process_bytes s.handshake bytes)
              | _ ↦ handle_input_of lib b s bytes []
            ])) [
              | handshaking ↦ λ e g'. handle_handshake-Runs s _ e g'
              | _ ↦ λ e g'. elim ready [
                | inl h ↦ absurd cc
                | inr v ↦ handle_input_of-Runs s bytes [] v g'
              ]
            ]
        refl g

  pub handle-RoundIsReady :
      (s : RtmpServerConnectionHandler H S) (input : FutureResult M)
      → IsExact b
      → IsReady s
      → InputFits input
      → All ResultIsReadable (raised_in lib s input)
      → Runs RoundIsReady (handle lib b s input)
  unfolding handle
  handle-RoundIsReady s disconnected exact ready fits g = tt
  handle-RoundIsReady s rtmp_server_endpoint_gone exact ready fits g = tt
  handle-RoundIsReady s (bytes_received bytes) exact ready fits g =
      handle_bytes-Runs s bytes ready g
  handle-RoundIsReady s (response_received response) exact (inl e) fits g =
      Runs-bind (λ handled. handled.0.state ≡ handshaking) RoundIsReady _ _
        (response-waits lib b s response e) (λ handled e'. after_round-IsReady handled (inl e'))
  handle-RoundIsReady s (response_received response) exact (inr v) fits g =
      Runs-bind (λ handled. IsLive handled.0) RoundIsReady _ _ (response-Runs lib b s response v g)
        (λ handled v'. after_round-IsReady handled (inr v'))
  handle-RoundIsReady s (watched_media_received media) exact (inl e) fits g =
      Runs-bind (λ handled. handled.0.state ≡ handshaking) RoundIsReady _ _
        (media-waits lib b s media e) (λ handled e'. after_round-IsReady handled (inl e'))
  handle-RoundIsReady s (watched_media_received media) exact (inr v) fits g =
      Runs-bind (λ handled. IsLive handled.0) RoundIsReady _ _
        (media-Runs lib b exact s media fits v) (λ handled v'. after_round-IsReady handled (inr v'))

  go_on-is_some :
      (round : Round H S M) (next : RtmpServerConnectionHandler H S → Option (List (Effect M)))
      (raises : RtmpServerConnectionHandler H S → List (ServerSessionResult M))
      → RoundIsReady round
      → All ResultIsReadable (raised_after (some round) raises)
      → ((s : RtmpServerConnectionHandler H S)
          → IsReady s
          → All ResultIsReadable (raises s)
          → is_some (next s) ≡ true)
      → is_some (go_on round next) ≡ true
  unfolding go_on
  go_on-is_some (ends effects) next raises ready g runs = refl
  go_on-is_some (goes_on s effects) next raises ready g runs =
      let r = runs s ready g in ground arith

  run_loop-is_some :
      (s : RtmpServerConnectionHandler H S) (inputs : List (FutureResult M))
      → IsExact b
      → IsReady s
      → All InputFits inputs
      → All ResultIsReadable (raised lib b s inputs)
      → is_some (run_loop lib b s inputs) ≡ true
  unfolding run_loop raised
  run_loop-is_some s [] exact ready fits g = refl
  run_loop-is_some s (input ∷ inputs) exact ready fits g =
      let rest = raised_after (handle lib b s input) (λ s'. raised lib b s' inputs) in
      let v = Runs-value RoundIsReady (handle lib b s input) (
        handle-RoundIsReady s input exact ready (fits.0)
          (All-append_left ResultIsReadable (raised_in lib s input) rest g)) in
      rw v.1 (
        go_on-is_some v.0 (λ s'. run_loop lib b s' inputs) (λ s'. raised lib b s' inputs) v.2
          (rw v.1 at (All-append_right ResultIsReadable (raised_in lib s input) rest g))
          (λ s' ready' g'. run_loop-is_some s' inputs exact ready' (fits.1) g'))

  start-RoundIsReady :
      (s : RtmpServerConnectionHandler H S) → IsReady s → RoundIsReady (start lib b s)
  unfolding start
  start-RoundIsReady s ready = ground arith

  -- The handler of a new RTMP connection does not panic, whatever arrives and in whatever order:
  -- provided that no video of two to four bytes is among what the RTMP library raises in the run,
  -- that the offset of each video to watch fits into 24 bits, and that such an offset can be
  -- written.
  pub run_async-is_some :
      (id : ConnectionId) (handshake : H) (inputs : List (FutureResult M))
      → IsExact b
      → All InputFits inputs
      → All ResultIsReadable (raised_in_run lib b (new_handler id handshake) inputs)
      → is_some (run_async lib b (new_handler id handshake) inputs) ≡ true
  unfolding run_async new_handler raised_in_run
  run_async-is_some id handshake inputs exact fits g =
      go_on-is_some (start lib b (new_handler id handshake)) (λ s. run_loop lib b s inputs)
        (λ s. raised lib b s inputs) (start-RoundIsReady (new_handler id handshake) (inl refl)) g
        (λ s ready g'. run_loop-is_some s inputs exact ready fits g')
