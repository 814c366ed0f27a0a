-- ===== src/RtmpServer/Handler/InTurn.antt =====
-- The handler of a connection sends its requests in turn, over the whole loop of
-- mmids-rtmp/src/rtmp_server/actor/connection_handler.rs.
use mmids_core.Common.{
  ℕ, ◌≡◌, refl, subst, true, Option, none, some, List, [], ◌∷◌, ◌++◌, arith, nat_eq, string_eq,
  is_some,
}
use mmids_core.RtmpServer.Types.{ConnectionId}
use mmids_core.RtmpServer.Handler.{
  handshaking, rtmp_session_active, OutboundPacket, ServerSessionResult, HandshakeProcessResult,
  in_progress, completed, RtmpLibrary, RtmpServerConnectionHandler, FutureResult, response_received,
  bytes_received, watched_media_received, disconnected, rtmp_server_endpoint_gone, Effect,
  send_packet, packet,
}
use mmids_core.RtmpServer.Handler.Flv.{Int24}
use mmids_core.RtmpServer.Handler.Events.{handle_rtmp_results}
use mmids_core.RtmpServer.Handler.Loop.{
  Round, goes_on, ends, new_handler, after_round, start, read_or_end, handle_endpoint_response,
  handle_media_from_endpoint, handle_input_of, start_session, handle_handshake, handle_bytes,
  handle, go_on, run_loop, run_async,
}
use mmids_core.RtmpServer.Handler.Turns.{
  Turn, outside, IsFree, follow, follow-append, follow-Runs, Fits, InStep,
}
use mmids_core.RtmpServer.Handler.Leaves.{
  Leaves, Leaves-bind, Leaves-any, Leaves-both, Runs-map, Runs-value, is_some-Runs,
}
use mmids_core.RtmpServer.Handler.InStep.{
  IsEarly, IsEarly-IsFree, handle_rtmp_results-InStep, handle_rtmp_results-IsEarly, response-InStep,
  media-InStep,
}

-- All that is sent is in turn.
abbrev pub InTurn : {M : Type 0} → Turn → List (Effect M) → Type 0
InTurn turn effects = is_some (follow turn effects) ≡ true

-- What a round sends is in turn, and agrees with the state that it goes on with.
abbrev RoundInStep : {H S M : Type 0} → Turn → Round H S M → Type 0
RoundInStep turn (goes_on s effects) = InStep turn (s, effects)
RoundInStep turn (ends effects) = is_some (follow turn effects) ≡ true

module _ {H S M : Type 0} where
  after_round-RoundInStep :
      (turn : Turn) (handled : RtmpServerConnectionHandler H S × List (Effect M))
      → InStep turn handled
      → RoundInStep turn (after_round handled)
  unfolding after_round
  after_round-RoundInStep turn (s, effects) step = ground arith

module _ {H S M : Type 0} (lib : RtmpLibrary H S M) (b : Int24) (turn : Turn) where
  read_or_end-RoundInStep :
      (s : RtmpServerConnectionHandler H S) (sent : List (Effect M))
      (o : Option (S × List (ServerSessionResult M)))
      → InStep turn (s, sent)
      → Leaves (RoundInStep turn) (read_or_end lib b s sent o)
  read_or_end-RoundInStep s sent none step = is_some-Runs (Fits s.state) (follow turn sent) step
  read_or_end-RoundInStep s sent (some (session, results)) step =
      let v = Runs-value (Fits s.state) (follow turn sent) step in
      Leaves-bind (InStep v.0) (RoundInStep turn)
        (handle_rtmp_results b (record s { rtmp_session = some session }) results)
        (λ handled. some (after_round (handled.0, sent ++ handled.1)))
        (handle_rtmp_results-InStep b (record s { rtmp_session = some session }) results v.0 v.2)
        (λ handled step'.
          after_round-RoundInStep turn (handled.0, sent ++ handled.1)
            (follow-Runs (λ t. t ≡ v.0) (Fits handled.0.state) turn sent handled.1 (rw v.1 refl)
              (λ t e. rw e step')))

  handle_input_of-RoundInStep :
      (s : RtmpServerConnectionHandler H S) (bytes : List ℕ) (sent : List (Effect M))
      → InStep turn (s, sent)
      → Leaves (RoundInStep turn) (handle_input_of lib b s bytes sent)
  unfolding handle_input_of
  handle_input_of-RoundInStep s bytes sent step =
      Leaves-bind (λ session. Unit {0}) (RoundInStep turn) s.rtmp_session
        (λ session. read_or_end lib b s sent (lib.handle_input session bytes))
        (Leaves-any s.rtmp_session)
        (λ session _. read_or_end-RoundInStep s sent (lib.handle_input session bytes) step)

  start_session-RoundInStep :
      (s : RtmpServerConnectionHandler H S) (bytes : List ℕ) (packets : OutboundPacket)
      (o : Option (S × List (ServerSessionResult M)))
      → s.state ≡ handshaking
      → IsFree turn
      → Leaves (RoundInStep turn) (start_session lib b s bytes (send_packet packets ∷ []) o)
  unfolding start_session
  start_session-RoundInStep s bytes p none e free = refl
  start_session-RoundInStep s bytes p (some (session, results)) e free =
      let opened : RtmpServerConnectionHandler H S = record s { rtmp_session = some session } in
      Leaves-bind (λ handled. InStep turn handled × IsEarly handled.0.state) (RoundInStep turn)
        (handle_rtmp_results b opened results) _
        (Leaves-both (InStep turn) (λ handled. IsEarly handled.0.state)
          (handle_rtmp_results b opened results)
          (handle_rtmp_results-InStep b opened results turn (rw e free))
          (handle_rtmp_results-IsEarly b opened results (rw e tt)))
        (λ handled both.
          handle_input_of-RoundInStep (record handled.0 { state = rtmp_session_active }) bytes
            (send_packet p ∷ handled.1)
            (Runs-map (Fits handled.0.state) IsFree (follow turn handled.1) both.0
              (λ t fits. IsEarly-IsFree handled.0.state t both.1 fits)))

  handle_handshake-RoundInStep :
      (s : RtmpServerConnectionHandler H S) (o : Option (H × HandshakeProcessResult))
      → s.state ≡ handshaking
      → IsFree turn
      → Leaves (RoundInStep turn) (handle_handshake lib b s o)
  unfolding handle_handshake
  handle_handshake-RoundInStep s none e free = refl
  handle_handshake-RoundInStep s (some (h, in_progress bytes)) e free =
      after_round-RoundInStep turn (record s { handshake = h }, _) (rw e free)
  handle_handshake-RoundInStep s (some (h, completed bytes remaining)) e free =
      start_session-RoundInStep (record s { handshake = h }) remaining (packet bytes)
        lib.new_session e free

  handle_bytes-RoundInStep :
      (s : RtmpServerConnectionHandler H S) (bytes : List ℕ)
      → Fits s.state turn
      → Leaves (RoundInStep turn) (handle_bytes lib b s bytes)
  unfolding handle_bytes
  handle_bytes-RoundInStep s bytes fits =
      elim s.state
          as (λ state.
            s.state ≡ state
            → Leaves (RoundInStep turn) (elim state [
              | handshaking ↦ handle_handshake lib b s (lib.process_bytes s.handshake bytes)
              | _ ↦ handle_input_of lib b s bytes []
            ])) [
              | handshaking ↦
                  λ e. handle_handshake-RoundInStep s _ e (subst (λ state. Fits state turn) e fits)
              | _ ↦ λ e. handle_input_of-RoundInStep s bytes [] fits
            ]
        refl

  handle-RoundInStep :
      (s : RtmpServerConnectionHandler H S) (input : FutureResult M)
      → Fits s.state turn
      → Leaves (RoundInStep turn) (handle lib b s input)
  unfolding handle
  handle-RoundInStep s disconnected fits = refl
  handle-RoundInStep s rtmp_server_endpoint_gone fits = refl
  handle-RoundInStep s (bytes_received bytes) fits = handle_bytes-RoundInStep s bytes fits
  handle-RoundInStep s (response_received response) fits =
      Leaves-bind (InStep turn) (RoundInStep turn) (handle_endpoint_response lib b s response)
        (λ handled. some (after_round handled)) (response-InStep lib b turn s response fits)
        (λ handled step. after_round-RoundInStep turn handled step)
  handle-RoundInStep s (watched_media_received media) fits =
      Leaves-bind (InStep turn) (RoundInStep turn) (handle_media_from_endpoint lib b s media)
        (λ handled. some (after_round handled)) (media-InStep lib b turn s media fits)
        (λ handled step. after_round-RoundInStep turn handled step)

module _ {H S M : Type 0} where
  go_on-InTurn :
      (turn : Turn) (round : Round H S M)
      (next : RtmpServerConnectionHandler H S → Option (List (Effect M)))
      → RoundInStep turn round
      → ((s : RtmpServerConnectionHandler H S) (t : Turn)
          → Fits s.state t
          → Leaves (InTurn t) (next s))
      → Leaves (InTurn turn) (go_on round next)
  unfolding go_on
  go_on-InTurn turn (ends effects) next step rest = step
  go_on-InTurn turn (goes_on s effects) next step rest =
      let v = Runs-value (Fits s.state) (follow turn effects) step in
      Leaves-bind (InTurn v.0) (InTurn turn) (next s) _ (rest s v.0 v.2)
        (λ more in_turn. rw (follow-append turn effects more, v.1) in_turn)

module _ {H S M : Type 0} (lib : RtmpLibrary H S M) (b : Int24) where
  run_loop-InTurn :
      (inputs : List (FutureResult M)) (s : RtmpServerConnectionHandler H S) (turn : Turn)
      → Fits s.state turn
      → Leaves (InTurn turn) (run_loop lib b s inputs)
  unfolding run_loop
  run_loop-InTurn [] s turn fits = refl
  run_loop-InTurn (input ∷ inputs) s turn fits =
      Leaves-bind (RoundInStep turn) (InTurn turn) (handle lib b s input)
        (λ round. go_on round (λ s'. run_loop lib b s' inputs))
        (handle-RoundInStep lib b turn s input fits)
        (λ round step. go_on-InTurn turn round _ step (run_loop-InTurn inputs))

  start-RoundInStep :
      (s : RtmpServerConnectionHandler H S) (turn : Turn)
      → Fits s.state turn
      → RoundInStep turn (start lib b s)
  unfolding start
  start-RoundInStep s turn fits = ground arith

  -- All requests that the handler of a new connection sends, while it runs without a panic, are in
  -- turn, whatever the RTMP library raises: it asks to publish or to watch only in the app that it
  -- asked for last, and only if since then it has asked for neither, or has said after each that it
  -- is finished; it says that it is finished with publishing only when publishing is what it asked
  -- for last, and likewise with watching.
  pub run_async-InTurn :
      (id : ConnectionId) (handshake : H) (inputs : List (FutureResult M))
      (effects : List (Effect M))
      → run_async lib b (new_handler id handshake) inputs ≡ some effects
      → InTurn outside effects
  unfolding run_async new_handler
  run_async-InTurn id handshake inputs effects e = subst (Leaves (InTurn outside)) e (
      go_on-InTurn outside (start lib b (new_handler id handshake)) (λ s. run_loop lib b s inputs)
        (start-RoundInStep (new_handler id handshake) outside tt) (run_loop-InTurn inputs))
