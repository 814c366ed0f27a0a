-- ===== src/RtmpServer/Reach.antt =====
-- The states that the endpoint comes to, whatever it is told, and what holds in all of them. Nothing
-- keeps a connection from asking to publish or to watch though it does so already: its handler
-- (`handle_rtmp_event_connection_requested` of
-- mmids-rtmp/src/rtmp_server/actor/connection_handler.rs) lets it connect to an app again in any state,
-- and then ask anew. Such connections are counted out.
use mmids_core.Common.{
  ℕ, ◌≡◌, subst, Bool, List, [], ◌++◌, ◌||◌, refl, false, true, contains, contains-append, nat_eq,
  string_eq, lookup,
}
use mmids_core.RtmpServer.Types.{ConnectionId}
use mmids_core.RtmpServer.State.{
  RtmpServerEndpointActor, FutureResult, endpoint_request_received, socket_response_received,
  publishing_registrant_gone, connection_handler_request_received, connection_handler_gone,
  watcher_registrant_gone, watcher_media_data_received, port_gone, no_more_endpoint_requesters,
  socket_manager_closed, validation_approval_response_received, Effect, Fresh,
}
use mmids_core.RtmpServer.Endpoint.{Round, goes_on, closes, handle}
use mmids_core.RtmpServer.Ports.{AllPorts, remove-AllPorts, in_port-AllPorts, in_app-keeps}
use mmids_core.RtmpServer.Linked.{LinkedBut, Linked, weaken-Linked, LinkedBut-Linked}
use mmids_core.RtmpServer.Linked.Clean.{clean-Linked}
use mmids_core.RtmpServer.Linked.Registrants.{receive_media-Linked}
use mmids_core.RtmpServer.Linked.Requests.{out_of_turn, Covers, request-Linked, validate-Linked}
use mmids_core.RtmpServer.Linked.Sockets.{
  remove_publish-Linked, remove_watch-Linked, endpoint_request-Linked, socket_response-Linked,
}

abbrev pub RoundLinked : {C M : Type 0} → (ConnectionId → Type 0) → Round C M → Type 0
RoundLinked Bad (goes_on t effects) = AllPorts (LinkedBut Bad) t.ports
RoundLinked Bad closes = Unit

or_true : (b : Bool) → (b || true) ≡ true
or_true true = refl
or_true false = refl

module _ {Bad : ConnectionId → Type 0} {C : Type 0} (M : Type 0) (within : C → ℕ → Bool) where
  pub handle-Linked :
      (s : RtmpServerEndpointActor C) (fresh : Fresh) (e : FutureResult C M)
      → Covers Bad s e
      → AllPorts (LinkedBut Bad) s.ports
      → RoundLinked Bad (handle within s fresh e)
  unfolding handle
  handle-Linked s fresh no_more_endpoint_requesters covers v = tt
  handle-Linked s fresh socket_manager_closed covers v = tt
  handle-Linked s fresh (endpoint_request_received request) covers v =
      endpoint_request-Linked M s v request fresh
  handle-Linked s fresh (publishing_registrant_gone port app key) covers v =
      remove_publish-Linked M s v port app key
  handle-Linked s fresh (watcher_registrant_gone port app key) covers v =
      remove_watch-Linked M s v port app key
  handle-Linked s fresh (socket_response_received port response) covers v =
      socket_response-Linked M s v port response fresh covers
  handle-Linked s fresh (connection_handler_request_received port id request) covers v =
      in_port-AllPorts (LinkedBut Bad) _ port s
        (λ p e w. request-Linked M within s port id request fresh p e covers w) v
  handle-Linked s fresh (connection_handler_gone port id) covers v =
      in_port-AllPorts (LinkedBut Bad) _ port s (λ p e w. clean-Linked M id p w) v
  handle-Linked s fresh (watcher_media_data_received media_data port app key) covers v =
      in_port-AllPorts (LinkedBut Bad) _ port s
        (λ p e w.
          in_app-keeps (LinkedBut Bad) _ app p
            (λ a f. receive_media-Linked M p app a f w key media_data) w)
        v
  handle-Linked s fresh (validation_approval_response_received port id response) covers v =
      in_port-AllPorts (LinkedBut Bad) _ port s
        (λ p e w. validate-Linked M within id p w port response fresh) v
  handle-Linked s fresh (port_gone port) covers v = remove-AllPorts (LinkedBut Bad) port s.ports v

module _ {C : Type 0} (M : Type 0) (within : C → ℕ → Bool) where
  -- The states of the endpoint, without any port and each that a round goes on with, whatever it is
  -- told, and the connections that were out of turn on the way.
  pub data Reached : List ConnectionId → RtmpServerEndpointActor C → Type 0 where
    begun : Reached [] (record { ports = [] })
    later :
        {ids : List ConnectionId} {s t : RtmpServerEndpointActor C} {effects : List (Effect M)}
        → Reached ids s
        → (fresh : Fresh) (e : FutureResult C M) → handle within s fresh e ≡ goes_on t effects
        → Reached (out_of_turn s e ++ ids) t

  -- In every state that the RTMP endpoint comes to, whatever it is told, each port is linked but for
  -- the connections that were out of turn on the way: those that asked to publish or to watch while
  -- the endpoint had them publish or watch already, and those that came as new with an id that their
  -- port knew. The publisher that a port has for a stream key is a connection in the state of
  -- publishing that key, or one that was out of turn; each watcher is one in the state of watching
  -- it, or one that was out of turn.
  pub Reached-LinkedBut :
      (ids : List ConnectionId) (s : RtmpServerEndpointActor C)
      → Reached ids s
      → AllPorts (LinkedBut (λ id. contains ids id ≡ true)) s.ports
  unfolding lookup
  Reached-LinkedBut _ _ begun = λ port p e. cc
  Reached-LinkedBut _ t (later {ids = ids} {s = s} r fresh e q) =
      subst (RoundLinked (λ id. contains (out_of_turn s e ++ ids) id ≡ true)) q (
        handle-Linked M within s fresh e
          (λ x h. rw (contains-append (out_of_turn s e) ids x, h) refl)
          (λ port p there.
            weaken-Linked (λ id. contains ids id ≡ true)
              (λ id. contains (out_of_turn s e ++ ids) id ≡ true)
              (λ x h.
                rw (contains-append (out_of_turn s e) ids x, h)
                  (or_true (contains (out_of_turn s e) x)))
              p (Reached-LinkedBut ids s r port p there)))

  -- If none was out of turn, all are linked.
  pub Reached-Linked : (s : RtmpServerEndpointActor C) → Reached [] s → AllPorts Linked s.ports
  unfolding contains
  Reached-Linked s r port p e = LinkedBut-Linked p (
      weaken-Linked (λ id. contains [] id ≡ true) (λ id. ⊥) (λ id h. absurd (cc)) p
        (Reached-LinkedBut [] s r port p e))
