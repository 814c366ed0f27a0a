-- ===== src/RtmpServer/Registrants/Lasting.antt =====
-- A publisher registrant stays until it is removed or its port is gone: the loop of `run` of
-- mmids-rtmp/src/rtmp_server/actor/mod.rs.
use mmids_core.Common.{
  ℕ, String, ◌≡◌, subst, ◌≢◌, inl, inr, Bool, not, some, List, if◌then◌else◌, Bool-cases,
  Option-cases, nat_eq, string_eq, or_default, lookup,
}
use mmids_core.RtmpServer.Types.{
  StreamKeyRegistration, registration_eq, RegistrationType, RtmpEndpointRequest,
  listen_for_publishers, listen_for_watchers, remove_registration, TcpSocketResponse,
  request_accepted, request_denied, port_forcibly_closed, new_connection, disconnection,
}
use mmids_core.RtmpServer.State.{
  PublishingRegistrant, PortMapping, RtmpServerEndpointActor, FutureResult,
  endpoint_request_received, socket_response_received, publishing_registrant_gone,
  connection_handler_request_received, connection_handler_gone, watcher_registrant_gone,
  watcher_media_data_received, port_gone, no_more_endpoint_requesters, socket_manager_closed,
  validation_approval_response_received, Effect, Fresh,
}
use mmids_core.RtmpServer.Registration.{RegisterListenerParams, register_listener, new_port_map}
use mmids_core.RtmpServer.Removal.{remove_publish_registration, remove_watcher_registration}
use mmids_core.RtmpServer.Endpoint.{
  handle_response_of, handle_socket_response, handle_endpoint_request, Round, goes_on, closes,
  handle,
}
use mmids_core.RtmpServer.Ports.{
  in_app-keeps, HasPort, insert-HasPort, remove-HasPort, at_port, in_port-HasPort,
}
use mmids_core.RtmpServer.Registrants.{put_connection-Unmoved}
use mmids_core.RtmpServer.Registrants.Requests.{
  clean-Unmoved, receive_media-Unmoved, handler_request-Unmoved, validation-Unmoved,
}
use mmids_core.RtmpServer.Registrants.Found.{opened-Unmoved}
use mmids_core.RtmpServer.Registrants.Held.{
  Held, Unmoved-Held, register_in-Held, remove_publisher-Held, remove_watcher-Held,
}

module _ {C M : Type 0} (port : ℕ) (app : String) (key : StreamKeyRegistration) where
  -- Not the end of the publisher registrant of a port, an app and a key: neither its removal, nor the
  -- notice that it is gone, nor the end of the port.
  abbrev pub Spares : FutureResult C M → Type 0
  Spares (endpoint_request_received (remove_registration RegistrationType.publisher o i k)) =
      o ≡ port → i ≡ app → k ≢ key
  Spares (endpoint_request_received (remove_registration RegistrationType.watcher o i k)) = Unit
  Spares (endpoint_request_received (listen_for_publishers o i k c d r t a)) = Unit
  Spares (endpoint_request_received (listen_for_watchers o i k m n r t a)) = Unit
  Spares (publishing_registrant_gone o i k) = o ≡ port → i ≡ app → k ≢ key
  Spares (socket_response_received o request_denied) = o ≢ port
  Spares (socket_response_received o port_forcibly_closed) = o ≢ port
  Spares (socket_response_received o request_accepted) = Unit
  Spares (socket_response_received o (new_connection id address)) = Unit
  Spares (socket_response_received o (disconnection id)) = Unit
  Spares (port_gone o) = o ≢ port
  Spares (connection_handler_request_received o id request) = Unit
  Spares (connection_handler_gone o id) = Unit
  Spares (watcher_registrant_gone o i k) = Unit
  Spares (watcher_media_data_received m o i k) = Unit
  Spares no_more_endpoint_requesters = Unit
  Spares socket_manager_closed = Unit
  Spares (validation_approval_response_received o id response) = Unit

module _ {C : Type 0} (port : ℕ) (app : String) (key : StreamKeyRegistration)
    (r : PublishingRegistrant C) where
  -- The registrant is in its place.
  abbrev pub Stands : RtmpServerEndpointActor C → Type 0
  Stands s = HasPort (Held app key r) port s.ports

module _ {C : Type 0} (M : Type 0) (within : C → ℕ → Bool) (port : ℕ) (app : String)
    (key : StreamKeyRegistration) where
  -- Rounds of the endpoint that are not the end of the registrant.
  pub data Spared (s : RtmpServerEndpointActor C) : RtmpServerEndpointActor C → Type 0 where
    none_yet : Spared s s
    next :
        {t u : RtmpServerEndpointActor C} {effects : List (Effect M)}
        → Spared s t
        → (fresh : Fresh) (e : FutureResult C M) → Spares port app key e
        → handle within t fresh e ≡ goes_on u effects
        → Spared s u

module _ {C : Type 0} (M : Type 0) (within : C → ℕ → Bool) (port : ℕ) (app : String)
    (key : StreamKeyRegistration) (r : PublishingRegistrant C) where
  abbrev RoundStands : Round C M → Type 0
  RoundStands (goes_on t effects) = Stands port app key r t
  RoundStands closes = Unit

  module _ (s : RtmpServerEndpointActor C) (v : Stands port app key r s) where
    register-Stands :
        (fresh : Fresh) (params : RegisterListenerParams C)
        → Stands port app key r (register_listener {M = M} s fresh params).0
    unfolding register_listener
    register-Stands fresh params =
        elim (Bool-cases (if there.tls then not params.use_tls else params.use_tls)) [
          | inl h ↦
              rw (h, register_listener)
                (insert-HasPort (Held app key r) port params.port there s.ports held v)
          | inr h ↦
              rw (h, register_listener)
                (insert-HasPort (Held app key r) port params.port _ s.ports
                  (λ same. register_in-Held M app key r params fresh there (held same)) v)
        ]
      where
        there : PortMapping C
        there = or_default (lookup params.port s.ports) (new_port_map params.use_tls)

        held : params.port ≡ port → Held app key r there
        held same = rw (same, v.there) v.holds

    remove_publish-Stands :
        (o : ℕ) (i : String) (k : StreamKeyRegistration)
        → (o ≡ port → i ≡ app → k ≢ key)
        → Stands port app key r (remove_publish_registration {M = M} s o i k).0
    unfolding remove_publish_registration
    remove_publish-Stands o i k spared =
        in_port-HasPort (Held app key r) port _ o s
          (λ p same w.
            in_app-keeps (Held app key r) _ i p
              (λ a e. remove_publisher-Held M app key r i k p a e (spared same) w) w)
          v

    remove_watch-Stands :
        (o : ℕ) (i : String) (k : StreamKeyRegistration)
        → Stands port app key r (remove_watcher_registration {M = M} s o i k).0
    unfolding remove_watcher_registration
    remove_watch-Stands o i k =
        in_port-HasPort (Held app key r) port _ o s
          (λ p same w.
            in_app-keeps (Held app key r) _ i p (λ a e. remove_watcher-Held M app key r i k p a e w)
              w)
          v

    request-Stands :
        (request : RtmpEndpointRequest C) (fresh : Fresh)
        → Spares {M = M} port app key (endpoint_request_received request)
        → Stands port app key r (handle_endpoint_request {M = M} s request fresh).0
    unfolding handle_endpoint_request
    request-Stands (listen_for_publishers o i k c d t a b) fresh spared = register-Stands fresh _
    request-Stands (listen_for_watchers o i k m n t a b) fresh spared = register-Stands fresh _
    request-Stands (remove_registration RegistrationType.publisher o i k) fresh spared =
        remove_publish-Stands o i k spared
    request-Stands (remove_registration RegistrationType.watcher o i k) fresh spared =
        remove_watch-Stands o i k

    response-Stands :
        (o : ℕ) (response : TcpSocketResponse) (fresh : Fresh) (p : PortMapping C)
        → lookup o s.ports ≡ some p
        → Spares {C = C} {M = M} port app key (socket_response_received o response)
        → Stands port app key r (handle_response_of {M = M} s o response fresh p).0
    unfolding handle_response_of
    response-Stands o request_denied fresh p e spared =
        remove-HasPort (Held app key r) port o s.ports spared v
    response-Stands o port_forcibly_closed fresh p e spared =
        remove-HasPort (Held app key r) port o s.ports spared v
    response-Stands o request_accepted fresh p e spared =
        insert-HasPort (Held app key r) port o _ s.ports
          (λ same.
            Unmoved-Held app key r p _ (opened-Unmoved p)
              (at_port (Held app key r) port o p s.ports e v same))
          v
    response-Stands o (new_connection id address) fresh p e spared =
        insert-HasPort (Held app key r) port o _ s.ports
          (λ same.
            Unmoved-Held app key r p _ (put_connection-Unmoved p id _)
              (at_port (Held app key r) port o p s.ports e v same))
          v
    response-Stands o (disconnection id) fresh p e spared =
        insert-HasPort (Held app key r) port o _ s.ports
          (λ same.
            Unmoved-Held app key r p _ (clean-Unmoved M id p)
              (at_port (Held app key r) port o p s.ports e v same))
          v

    socket-Stands :
        (o : ℕ) (response : TcpSocketResponse) (fresh : Fresh)
        → Spares {C = C} {M = M} port app key (socket_response_received o response)
        → Stands port app key r (handle_socket_response {M = M} s o response fresh).0
    unfolding handle_socket_response
    socket-Stands o response fresh spared = elim (Option-cases (lookup o s.ports)) [
      | inl e ↦ rw (e, handle_socket_response) v
      | inr (p, e) ↦ rw (e, handle_socket_response) (response-Stands o response fresh p e spared)
    ]

  handle-Stands :
      (s : RtmpServerEndpointActor C) (fresh : Fresh) (e : FutureResult C M)
      → Spares port app key e
      → Stands port app key r s
      → RoundStands (handle within s fresh e)
  unfolding handle
  handle-Stands s fresh no_more_endpoint_requesters spared v = tt
  handle-Stands s fresh socket_manager_closed spared v = tt
  handle-Stands s fresh (endpoint_request_received request) spared v =
      request-Stands s v request fresh spared
  handle-Stands s fresh (publishing_registrant_gone o i k) spared v =
      remove_publish-Stands s v o i k spared
  handle-Stands s fresh (watcher_registrant_gone o i k) spared v = remove_watch-Stands s v o i k
  handle-Stands s fresh (socket_response_received o response) spared v =
      socket-Stands s v o response fresh spared
  handle-Stands s fresh (connection_handler_request_received o id request) spared v =
      in_port-HasPort (Held app key r) port _ o s
        (λ p same w.
          Unmoved-Held app key r p _ (handler_request-Unmoved M within id p o fresh request) w)
        v
  handle-Stands s fresh (connection_handler_gone o id) spared v =
      in_port-HasPort (Held app key r) port _ o s
        (λ p same w. Unmoved-Held app key r p _ (clean-Unmoved M id p) w) v
  handle-Stands s fresh (watcher_media_data_received m o i k) spared v =
      in_port-HasPort (Held app key r) port _ o s
        (λ p same w.
          in_app-keeps (Held app key r) _ i p
            (λ a e. Unmoved-Held app key r p _ (receive_media-Unmoved M p i k m a e) w) w)
        v
  handle-Stands s fresh (validation_approval_response_received o id response) spared v =
      in_port-HasPort (Held app key r) port _ o s
        (λ p same w.
          Unmoved-Held app key r p _ (validation-Unmoved M within id p o fresh response) w)
        v
  handle-Stands s fresh (port_gone o) spared v =
      remove-HasPort (Held app key r) port o s.ports spared v

  -- A publisher registrant stays in its place, under its port, app and stream key, through any
  -- rounds of the RTMP endpoint of which none asks for its removal, gives notice that it is gone, or
  -- is the end of its port.
  pub Spared-Stands :
      (s t : RtmpServerEndpointActor C)
      → Stands port app key r s
      → Spared M within port app key s t
      → Stands port app key r t
  Spared-Stands s _ v none_yet = v
  Spared-Stands s u v (next {t = t} r fresh e spared q) =
      subst RoundStands q (handle-Stands t fresh e spared (Spared-Stands s t v r))
