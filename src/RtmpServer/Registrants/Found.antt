-- ===== src/RtmpServer/Registrants/Found.antt =====
-- The registrant that a request for a stream key goes to, in the states that the endpoint comes to,
-- whatever it is sent: the loop of `run` of mmids-rtmp/src/rtmp_server/actor/mod.rs.
use mmids_core.Common.{
  ℕ, String, ◌≡◌, refl, sym, ap, ◌∙◌, subst, ◌↔◌, inl, inr, Bool, true, not, none, some, List, [],
  if◌then◌else◌, Bool-cases, Option-cases, nat_eq, string_eq, ==_refl, ==_eq, Map, or_default,
  lookup,
}
use mmids_core.RtmpServer.Types.{
  StreamKeyRegistration, registration_eq, any_key, exact, RegistrationType, RtmpEndpointRequest,
  listen_for_publishers, listen_for_watchers, remove_registration, TcpSocketResponse,
  request_accepted, request_denied, port_forcibly_closed, new_connection, disconnection,
}
use mmids_core.RtmpServer.State.{
  PublishingRegistrant, WatcherRegistrant, RtmpAppMapping, PortMapping, RtmpServerEndpointActor,
  FutureResult, endpoint_request_received, socket_response_received, publishing_registrant_gone,
  connection_handler_request_received, connection_handler_gone, watcher_registrant_gone,
  watcher_media_data_received, port_gone, no_more_endpoint_requesters, socket_manager_closed,
  validation_approval_response_received, Effect, Fresh, find_registrant, opened,
}
use mmids_core.RtmpServer.Registration.{RegisterListenerParams, register_listener, new_port_map}
use mmids_core.RtmpServer.Removal.{remove_publish_registration, remove_watcher_registration}
use mmids_core.RtmpServer.Endpoint.{
  handle_response_of, handle_socket_response, handle_endpoint_request, Round, goes_on, closes,
  handle,
}
use mmids_core.RtmpServer.Ports.{
  AllPorts, insert-AllPorts, remove-AllPorts, in_port-AllPorts, in_app-keeps,
}
use mmids_core.RtmpServer.Registrants.{
  registrants_of, of_app, registrants, Unmoved, put_connection-Unmoved,
}
use mmids_core.RtmpServer.Registrants.Requests.{
  clean-Unmoved, receive_media-Unmoved, handler_request-Unmoved, validation-Unmoved,
}
use mmids_core.RtmpServer.Registrants.Sole.{
  covers, IsSole, PortIsSole, Unmoved-PortIsSole, remove_publisher-PortIsSole,
  remove_watcher-PortIsSole, register_in-PortIsSole,
}

module _ {V : Type 0} (regs : Map StreamKeyRegistration V) (key : String) (r : V) where
  -- The registrant found is one whose registration is for the stream key, if there are no two.
  find_registrant-covers :
      IsSole regs
      → (find_registrant key regs ≡ some r)
        ↔ ((i : StreamKeyRegistration) × (lookup i regs ≡ some r) × (covers i key ≡ true))
  unfolding find_registrant covers
  find_registrant-covers v = elim (Option-cases (lookup any_key regs)) [
    | inl e ↦
        (λ h. (exact key, rw (e, find_registrant) at h, ==_refl key), λ c. at_exact c.0 c.1 c.2 e)
    | inr (x, e) ↦ (
      λ h. (any_key, e ∙ (rw (e, find_registrant) at h), refl),
      λ c.
          let same : any_key ≡ c.0 = v any_key c.0 key (rw e refl) (rw c.1 refl) refl c.2 in
          rw (e, find_registrant) (sym e ∙ rw same c.1),
    )
  ]
    where
      at_exact :
          (i : StreamKeyRegistration)
          → lookup i regs ≡ some r
          → covers i key ≡ true
          → lookup any_key regs ≡ none
          → find_registrant key regs ≡ some r
      at_exact any_key h c e = cc
      at_exact (exact k) h c e = rw (e, find_registrant) (rw (← ==_eq k key c) h)

pub opened-Unmoved : {C : Type 0} (p : PortMapping C) → Unmoved p (record p { status = opened })
unfolding registrants
opened-Unmoved p i = refl

module _ {C : Type 0} (M : Type 0) (s : RtmpServerEndpointActor C)
    (v : AllPorts PortIsSole s.ports) where
  register-IsSole :
      (fresh : Fresh) (params : RegisterListenerParams C)
      → AllPorts PortIsSole (register_listener {M = M} s fresh params).0.ports
  unfolding register_listener new_port_map registrants lookup
  register-IsSole fresh params =
      elim (Bool-cases (if there.tls then not params.use_tls else params.use_tls)) [
        | inl h ↦
            rw (h, register_listener) (insert-AllPorts PortIsSole params.port there s.ports sole v)
        | inr h ↦
            rw (h, register_listener)
              (insert-AllPorts PortIsSole params.port _ s.ports
                (register_in-PortIsSole M there sole params fresh) v)
      ]
    where
      there : PortMapping C
      there = or_default (lookup params.port s.ports) (new_port_map params.use_tls)

      sole : PortIsSole there
      sole = elim (Option-cases (lookup params.port s.ports)) [
        | inl e ↦ rw (e, or_default) (λ app r h. cc)
        | inr (p, e) ↦ rw (e, or_default) (v params.port p e)
      ]

  remove_publish-IsSole :
      (port : ℕ) (app : String) (key : StreamKeyRegistration)
      → AllPorts PortIsSole (remove_publish_registration {M = M} s port app key).0.ports
  unfolding remove_publish_registration
  remove_publish-IsSole port app key =
      in_port-AllPorts PortIsSole _ port s
        (λ p e w.
          in_app-keeps PortIsSole _ app p (λ a f. remove_publisher-PortIsSole M p w app key a f) w)
        v

  remove_watch-IsSole :
      (port : ℕ) (app : String) (key : StreamKeyRegistration)
      → AllPorts PortIsSole (remove_watcher_registration {M = M} s port app key).0.ports
  unfolding remove_watcher_registration
  remove_watch-IsSole port app key =
      in_port-AllPorts PortIsSole _ port s
        (λ p e w.
          in_app-keeps PortIsSole _ app p (λ a f. remove_watcher-PortIsSole M p w app key a f) w)
        v

  endpoint_request-IsSole :
      (request : RtmpEndpointRequest C) (fresh : Fresh)
      → AllPorts PortIsSole (handle_endpoint_request {M = M} s request fresh).0.ports
  unfolding handle_endpoint_request
  endpoint_request-IsSole (listen_for_publishers port app key c i r t a) fresh =
      register-IsSole fresh _
  endpoint_request-IsSole (listen_for_watchers port app key m n r t a) fresh =
      register-IsSole fresh _
  endpoint_request-IsSole (remove_registration RegistrationType.publisher port app key) fresh =
      remove_publish-IsSole port app key
  endpoint_request-IsSole (remove_registration RegistrationType.watcher port app key) fresh =
      remove_watch-IsSole port app key

  response-IsSole :
      (port : ℕ) (response : TcpSocketResponse) (fresh : Fresh) (p : PortMapping C)
      → lookup port s.ports ≡ some p
      → AllPorts PortIsSole (handle_response_of {M = M} s port response fresh p).0.ports
  unfolding handle_response_of
  response-IsSole port request_denied fresh p e = remove-AllPorts PortIsSole port s.ports v
  response-IsSole port port_forcibly_closed fresh p e = remove-AllPorts PortIsSole port s.ports v
  response-IsSole port request_accepted fresh p e =
      insert-AllPorts PortIsSole port _ s.ports
        (Unmoved-PortIsSole p _ (opened-Unmoved p) (v port p e)) v
  response-IsSole port (new_connection id address) fresh p e =
      insert-AllPorts PortIsSole port _ s.ports
        (Unmoved-PortIsSole p _ (put_connection-Unmoved p id _) (v port p e)) v
  response-IsSole port (disconnection id) fresh p e =
      insert-AllPorts PortIsSole port _ s.ports
        (Unmoved-PortIsSole p _ (clean-Unmoved M id p) (v port p e)) v

  socket_response-IsSole :
      (port : ℕ) (response : TcpSocketResponse) (fresh : Fresh)
      → AllPorts PortIsSole (handle_socket_response {M = M} s port response fresh).0.ports
  unfolding handle_socket_response
  socket_response-IsSole port response fresh = elim (Option-cases (lookup port s.ports)) [
    | inl e ↦ rw (e, handle_socket_response) v
    | inr (p, e) ↦ rw (e, handle_socket_response) (response-IsSole port response fresh p e)
  ]

abbrev RoundIsSole : {C M : Type 0} → Round C M → Type 0
RoundIsSole (goes_on t effects) = AllPorts PortIsSole t.ports
RoundIsSole closes = Unit

module _ {C : Type 0} (M : Type 0) (within : C → ℕ → Bool) where
  handle-IsSole :
      (s : RtmpServerEndpointActor C) (fresh : Fresh) (e : FutureResult C M)
      → AllPorts PortIsSole s.ports
      → RoundIsSole (handle within s fresh e)
  unfolding handle
  handle-IsSole s fresh no_more_endpoint_requesters v = tt
  handle-IsSole s fresh socket_manager_closed v = tt
  handle-IsSole s fresh (endpoint_request_received request) v =
      endpoint_request-IsSole M s v request fresh
  handle-IsSole s fresh (publishing_registrant_gone port app key) v =
      remove_publish-IsSole M s v port app key
  handle-IsSole s fresh (watcher_registrant_gone port app key) v =
      remove_watch-IsSole M s v port app key
  handle-IsSole s fresh (socket_response_received port response) v =
      socket_response-IsSole M s v port response fresh
  handle-IsSole s fresh (connection_handler_request_received port id request) v =
      in_port-AllPorts PortIsSole _ port s
        (λ p e w.
          Unmoved-PortIsSole p _ (handler_request-Unmoved M within id p port fresh request) w)
        v
  handle-IsSole s fresh (connection_handler_gone port id) v =
      in_port-AllPorts PortIsSole _ port s
        (λ p e w. Unmoved-PortIsSole p _ (clean-Unmoved M id p) w) v
  handle-IsSole s fresh (watcher_media_data_received media_data port app key) v =
      in_port-AllPorts PortIsSole _ port s
        (λ p e w.
          in_app-keeps PortIsSole _ app p
            (λ a f. Unmoved-PortIsSole p _ (receive_media-Unmoved M p app key media_data a f) w) w)
        v
  handle-IsSole s fresh (validation_approval_response_received port id response) v =
      in_port-AllPorts PortIsSole _ port s
        (λ p e w. Unmoved-PortIsSole p _ (validation-Unmoved M within id p port fresh response) w) v
  handle-IsSole s fresh (port_gone port) v = remove-AllPorts PortIsSole port s.ports v

  -- The states of the endpoint, whatever it is told.
  pub data Served : RtmpServerEndpointActor C → Type 0 where
    begun : Served (record { ports = [] })
    later :
        {s t : RtmpServerEndpointActor C} {effects : List (Effect M)}
        → Served s
        → (fresh : Fresh) (e : FutureResult C M) → handle within s fresh e ≡ goes_on t effects
        → Served t

  Served-IsSole : (s : RtmpServerEndpointActor C) → Served s → AllPorts PortIsSole s.ports
  unfolding lookup
  Served-IsSole _ begun = λ port p e. cc
  Served-IsSole t (later {s = s} r fresh e q) =
      subst RoundIsSole q (handle-IsSole s fresh e (Served-IsSole s r))

  -- In every state that the RTMP endpoint comes to, whatever it is told, the registrant that is
  -- found for a stream key in an app is the one that is registered there for a key that covers it,
  -- that key or any key: it is found exactly if it is, among the publishers and among the watchers.
  pub found_lem :
      (s : RtmpServerEndpointActor C) (port : ℕ) (p : PortMapping C) (app : String)
      (a : RtmpAppMapping C) (key : String) (r : PublishingRegistrant C) (w : WatcherRegistrant C)
      → Served s
      → lookup port s.ports ≡ some p
      → lookup app p.rtmp_applications ≡ some a
      → ((find_registrant key a.publisher_registrants ≡ some r) ↔ (
          (i : StreamKeyRegistration) × (lookup i a.publisher_registrants ≡ some r)
          × (covers i key ≡ true)))
        × ((find_registrant key a.watcher_registrants ≡ some w) ↔ (
            (i : StreamKeyRegistration) × (lookup i a.watcher_registrants ≡ some w)
            × (covers i key ≡ true)))
  unfolding registrants
  found_lem s port p app a key r w served e f =
      let sole = Served-IsSole s served port p e app (registrants_of a) (ap of_app f) in
      (
        find_registrant-covers a.publisher_registrants key r sole.publishers,
        find_registrant-covers a.watcher_registrants key w sole.watchers,
      )
