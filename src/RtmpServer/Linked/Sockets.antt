-- ===== src/RtmpServer/Linked/Sockets.antt =====
-- What happens to the table of ports keeps each port in agreement with its connections.
use mmids_core.Common.{
  ℕ, String, ◌≡◌, inl, inr, not, some, if◌then◌else◌, Bool-cases, Option-cases, nat_eq, string_eq,
  or_default, lookup,
}
use mmids_core.RtmpServer.Types.{
  ConnectionId, TcpSocketResponse, request_accepted, request_denied, port_forcibly_closed,
  new_connection, disconnection, RtmpEndpointRequest, listen_for_publishers, listen_for_watchers,
  remove_registration, RegistrationType, StreamKeyRegistration,
}
use mmids_core.RtmpServer.State.{
  PortMapping, RtmpServerEndpointActor, socket_response_received, Fresh,
}
use mmids_core.RtmpServer.Registration.{RegisterListenerParams, register_listener, new_port_map}
use mmids_core.RtmpServer.Removal.{remove_publish_registration, remove_watcher_registration}
use mmids_core.RtmpServer.Endpoint.{
  handle_response_of, handle_socket_response, handle_endpoint_request,
}
use mmids_core.RtmpServer.Views.{key_of}
use mmids_core.RtmpServer.Ports.{
  AllPorts, insert-AllPorts, remove-AllPorts, in_port-AllPorts, in_app-keeps,
}
use mmids_core.RtmpServer.Linked.{LinkedBut, empty-Agrees, put_connection-Linked}
use mmids_core.RtmpServer.Linked.Clean.{clean-Linked}
use mmids_core.RtmpServer.Linked.Registrants.{
  remove_publisher-Linked, remove_watcher-Linked, register_in-Linked,
}
use mmids_core.RtmpServer.Linked.Requests.{Covers, coming-Absent}

module _ {Bad : ConnectionId → Type 0} {C : Type 0} (M : Type 0) (s : RtmpServerEndpointActor C)
    (v : AllPorts (LinkedBut Bad) s.ports) where
  register-Linked :
      (fresh : Fresh) (params : RegisterListenerParams C)
      → AllPorts (LinkedBut Bad) (register_listener {M = M} s fresh params).0.ports
  unfolding register_listener new_port_map key_of lookup
  register-Linked fresh params =
      elim (Bool-cases (if there.tls then not params.use_tls else params.use_tls)) [
        | inl h ↦
            rw (h, register_listener)
              (insert-AllPorts (LinkedBut Bad) params.port there s.ports linked v)
        | inr h ↦
            rw (h, register_listener)
              (insert-AllPorts (LinkedBut Bad) params.port _ s.ports
                (register_in-Linked M params fresh there linked) v)
      ]
    where
      there : PortMapping C
      there = or_default (lookup params.port s.ports) (new_port_map params.use_tls)

      linked : (LinkedBut Bad) there
      linked app key = elim (Option-cases (lookup params.port s.ports)) [
        | inl e ↦ rw (e, or_default) (empty-Agrees Bad _ app key)
        | inr (p, e) ↦ rw (e, or_default) (v params.port p e app key)
      ]

  pub remove_publish-Linked :
      (port : ℕ) (app : String) (key : StreamKeyRegistration)
      → AllPorts (LinkedBut Bad) (remove_publish_registration {M = M} s port app key).0.ports
  unfolding remove_publish_registration
  remove_publish-Linked port app key =
      in_port-AllPorts (LinkedBut Bad) _ port s
        (λ p e w.
          in_app-keeps (LinkedBut Bad) _ app p (λ a f. remove_publisher-Linked M p app a f w key) w)
        v

  pub remove_watch-Linked :
      (port : ℕ) (app : String) (key : StreamKeyRegistration)
      → AllPorts (LinkedBut Bad) (remove_watcher_registration {M = M} s port app key).0.ports
  unfolding remove_watcher_registration
  remove_watch-Linked port app key =
      in_port-AllPorts (LinkedBut Bad) _ port s
        (λ p e w.
          in_app-keeps (LinkedBut Bad) _ app p (λ a f. remove_watcher-Linked M p app a f w key) w)
        v

  pub endpoint_request-Linked :
      (request : RtmpEndpointRequest C) (fresh : Fresh)
      → AllPorts (LinkedBut Bad) (handle_endpoint_request {M = M} s request fresh).0.ports
  unfolding handle_endpoint_request
  endpoint_request-Linked (listen_for_publishers port app key c i r t a) fresh =
      register-Linked fresh _
  endpoint_request-Linked (listen_for_watchers port app key m n r t a) fresh =
      register-Linked fresh _
  endpoint_request-Linked (remove_registration RegistrationType.publisher port app key) fresh =
      remove_publish-Linked port app key
  endpoint_request-Linked (remove_registration RegistrationType.watcher port app key) fresh =
      remove_watch-Linked port app key

  response-Linked :
      (port : ℕ) (response : TcpSocketResponse) (fresh : Fresh) (p : PortMapping C)
      → lookup port s.ports ≡ some p
      → Covers {M = M} Bad s (socket_response_received port response)
      → AllPorts (LinkedBut Bad) (handle_response_of {M = M} s port response fresh p).0.ports
  unfolding handle_response_of key_of
  response-Linked port request_denied fresh p e covers =
      remove-AllPorts (LinkedBut Bad) port s.ports v
  response-Linked port port_forcibly_closed fresh p e covers =
      remove-AllPorts (LinkedBut Bad) port s.ports v
  response-Linked port request_accepted fresh p e covers =
      insert-AllPorts (LinkedBut Bad) port _ s.ports (v port p e) v
  response-Linked port (new_connection id address) fresh p e covers =
      insert-AllPorts (LinkedBut Bad) port _ s.ports
        (put_connection-Linked p id _ (coming-Absent s port id p e (v port p e) covers)
          (v port p e))
        v
  response-Linked port (disconnection id) fresh p e covers =
      insert-AllPorts (LinkedBut Bad) port _ s.ports (clean-Linked M id p (v port p e)) v

  pub socket_response-Linked :
      (port : ℕ) (response : TcpSocketResponse) (fresh : Fresh)
      → Covers {M = M} Bad s (socket_response_received port response)
      → AllPorts (LinkedBut Bad) (handle_socket_response {M = M} s port response fresh).0.ports
  unfolding handle_socket_response
  socket_response-Linked port response fresh covers = elim (Option-cases (lookup port s.ports)) [
    | inl e ↦ rw (e, handle_socket_response) v
    | inr (p, e) ↦ rw (e, handle_socket_response) (response-Linked port response fresh p e covers)
  ]
