-- ===== src/RtmpServer/Endpoint.antt =====
-- The actor's loop and the handlers of sockets, connections and approvals:
-- mmids-rtmp/src/rtmp_server/actor/mod.rs.
use mmids_core.Common.{
  ℕ, String, Bool, true, false, not, none, some, List, [], ◌∷◌, ◌++◌, map, if◌then◌else◌, nat_eq,
  string_eq, values, lookup, insert, remove, contains_key,
}
use mmids_core.Workflows.Requests.{Sender}
use mmids_core.RtmpServer.Types.{
  ConnectionId, RtmpEndpointRequest, listen_for_publishers, listen_for_watchers,
  remove_registration, RegistrationType, ConnectionRequest, request_connect_to_app, request_publish,
  request_watch, publish_finished, playback_finished, request_rejected,
  app_connect_request_accepted, ValidationResponse, approve, reject, TcpSocketResponse,
  request_accepted, request_denied, port_forcibly_closed, new_connection, disconnection,
  registration_eq, RtmpEndpointPublisherMessage, RtmpEndpointWatcherNotification,
  publisher_registration_failed, publisher_registration_successful, watcher_registration_failed,
  watcher_registration_successful,
}
use mmids_core.RtmpServer.State.{
  RtmpAppMapping, PublishingRegistrant, WatcherRegistrant, opened, ConnectionState, no_state,
  waiting_for_publish_validation, waiting_for_watch_validation, publishing, watching, Connection,
  PortMapping, RtmpServerEndpointActor, FutureResult, endpoint_request_received,
  socket_response_received, publishing_registrant_gone, connection_handler_request_received,
  connection_handler_gone, watcher_registrant_gone, watcher_media_data_received, port_gone,
  no_more_endpoint_requesters, socket_manager_closed, validation_approval_response_received, Effect,
  tell_publisher, tell_watcher, respond, start_handler, Fresh, put_connection,
}
use mmids_core.RtmpServer.Registration.{publisher_listener, watcher_listener, register_listener}
use mmids_core.RtmpServer.Removal.{
  in_app, in_port, remove_publish_registration, remove_watcher_registration,
}
use mmids_core.RtmpServer.Publishing.{
  handle_connection_request_publish, leave_publishing, handle_connection_stop_publish,
}
use mmids_core.RtmpServer.Watching.{
  receive_media, handle_connection_request_watch, leave_watching, handle_connection_stop_watch,
}

module _ {C M : Type 0} where
  unfoldable pub handle_connection_request_connect_to_app :
      ConnectionId → PortMapping C → String → List (Effect M)
  handle_connection_request_connect_to_app id p rtmp_app = elim (lookup id p.connections) [
    | none ↦ []
    | some connection ↦
        respond connection.response_channel (
          if not (contains_key rtmp_app p.rtmp_applications)
          then request_rejected
          else app_connect_request_accepted)
        ∷ []
  ]

  unfoldable pub clean_state :
      ConnectionId → PortMapping C → ConnectionState → PortMapping C × List (Effect M)
  clean_state id p no_state = (p, [])
  clean_state id p (waiting_for_publish_validation rtmp_app stream_key) = (p, [])
  clean_state id p (waiting_for_watch_validation rtmp_app stream_key) = (p, [])
  clean_state id p (publishing rtmp_app stream_key) = leave_publishing p id rtmp_app stream_key
  clean_state id p (watching rtmp_app stream_key) = leave_watching p id rtmp_app stream_key

  unfoldable pub clean_disconnected_connection :
      ConnectionId → PortMapping C → PortMapping C × List (Effect M)
  unfolding clean_state
  clean_disconnected_connection id p = elim (lookup id p.connections) [
    | none ↦ (p, [])
    | some connection ↦
        clean_state id (record p { connections = remove id p.connections }) connection.state
  ]

  -- All registrants of a port are told the same.
  abbrev pub tell_registrants :
      RtmpEndpointPublisherMessage M
      → RtmpEndpointWatcherNotification
      → List (RtmpAppMapping C)
      → List (Effect M)
  tell_registrants message notification [] = []
  tell_registrants message notification (app_map ∷ rest) =
      map (λ (r : PublishingRegistrant C). tell_publisher r.response_channel message)
        (values app_map.publisher_registrants)
      ++ map (λ (r : WatcherRegistrant C). tell_watcher r.response_channel notification)
          (values app_map.watcher_registrants)
      ++ tell_registrants message notification rest

  unfoldable pub handle_response_of :
      RtmpServerEndpointActor C
      → ℕ
      → TcpSocketResponse
      → Fresh
      → PortMapping C
      → RtmpServerEndpointActor C × List (Effect M)
  handle_response_of s port request_denied fresh p = (
    record s { ports = remove port s.ports },
    tell_registrants publisher_registration_failed watcher_registration_failed
        (values p.rtmp_applications),
  )
  handle_response_of s port port_forcibly_closed fresh p =
      (record s { ports = remove port s.ports }, [])
  handle_response_of s port request_accepted fresh p = (
    record s { ports = insert port (record p { status = opened }) s.ports },
    tell_registrants publisher_registration_successful watcher_registration_successful
        (values p.rtmp_applications),
  )
  handle_response_of s port (new_connection id address) fresh p = (
    record s {
      ports =
          insert port
            (put_connection p id (record {
              response_channel = fresh.channel;
              state = no_state;
              socket_address = address;
              received_registrant_approval = false;
            }))
            s.ports;
    },
    start_handler port id fresh.channel ∷ [],
  )
  handle_response_of s port (disconnection id) fresh p =
      let (cleaned, effects) = clean_disconnected_connection id p in
      (record s { ports = insert port cleaned s.ports }, effects)

  -- `handle_socket_response`.
  unfoldable pub handle_socket_response :
      RtmpServerEndpointActor C
      → ℕ
      → TcpSocketResponse
      → Fresh
      → RtmpServerEndpointActor C × List (Effect M)
  unfolding handle_response_of
  handle_socket_response s port response fresh = elim (lookup port s.ports) [
    | none ↦ (s, [])
    | some p ↦ handle_response_of s port response fresh p
  ]

  -- `handle_endpoint_request`.
  unfoldable pub handle_endpoint_request :
      RtmpServerEndpointActor C
      → RtmpEndpointRequest C
      → Fresh
      → RtmpServerEndpointActor C × List (Effect M)
  handle_endpoint_request s
        (listen_for_publishers port app key channel stream_id restrictions tls approval) fresh =
      register_listener s fresh (record {
        port = port;
        rtmp_app = app;
        stream_key = key;
        listener = publisher_listener channel stream_id approval;
        ip_restrictions = restrictions;
        use_tls = tls;
      })
  handle_endpoint_request s
        (listen_for_watchers port app key media notifications restrictions tls approval) fresh =
      register_listener s fresh (record {
        port = port;
        rtmp_app = app;
        stream_key = key;
        listener = watcher_listener notifications media approval;
        ip_restrictions = restrictions;
        use_tls = tls;
      })
  handle_endpoint_request s (remove_registration RegistrationType.publisher port app key) fresh =
      remove_publish_registration s port app key
  handle_endpoint_request s (remove_registration RegistrationType.watcher port app key) fresh =
      remove_watcher_registration s port app key

pub data Round (C M : Type 0) : Type 0 where
  goes_on : RtmpServerEndpointActor C → List (Effect M) → Round C M
  closes : Round C M

module _ {C M : Type 0} where
  abbrev pub continue : RtmpServerEndpointActor C × List (Effect M) → Round C M
  continue (s, effects) = goes_on s effects

module _ {C M : Type 0} (within : C → ℕ → Bool) where
  -- `handle_connection_handler_request`, in a port that is there.
  unfoldable pub handle_connection_handler_request :
      ConnectionId → ℕ → ConnectionRequest → Fresh → PortMapping C → PortMapping C × List (Effect M)
  handle_connection_handler_request id port (request_connect_to_app app) fresh p =
      (p, handle_connection_request_connect_to_app id p app)
  handle_connection_handler_request id port (request_publish app key) fresh p =
      handle_connection_request_publish within id p port app key none fresh
  handle_connection_handler_request id port (request_watch app key) fresh p =
      handle_connection_request_watch within id p port app key none fresh
  handle_connection_handler_request id port publish_finished fresh p =
      handle_connection_stop_publish id p
  handle_connection_handler_request id port playback_finished fresh p =
      handle_connection_stop_watch id p

  -- What an approval sets off, by the state of the connection.
  unfoldable pub approved :
      ConnectionId
      → ℕ
      → Sender
      → Fresh
      → PortMapping C
      → Connection
      → ConnectionState
      → PortMapping C × List (Effect M)
  approved id port updates fresh p connection (waiting_for_publish_validation app key) =
      handle_connection_request_publish within id
        (put_connection p id (record connection { received_registrant_approval = true })) port app
        key (some updates) fresh
  approved id port updates fresh p connection (waiting_for_watch_validation app key) =
      handle_connection_request_watch within id
        (put_connection p id (record connection { received_registrant_approval = true })) port app
        key (some updates) fresh
  approved id port updates fresh p connection no_state = (p, [])
  approved id port updates fresh p connection (publishing app key) = (p, [])
  approved id port updates fresh p connection (watching app key) = (p, [])

  unfoldable pub validate :
      ConnectionId
      → ℕ
      → ValidationResponse
      → Fresh
      → PortMapping C
      → Connection
      → PortMapping C × List (Effect M)
  unfolding approved
  validate id port (approve updates) fresh p connection =
      approved id port updates fresh p connection connection.state
  validate id port reject fresh p connection =
      (p, respond connection.response_channel request_rejected ∷ [])

  -- `handle_validation_response`, in a port that is there.
  unfoldable pub handle_validation_response :
      ConnectionId
      → ℕ
      → ValidationResponse
      → Fresh
      → PortMapping C
      → PortMapping C × List (Effect M)
  unfolding validate
  handle_validation_response id port response fresh p = elim (lookup id p.connections) [
    | none ↦ (p, [])
    | some connection ↦ validate id port response fresh p connection
  ]

  -- One round of the loop of `run`.
  unfoldable pub handle : RtmpServerEndpointActor C → Fresh → FutureResult C M → Round C M
  handle s fresh no_more_endpoint_requesters = closes
  handle s fresh socket_manager_closed = closes
  handle s fresh (endpoint_request_received request) =
      continue (handle_endpoint_request s request fresh)
  handle s fresh (publishing_registrant_gone port app key) =
      continue (remove_publish_registration s port app key)
  handle s fresh (watcher_registrant_gone port app key) =
      continue (remove_watcher_registration s port app key)
  handle s fresh (socket_response_received port response) =
      continue (handle_socket_response s port response fresh)
  handle s fresh (connection_handler_request_received port id request) =
      continue (in_port (handle_connection_handler_request id port request fresh) port s)
  handle s fresh (connection_handler_gone port id) =
      continue (in_port (clean_disconnected_connection id) port s)
  handle s fresh (watcher_media_data_received media_data port app key) =
      continue (in_port (in_app (λ p a. receive_media p app key media_data a) app) port s)
  handle s fresh (validation_approval_response_received port id response) =
      continue (in_port (handle_validation_response id port response fresh) port s)
  handle s fresh (port_gone port) = goes_on (record s { ports = remove port s.ports }) []
