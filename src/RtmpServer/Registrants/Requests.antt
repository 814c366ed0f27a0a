-- ===== src/RtmpServer/Registrants/Requests.antt =====
-- Each handler of connections, sockets that go and approvals leaves the registrants as they are.
use mmids_core.Common.{
  ℕ, String, ◌≡◌, refl, inl, inr, Bool, true, none, some, Option-cases, nat_eq, string_eq, lookup,
  remove,
}
use mmids_core.Workflows.Requests.{Sender}
use mmids_core.RtmpServer.Types.{
  ConnectionId, RtmpEndpointMediaData, ConnectionRequest, request_connect_to_app, request_publish,
  request_watch, publish_finished, playback_finished, ValidationResponse, approve, reject,
}
use mmids_core.RtmpServer.State.{
  RtmpAppMapping, ConnectionState, no_state, waiting_for_publish_validation,
  waiting_for_watch_validation, publishing, watching, Connection, PortMapping, Fresh,
  put_connection,
}
use mmids_core.RtmpServer.Publishing.{stop_publish_of, handle_connection_stop_publish}
use mmids_core.RtmpServer.Watching.{receive_media, stop_watch_of, handle_connection_stop_watch}
use mmids_core.RtmpServer.Endpoint.{
  clean_state, clean_disconnected_connection, handle_connection_handler_request, approved, validate,
  handle_validation_response,
}
use mmids_core.RtmpServer.Registrants.{
  registrants, Unmoved, put_key-Unmoved, leave_publishing-Unmoved, leave_watching-Unmoved,
  request_publish-Unmoved, request_watch-Unmoved,
}

module _ {C : Type 0} (M : Type 0) (id : ConnectionId) (p : PortMapping C) where
  stop_publish_of-Unmoved :
      (n : Connection) (state : ConnectionState)
      → Unmoved p (stop_publish_of {M = M} id p n state).0
  unfolding stop_publish_of registrants put_connection
  stop_publish_of-Unmoved n (publishing app key) i =
      leave_publishing-Unmoved M id (put_connection p id (record n { state = no_state })) app key i
  stop_publish_of-Unmoved n no_state i = refl
  stop_publish_of-Unmoved n (waiting_for_publish_validation app key) i = refl
  stop_publish_of-Unmoved n (waiting_for_watch_validation app key) i = refl
  stop_publish_of-Unmoved n (watching app key) i = refl

  stop_watch_of-Unmoved :
      (n : Connection) (state : ConnectionState) → Unmoved p (stop_watch_of {M = M} id p n state).0
  unfolding stop_watch_of registrants put_connection
  stop_watch_of-Unmoved n (watching app key) i =
      leave_watching-Unmoved M id (put_connection p id (record n { state = no_state })) app key i
  stop_watch_of-Unmoved n no_state i = refl
  stop_watch_of-Unmoved n (waiting_for_publish_validation app key) i = refl
  stop_watch_of-Unmoved n (waiting_for_watch_validation app key) i = refl
  stop_watch_of-Unmoved n (publishing app key) i = refl

  clean_state-Unmoved : (state : ConnectionState) → Unmoved p (clean_state {M = M} id p state).0
  unfolding clean_state
  clean_state-Unmoved (publishing app key) i = leave_publishing-Unmoved M id p app key i
  clean_state-Unmoved (watching app key) i = leave_watching-Unmoved M id p app key i
  clean_state-Unmoved no_state i = refl
  clean_state-Unmoved (waiting_for_publish_validation app key) i = refl
  clean_state-Unmoved (waiting_for_watch_validation app key) i = refl

module _ {C : Type 0} (M : Type 0) (id : ConnectionId) (p : PortMapping C) where
  stop_publish-Unmoved : Unmoved p (handle_connection_stop_publish {M = M} id p).0
  unfolding handle_connection_stop_publish
  stop_publish-Unmoved = elim (Option-cases (lookup id p.connections)) [
    | inl h ↦ rw (h, handle_connection_stop_publish) (λ i. refl)
    | inr (n, h) ↦ rw (h, handle_connection_stop_publish) (stop_publish_of-Unmoved M id p n n.state)
  ]

  stop_watch-Unmoved : Unmoved p (handle_connection_stop_watch {M = M} id p).0
  unfolding handle_connection_stop_watch
  stop_watch-Unmoved = elim (Option-cases (lookup id p.connections)) [
    | inl h ↦ rw (h, handle_connection_stop_watch) (λ i. refl)
    | inr (n, h) ↦ rw (h, handle_connection_stop_watch) (stop_watch_of-Unmoved M id p n n.state)
  ]

  pub clean-Unmoved : Unmoved p (clean_disconnected_connection {M = M} id p).0
  unfolding clean_disconnected_connection registrants
  clean-Unmoved = elim (Option-cases (lookup id p.connections)) [
    | inl h ↦ rw (h, clean_disconnected_connection) (λ i. refl)
    | inr (n, h) ↦
        rw (h, clean_disconnected_connection)
          (clean_state-Unmoved M id (record p { connections = remove id p.connections }) n.state)
  ]

module _ {C : Type 0} (M : Type 0) (p : PortMapping C) where
  pub receive_media-Unmoved :
      (app key : String) (m : RtmpEndpointMediaData M) (a : RtmpAppMapping C)
      → lookup app p.rtmp_applications ≡ some a
      → Unmoved p (receive_media p app key m a).0
  unfolding receive_media
  receive_media-Unmoved app key m a e = put_key-Unmoved p app a key _ e

module _ {C : Type 0} (M : Type 0) (within : C → ℕ → Bool) (id : ConnectionId) (p : PortMapping C)
    (port : ℕ) (fresh : Fresh) where
  -- Whatever a connection asks for, the registrants of all apps stay.
  pub handler_request-Unmoved :
      (request : ConnectionRequest)
      → Unmoved p (handle_connection_handler_request {M = M} within id port request fresh p).0
  unfolding handle_connection_handler_request
  handler_request-Unmoved (request_connect_to_app app) = λ i. refl
  handler_request-Unmoved (request_publish app key) =
      request_publish-Unmoved M within id p port app key none fresh
  handler_request-Unmoved (request_watch app key) =
      request_watch-Unmoved M within id p port app key none fresh
  handler_request-Unmoved publish_finished = stop_publish-Unmoved M id p
  handler_request-Unmoved playback_finished = stop_watch-Unmoved M id p

  approved-Unmoved :
      (updates : Sender) (n : Connection) (state : ConnectionState)
      → Unmoved p (approved {M = M} within id port updates fresh p n state).0
  unfolding approved registrants put_connection
  approved-Unmoved updates n (waiting_for_publish_validation app key) i =
      request_publish-Unmoved M within id
        (put_connection p id (record n { received_registrant_approval = true })) port app key
        (some updates) fresh i
  approved-Unmoved updates n (waiting_for_watch_validation app key) i =
      request_watch-Unmoved M within id
        (put_connection p id (record n { received_registrant_approval = true })) port app key
        (some updates) fresh i
  approved-Unmoved updates n no_state i = refl
  approved-Unmoved updates n (publishing app key) i = refl
  approved-Unmoved updates n (watching app key) i = refl

  validate-Unmoved :
      (response : ValidationResponse) (n : Connection)
      → Unmoved p (validate {M = M} within id port response fresh p n).0
  unfolding validate
  validate-Unmoved (approve updates) n = approved-Unmoved updates n n.state
  validate-Unmoved reject n = λ i. refl

  pub validation-Unmoved :
      (response : ValidationResponse)
      → Unmoved p (handle_validation_response {M = M} within id port response fresh p).0
  unfolding handle_validation_response
  validation-Unmoved response = elim (Option-cases (lookup id p.connections)) [
    | inl h ↦ rw (h, handle_validation_response) (λ i. refl)
    | inr (n, h) ↦ rw (h, handle_validation_response) (validate-Unmoved response n)
  ]
