-- ===== src/RtmpServer/State.antt =====
-- The state of the RTMP server endpoint: mmids-rtmp/src/rtmp_server/actor/actor_types.rs. The
-- receivers that are only kept so that dropping them cancels a future (`cancellation_notifier`) are
-- numbers, too.
use mmids_core.Common.{
  ℕ, String, Bool, Option, none, some, List, [], nat_eq, string_eq, Map, lookup, insert,
}
use mmids_core.Workflows.Media.{StreamId}
use mmids_core.Workflows.Requests.{Sender}
use mmids_core.RtmpServer.Types.{
  ConnectionId, SocketAddr, IpRestriction, StreamKeyRegistration, registration_eq, any_key, exact,
  RtmpEndpointMediaData, ValidationResponse, RtmpEndpointRequest, RtmpEndpointPublisherMessage,
  RtmpEndpointWatcherNotification, ConnectionRequest, ConnectionResponse, TcpSocketResponse,
}

pub record PublishingRegistrant (C : Type 0) : Type 0 where
  pub response_channel : Sender
  pub stream_id : Option StreamId
  pub ip_restrictions : IpRestriction C
  pub requires_registrant_approval : Bool
  pub cancellation_notifier : Sender

pub record WatcherRegistrant (C : Type 0) : Type 0 where
  pub response_channel : Sender
  pub ip_restrictions : IpRestriction C
  pub requires_registrant_approval : Bool
  pub cancellation_notifier : Sender

pub record WatcherDetails : Type 0 where
  pub media_sender : Sender

-- A sequence header is its bytes.
pub record StreamKeyConnections : Type 0 where
  pub publisher : Option ConnectionId
  pub watchers : Map ConnectionId WatcherDetails
  pub latest_video_sequence_header : Option (List ℕ)
  pub latest_audio_sequence_header : Option (List ℕ)

pub record RtmpAppMapping (C : Type 0) : Type 0 where
  pub publisher_registrants : Map StreamKeyRegistration (PublishingRegistrant C)
  pub watcher_registrants : Map StreamKeyRegistration (WatcherRegistrant C)
  pub active_stream_keys : Map String StreamKeyConnections

pub data PortStatus : Type 0 where
  requested opened : PortStatus

pub data ConnectionState : Type 0 where
  no_state : ConnectionState
  waiting_for_publish_validation : String → String → ConnectionState
  waiting_for_watch_validation : String → String → ConnectionState
  publishing : String → String → ConnectionState
  watching : String → String → ConnectionState

pub record Connection : Type 0 where
  pub response_channel : Sender
  pub state : ConnectionState
  pub socket_address : SocketAddr
  pub received_registrant_approval : Bool

pub record PortMapping (C : Type 0) : Type 0 where
  pub rtmp_applications : Map String (RtmpAppMapping C)
  pub status : PortStatus
  pub connections : Map ConnectionId Connection
  pub tls : Bool

pub record RtmpServerEndpointActor (C : Type 0) : Type 0 where
  pub ports : Map ℕ (PortMapping C)

pub data FutureResult (C M : Type 0) : Type 0 where
  endpoint_request_received : RtmpEndpointRequest C → FutureResult C M
  socket_response_received : ℕ → TcpSocketResponse → FutureResult C M
  publishing_registrant_gone : ℕ → String → StreamKeyRegistration → FutureResult C M
  connection_handler_request_received : ℕ → ConnectionId → ConnectionRequest → FutureResult C M
  connection_handler_gone : ℕ → ConnectionId → FutureResult C M
  watcher_registrant_gone : ℕ → String → StreamKeyRegistration → FutureResult C M
  watcher_media_data_received : RtmpEndpointMediaData M → ℕ → String → String → FutureResult C M
  port_gone : ℕ → FutureResult C M
  no_more_endpoint_requesters socket_manager_closed : FutureResult C M
  validation_approval_response_received : ℕ → ConnectionId → ValidationResponse → FutureResult C M

-- What a handler does outside the actor: it sends a message to a registrant, to a connection's
-- handler or to a watcher, asks for a port, starts a connection's handler, or starts a future that
-- tells the actor when a registrant is gone or has answered.
pub data Effect (M : Type 0) : Type 0 where
  tell_publisher : Sender → RtmpEndpointPublisherMessage M → Effect M
  tell_watcher : Sender → RtmpEndpointWatcherNotification → Effect M
  respond : Sender → ConnectionResponse → Effect M
  send_media : Sender → RtmpEndpointMediaData M → Effect M
  open_port : ℕ → Sender → Bool → Effect M
  start_handler : ℕ → ConnectionId → Sender → Effect M
  await_publisher_gone : Sender → Sender → ℕ → String → StreamKeyRegistration → Effect M
  await_watcher_gone : Sender → Sender → ℕ → String → StreamKeyRegistration → Effect M
  forward_media : Sender → ℕ → String → StreamKeyRegistration → Effect M
  await_validation : ℕ → ConnectionId → Sender → Effect M

-- The channels and the stream id that one call of a handler makes.
pub record Fresh : Type 0 where
  pub channel : Sender
  pub cancellation : Sender
  pub stream_id : StreamId

-- What `or_insert` enters for a new key and for a new app.
abbrev pub no_connections : StreamKeyConnections
no_connections = record {
  publisher = none;
  watchers = [];
  latest_video_sequence_header = none;
  latest_audio_sequence_header = none;
}

-- The registrant for a stream key: the one for any key goes first.
unfoldable pub find_registrant {ℓ} : {V : Type ℓ} → String → Map StreamKeyRegistration V → Option V
find_registrant stream_key registrants = elim (lookup any_key registrants) [
  | some x ↦ some x
  | none ↦ lookup (exact stream_key) registrants
]

module _ {C : Type 0} where
  abbrev pub no_registrants : RtmpAppMapping C
  no_registrants = record {
    publisher_registrants = [];
    watcher_registrants = [];
    active_stream_keys = [];
  }

  -- The changed connections of a key are put back in its app, and the app in its port.
  unfoldable pub put_key :
      PortMapping C → String → RtmpAppMapping C → String → StreamKeyConnections → PortMapping C
  put_key p rtmp_app app_map stream_key c = record p {
    rtmp_applications =
        insert rtmp_app
          (record app_map { active_stream_keys = insert stream_key c app_map.active_stream_keys })
          p.rtmp_applications;
  }

  unfoldable pub put_connection : PortMapping C → ConnectionId → Connection → PortMapping C
  put_connection p id c = record p { connections = insert id c p.connections }
