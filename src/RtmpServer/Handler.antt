-- ===== src/RtmpServer/Handler.antt =====
-- The handler of one RTMP connection: mmids-rtmp/src/rtmp_server/actor/connection_handler.rs. The RTMP
-- library, which turns bytes into events and back, is a parameter. A handler returns the state and what
-- it sends; `none` is a panic of `unwrap`, or of the bytes of a video.
pub mod Flv
pub mod Events
pub mod Loop
pub mod Ready
pub mod Raised
pub mod Answers
pub mod Panics
pub mod Leaves
pub mod Turns
pub mod InStep
pub mod InTurn
use mmids_core.Common.{ℕ, String, Bool, true, false, Option, List, [], Eq, nat_eq, string_eq}
use mmids_core.Workflows.Requests.{Sender}
use mmids_core.RtmpServer.Types.{
  ConnectionId, RtmpEndpointMediaData, RtmpEndpointPublisherMessage, ConnectionRequest,
  ConnectionResponse,
}

pub data ConnectionState : Type 0 where
  handshaking rtmp_session_active : ConnectionState
  requested_app_connection : (rtmp_app : String) (rtmp_request_id : ℕ) → ConnectionState
  connected_to_app : (rtmp_app : String) → ConnectionState
  requested_publishing : (rtmp_app stream_key : String) (rtmp_request_id : ℕ) → ConnectionState
  publishing : (rtmp_app stream_key : String) → ConnectionState
  requested_watch : (rtmp_app stream_key : String) (rtmp_request_id stream_id : ℕ) → ConnectionState
  watching : (rtmp_app stream_key : String) (stream_id : ℕ) → ConnectionState

pub record OutboundPacket : Type 0 where
  pub bytes : List ℕ
  pub can_be_dropped : Bool

pub data PublishMode : Type 0 where
  live_mode other_mode : PublishMode

-- What the session of the RTMP library raises; `other_event` stands for the events that are only
-- logged.
pub data ServerSessionEvent (M : Type 0) : Type 0 where
  connection_requested : (request_id : ℕ) (app_name : String) → ServerSessionEvent M
  publish_stream_requested :
      (request_id : ℕ) (app_name stream_key : String) (mode : PublishMode) → ServerSessionEvent M
  stream_metadata_changed : (app_name stream_key : String) (metadata : M) → ServerSessionEvent M
  video_data_received :
      (app_name stream_key : String) (data_bytes : List ℕ) (timestamp : ℕ) → ServerSessionEvent M
  audio_data_received :
      (app_name stream_key : String) (data_bytes : List ℕ) (timestamp : ℕ) → ServerSessionEvent M
  play_stream_requested :
      (app_name stream_key : String) (stream_id request_id : ℕ) → ServerSessionEvent M
  publish_stream_finished play_stream_finished :
      (app_name stream_key : String) → ServerSessionEvent M
  other_event : ServerSessionEvent M

pub data ServerSessionResult (M : Type 0) : Type 0 where
  outbound_response : OutboundPacket → ServerSessionResult M
  raised_event : ServerSessionEvent M → ServerSessionResult M
  unhandleable_message_received : ServerSessionResult M

pub data HandshakeProcessResult : Type 0 where
  in_progress : (response_bytes : List ℕ) → HandshakeProcessResult
  completed : (response_bytes remaining_bytes : List ℕ) → HandshakeProcessResult

-- The RTMP library: handshakes H, sessions S. `none` is an error, after which the handler ends.
pub record RtmpLibrary (H S M : Type 0) : Type 0 where
  pub generate_outbound_p0_and_p1 : H → Option (H × List ℕ)
  pub process_bytes : H → List ℕ → Option (H × HandshakeProcessResult)
  pub new_session : Option (S × List (ServerSessionResult M))
  pub handle_input : S → List ℕ → Option (S × List (ServerSessionResult M))
  pub accept_request : S → ℕ → Option (S × List (ServerSessionResult M))
  pub send_metadata : S → ℕ → M → Option (S × OutboundPacket)
  pub send_video_data : S → ℕ → List ℕ → ℕ → Bool → Option (S × OutboundPacket)
  pub send_audio_data : S → ℕ → List ℕ → ℕ → Bool → Option (S × OutboundPacket)

pub record RtmpServerConnectionHandler (H S : Type 0) : Type 0 where
  pub id : ConnectionId
  pub state : ConnectionState
  pub handshake : H
  pub rtmp_session : Option S
  pub force_disconnect : Bool
  pub published_event_channel : Option Sender

pub data FutureResult (M : Type 0) : Type 0 where
  response_received : ConnectionResponse → FutureResult M
  bytes_received : List ℕ → FutureResult M
  watched_media_received : RtmpEndpointMediaData M → FutureResult M
  disconnected rtmp_server_endpoint_gone : FutureResult M

-- What is sent to the peer, to the endpoint and to the registrant, and a channel of media to wait for.
pub data Effect (M : Type 0) : Type 0 where
  send_packet : OutboundPacket → Effect M
  send_request : ConnectionRequest → Effect M
  send_event : Sender → RtmpEndpointPublisherMessage M → Effect M
  receive_media_of : Sender → Effect M

-- `force_disconnect` is set, and nothing else done.
abbrev pub forced :
    {H S M : Type 0}
    → RtmpServerConnectionHandler H S
    → RtmpServerConnectionHandler H S × List (Effect M)
forced s = (record s { force_disconnect = true }, [])

abbrev pub packet : List ℕ → OutboundPacket
packet bytes = record { bytes = bytes; can_be_dropped = false }
