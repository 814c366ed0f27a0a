-- ===== src/RtmpServer/Types.antt =====
-- The messages of the RTMP server endpoint: mmids-rtmp/src/rtmp_server/mod.rs, and those of
-- actor/connection_handler.rs, of mmids-core/src/net/mod.rs and of net/tcp/mod.rs that it exchanges.
-- A connection id (a wrapped string) is a String, an IPv4 address its 32-bit number, bytes a list of
-- numbers, an `RtmpTimestamp` the number of milliseconds it is made from, and either end of a channel
-- a number. The stream metadata of the RTMP library is a type M, a CIDR range a type C.
use mmids_core.Common.{
  ℕ, String, ◌≡◌, refl, ap, ◌↔◌, Bool, true, false, not, ◌||◌, Option, List, [], ◌∷◌, arith, Eq,
  ◌==◌, nat_eq, string_eq, ==_refl, ==_eq,
}
use mmids_core.Common.Int.{ℤ}
use mmids_core.Workflows.Media.{StreamId}
use mmids_core.Workflows.Requests.{Sender}

abbrev pub ConnectionId : Type 0
ConnectionId = String

pub data SocketAddr : Type 0 where
  v4 : ℕ → ℕ → SocketAddr
  v6 : ℕ → ℕ → SocketAddr

pub data IpAddress (C : Type 0) : Type 0 where
  exact_address : ℕ → IpAddress C
  cidr : C → IpAddress C

pub data IpRestriction (C : Type 0) : Type 0 where
  no_restriction : IpRestriction C
  allow : List (IpAddress C) → IpRestriction C
  deny : List (IpAddress C) → IpRestriction C

pub data StreamKeyRegistration : Type 0 where
  any_key : StreamKeyRegistration
  exact : String → StreamKeyRegistration

pub data RegistrationType : Type 0 where
  publisher watcher : RegistrationType

pub data RtmpEndpointMediaData (M : Type 0) : Type 0 where
  new_stream_metadata : M → RtmpEndpointMediaData M
  new_video_data :
      (is_keyframe is_sequence_header : Bool) (data_bytes : List ℕ) (timestamp : ℕ)
      (composition_time_offset : ℤ)
      → RtmpEndpointMediaData M
  new_audio_data :
      (is_sequence_header : Bool) (data_bytes : List ℕ) (timestamp : ℕ) → RtmpEndpointMediaData M

pub data ValidationResponse : Type 0 where
  approve : Sender → ValidationResponse
  reject : ValidationResponse

pub data RtmpEndpointRequest (C : Type 0) : Type 0 where
  listen_for_publishers :
      (port : ℕ) (rtmp_app : String) (rtmp_stream_key : StreamKeyRegistration)
      (message_channel : Sender) (stream_id : Option StreamId) (ip_restrictions : IpRestriction C)
      (use_tls requires_registrant_approval : Bool)
      → RtmpEndpointRequest C
  listen_for_watchers :
      (port : ℕ) (rtmp_app : String) (rtmp_stream_key : StreamKeyRegistration)
      (media_channel notification_channel : Sender) (ip_restrictions : IpRestriction C)
      (use_tls requires_registrant_approval : Bool)
      → RtmpEndpointRequest C
  remove_registration :
      RegistrationType → ℕ → String → StreamKeyRegistration → RtmpEndpointRequest C

pub data RtmpEndpointPublisherMessage (M : Type 0) : Type 0 where
  publisher_registration_failed publisher_registration_successful : RtmpEndpointPublisherMessage M
  publisher_requiring_approval : ConnectionId → String → Sender → RtmpEndpointPublisherMessage M
  new_publisher_connected :
      ConnectionId → StreamId → String → Option Sender → RtmpEndpointPublisherMessage M
  publishing_stopped : ConnectionId → RtmpEndpointPublisherMessage M
  stream_metadata_changed : ConnectionId → M → RtmpEndpointPublisherMessage M
  new_video_data :
      (publisher : ConnectionId) (is_keyframe is_sequence_header : Bool) (data_bytes : List ℕ)
      (timestamp : ℕ) (composition_time_offset : ℤ)
      → RtmpEndpointPublisherMessage M
  new_audio_data :
      (publisher : ConnectionId) (is_sequence_header : Bool) (data_bytes : List ℕ) (timestamp : ℕ)
      → RtmpEndpointPublisherMessage M

pub data RtmpEndpointWatcherNotification : Type 0 where
  watcher_registration_failed watcher_registration_successful : RtmpEndpointWatcherNotification
  watcher_requiring_approval : ConnectionId → String → Sender → RtmpEndpointWatcherNotification
  stream_key_became_active : String → Option Sender → RtmpEndpointWatcherNotification
  stream_key_became_inactive : String → RtmpEndpointWatcherNotification

pub data ConnectionRequest : Type 0 where
  request_connect_to_app : String → ConnectionRequest
  request_publish : String → String → ConnectionRequest
  request_watch : String → String → ConnectionRequest
  publish_finished playback_finished : ConnectionRequest

pub data ConnectionResponse : Type 0 where
  request_rejected app_connect_request_accepted : ConnectionResponse
  publish_request_accepted : Sender → ConnectionResponse
  watch_request_accepted : Sender → ConnectionResponse
  disconnect : ConnectionResponse

pub data TcpSocketResponse : Type 0 where
  request_accepted request_denied port_forcibly_closed : TcpSocketResponse
  new_connection : ConnectionId → SocketAddr → TcpSocketResponse
  disconnection : ConnectionId → TcpSocketResponse

-- `#[derive(PartialEq)]`.
unfoldable pub registration_beq : StreamKeyRegistration → StreamKeyRegistration → Bool
registration_beq any_key any_key = true
registration_beq any_key (exact b) = false
registration_beq (exact a) any_key = false
registration_beq (exact a) (exact b) = a == b

abbrev key_in : StreamKeyRegistration → String
key_in any_key = ""
key_in (exact k) = k

pub registration_beq_iff : (a b : StreamKeyRegistration) → (registration_beq a b ≡ true) ↔ (a ≡ b)
unfolding registration_beq
registration_beq_iff any_key any_key = (λ p. refl, λ p. refl)
registration_beq_iff any_key (exact b) = ground arith
registration_beq_iff (exact a) any_key = ground arith
registration_beq_iff (exact a) (exact b) =
    (λ p. ap exact (==_eq a b p), λ p. rw (ap key_in p) (==_refl b))

instance abbrev pub registration_eq : Eq StreamKeyRegistration
unfolding registration_beq
registration_eq = record { beq = registration_beq; beq_iff = registration_beq_iff }

-- `IpAddress::matches`; whether a range contains an address is a parameter.
unfoldable pub matches : {C : Type 0} → (C → ℕ → Bool) → IpAddress C → ℕ → Bool
matches within (exact_address a) other = a == other
matches within (cidr range) other = within range other

unfoldable pub matches_any : {C : Type 0} → (C → ℕ → Bool) → List (IpAddress C) → ℕ → Bool
unfolding matches
matches_any within [] ip = false
matches_any within (a ∷ addresses) ip = matches within a ip || matches_any within addresses ip

unfoldable pub is_ip_allowed : {C : Type 0} → (C → ℕ → Bool) → SocketAddr → IpRestriction C → Bool
unfolding matches_any
is_ip_allowed within client no_restriction = true
is_ip_allowed within (v4 ip port) (allow addresses) = matches_any within addresses ip
is_ip_allowed within (v6 ip port) (allow addresses) = false
is_ip_allowed within (v4 ip port) (deny addresses) = not (matches_any within addresses ip)
is_ip_allowed within (v6 ip port) (deny addresses) = false
