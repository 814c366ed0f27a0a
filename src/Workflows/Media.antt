-- ===== src/Workflows/Media.antt =====
-- Media notifications: mmids-core/src/workflows/mod.rs. A stream id (a wrapped string) is a String, a
-- `Duration` its number of nanoseconds, and a payload its list of bytes.
use mmids_core.Common.{ℕ, Bool, String, List, Map}
use mmids_core.Metadata.Collection.{MediaPayloadMetadataCollection}

abbrev pub StreamId : Type 0
StreamId = String

pub data MediaType : Type 0 where
  audio video other : MediaType

pub record MediaPayload : Type 0 where
  pub media_type : MediaType
  pub payload_type : String
  pub timestamp : ℕ
  pub metadata : MediaPayloadMetadataCollection
  pub payload : List ℕ
  pub is_required_for_decoding : Bool

pub data MediaNotificationContent : Type 0 where
  new_incoming_stream : String → MediaNotificationContent
  stream_disconnected : MediaNotificationContent
  metadata : Map String String → MediaNotificationContent
  media_payload : MediaPayload → MediaNotificationContent

pub record MediaNotification : Type 0 where
  pub stream_id : StreamId
  pub content : MediaNotificationContent
