-- ===== src/RtmpSteps/Conversion.antt =====
-- Media of workflows as media of RTMP: `RtmpEndpointMediaData::from_media_notification_content` of
-- mmids-rtmp/src/rtmp_server/mod.rs, and the codec names of mmids-core/src/codecs.rs. The two
-- translations between stream metadata and key/value pairs are parameters. The entries of a collection
-- are read as a whole, the source stops at the one that it looks for.
use mmids_core.Common.{
  ℕ, ◌/◌, ◌%◌, ◌^◌, String, Bool, false, ◌&&◌, Option, none, some, List, [], ◌∷◌, if◌then◌else◌,
  ◌==◌, nat_eq, string_eq, Map, or_default, Result, ok, err,
}
use mmids_core.Common.Int.{ℤ, pos}
use mmids_core.Metadata.Buffer.{◌>>=◌}
use mmids_core.Metadata.Types.{MetadataValue, type_beq}
use mmids_core.Metadata.Keys.{MetadataKey}
use mmids_core.Metadata.Entry.{MetadataEntry, value}
use mmids_core.Metadata.Collection.{collection_iter}
use mmids_core.Workflows.Media.{
  MediaPayload, MediaNotificationContent, new_incoming_stream, stream_disconnected, metadata,
  media_payload,
}
use mmids_core.RtmpServer.Types.{RtmpEndpointMediaData}

-- The stream metadata of the RTMP library and key/value pairs.
pub record MetadataFormat (M : Type 0) : Type 0 where
  pub stream_metadata_to_hash_map : M → Map String String
  pub hash_map_to_stream_metadata : Map String String → M

abbrev pub video_codec_h264_avc : String
video_codec_h264_avc = "h264-avc"

abbrev pub audio_codec_aac_raw : String
audio_codec_aac_raw = "aac-raw"

pub data MediaDataConversionFailure : Type 0 where
  incompatible_type : MediaDataConversionFailure
  unsupported_payload_type : String → MediaDataConversionFailure

abbrev pub key_beq : MetadataKey → MetadataKey → Bool
key_beq k j = k.klv_id == j.klv_id && type_beq k.value_type j.value_type

abbrev pub as_bool : MetadataValue → Option Bool
as_bool (MetadataValue.bool b) = some b
as_bool _ = none

abbrev pub as_i32 : MetadataValue → Option ℤ
as_i32 (MetadataValue.i32 z) = some z
as_i32 _ = none

-- The first value of the wanted type among the entries with the key; the outer `none` is a panic.
unfoldable pub first_value {ℓ} :
    {A : Type ℓ} → (MetadataValue → Option A) → MetadataKey → List MetadataEntry → Option (Option A)
first_value wanted key [] = some none
first_value wanted key (m ∷ entries) =
    let rest = first_value wanted key entries in
    if key_beq m.key key
    then value m >>= (λ v. elim (wanted v) [ none ↦ rest | some a ↦ some (some a) ])
    else rest

-- `timestamp.as_millis() as u32`, of nanoseconds.
abbrev pub millis : ℕ → ℕ
millis timestamp = timestamp / 1000000 % 2 ^ 32

unfoldable pub video_data :
    {M : Type 0} → MetadataKey → MetadataKey → MediaPayload → Option (RtmpEndpointMediaData M)
video_data is_keyframe_key pts_offset_key m = do
  entries ← collection_iter m.metadata
  is_keyframe ← first_value as_bool is_keyframe_key entries
  pts_offset ← first_value as_i32 pts_offset_key entries
  some (
      RtmpEndpointMediaData.new_video_data (or_default is_keyframe false) m.is_required_for_decoding
        m.payload (millis m.timestamp) (or_default pts_offset (pos 0)))

-- `from_media_notification_content`; `none` is a panic.
unfoldable pub from_media_notification_content :
    {M : Type 0}
    → MetadataFormat M
    → MetadataKey
    → MetadataKey
    → MediaNotificationContent
    → Option (Result (RtmpEndpointMediaData M) MediaDataConversionFailure)
unfolding video_data
from_media_notification_content format is_keyframe_key pts_offset_key stream_disconnected =
    some (err incompatible_type)
from_media_notification_content format is_keyframe_key pts_offset_key (new_incoming_stream name) =
    some (err incompatible_type)
from_media_notification_content format is_keyframe_key pts_offset_key (metadata pairs) =
    some (ok (RtmpEndpointMediaData.new_stream_metadata (format.hash_map_to_stream_metadata pairs)))
from_media_notification_content format is_keyframe_key pts_offset_key (media_payload m) =
    let video = video_data is_keyframe_key pts_offset_key m in
    if m.payload_type == audio_codec_aac_raw
    then some (
        ok (
          RtmpEndpointMediaData.new_audio_data m.is_required_for_decoding m.payload
            (millis m.timestamp)))
    else if m.payload_type == video_codec_h264_avc
    then (video >>= λ media_data. some (ok media_data))
    else some (err (unsupported_payload_type m.payload_type))
