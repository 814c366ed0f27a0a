-- ===== src/RtmpSteps/RoundTrip.antt =====
-- What an RTMP publisher sends is what RTMP watchers get, through the notifications of a workflow.
use mmids_core.Common.{
  ℕ, ◌*◌, ◌/◌, ◌%◌, ◌^◌, ◌<◌, ◌≡◌, refl, inl, inr, Bool, true, false, ◌&&◌, some, List, [], ◌∷◌,
  arith, Option-cases, ◌==◌, nat_eq, string_eq, ==_refl, ==_false, All, lookup, ok,
}
use mmids_core.Common.Int.{ℤ, to_word, Fits}
use mmids_core.Metadata.Buffer.{length-put_be}
use mmids_core.Metadata.Types.{
  MetadataValueType, MetadataValue, type_beq, type_beq_iff, value_type_eq,
}
use mmids_core.Metadata.Keys.{MetadataKey, value_type_from_klv_id}
use mmids_core.Metadata.Entry.{MetadataEntry, bool_byte}
use mmids_core.Metadata.Entry.Laws.{entry_of, new_entry-entry_of, value-entry_of}
use mmids_core.Metadata.Collection.{
  MediaPayloadMetadataCollection, new_collection, collection_iter, collection_iter-new_collection,
  IsEntry,
}
use mmids_core.Workflows.Media.{MediaType, MediaPayload, media_payload}
use mmids_core.RtmpServer.Types.{ConnectionId, RtmpEndpointMediaData, RtmpEndpointPublisherMessage}
use mmids_core.RtmpSteps.Conversion.{
  MetadataFormat, video_codec_h264_avc, first_value, as_bool, as_i32, key_beq, video_data,
  from_media_notification_content,
}
use mmids_core.RtmpSteps.Receive.{
  RtmpReceiverStep, ConnectionDetails, video_payload, pass_media, handle_rtmp_publisher_message,
}

-- A key as the registry gives it for the type.
pub record IsKey (key : MetadataKey) (t : MetadataValueType) : Type 0 where
  pub of_type : key.value_type ≡ t
  pub fits : key.klv_id < 256 ^ 2
  pub tells : value_type_from_klv_id key.klv_id ≡ some t

module _ (k j : MetadataKey) (k_is : IsKey k MetadataValueType.bool)
    (j_is : IsKey j MetadataValueType.i32) (b : Bool) (z : ℤ) (z_fits : Fits (256 ^ 4) z) where
  entries : List MetadataEntry
  entries = entry_of k (MetadataValue.bool b) ∷ entry_of j (MetadataValue.i32 z) ∷ []

  entries_are : All IsEntry entries
  unfolding entries
  entries_are = (
    (k_is.fits, rw (length-put_be 1 (bool_byte b)) (omega arith), rw k_is.of_type k_is.tells),
    (
      (
        j_is.fits,
        rw (length-put_be 4 (to_word (256 ^ 4) z)) (omega arith),
        rw j_is.of_type j_is.tells,
      ),
      tt,
    ),
  )

  -- The collection can be made and read.
  collected :
      (c : MediaPayloadMetadataCollection) × (new_collection entries ≡ some c)
      × (collection_iter c ≡ some entries)
  collected = elim (Option-cases (new_collection entries)) [
    | inl e ↦ cc (rw e at (collection_iter-new_collection entries entries_are))
    | inr (c, e) ↦ (c, e, rw e at (collection_iter-new_collection entries entries_are))
  ]

  key_beq_refl : (key : MetadataKey) → key_beq key key ≡ true
  key_beq_refl key =
      rw (==_refl key.klv_id, (type_beq_iff key.value_type key.value_type).1 refl) refl

  found_bool : first_value as_bool k entries ≡ some (some b)
  unfolding first_value entries
  found_bool = rw (key_beq_refl k, value-entry_of k (MetadataValue.bool b) k_is.of_type tt) refl

  found_i32 : first_value as_i32 j entries ≡ some (some z)
  unfolding first_value entries
  found_i32 =
      rw (other_key, key_beq_refl j, value-entry_of j (MetadataValue.i32 z) j_is.of_type z_fits)
        refl
    where
      apart :
          (same : Bool) → (same && type_beq MetadataValueType.bool MetadataValueType.i32) ≡ false
      apart false = refl
      apart true = ==_false MetadataValueType.bool MetadataValueType.i32 (λ p. cc)

      other_key : key_beq k j ≡ false
      other_key = rw (k_is.of_type, j_is.of_type) (apart (k.klv_id == j.klv_id))

unfoldable payload_of : MediaPayloadMetadataCollection → Bool → List ℕ → ℕ → MediaPayload
payload_of c is_sequence_header data_bytes timestamp = record {
  media_type = MediaType.video;
  payload_type = video_codec_h264_avc;
  timestamp = timestamp * 1000000;
  metadata = c;
  payload = data_bytes;
  is_required_for_decoding = is_sequence_header;
}

module _ (s : RtmpReceiverStep) (k_is : IsKey s.is_keyframe_metadata_key MetadataValueType.bool)
    (j_is : IsKey s.pts_offset_metadata_key MetadataValueType.i32) (b : Bool) (z : ℤ)
    (z_fits : Fits (256 ^ 4) z) (h : Bool) (data_bytes : List ℕ) (timestamp : ℕ)
    (c : MediaPayloadMetadataCollection) where
  abbrev made_of : List MetadataEntry
  made_of = entries s.is_keyframe_metadata_key s.pts_offset_metadata_key k_is j_is b z z_fits

  video_payload-made :
      new_collection made_of ≡ some c
      → video_payload s b h data_bytes timestamp z ≡ some (payload_of c h data_bytes timestamp)
  unfolding video_payload payload_of entries
  video_payload-made made =
      rw
        (
          new_entry-entry_of s.is_keyframe_metadata_key (MetadataValue.bool b) k_is.of_type
              (rw (length-put_be 1 (bool_byte b)) (omega arith)),
          new_entry-entry_of s.pts_offset_metadata_key (MetadataValue.i32 z) j_is.of_type
              (rw (length-put_be 4 (to_word (256 ^ 4) z)) (omega arith)),
          made,
        )
        refl

  video_data-read :
      {M : Type 0}
      → collection_iter c ≡ some made_of
      → timestamp < 2 ^ 32
      → video_data {M = M} s.is_keyframe_metadata_key s.pts_offset_metadata_key
          (payload_of c h data_bytes timestamp)
        ≡ some (RtmpEndpointMediaData.new_video_data b h data_bytes timestamp z)
  unfolding video_data payload_of
  video_data-read read small =
      let same : timestamp * 1000000 / 1000000 % 2 ^ 32 ≡ timestamp = omega (arith, small) in
      rw
        (
          read,
          found_bool s.is_keyframe_metadata_key s.pts_offset_metadata_key k_is j_is b z z_fits,
          found_i32 s.is_keyframe_metadata_key s.pts_offset_metadata_key k_is j_is b z z_fits,
          same,
        )
        refl

module _ {C M : Type 0} (format : MetadataFormat M) where
  -- A connection that the receiver step knows sends video, with a timestamp and an offset of 32
  -- bits, and the two metadata keys are registered for their types: the step puts out one
  -- notification, for the connection's stream, without a panic, and what that is converted to for
  -- RTMP watchers is the video that was sent: flags, bytes, timestamp and offset.
  pub video_round_trip :
      (s : RtmpReceiverStep) (fresh : ℕ) (publisher : ConnectionId) (d : ConnectionDetails)
      (is_keyframe is_sequence_header : Bool) (data_bytes : List ℕ) (timestamp : ℕ) (offset : ℤ)
      → lookup publisher s.connection_details ≡ some d
      → IsKey s.is_keyframe_metadata_key MetadataValueType.bool
      → IsKey s.pts_offset_metadata_key MetadataValueType.i32
      → timestamp < 2 ^ 32
      → Fits (256 ^ 4) offset
      → (p : MediaPayload) × (handle_rtmp_publisher_message {C = C} format s fresh (
            RtmpEndpointPublisherMessage.new_video_data publisher is_keyframe is_sequence_header
              data_bytes timestamp offset)
          ≡ some (record {
            step = s;
            outputs = record { stream_id = d.stream_id; content = media_payload p } ∷ [];
            effects = [];
          }))
        × (from_media_notification_content format s.is_keyframe_metadata_key
              s.pts_offset_metadata_key
              (media_payload p)
            ≡ some (
                ok (
                  RtmpEndpointMediaData.new_video_data is_keyframe is_sequence_header data_bytes
                    timestamp offset)))
  unfolding handle_rtmp_publisher_message pass_media from_media_notification_content payload_of
  video_round_trip s fresh publisher d b h data_bytes timestamp offset known k_is j_is small fits =
      let (c, made, read) =
        collected s.is_keyframe_metadata_key s.pts_offset_metadata_key k_is j_is b offset fits in
      (
        payload_of c h data_bytes timestamp,
        rw
            (
              known,
              pass_media,
              video_payload-made s k_is j_is b offset fits h data_bytes timestamp c made,
            )
            refl,
        rw (video_data-read s k_is j_is b offset fits h data_bytes timestamp c read small) refl,
      )
