-- ===== src/RtmpServer/Handler/Flv.antt =====
-- The FLV tags around video and audio: the functions at the end of
-- mmids-rtmp/src/rtmp_server/actor/connection_handler.rs. A byte is a number below 256; `none` is a panic,
-- as `split_to` past the end of the bytes is. The reading and writing of 24 bits is the byteorder
-- library's: a parameter, with what it documents as a law.
use mmids_core.Common.{
  ℕ, ◌/◌, ◌%◌, ◌^◌, ◌≤◌, ◌≡◌, refl, ◌↔◌, Bool, true, false, Option, none, some, List, [], ◌∷◌, ◌++◌,
  arith, if◌then◌else◌, ◌==◌, nat_eq, string_eq, length, Result, ok, err,
}
use mmids_core.Common.Int.{ℤ, Fits}
use mmids_core.Metadata.Buffer.{◌>>=◌}

-- `write_i24`, which panics if the number does not fit, and `read_i24`, of three bytes.
pub record Int24 : Type 0 where
  pub write_i24 : ℤ → Option (List ℕ)
  pub read_i24 : ℕ → ℕ → ℕ → ℤ

-- A number that fits is written as three bytes, from which it is read back.
pub record IsExact (b : Int24) : Type 0 where
  pub first : ℤ → ℕ
  pub second : ℤ → ℕ
  pub third : ℤ → ℕ
  pub writes : (z : ℤ) → Fits (2 ^ 24) z → b.write_i24 z ≡ some (first z ∷ second z ∷ third z ∷ [])
  pub reads : (z : ℤ) → Fits (2 ^ 24) z → b.read_i24 (first z) (second z) (third z) ≡ z

pub record UnwrappedVideo : Type 0 where
  pub is_keyframe : Bool
  pub is_sequence_header : Bool
  pub data_bytes : List ℕ
  pub composition_time_in_ms : ℤ

pub record UnwrappedAudio : Type 0 where
  pub is_sequence_header : Bool
  pub data_bytes : List ℕ

-- The texts of the errors: too few bytes, or another codec.
pub data FlvError : Type 0 where
  too_few_bytes unsupported_codec : FlvError

-- One byte is split off, and four.
unfoldable pub unwrap_video_from_flv : Int24 → List ℕ → Option (Result UnwrappedVideo FlvError)
unwrap_video_from_flv b [] = some (err too_few_bytes)
unwrap_video_from_flv b (flv_tag ∷ []) = some (err too_few_bytes)
unwrap_video_from_flv b (flv_tag ∷ packet_type ∷ x ∷ y ∷ z ∷ data_bytes) = some (
    if flv_tag % 8 == 7
    then ok (record {
      is_keyframe = (flv_tag / 16) % 2 == 1;
      is_sequence_header = packet_type == 0;
      data_bytes = data_bytes;
      composition_time_in_ms = b.read_i24 x y z;
    })
    else err unsupported_codec)
unwrap_video_from_flv b _ = none

unfoldable pub wrap_video_into_flv : Int24 → List ℕ → Bool → Bool → ℤ → Option (List ℕ)
wrap_video_into_flv b data_bytes is_keyframe is_sequence_header composition_time_offset = do
  pts_value ← b.write_i24 composition_time_offset
  some (
      (if is_keyframe then 0x17 else 0x27)
      ∷ (if is_sequence_header then 0 else 1)
      ∷ (pts_value ++ data_bytes))

unfoldable pub unwrap_audio_from_flv : List ℕ → Result UnwrappedAudio FlvError
unwrap_audio_from_flv (flv_tag ∷ packet_type ∷ data_bytes) =
    if flv_tag / 16 == 10
    then ok (record { is_sequence_header = packet_type == 0; data_bytes = data_bytes })
    else err unsupported_codec
unwrap_audio_from_flv _ = err too_few_bytes

unfoldable pub wrap_audio_into_flv : List ℕ → Bool → List ℕ
wrap_audio_into_flv data_bytes is_sequence_header =
    0xaf ∷ (if is_sequence_header then 0 else 1) ∷ data_bytes

-- A video that is wrapped into FLV tags is unwrapped to the same data, marks of a keyframe and of a
-- sequence header, and offset, which fits into 24 bits and is then read as it was written; audio
-- likewise to its data and mark.
pub unwrap-wrap :
    (b : Int24) (data_bytes : List ℕ) (is_keyframe is_sequence_header : Bool) (offset : ℤ)
    → IsExact b
    → Fits (2 ^ 24) offset
    → ((wrap_video_into_flv b data_bytes is_keyframe is_sequence_header offset
          >>= unwrap_video_from_flv b)
        ≡ some (
            ok (record {
              is_keyframe = is_keyframe;
              is_sequence_header = is_sequence_header;
              data_bytes = data_bytes;
              composition_time_in_ms = offset;
            })))
      × (unwrap_audio_from_flv (wrap_audio_into_flv data_bytes is_sequence_header)
          ≡ ok (record { is_sequence_header = is_sequence_header; data_bytes = data_bytes }))
unfolding wrap_video_into_flv unwrap_video_from_flv wrap_audio_into_flv unwrap_audio_from_flv
unwrap-wrap b data_bytes true true offset e f =
    (rw (e.writes offset f, e.reads offset f) refl, refl)
unwrap-wrap b data_bytes true false offset e f =
    (rw (e.writes offset f, e.reads offset f) refl, refl)
unwrap-wrap b data_bytes false true offset e f =
    (rw (e.writes offset f, e.reads offset f) refl, refl)
unwrap-wrap b data_bytes false false offset e f =
    (rw (e.writes offset f, e.reads offset f) refl, refl)

-- Reading the FLV tags of a video panics exactly on two to four bytes.
pub unwrap_video_panics :
    (b : Int24) (data_bytes : List ℕ)
    → (unwrap_video_from_flv b data_bytes ≡ none)
      ↔ ((2 ≤ length data_bytes) × (length data_bytes ≤ 4))
unfolding unwrap_video_from_flv
unwrap_video_panics b [] = (λ h. cc, λ h. absurd (omega arith))
unwrap_video_panics b (t ∷ []) = (λ h. cc, λ h. absurd (omega arith))
unwrap_video_panics b (t ∷ p ∷ []) = (λ h. omega arith, λ h. refl)
unwrap_video_panics b (t ∷ p ∷ x ∷ []) = (λ h. omega arith, λ h. refl)
unwrap_video_panics b (t ∷ p ∷ x ∷ y ∷ []) = (λ h. omega arith, λ h. refl)
unwrap_video_panics b (t ∷ p ∷ x ∷ y ∷ z ∷ rest) = (λ h. cc, λ h. absurd (omega arith))
