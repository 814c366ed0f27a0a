-- ===== src/Metadata/Keys.antt =====
-- Metadata keys and their registry: mmids-core/src/workflows/metadata/keys.rs and
-- common_metadata.rs. A `&'static str` name is a String; a u16 is a number below 65536.
pub mod Laws
use Prim.Native.Nat.{bit_or}
use text.Mathlib.Text.{◌==◌ as str_eq}
use text.Mathlib.TextEquality.{eq_iff}
use mmids_core.Common.{
  ℕ, ◌+◌, ◌*◌, ◌/◌, ◌%◌, ◌^◌, ◌≡◌, ◌↔◌, Bool, ◌&&◌, Option, none, some, String, [], Map, lookup,
  insert, Eq, ltb, if◌then◌else◌, nat_beq, arith,
}
use mmids_core.Metadata.Types.{MetadataValueType, type_beq, type_beq_iff}

pub record MetadataKey : Type 0 where
  pub klv_id : ℕ
  pub value_type : MetadataValueType

pub record MetadataNameTypePair : Type 0 where
  pub name : String
  pub value_type : MetadataValueType

pub record MetadataKeyMap : Type 0 where
  pub name_to_key_map : Map MetadataNameTypePair MetadataKey
  pub next_id : ℕ

abbrev pub pair_beq : MetadataNameTypePair → MetadataNameTypePair → Bool
pair_beq p q = str_eq p.name q.name && type_beq p.value_type q.value_type

pub pair_beq_iff : (p q : MetadataNameTypePair) → (pair_beq p q ≡ Bool.true) ↔ (p ≡ q)
pair_beq_iff p q = ground (arith, eq_iff p.name q.name, type_beq_iff p.value_type q.value_type)

instance abbrev pub pair_eq : Eq MetadataNameTypePair
pair_eq = record { beq = pair_beq; beq_iff = pair_beq_iff }

-- `VALUE_TYPE_SHIFT`.
abbrev pub value_type_shift : ℕ
value_type_shift = 12

unfoldable pub type_id : MetadataValueType → ℕ
type_id MetadataValueType.u8 = 1
type_id MetadataValueType.u16 = 2
type_id MetadataValueType.u32 = 3
type_id MetadataValueType.u64 = 4
type_id MetadataValueType.i8 = 5
type_id MetadataValueType.i16 = 6
type_id MetadataValueType.i32 = 7
type_id MetadataValueType.i64 = 8
type_id MetadataValueType.bool = 9
type_id MetadataValueType.bytes = 10

-- `id | (type_id << 12)` on a u16.
unfoldable pub apply_value_type_to_klv_id : ℕ → MetadataValueType → ℕ
unfolding type_id
apply_value_type_to_klv_id id t = bit_or id (type_id t * 2 ^ value_type_shift % 2 ^ 16)

-- `none` is the panic on an unknown type number.
unfoldable pub type_of_id : ℕ → Option MetadataValueType
type_of_id n =
    if nat_beq n 1
    then some MetadataValueType.u8
    else if nat_beq n 2
    then some MetadataValueType.u16
    else if nat_beq n 3
    then some MetadataValueType.u32
    else if nat_beq n 4
    then some MetadataValueType.u64
    else if nat_beq n 5
    then some MetadataValueType.i8
    else if nat_beq n 6
    then some MetadataValueType.i16
    else if nat_beq n 7
    then some MetadataValueType.i32
    else if nat_beq n 8
    then some MetadataValueType.i64
    else if nat_beq n 9
    then some MetadataValueType.bool
    else if nat_beq n 10
    then some MetadataValueType.bytes
    else none

unfoldable pub value_type_from_klv_id : ℕ → Option MetadataValueType
unfolding type_of_id
value_type_from_klv_id klv_id = type_of_id (klv_id / 2 ^ value_type_shift)

-- `MetadataKey::from_klv_id`.
unfoldable pub from_klv_id : ℕ → Option MetadataKey
unfolding value_type_from_klv_id
from_klv_id klv_id = elim (value_type_from_klv_id klv_id) [
  | none ↦ none
  | some t ↦ some (record { klv_id = klv_id; value_type = t })
]

-- `MetadataKeyMap::new`.
unfoldable pub new : MetadataKeyMap
new = record { name_to_key_map = []; next_id = 0 }

-- `checked_add(1)` on a u16.
unfoldable pub checked_next : ℕ → Option ℕ
checked_next n = if ltb (n + 1) (2 ^ 16) then some (n + 1) else none

-- `MetadataKeyMap::register`: the key, and the map after the call; `none` is the panic.
unfoldable pub register :
    MetadataKeyMap → String → MetadataValueType → Option (MetadataKey × MetadataKeyMap)
unfolding checked_next
register m name t = elim (lookup pair m.name_to_key_map) [
  | some key ↦ some (key, m)
  | none ↦ elim (checked_next m.next_id) [
    | none ↦ none
    | some next ↦
        some (key, record { name_to_key_map = insert pair key m.name_to_key_map; next_id = next })
  ]
]
  where
    pair : MetadataNameTypePair
    pair = record { name = name; value_type = t }

    key : MetadataKey
    key = record { klv_id = apply_value_type_to_klv_id m.next_id t; value_type = t }

-- common_metadata.rs.
unfoldable pub get_is_keyframe_metadata_key : MetadataKeyMap → Option (MetadataKey × MetadataKeyMap)
get_is_keyframe_metadata_key m = register m "is_keyframe" MetadataValueType.bool

unfoldable pub get_pts_offset_metadata_key : MetadataKeyMap → Option (MetadataKey × MetadataKeyMap)
get_pts_offset_metadata_key m = register m "pts_offset" MetadataValueType.i32
