-- ===== src/Metadata/Entry.antt =====
-- Metadata entries: `MetadataEntry` of mmids-core/src/workflows/metadata/mod.rs.
pub mod Laws
use mmids_core.Common.{
  ℕ, ◌^◌, Bool, true, false, Option, none, some, List, Result, ok, err, length, leb, if◌then◌else◌,
  nat_beq,
}
use mmids_core.Common.Int.{to_word, of_word}
use mmids_core.Metadata.Buffer.{◌>>=◌, put_be, get_be}
use mmids_core.Metadata.Types.{MetadataValueType, MetadataValue, type_beq}
use mmids_core.Metadata.Keys.{MetadataKey}

pub record MetadataEntry : Type 0 where
  pub key : MetadataKey
  pub raw_value : List ℕ

pub data MetadataEntryError : Type 0 where
  value_does_not_match_type : MetadataValue → MetadataValueType → MetadataEntryError
  value_too_large : MetadataEntryError

-- `boolean.into()` at u8.
abbrev pub bool_byte : Bool → ℕ
bool_byte false = 0
bool_byte true = 1

-- The shape of every arm of `new`: the test on the key's type, and the bytes to put.
unfoldable pub put_as :
    MetadataKey → MetadataValue → MetadataValueType → List ℕ → Result (List ℕ) MetadataEntryError
put_as key value t bytes =
    if type_beq key.value_type t then ok bytes else err (value_does_not_match_type value t)

-- The arms of `new`. The buffer that they write to starts empty.
unfoldable pub put_value : MetadataKey → MetadataValue → Result (List ℕ) MetadataEntryError
unfolding put_as
put_value key (MetadataValue.u8 n) =
    put_as key (MetadataValue.u8 n) MetadataValueType.u8 (put_be 1 n)
put_value key (MetadataValue.u16 n) =
    put_as key (MetadataValue.u16 n) MetadataValueType.u16 (put_be 2 n)
put_value key (MetadataValue.u32 n) =
    put_as key (MetadataValue.u32 n) MetadataValueType.u32 (put_be 4 n)
put_value key (MetadataValue.u64 n) =
    put_as key (MetadataValue.u64 n) MetadataValueType.u64 (put_be 8 n)
put_value key (MetadataValue.i8 z) =
    put_as key (MetadataValue.i8 z) MetadataValueType.i8 (put_be 1 (to_word (256 ^ 1) z))
put_value key (MetadataValue.i16 z) =
    put_as key (MetadataValue.i16 z) MetadataValueType.i16 (put_be 2 (to_word (256 ^ 2) z))
put_value key (MetadataValue.i32 z) =
    put_as key (MetadataValue.i32 z) MetadataValueType.i32 (put_be 4 (to_word (256 ^ 4) z))
put_value key (MetadataValue.i64 z) =
    put_as key (MetadataValue.i64 z) MetadataValueType.i64 (put_be 8 (to_word (256 ^ 8) z))
put_value key (MetadataValue.bool b) =
    put_as key (MetadataValue.bool b) MetadataValueType.bool (put_be 1 (bool_byte b))
put_value key (MetadataValue.bytes b) = put_as key (MetadataValue.bytes b) MetadataValueType.bytes b

-- The test on the size, and the entry.
unfoldable pub freeze :
    MetadataKey → Result (List ℕ) MetadataEntryError → Result MetadataEntry MetadataEntryError
freeze key (err e) = err e
freeze key (ok bytes) =
    if leb 65535 (length bytes)
    then err value_too_large
    else ok (record { key = key; raw_value = bytes })

-- `MetadataEntry::new`.
unfoldable pub new_entry : MetadataKey → MetadataValue → Result MetadataEntry MetadataEntryError
unfolding put_value freeze
new_entry key value = freeze key (put_value key value)

abbrev read_word : ℕ → List ℕ → (ℕ → MetadataValue) → Option MetadataValue
read_word k raw make = get_be k raw >>= λ r. some (make r.0)

-- `none` is the panic on a byte that is no boolean.
unfoldable pub bool_of_byte : ℕ → Option MetadataValue
bool_of_byte n =
    if nat_beq n 0
    then some (MetadataValue.bool false)
    else if nat_beq n 1
    then some (MetadataValue.bool true)
    else none

-- `MetadataEntry::value`, by the type of the key.
unfoldable pub value_as : MetadataValueType → List ℕ → Option MetadataValue
unfolding bool_of_byte
value_as MetadataValueType.u8 raw = read_word 1 raw MetadataValue.u8
value_as MetadataValueType.u16 raw = read_word 2 raw MetadataValue.u16
value_as MetadataValueType.u32 raw = read_word 4 raw MetadataValue.u32
value_as MetadataValueType.u64 raw = read_word 8 raw MetadataValue.u64
value_as MetadataValueType.i8 raw = read_word 1 raw (λ n. MetadataValue.i8 (of_word (256 ^ 1) n))
value_as MetadataValueType.i16 raw = read_word 2 raw (λ n. MetadataValue.i16 (of_word (256 ^ 2) n))
value_as MetadataValueType.i32 raw = read_word 4 raw (λ n. MetadataValue.i32 (of_word (256 ^ 4) n))
value_as MetadataValueType.i64 raw = read_word 8 raw (λ n. MetadataValue.i64 (of_word (256 ^ 8) n))
value_as MetadataValueType.bytes raw = some (MetadataValue.bytes raw)
value_as MetadataValueType.bool raw = get_be 1 raw >>= λ r. bool_of_byte r.0

unfoldable pub value : MetadataEntry → Option MetadataValue
unfolding value_as
value entry = value_as entry.key.value_type entry.raw_value
