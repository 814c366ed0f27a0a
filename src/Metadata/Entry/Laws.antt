-- ===== src/Metadata/Entry/Laws.antt =====
-- `MetadataEntry::new` and `MetadataEntry::value` are inverse, and what `new` refuses.
use mmids_core.Common.{
  ℕ, ◌^◌, ◌<◌, ◌≤◌, ◌≡◌, refl, sym, ◌≢◌, true, false, some, List, [], ok, err, length,
  if◌then◌else◌, arith, append-nil, ==_false,
}
use mmids_core.Common.Int.{ℤ, to_word, of_word-to_word, to_word-lt}
use mmids_core.Metadata.Buffer.{put_be, get_be, get_be-put_be}
use mmids_core.Metadata.Types.{
  MetadataValueType, MetadataValue, type_beq, type_beq_iff, type_of, value_type_eq, InRange,
}
use mmids_core.Metadata.Keys.{MetadataKey}
use mmids_core.Metadata.Entry.{
  MetadataEntry, value_does_not_match_type, value_too_large, put_value, freeze, new_entry, value,
  value_as, bool_byte,
}

-- The bytes of a value, whatever its key.
abbrev pub bytes_of : MetadataValue → List ℕ
bytes_of (MetadataValue.u8 n) = put_be 1 n
bytes_of (MetadataValue.u16 n) = put_be 2 n
bytes_of (MetadataValue.u32 n) = put_be 4 n
bytes_of (MetadataValue.u64 n) = put_be 8 n
bytes_of (MetadataValue.i8 z) = put_be 1 (to_word (256 ^ 1) z)
bytes_of (MetadataValue.i16 z) = put_be 2 (to_word (256 ^ 2) z)
bytes_of (MetadataValue.i32 z) = put_be 4 (to_word (256 ^ 4) z)
bytes_of (MetadataValue.i64 z) = put_be 8 (to_word (256 ^ 8) z)
bytes_of (MetadataValue.bytes b) = b
bytes_of (MetadataValue.bool b) = put_be 1 (bool_byte b)

put_value_lem :
    (key : MetadataKey) (v : MetadataValue)
    → put_value key v ≡ (
        if type_beq key.value_type (type_of v)
        then ok (bytes_of v)
        else err (value_does_not_match_type v (type_of v)))
unfolding put_value
put_value_lem key (MetadataValue.u8 n) = refl
put_value_lem key (MetadataValue.u16 n) = refl
put_value_lem key (MetadataValue.u32 n) = refl
put_value_lem key (MetadataValue.u64 n) = refl
put_value_lem key (MetadataValue.i8 z) = refl
put_value_lem key (MetadataValue.i16 z) = refl
put_value_lem key (MetadataValue.i32 z) = refl
put_value_lem key (MetadataValue.i64 z) = refl
put_value_lem key (MetadataValue.bytes b) = refl
put_value_lem key (MetadataValue.bool b) = refl

read_back : (k n : ℕ) → n < 256 ^ k → get_be k (put_be k n) ≡ some (n, [])
read_back k n h = rw append-nil at (get_be-put_be k n [] h)

word_back :
    (k : ℕ) (z : ℤ)
    → 0 < 256 ^ k
    → get_be k (put_be k (to_word (256 ^ k) z)) ≡ some (to_word (256 ^ k) z, [])
word_back k z p = read_back k (to_word (256 ^ k) z) (to_word-lt (256 ^ k) z p)

-- Reading the bytes at the value's own type gives the value.
value_as-bytes_of : (v : MetadataValue) → InRange v → value_as (type_of v) (bytes_of v) ≡ some v
unfolding value_as
value_as-bytes_of (MetadataValue.u8 n) h = rw (read_back 1 n h)
value_as-bytes_of (MetadataValue.u16 n) h = rw (read_back 2 n h)
value_as-bytes_of (MetadataValue.u32 n) h = rw (read_back 4 n h)
value_as-bytes_of (MetadataValue.u64 n) h = rw (read_back 8 n h)
value_as-bytes_of (MetadataValue.i8 z) h =
    rw (word_back 1 z (omega arith)) (rw (of_word-to_word (256 ^ 1) z (omega arith) refl h))
value_as-bytes_of (MetadataValue.i16 z) h =
    rw (word_back 2 z (omega arith)) (rw (of_word-to_word (256 ^ 2) z (omega arith) refl h))
value_as-bytes_of (MetadataValue.i32 z) h =
    rw (word_back 4 z (omega arith)) (rw (of_word-to_word (256 ^ 4) z (omega arith) refl h))
value_as-bytes_of (MetadataValue.i64 z) h =
    rw (word_back 8 z (omega arith)) (rw (of_word-to_word (256 ^ 8) z (omega arith) refl h))
value_as-bytes_of (MetadataValue.bytes b) h = refl
value_as-bytes_of (MetadataValue.bool false) h = rw (read_back 1 0 (omega arith))
value_as-bytes_of (MetadataValue.bool true) h = rw (read_back 1 1 (omega arith))

abbrev pub entry_of : MetadataKey → MetadataValue → MetadataEntry
entry_of key v = record { key = key; raw_value = bytes_of v }

pub new_entry-entry_of :
    (key : MetadataKey) (v : MetadataValue)
    → key.value_type ≡ type_of v
    → length (bytes_of v) < 65535
    → new_entry key v ≡ ok (entry_of key v)
unfolding new_entry freeze
new_entry-entry_of key v t small =
    rw (put_value_lem key v, (type_beq_iff key.value_type (type_of v)).1 t) (ground (arith))

pub value-entry_of :
    (key : MetadataKey) (v : MetadataValue)
    → key.value_type ≡ type_of v
    → InRange v
    → value (entry_of key v) ≡ some v
unfolding value
value-entry_of key v t h = rw t (value_as-bytes_of v h)

-- An entry is created for a value of the key's type that is in range and has fewer than 65535 bytes,
-- and reading its value gives back the value, for every type and both signs.
pub value-new_entry :
    (key : MetadataKey) (v : MetadataValue)
    → key.value_type ≡ type_of v
    → InRange v
    → length (bytes_of v) < 65535
    → (e : MetadataEntry) × (new_entry key v ≡ ok e) × (e.key ≡ key) × (value e ≡ some v)
value-new_entry key v t h small =
    (entry_of key v, new_entry-entry_of key v t small, refl, value-entry_of key v t h)

-- A value of another type than the key's is refused; the refusal names as the expected type the type
-- of the value, which is not the one that the key expects.
pub new_entry_mismatch :
    (key : MetadataKey) (v : MetadataValue)
    → key.value_type ≢ type_of v
    → (t : MetadataValueType) × (new_entry key v ≡ err (value_does_not_match_type v t))
      × (t ≡ type_of v)
      × (t ≢ key.value_type)
unfolding new_entry freeze
new_entry_mismatch key v n = (
  type_of v,
  rw (put_value_lem key v, ==_false key.value_type (type_of v) n),
  refl,
  λ e. n (sym e),
)

-- A value of the key's type that takes 65535 bytes or more is refused as too large.
pub new_entry_too_large :
    (key : MetadataKey) (v : MetadataValue)
    → key.value_type ≡ type_of v
    → 65535 ≤ length (bytes_of v)
    → new_entry key v ≡ err value_too_large
unfolding new_entry freeze
new_entry_too_large key v t large =
    rw (put_value_lem key v, (type_beq_iff key.value_type (type_of v)).1 t) (ground arith)
