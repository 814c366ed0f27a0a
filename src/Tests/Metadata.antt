-- ===== src/Tests/Metadata.antt =====
-- The theorems on metadata and timestamps at concrete inputs.
use mmids_core.Common.{
  ℕ, zero, suc, ◌+◌, ◌≤◌, ◌≡◌, refl, inr, some, List, [], ◌∷◌, arith, if◌then◌else◌, ◌==◌, nat_eq,
  string_eq, length, lookup, ok,
}
use mmids_core.Common.Int.{negsuc}
use mmids_core.Metadata.Buffer.{◌>>=◌, put_be}
use mmids_core.Metadata.Types.{MetadataValueType, MetadataValue}
use mmids_core.Metadata.Keys.{
  MetadataKey, MetadataNameTypePair, MetadataKeyMap, pair_eq, register, new, type_id,
  apply_value_type_to_klv_id, value_type_from_klv_id, type_of_id,
}
use mmids_core.Metadata.Keys.Laws.{
  IsValid, pair_of, new-IsValid, register-IsValid, register_collides,
}
use mmids_core.Metadata.Klv.{KlvItem, from_iter, iter, iter-from_iter}
use mmids_core.Metadata.Entry.{MetadataEntry, new_entry, value}
use mmids_core.Metadata.Entry.Laws.{value-new_entry}
use mmids_core.Metadata.Collection.{new_collection, collection_iter, collection_iter-new_collection}
use mmids_core.Timestamp.{pts, from_durations, as_millis, from_millis}
use mmids_core.Timestamp.Laws.{pts-from_durations, pts-from_durations_out}

abbrev items : List KlvItem
items = record { key = 7; value = 1 ∷ 2 ∷ 3 ∷ [] } ∷ record { key = 65535; value = [] } ∷ []

iter-from_iter_example : (from_iter items >>= iter) ≡ some items
iter-from_iter_example =
    iter-from_iter items ((omega arith, omega arith), ((omega arith, omega arith), tt))

register-IsValid_example :
    (k : MetadataKey) × (m' : MetadataKeyMap) × (register new "is_keyframe" MetadataValueType.bool
      ≡ some (k, m'))
    × IsValid m'
    × ((q : MetadataNameTypePair)
        → lookup q m'.name_to_key_map ≡ (
            if pair_of "is_keyframe" MetadataValueType.bool == q
            then some k
            else lookup q new.name_to_key_map))
    × (m'.next_id ≤ new.next_id + 1)
unfolding new
register-IsValid_example =
    register-IsValid new "is_keyframe" MetadataValueType.bool new-IsValid (omega arith)

-- A registry that has handed out 4097 ids.
abbrev full : MetadataKeyMap
full = record { name_to_key_map = []; next_id = 4097 }

register_collides_example :
    (m' : MetadataKeyMap) × (register full "late" MetadataValueType.bool
      ≡ some (
        record {
          klv_id = apply_value_type_to_klv_id 1 MetadataValueType.bool;
          value_type = MetadataValueType.bool;
        },
        m',
      ))
unfolding lookup type_id
register_collides_example =
    register_collides full "late" MetadataValueType.bool 1 (omega arith) refl refl refl

abbrev offset_key : MetadataKey
offset_key = record { klv_id = 28677; value_type = MetadataValueType.i32 }

abbrev offset : MetadataValue
offset = MetadataValue.i32 (negsuc 41)

value-new_entry_example :
    (e : MetadataEntry) × (new_entry offset_key offset ≡ ok e)
    × (e.key ≡ offset_key)
    × (value e ≡ some offset)
unfolding put_be
value-new_entry_example = value-new_entry offset_key offset refl (omega arith) (omega arith)

abbrev zeros : ℕ → List ℕ
zeros zero = []
zeros (suc n) = 0 ∷ zeros n

length-zeros : (n : ℕ) → length (zeros n) ≡ n
length-zeros zero = refl
length-zeros (suc n) = omega (arith, length-zeros n)

abbrev bytes_key : MetadataKey
bytes_key = record { klv_id = 40960; value_type = MetadataValueType.bytes }

abbrev entries : List MetadataEntry
entries = record { key = offset_key; raw_value = 255 ∷ 255 ∷ 255 ∷ 214 ∷ [] } ∷ []

collection_iter-new_collection_example : (new_collection entries >>= collection_iter) ≡ some entries
unfolding value_type_from_klv_id type_of_id
collection_iter-new_collection_example =
    collection_iter-new_collection entries ((omega arith, omega arith, refl), tt)

pts-from_durations_example :
    pts (from_durations 5_000_000 3_500_000) ≡ from_millis (as_millis 3_500_000)
unfolding as_millis
pts-from_durations_example =
    pts-from_durations 5_000_000 3_500_000 (omega arith) (omega arith) (omega arith) (omega arith)

pts-from_durations_out_example : pts (from_durations 0 838_607_000_000) ≡ from_millis (as_millis 0)
unfolding as_millis
pts-from_durations_out_example =
    pts-from_durations_out 0 838_607_000_000 (omega arith) (omega arith) (inr (omega arith))
