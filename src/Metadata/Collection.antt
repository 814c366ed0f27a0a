-- ===== src/Metadata/Collection.antt =====
-- `MediaPayloadMetadataCollection` of mmids-core/src/workflows/metadata/mod.rs.
use mmids_core.Common.{
  ◌^◌, ◌<◌, ◌≡◌, refl, Option, some, List, [], ◌∷◌, map, All, length, inl, inr, Option-cases,
}
use mmids_core.Metadata.Buffer.{◌>>=◌}
use mmids_core.Metadata.Keys.{from_klv_id, value_type_from_klv_id}
use mmids_core.Metadata.Klv.{KlvItem, KlvStore, from_iter, iter, iter-from_iter, IsItem}
use mmids_core.Metadata.Entry.{MetadataEntry}

pub record MediaPayloadMetadataCollection : Type 0 where
  pub store : KlvStore

unfoldable pub to_klv_item : MetadataEntry → KlvItem
to_klv_item e = record { key = e.key.klv_id; value = e.raw_value }

-- `MediaPayloadMetadataCollection::new`; `none` is the panic of `unwrap`.
unfoldable pub new_collection : List MetadataEntry → Option MediaPayloadMetadataCollection
unfolding to_klv_item
new_collection entries =
    from_iter (map to_klv_item entries) >>= λ store. some (record { store = store })

unfoldable pub entry_of_item : KlvItem → Option MetadataEntry
entry_of_item item =
    from_klv_id item.key >>= λ key. some (record { key = key; raw_value = item.value })

unfoldable pub entries_of : List KlvItem → Option (List MetadataEntry)
unfolding entry_of_item
entries_of [] = some []
entries_of (item ∷ items) = do
  entry ← entry_of_item item
  rest ← entries_of items
  some (entry ∷ rest)

-- The entries that a whole iteration sees; `none` is a panic on the way.
unfoldable pub collection_iter : MediaPayloadMetadataCollection → Option (List MetadataEntry)
unfolding entries_of
collection_iter c = iter c.store >>= entries_of

-- An entry as `new_entry` and a valid registry make it: the id of its key tells the type.
abbrev pub IsEntry : MetadataEntry → Type 0
IsEntry e =
    (e.key.klv_id < 256 ^ 2)
    × (length e.raw_value < 65535)
    × (value_type_from_klv_id e.key.klv_id ≡ some e.key.value_type)

entries_of-map :
    (entries : List MetadataEntry)
    → All IsEntry entries
    → entries_of (map to_klv_item entries) ≡ some entries
unfolding entries_of to_klv_item from_klv_id
entries_of-map [] h = refl
entries_of-map (e ∷ es) h = rw (h.0.2, from_klv_id) (rw (entries_of-map es h.1))

items_are :
    (entries : List MetadataEntry) → All IsEntry entries → All IsItem (map to_klv_item entries)
unfolding to_klv_item
items_are [] h = tt
items_are (e ∷ es) h = ((h.0.0, h.0.1), items_are es h.1)

-- A metadata collection gives back the entries that it was made of, keys and types included, in
-- order, and making and reading it never panics, if the entries have u16 keys that tell their type
-- and values below 65535 bytes.
pub collection_iter-new_collection :
    (entries : List MetadataEntry)
    → All IsEntry entries
    → (new_collection entries >>= collection_iter) ≡ some entries
unfolding new_collection collection_iter
collection_iter-new_collection entries h =
    elim (Option-cases (from_iter (map to_klv_item entries))) [
      | inl e ↦ cc (rw e at read)
      | inr (store, e) ↦ rw e (rw (rw e at read) (entries_of-map entries h))
    ]
  where
    read : (from_iter (map to_klv_item entries) >>= iter) ≡ some (map to_klv_item entries)
    read = iter-from_iter (map to_klv_item entries) (items_are entries h)
