-- ===== src/Metadata/Klv.antt =====
-- Key-length-value storage: mmids-core/src/workflows/metadata/klv.rs.
use native.Mathlib.Nat.{mod-eq_of_lt}
use mmids_core.Common.{
  ℕ, zero, suc, ◌+◌, ◌%◌, ◌^◌, ◌≤◌, ◌<◌, ◌≡◌, refl, inl, inr, Bool-cases, Option, none, some, List,
  [], ◌∷◌, ◌++◌, append_assoc, arith, length, length-append, leb, if◌then◌else◌, is_empty, All,
  All-map, false, append-nil, ap, ◌∙◌, ◌↔◌,
}
use mmids_core.Metadata.Buffer.{
  ◌>>=◌, put_be, get_be, split_to, get_be-put_be, split_to-append, length-put_be,
}

pub record KlvItem : Type 0 where
  pub key : ℕ
  pub value : List ℕ

pub record KlvStore : Type 0 where
  pub bytes : List ℕ

-- One round of the loop of `from_iter`, on an item that passed the test on its size.
unfoldable pub put_item : List ℕ → KlvItem → List ℕ
put_item buffer item =
    buffer ++ (put_be 2 item.key ++ (put_be 2 (length item.value % 2 ^ 16) ++ item.value))

unfoldable pub put_items : List ℕ → List KlvItem → Option (List ℕ)
put_items buffer [] = some buffer
put_items buffer (item ∷ items) =
    if leb 65535 (length item.value) then none else put_items (put_item buffer item) items

-- `KlvStore::from_iter`; `none` is the error `Tlv value was too large`.
unfoldable pub from_iter : List KlvItem → Option KlvStore
from_iter items = put_items [] items >>= λ buffer. some (record { bytes = buffer })

-- `KlvIterator::next`: what is left of the buffer, with the item; the inner `none` is the end of the
-- iteration and the outer one is a panic.
unfoldable pub next : List ℕ → Option (Option (KlvItem × List ℕ))
next buffer = if is_empty buffer then some none else do
  (key, rest) ← get_be 2 buffer
  (len, rest') ← get_be 2 rest
  (value, rest'') ← split_to len rest'
  some (some (record { key = key; value = value }, rest''))

-- What a `for` loop over the iterator sees, with fuel for the number of items.
unfoldable pub collect : ℕ → List ℕ → Option (List KlvItem)
collect zero buffer = none
collect (suc fuel) buffer = elim (next buffer) [
  | none ↦ none
  | some none ↦ some []
  | some (some (item, rest)) ↦ collect fuel rest >>= λ items. some (item ∷ items)
]

-- Every item takes four bytes at least, so the length of the data is fuel enough.
unfoldable pub iter : KlvStore → Option (List KlvItem)
unfolding collect
iter s = collect (suc (length s.bytes)) s.bytes

-- A u16 key, and a value that `from_iter` accepts.
abbrev pub IsItem : KlvItem → Type 0
IsItem item = (item.key < 256 ^ 2) × (length item.value < 65535)

abbrev pub IsSmall : KlvItem → Type 0
IsSmall item = length item.value < 65535

-- The bytes of one item.
abbrev pub encoded : KlvItem → List ℕ
encoded item = put_be 2 item.key ++ (put_be 2 (length item.value % 2 ^ 16) ++ item.value)

abbrev pub encoded_all : List KlvItem → List ℕ
encoded_all [] = []
encoded_all (item ∷ items) = encoded item ++ encoded_all items

put_items_lem :
    (items : List KlvItem) (buffer : List ℕ)
    → All IsSmall items
    → put_items buffer items ≡ some (buffer ++ encoded_all items)
unfolding put_items put_item
put_items_lem [] buffer h = rw append-nil
put_items_lem (item ∷ items) buffer h =
    let fits : leb 65535 (length item.value) ≡ false = ground (arith, h.0) in
    rw fits (
      put_items_lem items (buffer ++ encoded item) h.1
      ∙ ap some (append_assoc buffer (encoded item) (encoded_all items)))

put_items_refuses :
    (items : List KlvItem) (buffer : List ℕ) → ¬ All IsSmall items → put_items buffer items ≡ none
unfolding put_items
put_items_refuses [] buffer h = absurd (h tt)
put_items_refuses (item ∷ items) buffer h = elim (Bool-cases (leb 65535 (length item.value))) [
  | inl large ↦ rw large
  | inr small ↦
      let fits : length item.value < 65535 = ground arith in
      rw small (put_items_refuses items (put_item buffer item) (λ rest. h (fits, rest)))
]

length-encoded : (item : KlvItem) → length (encoded item) ≡ length item.value + 4
length-encoded item = omega (
  arith,
  length-append (put_be 2 item.key) (put_be 2 (length item.value % 2 ^ 16) ++ item.value),
  length-append (put_be 2 (length item.value % 2 ^ 16)) item.value,
  length-put_be 2 item.key,
  length-put_be 2 (length item.value % 2 ^ 16),
)

is_empty_of_pos : {A : Type 0} (xs : List A) → 0 < length xs → is_empty xs ≡ false
is_empty_of_pos [] h = elim h [ ]
is_empty_of_pos (x ∷ xs) h = refl

next-encoded :
    (item : KlvItem) (rest : List ℕ)
    → IsItem item
    → next (encoded item ++ rest) ≡ some (some (item, rest))
unfolding next
next-encoded item rest h =
    let small : length item.value % 2 ^ 16 ≡ length item.value =
      mod-eq_of_lt (omega (arith, h.1)) in
    let key = put_be 2 item.key in
    let len = put_be 2 (length item.value % 2 ^ 16) in
    rw
      (is_empty_of_pos (encoded item ++ rest)
        (omega (arith, length-encoded item, length-append (encoded item) rest)))
      (rw (append_assoc key (len ++ item.value) rest, append_assoc len item.value rest)
        (rw (get_be-put_be 2 item.key (len ++ (item.value ++ rest)) h.0) (
          rw (get_be-put_be 2 (length item.value % 2 ^ 16) (item.value ++ rest) (omega arith))
            (rw small (rw (split_to-append item.value rest))))))

length-encoded_all : (items : List KlvItem) → length items ≤ length (encoded_all items)
length-encoded_all [] = omega arith
length-encoded_all (item ∷ items) = omega (
  arith,
  length-append (encoded item) (encoded_all items),
  length-encoded item,
  length-encoded_all items,
)

next_empty : next [] ≡ some none
unfolding next
next_empty = refl

collect-encoded_all :
    (fuel : ℕ) (items : List KlvItem)
    → length items < fuel
    → All IsItem items
    → collect fuel (encoded_all items) ≡ some items
unfolding collect
collect-encoded_all zero items f h = elim f [ ]
collect-encoded_all (suc fuel) [] f h = rw (next_empty, collect)
collect-encoded_all (suc fuel) (item ∷ items) f h =
    rw (next-encoded item (encoded_all items) h.0, collect)
      (rw (collect-encoded_all fuel items (omega arith) h.1))

-- Items with u16 keys and values below 65535 bytes are stored, and the iterator gives them back, in
-- order, whatever bytes they hold; it neither panics nor runs out of fuel.
pub iter-from_iter :
    (items : List KlvItem) → All IsItem items → (from_iter items >>= iter) ≡ some items
unfolding from_iter iter
iter-from_iter items h = rw (put_items_lem items [] (All-map (λ item r. r.1) items h)) (
    collect-encoded_all (suc (length (encoded_all items))) items
      (omega (arith, length-encoded_all items)) h)

-- A store is refused exactly when some value has 65535 bytes or more.
pub from_iter-none : (items : List KlvItem) → (from_iter items ≡ none) ↔ (¬ All IsSmall items)
unfolding from_iter
from_iter-none items = (
  λ e small. cc (rw (put_items_lem items [] small) at e),
  λ large. rw (put_items_refuses items [] large),
)
