-- ===== src/Metadata/Keys/Laws.antt =====
-- What keys.rs guarantees: the id of a key tells its type, and one map gives distinct pairs distinct
-- keys, as long as its counter has not passed the twelve bits below the type.
use Prim.Native.Nat.{bit_or}
use mmids_core.Common.{
  ℕ, ◌+◌, ◌*◌, ◌/◌, ◌%◌, ◌^◌, ◌≤◌, ◌<◌, ◌≡◌, refl, sym, ap, ◌∙◌, ◌⊎◌, true, Option, none, some,
  String, inl, inr, lookup, insert, lookup-insert, Option-cases, Bool-cases, ==_eq, ◌==◌, arith,
  ltb, if◌then◌else◌,
}
use mmids_core.Common.Bits.{or_shift_12, zero-bit_or}
use mmids_core.Metadata.Types.{MetadataValueType}
use mmids_core.Metadata.Keys.{
  MetadataKey, MetadataNameTypePair, MetadataKeyMap, pair_eq, type_id, type_of_id,
  apply_value_type_to_klv_id, value_type_from_klv_id, new, register,
}

type_id-le : (t : MetadataValueType) → type_id t ≤ 10
unfolding type_id
type_id-le t = ground arith

type_of_id-type_id : (t : MetadataValueType) → type_of_id (type_id t) ≡ some t
unfolding type_of_id type_id
type_of_id-type_id t = ground arith

-- The id keeps its low digits, and the type goes on top of the rest.
pub apply_lem :
    (id : ℕ) (t : MetadataValueType)
    → apply_value_type_to_klv_id id t ≡ bit_or (id / 4096) (type_id t) * 4096 + id % 4096
unfolding apply_value_type_to_klv_id
apply_lem id t =
    let small : type_id t * 2 ^ 12 % 2 ^ 16 ≡ type_id t * 4096 = omega (arith, type_id-le t) in
    rw small (or_shift_12 id (type_id t))

pub apply_low :
    (id : ℕ) (t : MetadataValueType) → apply_value_type_to_klv_id id t % 4096 ≡ id % 4096
apply_low id t = omega (arith, apply_lem id t)

apply_high :
    (id : ℕ) (t : MetadataValueType)
    → id < 4096
    → apply_value_type_to_klv_id id t / 4096 ≡ type_id t
apply_high id t h =
    let none_left : id / 4096 ≡ 0 = omega arith in
    omega (arith, rw none_left at (apply_lem id t), zero-bit_or (type_id t))

-- A type that is packed into an id below 4096 is read back from the id, and the low 12 bits are
-- still the id.
pub value_type_from-apply :
    (id : ℕ) (t : MetadataValueType)
    → id < 4096
    → (value_type_from_klv_id (apply_value_type_to_klv_id id t) ≡ some t)
      × (apply_value_type_to_klv_id id t % 4096 ≡ id)
unfolding value_type_from_klv_id
value_type_from-apply id t h =
    (rw (apply_high id t h) (type_of_id-type_id t), omega (arith, apply_low id t))

-- What holds of a registry that has given out at most 4096 ids.
pub record IsValid (m : MetadataKeyMap) : Type 0 where
  pub within : m.next_id ≤ 4096
  pub used :
      (p : MetadataNameTypePair) (k : MetadataKey)
      → lookup p m.name_to_key_map ≡ some k
      → (k.klv_id % 4096 < m.next_id)
        × (k.value_type ≡ p.value_type)
        × (value_type_from_klv_id k.klv_id ≡ some k.value_type)
  pub distinct :
      (p q : MetadataNameTypePair) (k l : MetadataKey)
      → lookup p m.name_to_key_map ≡ some k
      → lookup q m.name_to_key_map ≡ some l
      → k.klv_id ≡ l.klv_id
      → p ≡ q

-- An empty registry is valid.
pub new-IsValid : IsValid new
unfolding new lookup
new-IsValid = record { within = omega arith; used = λ p k h. cc; distinct = λ p q k l h. cc }

abbrev pub pair_of : String → MetadataValueType → MetadataNameTypePair
pair_of name t = record { name = name; value_type = t }

abbrev pub new_key : MetadataKeyMap → MetadataValueType → MetadataKey
new_key m t = record { klv_id = apply_value_type_to_klv_id m.next_id t; value_type = t }

-- The registry after a pair that it did not know.
abbrev pub extended : MetadataKeyMap → MetadataNameTypePair → MetadataKeyMap
extended m p = record {
  name_to_key_map = insert p (new_key m p.value_type) m.name_to_key_map;
  next_id = m.next_id + 1;
}

-- An entry of the extended registry is the new one or an old one.
extended_cases :
    (m : MetadataKeyMap) (p q : MetadataNameTypePair) (k : MetadataKey)
    → lookup q (extended m p).name_to_key_map ≡ some k
    → ((p ≡ q) × (k ≡ new_key m p.value_type)) ⊎ (lookup q m.name_to_key_map ≡ some k)
extended_cases m p q k h = elim (Bool-cases (p == q)) [
  | inl e ↦ inl (
    ==_eq p q e,
    cc (rw e at (sym (lookup-insert p q (new_key m p.value_type) m.name_to_key_map) ∙ h)),
  )
  | inr e ↦ inr (rw e at (sym (lookup-insert p q (new_key m p.value_type) m.name_to_key_map) ∙ h))
]

module _ (m : MetadataKeyMap) (p : MetadataNameTypePair) (v : IsValid m)
    (room : m.next_id < 4096) where
  -- The new key is well formed, and its low digits are the counter.
  new_key_lem :
      ((new_key m p.value_type).klv_id % 4096 ≡ m.next_id)
      × (value_type_from_klv_id (new_key m p.value_type).klv_id ≡ some p.value_type)
  new_key_lem = (
    (value_type_from-apply m.next_id p.value_type room).1,
    (value_type_from-apply m.next_id p.value_type room).0,
  )

  extended_used :
      (q : MetadataNameTypePair) (k : MetadataKey)
      → lookup q (extended m p).name_to_key_map ≡ some k
      → (k.klv_id % 4096 < m.next_id + 1)
        × (k.value_type ≡ q.value_type)
        × (value_type_from_klv_id k.klv_id ≡ some k.value_type)
  extended_used q k h = elim (extended_cases m p q k h) [
    | inl (e, f) ↦ rw f (omega (arith, new_key_lem.0), ap (λ r. r.value_type) e, new_key_lem.1)
    | inr old ↦ let u = v.used q k old in (omega (arith, u.0), u.1, u.2)
  ]

  extended_distinct :
      lookup p m.name_to_key_map ≡ none
      → (q r : MetadataNameTypePair) (k l : MetadataKey)
      → lookup q (extended m p).name_to_key_map ≡ some k
      → lookup r (extended m p).name_to_key_map ≡ some l
      → k.klv_id ≡ l.klv_id
      → q ≡ r
  extended_distinct fresh q r k l h g e = elim (extended_cases m p q k h) [
    | inl (a, f) ↦ elim (extended_cases m p r l g) [
      | inl (b, _) ↦ sym a ∙ b
      | inr old ↦ absurd (
          omega (
            arith,
            (v.used r l old).0,
            new_key_lem.0,
            ap (λ x. x.klv_id % 4096) f,
            ap (λ x. x % 4096) e,
          ))
    ]
    | inr older ↦ elim (extended_cases m p r l g) [
      | inl (b, f) ↦ absurd (
          omega (
            arith,
            (v.used q k older).0,
            new_key_lem.0,
            ap (λ x. x.klv_id % 4096) f,
            ap (λ x. x % 4096) e,
          ))
      | inr old ↦ v.distinct q r k l older old e
    ]
  ]

  pub extended-IsValid : lookup p m.name_to_key_map ≡ none → IsValid (extended m p)
  extended-IsValid fresh = record {
    within = omega arith;
    used = extended_used;
    distinct = extended_distinct fresh;
  }

counts : {n : ℕ} → n < 65535 → ltb (n + 1) (2 ^ 16) ≡ true
counts h = ground arith

-- One registration, on a valid registry with an id to spare: it never panics, the pair then has the
-- key that was returned, every other pair keeps what it had, and the registry stays valid, so that
-- different pairs have different ids.
pub register-IsValid :
    (m : MetadataKeyMap) (name : String) (t : MetadataValueType)
    → IsValid m
    → m.next_id < 4096
    → (k : MetadataKey) × (m' : MetadataKeyMap) × (register m name t ≡ some (k, m'))
      × IsValid m'
      × ((q : MetadataNameTypePair)
          → lookup q m'.name_to_key_map
            ≡ (if pair_of name t == q then some k else lookup q m.name_to_key_map))
      × (m'.next_id ≤ m.next_id + 1)
unfolding register
register-IsValid m name t v room = elim (Option-cases (lookup (pair_of name t) m.name_to_key_map)) [
  | inr (k, e) ↦ (k, m, rw (e, register) refl, v, known k e, omega arith)
  | inl e ↦ (
    new_key m t,
    extended m (pair_of name t),
    rw (e, register, counts {n = m.next_id} (omega arith)) refl,
    extended-IsValid m (pair_of name t) v room e,
    λ q. lookup-insert (pair_of name t) q (new_key m t) m.name_to_key_map,
    omega arith,
  )
]
  where
    known :
        (k : MetadataKey)
        → lookup (pair_of name t) m.name_to_key_map ≡ some k
        → (q : MetadataNameTypePair)
        → lookup q m.name_to_key_map
          ≡ (if pair_of name t == q then some k else lookup q m.name_to_key_map)
    known k e q = elim (Bool-cases (pair_of name t == q)) [
      | inl h ↦ rw h (rw (← ==_eq (pair_of name t) q h) e)
      | inr h ↦ rw h
    ]

-- The types with an odd number: u8, u32, i8, i32 and bool.
abbrev pub IsOdd : MetadataValueType → Type 0
IsOdd t = type_id t % 2 ≡ 1

bit_or_odd : (t : MetadataValueType) → IsOdd t → bit_or 1 (type_id t) ≡ type_id t
unfolding type_id
bit_or_odd MetadataValueType.u8 h = refl
bit_or_odd MetadataValueType.u16 h = absurd (omega arith)
bit_or_odd MetadataValueType.u32 h = refl
bit_or_odd MetadataValueType.u64 h = absurd (omega arith)
bit_or_odd MetadataValueType.i8 h = refl
bit_or_odd MetadataValueType.i16 h = absurd (omega arith)
bit_or_odd MetadataValueType.i32 h = refl
bit_or_odd MetadataValueType.i64 h = absurd (omega arith)
bit_or_odd MetadataValueType.bytes h = absurd (omega arith)
bit_or_odd MetadataValueType.bool h = refl

apply_wraps :
    (i : ℕ) (t : MetadataValueType)
    → i < 4096
    → IsOdd t
    → apply_value_type_to_klv_id (4096 + i) t ≡ apply_value_type_to_klv_id i t
apply_wraps i t h odd =
    let high : (4096 + i) / 4096 ≡ 1 = omega arith in
    let low : i / 4096 ≡ 0 = omega arith in
    omega (
      arith,
      rw high at (apply_lem (4096 + i) t),
      rw low at (apply_lem i t),
      bit_or_odd t odd,
      zero-bit_or (type_id t),
    )

-- With the counter at 4096 + i, for i below 4096, a pair of a type with an odd number that is new to
-- the registry gets the very key that id i of that type stands for.
pub register_collides :
    (m : MetadataKeyMap) (name : String) (t : MetadataValueType) (i : ℕ)
    → i < 4096
    → IsOdd t
    → m.next_id ≡ 4096 + i
    → lookup (pair_of name t) m.name_to_key_map ≡ none
    → (m' : MetadataKeyMap) × (register m name t
        ≡ some (record { klv_id = apply_value_type_to_klv_id i t; value_type = t }, m'))
unfolding register
register_collides m name t i h odd e fresh =
    let same : apply_value_type_to_klv_id m.next_id t ≡ apply_value_type_to_klv_id i t =
      rw e (apply_wraps i t h odd) in
    (
      extended m (pair_of name t),
      rw (fresh, register, counts {n = m.next_id} (omega arith))
          (ap {B = Option (MetadataKey × MetadataKeyMap)}
            (λ k. some (record { klv_id = k; value_type = t }, extended m (pair_of name t))) same),
    )
