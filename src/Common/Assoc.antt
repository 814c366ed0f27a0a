-- ===== src/Common/Assoc.antt =====
-- Hash maps as association lists. A key that is written again keeps its place, a new key goes to the
-- end; a loop over a map runs in the order of the list, which stands for the unspecified order of a
-- hash map.
use mathlib.Core.Path.{◌≡◌, refl, sym, ◌∙◌}
use mathlib.Core.Logic.{inl, inr, ◌⊎◌}
use mathlib.Core.Logic.{◌≢◌}
use mathlib.Core.Bool.{Bool, true, false}
use mathlib.Core.List.{List, [], ◌∷◌, map}
use mathlib.Core.Option.{Option, none, some}
use native.Mathlib.Omega.{arith}
use mmids_core.Common.Tests.{if◌then◌else◌, Eq, ◌==◌, ==_refl, ==_false, ==_eq, ==_ne, Bool-cases}

-- `HashMap<K, V>`.
abbrev pub Map {ℓ κ} : Type ℓ → Type κ → Type (ℓ ⊔ κ)
Map K V = List (K × V)

abbrev pub is_some {ℓ} : {A : Type ℓ} → Option A → Bool
is_some none = false
is_some (some a) = true

abbrev pub or_default {ℓ} : {A : Type ℓ} → Option A → A → A
or_default none d = d
or_default (some a) d = a

module _ {ℓ κ} {K : Type ℓ} {V : Type κ} where
  abbrev pub keys : Map K V → List K
  keys m = map (λ e. e.0) m

  abbrev pub values : Map K V → List V
  values m = map (λ e. e.1) m

module _ {ℓ κ} {K : Type ℓ} {V : Type κ} ⦃e : Eq K⦄ where
  -- `get`.
  unfoldable pub lookup : K → Map K V → Option V
  lookup key [] = none
  lookup key ((other, x) ∷ rest) = if other == key then some x else lookup key rest

  unfoldable pub insert : K → V → Map K V → Map K V
  insert key x [] = (key, x) ∷ []
  insert key x ((other, old) ∷ rest) =
      if other == key then (key, x) ∷ rest else (other, old) ∷ insert key x rest

  unfoldable pub remove : K → Map K V → Map K V
  remove k [] = []
  remove k ((j, w) ∷ m) = if j == k then remove k m else (j, w) ∷ remove k m

  abbrev pub contains_key : K → Map K V → Bool
  contains_key k m = is_some (lookup k m)

  pub lookup-insert :
      (key place : K) (x : V) (m : Map K V)
      → lookup place (insert key x m) ≡ (if key == place then some x else lookup place m)
  unfolding lookup insert
  lookup-insert key place x [] = refl
  lookup-insert key place x ((other, old) ∷ rest) = ground (
    arith,
    lookup-insert key place x rest,
    e.beq_iff key place,
    e.beq_iff other key,
    e.beq_iff other place,
  )

  pub lookup-remove :
      (k j : K) (m : Map K V) → lookup j (remove k m) ≡ (if k == j then none else lookup j m)
  unfolding lookup remove
  lookup-remove k j [] = ground arith
  lookup-remove k j ((i, w) ∷ m) =
      ground (arith, e.beq_iff k j, e.beq_iff i k, e.beq_iff i j, lookup-remove k j m)

  pub lookup-insert_self : (k : K) (v : V) (m : Map K V) → lookup k (insert k v m) ≡ some v
  lookup-insert_self k v m = simp (lookup-insert, ==_refl)

  pub lookup-insert_ne :
      (k j : K) (v : V) (m : Map K V) → k ≢ j → lookup j (insert k v m) ≡ lookup j m
  lookup-insert_ne k j v m n = rw (lookup-insert k j v m, ==_false k j n)

  pub lookup-remove_self : (k : K) (m : Map K V) → lookup k (remove k m) ≡ none
  lookup-remove_self k m = simp (lookup-remove, ==_refl)

  pub lookup-remove_ne : (k j : K) (m : Map K V) → k ≢ j → lookup j (remove k m) ≡ lookup j m
  lookup-remove_ne k j m n = rw (lookup-remove k j m, ==_false k j n)

  -- No key stands twice.
  abbrev pub DistinctKeys : Map K V → Type κ
  DistinctKeys [] = Unit
  DistinctKeys ((k, v) ∷ m) = (lookup k m ≡ none) × DistinctKeys m

  pub insert-DistinctKeys :
      (k : K) (v : V) (m : Map K V) → DistinctKeys m → DistinctKeys (insert k v m)
  unfolding lookup insert
  insert-DistinctKeys k v [] d = (refl, tt)
  insert-DistinctKeys k v ((j, w) ∷ m) d = elim (Bool-cases (j == k)) [
    | inl h ↦ rw h (rw (← ==_eq j k h) d)
    | inr h ↦ rw h (
      rw (lookup-insert k j v m, ==_false k j (λ p. ==_ne j k h (sym p))) d.0,
      insert-DistinctKeys k v m d.1,
    )
  ]

  pub remove-DistinctKeys : (k : K) (m : Map K V) → DistinctKeys m → DistinctKeys (remove k m)
  unfolding lookup remove
  remove-DistinctKeys k [] d = tt
  remove-DistinctKeys k ((j, w) ∷ m) d = elim (Bool-cases (j == k)) [
    | inl h ↦ rw h (remove-DistinctKeys k m d.1)
    | inr h ↦ rw h (
      rw (lookup-remove k j m, ==_false k j (λ p. ==_ne j k h (sym p))) d.0,
      remove-DistinctKeys k m d.1,
    )
  ]

  pub contains_key-insert :
      (k j : K) (v : V) (m : Map K V)
      → contains_key j (insert k v m) ≡ (if k == j then true else contains_key j m)
  contains_key-insert k j v m = rw (lookup-insert k j v m) (ground arith)

  pub contains_key-remove :
      (k j : K) (m : Map K V)
      → contains_key j (remove k m) ≡ (if k == j then false else contains_key j m)
  contains_key-remove k j m = rw (lookup-remove k j m) (ground arith)

  pub contains_key-insert_cases :
      (k j : K) (v : V) (m : Map K V)
      → contains_key j (insert k v m) ≡ true
      → (k ≡ j) ⊎ (contains_key j m ≡ true)
  contains_key-insert_cases k j v m h = elim (Bool-cases (k == j)) [
    | inl p ↦ inl (==_eq k j p)
    | inr p ↦ inr (rw p at (sym (contains_key-insert k j v m) ∙ h))
  ]

  pub contains_key-remove_cases :
      (k j : K) (m : Map K V)
      → contains_key j (remove k m) ≡ true
      → (k ≢ j) × (contains_key j m ≡ true)
  contains_key-remove_cases k j m h = elim (Bool-cases (k == j)) [
    | inl p ↦ let none_left = rw p at (sym (contains_key-remove k j m) ∙ h) in cc
    | inr p ↦ (==_ne k j p, rw p at (sym (contains_key-remove k j m) ∙ h))
  ]
