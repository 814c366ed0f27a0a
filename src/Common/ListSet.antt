-- ===== src/Common/ListSet.antt =====
-- Hash sets as lists, and membership as a Boolean test.
use mathlib.Core.Path.{subst, ◌≡◌, refl}
use mathlib.Core.Logic.{inl, inr}
use mathlib.Core.Bool.{Bool, true, false, ◌||◌, ◌&&◌, not}
use mathlib.Core.List.{List, [], ◌∷◌, ◌++◌}
use Prim.Native.Nat.{◌+◌, ◌≤◌, ◌<◌}
use native.Mathlib.Omega.{arith}
use mmids_core.Common.Lists.{length, length-append, All}
use mmids_core.Common.Tests.{if◌then◌else◌, Eq, ◌==◌, Bool-cases, ==_refl, ==_eq}

module _ {ℓ} {A : Type ℓ} ⦃e : Eq A⦄ where
  unfoldable pub contains : List A → A → Bool
  contains [] a = false
  contains (x ∷ xs) a = x == a || contains xs a

  -- Adding to a set.
  unfoldable pub add_to : A → List A → List A
  add_to a xs = if contains xs a then xs else xs ++ a ∷ []

  unfoldable pub remove_from : A → List A → List A
  remove_from a [] = []
  remove_from a (x ∷ xs) = if x == a then remove_from a xs else x ∷ remove_from a xs

  -- `collect::<HashSet<_>>()`.
  unfoldable pub to_set : List A → List A
  to_set [] = []
  to_set (x ∷ xs) = add_to x (to_set xs)

  pub contains-append :
      (xs ys : List A) (a : A) → contains (xs ++ ys) a ≡ (contains xs a || contains ys a)
  unfolding contains
  contains-append [] ys a = refl
  contains-append (x ∷ xs) ys a = ground (arith, contains-append xs ys a)

  present :
      (a b : A) (xs : List A) → contains xs a ≡ true → contains xs b ≡ (a == b || contains xs b)
  present a b xs h = elim (Bool-cases (a == b)) [
    | inl p ↦ rw (← ==_eq a b p) (rw (h, ==_refl a))
    | inr p ↦ rw p
  ]

  pub contains-add_to :
      (a b : A) (xs : List A) → contains (add_to a xs) b ≡ (a == b || contains xs b)
  unfolding add_to contains
  contains-add_to a b xs = elim (Bool-cases (contains xs a)) [
    | inl h ↦ rw h (present a b xs h)
    | inr h ↦ rw h (ground (arith, contains-append xs (a ∷ []) b))
  ]

  pub contains-remove_from :
      (a b : A) (xs : List A) → contains (remove_from a xs) b ≡ (not (a == b) && contains xs b)
  unfolding remove_from contains
  contains-remove_from a b [] = ground arith
  contains-remove_from a b (x ∷ xs) =
      ground (arith, e.beq_iff a b, e.beq_iff x a, e.beq_iff x b, contains-remove_from a b xs)

  pub contains-to_set : (xs : List A) (a : A) → contains (to_set xs) a ≡ contains xs a
  unfolding to_set contains
  contains-to_set [] a = refl
  contains-to_set (x ∷ xs) a = ground (arith, contains-add_to x a (to_set xs), contains-to_set xs a)

  -- No element stands twice.
  abbrev pub Distinct : List A → Type 0
  Distinct [] = Unit
  Distinct (x ∷ xs) = (contains xs x ≡ false) × Distinct xs

  length-remove_from-le : (a : A) (xs : List A) → length (remove_from a xs) ≤ length xs
  unfolding remove_from
  length-remove_from-le a [] = omega arith
  length-remove_from-le a (x ∷ xs) = ground (arith, length-remove_from-le a xs)

  length-remove_from :
      (a : A) (xs : List A) → contains xs a ≡ true → length (remove_from a xs) < length xs
  unfolding remove_from contains
  length-remove_from a [] h = cc
  length-remove_from a (x ∷ xs) h =
      ground (arith, length-remove_from a xs, length-remove_from-le a xs)

  others :
      (x : A) (xs ys : List A)
      → contains xs x ≡ false
      → All (λ a. contains ys a ≡ true) xs
      → All (λ a. contains (remove_from x ys) a ≡ true) xs
  unfolding contains
  others x [] ys n h = tt
  others x (a ∷ xs) ys n h = (
    ground (arith, contains-remove_from x a ys, e.beq_iff x a, e.beq_iff a x),
    others x xs ys (ground arith) h.1,
  )

  -- Distinct elements of a list are no more than its elements.
  pub length-le_of_contains :
      (xs ys : List A) → Distinct xs → All (λ a. contains ys a ≡ true) xs → length xs ≤ length ys
  length-le_of_contains [] ys d h = omega arith
  length-le_of_contains (x ∷ xs) ys d h = omega (
    arith,
    length-remove_from x ys h.0,
    length-le_of_contains xs (remove_from x ys) d.1 (others x xs ys d.0 h.1),
  )

  pub length-add_to : (a : A) (xs : List A) → length (add_to a xs) ≤ length xs + 1
  unfolding add_to
  length-add_to a xs = ground (arith, length-append xs (a ∷ []))

  pub All-map_mem {κ μ} :
      {P : A → Type κ} {Q : A → Type μ} (xs : List A)
      → ((a : A) → contains xs a ≡ true → P a → Q a)
      → All P xs
      → All Q xs
  unfolding contains
  All-map_mem [] f h = tt
  All-map_mem (x ∷ xs) f h =
      (f x (rw (==_refl x)) h.0, All-map_mem xs (λ a m p. f a (ground (arith, m)) p) h.1)

  -- An element at which the predicate is known.
  pub All-at {κ} : (P : A → Type κ) (xs : List A) (a : A) → contains xs a ≡ true → All P xs → P a
  unfolding contains
  All-at P [] a m h = cc
  All-at P (x ∷ xs) a m h = elim (Bool-cases (x == a)) [
    | inl q ↦ subst P (==_eq x a q) h.0
    | inr q ↦ All-at P xs a (rw q at m) h.1
  ]

  snoc-Distinct :
      (a : A) (xs : List A) → contains xs a ≡ false → Distinct xs → Distinct (xs ++ a ∷ [])
  unfolding contains
  snoc-Distinct a [] h d = (refl, tt)
  snoc-Distinct a (x ∷ xs) h d =
      (rw (contains-append xs (a ∷ []) x, d.0) (head_ne h), snoc-Distinct a xs (tail_false h) d.1)
    where
      head_ne : (x == a || contains xs a) ≡ false → (a == x || false) ≡ false
      head_ne p = ground (arith, e.beq_iff a x, e.beq_iff x a)

      tail_false : (x == a || contains xs a) ≡ false → contains xs a ≡ false
      tail_false p = ground arith

  pub add_to-Distinct : (a : A) (xs : List A) → Distinct xs → Distinct (add_to a xs)
  unfolding add_to
  add_to-Distinct a xs d = elim (Bool-cases (contains xs a)) [
    | inl h ↦ rw h d
    | inr h ↦ rw h (snoc-Distinct a xs h d)
  ]

  pub to_set-Distinct : (xs : List A) → Distinct (to_set xs)
  unfolding to_set
  to_set-Distinct [] = tt
  to_set-Distinct (x ∷ xs) = add_to-Distinct x (to_set xs) (to_set-Distinct xs)

  -- Every element of a list is in it.
  pub All-contains :
      (xs ys : List A)
      → ((a : A) → contains xs a ≡ true → contains ys a ≡ true)
      → All (λ a. contains ys a ≡ true) xs
  unfolding contains
  All-contains [] ys h = tt
  All-contains (x ∷ xs) ys h =
      (h x (rw (==_refl x)), All-contains xs ys (λ a m. h a (ground (arith, m))))
