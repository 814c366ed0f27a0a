-- ===== src/EventHub/Search.antt =====
-- The search of the event hub for an id that no subscriber has.
use mmids_core.Common.{
  ℕ, zero, suc, ◌+◌, ◌%◌, ◌^◌, ◌≤◌, ◌<◌, ◌≡◌, refl, sym, ap, inl, inr, true, false, none, some,
  List, [], ◌∷◌, arith, Bool-cases, Option-cases, ◌==◌, nat_eq, string_eq, ==_eq, length, All,
  contains, Distinct, length-le_of_contains,
}
use mmids_core.EventHub.{next_free}

-- The ids that the search tries.
candidates : ℕ → ℕ → List ℕ
candidates zero id = []
candidates (suc f) id = (id + 1) % 2 ^ 64 ∷ candidates f ((id + 1) % 2 ^ 64)

length-candidates : (f id : ℕ) → length (candidates f id) ≡ f
unfolding candidates
length-candidates zero id = refl
length-candidates (suc f) id = ap suc (length-candidates f ((id + 1) % 2 ^ 64))

-- A candidate is at most so many places ahead.
candidates_ahead :
    (f id x : ℕ)
    → contains (candidates f id) x ≡ true
    → (k : ℕ) × (0 < k) × (k ≤ f) × (x ≡ (id + k) % 2 ^ 64)
unfolding candidates contains
candidates_ahead zero id x h = cc
candidates_ahead (suc f) id x h = elim (Bool-cases ((id + 1) % 2 ^ 64 == x)) [
  | inl e ↦ (1, omega arith, omega arith, sym (==_eq ((id + 1) % 2 ^ 64) x e))
  | inr e ↦
      let (k, p, l, q) = candidates_ahead f ((id + 1) % 2 ^ 64) x (rw e at h) in
      (k + 1, omega arith, omega arith, omega arith)
]

candidates-Distinct : (f id : ℕ) → f ≤ 2 ^ 64 → Distinct (candidates f id)
unfolding candidates
candidates-Distinct zero id h = tt
candidates-Distinct (suc f) id h = (
  elim (Bool-cases (contains (candidates f next) next)) [
    | inl e ↦ let (k, p, l, q) = candidates_ahead f next next e in absurd (omega arith)
    | inr e ↦ e
  ],
  candidates-Distinct f next (omega arith),
)
  where
    next : ℕ
    next = (id + 1) % 2 ^ 64

next_free-none :
    (f id : ℕ) (ids : List ℕ)
    → next_free f ids id ≡ none
    → All (λ a. contains ids a ≡ true) (candidates f id)
unfolding next_free candidates
next_free-none zero id ids h = tt
next_free-none (suc f) id ids h = elim (Bool-cases (contains ids ((id + 1) % 2 ^ 64))) [
  | inl e ↦ (e, next_free-none f ((id + 1) % 2 ^ 64) ids (rw e at h))
  | inr e ↦ cc (rw e at h)
]

pub next_free_fresh :
    (f id n : ℕ) (ids : List ℕ) → next_free f ids id ≡ some n → contains ids n ≡ false
unfolding next_free
next_free_fresh zero id n ids h = cc
next_free_fresh (suc f) id n ids h = elim (Bool-cases (contains ids ((id + 1) % 2 ^ 64))) [
  | inl e ↦ next_free_fresh f ((id + 1) % 2 ^ 64) n ids (rw e at h)
  | inr e ↦ let same : (id + 1) % 2 ^ 64 ≡ n = cc (rw e at h) in rw (← same) e
]

-- With one round more than there are ids in use the search finds an id, and it is not in use.
pub next_free_total :
    (ids : List ℕ) (id : ℕ)
    → length ids < 2 ^ 64
    → (n : ℕ) × (next_free (suc (length ids)) ids id ≡ some n) × (contains ids n ≡ false)
next_free_total ids id h = elim (Option-cases (next_free (suc (length ids)) ids id)) [
  | inl e ↦ absurd (
      omega (
        arith,
        length-le_of_contains (candidates (suc (length ids)) id) ids
            (candidates-Distinct (suc (length ids)) id (omega arith))
            (next_free-none (suc (length ids)) id ids e),
        length-candidates (suc (length ids)) id,
      ))
  | inr (n, e) ↦ (n, e, next_free_fresh (suc (length ids)) id n ids e)
]
