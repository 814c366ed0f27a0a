-- ===== src/Workflows/Forwarder/Index.antt =====
-- The index from workflows to streams: what linking and unlinking do to it.
use mmids_core.Common.{
  String, ◌≡◌, refl, inl, inr, true, false, not, ◌&&◌, ◌||◌, some, List, [], ◌∷◌, arith, Bool-cases,
  Option-cases, ◌==◌, nat_eq, string_eq, ==_eq, is_empty, fold_left, Map, or_default, lookup,
  lookup-insert, lookup-remove, contains, add_to, remove_from, contains-add_to,
  contains-remove_from,
}
use mmids_core.Workflows.Media.{StreamId}
use mmids_core.Workflows.Forwarder.{unlink, link}

abbrev pub ids_of : Map String (List StreamId) → String → List StreamId
ids_of index workflow = or_default (lookup workflow index) []

module _ (id k : StreamId) (w : String) where
  contains_of_empty : (ids : List StreamId) → is_empty ids ≡ true → contains ids k ≡ false
  unfolding contains
  contains_of_empty [] h = refl
  contains_of_empty (x ∷ ids) h = cc

  unlinked :
      (index : Map String (List StreamId)) (v : String) (ids : List StreamId)
      → lookup v index ≡ some ids
      → contains (ids_of (unlink id index v) w) k
        ≡ (contains (ids_of index w) k && not (id == k && v == w))
  unfolding unlink contains
  unlinked index v ids e =
      rw (e, unlink)
        (elim (Bool-cases (is_empty (remove_from id ids))) [
          | inl q ↦ rw q (
              rw (lookup-remove v w index) (elim (Bool-cases (v == w)) [
                | inl p ↦ rw p (
                    rw (← ==_eq v w p) (
                      rw e (
                        ground (
                          arith,
                          contains-remove_from id k ids,
                          contains_of_empty (remove_from id ids) q,
                        ))))
                | inr p ↦ rw p (ground arith)
              ]))
          | inr q ↦ rw q (
              rw (lookup-insert v w (remove_from id ids) index) (elim (Bool-cases (v == w)) [
                | inl p ↦
                    rw p (rw (← ==_eq v w p) (rw e (ground (arith, contains-remove_from id k ids))))
                | inr p ↦ rw p (ground arith)
              ]))
        ])

  pub contains-unlink :
      (index : Map String (List StreamId)) (v : String)
      → contains (ids_of (unlink id index v) w) k
        ≡ (contains (ids_of index w) k && not (id == k && v == w))
  unfolding unlink contains
  contains-unlink index v = elim (Option-cases (lookup v index)) [
    | inr (ids, e) ↦ unlinked index v ids e
    | inl e ↦
        rw (e, unlink)
          (elim (Bool-cases (v == w)) [
            | inl p ↦ rw p (rw (← ==_eq v w p) (rw e))
            | inr p ↦ rw p (ground arith)
          ])
  ]

  pub contains-link :
      (index : Map String (List StreamId)) (v : String)
      → contains (ids_of (link id index v) w) k
        ≡ (contains (ids_of index w) k || (id == k && v == w))
  unfolding link
  contains-link index v =
      rw (lookup-insert v w (add_to id (ids_of index v)) index) (elim (Bool-cases (v == w)) [
        | inl p ↦ rw p (rw (← ==_eq v w p) (ground (arith, contains-add_to id k (ids_of index v))))
        | inr p ↦ rw p (ground arith)
      ])

  pub contains-unlink_all :
      (vs : List String) (index : Map String (List StreamId))
      → contains (ids_of (fold_left (unlink id) index vs) w) k
        ≡ (contains (ids_of index w) k && not (id == k && contains vs w))
  unfolding contains
  contains-unlink_all [] index = ground arith
  contains-unlink_all (v ∷ vs) index =
      rw (contains-unlink_all vs (unlink id index v), contains-unlink index v) (ground arith)

  pub contains-link_all :
      (vs : List String) (index : Map String (List StreamId))
      → contains (ids_of (fold_left (link id) index vs) w) k
        ≡ (contains (ids_of index w) k || (id == k && contains vs w))
  unfolding contains
  contains-link_all [] index = ground arith
  contains-link_all (v ∷ vs) index =
      rw (contains-link_all vs (link id index v), contains-link index v) (ground arith)
