-- ===== src/Workflows/Forwarder/Linked.antt =====
-- The two directions of the forwarder's index agree: a stream is listed for exactly its targets.
use mmids_core.Common.{
  String, ◌≡◌, refl, sym, ap, ◌∙◌, subst, inl, inr, Bool, true, false, not, ◌&&◌, ◌||◌, none, some,
  List, [], ◌∷◌, arith, if◌then◌else◌, Bool-cases, ◌==◌, nat_eq, string_eq, ==_eq, keep_if,
  fold_left, Map, lookup, insert, remove, lookup-insert, lookup-remove, contains, add_to,
  remove_from, contains-add_to, contains-remove_from,
}
use mmids_core.Workflows.Media.{StreamId, MediaNotification}
use mmids_core.Workflows.Forwarder.Execute.{drain_targets, retarget}
use mmids_core.Workflows.Forwarder.{
  WorkflowForwarderStep, StreamDetails, unlink, link, targets_for, add_stream, end_stream,
}
use mmids_core.Workflows.Forwarder.Index.{ids_of, contains-unlink_all, contains-link_all}

abbrev pub targets_of : Map StreamId StreamDetails → StreamId → List String
targets_of streams id = elim (lookup id streams) [
  | none ↦ []
  | some stream ↦ stream.target_workflow_names
]

-- A stream is listed for a workflow exactly if the workflow is a target of the stream.
abbrev pub Linked : WorkflowForwarderStep → Type 0
Linked s =
    (id : StreamId) (w : String)
    → contains (ids_of s.stream_for_workflow_name w) id
      ≡ contains (targets_of s.active_streams id) w

contains-kept :
    (xs ys : List String) (w : String)
    → contains (keep_if (λ x. not (contains ys x)) xs) w ≡ (contains xs w && not (contains ys w))
unfolding contains
contains-kept [] ys w = refl
contains-kept (x ∷ xs) ys w = elim (Bool-cases (x == w)) [
  | inl q ↦
      let same = ==_eq x w q in
      elim (Bool-cases (contains ys x)) [
        | inl h ↦
            let h' : contains ys w ≡ true = subst (λ k. contains ys k ≡ true) same h in
            rw h (rw (contains-kept xs ys w, h') (ground arith))
        | inr h ↦
            let h' : contains ys w ≡ false = subst (λ k. contains ys k ≡ false) same h in
            rw h (rw (q, h'))
      ]
  | inr q ↦ elim (Bool-cases (contains ys x)) [
    | inl h ↦ rw h (rw (contains-kept xs ys w, q))
    | inr h ↦ rw h (rw (q, contains-kept xs ys w))
  ]
]

contains-all_removed :
    (vs ts : List String) (w : String)
    → contains (fold_left (λ ws v. remove_from v ws) ts vs) w
      ≡ (contains ts w && not (contains vs w))
unfolding contains
contains-all_removed [] ts w = ground arith
contains-all_removed (v ∷ vs) ts w =
    rw (contains-all_removed vs (remove_from v ts) w, contains-remove_from v w ts) (ground arith)

contains-all_added :
    (vs ts : List String) (w : String)
    → contains (fold_left (λ ws v. add_to v ws) ts vs) w ≡ (contains ts w || contains vs w)
unfolding contains
contains-all_added [] ts w = ground arith
contains-all_added (v ∷ vs) ts w =
    rw (contains-all_added vs (add_to v ts) w, contains-add_to v w ts) (ground arith)

-- After an update the targets are the workflows of the update.
abbrev pub new_targets : List String → List String → List String
new_targets targets routable =
    fold_left (λ ws w. add_to w ws)
      (fold_left (λ ws w. remove_from w ws) targets
        (keep_if (λ w. not (contains routable w)) targets))
      (keep_if (λ w. not (contains targets w)) routable)

pub contains-new_targets :
    (targets routable : List String) (w : String)
    → contains (new_targets targets routable) w ≡ contains routable w
contains-new_targets targets routable w =
    rw
      (
        contains-all_added (keep_if (λ w. not (contains targets w)) routable)
            (fold_left (λ ws w. remove_from w ws) targets
              (keep_if (λ w. not (contains routable w)) targets))
            w,
        contains-all_removed (keep_if (λ w. not (contains routable w)) targets) targets w,
        contains-kept routable targets w,
        contains-kept targets routable w,
      )
      (ground arith)

-- The targets of all streams when one of them is written.
abbrev pub written : StreamId → List String → Map StreamId StreamDetails → StreamId → List String
written id targets streams k = if id == k then targets else targets_of streams k

pub targets_of-insert :
    (id k : StreamId) (stream : StreamDetails) (streams : Map StreamId StreamDetails)
    → targets_of (insert id stream streams) k ≡ written id stream.target_workflow_names streams k
targets_of-insert id k stream streams =
    rw (lookup-insert id k stream streams, targets_of)
      (elim (Bool-cases (id == k)) [ inl q ↦ rw q | inr q ↦ rw q ])

targets_of-remove :
    (id k : StreamId) (streams : Map StreamId StreamDetails)
    → targets_of (remove id streams) k ≡ written id [] streams k
targets_of-remove id k streams =
    rw (lookup-remove id k streams, targets_of)
      (elim (Bool-cases (id == k)) [ inl q ↦ rw q | inr q ↦ rw q ])

drained :
    (x : String) (ts : List String)
    → contains [] x ≡ ((contains ts x && not (contains ts x)) || contains [] x)
unfolding contains
drained x ts = ground arith

nothing_new :
    (x : String) (ts : List String)
    → contains ts x ≡ ((contains ts x && not (contains [] x)) || contains [] x)
unfolding contains
nothing_new x ts = ground arith

module _ (s : WorkflowForwarderStep) (v : Linked s) where
  -- What the index has for a stream after some workflows are struck off and others are linked.
  relinked :
      (id : StreamId) (removed added targets : List String)
      → ((w : String)
          → contains targets w ≡ (
              (contains (targets_of s.active_streams id) w && not (contains removed w))
              || contains added w))
      → (k : StreamId) (w : String)
      → contains
          (ids_of
            (fold_left (link id) (fold_left (unlink id) s.stream_for_workflow_name removed) added)
            w)
          k
        ≡ contains (written id targets s.active_streams k) w
  relinked id removed added targets h k w =
      rw
        (
          contains-link_all id k w added (fold_left (unlink id) s.stream_for_workflow_name removed),
          contains-unlink_all id k w removed s.stream_for_workflow_name,
          v k w,
        )
        (elim (Bool-cases (id == k)) [
          | inl q ↦ rw q (rw (h w) (rw (==_eq id k q)))
          | inr q ↦ rw q (ground arith)
        ])

  targets_at :
      (id : StreamId) (stream : StreamDetails) (w : String)
      → lookup id s.active_streams ≡ some stream
      → contains (targets_of s.active_streams id) w ≡ contains stream.target_workflow_names w
  targets_at id stream w e = rw (e, targets_of)

  targets_unknown :
      (id : StreamId) (w : String)
      → lookup id s.active_streams ≡ none
      → contains (targets_of s.active_streams id) w ≡ false
  unfolding contains
  targets_unknown id w e = rw (e, targets_of)

  pub add_stream-Linked :
      (m : MediaNotification) (name : String)
      → lookup m.stream_id s.active_streams ≡ none
      → Linked (add_stream s m name).0
  unfolding add_stream
  add_stream-Linked m name e k w =
      relinked m.stream_id [] (targets_for s.global_workflow_name)
        (targets_for s.global_workflow_name) (λ x. rw (targets_unknown m.stream_id x e)) k w
      ∙ sym (ap (λ ts. contains ts w) (targets_of-insert m.stream_id k _ s.active_streams))

  pub end_stream-Linked :
      (m : MediaNotification) (stream : StreamDetails)
      → lookup m.stream_id s.active_streams ≡ some stream
      → Linked (end_stream s m stream).0
  unfolding end_stream
  end_stream-Linked m stream e k w =
      relinked m.stream_id stream.target_workflow_names [] [] (λ x. nothing_left x) k w
      ∙ sym (ap (λ ts. contains ts w) (targets_of-remove m.stream_id k s.active_streams))
    where
      nothing_left :
          (x : String)
          → contains [] x ≡ (
              (contains (targets_of s.active_streams m.stream_id) x
                && not (contains stream.target_workflow_names x))
              || contains [] x)
      nothing_left x =
          rw (targets_at m.stream_id stream x e) (drained x stream.target_workflow_names)

  -- Writing a stream with the targets it had changes nothing.
  pub rewritten-Linked :
      (id : StreamId) (stream fresh : StreamDetails)
      → lookup id s.active_streams ≡ some stream
      → fresh.target_workflow_names ≡ stream.target_workflow_names
      → Linked (record s { active_streams = insert id fresh s.active_streams })
  rewritten-Linked id stream fresh e same k w =
      relinked id [] [] fresh.target_workflow_names
        (λ x. rw (same, targets_at id stream x e) (nothing_new x stream.target_workflow_names)) k w
      ∙ sym (ap (λ ts. contains ts w) (targets_of-insert id k fresh s.active_streams))

  pub drain_targets-Linked :
      (id : StreamId) (stream : StreamDetails) (token : Bool)
      → lookup id s.active_streams ≡ some stream
      → Linked (drain_targets s id stream token).0
  unfolding drain_targets
  drain_targets-Linked id stream token e k w =
      relinked id stream.target_workflow_names [] []
        (λ x. rw (targets_at id stream x e) (drained x stream.target_workflow_names)) k w
      ∙ sym (ap (λ ts. contains ts w) (targets_of-insert id k _ s.active_streams))

  pub retarget-Linked :
      (id : StreamId) (stream : StreamDetails) (routable : List String)
      → lookup id s.active_streams ≡ some stream
      → Linked (retarget s id stream routable).0
  unfolding retarget
  retarget-Linked id stream routable e k w =
      relinked id (keep_if (λ x. not (contains routable x)) stream.target_workflow_names) routable
        (new_targets stream.target_workflow_names routable)
        (λ x.
          rw
            (
              contains-new_targets stream.target_workflow_names routable x,
              targets_at id stream x e,
              contains-kept stream.target_workflow_names routable x,
            )
            (ground arith))
        k w
      ∙ sym (ap (λ ts. contains ts w) (targets_of-insert id k _ s.active_streams))
