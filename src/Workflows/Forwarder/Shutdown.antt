-- ===== src/Workflows/Forwarder/Shutdown.antt =====
-- What a forwarder tells the workflows when it is dropped.
use mmids_core.Common.{
  String, ◌≡◌, refl, sym, subst, inl, inr, true, some, List, [], ◌∷◌, ◌++◌, append_assoc,
  if◌then◌else◌, Bool-cases, ◌==◌, nat_eq, string_eq, ==_eq, Map, lookup, contains,
}
use mmids_core.Workflows.Media.{StreamId, MediaNotification}
use mmids_core.Workflows.Requests.{Sender}
use mmids_core.Workflows.Forwarder.{
  StreamDetails, Effect, send_media, cancel, send_to, send_to_all, disconnection,
}
use mmids_core.Workflows.Forwarder.Execute.{drop_step}

-- The effect is among the effects.
abbrev pub Among : Effect → List Effect → Type 0
Among e effects = (before : List Effect) × (after : List Effect) × (effects ≡ before ++ e ∷ after)

Among-left : (e : Effect) (xs ys : List Effect) → Among e xs → Among e (xs ++ ys)
Among-left e xs ys (before, after, h) =
    (before, after ++ ys, rw h (append_assoc before (e ∷ after) ys))

Among-right : (e : Effect) (xs ys : List Effect) → Among e ys → Among e (xs ++ ys)
Among-right e xs ys (before, after, h) =
    (xs ++ before, after, rw h (sym (append_assoc xs before (e ∷ after))))

module _ (known : Map String Sender) (w : String) (c : Sender) where
  sent_to_all :
      (m : MediaNotification) (ws : List String)
      → contains ws w ≡ true
      → lookup w known ≡ some c
      → Among (send_media c m) (send_to_all known (m ∷ []) ws)
  unfolding contains send_to
  sent_to_all m [] t k = cc
  sent_to_all m (x ∷ ws) t k = elim (Bool-cases (x == w)) [
    | inl q ↦
        let known_x : lookup x known ≡ some c =
          subst (λ y. lookup y known ≡ some c) (sym (==_eq x w q)) k in
        rw (known_x, send_to) ([], send_to_all known (m ∷ []) ws, refl)
    | inr q ↦
        Among-right (send_media c m) (send_to known (m ∷ []) x) (send_to_all known (m ∷ []) ws)
          (sent_to_all m ws (rw q at t) k)
  ]

  -- A forwarder is dropped: each workflow that is a target of one of its streams, and whose channel
  -- it knows, is sent that the stream has ended.
  pub drop_step_lem :
      (streams : Map StreamId StreamDetails) (id : StreamId) (stream : StreamDetails)
      → lookup id streams ≡ some stream
      → contains stream.target_workflow_names w ≡ true
      → lookup w known ≡ some c
      → Among (send_media c (disconnection id)) (drop_step known streams)
  unfolding drop_step lookup
  drop_step_lem [] id stream e t k = cc
  drop_step_lem ((j, d) ∷ streams) id stream e t k = elim (Bool-cases (j == id)) [
    | inl q ↦
        let same : d ≡ stream = cc (rw q at e) in
        let same_id = ==_eq j id q in
        Among-left (send_media c (disconnection id))
          (send_to_all known (disconnection j ∷ []) d.target_workflow_names)
          ((if d.cancellation_token then cancel j ∷ [] else []) ++ drop_step known streams)
          (rw (same_id, same) (sent_to_all (disconnection id) stream.target_workflow_names t k))
    | inr q ↦
        Among-right (send_media c (disconnection id))
          (send_to_all known (disconnection j ∷ []) d.target_workflow_names)
          ((if d.cancellation_token then cancel j ∷ [] else []) ++ drop_step known streams)
          (Among-right (send_media c (disconnection id))
            (if d.cancellation_token then cancel j ∷ [] else []) (drop_step known streams)
            (drop_step_lem streams id stream (rw q at e) t k))
  ]
