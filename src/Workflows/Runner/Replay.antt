-- ===== src/Workflows/Runner/Replay.antt =====
-- What a workflow remembers of the media it has received, for the steps that come later.
use mmids_core.Common.{
  String, ◌≡◌, refl, sym, ◌∙◌, subst, inl, inr, Bool, true, false, ◌&&◌, ◌||◌, none, some, List, [],
  ◌∷◌, ◌++◌, append-nil, append_assoc, if◌then◌else◌, Bool-cases, Option-cases, ◌==◌, nat_eq,
  string_eq, ==_eq, keep_if, All, fold_left, fold_left-append, lookup, lookup-insert, lookup-remove,
  lookup-insert_self, lookup-remove_self,
}
use mmids_core.Workflows.Media.{
  StreamId, MediaNotification, MediaNotificationContent, stream_disconnected, new_incoming_stream,
  media_payload, metadata,
}
use mmids_core.Workflows.Runner.Caches.{inbound_step, inbound_after}
use mmids_core.Workflows.Runner.State.{MediaCache}

-- Whether the media starts or ends the stream.
abbrev pub starts : MediaNotificationContent → Bool
starts (new_incoming_stream name) = true
starts _ = false

abbrev pub ends : MediaNotificationContent → Bool
ends stream_disconnected = true
ends _ = false

abbrev pub is_required : MediaNotificationContent → Bool
is_required (media_payload p) = p.is_required_for_decoding
is_required _ = false

abbrev pub starts_or_ends : StreamId → MediaNotification → Bool
starts_or_ends k m = m.stream_id == k && (starts m.content || ends m.content)

abbrev pub starts_stream : StreamId → MediaNotification → Bool
starts_stream k m = m.stream_id == k && starts m.content

abbrev pub required_of : StreamId → MediaNotification → Bool
required_of k m = m.stream_id == k && is_required m.content

inbound_step-other :
    (cache : MediaCache) (k : StreamId) (c : MediaNotificationContent) (m : MediaNotification)
    → (m.stream_id == k) ≡ false
    → lookup k (inbound_step cache c m) ≡ lookup k cache
unfolding inbound_step
inbound_step-other cache k stream_disconnected m h = rw (lookup-remove m.stream_id k cache) (rw h)
inbound_step-other cache k (new_incoming_stream name) m h =
    rw (lookup-insert m.stream_id k (m ∷ []) cache) (rw h)
inbound_step-other cache k (metadata x) m h = refl
inbound_step-other cache k (media_payload p) m h = elim (Bool-cases p.is_required_for_decoding) [
  | inr r ↦ rw r
  | inl r ↦ rw r (elim (Option-cases (lookup m.stream_id cache)) [
    | inl e ↦ rw (e, inbound_step)
    | inr (xs, e) ↦
        rw (e, inbound_step) (rw (lookup-insert m.stream_id k (xs ++ m ∷ []) cache) (rw h))
  ])
]

inbound_step-same :
    (cache : MediaCache) (c : MediaNotificationContent) (m : MediaNotification)
    (xs : List MediaNotification)
    → (starts c || ends c) ≡ false
    → lookup m.stream_id cache ≡ some xs
    → lookup m.stream_id (inbound_step cache c m)
      ≡ some (xs ++ (if is_required c then m ∷ [] else []))
unfolding inbound_step
inbound_step-same cache stream_disconnected m xs h e = cc
inbound_step-same cache (new_incoming_stream name) m xs h e = cc
inbound_step-same cache (metadata x) m xs h e = rw (append-nil xs) e
inbound_step-same cache (media_payload p) m xs h e = elim (Bool-cases p.is_required_for_decoding) [
  | inr r ↦ rw r (rw (append-nil xs) e)
  | inl r ↦ rw r (rw (e, inbound_step) (lookup-insert_self m.stream_id (xs ++ m ∷ []) cache))
]

-- While a stream is neither started nor ended, what is remembered of it grows by what is required.
inbound-grows :
    (k : StreamId) (after : List MediaNotification) (cache : MediaCache)
    (xs : List MediaNotification)
    → All (λ m. starts_or_ends k m ≡ false) after
    → lookup k cache ≡ some xs
    → lookup k (fold_left inbound_after cache after) ≡ some (xs ++ keep_if (required_of k) after)
inbound-grows k [] cache xs h e = rw (append-nil xs) e
inbound-grows k (m ∷ after) cache xs h e = elim (Bool-cases (m.stream_id == k)) [
  | inl q ↦ rw q (
      let quiet : (starts m.content || ends m.content) ≡ false = rw q at h.0 in
      let step =
        subst
          (λ j.
            lookup j (inbound_after cache m)
            ≡ some (xs ++ (if is_required m.content then m ∷ [] else [])))
          (==_eq m.stream_id k q)
          (inbound_step-same cache m.content m xs quiet
            (subst (λ j. lookup j cache ≡ some xs) (sym (==_eq m.stream_id k q)) e)) in
      inbound-grows k after (inbound_after cache m) _ h.1 step ∙ (grown (is_required m.content)))
  | inr q ↦ rw q (
      inbound-grows k after (inbound_after cache m) xs h.1
        (inbound_step-other cache k m.content m q ∙ e))
]
  where
    grown :
        (b : Bool)
        → some ((xs ++ (if b then m ∷ [] else [])) ++ keep_if (required_of k) after)
          ≡ some (
              xs
              ++ (if b then m ∷ keep_if (required_of k) after else keep_if (required_of k) after))
    grown true = rw (append_assoc xs (m ∷ []) (keep_if (required_of k) after))
    grown false = rw (append-nil xs)

-- While no stream of an unknown id starts, nothing is remembered under the id.
inbound_step-unknown :
    (cache : MediaCache) (c : MediaNotificationContent) (m : MediaNotification)
    → starts c ≡ false
    → lookup m.stream_id cache ≡ none
    → lookup m.stream_id (inbound_step cache c m) ≡ none
unfolding inbound_step
inbound_step-unknown cache stream_disconnected m s e = lookup-remove_self m.stream_id cache
inbound_step-unknown cache (new_incoming_stream name) m s e = cc
inbound_step-unknown cache (metadata x) m s e = e
inbound_step-unknown cache (media_payload p) m s e = elim (Bool-cases p.is_required_for_decoding) [
  | inr r ↦ rw r e
  | inl r ↦ rw r (rw (e, inbound_step) e)
]

inbound-stays_unknown :
    (k : StreamId) (after : List MediaNotification) (cache : MediaCache)
    → All (λ m. starts_stream k m ≡ false) after
    → lookup k cache ≡ none
    → lookup k (fold_left inbound_after cache after) ≡ none
inbound-stays_unknown k [] cache h e = e
inbound-stays_unknown k (m ∷ after) cache h e =
    inbound-stays_unknown k after (inbound_after cache m) h.1
      (elim (Bool-cases (m.stream_id == k)) [
        | inl q ↦
            subst (λ j. lookup j (inbound_after cache m) ≡ none) (==_eq m.stream_id k q)
              (inbound_step-unknown cache m.content m (rw q at h.0)
                (subst (λ j. lookup j cache ≡ none) (sym (==_eq m.stream_id k q)) e))
        | inr q ↦ inbound_step-other cache k m.content m q ∙ e
      ])

inbound_step-started :
    (cache : MediaCache) (k : StreamId) (name : String)
    → lookup k (inbound_after cache (record { stream_id = k; content = new_incoming_stream name }))
      ≡ some (record { stream_id = k; content = new_incoming_stream name } ∷ [])
unfolding inbound_step
inbound_step-started cache k name = lookup-insert_self k _ cache

inbound_step-ended :
    (cache : MediaCache) (k : StreamId)
    → lookup k (inbound_after cache (record { stream_id = k; content = stream_disconnected }))
      ≡ none
unfolding inbound_step
inbound_step-ended cache k = lookup-remove_self k cache

-- What is remembered of the received media.
abbrev pub remembered : List MediaNotification → MediaCache
remembered received = fold_left inbound_after [] received

pub remembered-started :
    (k : StreamId) (name : String) (before after : List MediaNotification)
    → All (λ m. starts_or_ends k m ≡ false) after
    → lookup k (
        remembered (before ++ record { stream_id = k; content = new_incoming_stream name } ∷ after))
      ≡ some (
          record { stream_id = k; content = new_incoming_stream name }
          ∷ keep_if (required_of k) after)
remembered-started k name before after h =
    rw
      (fold_left-append inbound_after [] before
        (record { stream_id = k; content = new_incoming_stream name } ∷ after))
      (inbound-grows k after _ _ h (inbound_step-started (remembered before) k name))

pub remembered-ended :
    (k : StreamId) (before after : List MediaNotification)
    → All (λ m. starts_stream k m ≡ false) after
    → lookup k
        (remembered (before ++ record { stream_id = k; content = stream_disconnected } ∷ after))
      ≡ none
remembered-ended k before after h =
    rw
      (fold_left-append inbound_after [] before
        (record { stream_id = k; content = stream_disconnected } ∷ after))
      (inbound-stays_unknown k after _ h (inbound_step-ended (remembered before) k))
