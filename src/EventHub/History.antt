-- ===== src/EventHub/History.antt =====
-- A subscriber of workflow events over the life of the hub.
use mmids_core.Common.{
  ℕ, suc, ◌+◌, ◌^◌, ◌<◌, String, ◌≡◌, ap, ◌∙◌, subst, ◌≢◌, inl, inr, true, false, some, List, [],
  ◌∷◌, ◌++◌, arith, Bool-cases, Option-cases, ◌==◌, nat_eq, string_eq, ==_refl, length,
  fold_left-append, Map, values, lookup, insert, lookup-insert_self, lookup-insert_ne,
  lookup-remove_ne, contains, add_to,
}
use mmids_core.Workflows.Requests.{Sender, PublishEventRequest, SubscriptionRequest}
use mmids_core.EventHub.{
  Actor, FutureResult, all_publish_consumers_gone, all_subscription_request_consumers_gone,
  new_publish_request, new_subscription_request, workflow_start_stop_subscriber_gone,
  workflow_manager_subscriber_gone, Effect, watch_start_stop, catch_up, apply_event,
  handle_publish_request, next_free, add_subscriber, handle_subscription_request, goes_on,
  after_match, after_subscription, handle,
}
use mmids_core.EventHub.Subscribers.{IsValid, Expected, after_match_lem, handle-IsValid}
use mmids_core.EventHub.Views.{
  received, received-append, replay, Agrees, joins-Agrees, handle-Follows,
}

-- Rounds of the hub from one state to another, with what they did to the outside, in which the
-- subscriber `id` is not reported gone.
pub data Rounds (id : ℕ) : Actor → List Effect → Actor → Type 0 where
  done : {s : Actor} → Rounds id s [] s
  round :
      {s t u : Actor} {effects later all : List Effect} (e : FutureResult)
      → Expected s e
      → length s.active_subscriber_ids + 1 < 2 ^ 64
      → e ≢ workflow_start_stop_subscriber_gone id
      → handle s e ≡ goes_on t effects
      → Rounds id t later u
      → all ≡ effects ++ later
      → Rounds id s all u

-- The subscriber `id` is registered with the channel.
abbrev pub Registered : ℕ → Sender → Actor → Type 0
Registered id c s = lookup id s.workflow_start_stop_subscribers ≡ some c

contains_of_lookup :
    (id c : ℕ) (m : Map ℕ Sender) → lookup id m ≡ some c → contains (values m) c ≡ true
unfolding lookup contains
contains_of_lookup id c [] h = cc
contains_of_lookup id c ((j, d) ∷ m) h = elim (Bool-cases (j == id)) [
  | inl q ↦ let same : d ≡ c = cc (rw q at h) in rw same (rw (==_refl c))
  | inr q ↦ rw (contains_of_lookup id c m (rw q at h)) (ground arith)
]

module _ (id c : ℕ) (s s' : Actor) (effects : List Effect) where
  kept_by :
      (t : Actor) (own : List Effect)
      → after_match t own ≡ goes_on s' effects
      → Registered id c t
      → Registered id c s'
  kept_by t own h r = rw ((after_match_lem t s' own effects h).0) r

  publish_keeps :
      (request : PublishEventRequest)
      → Registered id c s
      → Registered id c (handle_publish_request s request).0
  unfolding handle_publish_request
  publish_keeps (PublishEventRequest.workflow_started_or_stopped e) r = r
  publish_keeps (PublishEventRequest.workflow_manager_event e) r = r

  -- The id that the hub had ready is another one, since it is not in use.
  other_id : IsValid s → Registered id c s → s.next_subscriber_id ≢ id
  other_id v r e =
      let used = v.start_stop_used id (rw r) in
      let f = subst (λ j. contains s.active_subscriber_ids j ≡ false) e v.fresh in cc

  added_keeps :
      (t : Actor) (k : ℕ) (request : SubscriptionRequest)
      → k ≢ id
      → Registered id c t
      → Registered id c (add_subscriber t k request).0
  unfolding add_subscriber
  added_keeps t k (SubscriptionRequest.workflow_started_or_stopped d) n r =
      lookup-insert_ne k id d t.workflow_start_stop_subscribers n ∙ r
  added_keeps t k (SubscriptionRequest.workflow_manager_events d) n r = r

  subscription_registers :
      (request : SubscriptionRequest)
      → IsValid s
      → Registered id c s
      → after_subscription (handle_subscription_request s request) ≡ goes_on s' effects
      → Registered id c s'
  unfolding handle_subscription_request
  subscription_registers request v r e =
      let ids = add_to s.next_subscriber_id s.active_subscriber_ids in
      elim (Option-cases (next_free (suc (length ids)) ids s.next_subscriber_id)) [
        | inl none_free ↦
            let stops = rw (none_free, handle_subscription_request, after_subscription) at e in cc
        | inr (next, found) ↦
            let t : Actor = record s { active_subscriber_ids = ids; next_subscriber_id = next } in
            kept_by (add_subscriber t s.next_subscriber_id request).0
              (add_subscriber t s.next_subscriber_id request).1
              (rw (found, handle_subscription_request, after_subscription) at e)
              (added_keeps t s.next_subscriber_id request (other_id v r) r)
      ]

  -- A registered subscriber stays registered until it is reported gone.
  handle_registers :
      (e : FutureResult)
      → IsValid s
      → e ≢ workflow_start_stop_subscriber_gone id
      → Registered id c s
      → handle s e ≡ goes_on s' effects
      → Registered id c s'
  unfolding handle
  handle_registers all_publish_consumers_gone v n r h = cc
  handle_registers all_subscription_request_consumers_gone v n r h = kept_by _ [] h r
  handle_registers (new_publish_request request) v n r h =
      kept_by (handle_publish_request s request).0 (handle_publish_request s request).1 h
        (publish_keeps request r)
  handle_registers (new_subscription_request request) v n r h = subscription_registers request v r h
  handle_registers (workflow_start_stop_subscriber_gone k) v n r h = kept_by _ [] h (
      lookup-remove_ne k id s.workflow_start_stop_subscribers
        (λ e. n (ap workflow_start_stop_subscriber_gone e))
      ∙ r)
  handle_registers (workflow_manager_subscriber_gone k) v n r h = kept_by _ [] h r

-- Over any rounds in which the subscriber is not reported gone, its view stays in step.
pub Rounds-Agrees :
    {id : ℕ} {s u : Actor} {all : List Effect} (c : Sender) (v : Map String Sender)
    → Rounds id s all u
    → IsValid s
    → Registered id c s
    → Agrees v s.active_workflows
    → Agrees (replay v (received c all)) u.active_workflows
Rounds-Agrees c v done i r h = h
Rounds-Agrees {id} {s} c v (round {t = t} {effects = effects} {later = later} e x room n g rest q) i
      r h =
    rw (q, received-append c effects later)
      (λ name.
        ap (lookup name) (fold_left-append apply_event v (received c effects) (received c later))
        ∙ Rounds-Agrees c (replay v (received c effects)) rest
            (handle-IsValid s t effects i e x room g) (handle_registers id c s t effects e i n r g)
            (handle-Follows c v t effects s e i
              (contains_of_lookup id c s.workflow_start_stop_subscribers r) h g)
            name)

-- The state that a subscription leaves, and what it did.
subscription_result :
    (s t : Actor) (c : Sender) (joined : List Effect)
    → handle s (new_subscription_request (SubscriptionRequest.workflow_started_or_stopped c))
      ≡ goes_on t joined
    → (t.active_workflows ≡ s.active_workflows)
      × (t.workflow_start_stop_subscribers
          ≡ insert s.next_subscriber_id c s.workflow_start_stop_subscribers)
      × (joined ≡ catch_up c s.active_workflows ++ (watch_start_stop c s.next_subscriber_id ∷ []))
unfolding handle handle_subscription_request add_subscriber
subscription_result s t c joined g =
    let ids = add_to s.next_subscriber_id s.active_subscriber_ids in
    elim (Option-cases (next_free (suc (length ids)) ids s.next_subscriber_id)) [
      | inl none_free ↦
          let stops = rw (none_free, handle_subscription_request, after_subscription) at g in cc
      | inr (next, found) ↦
          let (p, q) =
            after_match_lem
              (add_subscriber (record s { active_subscriber_ids = ids; next_subscriber_id = next })
                s.next_subscriber_id (SubscriptionRequest.workflow_started_or_stopped c)).0
              t
              (add_subscriber (record s { active_subscriber_ids = ids; next_subscriber_id = next })
                s.next_subscriber_id (SubscriptionRequest.workflow_started_or_stopped c)).1
              joined (rw (found, handle_subscription_request, after_subscription) at g) in
          (ap (λ x. x.active_workflows) p, ap (λ x. x.workflow_start_stop_subscribers) p, q)
    ]

-- A subscriber that joins the hub at any time: on a valid hub with an id to spare, replaying all
-- events that its channel is sent from then on, those of the catching up first, gives after any
-- further rounds the workflows that the hub holds to be active, if each of these rounds has an id to
-- spare, reports gone only subscribers that are registered, and does not report this one gone.
pub late_subscriber-Agrees :
    (s t u : Actor) (c : Sender) (joined later : List Effect)
    → IsValid s
    → length s.active_subscriber_ids + 1 < 2 ^ 64
    → handle s (new_subscription_request (SubscriptionRequest.workflow_started_or_stopped c))
      ≡ goes_on t joined
    → Rounds s.next_subscriber_id t later u
    → Agrees (replay [] (received c (joined ++ later))) u.active_workflows
late_subscriber-Agrees s t u c joined later v room g rest =
    let (same, registered, sent) = subscription_result s t c joined g in
    rw (received-append c joined later) (λ name.
      ap (lookup name) (fold_left-append apply_event [] (received c joined) (received c later))
      ∙ Rounds-Agrees c (replay [] (received c joined)) rest
          (handle-IsValid s t joined v
            (new_subscription_request (SubscriptionRequest.workflow_started_or_stopped c)) tt room
            g)
          (rw registered
            (lookup-insert_self s.next_subscriber_id c s.workflow_start_stop_subscribers))
          (rw (same, sent)
            (joins-Agrees c s.next_subscriber_id s.active_workflows v.workflows_distinct))
          name)
