-- ===== src/EventHub/Views.antt =====
-- What a subscriber of workflow events knows: the events that it was sent, replayed in order, give
-- the workflows that the hub holds to be active, however late it subscribed.
use mmids_core.Common.{
  ℕ, suc, String, ◌≡◌, refl, ◌∙◌, subst, inl, inr, Bool, true, false, Option, none, some, List, [],
  ◌∷◌, ◌++◌, map, append-nil, arith, if◌then◌else◌, Bool-cases, Option-cases, ◌==◌, nat_eq,
  string_eq, ==_refl, ==_eq, length, fold_left, Map, values, lookup, insert, remove, lookup-insert,
  lookup-remove, DistinctKeys, contains, add_to,
}
use mmids_core.Workflows.Requests.{
  Sender, WorkflowStartedOrStoppedEvent, WorkflowManagerEvent, workflow_started, workflow_ended,
  PublishEventRequest, SubscriptionRequest,
}
use mmids_core.EventHub.{
  Actor, FutureResult, all_publish_consumers_gone, all_subscription_request_consumers_gone,
  new_publish_request, new_subscription_request, workflow_start_stop_subscriber_gone,
  workflow_manager_subscriber_gone, Effect, send_event, send_manager_event, watch_start_stop,
  watch_manager, apply_event, handle_publish_request, catch_up, catch_up_manager, next_free,
  add_subscriber, handle_subscription_request, goes_on, after_match, after_subscription, handle,
}
use mmids_core.EventHub.Subscribers.{IsValid, after_match_lem}

-- The workflow events that went to a channel, in order.
abbrev pub received : Sender → List Effect → List WorkflowStartedOrStoppedEvent
received c [] = []
received c (send_event d e ∷ effects) =
    if d == c then e ∷ received c effects else received c effects
received c (send_manager_event d e ∷ effects) = received c effects
received c (watch_start_stop d id ∷ effects) = received c effects
received c (watch_manager d id ∷ effects) = received c effects

-- The workflows that a reader of the events takes to be active.
abbrev pub replay : Map String Sender → List WorkflowStartedOrStoppedEvent → Map String Sender
replay = fold_left apply_event

-- Two maps that answer alike.
abbrev pub Agrees : Map String Sender → Map String Sender → Type 0
Agrees v w = (name : String) → lookup name v ≡ lookup name w

pub received-append :
    (c : Sender) (xs ys : List Effect) → received c (xs ++ ys) ≡ received c xs ++ received c ys
received-append c [] ys = refl
received-append c (send_event d e ∷ xs) ys = ground (arith, received-append c xs ys)
received-append c (send_manager_event d e ∷ xs) ys = received-append c xs ys
received-append c (watch_start_stop d id ∷ xs) ys = received-append c xs ys
received-append c (watch_manager d id ∷ xs) ys = received-append c xs ys

pub apply_event-Agrees :
    (v w : Map String Sender) (e : WorkflowStartedOrStoppedEvent)
    → Agrees v w
    → Agrees (apply_event v e) (apply_event w e)
unfolding apply_event
apply_event-Agrees v w (workflow_started name c) h n =
    rw (lookup-insert name n c v, lookup-insert name n c w, h n)
apply_event-Agrees v w (workflow_ended name) h n =
    rw (lookup-remove name n v, lookup-remove name n w, h n)

if_same {ℓ} :
    {A : Type ℓ} (b : Bool) (x y : A) → (if b then x else if b then x else y) ≡ (if b then x else y)
if_same true x y = refl
if_same false x y = refl

-- An event that is read twice in a row says nothing new.
apply_event_twice :
    (w : Map String Sender) (e : WorkflowStartedOrStoppedEvent)
    → Agrees (apply_event (apply_event w e) e) (apply_event w e)
unfolding apply_event
apply_event_twice w (workflow_started name c) n =
    rw (lookup-insert name n c (insert name c w), lookup-insert name n c w)
      (if_same (name == n) (some c) (lookup n w))
apply_event_twice w (workflow_ended name) n =
    rw (lookup-remove name n (remove name w), lookup-remove name n w)
      (if_same (name == n) none (lookup n w))

abbrev pub broadcast : WorkflowStartedOrStoppedEvent → List Sender → List Effect
broadcast e channels = map (λ channel. send_event channel e) channels

module _ (c : Sender) (e : WorkflowStartedOrStoppedEvent) (w : Map String Sender) where
  broadcast_again :
      (channels : List Sender) (v : Map String Sender)
      → Agrees v (apply_event w e)
      → Agrees (replay v (received c (broadcast e channels))) (apply_event w e)
  broadcast_again [] v h = h
  broadcast_again (d ∷ channels) v h = elim (Bool-cases (d == c)) [
    | inl q ↦ rw q (
        broadcast_again channels (apply_event v e)
          (λ n. apply_event-Agrees v (apply_event w e) e h n ∙ apply_event_twice w e n))
    | inr q ↦ rw q (broadcast_again channels v h)
  ]

  -- A channel among the subscribers follows the event, also if it is registered twice.
  broadcast-Agrees :
      (channels : List Sender) (v : Map String Sender)
      → contains channels c ≡ true
      → Agrees v w
      → Agrees (replay v (received c (broadcast e channels))) (apply_event w e)
  unfolding contains
  broadcast-Agrees [] v k h = cc
  broadcast-Agrees (d ∷ channels) v k h = elim (Bool-cases (d == c)) [
    | inl q ↦ rw q (broadcast_again channels (apply_event v e) (apply_event-Agrees v w e h))
    | inr q ↦ rw q (broadcast-Agrees channels v (rw q at k) h)
  ]

abbrev or_else : Option Sender → Option Sender → Option Sender
or_else none b = b
or_else (some a) b = some a

-- Reading one start event for each entry of a map gives the map, on top of what was known.
replay-catch_up :
    (c : Sender) (m v : Map String Sender) (n : String)
    → DistinctKeys m
    → lookup n (replay v (received c (catch_up c m))) ≡ or_else (lookup n m) (lookup n v)
unfolding lookup apply_event
replay-catch_up c [] v n d = refl
replay-catch_up c ((k, x) ∷ m) v n d = rw (==_refl c) (
    rw (replay-catch_up c m (insert k x v) n d.1) (elim (Bool-cases (k == n)) [
      | inl q ↦
          let absent : lookup n m ≡ none = subst (λ j. lookup j m ≡ none) (==_eq k n q) d.0 in
          rw (lookup-insert k n x v) (rw q (rw absent))
      | inr q ↦ rw (lookup-insert k n x v) (rw q)
    ]))

received-catch_up_other :
    (c d : Sender) (m : Map String Sender) → (d == c) ≡ false → received c (catch_up d m) ≡ []
received-catch_up_other c d [] h = refl
received-catch_up_other c d ((k, x) ∷ m) h = rw h (received-catch_up_other c d m h)

received-manager_events :
    (c : Sender) (e : WorkflowManagerEvent) (channels : List Sender)
    → received c (map (λ d. send_manager_event d e) channels) ≡ []
received-manager_events c e [] = refl
received-manager_events c e (d ∷ channels) = received-manager_events c e channels

received-catch_up_manager :
    (c d : Sender) (o : Option Sender) → received c (catch_up_manager d o) ≡ []
received-catch_up_manager c d none = refl
received-catch_up_manager c d (some m) = refl

or_else_same : (o : Option Sender) → or_else o o ≡ o
or_else_same none = refl
or_else_same (some a) = refl

or_else-none : (o : Option Sender) → or_else o none ≡ o
or_else-none none = refl
or_else-none (some a) = refl

-- What the catching up leaves of a view that agreed, for the new subscriber and for any other.
catch_up-Agrees :
    (c d : Sender) (id : ℕ) (m v : Map String Sender)
    → DistinctKeys m
    → Agrees v m
    → Agrees (replay v (received c (catch_up d m ++ (watch_start_stop d id ∷ [])))) m
catch_up-Agrees c d id m v k h n =
    rw (received-append c (catch_up d m) (watch_start_stop d id ∷ [])) (
      rw append-nil (elim (Bool-cases (d == c)) [
        | inl q ↦ rw (==_eq d c q) (rw (replay-catch_up c m v n k, h n) (or_else_same (lookup n m)))
        | inr q ↦ rw (received-catch_up_other c d m q) (h n)
      ]))

-- A new subscriber that knows nothing is sent all that there is to know.
pub joins-Agrees :
    (c : Sender) (id : ℕ) (m : Map String Sender)
    → DistinctKeys m
    → Agrees (replay [] (received c (catch_up c m ++ (watch_start_stop c id ∷ [])))) m
unfolding lookup
joins-Agrees c id m k n =
    rw (received-append c (catch_up c m) (watch_start_stop c id ∷ []))
      (rw append-nil (rw (replay-catch_up c m [] n k) (or_else-none (lookup n m))))

module _ (c : Sender) (v : Map String Sender) (s' : Actor) (effects' : List Effect) where
  -- The view after a round, where the arm of the `match` left `t` and had those effects.
  abbrev Follows : Actor → List Effect → Type 0
  Follows t effects = Agrees (replay v (received c effects)) t.active_workflows

  end_of_round :
      (t : Actor) (effects : List Effect)
      → after_match t effects ≡ goes_on s' effects'
      → Follows t effects
      → Follows s' effects'
  end_of_round t effects h f = let (p, q) = after_match_lem t s' effects effects' h in rw (p, q) f

  Follows-publish :
      (s : Actor) (request : PublishEventRequest)
      → contains (values s.workflow_start_stop_subscribers) c ≡ true
      → Agrees v s.active_workflows
      → Follows (handle_publish_request s request).0 (handle_publish_request s request).1
  unfolding handle_publish_request
  Follows-publish s (PublishEventRequest.workflow_started_or_stopped e) k h =
      broadcast-Agrees c e s.active_workflows (values s.workflow_start_stop_subscribers) v k h
  Follows-publish s (PublishEventRequest.workflow_manager_event e) k h =
      rw (received-manager_events c e (values s.workflow_manager_subscribers)) h

  Follows-added :
      (s : Actor) (id : ℕ) (request : SubscriptionRequest)
      → DistinctKeys s.active_workflows
      → Agrees v s.active_workflows
      → Follows (add_subscriber s id request).0 (add_subscriber s id request).1
  unfolding add_subscriber
  Follows-added s id (SubscriptionRequest.workflow_started_or_stopped d) k h =
      catch_up-Agrees c d id s.active_workflows v k h
  Follows-added s id (SubscriptionRequest.workflow_manager_events d) k h =
      rw
        (received-append c (catch_up_manager d s.active_workflow_manager) (watch_manager d id ∷ []))
        (rw (received-catch_up_manager c d s.active_workflow_manager) h)

  Follows-subscription :
      (s : Actor) (request : SubscriptionRequest)
      → DistinctKeys s.active_workflows
      → Agrees v s.active_workflows
      → after_subscription (handle_subscription_request s request) ≡ goes_on s' effects'
      → Follows s' effects'
  unfolding handle_subscription_request
  Follows-subscription s request k h e =
      let ids = add_to s.next_subscriber_id s.active_subscriber_ids in
      elim (Option-cases (next_free (suc (length ids)) ids s.next_subscriber_id)) [
        | inl none_free ↦
            let stops = rw (none_free, handle_subscription_request, after_subscription) at e in cc
        | inr (next, found) ↦
            let t : Actor = record s { active_subscriber_ids = ids; next_subscriber_id = next } in
            end_of_round (add_subscriber t s.next_subscriber_id request).0
              (add_subscriber t s.next_subscriber_id request).1
              (rw (found, handle_subscription_request, after_subscription) at e)
              (Follows-added t s.next_subscriber_id request k h)
      ]

  -- A round keeps the view of a subscribed channel in step with the hub.
  pub handle-Follows :
      (s : Actor) (e : FutureResult)
      → IsValid s
      → contains (values s.workflow_start_stop_subscribers) c ≡ true
      → Agrees v s.active_workflows
      → handle s e ≡ goes_on s' effects'
      → Follows s' effects'
  unfolding handle
  handle-Follows s all_publish_consumers_gone i k h g = cc
  handle-Follows s all_subscription_request_consumers_gone i k h g = end_of_round _ [] g h
  handle-Follows s (new_publish_request request) i k h g =
      end_of_round (handle_publish_request s request).0 (handle_publish_request s request).1 g
        (Follows-publish s request k h)
  handle-Follows s (new_subscription_request request) i k h g =
      Follows-subscription s request i.workflows_distinct h g
  handle-Follows s (workflow_start_stop_subscriber_gone id) i k h g = end_of_round _ [] g h
  handle-Follows s (workflow_manager_subscriber_gone id) i k h g = end_of_round _ [] g h
