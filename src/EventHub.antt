-- ===== src/EventHub.antt =====
-- The event hub: mmids-core/src/event_hub.rs. A handler returns the actor and what it did to the
-- outside, in order. A `usize` is a number below 2 ^ 64.
pub mod Search
pub mod Subscribers
pub mod Views
pub mod History
use mmids_core.Common.{
  ℕ, zero, suc, ◌+◌, ◌%◌, ◌^◌, Bool, true, false, not, ◌&&◌, Option, none, some, String, List, [],
  ◌∷◌, ◌++◌, map, Map, insert, remove, values, contains, add_to, remove_from, length, nat_beq,
  if◌then◌else◌, nat_eq, string_eq,
}
use mmids_core.Workflows.Requests.{
  Sender, WorkflowStartedOrStoppedEvent, workflow_started, workflow_ended, WorkflowManagerEvent,
  workflow_manager_registered, PublishEventRequest, SubscriptionRequest,
}

pub record Actor : Type 0 where
  pub next_subscriber_id : ℕ
  pub active_subscriber_ids : List ℕ
  pub workflow_start_stop_subscribers : Map ℕ Sender
  pub workflow_manager_subscribers : Map ℕ Sender
  pub new_subscribers_can_join : Bool
  pub active_workflows : Map String Sender
  pub active_workflow_manager : Option Sender

pub data FutureResult : Type 0 where
  all_publish_consumers_gone : FutureResult
  all_subscription_request_consumers_gone : FutureResult
  new_publish_request : PublishEventRequest → FutureResult
  new_subscription_request : SubscriptionRequest → FutureResult
  workflow_start_stop_subscriber_gone : ℕ → FutureResult
  workflow_manager_subscriber_gone : ℕ → FutureResult

-- What a handler does outside the actor: it sends an event to a channel, or has itself told when a
-- subscriber's channel closes.
pub data Effect : Type 0 where
  send_event : Sender → WorkflowStartedOrStoppedEvent → Effect
  send_manager_event : Sender → WorkflowManagerEvent → Effect
  watch_start_stop watch_manager : Sender → ℕ → Effect

unfoldable pub new : Actor
new = record {
  next_subscriber_id = 0;
  active_subscriber_ids = [];
  workflow_start_stop_subscribers = [];
  workflow_manager_subscribers = [];
  new_subscribers_can_join = true;
  active_workflows = [];
  active_workflow_manager = none;
}

-- What an event does to the map of active workflows.
unfoldable pub apply_event : Map String Sender → WorkflowStartedOrStoppedEvent → Map String Sender
apply_event m (workflow_started name channel) = insert name channel m
apply_event m (workflow_ended name) = remove name m

abbrev pub manager_of : WorkflowManagerEvent → Sender
manager_of (workflow_manager_registered channel) = channel

unfoldable pub handle_publish_request : Actor → PublishEventRequest → Actor × List Effect
handle_publish_request s (PublishEventRequest.workflow_started_or_stopped event) = (
  record s { active_workflows = apply_event s.active_workflows event },
  map (λ channel. send_event channel event) (values s.workflow_start_stop_subscribers),
)
handle_publish_request s (PublishEventRequest.workflow_manager_event event) = (
  record s { active_workflow_manager = some (manager_of event) },
  map (λ channel. send_manager_event channel event) (values s.workflow_manager_subscribers),
)

-- The loop that looks for an id that no subscriber has, on a wrapping counter; `none` is fuel run out.
unfoldable pub next_free : ℕ → List ℕ → ℕ → Option ℕ
next_free zero ids id = none
next_free (suc fuel) ids id =
    let next = (id + 1) % 2 ^ 64 in
    let later = next_free fuel ids next in if contains ids next then later else some next

-- The events for a new subscriber of workflow events: one for each active workflow.
abbrev pub catch_up : Sender → Map String Sender → List Effect
catch_up channel workflows = map (λ e. send_event channel (workflow_started e.0 e.1)) workflows

abbrev pub catch_up_manager : Sender → Option Sender → List Effect
catch_up_manager channel none = []
catch_up_manager channel (some manager) =
    send_manager_event channel (workflow_manager_registered manager) ∷ []

unfoldable pub add_subscriber : Actor → ℕ → SubscriptionRequest → Actor × List Effect
add_subscriber s id (SubscriptionRequest.workflow_started_or_stopped channel) = (
  record s {
    workflow_start_stop_subscribers = insert id channel s.workflow_start_stop_subscribers;
  },
  catch_up channel s.active_workflows ++ (watch_start_stop channel id ∷ []),
)
add_subscriber s id (SubscriptionRequest.workflow_manager_events channel) = (
  record s { workflow_manager_subscribers = insert id channel s.workflow_manager_subscribers },
  catch_up_manager channel s.active_workflow_manager ++ (watch_manager channel id ∷ []),
)

-- `none` when the loop finds no free id; the fuel is one more than the ids in use.
unfoldable pub handle_subscription_request :
    Actor → SubscriptionRequest → Option (Actor × List Effect)
handle_subscription_request s request =
    let ids = add_to s.next_subscriber_id s.active_subscriber_ids in
    elim (next_free (suc (length ids)) ids s.next_subscriber_id) [
      | none ↦ none
      | some next ↦ some (
          add_subscriber (record s { active_subscriber_ids = ids; next_subscriber_id = next })
            s.next_subscriber_id request)
    ]

unfoldable pub total_subscriber_count : Actor → ℕ
total_subscriber_count s = length s.workflow_start_stop_subscribers

-- The end of a round of the loop of `run`: the actor goes on, or stops.
pub data Round : Type 0 where
  goes_on : Actor → List Effect → Round
  closes : Round
  stuck : Round

-- The test behind the `match`.
unfoldable pub after_match : Actor → List Effect → Round
unfolding total_subscriber_count
after_match s effects =
    if not s.new_subscribers_can_join && nat_beq (total_subscriber_count s) 0
    then closes
    else goes_on s effects

abbrev pub after_subscription : Option (Actor × List Effect) → Round
after_subscription none = stuck
after_subscription (some (s, effects)) = after_match s effects

-- One round of the loop of `run`.
unfoldable pub handle : Actor → FutureResult → Round
handle s all_publish_consumers_gone = closes
handle s all_subscription_request_consumers_gone =
    after_match (record s { new_subscribers_can_join = false }) []
handle s (workflow_start_stop_subscriber_gone id) =
    after_match
      (record s {
        active_subscriber_ids = remove_from id s.active_subscriber_ids;
        workflow_start_stop_subscribers = remove id s.workflow_start_stop_subscribers;
      })
      []
handle s (workflow_manager_subscriber_gone id) =
    after_match
      (record s {
        active_subscriber_ids = remove_from id s.active_subscriber_ids;
        workflow_manager_subscribers = remove id s.workflow_manager_subscribers;
      })
      []
handle s (new_publish_request request) =
    let (s', effects) = handle_publish_request s request in after_match s' effects
handle s (new_subscription_request request) =
    after_subscription (handle_subscription_request s request)
