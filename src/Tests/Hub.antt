-- ===== src/Tests/Hub.antt =====
-- The theorems on the event hub and the workflow manager at concrete inputs.
use mmids_core.Common.{
  ℕ, String, ◌≡◌, refl, true, false, none, some, List, [], ◌∷◌, ◌++◌, arith, nat_eq, string_eq,
  lookup, insert, DistinctKeys, contains, add_to,
}
use mmids_core.Workflows.Definitions.{WorkflowDefinition}
use mmids_core.Workflows.Requests.{
  Sender, PublishEventRequest, SubscriptionRequest, workflow_started, upsert_workflow,
}
use mmids_core.EventHub as Hub
use mmids_core.EventHub.{new_publish_request, handle_subscription_request}
use mmids_core.EventHub.Subscribers.{handle_subscription_request_total, handle-IsValid}
use mmids_core.EventHub.Subscribers as Subscribers
use mmids_core.EventHub.Views.{received, replay, Agrees}
use mmids_core.EventHub.History.{late_subscriber-Agrees}
use mmids_core.EventHub.History as History
use mmids_core.Workflows.Manager
use mmids_core.Workflows.Manager.{
  workflow_manager_request_received, upsert, stop, handle_workflow_gone, handle_operation,
}
use mmids_core.Workflows.Manager.Events.{InStep, deliver, published, Rounds-InStep}
use mmids_core.Workflows.Manager.Lifecycle.{stale_workflow_gone, requests_to}

abbrev subscription : SubscriptionRequest
subscription = SubscriptionRequest.workflow_started_or_stopped 8

handle_subscription_request_total_example :
    (s' : Hub.Actor) × (effects : List Hub.Effect) × (handle_subscription_request Hub.new
        subscription
      ≡ some (s', effects))
    × (lookup Hub.new.next_subscriber_id Hub.new.workflow_start_stop_subscribers ≡ none)
    × (lookup Hub.new.next_subscriber_id s'.workflow_start_stop_subscribers ≡ some 8)
    × (contains s'.active_subscriber_ids s'.next_subscriber_id ≡ false)
unfolding Hub.new
handle_subscription_request_total_example =
    handle_subscription_request_total Hub.new 8 Subscribers.new-IsValid (omega arith)

-- One workflow is active, and nobody has subscribed.
abbrev one_workflow : Hub.Actor
one_workflow = record {
  next_subscriber_id = 0;
  active_subscriber_ids = [];
  workflow_start_stop_subscribers = [];
  workflow_manager_subscribers = [];
  new_subscribers_can_join = true;
  active_workflows = ("a", 3) ∷ [];
  active_workflow_manager = none;
}

abbrev started : String → Sender → Hub.FutureResult
started name channel =
    new_publish_request
      (PublishEventRequest.workflow_started_or_stopped (workflow_started name channel))

handle-IsValid_example : Subscribers.IsValid one_workflow
unfolding Hub.new Hub.handle Hub.handle_publish_request Hub.apply_event Hub.after_match
    Hub.total_subscriber_count insert
handle-IsValid_example =
    handle-IsValid Hub.new one_workflow [] Subscribers.new-IsValid (started "a" 3) tt (omega arith)
      refl

one_workflow-IsValid : Subscribers.IsValid one_workflow
unfolding contains lookup
one_workflow-IsValid = record {
  fresh = fresh_id;
  start_stop_used = λ id h. cc;
  manager_used = λ id h. cc;
  apart = λ id h. cc;
  workflows_distinct = distinct;
}
  where
    fresh_id : contains {A = ℕ} [] 0 ≡ false
    fresh_id = refl

    distinct : DistinctKeys one_workflow.active_workflows
    distinct = (refl, tt)

-- The channel 8 has joined.
abbrev joined : Hub.Actor
joined = record {
  next_subscriber_id = 1;
  active_subscriber_ids = 0 ∷ [];
  workflow_start_stop_subscribers = (0, 8) ∷ [];
  workflow_manager_subscribers = [];
  new_subscribers_can_join = true;
  active_workflows = ("a", 3) ∷ [];
  active_workflow_manager = none;
}

abbrev catching_up : List Hub.Effect
catching_up = Hub.send_event 8 (workflow_started "a" 3) ∷ Hub.watch_start_stop 8 0 ∷ []

abbrev two_workflows : Hub.Actor
two_workflows = record joined { active_workflows = insert "b" 4 (("a", 3) ∷ []) }

abbrev news : List Hub.Effect
news = Hub.send_event 8 (workflow_started "b" 4) ∷ []

late_subscriber-Agrees_example :
    Agrees (replay [] (received 8 (catching_up ++ news))) two_workflows.active_workflows
unfolding Hub.handle Hub.handle_publish_request Hub.handle_subscription_request Hub.add_subscriber
    Hub.apply_event Hub.after_match Hub.total_subscriber_count Hub.next_free insert contains add_to
late_subscriber-Agrees_example =
    late_subscriber-Agrees one_workflow joined two_workflows 8 catching_up news one_workflow-IsValid
      (omega arith) refl
      (History.round (started "b" 4) tt (omega arith) (λ e. cc e) refl History.done refl)

abbrev definition : WorkflowDefinition
definition = record { name = "a"; routed_by_reactor = false; steps = [] }

abbrev empty_manager : Manager.Actor
empty_manager = record { workflows = [] }

abbrev managing : Manager.Actor
managing = record { workflows = ("a", 3) ∷ [] }

abbrev starting : List Manager.Effect
starting =
    Manager.start_workflow definition 3
    ∷ Manager.watch_workflow 3 "a"
    ∷ Manager.publish_event (workflow_started "a" 3)
    ∷ []

Rounds-InStep_example : InStep (deliver Hub.new (published starting)) managing
unfolding Manager.handle Manager.handle_request Manager.handle_operation Manager.upsert Hub.new
    insert Hub.handle_publish_request lookup
Rounds-InStep_example =
    Rounds-InStep Hub.new
      (Manager.Events.round {s = empty_manager} 3
        (workflow_manager_request_received
          (record { request_id = "r"; operation = upsert_workflow definition }))
        refl Manager.Events.done refl)
      (λ name. refl)

stale_workflow_gone_example :
    let (s₁, e₁) = stop managing "r" "a" in
    let (s₂, e₂) = upsert s₁ 4 "q" definition in
    let (s₃, e₃) = handle_workflow_gone s₂ "a" in
    (lookup "a" s₂.workflows ≡ some 4)
    × (lookup "a" s₃.workflows ≡ none)
    × (requests_to 4 (e₁ ++ (e₂ ++ e₃)) ≡ [])
unfolding lookup
stale_workflow_gone_example = stale_workflow_gone managing 3 4 "r" "q" definition refl (λ e. cc e)
