-- ===== src/Workflows/Manager.antt =====
-- The workflow manager: mmids-core/src/workflows/manager.rs. A handler returns the actor and what it
-- did to the outside, in order. The sending end that `start_workflow` makes is an argument.
pub mod Events
pub mod Lifecycle
use Prim.Native.Nat.{Ordering}
use Prim.Native.String.{compare}
use mmids_core.Common.{
  String, Bool, true, false, none, some, List, [], ◌∷◌, if◌then◌else◌, Eq, nat_eq, string_eq, Map,
  keys, lookup, insert, remove,
}
use mmids_core.Workflows.Definitions.{WorkflowDefinition}
use mmids_core.Workflows.Requests.{
  Sender, WorkflowRequestOperation, WorkflowRequest, WorkflowManagerRequestOperation,
  WorkflowManagerRequest, WorkflowStartedOrStoppedEvent, workflow_started, workflow_ended,
  workflow_manager_registered, PublishEventRequest, update_definition, get_state, upsert_workflow,
  get_running_workflows, get_workflow_details,
}

-- `Actor`; what it only passes on is left out.
pub record Actor : Type 0 where
  pub workflows : Map String Sender

pub data FutureResult : Type 0 where
  all_consumers_gone event_hub_gone : FutureResult
  workflow_manager_request_received : WorkflowManagerRequest → FutureResult
  workflow_gone : String → FutureResult

-- What a handler does outside the actor.
pub data Effect : Type 0 where
  start_workflow : WorkflowDefinition → Sender → Effect
  watch_workflow : Sender → String → Effect
  send_request : Sender → WorkflowRequest → Effect
  publish : PublishEventRequest → Effect
  respond_workflows : Sender → List String → Effect
  respond_no_details : Sender → Effect

unfoldable pub new : Actor
new = record { workflows = [] }

-- What `run` publishes before its loop.
unfoldable pub registered : Sender → List Effect
registered request_sender =
    publish
      (PublishEventRequest.workflow_manager_event (workflow_manager_registered request_sender))
    ∷ []

abbrev pub publish_event : WorkflowStartedOrStoppedEvent → Effect
publish_event e = publish (PublishEventRequest.workflow_started_or_stopped e)

-- `response.sort_by(|a, b| b.name.cmp(&a.name))`: from the last name to the first.
abbrev pub comes_before : String → String → Bool
comes_before a b = elim (compare b a) [ Ordering.gt ↦ false | _ ↦ true ]

unfoldable pub insert_sorted : String → List String → List String
insert_sorted a [] = a ∷ []
insert_sorted a (b ∷ bs) = if comes_before a b then a ∷ b ∷ bs else b ∷ insert_sorted a bs

unfoldable pub sort_names : List String → List String
sort_names [] = []
sort_names (a ∷ rest) = insert_sorted a (sort_names rest)

unfoldable pub upsert : Actor → Sender → String → WorkflowDefinition → Actor × List Effect
upsert s channel request_id definition = elim (lookup definition.name s.workflows) [
  | some sender ↦ (
    s,
    send_request sender
          (record { request_id = request_id; operation = update_definition definition })
        ∷ [],
  )
  | none ↦ (
    record s { workflows = insert definition.name channel s.workflows },
    start_workflow definition channel
        ∷ watch_workflow channel definition.name
        ∷ publish_event (workflow_started definition.name channel)
        ∷ [],
  )
]

unfoldable pub stop : Actor → String → String → Actor × List Effect
stop s request_id name = elim (lookup name s.workflows) [
  | some sender ↦ (
    record s { workflows = remove name s.workflows },
    send_request sender
          (record { request_id = request_id; operation = WorkflowRequestOperation.stop_workflow })
        ∷ publish_event (workflow_ended name)
        ∷ [],
  )
  | none ↦ (s, [])
]

unfoldable pub details : Actor → String → String → Sender → List Effect
details s request_id name response_channel = elim (lookup name s.workflows) [
  | none ↦ respond_no_details response_channel ∷ []
  | some sender ↦
      send_request sender
        (record { request_id = request_id; operation = get_state response_channel })
      ∷ []
]

unfoldable pub handle_operation :
    Actor → Sender → String → WorkflowManagerRequestOperation → Actor × List Effect
unfolding upsert stop details
handle_operation s channel id (upsert_workflow definition) = upsert s channel id definition
handle_operation s channel id (WorkflowManagerRequestOperation.stop_workflow name) = stop s id name
handle_operation s channel id (get_running_workflows response_channel) =
    (s, respond_workflows response_channel (sort_names (keys s.workflows)) ∷ [])
handle_operation s channel id (get_workflow_details name response_channel) =
    (s, details s id name response_channel)

unfoldable pub handle_request : Actor → Sender → WorkflowManagerRequest → Actor × List Effect
unfolding handle_operation
handle_request s channel request = handle_operation s channel request.request_id request.operation

unfoldable pub handle_workflow_gone : Actor → String → Actor × List Effect
handle_workflow_gone s name = elim (lookup name s.workflows) [
  | some sender ↦
      (record s { workflows = remove name s.workflows }, publish_event (workflow_ended name) ∷ [])
  | none ↦ (s, [])
]

pub data Round : Type 0 where
  goes_on : Actor → List Effect → Round
  closes : Round

-- One round of the loop of `run`.
unfoldable pub handle : Actor → Sender → FutureResult → Round
unfolding handle_request handle_workflow_gone
handle s channel all_consumers_gone = closes
handle s channel event_hub_gone = closes
handle s channel (workflow_manager_request_received request) =
    let (s', effects) = handle_request s channel request in goes_on s' effects
handle s channel (workflow_gone name) =
    let (s', effects) = handle_workflow_gone s name in goes_on s' effects
