-- ===== src/Reactors/Reactor.antt =====
-- The actor of one reactor: mmids-core/src/reactors/reactor.rs. The executor is outside the model: a
-- call of it is an effect, and its answer an event. The text of a request's id is left out.
pub mod Reconcile
pub mod Orphans
use mmids_core.Common.{
  ℕ, String, Bool, true, not, Option, none, some, List, [], ◌∷◌, ◌++◌, map, nat_beq, if◌then◌else◌,
  Eq, nat_eq, string_eq, is_empty, keep_if, Map, or_default, lookup, insert, remove, contains_key,
  contains, to_set,
}
use mmids_core.Workflows.Definitions.{WorkflowDefinition}
use mmids_core.Workflows.Requests.{
  Sender, WorkflowManagerRequestOperation, upsert_workflow, WorkflowManagerEvent,
  workflow_manager_registered,
}
use mmids_core.Reactors.Executors.{ReactorExecutionResult}

pub data ReactorRequest : Type 0 where
  create_workflow_name_for_stream : String → Sender → ReactorRequest

pub record ReactorWorkflowUpdate : Type 0 where
  pub is_valid : Bool
  pub routable_workflow_names : List String

pub record CachedWorkflows : Type 0 where
  pub definitions : List WorkflowDefinition

-- `Actor`; its name, its executor and its own sender are left out.
pub record Actor : Type 0 where
  pub workflow_manager : Option Sender
  pub cached_workflows_for_stream_name : Map String CachedWorkflows
  pub update_interval : ℕ
  pub stream_response_channels : Map String (List Sender)

-- A closed channel comes with what `is_closed` says of each channel at that time.
pub data FutureResult : Type 0 where
  all_request_consumers_gone event_hub_gone workflow_manager_gone : FutureResult
  request_received : ReactorRequest → FutureResult
  executor_response_received : String → ReactorExecutionResult → FutureResult
  workflow_manager_event_received : WorkflowManagerEvent → FutureResult
  client_response_channel_closed : (Sender → Bool) → String → FutureResult
  update_stream_name_requested : String → FutureResult

-- What a handler does outside the actor: it asks the executor for the workflows of a stream, answers
-- a client, sends a request to the workflow manager, has itself told when a channel closes, or asks to
-- be reminded of a stream after the update interval.
pub data Effect : Type 0 where
  get_workflow : String → Effect
  respond : Sender → ReactorWorkflowUpdate → Effect
  manage : Sender → WorkflowManagerRequestOperation → Effect
  watch_client : Sender → String → Effect
  watch_manager : Sender → Effect
  remind : String → Effect

-- `Actor::new`.
unfoldable pub new : ℕ → Actor
new update_interval = record {
  workflow_manager = none;
  cached_workflows_for_stream_name = [];
  update_interval = update_interval;
  stream_response_channels = [];
}

abbrev pub names_of : List WorkflowDefinition → List String
names_of = map (λ w. w.name)

-- The names of the workflows that are routed by the reactor.
unfoldable pub routed_workflow_names : List WorkflowDefinition → List String
routed_workflow_names workflows = to_set (names_of (keep_if (λ w. w.routed_by_reactor) workflows))

-- One request to the manager for each workflow, if a manager is known.
abbrev pub stop_each : Option Sender → List WorkflowDefinition → List Effect
stop_each none workflows = []
stop_each (some manager) workflows =
    map (λ w. manage manager (WorkflowManagerRequestOperation.stop_workflow w.name)) workflows

abbrev pub upsert_each : Option Sender → List WorkflowDefinition → List Effect
upsert_each none workflows = []
upsert_each (some manager) workflows = map (λ w. manage manager (upsert_workflow w)) workflows

abbrev pub definitions_of : Option CachedWorkflows → List WorkflowDefinition
definitions_of none = []
definitions_of (some cache) = cache.definitions

unfoldable pub handle_request : Actor → ReactorRequest → Actor × List Effect
handle_request s (create_workflow_name_for_stream stream channel) = (
  record s {
    stream_response_channels =
        insert stream (or_default (lookup stream s.stream_response_channels) [] ++ channel ∷ [])
          s.stream_response_channels;
  },
  elim (lookup stream s.cached_workflows_for_stream_name) [
    | some cache ↦ respond channel (record {
      is_valid = true;
      routable_workflow_names = routed_workflow_names cache.definitions;
    })
    | none ↦ get_workflow stream
  ]
      ∷ watch_client channel stream
      ∷ [],
)

-- What the executor's answer does to the cache, and what the manager is asked for.
unfoldable pub apply_response : Actor → String → ReactorExecutionResult → Actor × List Effect
apply_response s stream result =
    let old = definitions_of (lookup stream s.cached_workflows_for_stream_name) in
    let current = to_set (names_of result.workflows_returned) in
    if not result.stream_is_valid
    then (
      record s {
        cached_workflows_for_stream_name = remove stream s.cached_workflows_for_stream_name;
      },
      stop_each s.workflow_manager old,
    )
    else (
      record s {
        cached_workflows_for_stream_name =
            insert stream (record { definitions = result.workflows_returned })
              s.cached_workflows_for_stream_name;
      },
      upsert_each s.workflow_manager result.workflows_returned
          ++ stop_each s.workflow_manager (keep_if (λ w. not (contains current w.name)) old),
    )

-- What the clients of a stream are told of an answer.
abbrev pub update_of : ReactorExecutionResult → ReactorWorkflowUpdate
update_of result = record {
  is_valid = result.stream_is_valid;
  routable_workflow_names = routed_workflow_names result.workflows_returned;
}

unfoldable pub handle_executor_response :
    Actor → String → ReactorExecutionResult → Actor × List Effect
handle_executor_response s stream result = elim (lookup stream s.stream_response_channels) [
  | none ↦ (s, [])
  | some channels ↦
      let (t, effects) = apply_response s stream result in
      (
        t,
        effects
            ++ (map (λ channel. respond channel (update_of result)) channels
                ++ (if nat_beq s.update_interval 0 then [] else remind stream ∷ [])),
      )
]

abbrev pub all_cached : Map String CachedWorkflows → List WorkflowDefinition
all_cached [] = []
all_cached ((stream, cache) ∷ rest) = cache.definitions ++ all_cached rest

unfoldable pub handle_workflow_manager_event : Actor → WorkflowManagerEvent → Actor × List Effect
handle_workflow_manager_event s (workflow_manager_registered channel) = (
  record s { workflow_manager = some channel },
  watch_manager channel
      ∷ upsert_each (some channel) (all_cached s.cached_workflows_for_stream_name),
)

-- The last client of a stream has gone.
unfoldable pub forget_stream : Actor → String → Actor × List Effect
forget_stream s stream =
    let t : Actor = record s {
      stream_response_channels = remove stream s.stream_response_channels;
    } in
    elim s.workflow_manager [
      | none ↦ (t, [])
      | some channel ↦ (
        record t {
          cached_workflows_for_stream_name = remove stream s.cached_workflows_for_stream_name;
        },
        stop_each (some channel)
            (definitions_of (lookup stream s.cached_workflows_for_stream_name)),
      )
    ]

unfoldable pub handle_response_channel_closed :
    Actor → (Sender → Bool) → String → Actor × List Effect
handle_response_channel_closed s is_closed stream =
    elim (lookup stream s.stream_response_channels) [
      | none ↦ (s, [])
      | some channels ↦
          let open_channels = keep_if (λ c. not (is_closed c)) channels in
          if is_empty open_channels then forget_stream s stream else (
            record s {
              stream_response_channels = insert stream open_channels s.stream_response_channels;
            },
            [],
          )
    ]

pub data Round : Type 0 where
  goes_on : Actor → List Effect → Round
  closes : Round

abbrev pub continue : Actor × List Effect → Round
continue (s, effects) = goes_on s effects

-- One round of the loop of `run`.
unfoldable pub handle : Actor → FutureResult → Round
handle s all_request_consumers_gone = closes
handle s event_hub_gone = closes
handle s workflow_manager_gone = closes
handle s (client_response_channel_closed is_closed stream) =
    continue (handle_response_channel_closed s is_closed stream)
handle s (request_received request) = continue (handle_request s request)
handle s (executor_response_received stream result) =
    continue (handle_executor_response s stream result)
handle s (update_stream_name_requested stream) = goes_on s (
    if contains_key stream s.cached_workflows_for_stream_name then get_workflow stream ∷ [] else [])
handle s (workflow_manager_event_received event) = continue (handle_workflow_manager_event s event)
