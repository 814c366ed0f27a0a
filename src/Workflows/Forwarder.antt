-- ===== src/Workflows/Forwarder.antt =====
-- The step that forwards media to other workflows: `WorkflowForwarderStep` of
-- mmids-core/src/workflows/steps/workflow_forwarder/mod.rs. A handler returns the step and what it did
-- to the outside, in order. The constant texts of request ids are left out.
pub mod Execute
pub mod Index
pub mod Linked
pub mod Runs
pub mod Shutdown
use mmids_core.Common.{
  String, Bool, false, Option, none, some, List, [], ◌∷◌, ◌++◌, map, if◌then◌else◌, Eq, nat_eq,
  string_eq, is_empty, fold_left, Map, or_default, lookup, insert, remove, contains_key, add_to,
  remove_from, Result, ok, err,
}
use mmids_core.Workflows.Media.{
  StreamId, MediaNotification, MediaNotificationContent, new_incoming_stream, stream_disconnected,
  metadata, media_payload,
}
use mmids_core.Workflows.Requests.{
  Sender, WorkflowStartedOrStoppedEvent, workflow_started, workflow_ended,
}
use mmids_core.Workflows.Definitions.{WorkflowStepDefinition}
use mmids_core.Reactors.Reactor.{ReactorWorkflowUpdate}

-- `StreamDetails`; of the token is kept whether there is one.
pub record StreamDetails : Type 0 where
  pub target_workflow_names : List String
  pub required_media : List MediaNotification
  pub cancellation_token : Bool

pub record WorkflowForwarderStep : Type 0 where
  pub global_workflow_name : Option String
  pub reactor_name : Option String
  pub active_streams : Map StreamId StreamDetails
  pub stream_for_workflow_name : Map String (List StreamId)
  pub known_workflows : Map String Sender

-- `FutureResult`; the last one stands for a notification that is of another type.
pub data FutureResult : Type 0 where
  event_hub_gone reactor_manager_gone reactor_gone : FutureResult
  workflow_gone : String → FutureResult
  workflow_started_or_stopped : WorkflowStartedOrStoppedEvent → FutureResult
  reactor_response_received : StreamId → ReactorWorkflowUpdate → FutureResult
  reactor_update_received : StreamId → ReactorWorkflowUpdate → FutureResult
  reactor_cancellation_received : StreamId → FutureResult
  unknown_type : FutureResult

-- What a handler does outside the step: it sends media to a workflow or to the step's outputs, asks
-- the reactor manager for the workflows of a stream and waits for the answer, has itself told when a
-- workflow's channel closes or a reactor sends an update, or drops the interest in a stream.
pub data Effect : Type 0 where
  send_media : Sender → MediaNotification → Effect
  output : MediaNotification → Effect
  ask_reactor : String → String → StreamId → Effect
  watch_workflow : String → Sender → Effect
  watch_reactor : StreamId → Effect
  cancel : StreamId → Effect

pub data StepStartupError : Type 0 where
  no_target_workflow_specified reactor_and_target_workflow_both_specified : StepStartupError

abbrev pub parameter : WorkflowStepDefinition → String → Option String
parameter definition name = or_default (lookup name definition.parameters) none

abbrev pub startup : Option String → Option String → Result WorkflowForwarderStep StepStartupError
startup none none = err no_target_workflow_specified
startup (some target) (some reactor) = err reactor_and_target_workflow_both_specified
startup target reactor = ok (record {
  global_workflow_name = target;
  reactor_name = reactor;
  active_streams = [];
  stream_for_workflow_name = [];
  known_workflows = [];
})

-- `generate`; that it subscribes to the event hub is left out.
unfoldable pub generate : WorkflowStepDefinition → Result WorkflowForwarderStep StepStartupError
generate definition =
    startup (parameter definition "target_workflow") (parameter definition "reactor")

-- A stream is struck off from a workflow's, and a workflow without any is forgotten.
unfoldable pub unlink : StreamId → Map String (List StreamId) → String → Map String (List StreamId)
unlink id index workflow = elim (lookup workflow index) [
  | none ↦ index
  | some ids ↦
      if is_empty (remove_from id ids)
      then remove workflow index
      else insert workflow (remove_from id ids) index
]

unfoldable pub link : StreamId → Map String (List StreamId) → String → Map String (List StreamId)
link id index workflow = insert workflow (add_to id (or_default (lookup workflow index) [])) index

-- Media for a workflow, if its channel is known.
unfoldable pub send_to : Map String Sender → List MediaNotification → String → List Effect
send_to known media workflow = elim (lookup workflow known) [
  | none ↦ []
  | some channel ↦ map (λ m. send_media channel m) media
]

abbrev pub send_to_all : Map String Sender → List MediaNotification → List String → List Effect
send_to_all known media [] = []
send_to_all known media (workflow ∷ workflows) =
    send_to known media workflow ++ send_to_all known media workflows

abbrev pub disconnection : StreamId → MediaNotification
disconnection id = record { stream_id = id; content = stream_disconnected }

-- The required media of those of the streams that are active.
abbrev pub required_of_streams : Map StreamId StreamDetails → List StreamId → List MediaNotification
required_of_streams streams [] = []
required_of_streams streams (id ∷ ids) = elim (lookup id streams) [
  | none ↦ required_of_streams streams ids
  | some stream ↦ stream.required_media ++ required_of_streams streams ids
]

unfoldable pub handle_workflow_event :
    WorkflowForwarderStep → WorkflowStartedOrStoppedEvent → WorkflowForwarderStep × List Effect
handle_workflow_event s (workflow_started name channel) = (
  record s { known_workflows = insert name channel s.known_workflows },
  watch_workflow name channel
      ∷ map (λ m. send_media channel m)
          (required_of_streams s.active_streams
            (or_default (lookup name s.stream_for_workflow_name) [])),
)
handle_workflow_event s (workflow_ended name) =
    (record s { known_workflows = remove name s.known_workflows }, [])

abbrev pub targets_for : Option String → List String
targets_for none = []
targets_for (some workflow) = workflow ∷ []

abbrev pub asks_for : Option String → String → StreamId → List Effect
asks_for none stream_name id = []
asks_for (some reactor) stream_name id = ask_reactor reactor stream_name id ∷ []

-- A stream that is new to the step.
unfoldable pub add_stream :
    WorkflowForwarderStep → MediaNotification → String → WorkflowForwarderStep × List Effect
add_stream s m stream_name = (
  record s {
    active_streams =
        insert m.stream_id
          (record {
            target_workflow_names = targets_for s.global_workflow_name;
            required_media = m ∷ [];
            cancellation_token = false;
          })
          s.active_streams;
    stream_for_workflow_name =
        fold_left (link m.stream_id) s.stream_for_workflow_name
          (targets_for s.global_workflow_name);
  },
  asks_for s.reactor_name stream_name m.stream_id,
)

unfoldable pub end_stream :
    WorkflowForwarderStep → MediaNotification → StreamDetails → WorkflowForwarderStep × List Effect
end_stream s m stream = (
  record s {
    active_streams = remove m.stream_id s.active_streams;
    stream_for_workflow_name =
        fold_left (unlink m.stream_id) s.stream_for_workflow_name stream.target_workflow_names;
  },
  send_to_all s.known_workflows (m ∷ []) stream.target_workflow_names
      ++ (if stream.cancellation_token then cancel m.stream_id ∷ [] else []),
)

-- The `match` on the content of the media.
unfoldable pub note_media :
    WorkflowForwarderStep
    → MediaNotificationContent
    → MediaNotification
    → WorkflowForwarderStep × List Effect
note_media s (new_incoming_stream stream_name) m =
    if contains_key m.stream_id s.active_streams then (s, []) else add_stream s m stream_name
note_media s stream_disconnected m = elim (lookup m.stream_id s.active_streams) [
  | none ↦ (s, [])
  | some stream ↦ end_stream s m stream
]
note_media s (metadata x) m = (s, [])
note_media s (media_payload p) m =
    if p.is_required_for_decoding
    then elim (lookup m.stream_id s.active_streams) [
      | none ↦ (s, [])
      | some stream ↦ (
        record s {
          active_streams =
              insert m.stream_id
                (record stream { required_media = stream.required_media ++ m ∷ [] })
                s.active_streams;
        },
        [],
      )
    ]
    else (s, [])

-- The media goes on to the targets of its stream, if the stream is active.
abbrev pub pass_on : WorkflowForwarderStep → MediaNotification → List Effect
pass_on s m = elim (lookup m.stream_id s.active_streams) [
  | none ↦ []
  | some stream ↦ send_to_all s.known_workflows (m ∷ []) stream.target_workflow_names
]

unfoldable pub handle_media :
    WorkflowForwarderStep → MediaNotification → WorkflowForwarderStep × List Effect
handle_media s m =
    let (t, effects) = note_media s m.content m in (t, effects ++ (pass_on t m ++ output m ∷ []))
