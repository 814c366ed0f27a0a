-- ===== src/Workflows/Forwarder/Execute.antt =====
-- The forwarder's answers to a reactor, and `execute`.
use mmids_core.Common.{
  String, Bool, true, false, not, Option, none, some, List, [], ◌∷◌, ◌++◌, if◌then◌else◌, nat_eq,
  string_eq, keep_if, fold_left, Map, lookup, insert, remove, contains, add_to, remove_from, Result,
  ok, err,
}
use mmids_core.Workflows.Media.{StreamId, MediaNotification}
use mmids_core.Workflows.Requests.{Sender}
use mmids_core.Workflows.Steps.{StepStatus}
use mmids_core.Reactors.Reactor.{ReactorWorkflowUpdate}
use mmids_core.Workflows.Forwarder.{
  WorkflowForwarderStep, StreamDetails, FutureResult, event_hub_gone, reactor_manager_gone,
  reactor_gone, workflow_gone, workflow_started_or_stopped, reactor_response_received,
  reactor_update_received, reactor_cancellation_received, unknown_type, Effect, watch_reactor,
  cancel, unlink, link, send_to_all, disconnection, handle_workflow_event, handle_media,
}

-- Every target of a stream is told that the stream has ended, and none is left.
unfoldable pub drain_targets :
    WorkflowForwarderStep → StreamId → StreamDetails → Bool → WorkflowForwarderStep × List Effect
drain_targets s id stream token = (
  record s {
    active_streams =
        insert id (record stream { target_workflow_names = []; cancellation_token = token })
          s.active_streams;
    stream_for_workflow_name =
        fold_left (unlink id) s.stream_for_workflow_name stream.target_workflow_names;
  },
  send_to_all s.known_workflows (disconnection id ∷ []) stream.target_workflow_names,
)

-- A valid update of the targets of a stream.
unfoldable pub retarget :
    WorkflowForwarderStep
    → StreamId
    → StreamDetails
    → List String
    → WorkflowForwarderStep × List Effect
retarget s id stream routable =
    let added = keep_if (λ w. not (contains stream.target_workflow_names w)) routable in
    let removed = keep_if (λ w. not (contains routable w)) stream.target_workflow_names in
    (
      record s {
        active_streams =
            insert id
              (record stream {
                target_workflow_names =
                    fold_left (λ ws w. add_to w ws)
                      (fold_left (λ ws w. remove_from w ws) stream.target_workflow_names removed)
                      added;
              })
              s.active_streams;
        stream_for_workflow_name =
            fold_left (link id) (fold_left (unlink id) s.stream_for_workflow_name removed) routable;
      },
      send_to_all s.known_workflows (disconnection id ∷ []) removed
          ++ send_to_all s.known_workflows stream.required_media added,
    )

unfoldable pub handle_reactor_update :
    WorkflowForwarderStep → StreamId → ReactorWorkflowUpdate → WorkflowForwarderStep × List Effect
handle_reactor_update s id update = elim (lookup id s.active_streams) [
  | none ↦ (s, [])
  | some stream ↦
      if update.is_valid
      then retarget s id stream update.routable_workflow_names
      else drain_targets s id stream stream.cancellation_token
]

-- The first answer of a reactor: from now on its updates are waited for.
unfoldable pub handle_reactor_response :
    WorkflowForwarderStep → StreamId → ReactorWorkflowUpdate → WorkflowForwarderStep × List Effect
handle_reactor_response s id update = elim (lookup id s.active_streams) [
  | none ↦ (s, [])
  | some stream ↦
      let (t, effects) =
        handle_reactor_update
          (record s {
            active_streams =
                insert id (record stream { cancellation_token = true }) s.active_streams;
          })
          id update in
      (t, watch_reactor id ∷ effects)
]

unfoldable pub handle_cancellation :
    WorkflowForwarderStep → StreamId → WorkflowForwarderStep × List Effect
handle_cancellation s id = elim (lookup id s.active_streams) [
  | none ↦ (s, [])
  | some stream ↦ drain_targets s id stream false
]

-- One notification: the step goes on, or `execute` returns an error with its message.
unfoldable pub handle_notification :
    WorkflowForwarderStep → FutureResult → Result (WorkflowForwarderStep × List Effect) String
handle_notification s unknown_type = err "Received future result of unknown type"
handle_notification s event_hub_gone = err "Event hub gone"
handle_notification s reactor_manager_gone = err "Reactor manager gone"
handle_notification s reactor_gone = err "Reactor gone"
handle_notification s (reactor_response_received id update) =
    ok (handle_reactor_response s id update)
handle_notification s (reactor_update_received id update) = ok (handle_reactor_update s id update)
handle_notification s (workflow_gone name) =
    ok (record s { known_workflows = remove name s.known_workflows }, [])
handle_notification s (reactor_cancellation_received id) = ok (handle_cancellation s id)
handle_notification s (workflow_started_or_stopped event) = ok (handle_workflow_event s event)

-- The loop over the notifications; an error ends it.
unfoldable pub handle_notifications :
    WorkflowForwarderStep → List FutureResult → WorkflowForwarderStep × List Effect × Option String
handle_notifications s [] = (s, [], none)
handle_notifications s (n ∷ ns) = elim (handle_notification s n) [
  | err message ↦ (s, [], some message)
  | ok (t, effects) ↦
      let (u, later, message) = handle_notifications t ns in (u, effects ++ later, message)
]

unfoldable pub handle_all_media :
    WorkflowForwarderStep → List MediaNotification → WorkflowForwarderStep × List Effect
handle_all_media s [] = (s, [])
handle_all_media s (m ∷ ms) =
    let (t, effects) = handle_media s m in
    let (u, later) = handle_all_media t ms in (u, effects ++ later)

-- `execute`, with the notifications and the media of its inputs.
unfoldable pub execute :
    WorkflowForwarderStep
    → List FutureResult
    → List MediaNotification
    → WorkflowForwarderStep × List Effect × StepStatus
execute s notifications media =
    let (t, effects, message) = handle_notifications s notifications in
    let (u, later) = handle_all_media t media in
    elim message [
      | some text ↦ (t, effects, StepStatus.error text)
      | none ↦ (u, effects ++ later, StepStatus.active)
    ]

-- `drop`: every target of every stream is told that the stream has ended.
unfoldable pub drop_step : Map String Sender → Map StreamId StreamDetails → List Effect
drop_step known [] = []
drop_step known ((id, stream) ∷ streams) =
    send_to_all known (disconnection id ∷ []) stream.target_workflow_names
    ++ ((if stream.cancellation_token then cancel id ∷ [] else []) ++ drop_step known streams)
