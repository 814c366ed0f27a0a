-- ===== src/Tests/Forwarder.antt =====
-- The theorems on the forwarder at concrete inputs.
use mmids_core.Common.{
  Map, String, ◌≡◌, refl, true, false, none, some, List, [], ◌∷◌, nat_eq, string_eq, lookup, insert,
  contains,
}
use mmids_core.Workflows.Media.{StreamId, MediaNotification, new_incoming_stream}
use mmids_core.Workflows.Requests.{workflow_started}
use mmids_core.Reactors.Reactor.{ReactorWorkflowUpdate}
use mmids_core.Workflows.Forwarder.Execute.{handle_reactor_update, execute}
use mmids_core.Workflows.Forwarder.{
  WorkflowForwarderStep, StreamDetails, FutureResult, workflow_started_or_stopped, add_stream,
  reactor_gone,
}
use mmids_core.Workflows.Forwarder.Index.{ids_of}
use mmids_core.Workflows.Forwarder.Linked.{targets_of, Linked, add_stream-Linked}
use mmids_core.Workflows.Requests.{Sender}
use mmids_core.Workflows.Forwarder.Runs.{execute-Linked, update_lem}

-- A step that forwards to the workflow "w", before any stream.
abbrev fresh : WorkflowForwarderStep
fresh = record {
  global_workflow_name = some "w";
  reactor_name = none;
  active_streams = [];
  stream_for_workflow_name = [];
  known_workflows = [];
}

fresh-Linked : Linked fresh
unfolding lookup contains
fresh-Linked id w = refl

abbrev starting : MediaNotification
starting = record { stream_id = "s"; content = new_incoming_stream "name" }

abbrev events : List FutureResult
events = workflow_started_or_stopped (workflow_started "w" 4) ∷ reactor_gone ∷ []

execute-Linked_example : Linked (execute fresh events (starting ∷ [])).0
execute-Linked_example = execute-Linked fresh events (starting ∷ []) fresh-Linked

-- With the stream "s".
abbrev forwarding : WorkflowForwarderStep
forwarding = (add_stream fresh starting "name").0

forwarding-Linked : Linked forwarding
unfolding lookup
forwarding-Linked = add_stream-Linked fresh fresh-Linked starting "name" refl

abbrev update : ReactorWorkflowUpdate
update = record { is_valid = true; routable_workflow_names = "v" ∷ [] }

abbrev details : StreamDetails
details = record {
  target_workflow_names = "w" ∷ [];
  required_media = starting ∷ [];
  cancellation_token = false;
}

update_lem_example :
    let t = (handle_reactor_update forwarding "s" update).0 in
    (contains (targets_of t.active_streams "s") "v" ≡ contains update.routable_workflow_names "v")
    × (contains (ids_of t.stream_for_workflow_name "v") "s"
        ≡ contains update.routable_workflow_names "v")
unfolding add_stream insert lookup
update_lem_example = update_lem forwarding "s" details update "v" forwarding-Linked refl refl

abbrev workflows : Map String Sender
workflows = ("w", 4) ∷ []

abbrev streams : Map StreamId StreamDetails
streams = ("s", details) ∷ []
