-- ===== src/Tests/Workflow.antt =====
-- The theorems on the actor of a workflow at concrete inputs.
use mmids_core.Common.{
  Map, ℕ, ◌≡◌, refl, Bool, true, false, none, some, [], ◌∷◌, arith, nat_eq, string_eq, length,
  keep_if, lookup, insert, remove, contains, add_to, to_set, ok,
}
use mmids_core.Workflows.Media.{MediaNotification, new_incoming_stream, stream_disconnected}
use mmids_core.Workflows.Definitions.{
  WorkflowStepDefinition, WorkflowDefinition, WorkflowStepId, get_id, hash, sort_keys, insert_key,
}
use mmids_core.Workflows.Requests.{WorkflowRequestOperation, media_notification}
use mmids_core.Workflows.Steps.{
  StepStatus, StepInputs, StepOutputs, Env, Executed, no_inputs, create_step,
}
use mmids_core.Workflows.Runner.State
use mmids_core.Workflows.Runner.Apply
use mmids_core.Workflows.Runner.Swap
use mmids_core.Workflows.Runner.Caches
use mmids_core.Workflows.Runner.Execute
use mmids_core.Workflows.Runner.State.{Actor, is_running, reported}
use mmids_core.Workflows.Runner.Apply.{apply_new_definition, is_unchanged, step_ids}
use mmids_core.Workflows.Runner.Loop.{
  FutureResult, workflow_request_received, handle, handle_workflow_request, handle_operation, start,
}
use mmids_core.Workflows.Runner.Invariant.{Inv}
use mmids_core.Workflows.Runner.History.{Reached, begun, later, Reached-Inv, StaysAs, failed_lem}
use mmids_core.Workflows.Runner.Updates.{Listed, apply_new_definition-Listed, reordered_ignored}
use mmids_core.Workflows.Runner.Flow.{Flows, at_end, through, receive_media_lem}
use mmids_core.Workflows.Runner.Loop.{receive_media}
use mmids_core.Workflows.Runner.Heard.{heard, running_stream_lem}
use mmids_core.Workflows.Runner.Replay.{required_of}

-- A step that passes its media on, under ids that are the lengths of what is hashed.
abbrev pass_on : Bool → WorkflowStepId → StepInputs ℕ → StepOutputs → Executed Bool ℕ
pass_on i id inputs outputs = record {
  step_instance = i;
  inputs = no_inputs;
  outputs = record { media = inputs.media };
  status = StepStatus.active;
}

abbrev env : Env Bool ℕ
env = record {
  hasher = λ tokens. length tokens;
  step_factory = record { generators = ("pass", λ d. ok (true, StepStatus.active)) ∷ [] };
  execute = pass_on;
}

abbrev plain : WorkflowStepDefinition
plain = record { step_type = "pass"; parameters = [] }

abbrev with_key : WorkflowStepDefinition
with_key = record { step_type = "pass"; parameters = ("key", none) ∷ [] }

abbrev forwards : WorkflowDefinition
forwards = record { name = "w"; routed_by_reactor = false; steps = plain ∷ with_key ∷ [] }

abbrev backwards : WorkflowDefinition
backwards = record { name = "w"; routed_by_reactor = false; steps = with_key ∷ plain ∷ [] }

abbrev stream_starts : MediaNotification
stream_starts = record { stream_id = "s"; content = new_incoming_stream "name" }

abbrev stream_ends : MediaNotification
stream_ends = record { stream_id = "s"; content = stream_disconnected }

abbrev request : WorkflowRequestOperation → FutureResult ℕ
request operation = workflow_request_received (record { request_id = "r"; operation = operation })

abbrev after : Actor Bool ℕ → MediaNotification → Actor Bool ℕ
after s m = (handle_operation env s (media_notification m)).actor

abbrev first : Actor Bool ℕ
first = after (start env forwards) stream_starts

abbrev second : Actor Bool ℕ
second = after first stream_ends

first-Reached : Reached env forwards first
unfolding handle handle_workflow_request handle_operation
first-Reached = later begun (request (media_notification stream_starts)) refl

Reached-Inv_example : Inv first
Reached-Inv_example = Reached-Inv env first first-Reached

running_stream_lem_example :
    lookup "s" first.cached_inbound_media ≡ some (stream_starts ∷ keep_if (required_of "s") [])
unfolding heard handle handle_workflow_request handle_operation
running_stream_lem_example =
    running_stream_lem env (later begun (request (media_notification stream_starts)) refl) "s"
      "name" [] [] refl tt

abbrev failed : Actor Bool ℕ
failed = record (State.new) { status = State.error 1 (reported "no such file") }

failed_lem_example :
    StaysAs env failed (handle env failed (request (media_notification stream_starts)))
failed_lem_example = failed_lem env failed (request (media_notification stream_starts)) refl refl

-- Two steps run, in the order of `forwards`.
abbrev two_steps : Actor Bool ℕ
two_steps = record (State.new) {
  active_steps = 1 ∷ 3 ∷ [];
  steps_by_definition_id =
      (1, record { step_instance = some true; status = StepStatus.active })
      ∷ (3, record { step_instance = some true; status = StepStatus.active })
      ∷ [];
}

reordered_ignored_example : apply_new_definition env two_steps backwards ≡ two_steps
unfolding get_id hash sort_keys insert_key contains State.new
reordered_ignored_example =
    reordered_ignored env two_steps backwards refl refl (refl, (refl, tt)) (refl, (refl, tt))
      (λ k. ground arith)

forwards_runs : is_running (apply_new_definition env State.new forwards).status ≡ true
unfolding get_id hash sort_keys insert_key contains State.new is_unchanged to_set add_to
    apply_new_definition Apply.after_creation Apply.add_all_pending Apply.add_pending Apply.track
    Apply.cleared lookup insert remove create_step Swap.check_pending Swap.after_scan
    Swap.scan_pending Swap.scan_step Swap.swap_pending Swap.replay_missed Swap.remove_unused
    Swap.remove_step Swap.disconnect_stream Swap.tell_disconnected Swap.missed_media Swap.all_media
    Caches.apply_operation Caches.handle_executed_step_outputs Caches.operation_for
    Caches.stream_details_step Caches.update_media_cache_from_outputs Caches.update_stream_details
    Execute.after_execute Execute.execute_instance Execute.execute_step Execute.execute_tracked
    Execute.executed Execute.get_active_step_index Execute.index_of Execute.run_from_index
    Execute.run_steps State.drop_instance State.set_status_to_error
forwards_runs = refl

apply_new_definition-Listed_example :
    Listed [] (step_ids env forwards) (apply_new_definition env State.new forwards)
unfolding get_id hash sort_keys insert_key contains State.new is_unchanged to_set add_to
apply_new_definition-Listed_example =
    apply_new_definition-Listed env State.new forwards refl forwards_runs

abbrev after_flow : Map WorkflowStepId (State.TrackedWorkflowStep Bool)
after_flow =
    insert 3 (record { step_instance = some true; status = StepStatus.active })
      (insert 1 (record { step_instance = some true; status = StepStatus.active })
        two_steps.steps_by_definition_id)

two_steps-Flows :
    Flows env
      (1 ∷ 3 ∷ [])
      two_steps.steps_by_definition_id
      (stream_starts ∷ [])
      (stream_starts ∷ [])
      after_flow
unfolding lookup insert
two_steps-Flows =
    through true StepStatus.active refl refl (through true StepStatus.active refl refl at_end)

receive_media_lem_example :
    let t = receive_media env two_steps stream_starts in
    (is_running t.status ≡ true)
    × (t.steps_by_definition_id ≡ after_flow)
    × (t.step_inputs.media ≡ stream_starts ∷ [])
unfolding State.new
receive_media_lem_example = receive_media_lem env two_steps stream_starts refl refl two_steps-Flows
