-- ===== src/Tests/Reactor.antt =====
-- The theorems on reactors at concrete inputs.
use mmids_core.Common.{
  String, ◌≡◌, refl, Bool, true, not, ◌&&◌, ◌||◌, Option, none, some, List, [], ◌∷◌, ◌++◌, nat_eq,
  string_eq, lookup, contains, ok,
}
use mmids_core.Workflows.Definitions.{WorkflowDefinition}
use mmids_core.Workflows.Requests.{Sender, workflow_manager_registered}
use mmids_core.Reactors.Executors.{ReactorExecutionResult}
use mmids_core.Reactors.Reactor.{
  Actor, names_of, handle_executor_response, handle_response_channel_closed,
  handle_workflow_manager_event,
}
use mmids_core.Reactors.Reactor.Reconcile.{
  running_after, held, handle_executor_response_lem, handle_response_channel_closed_lem,
}
use mmids_core.Reactors.Reactor.Orphans.{orphans_started}
use mmids_core.Reactors.Manager
use mmids_core.Reactors.Manager.{ReactorDefinition}

abbrev workflow : String → WorkflowDefinition
workflow name = record { name = name; routed_by_reactor = true; steps = [] }

-- One client, 5, waits for the stream "s", for which the workflow "old" is held.
abbrev one_stream : Option Sender → Actor
one_stream manager = record {
  workflow_manager = manager;
  cached_workflows_for_stream_name = ("s", record { definitions = workflow "old" ∷ [] }) ∷ [];
  update_interval = 3;
  stream_response_channels = ("s", 5 ∷ []) ∷ [];
}

abbrev known : Actor
known = one_stream (some 1)

abbrev unknown : Actor
unknown = one_stream none

abbrev answer : ReactorExecutionResult
answer = record { stream_is_valid = true; workflows_returned = workflow "new" ∷ [] }

abbrev running : List String
running = "old" ∷ "other" ∷ []

handle_executor_response_lem_example :
    ((n : String)
      → contains (running_after running (handle_executor_response known "s" answer).1) n ≡ (
          (answer.stream_is_valid && contains (names_of answer.workflows_returned) n)
          || (contains running n && not (contains (held known "s" 1) n))))
    × (lookup "s" (handle_executor_response known "s" answer).0.cached_workflows_for_stream_name
        ≡ some (record { definitions = answer.workflows_returned }))
unfolding lookup
handle_executor_response_lem_example =
    handle_executor_response_lem known "s" 1 running answer (5 ∷ []) refl refl

handle_response_channel_closed_lem_example :
    let (t, effects) = handle_response_channel_closed known (λ c. true) "s" in
    (contains (running_after running effects) "other"
      ≡ (contains running "other" && not (contains (held known "s" 1) "other")))
    × (lookup "s" t.cached_workflows_for_stream_name ≡ none)
    × (lookup "s" t.stream_response_channels ≡ none)
unfolding lookup
handle_response_channel_closed_lem_example =
    handle_response_channel_closed_lem known "s" 1 running "other" (λ c. true) (5 ∷ []) refl refl

orphans_started_example :
    let (t, e₁) = handle_response_channel_closed unknown (λ c. true) "s" in
    let (u, e₂) = handle_workflow_manager_event t (workflow_manager_registered 1) in
    (lookup "s" u.stream_response_channels ≡ none)
    × (contains (running_after [] (e₁ ++ e₂)) "old" ≡ true)
unfolding lookup contains
orphans_started_example =
    orphans_started unknown "s" 1 "old" (λ c. true) (5 ∷ [])
      (record { definitions = workflow "old" ∷ [] }) refl refl refl refl refl

abbrev definition : ReactorDefinition
definition = record { name = "r"; executor = "http"; update_interval = 3; parameters = [] }

abbrev manager : Manager.Actor Bool
manager = record {
  executor_factory = record { generators = ("http", λ parameters. ok true) ∷ [] };
  reactors = [];
}
