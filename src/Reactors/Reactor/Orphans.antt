-- ===== src/Reactors/Reactor/Orphans.antt =====
-- Workflows that a reactor holds before a workflow manager is known.
use mmids_core.Common.{
  String, ◌≡◌, refl, ◌∙◌, inl, inr, Bool, true, not, ◌||◌, none, some, List, [], ◌∷◌, ◌++◌, arith,
  Bool-cases, ◌==◌, nat_eq, string_eq, is_empty, keep_if, Map, lookup, lookup-remove_self, contains,
}
use mmids_core.Workflows.Definitions.{WorkflowDefinition}
use mmids_core.Workflows.Requests.{Sender, workflow_manager_registered}
use mmids_core.Reactors.Reactor.{
  Actor, CachedWorkflows, names_of, all_cached, handle_workflow_manager_event, forget_stream,
  handle_response_channel_closed,
}
use mmids_core.Reactors.Reactor.Reconcile.{running_after, running_after-upserts}

contains-names_append :
    (xs ys : List WorkflowDefinition) (n : String)
    → contains (names_of (xs ++ ys)) n ≡ (contains (names_of xs) n || contains (names_of ys) n)
unfolding contains
contains-names_append [] ys n = refl
contains-names_append (w ∷ xs) ys n = ground (arith, contains-names_append xs ys n)

contains-all_cached :
    (m : Map String CachedWorkflows) (stream n : String) (cache : CachedWorkflows)
    → lookup stream m ≡ some cache
    → contains (names_of cache.definitions) n ≡ true
    → contains (names_of (all_cached m)) n ≡ true
unfolding lookup
contains-all_cached [] stream n cache h k = cc
contains-all_cached ((j, c) ∷ m) stream n cache h k = elim (Bool-cases (j == stream)) [
  | inl q ↦
      let same : c ≡ cache = cc (rw q at h) in
      rw (contains-names_append c.definitions (all_cached m) n) (rw same (rw k))
  | inr q ↦
      rw (contains-names_append c.definitions (all_cached m) n)
        (rw (contains-all_cached m stream n cache (rw q at h) k) (ground arith))
]

-- A workflow manager registers: after it has handled the reactor's requests, exactly the workflows
-- run that ran before and those that the reactor holds for any stream.
pub handle_workflow_manager_event_lem :
    (s : Actor) (manager : Sender) (names : List String) (n : String)
    → contains
        (running_after names
          (handle_workflow_manager_event s (workflow_manager_registered manager)).1)
        n
      ≡ (contains names n || contains (names_of (all_cached s.cached_workflows_for_stream_name)) n)
unfolding handle_workflow_manager_event
handle_workflow_manager_event_lem s manager names n =
    running_after-upserts manager names (all_cached s.cached_workflows_for_stream_name) n

-- No workflow manager is known yet, and all clients of a stream for which the reactor holds
-- workflows go away: when a manager registers after that, all these workflows run, though the stream
-- has no client.
pub orphans_started :
    (s : Actor) (stream : String) (manager : Sender) (n : String) (is_closed : Sender → Bool)
    (channels : List Sender) (cache : CachedWorkflows)
    → s.workflow_manager ≡ none
    → lookup stream s.stream_response_channels ≡ some channels
    → is_empty (keep_if (λ c. not (is_closed c)) channels) ≡ true
    → lookup stream s.cached_workflows_for_stream_name ≡ some cache
    → contains (names_of cache.definitions) n ≡ true
    → let (t, e₁) = handle_response_channel_closed s is_closed stream in
      let (u, e₂) = handle_workflow_manager_event t (workflow_manager_registered manager) in
      (lookup stream u.stream_response_channels ≡ none)
      × (contains (running_after [] (e₁ ++ e₂)) n ≡ true)
unfolding handle_response_channel_closed handle_workflow_manager_event forget_stream
orphans_started s stream manager n is_closed channels cache m c q h k =
    rw (c, handle_response_channel_closed)
      (rw q (
        rw (m, forget_stream)
          (
            lookup-remove_self stream s.stream_response_channels,
            running_after-upserts manager [] (all_cached s.cached_workflows_for_stream_name) n
                ∙ (rw (contains-all_cached s.cached_workflows_for_stream_name stream n cache h k)
                    (ground arith)),
          )))
