-- ===== src/Workflows/Runner/Swap.antt =====
-- From pending to active: `check_if_all_pending_steps_are_active`.
use mmids_core.Common.{
  Bool, true, false, not, ◌&&◌, ◌||◌, Option, none, some, List, [], ◌∷◌, ◌++◌, if◌then◌else◌, ◌==◌,
  nat_eq, string_eq, is_empty, fold_left, keys, lookup, remove, contains,
}
use mmids_core.Workflows.Media.{StreamId, MediaNotification, stream_disconnected}
use mmids_core.Workflows.Definitions.{WorkflowStepId}
use mmids_core.Workflows.Steps.{StepStatus, Env, no_outputs}
use mmids_core.Workflows.Runner.State.{
  Actor, TrackedWorkflowStep, MediaCache, reported, step_not_defined, set_status_to_error,
}
use mmids_core.Workflows.Runner.Execute.{execute_step, run_steps}

-- The loop over the pending steps: it falls through with `all_are_active`, or returns.
pub data Scan (I N : Type 0) : Type 0 where
  scanned : Bool → Scan I N
  returned : Actor I N → Scan I N

-- The media of all streams of a cache, `cache.values().flatten()`.
unfoldable pub all_media : MediaCache → List MediaNotification
all_media [] = []
all_media ((stream, media) ∷ cache) = media ++ all_media cache

module _ {I N : Type 0} where
  -- One round: where it goes on, whether all are active so far, and else what is returned.
  unfoldable pub scan_step :
      Actor I N → WorkflowStepId → Bool → Option (TrackedWorkflowStep I) → Scan I N
  scan_step s id all none = returned (set_status_to_error s id step_not_defined)
  scan_step s id all (some step) = elim step.status [
    | StepStatus.created ↦ scanned false
    | StepStatus.active ↦ scanned all
    | StepStatus.error message ↦ returned (set_status_to_error s id (reported message))
    | StepStatus.shutdown ↦ returned s
  ]

  unfoldable pub scan_pending : Actor I N → List WorkflowStepId → Bool → Scan I N
  unfolding scan_step
  scan_pending s [] all = scanned all
  scan_pending s (id ∷ ids) all = elim (scan_step s id all (lookup id s.steps_by_definition_id)) [
    | returned t ↦ returned t
    | scanned all' ↦ scan_pending s ids all'
  ]

  -- One later step is told that the stream has ended.
  unfoldable pub tell_disconnected : Env I N → StreamId → Actor I N → WorkflowStepId → Actor I N
  tell_disconnected env key s id =
      execute_step env
        (record s {
          step_outputs = no_outputs;
          step_inputs = record {
            media = record { stream_id = key; content = stream_disconnected } ∷ [];
            notifications = [];
          };
        })
        id

  -- One stream of the cache of a step that goes away, with the active steps behind it.
  unfoldable pub disconnect_stream :
      Env I N → WorkflowStepId → List WorkflowStepId → Actor I N → StreamId → Actor I N
  disconnect_stream env id later s key = elim (lookup key s.active_streams) [
    | none ↦ s
    | some stream ↦
        let t = fold_left (tell_disconnected env key) s later in
        if stream.originating_step_id == id
        then record t { active_streams = remove key t.active_streams }
        else s
  ]

  -- An active step that is not pending goes away.
  unfoldable pub remove_step :
      Env I N → WorkflowStepId → List WorkflowStepId → Actor I N → Actor I N
  remove_step env id later s =
      let t : Actor I N = record s {
        step_definitions = remove id s.step_definitions;
        steps_by_definition_id = remove id s.steps_by_definition_id;
        cached_step_media = remove id s.cached_step_media;
      } in
      elim (lookup id s.cached_step_media) [
        | none ↦ t
        | some cache ↦ fold_left (disconnect_stream env id later) t (keys cache)
      ]

  -- The loop over the active steps, from the last to the first.
  unfoldable pub remove_unused : Env I N → List WorkflowStepId → Actor I N → Actor I N
  remove_unused env [] s = s
  remove_unused env (id ∷ later) s =
      let t = remove_unused env later s in
      if contains t.pending_steps id then t else remove_step env id later t

  -- What a new step is to be told: all that came in, or what the step before it remembers.
  unfoldable pub missed_media : Actor I N → Option WorkflowStepId → List MediaNotification
  missed_media s none = all_media s.cached_inbound_media
  missed_media s (some previous) = elim (lookup previous s.cached_step_media) [
    | none ↦ []
    | some cache ↦ all_media cache
  ]

  -- The loop over the pending steps; the step before the one at hand is an argument.
  unfoldable pub replay_missed :
      Env I N → Option WorkflowStepId → List WorkflowStepId → Actor I N → Actor I N
  replay_missed env previous [] s = s
  replay_missed env previous (id ∷ ids) s = replay_missed env (some id) ids (
      if contains s.active_steps id
      then s
      else run_steps env
          (record s {
            step_inputs = record { media = missed_media s previous; notifications = [] };
          })
          id none true)

  -- The body of the last `if`: the pending steps take the place of the active ones.
  unfoldable pub swap_pending : Env I N → Actor I N → Actor I N
  swap_pending env s =
      let t = replay_missed env none s.pending_steps (remove_unused env s.active_steps s) in
      record t { active_steps = t.pending_steps; pending_steps = [] }

  unfoldable pub after_scan : Env I N → Actor I N → Bool → Scan I N → Actor I N
  after_scan env s swap_if_empty (returned t) = t
  after_scan env s swap_if_empty (scanned all) =
      let t = swap_pending env s in
      if (not (is_empty s.pending_steps) && all) || (is_empty s.pending_steps && swap_if_empty)
      then t
      else s

  -- `check_if_all_pending_steps_are_active`.
  unfoldable pub check_pending : Env I N → Actor I N → Bool → Actor I N
  check_pending env s swap_if_empty =
      after_scan env s swap_if_empty (scan_pending s s.pending_steps true)
