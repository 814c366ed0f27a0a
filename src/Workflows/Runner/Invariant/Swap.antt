-- ===== src/Workflows/Runner/Invariant/Swap.antt =====
-- The swap of pending for active steps keeps the invariant.
use mmids_core.Common.{
  ◌≡◌, refl, ap, ◌∙◌, subst, ◌≢◌, inl, inr, Bool, true, false, Option, none, some, List, [], ◌∷◌,
  append-nil, if◌then◌else◌, Bool-cases, Option-cases, ◌==◌, nat_eq, string_eq, ==_false,
  All-append_right, All-map, fold_left, keys, lookup, remove, lookup-remove, contains_key-remove,
  contains, All-map_mem,
}
use mmids_core.Workflows.Media.{StreamId}
use mmids_core.Workflows.Definitions.{WorkflowStepId}
use mmids_core.Workflows.Steps.{Env}
use mmids_core.Workflows.Runner.State.{Actor, is_running}
use mmids_core.Workflows.Runner.Execute.{run_steps}
use mmids_core.Workflows.Runner.Swap.{
  tell_disconnected, disconnect_stream, remove_step, remove_unused, missed_media, replay_missed,
  swap_pending,
}
use mmids_core.Workflows.Runner.Frame.{
  instance_at, Keeps, Keeps-refl, execute_step-Keeps, run_steps-Keeps,
}
use mmids_core.Workflows.Runner.Invariant.{
  listed, HasNoInstance, IsDefined, IsTracked, IsQuiet, Inv, execute_step-IsQuiet,
  run_steps-IsQuiet,
}

module _ {I N : Type 0} where
  -- Like `Keeps`, but only the pending steps have to stay.
  pub record KeepsPending (s t : Actor I N) : Type 0 where
    pub active : t.active_steps ≡ s.active_steps
    pub pending : t.pending_steps ≡ s.pending_steps
    pub stops : is_running t.status ≡ true → is_running s.status ≡ true
    pub inbound : t.cached_inbound_media ≡ s.cached_inbound_media
    pub quiet : IsQuiet s → IsQuiet t
    pub defined :
        (k : WorkflowStepId) → contains s.pending_steps k ≡ true → IsDefined s k → IsDefined t k
    pub tracked :
        (k : WorkflowStepId) → contains s.pending_steps k ≡ true → IsTracked s k → IsTracked t k

  pub of_Keeps : (s t : Actor I N) → Keeps s t → (IsQuiet s → IsQuiet t) → KeepsPending s t
  of_Keeps s t k q = record {
    active = k.active;
    pending = k.pending;
    stops = k.stops;
    inbound = k.inbound;
    quiet = q;
    defined = λ j m h. rw k.definitions h;
    tracked = λ j m h. k.tracked j ∙ h;
  }

  pub KeepsPending-refl : (s : Actor I N) → KeepsPending s s
  KeepsPending-refl s = of_Keeps s s (Keeps-refl s) (λ q. q)

  pub KeepsPending-trans :
      {s t u : Actor I N} → KeepsPending s t → KeepsPending t u → KeepsPending s u
  KeepsPending-trans h g = record {
    active = g.active ∙ h.active;
    pending = g.pending ∙ h.pending;
    stops = λ r. h.stops (g.stops r);
    inbound = g.inbound ∙ h.inbound;
    quiet = λ q. g.quiet (h.quiet q);
    defined = λ k m d. g.defined k (ap (λ l. contains l k) h.pending ∙ m) (h.defined k m d);
    tracked = λ k m d. g.tracked k (ap (λ l. contains l k) h.pending ∙ m) (h.tracked k m d);
  }

  module _ (env : Env I N) where
    tell-KeepsPending :
        (key : StreamId) (s : Actor I N) (id : WorkflowStepId)
        → KeepsPending s (tell_disconnected env key s id)
    unfolding tell_disconnected
    tell-KeepsPending key s id =
        KeepsPending-trans
          (of_Keeps s _
            (record {
              active = refl;
              pending = refl;
              definitions = refl;
              stops = λ h. h;
              inbound = refl;
              tracked = λ k. refl;
            })
            (λ q. q))
          (of_Keeps _ _ (execute_step-Keeps env _ id) (execute_step-IsQuiet env _ id))

    tell_all-KeepsPending :
        (key : StreamId) (later : List WorkflowStepId) (s : Actor I N)
        → KeepsPending s (fold_left (tell_disconnected env key) s later)
    tell_all-KeepsPending key [] s = KeepsPending-refl s
    tell_all-KeepsPending key (id ∷ later) s =
        KeepsPending-trans (tell-KeepsPending key s id)
          (tell_all-KeepsPending key later (tell_disconnected env key s id))

    disconnect-KeepsPending :
        (id : WorkflowStepId) (later : List WorkflowStepId) (s : Actor I N) (key : StreamId)
        → KeepsPending s (disconnect_stream env id later s key)
    unfolding disconnect_stream
    disconnect-KeepsPending id later s key = elim (Option-cases (lookup key s.active_streams)) [
      | inl e ↦ rw (e, disconnect_stream) (KeepsPending-refl s)
      | inr (stream, e) ↦
          rw (e, disconnect_stream)
            (elim (Bool-cases (stream.originating_step_id == id)) [
              | inl q ↦ rw q (
                  KeepsPending-trans (tell_all-KeepsPending key later s) (
                    of_Keeps (fold_left (tell_disconnected env key) s later) _
                      (record {
                        active = refl;
                        pending = refl;
                        definitions = refl;
                        stops = λ h. h;
                        inbound = refl;
                        tracked = λ k. refl;
                      })
                      (λ q. q)))
              | inr q ↦ rw q (KeepsPending-refl s)
            ])
    ]

    disconnect_all-KeepsPending :
        (id : WorkflowStepId) (later : List WorkflowStepId) (streams : List StreamId)
        (s : Actor I N)
        → KeepsPending s (fold_left (disconnect_stream env id later) s streams)
    disconnect_all-KeepsPending id later [] s = KeepsPending-refl s
    disconnect_all-KeepsPending id later (key ∷ streams) s =
        KeepsPending-trans (disconnect-KeepsPending id later s key)
          (disconnect_all-KeepsPending id later streams (disconnect_stream env id later s key))

    -- What is taken from the tables belongs to a step that is not pending.
    removed-KeepsPending :
        (id : WorkflowStepId) (s : Actor I N)
        → contains s.pending_steps id ≡ false
        → KeepsPending s (record s {
          step_definitions = remove id s.step_definitions;
          steps_by_definition_id = remove id s.steps_by_definition_id;
          cached_step_media = remove id s.cached_step_media;
        })
    removed-KeepsPending id s absent = record {
      active = refl;
      pending = refl;
      stops = λ h. h;
      inbound = refl;
      quiet = λ q r. All-map (λ k h. no_instance k h) (listed s) (q r);
      defined =
          λ k m h. contains_key-remove id k s.step_definitions ∙ rw (==_false id k (other k m)) h;
      tracked = λ k m h.
          contains_key-remove id k s.steps_by_definition_id ∙ rw (==_false id k (other k m)) h;
    }
      where
        other : (k : WorkflowStepId) → contains s.pending_steps k ≡ true → id ≢ k
        other k m e = let here = subst (λ j. contains s.pending_steps j ≡ false) e absent in cc

        no_instance :
            (k : WorkflowStepId)
            → HasNoInstance s k
            → instance_at (remove id s.steps_by_definition_id) k ≡ none
        no_instance k h =
            rw (lookup-remove id k s.steps_by_definition_id)
              (elim (Bool-cases (id == k)) [ inl q ↦ rw q | inr q ↦ rw q h ])

    remove_step-KeepsPending :
        (id : WorkflowStepId) (later : List WorkflowStepId) (s : Actor I N)
        → contains s.pending_steps id ≡ false
        → KeepsPending s (remove_step env id later s)
    unfolding remove_step
    remove_step-KeepsPending id later s absent =
        elim (Option-cases (lookup id s.cached_step_media)) [
          | inl e ↦ rw (e, remove_step) (removed-KeepsPending id s absent)
          | inr (cache, e) ↦
              rw (e, remove_step)
                (KeepsPending-trans (removed-KeepsPending id s absent)
                  (disconnect_all-KeepsPending id later (keys cache) _))
        ]

    pub remove_unused-KeepsPending :
        (ids : List WorkflowStepId) (s : Actor I N) → KeepsPending s (remove_unused env ids s)
    unfolding remove_unused
    remove_unused-KeepsPending [] s = KeepsPending-refl s
    remove_unused-KeepsPending (id ∷ later) s =
        let t = remove_unused env later s in
        elim (Bool-cases (contains t.pending_steps id)) [
          | inl q ↦ rw q (remove_unused-KeepsPending later s)
          | inr q ↦ rw q (
              KeepsPending-trans (remove_unused-KeepsPending later s)
                (remove_step-KeepsPending id later t q))
        ]

    replay_one-KeepsPending :
        (previous : Option WorkflowStepId) (id : WorkflowStepId) (s : Actor I N) (b : Bool)
        → KeepsPending s (
            if b
            then s
            else run_steps env
                (record s {
                  step_inputs = record { media = missed_media s previous; notifications = [] };
                })
                id
                none
                true)
    replay_one-KeepsPending previous id s true = KeepsPending-refl s
    replay_one-KeepsPending previous id s false =
        KeepsPending-trans
          (of_Keeps s _
            (record {
              active = refl;
              pending = refl;
              definitions = refl;
              stops = λ h. h;
              inbound = refl;
              tracked = λ k. refl;
            })
            (λ q. q))
          (of_Keeps _ _ (run_steps-Keeps env _ id none true) (run_steps-IsQuiet env _ id none true))

    pub replay_missed-KeepsPending :
        (previous : Option WorkflowStepId) (ids : List WorkflowStepId) (s : Actor I N)
        → KeepsPending s (replay_missed env previous ids s)
    unfolding replay_missed
    replay_missed-KeepsPending previous [] s = KeepsPending-refl s
    replay_missed-KeepsPending previous (id ∷ ids) s =
        KeepsPending-trans (replay_one-KeepsPending previous id s (contains s.active_steps id))
          (replay_missed-KeepsPending (some id) ids _)

    -- The two loops of the swap.
    abbrev pub before_swap : Actor I N → Actor I N
    before_swap s = replay_missed env none s.pending_steps (remove_unused env s.active_steps s)

    pub before_swap-KeepsPending : (s : Actor I N) → KeepsPending s (before_swap s)
    before_swap-KeepsPending s =
        KeepsPending-trans (remove_unused-KeepsPending s.active_steps s)
          (replay_missed-KeepsPending none s.pending_steps (remove_unused env s.active_steps s))

    -- After the swap the active steps are those that were pending, in their order, and none is pending.
    pub swap_pending_lists :
        (s : Actor I N)
        → ((swap_pending env s).active_steps ≡ s.pending_steps)
          × ((swap_pending env s).pending_steps ≡ [])
    unfolding swap_pending
    swap_pending_lists s = ((before_swap-KeepsPending s).pending, refl)

    pub swap_pending-Inv : (s : Actor I N) → Inv s → Inv (swap_pending env s)
    unfolding swap_pending
    swap_pending-Inv s v =
        let k = before_swap-KeepsPending s in
        let t = before_swap s in
        record {
          quiet = λ r. rw append-nil (
              All-append_right (HasNoInstance t) t.active_steps t.pending_steps
                (k.quiet v.quiet r));
          defined = rw append-nil (
              rw k.pending (
                All-map_mem s.pending_steps (λ a m h. k.defined a m h)
                  (All-append_right (IsDefined s) s.active_steps s.pending_steps v.defined)));
          tracked = λ r. rw append-nil (
              rw k.pending (
                All-map_mem s.pending_steps (λ a m h. k.tracked a m h)
                  (All-append_right (IsTracked s) s.active_steps s.pending_steps
                    (v.tracked (k.stops r)))));
        }
