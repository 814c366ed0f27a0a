-- ===== src/EventHub/Subscribers.antt =====
-- The subscriber ids of the event hub: a new subscriber gets an id that no other has, the search for
-- the next one ends, and the two tables of subscribers stay apart.
use mmids_core.Common.{
  ℕ, ◌+◌, ◌^◌, ◌<◌, ◌≡◌, refl, sym, ◌∙◌, subst, ◌≢◌, ◌⊎◌, inl, inr, Bool, true, false, none, some,
  List, [], arith, Option-cases, nat_eq, string_eq, ==_refl, ==_false, length, lookup, insert,
  remove, contains_key, lookup-insert_self, DistinctKeys, insert-DistinctKeys, remove-DistinctKeys,
  contains_key-insert_cases, contains_key-remove_cases, contains, add_to, remove_from,
  contains-add_to, contains-remove_from, length-add_to,
}
use mmids_core.Workflows.Requests.{
  workflow_started, workflow_ended, Sender, PublishEventRequest, SubscriptionRequest,
}
use mmids_core.EventHub.{
  Actor, FutureResult, all_publish_consumers_gone, all_subscription_request_consumers_gone,
  new_publish_request, new_subscription_request, workflow_start_stop_subscriber_gone,
  workflow_manager_subscriber_gone, Effect, new, apply_event, handle_publish_request,
  add_subscriber, handle_subscription_request, goes_on, after_match, after_subscription, handle,
}
use mmids_core.EventHub.Search.{next_free_total}

-- What holds between two rounds.
pub record IsValid (s : Actor) : Type 0 where
  pub fresh : contains s.active_subscriber_ids s.next_subscriber_id ≡ false
  pub start_stop_used :
      (id : ℕ)
      → contains_key id s.workflow_start_stop_subscribers ≡ true
      → contains s.active_subscriber_ids id ≡ true
  pub manager_used :
      (id : ℕ)
      → contains_key id s.workflow_manager_subscribers ≡ true
      → contains s.active_subscriber_ids id ≡ true
  pub apart :
      (id : ℕ)
      → contains_key id s.workflow_start_stop_subscribers ≡ true
      → contains_key id s.workflow_manager_subscribers ≡ false
  pub workflows_distinct : DistinctKeys s.active_workflows

-- A subscriber is reported gone in the table that it was registered in.
abbrev pub Expected : Actor → FutureResult → Type 0
Expected s (workflow_start_stop_subscriber_gone id) =
    contains_key id s.workflow_start_stop_subscribers ≡ true
Expected s (workflow_manager_subscriber_gone id) =
    contains_key id s.workflow_manager_subscribers ≡ true
Expected s _ = Unit

pub new-IsValid : IsValid new
unfolding new contains lookup
new-IsValid = record {
  fresh = refl;
  start_stop_used = λ id h. cc;
  manager_used = λ id h. cc;
  apart = λ id h. cc;
  workflows_distinct = tt;
}

pub after_match_lem :
    (s s' : Actor) (effects effects' : List Effect)
    → after_match s effects ≡ goes_on s' effects'
    → (s' ≡ s) × (effects' ≡ effects)
unfolding after_match
after_match_lem s s' effects effects' h = ground arith

-- The test at the end of a round keeps what the arms of the `match` establish.
after_match_keeps :
    (s s' : Actor) (effects effects' : List Effect)
    → IsValid s
    → after_match s effects ≡ goes_on s' effects'
    → IsValid s'
after_match_keeps s s' effects effects' v h = rw ((after_match_lem s s' effects effects' h).0) v

publish-IsValid :
    (s : Actor) (request : PublishEventRequest)
    → IsValid s
    → IsValid (handle_publish_request s request).0
unfolding handle_publish_request apply_event
publish-IsValid s (PublishEventRequest.workflow_started_or_stopped (workflow_started name c)) v =
    record {
      fresh = v.fresh;
      start_stop_used = v.start_stop_used;
      manager_used = v.manager_used;
      apart = v.apart;
      workflows_distinct = insert-DistinctKeys name c s.active_workflows v.workflows_distinct;
    }
publish-IsValid s (PublishEventRequest.workflow_started_or_stopped (workflow_ended name)) v =
    record {
      fresh = v.fresh;
      start_stop_used = v.start_stop_used;
      manager_used = v.manager_used;
      apart = v.apart;
      workflows_distinct = remove-DistinctKeys name s.active_workflows v.workflows_distinct;
    }
publish-IsValid s (PublishEventRequest.workflow_manager_event event) v = record {
  fresh = v.fresh;
  start_stop_used = v.start_stop_used;
  manager_used = v.manager_used;
  apart = v.apart;
  workflows_distinct = v.workflows_distinct;
}

abbrev in_start_stop : Actor → ℕ → Bool
in_start_stop s id = contains_key id s.workflow_start_stop_subscribers

abbrev in_manager : Actor → ℕ → Bool
in_manager s id = contains_key id s.workflow_manager_subscribers

abbrev in_use : Actor → ℕ → Bool
in_use s id = contains s.active_subscriber_ids id

false_of_not_used : (a b : Bool) → (a ≡ true → b ≡ true) → b ≡ false → a ≡ false
false_of_not_used false b f h = refl
false_of_not_used true b f h = sym (f refl) ∙ h

module _ (s : Actor) (v : IsValid s) (next : ℕ) where
  abbrev ids : List ℕ
  ids = add_to s.next_subscriber_id s.active_subscriber_ids

  abbrev grown : Actor
  grown = record s { active_subscriber_ids = ids; next_subscriber_id = next }

  new_in_use : contains ids s.next_subscriber_id ≡ true
  new_in_use =
      rw (contains-add_to s.next_subscriber_id s.next_subscriber_id s.active_subscriber_ids)
        (rw (==_refl s.next_subscriber_id))

  still_in_use : (id : ℕ) → in_use s id ≡ true → contains ids id ≡ true
  still_in_use id h =
      rw (contains-add_to s.next_subscriber_id id s.active_subscriber_ids) (rw h (ground arith))

  -- With the new id marked as in use, and the next one not in use.
  add_subscriber-IsValid :
      (request : SubscriptionRequest)
      → contains ids next ≡ false
      → IsValid (add_subscriber grown s.next_subscriber_id request).0
  unfolding add_subscriber
  add_subscriber-IsValid (SubscriptionRequest.workflow_started_or_stopped channel) free = record {
    fresh = free;
    start_stop_used = λ id h. elim (cases id h) [
      | inl e ↦ subst (λ k. contains ids k ≡ true) e new_in_use
      | inr old ↦ still_in_use id (v.start_stop_used id old)
    ];
    manager_used = λ id h. still_in_use id (v.manager_used id h);
    apart = λ id h. elim (cases id h) [
      | inl e ↦ rw (← e) (
          false_of_not_used (in_manager s s.next_subscriber_id) (in_use s s.next_subscriber_id)
            (v.manager_used s.next_subscriber_id) v.fresh)
      | inr old ↦ v.apart id old
    ];
    workflows_distinct = v.workflows_distinct;
  }
    where
      cases :
          (id : ℕ)
          → contains_key id (insert s.next_subscriber_id channel s.workflow_start_stop_subscribers)
            ≡ true
          → (s.next_subscriber_id ≡ id) ⊎ (in_start_stop s id ≡ true)
      cases id =
          contains_key-insert_cases s.next_subscriber_id id channel
            s.workflow_start_stop_subscribers
  add_subscriber-IsValid (SubscriptionRequest.workflow_manager_events channel) free = record {
    fresh = free;
    start_stop_used = λ id h. still_in_use id (v.start_stop_used id h);
    manager_used = λ id h. elim (cases id h) [
      | inl e ↦ subst (λ k. contains ids k ≡ true) e new_in_use
      | inr old ↦ still_in_use id (v.manager_used id old)
    ];
    apart = λ id h.
        false_of_not_used
          (contains_key id (insert s.next_subscriber_id channel s.workflow_manager_subscribers))
          (in_manager s id)
          (λ g. elim (cases id g) [ inl e ↦ absurd (clash (rw (← e) at h)) | inr old ↦ old ])
          (v.apart id h);
    workflows_distinct = v.workflows_distinct;
  }
    where
      cases :
          (id : ℕ)
          → contains_key id (insert s.next_subscriber_id channel s.workflow_manager_subscribers)
            ≡ true
          → (s.next_subscriber_id ≡ id) ⊎ (in_manager s id ≡ true)
      cases id =
          contains_key-insert_cases s.next_subscriber_id id channel s.workflow_manager_subscribers

      clash : in_start_stop s s.next_subscriber_id ≡ true → ⊥
      clash h = let used = v.start_stop_used s.next_subscriber_id h in let f = v.fresh in cc

still_used :
    (id k : ℕ) (ids : List ℕ)
    → id ≢ k
    → contains ids k ≡ true
    → contains (remove_from id ids) k ≡ true
still_used id k ids n h = rw (contains-remove_from id k ids) (rw (==_false id k n, h))

removed :
    (id k : ℕ) (ids : List ℕ) → contains ids k ≡ false → contains (remove_from id ids) k ≡ false
removed id k ids h = rw (contains-remove_from id k ids) (rw h (ground arith))

-- A subscriber that is gone frees its id, in the table that it stood in.
start_stop_gone-IsValid :
    (s : Actor) (id : ℕ)
    → IsValid s
    → in_start_stop s id ≡ true
    → IsValid (record s {
      active_subscriber_ids = remove_from id s.active_subscriber_ids;
      workflow_start_stop_subscribers = remove id s.workflow_start_stop_subscribers;
    })
start_stop_gone-IsValid s id v h = record {
  fresh = removed id s.next_subscriber_id s.active_subscriber_ids v.fresh;
  start_stop_used = λ k g.
      let (n, old) = contains_key-remove_cases id k s.workflow_start_stop_subscribers g in
      still_used id k s.active_subscriber_ids n (v.start_stop_used k old);
  manager_used =
      λ k g. still_used id k s.active_subscriber_ids (λ e. both k e g) (v.manager_used k g);
  apart = λ k g. v.apart k (contains_key-remove_cases id k s.workflow_start_stop_subscribers g).1;
  workflows_distinct = v.workflows_distinct;
}
  where
    both : (k : ℕ) → id ≡ k → in_manager s k ≡ true → ⊥
    both k e g = let a = v.apart id h in let b = rw (← e) at g in cc

manager_gone-IsValid :
    (s : Actor) (id : ℕ)
    → IsValid s
    → in_manager s id ≡ true
    → IsValid (record s {
      active_subscriber_ids = remove_from id s.active_subscriber_ids;
      workflow_manager_subscribers = remove id s.workflow_manager_subscribers;
    })
manager_gone-IsValid s id v h = record {
  fresh = removed id s.next_subscriber_id s.active_subscriber_ids v.fresh;
  start_stop_used =
      λ k g. still_used id k s.active_subscriber_ids (λ e. both k e g) (v.start_stop_used k g);
  manager_used = λ k g.
      let (n, old) = contains_key-remove_cases id k s.workflow_manager_subscribers g in
      still_used id k s.active_subscriber_ids n (v.manager_used k old);
  apart = λ k g.
      false_of_not_used (contains_key k (remove id s.workflow_manager_subscribers)) (in_manager s k)
        (λ r. (contains_key-remove_cases id k s.workflow_manager_subscribers r).1) (v.apart k g);
  workflows_distinct = v.workflows_distinct;
}
  where
    both : (k : ℕ) → id ≡ k → in_start_stop s k ≡ true → ⊥
    both k e g = let a = v.apart k g in let b = rw e at h in cc

module _ (s s' : Actor) (effects : List Effect) (v : IsValid s) where
  subscription_keeps :
      (request : SubscriptionRequest)
      → length s.active_subscriber_ids + 1 < 2 ^ 64
      → after_subscription (handle_subscription_request s request) ≡ goes_on s' effects
      → IsValid s'
  unfolding handle_subscription_request
  subscription_keeps request room h =
      let ids = add_to s.next_subscriber_id s.active_subscriber_ids in
      let fits : length ids < 2 ^ 64 =
        omega (arith, length-add_to s.next_subscriber_id s.active_subscriber_ids) in
      let (next, found, free) = next_free_total ids s.next_subscriber_id fits in
      after_match_keeps
        (add_subscriber (record s { active_subscriber_ids = ids; next_subscriber_id = next })
          s.next_subscriber_id request).0
        s'
        (add_subscriber (record s { active_subscriber_ids = ids; next_subscriber_id = next })
          s.next_subscriber_id request).1
        effects (add_subscriber-IsValid s v next request free)
        (rw (found, handle_subscription_request, after_subscription) at h)

  -- Every round of the hub that goes on keeps its invariant, if the hub has an id to spare and a
  -- subscriber is reported gone in the table that it stands in.
  pub handle-IsValid :
      (e : FutureResult)
      → Expected s e
      → length s.active_subscriber_ids + 1 < 2 ^ 64
      → handle s e ≡ goes_on s' effects
      → IsValid s'
  unfolding handle
  handle-IsValid all_publish_consumers_gone x room h = cc
  handle-IsValid all_subscription_request_consumers_gone x room h =
      after_match_keeps (record s { new_subscribers_can_join = false }) s' [] effects
        (record {
          fresh = v.fresh;
          start_stop_used = v.start_stop_used;
          manager_used = v.manager_used;
          apart = v.apart;
          workflows_distinct = v.workflows_distinct;
        })
        h
  handle-IsValid (new_publish_request request) x room h =
      after_match_keeps (handle_publish_request s request).0 s' (handle_publish_request s request).1
        effects (publish-IsValid s request v) h
  handle-IsValid (new_subscription_request request) x room h = subscription_keeps request room h
  handle-IsValid (workflow_start_stop_subscriber_gone id) x room h =
      after_match_keeps _ s' [] effects (start_stop_gone-IsValid s id v x) h
  handle-IsValid (workflow_manager_subscriber_gone id) x room h =
      after_match_keeps _ s' [] effects (manager_gone-IsValid s id v x) h

-- On a valid hub with an id to spare a subscription for workflow events always goes through: the
-- search for the next id ends, the subscriber is registered under the id that the hub had ready,
-- which no subscriber for workflow events had, and the next id is not in use.
pub handle_subscription_request_total :
    (s : Actor) (channel : Sender)
    → IsValid s
    → length s.active_subscriber_ids + 1 < 2 ^ 64
    → (s' : Actor) × (effects : List Effect) × (handle_subscription_request s
          (SubscriptionRequest.workflow_started_or_stopped channel)
        ≡ some (s', effects))
      × (lookup s.next_subscriber_id s.workflow_start_stop_subscribers ≡ none)
      × (lookup s.next_subscriber_id s'.workflow_start_stop_subscribers ≡ some channel)
      × (contains s'.active_subscriber_ids s'.next_subscriber_id ≡ false)
unfolding handle_subscription_request add_subscriber
handle_subscription_request_total s channel v room =
    let ids = add_to s.next_subscriber_id s.active_subscriber_ids in
    let fits : length ids < 2 ^ 64 =
      omega (arith, length-add_to s.next_subscriber_id s.active_subscriber_ids) in
    let (next, found, free) = next_free_total ids s.next_subscriber_id fits in
    let s' : Actor × List Effect =
      add_subscriber (record s { active_subscriber_ids = ids; next_subscriber_id = next })
        s.next_subscriber_id (SubscriptionRequest.workflow_started_or_stopped channel) in
    (
      s'.0,
      s'.1,
      rw (found, handle_subscription_request) refl,
      none_there,
      lookup-insert_self s.next_subscriber_id channel s.workflow_start_stop_subscribers,
      free,
    )
  where
    none_there : lookup s.next_subscriber_id s.workflow_start_stop_subscribers ≡ none
    none_there =
        elim (Option-cases (lookup s.next_subscriber_id s.workflow_start_stop_subscribers)) [
          | inl e ↦ e
          | inr (c, e) ↦
              let used = v.start_stop_used s.next_subscriber_id (rw e) in let f = v.fresh in cc
        ]
