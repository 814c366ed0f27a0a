-- ===== src/Workflows/Manager/Events.antt =====
-- The events that the manager publishes tell the event hub, and by it every subscriber, which
-- workflows the manager has.
use mmids_core.Common.{
  String, ◌≡◌, refl, ap, inl, inr, List, [], ◌∷◌, ◌++◌, Option-cases, nat_eq, string_eq, fold_left,
  fold_left-append, Map, lookup,
}
use mmids_core.Workflows.Definitions.{WorkflowDefinition}
use mmids_core.Workflows.Requests.{
  Sender, WorkflowManagerRequestOperation, WorkflowStartedOrStoppedEvent, workflow_started,
  workflow_ended, PublishEventRequest, upsert_workflow, get_running_workflows, get_workflow_details,
}
use mmids_core.Workflows.Manager.{
  Actor, FutureResult, all_consumers_gone, event_hub_gone, workflow_manager_request_received,
  workflow_gone, Effect, start_workflow, watch_workflow, send_request, publish, respond_workflows,
  respond_no_details, upsert, stop, details, handle_operation, handle_request, handle_workflow_gone,
  goes_on, handle,
}
use mmids_core.EventHub
use mmids_core.EventHub.{apply_event, handle_publish_request}
use mmids_core.EventHub.Views.{Agrees, apply_event-Agrees}

-- The requests to publish among the effects, in order.
abbrev pub published : List Effect → List PublishEventRequest
published [] = []
published (publish request ∷ effects) = request ∷ published effects
published (start_workflow d c ∷ effects) = published effects
published (watch_workflow c n ∷ effects) = published effects
published (send_request c r ∷ effects) = published effects
published (respond_workflows c ns ∷ effects) = published effects
published (respond_no_details c ∷ effects) = published effects

-- The hub after it has handled the requests.
abbrev pub deliver : EventHub.Actor → List PublishEventRequest → EventHub.Actor
deliver = fold_left (λ h r. (handle_publish_request h r).0)

published-append : (xs ys : List Effect) → published (xs ++ ys) ≡ published xs ++ published ys
published-append [] ys = refl
published-append (publish r ∷ xs) ys = ap (◌∷◌ r) (published-append xs ys)
published-append (start_workflow d c ∷ xs) ys = published-append xs ys
published-append (watch_workflow c n ∷ xs) ys = published-append xs ys
published-append (send_request c r ∷ xs) ys = published-append xs ys
published-append (respond_workflows c ns ∷ xs) ys = published-append xs ys
published-append (respond_no_details c ∷ xs) ys = published-append xs ys

-- Hub and manager name the same workflows with the same channels.
abbrev pub InStep : EventHub.Actor → Actor → Type 0
InStep h s = Agrees h.active_workflows s.workflows

started_lem :
    (h : EventHub.Actor) (m : Map String Sender) (e : WorkflowStartedOrStoppedEvent)
    → Agrees h.active_workflows m
    → Agrees
        (deliver h (PublishEventRequest.workflow_started_or_stopped e ∷ [])).active_workflows
        (apply_event m e)
unfolding handle_publish_request
started_lem h m e g = apply_event-Agrees h.active_workflows m e g

upsert-InStep :
    (h : EventHub.Actor) (s : Actor) (channel : Sender) (id : String) (d : WorkflowDefinition)
    → InStep h s
    → InStep (deliver h (published (upsert s channel id d).1)) (upsert s channel id d).0
unfolding upsert apply_event
upsert-InStep h s channel id d g = elim (Option-cases (lookup d.name s.workflows)) [
  | inl e ↦ rw (e, upsert) (started_lem h s.workflows (workflow_started d.name channel) g)
  | inr (sender, e) ↦ rw (e, upsert) g
]

stop-InStep :
    (h : EventHub.Actor) (s : Actor) (id name : String)
    → InStep h s
    → InStep (deliver h (published (stop s id name).1)) (stop s id name).0
unfolding stop apply_event
stop-InStep h s id name g = elim (Option-cases (lookup name s.workflows)) [
  | inl e ↦ rw (e, stop) g
  | inr (sender, e) ↦ rw (e, stop) (started_lem h s.workflows (workflow_ended name) g)
]

details-published :
    (s : Actor) (id name : String) (c : Sender) → published (details s id name c) ≡ []
unfolding details
details-published s id name c = elim (Option-cases (lookup name s.workflows)) [
  | inl e ↦ rw (e, details)
  | inr (sender, e) ↦ rw (e, details)
]

operation-InStep :
    (h : EventHub.Actor) (s : Actor) (channel : Sender) (id : String)
    (op : WorkflowManagerRequestOperation)
    → InStep h s
    → InStep
        (deliver h (published (handle_operation s channel id op).1))
        (handle_operation s channel id op).0
unfolding handle_operation
operation-InStep h s channel id (upsert_workflow d) g = upsert-InStep h s channel id d g
operation-InStep h s channel id (WorkflowManagerRequestOperation.stop_workflow name) g =
    stop-InStep h s id name g
operation-InStep h s channel id (get_running_workflows c) g = g
operation-InStep h s channel id (get_workflow_details name c) g =
    rw (details-published s id name c) g

gone-InStep :
    (h : EventHub.Actor) (s : Actor) (name : String)
    → InStep h s
    → InStep (deliver h (published (handle_workflow_gone s name).1)) (handle_workflow_gone s name).0
unfolding handle_workflow_gone apply_event
gone-InStep h s name g = elim (Option-cases (lookup name s.workflows)) [
  | inl e ↦ rw (e, handle_workflow_gone) g
  | inr (sender, e) ↦
      rw (e, handle_workflow_gone) (started_lem h s.workflows (workflow_ended name) g)
]

-- Rounds of the manager from one state to another, with what they did to the outside.
pub data Rounds : Actor → List Effect → Actor → Type 0 where
  done : {s : Actor} → Rounds s [] s
  round :
      {s t u : Actor} {effects later all : List Effect} (channel : Sender) (e : FutureResult)
      → handle s channel e ≡ goes_on t effects
      → Rounds t later u
      → all ≡ effects ++ later
      → Rounds s all u

goes_on-eq : {s t : Actor} {x y : List Effect} → goes_on s x ≡ goes_on t y → (s ≡ t) × (x ≡ y)
goes_on-eq h = (cc, cc)

handle-InStep :
    (h : EventHub.Actor) (s t : Actor) (channel : Sender) (e : FutureResult) (effects : List Effect)
    → handle s channel e ≡ goes_on t effects
    → InStep h s
    → InStep (deliver h (published effects)) t
unfolding handle handle_request
handle-InStep h s t channel all_consumers_gone effects q g = cc
handle-InStep h s t channel event_hub_gone effects q g = cc
handle-InStep h s t channel (workflow_manager_request_received request) effects q g =
    let (p, r) = goes_on-eq q in
    rw (← p, ← r) (operation-InStep h s channel request.request_id request.operation g)
handle-InStep h s t channel (workflow_gone name) effects q g =
    let (p, r) = goes_on-eq q in rw (← p, ← r) (gone-InStep h s name g)

-- Over any rounds of the workflow manager, a hub that handles what the manager publishes, in order,
-- ends with exactly the manager's workflows and their channels as the active ones, if it began so.
pub Rounds-InStep :
    {s u : Actor} {all : List Effect} (h : EventHub.Actor)
    → Rounds s all u
    → InStep h s
    → InStep (deliver h (published all)) u
Rounds-InStep h done g = g
Rounds-InStep {s} h (round {t = t} {effects = effects} {later = later} channel e q rest p) g =
    rw
      (
        p,
        published-append effects later,
        fold_left-append (λ h r. (handle_publish_request h r).0) h (published effects)
            (published later),
      )
      (Rounds-InStep (deliver h (published effects)) rest
        (handle-InStep h s t channel e effects q g))
