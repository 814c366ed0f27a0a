-- ===== src/Workflows/Manager/Lifecycle.antt =====
-- Workflows that are started, updated, stopped and lost.
use mmids_core.Common.{
  ◌+◌, String, ◌≡◌, refl, ◌∙◌, subst, ◌≢◌, inl, inr, ◌||◌, none, some, List, [], ◌∷◌, ◌++◌, arith,
  if◌then◌else◌, Bool-cases, Option-cases, ◌==◌, nat_eq, string_eq, ==_false, length, Map, keys,
  lookup, insert, remove, contains_key, lookup-insert_self, lookup-remove_self, contains,
}
use mmids_core.Workflows.Definitions.{WorkflowDefinition}
use mmids_core.Workflows.Requests.{
  Sender, PublishEventRequest, workflow_started, WorkflowRequest, update_definition,
  get_running_workflows,
}
use mmids_core.Workflows.Manager.{
  Actor, Effect, start_workflow, watch_workflow, send_request, publish, respond_workflows,
  respond_no_details, upsert, stop, handle_operation, handle_workflow_gone, insert_sorted,
  sort_names, comes_before,
}

-- The requests that went to a workflow, in order.
abbrev pub requests_to : Sender → List Effect → List WorkflowRequest
requests_to c [] = []
requests_to c (send_request d r ∷ effects) =
    if d == c then r ∷ requests_to c effects else requests_to c effects
requests_to c (publish request ∷ effects) = requests_to c effects
requests_to c (start_workflow w d ∷ effects) = requests_to c effects
requests_to c (watch_workflow d n ∷ effects) = requests_to c effects
requests_to c (respond_workflows d ns ∷ effects) = requests_to c effects
requests_to c (respond_no_details d ∷ effects) = requests_to c effects

abbrev pub update_request : Sender → String → WorkflowDefinition → Effect
update_request channel id d =
    send_request channel (record { request_id = id; operation = update_definition d })

upsert_new :
    (s : Actor) (c : Sender) (id : String) (d : WorkflowDefinition)
    → lookup d.name s.workflows ≡ none
    → upsert s c id d ≡ (
      record s { workflows = insert d.name c s.workflows },
      start_workflow d c
          ∷ watch_workflow c d.name
          ∷ publish (PublishEventRequest.workflow_started_or_stopped (workflow_started d.name c))
          ∷ [],
    )
unfolding upsert
upsert_new s c id d e = rw (e, upsert)

upsert_known :
    (s : Actor) (c channel : Sender) (id : String) (d : WorkflowDefinition)
    → lookup d.name s.workflows ≡ some channel
    → upsert s c id d ≡ (s, update_request channel id d ∷ [])
unfolding upsert
upsert_known s c channel id d e = rw (e, upsert)

-- Two upserts of one name in a row: the name is known after the first, and the second starts no
-- workflow and sends the new definition to the channel that the first left.
pub upsert_again :
    (s : Actor) (c d : Sender) (id id' : String) (old fresh : WorkflowDefinition)
    → old.name ≡ fresh.name
    → (channel : Sender) × (lookup fresh.name (upsert s c id old).0.workflows ≡ some channel)
      × (upsert (upsert s c id old).0 d id' fresh
          ≡ ((upsert s c id old).0, update_request channel id' fresh ∷ []))
upsert_again s c d id id' old fresh same = elim (Option-cases (lookup old.name s.workflows)) [
  | inl e ↦
      let there : lookup fresh.name (insert old.name c s.workflows) ≡ some c =
        subst (λ n. lookup n (insert old.name c s.workflows) ≡ some c) same
          (lookup-insert_self old.name c s.workflows) in
      rw (upsert_new s c id old e) (c, there, upsert_known _ d c id' fresh there)
  | inr (sender, e) ↦
      let there : lookup fresh.name s.workflows ≡ some sender =
        subst (λ n. lookup n s.workflows ≡ some sender) same e in
      rw (upsert_known s c sender id old e) (sender, there, upsert_known s d sender id' fresh there)
]

contains-insert_sorted :
    (a n : String) (xs : List String) → contains (insert_sorted a xs) n ≡ (a == n || contains xs n)
unfolding insert_sorted contains
contains-insert_sorted a n [] = refl
contains-insert_sorted a n (b ∷ xs) = elim (Bool-cases (comes_before a b)) [
  | inl h ↦ rw h
  | inr h ↦ rw (h, contains-insert_sorted a n xs) (ground arith)
]

contains-sort_names : (n : String) (xs : List String) → contains (sort_names xs) n ≡ contains xs n
unfolding sort_names contains
contains-sort_names n [] = refl
contains-sort_names n (a ∷ xs) =
    rw (contains-insert_sorted a n (sort_names xs), contains-sort_names n xs)

contains-keys : (n : String) (m : Map String Sender) → contains (keys m) n ≡ contains_key n m
unfolding contains lookup
contains-keys n [] = refl
contains-keys n ((k, c) ∷ m) = ground (arith, contains-keys n m)

length-insert_sorted : (a : String) (xs : List String) → length (insert_sorted a xs) ≡ length xs + 1
unfolding insert_sorted
length-insert_sorted a [] = omega arith
length-insert_sorted a (b ∷ xs) = ground (arith, length-insert_sorted a xs)

length-sort_names : (m : Map String Sender) → length (sort_names (keys m)) ≡ length m
unfolding sort_names
length-sort_names [] = refl
length-sort_names ((k, c) ∷ m) =
    omega (arith, length-insert_sorted k (sort_names (keys m)), length-sort_names m)

-- The list of running workflows names exactly the workflows that the manager has, one entry for
-- each.
pub running_workflows_lem :
    (s : Actor) (c new_channel : Sender) (id : String)
    → (names : List String) × (handle_operation s new_channel id (get_running_workflows c)
        ≡ (s, respond_workflows c names ∷ []))
      × ((n : String) → contains names n ≡ contains_key n s.workflows)
      × (length names ≡ length s.workflows)
unfolding handle_operation
running_workflows_lem s c new_channel id = (
  sort_names (keys s.workflows),
  refl,
  λ n. contains-sort_names n (keys s.workflows) ∙ contains-keys n s.workflows,
  length-sort_names s.workflows,
)

-- A workflow is stopped, a new one is started under its name on another channel, and only then the
-- manager hears that the first one is gone: the new workflow is struck off as well, though its
-- channel was never sent any request.
pub stale_workflow_gone :
    (s : Actor) (c c' : Sender) (id id' : String) (d : WorkflowDefinition)
    → lookup d.name s.workflows ≡ some c
    → c ≢ c'
    → let (s₁, e₁) = stop s id d.name in
      let (s₂, e₂) = upsert s₁ c' id' d in
      let (s₃, e₃) = handle_workflow_gone s₂ d.name in
      (lookup d.name s₂.workflows ≡ some c')
      × (lookup d.name s₃.workflows ≡ none)
      × (requests_to c' (e₁ ++ (e₂ ++ e₃)) ≡ [])
unfolding stop upsert handle_workflow_gone
stale_workflow_gone s c c' id id' d h n =
    let gone : lookup d.name (remove d.name s.workflows) ≡ none =
      lookup-remove_self d.name s.workflows in
    let back : lookup d.name (insert d.name c' (remove d.name s.workflows)) ≡ some c' =
      lookup-insert_self d.name c' (remove d.name s.workflows) in
    rw (h, stop)
      (rw (gone, upsert)
        (rw (back, handle_workflow_gone)
          (
            refl,
            lookup-remove_self d.name (insert d.name c' (remove d.name s.workflows)),
            rw (==_false c c' n),
          )))
