-- ===== src/Reactors/Manager.antt =====
-- The reactor manager: mmids-core/src/reactors/manager.rs.
use mmids_core.Common.{
  ℕ, String, ◌≡◌, refl, subst, false, Option, none, some, List, [], ◌∷◌, if◌then◌else◌, nat_eq,
  string_eq, Map, lookup, insert, contains_key, lookup-insert_self, Result, ok, err,
}
use mmids_core.Workflows.Requests.{Sender}
use mmids_core.Reactors.Executors.{ReactorExecutorFactory, GenerationError, get_generator}
use mmids_core.Reactors.Reactor.{
  ReactorRequest, create_workflow_name_for_stream, ReactorWorkflowUpdate,
}

-- `ReactorDefinition` of mmids-core/src/reactors/mod.rs.
pub record ReactorDefinition : Type 0 where
  pub name : String
  pub executor : String
  pub update_interval : ℕ
  pub parameters : Map String (Option String)

pub data ReactorManagerRequest : Type 0 where
  create_reactor : ReactorDefinition → Sender → ReactorManagerRequest
  create_workflow_for_stream_name : String → String → Sender → ReactorManagerRequest

pub data CreateReactorResult : Type 0 where
  success duplicate_reactor_name : CreateReactorResult
  executor_generator_error : GenerationError → CreateReactorResult
  executor_returned_error : String → CreateReactorResult

pub record Actor (E : Type 0) : Type 0 where
  pub executor_factory : ReactorExecutorFactory E
  pub reactors : Map String Sender

pub data FutureResult : Type 0 where
  all_consumers_gone : FutureResult
  request_received : ReactorManagerRequest → FutureResult

-- What a handler does outside the actor: it starts a reactor with its executor, answers a request, or
-- sends a request to a reactor.
pub data Effect (E : Type 0) : Type 0 where
  start_reactor : String → E → ℕ → Sender → Effect E
  respond_created : Sender → CreateReactorResult → Effect E
  respond_update : Sender → ReactorWorkflowUpdate → Effect E
  send_request : Sender → ReactorRequest → Effect E

module _ {E : Type 0} where
  -- `Actor::new`.
  unfoldable pub new : ReactorExecutorFactory E → Actor E
  new executor_factory = record { executor_factory = executor_factory; reactors = [] }

  -- The executor that a definition asks for, or what the caller is told instead.
  unfoldable pub executor_for :
      ReactorExecutorFactory E → ReactorDefinition → Result E CreateReactorResult
  executor_for factory d = elim (get_generator factory d.executor) [
    | err error ↦ err (executor_generator_error error)
    | ok generator ↦ elim (generator d.parameters) [
      | err error ↦ err (executor_returned_error error)
      | ok executor ↦ ok executor
    ]
  ]

  -- The channel of a new reactor is an argument.
  unfoldable pub create : Actor E → Sender → ReactorDefinition → Sender → Actor E × List (Effect E)
  create s channel d response_channel = elim (executor_for s.executor_factory d) [
    | err refusal ↦ (s, respond_created response_channel refusal ∷ [])
    | ok executor ↦ (
      record s { reactors = insert d.name channel s.reactors },
      start_reactor d.name executor d.update_interval channel
          ∷ respond_created response_channel success
          ∷ [],
    )
  ]

  unfoldable pub create_workflow : Actor E → String → String → Sender → List (Effect E)
  create_workflow s reactor_name stream response_channel = elim (lookup reactor_name s.reactors) [
    | some reactor ↦
        send_request reactor (create_workflow_name_for_stream stream response_channel) ∷ []
    | none ↦
        respond_update response_channel (record { is_valid = false; routable_workflow_names = [] })
        ∷ []
  ]

  -- `handle_request`.
  unfoldable pub handle_request :
      Actor E → Sender → ReactorManagerRequest → Actor E × List (Effect E)
  unfolding create create_workflow
  handle_request s channel (create_reactor d response_channel) =
      let created = create s channel d response_channel in
      if contains_key d.name s.reactors
      then (s, respond_created response_channel duplicate_reactor_name ∷ [])
      else created
  handle_request s channel (create_workflow_for_stream_name reactor_name stream response_channel) =
      (s, create_workflow s reactor_name stream response_channel)

pub data Round (E : Type 0) : Type 0 where
  goes_on : Actor E → List (Effect E) → Round E
  closes : Round E

module _ {E : Type 0} where
  abbrev pub continue : Actor E × List (Effect E) → Round E
  continue (s, effects) = goes_on s effects

  -- One round of the loop of `run`.
  unfoldable pub handle : Actor E → Sender → FutureResult → Round E
  handle s channel all_consumers_gone = closes
  handle s channel (request_received request) = continue (handle_request s channel request)

  -- A reactor of a new name is created, with an executor that the factory gives: the reactor is
  -- started and the caller told of the success; a second request to create one of the name is told
  -- of the duplicate and changes nothing; and a request for a stream goes to the channel of the
  -- reactor that was started.
  pub create_reactor_lem :
      (s : Actor E) (a b c d r : Sender) (first second : ReactorDefinition) (executor : E)
      (stream : String)
      → first.name ≡ second.name
      → lookup first.name s.reactors ≡ none
      → executor_for s.executor_factory first ≡ ok executor
      → let t = (handle_request s a (create_reactor first c)).0 in
        (handle_request s a (create_reactor first c) ≡ (
          t,
          start_reactor first.name executor first.update_interval a
              ∷ respond_created c success
              ∷ [],
        ))
        × (handle_request t b (create_reactor second d)
            ≡ (t, respond_created d duplicate_reactor_name ∷ []))
        × (handle_request t b (create_workflow_for_stream_name first.name stream r)
            ≡ (t, send_request a (create_workflow_name_for_stream stream r) ∷ []))
  unfolding handle_request create create_workflow
  create_reactor_lem s a b c d r first second executor stream same fresh made =
      let there : lookup first.name (insert first.name a s.reactors) ≡ some a =
        lookup-insert_self first.name a s.reactors in
      let there' : lookup second.name (insert first.name a s.reactors) ≡ some a =
        subst (λ n. lookup n (insert first.name a s.reactors) ≡ some a) same there in
      rw fresh (rw (made, create) (refl, (rw there'), (rw (there, create_workflow))))
