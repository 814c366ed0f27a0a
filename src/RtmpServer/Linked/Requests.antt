-- ===== src/RtmpServer/Linked/Requests.antt =====
-- What a connection and its registrant ask for keeps the port in agreement, but for connections that
-- are out of turn.
use mmids_core.Common.{
  ℕ, ◌≡◌, refl, inl, inr, Bool, true, none, some, Option-cases, nat_eq, string_eq, lookup, Option,
  List, [], ◌∷◌, if◌then◌else◌, contains, contains_key, ==_refl,
}
use mmids_core.Workflows.Requests.{Sender}
use mmids_core.RtmpServer.Types.{
  ConnectionId, ConnectionRequest, request_connect_to_app, request_publish, request_watch,
  publish_finished, playback_finished, ValidationResponse, approve, reject, new_connection,
}
use mmids_core.RtmpServer.State.{
  ConnectionState, no_state, waiting_for_publish_validation, waiting_for_watch_validation,
  publishing, watching, Connection, PortMapping, RtmpServerEndpointActor, FutureResult,
  socket_response_received, connection_handler_request_received, Fresh, put_connection,
}
use mmids_core.RtmpServer.Endpoint.{
  handle_connection_handler_request, approved, validate, handle_validation_response,
}
use mmids_core.RtmpServer.Views.{state_in}
use mmids_core.RtmpServer.Linked.{
  LinkedBut, AbsentBut, Idle-Absent, Bad-Absent, put_connection-Linked, put_connection-Absent,
}
use mmids_core.RtmpServer.Linked.Publish.{request_publish-Linked, request_watch-Linked}
use mmids_core.RtmpServer.Linked.Clean.{stop_publish-Linked, stop_watch-Linked}

-- The connection asks to publish or to watch though it already does one of these, or it is new with an
-- id that its port knows.
abbrev pub busy : ConnectionId → Option ConnectionState → List ConnectionId
busy id (some (publishing app key)) = id ∷ []
busy id (some (watching app key)) = id ∷ []
busy id (some no_state) = []
busy id (some (waiting_for_publish_validation app key)) = []
busy id (some (waiting_for_watch_validation app key)) = []
busy id none = []

module _ {C : Type 0} where
  abbrev pub busy_at : RtmpServerEndpointActor C → ℕ → ConnectionId → List ConnectionId
  busy_at s port id = elim (lookup port s.ports) [
    | none ↦ []
    | some p ↦ busy id (state_in p.connections id)
  ]

  abbrev pub known_at : RtmpServerEndpointActor C → ℕ → ConnectionId → List ConnectionId
  known_at s port id = elim (lookup port s.ports) [
    | none ↦ []
    | some p ↦ if contains_key id p.connections then id ∷ [] else []
  ]

abbrev pub out_of_turn :
    {C M : Type 0} → RtmpServerEndpointActor C → FutureResult C M → List ConnectionId
out_of_turn s (connection_handler_request_received port id (request_publish app key)) =
    busy_at s port id
out_of_turn s (connection_handler_request_received port id (request_watch app key)) =
    busy_at s port id
out_of_turn s (socket_response_received port (new_connection id address)) = known_at s port id
out_of_turn s e = []

-- Whoever is out of turn is bad.
abbrev pub Covers :
    {C M : Type 0} → (ConnectionId → Type 0) → RtmpServerEndpointActor C → FutureResult C M → Type 0
Covers Bad s e = (x : ConnectionId) → contains (out_of_turn s e) x ≡ true → Bad x

contains_self : (id : ConnectionId) → contains (id ∷ []) id ≡ true
unfolding contains
contains_self id = rw (==_refl id) refl

module _ {Bad : ConnectionId → Type 0} {C : Type 0} (s : RtmpServerEndpointActor C) (port : ℕ)
    (id : ConnectionId) (p : PortMapping C) (e : lookup port s.ports ≡ some p)
    (v : LinkedBut Bad p) where
  asking-Absent :
      ((x : ConnectionId) → contains (busy_at s port id) x ≡ true → Bad x) → AbsentBut Bad p id
  asking-Absent covers = by_state (state_in p.connections id) refl (rw (e, busy_at) at (covers id))
    where
      by_state :
          (state : Option ConnectionState)
          → state_in p.connections id ≡ state
          → (contains (busy id (state_in p.connections id)) id ≡ true → Bad id)
          → AbsentBut Bad p id
      by_state none q bad = Idle-Absent p id v (rw q tt)
      by_state (some no_state) q bad = Idle-Absent p id v (rw q tt)
      by_state (some (waiting_for_publish_validation app key)) q bad = Idle-Absent p id v (rw q tt)
      by_state (some (waiting_for_watch_validation app key)) q bad = Idle-Absent p id v (rw q tt)
      by_state (some (publishing app key)) q bad = Bad-Absent p id (bad (rw q (contains_self id)))
      by_state (some (watching app key)) q bad = Bad-Absent p id (bad (rw q (contains_self id)))

  pub coming-Absent :
      ((x : ConnectionId) → contains (known_at s port id) x ≡ true → Bad x) → AbsentBut Bad p id
  coming-Absent covers = elim (Option-cases (lookup id p.connections)) [
    | inl h ↦ Idle-Absent p id v (rw (h, state_in) tt)
    | inr (n, h) ↦
        Bad-Absent p id (covers id (rw (e, known_at) (rw (h, contains_key) (contains_self id))))
  ]

module _ {Bad : ConnectionId → Type 0} {C : Type 0} (M : Type 0) (within : C → ℕ → Bool) where
  module _ (id : ConnectionId) (p : PortMapping C) (v : (LinkedBut Bad) p) where
    granted-Linked :
        (n : Connection)
        → (AbsentBut Bad) p id
        → (AbsentBut Bad) (put_connection p id n) id × (LinkedBut Bad) (put_connection p id n)
    granted-Linked n out = (put_connection-Absent p id n out, put_connection-Linked p id n out v)

    approved-Linked :
        (port : ℕ) (updates : Sender) (fresh : Fresh) (n : Connection) (state : ConnectionState)
        → state_in p.connections id ≡ some state
        → (LinkedBut Bad) (approved {M = M} within id port updates fresh p n state).0
    unfolding approved
    approved-Linked port updates fresh n (waiting_for_publish_validation app key) e =
        let (out, w) =
          granted-Linked (record n { received_registrant_approval = true })
            (Idle-Absent p id v (rw e tt)) in
        request_publish-Linked M within id _ port app key (some updates) fresh out w
    approved-Linked port updates fresh n (waiting_for_watch_validation app key) e =
        let (out, w) =
          granted-Linked (record n { received_registrant_approval = true })
            (Idle-Absent p id v (rw e tt)) in
        request_watch-Linked M within id _ port app key (some updates) fresh out w
    approved-Linked port updates fresh n no_state e = v
    approved-Linked port updates fresh n (publishing app key) e = v
    approved-Linked port updates fresh n (watching app key) e = v

    pub validate-Linked :
        (port : ℕ) (response : ValidationResponse) (fresh : Fresh)
        → (LinkedBut Bad) (handle_validation_response {M = M} within id port response fresh p).0
    unfolding handle_validation_response validate
    validate-Linked port response fresh = elim (Option-cases (lookup id p.connections)) [
      | inl e ↦ rw (e, handle_validation_response) v
      | inr (n, e) ↦ rw (e, handle_validation_response) (by_response response n e)
    ]
      where
        by_response :
            (response : ValidationResponse) (n : Connection)
            → lookup id p.connections ≡ some n
            → (LinkedBut Bad) (validate {M = M} within id port response fresh p n).0
        by_response (approve updates) n e =
            approved-Linked port updates fresh n n.state (rw (e, state_in) refl)
        by_response reject n e = v

  pub request-Linked :
      (s : RtmpServerEndpointActor C) (port : ℕ) (id : ConnectionId) (request : ConnectionRequest)
      (fresh : Fresh) (p : PortMapping C)
      → lookup port s.ports ≡ some p
      → Covers {M = M} Bad s (connection_handler_request_received port id request)
      → (LinkedBut Bad) p
      → (LinkedBut Bad) (handle_connection_handler_request {M = M} within id port request fresh p).0
  unfolding handle_connection_handler_request
  request-Linked s port id (request_connect_to_app app) fresh p e covers v = v
  request-Linked s port id (request_publish app key) fresh p e covers v =
      request_publish-Linked M within id p port app key none fresh
        (asking-Absent s port id p e v covers) v
  request-Linked s port id (request_watch app key) fresh p e covers v =
      request_watch-Linked M within id p port app key none fresh
        (asking-Absent s port id p e v covers) v
  request-Linked s port id publish_finished fresh p e covers v = stop_publish-Linked M id p v
  request-Linked s port id playback_finished fresh p e covers v = stop_watch-Linked M id p v
