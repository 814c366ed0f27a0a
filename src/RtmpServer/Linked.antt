-- ===== src/RtmpServer/Linked.antt =====
-- What a port notes of its connections at its stream keys agrees with the states of the connections.
pub mod Publish
pub mod Leave
pub mod Clean
pub mod Registrants
pub mod Requests
pub mod Sockets
use mmids_core.Common.{
  String, ◌≡◌, ◌∙◌, subst, ◌≢◌, inl, inr, true, false, Option, none, some, Bool-cases, Eq, ◌==◌,
  nat_eq, string_eq, ==_eq, Map, keys, lookup, insert, remove, contains_key, lookup-insert,
  lookup-remove, lookup-insert_ne, ◌⊎◌, ==_ne,
}
use mmids_core.RtmpServer.Types.{ConnectionId}
use mmids_core.RtmpServer.State.{
  StreamKeyConnections, RtmpAppMapping, ConnectionState, no_state, waiting_for_publish_validation,
  waiting_for_watch_validation, publishing, watching, Connection, PortMapping, no_connections,
  put_key, put_connection,
}
use mmids_core.RtmpServer.Views.{key_in, key_of, state_in}

-- The connections at a key are those that publish or watch it, but for some that are bad.
pub record AgreesBut (Bad : ConnectionId → Type 0) (c : StreamKeyConnections)
    (state : ConnectionId → Option ConnectionState) (app key : String) : Type 0 where
  pub publishes :
      (id : ConnectionId) → c.publisher ≡ some id → Bad id ⊎ (state id ≡ some (publishing app key))
  pub watches :
      (id : ConnectionId)
      → contains_key id c.watchers ≡ true
      → Bad id ⊎ (state id ≡ some (watching app key))

-- The connection is not at the key, or is bad.
pub record NotInBut (Bad : ConnectionId → Type 0) (c : StreamKeyConnections) (id : ConnectionId)
    : Type 0 where
  pub no_publisher : c.publisher ≡ some id → Bad id
  pub no_watcher : contains_key id c.watchers ≡ true → Bad id

abbrev pub Idle : Option ConnectionState → Type 0
Idle none = Unit
Idle (some no_state) = Unit
Idle (some (waiting_for_publish_validation app key)) = Unit
Idle (some (waiting_for_watch_validation app key)) = Unit
Idle (some (publishing app key)) = ⊥
Idle (some (watching app key)) = ⊥

pub empty-Agrees :
    (Bad : ConnectionId → Type 0) (state : ConnectionId → Option ConnectionState) (app key : String)
    → AgreesBut Bad no_connections state app key
unfolding lookup
empty-Agrees Bad state app key = record {
  publishes = λ id h. absurd (cc);
  watches = λ id h. absurd (cc);
}

abbrev States : Type 0
States = ConnectionId → Option ConnectionState

module _ {Bad : ConnectionId → Type 0} {c : StreamKeyConnections} {state : States}
    {app key : String} where
  pub Idle-NotIn :
      AgreesBut Bad c state app key → (id : ConnectionId) → Idle (state id) → NotInBut Bad c id
  Idle-NotIn v id idle = record {
    no_publisher =
        λ h. elim (v.publishes id h) [ inl bad ↦ bad | inr e ↦ absurd (subst Idle e idle) ];
    no_watcher = λ h. elim (v.watches id h) [ inl bad ↦ bad | inr e ↦ absurd (subst Idle e idle) ];
  }

  pub Agrees-frame :
      (state' : ConnectionId → Option ConnectionState) (id : ConnectionId)
      → ((x : ConnectionId) → id ≢ x → state' x ≡ state x)
      → NotInBut Bad c id
      → AgreesBut Bad c state app key
      → AgreesBut Bad c state' app key
  Agrees-frame state' id same out v = record {
    publishes = λ x h. elim (Bool-cases (id == x)) [
      | inl e ↦ inl (subst Bad (==_eq id x e) (out.no_publisher (rw (==_eq id x e) h)))
      | inr n ↦ elim (v.publishes x h) [
        | inl bad ↦ inl bad
        | inr e ↦ inr (same x (==_ne id x n) ∙ e)
      ]
    ];
    watches = λ x h. elim (Bool-cases (id == x)) [
      | inl e ↦ inl (subst Bad (==_eq id x e) (out.no_watcher (rw (==_eq id x e) h)))
      | inr n ↦ elim (v.watches x h) [ inl bad ↦ inl bad | inr e ↦ inr (same x (==_ne id x n) ∙ e) ]
    ];
  }

module _ {C : Type 0} where
  abbrev pub LinkedBut : (ConnectionId → Type 0) → PortMapping C → Type 0
  LinkedBut Bad p =
      (app key : String) → AgreesBut Bad (key_of p app key) (state_in p.connections) app key

  abbrev pub AbsentBut : (ConnectionId → Type 0) → PortMapping C → ConnectionId → Type 0
  AbsentBut Bad p id = (app key : String) → NotInBut Bad (key_of p app key) id

module _ {Bad : ConnectionId → Type 0} {C : Type 0} where
  pub Bad-Absent : (p : PortMapping C) (id : ConnectionId) → Bad id → (AbsentBut Bad) p id
  Bad-Absent p id bad app key = record { no_publisher = λ h. bad; no_watcher = λ h. bad }

  pub Idle-Absent :
      (p : PortMapping C) (id : ConnectionId)
      → (LinkedBut Bad) p
      → Idle (state_in p.connections id)
      → (AbsentBut Bad) p id
  Idle-Absent p id v idle app key = Idle-NotIn (v app key) id idle

  -- Another state of a connection that stands at no key.
  pub connections-Linked :
      (p : PortMapping C) (id : ConnectionId) (connections : Map ConnectionId Connection)
      → ((x : ConnectionId) → id ≢ x → lookup x connections ≡ lookup x p.connections)
      → (AbsentBut Bad) p id
      → (LinkedBut Bad) p
      → (LinkedBut Bad) (record p { connections = connections })
  unfolding key_of
  connections-Linked p id connections same out v app key =
      Agrees-frame (state_in connections) id (λ x n. rw (same x n, state_in)) (out app key)
        (v app key)

  pub put_connection-Linked :
      (p : PortMapping C) (id : ConnectionId) (c : Connection)
      → (AbsentBut Bad) p id
      → (LinkedBut Bad) p
      → (LinkedBut Bad) (put_connection p id c)
  unfolding put_connection
  put_connection-Linked p id c out v =
      connections-Linked p id (insert id c p.connections)
        (λ x n. lookup-insert_ne id x c p.connections n) out v

  pub put_connection-Absent :
      (p : PortMapping C) (id : ConnectionId) (c : Connection)
      → (AbsentBut Bad) p id
      → (AbsentBut Bad) (put_connection p id c) id
  unfolding key_of put_connection
  put_connection-Absent p id c out = out

  -- Another app, whose keys agree.
  pub app-Linked :
      (p : PortMapping C) (app : String) (a : RtmpAppMapping C)
      → ((key : String)
          → AgreesBut Bad (key_in a.active_stream_keys key) (state_in p.connections) app key)
      → (LinkedBut Bad) p
      → (LinkedBut Bad) (record p { rtmp_applications = insert app a p.rtmp_applications })
  unfolding key_of
  app-Linked p app a keys v i j = elim (Bool-cases (app == i)) [
    | inl h ↦
        rw (lookup-insert app i a p.rtmp_applications, h, key_of) (rw (← ==_eq app i h) (keys j))
    | inr h ↦ rw (lookup-insert app i a p.rtmp_applications, h, key_of) (v i j)
  ]

  pub remove_app-Linked :
      (p : PortMapping C) (app : String)
      → (LinkedBut Bad) p
      → (LinkedBut Bad) (record p { rtmp_applications = remove app p.rtmp_applications })
  unfolding key_of
  remove_app-Linked p app v i j = elim (Bool-cases (app == i)) [
    | inl h ↦ rw (lookup-remove app i p.rtmp_applications, h, key_of) (empty-Agrees Bad _ i j)
    | inr h ↦ rw (lookup-remove app i p.rtmp_applications, h, key_of) (v i j)
  ]

  -- The keys of an app that is there.
  pub in_app-Agrees :
      (p : PortMapping C) (app : String) (a : RtmpAppMapping C)
      → lookup app p.rtmp_applications ≡ some a
      → (LinkedBut Bad) p
      → (key : String)
      → AgreesBut Bad (key_in a.active_stream_keys key) (state_in p.connections) app key
  unfolding key_of
  in_app-Agrees p app a e v key = rw (e, key_of) at (v app key)

  pub put_key-Linked :
      (p : PortMapping C) (app : String) (a : RtmpAppMapping C) (key : String)
      (c : StreamKeyConnections)
      → lookup app p.rtmp_applications ≡ some a
      → AgreesBut Bad c (state_in p.connections) app key
      → (LinkedBut Bad) p
      → (LinkedBut Bad) (put_key p app a key c)
  unfolding put_key
  put_key-Linked p app a key c e new v =
      app-Linked p app (record a { active_stream_keys = insert key c a.active_stream_keys })
        (λ j. elim (Bool-cases (key == j)) [
          | inl h ↦ rw (lookup-insert key j c a.active_stream_keys, h) (rw (← ==_eq key j h) new)
          | inr h ↦ rw (lookup-insert key j c a.active_stream_keys, h) (in_app-Agrees p app a e v j)
        ])
        v

-- The connections at a key are those that publish or watch it.
pub record Agrees (c : StreamKeyConnections) (state : ConnectionId → Option ConnectionState)
    (app key : String) : Type 0 where
  pub publishes : (id : ConnectionId) → c.publisher ≡ some id → state id ≡ some (publishing app key)
  pub watches :
      (id : ConnectionId) → contains_key id c.watchers ≡ true → state id ≡ some (watching app key)

pub record NotIn (c : StreamKeyConnections) (id : ConnectionId) : Type 0 where
  pub no_publisher : c.publisher ≢ some id
  pub no_watcher : contains_key id c.watchers ≡ false

module _ {C : Type 0} where
  abbrev pub Linked : PortMapping C → Type 0
  Linked p = (app key : String) → Agrees (key_of p app key) (state_in p.connections) app key

  abbrev pub Absent : PortMapping C → ConnectionId → Type 0
  Absent p id = (app key : String) → NotIn (key_of p app key) id

  -- The same with no bad connection.
  pub Linked-LinkedBut : (p : PortMapping C) → Linked p → LinkedBut (λ id. ⊥) p
  Linked-LinkedBut p v app key = record {
    publishes = λ id h. inr ((v app key).publishes id h);
    watches = λ id h. inr ((v app key).watches id h);
  }

  pub LinkedBut-Linked : (p : PortMapping C) → LinkedBut (λ id. ⊥) p → Linked p
  LinkedBut-Linked p v app key = record {
    publishes = λ id h. elim ((v app key).publishes id h) [ inl bad ↦ absurd bad | inr e ↦ e ];
    watches = λ id h. elim ((v app key).watches id h) [ inl bad ↦ absurd bad | inr e ↦ e ];
  }

  pub AbsentBut-Absent :
      (p : PortMapping C) (id : ConnectionId) → AbsentBut (λ id. ⊥) p id → Absent p id
  AbsentBut-Absent p id out app key = record {
    no_publisher = λ h. absurd ((out app key).no_publisher h);
    no_watcher = elim (Bool-cases (contains_key id (key_of p app key).watchers)) [
      | inl h ↦ absurd ((out app key).no_watcher h)
      | inr h ↦ h
    ];
  }

  -- More connections may be bad.
  pub weaken-Linked :
      (Bad Worse : ConnectionId → Type 0)
      → ((id : ConnectionId) → Bad id → Worse id)
      → (p : PortMapping C) → LinkedBut Bad p
      → LinkedBut Worse p
  weaken-Linked Bad Worse f p v app key = record {
    publishes =
        λ id h. elim ((v app key).publishes id h) [ inl bad ↦ inl (f id bad) | inr e ↦ inr e ];
    watches = λ id h. elim ((v app key).watches id h) [ inl bad ↦ inl (f id bad) | inr e ↦ inr e ];
  }
