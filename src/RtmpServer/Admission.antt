-- ===== src/RtmpServer/Admission.antt =====
-- When a connection is let in as a publisher, and that it displaces no other.
use mmids_core.Common.{
  ℕ, String, ◌≡◌, refl, sym, ap, ◌∙◌, subst, ◌↔◌, ◌⊎◌, inl, inr, Bool, true, false, not, ◌&&◌,
  Option, none, some, List, [], ◌∷◌, if◌then◌else◌, Bool-cases, Option-cases, ◌==◌, nat_eq,
  string_eq, ==_refl, ==_eq, lookup, insert, lookup-insert, lookup-insert_self,
}
use mmids_core.Workflows.Requests.{Sender}
use mmids_core.RtmpServer.Types.{
  ConnectionId, is_ip_allowed, registration_eq, publisher_requiring_approval,
}
use mmids_core.RtmpServer.State.{
  PublishingRegistrant, StreamKeyConnections, RtmpAppMapping, waiting_for_publish_validation,
  publishing, Connection, PortMapping, Effect, tell_publisher, await_validation, Fresh,
  find_registrant, put_key, put_connection,
}
use mmids_core.RtmpServer.Publishing.{
  publish, publish_or_ask, publish_on_key, handle_connection_request_publish,
}
use mmids_core.RtmpServer.Views.{key_in, key_of, state_in}

-- The connection and the registrant that a request is about, with all conditions but the approval.
pub record Admissible {C : Type 0} (within : C → ℕ → Bool) (p : PortMapping C) (id : ConnectionId)
    (app key : String) (n : Connection) (r : PublishingRegistrant C) : Type 0 where
  pub app_map : RtmpAppMapping C
  pub connected : lookup id p.connections ≡ some n
  pub registered : lookup app p.rtmp_applications ≡ some app_map
  pub for_key : find_registrant key app_map.publisher_registrants ≡ some r
  pub free : (key_of p app key).publisher ≡ none
  pub address : is_ip_allowed within n.socket_address r.ip_restrictions ≡ true

-- The connection is let in: an approval is not asked for, or was given.
pub record MayPublish {C : Type 0} (within : C → ℕ → Bool) (p : PortMapping C) (id : ConnectionId)
    (app key : String) : Type 0 where
  pub connection : Connection
  pub registrant : PublishingRegistrant C
  pub admissible : Admissible within p id app key connection registrant
  pub approval :
      (registrant.requires_registrant_approval && not connection.received_registrant_approval)
      ≡ false

module _ {C : Type 0} (p : PortMapping C) (app : String) (a : RtmpAppMapping C) (key : String) where
  pub key_of-app :
      lookup app p.rtmp_applications ≡ some a
      → (j : String) → key_of p app j ≡ key_in a.active_stream_keys j
  unfolding key_of
  key_of-app e j = rw (e, key_of) refl

  key_of-put_key :
      (c : StreamKeyConnections)
      → lookup app p.rtmp_applications ≡ some a
      → (i j : String)
      → key_of (put_key p app a key c) i j
        ≡ (if app == i then (if key == j then c else key_of p i j) else key_of p i j)
  unfolding key_of put_key
  key_of-put_key c e i j = elim (Bool-cases (app == i)) [
    | inr h ↦ rw (lookup-insert app i changed p.rtmp_applications, h, key_of) refl
    | inl h ↦
        rw (lookup-insert app i changed p.rtmp_applications, h, key_of)
          (elim (Bool-cases (key == j)) [
            | inl k ↦ rw (lookup-insert key j c a.active_stream_keys, k) refl
            | inr k ↦
                rw (lookup-insert key j c a.active_stream_keys, k)
                  (subst (λ x. key_in a.active_stream_keys j ≡ key_of p x j) (==_eq app i h)
                    (sym (key_of-app e j)))
          ])
  ]
    where
      changed : RtmpAppMapping C
      changed = record a { active_stream_keys = insert key c a.active_stream_keys }

  pub key_of-put :
      (c : StreamKeyConnections)
      → lookup app p.rtmp_applications ≡ some a
      → key_of (put_key p app a key c) app key ≡ c
  key_of-put c e = rw (key_of-put_key c e app key, ==_refl app, ==_refl key) refl

  -- A property of the connections at each key.
  put_key-keeps :
      (Q : StreamKeyConnections → Type 0) (c : StreamKeyConnections)
      → lookup app p.rtmp_applications ≡ some a
      → (i j : String) → (Q (key_in a.active_stream_keys key) → Q c)
      → Q (key_of p i j)
      → Q (key_of (put_key p app a key c) i j)
  put_key-keeps Q c e i j changes old = elim (Bool-cases (app == i)) [
    | inr h ↦ rw (key_of-put_key c e i j, h) old
    | inl h ↦
        rw (key_of-put_key c e i j, h)
          (elim (Bool-cases (key == j)) [
            | inr k ↦ rw k old
            | inl k ↦ rw k (
                changes (
                  rw (← key_of-app e key) (
                    subst (λ (x : String × String). Q (key_of p x.0 x.1))
                      (sym (cc (==_eq app i h, ==_eq key j k))) old)))
          ])
  ]

  -- Entering a key that is new changes nothing to be seen.
  put_same :
      lookup app p.rtmp_applications ≡ some a
      → (i j : String)
      → key_of (put_key p app a key (key_in a.active_stream_keys key)) i j ≡ key_of p i j
  put_same e i j = put_key-keeps (λ c. c ≡ key_of p i j) _ e i j (λ h. h) refl

module _ {C : Type 0} (M : Type 0) (within : C → ℕ → Bool) (id : ConnectionId) (p : PortMapping C)
    (port : ℕ) (app key : String) (updates : Option Sender) (fresh : Fresh) where
  abbrev pub requested_publish : PortMapping C × List (Effect M)
  requested_publish = handle_connection_request_publish within id p port app key updates fresh

  -- A request leaves all keys as they are, or the connection may publish and is the publisher.
  abbrev Outcome : PortMapping C → Type 0
  Outcome q =
      ((i j : String) → key_of q i j ≡ key_of p i j)
      ⊎ (MayPublish within p id app key
          × ((i j : String)
              → key_of q i j ≡ (
                  if app == i
                  then (if key == j
                      then record (key_of p app key) { publisher = some id }
                      else key_of p i j)
                  else key_of p i j)))

  module _ (n : Connection) (a : RtmpAppMapping C) (r : PublishingRegistrant C)
      (h : lookup id p.connections ≡ some n) (e : lookup app p.rtmp_applications ≡ some a)
      (f : find_registrant key a.publisher_registrants ≡ some r) where
    publish-Outcome :
        (key_of p app key).publisher ≡ none
        → is_ip_allowed within n.socket_address r.ip_restrictions ≡ true
        → (r.requires_registrant_approval && not n.received_registrant_approval) ≡ false
        → Outcome
            (publish {M = M} within id p app key updates fresh n a r
              (key_in a.active_stream_keys key)).0
    unfolding publish put_connection key_of
    publish-Outcome free address approval = inr (
      record {
        connection = n;
        registrant = r;
        admissible = record {
          app_map = a;
          connected = h;
          registered = e;
          for_key = f;
          free = free;
          address = address;
        };
        approval = approval;
      },
      λ i j. rw (key_of-app p app a key e key) (key_of-put_key p app a key _ e i j),
    )

    publish_or_ask-Outcome :
        (key_of p app key).publisher ≡ none
        → Outcome
            (publish_or_ask {M = M} within id p port app key updates fresh n a r
              (key_in a.active_stream_keys key)).0
    unfolding publish_or_ask put_connection key_of
    publish_or_ask-Outcome free =
        elim (Bool-cases (is_ip_allowed within n.socket_address r.ip_restrictions)) [
          | inr k ↦ rw (k, publish_or_ask) (inl (put_same p app a key e))
          | inl k ↦
              elim (Bool-cases
                (r.requires_registrant_approval && not n.received_registrant_approval)) [
                  | inl g ↦ rw (k, g, publish_or_ask) (inl (put_same p app a key e))
                  | inr g ↦ rw (k, g, publish_or_ask) (publish-Outcome free k g)
                ]
        ]

    publish_on_key-Outcome :
        Outcome (publish_on_key {M = M} within id p port app key updates fresh n a r).0
    unfolding publish_on_key
    publish_on_key-Outcome = elim (Option-cases (key_in a.active_stream_keys key).publisher) [
      | inl g ↦
          rw (g, publish_on_key) (publish_or_ask-Outcome (rw (key_of-app p app a key e key) g))
      | inr (other, g) ↦ rw (g, publish_on_key) (inl (put_same p app a key e))
    ]

  request_publish-Outcome : Outcome requested_publish.0
  unfolding handle_connection_request_publish
  request_publish-Outcome = elim (Option-cases (lookup id p.connections)) [
    | inl h ↦ rw (h, handle_connection_request_publish) (inl (λ i j. refl))
    | inr (n, h) ↦ elim (Option-cases (lookup app p.rtmp_applications)) [
      | inl e ↦ rw (h, e, handle_connection_request_publish) (inl (λ i j. refl))
      | inr (a, e) ↦ elim (Option-cases (find_registrant key a.publisher_registrants)) [
        | inl f ↦ rw (h, e, f, handle_connection_request_publish) (inl (λ i j. refl))
        | inr (r, f) ↦
            rw (h, e, f, handle_connection_request_publish) (publish_on_key-Outcome n a r h e f)
      ]
    ]
  ]

  -- Whatever connection asks to publish on whatever stream key, each key that has a publisher keeps
  -- it.
  pub request_publish-publisher :
      (i j : String) (other : ConnectionId)
      → (key_of p i j).publisher ≡ some other
      → (key_of requested_publish.0 i j).publisher ≡ some other
  request_publish-publisher i j other h = elim request_publish-Outcome [
    | inl same ↦ rw (same i j) h
    | inr (may, changed) ↦ rw (changed i j) (kept may)
  ]
    where
      kept :
          MayPublish within p id app key
          → (if app == i
              then (if key == j
                  then record (key_of p app key) { publisher = some id }
                  else key_of p i j)
              else key_of p i j).publisher
            ≡ some other
      kept may = elim (Bool-cases (app == i)) [
        | inr a ↦ rw a h
        | inl a ↦ elim (Bool-cases (key == j)) [
          | inr k ↦ rw (a, k) h
          | inl k ↦
              let free = may.admissible.free in
              let taken : (key_of p app key).publisher ≡ some other =
                rw (==_eq app i a, ==_eq key j k) h in
              cc
        ]
      ]

  -- What happens to a request that is admissible.
  module _ (n : Connection) (r : PublishingRegistrant C)
      (may : Admissible within p id app key n r) where
    admitted :
        (key_in may.app_map.active_stream_keys key).publisher ≡ none
        × (requested_publish
            ≡ publish_or_ask within id p port app key updates fresh n may.app_map r
                (key_in may.app_map.active_stream_keys key))
    unfolding handle_connection_request_publish publish_on_key
    admitted =
        let free = rw (key_of-app p app may.app_map key may.registered key) at may.free in
        (
          free,
          rw
              (
                may.connected, may.registered, may.for_key, free, handle_connection_request_publish,
                publish_on_key,
              )
              refl,
        )

    pub admitted-publish :
        (r.requires_registrant_approval && not n.received_registrant_approval) ≡ false
        → requested_publish
          ≡ publish within id p app key updates fresh n may.app_map r
              (key_in may.app_map.active_stream_keys key)
    unfolding publish_or_ask
    admitted-publish approval = admitted.1 ∙ rw (may.address, approval, publish_or_ask) refl

    pub admitted-asks :
        (r.requires_registrant_approval && not n.received_registrant_approval) ≡ true
        → requested_publish ≡ (
          put_connection
              (put_key p app may.app_map key (key_in may.app_map.active_stream_keys key))
              id
              (record n { state = waiting_for_publish_validation app key }),
          tell_publisher r.response_channel (publisher_requiring_approval id key fresh.channel)
              ∷ await_validation port id fresh.channel
              ∷ [],
        )
    unfolding publish_or_ask
    admitted-asks approval = admitted.1 ∙ rw (may.address, approval, publish_or_ask) refl

  pub publish-publisher :
      (n : Connection) (a : RtmpAppMapping C) (r : PublishingRegistrant C)
      (c : StreamKeyConnections)
      → lookup app p.rtmp_applications ≡ some a
      → let (q, effects) = publish {M = M} within id p app key updates fresh n a r c in
        ((key_of q app key).publisher ≡ some id)
        × (state_in q.connections id ≡ some (publishing app key))
  unfolding publish put_connection key_of put_key
  publish-publisher n a r c e = (
    ap (λ (x : StreamKeyConnections). x.publisher)
        (key_of-put p app a key (record c { publisher = some id }) e),
    rw (lookup-insert_self id (record n { state = publishing app key }) p.connections, state_in)
        refl,
  )

  -- After a connection has asked to publish, it is the publisher of the stream key if and only if it
  -- was before, or it is connected, its app has a registrant for the key, the key has no publisher,
  -- its address is allowed, and an approval is not required or was given.
  pub request_publish_lem :
      ((key_of requested_publish.0 app key).publisher ≡ some id)
      ↔ (((key_of p app key).publisher ≡ some id) ⊎ MayPublish within p id app key)
  request_publish_lem = (
    λ after. elim request_publish-Outcome [
      | inl same ↦ inl (rw (same app key) at after)
      | inr (may, changed) ↦ inr may
    ],
    λ before. elim before [
      | inl h ↦ request_publish-publisher app key id h
      | inr may ↦
          rw (admitted-publish may.connection may.registrant may.admissible may.approval)
            (publish-publisher may.connection may.admissible.app_map may.registrant _
              may.admissible.registered).0
    ],
  )
