-- ===== src/RtmpServer/Stale.antt =====
-- The notice that a registrant is gone names only its port, app and stream key.
use mmids_core.Common.{
  ℕ, String, ◌≡◌, refl, inl, inr, Bool, true, false, not, ◌&&◌, Option, none, some, [], arith,
  if◌then◌else◌, ap, is_some, Bool-cases, Option-cases, nat_eq, string_eq, is_empty, or_default,
  lookup, remove, contains_key, lookup-insert_self, lookup-remove_self, subst,
}
use mathlib.Core.Option.{some-injective}
use mmids_core.Workflows.Media.{StreamId}
use mmids_core.Workflows.Requests.{Sender}
use mmids_core.RtmpServer.Types.{
  StreamKeyRegistration, any_key, exact, registration_eq, IpRestriction, RegistrationType,
  listen_for_publishers, remove_registration,
}
use mmids_core.RtmpServer.State.{
  PublishingRegistrant, RtmpAppMapping, PortMapping, RtmpServerEndpointActor, Fresh,
  endpoint_request_received, publishing_registrant_gone, no_registrants,
}
use mmids_core.RtmpServer.Registration.{
  publisher_listener, RegisterListenerParams, can_be_added, add_publisher, add_registrant,
  register_in, register_listener,
}
use mmids_core.RtmpServer.Endpoint.{Round, goes_on, closes, handle, handle_endpoint_request}
use mmids_core.RtmpServer.Registrants.Lasting.{Stands, Spared, Spared-Stands}
use mmids_core.RtmpServer.Removal.{
  put_app, remove_publisher_from, in_app, in_port, remove_publish_registration,
}

module _ {C : Type 0} where
  -- The publisher registrant of a port, an app and a stream key.
  abbrev pub registrant_in :
      PortMapping C → String → StreamKeyRegistration → Option (PublishingRegistrant C)
  registrant_in p app key = elim (lookup app p.rtmp_applications) [
    | none ↦ none
    | some a ↦ lookup key a.publisher_registrants
  ]

  abbrev pub registrant_at :
      RtmpServerEndpointActor C
      → ℕ
      → String
      → StreamKeyRegistration
      → Option (PublishingRegistrant C)
  registrant_at s port app key = elim (lookup port s.ports) [
    | none ↦ none
    | some p ↦ registrant_in p app key
  ]

room_in_none : (V : Type 0) (key : StreamKeyRegistration) → can_be_added {V = V} key [] ≡ true
unfolding can_be_added lookup
room_in_none V any_key = refl
room_in_none V (exact key) = refl

module _ {C : Type 0} (M : Type 0) where
  removed_in :
      (p : PortMapping C) (app : String) (key : StreamKeyRegistration) (a : RtmpAppMapping C)
      → contains_key key a.publisher_registrants ≡ true
      → registrant_in (remove_publisher_from {M = M} p app key a).0 app key ≡ none
  unfolding remove_publisher_from put_app
  removed_in p app key a h =
      rw (h, remove_publisher_from)
        (elim (Bool-cases
          (is_empty (remove key a.publisher_registrants) && is_empty a.watcher_registrants)) [
            | inl k ↦
                rw (k, put_app)
                  (rw (lookup-remove_self app p.rtmp_applications, registrant_in) refl)
            | inr k ↦
                rw (k, put_app)
                  (rw (lookup-insert_self app _ p.rtmp_applications, registrant_in)
                    (lookup-remove_self key a.publisher_registrants))
          ])

  removed_at :
      (s : RtmpServerEndpointActor C) (port : ℕ) (app : String) (key : StreamKeyRegistration)
      (r : PublishingRegistrant C)
      → registrant_at s port app key ≡ some r
      → registrant_at (remove_publish_registration {M = M} s port app key).0 port app key ≡ none
  unfolding remove_publish_registration in_port in_app
  removed_at s port app key r h = elim (Option-cases (lookup port s.ports)) [
    | inl e ↦ let nothing = rw (e, registrant_at) at h in cc
    | inr (p, e) ↦ elim (Option-cases (lookup app p.rtmp_applications)) [
      | inl f ↦
          let nothing = rw (e, registrant_at) at h in
          let nothing' = rw (f, registrant_in) at nothing in cc
      | inr (a, f) ↦
          let there = rw (e, registrant_at) at h in
          let there' = rw (f, registrant_in) at there in
          rw (e, in_port)
            (rw (lookup-insert_self port _ s.ports, registrant_at)
              (rw (f, in_app) (removed_in p app key a (rw there' refl))))
    ]
  ]

  -- The map of a port once a registrant of it is removed: its TLS setting stays, and the key has room
  -- if no other registrant was in the way.
  removed_room :
      (p : PortMapping C) (app : String) (key : StreamKeyRegistration) (a : RtmpAppMapping C)
      → contains_key key a.publisher_registrants ≡ true
      → can_be_added key (remove key a.publisher_registrants) ≡ true
      → let q = (remove_publisher_from {M = M} p app key a).0 in
        (q.tls ≡ p.tls)
        × (can_be_added key
              (or_default (lookup app q.rtmp_applications) no_registrants).publisher_registrants
            ≡ true)
  unfolding remove_publisher_from put_app
  removed_room p app key a h room =
      rw (h, remove_publisher_from)
        (elim (Bool-cases
          (is_empty (remove key a.publisher_registrants) && is_empty a.watcher_registrants)) [
            | inl k ↦
                rw (k, put_app)
                  (
                    refl,
                    rw (lookup-remove_self app p.rtmp_applications, or_default)
                        (room_in_none (PublishingRegistrant C) key),
                  )
            | inr k ↦
                rw (k, put_app)
                  (refl, rw (lookup-insert_self app _ p.rtmp_applications, or_default) room)
          ])

  -- A registrant that has room joins.
  joined :
      (s : RtmpServerEndpointActor C) (fresh : Fresh) (params : RegisterListenerParams C)
      (channel : Sender) (stream_id : Option StreamId) (approval : Bool) (p : PortMapping C)
      → params.listener ≡ publisher_listener channel stream_id approval
      → lookup params.port s.ports ≡ some p
      → p.tls ≡ params.use_tls
      → can_be_added params.stream_key
          (or_default
            (lookup params.rtmp_app p.rtmp_applications)
            no_registrants).publisher_registrants
        ≡ true
      → Stands params.port params.rtmp_app params.stream_key
          (record {
            response_channel = channel;
            stream_id = stream_id;
            ip_restrictions = params.ip_restrictions;
            requires_registrant_approval = approval;
            cancellation_notifier = fresh.cancellation;
          })
          (register_listener {M = M} s fresh params).0
  unfolding register_listener register_in add_registrant add_publisher
  joined s fresh params channel stream_id approval p listener e tls free =
      rw (e, register_listener)
        (rw (same, register_listener)
          (record {
            port_map = _;
            there = lookup-insert_self params.port _ s.ports;
            holds = record {
              app_map = _;
              registered = lookup-insert_self params.rtmp_app _ p.rtmp_applications;
              held =
                  rw (listener, free, add_registrant, add_publisher)
                    (lookup-insert_self params.stream_key _ _);
            };
          }))
    where
      same : (if p.tls then not params.use_tls else params.use_tls) ≡ false
      same = ground (arith, tls)

  removed_port :
      (s : RtmpServerEndpointActor C) (port : ℕ) (app : String) (key : StreamKeyRegistration)
      (p : PortMapping C) (a : RtmpAppMapping C)
      → lookup port s.ports ≡ some p
      → lookup app p.rtmp_applications ≡ some a
      → lookup port (remove_publish_registration {M = M} s port app key).0.ports
        ≡ some (remove_publisher_from {M = M} p app key a).0
  unfolding remove_publish_registration in_port in_app
  removed_port s port app key p a e i =
      rw (e, in_port) (rw (lookup-insert_self port _ s.ports) (rw (i, in_app) refl))

  Stands-registrant_at :
      (s : RtmpServerEndpointActor C) (port : ℕ) (app : String) (key : StreamKeyRegistration)
      (r : PublishingRegistrant C)
      → Stands port app key r s
      → registrant_at s port app key ≡ some r
  Stands-registrant_at s port app key r v =
      rw (v.there, registrant_at) (rw (v.holds.registered, registrant_in) v.holds.held)

module _ {C : Type 0} (M : Type 0) (within : C → ℕ → Bool) where
  abbrev pub state_of : Round C M → Option (RtmpServerEndpointActor C)
  state_of (goes_on s effects) = some s
  state_of closes = none

  -- A publisher registrant is removed on request; another one registers for the same port, app and
  -- stream key, with the TLS setting of the port, and no other registrant of the app stands in its
  -- way; then come any rounds in which nothing ends that one, and the notice that a registrant of
  -- these is gone, which the removal of the first one has caused. After the removal none is
  -- registered there, until the notice the second one is, with what it asked for, and after the
  -- notice none is, though nothing ended the second one.
  pub stale_registrant_gone :
      (port : ℕ) (app : String) (key : StreamKeyRegistration) (first : PublishingRegistrant C)
      (s t u v w : RtmpServerEndpointActor C) (p : PortMapping C) (a : RtmpAppMapping C)
      (f g h : Fresh) (channel : Sender) (stream_id : Option StreamId)
      (restrictions : IpRestriction C) (approval : Bool)
      → lookup port s.ports ≡ some p
      → lookup app p.rtmp_applications ≡ some a
      → lookup key a.publisher_registrants ≡ some first
      → can_be_added key (remove key a.publisher_registrants) ≡ true
      → state_of (
          handle within s f (
            endpoint_request_received
              (remove_registration RegistrationType.publisher port app key)))
        ≡ some t
      → state_of (
          handle within t g (
            endpoint_request_received
              (listen_for_publishers port app key channel stream_id restrictions p.tls approval)))
        ≡ some u
      → Spared M within port app key u v
      → state_of (handle within v h (publishing_registrant_gone port app key)) ≡ some w
      → (registrant_at t port app key ≡ none)
        × (registrant_at v port app key
            ≡ some (record {
              response_channel = channel;
              stream_id = stream_id;
              ip_restrictions = restrictions;
              requires_registrant_approval = approval;
              cancellation_notifier = g.cancellation;
            }))
        × (registrant_at w port app key ≡ none)
  unfolding handle handle_endpoint_request
  stale_registrant_gone port app key first s t u v w p a f g h channel stream_id restrictions
        approval e i k room removal listening spared notice =
      let before : registrant_at s port app key ≡ some first =
        rw (e, registrant_at) (rw (i, registrant_in) k) in
      let room_left = removed_room M p app key a (ap is_some k) room in
      let at_t =
        subst
          (λ (x : RtmpServerEndpointActor C).
            lookup port x.ports ≡ some (remove_publisher_from {M = M} p app key a).0)
          (some-injective _ _ removal) (removed_port M s port app key p a e i) in
      let stands =
        Spared-Stands M within port app key _ u v
          (subst (Stands port app key _) (some-injective _ _ listening)
            (joined M t g _ channel stream_id approval _ refl at_t room_left.0 room_left.1))
          spared in
      let second = Stands-registrant_at M v port app key _ stands in
      (
        subst (λ x. registrant_at x port app key ≡ none) (some-injective _ _ removal)
            (removed_at M s port app key first before),
        second,
        subst (λ x. registrant_at x port app key ≡ none) (some-injective _ _ notice)
            (removed_at M v port app key _ second),
      )
