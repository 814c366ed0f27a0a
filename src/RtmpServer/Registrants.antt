-- ===== src/RtmpServer/Registrants.antt =====
-- Who is registered at a port, and that the handlers of connections leave that as it is: the handlers of
-- mmids-rtmp/src/rtmp_server/actor/mod.rs that change stream keys and connections.
pub mod Requests
pub mod Sole
pub mod Found
pub mod Held
pub mod Lasting
use mmids_core.Common.{
  ℕ, String, ◌≡◌, refl, sym, ap, inl, inr, Bool, not, ◌&&◌, Option, none, some, Bool-cases,
  Option-cases, Eq, ◌==◌, nat_eq, string_eq, ==_eq, Map, or_default, lookup, insert, lookup-insert,
}
use mmids_core.Workflows.Requests.{Sender}
use mmids_core.RtmpServer.Types.{
  ConnectionId, StreamKeyRegistration, is_ip_allowed, registration_eq,
}
use mmids_core.RtmpServer.State.{
  PublishingRegistrant, WatcherRegistrant, StreamKeyConnections, RtmpAppMapping, Connection,
  PortMapping, Fresh, find_registrant, put_key, put_connection, no_connections,
}
use mmids_core.RtmpServer.Publishing.{
  publish_or_ask, publish_on_key, handle_connection_request_publish, leave_key, leave_publishing,
}
use mmids_core.RtmpServer.Watching.{watch_or_ask, handle_connection_request_watch, leave_watching}

-- The registrants of an app, and those of an app of a port.
abbrev pub Registrants : Type 0 → Type 0
Registrants C =
    Map StreamKeyRegistration (PublishingRegistrant C)
    × Map StreamKeyRegistration (WatcherRegistrant C)

module _ {C : Type 0} where
  abbrev pub registrants_of : RtmpAppMapping C → Registrants C
  registrants_of a = (a.publisher_registrants, a.watcher_registrants)

  abbrev pub of_app : Option (RtmpAppMapping C) → Option (Registrants C)
  of_app none = none
  of_app (some a) = some (registrants_of a)

  unfoldable pub registrants : PortMapping C → String → Option (Registrants C)
  registrants p app = of_app (lookup app p.rtmp_applications)

  -- The registrants of all apps stand as they were.
  abbrev pub Unmoved : PortMapping C → PortMapping C → Type 0
  Unmoved p q = (app : String) → registrants q app ≡ registrants p app

  pub put_key-Unmoved :
      (p : PortMapping C) (app : String) (a : RtmpAppMapping C) (key : String)
      (c : StreamKeyConnections)
      → lookup app p.rtmp_applications ≡ some a
      → Unmoved p (put_key p app a key c)
  unfolding registrants put_key
  put_key-Unmoved p app a key c e i = elim (Bool-cases (app == i)) [
    | inl h ↦
        rw (lookup-insert app i changed p.rtmp_applications, h, registrants)
          (sym (ap of_app (rw (==_eq app i h) at e)))
    | inr h ↦ rw (lookup-insert app i changed p.rtmp_applications, h, registrants) refl
  ]
    where
      changed : RtmpAppMapping C
      changed = record a { active_stream_keys = insert key c a.active_stream_keys }

  pub put_connection-Unmoved :
      (p : PortMapping C) (id : ConnectionId) (c : Connection) → Unmoved p (put_connection p id c)
  unfolding registrants put_connection
  put_connection-Unmoved p id c i = refl

module _ {C : Type 0} (M : Type 0) (id : ConnectionId) (p : PortMapping C) (app key : String) where
  leave_key-Unmoved :
      (a : RtmpAppMapping C) (c : StreamKeyConnections)
      → lookup app p.rtmp_applications ≡ some a
      → Unmoved p (leave_key {M = M} p id app key a c).0
  unfolding leave_key
  leave_key-Unmoved a c e = elim (Option-cases c.publisher) [
    | inl h ↦ rw (h, leave_key) (λ i. refl)
    | inr (other, h) ↦ elim (Bool-cases (other == id)) [
      | inl same ↦ rw (h, same, leave_key) (put_key-Unmoved p app a key _ e)
      | inr differs ↦ rw (h, differs, leave_key) (λ i. refl)
    ]
  ]

  pub leave_publishing-Unmoved : Unmoved p (leave_publishing {M = M} p id app key).0
  unfolding leave_publishing
  leave_publishing-Unmoved = elim (Option-cases (lookup app p.rtmp_applications)) [
    | inl e ↦ rw (e, leave_publishing) (λ i. refl)
    | inr (a, e) ↦ elim (Option-cases (lookup key a.active_stream_keys)) [
      | inl f ↦ rw (e, f, leave_publishing) (λ i. refl)
      | inr (c, f) ↦ rw (e, f, leave_publishing) (leave_key-Unmoved a c e)
    ]
  ]

  pub leave_watching-Unmoved : Unmoved p (leave_watching {M = M} p id app key).0
  unfolding leave_watching
  leave_watching-Unmoved = elim (Option-cases (lookup app p.rtmp_applications)) [
    | inl e ↦ rw (e, leave_watching) (λ i. refl)
    | inr (a, e) ↦ elim (Option-cases (lookup key a.active_stream_keys)) [
      | inl f ↦ rw (e, f, leave_watching) (λ i. refl)
      | inr (c, f) ↦ rw (e, f, leave_watching) (put_key-Unmoved p app a key _ e)
    ]
  ]

module _ {C : Type 0} (M : Type 0) (within : C → ℕ → Bool) (id : ConnectionId) (p : PortMapping C)
    (port : ℕ) (app key : String) (updates : Option Sender) (fresh : Fresh) where
  module _ (n : Connection) (a : RtmpAppMapping C)
      (e : lookup app p.rtmp_applications ≡ some a) where
    publish_or_ask-Unmoved :
        (r : PublishingRegistrant C) (c : StreamKeyConnections)
        → Unmoved p (publish_or_ask {M = M} within id p port app key updates fresh n a r c).0
    unfolding publish_or_ask put_connection put_key registrants
    publish_or_ask-Unmoved r c =
        elim (Bool-cases (is_ip_allowed within n.socket_address r.ip_restrictions)) [
          | inr h ↦ rw (h, publish_or_ask) (put_key-Unmoved p app a key c e)
          | inl h ↦
              elim (Bool-cases
                (r.requires_registrant_approval && not n.received_registrant_approval)) [
                  | inl k ↦ rw (h, k, publish_or_ask) (put_key-Unmoved p app a key c e)
                  | inr k ↦ rw (h, k, publish_or_ask) (put_key-Unmoved p app a key _ e)
                ]
        ]

    publish_on_key-Unmoved :
        (r : PublishingRegistrant C)
        → Unmoved p (publish_on_key {M = M} within id p port app key updates fresh n a r).0
    unfolding publish_on_key
    publish_on_key-Unmoved r =
        elim (Option-cases
          (or_default (lookup key a.active_stream_keys) no_connections).publisher) [
            | inl h ↦ rw (h, publish_on_key) (publish_or_ask-Unmoved r _)
            | inr (other, h) ↦ rw (h, publish_on_key) (put_key-Unmoved p app a key _ e)
          ]

    watch_or_ask-Unmoved :
        (r : WatcherRegistrant C)
        → Unmoved p (watch_or_ask {M = M} within id p port app key updates fresh n a r).0
    unfolding watch_or_ask put_connection registrants
    watch_or_ask-Unmoved r =
        elim (Bool-cases (is_ip_allowed within n.socket_address r.ip_restrictions)) [
          | inr h ↦ rw (h, watch_or_ask) (λ i. refl)
          | inl h ↦
              elim (Bool-cases
                (r.requires_registrant_approval && not n.received_registrant_approval)) [
                  | inl k ↦ rw (h, k, watch_or_ask) (λ i. refl)
                  | inr k ↦ rw (h, k, watch_or_ask) (put_key-Unmoved p app a key _ e)
                ]
        ]

  pub request_publish-Unmoved :
      Unmoved p (handle_connection_request_publish {M = M} within id p port app key updates fresh).0
  unfolding handle_connection_request_publish
  request_publish-Unmoved = elim (Option-cases (lookup id p.connections)) [
    | inl h ↦ rw (h, handle_connection_request_publish) (λ i. refl)
    | inr (n, h) ↦ elim (Option-cases (lookup app p.rtmp_applications)) [
      | inl e ↦ rw (h, e, handle_connection_request_publish) (λ i. refl)
      | inr (a, e) ↦ elim (Option-cases (find_registrant key a.publisher_registrants)) [
        | inl f ↦ rw (h, e, f, handle_connection_request_publish) (λ i. refl)
        | inr (r, f) ↦
            rw (h, e, f, handle_connection_request_publish) (publish_on_key-Unmoved n a e r)
      ]
    ]
  ]

  pub request_watch-Unmoved :
      Unmoved p (handle_connection_request_watch {M = M} within id p port app key updates fresh).0
  unfolding handle_connection_request_watch
  request_watch-Unmoved = elim (Option-cases (lookup id p.connections)) [
    | inl h ↦ rw (h, handle_connection_request_watch) (λ i. refl)
    | inr (n, h) ↦ elim (Option-cases (lookup app p.rtmp_applications)) [
      | inl e ↦ rw (h, e, handle_connection_request_watch) (λ i. refl)
      | inr (a, e) ↦ elim (Option-cases (find_registrant key a.watcher_registrants)) [
        | inl f ↦ rw (h, e, f, handle_connection_request_watch) (λ i. refl)
        | inr (r, f) ↦ rw (h, e, f, handle_connection_request_watch) (watch_or_ask-Unmoved n a e r)
      ]
    ]
  ]
