-- ===== src/RtmpServer/Linked/Publish.antt =====
-- Requests to publish or to watch keep the port in agreement with its connections.
use mmids_core.Common.{
  ℕ, String, ◌≡◌, refl, inl, inr, Bool, not, ◌&&◌, Option, some, Bool-cases, Option-cases, nat_eq,
  string_eq, Map, lookup, insert, lookup-insert_self, contains_key-insert_cases,
}
use mathlib.Core.Option.{some-injective}
use mmids_core.Workflows.Requests.{Sender}
use mmids_core.RtmpServer.Types.{ConnectionId, is_ip_allowed}
use mmids_core.RtmpServer.State.{
  PublishingRegistrant, WatcherRegistrant, RtmpAppMapping, publishing, watching, Connection,
  PortMapping, Fresh, find_registrant, put_key, put_connection,
}
use mmids_core.RtmpServer.Publishing.{
  publish, publish_or_ask, publish_on_key, handle_connection_request_publish,
}
use mmids_core.RtmpServer.Watching.{watch, watch_or_ask, handle_connection_request_watch}
use mmids_core.RtmpServer.Views.{key_in, state_in}
use mmids_core.RtmpServer.Linked.{
  AgreesBut, LinkedBut, AbsentBut, put_connection-Linked, put_key-Linked, in_app-Agrees,
}

state-put_connection :
    (id : ConnectionId) (c : Connection) (connections : Map ConnectionId Connection)
    → state_in (insert id c connections) id ≡ some c.state
state-put_connection id c connections = rw (lookup-insert_self id c connections, state_in) refl

module _ {Bad : ConnectionId → Type 0} {C : Type 0} (M : Type 0) (within : C → ℕ → Bool) where
  publish-Linked :
      (id : ConnectionId) (p : PortMapping C) (app key : String) (updates : Option Sender)
      (fresh : Fresh) (n : Connection) (a : RtmpAppMapping C) (r : PublishingRegistrant C)
      → lookup app p.rtmp_applications ≡ some a
      → (AbsentBut Bad) p id
      → (LinkedBut Bad) p
      → (LinkedBut Bad)
          (publish {M = M} within id p app key updates fresh n a r
            (key_in a.active_stream_keys key)).0
  unfolding publish put_connection put_key
  publish-Linked id p app key updates fresh n a r e out v =
      put_key-Linked _ app a key _ e
        (record {
          publishes =
              λ x h. inr (rw (← some-injective id x h) (state-put_connection id _ p.connections));
          watches = after.watches;
        })
        (put_connection-Linked p id _ out v)
    where
      after :
          AgreesBut Bad
            (key_in a.active_stream_keys key)
            (state_in (insert id (record n { state = publishing app key }) p.connections))
            app
            key
      after =
          in_app-Agrees _ app a e
            (put_connection-Linked p id (record n { state = publishing app key }) out v) key

  publish_or_ask-Linked :
      (id : ConnectionId) (p : PortMapping C) (port : ℕ) (app key : String)
      (updates : Option Sender) (fresh : Fresh) (n : Connection) (a : RtmpAppMapping C)
      (r : PublishingRegistrant C)
      → lookup app p.rtmp_applications ≡ some a
      → (AbsentBut Bad) p id
      → (LinkedBut Bad) p
      → (LinkedBut Bad)
          (publish_or_ask {M = M} within id p port app key updates fresh n a r
            (key_in a.active_stream_keys key)).0
  unfolding publish_or_ask put_connection put_key
  publish_or_ask-Linked id p port app key updates fresh n a r e out v =
      elim (Bool-cases (is_ip_allowed within n.socket_address r.ip_restrictions)) [
        | inr h ↦ rw (h, publish_or_ask) (entered-Linked p.connections v)
        | inl h ↦
            elim (Bool-cases
              (r.requires_registrant_approval && not n.received_registrant_approval)) [
                | inl k ↦
                    rw (h, k, publish_or_ask)
                      (entered-Linked _ (put_connection-Linked p id _ out v))
                | inr k ↦
                    rw (h, k, publish_or_ask)
                      (publish-Linked id p app key updates fresh n a r e out v)
              ]
      ]
    where
      entered-Linked :
          (connections : Map ConnectionId Connection)
          → (LinkedBut Bad) (record p { connections = connections })
          → (LinkedBut Bad) (
              put_key
                (record p { connections = connections })
                app
                a
                key
                (key_in a.active_stream_keys key))
      entered-Linked connections w =
          put_key-Linked _ app a key _ e (in_app-Agrees _ app a e w key) w

  publish_on_key-Linked :
      (id : ConnectionId) (p : PortMapping C) (port : ℕ) (app key : String)
      (updates : Option Sender) (fresh : Fresh) (n : Connection) (a : RtmpAppMapping C)
      (r : PublishingRegistrant C)
      → lookup app p.rtmp_applications ≡ some a
      → (AbsentBut Bad) p id
      → (LinkedBut Bad) p
      → (LinkedBut Bad) (publish_on_key {M = M} within id p port app key updates fresh n a r).0
  unfolding publish_on_key
  publish_on_key-Linked id p port app key updates fresh n a r e out v =
      elim (Option-cases (key_in a.active_stream_keys key).publisher) [
        | inl none_there ↦
            rw (none_there, publish_on_key)
              (publish_or_ask-Linked id p port app key updates fresh n a r e out v)
        | inr (other, there) ↦
            rw (there, publish_on_key)
              (put_key-Linked p app a key _ e (in_app-Agrees p app a e v key) v)
      ]

  pub request_publish-Linked :
      (id : ConnectionId) (p : PortMapping C) (port : ℕ) (app key : String)
      (updates : Option Sender) (fresh : Fresh)
      → (AbsentBut Bad) p id
      → (LinkedBut Bad) p
      → (LinkedBut Bad)
          (handle_connection_request_publish {M = M} within id p port app key updates fresh).0
  unfolding handle_connection_request_publish
  request_publish-Linked id p port app key updates fresh out v =
      elim (Option-cases (lookup id p.connections)) [
        | inl h ↦ rw (h, handle_connection_request_publish) v
        | inr (n, h) ↦ elim (Option-cases (lookup app p.rtmp_applications)) [
          | inl e ↦ rw (h, e, handle_connection_request_publish) v
          | inr (a, e) ↦ elim (Option-cases (find_registrant key a.publisher_registrants)) [
            | inl f ↦ rw (h, e, f, handle_connection_request_publish) v
            | inr (r, f) ↦
                rw (h, e, f, handle_connection_request_publish)
                  (publish_on_key-Linked id p port app key updates fresh n a r e out v)
          ]
        ]
      ]

  watch-Linked :
      (id : ConnectionId) (p : PortMapping C) (app key : String) (updates : Option Sender)
      (fresh : Fresh) (n : Connection) (a : RtmpAppMapping C) (r : WatcherRegistrant C)
      → lookup app p.rtmp_applications ≡ some a
      → (AbsentBut Bad) p id
      → (LinkedBut Bad) p
      → (LinkedBut Bad)
          (watch {M = M} within id p app key updates fresh n a r
            (key_in a.active_stream_keys key)).0
  unfolding watch put_connection put_key
  watch-Linked id p app key updates fresh n a r e out v =
      put_key-Linked _ app a key _ e
        (record {
          publishes = after.publishes;
          watches = λ x h.
              elim (contains_key-insert_cases id x _ (key_in a.active_stream_keys key).watchers h) [
                | inl same ↦ inr (rw (← same) (state-put_connection id _ p.connections))
                | inr there ↦ after.watches x there
              ];
        })
        (put_connection-Linked p id _ out v)
    where
      after :
          AgreesBut Bad
            (key_in a.active_stream_keys key)
            (state_in (insert id (record n { state = watching app key }) p.connections))
            app
            key
      after =
          in_app-Agrees _ app a e
            (put_connection-Linked p id (record n { state = watching app key }) out v) key

  watch_or_ask-Linked :
      (id : ConnectionId) (p : PortMapping C) (port : ℕ) (app key : String)
      (updates : Option Sender) (fresh : Fresh) (n : Connection) (a : RtmpAppMapping C)
      (r : WatcherRegistrant C)
      → lookup app p.rtmp_applications ≡ some a
      → (AbsentBut Bad) p id
      → (LinkedBut Bad) p
      → (LinkedBut Bad) (watch_or_ask {M = M} within id p port app key updates fresh n a r).0
  unfolding watch_or_ask
  watch_or_ask-Linked id p port app key updates fresh n a r e out v =
      elim (Bool-cases (is_ip_allowed within n.socket_address r.ip_restrictions)) [
        | inr h ↦ rw (h, watch_or_ask) v
        | inl h ↦
            elim (Bool-cases
              (r.requires_registrant_approval && not n.received_registrant_approval)) [
                | inl k ↦ rw (h, k, watch_or_ask) (put_connection-Linked p id _ out v)
                | inr k ↦
                    rw (h, k, watch_or_ask) (watch-Linked id p app key updates fresh n a r e out v)
              ]
      ]

  pub request_watch-Linked :
      (id : ConnectionId) (p : PortMapping C) (port : ℕ) (app key : String)
      (updates : Option Sender) (fresh : Fresh)
      → (AbsentBut Bad) p id
      → (LinkedBut Bad) p
      → (LinkedBut Bad)
          (handle_connection_request_watch {M = M} within id p port app key updates fresh).0
  unfolding handle_connection_request_watch
  request_watch-Linked id p port app key updates fresh out v =
      elim (Option-cases (lookup id p.connections)) [
        | inl h ↦ rw (h, handle_connection_request_watch) v
        | inr (n, h) ↦ elim (Option-cases (lookup app p.rtmp_applications)) [
          | inl e ↦ rw (h, e, handle_connection_request_watch) v
          | inr (a, e) ↦ elim (Option-cases (find_registrant key a.watcher_registrants)) [
            | inl f ↦ rw (h, e, f, handle_connection_request_watch) v
            | inr (r, f) ↦
                rw (h, e, f, handle_connection_request_watch)
                  (watch_or_ask-Linked id p port app key updates fresh n a r e out v)
          ]
        ]
      ]
