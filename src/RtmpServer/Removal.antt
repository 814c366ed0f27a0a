-- ===== src/RtmpServer/Removal.antt =====
-- Registrants are removed, and their connections told to disconnect: `remove_publish_registration` and
-- `remove_watcher_registration` of mmids-rtmp/src/rtmp_server/actor/mod.rs.
use mmids_core.Common.{
  ℕ, String, ◌&&◌, Option, none, some, List, [], ◌∷◌, ◌++◌, if◌then◌else◌, nat_eq, string_eq,
  is_empty, Map, keys, lookup, insert, remove, contains_key,
}
use mmids_core.RtmpServer.Types.{
  ConnectionId, StreamKeyRegistration, registration_eq, any_key, exact, disconnect,
}
use mmids_core.RtmpServer.State.{
  StreamKeyConnections, RtmpAppMapping, Connection, PortMapping, RtmpServerEndpointActor, Effect,
  respond,
}

abbrev pub keys_to_remove : StreamKeyRegistration → Map String StreamKeyConnections → List String
keys_to_remove (exact key) active = key ∷ []
keys_to_remove any_key active = keys active

module _ {C : Type 0} where
  -- An app without registrants is removed.
  unfoldable pub put_app : PortMapping C → String → RtmpAppMapping C → PortMapping C
  put_app p rtmp_app app_map = record p {
    rtmp_applications =
        if is_empty app_map.publisher_registrants && is_empty app_map.watcher_registrants
        then remove rtmp_app p.rtmp_applications
        else insert rtmp_app app_map p.rtmp_applications;
  }

module _ {M : Type 0} where
  unfoldable pub disconnect_connection :
      Map ConnectionId Connection → ConnectionId → List (Effect M)
  disconnect_connection connections id = elim (lookup id connections) [
    | none ↦ []
    | some connection ↦ respond connection.response_channel disconnect ∷ []
  ]

  abbrev pub disconnect_publisher :
      Map ConnectionId Connection → Option ConnectionId → List (Effect M)
  disconnect_publisher connections none = []
  disconnect_publisher connections (some id) = disconnect_connection connections id

  abbrev pub disconnect_all : Map ConnectionId Connection → List ConnectionId → List (Effect M)
  disconnect_all connections [] = []
  disconnect_all connections (id ∷ ids) =
      disconnect_connection connections id ++ disconnect_all connections ids

  -- What the removal of a registrant does to the connections of one key.
  unfoldable pub drop_publisher :
      Map ConnectionId Connection → StreamKeyConnections → StreamKeyConnections × List (Effect M)
  drop_publisher connections c =
      (record c { publisher = none }, disconnect_publisher connections c.publisher)

  unfoldable pub drop_watchers :
      Map ConnectionId Connection → StreamKeyConnections → StreamKeyConnections × List (Effect M)
  drop_watchers connections c =
      (record c { watchers = [] }, disconnect_all connections (keys c.watchers))

  -- The loop over the keys that a removed registrant had.
  unfoldable pub drop_keys :
      (StreamKeyConnections → StreamKeyConnections × List (Effect M))
      → List String
      → Map String StreamKeyConnections
      → Map String StreamKeyConnections × List (Effect M)
  drop_keys drop_from [] active = (active, [])
  drop_keys drop_from (key ∷ rest) active = elim (lookup key active) [
    | none ↦ drop_keys drop_from rest active
    | some c ↦
        let (dropped, effects) = drop_from c in
        let (remaining, further) = drop_keys drop_from rest (insert key dropped active) in
        (remaining, effects ++ further)
  ]

module _ {C M : Type 0} where
  unfoldable pub remove_publisher_from :
      PortMapping C
      → String
      → StreamKeyRegistration
      → RtmpAppMapping C
      → PortMapping C × List (Effect M)
  unfolding drop_publisher
  remove_publisher_from p rtmp_app stream_key app_map =
      let (active, effects) =
        drop_keys (drop_publisher p.connections)
          (keys_to_remove stream_key app_map.active_stream_keys) app_map.active_stream_keys in
      if contains_key stream_key app_map.publisher_registrants
      then (
        put_app p rtmp_app (record app_map {
          publisher_registrants = remove stream_key app_map.publisher_registrants;
          active_stream_keys = active;
        }),
        effects,
      )
      else (p, [])

  unfoldable pub remove_watcher_from :
      PortMapping C
      → String
      → StreamKeyRegistration
      → RtmpAppMapping C
      → PortMapping C × List (Effect M)
  unfolding drop_watchers
  remove_watcher_from p rtmp_app stream_key app_map =
      let (active, effects) =
        drop_keys (drop_watchers p.connections)
          (keys_to_remove stream_key app_map.active_stream_keys) app_map.active_stream_keys in
      if contains_key stream_key app_map.watcher_registrants
      then (
        put_app p rtmp_app (record app_map {
          watcher_registrants = remove stream_key app_map.watcher_registrants;
          active_stream_keys = active;
        }),
        effects,
      )
      else (p, [])

  -- What the handlers for one app of one port do, and nothing if there is none.
  unfoldable pub in_app :
      (PortMapping C → RtmpAppMapping C → PortMapping C × List (Effect M))
      → String
      → PortMapping C
      → PortMapping C × List (Effect M)
  in_app act rtmp_app p = elim (lookup rtmp_app p.rtmp_applications) [
    | none ↦ (p, [])
    | some app_map ↦ act p app_map
  ]

  unfoldable pub in_port :
      (PortMapping C → PortMapping C × List (Effect M))
      → ℕ
      → RtmpServerEndpointActor C
      → RtmpServerEndpointActor C × List (Effect M)
  in_port act port s = elim (lookup port s.ports) [
    | none ↦ (s, [])
    | some p ↦
        let (changed, effects) = act p in
        (record s { ports = insert port changed s.ports }, effects)
  ]

  -- `remove_publish_registration` and `remove_watcher_registration`.
  unfoldable pub remove_publish_registration :
      RtmpServerEndpointActor C
      → ℕ
      → String
      → StreamKeyRegistration
      → RtmpServerEndpointActor C × List (Effect M)
  unfolding remove_publisher_from
  remove_publish_registration s port app stream_key =
      in_port (in_app (λ p a. remove_publisher_from p app stream_key a) app) port s

  unfoldable pub remove_watcher_registration :
      RtmpServerEndpointActor C
      → ℕ
      → String
      → StreamKeyRegistration
      → RtmpServerEndpointActor C × List (Effect M)
  unfolding remove_watcher_from
  remove_watcher_registration s port app stream_key =
      in_port (in_app (λ p a. remove_watcher_from p app stream_key a) app) port s
