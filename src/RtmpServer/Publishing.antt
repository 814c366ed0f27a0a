-- ===== src/RtmpServer/Publishing.antt =====
-- Publishers: `handle_connection_request_publish` and what undoes it, of
-- mmids-rtmp/src/rtmp_server/actor/mod.rs.
use mmids_core.Common.{
  ℕ, String, Bool, not, ◌&&◌, Option, none, some, List, [], ◌∷◌, if◌then◌else◌, ◌==◌, nat_eq,
  string_eq, or_default, lookup,
}
use mmids_core.Workflows.Requests.{Sender}
use mmids_core.RtmpServer.Types.{
  ConnectionId, is_ip_allowed, publisher_requiring_approval, new_publisher_connected,
  publishing_stopped, request_rejected, publish_request_accepted,
}
use mmids_core.RtmpServer.State.{
  PublishingRegistrant, StreamKeyConnections, RtmpAppMapping, ConnectionState, no_state,
  waiting_for_publish_validation, publishing, Connection, PortMapping, Effect, tell_publisher,
  respond, await_validation, Fresh, no_connections, find_registrant, put_key, put_connection,
}

module _ {C M : Type 0} (within : C → ℕ → Bool) where
  -- The request is accepted.
  unfoldable pub publish :
      ConnectionId
      → PortMapping C
      → String
      → String
      → Option Sender
      → Fresh
      → Connection
      → RtmpAppMapping C
      → PublishingRegistrant C
      → StreamKeyConnections
      → PortMapping C × List (Effect M)
  publish id p rtmp_app stream_key updates fresh connection application registrant c = (
    put_connection (put_key p rtmp_app application stream_key (record c { publisher = some id })) id
        (record connection { state = publishing rtmp_app stream_key }),
    respond connection.response_channel (publish_request_accepted registrant.response_channel)
        ∷ tell_publisher registrant.response_channel (
            new_publisher_connected id (or_default registrant.stream_id fresh.stream_id) stream_key
              updates)
        ∷ [],
  )

  -- A registrant for the key is there, and no one publishes on the key.
  unfoldable pub publish_or_ask :
      ConnectionId
      → PortMapping C
      → ℕ
      → String
      → String
      → Option Sender
      → Fresh
      → Connection
      → RtmpAppMapping C
      → PublishingRegistrant C
      → StreamKeyConnections
      → PortMapping C × List (Effect M)
  unfolding publish
  publish_or_ask id p port rtmp_app stream_key updates fresh connection application registrant c =
      let entered = put_key p rtmp_app application stream_key c in
      if not (is_ip_allowed within connection.socket_address registrant.ip_restrictions)
      then (entered, respond connection.response_channel request_rejected ∷ [])
      else (if registrant.requires_registrant_approval
            && not connection.received_registrant_approval
          then (
            put_connection entered id
                (record connection { state = waiting_for_publish_validation rtmp_app stream_key }),
            tell_publisher registrant.response_channel
                  (publisher_requiring_approval id stream_key fresh.channel)
                ∷ await_validation port id fresh.channel
                ∷ [],
          )
          else publish id p rtmp_app stream_key updates fresh connection application registrant c)

  -- A registrant for the key is there; the key is entered if it is new.
  unfoldable pub publish_on_key :
      ConnectionId
      → PortMapping C
      → ℕ
      → String
      → String
      → Option Sender
      → Fresh
      → Connection
      → RtmpAppMapping C
      → PublishingRegistrant C
      → PortMapping C × List (Effect M)
  unfolding publish_or_ask
  publish_on_key id p port rtmp_app stream_key updates fresh connection application registrant =
      let c = or_default (lookup stream_key application.active_stream_keys) no_connections in
      elim c.publisher [
        | some other ↦ (
          put_key p rtmp_app application stream_key c,
          respond connection.response_channel request_rejected ∷ [],
        )
        | none ↦
            publish_or_ask id p port rtmp_app stream_key updates fresh connection application
              registrant c
      ]

  -- `handle_connection_request_publish`.
  unfoldable pub handle_connection_request_publish :
      ConnectionId
      → PortMapping C
      → ℕ
      → String
      → String
      → Option Sender
      → Fresh
      → PortMapping C × List (Effect M)
  unfolding publish_on_key
  handle_connection_request_publish id p port rtmp_app stream_key updates fresh =
      elim (lookup id p.connections) [
        | none ↦ (p, [])
        | some connection ↦ elim (lookup rtmp_app p.rtmp_applications) [
          | none ↦ (p, respond connection.response_channel request_rejected ∷ [])
          | some application ↦ elim (find_registrant stream_key application.publisher_registrants) [
            | none ↦ (p, respond connection.response_channel request_rejected ∷ [])
            | some registrant ↦
                publish_on_key id p port rtmp_app stream_key updates fresh connection application
                  registrant
          ]
        ]
      ]

module _ {C M : Type 0} where
  abbrev publishing_ended : Option (PublishingRegistrant C) → ConnectionId → List (Effect M)
  publishing_ended none id = []
  publishing_ended (some registrant) id =
      tell_publisher registrant.response_channel (publishing_stopped id) ∷ []

  -- The connection that published on a key leaves it.
  unfoldable pub leave_key :
      PortMapping C
      → ConnectionId
      → String
      → String
      → RtmpAppMapping C
      → StreamKeyConnections
      → PortMapping C × List (Effect M)
  leave_key p id rtmp_app stream_key app_map active_key = elim active_key.publisher [
    | none ↦ (p, [])
    | some publisher_id ↦
        if publisher_id == id
        then (
          put_key p rtmp_app app_map stream_key (record active_key {
            publisher = none;
            latest_video_sequence_header = none;
            latest_audio_sequence_header = none;
          }),
          publishing_ended (find_registrant stream_key app_map.publisher_registrants) id,
        )
        else (p, [])
  ]

  unfoldable pub leave_publishing :
      PortMapping C → ConnectionId → String → String → PortMapping C × List (Effect M)
  unfolding leave_key
  leave_publishing p id rtmp_app stream_key = elim (lookup rtmp_app p.rtmp_applications) [
    | none ↦ (p, [])
    | some app_map ↦ elim (lookup stream_key app_map.active_stream_keys) [
      | none ↦ (p, [])
      | some active_key ↦ leave_key p id rtmp_app stream_key app_map active_key
    ]
  ]

  -- `handle_connection_stop_publish`.
  unfoldable pub stop_publish_of :
      ConnectionId → PortMapping C → Connection → ConnectionState → PortMapping C × List (Effect M)
  unfolding leave_publishing
  stop_publish_of id p connection (publishing rtmp_app stream_key) =
      leave_publishing (put_connection p id (record connection { state = no_state })) id rtmp_app
        stream_key
  stop_publish_of id p connection no_state = (p, [])
  stop_publish_of id p connection (waiting_for_publish_validation rtmp_app stream_key) = (p, [])
  stop_publish_of id p connection
        (ConnectionState.waiting_for_watch_validation rtmp_app stream_key) =
      (p, [])
  stop_publish_of id p connection (ConnectionState.watching rtmp_app stream_key) = (p, [])

  unfoldable pub handle_connection_stop_publish :
      ConnectionId → PortMapping C → PortMapping C × List (Effect M)
  unfolding stop_publish_of
  handle_connection_stop_publish id p = elim (lookup id p.connections) [
    | none ↦ (p, [])
    | some connection ↦ stop_publish_of id p connection connection.state
  ]
