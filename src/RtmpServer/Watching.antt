-- ===== src/RtmpServer/Watching.antt =====
-- Watchers: `handle_connection_request_watch` and what undoes it, and the media for watchers, of
-- mmids-rtmp/src/rtmp_server/actor/mod.rs.
use mmids_core.Common.{
  ℕ, String, Bool, true, not, ◌&&◌, Option, none, some, List, [], ◌∷◌, ◌++◌, map, if◌then◌else◌,
  nat_eq, string_eq, is_empty, Map, or_default, values, lookup, insert, remove,
}
use mmids_core.Common.Int.{pos}
use mmids_core.Workflows.Requests.{Sender}
use mmids_core.RtmpServer.Types.{
  ConnectionId, is_ip_allowed, RtmpEndpointMediaData, new_stream_metadata, new_video_data,
  new_audio_data, watcher_requiring_approval, stream_key_became_active, stream_key_became_inactive,
  request_rejected, watch_request_accepted,
}
use mmids_core.RtmpServer.State.{
  WatcherRegistrant, WatcherDetails, StreamKeyConnections, RtmpAppMapping, ConnectionState,
  no_state, waiting_for_watch_validation, watching, Connection, PortMapping, Effect, tell_watcher,
  respond, send_media, await_validation, Fresh, no_connections, find_registrant, put_key,
  put_connection,
}

module _ {M : Type 0} where
  -- The headers that a new watcher is sent first.
  unfoldable pub sequence_headers : StreamKeyConnections → List (RtmpEndpointMediaData M)
  sequence_headers c =
      elim c.latest_video_sequence_header [
        | none ↦ []
        | some header ↦ new_video_data true true header 0 (pos 0) ∷ []
      ]
      ++ elim c.latest_audio_sequence_header [
        | none ↦ []
        | some header ↦ new_audio_data true header 0 ∷ []
      ]

  -- A sequence header is kept for the watchers to come.
  unfoldable pub note_headers :
      StreamKeyConnections → RtmpEndpointMediaData M → StreamKeyConnections
  note_headers c (new_stream_metadata m) = c
  note_headers c (new_video_data is_keyframe is_sequence_header data_bytes timestamp offset) =
      if is_sequence_header then record c { latest_video_sequence_header = some data_bytes } else c
  note_headers c (new_audio_data is_sequence_header data_bytes timestamp) =
      if is_sequence_header then record c { latest_audio_sequence_header = some data_bytes } else c

module _ {C M : Type 0} where
  -- `handle_watcher_media_received`, in a port and an app that are there.
  unfoldable pub receive_media :
      PortMapping C
      → String
      → String
      → RtmpEndpointMediaData M
      → RtmpAppMapping C
      → PortMapping C × List (Effect M)
  unfolding note_headers
  receive_media p app stream_key media_data app_map =
      let key_details =
        note_headers (or_default (lookup stream_key app_map.active_stream_keys) no_connections)
          media_data in
      (
        put_key p app app_map stream_key key_details,
        map (λ (w : WatcherDetails). send_media w.media_sender media_data)
            (values key_details.watchers),
      )

module _ {C M : Type 0} (within : C → ℕ → Bool) where
  -- The request is accepted.
  unfoldable pub watch :
      ConnectionId
      → PortMapping C
      → String
      → String
      → Option Sender
      → Fresh
      → Connection
      → RtmpAppMapping C
      → WatcherRegistrant C
      → StreamKeyConnections
      → PortMapping C × List (Effect M)
  unfolding sequence_headers
  watch id p rtmp_app stream_key updates fresh connection application registrant c = (
    put_connection
        (put_key p rtmp_app application stream_key
          (record c { watchers = insert id (record { media_sender = fresh.channel }) c.watchers }))
        id (record connection { state = watching rtmp_app stream_key }),
    (if is_empty c.watchers
          then tell_watcher registrant.response_channel
              (stream_key_became_active stream_key updates)
            ∷ []
          else [])
        ++ (map (send_media fresh.channel) (sequence_headers c)
            ++ respond connection.response_channel (watch_request_accepted fresh.channel) ∷ []),
  )

  -- A registrant for the key is there.
  unfoldable pub watch_or_ask :
      ConnectionId
      → PortMapping C
      → ℕ
      → String
      → String
      → Option Sender
      → Fresh
      → Connection
      → RtmpAppMapping C
      → WatcherRegistrant C
      → PortMapping C × List (Effect M)
  unfolding watch
  watch_or_ask id p port rtmp_app stream_key updates fresh connection application registrant =
      if not (is_ip_allowed within connection.socket_address registrant.ip_restrictions)
      then (p, respond connection.response_channel request_rejected ∷ [])
      else (if registrant.requires_registrant_approval
            && not connection.received_registrant_approval
          then (
            put_connection p id
                (record connection { state = waiting_for_watch_validation rtmp_app stream_key }),
            tell_watcher registrant.response_channel
                  (watcher_requiring_approval id stream_key fresh.channel)
                ∷ await_validation port id fresh.channel
                ∷ [],
          )
          else watch id p rtmp_app stream_key updates fresh connection application registrant
              (or_default (lookup stream_key application.active_stream_keys) no_connections))

  -- `handle_connection_request_watch`.
  unfoldable pub handle_connection_request_watch :
      ConnectionId
      → PortMapping C
      → ℕ
      → String
      → String
      → Option Sender
      → Fresh
      → PortMapping C × List (Effect M)
  unfolding watch_or_ask
  handle_connection_request_watch id p port rtmp_app stream_key updates fresh =
      elim (lookup id p.connections) [
        | none ↦ (p, [])
        | some connection ↦ elim (lookup rtmp_app p.rtmp_applications) [
          | none ↦ (p, respond connection.response_channel request_rejected ∷ [])
          | some application ↦ elim (find_registrant stream_key application.watcher_registrants) [
            | none ↦ (p, respond connection.response_channel request_rejected ∷ [])
            | some registrant ↦
                watch_or_ask id p port rtmp_app stream_key updates fresh connection application
                  registrant
          ]
        ]
      ]

module _ {C M : Type 0} where
  abbrev watching_ended :
      Option (WatcherRegistrant C) → String → Map ConnectionId WatcherDetails → List (Effect M)
  watching_ended (some registrant) stream_key [] =
      tell_watcher registrant.response_channel (stream_key_became_inactive stream_key) ∷ []
  watching_ended (some registrant) stream_key (w ∷ watchers) = []
  watching_ended none stream_key watchers = []

  -- The connection that watched a key leaves it.
  unfoldable pub leave_watching :
      PortMapping C → ConnectionId → String → String → PortMapping C × List (Effect M)
  leave_watching p id rtmp_app stream_key = elim (lookup rtmp_app p.rtmp_applications) [
    | none ↦ (p, [])
    | some app_map ↦ elim (lookup stream_key app_map.active_stream_keys) [
      | none ↦ (p, [])
      | some active_key ↦
          let watchers = remove id active_key.watchers in
          (
            put_key p rtmp_app app_map stream_key (record active_key { watchers = watchers }),
            watching_ended (find_registrant stream_key app_map.watcher_registrants) stream_key
                watchers,
          )
    ]
  ]

  -- `handle_connection_stop_watch`.
  unfoldable pub stop_watch_of :
      ConnectionId → PortMapping C → Connection → ConnectionState → PortMapping C × List (Effect M)
  unfolding leave_watching
  stop_watch_of id p connection (watching rtmp_app stream_key) =
      leave_watching (put_connection p id (record connection { state = no_state })) id rtmp_app
        stream_key
  stop_watch_of id p connection no_state = (p, [])
  stop_watch_of id p connection
        (ConnectionState.waiting_for_publish_validation rtmp_app stream_key) =
      (p, [])
  stop_watch_of id p connection (waiting_for_watch_validation rtmp_app stream_key) = (p, [])
  stop_watch_of id p connection (ConnectionState.publishing rtmp_app stream_key) = (p, [])

  unfoldable pub handle_connection_stop_watch :
      ConnectionId → PortMapping C → PortMapping C × List (Effect M)
  unfolding stop_watch_of
  handle_connection_stop_watch id p = elim (lookup id p.connections) [
    | none ↦ (p, [])
    | some connection ↦ stop_watch_of id p connection connection.state
  ]
