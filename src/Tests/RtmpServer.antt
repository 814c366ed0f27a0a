-- ===== src/Tests/RtmpServer.antt =====
-- The theorems on the RTMP server endpoint at concrete inputs.
use mmids_core.Common.{
  ℕ, ◌≡◌, refl, ◌↔◌, ◌⊎◌, Bool, true, false, none, some, List, [], ◌∷◌, nat_eq, string_eq,
  or_default, lookup, insert, contains,
}
use mmids_core.Common.Int.{pos}
use mmids_core.RtmpServer.Types.{
  v4, no_restriction, any_key, exact, registration_beq, registration_eq, listen_for_publishers,
  request_publish, new_connection, new_video_data, is_ip_allowed, approve,
}
use mmids_core.RtmpServer.State.{
  PublishingRegistrant, WatcherRegistrant, RtmpAppMapping, opened, ConnectionState, no_state,
  waiting_for_publish_validation, publishing, Connection, PortMapping, RtmpServerEndpointActor,
  FutureResult, endpoint_request_received, socket_response_received,
  connection_handler_request_received, Effect, send_media, Fresh, find_registrant, put_connection,
  no_connections, put_key,
}
use mmids_core.RtmpServer.Registration.{
  can_be_added, register_listener, register_in, add_registrant, add_publisher, new_port_map,
}
use mmids_core.RtmpServer.Removal.{in_app, in_port}
use mmids_core.RtmpServer.Publishing.{
  handle_connection_request_publish, publish, publish_on_key, publish_or_ask,
}
use mmids_core.RtmpServer.Watching.{receive_media, handle_connection_request_watch}
use mmids_core.RtmpServer.Endpoint.{
  Round, goes_on, closes, handle, handle_endpoint_request, handle_socket_response,
  handle_response_of, handle_validation_response, handle_connection_handler_request,
  clean_disconnected_connection,
}
use mmids_core.RtmpServer.Views.{key_of, state_in}
use mmids_core.RtmpServer.Ports.{AllPorts}
use mmids_core.RtmpServer.Linked.{LinkedBut, Linked, Absent}
use mmids_core.RtmpServer.Linked.Clean.{clean-Absent}
use mmids_core.RtmpServer.Reach.{Reached, begun, later, Reached-Linked, Reached-LinkedBut}
use mmids_core.RtmpServer.Admission.{Admissible, MayPublish, requested_publish, request_publish_lem}
use mmids_core.RtmpServer.Approval.{approved_lem}
use mmids_core.RtmpServer.LateWatcher.{Occurs, late_watcher_lem}

-- No ranges of addresses, and no stream metadata.
abbrev within : ℕ → ℕ → Bool
within range ip = false

abbrev fresh : Fresh
fresh = record { channel = 9; cancellation = 8; stream_id = "new" }

abbrev registrant : Bool → PublishingRegistrant ℕ
registrant approval = record {
  response_channel = 1;
  stream_id = none;
  ip_restrictions = no_restriction;
  requires_registrant_approval = approval;
  cancellation_notifier = 2;
}

abbrev watcher_registrant : WatcherRegistrant ℕ
watcher_registrant = record {
  response_channel = 3;
  ip_restrictions = no_restriction;
  requires_registrant_approval = false;
  cancellation_notifier = 4;
}

abbrev connection : ConnectionState → Connection
connection state = record {
  response_channel = 5;
  state = state;
  socket_address = v4 7 80;
  received_registrant_approval = false;
}

abbrev live : Bool → RtmpAppMapping ℕ
live approval = record {
  publisher_registrants = (any_key, registrant approval) ∷ [];
  watcher_registrants = (any_key, watcher_registrant) ∷ [];
  active_stream_keys = [];
}

abbrev port_with : Bool → ConnectionState → PortMapping ℕ
port_with approval state = record {
  rtmp_applications = ("live", live approval) ∷ [];
  status = opened;
  connections = ("c", connection state) ∷ [];
  tls = false;
}

abbrev idle_port : Bool → PortMapping ℕ
idle_port approval = port_with approval no_state

-- The connection "c" publishes "k" of the app "live".
abbrev busy_port : PortMapping ℕ
busy_port = record (port_with false (publishing "live" "k")) {
  rtmp_applications =
      (
        "live",
        record (live false) {
          active_stream_keys = ("k", record no_connections { publisher = some "c" }) ∷ [];
        },
      )
      ∷ [];
}

admissible :
    (approval : Bool)
    → Admissible within
        (idle_port approval)
        "c"
        "live"
        "k"
        (connection no_state)
        (registrant approval)
unfolding lookup key_of find_registrant is_ip_allowed registration_beq
admissible approval = record {
  app_map = live approval;
  connected = refl;
  registered = refl;
  for_key = refl;
  free = refl;
  address = refl;
}

approved_lem_example :
    let asked = (requested_publish Unit within "c" (idle_port true) 1935 "live" "k" none fresh).0 in
    let q = (handle_validation_response {M = Unit} within "c" 1935 (approve 6) fresh asked).0 in
    (state_in asked.connections "c" ≡ some (waiting_for_publish_validation "live" "k"))
    × ((key_of q "live" "k").publisher ≡ some "c")
    × (state_in q.connections "c" ≡ some (publishing "live" "k"))
approved_lem_example =
    approved_lem within "c" (idle_port true) "live" "k" (connection no_state) (registrant true)
      (admissible true) Unit 1935 6 fresh none fresh refl

request_publish_lem_example :
    ((key_of
        (requested_publish Unit within "c" (idle_port false) 1935 "live" "k" none fresh).0
        "live"
        "k").publisher
      ≡ some "c")
    ↔ (((key_of (idle_port false) "live" "k").publisher ≡ some "c")
        ⊎ MayPublish within (idle_port false) "c" "live" "k")
request_publish_lem_example =
    request_publish_lem Unit within "c" (idle_port false) 1935 "live" "k" none fresh

late_watcher_lem_example :
    let started =
      (receive_media {M = Unit}
        (idle_port false)
        "live"
        "k"
        (new_video_data true true (1 ∷ 2 ∷ []) 40 (pos 0))
        (live false)).0 in
    let (q, effects) =
      handle_connection_request_watch {M = Unit} within "c" started 1935 "live" "k" none fresh in
    Occurs {A = Effect Unit}
      (send_media 9 (new_video_data true true (1 ∷ 2 ∷ []) 0 (pos 0)))
      effects
    × Occurs {A = Effect Unit}
        (send_media 9 (new_video_data false false (3 ∷ []) 80 (pos 0)))
        (in_app
          (λ p a. receive_media p "live" "k" (new_video_data false false (3 ∷ []) 80 (pos 0)) a)
          "live"
          q).1
unfolding lookup find_registrant registration_beq is_ip_allowed
late_watcher_lem_example =
    late_watcher_lem Unit "live" "k" within (idle_port false) (live false) (connection no_state)
      watcher_registrant "c" 1935 none fresh true (1 ∷ 2 ∷ []) 40 (pos 0)
      (new_video_data false false (3 ∷ []) 80 (pos 0)) refl refl refl refl refl

abbrev after : Round ℕ Unit → RtmpServerEndpointActor ℕ
after (goes_on t effects) = t
after closes = record { ports = [] }

abbrev done : Round ℕ Unit → List (Effect Unit)
done (goes_on t effects) = effects
done closes = []

abbrev empty : RtmpServerEndpointActor ℕ
empty = record { ports = [] }

abbrev listen : FutureResult ℕ Unit
listen =
    endpoint_request_received
      (listen_for_publishers 1935 "live" (exact "k") 1 none no_restriction false false)

abbrev connect : FutureResult ℕ Unit
connect = socket_response_received 1935 (new_connection "c" (v4 7 80))

abbrev ask : FutureResult ℕ Unit
ask = connection_handler_request_received 1935 "c" (request_publish "live" "k")

abbrev listening : RtmpServerEndpointActor ℕ
listening = after (handle within empty fresh listen)

abbrev connected : RtmpServerEndpointActor ℕ
connected = after (handle within listening fresh connect)

abbrev published : RtmpServerEndpointActor ℕ
published = after (handle within connected fresh ask)

-- A publisher registrant comes, a connection is made, and it asks to publish.
run : Reached Unit within [] published
unfolding lookup insert contains handle handle_endpoint_request register_listener register_in
    add_registrant add_publisher new_port_map can_be_added handle_socket_response handle_response_of
    in_port put_connection
run = later (later (later begun fresh listen refl) fresh connect refl) fresh ask refl

-- The same connection, which publishes "k", asks to publish "k2", as its handler does once it has
-- connected again; another connection publishes "k3".
abbrev listen_to_any : FutureResult ℕ Unit
listen_to_any =
    endpoint_request_received
      (listen_for_publishers 1935 "live" any_key 1 none no_restriction false false)

abbrev connect_other : FutureResult ℕ Unit
connect_other = socket_response_received 1935 (new_connection "d" (v4 7 81))

abbrev ask_again : FutureResult ℕ Unit
ask_again = connection_handler_request_received 1935 "c" (request_publish "live" "k2")

abbrev ask_other : FutureResult ℕ Unit
ask_other = connection_handler_request_received 1935 "d" (request_publish "live" "k3")

abbrev round : RtmpServerEndpointActor ℕ → FutureResult ℕ Unit → RtmpServerEndpointActor ℕ
round s e = after (handle within s fresh e)

abbrev twice : RtmpServerEndpointActor ℕ
twice =
    round (round (round (round (round empty listen_to_any) connect) connect_other) ask) ask_again

abbrev all_ask : RtmpServerEndpointActor ℕ
all_ask = round twice ask_other

run_twice : Reached Unit within ("c" ∷ []) all_ask
unfolding lookup insert contains handle handle_endpoint_request register_listener register_in
    add_registrant add_publisher new_port_map can_be_added handle_socket_response handle_response_of
    in_port put_connection handle_connection_handler_request handle_connection_request_publish
    find_registrant is_ip_allowed registration_beq publish_on_key publish_or_ask publish put_key
run_twice =
    later
      (later
        (later
          (later (later (later begun fresh listen_to_any refl) fresh connect refl) fresh
            connect_other refl)
          fresh ask refl)
        fresh ask_again refl)
      fresh ask_other refl

Reached-LinkedBut_example : AllPorts (LinkedBut (λ id. contains ("c" ∷ []) id ≡ true)) all_ask.ports
Reached-LinkedBut_example = Reached-LinkedBut Unit within ("c" ∷ []) all_ask run_twice

-- The connection that was out of turn is the publisher of two keys.
abbrev both_port : PortMapping ℕ
both_port = or_default (lookup 1935 all_ask.ports) (idle_port false)

both_keys :
    ((key_of both_port "live" "k").publisher ≡ some "c")
    × ((key_of both_port "live" "k2").publisher ≡ some "c")
    × (state_in both_port.connections "c" ≡ some (publishing "live" "k2"))
    × ((key_of both_port "live" "k3").publisher ≡ some "d")
unfolding lookup insert contains handle handle_endpoint_request register_listener register_in
    add_registrant add_publisher new_port_map can_be_added handle_socket_response handle_response_of
    in_port put_connection handle_connection_handler_request handle_connection_request_publish
    find_registrant is_ip_allowed registration_beq publish_on_key publish_or_ask publish put_key
    key_of
both_keys = (refl, refl, refl, refl)

-- The port of the run.
abbrev published_port : PortMapping ℕ
published_port = or_default (lookup 1935 published.ports) (idle_port false)

clean-Absent_example :
    let cleaned = (clean_disconnected_connection {M = Unit} "c" published_port).0 in
    Linked cleaned × Absent cleaned "c"
unfolding lookup insert handle handle_endpoint_request register_listener register_in add_registrant
    add_publisher new_port_map can_be_added handle_socket_response handle_response_of in_port
    put_connection handle_connection_handler_request handle_connection_request_publish
clean-Absent_example =
    clean-Absent Unit "c" published_port
      (Reached-Linked Unit within published run 1935 published_port refl)
