-- ===== src/Tests/Registrants.antt =====
-- The theorems on registrants of the RTMP endpoint at concrete inputs.
use mmids_core.Common.{
  ℕ, ◌≡◌, refl, ◌↔◌, Bool, true, false, none, some, [], ◌∷◌, nat_eq, string_eq, lookup, insert,
  remove,
}
use mmids_core.RtmpServer.Types.{
  StreamKeyRegistration, registration_eq, registration_beq, any_key, exact, no_restriction,
  listen_for_publishers, listen_for_watchers, remove_registration, RegistrationType,
}
use mmids_core.RtmpServer.State.{
  PublishingRegistrant, WatcherRegistrant, RtmpAppMapping, PortMapping, RtmpServerEndpointActor,
  FutureResult, endpoint_request_received, watcher_registrant_gone, publishing_registrant_gone,
  Fresh, requested, find_registrant,
}
use mmids_core.RtmpServer.Registration.{
  can_be_added, add_publisher, add_watcher, add_registrant, register_in, register_listener,
  new_port_map,
}
use mmids_core.RtmpServer.Removal.{
  in_port, in_app, remove_watcher_from, remove_publish_registration, remove_publisher_from, put_app,
  drop_keys, remove_watcher_registration,
}
use mmids_core.RtmpServer.Endpoint.{Round, goes_on, closes, handle, handle_endpoint_request}
use mmids_core.RtmpServer.Stale.{registrant_at, stale_registrant_gone}
use mmids_core.RtmpServer.Registrants.Sole.{covers}
use mmids_core.RtmpServer.Registrants.Found.{Served, begun, later, found_lem}
use mmids_core.RtmpServer.Registrants.Lasting.{Stands, Spared, none_yet, next, Spared-Stands}

abbrev within : ℕ → ℕ → Bool
within range ip = false

abbrev fresh : Fresh
fresh = record { channel = 9; cancellation = 8; stream_id = "new" }

abbrev after : Round ℕ Unit → RtmpServerEndpointActor ℕ
after (goes_on t effects) = t
after closes = record { ports = [] }

-- A publisher for one key, a watcher for all, and a second publisher for the key.
abbrev listen : ℕ → FutureResult ℕ Unit
listen channel =
    endpoint_request_received
      (listen_for_publishers 1935 "live" (exact "k") channel none no_restriction false false)

abbrev listen_to_all : FutureResult ℕ Unit
listen_to_all =
    endpoint_request_received
      (listen_for_watchers 1935 "live" any_key 3 4 no_restriction false false)

abbrev listening : RtmpServerEndpointActor ℕ
listening = after (handle within (record { ports = [] }) fresh (listen 1))

abbrev watched : RtmpServerEndpointActor ℕ
watched = after (handle within listening fresh listen_to_all)

abbrev publisher : PublishingRegistrant ℕ
publisher = record {
  response_channel = 1;
  stream_id = none;
  ip_restrictions = no_restriction;
  requires_registrant_approval = false;
  cancellation_notifier = 8;
}

abbrev watcher : WatcherRegistrant ℕ
watcher = record {
  response_channel = 4;
  ip_restrictions = no_restriction;
  requires_registrant_approval = false;
  cancellation_notifier = 8;
}

abbrev live : RtmpAppMapping ℕ
live = record {
  publisher_registrants = (exact "k", publisher) ∷ [];
  watcher_registrants = (any_key, watcher) ∷ [];
  active_stream_keys = [];
}

abbrev live_port : PortMapping ℕ
live_port = record {
  rtmp_applications = ("live", live) ∷ [];
  status = requested;
  connections = [];
  tls = false;
}

served : Served Unit within watched
unfolding lookup insert handle handle_endpoint_request register_listener register_in add_registrant
    add_publisher add_watcher new_port_map can_be_added
served = later (later begun fresh (listen 1) refl) fresh listen_to_all refl

found_lem_example :
    ((find_registrant "k" live.publisher_registrants ≡ some publisher) ↔ (
      (i : StreamKeyRegistration) × (lookup i live.publisher_registrants ≡ some publisher)
      × (covers i "k" ≡ true)))
    × ((find_registrant "k" live.watcher_registrants ≡ some watcher) ↔ (
        (i : StreamKeyRegistration) × (lookup i live.watcher_registrants ≡ some watcher)
        × (covers i "k" ≡ true)))
unfolding lookup insert handle handle_endpoint_request register_listener register_in add_registrant
    add_publisher add_watcher new_port_map can_be_added
found_lem_example =
    found_lem Unit within watched 1935 live_port "live" live "k" publisher watcher served refl refl

-- A second publisher for the key comes, and the watcher goes.
abbrev refused : RtmpServerEndpointActor ℕ
refused = after (handle within watched fresh (listen 2))

abbrev unwatched : RtmpServerEndpointActor ℕ
unwatched = after (handle within refused fresh (watcher_registrant_gone 1935 "live" any_key))

spared : Spared Unit within 1935 "live" (exact "k") watched unwatched
unfolding lookup insert handle handle_endpoint_request register_listener register_in add_registrant
    add_publisher add_watcher new_port_map can_be_added remove_watcher_registration in_port in_app
    remove_watcher_from put_app drop_keys registration_beq
spared =
    next (next none_yet fresh (listen 2) tt refl) fresh
      (watcher_registrant_gone 1935 "live" any_key) tt refl

Spared-Stands_example : Stands 1935 "live" (exact "k") publisher unwatched
unfolding lookup insert handle handle_endpoint_request register_listener register_in add_registrant
    add_publisher add_watcher new_port_map can_be_added registration_beq
Spared-Stands_example =
    Spared-Stands Unit within 1935 "live" (exact "k") publisher watched unwatched
      (record {
        port_map = live_port;
        there = refl;
        holds = record { app_map = live; registered = refl; held = refl };
      })
      spared

-- The publisher is removed, another one comes for its key, the watcher goes, and then comes the notice
-- that the first one is gone.
abbrev asked : FutureResult ℕ Unit
asked =
    endpoint_request_received
      (remove_registration RegistrationType.publisher 1935 "live" (exact "k"))

abbrev unpublished : RtmpServerEndpointActor ℕ
unpublished = after (handle within watched fresh asked)

abbrev replaced : RtmpServerEndpointActor ℕ
replaced = after (handle within unpublished fresh (listen 2))

abbrev replaced_later : RtmpServerEndpointActor ℕ
replaced_later = after (handle within replaced fresh (watcher_registrant_gone 1935 "live" any_key))

abbrev noticed : RtmpServerEndpointActor ℕ
noticed =
    after (handle within replaced_later fresh (publishing_registrant_gone 1935 "live" (exact "k")))

spared_later : Spared Unit within 1935 "live" (exact "k") replaced replaced_later
unfolding lookup insert handle handle_endpoint_request register_listener register_in add_registrant
    add_publisher add_watcher new_port_map can_be_added remove_watcher_registration in_port in_app
    remove_watcher_from remove_publish_registration remove_publisher_from put_app drop_keys
    registration_beq
spared_later = next none_yet fresh (watcher_registrant_gone 1935 "live" any_key) tt refl

stale_registrant_gone_example :
    (registrant_at unpublished 1935 "live" (exact "k") ≡ none)
    × (registrant_at replaced_later 1935 "live" (exact "k")
        ≡ some (record publisher { response_channel = 2 }))
    × (registrant_at noticed 1935 "live" (exact "k") ≡ none)
unfolding lookup insert remove handle handle_endpoint_request register_listener register_in
    add_registrant add_publisher add_watcher new_port_map can_be_added remove_watcher_registration
    in_port in_app remove_watcher_from remove_publish_registration remove_publisher_from put_app
    drop_keys registration_beq
stale_registrant_gone_example =
    stale_registrant_gone Unit within 1935 "live" (exact "k") publisher watched unpublished replaced
      replaced_later noticed live_port live fresh fresh fresh 2 none no_restriction false refl refl
      refl refl refl refl spared_later refl
