-- ===== src/RtmpServer/Registration.antt =====
-- Registrants are registered: `register_listener` of mmids-rtmp/src/rtmp_server/actor/mod.rs.
use mmids_core.Common.{
  ℕ, String, Bool, true, false, not, Option, List, [], ◌∷◌, ◌++◌, if◌then◌else◌, nat_eq, string_eq,
  is_empty, Map, or_default, lookup, insert, contains_key,
}
use mmids_core.Workflows.Media.{StreamId}
use mmids_core.Workflows.Requests.{Sender}
use mmids_core.RtmpServer.Types.{
  IpRestriction, StreamKeyRegistration, registration_eq, any_key, exact,
  publisher_registration_failed, publisher_registration_successful, watcher_registration_failed,
  watcher_registration_successful,
}
use mmids_core.RtmpServer.State.{
  RtmpAppMapping, PortStatus, requested, opened, PortMapping, RtmpServerEndpointActor, Effect,
  tell_publisher, tell_watcher, open_port, await_publisher_gone, await_watcher_gone, forward_media,
  Fresh, no_registrants,
}

pub data ListenerRequest : Type 0 where
  publisher_listener :
      (message_channel : Sender) (stream_id : Option StreamId) (requires_registrant_approval : Bool)
      → ListenerRequest
  watcher_listener :
      (notification_channel media_channel : Sender) (requires_registrant_approval : Bool)
      → ListenerRequest

pub record RegisterListenerParams (C : Type 0) : Type 0 where
  pub port : ℕ
  pub rtmp_app : String
  pub stream_key : StreamKeyRegistration
  pub listener : ListenerRequest
  pub ip_restrictions : IpRestriction C
  pub use_tls : Bool

unfoldable pub can_be_added {ℓ} :
    {V : Type ℓ} → StreamKeyRegistration → Map StreamKeyRegistration V → Bool
can_be_added any_key registrants = is_empty registrants
can_be_added (exact key) registrants =
    if contains_key any_key registrants
    then false
    else (if contains_key (exact key) registrants then false else true)

abbrev is_open : PortStatus → Bool
is_open requested = false
is_open opened = true

module _ {M : Type 0} where
  unfoldable pub registration_failed : ListenerRequest → Effect M
  registration_failed (publisher_listener channel stream_id approval) =
      tell_publisher channel publisher_registration_failed
  registration_failed (watcher_listener notifications media approval) =
      tell_watcher notifications watcher_registration_failed

module _ {C : Type 0} where
  unfoldable pub new_port_map : Bool → PortMapping C
  new_port_map use_tls = record {
    rtmp_applications = [];
    status = requested;
    connections = [];
    tls = use_tls;
  }

module _ {C M : Type 0} where
  -- A publisher registrant joins an app.
  unfoldable pub add_publisher :
      RegisterListenerParams C
      → Fresh
      → Sender
      → Option StreamId
      → Bool
      → PortStatus
      → RtmpAppMapping C
      → RtmpAppMapping C × List (Effect M)
  add_publisher params fresh channel stream_id approval status app_map =
      if not (can_be_added params.stream_key app_map.publisher_registrants)
      then (app_map, tell_publisher channel publisher_registration_failed ∷ [])
      else (
        record app_map {
          publisher_registrants =
              insert params.stream_key
                (record {
                  response_channel = channel;
                  stream_id = stream_id;
                  ip_restrictions = params.ip_restrictions;
                  requires_registrant_approval = approval;
                  cancellation_notifier = fresh.cancellation;
                })
                app_map.publisher_registrants;
        },
        await_publisher_gone channel fresh.cancellation params.port params.rtmp_app
              params.stream_key
            ∷ (if is_open status
                then tell_publisher channel publisher_registration_successful ∷ []
                else []),
      )

  unfoldable pub add_watcher :
      RegisterListenerParams C
      → Fresh
      → Sender
      → Sender
      → Bool
      → PortStatus
      → RtmpAppMapping C
      → RtmpAppMapping C × List (Effect M)
  add_watcher params fresh notifications media approval status app_map =
      if not (can_be_added params.stream_key app_map.watcher_registrants)
      then (app_map, tell_watcher notifications watcher_registration_failed ∷ [])
      else (
        record app_map {
          watcher_registrants =
              insert params.stream_key
                (record {
                  response_channel = notifications;
                  ip_restrictions = params.ip_restrictions;
                  requires_registrant_approval = approval;
                  cancellation_notifier = fresh.cancellation;
                })
                app_map.watcher_registrants;
        },
        await_watcher_gone notifications fresh.cancellation params.port params.rtmp_app
              params.stream_key
            ∷ forward_media media params.port params.rtmp_app params.stream_key
            ∷ (if is_open status
                then tell_watcher notifications watcher_registration_successful ∷ []
                else []),
      )

  unfoldable pub add_registrant :
      RegisterListenerParams C
      → Fresh
      → ListenerRequest
      → PortStatus
      → RtmpAppMapping C
      → RtmpAppMapping C × List (Effect M)
  unfolding add_publisher add_watcher
  add_registrant params fresh (publisher_listener channel stream_id approval) status app_map =
      add_publisher params fresh channel stream_id approval status app_map
  add_registrant params fresh (watcher_listener notifications media approval) status app_map =
      add_watcher params fresh notifications media approval status app_map

  -- The app is entered if it is new, whether or not the registrant can join it.
  unfoldable pub register_in :
      RegisterListenerParams C → Fresh → PortMapping C → PortMapping C × List (Effect M)
  register_in params fresh p =
      let (app_map, effects) =
        add_registrant params fresh params.listener p.status
          (or_default (lookup params.rtmp_app p.rtmp_applications) no_registrants) in
      (record p { rtmp_applications = insert params.rtmp_app app_map p.rtmp_applications }, effects)

  -- `register_listener`.
  unfoldable pub register_listener :
      RtmpServerEndpointActor C
      → Fresh
      → RegisterListenerParams C
      → RtmpServerEndpointActor C × List (Effect M)
  register_listener s fresh params =
      let p = or_default (lookup params.port s.ports) (new_port_map params.use_tls) in
      let (registered, effects) = register_in params fresh p in
      if (if p.tls then not params.use_tls else params.use_tls)
      then (
        record s { ports = insert params.port p s.ports },
        registration_failed params.listener ∷ [],
      )
      else (
        record s { ports = insert params.port registered s.ports },
        (if contains_key params.port s.ports
              then []
              else open_port params.port fresh.channel params.use_tls ∷ [])
            ++ effects,
      )
