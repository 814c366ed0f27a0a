-- ===== src/RtmpServer/Approval.antt =====
-- A connection that its registrant has to approve gets to publish once it is approved.
use mmids_core.Common.{
  ℕ, String, ◌≡◌, refl, Bool, true, false, not, ◌&&◌, Option, none, some, arith, nat_eq, string_eq,
  insert, lookup-insert_self,
}
use mmids_core.Workflows.Requests.{Sender}
use mmids_core.RtmpServer.Types.{ConnectionId, approve, registration_eq}
use mmids_core.RtmpServer.State.{
  PublishingRegistrant, waiting_for_publish_validation, publishing, Connection, PortMapping, Fresh,
  put_key, put_connection,
}
use mmids_core.RtmpServer.Endpoint.{approved, validate, handle_validation_response}
use mmids_core.RtmpServer.Views.{key_in, key_of, state_in}
use mmids_core.RtmpServer.Admission.{
  Admissible, requested_publish, admitted-publish, admitted-asks, publish-publisher, key_of-put,
  key_of-app,
}

module _ {C : Type 0} (within : C → ℕ → Bool) (id : ConnectionId) (p : PortMapping C)
    (app key : String) (n : Connection) (r : PublishingRegistrant C)
    (may : Admissible within p id app key n r) where
  entered : PortMapping C
  entered = put_key p app may.app_map key (key_in may.app_map.active_stream_keys key)

  waiting : Connection
  waiting = record n { state = waiting_for_publish_validation app key }

  granted : Connection
  granted = record n {
    state = waiting_for_publish_validation app key;
    received_registrant_approval = true;
  }

  -- An admissible connection stays admissible while it waits.
  granted-Admissible :
      Admissible within
        (put_connection (put_connection entered id waiting) id granted)
        id
        app
        key
        granted
        r
  unfolding entered waiting granted put_connection put_key key_of
  granted-Admissible = record {
    app_map = record may.app_map {
      active_stream_keys =
          insert key (key_in may.app_map.active_stream_keys key) may.app_map.active_stream_keys;
    };
    connected = lookup-insert_self id granted _;
    registered = lookup-insert_self app _ p.rtmp_applications;
    for_key = may.for_key;
    free = free_key;
    address = may.address;
  }
    where
      free_key :
          (key_of
            (put_key p app may.app_map key (key_in may.app_map.active_stream_keys key))
            app
            key).publisher
          ≡ none
      free_key =
          rw
            (key_of-put p app may.app_map key (key_in may.app_map.active_stream_keys key)
              may.registered)
            (rw (key_of-app p app may.app_map key may.registered key) at may.free)

  module _ (M : Type 0) (port : ℕ) (updates : Sender) (later : Fresh) where
    validated :
        handle_validation_response {M = M} within id port
          (approve updates)
          later
          (put_connection entered id waiting)
        ≡ requested_publish M within id
            (put_connection (put_connection entered id waiting) id granted)
            port
            app
            key
            (some updates)
            later
    unfolding handle_validation_response validate approved put_connection waiting granted
    validated =
        rw (lookup-insert_self id waiting entered.connections, handle_validation_response) refl

    validated-publish :
        let q =
          (handle_validation_response {M = M} within id port
            (approve updates)
            later
            (put_connection entered id waiting)).0 in
        ((key_of q app key).publisher ≡ some id)
        × (state_in q.connections id ≡ some (publishing app key))
    unfolding granted
    validated-publish =
        rw
          (
            validated,
            admitted-publish M within id asking port app key (some updates) later granted r
                granted-Admissible no_more,
          )
          (publish-publisher M within id asking port app key (some updates) later granted
            granted-Admissible.app_map r (key_in granted-Admissible.app_map.active_stream_keys key)
            granted-Admissible.registered)
      where
        asking : PortMapping C
        asking = put_connection (put_connection entered id waiting) id granted

        no_more : (r.requires_registrant_approval && false) ≡ false
        no_more = ground arith

    -- A connection asks to publish on a stream key, all conditions hold but an approval that its
    -- registrant requires: the connection waits for it, and when the approval comes, with no round
    -- in between, it becomes the publisher of the key, in the state of publishing.
    pub approved_lem :
        (first : Option Sender) (fresh : Fresh)
        → (r.requires_registrant_approval && not n.received_registrant_approval) ≡ true
        → let asked = (requested_publish M within id p port app key first fresh).0 in
          let q =
            (handle_validation_response {M = M} within id port (approve updates) later asked).0 in
          (state_in asked.connections id ≡ some (waiting_for_publish_validation app key))
          × ((key_of q app key).publisher ≡ some id)
          × (state_in q.connections id ≡ some (publishing app key))
    unfolding waiting entered put_connection
    approved_lem first fresh approval =
        rw (admitted-asks M within id p port app key first fresh n r may approval) (
          rw (lookup-insert_self id waiting entered.connections, state_in) refl,
          validated-publish.0,
          validated-publish.1,
        )
