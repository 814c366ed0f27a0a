-- ===== src/RtmpServer/Linked/Clean.antt =====
-- Connections that stop, or that are gone: the port agrees with its connections afterwards, and a
-- connection that is gone stands at no key.
use mmids_core.Common.{
  String, ◌≡◌, refl, inl, inr, none, some, Bool-cases, Option-cases, ◌==◌, nat_eq, string_eq,
  lookup, insert, remove, lookup-insert_ne, lookup-remove_self, lookup-remove_ne,
}
use mmids_core.RtmpServer.Types.{ConnectionId}
use mmids_core.RtmpServer.State.{
  ConnectionState, no_state, waiting_for_publish_validation, waiting_for_watch_validation,
  publishing, watching, Connection, PortMapping, put_key, put_connection,
}
use mmids_core.RtmpServer.Publishing.{
  leave_key, leave_publishing, stop_publish_of, handle_connection_stop_publish,
}
use mmids_core.RtmpServer.Watching.{leave_watching, stop_watch_of, handle_connection_stop_watch}
use mmids_core.RtmpServer.Endpoint.{clean_state, clean_disconnected_connection}
use mmids_core.RtmpServer.Views.{state_in}
use mmids_core.RtmpServer.Linked.{
  Idle, LinkedBut, Linked, Absent, Linked-LinkedBut, LinkedBut-Linked, AbsentBut-Absent,
  Idle-Absent, connections-Linked,
}
use mmids_core.RtmpServer.Linked.Leave.{Elsewhere, leave_publishing-Linked, leave_watching-Linked}

module _ {C : Type 0} (M : Type 0) (id : ConnectionId) (p : PortMapping C) where
  state_at :
      (n : Connection) → lookup id p.connections ≡ some n → state_in p.connections id ≡ some n.state
  state_at n h = rw (h, state_in) refl

  put_elsewhere : (n : Connection) → Elsewhere M p id "" "" (insert id n p.connections)
  put_elsewhere n x other = lookup-insert_ne id x n p.connections other

  removed_elsewhere : Elsewhere M p id "" "" (remove id p.connections)
  removed_elsewhere x other = lookup-remove_ne id x p.connections other

module _ {Bad : ConnectionId → Type 0} {C : Type 0} (M : Type 0) (id : ConnectionId)
    (p : PortMapping C) where
  stop_publish_of-Linked :
      (n : Connection) (s : ConnectionState)
      → state_in p.connections id ≡ some s
      → (LinkedBut Bad) p
      → (LinkedBut Bad) (stop_publish_of {M = M} id p n s).0
  unfolding stop_publish_of put_connection
  stop_publish_of-Linked n (publishing app key) e v =
      leave_publishing-Linked M p id app key _ (put_elsewhere M id p _) e v
  stop_publish_of-Linked n no_state e v = v
  stop_publish_of-Linked n (waiting_for_publish_validation app key) e v = v
  stop_publish_of-Linked n (waiting_for_watch_validation app key) e v = v
  stop_publish_of-Linked n (watching app key) e v = v

  pub stop_publish-Linked :
      (LinkedBut Bad) p → (LinkedBut Bad) (handle_connection_stop_publish {M = M} id p).0
  unfolding handle_connection_stop_publish
  stop_publish-Linked v = elim (Option-cases (lookup id p.connections)) [
    | inl h ↦ rw (h, handle_connection_stop_publish) v
    | inr (n, h) ↦
        rw (h, handle_connection_stop_publish)
          (stop_publish_of-Linked n n.state (state_at M id p n h) v)
  ]

  stop_watch_of-Linked :
      (n : Connection) (s : ConnectionState)
      → state_in p.connections id ≡ some s
      → (LinkedBut Bad) p
      → (LinkedBut Bad) (stop_watch_of {M = M} id p n s).0
  unfolding stop_watch_of put_connection
  stop_watch_of-Linked n (watching app key) e v =
      leave_watching-Linked M p id app key _ (put_elsewhere M id p _) e v
  stop_watch_of-Linked n no_state e v = v
  stop_watch_of-Linked n (waiting_for_publish_validation app key) e v = v
  stop_watch_of-Linked n (waiting_for_watch_validation app key) e v = v
  stop_watch_of-Linked n (publishing app key) e v = v

  pub stop_watch-Linked :
      (LinkedBut Bad) p → (LinkedBut Bad) (handle_connection_stop_watch {M = M} id p).0
  unfolding handle_connection_stop_watch
  stop_watch-Linked v = elim (Option-cases (lookup id p.connections)) [
    | inl h ↦ rw (h, handle_connection_stop_watch) v
    | inr (n, h) ↦
        rw (h, handle_connection_stop_watch)
          (stop_watch_of-Linked n n.state (state_at M id p n h) v)
  ]

  Idle-Linked :
      Idle (state_in p.connections id)
      → (LinkedBut Bad) p
      → (LinkedBut Bad) (record p { connections = remove id p.connections })
  Idle-Linked idle v =
      connections-Linked p id _ (removed_elsewhere M id p) (Idle-Absent p id v idle) v

  clean_state-Linked :
      (s : ConnectionState)
      → state_in p.connections id ≡ some s
      → (LinkedBut Bad) p
      → (LinkedBut Bad)
          (clean_state {M = M} id (record p { connections = remove id p.connections }) s).0
  unfolding clean_state
  clean_state-Linked (publishing app key) e v =
      leave_publishing-Linked M p id app key _ (removed_elsewhere M id p) e v
  clean_state-Linked (watching app key) e v =
      leave_watching-Linked M p id app key _ (removed_elsewhere M id p) e v
  clean_state-Linked no_state e v = Idle-Linked (rw e tt) v
  clean_state-Linked (waiting_for_publish_validation app key) e v = Idle-Linked (rw e tt) v
  clean_state-Linked (waiting_for_watch_validation app key) e v = Idle-Linked (rw e tt) v

  pub clean-Linked :
      (LinkedBut Bad) p → (LinkedBut Bad) (clean_disconnected_connection {M = M} id p).0
  unfolding clean_disconnected_connection
  clean-Linked v = elim (Option-cases (lookup id p.connections)) [
    | inl h ↦ rw (h, clean_disconnected_connection) v
    | inr (n, h) ↦
        rw (h, clean_disconnected_connection) (clean_state-Linked n.state (state_at M id p n h) v)
  ]

module _ {C : Type 0} (M : Type 0) (id : ConnectionId) (p : PortMapping C) where
  leave_publishing-connections :
      (app key : String) → (leave_publishing {M = M} p id app key).0.connections ≡ p.connections
  unfolding leave_publishing leave_key put_key
  leave_publishing-connections app key = elim (Option-cases (lookup app p.rtmp_applications)) [
    | inl e ↦ rw (e, leave_publishing) refl
    | inr (a, e) ↦ elim (Option-cases (lookup key a.active_stream_keys)) [
      | inl f ↦ rw (e, f, leave_publishing) refl
      | inr (c, f) ↦ elim (Option-cases c.publisher) [
        | inl g ↦ rw (e, f, g, leave_publishing, leave_key) refl
        | inr (other, g) ↦ elim (Bool-cases (other == id)) [
          | inl k ↦ rw (e, f, g, k, leave_publishing, leave_key) refl
          | inr k ↦ rw (e, f, g, k, leave_publishing, leave_key) refl
        ]
      ]
    ]
  ]

  leave_watching-connections :
      (app key : String) → (leave_watching {M = M} p id app key).0.connections ≡ p.connections
  unfolding leave_watching put_key
  leave_watching-connections app key = elim (Option-cases (lookup app p.rtmp_applications)) [
    | inl e ↦ rw (e, leave_watching) refl
    | inr (a, e) ↦ elim (Option-cases (lookup key a.active_stream_keys)) [
      | inl f ↦ rw (e, f, leave_watching) refl
      | inr (c, f) ↦ rw (e, f, leave_watching) refl
    ]
  ]

  clean_state-connections :
      (s : ConnectionState) → (clean_state {M = M} id p s).0.connections ≡ p.connections
  unfolding clean_state
  clean_state-connections no_state = refl
  clean_state-connections (waiting_for_publish_validation app key) = refl
  clean_state-connections (waiting_for_watch_validation app key) = refl
  clean_state-connections (publishing app key) = leave_publishing-connections app key
  clean_state-connections (watching app key) = leave_watching-connections app key

module _ {C : Type 0} (M : Type 0) (id : ConnectionId) (p : PortMapping C) where
  clean-lookup : lookup id (clean_disconnected_connection {M = M} id p).0.connections ≡ none
  unfolding clean_disconnected_connection
  clean-lookup = elim (Option-cases (lookup id p.connections)) [
    | inl h ↦ rw (h, clean_disconnected_connection) h
    | inr (n, h) ↦
        rw (h, clean_disconnected_connection)
          (rw
            (clean_state-connections M id (record p { connections = remove id p.connections })
              n.state)
            (lookup-remove_self id p.connections))
  ]

  -- A connection to a linked port is gone: after the clean-up the port is still linked, and the
  -- connection is neither publisher nor watcher of any stream key of it.
  pub clean-Absent :
      Linked p
      → let cleaned = (clean_disconnected_connection {M = M} id p).0 in
        Linked cleaned × Absent cleaned id
  clean-Absent v =
      let cleaned = (clean_disconnected_connection {M = M} id p).0 in
      let after = clean-Linked M id p (Linked-LinkedBut p v) in
      (
        LinkedBut-Linked cleaned after,
        AbsentBut-Absent cleaned id (Idle-Absent cleaned id after (rw (clean-lookup, state_in) tt)),
      )
