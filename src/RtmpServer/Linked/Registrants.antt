-- ===== src/RtmpServer/Linked/Registrants.antt =====
-- Registrants that come or go, and media, keep the port in agreement with its connections.
use mmids_core.Common.{
  String, ◌≡◌, refl, inl, inr, true, false, ◌&&◌, some, List, [], ◌∷◌, Bool-cases, Option-cases,
  ◌==◌, nat_eq, string_eq, ==_eq, is_empty, Map, or_default, keys, lookup, insert, contains_key,
  lookup-insert,
}
use mmids_core.RtmpServer.Types.{
  ConnectionId, StreamKeyRegistration, registration_eq, RtmpEndpointMediaData, new_stream_metadata,
  new_video_data, new_audio_data,
}
use mmids_core.RtmpServer.State.{
  StreamKeyConnections, RtmpAppMapping, PortMapping, Effect, Fresh, no_registrants,
}
use mmids_core.RtmpServer.Registration.{
  ListenerRequest, publisher_listener, watcher_listener, RegisterListenerParams, can_be_added,
  add_publisher, add_watcher, add_registrant, register_in,
}
use mmids_core.RtmpServer.Removal.{
  drop_publisher, drop_watchers, keys_to_remove, drop_keys, put_app, remove_publisher_from,
  remove_watcher_from,
}
use mmids_core.RtmpServer.Watching.{note_headers, receive_media}
use mmids_core.RtmpServer.Views.{key_in, state_in}
use mmids_core.RtmpServer.Linked.{
  AgreesBut, LinkedBut, empty-Agrees, app-Linked, remove_app-Linked, put_key-Linked, in_app-Agrees,
}

abbrev Keys : Type 0
Keys = Map String StreamKeyConnections

-- What holds of every key, and is kept by what is done to one, holds after the loop.
drop_keys-all {ℓ} :
    {M : Type 0} (P : String → StreamKeyConnections → Type ℓ)
    (drop_from : StreamKeyConnections → StreamKeyConnections × List (Effect M))
    → ((key : String) (c : StreamKeyConnections) → P key c → P key (drop_from c).0)
    → (ks : List String) (active : Keys) → ((key : String) → P key (key_in active key))
    → (key : String) → P key (key_in (drop_keys drop_from ks active).0 key)
unfolding drop_keys
drop_keys-all P drop_from keeps [] active h = h
drop_keys-all P drop_from keeps (k ∷ ks) active h = elim (Option-cases (lookup k active)) [
  | inl e ↦ rw (e, drop_keys) (drop_keys-all P drop_from keeps ks active h)
  | inr (c, e) ↦
      rw (e, drop_keys)
        (drop_keys-all P drop_from keeps ks (insert k (drop_from c).0 active) (λ j.
          elim (Bool-cases (k == j)) [
            | inl q ↦
                rw (lookup-insert k j (drop_from c).0 active, q)
                  (rw (← ==_eq k j q) (keeps k c (rw (e, key_in) at (h k))))
            | inr q ↦ rw (lookup-insert k j (drop_from c).0 active, q) (h j)
          ]))
]

module _ {Bad : ConnectionId → Type 0} {C : Type 0} (M : Type 0) (p : PortMapping C) (app : String)
    (a : RtmpAppMapping C) where
  put_app-Linked :
      (a' : RtmpAppMapping C)
      → ((key : String)
          → AgreesBut Bad (key_in a'.active_stream_keys key) (state_in p.connections) app key)
      → (LinkedBut Bad) p
      → (LinkedBut Bad) (put_app p app a')
  unfolding put_app
  put_app-Linked a' keys v =
      elim (Bool-cases (is_empty a'.publisher_registrants && is_empty a'.watcher_registrants)) [
        | inl h ↦ rw (h, put_app) (remove_app-Linked p app v)
        | inr h ↦ rw (h, put_app) (app-Linked p app a' keys v)
      ]

  module _ (e : lookup app p.rtmp_applications ≡ some a) (v : (LinkedBut Bad) p) where
    pub remove_publisher-Linked :
        (stream_key : StreamKeyRegistration)
        → (LinkedBut Bad) (remove_publisher_from {M = M} p app stream_key a).0
    unfolding remove_publisher_from drop_publisher
    remove_publisher-Linked stream_key =
        elim (Bool-cases (contains_key stream_key a.publisher_registrants)) [
          | inr h ↦ rw (h, remove_publisher_from) v
          | inl h ↦
              rw (h, remove_publisher_from)
                (put_app-Linked _
                  (drop_keys-all (λ key c. AgreesBut Bad c (state_in p.connections) app key)
                    (drop_publisher {M = M} p.connections)
                    (λ key c w. record { publishes = λ id k. cc; watches = w.watches })
                    (keys_to_remove stream_key a.active_stream_keys) a.active_stream_keys
                    (in_app-Agrees p app a e v))
                  v)
        ]

    pub remove_watcher-Linked :
        (stream_key : StreamKeyRegistration)
        → (LinkedBut Bad) (remove_watcher_from {M = M} p app stream_key a).0
    unfolding remove_watcher_from drop_watchers lookup
    remove_watcher-Linked stream_key =
        elim (Bool-cases (contains_key stream_key a.watcher_registrants)) [
          | inr h ↦ rw (h, remove_watcher_from) v
          | inl h ↦
              rw (h, remove_watcher_from)
                (put_app-Linked _
                  (drop_keys-all (λ key c. AgreesBut Bad c (state_in p.connections) app key)
                    (drop_watchers {M = M} p.connections)
                    (λ key c w. record { publishes = w.publishes; watches = λ id k. cc })
                    (keys_to_remove stream_key a.active_stream_keys) a.active_stream_keys
                    (in_app-Agrees p app a e v))
                  v)
        ]

    note_headers-Agrees :
        (c : StreamKeyConnections) (media_data : RtmpEndpointMediaData M) (key : String)
        → AgreesBut Bad c (state_in p.connections) app key
        → AgreesBut Bad (note_headers c media_data) (state_in p.connections) app key
    unfolding note_headers
    note_headers-Agrees c (new_stream_metadata m) key w = w
    note_headers-Agrees c (new_video_data k true d t o) key w = record {
      publishes = w.publishes;
      watches = w.watches;
    }
    note_headers-Agrees c (new_video_data k false d t o) key w = w
    note_headers-Agrees c (new_audio_data true d t) key w = record {
      publishes = w.publishes;
      watches = w.watches;
    }
    note_headers-Agrees c (new_audio_data false d t) key w = w

    pub receive_media-Linked :
        (key : String) (media_data : RtmpEndpointMediaData M)
        → (LinkedBut Bad) (receive_media {M = M} p app key media_data a).0
    unfolding receive_media
    receive_media-Linked key media_data =
        put_key-Linked p app a key _ e
          (note_headers-Agrees _ media_data key (in_app-Agrees p app a e v key)) v

module _ {C : Type 0} (M : Type 0) (params : RegisterListenerParams C) (fresh : Fresh) where
  -- A registrant that joins an app leaves its keys as they are.
  add_registrant-keys :
      (p : PortMapping C) (listener : ListenerRequest) (a : RtmpAppMapping C)
      → (add_registrant {M = M} params fresh listener p.status a).0.active_stream_keys
        ≡ a.active_stream_keys
  unfolding add_registrant add_publisher add_watcher
  add_registrant-keys p (publisher_listener channel stream_id approval) a =
      elim (Bool-cases (can_be_added params.stream_key a.publisher_registrants)) [
        | inl h ↦ rw (h, add_publisher) refl
        | inr h ↦ rw (h, add_publisher) refl
      ]
  add_registrant-keys p (watcher_listener notifications media approval) a =
      elim (Bool-cases (can_be_added params.stream_key a.watcher_registrants)) [
        | inl h ↦ rw (h, add_watcher) refl
        | inr h ↦ rw (h, add_watcher) refl
      ]

module _ {Bad : ConnectionId → Type 0} {C : Type 0} (M : Type 0) (params : RegisterListenerParams C)
    (fresh : Fresh) where
  old_keys :
      (p : PortMapping C)
      → (LinkedBut Bad) p
      → (key : String)
      → AgreesBut Bad
          (key_in
            (or_default
              (lookup params.rtmp_app p.rtmp_applications)
              no_registrants).active_stream_keys
            key)
          (state_in p.connections)
          params.rtmp_app
          key
  unfolding lookup
  old_keys p v key = elim (Option-cases (lookup params.rtmp_app p.rtmp_applications)) [
    | inl e ↦ rw (e, or_default) (empty-Agrees Bad _ params.rtmp_app key)
    | inr (a, e) ↦ rw (e, or_default) (in_app-Agrees p params.rtmp_app a e v key)
  ]

  pub register_in-Linked :
      (p : PortMapping C)
      → (LinkedBut Bad) p
      → (LinkedBut Bad) (register_in {M = M} params fresh p).0
  unfolding register_in
  register_in-Linked p v =
      app-Linked p params.rtmp_app _
        (λ key. rw (add_registrant-keys M params fresh p params.listener _) (old_keys p v key)) v
