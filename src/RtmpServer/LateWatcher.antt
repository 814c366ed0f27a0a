-- ===== src/RtmpServer/LateWatcher.antt =====
-- A watcher that comes late still gets the sequence header, and from then on the media of its key.
use mmids_core.Common.{
  ℕ, String, ◌≡◌, refl, ap, inl, inr, Bool, true, false, not, ◌&&◌, Option, some, List, [], ◌∷◌,
  ◌++◌, map, if◌then◌else◌, Bool-cases, ◌==◌, nat_eq, string_eq, is_empty, Map, values, lookup,
  insert, lookup-insert_self,
}
use mmids_core.Common.Int.{ℤ, pos}
use mmids_core.Workflows.Requests.{Sender}
use mmids_core.RtmpServer.Types.{
  ConnectionId, RtmpEndpointMediaData, new_stream_metadata, new_video_data, new_audio_data,
  is_ip_allowed, registration_eq, stream_key_became_active,
}
use mmids_core.RtmpServer.State.{
  WatcherRegistrant, WatcherDetails, StreamKeyConnections, RtmpAppMapping, Connection, PortMapping,
  send_media, tell_watcher, Fresh, find_registrant, put_key, put_connection,
}
use mmids_core.RtmpServer.Removal.{in_app}
use mmids_core.RtmpServer.Watching.{
  sequence_headers, note_headers, receive_media, watch, watch_or_ask,
  handle_connection_request_watch,
}
use mmids_core.RtmpServer.Views.{key_in}

-- Somewhere in the list.
pub record Occurs {ℓ} {A : Type ℓ} (a : A) (xs : List A) : Type ℓ where
  pub before : List A
  pub after : List A
  pub place : xs ≡ before ++ a ∷ after

Occurs-cons {ℓ} : {A : Type ℓ} {a : A} (x : A) (xs : List A) → Occurs a xs → Occurs a (x ∷ xs)
Occurs-cons x xs o = record {
  before = x ∷ o.before;
  after = o.after;
  place = ap (λ l. x ∷ l) o.place;
}

Occurs-insert {ℓ κ} :
    {V : Type ℓ} {B : Type κ} (f : V → B) (id : ConnectionId) (v : V) (m : Map ConnectionId V)
    → Occurs (f v) (map f (values (insert id v m)))
unfolding insert
Occurs-insert f id v [] = record { before = []; after = []; place = refl }
Occurs-insert f id v ((j, w) ∷ m) = elim (Bool-cases (j == id)) [
  | inl h ↦ rw h (record { before = []; after = map f (values m); place = refl })
  | inr h ↦ rw h (Occurs-cons (f w) _ (Occurs-insert f id v m))
]

module _ {M : Type 0} where
  note_headers-watchers :
      (c : StreamKeyConnections) (d : RtmpEndpointMediaData M)
      → (note_headers c d).watchers ≡ c.watchers
  unfolding note_headers
  note_headers-watchers c (new_stream_metadata m) = refl
  note_headers-watchers c (new_video_data k true d t o) = refl
  note_headers-watchers c (new_video_data k false d t o) = refl
  note_headers-watchers c (new_audio_data true d t) = refl
  note_headers-watchers c (new_audio_data false d t) = refl

module _ {C : Type 0} (M : Type 0) (app key : String) where
  -- The media for a key reach a watcher of it.
  receive_media-Occurs :
      (q : PortMapping C) (b : RtmpAppMapping C) (d : RtmpEndpointMediaData M) (id : ConnectionId)
      (w : WatcherDetails) (watchers : Map ConnectionId WatcherDetails)
      → lookup app q.rtmp_applications ≡ some b
      → (key_in b.active_stream_keys key).watchers ≡ insert id w watchers
      → Occurs (send_media w.media_sender d) (in_app (λ p a. receive_media p app key d a) app q).1
  unfolding in_app receive_media
  receive_media-Occurs q b d id w watchers e h =
      rw (e, in_app)
        (rw (note_headers-watchers (key_in b.active_stream_keys key) d, h)
          (Occurs-insert (λ (x : WatcherDetails). send_media x.media_sender d) id w watchers))

  module _ (within : C → ℕ → Bool) (p : PortMapping C) (a : RtmpAppMapping C) (n : Connection)
      (r : WatcherRegistrant C) (id : ConnectionId) (connected : lookup id p.connections ≡ some n)
      (registered : lookup app p.rtmp_applications ≡ some a)
      (for_key : find_registrant key a.watcher_registrants ≡ some r)
      (address : is_ip_allowed within n.socket_address r.ip_restrictions ≡ true)
      (approval : (r.requires_registrant_approval && not n.received_registrant_approval)
        ≡ false) where
    -- A request that is accepted.
    watched :
        (port : ℕ) (updates : Option Sender) (fresh : Fresh)
        → handle_connection_request_watch {M = M} within id p port app key updates fresh
          ≡ watch within id p app key updates fresh n a r (key_in a.active_stream_keys key)
    unfolding handle_connection_request_watch watch_or_ask
    watched port updates fresh =
        rw
          (
            connected, registered, for_key, address, approval, handle_connection_request_watch,
            watch_or_ask,
          )
          refl

    watch-media :
        (updates : Option Sender) (fresh : Fresh) (d : RtmpEndpointMediaData M)
        → let q =
            (watch {M = M} within id p app key updates fresh n a r
              (key_in a.active_stream_keys key)).0 in
          Occurs (send_media fresh.channel d) (in_app (λ p a. receive_media p app key d a) app q).1
    unfolding watch put_connection put_key
    watch-media updates fresh d =
        receive_media-Occurs _ _ d id (record { media_sender = fresh.channel })
          (key_in a.active_stream_keys key).watchers (lookup-insert_self app _ p.rtmp_applications)
          (rw (lookup-insert_self key _ a.active_stream_keys) refl)

    watch-header :
        (updates : Option Sender) (fresh : Fresh) (header : List ℕ)
        → (key_in a.active_stream_keys key).latest_video_sequence_header ≡ some header
        → Occurs
            (send_media fresh.channel (new_video_data true true header 0 (pos 0)))
            (watch {M = M} within id p app key updates fresh n a r
              (key_in a.active_stream_keys key)).1
    unfolding watch sequence_headers
    watch-header updates fresh header h = rw h (record {
      before =
          if is_empty (key_in a.active_stream_keys key).watchers
          then tell_watcher r.response_channel (stream_key_became_active key updates) ∷ []
          else [];
      after = _;
      place = refl;
    })

  -- A video sequence header arrives for a stream key, and then a connection asks to watch the key
  -- that is connected, has a registrant and an allowed address, and lacks no approval: it is sent
  -- that header, and any media that arrives for the key next is sent to it.
  pub late_watcher_lem :
      (within : C → ℕ → Bool) (p : PortMapping C) (a : RtmpAppMapping C) (n : Connection)
      (r : WatcherRegistrant C) (id : ConnectionId) (port : ℕ) (updates : Option Sender)
      (fresh : Fresh) (is_keyframe : Bool) (header : List ℕ) (timestamp : ℕ) (offset : ℤ)
      (d : RtmpEndpointMediaData M)
      → lookup id p.connections ≡ some n
      → lookup app p.rtmp_applications ≡ some a
      → find_registrant key a.watcher_registrants ≡ some r
      → is_ip_allowed within n.socket_address r.ip_restrictions ≡ true
      → (r.requires_registrant_approval && not n.received_registrant_approval) ≡ false
      → let started =
          (receive_media {M = M} p app key
            (new_video_data is_keyframe true header timestamp offset)
            a).0 in
        let (q, effects) =
          handle_connection_request_watch {M = M} within id started port app key updates fresh in
        Occurs (send_media fresh.channel (new_video_data true true header 0 (pos 0))) effects
        × Occurs (send_media fresh.channel d) (in_app (λ p a. receive_media p app key d a) app q).1
  unfolding receive_media note_headers put_key
  late_watcher_lem within p a n r id port updates fresh is_keyframe header timestamp offset d
        connected registered for_key address approval =
      rw
        (watched within started b n r id connected there for_key address approval port updates
          fresh)
        (
          watch-header within started b n r id connected there for_key address approval updates
              fresh header (rw (lookup-insert_self key _ a.active_stream_keys) refl),
          watch-media within started b n r id connected there for_key address approval updates fresh
              d,
        )
    where
      b : RtmpAppMapping C
      b = record a {
        active_stream_keys =
            insert key
              (record (key_in a.active_stream_keys key) {
                latest_video_sequence_header = some header;
              })
              a.active_stream_keys;
      }

      started : PortMapping C
      started = record p { rtmp_applications = insert app b p.rtmp_applications }

      there : lookup app started.rtmp_applications ≡ some b
      there = lookup-insert_self app b p.rtmp_applications
