-- ===== src/RtmpSteps/Reader/Delivery.antt =====
-- The media of a stream reach the RTMP endpoint, whenever the endpoint confirms the registration.
use mmids_core.Common.{
  ◌≡◌, refl, inl, inr, Option, some, List, [], ◌∷◌, ◌++◌, map, append-nil, append_assoc,
  Option-cases, nat_eq, string_eq, All, Map, lookup, insert, lookup-insert_self,
}
use mmids_core.Metadata.Buffer.{◌>>=◌}
use mmids_core.Workflows.Media.{
  StreamId, MediaNotification, MediaNotificationContent, new_incoming_stream, stream_disconnected,
  metadata, media_payload,
}
use mmids_core.Workflows.Requests.{Sender}
use mmids_core.RtmpServer.Types.{watcher_registration_successful}
use mmids_core.RtmpSteps.Conversion.{MetadataFormat}
use mmids_core.RtmpSteps.Reader.{
  ExternalStreamHandlers, pending, active, ActiveStream, ExternalStreamReader, Effect, Fresh,
  note_watch, send_content, send_contents, prepare, prepare_stream,
}
use mmids_core.RtmpSteps.Reader.Handlers.{
  deliver, pass_content, handle_media, handle_rtmp_watch_notification,
}

-- Metadata or a payload, not the start or the end of a stream.
abbrev pub IsData : MediaNotificationContent → Type 0
IsData (metadata pairs) = Unit
IsData (media_payload m) = Unit
IsData _ = ⊥

abbrev pub note : StreamId → MediaNotificationContent → MediaNotification
note id content = record { stream_id = id; content = content }

module _ {C M X F : Type 0} (handlers : ExternalStreamHandlers X F)
    (format : MetadataFormat M) where
  -- Media of a stream one after the other.
  unfoldable pub feed :
      ExternalStreamReader X
      → Fresh
      → StreamId
      → List MediaNotificationContent
      → Option ((ExternalStreamReader X × List (Effect C M X)) × List MediaNotification)
  feed s fresh id [] = some ((s, []), [])
  feed s fresh id (content ∷ rest) = handle_media handlers format s fresh id content >>= λ h.
      feed (h.0).0 fresh id rest >>= λ r. some (((r.0).0, (h.0).1 ++ (r.0).1), h.1 ++ r.1)

  handle_media-data :
      (s : ExternalStreamReader X) (fresh : Fresh) (id : StreamId)
      (content : MediaNotificationContent)
      → IsData content
      → handle_media handlers format s fresh id content ≡ (
          pass_content handlers format s id content
          >>= λ (handled : ExternalStreamReader X × List (Effect C M X)).
              some (handled, note id content ∷ []))
  unfolding handle_media
  handle_media-data s fresh id (metadata pairs) d = refl
  handle_media-data s fresh id (media_payload m) d = refl
  handle_media-data s fresh id (new_incoming_stream name) d = absurd d
  handle_media-data s fresh id stream_disconnected d = absurd d

  -- While the registration is pending, media waits.
  pub feed-pending :
      (s : ExternalStreamReader X) (fresh : Fresh) (id : StreamId) (stream : ActiveStream X)
      (ch : Sender) (xs : List MediaNotificationContent)
      → All IsData xs
      → lookup id s.active_streams ≡ some stream
      → stream.rtmp_output_status ≡ pending ch
      → (streams : Map StreamId (ActiveStream X)) × (feed s fresh id xs
          ≡ some ((record s { active_streams = streams }, []), map (note id) xs))
        × (lookup id streams ≡ some (record stream { pending_media = stream.pending_media ++ xs }))
  unfolding feed pass_content deliver
  feed-pending s fresh id stream ch [] d e w =
      (s.active_streams, refl, rw (append-nil stream.pending_media) e)
  feed-pending s fresh id stream ch (x ∷ xs) d e w =
      let waits = record stream { pending_media = stream.pending_media ++ x ∷ [] } in
      let s' = record s { active_streams = insert id waits s.active_streams } in
      let (streams, fed, there) =
        feed-pending s' fresh id waits ch xs d.1 (lookup-insert_self id waits s.active_streams) w in
      (
        streams,
        rw (handle_media-data s fresh id x d.0, e, w, pass_content, deliver) (rw fed refl),
        rw (← append_assoc stream.pending_media (x ∷ []) xs) there,
      )

  -- Once it is active, media is sent at once.
  pub feed-active :
      (s : ExternalStreamReader X) (fresh : Fresh) (id : StreamId) (stream : ActiveStream X)
      (ch : Sender) (ys : List MediaNotificationContent)
      → All IsData ys
      → lookup id s.active_streams ≡ some stream
      → stream.rtmp_output_status ≡ active ch
      → feed s fresh id ys ≡ (
          send_contents handlers format s stream.id ch ys >>= λ (effects : List (Effect C M X)).
          some ((s, effects), map (note id) ys))
  unfolding feed pass_content deliver send_contents
  feed-active s fresh id stream ch [] d e w = refl
  feed-active s fresh id stream ch (y ∷ ys) d e w =
      rw (handle_media-data s fresh id y d.0, e, w, pass_content, deliver)
        (elim (Option-cases (send_content {C = C} handlers format s stream.id ch y)) [
          | inl k ↦ rw k refl
          | inr (effects, k) ↦
              rw (k, feed-active s fresh id stream ch ys d.1 e w)
                (elim (Option-cases (send_contents {C = C} handlers format s stream.id ch ys)) [
                  | inl l ↦ rw l refl
                  | inr (further, l) ↦ rw l refl
                ])
        ])

  pub send_contents-append :
      (s : ExternalStreamReader X) (id : StreamId) (ch : Sender)
      (xs ys : List MediaNotificationContent)
      → send_contents handlers format s id ch (xs ++ ys) ≡ (
          send_contents handlers format s id ch xs >>= λ (a : List (Effect C M X)).
          send_contents handlers format s id ch ys >>= λ (b : List (Effect C M X)). some (a ++ b))
  unfolding send_contents
  send_contents-append s id ch [] ys =
      elim (Option-cases (send_contents {C = C} handlers format s id ch ys)) [
        | inl l ↦ rw l refl
        | inr (b, l) ↦ rw l refl
      ]
  send_contents-append s id ch (x ∷ xs) ys =
      elim (Option-cases (send_content {C = C} handlers format s id ch x)) [
        | inl k ↦ rw k refl
        | inr (effects, k) ↦
            rw (k, send_contents-append s id ch xs ys)
              (elim (Option-cases (send_contents {C = C} handlers format s id ch xs)) [
                | inl l ↦ rw l refl
                | inr (a, l) ↦
                    rw l (elim (Option-cases (send_contents {C = C} handlers format s id ch ys)) [
                      | inl m ↦ rw m refl
                      | inr (b, m) ↦ rw m (rw (append_assoc effects a b) refl)
                    ])
              ])
      ]

  -- What is sent does not depend on the streams.
  pub send_contents-streams :
      (s : ExternalStreamReader X) (streams : Map StreamId (ActiveStream X)) (id : StreamId)
      (ch : Sender) (xs : List MediaNotificationContent)
      → send_contents {C = C} handlers format (record s { active_streams = streams }) id ch xs
        ≡ send_contents handlers format s id ch xs
  unfolding send_contents send_content
  send_contents-streams s streams id ch [] = refl
  send_contents-streams s streams id ch (x ∷ xs) =
      rw (send_contents-streams s streams id ch xs) refl

  -- A registration is confirmed: what has waited is sent, and the stream is active.
  pub confirmed :
      (s : ExternalStreamReader X) (fresh : Fresh) (id : StreamId) (stream : ActiveStream X)
      (ch : Sender)
      → lookup id s.active_streams ≡ some stream
      → stream.rtmp_output_status ≡ pending ch
      → let ready = record stream {
        pending_media = [];
        rtmp_output_status = active ch;
        external_stream_handler =
            handlers.prepare_stream stream.external_stream_handler stream.stream_name;
      } in
        (streams : Map StreamId (ActiveStream X)) × (handle_rtmp_watch_notification handlers format
            s fresh id watcher_registration_successful
          ≡ (send_contents handlers format s stream.id ch stream.pending_media
              >>= λ (effects : List (Effect C M X)).
                  some (record s { active_streams = streams }, effects)))
        × (lookup id streams ≡ some ready)
  unfolding handle_rtmp_watch_notification note_watch prepare_stream prepare
  confirmed s fresh id stream ch e w =
      let noted = record stream { rtmp_output_status = active ch } in
      (
        _,
        rw (e, w, handle_rtmp_watch_notification, note_watch)
            (rw (lookup-insert_self id noted s.active_streams, prepare_stream)
              (rw
                (send_contents-streams s (insert id noted s.active_streams) stream.id ch
                  stream.pending_media)
                (elim (Option-cases
                  (send_contents {C = C} handlers format s stream.id ch stream.pending_media)) [
                    | inl k ↦ rw k refl
                    | inr (effects, k) ↦ rw k refl
                  ]))),
        lookup-insert_self id _ (insert id noted s.active_streams),
      )
