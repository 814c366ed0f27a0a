-- ===== src/RtmpSteps/Reader/Life.antt =====
-- A stream from its start on: all of its media reach the RTMP endpoint, in order.
use mmids_core.Common.{
  String, ◌≡◌, refl, inl, inr, false, Option, none, some, List, [], ◌∷◌, ◌++◌, map, Option-cases,
  nat_eq, string_eq, All, Map, lookup, insert, lookup-insert_self,
}
use mmids_core.Metadata.Buffer.{◌>>=◌}
use mmids_core.Workflows.Media.{
  StreamId, MediaNotification, MediaNotificationContent, new_incoming_stream,
}
use mmids_core.RtmpServer.Types.{
  no_restriction, exact, listen_for_watchers, watcher_registration_successful,
}
use mmids_core.RtmpSteps.Conversion.{MetadataFormat}
use mmids_core.RtmpSteps.Reader.{
  ExternalStreamHandlers, WatchRegistrationStatus, inactive, pending, ActiveStream,
  ExternalStreamReader, Effect, ask_endpoint, wait_for_watchers, Fresh, send_contents, prepare,
  prepare_stream,
}
use mmids_core.RtmpSteps.Reader.Handlers.{
  start_stream, handle_media, handle_rtmp_watch_notification,
}
use mmids_core.RtmpSteps.Reader.Delivery.{
  IsData, note, feed, feed-pending, feed-active, send_contents-append, send_contents-streams,
  confirmed,
}

module _ {C M X F : Type 0} (handlers : ExternalStreamHandlers X F)
    (format : MetadataFormat M) where
  -- A stream starts, media comes, the endpoint confirms the registration, and more media comes: all
  -- effects, and what is passed on.
  unfoldable pub life_of_stream :
      ExternalStreamReader X
      → Fresh
      → StreamId
      → String
      → List MediaNotificationContent
      → List MediaNotificationContent
      → Option (List (Effect C M X) × List MediaNotification)
  unfolding feed
  life_of_stream s fresh id stream_name xs ys =
      handle_media handlers format s fresh id (new_incoming_stream stream_name)
      >>= λ (started : (ExternalStreamReader X × List (Effect C M X)) × List MediaNotification).
          feed handlers format (started.0).0 fresh id xs >>= λ first.
          handle_rtmp_watch_notification handlers format (first.0).0 fresh id
            watcher_registration_successful
          >>= λ (confirmed_then : ExternalStreamReader X × List (Effect C M X)).
              feed handlers format confirmed_then.0 fresh id ys >>= λ second. some (
                (started.0).1 ++ ((first.0).1 ++ (confirmed_then.1 ++ (second.0).1)),
                started.1 ++ (first.1 ++ second.1),
              )

module _ {X F : Type 0} (handlers : ExternalStreamHandlers X F) where
  unfoldable started_stream : Fresh → StreamId → String → WatchRegistrationStatus → ActiveStream X
  started_stream fresh id stream_name status = record {
    id = id;
    stream_name = stream_name;
    pending_media = [];
    rtmp_output_status = status;
    external_stream_handler = handlers.generate id;
  }

  unfoldable streams_with :
      ExternalStreamReader X → Fresh → StreamId → String → Map StreamId (ActiveStream X)
  streams_with s fresh id stream_name =
      insert id (started_stream fresh id stream_name (pending fresh.media_channel))
        (insert id (started_stream fresh id stream_name inactive) s.active_streams)

module _ {C M X F : Type 0} (handlers : ExternalStreamHandlers X F) (format : MetadataFormat M)
    (s : ExternalStreamReader X) (fresh : Fresh) (id : StreamId) (stream_name : String) where
  abbrev pub asked_first : List (Effect C M X)
  asked_first =
      ask_endpoint (
        listen_for_watchers 1935 s.watcher_app_name (exact id) fresh.media_channel
          fresh.watch_channel no_restriction false false)
      ∷ wait_for_watchers fresh.watch_channel id
      ∷ []

  start_stream-pending :
      lookup id s.active_streams ≡ none
      → handle_media handlers format s fresh id (new_incoming_stream stream_name)
        ≡ some (
          (record s { active_streams = streams_with handlers s fresh id stream_name }, asked_first),
          note id (new_incoming_stream stream_name) ∷ [],
        )
  unfolding handle_media start_stream prepare_stream prepare started_stream streams_with
  start_stream-pending none_there =
      rw (none_there, start_stream)
        (rw
          (
            lookup-insert_self id (started_stream handlers fresh id stream_name inactive)
                s.active_streams,
            prepare_stream,
          )
          refl)

  abbrev pub passed :
      List MediaNotification
      → Option (List (Effect C M X))
      → Option (List (Effect C M X) × List MediaNotification)
  passed out none = none
  passed out (some sent) = some (asked_first ++ sent, out)

  abbrev pub send_all : List MediaNotificationContent → Option (List (Effect C M X))
  send_all contents = send_contents handlers format s id fresh.media_channel contents

  -- A new stream starts at a reader, media comes, the endpoint confirms the registration, and more
  -- media comes: the reader first asks for the registration, and then sends all the media that can
  -- be converted, in order and each once, whether it came before or after the confirmation; and it
  -- passes on all that it was given. It panics only if the conversion of the same media panics.
  pub life_of_stream_lem :
      (xs ys : List MediaNotificationContent)
      → All IsData xs
      → All IsData ys
      → lookup id s.active_streams ≡ none
      → life_of_stream handlers format s fresh id stream_name xs ys
        ≡ passed
            (note id (new_incoming_stream stream_name) ∷ map (note id) xs ++ map (note id) ys)
            (send_all (xs ++ ys))
  unfolding life_of_stream started_stream streams_with
  life_of_stream_lem xs ys dx dy none_there =
      let first = started_stream handlers fresh id stream_name (pending fresh.media_channel) in
      let (streams, fed, there) =
        feed-pending {C = C} handlers format
          (record s { active_streams = streams_with handlers s fresh id stream_name }) fresh id
          first fresh.media_channel xs dx (lookup-insert_self id first _) refl in
      let (streams', confirmed_then, there') =
        confirmed {C = C} handlers format (record s { active_streams = streams }) fresh id
          (record first { pending_media = xs }) fresh.media_channel there refl in
      let last =
        feed-active {C = C} handlers format (record s { active_streams = streams' }) fresh id _
          fresh.media_channel ys dy there' refl in
      let same : (t : Map StreamId (ActiveStream X)) (contents : List MediaNotificationContent)
          → send_contents {C = C} handlers format (record s { active_streams = t }) id
              fresh.media_channel contents
            ≡ send_all contents =
        λ t contents.
          send_contents-streams {C = C} handlers format s t id fresh.media_channel contents in
      rw (start_stream-pending none_there, fed, confirmed_then, same streams xs)
        (rw (send_contents-append {C = C} handlers format s id fresh.media_channel xs ys)
          (elim (Option-cases (send_all xs)) [
            | inl k ↦ rw k refl
            | inr (a, k) ↦
                rw (k, last, same streams' ys)
                  (elim (Option-cases (send_all ys)) [ inl l ↦ rw l refl | inr (b, l) ↦ rw l refl ])
          ]))
