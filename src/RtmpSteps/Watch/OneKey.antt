-- ===== src/RtmpSteps/Watch/OneKey.antt =====
-- A watch step for one stream key sends media for no other key.
use mmids_core.Common.{
  ℕ, ◌+◌, String, ◌≡◌, refl, sym, ◌∙◌, ◌⊎◌, inl, inr, Option, none, some, List, [], ◌∷◌, Bool-cases,
  Option-cases, ◌==◌, nat_eq, string_eq, All, All-append, lookup, lookup-insert, lookup-remove,
}
use mathlib.Core.Option.{some-injective}
use mmids_core.Metadata.Buffer.{◌>>=◌}
use mmids_core.Workflows.Media.{
  StreamId, MediaNotification, MediaNotificationContent, new_incoming_stream, stream_disconnected,
  metadata, media_payload,
}
use mmids_core.Workflows.Requests.{Sender}
use mmids_core.RtmpServer.Types.{
  exact, RtmpEndpointMediaData, RtmpEndpointWatcherNotification, watcher_registration_failed,
  watcher_registration_successful, watcher_requiring_approval, stream_key_became_active,
  stream_key_became_inactive,
}
use mmids_core.RtmpSteps.Conversion.{MetadataFormat}
use mmids_core.RtmpSteps.Watch.{
  RtmpWatchStep, StreamWatchers, RtmpWatchStepFutureResult, rtmp_endpoint_gone,
  reactor_manager_gone, reactor_gone, rtmp_watch_notification_received, reactor_workflow_response,
  reactor_update_received, reactor_receiver_canceled, unknown_type, Effect, send_media,
  ask_for_approval, handle_endpoint_notification, send_to_stream, payload_data, offer_media,
  handle_media, handle_all_media, is_active, Turn, goes_on, returns, handle_notification,
  handle_notifications, offered_name, Executed, execute, drop_watchers, forward,
}

-- The effect sends media for no other key.
abbrev pub SendsTo : {C M : Type 0} → String → Effect C M → Type 0
SendsTo key (send_media channel stream_key d) = stream_key ≡ key
SendsTo key _ = Unit

-- The step is for the key, and offers every stream under it.
pub record IsFor (key : String) (s : RtmpWatchStep) : Type 0 where
  pub registered_for : s.stream_key ≡ exact key
  pub offers :
      (id : StreamId) (name : String) → lookup id s.stream_id_to_name_map ≡ some name → name ≡ key

-- Of a result that is there.
abbrev pub Holds {ℓ κ} : {A : Type ℓ} → (A → Type κ) → Option A → Type κ
Holds P none = Unit
Holds P (some a) = P a

module _ (C : Type 0) {M : Type 0} (format : MetadataFormat M) (key : String) where
  abbrev IsKept : RtmpWatchStep × List (Effect C M) → Type 0
  IsKept (s, effects) = IsFor key s × All (SendsTo key) effects

  send_to_stream-Holds :
      (s : RtmpWatchStep) (id : StreamId) (converted : Option (Option (RtmpEndpointMediaData M)))
      → IsFor key s
      → Holds (All (SendsTo {C = C} key)) (send_to_stream format s id converted)
  unfolding send_to_stream
  send_to_stream-Holds s id converted v = elim (Option-cases (lookup id s.stream_id_to_name_map)) [
    | inl e ↦ rw (e, send_to_stream) tt
    | inr (name, e) ↦ rw (e, send_to_stream) (sent name e converted)
  ]
    where
      sent :
          (name : String)
          → lookup id s.stream_id_to_name_map ≡ some name
          → (converted : Option (Option (RtmpEndpointMediaData M)))
          → Holds (All (SendsTo {C = C} key)) (
              converted >>= λ media_data. elim media_data [
                | none ↦ some []
                | some d ↦ some (send_media s.media_channel name d ∷ [])
              ])
      sent name e none = tt
      sent name e (some none) = tt
      sent name e (some (some d)) = (v.offers id name e, tt)

  with_step :
      (s : RtmpWatchStep) (sent : Option (List (Effect C M)))
      → IsFor key s
      → Holds (All (SendsTo key)) sent
      → Holds IsKept (sent >>= λ (effects : List (Effect C M)). some (s, effects))
  with_step s none v h = tt
  with_step s (some effects) v h = (v, h)

  offer_media-IsKept :
      (s : RtmpWatchStep) (id : StreamId) (content : MediaNotificationContent)
      → IsFor key s
      → Holds IsKept (offer_media {C = C} format s id content)
  unfolding offer_media
  offer_media-IsKept s id (new_incoming_stream stream_name) v = (
    record {
      registered_for = v.registered_for;
      offers = λ i name e. elim (Bool-cases (id == i)) [
        | inl h ↦ sym (
            some-injective _ _ (
              rw (h, v.registered_for) at
                (sym (
                    lookup-insert id i (offered_name s.stream_key stream_name)
                      s.stream_id_to_name_map)
                  ∙ e)))
        | inr h ↦ v.offers i name (
            rw h at (
              sym
                (lookup-insert id i (offered_name s.stream_key stream_name) s.stream_id_to_name_map)
              ∙ e))
      ];
    },
    tt,
  )
  offer_media-IsKept s id stream_disconnected v = (
    record {
      registered_for = v.registered_for;
      offers = λ i name e. elim (Bool-cases (id == i)) [
        | inl h ↦ let gone = rw h at (sym (lookup-remove id i s.stream_id_to_name_map) ∙ e) in cc
        | inr h ↦ v.offers i name (rw h at (sym (lookup-remove id i s.stream_id_to_name_map) ∙ e))
      ];
    },
    tt,
  )
  offer_media-IsKept s id (metadata pairs) v = with_step s _ v (
      send_to_stream-Holds s id
        (some (
          some
            (RtmpEndpointMediaData.new_stream_metadata (format.hash_map_to_stream_metadata pairs))))
        v)
  offer_media-IsKept s id (media_payload m) v =
      with_step s _ v (send_to_stream-Holds s id (payload_data s m) v)

  handle_media-IsKept :
      (s : RtmpWatchStep) (media : MediaNotification)
      → IsFor key s
      → Holds IsKept (handle_media {C = C} format s media)
  unfolding handle_media
  handle_media-IsKept s media v = elim (Bool-cases (is_active s.status)) [
    | inl h ↦ rw (h, handle_media) (offer_media-IsKept s media.stream_id media.content v)
    | inr h ↦ rw (h, handle_media) (v, tt)
  ]

  handle_all_media-IsKept :
      (media : List MediaNotification) (s : RtmpWatchStep)
      → IsFor key s
      → Holds IsKept (handle_all_media {C = C} format s media)
  unfolding handle_all_media
  handle_all_media-IsKept [] s v = (v, tt)
  handle_all_media-IsKept (m ∷ media) s v = elim (Option-cases (handle_media {C = C} format s m)) [
    | inl e ↦ rw e tt
    | inr (first, e) ↦
        let kept = rw e at (handle_media-IsKept s m v) in
        elim (Option-cases (handle_all_media {C = C} format first.0 media)) [
          | inl f ↦ rw (e, f) tt
          | inr (second, f) ↦
              let kept' = rw f at (handle_all_media-IsKept media first.0 kept.0) in
              rw (e, f) (kept'.0, All-append (SendsTo key) first.1 second.1 kept.1 kept'.1)
        ]
  ]

  drop_watchers-SendsTo :
      (w : Option StreamWatchers) → All (SendsTo key) (drop_watchers {C = C} {M = M} w)
  drop_watchers-SendsTo none = tt
  drop_watchers-SendsTo (some w) = elim (Option-cases w.cancellation_token) [
    | inl e ↦ rw (e, drop_watchers) tt
    | inr (token, e) ↦ rw (e, drop_watchers) (tt, tt)
  ]

  forward-SendsTo :
      (updates : Option Sender) (token : ℕ) (stream_key : String)
      → All (SendsTo key) (forward {C = C} {M = M} updates token stream_key)
  forward-SendsTo none token stream_key = tt
  forward-SendsTo (some updates) token stream_key = (tt, tt)

  ask_for_approval-SendsTo :
      (s : RtmpWatchStep) (channel : Sender) (stream_key : String) (response_channel : Sender)
      → All (SendsTo key) (ask_for_approval {C = C} {M = M} s channel stream_key response_channel)
  unfolding ask_for_approval
  ask_for_approval-SendsTo s channel stream_key response_channel =
      elim (Option-cases s.reactor_name) [
        | inl e ↦ rw (e, ask_for_approval) (tt, tt)
        | inr (name, e) ↦ rw (e, ask_for_approval) (tt, (tt, tt))
      ]

  same_names :
      (s t : RtmpWatchStep)
      → t.stream_key ≡ s.stream_key
      → t.stream_id_to_name_map ≡ s.stream_id_to_name_map
      → IsFor key s
      → IsFor key t
  same_names s t k m v = record {
    registered_for = k ∙ v.registered_for;
    offers = λ id name e. v.offers id name (rw m at e);
  }

  handle_endpoint_notification-IsKept :
      (s : RtmpWatchStep) (fresh : ℕ) (n : RtmpEndpointWatcherNotification)
      → IsFor key s
      → IsKept (handle_endpoint_notification s fresh n)
  unfolding handle_endpoint_notification
  handle_endpoint_notification-IsKept s fresh watcher_registration_failed v =
      (same_names s _ refl refl v, tt)
  handle_endpoint_notification-IsKept s fresh watcher_registration_successful v =
      (same_names s _ refl refl v, tt)
  handle_endpoint_notification-IsKept s fresh (stream_key_became_active stream_key updates) v = (
    same_names s _ refl refl v,
    All-append (SendsTo key) _ _ (forward-SendsTo updates fresh stream_key)
        (drop_watchers-SendsTo (lookup stream_key s.stream_watchers)),
  )
  handle_endpoint_notification-IsKept s fresh (stream_key_became_inactive stream_key) v =
      (same_names s _ refl refl v, drop_watchers-SendsTo (lookup stream_key s.stream_watchers))
  handle_endpoint_notification-IsKept s fresh (watcher_requiring_approval id stream_key channel) v =
      (v, ask_for_approval-SendsTo s fresh stream_key channel)

  abbrev TurnKept : Turn C M → Type 0
  TurnKept (goes_on t effects) = IsKept (t, effects)
  TurnKept (returns message) = Unit

  handle_notification-TurnKept :
      (s : RtmpWatchStep) (fresh : ℕ) (n : RtmpWatchStepFutureResult)
      → IsFor key s
      → TurnKept (handle_notification s fresh n)
  unfolding handle_notification
  handle_notification-TurnKept s fresh unknown_type v = tt
  handle_notification-TurnKept s fresh rtmp_endpoint_gone v = tt
  handle_notification-TurnKept s fresh reactor_manager_gone v = tt
  handle_notification-TurnKept s fresh reactor_gone v = tt
  handle_notification-TurnKept s fresh (rtmp_watch_notification_received n) v =
      handle_endpoint_notification-IsKept s fresh n v
  handle_notification-TurnKept s fresh (reactor_workflow_response is_valid channel updates) v =
      (v, (tt, tt))
  handle_notification-TurnKept s fresh (reactor_update_received name update) v = (v, tt)
  handle_notification-TurnKept s fresh (reactor_receiver_canceled name) v =
      (same_names s _ refl refl v, drop_watchers-SendsTo (lookup name s.stream_watchers))

  Turn-cases :
      (turn : Turn C M)
      → ((message : String) × (turn ≡ returns message))
        ⊎ ((r : RtmpWatchStep × List (Effect C M)) × (turn ≡ goes_on r.0 r.1))
  Turn-cases (returns message) = inl (message, refl)
  Turn-cases (goes_on t effects) = inr ((t, effects), refl)

  handle_notifications-IsKept :
      (ns : List RtmpWatchStepFutureResult) (s : RtmpWatchStep) (fresh : ℕ)
      → IsFor key s
      → IsKept (handle_notifications s fresh ns).0
  unfolding handle_notifications
  handle_notifications-IsKept [] s fresh v = (v, tt)
  handle_notifications-IsKept (n ∷ ns) s fresh v =
      elim (Turn-cases (handle_notification s fresh n)) [
        | inl (message, e) ↦ rw (e, handle_notifications) (v, tt)
        | inr (r, e) ↦
            let kept = rw e at (handle_notification-TurnKept s fresh n v) in
            let kept' = handle_notifications-IsKept ns r.0 (fresh + 1) kept.0 in
            rw (e, handle_notifications) (kept'.0, All-append (SendsTo key) r.1 _ kept.1 kept'.1)
      ]

  -- A watch step that is registered for one stream key and offers its streams under that key is
  -- executed with any notifications and media: unless it panics it does so afterwards, too, and all
  -- media that it sends is for that key, whatever names the streams have.
  pub execute-IsFor :
      (s : RtmpWatchStep) (fresh : ℕ) (notifications : List RtmpWatchStepFutureResult)
      (media : List MediaNotification)
      → IsFor key s
      → Holds
          (λ (e : Executed C M). IsFor key e.step × All (SendsTo key) e.effects)
          (execute format s fresh notifications media)
  unfolding execute
  execute-IsFor s fresh notifications media v =
      let (first, all_first) = handle_notifications-IsKept notifications s fresh v in
      elim (Option-cases (handle_notifications {C = C} {M = M} s fresh notifications).1) [
        | inr (message, e) ↦ rw (e, execute) (first, all_first)
        | inl e ↦
            rw (e, execute)
              (elim (Option-cases (
                handle_all_media {C = C} format
                  ((handle_notifications {C = C} {M = M} s fresh notifications).0).0 media)) [
                    | inl f ↦ rw f tt
                    | inr (second, f) ↦
                        let kept = rw f at (handle_all_media-IsKept media _ first) in
                        rw f (kept.0, All-append (SendsTo key) _ second.1 all_first kept.1)
                  ])
      ]
