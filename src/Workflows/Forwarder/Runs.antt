-- ===== src/Workflows/Forwarder/Runs.antt =====
-- The forwarder over any notifications and media: its index stays in agreement.
use mmids_core.Common.{
  String, ◌≡◌, refl, ◌∙◌, inl, inr, true, false, Option, none, some, List, [], ◌∷◌, ◌++◌,
  Bool-cases, Option-cases, nat_eq, string_eq, ==_refl, lookup, insert, lookup-remove_self,
  contains, Result, ok, err,
}
use mmids_core.Workflows.Media.{
  StreamId, MediaNotification, MediaNotificationContent, new_incoming_stream, stream_disconnected,
  metadata, media_payload,
}
use mmids_core.Workflows.Requests.{WorkflowStartedOrStoppedEvent, workflow_started, workflow_ended}
use mmids_core.Reactors.Reactor.{ReactorWorkflowUpdate}
use mmids_core.Workflows.Forwarder.Execute.{
  retarget, handle_reactor_update, handle_reactor_response, handle_cancellation,
  handle_notification, handle_notifications, handle_all_media, execute,
}
use mmids_core.Workflows.Forwarder.{
  WorkflowForwarderStep, StreamDetails, FutureResult, event_hub_gone, reactor_manager_gone,
  reactor_gone, workflow_gone, workflow_started_or_stopped, reactor_response_received,
  reactor_update_received, reactor_cancellation_received, unknown_type, Effect,
  handle_workflow_event, end_stream, note_media, handle_media,
}
use mmids_core.Workflows.Forwarder.Index.{ids_of}
use mmids_core.Workflows.Forwarder.Linked.{
  targets_of, Linked, contains-new_targets, targets_of-insert, add_stream-Linked, end_stream-Linked,
  rewritten-Linked, drain_targets-Linked, retarget-Linked,
}

module _ (s : WorkflowForwarderStep) (v : Linked s) where
  new_stream-Linked :
      (m : MediaNotification) (name : String) → Linked (note_media s (new_incoming_stream name) m).0
  unfolding note_media
  new_stream-Linked m name = elim (Option-cases (lookup m.stream_id s.active_streams)) [
    | inl e ↦ rw (e, note_media) (add_stream-Linked s v m name e)
    | inr (stream, e) ↦ rw (e, note_media) v
  ]

  note_media-Linked :
      (c : MediaNotificationContent) (m : MediaNotification) → Linked (note_media s c m).0
  unfolding note_media
  note_media-Linked (new_incoming_stream name) m = new_stream-Linked m name
  note_media-Linked stream_disconnected m =
      elim (Option-cases (lookup m.stream_id s.active_streams)) [
        | inl e ↦ rw (e, note_media) v
        | inr (stream, e) ↦ rw (e, note_media) (end_stream-Linked s v m stream e)
      ]
  note_media-Linked (metadata x) m = v
  note_media-Linked (media_payload p) m = elim (Bool-cases p.is_required_for_decoding) [
    | inr r ↦ rw r v
    | inl r ↦ rw r (elim (Option-cases (lookup m.stream_id s.active_streams)) [
      | inl e ↦ rw (e, note_media) v
      | inr (stream, e) ↦
          rw (e, note_media)
            (rewritten-Linked s v m.stream_id stream
              (record stream { required_media = stream.required_media ++ m ∷ [] }) e refl)
    ])
  ]

  pub handle_media-Linked : (m : MediaNotification) → Linked (handle_media s m).0
  unfolding handle_media
  handle_media-Linked m = note_media-Linked m.content m

  handle_workflow_event-Linked :
      (e : WorkflowStartedOrStoppedEvent) → Linked (handle_workflow_event s e).0
  unfolding handle_workflow_event
  handle_workflow_event-Linked (workflow_started name channel) = v
  handle_workflow_event-Linked (workflow_ended name) = v

  pub handle_reactor_update-Linked :
      (id : StreamId) (update : ReactorWorkflowUpdate)
      → Linked (handle_reactor_update s id update).0
  unfolding handle_reactor_update
  handle_reactor_update-Linked id update = elim (Option-cases (lookup id s.active_streams)) [
    | inl e ↦ rw (e, handle_reactor_update) v
    | inr (stream, e) ↦
        rw (e, handle_reactor_update)
          (elim (Bool-cases update.is_valid) [
            | inl u ↦ rw u (retarget-Linked s v id stream update.routable_workflow_names e)
            | inr u ↦ rw u (drain_targets-Linked s v id stream stream.cancellation_token e)
          ])
  ]

  handle_cancellation-Linked : (id : StreamId) → Linked (handle_cancellation s id).0
  unfolding handle_cancellation
  handle_cancellation-Linked id = elim (Option-cases (lookup id s.active_streams)) [
    | inl e ↦ rw (e, handle_cancellation) v
    | inr (stream, e) ↦ rw (e, handle_cancellation) (drain_targets-Linked s v id stream false e)
  ]

handle_reactor_response-Linked :
    (s : WorkflowForwarderStep) (id : StreamId) (update : ReactorWorkflowUpdate)
    → Linked s
    → Linked (handle_reactor_response s id update).0
unfolding handle_reactor_response
handle_reactor_response-Linked s id update v = elim (Option-cases (lookup id s.active_streams)) [
  | inl e ↦ rw (e, handle_reactor_response) v
  | inr (stream, e) ↦
      rw (e, handle_reactor_response)
        (handle_reactor_update-Linked
          (record s {
            active_streams =
                insert id (record stream { cancellation_token = true }) s.active_streams;
          })
          (rewritten-Linked s v id stream (record stream { cancellation_token = true }) e refl) id
          update)
]

-- The step that a notification leaves, if it leaves one, is in agreement.
abbrev LinkedResult : Result (WorkflowForwarderStep × List Effect) String → Type 0
LinkedResult (err message) = Unit
LinkedResult (ok t) = Linked t.0

handle_notification-Linked :
    (s : WorkflowForwarderStep) (n : FutureResult)
    → Linked s
    → LinkedResult (handle_notification s n)
unfolding handle_notification
handle_notification-Linked s unknown_type v = tt
handle_notification-Linked s event_hub_gone v = tt
handle_notification-Linked s reactor_manager_gone v = tt
handle_notification-Linked s reactor_gone v = tt
handle_notification-Linked s (reactor_response_received id update) v =
    handle_reactor_response-Linked s id update v
handle_notification-Linked s (reactor_update_received id update) v =
    handle_reactor_update-Linked s v id update
handle_notification-Linked s (workflow_gone name) v = v
handle_notification-Linked s (reactor_cancellation_received id) v =
    handle_cancellation-Linked s v id
handle_notification-Linked s (workflow_started_or_stopped event) v =
    handle_workflow_event-Linked s v event

handle_notifications-Linked :
    (ns : List FutureResult) (s : WorkflowForwarderStep)
    → Linked s
    → Linked (handle_notifications s ns).0
unfolding handle_notifications
handle_notifications-Linked [] s v = v
handle_notifications-Linked (n ∷ ns) s v =
    go (handle_notification s n) (handle_notification-Linked s n v)
      (λ t w. handle_notifications-Linked ns t w)
  where
    go :
        (r : Result (WorkflowForwarderStep × List Effect) String)
        → LinkedResult r
        → ((t : WorkflowForwarderStep) → Linked t → Linked (handle_notifications t ns).0)
        → Linked
            (elim r as (λ x. WorkflowForwarderStep × List Effect × Option String) [
              | err message ↦ (s, [], some message)
              | ok (t, effects) ↦
                  let (u, later, message) = handle_notifications t ns in
                  (u, effects ++ later, message)
            ]).0
    go (err message) h rest = v
    go (ok (t, effects)) h rest = rest t h

handle_all_media-Linked :
    (ms : List MediaNotification) (s : WorkflowForwarderStep)
    → Linked s
    → Linked (handle_all_media s ms).0
unfolding handle_all_media
handle_all_media-Linked [] s v = v
handle_all_media-Linked (m ∷ ms) s v =
    handle_all_media-Linked ms (handle_media s m).0 (handle_media-Linked s v m)

-- Whatever notifications and media a forwarder step is executed with, also when it ends in an error,
-- a stream is afterwards listed for exactly the workflows that are its targets, if it was so before.
pub execute-Linked :
    (s : WorkflowForwarderStep) (ns : List FutureResult) (ms : List MediaNotification)
    → Linked s
    → Linked (execute s ns ms).0
unfolding execute
execute-Linked s ns ms v = elim (Option-cases (handle_notifications s ns).2) [
  | inl e ↦
      rw (e, execute)
        (handle_all_media-Linked ms (handle_notifications s ns).0
          (handle_notifications-Linked ns s v))
  | inr (message, e) ↦ rw (e, execute) (handle_notifications-Linked ns s v)
]

-- A forwarder whose index agrees hears that a stream ends: it has forgotten the stream, and no
-- workflow has it listed.
pub ended_stream_unlinked :
    (s : WorkflowForwarderStep) (id : StreamId)
    → Linked s
    → let t = (handle_media s (record { stream_id = id; content = stream_disconnected })).0 in
      (lookup id t.active_streams ≡ none)
      × ((w : String) → contains (ids_of t.stream_for_workflow_name w) id ≡ false)
unfolding handle_media note_media end_stream contains
ended_stream_unlinked s id v =
    let m : MediaNotification = record { stream_id = id; content = stream_disconnected } in
    (gone, λ w. handle_media-Linked s v m id w ∙ (rw (gone, targets_of)))
  where
    gone :
        lookup id
          (handle_media s
            (record { stream_id = id; content = stream_disconnected })).0.active_streams
        ≡ none
    gone = elim (Option-cases (lookup id s.active_streams)) [
      | inl e ↦ rw (e, note_media) e
      | inr (stream, e) ↦ rw (e, note_media) (lookup-remove_self id s.active_streams)
    ]

retargeted :
    (s : WorkflowForwarderStep) (id : StreamId) (stream : StreamDetails)
    (update : ReactorWorkflowUpdate) (w : String)
    → lookup id s.active_streams ≡ some stream
    → update.is_valid ≡ true
    → contains (targets_of (handle_reactor_update s id update).0.active_streams id) w
      ≡ contains update.routable_workflow_names w
unfolding handle_reactor_update retarget
retargeted s id stream update w e u =
    rw (e, handle_reactor_update)
      (rw u (
        rw (targets_of-insert id id _ s.active_streams) (
          rw (==_refl id)
            (contains-new_targets stream.target_workflow_names update.routable_workflow_names w))))

-- A valid update of a reactor for an active stream, on a forwarder whose index agrees: the targets
-- of the stream, and the workflows that it is listed for, are exactly those of the update.
pub update_lem :
    (s : WorkflowForwarderStep) (id : StreamId) (stream : StreamDetails)
    (update : ReactorWorkflowUpdate) (w : String)
    → Linked s
    → lookup id s.active_streams ≡ some stream
    → update.is_valid ≡ true
    → let t = (handle_reactor_update s id update).0 in
      (contains (targets_of t.active_streams id) w ≡ contains update.routable_workflow_names w)
      × (contains (ids_of t.stream_for_workflow_name w) id
          ≡ contains update.routable_workflow_names w)
update_lem s id stream update w v e u =
    (targets, handle_reactor_update-Linked s v id update id w ∙ targets)
  where
    targets :
        contains (targets_of (handle_reactor_update s id update).0.active_streams id) w
        ≡ contains update.routable_workflow_names w
    targets = retargeted s id stream update w e u
