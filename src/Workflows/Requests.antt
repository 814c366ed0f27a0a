-- ===== src/Workflows/Requests.antt =====
-- The messages between workflows, their manager and the event hub: the requests of
-- mmids-core/src/workflows/runner/mod.rs and manager.rs, and the events of event_hub.rs. The sending
-- end of a channel is a number that tells it from the others.
use mmids_core.Common.{ℕ, String}
use mmids_core.Workflows.Media.{MediaNotification}
use mmids_core.Workflows.Definitions.{WorkflowDefinition}

abbrev pub Sender : Type 0
Sender = ℕ

pub data WorkflowRequestOperation : Type 0 where
  update_definition : WorkflowDefinition → WorkflowRequestOperation
  get_state : Sender → WorkflowRequestOperation
  stop_workflow : WorkflowRequestOperation
  media_notification : MediaNotification → WorkflowRequestOperation

pub record WorkflowRequest : Type 0 where
  pub request_id : String
  pub operation : WorkflowRequestOperation

pub data WorkflowManagerRequestOperation : Type 0 where
  upsert_workflow : WorkflowDefinition → WorkflowManagerRequestOperation
  stop_workflow : String → WorkflowManagerRequestOperation
  get_running_workflows : Sender → WorkflowManagerRequestOperation
  get_workflow_details : String → Sender → WorkflowManagerRequestOperation

pub record WorkflowManagerRequest : Type 0 where
  pub request_id : String
  pub operation : WorkflowManagerRequestOperation

pub data WorkflowStartedOrStoppedEvent : Type 0 where
  workflow_started : String → Sender → WorkflowStartedOrStoppedEvent
  workflow_ended : String → WorkflowStartedOrStoppedEvent

pub data WorkflowManagerEvent : Type 0 where
  workflow_manager_registered : Sender → WorkflowManagerEvent

pub data PublishEventRequest : Type 0 where
  workflow_started_or_stopped : WorkflowStartedOrStoppedEvent → PublishEventRequest
  workflow_manager_event : WorkflowManagerEvent → PublishEventRequest

pub data SubscriptionRequest : Type 0 where
  workflow_started_or_stopped : Sender → SubscriptionRequest
  workflow_manager_events : Sender → SubscriptionRequest
