-- ===== src/RtmpSteps/Watch/Generator.antt =====
-- `RtmpWatchStepGenerator` of mmids-rtmp/src/workflow_steps/rtmp_watch/mod.rs: the step, with the sender of
-- the media channel, and what it asks of the endpoint. That the step waits for answers and for the end of
-- the reactor manager is left out.
use mmids_core.Common.{String, Option, [], Result, ok, is_some}
use mmids_core.Metadata.Keys.{MetadataKey}
use mmids_core.Net.{IpCidr}
use mmids_core.Workflows.Definitions.{WorkflowStepDefinition}
use mmids_core.Workflows.Requests.{Sender}
use mmids_core.Workflows.Steps.{StepStatus}
use mmids_core.RtmpServer.Types.{RtmpEndpointRequest, listen_for_watchers}
use mmids_core.RtmpSteps.Parameters.{StepStartupError, read_parameters, ◌>>=◌}
use mmids_core.RtmpSteps.Watch.{RtmpWatchStep}

pub record RtmpWatchStepGenerator : Type 0 where
  pub is_keyframe_metadata_key : MetadataKey
  pub pts_offset_metadata_key : MetadataKey

unfoldable pub generate :
    {C : Type 0}
    → (String → Option (IpCidr C))
    → RtmpWatchStepGenerator
    → WorkflowStepDefinition
    → (media_channel notification_channel : Sender)
    → Result (RtmpWatchStep × RtmpEndpointRequest C) StepStartupError
generate from_str generator definition media_channel notification_channel = do
  p ← read_parameters from_str definition
  ok (
    record {
      port = p.port;
      rtmp_app = p.rtmp_app;
      stream_key = p.stream_key;
      reactor_name = p.reactor_name;
      status = StepStatus.created;
      media_channel = media_channel;
      stream_id_to_name_map = [];
      stream_watchers = [];
      is_keyframe_metadata_key = generator.is_keyframe_metadata_key;
      pts_offset_metadata_key = generator.pts_offset_metadata_key;
    },
    listen_for_watchers p.port p.rtmp_app p.stream_key media_channel notification_channel
        p.ip_restrictions p.use_rtmps (is_some p.reactor_name),
  )
