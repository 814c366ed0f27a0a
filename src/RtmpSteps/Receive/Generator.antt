-- ===== src/RtmpSteps/Receive/Generator.antt =====
-- `RtmpReceiverStepGenerator` of mmids-rtmp/src/workflow_steps/rtmp_receive/mod.rs: the step and what it
-- asks of the endpoint, as which it is registered. That the step waits for answers and for the end of the
-- reactor manager is left out.
use mmids_core.Common.{
  ℕ, String, ◌≡◌, sym, ap, ◌∙◌, Bool, Option, none, [], Result, ok, is_some, ok-injective,
}
use mmids_core.Metadata.Keys.{MetadataKey}
use mmids_core.Net.{IpCidr}
use mmids_core.Workflows.Definitions.{WorkflowStepDefinition}
use mmids_core.Workflows.Requests.{Sender}
use mmids_core.Workflows.Steps.{StepStatus}
use mmids_core.RtmpServer.Types.{
  SocketAddr, is_ip_allowed, RtmpEndpointRequest, listen_for_publishers,
}
use mmids_core.RtmpSteps.Parameters.{StepStartupError, given, read_parameters, ◌>>=◌}
use mmids_core.RtmpSteps.Parameters.Addresses.{
  restrictions, admits, ok-step, admits-read_parameters,
}
use mmids_core.RtmpSteps.Receive.{RtmpReceiverStep}

pub record RtmpReceiverStepGenerator : Type 0 where
  pub is_keyframe_metadata_key : MetadataKey
  pub pts_offset_metadata_key : MetadataKey

unfoldable pub generate :
    {C : Type 0}
    → (String → Option (IpCidr C))
    → RtmpReceiverStepGenerator
    → WorkflowStepDefinition
    → (message_channel : Sender)
    → Result (RtmpReceiverStep × RtmpEndpointRequest C) StepStartupError
generate from_str generator definition message_channel = do
  p ← read_parameters from_str definition
  ok (
    record {
      port = p.port;
      rtmp_app = p.rtmp_app;
      stream_key = p.stream_key;
      status = StepStatus.created;
      connection_details = [];
      reactor_name = p.reactor_name;
      is_keyframe_metadata_key = generator.is_keyframe_metadata_key;
      pts_offset_metadata_key = generator.pts_offset_metadata_key;
    },
    listen_for_publishers p.port p.rtmp_app p.stream_key message_channel none p.ip_restrictions
        p.use_rtmps (is_some p.reactor_name),
  )

module _ {C : Type 0} (from_str : String → Option (IpCidr C))
    (generator : RtmpReceiverStepGenerator) (d : WorkflowStepDefinition) (channel : Sender) where
  abbrev generated : Result (RtmpReceiverStep × RtmpEndpointRequest C) StepStartupError
  generated = generate from_str generator d channel

  pub generate-admits :
      (within : C → ℕ → Bool) (s : RtmpReceiverStep) (request : RtmpEndpointRequest C)
      (address : SocketAddr)
      → generated ≡ ok (s, request)
      → is_ip_allowed within address (restrictions request)
        ≡ admits from_str within (given d "allow_ips") (given d "deny_ips") address
  unfolding generate restrictions
  generate-admits within s request address h =
      let (p, read, made) = ok-step (read_parameters from_str d) h in
      ap
        (λ (q : RtmpReceiverStep × RtmpEndpointRequest C).
          is_ip_allowed within address (restrictions q.1))
        (sym (ok-injective made))
      ∙ admits-read_parameters from_str within d p address read
