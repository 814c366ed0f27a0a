-- ===== src/RtmpSteps/Startup.antt =====
-- Which definitions become a step: the `generate` methods of
-- mmids-rtmp/src/workflow_steps/rtmp_receive/mod.rs and rtmp_watch/mod.rs.
use mmids_core.Common.{String, ◌≡◌, ◌∙◌, Bool, ◌&&◌, not, Option, is_ok, is_some}
use mmids_core.Net.{IpCidr}
use mmids_core.Workflows.Definitions.{WorkflowStepDefinition}
use mmids_core.Workflows.Requests.{Sender}
use mmids_core.RtmpSteps.Parameters.{given, read_parameters}
use mmids_core.RtmpSteps.Parameters.Accepted.{
  port_parses, list_parses, is_ok-last, is_ok-read_parameters,
}
use mmids_core.RtmpSteps.Receive.Generator.{RtmpReceiverStepGenerator, generate as receive}
use mmids_core.RtmpSteps.Watch.Generator.{RtmpWatchStepGenerator, generate as watch}

module _ {C : Type 0} (from_str : String → Option (IpCidr C)) (d : WorkflowStepDefinition) where
  -- What the parameters have to be.
  unfoldable pub accepts : Bool
  accepts =
      port_parses (given d "port")
      && (is_some (given d "rtmp_app")
          && (is_some (given d "stream_key")
              && (list_parses from_str (given d "allow_ips")
                  && (list_parses from_str (given d "deny_ips")
                      && not (is_some (given d "allow_ips") && is_some (given d "deny_ips"))))))

  -- Either generator makes a step, or fails, on the same condition: a port is left out or a number
  -- of 16 bits; an app and a stream key are given; each list of addresses is left out or all its
  -- pieces are IPv4 addresses or ranges; and not both lists are given.
  pub generators_lem :
      (receiver : RtmpReceiverStepGenerator) (watcher : RtmpWatchStepGenerator)
      (message_channel media_channel notification_channel : Sender)
      → (is_ok (receive from_str receiver d message_channel) ≡ accepts)
        × (is_ok (watch from_str watcher d media_channel notification_channel) ≡ accepts)
  unfolding receive watch accepts
  generators_lem receiver watcher message_channel media_channel notification_channel = (
    is_ok-last (read_parameters from_str d) _ ∙ is_ok-read_parameters from_str d,
    is_ok-last (read_parameters from_str d) _ ∙ is_ok-read_parameters from_str d,
  )
