-- ===== src/Tests/Generators.antt =====
-- The generators of the RTMP steps at concrete inputs.
use mmids_core.Common.{
  ℕ, String, ◌≡◌, refl, Bool, true, false, Option, none, some, [], ◌∷◌, err, is_ok, nat_eq,
  string_eq, lookup, insert,
}
use mmids_core.Common.Text.{trim, split, parse_u16, parse_ipv4}
use mmids_core.Metadata.Types.{MetadataValueType}
use mmids_core.Net.{
  IpCidr, parse_address, parse_all, parse_comma_delimited_list, invalid_value, all_parse,
}
use mmids_core.Workflows.Definitions.{WorkflowStepDefinition}
use mmids_core.Workflows.Steps.{StepStatus}
use mmids_core.RtmpServer.Types.{
  any_key, v4, exact_address, allow, is_ip_allowed, registration_beq, registration_eq,
  RtmpEndpointRequest, listen_for_publishers,
}
use mmids_core.RtmpServer.State.{
  no_state, Connection, PublishingRegistrant, RtmpAppMapping, PortMapping, opened, Fresh,
  find_registrant, put_key, put_connection,
}
use mmids_core.RtmpServer.Publishing.{handle_connection_request_publish}
use mmids_core.RtmpServer.Views.{key_of}
use mmids_core.RtmpSteps.Parameters.{
  given, port_of, registration_of, restriction_of, addresses_of, read_parameters,
}
use mmids_core.RtmpSteps.Parameters.Accepted.{port_parses, list_parses}
use mmids_core.RtmpSteps.Parameters.Addresses.{restrictions, admits}
use mmids_core.RtmpSteps.Receive.{RtmpReceiverStep}
use mmids_core.RtmpSteps.Receive.Generator.{RtmpReceiverStepGenerator, generate as receive}
use mmids_core.RtmpSteps.Watch.Generator.{RtmpWatchStepGenerator, generate as watch}
use mmids_core.RtmpSteps.Startup.{accepts, generators_lem}
use mmids_core.RtmpSteps.Guarded.{guarded_lem}

-- No ranges of addresses.
abbrev from_str : String → Option (IpCidr ℕ)
from_str text = none

abbrev within : ℕ → ℕ → Bool
within range ip = false

trims : trim " \t key " ≡ "key"
unfolding trim
trims = refl

ports : parse_u16 "+0443" ≡ some 443
unfolding parse_u16
ports = refl

no_port : parse_u16 "65536" ≡ none
unfolding parse_u16
no_port = refl

addresses : parse_ipv4 "1.0.0.7" ≡ some 16777223
unfolding parse_ipv4 split
addresses = refl

leading_zero : parse_ipv4 "1.0.0.07" ≡ none
unfolding parse_ipv4 split
leading_zero = refl

-- An empty text is not an empty list.
empty_text : parse_comma_delimited_list from_str (some "") ≡ err (invalid_value "")
unfolding parse_comma_delimited_list parse_all parse_address parse_ipv4 split
empty_text = refl

abbrev definition : WorkflowStepDefinition
definition = record {
  step_type = "rtmp_receive";
  parameters =
      ("rtmp_app", some "live")
      ∷ ("stream_key", some " * ")
      ∷ ("allow_ips", some "0.0.0.1,0.0.0.7")
      ∷ [];
}

abbrev generator : RtmpReceiverStepGenerator
generator = record {
  is_keyframe_metadata_key = record { klv_id = 36864; value_type = MetadataValueType.bool };
  pts_offset_metadata_key = record { klv_id = 28673; value_type = MetadataValueType.i32 };
}

abbrev watcher : RtmpWatchStepGenerator
watcher = record {
  is_keyframe_metadata_key = generator.is_keyframe_metadata_key;
  pts_offset_metadata_key = generator.pts_offset_metadata_key;
}

generators_lem_example :
    (is_ok (receive from_str generator definition 1) ≡ accepts from_str definition)
    × (is_ok (watch from_str watcher definition 2 3) ≡ accepts from_str definition)
generators_lem_example = generators_lem from_str definition generator watcher 1 2 3

accepted : accepts from_str definition ≡ true
unfolding accepts port_parses list_parses all_parse parse_address parse_ipv4 split lookup
accepted = refl

abbrev receiver : RtmpReceiverStep
receiver = record {
  port = 1935;
  rtmp_app = "live";
  stream_key = any_key;
  status = StepStatus.created;
  connection_details = [];
  reactor_name = none;
  is_keyframe_metadata_key = generator.is_keyframe_metadata_key;
  pts_offset_metadata_key = generator.pts_offset_metadata_key;
}

abbrev request : RtmpEndpointRequest ℕ
request =
    listen_for_publishers 1935 "live" any_key 1 none
      (allow (exact_address 1 ∷ exact_address 7 ∷ [])) false false

abbrev registrant : PublishingRegistrant ℕ
registrant = record {
  response_channel = 1;
  stream_id = none;
  ip_restrictions = allow (exact_address 1 ∷ exact_address 7 ∷ []);
  requires_registrant_approval = false;
  cancellation_notifier = 2;
}

abbrev connection : Connection
connection = record {
  response_channel = 5;
  state = no_state;
  socket_address = v4 7 80;
  received_registrant_approval = false;
}

abbrev live : RtmpAppMapping ℕ
live = record {
  publisher_registrants = (any_key, registrant) ∷ [];
  watcher_registrants = [];
  active_stream_keys = [];
}

abbrev open_port : PortMapping ℕ
open_port = record {
  rtmp_applications = ("live", live) ∷ [];
  status = opened;
  connections = ("c", connection) ∷ [];
  tls = false;
}

abbrev fresh : Fresh
fresh = record { channel = 9; cancellation = 8; stream_id = "new" }

guarded_lem_example :
    (n : Connection) × (lookup "c" open_port.connections ≡ some n)
    × (admits from_str within
          (given definition "allow_ips")
          (given definition "deny_ips")
          n.socket_address
        ≡ true)
unfolding lookup find_registrant registration_beq key_of handle_connection_request_publish receive
    read_parameters port_of addresses_of parse_comma_delimited_list parse_all split parse_address
    parse_ipv4 restriction_of trim registration_of restrictions is_ip_allowed put_connection put_key
    insert
guarded_lem_example =
    guarded_lem within open_port "c" "live" "k" live registrant refl refl from_str generator
      definition 1 receiver request Unit 1935 none fresh refl refl (λ h. cc) refl
