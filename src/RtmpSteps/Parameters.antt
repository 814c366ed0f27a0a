-- ===== src/RtmpSteps/Parameters.antt =====
-- How the receiver and the watch step of RTMP read their parameters: the two `generate` methods of
-- mmids-rtmp/src/workflow_steps/rtmp_receive/mod.rs and rtmp_watch/mod.rs, which do so in the same words,
-- each with a `StepStartupError` of its own. `from_str` is the CIDR library's.
pub mod Accepted
pub mod Addresses
use mmids_core.Common.{
  ℕ, String, Bool, Option, none, some, List, [], ◌∷◌, if◌then◌else◌, ◌==◌, string_eq, lookup,
  Result, ok, err, is_some, or_default,
}
use mmids_core.Common.Text.{trim, parse_u16}
use mmids_core.Net.{IpCidr, IpAddressParseError, parse_comma_delimited_list}
use mmids_core.Workflows.Definitions.{WorkflowStepDefinition}
use mmids_core.RtmpServer.Types.{
  IpAddress, IpRestriction, no_restriction, allow, deny, StreamKeyRegistration, any_key, exact,
}

pub data StepStartupError : Type 0 where
  no_rtmp_app no_stream_key both_deny_and_allow_ip_restrictions : StepStartupError
  invalid_port : String → StepStartupError
  invalid_ip_address : IpAddressParseError → StepStartupError

infixl 5 ◌>>=◌
abbrev pub ◌>>=◌ {ℓ κ μ} :
    {A : Type ℓ} {B : Type κ} {E : Type μ} → Result A E → (A → Result B E) → Result B E
ok a >>= f = f a
err e >>= f = err e

-- A parameter that has a value.
abbrev pub given : WorkflowStepDefinition → String → Option String
given definition name = or_default (lookup name definition.parameters) none

abbrev pub flag : WorkflowStepDefinition → String → Bool
flag definition name = is_some (lookup name definition.parameters)

unfoldable pub port_of : Bool → Option String → Result ℕ StepStartupError
port_of use_rtmps (some value) = elim (parse_u16 value) [
  | some num ↦ ok num
  | none ↦ err (invalid_port value)
]
port_of use_rtmps none = ok (if use_rtmps then 443 else 1935)

abbrev pub trimmed : StepStartupError → Option String → Result String StepStartupError
trimmed missing (some x) = ok (trim x)
trimmed missing none = err missing

unfoldable pub registration_of : String → StreamKeyRegistration
registration_of stream_key = if stream_key == "*" then any_key else exact stream_key

unfoldable pub restriction_of :
    {C : Type 0}
    → List (IpAddress C)
    → List (IpAddress C)
    → Result (IpRestriction C) StepStartupError
restriction_of [] [] = ok no_restriction
restriction_of (ip ∷ ips) [] = ok (allow (ip ∷ ips))
restriction_of [] (ip ∷ ips) = ok (deny (ip ∷ ips))
restriction_of (ip ∷ ips) (other ∷ others) = err both_deny_and_allow_ip_restrictions

pub record Parameters (C : Type 0) : Type 0 where
  pub use_rtmps : Bool
  pub port : ℕ
  pub rtmp_app : String
  pub stream_key : StreamKeyRegistration
  pub ip_restrictions : IpRestriction C
  pub reactor_name : Option String

module _ {C : Type 0} (from_str : String → Option (IpCidr C)) where
  unfoldable pub addresses_of : Option String → Result (List (IpAddress C)) StepStartupError
  addresses_of none = ok []
  addresses_of (some value) = elim (parse_comma_delimited_list from_str (some value)) [
    | ok ips ↦ ok ips
    | err e ↦ err (invalid_ip_address e)
  ]

  unfoldable pub read_parameters : WorkflowStepDefinition → Result (Parameters C) StepStartupError
  read_parameters definition = do
    port ← port_of (flag definition "rtmps") (given definition "port")
    rtmp_app ← trimmed no_rtmp_app (given definition "rtmp_app")
    stream_key ← trimmed no_stream_key (given definition "stream_key")
    allowed_ips ← addresses_of (given definition "allow_ips")
    denied_ips ← addresses_of (given definition "deny_ips")
    ip_restriction ← restriction_of allowed_ips denied_ips
    ok (record {
      use_rtmps = flag definition "rtmps";
      port = port;
      rtmp_app = rtmp_app;
      stream_key = registration_of stream_key;
      ip_restrictions = ip_restriction;
      reactor_name = given definition "reactor";
    })
