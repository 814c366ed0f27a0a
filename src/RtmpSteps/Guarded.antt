-- ===== src/RtmpSteps/Guarded.antt =====
-- The restrictions of a receiver step at the endpoint that it is registered with: `generate` of
-- mmids-rtmp/src/workflow_steps/rtmp_receive/mod.rs, and the requests to publish of
-- mmids-rtmp/src/rtmp_server/actor/mod.rs.
use mathlib.Core.Option.{some-injective}
use mmids_core.Common.{
  ℕ, String, ◌≡◌, sym, ap, ◌∙◌, ◌≢◌, inl, inr, Bool, true, Option, some, ok, lookup, nat_eq,
  string_eq,
}
use mmids_core.Net.{IpCidr}
use mmids_core.Workflows.Definitions.{WorkflowStepDefinition}
use mmids_core.Workflows.Requests.{Sender}
use mmids_core.RtmpServer.Types.{ConnectionId, RtmpEndpointRequest, is_ip_allowed}
use mmids_core.RtmpServer.State.{
  PublishingRegistrant, RtmpAppMapping, Connection, PortMapping, Fresh, find_registrant,
}
use mmids_core.RtmpServer.Views.{key_of}
use mmids_core.RtmpServer.Admission.{MayPublish, requested_publish, request_publish_lem}
use mmids_core.RtmpSteps.Parameters.{given}
use mmids_core.RtmpSteps.Parameters.Addresses.{restrictions, admits}
use mmids_core.RtmpSteps.Receive.{RtmpReceiverStep}
use mmids_core.RtmpSteps.Receive.Generator.{RtmpReceiverStepGenerator, generate, generate-admits}

module _ {C : Type 0} (within : C → ℕ → Bool) (p : PortMapping C) (id : ConnectionId)
    (app key : String) (a : RtmpAppMapping C) (r : PublishingRegistrant C)
    (registered : lookup app p.rtmp_applications ≡ some a)
    (for_key : find_registrant key a.publisher_registrants ≡ some r) where
  -- The registrant that lets a connection in is the one that is found.
  found_registrant : (may : MayPublish within p id app key) → may.registrant ≡ r
  found_registrant may =
      let same_app = some-injective _ _ (sym may.admissible.registered ∙ registered) in
      some-injective _ _ (
        sym may.admissible.for_key
        ∙ ap (λ (x : RtmpAppMapping C). find_registrant key x.publisher_registrants) same_app
        ∙ for_key)

  -- A receiver step is generated, and a port has the restrictions of its request with the registrant
  -- for a stream key. A connection that was not the publisher of the key and is after it asked to
  -- publish has an address that the step's parameters admit: one that a piece of allow_ips names, or
  -- that no piece of deny_ips does, and an IPv4 address if either is given.
  pub guarded_lem :
      (from_str : String → Option (IpCidr C)) (generator : RtmpReceiverStepGenerator)
      (d : WorkflowStepDefinition) (channel : Sender) (s : RtmpReceiverStep)
      (request : RtmpEndpointRequest C) (M : Type 0) (port : ℕ) (updates : Option Sender)
      (fresh : Fresh)
      → generate from_str generator d channel ≡ ok (s, request)
      → r.ip_restrictions ≡ restrictions request
      → (key_of p app key).publisher ≢ some id
      → (key_of (requested_publish M within id p port app key updates fresh).0 app key).publisher
        ≡ some id
      → (n : Connection) × (lookup id p.connections ≡ some n)
        × (admits from_str within (given d "allow_ips") (given d "deny_ips") n.socket_address
            ≡ true)
  guarded_lem from_str generator d channel s request M port updates fresh made same before after =
      elim ((request_publish_lem M within id p port app key updates fresh).0 after) [
        | inl already ↦ absurd (before already)
        | inr may ↦ (
          may.connection,
          may.admissible.connected,
          sym (
                generate-admits from_str generator d channel within s request
                  may.connection.socket_address made)
              ∙ ap (λ x. is_ip_allowed within may.connection.socket_address x)
                  (sym same
                    ∙ ap (λ (x : PublishingRegistrant C). x.ip_restrictions)
                        (sym (found_registrant may)))
              ∙ may.admissible.address,
        )
      ]
