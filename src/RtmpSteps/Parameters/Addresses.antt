-- ===== src/RtmpSteps/Parameters/Addresses.antt =====
-- Which addresses the restrictions admit that a generator of an RTMP step makes.
use mmids_core.Common.{
  ℕ, String, ◌≡◌, refl, sym, ap, ◌∙◌, Bool, true, false, not, Option, none, some, List, [], ◌∷◌,
  is_empty, ◌≢◌, Result, ok, err, ok-injective,
}
use mmids_core.Common.Text.{split}
use mmids_core.Net.{IpCidr, names_any, matches_any-parse_all}
use mmids_core.Workflows.Definitions.{WorkflowStepDefinition}
use mmids_core.RtmpServer.Types.{
  SocketAddr, v4, v6, IpAddress, IpRestriction, no_restriction, allow, deny, is_ip_allowed,
  RtmpEndpointRequest, listen_for_publishers, listen_for_watchers, remove_registration,
}
use mmids_core.RtmpSteps.Parameters.{
  no_rtmp_app, no_stream_key, Parameters, given, flag, port_of, trimmed, restriction_of,
  addresses_of, read_parameters, ◌>>=◌,
}
use mmids_core.RtmpSteps.Parameters.Accepted.{addresses_of-some, is_empty-addresses_of}

-- What comes of a step that goes on.
pub ok-step {ℓ κ μ} :
    {A : Type ℓ} {B : Type κ} {E : Type μ} {f : A → Result B E} {b : B} (r : Result A E)
    → (r >>= f) ≡ ok b
    → (a : A) × (r ≡ ok a) × (f a ≡ ok b)
ok-step (ok a) h = (a, refl, h)
ok-step (err e) h = cc

module _ {C : Type 0} (from_str : String → Option (IpCidr C)) (within : C → ℕ → Bool) where
  -- What the texts of the two parameters say of an address: a list to allow has to name it, a list to
  -- deny must not, and either is of IPv4 addresses only.
  unfoldable pub admits : Option String → Option String → SocketAddr → Bool
  admits none none address = true
  admits (some allowed) denied (v4 ip port) = names_any from_str within (split 44 allowed) ip
  admits none (some denied) (v4 ip port) = not (names_any from_str within (split 44 denied) ip)
  admits (some allowed) denied (v6 ip port) = false
  admits none (some denied) (v6 ip port) = false

  addresses_of-none : (ips : List (IpAddress C)) → addresses_of from_str none ≡ ok ips → ips ≡ []
  unfolding addresses_of
  addresses_of-none ips h = sym (ok-injective h)

  restriction_of-allow :
      (allowed : List (IpAddress C)) (r : IpRestriction C)
      → is_empty allowed ≡ false
      → restriction_of allowed [] ≡ ok r
      → r ≡ allow allowed
  unfolding restriction_of
  restriction_of-allow [] r n h = cc
  restriction_of-allow (ip ∷ ips) r n h = sym (ok-injective h)

  restriction_of-deny :
      (denied : List (IpAddress C)) (r : IpRestriction C)
      → is_empty denied ≡ false
      → restriction_of [] denied ≡ ok r
      → r ≡ deny denied
  unfolding restriction_of
  restriction_of-deny [] r n h = cc
  restriction_of-deny (ip ∷ ips) r n h = sym (ok-injective h)

  restriction_of-both :
      (allowed denied : List (IpAddress C)) (r : IpRestriction C)
      → is_empty allowed ≡ false
      → is_empty denied ≡ false
      → restriction_of allowed denied ≢ ok r
  unfolding restriction_of
  restriction_of-both [] denied r n m h = cc
  restriction_of-both (ip ∷ ips) [] r n m h = cc
  restriction_of-both (ip ∷ ips) (other ∷ others) r n m h = cc

  admits-restriction_of :
      (g h : Option String) (allowed denied : List (IpAddress C)) (r : IpRestriction C)
      (address : SocketAddr)
      → addresses_of from_str g ≡ ok allowed
      → addresses_of from_str h ≡ ok denied
      → restriction_of allowed denied ≡ ok r
      → is_ip_allowed within address r ≡ admits g h address
  unfolding admits is_ip_allowed restriction_of
  admits-restriction_of none none allowed denied r address s t made =
      let unrestricted = rw (addresses_of-none allowed s, addresses_of-none denied t) at made in
      rw (sym (ok-injective unrestricted)) refl
  admits-restriction_of (some g) none allowed denied r (v4 ip port) s t made =
      rw
        (restriction_of-allow allowed r (is_empty-addresses_of from_str (some g) allowed s)
          (rw (addresses_of-none denied t) at made))
        (matches_any-parse_all from_str within (split 44 g) allowed ip
          (addresses_of-some from_str g allowed s))
  admits-restriction_of (some g) none allowed denied r (v6 ip port) s t made =
      rw
        (restriction_of-allow allowed r (is_empty-addresses_of from_str (some g) allowed s)
          (rw (addresses_of-none denied t) at made))
        refl
  admits-restriction_of none (some h) allowed denied r (v4 ip port) s t made =
      rw
        (restriction_of-deny denied r (is_empty-addresses_of from_str (some h) denied t)
          (rw (addresses_of-none allowed s) at made))
        (ap not (
          matches_any-parse_all from_str within (split 44 h) denied ip
            (addresses_of-some from_str h denied t)))
  admits-restriction_of none (some h) allowed denied r (v6 ip port) s t made =
      rw
        (restriction_of-deny denied r (is_empty-addresses_of from_str (some h) denied t)
          (rw (addresses_of-none allowed s) at made))
        refl
  admits-restriction_of (some g) (some h) allowed denied r address s t made = absurd (
      restriction_of-both allowed denied r (is_empty-addresses_of from_str (some g) allowed s)
        (is_empty-addresses_of from_str (some h) denied t) made)

  pub admits-read_parameters :
      (d : WorkflowStepDefinition) (p : Parameters C) (address : SocketAddr)
      → read_parameters from_str d ≡ ok p
      → is_ip_allowed within address p.ip_restrictions
        ≡ admits (given d "allow_ips") (given d "deny_ips") address
  unfolding read_parameters
  admits-read_parameters d p address h =
      let (port, a, h1) = ok-step (port_of (flag d "rtmps") (given d "port")) h in
      let (rtmp_app, b, h2) = ok-step (trimmed no_rtmp_app (given d "rtmp_app")) h1 in
      let (stream_key, c, h3) = ok-step (trimmed no_stream_key (given d "stream_key")) h2 in
      let (allowed, s, h4) = ok-step (addresses_of from_str (given d "allow_ips")) h3 in
      let (denied, t, h5) = ok-step (addresses_of from_str (given d "deny_ips")) h4 in
      let (r, made, h6) = ok-step (restriction_of allowed denied) h5 in
      ap (λ (q : Parameters C). is_ip_allowed within address q.ip_restrictions)
        (sym (ok-injective h6))
      ∙ admits-restriction_of _ _ allowed denied r address s t made

-- The restrictions that a step is registered with.
unfoldable pub restrictions : {C : Type 0} → RtmpEndpointRequest C → IpRestriction C
restrictions (listen_for_publishers port app key channel id ip_restrictions tls approval) =
    ip_restrictions
restrictions (listen_for_watchers port app key media channel ip_restrictions tls approval) =
    ip_restrictions
restrictions (remove_registration kind port app key) = no_restriction
