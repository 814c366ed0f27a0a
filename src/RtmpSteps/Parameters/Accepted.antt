-- ===== src/RtmpSteps/Parameters/Accepted.antt =====
-- Which parameters the generators of the RTMP steps accept.
use mmids_core.Common.{
  ℕ, ◌≤◌, String, ◌≡◌, ◌≢◌, refl, ap, ◌∙◌, Bool, true, false, not, ◌&&◌, Option, none, some, List,
  [], ◌∷◌, arith, Result, ok, err, is_ok, is_some, is_empty, Option-cases, Result-cases, inl, inr,
  ok-injective,
}
use mmids_core.Common.Text.{parse_u16, parse_u16_bound, split, split-nonempty}
use mmids_core.Net.{
  IpCidr, parse_all, parse_comma_delimited_list, all_parse, is_ok-parse_all, is_empty-parse_all,
}
use mmids_core.Workflows.Definitions.{WorkflowStepDefinition}
use mmids_core.RtmpServer.Types.{IpAddress}
use mmids_core.RtmpSteps.Parameters.{
  StepStartupError, no_rtmp_app, no_stream_key, given, flag, port_of, trimmed, restriction_of,
  addresses_of, read_parameters, ◌>>=◌,
}

-- A port that is left out, or a number of 16 bits.
unfoldable pub port_parses : Option String → Bool
port_parses none = true
port_parses (some value) = is_some (parse_u16 value)

-- A list that is left out, or one whose pieces all are addresses or IPv4 ranges.
unfoldable pub list_parses : {C : Type 0} → (String → Option (IpCidr C)) → Option String → Bool
list_parses from_str none = true
list_parses from_str (some value) = all_parse from_str (split 44 value)

is_ok-then {ℓ κ μ} :
    {A : Type ℓ} {B : Type κ} {E : Type μ} (r : Result A E) (f : A → Result B E) (p b : Bool)
    → is_ok r ≡ p
    → ((a : A) → r ≡ ok a → is_ok (f a) ≡ b)
    → is_ok (r >>= f) ≡ (p && b)
is_ok-then (ok a) f p b same h = rw (← same) (h a refl)
is_ok-then (err e) f p b same h = rw (← same) refl

pub is_ok-last {ℓ κ μ} :
    {A : Type ℓ} {B : Type κ} {E : Type μ} (r : Result A E) (f : A → B)
    → is_ok (r >>= λ a. ok (f a)) ≡ is_ok r
is_ok-last (ok a) f = refl
is_ok-last (err e) f = refl

is_ok-port_of : (tls : Bool) (g : Option String) → is_ok (port_of tls g) ≡ port_parses g
unfolding port_of port_parses
is_ok-port_of tls none = refl
is_ok-port_of tls (some value) = elim (Option-cases (parse_u16 value)) [
  | inl p ↦ rw (p, port_of, port_parses) refl
  | inr (n, p) ↦ rw (p, port_of, port_parses) refl
]

pub port_of_bound : (tls : Bool) (g : Option String) (n : ℕ) → port_of tls g ≡ ok n → n ≤ 65535
unfolding port_of
port_of_bound true none n h = let chosen = ok-injective h in omega arith
port_of_bound false none n h = let chosen = ok-injective h in omega arith
port_of_bound tls (some value) n h = elim (Option-cases (parse_u16 value)) [
  | inl p ↦ let refused = rw (port_of, p) at h in cc
  | inr (m, p) ↦
      let same : m ≡ n = ok-injective (rw (port_of, p) at h) in
      rw (← same) (parse_u16_bound value m p)
]

is_ok-trimmed : (e : StepStartupError) (g : Option String) → is_ok (trimmed e g) ≡ is_some g
is_ok-trimmed e none = refl
is_ok-trimmed e (some x) = refl

not_empty : {A : Type 0} (l : List A) → l ≢ [] → is_empty l ≡ false
not_empty [] n = absurd (n refl)
not_empty (x ∷ l) n = refl

module _ {C : Type 0} (from_str : String → Option (IpCidr C)) where
  is_ok-addresses_of :
      (g : Option String) → is_ok (addresses_of from_str g) ≡ list_parses from_str g
  unfolding addresses_of list_parses parse_comma_delimited_list
  is_ok-addresses_of none = refl
  is_ok-addresses_of (some value) = elim (Result-cases (parse_all from_str (split 44 value))) [
    | inl (e, p) ↦
        rw
          (
            ← is_ok-parse_all from_str (split 44 value),
            addresses_of,
            parse_comma_delimited_list,
            list_parses,
            p,
          )
          refl
    | inr (ips, p) ↦
        rw
          (
            ← is_ok-parse_all from_str (split 44 value),
            addresses_of,
            parse_comma_delimited_list,
            list_parses,
            p,
          )
          refl
  ]

  pub addresses_of-some :
      (value : String) (ips : List (IpAddress C))
      → addresses_of from_str (some value) ≡ ok ips
      → parse_all from_str (split 44 value) ≡ ok ips
  unfolding addresses_of parse_comma_delimited_list
  addresses_of-some value ips h = elim (Result-cases (parse_all from_str (split 44 value))) [
    | inl (e, p) ↦ let refused = rw (addresses_of, parse_comma_delimited_list, p) at h in cc
    | inr (found, p) ↦
        p ∙ ap ok (ok-injective (rw (addresses_of, parse_comma_delimited_list, p) at h))
  ]

  pub is_empty-addresses_of :
      (g : Option String) (ips : List (IpAddress C))
      → addresses_of from_str g ≡ ok ips
      → is_empty ips ≡ not (is_some g)
  unfolding addresses_of parse_comma_delimited_list
  is_empty-addresses_of none ips h = rw (← ok-injective h) refl
  is_empty-addresses_of (some value) ips h =
      let parsed = addresses_of-some value ips h in
      is_empty-parse_all from_str (split 44 value) ips parsed
      ∙ not_empty (split 44 value) (split-nonempty 44 value)

  is_ok-restriction_of :
      (allowed denied : List (IpAddress C))
      → is_ok (restriction_of allowed denied)
        ≡ not (not (is_empty allowed) && not (is_empty denied))
  unfolding restriction_of
  is_ok-restriction_of [] [] = refl
  is_ok-restriction_of (a ∷ more) [] = refl
  is_ok-restriction_of [] (d ∷ others) = refl
  is_ok-restriction_of (a ∷ more) (d ∷ others) = refl

  one_list :
      (g h : Option String) (allowed denied : List (IpAddress C))
      → addresses_of from_str g ≡ ok allowed
      → addresses_of from_str h ≡ ok denied
      → not (not (is_empty allowed) && not (is_empty denied)) ≡ not (is_some g && is_some h)
  one_list g h allowed denied s t =
      rw (is_empty-addresses_of g allowed s, is_empty-addresses_of h denied t) (ground arith)

  pub is_ok-read_parameters :
      (d : WorkflowStepDefinition)
      → is_ok (read_parameters from_str d) ≡ (
          port_parses (given d "port")
          && (is_some (given d "rtmp_app")
              && (is_some (given d "stream_key")
                  && (list_parses from_str (given d "allow_ips")
                      && (list_parses from_str (given d "deny_ips")
                          && not
                              (is_some (given d "allow_ips") && is_some (given d "deny_ips")))))))
  unfolding read_parameters
  is_ok-read_parameters d =
      is_ok-then _ _ _ _ (is_ok-port_of (flag d "rtmps") (given d "port")) (λ port p.
        is_ok-then _ _ _ _ (is_ok-trimmed no_rtmp_app (given d "rtmp_app")) (λ rtmp_app q.
          is_ok-then _ _ _ _ (is_ok-trimmed no_stream_key (given d "stream_key")) (λ stream_key r.
            is_ok-then _ _ _ _ (is_ok-addresses_of (given d "allow_ips")) (λ allowed s.
              is_ok-then _ _ _ _ (is_ok-addresses_of (given d "deny_ips")) (λ denied t.
                is_ok-last (restriction_of allowed denied) _
                ∙ is_ok-restriction_of allowed denied
                ∙ one_list _ _ allowed denied s t)))))
