-- ===== src/RtmpServer/Ports.antt =====
-- A property of every port of the endpoint, and how changes of the table of ports keep it.
use mmids_core.Common.{
  ℕ, String, ◌≡◌, refl, ◌≢◌, ==_eq, lookup-remove_ne, sym, ◌∙◌, subst, inl, inr, some, List,
  Bool-cases, Option-cases, ◌==◌, nat_eq, string_eq, Map, lookup, insert, remove, lookup-insert,
  lookup-remove,
}
use mathlib.Core.Option.{some-injective}
use mmids_core.RtmpServer.State.{RtmpAppMapping, PortMapping, RtmpServerEndpointActor, Effect}
use mmids_core.RtmpServer.Removal.{in_port, in_app}

module _ {ℓ} {C : Type 0} (P : PortMapping C → Type ℓ) where
  abbrev pub AllPorts : Map ℕ (PortMapping C) → Type ℓ
  AllPorts ports = (port : ℕ) (p : PortMapping C) → lookup port ports ≡ some p → P p

  pub insert-AllPorts :
      (port : ℕ) (p : PortMapping C) (ports : Map ℕ (PortMapping C))
      → P p
      → AllPorts ports
      → AllPorts (insert port p ports)
  insert-AllPorts port p ports new old i q e = elim (Bool-cases (port == i)) [
    | inl h ↦ subst P (some-injective p q (rw h at (sym (lookup-insert port i p ports) ∙ e))) new
    | inr h ↦ old i q (rw h at (sym (lookup-insert port i p ports) ∙ e))
  ]

  pub remove-AllPorts :
      (port : ℕ) (ports : Map ℕ (PortMapping C)) → AllPorts ports → AllPorts (remove port ports)
  remove-AllPorts port ports old i q e = elim (Bool-cases (port == i)) [
    | inl h ↦ let gone = rw h at (sym (lookup-remove port i ports) ∙ e) in cc
    | inr h ↦ old i q (rw h at (sym (lookup-remove port i ports) ∙ e))
  ]

  pub in_port-AllPorts :
      {M : Type 0} (act : PortMapping C → PortMapping C × List (Effect M)) (port : ℕ)
      (s : RtmpServerEndpointActor C)
      → ((p : PortMapping C) → lookup port s.ports ≡ some p → P p → P (act p).0)
      → AllPorts s.ports
      → AllPorts (in_port act port s).0.ports
  unfolding in_port
  in_port-AllPorts act port s keeps old = elim (Option-cases (lookup port s.ports)) [
    | inl e ↦ rw (e, in_port) old
    | inr (p, e) ↦
        rw (e, in_port) (insert-AllPorts port (act p).0 s.ports (keeps p e (old port p e)) old)
  ]

  pub in_app-keeps :
      {M : Type 0} (act : PortMapping C → RtmpAppMapping C → PortMapping C × List (Effect M))
      (app : String) (p : PortMapping C)
      → ((a : RtmpAppMapping C) → lookup app p.rtmp_applications ≡ some a → P (act p a).0)
      → P p
      → P (in_app act app p).0
  unfolding in_app
  in_app-keeps act app p keeps old = elim (Option-cases (lookup app p.rtmp_applications)) [
    | inl e ↦ rw (e, in_app) old
    | inr (a, e) ↦ rw (e, in_app) (keeps a e)
  ]

module _ {C : Type 0} (P : PortMapping C → Type 0) (port : ℕ) where
  -- The port is there, and has a property.
  pub record HasPort (ports : Map ℕ (PortMapping C)) : Type 0 where
    pub port_map : PortMapping C
    pub there : lookup port ports ≡ some port_map
    pub holds : P port_map

  pub insert-HasPort :
      (other : ℕ) (q : PortMapping C) (ports : Map ℕ (PortMapping C))
      → (other ≡ port → P q)
      → HasPort ports
      → HasPort (insert other q ports)
  insert-HasPort other q ports new old = elim (Bool-cases (other == port)) [
    | inl e ↦ record {
      port_map = q;
      there = rw (lookup-insert other port q ports, e) refl;
      holds = new (==_eq other port e);
    }
    | inr e ↦ record {
      port_map = old.port_map;
      there = rw (lookup-insert other port q ports, e) old.there;
      holds = old.holds;
    }
  ]

  pub remove-HasPort :
      (other : ℕ) (ports : Map ℕ (PortMapping C))
      → other ≢ port
      → HasPort ports
      → HasPort (remove other ports)
  remove-HasPort other ports differs old = record {
    port_map = old.port_map;
    there = lookup-remove_ne other port ports differs ∙ old.there;
    holds = old.holds;
  }

  pub at_port :
      (other : ℕ) (p : PortMapping C) (ports : Map ℕ (PortMapping C))
      → lookup other ports ≡ some p
      → HasPort ports
      → other ≡ port
      → P p
  at_port other p ports e old same =
      subst P (some-injective _ _ (sym old.there ∙ rw same at e)) old.holds

  pub in_port-HasPort :
      {M : Type 0} (act : PortMapping C → PortMapping C × List (Effect M)) (other : ℕ)
      (s : RtmpServerEndpointActor C)
      → ((p : PortMapping C) → other ≡ port → P p → P (act p).0)
      → HasPort s.ports
      → HasPort (in_port act other s).0.ports
  unfolding in_port
  in_port-HasPort act other s keeps old = elim (Option-cases (lookup other s.ports)) [
    | inl e ↦ rw (e, in_port) old
    | inr (p, e) ↦
        rw (e, in_port)
          (insert-HasPort other (act p).0 s.ports
            (λ same. keeps p same (at_port other p s.ports e old same)) old)
  ]
