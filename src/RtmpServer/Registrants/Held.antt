-- ===== src/RtmpServer/Registrants/Held.antt =====
-- A publisher registrant in its app, and what happens to an app that keeps it there: `register_listener`
-- and the removals of mmids-rtmp/src/rtmp_server/actor/mod.rs.
use mmids_core.Common.{
  String, ◌≡◌, refl, sym, ap, ◌∙◌, subst, ◌≢◌, inl, inr, true, false, ◌&&◌, Option, none, some, [],
  ◌∷◌, arith, Bool-cases, Option-cases, ◌==◌, nat_eq, string_eq, ==_eq, is_empty, Map, or_default,
  lookup, insert, contains_key, lookup-insert, lookup-remove, lookup-remove_ne,
}
use mathlib.Core.Option.{some-injective}
use mmids_core.RtmpServer.Types.{StreamKeyRegistration, registration_eq, any_key, exact}
use mmids_core.RtmpServer.State.{
  PublishingRegistrant, RtmpAppMapping, PortMapping, PortStatus, Fresh, no_registrants,
}
use mmids_core.RtmpServer.Registration.{
  ListenerRequest, publisher_listener, watcher_listener, RegisterListenerParams, can_be_added,
  add_publisher, add_watcher, add_registrant, register_in,
}
use mmids_core.RtmpServer.Removal.{put_app, remove_publisher_from, remove_watcher_from}
use mmids_core.RtmpServer.Registrants.{registrants_of, of_app, registrants, Unmoved}

module _ {V : Type 0} where
  -- What is there under a registration is not replaced, and a map with an entry is not empty.
  can_be_added-new :
      (k : StreamKeyRegistration) (regs : Map StreamKeyRegistration V)
      → can_be_added k regs ≡ true
      → lookup k regs ≡ none
  unfolding can_be_added lookup
  can_be_added-new any_key [] h = refl
  can_be_added-new any_key (r ∷ regs) h = cc
  can_be_added-new (exact k) regs h = elim (Option-cases (lookup (exact k) regs)) [
    | inl e ↦ e
    | inr (r, e) ↦ elim (Bool-cases (contains_key any_key regs)) [
      | inl f ↦ let refused = rw (f, can_be_added) at h in cc
      | inr f ↦ let refused = rw (f, e, can_be_added) at h in cc
    ]
  ]

  is_empty-lookup :
      (k : StreamKeyRegistration) (r : V) (regs : Map StreamKeyRegistration V)
      → lookup k regs ≡ some r
      → is_empty regs ≡ false
  unfolding lookup
  is_empty-lookup k r [] h = cc
  is_empty-lookup k r (x ∷ regs) h = refl

module _ {C : Type 0} (app : String) (key : StreamKeyRegistration)
    (r : PublishingRegistrant C) where
  abbrev pub HeldBy : RtmpAppMapping C → Type 0
  HeldBy a = lookup key a.publisher_registrants ≡ some r

  -- The app of a port holds the registrant under the key.
  pub record Held (p : PortMapping C) : Type 0 where
    pub app_map : RtmpAppMapping C
    pub registered : lookup app p.rtmp_applications ≡ some app_map
    pub held : HeldBy app_map

  insert-Held :
      (other : String) (a : RtmpAppMapping C) (p : PortMapping C)
      → ((other ≡ app) → HeldBy a)
      → Held p
      → Held (record p { rtmp_applications = insert other a p.rtmp_applications })
  insert-Held other a p new old = elim (Bool-cases (other == app)) [
    | inl e ↦ record {
      app_map = a;
      registered = rw (lookup-insert other app a p.rtmp_applications, e) refl;
      held = new (==_eq other app e);
    }
    | inr e ↦ record {
      app_map = old.app_map;
      registered = rw (lookup-insert other app a p.rtmp_applications, e) old.registered;
      held = old.held;
    }
  ]

  held_by :
      (other : String) (p : PortMapping C) (a : RtmpAppMapping C)
      → lookup other p.rtmp_applications ≡ some a
      → Held p
      → other ≡ app
      → HeldBy a
  held_by other p a e old same =
      subst HeldBy (some-injective _ _ (sym old.registered ∙ rw same at e)) old.held

  -- An app that is put back and holds the registrant is not removed.
  put_app-Held :
      (other : String) (a : RtmpAppMapping C) (p : PortMapping C)
      → ((other ≡ app) → HeldBy a)
      → Held p
      → Held (put_app p other a)
  unfolding put_app
  put_app-Held other a p new old =
      elim (Bool-cases (is_empty a.publisher_registrants && is_empty a.watcher_registrants)) [
        | inr e ↦ rw (e, put_app) (insert-Held other a p new old)
        | inl e ↦ elim (Bool-cases (other == app)) [
          | inl same ↦
              let full =
                is_empty-lookup key r a.publisher_registrants (new (==_eq other app same)) in
              absurd (ground (arith, e, full))
          | inr differs ↦
              rw (e, put_app)
                (record {
                  app_map = old.app_map;
                  registered =
                      rw (lookup-remove other app p.rtmp_applications, differs) old.registered;
                  held = old.held;
                })
        ]
      ]

  pub Unmoved-Held : (p q : PortMapping C) → Unmoved p q → Held p → Held q
  unfolding registrants
  Unmoved-Held p q same old =
      there (lookup app q.rtmp_applications) refl (same app ∙ ap of_app old.registered)
    where
      there :
          (found : Option (RtmpAppMapping C))
          → lookup app q.rtmp_applications ≡ found
          → of_app found ≡ some (registrants_of old.app_map)
          → Held q
      there none e h = cc
      there (some a) e h = record {
        app_map = a;
        registered = e;
        held = ap (λ x. lookup key x.0) (some-injective _ _ h) ∙ old.held;
      }

module _ {C : Type 0} (M : Type 0) (app : String) (key : StreamKeyRegistration)
    (r : PublishingRegistrant C) where
  -- Whoever else registers, the registrant stays.
  add_registrant-HeldBy :
      (params : RegisterListenerParams C) (fresh : Fresh) (listener : ListenerRequest)
      (status : PortStatus) (a : RtmpAppMapping C)
      → HeldBy app key r a
      → HeldBy app key r (add_registrant {M = M} params fresh listener status a).0
  unfolding add_registrant add_publisher add_watcher
  add_registrant-HeldBy params fresh (publisher_listener channel id approval) status a old =
      elim (Bool-cases (can_be_added params.stream_key a.publisher_registrants)) [
        | inr h ↦ rw (h, add_publisher) old
        | inl h ↦ elim (Bool-cases (params.stream_key == key)) [
          | inl same ↦
              let free = can_be_added-new params.stream_key a.publisher_registrants h in
              let taken : lookup params.stream_key a.publisher_registrants ≡ some r =
                rw (==_eq params.stream_key key same) old in
              cc
          | inr differs ↦
              rw (h, add_publisher)
                (lookup-insert params.stream_key key _ a.publisher_registrants ∙ rw differs old)
        ]
      ]
  add_registrant-HeldBy params fresh (watcher_listener channel m approval) status a old =
      elim (Bool-cases (can_be_added params.stream_key a.watcher_registrants)) [
        | inr h ↦ rw (h, add_watcher) old
        | inl h ↦ rw (h, add_watcher) old
      ]

  pub register_in-Held :
      (params : RegisterListenerParams C) (fresh : Fresh) (p : PortMapping C)
      → Held app key r p
      → Held app key r (register_in {M = M} params fresh p).0
  unfolding register_in
  register_in-Held params fresh p old =
      insert-Held app key r params.rtmp_app _ p
        (λ same. add_registrant-HeldBy params fresh params.listener p.status _ (there same)) old
    where
      there :
          params.rtmp_app ≡ app
          → HeldBy app key r
              (or_default (lookup params.rtmp_app p.rtmp_applications) no_registrants)
      there same = rw (same, old.registered) old.held

  -- The removal of another publisher registrant, or of a watcher registrant.
  pub remove_publisher-Held :
      (other : String) (k : StreamKeyRegistration) (p : PortMapping C) (a : RtmpAppMapping C)
      → lookup other p.rtmp_applications ≡ some a
      → (other ≡ app → k ≢ key)
      → Held app key r p
      → Held app key r (remove_publisher_from {M = M} p other k a).0
  unfolding remove_publisher_from
  remove_publisher-Held other k p a e differs old =
      elim (Bool-cases (contains_key k a.publisher_registrants)) [
        | inr h ↦ rw (h, remove_publisher_from) old
        | inl h ↦
            rw (h, remove_publisher_from)
              (put_app-Held app key r other _ p
                (λ same.
                  lookup-remove_ne k key a.publisher_registrants (differs same)
                  ∙ held_by app key r other p a e old same)
                old)
      ]

  pub remove_watcher-Held :
      (other : String) (k : StreamKeyRegistration) (p : PortMapping C) (a : RtmpAppMapping C)
      → lookup other p.rtmp_applications ≡ some a
      → Held app key r p
      → Held app key r (remove_watcher_from {M = M} p other k a).0
  unfolding remove_watcher_from
  remove_watcher-Held other k p a e old = elim (Bool-cases (contains_key k a.watcher_registrants)) [
    | inr h ↦ rw (h, remove_watcher_from) old
    | inl h ↦
        rw (h, remove_watcher_from)
          (put_app-Held app key r other _ p (held_by app key r other p a e old) old)
  ]
