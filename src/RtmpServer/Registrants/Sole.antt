-- ===== src/RtmpServer/Registrants/Sole.antt =====
-- No two registrants of an app stand for the same stream key: `can_be_added` of
-- mmids-rtmp/src/rtmp_server/actor/mod.rs.
use mmids_core.Common.{
  String, ◌≡◌, refl, sym, ap, ◌∙◌, subst, inl, inr, Bool, true, false, ◌&&◌, some, [], ◌∷◌,
  Bool-cases, Option-cases, ◌==◌, nat_eq, string_eq, ==_eq, is_empty, Map, or_default, lookup,
  insert, remove, contains_key, lookup-insert, lookup-remove, contains_key-insert_cases,
  contains_key-remove_cases,
}
use mathlib.Core.Option.{some-injective}
use mmids_core.RtmpServer.Types.{StreamKeyRegistration, registration_eq, any_key, exact}
use mmids_core.RtmpServer.State.{RtmpAppMapping, PortMapping, PortStatus, Fresh, no_registrants}
use mmids_core.RtmpServer.Registration.{
  ListenerRequest, publisher_listener, watcher_listener, RegisterListenerParams, can_be_added,
  add_publisher, add_watcher, add_registrant, register_in,
}
use mmids_core.RtmpServer.Removal.{put_app, remove_publisher_from, remove_watcher_from}
use mmids_core.RtmpServer.Registrants.{Registrants, registrants_of, of_app, registrants, Unmoved}

-- The stream keys that a registration is for.
unfoldable pub covers : StreamKeyRegistration → String → Bool
covers any_key key = true
covers (exact k) key = k == key

module _ {V : Type 0} where
  -- At most one of the registrations is for a stream key.
  abbrev pub IsSole : Map StreamKeyRegistration V → Type 0
  IsSole regs =
      (i j : StreamKeyRegistration) (key : String)
      → contains_key i regs ≡ true
      → contains_key j regs ≡ true
      → covers i key ≡ true
      → covers j key ≡ true
      → i ≡ j

  remove-IsSole :
      (k : StreamKeyRegistration) (regs : Map StreamKeyRegistration V)
      → IsSole regs
      → IsSole (remove k regs)
  remove-IsSole k regs v i j key h g =
      v i j key (contains_key-remove_cases k i regs h).1 (contains_key-remove_cases k j regs g).1

  -- A registration that may be added shares no stream key with one that is there.
  new_is_sole :
      (k j : StreamKeyRegistration) (key : String) (regs : Map StreamKeyRegistration V)
      → can_be_added k regs ≡ true
      → contains_key j regs ≡ true
      → covers k key ≡ true
      → covers j key ≡ true
      → k ≡ j
  unfolding can_be_added covers lookup
  new_is_sole any_key j key [] free h c d = cc
  new_is_sole any_key j key (r ∷ regs) free h c d = cc
  new_is_sole (exact k) any_key key regs free h c d =
      let refused : can_be_added (exact k) regs ≡ false = rw (h, can_be_added) refl in cc
  new_is_sole (exact k) (exact j) key regs free h c d =
      ap exact (==_eq k key c ∙ sym (==_eq j key d))

  insert-IsSole :
      (k : StreamKeyRegistration) (r : V) (regs : Map StreamKeyRegistration V)
      → can_be_added k regs ≡ true
      → IsSole regs
      → IsSole (insert k r regs)
  insert-IsSole k r regs free v i j key h g c d = elim (contains_key-insert_cases k i r regs h) [
    | inl p ↦ elim (contains_key-insert_cases k j r regs g) [
      | inl q ↦ sym p ∙ q
      | inr q ↦ sym p ∙ new_is_sole k j key regs free q (rw p c) d
    ]
    | inr p ↦ elim (contains_key-insert_cases k j r regs g) [
      | inl q ↦ sym (new_is_sole k i key regs free p (rw q d) c) ∙ q
      | inr q ↦ v i j key p q c d
    ]
  ]

empty-IsSole : (V : Type 0) → IsSole {V = V} []
unfolding lookup
empty-IsSole V i j key h k c d = cc

module _ {C : Type 0} where
  pub record AppIsSole (r : Registrants C) : Type 0 where
    pub publishers : IsSole r.0
    pub watchers : IsSole r.1

  -- So it is in every app of a port.
  abbrev pub PortIsSole : PortMapping C → Type 0
  PortIsSole p = (app : String) (r : Registrants C) → registrants p app ≡ some r → AppIsSole r

  pub no_registrants-AppIsSole : AppIsSole (registrants_of {C = C} no_registrants)
  no_registrants-AppIsSole = record { publishers = empty-IsSole _; watchers = empty-IsSole _ }

  pub Unmoved-PortIsSole : (p q : PortMapping C) → Unmoved p q → PortIsSole p → PortIsSole q
  Unmoved-PortIsSole p q same v app r h = v app r (sym (same app) ∙ h)

  -- An app with registrants of which this holds is put into a port.
  insert-PortIsSole :
      (p : PortMapping C) (app : String) (a : RtmpAppMapping C)
      → AppIsSole (registrants_of a)
      → PortIsSole p
      → PortIsSole (record p { rtmp_applications = insert app a p.rtmp_applications })
  unfolding registrants
  insert-PortIsSole p app a new v i r h = elim (Bool-cases (app == i)) [
    | inl e ↦
        subst AppIsSole
          (some-injective _ _ (rw (lookup-insert app i a p.rtmp_applications, e, registrants) at h))
          new
    | inr e ↦ v i r (rw (lookup-insert app i a p.rtmp_applications, e, registrants) at h)
  ]

  remove-PortIsSole :
      (p : PortMapping C) (app : String)
      → PortIsSole p
      → PortIsSole (record p { rtmp_applications = remove app p.rtmp_applications })
  unfolding registrants
  remove-PortIsSole p app v i r h = elim (Bool-cases (app == i)) [
    | inl e ↦ let gone = rw (lookup-remove app i p.rtmp_applications, e, registrants) at h in cc
    | inr e ↦ v i r (rw (lookup-remove app i p.rtmp_applications, e, registrants) at h)
  ]

  put_app-PortIsSole :
      (p : PortMapping C) (app : String) (a : RtmpAppMapping C)
      → AppIsSole (registrants_of a)
      → PortIsSole p
      → PortIsSole (put_app p app a)
  unfolding put_app
  put_app-PortIsSole p app a new v =
      elim (Bool-cases (is_empty a.publisher_registrants && is_empty a.watcher_registrants)) [
        | inl e ↦ rw (e, put_app) (remove-PortIsSole p app v)
        | inr e ↦ rw (e, put_app) (insert-PortIsSole p app a new v)
      ]

  in_app-AppIsSole :
      (p : PortMapping C) (app : String) (a : RtmpAppMapping C)
      → lookup app p.rtmp_applications ≡ some a
      → PortIsSole p
      → AppIsSole (registrants_of a)
  unfolding registrants
  in_app-AppIsSole p app a e v = v app (registrants_of a) (ap of_app e)

module _ {C : Type 0} (M : Type 0) (p : PortMapping C) (v : PortIsSole p) where
  pub remove_publisher-PortIsSole :
      (app : String) (key : StreamKeyRegistration) (a : RtmpAppMapping C)
      → lookup app p.rtmp_applications ≡ some a
      → PortIsSole (remove_publisher_from {M = M} p app key a).0
  unfolding remove_publisher_from
  remove_publisher-PortIsSole app key a e =
      elim (Bool-cases (contains_key key a.publisher_registrants)) [
        | inr h ↦ rw (h, remove_publisher_from) v
        | inl h ↦
            let old = in_app-AppIsSole p app a e v in
            rw (h, remove_publisher_from)
              (put_app-PortIsSole p app _
                (record {
                  publishers = remove-IsSole key a.publisher_registrants old.publishers;
                  watchers = old.watchers;
                })
                v)
      ]

  pub remove_watcher-PortIsSole :
      (app : String) (key : StreamKeyRegistration) (a : RtmpAppMapping C)
      → lookup app p.rtmp_applications ≡ some a
      → PortIsSole (remove_watcher_from {M = M} p app key a).0
  unfolding remove_watcher_from
  remove_watcher-PortIsSole app key a e =
      elim (Bool-cases (contains_key key a.watcher_registrants)) [
        | inr h ↦ rw (h, remove_watcher_from) v
        | inl h ↦
            let old = in_app-AppIsSole p app a e v in
            rw (h, remove_watcher_from)
              (put_app-PortIsSole p app _
                (record {
                  publishers = old.publishers;
                  watchers = remove-IsSole key a.watcher_registrants old.watchers;
                })
                v)
      ]

  add_registrant-AppIsSole :
      (params : RegisterListenerParams C) (fresh : Fresh) (listener : ListenerRequest)
      (status : PortStatus) (a : RtmpAppMapping C)
      → AppIsSole (registrants_of a)
      → AppIsSole (registrants_of (add_registrant {M = M} params fresh listener status a).0)
  unfolding add_registrant add_publisher add_watcher
  add_registrant-AppIsSole params fresh (publisher_listener channel id approval) status a old =
      elim (Bool-cases (can_be_added params.stream_key a.publisher_registrants)) [
        | inr h ↦ rw (h, add_publisher) old
        | inl h ↦
            rw (h, add_publisher)
              (record {
                publishers =
                    insert-IsSole params.stream_key _ a.publisher_registrants h old.publishers;
                watchers = old.watchers;
              })
      ]
  add_registrant-AppIsSole params fresh (watcher_listener channel m approval) status a old =
      elim (Bool-cases (can_be_added params.stream_key a.watcher_registrants)) [
        | inr h ↦ rw (h, add_watcher) old
        | inl h ↦
            rw (h, add_watcher)
              (record {
                publishers = old.publishers;
                watchers = insert-IsSole params.stream_key _ a.watcher_registrants h old.watchers;
              })
      ]

  pub register_in-PortIsSole :
      (params : RegisterListenerParams C) (fresh : Fresh)
      → PortIsSole (register_in {M = M} params fresh p).0
  unfolding register_in
  register_in-PortIsSole params fresh =
      insert-PortIsSole p params.rtmp_app _
        (add_registrant-AppIsSole params fresh params.listener p.status _ old) v
    where
      old :
          AppIsSole (
            registrants_of (or_default (lookup params.rtmp_app p.rtmp_applications) no_registrants))
      old = elim (Option-cases (lookup params.rtmp_app p.rtmp_applications)) [
        | inl e ↦ rw e no_registrants-AppIsSole
        | inr (a, e) ↦ rw e (in_app-AppIsSole p params.rtmp_app a e v)
      ]
