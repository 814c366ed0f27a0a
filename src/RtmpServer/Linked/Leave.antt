-- ===== src/RtmpServer/Linked/Leave.antt =====
-- Connections that stop publishing or watching, or that are gone, leave nothing behind at any key.
use mmids_core.Common.{
  String, ◌≡◌, refl, sym, ap, ◌∙◌, subst, ◌≢◌, inl, inr, true, false, Option, none, some,
  Bool-cases, Option-cases, ◌==◌, nat_eq, string_eq, ==_ne, Map, lookup, insert, remove,
  contains_key, lookup-insert_self, lookup-remove_self, contains_key-remove_cases,
}
use mathlib.Core.Option.{some-injective}
use mmids_core.RtmpServer.Types.{ConnectionId}
use mmids_core.RtmpServer.State.{
  StreamKeyConnections, RtmpAppMapping, ConnectionState, publishing, watching, Connection,
  PortMapping, no_connections, put_key,
}
use mmids_core.RtmpServer.Publishing.{leave_key, leave_publishing}
use mmids_core.RtmpServer.Watching.{leave_watching}
use mmids_core.RtmpServer.Views.{key_in, key_of, state_in}
use mmids_core.RtmpServer.Linked.{LinkedBut, AbsentBut, connections-Linked, put_key-Linked}

abbrev place_of : Option ConnectionState → String × String
place_of (some (publishing app key)) = (app, key)
place_of (some (watching app key)) = (app, key)
place_of _ = ("", "")

module _ {Bad : ConnectionId → Type 0} {C : Type 0} where
  -- A connection that publishes a key can only stand at that key, and only as its publisher.
  publishing-Absent :
      (p : PortMapping C) (id : ConnectionId) (app key : String)
      → state_in p.connections id ≡ some (publishing app key)
      → (key_of p app key).publisher ≢ some id
      → (LinkedBut Bad) p
      → (AbsentBut Bad) p id
  publishing-Absent p id app key e n v i j = record {
    no_publisher = λ h. elim ((v i j).publishes id h) [
      | inl bad ↦ bad
      | inr q ↦
          let same = ap place_of (sym e ∙ q) in
          absurd (
            n (
              subst (λ (x : String × String). (key_of p x.0 x.1).publisher ≡ some id) (sym same) h))
    ];
    no_watcher = λ h. elim ((v i j).watches id h) [
      | inl bad ↦ bad
      | inr q ↦ absurd (clash (some-injective _ _ (sym e ∙ q)))
    ];
  }
    where
      clash : publishing app key ≡ watching i j → ⊥
      clash q = cc

  watching-Absent :
      (p : PortMapping C) (id : ConnectionId) (app key : String)
      → state_in p.connections id ≡ some (watching app key)
      → contains_key id (key_of p app key).watchers ≡ false
      → (LinkedBut Bad) p
      → (AbsentBut Bad) p id
  watching-Absent p id app key e n v i j = record {
    no_publisher = λ h. elim ((v i j).publishes id h) [
      | inl bad ↦ bad
      | inr q ↦ absurd (clash (some-injective _ _ (sym e ∙ q)))
    ];
    no_watcher = λ h. elim ((v i j).watches id h) [
      | inl bad ↦ bad
      | inr q ↦
          let same = ap place_of (sym e ∙ q) in
          let there =
            subst (λ (x : String × String). contains_key id (key_of p x.0 x.1).watchers ≡ true)
              (sym same) h in
          absurd (cc)
    ];
  }
    where
      clash : watching app key ≡ publishing i j → ⊥
      clash q = cc

module _ {C : Type 0} where
  key_of-none :
      (p : PortMapping C) (app key : String)
      → lookup app p.rtmp_applications ≡ none
      → key_of p app key ≡ no_connections
  unfolding key_of
  key_of-none p app key e = rw (e, key_of) refl

  key_of-some :
      (p : PortMapping C) (app key : String) (a : RtmpAppMapping C)
      → lookup app p.rtmp_applications ≡ some a
      → key_of p app key ≡ key_in a.active_stream_keys key
  unfolding key_of
  key_of-some p app key a e = rw (e, key_of) refl

  pub key_of-put_key :
      (p : PortMapping C) (app key : String) (a : RtmpAppMapping C) (c : StreamKeyConnections)
      → key_of (put_key p app a key c) app key ≡ c
  unfolding key_of put_key
  key_of-put_key p app key a c =
      rw
        (
          lookup-insert_self app
              (record a { active_stream_keys = insert key c a.active_stream_keys })
              p.rtmp_applications,
          key_of,
        )
        (rw (lookup-insert_self key c a.active_stream_keys) refl)

  -- What is at a key of an app.
  at_key :
      (p : PortMapping C) (app key : String) (a : RtmpAppMapping C) (c : StreamKeyConnections)
      → lookup app p.rtmp_applications ≡ some a
      → lookup key a.active_stream_keys ≡ some c
      → key_of p app key ≡ c
  at_key p app key a c e f = key_of-some p app key a e ∙ rw (f, key_in) refl

  not_at_key :
      (p : PortMapping C) (app key : String) (a : RtmpAppMapping C)
      → lookup app p.rtmp_applications ≡ some a
      → lookup key a.active_stream_keys ≡ none
      → key_of p app key ≡ no_connections
  not_at_key p app key a e f = key_of-some p app key a e ∙ rw (f, key_in) refl

module _ {C : Type 0} (M : Type 0) (p : PortMapping C) (id : ConnectionId) (app key : String)
    (connections : Map ConnectionId Connection) where
  abbrev pub Elsewhere : Type 0
  Elsewhere = (x : ConnectionId) → id ≢ x → lookup x connections ≡ lookup x p.connections

module _ {Bad : ConnectionId → Type 0} {C : Type 0} (M : Type 0) (p : PortMapping C)
    (id : ConnectionId) (app key : String) where
  module _ (connections : Map ConnectionId Connection) where
    pub leave_publishing-Linked :
        Elsewhere M p id app key connections
        → state_in p.connections id ≡ some (publishing app key)
        → (LinkedBut Bad) p
        → (LinkedBut Bad)
            (leave_publishing {M = M} (record p { connections = connections }) id app key).0
    unfolding leave_publishing leave_key put_key
    leave_publishing-Linked same s v = elim (Option-cases (lookup app p.rtmp_applications)) [
      | inl e ↦ rw (e, leave_publishing) (unchanged (rw (key_of-none p app key e) (λ h. cc)))
      | inr (a, e) ↦ elim (Option-cases (lookup key a.active_stream_keys)) [
        | inl f ↦
            rw (e, f, leave_publishing) (unchanged (rw (not_at_key p app key a e f) (λ h. cc)))
        | inr (c, f) ↦ elim (Option-cases c.publisher) [
          | inl g ↦
              rw (e, f, g, leave_publishing, leave_key)
                (unchanged (rw (at_key p app key a c e f, g) (λ h. cc)))
          | inr (other, g) ↦ elim (Bool-cases (other == id)) [
            | inr k ↦
                rw (e, f, g, k, leave_publishing, leave_key)
                  (unchanged (
                    rw (at_key p app key a c e f, g)
                      (λ h. ==_ne other id k (some-injective other id h))))
            | inl k ↦ rw (e, f, g, k, leave_publishing, leave_key) (left a c e f)
          ]
        ]
      ]
    ]
      where
        unchanged :
            (key_of p app key).publisher ≢ some id
            → (LinkedBut Bad) (record p { connections = connections })
        unchanged n =
            connections-Linked p id connections same (publishing-Absent p id app key s n v) v

        left :
            (a : RtmpAppMapping C) (c : StreamKeyConnections)
            → lookup app p.rtmp_applications ≡ some a
            → lookup key a.active_stream_keys ≡ some c
            → (LinkedBut Bad) (
                put_key
                  (record p { connections = connections })
                  app
                  a
                  key
                  (record c {
                    publisher = none;
                    latest_video_sequence_header = none;
                    latest_audio_sequence_header = none;
                  }))
        left a c e f =
            let linked =
              put_key-Linked p app a key
                (record c {
                  publisher = none;
                  latest_video_sequence_header = none;
                  latest_audio_sequence_header = none;
                })
                e
                (record {
                  publishes = λ x h. cc;
                  watches = (rw (at_key p app key a c e f) at (v app key)).watches;
                })
                v in
            connections-Linked _ id connections same
              (publishing-Absent _ id app key s (rw (key_of-put_key p app key a _) (λ h. cc))
                linked)
              linked

    pub leave_watching-Linked :
        Elsewhere M p id app key connections
        → state_in p.connections id ≡ some (watching app key)
        → (LinkedBut Bad) p
        → (LinkedBut Bad)
            (leave_watching {M = M} (record p { connections = connections }) id app key).0
    unfolding leave_watching put_key lookup
    leave_watching-Linked same s v = elim (Option-cases (lookup app p.rtmp_applications)) [
      | inl e ↦ rw (e, leave_watching) (unchanged (rw (key_of-none p app key e) refl))
      | inr (a, e) ↦ elim (Option-cases (lookup key a.active_stream_keys)) [
        | inl f ↦ rw (e, f, leave_watching) (unchanged (rw (not_at_key p app key a e f) refl))
        | inr (c, f) ↦ rw (e, f, leave_watching) (left a c e f)
      ]
    ]
      where
        unchanged :
            contains_key id (key_of p app key).watchers ≡ false
            → (LinkedBut Bad) (record p { connections = connections })
        unchanged n =
            connections-Linked p id connections same (watching-Absent p id app key s n v) v

        left :
            (a : RtmpAppMapping C) (c : StreamKeyConnections)
            → lookup app p.rtmp_applications ≡ some a
            → lookup key a.active_stream_keys ≡ some c
            → (LinkedBut Bad) (
                put_key
                  (record p { connections = connections })
                  app
                  a
                  key
                  (record c { watchers = remove id c.watchers }))
        left a c e f =
            let old = rw (at_key p app key a c e f) at (v app key) in
            let linked =
              put_key-Linked p app a key (record c { watchers = remove id c.watchers }) e
                (record {
                  publishes = old.publishes;
                  watches = λ x h. old.watches x (contains_key-remove_cases id x c.watchers h).1;
                })
                v in
            connections-Linked _ id connections same
              (watching-Absent _ id app key s
                (rw (key_of-put_key p app key a _) (rw (lookup-remove_self id c.watchers) refl))
                linked)
              linked
