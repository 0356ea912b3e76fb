-- ===== src/Session/History.antt =====
-- internal/session/fleet.go: a session over any sequence of calls of its methods.
use navlink.Base.{
  ℕ, ◌≡◌, refl, sym, ap, ◌∙◌, Bool, true, false, Option, none, some, List, [], ◌∷◌, map, arith,
  Comparable,
}
use navlink.Base.Text.{string_eq}
use navlink.Base.Dict.{lookup, delete}
use navlink.Topic.{Resolver}
use navlink.Config.{FleetOptions}
use navlink.Session.Broker.{Net, Keeps}
use navlink.Session.Tracked.{held, delete_of_none, delete_all, delete_all-agv_keys}
use navlink.Session.Balance.{
  held_conn, Balanced, start-Balanced, track_notify-Balanced, untrack_notify-Balanced,
}
use navlink.Session.Balance.Methods.{stop-Balanced, restore-Balanced, handle_connection-Balanced}
use navlink.Session.{
  Agv, key, TrackedAgv, Session, ConnectionState, new_session, on_agv_online, on_agv_offline, start,
  untrack_at, untrack_notify, track, untrack, untrack_all, drop_connection_at, drop_connection,
  stop, restore, handle_connection, tracked_agvs,
}

pub data Call (H : Type 0) : Type 0 where
  starts stops restores : Call H
  tracks untracks : Agv → Call H
  connections : Agv → ConnectionState → Call H
  registers_online registers_offline : Option H → Call H

module _ {E W U H : Type 0} (net : Net E W U) where
  unfoldable pub step : Session W U H → Call H → Session W U H
  step s starts = (start net s).0
  step s stops = (stop net s).0
  step s restores = (restore net s).0
  step s (tracks agv) = (track net s agv).0
  step s (untracks agv) = (untrack net s agv).0
  step s (connections agv state) = (handle_connection net s agv state).0
  step s (registers_online h) = on_agv_online s h
  step s (registers_offline h) = on_agv_offline s h

  unfoldable pub run : Session W U H → List (Call H) → Session W U H
  unfolding step
  run s [] = s
  run s (c ∷ cs) = run (step s c) cs

module _ {E W U H : Type 0} ⦃e : Comparable U⦄ {net : Net E W U} (keeps : Keeps net)
    (other : U → ℕ) where
  step-Balanced :
      (s : Session W U H) (c : Call H)
      → Balanced keeps other s
      → Balanced keeps other (step net s c)
  unfolding step track untrack on_agv_online on_agv_offline
  step-Balanced s starts b = start-Balanced keeps other s b
  step-Balanced s stops b = stop-Balanced keeps other s b
  step-Balanced s restores b = restore-Balanced keeps other s b
  step-Balanced s (tracks agv) b = track_notify-Balanced keeps other s agv true b
  step-Balanced s (untracks agv) b = untrack_notify-Balanced keeps other s agv true b
  step-Balanced s (connections agv state) b = handle_connection-Balanced keeps other s agv state b
  step-Balanced s (registers_online none) b = b
  step-Balanced s (registers_online (some h)) b = record {
    books = b.books;
    keyed = b.keyed;
    connected = b.connected;
  }
  step-Balanced s (registers_offline none) b = b
  step-Balanced s (registers_offline (some h)) b = record {
    books = b.books;
    keyed = b.keyed;
    connected = b.connected;
  }

  pub run-Balanced :
      (s : Session W U H) (cs : List (Call H))
      → Balanced keeps other s
      → Balanced keeps other (run net s cs)
  unfolding run
  run-Balanced s [] b = b
  run-Balanced s (c ∷ cs) b = run-Balanced (step net s c) cs (step-Balanced s c b)

module _ {E W U H : Type 0} (net : Net E W U) where
  untrack_at-tracked :
      (s : Session W U H) (agv : Agv) (notify : Bool) (found : Option (TrackedAgv U))
      → lookup (key agv) s.tracked ≡ found
      → (untrack_at net s agv notify found).0.tracked ≡ delete (key agv) s.tracked
  unfolding untrack_at
  untrack_at-tracked s agv notify none h = sym (delete_of_none (key agv) s.tracked h)
  untrack_at-tracked s agv notify (some t) h = refl

  untrack_all-tracked :
      (s : Session W U H) (agvs : List Agv)
      → (untrack_all net s agvs).0.tracked ≡ delete_all (map key agvs) s.tracked
  unfolding untrack_all untrack untrack_notify delete_all
  untrack_all-tracked s [] = refl
  untrack_all-tracked s (agv ∷ agvs) =
      untrack_all-tracked (untrack_notify net s agv true).0 agvs
      ∙ ap (delete_all (map key agvs)) (untrack_at-tracked s agv true _ refl)

  drop_connection_at-empty :
      (s : Session W U H) (c : Option U)
      → s.conn_unsub ≡ c
      → ((drop_connection_at net s c).0.conn_unsub ≡ none)
        × ((drop_connection_at net s c).0.tracked ≡ s.tracked)
  unfolding drop_connection_at
  drop_connection_at-empty s none h = (h, refl)
  drop_connection_at-empty s (some u) h = (refl, refl)

module _ {E W U H : Type 0} ⦃e : Comparable U⦄ {net : Net E W U} (keeps : Keeps net) where
  -- Stop forgets every vehicle and the connection subscription.
  stop-empty :
      (other : U → ℕ) (s : Session W U H)
      → Balanced keeps other s
      → ((stop net s).0.conn_unsub ≡ none) × ((stop net s).0.tracked ≡ [])
  unfolding stop drop_connection
  stop-empty other s b =
      let (gone, same) =
        drop_connection_at-empty net (untrack_all net s (tracked_agvs s)).0 _ refl in
      (
        gone,
        same ∙ untrack_all-tracked net s (tracked_agvs s) ∙ delete_all-agv_keys s.tracked b.keyed,
      )

  new_session-Balanced :
      (topics : Resolver) (opts : FleetOptions) (w : W)
      → Balanced {H = H} keeps (keeps.live w) (new_session topics opts w)
  unfolding new_session
  new_session-Balanced topics opts w = record {
    books = λ v. omega arith;
    keyed = tt;
    connected = refl;
  }

  -- Over a transport that keeps its contract, whatever calls a session has had, in whatever order and
  -- with whatever Subscribe errors, Stop leaves exactly the subscriptions that were live before it
  -- was made: none is leaked, and none of anyone else is taken away.
  pub run-stop-live :
      (topics : Resolver) (opts : FleetOptions) (w : W) (cs : List (Call H)) (v : U)
      → let s = (stop net (run net (new_session topics opts w) cs)).0 in
        (keeps.live s.world v ≡ keeps.live w v) × (s.tracked ≡ []) × (s.started ≡ false)
  run-stop-live topics opts w cs v =
      let before =
        run-Balanced keeps (keeps.live w) (new_session topics opts w) cs
          (new_session-Balanced topics opts w) in
      let after = stop-Balanced keeps (keeps.live w) _ before in
      let (gone, cleared) = stop-empty (keeps.live w) _ before in
      (
        omega (arith, after.books v, ap (held_conn v) gone, ap (held v) cleared),
        cleared,
        rw gone at after.connected,
      )
