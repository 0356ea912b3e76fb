-- ===== src/Session/Balance/Methods.antt =====
-- internal/session/fleet.go: the books over Stop, Restore and HandleConnection.
use navlink.Base.{
  ℕ, ◌≡◌, refl, ap, true, false, not, ◌&&◌, Option, none, some, List, [], ◌∷◌, arith, Comparable,
  if_cases,
}
use navlink.Base.Text.{string_eq}
use navlink.Errors.{GoError}
use navlink.Session.Broker.{Net, Keeps}
use navlink.Session.Releases.{release_all-live}
use navlink.Session.Balance.{
  held_conn, Balanced, start-Balanced, track_notify-Balanced, untrack_notify-Balanced,
}
use navlink.Session.{
  Agv, Session, track_notify, untrack_notify, track, untrack, untrack_all, drop_connection_at,
  drop_connection, stop, clear, retrack_next, restore, is_empty, handle_state, handle_connection,
  ConnectionState, is_online, is_offline, is_broken, is_other, tracked_agvs,
}

module _ {E W U H : Type 0} ⦃e : Comparable U⦄ {net : Net E W U} (keeps : Keeps net)
    (other : U → ℕ) where
  open keeps use {live}

  drop_connection_at-Balanced :
      (s : Session W U H) (c : Option U)
      → s.conn_unsub ≡ c
      → Balanced keeps other s
      → Balanced keeps other (drop_connection_at net s c).0
  unfolding drop_connection_at
  drop_connection_at-Balanced s none h b = record {
    books = b.books;
    keyed = b.keyed;
    connected = rw h;
  }
  drop_connection_at-Balanced s (some u) h b = record {
    books = λ v. omega (arith, keeps.unsubscribe-live s.world u v, b.books v, ap (held_conn v) h);
    keyed = b.keyed;
    connected = refl;
  }

  drop_connection-Balanced :
      (s : Session W U H) → Balanced keeps other s → Balanced keeps other (drop_connection net s).0
  unfolding drop_connection
  drop_connection-Balanced s b = drop_connection_at-Balanced s s.conn_unsub refl b

  pub untrack_all-Balanced :
      (s : Session W U H) (agvs : List Agv)
      → Balanced keeps other s
      → Balanced keeps other (untrack_all net s agvs).0
  unfolding untrack_all untrack
  untrack_all-Balanced s [] b = b
  untrack_all-Balanced s (agv ∷ agvs) b =
      untrack_all-Balanced (untrack_notify net s agv true).0 agvs
        (untrack_notify-Balanced keeps other s agv true b)

  -- Stop keeps the books.
  pub stop-Balanced :
      (s : Session W U H) → Balanced keeps other s → Balanced keeps other (stop net s).0
  unfolding stop
  stop-Balanced s b = drop_connection-Balanced _ (untrack_all-Balanced s (tracked_agvs s) b)

  pub clear-Balanced :
      (s : Session W U H) → Balanced keeps other s → Balanced keeps other (clear net s)
  unfolding clear
  clear-Balanced s b = drop_connection-Balanced _ (record {
    books = λ v. omega (arith, release_all-live keeps s.world s.tracked v, b.books v);
    keyed = tt;
    connected = b.connected;
  })

  retrack_next-Balanced :
      (agvs : List Agv) (r : Session W U H × Option (GoError E))
      → Balanced keeps other r.0
      → Balanced keeps other (retrack_next net agvs r).0
  unfolding retrack_next
  retrack_next-Balanced agvs (s, some x) b = b
  retrack_next-Balanced [] (s, none) b = b
  retrack_next-Balanced (agv ∷ agvs) (s, none) b =
      retrack_next-Balanced agvs (track_notify net s agv false)
        (track_notify-Balanced keeps other s agv false b)

  pub restore-Balanced :
      (s : Session W U H) → Balanced keeps other s → Balanced keeps other (restore net s).0
  unfolding restore
  restore-Balanced s b =
      if_cases {A = Session W U H × Option (GoError E)} (λ r. Balanced keeps other r.0)
        (not s.started && is_empty s.tracked) (λ _. b)
        (λ _.
          retrack_next-Balanced (tracked_agvs s) _
            (start-Balanced keeps other (clear net s) (clear-Balanced s b)))

  handle_state-Balanced :
      (s : Session W U H) (agv : Agv) (state : ConnectionState)
      → Balanced keeps other s
      → Balanced keeps other (handle_state net s agv state).0
  unfolding handle_state track untrack
  handle_state-Balanced s agv is_online b = track_notify-Balanced keeps other s agv true b
  handle_state-Balanced s agv is_offline b = untrack_notify-Balanced keeps other s agv true b
  handle_state-Balanced s agv is_broken b = untrack_notify-Balanced keeps other s agv true b
  handle_state-Balanced s agv is_other b = b

  pub handle_connection-Balanced :
      (s : Session W U H) (agv : Agv) (state : ConnectionState)
      → Balanced keeps other s
      → Balanced keeps other (handle_connection net s agv state).0
  unfolding handle_connection
  handle_connection-Balanced s agv state b =
      if_cases {A = Session W U H × Option (GoError E)} (λ r. Balanced keeps other r.0)
        s.opts.auto_track_from_connection (λ _. handle_state-Balanced s agv state b) (λ _. b)
