-- ===== src/Session/Recovery.antt =====
-- internal/session/fleet.go Restore: what a reconnect does to the hooks, and what a failed one loses.
use navlink.Base.{
  ◌≡◌, refl, ◌∙◌, true, false, not, ◌&&◌, Option, none, some, List, [], ◌∷◌, append-nil, arith,
  if_cases,
}
use navlink.Base.Result.{Result, ok, err}
use navlink.Base.Text.{string_eq}
use navlink.Errors.{GoError}
use navlink.Session.Broker.{Net}
use navlink.Session.{
  Agv, TrackedAgv, Session, start_with, start, commit, track_with, track_at, track_notify,
  drop_connection_at, drop_connection, release_all, clear, retrack_next, restore, is_empty,
  tracked_agvs,
}

-- The session of Restore when every vehicle's subscriptions are released.
abbrev released : {E W U H : Type 0} → Net E W U → Session W U H → Session W U H
released net s = record s { world = release_all net s.world s.tracked; tracked = [] }

module _ {E W U H : Type 0} (net : Net E W U) where
  start_with-calls :
      (s : Session W U H) (r : W × Result (GoError E) U) → (start_with net s r).0.calls ≡ s.calls
  unfolding start_with
  start_with-calls s (w, ok u) = refl
  start_with-calls s (w, err x) = refl

  start-calls : (s : Session W U H) → (start net s).0.calls ≡ s.calls
  unfolding start
  start-calls s =
      if_cases {A = Session W U H × Option (GoError E)} (λ r. r.0.calls ≡ s.calls) s.started
        (λ _. refl) (λ _. start_with-calls s _)

  commit-calls :
      (s : Session W U H) (agv : Agv) (us : List U) (found : Option (TrackedAgv U))
      → (commit net s agv false us found).0.calls ≡ s.calls
  unfolding commit
  commit-calls s agv us none = append-nil s.calls
  commit-calls s agv us (some t) = refl

  track_with-calls :
      (s : Session W U H) (agv : Agv) (r : W × Result (GoError E) (List U))
      → (track_with net s agv false r).0.calls ≡ s.calls
  unfolding track_with
  track_with-calls s agv (w, ok us) = commit-calls (record s { world = w }) agv us _
  track_with-calls s agv (w, err x) = refl

  track_at-calls :
      (s : Session W U H) (agv : Agv) (found : Option (TrackedAgv U))
      → (track_at net s agv false found).0.calls ≡ s.calls
  unfolding track_at
  track_at-calls s agv none = track_with-calls s agv _
  track_at-calls s agv (some t) = refl

  drop_connection_at-calls :
      (s : Session W U H) (c : Option U) → (drop_connection_at net s c).0.calls ≡ s.calls
  unfolding drop_connection_at
  drop_connection_at-calls s none = refl
  drop_connection_at-calls s (some u) = refl

  clear-calls : (s : Session W U H) → (clear net s).calls ≡ s.calls
  unfolding clear drop_connection
  clear-calls s = drop_connection_at-calls (released net s) s.conn_unsub

  retrack_next-calls :
      (agvs : List Agv) (r : Session W U H × Option (GoError E))
      → (retrack_next net agvs r).0.calls ≡ r.0.calls
  unfolding retrack_next track_notify
  retrack_next-calls agvs (s, some x) = refl
  retrack_next-calls [] (s, none) = refl
  retrack_next-calls (agv ∷ agvs) (s, none) =
      retrack_next-calls agvs (track_notify net s agv false) ∙ track_at-calls s agv _

  restore_step :
      (s : Session W U H)
      → s.started ≡ true
      → restore net s ≡ retrack_next net (tracked_agvs s) (start net (clear net s))
  unfolding restore
  restore_step s up = ground arith

  -- Restore calls no online or offline hook, whether it succeeds or fails.
  pub restore-calls : (s : Session W U H) → (restore net s).0.calls ≡ s.calls
  unfolding restore
  restore-calls s =
      if_cases {A = Session W U H × Option (GoError E)} (λ r. r.0.calls ≡ s.calls)
        (not s.started && is_empty s.tracked) (λ _. refl)
        (λ _.
          retrack_next-calls (tracked_agvs s) (start net (clear net s))
          ∙ start-calls (clear net s)
          ∙ clear-calls s)

  -- What is left to restore: nothing.
  abbrev pub IsForgotten : Session W U H → Type 0
  IsForgotten s = (s.started ≡ false) × (s.tracked ≡ [])

  drop_connection_at-forgets :
      (s : Session W U H) (c : Option U)
      → s.tracked ≡ []
      → IsForgotten (drop_connection_at net s c).0
  unfolding drop_connection_at
  drop_connection_at-forgets s none h = (refl, h)
  drop_connection_at-forgets s (some u) h = (refl, h)

  clear-forgets : (s : Session W U H) → IsForgotten (clear net s)
  unfolding clear drop_connection
  clear-forgets s = drop_connection_at-forgets (released net s) s.conn_unsub refl

  start_with-forgets :
      (s : Session W U H) (r : W × Result (GoError E) U) (x : GoError E)
      → (start_with net s r).1 ≡ some x
      → IsForgotten s
      → IsForgotten (start_with net s r).0
  unfolding start_with
  start_with-forgets s (w, ok u) x h f = cc
  start_with-forgets s (w, err y) x h f = f

  start-forgets :
      (s : Session W U H) (x : GoError E)
      → (start net s).1 ≡ some x
      → IsForgotten s
      → IsForgotten (start net s).0
  unfolding start
  start-forgets s x h f =
      if_cases {A = Session W U H × Option (GoError E)} (λ r. r.1 ≡ some x → IsForgotten r.0)
        s.started (λ _ _. f) (λ _ h. start_with-forgets s _ x h f) h

  restore_of_forgotten : (s : Session W U H) → IsForgotten s → restore net s ≡ (s, none)
  unfolding restore
  restore_of_forgotten s f = ground arith

  retrack_next_of_error :
      (agvs : List Agv) (r : Session W U H × Option (GoError E)) (x : GoError E)
      → r.1 ≡ some x
      → retrack_next net agvs r ≡ r
  unfolding retrack_next
  retrack_next_of_error agvs (s, some y) x h = refl
  retrack_next_of_error agvs (s, none) x h = cc

  -- If the connection subscription cannot be made again while a started session is restored, Restore
  -- returns the error, but every tracked vehicle is forgotten and the session counts as not started.
  -- So the Restore of the next reconnect reports success and subscribes nothing at all.
  pub restore_after_failure :
      (s : Session W U H) (x : GoError E)
      → s.started ≡ true
      → (start net (clear net s)).1 ≡ some x
      → let s' = (restore net s).0 in
        ((restore net s).1 ≡ some x) × IsForgotten s' × (restore net s' ≡ (s', none))
  restore_after_failure s x up failed =
      let f = start-forgets (clear net s) x failed (clear-forgets s) in
      let same = restore_step s up ∙ retrack_next_of_error (tracked_agvs s) _ x failed in
      rw same (failed, f, restore_of_forgotten _ f)
