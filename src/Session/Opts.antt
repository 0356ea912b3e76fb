-- ===== src/Session/Opts.antt =====
-- internal/session/fleet.go: no method changes the options.
use navlink.Base.{
  ◌≡◌, refl, ◌∙◌, Bool, true, false, not, ◌&&◌, Option, none, some, List, [], ◌∷◌, if_cases,
}
use navlink.Base.Result.{Result, ok, err}
use navlink.Base.Text.{string_eq}
use navlink.Base.Dict.{lookup}
use navlink.Errors.{GoError}
use navlink.Session.{
  Session, Agv, TrackedAgv, ConnectionState, is_online, is_offline, is_broken, is_other, key,
  is_empty, tracked_agvs, channels, subscribe_all, release_all, start_with, start, commit,
  track_with, track_at, track_notify, untrack_at, untrack_notify, track, untrack, untrack_all,
  drop_connection_at, drop_connection, stop, retrack_next, clear, restore, handle_state,
  handle_connection,
}
use navlink.Session.Broker.{Net}

abbrev Done : Type 0 → Type 0 → Type 0 → Type 0 → Type 0
Done E W U H = Session W U H × Option (GoError E)

module _ {E W U H : Type 0} (net : Net E W U) where
  -- The options are those of `s`.
  abbrev pub HasOpts : Session W U H → Done E W U H → Type 0
  HasOpts s r = r.0.opts ≡ s.opts

  pub start-HasOpts : (s : Session W U H) → HasOpts s (start net s)
  unfolding start start_with
  start-HasOpts s = if_cases {A = Done E W U H} (HasOpts s) s.started (λ _. refl) (λ _. go _)
    where
      go : (r : W × Result (GoError E) U) → HasOpts s (start_with net s r)
      go (w, err e) = refl
      go (w, ok u) = refl

  track_at-HasOpts :
      (s : Session W U H) (agv : Agv) (notify : Bool) (t : Option (TrackedAgv U))
      → HasOpts s (track_at net s agv notify t)
  unfolding track_at commit track_with
  track_at-HasOpts s agv notify (some t) = refl
  track_at-HasOpts s agv notify none =
      go (subscribe_all net s.topics agv s.world [] (channels s.opts))
    where
      keep :
          (w : W) (us : List U) (t : Option (TrackedAgv U))
          → HasOpts s (commit net (record s { world = w }) agv notify us t)
      keep w us none = refl
      keep w us (some t) = refl

      go : (r : W × Result (GoError E) (List U)) → HasOpts s (track_with net s agv notify r)
      go (w, err e) = refl
      go (w, ok us) = keep w us (lookup (key agv) s.tracked)

  track_notify-HasOpts :
      (s : Session W U H) (agv : Agv) (notify : Bool) → HasOpts s (track_notify net s agv notify)
  unfolding track_notify
  track_notify-HasOpts s agv notify = track_at-HasOpts s agv notify _

  pub track-HasOpts : (s : Session W U H) (agv : Agv) → HasOpts s (track net s agv)
  unfolding track
  track-HasOpts s agv = track_notify-HasOpts s agv true

  untrack_at-HasOpts :
      (s : Session W U H) (agv : Agv) (notify : Bool) (t : Option (TrackedAgv U))
      → HasOpts s (untrack_at net s agv notify t)
  unfolding untrack_at
  untrack_at-HasOpts s agv notify none = refl
  untrack_at-HasOpts s agv notify (some t) = refl

  pub untrack-HasOpts : (s : Session W U H) (agv : Agv) → HasOpts s (untrack net s agv)
  unfolding untrack untrack_notify
  untrack-HasOpts s agv = untrack_at-HasOpts s agv true _

  untrack_all-HasOpts : (agvs : List Agv) (s : Session W U H) → HasOpts s (untrack_all net s agvs)
  unfolding untrack_all
  untrack_all-HasOpts [] s = refl
  untrack_all-HasOpts (agv ∷ agvs) s =
      untrack_all-HasOpts agvs (untrack net s agv).0 ∙ untrack-HasOpts s agv

  drop_connection-HasOpts : (s : Session W U H) → HasOpts s (drop_connection net s)
  unfolding drop_connection drop_connection_at
  drop_connection-HasOpts s = go s.conn_unsub
    where
      go : (u : Option U) → HasOpts s (drop_connection_at net s u)
      go none = refl
      go (some u) = refl

  pub stop-HasOpts : (s : Session W U H) → HasOpts s (stop net s)
  unfolding stop
  stop-HasOpts s =
      drop_connection-HasOpts (untrack_all net s (tracked_agvs s)).0
      ∙ untrack_all-HasOpts (tracked_agvs s) s

  retrack_next-HasOpts :
      (agvs : List Agv) (r : Done E W U H) → HasOpts r.0 (retrack_next net agvs r)
  unfolding retrack_next
  retrack_next-HasOpts [] (s, some e) = refl
  retrack_next-HasOpts (agv ∷ agvs) (s, some e) = refl
  retrack_next-HasOpts [] (s, none) = refl
  retrack_next-HasOpts (agv ∷ agvs) (s, none) =
      retrack_next-HasOpts agvs (track_notify net s agv false) ∙ track_notify-HasOpts s agv false

  pub restore-HasOpts : (s : Session W U H) → HasOpts s (restore net s)
  unfolding restore clear
  restore-HasOpts s =
      if_cases {A = Done E W U H} (HasOpts s) (not s.started && is_empty s.tracked) (λ _. refl)
        (λ _.
          retrack_next-HasOpts (tracked_agvs s) (start net (clear net s))
          ∙ start-HasOpts (clear net s)
          ∙ drop_connection-HasOpts
              (record s { world = release_all net s.world s.tracked; tracked = [] }))

  handle_state-HasOpts :
      (s : Session W U H) (agv : Agv) (state : ConnectionState)
      → HasOpts s (handle_state net s agv state)
  unfolding handle_state
  handle_state-HasOpts s agv is_online = track-HasOpts s agv
  handle_state-HasOpts s agv is_offline = untrack-HasOpts s agv
  handle_state-HasOpts s agv is_broken = untrack-HasOpts s agv
  handle_state-HasOpts s agv is_other = refl

  pub handle_connection-HasOpts :
      (s : Session W U H) (agv : Agv) (state : ConnectionState)
      → HasOpts s (handle_connection net s agv state)
  unfolding handle_connection
  handle_connection-HasOpts s agv state =
      if_cases {A = Done E W U H} (HasOpts s) s.opts.auto_track_from_connection
        (λ _. handle_state-HasOpts s agv state) (λ _. refl)
