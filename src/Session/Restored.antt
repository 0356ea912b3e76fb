-- ===== src/Session/Restored.antt =====
-- internal/session/fleet.go Restore: what is subscribed again, on a transport that has lost every
-- subscription.
use navlink.Base.{
  ◌≡◌, refl, sym, ap, ◌∙◌, subst, inl, true, false, not, ◌&&◌, Option, none, some, List, [], ◌∷◌,
  ◌++◌, append_assoc, append-nil, if_cases,
}
use navlink.Base.Result.{Result, ok, err}
use navlink.Base.Text.{GoString, string_eq}
use navlink.Base.Dict.{lookup}
use navlink.Errors.{GoError}
use navlink.Topic.{wildcard}
use navlink.Topic.Channels.{Channel}
use navlink.Topic.Channels
use navlink.Session.{
  Session, Agv, TrackedAgv, key, channels, tracked_agvs, is_empty, release_all, subscribe_all,
  start_with, start, commit, track_with, track_at, track_notify, drop_connection_at,
  drop_connection, retrack_next, clear, restore,
}
use navlink.Session.Broker.{Net}
use navlink.Session.Tracked.{Keyed}
use navlink.Session.Listens.{
  IsOk, Listens, vehicle_filters, fleet_filters, AllNew, Keyed-AllNew, release_all-empty,
  subscribe_all-hears,
}

module _ {E W U H : Type 0} (net : Net E W U) (up : Listens net) where
  open up use {hears}

  -- A call without an error: the transport hears `fs`, the session is started and still has its
  -- topics and options, and none of `agvs` has an entry.
  record Restoring (s : Session W U H) (fs : List GoString) (agvs : List Agv)
      (r : Session W U H × Option (GoError E)) : Type 0 where
    fine : r.1 ≡ none
    heard : hears r.0.world fs
    started : r.0.started ≡ true
    topics : r.0.topics ≡ s.topics
    opts : r.0.opts ≡ s.opts
    new : AllNew agvs r.0.tracked

  track_at-Restoring :
      (s t : Session W U H) (fs : List GoString) (agv : Agv) (agvs : List Agv)
      → Restoring s fs (agv ∷ agvs) (t, none)
      → Restoring s (fs ++ vehicle_filters s.topics s.opts agv) agvs (track_at net t agv false none)
  unfolding track_at track_with commit
  track_at-Restoring s t fs agv agvs h =
      go (subscribe_all net t.topics agv t.world [] (channels t.opts))
        (subscribe_all-hears net up t.topics agv (channels t.opts) t.world [] fs h.heard)
    where
      commits :
          (w : W) (us : List U) (x : Option (TrackedAgv U))
          → x ≡ none
          → hears w (fs ++ vehicle_filters t.topics t.opts agv)
          → Restoring s
              (fs ++ vehicle_filters s.topics s.opts agv)
              agvs
              (commit net (record t { world = w }) agv false us x)
      commits w us (some x) absent heard = absurd (cc absent)
      commits w us none absent heard = record {
        fine = refl;
        heard =
            subst (λ topics. hears w (fs ++ vehicle_filters topics s.opts agv)) h.topics
              (subst (λ opts. hears w (fs ++ vehicle_filters t.topics opts agv)) h.opts heard);
        started = h.started;
        topics = h.topics;
        opts = h.opts;
        new = h.new.1 us;
      }

      go :
          (r : W × Result (GoError E) (List U))
          → IsOk r.1 × hears r.0 (fs ++ vehicle_filters t.topics t.opts agv)
          → Restoring s
              (fs ++ vehicle_filters s.topics s.opts agv)
              agvs
              (track_with net t agv false r)
      go (w, err e) a = absurd a.0
      go (w, ok us) a = commits w us (lookup (key agv) t.tracked) h.new.0 a.1

  track_notify-Restoring :
      (s t : Session W U H) (fs : List GoString) (agv : Agv) (agvs : List Agv)
      → Restoring s fs (agv ∷ agvs) (t, none)
      → Restoring s (fs ++ vehicle_filters s.topics s.opts agv) agvs (track_notify net t agv false)
  unfolding track_notify
  track_notify-Restoring s t fs agv agvs h =
      subst
        (λ x.
          Restoring s (fs ++ vehicle_filters s.topics s.opts agv) agvs (track_at net t agv false x))
        (sym h.new.0) (track_at-Restoring s t fs agv agvs h)

  retrack_next-Restoring :
      (s : Session W U H) (agvs : List Agv) (fs : List GoString)
      (r : Session W U H × Option (GoError E))
      → Restoring s fs agvs r
      → Restoring s (fs ++ fleet_filters s.topics s.opts agvs) [] (retrack_next net agvs r)
  unfolding retrack_next
  retrack_next-Restoring s agvs fs (t, some e) h = absurd (cc h.fine)
  retrack_next-Restoring s [] fs (t, none) h =
      subst (λ l. Restoring s l [] (t, none)) (sym (append-nil fs)) h
  retrack_next-Restoring s (agv ∷ agvs) fs (t, none) h =
      subst (λ l. Restoring s l [] (retrack_next net agvs (track_notify net t agv false)))
        (append_assoc fs (vehicle_filters s.topics s.opts agv) _)
        (retrack_next-Restoring s agvs (fs ++ vehicle_filters s.topics s.opts agv)
          (track_notify net t agv false) (track_notify-Restoring s t fs agv agvs h))

  -- What Restore finds after it has given everything up.
  record Cleared (s t : Session W U H) : Type 0 where
    heard : hears t.world []
    started : t.started ≡ false
    topics : t.topics ≡ s.topics
    opts : t.opts ≡ s.opts
    tracked : t.tracked ≡ []

  clear-Cleared : (s : Session W U H) → hears s.world [] → Cleared s (clear net s)
  unfolding clear drop_connection drop_connection_at
  clear-Cleared s h = go s.conn_unsub
    where
      gone : Session W U H
      gone = record s { world = release_all net s.world s.tracked; tracked = [] }

      empty : hears gone.world []
      empty = release_all-empty net up s.tracked s.world h

      go : (u : Option U) → Cleared s (drop_connection_at net gone u).0
      go none = record { heard = empty; started = refl; topics = refl; opts = refl; tracked = refl }
      go (some u) = record {
        heard = up.unsubscribe-empty gone.world u empty;
        started = refl;
        topics = refl;
        opts = refl;
        tracked = refl;
      }

  start_with-Restoring :
      (s t : Session W U H) (agvs : List Agv) (r : W × Result (GoError E) U)
      → Cleared s t
      → AllNew {U = U} agvs []
      → IsOk r.1 × hears r.0 (wildcard s.topics Channels.connection ∷ [])
      → Restoring s (wildcard s.topics Channels.connection ∷ []) agvs (start_with net t r)
  unfolding start_with
  start_with-Restoring s t agvs (w, err e) c new a = absurd a.0
  start_with-Restoring s t agvs (w, ok u) c new a = record {
    fine = refl;
    heard = a.1;
    started = refl;
    topics = c.topics;
    opts = c.opts;
    new = subst (AllNew agvs) (sym c.tracked) new;
  }

  start-Restoring :
      (s t : Session W U H) (agvs : List Agv)
      → Cleared s t
      → AllNew {U = U} agvs []
      → Restoring s (wildcard s.topics Channels.connection ∷ []) agvs (start net t)
  unfolding start
  start-Restoring s t agvs c new =
      if_cases {A = Session W U H × Option (GoError E)}
        (Restoring s (wildcard s.topics Channels.connection ∷ []) agvs) t.started
        (λ on. absurd (cc (on, c.started)))
        (λ _. start_with-Restoring s t agvs _ c new (
          subst
            (λ topics.
              let r = net.subscribe t.world (wildcard t.topics Channels.connection) in
              IsOk r.1 × hears r.0 (wildcard topics Channels.connection ∷ []))
            c.topics
            (up.subscribe-hears t.world (wildcard t.topics Channels.connection) [] c.heard)))

  -- A session that is restored: there is no error, it is started, and the transport hears `fs`.
  pub record Restored (s : Session W U H) (fs : List GoString)
      (r : Session W U H × Option (GoError E)) : Type 0 where
    pub fine : r.1 ≡ none
    pub heard : hears r.0.world fs
    pub started : r.0.started ≡ true

  -- The Restore of a started session, on a transport that is up and hears nothing, subscribes the
  -- connection filter and then the filters of every tracked vehicle, and nothing else.
  pub restore-Restored :
      (s : Session W U H)
      → s.started ≡ true
      → Keyed s.tracked
      → hears s.world []
      → Restored s
          (wildcard s.topics Channels.connection ∷ fleet_filters s.topics s.opts (tracked_agvs s))
          (restore net s)
  unfolding restore lookup
  restore-Restored s on keyed empty =
      if_cases {A = Session W U H × Option (GoError E)}
        (Restored s
          (wildcard s.topics Channels.connection ∷ fleet_filters s.topics s.opts (tracked_agvs s)))
        (not s.started && is_empty s.tracked)
        (λ idle. absurd (cc (sym idle ∙ ap (λ b. not b && is_empty s.tracked) on)))
        (λ _.
          let h = retrack_next-Restoring s (tracked_agvs s) _ (start net (clear net s)) (
            start-Restoring s (clear net s) (tracked_agvs s) (clear-Cleared s empty)
              (Keyed-AllNew s.tracked [] keyed (λ j. inl refl))) in
          record { fine = h.fine; heard = h.heard; started = h.started })
