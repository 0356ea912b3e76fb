-- ===== src/Session/Balance.antt =====
-- internal/session/fleet.go: every method keeps the books. A handle is live exactly as often as the
-- session holds it, next to the handles that others hold.
pub mod Methods
use navlink.Base.{
  ℕ, ◌+◌, ◌-◌, ◌≡◌, refl, ap, Bool, true, false, Option, none, some, List, [], ◌∷◌, arith,
  Comparable, if_cases,
}
use navlink.Base.Result.{Result, ok, err}
use navlink.Base.Text.{GoString, string_eq}
use navlink.Base.Dict.{lookup}
use navlink.Errors.{GoError}
use navlink.Session.Count.{one, count}
use navlink.Session.Broker.{Net, Keeps}
use navlink.Session.Tracked.{Keyed, held, held-insert, held-delete, insert-Keyed, delete-Keyed}
use navlink.Session.Releases.{release-live, release_all-live, Made, subscribe_all-Made}
use navlink.Session.{
  Agv, key, TrackedAgv, Session, channels, subscribe_all, start_with, start, commit, track_with,
  track_at, track_notify, untrack_at, untrack_notify,
}

-- `started` says whether the connection subscription is held.
abbrev pub Agrees : {U : Type 0} → Bool → Option U → Type 0
Agrees b none = b ≡ false
Agrees b (some u) = b ≡ true

module _ {U : Type 0} ⦃e : Comparable U⦄ where
  abbrev pub held_conn : U → Option U → ℕ
  held_conn v none = 0
  held_conn v (some u) = one u v

  -- The handles that the session owns.
  abbrev pub owned : {W H : Type 0} → U → Session W U H → ℕ
  owned v s = held_conn v s.conn_unsub + held v s.tracked

module _ {E W U : Type 0} ⦃e : Comparable U⦄ {net : Net E W U} (keeps : Keeps net) where
  open keeps use {live}

  -- What a call of Subscribe leaves.
  abbrev pub Subscribed : W → W × Result (GoError E) U → Type 0
  Subscribed w (w', ok u) = (v : U) → live w' v ≡ live w v + one u v
  Subscribed w (w', err _) = (v : U) → live w' v ≡ live w v

  pub subscribe-Subscribed : (w : W) (f : GoString) → Subscribed w (net.subscribe w f)
  subscribe-Subscribed w f = go (net.subscribe w f) refl
    where
      go : (r : W × Result (GoError E) U) → net.subscribe w f ≡ r → Subscribed w r
      go (w', ok u) h = λ v. rw h at (keeps.subscribe-ok w f u (rw h) v)
      go (w', err x) h = λ v. rw h at (keeps.subscribe-err w f x (rw h) v)

module _ {E W U H : Type 0} ⦃e : Comparable U⦄ {net : Net E W U} (keeps : Keeps net)
    (other : U → ℕ) where
  open keeps use {live}

  pub record Balanced (s : Session W U H) : Type 0 where
    pub books : (v : U) → live s.world v ≡ other v + owned v s
    pub keyed : Keyed s.tracked
    pub connected : Agrees s.started s.conn_unsub

  -- A session before Start owns no connection handle.
  unstarted :
      (s : Session W U H) → Agrees s.started s.conn_unsub → s.started ≡ false → s.conn_unsub ≡ none
  unstarted s h n = ground arith

  start_with-Balanced :
      (s : Session W U H) (r : W × Result (GoError E) U)
      → s.started ≡ false
      → Subscribed keeps s.world r
      → Balanced s
      → Balanced (start_with net s r).0
  unfolding start_with
  start_with-Balanced s (w, ok u) n made b = record {
    books = λ v. omega (arith, made v, b.books v, ap (held_conn v) (unstarted s b.connected n));
    keyed = b.keyed;
    connected = refl;
  }
  start_with-Balanced s (w, err x) n made b = record {
    books = λ v. omega (arith, made v, b.books v);
    keyed = b.keyed;
    connected = b.connected;
  }

  pub start-Balanced : (s : Session W U H) → Balanced s → Balanced (start net s).0
  unfolding start
  start-Balanced s b =
      if_cases {A = Session W U H × Option (GoError E)} (λ r. Balanced r.0) s.started (λ _. b)
        (λ n. start_with-Balanced s _ n (subscribe-Subscribed keeps s.world _) b)

  commit-Balanced :
      (s : Session W U H) (agv : Agv) (notify : Bool) (us : List U) (found : Option (TrackedAgv U))
      → lookup (key agv) s.tracked ≡ found
      → ((v : U) → live s.world v ≡ other v + owned v s + count v us)
      → Keyed s.tracked
      → Agrees s.started s.conn_unsub
      → Balanced (commit net s agv notify us found).0
  unfolding commit
  commit-Balanced s agv notify us (some t) h books keyed connected = record {
    books = λ v. omega (arith, release-live keeps s.world us v, books v);
    keyed = keyed;
    connected = connected;
  }
  commit-Balanced s agv notify us none h books keyed connected = record {
    books = λ v.
        omega
          (arith, held-insert v (key agv) (record { agv = agv; unsubs = us }) s.tracked h, books v);
    keyed = insert-Keyed (record { agv = agv; unsubs = us }) s.tracked h keyed;
    connected = connected;
  }

  track_with-Balanced :
      (s : Session W U H) (agv : Agv) (notify : Bool) (r : W × Result (GoError E) (List U))
      → ((v : U) → Made keeps v (live s.world v) [] r)
      → Balanced s
      → Balanced (track_with net s agv notify r).0
  unfolding track_with
  track_with-Balanced s agv notify (w, err x) made b = record {
    books = λ v. omega (arith, made v, b.books v);
    keyed = b.keyed;
    connected = b.connected;
  }
  track_with-Balanced s agv notify (w, ok us) made b =
      commit-Balanced (record s { world = w }) agv notify us _ refl
        (λ v. omega (arith, made v, b.books v)) b.keyed b.connected

  pub track_notify-Balanced :
      (s : Session W U H) (agv : Agv) (notify : Bool)
      → Balanced s
      → Balanced (track_notify net s agv notify).0
  unfolding track_notify
  track_notify-Balanced s agv notify b = go (lookup (key agv) s.tracked)
    where
      go : (found : Option (TrackedAgv U)) → Balanced (track_at net s agv notify found).0
      go (some t) = b
      go none =
          track_with-Balanced s agv notify _
            (subscribe_all-Made keeps s.topics agv s.world [] (channels s.opts)) b

  untrack_at-Balanced :
      (s : Session W U H) (agv : Agv) (notify : Bool) (found : Option (TrackedAgv U))
      → lookup (key agv) s.tracked ≡ found
      → Balanced s
      → Balanced (untrack_at net s agv notify found).0
  unfolding untrack_at
  untrack_at-Balanced s agv notify none h b = b
  untrack_at-Balanced s agv notify (some t) h b = record {
    books = λ v. omega (
      arith,
      release-live keeps s.world t.unsubs v,
      b.books v,
      held-delete v (key agv) t s.tracked b.keyed h,
    );
    keyed = delete-Keyed (key agv) s.tracked b.keyed;
    connected = b.connected;
  }

  pub untrack_notify-Balanced :
      (s : Session W U H) (agv : Agv) (notify : Bool)
      → Balanced s
      → Balanced (untrack_notify net s agv notify).0
  unfolding untrack_notify
  untrack_notify-Balanced s agv notify b = untrack_at-Balanced s agv notify _ refl b
