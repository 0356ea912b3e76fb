-- ===== src/Client/Whole/Opted.antt =====
-- client.go: whether a client is started, and the options of its session, over its calls.
use navlink.Base.{◌≡◌, ◌≢◌, refl, sym, ap, [], ◌∙◌, true, Option, none, some, if_cases}
use navlink.Errors.{Gerr, GoError}
use navlink.Session.{Session, Agv, track, untrack}
use navlink.Session.Opts.{
  HasOpts, start-HasOpts, stop-HasOpts, track-HasOpts, untrack-HasOpts, restore-HasOpts,
}
use navlink.Client.{
  Transport, Client, wanted_filters, start_fleet, subscribe_after, subscribe_locked, subscribed,
  transport_up, start, stop_fleet, on_fleet, track_agv, untrack_agv, restore_fleet, resubscribe,
  handle_reconnect,
}
use navlink.Client.AutoTrack.{opted}
use navlink.Client.Lifecycle.{subscribe_filters-Subscribed}

module _ {E W U H : Type 0} where
  -- A call leaves both as they were.
  pub record Keeps (c : Client W U H) (r : Client W U H × Option (GoError E)) : Type 0 where
    pub started : r.0.started ≡ c.started
    pub fleet : opted r.0.fleet ≡ opted c.fleet

  -- One after the other.
  then-Keeps :
      (c : Client W U H) (q r : Client W U H × Option (GoError E))
      → Keeps c q
      → Keeps q.0 r
      → Keeps c r
  then-Keeps c q r h k = record { started = k.started ∙ h.started; fleet = k.fleet ∙ h.fleet }

  -- A call of a method of the session that keeps the options.
  fleet-Keeps :
      (c : Client W U H) (s : Session W U H) (r : Session W U H × Option (GoError E))
      → c.fleet ≡ some s
      → r.0.opts ≡ s.opts
      → Keeps c (record c { fleet = some r.0; world = r.0.world }, r.1)
  fleet-Keeps c s r here h = record {
    started = refl;
    fleet = ap (λ o. o.auto_track_from_connection) h ∙ ap (λ f. opted f) (sym here);
  }

  -- Start keeps the options too; an error leaves the client started or not, as it was.
  pub record Begins (c : Client W U H) (r : Client W U H × Option (GoError E)) : Type 0 where
    pub fleet : opted r.0.fleet ≡ opted c.fleet
    pub failed : r.1 ≢ none → r.0.started ≡ c.started
    pub started : r.1 ≡ none → r.0.started ≡ true

module _ {E W U H : Type 0} ⦃g : Gerr E⦄ (transport : Transport E W U) where
  open transport use {net}

  start_fleet-Keeps :
      (c : Client W U H) (fleet : Option (Session W U H))
      → c.fleet ≡ fleet
      → Keeps c (start_fleet transport c fleet)
  unfolding start_fleet
  start_fleet-Keeps c none here = record { started = refl; fleet = refl }
  start_fleet-Keeps c (some s) here = fleet-Keeps c s _ here (start-HasOpts net _)

  pub stop_fleet-Keeps :
      (c : Client W U H) (fleet : Option (Session W U H))
      → c.fleet ≡ fleet
      → Keeps c (stop_fleet transport c fleet)
  unfolding stop_fleet
  stop_fleet-Keeps c none here = record { started = refl; fleet = refl }
  stop_fleet-Keeps c (some s) here = fleet-Keeps c s _ here (stop-HasOpts net _)

  restore_fleet-Keeps :
      (c : Client W U H) (fleet : Option (Session W U H))
      → c.fleet ≡ fleet
      → Keeps c (restore_fleet transport c fleet)
  unfolding restore_fleet
  restore_fleet-Keeps c none here = record { started = refl; fleet = refl }
  restore_fleet-Keeps c (some s) here = fleet-Keeps c s _ here (restore-HasOpts net _)

  on_fleet-Keeps :
      (call : Session W U H → Session W U H × Option (GoError E))
      → ((s : Session W U H) → HasOpts net s (call s))
      → (c : Client W U H) (fleet : Option (Session W U H)) → c.fleet ≡ fleet
      → Keeps c (on_fleet transport call c fleet)
  unfolding on_fleet
  on_fleet-Keeps call opts c none here = record { started = refl; fleet = refl }
  on_fleet-Keeps call opts c (some s) here =
      if_cases {A = Client W U H × Option (GoError E)} (Keeps c) c.started
        (λ _. fleet-Keeps c s _ here (opts _)) (λ _. record { started = refl; fleet = refl })

  pub track_agv-Keeps : (c : Client W U H) (agv : Agv) → Keeps c (track_agv transport c agv)
  unfolding track_agv
  track_agv-Keeps c agv =
      on_fleet-Keeps (λ s. track net s agv) (λ s. track-HasOpts net s agv) c c.fleet refl

  pub untrack_agv-Keeps : (c : Client W U H) (agv : Agv) → Keeps c (untrack_agv transport c agv)
  unfolding untrack_agv
  untrack_agv-Keeps c agv =
      on_fleet-Keeps (λ s. untrack net s agv) (λ s. untrack-HasOpts net s agv) c c.fleet refl

  subscribe_after-Keeps :
      (q : Client W U H × Option (GoError E)) → Keeps q.0 (subscribe_after transport q)
  unfolding subscribe_after
  subscribe_after-Keeps (c, some e) = record { started = refl; fleet = refl }
  subscribe_after-Keeps (c, none) =
      let h = subscribe_filters-Subscribed transport c (wanted_filters c) in
      record { started = h.started; fleet = ap (λ f. opted f) h.fleet }

  subscribe_locked-Keeps : (c : Client W U H) → Keeps c (subscribe_locked transport c)
  unfolding subscribe_locked
  subscribe_locked-Keeps c =
      then-Keeps c (start_fleet transport c c.fleet) _ (start_fleet-Keeps c c.fleet refl)
        (subscribe_after-Keeps _)

  resubscribe-Keeps : (q : Client W U H × Option (GoError E)) → Keeps q.0 (resubscribe transport q)
  unfolding resubscribe
  resubscribe-Keeps (c, some e) = record { started = refl; fleet = refl }
  resubscribe-Keeps (c, none) = subscribe_locked-Keeps c

  pub handle_reconnect-Keeps : (c : Client W U H) → Keeps c (handle_reconnect transport c)
  unfolding handle_reconnect
  handle_reconnect-Keeps c =
      if_cases {A = Client W U H × Option (GoError E)} (Keeps c) c.started
        (λ _.
          let h = restore_fleet-Keeps (record c { unsubs = [] }) c.fleet refl in
          let k = resubscribe-Keeps (restore_fleet transport (record c { unsubs = [] }) c.fleet) in
          record { started = k.started ∙ h.started; fleet = k.fleet ∙ h.fleet })
        (λ _. record { started = refl; fleet = refl })

  transport_up-Begins :
      (c : Client W U H) (up : W × Option (GoError E)) → Begins c (transport_up transport c up)
  unfolding transport_up subscribed
  transport_up-Begins c (w, some e) = record {
    fleet = refl;
    failed = λ _. refl;
    started = λ e. absurd (cc e);
  }
  transport_up-Begins c (w, none) =
      go (subscribe_locked transport (record c { world = w }))
        (subscribe_locked-Keeps (record c { world = w }))
    where
      go :
          (q : Client W U H × Option (GoError E))
          → Keeps (record c { world = w }) q
          → Begins c (subscribed transport q)
      go (d, some e) h = record {
        fleet = h.fleet;
        failed = λ _. h.started;
        started = λ e. absurd (cc e);
      }
      go (d, none) h = record {
        fleet = h.fleet;
        failed = λ n. absurd (n refl);
        started = λ _. refl;
      }

  pub start-Begins : (c : Client W U H) → Begins c (start transport c)
  unfolding start
  start-Begins c =
      if_cases {A = Client W U H × Option (GoError E)} (Begins c) c.started
        (λ _. record { fleet = refl; failed = λ _. refl; started = λ e. absurd (cc e) })
        (λ _. transport_up-Begins c _)
