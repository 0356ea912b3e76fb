-- ===== src/Client/Whole/Settled.antt =====
-- client.go and fleet_autotrack.go: the worker runs while the client is started, and only then.
use navlink.Base.{
  ℕ, ◌≡◌, refl, inl, inr, Bool-cases, sym, ap, ◌∙◌, true, false, ◌&&◌, Option, none, some, List, [],
  ◌∷◌, if_cases,
}
use navlink.Errors.{Gerr, GoError}
use navlink.Session.{Session}
use navlink.Client.{Transport, Client, start, stop_fleet}
use navlink.Client.AutoTrack.{AutoTrack, opted, start_auto}
use navlink.Client.AutoTrack.Kept.{queued, Kept, schedule-Kept, work-Kept, stop_auto-Stopped}
use navlink.Client.Lifecycle.{start-Starts}
use navlink.Client.Whole.{
  WholeClient, on_world, Step, starts, reconnects, stops, tracks, untracks, schedules, rounds,
  auto_of, put_auto, begin_auto, start_whole, halt, stop_now, stop_whole, step, run,
}
use navlink.Client.Whole.Opted.{
  Begins, start-Begins, stop_fleet-Keeps, track_agv-Keeps, untrack_agv-Keeps,
  handle_reconnect-Keeps,
}

on_world-opted :
    {W U H : Type 0}
    → (w : W) (fleet : Option (Session W U H)) → opted (on_world w fleet) ≡ opted fleet
on_world-opted w none = refl
on_world-opted w (some s) = refl

module _ {E W U H V B K : Type 0} where
  -- The worker runs just when the client is started and its session tracks from connections. There is
  -- a queue just then, and the context of a worker that runs is not done.
  pub record Settled (c : WholeClient E W U H V B K) : Type 0 where
    pub working : c.auto.working ≡ (c.client.started && opted c.client.fleet)
    pub jobs : queued c.auto.jobs ≡ c.auto.working
    pub canceled : c.auto.canceled ≡ false

  put_auto-Settled :
      (c : WholeClient E W U H V B K) (a : AutoTrack E W U H V)
      → Kept (auto_of c) a
      → Settled c
      → Settled (put_auto c a)
  unfolding put_auto auto_of
  put_auto-Settled c a k h = record {
    working =
        k.working
        ∙ h.working
        ∙ ap (λ b. c.client.started && b)
            (sym (on_world-opted c.client.world c.client.fleet) ∙ sym k.fleet);
    jobs = k.jobs ∙ h.jobs ∙ sym k.working;
    canceled = k.canceled ∙ h.canceled;
  }

  -- A worker that does not run yet.
  start_auto-Settled :
      (c : WholeClient E W U H V B K)
      → c.client.started ≡ true
      → c.auto.working ≡ false
      → c.auto.canceled ≡ false
      → queued c.auto.jobs ≡ false
      → Settled (put_auto c (start_auto (auto_of c)))
  unfolding put_auto auto_of start_auto
  start_auto-Settled c on idle live empty =
      let same = on_world-opted c.client.world c.client.fleet in
      if_cases {A = AutoTrack E W U H V} (λ a. Settled (put_auto c a)) (opted (auto_of c).fleet)
        (λ yes. record {
          working = sym (ap (λ b. b && opted (auto_of c).fleet) on ∙ yes);
          jobs = refl;
          canceled = refl;
        })
        (λ no. record {
          working = idle ∙ sym (ap (λ b. b && opted (auto_of c).fleet) on ∙ no);
          jobs = empty ∙ sym idle;
          canceled = live;
        })

-- The client without its worker, before fleet.Stop.
record Halted {E W U H V B K : Type 0} (c : WholeClient E W U H V B K) : Type 0 where
  pub started : c.client.started ≡ false
  pub settled : Settled c

client-Settled :
    {E W U H V B K : Type 0}
    → (c : WholeClient E W U H V B K) (client : Client W U H) → client.started ≡ c.client.started
    → opted client.fleet ≡ opted c.client.fleet
    → Settled c
    → Settled (record c { client = client })
client-Settled c client started fleet h = record {
  working =
      h.working
      ∙ sym (ap (λ b. b && opted client.fleet) started ∙ ap (λ b. c.client.started && b) fleet);
  jobs = h.jobs;
  canceled = h.canceled;
}

module _ {E W U H : Type 0} ⦃g : Gerr E⦄ (transport : Transport E W U) where
  start-off : (c : Client W U H) → (start transport c).1 ≡ none → c.started ≡ false
  start-off c fine = elim (Bool-cases c.started) [
    | inl on ↦ absurd (cc (ap (λ r. r.1) ((start-Starts transport c).refused on), fine))
    | inr off ↦ off
  ]

module _ {E W U H V B K : Type 0} ⦃g : Gerr E⦄ (transport : Transport E W U) where
  begin_auto-Settled :
      (c : WholeClient E W U H V B K) (r : Client W U H × Option (GoError E))
      → Begins c.client r
      → (r.1 ≡ none → c.client.started ≡ false)
      → Settled c
      → Settled (begin_auto transport c r).0
  unfolding begin_auto
  begin_auto-Settled c (client, some e) b off h =
      client-Settled c client (b.failed (λ e. absurd (cc e))) b.fleet h
  begin_auto-Settled c (client, none) b off h =
      let idle = h.working ∙ ap (λ b. b && opted c.client.fleet) (off refl) in
      start_auto-Settled (record c { client = client }) (b.started refl) idle h.canceled
        (h.jobs ∙ idle)

  start_whole-Settled :
      (c : WholeClient E W U H V B K) → Settled c → Settled (start_whole transport c).0
  unfolding start_whole
  start_whole-Settled c =
      begin_auto-Settled c (start transport c.client) (start-Begins transport c.client)
        (start-off transport c.client)

  halt-Halted : (n : ℕ) (c : WholeClient E W U H V B K) → Halted (halt transport n c)
  unfolding halt put_auto auto_of
  halt-Halted n c =
      let off = record c {
        client = record c.client { started = false; unsubs = [] };
        bus_unsubs = [];
      } in
      let h = stop_auto-Stopped transport.net n (auto_of off) in
      record {
        started = refl;
        settled = record {
          working = h.working;
          jobs = h.jobs ∙ sym h.working;
          canceled = h.canceled;
        };
      }

module _ {E W U H V B K : Type 0} ⦃g : Gerr E⦄ (transport : Transport E W U)
    (unsubscribe : B → K → B × Option (GoError E)) where
  open transport use {net}

  stop_now-Settled :
      (n : ℕ) (c : WholeClient E W U H V B K) → Settled (stop_now transport unsubscribe n c).0
  unfolding stop_now
  stop_now-Settled n c =
      let h = halt-Halted transport n c in
      let off = halt transport n c in
      let k = stop_fleet-Keeps transport off.client off.client.fleet refl in
      record {
        working =
            (client-Settled off (stop_fleet transport off.client off.client.fleet).0 k.started
              k.fleet h.settled).working;
        jobs = h.settled.jobs;
        canceled = h.settled.canceled;
      }

  step-Settled :
      (c : WholeClient E W U H V B K) (e : Step V)
      → Settled c
      → Settled (step transport unsubscribe c e)
  unfolding step stop_whole
  step-Settled c starts h = start_whole-Settled transport c h
  step-Settled c (stops n) h =
      if_cases {A = WholeClient E W U H V B K × Option (GoError E)} (λ r. Settled r.0)
        c.client.started (λ _. stop_now-Settled n c) (λ _. h)
  step-Settled c (tracks agv) h =
      let k = track_agv-Keeps transport c.client agv in client-Settled c _ k.started k.fleet h
  step-Settled c (untracks agv) h =
      let k = untrack_agv-Keeps transport c.client agv in client-Settled c _ k.started k.fleet h
  step-Settled c reconnects h =
      let k = handle_reconnect-Keeps transport c.client in client-Settled c _ k.started k.fleet h
  step-Settled c (schedules picks_done env state) h =
      put_auto-Settled c _ (schedule-Kept (auto_of c) picks_done env state) h
  step-Settled c (rounds picks_done) h =
      put_auto-Settled c _
        (work-Kept net (auto_of c) picks_done (ap (λ b. b && picks_done) h.canceled)) h

  -- From a settled client on, such as one that was never started, and however calls of Start, Stop,
  -- Track, Untrack, the reconnect handler, scheduled jobs and rounds of the worker interleave, and
  -- whatever errors there are: the worker runs, and has a queue, just when the client is started and
  -- its session tracks from connections, and the context of a worker that runs is not done.
  pub run-Settled :
      (es : List (Step V)) (c : WholeClient E W U H V B K)
      → Settled c
      → Settled (run transport unsubscribe c es)
  unfolding run
  run-Settled [] c h = h
  run-Settled (e ∷ es) c h = run-Settled es (step transport unsubscribe c e) (step-Settled c e h)
