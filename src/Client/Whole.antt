-- ===== src/Client/Whole.antt =====
-- client.go Start and Stop with the auto-track worker of fleet_autotrack.go and the handles on the
-- event bus. The session is one object: the client and the worker see the same.
pub mod Opted
pub mod Settled
mod Examples
use navlink.Base.{ℕ, Bool, true, false, Option, none, some, List, [], ◌∷◌, if◌then◌else◌}
use mathlib.Core.List.{reverse}
use navlink.Errors.{Gerr, GoError}
use navlink.Session.{Session, Agv, ConnectionState, release, first_error}
use navlink.Inbound.{Envelope}
use navlink.Client.{Transport, Client, start, stop_fleet, track_agv, untrack_agv, handle_reconnect}
use navlink.Client.AutoTrack.{AutoTrack, start_auto, schedule, work, stop_auto}

-- The state of a client. `auto` has the fields of auto-track; its session is that of `client`.
-- `bus` is the state of the event bus, `bus_unsubs` the handles on it, some of them nil.
pub record WholeClient (E W U H V B K : Type 0) : Type 0 where
  pub client : Client W U H
  pub auto : AutoTrack E W U H V
  pub bus : B
  pub bus_unsubs : List (Option K)

-- The session, which works on the transport.
abbrev pub on_world : {W U H : Type 0} → W → Option (Session W U H) → Option (Session W U H)
on_world w none = none
on_world w (some s) = some (record s { world = w })

abbrev pub world_of : {W U H : Type 0} → W → Option (Session W U H) → W
world_of w none = w
world_of w (some s) = s.world

-- What a client does to its handles, its worker and its subscriptions.
pub data Step (V : Type 0) : Type 0 where
  starts reconnects : Step V
  stops : ℕ → Step V
  tracks untracks : Agv → Step V
  schedules : Bool → Envelope V → ConnectionState → Step V
  rounds : Bool → Step V

module _ {E W U H V B K : Type 0} where
  -- The auto-track side of the client, and the client after a step of it.
  pub auto_of : WholeClient E W U H V B K → AutoTrack E W U H V
  auto_of c = record c.auto { fleet = on_world c.client.world c.client.fleet }

  pub put_auto : WholeClient E W U H V B K → AutoTrack E W U H V → WholeClient E W U H V B K
  put_auto c a = record c {
    client = record c.client { fleet = a.fleet; world = world_of c.client.world a.fleet };
    auto = a;
  }

module _ {E B K : Type 0} (unsubscribe : B → K → B × Option (GoError E)) where
  -- The loop over busUnsubs: a nil handle is passed over, the first error is kept.
  pub drop_events : B → List (Option K) → B × Option (GoError E)
  drop_events b [] = (b, none)
  drop_events b (none ∷ us) = drop_events b us
  drop_events b (some u ∷ us) =
      let (b₁, e) = unsubscribe b u in
      let (b₂, later) = drop_events b₁ us in (b₂, first_error e later)

module _ {E W U H V B K : Type 0} ⦃g : Gerr E⦄ (transport : Transport E W U) where
  open transport use {net}

  -- Start, after subscribeLocked: startFleetAutoTrack
  begin_auto :
      WholeClient E W U H V B K
      → Client W U H × Option (GoError E)
      → WholeClient E W U H V B K × Option (GoError E)
  unfolding auto_of put_auto
  begin_auto c (client, some e) = (record c { client = client }, some e)
  begin_auto c (client, none) =
      let up = record c { client = client } in (put_auto up (start_auto (auto_of up)), none)

  -- Start
  start_whole : WholeClient E W U H V B K → WholeClient E W U H V B K × Option (GoError E)
  unfolding begin_auto
  start_whole c = begin_auto c (start transport c.client)

  -- Stop, before fleet.Stop: the worker takes `n` jobs more until it sees that its context is done.
  halt : ℕ → WholeClient E W U H V B K → WholeClient E W U H V B K
  unfolding auto_of put_auto
  halt n c =
      let off = record c {
        client = record c.client { started = false; unsubs = [] };
        bus_unsubs = [];
      } in
      put_auto off (stop_auto net n (auto_of off))

module _ {E W U H V B K : Type 0} ⦃g : Gerr E⦄ (transport : Transport E W U)
    (unsubscribe : B → K → B × Option (GoError E)) where
  open transport use {net}

  -- Stop, of a client that is started
  stop_now : ℕ → WholeClient E W U H V B K → WholeClient E W U H V B K × Option (GoError E)
  unfolding halt drop_events
  stop_now n c =
      let off = halt transport n c in
      let (client, e₁) = stop_fleet transport off.client off.client.fleet in
      let (w, e₂) = release net client.world c.client.unsubs in
      let (bus, e₃) = drop_events unsubscribe c.bus (reverse c.bus_unsubs) in
      let (w', e₄) = transport.stop w in
      (
        record off { client = record client { world = w' }; bus = bus },
        first_error (first_error (first_error e₁ e₂) e₃) e₄,
      )

  -- Stop
  stop_whole : ℕ → WholeClient E W U H V B K → WholeClient E W U H V B K × Option (GoError E)
  unfolding stop_now
  stop_whole n c = if c.client.started then stop_now n c else (c, none)

  -- A call of the client, a message that schedules a job, or a round of the worker.
  step : WholeClient E W U H V B K → Step V → WholeClient E W U H V B K
  unfolding start_whole stop_whole auto_of put_auto
  step c starts = (start_whole transport c).0
  step c (stops n) = (stop_whole n c).0
  step c (tracks agv) = record c { client = (track_agv transport c.client agv).0 }
  step c (untracks agv) = record c { client = (untrack_agv transport c.client agv).0 }
  step c reconnects = record c { client = (handle_reconnect transport c.client).0 }
  step c (schedules picks_done env state) = put_auto c (schedule (auto_of c) picks_done env state)
  step c (rounds picks_done) = put_auto c (work net (auto_of c) picks_done)

  pub run : WholeClient E W U H V B K → List (Step V) → WholeClient E W U H V B K
  unfolding step
  run c [] = c
  run c (e ∷ es) = run (step c e) es
