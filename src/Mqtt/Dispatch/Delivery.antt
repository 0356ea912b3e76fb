-- ===== src/Mqtt/Dispatch/Delivery.antt =====
-- internal/mqtt/dispatch.go: what becomes of the messages between the start of the dispatch and a
-- shutdown.
use navlink.Base.{ℕ, ◌≤◌, ◌≡◌, refl, List, [], ◌∷◌, ◌++◌, arith, ltb, if◌then◌else◌}
use navlink.Base.Lists.{length}
use navlink.Base.Text.{string_eq}
use navlink.Base.Dict.{lookup}
use navlink.Mqtt.Dispatch.{Dispatcher, Event, start_dispatch, step, run}
use navlink.Mqtt.Dispatch.Places.{Place, topics, vehicle, waiting_at}
use navlink.Mqtt.Dispatch.Lossless.{
  NoShutdown, NoShutdown-first, NoShutdown-rest, all_joined, all_dispatched, run-joined,
}
use navlink.Mqtt.Dispatch.Lossless.Capacity.{Fits, step-Fits}

module _ {M : Type 0} where
  run-Fits :
      (n : ℕ) (d : Dispatcher M) (es : List (Event M))
      → NoShutdown es
      → Fits n d
      → Fits n (run d es)
  unfolding run
  run-Fits n d [] ok h = h
  run-Fits n d (e ∷ es) ok h =
      run-Fits n (step d e) es (NoShutdown-rest e es ok)
        (step-Fits n d e (NoShutdown-first e es ok) h)

  -- A run from `d` on delivers what it puts into a queue, in order, and does not fill it over `n`.
  pub record Delivers (n : ℕ) (p : Place) (d : Dispatcher M) (es : List (Event M)) : Type 0 where
    pub in_order : all_joined p d es ≡ all_dispatched p d es ++ waiting_at p (run d es)
    pub bounded : length (waiting_at p (run d es)) ≤ n

  -- From the start of the dispatch on, and until a shutdown, whatever messages come in and however the
  -- workers run: of the messages for a vehicle, or for the other topics, that enqueue has queued, the
  -- first are those that the worker has dispatched and the rest are those that wait, in one order, so
  -- none is lost, doubled or overtaken; and at most as many wait as InboundQueueSize says, or 256 if
  -- it is not positive.
  pub start-Delivers :
      (configured : ℕ) (es : List (Event M)) (p : Place)
      → NoShutdown es
      → Delivers (if ltb 0 configured then configured else 256) p (start_dispatch configured) es
  unfolding start_dispatch lookup
  start-Delivers configured es p ok = record {
    in_order = go p (run-joined p (start_dispatch configured) es ok);
    bounded =
        (run-Fits _ (start_dispatch configured) es ok (record { qsize = refl; held = empty })).held
          p;
  }
    where
      empty :
          (p : Place)
          → length (waiting_at p (start_dispatch {M = M} configured))
            ≤ (if ltb 0 configured then configured else 256)
      empty topics = omega arith
      empty (vehicle key) = omega arith

      go :
          (p : Place)
          → waiting_at p (start_dispatch configured) ++ all_joined p (start_dispatch configured) es
            ≡ all_dispatched p (start_dispatch configured) es
              ++ waiting_at p (run (start_dispatch configured) es)
          → all_joined p (start_dispatch configured) es
            ≡ all_dispatched p (start_dispatch configured) es
              ++ waiting_at p (run (start_dispatch configured) es)
      go topics h = h
      go (vehicle key) h = h
