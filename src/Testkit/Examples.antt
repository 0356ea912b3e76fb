-- ===== src/Testkit/Examples.antt =====
-- testkit/fake_broker.go and internal/session/fleet.go: tests, on an in-process broker.
use navlink.Base.{
  ℕ, ◌↔◌, arith, suc, ◌≡◌, refl, true, false, none, some, List, [], ◌∷◌, nat_eq, Option,
}
use navlink.Base.Text.{GoString, text, str_beq, split}
use navlink.Base.Dict.{lookup, insert}
use navlink.Errors.Kinds.{ErrorKind}
use navlink.Errors.Sample.{kind_gerr}
use navlink.Topic.{Resolver, wildcard}
use navlink.Topic.Channels
use navlink.Testkit.Wildcards.{IsVehicleTopic, match_filter-wildcard}
use navlink.Config.{default_fleet_options}
use navlink.Session.{Agv, Session, new_session, start, track, clear, restore, stop}
use navlink.Session.Recovery.{IsForgotten, restore_after_failure}
use navlink.Session.History.{Call, starts, tracks, restores, run, run-stop-live}
use navlink.Testkit.{FakeBroker, Sub, new_fake_broker, drop_subscriptions}
use navlink.Testkit
use navlink.Testkit.Callbacks.{
  Reporting, set_on_reconnect, set_on_connection_lost, connected, simulate_disconnect,
  simulate_reconnect,
}
use navlink.Testkit.Contract.{Fresh, present, broker_net, broker_net-Keeps}
use navlink.Testkit.Fleet.{fleet_leaves_broker}
use navlink.Errors.{GoError, message, is_kind, is_canceled, is_deadline_exceeded}
use navlink.Publish.{classify_publish, uncertain, was_attempted}
use navlink.Mqtt.Wait.{past_deadline}
use navlink.Agv.Messages.{PublishOptions}
use navlink.Testkit.Filters.{match_filter, match_parts}

abbrev Broker : Type 0
Broker = FakeBroker ErrorKind ℕ

abbrev running : Broker
unfolding new_fake_broker Testkit.start
running = Testkit.start new_fake_broker

-- A broker that has no subscription yet.
running-Fresh : Fresh running
unfolding new_fake_broker Testkit.start lookup
running-Fresh id lt = refl

abbrev uagv : Resolver
uagv = record { interface = text "uagv"; version = text "v2" }

abbrev agv_1 : Agv
agv_1 = record { manufacturer = text "ACME"; serial_number = text "AGV-1" }

abbrev calls : List (Call ℕ)
calls = starts ∷ tracks agv_1 ∷ restores ∷ []

match_filter_test :
    (match_filter (text "uagv/v2/+/+/state") (text "uagv/v2/ACME/AGV-1/state") ≡ true)
    × (match_filter (text "uagv/v2/+/+/state") (text "uagv/v2/ACME/state") ≡ false)
unfolding match_filter match_parts split str_beq
match_filter_test = (refl, refl)

-- The session of a client that has started and tracks one vehicle.
abbrev session : Session ((b : Broker) × Fresh b) ℕ ℕ
session = run (broker_net 0) (new_session uagv default_fleet_options (running, running-Fresh)) calls

fleet_leaves_broker_example :
    let s = (stop (broker_net 0) session).0 in
    (present (lookup 1 s.world.0.subs) ≡ present (lookup 1 running.subs))
    × (s.tracked ≡ [])
    × (s.started ≡ false)
fleet_leaves_broker_example =
    fleet_leaves_broker 0 uagv default_fleet_options running running-Fresh calls 1

-- The same session when its broker has stopped.
abbrev stopped : Session ((b : Broker) × Fresh b) ℕ ℕ
stopped = record session { world = (record running { running = false }, running-Fresh) }

restore_fails : (start (broker_net 0) (clear (broker_net 0) stopped)).1 ≡ some Testkit.not_running
unfolding start clear run restore track lookup insert new_session Testkit.subscribe running
    Testkit.unsubscribe
restore_fails = refl

stopped_started : stopped.started ≡ true
unfolding start clear run restore track lookup insert new_session Testkit.subscribe running
    Testkit.unsubscribe
stopped_started = refl

restore_after_failure_example :
    let s = (restore (broker_net 0) stopped).0 in
    ((restore (broker_net 0) stopped).1 ≡ some Testkit.not_running)
    × IsForgotten (broker_net {E = ErrorKind} 0) s
    × (restore (broker_net 0) s ≡ (s, none))
restore_after_failure_example =
    restore_after_failure (broker_net 0) stopped Testkit.not_running stopped_started restore_fails

run-stop-live_example :
    let s = (stop (broker_net {E = ErrorKind} 0) session).0 in
    (present (lookup 1 s.world.0.subs) ≡ present (lookup 1 running.subs))
    × (s.tracked ≡ [])
    × (s.started ≡ false)
run-stop-live_example =
    run-stop-live (broker_net-Keeps 0) uagv default_fleet_options (running, running-Fresh) calls 1

-- A handler that counts its calls.
abbrev count : ℕ → ℕ → GoString → List ℕ → ℕ × Option (GoError ErrorKind)
count _ x topic payload = (suc x, none)

abbrev opts : PublishOptions
opts = record { qos = 1; retain = false }

-- The comment on FailNextPublish promises NotStarted; a plain error is Uncertain.
fail_next_publish_test :
    let failing = Testkit.fail_next_publish running (some (message (text "boom"))) in
    (Testkit.publish count failing past_deadline false 0 (text "a") [] opts
      ≡ (record running { fail = none; hang = false }, 0, some (message (text "boom"))))
    × (classify_publish {E = ErrorKind} (some (message (text "boom"))) ≡ uncertain)
unfolding new_fake_broker Testkit.start Testkit.fail_next_publish Testkit.publish
    Testkit.publish_mode classify_publish is_kind is_canceled is_deadline_exceeded was_attempted
fail_next_publish_test = (refl, refl)

-- A broker with one subscription, and what reaches it.
abbrev subscribed : FakeBroker ErrorKind ℕ
subscribed = (Testkit.subscribe running (text "a/+") 0).0

broker_test :
    (Testkit.inject count subscribed 0 (text "a/b") [] ≡ (1, none))
    × (Testkit.filters subscribed ≡ text "a/+" ∷ [])
    × (Testkit.filters (Testkit.drop_subscriptions subscribed) ≡ [])
    × ((Testkit.clear_published subscribed).published ≡ [])
unfolding Testkit.inject Testkit.filters Testkit.drop_subscriptions Testkit.clear_published
    Testkit.deliver Testkit.subscribe Testkit.start new_fake_broker insert match_filter match_parts
    split str_beq
broker_test = (refl, refl, refl, refl)

match_filter-wildcard_example :
    (match_filter (wildcard uagv Channels.state) (text "uagv/v2/ACME/AGV-1/state") ≡ true)
    ↔ IsVehicleTopic uagv Channels.state (text "uagv/v2/ACME/AGV-1/state")
match_filter-wildcard_example =
    match_filter-wildcard uagv Channels.state (text "uagv/v2/ACME/AGV-1/state")
      (ground arith, λ e. cc, λ e. cc) (ground arith, λ e. cc, λ e. cc)
      (ground arith, λ e. cc, λ e. cc)

-- A reconnect drops the subscriptions and calls the client back.
abbrev reporting : Reporting ErrorKind ℕ ℕ ℕ
reporting = record { broker = running; on_reconnect = none; on_lost = none }

reporting_test :
    (simulate_reconnect (set_on_reconnect reporting (some 3))
      ≡ (record reporting { on_reconnect = some 3 }, some 3))
    × (simulate_disconnect (set_on_connection_lost reporting (some 4)) ≡ some 4)
    × (connected reporting ≡ true)
unfolding simulate_reconnect simulate_disconnect set_on_reconnect set_on_connection_lost connected
    drop_subscriptions new_fake_broker Testkit.start
reporting_test = (refl, refl, refl)
