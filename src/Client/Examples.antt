-- ===== src/Client/Examples.antt =====
-- client.go: tests, over a transport that accepts some number of subscriptions and then refuses.
use navlink.Base.{ℕ, suc, zero, ◌≡◌, refl, true, false, none, some, List, [], ◌∷◌}
use navlink.Base.Lists.{length}
use navlink.Base.Result.{Result, ok, err}
use navlink.Base.Text.{GoString, text, str_beq, is_blank}
use navlink.Errors.{GoError, raise, canceled}
use navlink.Base.Dict.{lookup, insert}
use navlink.Errors.Kinds.{ErrorKind, subscription_failed, client_not_started}
use navlink.Errors.Sample.{kind_gerr}
use navlink.Topic.{Resolver, build, wildcard}
use navlink.Config.{Config, default_fleet_options, validate, restore_on_reconnect}
use navlink.Config.Examples.{minimal}
use navlink.Session.{Session, new_session, release, drop, on_agv_online, on_agv_offline}
use navlink.Session
use navlink.Client.{track_agv, untrack_agv, handle_reconnect}
use navlink.Client.{
  Transport, Client, subscription_filter, wanted_channels, wanted_filters, subscribe_filters,
  subscribe_locked, subscribed, start,
}
use navlink.Client.Callbacks.{
  Callbacks, transport_up, transport_down, subscriptions_restored, set_transport_up,
  set_transport_down, set_subscriptions_restored, emit_transport_down, start_calls, reconnect_calls,
  restore_fleet_now, on_topic, connected, hook_online, hook_offline,
}
use navlink.Client.Setup.{Settings, mqtt_config, sets_on_reconnect, made_client, new_client}
use navlink.Client.Setup.Accepted.{accepted-check_config}
use navlink.Mqtt.Paho.{check_config}
use navlink.Client.Retry.{at_world, start-retry}

-- What is subscribed, and how many more may be.
abbrev Wire : Type 0
Wire = ℕ × List GoString

abbrev subscribe_wire : ℕ → List GoString → GoString → Wire × Result (GoError ErrorKind) ℕ
subscribe_wire zero fs f = ((zero, fs), err (raise subscription_failed))
subscribe_wire (suc n) fs f = ((n, f ∷ fs), ok n)

abbrev wire : Transport ErrorKind Wire ℕ
wire = record {
  start = λ w. (w, none);
  stop = λ w. ((5, []), none);
  net = record { subscribe = λ w f. subscribe_wire w.0 w.1 f; unsubscribe = λ w u. (w, none) };
}

abbrev uagv : Resolver
uagv = record { interface = text "uagv"; version = text "v2" }

abbrev fleet : Wire → Session Wire ℕ ℕ
fleet w = new_session uagv default_fleet_options w

-- A client with a fleet that wants factsheets too; one subscription is accepted.
abbrev client : Client Wire ℕ ℕ
client = record {
  manufacturer = [];
  serial_number = [];
  topics = uagv;
  fleet = some (fleet (1, []));
  started = false;
  unsubs = [];
  want_state = false;
  want_conn = false;
  want_viz = false;
  want_fs = true;
  filters = [];
  world = (1, []);
}

-- The client with room for both of its subscriptions.
abbrev roomy : Client Wire ℕ ℕ
roomy = record client { world = (5, []) }

start_succeeds : ((start wire roomy).1 ≡ none) × (length (start wire roomy).0.unsubs ≡ 1)
unfolding start subscribe_locked subscribe_filters wanted_filters wanted_channels Session.start
    new_session
start_succeeds = (refl, refl)

-- The session after the Start of the client.
abbrev begun : Session Wire ℕ ℕ
begun = record (fleet (0, text "uagv/v2/+/+/connection" ∷ [])) {
  started = true;
  conn_unsub = some 0;
}

session_begins : Session.start wire.net (record (fleet (1, [])) { world = (1, []) }) ≡ (begun, none)
unfolding Session.start new_session wildcard
session_begins = refl

start_fails : (start wire client).1 ≡ some (raise subscription_failed)
unfolding start subscribe_locked subscribe_filters wanted_filters wanted_channels Session.start
    new_session
start_fails = refl

start-retry_example :
    let c = (start wire client).0 in
    (c.started ≡ false)
    × (start wire c
        ≡ subscribed wire (
            subscribe_filters wire
              (at_world wire c begun (5, []))
              (wanted_filters (at_world wire c begun (5, [])))))
unfolding start subscribe_locked subscribe_filters wanted_filters wanted_channels Session.start
    new_session
start-retry_example =
    start-retry wire client (fleet (1, [])) begun (1, []) (5, []) (raise subscription_failed) refl
      refl refl session_begins refl start_fails refl

-- After the retry only the factsheet filter is subscribed.
retry_subscribes :
    (start wire (start wire client).0).0.world ≡ (4, text "uagv/v2/+/+/factsheet" ∷ [])
unfolding start subscribe_locked subscribe_filters wanted_filters wanted_channels
    subscription_filter Session.start new_session str_beq build
retry_subscribes = refl

-- A client that is started, with a fleet and room for more subscriptions.
abbrev running : Client Wire ℕ ℕ
running = record client { started = true; world = (9, []); fleet = some (fleet (9, [])) }

fleet_test :
    let c =
      (track_agv wire running (record { manufacturer = text "M"; serial_number = text "S" })).0 in
    (c.world ≡ (8, text "uagv/v2/M/S/state" ∷ []))
    × ((untrack_agv wire c (record { manufacturer = text "M"; serial_number = text "S" })).1 ≡ none)
    × ((handle_reconnect wire running).0.world.1
        ≡ text "uagv/v2/+/+/factsheet" ∷ text "uagv/v2/+/+/connection" ∷ [])
unfolding track_agv untrack_agv handle_reconnect subscribe_locked subscribe_filters wanted_filters
    wanted_channels subscription_filter Session.start Session.track Session.untrack Session.restore
    new_session str_beq build wildcard lookup insert
fleet_test = (refl, refl, refl)

abbrev told : Callbacks
told = record {
  on_transport_up = true;
  on_transport_down = false;
  on_subscriptions_restored = true;
}

-- A failed Start calls nothing; a reconnect of a started client tells that all is subscribed again.
calls_test :
    (start_calls wire told client ≡ [])
    × (reconnect_calls wire told running ≡ subscriptions_restored none ∷ transport_up ∷ [])
    × (emit_transport_down {E = ErrorKind} told canceled ≡ [])
    × (emit_transport_down {E = ErrorKind} (set_transport_down told true) canceled
        ≡ transport_down canceled ∷ [])
unfolding start_calls reconnect_calls emit_transport_down set_transport_down start handle_reconnect
    subscribe_locked subscribe_filters wanted_filters wanted_channels Session.start Session.restore
    new_session lookup
calls_test = (refl, refl, refl, refl)

nothing_set : set_subscriptions_restored (set_transport_up told false) false ≡ record {
  on_transport_up = false;
  on_transport_down = false;
  on_subscriptions_restored = false;
}
unfolding set_subscriptions_restored set_transport_up
nothing_set = refl

restore_test :
    ((restore_fleet_now wire client).1 ≡ some (raise client_not_started))
    × ((restore_fleet_now wire running).1 ≡ none)
    × (connected none running ≡ true)
unfolding restore_fleet_now connected Session.restore new_session lookup
restore_test = (refl, refl, refl)

-- New of a minimal configuration, which needs a broker unless a transport is given.
new_test :
    (new_client {E = ErrorKind} {W = Wire} {U = ℕ} {H = ℕ} minimal (1, [])
      ≡ ok (made_client minimal (1, [])))
    × (sets_on_reconnect minimal true ≡ true)
unfolding new_client validate is_blank sets_on_reconnect restore_on_reconnect
new_test = (refl, refl)

abbrev settings : Settings ℕ
settings = record {
  username = [];
  password = [];
  keep_alive = 0;
  connect_timeout = 0;
  clean_session = true;
  auto_reconnect = true;
  tls = none;
  inbound_queue_size = 0;
}

abbrev over_mqtt : Config
over_mqtt = record minimal { has_transport = false; broker = text "b"; client_id = text "c" }

accepted-check_config_example :
    check_config {E = ErrorKind} (mqtt_config {H = ℕ} {L = ℕ} over_mqtt settings) ≡ none
unfolding validate is_blank
accepted-check_config_example = accepted-check_config ErrorKind ℕ ℕ over_mqtt settings refl refl

keep_alive_test : (mqtt_config {H = ℕ} {L = ℕ} minimal settings).keep_alive ≡ 30_000_000_000
unfolding mqtt_config
keep_alive_test = refl

made_test : (made_client {W = Wire} {U = ℕ} {H = ℕ} minimal (1, [])).started ≡ false
unfolding made_client
made_test = refl

on_topic_test : (on_topic running (text "app/#")).filters ≡ text "app/#" ∷ []
unfolding on_topic
on_topic_test = refl

-- A hook goes to the session; a client without one ignores it.
hook_test :
    ((hook_offline (hook_online running (some 4)) none).fleet
      ≡ some (record (fleet (9, [])) { on_online = 4 ∷ [] }))
    × (hook_online (record running { fleet = none }) (some 4) ≡ record running { fleet = none })
unfolding hook_online hook_offline on_agv_online on_agv_offline new_session
hook_test = (refl, refl)
