-- ===== src/Testkit/Restart.antt =====
-- testkit/fake_broker.go and client.go: tests of a reconnect on the in-process broker.
use navlink.Base.{nat_eq, ℕ, ◌≡◌, refl, true, false, Option, none, some, [], ◌∷◌, ◌++◌}
use navlink.Base.Text.{text}
use navlink.Base.Dict.{lookup}
use navlink.Errors.{GoError}
use navlink.Errors.Kinds.{ErrorKind}
use navlink.Errors.Sample.{kind_gerr}
use navlink.Config.{default_fleet_options}
use navlink.Session.{Session, Agv, key, new_session}
use navlink.Client.{Transport, Client, wanted_filters, handle_reconnect}
use navlink.Client.Reconnect.{session_filters}
use navlink.Testkit.{FakeBroker, new_fake_broker, drop_subscriptions, filters}
use navlink.Testkit.Contract.{Fresh, broker_net}
use navlink.Testkit.Reconnect.{Broker, simulate_reconnect-handle_reconnect}

abbrev used : FakeBroker ErrorKind ℕ
used = record new_fake_broker {
  running = true;
  next_id = 2;
  subs =
      (1, record { filter = text "uagv/v2/+/+/connection"; handler = 0 })
      ∷ (2, record { filter = text "uagv/v2/ACME/AGV-1/state"; handler = 0 })
      ∷ [];
}

abbrev agv : Agv
agv = record { manufacturer = text "ACME"; serial_number = text "AGV-1" }

nothing-Fresh : Fresh (record used { subs = [] })
unfolding lookup
nothing-Fresh id lt = refl

-- The broker after SimulateReconnect.
abbrev bare : Broker ErrorKind ℕ
bare = (record used { subs = [] }, nothing-Fresh)

abbrev session : Session (Broker ErrorKind ℕ) ℕ ℕ
session =
    record (new_session (record { interface = text "uagv"; version = text "v2" })
      default_fleet_options bare) {
        started = true;
        conn_unsub = some 1;
        tracked = (key agv, record { agv = agv; unsubs = 2 ∷ [] }) ∷ [];
      }

abbrev client : Client (Broker ErrorKind ℕ) ℕ ℕ
client = record {
  manufacturer = [];
  serial_number = [];
  topics = record { interface = text "uagv"; version = text "v2" };
  fleet = some session;
  started = true;
  unsubs = [];
  want_state = false;
  want_conn = false;
  want_viz = false;
  want_fs = true;
  filters = text "app/#" ∷ [];
  world = bare;
}

abbrev keep : Broker ErrorKind ℕ → Broker ErrorKind ℕ × Option (GoError ErrorKind)
keep w = (w, none)

abbrev over_broker : Transport ErrorKind (Broker ErrorKind ℕ) ℕ
over_broker = record { start = keep; stop = keep; net = broker_net 0 }

simulate_reconnect-handle_reconnect_example :
    let r = handle_reconnect over_broker client in
    (r.1 ≡ none) × (filters r.0.world.0 ≡ session_filters client.fleet ++ wanted_filters client)
unfolding drop_subscriptions lookup
simulate_reconnect-handle_reconnect_example =
    simulate_reconnect-handle_reconnect 0 keep keep used client refl refl refl
      (refl, (refl, refl, tt))
