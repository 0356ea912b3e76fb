-- ===== src/Client/Setup.antt =====
-- client.go New: the client, and the configuration of the MQTT transport that it makes if it is
-- given none.
pub mod Accepted
use navlink.Base.{ℕ, Bool, false, ◌&&◌, Option, none, some, List, [], if◌then◌else◌, ◌==◌, nat_eq}
use navlink.Base.Result.{Result, ok, err}
use navlink.Base.Text.{GoString}
use navlink.Errors.{Gerr, GoError}
use navlink.Config.{
  Config, FleetOptions, LastWill, restore_on_reconnect, subscribe_qos_explicit, validate,
  fleet_session_options,
}
use navlink.Session.{Session, new_session}
use navlink.Mqtt.Paho.{Will, MqttConfig, default_keep_alive}
use navlink.Client.{Client}

-- The fields of Config that only the MQTT transport reads; times are nanoseconds.
pub record Settings (T : Type 0) : Type 0 where
  pub username : GoString
  pub password : GoString
  pub keep_alive : ℕ
  pub connect_timeout : ℕ
  pub clean_session : Bool
  pub auto_reconnect : Bool
  pub tls : Option T
  pub inbound_queue_size : ℕ

abbrev will_of : Option LastWill → Option Will
will_of none = none
will_of (some w) =
    some (record { topic = w.topic; payload = w.payload; qos = w.qos; retain = w.retain })

-- The mqtt.Config of New; its callbacks are set later, by SetOnReconnect and SetOnConnectionLost.
unfoldable pub mqtt_config : {T H L : Type 0} → Config → Settings T → MqttConfig T H L
unfolding subscribe_qos_explicit
mqtt_config c s = record {
  broker = c.broker;
  client_id = c.client_id;
  username = s.username;
  password = s.password;
  qos = (subscribe_qos_explicit c).0;
  qos_explicit = (subscribe_qos_explicit c).1;
  keep_alive = if s.keep_alive == 0 then default_keep_alive else s.keep_alive;
  connect_timeout = s.connect_timeout;
  clean_session = s.clean_session;
  auto_reconnect = s.auto_reconnect;
  tls = s.tls;
  will = will_of c.will;
  inbound_queue_size = s.inbound_queue_size;
  on_connection_lost = none;
  on_reconnect = none;
}

-- Whether New gives the transport handleReconnect; `aware` says that it is a ReconnectAware.
unfoldable pub sets_on_reconnect : Config → Bool → Bool
sets_on_reconnect c aware = restore_on_reconnect c && aware

module _ {W U H : Type 0} where
  fleet_of : Config → W → Option FleetOptions → Option (Session W U H)
  fleet_of c w none = none
  fleet_of c w (some fo) = some (
      new_session (record { interface = c.interface; version = c.version })
        (fleet_session_options fo) w)

  -- The client that New makes.
  unfoldable pub made_client : Config → W → Client W U H
  unfolding fleet_of
  made_client c w = record {
    manufacturer = c.manufacturer;
    serial_number = c.serial_number;
    topics = record { interface = c.interface; version = c.version };
    fleet = fleet_of c w c.fleet;
    started = false;
    unsubs = [];
    want_state = false;
    want_conn = false;
    want_viz = false;
    want_fs = false;
    filters = [];
    world = w;
  }

module _ {E W U H : Type 0} ⦃g : Gerr E⦄ where
  checked_client : Client W U H → Option (GoError E) → Result (GoError E) (Client W U H)
  checked_client client (some e) = err e
  checked_client client none = ok client

  -- New
  unfoldable pub new_client : Config → W → Result (GoError E) (Client W U H)
  unfolding checked_client made_client
  new_client c w = checked_client (made_client c w) (validate c)
