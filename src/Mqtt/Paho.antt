-- ===== src/Mqtt/Paho.antt =====
-- internal/mqtt/transport.go: the configuration, its checks, and the paho client as a parameter.
use navlink.Base.{
  ℕ, ◌*◌, ◌^◌, Bool, ◌||◌, Option, none, some, List, [], if◌then◌else◌, ltb, ◌==◌, nat_eq, ◌≡◌, ◌≤◌,
  refl, false, arith,
}
use navlink.Base.Text.{GoString, text, string_eq, str_beq, is_blank}
use navlink.Base.Suffix.{has_suffix}
use navlink.Errors.{Gerr, GoError, raise, raise_args}
use navlink.Errors.Kinds.{configuration_error, will_message_error}
use navlink.Mqtt.Wait.{Token}

-- Will
pub record Will : Type 0 where
  pub topic : GoString
  pub payload : List ℕ
  pub qos : ℕ
  pub retain : Bool

-- Config, with `T` for *tls.Config; `H` and `L` are the two callbacks. Times are nanoseconds.
pub record MqttConfig (T H L : Type 0) : Type 0 where
  pub broker : GoString
  pub client_id : GoString
  pub username : GoString
  pub password : GoString
  pub qos : ℕ
  pub qos_explicit : Bool
  pub keep_alive : ℕ
  pub connect_timeout : ℕ
  pub clean_session : Bool
  pub auto_reconnect : Bool
  pub tls : Option T
  pub will : Option Will
  pub inbound_queue_size : ℕ
  pub on_connection_lost : Option L
  pub on_reconnect : Option H

-- What Start sets of pahomqtt.ClientOptions.
pub record ClientOptions (T : Type 0) : Type 0 where
  pub broker : GoString
  pub client_id : GoString
  pub username : GoString
  pub password : GoString
  pub keep_alive : ℕ
  pub clean_session : Bool
  pub auto_reconnect : Bool
  pub connect_retry : Bool
  pub connect_timeout : Option ℕ
  pub tls : Option T
  pub binary_will : Option Will

-- What the transport calls of pahomqtt.Client, a client being a `P`.
pub record Paho (T P W : Type 0) : Type 0 where
  pub new_client : W → ClientOptions T → W × P
  pub connect : W → P → W × Token
  pub disconnect : W → P → ℕ → W
  pub is_connected : W → P → Bool
  pub subscribe : W → P → GoString → ℕ → W × Token
  pub unsubscribe : W → P → GoString → W × Token

-- The default of a keep-alive time that is not configured.
abbrev pub default_keep_alive : ℕ
default_keep_alive = 30 * 10 ^ 9

-- The options that Start makes of the configuration.
unfoldable pub client_options : {T H L : Type 0} → MqttConfig T H L → ClientOptions T
client_options cfg = record {
  broker = cfg.broker;
  client_id = cfg.client_id;
  username = cfg.username;
  password = cfg.password;
  keep_alive = if cfg.keep_alive == 0 then default_keep_alive else cfg.keep_alive;
  clean_session = cfg.clean_session;
  auto_reconnect = cfg.auto_reconnect;
  connect_retry = cfg.auto_reconnect;
  connect_timeout = if ltb 0 cfg.connect_timeout then some cfg.connect_timeout else none;
  tls = cfg.tls;
  binary_will = cfg.will;
}

module _ {E : Type 0} ⦃g : Gerr E⦄ where
  -- validateWill
  check_will : Option Will → Option (GoError E)
  check_will none = none
  check_will (some w) =
      if is_blank w.topic
      then some (raise will_message_error)
      else if ltb 2 w.qos
      then some (raise will_message_error)
      else none

  -- The checks of Start on the configuration.
  unfoldable pub check_config : {T H L : Type 0} → MqttConfig T H L → Option (GoError E)
  unfolding check_will
  check_config cfg =
      if cfg.broker == [] || cfg.client_id == []
      then some (raise_args configuration_error (text "broker and clientId are required"))
      else check_will cfg.will

-- A will that Start takes.
abbrev pub WillTaken : Option Will → Type 0
WillTaken none = Unit
WillTaken (some w) = (is_blank w.topic ≡ false) × (w.qos ≤ 2)

module _ {E : Type 0} ⦃g : Gerr E⦄ where
  check_will-none : (w : Option Will) → WillTaken w → check_will {E = E} w ≡ none
  unfolding check_will
  check_will-none none h = refl
  check_will-none (some w) h = ground (arith, h.0, h.1)

  pub check_config-none :
      {T H L : Type 0} (cfg : MqttConfig T H L)
      → str_beq cfg.broker [] ≡ false
      → str_beq cfg.client_id [] ≡ false
      → WillTaken cfg.will
      → check_config {E = E} cfg ≡ none
  unfolding check_config
  check_config-none cfg b c h = rw (b, c) (check_will-none cfg.will h)

-- subscribeQoS
unfoldable pub subscribe_qos : {T H L : Type 0} → MqttConfig T H L → GoString → ℕ
subscribe_qos cfg filter =
    if cfg.qos_explicit
    then cfg.qos
    else if has_suffix filter (text "/visualization")
    then 0
    else if cfg.qos == 0
    then 1
    else cfg.qos
