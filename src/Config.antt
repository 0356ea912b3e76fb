-- ===== src/Config.antt =====
-- config.go: the client's configuration, its defaults and its validation. Fields that the model
-- does not read (credentials, TLS, keep-alive, callbacks) are left out.
pub mod Laws
pub mod Examples
use navlink.Base.{
  ℕ, Bool, true, false, ◌||◌, ◌&&◌, not, Option, none, some, List, if◌then◌else◌, ltb,
}
use navlink.Base.Text.{GoString, text, is_blank}
use navlink.Errors.{Gerr, GoError, raise, raise_args}
use navlink.Errors.Kinds.{invalid_config, will_message_error}
use navlink.Agv.Validation.{OutboundValidation}

-- FleetOptions
pub record FleetOptions : Type 0 where
  pub subscribe_state : Bool
  pub subscribe_visualization : Bool
  pub auto_track_from_connection : Bool

-- DefaultFleetOptions, and session.DefaultOptions
abbrev pub default_fleet_options : FleetOptions
default_fleet_options = record {
  subscribe_state = true;
  subscribe_visualization = false;
  auto_track_from_connection = false;
}

-- fleetSessionOptions (client.go): all-zero options are the defaults.
pub fleet_session_options : FleetOptions → FleetOptions
fleet_session_options fo =
    if fo.subscribe_state || fo.subscribe_visualization || fo.auto_track_from_connection
    then fo
    else default_fleet_options

-- LastWill
pub record LastWill : Type 0 where
  pub topic : GoString
  pub payload : List ℕ
  pub qos : ℕ
  pub retain : Bool

pub record Config : Type 0 where
  pub broker : GoString
  pub client_id : GoString
  pub interface : GoString
  pub version : GoString
  pub header_version : GoString
  pub manufacturer : GoString
  pub serial_number : GoString
  pub qos : Option ℕ
  pub will : Option LastWill
  pub restore_subscriptions : Option Bool
  pub strict_identity : Option Bool
  pub has_transport : Bool
  pub fleet : Option FleetOptions
  pub outbound_validation : Option OutboundValidation

-- DefaultOrderQoS
abbrev pub default_order_qos : ℕ
default_order_qos = 1

abbrev pub get_or {ℓ} : {A : Type ℓ} → Option A → A → A
get_or none d = d
get_or (some a) d = a

-- headerVersion
header_version : Config → GoString
header_version c = if not (is_blank c.header_version) then c.header_version else c.version

-- strictIdentity
unfoldable pub strict_identity : Config → Bool
strict_identity c = get_or c.strict_identity true

-- restoreOnReconnect
unfoldable pub restore_on_reconnect : Config → Bool
restore_on_reconnect c = get_or c.restore_subscriptions true

-- publishQoS
unfoldable pub publish_qos : Config → ℕ
publish_qos c = get_or c.qos default_order_qos

-- subscribeQoSExplicit
unfoldable pub subscribe_qos_explicit : Config → ℕ × Bool
subscribe_qos_explicit c = elim c.qos [ none ↦ (default_order_qos, false) | some q ↦ (q, true) ]

module _ {E : Type 0} ⦃g : Gerr E⦄ where
  -- The will check of Config.validate, and validateWill of internal/mqtt/transport.go.
  validate_will : Option LastWill → Option (GoError E)
  validate_will none = none
  validate_will (some w) =
      if is_blank w.topic || ltb 2 w.qos then some (raise will_message_error) else none

  -- Config.validate
  unfoldable pub validate : Config → Option (GoError E)
  unfolding validate_will
  validate c =
      if is_blank c.interface
      then some (raise_args invalid_config (text "Interface is required"))
      else if is_blank c.version
      then some (raise_args invalid_config (text "Version is required"))
      else if not c.has_transport && is_blank c.broker
      then some (raise_args invalid_config (text "Broker is required when Transport is nil"))
      else if not c.has_transport && is_blank c.client_id
      then some (raise_args invalid_config (text "ClientID is required when Transport is nil"))
      else validate_will c.will
