-- ===== src/Config/Examples.antt =====
-- config.go: tests.
use navlink.Base.{◌≡◌, refl, ◌↔◌, true, false, none, some, []}
use navlink.Base.Text.{text, is_blank}
use navlink.Errors.Kinds.{ErrorKind, invalid_config}
use navlink.Errors.Sample.{kind_gerr}
use navlink.Errors.{coded}
use navlink.Config.{
  header_version, restore_on_reconnect, subscribe_qos_explicit, fleet_session_options,
  default_fleet_options, Config, validate,
}
use navlink.Config.Laws.{Passes, validate_iff}

abbrev pub minimal : Config
minimal = record {
  broker = [];
  client_id = [];
  interface = text "uagv";
  version = text "v2";
  header_version = [];
  manufacturer = [];
  serial_number = [];
  qos = none;
  will = none;
  restore_subscriptions = none;
  strict_identity = none;
  has_transport = true;
  fleet = none;
  outbound_validation = none;
}

validate_test :
    (validate {E = ErrorKind} minimal ≡ none)
    × (validate {E = ErrorKind} (record minimal { interface = text " \t" })
        ≡ some (coded invalid_config))
unfolding validate is_blank
validate_test = (refl, refl)

validate_iff_example : (validate {E = ErrorKind} minimal ≡ none) ↔ Passes minimal
validate_iff_example = validate_iff ErrorKind minimal

defaults_test :
    (header_version minimal ≡ text "v2")
    × (restore_on_reconnect minimal ≡ true)
    × (subscribe_qos_explicit minimal ≡ (1, false))
    × (fleet_session_options (record {
      subscribe_state = false;
      subscribe_visualization = false;
      auto_track_from_connection = false;
    })
        ≡ default_fleet_options)
unfolding header_version restore_on_reconnect subscribe_qos_explicit fleet_session_options is_blank
defaults_test = (refl, refl, refl, refl)
