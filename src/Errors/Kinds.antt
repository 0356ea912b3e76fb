-- ===== src/Errors/Kinds.antt =====
-- internal/gerrors/code.go: the registered errors.
use navlink.Base.{ℕ, Bool, ◌==◌, nat_eq}

pub data ErrorKind : Type 0 where
  invalid_config client_not_started client_already_started decode_failed : ErrorKind
  identity_mismatch id_allocation_failed mqtt_transport_not_running : ErrorKind
  mqtt_transport_already_running connection_failed authentication_failed : ErrorKind
  subscription_failed publish_failed invalid_topic client_not_connected reconnect_failed : ErrorKind
  tls_config_error will_message_error qos_not_supported message_too_large : ErrorKind
  broker_unavailable protocol_error timeout_error already_subscribed not_subscribed : ErrorKind
  invalid_payload outbound_validation_failed configuration_error subscription_not_active : ErrorKind
  unsubscribe_failed : ErrorKind

-- The place of an error in the file; two errors are one exactly if their places are.
abbrev pub kind_index : ErrorKind → ℕ
kind_index invalid_config = 0
kind_index client_not_started = 1
kind_index client_already_started = 2
kind_index decode_failed = 3
kind_index identity_mismatch = 4
kind_index id_allocation_failed = 5
kind_index mqtt_transport_not_running = 6
kind_index mqtt_transport_already_running = 7
kind_index connection_failed = 8
kind_index authentication_failed = 9
kind_index subscription_failed = 10
kind_index publish_failed = 11
kind_index invalid_topic = 12
kind_index client_not_connected = 13
kind_index reconnect_failed = 14
kind_index tls_config_error = 15
kind_index will_message_error = 16
kind_index qos_not_supported = 17
kind_index message_too_large = 18
kind_index broker_unavailable = 19
kind_index protocol_error = 20
kind_index timeout_error = 21
kind_index already_subscribed = 22
kind_index not_subscribed = 23
kind_index invalid_payload = 24
kind_index outbound_validation_failed = 25
kind_index configuration_error = 26
kind_index subscription_not_active = 27
kind_index unsubscribe_failed = 28

abbrev pub kind_beq : ErrorKind → ErrorKind → Bool
kind_beq k j = kind_index k == kind_index j
