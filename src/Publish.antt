-- ===== src/Publish.antt =====
-- publish.go: the three-way outcome of a publish, which says whether the caller's protocol IDs may
-- be used again.
mod Examples
pub mod Foreign
use navlink.Base.{ℕ, Bool, true, false, ◌||◌, Option, none, some, if◌then◌else◌, ltb}
use navlink.Base.Text.{GoString, text}
use navlink.Errors.{
  Gerr, GoError, coded, canceled, deadline_exceeded, attempted, mqtt_attempted, message, wrapped,
  byte, raise_with, is_kind, is_canceled, is_deadline_exceeded,
}
use navlink.Errors.Kinds.{
  client_not_started, mqtt_transport_not_running, timeout_error, qos_not_supported, publish_failed,
  outbound_validation_failed, invalid_config,
}

-- PublishOutcome
pub data PublishOutcome : Type 0 where
  accepted not_started uncertain : PublishOutcome

-- PublishOutcome.String
abbrev pub outcome_string : PublishOutcome → GoString
outcome_string accepted = text "accepted"
outcome_string not_started = text "not_started"
outcome_string uncertain = text "uncertain"

module _ {E : Type 0} where
  -- publishWasAttempted
  unfoldable pub was_attempted : GoError E → Bool
  was_attempted (coded e) = false
  was_attempted canceled = false
  was_attempted deadline_exceeded = false
  was_attempted (attempted e) = true
  was_attempted (mqtt_attempted e) = was_attempted e
  was_attempted (message _) = false
  was_attempted (wrapped _ e) = was_attempted e

  -- MarkPublishAttempted
  unfoldable pub mark_attempted : Option (GoError E) → Option (GoError E)
  unfolding was_attempted
  mark_attempted none = none
  mark_attempted (some e) = if was_attempted e then some e else some (attempted e)

module _ {E : Type 0} ⦃g : Gerr E⦄ where
  -- IsPublishNotStarted
  is_publish_not_started : GoError E → Bool
  is_publish_not_started e = is_kind client_not_started e || is_kind mqtt_transport_not_running e

  -- IsPublishTimeout
  is_publish_timeout : GoError E → Bool
  is_publish_timeout e = is_kind timeout_error e || is_deadline_exceeded e

  -- IsPublishQoSRejected
  is_publish_qos_rejected : GoError E → Bool
  is_publish_qos_rejected e = is_kind qos_not_supported e

  -- IsPublishBrokerRejected
  is_publish_broker_rejected : GoError E → Bool
  is_publish_broker_rejected e = is_kind publish_failed e

  -- IsPublishValidationFailed, IsOutboundValidationFailed
  is_publish_validation_failed : GoError E → Bool
  is_publish_validation_failed e = is_kind outbound_validation_failed e

  -- ClassifyPublish
  unfoldable pub classify_publish : Option (GoError E) → PublishOutcome
  unfolding is_publish_not_started is_publish_qos_rejected is_publish_broker_rejected
      is_publish_validation_failed
  classify_publish none = accepted
  classify_publish (some e) =
      if is_publish_validation_failed e
        || is_publish_not_started e
        || is_publish_qos_rejected e
        || is_publish_broker_rejected e
      then not_started
      else if is_kind invalid_config e
      then not_started
      else if is_kind timeout_error e
      then uncertain
      else if was_attempted e
      then uncertain
      else if is_canceled e || is_deadline_exceeded e
      then not_started
      else uncertain

  -- validatePublishQoS
  unfoldable pub validate_publish_qos : ℕ → Option (GoError E)
  validate_publish_qos qos =
      if ltb 2 qos then some (raise_with qos_not_supported (text "qos") (byte qos)) else none
