-- ===== src/Publish/Foreign.antt =====
-- publish.go ClassifyPublish, of an error that the code does not know.
use navlink.Base.{◌≡◌, false, some, arith}
use navlink.Errors.{Gerr, GoError, is_kind, is_canceled, is_deadline_exceeded}
use navlink.Errors.Kinds.{
  ErrorKind, client_not_started, mqtt_transport_not_running, timeout_error, qos_not_supported,
  publish_failed, outbound_validation_failed, invalid_config,
}
use navlink.Publish.{classify_publish, uncertain}

module _ {E : Type 0} ⦃g : Gerr E⦄ where
  -- errors.Is finds none of the registered errors in its chain, and no context error.
  pub record IsForeign (e : GoError E) : Type 0 where
    pub kinds : (k : ErrorKind) → is_kind k e ≡ false
    pub canceled : is_canceled e ≡ false
    pub deadline : is_deadline_exceeded e ≡ false

  pub classify-IsForeign : (e : GoError E) → IsForeign e → classify_publish (some e) ≡ uncertain
  unfolding classify_publish
  classify-IsForeign e f = ground (
    arith,
    f.kinds client_not_started,
    f.kinds mqtt_transport_not_running,
    f.kinds timeout_error,
    f.kinds qos_not_supported,
    f.kinds publish_failed,
    f.kinds outbound_validation_failed,
    f.kinds invalid_config,
    f.canceled,
    f.deadline,
  )
