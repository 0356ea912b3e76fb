-- ===== src/Mqtt/Subscribe.antt =====
-- internal/mqtt/transport.go: Subscribe, and the Unsubscribe that it returns, which holds the filter.
pub mod Qos
pub mod Guarded
use navlink.Base.{Bool, true, false, Option, none, some}
use navlink.Base.Result.{Result, ok, err}
use navlink.Base.Text.{GoString, text}
use navlink.Errors.{Gerr, GoError, str, raise, raise_args, raise_with}
use navlink.Errors.Kinds.{mqtt_transport_not_running, subscription_failed, unsubscribe_failed}
use navlink.Mqtt.Wait.{Ctx, CtxErr, Token, wait_token}
use navlink.Mqtt.Paho.{Paho, subscribe_qos}
use navlink.Mqtt.Lifecycle.{Transport}

-- The client of a transport that is running.
abbrev pub running_client : {T H L M P : Type 0} → Transport T H L M P → Option P
running_client t = elim t.running [ true ↦ t.client | false ↦ none ]

module _ {E : Type 0} ⦃g : Gerr E⦄ where
  subscribe_result : GoString → Option (GoError E) → Option GoString → Result (GoError E) GoString
  subscribe_result filter (some e) error = err e
  subscribe_result filter none (some cause) =
      err (raise_with subscription_failed (text "cause") (str cause))
  subscribe_result filter none none = ok filter

  -- `args` is how the filter and the cause print as arguments.
  unsubscribe_result :
      (GoString → GoString → GoString)
      → GoString
      → Option (GoError E)
      → Option GoString
      → Option (GoError E)
  unsubscribe_result args filter (some e) error = some e
  unsubscribe_result args filter none (some cause) =
      some (raise_args unsubscribe_failed (args filter cause))
  unsubscribe_result args filter none none = none

module _ {E T H L M P W : Type 0} ⦃g : Gerr E⦄ (paho : Paho T P W) where
  subscribe_on :
      Transport T H L M P
      → Ctx
      → Option CtxErr
      → W
      → GoString
      → Option P
      → W × Result (GoError E) GoString
  unfolding subscribe_result subscribe_qos
  subscribe_on t ctx ctx_first w filter none = (w, err (raise mqtt_transport_not_running))
  subscribe_on t ctx ctx_first w filter (some p) =
      let (w', token) = paho.subscribe w p filter (subscribe_qos t.cfg filter) in
      (w', subscribe_result filter (wait_token ctx token ctx_first) token.error)

  -- Subscribe
  unfoldable pub subscribe :
      Transport T H L M P → Ctx → Option CtxErr → W → GoString → W × Result (GoError E) GoString
  unfolding subscribe_on
  subscribe t ctx ctx_first w filter = subscribe_on t ctx ctx_first w filter (running_client t)

module _ {E T P W : Type 0} ⦃g : Gerr E⦄ (args : GoString → GoString → GoString)
    (paho : Paho T P W) where
  unsubscribe_on : Ctx → Option CtxErr → W → GoString → Option P → W × Option (GoError E)
  unfolding unsubscribe_result
  unsubscribe_on ctx ctx_first w filter none = (w, none)
  unsubscribe_on ctx ctx_first w filter (some p) =
      let (w', token) = paho.unsubscribe w p filter in
      (w', unsubscribe_result args filter (wait_token ctx token ctx_first) token.error)

  -- The Unsubscribe of a subscription.
  unfoldable pub unsubscribe :
      {H L M : Type 0}
      → Transport T H L M P
      → Ctx
      → Option CtxErr
      → W
      → GoString
      → W × Option (GoError E)
  unfolding unsubscribe_on
  unsubscribe t ctx ctx_first w filter = unsubscribe_on ctx ctx_first w filter (running_client t)
