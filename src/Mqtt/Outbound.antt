-- ===== src/Mqtt/Outbound.antt =====
-- internal/mqtt/transport.go Publish, internal/mqtt/attempted.go, and mqtt_adapter.go Publish.
pub mod Outcome
use navlink.Base.{ℕ, Bool, ◌&&◌, Option, none, some, if◌then◌else◌, List}
use navlink.Base.Text.{GoString, text}
use navlink.Errors.{Gerr, GoError, coded, mqtt_attempted, str, raise, raise_with, as_mqtt_attempted}
use navlink.Errors.Kinds.{mqtt_transport_not_running, publish_failed}
use navlink.Publish.{mark_attempted}
use navlink.Mqtt.Wait.{Ctx, CtxErr, ctx_error, Token, wait_token}

pub record Packet : Type 0 where
  pub topic : GoString
  pub qos : ℕ
  pub retain : Bool
  pub payload : List ℕ

-- The environment of one call of Publish: the context when Publish reads it and when waitToken
-- does, and what the context was done with if the wait's select sees that first.
pub record Call : Type 0 where
  pub entry : Ctx
  pub waiting : Ctx
  pub ctx_first : Option CtxErr

module _ {E : Type 0} where
  -- attempted
  pub attempted_wait : Option (GoError E) → Option (GoError E)
  attempted_wait none = none
  attempted_wait (some e) = some (mqtt_attempted e)

  adapt_attempted : GoError E → Option (GoError E) → Option (GoError E)
  adapt_attempted e (some inner) = mark_attempted (some inner)
  adapt_attempted e none = some e

  -- What mqttTransport.Publish makes of the inner error.
  pub adapt_publish : Option (GoError E) → Option (GoError E)
  unfolding adapt_attempted
  adapt_publish none = none
  adapt_publish (some e) = adapt_attempted e (as_mqtt_attempted e)

module _ {E : Type 0} ⦃g : Gerr E⦄ where
  -- gerrors.PublishFailed with the cause and the topic
  pub rejected : Packet → GoString → Option (GoError E)
  rejected pkt cause =
      let failed = g.with_metadata (g.base publish_failed) (text "cause") (str cause) in
      some (coded (g.with_metadata failed (text "topic") (str pkt.topic)))

  -- The end of Publish: what the wait came to, then the token's error.
  pub publish_result : Packet → Option (GoError E) → Option GoString → Option (GoError E)
  publish_result pkt (some e) error = attempted_wait (some e)
  publish_result pkt none none = none
  publish_result pkt none (some cause) = rejected pkt cause

-- `client_publish` is Client.Publish of paho, over a state `P`.
module _ {E P : Type 0} ⦃g : Gerr E⦄ (client_publish : P → Packet → P × Token) where
  hand_over : Call → P → Packet → P × Option (GoError E)
  hand_over call p pkt =
      let (p', token) = client_publish p pkt in
      (p', publish_result pkt (wait_token call.waiting token call.ctx_first) token.error)

  publish_entry : Option CtxErr → Call → P → Packet → P × Option (GoError E)
  publish_entry (some e) call p pkt = (p, some (ctx_error e))
  publish_entry none call p pkt = hand_over call p pkt

  -- Transport.Publish
  unfoldable pub publish : Bool → Bool → Call → P → Packet → P × Option (GoError E)
  unfolding publish_result hand_over publish_entry
  publish running has_client call p pkt =
      if running && has_client
      then publish_entry call.entry.error call p pkt
      else (p, some (raise mqtt_transport_not_running))

  -- mqttTransport.Publish
  unfoldable pub adapted_publish : Bool → Bool → Call → P → Packet → P × Option (GoError E)
  unfolding publish
  adapted_publish running has_client call p pkt =
      let (p', e) = publish running has_client call p pkt in (p', adapt_publish e)
