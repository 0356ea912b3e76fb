-- ===== src/Mqtt/Subscribe/Guarded.antt =====
-- internal/mqtt/transport.go: Subscribe and Unsubscribe on every branch.
use navlink.Base.{◌≡◌, ◌↔◌, ◌⊎◌, inl, inr, refl, ap, true, false, Option, none, some, arith}
use navlink.Base.Result.{ok, err}
use navlink.Base.Text.{GoString}
use navlink.Errors.{Gerr, GoError, raise}
use navlink.Errors.Kinds.{mqtt_transport_not_running}
use navlink.Mqtt.Wait.{Ctx, CtxErr, wait_token}
use navlink.Mqtt.Paho.{Paho, subscribe_qos}
use navlink.Mqtt.Lifecycle.{Transport}
use navlink.Mqtt.Subscribe.{
  running_client, subscribe_result, subscribe_on, subscribe, unsubscribe_on, unsubscribe,
}

module _ {E : Type 0} ⦃g : Gerr E⦄ (filter : GoString) where
  subscribe_result-ok :
      (e : Option (GoError E)) (error : Option GoString)
      → (subscribe_result filter e error ≡ ok filter) ↔ ((e ≡ none) × (error ≡ none))
  unfolding subscribe_result
  subscribe_result-ok (some e) error = (λ h. cc, λ h. cc (h.0))
  subscribe_result-ok none (some cause) = (λ h. cc, λ h. cc (h.1))
  subscribe_result-ok none none = (λ _. (refl, refl), λ _. refl)

module _ {T H L M P W : Type 0} (E : Type 0) ⦃g : Gerr E⦄ (args : GoString → GoString → GoString)
    (paho : Paho T P W) (ctx : Ctx) (first : Option CtxErr) (w : W) (filter : GoString) where
  -- What Subscribe and Unsubscribe do without a client, and with the client `p`.
  pub record Refuses (t : Transport T H L M P) : Type 0 where
    pub subscribed :
        subscribe {E = E} paho t ctx first w filter ≡ (w, err (raise mqtt_transport_not_running))
    pub unsubscribed : unsubscribe {E = E} args paho t ctx first w filter ≡ (w, none)

  pub record HandsOver (t : Transport T H L M P) (p : P) : Type 0 where
    pub subscribed :
        (subscribe {E = E} paho t ctx first w filter).0
        ≡ (paho.subscribe w p filter (subscribe_qos t.cfg filter)).0
    pub returned : ((subscribe {E = E} paho t ctx first w filter).1 ≡ ok filter) ↔ (
        (wait_token {E = E} ctx (paho.subscribe w p filter (subscribe_qos t.cfg filter)).1 first
          ≡ none)
        × ((paho.subscribe w p filter (subscribe_qos t.cfg filter)).1.error ≡ none))
    pub unsubscribed :
        (unsubscribe {E = E} args paho t ctx first w filter).0 ≡ (paho.unsubscribe w p filter).0

  running_client-Refuses : (t : Transport T H L M P) → running_client t ≡ none → Refuses t
  unfolding subscribe unsubscribe subscribe_on unsubscribe_on
  running_client-Refuses t e = record {
    subscribed = ap (subscribe_on paho t ctx first w filter) e;
    unsubscribed = ap (unsubscribe_on args paho ctx first w filter) e;
  }

  running_client-HandsOver :
      (t : Transport T H L M P) (p : P) → running_client t ≡ some p → HandsOver t p
  unfolding subscribe unsubscribe subscribe_on unsubscribe_on
  running_client-HandsOver t p e = record {
    subscribed = ap (λ o. (subscribe_on {E = E} paho t ctx first w filter o).0) e;
    returned = rw e (subscribe_result-ok filter _ _);
    unsubscribed = ap (λ o. (unsubscribe_on {E = E} args paho ctx first w filter o).0) e;
  }

  -- By the fields of the transport.
  pub record Guarded (t : Transport T H L M P) : Type 0 where
    pub refused : (t.running ≡ false) ⊎ (t.client ≡ none) → Refuses t
    pub handed : (p : P) → t.running ≡ true → t.client ≡ some p → HandsOver t p

  -- On a transport that is not running, or has no client, Subscribe is refused with
  -- MQTTTransportNotRunning and Unsubscribe does nothing. On any other, both hand their filter to the
  -- paho client, whatever they return, Subscribe with the QoS of subscribeQoS; and Subscribe returns
  -- a handle exactly if the wait ends without an error and the token has none.
  pub subscribe-Guarded : (t : Transport T H L M P) → Guarded t
  subscribe-Guarded t = record {
    refused = elim [
      | inl stopped ↦ running_client-Refuses t (ground arith)
      | inr absent ↦ running_client-Refuses t (ground arith)
    ];
    handed = λ p up there. running_client-HandsOver t p (ground arith);
  }
