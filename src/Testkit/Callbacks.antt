-- ===== src/Testkit/Callbacks.antt =====
-- testkit/fake_broker.go: the callbacks of the client that FakeBroker holds, and what fires them. A
-- callback that is to run is returned.
use navlink.Base.{Bool, Option}
use navlink.Testkit.{FakeBroker, drop_subscriptions}

-- FakeBroker, with the callbacks beside its other state.
pub record Reporting (E D H L : Type 0) : Type 0 where
  pub broker : FakeBroker E D
  pub on_reconnect : Option H
  pub on_lost : Option L

module _ {E D H L : Type 0} where
  -- SetOnReconnect and SetOnConnectionLost
  unfoldable pub set_on_reconnect : Reporting E D H L → Option H → Reporting E D H L
  set_on_reconnect r h = record r { on_reconnect = h }

  unfoldable pub set_on_connection_lost : Reporting E D H L → Option L → Reporting E D H L
  set_on_connection_lost r l = record r { on_lost = l }

  -- Connected
  unfoldable pub connected : Reporting E D H L → Bool
  connected r = r.broker.running

  -- SimulateDisconnect, with the callback that it calls: the subscriptions stay.
  unfoldable pub simulate_disconnect : Reporting E D H L → Option L
  simulate_disconnect r = r.on_lost

  -- SimulateReconnect, with the handler that it calls
  unfoldable pub simulate_reconnect : Reporting E D H L → Reporting E D H L × Option H
  unfolding drop_subscriptions
  simulate_reconnect r = (record r { broker = drop_subscriptions r.broker }, r.on_reconnect)
