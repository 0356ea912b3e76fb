-- ===== src/Mqtt/Lifecycle/Sound.antt =====
-- internal/mqtt/transport.go: what holds between the calls of a transport.
use navlink.Base.{◌≡◌, ◌≢◌, refl, true, false, Option, none, some, List, [], ◌∷◌, if_cases, arith}
use navlink.Base.Text.{GoString}
use navlink.Errors.{Gerr, GoError}
use navlink.Mqtt.Wait.{Ctx, CtxErr}
use navlink.Mqtt.Paho.{MqttConfig, Paho, check_config}
use navlink.Mqtt.Dispatch.{start_dispatch, shutdown_dispatch}
use navlink.Mqtt.Lifecycle.{
  Transport, new_transport, shutdown, prepared, start_end, connect_client, start_checked, start,
  stop,
}
use navlink.Mqtt.Lifecycle.Callbacks.{
  Event, starts, stops, connects, loses, sets_on_reconnect, sets_on_connection_lost,
  set_on_reconnect, set_on_connection_lost, on_connect, step, run,
}

-- The lanes run exactly when the transport does, which then has a client and is not stopping.
pub record Sound {T H L M P : Type 0} (t : Transport T H L M P) : Type 0 where
  pub lanes : t.lanes.running ≡ t.running
  pub client : t.running ≡ true → t.client ≢ none
  pub live : t.running ≡ true → t.stopping ≡ false

pub new-Sound :
    {T H L M P : Type 0} (cfg : MqttConfig T H L) → Sound (new_transport {M = M} {P = P} cfg)
unfolding new_transport
new-Sound cfg = record { lanes = refl; client = λ h. cc; live = λ h. cc }

shutdown-Sound : {T H L M P : Type 0} (t : Transport T H L M P) → Sound (shutdown t)
unfolding shutdown shutdown_dispatch
shutdown-Sound t = record { lanes = refl; client = λ h. cc; live = λ h. cc }

module _ {T H L M P W : Type 0} (E : Type 0) ⦃g : Gerr E⦄ (paho : Paho T P W) where
  start_end-Sound :
      (t : Transport T H L M P) (p : P) (w : W) (e : Option (GoError E)) (error : Option GoString)
      → Sound (start_end paho (prepared t p) w e error).0
  unfolding start_end prepared start_dispatch
  start_end-Sound t p w (some e) error = shutdown-Sound (prepared t p)
  start_end-Sound t p w none (some cause) = shutdown-Sound (prepared t p)
  start_end-Sound t p w none none = record { lanes = refl; client = λ h. cc; live = λ h. refl }

  start_checked-Sound :
      (t : Transport T H L M P) (ctx : Ctx) (first : Option CtxErr) (w : W) (e : Option (GoError E))
      → Sound t
      → Sound (start_checked paho t ctx first w e).0
  unfolding start_checked connect_client
  start_checked-Sound t ctx first w (some e) s = s
  start_checked-Sound t ctx first w none s = start_end-Sound t _ _ _ _

  start-Sound :
      (t : Transport T H L M P) (ctx : Ctx) (first : Option CtxErr) (w : W)
      → Sound t
      → Sound (start {E = E} paho t ctx first w).0
  unfolding start
  start-Sound t ctx first w s =
      if_cases {A = Transport T H L M P × W × Option (GoError E)} (λ r. Sound r.0) t.running
        (λ on. s) (λ off. start_checked-Sound t ctx first w (check_config t.cfg) s)

module _ {T H L M P W : Type 0} (paho : Paho T P W) where
  stop-Sound : (t : Transport T H L M P) (w : W) → Sound t → Sound (stop paho t w).0
  unfolding stop shutdown_dispatch
  stop-Sound t w s =
      if_cases {A = Transport T H L M P × W} (λ r. Sound r.0) t.running
        (λ on. record {
          lanes = refl;
          client = λ h. absurd (ground arith);
          live = λ h. ground arith;
        })
        (λ off. s)

module _ {T H L M P W : Type 0} (E : Type 0) ⦃g : Gerr E⦄ (paho : Paho T P W) where
  pub step-Sound :
      (t : Transport T H L M P) (w : W) (e : Event H L) → Sound t → Sound (step E paho t w e).0
  unfolding step on_connect set_on_reconnect set_on_connection_lost
  step-Sound t w (starts ctx first) s = start-Sound E paho t ctx first w s
  step-Sound t w stops s = stop-Sound paho t w s
  step-Sound t w connects s = record { lanes = s.lanes; client = s.client; live = s.live }
  step-Sound t w loses s = s
  step-Sound t w (sets_on_reconnect h) s = record {
    lanes = s.lanes;
    client = s.client;
    live = s.live;
  }
  step-Sound t w (sets_on_connection_lost l) s = record {
    lanes = s.lanes;
    client = s.client;
    live = s.live;
  }

  run-Sound :
      (es : List (Event H L)) (t : Transport T H L M P) (w : W)
      → Sound t
      → Sound (run E paho t w es).0
  unfolding run
  run-Sound [] t w s = s
  run-Sound (e ∷ es) t w s = run-Sound es _ _ (step-Sound t w e s)

  -- Whatever calls and callbacks there are from New on: between them the inbound lanes run exactly
  -- when the transport is running, and a transport that is running has a client and is not stopping.
  pub run-new-Sound :
      (cfg : MqttConfig T H L) (w : W) (es : List (Event H L))
      → Sound (run {M = M} E paho (new_transport cfg) w es).0
  run-new-Sound cfg w es = run-Sound es (new_transport cfg) w (new-Sound cfg)
