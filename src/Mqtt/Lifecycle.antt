-- ===== src/Mqtt/Lifecycle.antt =====
-- internal/mqtt/transport.go: New, Start, Stop and the callbacks of the paho client. The client is a
-- parameter, over a state `W` that holds the clients made and the broker. Each call runs to its end;
-- onConnect and onConnectionLost run between the calls.
pub mod Callbacks
pub mod Sound
pub mod Machine
pub mod Stale
mod Examples
use navlink.Base.{
  ℕ, ◌*◌, ◌^◌, Bool, true, false, ◌&&◌, ◌||◌, not, Option, none, some, List, [], if◌then◌else◌, ltb,
  ◌==◌, nat_eq,
}
use navlink.Base.Text.{GoString, text, string_eq, is_blank}
use navlink.Errors.{Gerr, GoError, str, raise, raise_args, raise_with}
use navlink.Errors.Kinds.{
  mqtt_transport_already_running, configuration_error, will_message_error, connection_failed,
}
use navlink.Mqtt.Wait.{Ctx, CtxErr, Token, wait_token}
use navlink.Mqtt.Paho.{MqttConfig, Paho, client_options, check_config}
use navlink.Mqtt.Coalesce.{new_coalescer}
use navlink.Mqtt.Queue.{new_queue}
use navlink.Mqtt.Dispatch.{Dispatcher, start_dispatch, shutdown_dispatch}

-- Transport; `lanes` are its dispatch fields, over messages `M`.
pub record Transport (T H L M P : Type 0) : Type 0 where
  pub cfg : MqttConfig T H L
  pub client : Option P
  pub running : Bool
  pub stopping : Bool
  pub was_connected : Bool
  pub on_reconnect : Option H
  pub on_lost : Option L
  pub lanes : Dispatcher M

-- The dispatch fields of a transport that was not started.
abbrev pub no_lanes : {M : Type 0} → Dispatcher M
no_lanes = record {
  running = false;
  qsize = 0;
  connections = new_coalescer;
  topic_q = new_queue;
  shards = [];
}

module _ {T H L M P : Type 0} where
  -- New
  pub new_transport : MqttConfig T H L → Transport T H L M P
  new_transport cfg = record {
    cfg = cfg;
    client = none;
    running = false;
    stopping = false;
    was_connected = false;
    on_reconnect = cfg.on_reconnect;
    on_lost = cfg.on_connection_lost;
    lanes = no_lanes;
  }

  -- shutdownDispatch
  pub shutdown : Transport T H L M P → Transport T H L M P
  shutdown t = record t {
    client = none;
    running = false;
    was_connected = false;
    lanes = shutdown_dispatch t.lanes;
  }

  -- The transport when Connect is called.
  pub prepared : Transport T H L M P → P → Transport T H L M P
  prepared t p = record t {
    stopping = false;
    client = some p;
    lanes = start_dispatch t.cfg.inbound_queue_size;
  }

module _ {E T H L M P W : Type 0} ⦃g : Gerr E⦄ (paho : Paho T P W) where
  -- Start, after Connect: what the wait came to, then the token's error.
  start_end :
      Transport T H L M P
      → W
      → Option (GoError E)
      → Option GoString
      → Transport T H L M P × W × Option (GoError E)
  start_end t w (some e) error = (shutdown t, w, some e)
  start_end t w none (some cause) =
      (shutdown t, w, some (raise_with connection_failed (text "cause") (str cause)))
  start_end t w none none = (record t { running = true }, w, none)

  -- Start, from Connect on
  connect_client :
      Transport T H L M P
      → Ctx
      → Option CtxErr
      → W × P
      → Transport T H L M P × W × Option (GoError E)
  unfolding start_end prepared
  connect_client t ctx ctx_first (w, p) =
      let (w', token) = paho.connect w p in
      start_end (prepared t p) w' (wait_token ctx token ctx_first) token.error

  start_checked :
      Transport T H L M P
      → Ctx
      → Option CtxErr
      → W
      → Option (GoError E)
      → Transport T H L M P × W × Option (GoError E)
  unfolding connect_client client_options
  start_checked t ctx ctx_first w (some e) = (t, w, some e)
  start_checked t ctx ctx_first w none =
      connect_client t ctx ctx_first (paho.new_client w (client_options t.cfg))

  -- Start
  unfoldable pub start :
      Transport T H L M P → Ctx → Option CtxErr → W → Transport T H L M P × W × Option (GoError E)
  unfolding start_checked check_config
  start t ctx ctx_first w =
      if t.running
      then (t, w, some (raise mqtt_transport_already_running))
      else start_checked t ctx ctx_first w (check_config t.cfg)

module _ {T P W : Type 0} (paho : Paho T P W) where
  disconnect_with : W → Option P → W
  disconnect_with w none = w
  disconnect_with w (some p) = paho.disconnect w p 250

  connected_with : W → Option P → Bool
  connected_with w none = false
  connected_with w (some p) = paho.is_connected w p

module _ {T H L M P W : Type 0} (paho : Paho T P W) where
  -- Stop; it returns no error.
  unfoldable pub stop : Transport T H L M P → W → Transport T H L M P × W
  unfolding disconnect_with
  stop t w =
      if t.running
      then (
        record t {
          stopping = true;
          running = false;
          was_connected = false;
          lanes = shutdown_dispatch t.lanes;
        },
        disconnect_with paho w t.client,
      )
      else (t, w)

  -- Connected
  unfoldable pub connected : Transport T H L M P → W → Bool
  unfolding connected_with
  connected t w = t.running && connected_with paho w t.client
