-- ===== src/Mqtt/Lifecycle/Callbacks.antt =====
-- internal/mqtt/transport.go: onConnect, onConnectionLost and the setters of their callbacks, and a
-- transport over any sequence of calls. A callback that is to run is returned.
use navlink.Base.{true, Option, none, some, if◌then◌else◌, List, [], ◌∷◌}
use navlink.Errors.{Gerr}
use navlink.Mqtt.Wait.{Ctx, CtxErr}
use navlink.Mqtt.Lifecycle.{Paho, Transport, start, stop}

module _ {T H L M P : Type 0} where
  -- SetOnReconnect and SetOnConnectionLost
  unfoldable pub set_on_reconnect : Transport T H L M P → Option H → Transport T H L M P
  set_on_reconnect t h = record t { on_reconnect = h }

  unfoldable pub set_on_connection_lost : Transport T H L M P → Option L → Transport T H L M P
  set_on_connection_lost t l = record t { on_lost = l }

  -- onConnect, with the handler that it calls
  unfoldable pub on_connect : Transport T H L M P → Transport T H L M P × Option H
  on_connect t =
      (record t { was_connected = true }, if t.was_connected then t.on_reconnect else none)

  -- onConnectionLost, with the handler that it calls
  unfoldable pub on_connection_lost : Transport T H L M P → Option L
  on_connection_lost t = if t.stopping then none else t.on_lost

-- What happens to a transport, and what it calls then.
pub data Event (H L : Type 0) : Type 0 where
  starts : Ctx → Option CtxErr → Event H L
  stops connects loses : Event H L
  sets_on_reconnect : Option H → Event H L
  sets_on_connection_lost : Option L → Event H L

pub data Called (H L : Type 0) : Type 0 where
  nothing : Called H L
  reconnect : H → Called H L
  lost : L → Called H L

abbrev pub called_reconnect : {H L : Type 0} → Option H → Called H L
called_reconnect none = nothing
called_reconnect (some h) = reconnect h

abbrev pub called_lost : {H L : Type 0} → Option L → Called H L
called_lost none = nothing
called_lost (some l) = lost l

module _ {T H L M P W : Type 0} (E : Type 0) ⦃g : Gerr E⦄ (paho : Paho T P W) where
  unfoldable pub step : Transport T H L M P → W → Event H L → Transport T H L M P × W × Called H L
  unfolding set_on_reconnect set_on_connection_lost
  step t w (starts ctx ctx_first) =
      let (t', w', _) = start {E = E} paho t ctx ctx_first w in (t', w', nothing)
  step t w stops = let (t', w') = stop paho t w in (t', w', nothing)
  step t w connects = let (t', h) = on_connect t in (t', w, called_reconnect h)
  step t w loses = (t, w, called_lost (on_connection_lost t))
  step t w (sets_on_reconnect h) = (set_on_reconnect t h, w, nothing)
  step t w (sets_on_connection_lost l) = (set_on_connection_lost t l, w, nothing)

  -- The transport after a sequence of events.
  unfoldable pub run : Transport T H L M P → W → List (Event H L) → Transport T H L M P × W
  unfolding step
  run t w [] = (t, w)
  run t w (e ∷ es) = let (t', w', _) = step t w e in run t' w' es

  -- The callbacks that run during it.
  unfoldable pub calls : Transport T H L M P → W → List (Event H L) → List (Called H L)
  unfolding step
  calls t w [] = []
  calls t w (e ∷ es) = let (t', w', c) = step t w e in c ∷ calls t' w' es
