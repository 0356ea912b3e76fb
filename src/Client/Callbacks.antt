-- ===== src/Client/Callbacks.antt =====
-- client.go: the callbacks about the connection, and the calls around a fleet session that only
-- look at the client's state. A callback that runs is listed with its argument.
use navlink.Base.{Bool, Option, none, some, List, [], ◌∷◌, ◌++◌, if◌then◌else◌}
use navlink.Base.Text.{GoString}
use navlink.Errors.{Gerr, GoError, raise}
use navlink.Errors.Kinds.{client_not_started}
use navlink.Session.{Session, restore, on_agv_online, on_agv_offline}
use navlink.Client.{Transport, Client, with_fleet, start, handle_reconnect}

-- onTransportUp, onTransportDown and onSubscriptionsRestored: whether they are set.
pub record Callbacks : Type 0 where
  pub on_transport_up : Bool
  pub on_transport_down : Bool
  pub on_subscriptions_restored : Bool

pub data Called (E : Type 0) : Type 0 where
  transport_up : Called E
  transport_down : GoError E → Called E
  subscriptions_restored : Option (GoError E) → Called E

-- OnTransportUp, OnTransportDown and OnSubscriptionsRestored; `false` is nil.
unfoldable pub set_transport_up : Callbacks → Bool → Callbacks
set_transport_up cb h = record cb { on_transport_up = h }

unfoldable pub set_transport_down : Callbacks → Bool → Callbacks
set_transport_down cb h = record cb { on_transport_down = h }

unfoldable pub set_subscriptions_restored : Callbacks → Bool → Callbacks
set_subscriptions_restored cb h = record cb { on_subscriptions_restored = h }

module _ {E : Type 0} where
  abbrev pub if_set : Bool → Called E → List (Called E)
  if_set b c = if b then c ∷ [] else []

  -- emitTransportDown
  unfoldable pub emit_transport_down : Callbacks → GoError E → List (Called E)
  emit_transport_down cb e = if_set cb.on_transport_down (transport_down e)

  started_calls : Callbacks → Option (GoError E) → List (Called E)
  started_calls cb none = if_set cb.on_transport_up transport_up
  started_calls cb (some e) = []

  restored_calls : Callbacks → Option (GoError E) → List (Called E)
  unfolding started_calls
  restored_calls cb e =
      if_set cb.on_subscriptions_restored (subscriptions_restored e) ++ started_calls cb e

module _ {E W U H : Type 0} ⦃g : Gerr E⦄ (transport : Transport E W U) where
  -- The callbacks of Start.
  unfoldable pub start_calls : Callbacks → Client W U H → List (Called E)
  unfolding started_calls
  start_calls cb c = started_calls cb (start transport c).1

  -- The callbacks of handleReconnect.
  unfoldable pub reconnect_calls : Callbacks → Client W U H → List (Called E)
  unfolding restored_calls
  reconnect_calls cb c =
      if c.started then restored_calls cb (handle_reconnect transport c).1 else []

module _ {E W U H : Type 0} ⦃g : Gerr E⦄ (transport : Transport E W U) where
  -- requireStarted
  require_started : Client W U H → Option (GoError E)
  require_started c = if c.started then none else some (raise client_not_started)

  restore_started :
      Client W U H → Session W U H → Option (GoError E) → Client W U H × Option (GoError E)
  restore_started c s (some e) = (c, some e)
  restore_started c s none =
      with_fleet transport c (restore transport.net (record s { world = c.world }))

  restore_of : Client W U H → Option (Session W U H) → Client W U H × Option (GoError E)
  unfolding restore_started require_started
  restore_of c none = (c, none)
  restore_of c (some s) = restore_started c s (require_started c)

  -- RestoreFleet
  unfoldable pub restore_fleet_now : Client W U H → Client W U H × Option (GoError E)
  unfolding restore_of
  restore_fleet_now c = restore_of c c.fleet

-- OnTopic, as far as the filter goes.
unfoldable pub on_topic : {W U H : Type 0} → Client W U H → GoString → Client W U H
on_topic c filter = record c { filters = c.filters ++ (filter ∷ []) }

-- Connected: the status of a transport that has one, or whether the client is started.
unfoldable pub connected : {W U H : Type 0} → Option (W → Bool) → Client W U H → Bool
connected none c = c.started
connected (some status) c = status c.world

module _ {W U H : Type 0} where
  register_hook :
      (Session W U H → Option H → Session W U H)
      → Client W U H
      → Option (Session W U H)
      → Option H
      → Client W U H
  register_hook add c none h = c
  register_hook add c (some s) h = record c { fleet = some (add s h) }

  -- OnAGVOnline and OnAGVOffline, which the fleet session keeps.
  unfoldable pub hook_online : Client W U H → Option H → Client W U H
  unfolding register_hook
  hook_online c h = register_hook (λ s k. on_agv_online s k) c c.fleet h

  unfoldable pub hook_offline : Client W U H → Option H → Client W U H
  unfolding register_hook
  hook_offline c h = register_hook (λ s k. on_agv_offline s k) c c.fleet h
