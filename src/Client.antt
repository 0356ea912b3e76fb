-- ===== src/Client.antt =====
-- client.go: the client's lifecycle over a transport. The handlers and callbacks that a call ends
-- with, and the subscriptions on an event bus, are not part of the state here; calls do not overlap.
pub mod Lifecycle
pub mod Retry
pub mod EventBus
pub mod AutoTrack
pub mod Setup
pub mod Callbacks
pub mod Whole
pub mod Reconnect
mod Examples
use navlink.Base.{
  Bool, true, false, Option, none, some, List, [], ◌∷◌, ◌++◌, map, if◌then◌else◌, ◌==◌,
}
use navlink.Base.Result.{Result, ok, err}
use navlink.Base.Text.{GoString, text, string_eq}
use navlink.Errors.{Gerr, GoError, raise, raise_args}
use navlink.Errors.Kinds.{client_not_started, client_already_started, invalid_config}
use navlink.Topic.{Resolver, build}
use navlink.Topic.Channels.{Channel}
use navlink.Topic.Channels
use navlink.Session.{Session, Agv, track, untrack, restore, release, first_error}
use navlink.Session
use navlink.Session.Broker.{Net}

-- Transport: Start and Stop beside Subscribe.
pub record Transport (E W U : Type 0) : Type 0 where
  pub start : W → W × Option (GoError E)
  pub stop : W → W × Option (GoError E)
  pub net : Net E W U

-- Client. `world` is the transport's state; the session of `fleet` works on it too. `filters` are
-- those of the topic handlers.
pub record Client (W U H : Type 0) : Type 0 where
  pub manufacturer : GoString
  pub serial_number : GoString
  pub topics : Resolver
  pub fleet : Option (Session W U H)
  pub started : Bool
  pub unsubs : List U
  pub want_state : Bool
  pub want_conn : Bool
  pub want_viz : Bool
  pub want_fs : Bool
  pub filters : List GoString
  pub world : W

-- "+" for a part that is not configured
abbrev pub or_plus : GoString → GoString
or_plus s = if s == [] then text "+" else s

abbrev pub when : Bool → Channel → List Channel
when b ch = if b then ch ∷ [] else []

module _ {W U H : Type 0} where
  -- subscriptionFilter
  subscription_filter : Client W U H → Channel → GoString
  subscription_filter c ch = build c.topics (or_plus c.manufacturer) (or_plus c.serial_number) ch

  -- The channels of subscribeLocked, without and with a fleet.
  wanted_channels : Client W U H → Option (Session W U H) → List Channel
  wanted_channels c none =
      when c.want_state Channels.state
      ++ (when c.want_conn Channels.connection
          ++ (when c.want_viz Channels.visualization ++ when c.want_fs Channels.factsheet))
  wanted_channels c (some _) = when c.want_fs Channels.factsheet

  -- The filters of subscribeLocked, in order.
  pub wanted_filters : Client W U H → List GoString
  unfolding wanted_channels
  wanted_filters c = map (subscription_filter c) (wanted_channels c c.fleet) ++ c.filters

module _ {E W U H : Type 0} ⦃g : Gerr E⦄ (transport : Transport E W U) where
  open transport use {net}

  -- The Subscribe calls of subscribeLocked; the first error ends them.
  pub subscribe_filters : Client W U H → List GoString → Client W U H × Option (GoError E)
  subscribe_filters c [] = (c, none)
  subscribe_filters c (f ∷ fs) =
      let (w, r) = net.subscribe c.world f in
      elim r [
        | err e ↦ (record c { world = w }, some e)
        | ok u ↦ subscribe_filters (record c { world = w; unsubs = c.unsubs ++ (u ∷ []) }) fs
      ]

  -- After a call of the fleet session on the transport.
  abbrev pub with_fleet :
      Client W U H → Session W U H × Option (GoError E) → Client W U H × Option (GoError E)
  with_fleet c (s, e) = (record c { fleet = some s; world = s.world }, e)

  pub start_fleet : Client W U H → Option (Session W U H) → Client W U H × Option (GoError E)
  start_fleet c none = (c, none)
  start_fleet c (some s) = with_fleet c (Session.start net (record s { world = c.world }))

  subscribe_after : Client W U H × Option (GoError E) → Client W U H × Option (GoError E)
  unfolding subscribe_filters
  subscribe_after (c, some e) = (c, some e)
  subscribe_after (c, none) = subscribe_filters c (wanted_filters c)

  -- subscribeLocked
  subscribe_locked : Client W U H → Client W U H × Option (GoError E)
  unfolding start_fleet subscribe_after
  subscribe_locked c = subscribe_after (start_fleet c c.fleet)

  pub subscribed : Client W U H × Option (GoError E) → Client W U H × Option (GoError E)
  subscribed (c, some e) = (record c { world = (transport.stop c.world).0 }, some e)
  subscribed (c, none) = (record c { started = true }, none)

  transport_up : Client W U H → W × Option (GoError E) → Client W U H × Option (GoError E)
  unfolding subscribe_locked subscribed
  transport_up c (w, some e) = (record c { world = w }, some e)
  transport_up c (w, none) = subscribed (subscribe_locked (record c { world = w }))

  -- Start
  unfoldable pub start : Client W U H → Client W U H × Option (GoError E)
  unfolding transport_up
  start c =
      if c.started
      then (c, some (raise client_already_started))
      else transport_up c (transport.start c.world)

  pub stop_fleet : Client W U H → Option (Session W U H) → Client W U H × Option (GoError E)
  stop_fleet c none = (c, none)
  stop_fleet c (some s) = with_fleet c (Session.stop net (record s { world = c.world }))

  -- Stop, of a client that is started
  stop_started : Client W U H → Client W U H × Option (GoError E)
  unfolding stop_fleet
  stop_started c =
      let (c₁, e₁) = stop_fleet (record c { started = false; unsubs = [] }) c.fleet in
      let (w₂, e₂) = release net c₁.world c.unsubs in
      let (w₃, e₃) = transport.stop w₂ in
      (record c₁ { world = w₃ }, first_error (first_error e₁ e₂) e₃)

  -- Stop
  unfoldable pub stop : Client W U H → Client W U H × Option (GoError E)
  unfolding stop_started
  stop c = if c.started then stop_started c else (c, none)

  -- The fleet calls of Track, Untrack and RestoreFleet.
  on_fleet :
      (Session W U H → Session W U H × Option (GoError E))
      → Client W U H
      → Option (Session W U H)
      → Client W U H × Option (GoError E)
  on_fleet call c none = (c, some (raise_args invalid_config (text "Fleet session is not enabled")))
  on_fleet call c (some s) =
      if c.started
      then with_fleet c (call (record s { world = c.world }))
      else (c, some (raise client_not_started))

  -- Track and Untrack
  pub track_agv : Client W U H → Agv → Client W U H × Option (GoError E)
  unfolding on_fleet
  track_agv c agv = on_fleet (λ s. track net s agv) c c.fleet

  pub untrack_agv : Client W U H → Agv → Client W U H × Option (GoError E)
  unfolding on_fleet
  untrack_agv c agv = on_fleet (λ s. untrack net s agv) c c.fleet

  restore_fleet : Client W U H → Option (Session W U H) → Client W U H × Option (GoError E)
  restore_fleet c none = (c, none)
  restore_fleet c (some s) = with_fleet c (restore net (record s { world = c.world }))

  resubscribe : Client W U H × Option (GoError E) → Client W U H × Option (GoError E)
  unfolding subscribe_locked
  resubscribe (c, some e) = (c, some e)
  resubscribe (c, none) = subscribe_locked c

  -- handleReconnect; the error is the one that OnSubscriptionsRestored hears of, if it is called.
  pub handle_reconnect : Client W U H → Client W U H × Option (GoError E)
  unfolding restore_fleet resubscribe
  handle_reconnect c =
      if c.started
      then resubscribe (restore_fleet (record c { unsubs = [] }) c.fleet)
      else (c, none)
