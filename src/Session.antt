-- ===== src/Session.antt =====
-- internal/session/fleet.go: the fleet session, which keeps the connection wildcard and one set of
-- subscriptions for each tracked vehicle. Each method runs to its end before the next one; the
-- mutex is not modelled here.
pub mod Count
pub mod Tracked
pub mod Releases
pub mod Broker
pub mod Balance
pub mod History
pub mod Effects
pub mod Recovery
pub mod Keys
pub mod Race
pub mod Opts
pub mod Listens
pub mod Restored
use navlink.Base.{
  Bool, true, false, not, ◌&&◌, Option, none, some, List, [], ◌∷◌, ◌++◌, map, if◌then◌else◌,
}
use mathlib.Core.List.{reverse}
use navlink.Base.Result.{Result, ok, err}
use navlink.Base.Text.{GoString, string_eq}
use navlink.Base.Dict.{lookup, insert, delete}
use navlink.Errors.{GoError}
use navlink.Topic.{Resolver, build, wildcard}
use navlink.Topic.Channels.{Channel}
use navlink.Topic.Channels
use navlink.Config.{FleetOptions}
use Broker.{Net}

-- AGV
pub record Agv : Type 0 where
  pub manufacturer : GoString
  pub serial_number : GoString

-- AGV.key
abbrev pub key : Agv → GoString
key a = a.manufacturer ++ (b'/' ∷ a.serial_number)

-- trackedAGV
pub record TrackedAgv (U : Type 0) : Type 0 where
  pub agv : Agv
  pub unsubs : List U

-- A call of a registered hook.
pub data HookCall (H : Type 0) : Type 0 where
  online offline : H → Agv → HookCall H

-- FleetSession, with the broker side `world` that it subscribes on and the hook calls made so far.
pub record Session (W U H : Type 0) : Type 0 where
  pub topics : Resolver
  pub opts : FleetOptions
  pub started : Bool
  pub conn_unsub : Option U
  pub tracked : List (GoString × TrackedAgv U)
  pub on_online : List H
  pub on_offline : List H
  pub world : W
  pub calls : List (HookCall H)

-- connection.ConnectionState
pub data ConnectionState : Type 0 where
  is_online is_offline is_broken is_other : ConnectionState

abbrev pub is_empty {ℓ} : {A : Type ℓ} → List A → Bool
is_empty [] = true
is_empty (_ ∷ _) = false

-- `if firstErr == nil { firstErr = err }`
abbrev pub first_error {ℓ} : {A : Type ℓ} → Option A → Option A → Option A
first_error (some e) later = some e
first_error none later = later

-- channels
pub channels : FleetOptions → List Channel
channels o =
    (if o.subscribe_state then Channels.state ∷ [] else [])
    ++ (if o.subscribe_visualization then Channels.visualization ∷ [] else [])

-- The hooks that a method calls, in the order of registration.
abbrev pub hook_calls :
    {H : Type 0} → Bool → (H → Agv → HookCall H) → List H → Agv → List (HookCall H)
hook_calls notify call hooks agv = if notify then map (λ h. call h agv) hooks else []

-- Tracked
abbrev pub tracked_agvs : {W U H : Type 0} → Session W U H → List Agv
tracked_agvs s = map (λ entry. entry.1.agv) s.tracked

-- NewFleetSession
unfoldable pub new_session : {W U H : Type 0} → Resolver → FleetOptions → W → Session W U H
new_session topics opts w = record {
  topics = topics;
  opts = opts;
  started = false;
  conn_unsub = none;
  tracked = [];
  on_online = [];
  on_offline = [];
  world = w;
  calls = [];
}

-- OnAGVOnline and OnAGVOffline; a nil hook is ignored.
unfoldable pub on_agv_online : {W U H : Type 0} → Session W U H → Option H → Session W U H
on_agv_online s none = s
on_agv_online s (some h) = record s { on_online = s.on_online ++ (h ∷ []) }

unfoldable pub on_agv_offline : {W U H : Type 0} → Session W U H → Option H → Session W U H
on_agv_offline s none = s
on_agv_offline s (some h) = record s { on_offline = s.on_offline ++ (h ∷ []) }

module _ {E W U : Type 0} (net : Net E W U) where
  open net use {subscribe, unsubscribe}

  -- Unsubscribes one after the other; the first error is kept.
  pub drop : W → List U → W × Option (GoError E)
  drop w [] = (w, none)
  drop w (u ∷ us) =
      let (w₁, e) = unsubscribe w u in let (w₂, later) = drop w₁ us in (w₂, first_error e later)

  -- for i := len(unsubs) - 1; i >= 0; i--
  pub release : W → List U → W × Option (GoError E)
  unfolding drop
  release w us = drop w (reverse us)

  -- The subscribe loop of track: `us` are those made so far, which an error takes back.
  pub subscribe_all : Resolver → Agv → W → List U → List Channel → W × Result (GoError E) (List U)
  unfolding release
  subscribe_all topics agv w us [] = (w, ok us)
  subscribe_all topics agv w us (ch ∷ chs) =
      let (w', r) = subscribe w (build topics agv.manufacturer agv.serial_number ch) in
      elim r [
        | err e ↦ ((release w' us).0, err e)
        | ok u ↦ subscribe_all topics agv w' (us ++ (u ∷ [])) chs
      ]

  -- The first loop of Restore.
  pub release_all : W → List (GoString × TrackedAgv U) → W
  unfolding release
  release_all w [] = w
  release_all w ((_, entry) ∷ m) = release_all (release w entry.unsubs).0 m

module _ {E W U H : Type 0} (net : Net E W U) where
  open net use {subscribe, unsubscribe}

  -- Start, after Subscribe
  start_with : Session W U H → W × Result (GoError E) U → Session W U H × Option (GoError E)
  start_with s (w, err e) = (record s { world = w }, some e)
  start_with s (w, ok u) = (record s { world = w; conn_unsub = some u; started = true }, none)

  -- Start
  unfoldable pub start : Session W U H → Session W U H × Option (GoError E)
  unfolding start_with
  start s =
      if s.started
      then (s, none)
      else start_with s (subscribe s.world (wildcard s.topics Channels.connection))

  -- The second critical section of track, with the subscriptions `us` made.
  commit :
      Session W U H
      → Agv
      → Bool
      → List U
      → Option (TrackedAgv U)
      → Session W U H × Option (GoError E)
  unfolding release
  commit s agv notify us (some _) = (record s { world = (release net s.world us).0 }, none)
  commit s agv notify us none = (
    record s {
      tracked = insert (key agv) (record { agv = agv; unsubs = us }) s.tracked;
      calls = s.calls ++ hook_calls notify online s.on_online agv;
    },
    none,
  )

  -- track, after the subscribe loop
  pub track_with :
      Session W U H
      → Agv
      → Bool
      → W × Result (GoError E) (List U)
      → Session W U H × Option (GoError E)
  unfolding commit
  track_with s agv notify (w, err e) = (record s { world = w }, some e)
  track_with s agv notify (w, ok us) =
      commit (record s { world = w }) agv notify us (lookup (key agv) s.tracked)

  -- track, after the first look into the map
  track_at : Session W U H → Agv → Bool → Option (TrackedAgv U) → Session W U H × Option (GoError E)
  unfolding subscribe_all track_with channels
  track_at s agv notify (some _) = (s, none)
  track_at s agv notify none =
      track_with s agv notify (subscribe_all net s.topics agv s.world [] (channels s.opts))

  -- track
  pub track_notify : Session W U H → Agv → Bool → Session W U H × Option (GoError E)
  unfolding track_at
  track_notify s agv notify = track_at s agv notify (lookup (key agv) s.tracked)

  -- untrack, after the look into the map
  untrack_at :
      Session W U H → Agv → Bool → Option (TrackedAgv U) → Session W U H × Option (GoError E)
  unfolding release
  untrack_at s agv notify none = (s, none)
  untrack_at s agv notify (some entry) =
      let (w, e) = release net s.world entry.unsubs in
      (
        record s {
          tracked = delete (key agv) s.tracked;
          world = w;
          calls = s.calls ++ hook_calls notify offline s.on_offline agv;
        },
        e,
      )

  -- untrack
  pub untrack_notify : Session W U H → Agv → Bool → Session W U H × Option (GoError E)
  unfolding untrack_at
  untrack_notify s agv notify = untrack_at s agv notify (lookup (key agv) s.tracked)

  -- Track and Untrack
  unfoldable pub track : Session W U H → Agv → Session W U H × Option (GoError E)
  unfolding track_notify
  track s agv = track_notify s agv true

  unfoldable pub untrack : Session W U H → Agv → Session W U H × Option (GoError E)
  unfolding untrack_notify
  untrack s agv = untrack_notify s agv true

  -- The loop of Stop.
  pub untrack_all : Session W U H → List Agv → Session W U H × Option (GoError E)
  unfolding untrack
  untrack_all s [] = (s, none)
  untrack_all s (agv ∷ agvs) =
      let (s₁, e) = untrack s agv in
      let (s₂, later) = untrack_all s₁ agvs in (s₂, first_error e later)

  drop_connection_at : Session W U H → Option U → Session W U H × Option (GoError E)
  drop_connection_at s none = (record s { started = false }, none)
  drop_connection_at s (some u) =
      let (w, e) = unsubscribe s.world u in
      (record s { world = w; conn_unsub = none; started = false }, e)

  -- The end of Stop: the connection subscription is given up.
  drop_connection : Session W U H → Session W U H × Option (GoError E)
  unfolding drop_connection_at
  drop_connection s = drop_connection_at s s.conn_unsub

  -- Stop
  unfoldable pub stop : Session W U H → Session W U H × Option (GoError E)
  unfolding untrack_all drop_connection
  stop s =
      let (s₁, e) = untrack_all s (tracked_agvs s) in
      let (s₂, later) = drop_connection s₁ in (s₂, first_error e later)

  -- The last loop of Restore.
  retrack_next : List Agv → Session W U H × Option (GoError E) → Session W U H × Option (GoError E)
  unfolding track_notify
  retrack_next agvs (s, some e) = (s, some e)
  retrack_next [] (s, none) = (s, none)
  retrack_next (agv ∷ agvs) (s, none) = retrack_next agvs (track_notify s agv false)

  -- What Restore does before it subscribes again.
  unfoldable pub clear : Session W U H → Session W U H
  unfolding release_all drop_connection
  clear s =
      (drop_connection (record s { world = release_all net s.world s.tracked; tracked = [] })).0

  -- Restore
  unfoldable pub restore : Session W U H → Session W U H × Option (GoError E)
  unfolding clear start retrack_next
  restore s =
      if not s.started && is_empty s.tracked
      then (s, none)
      else retrack_next (tracked_agvs s) (start (clear s))

  handle_state : Session W U H → Agv → ConnectionState → Session W U H × Option (GoError E)
  unfolding track untrack
  handle_state s agv is_online = track s agv
  handle_state s agv is_offline = untrack s agv
  handle_state s agv is_broken = untrack s agv
  handle_state s agv is_other = (s, none)

  -- HandleConnection
  pub handle_connection : Session W U H → Agv → ConnectionState → Session W U H × Option (GoError E)
  unfolding handle_state
  handle_connection s agv state =
      if s.opts.auto_track_from_connection then handle_state s agv state else (s, none)
