-- ===== src/Session/Race.antt =====
-- internal/session/fleet.go: calls of track and untrack that overlap. What a call does between two
-- points at which others can run is one step: a section under the mutex, one Subscribe, one
-- Unsubscribe, the hooks at the end. Start, and the section of Restore under the mutex, are one step.
pub mod Books
pub mod Alone
pub mod Loser
use mathlib.Core.List.{reverse}
use navlink.Base.{ℕ, zero, suc, ◌≡◌, Bool, Option, none, some, List, [], ◌∷◌, ◌++◌}
use navlink.Base.Result.{Result, ok, err}
use navlink.Base.Text.{string_eq}
use navlink.Base.Dict.{lookup, insert, delete}
use navlink.Errors.{GoError}
use navlink.Topic.{build}
use navlink.Topic.Channels.{Channel}
use navlink.Session.Broker.{Net}
use navlink.Session.{
  Agv, key, TrackedAgv, HookCall, online, offline, Session, channels, hook_calls, start, clear,
}

-- Where a goroutine is: in no call, in the subscribe loop of a track with the subscriptions made and
-- the channels left, or at the end of a call with the Unsubscribe calls and the hooks left.
pub data Pc (U H : Type 0) : Type 0 where
  idle : Pc U H
  subscribing : Agv → Bool → List U → List Channel → Pc U H
  leaving : List U → List (HookCall H) → Pc U H

-- What a goroutine does next; one that is in a call can only go on with it.
pub data Choice : Type 0 where
  tracks untracks : Agv → Bool → Choice
  starts clears goes : Choice

module _ {E W U H : Type 0} (net : Net E W U) where
  -- The first section of track.
  enter_track : Session W U H → Agv → Bool → Option (TrackedAgv U) → Session W U H × Pc U H
  enter_track s agv notify (some _) = (s, idle)
  enter_track s agv notify none = (s, subscribing agv notify [] (channels s.opts))

  -- The section of untrack.
  enter_untrack : Session W U H → Agv → Bool → Option (TrackedAgv U) → Session W U H × Pc U H
  enter_untrack s agv notify none = (s, idle)
  enter_untrack s agv notify (some entry) = (
    record s { tracked = delete (key agv) s.tracked },
    leaving (reverse entry.unsubs) (hook_calls notify offline s.on_offline agv),
  )

  -- The second section of track.
  settle : Session W U H → Agv → Bool → List U → Option (TrackedAgv U) → Session W U H × Pc U H
  settle s agv notify us (some _) = (s, leaving (reverse us) [])
  settle s agv notify us none = (
    record s { tracked = insert (key agv) (record { agv = agv; unsubs = us }) s.tracked },
    leaving [] (hook_calls notify online s.on_online agv),
  )

  -- One round of the subscribe loop.
  subscribed :
      Session W U H
      → Agv
      → Bool
      → List U
      → List Channel
      → W × Result (GoError E) U
      → Session W U H × Pc U H
  subscribed s agv notify us chs (w, err e) = (record s { world = w }, leaving (reverse us) [])
  subscribed s agv notify us chs (w, ok u) =
      (record s { world = w }, subscribing agv notify (us ++ (u ∷ [])) chs)

  -- A step of a call that has begun.
  advance : Session W U H → Pc U H → Session W U H × Pc U H
  unfolding settle subscribed
  advance s idle = (s, idle)
  advance s (subscribing agv notify us []) = settle s agv notify us (lookup (key agv) s.tracked)
  advance s (subscribing agv notify us (ch ∷ chs)) =
      subscribed s agv notify us chs
        (net.subscribe s.world (build s.topics agv.manufacturer agv.serial_number ch))
  advance s (leaving (u ∷ us) hooks) =
      (record s { world = (net.unsubscribe s.world u).0 }, leaving us hooks)
  advance s (leaving [] hooks) = (record s { calls = s.calls ++ hooks }, idle)

  -- A goroutine that is in no call begins one.
  unfoldable pub begin : Session W U H → Choice → Session W U H × Pc U H
  unfolding enter_track enter_untrack
  begin s (tracks agv notify) = enter_track s agv notify (lookup (key agv) s.tracked)
  begin s (untracks agv notify) = enter_untrack s agv notify (lookup (key agv) s.tracked)
  begin s starts = ((start net s).0, idle)
  begin s clears = (clear net s, idle)
  begin s goes = (s, idle)

  unfoldable pub turn : Session W U H → Choice → Pc U H → Session W U H × Pc U H
  unfolding advance begin
  turn s c idle = begin s c
  turn s c (subscribing agv notify us chs) = advance s (subscribing agv notify us chs)
  turn s c (leaving us hooks) = advance s (leaving us hooks)

-- A session with the goroutines that call it.
pub record System (W U H : Type 0) : Type 0 where
  pub session : Session W U H
  pub goroutines : List (Pc U H)

-- Some goroutine takes a step.
pub data Step {E W U H : Type 0} (net : Net E W U) (x : System W U H) : System W U H → Type 0 where
  pick :
      (before after : List (Pc U H)) (p : Pc U H) (c : Choice)
      → x.goroutines ≡ before ++ p ∷ after
      → Step net x (record {
        session = (turn net x.session c p).0;
        goroutines = before ++ (turn net x.session c p).1 ∷ after;
      })

pub data Reach {E W U H : Type 0} (net : Net E W U) (x : System W U H) : System W U H → Type 0 where
  here : Reach net x x
  later : {y z : System W U H} → Reach net x y → Step net y z → Reach net x z

-- `n` goroutines that are in no call
abbrev pub resting : {U H : Type 0} → ℕ → List (Pc U H)
resting zero = []
resting (suc n) = idle ∷ resting n
