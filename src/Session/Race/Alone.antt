-- ===== src/Session/Race/Alone.antt =====
-- internal/session/fleet.go: a call that no other overlaps does what the method does as a whole.
use mathlib.Core.List.{reverse}
use navlink.Base.{
  ℕ, zero, suc, ◌+◌, ◌≤◌, ◌<◌, ◌≡◌, refl, ap, ◌∙◌, Bool, Option, none, some, List, [], ◌∷◌, ◌++◌,
  append-nil, inl, inr, arith,
}
use navlink.Base.Lists.{length-reverse, length, length-append}
use navlink.Base.Result.{Result-cases}
use navlink.Base.Text.{GoString, string_eq}
use navlink.Base.Dict.{lookup}
use navlink.Topic.{build}
use navlink.Topic.Channels.{Channel}
use navlink.Config.{FleetOptions}
use navlink.Session.Broker.{Net}
use navlink.Session.{
  Agv, key, TrackedAgv, HookCall, Session, channels, drop, release, subscribe_all, commit,
  track_with, track_at, track_notify, untrack_at, untrack_notify,
}
use navlink.Session.Race.{
  Pc, idle, subscribing, leaving, tracks, untracks, enter_track, enter_untrack, settle, subscribed,
  advance, begin,
}

pub length-channels : (o : FleetOptions) → length (channels o) ≤ 2
unfolding channels
length-channels o = ground arith

module _ {E W U H : Type 0} (net : Net E W U) where
  -- `k` steps of one goroutine, with no step of another between them.
  pub alone : ℕ → Session W U H × Pc U H → Session W U H × Pc U H
  alone zero x = x
  alone (suc k) (s, p) = alone k (advance net s p)

  alone-idle : (k : ℕ) (s : Session W U H) → alone k (s, idle) ≡ (s, idle)
  unfolding alone advance
  alone-idle zero s = refl
  alone-idle (suc k) s = alone-idle k s

  alone-leaving :
      (us : List U) (k : ℕ) (s : Session W U H) (hooks : List (HookCall H))
      → length us < k
      → alone k (s, leaving us hooks)
        ≡ (record s { world = (drop net s.world us).0; calls = s.calls ++ hooks }, idle)
  unfolding alone advance drop
  alone-leaving us zero s hooks lt = absurd (omega arith)
  alone-leaving [] (suc k) s hooks lt = alone-idle k _
  alone-leaving (u ∷ us) (suc k) s hooks lt = alone-leaving us k _ hooks (omega arith)

  -- Rolling back calls no hook.
  alone-rollback :
      (us : List U) (k : ℕ) (s : Session W U H)
      → length us < k
      → alone k (s, leaving (reverse us) [])
        ≡ (record s { world = (release net s.world us).0 }, idle)
  unfolding release
  alone-rollback us k s lt =
      alone-leaving (reverse us) k s [] (omega (arith, length-reverse us))
      ∙ ap (λ calls. (record s { world = (drop net s.world (reverse us)).0; calls = calls }, idle))
          (append-nil s.calls)

  alone-settle :
      (k : ℕ) (s : Session W U H) (agv : Agv) (notify : Bool) (us : List U)
      (found : Option (TrackedAgv U))
      → length us < k
      → alone k (settle net s agv notify us found) ≡ ((commit net s agv notify us found).0, idle)
  unfolding settle commit drop
  alone-settle k s agv notify us (some t) lt = alone-rollback us k s lt
  alone-settle k s agv notify us none lt = alone-leaving [] k _ _ (omega arith)

  pub alone-subscribing :
      (chs : List Channel) (k : ℕ) (s : Session W U H) (agv : Agv) (notify : Bool) (us : List U)
      → length chs + length chs + length us + 1 < k
      → alone k (s, subscribing agv notify us chs)
        ≡ ((track_with net s agv notify (subscribe_all net s.topics agv s.world us chs)).0, idle)
  unfolding alone advance track_with subscribe_all
  alone-subscribing chs zero s agv notify us lt = absurd (omega arith)
  alone-subscribing [] (suc k) s agv notify us lt = alone-settle k s agv notify us _ (omega arith)
  alone-subscribing (ch ∷ chs) (suc k) s agv notify us lt =
      elim (Result-cases (net.subscribe s.world filter).1) [
        | inl (u, made) ↦
            rw (made, subscribed, subscribe_all)
              (alone-subscribing chs k (record s { world = w }) agv notify (us ++ (u ∷ []))
                (omega (arith, length-append us (u ∷ []))))
        | inr (x, failed) ↦
            rw (failed, subscribed, subscribe_all)
              (alone-rollback us k (record s { world = w }) (omega arith))
      ]
    where
      filter : GoString
      filter = build s.topics agv.manufacturer agv.serial_number ch

      w : W
      w = (net.subscribe s.world filter).0

  alone-enter_track :
      (k : ℕ) (s : Session W U H) (agv : Agv) (notify : Bool) (found : Option (TrackedAgv U))
      → 6 ≤ k
      → alone k (enter_track net s agv notify found) ≡ ((track_at net s agv notify found).0, idle)
  unfolding enter_track track_at
  alone-enter_track k s agv notify (some t) le = alone-idle k s
  alone-enter_track k s agv notify none le =
      alone-subscribing (channels s.opts) k s agv notify [] (omega (arith, length-channels s.opts))

  alone-enter_untrack :
      (k : ℕ) (s : Session W U H) (agv : Agv) (notify : Bool) (found : Option (TrackedAgv U))
      → ((t : TrackedAgv U) → found ≡ some t → length t.unsubs < k)
      → alone k (enter_untrack net s agv notify found)
        ≡ ((untrack_at net s agv notify found).0, idle)
  unfolding enter_untrack untrack_at release
  alone-enter_untrack k s agv notify none lt = alone-idle k s
  alone-enter_untrack k s agv notify (some t) lt =
      alone-leaving (reverse t.unsubs) k _ _ (omega (arith, length-reverse t.unsubs, lt t refl))

  -- Steps and methods agree: a goroutine that begins a track or an untrack in any session, and then
  -- takes its steps with no other between them, is back in no call, with the session that the method
  -- leaves, after at most 6 steps for a track, and for an untrack after one step more than the
  -- vehicle holds subscriptions.
  pub alone-begin :
      (k : ℕ) (s : Session W U H) (agv : Agv) (notify : Bool)
      → (6 ≤ k
          → alone k (begin net s (tracks agv notify)) ≡ ((track_notify net s agv notify).0, idle))
        × (((t : TrackedAgv U) → lookup (key agv) s.tracked ≡ some t → length t.unsubs < k)
            → alone k (begin net s (untracks agv notify))
              ≡ ((untrack_notify net s agv notify).0, idle))
  unfolding begin track_notify untrack_notify
  alone-begin k s agv notify =
      (alone-enter_track k s agv notify _, alone-enter_untrack k s agv notify _)
