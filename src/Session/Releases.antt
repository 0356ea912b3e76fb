-- ===== src/Session/Releases.antt =====
-- internal/session/fleet.go: what the loops over subscriptions do to the live handles.
use mathlib.Core.List.{reverse}
use navlink.Base.{ℕ, ◌+◌, ◌-◌, ◌≡◌, refl, inl, inr, List, [], ◌∷◌, ◌++◌, arith, Comparable}
use navlink.Base.Result.{Result, ok, err, Result-cases}
use navlink.Base.Text.{GoString}
use navlink.Errors.{GoError}
use navlink.Topic.{Resolver, build}
use navlink.Topic.Channels.{Channel}
use navlink.Session.Count.{one, count, count-append, count-reverse}
use navlink.Session.Broker.{Net, Keeps}
use navlink.Session.Tracked.{held}
use navlink.Session.{Agv, TrackedAgv, drop, release, release_all, subscribe_all}

module _ {E W U : Type 0} ⦃e : Comparable U⦄ {net : Net E W U} (keeps : Keeps net) where
  open keeps use {live}

  drop-live : (w : W) (us : List U) (v : U) → live (drop net w us).0 v ≡ live w v - count v us
  unfolding drop
  drop-live w [] v = omega arith
  drop-live w (u ∷ us) v =
      omega (arith, drop-live (net.unsubscribe w u).0 us v, keeps.unsubscribe-live w u v)

  pub release-live :
      (w : W) (us : List U) (v : U) → live (release net w us).0 v ≡ live w v - count v us
  unfolding release
  release-live w us v = omega (arith, drop-live w (reverse us) v, count-reverse v us)

  pub release_all-live :
      (w : W) (m : List (GoString × TrackedAgv U)) (v : U)
      → live (release_all net w m) v ≡ live w v - held v m
  unfolding release_all
  release_all-live w [] v = omega arith
  release_all-live w ((k, t) ∷ m) v =
      omega (arith, release_all-live (release net w t.unsubs).0 m v, release-live w t.unsubs v)

  -- What the subscribe loop leaves: its new subscriptions on success, and none on an error, which
  -- also takes back those that it started with.
  abbrev pub Made : U → ℕ → List U → W × Result (GoError E) (List U) → Type 0
  Made v before us (w, ok us') = live w v + count v us ≡ before + count v us'
  Made v before us (w, err _) = live w v ≡ before - count v us

  Made-step :
      (v : U) (before after : ℕ) (us : List U) (u : U) (r : W × Result (GoError E) (List U))
      → after ≡ before + one u v
      → Made v after (us ++ (u ∷ [])) r
      → Made v before us r
  Made-step v before after us u (w, ok us') h m = omega (arith, count-append v us (u ∷ []))
  Made-step v before after us u (w, err x) h m = omega (arith, count-append v us (u ∷ []))

  pub subscribe_all-Made :
      (topics : Resolver) (agv : Agv) (w : W) (us : List U) (chs : List Channel) (v : U)
      → Made v (live w v) us (subscribe_all net topics agv w us chs)
  unfolding subscribe_all
  subscribe_all-Made topics agv w us [] v = refl
  subscribe_all-Made topics agv w us (ch ∷ chs) v = elim (Result-cases (net.subscribe w filter).1) [
    | inl (u, made) ↦
        rw (made, subscribe_all)
          (Made-step v (live w v) _ us u _ (keeps.subscribe-ok w filter u made v)
            (subscribe_all-Made topics agv (net.subscribe w filter).0 (us ++ (u ∷ [])) chs v))
    | inr (x, failed) ↦
        rw (failed, subscribe_all)
          (omega (
            arith,
            release-live (net.subscribe w filter).0 us v,
            keeps.subscribe-err w filter x failed v,
          ))
  ]
    where
      filter : GoString
      filter = build topics agv.manufacturer agv.serial_number ch
