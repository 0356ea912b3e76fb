-- ===== src/Session/Listens.antt =====
-- internal/session/fleet.go over a transport that is up: what its loops subscribe, and the vehicles that
-- they still have to track.
use navlink.Base.{
  ◌≡◌, sym, subst, ◌⊎◌, map, none, List, [], ◌∷◌, ◌++◌, append_assoc, append-nil, arith,
}
use mathlib.Core.List.{reverse}
use navlink.Base.Result.{Result, ok, err}
use navlink.Base.Text.{GoString, string_eq, str_beq_iff}
use navlink.Base.Dict.{lookup, insert, lookup-insert}
use navlink.Errors.{GoError}
use navlink.Config.{FleetOptions}
use navlink.Topic.{Resolver, build}
use navlink.Topic.Channels.{Channel}
use navlink.Session.{Agv, TrackedAgv, key, channels, release, drop, release_all, subscribe_all}
use navlink.Session.Broker.{Net}
use navlink.Session.Tracked.{Keyed}

-- A result that is no error.
abbrev pub IsOk {ℓ κ} : {E : Type ℓ} {A : Type κ} → Result E A → Type 0
IsOk (ok _) = Unit
IsOk (err _) = ⊥

-- A transport that is up: it accepts every subscription, and one that hears nothing still hears
-- nothing after an Unsubscribe.
pub record Listens {E W U : Type 0} (net : Net E W U) : Type 1 where
  pub hears : W → List GoString → Type 0
  pub subscribe-hears :
      (w : W) (f : GoString) (fs : List GoString)
      → hears w fs
      → IsOk (net.subscribe w f).1 × hears (net.subscribe w f).0 (fs ++ (f ∷ []))
  pub unsubscribe-empty : (w : W) (u : U) → hears w [] → hears (net.unsubscribe w u).0 []

-- The filters of one vehicle.
abbrev pub vehicle_filters : Resolver → FleetOptions → Agv → List GoString
vehicle_filters topics opts agv =
    map (build topics agv.manufacturer agv.serial_number) (channels opts)

-- The filters of several vehicles, in order.
abbrev pub fleet_filters : Resolver → FleetOptions → List Agv → List GoString
fleet_filters topics opts [] = []
fleet_filters topics opts (agv ∷ agvs) =
    vehicle_filters topics opts agv ++ fleet_filters topics opts agvs

module _ {U : Type 0} where
  -- None of the vehicles has an entry, also not after those before it have one.
  abbrev pub AllNew : List Agv → List (GoString × TrackedAgv U) → Type 0
  AllNew [] m = Unit
  AllNew (agv ∷ agvs) m =
      (lookup (key agv) m ≡ none)
      × ((us : List U) → AllNew agvs (insert (key agv) (record { agv = agv; unsubs = us }) m))

  pub Keyed-AllNew :
      (m d : List (GoString × TrackedAgv U))
      → Keyed m
      → ((j : GoString) → (lookup j d ≡ none) ⊎ (lookup j m ≡ none))
      → AllNew (map (λ entry. entry.1.agv) m) d
  unfolding lookup
  Keyed-AllNew [] d h apart = tt
  Keyed-AllNew ((k, t) ∷ m) d (same, fresh, h) apart = (
    ground (arith, apart (key t.agv), str_beq_iff k (key t.agv)),
    λ us. Keyed-AllNew m (insert (key t.agv) (record { agv = t.agv; unsubs = us }) d) h (λ j.
        ground (
          arith,
          apart j,
          lookup-insert (key t.agv) j (record { agv = t.agv; unsubs = us }) d,
          str_beq_iff k j,
          str_beq_iff (key t.agv) j,
        )),
  )

module _ {E W U : Type 0} (net : Net E W U) (up : Listens net) where
  open up use {hears}

  drop-empty : (us : List U) (w : W) → hears w [] → hears (drop net w us).0 []
  unfolding drop
  drop-empty [] w h = h
  drop-empty (u ∷ us) w h = drop-empty us (net.unsubscribe w u).0 (up.unsubscribe-empty w u h)

  pub release_all-empty :
      (m : List (GoString × TrackedAgv U)) (w : W) → hears w [] → hears (release_all net w m) []
  unfolding release_all release
  release_all-empty [] w h = h
  release_all-empty ((k, t) ∷ m) w h =
      release_all-empty m (release net w t.unsubs).0 (drop-empty (reverse t.unsubs) w h)

  pub subscribe_all-hears :
      (topics : Resolver) (agv : Agv) (chs : List Channel) (w : W) (us : List U)
      (fs : List GoString)
      → hears w fs
      → let r = subscribe_all net topics agv w us chs in
        IsOk r.1 × hears r.0 (fs ++ map (build topics agv.manufacturer agv.serial_number) chs)
  unfolding subscribe_all
  subscribe_all-hears topics agv [] w us fs h = (tt, subst (hears w) (sym (append-nil fs)) h)
  subscribe_all-hears topics agv (ch ∷ chs) w us fs h =
      go (λ w' u. subscribe_all-hears topics agv chs w' (us ++ (u ∷ [])) (fs ++ (f ∷ [])))
        (net.subscribe w f) (up.subscribe-hears w f fs h)
    where
      f : GoString
      f = build topics agv.manufacturer agv.serial_number ch

      rest_filters : List GoString
      rest_filters = map (build topics agv.manufacturer agv.serial_number) chs

      go :
          ((w' : W) (u : U)
            → hears w' (fs ++ (f ∷ []))
            → let q = subscribe_all net topics agv w' (us ++ (u ∷ [])) chs in
              IsOk q.1 × hears q.0 ((fs ++ (f ∷ [])) ++ rest_filters))
          → (r : W × Result (GoError E) U) → IsOk r.1 × hears r.0 (fs ++ (f ∷ []))
          → let q : W × Result (GoError E) (List U) = elim r.1 [
            | err e ↦ ((release net r.0 us).0, err e)
            | ok u ↦ subscribe_all net topics agv r.0 (us ++ (u ∷ [])) chs
          ] in
            IsOk q.1 × hears q.0 (fs ++ (f ∷ rest_filters))
      go rest (w', err e) a = absurd a.0
      go rest (w', ok u) a =
          let h = rest w' u a.1 in
          (h.0, subst (hears _) (append_assoc fs (f ∷ []) rest_filters) h.1)
