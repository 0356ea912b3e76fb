-- ===== src/Session/Race/Loser.antt =====
-- internal/session/fleet.go track, over a transport whose handles are filters, as those of
-- internal/mqtt/transport.go are: Unsubscribe ends the one subscription of the filter.
use mathlib.Core.List.{reverse, reverse-cons}
use navlink.Base.{
  suc, ◌≡◌, ◌≢◌, refl, sym, ap, ◌∙◌, subst, Bool, false, not, ◌&&◌, Option, none, some, List, [],
  ◌∷◌, ◌++◌, map, append-nil, append_assoc, arith, ◌==◌,
}
use navlink.Base.Lists.{map-append, All, length, length-append}
use navlink.Base.Result.{Result, ok, err, ok-injective}
use navlink.Base.Text.{GoString, string_eq, str_beq_iff}
use navlink.Base.Dict.{lookup}
use navlink.Errors.{GoError}
use navlink.Topic.{Resolver, build}
use navlink.Topic.Channels.{Channel}
use navlink.Session.Broker.{Net}
use navlink.Session.{
  Agv, key, TrackedAgv, Session, channels, drop, release, subscribe_all, commit, track_with,
}
use navlink.Session.Effects.{IsTracked}
use navlink.Session.Race.{Pc, subscribing}
use navlink.Session.Race.Alone.{alone, alone-subscribing, length-channels}

-- A transport on which every Subscribe succeeds and whose handles are the filters.
pub record ByFilter {E W : Type 0} (net : Net E W GoString) : Type 0 where
  pub listening : W → GoString → Bool
  pub subscribe-ok : (w : W) (f : GoString) → (net.subscribe w f).1 ≡ ok f
  pub unsubscribe-listening :
      (w : W) (f g : GoString)
      → listening (net.unsubscribe w f).0 g ≡ (not (f == g) && listening w g)

abbrev pub filters : Resolver → Agv → List Channel → List GoString
filters topics agv chs = map (build topics agv.manufacturer agv.serial_number) chs

module _ (P : GoString → Type 0) where
  All-halves : (xs ys : List GoString) → All P (xs ++ ys) → All P xs × All P ys
  All-halves [] ys h = (tt, h)
  All-halves (x ∷ xs) ys (p, h) = let (left, right) = All-halves xs ys h in ((p, left), right)

  All-reverse : (us : List GoString) → All P (reverse us) → All P us
  All-reverse [] h = tt
  All-reverse (u ∷ us) h =
      let (left, right) = All-halves (reverse us) (u ∷ []) (subst (All P) (reverse-cons u us) h) in
      (right.0, All-reverse us left)

module _ {E W : Type 0} {net : Net E W GoString} (by_filter : ByFilter net) where
  open by_filter use {listening}

  drop-silent :
      (us : List GoString) (w : W) (g : GoString)
      → listening w g ≡ false
      → listening (drop net w us).0 g ≡ false
  unfolding drop
  drop-silent [] w g h = h
  drop-silent (u ∷ us) w g h =
      drop-silent us _ g (ground (arith, by_filter.unsubscribe-listening w u g))

  drop-All : (us : List GoString) (w : W) → All (λ u. listening (drop net w us).0 u ≡ false) us
  unfolding drop
  drop-All [] w = tt
  drop-All (u ∷ us) w = (
    drop-silent us _ u (ground (arith, by_filter.unsubscribe-listening w u u, str_beq_iff u u)),
    drop-All us _,
  )

  release-All :
      (us : List GoString) (w : W) → All (λ u. listening (release net w us).0 u ≡ false) us
  unfolding release
  release-All us w = All-reverse _ us (drop-All (reverse us) w)

  subscribe_all-ok :
      (topics : Resolver) (agv : Agv) (chs : List Channel) (w : W) (us : List GoString)
      → (subscribe_all net topics agv w us chs).1 ≡ ok (us ++ filters topics agv chs)
  unfolding subscribe_all
  subscribe_all-ok topics agv [] w us = ap ok (sym (append-nil us))
  subscribe_all-ok topics agv (ch ∷ chs) w us =
      rw
        (
          by_filter.subscribe-ok w (build topics agv.manufacturer agv.serial_number ch),
          subscribe_all,
        )
        (subscribe_all-ok topics agv chs _ (us ++ (_ ∷ []))
          ∙ ap ok (append_assoc us (_ ∷ []) (filters topics agv chs)))

  -- No filter of the vehicle is listened to.
  abbrev pub Unheard : Resolver → Agv → List Channel → W → Type 0
  Unheard topics agv chs w = All (λ f. listening w f ≡ false) (filters topics agv chs)

module _ {E W H : Type 0} {net : Net E W GoString} (by_filter : ByFilter net) where
  -- What a track that finds the vehicle tracked leaves after its subscribe loop.
  record Undone (s : Session W GoString H) (agv : Agv) (chs : List Channel)
      (t : Session W GoString H) : Type 0 where
    kept : t.tracked ≡ s.tracked
    unheard : Unheard by_filter s.topics agv chs t.world

  commit-Undone :
      (s : Session W GoString H) (agv : Agv) (chs : List Channel) (notify : Bool)
      (found : Option (TrackedAgv GoString))
      → found ≢ none
      → Undone s agv chs (commit net s agv notify (filters s.topics agv chs) found).0
  unfolding commit
  commit-Undone s agv chs notify none h = absurd (h refl)
  commit-Undone s agv chs notify (some t) h = record {
    kept = refl;
    unheard = release-All by_filter _ s.world;
  }

  track_with-Undone :
      (s : Session W GoString H) (agv : Agv) (chs : List Channel) (notify : Bool)
      (r : W × Result (GoError E) (List GoString))
      → r.1 ≡ ok (filters s.topics agv chs)
      → IsTracked s agv
      → Undone s agv chs (track_with net s agv notify r).0
  unfolding track_with
  track_with-Undone s agv chs notify (w, err x) h there = absurd (cc (h))
  track_with-Undone s agv chs notify (w, ok us) h there =
      subst
        (λ vs.
          Undone s agv chs
            (commit net (record s { world = w }) agv notify vs (lookup (key agv) s.tracked)).0)
        (sym (ok-injective h))
        (let u = commit-Undone (record s { world = w }) agv chs notify _ there in
          record { kept = u.kept; unheard = u.unheard })

  -- On a transport on which every Subscribe succeeds, and whose Unsubscribe ends the one subscription
  -- of a filter: a track that is in its subscribe loop, after the Subscribe calls of the first channels,
  -- when another call has come to track the vehicle, and that takes its other steps with none of
  -- another call between them, leaves the vehicle tracked, but nothing listens to any of its filters,
  -- as it has taken back the subscriptions of the other call too.
  pub raced-Unheard :
      (s : Session W GoString H) (agv : Agv) (notify : Bool) (made left : List Channel)
      → IsTracked s agv
      → made ++ left ≡ channels s.opts
      → let s' = (alone net 6 (s, subscribing agv notify (filters s.topics agv made) left)).0 in
        IsTracked s' agv × Unheard by_filter s.topics agv (channels s.opts) s'.world
  raced-Unheard s agv notify made left there all =
      subst
        (λ (x : Session W GoString H × Pc GoString H).
          IsTracked x.0 agv × Unheard by_filter s.topics agv (channels s.opts) x.0.world)
        (sym (
          alone-subscribing net left 6 s agv notify (filters s.topics agv made) (
            omega (
              arith,
              length-channels s.opts,
              ap (λ l. length l) all,
              length-append made left,
              length-filters made,
            ))))
        (subst (λ m. lookup (key agv) m ≢ none) (sym u.kept) there, u.unheard)
    where
      length-filters : (chs : List Channel) → length (filters s.topics agv chs) ≡ length chs
      length-filters [] = refl
      length-filters (ch ∷ chs) = ap suc (length-filters chs)

      u : Undone s agv (channels s.opts) (
          (track_with net s agv notify
            (subscribe_all net s.topics agv s.world (filters s.topics agv made) left)).0)
      u =
          track_with-Undone s agv (channels s.opts) notify _
            (subscribe_all-ok by_filter s.topics agv left s.world (filters s.topics agv made)
              ∙ ap ok (
                  sym (map-append (build s.topics agv.manufacturer agv.serial_number) made left)
                  ∙ ap (filters s.topics agv) all))
            there
