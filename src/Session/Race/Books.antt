-- ===== src/Session/Race/Books.antt =====
-- internal/session/fleet.go: every interleaving keeps the books, counting what goroutines carry.
use navlink.Base.{
  ℕ, zero, suc, ◌+◌, ◌≡◌, refl, ap, Bool, Option, none, some, List, [], ◌∷◌, ◌++◌, arith,
  Comparable,
}
use navlink.Base.Result.{Result, ok, err}
use navlink.Base.Text.{string_eq}
use navlink.Base.Dict.{lookup}
use navlink.Errors.{GoError}
use navlink.Topic.{Resolver}
use navlink.Topic.Channels.{Channel}
use navlink.Config.{FleetOptions}
use navlink.Session.Count.{count, count-append, count-reverse}
use navlink.Session.Broker.{Net, Keeps}
use navlink.Session.Tracked.{held-insert, held-delete, insert-Keyed, delete-Keyed}
use navlink.Session.Balance.{owned, Subscribed, subscribe-Subscribed, Balanced, start-Balanced}
use navlink.Session.Balance.Methods.{clear-Balanced}
use navlink.Session.{Agv, key, TrackedAgv, Session, new_session}
use navlink.Session.Race.{
  Pc, idle, subscribing, leaving, Choice, tracks, untracks, starts, clears, goes, enter_track,
  enter_untrack, settle, subscribed, advance, begin, turn, System, Step, pick, Reach, here, later,
  resting,
}

module _ {U H : Type 0} ⦃e : Comparable U⦄ where
  -- The handles that a goroutine carries.
  abbrev pub carried : U → Pc U H → ℕ
  carried v idle = 0
  carried v (subscribing agv notify us chs) = count v us
  carried v (leaving us hooks) = count v us

  abbrev pub carried_by : U → List (Pc U H) → ℕ
  carried_by v [] = 0
  carried_by v (p ∷ ps) = carried v p + carried_by v ps

  carried_by-append :
      (v : U) (ps qs : List (Pc U H)) → carried_by v (ps ++ qs) ≡ carried_by v ps + carried_by v qs
  carried_by-append v [] qs = omega arith
  carried_by-append v (p ∷ ps) qs = omega (arith, carried_by-append v ps qs)

carried_by-resting :
    {U : Type 0} (H : Type 0) ⦃e : Comparable U⦄ (v : U) (n : ℕ)
    → carried_by v (resting {U = U} {H = H} n) ≡ 0
carried_by-resting H v zero = refl
carried_by-resting H v (suc n) = omega (arith, carried_by-resting H v n)

module _ {E W U H : Type 0} ⦃e : Comparable U⦄ {net : Net E W U} (keeps : Keeps net)
    (rest : U → ℕ) where
  open keeps use {live}

  -- The books of a session, of which one goroutine is at `p` and others carry `rest`.
  abbrev At : Session W U H × Pc U H → Type 0
  At (s, p) = Balanced keeps (λ v. rest v + carried v p) s

  subscribed-At :
      (s : Session W U H) (agv : Agv) (notify : Bool) (us : List U) (chs : List Channel)
      (r : W × Result (GoError E) U)
      → Subscribed keeps s.world r
      → At (s, subscribing agv notify us chs)
      → At (subscribed net s agv notify us chs r)
  unfolding subscribed
  subscribed-At s agv notify us chs (w, err x) made b = record {
    books = λ v. omega (arith, made v, b.books v, count-reverse v us);
    keyed = b.keyed;
    connected = b.connected;
  }
  subscribed-At s agv notify us chs (w, ok u) made b = record {
    books = λ v. omega (arith, made v, b.books v, count-append v us (u ∷ []));
    keyed = b.keyed;
    connected = b.connected;
  }

  settle-At :
      (s : Session W U H) (agv : Agv) (notify : Bool) (us : List U) (found : Option (TrackedAgv U))
      → lookup (key agv) s.tracked ≡ found
      → At (s, subscribing agv notify us [])
      → At (settle net s agv notify us found)
  unfolding settle
  settle-At s agv notify us (some t) h b = record {
    books = λ v. omega (arith, b.books v, count-reverse v us);
    keyed = b.keyed;
    connected = b.connected;
  }
  settle-At s agv notify us none h b = record {
    books = λ v.
        omega (
          arith,
          held-insert v (key agv) (record { agv = agv; unsubs = us }) s.tracked h,
          b.books v,
        );
    keyed = insert-Keyed (record { agv = agv; unsubs = us }) s.tracked h b.keyed;
    connected = b.connected;
  }

  advance-At : (s : Session W U H) (p : Pc U H) → At (s, p) → At (advance net s p)
  unfolding advance
  advance-At s idle b = b
  advance-At s (subscribing agv notify us []) b = settle-At s agv notify us _ refl b
  advance-At s (subscribing agv notify us (ch ∷ chs)) b =
      subscribed-At s agv notify us chs _ (subscribe-Subscribed keeps s.world _)
        (record { books = b.books; keyed = b.keyed; connected = b.connected })
  advance-At s (leaving (u ∷ us) hooks) b = record {
    books = λ v. omega (arith, keeps.unsubscribe-live s.world u v, b.books v);
    keyed = b.keyed;
    connected = b.connected;
  }
  advance-At s (leaving [] hooks) b = record {
    books = b.books;
    keyed = b.keyed;
    connected = b.connected;
  }

  enter_track-At :
      (s : Session W U H) (agv : Agv) (notify : Bool) (found : Option (TrackedAgv U))
      → At (s, idle)
      → At (enter_track net s agv notify found)
  unfolding enter_track
  enter_track-At s agv notify (some t) b = b
  enter_track-At s agv notify none b = b

  enter_untrack-At :
      (s : Session W U H) (agv : Agv) (notify : Bool) (found : Option (TrackedAgv U))
      → lookup (key agv) s.tracked ≡ found
      → At (s, idle)
      → At (enter_untrack net s agv notify found)
  unfolding enter_untrack
  enter_untrack-At s agv notify none h b = b
  enter_untrack-At s agv notify (some t) h b = record {
    books = λ v.
        omega (
          arith,
          b.books v,
          held-delete v (key agv) t s.tracked b.keyed h,
          count-reverse v t.unsubs,
        );
    keyed = delete-Keyed (key agv) s.tracked b.keyed;
    connected = b.connected;
  }

  begin-At : (s : Session W U H) (c : Choice) → At (s, idle) → At (begin net s c)
  unfolding begin
  begin-At s (tracks agv notify) b = enter_track-At s agv notify _ b
  begin-At s (untracks agv notify) b = enter_untrack-At s agv notify _ refl b
  begin-At s starts b = start-Balanced keeps _ s b
  begin-At s clears b = clear-Balanced keeps _ s b
  begin-At s goes b = b

  turn-At : (s : Session W U H) (c : Choice) (p : Pc U H) → At (s, p) → At (turn net s c p)
  unfolding turn
  turn-At s c idle b = begin-At s c b
  turn-At s c (subscribing agv notify us chs) b = advance-At s (subscribing agv notify us chs) b
  turn-At s c (leaving us hooks) b = advance-At s (leaving us hooks) b

module _ {E W U H : Type 0} ⦃e : Comparable U⦄ {net : Net E W U} (keeps : Keeps net)
    (other : U → ℕ) where
  open keeps use {live}

  abbrev pub AllBalanced : System W U H → Type 0
  AllBalanced x = Balanced keeps (λ v. other v + carried_by v x.goroutines) x.session

  reweigh :
      (f g : U → ℕ) (s : Session W U H)
      → ((v : U) → f v ≡ g v)
      → Balanced keeps f s
      → Balanced keeps g s
  reweigh f g s same b = record {
    books = λ v. omega (arith, b.books v, same v);
    keyed = b.keyed;
    connected = b.connected;
  }

  Step-AllBalanced : {x y : System W U H} → Step net x y → AllBalanced x → AllBalanced y
  Step-AllBalanced {x} (pick before after p c at_p) b =
      reweigh _ _ _ (λ v. omega (arith, carried_by-append v before (q ∷ after)))
        (turn-At keeps others x.session c p (
          reweigh _ _ x.session
            (λ v. omega (arith, ap (carried_by v) at_p, carried_by-append v before (p ∷ after))) b))
    where
      q : Pc U H
      q = (turn net x.session c p).1

      others : U → ℕ
      others v = other v + carried_by v before + carried_by v after

  Reach-AllBalanced : {x y : System W U H} → Reach net x y → AllBalanced x → AllBalanced y
  Reach-AllBalanced here b = b
  Reach-AllBalanced (later r st) b = Step-AllBalanced st (Reach-AllBalanced r b)

-- A new session, with `n` goroutines that are in no call.
abbrev pub new_system : {W U H : Type 0} → ℕ → Resolver → FleetOptions → W → System W U H
new_system n topics opts w = record { session = new_session topics opts w; goroutines = resting n }

module _ {E W U H : Type 0} ⦃e : Comparable U⦄ {net : Net E W U} (keeps : Keeps net) where
  open keeps use {live}

  new_system-AllBalanced :
      (n : ℕ) (topics : Resolver) (opts : FleetOptions) (w : W)
      → AllBalanced keeps (live w) (new_system {H = H} n topics opts w)
  unfolding new_session
  new_system-AllBalanced n topics opts w = record {
    books = λ v. omega (arith, carried_by-resting H v n);
    keyed = tt;
    connected = refl;
  }

  -- However calls of track and untrack, Start, and the section of Restore under the mutex
  -- interleave, on a transport that keeps one subscription for each handle and from a new session
  -- on, a handle is live as often as it was at first, and once for each time that the session holds
  -- it or a goroutine in a call carries it; so when no goroutine is in a call, the subscriptions made
  -- are exactly those that the session holds.
  pub race-live :
      (n m : ℕ) (topics : Resolver) (opts : FleetOptions) (w : W) (y : System W U H)
      → Reach net (new_system n topics opts w) y
      → (u : U)
      → (live y.session.world u ≡ live w u + (owned u y.session + carried_by u y.goroutines))
        × (y.goroutines ≡ resting m → live y.session.world u ≡ live w u + owned u y.session)
  race-live n m topics opts w y r u = (
    omega (arith, b.books u),
    λ all. omega (arith, b.books u, ap (carried_by u) all, carried_by-resting H u m),
  )
    where
      b : AllBalanced keeps (live w) y
      b = Reach-AllBalanced keeps (live w) r (new_system-AllBalanced n topics opts w)
