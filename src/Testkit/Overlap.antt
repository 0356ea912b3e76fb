-- ===== src/Testkit/Overlap.antt =====
-- internal/session/fleet.go: tests of calls that overlap, on an in-process broker and on one whose
-- subscriptions are by filter.
use navlink.Base.{
  append-nil, ℕ, ◌+◌, ◌≡◌, refl, Bool, true, false, not, ◌&&◌, ◌||◌, none, List, [], ◌∷◌, ◌++◌,
  arith, nat_eq, ◌==◌, if◌then◌else◌,
}
use navlink.Base.Result.{ok}
use navlink.Base.Text.{str_beq, GoString, text, string_eq, str_beq_iff}
use navlink.Base.Dict.{lookup}
use navlink.Errors.Kinds.{ErrorKind}
use navlink.Errors.Sample.{kind_gerr}
use navlink.Topic.{Resolver}
use navlink.Config.{default_fleet_options}
use navlink.Session.{Agv, key, Session, new_session, channels}
use navlink.Session.Broker.{Net}
use navlink.Session.Balance.{owned}
use navlink.Session.Effects.{IsTracked}
use navlink.Session.Race.{Pc, tracks, System, Reach, here, later, pick, begin, turn, resting}
use navlink.Session.Race.Books.{carried_by, new_system, race-live}
use navlink.Session.Race.Alone.{alone}
use navlink.Session.Race.Loser.{ByFilter, filters, Unheard, raced-Unheard}
use navlink.Testkit.{FakeBroker, new_fake_broker}
use navlink.Testkit
use navlink.Testkit.Contract.{Fresh, present, broker_net, broker_net-Keeps}

-- Whether a filter is subscribed.
listens : List GoString → GoString → Bool
listens [] g = false
listens (f ∷ fs) g = let rest = listens fs g in f == g || rest

ends : GoString → List GoString → List GoString
ends f [] = []
ends f (g ∷ gs) = let rest = ends f gs in if f == g then rest else g ∷ rest

abbrev filter_net : Net ErrorKind (List GoString) GoString
unfolding ends
filter_net = record { subscribe = λ w f. (f ∷ w, ok f); unsubscribe = λ w f. (ends f w, none) }

listens-ends :
    (w : List GoString) (f g : GoString) → listens (ends f w) g ≡ (not (f == g) && listens w g)
unfolding listens ends
listens-ends [] f g = ground arith
listens-ends (h ∷ w) f g =
    ground (arith, listens-ends w f g, str_beq_iff f h, str_beq_iff f g, str_beq_iff h g)

abbrev filter_net-ByFilter : ByFilter filter_net
unfolding ends
filter_net-ByFilter = record {
  listening = listens;
  subscribe-ok = λ w f. refl;
  unsubscribe-listening = listens-ends;
}

abbrev uagv : Resolver
uagv = record { interface = text "uagv"; version = text "v2" }

abbrev agv_1 : Agv
agv_1 = record { manufacturer = text "ACME"; serial_number = text "AGV-1" }

abbrev filter_session : Session (List GoString) GoString ℕ
filter_session = new_session uagv default_fleet_options []

-- Another call has tracked the vehicle.
abbrev won : Session (List GoString) GoString ℕ
won = record filter_session {
  tracked = (key agv_1, record { agv = agv_1; unsubs = text "uagv/v2/ACME/AGV-1/state" ∷ [] }) ∷ [];
  world = text "uagv/v2/ACME/AGV-1/state" ∷ [];
}

won-IsTracked : IsTracked won agv_1
unfolding lookup str_beq
won-IsTracked e = cc e

-- The session after a track that has subscribed every channel by then.
abbrev lost : Session (List GoString) GoString ℕ
lost =
    (alone filter_net 6
      (won, Pc.subscribing agv_1 true (filters uagv agv_1 (channels default_fleet_options)) [])).0

raced-Unheard_example :
    IsTracked lost agv_1
    × Unheard filter_net-ByFilter uagv agv_1 (channels default_fleet_options) lost.world
unfolding new_session
raced-Unheard_example =
    raced-Unheard filter_net-ByFilter won agv_1 true (channels default_fleet_options) []
      won-IsTracked (append-nil (channels default_fleet_options))

abbrev Broker : Type 0
Broker = FakeBroker ErrorKind ℕ

abbrev running : Broker
unfolding new_fake_broker Testkit.start
running = Testkit.start new_fake_broker

running-Fresh : Fresh running
unfolding new_fake_broker Testkit.start lookup
running-Fresh id lt = refl

abbrev two_callers : System ((b : Broker) × Fresh b) ℕ ℕ
two_callers = new_system 2 uagv default_fleet_options (running, running-Fresh)

abbrev net : Net ErrorKind ((b : Broker) × Fresh b) ℕ
net = broker_net 0

-- A goroutine begins a track between the others `before` and `after`.
abbrev tracking :
    System ((b : Broker) × Fresh b) ℕ ℕ
    → List (Pc ℕ ℕ)
    → List (Pc ℕ ℕ)
    → System ((b : Broker) × Fresh b) ℕ ℕ
tracking x before after = record {
  session = (turn net x.session (tracks agv_1 true) Pc.idle).0;
  goroutines = before ++ (turn net x.session (tracks agv_1 true) Pc.idle).1 ∷ after;
}

abbrev one_in : System ((b : Broker) × Fresh b) ℕ ℕ
one_in = tracking two_callers [] (Pc.idle ∷ [])

abbrev first_pc : Pc ℕ ℕ
first_pc = (turn net two_callers.session (tracks agv_1 true) Pc.idle).1

-- Both have passed the first section.
abbrev both_in : System ((b : Broker) × Fresh b) ℕ ℕ
both_in = tracking one_in (first_pc ∷ []) []

both_in_reached : Reach net two_callers both_in
both_in_reached =
    later (later here (pick [] (Pc.idle ∷ []) Pc.idle (tracks agv_1 true) refl))
      (pick (first_pc ∷ []) [] Pc.idle (tracks agv_1 true) refl)

both_in_test :
    both_in.goroutines
    ≡ Pc.subscribing agv_1 true [] (channels default_fleet_options)
      ∷ Pc.subscribing agv_1 true [] (channels default_fleet_options)
      ∷ []
unfolding turn begin new_session lookup
both_in_test = refl

race-live_example :
    (present (lookup 1 both_in.session.world.0.subs)
      ≡ present (lookup 1 running.subs)
        + (owned 1 both_in.session + carried_by 1 both_in.goroutines))
    × (both_in.goroutines ≡ resting 2
        → present (lookup 1 both_in.session.world.0.subs)
          ≡ present (lookup 1 running.subs) + owned 1 both_in.session)
race-live_example =
    race-live (broker_net-Keeps 0) 2 2 uagv default_fleet_options (running, running-Fresh) both_in
      both_in_reached 1
