-- ===== src/Client/Whole/Examples.antt =====
-- client.go and fleet_autotrack.go: tests, on a transport that hands out numbers and counts.
use navlink.Base.{
  ℕ, suc, if◌then◌else◌, nat_beq, ◌≡◌, refl, true, false, none, some, List, [], ◌∷◌, Option,
}
use navlink.Base.Result.{ok}
use navlink.Base.Text.{text}
use navlink.Errors.{GoError, canceled}
use navlink.Errors.Kinds.{ErrorKind}
use navlink.Errors.Sample.{kind_gerr}
use navlink.Config.{default_fleet_options}
use navlink.Session.{Session, new_session, is_online}
use navlink.Inbound.{Envelope, bare_envelope}
use navlink.Client.{Transport}
use navlink.Client.Whole.{WholeClient, Step, starts, stops, schedules, rounds, drop_events, run}
use navlink.Client.Whole.Settled.{Settled, run-Settled}

abbrev wire : Transport ErrorKind ℕ ℕ
wire = record {
  start = λ w. (w, none);
  stop = λ w. (w, none);
  net = record { subscribe = λ w f. (suc w, ok w); unsubscribe = λ w u. (w, none) };
}

abbrev session : Session ℕ ℕ ℕ
session =
    new_session (record { interface = text "uagv"; version = text "v2" })
      (record default_fleet_options { auto_track_from_connection = true }) 0

-- The bus hears what is unsubscribed; the handle 7 gives an error.
abbrev unsubscribe : List ℕ → ℕ → List ℕ × Option (GoError ErrorKind)
unsubscribe b u = (u ∷ b, if nat_beq u 7 then some canceled else none)

abbrev idle : WholeClient ErrorKind ℕ ℕ ℕ ℕ (List ℕ) ℕ
idle = record {
  client = record {
    manufacturer = [];
    serial_number = [];
    topics = record { interface = text "uagv"; version = text "v2" };
    fleet = some session;
    started = false;
    unsubs = [];
    want_state = false;
    want_conn = true;
    want_viz = false;
    want_fs = false;
    filters = [];
    world = 0;
  };
  auto = record {
    fleet = none;
    jobs = none;
    canceled = false;
    working = false;
    listening = true;
    reports = [];
  };
  bus = [];
  bus_unsubs = some 1 ∷ none ∷ some 7 ∷ [];
}

abbrev env : Envelope ℕ
env = record (bare_envelope [] []) {
  agv = record { manufacturer = text "ACME"; serial_number = text "AGV-1" };
}

abbrev day : List (Step ℕ)
day = starts ∷ schedules false env is_online ∷ rounds false ∷ stops 0 ∷ []

run-Settled_example : Settled (run wire unsubscribe idle day)
run-Settled_example =
    run-Settled wire unsubscribe day idle (record { working = refl; jobs = refl; canceled = refl })

-- A Stop unsubscribes on the bus from the last handle to the first, and returns its error.
drop_events_test :
    drop_events unsubscribe [] (some 7 ∷ none ∷ some 1 ∷ []) ≡ (1 ∷ 7 ∷ [], some canceled)
unfolding drop_events
drop_events_test = refl
