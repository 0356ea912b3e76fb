-- ===== src/Client/AutoTrack/Examples.antt =====
-- fleet_autotrack.go: tests, on the transport that hands out numbers.
use navlink.Base.{ℕ, zero, suc, ◌≡◌, refl, true, false, none, some, [], ◌∷◌}
use navlink.Base.Lists.{length}
use navlink.Base.Result.{ok}
use navlink.Base.Text.{text}
use navlink.Errors.Kinds.{ErrorKind}
use navlink.Config.{default_fleet_options}
use navlink.Session.{Session, new_session, is_online}
use navlink.Session.Broker.{Net}
use navlink.Inbound.{Envelope, bare_envelope}
use navlink.Mqtt.Queue.{Queue, offer}
use navlink.Client.AutoTrack.{FleetConnJob, AutoTrack, start_auto, report, schedule, works}
use navlink.Client.AutoTrack.Drained.{Handled, works-Handled}

abbrev net : Net ErrorKind ℕ ℕ
net = record { subscribe = λ w f. (suc w, ok w); unsubscribe = λ w u. (w, none) }

abbrev session : Session ℕ ℕ ℕ
session =
    new_session (record { interface = text "uagv"; version = text "v2" })
      (record default_fleet_options { auto_track_from_connection = true }) 0

abbrev idle : AutoTrack ErrorKind ℕ ℕ ℕ ℕ
idle = record {
  fleet = some session;
  jobs = none;
  canceled = false;
  working = false;
  listening = true;
  reports = [];
}

abbrev env : Envelope ℕ
env = record (bare_envelope [] []) {
  agv = record { manufacturer = text "ACME"; serial_number = text "AGV-1" };
}

-- A job for which 64 others wait is reported.
abbrev many : ℕ → AutoTrack ErrorKind ℕ ℕ ℕ ℕ → AutoTrack ErrorKind ℕ ℕ ℕ ℕ
unfolding schedule
many zero c = c
many (suc n) c = many n (schedule c false env is_online)

full_test :
    (length (many 64 (start_auto idle)).reports ≡ 0)
    × (length (many 65 (start_auto idle)).reports ≡ 1)
unfolding start_auto schedule report offer new_session
full_test = (refl, refl)

abbrev job : FleetConnJob ℕ
job = record {
  agv = record { manufacturer = text "ACME"; serial_number = text "AGV-1" };
  state = is_online;
  env = env;
}

abbrev waiting : Queue (FleetConnJob ℕ)
waiting = record { waiting = job ∷ job ∷ [] }

abbrev busy : AutoTrack ErrorKind ℕ ℕ ℕ ℕ
busy = record idle { jobs = some waiting; working = true }

works-Handled_example : Handled net session (job ∷ job ∷ []) (works net 2 busy)
works-Handled_example =
    works-Handled net busy session waiting
      (record { working = refl; canceled = refl; jobs = refl; fleet = refl })
