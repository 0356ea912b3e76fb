-- ===== src/Client/AutoTrack.antt =====
-- fleet_autotrack.go: the queue between the inbound path and the fleet session, with its worker.
-- Where a select finds two cases ready, an argument says whether it takes that of the context.
pub mod Drained
pub mod Kept
mod Examples
use navlink.Base.{
  ℕ, zero, suc, Bool, true, false, ◌&&◌, Option, none, some, List, [], ◌∷◌, ◌++◌, if◌then◌else◌,
}
use navlink.Base.Text.{GoString, text}
use navlink.Errors.{GoError, message}
use navlink.Session.{Agv, Session, ConnectionState, handle_connection}
use navlink.Session.Broker.{Net}
use navlink.Inbound.{Envelope}
use navlink.Mqtt.Queue.{Queue, new_queue, offer, serve}

-- fleetConnJob
pub record FleetConnJob (V : Type 0) : Type 0 where
  pub agv : Agv
  pub state : ConnectionState
  pub env : Envelope V

-- fleetAutoTrackQueueSize
abbrev pub fleet_auto_track_queue_size : ℕ
fleet_auto_track_queue_size = 64

-- errFleetAutoTrackQueueFull
abbrev pub queue_full : {E : Type 0} → GoError E
queue_full = message (text "navlink: fleet auto-track queue full")

-- The fields of Client that auto-track uses: the session, fleetJobs, whether the context of fleetStop
-- is done, and whether the worker runs. `listening` says whether OnHandlerError is set, and `reports`
-- is what it heard.
pub record AutoTrack (E W U H V : Type 0) : Type 0 where
  pub fleet : Option (Session W U H)
  pub jobs : Option (Queue (FleetConnJob V))
  pub canceled : Bool
  pub working : Bool
  pub listening : Bool
  pub reports : List (Envelope V × GoError E)

-- c.fleet != nil && c.fleet.AutoTrackFromConnection()
abbrev pub opted : {W U H : Type 0} → Option (Session W U H) → Bool
opted none = false
opted (some s) = s.opts.auto_track_from_connection

module _ {E W U H V : Type 0} where
  -- startFleetAutoTrack
  unfoldable pub start_auto : AutoTrack E W U H V → AutoTrack E W U H V
  start_auto c =
      if opted c.fleet
      then record c { jobs = some new_queue; canceled = false; working = true }
      else c

  -- reportFleetTrackError
  pub report : AutoTrack E W U H V → Envelope V → GoError E → AutoTrack E W U H V
  report c env e = if c.listening then record c { reports = c.reports ++ ((env, e) ∷ []) } else c

  -- The select of scheduleAutoTrack; `sent` is the queue with the job, if there is room.
  send :
      AutoTrack E W U H V
      → Bool
      → Envelope V
      → Option (Queue (FleetConnJob V))
      → AutoTrack E W U H V
  unfolding report
  send c picks_done env (some q) =
      if c.canceled && picks_done then c else record c { jobs = some q }
  send c picks_done env none = if c.canceled then c else report c env queue_full

  schedule_on :
      AutoTrack E W U H V
      → Bool
      → Envelope V
      → ConnectionState
      → Option (Queue (FleetConnJob V))
      → AutoTrack E W U H V
  unfolding send
  schedule_on c picks_done env state none = c
  schedule_on c picks_done env state (some q) = send c picks_done env (
      offer fleet_auto_track_queue_size q (record {
        agv = record { manufacturer = env.agv.manufacturer; serial_number = env.agv.serial_number };
        state = state;
        env = env;
      }))

  -- scheduleAutoTrack
  pub schedule : AutoTrack E W U H V → Bool → Envelope V → ConnectionState → AutoTrack E W U H V
  unfolding schedule_on
  schedule c picks_done env state =
      if opted c.fleet then schedule_on c picks_done env state c.jobs else c

  handled :
      AutoTrack E W U H V → Envelope V → Session W U H × Option (GoError E) → AutoTrack E W U H V
  unfolding report
  handled c env (s, none) = record c { fleet = some s }
  handled c env (s, some e) = report (record c { fleet = some s }) env e

module _ {E W U H V : Type 0} (net : Net E W U) where
  handle_job : AutoTrack E W U H V → FleetConnJob V → Option (Session W U H) → AutoTrack E W U H V
  unfolding handled
  handle_job c job none = c
  handle_job c job (some s) = handled c job.env (handle_connection net s job.agv job.state)

  -- What runFleetAutoTrack does with a job from fleetJobs: nothing happens until one is there.
  take_job :
      AutoTrack E W U H V → Queue (FleetConnJob V) × Option (FleetConnJob V) → AutoTrack E W U H V
  unfolding handle_job
  take_job c (q, none) = c
  take_job c (q, some job) = handle_job (record c { jobs = some q }) job c.fleet

  receive_job : AutoTrack E W U H V → Option (Queue (FleetConnJob V)) → AutoTrack E W U H V
  unfolding take_job
  receive_job c none = c
  receive_job c (some q) = take_job c (serve q)

  -- One round of runFleetAutoTrack.
  pub work : AutoTrack E W U H V → Bool → AutoTrack E W U H V
  unfolding receive_job
  work c picks_done =
      if c.working
      then if c.canceled && picks_done then record c { working = false } else receive_job c c.jobs
      else c

  -- `n` receives that succeed or find no job.
  pub works : ℕ → AutoTrack E W U H V → AutoTrack E W U H V
  unfolding work
  works zero c = c
  works (suc n) c = works n (work c false)

  -- stopFleetAutoTrack, of which the worker, until it sees that the context is done, takes `n` jobs.
  pub stop_auto : ℕ → AutoTrack E W U H V → AutoTrack E W U H V
  unfolding works
  stop_auto n c = record (work (works n (record c { canceled = true })) true) {
    jobs = none;
    canceled = false;
  }
