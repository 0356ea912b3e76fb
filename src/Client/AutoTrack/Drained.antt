-- ===== src/Client/AutoTrack/Drained.antt =====
-- fleet_autotrack.go runFleetAutoTrack: every job that waits is handled.
use navlink.Base.{
  ◌≡◌, refl, sym, ap, ◌∙◌, subst, true, false, ◌&&◌, Option, none, some, List, [], ◌∷◌, if_cases,
  if◌then◌else◌,
}
use navlink.Base.Lists.{length}
use navlink.Errors.{GoError}
use navlink.Session.{Session, handle_connection}
use navlink.Session.Broker.{Net}
use navlink.Inbound.{Envelope}
use navlink.Mqtt.Queue.{Queue, serve, serve-cons}
use navlink.Client.AutoTrack.{
  FleetConnJob, AutoTrack, report, handled, handle_job, take_job, receive_job, work, works,
}

module _ {E W U H V : Type 0} (net : Net E W U) where
  -- HandleConnection for each job in turn.
  pub handle_all : Session W U H → List (FleetConnJob V) → Session W U H
  handle_all s [] = s
  handle_all s (job ∷ jobs) = handle_all (handle_connection net s job.agv job.state).0 jobs

  -- The worker runs, its context is not done, and the queue is `q`.
  pub record Running (c : AutoTrack E W U H V) (s : Session W U H) (q : Queue (FleetConnJob V))
      : Type 0 where
    pub working : c.working ≡ true
    pub canceled : c.canceled ≡ false
    pub jobs : c.jobs ≡ some q
    pub fleet : c.fleet ≡ some s

  report-Running :
      (c : AutoTrack E W U H V) (env : Envelope V) (e : GoError E) (s : Session W U H)
      (q : Queue (FleetConnJob V))
      → Running c s q
      → Running (report c env e) s q
  unfolding report
  report-Running c env e s q r =
      if_cases {A = AutoTrack E W U H V} (λ d. Running d s q) c.listening
        (λ _. record { working = r.working; canceled = r.canceled; jobs = r.jobs; fleet = r.fleet })
        (λ _. r)

  handled-Running :
      (c : AutoTrack E W U H V) (env : Envelope V) (r : Session W U H × Option (GoError E))
      (q : Queue (FleetConnJob V))
      → c.working ≡ true
      → c.canceled ≡ false
      → c.jobs ≡ some q
      → Running (handled c env r) r.0 q
  unfolding handled
  handled-Running c env (s, none) q on live jobs = record {
    working = on;
    canceled = live;
    jobs = jobs;
    fleet = refl;
  }
  handled-Running c env (s, some e) q on live jobs =
      report-Running (record c { fleet = some s }) env e s q
        (record { working = on; canceled = live; jobs = jobs; fleet = refl })

  take_job-Running :
      (c : AutoTrack E W U H V) (s : Session W U H) (q rest : Queue (FleetConnJob V))
      (job : FleetConnJob V)
      → Running c s q
      → Running (take_job net c (rest, some job)) (handle_connection net s job.agv job.state).0 rest
  unfolding take_job handle_job
  take_job-Running c s q rest job r =
      subst
        (λ fleet.
          Running (handle_job net (record c { jobs = some rest }) job fleet)
            (handle_connection net s job.agv job.state).0 rest)
        (sym r.fleet)
        (handled-Running (record c { jobs = some rest }) job.env
          (handle_connection net s job.agv job.state) rest r.working r.canceled refl)

  work-take_job :
      (c : AutoTrack E W U H V) (s : Session W U H) (q : Queue (FleetConnJob V))
      → Running c s q
      → work net c false ≡ take_job net c (serve q)
  unfolding work receive_job
  work-take_job c s q r =
      ap
        (λ b.
          if b
          then if c.canceled && false
            then record c { working = false }
            else receive_job net c c.jobs
          else c)
        r.working
      ∙ ap (λ b. if b && false then record c { working = false } else receive_job net c c.jobs)
          r.canceled
      ∙ ap (receive_job net c) r.jobs

  work-Running :
      (c : AutoTrack E W U H V) (s : Session W U H) (q : Queue (FleetConnJob V))
      (job : FleetConnJob V) (jobs : List (FleetConnJob V))
      → q.waiting ≡ job ∷ jobs
      → Running c s q
      → Running
          (work net c false)
          (handle_connection net s job.agv job.state).0
          (record { waiting = jobs })
  work-Running c s q job jobs waiting r =
      subst
        (λ d. Running d (handle_connection net s job.agv job.state).0 (record { waiting = jobs }))
        (sym (work-take_job c s q r ∙ ap (take_job net c) (serve-cons q job jobs waiting)))
        (take_job-Running c s q (record { waiting = jobs }) job r)

  -- What a drained client is left with: every one of `jobs` was handled.
  pub record Handled (s : Session W U H) (jobs : List (FleetConnJob V)) (c : AutoTrack E W U H V)
      : Type 0 where
    pub queue : Queue (FleetConnJob V)
    pub running : Running c (handle_all s jobs) queue
    pub empty : queue.waiting ≡ []

  works-all :
      (jobs : List (FleetConnJob V)) (c : AutoTrack E W U H V) (s : Session W U H)
      (q : Queue (FleetConnJob V))
      → q.waiting ≡ jobs
      → Running c s q
      → Handled s jobs (works net (length jobs) c)
  unfolding works handle_all
  works-all [] c s q waiting r = record { queue = q; running = r; empty = waiting }
  works-all (job ∷ jobs) c s q waiting r =
      let rest =
        works-all jobs (work net c false) (handle_connection net s job.agv job.state).0
          (record { waiting = jobs }) refl (work-Running c s q job jobs waiting r) in
      record { queue = rest.queue; running = rest.running; empty = rest.empty }

  -- While the worker runs and its context is not done, it needs as many rounds as jobs wait to have
  -- handled every one of them: the session has had HandleConnection for each job, in the order in
  -- which they waited and whatever errors there were, and no job waits.
  pub works-Handled :
      (c : AutoTrack E W U H V) (s : Session W U H) (q : Queue (FleetConnJob V))
      → Running c s q
      → Handled s q.waiting (works net (length q.waiting) c)
  works-Handled c s q = works-all q.waiting c s q refl
