-- ===== src/Client/AutoTrack/Kept.antt =====
-- fleet_autotrack.go: what scheduling and the worker leave as it is, and what a stop leaves.
use navlink.Base.{
  ℕ, zero, suc, ◌≡◌, refl, sym, ap, ◌∙◌, Bool, true, false, ◌&&◌, Option, none, some, if_cases,
}
use navlink.Errors.{GoError}
use navlink.Session.{Session, ConnectionState}
use navlink.Session.Broker.{Net}
use navlink.Session.Opts.{handle_connection-HasOpts}
use navlink.Inbound.{Envelope}
use navlink.Mqtt.Queue.{Queue, serve}
use navlink.Client.AutoTrack.{
  FleetConnJob, AutoTrack, queue_full, opted, report, send, schedule_on, schedule, handled,
  handle_job, take_job, receive_job, work, works, stop_auto,
}

-- fleetJobs is not nil
abbrev pub queued {ℓ} : {A : Type ℓ} → Option A → Bool
queued none = false
queued (some _) = true

and_false : (b : Bool) → (b && false) ≡ false
and_false true = refl
and_false false = refl

module _ {E W U H V : Type 0} where
  -- The options, the worker, its context and whether there is a queue.
  pub record Kept (a b : AutoTrack E W U H V) : Type 0 where
    pub fleet : opted b.fleet ≡ opted a.fleet
    pub working : b.working ≡ a.working
    pub canceled : b.canceled ≡ a.canceled
    pub jobs : queued b.jobs ≡ queued a.jobs

  kept : (a : AutoTrack E W U H V) → Kept a a
  kept a = record { fleet = refl; working = refl; canceled = refl; jobs = refl }

  report-Kept :
      (a : AutoTrack E W U H V) (env : Envelope V) (e : GoError E) → Kept a (report a env e)
  unfolding report
  report-Kept a env e =
      if_cases {A = AutoTrack E W U H V} (Kept a) a.listening
        (λ _. record { fleet = refl; working = refl; canceled = refl; jobs = refl }) (λ _. kept a)

  send-Kept :
      (a : AutoTrack E W U H V) (picks_done : Bool) (env : Envelope V)
      (sent : Option (Queue (FleetConnJob V)))
      → queued a.jobs ≡ true
      → Kept a (send a picks_done env sent)
  unfolding send
  send-Kept a picks_done env (some q) on =
      if_cases {A = AutoTrack E W U H V} (Kept a) (a.canceled && picks_done) (λ _. kept a)
        (λ _. record { fleet = refl; working = refl; canceled = refl; jobs = sym on })
  send-Kept a picks_done env none on =
      if_cases {A = AutoTrack E W U H V} (Kept a) a.canceled (λ _. kept a)
        (λ _. report-Kept a env queue_full)

  schedule_on-Kept :
      (a : AutoTrack E W U H V) (picks_done : Bool) (env : Envelope V) (state : ConnectionState)
      (jobs : Option (Queue (FleetConnJob V)))
      → a.jobs ≡ jobs
      → Kept a (schedule_on a picks_done env state jobs)
  unfolding schedule_on
  schedule_on-Kept a picks_done env state none here = kept a
  schedule_on-Kept a picks_done env state (some q) here =
      send-Kept a picks_done env _ (ap (λ jobs. queued jobs) here)

  pub schedule-Kept :
      (a : AutoTrack E W U H V) (picks_done : Bool) (env : Envelope V) (state : ConnectionState)
      → Kept a (schedule a picks_done env state)
  unfolding schedule
  schedule-Kept a picks_done env state =
      if_cases {A = AutoTrack E W U H V} (Kept a) (opted a.fleet)
        (λ _. schedule_on-Kept a picks_done env state a.jobs refl) (λ _. kept a)

  handled-Kept :
      (a b : AutoTrack E W U H V) (env : Envelope V) (s : Session W U H)
      (r : Session W U H × Option (GoError E))
      → Kept a b
      → b.fleet ≡ some s
      → r.0.opts ≡ s.opts
      → Kept a (handled b env r)
  unfolding handled
  handled-Kept a b env s (t, e) k here opts = go e
    where
      same : opted (some t) ≡ opted a.fleet
      same = ap (λ o. o.auto_track_from_connection) opts ∙ ap (λ f. opted f) (sym here) ∙ k.fleet

      go : (e : Option (GoError E)) → Kept a (handled b env (t, e))
      go none = record { fleet = same; working = k.working; canceled = k.canceled; jobs = k.jobs }
      go (some e) =
          let h = report-Kept (record b { fleet = some t }) env e in
          record {
            fleet = h.fleet ∙ same;
            working = h.working ∙ k.working;
            canceled = h.canceled ∙ k.canceled;
            jobs = h.jobs ∙ k.jobs;
          }

  -- The worker of a context that is done ends when it sees that.
  record Ended (a b : AutoTrack E W U H V) : Type 0 where
    fleet : opted b.fleet ≡ opted a.fleet
    working : b.working ≡ false

  -- There is no worker and no queue, and the next context is not done.
  pub record Stopped (a b : AutoTrack E W U H V) : Type 0 where
    pub fleet : opted b.fleet ≡ opted a.fleet
    pub working : b.working ≡ false
    pub jobs : queued b.jobs ≡ false
    pub canceled : b.canceled ≡ false

module _ {E W U H V : Type 0} (net : Net E W U) where
  handle_job-Kept :
      (a b : AutoTrack E W U H V) (job : FleetConnJob V) (fleet : Option (Session W U H))
      → Kept a b
      → b.fleet ≡ fleet
      → Kept a (handle_job net b job fleet)
  unfolding handle_job
  handle_job-Kept a b job none k here = k
  handle_job-Kept a b job (some s) k here =
      handled-Kept a b job.env s _ k here (handle_connection-HasOpts net s job.agv job.state)

  receive_job-Kept :
      (a : AutoTrack E W U H V) (jobs : Option (Queue (FleetConnJob V)))
      → a.jobs ≡ jobs
      → Kept a (receive_job net a jobs)
  unfolding receive_job take_job
  receive_job-Kept a none here = kept a
  receive_job-Kept a (some q) here = go (serve q)
    where
      go : (r : Queue (FleetConnJob V) × Option (FleetConnJob V)) → Kept a (take_job net a r)
      go (q', none) = kept a
      go (q', some job) =
          handle_job-Kept a _ job a.fleet
            (record {
              fleet = refl;
              working = refl;
              canceled = refl;
              jobs = sym (ap (λ jobs. queued jobs) here);
            })
            refl

  pub work-Kept :
      (a : AutoTrack E W U H V) (picks_done : Bool)
      → (a.canceled && picks_done) ≡ false
      → Kept a (work net a picks_done)
  unfolding work
  work-Kept a picks_done open_yet =
      if_cases {A = AutoTrack E W U H V} (Kept a) a.working
        (λ _.
          if_cases {A = AutoTrack E W U H V} (Kept a) (a.canceled && picks_done)
            (λ done. absurd (cc (done, open_yet))) (λ _. receive_job-Kept a a.jobs refl))
        (λ _. kept a)

  works-Kept : (n : ℕ) (a : AutoTrack E W U H V) → Kept a (works net n a)
  unfolding works
  works-Kept zero a = kept a
  works-Kept (suc n) a =
      let h = work-Kept a false (and_false a.canceled) in
      let k = works-Kept n (work net a false) in
      record {
        fleet = k.fleet ∙ h.fleet;
        working = k.working ∙ h.working;
        canceled = k.canceled ∙ h.canceled;
        jobs = k.jobs ∙ h.jobs;
      }

  work-Ended : (a : AutoTrack E W U H V) → a.canceled ≡ true → Ended a (work net a true)
  unfolding work
  work-Ended a done =
      if_cases {A = AutoTrack E W U H V} (Ended a) a.working
        (λ _.
          if_cases {A = AutoTrack E W U H V} (Ended a) (a.canceled && true)
            (λ _. record { fleet = refl; working = refl })
            (λ live. absurd (cc (sym live ∙ ap (λ b. b && true) done))))
        (λ off. record { fleet = refl; working = off })

  -- What stopFleetAutoTrack leaves, however many jobs the worker takes before it ends.
  pub stop_auto-Stopped : (n : ℕ) (a : AutoTrack E W U H V) → Stopped a (stop_auto net n a)
  unfolding stop_auto
  stop_auto-Stopped n a =
      let h = works-Kept n (record a { canceled = true }) in
      let k = work-Ended (works net n (record a { canceled = true })) h.canceled in
      record { fleet = k.fleet ∙ h.fleet; working = k.working; jobs = refl; canceled = refl }
