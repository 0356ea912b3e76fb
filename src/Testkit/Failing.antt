-- ===== src/Testkit/Failing.antt =====
-- testkit/fake_broker.go: a Publish that HangNextPublish has prepared.
use navlink.Base.{ℕ, ◌≡◌, refl, Bool, true, false, Option, none, some, List, arith, if_cases, ltb}
use navlink.Base.Text.{GoString}
use navlink.Errors.{Gerr, GoError, is_kind, is_canceled, is_deadline_exceeded}
use navlink.Publish.{classify_publish, uncertain, was_attempted, mark_attempted}
use navlink.Agv.Messages.{PublishOptions}
use navlink.Mqtt.Wait.{CtxErr, past_deadline, ctx_error}
use navlink.Testkit.{FakeBroker, hang_next_publish, hung, publish_mode, publish}

module _ {E D X : Type 0} ⦃g : Gerr E⦄
    (handle : D → X → GoString → List ℕ → X × Option (GoError E)) where
  done-uncertain :
      (ctx_done : CtxErr)
      → classify_publish {E = E} (mark_attempted (some (ctx_error ctx_done))) ≡ uncertain
  unfolding classify_publish is_kind is_canceled is_deadline_exceeded was_attempted mark_attempted
  done-uncertain navlink.Mqtt.Wait.is_canceled = refl
  done-uncertain past_deadline = refl

  hung-uncertain :
      (d : ℕ) (ctx_done : CtxErr) (timer_first : Bool)
      → classify_publish (hung handle d ctx_done timer_first) ≡ uncertain
  unfolding hung classify_publish is_kind is_canceled is_deadline_exceeded was_attempted
      mark_attempted
  hung-uncertain d ctx_done true =
      if_cases {A = Option (GoError E)} (λ e. classify_publish e ≡ uncertain) (ltb 0 d)
        (λ _. simp g.matches-base) (λ _. done-uncertain ctx_done)
  hung-uncertain d ctx_done false =
      if_cases {A = Option (GoError E)} (λ e. classify_publish e ≡ uncertain) (ltb 0 d)
        (λ _. done-uncertain ctx_done) (λ _. done-uncertain ctx_done)

  -- On a running broker, the Publish after a HangNextPublish has an Uncertain outcome however the wait
  -- ends, calls no handler, captures nothing and takes the hang back.
  pub hang_next_publish-publish :
      (b : FakeBroker E D) (d : ℕ) (ctx_done : CtxErr) (timer_first : Bool) (x : X)
      (topic : GoString) (payload : List ℕ) (opts : PublishOptions)
      → b.running ≡ true
      → let r = publish handle (hang_next_publish b d) ctx_done timer_first x topic payload opts in
        (r.0 ≡ record b { fail = none; hang = false; hang_for = d })
        × (r.1 ≡ x)
        × (classify_publish r.2 ≡ uncertain)
  unfolding hang_next_publish publish publish_mode
  hang_next_publish-publish b d ctx_done timer_first x topic payload opts up =
      let h = hung-uncertain d ctx_done timer_first in ground arith
