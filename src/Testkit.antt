-- ===== src/Testkit.antt =====
-- testkit/fake_broker.go: FakeBroker, the in-process transport. A `range` over its subscriptions
-- takes them in the order of the list; its handlers do not call the broker.
pub mod Filters
pub mod Contract
pub mod Failing
pub mod Wildcards
pub mod Fleet
mod Examples
mod Overlap
pub mod Callbacks
pub mod Reconnect
mod Restart
pub mod Recording
use navlink.Base.{
  ℕ, suc, ◌+◌, Bool, true, false, Option, none, some, List, [], ◌∷◌, ◌++◌, map, if◌then◌else◌, ltb,
  nat_eq,
}
use navlink.Base.Result.{Result, ok, err}
use navlink.Base.Text.{GoString, text}
use navlink.Base.Dict.{insert, delete}
use navlink.Errors.{Gerr, GoError, message, raise}
use navlink.Errors.Kinds.{timeout_error}
use navlink.Publish.{mark_attempted}
use navlink.Agv.Messages.{PublishOptions}
use navlink.Mqtt.Wait.{CtxErr, ctx_error}
use Filters.{match_filter}

-- PublishedMessage
pub record PublishedMessage : Type 0 where
  pub topic : GoString
  pub payload : List ℕ
  pub opts : PublishOptions

-- sub, with a handler of type `D`
pub record Sub (D : Type 0) : Type 0 where
  pub filter : GoString
  pub handler : D

-- FakeBroker; the callbacks of the client are not held here.
pub record FakeBroker (E D : Type 0) : Type 0 where
  pub running : Bool
  pub next_id : ℕ
  pub subs : List (ℕ × Sub D)
  pub published : List PublishedMessage
  pub fail : Option (GoError E)
  pub hang : Bool
  pub hang_for : ℕ

-- errNotRunning
abbrev pub not_running : {E : Type 0} → GoError E
not_running = message (text "testkit: fake broker is not running")

module _ {E D : Type 0} where
  -- NewFakeBroker
  new_fake_broker : FakeBroker E D
  new_fake_broker = record {
    running = false;
    next_id = 0;
    subs = [];
    published = [];
    fail = none;
    hang = false;
    hang_for = 0;
  }

  -- Start
  unfoldable pub start : FakeBroker E D → FakeBroker E D
  start b = record b { running = true }

  -- Stop
  unfoldable pub stop : FakeBroker E D → FakeBroker E D
  stop b = record b { running = false; subs = [] }

  -- FailNextPublish
  pub fail_next_publish : FakeBroker E D → Option (GoError E) → FakeBroker E D
  fail_next_publish b e = record b { fail = e; hang = false }

  -- HangNextPublish; 0 stands for a duration that is not positive.
  pub hang_next_publish : FakeBroker E D → ℕ → FakeBroker E D
  hang_next_publish b d = record b { hang = true; hang_for = d; fail = none }

  -- Subscribe; the result is the identifier that the returned Unsubscribe holds.
  unfoldable pub subscribe : FakeBroker E D → GoString → D → FakeBroker E D × Result (GoError E) ℕ
  subscribe b filter handler =
      if b.running
      then (
        record b {
          next_id = b.next_id + 1;
          subs = insert (b.next_id + 1) (record { filter = filter; handler = handler }) b.subs;
        },
        ok (b.next_id + 1),
      )
      else (b, err not_running)

  -- The Unsubscribe of a subscription.
  unfoldable pub unsubscribe : FakeBroker E D → ℕ → FakeBroker E D × Option (GoError E)
  unsubscribe b id = (record b { subs = delete id b.subs }, none)

  -- ClearPublished
  clear_published : FakeBroker E D → FakeBroker E D
  clear_published b = record b { published = [] }

  -- SimulateReconnect, before it calls the client back
  pub drop_subscriptions : FakeBroker E D → FakeBroker E D
  drop_subscriptions b = record b { subs = [] }

  -- Filters
  pub filters : FakeBroker E D → List GoString
  filters b = map (λ entry. entry.1.filter) b.subs

-- `handle` runs a handler on a state `X`.
module _ {E D X : Type 0} ⦃g : Gerr E⦄
    (handle : D → X → GoString → List ℕ → X × Option (GoError E)) where
  -- The delivery loop of Publish and Inject: the first error of a matching handler ends it.
  deliver : List (ℕ × Sub D) → GoString → List ℕ → X × Option (GoError E) → X × Option (GoError E)
  deliver subs topic payload (x, some e) = (x, some e)
  deliver [] topic payload (x, none) = (x, none)
  deliver ((_, s) ∷ subs) topic payload (x, none) =
      deliver subs topic payload
        (if match_filter s.filter topic then handle s.handler x topic payload else (x, none))

  -- Inject
  inject : FakeBroker E D → X → GoString → List ℕ → X × Option (GoError E)
  unfolding deliver
  inject b x topic payload =
      if b.running then deliver b.subs topic payload (x, none) else (x, some not_running)

  -- The end of a hanging Publish: the context is done first, or the timer fires. With no positive
  -- duration only the context ends it.
  hung : ℕ → CtxErr → Bool → Option (GoError E)
  hung d ctx_done timer_first =
      if ltb 0 d
      then (if timer_first
          then mark_attempted (some (raise timeout_error))
          else mark_attempted (some (ctx_error ctx_done)))
      else mark_attempted (some (ctx_error ctx_done))

  publish_mode :
      FakeBroker E D
      → Option (GoError E)
      → Bool
      → CtxErr
      → Bool
      → X
      → GoString
      → List ℕ
      → PublishOptions
      → FakeBroker E D × X × Option (GoError E)
  unfolding deliver hung
  publish_mode b (some e) hang ctx_done timer_first x topic payload opts = (b, x, some e)
  publish_mode b none true ctx_done timer_first x topic payload opts =
      (b, x, hung b.hang_for ctx_done timer_first)
  publish_mode b none false ctx_done timer_first x topic payload opts =
      let entry : PublishedMessage = record { topic = topic; payload = payload; opts = opts } in
      let (x', e) = deliver b.subs topic payload (x, none) in
      (record b { published = b.published ++ (entry ∷ []) }, x', e)

  -- Publish; `ctx_done` and `timer_first` say how a hanging call ends.
  unfoldable pub publish :
      FakeBroker E D
      → CtxErr
      → Bool
      → X
      → GoString
      → List ℕ
      → PublishOptions
      → FakeBroker E D × X × Option (GoError E)
  unfolding publish_mode
  publish b ctx_done timer_first x topic payload opts =
      if b.running
      then publish_mode (record b { fail = none; hang = false }) b.fail b.hang ctx_done timer_first
          x topic payload opts
      else (b, x, some not_running)
