-- ===== src/Mqtt/Dispatch/Lossless.antt =====
-- internal/mqtt/dispatch.go: the queues of the vehicles and of other topics, over any run.
pub mod Capacity
use navlink.Base.{
  ℕ, ◌≤◌, ◌<◌, ◌≡◌, refl, sym, ap, ◌∙◌, Bool, true, false, ◌&&◌, Option, none, some, List, [], ◌∷◌,
  ◌++◌, append-nil, append_assoc, arith, ltb, if_cases, if◌then◌else◌,
}
use navlink.Base.Lists.{length, length-append}
use navlink.Base.Text.{GoString, string_eq, str_beq, str_beq_iff}
use navlink.Base.Dict.{lookup, insert, lookup-insert}
use navlink.Mqtt.Lanes.{Lane, lane_connection, lane_agv, lane_topic, classify_inbound}
use navlink.Mqtt.Queue.{Queue, taken, offer, serve, serve-taken}
use navlink.Mqtt.Dispatch.{
  Inbound, Dispatcher, Standing, start_dispatch, enqueue_connection, shard_of, agv_queue, put_topic,
  put_shard, when_full, enqueue_lane, enqueue, serve_topic, serve_found, serve_shard, Event,
  arrives, serves_topic, serves_shard, shuts_down, step, run,
}
use navlink.Mqtt.Dispatch.Places.{
  Place, topics, vehicle, waiting_in, waiting_at, is_place, is_queued, joins, enqueue_lane-joins,
}

module _ {M : Type 0} where
  -- The messages that a run puts into a queue: those that come in for it and for which enqueue says
  -- that they are queued.
  pub joined : Place → Dispatcher M → Event M → List (Inbound M)
  joined p d (arrives msg) = joins p (classify_inbound msg.topic) (enqueue d msg).1 msg
  joined p d serves_topic = []
  joined p d (serves_shard key) = []
  joined p d shuts_down = []

  pub all_joined : Place → Dispatcher M → List (Event M) → List (Inbound M)
  unfolding joined
  all_joined p d [] = []
  all_joined p d (e ∷ es) = joined p d e ++ all_joined p (step d e) es

  -- The messages that its worker dispatches.
  pub dispatched : Place → Dispatcher M → Event M → List (Inbound M)
  dispatched topics d serves_topic = taken (serve_topic d).1
  dispatched (vehicle j) d (serves_shard key) =
      if str_beq key j then taken (serve_shard d key).1 else []
  dispatched _ d _ = []

  pub all_dispatched : Place → Dispatcher M → List (Event M) → List (Inbound M)
  unfolding dispatched
  all_dispatched p d [] = []
  all_dispatched p d (e ∷ es) = dispatched p d e ++ all_dispatched p (step d e) es

  -- No shutdown, which gives up what waits.
  abbrev pub NoShutdown : List (Event M) → Type 0
  NoShutdown [] = Unit
  NoShutdown (shuts_down ∷ es) = ⊥
  NoShutdown (_ ∷ es) = NoShutdown es

  pub NoShutdown-first :
      (e : Event M) (es : List (Event M)) → NoShutdown (e ∷ es) → NoShutdown (e ∷ [])
  NoShutdown-first (arrives msg) es ok = tt
  NoShutdown-first serves_topic es ok = tt
  NoShutdown-first (serves_shard key) es ok = tt
  NoShutdown-first shuts_down es ok = ok

  pub NoShutdown-rest : (e : Event M) (es : List (Event M)) → NoShutdown (e ∷ es) → NoShutdown es
  NoShutdown-rest (arrives msg) es ok = ok
  NoShutdown-rest serves_topic es ok = ok
  NoShutdown-rest (serves_shard key) es ok = ok
  NoShutdown-rest shuts_down es ok = absurd ok

  serve_found-dispatched :
      (j key : GoString) (d : Dispatcher M) (found : Option (Queue (Inbound M)))
      → lookup key d.shards ≡ found
      → waiting_in (lookup j d.shards)
        ≡ (if str_beq key j then taken (serve_found d key found).1 else [])
          ++ waiting_in (lookup j (serve_found d key found).0.shards)
  unfolding serve_found
  serve_found-dispatched j key d none here = ground (arith, str_beq_iff key j)
  serve_found-dispatched j key d (some q) here =
      ground (arith, str_beq_iff key j, serve-taken q, lookup-insert key j (serve q).0 d.shards)

  -- What waits before an event, and what it puts in, is what it dispatches and what waits after it.
  pub step-joined :
      (p : Place) (d : Dispatcher M) (e : Event M)
      → NoShutdown (e ∷ [])
      → waiting_at p d ++ joined p d e ≡ dispatched p d e ++ waiting_at p (step d e)
  unfolding joined dispatched step enqueue serve_topic serve_shard serve_found
  step-joined topics d (arrives msg) ok =
      sym (enqueue_lane-joins topics d msg (classify_inbound msg.topic))
  step-joined (vehicle j) d (arrives msg) ok =
      sym (enqueue_lane-joins (vehicle j) d msg (classify_inbound msg.topic))
  step-joined topics d serves_topic ok = append-nil d.topic_q.waiting ∙ serve-taken d.topic_q
  step-joined (vehicle j) d serves_topic ok = append-nil (waiting_in (lookup j d.shards))
  step-joined topics d (serves_shard key) ok =
      append-nil d.topic_q.waiting ∙ go (lookup key d.shards)
    where
      go :
          (found : Option (Queue (Inbound M)))
          → d.topic_q.waiting ≡ (serve_found d key found).0.topic_q.waiting
      go none = refl
      go (some q) = refl
  step-joined (vehicle j) d (serves_shard key) ok =
      append-nil (waiting_in (lookup j d.shards))
      ∙ serve_found-dispatched j key d (lookup key d.shards) refl
  step-joined p d shuts_down ok = absurd ok

  pub run-joined :
      (p : Place) (d : Dispatcher M) (es : List (Event M))
      → NoShutdown es
      → waiting_at p d ++ all_joined p d es ≡ all_dispatched p d es ++ waiting_at p (run d es)
  unfolding all_joined all_dispatched run
  run-joined p d [] ok = append-nil (waiting_at p d)
  run-joined p d (e ∷ es) ok =
      sym (append_assoc (waiting_at p d) (joined p d e) _)
      ∙ ap (λ l. l ++ all_joined p (step d e) es) (step-joined p d e (NoShutdown-first e es ok))
      ∙ append_assoc (dispatched p d e) _ _
      ∙ ap (λ l. dispatched p d e ++ l) (run-joined p (step d e) es (NoShutdown-rest e es ok))
      ∙ sym (append_assoc (dispatched p d e) _ _)
