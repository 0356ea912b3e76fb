-- ===== src/Mqtt/Dispatch/Lossless/Capacity.antt =====
-- internal/mqtt/dispatch.go: no queue is over its capacity.
use navlink.Base.{
  ℕ, ◌≤◌, ◌<◌, ◌≡◌, refl, ap, ◌∙◌, true, ◌&&◌, Option, none, some, List, [], ◌∷◌, ◌++◌, arith,
  if_cases,
}
use navlink.Base.Lists.{length, length-append}
use navlink.Base.Text.{GoString, string_eq, str_beq_iff}
use navlink.Base.Dict.{lookup}
use navlink.Mqtt.Lanes.{Lane, lane_connection, lane_agv, lane_topic, classify_inbound}
use navlink.Mqtt.Queue.{Queue, offer}
use navlink.Mqtt.Dispatch.{
  Inbound, Dispatcher, enqueue_connection, agv_queue, put_topic, put_shard, when_full, enqueue_lane,
  enqueue, serve_topic, serve_found, serve_shard, Event, arrives, serves_topic, serves_shard,
  shuts_down, step,
}
use navlink.Mqtt.Dispatch.Places.{
  Place, topics, vehicle, waiting_at, is_place, is_queued, shard_of-waiting,
}
use navlink.Mqtt.Dispatch.Lossless.{NoShutdown, joined, dispatched, step-joined}

module _ {M : Type 0} where
  -- A message is queued only where there is room.
  enqueue_lane-room :
      (p : Place) (d : Dispatcher M) (msg : Inbound M) (lane : Lane × GoString)
      → (is_place p lane && is_queued (enqueue_lane d msg lane).1) ≡ true
      → length (waiting_at p d) < d.qsize
  unfolding enqueue_lane enqueue_connection put_topic put_shard offer when_full agv_queue
  enqueue_lane-room topics d msg (lane_connection, key) h = ground arith
  enqueue_lane-room topics d msg (lane_agv, key) h = ground arith
  enqueue_lane-room topics d msg (lane_topic, key) h = ground arith
  enqueue_lane-room (vehicle j) d msg (lane_connection, key) h = ground arith
  enqueue_lane-room (vehicle j) d msg (lane_topic, key) h = ground arith
  enqueue_lane-room (vehicle j) d msg (lane_agv, key) h =
      ground (arith, str_beq_iff key j, shard_of-waiting (lookup key d.shards))

  enqueue_lane-qsize :
      (d : Dispatcher M) (msg : Inbound M) (lane : Lane × GoString)
      → (enqueue_lane d msg lane).0.qsize ≡ d.qsize
  unfolding enqueue_lane enqueue_connection put_topic put_shard offer agv_queue
  enqueue_lane-qsize d msg (lane_connection, key) = ground arith
  enqueue_lane-qsize d msg (lane_agv, key) = ground arith
  enqueue_lane-qsize d msg (lane_topic, key) = ground arith

  -- No queue holds more than `n` messages, its capacity.
  pub record Fits (n : ℕ) (d : Dispatcher M) : Type 0 where
    pub qsize : d.qsize ≡ n
    pub held : (p : Place) → length (waiting_at p d) ≤ n

  joined-held :
      (n : ℕ) (p : Place) (d : Dispatcher M) (e : Event M)
      → Fits n d
      → length (waiting_at p d ++ joined p d e) ≤ n
  unfolding joined enqueue
  joined-held n p d (arrives msg) h =
      let lane = classify_inbound msg.topic in
      if_cases {A = List (Inbound M)} (λ l. length (waiting_at p d ++ l) ≤ n)
        (is_place p lane && is_queued (enqueue_lane d msg lane).1)
        (λ b. omega (
          arith,
          length-append (waiting_at p d) (msg ∷ []),
          h.qsize,
          enqueue_lane-room p d msg lane b,
        ))
        (λ _. omega (arith, length-append {A = Inbound M} (waiting_at p d) [], h.held p))
  joined-held n p d serves_topic h =
      omega (arith, length-append {A = Inbound M} (waiting_at p d) [], h.held p)
  joined-held n p d (serves_shard key) h =
      omega (arith, length-append {A = Inbound M} (waiting_at p d) [], h.held p)
  joined-held n p d shuts_down h =
      omega (arith, length-append {A = Inbound M} (waiting_at p d) [], h.held p)

  step-qsize : (d : Dispatcher M) (e : Event M) → NoShutdown (e ∷ []) → (step d e).qsize ≡ d.qsize
  unfolding step enqueue serve_topic serve_shard serve_found
  step-qsize d (arrives msg) ok = enqueue_lane-qsize d msg (classify_inbound msg.topic)
  step-qsize d serves_topic ok = refl
  step-qsize d (serves_shard key) ok = go (lookup key d.shards)
    where
      go : (found : Option (Queue (Inbound M))) → (serve_found d key found).0.qsize ≡ d.qsize
      go none = refl
      go (some q) = refl
  step-qsize d shuts_down ok = absurd ok

  pub step-Fits :
      (n : ℕ) (d : Dispatcher M) (e : Event M) → NoShutdown (e ∷ []) → Fits n d → Fits n (step d e)
  step-Fits n d e ok h = record {
    qsize = step-qsize d e ok ∙ h.qsize;
    held = λ p. omega (
      arith,
      ap (λ l. length l) (step-joined p d e ok),
      joined-held n p d e h,
      length-append (dispatched p d e) (waiting_at p (step d e)),
    );
  }
