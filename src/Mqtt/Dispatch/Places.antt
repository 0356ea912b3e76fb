-- ===== src/Mqtt/Dispatch/Places.antt =====
-- internal/mqtt/dispatch.go: what waits in the queue of other topics and in the queue of each vehicle,
-- before and after a message comes in.
use navlink.Base.{
  ◌≡◌, refl, if_cases, ltb, Bool, true, false, ◌&&◌, Option, none, some, List, [], ◌∷◌, ◌++◌,
  append-nil, arith, if◌then◌else◌,
}
use navlink.Base.Lists.{length}
use navlink.Base.Text.{GoString, string_eq, str_beq, str_beq_iff}
use navlink.Base.Dict.{lookup, lookup-insert}
use navlink.Mqtt.Lanes.{Lane, lane_connection, lane_agv, lane_topic}
use navlink.Mqtt.Queue.{Queue, offer}
use navlink.Mqtt.Dispatch.{
  Inbound, Dispatcher, Standing, queued, enqueue_connection, shard_of, agv_queue, when_full,
  put_topic, put_shard, enqueue_lane,
}

-- The queue of other topics, or that of a vehicle.
pub data Place : Type 0 where
  topics : Place
  vehicle : GoString → Place

abbrev pub waiting_in : {I : Type 0} → Option (Queue I) → List I
waiting_in none = []
waiting_in (some q) = q.waiting

-- The messages that wait there.
abbrev pub waiting_at : {M : Type 0} → Place → Dispatcher M → List (Inbound M)
waiting_at topics d = d.topic_q.waiting
waiting_at (vehicle key) d = waiting_in (lookup key d.shards)

-- Whether the messages of a lane go there.
abbrev pub is_place : Place → Lane × GoString → Bool
is_place topics (lane_topic, key) = true
is_place (vehicle j) (lane_agv, key) = str_beq key j
is_place _ _ = false

abbrev pub is_queued : Standing → Bool
is_queued queued = true
is_queued _ = false

module _ {M : Type 0} where
  -- What a message that comes in adds there.
  abbrev pub joins : Place → Lane × GoString → Standing → Inbound M → List (Inbound M)
  joins p lane standing msg = if is_place p lane && is_queued standing then msg ∷ [] else []

  -- A vehicle's queue `q` that is put back into the map, with the message at its end if it was sent.
  put_shard-joins :
      (j key : GoString) (d : Dispatcher M) (msg : Inbound M) (q : Queue (Inbound M)) (room : Bool)
      → q.waiting ≡ waiting_in (lookup key d.shards)
      → let r =
          put_shard d key msg q
            (if room then some (record { waiting = q.waiting ++ (msg ∷ []) }) else none) in
        waiting_in (lookup j r.0.shards)
        ≡ waiting_in (lookup j d.shards) ++ joins (vehicle j) (lane_agv, key) r.1 msg
  unfolding put_shard when_full
  put_shard-joins j key d msg q true old = ground (
    arith,
    str_beq_iff key j,
    append-nil (waiting_in (lookup j d.shards)),
    lookup-insert key j (record { waiting = q.waiting ++ (msg ∷ []) }) d.shards,
  )
  put_shard-joins j key d msg q false old = ground (
    arith,
    str_beq_iff key j,
    append-nil (waiting_in (lookup j d.shards)),
    lookup-insert key j q d.shards,
  )

  pub shard_of-waiting :
      (found : Option (Queue (Inbound M))) → (shard_of found).waiting ≡ waiting_in found
  shard_of-waiting none = refl
  shard_of-waiting (some q) = refl

  -- What waits somewhere after a message came in is what waited there, and the message at the end
  -- if it was queued there.
  pub enqueue_lane-joins :
      (p : Place) (d : Dispatcher M) (msg : Inbound M) (lane : Lane × GoString)
      → waiting_at p (enqueue_lane d msg lane).0
        ≡ waiting_at p d ++ joins p lane (enqueue_lane d msg lane).1 msg
  unfolding enqueue_lane enqueue_connection put_topic put_shard offer when_full agv_queue
  enqueue_lane-joins topics d msg (lane_connection, key) =
      ground (arith, append-nil d.topic_q.waiting)
  enqueue_lane-joins topics d msg (lane_agv, key) = ground (arith, append-nil d.topic_q.waiting)
  enqueue_lane-joins topics d msg (lane_topic, key) = ground (arith, append-nil d.topic_q.waiting)
  enqueue_lane-joins (vehicle j) d msg (lane_connection, key) =
      ground (arith, append-nil (waiting_in (lookup j d.shards)))
  enqueue_lane-joins (vehicle j) d msg (lane_topic, key) =
      ground (arith, append-nil (waiting_in (lookup j d.shards)))
  enqueue_lane-joins (vehicle j) d msg (lane_agv, key) =
      if_cases {A = Dispatcher M × Standing}
        (λ r.
          waiting_in (lookup j r.0.shards)
          ≡ waiting_in (lookup j d.shards) ++ joins (vehicle j) (lane_agv, key) r.1 msg)
        d.running
        (λ _.
          put_shard-joins j key d msg (agv_queue d key)
            (ltb (length (agv_queue d key).waiting) d.qsize)
            (shard_of-waiting (lookup key d.shards)))
        (λ _. ground (arith, append-nil (waiting_in (lookup j d.shards))))
