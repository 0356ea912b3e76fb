-- ===== src/Mqtt/Dispatch/Full.antt =====
-- internal/mqtt/dispatch.go enqueue: what becomes of a message that comes in.
use navlink.Base.{◌≤◌, ◌<◌, ◌≡◌, ◌++◌, ◌↔◌, true, false, arith, Bool-cases, inl, inr}
use navlink.Base.Lists.{length}
use navlink.Base.Text.{GoString, string_eq}
use navlink.Base.Dict.{lookup}
use navlink.Mqtt.Lanes.{
  Lane, lane_connection, lane_agv, lane_topic, classify_inbound, droppable_topic,
}
use navlink.Mqtt.Lanes.Visual.{IsVisual, droppable_topic_iff}
use navlink.Mqtt.Queue.{offer}
use navlink.Mqtt.Dispatch.{
  Inbound, Dispatcher, queued, discarded, backpressured, enqueue_connection, agv_queue, when_full,
  put_topic, put_shard, enqueue_lane, enqueue,
}
use navlink.Mqtt.Dispatch.Places.{
  Place, topics, vehicle, waiting_at, joins, enqueue_lane-joins, shard_of-waiting,
}

module _ {M : Type 0} where
  -- The queue of a lane is at its capacity, or has room; the connection lane has none.
  abbrev pub IsFull : Dispatcher M → Lane × GoString → Type 0
  IsFull d (lane_connection, key) = ⊥
  IsFull d (lane_agv, key) = d.qsize ≤ length (waiting_at (vehicle key) d)
  IsFull d (lane_topic, key) = d.qsize ≤ length (waiting_at topics d)

  abbrev pub HasRoom : Dispatcher M → Lane × GoString → Type 0
  HasRoom d (lane_connection, key) = ⊥
  HasRoom d (lane_agv, key) = length (waiting_at (vehicle key) d) < d.qsize
  HasRoom d (lane_topic, key) = length (waiting_at topics d) < d.qsize

  enqueue_lane-discarded :
      (d : Dispatcher M) (msg : Inbound M) (lane : Lane × GoString)
      → ((enqueue_lane d msg lane).1 ≡ discarded)
        ↔ ((d.running ≡ true) × IsFull d lane × (droppable_topic msg.topic ≡ true))
  unfolding enqueue_lane enqueue_connection put_topic put_shard offer when_full agv_queue
  enqueue_lane-discarded d msg (lane_connection, key) = ground arith
  enqueue_lane-discarded d msg (lane_agv, key) =
      ground (arith, shard_of-waiting (lookup key d.shards))
  enqueue_lane-discarded d msg (lane_topic, key) = ground arith

  enqueue_lane-backpressured :
      (d : Dispatcher M) (msg : Inbound M) (lane : Lane × GoString)
      → ((enqueue_lane d msg lane).1 ≡ backpressured)
        ↔ ((d.running ≡ true) × IsFull d lane × (droppable_topic msg.topic ≡ false))
  unfolding enqueue_lane enqueue_connection put_topic put_shard offer when_full agv_queue
  enqueue_lane-backpressured d msg (lane_connection, key) = ground arith
  enqueue_lane-backpressured d msg (lane_agv, key) =
      ground (arith, shard_of-waiting (lookup key d.shards))
  enqueue_lane-backpressured d msg (lane_topic, key) = ground arith

  enqueue_lane-queued :
      (d : Dispatcher M) (msg : Inbound M) (lane : Lane × GoString)
      → ((enqueue_lane d msg lane).1 ≡ queued) ↔ ((d.running ≡ true) × HasRoom d lane)
  unfolding enqueue_lane enqueue_connection put_topic put_shard offer when_full agv_queue
  enqueue_lane-queued d msg (lane_connection, key) = ground arith
  enqueue_lane-queued d msg (lane_agv, key) = ground (arith, shard_of-waiting (lookup key d.shards))
  enqueue_lane-queued d msg (lane_topic, key) = ground arith

  -- What enqueue does with a message.
  pub record Enqueues (d : Dispatcher M) (msg : Inbound M) : Type 0 where
    pub dropped :
        ((enqueue d msg).1 ≡ discarded)
        ↔ ((d.running ≡ true) × IsFull d (classify_inbound msg.topic) × IsVisual msg.topic)
    pub blocks :
        ((enqueue d msg).1 ≡ backpressured)
        ↔ ((d.running ≡ true) × IsFull d (classify_inbound msg.topic) × (¬ IsVisual msg.topic))
    pub queues :
        ((enqueue d msg).1 ≡ queued) ↔ ((d.running ≡ true) × HasRoom d (classify_inbound msg.topic))
    pub contents :
        (p : Place)
        → waiting_at p (enqueue d msg).0
          ≡ waiting_at p d ++ joins p (classify_inbound msg.topic) (enqueue d msg).1 msg

  -- On a running transport, enqueue puts a message at the end of the queue of its lane, exactly if that
  -- has room. If it is full, enqueue throws the message away if the last of at least five levels of its
  -- topic is "visualization", and blocks the callback of any other; in no other case does it do either,
  -- so a connection message is never thrown away and never blocks. A queue in which the message is
  -- not put stays as it is.
  pub enqueue-Enqueues : (d : Dispatcher M) (msg : Inbound M) → Enqueues d msg
  unfolding enqueue
  enqueue-Enqueues d msg =
      let lane = classify_inbound msg.topic in
      let (d₁, d₂) = enqueue_lane-discarded d msg lane in
      let (b₁, b₂) = enqueue_lane-backpressured d msg lane in
      let (v₁, v₂) = droppable_topic_iff msg.topic in
      record {
        dropped = (
          λ e. let (up, full, seen) = d₁ e in (up, full, v₁ seen),
          λ (up, full, seen). d₂ (up, full, v₂ seen),
        );
        blocks = (
          λ e. let (up, full, unseen) = b₁ e in (up, full, λ seen. cc (v₂ seen, unseen)),
          λ (up, full, unseen). b₂ (
            up,
            full,
            elim (Bool-cases (droppable_topic msg.topic)) [
              | inl seen ↦ absurd (unseen (v₁ seen))
              | inr f ↦ f
            ],
          ),
        );
        queues = enqueue_lane-queued d msg lane;
        contents = λ p. enqueue_lane-joins p d msg lane;
      }
