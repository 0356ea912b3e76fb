-- ===== src/Mqtt/Dispatch.antt =====
-- internal/mqtt/dispatch.go: the lanes between the paho callback and the handlers. A message blocks
-- its callback when its queue is full; the blocked send, tried again, is one more enqueue of it.
pub mod Places
pub mod Lossless
pub mod Delivery
pub mod Full
use navlink.Base.{ℕ, Bool, true, false, Option, none, some, List, [], ◌∷◌, if◌then◌else◌, ltb, ◌==◌}
use navlink.Base.Text.{GoString, string_eq}
use navlink.Base.Dict.{lookup, insert}
use navlink.Mqtt.Lanes.{
  Lane, lane_connection, lane_agv, lane_topic, classify_inbound, droppable_topic,
}
use navlink.Mqtt.Coalesce.{Coalescer, new_coalescer, store}
use navlink.Mqtt.Queue.{Queue, new_queue, offer, serve}

-- inbound; `M` is its payload, handler and time.
pub record Inbound (M : Type 0) : Type 0 where
  pub topic : GoString
  pub body : M

-- The dispatch fields of Transport; `running` says that they are not nil.
pub record Dispatcher (M : Type 0) : Type 0 where
  pub running : Bool
  pub qsize : ℕ
  pub connections : Coalescer (Inbound M)
  pub topic_q : Queue (Inbound M)
  pub shards : List (GoString × Queue (Inbound M))

-- How a call of enqueue stands. OnInboundDrop hears of the last two, as DropDiscarded and as
-- DropBackpressured.
pub data Standing : Type 0 where
  stored queued closed discarded backpressured : Standing

-- defaultInboundQueue
abbrev pub default_inbound_queue : ℕ
default_inbound_queue = 256

-- What is done about a full queue.
when_full : GoString → Standing
when_full topic = if droppable_topic topic then discarded else backpressured

-- What dispatchOne does with the error of the handler.
report_error : {E X : Type 0} → Option (X → GoString → E → X) → GoString → X × Option E → X
report_error report topic (x, none) = x
report_error none topic (x, some e) = x
report_error (some h) topic (x, some e) = h x topic e

module _ {M : Type 0} where
  -- startDispatchLocked, for the configured InboundQueueSize
  unfoldable pub start_dispatch : ℕ → Dispatcher M
  start_dispatch configured = record {
    running = true;
    qsize = if ltb 0 configured then configured else default_inbound_queue;
    connections = new_coalescer;
    topic_q = new_queue;
    shards = [];
  }

  -- shutdownDispatch and Stop
  unfoldable pub shutdown_dispatch : Dispatcher M → Dispatcher M
  shutdown_dispatch d = record d {
    running = false;
    connections = new_coalescer;
    topic_q = new_queue;
    shards = [];
  }

  -- enqueueConnection
  enqueue_connection : Dispatcher M → GoString → Inbound M → Dispatcher M × Standing
  enqueue_connection d key msg =
      if d.running
      then (
        record d { connections = store d.connections (if key == [] then msg.topic else key) msg },
        stored,
      )
      else (d, closed)

  abbrev pub shard_of : Option (Queue (Inbound M)) → Queue (Inbound M)
  shard_of none = new_queue
  shard_of (some q) = q

  -- agvQueue: the vehicle's queue, made if there is none.
  pub agv_queue : Dispatcher M → GoString → Queue (Inbound M)
  agv_queue d key = shard_of (lookup key d.shards)

  put_topic : Dispatcher M → Inbound M → Option (Queue (Inbound M)) → Dispatcher M × Standing
  unfolding when_full
  put_topic d msg (some q) = (record d { topic_q = q }, queued)
  put_topic d msg none = (d, when_full msg.topic)

  -- The shard is in the map also when the send does not succeed.
  put_shard :
      Dispatcher M
      → GoString
      → Inbound M
      → Queue (Inbound M)
      → Option (Queue (Inbound M))
      → Dispatcher M × Standing
  unfolding when_full
  put_shard d key msg q (some q') = (record d { shards = insert key q' d.shards }, queued)
  put_shard d key msg q none = (record d { shards = insert key q d.shards }, when_full msg.topic)

  pub enqueue_lane : Dispatcher M → Inbound M → Lane × GoString → Dispatcher M × Standing
  unfolding enqueue_connection put_topic put_shard agv_queue
  enqueue_lane d msg (lane_connection, key) = enqueue_connection d key msg
  enqueue_lane d msg (lane_topic, key) =
      if d.running then put_topic d msg (offer d.qsize d.topic_q msg) else (d, closed)
  enqueue_lane d msg (lane_agv, key) =
      if d.running
      then put_shard d key msg (agv_queue d key) (offer d.qsize (agv_queue d key) msg)
      else (d, closed)

  -- enqueue, up to a send that blocks
  pub enqueue : Dispatcher M → Inbound M → Dispatcher M × Standing
  unfolding enqueue_lane
  enqueue d msg = enqueue_lane d msg (classify_inbound msg.topic)

  -- runQueue, one round of the worker of the topic queue, or of a vehicle's, with the message that
  -- dispatchOne is called for.
  serve_topic : Dispatcher M → Dispatcher M × Option (Inbound M)
  serve_topic d = let (q, msg) = serve d.topic_q in (record d { topic_q = q }, msg)

  serve_found :
      Dispatcher M → GoString → Option (Queue (Inbound M)) → Dispatcher M × Option (Inbound M)
  serve_found d key none = (d, none)
  serve_found d key (some old) =
      let (q, msg) = serve old in (record d { shards = insert key q d.shards }, msg)

  serve_shard : Dispatcher M → GoString → Dispatcher M × Option (Inbound M)
  unfolding serve_found
  serve_shard d key = serve_found d key (lookup key d.shards)

  -- dispatchOne, on a state `X` of the handlers; `report` is OnHandlerError, if it is set.
  unfoldable pub dispatch_one :
      {E X : Type 0}
      → (X → Inbound M → X × Option E)
      → Option (X → GoString → E → X)
      → X
      → Inbound M
      → X
  unfolding report_error
  dispatch_one handler report x msg = report_error report msg.topic (handler x msg)

-- What happens to the queues: a message comes in, a worker runs, or the transport stops.
pub data Event (M : Type 0) : Type 0 where
  arrives : Inbound M → Event M
  serves_topic : Event M
  serves_shard : GoString → Event M
  shuts_down : Event M

module _ {M : Type 0} where
  unfoldable pub step : Dispatcher M → Event M → Dispatcher M
  unfolding enqueue serve_topic serve_shard shutdown_dispatch
  step d (arrives msg) = (enqueue d msg).0
  step d serves_topic = (serve_topic d).0
  step d (serves_shard key) = (serve_shard d key).0
  step d shuts_down = shutdown_dispatch d

  unfoldable pub run : Dispatcher M → List (Event M) → Dispatcher M
  unfolding step
  run d [] = d
  run d (e ∷ es) = run (step d e) es
