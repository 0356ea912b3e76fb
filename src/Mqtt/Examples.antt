-- ===== src/Mqtt/Examples.antt =====
-- internal/mqtt/transport.go Publish: tests. The client counts the packets that it is handed.
use navlink.Base.{
  ℕ, ◌+◌, suc, ◌≡◌, ◌≢◌, refl, ◌↔◌, ◌⊎◌, true, false, none, some, List, [], ◌∷◌, ◌++◌, arith, ltb,
}
use navlink.Base.Text.{text}
use navlink.Errors.Kinds.{ErrorKind}
use navlink.Errors.Sample.{kind_gerr}
use navlink.Publish.{classify_publish, accepted, not_started, uncertain}
use navlink.Base.Text.{GoString, str_beq, string_eq}
use navlink.Base.Result.{ok}
use navlink.Base.Dict.{lookup, insert, delete}
use navlink.Topic.{Resolver, ParsedTopic, parse}
use navlink.Topic.Channels
use navlink.Mqtt.Lanes.Laws.{Routes, parsed-Routes}
use navlink.Mqtt.Coalesce.{
  Coalescer, Step, stores, signals, receives, takes, new_coalescer, store, signal, receive, take,
  run, drain,
}
use navlink.Mqtt.Coalesce.Wakeup.{NoneLost, run-NoneLost}
use navlink.Mqtt.Coalesce.Newest.{run-newest}
use navlink.Mqtt.Coalesce.Drain.{IsIdle, drain-ends}
use navlink.Mqtt.Dispatch.{Inbound, Event, arrives, serves_shard, start_dispatch, dispatch_one}
use navlink.Mqtt.Dispatch.Places.{vehicle}
use navlink.Mqtt.Dispatch.Delivery.{Delivers, start-Delivers}
use navlink.Mqtt.Dispatch.Full.{Enqueues, enqueue-Enqueues}
use navlink.Mqtt.Wait.{Ctx, Token, wait_token}
use navlink.Mqtt.Outbound.{Packet, Call, adapted_publish}
use navlink.Mqtt.Outbound.Outcome.{Handed, publish_outcomes}

-- A token that completes after one second.
abbrev after_second : ℕ → Packet → ℕ × Token
after_second n pkt = (suc n, record { wait_timeout = λ t. ltb 1_000_000_000 t; error = none })

abbrev open_ctx : Ctx
open_ctx = record { error = none; time_left = none }

abbrev packet : Packet
packet = record { topic = text "uagv/v2/M/S/order"; qos = 1; retain = false; payload = [] }

-- The caller gives up after half a second.
abbrev impatient : Call
impatient = record {
  entry = open_ctx;
  waiting = record { error = none; time_left = some 500_000_000 };
  ctx_first = none;
}

publish_test :
    adapted_publish {E = ErrorKind} after_second true true impatient 4 packet
    ≡ (5, (adapted_publish {E = ErrorKind} after_second true true impatient 4 packet).1)
unfolding adapted_publish
publish_test = refl

publish_outcomes_example :
    let s = adapted_publish {E = ErrorKind} after_second true true impatient 4 packet in
    let waited = wait_token {E = ErrorKind} impatient.waiting (after_second 4 packet).1 none in
    ((classify_publish s.1 ≡ accepted)
      ↔ (Handed true true impatient × (waited ≡ none) × ((after_second 4 packet).1.error ≡ none)))
    × ((classify_publish s.1 ≡ uncertain) ↔ (Handed true true impatient × (waited ≢ none)))
    × ((classify_publish s.1 ≡ not_started) ↔ (
        ((¬ Handed true true impatient) × (s.0 ≡ 4))
        ⊎ (Handed true true impatient
            × (waited ≡ none)
            × ((after_second 4 packet).1.error ≢ none))))
publish_outcomes_example = publish_outcomes ErrorKind after_second true true impatient 4 packet

-- A run of the connection lane: two messages of one vehicle come in before the worker wakes.
abbrev burst : List (Step ℕ)
burst =
    stores (text "M/S") 1
    ∷ signals
    ∷ stores (text "M/S") 2
    ∷ signals
    ∷ receives
    ∷ takes (text "M/S")
    ∷ takes []
    ∷ []

run-NoneLost_example : NoneLost (run new_coalescer burst)
run-NoneLost_example = run-NoneLost burst

burst_idle : (run new_coalescer burst).latest ≡ []
unfolding run new_coalescer store signal receive take insert lookup delete str_beq
burst_idle = refl

run-newest_example :
    lookup (text "M/S") (run new_coalescer burst).delivered
    ≡ lookup (text "M/S") (run new_coalescer burst).sent
run-newest_example = run-newest burst (text "M/S") burst_idle

abbrev draining : Coalescer ℕ
draining = record {
  latest = (text "M/S", 1) ∷ (text "M/T", 2) ∷ [];
  wake = false;
  senders = 0;
  draining = true;
  delivered = [];
  sent = (text "M/T", 2) ∷ (text "M/S", 1) ∷ [];
}

drain-ends_example : IsIdle (drain 3 draining)
drain-ends_example = drain-ends 2 draining refl (omega arith)

abbrev state_of : GoString → Inbound ℕ
state_of serial = record { topic = text "uagv/v2/M/" ++ serial ++ text "/state"; body = 0 }

abbrev two_states : List (Event ℕ)
two_states =
    arrives (state_of (text "S")) ∷ arrives (state_of (text "S")) ∷ serves_shard (text "M/S") ∷ []

start-Delivers_example : Delivers 1 (vehicle (text "M/S")) (start_dispatch 1) two_states
start-Delivers_example = start-Delivers 1 two_states (vehicle (text "M/S")) tt

enqueue-Enqueues_example : Enqueues (start_dispatch 1) (state_of (text "S"))
enqueue-Enqueues_example = enqueue-Enqueues (start_dispatch 1) (state_of (text "S"))

-- A handler's error goes to OnHandlerError, if it is set.
dispatch_test :
    (dispatch_one
        (λ x msg. (suc x, some msg.topic))
        (some (λ x topic e. x + 10))
        0
        (state_of (text "S"))
      ≡ 11)
    × (dispatch_one {E = ℕ}
          (λ x msg. (suc x, none))
          (some (λ x topic e. x + 10))
          0
          (state_of (text "S"))
        ≡ 1)
unfolding dispatch_one
dispatch_test = (refl, refl)

abbrev connection_topic : GoString
connection_topic = text "uagv/v2/M/S/connection"

abbrev parsed_connection : ParsedTopic
parsed_connection = record {
  interface = text "uagv";
  version = text "v2";
  manufacturer = text "M";
  serial_number = text "S";
  channel = Channels.connection;
}

abbrev uagv : Resolver
uagv = record { interface = text "uagv"; version = text "v2" }

connection_parses : parse uagv connection_topic ≡ ok parsed_connection
unfolding parse str_beq
connection_parses = refl

parsed-Routes_example : Routes connection_topic parsed_connection
parsed-Routes_example = parsed-Routes uagv connection_topic parsed_connection connection_parses
