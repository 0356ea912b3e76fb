-- ===== src/Inbound/Examples.antt =====
-- inbound.go and inbound_policy.go: tests. A payload is one number, its headerId; the handlers count.
use navlink.Base.{ℕ, suc, ◌+◌, ◌≡◌, refl, true, false, none, some, [], ◌∷◌}
use navlink.Base.Result.{ok}
use navlink.Base.Text.{GoString, text, str_beq}
use navlink.Base.Dict.{lookup, insert}
use navlink.Errors.{GoError, message}
use navlink.Errors.Kinds.{ErrorKind}
use navlink.Errors.Sample.{kind_gerr}
use navlink.Topic.{ParsedTopic, ParseError, parse}
use navlink.Topic.Channels.{Channel}
use navlink.Topic.Channels
use navlink.Config.{strict_identity}
use navlink.Config.Examples.{minimal}
use navlink.Inbound.Policy.{stale, Identity, new_header_sequence_policy, sequence_key, classify}
use navlink.Inbound.Policy.Watermark.{Seen, after, highest, judge, classify-judge}
use navlink.Inbound.Registry.{new_registry, register, apply}
use navlink.Inbound.{HeaderSummary, Envelope, bare_envelope, parsed_envelope}
use navlink.Mqtt.Dispatch.{discarded, backpressured}
use navlink.Inbound.Timing.{
  inbound_slow_queue, inbound_slow_handler, slow_cause_string, inbound_dropped,
  inbound_backpressured, drop_reason_string, map_inbound_drop, with_received_at, envelope_times,
  queue_wait, note_inbound,
}
use navlink.Inbound.Topics.{topic_envelope, dispatch_topic, report_decode}
use navlink.Inbound.Pipeline.{
  delivered, Inlet, Json, fate, check_identity, Sinks, invoke, finish_handler, run_handlers, act,
}
use navlink.Inbound.Pipeline.Fates.{Reached, fate-Reached}
use navlink.Inbound.Pipeline.Returns.{HandlerFailed, act-HandlerFailed}

abbrev agv_1 : Identity
agv_1 = record { manufacturer = text "ACME"; serial_number = text "AGV-1" }

abbrev seen : ℕ → Seen
seen n = record { agv = agv_1; channel = Channels.state; header_id = n }

classify-judge_example :
    (classify (after (seen 4 ∷ seen 7 ∷ [])) agv_1 Channels.state 5).1
    ≡ judge (highest (sequence_key agv_1 Channels.state) (seen 4 ∷ seen 7 ∷ [])) 5
classify-judge_example = classify-judge (seen 4 ∷ seen 7 ∷ []) agv_1 Channels.state 5

classify_test : (classify (after (seen 4 ∷ seen 7 ∷ [])) agv_1 Channels.state 5).1 ≡ stale
unfolding classify after lookup insert new_header_sequence_policy str_beq
classify_test = refl

abbrev header : HeaderSummary
header = record {
  header_id = 9;
  timestamp = [];
  version = [];
  manufacturer = text "ACME";
  serial_number = text "AGV-1";
}

abbrev json : Json ℕ
json = record { header = λ _. some header; payload = λ _ _. ok 9 }

abbrev inlet : Inlet ErrorKind ℕ ℕ
inlet = record {
  cfg = minimal;
  topics = record { interface = text "uagv"; version = text "v2" };
  extensions = none;
  mapper = none;
  policy = none;
}

abbrev say : GoError ErrorKind → GoString
say e = text "failed"

abbrev say_parse : ParseError → GoString
say_parse e = text "parse failed"

abbrev state_topic : GoString
state_topic = text "uagv/v2/ACME/AGV-1/state"

abbrev vehicle : ParsedTopic
vehicle = record {
  interface = text "uagv";
  version = text "v2";
  manufacturer = text "ACME";
  serial_number = text "AGV-1";
  channel = Channels.state;
}

abbrev envelope : Envelope ℕ
envelope = record (parsed_envelope none vehicle state_topic []) { header = header }

delivered_test : (fate json say_parse inlet say 0 state_topic []).1 ≡ delivered envelope 9
unfolding fate check_identity parse str_beq strict_identity
delivered_test = refl

fate-Reached_example : Reached json say_parse inlet state_topic [] envelope 9
fate-Reached_example =
    fate-Reached json say_parse inlet say 0 state_topic [] envelope 9 delivered_test

abbrev broken : GoError ErrorKind
broken = message (text "handler failed")

-- One handler that fails; the callbacks add one to the state.
abbrev sinks : Sinks ErrorKind ℕ ℕ ℕ
sinks = record {
  bus = none;
  handlers = λ _. (λ x env msg. (suc x, some broken)) ∷ [];
  report_decode = λ x env e. suc x;
  report_handler = λ x env e. suc x;
  auto_track = λ x env msg. x;
}

failed_test : (act sinks 0 (delivered envelope 9)).1 ≡ some broken
unfolding act invoke finish_handler run_handlers str_beq
failed_test = refl

act-HandlerFailed_example : HandlerFailed sinks 0 (delivered envelope 9) broken
act-HandlerFailed_example = act-HandlerFailed sinks 0 (delivered envelope 9) broken failed_test

-- The later of two extractors wins.
registry_test :
    apply
      (register
        (register
          (register (new_registry {E = ErrorKind} {V = ℕ}) (some λ _ _. ok ((text "k", 1) ∷ [])))
          none)
        (some λ _ _. ok ((text "k", 2) ∷ [])))
      Channels.state
      []
    ≡ ok ((text "k", 2) ∷ [])
unfolding apply register new_registry insert str_beq
registry_test = refl

-- A topic that does not parse reaches a topic handler with an empty envelope.
topic_test : topic_envelope inlet (text "raw/topic") [] ≡ bare_envelope (text "raw/topic") []
unfolding topic_envelope parse str_beq
topic_test = refl

abbrev counting : Sinks ErrorKind ℕ ℕ ℕ
counting = record {
  bus = none;
  handlers = λ _. [];
  report_decode = λ x _ _. x;
  report_handler = λ x _ _. x + 10;
  auto_track = λ x _ _. x;
}

dispatch_topic_test :
    dispatch_topic inlet counting (λ x _. (suc x, some (message (text "no")))) 0 (text "t") []
    ≡ (11, some (message (text "no")))
unfolding dispatch_topic finish_handler
dispatch_topic_test = refl

report_decode_test :
    report_decode {E = ErrorKind}
      (λ x _ _. (suc x, some (message (text "bus"))))
      (some (λ x _ _. x + 5))
      0
      (bare_envelope {V = ℕ} [] [])
      (message (text "why"))
    ≡ 6
unfolding report_decode
report_decode_test = refl

-- A message that came in at `t` and was dispatched at `d` waited as long.
times_test :
    queue_wait (envelope_times 9 (with_received_at none (some 4))).0 (envelope_times 9 (some 4)).1
    ≡ 5
unfolding queue_wait envelope_times with_received_at
times_test = refl

note_test :
    note_inbound true 3 20 (some 4) (some 9)
    ≡ (inbound_slow_queue, 5) ∷ (inbound_slow_handler, 11) ∷ []
unfolding note_inbound queue_wait
note_test = refl

drop_test :
    (map_inbound_drop true discarded ≡ some inbound_dropped)
    × (map_inbound_drop false backpressured ≡ none)
    × (drop_reason_string inbound_backpressured ≡ text "backpressured")
    × (slow_cause_string inbound_slow_queue ≡ text "queue")
unfolding map_inbound_drop drop_reason_string slow_cause_string
drop_test = (refl, refl, refl, refl)
