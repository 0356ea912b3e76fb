-- ===== src/Inbound/Topics.antt =====
-- inbound.go: dispatchTopic, the path of a handler of OnTopic, and reportDecode.
use navlink.Base.{ℕ, Option, none, some, List}
use navlink.Base.Result.{Result, ok, err}
use navlink.Base.Text.{GoString}
use navlink.Errors.{GoError}
use navlink.Topic.{ParsedTopic, ParseError, parse}
use navlink.Inbound.{Envelope, bare_envelope, parsed_envelope}
use navlink.Inbound.Pipeline.{Inlet, Sinks, finish_handler}

module _ {E V P : Type 0} (inlet : Inlet E V P) where
  topic_envelope_of : GoString → List ℕ → Result ParseError ParsedTopic → Envelope V
  topic_envelope_of topic raw (err e) = bare_envelope topic raw
  topic_envelope_of topic raw (ok t) = parsed_envelope inlet.mapper t topic raw

  -- The envelope of dispatchTopic: that of the topic if it parses, or one with no vehicle.
  unfoldable pub topic_envelope : GoString → List ℕ → Envelope V
  unfolding topic_envelope_of
  topic_envelope topic raw = topic_envelope_of topic raw (parse inlet.topics topic)

module _ {E V M P X : Type 0} (inlet : Inlet E V P) (sinks : Sinks E V M X) where
  -- dispatchTopic, of a handler
  unfoldable pub dispatch_topic :
      (X → Envelope V → X × Option (GoError E)) → X → GoString → List ℕ → X × Option (GoError E)
  unfolding topic_envelope
  dispatch_topic h x topic raw =
      finish_handler sinks (topic_envelope inlet topic raw) (h x (topic_envelope inlet topic raw))

module _ {E V X : Type 0} where
  after_bus :
      Option (X → Envelope V → GoError E → X) → Envelope V → GoError E → X × Option (GoError E) → X
  after_bus none env e (x, _) = x
  after_bus (some on_decode_error) env e (x, _) = on_decode_error x env e

  -- reportDecode: the bus hears of it first, and what it returns is dropped.
  unfoldable pub report_decode :
      (X → Envelope V → GoError E → X × Option (GoError E))
      → Option (X → Envelope V → GoError E → X)
      → X
      → Envelope V
      → GoError E
      → X
  unfolding after_bus
  report_decode publish on_decode_error x env e = after_bus on_decode_error env e (publish x env e)
