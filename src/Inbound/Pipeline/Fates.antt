-- ===== src/Inbound/Pipeline/Fates.antt =====
-- inbound.go: what a message that reaches the handlers has passed.
use navlink.Base.{ℕ, ◌≡◌, refl, sym, subst, ap, ◌∙◌, true, Option, none, some, List}
use navlink.Base.Result.{Result, ok, err}
use navlink.Base.Text.{GoString, string_eq}
use navlink.Errors.{Gerr, GoError}
use navlink.Config.{strict_identity}
use navlink.Topic.{ParsedTopic, ParseError, parse}
use navlink.Inbound.Registry.{Registry, Meta}
use navlink.Inbound.{HeaderSummary, Envelope, identity_of, parsed_envelope, is_typed}
use navlink.Inbound.Pipeline.Passing.{SameVehicle, Same, Passed, with_header-Passed}
use navlink.Inbound.Pipeline.{delivered, Inlet, Json, extended, with_extensions, parsed, fate}

module _ {E V P M : Type 0} ⦃g : Gerr E⦄ (json : Json M) (parse_message : ParseError → GoString)
    (inlet : Inlet E V P) where
  -- What a delivered message has passed from its topic and payload on.
  pub record Reached (topic : GoString) (raw : List ℕ) (env : Envelope V) (msg : M) : Type 0 where
    pub vehicle : ParsedTopic
    pub parsed : parse inlet.topics topic ≡ ok vehicle
    pub agv : env.agv ≡ identity_of vehicle
    pub channel : env.channel ≡ vehicle.channel
    pub same_raw : env.raw ≡ raw
    pub same_topic : env.topic ≡ topic
    pub typed : is_typed vehicle.channel ≡ true
    pub payload : json.payload vehicle.channel raw ≡ ok msg
    pub identity :
        (h : HeaderSummary)
        → json.header raw ≡ some h
        → strict_identity inlet.cfg ≡ true
        → SameVehicle h (identity_of vehicle)

  reached :
      (topic : GoString) (raw : List ℕ) (env₀ env : Envelope V) (msg : M) (t : ParsedTopic)
      → parse inlet.topics topic ≡ ok t
      → Same (parsed_envelope inlet.mapper t topic raw) env₀
      → Passed json parse_message inlet env₀ (json.header raw) env msg
      → Reached topic raw env msg
  reached topic raw env₀ env msg t e (agv, channel, same_raw, same_topic) h = record {
    vehicle = t;
    parsed = e;
    agv = h.agv ∙ agv;
    channel = h.channel ∙ channel;
    same_raw = h.raw ∙ same_raw;
    same_topic = h.topic ∙ same_topic;
    typed = ap is_typed (sym channel) ∙ h.typed;
    payload =
        ap (λ c. json.payload c raw) (sym channel)
        ∙ ap (json.payload env₀.channel) (sym same_raw)
        ∙ h.payload;
    identity = λ x e strict. subst (SameVehicle x) agv (h.identity x e strict);
  }

  extended-Reached :
      (say : GoError E → GoString) (p : P) (topic : GoString) (raw : List ℕ) (env : Envelope V)
      (msg : M) (t : ParsedTopic) (meta : Result (GoError E) (Meta V))
      → parse inlet.topics topic ≡ ok t
      → (extended json parse_message inlet say p (parsed_envelope inlet.mapper t topic raw) meta).1
        ≡ delivered env msg
      → Reached topic raw env msg
  unfolding extended
  extended-Reached say p topic raw env msg t (err x) e d = cc
  extended-Reached say p topic raw env msg t (ok meta) e d =
      let env₀ : Envelope V = record (parsed_envelope inlet.mapper t topic raw) { meta = meta } in
      reached topic raw env₀ env msg t e (refl, refl, refl, refl)
        (with_header-Passed json parse_message inlet p env₀ env msg _ d)

  with_extensions-Reached :
      (say : GoError E → GoString) (p : P) (topic : GoString) (raw : List ℕ) (env : Envelope V)
      (msg : M) (t : ParsedTopic) (registry : Option (Registry E V))
      → parse inlet.topics topic ≡ ok t
      → (with_extensions json parse_message inlet say p
          (parsed_envelope inlet.mapper t topic raw)
          registry).1
        ≡ delivered env msg
      → Reached topic raw env msg
  unfolding with_extensions
  with_extensions-Reached say p topic raw env msg t none e d =
      reached topic raw _ env msg t e (refl, refl, refl, refl)
        (with_header-Passed json parse_message inlet p _ env msg _ d)
  with_extensions-Reached say p topic raw env msg t (some r) e d =
      extended-Reached say p topic raw env msg t _ e d

  parsed-Reached :
      (say : GoError E → GoString) (p : P) (topic : GoString) (raw : List ℕ) (env : Envelope V)
      (msg : M) (r : Result ParseError ParsedTopic)
      → parse inlet.topics topic ≡ r
      → (parsed json parse_message inlet say p topic raw r).1 ≡ delivered env msg
      → Reached topic raw env msg
  unfolding parsed
  parsed-Reached say p topic raw env msg (err x) e d = cc
  parsed-Reached say p topic raw env msg (ok t) e d =
      with_extensions-Reached say p topic raw env msg t inlet.extensions e d

  -- A message reaches the handlers only if its topic parses to a vehicle and a channel with a typed
  -- handler, which the envelope names, and its payload decodes for that channel to what the handlers
  -- are given; and if identities are checked and the header decodes, the header names no vehicle or
  -- the topic's.
  pub fate-Reached :
      (say : GoError E → GoString) (p : P) (topic : GoString) (raw : List ℕ) (env : Envelope V)
      (msg : M)
      → (fate json parse_message inlet say p topic raw).1 ≡ delivered env msg
      → Reached topic raw env msg
  unfolding fate
  fate-Reached say p topic raw env msg d = parsed-Reached say p topic raw env msg _ refl d
