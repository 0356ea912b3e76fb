-- ===== src/Inbound/Pipeline.antt =====
-- inbound.go: onRawMessage, as the fate of a message and what is done about it.
pub mod Passing
pub mod Fates
pub mod Returns
use navlink.Base.{ℕ, Bool, ◌||◌, ◌&&◌, not, Option, none, some, List, [], ◌∷◌, if◌then◌else◌, ◌==◌}
use navlink.Base.Result.{Result, ok, err}
use navlink.Base.Text.{GoString, text, string_eq}
use navlink.Errors.{Gerr, GoError, message, raise, raise_args}
use navlink.Errors.Kinds.{decode_failed, identity_mismatch}
use navlink.Config.{Config, strict_identity}
use navlink.Topic.{Resolver, ParsedTopic, ParseError, parse}
use navlink.Topic.Channels.{Channel}
use navlink.Topic.Channels
use navlink.Inbound.Policy.{Identity, Disposition, accept}
use navlink.Inbound.Registry.{Registry, Meta, apply}
use navlink.Inbound.{HeaderSummary, Envelope, bare_envelope, parsed_envelope, is_typed}

-- What becomes of a message: a decode failure is reported, a channel without handlers ends it, or it
-- goes to the handlers.
pub data Fate (E V M : Type 0) : Type 0 where
  reported : Envelope V → GoError E → Fate E V M
  ignored : Envelope V → Fate E V M
  delivered : Envelope V → M → Fate E V M

-- What the client is configured with: the resolver, the extensions, IdentityMapper, and the
-- InboundPolicy over its state `P` (`none` is the empty disposition).
pub record Inlet (E V P : Type 0) : Type 0 where
  pub cfg : Config
  pub topics : Resolver
  pub extensions : Option (Registry E V)
  pub mapper : Option (GoString → GoString → GoString)
  pub policy : Option (P → Identity → Channel → ℕ → P × Option Disposition)

-- json.Unmarshal: of the header, and of the payload into the type of a channel; the error is its text.
pub record Json (M : Type 0) : Type 0 where
  pub header : List ℕ → Option HeaderSummary
  pub payload : Channel → List ℕ → Result GoString M

-- `d == ""` stands for accept.
abbrev pub or_accept : Option Disposition → Disposition
or_accept none = accept
or_accept (some d) = d

module _ {E V P M : Type 0} ⦃g : Gerr E⦄ (json : Json M) (parse_message : ParseError → GoString)
    (inlet : Inlet E V P) where
  -- checkIdentity
  unfoldable pub check_identity : Envelope V → Option (GoError E)
  check_identity env =
      if not (strict_identity inlet.cfg)
      then none
      else if env.header.manufacturer == [] && env.header.serial_number == []
      then none
      else if not (env.header.manufacturer == env.agv.manufacturer)
          || not (env.header.serial_number == env.agv.serial_number)
      then some (raise identity_mismatch)
      else none

  policy_with :
      Option (P → Identity → Channel → ℕ → P × Option Disposition) → P → Envelope V → P × Envelope V
  policy_with none p env = (p, env)
  policy_with (some classify) p env =
      let (p', d) = classify p env.agv env.channel env.header.header_id in
      (p', record env { disposition = some (or_accept d) })

  -- applyInboundPolicy
  apply_inbound_policy : P → Envelope V → P × Envelope V
  unfolding policy_with
  apply_inbound_policy p env = policy_with inlet.policy p env

  decoded : Envelope V → Result GoString M → Fate E V M
  decoded env (err why) = reported env (raise_args decode_failed why)
  decoded env (ok msg) = delivered env msg

  -- The switch on the channel.
  by_channel : P × Envelope V → P × Fate E V M
  unfolding decoded
  by_channel (p, env) = (
    p,
    if is_typed env.channel then decoded env (json.payload env.channel env.raw) else ignored env,
  )

  identified : P → Envelope V → Option (GoError E) → P × Fate E V M
  unfolding apply_inbound_policy by_channel
  identified p env (some e) = (p, reported env e)
  identified p env none = by_channel (apply_inbound_policy p env)

  pub with_header : P → Envelope V → Option HeaderSummary → P × Fate E V M
  unfolding identified by_channel check_identity
  with_header p env none = by_channel (p, env)
  with_header p env (some h) =
      identified p (record env { header = h }) (check_identity (record env { header = h }))

  -- `extension_message` is err.Error() of what Apply returns.
  extended : (GoError E → GoString) → P → Envelope V → Result (GoError E) (Meta V) → P × Fate E V M
  unfolding with_header
  extended extension_message p env (err e) =
      (p, reported env (raise_args decode_failed (extension_message e)))
  extended extension_message p env (ok meta) =
      with_header p (record env { meta = meta }) (json.header env.raw)

  with_extensions : (GoError E → GoString) → P → Envelope V → Option (Registry E V) → P × Fate E V M
  unfolding extended apply
  with_extensions extension_message p env none = with_header p env (json.header env.raw)
  with_extensions extension_message p env (some r) =
      extended extension_message p env (apply r env.channel env.raw)

  parsed :
      (GoError E → GoString)
      → P
      → GoString
      → List ℕ
      → Result ParseError ParsedTopic
      → P × Fate E V M
  unfolding with_extensions
  parsed extension_message p topic raw (err e) =
      (p, reported (bare_envelope topic raw) (message (parse_message e)))
  parsed extension_message p topic raw (ok t) =
      with_extensions extension_message p (parsed_envelope inlet.mapper t topic raw)
        inlet.extensions

  -- onRawMessage, up to the handlers
  unfoldable pub fate : (GoError E → GoString) → P → GoString → List ℕ → P × Fate E V M
  unfolding parsed
  fate extension_message p topic raw =
      parsed extension_message p topic raw (parse inlet.topics topic)

-- What the client does about a fate: its bus or its handlers, and the two error callbacks.
pub record Sinks (E V M X : Type 0) : Type 0 where
  pub bus : Option (X → Envelope V → M → X × Option (GoError E))
  pub handlers : Channel → List (X → Envelope V → M → X × Option (GoError E))
  pub report_decode : X → Envelope V → GoError E → X
  pub report_handler : X → Envelope V → GoError E → X
  pub auto_track : X → Envelope V → M → X

module _ {E V M X : Type 0} where
  -- for _, h := range handlers
  unfoldable pub run_handlers :
      List (X → Envelope V → M → X × Option (GoError E))
      → Envelope V
      → M
      → X × Option (GoError E)
      → X × Option (GoError E)
  run_handlers hs env msg (x, some e) = (x, some e)
  run_handlers [] env msg (x, none) = (x, none)
  run_handlers (h ∷ hs) env msg (x, none) = run_handlers hs env msg (h x env msg)

module _ {E V M X : Type 0} (sinks : Sinks E V M X) where
  sink :
      Option (X → Envelope V → M → X × Option (GoError E))
      → X
      → Envelope V
      → M
      → X × Option (GoError E)
  unfolding run_handlers
  sink (some publish) x env msg = publish x env msg
  sink none x env msg = run_handlers (sinks.handlers env.channel) env msg (x, none)

  -- invokeState, invokeConnection, invokeVisualization and invokeFactsheet
  unfoldable pub invoke : X → Envelope V → M → X × Option (GoError E)
  unfolding sink
  invoke x env msg =
      if env.channel == Channels.connection
      then sink sinks.bus (sinks.auto_track x env msg) env msg
      else sink sinks.bus x env msg

  -- finishHandler
  unfoldable pub finish_handler : Envelope V → X × Option (GoError E) → X × Option (GoError E)
  finish_handler env (x, none) = (x, none)
  finish_handler env (x, some e) = (sinks.report_handler x env e, some e)

  -- onRawMessage, of a fate
  unfoldable pub act : X → Fate E V M → X × Option (GoError E)
  unfolding invoke finish_handler
  act x (reported env e) = (sinks.report_decode x env e, none)
  act x (ignored env) = (x, none)
  act x (delivered env msg) = finish_handler env (invoke x env msg)
