-- ===== src/Agv/Handle/Laws.antt =====
-- agv.go: what a published order or instant action carries, and where it goes.
use navlink.Base.{
  false, ℕ, ◌≤◌, ◌≡◌, refl, ap, ◌⊎◌, inl, inr, true, Option, none, some, List, arith, map,
}
use navlink.Base.Result.{Result, ok, err}
use navlink.Base.Text.{GoString, Lacks}
use navlink.Errors.{Gerr, GoError}
use navlink.Config.{publish_qos}
use navlink.Topic.{Resolver, build, valid_channel, parse}
use navlink.Topic.Channels
use navlink.Topic.Laws.{parse_iff}
use navlink.Publish.{classify_publish, uncertain}
use navlink.Publish.Foreign.{IsForeign, classify-IsForeign}
use navlink.Agv.Messages.{Order, InstantActions, PublishOptions}
use navlink.Agv.Validation.{outbound_validation}
use navlink.Agv.Validation.Laws.{
  OrderPasses, InstantPasses, validate_order_iff, validate_instant_actions_iff,
  validate_order-IsRefusal, validate_instant_actions-IsRefusal,
}
use navlink.Agv.Builder.{prepare_order, prepare_instant_actions}
use navlink.Agv.Handle.{
  Handle, Sent, order_method, instant_method, publish_message, publish_order,
  publish_instant_actions,
}
use navlink.Agv.Handle.Delivery.{Delivered, Refused, publish_message_cases}

module _ {E T R : Type 0} ⦃g : Gerr E⦄
    (transport_publish : T → GoString → List ℕ → PublishOptions → T × Option (GoError E))
    (marshal : Order R → Result (GoError E) (List ℕ)) (a : Handle) where
  pub publish_order_cases :
      (t : T) (o : Order R)
      → let s = publish_order transport_publish marshal a t (some o) in
        Delivered transport_publish (order_method marshal a) a t o s
        ⊎ Refused transport_publish (order_method marshal a) a t o s
  unfolding publish_order
  publish_order_cases t o =
      publish_message_cases transport_publish (order_method marshal a) a t o (λ o.
        validate_order-IsRefusal E o a.manufacturer a.serial
          (outbound_validation a.cfg.outbound_validation))

  -- An order that was accepted.
  pub record Accepted (t : T) (o : Order R) (s : Sent E T (Order R)) : Type 0 where
    pub passes :
        OrderPasses o a.manufacturer a.serial (outbound_validation a.cfg.outbound_validation)
    pub qos : publish_qos a.cfg ≤ 2
    pub sent_header_id : s.result.header_id ≡ o.header.header_id
    pub sent_order_id : s.result.order_id ≡ o.order_id
    pub sent_order_update_id : s.result.order_update_id ≡ o.order_update_id
    pub message : s.message ≡ some (prepare_order a.builder a.manufacturer a.serial o)
    pub encoded : marshal (prepare_order a.builder a.manufacturer a.serial o) ≡ ok s.result.payload
    pub called :
        transport_publish t
          (build a.topics a.manufacturer a.serial Channels.order)
          s.result.payload
          (record { qos = publish_qos a.cfg; retain = false })
        ≡ (s.transport, none)

  -- An order that was accepted passed the configured checks at the handle's identity with a QoS of
  -- at most 2, was encoded after the builder's defaults were filled in, and went to the transport in
  -- one call on the handle's order topic; the result reports the caller's own headerId, orderId and
  -- orderUpdateId.
  pub publish_order-Accepted :
      (t : T) (o : Order R)
      → (publish_order transport_publish marshal a t (some o)).error ≡ none
      → Accepted t o (publish_order transport_publish marshal a t (some o))
  unfolding prepare_order
  publish_order-Accepted t o h = elim (publish_order_cases t o) [
    | inr r ↦ absurd (cc r.returned)
    | inl d ↦ record {
      passes = (validate_order_iff E ⦃g = g⦄ o _ _ _).0 d.passed;
      qos = d.qos;
      sent_header_id = ap (λ r. r.header_id) d.result;
      sent_order_id = ap (λ r. r.order_id) d.result;
      sent_order_update_id = ap (λ r. r.order_update_id) d.result;
      message = d.message;
      encoded = rw (ap (λ r. r.payload) d.result) d.marshalled;
      called = rw (ap (λ r. r.payload) d.result, ← h) d.called;
    }
  ]

  -- An order of a started handle that passes the checks and cannot be encoded never reaches the
  -- transport; yet if errors.Is finds none of the registered errors in the encoder's error, and no
  -- context error, its outcome is Uncertain and not NotStarted.
  pub publish_order-unencodable :
      (t : T) (o : Order R) (e : GoError E)
      → a.started ≡ true
      → OrderPasses o a.manufacturer a.serial (outbound_validation a.cfg.outbound_validation)
      → marshal (prepare_order a.builder a.manufacturer a.serial o) ≡ err e
      → IsForeign e
      → let s = publish_order transport_publish marshal a t (some o) in
        (s.transport ≡ t) × (classify_publish s.error ≡ uncertain)
  unfolding publish_order publish_message
  publish_order-unencodable t o e started passes broken foreign =
      let passed = (validate_order_iff E ⦃g = g⦄ o _ _ _).1 passes in
      ground (arith, classify-IsForeign e foreign)

module _ {E T V : Type 0} ⦃g : Gerr E⦄
    (transport_publish : T → GoString → List ℕ → PublishOptions → T × Option (GoError E))
    (marshal : InstantActions V → Result (GoError E) (List ℕ)) (a : Handle) where
  -- PublishInstantActions either delivers its message to the transport, once, or refuses it.
  pub publish_instant_actions_cases :
      (t : T) (ia : InstantActions V)
      → let s = publish_instant_actions transport_publish marshal a t (some ia) in
        Delivered transport_publish (instant_method marshal a) a t ia s
        ⊎ Refused transport_publish (instant_method marshal a) a t ia s
  unfolding publish_instant_actions
  publish_instant_actions_cases t ia =
      publish_message_cases transport_publish (instant_method marshal a) a t ia λ ia.
        validate_instant_actions-IsRefusal E ia a.manufacturer a.serial
          (outbound_validation a.cfg.outbound_validation)

  -- Instant actions that were accepted.
  pub record AcceptedActions (t : T) (ia : InstantActions V) (s : Sent E T (InstantActions V))
      : Type 0 where
    pub passes :
        InstantPasses ia a.manufacturer a.serial (outbound_validation a.cfg.outbound_validation)
    pub qos : publish_qos a.cfg ≤ 2
    pub sent_header_id : s.result.header_id ≡ ia.header.header_id
    pub sent_action_ids : s.result.action_ids ≡ map (λ act. act.action_id) ia.actions
    pub encoded :
        marshal (prepare_instant_actions a.builder a.manufacturer a.serial ia) ≡ ok s.result.payload
    pub called :
        transport_publish t
          (build a.topics a.manufacturer a.serial Channels.instant_actions)
          s.result.payload
          (record { qos = publish_qos a.cfg; retain = false })
        ≡ (s.transport, none)

  -- Instant actions that were accepted passed the configured checks at the handle's identity with a QoS
  -- of at most 2, were encoded after the builder's defaults were filled in, and went to the transport
  -- in one call on the handle's instantActions topic; the result reports the caller's own headerId and
  -- actionIds.
  pub publish_instant_actions-Accepted :
      (t : T) (ia : InstantActions V)
      → (publish_instant_actions transport_publish marshal a t (some ia)).error ≡ none
      → AcceptedActions t ia (publish_instant_actions transport_publish marshal a t (some ia))
  unfolding prepare_instant_actions
  publish_instant_actions-Accepted t ia h = elim (publish_instant_actions_cases t ia) [
    | inr r ↦ absurd (cc r.returned)
    | inl d ↦ record {
      passes = (validate_instant_actions_iff E ⦃g = g⦄ ia _ _ _).0 d.passed;
      qos = d.qos;
      sent_header_id = ap (λ r. r.header_id) d.result;
      sent_action_ids = ap (λ r. r.action_ids) d.result;
      encoded = rw (ap (λ r. r.payload) d.result) d.marshalled;
      called = rw (ap (λ r. r.payload) d.result, ← h) d.called;
    }
  ]

-- The topic that a handle publishes on leads back to the handle's vehicle and to the channel.
pub parse-published_topic :
    (r : Resolver) (mfr serial : GoString) (ch : GoString)
    → valid_channel ch ≡ true
    → Lacks b'/' r.interface
    → Lacks b'/' r.version
    → Lacks b'/' mfr
    → Lacks b'/' serial
    → parse r (build r mfr serial ch)
      ≡ ok (record {
        interface = r.interface;
        version = r.version;
        manufacturer = mfr;
        serial_number = serial;
        channel = ch;
      })
parse-published_topic r mfr serial ch hc hi hv hm hs = (parse_iff r _ _).1 (record {
  built = refl;
  interface = hi;
  version = hv;
  manufacturer = hm;
  serial_number = hs;
  channel = hc;
})
