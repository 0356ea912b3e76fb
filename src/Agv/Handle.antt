-- ===== src/Agv/Handle.antt =====
-- agv.go: AGVHandle.PublishOrder and PublishInstantActions. Both run the same steps over their
-- message type, which `publish_message` holds once. encoding/json over the message structs and the
-- transport are parameters.
pub mod Delivery
pub mod Laws
use navlink.Base.{false, ℕ, Bool, Option, none, some, List, [], map, if◌then◌else◌}
use navlink.Base.Result.{Result, ok, err}
use navlink.Base.Text.{GoString, text}
use navlink.Errors.{Gerr, GoError, raise, raise_args}
use navlink.Errors.Kinds.{client_not_started, invalid_config}
use navlink.Topic.{Resolver, build}
use navlink.Topic.Channels.{Channel}
use navlink.Topic.Channels
use navlink.Config.{Config, publish_qos}
use navlink.Publish.{validate_publish_qos}
use navlink.Agv.Messages.{Order, InstantActions, PublishOptions, PublishResult}
use navlink.Agv.Validation.{outbound_validation, validate_order, validate_instant_actions}
use navlink.Agv.Builder.{Builder, prepare_order, prepare_instant_actions}

-- AGVHandle, with what it reads of its client.
pub record Handle : Type 0 where
  pub started : Bool
  pub cfg : Config
  pub topics : Resolver
  pub builder : Builder
  pub manufacturer : GoString
  pub serial : GoString

-- What a call leaves: the transport, the caller's message, and the two results.
pub record Sent (E T M : Type 0) : Type 0 where
  pub transport : T
  pub message : Option M
  pub result : PublishResult
  pub error : Option (GoError E)

-- var res PublishResult
abbrev pub zero_result : PublishResult
zero_result = record {
  topic = [];
  channel = [];
  manufacturer = [];
  serial_number = [];
  qos = 0;
  payload = [];
  header_id = 0;
  order_id = [];
  order_update_id = 0;
  action_ids = [];
}

-- The result before the identifiers of the message are filled in.
abbrev pub addressed : Handle → Channel → List ℕ → PublishResult
addressed a ch payload = record zero_result {
  topic = build a.topics a.manufacturer a.serial ch;
  channel = ch;
  manufacturer = a.manufacturer;
  serial_number = a.serial;
  qos = publish_qos a.cfg;
  payload = payload;
}

-- What the two methods do differently.
pub record Method (E M : Type 0) : Type 0 where
  pub nil_error : GoString
  pub check : M → Option (GoError E)
  pub prepare : M → M
  pub marshal : M → Result (GoError E) (List ℕ)
  pub channel : Channel
  pub identify : M → PublishResult → PublishResult

module _ {E T M : Type 0} ⦃g : Gerr E⦄
    (transport_publish : T → GoString → List ℕ → PublishOptions → T × Option (GoError E))
    (method : Method E M) (a : Handle) where
  -- return res, err, before the transport is called
  refuse : T → Option M → GoError E → Sent E T M
  refuse t m e = record { transport = t; message = m; result = zero_result; error = some e }

  transmit : T → M → PublishResult → Sent E T M
  transmit t m res =
      let (t', e) =
        transport_publish t res.topic res.payload (record { qos = res.qos; retain = false }) in
      record { transport = t'; message = some m; result = method.identify m res; error = e }

  with_qos : T → M → List ℕ → Option (GoError E) → Sent E T M
  with_qos t m payload (some e) = refuse t (some m) e
  with_qos t m payload none = transmit t m (addressed a method.channel payload)

  marshalled : T → M → Result (GoError E) (List ℕ) → Sent E T M
  marshalled t m (err e) = refuse t (some m) e
  marshalled t m (ok payload) = with_qos t m payload (validate_publish_qos (publish_qos a.cfg))

  checked : T → M → Option (GoError E) → Sent E T M
  checked t m (some e) = refuse t (some m) e
  checked t m none = marshalled t (method.prepare m) (method.marshal (method.prepare m))

  given : T → Option M → Sent E T M
  given t none = refuse t none (raise_args invalid_config method.nil_error)
  given t (some m) = checked t m (method.check m)

  unfoldable pub publish_message : T → Option M → Sent E T M
  unfolding refuse transmit with_qos marshalled checked given
  publish_message t m = if a.started then given t m else refuse t m (raise client_not_started)

module _ {E : Type 0} ⦃g : Gerr E⦄ where
  abbrev pub order_method :
      {R : Type 0} → (Order R → Result (GoError E) (List ℕ)) → Handle → Method E (Order R)
  order_method marshal a = record {
    nil_error = text "order is nil";
    check = λ o.
        validate_order o a.manufacturer a.serial (outbound_validation a.cfg.outbound_validation);
    prepare = prepare_order a.builder a.manufacturer a.serial;
    marshal = marshal;
    channel = Channels.order;
    identify = λ o res. record res {
      header_id = o.header.header_id;
      order_id = o.order_id;
      order_update_id = o.order_update_id;
    };
  }

  abbrev pub instant_method :
      {V : Type 0}
      → (InstantActions V → Result (GoError E) (List ℕ))
      → Handle
      → Method E (InstantActions V)
  instant_method marshal a = record {
    nil_error = text "instantActions is nil";
    check = λ ia.
        validate_instant_actions ia a.manufacturer a.serial
          (outbound_validation a.cfg.outbound_validation);
    prepare = prepare_instant_actions a.builder a.manufacturer a.serial;
    marshal = marshal;
    channel = Channels.instant_actions;
    identify = λ ia res. record res {
      header_id = ia.header.header_id;
      action_ids = map (λ act. act.action_id) ia.actions;
    };
  }

module _ {E T : Type 0} ⦃g : Gerr E⦄
    (transport_publish : T → GoString → List ℕ → PublishOptions → T × Option (GoError E)) where
  -- AGVHandle.PublishOrder
  unfoldable pub publish_order :
      {R : Type 0}
      → (Order R → Result (GoError E) (List ℕ))
      → Handle
      → T
      → Option (Order R)
      → Sent E T (Order R)
  publish_order marshal a t o = publish_message transport_publish (order_method marshal a) a t o

  -- AGVHandle.PublishInstantActions
  unfoldable pub publish_instant_actions :
      {V : Type 0}
      → (InstantActions V → Result (GoError E) (List ℕ))
      → Handle
      → T
      → Option (InstantActions V)
      → Sent E T (InstantActions V)
  publish_instant_actions marshal a t ia =
      publish_message transport_publish (instant_method marshal a) a t ia
