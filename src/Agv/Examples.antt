-- ===== src/Agv/Examples.antt =====
-- agv.go, outbound_validate.go and instant.go: tests. The transport notes the topics it is handed.
use navlink.Base.{ℕ, ◌≡◌, refl, ◌↔◌, inl, inr, true, Option, none, some, List, [], ◌∷◌, map}
use navlink.Base.Result.{Result, ok, err}
use navlink.Base.Text.{GoString, text, str_beq, is_blank}
use navlink.Errors.{GoError, message, is_kind, is_canceled, is_deadline_exceeded}
use navlink.Errors.Kinds.{ErrorKind}
use navlink.Errors.Sample.{kind_gerr}
use navlink.Topic.{Resolver, build}
use navlink.Config.{publish_qos}
use navlink.Config.Examples.{minimal}
use navlink.Publish.Foreign.{IsForeign}
use navlink.Publish.{classify_publish, uncertain, validate_publish_qos}
use navlink.Agv.Messages.{Header, Order, InstantActions, PublishOptions}
use navlink.Agv.Validation.{
  OutboundValidation, outbound_validation, validate_order, validate_header,
  validate_instant_actions,
}
use navlink.Agv.Validation.Laws.{OrderPasses, validate_order_iff}
use navlink.Agv.Builder.{new_builder, set_clock, prepare_instant_actions}
use navlink.Agv.Handle.{Handle, publish_message, publish_order, publish_instant_actions}
use navlink.Agv.Handle.Laws.{
  AcceptedActions, publish_instant_actions-Accepted, Accepted, publish_order-Accepted,
  publish_order-unencodable,
}
use navlink.Agv.Instant.{
  Vda, ParamValue, InitPositionParams, std_instant, init_position_params, publish_std_instant,
  init_position, cancel_order, start_pause, stop_pause, state_request, factsheet_request,
  start_charging, stop_charging,
}

abbrev note :
    List GoString → GoString → List ℕ → PublishOptions → List GoString × Option (GoError ErrorKind)
note sent topic payload opts = (topic ∷ sent, none)

abbrev encode : Order ℕ → Result (GoError ErrorKind) (List ℕ)
encode o = ok (o.rest ∷ [])

abbrev encode_actions : {V : Type 0} → InstantActions V → Result (GoError ErrorKind) (List ℕ)
encode_actions ia = ok (ia.header.header_id ∷ [])

-- What encoding/json says to a NaN.
abbrev nan : GoString
nan = text "json: unsupported value: NaN"

abbrev encode_nan : Order ℕ → Result (GoError ErrorKind) (List ℕ)
encode_nan o = err (message nan)

abbrev uagv : Resolver
uagv = record { interface = text "uagv"; version = text "v2" }

abbrev handle : Handle
handle = record {
  started = true;
  cfg = minimal;
  topics = uagv;
  builder = record { version = text "2.0.0"; now = text "2026-01-01T00:00:00.00Z" };
  manufacturer = text "ACME";
  serial = text "AGV-1";
}

abbrev blank_header : ℕ → Header
blank_header id = record {
  header_id = id;
  timestamp = [];
  version = [];
  manufacturer = [];
  serial_number = [];
}

abbrev order_1 : Order ℕ
order_1 = record { header = blank_header 1; order_id = text "o-1"; order_update_id = 1; rest = 7 }

abbrev pause : InstantActions (ParamValue ℕ)
pause = record {
  header = blank_header 2;
  actions =
      record {
        action_type = text "startPause";
        action_id = text "a-1";
        blocking_type = text "HARD";
        parameters = [];
      }
      ∷ [];
}

abbrev checks : OutboundValidation
checks = outbound_validation none

validate_order_iff_example :
    (validate_order {E = ErrorKind} order_1 (text "ACME") (text "AGV-1") checks ≡ none)
    ↔ OrderPasses order_1 (text "ACME") (text "AGV-1") checks
validate_order_iff_example =
    validate_order_iff ErrorKind order_1 (text "ACME") (text "AGV-1") checks

publish_order_test :
    ((publish_order note encode handle [] (some order_1)).error ≡ none)
    × ((publish_order note encode handle [] (some order_1)).transport
        ≡ text "uagv/v2/ACME/AGV-1/order" ∷ [])
unfolding publish_order publish_message validate_order validate_header validate_publish_qos is_blank
    str_beq outbound_validation publish_qos build
publish_order_test = (refl, refl)

publish_order-Accepted_example :
    Accepted note encode handle [] order_1 (publish_order note encode handle [] (some order_1))
publish_order-Accepted_example =
    publish_order-Accepted note encode handle [] order_1 publish_order_test.0

nan-IsForeign : IsForeign {E = ErrorKind} (message nan)
unfolding is_kind is_canceled is_deadline_exceeded
nan-IsForeign = record { kinds = λ k. refl; canceled = refl; deadline = refl }

publish_order-unencodable_example :
    let s = publish_order note encode_nan handle [] (some order_1) in
    (s.transport ≡ []) × (classify_publish s.error ≡ uncertain)
unfolding is_blank outbound_validation
publish_order-unencodable_example =
    publish_order-unencodable note encode_nan handle [] order_1 (message nan) refl
      (inr ((inr (λ e. cc), inr (inl refl, inl refl)), refl, λ e. cc)) refl nan-IsForeign

publish_pause_test :
    (publish_instant_actions note encode_actions handle [] (some pause)).error ≡ none
unfolding publish_instant_actions publish_message validate_instant_actions validate_header
    validate_publish_qos is_blank str_beq outbound_validation publish_qos
publish_pause_test = refl

abbrev constants : Vda
constants = record {
  hard = text "HARD";
  cancel_order = text "cancelOrder";
  start_pause = text "startPause";
  stop_pause = text "stopPause";
  state_request = text "stateRequest";
  factsheet_request = text "factsheetRequest";
  start_charging = text "startCharging";
  stop_charging = text "stopCharging";
  init_position = text "initPosition";
}

abbrev at_dock : InitPositionParams ℕ
at_dock = record { x = 1; y = 2; theta = 0; map_id = text "hall"; last_node_id = text "dock" }

init_position_test :
    (init_position constants note encode_actions handle [] 3 (text "a-2") at_dock).error ≡ none
unfolding init_position publish_std_instant publish_instant_actions publish_message
    validate_instant_actions validate_header validate_publish_qos is_blank str_beq
    outbound_validation publish_qos std_instant
init_position_test = refl

-- The action type of the message that a call leaves.
abbrev sent_type : Option (InstantActions (ParamValue ℕ)) → List GoString
sent_type none = []
sent_type (some ia) = map (λ act. act.action_type) ia.actions

standard_types :
    map
      (λ call. sent_type (call constants note encode_actions handle [] 3 (text "a-2")).message)
      (cancel_order ∷ start_pause ∷ stop_pause ∷ state_request ∷ factsheet_request ∷ start_charging
        ∷ stop_charging ∷ [])
    ≡ map
        (λ name. name ∷ [])
        (text "cancelOrder"
          ∷ text "startPause"
          ∷ text "stopPause"
          ∷ text "stateRequest"
          ∷ text "factsheetRequest"
          ∷ text "startCharging"
          ∷ text "stopCharging"
          ∷ [])
unfolding publish_std_instant publish_instant_actions publish_message std_instant
    validate_instant_actions validate_header validate_publish_qos is_blank str_beq
    outbound_validation publish_qos prepare_instant_actions
standard_types = refl

init_position_params_test :
    map (λ p. p.0) (init_position_params at_dock)
    ≡ text "x" ∷ text "y" ∷ text "theta" ∷ text "mapId" ∷ text "lastNodeId" ∷ []
unfolding init_position_params
init_position_params_test = refl

-- A clock that is set gives the timestamps; nil leaves the clock as it is.
clock_test :
    set_clock (set_clock (new_builder (text "2.0.0") (text "T0")) (some (text "T1"))) none
    ≡ new_builder (text "2.0.0") (text "T1")
unfolding set_clock new_builder
clock_test = refl

publish_instant_actions-Accepted_example :
    AcceptedActions note encode_actions handle [] pause
      (publish_instant_actions note encode_actions handle [] (some pause))
publish_instant_actions-Accepted_example =
    publish_instant_actions-Accepted note encode_actions handle [] pause publish_pause_test
