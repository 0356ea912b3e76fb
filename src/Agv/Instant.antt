-- ===== src/Agv/Instant.antt =====
-- instant.go: the standard instant actions. The action names and the blocking type are constants of
-- vda5050-types-go; parameter values are texts, or floats of a type `F`.
pub mod Laws
use navlink.Base.{ℕ, Option, none, some, List, [], ◌∷◌, if◌then◌else◌, ◌==◌}
use navlink.Base.Result.{Result}
use navlink.Base.Text.{GoString, text, string_eq, is_blank}
use navlink.Errors.{Gerr, GoError, raise_args}
use navlink.Errors.Kinds.{invalid_config}
use navlink.Agv.Messages.{Header, InstantAction, InstantActions, PublishOptions}
use navlink.Agv.Handle.{Handle, Sent, zero_result, publish_instant_actions}

-- The constants of vda5050-types-go that instant.go names.
pub record Vda : Type 0 where
  pub hard : GoString
  pub cancel_order : GoString
  pub start_pause : GoString
  pub stop_pause : GoString
  pub state_request : GoString
  pub factsheet_request : GoString
  pub start_charging : GoString
  pub stop_charging : GoString
  pub init_position : GoString

pub data ParamValue (F : Type 0) : Type 0 where
  float : F → ParamValue F
  str : GoString → ParamValue F

-- InitPositionParams
pub record InitPositionParams (F : Type 0) : Type 0 where
  pub x : F
  pub y : F
  pub theta : F
  pub map_id : GoString
  pub last_node_id : GoString

-- The message that publishStdInstant builds.
unfoldable pub std_instant :
    {F : Type 0}
    → Vda
    → ℕ
    → GoString
    → GoString
    → List (GoString × ParamValue F)
    → InstantActions (ParamValue F)
std_instant vda header_id action_id action_type params = record {
  header = record {
    header_id = header_id;
    timestamp = [];
    version = [];
    manufacturer = [];
    serial_number = [];
  };
  actions =
      record {
        action_type = action_type;
        action_id = action_id;
        blocking_type = vda.hard;
        parameters = params;
      }
      ∷ [];
}

-- The parameters of initPosition, in the order of the source.
unfoldable pub init_position_params :
    {F : Type 0} → InitPositionParams F → List (GoString × ParamValue F)
init_position_params p =
    (text "x", float p.x)
    ∷ (text "y", float p.y)
    ∷ (text "theta", float p.theta)
    ∷ (text "mapId", str p.map_id)
    ∷ (text "lastNodeId", str p.last_node_id)
    ∷ []

module _ {E T F : Type 0} ⦃g : Gerr E⦄ (vda : Vda)
    (transport_publish : T → GoString → List ℕ → PublishOptions → T × Option (GoError E))
    (marshal : InstantActions (ParamValue F) → Result (GoError E) (List ℕ)) (a : Handle) where
  -- return PublishResult{}, err
  reject : T → GoString → Sent E T (InstantActions (ParamValue F))
  reject t detail = record {
    transport = t;
    message = none;
    result = zero_result;
    error = some (raise_args invalid_config detail);
  }

  -- publishStdInstant
  unfoldable pub publish_std_instant :
      T
      → ℕ
      → GoString
      → GoString
      → List (GoString × ParamValue F)
      → Sent E T (InstantActions (ParamValue F))
  unfolding reject
  publish_std_instant t header_id action_id action_type params =
      if action_id == []
      then reject t (text "actionId is required")
      else publish_instant_actions transport_publish marshal a t
          (some (std_instant vda header_id action_id action_type params))

  -- CancelOrder
  abbrev pub cancel_order : T → ℕ → GoString → Sent E T (InstantActions (ParamValue F))
  cancel_order t header_id action_id = publish_std_instant t header_id action_id vda.cancel_order []

  -- StartPause
  abbrev pub start_pause : T → ℕ → GoString → Sent E T (InstantActions (ParamValue F))
  start_pause t header_id action_id = publish_std_instant t header_id action_id vda.start_pause []

  -- StopPause
  abbrev pub stop_pause : T → ℕ → GoString → Sent E T (InstantActions (ParamValue F))
  stop_pause t header_id action_id = publish_std_instant t header_id action_id vda.stop_pause []

  -- StateRequest
  abbrev pub state_request : T → ℕ → GoString → Sent E T (InstantActions (ParamValue F))
  state_request t header_id action_id =
      publish_std_instant t header_id action_id vda.state_request []

  -- FactsheetRequest
  abbrev pub factsheet_request : T → ℕ → GoString → Sent E T (InstantActions (ParamValue F))
  factsheet_request t header_id action_id =
      publish_std_instant t header_id action_id vda.factsheet_request []

  -- StartCharging
  abbrev pub start_charging : T → ℕ → GoString → Sent E T (InstantActions (ParamValue F))
  start_charging t header_id action_id =
      publish_std_instant t header_id action_id vda.start_charging []

  -- StopCharging
  abbrev pub stop_charging : T → ℕ → GoString → Sent E T (InstantActions (ParamValue F))
  stop_charging t header_id action_id =
      publish_std_instant t header_id action_id vda.stop_charging []

  -- InitPosition
  unfoldable pub init_position :
      T → ℕ → GoString → InitPositionParams F → Sent E T (InstantActions (ParamValue F))
  unfolding reject
  init_position t header_id action_id p =
      if is_blank p.map_id
      then reject t (text "mapId is required")
      else if is_blank p.last_node_id
      then reject t (text "lastNodeId is required")
      else publish_std_instant t header_id action_id vda.init_position (init_position_params p)
