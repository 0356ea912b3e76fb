-- ===== src/Agv/Messages.antt =====
-- The outbound messages, as far as agv.go, instant.go and internal/outbound read or write them. The
-- structs are those of vda5050-types-go; what else they hold is a parameter.
use navlink.Base.{ℕ, Bool, List}
use navlink.Base.Text.{GoString}
use navlink.Topic.Channels.{Channel}

-- vda5050.ProtocolHeader
pub record Header : Type 0 where
  pub header_id : ℕ
  pub timestamp : GoString
  pub version : GoString
  pub manufacturer : GoString
  pub serial_number : GoString

-- order.Order; `rest` holds the nodes, the edges and the other fields.
pub record Order (R : Type 0) : Type 0 where
  pub header : Header
  pub order_id : GoString
  pub order_update_id : ℕ
  pub rest : R

-- instant_actions.InstantAction; `V` is the type of parameter values.
pub record InstantAction (V : Type 0) : Type 0 where
  pub action_type : GoString
  pub action_id : GoString
  pub blocking_type : GoString
  pub parameters : List (GoString × V)

pub record InstantActions (V : Type 0) : Type 0 where
  pub header : Header
  pub actions : List (InstantAction V)

-- PublishOptions
pub record PublishOptions : Type 0 where
  pub qos : ℕ
  pub retain : Bool

-- PublishResult
pub record PublishResult : Type 0 where
  pub topic : GoString
  pub channel : Channel
  pub manufacturer : GoString
  pub serial_number : GoString
  pub qos : ℕ
  pub payload : List ℕ
  pub header_id : ℕ
  pub order_id : GoString
  pub order_update_id : ℕ
  pub action_ids : List GoString
