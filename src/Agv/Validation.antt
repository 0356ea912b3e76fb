-- ===== src/Agv/Validation.antt =====
-- outbound_validate.go: the light checks before a publish.
pub mod Laws
use navlink.Base.{
  ℕ, suc, ◌+◌, Bool, true, false, ◌&&◌, not, Option, none, some, List, [], ◌∷◌, ◌++◌, if◌then◌else◌,
  ◌==◌, nat_eq,
}
use navlink.Base.Text.{GoString, text, string_eq, is_blank, itoa}
use navlink.Errors.{Gerr, GoError, coded, str, raise_with}
use navlink.Errors.Kinds.{outbound_validation_failed}
use navlink.Agv.Messages.{Header, Order, InstantAction, InstantActions}

-- OutboundValidation
pub record OutboundValidation : Type 0 where
  pub disabled : Bool
  pub allow_zero_header_id : Bool
  pub skip_identity_check : Bool

-- Config.outboundValidation
unfoldable pub outbound_validation : Option OutboundValidation → OutboundValidation
outbound_validation none = record {
  disabled = false;
  allow_zero_header_id = false;
  skip_identity_check = false;
}
outbound_validation (some v) = v

-- The Reason constants.
pub data Reason : Type 0 where
  header_id_zero order_id_empty order_update_id_zero action_id_empty identity_mismatch : Reason

abbrev pub reason_key : Reason → GoString
reason_key header_id_zero = text "headerId_zero"
reason_key order_id_empty = text "orderId_empty"
reason_key order_update_id_zero = text "orderUpdateId_zero"
reason_key action_id_empty = text "actionId_empty"
reason_key identity_mismatch = text "identity_mismatch"

-- msg != "" && msg != handle
abbrev pub mismatched : GoString → GoString → Bool
mismatched msg handle = not (msg == []) && not (msg == handle)

module _ {E : Type 0} ⦃g : Gerr E⦄ where
  -- outboundValidationError
  pub validation_error : Reason → GoString → GoError E
  validation_error reason [] =
      raise_with outbound_validation_failed (text "reason") (str (reason_key reason))
  validation_error reason (c ∷ detail) =
      let failed =
        g.with_metadata (g.base outbound_validation_failed) (text "reason")
          (str (reason_key reason)) in
      coded (g.with_metadata failed (text "detail") (str (c ∷ detail)))

  -- validateOutboundHeader
  unfoldable pub validate_header :
      Header → GoString → GoString → OutboundValidation → Option (GoError E)
  validate_header h mfr serial opts =
      if not opts.allow_zero_header_id && h.header_id == 0
      then some (validation_error header_id_zero [])
      else if opts.skip_identity_check
      then none
      else if mismatched h.manufacturer mfr
      then some (validation_error identity_mismatch (text "manufacturer"))
      else if mismatched h.serial_number serial
      then some (validation_error identity_mismatch (text "serialNumber"))
      else none

  -- `if err := …; err != nil { return err }` before the rest
  abbrev pub or_else : Option (GoError E) → Option (GoError E) → Option (GoError E)
  or_else (some e) next = some e
  or_else none next = next

  -- validateOutboundOrder
  unfoldable pub validate_order :
      {R : Type 0} → Order R → GoString → GoString → OutboundValidation → Option (GoError E)
  validate_order o mfr serial opts =
      if opts.disabled
      then none
      else or_else (validate_header o.header mfr serial opts) (
          if is_blank o.order_id
          then some (validation_error order_id_empty [])
          else if o.order_update_id == 0
          then some (validation_error order_update_id_zero [])
          else none)

  -- The loop of validateOutboundInstantActions, from index `i`.
  validate_actions : {V : Type 0} → ℕ → List (InstantAction V) → Option (GoError E)
  validate_actions i [] = none
  validate_actions i (act ∷ acts) =
      if is_blank act.action_id
      then some (validation_error action_id_empty (text "index=" ++ itoa i))
      else validate_actions (i + 1) acts

  -- validateOutboundInstantActions
  unfoldable pub validate_instant_actions :
      {V : Type 0}
      → InstantActions V
      → GoString
      → GoString
      → OutboundValidation
      → Option (GoError E)
  unfolding validate_actions
  validate_instant_actions ia mfr serial opts =
      if opts.disabled
      then none
      else or_else (validate_header ia.header mfr serial opts) (validate_actions 0 ia.actions)
