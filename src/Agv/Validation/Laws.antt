-- ===== src/Agv/Validation/Laws.antt =====
-- outbound_validate.go: which messages pass, and how the others are refused.
use navlink.Base.{
  ℕ, ◌+◌, ◌≡◌, ◌≢◌, ◌↔◌, ◌⊎◌, true, false, Option, none, some, List, [], ◌∷◌, arith, Bool,
  if◌then◌else◌,
}
use navlink.Base.Lists.{All}
use navlink.Base.Text.{GoString, str_beq_iff, is_blank}
use navlink.Errors.{Gerr, GoError, is_kind}
use navlink.Errors.Kinds.{outbound_validation_failed}
use navlink.Agv.Messages.{Header, Order, InstantAction, InstantActions}
use navlink.Agv.Validation.{
  OutboundValidation, Reason, validation_error, or_else, validate_header, validate_order,
  validate_actions, validate_instant_actions,
}

-- A field of the message is blank or agrees with the handle.
abbrev pub Agrees : GoString → GoString → Type 0
Agrees msg handle = (msg ≡ []) ⊎ (msg ≡ handle)

-- A header that the options let through for a handle.
abbrev pub HeaderPasses : Header → GoString → GoString → OutboundValidation → Type 0
HeaderPasses h mfr serial opts =
    ((opts.allow_zero_header_id ≡ true) ⊎ (h.header_id ≢ 0))
    × ((opts.skip_identity_check ≡ true)
        ⊎ (Agrees h.manufacturer mfr × Agrees h.serial_number serial))

abbrev pub OrderPasses : {R : Type 0} → Order R → GoString → GoString → OutboundValidation → Type 0
OrderPasses o mfr serial opts =
    (opts.disabled ≡ true)
    ⊎ (HeaderPasses o.header mfr serial opts
        × (is_blank o.order_id ≡ false)
        × (o.order_update_id ≢ 0))

abbrev pub InstantPasses :
    {V : Type 0} → InstantActions V → GoString → GoString → OutboundValidation → Type 0
InstantPasses ia mfr serial opts =
    (opts.disabled ≡ true)
    ⊎ (HeaderPasses ia.header mfr serial opts × All (λ a. is_blank a.action_id ≡ false) ia.actions)

module _ (E : Type 0) ⦃g : Gerr E⦄ where
  validate_header_iff :
      (h : Header) (mfr serial : GoString) (opts : OutboundValidation)
      → (validate_header {E = E} h mfr serial opts ≡ none) ↔ HeaderPasses h mfr serial opts
  unfolding validate_header
  validate_header_iff h mfr serial opts = ground (
    arith,
    str_beq_iff h.manufacturer [],
    str_beq_iff h.manufacturer mfr,
    str_beq_iff h.serial_number [],
    str_beq_iff h.serial_number serial,
  )

  -- An order passes exactly if the checks are off, or its headerId is not 0 (or may be), its
  -- identity is blank or the handle's (or not checked), its orderId is not blank and its
  -- orderUpdateId is not 0.
  pub validate_order_iff :
      {R : Type 0} (o : Order R) (mfr serial : GoString) (opts : OutboundValidation)
      → (validate_order {E = E} o mfr serial opts ≡ none) ↔ OrderPasses o mfr serial opts
  unfolding validate_order
  validate_order_iff o mfr serial opts =
      ground (arith, validate_header_iff o.header mfr serial opts)

  validate_actions_iff :
      {V : Type 0} (i : ℕ) (acts : List (InstantAction V))
      → (validate_actions {E = E} i acts ≡ none) ↔ All (λ a. is_blank a.action_id ≡ false) acts
  unfolding validate_actions
  validate_actions_iff i [] = ground arith
  validate_actions_iff i (a ∷ acts) = ground (arith, validate_actions_iff (i + 1) acts)

  -- Instant actions pass exactly if the checks are off, or the header passes as an order's does and
  -- no action has a blank actionId.
  pub validate_instant_actions_iff :
      {V : Type 0} (ia : InstantActions V) (mfr serial : GoString) (opts : OutboundValidation)
      → (validate_instant_actions {E = E} ia mfr serial opts ≡ none)
        ↔ InstantPasses ia mfr serial opts
  unfolding validate_instant_actions
  validate_instant_actions_iff ia mfr serial opts =
      ground
        (arith, validate_header_iff ia.header mfr serial opts, validate_actions_iff 0 ia.actions)

  -- An OutboundValidationFailed, if it is an error.
  abbrev pub IsRefusal : Option (GoError E) → Type 0
  IsRefusal none = Unit
  IsRefusal (some e) = is_kind outbound_validation_failed e ≡ true

  validation_error-IsRefusal :
      (reason : Reason) (detail : GoString) → IsRefusal (some (validation_error reason detail))
  unfolding validation_error is_kind
  validation_error-IsRefusal reason [] = simp (g.matches-with_metadata, g.matches-base)
  validation_error-IsRefusal reason (c ∷ d) = simp (g.matches-with_metadata, g.matches-base)

  if-IsRefusal :
      (c : Bool) (a b : Option (GoError E))
      → IsRefusal a
      → IsRefusal b
      → IsRefusal (if c then a else b)
  if-IsRefusal true a b h k = h
  if-IsRefusal false a b h k = k

  or_else-IsRefusal :
      (a b : Option (GoError E)) → IsRefusal a → IsRefusal b → IsRefusal (or_else a b)
  or_else-IsRefusal none b h k = k
  or_else-IsRefusal (some e) b h k = h

  ruleset refusals = (if-IsRefusal, or_else-IsRefusal, validation_error-IsRefusal)

  validate_header-IsRefusal :
      (h : Header) (mfr serial : GoString) (opts : OutboundValidation)
      → IsRefusal (validate_header h mfr serial opts)
  unfolding validate_header
  validate_header-IsRefusal h mfr serial opts = search (refusals, tt) depth 9

  -- An order that is refused by the checks is refused as OutboundValidationFailed.
  pub validate_order-IsRefusal :
      {R : Type 0} (o : Order R) (mfr serial : GoString) (opts : OutboundValidation)
      → IsRefusal (validate_order o mfr serial opts)
  unfolding validate_order
  validate_order-IsRefusal o mfr serial opts =
      search (refusals, validate_header-IsRefusal o.header mfr serial opts, tt) depth 9

  validate_actions-IsRefusal :
      {V : Type 0} (i : ℕ) (acts : List (InstantAction V)) → IsRefusal (validate_actions i acts)
  unfolding validate_actions
  validate_actions-IsRefusal i [] = tt
  validate_actions-IsRefusal i (a ∷ acts) =
      search (refusals, validate_actions-IsRefusal (i + 1) acts)

  pub validate_instant_actions-IsRefusal :
      {V : Type 0} (ia : InstantActions V) (mfr serial : GoString) (opts : OutboundValidation)
      → IsRefusal (validate_instant_actions ia mfr serial opts)
  unfolding validate_instant_actions
  validate_instant_actions-IsRefusal ia mfr serial opts =
      search
        (
          refusals,
          validate_header-IsRefusal ia.header mfr serial opts,
          validate_actions-IsRefusal 0 ia.actions,
          tt,
        )
        depth 9
