-- ===== src/Agv/Instant/Laws.antt =====
-- instant.go: a standard instant action is one action with the caller's identifiers.
use navlink.Base.{ℕ, ◌≡◌, false, Option, none, List, [], arith, Bool-cases, inl, inr}
use navlink.Base.Result.{Result}
use navlink.Base.Text.{GoString, str_beq, is_blank}
use navlink.Errors.{Gerr, GoError}
use navlink.Agv.Messages.{InstantActions, PublishOptions}
use navlink.Agv.Handle.{Handle}
use navlink.Agv.Handle.Laws.{AcceptedActions, publish_instant_actions-Accepted}
use navlink.Agv.Instant.{
  Vda, ParamValue, InitPositionParams, std_instant, publish_std_instant, init_position_params,
  init_position,
}

module _ {E T F : Type 0} ⦃g : Gerr E⦄ (vda : Vda)
    (transport_publish : T → GoString → List ℕ → PublishOptions → T × Option (GoError E))
    (marshal : InstantActions (ParamValue F) → Result (GoError E) (List ℕ)) (a : Handle) where
  publish_std_instant-Accepted :
      (t : T) (header_id : ℕ) (action_id action_type : GoString)
      (params : List (GoString × ParamValue F))
      → let s =
          publish_std_instant vda transport_publish marshal a t header_id action_id action_type
            params in
        s.error ≡ none
        → AcceptedActions transport_publish marshal a t
            (std_instant vda header_id action_id action_type params)
            s
  unfolding publish_std_instant
  publish_std_instant-Accepted t header_id action_id action_type params h =
      elim (Bool-cases (str_beq action_id [])) [
        | inl empty ↦ ground arith
        | inr given ↦
            rw given
              (publish_instant_actions-Accepted transport_publish marshal a t _ (rw given at h))
      ]

  -- An initPosition that was accepted names a map and a last node that are not blank, and what went
  -- to the transport is the one hard action with the caller's headerId and actionId and the five
  -- parameters x, y, theta, mapId and lastNodeId, under the guarantees of PublishInstantActions.
  pub init_position-Accepted :
      (t : T) (header_id : ℕ) (action_id : GoString) (p : InitPositionParams F)
      → (init_position vda transport_publish marshal a t header_id action_id p).error ≡ none
      → (is_blank p.map_id ≡ false)
        × (is_blank p.last_node_id ≡ false)
        × AcceptedActions transport_publish marshal a t
            (std_instant vda header_id action_id vda.init_position (init_position_params p))
            (init_position vda transport_publish marshal a t header_id action_id p)
  unfolding init_position
  init_position-Accepted t header_id action_id p h = elim (Bool-cases (is_blank p.map_id)) [
    | inl blank ↦ ground arith
    | inr map_id ↦ elim (Bool-cases (is_blank p.last_node_id)) [
      | inl blank ↦ ground arith
      | inr node ↦ (
        map_id,
        node,
        rw (map_id, node)
            (publish_std_instant-Accepted t header_id action_id vda.init_position
              (init_position_params p) (rw (map_id, node) at h)),
      )
    ]
  ]
