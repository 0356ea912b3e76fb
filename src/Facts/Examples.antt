-- ===== src/Facts/Examples.antt =====
-- facts/facts.go: tests.
use navlink.Base.{◌≡◌, refl, none, some, [], ◌∷◌}
use navlink.Base.Text.{text, str_beq}
use navlink.Base.Dict.{lookup, insert}
use navlink.Facts.{
  ActionState, State, last_node_changed, order_id_changed, order_update_changed,
  action_transitioned, prev_actions, apply,
}
use navlink.Facts.Replay.{Known, replay, CaughtUp, apply-CaughtUp}

abbrev lift : ActionState
lift = record {
  action_id = text "a-1";
  action_type = some (text "lift");
  action_status = text "RUNNING";
}

abbrev on_order : State
on_order = record {
  last_node_id = text "n-1";
  order_id = text "o-1";
  order_update_id = 1;
  action_states = lift ∷ [];
}

apply_test :
    (apply none (some on_order)
      ≡ last_node_changed [] (text "n-1")
        ∷ order_id_changed [] (text "o-1")
        ∷ order_update_changed (text "o-1") 0 1
        ∷ action_transitioned (text "a-1") [] (text "RUNNING") (text "lift")
        ∷ [])
    × (apply (some on_order) (some on_order) ≡ [])
unfolding apply prev_actions lookup insert str_beq
apply_test = (refl, refl)

abbrev nothing : Known
nothing = record { last_node_id = []; order_id = []; order_update_id = 0; statuses = [] }

apply-CaughtUp_example : CaughtUp on_order (replay nothing (apply none (some on_order)))
unfolding prev_actions lookup
apply-CaughtUp_example =
    apply-CaughtUp nothing none on_order (λ named. named, tt)
      (record { node = refl; order = refl; update = refl; statuses = λ id a e. absurd (cc e) })
