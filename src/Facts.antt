-- ===== src/Facts.antt =====
-- facts/facts.go: the facts between two consecutive states of a vehicle.
pub mod Replay
mod Examples
use navlink.Base.{ℕ, Option, none, some, List, [], ◌∷◌, ◌++◌, if◌then◌else◌, ◌==◌, nat_eq}
use navlink.Base.Text.{GoString, string_eq}
use navlink.Base.Dict.{lookup, insert}

-- state.ActionState and state.State, as far as Apply reads them.
pub record ActionState : Type 0 where
  pub action_id : GoString
  pub action_type : Option GoString
  pub action_status : GoString

pub record State : Type 0 where
  pub last_node_id : GoString
  pub order_id : GoString
  pub order_update_id : ℕ
  pub action_states : List ActionState

-- Fact, by its Kind. An order update names the order of the next state on both sides.
pub data Fact : Type 0 where
  last_node_changed : GoString → GoString → Fact
  order_id_changed : GoString → GoString → Fact
  order_update_changed : GoString → ℕ → ℕ → Fact
  action_transitioned : GoString → GoString → GoString → GoString → Fact

-- derefStr
abbrev pub deref_str : Option GoString → GoString
deref_str none = []
deref_str (some s) = s

-- What a state that was never seen counts as.
abbrev pub empty_state : State
empty_state = record { last_node_id = []; order_id = []; order_update_id = 0; action_states = [] }

abbrev pub or_empty : Option State → State
or_empty none = empty_state
or_empty (some s) = s

-- The map prevActions; of two actions with one id the later counts.
pub prev_actions : List (GoString × ActionState) → List ActionState → List (GoString × ActionState)
prev_actions m [] = m
prev_actions m (a ∷ actions) = prev_actions (insert a.action_id a m) actions

-- What the last loop of Apply finds for one action.
action_fact : ActionState → Option ActionState → List Fact
action_fact a none =
    action_transitioned a.action_id [] a.action_status (deref_str a.action_type) ∷ []
action_fact a (some old) =
    if old.action_status == a.action_status
    then []
    else action_transitioned a.action_id old.action_status a.action_status (deref_str a.action_type)
      ∷ []

-- The last loop of Apply.
action_facts : List (GoString × ActionState) → List ActionState → List Fact
unfolding action_fact
action_facts m [] = []
action_facts m (a ∷ actions) = action_fact a (lookup a.action_id m) ++ action_facts m actions

-- The three comparisons of Apply.
header_facts : State → State → List Fact
header_facts prev next =
    (if prev.last_node_id == next.last_node_id
      then []
      else last_node_changed prev.last_node_id next.last_node_id ∷ [])
    ++ ((if prev.order_id == next.order_id
          then []
          else order_id_changed prev.order_id next.order_id ∷ [])
        ++ (if prev.order_update_id == next.order_update_id
            then []
            else order_update_changed next.order_id prev.order_update_id next.order_update_id ∷ []))

-- Apply, of a next state that is not nil
pub changes : State → State → List Fact
unfolding header_facts action_facts prev_actions
changes prev next =
    header_facts prev next ++ action_facts (prev_actions [] prev.action_states) next.action_states

-- Apply
unfoldable pub apply : Option State → Option State → List Fact
unfolding changes
apply prev none = []
apply prev (some next) = changes (or_empty prev) next
