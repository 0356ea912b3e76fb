-- ===== src/Facts/Replay.antt =====
-- facts/facts.go: the facts hold all that changed.
use navlink.Base.{
  ℕ, ◌≡◌, ◌≢◌, refl, sym, ap, subst, ◌∙◌, ◌⊎◌, inl, inr, Option, none, some, List, [], ◌∷◌, ◌++◌,
  arith, Bool-cases, nat_eq,
}
use navlink.Base.Lists.{All}
use navlink.Base.Text.{GoString, string_eq, str_beq, str_beq_iff}
use navlink.Base.Dict.{lookup, insert, lookup-insert}
use navlink.Facts.{
  deref_str, ActionState, State, Fact, last_node_changed, order_id_changed, order_update_changed,
  action_transitioned, or_empty, prev_actions, action_fact, action_facts, header_facts, changes,
  apply,
}

-- What an observer of the facts knows of a vehicle; an action has its status.
pub record Known : Type 0 where
  pub last_node_id : GoString
  pub order_id : GoString
  pub order_update_id : ℕ
  pub statuses : List (GoString × GoString)

-- The observer hears of one fact, and of some.
abbrev pub hear : Known → Fact → Known
hear k (last_node_changed _ node) = record k { last_node_id = node }
hear k (order_id_changed _ order) = record k { order_id = order }
hear k (order_update_changed _ _ update) = record k { order_update_id = update }
hear k (action_transitioned id _ status _) = record k { statuses = insert id status k.statuses }

pub replay : Known → List Fact → Known
replay k [] = k
replay k (f ∷ fs) = replay (hear k f) fs

-- An action with that id, in a list.
abbrev pub Names : GoString → List ActionState → Type 0
Names id [] = ⊥
Names id (a ∷ actions) = (a.action_id ≡ id) ⊎ Names id actions

-- No two actions have one id.
abbrev pub AreDistinct : List ActionState → Type 0
AreDistinct [] = Unit
AreDistinct (a ∷ actions) = (¬ Names a.action_id actions) × AreDistinct actions

replay-append : (k : Known) (fs gs : List Fact) → replay k (fs ++ gs) ≡ replay (replay k fs) gs
unfolding replay
replay-append k [] gs = refl
replay-append k (f ∷ fs) gs = replay-append (hear k f) fs gs

-- The observer knows the statuses of those actions of a map that a list names.
abbrev pub KnowsOf : Known → List (GoString × ActionState) → List ActionState → Type 0
KnowsOf k m actions =
    (id : GoString) (old : ActionState)
    → Names id actions
    → lookup id m ≡ some old
    → lookup id k.statuses ≡ some old.action_status

-- Only the statuses change, and those of the other ids do not.
record Heard (a : ActionState) (k k' : Known) : Type 0 where
  node : k'.last_node_id ≡ k.last_node_id
  order : k'.order_id ≡ k.order_id
  update : k'.order_update_id ≡ k.order_update_id
  status : lookup a.action_id k'.statuses ≡ some a.action_status
  others : (id : GoString) → a.action_id ≢ id → lookup id k'.statuses ≡ lookup id k.statuses

hear-Heard :
    (k : Known) (a : ActionState) (old type : GoString)
    → Heard a k (hear k (action_transitioned a.action_id old a.action_status type))
hear-Heard k a old type = record {
  node = refl;
  order = refl;
  update = refl;
  status = ground (
    arith,
    lookup-insert a.action_id a.action_id a.action_status k.statuses,
    str_beq_iff a.action_id a.action_id,
  );
  others = λ id n.
      ground (
        arith,
        lookup-insert a.action_id id a.action_status k.statuses,
        str_beq_iff a.action_id id,
      );
}

action_fact-Heard :
    (k : Known) (a : ActionState) (found : Option ActionState)
    → ((old : ActionState)
        → found ≡ some old
        → lookup a.action_id k.statuses ≡ some old.action_status)
    → Heard a k (replay k (action_fact a found))
unfolding action_fact replay
action_fact-Heard k a none knows = hear-Heard k a [] (deref_str a.action_type)
action_fact-Heard k a (some old) knows =
    elim (Bool-cases (str_beq old.action_status a.action_status)) [
      | inl same ↦ rw same (record {
        node = refl;
        order = refl;
        update = refl;
        status = knows old refl ∙ ap some ((str_beq_iff old.action_status a.action_status).0 same);
        others = λ id n. refl;
      })
      | inr differs ↦ rw differs (hear-Heard k a old.action_status (deref_str a.action_type))
    ]

-- After the facts on some actions, the observer knows their statuses, and everything else as before.
record HeardAll (actions : List ActionState) (k k' : Known) : Type 0 where
  node : k'.last_node_id ≡ k.last_node_id
  order : k'.order_id ≡ k.order_id
  update : k'.order_update_id ≡ k.order_update_id
  statuses : All (λ a. lookup a.action_id k'.statuses ≡ some a.action_status) actions
  others : (id : GoString) → ¬ Names id actions → lookup id k'.statuses ≡ lookup id k.statuses

action_facts-HeardAll :
    (k : Known) (m : List (GoString × ActionState)) (actions : List ActionState)
    → AreDistinct actions
    → KnowsOf k m actions
    → HeardAll actions k (replay k (action_facts m actions))
unfolding action_facts replay
action_facts-HeardAll k m [] d knows = record {
  node = refl;
  order = refl;
  update = refl;
  statuses = tt;
  others = λ id n. refl;
}
action_facts-HeardAll k m (a ∷ actions) (new, d) knows =
    let first =
      action_fact-Heard k a (lookup a.action_id m) (λ old e. knows a.action_id old (inl refl) e) in
    let k₁ = replay k (action_fact a (lookup a.action_id m)) in
    let rest = action_facts-HeardAll k₁ m actions d (λ id old named e.
      first.others id (λ same. new (subst (λ i. Names i actions) (sym same) named))
      ∙ knows id old (inr named) e) in
    subst (HeardAll (a ∷ actions) k)
      (sym (replay-append k (action_fact a (lookup a.action_id m)) (action_facts m actions)))
      (record {
        node = rest.node ∙ first.node;
        order = rest.order ∙ first.order;
        update = rest.update ∙ first.update;
        statuses = (rest.others a.action_id new ∙ first.status, rest.statuses);
        others = λ id n. rest.others id (λ x. n (inr x)) ∙ first.others id (λ x. n (inl x));
      })

-- The observer's node, order and update are those of a state.
record AtState (s : State) (k : Known) : Type 0 where
  node : k.last_node_id ≡ s.last_node_id
  order : k.order_id ≡ s.order_id
  update : k.order_update_id ≡ s.order_update_id

header_facts-AtState :
    (k : Known) (prev next : State)
    → AtState prev k
    → AtState next (replay k (header_facts prev next))
unfolding header_facts replay
header_facts-AtState k prev next h =
    let node = str_beq_iff prev.last_node_id next.last_node_id in
    let order = str_beq_iff prev.order_id next.order_id in
    record {
      node = ground (arith, node, h.node);
      order = ground (arith, order, h.order);
      update = ground (arith, h.update);
    }

header_facts-statuses :
    (k : Known) (prev next : State) → (replay k (header_facts prev next)).statuses ≡ k.statuses
unfolding header_facts replay
header_facts-statuses k prev next = ground arith

-- The observer of a state knows its node, order and update and the statuses of its actions, where of
-- two actions with one id the later counts.
pub record Knows (s : State) (k : Known) : Type 0 where
  pub node : k.last_node_id ≡ s.last_node_id
  pub order : k.order_id ≡ s.order_id
  pub update : k.order_update_id ≡ s.order_update_id
  pub statuses :
      (id : GoString) (a : ActionState)
      → lookup id (prev_actions [] s.action_states) ≡ some a
      → lookup id k.statuses ≡ some a.action_status

-- The observer has caught up with a state.
pub record CaughtUp (s : State) (k : Known) : Type 0 where
  pub node : k.last_node_id ≡ s.last_node_id
  pub order : k.order_id ≡ s.order_id
  pub update : k.order_update_id ≡ s.order_update_id
  pub statuses : All (λ a. lookup a.action_id k.statuses ≡ some a.action_status) s.action_states

-- An observer that knows the previous state, or the empty one if there is none, and hears the facts of
-- Apply, knows the node, the order and the order update of the next state and the status of each of
-- its actions, if no two of these have one id.
pub apply-CaughtUp :
    (k : Known) (prev : Option State) (next : State)
    → AreDistinct next.action_states
    → Knows (or_empty prev) k
    → CaughtUp next (replay k (apply prev (some next)))
unfolding apply changes
apply-CaughtUp k prev next distinct h =
    let before = or_empty prev in
    let m = prev_actions [] before.action_states in
    let k₁ = replay k (header_facts before next) in
    let at =
      header_facts-AtState k before next
        (record { node = h.node; order = h.order; update = h.update }) in
    let rest =
      action_facts-HeardAll k₁ m next.action_states distinct (λ id old _ e.
        ap (lookup id) (header_facts-statuses k before next) ∙ h.statuses id old e) in
    subst (CaughtUp next)
      (sym (replay-append k (header_facts before next) (action_facts m next.action_states)))
      (record {
        node = rest.node ∙ at.node;
        order = rest.order ∙ at.order;
        update = rest.update ∙ at.update;
        statuses = rest.statuses;
      })
