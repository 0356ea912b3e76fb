-- ===== src/Client/EventBus/Migration.antt =====
-- eventbus_client.go UseEventBus: a bus serves the handlers as their lists did.
use navlink.Base.{
  ◌+◌, ◌≡◌, refl, sym, ap, ◌∙◌, Bool, true, false, some, List, [], ◌∷◌, ◌++◌, map, if◌then◌else◌,
  append-nil, append_assoc,
}
use navlink.Base.Lists.{map-append}
use navlink.Base.Text.{GoString, str_beq}
use navlink.Bus.{Memory, subscribers, subscribe}
use navlink.Bus.Order.{subscribers-subscribe}
use navlink.Client.EventBus.{
  TypedKind, state, connection, visualization, factsheet, same_kind, event_name, TypedHandler,
  EventHandler, Handlers, wrap, subscribe_typed, migrate_list,
}

pub event_name-same : (j k : TypedKind) → str_beq (event_name j) (event_name k) ≡ same_kind j k
unfolding str_beq
event_name-same state state = refl
event_name-same state connection = refl
event_name-same state visualization = refl
event_name-same state factsheet = refl
event_name-same connection state = refl
event_name-same connection connection = refl
event_name-same connection visualization = refl
event_name-same connection factsheet = refl
event_name-same visualization state = refl
event_name-same visualization connection = refl
event_name-same visualization visualization = refl
event_name-same visualization factsheet = refl
event_name-same factsheet state = refl
event_name-same factsheet connection = refl
event_name-same factsheet visualization = refl
event_name-same factsheet factsheet = refl

pub same_kind_refl : (k : TypedKind) → same_kind k k ≡ true
same_kind_refl state = refl
same_kind_refl connection = refl
same_kind_refl visualization = refl
same_kind_refl factsheet = refl

module _ {E V M C X : Type 0} where
  -- The handlers that a bus has for an event.
  abbrev pub served : Memory (EventHandler E V M C X) → GoString → List (EventHandler E V M C X)
  served m event = map (λ s. s.h) (subscribers m event)

  -- One bus has come from another by subscribing `ws` to the event of `k`.
  abbrev pub Grown :
      Memory (EventHandler E V M C X)
      → TypedKind
      → List (EventHandler E V M C X)
      → Memory (EventHandler E V M C X)
      → Type 0
  Grown m k ws m' =
      (j : TypedKind)
      → served m' (event_name j)
        ≡ (if same_kind k j then served m (event_name k) ++ ws else served m (event_name j))

  pub subscribe-Grown :
      (m : Memory (EventHandler E V M C X)) (k : TypedKind) (h : EventHandler E V M C X)
      → Grown m k (h ∷ []) (subscribe m (event_name k) (some h)).0
  subscribe-Grown m k h j =
      ap (map (λ s. s.h)) (subscribers-subscribe m (event_name k) (event_name j) h)
      ∙ ap
          (λ b.
            map (λ s. s.h)
              (if b
                then subscribers m (event_name k) ++ (record { id = m.next_id + 1; h = h } ∷ [])
                else subscribers m (event_name j)))
          (event_name-same k j)
      ∙ by_test (same_kind k j)
    where
      by_test :
          (b : Bool)
          → map
              (λ s. s.h)
              (if b
                then subscribers m (event_name k) ++ (record { id = m.next_id + 1; h = h } ∷ [])
                else subscribers m (event_name j))
            ≡ (if b then served m (event_name k) ++ (h ∷ []) else served m (event_name j))
      by_test true = map-append (λ s. s.h) (subscribers m (event_name k)) _
      by_test false = refl

  Grown-nil : (m : Memory (EventHandler E V M C X)) (k : TypedKind) → Grown m k [] m
  Grown-nil m state state = sym (append-nil _)
  Grown-nil m connection connection = sym (append-nil _)
  Grown-nil m visualization visualization = sym (append-nil _)
  Grown-nil m factsheet factsheet = sym (append-nil _)
  Grown-nil m state connection = refl
  Grown-nil m state visualization = refl
  Grown-nil m state factsheet = refl
  Grown-nil m connection state = refl
  Grown-nil m connection visualization = refl
  Grown-nil m connection factsheet = refl
  Grown-nil m visualization state = refl
  Grown-nil m visualization connection = refl
  Grown-nil m visualization factsheet = refl
  Grown-nil m factsheet state = refl
  Grown-nil m factsheet connection = refl
  Grown-nil m factsheet visualization = refl

  Grown-append :
      (m m₁ m₂ : Memory (EventHandler E V M C X)) (k : TypedKind)
      (us ws : List (EventHandler E V M C X))
      → Grown m k us m₁
      → Grown m₁ k ws m₂
      → Grown m k (us ++ ws) m₂
  Grown-append m m₁ m₂ k us ws g h j = h j ∙ by_test (same_kind k j) (g j)
    where
      at_k : served m₁ (event_name k) ≡ served m (event_name k) ++ us
      at_k =
          g k
          ∙ ap (λ b. if b then served m (event_name k) ++ us else served m (event_name k))
              (same_kind_refl k)

      by_test :
          (b : Bool)
          → served m₁ (event_name j)
            ≡ (if b then served m (event_name k) ++ us else served m (event_name j))
          → (if b then served m₁ (event_name k) ++ ws else served m₁ (event_name j))
            ≡ (if b then served m (event_name k) ++ (us ++ ws) else served m (event_name j))
      by_test true old = ap (λ l. l ++ ws) at_k ∙ append_assoc _ us ws
      by_test false old = old

  -- What a loop of UseEventBus keeps and makes.
  pub record Moved (c : Handlers E V M C X) (m : Memory (EventHandler E V M C X)) (k : TypedKind)
      (hs : List (TypedHandler E V M X)) (r : Memory (EventHandler E V M C X) × Handlers E V M C X)
      : Type 0 where
    pub grown : Grown m k (map (wrap k) hs) r.0
    pub lists : r.1.lists ≡ c.lists
    pub bus : r.1.bus ≡ some r.0

  pub migrate_list-Moved :
      (hs : List (TypedHandler E V M X)) (c : Handlers E V M C X)
      (m : Memory (EventHandler E V M C X)) (k : TypedKind)
      → c.bus ≡ some m
      → Moved c m k hs (migrate_list c m k hs)
  unfolding migrate_list subscribe_typed
  migrate_list-Moved [] c m k on = record { grown = Grown-nil m k; lists = refl; bus = on }
  migrate_list-Moved (h ∷ hs) c m k on =
      let m₁ = (subscribe m (event_name k) (some (wrap k h))).0 in
      let c₁ = subscribe_typed c m (event_name k) (wrap k h) in
      let r = migrate_list-Moved hs c₁ m₁ k refl in
      record {
        grown =
            Grown-append m m₁ (migrate_list c₁ m₁ k hs).0 k (wrap k h ∷ []) _
              (subscribe-Grown m k (wrap k h)) r.grown;
        lists = r.lists;
        bus = r.bus;
      }
