-- ===== src/Client/EventBus.antt =====
-- eventbus_client.go and events.go, and the registration of typed handlers in client.go: the handler
-- lists and the event bus of a client. The bus is the Memory of NewMemoryEventBus; `X` is the state
-- that handlers work on, and the four typed events differ in their kind.
pub mod Migration
pub mod Served
pub mod Transparent
mod Examples
use navlink.Base.{
  ℕ, Bool, true, false, ◌||◌, Option, none, some, List, [], ◌∷◌, ◌++◌, if◌then◌else◌,
}
use navlink.Base.Result.{Result, ok, err}
use navlink.Base.Text.{GoString, text, str_beq}
use navlink.Errors.{Gerr, GoError, raise_args}
use navlink.Errors.Kinds.{invalid_config}
use navlink.Topic.Channels.{Channel}
use navlink.Inbound.{Envelope}
use navlink.Inbound.Pipeline.{run_handlers}
use navlink.Bus
use navlink.Bus.{Memory}

-- The typed messages.
pub data TypedKind : Type 0 where
  state connection visualization factsheet : TypedKind

abbrev pub same_kind : TypedKind → TypedKind → Bool
same_kind state state = true
same_kind connection connection = true
same_kind visualization visualization = true
same_kind factsheet factsheet = true
same_kind _ _ = false

-- EventStateReceived, EventConnectionChanged, EventVisualizationReceived and EventFactsheetReceived
abbrev pub event_name : TypedKind → GoString
event_name state = text "vda.state.received"
event_name connection = text "vda.connection.changed"
event_name visualization = text "vda.visualization.received"
event_name factsheet = text "vda.factsheet.received"

-- What a bus carries: StateEvent, ConnectionEvent, VisualizationEvent or FactsheetEvent, or a value
-- of another type.
pub data Payload (V M C : Type 0) : Type 0 where
  typed : TypedKind → Envelope V → M → Payload V M C
  custom : C → Payload V M C

-- StateHandler and the other three
abbrev pub TypedHandler : Type 0 → Type 0 → Type 0 → Type 0 → Type 0
TypedHandler E V M X = X → Envelope V → M → X × Option (GoError E)

-- EventHandler
abbrev pub EventHandler : Type 0 → Type 0 → Type 0 → Type 0 → Type 0 → Type 0
EventHandler E V M C X = Payload V M C → X → X × Option (GoError E)

-- The fields of Client that registrations change.
pub record Handlers (E V M C X : Type 0) : Type 0 where
  pub bus : Option (Memory (EventHandler E V M C X))
  pub bus_unsubs : List (GoString × ℕ)
  pub want : TypedKind → Bool
  pub lists : TypedKind → List (TypedHandler E V M X)

-- A function on kinds with one value set.
abbrev pub set {ℓ} : {A : Type ℓ} → (TypedKind → A) → TypedKind → A → TypedKind → A
set f k a j = if same_kind k j then a else f j

add_unsub : List (GoString × ℕ) → GoString → Option ℕ → List (GoString × ℕ)
add_unsub unsubs event none = unsubs
add_unsub unsubs event (some id) = unsubs ++ ((event, id) ∷ [])

module _ {E V M C X : Type 0} where
  -- The handlers of a new client, with the bus of its configuration.
  new_handlers : Option (Memory (EventHandler E V M C X)) → Handlers E V M C X
  new_handlers bus = record { bus = bus; bus_unsubs = []; want = λ _. false; lists = λ _. [] }

  -- wrapState, wrapConnection, wrapVisualization and wrapFactsheet
  pub wrap : TypedKind → TypedHandler E V M X → EventHandler E V M C X
  wrap k h (custom _) x = (x, none)
  wrap k h (typed j env msg) x = if same_kind k j then h x env msg else (x, none)

  -- subscribeTypedLocked, on the bus `m`
  subscribe_typed :
      Handlers E V M C X
      → Memory (EventHandler E V M C X)
      → GoString
      → EventHandler E V M C X
      → Handlers E V M C X
  unfolding add_unsub
  subscribe_typed c m event h =
      let (m', id) = Bus.subscribe m event (some h) in
      record c { bus = some m'; bus_unsubs = add_unsub c.bus_unsubs event id }

  on_with :
      Handlers E V M C X
      → TypedKind
      → TypedHandler E V M X
      → Option (Memory (EventHandler E V M C X))
      → Handlers E V M C X
  unfolding subscribe_typed wrap
  on_with c k h (some m) = subscribe_typed c m (event_name k) (wrap k h)
  on_with c k h none = record c { lists = set c.lists k (c.lists k ++ (h ∷ [])) }

  -- OnState, OnConnection, OnVisualization and OnFactsheet
  pub on_typed : Handlers E V M C X → TypedKind → Option (TypedHandler E V M X) → Handlers E V M C X
  unfolding on_with
  on_typed c k none = c
  on_typed c k (some h) = on_with (record c { want = set c.want k true }) k h c.bus

  -- One of the four loops of UseEventBus.
  pub migrate_list :
      Handlers E V M C X
      → Memory (EventHandler E V M C X)
      → TypedKind
      → List (TypedHandler E V M X)
      → Memory (EventHandler E V M C X) × Handlers E V M C X
  unfolding subscribe_typed wrap
  migrate_list c m k [] = (m, c)
  migrate_list c m k (h ∷ hs) =
      let (m', id) = Bus.subscribe m (event_name k) (some (wrap k h)) in
      migrate_list (subscribe_typed c m (event_name k) (wrap k h)) m' k hs

  -- The loop, and the list emptied.
  migrate :
      TypedKind
      → Memory (EventHandler E V M C X) × Handlers E V M C X
      → Memory (EventHandler E V M C X) × Handlers E V M C X
  unfolding migrate_list
  migrate k (m, c) =
      let (m', c') = migrate_list c m k (c.lists k) in (m', record c' { lists = set c'.lists k [] })

  -- UseEventBus
  pub use_event_bus :
      Handlers E V M C X → Option (Memory (EventHandler E V M C X)) → Handlers E V M C X
  unfolding migrate
  use_event_bus c none = c
  use_event_bus c (some m) =
      (migrate factsheet (
        migrate visualization
          (migrate connection (migrate state (m, record c { bus = some m }))))).1

  -- markEventWantedLocked
  mark_event_wanted : Handlers E V M C X → GoString → Handlers E V M C X
  mark_event_wanted c event =
      if str_beq event (event_name state)
      then record c { want = set c.want state true }
      else if str_beq event (event_name connection)
      then record c { want = set c.want connection true }
      else if str_beq event (event_name visualization)
      then record c { want = set c.want visualization true }
      else if str_beq event (event_name factsheet)
      then record c { want = set c.want factsheet true }
      else c

  -- publishEvent
  publish_event :
      Option (Memory (EventHandler E V M C X))
      → GoString
      → Payload V M C
      → X
      → X × Option (GoError E)
  publish_event none event payload x = (x, none)
  publish_event (some m) event payload x = Bus.publish (λ h. h payload) m event x

  deliver_with :
      Handlers E V M C X
      → TypedKind
      → X
      → Envelope V
      → M
      → Option (Memory (EventHandler E V M C X))
      → X × Option (GoError E)
  unfolding publish_event run_handlers
  deliver_with c k x env msg (some m) = publish_event (some m) (event_name k) (typed k env msg) x
  deliver_with c k x env msg none = run_handlers (c.lists k) env msg (x, none)

  -- What invokeState and the other three run of the registrations for a message.
  pub deliver_typed : Handlers E V M C X → TypedKind → X → Envelope V → M → X × Option (GoError E)
  unfolding deliver_with
  deliver_typed c k x env msg = deliver_with c k x env msg c.bus

module _ {E V M C X : Type 0} ⦃g : Gerr E⦄ where
  emit_on :
      Option (Memory (EventHandler E V M C X))
      → GoString
      → Payload V M C
      → X
      → X × Option (GoError E)
  emit_on none event payload x =
      (x, some (raise_args invalid_config (text "EventBus is not configured")))
  emit_on (some m) event payload x = Bus.publish (λ h. h payload) m event x

  -- Emit
  emit : Handlers E V M C X → GoString → Payload V M C → X → X × Option (GoError E)
  unfolding emit_on
  emit c event payload x = emit_on c.bus event payload x

  subscribe_on :
      Handlers E V M C X
      → GoString
      → EventHandler E V M C X
      → Option (Memory (EventHandler E V M C X))
      → Handlers E V M C X × Option (GoError E)
  unfolding subscribe_typed
  subscribe_on c event h none =
      (c, some (raise_args invalid_config (text "EventBus is not configured")))
  subscribe_on c event h (some m) = (subscribe_typed c m event h, none)

  -- Subscribe; the handle that it returns is the last of `bus_unsubs`.
  subscribe_event :
      Handlers E V M C X
      → GoString
      → Option (EventHandler E V M C X)
      → Handlers E V M C X × Option (GoError E)
  unfolding subscribe_on mark_event_wanted
  subscribe_event c event none = (c, none)
  subscribe_event c event (some h) = subscribe_on (mark_event_wanted c event) event h c.bus
