-- ===== src/Client/EventBus/Examples.antt =====
-- eventbus_client.go: tests. A handler appends its number to the state.
use navlink.Base.{ℕ, ◌≡◌, refl, true, false, none, some, List, [], ◌∷◌, ◌++◌}
use navlink.Base.Text.{text, str_beq}
use navlink.Base.Dict.{lookup, insert}
use navlink.Errors.{message, raise}
use navlink.Errors.Kinds.{ErrorKind, invalid_config}
use navlink.Errors.Sample.{kind_gerr}
use navlink.Inbound.{Envelope, bare_envelope}
use navlink.Inbound.Pipeline.{run_handlers}
use navlink.Bus.{new_memory, subscribe, publish, publish_to}
use navlink.Client.EventBus.{
  TypedKind, state, connection, factsheet, event_name, typed, custom, TypedHandler, EventHandler,
  Handlers, new_handlers, wrap, subscribe_typed, on_typed, use_event_bus, deliver_typed, emit,
  subscribe_event,
}
use navlink.Client.EventBus.Served.{use_event_bus_twice}
use navlink.Client.EventBus.Transparent.{on_all, deliver_typed-use_event_bus}

abbrev H : Type 0
H = TypedHandler ErrorKind ℕ ℕ (List ℕ)

-- The handler of a number; that of 9 fails.
abbrev writes : ℕ → H
writes n x env msg = (x ++ (n ∷ []), none)

abbrev fails : H
fails x env msg = (x ++ (9 ∷ []), some (message (text "nine")))

abbrev plain : Handlers ErrorKind ℕ ℕ ℕ (List ℕ)
plain = new_handlers none

abbrev env : Envelope ℕ
env = bare_envelope [] []

abbrev early : List (TypedKind × H)
early = (state, writes 1) ∷ (connection, writes 2) ∷ []

abbrev late : List (TypedKind × H)
late = (state, writes 3) ∷ (state, fails) ∷ (state, writes 4) ∷ []

deliver_typed-use_event_bus_example :
    deliver_typed
      (on_all (use_event_bus (on_all plain early) (some new_memory)) late)
      state
      []
      env
      0
    ≡ deliver_typed (on_all plain (early ++ late)) state [] env 0
unfolding new_handlers
deliver_typed-use_event_bus_example =
    deliver_typed-use_event_bus state [] env 0 early late plain refl

attach_test :
    deliver_typed (on_all plain (early ++ late)) state [] env 0
    ≡ (1 ∷ 3 ∷ 9 ∷ [], some (message (text "nine")))
unfolding deliver_typed on_all on_typed new_handlers run_handlers
attach_test = refl

use_event_bus_twice_example :
    deliver_typed
      (use_event_bus (use_event_bus (on_all plain early) (some new_memory)) (some new_memory))
      state
      []
      env
      0
    ≡ publish
        (λ (h : EventHandler ErrorKind ℕ ℕ ℕ (List ℕ)). h (typed state env 0))
        new_memory
        (event_name state)
        []
use_event_bus_twice_example =
    use_event_bus_twice (on_all plain early) new_memory new_memory state [] env 0

wrap_test : wrap {C = ℕ} state (writes 1) (typed factsheet env 0) [] ≡ ([], none)
unfolding wrap
wrap_test = refl

-- Without a bus, Emit and Subscribe are errors, but Subscribe marks the channel.
emit_test : emit plain (text "x") (custom 3) [] ≡ ([], some (raise invalid_config))
unfolding emit new_handlers
emit_test = refl

subscribe_event_test :
    let (c, e) = subscribe_event plain (event_name factsheet) (some (wrap factsheet (writes 1))) in
    (c.want factsheet ≡ true) × (c.want state ≡ false) × (e ≡ some (raise invalid_config))
unfolding subscribe_event new_handlers str_beq
subscribe_event_test = (refl, refl, refl)

subscribe_typed_test :
    deliver_typed
      (subscribe_typed plain new_memory (event_name state) (wrap state (writes 5)))
      state
      []
      env
      0
    ≡ (5 ∷ [], none)
unfolding subscribe_typed deliver_typed wrap subscribe new_handlers new_memory publish publish_to
    lookup insert str_beq
subscribe_typed_test = refl
