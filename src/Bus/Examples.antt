-- ===== src/Bus/Examples.antt =====
-- internal/bus/memory.go: tests. A handler is a number that it adds to the state.
use navlink.Base.{ℕ, ◌+◌, ◌≡◌, refl, Option, none, some}
use navlink.Base.Text.{text, str_beq}
use navlink.Base.Dict.{lookup, insert}
use navlink.Errors.{GoError}
use navlink.Errors.Kinds.{ErrorKind}
use navlink.Bus.{Memory, new_memory, subscribers, subscribe, unsubscribe, publish_to, publish}
use navlink.Bus.Order.{IsCounted, unsubscribe-subscribe}

abbrev add : ℕ → ℕ → ℕ × Option (GoError ErrorKind)
add n x = (x + n, none)

-- A bus with one subscriber.
abbrev one_subscriber : Memory ℕ
one_subscriber = (subscribe new_memory (text "vda.state.received") (some 3)).0

publish_test : publish add one_subscriber (text "vda.state.received") 4 ≡ (7, none)
unfolding publish publish_to subscribe new_memory lookup insert str_beq
publish_test = refl

new_memory-IsCounted : IsCounted {D = ℕ} new_memory
unfolding new_memory lookup
new_memory-IsCounted event = tt

unsubscribe-subscribe_example :
    subscribers
      (unsubscribe
        (subscribe {D = ℕ} new_memory (text "vda.state.received") (some 3)).0
        (text "vda.state.received")
        ((new_memory {D = ℕ}).next_id + 1))
      (text "x")
    ≡ subscribers new_memory (text "x")
unsubscribe-subscribe_example =
    unsubscribe-subscribe new_memory (text "vda.state.received") (text "x") 3 new_memory-IsCounted
