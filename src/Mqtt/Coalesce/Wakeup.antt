-- ===== src/Mqtt/Coalesce/Wakeup.antt =====
-- internal/mqtt/dispatch.go: no connection message waits without a wakeup.
use navlink.Base.{
  ◌<◌, ◌≡◌, refl, ◌≢◌, ◌⊎◌, inl, inr, true, Option, none, some, List, [], ◌∷◌, arith, if_cases,
}
use navlink.Base.Text.{GoString, string_eq}
use navlink.Mqtt.Coalesce.{
  Coalescer, Step, stores, signals, receives, takes, new_coalescer, store, signal, receive,
  take_found, take_from, take, step, run,
}

module _ {M : Type 0} where
  -- A stored message will be seen: the worker drains, or connWake is full, or a send is to come.
  abbrev pub WillWake : Coalescer M → Type 0
  WillWake c = (c.draining ≡ true) ⊎ ((c.wake ≡ true) ⊎ (0 < c.senders))

  abbrev pub NoneLost : Coalescer M → Type 0
  NoneLost c = c.latest ≢ [] → WillWake c

  take_found-NoneLost :
      (c : Coalescer M) (key : GoString) (found : Option M)
      → c.draining ≡ true
      → NoneLost (take_found c key found)
  unfolding take_found
  take_found-NoneLost c key none d e = inl d
  take_found-NoneLost c key (some m) d e = inl d

  take_from-NoneLost :
      (c : Coalescer M) (latest : List (GoString × M)) (key : GoString)
      → c.latest ≡ latest
      → c.draining ≡ true
      → NoneLost (take_from c latest key)
  unfolding take_from
  take_from-NoneLost c [] key e d = λ n. absurd (n e)
  take_from-NoneLost c (_ ∷ _) key e d = take_found-NoneLost c key _ d

  step-NoneLost : (c : Coalescer M) (s : Step M) → NoneLost c → NoneLost (step c s)
  unfolding step store signal receive take
  step-NoneLost c (stores key m) h = λ _. inr (inr (omega arith))
  step-NoneLost c signals h = ground arith
  step-NoneLost c receives h = ground arith
  step-NoneLost c (takes key) h =
      if_cases {A = Coalescer M} NoneLost c.draining (λ d. take_from-NoneLost c c.latest key refl d)
        (λ _. h)

  pub steps-NoneLost : (c : Coalescer M) (ss : List (Step M)) → NoneLost c → NoneLost (run c ss)
  unfolding run
  steps-NoneLost c [] h = h
  steps-NoneLost c (s ∷ ss) h = steps-NoneLost (step c s) ss (step-NoneLost c s h)

  -- However callbacks and the worker interleave, whenever a connection message is stored the worker
  -- is draining, or a wakeup waits in the channel, or a callback is about to send one.
  pub run-NoneLost : (ss : List (Step M)) → NoneLost (run new_coalescer ss)
  unfolding new_coalescer
  run-NoneLost ss = steps-NoneLost new_coalescer ss (λ n. absurd (n refl))
