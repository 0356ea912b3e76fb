-- ===== src/Mqtt/Coalesce/Newest.antt =====
-- internal/mqtt/dispatch.go: the newest connection message of each vehicle wins.
use navlink.Base.{◌≡◌, refl, Option, none, some, List, [], ◌∷◌, arith, if_cases, ltb, ◌&&◌, not}
use navlink.Base.Text.{GoString, string_eq, str_beq_iff}
use navlink.Base.Dict.{lookup, lookup-insert, lookup-delete}
use navlink.Mqtt.Coalesce.{
  Coalescer, Step, stores, signals, receives, takes, new_coalescer, store, signal, receive,
  take_found, take_from, take, step, run,
}

module _ {M : Type 0} where
  -- The message of a key that is delivered next, or else the one that was delivered last.
  abbrev pub or_delivered : Option M → Option M → Option M
  or_delivered (some m) last = some m
  or_delivered none last = last

  abbrev pub shown : Coalescer M → GoString → Option M
  shown c key = or_delivered (lookup key c.latest) (lookup key c.delivered)

  -- For each key, that is the message that came in last.
  abbrev pub ShowsNewest : Coalescer M → Type 0
  ShowsNewest c = (key : GoString) → shown c key ≡ lookup key c.sent

  take_found-ShowsNewest :
      (c : Coalescer M) (key : GoString) (found : Option M)
      → lookup key c.latest ≡ found
      → ShowsNewest c
      → ShowsNewest (take_found c key found)
  unfolding take_found lookup
  take_found-ShowsNewest c key none e h other = h other
  take_found-ShowsNewest c key (some m) e h other =
      ground (arith, lookup-delete key other c.latest, str_beq_iff key other, h other)

  take_from-ShowsNewest :
      (c : Coalescer M) (latest : List (GoString × M)) (key : GoString)
      → ShowsNewest c
      → ShowsNewest (take_from c latest key)
  unfolding take_from
  take_from-ShowsNewest c [] key h = h
  take_from-ShowsNewest c (_ ∷ _) key h = take_found-ShowsNewest c key _ refl h

  step-ShowsNewest : (c : Coalescer M) (s : Step M) → ShowsNewest c → ShowsNewest (step c s)
  unfolding step store signal receive take lookup
  step-ShowsNewest c (stores key m) h other =
      ground (arith, lookup-insert key other m c.latest, h other)
  step-ShowsNewest c signals h other =
      if_cases {A = Coalescer M} ShowsNewest (ltb 0 c.senders) (λ _. h) (λ _. h) other
  step-ShowsNewest c receives h other =
      if_cases {A = Coalescer M} ShowsNewest (c.wake && not c.draining) (λ _. h) (λ _. h) other
  step-ShowsNewest c (takes key) h other =
      if_cases {A = Coalescer M} ShowsNewest c.draining
        (λ _. take_from-ShowsNewest c c.latest key h) (λ _. h) other

  pub run-ShowsNewest :
      (c : Coalescer M) (ss : List (Step M)) → ShowsNewest c → ShowsNewest (run c ss)
  unfolding run
  run-ShowsNewest c [] h = h
  run-ShowsNewest c (s ∷ ss) h = run-ShowsNewest (step c s) ss (step-ShowsNewest c s h)

  -- However callbacks and the worker interleave, when no connection message is stored any more, the
  -- one that was delivered last for each vehicle is the one that came in last for it.
  pub run-newest :
      (ss : List (Step M)) (key : GoString)
      → (run new_coalescer ss).latest ≡ []
      → lookup key (run new_coalescer ss).delivered ≡ lookup key (run new_coalescer ss).sent
  unfolding new_coalescer lookup
  run-newest ss key idle = let h = run-ShowsNewest new_coalescer ss (λ k. refl) key in rw idle at h
