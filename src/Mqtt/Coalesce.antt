-- ===== src/Mqtt/Coalesce.antt =====
-- internal/mqtt/dispatch.go: the connection lane, with `M` for the inbound messages. The steps of the
-- callbacks and of the worker are the parts that run under the lock or between two channel
-- operations, in any order.
pub mod Wakeup
pub mod Newest
pub mod Drain
use navlink.Base.{
  ℕ, zero, suc, ◌+◌, ◌-◌, Bool, true, false, Option, none, some, List, [], ◌∷◌, if◌then◌else◌, ltb,
  ◌==◌, ◌&&◌, not,
}
use navlink.Base.Text.{GoString, string_eq}
use navlink.Base.Dict.{lookup, insert, delete}

-- connLatest and connWake of Transport, the callbacks between their lock and their send on connWake,
-- and whether the worker is in its inner loop. `delivered` and `sent` are what was dispatched and
-- what came in, the last one first.
pub record Coalescer (M : Type 0) : Type 0 where
  pub latest : List (GoString × M)
  pub wake : Bool
  pub senders : ℕ
  pub draining : Bool
  pub delivered : List (GoString × M)
  pub sent : List (GoString × M)

-- A step: a callback stores a message and later sends on connWake; the worker receives from
-- connWake, or takes the entry that a range over the map begins with.
pub data Step (M : Type 0) : Type 0 where
  stores : GoString → M → Step M
  signals receives : Step M
  takes : GoString → Step M

module _ {M : Type 0} where
  -- startDispatchLocked
  unfoldable pub new_coalescer : Coalescer M
  new_coalescer = record {
    latest = [];
    wake = false;
    senders = 0;
    draining = false;
    delivered = [];
    sent = [];
  }

  -- enqueueConnection, up to the unlock
  unfoldable pub store : Coalescer M → GoString → M → Coalescer M
  store c key msg = record c {
    latest = insert key msg c.latest;
    senders = c.senders + 1;
    sent = (key, msg) ∷ c.sent;
  }

  -- enqueueConnection, the send: a full channel takes no second one
  unfoldable pub signal : Coalescer M → Coalescer M
  signal c = if ltb 0 c.senders then record c { wake = true; senders = c.senders - 1 } else c

  -- runConnectionCoalesce, the receive
  unfoldable pub receive : Coalescer M → Coalescer M
  receive c = if c.wake && not c.draining then record c { wake = false; draining = true } else c

  take_found : Coalescer M → GoString → Option M → Coalescer M
  take_found c key none = c
  take_found c key (some msg) = record c {
    latest = delete key c.latest;
    delivered = (key, msg) ∷ c.delivered;
  }

  take_from : Coalescer M → List (GoString × M) → GoString → Coalescer M
  unfolding take_found
  take_from c [] key = record c { draining = false }
  take_from c (_ ∷ _) key = take_found c key (lookup key c.latest)

  -- takeConn and dispatchOne; an empty map ends the inner loop.
  unfoldable pub take : Coalescer M → GoString → Coalescer M
  unfolding take_from
  take c key = if c.draining then take_from c c.latest key else c

  unfoldable pub step : Coalescer M → Step M → Coalescer M
  unfolding store signal receive take
  step c (stores key msg) = store c key msg
  step c signals = signal c
  step c receives = receive c
  step c (takes key) = take c key

  unfoldable pub run : Coalescer M → List (Step M) → Coalescer M
  unfolding step
  run c [] = c
  run c (s ∷ ss) = run (step c s) ss

  -- The key that the range begins with here.
  abbrev pub first_key : List (GoString × M) → GoString
  first_key [] = []
  first_key ((key, _) ∷ _) = key

  -- The inner loop of runConnectionCoalesce, `n` times.
  pub drain : ℕ → Coalescer M → Coalescer M
  unfolding take
  drain zero c = c
  drain (suc n) c = drain n (take c (first_key c.latest))
