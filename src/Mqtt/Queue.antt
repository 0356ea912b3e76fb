-- ===== src/Mqtt/Queue.antt =====
-- internal/mqtt/dispatch.go: one bounded channel with its worker, which runQueue serves.
use navlink.Base.{ℕ, ◌≡◌, refl, ap, Option, none, some, List, [], ◌∷◌, ◌++◌, ltb, if◌then◌else◌}
use navlink.Base.Lists.{length}

-- A channel of messages `I`: those that wait, the first to come out first.
pub record Queue (I : Type 0) : Type 0 where
  pub waiting : List I

-- make(chan inbound, qsize)
abbrev pub new_queue : {I : Type 0} → Queue I
new_queue = record { waiting = [] }

-- What one round of a worker takes off.
abbrev pub taken {ℓ} : {A : Type ℓ} → Option A → List A
taken none = []
taken (some x) = x ∷ []

module _ {I : Type 0} where
  -- select { case ch <- msg: … default: … }, for a channel of capacity `qsize`
  unfoldable pub offer : ℕ → Queue I → I → Option (Queue I)
  offer qsize q msg =
      if ltb (length q.waiting) qsize
      then some (record { waiting = q.waiting ++ (msg ∷ []) })
      else none

  serve_from : List I → Queue I × Option I
  serve_from [] = (record { waiting = [] }, none)
  serve_from (msg ∷ rest) = (record { waiting = rest }, some msg)

  -- msg := <-ch: the queue that is left, and the message, if there is one.
  pub serve : Queue I → Queue I × Option I
  unfolding serve_from
  serve q = serve_from q.waiting

  -- What a receive takes off a queue that is not empty.
  pub serve-cons :
      (q : Queue I) (msg : I) (rest : List I)
      → q.waiting ≡ msg ∷ rest
      → serve q ≡ (record { waiting = rest }, some msg)
  unfolding serve serve_from
  serve-cons q msg rest h = ap serve_from h

  -- A receive takes the first message off, or finds none.
  pub serve-taken : (q : Queue I) → q.waiting ≡ taken (serve q).1 ++ (serve q).0.waiting
  unfolding serve serve_from
  serve-taken q = go q.waiting
    where
      go : (ws : List I) → ws ≡ taken (serve_from ws).1 ++ (serve_from ws).0.waiting
      go [] = refl
      go (w ∷ ws) = refl
