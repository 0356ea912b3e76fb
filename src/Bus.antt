-- ===== src/Bus.antt =====
-- internal/bus/memory.go, and events.go over it: a synchronous bus in the process.
pub mod Order
pub mod Delivery
mod Examples
use navlink.Base.{
  ℕ, ◌+◌, Bool, true, false, Option, none, some, List, [], ◌∷◌, ◌++◌, if◌then◌else◌, ◌==◌, nat_eq,
}
use navlink.Base.Text.{GoString, string_eq}
use navlink.Base.Dict.{lookup, insert}
use navlink.Errors.{GoError}

-- subscription, with a handler of type `D`
pub record Subscription (D : Type 0) : Type 0 where
  pub id : ℕ
  pub h : D

-- Memory
pub record Memory (D : Type 0) : Type 0 where
  pub next_id : ℕ
  pub subs : List (GoString × List (Subscription D))

abbrev pub or_none {ℓ} : {A : Type ℓ} → Option (List A) → List A
or_none none = []
or_none (some xs) = xs

module _ {D : Type 0} where
  -- NewMemory
  unfoldable pub new_memory : Memory D
  new_memory = record { next_id = 0; subs = [] }

  -- m.subs[event]
  abbrev pub subscribers : Memory D → GoString → List (Subscription D)
  subscribers m event = or_none (lookup event m.subs)

  -- Subscribe; the result is the identifier that the returned Unsubscribe holds, if any.
  unfoldable pub subscribe : Memory D → GoString → Option D → Memory D × Option ℕ
  subscribe m event none = (m, none)
  subscribe m event (some h) = (
    record m {
      next_id = m.next_id + 1;
      subs =
          insert event (subscribers m event ++ (record { id = m.next_id + 1; h = h } ∷ [])) m.subs;
    },
    some (m.next_id + 1),
  )

  -- append(list[:i], list[i+1:]…) at the first entry of the identifier
  remove_id : ℕ → List (Subscription D) → List (Subscription D)
  remove_id id [] = []
  remove_id id (s ∷ list) = let rest = remove_id id list in if s.id == id then list else s ∷ rest

  -- The loop finds an entry of the identifier.
  has_id : ℕ → List (Subscription D) → Bool
  has_id id [] = false
  has_id id (s ∷ list) = let rest = has_id id list in if s.id == id then true else rest

  -- The Unsubscribe of a subscription.
  unfoldable pub unsubscribe : Memory D → GoString → ℕ → Memory D
  unfolding remove_id has_id
  unsubscribe m event id =
      let list = subscribers m event in
      if has_id id list then record m { subs = insert event (remove_id id list) m.subs } else m

-- `handle` runs a handler on a state `X`.
module _ {E D X : Type 0} (handle : D → X → X × Option (GoError E)) where
  -- The loop of Publish: the first error ends it.
  unfoldable pub publish_to :
      List (Subscription D) → X × Option (GoError E) → X × Option (GoError E)
  publish_to subs (x, some e) = (x, some e)
  publish_to [] (x, none) = (x, none)
  publish_to (s ∷ subs) (x, none) = publish_to subs (handle s.h x)

  -- Publish
  unfoldable pub publish : Memory D → GoString → X → X × Option (GoError E)
  unfolding publish_to
  publish m event x = publish_to (subscribers m event) (x, none)
