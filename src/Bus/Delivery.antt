-- ===== src/Bus/Delivery.antt =====
-- internal/bus/memory.go Publish: who hears of an event, and in which order.
use navlink.Base.{◌+◌, ◌≡◌, ◌≢◌, refl, ap, ◌∙◌, Option, none, some, List, [], ◌∷◌, ◌++◌}
use navlink.Base.Text.{GoString, string_eq}
use navlink.Base.Dict.{lookup}
use navlink.Errors.{GoError}
use navlink.Bus.{Subscription, Memory, new_memory, subscribers, subscribe, publish_to, publish}
use navlink.Bus.Order.{subscribers-subscribe, if_same}

module _ {E D X : Type 0} (handle : D → X → X × Option (GoError E)) where
  publish_to-append :
      (subs later : List (Subscription D)) (r : X × Option (GoError E))
      → publish_to handle (subs ++ later) r ≡ publish_to handle later (publish_to handle subs r)
  unfolding publish_to
  publish_to-append subs [] (x, some e) = refl
  publish_to-append subs (_ ∷ _) (x, some e) = refl
  publish_to-append [] later (x, none) = refl
  publish_to-append (s ∷ subs) later (x, none) = publish_to-append subs later (handle s.h x)

  pub publish-new_memory :
      (event : GoString) (x : X) → publish handle new_memory event x ≡ (x, none)
  unfolding publish publish_to new_memory lookup
  publish-new_memory event x = refl

  -- After a Subscribe, Publish of that event runs the subscribers of before, in their order, and then,
  -- if none of them failed, the new one; Publish of any other event does what it did.
  pub publish-subscribe :
      (m : Memory D) (event read : GoString) (h : D) (x : X)
      → let m' = (subscribe m event (some h)).0 in
        (publish handle m' event x
          ≡ publish_to handle
              (record { id = m.next_id + 1; h = h } ∷ [])
              (publish handle m event x))
        × (event ≢ read → publish handle m' read x ≡ publish handle m read x)
  unfolding publish
  publish-subscribe m event read h x =
      let new : Subscription D = record { id = m.next_id + 1; h = h } in
      (
        ap (λ subs. publish_to handle subs (x, none))
              (subscribers-subscribe m event event h
                ∙ if_same event event (λ l. l ≡ subscribers m event ++ (new ∷ [])) (λ _. refl)
                    (λ other. absurd (other refl)))
            ∙ publish_to-append (subscribers m event) (new ∷ []) (x, none),
        λ other.
            ap (λ subs. publish_to handle subs (x, none))
              (subscribers-subscribe m event read h
                ∙ if_same event read (λ l. l ≡ subscribers m read) (λ e. absurd (other e))
                    (λ _. refl)),
      )
