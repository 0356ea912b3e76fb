-- ===== src/Client/EventBus/Served.antt =====
-- eventbus_client.go UseEventBus: a bus serves the handlers as their lists did.
use navlink.Base.{
  ◌≡◌, refl, sym, ap, ◌∙◌, Bool, true, false, Option, none, some, List, [], ◌∷◌, ◌++◌, map,
  if◌then◌else◌,
}
use navlink.Base.Text.{GoString}
use navlink.Errors.{GoError}
use navlink.Inbound.{Envelope}
use navlink.Inbound.Pipeline.{run_handlers}
use navlink.Bus.{Subscription, Memory, subscribers, publish_to, publish}
use navlink.Client.EventBus.{
  TypedKind, state, connection, visualization, factsheet, event_name, Payload, typed, TypedHandler,
  EventHandler, Handlers, same_kind, set, wrap, migrate_list, migrate, use_event_bus, publish_event,
  deliver_with, deliver_typed,
}
use navlink.Client.EventBus.Migration.{served, same_kind_refl, Moved, migrate_list-Moved}

module _ {E V M C X : Type 0} where
  -- A bus runs its handlers in order, up to the first error.
  pub run_all :
      List (EventHandler E V M C X)
      → Payload V M C
      → X × Option (GoError E)
      → X × Option (GoError E)
  run_all hs payload (x, some e) = (x, some e)
  run_all [] payload (x, none) = (x, none)
  run_all (h ∷ hs) payload (x, none) = run_all hs payload (h payload x)

  publish_to-run_all :
      (subs : List (Subscription (EventHandler E V M C X))) (payload : Payload V M C)
      (r : X × Option (GoError E))
      → publish_to (λ h. h payload) subs r ≡ run_all (map (λ s. s.h) subs) payload r
  unfolding publish_to run_all
  publish_to-run_all [] payload (x, some e) = refl
  publish_to-run_all (s ∷ subs) payload (x, some e) = refl
  publish_to-run_all [] payload (x, none) = refl
  publish_to-run_all (s ∷ subs) payload (x, none) = publish_to-run_all subs payload (s.h payload x)

  pub run_all-append :
      (hs later : List (EventHandler E V M C X)) (payload : Payload V M C)
      (r : X × Option (GoError E))
      → run_all (hs ++ later) payload r ≡ run_all later payload (run_all hs payload r)
  unfolding run_all
  run_all-append [] [] payload (x, some e) = refl
  run_all-append [] (_ ∷ _) payload (x, some e) = refl
  run_all-append (_ ∷ _) [] payload (x, some e) = refl
  run_all-append (_ ∷ _) (_ ∷ _) payload (x, some e) = refl
  run_all-append [] later payload (x, none) = refl
  run_all-append (h ∷ hs) later payload (x, none) = run_all-append hs later payload (h payload x)

  publish-run_all :
      (m : Memory (EventHandler E V M C X)) (event : GoString) (payload : Payload V M C) (x : X)
      → publish (λ h. h payload) m event x ≡ run_all (served m event) payload (x, none)
  unfolding publish
  publish-run_all m event payload x = publish_to-run_all (subscribers m event) payload (x, none)

module _ {E V M X : Type 0} where
  run_handlers-nil :
      (env : Envelope V) (msg : M) (r : X × Option (GoError E)) → run_handlers [] env msg r ≡ r
  unfolding run_handlers
  run_handlers-nil env msg (x, none) = refl
  run_handlers-nil env msg (x, some e) = refl

module _ {E V M X : Type 0} (C : Type 0) where
  pub run_all-wrap :
      (k : TypedKind) (hs : List (TypedHandler E V M X)) (env : Envelope V) (msg : M)
      (r : X × Option (GoError E))
      → run_all {C = C} (map (wrap k) hs) (typed k env msg) r ≡ run_handlers hs env msg r
  unfolding run_all run_handlers wrap
  run_all-wrap k [] env msg (x, some e) = refl
  run_all-wrap k (h ∷ hs) env msg (x, some e) = refl
  run_all-wrap k [] env msg (x, none) = refl
  run_all-wrap k (h ∷ hs) env msg (x, none) =
      ap
        (λ b.
          run_all {C = C} (map (wrap k) hs) (typed k env msg)
            (if b then h x env msg else (x, none)))
        (same_kind_refl k)
      ∙ run_all-wrap k hs env msg (h x env msg)

module _ {E V M C X : Type 0} where
  -- The bus of a client has the handlers `ds` for its events, and its lists are `ls`.
  pub record Serves (ds : TypedKind → List (EventHandler E V M C X))
      (ls : TypedKind → List (TypedHandler E V M X)) (m : Memory (EventHandler E V M C X))
      (c : Handlers E V M C X) : Type 0 where
    pub serves : (k : TypedKind) → served m (event_name k) ≡ ds k
    pub lists : (k : TypedKind) → c.lists k ≡ ls k
    pub bus : c.bus ≡ some m

  migrate-Serves :
      (k : TypedKind) (ds : TypedKind → List (EventHandler E V M C X))
      (ls : TypedKind → List (TypedHandler E V M X)) (m : Memory (EventHandler E V M C X))
      (c : Handlers E V M C X)
      → Serves ds ls m c
      → Serves
          (set ds k (ds k ++ map (wrap k) (ls k)))
          (set ls k [])
          (migrate k (m, c)).0
          (migrate k (m, c)).1
  unfolding migrate
  migrate-Serves k ds ls m c s = record {
    serves = λ j. v.grown j ∙ by_test j (same_kind k j);
    lists = λ j. ap (λ l. if same_kind k j then [] else l) (ap (λ f. f j) v.lists ∙ s.lists j);
    bus = v.bus;
  }
    where
      v : Moved c m k (c.lists k) (migrate_list c m k (c.lists k))
      v = migrate_list-Moved (c.lists k) c m k s.bus

      by_test :
          (j : TypedKind) (b : Bool)
          → (if b
              then served m (event_name k) ++ map (wrap k) (c.lists k)
              else served m (event_name j))
            ≡ (if b then ds k ++ map (wrap k) (ls k) else ds j)
      by_test j true =
          ap (λ l. l ++ map (wrap k) (c.lists k)) (s.serves k)
          ∙ ap (λ hs. ds k ++ map (wrap k) hs) (s.lists k)
      by_test j false = s.serves j

  -- What UseEventBus leaves: a bus that serves its own handlers and then those of each list, which
  -- are empty.
  pub record Migrated (c : Handlers E V M C X) (m : Memory (EventHandler E V M C X))
      (c' : Handlers E V M C X) : Type 0 where
    pub after : Memory (EventHandler E V M C X)
    pub serves :
        (k : TypedKind)
        → served after (event_name k) ≡ served m (event_name k) ++ map (wrap k) (c.lists k)
    pub emptied : (k : TypedKind) → c'.lists k ≡ []
    pub bus : c'.bus ≡ some after

  pub use_event_bus-Migrated :
      (c : Handlers E V M C X) (m : Memory (EventHandler E V M C X))
      → Migrated c m (use_event_bus c (some m))
  unfolding use_event_bus
  use_event_bus-Migrated c m =
      let v = migrate-Serves factsheet _ _ _ _ (
        migrate-Serves visualization _ _ _ _ (
          migrate-Serves connection _ _ _ _ (
            migrate-Serves state (λ k. served m (event_name k)) c.lists m
              (record c { bus = some m })
              (record { serves = λ k. refl; lists = λ k. refl; bus = refl })))) in
      record {
        after = _;
        serves = elim [
          | state ↦ v.serves state
          | connection ↦ v.serves connection
          | visualization ↦ v.serves visualization
          | factsheet ↦ v.serves factsheet
        ];
        emptied = elim [
          | state ↦ v.lists state
          | connection ↦ v.lists connection
          | visualization ↦ v.lists visualization
          | factsheet ↦ v.lists factsheet
        ];
        bus = v.bus;
      }

  pub deliver_typed-bus :
      (c : Handlers E V M C X) (m : Memory (EventHandler E V M C X)) (k : TypedKind) (x : X)
      (env : Envelope V) (msg : M)
      → c.bus ≡ some m
      → deliver_typed c k x env msg ≡ run_all (served m (event_name k)) (typed k env msg) (x, none)
  unfolding deliver_typed deliver_with publish_event
  deliver_typed-bus c m k x env msg on =
      ap (deliver_with c k x env msg) on ∙ publish-run_all m (event_name k) (typed k env msg) x

  -- Whatever a bus already serves: after UseEventBus, a typed message runs the subscribers that the
  -- bus had for its event, and then, if none of them failed, the client's handlers of its kind, in
  -- the order of registration up to the first error.
  pub deliver_typed-migrate :
      (c : Handlers E V M C X) (m : Memory (EventHandler E V M C X)) (k : TypedKind) (x : X)
      (env : Envelope V) (msg : M)
      → deliver_typed (use_event_bus c (some m)) k x env msg
        ≡ run_handlers (c.lists k) env msg (publish (λ h. h (typed k env msg)) m (event_name k) x)
  deliver_typed-migrate c m k x env msg =
      deliver_typed-bus (use_event_bus c (some m)) u.after k x env msg u.bus
      ∙ ap (λ hs. run_all hs (typed k env msg) (x, none)) (u.serves k)
      ∙ run_all-append (served m (event_name k)) _ (typed k env msg) (x, none)
      ∙ run_all-wrap C k (c.lists k) env msg _
      ∙ ap (run_handlers (c.lists k) env msg)
          (sym (publish-run_all m (event_name k) (typed k env msg) x))
    where
      u : Migrated c m (use_event_bus c (some m))
      u = use_event_bus-Migrated c m

  -- After a second UseEventBus, with another bus, a typed message runs the subscribers of that bus
  -- and none of the handlers that were registered before it: they stay on the first bus.
  pub use_event_bus_twice :
      (c : Handlers E V M C X) (m n : Memory (EventHandler E V M C X)) (k : TypedKind) (x : X)
      (env : Envelope V) (msg : M)
      → deliver_typed (use_event_bus (use_event_bus c (some m)) (some n)) k x env msg
        ≡ publish (λ h. h (typed k env msg)) n (event_name k) x
  use_event_bus_twice c m n k x env msg =
      deliver_typed-migrate (use_event_bus c (some m)) n k x env msg
      ∙ ap (λ hs. run_handlers hs env msg (publish (λ h. h (typed k env msg)) n (event_name k) x))
          ((use_event_bus-Migrated c m).emptied k)
      ∙ run_handlers-nil env msg _
