-- ===== src/Client/EventBus/Transparent.antt =====
-- client.go OnState and the others, and eventbus_client.go UseEventBus: the order in which handlers
-- are registered and a bus is attached.
use navlink.Base.{
  ◌≡◌, refl, sym, ap, ◌∙◌, Bool, true, false, Option, none, some, List, [], ◌∷◌, ◌++◌,
  if◌then◌else◌,
}
use navlink.Base.Text.{string_eq}
use navlink.Errors.{GoError}
use navlink.Inbound.{Envelope}
use navlink.Inbound.Pipeline.{run_handlers}
use navlink.Bus.{Memory, new_memory, subscribe}
use navlink.Bus.Delivery.{publish-new_memory}
use navlink.Client.EventBus.{
  TypedKind, state, connection, visualization, factsheet, same_kind, event_name, typed,
  TypedHandler, EventHandler, Handlers, set, wrap, subscribe_typed, on_with, on_typed,
  use_event_bus, deliver_with, deliver_typed,
}
use navlink.Client.EventBus.Migration.{served, subscribe-Grown}
use navlink.Client.EventBus.Served.{
  run_all, run_all-append, run_all-wrap, deliver_typed-bus, deliver_typed-migrate,
}

same_kind-eq : (j k : TypedKind) → same_kind j k ≡ true → j ≡ k
same_kind-eq state state h = refl
same_kind-eq connection connection h = refl
same_kind-eq visualization visualization h = refl
same_kind-eq factsheet factsheet h = refl
same_kind-eq state connection h = cc
same_kind-eq state visualization h = cc
same_kind-eq state factsheet h = cc
same_kind-eq connection state h = cc
same_kind-eq connection visualization h = cc
same_kind-eq connection factsheet h = cc
same_kind-eq visualization state h = cc
same_kind-eq visualization connection h = cc
same_kind-eq visualization factsheet h = cc
same_kind-eq factsheet state h = cc
same_kind-eq factsheet connection h = cc
same_kind-eq factsheet visualization h = cc

module _ {E V M X : Type 0} (env : Envelope V) (msg : M) where
  run_handlers-append :
      (hs later : List (TypedHandler E V M X)) (r : X × Option (GoError E))
      → run_handlers (hs ++ later) env msg r
        ≡ run_handlers later env msg (run_handlers hs env msg r)
  unfolding run_handlers
  run_handlers-append [] [] (x, some e) = refl
  run_handlers-append [] (_ ∷ _) (x, some e) = refl
  run_handlers-append (_ ∷ _) [] (x, some e) = refl
  run_handlers-append (_ ∷ _) (_ ∷ _) (x, some e) = refl
  run_handlers-append [] later (x, none) = refl
  run_handlers-append (h ∷ hs) later (x, none) = run_handlers-append hs later (h x env msg)

-- What one more handler, of kind `j`, makes of a delivery of kind `k`.
abbrev pub and_then :
    {E V M X : Type 0}
    → TypedKind
    → Envelope V
    → M
    → TypedKind
    → TypedHandler E V M X
    → X × Option (GoError E)
    → X × Option (GoError E)
and_then k env msg j h r = if same_kind j k then run_handlers (h ∷ []) env msg r else r

module _ {E V M X : Type 0} (C : Type 0) (k : TypedKind) (x : X) (env : Envelope V) (msg : M) where
  deliver_typed-subscribe_typed :
      (c : Handlers E V M C X) (j : TypedKind) (h : TypedHandler E V M X)
      (m : Memory (EventHandler E V M C X))
      → deliver_typed (subscribe_typed c m (event_name j) (wrap j h)) k x env msg
        ≡ and_then k env msg j h (run_all (served m (event_name k)) (typed k env msg) (x, none))
  unfolding subscribe_typed
  deliver_typed-subscribe_typed c j h m =
      deliver_typed-bus (subscribe_typed c m (event_name j) (wrap j h)) m' k x env msg refl
      ∙ ap (λ hs. run_all hs (typed k env msg) (x, none)) (subscribe-Grown m j (wrap j h) k)
      ∙ by_test (same_kind j k) (same_kind-eq j k)
    where
      m' : Memory (EventHandler E V M C X)
      m' = (subscribe m (event_name j) (some (wrap j h))).0

      by_test :
          (b : Bool)
          → (b ≡ true → j ≡ k)
          → run_all
              (if b then served m (event_name j) ++ (wrap j h ∷ []) else served m (event_name k))
              (typed k env msg)
              (x, none)
            ≡ (if b
                then run_handlers
                    (h ∷ [])
                    env
                    msg
                    (run_all (served m (event_name k)) (typed k env msg) (x, none))
                else run_all (served m (event_name k)) (typed k env msg) (x, none))
      by_test false same = refl
      by_test true same =
          ap (λ i. run_all (served m (event_name i) ++ (wrap i h ∷ [])) (typed k env msg) (x, none))
            (same refl)
          ∙ run_all-append (served m (event_name k)) (wrap k h ∷ []) (typed k env msg) (x, none)
          ∙ run_all-wrap C k (h ∷ []) env msg _

  run_handlers-set :
      (c : Handlers E V M C X) (j : TypedKind) (h : TypedHandler E V M X)
      → run_handlers (set c.lists j (c.lists j ++ (h ∷ [])) k) env msg (x, none)
        ≡ and_then k env msg j h (run_handlers (c.lists k) env msg (x, none))
  run_handlers-set c j h = by_test (same_kind j k) (same_kind-eq j k)
    where
      by_test :
          (b : Bool)
          → (b ≡ true → j ≡ k)
          → run_handlers (if b then c.lists j ++ (h ∷ []) else c.lists k) env msg (x, none) ≡ (
              if b
              then run_handlers (h ∷ []) env msg (run_handlers (c.lists k) env msg (x, none))
              else run_handlers (c.lists k) env msg (x, none))
      by_test false same = refl
      by_test true same =
          ap (λ i. run_handlers (c.lists i ++ (h ∷ [])) env msg (x, none)) (same refl)
          ∙ run_handlers-append env msg (c.lists k) (h ∷ []) (x, none)

  deliver_typed-on_typed :
      (c : Handlers E V M C X) (j : TypedKind) (h : TypedHandler E V M X)
      → deliver_typed (on_typed c j (some h)) k x env msg
        ≡ and_then k env msg j h (deliver_typed c k x env msg)
  unfolding on_typed on_with deliver_typed deliver_with
  deliver_typed-on_typed c j h = go c.bus refl
    where
      go :
          (bus : Option (Memory (EventHandler E V M C X)))
          → c.bus ≡ bus
          → deliver_typed (on_with (record c { want = set c.want j true }) j h bus) k x env msg
            ≡ and_then k env msg j h (deliver_typed c k x env msg)
      go none off =
          ap
            (deliver_with
              (record c { want = set c.want j true; lists = set c.lists j (c.lists j ++ (h ∷ [])) })
              k x env msg)
            off
          ∙ run_handlers-set c j h
          ∙ sym (ap (λ b. and_then k env msg j h (deliver_with c k x env msg b)) off)
      go (some m) on =
          deliver_typed-subscribe_typed (record c { want = set c.want j true }) j h m
          ∙ sym (ap (and_then k env msg j h) (deliver_typed-bus c m k x env msg on))

-- A sequence of registrations of typed handlers.
unfoldable pub on_all :
    {E V M C X : Type 0}
    → Handlers E V M C X
    → List (TypedKind × TypedHandler E V M X)
    → Handlers E V M C X
on_all c [] = c
on_all c ((j, h) ∷ rs) = on_all (on_typed c j (some h)) rs

module _ {E V M X : Type 0} (k : TypedKind) (env : Envelope V) (msg : M) where
  all_then :
      List (TypedKind × TypedHandler E V M X) → X × Option (GoError E) → X × Option (GoError E)
  all_then [] r = r
  all_then ((j, h) ∷ rs) r = all_then rs (and_then k env msg j h r)

  all_then-append :
      (rs later : List (TypedKind × TypedHandler E V M X)) (r : X × Option (GoError E))
      → all_then (rs ++ later) r ≡ all_then later (all_then rs r)
  unfolding all_then
  all_then-append [] later r = refl
  all_then-append ((j, h) ∷ rs) later r = all_then-append rs later (and_then k env msg j h r)

module _ {E V M C X : Type 0} (k : TypedKind) (x : X) (env : Envelope V) (msg : M) where
  deliver_typed-on_all :
      (rs : List (TypedKind × TypedHandler E V M X)) (c : Handlers E V M C X)
      → deliver_typed (on_all c rs) k x env msg
        ≡ all_then k env msg rs (deliver_typed c k x env msg)
  unfolding on_all all_then
  deliver_typed-on_all [] c = refl
  deliver_typed-on_all ((j, h) ∷ rs) c =
      deliver_typed-on_all rs (on_typed c j (some h))
      ∙ ap (all_then k env msg rs) (deliver_typed-on_typed C k x env msg c j h)

  on_all-bus :
      (rs : List (TypedKind × TypedHandler E V M X)) (c : Handlers E V M C X)
      → c.bus ≡ none
      → (on_all c rs).bus ≡ none
  unfolding on_all on_typed on_with
  on_all-bus [] c off = off
  on_all-bus ((j, h) ∷ rs) c off =
      on_all-bus rs (on_typed c j (some h))
        (ap (λ b. (on_with (record c { want = set c.want j true }) j h b).bus) off ∙ off)

  deliver_typed-none :
      (c : Handlers E V M C X)
      → c.bus ≡ none
      → deliver_typed c k x env msg ≡ run_handlers (c.lists k) env msg (x, none)
  unfolding deliver_typed deliver_with
  deliver_typed-none c off = ap (deliver_with c k x env msg) off

  -- A new bus may be attached at any point among the registrations of typed handlers: a message of
  -- any kind runs the same handlers, in the same order, with the same error, as when the same
  -- registrations are made on a client that has no bus.
  pub deliver_typed-use_event_bus :
      (before later : List (TypedKind × TypedHandler E V M X)) (c : Handlers E V M C X)
      → c.bus ≡ none
      → deliver_typed (on_all (use_event_bus (on_all c before) (some new_memory)) later) k x env msg
        ≡ deliver_typed (on_all c (before ++ later)) k x env msg
  deliver_typed-use_event_bus before later c off =
      deliver_typed-on_all later _
      ∙ ap (all_then k env msg later) (
          deliver_typed-migrate (on_all c before) new_memory k x env msg
          ∙ ap (run_handlers ((on_all c before).lists k) env msg)
              (publish-new_memory (λ h. h (typed k env msg)) (event_name k) x)
          ∙ sym (deliver_typed-none (on_all c before) (on_all-bus before c off))
          ∙ deliver_typed-on_all before c)
      ∙ sym (all_then-append k env msg before later (deliver_typed c k x env msg))
      ∙ sym (deliver_typed-on_all (before ++ later) c)
