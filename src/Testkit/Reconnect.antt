-- ===== src/Testkit/Reconnect.antt =====
-- testkit/fake_broker.go SimulateReconnect with client.go handleReconnect: a client on the in-process
-- broker.
use navlink.Base.{
  ℕ, ◌+◌, ◌≡◌, refl, ap, ◌∙◌, true, map, Option, none, List, [], ◌∷◌, ◌++◌, if_cases, arith, nat_eq,
}
use navlink.Base.Result.{Result}
use navlink.Base.Lists.{map-append}
use navlink.Base.Text.{GoString}
use navlink.Base.Dict.{delete, insert_new}
use navlink.Errors.{Gerr, GoError}
use navlink.Session.Listens.{IsOk, Listens}
use navlink.Client.{Transport, Client, wanted_filters, handle_reconnect}
use navlink.Client.Reconnect.{session_filters, IsReady, handle_reconnect-Heard}
use navlink.Testkit.{FakeBroker, Sub, subscribe, unsubscribe, drop_subscriptions, filters}
use navlink.Testkit.Contract.{Fresh, broker_net}

-- A broker that never gives out an identifier twice.
abbrev pub Broker : Type 0 → Type 0 → Type 0
Broker E D = (b : FakeBroker E D) × Fresh b

module _ {E D : Type 0} where
  -- The broker runs, and Filters are these, in order.
  abbrev pub Hears : FakeBroker E D → List GoString → Type 0
  Hears b fs = (b.running ≡ true) × (filters b ≡ fs)

  subscribe-Hears :
      (handler : D) (w : Broker E D) (f : GoString) (fs : List GoString)
      → Hears w.0 fs
      → let r = subscribe w.0 f handler in IsOk r.1 × Hears r.0 (fs ++ (f ∷ []))
  unfolding subscribe filters
  subscribe-Hears handler (b, fresh) f fs (up, heard) =
      let name : ℕ × Sub D → GoString = λ entry. entry.1.filter in
      if_cases {A = FakeBroker E D × Result (GoError E) ℕ}
        (λ r. IsOk r.1 × Hears r.0 (fs ++ (f ∷ []))) b.running
        (λ on. (
          tt,
          (
            on,
            ap (map name) (
                  insert_new (b.next_id + 1) (record { filter = f; handler = handler }) b.subs
                    (fresh (b.next_id + 1) (omega arith)))
                ∙ map-append name b.subs _
                ∙ ap (λ l. l ++ (f ∷ [])) heard,
          ),
        ))
        (λ off. absurd (cc (off, up)))

  unsubscribe-nothing : (b : FakeBroker E D) (id : ℕ) → Hears b [] → Hears (unsubscribe b id).0 []
  unfolding unsubscribe filters delete
  unsubscribe-nothing b id (up, heard) = (up, go b.subs heard)
    where
      go :
          (m : List (ℕ × Sub D))
          → map (λ entry. entry.1.filter) m ≡ []
          → map (λ entry. entry.1.filter) (delete id m) ≡ []
      go [] h = refl
      go (x ∷ m) h = absurd (cc h)

  -- FakeBroker, while it runs, accepts every subscription.
  abbrev broker_net-Listens : (handler : D) → Listens (broker_net {E = E} handler)
  broker_net-Listens handler = record {
    hears = λ w fs. Hears w.0 fs;
    subscribe-hears = λ w f fs h. subscribe-Hears handler w f fs h;
    unsubscribe-empty = λ w u h. unsubscribe-nothing w.0 u h;
  }

-- A client is started on a broker that runs, and its session, if it has one, is started and has each
-- vehicle under its own key. After SimulateReconnect and the reconnect handler there is no error, and
-- the broker has exactly the filters of the session, first that of the connections and then those of
-- each tracked vehicle, and those that the client itself wants, in order.
pub simulate_reconnect-handle_reconnect :
    {E D H : Type 0} ⦃g : Gerr E⦄ (handler : D)
    (start stop : Broker E D → Broker E D × Option (GoError E)) (b : FakeBroker E D)
    (c : Client (Broker E D) ℕ H)
    → b.running ≡ true
    → c.world.0 ≡ drop_subscriptions b
    → c.started ≡ true
    → IsReady c.fleet
    → let transport : Transport E (Broker E D) ℕ = record {
      start = start;
      stop = stop;
      net = broker_net handler;
    } in
      let r = handle_reconnect transport c in
      (r.1 ≡ none) × (filters r.0.world.0 ≡ session_filters c.fleet ++ wanted_filters c)
unfolding drop_subscriptions filters
simulate_reconnect-handle_reconnect handler start stop b c up dropped on ready =
    let (fine, heard) =
      handle_reconnect-Heard (record { start = start; stop = stop; net = broker_net handler })
        (broker_net-Listens handler) c on ready
        (ap (λ (x : FakeBroker _ _). x.running) dropped ∙ up, ap (λ x. filters x) dropped) in
    (fine, heard.1)
